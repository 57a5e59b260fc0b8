-- ===== src/Nodes/Below.antt =====
-- spark_jobs/pyg_builder/node_mapper.py: the number of a node is below the number of nodes of its type.
use mathlib.Core.Bool.{false≢true}
use pyg_knowledge_graph_buil.Base.{
  ℕ, suc, [], ◌∷◌, true, false, List, Bool, refl, arith, ◌≡◌, ap, inl, inr, Bool-cases, ◌∙◌, ◌||◌,
  ◌&&◌, any, sym, subst, ◌==◌, ltb, length, ◌<◌, ◌+◌, ltb→lt,
}
use pyg_knowledge_graph_buil.Base.Texts.{Text, text_eq}
use pyg_knowledge_graph_buil.Sources.{sorted_texts}
use pyg_knowledge_graph_buil.Nodes.{NodeRow, TypeRow, number_nodes, number_from, uris_of}
use pyg_knowledge_graph_buil.Nodes.Numbers.{of_type, of_type-number_nodes}

-- Whether an entity has a type and a number in the table of nodes.
abbrev pub has_node : List NodeRow → Text → Text → ℕ → Bool
has_node nodes uri name n =
    any (λ node. text_eq uri node.uri && (text_eq node.node_type name && node.node_id == n)) nodes

-- Whether a node is the one of a URI, a type and a number.
abbrev is_node : Text → Text → ℕ → NodeRow → Bool
is_node uri name n node = text_eq uri node.uri && (text_eq node.node_type name && node.node_id == n)

up_to_one :
    (n from rest : ℕ) (a b : Bool) → (a && (b && from == n)) ≡ true → ltb n (from + suc rest) ≡ true
up_to_one n from rest a b h = ground arith

up_to_more : (n from rest : ℕ) → ltb n (suc from + rest) ≡ true → ltb n (from + suc rest) ≡ true
up_to_more n from rest h = ground arith

node_below :
    (n from : ℕ) (name uri : Text) (us : List Text)
    → any (is_node uri name n) (number_from name from us) ≡ true
    → ltb n (from + length (number_from name from us)) ≡ true
node_below n from name uri [] h = absurd (false≢true h)
node_below n from name uri (u ∷ us) h =
    elim (Bool-cases (text_eq uri u && (text_eq name name && from == n))) [
      | inl e ↦
          up_to_one n from (length (number_from name (suc from) us)) (text_eq uri u)
            (text_eq name name) e
      | inr e ↦
          up_to_more n from (length (number_from name (suc from) us))
            (node_below n (suc from) name uri us (rw e at h))
    ]

not_of_type : (a b c : Bool) → ((a && (false && b)) || c) ≡ c
not_of_type a b c = ground arith

has_node-of_type :
    (nodes : List NodeRow) (uri name : Text) (n : ℕ)
    → has_node nodes uri name n ≡ has_node (of_type name nodes) uri name n
has_node-of_type [] uri name n = refl
has_node-of_type (node ∷ nodes) uri name n = elim (Bool-cases (text_eq node.node_type name)) [
  | inl e ↦
      let kept : of_type name (node ∷ nodes) ≡ node ∷ of_type name nodes = rw e refl in
      subst (λ l. has_node (node ∷ nodes) uri name n ≡ has_node l uri name n) (sym kept)
        (ap (λ b. is_node uri name n node || b) (has_node-of_type nodes uri name n))
  | inr e ↦ rw e (
      not_of_type (text_eq uri node.uri) (node.node_id == n) (has_node nodes uri name n)
      ∙ has_node-of_type nodes uri name n)
]

-- A node that the table has is below the number of nodes of its type.
pub has_node-below :
    (rows : List TypeRow) (uri name : Text) (n : ℕ)
    → has_node (number_nodes rows) uri name n ≡ true
    → n < length (of_type name (number_nodes rows))
has_node-below rows uri name n h =
    let us = sorted_texts (uris_of name rows) in
    let own = of_type-number_nodes rows name in
    let here : any (is_node uri name n) (number_from name 0 us) ≡ true =
      sym (
        has_node-of_type (number_nodes rows) uri name n
        ∙ ap (λ nodes. has_node nodes uri name n) own)
      ∙ h in
    subst (λ nodes. n < length nodes) (sym own)
      (omega
        (arith, ltb→lt n (0 + length (number_from name 0 us)) (node_below n 0 name uri us here)))
