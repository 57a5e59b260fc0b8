-- ===== src/Nodes/Numbers.antt =====
-- spark_jobs/pyg_builder/node_mapper.py: the numbers of a type have no gap.
use mathlib.Core.List
use mathlib.Core.Bool.{false≢true}
use pyg_knowledge_graph_buil.Base.{
  ℕ, suc, [], ◌∷◌, true, false, List, refl, All, ◌≡◌, ◌++◌, ap, ap₂, inl, inr, Bool-cases, sym, ◌∙◌,
  map,
}
use pyg_knowledge_graph_buil.Base.Texts.{
  Text, text_eq, text_eq_refl, text_eq_iff, among, text_lt, text_lt_irreflexive,
}
use pyg_knowledge_graph_buil.Base.Dict.{select}
use pyg_knowledge_graph_buil.Sources.{sorted_texts}
use pyg_knowledge_graph_buil.Sources.Paths.Read.{Rises, sorted_texts-Rises, among-sorted_texts}
use pyg_knowledge_graph_buil.Nodes.{
  TypeRow, NodeRow, number_from, number_types, number_nodes, uris_of,
}

-- The rows of a type.
abbrev pub of_type : Text → List NodeRow → List NodeRow
of_type name nodes = select (λ node. text_eq node.node_type name) nodes

abbrev pub uris : List TypeRow → List Text
uris rows = map (λ row. row.0) rows

of_type-append :
    (name : Text) (xs ys : List NodeRow)
    → of_type name (xs ++ ys) ≡ of_type name xs ++ of_type name ys
of_type-append name [] ys = refl
of_type-append name (x ∷ xs) ys = elim (Bool-cases (text_eq x.node_type name)) [
  | inl e ↦ rw e (ap (λ t. x ∷ t) (of_type-append name xs ys))
  | inr e ↦ rw e (of_type-append name xs ys)
]

of_type-own :
    (name : Text) (n : ℕ) (us : List Text)
    → of_type name (number_from name n us) ≡ number_from name n us
of_type-own name n [] = refl
of_type-own name n (u ∷ us) =
    rw (text_eq_refl name) (
      ap (λ t. record { uri = u; node_id = n; node_type = name } ∷ t) (of_type-own name (suc n) us))

of_type-other :
    (name other : Text) (n : ℕ) (us : List Text)
    → text_eq other name ≡ false
    → of_type name (number_from other n us) ≡ []
of_type-other name other n [] h = refl
of_type-other name other n (u ∷ us) h = rw h (of_type-other name other (suc n) us h)

-- A name below all others is none of them.
lowest :
    (t : Text) (names : List Text) → All (λ u. text_lt t u ≡ true) names → among t names ≡ false
unfolding among
lowest t [] h = refl
lowest t (n ∷ names) (lt, h) = elim (Bool-cases (text_eq n t)) [
  | inl e ↦
      let same : n ≡ t = (text_eq_iff n t).0 e in
      absurd (false≢true (sym (text_lt_irreflexive t) ∙ (rw same at lt)))
  | inr e ↦ rw e (lowest t names h)
]

of_type-absent :
    (rows : List TypeRow) (name : Text) (names : List Text)
    → among name names ≡ false
    → of_type name (number_types rows names) ≡ []
unfolding among
of_type-absent rows name [] h = refl
of_type-absent rows name (n ∷ names) h = elim (Bool-cases (text_eq n name)) [
  | inl e ↦ absurd (false≢true (sym (rw e at h)))
  | inr e ↦
      of_type-append name (number_from n 0 (sorted_texts (uris_of n rows)))
        (number_types rows names)
      ∙ ap₂ (λ a b. a ++ b) (of_type-other name n 0 (sorted_texts (uris_of n rows)) e)
          (of_type-absent rows name names (rw e at h))
]

of_type-present :
    (rows : List TypeRow) (name : Text) (names : List Text)
    → Rises names
    → among name names ≡ true
    → of_type name (number_types rows names) ≡ number_from name 0 (sorted_texts (uris_of name rows))
unfolding among
of_type-present rows name [] rises h = absurd (false≢true h)
of_type-present rows name (n ∷ names) (above, rises) h = elim (Bool-cases (text_eq n name)) [
  | inl e ↦
      let same : n ≡ name = (text_eq_iff n name).0 e in
      rw same (
        of_type-append name (number_from name 0 (sorted_texts (uris_of name rows)))
          (number_types rows names)
        ∙ ap₂ (λ a b. a ++ b) (of_type-own name 0 (sorted_texts (uris_of name rows)))
            (of_type-absent rows name names (lowest name names (rw same at above)))
        ∙ List.append-nil (number_from name 0 (sorted_texts (uris_of name rows))))
  | inr e ↦
      of_type-append name (number_from n 0 (sorted_texts (uris_of n rows)))
        (number_types rows names)
      ∙ ap₂ (λ a b. a ++ b) (of_type-other name n 0 (sorted_texts (uris_of n rows)) e)
          (of_type-present rows name names rises (rw e at h))
]

uris_of-absent :
    (name : Text) (rows : List TypeRow)
    → among name (map (λ row. row.1) rows) ≡ false
    → uris_of name rows ≡ []
unfolding among
uris_of-absent name [] h = refl
uris_of-absent name (row ∷ rows) h = elim (Bool-cases (text_eq row.1 name)) [
  | inl e ↦ absurd (false≢true (sym (rw e at h)))
  | inr e ↦ rw e (uris_of-absent name rows (rw e at h))
]

pub of_type-number_nodes :
    (rows : List TypeRow) (name : Text)
    → of_type name (number_nodes rows) ≡ number_from name 0 (sorted_texts (uris_of name rows))
unfolding number_nodes sorted_texts
of_type-number_nodes rows name = elim (Bool-cases (among name (map (λ row. row.1) rows))) [
  | inl e ↦
      of_type-present rows name (sorted_texts (map (λ row. row.1) rows))
        (sorted_texts-Rises (map (λ row. row.1) rows))
        (among-sorted_texts name (map (λ row. row.1) rows) ∙ e)
  | inr e ↦ rw (uris_of-absent name rows e) (
      of_type-absent rows name (sorted_texts (map (λ row. row.1) rows))
        (among-sorted_texts name (map (λ row. row.1) rows) ∙ e))
]
