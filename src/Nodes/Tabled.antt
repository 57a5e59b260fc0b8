-- ===== src/Nodes/Tabled.antt =====
-- spark_jobs/pyg_builder/node_mapper.py: what build_node_id_table returns, or raises.
use mathlib.Core.Option.{some-injective}
use pyg_knowledge_graph_buil.Base.{
  ℕ, [], ◌∷◌, true, false, none, some, List, Bool, Option, refl, All, arith, ◌≡◌, ap, inl, inr,
  Bool-cases, ◌∙◌, ◌||◌, ◌&&◌, any, sym, subst, ◌==◌, length, ◌<◌, map, not, if◌then◌else◌,
}
use pyg_knowledge_graph_buil.Base.Bools.{either_true}
use pyg_knowledge_graph_buil.Base.Texts.{
  Text, text_eq, text_eq_iff, text_eq_refl, starts_with, among,
}
use pyg_knowledge_graph_buil.Base.Result.{Result, ok, raise}
use pyg_knowledge_graph_buil.Sources.{sorted_texts}
use pyg_knowledge_graph_buil.Sources.Paths.Read.{among-sorted_texts, any-sorted_texts}
use pyg_knowledge_graph_buil.Naming.{
  NameTable, NameCheck, unknown, check_registered_names, passed, warned, refused,
}
use pyg_knowledge_graph_buil.Naming.Refused.{refuses, refuses-check}
use pyg_knowledge_graph_buil.Nodes.{
  NodeRow, NodeConfig, Statement, TypeRow, node_id_df, number_nodes, ranked, apply_config_filters,
  type_triples,
}
use pyg_knowledge_graph_buil.Nodes.Numbers.{of_type}
use pyg_knowledge_graph_buil.Nodes.Below.{has_node, has_node-below}
use pyg_knowledge_graph_buil.Nodes.Table.{
  node_counts, build_node_id_table, unless_unregistered, type_uris, type_uri_rows,
}

-- The count of a type.
abbrev pub count_in : Text → List (Text × ℕ) → Option ℕ
count_in name [] = none
count_in name ((n, count) ∷ counts) = if text_eq n name then some count else count_in name counts

-- The number of a node is below the count of its type.
abbrev pub Counted : List (Text × ℕ) → NodeRow → Type 0
Counted counts node =
    (count : ℕ) × (count_in node.node_type counts ≡ some count) × (node.node_id < count)

-- Where names are refused, an error; else the table of nodes, and counts that its numbers are below.
abbrev pub Tabled :
    List NodeRow → Bool → Result (List Text × List Text) (List NodeRow × List (Text × ℕ)) → Type 0
Tabled table blocked (raise _) = blocked ≡ true
Tabled table blocked (ok (nodes, counts)) =
    (blocked ≡ false)
    × (nodes ≡ table)
    × All (Counted counts) nodes
    × ((name : Text) (count : ℕ)
        → count_in name counts ≡ some count
        → count ≡ length (of_type name nodes))

count_in-map :
    (f : Text → ℕ) (name : Text) (names : List Text)
    → count_in name (map (λ n. (n, f n)) names) ≡ (if among name names then some (f name) else none)
unfolding among
count_in-map f name [] = refl
count_in-map f name (n ∷ names) = elim (Bool-cases (text_eq n name)) [
  | inl e ↦ rw (e, (text_eq_iff n name).0 e) refl
  | inr e ↦ rw e (count_in-map f name names)
]

abbrev types : List NodeRow → List Text
types nodes = map (λ node. node.node_type) nodes

count_of :
    (nodes : List NodeRow) (name : Text)
    → count_in name (node_counts nodes)
      ≡ (if among name (types nodes) then some (length (of_type name nodes)) else none)
unfolding node_counts
count_of nodes name =
    count_in-map (λ n. length (of_type n nodes)) name (sorted_texts (types nodes))
    ∙ ap (λ b. if b then some (length (of_type name nodes)) else none)
        (among-sorted_texts name (types nodes))

-- A row of a frame is in it, and so is its type.
abbrev Within : List NodeRow → NodeRow → Type 0
Within nodes node =
    (has_node nodes node.uri node.node_type node.node_id ≡ true)
    × (among node.node_type (types nodes) ≡ true)

Within-later :
    (node : NodeRow) (nodes rows : List NodeRow)
    → All (Within nodes) rows
    → All (Within (node ∷ nodes)) rows
unfolding among
Within-later node nodes [] h = tt
Within-later node nodes (row ∷ rows) ((here, named), h) =
    ((either_true _ _ here, either_true _ _ named), Within-later node nodes rows h)

own_node :
    (a b : Bool) (n : ℕ) (r : Bool) → a ≡ true → b ≡ true → ((a && (b && n == n)) || r) ≡ true
own_node a b n r h k = ground arith

All-Within : (nodes : List NodeRow) → All (Within nodes) nodes
unfolding among
All-Within [] = tt
All-Within (node ∷ nodes) = (
  (
    own_node (text_eq node.uri node.uri) (text_eq node.node_type node.node_type) node.node_id _
        (text_eq_refl node.uri) (text_eq_refl node.node_type),
    rw (text_eq_refl node.node_type) refl,
  ),
  Within-later node nodes nodes (All-Within nodes),
)

All-Counted :
    (table nodes : List NodeRow)
    → ((uri name : Text) (n : ℕ)
        → has_node table uri name n ≡ true
        → n < length (of_type name table))
    → All (Within table) nodes
    → All (Counted (node_counts table)) nodes
All-Counted table [] below h = tt
All-Counted table (node ∷ nodes) below ((here, named), h) = (
  (
    length (of_type node.node_type table),
    count_of table node.node_type ∙ rw named refl,
    below node.uri node.node_type node.node_id here,
  ),
  All-Counted table nodes below h,
)

counted_right :
    (nodes : List NodeRow) (name : Text) (count : ℕ)
    → count_in name (node_counts nodes) ≡ some count
    → count ≡ length (of_type name nodes)
counted_right nodes name count h =
    let found = sym (count_of nodes name) ∙ h in
    elim (Bool-cases (among name (types nodes))) [
      | inl e ↦ sym (some-injective _ _ (rw e at found))
      | inr e ↦ let clash : none ≡ some count = rw e at found in cc
    ]

unless_unregistered-Tabled :
    (rows : List TypeRow) (check : NameCheck)
    → Tabled
        (number_nodes rows)
        (refuses check)
        (unless_unregistered check (number_nodes rows, node_counts (number_nodes rows)))
unless_unregistered-Tabled rows (refused names namespaces) = refl
unless_unregistered-Tabled rows passed = (
  refl,
  refl,
  All-Counted (number_nodes rows) (number_nodes rows) (has_node-below rows)
      (All-Within (number_nodes rows)),
  counted_right (number_nodes rows),
)
unless_unregistered-Tabled rows (warned names) = (
  refl,
  refl,
  All-Counted (number_nodes rows) (number_nodes rows) (has_node-below rows)
      (All-Within (number_nodes rows)),
  counted_right (number_nodes rows),
)

any-keys :
    (f : Text → ℕ) (names : List Text)
    → any (starts_with unknown) (map (λ (item : Text × ℕ). item.0) (map (λ n. (n, f n)) names))
      ≡ any (starts_with unknown) names
any-keys f [] = refl
any-keys f (n ∷ names) = ap (λ b. starts_with unknown n || b) (any-keys f names)

any-types :
    (nodes : List NodeRow)
    → any (starts_with unknown) (types nodes)
      ≡ any (λ node. starts_with unknown node.node_type) nodes
any-types [] = refl
any-types (node ∷ nodes) = ap (λ b. starts_with unknown node.node_type || b) (any-types nodes)

names_counted :
    (nodes : List NodeRow)
    → any (starts_with unknown) (map (λ (item : Text × ℕ). item.0) (node_counts nodes))
      ≡ any (λ node. starts_with unknown node.node_type) nodes
unfolding node_counts
names_counted nodes =
    any-keys (λ n. length (of_type n nodes)) (sorted_texts (types nodes))
    ∙ any-sorted_texts (starts_with unknown) (types nodes)
    ∙ any-types nodes

-- Where some node has a type of no registered namespace and the configuration does not allow it, the build
-- fails; everywhere else it returns the table of nodes, with counts in which each type of a node has the
-- number of its nodes, and every node a number below the count of its type.
pub build_node_id_table-Tabled :
    (hash : Text → Text) (table : NameTable) (limit : List Text → List Text) (config : NodeConfig)
    (allowed : Bool) (triples : List Statement)
    → Tabled
        (node_id_df hash table config triples)
        (not allowed
          && any
              (λ node. starts_with unknown node.node_type)
              (node_id_df hash table config triples))
        (build_node_id_table hash table limit config allowed triples)
unfolding build_node_id_table node_id_df
build_node_id_table-Tabled hash table limit config allowed triples =
    let rows = ranked (apply_config_filters config (type_triples hash table triples)) in
    let nodes = number_nodes rows in
    let names = map (λ (item : Text × ℕ). item.0) (node_counts nodes) in
    let find = type_uris limit (apply_config_filters config (type_uri_rows hash table triples)) in
    let verdict =
      refuses-check names allowed find ∙ ap (λ b. not allowed && b) (names_counted nodes) in
    subst
      (λ b. Tabled nodes b (
        unless_unregistered (check_registered_names names allowed find) (nodes, node_counts nodes)))
      verdict (unless_unregistered-Tabled rows (check_registered_names names allowed find))
