-- ===== src/Edges/Bounds.antt =====
-- spark_jobs/pyg_builder/edge_mapper.py, with node_mapper.py: every id of a tensor is the number of a node.
use mathlib.Core.Bool.{false≢true}
use mathlib.Core.Option.{some-injective}
use pyg_knowledge_graph_buil.Base.{
  ℕ, suc, [], ◌∷◌, true, none, some, List, Bool, Option, refl, All, arith, ◌≡◌, ap, inl, inr,
  Bool-cases, ◌∙◌, ◌||◌, ◌&&◌, sym, subst, ◌==◌, length, ◌<◌, not,
}
use pyg_knowledge_graph_buil.Base.Bools.{either_true}
use pyg_knowledge_graph_buil.Base.Texts.{Text, text_eq, among}
use pyg_knowledge_graph_buil.Base.Result.{ok}
use pyg_knowledge_graph_buil.Naming.{NameTable, prefixed_local_name_expr}
use pyg_knowledge_graph_buil.Nodes.{
  Statement, NodeRow, TypeRow, NodeConfig, node_id_df, number_nodes, ranked, apply_config_filters,
  type_triples,
}
use pyg_knowledge_graph_buil.Nodes.Below.{has_node, has_node-below}
use pyg_knowledge_graph_buil.Nodes.Numbers.{of_type}
use pyg_knowledge_graph_buil.Edges.{
  Edge, EdgeType, excluded_edge_predicates, edges_resolved, requested,
}
use pyg_knowledge_graph_buil.Edges.Build.{
  EdgeIndices, EdgeConfig, lookup_index, build_edge_indices, edges_of,
}
use pyg_knowledge_graph_buil.Edges.Pairs.{has_pair}
use pyg_knowledge_graph_buil.Edges.Joined.{joins, linked}
use pyg_knowledge_graph_buil.Edges.Returned.{
  IndexesType, Built, build_edge_indices-Built, unknown_among,
}
use pyg_knowledge_graph_buil.Edges.Indexed.{columns}

parts : (a b c d e : Bool) → (a && ((b && (c && d)) && e)) ≡ true → (b ≡ true) × (d ≡ true)
parts a b c d e h = (ground arith, ground arith)

linked-nodes :
    (hash : Text → Text) (table : NameTable) (names : List Text) (nodes : List NodeRow)
    (triples : List Statement) (key : EdgeType) (s d : ℕ)
    → linked hash table names nodes triples key s d ≡ true
    → (subject : Text) × (object : Text) × (has_node nodes subject key.src_type s ≡ true)
      × (has_node nodes object key.dst_type d ≡ true)
unfolding linked
linked-nodes hash table names nodes [] key s d h = absurd (false≢true h)
linked-nodes hash table names nodes ((subject, predicate, object) ∷ triples) key s d h =
    elim (Bool-cases (joins hash table names nodes key s d (subject, predicate, object))) [
      | inl e ↦
          let (src, dst) =
            parts (not (among predicate excluded_edge_predicates))
              (has_node nodes subject key.src_type s)
              (text_eq (prefixed_local_name_expr hash table predicate) key.relation)
              (has_node nodes object key.dst_type d) (requested names key.relation) e in
          (subject, object, src, dst)
      | inr e ↦ linked-nodes hash table names nodes triples key s d (rw e at h)
    ]

own_pair : (s d : ℕ) (r : Bool) → ((s == s && d == d) || r) ≡ true
own_pair s d r = ground arith

columns-All :
    (P Q : ℕ → Type 0) (ps : List (ℕ × ℕ))
    → ((s d : ℕ) → has_pair s d ps ≡ true → P s × Q d)
    → All P (columns ps).0 × All Q (columns ps).1
columns-All P Q [] h = (tt, tt)
columns-All P Q ((u, v) ∷ ps) h =
    let (p, q) = h u v (own_pair u v (has_pair u v ps)) in
    let (ps', qs) =
      columns-All P Q ps (λ s d e. h s d (either_true (u == s && v == d) (has_pair s d ps) e)) in
    ((p, ps'), (q, qs))

length-columns : (ps : List (ℕ × ℕ)) → length (columns ps).0 ≡ length (columns ps).1
length-columns [] = refl
length-columns (p ∷ ps) = ap suc (length-columns ps)

-- The tensor of a type has as many destinations as sources, and each is the number of a node.
abbrev pub InRange : List NodeRow → EdgeType → List ℕ × List ℕ → Type 0
InRange nodes key (srcs, dsts) =
    (length srcs ≡ length dsts)
    × All (λ n. n < length (of_type key.src_type nodes)) srcs
    × All (λ n. n < length (of_type key.dst_type nodes)) dsts

indexed-InRange :
    (hash : Text → Text) (table : NameTable) (names : List Text) (rows : List TypeRow)
    (triples : List Statement) (key : EdgeType) (found : Option (List ℕ × List ℕ))
    (index : List ℕ × List ℕ)
    → IndexesType (linked hash table names (number_nodes rows) triples key) found
    → found ≡ some index
    → InRange (number_nodes rows) key index
indexed-InRange hash table names rows triples key found index (inl (absent, _)) e =
    let clash : none ≡ some index = sym absent ∙ e in cc
indexed-InRange hash table names rows triples key found index (inr (ps, own, _, _, links)) e =
    let nodes = number_nodes rows in
    let same : columns ps ≡ index = some-injective _ _ (sym own ∙ e) in
    let (srcs_below, dsts_below) =
      columns-All (λ n. n < length (of_type key.src_type nodes))
        (λ n. n < length (of_type key.dst_type nodes)) ps
        (λ s d h.
          let (subject, object, src, dst) =
            linked-nodes hash table names nodes triples key s d (sym (links s d) ∙ h) in
          (
            has_node-below rows subject key.src_type s src,
            has_node-below rows object key.dst_type d dst,
          )) in
    subst (InRange nodes key) same (length-columns ps, srcs_below, dsts_below)

-- Where the build over the table of nodes returns, the tensor of each edge type has as many destinations as
-- sources, every source is below the number of nodes of the source type, and every destination is below
-- that of the destination type.
pub build_edge_indices-InRange :
    (hash : Text → Text) (table : NameTable) (limit : List Text → List Text)
    (nodes_config : NodeConfig) (config : EdgeConfig) (triples : List Statement)
    (indices : EdgeIndices) (edges : List Edge) (key : EdgeType) (index : List ℕ × List ℕ)
    → build_edge_indices hash table limit config
        (node_id_df hash table nodes_config triples)
        triples
      ≡ ok (indices, edges)
    → lookup_index key indices ≡ some index
    → InRange (node_id_df hash table nodes_config triples) key index
unfolding node_id_df
build_edge_indices-InRange hash table limit nodes_config config triples indices edges key index
      built found =
    let rows = ranked (apply_config_filters nodes_config (type_triples hash table triples)) in
    let joined =
      edges_of (edges_resolved hash table config.edge_types (number_nodes rows) triples) in
    let (_, indexes, _) =
      subst
        (Built (linked hash table config.edge_types (number_nodes rows) triples)
          (not config.allow_unregistered_namespaces && unknown_among joined) joined)
        built (build_edge_indices-Built hash table limit config (number_nodes rows) triples) in
    indexed-InRange hash table config.edge_types rows triples key (lookup_index key indices) index
      (indexes key) found
