-- ===== src/Edges/Joined.antt =====
-- spark_jobs/pyg_builder/edge_mapper.py: which edges the joins of the triples with the table of nodes make.
use pyg_knowledge_graph_buil.Base.Bools.{or_out}
use pyg_knowledge_graph_buil.Base.{
  ℕ, [], ◌∷◌, true, false, List, Bool, refl, arith, ◌≡◌, ap, ap₂, inl, inr, Bool-cases, ◌∙◌, ◌||◌,
  ◌&&◌, any, sym, subst, ◌==◌, not, any-append,
}
use pyg_knowledge_graph_buil.Base.Texts.{Text, text_eq, among, text_eq_iff}
use pyg_knowledge_graph_buil.Base.Dict.{select}
use pyg_knowledge_graph_buil.Naming.{NameTable, prefixed_local_name_expr}
use pyg_knowledge_graph_buil.Nodes.{Statement, NodeRow}
use pyg_knowledge_graph_buil.Edges.{
  EdgeType, Resolved, type_eq, edge_triples, excluded_edge_predicates, join_dst, join_src,
  join_nodes, requested, edges_resolved,
}
use pyg_knowledge_graph_buil.Edges.Build.{edges_of}
use pyg_knowledge_graph_buil.Edges.Pairs.{edge_among}
use pyg_knowledge_graph_buil.Nodes.Below.{has_node}

-- Whether a triple joins a node of a type to another, by a relation that is asked for.
abbrev pub joins :
    (Text → Text) → NameTable → List Text → List NodeRow → EdgeType → ℕ → ℕ → Statement → Bool
joins hash table names nodes key s d (subject, predicate, object) =
    not (among predicate excluded_edge_predicates)
    && ((has_node nodes subject key.src_type s
          && (text_eq (prefixed_local_name_expr hash table predicate) key.relation
              && has_node nodes object key.dst_type d))
        && requested names key.relation)

-- Whether some triple does.
unfoldable pub linked :
    (Text → Text) → NameTable → List Text → List NodeRow → List Statement → EdgeType → ℕ → ℕ → Bool
unfolding text_eq among prefixed_local_name_expr requested
linked hash table names nodes triples key s d = any (joins hash table names nodes key s d) triples

and_false : (a : Bool) → (a && false) ≡ false
and_false a = ground arith

no_rows_left : (a b : Bool) → false ≡ (a && (b && false))
no_rows_left a b = ground arith

one_dst :
    (a b r t n rest : Bool)
    → (((a && (r && t)) && (b && n)) || ((a && b) && (r && rest)))
      ≡ ((a && b) && (r && ((t && n) || rest)))
one_dst a b r t n rest = ground arith

spread_and : (a b c r : Bool) → (((a && b) || r) && c) ≡ ((a && (b && c)) || (r && c))
spread_and a b c r = ground arith

relation_part : (a b c : Bool) → ((a && (b && c))) ≡ true → b ≡ true
relation_part a b c h = ground arith

left_part : (a b : Bool) → (a && b) ≡ true → a ≡ true
left_part a b h = ground arith

module _ (key : EdgeType) (s d : ℕ) where
  -- Whether a row is the edge.
  abbrev is_row : Resolved → Bool
  is_row row = type_eq row.1.edge_type key && (row.1.src_id == s && row.1.dst_id == d)

  any-join_dst :
      (predicate relation object : Text) (src : NodeRow) (nodes : List NodeRow)
      → any is_row (join_dst predicate relation object src nodes) ≡ (
          (text_eq src.node_type key.src_type && src.node_id == s)
          && (text_eq relation key.relation && has_node nodes object key.dst_type d))
  any-join_dst predicate relation object src [] =
      no_rows_left (text_eq src.node_type key.src_type && src.node_id == s)
        (text_eq relation key.relation)
  any-join_dst predicate relation object src (dst ∷ nodes) =
      elim (Bool-cases (text_eq object dst.uri)) [
        | inr e ↦ rw e (any-join_dst predicate relation object src nodes)
        | inl e ↦
            rw (e, any-join_dst predicate relation object src nodes)
              (one_dst (text_eq src.node_type key.src_type) (src.node_id == s)
                (text_eq relation key.relation) (text_eq dst.node_type key.dst_type)
                (dst.node_id == d) (has_node nodes object key.dst_type d))
      ]

  any-join_src :
      (subject predicate relation object : Text) (nodes srcs : List NodeRow)
      → any is_row (join_src subject predicate relation object nodes srcs) ≡ (
          has_node srcs subject key.src_type s
          && (text_eq relation key.relation && has_node nodes object key.dst_type d))
  any-join_src subject predicate relation object nodes [] = refl
  any-join_src subject predicate relation object nodes (src ∷ srcs) =
      elim (Bool-cases (text_eq subject src.uri)) [
        | inr e ↦ rw e (any-join_src subject predicate relation object nodes srcs)
        | inl e ↦
            rw
              (
                e,
                any-append is_row (join_dst predicate relation object src nodes)
                    (join_src subject predicate relation object nodes srcs),
                any-join_dst predicate relation object src nodes,
                any-join_src subject predicate relation object nodes srcs,
              )
              (or_out (text_eq src.node_type key.src_type && src.node_id == s)
                (has_node srcs subject key.src_type s)
                (text_eq relation key.relation && has_node nodes object key.dst_type d))
      ]

  any-join_nodes :
      (hash : Text → Text) (table : NameTable) (nodes : List NodeRow) (triples : List Statement)
      → any is_row (join_nodes hash table nodes triples)
        ≡ any
            (λ triple.
              has_node nodes triple.0 key.src_type s
              && (text_eq (prefixed_local_name_expr hash table triple.1) key.relation
                  && has_node nodes triple.2 key.dst_type d))
            triples
  unfolding join_nodes
  any-join_nodes hash table nodes [] = refl
  any-join_nodes hash table nodes ((subject, predicate, object) ∷ triples) =
      any-append is_row
        (join_src subject predicate (prefixed_local_name_expr hash table predicate) object nodes
          nodes)
        (join_nodes hash table nodes triples)
      ∙ ap₂ (λ a b. a || b)
          (any-join_src subject predicate (prefixed_local_name_expr hash table predicate) object
            nodes nodes)
          (any-join_nodes hash table nodes triples)

  relation_of : (k : EdgeType) (b : Bool) → (type_eq k key && b) ≡ true → k.relation ≡ key.relation
  relation_of k b h = (text_eq_iff k.relation key.relation).0 (
      relation_part (text_eq k.src_type key.src_type) (text_eq k.relation key.relation)
        (text_eq k.dst_type key.dst_type) (left_part (type_eq k key) b h))

  any-requested :
      (names : List Text) (rows : List Resolved)
      → any is_row (select (λ row. requested names row.1.edge_type.relation) rows)
        ≡ (any is_row rows && requested names key.relation)
  any-requested names [] = refl
  any-requested names (row ∷ rows) = elim (Bool-cases (is_row row)) [
    | inl e ↦
        let same = relation_of row.1.edge_type (row.1.src_id == s && row.1.dst_id == d) e in
        elim (Bool-cases (requested names key.relation)) [
          | inl f ↦
              let own = subst (λ r. requested names r ≡ true) (sym same) f in rw (own, f, e) refl
          | inr f ↦
              let own = subst (λ r. requested names r ≡ false) (sym same) f in
              rw (own, f, e) (any-requested names rows ∙ rw f (and_false (any is_row rows)))
        ]
    | inr e ↦ elim (Bool-cases (requested names row.1.edge_type.relation)) [
      | inl f ↦ rw (f, e) (any-requested names rows)
      | inr f ↦ rw (f, e) (any-requested names rows)
    ]
  ]

any-edge_triples :
    (p : Statement → Bool) (triples : List Statement)
    → any p (edge_triples triples)
      ≡ any (λ triple. not (among triple.1 excluded_edge_predicates) && p triple) triples
unfolding edge_triples
any-edge_triples p [] = refl
any-edge_triples p ((subject, predicate, object) ∷ triples) =
    elim (Bool-cases (among predicate excluded_edge_predicates)) [
      | inl e ↦ rw e (any-edge_triples p triples)
      | inr e ↦ rw e (ap (λ b. p (subject, predicate, object) || b) (any-edge_triples p triples))
    ]

any-both :
    (p q : Statement → Bool) (b : Bool) (triples : List Statement)
    → (any (λ triple. p triple && q triple) triples && b)
      ≡ any (λ triple. p triple && (q triple && b)) triples
any-both p q b [] = refl
any-both p q b (triple ∷ triples) =
    spread_and (p triple) (q triple) b (any (λ t. p t && q t) triples)
    ∙ ap (λ r. (p triple && (q triple && b)) || r) (any-both p q b triples)

edge_among-rows :
    (key : EdgeType) (s d : ℕ) (rows : List Resolved)
    → edge_among key s d (edges_of rows) ≡ any (is_row key s d) rows
edge_among-rows key s d [] = refl
edge_among-rows key s d (row ∷ rows) =
    ap (λ b. is_row key s d row || b) (edge_among-rows key s d rows)

-- The rows that are joined and asked for are those of the triples that join two nodes.
pub edge_among-edges_resolved :
    (hash : Text → Text) (table : NameTable) (names : List Text) (nodes : List NodeRow)
    (triples : List Statement) (key : EdgeType) (s d : ℕ)
    → edge_among key s d (edges_of (edges_resolved hash table names nodes triples))
      ≡ linked hash table names nodes triples key s d
unfolding edges_resolved linked
edge_among-edges_resolved hash table names nodes triples key s d =
    let meets = λ (triple : Statement).
      has_node nodes triple.0 key.src_type s
      && (text_eq (prefixed_local_name_expr hash table triple.1) key.relation
          && has_node nodes triple.2 key.dst_type d) in
    edge_among-rows key s d (edges_resolved hash table names nodes triples)
    ∙ any-requested key s d names (join_nodes hash table nodes (edge_triples triples))
    ∙ ap (λ b. b && requested names key.relation)
        (any-join_nodes key s d hash table nodes (edge_triples triples)
          ∙ any-edge_triples meets triples)
    ∙ any-both (λ triple. not (among triple.1 excluded_edge_predicates)) meets
        (requested names key.relation) triples
