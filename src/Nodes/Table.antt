-- ===== src/Nodes/Table.antt =====
-- spark_jobs/pyg_builder/node_mapper.py: the counts of the nodes, and the check of their types' names.
use pyg_knowledge_graph_buil.Base.{ℕ, [], ◌∷◌, List, Bool, if◌then◌else◌, not, ◌&&◌, map, length}
use pyg_knowledge_graph_buil.Base.Texts.{Text, text_eq, among}
use pyg_knowledge_graph_buil.Base.Dict.{select}
use pyg_knowledge_graph_buil.Base.Result.{Result, ok, raise}
use pyg_knowledge_graph_buil.Sources.{sorted_texts}
use pyg_knowledge_graph_buil.Naming.{
  NameTable, prefixed_local_name_expr, NameCheck, check_registered_names, passed, warned, refused,
}
use pyg_knowledge_graph_buil.Nodes.{
  Statement, NodeRow, NodeConfig, TypeRow, rdf_type, is_meta, apply_config_filters, node_id_df,
}
use pyg_knowledge_graph_buil.Nodes.Numbers.{of_type}

-- The type URIs of `type_triples`, each with the name of the type.
unfoldable pub type_uri_rows : (Text → Text) → NameTable → List Statement → List TypeRow
unfolding text_eq is_meta prefixed_local_name_expr
type_uri_rows hash table [] = []
type_uri_rows hash table ((subject, predicate, object) ∷ triples) =
    let rest = type_uri_rows hash table triples in
    if text_eq predicate rdf_type && not (is_meta object)
    then (object, prefixed_local_name_expr hash table object) ∷ rest
    else rest

-- `type_uris`, of the filtered rows; which 50 rows `limit` leaves is an argument.
unfoldable pub type_uris : (List Text → List Text) → List TypeRow → List Text → List Text
unfolding among sorted_texts
type_uris limit rows names =
    limit (sorted_texts (map (λ row. row.0) (select (λ row. among row.1 names) rows)))

unfoldable pub node_counts : List NodeRow → List (Text × ℕ)
unfolding sorted_texts text_eq
node_counts nodes =
    map (λ name. (name, length (of_type name nodes)))
      (sorted_texts (map (λ node. node.node_type) nodes))

abbrev pub unless_unregistered :
    NameCheck
    → List NodeRow × List (Text × ℕ)
    → Result (List Text × List Text) (List NodeRow × List (Text × ℕ))
unless_unregistered passed built = ok built
unless_unregistered (warned names) built = ok built
unless_unregistered (refused names namespaces) built = raise (names, namespaces)

-- `build_node_id_table`, with `allow_unregistered_namespaces`
unfoldable pub build_node_id_table :
    (Text → Text)
    → NameTable
    → (List Text → List Text)
    → NodeConfig
    → Bool
    → List Statement
    → Result (List Text × List Text) (List NodeRow × List (Text × ℕ))
unfolding node_id_df node_counts check_registered_names type_uris type_uri_rows apply_config_filters
build_node_id_table hash table limit config allowed triples =
    let nodes = node_id_df hash table config triples in
    let counts = node_counts nodes in
    unless_unregistered
      (check_registered_names (map (λ item. item.0) counts) allowed
        (type_uris limit (apply_config_filters config (type_uri_rows hash table triples))))
      (nodes, counts)
