-- ===== src/Edges/Build.antt =====
-- spark_jobs/pyg_builder/edge_mapper.py: the chunks of edge types, and the tensors made of each.
use pyg_knowledge_graph_buil.Base.{
  ℕ, suc, [], ◌∷◌, true, false, none, some, List, Bool, Option, if◌then◌else◌, not, ◌&&◌, ltb, leb,
  ◌==◌, map, ◌+◌, ◌-◌, max, get_elem?,
}
use pyg_knowledge_graph_buil.Base.Texts.{Text, text_eq, among}
use pyg_knowledge_graph_buil.Base.Dict.{select}
use pyg_knowledge_graph_buil.Base.Result.{Result, ok, raise}
use pyg_knowledge_graph_buil.Sources.{sorted_texts}
use pyg_knowledge_graph_buil.Naming.{
  NameTable, relation_to_predicate_uri, NameCheck, check_registered_names, passed, warned, refused,
}
use pyg_knowledge_graph_buil.Nodes.{Statement, NodeRow}
use pyg_knowledge_graph_buil.Edges.{
  Edge, EdgeType, IdRow, Resolved, type_eq, edges_resolved, drop_duplicates, keys_by_id, edge_count,
  join_ids, order_rows,
}

-- A tensor of two rows: the sources, and the destinations.
abbrev pub EdgeIndex : Type 0
EdgeIndex = List ℕ × List ℕ

-- The dict of tensors.
abbrev pub EdgeIndices : Type 0
EdgeIndices = List (EdgeType × EdgeIndex)

abbrev pub lookup_index : EdgeType → EdgeIndices → Option EdgeIndex
lookup_index key [] = none
lookup_index key ((k, index) ∷ indices) =
    if type_eq k key then some index else lookup_index key indices

unfoldable pub put_index : EdgeType → EdgeIndex → EdgeIndices → EdgeIndices
unfolding text_eq
put_index key index [] = (key, index) ∷ []
put_index key index ((k, old) ∷ indices) =
    if type_eq k key then (k, index) ∷ indices else (k, old) ∷ put_index key index indices

abbrev pub emit : Bool → (ℕ × ℕ) → List (ℕ × ℕ) → List (ℕ × ℕ)
emit cut chunk chunks = if cut then chunk ∷ chunks else chunks

-- The loop of `_chunk_type_ids`, from a type on, with the counts of it and the later ones.
unfoldable pub chunks_from : ℕ → ℕ → ℕ → ℕ → List ℕ → List (ℕ × ℕ)
chunks_from budget type_id lo rows [] = (lo, type_id - 1) ∷ []
chunks_from budget type_id lo rows (count ∷ counts) =
    let cut = ltb lo type_id && ltb budget (rows + count) in
    emit cut (lo, type_id - 1)
      (chunks_from budget (suc type_id) (if cut then type_id else lo)
        ((if cut then 0 else rows) + count) counts)

-- `_chunk_type_ids`, of the counts by id
unfoldable pub chunk_type_ids : ℕ → List ℕ → List (ℕ × ℕ)
unfolding chunks_from
chunk_type_ids collect_row_budget counts = chunks_from (max 1 collect_row_budget) 0 0 0 counts

abbrev pub in_chunk : (ℕ × ℕ) → IdRow → Bool
in_chunk (lo, hi) row = leb lo row.edge_type_id && leb row.edge_type_id hi

-- The ids of the groups of a frame, in order of appearance.
unfoldable pub group_ids : List IdRow → List ℕ
group_ids [] = []
group_ids (row ∷ rows) =
    row.edge_type_id ∷ select (λ i. not (i == row.edge_type_id)) (group_ids rows)

-- A group of the frame.
abbrev pub group_of : ℕ → List IdRow → List IdRow
group_of i rows = select (λ row. row.edge_type_id == i) rows

-- `torch.stack([src_ids, dst_ids])`
abbrev pub stack : List IdRow → EdgeIndex
stack rows = (map (λ row. row.src) rows, map (λ row. row.dst) rows)

-- One entry of the dict; `none` is an IndexError.
abbrev pub file_index : Option EdgeType → EdgeIndex → EdgeIndices → Option EdgeIndices
file_index none index indices = none
file_index (some key) index indices = some (put_index key index indices)

abbrev pub then_file : (EdgeIndices → Option EdgeIndices) → Option EdgeIndices → Option EdgeIndices
then_file next none = none
then_file next (some indices) = next indices

unfoldable pub file_groups : List EdgeType → List IdRow → List ℕ → EdgeIndices → Option EdgeIndices
unfolding put_index
file_groups keys rows [] indices = some indices
file_groups keys rows (i ∷ ids) indices =
    then_file (file_groups keys rows ids)
      (file_index (get_elem? keys i) (stack (group_of i rows)) indices)

unfoldable pub file_chunk : List EdgeType → List IdRow → EdgeIndices → Option EdgeIndices
unfolding file_groups group_ids
file_chunk keys rows indices = file_groups keys rows (group_ids rows) indices

-- The loop over the chunks.
unfoldable pub file_chunks :
    List EdgeType → List IdRow → List (ℕ × ℕ) → EdgeIndices → Option EdgeIndices
unfolding file_chunk
file_chunks keys ordered [] indices = some indices
file_chunks keys ordered (chunk ∷ chunks) indices =
    then_file (file_chunks keys ordered chunks)
      (file_chunk keys (select (in_chunk chunk) ordered) indices)

abbrev pub edges_of : List Resolved → List Edge
edges_of rows = map (λ row. row.1) rows

-- `predicate_uris`
unfoldable pub predicate_uris : (List Text → List Text) → List Resolved → List Text → List Text
unfolding among sorted_texts
predicate_uris limit resolved names = limit (
    sorted_texts
      (map (λ row. row.0) (select (λ row. among row.1.edge_type.relation names) resolved)))

pub data BuildError : Type 0 where
  unregistered : List Text → List Text → BuildError
  index_error : BuildError

pub record EdgeConfig : Type 0 where
  pub edge_types : List Text
  pub edge_collect_row_budget : ℕ
  pub allow_unregistered_namespaces : Bool

-- The tensors of the deduplicated edges.
unfoldable pub collect_indices : ℕ → List Edge → Option EdgeIndices
unfolding file_chunks chunk_type_ids order_rows join_ids keys_by_id edge_count
collect_indices budget edges =
    let keys = keys_by_id edges in
    file_chunks keys (order_rows (join_ids keys edges))
      (chunk_type_ids budget (map (edge_count edges) keys)) []

abbrev pub returned : List Edge → Option EdgeIndices → Result BuildError (EdgeIndices × List Edge)
returned edges none = raise index_error
returned edges (some indices) = ok (indices, edges)

abbrev pub unless_refused :
    NameCheck
    → Result BuildError (EdgeIndices × List Edge)
    → Result BuildError (EdgeIndices × List Edge)
unless_refused passed result = result
unless_refused (warned names) result = result
unless_refused (refused names namespaces) result = raise (unregistered names namespaces)

abbrev pub is_empty : List Edge → Bool
is_empty [] = true
is_empty (_ ∷ _) = false

-- `build_edge_indices`, with the deduplicated edges that it returns besides
unfoldable pub build_edge_indices :
    (Text → Text)
    → NameTable
    → (List Text → List Text)
    → EdgeConfig
    → List NodeRow
    → List Statement
    → Result BuildError (EdgeIndices × List Edge)
unfolding edges_resolved drop_duplicates collect_indices check_registered_names predicate_uris
build_edge_indices hash table limit config nodes triples =
    let resolved = edges_resolved hash table config.edge_types nodes triples in
    let edges = drop_duplicates (edges_of resolved) in
    if is_empty edges
    then ok ([], edges)
    else unless_refused
        (check_registered_names (map (λ key. key.relation) (keys_by_id edges))
          config.allow_unregistered_namespaces (predicate_uris limit resolved))
        (returned edges (collect_indices config.edge_collect_row_budget edges))

-- `get_predicate_uri_mapping`, of the relations in any order
unfoldable pub get_predicate_uri_mapping : NameTable → List Edge → List (Text × Text)
unfolding sorted_texts relation_to_predicate_uri
get_predicate_uri_mapping table edges =
    map (λ relation. (relation, relation_to_predicate_uri table relation))
      (sorted_texts (map (λ edge. edge.edge_type.relation) edges))
