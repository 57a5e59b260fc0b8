-- ===== src/Edges.antt =====
-- spark_jobs/pyg_builder/edge_mapper.py: the edges of the graph, collected by type from the triples. A frame is
-- a list of rows; Spark's hash, the table of namespaces and the choice of 50 rows by `limit` are arguments.
pub mod Build
pub mod Types
pub mod Ids
pub mod Sorted
pub mod Pairs
pub mod Filed
pub mod Collect
pub mod Chunks
pub mod Budget
pub mod Joined
pub mod Indexed
pub mod Returned
pub mod Numbered
pub mod Bounds
use pyg_knowledge_graph_buil.Base.{
  ℕ, zero, suc, [], ◌∷◌, true, false, none, some, List, Bool, Option, if◌then◌else◌, not, ◌&&◌,
  ◌||◌, ◌++◌, length, ltb, leb, ◌==◌, map, any, ◌+◌, ◌-◌, max, get_elem?,
}
use pyg_knowledge_graph_buil.Base.Ascending.{sort_once}
use pyg_knowledge_graph_buil.Base.Texts.{Text, codes, text_lt, text_eq, among}
use pyg_knowledge_graph_buil.Base.Dict.{select, member}
use pyg_knowledge_graph_buil.Base.Result.{Result, ok, raise}
use pyg_knowledge_graph_buil.Sources.{is_none, sorted_texts}
use pyg_knowledge_graph_buil.Naming.{
  NameTable, prefixed_local_name_expr, relation_to_predicate_uri, NameCheck, check_registered_names,
  passed, warned, refused,
}
use pyg_knowledge_graph_buil.Nodes.{Statement, NodeRow, rdf_type}

abbrev pub excluded_edge_predicates : List Text
excluded_edge_predicates =
    rdf_type
    ∷ codes "http://www.w3.org/2000/01/rdf-schema#label"
    ∷ codes "http://www.w3.org/2000/01/rdf-schema#comment"
    ∷ codes "http://www.w3.org/2000/01/rdf-schema#isDefinedBy"
    ∷ codes "http://www.w3.org/2002/07/owl#imports"
    ∷ []

pub record EdgeType : Type 0 where
  pub src_type : Text
  pub relation : Text
  pub dst_type : Text

-- A row of `edges_final`.
pub record Edge : Type 0 where
  pub edge_type : EdgeType
  pub src_id : ℕ
  pub dst_id : ℕ

abbrev pub type_eq : EdgeType → EdgeType → Bool
type_eq a b =
    text_eq a.src_type b.src_type
    && (text_eq a.relation b.relation && text_eq a.dst_type b.dst_type)

abbrev pub edge_eq : Edge → Edge → Bool
edge_eq a b = type_eq a.edge_type b.edge_type && (a.src_id == b.src_id && a.dst_id == b.dst_id)

-- Step 1
unfoldable pub edge_triples : List Statement → List Statement
unfolding among
edge_triples [] = []
edge_triples ((subject, predicate, object) ∷ triples) =
    let rest = edge_triples triples in
    if among predicate excluded_edge_predicates then rest else (subject, predicate, object) ∷ rest

-- A row of `edges_resolved`: the predicate and the edge.
abbrev pub Resolved : Type 0
Resolved = Text × Edge

-- The rows that a triple and the row of its subject make, with those of its object.
abbrev pub join_dst : Text → Text → Text → NodeRow → List NodeRow → List Resolved
join_dst predicate relation object src [] = []
join_dst predicate relation object src (dst ∷ nodes) =
    let rest = join_dst predicate relation object src nodes in
    if text_eq object dst.uri
    then (
      predicate,
      record {
        edge_type = record {
          src_type = src.node_type;
          relation = relation;
          dst_type = dst.node_type;
        };
        src_id = src.node_id;
        dst_id = dst.node_id;
      },
    )
      ∷ rest
    else rest

abbrev pub join_src : Text → Text → Text → Text → List NodeRow → List NodeRow → List Resolved
join_src subject predicate relation object nodes [] = []
join_src subject predicate relation object nodes (src ∷ srcs) =
    let rest = join_src subject predicate relation object nodes srcs in
    if text_eq subject src.uri then join_dst predicate relation object src nodes ++ rest else rest

-- Steps 2 and 3
unfoldable pub join_nodes :
    (Text → Text) → NameTable → List NodeRow → List Statement → List Resolved
unfolding text_eq prefixed_local_name_expr
join_nodes hash table nodes [] = []
join_nodes hash table nodes ((subject, predicate, object) ∷ triples) =
    join_src subject predicate (prefixed_local_name_expr hash table predicate) object nodes nodes
    ++ join_nodes hash table nodes triples

-- Step 4, on the configured names of relations
unfoldable pub requested : List Text → Text → Bool
unfolding among
requested names relation = is_none names || among relation names

unfoldable pub edges_resolved :
    (Text → Text) → NameTable → List Text → List NodeRow → List Statement → List Resolved
unfolding edge_triples join_nodes requested
edges_resolved hash table names nodes triples =
    select (λ row. requested names row.1.edge_type.relation)
      (join_nodes hash table nodes (edge_triples triples))

-- `dropDuplicates`; equal rows do not differ.
unfoldable pub drop_duplicates : List Edge → List Edge
unfolding text_eq
drop_duplicates [] = []
drop_duplicates (edge ∷ edges) =
    let rest = drop_duplicates edges in if any (edge_eq edge) rest then rest else edge ∷ rest

-- The ids of the edges of a type.
abbrev pub pairs_of : EdgeType → List Edge → List (ℕ × ℕ)
pairs_of key [] = []
pairs_of key (edge ∷ edges) =
    if type_eq edge.edge_type key
    then (edge.src_id, edge.dst_id) ∷ pairs_of key edges
    else pairs_of key edges

-- The count of a type in `edge_counts`.
unfoldable pub edge_count : List Edge → EdgeType → ℕ
unfolding text_eq
edge_count edges key = length (pairs_of key edges)

-- The order of tuples of texts.
abbrev pub type_lt : EdgeType → EdgeType → Bool
type_lt a b =
    text_lt a.src_type b.src_type
    || (text_eq a.src_type b.src_type
        && (text_lt a.relation b.relation
            || (text_eq a.relation b.relation && text_lt a.dst_type b.dst_type)))

-- `sorted(edge_counts)`
unfoldable pub keys_by_id : List Edge → List EdgeType
unfolding sort_once text_lt text_eq
keys_by_id edges = sort_once type_lt type_eq (map (λ edge. edge.edge_type) edges)

abbrev pub next_place : Option ℕ → Option ℕ
next_place none = none
next_place (some i) = some (suc i)

-- `id_of_key`
unfoldable pub id_of_key : List EdgeType → EdgeType → Option ℕ
unfolding text_eq
id_of_key [] key = none
id_of_key (k ∷ ks) key = if type_eq k key then some 0 else next_place (id_of_key ks key)

-- A row of `ordered`.
pub record IdRow : Type 0 where
  pub edge_type_id : ℕ
  pub src : ℕ
  pub dst : ℕ

abbrev pub with_id : Option ℕ → Edge → List IdRow → List IdRow
with_id none edge rows = rows
with_id (some i) edge rows =
    record { edge_type_id = i; src = edge.src_id; dst = edge.dst_id } ∷ rows

-- The join with `id_df`.
unfoldable pub join_ids : List EdgeType → List Edge → List IdRow
unfolding id_of_key
join_ids keys [] = []
join_ids keys (edge ∷ edges) = with_id (id_of_key keys edge.edge_type) edge (join_ids keys edges)

abbrev pub pair_le : ℕ → ℕ → ℕ → ℕ → Bool
pair_le s d s' d' = ltb s s' || (s == s' && leb d d')

abbrev pub row_le : IdRow → IdRow → Bool
row_le a b =
    ltb a.edge_type_id b.edge_type_id
    || (a.edge_type_id == b.edge_type_id && pair_le a.src a.dst b.src b.dst)

unfoldable pub insert_row : IdRow → List IdRow → List IdRow
insert_row row [] = row ∷ []
insert_row row (r ∷ rows) = if row_le row r then row ∷ r ∷ rows else r ∷ insert_row row rows

-- `orderBy("edge_type_id", "src_id", "dst_id")`
unfoldable pub order_rows : List IdRow → List IdRow
unfolding insert_row
order_rows [] = []
order_rows (row ∷ rows) = insert_row row (order_rows rows)
