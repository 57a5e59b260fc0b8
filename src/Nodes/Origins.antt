-- ===== src/Nodes/Origins.antt =====
-- spark_jobs/pyg_builder/node_mapper.py: the URI that each type of node was named after.
use pyg_knowledge_graph_buil.Base.{
  [], ◌∷◌, none, some, List, Bool, Option, if◌then◌else◌, ◌&&◌, ◌||◌, ◌++◌,
}
use pyg_knowledge_graph_buil.Base.Ascending.{sort_once}
use pyg_knowledge_graph_buil.Base.Texts.{Text, text_eq, text_lt}
use pyg_knowledge_graph_buil.Naming.{NameTable, prefixed_local_name_expr}
use pyg_knowledge_graph_buil.Nodes.{Statement, NodeRow, rdf_type}

-- A row of `type_uri_rows`: a type of node and a URI.
abbrev pub OriginRow : Type 0
OriginRow = Text × Text

-- A dict of texts.
abbrev pub TextDict : Type 0
TextDict = List (Text × Text)

unfoldable pub get : Text → TextDict → Option Text
unfolding text_eq
get key [] = none
get key ((k, value) ∷ items) = if text_eq k key then some value else get key items

unfoldable pub set_default : Text → Text → TextDict → TextDict
unfolding text_eq
set_default key value [] = (key, value) ∷ []
set_default key value ((k, old) ∷ items) =
    if text_eq k key then (k, old) ∷ items else (k, old) ∷ set_default key value items

-- The join of a typing with the nodes of its subject.
abbrev pub join_origin : Text → Text → List NodeRow → List OriginRow
join_origin subject type_uri [] = []
join_origin subject type_uri (node ∷ nodes) =
    let rest = join_origin subject type_uri nodes in
    if text_eq subject node.uri then (node.node_type, type_uri) ∷ rest else rest

unfoldable pub origin_rows : List NodeRow → List Statement → List OriginRow
unfolding text_eq
origin_rows nodes [] = []
origin_rows nodes ((subject, predicate, object) ∷ triples) =
    let rest = origin_rows nodes triples in
    if text_eq predicate rdf_type then join_origin subject object nodes ++ rest else rest

abbrev pub row_lt : OriginRow → OriginRow → Bool
row_lt (a, u) (b, v) = text_lt a b || (text_eq a b && text_lt u v)

abbrev pub row_eq : OriginRow → OriginRow → Bool
row_eq (a, u) (b, v) = text_eq a b && text_eq u v

-- `distinct`, and the order of `collect_sorted`; the derived name is one of the URI.
unfoldable pub sort_origins : List OriginRow → List OriginRow
unfolding sort_once text_lt text_eq
sort_origins rows = sort_once row_lt row_eq rows

-- The loop over the rows, on `exact` and `fallback`.
unfoldable pub fill_origins :
    (Text → Text) → List OriginRow → TextDict × TextDict → TextDict × TextDict
unfolding text_eq set_default
fill_origins derive [] dicts = dicts
fill_origins derive ((node_type, type_uri) ∷ rows) (exact, fallback) = fill_origins derive rows (
  (if text_eq (derive type_uri) node_type then set_default node_type type_uri exact else exact),
  set_default node_type type_uri fallback,
)

abbrev pub or_value : Option Text → Text → Text
or_value none value = value
or_value (some found) value = found

abbrev pub prefer : TextDict → TextDict → TextDict
prefer exact [] = []
prefer exact ((node_type, uri) ∷ fallback) =
    (node_type, or_value (get node_type exact) uri) ∷ prefer exact fallback

abbrev pub both_dicts : TextDict × TextDict → TextDict
both_dicts (exact, fallback) = prefer exact fallback

-- `build_type_uri_mapping`
unfoldable pub build_type_uri_mapping :
    (Text → Text) → NameTable → List NodeRow → List Statement → TextDict
unfolding fill_origins sort_origins origin_rows prefixed_local_name_expr get
build_type_uri_mapping hash table nodes triples = both_dicts (
    fill_origins (prefixed_local_name_expr hash table) (sort_origins (origin_rows nodes triples))
      ([], []))
