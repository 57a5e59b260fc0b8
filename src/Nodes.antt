-- ===== src/Nodes.antt =====
-- spark_jobs/pyg_builder/node_mapper.py: which type an entity has, and which number within it. A frame is
-- a list of rows; Spark's hash, and the table of namespaces, are arguments.
pub mod Numbers
pub mod Keys
pub mod Order
pub mod First
pub mod Once
pub mod Origins
pub mod Named
pub mod Least
pub mod Mapping
pub mod Below
pub mod Table
pub mod Tabled
use pyg_knowledge_graph_buil.Base.{
  ℕ, zero, suc, [], ◌∷◌, true, false, none, some, List, Bool, if◌then◌else◌, not, ◌&&◌, ◌||◌, ◌++◌,
  length, ltb, ◌==◌, map, any, ◌+◌,
}
use pyg_knowledge_graph_buil.Base.Texts.{
  Text, codes, text_lt, text_eq, among, starts_with, contains,
}
use pyg_knowledge_graph_buil.Base.Dict.{select}
use pyg_knowledge_graph_buil.Sources.{is_none, sorted_texts}
use pyg_knowledge_graph_buil.Naming.{NameTable, prefixed_local_name_expr}
use pyg_knowledge_graph_buil.Turtle.Labels.{Groups, file_under}

abbrev pub rdf_type : Text
rdf_type = codes "http://www.w3.org/1999/02/22-rdf-syntax-ns#type"

abbrev pub excluded_types : List Text
excluded_types =
    codes "http://www.w3.org/2002/07/owl#NamedIndividual"
    ∷ codes "http://www.w3.org/2002/07/owl#Thing"
    ∷ codes "http://www.w3.org/2002/07/owl#Class"
    ∷ codes "http://www.w3.org/2000/01/rdf-schema#Resource"
    ∷ codes "http://www.w3.org/2000/01/rdf-schema#Class"
    ∷ []

abbrev pub excluded_type_prefixes : List Text
excluded_type_prefixes =
    codes "http://www.w3.org/2002/07/owl#"
    ∷ codes "http://www.w3.org/2000/01/rdf-schema#"
    ∷ codes "http://www.w3.org/1999/02/22-rdf-syntax-ns#"
    ∷ []

abbrev pub temporal_type_fragments : List Text
temporal_type_fragments =
    codes "Month"
    ∷ codes "Year"
    ∷ codes "Quarter"
    ∷ codes "Day"
    ∷ codes "UnifiedMonth"
    ∷ codes "UnifiedYear"
    ∷ codes "UnifiedQuarter"
    ∷ codes "UnifiedDay"
    ∷ codes "TimePeriod"
    ∷ []

abbrev pub sector_type_fragments : List Text
sector_type_fragments = codes "EconomicSector" ∷ codes "Sector" ∷ []

abbrev pub canonical_type_priority : List Text
canonical_type_priority =
    codes "temporal_SourceMonth"
    ∷ codes "temporal_SourceYear"
    ∷ codes "temporal_SourceQuarter"
    ∷ codes "temporal_SourceDay"
    ∷ []

-- A triple of the frame: subject, predicate and object.
abbrev pub Statement : Type 0
Statement = Text × Text × Text

-- A row of `type_triples`, by uri and node_type; the type URI is not read after the naming.
abbrev pub TypeRow : Type 0
TypeRow = Text × Text

unfoldable pub is_meta : Text → Bool
unfolding among starts_with
is_meta type_uri =
    among type_uri excluded_types
    || any (λ prefix. starts_with prefix type_uri) excluded_type_prefixes

-- Steps 1 to 3.
unfoldable pub type_triples : (Text → Text) → NameTable → List Statement → List TypeRow
unfolding text_eq is_meta prefixed_local_name_expr
type_triples hash table [] = []
type_triples hash table ((subject, predicate, object) ∷ triples) =
    let rest = type_triples hash table triples in
    if text_eq predicate rdf_type && not (is_meta object)
    then (subject, prefixed_local_name_expr hash table object) ∷ rest
    else rest

pub record NodeConfig : Type 0 where
  pub requested_node_types : List Text
  pub excluded_node_types : List Text
  pub include_temporal : Bool
  pub include_sector : Bool

-- One row of an inner join with the requested names.
abbrev pub joined_row : List Text → TypeRow → List TypeRow
joined_row [] row = []
joined_row (name ∷ names) row =
    if text_eq name row.1 then row ∷ joined_row names row else joined_row names row

abbrev pub join_requested : List Text → List TypeRow → List TypeRow
join_requested names [] = []
join_requested names (row ∷ rows) = joined_row names row ++ join_requested names rows

-- `rlike("|".join(fragments))`, for fragments of letters
abbrev pub is_like : List Text → Text → Bool
is_like fragments name = any (λ fragment. contains fragment name) fragments

abbrev pub without : Bool → List Text → List TypeRow → List TypeRow
without included fragments rows =
    if included then rows else select (λ row. not (is_like fragments row.1)) rows

-- `_apply_config_filters`
unfoldable pub apply_config_filters : NodeConfig → List TypeRow → List TypeRow
unfolding text_eq among contains
apply_config_filters config rows =
    if not (is_none config.requested_node_types)
    then join_requested config.requested_node_types rows
    else without config.include_sector sector_type_fragments (
        without config.include_temporal temporal_type_fragments (
          if is_none config.excluded_node_types
          then rows
          else select (λ row. not (among row.1 config.excluded_node_types)) rows))

unfoldable pub type_count : List TypeRow → Text → ℕ
unfolding text_eq
type_count rows name = length (select (λ row. text_eq row.1 name) rows)

unfoldable pub has_type : List TypeRow → Text → Text → Bool
unfolding text_eq
has_type rows uri name = any (λ row. text_eq row.0 uri && text_eq row.1 name) rows

-- The number of URIs of both types.
unfoldable pub cooccur : List TypeRow → Text → Text → ℕ
unfolding has_type sorted_texts
cooccur rows sub sup = length (
    select (λ uri. has_type rows uri sub && has_type rows uri sup)
      (sorted_texts (map (λ row. row.0) rows)))

abbrev pub is_below : List TypeRow → Text → Text → Bool
is_below rows sub sup =
    not (text_eq sub sup)
    && cooccur rows sub sup == type_count rows sub
    && ltb (type_count rows sub) (type_count rows sup)

-- `_subsumed_node_types`
unfoldable pub subsumed_node_types : List TypeRow → List Text
unfolding text_eq type_count cooccur sorted_texts
subsumed_node_types rows =
    let names = sorted_texts (map (λ row. row.1) rows) in
    select (λ sub. any (λ sup. is_below rows sub sup) names) names

-- `priority_expr`: the position of a pinned type, from a position on, or the number of all of them.
abbrev pub priority_from : ℕ → List Text → Text → ℕ
priority_from position [] name = position
priority_from position (pinned ∷ rest) name =
    if text_eq name pinned then position else priority_from (position + 1) rest name

abbrev pub subsumed_flag : List Text → Text → ℕ
subsumed_flag subsumed name = if among name subsumed then 1 else 0

-- Whether a type comes before another in the window of a URI.
unfoldable pub ranks_before : List TypeRow → List Text → Text → Text → Bool
unfolding text_eq among type_count text_lt
ranks_before rows subsumed a b =
    let p = priority_from 0 canonical_type_priority a in
    let q = priority_from 0 canonical_type_priority b in
    let s = subsumed_flag subsumed a in
    let t = subsumed_flag subsumed b in
    let c = type_count rows a in
    let d = type_count rows b in
    ltb p q || (p == q && (ltb s t || (s == t && (ltb c d || (c == d && text_lt a b)))))

-- The first by that order, of a type and others.
unfoldable pub first_ranked : List TypeRow → List Text → Text → List Text → Text
unfolding ranks_before
first_ranked rows subsumed best [] = best
first_ranked rows subsumed best (name ∷ names) =
    first_ranked rows subsumed (if ranks_before rows subsumed name best then name else best) names

-- The rows of each URI together, with the types that they have.
unfoldable pub by_uri : List TypeRow → Groups → Groups
unfolding file_under
by_uri [] groups = groups
by_uri ((uri, name) ∷ rows) groups = by_uri rows (file_under uri name groups)

-- The row of rank 1; no group is empty.
abbrev pub rank_one : List TypeRow → List Text → List Text → Text
rank_one rows subsumed [] = []
rank_one rows subsumed (name ∷ names) = first_ranked rows subsumed name names

abbrev pub rank_groups : List TypeRow → List Text → Groups → List TypeRow
rank_groups rows subsumed [] = []
rank_groups rows subsumed ((uri, names) ∷ groups) =
    (uri, rank_one rows subsumed names) ∷ rank_groups rows subsumed groups

-- Step 5: `ranked`
unfoldable pub ranked : List TypeRow → List TypeRow
unfolding subsumed_node_types first_ranked by_uri
ranked rows = rank_groups rows (subsumed_node_types rows) (by_uri rows [])

pub record NodeRow : Type 0 where
  pub uri : Text
  pub node_id : ℕ
  pub node_type : Text

abbrev pub uris_of : Text → List TypeRow → List Text
uris_of name rows = map (λ row. row.0) (select (λ row. text_eq row.1 name) rows)

-- `row_number() - 1`, from a number on.
abbrev pub number_from : Text → ℕ → List Text → List NodeRow
number_from name n [] = []
number_from name n (uri ∷ uris) =
    record { uri = uri; node_id = n; node_type = name } ∷ number_from name (suc n) uris

abbrev pub number_types : List TypeRow → List Text → List NodeRow
number_types rows [] = []
number_types rows (name ∷ names) =
    number_from name 0 (sorted_texts (uris_of name rows)) ++ number_types rows names

-- Step 6
unfoldable pub number_nodes : List TypeRow → List NodeRow
unfolding text_eq sorted_texts
number_nodes rows = number_types rows (sorted_texts (map (λ row. row.1) rows))

-- `build_node_id_table`, up to `node_id_df`
unfoldable pub node_id_df : (Text → Text) → NameTable → NodeConfig → List Statement → List NodeRow
unfolding type_triples apply_config_filters ranked number_nodes
node_id_df hash table config triples =
    number_nodes (ranked (apply_config_filters config (type_triples hash table triples)))
