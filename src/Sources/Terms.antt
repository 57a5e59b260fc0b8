-- ===== src/Sources/Terms.antt =====
-- spark_jobs/sources/__init__.py: which source a term belongs to, and the tables built from the specs;
-- spark_jobs/utils/namespaces.py: identifier_namespace.
pub mod Longest
pub mod Rows
pub mod Prefixes
pub mod Held
pub mod Tables
use pyg_knowledge_graph_buil.Base.{
  ℕ, zero, suc, [], ◌∷◌, true, false, none, some, inl, inr, refl, List, Bool, if◌then◌else◌, not,
  ◌&&◌, Option, ltb, ◌++◌, length, ◌||◌, ◌==◌,
}
use pyg_knowledge_graph_buil.Base.Texts.{Text, text_eq, among, text_lt, starts_with, drop}
use pyg_knowledge_graph_buil.Base.Result.{Result, ok, raise, ◌>>=◌}
use pyg_knowledge_graph_buil.Base.Dict.{select}
use pyg_knowledge_graph_buil.Sources.{SourceSpec, Feed, names_of}

-- `SOURCE_BASE`
abbrev pub source_base : Text
source_base =
    104 ∷ 116 ∷ 116 ∷ 112 ∷ 115 ∷ 58 ∷ 47 ∷ 47 ∷ 106 ∷ 101 ∷ 102 ∷ 102 ∷ 108 ∷ 101 ∷ 118 ∷ 101 ∷ 115
    ∷ 113 ∷ 117 ∷ 101 ∷ 46 ∷ 99 ∷ 111 ∷ 109 ∷ 47 ∷ 111 ∷ 110 ∷ 116 ∷ 111 ∷ 108 ∷ 111 ∷ 103 ∷ 121
    ∷ 47 ∷ []

-- `IDENTIFIER_BASE`
abbrev pub identifier_base : Text
identifier_base =
    104 ∷ 116 ∷ 116 ∷ 112 ∷ 115 ∷ 58 ∷ 47 ∷ 47 ∷ 106 ∷ 101 ∷ 102 ∷ 102 ∷ 108 ∷ 101 ∷ 118 ∷ 101 ∷ 115
    ∷ 113 ∷ 117 ∷ 101 ∷ 46 ∷ 99 ∷ 111 ∷ 109 ∷ 47 ∷ 105 ∷ 100 ∷ 47 ∷ []

-- `identifier_namespace`; its ValueError carries the namespace.
unfoldable pub identifier_namespace : Text → Result Text Text
unfolding starts_with
identifier_namespace term_namespace =
    if not (starts_with source_base term_namespace)
    then raise term_namespace
    else ok (identifier_base ++ drop (length source_base) term_namespace)

unfoldable pub entity_prefixes : List Text → Result Text (List Text)
unfolding starts_with identifier_namespace
entity_prefixes [] = ok []
entity_prefixes (namespace ∷ namespaces) =
    let rest = entity_prefixes namespaces in
    if starts_with source_base namespace
    then (identifier_namespace namespace >>= λ id.
        rest >>= λ prefixes. ok (namespace ∷ id ∷ prefixes))
    else (rest >>= λ prefixes. ok (namespace ∷ prefixes))

abbrev pub owned_by : Text → List (Text × Text) → List (Text × Text)
owned_by name [] = []
owned_by name ((namespace, _) ∷ rest) = (namespace, name) ∷ owned_by name rest

abbrev pub owned : List SourceSpec → List (Text × Text)
owned [] = []
owned (spec ∷ specs) = owned_by spec.name spec.namespaces ++ owned specs

-- Whether the key (-len(namespace), namespace) of the second is below the first's.
unfoldable pub goes_before : Text × Text → Text × Text → Bool
unfolding text_lt
goes_before (a, _) (b, _) = ltb (length b) (length a) || (length a == length b && text_lt a b)

-- A stable sort by that key.
unfoldable pub place_pair : Text × Text → List (Text × Text) → List (Text × Text)
unfolding goes_before
place_pair p [] = p ∷ []
place_pair p (q ∷ rest) = if goes_before q p then q ∷ place_pair p rest else p ∷ q ∷ rest

unfoldable pub sort_pairs : List (Text × Text) → List (Text × Text)
unfolding place_pair
sort_pairs [] = []
sort_pairs (p ∷ rest) = place_pair p (sort_pairs rest)

-- `_owned_namespaces`
unfoldable pub owned_namespaces : List SourceSpec → List (Text × Text)
unfolding sort_pairs
owned_namespaces specs = sort_pairs (owned specs)

-- `_source_of`
unfoldable pub source_of : Text → List (Text × Text) → Option Text
unfolding starts_with
source_of uri [] = none
source_of uri ((namespace, name) ∷ table) =
    if starts_with namespace uri then some name else source_of uri table

unfoldable pub source_of_type_uri : Text → List SourceSpec → Option Text
unfolding source_of owned_namespaces
source_of_type_uri uri specs = source_of uri (owned_namespaces specs)

-- `_merged_rows`, over the rows of each spec and its name. The ValueError names the term and the second
-- source.
unfoldable pub merge_into :
    Text → List (Text × Text) → List (Text × Text) → Result (Text × Text) (List (Text × Text))
unfolding among
merge_into name merged [] = ok merged
merge_into name merged ((term, target) ∷ rows) =
    let rest = merge_into name (merged ++ (term, target) ∷ []) rows in
    if among term (names_of merged) then raise (term, name) else rest

unfoldable pub merge_all :
    (SourceSpec → List (Text × Text))
    → List (Text × Text)
    → List SourceSpec
    → Result (Text × Text) (List (Text × Text))
unfolding merge_into
merge_all rows_of merged [] = ok merged
merge_all rows_of merged (spec ∷ specs) =
    merge_into spec.name merged (rows_of spec) >>= λ more. merge_all rows_of more specs

abbrev pub property_mappings : List SourceSpec → Result (Text × Text) (List (Text × Text))
property_mappings specs = merge_all (λ spec. spec.property_mappings) [] specs

abbrev pub class_mappings : List SourceSpec → Result (Text × Text) (List (Text × Text))
class_mappings specs = merge_all (λ spec. spec.class_mappings) [] specs
