-- ===== src/Naming.antt =====
-- spark_jobs/pyg_builder/naming.py: how a URI becomes a name, and a name a URI again. The table of
-- namespaces and prefixes is an argument, and not empty. Spark's patterns are Java's, where `$` matches
-- before a line terminator at the end too. Spark's hash is a function that is given.
pub mod Twins
pub mod RoundTrip
pub mod Registered
pub mod Refused
use pyg_knowledge_graph_buil.Base.{
  ℕ, zero, suc, [], ◌∷◌, none, some, List, Bool, if◌then◌else◌, not, ◌&&◌, ◌||◌, Option, ◌==◌, ◌++◌,
  length, ◌+◌, ◌-◌, false, true, any,
}
use pyg_knowledge_graph_buil.Base.Texts.{Text, starts_with, drop, codes}
use pyg_knowledge_graph_buil.Base.Result.{Result, ok, raise}
use pyg_knowledge_graph_buil.Base.Dict.{select}
use pyg_knowledge_graph_buil.Sources.{is_none, sorted_texts}

abbrev pub NameTable : Type 0
NameTable = List (Text × Text)

abbrev pub slash_sign : ℕ
slash_sign = 47

abbrev pub hash_sign : ℕ
hash_sign = 35

abbrev pub is_mark : ℕ → Bool
is_mark c = c == slash_sign || c == hash_sign

abbrev pub underscore : Text
underscore = codes "_"

-- `UNREGISTERED_NAME_PREFIX`
abbrev pub unknown : Text
unknown = codes "unknown_"

unfoldable pub trim_start : Text → Text
trim_start [] = []
trim_start (c ∷ text) = if is_mark c then trim_start text else c ∷ text

unfoldable pub trim_end : Text → Text
trim_end [] = []
trim_end (c ∷ text) = let rest = trim_end text in if is_none rest && is_mark c then [] else c ∷ rest

-- `text.strip("/#")`
unfoldable pub strip : Text → Text
unfolding trim_start trim_end
strip text = trim_end (trim_start text)

-- What Java's `$` looks past at the end of a text, as one character.
abbrev pub is_break : ℕ → Bool
is_break c = c == 10 || c == 13 || c == 133 || c == 8232 || c == 8233

-- A text that is a line terminator; "\r\n" is one.
unfoldable pub is_terminator : Text → Bool
is_terminator [] = false
is_terminator (c ∷ []) = is_break c
is_terminator (c ∷ d ∷ []) = c == 13 && d == 10
is_terminator (c ∷ d ∷ e ∷ text) = false

-- Whether `[/#]*$` matches here, in Java.
unfoldable pub marks_to_end : Text → Bool
unfolding is_terminator
marks_to_end [] = true
marks_to_end (c ∷ text) = is_terminator (c ∷ text) || is_mark c && marks_to_end text

-- `regexp_replace(text, r"[/#]+$", "")`
unfoldable pub replace_end : Text → Text
unfolding marks_to_end
replace_end [] = []
replace_end (c ∷ text) =
    let rest = replace_end text in if is_mark c && marks_to_end text then rest else c ∷ rest

-- How much `^[/#]+` matches.
unfoldable pub marks_ahead : Text → ℕ
marks_ahead [] = 0
marks_ahead (c ∷ text) = let n = marks_ahead text in if is_mark c then suc n else 0

-- `regexp_replace(text, r"^[/#]+|[/#]+$", "")`
unfoldable pub replace_ends : Text → Text
unfolding marks_ahead replace_end
replace_ends text = replace_end (drop (marks_ahead text) text)

-- `regexp_extract(text, r"[#/]([^#/]+)$", 1)`: the first mark after which there is something up to the end
-- of the text, and no mark. A `$` before a line terminator changes nothing, as `[^#/]+` takes that too.
unfoldable pub regexp_extract : Text → Text
regexp_extract [] = []
regexp_extract (c ∷ text) =
    let rest = regexp_extract text in
    if is_mark c && not (is_none text) && not (any is_mark text) then text else rest

abbrev pub or_after : ℕ → Text → Option Text → Option Text
or_after c text (some rest) = some rest
or_after c text none = if is_mark c then some text else none

-- What follows the last `/` or `#`, if there is one.
unfoldable pub after_mark : Text → Option Text
after_mark [] = none
after_mark (c ∷ text) = or_after c text (after_mark text)

abbrev pub segment_of : Option Text → Text
segment_of none = []
segment_of (some rest) = rest

-- What `re.search(r"[#/]([^#/]+)$", uri)` captures: the last segment, or nothing where it is empty.
unfoldable pub last_segment : Text → Text
unfolding after_mark
last_segment uri = segment_of (after_mark uri)

abbrev pub name_of : Text → Text → Text
name_of prefix local = prefix ++ (underscore ++ local)

abbrev pub fallback : Text → Text → Result Text Text
fallback uri [] = raise uri
fallback uri (c ∷ segment) = ok (unknown ++ (c ∷ segment))

-- `prefixed_local_name`; its ValueError carries the URI.
unfoldable pub prefixed_local_name : NameTable → Text → Result Text Text
unfolding starts_with strip last_segment
prefixed_local_name [] uri = fallback uri (last_segment uri)
prefixed_local_name ((namespace, prefix) ∷ table) uri =
    let rest = prefixed_local_name table uri in
    let local = strip (drop (length namespace) uri) in
    if starts_with namespace uri && not (is_none local) then ok (name_of prefix local) else rest

-- `substring(col, start + 1, count)`
abbrev pub take : ℕ → Text → Text
take zero text = []
take (suc count) [] = []
take (suc count) (c ∷ text) = c ∷ take count text

-- The column that `prefixed_local_name_expr` computes for a URI.
unfoldable pub prefixed_local_name_expr : (Text → Text) → NameTable → Text → Text
unfolding starts_with replace_ends regexp_extract
prefixed_local_name_expr hash [] uri =
    if not (is_none (regexp_extract uri))
    then unknown ++ regexp_extract uri
    else unknown ++ hash uri
prefixed_local_name_expr hash ((namespace, prefix) ∷ table) uri =
    let rest = prefixed_local_name_expr hash table uri in
    let local = replace_ends (take 1000 (drop (length namespace) uri)) in
    if starts_with namespace uri && not (is_none local) then name_of prefix local else rest

-- `relation_to_predicate_uri`
unfoldable pub relation_to_predicate_uri : NameTable → Text → Text
unfolding starts_with
relation_to_predicate_uri [] relation = relation
relation_to_predicate_uri ((namespace, prefix) ∷ table) relation =
    if starts_with (prefix ++ underscore) relation
    then namespace ++ drop (length prefix + 1) relation
    else relation_to_predicate_uri table relation

-- The part of a URI up to and including its last mark, counted from its end.
abbrev pub without_end : Text → Text → Text
without_end uri segment = take (length uri - length segment) uri

-- `_namespace_of`
unfoldable pub namespace_of : Text → Text
unfolding last_segment
namespace_of uri = if is_none (last_segment uri) then uri else without_end uri (last_segment uri)

-- What `check_registered_names` does: nothing, a warning with the names, or a ValueError with the names and
-- the namespaces of the URIs that `find_uris` finds for them.
pub data NameCheck : Type 0 where
  passed : NameCheck
  warned : List Text → NameCheck
  refused : List Text → List Text → NameCheck

abbrev pub namespaces_of : List Text → List Text
namespaces_of [] = []
namespaces_of (uri ∷ uris) = namespace_of uri ∷ namespaces_of uris

unfoldable pub check_registered_names : List Text → Bool → (List Text → List Text) → NameCheck
unfolding starts_with sorted_texts namespace_of
check_registered_names names allowed find_uris =
    let found = sorted_texts (select (λ name. starts_with unknown name) names) in
    if is_none found
    then passed
    else if allowed
    then warned found
    else refused found (sorted_texts (namespaces_of (find_uris found)))
