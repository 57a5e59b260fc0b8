-- ===== src/Sources/Paths.antt =====
-- spark_jobs/sources/__init__.py: which sources a run's paths name. `lower` is str.lower, whose tables
-- are Unicode's: an argument of whatever uses it.
pub mod Picked
pub mod Read
use pyg_knowledge_graph_buil.Base.{
  ℕ, zero, suc, [], ◌∷◌, true, false, none, some, inl, inr, refl, List, Bool, if◌then◌else◌, not,
  ◌&&◌, ◌==◌, map, any, ◌++◌, ◌||◌,
}
use pyg_knowledge_graph_buil.Base.Texts.{
  Text, text_eq, among, text_lt, starts_with, split, up_to, contains, replace,
}
use pyg_knowledge_graph_buil.Base.Result.{Result, ok, raise, ◌>>=◌}
use pyg_knowledge_graph_buil.Base.Dict.{select}
use pyg_knowledge_graph_buil.Sources.{SourceSpec, Feed, feed_names, sorted_texts}

abbrev pub Lower : Type 0
Lower = Text → Text

abbrev pub slash : ℕ
slash = 47

abbrev pub backslash : ℕ
backslash = 92

abbrev pub dot : ℕ
dot = 46

-- The segments of a path in lower case.
unfoldable pub segments : Text → List Text
unfolding split
segments lowered = split slash (replace backslash slash lowered)

unfoldable pub stems : Text → List Text
unfolding up_to segments
stems lowered = map (up_to dot) (segments lowered)

unfoldable pub has_fragment : Text → SourceSpec → Bool
unfolding contains
has_fragment lowered spec = any (λ fragment. contains fragment lowered) spec.path_fragments

unfoldable pub specs_for_path : Lower → Text → List SourceSpec → List SourceSpec
unfolding has_fragment stems among
specs_for_path lower path specs =
    let lowered = lower path in
    let by_fragment = select (has_fragment lowered) specs in
    elim by_fragment [
      | [] ↦ select (λ spec. among spec.name (stems lowered)) specs
      | spec ∷ rest ↦ spec ∷ rest
    ]

pub data PathError : Type 0 where
  no_source : Text → PathError
  many_sources : Text → List SourceSpec → PathError

-- The one spec found, or the error.
abbrev pub the_one : Text → List SourceSpec → Result PathError SourceSpec
the_one path [] = raise (no_source path)
the_one path (spec ∷ []) = ok spec
the_one path (spec ∷ other ∷ rest) = raise (many_sources path (spec ∷ other ∷ rest))

unfoldable pub match_path : Lower → Text → List SourceSpec → Result PathError SourceSpec
unfolding specs_for_path
match_path lower path specs = the_one path (specs_for_path lower path specs)

-- `{match_path(path, specs) for path in paths}`, with what occurs again
unfoldable pub match_all : Lower → List Text → List SourceSpec → Result PathError (List SourceSpec)
unfolding match_path
match_all lower [] specs = ok []
match_all lower (path ∷ paths) specs = match_path lower path specs >>= λ spec.
    match_all lower paths specs >>= λ matched. ok (spec ∷ matched)

-- `spec in matched`
unfoldable pub is_among : SourceSpec → List SourceSpec → Bool
is_among spec [] = false
is_among spec (s ∷ matched) = s.ref == spec.ref || is_among spec matched

unfoldable pub pick : Lower → List Text → List SourceSpec → Result PathError (List SourceSpec)
unfolding match_all is_among
pick lower paths specs =
    match_all lower paths specs >>= λ matched. ok (select (λ spec. is_among spec matched) specs)

-- `_names_feed`
unfoldable pub names_feed : Lower → Text → Text → Bool
unfolding among segments
names_feed lower path fragment = among (lower fragment) (segments (lower path))

-- The names that one path adds: its source's, and those of the feeds that it names.
abbrev pub names_read : Lower → Text → SourceSpec → List Text
names_read lower path spec =
    spec.name ∷ feed_names (select (λ feed. names_feed lower path feed.path_fragment) spec.feeds)

unfoldable pub names_of_paths : Lower → List Text → List SourceSpec → Result PathError (List Text)
unfolding match_path names_feed
names_of_paths lower [] specs = ok []
names_of_paths lower (path ∷ paths) specs = match_path lower path specs >>= λ spec.
    names_of_paths lower paths specs >>= λ names. ok (names_read lower path spec ++ names)

unfoldable pub sources_read : Lower → List Text → List SourceSpec → Result PathError (List Text)
unfolding names_of_paths sorted_texts
sources_read lower paths specs =
    names_of_paths lower paths specs >>= λ names. ok (sorted_texts names)
