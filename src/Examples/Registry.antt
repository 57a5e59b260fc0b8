-- ===== src/Examples/Registry.antt =====
-- Two small sources: s, whose paths hold "/s" and which owns the namespace under the source base named
-- s, and t, which owns a namespace inside that one.
use pyg_knowledge_graph_buil.Sources.Terms.Tables.{
  Adds, sources_in_type_uris, sources_in_type_uris-Adds,
}
use pyg_knowledge_graph_buil.Base.{
  [], ◌∷◌, none, some, List, ◌≡◌, refl, true, ◌↔◌, ◌++◌, Bool, map, if◌then◌else◌, leb, ◌&&◌, ◌+◌,
}
use pyg_knowledge_graph_buil.Base.Texts.{Text, among}
use pyg_knowledge_graph_buil.Base.Result.{ok, error_of}
use pyg_knowledge_graph_buil.Sources.{SourceSpec, Feed, post_init, labelled, names_of}
use pyg_knowledge_graph_buil.Sources.Paths.{pick, sources_read, Lower, specs_for_path}
use pyg_knowledge_graph_buil.Sources.Terms.{source_of_type_uri, owned, source_base, merge_all}
use pyg_knowledge_graph_buil.Sources.Wellformed.{Wellformed, post_init-Wellformed}
use pyg_knowledge_graph_buil.Sources.Paths.Picked.{OneSource, Named, pick-Named, pick-OneSource}
use pyg_knowledge_graph_buil.Sources.Paths.Read.{Rises, Reads, sources_read-Reads}
use pyg_knowledge_graph_buil.Sources.Terms.Longest.{Answers, source_of_type_uri-Answers}
use pyg_knowledge_graph_buil.Sources.Terms.Rows.{Apart, rows_in, merge_all-rows_in}
use pyg_knowledge_graph_buil.Base.Dict.{select}

-- Lower case of the letters from A to Z, which the paths here hold at most.
abbrev lower : Lower
lower text = map (λ c. if leb 65 c && leb c 90 then c + 32 else c) text

abbrev s_namespace : Text
s_namespace = source_base ++ 115 ∷ 47 ∷ []

abbrev t_namespace : Text
t_namespace = source_base ++ 115 ∷ 47 ∷ 116 ∷ 47 ∷ []

abbrev feed : Feed
feed = record { name = 102 ∷ []; path_fragment = 70 ∷ []; namespaces = s_namespace ∷ [] }

abbrev spec_s : SourceSpec
spec_s = record {
  ref = 0;
  name = 115 ∷ [];
  path_fragments = (47 ∷ 115 ∷ []) ∷ [];
  namespaces = (s_namespace, 115 ∷ []) ∷ [];
  enrichment_namespace = s_namespace;
  label = [];
  source_format = [];
  date_predicates = [];
  temporal_prefix = [];
  property_mappings = (1 ∷ [], 2 ∷ []) ∷ [];
  class_mappings = [];
  relation_fragments = [];
  entity_namespaces = s_namespace ∷ [];
  measurement_types = [];
  feeds = feed ∷ [];
}

abbrev spec_t : SourceSpec
spec_t = record {
  ref = 1;
  name = 116 ∷ [];
  path_fragments = [];
  namespaces = (t_namespace, 116 ∷ []) ∷ [];
  enrichment_namespace = t_namespace;
  label = [];
  source_format = [];
  date_predicates = [];
  temporal_prefix = [];
  property_mappings = (3 ∷ [], 2 ∷ []) ∷ [];
  class_mappings = [];
  relation_fragments = [];
  entity_namespaces = [];
  measurement_types = [];
  feeds = [];
}

abbrev specs : List SourceSpec
specs = spec_s ∷ spec_t ∷ []

-- "T.nt" and "a/S/f"
abbrev paths : List Text
paths = (84 ∷ 46 ∷ 110 ∷ 116 ∷ []) ∷ (97 ∷ 47 ∷ 83 ∷ 47 ∷ 102 ∷ []) ∷ []

pick_both : pick lower paths specs ≡ ok specs
unfolding pick
pick_both = refl

sources_read_names : sources_read lower paths specs ≡ ok ((102 ∷ []) ∷ (115 ∷ []) ∷ (116 ∷ []) ∷ [])
unfolding sources_read
sources_read_names = refl

source_of_nested : source_of_type_uri (t_namespace ++ 120 ∷ []) specs ≡ some (116 ∷ [])
unfolding source_of_type_uri
source_of_nested = refl

post_init-Wellformed_example : (post_init spec_s ≡ ok (labelled spec_s)) ↔ Wellformed spec_s
post_init-Wellformed_example = post_init-Wellformed spec_s

paths-OneSource : OneSource lower paths specs
unfolding specs_for_path
paths-OneSource = (refl, (refl, tt))

pick-Named_example :
    (test : SourceSpec → Bool) × (pick lower paths specs ≡ ok (select test specs))
    × ((spec : SourceSpec) → (test spec ≡ true) ↔ Named lower spec paths specs)
pick-Named_example = pick-Named lower paths specs paths-OneSource

pick-OneSource_example : (error_of (pick lower paths specs) ≡ none) ↔ OneSource lower paths specs
pick-OneSource_example = pick-OneSource lower paths specs

sources_read-Reads_example :
    (names : List Text) × (sources_read lower paths specs ≡ ok names)
    × Rises names
    × ((name : Text) → (among name names ≡ true) ↔ Reads lower name paths specs)
sources_read-Reads_example = sources_read-Reads lower paths specs paths-OneSource

source_of_type_uri-Answers_example :
    Answers t_namespace (owned specs) (source_of_type_uri t_namespace specs)
source_of_type_uri-Answers_example = source_of_type_uri-Answers t_namespace specs

merge_all-rows_in_example :
    ((error_of (merge_all (λ spec. spec.property_mappings) [] specs) ≡ none)
      ↔ Apart (names_of (rows_in (λ spec. spec.property_mappings) specs)))
    × (Apart (names_of (rows_in (λ spec. spec.property_mappings) specs))
        → merge_all (λ spec. spec.property_mappings) [] specs
          ≡ ok (rows_in (λ spec. spec.property_mappings) specs))
merge_all-rows_in_example = merge_all-rows_in (λ spec. spec.property_mappings) specs

-- One term of s, which names its feed too.
terms_of_s :
    sources_in_type_uris ((s_namespace ++ 120 ∷ []) ∷ []) specs ≡ (115 ∷ []) ∷ (102 ∷ []) ∷ []
unfolding sources_in_type_uris
terms_of_s = refl

sources_in_type_uris-Adds_example :
    Adds specs
      ((s_namespace ++ 120 ∷ []) ∷ [])
      specs
      (sources_in_type_uris ((s_namespace ++ 120 ∷ []) ∷ []) specs)
sources_in_type_uris-Adds_example = sources_in_type_uris-Adds ((s_namespace ++ 120 ∷ []) ∷ []) specs
