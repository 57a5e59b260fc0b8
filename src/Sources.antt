-- ===== src/Sources.antt =====
-- spark_jobs/sources/spec.py: what a data source declares, and the checks of __post_init__. A text is
-- the list of its code points. Specs are compared by identity, which `ref` stands for. The functions
-- that a spec may carry are no part of it here, and a dict is an association list whose keys are apart.
pub mod Wellformed
pub mod Paths
pub mod Terms
use pyg_knowledge_graph_buil.Base.Ascending.{sort_once}
use pyg_knowledge_graph_buil.Base.{ℕ, [], ◌∷◌, true, false, List, Bool, if◌then◌else◌, not, ◌&&◌}
use pyg_knowledge_graph_buil.Base.Texts.{Text, text_eq, among, text_lt}
use pyg_knowledge_graph_buil.Base.Result.{Result, ok, raise}
use pyg_knowledge_graph_buil.Base.Dict.{select}

pub record Feed : Type 0 where
  pub name : Text
  pub path_fragment : Text
  pub namespaces : List Text

pub record SourceSpec : Type 0 where
  pub ref : ℕ
  pub name : Text
  pub path_fragments : List Text
  pub namespaces : List (Text × Text)
  pub enrichment_namespace : Text
  pub label : Text
  pub source_format : Text
  pub date_predicates : List Text
  pub temporal_prefix : Text
  pub property_mappings : List (Text × Text)
  pub class_mappings : List (Text × Text)
  pub relation_fragments : List (Text × List Text)
  pub entity_namespaces : List Text
  pub measurement_types : List Text
  pub feeds : List Feed

abbrev pub temporal : Text
temporal = 116 ∷ 101 ∷ 109 ∷ 112 ∷ 111 ∷ 114 ∷ 97 ∷ 108 ∷ []

abbrev pub option_stock : Text
option_stock = 111 ∷ 112 ∷ 116 ∷ 105 ∷ 111 ∷ 110 ∷ 95 ∷ 115 ∷ 116 ∷ 111 ∷ 99 ∷ 107 ∷ []

abbrev pub escalation : Text
escalation = 101 ∷ 115 ∷ 99 ∷ 97 ∷ 108 ∷ 97 ∷ 116 ∷ 105 ∷ 111 ∷ 110 ∷ []

abbrev pub correlation : Text
correlation = 99 ∷ 111 ∷ 114 ∷ 114 ∷ 101 ∷ 108 ∷ 97 ∷ 116 ∷ 105 ∷ 111 ∷ 110 ∷ []

abbrev pub causal : Text
causal = 99 ∷ 97 ∷ 117 ∷ 115 ∷ 97 ∷ 108 ∷ []

abbrev pub strategy : Text
strategy = 115 ∷ 116 ∷ 114 ∷ 97 ∷ 116 ∷ 101 ∷ 103 ∷ 121 ∷ []

abbrev pub skip : Text
skip = 115 ∷ 107 ∷ 105 ∷ 112 ∷ []

abbrev pub relation_categories : List Text
relation_categories =
    temporal ∷ option_stock ∷ escalation ∷ correlation ∷ causal ∷ strategy ∷ skip ∷ []

abbrev pub ntriples : Text
ntriples = 110 ∷ 116 ∷ 114 ∷ 105 ∷ 112 ∷ 108 ∷ 101 ∷ 115 ∷ []

abbrev pub turtle_parquet : Text
turtle_parquet =
    116 ∷ 117 ∷ 114 ∷ 116 ∷ 108 ∷ 101 ∷ 95 ∷ 112 ∷ 97 ∷ 114 ∷ 113 ∷ 117 ∷ 101 ∷ 116 ∷ []

abbrev pub source_formats : List Text
source_formats = ntriples ∷ turtle_parquet ∷ []

abbrev pub names_of {ℓ} : {A : Type ℓ} → List (Text × A) → List Text
names_of [] = []
names_of ((name, _) ∷ rest) = name ∷ names_of rest

abbrev pub is_none {ℓ} : {A : Type ℓ} → List A → Bool
is_none [] = true
is_none (_ ∷ _) = false

-- `sorted` of a set: in order, and once each.
unfoldable pub sorted_texts : List Text → List Text
unfolding sort_once text_lt text_eq
sorted_texts texts = sort_once text_lt text_eq texts

-- `sorted` of a sequence, which keeps what occurs again.
unfoldable pub insert_again : Text → List Text → List Text
unfolding text_lt
insert_again text [] = text ∷ []
insert_again text (t ∷ texts) =
    if text_lt t text then t ∷ insert_again text texts else text ∷ t ∷ texts

unfoldable pub sorted_sequence : List Text → List Text
unfolding insert_again
sorted_sequence [] = []
sorted_sequence (text ∷ texts) = insert_again text (sorted_sequence texts)

-- `set(texts) - set(others)`, in the order of the first
abbrev pub beside : List Text → List Text → List Text
beside texts others = select (λ text. not (among text others)) texts

-- The ValueErrors of `__post_init__`, with what each message lists.
pub data SpecError : Type 0 where
  enrichment_stray format_unknown dates_without_prefix : SpecError
  categories_unknown entities_stray feeds_stray types_unmapped : List Text → SpecError

abbrev pub feed_names : List Feed → List Text
feed_names [] = []
feed_names (feed ∷ feeds) = feed.name ∷ feed_names feeds

abbrev pub stray_feeds : SourceSpec → List Feed
stray_feeds spec =
    select (λ feed. not (is_none (beside feed.namespaces (names_of spec.namespaces)))) spec.feeds

abbrev pub labelled : SourceSpec → SourceSpec
labelled spec = if is_none spec.label then record spec { label = spec.name } else spec

-- `raise ValueError` if the list of what is wrong holds anything
abbrev pub unless_any :
    List Text → (List Text → SpecError) → Result SpecError SourceSpec → Result SpecError SourceSpec
unless_any [] error rest = rest
unless_any (text ∷ texts) error rest = raise (error (text ∷ texts))

-- `bool(dates) != bool(prefix)`
abbrev pub unlike : Bool → Bool → Bool
unlike true second = not second
unlike false second = second

-- The checks of `__post_init__` that look at one value or two, before the others.
abbrev pub checked_values :
    Bool → Bool → Bool → Bool → Bool → Result SpecError SourceSpec → Result SpecError SourceSpec
checked_values enrichment no_format known no_dates no_prefix rest =
    if not enrichment
    then raise enrichment_stray
    else if not no_format && not known
    then raise format_unknown
    else if unlike no_dates no_prefix
    then raise dates_without_prefix
    else rest

-- The checks of `__post_init__` that list what is wrong.
unfoldable pub checked_lists : SourceSpec → Result SpecError SourceSpec
unfolding among sorted_texts sorted_sequence
checked_lists spec =
    let own = names_of spec.namespaces in
    unless_any (sorted_texts (beside (names_of spec.relation_fragments) relation_categories))
      categories_unknown
      (unless_any (sorted_texts (beside spec.entity_namespaces own)) entities_stray (
        unless_any (sorted_sequence (feed_names (stray_feeds spec))) feeds_stray (
          unless_any (sorted_texts (beside spec.measurement_types (names_of spec.class_mappings)))
            types_unmapped (ok (labelled spec)))))

-- `SourceSpec.__post_init__`
unfoldable pub post_init : SourceSpec → Result SpecError SourceSpec
unfolding among checked_lists
post_init spec =
    checked_values (among spec.enrichment_namespace (names_of spec.namespaces))
      (is_none spec.source_format) (among spec.source_format source_formats)
      (is_none spec.date_predicates) (is_none spec.temporal_prefix) (checked_lists spec)
