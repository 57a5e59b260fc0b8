-- ===== src/Sources/Terms/Tables.antt =====
-- spark_jobs/sources/__init__.py: the tables built from every source, and the sources of a run's terms.
-- The shared namespaces and the shared relation fragments, constants of the module, are arguments.
use mathlib.Core.Option.{some-injective, Option}
use mathlib.Core.Bool.{false≢true}
use pyg_knowledge_graph_buil.Base.{
  [], ◌∷◌, true, none, some, inl, inr, refl, List, Bool, if◌then◌else◌, not, ◌&&◌, ◌≡◌, Bool-cases,
  ◌++◌, any, ◌⊎◌, ◌↔◌, sym, ◌∙◌, Option-cases, ap, arith,
}
use pyg_knowledge_graph_buil.Base.Texts.{Text, text_eq, among, starts_with, text_eq_iff}
use pyg_knowledge_graph_buil.Base.Result.{Result, ok, raise}
use pyg_knowledge_graph_buil.Base.Dict.{select}
use pyg_knowledge_graph_buil.Sources.{SourceSpec, feed_names, relation_categories}
use pyg_knowledge_graph_buil.Sources.Terms.{
  source_of, source_base, owned_namespaces, source_of_type_uri,
}
use pyg_knowledge_graph_buil.Sources.Terms.Held.{select-Feeds, Feeds}

-- `namespace_prefixes`
unfoldable pub namespace_prefixes : List (Text × Text) → List SourceSpec → List (Text × Text)
namespace_prefixes shared [] = shared
namespace_prefixes shared (spec ∷ specs) = spec.namespaces ++ namespace_prefixes shared specs

abbrev pub vocabularies_of : Text → List (Text × Text) → List Text
vocabularies_of enrichment [] = []
vocabularies_of enrichment ((namespace, _) ∷ rest) =
    let others = vocabularies_of enrichment rest in
    if starts_with source_base namespace && not (text_eq namespace enrichment)
    then namespace ∷ others
    else others

-- `source_vocabularies`
unfoldable pub source_vocabularies : List SourceSpec → List Text
unfolding starts_with text_eq
source_vocabularies [] = []
source_vocabularies (spec ∷ specs) =
    vocabularies_of spec.enrichment_namespace spec.namespaces ++ source_vocabularies specs

-- `enrichment_namespaces`
unfoldable pub enrichment_namespaces : List SourceSpec → List Text
enrichment_namespaces [] = []
enrichment_namespaces (spec ∷ specs) = spec.enrichment_namespace ∷ enrichment_namespaces specs

-- `fragments.get(category, ())`
unfoldable pub fragments_of : Text → List (Text × List Text) → List Text
unfolding text_eq
fragments_of category [] = []
fragments_of category ((c, fragments) ∷ rest) =
    if text_eq c category then fragments else fragments_of category rest

abbrev pub all_fragments : Text → List SourceSpec → List Text
all_fragments category [] = []
all_fragments category (spec ∷ specs) =
    fragments_of category spec.relation_fragments ++ all_fragments category specs

-- `relation_fragments`; its ValueError carries the category.
unfoldable pub relation_fragments_in :
    List (Text × List Text) → Text → List SourceSpec → Result Text (List Text)
unfolding among fragments_of
relation_fragments_in shared category specs =
    if not (among category relation_categories)
    then raise category
    else ok (fragments_of category shared ++ all_fragments category specs)

abbrev pub with_name : Option Text → List Text → List Text
with_name none names = names
with_name (some []) names = names
with_name (some (c ∷ name)) names = (c ∷ name) ∷ names

-- The names of the sources that the terms come from, as often as they do.
unfoldable pub found_names : List (Text × Text) → List Text → List Text
unfolding source_of
found_names table [] = []
found_names table (uri ∷ uris) = with_name (source_of uri table) (found_names table uris)

-- Whether some term starts with one of the namespaces.
abbrev pub holds_term : List Text → List Text → Bool
holds_term namespaces uris =
    any (λ uri. any (λ namespace. starts_with namespace uri) namespaces) uris

abbrev pub names_with_feeds : List Text → SourceSpec → List Text
names_with_feeds uris spec =
    spec.name ∷ feed_names (select (λ feed. holds_term feed.namespaces uris) spec.feeds)

abbrev pub names_found : List Text → List Text → List SourceSpec → List Text
names_found uris found [] = []
names_found uris found (spec ∷ specs) =
    let rest = names_found uris found specs in
    if not (among spec.name found) then rest else names_with_feeds uris spec ++ rest

-- `sources_in_type_uris`
unfoldable pub sources_in_type_uris : List Text → List SourceSpec → List Text
unfolding found_names owned_namespaces starts_with among
sources_in_type_uris uris specs = names_found uris (found_names (owned_namespaces specs) uris) specs

-- Some term comes from the source, which has a name that is not empty.
abbrev pub ComesFrom : List SourceSpec → Text → List Text → Type 0
ComesFrom specs name [] = ⊥
ComesFrom specs name (uri ∷ uris) =
    ((source_of_type_uri uri specs ≡ some name) × ¬ (name ≡ [])) ⊎ ComesFrom specs name uris

among-with_name :
    (name n : Text) (found : List Text) (P : Type 0)
    → (among name found ≡ true) ↔ P
    → (among name (with_name (some n) found) ≡ true) ↔ (((some n ≡ some name) × ¬ (name ≡ [])) ⊎ P)
unfolding among
among-with_name name [] found P (forth, back) = (
  λ h. inr (forth h),
  λ h. elim h [
    | inl (same, named) ↦ absurd (named (sym (some-injective _ _ same)))
    | inr later ↦ back later
  ],
)
among-with_name name (c ∷ n) found P (forth, back) = (
  λ h. elim (Bool-cases (text_eq (c ∷ n) name)) [
    | inl f ↦ let same = (text_eq_iff (c ∷ n) name).0 f in inl (ap some same, λ empty. cc)
    | inr f ↦ inr (forth (ground arith))
  ],
  λ h. elim h [
    | inl (same, _) ↦ ground (arith, (text_eq_iff (c ∷ n) name).1 (some-injective _ _ same))
    | inr later ↦ ground (arith, back later)
  ],
)

among-found_names :
    (specs : List SourceSpec) (name : Text) (uris : List Text)
    → (among name (found_names (owned_namespaces specs) uris) ≡ true) ↔ ComesFrom specs name uris
unfolding found_names among source_of_type_uri
among-found_names specs name [] = (λ h. cc, λ h. absurd h)
among-found_names specs name (uri ∷ uris) =
    let (forth, back) = among-found_names specs name uris in
    elim (Option-cases (source_of uri (owned_namespaces specs))) [
      | inl e ↦ rw e (λ h. inr (forth h), λ h. elim h [ inl bad ↦ cc | inr later ↦ back later ])
      | inr (n, e) ↦ rw e (
          among-with_name name n (found_names (owned_namespaces specs) uris)
            (ComesFrom specs name uris) (forth, back))
    ]

-- What each source adds: nothing if no term comes from it or its name is empty, or else its name and those of its feeds with a
-- namespace that some term starts with.
abbrev pub Adds : List SourceSpec → List Text → List SourceSpec → List Text → Type 0
Adds all_specs uris [] names = names ≡ []
Adds all_specs uris (spec ∷ specs) names =
    (¬ (ComesFrom all_specs spec.name uris) × Adds all_specs uris specs names)
    ⊎ (ComesFrom all_specs spec.name uris
        × ((more : List Text) × (rest : List Text) × (names ≡ spec.name ∷ more)
            × Feeds uris spec.feeds rest more
            × Adds all_specs uris specs rest))

names_found-Adds :
    (all_specs : List SourceSpec) (uris : List Text) (specs : List SourceSpec)
    → Adds all_specs uris specs
        (names_found uris (found_names (owned_namespaces all_specs) uris) specs)
names_found-Adds all_specs uris [] = refl
names_found-Adds all_specs uris (spec ∷ specs) =
    let found = found_names (owned_namespaces all_specs) uris in
    let (forth, back) = among-found_names all_specs spec.name uris in
    elim (Bool-cases (among spec.name found)) [
      | inl e ↦ rw e (
          inr (
            forth e,
            (
              _,
              names_found uris found specs,
              refl,
              select-Feeds uris spec.feeds (names_found uris found specs),
              names_found-Adds all_specs uris specs,
            ),
          ))
      | inr e ↦ rw e (inl (λ h. false≢true (sym e ∙ back h), names_found-Adds all_specs uris specs))
    ]

-- sources_in_type_uris goes through the sources in order, and leaves out those that no term comes from and
-- one with an empty name; each other one adds its name, and then the names of its feeds that have a
-- namespace some term starts with.
pub sources_in_type_uris-Adds :
    (uris : List Text) (specs : List SourceSpec)
    → Adds specs uris specs (sources_in_type_uris uris specs)
unfolding sources_in_type_uris
sources_in_type_uris-Adds uris specs = names_found-Adds specs uris specs
