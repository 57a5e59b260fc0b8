-- ===== src/Sources/Terms/Prefixes.antt =====
-- spark_jobs/sources/__init__.py and spark_jobs/utils/namespaces.py: the prefixes of a source's entities.
use mathlib.Core.Bool.{false≢true}
use pyg_knowledge_graph_buil.Base.{
  [], ◌∷◌, inl, inr, refl, List, ◌≡◌, ◌++◌, Bool-cases, ◌⊎◌, ◌≢◌, ap, ◌∙◌, sym, length,
}
use pyg_knowledge_graph_buil.Base.Texts.{Text, starts_with, starts_with_iff, drop}
use pyg_knowledge_graph_buil.Base.Result.{ok}
use pyg_knowledge_graph_buil.Sources.Terms.{source_base, identifier_base, entity_prefixes}

-- Each namespace in turn, and after one under the source base its identifier namespace.
abbrev pub Prefixes : List Text → List Text → Type 0
Prefixes [] prefixes = prefixes ≡ []
Prefixes (namespace ∷ namespaces) prefixes =
    ((rest : Text) × (tail : List Text) × (namespace ≡ source_base ++ rest)
      × (prefixes ≡ namespace ∷ (identifier_base ++ rest) ∷ tail)
      × Prefixes namespaces tail)
    ⊎ (((rest : Text) → namespace ≢ source_base ++ rest)
        × ((tail : List Text) × (prefixes ≡ namespace ∷ tail) × Prefixes namespaces tail))

-- entity_prefixes never raises: it returns each namespace in turn, and after one that is the source base
-- and a rest, the identifier base with that rest.
pub entity_prefixes-Prefixes :
    (namespaces : List Text)
    → (prefixes : List Text) × (entity_prefixes namespaces ≡ ok prefixes)
      × Prefixes namespaces prefixes
unfolding entity_prefixes
entity_prefixes-Prefixes [] = ([], refl, refl)
entity_prefixes-Prefixes (namespace ∷ namespaces) =
    let (tail, same, h) = entity_prefixes-Prefixes namespaces in
    elim (Bool-cases (starts_with source_base namespace)) [
      | inl e ↦
          let (rest, under) = (starts_with_iff source_base namespace).0 e in
          let after : drop (length source_base) namespace ≡ rest =
            ap (drop (length source_base)) under in
          (
            namespace ∷ (identifier_base ++ rest) ∷ tail,
            rw (e, after, same),
            inl (rest, tail, under, refl, h),
          )
      | inr e ↦
          let outside = λ (rest : Text) (under : namespace ≡ source_base ++ rest).
            false≢true (sym e ∙ (starts_with_iff source_base namespace).1 (rest, under)) in
          (namespace ∷ tail, rw (e, same), inr (outside, (tail, refl, h)))
    ]
