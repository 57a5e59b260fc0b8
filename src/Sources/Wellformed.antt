-- ===== src/Sources/Wellformed.antt =====
-- spark_jobs/sources/spec.py: what the checks of __post_init__ ask.
use pyg_knowledge_graph_buil.Base.Ascending.{insert_once, sort_once}
use pyg_knowledge_graph_buil.Base.{
  [], ◌∷◌, true, false, refl, List, not, All, ◌≡◌, ◌⊎◌, arith, ◌↔◌, inr, inl, Bool, sym, ◌∙◌,
}
use pyg_knowledge_graph_buil.Base.Texts.{Text, among, text_lt, text_eq}
use pyg_knowledge_graph_buil.Base.Result.{Result, ok}
use pyg_knowledge_graph_buil.Base.Dict.{select}
use pyg_knowledge_graph_buil.Sources.{
  SourceSpec, Feed, SpecError, sorted_sequence, names_of, sorted_texts, insert_again, is_none,
  unless_any, feed_names, beside, source_formats, relation_categories, post_init, labelled,
  checked_lists, stray_feeds, checked_values, types_unmapped, feeds_stray, entities_stray,
  categories_unknown,
}

abbrev pub Within : List Text → List Text → Type 0
Within texts others = All (λ text. among text others ≡ true) texts

abbrev pub Wellformed : SourceSpec → Type 0
Wellformed spec =
    let own = names_of spec.namespaces in
    (among spec.enrichment_namespace own ≡ true)
    × (is_none spec.source_format ≡ true ⊎ among spec.source_format source_formats ≡ true)
    × (is_none spec.date_predicates ≡ is_none spec.temporal_prefix)
    × (Within (names_of spec.relation_fragments) relation_categories
        × Within spec.entity_namespaces own
        × All (λ feed. Within feed.namespaces own) spec.feeds
        × Within spec.measurement_types (names_of spec.class_mappings))

pub is_none-insert_once :
    {A : Type 0} (lt eq : A → A → Bool) (x : A) (xs : List A)
    → is_none (insert_once lt eq x xs) ≡ false
unfolding insert_once
is_none-insert_once lt eq x [] = refl
is_none-insert_once lt eq x (y ∷ xs) = ground arith

pub is_none-sorted_texts : (texts : List Text) → is_none (sorted_texts texts) ≡ is_none texts
unfolding sorted_texts sort_once
is_none-sorted_texts [] = refl
is_none-sorted_texts (t ∷ texts) = is_none-insert_once text_lt text_eq t (sorted_texts texts)

is_none-insert_again : (text : Text) (texts : List Text) → is_none (insert_again text texts) ≡ false
unfolding insert_again
is_none-insert_again text [] = refl
is_none-insert_again text (t ∷ texts) = ground arith

is_none-sorted_sequence : (texts : List Text) → is_none (sorted_sequence texts) ≡ is_none texts
unfolding sorted_sequence
is_none-sorted_sequence [] = refl
is_none-sorted_sequence (t ∷ texts) = is_none-insert_again t (sorted_sequence texts)

is_none-feed_names : (feeds : List Feed) → is_none (feed_names feeds) ≡ is_none feeds
is_none-feed_names [] = refl
is_none-feed_names (feed ∷ feeds) = refl

is_none-beside :
    (texts others : List Text) → (is_none (beside texts others) ≡ true) ↔ Within texts others
is_none-beside [] others = (λ h. tt, λ h. refl)
is_none-beside (t ∷ texts) others = ground (arith, is_none-beside texts others)

is_none-stray_feeds :
    (own : List Text) (feeds : List Feed)
    → (is_none (select (λ feed. not (is_none (beside feed.namespaces own))) feeds) ≡ true)
      ↔ All (λ feed. Within feed.namespaces own) feeds
is_none-stray_feeds own [] = (λ h. tt, λ h. refl)
is_none-stray_feeds own (feed ∷ feeds) =
    ground (arith, is_none-beside feed.namespaces own, is_none-stray_feeds own feeds)

unless_any-ok :
    (texts : List Text) (error : List Text → SpecError) (rest : Result SpecError SourceSpec)
    (spec : SourceSpec)
    → (unless_any texts error rest ≡ ok spec) ↔ ((is_none texts ≡ true) × (rest ≡ ok spec))
unless_any-ok [] error rest spec = (λ h. (refl, h), λ (_, h). h)
unless_any-ok (t ∷ texts) error rest spec = (λ h. cc, λ (h, _). cc)

-- The lists that stay empty, in the order of the checks.
lists-Wellformed :
    (spec : SourceSpec)
    → (checked_lists spec ≡ ok (labelled spec)) ↔ (
        Within (names_of spec.relation_fragments) relation_categories
        × Within spec.entity_namespaces (names_of spec.namespaces)
        × All (λ feed. Within feed.namespaces (names_of spec.namespaces)) spec.feeds
        × Within spec.measurement_types (names_of spec.class_mappings))
unfolding checked_lists
lists-Wellformed spec =
    let own = names_of spec.namespaces in
    let classes = names_of spec.class_mappings in
    let a = beside (names_of spec.relation_fragments) relation_categories in
    let b = beside spec.entity_namespaces own in
    let c = feed_names (stray_feeds spec) in
    let d = beside spec.measurement_types classes in
    let last = unless_any (sorted_texts d) types_unmapped (ok (labelled spec)) in
    let feeds = unless_any (sorted_sequence c) feeds_stray last in
    let entities = unless_any (sorted_texts b) entities_stray feeds in
    let first = unless_any-ok (sorted_texts a) categories_unknown entities (labelled spec) in
    let second = unless_any-ok (sorted_texts b) entities_stray feeds (labelled spec) in
    let third = unless_any-ok (sorted_sequence c) feeds_stray last (labelled spec) in
    let fourth =
      unless_any-ok (sorted_texts d) types_unmapped (ok (labelled spec)) (labelled spec) in
    (
      λ h.
          let (e₁, h₁) = first.0 h in
          let (e₂, h₂) = second.0 h₁ in
          let (e₃, h₃) = third.0 h₂ in
          let (e₄, _) = fourth.0 h₃ in
          (
            (is_none-beside (names_of spec.relation_fragments) relation_categories).0
                (sym (is_none-sorted_texts a) ∙ e₁),
            (is_none-beside spec.entity_namespaces own).0 (sym (is_none-sorted_texts b) ∙ e₂),
            (is_none-stray_feeds own spec.feeds).0 (
                sym (is_none-feed_names (stray_feeds spec)) ∙ sym (is_none-sorted_sequence c) ∙ e₃),
            (is_none-beside spec.measurement_types classes).0 (sym (is_none-sorted_texts d) ∙ e₄),
          ),
      λ (w₁, w₂, w₃, w₄). first.1 (
        is_none-sorted_texts a
            ∙ (is_none-beside (names_of spec.relation_fragments) relation_categories).1 w₁,
        second.1 (
          is_none-sorted_texts b ∙ (is_none-beside spec.entity_namespaces own).1 w₂,
          third.1 (
            is_none-sorted_sequence c
                ∙ is_none-feed_names (stray_feeds spec)
                ∙ (is_none-stray_feeds own spec.feeds).1 w₃,
            fourth.1 (
              is_none-sorted_texts d ∙ (is_none-beside spec.measurement_types classes).1 w₄,
              refl,
            ),
          ),
        ),
      ),
    )

checks-pass :
    (enrichment no_format known no_dates no_prefix : Bool) (rest : Result SpecError SourceSpec)
    (spec : SourceSpec)
    → (checked_values enrichment no_format known no_dates no_prefix rest ≡ ok spec) ↔ (
        (enrichment ≡ true)
        × (no_format ≡ true ⊎ known ≡ true)
        × (no_dates ≡ no_prefix)
        × (rest ≡ ok spec))
checks-pass false f k d p rest spec = (λ h. cc, λ (h, _, _, _). cc)
checks-pass true false false d p rest spec =
    (λ h. cc, λ (_, h, _, _). elim h [ inl e ↦ cc | inr e ↦ cc ])
checks-pass true true k true true rest spec = (λ h. (refl, inl refl, refl, h), λ (_, _, _, h). h)
checks-pass true true k false false rest spec = (λ h. (refl, inl refl, refl, h), λ (_, _, _, h). h)
checks-pass true true k true false rest spec = (λ h. cc, λ (_, _, h, _). cc)
checks-pass true true k false true rest spec = (λ h. cc, λ (_, _, h, _). cc)
checks-pass true false true true true rest spec =
    (λ h. (refl, inr refl, refl, h), λ (_, _, _, h). h)
checks-pass true false true false false rest spec =
    (λ h. (refl, inr refl, refl, h), λ (_, _, _, h). h)
checks-pass true false true true false rest spec = (λ h. cc, λ (_, _, h, _). cc)
checks-pass true false true false true rest spec = (λ h. cc, λ (_, _, h, _). cc)

-- `__post_init__` returns the spec, its label filled in, exactly where the enrichment namespace and the
-- entity and feed namespaces are among the spec's own, the format is empty or known, date predicates and
-- a temporal prefix are both given or neither, every relation category is known, and every measurement
-- type has a row of class_mappings.
pub post_init-Wellformed :
    (spec : SourceSpec) → (post_init spec ≡ ok (labelled spec)) ↔ Wellformed spec
unfolding post_init
post_init-Wellformed spec =
    let checks =
      checks-pass (among spec.enrichment_namespace (names_of spec.namespaces))
        (is_none spec.source_format) (among spec.source_format source_formats)
        (is_none spec.date_predicates) (is_none spec.temporal_prefix) (checked_lists spec)
        (labelled spec) in
    (
      λ h. let (e, f, d, rest) = checks.0 h in (e, f, d, (lists-Wellformed spec).0 rest),
      λ (e, f, d, w). checks.1 (e, f, d, (lists-Wellformed spec).1 w),
    )
