-- ===== src/Trim/Views.antt =====
-- -- spark_jobs/pyg_builder/feature_trim.py: what any_nonzero_from finds, kept, constant or copied, is in the full vectors, and the other way round.
use mathlib.Core.Bool.{false≢true}
use pyg_knowledge_graph_buil.Base.{
  ℕ, true, false, some, inl, inr, refl, List, ◌≡◌, All, ◌==◌, leb, ltb, any, arith, Bool-cases,
  length, sym, Option-cases, none, ◌<◌, ◌≤◌, if◌then◌else◌, ◌∙◌, not, ◌&&◌, ltb→lt, ap, leb→le,
  lt→ltb, &&-intro, le→leb,
}
use pyg_knowledge_graph_buil.Base.Bools.{either_true, both}
use pyg_knowledge_graph_buil.Base.Dict.{
  index_of, member, lookup, keys, index_of-member, range, select, index_of-lt-length,
}
use pyg_knowledge_graph_buil.Trim.{descends, TrimSpec, column_of, width}
use pyg_knowledge_graph_buil.Trim.Nonzero.{
  searchsorted, nonzero, any_constant_from, any_kept_from, any_copy_from, any_nonzero_from,
}
use pyg_knowledge_graph_buil.Base.Number.{Number}
use pyg_knowledge_graph_buil.Trim.Scatter.{Tensor}
use pyg_knowledge_graph_buil.Trim.Valid.{places}
use pyg_knowledge_graph_buil.Trim.Rebuild.{
  rebuild, rebuild-copy, rebuild-constant, rebuild-kept, rebuild-empty,
}
use pyg_knowledge_graph_buil.Base.Select.{keys-lookup, member-range, member-select}
use pyg_knowledge_graph_buil.Trim.Places.{
  any-found, All-member, any-member, any-lookup, place_from, place_of_kept, has_place,
  place-get_elem?,
}

-- Each item of an association list is the one that its key finds, as in a Python dict.
abbrev pub FoundByKey {ℓ} : {A : Type ℓ} → List (ℕ × A) → Type ℓ
FoundByKey l = All (λ item. lookup item.0 l ≡ some item.1) l

module _ {V : Type 0} ⦃num : Number V⦄ (s : TrimSpec V) (x : Tensor V) (rows start : ℕ) where
  -- A nonzero value in a full vector of the rows of x, at a position from `start` on.
  abbrev pub Nonzero : Type 0
  Nonzero =
      (r : ℕ) × (p : ℕ) × (r < rows)
      × (start ≤ p)
      × (p < s.vector_dim)
      × (nonzero (rebuild s (x r) p) ≡ true)

  module _ (rises : descends s.kept ≡ false)
      (once : (p : ℕ) → places s p ≡ (if ltb p s.vector_dim then 1 else 0)) where
    on_kept : (p : ℕ) → member p s.kept ≡ true → p < s.vector_dim
    on_kept p h = ground (arith, once p)

    on_constant :
        (p : ℕ) → member p (keys s.constant) ≡ true → (member p s.kept ≡ false) × (p < s.vector_dim)
    on_constant p h = (ground (arith, once p), ground (arith, once p))

    on_copy :
        (p : ℕ)
        → member p (keys s.copy_of) ≡ true
        → (member p s.kept ≡ false) × (member p (keys s.constant) ≡ false) × (p < s.vector_dim)
    on_copy p h = (ground (arith, once p), ground (arith, once p), ground (arith, once p))

    no_column : (p : ℕ) → member p s.kept ≡ false → column_of s p ≡ none
    unfolding column_of
    no_column p h = elim (Option-cases (index_of p s.kept)) [
      | inl e ↦ e
      | inr (c, e) ↦ absurd (false≢true (sym h ∙ index_of-member p c s.kept e))
    ]

    not_constant : (p : ℕ) → member p (keys s.constant) ≡ false → lookup p s.constant ≡ none
    not_constant p h = elim (Option-cases (lookup p s.constant)) [
      | inl e ↦ e
      | inr (v, e) ↦ absurd (false≢true (sym h ∙ keys-lookup p s.constant v e))
    ]

    kept_seen : any_kept_from s x rows (searchsorted s.kept start) ≡ true → Nonzero
    unfolding any_kept_from column_of width
    kept_seen h =
        let (r, r_in, here) =
          any-found (λ r. member r (range rows) ≡ true) _ (range rows) (All-member (range rows))
            h in
        let cs = select (λ c. leb (searchsorted s.kept start) c) (range (length s.kept)) in
        let (c, c_in, seen) = any-found (λ c. member c cs ≡ true) _ cs (All-member cs) here in
        let (in_width, from_first) =
          both (ltb c (length s.kept)) (leb (searchsorted s.kept start) c) (
            ap (λ b. b && leb (searchsorted s.kept start) c) (sym (member-range c (length s.kept)))
            ∙ sym (member-select c (λ c. leb (searchsorted s.kept start) c) (range (length s.kept)))
            ∙ c_in) in
        let (p, place) = has_place c s.kept in_width in
        let column = place_of_kept p c s.kept rises place in
        (
          r,
          p,
          ltb→lt r rows (sym (member-range r rows) ∙ r_in),
          leb→le start p (sym (place_from start p c s.kept rises place) ∙ from_first),
          on_kept p (index_of-member p c s.kept column),
          rw (rebuild-kept s (x r) p c column) seen,
        )

    constant_seen : FoundByKey s.constant → any_constant_from s rows start ≡ true → Nonzero
    unfolding any_constant_from
    constant_seen found h =
        let (some_rows, here) =
          both (not (rows == 0)) (any (λ item. leb start item.0 && nonzero item.1) s.constant) h in
        let ((p, v), own, seen) =
          any-found (λ item. lookup item.0 s.constant ≡ some item.1) _ s.constant found here in
        let (above, value_seen) = both (leb start p) (nonzero v) seen in
        let (not_kept, inside) = on_constant p (keys-lookup p s.constant v own) in
        (
          0,
          p,
          ground arith,
          leb→le start p above,
          inside,
          rw (rebuild-constant s (x 0) p v (no_column p not_kept) own) value_seen,
        )

    module _
        (twins : (p t : ℕ) → lookup p s.copy_of ≡ some t → (c : ℕ) × (column_of s t ≡ some c)) where
      copy_seen : FoundByKey s.copy_of → any_copy_from s x rows start ≡ true → Nonzero
      unfolding any_copy_from
      copy_seen found h =
          let ((p, t), own, seen) =
            any-found (λ item. lookup item.0 s.copy_of ≡ some item.1) _ s.copy_of found h in
          let (above, here) = both (leb start p) _ seen in
          let (c, column) = twins p t own in
          let (r, r_in, value_seen) =
            any-found (λ r. member r (range rows) ≡ true) _ (range rows) (All-member (range rows))
              here in
          let (not_kept, not_const, inside) = on_copy p (keys-lookup p s.copy_of t own) in
          (
            r,
            p,
            ltb→lt r rows (sym (member-range r rows) ∙ r_in),
            leb→le start p above,
            inside,
            rw
                (rebuild-copy s (x r) p t c (no_column p not_kept) (not_constant p not_const) own
                  column)
                (rw column at value_seen),
          )

      any_kept :
          (r p c : ℕ)
          → r < rows
          → start ≤ p
          → column_of s p ≡ some c
          → nonzero (x r c) ≡ true
          → any_kept_from s x rows (searchsorted s.kept start) ≡ true
      unfolding any_kept_from column_of width
      any_kept r p c inside above column seen =
          let first = searchsorted s.kept start in
          let cs = select (λ c. leb first c) (range (length s.kept)) in
          let in_width = lt→ltb c (length s.kept) (index_of-lt-length p s.kept c column) in
          let from_first : leb first c ≡ true =
            place_from start p c s.kept rises (place-get_elem? p c s.kept column)
            ∙ le→leb start p above in
          let here : member c cs ≡ true =
            member-select c (λ c. leb first c) (range (length s.kept))
            ∙ ap (λ b. b && leb first c) (member-range c (length s.kept) ∙ in_width)
            ∙ from_first in
          any-member _ r (range rows) (member-range r rows ∙ lt→ltb r rows inside)
            (any-member (λ c. nonzero (x r c)) c cs here seen)

      any_copy :
          (r p t c : ℕ)
          → r < rows
          → start ≤ p
          → lookup p s.copy_of ≡ some t
          → column_of s t ≡ some c
          → nonzero (x r c) ≡ true
          → any_copy_from s x rows start ≡ true
      unfolding any_copy_from
      any_copy r p t c inside above copy column seen = any-lookup _ p t s.copy_of copy (
          &&-intro (le→leb start p above) (
            any-member _ r (range rows) (member-range r rows ∙ lt→ltb r rows inside)
              (rw column seen)))

      nil_unseen : nonzero num.nil ≡ false
      nil_unseen = ap not ((num.same_iff num.nil num.nil).1 refl)

      pub all_seen : Nonzero → any_nonzero_from s x rows start ≡ true
      unfolding any_nonzero_from any_constant_from
      all_seen (r, p, inside, above, within, seen) = elim (Option-cases (column_of s p)) [
        | inr (c, column) ↦
            rw (any_kept r p c inside above column (rw (rebuild-kept s (x r) p c column) at seen))
              refl
        | inl dropped ↦ elim (Option-cases (lookup p s.constant)) [
          | inr (v, own) ↦
              let here : (leb start p && nonzero v) ≡ true =
                &&-intro (le→leb start p above)
                  (rw (rebuild-constant s (x r) p v dropped own) at seen) in
              either_true (any_kept_from s x rows (searchsorted s.kept start)) _ (
                rw (any-lookup (λ item. leb start item.0 && nonzero item.1) p v s.constant own here)
                  (ground arith))
          | inl varies ↦ elim (Option-cases (lookup p s.copy_of)) [
            | inr (t, copy) ↦
                let (c, column) = twins p t copy in
                either_true _ _ (
                  either_true _ _ (
                    any_copy r p t c inside above copy column
                      (rw (rebuild-copy s (x r) p t c dropped varies copy column) at seen)))
            | inl neither ↦ absurd (
                false≢true
                  (sym nil_unseen ∙ (rw (rebuild-empty s (x r) p dropped varies neither) at seen)))
          ]
        ]
      ]

      pub some_seen :
          FoundByKey s.constant
          → FoundByKey s.copy_of
          → any_nonzero_from s x rows start ≡ true
          → Nonzero
      unfolding any_nonzero_from
      some_seen constants copies h =
          elim (Bool-cases (any_kept_from s x rows (searchsorted s.kept start))) [
            | inl e ↦ kept_seen e
            | inr e ↦ elim (Bool-cases (any_constant_from s rows start)) [
              | inl f ↦ constant_seen constants f
              | inr f ↦ copy_seen copies (rw (e, f) at h)
            ]
          ]
