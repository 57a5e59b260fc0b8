-- ===== src/Identifiers/Padding.antt =====
-- spark_jobs/utils/sec_identifiers.py: the widths pad a text once.
use pyg_knowledge_graph_buil.Base.{
  ℕ, zero, suc, [], ◌∷◌, true, false, List, Bool, refl, All, arith, ◌≡◌, ◌≤◌, ◌-◌, ◌++◌, length,
  inl, inr, Bool-cases, leb, ◌∙◌, not, ◌⊎◌, le→leb, leb→le, ◌&&◌,
}
use pyg_knowledge_graph_buil.Base.Texts.{Text, among}
use pyg_knowledge_graph_buil.Sources.{is_none}
use pyg_knowledge_graph_buil.Identifiers.{
  zeros, lpad, pad_to, pad_over, predicates_of, padded_identifier_widths,
}
use pyg_knowledge_graph_buil.Identifiers.Digits.{Digits, length-lpad, lpad-zeros, lpad_full}

-- The rule of the width pads these digits.
abbrev fires : Text → Text → ℕ → Bool
fires predicate digits width =
    among predicate (predicates_of width padded_identifier_widths)
    && not (is_none digits)
    && leb (length digits) width

pub pad_to-silent :
    (width : ℕ) (predicate digits result : Text)
    → fires predicate digits width ≡ false
    → pad_to width predicate digits result ≡ result
unfolding pad_to
pad_to-silent width predicate digits result e = rw e refl

pad_to-fires :
    (width : ℕ) (predicate digits result : Text)
    → fires predicate digits width ≡ true
    → pad_to width predicate digits result ≡ lpad digits width
unfolding pad_to
pad_to-fires width predicate digits result e = rw e refl

-- None of the widths pads, so that what was given stays; or one does, and pads its own result to the same.
abbrev Once : List ℕ → Text → Text → Type 0
Once widths predicate digits =
    (All (λ w. fires predicate digits w ≡ false) widths
      × ((result : Text) → pad_over widths predicate digits result ≡ result))
    ⊎ ((w : ℕ) × (length digits ≤ w)
        × ((result : Text) → pad_over widths predicate digits result ≡ lpad digits w)
        × ((result : Text) → pad_over widths predicate (lpad digits w) result ≡ lpad digits w))

first_fails : (a b c : Bool) → (a && not b && c) ≡ false → b ≡ false → c ≡ true → a ≡ false
first_fails a b c h k l = ground arith

all_hold : (a b c : Bool) → (a && not b && c) ≡ true → (a ≡ true) × ((b ≡ false) × (c ≡ true))
all_hold a b c h = ground arith

is_none-zeros : (n : ℕ) (text : Text) → is_none text ≡ false → is_none (zeros n ++ text) ≡ false
is_none-zeros zero text h = h
is_none-zeros (suc n) text h = refl

is_none-lpad :
    (digits : Text) (width : ℕ)
    → length digits ≤ width
    → is_none digits ≡ false
    → is_none (lpad digits width) ≡ false
is_none-lpad digits width fits h =
    rw (lpad-zeros digits width fits) (is_none-zeros (width - length digits) digits h)

-- A width above the digits does not pad them once they are padded to a smaller one.
silent_after :
    (predicate digits : Text) (width : ℕ) (widths : List ℕ)
    → is_none digits ≡ false
    → length digits ≤ width
    → All (λ w. width ≤ w) widths
    → All (λ w. fires predicate digits w ≡ false) widths
    → (result : Text) → pad_over widths predicate (lpad digits width) result ≡ result
unfolding pad_over
silent_after predicate digits width [] some_digits fits above silent result = refl
silent_after predicate digits width (w ∷ widths) some_digits fits (over, above) (e, silent) result =
    let other =
      first_fails (among predicate (predicates_of w padded_identifier_widths)) (is_none digits)
        (leb (length digits) w) e some_digits (le→leb (length digits) w (omega arith)) in
    silent_after predicate digits width widths some_digits fits above silent
      (pad_to w predicate (lpad digits width) result)
    ∙ pad_to-silent w predicate (lpad digits width) result (rw other refl)

-- The width that pads the digits pads what it gave, and changes nothing.
pad_to_twice :
    (width : ℕ) (predicate digits result : Text)
    → fires predicate digits width ≡ true
    → pad_to width predicate (lpad digits width) result ≡ lpad digits width
pad_to_twice width predicate digits result e =
    let (own, (some_digits, short)) =
      all_hold (among predicate (predicates_of width padded_identifier_widths)) (is_none digits)
        (leb (length digits) width) e in
    let fits = leb→le (length digits) width short in
    let full = length-lpad digits width fits in
    pad_to-fires width predicate (lpad digits width) result (
      rw (own, is_none-lpad digits width fits some_digits, full) (le→leb width width (omega arith)))
    ∙ lpad_full (lpad digits width) width full

abbrev pub Increases : List ℕ → Type 0
Increases [] = Unit
Increases (w ∷ widths) = All (λ v. w ≤ v) widths × Increases widths

pub pad_over-Once :
    (widths : List ℕ) (predicate digits : Text)
    → Increases widths
    → Digits digits
    → is_none digits ≡ false
    → Once widths predicate digits
unfolding pad_over
pad_over-Once [] predicate digits inc all some_digits = inl (tt, λ result. refl)
pad_over-Once (w ∷ widths) predicate digits (above, inc) all some_digits =
    elim (pad_over-Once widths predicate digits inc all some_digits) [
      | inr (v, fits, once, twice) ↦ inr (v, fits, λ result. once _, λ result. twice _)
      | inl (silent, stays) ↦ elim (Bool-cases (fires predicate digits w)) [
        | inl e ↦
            let fits = leb→le (length digits) w (all_hold _ _ _ e).1.1 in
            inr (
              w,
              fits,
              λ result.
                  stays (pad_to w predicate digits result)
                  ∙ pad_to-fires w predicate digits result e,
              λ result.
                  silent_after predicate digits w widths some_digits fits above silent
                    (pad_to w predicate (lpad digits w) result)
                  ∙ pad_to_twice w predicate digits result e,
            )
        | inr e ↦ inl ((e, silent), λ result. stays _ ∙ pad_to-silent w predicate digits result e)
      ]
    ]
