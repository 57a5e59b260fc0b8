-- ===== src/Identifiers/Spelling.antt =====
-- spark_jobs/utils/sec_identifiers.py: the spellings of one number become one.
use pyg_knowledge_graph_buil.Base.{
  ◌<◌, not_leb, ==_iff, [], ◌∷◌, true, false, if◌then◌else◌, not, ◌&&◌, ℕ, List, refl, le→leb, ◌⊎◌,
  subst, ◌≡◌, ◌≤◌, ◌++◌, ap, length, inl, inr, ◌↔◌, ◌==◌, sym, ◌∙◌, Bool, arith, Bool-cases, leb,
}
use pyg_knowledge_graph_buil.Base.Texts.{codes, Text, among}
use pyg_knowledge_graph_buil.Sources.{is_none}
use pyg_knowledge_graph_buil.Identifiers.{
  numeric, code_rule, opaque_code_predicates, padded, sec_filings, lpad,
  canonical_identifier_literal, canonical_cik_uri, padded_identifier_widths, predicates_of,
  has_issuer_cik, cik_digits, prefix_of, pad_to, pad_over, sorted_widths,
}
use pyg_knowledge_graph_buil.Identifiers.Digits.{
  Digits, value, numeric-Digits, length-lpad, lpad-Digits, value-lpad, value-injective,
}
use pyg_knowledge_graph_buil.Identifiers.Uris.{canonical_cik_uri-numeric}
use pyg_knowledge_graph_buil.Identifiers.Keyed.{Fits, Keyed, canonical_cik_uri-Keyed}

-- The table has a row of the predicate and the width.
abbrev pub HasRow : Text → ℕ → List (Text × ℕ) → Type 0
HasRow predicate width [] = ⊥
HasRow predicate width ((p, w) ∷ table) =
    ((p ≡ predicate) × (w ≡ width)) ⊎ HasRow predicate width table

-- The predicate's identifiers are padded to the width.
abbrev pub PaddedTo : Text → ℕ → Type 0
PaddedTo predicate width = HasRow predicate width padded_identifier_widths

pad_to-own :
    (width : ℕ) (predicate digits result : Text)
    → among predicate (predicates_of width padded_identifier_widths) ≡ true
    → is_none digits ≡ false
    → length digits ≤ width
    → pad_to width predicate digits result ≡ lpad digits width
unfolding pad_to
pad_to-own width predicate digits result own some_digits fits =
    rw (own, some_digits, le→leb (length digits) width fits) refl

pad_to-other :
    (width : ℕ) (predicate digits result : Text)
    → among predicate (predicates_of width padded_identifier_widths) ≡ false
    → pad_to width predicate digits result ≡ result
unfolding pad_to
pad_to-other width predicate digits result other = rw other refl

abbrev Own : Text → ℕ → ℕ → Type 0
Own predicate width w = among predicate (predicates_of w padded_identifier_widths) ≡ (width == w)

abbrev Width : Text → ℕ → Type 0
Width predicate width =
    Own predicate width 10
    × Own predicate width 9
    × Own predicate width 5
    × ((width ≡ 10) ⊎ ((width ≡ 9) ⊎ (width ≡ 5)))

PaddedTo-Width : (predicate : Text) (width : ℕ) → PaddedTo predicate width → Width predicate width
unfolding among
PaddedTo-Width predicate width (inl (same, exact)) =
    subst (λ p. Width p width) same
      (subst (Width has_issuer_cik) exact (refl, refl, refl, inl refl))
PaddedTo-Width predicate width (inr (inl (same, exact))) =
    subst (λ p. Width p width) same
      (subst (Width (sec_filings ++ codes "hasReportingOwnerCik")) exact
        (refl, refl, refl, inl refl))
PaddedTo-Width predicate width (inr (inr (inl (same, exact)))) =
    subst (λ p. Width p width) same
      (subst (Width (sec_filings ++ codes "hasCusip")) exact (refl, refl, refl, inr (inl refl)))
PaddedTo-Width predicate width (inr (inr (inr (inl (same, exact))))) =
    subst (λ p. Width p width) same
      (subst (Width (sec_filings ++ codes "hasRptOwnerZipCode")) exact
        (refl, refl, refl, inr (inr refl)))
PaddedTo-Width predicate width (inr (inr (inr (inr h)))) = absurd h

pad_over-Width :
    (predicate : Text) (width : ℕ) (digits result : Text)
    → Width predicate width
    → is_none digits ≡ false
    → length digits ≤ width
    → pad_over (sorted_widths padded_identifier_widths) predicate digits result ≡ lpad digits width
unfolding pad_over sorted_widths
pad_over-Width predicate width digits result (ten, nine, five, inl e) some_digits fits =
    rw e (pad_to-own 10 predicate digits _ (rw e at ten) some_digits (rw e at fits))
pad_over-Width predicate width digits result (ten, nine, five, inr (inl e)) some_digits fits =
    pad_to-other 10 predicate digits _ (rw e at ten)
    ∙ rw e (pad_to-own 9 predicate digits _ (rw e at nine) some_digits (rw e at fits))
pad_over-Width predicate width digits result (ten, nine, five, inr (inr e)) some_digits fits =
    pad_to-other 10 predicate digits _ (rw e at ten)
    ∙ pad_to-other 9 predicate digits _ (rw e at nine)
    ∙ rw e (pad_to-own 5 predicate digits _ (rw e at five) some_digits (rw e at fits))

-- A literal that fits is padded.
pub canonical_identifier_literal-lpad :
    (predicate : Text) (width : ℕ) (object : Text)
    → PaddedTo predicate width
    → Fits width object
    → canonical_identifier_literal predicate object ≡ lpad (numeric object) width
unfolding canonical_identifier_literal
canonical_identifier_literal-lpad predicate width object m (some_digits, fits) =
    pad_over-Width predicate width (numeric object) _ (PaddedTo-Width predicate width m) some_digits
      fits

pad_to-long :
    (width w : ℕ) (predicate digits result : Text)
    → Own predicate width w
    → width < length digits
    → pad_to w predicate digits result ≡ result
unfolding pad_to
pad_to-long width w predicate digits result own long = elim (Bool-cases (width == w)) [
  | inr e ↦ pad_to-other w predicate digits result (own ∙ e)
  | inl e ↦
      let same : width ≡ w = (==_iff width w).0 e in
      let too_long : leb (length digits) w ≡ false = not_leb (length digits) w (rw same at long) in
      rw (own ∙ e, too_long) (cond_false (is_none digits) result)
]
  where
    cond_false : (b : Bool) (r : Text) → (if not b && false then padded digits w else r) ≡ r
    cond_false true r = refl
    cond_false false r = refl

PaddedTo-code :
    (predicate : Text) (width : ℕ)
    → PaddedTo predicate width
    → among predicate opaque_code_predicates ≡ false
unfolding among
PaddedTo-code predicate width (inl (same, _)) = rw (← same) refl
PaddedTo-code predicate width (inr (inl (same, _))) = rw (← same) refl
PaddedTo-code predicate width (inr (inr (inl (same, _)))) = rw (← same) refl
PaddedTo-code predicate width (inr (inr (inr (inl (same, _))))) = rw (← same) refl
PaddedTo-code predicate width (inr (inr (inr (inr h)))) = absurd h

code_rule-PaddedTo :
    (predicate : Text) (width : ℕ) (digits result : Text)
    → PaddedTo predicate width
    → code_rule predicate digits result ≡ result
unfolding code_rule
code_rule-PaddedTo predicate width digits result m = rw (PaddedTo-code predicate width m) refl

pad_over-long :
    (predicate : Text) (width : ℕ) (digits result : Text)
    → PaddedTo predicate width
    → width < length digits
    → pad_over (sorted_widths padded_identifier_widths) predicate digits result ≡ result
unfolding pad_over sorted_widths
pad_over-long predicate width digits result m long =
    let (ten, nine, five, _) = PaddedTo-Width predicate width m in
    pad_to-long width 10 predicate digits
      (pad_to 9 predicate digits (pad_to 5 predicate digits result)) ten long
    ∙ pad_to-long width 9 predicate digits (pad_to 5 predicate digits result) nine long
    ∙ pad_to-long width 5 predicate digits result five long

-- Under a predicate whose identifiers are padded to a width, a number of more digits is left as it is, and
-- never cut.
pub canonical_identifier_literal-long :
    (predicate : Text) (width : ℕ) (object : Text)
    → PaddedTo predicate width
    → width < length (numeric object)
    → canonical_identifier_literal predicate object ≡ object
unfolding canonical_identifier_literal
canonical_identifier_literal-long predicate width object m long =
    pad_over-long predicate width (numeric object)
      (code_rule predicate (numeric object) (canonical_cik_uri object)) m long
    ∙ code_rule-PaddedTo predicate width (numeric object) (canonical_cik_uri object) m
    ∙ canonical_cik_uri-numeric object (long_some (numeric object) long)
  where
    long_some : (text : Text) → width < length text → is_none text ≡ false
    long_some [] h = absurd (omega arith)
    long_some (c ∷ text) h = refl

-- Under a predicate whose identifiers are padded to a width, the canonical form of a literal that is a
-- number of at most so many digits has exactly so many characters, all digits, and is the same number; two
-- such literals have one canonical form exactly where they are the same number.
pub canonical_identifier_literal-Same :
    (predicate : Text) (width : ℕ) (a b : Text)
    → PaddedTo predicate width
    → Fits width a
    → Fits width b
    → (length (canonical_identifier_literal predicate a) ≡ width)
      × Digits (canonical_identifier_literal predicate a)
      × (value (canonical_identifier_literal predicate a) ≡ value (numeric a))
      × ((canonical_identifier_literal predicate a ≡ canonical_identifier_literal predicate b)
          ↔ (value (numeric a) ≡ value (numeric b)))
canonical_identifier_literal-Same predicate width a b m (some_a, fits_a) (some_b, fits_b) =
    let form_a = canonical_identifier_literal-lpad predicate width a m (some_a, fits_a) in
    let form_b = canonical_identifier_literal-lpad predicate width b m (some_b, fits_b) in
    let len_a = length-lpad (numeric a) width fits_a in
    let len_b = length-lpad (numeric b) width fits_b in
    let val_a = value-lpad (numeric a) width fits_a in
    let val_b = value-lpad (numeric b) width fits_b in
    let digits_a = lpad-Digits (numeric a) width fits_a (numeric-Digits a) in
    let digits_b = lpad-Digits (numeric b) width fits_b (numeric-Digits b) in
    rw (form_a, form_b)
      (
        len_a,
        digits_a,
        val_a,
        (
          λ e. sym val_a ∙ ap value e ∙ val_b,
          λ e. value-injective _ _ digits_a digits_b (len_a ∙ sym len_b) (val_a ∙ e ∙ sym val_b),
        ),
      )

-- The URI of a local name that is keyed by a CIK, and the literal of a CIK, are given the same digits.
pub canonical_cik_uri-literal :
    (local text : Text)
    → Keyed local
    → Fits cik_digits text
    → canonical_cik_uri (prefix_of local ++ text)
      ≡ prefix_of local ++ canonical_identifier_literal has_issuer_cik text
canonical_cik_uri-literal local text keyed h =
    rw (canonical_identifier_literal-lpad has_issuer_cik cik_digits text (inl (refl, refl)) h)
      (canonical_cik_uri-Keyed local text keyed h)
