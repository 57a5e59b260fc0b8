-- ===== src/Identifiers/Uris.antt =====
-- spark_jobs/utils/sec_identifiers.py: the URIs that are keyed by a CIK.
use mathlib.Core.Bool.{false≢true}
use pyg_knowledge_graph_buil.Base.{
  [], ◌∷◌, ℕ, false, refl, ◌≡◌, ◌++◌, length, inl, inr, ◌∙◌, ◌⊎◌, ap, subst, sym, Bool, Bool-cases,
  arith, not, ◌&&◌, leb, leb→le, &&_iff, true, ◌==◌,
}
use pyg_knowledge_graph_buil.Base.Texts.{codes, Text, starts_with, drop}
use pyg_knowledge_graph_buil.Sources.{is_none}
use pyg_knowledge_graph_buil.Identifiers.{
  numeric, run_of, after_run, ends, at_end, is_digit, sec_filings_id, lpad, canonical_cik_uri,
  prefix_of, cik_uri_for, digits_after, cik_digits,
}
use pyg_knowledge_graph_buil.Identifiers.Digits.{
  Digits, numeric_all, numeric-Digits, lpad_full, lpad-Digits, length-lpad,
}
use pyg_knowledge_graph_buil.Naming.{underscore}
use pyg_knowledge_graph_buil.Identifiers.Keyed.{
  Fits, Keyed, cik_uri_for-other, issuer, canonical_cik_uri-first, canonical_cik_uri-third,
  canonical_cik_uri-Keyed,
}

-- A URI of a keyed local with ten digits.
abbrev pub Settled : Text → Type 0
Settled column =
    (local : Text) × (digits : Text) × Keyed local
    × Digits digits
    × (length digits ≡ cik_digits)
    × (column ≡ prefix_of local ++ digits)

digits_after-Digits : (prefix column : Text) → Digits (digits_after prefix column)
unfolding digits_after
digits_after-Digits prefix column = elim (Bool-cases (starts_with prefix column)) [
  | inl e ↦ rw e (numeric-Digits (drop (length prefix) column))
  | inr e ↦ rw e tt
]

cik_uri_for-either :
    (prefix column result : Text)
    → (cik_uri_for prefix column result ≡ result)
      ⊎ ((digits : Text) × Digits digits
          × (length digits ≡ cik_digits)
          × (cik_uri_for prefix column result ≡ prefix ++ digits))
unfolding cik_uri_for
cik_uri_for-either prefix column result = elim (Bool-cases (matches prefix column)) [
  | inl e ↦
      let fits = leb→le (length (digits_after prefix column)) cik_digits (((&&_iff _ _).0 e).1) in
      rw e (
        inr (
          lpad (digits_after prefix column) cik_digits,
          lpad-Digits (digits_after prefix column) cik_digits fits
              (digits_after-Digits prefix column),
          length-lpad (digits_after prefix column) cik_digits fits,
          refl,
        ))
  | inr e ↦ rw e (inl refl)
]
  where
    matches : Text → Text → Bool
    matches p c = not (is_none (digits_after p c)) && leb (length (digits_after p c)) cik_digits

cik_uri_for-Settled :
    (local column result : Text)
    → Keyed local
    → (result ≡ column) ⊎ Settled result
    → (cik_uri_for (prefix_of local) column result ≡ column)
      ⊎ Settled (cik_uri_for (prefix_of local) column result)
cik_uri_for-Settled local column result keyed h =
    elim (cik_uri_for-either (prefix_of local) column result) [
      | inl same ↦ subst (λ t. (t ≡ column) ⊎ Settled t) (sym same) h
      | inr (digits, all_digits, ten, whole) ↦ inr (local, digits, keyed, all_digits, ten, whole)
    ]

pub canonical_cik_uri-Settled :
    (column : Text) → (canonical_cik_uri column ≡ column) ⊎ Settled (canonical_cik_uri column)
canonical_cik_uri-Settled column =
    subst (λ t. (t ≡ column) ⊎ Settled t) (sym (canonical_cik_uri-third column))
      (cik_uri_for-Settled (codes "Owner") column _ (inr (inr refl)) (
        cik_uri_for-Settled (codes "ReportingOwner") column _ (inr (inl refl))
          (cik_uri_for-Settled (codes "Issuer") column column (inl refl) (inl refl))))

Digits-Fits : (digits : Text) → Digits digits → length digits ≡ cik_digits → Fits cik_digits digits
Digits-Fits [] d h = absurd (omega arith)
Digits-Fits (c ∷ digits) d h = rw (numeric_all (c ∷ digits) d) (refl, omega arith)

-- The canonical form of a URI is its own.
pub canonical_cik_uri_twice :
    (column : Text) → canonical_cik_uri (canonical_cik_uri column) ≡ canonical_cik_uri column
canonical_cik_uri_twice column = elim (canonical_cik_uri-Settled column) [
  | inl same ↦ ap canonical_cik_uri same
  | inr (local, digits, keyed, all_digits, ten, whole) ↦
      subst (λ t. canonical_cik_uri t ≡ t) (sym whole)
        (canonical_cik_uri-Keyed local digits keyed (Digits-Fits digits all_digits ten)
          ∙ ap (λ t. prefix_of local ++ t)
              (rw (numeric_all digits all_digits) (lpad_full digits cik_digits ten)))
]

run_of-nil : (text : Text) → run_of is_digit text ≡ [] → is_none (numeric text) ≡ true
unfolding numeric
run_of-nil text h = elim (Bool-cases (ends (after_run is_digit text))) [
  | inl e ↦ rw (e, h) refl
  | inr e ↦ rw e refl
]

head_digit : (c : ℕ) (text : Text) → is_none (numeric (c ∷ text)) ≡ false → is_digit c ≡ true
unfolding run_of
head_digit c text h = elim (Bool-cases (is_digit c)) [
  | inl e ↦ e
  | inr e ↦ absurd (false≢true (sym h ∙ run_of-nil (c ∷ text) (rw e refl)))
]

starts_with-digit :
    (local : Text) (c : ℕ) (text : Text)
    → is_digit c ≡ true
    → starts_with (prefix_of local) (c ∷ text) ≡ false
unfolding starts_with
starts_with-digit local c text h = let other : (104 == c) ≡ false = ground arith in rw other refl

-- A text of a number is no URI.
pub canonical_cik_uri-numeric :
    (text : Text) → is_none (numeric text) ≡ false → canonical_cik_uri text ≡ text
unfolding numeric
canonical_cik_uri-numeric [] h = absurd (false≢true (sym h))
canonical_cik_uri-numeric (c ∷ text) h =
    let digit = head_digit c text h in
    canonical_cik_uri-first (c ∷ text) (starts_with-digit (codes "Owner") c text digit)
      (starts_with-digit (codes "ReportingOwner") c text digit)
    ∙ cik_uri_for-other issuer (c ∷ text) (c ∷ text)
        (starts_with-digit (codes "Issuer") c text digit)

no_number : (rest digits : Text) → is_none (numeric ((sec_filings_id ++ rest) ++ digits)) ≡ true
unfolding numeric ends at_end after_run run_of
no_number rest digits = refl

pub numeric-canonical_cik_uri :
    (text : Text)
    → is_none (numeric text) ≡ true
    → is_none (numeric (canonical_cik_uri text)) ≡ true
numeric-canonical_cik_uri text h = elim (canonical_cik_uri-Settled text) [
  | inl same ↦ subst (λ t. is_none (numeric t) ≡ true) (sym same) h
  | inr (local, digits, _, _, _, whole) ↦
      subst (λ t. is_none (numeric t) ≡ true) (sym whole) (no_number (local ++ underscore) digits)
]
