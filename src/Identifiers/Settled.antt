-- ===== src/Identifiers/Settled.antt =====
-- spark_jobs/utils/sec_identifiers.py: the repair leaves its own result alone.
use mathlib.Core.Bool.{false≢true}
use pyg_knowledge_graph_buil.Base.{
  ℕ, [], ◌∷◌, true, false, List, Bool, refl, arith, ◌≡◌, ap, inl, inr, Bool-cases, leb, sym, ◌∙◌,
  not, subst, ◌&&◌, ap₂,
}
use pyg_knowledge_graph_buil.Base.Texts.{Text, among}
use pyg_knowledge_graph_buil.Sources.{is_none}
use pyg_knowledge_graph_buil.Identifiers.{
  numeric, lpad, canonical_cik_uri, pad_to, pad_over, predicates_of, padded_identifier_widths,
  sorted_widths, code_rule, canonical_identifier_literal, canonicalize_sec_identifiers, TripleRow,
  opaque_code_predicates,
}
use pyg_knowledge_graph_buil.Identifiers.Digits.{numeric-Digits, numeric_all, lpad-Digits}
use pyg_knowledge_graph_buil.Identifiers.Uris.{
  canonical_cik_uri_twice, canonical_cik_uri-numeric, numeric-canonical_cik_uri,
}
use pyg_knowledge_graph_buil.Identifiers.Padding.{pad_to-silent, Increases, pad_over-Once}

-- The rules for the literals, over some widths.
abbrev rewritten : List ℕ → Text → Text → Text
rewritten widths predicate object =
    pad_over widths predicate (numeric object)
      (code_rule predicate (numeric object) (canonical_cik_uri object))

no_digits : (a c : Bool) → (a && false && c) ≡ false
no_digits a c = ground arith

pad_over-nil :
    (widths : List ℕ) (predicate result : Text) → pad_over widths predicate [] result ≡ result
unfolding pad_over
pad_over-nil [] predicate result = refl
pad_over-nil (w ∷ widths) predicate result =
    pad_over-nil widths predicate (pad_to w predicate [] result)
    ∙ pad_to-silent w predicate [] result
        (no_digits (among predicate (predicates_of w padded_identifier_widths)) (leb 0 w))

code_rule-other :
    (predicate digits result : Text)
    → (among predicate opaque_code_predicates && not (is_none digits)) ≡ false
    → code_rule predicate digits result ≡ result
unfolding code_rule
code_rule-other predicate digits result h = rw h refl

code_rule-own :
    (predicate digits result : Text)
    → (among predicate opaque_code_predicates && not (is_none digits)) ≡ true
    → code_rule predicate digits result ≡ digits
unfolding code_rule
code_rule-own predicate digits result h = rw h refl

nothing : (text : Text) → is_none text ≡ true → text ≡ []
nothing [] h = refl
nothing (c ∷ text) h = absurd (false≢true h)

and_false : (a : Bool) → (a && false) ≡ false
and_false a = ground arith

rewritten-unnumbered :
    (widths : List ℕ) (predicate object : Text)
    → is_none (numeric object) ≡ true
    → rewritten widths predicate object ≡ canonical_cik_uri object
rewritten-unnumbered widths predicate object h = rw (nothing (numeric object) h) (
    pad_over-nil widths predicate (code_rule predicate [] (canonical_cik_uri object))
    ∙ code_rule-other predicate [] (canonical_cik_uri object)
        (and_false (among predicate opaque_code_predicates)))

-- Where no width pads, a number stays or loses its zeros, and stays as it is after that.
rewritten-silent :
    (widths : List ℕ) (predicate object : Text)
    → is_none (numeric object) ≡ false
    → ((result : Text) → pad_over widths predicate (numeric object) result ≡ result)
    → rewritten widths predicate (rewritten widths predicate object)
      ≡ rewritten widths predicate object
rewritten-silent widths predicate object some_digits stays =
    elim (Bool-cases (among predicate opaque_code_predicates && not (is_none (numeric object)))) [
      | inl own ↦
          let once =
            stays _ ∙ code_rule-own predicate (numeric object) (canonical_cik_uri object) own in
          subst (λ t. rewritten widths predicate t ≡ t) (sym once)
            (rw (numeric_all (numeric object) (numeric-Digits object)) (
              stays _
              ∙ code_rule-own predicate (numeric object) (canonical_cik_uri (numeric object)) own))
      | inr other ↦
          let once =
            stays _
            ∙ code_rule-other predicate (numeric object) (canonical_cik_uri object) other
            ∙ canonical_cik_uri-numeric object some_digits in
          ap (rewritten widths predicate) once
    ]

rewritten_twice :
    (widths : List ℕ) (predicate object : Text)
    → Increases widths
    → rewritten widths predicate (rewritten widths predicate object)
      ≡ rewritten widths predicate object
rewritten_twice widths predicate object inc = elim (Bool-cases (is_none (numeric object))) [
  | inl e ↦
      subst (λ t. rewritten widths predicate t ≡ t)
        (sym (rewritten-unnumbered widths predicate object e))
        (rewritten-unnumbered widths predicate (canonical_cik_uri object)
            (numeric-canonical_cik_uri object e)
          ∙ canonical_cik_uri_twice object)
  | inr e ↦ elim (pad_over-Once widths predicate (numeric object) inc (numeric-Digits object) e) [
    | inl (silent, stays) ↦ rewritten-silent widths predicate object e stays
    | inr (w, fits, once, again) ↦
        subst (λ t. rewritten widths predicate t ≡ t) (sym (once _))
          (rw
            (numeric_all (lpad (numeric object) w)
              (lpad-Digits (numeric object) w fits (numeric-Digits object)))
            (again _))
  ]
]

widths_increase : Increases (sorted_widths padded_identifier_widths)
unfolding sorted_widths
widths_increase = ((omega arith, (omega arith, tt)), ((omega arith, tt), (tt, tt)))

-- The canonical form of a literal is its own.
canonical_identifier_literal_twice :
    (predicate object : Text)
    → canonical_identifier_literal predicate (canonical_identifier_literal predicate object)
      ≡ canonical_identifier_literal predicate object
unfolding canonical_identifier_literal
canonical_identifier_literal_twice predicate object =
    rewritten_twice (sorted_widths padded_identifier_widths) predicate object widths_increase

module _ {A : Type 0} where
  -- Repairing the rows once more changes nothing.
  pub canonicalize_sec_identifiers_twice :
      (rows : List (TripleRow A))
      → canonicalize_sec_identifiers (canonicalize_sec_identifiers rows)
        ≡ canonicalize_sec_identifiers rows
  unfolding canonicalize_sec_identifiers
  canonicalize_sec_identifiers_twice [] = refl
  canonicalize_sec_identifiers_twice (row ∷ rows) =
      ap₂ (λ r rs. r ∷ rs)
        (ap₂
          (λ s o. record {
            subject = s;
            predicate = row.predicate;
            object = o;
            others = row.others;
          })
          (canonical_cik_uri_twice row.subject)
          (canonical_identifier_literal_twice row.predicate row.object))
        (canonicalize_sec_identifiers_twice rows)
