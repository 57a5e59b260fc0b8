-- ===== src/Identifiers/Keyed.antt =====
-- spark_jobs/utils/sec_identifiers.py: a URI that is keyed by a CIK, of at most ten digits.
use pyg_knowledge_graph_buil.Base.{
  ℕ, false, refl, ◌≡◌, ◌≤◌, ◌++◌, length, inl, inr, ◌∙◌, ◌⊎◌, le→leb, subst, sym,
}
use pyg_knowledge_graph_buil.Base.Texts.{codes, Text, starts_with, starts_with-append, drop-append}
use pyg_knowledge_graph_buil.Sources.{is_none}
use pyg_knowledge_graph_buil.Identifiers.{
  numeric, lpad, canonical_cik_uri, prefix_of, cik_uri_for, cik_uri_over, digits_after, cik_digits,
}

-- A text that is a number of at most this many digits.
abbrev pub Fits : ℕ → Text → Type 0
Fits width text = (is_none (numeric text) ≡ false) × (length (numeric text) ≤ width)

-- `CIK_KEYED_LOCALS`
abbrev pub Keyed : Text → Type 0
Keyed local =
    (local ≡ codes "Issuer") ⊎ ((local ≡ codes "ReportingOwner") ⊎ (local ≡ codes "Owner"))

digits_after-append : (prefix text : Text) → digits_after prefix (prefix ++ text) ≡ numeric text
unfolding digits_after
digits_after-append prefix text = rw (starts_with-append prefix text, drop-append prefix text) refl

cik_uri_for-Fits :
    (prefix text result : Text)
    → Fits cik_digits text
    → cik_uri_for prefix (prefix ++ text) result ≡ prefix ++ lpad (numeric text) cik_digits
unfolding cik_uri_for
cik_uri_for-Fits prefix text result (some_digits, fits) =
    rw
      (digits_after-append prefix text, some_digits, le→leb (length (numeric text)) cik_digits fits)
      refl

pub cik_uri_for-other :
    (prefix column result : Text)
    → starts_with prefix column ≡ false
    → cik_uri_for prefix column result ≡ result
unfolding cik_uri_for digits_after
cik_uri_for-other prefix column result h = rw h refl

abbrev pub issuer : Text
issuer = prefix_of (codes "Issuer")

abbrev reporting_owner : Text
reporting_owner = prefix_of (codes "ReportingOwner")

abbrev owner : Text
owner = prefix_of (codes "Owner")

canonical_cik_uri-second :
    (column : Text)
    → starts_with owner column ≡ false
    → canonical_cik_uri column
      ≡ cik_uri_for reporting_owner column (cik_uri_for issuer column column)
unfolding canonical_cik_uri cik_uri_over
canonical_cik_uri-second column h =
    cik_uri_for-other owner column
      (cik_uri_for reporting_owner column (cik_uri_for issuer column column)) h

pub canonical_cik_uri-first :
    (column : Text)
    → starts_with owner column ≡ false
    → starts_with reporting_owner column ≡ false
    → canonical_cik_uri column ≡ cik_uri_for issuer column column
canonical_cik_uri-first column h k =
    canonical_cik_uri-second column h
    ∙ cik_uri_for-other reporting_owner column (cik_uri_for issuer column column) k

pub canonical_cik_uri-third :
    (column : Text)
    → canonical_cik_uri column
      ≡ cik_uri_for owner column
          (cik_uri_for reporting_owner column (cik_uri_for issuer column column))
unfolding canonical_cik_uri cik_uri_over
canonical_cik_uri-third column = refl

owner-issuer : (text : Text) → starts_with owner (issuer ++ text) ≡ false
unfolding starts_with
owner-issuer text = refl

reporting_owner-issuer : (text : Text) → starts_with reporting_owner (issuer ++ text) ≡ false
unfolding starts_with
reporting_owner-issuer text = refl

owner-reporting_owner : (text : Text) → starts_with owner (reporting_owner ++ text) ≡ false
unfolding starts_with
owner-reporting_owner text = refl

pub canonical_cik_uri-Keyed :
    (local text : Text)
    → Keyed local
    → Fits cik_digits text
    → canonical_cik_uri (prefix_of local ++ text)
      ≡ prefix_of local ++ lpad (numeric text) cik_digits
canonical_cik_uri-Keyed local text (inl e) h =
    subst
      (λ l. canonical_cik_uri (prefix_of l ++ text) ≡ prefix_of l ++ lpad (numeric text) cik_digits)
      (sym e)
      (canonical_cik_uri-first (issuer ++ text) (owner-issuer text) (reporting_owner-issuer text)
        ∙ cik_uri_for-Fits issuer text (issuer ++ text) h)
canonical_cik_uri-Keyed local text (inr (inl e)) h =
    subst
      (λ l. canonical_cik_uri (prefix_of l ++ text) ≡ prefix_of l ++ lpad (numeric text) cik_digits)
      (sym e)
      (canonical_cik_uri-second (reporting_owner ++ text) (owner-reporting_owner text)
        ∙ cik_uri_for-Fits reporting_owner text
            (cik_uri_for issuer (reporting_owner ++ text) (reporting_owner ++ text)) h)
canonical_cik_uri-Keyed local text (inr (inr e)) h =
    subst
      (λ l. canonical_cik_uri (prefix_of l ++ text) ≡ prefix_of l ++ lpad (numeric text) cik_digits)
      (sym e)
      (canonical_cik_uri-third (owner ++ text)
        ∙ cik_uri_for-Fits owner text
            (cik_uri_for reporting_owner (owner ++ text)
              (cik_uri_for issuer (owner ++ text) (owner ++ text)))
            h)
