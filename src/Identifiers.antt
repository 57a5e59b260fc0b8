-- ===== src/Identifiers.antt =====
-- spark_jobs/utils/sec_identifiers.py: one identifier, spelled one way. A cell of the frame is a text and
-- never null, as a triple has all its parts. A regular expression is Java's, where \d is an ASCII digit, and
-- `$` stands at the end or before the line terminator that ends the text.
pub mod Digits
pub mod Keyed
pub mod Uris
pub mod Spelling
pub mod Padding
pub mod Settled
use pyg_knowledge_graph_buil.Base.{
  ℕ, zero, suc, [], ◌∷◌, true, false, List, Bool, if◌then◌else◌, not, ◌&&◌, ◌||◌, ◌==◌, ◌++◌,
  length, ◌+◌, ◌-◌, ltb, leb,
}
use pyg_knowledge_graph_buil.Base.Texts.{Text, starts_with, drop, codes, among}
use pyg_knowledge_graph_buil.Sources.{is_none}
use pyg_knowledge_graph_buil.Sources.Terms.{source_base, identifier_base}
use pyg_knowledge_graph_buil.Naming.{take, underscore}

abbrev pub sec_filings : Text
sec_filings = source_base ++ codes "sec/filings/"

-- `_SEC_FILINGS_ID`, what `identifier_namespace(str(SEC_FILINGS))` returns.
abbrev pub sec_filings_id : Text
sec_filings_id = identifier_base ++ codes "sec/filings/"

abbrev pub cik_keyed_locals : List Text
cik_keyed_locals = codes "Issuer" ∷ codes "ReportingOwner" ∷ codes "Owner" ∷ []

abbrev pub cik_digits : ℕ
cik_digits = 10

abbrev pub cusip_digits : ℕ
cusip_digits = 9

abbrev pub zip_digits : ℕ
zip_digits = 5

abbrev pub has_issuer_cik : Text
has_issuer_cik = sec_filings ++ codes "hasIssuerCik"

abbrev pub padded_identifier_widths : List (Text × ℕ)
padded_identifier_widths =
    (has_issuer_cik, cik_digits)
    ∷ (sec_filings ++ codes "hasReportingOwnerCik", cik_digits)
    ∷ (sec_filings ++ codes "hasCusip", cusip_digits)
    ∷ (sec_filings ++ codes "hasRptOwnerZipCode", zip_digits)
    ∷ []

abbrev pub opaque_code_predicates : List Text
opaque_code_predicates =
    (sec_filings ++ codes "hasDocumentType")
    ∷ (sec_filings ++ codes "hasTransactionFormType")
    ∷ (sec_filings ++ codes "hasOtherManager")
    ∷ []

abbrev pub zero_digit : ℕ
zero_digit = 48

-- `\d`
abbrev pub is_digit : ℕ → Bool
is_digit c = leb zero_digit c && leb c 57

-- `$`: nothing is left, or one line terminator.
unfoldable pub at_end : Text → Bool
at_end [] = true
at_end (c ∷ []) = c == 10 || c == 13 || c == 133 || c == 8232 || c == 8233
at_end (c ∷ d ∷ []) = c == 13 && d == 10
at_end (_ ∷ _ ∷ _ ∷ _) = false

-- What a run of characters of one kind leaves of a text.
unfoldable pub after_run : (ℕ → Bool) → Text → Text
after_run test [] = []
after_run test (c ∷ text) = if test c then after_run test text else c ∷ text

-- The run itself.
unfoldable pub run_of : (ℕ → Bool) → Text → Text
run_of test [] = []
run_of test (c ∷ text) = if test c then c ∷ run_of test text else []

-- `\.0+$` on the text after the point.
unfoldable pub zeros_end : Text → Bool
unfolding after_run at_end
zeros_end [] = false
zeros_end (c ∷ text) = c == zero_digit && at_end (after_run (λ d. d == zero_digit) text)

-- `(?:\.0+)?$`
unfoldable pub ends : Text → Bool
unfolding at_end zeros_end
ends [] = true
ends (c ∷ text) = at_end (c ∷ text) || (c == 46 && zeros_end text)

-- What `^(\d+)(?:\.0+)?$` captures, and nothing where it does not match.
unfoldable pub numeric : Text → Text
unfolding run_of after_run ends
numeric text = if ends (after_run is_digit text) then run_of is_digit text else []

abbrev pub zeros : ℕ → Text
zeros zero = []
zeros (suc n) = zero_digit ∷ zeros n

-- `lpad(text, width, "0")`, which cuts what is too long.
unfoldable pub lpad : Text → ℕ → Text
lpad text width =
    if ltb width (length text) then take width text else zeros (width - length text) ++ text

-- `_padded`
abbrev pub padded : Text → ℕ → Text
padded digits width = lpad digits width

abbrev pub prefix_of : Text → Text
prefix_of local = sec_filings_id ++ (local ++ underscore)

-- What the pattern of a prefix captures.
unfoldable pub digits_after : Text → Text → Text
unfolding starts_with numeric
digits_after prefix column =
    if starts_with prefix column then numeric (drop (length prefix) column) else []

-- One round of the loop of `_canonical_cik_uri`: `result` is what the locals before it gave.
unfoldable pub cik_uri_for : Text → Text → Text → Text
unfolding digits_after lpad
cik_uri_for prefix column result =
    let digits = digits_after prefix column in
    if not (is_none digits) && leb (length digits) cik_digits
    then prefix ++ padded digits cik_digits
    else result

unfoldable pub cik_uri_over : List Text → Text → Text → Text
unfolding cik_uri_for
cik_uri_over [] column result = result
cik_uri_over (local ∷ locals) column result =
    cik_uri_over locals column (cik_uri_for (prefix_of local) column result)

-- `_canonical_cik_uri`
unfoldable pub canonical_cik_uri : Text → Text
unfolding cik_uri_over
canonical_cik_uri column = cik_uri_over cik_keyed_locals column column

unfoldable pub insert_width : ℕ → List ℕ → List ℕ
insert_width w [] = w ∷ []
insert_width w (v ∷ widths) =
    let rest = insert_width w widths in
    if ltb w v then w ∷ v ∷ widths else if w == v then v ∷ widths else v ∷ rest

-- `sorted(set(PADDED_IDENTIFIER_WIDTHS.values()))`
unfoldable pub sorted_widths : List (Text × ℕ) → List ℕ
unfolding insert_width
sorted_widths [] = []
sorted_widths ((_, w) ∷ table) = insert_width w (sorted_widths table)

abbrev pub predicates_of : ℕ → List (Text × ℕ) → List Text
predicates_of width [] = []
predicates_of width ((p, w) ∷ table) =
    if w == width then p ∷ predicates_of width table else predicates_of width table

-- One round of the loop over the widths.
unfoldable pub pad_to : ℕ → Text → Text → Text → Text
unfolding among lpad
pad_to width predicate digits result =
    if among predicate (predicates_of width padded_identifier_widths)
      && not (is_none digits)
      && leb (length digits) width
    then padded digits width
    else result

unfoldable pub pad_over : List ℕ → Text → Text → Text → Text
unfolding pad_to
pad_over [] predicate digits result = result
pad_over (width ∷ widths) predicate digits result =
    pad_over widths predicate digits (pad_to width predicate digits result)

-- The rule for the codes, on what the rule for URIs gave.
unfoldable pub code_rule : Text → Text → Text → Text
unfolding among
code_rule predicate digits result =
    if among predicate opaque_code_predicates && not (is_none digits) then digits else result

-- `_canonical_identifier_literal`
unfoldable pub canonical_identifier_literal : Text → Text → Text
unfolding numeric canonical_cik_uri pad_over sorted_widths code_rule
canonical_identifier_literal predicate object =
    let digits = numeric object in
    pad_over (sorted_widths padded_identifier_widths) predicate digits
      (code_rule predicate digits (canonical_cik_uri object))

-- A row of the frame, with the other columns that the caller has added.
pub record TripleRow (A : Type 0) : Type 0 where
  pub subject : Text
  pub predicate : Text
  pub object : Text
  pub others : A

module _ {A : Type 0} where
  abbrev pub with_subject : TripleRow A → TripleRow A
  with_subject row = record {
    subject = canonical_cik_uri row.subject;
    predicate = row.predicate;
    object = row.object;
    others = row.others;
  }

  abbrev pub with_object : TripleRow A → TripleRow A
  with_object row = record {
    subject = row.subject;
    predicate = row.predicate;
    object = canonical_identifier_literal row.predicate row.object;
    others = row.others;
  }

  -- `canonicalize_sec_identifiers`
  unfoldable pub canonicalize_sec_identifiers : List (TripleRow A) → List (TripleRow A)
  unfolding canonical_cik_uri canonical_identifier_literal
  canonicalize_sec_identifiers [] = []
  canonicalize_sec_identifiers (row ∷ rows) =
      with_object (with_subject row) ∷ canonicalize_sec_identifiers rows
