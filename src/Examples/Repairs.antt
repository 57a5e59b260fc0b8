-- ===== src/Examples/Repairs.antt =====
-- spark_jobs/utils/sec_identifiers.py at spellings that its comments give.
use pyg_knowledge_graph_buil.Base.{[], ◌∷◌, List, inl, inr, refl, ◌≡◌, arith, ◌++◌, length, ◌↔◌}
use pyg_knowledge_graph_buil.Base.Texts.{Text, codes}
use pyg_knowledge_graph_buil.Identifiers.{
  numeric, canonical_identifier_literal, canonicalize_sec_identifiers, has_issuer_cik, prefix_of,
  sec_filings, TripleRow, run_of, after_run, ends, at_end, zeros_end,
}
use pyg_knowledge_graph_buil.Identifiers.Digits.{Digits, value}
use pyg_knowledge_graph_buil.Identifiers.Spelling.{
  canonical_identifier_literal-Same, canonical_identifier_literal-long,
}
use pyg_knowledge_graph_buil.Identifiers.Settled.{canonicalize_sec_identifiers_twice}

abbrev short_cik : Text
short_cik = codes "1729997.0"

abbrev full_cik : Text
full_cik = codes "0001729997"

abbrev long_zip : Text
long_zip = codes "063751234"

abbrev has_zip : Text
has_zip = sec_filings ++ codes "hasRptOwnerZipCode"

canonical_identifier_literal-Same_example :
    (length (canonical_identifier_literal has_issuer_cik short_cik) ≡ 10)
    × Digits (canonical_identifier_literal has_issuer_cik short_cik)
    × (value (canonical_identifier_literal has_issuer_cik short_cik) ≡ value (numeric short_cik))
    × ((canonical_identifier_literal has_issuer_cik short_cik
          ≡ canonical_identifier_literal has_issuer_cik full_cik)
        ↔ (value (numeric short_cik) ≡ value (numeric full_cik)))
unfolding numeric run_of after_run ends at_end zeros_end
canonical_identifier_literal-Same_example =
    canonical_identifier_literal-Same has_issuer_cik 10 short_cik full_cik (inl (refl, refl))
      (refl, omega arith) (refl, omega arith)

canonical_identifier_literal-long_example : canonical_identifier_literal has_zip long_zip ≡ long_zip
unfolding numeric run_of after_run ends at_end
canonical_identifier_literal-long_example =
    canonical_identifier_literal-long has_zip 5 long_zip (inr (inr (inr (inl (refl, refl)))))
      (omega arith)

-- One statement, with the datatype as the column that the caller has added.
abbrev stated : List (TripleRow Text)
stated =
    record {
      subject = prefix_of (codes "Issuer") ++ codes "1729997";
      predicate = has_issuer_cik;
      object = short_cik;
      others = codes "decimal";
    }
    ∷ []

canonicalize_sec_identifiers_twice_example :
    canonicalize_sec_identifiers (canonicalize_sec_identifiers stated)
    ≡ canonicalize_sec_identifiers stated
canonicalize_sec_identifiers_twice_example = canonicalize_sec_identifiers_twice stated
