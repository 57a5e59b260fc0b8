-- ===== src/Examples/Names.antt =====
-- spark_jobs/pyg_builder/naming.py at two namespaces of the registered sources.
use pyg_knowledge_graph_buil.Base.{[], ◌∷◌, false, List, inl, inr, refl, ◌≡◌, arith, ◌++◌}
use pyg_knowledge_graph_buil.Base.Texts.{Text, codes, starts_with}
use pyg_knowledge_graph_buil.Base.Result.{ok}
use pyg_knowledge_graph_buil.Naming.{
  NameTable, prefixed_local_name, prefixed_local_name_expr, relation_to_predicate_uri, strip,
  check_registered_names, replace_ends,
}
use pyg_knowledge_graph_buil.Naming.RoundTrip.{relation_to_predicate_uri-prefixed_local_name}
use pyg_knowledge_graph_buil.Naming.Twins.{prefixed_local_name_expr-eq, or_hash}
use pyg_knowledge_graph_buil.Naming.Registered.{check_registered_names-Right, Right}

abbrev sec_filings : Text
sec_filings = codes "https://jefflevesque.com/ontology/sec/filings/"

abbrev cpi : Text
cpi = codes "https://jefflevesque.com/ontology/bls/cpi/"

abbrev two_sources : NameTable
two_sources = (cpi, codes "cpi") ∷ (sec_filings, codes "filings") ∷ []

abbrev has_cusip : Text
has_cusip = sec_filings ++ codes "hasCusip"

abbrev same_hash : Text → Text
same_hash uri = codes "1"

relation_to_predicate_uri-prefixed_local_name_example :
    (prefixed_local_name two_sources has_cusip ≡ ok (codes "filings_hasCusip"))
    × (relation_to_predicate_uri two_sources (codes "filings_hasCusip") ≡ has_cusip)
unfolding starts_with strip
relation_to_predicate_uri-prefixed_local_name_example =
    relation_to_predicate_uri-prefixed_local_name two_sources has_cusip sec_filings
      (codes "filings") (codes "hasCusip") (((refl, refl), tt), (tt, tt))
      (inr (refl, inl (refl, refl, refl, refl))) refl

prefixed_local_name_expr-eq_example :
    prefixed_local_name_expr same_hash two_sources has_cusip
    ≡ or_hash same_hash (prefixed_local_name two_sources has_cusip)
prefixed_local_name_expr-eq_example =
    prefixed_local_name_expr-eq same_hash two_sources has_cusip (omega arith) refl

-- With a line feed after a mark, Java's pattern takes the mark away and the twin's strip does not.
marks_before_break : replace_ends (codes "/a/" ++ (10 ∷ [])) ≡ codes "a" ++ (10 ∷ [])
unfolding replace_ends
marks_before_break = refl

strip_before_break : strip (codes "/a/" ++ (10 ∷ [])) ≡ codes "a/" ++ (10 ∷ [])
unfolding strip
strip_before_break = refl

abbrev some_names : List Text
some_names = codes "unknown_b" ∷ codes "cpi_Area" ∷ codes "unknown_b" ∷ []

abbrev behind : List Text → List Text
behind names = codes "http://x/v#b" ∷ []

check_registered_names-Right_example :
    Right some_names false behind (check_registered_names some_names false behind)
check_registered_names-Right_example = check_registered_names-Right some_names false behind
