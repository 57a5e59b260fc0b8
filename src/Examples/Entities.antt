-- ===== src/Examples/Entities.antt =====
-- spark_jobs/pyg_builder/node_mapper.py at three filings, of which one is also a Form4, and an issuer.
use pyg_knowledge_graph_buil.Base.{[], ◌∷◌, true, List, refl, ◌≡◌, some, not, ◌&&◌, any, false}
use pyg_knowledge_graph_buil.Base.Texts.{Text, codes, starts_with}
use pyg_knowledge_graph_buil.Naming.{NameTable, prefixed_local_name_expr, unknown}
use pyg_knowledge_graph_buil.Nodes.{Statement, NodeConfig, rdf_type, node_id_df}
use pyg_knowledge_graph_buil.Nodes.Origins.{get, build_type_uri_mapping}
use pyg_knowledge_graph_buil.Nodes.Mapping.{Origin, is_typed, build_type_uri_mapping-Origin}
use pyg_knowledge_graph_buil.Nodes.Table.{build_node_id_table}
use pyg_knowledge_graph_buil.Nodes.Tabled.{Tabled, build_node_id_table-Tabled}

abbrev pub same_hash : Text → Text
same_hash uri = uri

abbrev pub filings_table : NameTable
filings_table = (codes "f/", codes "filings") ∷ []

abbrev pub everything : NodeConfig
everything = record {
  requested_node_types = [];
  excluded_node_types = [];
  include_temporal = true;
  include_sector = true;
}

abbrev typed : Text → Text → Statement
typed uri type_uri = (uri, rdf_type, type_uri)

abbrev pub statements : List Statement
statements =
    typed (codes "b") (codes "f/SECFiling")
    ∷ typed (codes "a") (codes "f/SECFiling")
    ∷ typed (codes "a") (codes "f/Form4")
    ∷ typed (codes "c") (codes "f/Issuer")
    ∷ typed (codes "f/Issuer") (codes "http://www.w3.org/2002/07/owl#Class")
    ∷ []

numbered :
    node_id_df same_hash filings_table everything statements
    ≡ record { uri = codes "c"; node_id = 0; node_type = codes "filings_Issuer" }
      ∷ record { uri = codes "a"; node_id = 0; node_type = codes "filings_SECFiling" }
      ∷ record { uri = codes "b"; node_id = 1; node_type = codes "filings_SECFiling" }
      ∷ []
unfolding node_id_df
numbered = refl

abbrev all_uris : List Text → List Text
all_uris uris = uris

build_type_uri_mapping-Origin_example :
    Origin
      (prefixed_local_name_expr same_hash filings_table)
      (is_typed
        (node_id_df same_hash filings_table everything statements)
        statements
        (codes "filings_SECFiling"))
      (codes "filings_SECFiling")
      (get (codes "filings_SECFiling") (
        build_type_uri_mapping same_hash filings_table
          (node_id_df same_hash filings_table everything statements)
          statements))
build_type_uri_mapping-Origin_example =
    build_type_uri_mapping-Origin same_hash filings_table
      (node_id_df same_hash filings_table everything statements) statements
      (codes "filings_SECFiling")

-- Form4 sorts before SECFiling, and is not the URI that the type was named after.
named_after :
    get (codes "filings_SECFiling") (
      build_type_uri_mapping same_hash filings_table
        (node_id_df same_hash filings_table everything statements)
        statements)
    ≡ some (codes "f/SECFiling")
unfolding get build_type_uri_mapping node_id_df
named_after = refl

build_node_id_table-Tabled_example :
    Tabled
      (node_id_df same_hash filings_table everything statements)
      (not false
        && any
            (λ node. starts_with unknown node.node_type)
            (node_id_df same_hash filings_table everything statements))
      (build_node_id_table same_hash filings_table all_uris everything false statements)
build_node_id_table-Tabled_example =
    build_node_id_table-Tabled same_hash filings_table all_uris everything false statements
