-- ===== src/Examples/Links.antt =====
-- spark_jobs/pyg_builder/edge_mapper.py at the filings of Entities, one of which is said twice to follow another.
use pyg_knowledge_graph_buil.Base.{
  ℕ, [], ◌∷◌, false, some, List, refl, ◌≡◌, map, length, not, ◌&&◌, max, All,
}
use pyg_knowledge_graph_buil.Base.Texts.{Text, codes, text_eq}
use pyg_knowledge_graph_buil.Base.Dict.{select}
use pyg_knowledge_graph_buil.Base.Result.{ok}
use pyg_knowledge_graph_buil.Nodes.{Statement, NodeRow, node_id_df}
use pyg_knowledge_graph_buil.Edges.{
  Edge, EdgeType, edges_resolved, keys_by_id, edge_count, order_rows, join_ids,
}
use pyg_knowledge_graph_buil.Edges.Build.{
  EdgeConfig, EdgeIndices, build_edge_indices, edges_of, collect_indices, chunk_type_ids, in_chunk,
}
use pyg_knowledge_graph_buil.Edges.Joined.{linked}
use pyg_knowledge_graph_buil.Edges.Returned.{Built, unknown_among, build_edge_indices-Built}
use pyg_knowledge_graph_buil.Edges.Bounds.{InRange, build_edge_indices-InRange}
use pyg_knowledge_graph_buil.Edges.Budget.{chunk_type_ids-Packs}
use pyg_knowledge_graph_buil.Edges.Chunks.{Packs}
use pyg_knowledge_graph_buil.Edges.Numbered.{
  edges_with_idx, InColumn, is_numbered, edges_with_idx-InColumn,
}
use pyg_knowledge_graph_buil.Edges.Pairs.{edge_among}
use pyg_knowledge_graph_buil.Examples.Entities.{same_hash, filings_table, everything, statements}

abbrev all_rows : List Text → List Text
all_rows uris = uris

abbrev follows : Text → Text → Statement
follows subject object = (subject, codes "f/follows", object)

abbrev filed_by : Text → Text → Statement
filed_by subject object = (subject, codes "f/filedBy", object)

abbrev triples : List Statement
triples =
    follows (codes "b") (codes "a")
    ∷ follows (codes "a") (codes "b")
    ∷ follows (codes "b") (codes "a")
    ∷ follows (codes "a") (codes "nowhere")
    ∷ filed_by (codes "a") (codes "c")
    ∷ statements

abbrev small_chunks : EdgeConfig
small_chunks = record {
  edge_types = [];
  edge_collect_row_budget = 1;
  allow_unregistered_namespaces = false;
}

abbrev filing : Text
filing = codes "filings_SECFiling"

abbrev following : EdgeType
following = record { src_type = filing; relation = codes "filings_follows"; dst_type = filing }

abbrev filing_by : EdgeType
filing_by = record {
  src_type = filing;
  relation = codes "filings_filedBy";
  dst_type = codes "filings_Issuer";
}

abbrev nodes : List NodeRow
nodes = node_id_df same_hash filings_table everything triples

abbrev link : EdgeType → ℕ → ℕ → Edge
link key s d = record { edge_type = key; src_id = s; dst_id = d }

abbrev linked_edges : List Edge
linked_edges = link following 0 1 ∷ link following 1 0 ∷ link filing_by 0 0 ∷ []

abbrev indices : EdgeIndices
indices = (filing_by, (0 ∷ [], 0 ∷ [])) ∷ (following, (0 ∷ 1 ∷ [], 1 ∷ 0 ∷ [])) ∷ []

built :
    build_edge_indices same_hash filings_table all_rows small_chunks nodes triples
    ≡ ok (indices, linked_edges)
unfolding node_id_df build_edge_indices
built = refl

build_edge_indices-Built_example :
    Built
      (linked same_hash filings_table [] nodes triples)
      (not false
        && unknown_among (edges_of (edges_resolved same_hash filings_table [] nodes triples)))
      (edges_of (edges_resolved same_hash filings_table [] nodes triples))
      (build_edge_indices same_hash filings_table all_rows small_chunks nodes triples)
build_edge_indices-Built_example =
    build_edge_indices-Built same_hash filings_table all_rows small_chunks nodes triples

build_edge_indices-InRange_example : InRange nodes following (0 ∷ 1 ∷ [], 1 ∷ 0 ∷ [])
unfolding text_eq
build_edge_indices-InRange_example =
    build_edge_indices-InRange same_hash filings_table all_rows everything small_chunks triples
      indices linked_edges following (0 ∷ 1 ∷ [], 1 ∷ 0 ∷ []) built refl

chunk_type_ids-Packs_example :
    Packs
      (λ chunk.
        length
          (select (in_chunk chunk) (order_rows (join_ids (keys_by_id linked_edges) linked_edges))))
      (max 1 2)
      0
      (length (keys_by_id linked_edges))
      (chunk_type_ids 2 (map (edge_count linked_edges) (keys_by_id linked_edges)))
chunk_type_ids-Packs_example = chunk_type_ids-Packs 2 linked_edges refl

two_chunks :
    chunk_type_ids 2 (map (edge_count linked_edges) (keys_by_id linked_edges))
    ≡ (0, 0) ∷ (1, 1) ∷ []
unfolding chunk_type_ids edge_count keys_by_id
two_chunks = refl

edges_with_idx-InColumn_example :
    (made : EdgeIndices) × (collect_indices 2 linked_edges ≡ some made)
    × All (InColumn made) (edges_with_idx linked_edges)
    × ((key : EdgeType) (s d : ℕ)
        → is_numbered key s d (edges_with_idx linked_edges) ≡ edge_among key s d linked_edges)
edges_with_idx-InColumn_example = edges_with_idx-InColumn 2 linked_edges refl
