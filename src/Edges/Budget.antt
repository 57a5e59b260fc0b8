-- ===== src/Edges/Budget.antt =====
-- spark_jobs/pyg_builder/edge_mapper.py: the chunks that the edges are collected in.
use mathlib.Core.Bool.{false≢true}
use pyg_knowledge_graph_buil.Sources.{is_none}
use pyg_knowledge_graph_buil.Sources.Wellformed.{is_none-insert_once}
use pyg_knowledge_graph_buil.Base.{
  ℕ, suc, [], ◌∷◌, false, some, List, arith, ◌≡◌, ap, sym, subst, ◌∙◌, map, length, get_elem?, ◌+◌,
  max,
}
use pyg_knowledge_graph_buil.Base.Ascending.{sort_once}
use pyg_knowledge_graph_buil.Base.Dict.{select, range_from}
use pyg_knowledge_graph_buil.Edges.{
  Edge, EdgeType, IdRow, type_eq, type_lt, join_ids, order_rows, keys_by_id, id_of_key, edge_count,
  pairs_of,
}
use pyg_knowledge_graph_buil.Edges.Build.{chunks_from, chunk_type_ids, in_chunk, group_of, is_empty}
use pyg_knowledge_graph_buil.Edges.Types.{keys_by_id-Ascends}
use pyg_knowledge_graph_buil.Edges.Ids.{pairs, group_of-join_ids, get_elem?-id_of_key}
use pyg_knowledge_graph_buil.Edges.Sorted.{sort_ends, group_of-order_rows}
use pyg_knowledge_graph_buil.Edges.Chunks.{
  Packs, chunk_size, length-pairs, length-sort_ends, counts_by_id, chunks_from_0-Packs,
}

-- The rows of an id in the frame are the pairs of its type in order.
pub group_of-frame :
    (edges : List Edge) (key : EdgeType) (i : ℕ)
    → id_of_key (keys_by_id edges) key ≡ some i
    → pairs (group_of i (order_rows (join_ids (keys_by_id edges) edges)))
      ≡ sort_ends (pairs_of key edges)
group_of-frame edges key i own =
    group_of-order_rows i (join_ids (keys_by_id edges) edges)
    ∙ ap sort_ends (group_of-join_ids (keys_by_id edges) key i own edges)

count_of_id :
    (edges : List Edge) (i : ℕ) (key : EdgeType)
    → get_elem? (keys_by_id edges) i ≡ some key
    → edge_count edges key ≡ length (group_of i (order_rows (join_ids (keys_by_id edges) edges)))
unfolding edge_count
count_of_id edges i key found =
    let own = get_elem?-id_of_key (keys_by_id edges) key i (keys_by_id-Ascends edges) found in
    sym (length-sort_ends (pairs_of key edges))
    ∙ ap length (sym (group_of-frame edges key i own))
    ∙ length-pairs (group_of i (order_rows (join_ids (keys_by_id edges) edges)))

keys_by_id-filled :
    (edges : List Edge) → is_empty edges ≡ false → is_none (keys_by_id edges) ≡ false
unfolding keys_by_id sort_once
keys_by_id-filled [] h = absurd (false≢true (sym h))
keys_by_id-filled (edge ∷ edges) h = is_none-insert_once type_lt type_eq edge.edge_type _

chunks_of_types :
    (rows : List IdRow) (budget : ℕ) (g : EdgeType → ℕ) (ks : List EdgeType)
    → is_none ks ≡ false
    → map g ks ≡ map (λ i. length (group_of i rows)) (range_from 0 (length ks))
    → Packs
        (λ chunk. length (select (in_chunk chunk) rows))
        budget
        0
        (length ks)
        (chunks_from budget 0 0 0 (map g ks))
chunks_of_types rows budget g [] filled e = absurd (false≢true (sym filled))
chunks_of_types rows budget g (k ∷ ks) filled e =
    subst
      (λ counts.
        Packs (λ chunk. length (select (in_chunk chunk) rows)) budget 0 (suc (length ks))
          (chunks_from budget 0 0 0 counts))
      (sym e)
      (chunks_from_0-Packs (λ chunk. length (select (in_chunk chunk) rows))
        (λ i. length (group_of i rows)) (chunk_size rows) budget (length ks))

-- Where there is an edge, the chunks follow one another from the first id of a type to the last, with no gap and
-- no overlap, and each is collected as a frame of at most the configured number of edges (or one, if that
-- is less), or is of a single type.
pub chunk_type_ids-Packs :
    (collect_row_budget : ℕ) (edges : List Edge)
    → is_empty edges ≡ false
    → Packs
        (λ chunk. length (select (in_chunk chunk) (order_rows (join_ids (keys_by_id edges) edges))))
        (max 1 collect_row_budget)
        0
        (length (keys_by_id edges))
        (chunk_type_ids collect_row_budget (map (edge_count edges) (keys_by_id edges)))
unfolding chunk_type_ids
chunk_type_ids-Packs collect_row_budget edges filled =
    chunks_of_types (order_rows (join_ids (keys_by_id edges) edges)) (max 1 collect_row_budget)
      (edge_count edges) (keys_by_id edges) (keys_by_id-filled edges filled)
      (counts_by_id (keys_by_id edges) (edge_count edges)
        (λ i. length (group_of i (order_rows (join_ids (keys_by_id edges) edges)))) 0
        (λ i key found.
          let same : i ≡ 0 + i = omega arith in
          count_of_id edges i key found
          ∙ ap (λ n. length (group_of n (order_rows (join_ids (keys_by_id edges) edges)))) same))
