-- ===== src/Edges/Indexed.antt =====
-- spark_jobs/pyg_builder/edge_mapper.py: what build_edge_indices returns.
use pyg_knowledge_graph_buil.Base.{
  ℕ, zero, suc, [], ◌∷◌, true, false, none, some, List, Option, refl, arith, ◌≡◌, ap, inl, inr,
  Option-cases, ◌∙◌, ltb, map, if◌then◌else◌, not, length, get_elem?, max,
}
use pyg_knowledge_graph_buil.Base.Dict.{select}
use pyg_knowledge_graph_buil.Edges.{
  Edge, EdgeType, IdRow, keys_by_id, id_of_key, join_ids, order_rows, pairs_of, edge_count,
}
use pyg_knowledge_graph_buil.Edges.Build.{
  EdgeIndex, EdgeIndices, lookup_index, chunk_type_ids, in_chunk, group_of, stack, collect_indices,
  is_empty,
}
use pyg_knowledge_graph_buil.Edges.Ids.{
  pairs, join_ids-Known, no_id-pairs_of, Known, id_of_key-get_elem?,
}
use pyg_knowledge_graph_buil.Edges.Sorted.{sort_ends, order_rows-All}
use pyg_knowledge_graph_buil.Edges.Collect.{file_chunks-filed, filed, no_rows}
use pyg_knowledge_graph_buil.Edges.Chunks.{Packs-covers}
use pyg_knowledge_graph_buil.Edges.Budget.{group_of-frame, chunk_type_ids-Packs}

-- Two rows of ids, of pairs.
abbrev pub columns : List (ℕ × ℕ) → EdgeIndex
columns ps = (map (λ p. p.0) ps, map (λ p. p.1) ps)

abbrev pub index_at : List (ℕ × ℕ) → Option EdgeIndex
index_at [] = none
index_at (p ∷ ps) = some (columns (p ∷ ps))

stack-columns : (rows : List IdRow) → stack rows ≡ columns (pairs rows)
stack-columns [] = refl
stack-columns (row ∷ rows) = ap (λ c. (row.src ∷ c.0, row.dst ∷ c.1)) (stack-columns rows)

stack-index_at :
    (rows : List IdRow)
    → (if not (no_rows rows) then some (stack rows) else none) ≡ index_at (pairs rows)
stack-index_at [] = refl
stack-index_at (row ∷ rows) = ap some (stack-columns (row ∷ rows))

below_length :
    (ks : List EdgeType) (i : ℕ) (key : EdgeType)
    → get_elem? ks i ≡ some key
    → ltb i (length ks) ≡ true
below_length [] i key h = cc
below_length (k ∷ ks) zero key h = ground arith
below_length (k ∷ ks) (suc i) key h = ground (arith, below_length ks i key h)

each_type :
    (budget : ℕ) (edges : List Edge)
    → is_empty edges ≡ false
    → (key : EdgeType)
    → filed
        (id_of_key (keys_by_id edges) key)
        (chunk_type_ids budget (map (edge_count edges) (keys_by_id edges)))
        (order_rows (join_ids (keys_by_id edges) edges))
        none
      ≡ index_at (sort_ends (pairs_of key edges))
unfolding sort_ends
each_type budget edges filled key = elim (Option-cases (id_of_key (keys_by_id edges) key)) [
  | inl e ↦ rw (e, no_id-pairs_of key edges e) refl
  | inr (i, e) ↦
      let rows = order_rows (join_ids (keys_by_id edges) edges) in
      let covered =
        Packs-covers (λ chunk. length (select (in_chunk chunk) rows)) (max 1 budget) 0
          (length (keys_by_id edges)) i
          (chunk_type_ids budget (map (edge_count edges) (keys_by_id edges)))
          (chunk_type_ids-Packs budget edges filled) (ground arith)
          (below_length (keys_by_id edges) i key
            (id_of_key-get_elem? (keys_by_id edges) key i e)) in
      rw (e, covered)
        (stack-index_at (group_of i rows) ∙ ap index_at (group_of-frame edges key i e))
]

-- Where there is an edge, the dict is made, and has for each type its pairs in order.
pub collect_indices-index_at :
    (budget : ℕ) (edges : List Edge)
    → is_empty edges ≡ false
    → (indices : EdgeIndices) × (collect_indices budget edges ≡ some indices)
      × ((key : EdgeType) → lookup_index key indices ≡ index_at (sort_ends (pairs_of key edges)))
unfolding collect_indices
collect_indices-index_at budget edges filled =
    let keys = keys_by_id edges in
    let rows = order_rows (join_ids keys edges) in
    let chunks = chunk_type_ids budget (map (edge_count edges) keys) in
    let (indices, made, found) =
      file_chunks-filed keys rows chunks []
        (order_rows-All (Known keys) (join_ids keys edges) (join_ids-Known keys edges)) in
    (indices, made, λ key. found key ∙ each_type budget edges filled key)
