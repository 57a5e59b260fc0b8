-- ===== src/Trim/Sound.antt =====
-- A list of positions that `TrimSpec` accepts is enough to rebuild the full vector.
use pyg_knowledge_graph_buil.Base.{
  ℕ, [], ◌∷◌, true, false, none, some, inl, inr, List, ◌≡◌, Bool-cases, arith, All, ◌≤◌, ◌+◌, ◌∙◌,
  ◌<◌, subst, ◌-◌,
}
use pyg_knowledge_graph_buil.Base.Dict.{
  lookup, index_of, member, member-index_of, lookup-sort_items,
}
use pyg_knowledge_graph_buil.Base.Number.{Number}
use pyg_knowledge_graph_buil.Trim.{
  make_spec, String, column_of, values, TrimSpec, is_zero, trim_spec,
}
use pyg_knowledge_graph_buil.Trim.Scatter.{scatter_chunk, Entry, Tensor, strays}
use pyg_knowledge_graph_buil.Trim.Valid.{NoProblem, zero_positions_member, trim_spec-inv}
use pyg_knowledge_graph_buil.Trim.Rebuild.{IsComplete, rebuild, rebuild_cell, counter-nil}
use pyg_knowledge_graph_buil.Base.Select.{select-nil, lookup-keys}
use pyg_knowledge_graph_buil.Base.Result.{ok}
use pyg_knowledge_graph_buil.Trim.Cells.{full}

values-lookup : (k t : ℕ) (l : List (ℕ × ℕ)) → lookup k l ≡ some t → member t (values l) ≡ true
unfolding lookup
values-lookup k t [] h = cc
values-lookup k t ((j, u) ∷ l) h = ground (arith, values-lookup k t l)

index_of-none : (p : ℕ) (xs : List ℕ) → index_of p xs ≡ none → member p xs ≡ false
index_of-none p xs h = elim (Bool-cases (member p xs)) [
  | inl e ↦ let (i, found) = member-index_of p xs e in cc
  | inr e ↦ e
]

module _ {ℓ} {V : Type ℓ} ⦃num : Number V⦄ where
  pub make_spec-IsComplete :
      (node_type : String) (n : ℕ) (kept : List ℕ) (constant : List (ℕ × V))
      (copy_of : List (ℕ × ℕ))
      → NoProblem n kept constant copy_of
      → IsComplete (make_spec node_type n kept constant copy_of)
  unfolding make_spec column_of is_zero
  make_spec-IsComplete node_type n kept constant copy_of good = record {
    twins = λ p t h.
        let named = values-lookup p t copy_of (rw (lookup-sort_items p copy_of) at h) in
        member-index_of t kept (ground (arith, select-nil t _ (values copy_of) good.stored));
    empty = λ p h k m inside.
        let a = index_of-none p kept h in
        let b = lookup-keys p constant (rw (lookup-sort_items p constant) at k) in
        let c = lookup-keys p copy_of (rw (lookup-sort_items p copy_of) at m) in
        zero_positions_member p n kept constant copy_of ∙ ground arith;
  }

  -- If `scatter_chunk` writes a chunk of nodes into zeroed rows and reports no zero position and no
  -- copy broken, then each position that is not a constant rebuilds, from the node's row of x and the
  -- spec, to what an untrimmed scatter of the same entries puts there.
  pub rebuild-scatter_chunk :
      (node_type : String) (n : ℕ) (kept : List ℕ) (constant : List (ℕ × V))
      (copy_of : List (ℕ × ℕ)) (s : TrimSpec V) (entries : List (Entry V)) (t : Tensor V)
      (lo hi r p : ℕ)
      → trim_spec node_type n kept constant copy_of ≡ ok s
      → (scatter_chunk s entries t lo hi).1 ≡ []
      → (scatter_chunk s entries t lo hi).2 ≡ []
      → All (λ e. lo ≤ e.key) entries
      → ((c : ℕ) → t (lo + r) c ≡ num.nil)
      → lo + r < hi
      → p < s.vector_dim
      → lookup p s.constant ≡ none
      → rebuild s ((scatter_chunk s entries t lo hi).0 (lo + r)) p ≡ full s entries (lo + r) p
  unfolding scatter_chunk
  rebuild-scatter_chunk node_type n kept constant copy_of s entries t lo hi r p made clean equal
        keyed fresh inside within varies =
      let (good, e) = trim_spec-inv node_type n kept constant copy_of s made in
      let complete =
        subst IsComplete e (make_spec-IsComplete node_type n kept constant copy_of good) in
      rebuild_cell s entries t lo (hi - lo) r p complete (counter-nil (strays s entries) clean)
        equal keyed fresh (omega arith) within varies
