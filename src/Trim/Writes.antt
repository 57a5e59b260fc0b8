-- ===== src/Trim/Writes.antt =====
-- The writes of `Trim.Scatter` as one loop over a frame: a cell holds the last value written to it.
use pyg_knowledge_graph_buil.Base.{
  ℕ, [], ◌∷◌, false, none, some, inl, inr, refl, Option, Bool, List, All, if◌then◌else◌, ◌==◌, ◌≡◌,
  ◌⊎◌, ◌-◌, arith, ◌&&◌, Option-cases, ◌∙◌, ap,
}
use pyg_knowledge_graph_buil.Base.Number.{Number}
use pyg_knowledge_graph_buil.Trim.Scatter.{
  scatter_sparse_entries, assign_at, Entry, Tensor, to_columns, copied, look_up, column_within,
  as_dim,
}
use pyg_knowledge_graph_buil.Trim.{TrimSpec, width, column_of, copy_index}
use pyg_knowledge_graph_buil.Base.Int.{ℤ, negsuc, pos}
use pyg_knowledge_graph_buil.Base.Dict.{index_of, index_of-lt-length}

unfoldable pub at_column : Option ℕ → ℕ → Bool
at_column none c = false
at_column (some d) c = d == c

module _ {ℓ} {V : Type ℓ} where
  abbrev pub writes : (Entry V → ℕ) → (Entry V → Option ℕ) → List (Entry V) → Tensor V → Tensor V
  writes row column [] t = t
  writes row column (e ∷ entries) t =
      writes row column entries (assign_at t (row e) (column e) e.value)

  -- The value of the last entry that passes a test.
  unfoldable pub latest : (Entry V → Bool) → List (Entry V) → Option V
  latest hit [] = none
  latest hit (e ∷ entries) = elim (latest hit entries) [
    | some v ↦ some v
    | none ↦ if hit e then some e.value else none
  ]

  abbrev pub value_or : Option V → V → V
  value_or none v = v
  value_or (some w) v = w

  abbrev pub hits : (Entry V → ℕ) → (Entry V → Option ℕ) → ℕ → ℕ → Entry V → Bool
  hits row column r c e = row e == r && at_column (column e) c

  assign_at_cell :
      (t : Tensor V) (i : ℕ) (column : Option ℕ) (v : V) (r c : ℕ)
      → assign_at t i column v r c ≡ (if i == r && at_column column c then v else t r c)
  unfolding assign_at at_column
  assign_at_cell t i none v r c = ground arith
  assign_at_cell t i (some j) v r c = ground arith

  pub writes-latest :
      (row : Entry V → ℕ) (column : Entry V → Option ℕ) (entries : List (Entry V)) (t : Tensor V)
      (r c : ℕ)
      → writes row column entries t r c ≡ value_or (latest (hits row column r c) entries) (t r c)
  unfolding latest
  writes-latest row column [] t r c = refl
  writes-latest row column (e ∷ entries) t r c = ground (
    arith,
    writes-latest row column entries (assign_at t (row e) (column e) e.value) r c,
    assign_at_cell t (row e) (column e) e.value r c,
  )

  pub latest_congr :
      (hit hit' : Entry V → Bool) (entries : List (Entry V))
      → All (λ e. hit e ≡ hit' e) entries
      → latest hit entries ≡ latest hit' entries
  unfolding latest
  latest_congr hit hit' [] h = refl
  latest_congr hit hit' (e ∷ entries) h = ground (arith, h.0, latest_congr hit hit' entries h.1)

  -- Where each entry that passes the test has one value, so has the last.
  pub latest-value :
      (hit : Entry V → Bool) (entries : List (Entry V)) (v : V)
      → All (λ e. (hit e ≡ false) ⊎ (e.value ≡ v)) entries
      → value_or (latest hit entries) v ≡ v
  unfolding latest
  latest-value hit [] v h = refl
  latest-value hit (e ∷ entries) v h = ground (arith, latest-value hit entries v h.1)

  pub scatter-writes :
      (entries : List (Entry V)) (t : Tensor V) (n : ℕ)
      → scatter_sparse_entries entries t n
        ≡ writes (λ e. e.key) (λ e. column_within n e.dim) entries t
  unfolding scatter_sparse_entries
  scatter-writes [] t n = refl
  scatter-writes (e ∷ entries) t n = scatter-writes entries _ n

module _ {ℓ} {V : Type ℓ} ⦃num : Number V⦄ (s : TrimSpec V) where
  column_kept :
      (dim : ℤ)
      → column_within (width s) (as_dim s (look_up s (column_of s) dim))
        ≡ look_up s (column_of s) dim
  unfolding width column_of
  column_kept (negsuc k) = refl
  column_kept (pos d) = elim (Option-cases (index_of d s.kept)) [
    | inl absent ↦ ground arith
    | inr (c, found) ↦ ground (arith, index_of-lt-length d s.kept c found)
  ]

  pub to_columns-writes :
      (entries : List (Entry V)) (t : Tensor V)
      → scatter_sparse_entries (to_columns s entries) t (width s)
        ≡ writes (λ e. e.key) (λ e. look_up s (column_of s) e.dim) entries t
  unfolding scatter_sparse_entries to_columns
  to_columns-writes [] t = refl
  to_columns-writes (e ∷ entries) t =
      to_columns-writes entries _
      ∙ ap
          (λ column.
            writes (λ e'. e'.key) (λ e'. look_up s (column_of s) e'.dim) entries
              (assign_at t e.key column e.value))
          (column_kept e.dim)

  pub copied-writes :
      (entries : List (Entry V)) (lo : ℕ) (m : Tensor V)
      → copied s entries lo m
        ≡ writes (λ e. e.key - lo) (λ e. look_up s (copy_index s) e.dim) entries m
  unfolding copied
  copied-writes [] lo m = refl
  copied-writes (e ∷ entries) lo m = copied-writes entries lo _
