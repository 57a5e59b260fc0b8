-- ===== src/Trim/Scatter.antt =====
-- Writing sparse rows into a tensor: spark_jobs/pyg_builder/sparse_scatter.py, and `scatter_chunk` of
-- feature_trim.py. A tensor is its value at each row and column, and a frame the list of its rows, in
-- the order in which numpy assigns them, so of two writes to one cell the later stays. The keys of a
-- frame are the rows of the tensor that it names.
use pyg_knowledge_graph_buil.Base.{
  ℕ, zero, suc, [], ◌∷◌, none, some, List, Option, if◌then◌else◌, Bool, ◌==◌, ◌+◌, ◌&&◌, ltb, not,
  ◌-◌,
}
use pyg_knowledge_graph_buil.Base.Number.{Number}
use pyg_knowledge_graph_buil.Base.Int.{ℤ, pos, negsuc}
use pyg_knowledge_graph_buil.Trim.{TrimSpec, is_zero, column_of, width, copy_index}

pub record Entry {ℓ} (V : Type ℓ) : Type ℓ where
  pub key : ℕ
  pub dim : ℤ
  pub value : V

abbrev pub Tensor {ℓ} : Type ℓ → Type ℓ
Tensor V = ℕ → ℕ → V

-- The column of a dim, `none` where the dim is dropped.
abbrev pub column_within : ℕ → ℤ → Option ℕ
column_within vector_dim (pos d) = if ltb d vector_dim then some d else none
column_within vector_dim (negsuc _) = none

-- How many of the rows `from, ..., from + count - 1` pass a test.
unfoldable pub count_rows : ℕ → ℕ → (ℕ → Bool) → ℕ
count_rows start zero test = 0
count_rows start (suc count) test =
    (if test start then 1 else 0) + count_rows (suc start) count test

module _ {ℓ} {V : Type ℓ} where
  unfoldable pub assign : Tensor V → ℕ → ℕ → V → Tensor V
  assign t i j v = λ r c. if r == i && c == j then v else t r c

  unfoldable pub assign_at : Tensor V → ℕ → Option ℕ → V → Tensor V
  unfolding assign
  assign_at t i none v = t
  assign_at t i (some j) v = assign t i j v

  -- `scatter_sparse_entries`
  unfoldable pub scatter_sparse_entries : List (Entry V) → Tensor V → ℕ → Tensor V
  unfolding assign_at
  scatter_sparse_entries [] t vector_dim = t
  scatter_sparse_entries (e ∷ entries) t vector_dim =
      scatter_sparse_entries entries (assign_at t e.key (column_within vector_dim e.dim) e.value)
        vector_dim

-- `Counter(dims)`: each number with how often it occurs, in the order of first occurrence.
unfoldable pub count_one : ℕ → List (ℕ × ℕ) → List (ℕ × ℕ)
count_one d [] = (d, 1) ∷ []
count_one d ((j, n) ∷ l) = if j == d then (j, n + 1) ∷ l else (j, n) ∷ count_one d l

unfoldable pub counter : List ℕ → List (ℕ × ℕ) → List (ℕ × ℕ)
unfolding count_one
counter [] acc = acc
counter (d ∷ ds) acc = counter ds (count_one d acc)

module _ {ℓ} {V : Type ℓ} ⦃num : Number V⦄ (s : TrimSpec V) where
  -- `np.where(inside, lookup[position], -1)`
  abbrev pub look_up : (ℕ → Option ℕ) → ℤ → Option ℕ
  look_up array (pos d) = if ltb d s.vector_dim then array d else none
  look_up array (negsuc _) = none

  abbrev pub as_dim : Option ℕ → ℤ
  as_dim none = negsuc 0
  as_dim (some c) = pos c

  -- The frame with its dims rewritten to columns.
  unfoldable pub to_columns : List (Entry V) → List (Entry V)
  unfolding column_of
  to_columns [] = []
  to_columns (e ∷ entries) =
      record e { dim = as_dim (look_up (column_of s) e.dim) } ∷ to_columns entries

  -- The matrix of the copied positions' values, one row for each node of the chunk.
  unfoldable pub copied : List (Entry V) → ℕ → Tensor V → Tensor V
  unfolding assign_at copy_index
  copied [] lo m = m
  copied (e ∷ entries) lo m =
      copied entries lo (assign_at m (e.key - lo) (look_up (copy_index s) e.dim) e.value)

  -- Whether a copy differs from its twin's column, at a row of the chunk. numpy reads a column -1 as
  -- the last.
  unfoldable pub differs : Tensor V → Tensor V → ℕ → ℕ → ℕ → ℕ → Bool
  unfolding column_of
  differs copies tensor lo slot twin row = elim (column_of s twin) [
    | some c ↦ not (num.same (copies row slot) (tensor (lo + row) c))
    | none ↦ not (num.same (copies row slot) (tensor (lo + row) (width s - 1)))
  ]

  -- The copies that differ from their twin on some row, with the number of such rows.
  unfoldable pub broken_copies : Tensor V → Tensor V → ℕ → ℕ → ℕ → List (ℕ × ℕ) → List (ℕ × ℕ)
  unfolding differs count_rows
  broken_copies copies tensor lo rows slot [] = []
  broken_copies copies tensor lo rows slot ((p, twin) ∷ rest) =
      let n : ℕ = count_rows 0 rows (differs copies tensor lo slot twin) in
      let others = broken_copies copies tensor lo rows (suc slot) rest in
      if n == 0 then others else (p, n) ∷ others

  abbrev pub stray_dims : Entry V → List ℕ → List ℕ
  stray_dims e rest = elim e.dim [
    | pos d ↦
        if ltb d s.vector_dim && is_zero s d && not (num.same e.value num.nil)
        then d ∷ rest
        else rest
    | negsuc _ ↦ rest
  ]

  -- The zero positions that hold a value.
  unfoldable pub strays : List (Entry V) → List ℕ
  unfolding is_zero
  strays [] = []
  strays (e ∷ entries) = stray_dims e (strays entries)

  abbrev pub zeros : Tensor V
  zeros = λ _ _. num.nil

  -- `scatter_chunk`: the tensor, and the zero positions and copies that broke.
  unfoldable pub scatter_chunk :
      List (Entry V) → Tensor V → ℕ → ℕ → Tensor V × List (ℕ × ℕ) × List (ℕ × ℕ)
  scatter_chunk entries tensor lo hi =
      let tensor' = scatter_sparse_entries (to_columns entries) tensor (width s) in
      let copies = copied entries lo zeros in
      (tensor', counter (strays entries) [], broken_copies copies tensor' lo (hi - lo) 0 s.copy_of)
