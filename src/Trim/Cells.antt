-- ===== src/Trim/Cells.antt =====
-- What single cells hold after `scatter_chunk`: the kept columns, the matrix of copies and the zero
-- positions, against the full vector that an untrimmed type would get.
use pyg_knowledge_graph_buil.Base.{
  ℕ, zero, suc, [], ◌∷◌, false, some, inl, inr, refl, Bool, ◌≡◌, ◌<◌, ◌≤◌, ◌+◌, arith, List, All,
  ℕ_discrete, ◌==◌, Option-cases, sym, not_==, ◌-◌, get_elem?, true, ◌∙◌, ap, ◌&&◌, All-of,
  Bool-cases, ◌⊎◌, ap₂, ==_iff,
}
use pyg_knowledge_graph_buil.Base.Number.{Number}
use pyg_knowledge_graph_buil.Trim.{TrimSpec, column_of, copy_index, is_zero, width}
use pyg_knowledge_graph_buil.Trim.Scatter.{
  Entry, count_rows, look_up, column_within, Tensor, broken_copies, strays, scatter_sparse_entries,
  copied, differs, to_columns, zeros, stray_dims,
}
use pyg_knowledge_graph_buil.Base.Dict.{index_of, index_of_injective, keys}
use pyg_knowledge_graph_buil.Trim.Writes.{
  at_column, value_or, latest, hits, scatter-writes, writes-latest, to_columns-writes, latest-value,
  copied-writes, latest_congr,
}
use pyg_knowledge_graph_buil.Base.Int.{ℤ, negsuc, pos}

count_rows-zero :
    (start count row : ℕ) (test : ℕ → Bool)
    → count_rows start count test ≡ 0
    → start ≤ row
    → row < start + count
    → test row ≡ false
unfolding count_rows
count_rows-zero start zero row test h a b = absurd (omega arith)
count_rows-zero start (suc count) row test h a b = elim (ℕ_discrete start row) [
  | yes e ↦ rw (← e) (ground arith)
  | no other ↦ count_rows-zero (suc start) count row test (ground arith) (omega arith) (omega arith)
]

-- A place found in a list of positions is that of the position alone.
place-at :
    (ps : List ℕ) (p c d : ℕ) → index_of p ps ≡ some c → at_column (index_of d ps) c ≡ (d == p)
unfolding at_column
place-at ps p c d found = elim (ℕ_discrete d p) [
  | yes e ↦ rw (e, found) (ground arith)
  | no other ↦ elim (Option-cases (index_of d ps)) [
    | inl absent ↦ rw absent (sym (not_== d p other))
    | inr (c', found') ↦
        rw (found', not_== d p other)
          (not_== c' c (λ same. other (index_of_injective d p ps c (rw same at found') found)))
  ]
]

module _ {ℓ} {V : Type ℓ} ⦃num : Number V⦄ (s : TrimSpec V) where
  look_up-at :
      (ps : List ℕ) (p c : ℕ) (dim : ℤ)
      → index_of p ps ≡ some c
      → p < s.vector_dim
      → at_column (look_up s (λ d. index_of d ps) dim) c
        ≡ at_column (column_within s.vector_dim dim) p
  unfolding at_column
  look_up-at ps p c (negsuc k) found inside = refl
  look_up-at ps p c (pos d) found inside = ground (arith, place-at ps p c d found)

  abbrev pub full : List (Entry V) → Tensor V
  full entries = scatter_sparse_entries entries (zeros s) s.vector_dim

  full_cell :
      (entries : List (Entry V)) (r p : ℕ)
      → full entries r p
        ≡ value_or
            (latest (hits (λ e. e.key) (λ e. column_within s.vector_dim e.dim) r p) entries)
            num.nil
  full_cell entries r p =
      rw (scatter-writes entries (zeros s) s.vector_dim) (writes-latest _ _ entries (zeros s) r p)

  -- A kept position's column holds what the full vector would.
  pub kept_cell :
      (entries : List (Entry V)) (t : Tensor V) (r p c : ℕ)
      → column_of s p ≡ some c
      → p < s.vector_dim
      → t r c ≡ num.nil
      → scatter_sparse_entries (to_columns s entries) t (width s) r c ≡ full entries r p
  unfolding column_of
  kept_cell entries t r p c found inside empty =
      ap (λ (u : Tensor V). u r c) (to_columns-writes s entries t)
      ∙ writes-latest _ _ entries t r c
      ∙ ap (value_or (latest _ entries)) empty
      ∙ ap (λ o. value_or o num.nil)
          (latest_congr _ _ entries (
            All-of _ entries
              (λ e. ap (λ b. e.key == r && b) (look_up-at s.kept p c e.dim found inside))))
      ∙ sym (full_cell entries r p)

  row_shift : (key lo r : ℕ) → lo ≤ key → lo ≤ r → (key - lo == r - lo) ≡ (key == r)
  row_shift key lo r a b = ground arith

  same_cells :
      (entries : List (Entry V)) (lo r p k : ℕ)
      → copy_index s p ≡ some k
      → p < s.vector_dim
      → lo ≤ r
      → All (λ e. lo ≤ e.key) entries
      → All
          (λ e.
            hits (λ x. x.key - lo) (λ x. look_up s (copy_index s) x.dim) (r - lo) k e
            ≡ hits (λ x. x.key) (λ x. column_within s.vector_dim x.dim) r p e)
          entries
  unfolding copy_index
  same_cells [] lo r p k found inside h all = tt
  same_cells (e ∷ entries) lo r p k found inside h all = (
    ap₂ (λ a b. a && b) (row_shift e.key lo r all.0 h)
        (look_up-at (keys s.copy_of) p k e.dim found inside),
    same_cells entries lo r p k found inside h all.1,
  )

  -- So does a copy's place in the matrix of copies.
  pub copied_cell :
      (entries : List (Entry V)) (lo r p k : ℕ)
      → copy_index s p ≡ some k
      → p < s.vector_dim
      → lo ≤ r
      → All (λ e. lo ≤ e.key) entries
      → copied s entries lo (zeros s) (r - lo) k ≡ full entries r p
  copied_cell entries lo r p k found inside h all =
      ap (λ (u : Tensor V). u (r - lo) k) (copied-writes s entries lo (zeros s))
      ∙ writes-latest _ _ entries (zeros s) (r - lo) k
      ∙ ap (λ o. value_or o num.nil)
          (latest_congr _ _ entries (same_cells entries lo r p k found inside h all))
      ∙ sym (full_cell entries r p)

  broken-nil :
      (copies t : Tensor V) (lo rows slot q u : ℕ) (items : List (ℕ × ℕ))
      → broken_copies s copies t lo rows slot ((q, u) ∷ items) ≡ []
      → (count_rows 0 rows (differs s copies t lo slot u) ≡ 0)
        × (broken_copies s copies t lo rows (suc slot) items ≡ [])
  unfolding broken_copies
  broken-nil copies t lo rows slot q u items h =
      elim (Bool-cases (count_rows 0 rows (differs s copies t lo slot u) == 0)) [
        | inl e ↦ ((==_iff _ 0).0 e, ground arith)
        | inr e ↦ ground arith
      ]

  -- Where no copy is reported, each equals its twin on every row.
  pub twin_equal :
      (copies t : Tensor V) (lo rows slot k p twin row : ℕ) (items : List (ℕ × ℕ))
      → broken_copies s copies t lo rows slot items ≡ []
      → get_elem? items k ≡ some (p, twin)
      → row < rows
      → differs s copies t lo (slot + k) twin row ≡ false
  twin_equal copies t lo rows slot k p twin row [] h item inside = cc
  twin_equal copies t lo rows slot zero p twin row ((q, u) ∷ items) h item inside =
      let (none_differ, rest) = broken-nil copies t lo rows slot q u items h in
      let here : slot + 0 ≡ slot = omega arith in
      let same : u ≡ twin = cc item in
      rw (here, ← same) (count_rows-zero 0 rows row _ none_differ (omega arith) (omega arith))
  twin_equal copies t lo rows slot (suc k) p twin row ((q, u) ∷ items) h item inside =
      let (none_differ, rest) = broken-nil copies t lo rows slot q u items h in
      let there : slot + suc k ≡ suc slot + k = omega arith in
      rw there (twin_equal copies t lo rows (suc slot) k p twin row items rest item inside)

  stray-nil : (e : Entry V) (rest : List ℕ) → stray_dims s e rest ≡ [] → (rest ≡ [])
  stray-nil e rest h = ground arith

  stray_one :
      (r p : ℕ) (e : Entry V) (rest : List ℕ)
      → stray_dims s e rest ≡ []
      → is_zero s p ≡ true
      → p < s.vector_dim
      → (hits (λ x. x.key) (λ x. column_within s.vector_dim x.dim) r p e ≡ false)
        ⊎ (e.value ≡ num.nil)
  unfolding at_column
  stray_one r p e rest h empty inside = elim (Bool-cases (num.same e.value num.nil)) [
    | inl same ↦ inr ((num.same_iff e.value num.nil).0 same)
    | inr differ ↦ inl (ground arith)
  ]

  -- Where no zero position is reported, an entry at one writes 0.
  stray_free :
      (r p : ℕ) (entries : List (Entry V))
      → strays s entries ≡ []
      → is_zero s p ≡ true
      → p < s.vector_dim
      → All
          (λ e.
            (hits (λ x. x.key) (λ x. column_within s.vector_dim x.dim) r p e ≡ false)
            ⊎ (e.value ≡ num.nil))
          entries
  unfolding strays at_column
  stray_free r p [] h empty inside = tt
  stray_free r p (e ∷ entries) h empty inside = (
    stray_one r p e (strays s entries) h empty inside,
    stray_free r p entries (stray-nil e (strays s entries) h) empty inside,
  )

  pub zero_cell :
      (entries : List (Entry V)) (r p : ℕ)
      → strays s entries ≡ []
      → is_zero s p ≡ true
      → p < s.vector_dim
      → full entries r p ≡ num.nil
  zero_cell entries r p h empty inside =
      full_cell entries r p ∙ latest-value _ entries num.nil (stray_free r p entries h empty inside)
