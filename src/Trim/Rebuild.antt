-- ===== src/Trim/Rebuild.antt =====
-- The full vector rebuilds from a trimmed type's x and its spec (the promise at the top of
-- spark_jobs/pyg_builder/feature_trim.py), wherever `scatter_chunk` reports nothing broken.
use native.Mathlib.Nat.{zero-add}
use pyg_knowledge_graph_buil.Base.{
  ℕ, [], ◌∷◌, true, false, none, some, inl, inr, refl, List, ◌≡◌, ◌≢◌, ◌<◌, All, ◌≤◌, ◌+◌,
  Option-cases, arith, sym, ◌∙◌, get_elem?, ◌-◌,
}
use pyg_knowledge_graph_buil.Base.Number.{Number}
use pyg_knowledge_graph_buil.Trim.{TrimSpec, column_of, is_zero, width, copy_index}
use pyg_knowledge_graph_buil.Base.Dict.{lookup}
use pyg_knowledge_graph_buil.Trim.Scatter.{
  counter, Entry, Tensor, strays, broken_copies, copied, zeros, scatter_sparse_entries, to_columns,
  count_one, differs,
}
use pyg_knowledge_graph_buil.Trim.Cells.{full, kept_cell, zero_cell, twin_equal, copied_cell}
use pyg_knowledge_graph_buil.Base.Select.{get_elem?-index_of}

count_one-ne-nil : (d : ℕ) (acc : List (ℕ × ℕ)) → count_one d acc ≢ []
unfolding count_one
count_one-ne-nil d [] h = cc
count_one-ne-nil d ((j, n) ∷ acc) h = ground arith

counter-ne-nil : (ds : List ℕ) (acc : List (ℕ × ℕ)) → acc ≢ [] → counter ds acc ≢ []
unfolding counter
counter-ne-nil [] acc h e = h e
counter-ne-nil (d ∷ ds) acc h e = counter-ne-nil ds (count_one d acc) (count_one-ne-nil d acc) e

-- An empty `Counter` counted nothing.
pub counter-nil : (ds : List ℕ) → counter ds [] ≡ [] → ds ≡ []
unfolding counter
counter-nil [] h = refl
counter-nil (d ∷ ds) h = absurd (counter-ne-nil ds (count_one d []) (count_one-ne-nil d []) h)

module _ {ℓ} {V : Type ℓ} ⦃num : Number V⦄ (s : TrimSpec V) where
  abbrev pub stored : (ℕ → V) → ℕ → V
  stored x p = elim (column_of s p) [ some c ↦ x c | none ↦ num.nil ]

  -- The value at a position of the full vector, from a row of x: a kept position's column, a
  -- constant, the column of a copy's twin, or 0.
  pub rebuild : (ℕ → V) → ℕ → V
  rebuild x p = elim (column_of s p) [
    | some c ↦ x c
    | none ↦ elim (lookup p s.constant) [
      | some v ↦ v
      | none ↦ elim (lookup p s.copy_of) [ some t ↦ stored x t | none ↦ num.nil ]
    ]
  ]

  pub rebuild-kept : (x : ℕ → V) (p c : ℕ) → column_of s p ≡ some c → rebuild x p ≡ x c
  unfolding rebuild
  rebuild-kept x p c h = ground arith

  pub rebuild-constant :
      (x : ℕ → V) (p : ℕ) (v : V)
      → column_of s p ≡ none
      → lookup p s.constant ≡ some v
      → rebuild x p ≡ v
  unfolding rebuild
  rebuild-constant x p v h k = ground arith

  pub rebuild-copy :
      (x : ℕ → V) (p twin c : ℕ)
      → column_of s p ≡ none
      → lookup p s.constant ≡ none
      → lookup p s.copy_of ≡ some twin
      → column_of s twin ≡ some c
      → rebuild x p ≡ x c
  unfolding rebuild
  rebuild-copy x p twin c h k m n = ground arith

  pub rebuild-empty :
      (x : ℕ → V) (p : ℕ)
      → column_of s p ≡ none
      → lookup p s.constant ≡ none
      → lookup p s.copy_of ≡ none
      → rebuild x p ≡ num.nil
  unfolding rebuild
  rebuild-empty x p h k m = ground arith

  -- A copy that does not differ from its twin holds what the twin's column does.
  not-differs :
      (copies t : Tensor V) (lo slot twin row c : ℕ)
      → column_of s twin ≡ some c
      → differs s copies t lo slot twin row ≡ false
      → t (lo + row) c ≡ copies row slot
  unfolding differs
  not-differs copies t lo slot twin row c h k =
      ground (arith, num.same_iff (copies row slot) (t (lo + row) c))

  copy_place :
      (p twin : ℕ)
      → lookup p s.copy_of ≡ some twin
      → (k : ℕ) × (copy_index s p ≡ some k) × (get_elem? s.copy_of k ≡ some (p, twin))
  unfolding copy_index
  copy_place p twin h = get_elem?-index_of p s.copy_of twin h

  -- What a spec promises of its lists.
  pub record IsComplete : Type ℓ where
    pub twins : (p t : ℕ) → lookup p s.copy_of ≡ some t → (c : ℕ) × (column_of s t ≡ some c)
    pub empty :
        (p : ℕ)
        → column_of s p ≡ none
        → lookup p s.constant ≡ none
        → lookup p s.copy_of ≡ none
        → p < s.vector_dim
        → is_zero s p ≡ true

  pub rebuild_cell :
      (entries : List (Entry V)) (t : Tensor V) (lo rows r p : ℕ)
      → IsComplete
      → strays s entries ≡ []
      → broken_copies s
          (copied s entries lo (zeros s))
          (scatter_sparse_entries (to_columns s entries) t (width s))
          lo
          rows
          0
          s.copy_of
        ≡ []
      → All (λ e. lo ≤ e.key) entries
      → ((c : ℕ) → t (lo + r) c ≡ num.nil)
      → r < rows
      → p < s.vector_dim
      → lookup p s.constant ≡ none
      → rebuild (scatter_sparse_entries (to_columns s entries) t (width s) (lo + r)) p
        ≡ full s entries (lo + r) p
  rebuild_cell entries t lo rows r p complete clean equal keyed fresh inside within varies =
      let t' = scatter_sparse_entries (to_columns s entries) t (width s) in
      elim (Option-cases (column_of s p)) [
        | inr (c, kept) ↦
            rebuild-kept (t' (lo + r)) p c kept
            ∙ kept_cell s entries t (lo + r) p c kept within (fresh c)
        | inl dropped ↦ elim (Option-cases (lookup p s.copy_of)) [
          | inr (twin, copy) ↦
              let (c, twin_kept) = complete.twins p twin copy in
              let (k, place, item) = copy_place p twin copy in
              let copies = copied s entries lo (zeros s) in
              let agree = twin_equal s copies t' lo rows 0 k p twin r s.copy_of equal item inside in
              let here : lo + r - lo ≡ r = omega arith in
              rebuild-copy (t' (lo + r)) p twin c dropped varies copy twin_kept
              ∙ not-differs copies t' lo k twin r c twin_kept (rw zero-add at agree)
              ∙ (rw here at
                  (copied_cell s entries lo (lo + r) p k place within (omega arith) keyed))
          | inl neither ↦
              rebuild-empty (t' (lo + r)) p dropped varies neither
              ∙ sym (
                  zero_cell s entries (lo + r) p clean
                    (complete.empty p dropped varies neither within) within)
        ]
      ]
