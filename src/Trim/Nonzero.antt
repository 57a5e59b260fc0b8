-- ===== src/Trim/Nonzero.antt =====
-- spark_jobs/pyg_builder/feature_trim.py: `any_nonzero_from`, which reads a trimmed x.
use pyg_knowledge_graph_buil.Base.{
  ℕ, suc, [], ◌∷◌, none, some, List, Option, Bool, if◌then◌else◌, ◌==◌, ◌&&◌, ◌||◌, not, leb, any,
  ◌-◌,
}
use pyg_knowledge_graph_buil.Base.Dict.{select, range}
use pyg_knowledge_graph_buil.Base.Number.{Number}
use pyg_knowledge_graph_buil.Trim.{TrimSpec, width, column_of}
use pyg_knowledge_graph_buil.Trim.Scatter.{Tensor}

-- `np.searchsorted`: the first place whose number is not below `start`.
unfoldable pub searchsorted : List ℕ → ℕ → ℕ
searchsorted [] start = 0
searchsorted (k ∷ ks) start =
    let rest = searchsorted ks start in if leb start k then 0 else suc rest

module _ {ℓ} {V : Type ℓ} ⦃num : Number V⦄ where
  abbrev pub nonzero : V → Bool
  nonzero v = not (num.same v num.nil)

  -- A value of x at a column, where -1 is the last one.
  abbrev pub at_column : (ℕ → V) → ℕ → Option ℕ → V
  at_column row last (some c) = row c
  at_column row last none = row last

  module _ (s : TrimSpec V) where
    -- `x[:, first:].any()`, of an x of so many rows
    unfoldable pub any_kept_from : Tensor V → ℕ → ℕ → Bool
    unfolding range width
    any_kept_from x rows first =
        any (λ r. any (λ c. nonzero (x r c)) (select (λ c. leb first c) (range (width s))))
          (range rows)

    unfoldable pub any_constant_from : ℕ → ℕ → Bool
    any_constant_from rows start =
        not (rows == 0) && any (λ item. leb start item.0 && nonzero item.1) s.constant

    unfoldable pub any_copy_from : Tensor V → ℕ → ℕ → Bool
    unfolding range width column_of
    any_copy_from x rows start =
        any
          (λ item.
            leb start item.0
            && any (λ r. nonzero (at_column (x r) (width s - 1) (column_of s item.1))) (range rows))
          s.copy_of

    unfoldable pub any_nonzero_from : Tensor V → ℕ → ℕ → Bool
    unfolding any_kept_from any_constant_from any_copy_from searchsorted
    any_nonzero_from x rows start =
        any_kept_from x rows (searchsorted s.kept start)
        || (any_constant_from rows start || any_copy_from x rows start)
