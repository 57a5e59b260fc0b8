-- ===== src/Examples/Codes.antt =====
-- spark_jobs/pyg_builder/collision_report.py where the segment is one dim wide, so that the rank is 1 where
-- some row is not 0.
use pyg_knowledge_graph_buil.Base.{
  ℕ, [], ◌∷◌, true, false, none, some, Bool, refl, arith, ◌≡◌, ◌≤◌, ◌<◌, length, ◌↔◌, if◌then◌else◌,
  any, inl, inr,
}
use pyg_knowledge_graph_buil.Base.Texts.{codes}
use pyg_knowledge_graph_buil.Base.Dict.{insert_sorted}
use pyg_knowledge_graph_buil.Collisions.{
  Matrix, ClassSlot, codes_of, compute_collision_report, check_class_identity_capacity, matrix_of,
  refused_for, over_subscribed, sharing, class_identity, by_code, shared_names, sort_by_first,
  insert_by_first, class_code_rank,
}
use pyg_knowledge_graph_buil.Collisions.Separable.{check_class_identity_capacity-Separable}
use pyg_knowledge_graph_buil.Collisions.Shared.{IsRank, Repeats, stops}

abbrev rank_of_column : Matrix → ℕ
rank_of_column m = if any (λ row. any (λ b. b) row) m then 1 else 0

at_most_one : (b : Bool) → (if b then 1 else 0) ≤ 1
at_most_one true = omega arith
at_most_one false = omega arith

two_rows : (m : Matrix) → Repeats m → 1 < length m
two_rows [] h = absurd h
two_rows (row ∷ []) (inl h) = absurd h
two_rows (row ∷ []) (inr h) = absurd h
two_rows (row ∷ r ∷ m) h = omega arith

rank_of_column-IsRank : IsRank 1 rank_of_column
rank_of_column-IsRank = (
  λ m widths. at_most_one (any (λ row. any (λ b. b) row) m),
  λ m h. omega (arith, at_most_one (any (λ row. any (λ b. b) row) m), two_rows m h),
)

abbrev area : ClassSlot
area = record { pyg_name = some (codes "cpi_Area"); class_uri = none; global_dims = 0 ∷ 0 ∷ [] }

abbrev item : ClassSlot
item = record { pyg_name = none; class_uri = some (codes "http://x/Item"); global_dims = 0 ∷ [] }

check_class_identity_capacity-Separable_example :
    ((stops (
          check_class_identity_capacity
            (compute_collision_report rank_of_column [] (area ∷ []) [] 1)
            false)
        ≡ false)
      ↔ (rank_of_column (matrix_of 1 (codes_of (area ∷ []))) ≡ length (area ∷ [])))
    × (stops (
          check_class_identity_capacity
            (compute_collision_report rank_of_column [] (area ∷ []) [] 1)
            true)
        ≡ false)
check_class_identity_capacity-Separable_example =
    check_class_identity_capacity-Separable rank_of_column [] [] area [] 1 (omega arith)
      rank_of_column-IsRank

-- Two classes of one code in one dim.
refused_twice :
    check_class_identity_capacity
      (compute_collision_report rank_of_column [] (item ∷ area ∷ []) [] 1)
      false
    ≡ refused_for
        (sharing ((codes "cpi_Area" ∷ codes "http://x/Item" ∷ []) ∷ []) ∷ over_subscribed 2 1 ∷ [])
unfolding check_class_identity_capacity compute_collision_report class_identity insert_sorted
    by_code shared_names sort_by_first insert_by_first class_code_rank
refused_twice = refl
