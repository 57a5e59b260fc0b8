-- ===== src/Edges/Sorted.antt =====
-- spark_jobs/pyg_builder/edge_mapper.py: the frame in the order of `orderBy`, and its rows of one type.
use pyg_knowledge_graph_buil.Base.{
  ℕ, [], ◌∷◌, true, false, List, refl, All, arith, ◌≡◌, ap, inl, inr, Bool-cases, ◌∙◌, subst, ◌==◌,
  ==_iff, ltb, if◌then◌else◌, ◌≤◌,
}
use pyg_knowledge_graph_buil.Edges.{IdRow, insert_row, order_rows, row_le, pair_le}
use pyg_knowledge_graph_buil.Edges.Build.{group_of}
use pyg_knowledge_graph_buil.Edges.Ids.{pairs}

abbrev pub insert_ends : ℕ → ℕ → List (ℕ × ℕ) → List (ℕ × ℕ)
insert_ends s d [] = (s, d) ∷ []
insert_ends s d ((s', d') ∷ ps) =
    if pair_le s d s' d' then (s, d) ∷ (s', d') ∷ ps else (s', d') ∷ insert_ends s d ps

-- Pairs by source, and by destination under one source.
unfoldable pub sort_ends : List (ℕ × ℕ) → List (ℕ × ℕ)
sort_ends [] = []
sort_ends ((s, d) ∷ ps) = insert_ends s d (sort_ends ps)

-- No row has a lower id than an earlier one.
abbrev ById : List IdRow → Type 0
ById [] = Unit
ById (row ∷ rows) = All (λ r. row.edge_type_id ≤ r.edge_type_id) rows × ById rows

le_id : (a b : IdRow) → row_le a b ≡ true → a.edge_type_id ≤ b.edge_type_id
le_id a b h = ground arith

not_le_id : (a b : IdRow) → row_le a b ≡ false → b.edge_type_id ≤ a.edge_type_id
not_le_id a b h = ground arith

below_All :
    (n m : ℕ) (rows : List IdRow)
    → n ≤ m
    → All (λ r. m ≤ r.edge_type_id) rows
    → All (λ r. n ≤ r.edge_type_id) rows
below_All n m [] le h = tt
below_All n m (r ∷ rows) le (p, h) = (omega arith, below_All n m rows le h)

All-insert_any :
    (P : ℕ → Type 0) (row : IdRow) (rows : List IdRow)
    → P row.edge_type_id
    → All (λ r. P r.edge_type_id) rows
    → All (λ r. P r.edge_type_id) (insert_row row rows)
unfolding insert_row
All-insert_any P row [] own h = (own, tt)
All-insert_any P row (r ∷ rows) own (p, h) = elim (Bool-cases (row_le row r)) [
  | inl e ↦ rw e (own, (p, h))
  | inr e ↦ rw e (p, All-insert_any P row rows own h)
]

insert_row-ById : (row : IdRow) (rows : List IdRow) → ById rows → ById (insert_row row rows)
unfolding insert_row
insert_row-ById row [] h = (tt, tt)
insert_row-ById row (r ∷ rows) (above, h) = elim (Bool-cases (row_le row r)) [
  | inl e ↦ rw e (
    (le_id row r e, below_All row.edge_type_id r.edge_type_id rows (le_id row r e) above),
    (above, h),
  )
  | inr e ↦ rw e (
    All-insert_any (λ n. r.edge_type_id ≤ n) row rows (not_le_id row r e) above,
    insert_row-ById row rows h,
  )
]

order_rows-ById : (rows : List IdRow) → ById (order_rows rows)
unfolding order_rows
order_rows-ById [] = tt
order_rows-ById (row ∷ rows) = insert_row-ById row (order_rows rows) (order_rows-ById rows)

-- What follows a higher id has no row of the id.
none_above :
    (i n : ℕ) (rows : List IdRow)
    → ltb i n ≡ true
    → All (λ r. n ≤ r.edge_type_id) rows
    → group_of i rows ≡ []
none_above i n [] lt h = refl
none_above i n (r ∷ rows) lt (p, h) = elim (Bool-cases (r.edge_type_id == i)) [
  | inl e ↦ absurd (ground arith)
  | inr e ↦ rw e (none_above i n rows lt h)
]

same_order :
    (row r : IdRow)
    → (r.edge_type_id == row.edge_type_id) ≡ true
    → row_le row r ≡ pair_le row.src row.dst r.src r.dst
same_order row r h = ground arith

goes_above :
    (row r : IdRow)
    → (r.edge_type_id == row.edge_type_id) ≡ false
    → row_le row r ≡ true
    → ltb row.edge_type_id r.edge_type_id ≡ true
goes_above row r h k = ground arith

own_id : (i : ℕ) → (i == i) ≡ true
own_id i = ground arith

other_group :
    (i : ℕ) (row : IdRow) (rows : List IdRow)
    → (row.edge_type_id == i) ≡ false
    → group_of i (insert_row row rows) ≡ group_of i rows
unfolding insert_row
other_group i row [] h = rw h refl
other_group i row (r ∷ rows) h = elim (Bool-cases (row_le row r)) [
  | inl e ↦ rw (e, h) refl
  | inr e ↦ elim (Bool-cases (r.edge_type_id == i)) [
    | inl f ↦ rw (e, f) (ap (λ t. r ∷ t) (other_group i row rows h))
    | inr f ↦ rw (e, f) (other_group i row rows h)
  ]
]

own_group :
    (row : IdRow) (rows : List IdRow)
    → ById rows
    → pairs (group_of row.edge_type_id (insert_row row rows))
      ≡ insert_ends row.src row.dst (pairs (group_of row.edge_type_id rows))
unfolding insert_row
own_group row [] h = rw (own_id row.edge_type_id) refl
own_group row (r ∷ rows) (above, h) = elim (Bool-cases (r.edge_type_id == row.edge_type_id)) [
  | inl f ↦ elim (Bool-cases (pair_le row.src row.dst r.src r.dst)) [
    | inl e ↦ rw (same_order row r f ∙ e, own_id row.edge_type_id, f, e) refl
    | inr e ↦
        rw (same_order row r f ∙ e, f, e) (ap (λ t. (r.src, r.dst) ∷ t) (own_group row rows h))
  ]
  | inr f ↦ elim (Bool-cases (row_le row r)) [
    | inl e ↦
        rw
          (
            e,
            own_id row.edge_type_id,
            f,
            none_above row.edge_type_id r.edge_type_id rows (goes_above row r f e) above,
          )
          refl
    | inr e ↦ rw (e, f) (own_group row rows h)
  ]
]

-- The rows of an id in the order of the frame are the pairs in order.
pub group_of-order_rows :
    (i : ℕ) (rows : List IdRow)
    → pairs (group_of i (order_rows rows)) ≡ sort_ends (pairs (group_of i rows))
unfolding order_rows sort_ends
group_of-order_rows i [] = refl
group_of-order_rows i (row ∷ rows) = elim (Bool-cases (row.edge_type_id == i)) [
  | inr e ↦ rw (e, other_group i row (order_rows rows) e) (group_of-order_rows i rows)
  | inl e ↦
      let same : row.edge_type_id ≡ i = (==_iff row.edge_type_id i).0 e in
      rw e (
        subst
          (λ n.
            pairs (group_of n (insert_row row (order_rows rows)))
            ≡ insert_ends row.src row.dst (pairs (group_of n (order_rows rows))))
          same (own_group row (order_rows rows) (order_rows-ById rows))
        ∙ ap (insert_ends row.src row.dst) (group_of-order_rows i rows))
]

pub order_rows-All :
    (P : ℕ → Type 0) (rows : List IdRow)
    → All (λ r. P r.edge_type_id) rows
    → All (λ r. P r.edge_type_id) (order_rows rows)
unfolding order_rows
order_rows-All P [] h = tt
order_rows-All P (row ∷ rows) (own, h) =
    All-insert_any P row (order_rows rows) own (order_rows-All P rows h)
