-- ===== src/Edges/Collect.antt =====
-- spark_jobs/pyg_builder/edge_mapper.py: the dict that the loop over the chunks fills.
use pyg_knowledge_graph_buil.Base.{
  ℕ, [], ◌∷◌, true, false, none, some, List, Bool, Option, refl, All, arith, ◌≡◌, ap, inl, inr,
  Bool-cases, ◌∙◌, ◌||◌, ◌&&◌, any, sym, subst, ◌==◌, ==_iff, leb, if◌then◌else◌, not,
}
use pyg_knowledge_graph_buil.Base.Dict.{select, member}
use pyg_knowledge_graph_buil.Edges.{EdgeType, IdRow, id_of_key}
use pyg_knowledge_graph_buil.Edges.Build.{
  EdgeIndex, EdgeIndices, lookup_index, in_chunk, group_ids, group_of, stack, file_chunk,
  file_chunks,
}
use pyg_knowledge_graph_buil.Edges.Ids.{Known}
use pyg_knowledge_graph_buil.Edges.Filed.{if_same, after, file_groups-after, member-select}

abbrev pub no_rows : List IdRow → Bool
no_rows [] = true
no_rows (_ ∷ _) = false

unequal : (j i : ℕ) (b : Bool) → (j == i) ≡ false → (false || (b && not (i == j))) ≡ b
unequal j i b h = ground arith

member-group_ids :
    (i : ℕ) (rows : List IdRow) → member i (group_ids rows) ≡ not (no_rows (group_of i rows))
unfolding group_ids
member-group_ids i [] = refl
member-group_ids i (row ∷ rows) = elim (Bool-cases (row.edge_type_id == i)) [
  | inl e ↦ rw e refl
  | inr e ↦
      rw (e, member-select i row.edge_type_id (group_ids rows), member-group_ids i rows)
        (unequal row.edge_type_id i (not (no_rows (group_of i rows))) e)
]

All-select :
    (keys : List EdgeType) (p : ℕ → Bool) (ids : List ℕ)
    → All (Known keys) ids
    → All (Known keys) (select p ids)
All-select keys p [] h = tt
All-select keys p (i ∷ ids) (known, h) = elim (Bool-cases (p i)) [
  | inl e ↦ rw e (known, All-select keys p ids h)
  | inr e ↦ rw e (All-select keys p ids h)
]

group_ids-Known :
    (keys : List EdgeType) (rows : List IdRow)
    → All (λ row. Known keys row.edge_type_id) rows
    → All (Known keys) (group_ids rows)
unfolding group_ids
group_ids-Known keys [] h = tt
group_ids-Known keys (row ∷ rows) (known, h) = (
  known,
  All-select keys (λ i. not (i == row.edge_type_id)) (group_ids rows) (group_ids-Known keys rows h),
)

chunk-Known :
    (keys : List EdgeType) (chunk : ℕ × ℕ) (rows : List IdRow)
    → All (λ row. Known keys row.edge_type_id) rows
    → All (λ row. Known keys row.edge_type_id) (select (in_chunk chunk) rows)
chunk-Known keys chunk [] h = tt
chunk-Known keys chunk (row ∷ rows) (known, h) = elim (Bool-cases (in_chunk chunk row)) [
  | inl e ↦ rw e (known, chunk-Known keys chunk rows h)
  | inr e ↦ rw e (chunk-Known keys chunk rows h)
]

abbrev pub holds_id : (ℕ × ℕ) → ℕ → Bool
holds_id (lo, hi) i = leb lo i && leb i hi

group_of-chunk :
    (i : ℕ) (lo hi : ℕ) (rows : List IdRow)
    → group_of i (select (in_chunk (lo, hi)) rows)
      ≡ (if holds_id (lo, hi) i then group_of i rows else [])
group_of-chunk i lo hi [] = sym (if_same (holds_id (lo, hi) i) [])
group_of-chunk i lo hi (row ∷ rows) = elim (Bool-cases (row.edge_type_id == i)) [
  | inl e ↦
      let same : row.edge_type_id ≡ i = (==_iff row.edge_type_id i).0 e in
      elim (Bool-cases (holds_id (lo, hi) row.edge_type_id)) [
        | inl f ↦
            let own = subst (λ n. holds_id (lo, hi) n ≡ true) same f in
            let rest = rw own at (group_of-chunk i lo hi rows) in
            rw (f, e, own) (ap (λ t. row ∷ t) rest)
        | inr f ↦
            let own = subst (λ n. holds_id (lo, hi) n ≡ false) same f in
            let rest = rw own at (group_of-chunk i lo hi rows) in rw (f, e, own) rest
      ]
  | inr e ↦ elim (Bool-cases (holds_id (lo, hi) row.edge_type_id)) [
    | inl f ↦ rw (f, e) (group_of-chunk i lo hi rows)
    | inr f ↦ rw (f, e) (group_of-chunk i lo hi rows)
  ]
]

-- What a dict has for a type, once the groups of a frame within some chunks are filed.
abbrev pub filed : Option ℕ → List (ℕ × ℕ) → List IdRow → Option EdgeIndex → Option EdgeIndex
filed none chunks rows old = old
filed (some i) chunks rows old =
    if any (λ chunk. holds_id chunk i) chunks && not (no_rows (group_of i rows))
    then some (stack (group_of i rows))
    else old

filed_nothing :
    (o : Option ℕ) (rows : List IdRow) (old : Option EdgeIndex) → old ≡ filed o [] rows old
filed_nothing none rows old = refl
filed_nothing (some i) rows old = refl

no_test {ℓ} : {A : Type ℓ} (b : Bool) (x y : A) → (if b && false then x else y) ≡ y
no_test true x y = refl
no_test false x y = refl

file_chunk-filed :
    (o : Option ℕ) (lo hi : ℕ) (chunks : List (ℕ × ℕ)) (rows : List IdRow) (old : Option EdgeIndex)
    → filed o chunks rows (
        after o (group_ids (select (in_chunk (lo, hi)) rows)) (select (in_chunk (lo, hi)) rows) old)
      ≡ filed o ((lo, hi) ∷ chunks) rows old
file_chunk-filed none lo hi chunks rows old = refl
file_chunk-filed (some i) lo hi chunks rows old =
    rw (member-group_ids i (select (in_chunk (lo, hi)) rows), group_of-chunk i lo hi rows)
      (elim (Bool-cases (holds_id (lo, hi) i)) [
        | inr e ↦ rw e refl
        | inl e ↦ rw e (elim (Bool-cases (no_rows (group_of i rows))) [
          | inl f ↦ rw f (
              no_test (any (λ chunk. holds_id chunk i) chunks) (some (stack (group_of i rows))) old)
          | inr f ↦ rw f (
              if_same (any (λ chunk. holds_id chunk i) chunks && true)
                (some (stack (group_of i rows))))
        ])
      ])

pub file_chunks-filed :
    (keys : List EdgeType) (rows : List IdRow) (chunks : List (ℕ × ℕ)) (indices : EdgeIndices)
    → All (λ row. Known keys row.edge_type_id) rows
    → (result : EdgeIndices) × (file_chunks keys rows chunks indices ≡ some result)
      × ((key : EdgeType)
          → lookup_index key result
            ≡ filed (id_of_key keys key) chunks rows (lookup_index key indices))
unfolding file_chunks file_chunk
file_chunks-filed keys rows [] indices h =
    (indices, refl, λ key. filed_nothing (id_of_key keys key) rows (lookup_index key indices))
file_chunks-filed keys rows ((lo, hi) ∷ chunks) indices h =
    let part = select (in_chunk (lo, hi)) rows in
    let (first, first_filed, first_found) =
      file_groups-after keys part (group_ids part) indices
        (group_ids-Known keys part (chunk-Known keys (lo, hi) rows h)) in
    let (result, all_filed, found) = file_chunks-filed keys rows chunks first h in
    (
      result,
      rw first_filed all_filed,
      λ key.
          found key
          ∙ ap (filed (id_of_key keys key) chunks rows) (first_found key)
          ∙ file_chunk-filed (id_of_key keys key) lo hi chunks rows (lookup_index key indices),
    )
