-- ===== src/Edges/Filed.antt =====
-- -- spark_jobs/pyg_builder/edge_mapper.py: the dict of tensors, once the groups of some ids are filed.
use mathlib.Core.Bool.{false≢true}
use pyg_knowledge_graph_buil.Base.{
  ℕ, [], ◌∷◌, true, false, none, some, List, Bool, Option, refl, All, arith, ◌≡◌, inl, inr,
  Bool-cases, Option-cases, ◌∙◌, ◌&&◌, sym, subst, ◌==◌, ==_iff, if◌then◌else◌, not,
}
use pyg_knowledge_graph_buil.Base.Dict.{select, member}
use pyg_knowledge_graph_buil.Edges.{EdgeType, IdRow, type_eq, id_of_key}
use pyg_knowledge_graph_buil.Edges.Build.{
  EdgeIndex, EdgeIndices, lookup_index, put_index, group_of, stack, file_groups,
}
use pyg_knowledge_graph_buil.Edges.Types.{type_eq-same, same-type_eq}
use pyg_knowledge_graph_buil.Edges.Ids.{Known, same_id, id_of_key-get_elem?}

pub if_same {ℓ} : {A : Type ℓ} (b : Bool) (x : A) → (if b then x else x) ≡ x
if_same true x = refl
if_same false x = refl

if_twice {ℓ} :
    {A : Type ℓ} (b : Bool) (x y z : A)
    → (if b then x else y) ≡ (if b then x else (if b then z else y))
if_twice true x y z = refl
if_twice false x y z = refl

other_type :
    (j k key : EdgeType) → type_eq j k ≡ false → type_eq j key ≡ true → type_eq k key ≡ false
other_type j k key e f = elim (Bool-cases (type_eq k key)) [
  | inr g ↦ g
  | inl g ↦
      absurd
        (false≢true (sym e ∙ same-type_eq j k (type_eq-same j key f ∙ sym (type_eq-same k key g))))
]

no_such :
    (keys : List EdgeType) (key k : EdgeType) (j : ℕ)
    → id_of_key keys key ≡ none
    → id_of_key keys k ≡ some j
    → type_eq k key ≡ false
no_such keys key k j e known = elim (Bool-cases (type_eq k key)) [
  | inr g ↦ g
  | inl g ↦
      let o : none ≡ some j =
        sym e ∙ subst (λ t. id_of_key keys t ≡ some j) (type_eq-same k key g) known in
      cc
]

lookup_index-put_index :
    (key k : EdgeType) (index : EdgeIndex) (indices : EdgeIndices)
    → lookup_index key (put_index k index indices)
      ≡ (if type_eq k key then some index else lookup_index key indices)
unfolding put_index
lookup_index-put_index key k index [] = refl
lookup_index-put_index key k index ((j, old) ∷ indices) = elim (Bool-cases (type_eq j k)) [
  | inl e ↦
      rw (e, type_eq-same j k e)
        (if_twice (type_eq k key) (some index) (lookup_index key indices) (some old))
  | inr e ↦ elim (Bool-cases (type_eq j key)) [
    | inl f ↦ rw (e, f, other_type j k key e f) refl
    | inr f ↦ rw (e, f) (lookup_index-put_index key k index indices)
  ]
]

-- What a dict has for a type, once the groups of some ids are filed.
abbrev pub after : Option ℕ → List ℕ → List IdRow → Option EdgeIndex → Option EdgeIndex
after none ids rows old = old
after (some i) ids rows old = if member i ids then some (stack (group_of i rows)) else old

after_none : (o : Option ℕ) (rows : List IdRow) (old : Option EdgeIndex) → old ≡ after o [] rows old
after_none none rows old = refl
after_none (some i) rows old = refl

-- Each later lookup, of what one more group has been filed into.
after-put_index :
    (keys : List EdgeType) (key k : EdgeType) (j : ℕ) (ids : List ℕ) (rows : List IdRow)
    (indices : EdgeIndices)
    → id_of_key keys k ≡ some j
    → after
        (id_of_key keys key)
        ids
        rows
        (lookup_index key (put_index k (stack (group_of j rows)) indices))
      ≡ after (id_of_key keys key) (j ∷ ids) rows (lookup_index key indices)
after-put_index keys key k j ids rows indices known = elim (Option-cases (id_of_key keys key)) [
  | inl e ↦
      rw
        (
          e,
          lookup_index-put_index key k (stack (group_of j rows)) indices,
          no_such keys key k j e known,
        )
        refl
  | inr (i, e) ↦
      rw
        (
          e,
          lookup_index-put_index key k (stack (group_of j rows)) indices,
          sym (same_id keys key i e k j known),
        )
        (elim (Bool-cases (j == i)) [
          | inl f ↦
              rw (f, (==_iff j i).0 f) (if_same (member i ids) (some (stack (group_of i rows))))
          | inr f ↦ rw f refl
        ])
]

pub file_groups-after :
    (keys : List EdgeType) (rows : List IdRow) (ids : List ℕ) (indices : EdgeIndices)
    → All (Known keys) ids
    → (result : EdgeIndices) × (file_groups keys rows ids indices ≡ some result)
      × ((key : EdgeType)
          → lookup_index key result
            ≡ after (id_of_key keys key) ids rows (lookup_index key indices))
unfolding file_groups
file_groups-after keys rows [] indices h =
    (indices, refl, λ key. after_none (id_of_key keys key) rows (lookup_index key indices))
file_groups-after keys rows (j ∷ ids) indices ((k, known), h) =
    let (result, filed, found) =
      file_groups-after keys rows ids (put_index k (stack (group_of j rows)) indices) h in
    (
      result,
      rw (id_of_key-get_elem? keys k j known) filed,
      λ key. found key ∙ after-put_index keys key k j ids rows indices known,
    )

pub member-select :
    (i j : ℕ) (ids : List ℕ)
    → member i (select (λ n. not (n == j)) ids) ≡ (member i ids && not (i == j))
member-select i j [] = refl
member-select i j (n ∷ ids) = ground (arith, member-select i j ids)
