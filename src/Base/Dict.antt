-- ===== src/Base/Dict.antt =====
-- Lists of numbers as sets, and Python dicts keyed by numbers as association lists.
use pyg_knowledge_graph_buil.Base.Tests.{◌==◌, leb, if◌then◌else◌, Bool-cases, Option-cases, ==_iff}
use Prim.Native.Nat.{zero, ℕ, suc, ◌<◌}
use mathlib.Core.Path.{◌≡◌, refl}
use mathlib.Core.Bool.{Bool, true, false, ◌||◌}
use mathlib.Core.Option.{Option, none, some}
use mathlib.Core.List.{List, [], ◌∷◌}
use mathlib.Core.Logic.{◌⊎◌, inl, inr}
use native.Mathlib.Omega.{arith}
use pyg_knowledge_graph_buil.Base.Lists.{length}
use pyg_knowledge_graph_buil.Base.{ltb}
use mathlib.Core.Option

abbrev pub member : ℕ → List ℕ → Bool
member n [] = false
member n (x ∷ xs) = x == n || member n xs

-- The place of the first `n`, counted from 0.
unfoldable pub index_of : ℕ → List ℕ → Option ℕ
index_of n [] = none
index_of n (x ∷ xs) = if x == n then some 0 else Option.map suc (index_of n xs)

-- The place of `n` in a list is 0 if the list begins with it, and one more than in the rest if not.
index_of-cons :
    (n x i : ℕ) (xs : List ℕ)
    → index_of n (x ∷ xs) ≡ some i
    → (x ≡ n) × (i ≡ 0) ⊎ ((j : ℕ) × (index_of n xs ≡ some j) × (i ≡ suc j))
unfolding index_of
index_of-cons n x i xs h = elim (Bool-cases (x == n)) [
  | inl e ↦ inl ((==_iff x n).0 e, ground arith)
  | inr e ↦ elim (Option-cases (index_of n xs)) [
    | inl absent ↦ ground arith
    | inr (j, found) ↦ inr (j, found, ground arith)
  ]
]

pub index_of-lt-length : (n : ℕ) (xs : List ℕ) (i : ℕ) → index_of n xs ≡ some i → i < length xs
unfolding index_of
index_of-lt-length n [] i h = cc
index_of-lt-length n (x ∷ xs) i h = elim (index_of-cons n x i xs h) [
  | inl (_, e) ↦ omega arith
  | inr (j, found, e) ↦ omega (arith, index_of-lt-length n xs j found)
]

pub index_of_injective :
    (n m : ℕ) (xs : List ℕ) (i : ℕ) → index_of n xs ≡ some i → index_of m xs ≡ some i → n ≡ m
unfolding index_of
index_of_injective n m [] i h k = cc
index_of_injective n m (x ∷ xs) i h k = elim (index_of-cons n x i xs h) [
  | inl (e, z) ↦ elim (index_of-cons m x i xs k) [
    | inl (e', _) ↦ omega arith
    | inr (j, _, s) ↦ absurd (omega arith)
  ]
  | inr (j, found, s) ↦ elim (index_of-cons m x i xs k) [
    | inl (_, z) ↦ absurd (omega arith)
    | inr (j', found', s') ↦
        let e : j' ≡ j = omega arith in index_of_injective n m xs j found (rw e at found')
  ]
]

pub member-index_of :
    (n : ℕ) (xs : List ℕ) → member n xs ≡ true → (i : ℕ) × (index_of n xs ≡ some i)
unfolding index_of
member-index_of n [] h = cc
member-index_of n (x ∷ xs) h = elim (Bool-cases (x == n)) [
  | inl e ↦ (0, rw e)
  | inr e ↦ let (i, found) = member-index_of n xs (ground arith) in (suc i, rw (e, found))
]

pub index_of-member : (n i : ℕ) (xs : List ℕ) → index_of n xs ≡ some i → member n xs ≡ true
unfolding index_of
index_of-member n i [] h = cc
index_of-member n i (x ∷ xs) h = elim (index_of-cons n x i xs h) [
  | inl (e, _) ↦ ground arith
  | inr (j, found, _) ↦ ground (arith, index_of-member n j xs found)
]

module _ {ℓ} {A : Type ℓ} where
  unfoldable pub lookup : ℕ → List (ℕ × A) → Option A
  lookup k [] = none
  lookup k ((j, a) ∷ l) = if j == k then some a else lookup k l

  -- `dict(sorted(items))`: the items by key.
  unfoldable pub insert_item : ℕ → A → List (ℕ × A) → List (ℕ × A)
  insert_item k a [] = (k, a) ∷ []
  insert_item k a ((j, b) ∷ l) = if leb k j then (k, a) ∷ (j, b) ∷ l else (j, b) ∷ insert_item k a l

  unfoldable pub sort_items : List (ℕ × A) → List (ℕ × A)
  sort_items [] = []
  sort_items ((k, a) ∷ l) = insert_item k a (sort_items l)

  pub lookup-insert_item :
      (k j : ℕ) (a : A) (l : List (ℕ × A))
      → lookup j (insert_item k a l) ≡ (if k == j then some a else lookup j l)
  unfolding lookup insert_item
  lookup-insert_item k j a [] = refl
  lookup-insert_item k j a ((i, b) ∷ l) = ground (arith, lookup-insert_item k j a l)

  pub lookup-sort_items : (j : ℕ) (l : List (ℕ × A)) → lookup j (sort_items l) ≡ lookup j l
  unfolding lookup sort_items
  lookup-sort_items j [] = refl
  lookup-sort_items j ((k, a) ∷ l) =
      rw (lookup-insert_item k j a (sort_items l), lookup-sort_items j l)

-- `sorted(set(xs))`
unfoldable pub insert_sorted : ℕ → List ℕ → List ℕ
insert_sorted n [] = n ∷ []
insert_sorted n (x ∷ xs) =
    if ltb n x then n ∷ x ∷ xs else if n == x then x ∷ xs else x ∷ insert_sorted n xs

unfoldable pub sorted_set : List ℕ → List ℕ
sorted_set [] = []
sorted_set (x ∷ xs) = insert_sorted x (sorted_set xs)

abbrev pub select {ℓ} : {A : Type ℓ} → (A → Bool) → List A → List A
select p [] = []
select p (x ∷ xs) = if p x then x ∷ select p xs else select p xs

-- `range(from, from + count)`
abbrev pub range_from : ℕ → ℕ → List ℕ
range_from start zero = []
range_from start (suc count) = start ∷ range_from (suc start) count

unfoldable pub range : ℕ → List ℕ
range n = range_from 0 n

abbrev pub keys {ℓ} : {A : Type ℓ} → List (ℕ × A) → List ℕ
keys [] = []
keys ((k, _) ∷ l) = k ∷ keys l
