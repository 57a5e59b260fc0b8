-- ===== src/Base/Select.antt =====
-- Members of selections, appended lists, ranges and dicts.
use pyg_knowledge_graph_buil.Base.{
  ℕ, zero, suc, [], ◌∷◌, true, false, none, some, inl, inr, refl, List, Bool, ◌++◌, ◌≡◌, leb, ◌&&◌,
  ltb, ◌||◌, arith, get_elem?, Bool-cases, ◌+◌, ◌==◌, ==_iff, sym, ◌∙◌, ap,
}
use pyg_knowledge_graph_buil.Base.Dict.{
  range, member, lookup, select, index_of, range_from, keys, insert_item, sort_items,
}

pub member-append : (n : ℕ) (xs ys : List ℕ) → member n (xs ++ ys) ≡ (member n xs || member n ys)
member-append n [] ys = refl
member-append n (x ∷ xs) ys = ground (arith, member-append n xs ys)

pub member-select :
    (n : ℕ) (test : ℕ → Bool) (xs : List ℕ) → member n (select test xs) ≡ (member n xs && test n)
member-select n test [] = refl
member-select n test (x ∷ xs) = elim (Bool-cases (x == n)) [
  | inl e ↦ let same : x ≡ n = (==_iff x n).0 e in rw same (ground (arith, member-select n test xs))
  | inr e ↦ ground (arith, member-select n test xs)
]

member-range_from :
    (n start count : ℕ) → member n (range_from start count) ≡ (leb start n && ltb n (start + count))
member-range_from n start zero = ground arith
member-range_from n start (suc count) = ground (arith, member-range_from n (suc start) count)

pub member-range : (n count : ℕ) → member n (range count) ≡ ltb n count
unfolding range
member-range n count = ground (arith, member-range_from n 0 count)

module _ {ℓ} {A : Type ℓ} where
  -- The keys of a dict are those that it has a value for.
  pub lookup-keys : (k : ℕ) (l : List (ℕ × A)) → lookup k l ≡ none → member k (keys l) ≡ false
  unfolding lookup
  lookup-keys k [] h = refl
  lookup-keys k ((j, a) ∷ l) h = ground (arith, lookup-keys k l)

  pub keys-lookup :
      (k : ℕ) (l : List (ℕ × A)) (a : A) → lookup k l ≡ some a → member k (keys l) ≡ true
  unfolding lookup
  keys-lookup k [] a h = cc
  keys-lookup k ((j, b) ∷ l) a h = ground (arith, keys-lookup k l a)

  -- The place of a key in the dict's order is the place of its item.
  pub get_elem?-index_of :
      (k : ℕ) (l : List (ℕ × A)) (a : A)
      → lookup k l ≡ some a
      → (i : ℕ) × (index_of k (keys l) ≡ some i) × (get_elem? l i ≡ some (k, a))
  unfolding lookup index_of
  get_elem?-index_of k [] a h = cc
  get_elem?-index_of k ((j, b) ∷ l) a h = elim (Bool-cases (j == k)) [
    | inl e ↦ (0, rw e, ground arith)
    | inr e ↦
        let (i, found, item) = get_elem?-index_of k l a (rw e at h) in (suc i, rw (e, found), item)
  ]

module _ {ℓ} {A : Type ℓ} where
  member-keys-insert_item :
      (p k : ℕ) (a : A) (l : List (ℕ × A))
      → member p (keys (insert_item k a l)) ≡ (k == p || member p (keys l))
  unfolding insert_item
  member-keys-insert_item p k a [] = refl
  member-keys-insert_item p k a ((j, b) ∷ l) = ground (arith, member-keys-insert_item p k a l)

  pub member-keys-sort_items :
      (p : ℕ) (l : List (ℕ × A)) → member p (keys (sort_items l)) ≡ member p (keys l)
  unfolding sort_items
  member-keys-sort_items p [] = refl
  member-keys-sort_items p ((k, a) ∷ l) =
      rw (member-keys-insert_item p k a (sort_items l), member-keys-sort_items p l)

-- What a selection leaves out fails its test.
pub select-nil :
    (n : ℕ) (test : ℕ → Bool) (xs : List ℕ) → select test xs ≡ [] → (member n xs && test n) ≡ false
select-nil n test xs h = sym (member-select n test xs) ∙ ap (member n) h
