-- ===== src/Trim/Places.antt =====
-- -- spark_jobs/pyg_builder/feature_trim.py: the places of ascending positions.
use mathlib.Core.Bool.{false≢true}
use mathlib.Core.Option.{some-injective}
use pyg_knowledge_graph_buil.Base.{
  ℕ, zero, suc, [], ◌∷◌, true, false, some, inl, inr, refl, List, Bool, ◌≡◌, All, ◌==◌, ◌||◌, leb,
  ltb, any, arith, Bool-cases, get_elem?, ==_iff, length, sym, Option-cases, none,
}
use pyg_knowledge_graph_buil.Base.Bools.{either_true}
use pyg_knowledge_graph_buil.Base.Dict.{index_of, member, lookup}
use pyg_knowledge_graph_buil.Trim.{descends}
use pyg_knowledge_graph_buil.Trim.Nonzero.{searchsorted}

module _ {ℓ κ} {A : Type ℓ} where
  -- What passes a test has what every element has.
  pub any-found :
      (Q : A → Type κ) (p : A → Bool) (xs : List A)
      → All Q xs
      → any p xs ≡ true
      → (x : A) × Q x × (p x ≡ true)
  any-found Q p [] h k = absurd (false≢true k)
  any-found Q p (x ∷ xs) (q, h) k = elim (Bool-cases (p x)) [
    | inl e ↦ (x, q, e)
    | inr e ↦ any-found Q p xs h (rw e at k)
  ]

All-later :
    (n : ℕ) (xs ys : List ℕ)
    → All (λ x. member x xs ≡ true) ys
    → All (λ x. member x (n ∷ xs) ≡ true) ys
All-later n xs [] h = tt
All-later n xs (y ∷ ys) (e, h) = (either_true (n == y) (member y xs) e, All-later n xs ys h)

pub All-member : (xs : List ℕ) → All (λ x. member x xs ≡ true) xs
All-member [] = tt
All-member (x ∷ xs) = (ground arith, All-later x xs xs (All-member xs))

pub any-member :
    (p : ℕ → Bool) (n : ℕ) (xs : List ℕ) → member n xs ≡ true → p n ≡ true → any p xs ≡ true
any-member p n [] h k = absurd (false≢true h)
any-member p n (x ∷ xs) h k = elim (Bool-cases (x == n)) [
  | inl e ↦ rw ((==_iff x n).0 e, k) refl
  | inr e ↦ either_true (p x) (any p xs) (any-member p n xs (rw e at h) k)
]

pub any-lookup :
    {A : Type 0} (p : ℕ × A → Bool) (k : ℕ) (a : A) (l : List (ℕ × A))
    → lookup k l ≡ some a
    → p (k, a) ≡ true
    → any p l ≡ true
unfolding lookup
any-lookup p k a [] h e = cc
any-lookup p k a ((j, b) ∷ l) h e = elim (Bool-cases (j == k)) [
  | inl f ↦ let same : b ≡ a = some-injective _ _ (rw f at h) in rw ((==_iff j k).0 f, same, e) refl
  | inr f ↦ either_true (p (j, b)) (any p l) (any-lookup p k a l (rw f at h) e)
]

not_either : (a b : Bool) → (a || b) ≡ false → (a ≡ false) × (b ≡ false)
not_either a b h = (ground arith, ground arith)

rest_rises : (k : ℕ) (ks : List ℕ) → descends (k ∷ ks) ≡ false → descends ks ≡ false
unfolding descends
rest_rises k [] h = refl
rest_rises k (j ∷ ks) h = (not_either (leb j k) (descends (j ∷ ks)) h).1

-- Every later number is above the first.
later_above :
    (k n i : ℕ) (ks : List ℕ) → descends (k ∷ ks) ≡ false → get_elem? ks i ≡ some n → ltb k n ≡ true
unfolding descends
later_above k n i [] h e = cc
later_above k n zero (j ∷ ks) h e = ground arith
later_above k n (suc i) (j ∷ ks) h e =
    let (first, rest) = not_either (leb j k) (descends (j ∷ ks)) h in
    let above = later_above j n i ks rest e in ground arith

pub place_from :
    (start n i : ℕ) (ks : List ℕ)
    → descends ks ≡ false
    → get_elem? ks i ≡ some n
    → leb (searchsorted ks start) i ≡ leb start n
unfolding searchsorted
place_from start n i [] h e = cc
place_from start n zero (k ∷ ks) h e = ground arith
place_from start n (suc i) (k ∷ ks) h e =
    let above = later_above k n i ks h e in
    elim (Bool-cases (leb start k)) [
      | inl f ↦ rw f (ground arith)
      | inr f ↦ rw f (ground (arith, place_from start n i ks (rest_rises k ks h) e))
    ]

pub place_of_kept :
    (n i : ℕ) (ks : List ℕ) → descends ks ≡ false → get_elem? ks i ≡ some n → index_of n ks ≡ some i
unfolding index_of
place_of_kept n i [] h e = cc
place_of_kept n zero (k ∷ ks) h e = ground arith
place_of_kept n (suc i) (k ∷ ks) h e =
    let above = later_above k n i ks h e in
    ground (arith, place_of_kept n i ks (rest_rises k ks h) e)

pub place-get_elem? : (n i : ℕ) (ks : List ℕ) → index_of n ks ≡ some i → get_elem? ks i ≡ some n
unfolding index_of
place-get_elem? n i [] h = cc
place-get_elem? n i (k ∷ ks) h = elim (Bool-cases (k == n)) [
  | inl e ↦
      let same : 0 ≡ i = some-injective _ _ (rw e at h) in rw (sym same, (==_iff k n).0 e) refl
  | inr e ↦ elim (Option-cases (index_of n ks)) [
    | inl f ↦ let clash : none ≡ some i = rw (e, f) at h in cc
    | inr (j, f) ↦
        let same : suc j ≡ i = some-injective _ _ (rw (e, f) at h) in
        rw (sym same) (place-get_elem? n j ks f)
  ]
]

pub has_place :
    (i : ℕ) (ks : List ℕ) → ltb i (length ks) ≡ true → (n : ℕ) × (get_elem? ks i ≡ some n)
has_place i [] h = absurd (ground arith)
has_place zero (k ∷ ks) h = (k, refl)
has_place (suc i) (k ∷ ks) h = has_place i ks (ground arith)
