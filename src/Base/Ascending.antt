-- ===== src/Base/Ascending.antt =====
-- Python's `sorted(set(...))` over any order: each element once, in ascending order.
use pyg_knowledge_graph_buil.Base.{
  [], ◌∷◌, true, false, List, Bool, refl, All, ◌≡◌, ap, inl, inr, Bool-cases, ◌∙◌, ◌||◌, any,
  if◌then◌else◌, sym,
}
use pyg_knowledge_graph_buil.Base.Bools.{or_swap, or_repeated}

module _ {A : Type 0} (lt : A → A → Bool) where
  -- In order, and once each.
  abbrev pub Ascends : List A → Type 0
  Ascends [] = Unit
  Ascends (a ∷ xs) = All (λ b. lt a b ≡ true) xs × Ascends xs

module _ {A : Type 0} (lt eq : A → A → Bool) where
  unfoldable pub insert_once : A → List A → List A
  insert_once a [] = a ∷ []
  insert_once a (b ∷ xs) =
      if lt a b then a ∷ b ∷ xs else if eq a b then b ∷ xs else b ∷ insert_once a xs

  unfoldable pub sort_once : List A → List A
  unfolding insert_once
  sort_once [] = []
  sort_once (a ∷ xs) = insert_once a (sort_once xs)

  module _ (trans : (a b c : A) → lt a b ≡ true → lt b c ≡ true → lt a c ≡ true)
      (total : (a b : A) → lt a b ≡ false → eq a b ≡ false → lt b a ≡ true) where
    above-All :
        (a b : A) (xs : List A)
        → lt a b ≡ true
        → All (λ c. lt b c ≡ true) xs
        → All (λ c. lt a c ≡ true) xs
    above-All a b [] e h = tt
    above-All a b (c ∷ xs) e (p, h) = (trans a b c e p, above-All a b xs e h)

    All-insert_once :
        (a b : A) (xs : List A)
        → lt a b ≡ true
        → All (λ c. lt a c ≡ true) xs
        → All (λ c. lt a c ≡ true) (insert_once b xs)
    unfolding insert_once
    All-insert_once a b [] e h = (e, tt)
    All-insert_once a b (c ∷ xs) e (p, h) = elim (Bool-cases (lt b c)) [
      | inl f ↦ rw f (e, (p, h))
      | inr f ↦ elim (Bool-cases (eq b c)) [
        | inl g ↦ rw (f, g) (p, h)
        | inr g ↦ rw (f, g) (p, All-insert_once a b xs e h)
      ]
    ]

    insert_once-Ascends : (a : A) (xs : List A) → Ascends lt xs → Ascends lt (insert_once a xs)
    unfolding insert_once
    insert_once-Ascends a [] h = (tt, tt)
    insert_once-Ascends a (b ∷ xs) (above, h) = elim (Bool-cases (lt a b)) [
      | inl f ↦ rw f ((f, above-All a b xs f above), (above, h))
      | inr f ↦ elim (Bool-cases (eq a b)) [
        | inl g ↦ rw (f, g) (above, h)
        | inr g ↦
            rw (f, g) (All-insert_once b a xs (total a b f g) above, insert_once-Ascends a xs h)
      ]
    ]

    pub sort_once-Ascends : (xs : List A) → Ascends lt (sort_once xs)
    unfolding sort_once
    sort_once-Ascends [] = tt
    sort_once-Ascends (a ∷ xs) = insert_once-Ascends a (sort_once xs) (sort_once-Ascends xs)

  module _ (same : (a b : A) → eq a b ≡ true → a ≡ b) (p : A → Bool) where
    any-insert_once : (a : A) (xs : List A) → any p (insert_once a xs) ≡ (p a || any p xs)
    unfolding insert_once
    any-insert_once a [] = refl
    any-insert_once a (b ∷ xs) = elim (Bool-cases (lt a b)) [
      | inl f ↦ rw f refl
      | inr f ↦ elim (Bool-cases (eq a b)) [
        | inl g ↦
            rw (f, g)
              (or_repeated (p b) (any p xs) ∙ ap (λ c. p c || any p (b ∷ xs)) (sym (same a b g)))
        | inr g ↦ rw (f, g, any-insert_once a xs) (or_swap (p b) (p a) (any p xs))
      ]
    ]

    -- What passes a test somewhere in a list does so in the sorted list.
    pub any-sort_once : (xs : List A) → any p (sort_once xs) ≡ any p xs
    unfolding sort_once
    any-sort_once [] = refl
    any-sort_once (a ∷ xs) =
        any-insert_once a (sort_once xs) ∙ ap (λ b. p a || b) (any-sort_once xs)
