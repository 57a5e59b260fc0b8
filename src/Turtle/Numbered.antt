-- ===== src/Turtle/Numbered.antt =====
-- spark_jobs/graph/turtle.py: the labels of one group of blank nodes.
use mathlib.Core.List
use pyg_knowledge_graph_buil.Base.{
  ℕ, zero, suc, [], ◌∷◌, false, List, refl, arith, ◌≡◌, ◌≤◌, ◌<◌, ◌+◌, ◌*◌, ◌/◌, ◌%◌, ◌-◌, ◌++◌, ap,
  length, inl, inr, Bool-cases, sym, ◌∙◌, ◌⊎◌, ltb,
}
use pyg_knowledge_graph_buil.Base.Texts.{Text, codes}
use pyg_knowledge_graph_buil.Naming.{take}
use pyg_knowledge_graph_buil.Identifiers.Digits.{value, scale}
use pyg_knowledge_graph_buil.Turtle.Labels.{
  unless_zero, digits_from, decimal, numbered, plain, labels_of_group,
}

step_value : (n q r s v : ℕ) → n ≡ 10 * q + r → q * (10 * s) + (r * s + v) ≡ n * s + v
step_value n q r s v h = rw h (grind arith)

value-unless_zero :
    (n : ℕ) (text more : Text) (v : ℕ)
    → (n ≡ 0 → value text ≡ v)
    → (0 < n → value more ≡ v)
    → value (unless_zero n text more) ≡ v
value-unless_zero zero text more v h k = h refl
value-unless_zero (suc n) text more v h k = k (omega arith)

value-digits_from :
    (fuel n : ℕ) (later : Text)
    → n < fuel
    → value (digits_from fuel n later) ≡ n * scale later + value later
unfolding digits_from
value-digits_from zero n later h = absurd (omega arith)
value-digits_from (suc fuel) n later h =
    let next = (48 + n % 10) ∷ later in
    value-unless_zero (n / 10) next (digits_from fuel (n / 10) next) (n * scale later + value later)
      (λ z. ap (λ d. d * scale later + value later) (omega arith))
      (λ p.
        value-digits_from fuel (n / 10) next (omega arith)
        ∙ step_value n (n / 10) (48 + n % 10 - 48) (scale later) (value later) (omega arith))

value-decimal : (n : ℕ) → value (decimal n) ≡ n
unfolding decimal
value-decimal n = value-digits_from (suc n) n [] (omega arith) ∙ omega arith

pub take-take : (n : ℕ) (s t : Text) → n ≤ length s → take n (take n s ++ t) ≡ take n s
take-take zero s t h = refl
take-take (suc n) [] t h = absurd (omega arith)
take-take (suc n) (c ∷ s) t h = ap (λ r. c ∷ r) (take-take n s t (omega arith))

-- The pairs of a dict.
abbrev pub Has : Text → Text → List (Text × Text) → Type 0
Has id label [] = ⊥
Has id label ((k, l) ∷ labels) = ((k ≡ id) × (l ≡ label)) ⊎ Has id label labels

abbrev pub Injective : List (Text × Text) → Type 0
Injective labels = (a b label : Text) → Has a label labels → Has b label labels → a ≡ b

pub Has-append :
    (id label : Text) (xs ys : List (Text × Text))
    → Has id label (xs ++ ys)
    → Has id label xs ⊎ Has id label ys
Has-append id label [] ys h = inr h
Has-append id label (x ∷ xs) ys (inl h) = inl (inl h)
Has-append id label (x ∷ xs) ys (inr h) = elim (Has-append id label xs ys h) [
  | inl k ↦ inl (inr k)
  | inr k ↦ inr k
]

-- A label of a group has a number from the index on.
Has-numbered :
    (signature id label : Text) (index : ℕ) (ids : List Text)
    → Has id label (numbered signature index ids)
    → (n : ℕ) × (index ≤ n) × (label ≡ take 32 signature ++ (codes "_" ++ decimal n))
unfolding numbered
Has-numbered signature id label index [] h = absurd h
Has-numbered signature id label index (x ∷ ids) (inl (_, same)) = (index, omega arith, sym same)
Has-numbered signature id label index (x ∷ ids) (inr h) =
    let (n, above, form) = Has-numbered signature id label (suc index) ids h in
    (n, omega arith, form)

number_unique :
    (start : Text) (m n : ℕ)
    → start ++ (codes "_" ++ decimal m) ≡ start ++ (codes "_" ++ decimal n)
    → m ≡ n
number_unique start m n h =
    sym (value-decimal m) ∙ ap value (List.tail-eq_of_cons-eq (same_rest start h)) ∙ value-decimal n
  where
    same_rest :
        (s : Text)
        → s ++ (codes "_" ++ decimal m) ≡ s ++ (codes "_" ++ decimal n)
        → codes "_" ++ decimal m ≡ codes "_" ++ decimal n
    same_rest [] e = e
    same_rest (c ∷ s) e = same_rest s (List.tail-eq_of_cons-eq e)

numbered-Injective :
    (signature : Text) (index : ℕ) (ids : List Text) → Injective (numbered signature index ids)
unfolding numbered
numbered-Injective signature index [] a b label h k = absurd h
numbered-Injective signature index (x ∷ ids) a b label (inl (sa, la)) (inl (sb, lb)) = sym sa ∙ sb
numbered-Injective signature index (x ∷ ids) a b label (inr h) (inr k) =
    numbered-Injective signature (suc index) ids a b label h k
numbered-Injective signature index (x ∷ ids) a b label (inl (sa, la)) (inr k) =
    let (n, above, form) = Has-numbered signature b label (suc index) ids k in
    let same = number_unique (take 32 signature) index n (la ∙ form) in absurd (omega arith)
numbered-Injective signature index (x ∷ ids) a b label (inr h) (inl (sb, lb)) =
    let (n, above, form) = Has-numbered signature a label (suc index) ids h in
    let same = number_unique (take 32 signature) index n (lb ∙ form) in absurd (omega arith)

plain-Injective :
    (signature : Text) (ids : List Text)
    → ltb 1 (length ids) ≡ false
    → Injective (plain signature ids)
plain-Injective signature [] short a b label h k = absurd h
plain-Injective signature (x ∷ []) short a b label (inl (sa, _)) (inl (sb, _)) = sym sa ∙ sb
plain-Injective signature (x ∷ []) short a b label (inr h) k = absurd h
plain-Injective signature (x ∷ []) short a b label (inl h) (inr k) = absurd k
plain-Injective signature (x ∷ y ∷ ids) short a b label h k = absurd (ground arith)

pub labels_of_group-Injective :
    (signature : Text) (ids : List Text) → Injective (labels_of_group signature ids)
unfolding labels_of_group
labels_of_group-Injective signature ids = elim (Bool-cases (ltb 1 (length ids))) [
  | inl e ↦ rw e (numbered-Injective signature 0 ids)
  | inr e ↦ rw e (plain-Injective signature ids e)
]

Has-plain :
    (signature id label : Text) (ids : List Text)
    → Has id label (plain signature ids)
    → label ≡ take 32 signature
Has-plain signature id label [] h = absurd h
Has-plain signature id label (x ∷ ids) (inl (_, same)) = sym same
Has-plain signature id label (x ∷ ids) (inr h) = Has-plain signature id label ids h

-- Every label begins with what is kept of the group's signature.
pub Has-labels_of_group :
    (signature id label : Text) (ids : List Text)
    → Has id label (labels_of_group signature ids)
    → (rest : Text) × (label ≡ take 32 signature ++ rest)
unfolding labels_of_group
Has-labels_of_group signature id label ids h = elim (Bool-cases (ltb 1 (length ids))) [
  | inl e ↦
      let (n, _, form) = Has-numbered signature id label 0 ids (rw e at h) in
      (codes "_" ++ decimal n, form)
  | inr e ↦
      ([], Has-plain signature id label ids (rw e at h) ∙ sym (List.append-nil (take 32 signature)))
]
