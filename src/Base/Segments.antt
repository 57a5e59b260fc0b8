-- ===== src/Base/Segments.antt =====
-- The segments of a text between separators, described without going through it.
use mathlib.Core.List
use mathlib.Core.Bool.{false≢true}
use pyg_knowledge_graph_buil.Base.Texts.{Text, among, split, text_eq, text_eq_iff}
use Prim.Native.Nat.{ℕ}
use pyg_knowledge_graph_buil.Base.{
  ◌==◌, ◌∷◌, List, [], ◌≡◌, any, ◌⊎◌, ◌↔◌, false, ◌++◌, inl, true, inr, arith, ap, refl, ==_iff,
  sym, ◌∙◌, Bool-cases, subst, Bool, ◌||◌,
}

-- The text is the segment, or the segment with a separator after it and whatever follows.
abbrev pub Begins : ℕ → Text → Text → Type 0
Begins separator segment text =
    (any (λ c. c == separator) segment ≡ false)
    × ((text ≡ segment) ⊎ ((rest : Text) × (text ≡ segment ++ (separator ∷ rest))))

-- The segment stands after a separator of the text, up to the next or the end.
abbrev pub Later : ℕ → Text → Text → Type 0
Later separator segment text =
    (before : Text) × (rest : Text) × (text ≡ before ++ (separator ∷ rest))
    × Begins separator segment rest

-- A whole segment of the text: no separator is in it, and on each side of it is one or the text ends.
abbrev pub Segment : ℕ → Text → Text → Type 0
Segment separator segment text = Begins separator segment text ⊎ Later separator segment text

-- The first part that split returns, and the others.
abbrev Parts : ℕ → Text → Type 0
Parts separator text =
    (first : Text) × (others : List Text) × (split separator text ≡ first ∷ others)
    × ((s : Text) → Begins separator s text ↔ (first ≡ s))
    × ((s : Text) → Later separator s text ↔ (among s others ≡ true))

Begins-empty : (separator : ℕ) (s : Text) → Begins separator s [] ↔ ([] ≡ s)
Begins-empty separator [] = (λ h. refl, λ h. (refl, inl refl))
Begins-empty separator (c ∷ s) = (λ (_, h). elim h [ inl e ↦ cc | inr (rest, e) ↦ cc ], λ h. cc)

Later-empty : (separator : ℕ) (s : Text) → Later separator s [] → ⊥
Later-empty separator s ([], rest, e, h) = cc
Later-empty separator s (c ∷ before, rest, e, h) = cc

-- At a separator the first part is empty.
Begins-separator : (a : ℕ) (text s : Text) → Begins a s (a ∷ text) ↔ ([] ≡ s)
Begins-separator a text [] = (λ h. refl, λ h. (refl, inr (text, refl)))
Begins-separator a text (c ∷ s) = (
  λ (plain, h). elim h [
    | inl e ↦ absurd (head_plain a c s (List.head-eq_of_cons-eq e) plain)
    | inr (rest, e) ↦ absurd (head_plain a c s (List.head-eq_of_cons-eq e) plain)
  ],
  λ h. cc,
)
  where
    head_plain : (a c : ℕ) (s : Text) → a ≡ c → any (λ d. d == a) (c ∷ s) ≡ false → ⊥
    head_plain a c s same plain = ground (arith, (==_iff c a).1 (sym same))

-- Before any other character, the first part grows by it.
Begins-other :
    (separator a : ℕ) (text first s : Text)
    → (a == separator) ≡ false
    → ((t : Text) → Begins separator t text ↔ (first ≡ t))
    → Begins separator s (a ∷ text) ↔ (a ∷ first ≡ s)
Begins-other separator a text first [] other f = (
  λ (_, h). elim h [
    | inl e ↦ cc
    | inr (rest, e) ↦
        absurd (false≢true (sym other ∙ (==_iff a separator).1 (List.head-eq_of_cons-eq e)))
  ],
  λ h. cc,
)
Begins-other separator a text first (c ∷ s) other f = (
  λ (plain, h). elim h [
    | inl e ↦ grow c s (List.head-eq_of_cons-eq e) (
        (f s).0 (
          or_out (c == separator) (any (λ d. d == separator) s) plain,
          inl (List.tail-eq_of_cons-eq e),
        ))
    | inr (rest, e) ↦ grow c s (List.head-eq_of_cons-eq e) (
        (f s).0 (
          or_out (c == separator) (any (λ d. d == separator) s) plain,
          inr (rest, List.tail-eq_of_cons-eq e),
        ))
  ],
  λ h.
      let (plain, form) = (f s).1 (List.tail-eq_of_cons-eq h) in
      let same : c ≡ a = sym (List.head-eq_of_cons-eq h) in
      (
        rw (same, other) plain,
        elim form [
          | inl e ↦ inl (rw (same, e) refl)
          | inr (rest, e) ↦ inr (rest, rw (same, e) refl)
        ],
      ),
)
  where
    grow : (c : ℕ) (s : Text) → a ≡ c → first ≡ s → a ∷ first ≡ c ∷ s
    grow c s same more = cc

    or_out : (x y : Bool) → (x || y) ≡ false → y ≡ false
    or_out x y h = ground arith

Later-separator_cases :
    (a : ℕ) (text s before rest : Text)
    → a ∷ text ≡ before ++ (a ∷ rest)
    → Begins a s rest
    → Begins a s text ⊎ Later a s text
Later-separator_cases a text s [] rest e h =
    inl (subst (Begins a s) (sym (List.tail-eq_of_cons-eq e)) h)
Later-separator_cases a text s (b ∷ before) rest e h =
    inr (before, rest, List.tail-eq_of_cons-eq e, h)

Later-separator :
    (a : ℕ) (text s : Text) → Later a s (a ∷ text) ↔ (Begins a s text ⊎ Later a s text)
Later-separator a text s = (
  λ (before, rest, e, h). Later-separator_cases a text s before rest e h,
  λ h. elim h [
    | inl k ↦ ([], text, refl, k)
    | inr (before, rest, e, k) ↦ (a ∷ before, rest, ap (λ t. a ∷ t) e, k)
  ],
)

Later-other_cases :
    (separator a : ℕ) (text s before rest : Text)
    → (a == separator) ≡ false
    → a ∷ text ≡ before ++ (separator ∷ rest)
    → Begins separator s rest
    → Later separator s text
Later-other_cases separator a text s [] rest other e h =
    absurd (false≢true (sym other ∙ (==_iff a separator).1 (List.head-eq_of_cons-eq e)))
Later-other_cases separator a text s (b ∷ before) rest other e h =
    (before, rest, List.tail-eq_of_cons-eq e, h)

Later-other :
    (separator a : ℕ) (text s : Text)
    → (a == separator) ≡ false
    → Later separator s (a ∷ text) ↔ Later separator s text
Later-other separator a text s other = (
  λ (before, rest, e, h). Later-other_cases separator a text s before rest other e h,
  λ (before, rest, e, h). (a ∷ before, rest, ap (λ t. a ∷ t) e, h),
)

split-Parts : (separator : ℕ) (text : Text) → Parts separator text
unfolding split among
split-Parts separator [] =
    ([], [], refl, Begins-empty separator, λ s. (λ h. absurd (Later-empty separator s h), λ h. cc))
split-Parts separator (a ∷ text) =
    let (first, others, same, begins, later) = split-Parts separator text in
    elim (Bool-cases (a == separator)) [
      | inl e ↦
          let here : a ≡ separator = (==_iff a separator).0 e in
          (
            [],
            first ∷ others,
            rw (e, same) refl,
            λ s.
                subst (λ c. Begins separator s (c ∷ text) ↔ ([] ≡ s)) (sym here)
                  (Begins-separator separator text s),
            λ s.
                subst (λ c. Later separator s (c ∷ text) ↔ (among s (first ∷ others) ≡ true))
                  (sym here)
                  (
                    λ h. elim ((Later-separator separator text s).0 h) [
                      | inl k ↦ ground (arith, (text_eq_iff first s).1 ((begins s).0 k))
                      | inr k ↦ ground (arith, (later s).0 k)
                    ],
                    λ h. (Later-separator separator text s).1 (elim (Bool-cases (text_eq first s)) [
                      | inl f ↦ inl ((begins s).1 ((text_eq_iff first s).0 f))
                      | inr f ↦ inr ((later s).1 (ground arith))
                    ]),
                  ),
          )
      | inr e ↦ (
        a ∷ first,
        others,
        rw (e, same) refl,
        λ s. Begins-other separator a text first s e begins,
        λ s. (
          λ h. (later s).0 ((Later-other separator a text s e).0 h),
          λ h. (Later-other separator a text s e).1 ((later s).1 h),
        ),
      )
    ]

-- The parts that split returns are the segments.
pub among-split :
    (separator : ℕ) (text s : Text)
    → (among s (split separator text) ≡ true) ↔ Segment separator s text
unfolding among
among-split separator text s =
    let (first, others, same, begins, later) = split-Parts separator text in
    rw same (
      λ h. elim (Bool-cases (text_eq first s)) [
        | inl f ↦ inl ((begins s).1 ((text_eq_iff first s).0 f))
        | inr f ↦ inr ((later s).1 (ground arith))
      ],
      λ h. elim h [
        | inl k ↦ ground (arith, (text_eq_iff first s).1 ((begins s).0 k))
        | inr k ↦ ground (arith, (later s).0 k)
      ],
    )
