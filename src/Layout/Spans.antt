-- ===== src/Layout/Spans.antt =====
-- Sub-segments as spans of positions, and what it is for spans to tile a vector.
use pyg_knowledge_graph_buil.Base.{
  ℕ, ◌+◌, ◌≤◌, ◌≡◌, Bool, ◌&&◌, List, [], ◌∷◌, arith, ltb, leb, if◌then◌else◌,
}

pub record Span : Type 0 where
  pub start : ℕ
  pub width : ℕ

abbrev pub holds : ℕ → Span → Bool
holds i s = leb s.start i && ltb i (s.start + s.width)

-- How many of the spans hold the position `i`.
abbrev pub holders : ℕ → List Span → ℕ
holders i [] = 0
holders i (s ∷ ss) = (if holds i s then 1 else 0) + holders i ss

-- Each span begins where the one before it ends, and none is empty.
abbrev pub Consecutive : ℕ → List Span → ℕ → Type 0
Consecutive a [] b = a ≡ b
Consecutive a (s ∷ ss) b = (s.start ≡ a) × (1 ≤ s.width) × Consecutive (a + s.width) ss b

Consecutive-le : (a b : ℕ) (ss : List Span) → Consecutive a ss b → a ≤ b
Consecutive-le a b [] h = omega arith
Consecutive-le a b (s ∷ ss) h = omega (arith, Consecutive-le (a + s.width) b ss h.2)

holders_lem :
    (a b i : ℕ) (ss : List Span)
    → Consecutive a ss b
    → holders i ss ≡ (if leb a i && ltb i b then 1 else 0)
holders_lem a b i [] h = ground arith
holders_lem a b i (s ∷ ss) h =
    ground (arith, holders_lem (a + s.width) b i ss h.2, Consecutive-le (a + s.width) b ss h.2)

-- Spans that follow one another from 0 hold each position below their end once.
pub holders_from_zero :
    (b i : ℕ) (ss : List Span) → Consecutive 0 ss b → holders i ss ≡ (if ltb i b then 1 else 0)
holders_from_zero b i ss h = ground (arith, holders_lem 0 b i ss h)
