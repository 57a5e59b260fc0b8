-- ===== src/Layout/Edge/Tiling.antt =====
-- The sub-segments of an edge feature vector tile it, for each width but 10.
use pyg_knowledge_graph_buil.Base.{
  ℕ, ◌≤◌, ◌+◌, ◌*◌, ◌≡◌, arith, true, &&-intro, eq→==, ◌-◌, le→leb, ◌≢◌, refl, if◌then◌else◌,
  not_ltb, ltb, ◌==◌, some, none, not_==, Bool-cases, inl, inr, ltb-false→le,
}
use pyg_knowledge_graph_buil.Layout.Edge.{
  place, validate, spans, EdgeVectorLayout, first_frac, edge_seg1_frac, second_frac,
  edge_vector_layout, edge_seg2_frac, ok, raise, vector_dim_too_small, assertion_failed,
}
use pyg_knowledge_graph_buil.Layout.Node.{share, donor, remainder}
use native.Mathlib.Decide.{ℕ_discrete, dec_lt}
use pyg_knowledge_graph_buil.Layout.Spans.{Consecutive, holders, holders_from_zero}
use pyg_knowledge_graph_buil.Layout.Node.Tiling.{fill, share-IsShare, share_pos}
use pyg_knowledge_graph_buil.Base.Result.{error_of}

segment_bounds :
    (n : ℕ) → 11 ≤ n → (3 ≤ share n edge_seg1_frac) × (share n edge_seg1_frac * 2 + 2 ≤ n)
segment_bounds n h =
    let e = share-IsShare n edge_seg1_frac (omega arith) in (omega arith, omega arith)

first_share : (s : ℕ) → 3 ≤ s → share s first_frac + 2 ≤ s
first_share s h = let e = share-IsShare s first_frac (omega arith) in omega arith

-- At 12 the product is a tie, and goes down to the even 4.
segment_of_12 : share 12 edge_seg1_frac ≡ 4
unfolding share
segment_of_12 = refl

wide_unless_12 : (n : ℕ) → 11 ≤ n → n ≢ 12 → share n edge_seg1_frac * 2 + 3 ≤ n
wide_unless_12 n h other = let e = share-IsShare n edge_seg1_frac (omega arith) in omega arith

-- From 11 dims on the last segment has room for its three parts.
last_segment : (n : ℕ) → 11 ≤ n → share n edge_seg1_frac * 2 + 3 ≤ n
last_segment n h = elim (ℕ_discrete n 12) [
  | yes e ↦ rw (e, segment_of_12) (omega arith)
  | no other ↦ wide_unless_12 n h other
]

place-Consecutive :
    (n seg1 seg2 : ℕ)
    → 3 ≤ seg1
    → 3 ≤ seg2
    → seg1 + seg2 + 3 ≤ n
    → Consecutive 0 (spans (place n seg1 seg2)) n
unfolding place
place-Consecutive n seg1 seg2 a b c =
    let part = λ (s : ℕ) (h : 3 ≤ s).
      fill s (share s first_frac) (share s second_frac) (first_share s h)
        (share_pos s second_frac) in
    let x = part seg1 a in
    let y = part seg2 b in
    let z = part (n - seg1 - seg2) (omega arith) in
    let p = share_pos seg1 first_frac in
    let q = share_pos seg2 first_frac in
    let r = share_pos (n - seg1 - seg2) first_frac in omega arith

validate-Consecutive :
    (l : EdgeVectorLayout)
    → 1 ≤ l.edge_vector_dim
    → Consecutive 0 (spans l) l.edge_vector_dim
    → validate l ≡ true
unfolding validate
validate-Consecutive l pos h = search (&&-intro, eq→==, le→leb, arith) depth 40

-- Every position of the vector lies in exactly one sub-segment, none of which is empty.
pub record IsTiled (n : ℕ) (l : EdgeVectorLayout) : Type 0 where
  pub whole : l.edge_vector_dim ≡ n
  pub consecutive : Consecutive 0 (spans l) n
  pub once : (i : ℕ) → holders i (spans l) ≡ (if ltb i n then 1 else 0)

abbrev placed : ℕ → EdgeVectorLayout
placed n = place n (share n edge_seg1_frac) (share n edge_seg2_frac)

placed-IsTiled : (n : ℕ) → Consecutive 0 (spans (placed n)) n → IsTiled n (placed n)
unfolding place
placed-IsTiled n tiles = record {
  whole = refl;
  consecutive = tiles;
  once = λ i. holders_from_zero n i (spans (placed n)) tiles;
}

placed_dim : (n : ℕ) → (placed n).edge_vector_dim ≡ n
unfolding place
placed_dim n = refl

returns :
    (n : ℕ)
    → 9 ≤ n
    → 1 ≤ n - share n edge_seg1_frac - share n edge_seg2_frac
    → Consecutive 0 (spans (placed n)) n
    → (l : EdgeVectorLayout) × (edge_vector_layout n ≡ ok l) × IsTiled n l
unfolding edge_vector_layout
returns n h left tiles =
    let valid =
      validate-Consecutive (placed n) (rw placed_dim (omega arith)) (rw placed_dim tiles) in
    (placed n, rw (not_ltb n 9 h, not_ltb _ 1 left, valid) refl, placed-IsTiled n tiles)

nine_left : 1 ≤ 9 - share 9 edge_seg1_frac - share 9 edge_seg2_frac
unfolding share
nine_left = omega arith

nine_tiles : Consecutive 0 (spans (placed 9)) 9
unfolding place share donor remainder
nine_tiles = omega arith

-- A layout is built, and tiles the vector, for 9 dims and for every number from 11 on.
pub edge_vector_layout-total :
    (n : ℕ) → 9 ≤ n → n ≢ 10 → (l : EdgeVectorLayout) × (edge_vector_layout n ≡ ok l) × IsTiled n l
edge_vector_layout-total n h other = elim (dec_lt n 11) [
  | yes small ↦ let e : n ≡ 9 = omega arith in rw e (returns 9 (omega arith) nine_left nine_tiles)
  | no large ↦
      let room = last_segment n (omega arith) in
      let wide = segment_bounds n (omega arith) in
      returns n h (omega arith) (
        place-Consecutive n (share n edge_seg1_frac) (share n edge_seg2_frac) (omega arith)
          (omega arith) (omega arith))
]

raises_small : (n : ℕ) → ltb n 9 ≡ true → edge_vector_layout n ≡ raise vector_dim_too_small
unfolding edge_vector_layout
raises_small n h = rw h

-- At 10 dims each of the first two segments takes 4, and the third has 2 dims for three parts.
raises_at_10 : edge_vector_layout 10 ≡ raise assertion_failed
unfolding edge_vector_layout place share donor remainder validate
raises_at_10 = refl

accepts_or_fails :
    (n : ℕ)
    → 9 ≤ n
    → error_of (edge_vector_layout n) ≡ (if n == 10 then some assertion_failed else none)
accepts_or_fails n h = elim (ℕ_discrete n 10) [
  | yes e ↦ rw (e, raises_at_10)
  | no other ↦ let (l, e, _) = edge_vector_layout-total n h other in rw (e, not_== n 10 other)
]

-- `EdgeVectorLayout` raises its `ValueError` for a vector under 9 dims, and an assertion of
-- `_validate` fails for 10 dims. It raises nothing else.
pub error_of-edge_vector_layout :
    (n : ℕ)
    → error_of (edge_vector_layout n) ≡ (
        if ltb n 9
        then some vector_dim_too_small
        else if n == 10
        then some assertion_failed
        else none)
error_of-edge_vector_layout n = elim (Bool-cases (ltb n 9)) [
  | inl small ↦ rw (small, raises_small n small)
  | inr large ↦ rw large (accepts_or_fails n (ltb-false→le n 9 large))
]
