-- ===== src/Layout/Node/Tiling.antt =====
-- The sub-segments of a node feature vector tile it.
use pyg_knowledge_graph_buil.Base.{
  ℕ, ◌+◌, ◌-◌, ◌*◌, ◌≤◌, ◌<◌, ◌≡◌, ◌⊎◌, refl, true, &&-intro, eq→==, le→leb, not_ltb, Option, none,
  some, arith, ltb, if◌then◌else◌, false,
}
use pyg_knowledge_graph_buil.Base.Result.{ok}
use pyg_knowledge_graph_buil.Layout.Rounding.{
  Constant, round_scaled, IsRounded, round_scaled-IsRounded,
}
use pyg_knowledge_graph_buil.Layout.Spans.{Consecutive, holders, holders_from_zero}
use pyg_knowledge_graph_buil.Layout.Node.{
  seg1_frac, seg2_frac, class_hierarchy_frac, domain_range_frac, numeric_frac, class_identity_frac,
  property_presence_frac, vector_layout, validate, place, share, remainder, donor, VectorLayout,
  spans, identity_width,
}

pub record IsShare (total : ℕ) (frac : Constant) (r : ℕ) : Type 0 where
  pub rounded : ℕ
  pub bounds : IsRounded total frac rounded
  pub ge : rounded ≤ r
  pub pos : 1 ≤ r
  pub le : (r ≡ 1) ⊎ (r ≡ rounded)

pub share-IsShare :
    (total : ℕ) (frac : Constant) → 0 < frac.den → IsShare total frac (share total frac)
unfolding share
share-IsShare total frac h = record {
  rounded = round_scaled total frac;
  bounds = round_scaled-IsRounded total frac h;
  ge = omega arith;
  pos = omega arith;
  le = omega arith;
}

seg1_bounds : (n : ℕ) → 32 ≤ n → (8 ≤ share n seg1_frac) × (share n seg1_frac * 3 ≤ n)
seg1_bounds n h = let e = share-IsShare n seg1_frac (omega arith) in (omega arith, omega arith)

seg2_bounds : (n : ℕ) → 32 ≤ n → (12 ≤ share n seg2_frac) × (share n seg2_frac * 5 ≤ n * 2)
seg2_bounds n h = let e = share-IsShare n seg2_frac (omega arith) in (omega arith, omega arith)

identity_share : (s : ℕ) → 8 ≤ s → share s class_identity_frac + 2 ≤ s
identity_share s h = let e = share-IsShare s class_identity_frac (omega arith) in omega arith

presence_share : (s : ℕ) → 12 ≤ s → share s property_presence_frac + 2 ≤ s
presence_share s h = let e = share-IsShare s property_presence_frac (omega arith) in omega arith

pub share_pos : (total : ℕ) (frac : Constant) → 1 ≤ share total frac
unfolding share
share_pos total frac = omega arith

-- Two shares and a remainder fill a segment.
pub fill :
    (total first second : ℕ)
    → first + 2 ≤ total
    → 1 ≤ second
    → (1 ≤ donor total first second)
      × (1 ≤ remainder total (first + second))
      × (first + donor total first second + remainder total (first + second) ≡ total)
unfolding donor remainder
fill total first second h k = ground arith

fill_last :
    (total second : ℕ)
    → 2 ≤ total
    → 1 ≤ second
    → (1 ≤ donor total 0 second)
      × (1 ≤ remainder total second)
      × (donor total 0 second + remainder total second ≡ total)
unfolding donor remainder
fill_last total second h k = ground arith

-- The override, where one is given, leaves two dims of segment 1.
abbrev pub OverrideFits : ℕ → Option ℕ → Type 0
OverrideFits n none = Unit
OverrideFits n (some dim) = (1 ≤ dim) × (dim + 2 ≤ share n seg1_frac)

place-Consecutive :
    (n seg1 seg2 ci : ℕ)
    → 8 ≤ seg1
    → 12 ≤ seg2
    → seg1 + seg2 + 2 ≤ n
    → 1 ≤ ci
    → ci + 2 ≤ seg1
    → Consecutive 0 (spans (place n seg1 seg2 ci)) n
unfolding place
place-Consecutive n seg1 seg2 ci a b c d e =
    let h =
      fill seg1 ci (share seg1 class_hierarchy_frac) e (share_pos seg1 class_hierarchy_frac) in
    let k =
      fill seg2 (share seg2 property_presence_frac) (share seg2 domain_range_frac)
        (presence_share seg2 b) (share_pos seg2 domain_range_frac) in
    let m =
      fill_last (n - seg1 - seg2) (share (n - seg1 - seg2) numeric_frac) (omega arith)
        (share_pos (n - seg1 - seg2) numeric_frac) in
    let p = share_pos seg2 property_presence_frac in omega arith

-- The assertions of `_validate` say that the sub-segments tile the vector.
validate-Consecutive :
    (l : VectorLayout) → 1 ≤ l.vector_dim → Consecutive 0 (spans l) l.vector_dim → validate l ≡ true
unfolding validate
validate-Consecutive l pos h = search (&&-intro, eq→==, le→leb, arith) depth 40

-- Every position of the vector lies in exactly one sub-segment, none of which is empty.
pub record IsTiled (n : ℕ) (l : VectorLayout) : Type 0 where
  pub whole : l.vector_dim ≡ n
  pub consecutive : Consecutive 0 (spans l) n
  pub once : (i : ℕ) → holders i (spans l) ≡ (if ltb i n then 1 else 0)

place-IsTiled :
    (n ci : ℕ)
    → 32 ≤ n
    → 1 ≤ ci
    → ci + 2 ≤ share n seg1_frac
    → let l = place n (share n seg1_frac) (share n seg2_frac) ci in
      (validate l ≡ true) × IsTiled n l
unfolding place
place-IsTiled n ci h pos fits =
    let l = place n (share n seg1_frac) (share n seg2_frac) ci in
    let (a, b) = seg1_bounds n h in
    let (c, d) = seg2_bounds n h in
    let tiles =
      place-Consecutive n (share n seg1_frac) (share n seg2_frac) ci a c (omega arith) pos fits in
    (
      validate-Consecutive l (omega arith) tiles,
      record {
        whole = refl;
        consecutive = tiles;
        once = λ i. holders_from_zero n i (spans l) tiles;
      },
    )

-- The width that class_identity gets.
abbrev pub identity_of : ℕ → Option ℕ → ℕ
identity_of n none = share (share n seg1_frac) class_identity_frac
identity_of n (some dim) = dim

identity_width-fits :
    (n : ℕ) (c : Option ℕ)
    → 32 ≤ n
    → OverrideFits n c
    → (identity_width (share n seg1_frac) c ≡ ok (identity_of n c))
      × (1 ≤ identity_of n c)
      × (identity_of n c + 2 ≤ share n seg1_frac)
unfolding identity_width
identity_width-fits n none h fits = (
  refl,
  share_pos (share n seg1_frac) class_identity_frac,
  identity_share (share n seg1_frac) (seg1_bounds n h).0,
)
identity_width-fits n (some dim) h fits =
    (rw (&&-intro (le→leb _ _ fits.0) (le→leb _ _ fits.1)), fits.0, fits.1)

pub segment3_left : (n : ℕ) → 32 ≤ n → ltb (n - share n seg1_frac - share n seg2_frac) 1 ≡ false
segment3_left n h = not_ltb _ 1 (omega (arith, seg1_bounds n h, seg2_bounds n h))

-- A layout is built whenever the vector has 32 dims and an override fits.
pub vector_layout-total :
    (n : ℕ) (c : Option ℕ)
    → 32 ≤ n
    → OverrideFits n c
    → (l : VectorLayout) × (vector_layout n c ≡ ok l) × IsTiled n l
unfolding vector_layout
vector_layout-total n c h fits =
    let (e, pos, room) = identity_width-fits n c h fits in
    let (valid, tiled) = place-IsTiled n (identity_of n c) h pos room in
    (
      place n (share n seg1_frac) (share n seg2_frac) (identity_of n c),
      rw (not_ltb n 32 h, segment3_left n h, e, valid) refl,
      tiled,
    )
