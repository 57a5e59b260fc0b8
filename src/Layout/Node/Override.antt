-- ===== src/Layout/Node/Override.antt =====
-- What `feature_config.class_identity_dim` changes in a layout, and what `VectorLayout` refuses.
use pyg_knowledge_graph_buil.Base.{
  ℕ, Option, some, ◌≡◌, none, if◌then◌else◌, leb, ltb, ◌&&◌, ◌+◌, Bool-cases, arith, inl, ◌≤◌, inr,
  true, refl, false, ltb-false→le, &&_iff, not_ltb, leb→le,
}
use pyg_knowledge_graph_buil.Layout.Node.{
  LayoutError, vector_layout, place, VectorLayout, identity_width, share, seg1_frac, seg2_frac,
  vector_dim_too_small, identity_does_not_fit,
}
use pyg_knowledge_graph_buil.Base.Result.{ok, error_of}
use pyg_knowledge_graph_buil.Layout.Node.Tiling.{
  identity_of, OverrideFits, vector_layout-total, segment3_left,
}

-- A layout that is returned is the one that the widths place.
vector_layout-place :
    (n : ℕ) (c : Option ℕ) (l : VectorLayout)
    → vector_layout n c ≡ ok l
    → l ≡ place n (share n seg1_frac) (share n seg2_frac) (identity_of n c)
unfolding vector_layout identity_width
vector_layout-place n none l h = ground arith
vector_layout-place n (some dim) l h = ground arith

-- Everything outside segment 1, and where each of its two other parts ends up.
pub record SameOutside (dim : ℕ) (l m : VectorLayout) : Type 0 where
  pub identity : m.seg1_class_identity_dim ≡ dim
  pub vector_dim : m.vector_dim ≡ l.vector_dim
  pub seg1_total : m.seg1_total ≡ l.seg1_total
  pub seg2_start : m.seg2_start ≡ l.seg2_start
  pub seg2_total : m.seg2_total ≡ l.seg2_total
  pub seg3_start : m.seg3_start ≡ l.seg3_start
  pub seg3_total : m.seg3_total ≡ l.seg3_total
  pub presence_start : m.seg2_property_presence_start ≡ l.seg2_property_presence_start
  pub presence_dim : m.seg2_property_presence_dim ≡ l.seg2_property_presence_dim
  pub domain_range_start : m.seg2_domain_range_start ≡ l.seg2_domain_range_start
  pub domain_range_dim : m.seg2_domain_range_dim ≡ l.seg2_domain_range_dim
  pub hierarchy_start : m.seg2_property_hierarchy_start ≡ l.seg2_property_hierarchy_start
  pub hierarchy_dim : m.seg2_property_hierarchy_dim ≡ l.seg2_property_hierarchy_dim
  pub numeric_start : m.seg3_numeric_start ≡ l.seg3_numeric_start
  pub numeric_dim : m.seg3_numeric_dim ≡ l.seg3_numeric_dim
  pub categorical_start : m.seg3_categorical_start ≡ l.seg3_categorical_start
  pub categorical_dim : m.seg3_categorical_dim ≡ l.seg3_categorical_dim

place-SameOutside : (n a b ci dim : ℕ) → SameOutside dim (place n a b ci) (place n a b dim)
unfolding place
place-SameOutside n a b ci dim = record {
  identity = refl;
  vector_dim = refl;
  seg1_total = refl;
  seg2_start = refl;
  seg2_total = refl;
  seg3_start = refl;
  seg3_total = refl;
  presence_start = refl;
  presence_dim = refl;
  domain_range_start = refl;
  domain_range_dim = refl;
  hierarchy_start = refl;
  hierarchy_dim = refl;
  numeric_start = refl;
  numeric_dim = refl;
  categorical_start = refl;
  categorical_dim = refl;
}

-- An override is the width of class_identity, and moves no boundary outside segment 1.
pub vector_layout-SameOutside :
    (n dim : ℕ) (l m : VectorLayout)
    → vector_layout n none ≡ ok l
    → vector_layout n (some dim) ≡ ok m
    → SameOutside dim l m
vector_layout-SameOutside n dim l m p q =
    rw (vector_layout-place n none l p, vector_layout-place n (some dim) m q)
      (place-SameOutside n _ _ _ dim)

-- The exception that an override earns, if any.
abbrev pub refusal : ℕ → Option ℕ → Option LayoutError
refusal n none = none
refusal n (some dim) =
    if leb 1 dim && leb (dim + 2) (share n seg1_frac) then none else some identity_does_not_fit

raises_small :
    (n : ℕ) (c : Option ℕ)
    → ltb n 32 ≡ true
    → error_of (vector_layout n c) ≡ some vector_dim_too_small
unfolding vector_layout
raises_small n c h = rw h

raises_misfit :
    (n dim : ℕ)
    → 32 ≤ n
    → (leb 1 dim && leb (dim + 2) (share n seg1_frac)) ≡ false
    → error_of (vector_layout n (some dim)) ≡ some identity_does_not_fit
unfolding vector_layout identity_width
raises_misfit n dim h misfit = rw (not_ltb n 32 h, segment3_left n h, misfit)

returns : (n : ℕ) (c : Option ℕ) → 32 ≤ n → OverrideFits n c → error_of (vector_layout n c) ≡ none
returns n c h fits = let (l, e, _) = vector_layout-total n c h fits in rw e

accepts_or_refuses : (n : ℕ) (c : Option ℕ) → 32 ≤ n → error_of (vector_layout n c) ≡ refusal n c
accepts_or_refuses n none h = returns n none h tt
accepts_or_refuses n (some dim) h =
    elim (Bool-cases (leb 1 dim && leb (dim + 2) (share n seg1_frac))) [
      | inl fits ↦
          let (a, b) = (&&_iff _ _).0 fits in
          rw fits (returns n (some dim) h (leb→le _ _ a, leb→le _ _ b))
      | inr misfit ↦ rw misfit (raises_misfit n dim h misfit)
    ]

-- `VectorLayout` raises for a vector under 32 dims, and for an override that leaves segment 1 no
-- two dims or has none itself. It raises nothing else: no assertion of `_validate` fails.
pub error_of-vector_layout :
    (n : ℕ) (c : Option ℕ)
    → error_of (vector_layout n c) ≡ (if ltb n 32 then some vector_dim_too_small else refusal n c)
error_of-vector_layout n c = elim (Bool-cases (ltb n 32)) [
  | inl small ↦ rw small (raises_small n c small)
  | inr large ↦ rw large (accepts_or_refuses n c (ltb-false→le n 32 large))
]
