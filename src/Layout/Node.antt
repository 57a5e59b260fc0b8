-- ===== src/Layout/Node.antt =====
-- spark_jobs/pyg_builder/vector_layout.py: the segments of a node feature vector. A width that
-- Python would leave negative is below 1 here too, as 0, and takes the same branch. A negative
-- argument fails the first test of `__init__`, or the override's, as 0 does.
pub mod Tiling
pub mod Override
use pyg_knowledge_graph_buil.Base.{
  ℕ, ◌+◌, ◌-◌, Bool, ◌&&◌, Option, none, some, List, [], ◌∷◌, max, ltb, leb, ◌==◌, if◌then◌else◌,
  all,
}
use pyg_knowledge_graph_buil.Base.Result.{Result, ok, raise, ◌>>=◌}
use pyg_knowledge_graph_buil.Layout.Rounding.{Constant, round_scaled}
use pyg_knowledge_graph_buil.Layout.Spans.{Span}

abbrev pub seg1_frac : Constant
seg1_frac = record { num = 1; den = 4 }

abbrev pub seg2_frac : Constant
seg2_frac = record { num = 3; den = 8 }

abbrev pub class_identity_frac : Constant
class_identity_frac = record { num = 5; den = 8 }

abbrev pub class_hierarchy_frac : Constant
class_hierarchy_frac = record { num = 3; den = 16 }

abbrev pub property_presence_frac : Constant
property_presence_frac = record { num = 1; den = 2 }

-- the double written 0.29
abbrev pub domain_range_frac : Constant
domain_range_frac = record { num = 5224175567749775; den = 18014398509481984 }

-- the double written 0.67
abbrev pub numeric_frac : Constant
numeric_frac = record { num = 6034823500676465; den = 9007199254740992 }

pub data LayoutError : Type 0 where
  vector_dim_too_small segment_too_small identity_does_not_fit assertion_failed : LayoutError

pub record VectorLayout : Type 0 where
  pub vector_dim : ℕ
  pub seg1_start : ℕ
  pub seg1_total : ℕ
  pub seg2_start : ℕ
  pub seg2_total : ℕ
  pub seg3_start : ℕ
  pub seg3_total : ℕ
  pub seg1_class_identity_start : ℕ
  pub seg1_class_identity_dim : ℕ
  pub seg1_class_hierarchy_start : ℕ
  pub seg1_class_hierarchy_dim : ℕ
  pub seg1_ontology_source_start : ℕ
  pub seg1_ontology_source_dim : ℕ
  pub seg2_property_presence_start : ℕ
  pub seg2_property_presence_dim : ℕ
  pub seg2_domain_range_start : ℕ
  pub seg2_domain_range_dim : ℕ
  pub seg2_property_hierarchy_start : ℕ
  pub seg2_property_hierarchy_dim : ℕ
  pub seg3_numeric_start : ℕ
  pub seg3_numeric_dim : ℕ
  pub seg3_categorical_start : ℕ
  pub seg3_categorical_dim : ℕ

-- `max(1, int(round(total * frac)))`
unfoldable pub share : ℕ → Constant → ℕ
unfolding round_scaled
share total frac = max 1 (round_scaled total frac)

-- The last sub-segment takes what the others leave, and at least one dim.
unfoldable pub remainder : ℕ → ℕ → ℕ
remainder total others = let rest = total - others in if ltb rest 1 then 1 else rest

-- The sub-segment before it gives that dim up where nothing was left.
unfoldable pub donor : ℕ → ℕ → ℕ → ℕ
unfolding remainder
donor total first second =
    if ltb (total - (first + second)) 1
    then total - first - remainder total (first + second)
    else second

-- The width of class_identity: the override, if it fits, or its share.
unfoldable pub identity_width : ℕ → Option ℕ → Result LayoutError ℕ
unfolding share
identity_width seg1_total none = ok (share seg1_total class_identity_frac)
identity_width seg1_total (some dim) =
    if leb 1 dim && leb (dim + 2) seg1_total then ok dim else raise identity_does_not_fit

unfoldable pub place : ℕ → ℕ → ℕ → ℕ → VectorLayout
unfolding share remainder donor
place n seg1 seg2 ci =
    let seg3 : ℕ = n - seg1 - seg2 in
    let ch : ℕ = share seg1 class_hierarchy_frac in
    let pp : ℕ = share seg2 property_presence_frac in
    let dr : ℕ = share seg2 domain_range_frac in
    let num : ℕ = share seg3 numeric_frac in
    record {
      vector_dim = n;
      seg1_start = 0;
      seg1_total = seg1;
      seg2_start = seg1;
      seg2_total = seg2;
      seg3_start = seg1 + seg2;
      seg3_total = seg3;
      seg1_class_identity_start = 0;
      seg1_class_identity_dim = ci;
      seg1_class_hierarchy_start = 0 + ci;
      seg1_class_hierarchy_dim = donor seg1 ci ch;
      seg1_ontology_source_start = 0 + ci + donor seg1 ci ch;
      seg1_ontology_source_dim = remainder seg1 (ci + ch);
      seg2_property_presence_start = seg1;
      seg2_property_presence_dim = pp;
      seg2_domain_range_start = seg1 + pp;
      seg2_domain_range_dim = donor seg2 pp dr;
      seg2_property_hierarchy_start = seg1 + pp + donor seg2 pp dr;
      seg2_property_hierarchy_dim = remainder seg2 (pp + dr);
      seg3_numeric_start = seg1 + seg2;
      seg3_numeric_dim = donor seg3 0 num;
      seg3_categorical_start = seg1 + seg2 + donor seg3 0 num;
      seg3_categorical_dim = remainder seg3 num;
    }

-- `_validate`: whether every assertion holds.
unfoldable pub validate : VectorLayout → Bool
validate l =
    l.seg1_class_identity_dim + l.seg1_class_hierarchy_dim + l.seg1_ontology_source_dim
        + l.seg2_property_presence_dim + l.seg2_domain_range_dim + l.seg2_property_hierarchy_dim
        + l.seg3_numeric_dim + l.seg3_categorical_dim
      == l.vector_dim
    && l.seg1_class_identity_start == 0
    && l.seg1_class_hierarchy_start == l.seg1_class_identity_start + l.seg1_class_identity_dim
    && l.seg1_ontology_source_start == l.seg1_class_hierarchy_start + l.seg1_class_hierarchy_dim
    && l.seg2_property_presence_start == l.seg1_ontology_source_start + l.seg1_ontology_source_dim
    && l.seg2_domain_range_start == l.seg2_property_presence_start + l.seg2_property_presence_dim
    && l.seg2_property_hierarchy_start == l.seg2_domain_range_start + l.seg2_domain_range_dim
    && l.seg3_numeric_start == l.seg2_property_hierarchy_start + l.seg2_property_hierarchy_dim
    && l.seg3_categorical_start == l.seg3_numeric_start + l.seg3_numeric_dim
    && l.seg3_categorical_start + l.seg3_categorical_dim == l.vector_dim
    && all (leb 1) (
        l.vector_dim ∷ l.seg1_class_identity_dim ∷ l.seg1_class_hierarchy_dim
        ∷ l.seg1_ontology_source_dim ∷ l.seg2_property_presence_dim ∷ l.seg2_domain_range_dim
        ∷ l.seg2_property_hierarchy_dim ∷ l.seg3_numeric_dim ∷ l.seg3_categorical_dim ∷ [])

-- `VectorLayout(vector_dim, class_identity_dim)`
unfoldable pub vector_layout : ℕ → Option ℕ → Result LayoutError VectorLayout
vector_layout vector_dim class_identity_dim =
    let seg1 : ℕ = share vector_dim seg1_frac in
    let seg2 : ℕ = share vector_dim seg2_frac in
    if ltb vector_dim 32
    then raise vector_dim_too_small
    else if ltb (vector_dim - seg1 - seg2) 1
    then raise segment_too_small
    else (do
      ci ← identity_width seg1 class_identity_dim
      let l = place vector_dim seg1 seg2 ci
      if validate l then ok l else raise assertion_failed)

-- The sub-segments in the order that the vector holds them.
abbrev pub spans : VectorLayout → List Span
spans l =
    record { start = l.seg1_class_identity_start; width = l.seg1_class_identity_dim }
    ∷ record { start = l.seg1_class_hierarchy_start; width = l.seg1_class_hierarchy_dim }
    ∷ record { start = l.seg1_ontology_source_start; width = l.seg1_ontology_source_dim }
    ∷ record { start = l.seg2_property_presence_start; width = l.seg2_property_presence_dim }
    ∷ record { start = l.seg2_domain_range_start; width = l.seg2_domain_range_dim }
    ∷ record { start = l.seg2_property_hierarchy_start; width = l.seg2_property_hierarchy_dim }
    ∷ record { start = l.seg3_numeric_start; width = l.seg3_numeric_dim }
    ∷ record { start = l.seg3_categorical_start; width = l.seg3_categorical_dim }
    ∷ []
