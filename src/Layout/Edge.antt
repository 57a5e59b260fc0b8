-- ===== src/Layout/Edge.antt =====
-- spark_jobs/pyg_builder/edge_vector_layout.py: the segments of an edge feature vector, from the same
-- `max(1, int(round(...)))` shares, remainders and donors as the node layout's. A width that Python
-- would leave negative is 0 here, which fails the same tests.
pub mod Tiling
use pyg_knowledge_graph_buil.Base.{
  ℕ, ◌+◌, ◌-◌, Bool, ◌&&◌, List, [], ◌∷◌, ltb, leb, ◌==◌, if◌then◌else◌, all,
}
use pyg_knowledge_graph_buil.Base.Result.{Result, ok, raise}
use pyg_knowledge_graph_buil.Layout.Rounding.{Constant}
use pyg_knowledge_graph_buil.Layout.Spans.{Span}
use pyg_knowledge_graph_buil.Layout.Node.{
  LayoutError, vector_dim_too_small, segment_too_small, assertion_failed, share, remainder, donor,
}

abbrev pub edge_seg1_frac : Constant
edge_seg1_frac = record { num = 3; den = 8 }

abbrev pub edge_seg2_frac : Constant
edge_seg2_frac = record { num = 3; den = 8 }

-- the double written 0.40, of each segment's first part
abbrev pub first_frac : Constant
first_frac = record { num = 3602879701896397; den = 9007199254740992 }

-- the double written 0.35, of each segment's second part
abbrev pub second_frac : Constant
second_frac = record { num = 3152519739159347; den = 9007199254740992 }

pub record EdgeVectorLayout : Type 0 where
  pub edge_vector_dim : ℕ
  pub seg1_start : ℕ
  pub seg1_total : ℕ
  pub seg2_start : ℕ
  pub seg2_total : ℕ
  pub seg3_start : ℕ
  pub seg3_total : ℕ
  pub seg1_time_delta_start : ℕ
  pub seg1_time_delta_dim : ℕ
  pub seg1_period_flags_start : ℕ
  pub seg1_period_flags_dim : ℕ
  pub seg1_direction_start : ℕ
  pub seg1_direction_dim : ℕ
  pub seg2_difference_start : ℕ
  pub seg2_difference_dim : ℕ
  pub seg2_ratio_start : ℕ
  pub seg2_ratio_dim : ℕ
  pub seg2_magnitude_start : ℕ
  pub seg2_magnitude_dim : ℕ
  pub seg3_namespace_start : ℕ
  pub seg3_namespace_dim : ℕ
  pub seg3_label_similarity_start : ℕ
  pub seg3_label_similarity_dim : ℕ
  pub seg3_relation_identity_start : ℕ
  pub seg3_relation_identity_dim : ℕ

unfoldable pub place : ℕ → ℕ → ℕ → EdgeVectorLayout
place n seg1 seg2 =
    let seg3 : ℕ = n - seg1 - seg2 in
    let start3 : ℕ = seg1 + seg2 in
    let a1 : ℕ = share seg1 first_frac in
    let b1 : ℕ = share seg1 second_frac in
    let c1 : ℕ = donor seg1 a1 b1 in
    let a2 : ℕ = share seg2 first_frac in
    let b2 : ℕ = share seg2 second_frac in
    let c2 : ℕ = donor seg2 a2 b2 in
    let a3 : ℕ = share seg3 first_frac in
    let b3 : ℕ = share seg3 second_frac in
    let c3 : ℕ = donor seg3 a3 b3 in
    record {
      edge_vector_dim = n;
      seg1_start = 0;
      seg1_total = seg1;
      seg2_start = seg1;
      seg2_total = seg2;
      seg3_start = start3;
      seg3_total = seg3;
      seg1_time_delta_start = 0;
      seg1_time_delta_dim = a1;
      seg1_period_flags_start = 0 + a1;
      seg1_period_flags_dim = c1;
      seg1_direction_start = 0 + a1 + c1;
      seg1_direction_dim = remainder seg1 (a1 + b1);
      seg2_difference_start = seg1;
      seg2_difference_dim = a2;
      seg2_ratio_start = seg1 + a2;
      seg2_ratio_dim = c2;
      seg2_magnitude_start = seg1 + a2 + c2;
      seg2_magnitude_dim = remainder seg2 (a2 + b2);
      seg3_namespace_start = start3;
      seg3_namespace_dim = a3;
      seg3_label_similarity_start = start3 + a3;
      seg3_label_similarity_dim = c3;
      seg3_relation_identity_start = start3 + a3 + c3;
      seg3_relation_identity_dim = remainder seg3 (a3 + b3);
    }

-- `_validate`: whether every assertion holds.
unfoldable pub validate : EdgeVectorLayout → Bool
validate l =
    l.seg1_time_delta_dim + l.seg1_period_flags_dim + l.seg1_direction_dim + l.seg2_difference_dim
        + l.seg2_ratio_dim + l.seg2_magnitude_dim + l.seg3_namespace_dim
        + l.seg3_label_similarity_dim + l.seg3_relation_identity_dim
      == l.edge_vector_dim
    && l.seg1_time_delta_start == 0
    && l.seg1_period_flags_start == l.seg1_time_delta_start + l.seg1_time_delta_dim
    && l.seg1_direction_start == l.seg1_period_flags_start + l.seg1_period_flags_dim
    && l.seg2_difference_start == l.seg1_direction_start + l.seg1_direction_dim
    && l.seg2_ratio_start == l.seg2_difference_start + l.seg2_difference_dim
    && l.seg2_magnitude_start == l.seg2_ratio_start + l.seg2_ratio_dim
    && l.seg3_namespace_start == l.seg2_magnitude_start + l.seg2_magnitude_dim
    && l.seg3_label_similarity_start == l.seg3_namespace_start + l.seg3_namespace_dim
    && l.seg3_relation_identity_start == l.seg3_label_similarity_start + l.seg3_label_similarity_dim
    && l.seg3_relation_identity_start + l.seg3_relation_identity_dim == l.edge_vector_dim
    && all (leb 1) (
        l.edge_vector_dim ∷ l.seg1_time_delta_dim ∷ l.seg1_period_flags_dim ∷ l.seg1_direction_dim
        ∷ l.seg2_difference_dim ∷ l.seg2_ratio_dim ∷ l.seg2_magnitude_dim ∷ l.seg3_namespace_dim
        ∷ l.seg3_label_similarity_dim ∷ l.seg3_relation_identity_dim ∷ [])

-- `EdgeVectorLayout(edge_vector_dim)`
unfoldable pub edge_vector_layout : ℕ → Result LayoutError EdgeVectorLayout
edge_vector_layout edge_vector_dim =
    let seg1 : ℕ = share edge_vector_dim edge_seg1_frac in
    let seg2 : ℕ = share edge_vector_dim edge_seg2_frac in
    let l = place edge_vector_dim seg1 seg2 in
    if ltb edge_vector_dim 9
    then raise vector_dim_too_small
    else if ltb (edge_vector_dim - seg1 - seg2) 1
    then raise segment_too_small
    else if validate l
    then ok l
    else raise assertion_failed

-- The sub-segments in the order that the vector holds them.
abbrev pub spans : EdgeVectorLayout → List Span
spans l =
    record { start = l.seg1_time_delta_start; width = l.seg1_time_delta_dim }
    ∷ record { start = l.seg1_period_flags_start; width = l.seg1_period_flags_dim }
    ∷ record { start = l.seg1_direction_start; width = l.seg1_direction_dim }
    ∷ record { start = l.seg2_difference_start; width = l.seg2_difference_dim }
    ∷ record { start = l.seg2_ratio_start; width = l.seg2_ratio_dim }
    ∷ record { start = l.seg2_magnitude_start; width = l.seg2_magnitude_dim }
    ∷ record { start = l.seg3_namespace_start; width = l.seg3_namespace_dim }
    ∷ record { start = l.seg3_label_similarity_start; width = l.seg3_label_similarity_dim }
    ∷ record { start = l.seg3_relation_identity_start; width = l.seg3_relation_identity_dim }
    ∷ []
