-- ===== src/Examples/Layouts.antt =====
-- Layouts of the default and other widths.
use pyg_knowledge_graph_buil.Layout.Node.Tiling.{IsTiled, vector_layout-total}
use pyg_knowledge_graph_buil.Layout.Edge.Tiling.{
  IsTiled as EdgeTiled, error_of-edge_vector_layout, edge_vector_layout-total,
}
use pyg_knowledge_graph_buil.Base.{none, some, refl, ◌≡◌, arith}
use pyg_knowledge_graph_buil.Layout.Node.Override.{
  SameOutside, vector_layout-SameOutside, error_of-vector_layout,
}
use pyg_knowledge_graph_buil.Layout.Node.{
  place, vector_layout, share, identity_does_not_fit, VectorLayout, identity_width, remainder,
  donor, validate, assertion_failed,
}
use pyg_knowledge_graph_buil.Layout.Edge.{EdgeVectorLayout, edge_vector_layout}
use pyg_knowledge_graph_buil.Base.Result.{error_of, ok}

vector_layout-total_example :
    (l : VectorLayout) × (vector_layout 1024 (some 192) ≡ ok l) × IsTiled 1024 l
unfolding share
vector_layout-total_example = vector_layout-total 1024 (some 192) (omega arith) (omega arith)

unfoldable pub default_layout : VectorLayout
unfolding place share remainder donor
default_layout = place 1024 256 384 160

wide_layout : VectorLayout
unfolding place share remainder donor
wide_layout = place 1024 256 384 192

default_built : vector_layout 1024 none ≡ ok default_layout
unfolding vector_layout identity_width validate default_layout
default_built = refl

wide_built : vector_layout 1024 (some 192) ≡ ok wide_layout
unfolding vector_layout identity_width validate wide_layout
wide_built = refl

vector_layout-SameOutside_example : SameOutside 192 default_layout wide_layout
vector_layout-SameOutside_example =
    vector_layout-SameOutside 1024 192 default_layout wide_layout default_built wide_built

-- The default layout's last sub-segment begins at 897 and has 127 dims.
categorical_at_1024 :
    (default_layout.seg3_categorical_start ≡ 897) × (default_layout.seg3_categorical_dim ≡ 127)
unfolding default_layout
categorical_at_1024 = (refl, refl)

error_of-vector_layout_example :
    error_of (vector_layout 1024 (some 255)) ≡ some identity_does_not_fit
unfolding share
error_of-vector_layout_example = error_of-vector_layout 1024 (some 255)

edge_vector_layout-total_example :
    (l : EdgeVectorLayout) × (edge_vector_layout 32 ≡ ok l) × EdgeTiled 32 l
edge_vector_layout-total_example = edge_vector_layout-total 32 (omega arith) (omega arith)

error_of-edge_vector_layout_example : error_of (edge_vector_layout 10) ≡ some assertion_failed
error_of-edge_vector_layout_example = error_of-edge_vector_layout 10
