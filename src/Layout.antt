-- ===== src/Layout.antt =====
-- Where each part of a feature vector lives (spark_jobs/pyg_builder/vector_layout.py and
-- edge_vector_layout.py).
pub mod Rounding
pub mod Spans
pub mod Node
pub mod Edge
