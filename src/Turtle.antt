-- ===== src/Turtle.antt =====
-- spark_jobs/graph/turtle.py: a Turtle blob becomes rows of four columns, and rows become bounded batches.
-- The parser, rdflib's table of converters, sha1, the order of a set and the whitespace that str.strip
-- takes are arguments. An exception other than ImportError is one value.
pub mod Terms
pub mod Labels
pub mod Rows
pub mod Batches
pub mod Groups
pub mod Bounded
pub mod Numbered
pub mod Apart
pub mod Distinct
