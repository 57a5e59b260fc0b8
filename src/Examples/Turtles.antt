-- ===== src/Examples/Turtles.antt =====
-- spark_jobs/graph/turtle.py at three blobs, of which the second cannot be parsed, and at most two rows a
-- batch. A blob "n" parses into n triples.
use pyg_knowledge_graph_buil.Base.{
  ℕ, zero, suc, [], ◌∷◌, false, none, some, List, refl, ◌≡◌, length, Option, ◌-◌, ◌==◌,
  if◌then◌else◌, All, ◌≤◌, arith,
}
use pyg_knowledge_graph_buil.Base.Texts.{Text, codes}
use pyg_knowledge_graph_buil.Turtle.Terms.{
  Triple, named, literal, first_ones, seen_in, triple_eq, term_eq, blank,
}
use pyg_knowledge_graph_buil.Turtle.Labels.{
  blank_node_labels, bnodes, deterministic_bnode_labels, refined,
}
use pyg_knowledge_graph_buil.Turtle.Rows.{
  Outside, Tried, gave, import_error, other_error, turtle_rows_or_skip, is_blank, turtle_to_rows,
  rows_of, as_text, literal_columns,
}
use pyg_knowledge_graph_buil.Turtle.Batches.{
  turtle_batches_to_arrow, all_blobs, take_blobs, take_rows,
}
use pyg_knowledge_graph_buil.Turtle.Distinct.{deterministic_bnode_labels-Distinct, Labelled}
use pyg_knowledge_graph_buil.Turtle.Apart.{Distinct}
use pyg_knowledge_graph_buil.Turtle.Bounded.{turtle_batches_to_arrow-Batched}
use pyg_knowledge_graph_buil.Turtle.Groups.{Batched, rows_before, none_fails}

abbrev triples : ℕ → List Triple
triples zero = []
triples (suc n) =
    record {
      subject = named (n ∷ []);
      predicate = codes "p";
      object = literal (codes "false") none (some (codes "boolean"));
    }
    ∷ triples n

-- The digit that the blob begins with; "x" has no such digit, and "m" no parser.
abbrev parsed : Text → Tried (List Triple)
parsed [] = gave []
parsed (c ∷ text) =
    if c == 120 then other_error else if c == 109 then import_error else gave (triples (c - 48))

abbrev outside : Outside
outside = record {
  parse = parsed;
  converters = λ datatype. some (λ value. as_text (codes "False"));
  normal = λ value datatype. value;
  digest = λ text. text;
  order = λ ids. ids;
  is_space = λ c. c == 32;
}

abbrev blobs : List (List (Option Text))
blobs = (some (codes "3") ∷ none ∷ some (codes "x") ∷ []) ∷ (some (codes "2") ∷ []) ∷ []

turtle_batches_to_arrow-Batched_example :
    Batched 2
      (rows_before outside (all_blobs blobs))
      (none_fails outside (all_blobs blobs))
      (turtle_batches_to_arrow outside 2 blobs)
turtle_batches_to_arrow-Batched_example = turtle_batches_to_arrow-Batched outside 2 blobs

three_batches : length (turtle_batches_to_arrow outside 2 blobs).batches ≡ 3
unfolding turtle_batches_to_arrow take_blobs take_rows turtle_rows_or_skip is_blank turtle_to_rows
    first_ones rows_of literal_columns seen_in triple_eq term_eq blank_node_labels bnodes
three_batches = refl

-- The generator stops at the blob for which there is no parser, with a row in its columns.
stopped :
    (turtle_batches_to_arrow outside 2 ((some (codes "3") ∷ some (codes "m") ∷ []) ∷ blobs)).ended
    ≡ false
unfolding turtle_batches_to_arrow take_blobs take_rows turtle_rows_or_skip is_blank turtle_to_rows
    first_ones rows_of literal_columns seen_in triple_eq term_eq blank_node_labels bnodes
stopped = refl

-- A digest that only tells whether there is anything.
abbrev two_digests : Text → Text
two_digests [] = codes "0000000000000000000000000000000000000000"
two_digests (_ ∷ _) = codes "1111111111111111111111111111111111111111"

long_digest : (s : Text) → 32 ≤ length (two_digests s)
long_digest [] = omega arith
long_digest (_ ∷ _) = omega arith

-- Two blank nodes of which the same is said.
abbrev twins : List Triple
twins =
    record { subject = blank (codes "x"); predicate = codes "p"; object = named (codes "o") }
    ∷ record { subject = blank (codes "y"); predicate = codes "p"; object = named (codes "o") }
    ∷ []

deterministic_bnode_labels-Distinct_example :
    All (Labelled (deterministic_bnode_labels two_digests (λ ids. ids) 3 twins)) (bnodes twins)
    × Distinct
        (refined two_digests 3 twins)
        (deterministic_bnode_labels two_digests (λ ids. ids) 3 twins)
deterministic_bnode_labels-Distinct_example =
    deterministic_bnode_labels-Distinct two_digests (λ ids. ids) 2 twins long_digest

suffixed :
    deterministic_bnode_labels two_digests (λ ids. ids) 3 twins
    ≡ (codes "x", codes "11111111111111111111111111111111_0")
      ∷ (codes "y", codes "11111111111111111111111111111111_1")
      ∷ []
unfolding deterministic_bnode_labels
suffixed = refl
