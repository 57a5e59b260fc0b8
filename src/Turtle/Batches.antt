-- ===== src/Turtle/Batches.antt =====
-- spark_jobs/graph/turtle.py: the batches of many blobs.
use pyg_knowledge_graph_buil.Base.{
  ℕ, [], ◌∷◌, true, false, none, some, List, Bool, if◌then◌else◌, Option, ◌++◌, length, leb,
}
use pyg_knowledge_graph_buil.Base.Texts.{Text}
use pyg_knowledge_graph_buil.Sources.{is_none}
use pyg_knowledge_graph_buil.Turtle.Rows.{Outside, TurtleRow, turtle_rows_or_skip}

-- The four lists of values, which a batch is made of.
pub record Columns : Type 0 where
  pub subject : List Text
  pub predicate : List Text
  pub object : List Text
  pub object_datatype : List Text

abbrev pub empty_columns : Columns
empty_columns = record { subject = []; predicate = []; object = []; object_datatype = [] }

abbrev pub append_row : Columns → TurtleRow → Columns
append_row columns row = record {
  subject = columns.subject ++ (row.subject ∷ []);
  predicate = columns.predicate ++ (row.predicate ∷ []);
  object = columns.object ++ (row.object ∷ []);
  object_datatype = columns.object_datatype ++ (row.object_datatype ∷ []);
}

-- The generator between two blobs: the batches it has yielded, and its columns.
pub record Stream : Type 0 where
  pub yielded : List Columns
  pub columns : Columns

-- `yield drain()`
abbrev pub drain : Stream → Stream
drain stream = record { yielded = stream.yielded ++ (stream.columns ∷ []); columns = empty_columns }

abbrev pub add_columns : Stream → TurtleRow → Stream
add_columns stream row = record {
  yielded = stream.yielded;
  columns = append_row stream.columns row;
}

abbrev pub drain_full : ℕ → Stream → Stream
drain_full max_rows stream =
    if leb max_rows (length stream.columns.subject) then drain stream else stream

-- The loop over the rows of a blob.
unfoldable pub take_rows : ℕ → Stream → List TurtleRow → Stream
take_rows max_rows stream [] = stream
take_rows max_rows stream (row ∷ rows) =
    take_rows max_rows (drain_full max_rows (add_columns stream row)) rows

abbrev pub drain_rest : Stream → Stream
drain_rest stream = if is_none stream.columns.subject then stream else drain stream

-- What was yielded, and whether the generator came to its end or raised the ImportError.
pub record Yielded : Type 0 where
  pub batches : List Columns
  pub ended : Bool

-- The ImportError ends the generator.
abbrev pub unless_failed : Stream → Option (List TurtleRow) → (List TurtleRow → Yielded) → Yielded
unless_failed stream none next = record { batches = stream.yielded; ended = false }
unless_failed stream (some rows) next = next rows

-- The loop over the blobs, of all the batches in turn.
unfoldable pub take_blobs : Outside → ℕ → Stream → List (Option Text) → Yielded
unfolding turtle_rows_or_skip take_rows
take_blobs outside max_rows stream [] = record {
  batches = (drain_rest stream).yielded;
  ended = true;
}
take_blobs outside max_rows stream (blob ∷ blobs) =
    unless_failed stream (turtle_rows_or_skip outside blob)
      (λ rows. take_blobs outside max_rows (take_rows max_rows stream rows) blobs)

abbrev pub all_blobs : List (List (Option Text)) → List (Option Text)
all_blobs [] = []
all_blobs (blobs ∷ batches) = blobs ++ all_blobs batches

-- `turtle_batches_to_arrow`, run to its end.
unfoldable pub turtle_batches_to_arrow : Outside → ℕ → List (List (Option Text)) → Yielded
unfolding take_blobs
turtle_batches_to_arrow outside max_rows batches =
    take_blobs outside max_rows (record { yielded = []; columns = empty_columns })
      (all_blobs batches)
