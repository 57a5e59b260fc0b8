-- ===== src/Turtle/Rows.antt =====
-- spark_jobs/graph/turtle.py: the rows of one blob.
use pyg_knowledge_graph_buil.Base.{
  ℕ, [], ◌∷◌, true, none, some, List, Bool, if◌then◌else◌, ◌&&◌, Option, ◌++◌,
}
use pyg_knowledge_graph_buil.Base.Texts.{Text, text_eq, codes}
use pyg_knowledge_graph_buil.Turtle.Labels.{blank_node_labels, label_in}
use pyg_knowledge_graph_buil.Turtle.Terms.{Term, named, blank, literal, Triple, first_ones}

-- A row, by the names of `TRIPLE_FIELD_NAMES`.
pub record TurtleRow : Type 0 where
  pub subject : Text
  pub predicate : Text
  pub object : Text
  pub object_datatype : Text

-- What a call that may fail gives: a value, an ImportError, or another exception.
pub data Tried (A : Type 0) : Type 0 where
  gave : A → Tried A
  import_error : Tried A
  other_error : Tried A

-- What a converter of rdflib's table does: it raises, or gives None, or a value, as its str.
pub data Converted : Type 0 where
  raised : Converted
  nothing : Converted
  as_text : Text → Converted

abbrev pub Converters : Type 0
Converters = Text → Option (Text → Converted)

abbrev pub lang_string : Text
lang_string = codes "http://www.w3.org/1999/02/22-rdf-syntax-ns#langString"

abbrev pub converted : Text → Converted → Text
converted value raised = value
converted value nothing = value
converted value (as_text t) = t

abbrev pub by_converter : Text → Text → Option (Text → Converted) → Text × Text
by_converter value datatype none = (value, datatype)
by_converter value datatype (some convert) = (converted value (convert value), datatype)

-- `_literal_columns`
unfoldable pub literal_columns : Converters → Text → Option Text → Text × Text
unfolding text_eq
literal_columns converters value none = (value, [])
literal_columns converters value (some datatype) =
    if text_eq datatype lang_string
    then (value, [])
    else by_converter value datatype (converters datatype)

-- `f"_:{labels[...]}"`
abbrev pub blank_name : (Text → Text) → Text → Text
blank_name label id = codes "_:" ++ label id

-- The subject of a row, where the triple has one.
abbrev pub subject_of : (Text → Text) → Term → Option Text
subject_of label (named value) = some value
subject_of label (blank id) = some (blank_name label id)
subject_of label (literal _ _ _) = none

abbrev pub object_of : Converters → (Text → Text) → Term → Text × Text
object_of converters label (named value) = (value, [])
object_of converters label (blank id) = (blank_name label id, [])
object_of converters label (literal value language datatype) =
    literal_columns converters value datatype

abbrev pub row_of : Text → Text → Text × Text → TurtleRow
row_of subj predicate (obj, datatype) = record {
  subject = subj;
  predicate = predicate;
  object = obj;
  object_datatype = datatype;
}

abbrev pub add_row :
    Converters → (Text → Text) → Triple → Option Text → List TurtleRow → List TurtleRow
add_row converters label triple none rows = rows
add_row converters label triple (some subj) rows =
    row_of subj triple.predicate (object_of converters label triple.object) ∷ rows

unfoldable pub rows_of : Converters → (Text → Text) → List Triple → List TurtleRow
unfolding literal_columns
rows_of converters label [] = []
rows_of converters label (triple ∷ triples) =
    add_row converters label triple (subject_of label triple.subject)
      (rows_of converters label triples)

-- What the code calls: the parser, rdflib's converters and its way of writing a literal, sha1, the order
-- of a set, and the whitespace that str.strip takes.
pub record Outside : Type 0 where
  pub parse : Text → Tried (List Triple)
  pub converters : Converters
  pub normal : Text → Text → Text
  pub digest : Text → Text
  pub order : List Text → List Text
  pub is_space : ℕ → Bool

abbrev pub parsed_rows : Outside → Tried (List Triple) → Tried (List TurtleRow)
parsed_rows outside (gave triples) =
    let once = first_ones [] triples in
    let labels = blank_node_labels outside.normal outside.digest outside.order once in
    gave (rows_of outside.converters (label_in labels) once)
parsed_rows outside import_error = import_error
parsed_rows outside other_error = other_error

-- `turtle_to_rows`
unfoldable pub turtle_to_rows : Outside → Text → Tried (List TurtleRow)
unfolding first_ones rows_of blank_node_labels label_in
turtle_to_rows outside turtle = parsed_rows outside (outside.parse turtle)

-- `not text.strip()`
unfoldable pub is_blank : (ℕ → Bool) → Text → Bool
is_blank is_space [] = true
is_blank is_space (c ∷ text) = is_space c && is_blank is_space text

-- The except clauses.
abbrev pub or_skip : Tried (List TurtleRow) → Option (List TurtleRow)
or_skip (gave rows) = some rows
or_skip import_error = none
or_skip other_error = some []

-- `turtle_rows_or_skip`: none is the ImportError that it raises again. A blob may be None.
unfoldable pub turtle_rows_or_skip : Outside → Option Text → Option (List TurtleRow)
unfolding turtle_to_rows is_blank
turtle_rows_or_skip outside none = some []
turtle_rows_or_skip outside (some turtle) =
    if is_blank outside.is_space turtle then some [] else or_skip (turtle_to_rows outside turtle)
