-- ===== src/Turtle/Terms.antt =====
-- spark_jobs/graph/turtle.py: terms and triples, as the parser gives them, and the first of equal triples.
use pyg_knowledge_graph_buil.Base.{
  [], ◌∷◌, true, false, none, some, List, Bool, if◌then◌else◌, ◌&&◌, ◌||◌, Option, ◌++◌,
}
use pyg_knowledge_graph_buil.Base.Texts.{Text, text_eq}

-- A term of a parsed triple; a literal has its lexical form, its language and its datatype.
pub data Term : Type 0 where
  named : Text → Term
  blank : Text → Term
  literal : Text → Option Text → Option Text → Term

pub record Triple : Type 0 where
  pub subject : Term
  pub predicate : Text
  pub object : Term

unfoldable pub option_eq : Option Text → Option Text → Bool
unfolding text_eq
option_eq none none = true
option_eq (some a) (some b) = text_eq a b
option_eq none (some _) = false
option_eq (some _) none = false

unfoldable pub term_eq : Term → Term → Bool
unfolding text_eq option_eq
term_eq (named a) (named b) = text_eq a b
term_eq (blank a) (blank b) = text_eq a b
term_eq (literal a l d) (literal b m e) = text_eq a b && option_eq l m && option_eq d e
term_eq _ _ = false

unfoldable pub triple_eq : Triple → Triple → Bool
unfolding text_eq term_eq
triple_eq a b =
    term_eq a.subject b.subject && text_eq a.predicate b.predicate && term_eq a.object b.object

unfoldable pub seen_in : Triple → List Triple → Bool
unfolding triple_eq
seen_in triple [] = false
seen_in triple (t ∷ seen) = triple_eq triple t || seen_in triple seen

-- The loop that keeps the first of equal triples, from those that were kept on.
unfoldable pub first_ones : List Triple → List Triple → List Triple
unfolding seen_in
first_ones kept [] = kept
first_ones kept (triple ∷ triples) =
    first_ones (if seen_in triple kept then kept else kept ++ (triple ∷ [])) triples
