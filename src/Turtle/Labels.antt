-- ===== src/Turtle/Labels.antt =====
-- spark_jobs/graph/turtle.py: deterministic_bnode_labels, which names blank nodes by what is said of them.
-- The graph is a list of triples, as its edges are sorted before they are hashed. The digest of a text
-- is an argument, and so is the order in which the set of blank nodes is gone through.
use pyg_knowledge_graph_buil.Base.{
  ℕ, zero, suc, [], ◌∷◌, false, List, Bool, if◌then◌else◌, ◌++◌, length, ltb, ◌+◌, ◌/◌, ◌%◌, some,
  none,
}
use pyg_knowledge_graph_buil.Base.Texts.{Text, text_eq, codes, among}
use pyg_knowledge_graph_buil.Sources.{sorted_sequence, is_none}
use pyg_knowledge_graph_buil.Turtle.Terms.{Term, named, blank, literal, Triple, first_ones}
use pyg_knowledge_graph_buil.Naming.{take}

-- The ids of the blank nodes of a term.
abbrev pub blank_ids : Term → List Text
blank_ids (named _) = []
blank_ids (blank id) = id ∷ []
blank_ids (literal _ _ _) = []

abbrev pub add_new : Text → List Text → List Text
add_new id ids = if among id ids then ids else id ∷ ids

abbrev pub add_all : List Text → List Text → List Text
add_all [] ids = ids
add_all (id ∷ new) ids = add_new id (add_all new ids)

-- The set `bnodes`.
unfoldable pub bnodes : List Triple → List Text
unfolding among
bnodes [] = []
bnodes (triple ∷ graph) =
    add_all (blank_ids triple.subject) (add_all (blank_ids triple.object) (bnodes graph))

-- `_ref`
abbrev pub reference : (Text → Text) → Term → Text
reference labels (named value) = value
reference labels (blank id) = labels id
reference labels (literal value _ _) = value

unfoldable pub is_bnode : Text → Term → Bool
unfolding text_eq
is_bnode id (named _) = false
is_bnode id (blank other) = text_eq other id
is_bnode id (literal _ _ _) = false

abbrev pub edge : Text → Text → Text → Text
edge sign predicate ref = sign ++ (predicate ++ (codes "|" ++ ref))

unfoldable pub out_edges : (Text → Text) → Text → List Triple → List Text
unfolding is_bnode
out_edges labels id [] = []
out_edges labels id (triple ∷ graph) =
    let rest = out_edges labels id graph in
    if is_bnode id triple.subject
    then edge (codes ">|") triple.predicate (reference labels triple.object) ∷ rest
    else rest

unfoldable pub in_edges : (Text → Text) → Text → List Triple → List Text
unfolding is_bnode
in_edges labels id [] = []
in_edges labels id (triple ∷ graph) =
    let rest = in_edges labels id graph in
    if is_bnode id triple.object
    then edge (codes "<|") triple.predicate (reference labels triple.subject) ∷ rest
    else rest

-- `"\n".join(...)`
abbrev pub lines : List Text → Text
lines [] = []
lines (line ∷ []) = line
lines (line ∷ next ∷ rest) = line ++ (10 ∷ lines (next ∷ rest))

-- The labels after some rounds of the refinement.
unfoldable pub refined : (Text → Text) → ℕ → List Triple → Text → Text
unfolding sorted_sequence out_edges in_edges
refined digest zero graph id = []
refined digest (suc rounds) graph id =
    let labels = refined digest rounds graph in
    digest (
      lines
        (sorted_sequence (out_edges labels id graph) ++ sorted_sequence (in_edges labels id graph)))

abbrev pub Groups : Type 0
Groups = List (Text × List Text)

-- `by_signature.setdefault(signature, []).append(id)`
unfoldable pub file_under : Text → Text → Groups → Groups
unfolding text_eq
file_under signature id [] = (signature, id ∷ []) ∷ []
file_under signature id ((s, ids) ∷ groups) =
    let rest = file_under signature id groups in
    if text_eq s signature then (s, ids ++ (id ∷ [])) ∷ groups else (s, ids) ∷ rest

-- The loop that fills `by_signature`, from what it holds on.
unfoldable pub group_all : (Text → Text) → List Text → Groups → Groups
unfolding file_under
group_all signature [] groups = groups
group_all signature (id ∷ ids) groups =
    group_all signature ids (file_under (signature id) id groups)

abbrev pub unless_zero : ℕ → Text → Text → Text
unless_zero zero text more = text
unless_zero (suc _) text more = more

-- The last digits first; the fuel is above the number of digits.
unfoldable pub digits_from : ℕ → ℕ → Text → Text
digits_from zero n later = later
digits_from (suc fuel) n later =
    let next = (48 + n % 10) ∷ later in unless_zero (n / 10) next (digits_from fuel (n / 10) next)

-- `str(n)`
unfoldable pub decimal : ℕ → Text
unfolding digits_from
decimal n = digits_from (suc n) n []

-- The labels of a group of more than one, from the index on.
unfoldable pub numbered : Text → ℕ → List Text → List (Text × Text)
unfolding decimal
numbered signature index [] = []
numbered signature index (id ∷ ids) =
    (id, take 32 signature ++ (codes "_" ++ decimal index)) ∷ numbered signature (suc index) ids

-- The label of a group of one.
abbrev pub plain : Text → List Text → List (Text × Text)
plain signature [] = []
plain signature (id ∷ ids) = (id, take 32 signature) ∷ plain signature ids

unfoldable pub labels_of_group : Text → List Text → List (Text × Text)
unfolding numbered
labels_of_group signature ids =
    if ltb 1 (length ids) then numbered signature 0 ids else plain signature ids

unfoldable pub labels_of_groups : Groups → List (Text × Text)
unfolding labels_of_group
labels_of_groups [] = []
labels_of_groups ((signature, ids) ∷ groups) =
    labels_of_group signature ids ++ labels_of_groups groups

-- `deterministic_bnode_labels`, as the pairs of the dict.
unfoldable pub deterministic_bnode_labels :
    (Text → Text) → (List Text → List Text) → ℕ → List Triple → List (Text × Text)
unfolding refined group_all labels_of_groups bnodes
deterministic_bnode_labels digest order rounds graph =
    labels_of_groups (group_all (refined digest rounds graph) (order (bnodes graph)) [])

-- `to_rdflib`: rdflib may write a literal of a datatype in its own way, and keeps no datatype beside a
-- language.
abbrev pub to_rdflib : (Text → Text → Text) → Term → Term
to_rdflib normal (named value) = named value
to_rdflib normal (blank id) = blank id
to_rdflib normal (literal value (some language) datatype) = literal value (some language) none
to_rdflib normal (literal value none (some datatype)) =
    literal (normal value datatype) none (some datatype)
to_rdflib normal (literal value none none) = literal value none none

abbrev pub all_to_rdflib : (Text → Text → Text) → List Triple → List Triple
all_to_rdflib normal [] = []
all_to_rdflib normal (triple ∷ triples) =
    record {
      subject = to_rdflib normal triple.subject;
      predicate = triple.predicate;
      object = to_rdflib normal triple.object;
    }
    ∷ all_to_rdflib normal triples

-- `_blank_node_labels`, with its three rounds; rdflib's graph is a set.
unfoldable pub blank_node_labels :
    (Text → Text → Text)
    → (Text → Text)
    → (List Text → List Text)
    → List Triple
    → List (Text × Text)
unfolding bnodes deterministic_bnode_labels first_ones
blank_node_labels normal digest order triples =
    if is_none (bnodes triples)
    then []
    else deterministic_bnode_labels digest order 3 (first_ones [] (all_to_rdflib normal triples))

-- `labels[id]`, for an id that has a label.
unfoldable pub label_in : List (Text × Text) → Text → Text
unfolding text_eq
label_in [] id = []
label_in ((key, label) ∷ labels) id = if text_eq key id then label else label_in labels id
