-- ===== src/Nodes/Mapping.antt =====
-- spark_jobs/pyg_builder/node_mapper.py: the mapping of types of nodes to the URIs they were named after.
use mathlib.Core.Bool.{false≢true}
use pyg_knowledge_graph_buil.Base.{
  [], ◌∷◌, true, false, none, some, List, Bool, Option, refl, All, arith, ◌≡◌, ap₂, inl, inr,
  Bool-cases, ◌∙◌, ◌||◌, ◌&&◌, ◌⊎◌, any, any-append, sym, subst, fun_ext,
}
use pyg_knowledge_graph_buil.Base.Texts.{
  Text, text_eq, text_eq_iff, text_eq_refl, text_lt, text_lt_irreflexive, text_lt_trans, among,
}
use pyg_knowledge_graph_buil.Sources.Paths.Read.{Rises}
use pyg_knowledge_graph_buil.Naming.{NameTable, prefixed_local_name_expr}
use pyg_knowledge_graph_buil.Nodes.{Statement, NodeRow, rdf_type}
use pyg_knowledge_graph_buil.Nodes.Origins.{
  get, fill_origins, prefer, sort_origins, join_origin, origin_rows, build_type_uri_mapping,
}
use pyg_knowledge_graph_buil.Nodes.Named.{
  uris_for, first_where, preferred, get-fill_origins, get-prefer,
}
use pyg_knowledge_graph_buil.Nodes.Least.{has_row, uris_for-sorted}

-- The first, by the order of texts, of those that pass a test.
abbrev pub Smallest : (Text → Bool) → Text → Type 0
Smallest p u = (p u ≡ true) × ((v : Text) → p v ≡ true → text_lt v u ≡ false)

-- Whether a node of a type is said to be of a type URI.
abbrev pub is_typed : List NodeRow → List Statement → Text → Text → Bool
is_typed nodes triples name type_uri =
    any
      (λ triple.
        text_eq triple.1 rdf_type
        && (text_eq triple.2 type_uri
            && any (λ node. text_eq triple.0 node.uri && text_eq node.node_type name) nodes))
      triples

-- What the mapping has for a type: the smallest of its URIs that are named as it is, or where there is none,
-- the smallest of its URIs, or where it has none, nothing.
abbrev pub Origin : (Text → Text) → (Text → Bool) → Text → Option Text → Type 0
Origin derive uris name none = (u : Text) → uris u ≡ false
Origin derive uris name (some u) =
    Smallest (λ v. uris v && text_eq (derive v) name) u
    ⊎ (Smallest uris u × ((v : Text) → uris v ≡ true → text_eq (derive v) name ≡ false))

-- The first that passes a test in an ascending list, or none.
abbrev Found : (Text → Bool) → List Text → Option Text → Type 0
Found p us none = (v : Text) → among v us ≡ true → p v ≡ false
Found p us (some u) = Smallest (λ v. among v us && p v) u

not_below :
    (u v : Text) (us : List Text)
    → All (λ w. text_lt u w ≡ true) us
    → among v us ≡ true
    → text_lt v u ≡ false
unfolding among
not_below u v [] h k = absurd (false≢true k)
not_below u v (w ∷ us) (p, h) k = elim (Bool-cases (text_eq w v)) [
  | inr e ↦ not_below u v us h (rw e at k)
  | inl e ↦
      let lt = subst (λ t. text_lt u t ≡ true) ((text_eq_iff w v).0 e) p in
      elim (Bool-cases (text_lt v u)) [
        | inr f ↦ f
        | inl f ↦ absurd (false≢true (sym (text_lt_irreflexive u) ∙ text_lt_trans u v u lt f))
      ]
]

second : (a b : Bool) → (a && b) ≡ true → b ≡ true
second a b h = ground arith

now_or_later : (a b c : Bool) → ((a || b) && c) ≡ true → a ≡ false → (b && c) ≡ true
now_or_later a b c h e = ground arith

later : (a b c : Bool) → (b && c) ≡ true → ((a || b) && c) ≡ true
later a b c h = ground arith

first_part : (a b : Bool) → (a && b) ≡ true → a ≡ true
first_part a b h = ground arith

Found-later :
    (p : Text → Bool) (u : Text) (us : List Text) (o : Option Text)
    → p u ≡ false
    → Found p us o
    → Found p (u ∷ us) o
unfolding among
Found-later p u us none e h = λ v k. elim (Bool-cases (text_eq u v)) [
  | inl f ↦ subst (λ t. p t ≡ false) ((text_eq_iff u v).0 f) e
  | inr f ↦ h v (rw f at k)
]
Found-later p u us (some w) e (own, least) = (
  later (text_eq u w) (among w us) (p w) own,
  λ v k. elim (Bool-cases (text_eq u v)) [
    | inr f ↦ least v (now_or_later (text_eq u v) (among v us) (p v) k f)
    | inl f ↦ absurd (
        false≢true (
          sym (subst (λ t. p t ≡ false) ((text_eq_iff u v).0 f) e)
          ∙ second (text_eq u v || among v us) (p v) k))
  ],
)

first_where-Found : (p : Text → Bool) (us : List Text) → Rises us → Found p us (first_where p us)
unfolding among
first_where-Found p [] h = λ v k. absurd (false≢true k)
first_where-Found p (u ∷ us) (above, h) = elim (Bool-cases (p u)) [
  | inl e ↦ rw e (
    rw (text_eq_refl u) e,
    λ v k. elim (Bool-cases (text_eq u v)) [
      | inl f ↦ subst (λ t. text_lt t u ≡ false) ((text_eq_iff u v).0 f) (text_lt_irreflexive u)
      | inr f ↦
          not_below u v us above
            (first_part (among v us) (p v) (now_or_later (text_eq u v) (among v us) (p v) k f))
    ],
  )
  | inr e ↦ rw e (Found-later p u us (first_where p us) e (first_where-Found p us h))
]

none_true : (b : Bool) → (b ≡ true → true ≡ false) → b ≡ false
none_true true h = h refl
none_true false h = refl

and_none : (a : Bool) → false ≡ (a && false)
and_none a = ground arith

and_in : (a b c : Bool) → ((a && b) || (b && c)) ≡ (b && (a || c))
and_in a b c = ground arith

preferred-Origin :
    (derive : Text → Text) (name : Text) (us : List Text) (exact fallback : Option Text)
    → Found (λ u. text_eq (derive u) name) us exact
    → Found (λ _. true) us fallback
    → Origin derive (λ u. among u us) name (preferred exact fallback)
preferred-Origin derive name us exact none e f = λ u. none_true (among u us) (f u)
preferred-Origin derive name us none (some u) e (own, least) =
    inr ((first_part (among u us) true own, λ v k. least v (rw k refl)), e)
preferred-Origin derive name us (some w) (some u) e f = inl e

join_origin-any :
    (name u subject type_uri : Text) (nodes : List NodeRow)
    → has_row name u (join_origin subject type_uri nodes) ≡ (
        text_eq type_uri u
        && any (λ node. text_eq subject node.uri && text_eq node.node_type name) nodes)
join_origin-any name u subject type_uri [] = and_none (text_eq type_uri u)
join_origin-any name u subject type_uri (node ∷ nodes) =
    elim (Bool-cases (text_eq subject node.uri)) [
      | inr e ↦ rw e (join_origin-any name u subject type_uri nodes)
      | inl e ↦
          rw (e, join_origin-any name u subject type_uri nodes)
            (and_in (text_eq node.node_type name) (text_eq type_uri u)
              (any (λ n. text_eq subject n.uri && text_eq n.node_type name) nodes))
    ]

origin_rows-any :
    (nodes : List NodeRow) (triples : List Statement) (name u : Text)
    → has_row name u (origin_rows nodes triples) ≡ is_typed nodes triples name u
unfolding origin_rows
origin_rows-any nodes [] name u = refl
origin_rows-any nodes ((subject, predicate, object) ∷ triples) name u =
    elim (Bool-cases (text_eq predicate rdf_type)) [
      | inr e ↦ rw e (origin_rows-any nodes triples name u)
      | inl e ↦ rw e (
          any-append (λ r. text_eq r.0 name && text_eq r.1 u) (join_origin subject object nodes)
            (origin_rows nodes triples)
          ∙ ap₂ (λ a b. a || b) (join_origin-any name u subject object nodes)
              (origin_rows-any nodes triples name u))
    ]

-- For each type of node, the mapping has the smallest of the URIs that the nodes of the type are said to be of
-- and that the rule of naming gives the type's name; where there is no such URI, the smallest of those that
-- they are said to be of; and nothing where they are said to be of none.
pub build_type_uri_mapping-Origin :
    (hash : Text → Text) (table : NameTable) (nodes : List NodeRow) (triples : List Statement)
    (name : Text)
    → Origin
        (prefixed_local_name_expr hash table)
        (is_typed nodes triples name)
        name
        (get name (build_type_uri_mapping hash table nodes triples))
unfolding build_type_uri_mapping get
build_type_uri_mapping-Origin hash table nodes triples name =
    let derive = prefixed_local_name_expr hash table in
    let rows = origin_rows nodes triples in
    let us = uris_for name (sort_origins rows) in
    let (rises, holds) = uris_for-sorted name rows in
    let (exact, fallback) = get-fill_origins derive name (sort_origins rows) [] [] in
    let dicts = fill_origins derive (sort_origins rows) ([], []) in
    let own : get name (prefer dicts.0 dicts.1)
        ≡ preferred (first_where (λ u. text_eq (derive u) name) us) (first_where (λ _. true) us) =
      get-prefer name dicts.0 dicts.1 ∙ ap₂ preferred exact fallback in
    let same : (λ (u : Text). among u us) ≡ is_typed nodes triples name =
      fun_ext (λ u. holds u ∙ origin_rows-any nodes triples name u) in
    subst (λ o. Origin derive (is_typed nodes triples name) name o) (sym own)
      (subst
        (λ uris.
          Origin derive uris name (
            preferred (first_where (λ u. text_eq (derive u) name) us) (first_where (λ _. true) us)))
        same
        (preferred-Origin derive name us (first_where (λ u. text_eq (derive u) name) us)
          (first_where (λ _. true) us) (first_where-Found (λ u. text_eq (derive u) name) us rises)
          (first_where-Found (λ _. true) us rises)))
