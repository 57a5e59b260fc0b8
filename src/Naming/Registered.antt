-- ===== src/Naming/Registered.antt =====
-- spark_jobs/pyg_builder/naming.py: when a build is refused for its names.
use mathlib.Core.List
use mathlib.Core.Bool.{false≢true}
use mathlib.Core.Option.{some-injective}
use pyg_knowledge_graph_buil.Base.{
  ℕ, [], ◌∷◌, true, false, none, some, List, Bool, if◌then◌else◌, ◌&&◌, Option, ◌++◌, length, inl,
  inr, refl, ◌≡◌, subst, Bool-cases, ap, ◌∙◌, All, ◌-◌, arith, length-append, sym,
}
use pyg_knowledge_graph_buil.Base.Texts.{
  Text, text_eq_refl, text_eq, text_eq_iff, among, starts_with,
}
use pyg_knowledge_graph_buil.Base.Dict.{select}
use pyg_knowledge_graph_buil.Sources.{is_none, sorted_texts}
use pyg_knowledge_graph_buil.Naming.{
  NameCheck, passed, warned, refused, check_registered_names, unknown, last_segment, namespace_of,
  without_end, take, after_mark, is_mark, or_after, namespaces_of, segment_of,
}
use pyg_knowledge_graph_buil.Sources.Paths.Read.{Rises, sorted_texts-Rises, among-sorted_texts}
use pyg_knowledge_graph_buil.Sources.Wellformed.{is_none-sorted_texts}

-- What follows the last mark holds none, and a mark stands before it.
abbrev Split : Text → Text → Type 0
Split uri rest =
    (start : Text) × (mark : ℕ) × (uri ≡ start ++ (mark ∷ rest))
    × (is_mark mark ≡ true)
    × (after_mark rest ≡ none)

after_mark-Split : (uri rest : Text) → after_mark uri ≡ some rest → Split uri rest
unfolding after_mark
after_mark-Split [] rest h = cc
after_mark-Split (c ∷ text) rest h =
    choose (after_mark text) refl h (λ later e. after_mark-Split text later e)
  where
    choose :
        (found : Option Text)
        → after_mark text ≡ found
        → or_after c text found ≡ some rest
        → ((later : Text) → after_mark text ≡ some later → Split text later)
        → Split (c ∷ text) rest
    choose (some later) e h deeper =
        let (start, mark, whole, marks, clean) = deeper rest (e ∙ h) in
        (c ∷ start, mark, ap (λ t. c ∷ t) whole, marks, clean)
    choose none e h deeper = elim (Bool-cases (is_mark c)) [
      | inl m ↦
          let same : text ≡ rest = some-injective text rest (rw m at h) in
          ([], c, ap (λ t. c ∷ t) same, m, subst (λ t. after_mark t ≡ none) same e)
      | inr m ↦ let no : none ≡ some rest = (rw m at h) in cc
    ]

take-append : (start rest : Text) → take (length start) (start ++ rest) ≡ start
take-append [] rest = refl
take-append (c ∷ start) rest = ap (λ t. c ∷ t) (take-append start rest)

without_end-append : (start rest : Text) → without_end (start ++ rest) rest ++ rest ≡ start ++ rest
without_end-append start rest =
    let left : length (start ++ rest) - length rest ≡ length start =
      grind (arith, length-append start rest) in
    rw (left, take-append start rest) refl

last_segment-split : (uri : Text) → (start : Text) × (uri ≡ start ++ last_segment uri)
unfolding last_segment
last_segment-split uri = choose (after_mark uri) refl
  where
    choose :
        (found : Option Text)
        → after_mark uri ≡ found
        → (start : Text) × (uri ≡ start ++ segment_of found)
    choose none e = (uri, sym (List.append-nil uri))
    choose (some rest) e =
        let (start, mark, whole, _, _) = after_mark-Split uri rest e in
        (start ++ (mark ∷ []), whole ∙ sym (List.append_assoc start (mark ∷ []) rest))

-- The namespace that is reported for a URI, followed by the last segment that names it, is the URI.
pub namespace_of-last_segment : (uri : Text) → namespace_of uri ++ last_segment uri ≡ uri
unfolding namespace_of
namespace_of-last_segment uri = choose (last_segment uri) refl
  where
    choose :
        (segment : Text)
        → last_segment uri ≡ segment
        → (if is_none segment then uri else without_end uri segment) ++ segment ≡ uri
    choose [] e = List.append-nil uri
    choose (c ∷ rest) e =
        let (start, whole) = last_segment-split uri in
        let whole_here : uri ≡ start ++ (c ∷ rest) = rw e at whole in
        rw whole_here (without_end-append start (c ∷ rest))

-- The names are told once each, in order; there are some, and they are the unknown ones among the names.
abbrev pub Told : List Text → List Text → Type 0
Told found names =
    Rises found
    × (is_none found ≡ false)
    × ((name : Text) → among name found ≡ (among name names && starts_with unknown name))

-- The result that is right.
abbrev pub Right : List Text → Bool → (List Text → List Text) → NameCheck → Type 0
Right names allowed find_uris passed = All (λ name. starts_with unknown name ≡ false) names
Right names allowed find_uris (warned found) = (allowed ≡ true) × Told found names
Right names allowed find_uris (refused found namespaces) =
    (allowed ≡ false)
    × Told found names
    × Rises namespaces
    × ((namespace : Text)
        → among namespace namespaces ≡ among namespace (namespaces_of (find_uris found)))

among-select :
    (p : Text → Bool) (name : Text) (names : List Text)
    → among name (select p names) ≡ (among name names && p name)
unfolding among
among-select p name [] = refl
among-select p name (n ∷ names) = elim (Bool-cases (text_eq n name)) [
  | inl e ↦
      let same : n ≡ name = (text_eq_iff n name).0 e in
      elim (Bool-cases (p name)) [
        | inl f ↦ rw (same, f, text_eq_refl name) refl
        | inr f ↦ rw (same, f, text_eq_refl name) (ground (arith, among-select p name names))
      ]
  | inr e ↦ elim (Bool-cases (p n)) [
    | inl f ↦ rw (f, e) (among-select p name names)
    | inr f ↦ rw (f, e) (among-select p name names)
  ]
]

is_none-select :
    (p : Text → Bool) (names : List Text)
    → is_none (select p names) ≡ true
    → All (λ name. p name ≡ false) names
is_none-select p [] h = tt
is_none-select p (n ∷ names) h = elim (Bool-cases (p n)) [
  | inl e ↦ absurd (false≢true (rw e at h))
  | inr e ↦ (e, is_none-select p names (rw e at h))
]

-- The check passes only where no name is an unknown one. Otherwise it warns where that is allowed, and
-- refuses where it is not, and tells the unknown names, each once and in order; with a refusal come the
-- namespaces of the URIs that are found for them, each once and in order.
pub check_registered_names-Right :
    (names : List Text) (allowed : Bool) (find_uris : List Text → List Text)
    → Right names allowed find_uris (check_registered_names names allowed find_uris)
unfolding check_registered_names
check_registered_names-Right names allowed find_uris = elim (Bool-cases (is_none found)) [
  | inl e ↦ rw e (
      is_none-select (λ name. starts_with unknown name) names
        (sym (is_none-sorted_texts marked) ∙ e))
  | inr e ↦ elim (Bool-cases allowed) [
    | inl a ↦ rw (e, a) (refl, told e)
    | inr a ↦
        rw (e, a)
          (
            refl,
            told e,
            sorted_texts-Rises (namespaces_of (find_uris found)),
            λ n. among-sorted_texts n _,
          )
  ]
]
  where
    marked : List Text
    marked = select (λ name. starts_with unknown name) names

    found : List Text
    found = sorted_texts marked

    told : is_none found ≡ false → Told found names
    told e = (
      sorted_texts-Rises marked,
      e,
      λ name. among-sorted_texts name marked ∙ among-select _ name names,
    )
