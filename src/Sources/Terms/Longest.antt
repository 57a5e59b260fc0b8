-- ===== src/Sources/Terms/Longest.antt =====
-- spark_jobs/sources/__init__.py: the source of a term is that of the longest namespace it starts with.
use pyg_knowledge_graph_buil.Base.{
  [], ◌∷◌, true, false, none, some, inl, inr, refl, List, length, All, Bool-cases, ◌≡◌, Option, ◌≤◌,
  ◌↔◌, arith, sym, ◌∙◌,
}
use pyg_knowledge_graph_buil.Base.Texts.{Text, starts_with}
use pyg_knowledge_graph_buil.Sources.{SourceSpec}
use pyg_knowledge_graph_buil.Sources.Terms.{
  place_pair, sort_pairs, goes_before, source_of, source_of_type_uri, owned, owned_namespaces,
}
use mathlib.Core.List.{Memᴰ}
use mathlib.Core.Bool.{false≢true}
use mathlib.Core.List.Memᴰ

-- Each namespace is at least as long as those after it.
abbrev pub Descends : List (Text × Text) → Type 0
Descends [] = Unit
Descends (p ∷ l) = All (λ q. length q.0 ≤ length p.0) l × Descends l

module _ {κ} where
  All-place_pair :
      (P : Text × Text → Type κ) (p : Text × Text) (l : List (Text × Text))
      → All P (place_pair p l) ↔ (P p × All P l)
  unfolding place_pair
  All-place_pair P p [] = (λ h. h, λ h. h)
  All-place_pair P p (q ∷ l) =
      let (forth, back) = All-place_pair P p l in
      elim (Bool-cases (goes_before q p)) [
        | inl e ↦ rw e (
          λ (hq, h). let (hp, hl) = forth h in (hp, (hq, hl)),
          λ (hp, (hq, hl)). (hq, back (hp, hl)),
        )
        | inr e ↦ rw e (λ h. h, λ h. h)
      ]

  All-sort_pairs :
      (P : Text × Text → Type κ) (l : List (Text × Text)) → All P (sort_pairs l) ↔ All P l
  unfolding sort_pairs
  All-sort_pairs P [] = (λ h. h, λ h. h)
  All-sort_pairs P (p ∷ l) =
      let (forth, back) = All-sort_pairs P l in
      let (take, give) = All-place_pair P p (sort_pairs l) in
      (λ h. let (hp, hl) = take h in (hp, forth hl), λ (hp, hl). give (hp, back hl))

  All-map :
      {P Q : Text × Text → Type κ} (l : List (Text × Text))
      → ((p : Text × Text) → P p → Q p)
      → All P l
      → All Q l
  All-map [] f h = tt
  All-map (p ∷ l) f (hp, h) = (f p hp, All-map l f h)

goes_before-le : (q p : Text × Text) → goes_before q p ≡ true → length p.0 ≤ length q.0
unfolding goes_before
goes_before-le (a, _) (b, _) h = ground arith

not_goes_before-le : (q p : Text × Text) → goes_before q p ≡ false → length q.0 ≤ length p.0
unfolding goes_before
not_goes_before-le (a, _) (b, _) h = ground arith

place_pair-Descends :
    (p : Text × Text) (l : List (Text × Text)) → Descends l → Descends (place_pair p l)
unfolding place_pair
place_pair-Descends p [] h = (tt, tt)
place_pair-Descends p (q ∷ l) (below, h) = elim (Bool-cases (goes_before q p)) [
  | inl e ↦ rw e (
    (All-place_pair (λ r. length r.0 ≤ length q.0) p l).1 (goes_before-le q p e, below),
    place_pair-Descends p l h,
  )
  | inr e ↦
      let le = not_goes_before-le q p e in
      rw e ((le, All-map l (λ r b. omega arith) below), (below, h))
]

sort_pairs-Descends : (l : List (Text × Text)) → Descends (sort_pairs l)
unfolding sort_pairs
sort_pairs-Descends [] = tt
sort_pairs-Descends (p ∷ l) = place_pair-Descends p (sort_pairs l) (sort_pairs-Descends l)

place_pair-Memᴰ :
    (r p : Text × Text) (l : List (Text × Text)) → Memᴰ r (place_pair p l) → Memᴰ r (p ∷ l)
unfolding place_pair
place_pair-Memᴰ r p [] m = m
place_pair-Memᴰ r p (q ∷ l) m = elim (Bool-cases (goes_before q p)) [
  | inl e ↦ elim (Memᴰ.cases_cons (rw e at m)) [
    | inl same ↦ Memᴰ.tail (Memᴰ.head same)
    | inr later ↦ elim (Memᴰ.cases_cons (place_pair-Memᴰ r p l later)) [
      | inl same ↦ Memᴰ.head same
      | inr deeper ↦ Memᴰ.tail (Memᴰ.tail deeper)
    ]
  ]
  | inr e ↦ rw e at m
]

sort_pairs-Memᴰ : (r : Text × Text) (l : List (Text × Text)) → Memᴰ r (sort_pairs l) → Memᴰ r l
unfolding sort_pairs
sort_pairs-Memᴰ r [] m = m
sort_pairs-Memᴰ r (p ∷ l) m = elim (Memᴰ.cases_cons (place_pair-Memᴰ r p (sort_pairs l) m)) [
  | inl same ↦ Memᴰ.head same
  | inr later ↦ Memᴰ.tail (sort_pairs-Memᴰ r l later)
]

-- What the source of a term is to a list of namespaces: none starts the term, or it owns one that does
-- and none that does is longer.
abbrev pub Answers : Text → List (Text × Text) → Option Text → Type 0
Answers uri table none = All (λ p. starts_with p.0 uri ≡ false) table
Answers uri table (some name) =
    (namespace : Text) × Memᴰ (namespace, name) table
    × (starts_with namespace uri ≡ true)
    × All (λ p. starts_with p.0 uri ≡ true → length p.0 ≤ length namespace) table

Answers-later :
    (uri : Text) (p : Text × Text) (table : List (Text × Text)) (o : Option Text)
    → starts_with p.0 uri ≡ false
    → Answers uri table o
    → Answers uri (p ∷ table) o
Answers-later uri p table none h none_starts = (h, none_starts)
Answers-later uri p table (some name) h (namespace, m, starts, longest) =
    (namespace, Memᴰ.tail m, starts, (λ s. absurd (false≢true (sym h ∙ s)), longest))

Answers-sort_pairs :
    (uri : Text) (table : List (Text × Text)) (o : Option Text)
    → Answers uri (sort_pairs table) o
    → Answers uri table o
Answers-sort_pairs uri table none none_starts =
    (All-sort_pairs (λ p. starts_with p.0 uri ≡ false) table).0 none_starts
Answers-sort_pairs uri table (some name) (namespace, m, starts, longest) = (
  namespace,
  sort_pairs-Memᴰ (namespace, name) table m,
  starts,
  (All-sort_pairs (λ p. starts_with p.0 uri ≡ true → length p.0 ≤ length namespace) table).0
      longest,
)

source_of-Answers :
    (uri : Text) (table : List (Text × Text))
    → Descends table
    → Answers uri table (source_of uri table)
unfolding source_of
source_of-Answers uri [] h = tt
source_of-Answers uri ((namespace, name) ∷ table) (below, h) =
    elim (Bool-cases (starts_with namespace uri)) [
      | inl e ↦
          rw e
            (namespace, Memᴰ.head refl, e, (λ s. omega arith, All-map table (λ p le s. le) below))
      | inr e ↦ rw e (
          Answers-later uri (namespace, name) table (source_of uri table) e
            (source_of-Answers uri table h))
    ]

-- The source of a term is that of a namespace it starts with, owned by one of the specs, such that no
-- owned namespace that the term starts with is longer; there is none exactly where the term starts with
-- no owned namespace.
pub source_of_type_uri-Answers :
    (uri : Text) (specs : List SourceSpec)
    → Answers uri (owned specs) (source_of_type_uri uri specs)
unfolding source_of_type_uri owned_namespaces
source_of_type_uri-Answers uri specs =
    Answers-sort_pairs uri (owned specs) (source_of uri (sort_pairs (owned specs)))
      (source_of-Answers uri (sort_pairs (owned specs)) (sort_pairs-Descends (owned specs)))
