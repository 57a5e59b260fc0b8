-- ===== src/Sources/Terms/Rows.antt =====
-- spark_jobs/sources/__init__.py: the ontology mapper's tables hold every source's rows.
use mathlib.Core.List
use pyg_knowledge_graph_buil.Base.{
  [], ◌∷◌, false, none, inl, inr, refl, List, ◌≡◌, ◌++◌, arith, ap, Bool-cases, sym, subst, ◌∙◌,
  ◌↔◌,
}
use pyg_knowledge_graph_buil.Base.Texts.{Text, among, among-append, text_eq_sym}
use pyg_knowledge_graph_buil.Base.Result.{ok, error_of, error_of-bind}
use pyg_knowledge_graph_buil.Sources.{SourceSpec, names_of}
use pyg_knowledge_graph_buil.Sources.Terms.{merge_into, merge_all}

-- No text twice.
abbrev pub Apart : List Text → Type 0
Apart [] = Unit
Apart (t ∷ texts) = (among t texts ≡ false) × Apart texts

-- The rows of all specs, in their order.
abbrev pub rows_in : (SourceSpec → List (Text × Text)) → List SourceSpec → List (Text × Text)
rows_in rows_of [] = []
rows_in rows_of (spec ∷ specs) = rows_of spec ++ rows_in rows_of specs

names_of-append : (xs ys : List (Text × Text)) → names_of (xs ++ ys) ≡ names_of xs ++ names_of ys
names_of-append [] ys = refl
names_of-append ((t, _) ∷ xs) ys = ap (λ l. t ∷ l) (names_of-append xs ys)

-- A text that is met again is not apart from those before it.
among-Apart : (t : Text) (xs ys : List Text) → Apart (xs ++ t ∷ ys) → among t xs ≡ false
unfolding among
among-Apart t [] ys h = refl
among-Apart t (x ∷ xs) ys (fresh, h) =
    ground (arith, among-append x xs (t ∷ ys), text_eq_sym x t, among-Apart t xs ys h)

Apart-left : (xs ys : List Text) → Apart (xs ++ ys) → Apart xs
unfolding among
Apart-left [] ys h = tt
Apart-left (x ∷ xs) ys (fresh, h) = (ground (arith, among-append x xs ys), Apart-left xs ys h)

Apart-snoc : (t : Text) (xs : List Text) → among t xs ≡ false → Apart xs → Apart (xs ++ t ∷ [])
unfolding among
Apart-snoc t [] fresh h = (refl, tt)
Apart-snoc t (x ∷ xs) fresh (new, h) =
    (ground (arith, among-append x xs (t ∷ []), text_eq_sym x t), Apart-snoc t xs (ground arith) h)

names_of-snoc :
    (t u : Text) (xs : List (Text × Text)) → names_of (xs ++ (t, u) ∷ []) ≡ names_of xs ++ t ∷ []
names_of-snoc t u xs = names_of-append xs ((t, u) ∷ [])

merge_into-Apart :
    (name : Text) (merged rows : List (Text × Text))
    → Apart (names_of merged)
    → error_of (merge_into name merged rows) ≡ none
    → Apart (names_of (merged ++ rows))
unfolding merge_into
merge_into-Apart name merged [] h returned =
    subst (λ l. Apart (names_of l)) (sym (List.append-nil merged)) h
merge_into-Apart name merged ((term, target) ∷ rows) h returned =
    elim (Bool-cases (among term (names_of merged))) [
      | inl e ↦ let raised = rw e at returned in cc
      | inr e ↦
          let snoc = merged ++ (term, target) ∷ [] in
          let apart =
            subst Apart (sym (names_of-snoc term target merged))
              (Apart-snoc term (names_of merged) e h) in
          subst (λ l. Apart (names_of l)) (List.append_assoc merged ((term, target) ∷ []) rows)
            (merge_into-Apart name snoc rows apart (rw e at returned))
    ]

merge_into-ok :
    (name : Text) (merged rows : List (Text × Text))
    → Apart (names_of (merged ++ rows))
    → merge_into name merged rows ≡ ok (merged ++ rows)
unfolding merge_into
merge_into-ok name merged [] h = ap ok (sym (List.append-nil merged))
merge_into-ok name merged ((term, target) ∷ rows) h =
    let snoc = merged ++ (term, target) ∷ [] in
    let assoc = List.append_assoc merged ((term, target) ∷ []) rows in
    let fresh =
      among-Apart term (names_of merged) (names_of rows)
        (subst Apart (names_of-append merged ((term, target) ∷ rows)) h) in
    rw fresh
      (merge_into-ok name snoc rows (subst (λ l. Apart (names_of l)) (sym assoc) h) ∙ ap ok assoc)

merge_all-Apart :
    (rows_of : SourceSpec → List (Text × Text)) (merged : List (Text × Text))
    (specs : List SourceSpec)
    → Apart (names_of merged)
    → error_of (merge_all rows_of merged specs) ≡ none
    → Apart (names_of (merged ++ rows_in rows_of specs))
unfolding merge_all
merge_all-Apart rows_of merged [] h returned =
    subst (λ l. Apart (names_of l)) (sym (List.append-nil merged)) h
merge_all-Apart rows_of merged (spec ∷ specs) h returned =
    let (more, first, rest) =
      error_of-bind (merge_into spec.name merged (rows_of spec))
        (λ more. merge_all rows_of more specs) returned in
    let apart = merge_into-Apart spec.name merged (rows_of spec) h (ap error_of first) in
    subst (λ l. Apart (names_of l))
      (List.append_assoc merged (rows_of spec) (rows_in rows_of specs))
      (merge_all-Apart rows_of (merged ++ rows_of spec) specs apart
        (rw (merge_into-ok spec.name merged (rows_of spec) apart) at returned))

merge_all-ok :
    (rows_of : SourceSpec → List (Text × Text)) (merged : List (Text × Text))
    (specs : List SourceSpec)
    → Apart (names_of (merged ++ rows_in rows_of specs))
    → merge_all rows_of merged specs ≡ ok (merged ++ rows_in rows_of specs)
unfolding merge_all
merge_all-ok rows_of merged [] h = ap ok (sym (List.append-nil merged))
merge_all-ok rows_of merged (spec ∷ specs) h =
    let assoc = List.append_assoc merged (rows_of spec) (rows_in rows_of specs) in
    let apart = subst (λ l. Apart (names_of l)) (sym assoc) h in
    let first = merge_into-ok spec.name merged (rows_of spec) (
      Apart-left (names_of (merged ++ rows_of spec)) (names_of (rows_in rows_of specs))
        (subst Apart (names_of-append (merged ++ rows_of spec) (rows_in rows_of specs)) apart)) in
    rw first (merge_all-ok rows_of (merged ++ rows_of spec) specs apart ∙ ap ok assoc)

-- The tables of rows raise nothing exactly where no term is in two rows, and hold then the rows of every
-- spec, in their order.
pub merge_all-rows_in :
    (rows_of : SourceSpec → List (Text × Text)) (specs : List SourceSpec)
    → ((error_of (merge_all rows_of [] specs) ≡ none) ↔ Apart (names_of (rows_in rows_of specs)))
      × (Apart (names_of (rows_in rows_of specs))
          → merge_all rows_of [] specs ≡ ok (rows_in rows_of specs))
merge_all-rows_in rows_of specs = (
  (merge_all-Apart rows_of [] specs tt, λ apart. ap error_of (merge_all-ok rows_of [] specs apart)),
  merge_all-ok rows_of [] specs,
)
