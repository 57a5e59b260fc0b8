-- ===== src/Nodes/Least.antt =====
-- spark_jobs/pyg_builder/node_mapper.py: the mapping of types of nodes to the URIs they were named after.
use mathlib.Core.Bool.{false≢true}
use pyg_knowledge_graph_buil.Base.{
  [], ◌∷◌, true, false, List, Bool, refl, All, ◌≡◌, ap, ap₂, inl, inr, Bool-cases, ◌∙◌, ◌||◌, ◌&&◌,
  any, sym, subst,
}
use pyg_knowledge_graph_buil.Base.Ascending.{Ascends, sort_once-Ascends, any-sort_once}
use pyg_knowledge_graph_buil.Base.Bools.{both}
use pyg_knowledge_graph_buil.Base.Texts.{
  Text, text_eq, text_eq_iff, text_lt, text_lt_irreflexive, text_lt_trans, text_lt_total, among,
}
use pyg_knowledge_graph_buil.Base.Levels.{level-cases, level_trans, level_total}
use pyg_knowledge_graph_buil.Sources.Paths.Read.{Rises}
use pyg_knowledge_graph_buil.Nodes.Origins.{OriginRow, row_lt, row_eq, sort_origins}
use pyg_knowledge_graph_buil.Nodes.Named.{uris_for}

row_lt_trans : (a b c : OriginRow) → row_lt a b ≡ true → row_lt b c ≡ true → row_lt a c ≡ true
row_lt_trans (a, u) (b, v) (c, w) h k =
    level_trans a b c (text_lt u v) (text_lt v w) (text_lt u w) (text_lt_trans u v w) h k

row_lt_total : (a b : OriginRow) → row_lt a b ≡ false → row_eq a b ≡ false → row_lt b a ≡ true
row_lt_total (a, u) (b, v) h k =
    level_total a b (text_eq u v) (text_lt u v) (text_lt v u) (text_lt_total u v) h k

row_lt-same :
    (name n u v : Text)
    → text_eq n name ≡ true
    → row_lt (name, u) (n, v) ≡ true
    → text_lt u v ≡ true
row_lt-same name n u v e h = elim (level-cases name n (text_lt u v) h) [
  | inl lt ↦ absurd (
      false≢true (
        sym (text_lt_irreflexive name)
        ∙ subst (λ t. text_lt name t ≡ true) ((text_eq_iff n name).0 e) lt))
  | inr (_, lt) ↦ lt
]

uris_for-above :
    (name u : Text) (rows : List OriginRow)
    → All (λ r. row_lt (name, u) r ≡ true) rows
    → All (λ v. text_lt u v ≡ true) (uris_for name rows)
uris_for-above name u [] h = tt
uris_for-above name u ((n, v) ∷ rows) (p, h) = elim (Bool-cases (text_eq n name)) [
  | inl e ↦ rw e (row_lt-same name n u v e p, uris_for-above name u rows h)
  | inr e ↦ rw e (uris_for-above name u rows h)
]

uris_for-Rises :
    (name : Text) (rows : List OriginRow) → Ascends row_lt rows → Rises (uris_for name rows)
uris_for-Rises name [] h = tt
uris_for-Rises name ((n, u) ∷ rows) (above, h) = elim (Bool-cases (text_eq n name)) [
  | inl e ↦
      let own =
        subst (λ t. All (λ r. row_lt (t, u) r ≡ true) rows) ((text_eq_iff n name).0 e) above in
      rw e (uris_for-above name u rows own, uris_for-Rises name rows h)
  | inr e ↦ rw e (uris_for-Rises name rows h)
]

-- Whether a row is of a type and a URI.
abbrev pub has_row : Text → Text → List OriginRow → Bool
has_row name u rows = any (λ r. text_eq r.0 name && text_eq r.1 u) rows

among-uris_for :
    (name u : Text) (rows : List OriginRow) → among u (uris_for name rows) ≡ has_row name u rows
unfolding among
among-uris_for name u [] = refl
among-uris_for name u ((n, v) ∷ rows) = elim (Bool-cases (text_eq n name)) [
  | inl e ↦ rw e (ap (λ b. text_eq v u || b) (among-uris_for name u rows))
  | inr e ↦ rw e (among-uris_for name u rows)
]

row_eq-same : (a b : OriginRow) → row_eq a b ≡ true → a ≡ b
row_eq-same (a, u) (b, v) h =
    let (p, q) = both (text_eq a b) (text_eq u v) h in
    ap₂ (λ s t. (s, t)) ((text_eq_iff a b).0 p) ((text_eq_iff u v).0 q)

-- The URIs of a type in the sorted rows, in order, and those that some row gives it.
pub uris_for-sorted :
    (name : Text) (rows : List OriginRow)
    → Rises (uris_for name (sort_origins rows))
      × ((u : Text) → among u (uris_for name (sort_origins rows)) ≡ has_row name u rows)
unfolding sort_origins
uris_for-sorted name rows = (
  uris_for-Rises name (sort_origins rows)
      (sort_once-Ascends row_lt row_eq row_lt_trans row_lt_total rows),
  λ u.
      among-uris_for name u (sort_origins rows)
      ∙ any-sort_once row_lt row_eq row_eq-same (λ r. text_eq r.0 name && text_eq r.1 u) rows,
)
