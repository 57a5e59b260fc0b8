-- ===== src/Edges/Pairs.antt =====
-- spark_jobs/pyg_builder/edge_mapper.py: the pairs of ids of a type, each once, and in order.
use mathlib.Core.Bool.{false≢true}
use pyg_knowledge_graph_buil.Base.Bools.{or_swap, either_true, both}
use pyg_knowledge_graph_buil.Base.{
  ℕ, [], ◌∷◌, true, false, List, Bool, refl, All, arith, ◌≡◌, ap, inl, inr, Bool-cases, ◌∙◌, ◌||◌,
  ◌&&◌, any, sym, subst, ◌==◌, ltb,
}
use pyg_knowledge_graph_buil.Edges.{
  Edge, EdgeType, pair_le, type_eq, edge_eq, drop_duplicates, pairs_of,
}
use pyg_knowledge_graph_buil.Edges.Sorted.{insert_ends, sort_ends}
use pyg_knowledge_graph_buil.Edges.Types.{type_eq-same, type_eq_sym}

abbrev pub has_pair : ℕ → ℕ → List (ℕ × ℕ) → Bool
has_pair s d [] = false
has_pair s d ((s', d') ∷ ps) = (s' == s && d' == d) || has_pair s d ps

-- In ascending order by source and destination, and each once.
abbrev pub PairsRise : List (ℕ × ℕ) → Type 0
PairsRise [] = Unit
PairsRise ((s, d) ∷ ps) = All (λ p. (ltb s p.0 || (s == p.0 && ltb d p.1)) ≡ true) ps × PairsRise ps

has_pair-insert_ends :
    (s d s' d' : ℕ) (ps : List (ℕ × ℕ))
    → has_pair s d (insert_ends s' d' ps) ≡ ((s' == s && d' == d) || has_pair s d ps)
has_pair-insert_ends s d s' d' [] = refl
has_pair-insert_ends s d s' d' ((u, v) ∷ ps) = elim (Bool-cases (pair_le s' d' u v)) [
  | inl e ↦ rw e refl
  | inr e ↦
      rw (e, has_pair-insert_ends s d s' d' ps)
        (or_swap (u == s && v == d) (s' == s && d' == d) (has_pair s d ps))
]

pub has_pair-sort_ends :
    (s d : ℕ) (ps : List (ℕ × ℕ)) → has_pair s d (sort_ends ps) ≡ has_pair s d ps
unfolding sort_ends
has_pair-sort_ends s d [] = refl
has_pair-sort_ends s d ((u, v) ∷ ps) =
    has_pair-insert_ends s d u v (sort_ends ps)
    ∙ ap (λ b. (u == s && v == d) || b) (has_pair-sort_ends s d ps)

-- Whether a pair comes before another.
abbrev before : ℕ → ℕ → ℕ → ℕ → Bool
before s d s' d' = ltb s s' || (s == s' && ltb d d')

before_trans :
    (a b c d e f : ℕ) → before a b c d ≡ true → before c d e f ≡ true → before a b e f ≡ true
before_trans a b c d e f h k = ground arith

le_before :
    (a b c d : ℕ) → pair_le a b c d ≡ true → (c == a && d == b) ≡ false → before a b c d ≡ true
le_before a b c d h k = ground arith

not_le_before : (a b c d : ℕ) → pair_le a b c d ≡ false → before c d a b ≡ true
not_le_before a b c d h = ground arith

or_none : (a b : Bool) → (a || b) ≡ false → (a ≡ false) × (b ≡ false)
or_none a b h = (ground arith, ground arith)

before-All :
    (a b c d : ℕ) (ps : List (ℕ × ℕ))
    → before a b c d ≡ true
    → All (λ p. before c d p.0 p.1 ≡ true) ps
    → All (λ p. before a b p.0 p.1 ≡ true) ps
before-All a b c d [] lt h = tt
before-All a b c d ((u, v) ∷ ps) lt (p, h) =
    (before_trans a b c d u v lt p, before-All a b c d ps lt h)

All-insert_ends :
    (a b s d : ℕ) (ps : List (ℕ × ℕ))
    → before a b s d ≡ true
    → All (λ p. before a b p.0 p.1 ≡ true) ps
    → All (λ p. before a b p.0 p.1 ≡ true) (insert_ends s d ps)
All-insert_ends a b s d [] lt h = (lt, tt)
All-insert_ends a b s d ((u, v) ∷ ps) lt (p, h) = elim (Bool-cases (pair_le s d u v)) [
  | inl e ↦ rw e (lt, (p, h))
  | inr e ↦ rw e (p, All-insert_ends a b s d ps lt h)
]

insert_ends-PairsRise :
    (s d : ℕ) (ps : List (ℕ × ℕ))
    → has_pair s d ps ≡ false
    → PairsRise ps
    → PairsRise (insert_ends s d ps)
insert_ends-PairsRise s d [] new h = (tt, tt)
insert_ends-PairsRise s d ((u, v) ∷ ps) new (above, h) =
    let (apart, later) = or_none (u == s && v == d) (has_pair s d ps) new in
    elim (Bool-cases (pair_le s d u v)) [
      | inl e ↦
          let lt = le_before s d u v e apart in
          rw e ((lt, before-All s d u v ps lt above), (above, h))
      | inr e ↦ rw e (
        All-insert_ends u v s d ps (not_le_before s d u v e) above,
        insert_ends-PairsRise s d ps later h,
      )
    ]

-- Each pair once.
abbrev PairsOnce : List (ℕ × ℕ) → Type 0
PairsOnce [] = Unit
PairsOnce ((s, d) ∷ ps) = (has_pair s d ps ≡ false) × PairsOnce ps

sort_ends-PairsRise : (ps : List (ℕ × ℕ)) → PairsOnce ps → PairsRise (sort_ends ps)
unfolding sort_ends
sort_ends-PairsRise [] h = tt
sort_ends-PairsRise ((s, d) ∷ ps) (new, h) =
    insert_ends-PairsRise s d (sort_ends ps) (has_pair-sort_ends s d ps ∙ new)
      (sort_ends-PairsRise ps h)

-- Whether a frame has an edge of a type between two ids.
abbrev pub edge_among : EdgeType → ℕ → ℕ → List Edge → Bool
edge_among key s d edges =
    any (λ edge. type_eq edge.edge_type key && (edge.src_id == s && edge.dst_id == d)) edges

pub has_pair-pairs_of :
    (key : EdgeType) (s d : ℕ) (edges : List Edge)
    → has_pair s d (pairs_of key edges) ≡ edge_among key s d edges
has_pair-pairs_of key s d [] = refl
has_pair-pairs_of key s d (edge ∷ edges) = elim (Bool-cases (type_eq edge.edge_type key)) [
  | inl e ↦
      rw e (ap (λ b. (edge.src_id == s && edge.dst_id == d) || b) (has_pair-pairs_of key s d edges))
  | inr e ↦ rw e (has_pair-pairs_of key s d edges)
]

pub or_absorbed : (a b : Bool) → (a ≡ true → b ≡ true) → b ≡ (a || b)
or_absorbed a b h = elim (Bool-cases a) [ inl e ↦ rw (e, h e) refl | inr e ↦ rw e refl ]

same_pair :
    (s d s' d' u v : ℕ)
    → (s == s' && d == d') ≡ true
    → (s == u && d == v) ≡ true
    → (s' == u && d' == v) ≡ true
same_pair s d s' d' u v h k = ground arith

unlike :
    (a a' : Bool) (s d s' d' : ℕ)
    → a ≡ a'
    → (a && (s == s' && d == d')) ≡ false
    → ((a' && (s' == s && d' == d)) || false) ≡ false
unlike a a' s d s' d' e h = ground arith

-- An edge equal to one of the list adds nothing to it.
repeat_adds :
    (key : EdgeType) (s d : ℕ) (edge : Edge) (edges : List Edge)
    → any (edge_eq edge) edges ≡ true
    → (type_eq edge.edge_type key && (edge.src_id == s && edge.dst_id == d)) ≡ true
    → edge_among key s d edges ≡ true
repeat_adds key s d edge [] h k = absurd (false≢true h)
repeat_adds key s d edge (e ∷ edges) h k = elim (Bool-cases (edge_eq edge e)) [
  | inl f ↦
      let (types, ids) =
        both (type_eq edge.edge_type e.edge_type)
          (edge.src_id == e.src_id && edge.dst_id == e.dst_id) f in
      let (own, pair) =
        both (type_eq edge.edge_type key) (edge.src_id == s && edge.dst_id == d) k in
      let named : type_eq e.edge_type key ≡ true =
        subst (λ t. type_eq t key ≡ true) (type_eq-same edge.edge_type e.edge_type types) own in
      rw (named, same_pair edge.src_id edge.dst_id e.src_id e.dst_id s d ids pair) refl
  | inr f ↦
      either_true (type_eq e.edge_type key && (e.src_id == s && e.dst_id == d)) _
        (repeat_adds key s d edge edges (rw f at h) k)
]

pub edge_among-drop_duplicates :
    (key : EdgeType) (s d : ℕ) (edges : List Edge)
    → edge_among key s d (drop_duplicates edges) ≡ edge_among key s d edges
unfolding drop_duplicates
edge_among-drop_duplicates key s d [] = refl
edge_among-drop_duplicates key s d (edge ∷ edges) =
    elim (Bool-cases (any (edge_eq edge) (drop_duplicates edges))) [
      | inl e ↦ rw e (
          or_absorbed (type_eq edge.edge_type key && (edge.src_id == s && edge.dst_id == d))
            (edge_among key s d (drop_duplicates edges))
            (repeat_adds key s d edge (drop_duplicates edges) e)
          ∙ ap (λ b. (type_eq edge.edge_type key && (edge.src_id == s && edge.dst_id == d)) || b)
              (edge_among-drop_duplicates key s d edges))
      | inr e ↦ rw e (
          ap (λ b. (type_eq edge.edge_type key && (edge.src_id == s && edge.dst_id == d)) || b)
            (edge_among-drop_duplicates key s d edges))
    ]

new_pair :
    (key : EdgeType) (edge : Edge) (edges : List Edge)
    → type_eq edge.edge_type key ≡ true
    → any (edge_eq edge) edges ≡ false
    → edge_among key edge.src_id edge.dst_id edges ≡ false
new_pair key edge [] own h = refl
new_pair key edge (e ∷ edges) own h =
    let (apart, later) = or_none (edge_eq edge e) (any (edge_eq edge) edges) h in
    rw (new_pair key edge edges own later, sym (type_eq-same edge.edge_type key own))
      (unlike (type_eq edge.edge_type e.edge_type) (type_eq e.edge_type edge.edge_type) edge.src_id
        edge.dst_id e.src_id e.dst_id (type_eq_sym edge.edge_type e.edge_type) apart)

pairs_of-PairsOnce :
    (key : EdgeType) (edges : List Edge) → PairsOnce (pairs_of key (drop_duplicates edges))
unfolding drop_duplicates
pairs_of-PairsOnce key [] = tt
pairs_of-PairsOnce key (edge ∷ edges) =
    elim (Bool-cases (any (edge_eq edge) (drop_duplicates edges))) [
      | inl e ↦ rw e (pairs_of-PairsOnce key edges)
      | inr e ↦ elim (Bool-cases (type_eq edge.edge_type key)) [
        | inl f ↦
            rw (e, f)
              (
                has_pair-pairs_of key edge.src_id edge.dst_id (drop_duplicates edges)
                    ∙ new_pair key edge (drop_duplicates edges) f e,
                pairs_of-PairsOnce key edges,
              )
        | inr f ↦ rw (e, f) (pairs_of-PairsOnce key edges)
      ]
    ]

pub sorted-PairsRise :
    (key : EdgeType) (edges : List Edge)
    → PairsRise (sort_ends (pairs_of key (drop_duplicates edges)))
sorted-PairsRise key edges =
    sort_ends-PairsRise (pairs_of key (drop_duplicates edges)) (pairs_of-PairsOnce key edges)
