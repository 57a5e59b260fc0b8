-- ===== src/Edges/Numbered.antt =====
-- spark_jobs/pyg_builder/edge_feature_extractor.py: the number that the extractor gives to each edge, and the
-- column of the edge in the tensor of its type.
use pyg_knowledge_graph_buil.Base.Bools.{or_out}
use pyg_knowledge_graph_buil.Base.{
  ℕ, zero, suc, [], ◌∷◌, false, some, List, Bool, refl, All, arith, ◌≡◌, ap, ap₂, inl, inr,
  Bool-cases, ◌∙◌, ◌||◌, ◌&&◌, ◌++◌, any, sym, ◌==◌, get_elem?, ◌+◌, All-append, any-append,
}
use pyg_knowledge_graph_buil.Base.Texts.{text_eq}
use pyg_knowledge_graph_buil.Edges.{Edge, EdgeType, keys_by_id, pairs_of, type_eq}
use pyg_knowledge_graph_buil.Edges.Build.{EdgeIndices, lookup_index, is_empty, collect_indices}
use pyg_knowledge_graph_buil.Edges.Types.{type_eq-same}
use pyg_knowledge_graph_buil.Edges.Ids.{any-keys_by_id}
use pyg_knowledge_graph_buil.Edges.Sorted.{sort_ends}
use pyg_knowledge_graph_buil.Edges.Pairs.{
  has_pair, has_pair-sort_ends, has_pair-pairs_of, edge_among,
}
use pyg_knowledge_graph_buil.Edges.Indexed.{columns, index_at, collect_indices-index_at}

-- A row of `edges_with_idx`.
pub record NumberedEdge : Type 0 where
  pub edge : Edge
  pub edge_idx : ℕ

-- `row_number() - 1` over the edges of a type by source and destination, from a number on.
abbrev pub number_ends : EdgeType → ℕ → List (ℕ × ℕ) → List NumberedEdge
number_ends key n [] = []
number_ends key n ((s, d) ∷ ps) =
    record { edge = record { edge_type = key; src_id = s; dst_id = d }; edge_idx = n }
    ∷ number_ends key (suc n) ps

abbrev pub number_edge_types : List Edge → List EdgeType → List NumberedEdge
number_edge_types edges [] = []
number_edge_types edges (key ∷ keys) =
    number_ends key 0 (sort_ends (pairs_of key edges)) ++ number_edge_types edges keys

-- `edges_with_idx`
unfoldable pub edges_with_idx : List Edge → List NumberedEdge
unfolding sort_ends keys_by_id text_eq
edges_with_idx edges = number_edge_types edges (keys_by_id edges)

-- The tensor of the edge's type has its ids in the column of its number.
abbrev pub InColumn : EdgeIndices → NumberedEdge → Type 0
InColumn indices row =
    (srcs : List ℕ) × (dsts : List ℕ) × (lookup_index row.edge.edge_type indices
      ≡ some (srcs, dsts))
    × (get_elem? srcs row.edge_idx ≡ some row.edge.src_id)
    × (get_elem? dsts row.edge_idx ≡ some row.edge.dst_id)

-- Whether an edge is numbered.
abbrev pub is_numbered : EdgeType → ℕ → ℕ → List NumberedEdge → Bool
is_numbered key s d rows =
    any (λ row. type_eq row.edge.edge_type key && (row.edge.src_id == s && row.edge.dst_id == d))
      rows

get_elem?-ends :
    (ps : List (ℕ × ℕ)) (i s d : ℕ)
    → get_elem? ps i ≡ some (s, d)
    → (get_elem? (columns ps).0 i ≡ some s) × (get_elem? (columns ps).1 i ≡ some d)
get_elem?-ends [] i s d h = (cc, cc)
get_elem?-ends (p ∷ ps) zero s d h = (cc, cc)
get_elem?-ends (p ∷ ps) (suc i) s d h = get_elem?-ends ps i s d h

-- Each numbered pair is in its place of a list that goes on as the pairs do.
number_ends-places :
    (key : EdgeType) (all_ends ps : List (ℕ × ℕ)) (n : ℕ)
    → ((j : ℕ) → get_elem? ps j ≡ get_elem? all_ends (n + j))
    → All
        (λ row.
          (row.edge.edge_type ≡ key)
          × (get_elem? all_ends row.edge_idx ≡ some (row.edge.src_id, row.edge.dst_id)))
        (number_ends key n ps)
number_ends-places key all_ends [] n h = tt
number_ends-places key all_ends ((s, d) ∷ ps) n h = (
  (refl, (let here : n + 0 ≡ n = omega arith in sym (h 0 ∙ ap (get_elem? all_ends) here))),
  number_ends-places key all_ends ps (suc n) (λ j.
      let next : n + suc j ≡ suc n + j = omega arith in h (suc j) ∙ ap (get_elem? all_ends) next),
)

place-InColumn :
    (indices : EdgeIndices) (ps : List (ℕ × ℕ)) (row : NumberedEdge)
    → lookup_index row.edge.edge_type indices ≡ index_at ps
    → get_elem? ps row.edge_idx ≡ some (row.edge.src_id, row.edge.dst_id)
    → InColumn indices row
place-InColumn indices [] row found h = cc
place-InColumn indices (p ∷ ps) row found h =
    let (src, dst) = get_elem?-ends (p ∷ ps) row.edge_idx row.edge.src_id row.edge.dst_id h in
    ((columns (p ∷ ps)).0, (columns (p ∷ ps)).1, found, src, dst)

All-map-numbered :
    (P Q : NumberedEdge → Type 0) (rows : List NumberedEdge)
    → ((row : NumberedEdge) → P row → Q row)
    → All P rows
    → All Q rows
All-map-numbered P Q [] f h = tt
All-map-numbered P Q (row ∷ rows) f (p, h) = (f row p, All-map-numbered P Q rows f h)

number_edge_types-InColumn :
    (indices : EdgeIndices) (edges : List Edge) (keys : List EdgeType)
    → ((key : EdgeType) → lookup_index key indices ≡ index_at (sort_ends (pairs_of key edges)))
    → All (InColumn indices) (number_edge_types edges keys)
number_edge_types-InColumn indices edges [] found = tt
number_edge_types-InColumn indices edges (key ∷ keys) found =
    let ps = sort_ends (pairs_of key edges) in
    All-append (InColumn indices) (number_ends key 0 ps) (number_edge_types edges keys)
      (All-map-numbered
        (λ row.
          (row.edge.edge_type ≡ key)
          × (get_elem? ps row.edge_idx ≡ some (row.edge.src_id, row.edge.dst_id)))
        (InColumn indices) (number_ends key 0 ps)
        (λ row (own, place).
          place-InColumn indices ps row (ap (λ k. lookup_index k indices) own ∙ found key) place)
        (number_ends-places key ps ps 0
          (λ j. let same : j ≡ 0 + j = omega arith in ap (get_elem? ps) same)))
      (number_edge_types-InColumn indices edges keys found)

and_nothing : (a : Bool) → false ≡ (a && false)
and_nothing a = ground arith

and_out : (a b c : Bool) → ((a && b) || (a && c)) ≡ (a && (b || c))
and_out a b c = ground arith

one_typed : (a b t e : Bool) → (t && e) ≡ e → ((a || t) && ((a && b) || e)) ≡ ((a && b) || e)
one_typed a b t e h = ground arith

is_numbered-number_ends :
    (key k : EdgeType) (s d n : ℕ) (ps : List (ℕ × ℕ))
    → is_numbered key s d (number_ends k n ps) ≡ (type_eq k key && has_pair s d ps)
is_numbered-number_ends key k s d n [] = and_nothing (type_eq k key)
is_numbered-number_ends key k s d n ((u, v) ∷ ps) =
    ap (λ b. (type_eq k key && (u == s && v == d)) || b)
      (is_numbered-number_ends key k s d (suc n) ps)
    ∙ and_out (type_eq k key) (u == s && v == d) (has_pair s d ps)

own_type :
    (key k : EdgeType) (s d : ℕ) (edges : List Edge)
    → (type_eq k key && has_pair s d (sort_ends (pairs_of k edges)))
      ≡ (type_eq k key && edge_among key s d edges)
own_type key k s d edges = elim (Bool-cases (type_eq k key)) [
  | inr e ↦ rw e refl
  | inl e ↦
      rw (e, type_eq-same k key e)
        (has_pair-sort_ends s d (pairs_of key edges) ∙ has_pair-pairs_of key s d edges)
]

is_numbered-types :
    (key : EdgeType) (s d : ℕ) (edges : List Edge) (keys : List EdgeType)
    → is_numbered key s d (number_edge_types edges keys)
      ≡ (any (λ k. type_eq k key) keys && edge_among key s d edges)
is_numbered-types key s d edges [] = refl
is_numbered-types key s d edges (k ∷ keys) =
    any-append _ (number_ends k 0 (sort_ends (pairs_of k edges))) (number_edge_types edges keys)
    ∙ ap₂ (λ a b. a || b)
        (is_numbered-number_ends key k s d 0 (sort_ends (pairs_of k edges))
          ∙ own_type key k s d edges)
        (is_numbered-types key s d edges keys)
    ∙ or_out (type_eq k key) (any (λ j. type_eq j key) keys) (edge_among key s d edges)

-- An edge has a type.
typed_edge :
    (key : EdgeType) (s d : ℕ) (edges : List Edge)
    → (any (λ edge. type_eq edge.edge_type key) edges && edge_among key s d edges)
      ≡ edge_among key s d edges
typed_edge key s d [] = refl
typed_edge key s d (edge ∷ edges) =
    one_typed (type_eq edge.edge_type key) (edge.src_id == s && edge.dst_id == d) _ _
      (typed_edge key s d edges)

-- Where there is an edge, the dict of tensors is made, and the extractor numbers exactly the edges, each by a
-- number whose column in the tensor of the edge's type has its source and its destination.
pub edges_with_idx-InColumn :
    (budget : ℕ) (edges : List Edge)
    → is_empty edges ≡ false
    → (indices : EdgeIndices) × (collect_indices budget edges ≡ some indices)
      × All (InColumn indices) (edges_with_idx edges)
      × ((key : EdgeType) (s d : ℕ)
          → is_numbered key s d (edges_with_idx edges) ≡ edge_among key s d edges)
unfolding edges_with_idx
edges_with_idx-InColumn budget edges filled =
    let (indices, made, found) = collect_indices-index_at budget edges filled in
    (
      indices,
      made,
      number_edge_types-InColumn indices edges (keys_by_id edges) found,
      λ key s d.
          is_numbered-types key s d edges (keys_by_id edges)
          ∙ ap (λ b. b && edge_among key s d edges) (any-keys_by_id (λ k. type_eq k key) edges)
          ∙ typed_edge key s d edges,
    )
