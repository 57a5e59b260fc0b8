-- ===== src/Edges/Ids.antt =====
-- spark_jobs/pyg_builder/edge_mapper.py: the ids of the edge types, and the edges that bear an id.
use mathlib.Core.Bool.{false≢true}
use mathlib.Core.Option.{some-injective}
use pyg_knowledge_graph_buil.Base.{
  ℕ, zero, suc, [], ◌∷◌, true, false, none, some, List, Bool, Option, refl, All, ◌≡◌, ap, inl, inr,
  Bool-cases, Option-cases, ◌∙◌, ◌||◌, sym, subst, any, ◌==◌, ==_iff, not_==, get_elem?, map,
}
use pyg_knowledge_graph_buil.Edges.{
  Edge, EdgeType, IdRow, type_eq, type_lt, keys_by_id, id_of_key, next_place, join_ids, pairs_of,
}
use pyg_knowledge_graph_buil.Edges.Build.{group_of}
use pyg_knowledge_graph_buil.Edges.Types.{type_eq-same, same-type_eq, type_lt-apart}
use pyg_knowledge_graph_buil.Base.Ascending.{Ascends, any-sort_once}

abbrev has_type : EdgeType → List EdgeType → Bool
has_type key ks = any (λ k. type_eq k key) ks

abbrev has_edge_of : EdgeType → List Edge → Bool
has_edge_of key edges = any (λ edge. type_eq edge.edge_type key) edges

any-types :
    (q : EdgeType → Bool) (edges : List Edge)
    → any q (map (λ edge. edge.edge_type) edges) ≡ any (λ edge. q edge.edge_type) edges
any-types q [] = refl
any-types q (edge ∷ edges) = ap (λ b. q edge.edge_type || b) (any-types q edges)

pub any-keys_by_id :
    (q : EdgeType → Bool) (edges : List Edge)
    → any q (keys_by_id edges) ≡ any (λ edge. q edge.edge_type) edges
unfolding keys_by_id
any-keys_by_id q edges =
    any-sort_once type_lt type_eq type_eq-same q (map (λ edge. edge.edge_type) edges)
    ∙ any-types q edges

next_place-some :
    (o : Option ℕ) (i : ℕ) → next_place o ≡ some i → (j : ℕ) × (o ≡ some j) × (i ≡ suc j)
next_place-some none i h = cc
next_place-some (some j) i h = (j, refl, sym (some-injective _ _ h))

pub id_of_key-get_elem? :
    (ks : List EdgeType) (key : EdgeType) (i : ℕ)
    → id_of_key ks key ≡ some i
    → get_elem? ks i ≡ some key
unfolding id_of_key
id_of_key-get_elem? [] key i h = cc
id_of_key-get_elem? (k ∷ ks) key i h = elim (Bool-cases (type_eq k key)) [
  | inl e ↦
      let zero_id : 0 ≡ i = some-injective _ _ (rw e at h) in
      rw (sym zero_id, type_eq-same k key e) refl
  | inr e ↦
      let (j, found, same) = next_place-some (id_of_key ks key) i (rw e at h) in
      rw same (id_of_key-get_elem? ks key j found)
]

has_type-id_of_key :
    (ks : List EdgeType) (key : EdgeType)
    → has_type key ks ≡ true
    → (i : ℕ) × (id_of_key ks key ≡ some i)
unfolding id_of_key
has_type-id_of_key [] key h = absurd (false≢true h)
has_type-id_of_key (k ∷ ks) key h = elim (Bool-cases (type_eq k key)) [
  | inl e ↦ (0, rw e refl)
  | inr e ↦ let (i, found) = has_type-id_of_key ks key (rw e at h) in (suc i, rw (e, found) refl)
]

later_apart :
    (k key : EdgeType) (ks : List EdgeType) (i : ℕ)
    → All (λ j. type_lt k j ≡ true) ks
    → get_elem? ks i ≡ some key
    → type_eq k key ≡ false
later_apart k key [] i h found = cc
later_apart k key (j ∷ ks) zero (p, h) found =
    subst (λ t. type_eq k t ≡ false) (some-injective _ _ found) (type_lt-apart k j p)
later_apart k key (j ∷ ks) (suc i) (p, h) found = later_apart k key ks i h found

pub get_elem?-id_of_key :
    (ks : List EdgeType) (key : EdgeType) (i : ℕ)
    → Ascends type_lt ks
    → get_elem? ks i ≡ some key
    → id_of_key ks key ≡ some i
unfolding id_of_key
get_elem?-id_of_key [] key i h found = cc
get_elem?-id_of_key (k ∷ ks) key zero h found =
    rw (same-type_eq k key (some-injective _ _ found)) refl
get_elem?-id_of_key (k ∷ ks) key (suc i) (above, h) found =
    rw (later_apart k key ks i above found, get_elem?-id_of_key ks key i h found) refl

-- The type that an id stands for.
abbrev pub Known : List EdgeType → ℕ → Type 0
Known keys i = (key : EdgeType) × (id_of_key keys key ≡ some i)

pub join_ids-Known :
    (keys : List EdgeType) (edges : List Edge)
    → All (λ row. Known keys row.edge_type_id) (join_ids keys edges)
unfolding join_ids
join_ids-Known keys [] = tt
join_ids-Known keys (edge ∷ edges) = elim (Option-cases (id_of_key keys edge.edge_type)) [
  | inl e ↦ rw e (join_ids-Known keys edges)
  | inr (i, e) ↦ rw e ((edge.edge_type, e), join_ids-Known keys edges)
]

-- The ids of the ends.
abbrev pub pairs : List IdRow → List (ℕ × ℕ)
pairs rows = map (λ row. (row.src, row.dst)) rows

module _ (keys : List EdgeType) (key : EdgeType) (i : ℕ) (own : id_of_key keys key ≡ some i) where
  pub same_id :
      (other : EdgeType) (j : ℕ) → id_of_key keys other ≡ some j → (j == i) ≡ type_eq other key
  same_id other j e = elim (Bool-cases (type_eq other key)) [
    | inl f ↦
        let o : some i ≡ some j =
          sym own ∙ subst (λ t. id_of_key keys t ≡ some j) (type_eq-same other key f) e in
        rw f ((==_iff j i).1 (sym (some-injective _ _ o)))
    | inr f ↦ rw f (
        not_== j i (λ same.
          let o : some other ≡ some key =
            sym (id_of_key-get_elem? keys other j e)
            ∙ ap (get_elem? keys) same
            ∙ id_of_key-get_elem? keys key i own in
          false≢true (sym f ∙ same-type_eq other key (some-injective _ _ o))))
  ]

  with_no_id : (other : EdgeType) → id_of_key keys other ≡ none → type_eq other key ≡ false
  with_no_id other e = elim (Bool-cases (type_eq other key)) [
    | inr f ↦ f
    | inl f ↦
        let same = type_eq-same other key f in
        let o : none ≡ some i = sym (subst (λ t. id_of_key keys t ≡ none) same e) ∙ own in cc
  ]

  -- The rows of an id are the edges of its type.
  pub group_of-join_ids :
      (edges : List Edge) → pairs (group_of i (join_ids keys edges)) ≡ pairs_of key edges
  unfolding join_ids
  group_of-join_ids [] = refl
  group_of-join_ids (edge ∷ edges) = elim (Option-cases (id_of_key keys edge.edge_type)) [
    | inl e ↦ rw (e, with_no_id edge.edge_type e) (group_of-join_ids edges)
    | inr (j, e) ↦ elim (Bool-cases (type_eq edge.edge_type key)) [
      | inl f ↦
          rw (e, f, same_id edge.edge_type j e ∙ f)
            (ap (λ t. (edge.src_id, edge.dst_id) ∷ t) (group_of-join_ids edges))
      | inr f ↦ rw (e, f, same_id edge.edge_type j e ∙ f) (group_of-join_ids edges)
    ]
  ]

no_pairs :
    (key : EdgeType) (edges : List Edge) → has_edge_of key edges ≡ false → pairs_of key edges ≡ []
no_pairs key [] h = refl
no_pairs key (edge ∷ edges) h = elim (Bool-cases (type_eq edge.edge_type key)) [
  | inl e ↦ absurd (false≢true (sym (rw e at h)))
  | inr e ↦ rw e (no_pairs key edges (rw e at h))
]

-- A type with no id has no edges.
pub no_id-pairs_of :
    (key : EdgeType) (edges : List Edge)
    → id_of_key (keys_by_id edges) key ≡ none
    → pairs_of key edges ≡ []
no_id-pairs_of key edges h = elim (Bool-cases (has_edge_of key edges)) [
  | inr e ↦ no_pairs key edges e
  | inl e ↦
      let (i, found) =
        has_type-id_of_key (keys_by_id edges) key (any-keys_by_id (λ k. type_eq k key) edges ∙ e) in
      cc
]
