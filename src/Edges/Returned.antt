-- ===== src/Edges/Returned.antt =====
-- spark_jobs/pyg_builder/edge_mapper.py: what build_edge_indices returns, or raises.
use mathlib.Core.Bool.{false≢true}
use pyg_knowledge_graph_buil.Naming.Registered.{Right, check_registered_names-Right}
use pyg_knowledge_graph_buil.Sources.Paths.Read.{Rises}
use pyg_knowledge_graph_buil.Base.Bools.{either_true, both}
use pyg_knowledge_graph_buil.Base.{
  ℕ, [], ◌∷◌, true, false, none, some, List, Bool, Option, refl, ◌≡◌, ap, inl, inr, Bool-cases, ◌∙◌,
  ◌||◌, ◌&&◌, ◌⊎◌, any, sym, subst, map, not, ◌≢◌,
}
use pyg_knowledge_graph_buil.Base.Texts.{Text, starts_with, among, text_eq}
use pyg_knowledge_graph_buil.Base.Result.{Result, ok, raise}
use pyg_knowledge_graph_buil.Naming.{
  NameTable, NameCheck, passed, warned, refused, check_registered_names, unknown,
}
use pyg_knowledge_graph_buil.Nodes.{Statement, NodeRow}
use pyg_knowledge_graph_buil.Edges.{
  Edge, EdgeType, edges_resolved, drop_duplicates, keys_by_id, pairs_of, edge_eq,
}
use pyg_knowledge_graph_buil.Edges.Build.{
  EdgeIndices, EdgeConfig, BuildError, unregistered, index_error, lookup_index, collect_indices,
  build_edge_indices, edges_of, is_empty, predicate_uris, unless_refused, returned,
}
use pyg_knowledge_graph_buil.Edges.Types.{type_eq-same}
use pyg_knowledge_graph_buil.Edges.Ids.{any-keys_by_id}
use pyg_knowledge_graph_buil.Edges.Sorted.{sort_ends}
use pyg_knowledge_graph_buil.Edges.Pairs.{
  has_pair, PairsRise, sorted-PairsRise, has_pair-sort_ends, has_pair-pairs_of, edge_among,
  edge_among-drop_duplicates, or_absorbed,
}
use pyg_knowledge_graph_buil.Edges.Joined.{linked, edge_among-edges_resolved}
use pyg_knowledge_graph_buil.Edges.Indexed.{columns, index_at, collect_indices-index_at}
use pyg_knowledge_graph_buil.Naming.Refused.{refuses, no_refusal, refuses-check}

-- What a dict has for a type: nothing, where no pair of nodes is linked by it; or the pairs that are, each
-- once and in order.
abbrev pub IndexesType : (ℕ → ℕ → Bool) → Option (List ℕ × List ℕ) → Type 0
IndexesType links found =
    ((found ≡ none) × ((s d : ℕ) → links s d ≡ false))
    ⊎ ((ps : List (ℕ × ℕ)) × (found ≡ some (columns ps))
        × (ps ≢ [])
        × PairsRise ps
        × ((s d : ℕ) → has_pair s d ps ≡ links s d))

-- Whether an edge has a relation of no registered namespace.
abbrev pub unknown_among : List Edge → Bool
unknown_among edges = any (λ edge. starts_with unknown edge.edge_type.relation) edges

-- Those of the relations that are, each once and in order.
abbrev pub UnknownOf : List Edge → List Text → Type 0
UnknownOf edges names =
    Rises names
    × ((name : Text)
        → among name names
          ≡ (any (λ edge. text_eq edge.edge_type.relation name) edges && starts_with unknown name))

-- What is returned: where names are refused, an error with them; else a dict that has, for each type, the
-- pairs that are linked by it, and the deduplicated edges.
abbrev pub Built :
    (EdgeType → ℕ → ℕ → Bool)
    → Bool
    → List Edge
    → Result BuildError (EdgeIndices × List Edge)
    → Type 0
Built links blocked rows (raise (unregistered names namespaces)) =
    (blocked ≡ true) × UnknownOf rows names
Built links blocked rows (raise index_error) = ⊥
Built links blocked rows (ok (indices, edges)) =
    (blocked ≡ false)
    × ((key : EdgeType) → IndexesType (links key) (lookup_index key indices))
    × ((key : EdgeType) (s d : ℕ) → edge_among key s d edges ≡ links key s d)

cons_filled : (p : ℕ × ℕ) (ps : List (ℕ × ℕ)) → (p ∷ ps) ≢ []
cons_filled p ps h = cc

index_at-IndexesType :
    (links : ℕ → ℕ → Bool) (ps : List (ℕ × ℕ))
    → PairsRise ps
    → ((s d : ℕ) → has_pair s d ps ≡ links s d)
    → IndexesType links (index_at ps)
index_at-IndexesType links [] rises h = inl (refl, λ s d. sym (h s d))
index_at-IndexesType links (p ∷ ps) rises h = inr (p ∷ ps, refl, cons_filled p ps, rises, h)

any-relations :
    (p : Text → Bool) (ks : List EdgeType)
    → any p (map (λ key. key.relation) ks) ≡ any (λ key. p key.relation) ks
any-relations p [] = refl
any-relations p (k ∷ ks) = ap (λ b. p k.relation || b) (any-relations p ks)

repeat_has :
    (q : EdgeType → Bool) (edge : Edge) (edges : List Edge)
    → any (edge_eq edge) edges ≡ true
    → q edge.edge_type ≡ true
    → any (λ e. q e.edge_type) edges ≡ true
repeat_has q edge [] h k = absurd (false≢true h)
repeat_has q edge (e ∷ edges) h k = elim (Bool-cases (edge_eq edge e)) [
  | inl f ↦
      let same = type_eq-same edge.edge_type e.edge_type (both _ _ f).0 in
      rw (subst (λ t. q t ≡ true) same k) refl
  | inr f ↦ either_true (q e.edge_type) _ (repeat_has q edge edges (rw f at h) k)
]

any-drop_duplicates :
    (q : EdgeType → Bool) (edges : List Edge)
    → any (λ edge. q edge.edge_type) (drop_duplicates edges) ≡ any (λ edge. q edge.edge_type) edges
unfolding drop_duplicates
any-drop_duplicates q [] = refl
any-drop_duplicates q (edge ∷ edges) =
    elim (Bool-cases (any (edge_eq edge) (drop_duplicates edges))) [
      | inl e ↦
          rw (e, sym (any-drop_duplicates q edges))
            (or_absorbed (q edge.edge_type) _ (repeat_has q edge (drop_duplicates edges) e))
      | inr e ↦ rw e (ap (λ b. q edge.edge_type || b) (any-drop_duplicates q edges))
    ]

relations_named :
    (edges : List Edge) (name : Text)
    → among name (map (λ key. key.relation) (keys_by_id (drop_duplicates edges)))
      ≡ any (λ edge. text_eq edge.edge_type.relation name) edges
unfolding among
relations_named edges name =
    any-relations (λ relation. text_eq relation name) (keys_by_id (drop_duplicates edges))
    ∙ any-keys_by_id (λ key. text_eq key.relation name) (drop_duplicates edges)
    ∙ any-drop_duplicates (λ key. text_eq key.relation name) edges

indexed-Built :
    (links : EdgeType → ℕ → ℕ → Bool) (budget : ℕ) (edges : List Edge)
    → is_empty (drop_duplicates edges) ≡ false
    → ((key : EdgeType) (s d : ℕ) → edge_among key s d edges ≡ links key s d)
    → Built links false edges
        (returned (drop_duplicates edges) (collect_indices budget (drop_duplicates edges)))
indexed-Built links budget edges filled h =
    let (indices, made, found) = collect_indices-index_at budget (drop_duplicates edges) filled in
    let same = λ (key : EdgeType) (s d : ℕ). edge_among-drop_duplicates key s d edges ∙ h key s d in
    rw made (
      refl,
      λ key. subst (IndexesType (links key)) (sym (found key)) (
          index_at-IndexesType (links key) (sort_ends (pairs_of key (drop_duplicates edges)))
            (sorted-PairsRise key edges)
            (λ s d.
              has_pair-sort_ends s d (pairs_of key (drop_duplicates edges))
              ∙ has_pair-pairs_of key s d (drop_duplicates edges)
              ∙ same key s d)),
      same,
    )

-- A refusal tells the unknown relations of the edges.
abbrev Tells : List Edge → NameCheck → Type 0
Tells edges passed = Unit
Tells edges (warned _) = Unit
Tells edges (refused names _) = UnknownOf edges names

check-Tells :
    (names : List Text) (allowed : Bool) (find : List Text → List Text) (edges : List Edge)
    (check : NameCheck)
    → ((name : Text) → among name names ≡ any (λ edge. text_eq edge.edge_type.relation name) edges)
    → Right names allowed find check
    → Tells edges check
check-Tells names allowed find edges passed h right = tt
check-Tells names allowed find edges (warned _) h right = tt
check-Tells names allowed find edges (refused found _) h (_, (rises, _, exact), _, _) =
    (rises, λ name. exact name ∙ ap (λ b. b && starts_with unknown name) (h name))

returned-Built :
    (links : EdgeType → ℕ → ℕ → Bool) (check : NameCheck) (budget : ℕ) (edges : List Edge)
    → is_empty (drop_duplicates edges) ≡ false
    → ((key : EdgeType) (s d : ℕ) → edge_among key s d edges ≡ links key s d)
    → Tells edges check
    → Built links (refuses check) edges (
        unless_refused check
          (returned (drop_duplicates edges) (collect_indices budget (drop_duplicates edges))))
returned-Built links (refused names namespaces) budget edges filled h told = (refl, told)
returned-Built links passed budget edges filled h told = indexed-Built links budget edges filled h
returned-Built links (warned names) budget edges filled h told =
    indexed-Built links budget edges filled h

nothing-Built :
    (links : EdgeType → ℕ → ℕ → Bool) (rows edges : List Edge)
    → is_empty edges ≡ true
    → ((key : EdgeType) (s d : ℕ) → edge_among key s d edges ≡ links key s d)
    → Built links false rows (ok ([], edges))
nothing-Built links rows [] e h = (refl, λ key. inl (refl, λ s d. sym (h key s d)), h)
nothing-Built links rows (_ ∷ _) e h = absurd (false≢true e)

none_unknown : (edges : List Edge) → is_empty edges ≡ true → unknown_among edges ≡ false
none_unknown [] e = refl
none_unknown (_ ∷ _) e = absurd (false≢true e)

-- Where some edge has a relation of no registered namespace and the configuration does not allow it, the build
-- fails with those relations, each once and in order; everywhere else it returns, and for each edge type the dict has nothing where no
-- triple joins two nodes by it, and otherwise the pairs of ids that some triple joins, in ascending
-- order by source and destination and each once, whatever the budget; and the edges returned are the same.
pub build_edge_indices-Built :
    (hash : Text → Text) (table : NameTable) (limit : List Text → List Text) (config : EdgeConfig)
    (nodes : List NodeRow) (triples : List Statement)
    → Built
        (linked hash table config.edge_types nodes triples)
        (not config.allow_unregistered_namespaces
          && unknown_among (edges_of (edges_resolved hash table config.edge_types nodes triples)))
        (edges_of (edges_resolved hash table config.edge_types nodes triples))
        (build_edge_indices hash table limit config nodes triples)
unfolding build_edge_indices
build_edge_indices-Built hash table limit config nodes triples =
    let resolved = edges_resolved hash table config.edge_types nodes triples in
    let rows = edges_of resolved in
    let links = linked hash table config.edge_types nodes triples in
    let joined = edge_among-edges_resolved hash table config.edge_types nodes triples in
    let allowed = config.allow_unregistered_namespaces in
    let q = λ (key : EdgeType). starts_with unknown key.relation in
    elim (Bool-cases (is_empty (drop_duplicates rows))) [
      | inl e ↦
          let nothing = sym (any-drop_duplicates q rows) ∙ none_unknown (drop_duplicates rows) e in
          rw (e, nothing, sym (no_refusal allowed))
            (nothing-Built links rows (drop_duplicates rows) e
              (λ key s d. edge_among-drop_duplicates key s d rows ∙ joined key s d))
      | inr e ↦
          let keys = keys_by_id (drop_duplicates rows) in
          let names = map (λ key. key.relation) keys in
          let check = check_registered_names names allowed (predicate_uris limit resolved) in
          let named = relations_named rows in
          let verdict : refuses check ≡ (not allowed && unknown_among rows) =
            refuses-check names allowed (predicate_uris limit resolved)
            ∙ ap (λ b. not allowed && b)
                (any-relations (starts_with unknown) keys
                  ∙ any-keys_by_id q (drop_duplicates rows)
                  ∙ any-drop_duplicates q rows) in
          rw e (
            subst
              (λ b. Built links b rows (
                unless_refused check (
                  returned (drop_duplicates rows)
                    (collect_indices config.edge_collect_row_budget (drop_duplicates rows)))))
              verdict
              (returned-Built links check config.edge_collect_row_budget rows e joined (
                check-Tells names allowed (predicate_uris limit resolved) rows check named
                  (check_registered_names-Right names allowed (predicate_uris limit resolved)))))
    ]
