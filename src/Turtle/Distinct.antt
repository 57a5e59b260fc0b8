-- ===== src/Turtle/Distinct.antt =====
-- spark_jobs/graph/turtle.py: every blank node has a label, and what two with the same one have in common.
use pyg_knowledge_graph_buil.Base.{
  ℕ, suc, [], ◌∷◌, List, refl, All, ◌≡◌, ◌++◌, length, inl, inr, Bool-cases, ◌⊎◌, ltb, ◌≤◌,
}
use pyg_knowledge_graph_buil.Base.Texts.{Text, text_eq}
use pyg_knowledge_graph_buil.Turtle.Terms.{Triple}
use pyg_knowledge_graph_buil.Turtle.Labels.{
  bnodes, Groups, file_under, group_all, numbered, plain, labels_of_group, labels_of_groups,
  refined, deterministic_bnode_labels,
}
use pyg_knowledge_graph_buil.Turtle.Numbered.{Has}
use pyg_knowledge_graph_buil.Turtle.Apart.{group_all-Separate, labels_of_groups-Distinct, Distinct}

abbrev In : Text → List Text → Type 0
In id [] = ⊥
In id (x ∷ ids) = (x ≡ id) ⊎ In id ids

abbrev InGroups : Text → Groups → Type 0
InGroups id [] = ⊥
InGroups id ((_, ids) ∷ groups) = In id ids ⊎ InGroups id groups

In-append : (id x : Text) (ids : List Text) → In id ids → In id (ids ++ (x ∷ []))
In-append id x [] h = absurd h
In-append id x (y ∷ ids) (inl h) = inl h
In-append id x (y ∷ ids) (inr h) = inr (In-append id x ids h)

In-last : (id : Text) (ids : List Text) → In id (ids ++ (id ∷ []))
In-last id [] = inl refl
In-last id (y ∷ ids) = inr (In-last id ids)

file_under-In :
    (signature id : Text) (groups : Groups) → InGroups id (file_under signature id groups)
unfolding file_under
file_under-In signature id [] = inl (inl refl)
file_under-In signature id ((s, ids) ∷ groups) = elim (Bool-cases (text_eq s signature)) [
  | inl e ↦ rw e (inl (In-last id ids))
  | inr e ↦ rw e (inr (file_under-In signature id groups))
]

file_under-keeps :
    (signature id x : Text) (groups : Groups)
    → InGroups x groups
    → InGroups x (file_under signature id groups)
unfolding file_under
file_under-keeps signature id x [] h = absurd h
file_under-keeps signature id x ((s, ids) ∷ groups) h = elim (Bool-cases (text_eq s signature)) [
  | inl e ↦ rw e (elim h [ inl k ↦ inl (In-append x id ids k) | inr k ↦ inr k ])
  | inr e ↦ rw e (elim h [ inl k ↦ inl k | inr k ↦ inr (file_under-keeps signature id x groups k) ])
]

group_all-keeps :
    (signature : Text → Text) (ids : List Text) (groups : Groups) (x : Text)
    → InGroups x groups
    → InGroups x (group_all signature ids groups)
unfolding group_all
group_all-keeps signature [] groups x h = h
group_all-keeps signature (id ∷ ids) groups x h =
    group_all-keeps signature ids (file_under (signature id) id groups) x
      (file_under-keeps (signature id) id x groups h)

group_all-InGroups :
    (signature : Text → Text) (ids : List Text) (groups : Groups)
    → All (λ id. InGroups id (group_all signature ids groups)) ids
unfolding group_all
group_all-InGroups signature [] groups = tt
group_all-InGroups signature (id ∷ ids) groups = (
  group_all-keeps signature ids (file_under (signature id) id groups) id
      (file_under-In (signature id) id groups),
  group_all-InGroups signature ids (file_under (signature id) id groups),
)

abbrev pub Labelled : List (Text × Text) → Text → Type 0
Labelled labels id = (label : Text) × Has id label labels

numbered-Labelled :
    (signature id : Text) (index : ℕ) (ids : List Text)
    → In id ids
    → Labelled (numbered signature index ids) id
unfolding numbered
numbered-Labelled signature id index [] h = absurd h
numbered-Labelled signature id index (x ∷ ids) (inl h) = (_, inl (h, refl))
numbered-Labelled signature id index (x ∷ ids) (inr h) =
    let (label, k) = numbered-Labelled signature id (suc index) ids h in (label, inr k)

plain-Labelled :
    (signature id : Text) (ids : List Text) → In id ids → Labelled (plain signature ids) id
plain-Labelled signature id [] h = absurd h
plain-Labelled signature id (x ∷ ids) (inl h) = (_, inl (h, refl))
plain-Labelled signature id (x ∷ ids) (inr h) =
    let (label, k) = plain-Labelled signature id ids h in (label, inr k)

labels_of_group-Labelled :
    (signature id : Text) (ids : List Text)
    → In id ids
    → Labelled (labels_of_group signature ids) id
unfolding labels_of_group
labels_of_group-Labelled signature id ids h = elim (Bool-cases (ltb 1 (length ids))) [
  | inl e ↦ rw e (numbered-Labelled signature id 0 ids h)
  | inr e ↦ rw e (plain-Labelled signature id ids h)
]

append-Labelled :
    (xs ys : List (Text × Text)) (id : Text)
    → Labelled xs id ⊎ Labelled ys id
    → Labelled (xs ++ ys) id
append-Labelled [] ys id (inl (_, h)) = absurd h
append-Labelled [] ys id (inr h) = h
append-Labelled (x ∷ xs) ys id (inl (label, inl h)) = (label, inl h)
append-Labelled (x ∷ xs) ys id (inl (label, inr h)) =
    let (l, k) = append-Labelled xs ys id (inl (label, h)) in (l, inr k)
append-Labelled (x ∷ xs) ys id (inr h) = let (l, k) = append-Labelled xs ys id (inr h) in (l, inr k)

labels_of_groups-Labelled :
    (id : Text) (groups : Groups) → InGroups id groups → Labelled (labels_of_groups groups) id
unfolding labels_of_groups
labels_of_groups-Labelled id [] h = absurd h
labels_of_groups-Labelled id ((s, ids) ∷ groups) (inl h) =
    append-Labelled (labels_of_group s ids) (labels_of_groups groups) id
      (inl (labels_of_group-Labelled s id ids h))
labels_of_groups-Labelled id ((s, ids) ∷ groups) (inr h) =
    append-Labelled (labels_of_group s ids) (labels_of_groups groups) id
      (inr (labels_of_groups-Labelled id groups h))

All-map :
    {P Q : Text → Type 0} (ids : List Text) → ((id : Text) → P id → Q id) → All P ids → All Q ids
All-map [] f h = tt
All-map (x ∷ ids) f (p, h) = (f x p, All-map ids f h)

-- After one round of the refinement or more, with a digest of 32 characters or more, every blank node that
-- the order goes through has a label, and two that have the same one are the same, or their signatures,
-- which are not equal, begin with the same 32 characters.
pub deterministic_bnode_labels-Distinct :
    (digest : Text → Text) (order : List Text → List Text) (rounds : ℕ) (graph : List Triple)
    → ((text : Text) → 32 ≤ length (digest text))
    → All
        (Labelled (deterministic_bnode_labels digest order (suc rounds) graph))
        (order (bnodes graph))
      × Distinct
          (refined digest (suc rounds) graph)
          (deterministic_bnode_labels digest order (suc rounds) graph)
unfolding deterministic_bnode_labels refined
deterministic_bnode_labels-Distinct digest order rounds graph long =
    let signature = refined digest (suc rounds) graph in
    let filed = group_all signature (order (bnodes graph)) [] in
    (
      All-map (order (bnodes graph)) (λ id h. labels_of_groups-Labelled id filed h)
          (group_all-InGroups signature (order (bnodes graph)) []),
      labels_of_groups-Distinct signature filed (λ id. long _)
          (group_all-Separate signature (order (bnodes graph)) [] tt),
    )
