-- ===== src/Nodes/First.antt =====
-- spark_jobs/pyg_builder/node_mapper.py: the type that an entity is given is one of its types, and none of
-- them ranks before it.
use mathlib.Core.Bool.{false≢true}
use pyg_knowledge_graph_buil.Base.Bools.{or_swap}
use pyg_knowledge_graph_buil.Base.{
  [], ◌∷◌, true, false, List, Bool, refl, All, ◌≡◌, ◌&&◌, inl, inr, Bool-cases, subst, sym, ◌∙◌,
  ◌||◌, ◌++◌, any, ap,
}
use pyg_knowledge_graph_buil.Base.Texts.{
  Text, text_eq, text_eq_refl, among, text_eq_iff, text_eq_sym,
}
use pyg_knowledge_graph_buil.Nodes.Keys.{KeysApart, by_uri-KeysApart}
use pyg_knowledge_graph_buil.Nodes.{
  TypeRow, ranks_before, by_uri, has_type, ranked, subsumed_node_types, rank_groups, rank_one,
}
use pyg_knowledge_graph_buil.Turtle.Labels.{Groups, file_under}
use pyg_knowledge_graph_buil.Sources.{is_none}
use pyg_knowledge_graph_buil.Nodes.Order.{
  or_move, or_nothing, spread, among-first_ranked, first_ranked-First,
}

-- Whether some group of a URI has a type.
abbrev typed : Text → Text → Groups → Bool
typed uri name groups = any (λ g. text_eq g.0 uri && among name g.1) groups

among-last :
    (name new : Text) (names : List Text)
    → among name (names ++ (new ∷ [])) ≡ (text_eq new name || among name names)
unfolding among
among-last name new [] = refl
among-last name new (n ∷ names) =
    ap (λ b. text_eq n name || b) (among-last name new names)
    ∙ or_swap (text_eq n name) (text_eq new name) (among name names)

typed-file_under :
    (uri name key new : Text) (groups : Groups)
    → typed uri name (file_under key new groups)
      ≡ ((text_eq key uri && text_eq new name) || typed uri name groups)
unfolding file_under among
typed-file_under uri name key new [] =
    ap (λ b. (text_eq key uri && b) || false) (or_nothing (text_eq new name))
typed-file_under uri name key new ((u, names) ∷ groups) = elim (Bool-cases (text_eq u key)) [
  | inl f ↦
      let same : u ≡ key = (text_eq_iff u key).0 f in
      rw (f, same, among-last name new names)
        (spread (text_eq key uri) (text_eq new name) (among name names) (typed uri name groups))
  | inr f ↦
      rw (f, typed-file_under uri name key new groups)
        (or_swap (text_eq u uri && among name names) (text_eq key uri && text_eq new name)
          (typed uri name groups))
]

typed-by_uri :
    (uri name : Text) (rows : List TypeRow) (groups : Groups)
    → typed uri name (by_uri rows groups) ≡ (has_type rows uri name || typed uri name groups)
unfolding by_uri has_type
typed-by_uri uri name [] groups = refl
typed-by_uri uri name ((u, n) ∷ rows) groups =
    typed-by_uri uri name rows (file_under u n groups)
    ∙ ap (λ b. has_type rows uri name || b) (typed-file_under uri name u n groups)
    ∙ or_move (has_type rows uri name) (text_eq u uri && text_eq n name) (typed uri name groups)

absent :
    (uri name : Text) (groups : Groups)
    → All (λ g. text_eq uri g.0 ≡ false) groups
    → typed uri name groups ≡ false
absent uri name [] h = refl
absent uri name ((u, names) ∷ groups) (e, h) = rw (text_eq_sym u uri, e) (absent uri name groups h)

-- A group has the types of its URI.
abbrev Owns : Groups → (Text × List Text) → Type 0
Owns groups g = (name : Text) → among name g.1 ≡ typed g.0 name groups

Owns-later :
    (u : Text) (names : List Text) (groups later : Groups)
    → All (λ g. text_eq u g.0 ≡ false) later
    → All (Owns groups) later
    → All (Owns ((u, names) ∷ groups)) later
Owns-later u names groups [] h k = tt
Owns-later u names groups (g ∷ later) (e, h) (own, k) =
    (λ name. rw e (own name), Owns-later u names groups later h k)

KeysApart-Owns : (groups : Groups) → KeysApart groups → All (Owns groups) groups
KeysApart-Owns [] h = tt
KeysApart-Owns ((u, names) ∷ groups) (apart, h) = (
  λ name. rw (text_eq_refl u, absent u name groups apart) (sym (or_nothing (among name names))),
  Owns-later u names groups groups apart (KeysApart-Owns groups h),
)

abbrev Filled : Groups → Type 0
Filled groups = All (λ g. is_none g.1 ≡ false) groups

is_none-last : (names : List Text) (new : Text) → is_none (names ++ (new ∷ [])) ≡ false
is_none-last [] new = refl
is_none-last (n ∷ names) new = refl

file_under-Filled :
    (key new : Text) (groups : Groups) → Filled groups → Filled (file_under key new groups)
unfolding file_under
file_under-Filled key new [] h = (refl, tt)
file_under-Filled key new ((u, names) ∷ groups) (e, h) = elim (Bool-cases (text_eq u key)) [
  | inl f ↦ rw f (is_none-last names new, h)
  | inr f ↦ rw f (e, file_under-Filled key new groups h)
]

by_uri-Filled :
    (rows : List TypeRow) (groups : Groups) → Filled groups → Filled (by_uri rows groups)
unfolding by_uri
by_uri-Filled [] groups h = h
by_uri-Filled ((u, n) ∷ rows) groups h =
    by_uri-Filled rows (file_under u n groups) (file_under-Filled u n groups h)

-- The type is one of the URI's, and none of them ranks before it.
abbrev pub First : List TypeRow → Text → Text → Type 0
First rows uri best =
    (has_type rows uri best ≡ true)
    × ((name : Text)
        → has_type rows uri name ≡ true
        → ranks_before rows (subsumed_node_types rows) name best ≡ false)

All-among :
    (P : Text → Type 0) (names : List Text) (name : Text)
    → All P names
    → among name names ≡ true
    → P name
unfolding among
All-among P [] name h k = absurd (false≢true k)
All-among P (n ∷ names) name (p, h) k = elim (Bool-cases (text_eq n name)) [
  | inl e ↦ subst P ((text_eq_iff n name).0 e) p
  | inr e ↦ All-among P names name h (rw e at k)
]

rank_one-First :
    (rows : List TypeRow) (uri : Text) (names : List Text)
    → ((name : Text) → among name names ≡ has_type rows uri name)
    → is_none names ≡ false
    → First rows uri (rank_one rows (subsumed_node_types rows) names)
rank_one-First rows uri [] own h = absurd (false≢true (sym h))
rank_one-First rows uri (name ∷ names) own h = (
  sym (own _) ∙ among-first_ranked rows (subsumed_node_types rows) name names,
  λ other k.
      All-among _ (name ∷ names) other
        (first_ranked-First rows (subsumed_node_types rows) name names) (own other ∙ k),
)

rank_groups-First :
    (rows : List TypeRow) (groups : Groups)
    → All (λ g. (name : Text) → among name g.1 ≡ has_type rows g.0 name) groups
    → Filled groups
    → All (λ row. First rows row.0 row.1) (rank_groups rows (subsumed_node_types rows) groups)
rank_groups-First rows [] own h = tt
rank_groups-First rows ((u, names) ∷ groups) (o, own) (e, h) =
    (rank_one-First rows u names o e, rank_groups-First rows groups own h)

All-map :
    {P Q : (Text × List Text) → Type 0} (groups : Groups)
    → ((g : Text × List Text) → P g → Q g)
    → All P groups
    → All Q groups
All-map [] f h = tt
All-map (g ∷ groups) f (p, h) = (f g p, All-map groups f h)

pub ranked-First : (rows : List TypeRow) → All (λ row. First rows row.0 row.1) (ranked rows)
unfolding ranked
ranked-First rows =
    rank_groups-First rows (by_uri rows [])
      (All-map (by_uri rows [])
        (λ g own name.
          own name ∙ typed-by_uri g.0 name rows [] ∙ or_nothing (has_type rows g.0 name))
        (KeysApart-Owns (by_uri rows []) (by_uri-KeysApart rows [] tt)))
      (by_uri-Filled rows [] tt)
