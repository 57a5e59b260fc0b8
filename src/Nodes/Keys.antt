-- ===== src/Nodes/Keys.antt =====
-- spark_jobs/pyg_builder/node_mapper.py: the groups of the window over URIs have one key each.
use pyg_knowledge_graph_buil.Base.{[], ◌∷◌, false, List, All, ◌≡◌, inl, inr, Bool-cases, map}
use pyg_knowledge_graph_buil.Base.Texts.{Text, text_eq}
use pyg_knowledge_graph_buil.Turtle.Labels.{Groups, file_under}
use pyg_knowledge_graph_buil.Nodes.{TypeRow, by_uri}

abbrev pub KeysApart : Groups → Type 0
KeysApart [] = Unit
KeysApart ((key, _) ∷ groups) = All (λ g. text_eq key g.0 ≡ false) groups × KeysApart groups

abbrev pub keys : Groups → List Text
keys groups = map (λ g. g.0) groups

All-file_under :
    (key other name : Text) (groups : Groups)
    → text_eq key other ≡ false
    → All (λ g. text_eq key g.0 ≡ false) groups
    → All (λ g. text_eq key g.0 ≡ false) (file_under other name groups)
unfolding file_under
All-file_under key other name [] h k = (h, tt)
All-file_under key other name ((u, names) ∷ groups) h (e, k) = elim (Bool-cases (text_eq u other)) [
  | inl f ↦ rw f (e, k)
  | inr f ↦ rw f (e, All-file_under key other name groups h k)
]

file_under-KeysApart :
    (key name : Text) (groups : Groups) → KeysApart groups → KeysApart (file_under key name groups)
unfolding file_under
file_under-KeysApart key name [] h = (tt, tt)
file_under-KeysApart key name ((u, names) ∷ groups) (apart, h) = elim (Bool-cases (text_eq u key)) [
  | inl f ↦ rw f (apart, h)
  | inr f ↦ rw f (All-file_under u key name groups f apart, file_under-KeysApart key name groups h)
]

pub by_uri-KeysApart :
    (rows : List TypeRow) (groups : Groups) → KeysApart groups → KeysApart (by_uri rows groups)
unfolding by_uri
by_uri-KeysApart [] groups h = h
by_uri-KeysApart ((u, name) ∷ rows) groups h =
    by_uri-KeysApart rows (file_under u name groups) (file_under-KeysApart u name groups h)
