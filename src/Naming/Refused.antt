-- ===== src/Naming/Refused.antt =====
-- spark_jobs/pyg_builder/naming.py: when the check of the names refuses.
use pyg_knowledge_graph_buil.Base.{
  [], ◌∷◌, true, false, List, Bool, refl, arith, ◌≡◌, inl, inr, Bool-cases, ◌∙◌, ◌&&◌, any, not,
  if◌then◌else◌,
}
use pyg_knowledge_graph_buil.Base.Texts.{Text, starts_with}
use pyg_knowledge_graph_buil.Base.Dict.{select}
use pyg_knowledge_graph_buil.Sources.{is_none}
use pyg_knowledge_graph_buil.Sources.Wellformed.{is_none-sorted_texts}
use pyg_knowledge_graph_buil.Naming.{
  NameCheck, passed, warned, refused, check_registered_names, unknown,
}

-- Whether the check refuses.
abbrev pub refuses : NameCheck → Bool
refuses passed = false
refuses (warned _) = false
refuses (refused _ _) = true

is_none-found : (p : Text → Bool) (names : List Text) → is_none (select p names) ≡ not (any p names)
is_none-found p [] = refl
is_none-found p (n ∷ names) = elim (Bool-cases (p n)) [
  | inl e ↦ rw e refl
  | inr e ↦ rw e (is_none-found p names)
]

refuses-verdict :
    (found : List Text) (allowed : Bool) (namespaces : List Text)
    → refuses (if allowed then warned found else refused found namespaces) ≡ (not allowed && true)
refuses-verdict found true namespaces = refl
refuses-verdict found false namespaces = refl

pub no_refusal : (a : Bool) → false ≡ (not a && false)
no_refusal a = ground arith

pub refuses-check :
    (names : List Text) (allowed : Bool) (find : List Text → List Text)
    → refuses (check_registered_names names allowed find)
      ≡ (not allowed && any (starts_with unknown) names)
unfolding check_registered_names
refuses-check names allowed find =
    let none_found =
      is_none-sorted_texts (select (λ name. starts_with unknown name) names)
      ∙ is_none-found (λ name. starts_with unknown name) names in
    elim (Bool-cases (any (starts_with unknown) names)) [
      | inr e ↦ rw (none_found, e) (no_refusal allowed)
      | inl e ↦ rw (none_found, e) (refuses-verdict _ allowed _)
    ]
