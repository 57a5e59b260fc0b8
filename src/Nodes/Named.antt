-- ===== src/Nodes/Named.antt =====
-- spark_jobs/pyg_builder/node_mapper.py: which URI a type of node is said to be named after.
use pyg_knowledge_graph_buil.Base.{
  [], ◌∷◌, true, false, none, some, List, Bool, Option, refl, ◌≡◌, ap, inl, inr, Bool-cases, ◌∙◌,
  ◌&&◌, sym, subst, if◌then◌else◌,
}
use pyg_knowledge_graph_buil.Base.Texts.{Text, text_eq, text_eq_iff}
use pyg_knowledge_graph_buil.Nodes.Origins.{
  OriginRow, TextDict, get, set_default, fill_origins, prefer, or_value,
}

-- The URIs of the rows of a type.
abbrev pub uris_for : Text → List OriginRow → List Text
uris_for name [] = []
uris_for name ((n, u) ∷ rows) =
    if text_eq n name then u ∷ uris_for name rows else uris_for name rows

abbrev pub first_where : (Text → Bool) → List Text → Option Text
first_where p [] = none
first_where p (u ∷ us) = if p u then some u else first_where p us

abbrev pub or_else : Option Text → Option Text → Option Text
or_else none o = o
or_else (some u) o = some u

or_else-none : (o : Option Text) → or_else o none ≡ o
or_else-none none = refl
or_else-none (some u) = refl

or_else_assoc : (a b c : Option Text) → or_else (or_else a b) c ≡ or_else a (or_else b c)
or_else_assoc none b c = refl
or_else_assoc (some u) b c = refl

if_both : (b : Bool) (o : Option Text) → (if b then o else o) ≡ o
if_both true o = refl
if_both false o = refl

get-set_default :
    (key k value : Text) (items : TextDict)
    → get key (set_default k value items)
      ≡ (if text_eq k key then or_else (get key items) (some value) else get key items)
unfolding get set_default
get-set_default key k value [] = refl
get-set_default key k value ((j, old) ∷ items) = elim (Bool-cases (text_eq j k)) [
  | inl e ↦ elim (Bool-cases (text_eq j key)) [
    | inl f ↦ rw (e, f) (sym (if_both (text_eq k key) (some old)))
    | inr f ↦
        let same : text_eq k key ≡ false =
          subst (λ t. text_eq t key ≡ false) ((text_eq_iff j k).0 e) f in
        rw (e, f, same) refl
  ]
  | inr e ↦ elim (Bool-cases (text_eq j key)) [
    | inl f ↦ rw (e, f) (sym (if_both (text_eq k key) (some old)))
    | inr f ↦ rw (e, f) (get-set_default key k value items)
  ]
]

get-kept :
    (derive : Text → Text) (name n u : Text) (exact : TextDict)
    → get name (if text_eq (derive u) n then set_default n u exact else exact) ≡ (
        if text_eq n name && text_eq (derive u) name
        then or_else (get name exact) (some u)
        else get name exact)
get-kept derive name n u exact = elim (Bool-cases (text_eq n name)) [
  | inl e ↦
      let same : n ≡ name = (text_eq_iff n name).0 e in
      subst
        (λ t. get name (if text_eq (derive u) t then set_default n u exact else exact) ≡ (
          if text_eq n name && text_eq (derive u) name
          then or_else (get name exact) (some u)
          else get name exact))
        (sym same)
        (elim (Bool-cases (text_eq (derive u) name)) [
          | inl f ↦ rw (f, get-set_default name n u exact, e) refl
          | inr f ↦ rw (f, e) refl
        ])
  | inr e ↦ elim (Bool-cases (text_eq (derive u) n)) [
    | inl f ↦ rw (f, get-set_default name n u exact, e) refl
    | inr f ↦ rw (f, e) refl
  ]
]

exact_step :
    (derive : Text → Text) (name n u : Text) (rows : List OriginRow) (o : Option Text)
    → or_else
        (if text_eq n name && text_eq (derive u) name then or_else o (some u) else o)
        (first_where (λ v. text_eq (derive v) name) (uris_for name rows))
      ≡ or_else o (first_where (λ v. text_eq (derive v) name) (uris_for name ((n, u) ∷ rows)))
exact_step derive name n u rows o = elim (Bool-cases (text_eq n name)) [
  | inr e ↦ rw e refl
  | inl e ↦ elim (Bool-cases (text_eq (derive u) name)) [
    | inr f ↦ rw (e, f) refl
    | inl f ↦ rw (e, f) (or_else_assoc o (some u) _)
  ]
]

fallback_step :
    (name n u : Text) (rows : List OriginRow) (o : Option Text)
    → or_else
        (if text_eq n name then or_else o (some u) else o)
        (first_where (λ _. true) (uris_for name rows))
      ≡ or_else o (first_where (λ _. true) (uris_for name ((n, u) ∷ rows)))
fallback_step name n u rows o = elim (Bool-cases (text_eq n name)) [
  | inr e ↦ rw e refl
  | inl e ↦ rw e (or_else_assoc o (some u) _)
]

-- Each dict has, for a type, what it had, or the first URI of the rows that it takes.
pub get-fill_origins :
    (derive : Text → Text) (name : Text) (rows : List OriginRow) (exact fallback : TextDict)
    → (get name (fill_origins derive rows (exact, fallback)).0
        ≡ or_else
            (get name exact)
            (first_where (λ u. text_eq (derive u) name) (uris_for name rows)))
      × (get name (fill_origins derive rows (exact, fallback)).1
          ≡ or_else (get name fallback) (first_where (λ _. true) (uris_for name rows)))
unfolding fill_origins
get-fill_origins derive name [] exact fallback =
    (sym (or_else-none (get name exact)), sym (or_else-none (get name fallback)))
get-fill_origins derive name ((n, u) ∷ rows) exact fallback =
    let kept = if text_eq (derive u) n then set_default n u exact else exact in
    let (ih_exact, ih_fallback) =
      get-fill_origins derive name rows kept (set_default n u fallback) in
    (
      ih_exact
          ∙ ap (λ o. or_else o (first_where (λ v. text_eq (derive v) name) (uris_for name rows)))
              (get-kept derive name n u exact)
          ∙ exact_step derive name n u rows (get name exact),
      ih_fallback
          ∙ ap (λ o. or_else o (first_where (λ _. true) (uris_for name rows)))
              (get-set_default name n u fallback)
          ∙ fallback_step name n u rows (get name fallback),
    )

abbrev pub preferred : Option Text → Option Text → Option Text
preferred exact none = none
preferred exact (some u) = some (or_value exact u)

pub get-prefer :
    (name : Text) (exact fallback : TextDict)
    → get name (prefer exact fallback) ≡ preferred (get name exact) (get name fallback)
unfolding get
get-prefer name exact [] = refl
get-prefer name exact ((n, u) ∷ fallback) = elim (Bool-cases (text_eq n name)) [
  | inl e ↦ rw (e, (text_eq_iff n name).0 e) refl
  | inr e ↦ rw e (get-prefer name exact fallback)
]
