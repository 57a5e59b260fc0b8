-- ===== src/Sources/Terms/Held.antt =====
-- spark_jobs/sources/__init__.py: the feeds that sources_in_type_uris adds to the name of a source.
use mathlib.Core.Bool.{false≢true}
use pyg_knowledge_graph_buil.Base.{
  [], ◌∷◌, inl, inr, true, refl, ◌≡◌, List, Bool, ◌++◌, any, ◌⊎◌, ◌↔◌, Bool-cases, sym, ◌∙◌,
}
use pyg_knowledge_graph_buil.Base.Texts.{Text, starts_with, starts_with_iff}
use pyg_knowledge_graph_buil.Sources.{Feed, feed_names}
use pyg_knowledge_graph_buil.Base.Dict.{select}

abbrev pub Somewhere : (Text → Type 0) → List Text → Type 0
Somewhere P [] = ⊥
Somewhere P (x ∷ xs) = P x ⊎ Somewhere P xs

any-Somewhere :
    (p : Text → Bool) (P : Text → Type 0) (xs : List Text)
    → ((x : Text) → (p x ≡ true) ↔ P x)
    → (any p xs ≡ true) ↔ Somewhere P xs
any-Somewhere p P [] f = (λ h. cc, λ h. absurd h)
any-Somewhere p P (x ∷ xs) f =
    let (forth, back) = any-Somewhere p P xs f in
    elim (Bool-cases (p x)) [
      | inl e ↦ rw e (λ h. inl ((f x).0 e), λ h. refl)
      | inr e ↦ rw e (
        λ h. inr (forth h),
        λ h. elim h [
          | inl here ↦ absurd (false≢true (sym e ∙ (f x).1 here))
          | inr later ↦ back later
        ],
      )
    ]

-- Some term is one of the namespaces with something after it, or nothing.
abbrev pub HoldsTerm : List Text → List Text → Type 0
HoldsTerm namespaces uris =
    Somewhere (λ uri. Somewhere (λ namespace. (rest : Text) × (uri ≡ namespace ++ rest)) namespaces)
      uris

any-HoldsTerm :
    (namespaces uris : List Text)
    → (any (λ uri. any (λ namespace. starts_with namespace uri) namespaces) uris ≡ true)
      ↔ HoldsTerm namespaces uris
any-HoldsTerm namespaces uris =
    any-Somewhere (λ uri. any (λ namespace. starts_with namespace uri) namespaces)
      (λ uri. Somewhere (λ namespace. (rest : Text) × (uri ≡ namespace ++ rest)) namespaces) uris
      (λ uri.
        any-Somewhere (λ namespace. starts_with namespace uri)
          (λ namespace. (rest : Text) × (uri ≡ namespace ++ rest)) namespaces
          (λ namespace. starts_with_iff namespace uri))

-- The names are those of the feeds that hold a term, in order, and then the rest.
abbrev pub Feeds : List Text → List Feed → List Text → List Text → Type 0
Feeds uris [] rest names = names ≡ rest
Feeds uris (feed ∷ feeds) rest names =
    (¬ (HoldsTerm feed.namespaces uris) × Feeds uris feeds rest names)
    ⊎ (HoldsTerm feed.namespaces uris
        × ((more : List Text) × (names ≡ feed.name ∷ more) × Feeds uris feeds rest more))

pub select-Feeds :
    (uris : List Text) (feeds : List Feed) (rest : List Text)
    → Feeds uris feeds rest (
        feed_names (
          select
            (λ feed. any (λ uri. any (λ namespace. starts_with namespace uri) feed.namespaces) uris)
            feeds)
        ++ rest)
select-Feeds uris [] rest = refl
select-Feeds uris (feed ∷ feeds) rest =
    let (forth, back) = any-HoldsTerm feed.namespaces uris in
    elim (Bool-cases
      (any (λ uri. any (λ namespace. starts_with namespace uri) feed.namespaces) uris)) [
        | inl e ↦ rw e (inr (forth e, (_, refl, select-Feeds uris feeds rest)))
        | inr e ↦ rw e (inl (λ h. false≢true (sym e ∙ back h), select-Feeds uris feeds rest))
      ]
