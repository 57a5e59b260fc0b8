-- ===== src/Publish/Listed.antt =====
-- bin/publish_run.py: what check_upload asks of a listing.
use mathlib.Core.Option.{some-injective}
use pyg_knowledge_graph_buil.Base.{
  ℕ, [], ◌∷◌, true, false, none, some, inl, inr, refl, List, Bool, not, ◌&&◌, Option, ◌==◌, All,
  ◌≡◌, ◌↔◌, ◌⊎◌, arith, &&_iff, Bool-cases, ap, &&-intro, ==_iff, ◌∙◌,
}
use pyg_knowledge_graph_buil.Base.Texts.{Text, text_eq, among, text_eq_iff}
use pyg_knowledge_graph_buil.Base.Dict.{select}
use pyg_knowledge_graph_buil.Sources.{names_of, is_none}
use pyg_knowledge_graph_buil.Publish.{
  Files, size_of, has_size, is_listed, agrees, same_size, is_there,
}

-- Every item is listed at its size, and whatever else is listed is the marker.
abbrev pub Agrees : Files → Text → Files → Type 0
Agrees items marker have =
    All (λ item. size_of item.0 have ≡ some item.1) items
    × All (λ file. among file.0 (names_of items) ≡ true ⊎ file.0 ≡ marker) have

pub same_size_iff : (o : Option ℕ) (size : ℕ) → (same_size o size ≡ true) ↔ (o ≡ some size)
same_size_iff none size = (λ h. cc, λ h. cc)
same_size_iff (some s) size =
    (λ h. ap some ((==_iff s size).0 h), λ h. (==_iff s size).1 (some-injective s size h))

none_selected :
    {A : Type 0} (test : A → Bool) (l : List A)
    → (is_none (select test l) ≡ true) ↔ All (λ a. test a ≡ false) l
none_selected test [] = (λ h. tt, λ h. refl)
none_selected test (a ∷ l) = ground (arith, none_selected test l)

All-both :
    {A : Type 0} {P Q R : A → Type 0} (l : List A)
    → ((a : A) → P a → Q a → R a)
    → All P l
    → All Q l
    → All R l
All-both [] f p q = tt
All-both (a ∷ l) f (p, ps) (q, qs) = (f a p q, All-both l f ps qs)

All-map : {A : Type 0} {P Q : A → Type 0} (l : List A) → ((a : A) → P a → Q a) → All P l → All Q l
All-map [] f p = tt
All-map (a ∷ l) f (p, ps) = (f a p, All-map l f ps)

-- Neither missing nor of a wrong size.
at_size :
    (o : Option ℕ) (size : ℕ)
    → not (is_there o) ≡ false
    → (is_there o && not (same_size o size)) ≡ false
    → o ≡ some size
at_size none size h k = cc
at_size (some s) size h k = ap some (ground arith)

same_not : (size : ℕ) → not (size == size) ≡ false
same_not size = ground arith

expected :
    (items : Files) (marker : Text) (file : Text × ℕ)
    → ((not (among file.0 (names_of items)) && not (text_eq file.0 marker)) ≡ false)
      ↔ (among file.0 (names_of items) ≡ true ⊎ file.0 ≡ marker)
expected items marker file =
    let (forth, back) = text_eq_iff file.0 marker in
    elim (Bool-cases (among file.0 (names_of items))) [
      | inl e ↦ rw e (λ h. inl refl, λ h. refl)
      | inr e ↦ rw e (
        λ h. inr (forth (ground arith)),
        λ h. elim h [ inl bad ↦ cc | inr same ↦ ground (arith, back same) ],
      )
    ]

-- The check of an upload passes exactly where every item is listed at its size, and every listed file is
-- an item or the marker.
pub agrees-Agrees :
    (items : Files) (marker : Text) (have : Files)
    → (agrees items marker have ≡ true) ↔ Agrees items marker have
unfolding agrees
agrees-Agrees items marker have =
    let absent = λ (item : Text × ℕ). not (is_listed have item) in
    let wrong = λ (item : Text × ℕ). is_listed have item && not (has_size have item) in
    let extra =
      λ (file : Text × ℕ). not (among file.0 (names_of items)) && not (text_eq file.0 marker) in
    (
      λ h.
          let (sizes, c) =
            (&&_iff (is_none (select absent items) && is_none (select wrong items))
                (is_none (select extra have))).0
              h in
          let (a, b) =
            (&&_iff (is_none (select absent items)) (is_none (select wrong items))).0 sizes in
          (
            All-both items (λ item p q. at_size (size_of item.0 have) item.1 p q)
                ((none_selected absent items).0 a) ((none_selected wrong items).0 b),
            All-map have (λ file p. (expected items marker file).0 p)
                ((none_selected extra have).0 c),
          ),
      λ (sizes, rest).
          &&-intro
            (&&-intro
              ((none_selected absent items).1
                (All-map items (λ item e. ap (λ o. not (is_there o)) e) sizes))
              ((none_selected wrong items).1 (
                All-map items
                  (λ item e. ap (λ o. is_there o && not (same_size o item.1)) e ∙ same_not item.1)
                  sizes)))
            ((none_selected extra have).1
              (All-map have (λ file p. (expected items marker file).1 p) rest)),
    )
