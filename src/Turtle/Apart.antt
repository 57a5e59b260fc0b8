-- ===== src/Turtle/Apart.antt =====
-- spark_jobs/graph/turtle.py: when two groups of blank nodes have a label in common.
use mathlib.Core.Bool.{false≢true}
use pyg_knowledge_graph_buil.Base.{
  [], ◌∷◌, false, List, All, ◌≡◌, ◌≤◌, ap, length, inl, inr, Bool-cases, sym, ◌∙◌, subst, ◌⊎◌,
  All-append, ltb, refl, ℕ, suc,
}
use pyg_knowledge_graph_buil.Base.Texts.{Text, text_eq, text_eq_iff}
use pyg_knowledge_graph_buil.Naming.{take}
use pyg_knowledge_graph_buil.Turtle.Labels.{
  Groups, file_under, group_all, labels_of_group, labels_of_groups, plain, numbered,
}
use pyg_knowledge_graph_buil.Turtle.Numbered.{
  Has, Has-append, labels_of_group-Injective, Has-labels_of_group, take-take,
}

-- The blank nodes of a group have its signature, and the signatures of the groups differ.
abbrev pub Separate : (Text → Text) → Groups → Type 0
Separate signature [] = Unit
Separate signature ((s, ids) ∷ groups) =
    All (λ id. signature id ≡ s) ids
    × All (λ g. text_eq s g.0 ≡ false) groups
    × Separate signature groups

All-file_under :
    (s new id : Text) (groups : Groups)
    → text_eq s new ≡ false
    → All (λ g. text_eq s g.0 ≡ false) groups
    → All (λ g. text_eq s g.0 ≡ false) (file_under new id groups)
unfolding file_under
All-file_under s new id [] other h = (other, tt)
All-file_under s new id ((t, ids) ∷ groups) other (e, h) = elim (Bool-cases (text_eq t new)) [
  | inl f ↦ rw f (e, h)
  | inr f ↦ rw f (e, All-file_under s new id groups other h)
]

file_under-Separate :
    (signature : Text → Text) (id : Text) (groups : Groups)
    → Separate signature groups
    → Separate signature (file_under (signature id) id groups)
unfolding file_under
file_under-Separate signature id [] h = ((refl, tt), tt, tt)
file_under-Separate signature id ((t, ids) ∷ groups) (whose, apart, h) =
    elim (Bool-cases (text_eq t (signature id))) [
      | inl f ↦ rw f (
        All-append (λ i. signature i ≡ t) ids (id ∷ []) whose
            (sym ((text_eq_iff t (signature id)).0 f), tt),
        apart,
        h,
      )
      | inr f ↦ rw f (
        whose,
        All-file_under t (signature id) id groups f apart,
        file_under-Separate signature id groups h,
      )
    ]

pub group_all-Separate :
    (signature : Text → Text) (ids : List Text) (groups : Groups)
    → Separate signature groups
    → Separate signature (group_all signature ids groups)
unfolding group_all
group_all-Separate signature [] groups h = h
group_all-Separate signature (id ∷ ids) groups h =
    group_all-Separate signature ids (file_under (signature id) id groups)
      (file_under-Separate signature id groups h)

-- Two different signatures begin with the same 32 characters.
abbrev pub Collide : (Text → Text) → Text → Text → Type 0
Collide signature a b =
    ¬ (signature a ≡ signature b) × (take 32 (signature a) ≡ take 32 (signature b))

-- No two pairs share a label, except where the signatures of their keys collide.
abbrev pub Distinct : (Text → Text) → List (Text × Text) → Type 0
Distinct signature labels =
    (a b label : Text) → Has a label labels → Has b label labels → (a ≡ b) ⊎ Collide signature a b

numbered-whose :
    (signature : Text → Text) (s id label : Text) (index : ℕ) (ids : List Text)
    → All (λ i. signature i ≡ s) ids
    → Has id label (numbered s index ids)
    → signature id ≡ s
unfolding numbered
numbered-whose signature s id label index [] whose h = absurd h
numbered-whose signature s id label index (x ∷ ids) (same, whose) (inl (key, _)) =
    ap signature (sym key) ∙ same
numbered-whose signature s id label index (x ∷ ids) (_, whose) (inr h) =
    numbered-whose signature s id label (suc index) ids whose h

plain-whose :
    (signature : Text → Text) (s id label : Text) (ids : List Text)
    → All (λ i. signature i ≡ s) ids
    → Has id label (plain s ids)
    → signature id ≡ s
plain-whose signature s id label [] whose h = absurd h
plain-whose signature s id label (x ∷ ids) (same, whose) (inl (key, _)) =
    ap signature (sym key) ∙ same
plain-whose signature s id label (x ∷ ids) (_, whose) (inr h) =
    plain-whose signature s id label ids whose h

labels_of_group-whose :
    (signature : Text → Text) (s id label : Text) (ids : List Text)
    → All (λ i. signature i ≡ s) ids
    → Has id label (labels_of_group s ids)
    → signature id ≡ s
unfolding labels_of_group
labels_of_group-whose signature s id label ids whose h = elim (Bool-cases (ltb 1 (length ids))) [
  | inl e ↦ numbered-whose signature s id label 0 ids whose (rw e at h)
  | inr e ↦ plain-whose signature s id label ids whose (rw e at h)
]

-- Where a label of a group is that of a group later on, the signatures collide.
shared_label :
    (signature : Text → Text) (s a b label : Text) (ids : List Text) (groups : Groups)
    → ((id : Text) → 32 ≤ length (signature id))
    → signature a ≡ s
    → Separate signature groups
    → All (λ g. text_eq s g.0 ≡ false) groups
    → Has a label (labels_of_group s ids)
    → Has b label (labels_of_groups groups)
    → Collide signature a b
unfolding labels_of_groups
shared_label signature s a b label ids [] long sa sep apart h k = absurd k
shared_label signature s a b label ids ((t, others) ∷ groups) long sa (whose, _, sep)
      (differs, apart) h k =
    elim (Has-append b label (labels_of_group t others) (labels_of_groups groups) k) [
      | inr later ↦ shared_label signature s a b label ids groups long sa sep apart h later
      | inl here ↦
          let sb = labels_of_group-whose signature t b label others whose here in
          let (r, form) = Has-labels_of_group s a label ids h in
          let (q, other_form) = Has-labels_of_group t b label others here in
          (
            λ same. false≢true (sym differs ∙ (text_eq_iff s t).1 (sym sa ∙ same ∙ sb)),
            ap (take 32) sa
                ∙ sym (take-take 32 s r (subst (λ u. 32 ≤ length u) sa (long a)))
                ∙ ap (take 32) (sym form ∙ other_form)
                ∙ take-take 32 t q (subst (λ u. 32 ≤ length u) sb (long b))
                ∙ ap (take 32) (sym sb),
          )
    ]

Collide-sym : (signature : Text → Text) (a b : Text) → Collide signature a b → Collide signature b a
Collide-sym signature a b (differ, same) = (λ e. differ (sym e), sym same)

pub labels_of_groups-Distinct :
    (signature : Text → Text) (groups : Groups)
    → ((id : Text) → 32 ≤ length (signature id))
    → Separate signature groups
    → Distinct signature (labels_of_groups groups)
unfolding labels_of_groups
labels_of_groups-Distinct signature [] long sep a b label h k = absurd h
labels_of_groups-Distinct signature ((s, ids) ∷ groups) long (whose, apart, sep) a b label h k =
    elim (Has-append a label (labels_of_group s ids) (labels_of_groups groups) h) [
      | inl first ↦ elim (Has-append b label (labels_of_group s ids) (labels_of_groups groups) k) [
        | inl also ↦ inl (labels_of_group-Injective s ids a b label first also)
        | inr later ↦ inr (
            shared_label signature s a b label ids groups long
              (labels_of_group-whose signature s a label ids whose first) sep apart first later)
      ]
      | inr later ↦ elim (Has-append b label (labels_of_group s ids) (labels_of_groups groups) k) [
        | inl first ↦ inr (
            Collide-sym signature b a (
              shared_label signature s b a label ids groups long
                (labels_of_group-whose signature s b label ids whose first) sep apart first later))
        | inr also ↦ labels_of_groups-Distinct signature groups long sep a b label later also
      ]
    ]
