-- ===== src/Base/Levels.antt =====
-- The order of tuples of texts, level by level.
use mathlib.Core.Bool.{false≢true}
use pyg_knowledge_graph_buil.Base.{
  true, false, Bool, refl, ◌≡◌, inl, inr, Bool-cases, ◌∙◌, ◌||◌, ◌&&◌, ◌⊎◌, sym, subst,
}
use pyg_knowledge_graph_buil.Base.Texts.{
  Text, text_eq, text_eq_iff, text_eq_refl, text_lt, text_lt_trans, text_lt_total,
  text_lt_irreflexive,
}

-- One level of the order of tuples.
abbrev pub level : Text → Text → Bool → Bool
level a b r = text_lt a b || (text_eq a b && r)

pub level-cases :
    (a b : Text) (r : Bool) → level a b r ≡ true → (text_lt a b ≡ true) ⊎ ((a ≡ b) × (r ≡ true))
level-cases a b r h = elim (Bool-cases (text_lt a b)) [
  | inl e ↦ inl e
  | inr e ↦ elim (Bool-cases (text_eq a b)) [
    | inl f ↦ inr ((text_eq_iff a b).0 f, rw (e, f) at h)
    | inr f ↦ absurd (false≢true (rw (e, f) at h))
  ]
]

level-below : (a b : Text) (r : Bool) → text_lt a b ≡ true → level a b r ≡ true
level-below a b r h = rw h refl

level-equal : (a b : Text) (r : Bool) → a ≡ b → r ≡ true → level a b r ≡ true
level-equal a b r e h = rw (e, text_lt_irreflexive b, text_eq_refl b, h) refl

pub level_trans :
    (a b c : Text) (r s t : Bool)
    → (r ≡ true → s ≡ true → t ≡ true)
    → level a b r ≡ true
    → level b c s ≡ true
    → level a c t ≡ true
level_trans a b c r s t f h k = elim (level-cases a b r h) [
  | inl e ↦ elim (level-cases b c s k) [
    | inl g ↦ level-below a c t (text_lt_trans a b c e g)
    | inr (same, _) ↦ level-below a c t (subst (λ x. text_lt a x ≡ true) same e)
  ]
  | inr (same, er) ↦ elim (level-cases b c s k) [
    | inl g ↦ level-below a c t (subst (λ x. text_lt x c ≡ true) (sym same) g)
    | inr (same', es) ↦ level-equal a c t (same ∙ same') (f er es)
  ]
]

pub level_total :
    (a b : Text) (eq r s : Bool)
    → (r ≡ false → eq ≡ false → s ≡ true)
    → level a b r ≡ false
    → (text_eq a b && eq) ≡ false
    → level b a s ≡ true
level_total a b eq r s f h k = elim (Bool-cases (text_lt a b)) [
  | inl e ↦ absurd (false≢true (sym h ∙ level-below a b r e))
  | inr e ↦ elim (Bool-cases (text_eq a b)) [
    | inl g ↦ level-equal b a s (sym ((text_eq_iff a b).0 g)) (f (rw (e, g) at h) (rw g at k))
    | inr g ↦ level-below b a s (text_lt_total a b e g)
  ]
]
