-- ===== src/Nodes/Order.antt =====
-- spark_jobs/pyg_builder/node_mapper.py: the first type by the order of the window.
use mathlib.Core.Bool.{false≢true}
use pyg_knowledge_graph_buil.Base.{
  ℕ, [], ◌∷◌, true, false, List, Bool, refl, All, arith, ◌≡◌, ltb, ◌==◌, ◌&&◌, inl, inr, Bool-cases,
  subst, sym, ◌∙◌, ◌||◌,
}
use pyg_knowledge_graph_buil.Base.Texts.{
  Text, text_eq, text_eq_refl, among, text_lt_irreflexive, text_lt_trans,
}
use pyg_knowledge_graph_buil.Nodes.{
  TypeRow, ranks_before, first_ranked, priority_from, type_count, subsumed_flag,
  canonical_type_priority,
}

-- One level of a lexicographic order.
abbrev lex : ℕ → ℕ → Bool → Bool
lex p q r = ltb p q || (p == q && r)

lex_trans :
    (p q w : ℕ) (r s t : Bool)
    → (r ≡ true → s ≡ true → t ≡ true)
    → lex p q r ≡ true
    → lex q w s ≡ true
    → lex p w t ≡ true
lex_trans p q w r s t f h k = ground arith

lex_irreflexive : (p : ℕ) (r : Bool) → r ≡ false → lex p p r ≡ false
lex_irreflexive p r h = ground arith

or_right : (a b : Bool) → b ≡ true → (a || b) ≡ true
or_right a b h = ground arith

or_skip_middle : (a b c : Bool) → (a || c) ≡ true → (a || (b || c)) ≡ true
or_skip_middle a b c h = ground arith

pub or_move : (a b c : Bool) → (a || (b || c)) ≡ ((b || a) || c)
or_move a b c = ground arith

pub or_nothing : (a : Bool) → (a || false) ≡ a
or_nothing a = ground arith

pub spread : (a b c d : Bool) → ((a && (b || c)) || d) ≡ ((a && b) || ((a && c) || d))
spread a b c d = ground arith

module _ (rows : List TypeRow) (subsumed : List Text) where
  abbrev pinned : Text → ℕ
  pinned name = priority_from 0 canonical_type_priority name

  abbrev flag : Text → ℕ
  flag name = subsumed_flag subsumed name

  abbrev count : Text → ℕ
  count name = type_count rows name

  ranks_before_trans :
      (a b c : Text)
      → ranks_before rows subsumed a b ≡ true
      → ranks_before rows subsumed b c ≡ true
      → ranks_before rows subsumed a c ≡ true
  unfolding ranks_before
  ranks_before_trans a b c h k =
      lex_trans (pinned a) (pinned b) (pinned c) _ _ _
        (lex_trans (flag a) (flag b) (flag c) _ _ _
          (lex_trans (count a) (count b) (count c) _ _ _ (text_lt_trans a b c)))
        h k

  ranks_before_irreflexive : (a : Text) → ranks_before rows subsumed a a ≡ false
  unfolding ranks_before
  ranks_before_irreflexive a =
      lex_irreflexive (pinned a) _
        (lex_irreflexive (flag a) _ (lex_irreflexive (count a) _ (text_lt_irreflexive a)))

  moves_on :
      (best name : Text) (names : List Text)
      → ranks_before rows subsumed name best ≡ true
      → first_ranked rows subsumed best (name ∷ names) ≡ first_ranked rows subsumed name names
  unfolding first_ranked
  moves_on best name names e = rw e refl

  stays_on :
      (best name : Text) (names : List Text)
      → ranks_before rows subsumed name best ≡ false
      → first_ranked rows subsumed best (name ∷ names) ≡ first_ranked rows subsumed best names
  unfolding first_ranked
  stays_on best name names e = rw e refl

  -- Of a type and others, the first is one of them.
  pub among-first_ranked :
      (best : Text) (names : List Text)
      → among (first_ranked rows subsumed best names) (best ∷ names) ≡ true
  unfolding among first_ranked
  among-first_ranked best [] = rw (text_eq_refl best) refl
  among-first_ranked best (name ∷ names) =
      elim (Bool-cases (ranks_before rows subsumed name best)) [
        | inl e ↦
            subst (λ t. among t (best ∷ name ∷ names) ≡ true) (sym (moves_on best name names e))
              (or_right (text_eq best (first_ranked rows subsumed name names)) _
                (among-first_ranked name names))
        | inr e ↦
            subst (λ t. among t (best ∷ name ∷ names) ≡ true) (sym (stays_on best name names e))
              (or_skip_middle (text_eq best (first_ranked rows subsumed best names))
                (text_eq name (first_ranked rows subsumed best names)) _
                (among-first_ranked best names))
      ]

  below :
      (other name best : Text)
      → ranks_before rows subsumed name best ≡ true
      → ranks_before rows subsumed other best ≡ false
      → ranks_before rows subsumed other name ≡ false
  below other name best e h = elim (Bool-cases (ranks_before rows subsumed other name)) [
    | inr f ↦ f
    | inl f ↦ absurd (false≢true (sym h ∙ ranks_before_trans other name best f e))
  ]

  not_both :
      (best name : Text)
      → ranks_before rows subsumed name best ≡ true
      → ranks_before rows subsumed best name ≡ false
  not_both best name e = below best name best e (ranks_before_irreflexive best)

  -- What does not rank before the best does not rank before the first.
  stays_first :
      (best other : Text) (names : List Text)
      → ranks_before rows subsumed other best ≡ false
      → ranks_before rows subsumed other (first_ranked rows subsumed best names) ≡ false
  unfolding first_ranked
  stays_first best other [] h = h
  stays_first best other (name ∷ names) h =
      elim (Bool-cases (ranks_before rows subsumed name best)) [
        | inr e ↦ rw e (stays_first best other names h)
        | inl e ↦ rw e (stays_first name other names (below other name best e h))
      ]

  pub first_ranked-First :
      (best : Text) (names : List Text)
      → All
          (λ name. ranks_before rows subsumed name (first_ranked rows subsumed best names) ≡ false)
          (best ∷ names)
  unfolding first_ranked
  first_ranked-First best [] = (ranks_before_irreflexive best, tt)
  first_ranked-First best (name ∷ names) =
      elim (Bool-cases (ranks_before rows subsumed name best)) [
        | inl e ↦
            let (own, others) = first_ranked-First name names in
            subst (λ t. All (λ n. ranks_before rows subsumed n t ≡ false) (best ∷ name ∷ names))
              (sym (moves_on best name names e))
              (stays_first name best names (not_both best name e), (own, others))
        | inr e ↦
            let (own, others) = first_ranked-First best names in
            subst (λ t. All (λ n. ranks_before rows subsumed n t ≡ false) (best ∷ name ∷ names))
              (sym (stays_on best name names e)) (own, (stays_first best name names e, others))
      ]
