-- ===== src/Trim/Valid.antt =====
-- What a list of positions that `TrimSpec` accepts promises.
use pyg_knowledge_graph_buil.Base.{
  ℕ, [], ◌∷◌, true, false, refl, List, Bool, not, ◌++◌, ◌≡◌, leb, ◌&&◌, if◌then◌else◌, ◌+◌, ltb,
  ◌||◌, Bool-cases, inl, arith, inr, ap,
}
use pyg_knowledge_graph_buil.Trim.{
  report, is_nil, problems, Problem, descends, listed, listed_twice, values, trim_spec, TrimSpec,
  String, make_spec,
}
use pyg_knowledge_graph_buil.Base.Dict.{select, member, keys, range}
use pyg_knowledge_graph_buil.Base.Result.{ok}
use pyg_knowledge_graph_buil.Base.Select.{
  member-append, member-keys-sort_items, member-select, member-range,
}

module _ {ℓ} {A : Type ℓ} where
  nil-append : (xs ys : List A) → is_nil (xs ++ ys) ≡ true → (is_nil xs ≡ true) × (is_nil ys ≡ true)
  nil-append [] ys h = (refl, h)
  nil-append (x ∷ xs) ys h = cc

report-nil : (b : Bool) (q : Problem) → is_nil (report b q) ≡ true → b ≡ false
unfolding report
report-nil true q h = cc
report-nil false q h = refl

not-nil : {A : Type 0} (xs : List A) → not (is_nil xs) ≡ false → xs ≡ []
not-nil [] h = refl
not-nil (x ∷ xs) h = cc

module _ {ℓ} {V : Type ℓ} (n : ℕ) (kept : List ℕ) (constant : List (ℕ × V))
    (copy_of : List (ℕ × ℕ)) where
  pub record NoProblem : Type 0 where
    pub some_kept : is_nil kept ≡ false
    pub increasing : descends kept ≡ false
    pub inside : select (λ p. leb n p) (listed kept constant copy_of) ≡ []
    pub once : listed_twice kept constant copy_of ≡ []
    pub stored : select (λ t. not (member t kept)) (values copy_of) ≡ []

  pub problems-nil : is_nil (problems n kept constant copy_of) ≡ true → NoProblem
  unfolding problems
  problems-nil h =
      let (abcd, e) = nil-append _ _ h in
      let (abc, d) = nil-append _ _ abcd in
      let (ab, c) = nil-append _ _ abc in
      let (a, b) = nil-append _ _ ab in
      record {
        some_kept = report-nil _ _ a;
        increasing = report-nil _ _ b;
        inside = not-nil _ (report-nil _ _ c);
        once = not-nil _ (report-nil _ _ d);
        stored = not-nil _ (report-nil _ _ e);
      }

module _ {ℓ} {V : Type ℓ} where
  pub trim_spec-inv :
      (node_type : String) (n : ℕ) (kept : List ℕ) (constant : List (ℕ × V))
      (copy_of : List (ℕ × ℕ)) (s : TrimSpec V)
      → trim_spec node_type n kept constant copy_of ≡ ok s
      → NoProblem n kept constant copy_of × (make_spec node_type n kept constant copy_of ≡ s)
  unfolding trim_spec
  trim_spec-inv node_type n kept constant copy_of s h =
      elim (Bool-cases (is_nil (problems n kept constant copy_of))) [
        | inl e ↦ (problems-nil n kept constant copy_of e, ground arith)
        | inr e ↦ ground arith
      ]

  -- In how many of its four lists a spec has a position.
  abbrev pub places : TrimSpec V → ℕ → ℕ
  places s p =
      (if member p s.kept then 1 else 0)
      + (if member p (keys s.constant) then 1 else 0)
      + (if member p (keys s.copy_of) then 1 else 0)
      + (if member p s.zero_positions then 1 else 0)

  apart :
      (p n : ℕ) (kept : List ℕ) (constant : List (ℕ × V)) (copy_of : List (ℕ × ℕ))
      → NoProblem n kept constant copy_of
      → ((member p kept && member p (keys constant)) ≡ false)
        × ((member p kept && member p (keys copy_of)) ≡ false)
        × ((member p (keys constant) && member p (keys copy_of)) ≡ false)
        × (((member p kept || member p (keys constant) || member p (keys copy_of)) && leb n p)
            ≡ false)
  apart p n kept constant copy_of good =
      let twice_free = simp (member-append, member-select) at (ap (member p) good.once) in
      let bounded = simp (member-append, member-select) at (ap (member p) good.inside) in
      (ground arith, ground arith, ground arith, ground arith)

  pub zero_positions_member :
      (p n : ℕ) (kept : List ℕ) (constant : List (ℕ × V)) (copy_of : List (ℕ × ℕ))
      → member p (select (λ p. not (member p (kept ++ keys constant ++ keys copy_of))) (range n))
        ≡ (ltb p n && not (member p kept || member p (keys constant) || member p (keys copy_of)))
  zero_positions_member p n kept constant copy_of =
      simp (member-select, member-append, member-range)

  pub places-make_spec :
      (node_type : String) (n : ℕ) (kept : List ℕ) (constant : List (ℕ × V))
      (copy_of : List (ℕ × ℕ)) (p : ℕ)
      → NoProblem n kept constant copy_of
      → places (make_spec node_type n kept constant copy_of) p ≡ (if ltb p n then 1 else 0)
  unfolding make_spec
  places-make_spec node_type n kept constant copy_of p good =
      let (a, b, c, d) = apart p n kept constant copy_of good in
      rw
        (
          zero_positions_member p n kept constant copy_of,
          member-keys-sort_items p constant,
          member-keys-sort_items p copy_of,
        )
        (ground arith)

  -- A spec that `TrimSpec` accepts has each position of the vector in exactly one of its lists, and no
  -- other position in any.
  pub places-trim_spec :
      (node_type : String) (n : ℕ) (kept : List ℕ) (constant : List (ℕ × V))
      (copy_of : List (ℕ × ℕ)) (s : TrimSpec V) (p : ℕ)
      → trim_spec node_type n kept constant copy_of ≡ ok s
      → places s p ≡ (if ltb p n then 1 else 0)
  places-trim_spec node_type n kept constant copy_of s p h =
      let (good, e) = trim_spec-inv node_type n kept constant copy_of s h in
      rw (← e) (places-make_spec node_type n kept constant copy_of p good)
