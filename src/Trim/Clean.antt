-- ===== src/Trim/Clean.antt =====
-- When the check of a whole build finds nothing.
use pyg_knowledge_graph_buil.Base.{
  ℕ, [], ◌∷◌, true, refl, List, ◌+◌, ◌≡◌, ap, arith, ◌∙◌, ◌↔◌, sym, ◌++◌, ◌≢◌,
}
use pyg_knowledge_graph_buil.Base.Number.{Number}
use pyg_knowledge_graph_buil.Trim.Check.{
  update, bump, add_held, Chunk, add_all, count_of, TrimCheck, add, constants_found, copies_found,
  zeros_found, Violation, sort_violations, insert_violation, violations, KeyError, none_held,
  new_check,
}
use pyg_knowledge_graph_buil.Base.Dict.{keys, member}
use pyg_knowledge_graph_buil.Trim.{TrimSpec}
use pyg_knowledge_graph_buil.Base.Result.{ok, Result, ◌>>=◌, raise}

abbrev sum_counts : List (ℕ × ℕ) → ℕ
sum_counts [] = 0
sum_counts ((_, n) ∷ l) = n + sum_counts l

-- Totals over the chunks of a build.
abbrev pub total_rows : List Chunk → ℕ
total_rows [] = 0
total_rows (c ∷ cs) = c.rows + total_rows cs

abbrev pub total_held : ℕ → List Chunk → ℕ
total_held p [] = 0
total_held p (c ∷ cs) = count_of p c.held + total_held p cs

abbrev pub total_strays : List Chunk → ℕ
total_strays [] = 0
total_strays (c ∷ cs) = sum_counts c.zero_broken + total_strays cs

abbrev pub total_copies : List Chunk → ℕ
total_copies [] = 0
total_copies (c ∷ cs) = sum_counts c.copy_broken + total_copies cs

sum_counts-bump : (k n : ℕ) (l : List (ℕ × ℕ)) → sum_counts (bump k n l) ≡ n + sum_counts l
unfolding bump
sum_counts-bump k n [] = refl
sum_counts-bump k n ((j, m) ∷ l) = ground (arith, sum_counts-bump k n l)

sum_counts-update :
    (l more : List (ℕ × ℕ)) → sum_counts (update l more) ≡ sum_counts l + sum_counts more
unfolding update
sum_counts-update l [] = omega arith
sum_counts-update l ((k, n) ∷ more) =
    omega (arith, sum_counts-update (bump k n l) more, sum_counts-bump k n l)

count_of-add_held :
    (p : ℕ) (held l : List (ℕ × ℕ))
    → member p (keys l) ≡ true
    → count_of p (add_held held l) ≡ count_of p l + count_of p held
unfolding add_held
count_of-add_held p held [] h = cc
count_of-add_held p held ((j, n) ∷ l) h = ground (arith, count_of-add_held p held l)

keys-add_held : (held l : List (ℕ × ℕ)) → keys (add_held held l) ≡ keys l
unfolding add_held
keys-add_held held [] = refl
keys-add_held held ((j, n) ∷ l) = ap (λ ks. j ∷ ks) (keys-add_held held l)

module _ {ℓ} {V : Type ℓ} ⦃num : Number V⦄ where
  rows-add_all :
      (c : TrimCheck V) (chunks : List Chunk) → (add_all c chunks).rows ≡ c.rows + total_rows chunks
  unfolding add_all
  rows-add_all c [] = omega arith
  rows-add_all c (chunk ∷ chunks) = rows-add_all (add c chunk) chunks ∙ omega arith

  spec-add_all : (c : TrimCheck V) (chunks : List Chunk) → (add_all c chunks).spec ≡ c.spec
  unfolding add_all
  spec-add_all c [] = refl
  spec-add_all c (chunk ∷ chunks) = spec-add_all (add c chunk) chunks

  strays-add_all :
      (c : TrimCheck V) (chunks : List Chunk)
      → sum_counts (add_all c chunks).zero_broken ≡ sum_counts c.zero_broken + total_strays chunks
  unfolding add_all
  strays-add_all c [] = omega arith
  strays-add_all c (chunk ∷ chunks) =
      strays-add_all (add c chunk) chunks
      ∙ omega (arith, sum_counts-update c.zero_broken chunk.zero_broken)

  copies-add_all :
      (c : TrimCheck V) (chunks : List Chunk)
      → sum_counts (add_all c chunks).copy_broken ≡ sum_counts c.copy_broken + total_copies chunks
  unfolding add_all
  copies-add_all c [] = omega arith
  copies-add_all c (chunk ∷ chunks) =
      copies-add_all (add c chunk) chunks
      ∙ omega (arith, sum_counts-update c.copy_broken chunk.copy_broken)

  held-add_all :
      (p : ℕ) (c : TrimCheck V) (chunks : List Chunk)
      → member p (keys c.held) ≡ true
      → count_of p (add_all c chunks).held ≡ count_of p c.held + total_held p chunks
  unfolding add_all
  held-add_all p c [] h = omega arith
  held-add_all p c (chunk ∷ chunks) h =
      held-add_all p (add c chunk) chunks (rw (keys-add_held chunk.held c.held) h)
      ∙ omega (arith, count_of-add_held p chunk.held c.held h)

  zeros_found-nil : (l : List (ℕ × ℕ)) → (zeros_found {V = V} l ≡ []) ↔ (sum_counts l ≡ 0)
  unfolding zeros_found
  zeros_found-nil [] = ((λ _. refl), (λ _. refl))
  zeros_found-nil ((p, n) ∷ l) =
      let ih = zeros_found-nil l in ((λ h. ground (arith, ih)), (λ h. ground (arith, ih)))

  copies_found-nil :
      (s : TrimSpec V) (l : List (ℕ × ℕ)) → (copies_found s l ≡ ok []) ↔ (sum_counts l ≡ 0)
  unfolding copies_found
  copies_found-nil s [] = ((λ _. refl), (λ _. refl))
  copies_found-nil s ((p, n) ∷ l) =
      let ih = copies_found-nil s l in ((λ h. ground (arith, ih)), (λ h. ground (arith, ih)))

  -- Each constant position held its value on every row.
  abbrev pub AllHeld : (ℕ → ℕ) → ℕ → List (ℕ × V) → Type 0
  AllHeld held rows [] = Unit
  AllHeld held rows ((p, _) ∷ l) = (held p ≡ rows) × AllHeld held rows l

  constants_found-nil :
      (rows : ℕ) (held : List (ℕ × ℕ)) (l : List (ℕ × V))
      → (constants_found rows held l ≡ []) ↔ AllHeld (λ p. count_of p held) rows l
  unfolding constants_found
  constants_found-nil rows held [] = ((λ _. tt), (λ _. refl))
  constants_found-nil rows held ((p, v) ∷ l) =
      let ih = constants_found-nil rows held l in
      ((λ h. (ground arith, ih.0 (ground arith))), (λ h. ground (arith, h.0, ih.1 h.1)))

  insert-ne-nil : (v : Violation V) (vs : List (Violation V)) → insert_violation v vs ≢ []
  unfolding insert_violation
  insert-ne-nil v [] h = cc
  insert-ne-nil v (w ∷ ws) h = ground arith

  sort-nil : (vs : List (Violation V)) → sort_violations vs ≡ [] → vs ≡ []
  unfolding sort_violations
  sort-nil [] h = refl
  sort-nil (v ∷ vs) h = absurd (insert-ne-nil v (sort_violations vs) h)

  append-nil_inv :
      (us vs ws : List (Violation V)) → us ++ vs ++ ws ≡ [] → (us ≡ []) × (vs ≡ []) × (ws ≡ [])
  append-nil_inv [] [] ws h = (refl, refl, h)
  append-nil_inv [] (v ∷ vs) ws h = cc
  append-nil_inv (u ∷ us) vs ws h = cc

  ok_injective :
      (us vs : List (Violation V))
      → ◌≡◌ {A = Result KeyError (List (Violation V))} (ok us) (ok vs)
      → us ≡ vs
  ok_injective us vs h = cc

  found_parts :
      (c : TrimCheck V) (r : Result KeyError (List (Violation V)))
      → (r >>= λ broken. ok (
          sort_violations (
            zeros_found {V = V} c.zero_broken
            ++ constants_found c.rows c.held c.spec.constant
            ++ broken)))
        ≡ ok []
      → (zeros_found {V = V} c.zero_broken ≡ [])
        × (constants_found c.rows c.held c.spec.constant ≡ [])
        × (r ≡ ok [])
  found_parts c (ok broken) h =
      let (a, b, d) = append-nil_inv _ _ broken (sort-nil _ (ok_injective _ [] h)) in
      (a, b, ap ok d)
  found_parts c (raise e) h = cc

  violations-nil :
      (c : TrimCheck V)
      → (violations c ≡ ok []) ↔ (
          (sum_counts c.zero_broken ≡ 0)
          × AllHeld (λ p. count_of p c.held) c.rows c.spec.constant
          × (sum_counts c.copy_broken ≡ 0))
  unfolding violations
  violations-nil c = (
    (λ h.
        let (a, b, d) = found_parts c (copies_found c.spec c.copy_broken) h in
        (
          (zeros_found-nil c.zero_broken).0 a,
          (constants_found-nil c.rows c.held c.spec.constant).0 b,
          (copies_found-nil c.spec c.copy_broken).0 d,
        )),
    (λ h. rw (
      (copies_found-nil c.spec c.copy_broken).1 h.2,
      (zeros_found-nil c.zero_broken).1 h.0,
      (constants_found-nil c.rows c.held c.spec.constant).1 h.1,
    )),
  )

  AllHeld-congr :
      (held held' : ℕ → ℕ) (rows rows' : ℕ) (l : List (ℕ × V))
      → rows ≡ rows'
      → ((p : ℕ) → member p (keys l) ≡ true → held p ≡ held' p)
      → AllHeld held rows l
      → AllHeld held' rows' l
  AllHeld-congr held held' rows rows' [] e same h = tt
  AllHeld-congr held held' rows rows' ((p, v) ∷ l) e same h = (
    sym (same p (ground arith)) ∙ h.0 ∙ e,
    AllHeld-congr held held' rows rows' l e (λ q m. same q (ground arith)) h.1,
  )

  held-none_held : (p : ℕ) (l : List (ℕ × V)) → count_of p (none_held l) ≡ 0
  held-none_held p [] = refl
  held-none_held p ((q, v) ∷ l) = ground (arith, held-none_held p l)

  keys-none_held : (l : List (ℕ × V)) → keys (none_held l) ≡ keys l
  keys-none_held [] = refl
  keys-none_held ((q, v) ∷ l) = ap (λ ks. q ∷ ks) (keys-none_held l)

  held_total :
      (s : TrimSpec V) (chunks : List Chunk) (p : ℕ)
      → member p (keys s.constant) ≡ true
      → count_of p (add_all (new_check s) chunks).held ≡ total_held p chunks
  held_total s chunks p m =
      held-add_all p (new_check s) chunks (rw keys-none_held m)
      ∙ omega (arith, held-none_held p s.constant)

  -- The check of a build reports no violation exactly when, over all chunks, no zero position and no
  -- copy was found broken, and each constant position held its value on as many rows as were added.
  pub violations-add_all :
      (s : TrimSpec V) (chunks : List Chunk)
      → (violations (add_all (new_check s) chunks) ≡ ok []) ↔ (
          (total_strays chunks ≡ 0)
          × AllHeld (λ p. total_held p chunks) (total_rows chunks) s.constant
          × (total_copies chunks ≡ 0))
  violations-add_all s chunks =
      let c = add_all (new_check s) chunks in
      let spec : c.spec ≡ s = spec-add_all (new_check s) chunks in
      let rows : c.rows ≡ total_rows chunks = rows-add_all (new_check s) chunks ∙ omega arith in
      let strays : sum_counts c.zero_broken ≡ total_strays chunks =
        strays-add_all (new_check s) chunks ∙ omega arith in
      let copies : sum_counts c.copy_broken ≡ total_copies chunks =
        copies-add_all (new_check s) chunks ∙ omega arith in
      let parts = violations-nil c in
      (
        (λ h.
            let (a, b, d) = parts.0 h in
            (
              sym strays ∙ a,
              AllHeld-congr _ _ _ _ s.constant rows (held_total s chunks) (rw spec at b),
              sym copies ∙ d,
            )),
        (λ h. parts.1 (
          strays ∙ h.0,
          rw spec (
              AllHeld-congr _ _ _ _ s.constant (sym rows) (λ p m. sym (held_total s chunks p m))
                h.1),
          copies ∙ h.2,
        )),
      )
