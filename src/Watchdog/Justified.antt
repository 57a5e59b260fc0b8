-- ===== src/Watchdog/Justified.antt =====
-- bin/stall_watchdog.py: what a capture says of the stage.
use pyg_knowledge_graph_buil.Base.{
  ℕ, [], ◌∷◌, true, false, none, some, inl, inr, refl, List, ◌<◌, ◌≤◌, ◌≡◌, Bool, All, arith,
  lt→ltb, ◌*◌, ltb→lt, Bool-cases, dec_lt, ◌↔◌, &&_iff, ap, ◌+◌, &&-intro, subst, sym, ◌∙◌, Option,
  ◌==◌, ==_iff, ◌≢◌,
}
use pyg_knowledge_graph_buil.Base.Int.{ℤ, pos, negsuc}
use native.Mathlib.Nat.{mul-le-mul_right}
use mathlib.Core.List.{Memᴰ}
use Prim.Native.String.{String}
use pyg_knowledge_graph_buil.Watchdog.{
  find, Watch, Key, Args, has, settled, visit, Stage, stuck_of, classify, older, beyond, at_least,
  past, maximum, running_tasks, finished_ms, is_empty, key_of, recall, Task, Factor,
}
use pyg_knowledge_graph_buil.Watchdog.Classify.{settled-cases, Due}
use mathlib.Core.Option.{some-injective}

-- The age is past what the finished tasks, or the lack of them, ask for.
abbrev pub Overdue : Args → List ℕ → ℤ → Type 0
Overdue args [] age = at_least args.stall age ≡ true
Overdue args (d ∷ ds) age =
    All (λ e. beyond args.factor e age ≡ true) (d ∷ ds) × (at_least args.min_stuck age ≡ true)

beyond-smaller :
    (f : Factor) (m d : ℕ) (age : ℤ) → d ≤ m → beyond f m age ≡ true → beyond f d age ≡ true
beyond-smaller f m d (pos age) le h =
    lt→ltb (d * f.num) (age * f.den)
      (omega (arith, mul-le-mul_right f.num le, ltb→lt (m * f.num) (age * f.den) h))
beyond-smaller f m d (negsuc age) le h = h

beyond-maximum :
    (f : Factor) (ds : List ℕ) (m : ℕ) (age : ℤ)
    → maximum ds ≤ m
    → beyond f m age ≡ true
    → All (λ e. beyond f e age ≡ true) ds
beyond-maximum f [] m age le h = tt
beyond-maximum f (d ∷ ds) m age le h =
    (beyond-smaller f m d age (omega arith) h, beyond-maximum f ds m age (omega arith) h)

maximum-beyond :
    (f : Factor) (d : ℕ) (ds : List ℕ) (age : ℤ)
    → All (λ e. beyond f e age ≡ true) (d ∷ ds)
    → beyond f (maximum (d ∷ ds)) age ≡ true
maximum-beyond f d [] age (h, _) = subst (λ n. beyond f n age ≡ true) (omega arith) h
maximum-beyond f d (e ∷ ds) age (h, hs) = elim (dec_lt d (maximum (e ∷ ds))) [
  | yes lt ↦ subst (λ n. beyond f n age ≡ true) (omega arith) (maximum-beyond f e ds age hs)
  | no ge ↦ subst (λ n. beyond f n age ≡ true) (omega arith) h
]

past-Overdue :
    (args : Args) (ds : List ℕ) (age : ℤ)
    → (past ds args.factor args.stall args.min_stuck age ≡ true) ↔ Overdue args ds age
past-Overdue args [] age = (λ h. h, λ h. h)
past-Overdue args (d ∷ ds) age = (
  λ h.
      let (far, long) =
        (&&_iff (beyond args.factor (maximum (d ∷ ds)) age) (at_least args.min_stuck age)).0 h in
      (beyond-maximum args.factor (d ∷ ds) (maximum (d ∷ ds)) age (omega arith) far, long),
  λ (every, long). &&-intro (maximum-beyond args.factor d ds age every) long,
)

older-some :
    (test : ℤ → Bool) (l : List (Task × ℤ))
    → is_empty (older test l) ≡ false
    → (t : Task) × (age : ℤ) × Memᴰ (t, age) l × (test age ≡ true)
unfolding older
older-some test [] h = cc
older-some test ((t, age) ∷ l) h = elim (Bool-cases (test age)) [
  | inl e ↦ (t, age, Memᴰ.head refl, e)
  | inr e ↦ let (u, a, m, f) = older-some test l (ground arith) in (u, a, Memᴰ.tail m, f)
]

some-older :
    (test : ℤ → Bool) (t : Task) (age : ℤ) (l : List (Task × ℤ))
    → Memᴰ (t, age) l
    → test age ≡ true
    → is_empty (older test l) ≡ false
unfolding older
some-older test t age [] m h = elim m [ ]
some-older test t age ((u, a) ∷ l) (Memᴰ.head e) h = rw (ap (λ p. test p.1) (sym e) ∙ h)
some-older test t age ((u, a) ∷ l) (Memᴰ.tail m) h = elim (Bool-cases (test a)) [
  | inl e ↦ rw e
  | inr e ↦ rw e (some-older test t age l m h)
]

stuck-Overdue :
    (args : Args) (s : Stage)
    → (is_empty (stuck_of args s) ≡ false) ↔ (
        (t : Task) × (age : ℤ) × Memᴰ (t, age) (running_tasks s.clock s.tasks)
        × Overdue args (finished_ms s.tasks) age)
unfolding classify
stuck-Overdue args s =
    let runs = running_tasks s.clock s.tasks in
    let ds = finished_ms s.tasks in
    let test = past ds args.factor args.stall args.min_stuck in
    (
      λ h.
          let (t, age, m, e) = older-some test runs h in
          (t, age, m, (past-Overdue args ds age).0 e),
      λ (t, age, m, o). some-older test t age runs m ((past-Overdue args ds age).1 o),
    )

-- The count of the stage has not moved since an earlier poll, for as long as the stall setting; it has
-- running tasks, is captured for the first time, and one of its running tasks is overdue.
abbrev pub Justified : Args → String → ℕ → Stage → Watch → Type 0
Justified args app now s w =
    (since : ℕ) × (find (key_of app s) w.seen ≡ some (s.done, since))
    × (since + args.stall ≤ now)
    × (0 < s.active)
    × (has (key_of app s) w.captured ≡ false)
    × ((t : Task) × (age : ℤ) × Memᴰ (t, age) (running_tasks s.clock s.tasks)
        × Overdue args (finished_ms s.tasks) age)

abbrev pub Captures : Watch → Watch → Type 0
Captures w w' = w'.captures ≡ w.captures + 1

settled-Captures :
    (args : Args) (now : ℕ) (k : Key) (s : Stage) (since : ℕ) (w : Watch)
    → Captures w (settled args now k s since w).0 ↔ Due args now k s since w
settled-Captures args now k s since w = elim (settled-cases args now k s since w) [
  | inl (e, not_due) ↦
      (λ c. absurd (omega (arith, ap (λ r. r.0.captures) e, c)), λ d. absurd (not_due d))
  | inr (e, due) ↦ (λ c. due, λ d. ap (λ r. r.0.captures) e)
]

distinct : (a b : ℕ) → (a == b) ≡ false → a ≢ b
distinct a b h e = ground arith

recall-Captures :
    (o : Option (ℕ × ℕ)) (args : Args) (now : ℕ) (k : Key) (s : Stage) (w : Watch)
    → Captures w (recall o args now k s w).0
      ↔ ((since : ℕ) × (o ≡ some (s.done, since)) × Due args now k s since w)
unfolding recall
recall-Captures none args now k s w = (λ c. absurd (omega arith), λ (since, e, d). cc)
recall-Captures (some (done, since)) args now k s w = elim (Bool-cases (done == s.done)) [
  | inl e ↦ rw e (
    λ c. (
      since,
      ap (λ d. some (d, since)) ((==_iff done s.done).0 e),
      (settled-Captures args now k s since w).0 c,
    ),
    λ (start, same, due). (settled-Captures args now k s since w).1 (
        subst (λ t. Due args now k s t w)
          (ap (λ p. p.1) (sym (some-injective (done, since) (s.done, start) same))) due),
  )
  | inr e ↦ rw e (
    λ c. absurd (omega arith),
    λ (start, same, due). absurd (
        distinct done s.done e (ap (λ p. p.0) (some-injective (done, since) (s.done, start) same))),
  )
]

-- A stage is captured in a round exactly when its completed count is what an earlier round saw, the stall
-- time has passed since that count was first seen, it has active tasks and was not captured before, and
-- some running task is overdue: where tasks have finished, older than the factor times each of them and
-- than the least age, and where none has, older than the stall time.
pub visit-Justified :
    (args : Args) (app : String) (now : ℕ) (s : Stage) (w : Watch)
    → Captures w (visit args app now s w).0 ↔ Justified args app now s w
unfolding visit
visit-Justified args app now s w =
    let (forth, back) = recall-Captures (find (key_of app s) w.seen) args now (key_of app s) s w in
    (
      λ c.
          let (since, seen, (active, new, stall, stuck)) = forth c in
          (since, seen, stall, active, new, (stuck-Overdue args s).0 stuck),
      λ (since, seen, stall, active, new, overdue).
          back (since, seen, (active, new, stall, (stuck-Overdue args s).1 overdue)),
    )
