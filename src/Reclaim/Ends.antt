-- ===== src/Reclaim/Ends.antt =====
-- bin/mem_reclaim.py: the loop ends, whatever it reads.
use pyg_knowledge_graph_buil.Base.{
  ℕ, zero, suc, some, true, refl, Option, leb, ltb, ◌+◌, ◌*◌, ◌/◌, ◌≡◌, ◌≤◌, ◌<◌, ◌⊎◌, inl, inr,
  arith, Bool-cases, leb→le, le→leb,
}
use pyg_knowledge_graph_buil.Reclaim.{
  chunk, floor, deadline, margin, Reading, Asked, ask, enough_fuel, exit_code, main,
}

-- The loop ends within the fuel, and has asked for less than a chunk over the aim.
abbrev Ends : ℕ → Option Asked → Type 0
Ends aim result = (end : Asked) × (result ≡ some end) × (end.held < aim + chunk)

ask-Ends :
    (fuel : ℕ) (read : ℕ → Reading) (aim round held : ℕ)
    → aim ≤ held + fuel * chunk
    → held < aim + chunk
    → Ends aim (ask (suc fuel) read aim round held)
unfolding ask
ask-Ends zero read aim round held enough below =
    let reached : leb aim ((read round).mem_free + held) ≡ true =
      le→leb aim ((read round).mem_free + held) (omega arith) in
    rw reached (_, refl, below)
ask-Ends (suc fuel) read aim round held enough below =
    elim (Bool-cases (leb aim ((read round).mem_free + held))) [
      | inl e ↦ rw e (_, refl, below)
      | inr e ↦ elim (Bool-cases (ltb (read round).mem_available floor)) [
        | inl f ↦ rw (e, f) (_, refl, below)
        | inr f ↦ elim (Bool-cases (ltb deadline (read round).elapsed)) [
          | inl g ↦ rw (e, f, g) (_, refl, below)
          | inr g ↦
              let short : held < aim = ground arith in
              rw (e, f, g)
                (ask-Ends fuel read aim (round + 1) (held + chunk) (omega arith) (omega arith))
        ]
      ]
    ]

-- What the exit code says of the target and of what is free.
abbrev pub Tells : Option ℕ → ℕ → ℕ → Type 0
Tells code target mem_free =
    ((code ≡ some 0) × (target ≤ mem_free)) ⊎ ((code ≡ some 1) × (mem_free < target))

exit_code-Tells :
    (read : ℕ → Reading) (target : ℕ) (end : Asked)
    → Tells (exit_code read target (some end)) target (read end.next).mem_free
exit_code-Tells read target end = elim (Bool-cases (leb target (read end.next).mem_free)) [
  | inl e ↦ rw e (inl (refl, leb→le target (read end.next).mem_free e))
  | inr e ↦ rw e (inr (refl, ground arith))
]

-- Whatever is read, a run with a target ends. Where the target is free at the start, it exits with 0 and
-- asks for nothing. Where it is not, the loop ends with less than a chunk over the aim asked for, and the
-- exit code is 0 where the target is free in the reading after that, and 1 where it is not.
pub main-Ends :
    (read : ℕ → Reading) (target : ℕ)
    → ((target ≤ (read 0).mem_free) × (main read (some target) ≡ some 0))
      ⊎ (((read 0).mem_free < target)
          × ((end : Asked) × (ask (enough_fuel (target + margin)) read (target + margin) 1 0
                ≡ some end)
              × (end.held < target + margin + chunk)
              × Tells (main read (some target)) target (read end.next).mem_free))
unfolding main
main-Ends read target = elim (Bool-cases (leb target (read 0).mem_free)) [
  | inl e ↦ inl (leb→le target (read 0).mem_free e, rw e refl)
  | inr e ↦
      let (end, ends, below) =
        ask-Ends ((target + margin) / chunk + 1) read (target + margin) 1 0 (omega arith)
          (omega arith) in
      inr (ground arith, (end, ends, below, rw (e, ends) (exit_code-Tells read target end)))
]
