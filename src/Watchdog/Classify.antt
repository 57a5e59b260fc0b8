-- ===== src/Watchdog/Classify.antt =====
-- bin/stall_watchdog.py: when a stage is captured.
use pyg_knowledge_graph_buil.Base.{
  ℕ, false, inl, inr, ◌⊎◌, ◌<◌, ◌≤◌, ◌≡◌, Bool-cases, ◌+◌, ◌==◌, ltb, arith,
}
use pyg_knowledge_graph_buil.Watchdog.{
  Watch, go_on, Key, Args, has, settled, Stage, capture, is_empty, stuck_of,
}

-- What the checks of `settled` let through.
abbrev pub Due : Args → ℕ → Key → Stage → ℕ → Watch → Type 0
Due args now k s since w =
    (0 < s.active)
    × (has k w.captured ≡ false)
    × (since + args.stall ≤ now)
    × (is_empty (stuck_of args s) ≡ false)

pub settled-cases :
    (args : Args) (now : ℕ) (k : Key) (s : Stage) (since : ℕ) (w : Watch)
    → (settled args now k s since w ≡ (w, go_on)) × ¬ (Due args now k s since w)
      ⊎ (settled args now k s since w ≡ capture args k w) × Due args now k s since w
unfolding settled
settled-cases args now k s since w = elim (Bool-cases (s.active == 0)) [
  | inl e ↦ inl (rw e, λ d. ground arith)
  | inr e ↦ elim (Bool-cases (has k w.captured)) [
    | inl f ↦ inl (rw (e, f), λ d. ground arith)
    | inr f ↦ elim (Bool-cases (ltb now (since + args.stall))) [
      | inl g ↦ inl (rw (e, f, g), λ d. ground arith)
      | inr g ↦ elim (Bool-cases (is_empty (stuck_of args s))) [
        | inl h ↦ inl (rw (e, f, g, h), λ d. cc)
        | inr h ↦ inr (rw (e, f, g, h), (ground arith, f, ground arith, h))
      ]
    ]
  ]
]
