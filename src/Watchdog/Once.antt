-- ===== src/Watchdog/Once.antt =====
-- bin/stall_watchdog.py: how often the loop captures.
use pyg_knowledge_graph_buil.Base.{
  ℕ, [], ◌∷◌, false, none, some, inl, inr, refl, length, List, ◌⊎◌, ◌<◌, ◌≤◌, max, ◌≡◌, ◌+◌, arith,
  subst, if◌then◌else◌, Bool-cases, ◌==◌, sym, leb, not, ◌&&◌, ltb, Option-cases, Option,
}
use pyg_knowledge_graph_buil.Watchdog.{
  find, Watch, Next, go_on, exit, Key, Args, has, settled, visit, visit_all, poll, watch, Poll,
  Stage, start, capture, key_of, recall, no_application, unless_exit,
}
use pyg_knowledge_graph_buil.Watchdog.Classify.{settled-cases}
use Prim.Native.String.{String}

-- No stage is in the list twice.
abbrev pub Once : List Key → Type 0
Once [] = Unit
Once (k ∷ l) = (has k l ≡ false) × Once l

abbrev pub Recorded : Watch → Type 0
Recorded w = (w.captures ≡ length w.captured) × Once w.captured

abbrev pub Within : Args → ℕ → Next → Type 0
Within args n go_on = (n ≡ 0) ⊎ (n < args.max_captures)
Within args n exit = n ≤ max 1 args.max_captures

abbrev pub Bounded : Args → Watch × Next → Type 0
Bounded args r = Recorded r.0 × Within args r.0.captures r.1

Within-next :
    (args : Args) (n : ℕ)
    → Within args n go_on
    → Within args (n + 1) (if leb args.max_captures (n + 1) then exit else go_on)
Within-next args n (inl e) = elim (Bool-cases (leb args.max_captures (n + 1))) [
  | inl f ↦ rw f (omega arith)
  | inr f ↦ rw f (inr (ground arith))
]
Within-next args n (inr e) = elim (Bool-cases (leb args.max_captures (n + 1))) [
  | inl f ↦ rw f (omega arith)
  | inr f ↦ rw f (inr (ground arith))
]

Within-exit : (args : Args) (n : ℕ) → Within args n go_on → n ≤ max 1 args.max_captures
Within-exit args n (inl e) = omega arith
Within-exit args n (inr e) = omega arith

capture-Bounded :
    (args : Args) (k : Key) (w : Watch)
    → has k w.captured ≡ false
    → Bounded args (w, go_on)
    → Bounded args (capture args k w)
capture-Bounded args k w new ((count, once), within) =
    ((omega arith, (new, once)), Within-next args w.captures within)

settled-Bounded :
    (args : Args) (now : ℕ) (k : Key) (s : Stage) (since : ℕ) (w : Watch)
    → Bounded args (w, go_on)
    → Bounded args (settled args now k s since w)
settled-Bounded args now k s since w h = elim (settled-cases args now k s since w) [
  | inl (e, _) ↦ subst (Bounded args) (sym e) h
  | inr (e, due) ↦ subst (Bounded args) (sym e) (capture-Bounded args k w (due.1) h)
]

recall-Bounded :
    (o : Option (ℕ × ℕ)) (args : Args) (now : ℕ) (k : Key) (s : Stage) (w : Watch)
    → Bounded args (w, go_on)
    → Bounded args (recall o args now k s w)
unfolding recall
recall-Bounded none args now k s w h = h
recall-Bounded (some (done, since)) args now k s w h = elim (Bool-cases (done == s.done)) [
  | inl e ↦ rw e (settled-Bounded args now k s since w h)
  | inr e ↦ rw e h
]

visit-Bounded :
    (args : Args) (app : String) (now : ℕ) (s : Stage) (w : Watch)
    → Bounded args (w, go_on)
    → Bounded args (visit args app now s w)
unfolding visit
visit-Bounded args app now s w h =
    recall-Bounded (find (key_of app s) w.seen) args now (key_of app s) s w h

unless_exit-Bounded :
    (args : Args) (r : Watch × Next) (rest : Watch → Watch × Next)
    → Bounded args r
    → ((w : Watch) → Bounded args (w, go_on) → Bounded args (rest w))
    → Bounded args (unless_exit r rest)
unless_exit-Bounded args (w, exit) rest h k = h
unless_exit-Bounded args (w, go_on) rest h k = k w h

visit_all-Bounded :
    (args : Args) (app : String) (now : ℕ) (stages : List Stage) (w : Watch)
    → Bounded args (w, go_on)
    → Bounded args (visit_all args app now stages w)
unfolding visit_all
visit_all-Bounded args app now [] w h = h
visit_all-Bounded args app now (s ∷ stages) w h =
    unless_exit-Bounded args (visit args app now s w) (visit_all args app now stages)
      (visit-Bounded args app now s w h) (visit_all-Bounded args app now stages)

no_application-Bounded :
    (args : Args) (now : ℕ) (w : Watch)
    → Bounded args (w, go_on)
    → Bounded args (no_application args now w)
no_application-Bounded args now w h = elim (Option-cases w.idle_since) [
  | inl f ↦ rw f h
  | inr (since, f) ↦
      elim (Bool-cases
        (not (args.exit_after_idle == 0) && ltb (since + args.exit_after_idle) now)) [
          | inl e ↦ rw (f, e) (h.0, Within-exit args w.captures h.1)
          | inr e ↦ rw (f, e) h
        ]
]

poll-Bounded :
    (args : Args) (p : Poll) (w : Watch) → Bounded args (w, go_on) → Bounded args (poll args p w)
unfolding poll
poll-Bounded args p w h = elim (Option-cases p.app) [
  | inl f ↦ rw f (no_application-Bounded args p.now w h)
  | inr (app, f) ↦
      rw f (visit_all-Bounded args app p.now p.stages (record w { idle_since = none }) h)
]

watch_from-Bounded :
    (args : Args) (polls : List Poll) (w : Watch)
    → Bounded args (w, go_on)
    → Bounded args (watch args polls w)
unfolding watch
watch_from-Bounded args [] w h = h
watch_from-Bounded args (p ∷ polls) w h =
    unless_exit-Bounded args (poll args p w) (watch args polls) (poll-Bounded args p w h)
      (watch_from-Bounded args polls)

-- From the start, and over any rounds, the loop captures no stage twice, counts each capture, and
-- captures max_captures times at most (once, if that is 0); while it goes on it is below the limit or
-- has captured nothing.
pub watch-Bounded : (args : Args) (polls : List Poll) → Bounded args (watch args polls start)
watch-Bounded args polls = watch_from-Bounded args polls start ((refl, tt), inl refl)
