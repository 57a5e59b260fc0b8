-- ===== src/Watchdog.antt =====
-- bin/stall_watchdog.py: `classify`, and the loop of `main` as a function of what each poll reads. Times
-- are milliseconds, as natural numbers; an age is an integer, since a task may be launched after the
-- clock was read. The factor is a fraction. What a poll reads from the driver is its argument: launch
-- times as `parse_launch_time` gives them, and statuses in upper case.
pub mod Classify
pub mod Once
pub mod Justified
use Prim.Native.String.{String}
use text.Mathlib.Text.{◌==◌ as str_eq}
use pyg_knowledge_graph_buil.Base.{
  ℕ, zero, suc, [], ◌∷◌, true, false, none, some, inl, inr, refl, Bool, List, ◌+◌, if◌then◌else◌,
  Option, ◌&&◌, leb, max, ◌||◌, ◌==◌, not, ltb, ◌*◌,
}
use pyg_knowledge_graph_buil.Base.Int.{ℤ, sub_ℕ, pos, negsuc}

pub data Status : Type 0 where
  running success other : Status

pub record Task : Type 0 where
  pub id : ℕ
  pub status : Status
  pub launch : Option ℕ
  pub duration : Option ℕ

pub record Factor : Type 0 where
  pub num : ℕ
  pub den : ℕ

-- The running tasks with a launch time, and their ages.
unfoldable pub running_tasks : ℕ → List Task → List (Task × ℤ)
running_tasks now [] = []
running_tasks now (t ∷ tasks) =
    let rest = running_tasks now tasks in
    elim t.status [
      | running ↦ elim t.launch [ some launch ↦ (t, sub_ℕ now launch) ∷ rest | none ↦ rest ]
      | _ ↦ rest
    ]

-- The durations of the tasks that succeeded; one of 0 is left out, as a missing one is.
unfoldable pub finished_ms : List Task → List ℕ
finished_ms [] = []
finished_ms (t ∷ tasks) =
    let rest = finished_ms tasks in
    elim t.status [
      | success ↦ elim t.duration [ some d ↦ if d == 0 then rest else d ∷ rest | none ↦ rest ]
      | _ ↦ rest
    ]

abbrev pub maximum : List ℕ → ℕ
maximum [] = 0
maximum (d ∷ ds) = max d (maximum ds)

-- `age >= bound`
abbrev pub at_least : ℕ → ℤ → Bool
at_least bound (pos age) = leb bound age
at_least bound (negsuc _) = false

-- `age > longest * factor`
abbrev pub beyond : Factor → ℕ → ℤ → Bool
beyond factor longest (pos age) = ltb (longest * factor.num) (age * factor.den)
beyond factor longest (negsuc _) = false

unfoldable pub older : (ℤ → Bool) → List (Task × ℤ) → List (Task × ℤ)
older test [] = []
older test ((t, age) ∷ rest) = if test age then (t, age) ∷ older test rest else older test rest

-- The test of a running task's age, by the durations of the finished ones.
abbrev pub past : List ℕ → Factor → ℕ → ℕ → ℤ → Bool
past [] factor no_baseline_floor min_stuck age = at_least no_baseline_floor age
past (d ∷ ds) factor no_baseline_floor min_stuck age =
    beyond factor (maximum (d ∷ ds)) age && at_least min_stuck age

-- `classify`
unfoldable pub classify :
    ℕ → List Task → Factor → ℕ → ℕ → List (Task × ℤ) × List ℕ × List (Task × ℤ)
unfolding running_tasks finished_ms older
classify now tasks factor no_baseline_floor min_stuck =
    let runs = running_tasks now tasks in
    let finished = finished_ms tasks in
    (runs, finished, older (past finished factor no_baseline_floor min_stuck) runs)

pub record Args : Type 0 where
  pub stall : ℕ
  pub factor : Factor
  pub min_stuck : ℕ
  pub max_captures : ℕ
  pub exit_after_idle : ℕ

pub record Key : Type 0 where
  pub app : String
  pub stage : ℕ
  pub attempt : ℕ

unfoldable pub same_key : Key → Key → Bool
same_key a b = str_eq a.app b.app && a.stage == b.stage && a.attempt == b.attempt

-- A stage as the driver lists it, the tasks read for it, and the clock when they are classified.
pub record Stage : Type 0 where
  pub stage : ℕ
  pub attempt : ℕ
  pub done : ℕ
  pub active : ℕ
  pub tasks : List Task
  pub clock : ℕ

-- What the loop remembers: the completed count of each stage and when it last changed, the stages
-- captured so far, latest first, and since when there is no application.
pub record Watch : Type 0 where
  pub seen : List (Key × ℕ × ℕ)
  pub captured : List Key
  pub captures : ℕ
  pub idle_since : Option ℕ

abbrev pub start : Watch
start = record { seen = []; captured = []; captures = 0; idle_since = none }

unfoldable pub find : Key → List (Key × ℕ × ℕ) → Option (ℕ × ℕ)
unfolding same_key
find k [] = none
find k ((j, done, since) ∷ l) = if same_key j k then some (done, since) else find k l

unfoldable pub put : Key → ℕ → ℕ → List (Key × ℕ × ℕ) → List (Key × ℕ × ℕ)
unfolding same_key
put k done since [] = (k, done, since) ∷ []
put k done since ((j, d, s) ∷ l) =
    if same_key j k then (k, done, since) ∷ l else (j, d, s) ∷ put k done since l

unfoldable pub has : Key → List Key → Bool
unfolding same_key
has k [] = false
has k (j ∷ l) = same_key j k || has k l

-- Whether the loop goes on or returns 0.
pub data Next : Type 0 where
  go_on exit : Next

abbrev pub is_empty : List (Task × ℤ) → Bool
is_empty [] = true
is_empty (_ ∷ _) = false

abbrev pub capture : Args → Key → Watch → Watch × Next
capture args key w =
    let w' : Watch = record w { captured = key ∷ w.captured; captures = w.captures + 1 } in
    (w', if leb args.max_captures w'.captures then exit else go_on)

abbrev pub stuck_of : Args → Stage → List (Task × ℤ)
stuck_of args s = (classify s.clock s.tasks args.factor args.stall args.min_stuck).2

-- A stage whose count has not moved since the poll that first saw it.
unfoldable pub settled : Args → ℕ → Key → Stage → ℕ → Watch → Watch × Next
unfolding classify has
settled args now key s since w =
    if s.active == 0 || has key w.captured
    then (w, go_on)
    else if ltb now (since + args.stall)
    then (w, go_on)
    else if is_empty (stuck_of args s)
    then (w, go_on)
    else capture args key w

abbrev pub key_of : String → Stage → Key
key_of app s = record { app = app; stage = s.stage; attempt = s.attempt }

-- A stage whose count and time are remembered, or not.
unfoldable pub recall : Option (ℕ × ℕ) → Args → ℕ → Key → Stage → Watch → Watch × Next
unfolding settled put
recall none args now key s w = (record w { seen = put key s.done now w.seen }, go_on)
recall (some (done, since)) args now key s w =
    if done == s.done
    then settled args now key s since w
    else (record w { seen = put key s.done now w.seen }, go_on)

-- The body of the loop over the active stages.
unfoldable pub visit : Args → String → ℕ → Stage → Watch → Watch × Next
unfolding recall find
visit args app now s w = recall (find (key_of app s) w.seen) args now (key_of app s) s w

-- A return ends the loops; otherwise the rest runs.
abbrev pub unless_exit : Watch × Next → (Watch → Watch × Next) → Watch × Next
unless_exit (w, exit) rest = (w, exit)
unless_exit (w, go_on) rest = rest w

-- The stages of a poll in turn; a return ends the loop.
unfoldable pub visit_all : Args → String → ℕ → List Stage → Watch → Watch × Next
unfolding visit
visit_all args app now [] w = (w, go_on)
visit_all args app now (s ∷ stages) w =
    unless_exit (visit args app now s w) (visit_all args app now stages)

-- What one round reads: the application's id, the clock, and the active stages.
pub record Poll : Type 0 where
  pub app : Option String
  pub now : ℕ
  pub stages : List Stage

abbrev pub no_application : Args → ℕ → Watch → Watch × Next
no_application args now w = elim w.idle_since [
  | none ↦ (record w { seen = []; idle_since = some now }, go_on)
  | some since ↦
      if not (args.exit_after_idle == 0) && ltb (since + args.exit_after_idle) now
      then (w, exit)
      else (record w { seen = [] }, go_on)
]

-- One round of `while True`.
unfoldable pub poll : Args → Poll → Watch → Watch × Next
unfolding visit_all
poll args p w = elim p.app [
  | none ↦ no_application args p.now w
  | some app ↦ visit_all args app p.now p.stages (record w { idle_since = none })
]

-- The loop over the rounds that the driver and the clock give it.
unfoldable pub watch : Args → List Poll → Watch → Watch × Next
unfolding poll
watch args [] w = (w, go_on)
watch args (p ∷ polls) w = unless_exit (poll args p w) (watch args polls)
