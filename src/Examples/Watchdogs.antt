-- ===== src/Examples/Watchdogs.antt =====
-- Runs of bin/stall_watchdog.py at concrete inputs.
use pyg_knowledge_graph_buil.Base.{[], ◌∷◌, none, some, List, ◌≡◌, refl, ◌↔◌}
use pyg_knowledge_graph_buil.Watchdog.{
  Args, Task, Stage, Watch, Poll, running, success, watch, start, visit, key_of,
}
use pyg_knowledge_graph_buil.Watchdog.Once.{Bounded, watch-Bounded}
use pyg_knowledge_graph_buil.Watchdog.Justified.{Captures, Justified, visit-Justified}

abbrev args : Args
args = record {
  stall = 600;
  factor = record { num = 2; den = 1 };
  min_stuck = 300;
  max_captures = 2;
  exit_after_idle = 60;
}

abbrev tasks : List Task
tasks =
    record { id = 0; status = success; launch = some 0; duration = some 100 }
    ∷ record { id = 1; status = running; launch = some 50; duration = none }
    ∷ []

abbrev stage : Stage
stage = record { stage = 3; attempt = 0; done = 1; active = 1; tasks = tasks; clock = 701 }

abbrev polls : List Poll
polls =
    record { app = some "app"; now = 100; stages = stage ∷ [] }
    ∷ record { app = some "app"; now = 700; stages = stage ∷ [] }
    ∷ record { app = some "app"; now = 760; stages = stage ∷ [] }
    ∷ []

-- The stage is captured at the second round, and not again at the third.
watch_once : (watch args polls start).0.captured ≡ key_of "app" stage ∷ []
unfolding watch
watch_once = refl

watch-Bounded_example : Bounded args (watch args polls start)
watch-Bounded_example = watch-Bounded args polls

abbrev watched : Watch
watched = record {
  seen = (key_of "app" stage, 1, 100) ∷ [];
  captured = [];
  captures = 0;
  idle_since = none;
}

visit-Justified_example :
    Captures watched (visit args "app" 700 stage watched).0 ↔ Justified args "app" 700 stage watched
visit-Justified_example = visit-Justified args "app" 700 stage watched
