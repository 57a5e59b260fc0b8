-- ===== src/Examples/Publishing.antt =====
-- A destination that keeps what it is sent, and a run and a day's tables of one file each.
use pyg_knowledge_graph_buil.Publish.Day.{data_day, data_day-ok, IsGiven, IsDay}
use pyg_knowledge_graph_buil.Base.{
  [], ◌∷◌, none, some, ◌≡◌, refl, true, false, ◌↔◌, ◌⊎◌, ◌++◌, List, ℕ, Bool, leb, ◌&&◌,
}
use pyg_knowledge_graph_buil.Base.Texts.{among, Text}
use pyg_knowledge_graph_buil.Base.Result.{ok, raise}
use pyg_knowledge_graph_buil.Sources.{sorted_texts}
use pyg_knowledge_graph_buil.Publish.{Files, Aws, Tables, publish_tables, refused}
use pyg_knowledge_graph_buil.Publish.Complete.{Completes, publish_tables-Completes}
use pyg_knowledge_graph_buil.Publish.Run.{Run, publish}
use pyg_knowledge_graph_buil.Publish.Run.Published.{Publishes, publish-Publishes}

abbrev store : Aws Files
store = record {
  listing = λ s dst. (s, some s);
  sync = λ s dst items marker. (items ++ s, 0);
  dry_run = λ s dst items marker. (s, 0);
  copy = λ s dst marker size. ((marker, size) ∷ s, 0);
}

-- "a/day=1/p", 5 bytes long, with the marker "m"
abbrev day : Tables
day = record {
  items = (97 ∷ 47 ∷ 100 ∷ 97 ∷ 121 ∷ 61 ∷ 49 ∷ 47 ∷ 112 ∷ [], 5) ∷ [];
  dst = [];
  marker = 109 ∷ [];
  marker_size = 2;
  scope = 100 ∷ 97 ∷ 121 ∷ 61 ∷ 49 ∷ 47 ∷ [];
  linked = false;
}

abbrev run : Run
run = record {
  items = (112 ∷ [], 7) ∷ [];
  dst = [];
  index = 105 ∷ [];
  index_size = 3;
  linked = false;
  graphs_differ = false;
  tables = none;
  sources_unknown = false;
}

first_sent : publish store run true [] ≡ ((105 ∷ [], 3) ∷ (112 ∷ [], 7) ∷ [], ok 0)
unfolding publish
first_sent = refl

-- A second time it is refused.
then_refused : (publish store run true ((105 ∷ [], 3) ∷ (112 ∷ [], 7) ∷ [])).1 ≡ raise refused
unfolding publish
then_refused = refl

day_sent : (publish_tables store day true []).1 ≡ ok 0
unfolding publish_tables
day_sent = refl

publish_tables-Completes_example :
    ((publish_tables store day true []).1 ≡ ok 0) ↔ Completes store day []
publish_tables-Completes_example = publish_tables-Completes store day []

publish-Publishes_example : ((publish store run true []).1 ≡ ok 0) ↔ (
    (run.sources_unknown ≡ false)
    × ((already : Files) × (some [] ≡ some already) × Publishes store run already []))
publish-Publishes_example = publish-Publishes store run []

-- "2026-09-06", the only day that the paths name.
abbrev named : List Text
named = (50 ∷ 48 ∷ 50 ∷ 54 ∷ 45 ∷ 48 ∷ 57 ∷ 45 ∷ 48 ∷ 54 ∷ []) ∷ []

abbrev day_name : Text
day_name = 50 ∷ 48 ∷ 50 ∷ 54 ∷ 45 ∷ 48 ∷ 57 ∷ 45 ∷ 48 ∷ 54 ∷ []

abbrev is_digit : ℕ → Bool
is_digit c = leb 48 c && leb c 57

day_given : data_day is_digit named day_name [] ≡ ok day_name
unfolding data_day
day_given = refl

-- A variable that is not set.
abbrev none_set : Text
none_set = []

data_day-ok_example : (data_day is_digit named [] day_name ≡ ok day_name) ↔ (
    (IsGiven [] day_name day_name
      × (IsDay is_digit day_name × (named ≡ [] ⊎ among day_name named ≡ true)))
    ⊎ ((none_set ≡ []) × ((day_name ≡ []) × (sorted_texts named ≡ day_name ∷ []))))
data_day-ok_example = data_day-ok is_digit named [] day_name day_name
