-- ===== src/Examples/Memory.antt =====
-- bin/mem_reclaim.py with 1.3 GB free, of which the target is 24 GB, and 100 GB available: asking frees the
-- cache, so that at the last reading there is enough.
use pyg_knowledge_graph_buil.Base.{ℕ, some, refl, ltb, ◌+◌, ◌≡◌, ◌≤◌, ◌<◌, ◌⊎◌, if◌then◌else◌}
use pyg_knowledge_graph_buil.Reclaim.{chunk, margin, Reading, Asked, ask, enough_fuel, main}
use pyg_knowledge_graph_buil.Reclaim.Ends.{main-Ends, Tells}

abbrev target : ℕ
target = 24000000000

-- The loop holds the chunks of 50 rounds, and then they are free.
abbrev read : ℕ → Reading
read round = record {
  mem_free = if ltb 50 round then 27000000000 else 1300000000;
  mem_available = 100000000000;
  elapsed = round;
}

main-Ends_example :
    ((target ≤ (read 0).mem_free) × (main read (some target) ≡ some 0))
    ⊎ (((read 0).mem_free < target)
        × ((end : Asked) × (ask (enough_fuel (target + margin)) read (target + margin) 1 0
              ≡ some end)
            × (end.held < target + margin + chunk)
            × Tells (main read (some target)) target (read end.next).mem_free))
main-Ends_example = main-Ends read target

reached : main read (some target) ≡ some 0
unfolding main ask
reached = refl
