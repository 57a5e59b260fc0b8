-- ===== src/Reclaim.antt =====
-- bin/mem_reclaim.py: memory is asked for until enough of it is free. Sizes are bytes, as natural numbers,
-- where the source has GB as floats; the kB of /proc/meminfo are 1000 bytes, as the source counts them.
-- What a round reads there, and the seconds since the start, are given by its number. A chunk that is
-- asked for is had: a MemoryError, or the kernel's end of the process, is not modelled; nor is a
-- target that is NaN or infinite.
pub mod Ends
use pyg_knowledge_graph_buil.Base.{
  ℕ, zero, suc, none, some, Bool, if◌then◌else◌, Option, leb, ltb, ◌+◌, ◌*◌, ◌/◌,
}

-- `CHUNK`
abbrev pub chunk : ℕ
chunk = 536870912

-- `FLOOR_GB`
abbrev pub floor : ℕ
floor = 8 * 1000000000

-- `DEADLINE`
abbrev pub deadline : ℕ
deadline = 600

-- What is over the target in `aim`.
abbrev pub margin : ℕ
margin = 4 * 1000000000

pub record Reading : Type 0 where
  pub mem_free : ℕ
  pub mem_available : ℕ
  pub elapsed : ℕ

-- `stopped`
pub data Stopped : Type 0 where
  low_memory gave_up : Stopped

-- Where the loop ends: the number of the next reading, what is held, and why it stopped short.
pub record Asked : Type 0 where
  pub next : ℕ
  pub held : ℕ
  pub stopped : Option Stopped

abbrev pub asked : ℕ → ℕ → Option Stopped → Option Asked
asked next held stopped = some (record { next = next; held = held; stopped = stopped })

-- `while True`, on fuel; none where the fuel is spent.
unfoldable pub ask : ℕ → (ℕ → Reading) → ℕ → ℕ → ℕ → Option Asked
ask zero read aim round held = none
ask (suc fuel) read aim round held =
    let rest = ask fuel read aim (round + 1) (held + chunk) in
    let mem = read round in
    if leb aim (mem.mem_free + held)
    then asked (round + 1) held none
    else if ltb mem.mem_available floor
    then asked (round + 1) held (some low_memory)
    else if ltb deadline mem.elapsed
    then asked (round + 1) held (some gave_up)
    else rest

-- Each round but the last asks for a chunk.
abbrev pub enough_fuel : ℕ → ℕ
enough_fuel aim = suc (aim / chunk + 1)

abbrev pub exit_code : (ℕ → Reading) → ℕ → Option Asked → Option ℕ
exit_code read target none = none
exit_code read target (some end) = some (if leb target (read end.next).mem_free then 0 else 1)

-- `main`, with the target, or none where the arguments are not one.
unfoldable pub main : (ℕ → Reading) → Option ℕ → Option ℕ
unfolding ask
main read none = some 2
main read (some target) =
    if leb target (read 0).mem_free
    then some 0
    else exit_code read target (ask (enough_fuel (target + margin)) read (target + margin) 1 0)
