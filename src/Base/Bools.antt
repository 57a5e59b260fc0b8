-- ===== src/Base/Bools.antt =====
-- Rearrangements of Boolean tests.
use mathlib.Core.Path.{◌≡◌}
use mathlib.Core.Bool.{Bool, true, ◌&&◌, ◌||◌}
use native.Mathlib.Omega.{arith}

pub or_swap : (a b c : Bool) → (a || (b || c)) ≡ (b || (a || c))
or_swap a b c = ground arith

pub or_out : (a b c : Bool) → ((a && c) || (b && c)) ≡ ((a || b) && c)
or_out a b c = ground arith

pub either_true : (a b : Bool) → b ≡ true → (a || b) ≡ true
either_true a b h = ground arith

pub both : (a b : Bool) → (a && b) ≡ true → (a ≡ true) × (b ≡ true)
both a b h = (ground arith, ground arith)

pub or_repeated : (a b : Bool) → (a || b) ≡ (a || (a || b))
or_repeated a b = ground arith
