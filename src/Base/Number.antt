-- ===== src/Base/Number.antt =====
-- The values that a tensor holds, with the tests that the program makes on them. Floats meet the law
-- where no value is NaN and the two zeros count as one.
use Prim.Native.Nat.{ℕ}
use mathlib.Core.Path.{◌≡◌}
use mathlib.Core.Logic.{◌↔◌}
use mathlib.Core.Bool.{Bool, true}
use pyg_knowledge_graph_buil.Base.Tests.{◌==◌, ==_iff}

pub record Number {ℓ} (V : Type ℓ) : Type ℓ where
  pub nil : V
  pub same : V → V → Bool
  pub same_iff : (a b : V) → (same a b ≡ true) ↔ (a ≡ b)

instance abbrev pub nat_number : Number ℕ
nat_number = record { nil = 0; same = ◌==◌; same_iff = ==_iff }
