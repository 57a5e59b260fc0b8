-- ===== src/Base/Result.antt =====
-- A Python function that returns a value or raises one of the exceptions `E`.
use mathlib.Core.Option.{Option, none, some}
use pyg_knowledge_graph_buil.Base.{◌≡◌, refl}

pub data Result {ℓ κ} (E : Type ℓ) (A : Type κ) : Type (ℓ ⊔ κ) where
  ok : A → Result E A
  raise : E → Result E A

infixl 5 ◌>>=◌
abbrev pub ◌>>=◌ {ℓ κ μ} :
    {E : Type ℓ} {A : Type κ} {B : Type μ} → Result E A → (A → Result E B) → Result E B
ok a >>= f = f a
raise e >>= f = raise e

-- The exception that was raised, if any.
abbrev pub error_of {ℓ κ} : {E : Type ℓ} {A : Type κ} → Result E A → Option E
error_of (ok a) = none
error_of (raise e) = some e

-- What raises nothing had a first part that returned, and a second that raises nothing.
pub error_of-bind {ℓ κ μ} :
    {E : Type ℓ} {A : Type κ} {B : Type μ} (r : Result E A) (f : A → Result E B)
    → error_of (r >>= f) ≡ none
    → (a : A) × (r ≡ ok a) × (error_of (f a) ≡ none)
error_of-bind (ok a) f h = (a, refl, h)
error_of-bind (raise e) f h = cc
