-- ===== src/Layout/Rounding.antt =====
-- Python's `int(round(n * f))` for an integer `n >= 0` and a float constant `f`, in IEEE doubles:
-- the integer is converted, the product is rounded to 53 bits, and `round` takes the nearest
-- integer, each time with ties to even. A product that is not an integer stands as a numerator
-- over the constant's own power of two.
use pyg_knowledge_graph_buil.Base.{
  ℕ, zero, suc, ◌+◌, ◌-◌, ◌*◌, ◌/◌, ◌%◌, ◌^◌, ◌≤◌, ◌<◌, ◌≡◌, refl, ◌⊎◌, inl, inr, arith, ltb, ◌==◌,
  if◌then◌else◌, Bool-cases, ltb→lt,
}
use native.Mathlib.Nat.{div-add-mod', mod-lt}

-- The integer nearest to `p / d`, the even one of two that are as near.
half_even : ℕ → ℕ → ℕ
half_even p d =
    let q = p / d in
    let r = p % d in
    if ltb (2 * r) d then q else if ltb d (2 * r) then q + 1 else if q % 2 == 0 then q else q + 1

-- The unit of the last of 53 bits of `p`, looked for from `d` upwards.
ulp_from : ℕ → ℕ → ℕ → ℕ
ulp_from zero d p = d
ulp_from (suc fuel) d p =
    let rest = ulp_from fuel (2 * d) p in if ltb p (2 ^ 53 * d) then d else rest

abbrev ulp : ℕ → ℕ
ulp p = ulp_from p 1 p

-- `p` rounded to a double.
pub to_double : ℕ → ℕ
unfolding half_even ulp_from
to_double p = half_even p (ulp p) * ulp p

-- A float constant is `num / den`, with `den` a power of two.
pub record Constant : Type 0 where
  pub num : ℕ
  pub den : ℕ

unfoldable pub round_scaled : ℕ → Constant → ℕ
unfolding to_double
round_scaled n f = half_even (to_double (to_double n * f.num)) f.den

half_even_cases :
    (p d : ℕ)
    → (half_even p d ≡ p / d) × (2 * (p % d) ≤ d) ⊎ (half_even p d ≡ p / d + 1) × (d ≤ 2 * (p % d))
unfolding half_even
half_even_cases p d = ground arith

-- `half_even` is off by half a divisor at most.
half_even_bounds :
    (p d : ℕ) → 0 < d → (half_even p d * d * 2 ≤ p * 2 + d) × (p * 2 ≤ half_even p d * d * 2 + d)
half_even_bounds p d pos = elim (half_even_cases p d) [
  | inl (e, h) ↦ rw e (omega (arith, div-add-mod' p d), omega (arith, div-add-mod' p d))
  | inr (e, h) ↦
      rw e (omega (arith, div-add-mod' p d, mod-lt p pos), omega (arith, div-add-mod' p d))
]

-- The unit found is a bound on the size, and is 1 or fits 52 times doubled into the number.
ulp_from_bounds :
    (fuel d p : ℕ)
    → 0 < d
    → p < 2 ^ 53 * (d + fuel)
    → (d ≡ 1) ⊎ (2 ^ 52 * d ≤ p)
    → (p < 2 ^ 53 * ulp_from fuel d p)
      × ((ulp_from fuel d p ≡ 1) ⊎ (2 ^ 52 * ulp_from fuel d p ≤ p))
unfolding ulp_from
ulp_from_bounds zero d p h k s = (omega arith, s)
ulp_from_bounds (suc fuel) d p h k s = elim (Bool-cases (ltb p (2 ^ 53 * d))) [
  | inl e ↦ rw e (ltb→lt _ _ e, s)
  | inr e ↦ rw e (ulp_from_bounds fuel (2 * d) p (omega arith) (omega arith) (inr (ground arith)))
]

ulp_bounds : (p : ℕ) → (p < 2 ^ 53 * ulp p) × ((ulp p ≡ 1) ⊎ (2 ^ 52 * ulp p ≤ p))
ulp_bounds p = ulp_from_bounds p 1 p (omega arith) (omega arith) (inl refl)

half_even_one : (p : ℕ) → half_even p 1 ≡ p
half_even_one p = omega (arith, half_even_bounds p 1 (omega arith))

-- A double is within one part in 2 ^ 53 of the number it stands for.
to_double_bounds :
    (p : ℕ) → (to_double p * 2 ^ 53 ≤ p * (2 ^ 53 + 1)) × (p * (2 ^ 53 - 1) ≤ to_double p * 2 ^ 53)
unfolding to_double
to_double_bounds p = elim ((ulp_bounds p).1) [
  | inl e ↦ rw (e, half_even_one) (omega arith, omega arith)
  | inr h ↦ (
    omega (arith, half_even_bounds p (ulp p) (omega (arith, ulp_bounds p))),
    omega (arith, half_even_bounds p (ulp p) (omega (arith, ulp_bounds p))),
  )
]

-- Numbers of 53 bits are doubles.
-- What `int(round(n * f))` may be, with each rounding bounded.
pub record IsRounded (n : ℕ) (f : Constant) (r : ℕ) : Type 0 where
  pub double : ℕ
  pub product : ℕ
  pub double_le : double * 2 ^ 53 ≤ n * (2 ^ 53 + 1)
  pub le_double : n * (2 ^ 53 - 1) ≤ double * 2 ^ 53
  pub product_le : product * 2 ^ 53 ≤ double * f.num * (2 ^ 53 + 1)
  pub le_product : double * f.num * (2 ^ 53 - 1) ≤ product * 2 ^ 53
  pub result_le : r * f.den * 2 ≤ product * 2 + f.den
  pub le_result : product * 2 ≤ r * f.den * 2 + f.den

pub round_scaled-IsRounded : (n : ℕ) (f : Constant) → 0 < f.den → IsRounded n f (round_scaled n f)
unfolding round_scaled
round_scaled-IsRounded n f pos =
    let d : ℕ = to_double n in
    let p : ℕ = to_double (d * f.num) in
    record {
      double = d;
      product = p;
      double_le = (to_double_bounds n).0;
      le_double = (to_double_bounds n).1;
      product_le = (to_double_bounds (d * f.num)).0;
      le_product = (to_double_bounds (d * f.num)).1;
      result_le = (half_even_bounds p f.den pos).0;
      le_result = (half_even_bounds p f.den pos).1;
    }

third : round_scaled 50 (record { num = 6034823500676465; den = 9007199254740992 }) ≡ 34
unfolding round_scaled
third = refl
