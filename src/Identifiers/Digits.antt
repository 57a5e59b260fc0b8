-- ===== src/Identifiers/Digits.antt =====
-- spark_jobs/utils/sec_identifiers.py: digit texts, their numbers, and padding.
use native.Mathlib.Nat.{mul-le-mul_right}
use pyg_knowledge_graph_buil.Base.{
  ℕ, zero, suc, [], ◌∷◌, true, refl, All, arith, ◌≡◌, ◌≤◌, ◌<◌, ◌+◌, ◌*◌, ◌-◌, ◌++◌, ap, length,
  inl, inr, Bool-cases, ap₂, leb, leb→le, sym,
}
use pyg_knowledge_graph_buil.Base.Texts.{Text}
use pyg_knowledge_graph_buil.Identifiers.{
  is_digit, zero_digit, numeric, run_of, after_run, lpad, zeros, ends,
}

abbrev pub Digits : Text → Type 0
Digits text = All (λ c. is_digit c ≡ true) text

abbrev pub scale : Text → ℕ
scale [] = 1
scale (_ ∷ text) = 10 * scale text

-- The number that a digit text is.
abbrev pub value : Text → ℕ
value [] = 0
value (c ∷ text) = (c - zero_digit) * scale text + value text

run_of-Digits : (text : Text) → Digits (run_of is_digit text)
unfolding run_of
run_of-Digits [] = tt
run_of-Digits (c ∷ text) = elim (Bool-cases (is_digit c)) [
  | inl e ↦ rw e (e, run_of-Digits text)
  | inr e ↦ rw e tt
]

pub numeric-Digits : (text : Text) → Digits (numeric text)
unfolding numeric
numeric-Digits text = elim (Bool-cases (ends (after_run is_digit text))) [
  | inl e ↦ rw e (run_of-Digits text)
  | inr e ↦ rw e tt
]

run_of-all : (text : Text) → Digits text → run_of is_digit text ≡ text
unfolding run_of
run_of-all [] h = refl
run_of-all (c ∷ text) (d, h) = rw d (ap (λ t. c ∷ t) (run_of-all text h))

after_run-all : (text : Text) → Digits text → after_run is_digit text ≡ []
unfolding after_run
after_run-all [] h = refl
after_run-all (c ∷ text) (d, h) = rw d (after_run-all text h)

-- A digit text is what is captured of it.
pub numeric_all : (text : Text) → Digits text → numeric text ≡ text
unfolding numeric ends
numeric_all text h = rw (after_run-all text h) (run_of-all text h)

zeros-Digits : (n : ℕ) (text : Text) → Digits text → Digits (zeros n ++ text)
zeros-Digits zero text h = h
zeros-Digits (suc n) text h = (refl, zeros-Digits n text h)

length-zeros : (n : ℕ) (text : Text) → length (zeros n ++ text) ≡ n + length text
length-zeros zero text = omega arith
length-zeros (suc n) text = omega (arith, length-zeros n text)

value-zeros : (n : ℕ) (text : Text) → value (zeros n ++ text) ≡ value text
value-zeros zero text = refl
value-zeros (suc n) text = omega (arith, value-zeros n text)

pub lpad-zeros :
    (text : Text) (width : ℕ)
    → length text ≤ width
    → lpad text width ≡ zeros (width - length text) ++ text
unfolding lpad
lpad-zeros text width h = ground arith

pub lpad-Digits :
    (text : Text) (width : ℕ) → length text ≤ width → Digits text → Digits (lpad text width)
lpad-Digits text width h d =
    rw (lpad-zeros text width h) (zeros-Digits (width - length text) text d)

pub length-lpad : (text : Text) (width : ℕ) → length text ≤ width → length (lpad text width) ≡ width
length-lpad text width h =
    rw (lpad-zeros text width h) (omega (arith, length-zeros (width - length text) text))

pub value-lpad :
    (text : Text) (width : ℕ) → length text ≤ width → value (lpad text width) ≡ value text
value-lpad text width h = rw (lpad-zeros text width h) (value-zeros (width - length text) text)

-- A text of the width is not changed.
pub lpad_full : (text : Text) (width : ℕ) → length text ≡ width → lpad text width ≡ text
unfolding lpad
lpad_full text width h =
    let none_left : width - length text ≡ 0 = omega arith in
    let fits : length text ≤ width = omega arith in rw (lpad-zeros text width fits, none_left) refl

value-lt : (text : Text) → Digits text → value text < scale text
value-lt [] h = omega arith
value-lt (c ∷ text) (d, h) =
    let small : c - zero_digit ≤ 9 = ground arith in grind (arith, value-lt text h)

quotient_unique : (p a b x y : ℕ) → x < p → y < p → a * p + x ≡ b * p + y → b ≤ a
quotient_unique p a b x y hx hy e = elim (Bool-cases (leb b a)) [
  | inl h ↦ leb→le b a h
  | inr h ↦
      let above : suc a ≤ b = ground arith in
      let more : suc a * p ≤ b * p = mul-le-mul_right p above in absurd (grind arith)
]

scale-eq : (s t : Text) → length s ≡ length t → scale s ≡ scale t
scale-eq [] [] h = refl
scale-eq [] (c ∷ t) h = absurd (omega arith)
scale-eq (c ∷ s) [] h = absurd (omega arith)
scale-eq (c ∷ s) (d ∷ t) h = ap (λ n. 10 * n) (scale-eq s t (omega arith))

-- Two digit texts of one length that are the same number are the same.
pub value-injective :
    (s t : Text) → Digits s → Digits t → length s ≡ length t → value s ≡ value t → s ≡ t
value-injective [] [] ds dt h e = refl
value-injective [] (c ∷ t) ds dt h e = absurd (omega arith)
value-injective (c ∷ s) [] ds dt h e = absurd (omega arith)
value-injective (c ∷ s) (d ∷ t) (dc, ds) (dd, dt) h e =
    let lengths : length s ≡ length t = omega arith in
    let scales = scale-eq s t lengths in
    let e_here : (c - zero_digit) * scale t + value s ≡ (d - zero_digit) * scale t + value t =
      rw scales at e in
    let s_small : value s < scale t = rw scales at (value-lt s ds) in
    let t_small = value-lt t dt in
    let down =
      quotient_unique (scale t) (c - zero_digit) (d - zero_digit) (value s) (value t) s_small
        t_small e_here in
    let up =
      quotient_unique (scale t) (d - zero_digit) (c - zero_digit) (value t) (value s) t_small
        s_small (sym e_here) in
    let heads : c ≡ d = ground arith in
    let rests : value s ≡ value t = grind arith in
    ap₂ (λ x xs. x ∷ xs) heads (value-injective s t ds dt lengths rests)
