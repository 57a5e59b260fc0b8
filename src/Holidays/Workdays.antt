-- ===== src/Holidays/Workdays.antt =====
-- bin/federal_holidays.py: the days that offices close are workdays.
use pyg_knowledge_graph_buil.Base.{
  ℕ, ◌<◌, ◌≤◌, ◌-◌, arith, ◌+◌, ◌%◌, ◌*◌, ◌≡◌, List, All, Bool, [], ◌∷◌, false, inl, inr,
  Bool-cases, ◌==◌, ◌&&◌, ltb, not,
}
use pyg_knowledge_graph_buil.Holidays.{
  weekday, observed, add_floating, add_fixed, nth_weekday, put, Year, days_in_month, date, holidays,
  Holiday, floating, fixed,
}
use pyg_knowledge_graph_buil.Base.Int.{ℤ, negsuc, pos}

-- Moving on to the next wanted weekday, and then by weeks.
forward :
    (first wanted n : ℕ)
    → wanted < 7
    → 1 ≤ n
    → weekday (first + (wanted + (7 - weekday first)) % 7 + 7 * n - 7) ≡ wanted
unfolding weekday
forward first wanted n w h = omega arith

backward :
    (last wanted : ℕ)
    → wanted < 7
    → 7 ≤ last
    → weekday (last - (weekday last + (7 - wanted)) % 7) ≡ wanted
unfolding weekday
backward last wanted w h = omega arith

observed-workday : (day : ℕ) → 1 ≤ day → weekday (observed day) ≤ 4
unfolding observed weekday
observed-workday day h = ground arith

forward-bounds :
    (first wanted n : ℕ)
    → 1 ≤ n
    → let day = first + (wanted + (7 - weekday first)) % 7 + 7 * n - 7 in
      (first + 7 * n ≤ day + 7) × (day < first + 7 * n)
forward-bounds first wanted n h = omega arith

backward-bounds :
    (last wanted : ℕ)
    → 7 ≤ last
    → let day = last - (weekday last + (7 - wanted)) % 7 in (day ≤ last) × (last < day + 7)
backward-bounds last wanted h = omega arith

-- The day is that weekday; and it is in the nth seven days of the month, or in the last seven.
abbrev pub IsNth : ℕ → ℕ → ℕ → ℤ → ℕ → Type 0
IsNth year month wanted (negsuc _) day =
    let last = date year month (days_in_month year month) in
    (weekday day ≡ wanted) × (day ≤ last) × (last < day + 7)
IsNth year month wanted (pos n) day =
    let first = date year month 1 in
    (weekday day ≡ wanted) × (first + 7 * n ≤ day + 7) × (day < first + 7 * n)

-- A count of at least 1, or from the end.
abbrev pub Counts : ℤ → Type 0
Counts (negsuc _) = Unit
Counts (pos n) = 1 ≤ n

days_in_month-least : (year month : ℕ) → 28 ≤ days_in_month year month
unfolding days_in_month
days_in_month-least year month = ground arith

date-least : (year month day : ℕ) → day ≤ date year month day
unfolding date
date-least year month day = omega arith

-- nth_weekday is that weekday of the month: for a count from 1 on, in the seven days of the month that
-- follow the first 7 * (n - 1), and for a negative one in the last seven days.
pub nth_weekday-IsNth :
    (year month wanted : ℕ) (n : ℤ)
    → wanted < 7
    → Counts n
    → IsNth year month wanted n (nth_weekday year month wanted n)
unfolding nth_weekday
nth_weekday-IsNth year month wanted (negsuc _) w h =
    let last = date year month (days_in_month year month) in
    let long : 7 ≤ last =
      omega
        (arith, date-least year month (days_in_month year month), days_in_month-least year month) in
    let (below, above) = backward-bounds last wanted long in
    (backward last wanted w long, below, above)
nth_weekday-IsNth year month wanted (pos n) w h =
    let first = date year month 1 in
    let (below, above) = forward-bounds first wanted n h in
    (forward first wanted n w h, below, above)

abbrev pub Workdays : Year → Type 0
Workdays out = All (λ h. weekday h.0 ≤ 4) out

put-Workdays :
    (day : ℕ) (name : Holiday × Bool) (out : Year)
    → weekday day ≤ 4
    → Workdays out
    → Workdays (put day name out)
unfolding put
put-Workdays day name [] w h = (w, tt)
put-Workdays day name ((d, n) ∷ out) w (first, h) = elim (Bool-cases (d == day)) [
  | inl e ↦ rw e (w, h)
  | inr e ↦ rw e (first, put-Workdays day name out w h)
]

-- The days of a list of fixed dates are days of a month.
abbrev Dated : List (ℕ × ℕ × Holiday) → Type 0
Dated rest = All (λ f. 1 ≤ f.1) rest

add_fixed-Workdays :
    (year : ℕ) (rest : List (ℕ × ℕ × Holiday)) (out : Year)
    → Dated rest
    → Workdays out
    → Workdays (add_fixed year rest out)
unfolding add_fixed
add_fixed-Workdays year [] out d h = h
add_fixed-Workdays year ((month, day, name) ∷ rest) out (dated, d) h =
    let actual = date year month day in
    let closed = observed actual in
    let w = observed-workday actual (omega (arith, date-least year month day)) in
    elim (Bool-cases (month == 6 && ltb year 2021)) [
      | inl e ↦ rw e (add_fixed-Workdays year rest out d h)
      | inr e ↦ rw e (
          add_fixed-Workdays year rest (put closed (name, not (closed == actual)) out) d
            (put-Workdays closed (name, not (closed == actual)) out w h))
    ]

abbrev Weekly : List (ℕ × ℕ × ℤ × Holiday) → Type 0
Weekly rest = All (λ f. (f.1 ≤ 4) × Counts f.2) rest

nth-workday :
    (year month wanted : ℕ) (n : ℤ) (day : ℕ)
    → wanted ≤ 4
    → IsNth year month wanted n day
    → weekday day ≤ 4
nth-workday year month wanted (negsuc _) day w (is, _, _) = omega arith
nth-workday year month wanted (pos _) day w (is, _, _) = omega arith

add_floating-Workdays :
    (year : ℕ) (rest : List (ℕ × ℕ × ℤ × Holiday)) (out : Year)
    → Weekly rest
    → Workdays out
    → Workdays (add_floating year rest out)
unfolding add_floating
add_floating-Workdays year [] out d h = h
add_floating-Workdays year ((month, wanted, n, name) ∷ rest) out ((early, counts), d) h =
    let day = nth_weekday year month wanted n in
    let w =
      nth-workday year month wanted n day early
        (nth_weekday-IsNth year month wanted n (omega arith) counts) in
    add_floating-Workdays year rest (put day (name, false) out) d
      (put-Workdays day (name, false) out w h)

-- Every day among the holidays of a year is a day from Monday to Friday.
pub holidays-Workdays : (year : ℕ) → Workdays (holidays year)
unfolding holidays
holidays-Workdays year =
    add_floating-Workdays year floating (add_fixed year fixed []) (omega arith)
      (add_fixed-Workdays year fixed [] (omega arith) tt)
