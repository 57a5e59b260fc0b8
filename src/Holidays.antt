-- ===== src/Holidays.antt =====
-- bin/federal_holidays.py: the federal holidays of a year. A date is its ordinal, as date.toordinal
-- counts from January 1 of year 1; years are from 1 to 9999 and months from 1 to 12, and the errors of
-- datetime.date for others are not modelled. The texts of the names are left out: a holiday is one of
-- eleven, with whether it is an observed day. The dict of a year keeps its keys apart.
pub mod Workdays
use pyg_knowledge_graph_buil.Base.{
  ℕ, zero, suc, [], ◌∷◌, true, false, none, some, inl, inr, refl, List, Bool, if◌then◌else◌, not,
  ◌&&◌, Option, ◌==◌, ◌+◌, ◌||◌, ◌-◌, ◌%◌, ltb, ◌*◌, ◌/◌,
}
use pyg_knowledge_graph_buil.Base.Int.{ℤ, pos, negsuc}
use pyg_knowledge_graph_buil.Base.Dict.{lookup}

pub data Holiday : Type 0 where
  new_year juneteenth independence veterans christmas king washington memorial labor columbus
        thanksgiving :
      Holiday

-- `date.weekday` of an ordinal: Monday is 0.
unfoldable pub weekday : ℕ → ℕ
weekday day = (day + 6) % 7

unfoldable pub is_leap : ℕ → Bool
is_leap year = year % 4 == 0 && (not (year % 100 == 0) || year % 400 == 0)

-- `calendar.monthrange(year, month)[1]`
unfoldable pub days_in_month : ℕ → ℕ → ℕ
unfolding is_leap
days_in_month year month =
    if month == 2
    then (if is_leap year then 29 else 28)
    else if month == 4 || month == 6 || month == 9 || month == 11
    then 30
    else 31

-- The days of the months before one, counted down.
unfoldable pub days_before_month : ℕ → ℕ → ℕ
unfolding days_in_month
days_before_month year zero = 0
days_before_month year (suc month) =
    (if month == 0 then 0 else days_in_month year month) + days_before_month year month

-- The ordinal of a date.
unfoldable pub date : ℕ → ℕ → ℕ → ℕ
unfolding days_before_month
date year month day =
    let past = year - 1 in
    past * 365 + past / 4 - past / 100 + past / 400 + days_before_month year month + day

-- `nth_weekday`
unfoldable pub nth_weekday : ℕ → ℕ → ℕ → ℤ → ℕ
unfolding weekday date days_in_month
nth_weekday year month wanted (negsuc _) =
    let last : ℕ = date year month (days_in_month year month) in
    last - (weekday last + (7 - wanted)) % 7
nth_weekday year month wanted (pos n) =
    let first : ℕ = date year month 1 in first + (wanted + (7 - weekday first)) % 7 + 7 * n - 7

-- `observed`
unfoldable pub observed : ℕ → ℕ
unfolding weekday
observed day = if weekday day == 5 then day - 1 else if weekday day == 6 then day + 1 else day

abbrev pub Year : Type 0
Year = List (ℕ × (Holiday × Bool))

-- `out[day] = name`
unfoldable pub put : ℕ → Holiday × Bool → Year → Year
put day name [] = (day, name) ∷ []
put day name ((d, n) ∷ out) = if d == day then (day, name) ∷ out else (d, n) ∷ put day name out

-- `FIXED`
abbrev pub fixed : List (ℕ × ℕ × Holiday)
fixed =
    (1, 1, new_year)
    ∷ (6, 19, juneteenth)
    ∷ (7, 4, independence)
    ∷ (11, 11, veterans)
    ∷ (12, 25, christmas)
    ∷ []

-- `FLOATING`, with weekdays from Monday, 0
abbrev pub floating : List (ℕ × ℕ × ℤ × Holiday)
floating =
    (1, 0, pos 3, king)
    ∷ (2, 0, pos 3, washington)
    ∷ (5, 0, negsuc 0, memorial)
    ∷ (9, 0, pos 1, labor)
    ∷ (10, 0, pos 2, columbus)
    ∷ (11, 3, pos 4, thanksgiving)
    ∷ []

unfoldable pub add_fixed : ℕ → List (ℕ × ℕ × Holiday) → Year → Year
unfolding observed put date
add_fixed year [] out = out
add_fixed year ((month, day, name) ∷ rest) out =
    let actual : ℕ = date year month day in
    let closed : ℕ = observed actual in
    let skipped = add_fixed year rest out in
    let added = add_fixed year rest (put closed (name, not (closed == actual)) out) in
    if month == 6 && ltb year 2021 then skipped else added

unfoldable pub add_floating : ℕ → List (ℕ × ℕ × ℤ × Holiday) → Year → Year
unfolding nth_weekday put
add_floating year [] out = out
add_floating year ((month, wanted, n, name) ∷ rest) out =
    add_floating year rest (put (nth_weekday year month wanted n) (name, false) out)

-- `holidays`
unfoldable pub holidays : ℕ → Year
unfolding add_fixed add_floating
holidays year = add_floating year floating (add_fixed year fixed [])

-- `holiday` of a day of a year
unfoldable pub holiday : ℕ → ℕ → Option (Holiday × Bool)
unfolding holidays lookup
holiday year day = elim (lookup day (holidays year)) [
  | some name ↦ some name
  | none ↦ lookup day (holidays (year + 1))
]
