-- ===== src/Collisions/Shared.antt =====
-- spark_jobs/pyg_builder/collision_report.py: codes that are apart, and their rows.
use mathlib.Core.Bool.{false≢true}
use pyg_knowledge_graph_buil.Base.{
  ℕ, zero, suc, [], ◌∷◌, true, false, List, Bool, refl, All, ◌≡◌, ◌≤◌, ◌<◌, ap, length, inl, inr,
  Bool-cases, sym, ◌∙◌, ◌⊎◌, ltb, ◌||◌,
}
use pyg_knowledge_graph_buil.Base.Texts.{Text, text_eq, text_eq_sym, text_eq_iff, among}
use pyg_knowledge_graph_buil.Turtle.Labels.{Groups, file_under}
use pyg_knowledge_graph_buil.Collisions.{
  Matrix, ClassSlot, code_of, codes_of, name_of_slot, by_code, shared_names, sort_by_first,
  row_from, matrix_of, Capacity, fine, near, warned_of, refused_for,
}

abbrev pub InRows : List Bool → Matrix → Type 0
InRows row [] = ⊥
InRows row (r ∷ rows) = (r ≡ row) ⊎ InRows row rows

-- Some row is there twice.
abbrev pub Repeats : Matrix → Type 0
Repeats [] = ⊥
Repeats (row ∷ rows) = InRows row rows ⊎ Repeats rows

-- What is asked of a rank: it is at most the width of the rows, and below their number where one is there
-- twice.
abbrev pub IsRank : ℕ → (Matrix → ℕ) → Type 0
IsRank dim rank =
    ((m : Matrix) → All (λ row. length row ≡ dim) m → rank m ≤ dim)
    × ((m : Matrix) → Repeats m → rank m < length m)

abbrev pub stops : Capacity → Bool
stops (refused_for _) = true
stops fine = false
stops (near _ _) = false
stops (warned_of _) = false

length-row_from : (dim count at : ℕ) (code : List ℕ) → length (row_from dim count at code) ≡ count
unfolding row_from
length-row_from dim zero at code = refl
length-row_from dim (suc count) at code = ap suc (length-row_from dim count (suc at) code)

pub rows-All : (dim : ℕ) (codes : List Text) → All (λ row. length row ≡ dim) (matrix_of dim codes)
rows-All dim [] = tt
rows-All dim (code ∷ codes) = (length-row_from dim dim 0 code, rows-All dim codes)

pub length-matrix_of : (dim : ℕ) (codes : List Text) → length (matrix_of dim codes) ≡ length codes
length-matrix_of dim [] = refl
length-matrix_of dim (code ∷ codes) = ap suc (length-matrix_of dim codes)

pub length-codes_of : (slots : List ClassSlot) → length (codes_of slots) ≡ length slots
length-codes_of [] = refl
length-codes_of (slot ∷ slots) = ap suc (length-codes_of slots)

abbrev pub repeated : List Text → Bool
repeated [] = false
repeated (code ∷ codes) = among code codes || repeated codes

among-InRows :
    (dim : ℕ) (code : Text) (codes : List Text)
    → among code codes ≡ true
    → InRows (row_from dim dim 0 code) (matrix_of dim codes)
unfolding among
among-InRows dim code [] h = absurd (false≢true h)
among-InRows dim code (c ∷ codes) h = elim (Bool-cases (text_eq c code)) [
  | inl e ↦ inl (ap (row_from dim dim 0) ((text_eq_iff c code).0 e))
  | inr e ↦ inr (among-InRows dim code codes (rw e at h))
]

pub repeated-Repeats :
    (dim : ℕ) (codes : List Text) → repeated codes ≡ true → Repeats (matrix_of dim codes)
repeated-Repeats dim [] h = absurd (false≢true h)
repeated-Repeats dim (code ∷ codes) h = elim (Bool-cases (among code codes)) [
  | inl e ↦ inl (among-InRows dim code codes e)
  | inr e ↦ inr (repeated-Repeats dim codes (rw e at h))
]

-- No group has the code.
abbrev Fresh : Text → Groups → Type 0
Fresh code groups = All (λ g. text_eq g.0 code ≡ false) groups

abbrev Single : Groups → Type 0
Single groups = All (λ g. ltb 1 (length g.1) ≡ false) groups

file_under-Fresh :
    (code other name : Text) (groups : Groups)
    → text_eq code other ≡ false
    → Fresh other groups
    → Fresh other (file_under code name groups)
unfolding file_under
file_under-Fresh code other name [] h k = (h, tt)
file_under-Fresh code other name ((s, names) ∷ groups) h (e, k) =
    elim (Bool-cases (text_eq s code)) [
      | inl f ↦ rw f (e, k)
      | inr f ↦ rw f (e, file_under-Fresh code other name groups h k)
    ]

file_under-Single :
    (code name : Text) (groups : Groups)
    → Fresh code groups
    → Single groups
    → Single (file_under code name groups)
unfolding file_under
file_under-Single code name [] h k = (refl, tt)
file_under-Single code name ((s, names) ∷ groups) (e, h) (one, k) =
    rw e (one, file_under-Single code name groups h k)

All-file_under :
    (code name : Text) (groups : Groups) (codes : List Text)
    → among code codes ≡ false
    → All (λ c. Fresh c groups) codes
    → All (λ c. Fresh c (file_under code name groups)) codes
unfolding among
All-file_under code name groups [] h k = tt
All-file_under code name groups (c ∷ codes) h (fresh, k) = elim (Bool-cases (text_eq c code)) [
  | inl e ↦ absurd (false≢true (sym (rw e at h)))
  | inr e ↦ (
    file_under-Fresh code c name groups (text_eq_sym code c ∙ e) fresh,
    All-file_under code name groups codes (rw e at h) k,
  )
]

-- Codes that are apart make groups of one.
by_code-Single :
    (slots : List ClassSlot) (groups : Groups)
    → repeated (codes_of slots) ≡ false
    → All (λ c. Fresh c groups) (codes_of slots)
    → Single groups
    → Single (by_code slots groups)
unfolding by_code
by_code-Single [] groups h fresh one = one
by_code-Single (slot ∷ slots) groups h (f, fresh) one =
    elim (Bool-cases (among (code_of slot) (codes_of slots))) [
      | inl e ↦ absurd (false≢true (sym (rw e at h)))
      | inr e ↦
          by_code-Single slots (file_under (code_of slot) (name_of_slot slot) groups) (rw e at h)
            (All-file_under (code_of slot) (name_of_slot slot) groups (codes_of slots) e fresh)
            (file_under-Single (code_of slot) (name_of_slot slot) groups f one)
    ]

shared_names-Single : (groups : Groups) → Single groups → shared_names groups ≡ []
unfolding shared_names
shared_names-Single [] h = refl
shared_names-Single ((s, names) ∷ groups) (e, h) = rw e (shared_names-Single groups h)

no_groups : (codes : List Text) → All (λ c. Fresh c []) codes
no_groups [] = tt
no_groups (c ∷ codes) = (tt, no_groups codes)

-- Where no code is there twice, no names are shared.
pub none_shared :
    (slots : List ClassSlot)
    → repeated (codes_of slots) ≡ false
    → sort_by_first (shared_names (by_code slots [])) ≡ []
unfolding sort_by_first
none_shared slots h =
    rw
      (shared_names-Single (by_code slots [])
        (by_code-Single slots [] h (no_groups (codes_of slots)) tt))
      refl
