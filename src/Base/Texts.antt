-- ===== src/Base/Texts.antt =====
-- Texts as lists of code points, and Python's operations on them.
use Prim.Native.Char.{code}
use Prim.Native.String.{String}
use pyg_knowledge_graph_buil.Base.{
  length, ℕ, zero, suc, [], ◌∷◌, true, false, refl, List, Bool, ◌==◌, ltb, if◌then◌else◌, ◌||◌, ◌≡◌,
  ◌&&◌, ◌↔◌, arith, ◌++◌, &&_iff, ap₂, sym, ==_iff, &&-intro, ◌⊎◌, inl, inr,
}
use mathlib.Core.List

abbrev pub Text : Type 0
Text = List ℕ

-- The code points of a literal.
abbrev pub codes : String → Text
codes String.[] = []
codes (String.◌∷◌ c literal) = code c ∷ codes literal

unfoldable pub text_eq : Text → Text → Bool
text_eq [] [] = true
text_eq [] (_ ∷ _) = false
text_eq (_ ∷ _) [] = false
text_eq (a ∷ s) (b ∷ t) = a == b && text_eq s t

-- `s < t`, by code points.
unfoldable pub text_lt : Text → Text → Bool
text_lt _ [] = false
text_lt [] (_ ∷ _) = true
text_lt (a ∷ s) (b ∷ t) = ltb a b || (a == b && text_lt s t)

-- `text.startswith(start)`
unfoldable pub starts_with : Text → Text → Bool
starts_with [] text = true
starts_with (_ ∷ _) [] = false
starts_with (a ∷ start) (b ∷ text) = a == b && starts_with start text

-- `part in text`
unfoldable pub contains : Text → Text → Bool
unfolding starts_with
contains part [] = starts_with part []
contains part (a ∷ text) = starts_with part (a ∷ text) || contains part text

-- `text.replace(old, new)`, for one character each.
abbrev pub replace : ℕ → ℕ → Text → Text
replace old new [] = []
replace old new (a ∷ text) = (if a == old then new else a) ∷ replace old new text

abbrev pub into_first : ℕ → List Text → List Text
into_first a [] = (a ∷ []) ∷ []
into_first a (part ∷ parts) = (a ∷ part) ∷ parts

-- `text.split(separator)`
unfoldable pub split : ℕ → Text → List Text
split separator [] = [] ∷ []
split separator (a ∷ text) =
    let parts = split separator text in if a == separator then [] ∷ parts else into_first a parts

-- `text.split(separator, 1)[0]`
unfoldable pub up_to : ℕ → Text → Text
up_to separator [] = []
up_to separator (a ∷ text) = if a == separator then [] else a ∷ up_to separator text

-- `text[count:]`
abbrev pub drop {ℓ} : {A : Type ℓ} → ℕ → List A → List A
drop zero text = text
drop (suc count) [] = []
drop (suc count) (_ ∷ text) = drop count text

-- `text in texts`
unfoldable pub among : Text → List Text → Bool
unfolding text_eq
among text [] = false
among text (t ∷ texts) = text_eq t text || among text texts

pub text_eq_iff : (s t : Text) → (text_eq s t ≡ true) ↔ (s ≡ t)
unfolding text_eq
text_eq_iff [] [] = (λ h. refl, λ h. refl)
text_eq_iff [] (b ∷ t) = (λ h. cc, λ h. cc)
text_eq_iff (a ∷ s) [] = (λ h. cc, λ h. cc)
text_eq_iff (a ∷ s) (b ∷ t) = grind (arith, text_eq_iff s t)

pub text_eq_refl : (s : Text) → text_eq s s ≡ true
text_eq_refl s = (text_eq_iff s s).1 refl

pub starts_with_iff : (s t : Text) → (starts_with s t ≡ true) ↔ ((rest : Text) × (t ≡ s ++ rest))
unfolding starts_with
starts_with_iff [] t = (λ h. (t, refl), λ h. refl)
starts_with_iff (a ∷ s) [] = (λ h. cc, λ (r, e). cc)
starts_with_iff (a ∷ s) (b ∷ t) = (
  λ h.
      let (same, starts) = (&&_iff (a == b) (starts_with s t)).0 h in
      let (rest, e) = (starts_with_iff s t).0 starts in
      (rest, ap₂ (λ c u. c ∷ u) (sym ((==_iff a b).0 same)) e),
  λ (rest, e).
      &&-intro ((==_iff a b).1 (sym (List.head-eq_of_cons-eq e)))
        ((starts_with_iff s t).1 (rest, List.tail-eq_of_cons-eq e)),
)

pub text_lt_irreflexive : (s : Text) → text_lt s s ≡ false
unfolding text_lt
text_lt_irreflexive [] = refl
text_lt_irreflexive (a ∷ s) = ground (arith, text_lt_irreflexive s)

pub text_lt_total : (s t : Text) → text_lt s t ≡ false → text_eq s t ≡ false → text_lt t s ≡ true
unfolding text_lt text_eq
text_lt_total [] [] h k = cc
text_lt_total [] (b ∷ t) h k = cc
text_lt_total (a ∷ s) [] h k = refl
text_lt_total (a ∷ s) (b ∷ t) h k = ground (arith, text_lt_total s t)

pub text_lt_trans : (s t u : Text) → text_lt s t ≡ true → text_lt t u ≡ true → text_lt s u ≡ true
unfolding text_lt
text_lt_trans [] [] u h k = cc
text_lt_trans (a ∷ s) [] u h k = cc
text_lt_trans [] (b ∷ t) [] h k = cc
text_lt_trans (a ∷ s) (b ∷ t) [] h k = cc
text_lt_trans [] (b ∷ t) (c ∷ u) h k = refl
text_lt_trans (a ∷ s) (b ∷ t) (c ∷ u) h k = ground (arith, text_lt_trans s t u)

pub among-append :
    (name : Text) (xs ys : List Text) → among name (xs ++ ys) ≡ (among name xs || among name ys)
unfolding among
among-append name [] ys = refl
among-append name (x ∷ xs) ys = ground (arith, among-append name xs ys)

pub text_eq_sym : (s t : Text) → text_eq s t ≡ text_eq t s
unfolding text_eq
text_eq_sym [] [] = refl
text_eq_sym [] (b ∷ t) = refl
text_eq_sym (a ∷ s) [] = refl
text_eq_sym (a ∷ s) (b ∷ t) = ground (arith, text_eq_sym s t)

-- Of two texts that start a third, one starts the other.
pub starts_with_either :
    (a b text : Text)
    → starts_with a text ≡ true
    → starts_with b text ≡ true
    → (starts_with a b ≡ true) ⊎ (starts_with b a ≡ true)
unfolding starts_with
starts_with_either [] b text h k = inl refl
starts_with_either (x ∷ a) [] text h k = inr refl
starts_with_either (x ∷ a) (y ∷ b) [] h k = cc
starts_with_either (x ∷ a) (y ∷ b) (z ∷ text) h k = ground (arith, starts_with_either a b text)

pub starts_with-append : (start rest : Text) → starts_with start (start ++ rest) ≡ true
starts_with-append start rest = (starts_with_iff start (start ++ rest)).1 (rest, refl)

pub drop-append : (start rest : Text) → drop (length start) (start ++ rest) ≡ rest
drop-append [] rest = refl
drop-append (x ∷ start) rest = drop-append start rest
