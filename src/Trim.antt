-- ===== src/Trim.antt =====
-- spark_jobs/pyg_builder/feature_trim.py: node types whose x stores only the positions that carry
-- information. A position is a natural number: a negative one, which `_problems` reports as outside,
-- has no counterpart. Dicts are association lists, whose keys a Python dict keeps apart.
pub mod Scatter
pub mod Writes
pub mod Valid
pub mod Cells
pub mod Rebuild
pub mod Sound
pub mod Check
pub mod Clean
pub mod Table
pub mod Nonzero
pub mod Places
pub mod Views
pub mod Seen
use Prim.Native.String.{String}
use pyg_knowledge_graph_buil.Base.{
  ℕ, zero, suc, [], ◌∷◌, true, false, none, some, inl, inr, refl, length, Bool, List, leb, Option,
  ◌++◌, if◌then◌else◌, ◌||◌, not,
}
use pyg_knowledge_graph_buil.Base.Dict.{
  index_of, member, sort_items, select, keys, sorted_set, range,
}
use pyg_knowledge_graph_buil.Base.Result.{Result, ok, raise}

-- One sentence of `_problems` each, with the positions that it lists.
pub data Problem : Type 0 where
  none_kept not_increasing : Problem
  outside twice unkept : List ℕ → Problem

-- Whether some position is not above the one before it.
unfoldable pub descends : List ℕ → Bool
descends [] = false
descends (a ∷ []) = false
descends (a ∷ b ∷ rest) = leb b a || descends (b ∷ rest)

unfoldable pub report : Bool → Problem → List Problem
report true problem = problem ∷ []
report false problem = []

abbrev pub is_nil {ℓ} : {A : Type ℓ} → List A → Bool
is_nil [] = true
is_nil (_ ∷ _) = false

abbrev pub values {ℓ} : {A : Type ℓ} → List (ℕ × A) → List A
values [] = []
values ((_, a) ∷ l) = a ∷ values l

pub record TrimSpec {ℓ} (V : Type ℓ) : Type ℓ where
  pub node_type : String
  pub vector_dim : ℕ
  pub kept : List ℕ
  pub constant : List (ℕ × V)
  pub copy_of : List (ℕ × ℕ)
  pub zero_positions : List ℕ

module _ {ℓ} {V : Type ℓ} where
  abbrev pub listed : List ℕ → List (ℕ × V) → List (ℕ × ℕ) → List ℕ
  listed kept constant copy_of = kept ++ keys constant ++ keys copy_of ++ values copy_of

  abbrev pub listed_twice : List ℕ → List (ℕ × V) → List (ℕ × ℕ) → List ℕ
  listed_twice kept constant copy_of =
      select (λ p. member p (keys constant)) kept
      ++ select (λ p. member p (keys copy_of)) kept
      ++ select (λ p. member p (keys copy_of)) (keys constant)

  -- `_problems`
  unfoldable pub problems : ℕ → List ℕ → List (ℕ × V) → List (ℕ × ℕ) → List Problem
  unfolding report descends
  problems vector_dim kept constant copy_of =
      let beyond = select (λ p. leb vector_dim p) (listed kept constant copy_of) in
      let doubled = listed_twice kept constant copy_of in
      let unstored = select (λ t. not (member t kept)) (values copy_of) in
      report (is_nil kept) none_kept
      ++ report (descends kept) not_increasing
      ++ report (not (is_nil beyond)) (outside (sorted_set beyond))
      ++ report (not (is_nil doubled)) (twice (sorted_set doubled))
      ++ report (not (is_nil unstored)) (unkept (sorted_set unstored))

-- `ValueError`, with what is wrong.
pub data TrimError : Type 0 where
  trim_problems : List Problem → TrimError

module _ {ℓ} {V : Type ℓ} where
  unfoldable pub make_spec : String → ℕ → List ℕ → List (ℕ × V) → List (ℕ × ℕ) → TrimSpec V
  make_spec node_type vector_dim kept constant copy_of = record {
    node_type = node_type;
    vector_dim = vector_dim;
    kept = kept;
    constant = sort_items constant;
    copy_of = sort_items copy_of;
    zero_positions =
        select (λ p. not (member p (kept ++ keys constant ++ keys copy_of))) (range vector_dim);
  }

  -- `TrimSpec(...)`
  unfoldable pub trim_spec :
      String → ℕ → List ℕ → List (ℕ × V) → List (ℕ × ℕ) → Result TrimError (TrimSpec V)
  trim_spec node_type vector_dim kept constant copy_of =
      let found = problems vector_dim kept constant copy_of in
      if is_nil found
      then ok (make_spec node_type vector_dim kept constant copy_of)
      else raise (trim_problems found)

  module _ (s : TrimSpec V) where
    -- The lookup arrays, where `none` stands for -1: a position's column in x, and a copy's place.
    unfoldable pub column_of : ℕ → Option ℕ
    unfolding index_of
    column_of p = index_of p s.kept

    unfoldable pub copy_index : ℕ → Option ℕ
    unfolding index_of
    copy_index p = index_of p (keys s.copy_of)

    unfoldable pub is_zero : ℕ → Bool
    is_zero p = member p s.zero_positions

    -- How many columns x has.
    unfoldable pub width : ℕ
    width = length s.kept
