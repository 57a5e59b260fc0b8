-- ===== src/Trim/Check.antt =====
-- `TrimCheck` of feature_trim.py: whether a build's dropped positions held their values. A `Counter`
-- and the dict of held rows are association lists; `__init__` gives the latter the constants' keys,
-- so its lookups by them find a count.
use pyg_knowledge_graph_buil.Base.{
  ℕ, [], ◌∷◌, none, some, List, if◌then◌else◌, ◌+◌, leb, ◌==◌, ◌++◌,
}
use pyg_knowledge_graph_buil.Trim.{TrimSpec}
use pyg_knowledge_graph_buil.Base.Number.{Number}
use pyg_knowledge_graph_buil.Base.Int.{ℤ, pos, sub_ℕ}
use pyg_knowledge_graph_buil.Base.Result.{Result, ok, ◌>>=◌, raise}
use pyg_knowledge_graph_buil.Base.Dict.{lookup}

-- `counter[k] += n`
unfoldable pub bump : ℕ → ℕ → List (ℕ × ℕ) → List (ℕ × ℕ)
bump k n [] = (k, n) ∷ []
bump k n ((j, m) ∷ l) = if j == k then (j, n + m) ∷ l else (j, m) ∷ bump k n l

-- `Counter.update` with a mapping
unfoldable pub update : List (ℕ × ℕ) → List (ℕ × ℕ) → List (ℕ × ℕ)
unfolding bump
update counter [] = counter
update counter ((k, n) ∷ more) = update (bump k n counter) more

abbrev pub count_of : ℕ → List (ℕ × ℕ) → ℕ
count_of p [] = 0
count_of p ((j, n) ∷ l) = if j == p then n else count_of p l

-- what a dropped position should hold
pub data Expected {ℓ} (V : Type ℓ) : Type ℓ where
  holding : V → Expected V
  copying : ℕ → Expected V

pub record Violation {ℓ} (V : Type ℓ) : Type ℓ where
  pub position : ℕ
  pub expected : Expected V
  pub rows_affected : ℤ

pub data KeyError : Type 0 where
  missing_key : ℕ → KeyError

pub record Chunk : Type 0 where
  pub rows : ℕ
  pub held : List (ℕ × ℕ)
  pub zero_broken : List (ℕ × ℕ)
  pub copy_broken : List (ℕ × ℕ)

pub record TrimCheck {ℓ} (V : Type ℓ) : Type ℓ where
  pub spec : TrimSpec V
  pub rows : ℕ
  pub held : List (ℕ × ℕ)
  pub zero_broken : List (ℕ × ℕ)
  pub copy_broken : List (ℕ × ℕ)

unfoldable pub add_held : List (ℕ × ℕ) → List (ℕ × ℕ) → List (ℕ × ℕ)
add_held held [] = []
add_held held ((p, n) ∷ l) = (p, n + count_of p held) ∷ add_held held l

module _ {ℓ} {V : Type ℓ} ⦃num : Number V⦄ where
  abbrev pub none_held : List (ℕ × V) → List (ℕ × ℕ)
  none_held [] = []
  none_held ((p, _) ∷ l) = (p, 0) ∷ none_held l

  -- `TrimCheck(spec)`
  abbrev pub new_check : TrimSpec V → TrimCheck V
  new_check spec = record {
    spec = spec;
    rows = 0;
    held = none_held spec.constant;
    zero_broken = [];
    copy_broken = [];
  }

  -- `TrimCheck.add`
  unfoldable pub add : TrimCheck V → Chunk → TrimCheck V
  unfolding update add_held
  add c chunk = record c {
    rows = c.rows + chunk.rows;
    held = add_held chunk.held c.held;
    zero_broken = update c.zero_broken chunk.zero_broken;
    copy_broken = update c.copy_broken chunk.copy_broken;
  }

  unfoldable pub zeros_found : List (ℕ × ℕ) → List (Violation V)
  zeros_found [] = []
  zeros_found ((p, n) ∷ l) =
      let rest = zeros_found l in
      if n == 0
      then rest
      else record { position = p; expected = holding num.nil; rows_affected = pos n } ∷ rest

  unfoldable pub constants_found : ℕ → List (ℕ × ℕ) → List (ℕ × V) → List (Violation V)
  constants_found rows held [] = []
  constants_found rows held ((p, v) ∷ l) =
      let rest = constants_found rows held l in
      if rows == count_of p held
      then rest
      else record {
        position = p;
        expected = holding v;
        rows_affected = sub_ℕ rows (count_of p held);
      }
        ∷ rest

  unfoldable pub copies_found : TrimSpec V → List (ℕ × ℕ) → Result KeyError (List (Violation V))
  copies_found s [] = ok []
  copies_found s ((p, n) ∷ l) =
      let rest = copies_found s l in
      if n == 0 then rest else elim (lookup p s.copy_of) [
        | some t ↦ do
          others ← rest
          ok (record { position = p; expected = copying t; rows_affected = pos n } ∷ others)
        | none ↦ raise (missing_key p)
      ]

  unfoldable pub insert_violation : Violation V → List (Violation V) → List (Violation V)
  insert_violation v [] = v ∷ []
  insert_violation v (w ∷ ws) =
      if leb v.position w.position then v ∷ w ∷ ws else w ∷ insert_violation v ws

  -- `sorted(found, key=...)`
  unfoldable pub sort_violations : List (Violation V) → List (Violation V)
  unfolding insert_violation
  sort_violations [] = []
  sort_violations (v ∷ vs) = insert_violation v (sort_violations vs)

  -- `TrimCheck.violations`
  unfoldable pub violations : TrimCheck V → Result KeyError (List (Violation V))
  unfolding zeros_found constants_found copies_found sort_violations
  violations c = do
    broken ← copies_found c.spec c.copy_broken
    ok (
        sort_violations
          (zeros_found c.zero_broken ++ constants_found c.rows c.held c.spec.constant ++ broken))

  -- A build's check, one chunk of rows at a time.
  unfoldable pub add_all : TrimCheck V → List Chunk → TrimCheck V
  unfolding add
  add_all c [] = c
  add_all c (chunk ∷ chunks) = add_all (add c chunk) chunks
