-- ===== src/Turtle/Groups.antt =====
-- spark_jobs/graph/turtle.py: groups of rows, and what the batches are of them.
use mathlib.Core.List
use pyg_knowledge_graph_buil.Base.{
  ℕ, suc, [], ◌∷◌, true, false, none, some, List, Bool, ◌&&◌, refl, All, arith, ◌≡◌, ◌<◌, ◌++◌, ap,
  length, leb, sym, ◌∙◌, not, if◌then◌else◌, map, Option,
}
use pyg_knowledge_graph_buil.Base.Texts.{Text}
use pyg_knowledge_graph_buil.Turtle.Rows.{Outside, TurtleRow, turtle_rows_or_skip}
use pyg_knowledge_graph_buil.Turtle.Batches.{Columns, Yielded, append_row}

-- The batch of some rows.
abbrev pub as_batch : List TurtleRow → Columns
as_batch rows = record {
  subject = map (λ row. row.subject) rows;
  predicate = map (λ row. row.predicate) rows;
  object = map (λ row. row.object) rows;
  object_datatype = map (λ row. row.object_datatype) rows;
}

abbrev pub joined : List (List TurtleRow) → List TurtleRow
joined [] = []
joined (group ∷ groups) = group ++ joined groups

-- The most rows that a batch may have.
abbrev pub bound : ℕ → ℕ
bound max_rows = if leb max_rows 1 then 1 else max_rows

abbrev rows_then : Option (List TurtleRow) → List TurtleRow → List TurtleRow
rows_then none more = []
rows_then (some rows) more = rows ++ more

abbrev is_failed : Option (List TurtleRow) → Bool
is_failed none = true
is_failed (some _) = false

-- The rows of the blobs before the first ImportError.
abbrev pub rows_before : Outside → List (Option Text) → List TurtleRow
rows_before outside [] = []
rows_before outside (blob ∷ blobs) =
    rows_then (turtle_rows_or_skip outside blob) (rows_before outside blobs)

abbrev pub none_fails : Outside → List (Option Text) → Bool
none_fails outside [] = true
none_fails outside (blob ∷ blobs) =
    not (is_failed (turtle_rows_or_skip outside blob)) && none_fails outside blobs

-- What is left in the columns makes a last batch where the generator ends, if it is anything.
abbrev pub last_group : Bool → List TurtleRow → List (List TurtleRow)
last_group ended [] = []
last_group true (row ∷ rest) = (row ∷ rest) ∷ []
last_group false (row ∷ rest) = []

abbrev pub Batched : ℕ → List TurtleRow → Bool → Yielded → Type 0
Batched max_rows rows ends y =
    (groups : List (List TurtleRow)) × (rest : List TurtleRow) × (joined groups ++ rest ≡ rows)
    × All (λ group. length group ≡ bound max_rows) groups
    × (length rest < bound max_rows)
    × (y.ended ≡ ends)
    × (y.batches ≡ map as_batch (groups ++ last_group ends rest))

pub map-append {ℓ κ} :
    {A : Type ℓ} {B : Type κ} (f : A → B) (xs ys : List A) → map f (xs ++ ys) ≡ map f xs ++ map f ys
map-append f [] ys = refl
map-append f (x ∷ xs) ys = ap (λ t. f x ∷ t) (map-append f xs ys)

pub length-map {ℓ κ} :
    {A : Type ℓ} {B : Type κ} (f : A → B) (xs : List A) → length (map f xs) ≡ length xs
length-map f [] = refl
length-map f (x ∷ xs) = ap suc (length-map f xs)

pub joined-append : (gs hs : List (List TurtleRow)) → joined (gs ++ hs) ≡ joined gs ++ joined hs
joined-append [] hs = refl
joined-append (g ∷ gs) hs =
    ap (λ t. g ++ t) (joined-append gs hs) ∙ sym (List.append_assoc g (joined gs) (joined hs))

abbrev pub Full : ℕ → List (List TurtleRow) → Type 0
Full max_rows groups = All (λ group. length group ≡ bound max_rows) groups

pub Full-append :
    (max_rows : ℕ) (groups : List (List TurtleRow)) (group : List TurtleRow)
    → Full max_rows groups
    → length group ≡ bound max_rows
    → Full max_rows (groups ++ (group ∷ []))
Full-append max_rows [] group h p = (p, tt)
Full-append max_rows (g ∷ groups) group (q, h) p = (q, Full-append max_rows groups group h p)

pub bound_pos : (n : ℕ) → 0 < bound n
bound_pos n = ground arith

pub reaches : (n m : ℕ) → m < bound n → leb n (suc m) ≡ true → suc m ≡ bound n
reaches n m h e = ground arith

pub stays_below : (n m : ℕ) → m < bound n → leb n (suc m) ≡ false → suc m < bound n
stays_below n m h e = ground arith

pub append_row-as_batch :
    (rows : List TurtleRow) (row : TurtleRow)
    → append_row (as_batch rows) row ≡ as_batch (rows ++ (row ∷ []))
append_row-as_batch [] row = refl
append_row-as_batch (r ∷ rows) row =
    ap
      (λ c. record {
        subject = r.subject ∷ c.subject;
        predicate = r.predicate ∷ c.predicate;
        object = r.object ∷ c.object;
        object_datatype = r.object_datatype ∷ c.object_datatype;
      })
      (append_row-as_batch rows row)
