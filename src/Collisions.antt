-- ===== src/Collisions.antt =====
-- spark_jobs/pyg_builder/collision_report.py: what collided in the slots, and when a build is stopped for
-- it. numpy's matrix_rank is an argument. The rates, rounded to four places, are left out, and so are
-- the texts of the messages.
pub mod Shared
pub mod Separable
use pyg_knowledge_graph_buil.Base.{
  ℕ, zero, suc, [], ◌∷◌, true, false, none, some, List, Bool, if◌then◌else◌, not, ◌&&◌, ◌||◌,
  Option, ◌++◌, length, ltb, ◌-◌, ◌*◌, ◌%◌, ◌==◌, map,
}
use pyg_knowledge_graph_buil.Base.Int.{ℤ, sub_ℕ}
use pyg_knowledge_graph_buil.Base.Texts.{Text, codes, text_lt}
use pyg_knowledge_graph_buil.Base.Dict.{member, select, sorted_set}
use pyg_knowledge_graph_buil.Sources.{is_none, sorted_sequence}
use pyg_knowledge_graph_buil.Turtle.Labels.{Groups, file_under}
use pyg_knowledge_graph_buil.Layout.Rounding.{Constant, to_double}

-- A slot of a property or a namespace is its global_dim; this is the slot of a class.
pub record ClassSlot : Type 0 where
  pub pyg_name : Option Text
  pub class_uri : Option Text
  pub global_dims : List ℕ

abbrev pub or_given : Option Text → Text → Text
or_given (some text) other = text
or_given none other = other

-- `slot.get("pyg_name") or slot.get("class_uri", "?")`
abbrev pub name_of_slot : ClassSlot → Text
name_of_slot slot =
    let name = or_given slot.pyg_name [] in
    if is_none name then or_given slot.class_uri (codes "?") else name

-- The counts of the numeric properties, or of the namespaces.
pub record Counts : Type 0 where
  pub total : ℕ
  pub unique_slots : ℕ
  pub collisions : ℕ

unfoldable pub counts : List ℕ → Option Counts
unfolding sorted_set
counts dims_used =
    let unique_dims = length (sorted_set dims_used) in
    if is_none dims_used
    then none
    else some (record {
      total = length dims_used;
      unique_slots = unique_dims;
      collisions = length dims_used - unique_dims;
    })

abbrev pub code_of : ClassSlot → List ℕ
code_of slot = sorted_set slot.global_dims

abbrev pub codes_of : List ClassSlot → List (List ℕ)
codes_of slots = map code_of slots

-- The loop that fills `by_code`, from what it holds on.
unfoldable pub by_code : List ClassSlot → Groups → Groups
unfolding file_under sorted_set
by_code [] groups = groups
by_code (slot ∷ slots) groups = by_code slots (file_under (code_of slot) (name_of_slot slot) groups)

-- The names of each code that has more than one, in order.
unfoldable pub shared_names : Groups → List (List Text)
unfolding sorted_sequence
shared_names [] = []
shared_names ((_, names) ∷ groups) =
    let rest = shared_names groups in
    if ltb 1 (length names) then sorted_sequence names ∷ rest else rest

abbrev pub first_of : List Text → Text
first_of [] = []
first_of (name ∷ names) = name

unfoldable pub insert_by_first : List Text → List (List Text) → List (List Text)
unfolding text_lt
insert_by_first names [] = names ∷ []
insert_by_first names (others ∷ rest) =
    let later = insert_by_first names rest in
    if text_lt (first_of others) (first_of names) then others ∷ later else names ∷ others ∷ rest

-- `sorted(..., key=lambda names: names[0])`
unfoldable pub sort_by_first : List (List Text) → List (List Text)
unfolding insert_by_first
sort_by_first [] = []
sort_by_first (names ∷ rest) = insert_by_first names (sort_by_first rest)

-- The greater of what was found and the overlaps of a code with those after it.
unfoldable pub overlaps : List ℕ → List (List ℕ) → ℕ → ℕ
overlaps code [] found = found
overlaps code (other ∷ codes) found =
    let overlap = length (select (λ slot. member slot other) code) in
    overlaps code codes (if ltb found overlap then overlap else found)

unfoldable pub max_overlap : List (List ℕ) → ℕ → ℕ
unfolding overlaps
max_overlap [] found = found
max_overlap (code ∷ codes) found = max_overlap codes (overlaps code codes found)

-- Rows of 0 and 1, each dim wide.
abbrev pub Matrix : Type 0
Matrix = List (List Bool)

-- A row that is 0 but at the slots of a code, modulo dim; `count` dims are left of it.
unfoldable pub row_from : ℕ → ℕ → ℕ → List ℕ → List Bool
row_from dim zero at code = []
row_from dim (suc count) at code =
    member at (map (λ slot. slot % dim) code) ∷ row_from dim count (suc at) code

abbrev pub matrix_of : ℕ → List (List ℕ) → Matrix
matrix_of dim codes = map (λ code. row_from dim dim 0 code) codes

-- `_class_code_rank`
unfoldable pub class_code_rank : (Matrix → ℕ) → List (List ℕ) → ℕ → Option ℕ
unfolding row_from
class_code_rank matrix_rank codes dim =
    if dim == 0 || is_none codes then none else some (matrix_rank (matrix_of dim codes))

pub record ClassIdentity : Type 0 where
  pub total_classes : ℕ
  pub segment_dim : ℕ
  pub total_hash_entries : ℕ
  pub unique_slots : ℕ
  pub slot_reuse : ℕ
  pub distinct_codes : ℕ
  pub classes_sharing_a_code : List (List Text)
  pub max_pairwise_slot_overlap : ℕ
  pub capacity_classes : ℕ
  pub headroom_classes : Option ℤ
  pub code_matrix_rank : Option ℕ
  pub rank_deficiency : Option ℤ
  pub linearly_separable : Bool

abbrev pub all_dims : List ClassSlot → List ℕ
all_dims [] = []
all_dims (slot ∷ slots) = slot.global_dims ++ all_dims slots

abbrev pub deficiency : ℕ → Option ℕ → Option ℤ
deficiency classes none = none
deficiency classes (some rank) = some (sub_ℕ classes rank)

abbrev pub is_rank : ℕ → Option ℕ → Bool
is_rank classes none = false
is_rank classes (some rank) = rank == classes

unfoldable pub class_identity : (Matrix → ℕ) → List ClassSlot → ℕ → ClassIdentity
unfolding sorted_set by_code shared_names sort_by_first max_overlap class_code_rank
class_identity matrix_rank slots dim =
    let dims = all_dims slots in
    let unique_dims = length (sorted_set dims) in
    let groups = by_code slots [] in
    let code_rank = class_code_rank matrix_rank (codes_of slots) dim in
    record {
      total_classes = length slots;
      segment_dim = dim;
      total_hash_entries = length dims;
      unique_slots = unique_dims;
      slot_reuse = length dims - unique_dims;
      distinct_codes = length groups;
      classes_sharing_a_code = sort_by_first (shared_names groups);
      max_pairwise_slot_overlap = max_overlap (codes_of slots) 0;
      capacity_classes = dim;
      headroom_classes = if dim == 0 then none else some (sub_ℕ dim (length slots));
      code_matrix_rank = code_rank;
      rank_deficiency = deficiency (length slots) code_rank;
      linearly_separable = not (dim == 0) && is_rank (length slots) code_rank;
    }

pub record Report : Type 0 where
  pub numeric_properties : Option Counts
  pub classes : Option ClassIdentity
  pub namespaces : Option Counts

-- `compute_collision_report`; it does not read the categorical and the hierarchy slots.
unfoldable pub compute_collision_report :
    (Matrix → ℕ) → List ℕ → List ClassSlot → List ℕ → ℕ → Report
unfolding counts class_identity
compute_collision_report matrix_rank numeric_slots class_slots namespace_slots dim = record {
  numeric_properties = counts numeric_slots;
  classes = if is_none class_slots then none else some (class_identity matrix_rank class_slots dim);
  namespaces = counts namespace_slots;
}

-- The sentences of the error: the groups that share a code; the classes and the dims; the classes, their
-- rank, what it lacks and the dims.
pub data CapacityProblem : Type 0 where
  sharing : List (List Text) → CapacityProblem
  over_subscribed : ℕ → ℕ → CapacityProblem
  dependent : ℕ → ℕ → Option ℤ → ℕ → CapacityProblem

-- What the check does: nothing, a warning that the segment is near capacity, a warning with the problems,
-- or a ClassIdentityCapacityError with them.
pub data Capacity : Type 0 where
  fine : Capacity
  near : ℕ → ℕ → Capacity
  warned_of : List CapacityProblem → Capacity
  refused_for : List CapacityProblem → Capacity

abbrev pub shared_problem : List (List Text) → List CapacityProblem
shared_problem [] = []
shared_problem (names ∷ rest) = sharing (names ∷ rest) ∷ []

abbrev pub rank_problem : ClassIdentity → Option ℕ → List CapacityProblem
rank_problem ci none = []
rank_problem ci (some rank) =
    if ci.linearly_separable
    then []
    else dependent ci.total_classes rank ci.rank_deficiency ci.segment_dim ∷ []

abbrev pub capacity_problem : ClassIdentity → List CapacityProblem
capacity_problem ci =
    if not (ci.segment_dim == 0) && ltb ci.segment_dim ci.total_classes
    then over_subscribed ci.total_classes ci.segment_dim ∷ []
    else rank_problem ci ci.code_matrix_rank

abbrev pub problems_of : ClassIdentity → List CapacityProblem
problems_of ci = shared_problem ci.classes_sharing_a_code ++ capacity_problem ci

-- The double 0.85
abbrev pub nearly : Constant
nearly = record { num = 7656119366529843; den = 9007199254740992 }

-- `total > 0.85 * dim`
abbrev pub exceeds : ℕ → ℕ → Bool
exceeds total dim = ltb (to_double (to_double dim * nearly.num)) (total * nearly.den)

abbrev pub unless_near : ClassIdentity → Capacity
unless_near ci =
    if not (ci.segment_dim == 0) && exceeds ci.total_classes ci.segment_dim
    then near ci.total_classes ci.segment_dim
    else fine

abbrev pub decide_on : Bool → ClassIdentity → List CapacityProblem → Capacity
decide_on allow ci [] = unless_near ci
decide_on true ci (problem ∷ problems) = warned_of (problem ∷ problems)
decide_on false ci (problem ∷ problems) = refused_for (problem ∷ problems)

abbrev pub check_report : Bool → Option ClassIdentity → Capacity
check_report allow none = fine
check_report allow (some ci) = decide_on allow ci (problems_of ci)

-- `check_class_identity_capacity`
unfoldable pub check_class_identity_capacity : Report → Bool → Capacity
check_class_identity_capacity report allow = check_report allow report.classes
