-- ===== src/Collisions/Separable.antt =====
-- spark_jobs/pyg_builder/collision_report.py: the build is stopped where a class cannot be told apart.
use pyg_knowledge_graph_buil.Base.{
  ℕ, [], ◌∷◌, true, false, some, List, Bool, refl, arith, ◌≡◌, ◌<◌, ◌++◌, ap, ap₂, length, inl, inr,
  Bool-cases, sym, ◌∙◌, not, if◌then◌else◌, ltb, ◌↔◌, ◌&&◌, ◌==◌, not_ltb, ==_iff, eq→==,
}
use pyg_knowledge_graph_buil.Base.Texts.{Text}
use pyg_knowledge_graph_buil.Sources.{is_none}
use pyg_knowledge_graph_buil.Collisions.{
  Matrix, ClassSlot, codes_of, by_code, shared_names, sort_by_first, matrix_of, class_code_rank,
  ClassIdentity, class_identity, compute_collision_report, check_class_identity_capacity, fine,
  near, decide_on, problems_of, shared_problem, capacity_problem, CapacityProblem, exceeds,
}
use pyg_knowledge_graph_buil.Collisions.Shared.{
  IsRank, stops, rows-All, length-matrix_of, length-codes_of, repeated, repeated-Repeats,
  none_shared,
}

stops-near : (b : Bool) (total dim : ℕ) → stops (if b then near total dim else fine) ≡ false
stops-near true total dim = refl
stops-near false total dim = refl

stops-decide_on :
    (ci : ClassIdentity) (problems : List CapacityProblem)
    → stops (decide_on false ci problems) ≡ not (is_none problems)
stops-decide_on ci [] =
    stops-near (not (ci.segment_dim == 0) && exceeds ci.total_classes ci.segment_dim)
      ci.total_classes ci.segment_dim
stops-decide_on ci (problem ∷ problems) = refl

is_none-append {ℓ} : {A : Type ℓ} (xs ys : List A) → is_none (xs ++ ys) ≡ (is_none xs && is_none ys)
is_none-append [] ys = refl
is_none-append (x ∷ xs) ys = refl

stops-true :
    (ci : ClassIdentity) (problems : List CapacityProblem)
    → stops (decide_on true ci problems) ≡ false
stops-true ci [] =
    stops-near (not (ci.segment_dim == 0) && exceeds ci.total_classes ci.segment_dim)
      ci.total_classes ci.segment_dim
stops-true ci (problem ∷ problems) = refl

is_none-shared_problem : (names : List (List Text)) → is_none (shared_problem names) ≡ is_none names
is_none-shared_problem [] = refl
is_none-shared_problem (n ∷ names) = refl

-- With dims and a rank, there is no problem where no names are shared, the classes are not more than the
-- dims, and the codes are separable.
is_none-problems_of :
    (ci : ClassIdentity) (rank : ℕ)
    → (ci.segment_dim == 0) ≡ false
    → ci.code_matrix_rank ≡ some rank
    → is_none (problems_of ci) ≡ (
        is_none ci.classes_sharing_a_code
        && (not (ltb ci.segment_dim ci.total_classes) && ci.linearly_separable))
is_none-problems_of ci rank some_dims ranked =
    is_none-append (shared_problem ci.classes_sharing_a_code) (capacity_problem ci)
    ∙ ap₂ (λ a b. a && b) (is_none-shared_problem ci.classes_sharing_a_code) capacity
  where
    capacity :
        is_none (capacity_problem ci)
        ≡ (not (ltb ci.segment_dim ci.total_classes) && ci.linearly_separable)
    capacity = elim (Bool-cases (ltb ci.segment_dim ci.total_classes)) [
      | inl e ↦ rw (some_dims, e) refl
      | inr e ↦ elim (Bool-cases ci.linearly_separable) [
        | inl f ↦ rw (some_dims, e, ranked, f) refl
        | inr f ↦ rw (some_dims, e, ranked, f) refl
      ]
    ]

class_identity-Problems :
    (matrix_rank : Matrix → ℕ) (slot : ClassSlot) (slots : List ClassSlot) (dim : ℕ)
    → 0 < dim
    → is_none (problems_of (class_identity matrix_rank (slot ∷ slots) dim)) ≡ (
        is_none (sort_by_first (shared_names (by_code (slot ∷ slots) [])))
        && (not (ltb dim (length (slot ∷ slots)))
            && (matrix_rank (matrix_of dim (codes_of (slot ∷ slots))) == length (slot ∷ slots))))
unfolding class_identity class_code_rank
class_identity-Problems matrix_rank slot slots dim some_dims =
    let positive : (dim == 0) ≡ false = ground arith in
    is_none-problems_of (class_identity matrix_rank (slot ∷ slots) dim)
      (matrix_rank (matrix_of dim (codes_of (slot ∷ slots)))) positive (rw positive refl)
    ∙ rw positive refl

codes_apart :
    (matrix_rank : Matrix → ℕ) (slots : List ClassSlot) (dim : ℕ)
    → IsRank dim matrix_rank
    → matrix_rank (matrix_of dim (codes_of slots)) ≡ length slots
    → repeated (codes_of slots) ≡ false
codes_apart matrix_rank slots dim (_, below) full = elim (Bool-cases (repeated (codes_of slots))) [
  | inr e ↦ e
  | inl e ↦
      let less = below (matrix_of dim (codes_of slots)) (repeated-Repeats dim (codes_of slots) e) in
      absurd (omega (arith, length-matrix_of dim (codes_of slots), length-codes_of slots))
]

flipped : {b : Bool} → not b ≡ false → b ≡ true
flipped h = ground arith

all_three : (a b c : Bool) → (a && (b && c)) ≡ true → c ≡ true
all_three a b c h = ground arith

stopped :
    (matrix_rank : Matrix → ℕ) (slot : ClassSlot) (slots : List ClassSlot) (dim : ℕ)
    → 0 < dim
    → IsRank dim matrix_rank
    → (stops (
          decide_on false
            (class_identity matrix_rank (slot ∷ slots) dim)
            (problems_of (class_identity matrix_rank (slot ∷ slots) dim)))
        ≡ false)
      ↔ (matrix_rank (matrix_of dim (codes_of (slot ∷ slots))) ≡ length (slot ∷ slots))
stopped matrix_rank slot slots dim some_dims (at_most, below) =
    let ci = class_identity matrix_rank (slot ∷ slots) dim in
    let codes = codes_of (slot ∷ slots) in
    let verdict =
      stops-decide_on ci (problems_of ci)
      ∙ ap not (class_identity-Problems matrix_rank slot slots dim some_dims) in
    (
      λ quiet.
          (==_iff (matrix_rank (matrix_of dim codes)) (length (slot ∷ slots))).0
            (all_three _ _ _ (flipped (sym verdict ∙ quiet))),
      λ full.
          let within : ltb dim (length (slot ∷ slots)) ≡ false =
            not_ltb dim (length (slot ∷ slots))
              (omega (arith, at_most (matrix_of dim codes) (rows-All dim codes))) in
          verdict
          ∙ rw
              (
                none_shared (slot ∷ slots)
                    (codes_apart matrix_rank (slot ∷ slots) dim (at_most, below) full),
                within,
                full,
              )
              (ap not (eq→== refl)),
    )

-- With dims and classes, and a rank that is at most the width of the rows and below their number where
-- one is there twice: the check stops the build exactly where the rank of the class codes is not the
-- number of classes, and where over-subscription is allowed, it never does.
pub check_class_identity_capacity-Separable :
    (matrix_rank : Matrix → ℕ) (numeric namespaces : List ℕ) (slot : ClassSlot)
    (slots : List ClassSlot) (dim : ℕ)
    → 0 < dim
    → IsRank dim matrix_rank
    → ((stops (
            check_class_identity_capacity
              (compute_collision_report matrix_rank numeric (slot ∷ slots) namespaces dim)
              false)
          ≡ false)
        ↔ (matrix_rank (matrix_of dim (codes_of (slot ∷ slots))) ≡ length (slot ∷ slots)))
      × (stops (
            check_class_identity_capacity
              (compute_collision_report matrix_rank numeric (slot ∷ slots) namespaces dim)
              true)
          ≡ false)
unfolding check_class_identity_capacity compute_collision_report
check_class_identity_capacity-Separable matrix_rank numeric namespaces slot slots dim some_dims
      ranked =
    let ci = class_identity matrix_rank (slot ∷ slots) dim in
    (stopped matrix_rank slot slots dim some_dims ranked, stops-true ci (problems_of ci))
