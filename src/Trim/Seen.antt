-- ===== src/Trim/Seen.antt =====
-- spark_jobs/pyg_builder/feature_trim.py: what any_nonzero_from finds is in the full vectors.
use pyg_knowledge_graph_buil.Base.{ℕ, true, false, List, ◌≡◌, ltb, if◌then◌else◌, ◌↔◌, subst}
use pyg_knowledge_graph_buil.Trim.{descends, TrimSpec, String, make_spec, trim_spec}
use pyg_knowledge_graph_buil.Trim.Nonzero.{any_nonzero_from}
use pyg_knowledge_graph_buil.Base.Number.{Number}
use pyg_knowledge_graph_buil.Trim.Scatter.{Tensor}
use pyg_knowledge_graph_buil.Trim.Valid.{places, NoProblem, places-make_spec, trim_spec-inv}
use pyg_knowledge_graph_buil.Trim.Rebuild.{IsComplete}
use pyg_knowledge_graph_buil.Base.Result.{ok}
use pyg_knowledge_graph_buil.Trim.Sound.{make_spec-IsComplete}
use pyg_knowledge_graph_buil.Trim.Views.{FoundByKey, Nonzero, some_seen, all_seen}

made_rises :
    {V : Type 0} (node_type : String) (n : ℕ) (kept : List ℕ) (constant : List (ℕ × V))
    (copy_of : List (ℕ × ℕ))
    → NoProblem n kept constant copy_of
    → descends (make_spec node_type n kept constant copy_of).kept ≡ false
unfolding make_spec
made_rises node_type n kept constant copy_of good = good.increasing

made_once :
    {V : Type 0} (node_type : String) (n : ℕ) (kept : List ℕ) (constant : List (ℕ × V))
    (copy_of : List (ℕ × ℕ))
    → NoProblem n kept constant copy_of
    → (p : ℕ)
    → places (make_spec node_type n kept constant copy_of) p
      ≡ (if ltb p (make_spec node_type n kept constant copy_of).vector_dim then 1 else 0)
unfolding make_spec
made_once node_type n kept constant copy_of good p =
    places-make_spec node_type n kept constant copy_of p good

-- For a spec that TrimSpec accepts, whose dicts hold each key once, any_nonzero_from tells of a trimmed x
-- exactly whether one of the full vectors that rebuild from its rows has a nonzero value at a position from
-- `start` on.
pub any_nonzero_from-Nonzero :
    {V : Type 0} ⦃num : Number V⦄ (node_type : String) (n : ℕ) (kept : List ℕ)
    (constant : List (ℕ × V)) (copy_of : List (ℕ × ℕ)) (s : TrimSpec V) (x : Tensor V)
    (rows start : ℕ)
    → trim_spec node_type n kept constant copy_of ≡ ok s
    → FoundByKey s.constant
    → FoundByKey s.copy_of
    → (any_nonzero_from s x rows start ≡ true) ↔ Nonzero s x rows start
any_nonzero_from-Nonzero node_type n kept constant copy_of s x rows start accepted constants
      copies =
    let (good, made) = trim_spec-inv node_type n kept constant copy_of s accepted in
    let complete =
      subst IsComplete made (make_spec-IsComplete node_type n kept constant copy_of good) in
    let rises =
      subst (λ s. descends s.kept ≡ false) made
        (made_rises node_type n kept constant copy_of good) in
    let once =
      subst (λ s. (p : ℕ) → places s p ≡ (if ltb p s.vector_dim then 1 else 0)) made
        (made_once node_type n kept constant copy_of good) in
    (
      some_seen s x rows start rises once complete.twins constants copies,
      all_seen s x rows start rises once complete.twins,
    )
