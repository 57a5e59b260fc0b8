-- ===== src/Edges/Chunks.antt =====
-- spark_jobs/pyg_builder/edge_mapper.py: the chunks of edge types hold every type once, and few rows.
use pyg_knowledge_graph_buil.Base.{
  ℕ, zero, suc, [], ◌∷◌, true, List, refl, arith, ◌≡◌, ap₂, inl, inr, Bool-cases, ◌⊎◌, sym, subst,
  ltb, map, ◌≤◌, ◌+◌, ◌-◌, ltb-false→le, leb, length, get_elem?, any, ◌∙◌, ap, some,
}
use pyg_knowledge_graph_buil.Base.Dict.{range_from, select}
use pyg_knowledge_graph_buil.Edges.Build.{chunks_from, in_chunk, group_of}
use pyg_knowledge_graph_buil.Edges.{EdgeType, IdRow, pair_le}
use pyg_knowledge_graph_buil.Edges.Ids.{pairs}
use pyg_knowledge_graph_buil.Edges.Sorted.{insert_ends, sort_ends}
use pyg_knowledge_graph_buil.Edges.Collect.{holds_id}

-- The chunks follow one another from an id up to another, each with an id or more; and each is of at most as
-- many rows as the budget, or of one id.
abbrev pub Packs : ((ℕ × ℕ) → ℕ) → ℕ → ℕ → ℕ → List (ℕ × ℕ) → Type 0
Packs size budget from end [] = from ≡ end
Packs size budget from end ((lo, hi) ∷ chunks) =
    (lo ≡ from)
    × (lo ≤ hi)
    × ((size (lo, hi) ≤ budget) ⊎ (lo ≡ hi))
    × Packs size budget (suc hi) end chunks

-- The sum of a number of values, from one on.
abbrev sum_from : (ℕ → ℕ) → ℕ → ℕ → ℕ
sum_from f lo zero = 0
sum_from f lo (suc count) = sum_from f lo count + f (lo + count)

module _ (size : (ℕ × ℕ) → ℕ) (f : ℕ → ℕ)
    (law : (lo count : ℕ) → size (lo, lo + count) ≡ sum_from f lo (suc count)) (budget : ℕ) where
  within :
      (lo k t rows : ℕ)
      → t ≡ suc (lo + k)
      → rows ≡ sum_from f lo (suc k)
      → (rows ≤ budget) ⊎ (k ≡ 0)
      → (size (lo, t - 1) ≤ budget) ⊎ (lo ≡ t - 1)
  within lo k t rows at_t e (inr z) = inr (omega arith)
  within lo k t rows at_t e (inl le) =
      let last : lo + k ≡ t - 1 = omega arith in
      inl (subst (λ hi. size (lo, hi) ≤ budget) last (omega (arith, law lo k)))

  Packs-move :
      (from from' end end' : ℕ) (chunks : List (ℕ × ℕ))
      → from ≡ from'
      → end ≡ end'
      → Packs size budget from end chunks
      → Packs size budget from' end' chunks
  Packs-move from from' end end' chunks p q h =
      subst (λ n. Packs size budget n end' chunks) p
        (subst (λ n. Packs size budget from n chunks) q h)

  after_last :
      (lo k t : ℕ) → t ≡ suc (lo + k) → (ltb lo t ≡ true) × (lo ≤ t - 1) × (suc (t - 1) ≡ t)
  after_last lo k t at_t = (ground arith, omega arith, omega arith)

  chunks_from-Packs :
      (lo k t rows left : ℕ)
      → t ≡ suc (lo + k)
      → rows ≡ sum_from f lo (suc k)
      → (rows ≤ budget) ⊎ (k ≡ 0)
      → Packs size budget lo (t + left) (chunks_from budget t lo rows (map f (range_from t left)))
  unfolding chunks_from
  chunks_from-Packs lo k t rows zero at_t e le =
      (refl, omega arith, within lo k t rows at_t e le, omega arith)
  chunks_from-Packs lo k t rows (suc left) at_t e le =
      let (lt, last, next) = after_last lo k t at_t in
      let end : suc t + left ≡ t + suc left = omega arith in
      elim (Bool-cases (ltb budget (rows + f t))) [
        | inl over ↦
            let later = chunks_from budget (suc t) t (0 + f t) (map f (range_from (suc t) left)) in
            let one : t + 0 ≡ t = omega arith in
            let rest =
              chunks_from-Packs t 0 (suc t) (0 + f t) left (omega arith) (rw one refl) (inr refl) in
            rw (lt, over)
              (
                refl,
                last,
                within lo k t rows at_t e le,
                Packs-move t (suc (t - 1)) (suc t + left) (t + suc left) later (sym next) end rest,
              )
        | inr fits ↦
            let later =
              chunks_from budget (suc t) lo (rows + f t) (map f (range_from (suc t) left)) in
            let same : t ≡ lo + suc k = omega arith in
            let rest =
              chunks_from-Packs lo (suc k) (suc t) (rows + f t) left (omega arith)
                (ap₂ (λ a b. a + f b) e same) (inl (ltb-false→le budget (rows + f t) fits)) in
            rw (lt, fits) (Packs-move lo lo (suc t + left) (t + suc left) later refl end rest)
      ]

  pub chunks_from_0-Packs :
      (left : ℕ)
      → Packs size budget 0 (suc left) (chunks_from budget 0 0 0 (map f (range_from 0 (suc left))))
  unfolding chunks_from
  chunks_from_0-Packs left =
      let same : 1 + left ≡ suc left = omega arith in
      rw same at (chunks_from-Packs 0 0 1 (0 + f 0) left refl refl (inr refl))

-- Chunks that pack a range hold the ids of it.
pub Packs-covers :
    (size : (ℕ × ℕ) → ℕ) (budget from end i : ℕ) (chunks : List (ℕ × ℕ))
    → Packs size budget from end chunks
    → leb from i ≡ true
    → ltb i end ≡ true
    → any (λ chunk. holds_id chunk i) chunks ≡ true
Packs-covers size budget from end i [] h a b = absurd (ground arith)
Packs-covers size budget from end i ((lo, hi) ∷ chunks) (e, le, _, h) a b =
    elim (Bool-cases (leb i hi)) [
      | inl f ↦ rw (e, a, f) refl
      | inr f ↦ rw (e, a, f) (Packs-covers size budget (suc hi) end i chunks h (ground arith) b)
    ]

group_size :
    (i : ℕ) (rows : List IdRow) → length (select (in_chunk (i, i)) rows) ≡ length (group_of i rows)
group_size i [] = refl
group_size i (row ∷ rows) = ground (arith, group_size i rows)

one_more :
    (lo hi : ℕ) (rows : List IdRow)
    → lo ≤ suc hi
    → length (select (in_chunk (lo, suc hi)) rows)
      ≡ length (select (in_chunk (lo, hi)) rows) + length (group_of (suc hi) rows)
one_more lo hi [] le = refl
one_more lo hi (row ∷ rows) le = ground (arith, one_more lo hi rows le)

-- A chunk has the rows of its ids.
pub chunk_size :
    (rows : List IdRow) (lo count : ℕ)
    → length (select (in_chunk (lo, lo + count)) rows)
      ≡ sum_from (λ i. length (group_of i rows)) lo (suc count)
chunk_size rows lo zero =
    let same : lo + 0 ≡ lo = omega arith in rw same (omega (arith, group_size lo rows))
chunk_size rows lo (suc count) =
    let same : lo + suc count ≡ suc (lo + count) = omega arith in
    rw same (
      one_more lo (lo + count) rows (omega arith)
      ∙ ap (λ n. n + length (group_of (suc (lo + count)) rows)) (chunk_size rows lo count))

length-insert_ends : (s d : ℕ) (ps : List (ℕ × ℕ)) → length (insert_ends s d ps) ≡ suc (length ps)
length-insert_ends s d [] = refl
length-insert_ends s d ((u, v) ∷ ps) = elim (Bool-cases (pair_le s d u v)) [
  | inl e ↦ rw e refl
  | inr e ↦ rw e (ap suc (length-insert_ends s d ps))
]

pub length-sort_ends : (ps : List (ℕ × ℕ)) → length (sort_ends ps) ≡ length ps
unfolding sort_ends
length-sort_ends [] = refl
length-sort_ends ((s, d) ∷ ps) =
    length-insert_ends s d (sort_ends ps) ∙ ap suc (length-sort_ends ps)

pub length-pairs : (rows : List IdRow) → length (pairs rows) ≡ length rows
length-pairs [] = refl
length-pairs (row ∷ rows) = ap suc (length-pairs rows)

pub counts_by_id :
    (keys : List EdgeType) (g : EdgeType → ℕ) (f : ℕ → ℕ) (from : ℕ)
    → ((i : ℕ) (key : EdgeType) → get_elem? keys i ≡ some key → g key ≡ f (from + i))
    → map g keys ≡ map f (range_from from (length keys))
counts_by_id [] g f from h = refl
counts_by_id (key ∷ keys) g f from h =
    let here : from + 0 ≡ from = omega arith in
    ap₂ (λ n ns. n ∷ ns) (h 0 key refl ∙ ap f here)
      (counts_by_id keys g f (suc from) (λ i k e.
        let next : from + suc i ≡ suc from + i = omega arith in h (suc i) k e ∙ ap f next))
