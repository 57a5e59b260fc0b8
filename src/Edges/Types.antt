-- ===== src/Edges/Types.antt =====
-- spark_jobs/pyg_builder/edge_mapper.py: the edge types in order, and the id of each.
use mathlib.Core.Bool.{false≢true}
use pyg_knowledge_graph_buil.Base.Ascending.{Ascends, sort_once-Ascends}
use pyg_knowledge_graph_buil.Base.Levels.{level_trans, level_total}
use pyg_knowledge_graph_buil.Base.{
  true, false, List, Bool, refl, arith, ◌≡◌, inl, inr, Bool-cases, ◌∙◌, ◌&&◌, sym, subst, map,
}
use pyg_knowledge_graph_buil.Base.Texts.{
  text_eq, text_eq_iff, text_eq_refl, text_eq_sym, text_lt_trans, text_lt_total,
  text_lt_irreflexive,
}
use pyg_knowledge_graph_buil.Edges.{Edge, EdgeType, type_eq, type_lt, keys_by_id}

pub type_eq_refl : (k : EdgeType) → type_eq k k ≡ true
type_eq_refl k = rw (text_eq_refl k.src_type, text_eq_refl k.relation, text_eq_refl k.dst_type) refl

three : (a b c : Bool) → (a && (b && c)) ≡ true → (a ≡ true) × (b ≡ true) × (c ≡ true)
three a b c h = (ground arith, ground arith, ground arith)

same_parts :
    (a b : EdgeType)
    → a.src_type ≡ b.src_type
    → a.relation ≡ b.relation
    → a.dst_type ≡ b.dst_type
    → a ≡ b
same_parts a b p q r = cc

pub type_eq-same : (a b : EdgeType) → type_eq a b ≡ true → a ≡ b
type_eq-same a b h =
    let (p, q, r) =
      three (text_eq a.src_type b.src_type) (text_eq a.relation b.relation)
        (text_eq a.dst_type b.dst_type) h in
    same_parts a b ((text_eq_iff a.src_type b.src_type).0 p)
      ((text_eq_iff a.relation b.relation).0 q) ((text_eq_iff a.dst_type b.dst_type).0 r)

pub same-type_eq : (a b : EdgeType) → a ≡ b → type_eq a b ≡ true
same-type_eq a b e = subst (λ t. type_eq a t ≡ true) e (type_eq_refl a)

pub type_eq_sym : (a b : EdgeType) → type_eq a b ≡ type_eq b a
type_eq_sym a b =
    rw
      (
        text_eq_sym a.src_type b.src_type,
        text_eq_sym a.relation b.relation,
        text_eq_sym a.dst_type b.dst_type,
      )
      refl

type_lt_trans : (a b c : EdgeType) → type_lt a b ≡ true → type_lt b c ≡ true → type_lt a c ≡ true
type_lt_trans a b c h k =
    level_trans a.src_type b.src_type c.src_type _ _ _
      (level_trans a.relation b.relation c.relation _ _ _
        (text_lt_trans a.dst_type b.dst_type c.dst_type))
      h k

type_lt_total : (a b : EdgeType) → type_lt a b ≡ false → type_eq a b ≡ false → type_lt b a ≡ true
type_lt_total a b h k =
    level_total a.src_type b.src_type _ _ _
      (level_total a.relation b.relation _ _ _ (text_lt_total a.dst_type b.dst_type)) h k

pub type_lt-apart : (a b : EdgeType) → type_lt a b ≡ true → type_eq a b ≡ false
type_lt-apart a b h = elim (Bool-cases (type_eq a b)) [
  | inr e ↦ e
  | inl e ↦
      let loop : type_lt b b ≡ true = subst (λ t. type_lt t b ≡ true) (type_eq-same a b e) h in
      absurd (
        false≢true (
          sym (
            rw
              (
                text_lt_irreflexive b.src_type,
                text_lt_irreflexive b.relation,
                text_lt_irreflexive b.dst_type,
                text_eq_refl b.src_type,
                text_eq_refl b.relation,
              )
              refl)
          ∙ loop))
]

pub keys_by_id-Ascends : (edges : List Edge) → Ascends type_lt (keys_by_id edges)
unfolding keys_by_id
keys_by_id-Ascends edges =
    sort_once-Ascends type_lt type_eq type_lt_trans type_lt_total
      (map (λ edge. edge.edge_type) edges)
