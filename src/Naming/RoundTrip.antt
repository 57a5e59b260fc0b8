-- ===== src/Naming/RoundTrip.antt =====
-- spark_jobs/pyg_builder/naming.py: a name leads back to its URI.
use mathlib.Core.List
use mathlib.Core.Bool.{false≢true}
use pyg_knowledge_graph_buil.Base.{
  suc, [], ◌∷◌, true, false, not, ◌&&◌, ◌++◌, length, inl, inr, refl, ◌≡◌, All, ◌⊎◌, subst,
  Bool-cases, ◌+◌, sym, ◌∙◌, arith,
}
use pyg_knowledge_graph_buil.Base.Texts.{
  Text, starts_with, drop, starts_with_either, starts_with-append, drop-append,
}
use pyg_knowledge_graph_buil.Base.Result.{ok}
use pyg_knowledge_graph_buil.Sources.{is_none}
use pyg_knowledge_graph_buil.Naming.{
  NameTable, prefixed_local_name, relation_to_predicate_uri, name_of, underscore, strip,
}

-- Neither prefix, with its underscore, starts the other.
abbrev pub Apart : Text → Text → Type 0
Apart p q =
    (starts_with (p ++ underscore) (q ++ underscore) ≡ false)
    × (starts_with (q ++ underscore) (p ++ underscore) ≡ false)

-- Any two prefixes of the table are apart.
abbrev pub Separate : NameTable → Type 0
Separate [] = Unit
Separate ((_, p) ∷ table) = All (λ row. Apart p row.1) table × Separate table

-- The first namespace of the table that starts the URI and leaves something of it to name, with its prefix
-- and what it leaves.
abbrev pub Names : NameTable → Text → Text → Text → Text → Type 0
Names [] uri namespace prefix local = ⊥
Names ((n, p) ∷ table) uri namespace prefix local =
    ((n ≡ namespace) × (p ≡ prefix) × (uri ≡ namespace ++ local) × (is_none (strip local) ≡ false))
    ⊎ ((starts_with n uri && not (is_none (strip (drop (length n) uri))) ≡ false)
        × Names table uri namespace prefix local)

name_of-Names :
    (table : NameTable) (uri namespace prefix local : Text)
    → Names table uri namespace prefix local
    → prefixed_local_name table uri ≡ ok (name_of prefix (strip local))
unfolding prefixed_local_name
name_of-Names [] uri namespace prefix local h = absurd h
name_of-Names ((n, p) ∷ table) uri namespace prefix local (inr (skipped, h)) =
    rw skipped (name_of-Names table uri namespace prefix local h)
name_of-Names ((n, p) ∷ table) uri namespace prefix local (inl (same, named, whole, some_left)) =
    rw (
      same,
      named,
      whole,
      starts_with-append namespace local,
      drop-append namespace local,
      some_left,
    )

Names-Apart :
    (table : NameTable) (uri namespace prefix local p : Text)
    → Names table uri namespace prefix local
    → All (λ row. Apart p row.1) table
    → Apart p prefix
Names-Apart [] uri namespace prefix local p h apart = absurd h
Names-Apart ((n, q) ∷ table) uri namespace prefix local p (inl (_, named, _, _)) (apart, _) =
    subst (Apart p) named apart
Names-Apart ((n, q) ∷ table) uri namespace prefix local p (inr (_, h)) (_, apart) =
    Names-Apart table uri namespace prefix local p h apart

starts_with-name_of :
    (prefix local : Text) → starts_with (prefix ++ underscore) (name_of prefix local) ≡ true
starts_with-name_of prefix local =
    subst (λ t. starts_with (prefix ++ underscore) t ≡ true)
      (List.append_assoc prefix underscore local) (starts_with-append (prefix ++ underscore) local)

-- A prefix that is apart does not lead the name astray.
Apart-name_of :
    (p prefix local : Text)
    → Apart p prefix
    → starts_with (p ++ underscore) (name_of prefix local) ≡ false
Apart-name_of p prefix local (first, second) =
    elim (Bool-cases (starts_with (p ++ underscore) (name_of prefix local))) [
      | inr e ↦ e
      | inl e ↦
          elim (starts_with_either (p ++ underscore) (prefix ++ underscore) (name_of prefix local) e
            (starts_with-name_of prefix local)) [
              | inl f ↦ absurd (false≢true (sym first ∙ f))
              | inr f ↦ absurd (false≢true (sym second ∙ f))
            ]
    ]

drop-name_of : (prefix local : Text) → drop (length prefix + 1) (name_of prefix local) ≡ local
drop-name_of prefix local =
    let one_more : length prefix + 1 ≡ suc (length prefix) = omega arith in
    rw one_more (drop-past prefix)
  where
    drop-past : (p : Text) → drop (suc (length p)) (name_of p local) ≡ local
    drop-past [] = refl
    drop-past (c ∷ p) = drop-past p

relation_to_predicate_uri-Names :
    (table : NameTable) (uri namespace prefix local : Text)
    → Separate table
    → Names table uri namespace prefix local
    → relation_to_predicate_uri table (name_of prefix local) ≡ uri
unfolding relation_to_predicate_uri
relation_to_predicate_uri-Names [] uri namespace prefix local s h = absurd h
relation_to_predicate_uri-Names ((n, p) ∷ table) uri namespace prefix local (apart, s)
      (inr (_, h)) =
    rw (Apart-name_of p prefix local (Names-Apart table uri namespace prefix local p h apart))
      (relation_to_predicate_uri-Names table uri namespace prefix local s h)
relation_to_predicate_uri-Names ((n, p) ∷ table) uri namespace prefix local s
      (inl (same, named, whole, _)) =
    rw (same, named, whole, starts_with-name_of prefix local, drop-name_of prefix local)

-- Where no prefix of the table, with its underscore, starts another, a URI that is a namespace and a local
-- name, the namespace the first of the table to name it and the local name with no / or # at either end,
-- is named by that namespace's prefix, and the name leads back to the URI.
pub relation_to_predicate_uri-prefixed_local_name :
    (table : NameTable) (uri namespace prefix local : Text)
    → Separate table
    → Names table uri namespace prefix local
    → strip local ≡ local
    → (prefixed_local_name table uri ≡ ok (name_of prefix local))
      × (relation_to_predicate_uri table (name_of prefix local) ≡ uri)
relation_to_predicate_uri-prefixed_local_name table uri namespace prefix local s h clean = (
  subst (λ l. prefixed_local_name table uri ≡ ok (name_of prefix l)) clean
      (name_of-Names table uri namespace prefix local h),
  relation_to_predicate_uri-Names table uri namespace prefix local s h,
)
