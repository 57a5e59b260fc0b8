-- ===== src/Naming/Twins.antt =====
-- spark_jobs/pyg_builder/naming.py: the Spark expression and its twin on the driver.
use pyg_knowledge_graph_buil.Base.{
  ℕ, zero, suc, [], ◌∷◌, if◌then◌else◌, not, ◌&&◌, ◌++◌, length, inl, inr, refl, ◌≡◌, ◌≤◌, arith,
  Bool-cases, ap, any, Bool, ◌||◌, false, true, ◌∙◌, none, some, Option-cases,
}
use pyg_knowledge_graph_buil.Base.Texts.{Text, starts_with, drop}
use pyg_knowledge_graph_buil.Base.Result.{Result, ok, raise}
use pyg_knowledge_graph_buil.Sources.{is_none}
use pyg_knowledge_graph_buil.Naming.{
  NameTable, prefixed_local_name, prefixed_local_name_expr, fallback, unknown, take, last_segment,
  strip, replace_ends, trim_start, is_terminator, marks_to_end, is_break, replace_end, trim_end,
  is_mark, regexp_extract, after_mark, marks_ahead, segment_of,
}

-- The name, or for a URI with no local name the hash under unknown_.
abbrev pub or_hash : (Text → Text) → Result Text Text → Text
or_hash hash (ok name) = name
or_hash hash (raise uri) = unknown ++ hash uri

length-drop : (n : ℕ) (text : Text) → length (drop n text) ≤ length text
length-drop zero text = omega arith
length-drop (suc n) [] = omega arith
length-drop (suc n) (c ∷ text) = omega (arith, length-drop n text)

take_all : (n : ℕ) (text : Text) → length text ≤ n → take n text ≡ text
take_all zero [] h = refl
take_all zero (c ∷ text) h = absurd (omega arith)
take_all (suc n) [] h = refl
take_all (suc n) (c ∷ text) h = ap (λ t. c ∷ t) (take_all n text (omega arith))

fallback-or_hash :
    (hash : Text → Text) (uri segment : Text)
    → (if not (is_none segment) then unknown ++ segment else unknown ++ hash uri)
      ≡ or_hash hash (fallback uri segment)
fallback-or_hash hash uri [] = refl
fallback-or_hash hash uri (c ∷ segment) = refl

later_false : (a b : Bool) → (a || b) ≡ false → b ≡ false
later_false a b h = ground arith

any-drop : (n : ℕ) (text : Text) → any is_break text ≡ false → any is_break (drop n text) ≡ false
any-drop zero text h = h
any-drop (suc n) [] h = h
any-drop (suc n) (c ∷ text) h = any-drop n text (later_false (is_break c) (any is_break text) h)

any-trim_start : (text : Text) → any is_break text ≡ false → any is_break (trim_start text) ≡ false
unfolding trim_start
any-trim_start [] h = h
any-trim_start (c ∷ text) h =
    let rest = any-trim_start text (later_false (is_break c) (any is_break text) h) in
    elim (Bool-cases (is_mark c)) [ inl e ↦ rw e rest | inr e ↦ rw e h ]

is_terminator-plain :
    (c : ℕ) (text : Text) → any is_break (c ∷ text) ≡ false → is_terminator (c ∷ text) ≡ false
unfolding is_terminator
is_terminator-plain c [] h = ground arith
is_terminator-plain c (d ∷ []) h = ground arith
is_terminator-plain c (d ∷ e ∷ text) h = refl

is_none-empty : (text : Text) → is_none text ≡ true → text ≡ []
is_none-empty [] h = refl
is_none-empty (c ∷ text) h = cc

-- Without a line terminator, Java's pattern takes away what the strip does.
replace_end-plain :
    (text : Text)
    → any is_break text ≡ false
    → (marks_to_end text ≡ is_none (trim_end text)) × (replace_end text ≡ trim_end text)
unfolding marks_to_end replace_end trim_end
replace_end-plain [] h = (refl, refl)
replace_end-plain (c ∷ text) h =
    let (marks, same) = replace_end-plain text (later_false (is_break c) (any is_break text) h) in
    let plain = is_terminator-plain c text h in
    elim (Bool-cases (is_mark c)) [
      | inr e ↦ elim (Bool-cases (is_none (trim_end text))) [
        | inl f ↦ rw (plain, e, f, same) (refl, refl)
        | inr f ↦ rw (plain, e, f, same) (refl, refl)
      ]
      | inl e ↦ elim (Bool-cases (is_none (trim_end text))) [
        | inl f ↦ rw (plain, e, marks, f) (refl, same ∙ is_none-empty (trim_end text) f)
        | inr f ↦ rw (plain, e, marks, f, same) (refl, refl)
      ]
    ]

marks_ahead-trim_start : (text : Text) → drop (marks_ahead text) text ≡ trim_start text
unfolding marks_ahead trim_start
marks_ahead-trim_start [] = refl
marks_ahead-trim_start (c ∷ text) = elim (Bool-cases (is_mark c)) [
  | inl e ↦ rw e (marks_ahead-trim_start text)
  | inr e ↦ rw e refl
]

-- With a mark in a text, something follows its last one.
any-after_mark :
    (text : Text) → any is_mark text ≡ true → (rest : Text) × (after_mark text ≡ some rest)
unfolding after_mark
any-after_mark [] h = cc
any-after_mark (c ∷ text) h = elim (Option-cases (after_mark text)) [
  | inr (rest, e) ↦ (rest, rw e refl)
  | inl e ↦ elim (Bool-cases (is_mark c)) [
    | inl f ↦ (text, rw (e, f) refl)
    | inr f ↦ let (rest, found) = any-after_mark text (rw f at h) in cc
  ]
]

no_mark_after : (text : Text) → any is_mark text ≡ false → after_mark text ≡ none
unfolding after_mark
no_mark_after [] h = refl
no_mark_after (c ∷ text) h =
    let rest = no_mark_after text (later_false (is_mark c) (any is_mark text) h) in
    elim (Bool-cases (is_mark c)) [ inl e ↦ ground arith | inr e ↦ rw (rest, e) refl ]

unless_last : (a b : Bool) → (a && b && not true) ≡ false
unless_last a b = ground arith

-- The first mark with no other behind it is the last.
regexp_extract-last_segment : (text : Text) → regexp_extract text ≡ last_segment text
unfolding regexp_extract last_segment after_mark
regexp_extract-last_segment [] = refl
regexp_extract-last_segment (c ∷ []) = elim (Bool-cases (is_mark c)) [
  | inl e ↦ rw e refl
  | inr e ↦ rw e refl
]
regexp_extract-last_segment (c ∷ d ∷ text) =
    let ih = regexp_extract-last_segment (d ∷ text) in
    elim (Bool-cases (any is_mark (d ∷ text))) [
      | inl e ↦
          let (rest, found) = any-after_mark (d ∷ text) e in
          rw (e, unless_last (is_mark c) true, found) (ih ∙ ap segment_of found)
      | inr e ↦
          let absent = no_mark_after (d ∷ text) e in
          elim (Bool-cases (is_mark c)) [
            | inl f ↦ rw (e, absent, f) refl
            | inr f ↦ rw (e, absent, f) (ih ∙ ap segment_of absent)
          ]
    ]

-- For a URI of at most 1000 characters with no line terminator, the Spark expression computes the name
-- that the driver's twin returns, and where the twin raises, the hash of the URI under unknown_.
pub prefixed_local_name_expr-eq :
    (hash : Text → Text) (table : NameTable) (uri : Text)
    → length uri ≤ 1000
    → any is_break uri ≡ false
    → prefixed_local_name_expr hash table uri ≡ or_hash hash (prefixed_local_name table uri)
unfolding prefixed_local_name prefixed_local_name_expr replace_ends strip
prefixed_local_name_expr-eq hash [] uri h plain =
    rw (regexp_extract-last_segment uri) (fallback-or_hash hash uri (last_segment uri))
prefixed_local_name_expr-eq hash ((namespace, prefix) ∷ table) uri h plain =
    let local = drop (length namespace) uri in
    let whole = take_all 1000 local (omega (arith, length-drop (length namespace) uri)) in
    let ahead = marks_ahead-trim_start local in
    let (_, same) =
      replace_end-plain (trim_start local)
        (any-trim_start local (any-drop (length namespace) uri plain)) in
    let ih = prefixed_local_name_expr-eq hash table uri h plain in
    elim (Bool-cases (starts_with namespace uri && not (is_none (strip local)))) [
      | inl e ↦ rw (whole, ahead, same, e)
      | inr e ↦ rw (whole, ahead, same, e) ih
    ]
