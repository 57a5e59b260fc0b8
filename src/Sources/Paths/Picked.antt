-- ===== src/Sources/Paths/Picked.antt =====
-- spark_jobs/sources/__init__.py: what pick returns.
use mathlib.Core.List
use pyg_knowledge_graph_buil.Base.{
  [], ◌∷◌, true, none, inl, inr, refl, List, Bool, length, ◌≡◌, All, arith, ◌↔◌, ◌⊎◌, Bool-cases,
  ◌==◌, ==_iff, ap, sym, ◌∙◌,
}
use pyg_knowledge_graph_buil.Base.Texts.{Text}
use pyg_knowledge_graph_buil.Base.Result.{ok, error_of, error_of-bind, ◌>>=◌}
use pyg_knowledge_graph_buil.Base.Dict.{select}
use pyg_knowledge_graph_buil.Sources.{SourceSpec}
use pyg_knowledge_graph_buil.Sources.Paths.{
  Lower, match_path, match_all, pick, is_among, the_one, specs_for_path,
}

-- Each path belongs to one source of the specs.
abbrev pub OneSource : Lower → List Text → List SourceSpec → Type 0
OneSource lower paths specs = All (λ path. length (specs_for_path lower path specs) ≡ 1) paths

-- Some path belongs to the source.
abbrev pub Named : Lower → SourceSpec → List Text → List SourceSpec → Type 0
Named lower spec [] specs = ⊥
Named lower spec (path ∷ paths) specs =
    ((s : SourceSpec) × (specs_for_path lower path specs ≡ s ∷ []) × (s.ref ≡ spec.ref))
    ⊎ Named lower spec paths specs

pub the_one-length :
    (path : Text) (found : List SourceSpec)
    → length found ≡ 1
    → (s : SourceSpec) × (found ≡ s ∷ []) × (the_one path found ≡ ok s)
the_one-length path [] h = absurd (omega arith)
the_one-length path (s ∷ []) h = (s, refl, refl)
the_one-length path (s ∷ t ∷ rest) h = absurd (omega arith)

the_one-ok :
    (path : Text) (found : List SourceSpec) (s : SourceSpec)
    → the_one path found ≡ ok s
    → found ≡ s ∷ []
the_one-ok path [] s h = cc
the_one-ok path (t ∷ []) s h = cc
the_one-ok path (t ∷ u ∷ rest) s h = cc

-- Every member of the matched specs is there because of a path, and each path puts one there.
match_all-total :
    (lower : Lower) (paths : List Text) (specs : List SourceSpec)
    → OneSource lower paths specs
    → (matched : List SourceSpec) × (match_all lower paths specs ≡ ok matched)
      × ((spec : SourceSpec) → (is_among spec matched ≡ true) ↔ Named lower spec paths specs)
unfolding match_all match_path is_among
match_all-total lower [] specs h = ([], refl, λ spec. (λ e. cc, λ e. absurd e))
match_all-total lower (path ∷ paths) specs (one, h) =
    let (s, found, matches) = the_one-length path (specs_for_path lower path specs) one in
    let (matched, same, named) = match_all-total lower paths specs h in
    (
      s ∷ matched,
      rw (matches, same),
      λ spec. (
        λ among. elim (Bool-cases (s.ref == spec.ref)) [
          | inl e ↦ inl (s, found, (==_iff s.ref spec.ref).0 e)
          | inr e ↦ inr ((named spec).0 (ground arith))
        ],
        λ here. elim here [
          | inl (x, f, r) ↦
              let e =
                (==_iff s.ref spec.ref).1
                  (ap (λ t. t.ref) (List.head-eq_of_cons-eq (sym found ∙ f)) ∙ r) in
              ground (arith, e)
          | inr later ↦ ground (arith, (named spec).1 later)
        ],
      ),
    )

-- Where each path belongs to one source, pick returns, in the order of the specs, those that some path
-- belongs to.
pub pick-Named :
    (lower : Lower) (paths : List Text) (specs : List SourceSpec)
    → OneSource lower paths specs
    → (test : SourceSpec → Bool) × (pick lower paths specs ≡ ok (select test specs))
      × ((spec : SourceSpec) → (test spec ≡ true) ↔ Named lower spec paths specs)
unfolding pick
pick-Named lower paths specs h =
    let (matched, same, named) = match_all-total lower paths specs h in
    ((λ spec. is_among spec matched), rw same, named)

-- Otherwise a path belongs to none or to several, and match_all raises.
match_all-OneSource :
    (lower : Lower) (paths : List Text) (specs : List SourceSpec)
    → error_of (match_all lower paths specs) ≡ none
    → OneSource lower paths specs
unfolding match_all match_path
match_all-OneSource lower [] specs h = tt
match_all-OneSource lower (path ∷ paths) specs h =
    let (s, found, later) =
      error_of-bind (the_one path (specs_for_path lower path specs))
        (λ s. match_all lower paths specs >>= λ matched. ok (s ∷ matched)) h in
    let (matched, rest, _) =
      error_of-bind (match_all lower paths specs) (λ matched. ok (s ∷ matched)) later in
    (
      ap length (the_one-ok path (specs_for_path lower path specs) s found),
      match_all-OneSource lower paths specs (ap error_of rest),
    )

-- pick raises its ValueError exactly where some path belongs to no source, or to more than one.
pub pick-OneSource :
    (lower : Lower) (paths : List Text) (specs : List SourceSpec)
    → (error_of (pick lower paths specs) ≡ none) ↔ OneSource lower paths specs
unfolding pick
pick-OneSource lower paths specs = (
  λ h.
      let (matched, same, _) =
        error_of-bind (match_all lower paths specs)
          (λ m. ok (select (λ spec. is_among spec m) specs)) h in
      match_all-OneSource lower paths specs (ap error_of same),
  λ h. ap error_of (pick-Named lower paths specs h).1,
)
