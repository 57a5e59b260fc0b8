-- ===== src/Sources/Paths/Read.antt =====
-- spark_jobs/sources/__init__.py: what sources_read returns.
use mathlib.Core.List
use mathlib.Core.Bool.{false≢true}
use pyg_knowledge_graph_buil.Base.Ascending.{Ascends, sort_once-Ascends, any-sort_once}
use pyg_knowledge_graph_buil.Base.{
  [], ◌∷◌, true, inl, inr, refl, List, ◌≡◌, ◌++◌, Bool-cases, ◌||◌, ◌⊎◌, ◌↔◌, arith, subst, sym,
  ◌∙◌, ap, Bool, any,
}
use pyg_knowledge_graph_buil.Base.Texts.{
  Text, among, text_eq, text_lt, text_lt_trans, text_lt_total, text_eq_iff, among-append, replace,
}
use pyg_knowledge_graph_buil.Base.Result.{ok}
use pyg_knowledge_graph_buil.Sources.{SourceSpec, sorted_texts, Feed, feed_names}
use pyg_knowledge_graph_buil.Sources.Paths.{
  Lower, match_path, names_of_paths, names_read, sources_read, specs_for_path, names_feed, segments,
  slash, backslash,
}
use pyg_knowledge_graph_buil.Sources.Paths.Picked.{OneSource, the_one-length}
use pyg_knowledge_graph_buil.Base.Segments.{Segment, among-split}
use pyg_knowledge_graph_buil.Base.Dict.{select}

-- In order, and once each.
abbrev pub Rises : List Text → Type 0
Rises texts = Ascends text_lt texts

-- The name is that of a feed whose fragment, in lower case, is a whole segment of the path.
abbrev pub NamesFeed : Text → Lower → Text → List Feed → Type 0
NamesFeed path lower name [] = ⊥
NamesFeed path lower name (feed ∷ feeds) =
    ((feed.name ≡ name)
      × Segment slash (lower feed.path_fragment) (replace backslash slash (lower path)))
    ⊎ NamesFeed path lower name feeds

-- Some path belongs to a source such that the name is the source's, or that of a feed the path names.
abbrev pub Reads : Lower → Text → List Text → List SourceSpec → Type 0
Reads lower name [] specs = ⊥
Reads lower name (path ∷ paths) specs =
    ((s : SourceSpec) × (specs_for_path lower path specs ≡ s ∷ [])
      × ((s.name ≡ name) ⊎ NamesFeed path lower name s.feeds))
    ⊎ Reads lower name paths specs

select-NamesFeed :
    (lower : Lower) (path name : Text) (feeds : List Feed)
    → (among name (feed_names (select (λ feed. names_feed lower path feed.path_fragment) feeds))
        ≡ true)
      ↔ NamesFeed path lower name feeds
unfolding among names_feed segments
select-NamesFeed lower path name [] = (λ h. cc, λ h. absurd h)
select-NamesFeed lower path name (feed ∷ feeds) =
    let (forth, back) = select-NamesFeed lower path name feeds in
    let (segment, found) =
      among-split slash (replace backslash slash (lower path)) (lower feed.path_fragment) in
    elim (Bool-cases (names_feed lower path feed.path_fragment)) [
      | inr e ↦ rw e (
        λ h. inr (forth h),
        λ h. elim h [ inl (_, k) ↦ absurd (false≢true (sym e ∙ found k)) | inr later ↦ back later ],
      )
      | inl e ↦ rw e (
        λ h. elim (Bool-cases (text_eq feed.name name)) [
          | inl f ↦ inl ((text_eq_iff feed.name name).0 f, segment e)
          | inr f ↦ inr (forth (ground arith))
        ],
        λ h. elim h [
          | inl (same, _) ↦ ground (arith, (text_eq_iff feed.name name).1 same)
          | inr later ↦ ground (arith, back later)
        ],
      )
    ]

names_read-among :
    (lower : Lower) (path name : Text) (s : SourceSpec)
    → (among name (names_read lower path s) ≡ true)
      ↔ ((s.name ≡ name) ⊎ NamesFeed path lower name s.feeds)
unfolding among
names_read-among lower path name s =
    let (forth, back) = select-NamesFeed lower path name s.feeds in
    (
      λ h. elim (Bool-cases (text_eq s.name name)) [
        | inl f ↦ inl ((text_eq_iff s.name name).0 f)
        | inr f ↦ inr (forth (ground arith))
      ],
      λ h. elim h [
        | inl same ↦ ground (arith, (text_eq_iff s.name name).1 same)
        | inr later ↦ ground (arith, back later)
      ],
    )

pub sorted_texts-Rises : (texts : List Text) → Rises (sorted_texts texts)
unfolding sorted_texts
sorted_texts-Rises texts = sort_once-Ascends text_lt text_eq text_lt_trans text_lt_total texts

pub any-sorted_texts :
    (p : Text → Bool) (texts : List Text) → any p (sorted_texts texts) ≡ any p texts
unfolding sorted_texts
any-sorted_texts p texts = any-sort_once text_lt text_eq (λ s t. (text_eq_iff s t).0) p texts

pub among-sorted_texts :
    (name : Text) (texts : List Text) → among name (sorted_texts texts) ≡ among name texts
unfolding among
among-sorted_texts name texts = any-sorted_texts (λ t. text_eq t name) texts

names_of_paths-total :
    (lower : Lower) (paths : List Text) (specs : List SourceSpec)
    → OneSource lower paths specs
    → (names : List Text) × (names_of_paths lower paths specs ≡ ok names)
      × ((name : Text) → (among name names ≡ true) ↔ Reads lower name paths specs)
unfolding names_of_paths match_path among
names_of_paths-total lower [] specs h = ([], refl, λ name. (λ e. cc, λ e. absurd e))
names_of_paths-total lower (path ∷ paths) specs (one, h) =
    let (s, found, matches) = the_one-length path (specs_for_path lower path specs) one in
    let (names, same, reads) = names_of_paths-total lower paths specs h in
    (
      names_read lower path s ++ names,
      rw (matches, same),
      λ name. (
        λ among_both. elim (Bool-cases (among name (names_read lower path s))) [
          | inl e ↦ inl (s, found, (names_read-among lower path name s).0 e)
          | inr e ↦
              inr
                ((reads name).0 (ground (arith, among-append name (names_read lower path s) names)))
        ],
        λ here. elim here [
          | inl (x, f, r) ↦
              let r' =
                subst (λ y. among name (names_read lower path y) ≡ true)
                  (List.head-eq_of_cons-eq (sym f ∙ found))
                  ((names_read-among lower path name x).1 r) in
              among-append name (names_read lower path s) names ∙ ap (λ b. b || among name names) r'
          | inr later ↦
              ground
                (arith, among-append name (names_read lower path s) names, (reads name).1 later)
        ],
      ),
    )

-- Where each path belongs to one source, sources_read returns, in order and once each, the names of the
-- sources that some path belongs to and of the feeds of that source whose fragment, in lower case, is a
-- whole segment of the path.
pub sources_read-Reads :
    (lower : Lower) (paths : List Text) (specs : List SourceSpec)
    → OneSource lower paths specs
    → (names : List Text) × (sources_read lower paths specs ≡ ok names)
      × Rises names
      × ((name : Text) → (among name names ≡ true) ↔ Reads lower name paths specs)
unfolding sources_read
sources_read-Reads lower paths specs h =
    let (names, same, reads) = names_of_paths-total lower paths specs h in
    (
      sorted_texts names,
      rw same,
      sorted_texts-Rises names,
      λ name. rw (among-sorted_texts name names) (reads name),
    )
