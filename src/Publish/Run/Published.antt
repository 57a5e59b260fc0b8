-- ===== src/Publish/Run/Published.antt =====
-- bin/publish_run.py: what it takes for `publish` to return 0.
use pyg_knowledge_graph_buil.Base.{
  ℕ, [], true, false, none, some, inl, inr, refl, Bool, if◌then◌else◌, Option, ◌==◌, ◌⊎◌, ◌≡◌, ◌↔◌,
  ap, ◌∙◌, Bool-cases, subst, sym, ==_iff, arith,
}
use pyg_knowledge_graph_buil.Base.Texts.{Text, among}
use pyg_knowledge_graph_buil.Base.Result.{Result, ok, raise}
use pyg_knowledge_graph_buil.Sources.{names_of}
use pyg_knowledge_graph_buil.Publish.{
  Files, Aws, Tables, Stop, refused, failed, check_upload, publish_tables, tables_unless_published,
  size_of, in_scope, verdict,
}
use pyg_knowledge_graph_buil.Publish.Listed.{Agrees, same_size_iff}
use pyg_knowledge_graph_buil.Publish.Complete.{
  Completes, MarkerListed, publish_tables-Completes, tables_unless_published-Completes, verdict-ok,
  linked-ok,
}
use pyg_knowledge_graph_buil.Publish.Run.{
  Run, publish, with_listing, send_run, send_index, tables_after, resume, shows_up, caught,
  nothing_sent,
}
use mathlib.Core.Option.{some-injective}

module _ {ℓ} {W : Type ℓ} (aws : Aws W) where
  -- The tables, if any, are published: their marker is listed, or they are then sent in full.
  abbrev pub TablesUp : Option Tables → W → Type 0
  TablesUp none w = Unit
  TablesUp (some t) w =
      MarkerListed aws t (aws.listing w t.dst).1
      ⊎ (((have : Files) × ((aws.listing w t.dst).1 ≡ some have)
            × (among t.marker (names_of have) ≡ false))
          × Completes aws t (aws.listing w t.dst).0)

  -- The files are sent, a listing after that has every file at its size and nothing else but the index,
  -- the index is copied and then listed at its size, and after that the tables are published.
  abbrev pub RunCompletes : Run → W → Type 0
  RunCompletes run w =
      let sent = aws.sync w run.dst run.items run.index in
      let after = aws.listing sent.0 run.dst in
      let indexed = aws.copy after.0 run.dst run.index run.index_size in
      let last = aws.listing indexed.0 run.dst in
      (sent.1 ≡ 0)
      × ((have : Files) × (after.1 ≡ some have) × Agrees run.items run.index (in_scope [] have))
      × (indexed.1 ≡ 0)
      × ((have : Files) × (last.1 ≡ some have) × (size_of run.index have ≡ some run.index_size))
      × TablesUp run.tables last.0

  caught-ok : (r : W × Result Stop ℕ) → ((caught r).1 ≡ ok 0) ↔ (r.1 ≡ ok 0)
  caught-ok (w, raise refused) = (λ h. cc, λ h. cc)
  caught-ok (w, raise failed) = (λ h. cc, λ h. cc)
  caught-ok (w, ok rc) = (λ h. h, λ h. h)

  nothing_sent-ok : (r : W × Result Stop ℕ) → ((nothing_sent r).1 ≡ ok 0) ↔ (r.1 ≡ ok 0)
  nothing_sent-ok (w, raise stop) = (λ h. cc, λ h. cc)
  nothing_sent-ok (w, ok rc) = (λ h. h, λ h. h)

  shows_up-ok :
      (index : Text) (size : ℕ) (listed : Option Files)
      → (shows_up index size listed ≡ ok true)
        ↔ ((have : Files) × (listed ≡ some have) × (size_of index have ≡ some size))
  unfolding shows_up
  shows_up-ok index size none = (λ h. cc, λ (a, e, _). cc)
  shows_up-ok index size (some have) =
      let (forth, back) = same_size_iff (size_of index have) size in
      (
        λ h. (have, refl, forth cc),
        λ (a, same, e). ap ok (back (ap (size_of index) (some-injective have a same) ∙ e)),
      )

  tables_after-ok :
      (tables : Option Tables) (w : W) (r : Result Stop Bool)
      → ((tables_after aws tables (w, r)).1 ≡ ok 0) ↔ ((r ≡ ok true) × TablesUp tables w)
  unfolding tables_after
  tables_after-ok tables w (raise stop) = (λ h. cc, λ (h, _). cc)
  tables_after-ok tables w (ok false) = (λ h. cc, λ (h, _). cc)
  tables_after-ok none w (ok true) = (λ h. (refl, tt), λ h. refl)
  tables_after-ok (some t) w (ok true) =
      let (forth, back) = tables_unless_published-Completes aws t w in
      let (catch, caught) = caught-ok (tables_unless_published aws t true w) in
      (λ h. (refl, forth (catch h)), λ (_, up). caught (back up))

  send_index-ok :
      (run : Run) (w : W) (r : Result Stop Bool)
      → let indexed = aws.copy w run.dst run.index run.index_size in
        let last = aws.listing indexed.0 run.dst in
        ((send_index aws run (w, r)).1 ≡ ok 0) ↔ (
          (r ≡ ok true)
          × (indexed.1 ≡ 0)
          × ((have : Files) × (last.1 ≡ some have) × (size_of run.index have ≡ some run.index_size))
          × TablesUp run.tables last.0)
  unfolding send_index
  send_index-ok run w (raise stop) = (λ h. cc, λ (h, _, _, _). cc)
  send_index-ok run w (ok false) = (λ h. cc, λ (h, _, _, _). cc)
  send_index-ok run w (ok true) =
      let indexed = aws.copy w run.dst run.index run.index_size in
      let last = aws.listing indexed.0 run.dst in
      let (seen, see) = shows_up-ok run.index run.index_size last.1 in
      let (after, done) =
        tables_after-ok run.tables last.0 (shows_up run.index run.index_size last.1) in
      elim (Bool-cases (indexed.1 == 0)) [
        | inl e ↦ rw e (
          λ h. let (shown, up) = after h in (refl, (==_iff indexed.1 0).0 e, seen shown, up),
          λ (_, _, shown, up). done (see shown, up),
        )
        | inr e ↦ rw e (λ h. cc, λ (_, h, _, _). absurd (ground arith))
      ]

  send_run-ok : (run : Run) (w : W) → ((send_run aws run w).1 ≡ ok 0) ↔ RunCompletes run w
  unfolding send_run check_upload
  send_run-ok run w =
      let sent = aws.sync w run.dst run.items run.index in
      let after = aws.listing sent.0 run.dst in
      let (check, pass) = verdict-ok aws run.items run.index [] after.1 in
      let (marked, mark) = send_index-ok run after.0 (verdict run.items run.index [] after.1) in
      elim (Bool-cases (sent.1 == 0)) [
        | inl e ↦ rw e (
          λ h.
              let (v, copied, shown, up) = marked h in
              ((==_iff sent.1 0).0 e, check v, copied, shown, up),
          λ (_, v, copied, shown, up). mark (pass v, copied, shown, up),
        )
        | inr e ↦ rw e (λ h. cc, λ (h, _, _, _, _). absurd (ground arith))
      ]

  -- The run was up before: its tables are published in full. Or it was not: its graphs are as they should
  -- be, and it is published.
  abbrev pub Publishes : Run → Files → W → Type 0
  Publishes run already w =
      ((among run.index (names_of already) ≡ true)
        × ((t : Tables) × (run.tables ≡ some t) × Completes aws t w))
      ⊎ ((among run.index (names_of already) ≡ false)
          × (run.graphs_differ ≡ false)
          × (run.linked ≡ false)
          × RunCompletes run w)

  resume-ok :
      (tables : Option Tables) (w : W)
      → ((resume aws tables true w).1 ≡ ok 0)
        ↔ ((t : Tables) × (tables ≡ some t) × Completes aws t w)
  unfolding resume
  resume-ok none w = (λ h. cc, λ (t, e, _). cc)
  resume-ok (some t) w =
      let (sent, send) = nothing_sent-ok (publish_tables aws t true w) in
      let (forth, back) = publish_tables-Completes aws t w in
      (
        λ h. (t, refl, forth (sent h)),
        λ (u, same, c).
            send (back (subst (λ v. Completes aws v w) (sym (some-injective t u same)) c)),
      )

  with_listing-Publishes :
      (run : Run) (w : W) (already : Files)
      → ((with_listing aws run true (w, some already)).1 ≡ ok 0) ↔ Publishes run already w
  unfolding with_listing
  with_listing-Publishes run w already =
      let (more, resume) = resume-ok run.tables w in
      let (sends, send) = send_run-ok run w in
      let inner = if run.linked then (w, raise refused) else send_run aws run w in
      let (alike, check) = linked-ok aws run.graphs_differ w inner in
      let (clear, cleared) = linked-ok aws run.linked w (send_run aws run w) in
      elim (Bool-cases (among run.index (names_of already))) [
        | inl e ↦ rw e (
          λ h. inl (refl, more h),
          λ h. elim h [ inl (_, t) ↦ resume t | inr (bad, _, _, _) ↦ cc ],
        )
        | inr e ↦ rw e (
          λ h.
              let (a, rest) = alike h in let (b, sent) = clear rest in inr (refl, a, b, sends sent),
          λ h. elim h [
            | inl (bad, _) ↦ cc
            | inr (_, a, b, done) ↦ check (a, cleared (b, send done))
          ],
        )
      ]

  listed-Publishes :
      (run : Run) (w : W) (listed : Option Files)
      → ((with_listing aws run true (w, listed)).1 ≡ ok 0)
        ↔ ((already : Files) × (listed ≡ some already) × Publishes run already w)
  unfolding with_listing
  listed-Publishes run w none = (λ h. cc, λ (a, e, _). cc)
  listed-Publishes run w (some have) =
      let (forth, back) = with_listing-Publishes run w have in
      (
        λ h. (have, refl, forth h),
        λ (a, same, p). back (subst (λ l. Publishes run l w) (sym (some-injective have a same)) p),
      )

  -- publish, told to upload, returns 0 exactly where tables come with sources, the destination is listed,
  -- and either the run's index is listed, the run has tables and they are now published in full, or the
  -- index is not listed, no graph differs, the upload tree is no symlink, the files are sent, a listing
  -- after that has every file at its size and nothing else but the index, the index is copied and then
  -- listed at its size, and after that the tables, if any, are published.
  pub publish-Publishes :
      (run : Run) (w : W)
      → let before = aws.listing w run.dst in
        ((publish aws run true w).1 ≡ ok 0) ↔ (
          (run.sources_unknown ≡ false)
          × ((already : Files) × (before.1 ≡ some already) × Publishes run already before.0))
  unfolding publish
  publish-Publishes run w =
      let before = aws.listing w run.dst in
      let (clear, cleared) =
        linked-ok aws run.sources_unknown w (with_listing aws run true before) in
      let (forth, back) = listed-Publishes run before.0 before.1 in
      (
        λ h. let (known, rest) = clear h in (known, forth rest),
        λ (known, p). cleared (known, back p),
      )
