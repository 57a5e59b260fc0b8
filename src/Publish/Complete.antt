-- ===== src/Publish/Complete.antt =====
-- bin/publish_run.py: what it takes to publish a day of tables.
use mathlib.Core.Option.{some-injective}
use mathlib.Core.Bool.{false≢true}
use pyg_knowledge_graph_buil.Base.{
  ℕ, true, false, none, some, inl, inr, refl, Bool, Option, ◌==◌, ◌≡◌, ◌↔◌, Bool-cases, ==_iff,
  arith, sym, ap, ◌∙◌, subst, if◌then◌else◌, ◌⊎◌, all,
}
use pyg_knowledge_graph_buil.Base.Texts.{Text, among}
use pyg_knowledge_graph_buil.Base.Result.{Result, ok, raise}
use pyg_knowledge_graph_buil.Sources.{names_of}
use pyg_knowledge_graph_buil.Publish.{
  Files, Aws, Tables, Stop, check_upload, send_marker, send_tables, go_ahead, publish_tables,
  in_scope, verdict, unless_published, tables_unless_published, day_published_by, publisher,
  refused, has_size,
}
use pyg_knowledge_graph_buil.Publish.Listed.{Agrees, agrees-Agrees}

clash :
    (t : Tables) (already a : Files)
    → some already ≡ some a
    → among t.marker (names_of already) ≡ true
    → among t.marker (names_of a) ≡ false
    → ⊥
clash t already a same e f =
    false≢true
      (sym f ∙ ap (λ l. among t.marker (names_of l)) (sym (some-injective already a same)) ∙ e)

module _ {ℓ} {W : Type ℓ} (aws : Aws W) where
  -- The day was not published; then its files were sent, the destination's listing agreed with them, and
  -- only after that the marker was copied.
  abbrev pub Completes : Tables → W → Type 0
  Completes t w =
      let before = aws.listing w t.dst in
      let sent = aws.sync before.0 t.dst t.items t.marker in
      let after = aws.listing sent.0 t.dst in
      let last = aws.copy after.0 t.dst t.marker t.marker_size in
      (t.linked ≡ false)
      × ((already : Files) × (before.1 ≡ some already)
          × (among t.marker (names_of already) ≡ false))
      × (sent.1 ≡ 0)
      × ((have : Files) × (after.1 ≡ some have) × Agrees t.items t.marker (in_scope t.scope have))
      × (last.1 ≡ 0)

  send_marker-ok :
      (dst marker : Text) (size : ℕ) (w : W) (r : Result Stop Bool)
      → ((send_marker aws dst marker size (w, r)).1 ≡ ok 0)
        ↔ ((r ≡ ok true) × ((aws.copy w dst marker size).1 ≡ 0))
  unfolding send_marker
  send_marker-ok dst marker size w (raise stop) = (λ h. cc, λ (h, _). cc)
  send_marker-ok dst marker size w (ok false) = (λ h. cc, λ (h, _). cc)
  send_marker-ok dst marker size w (ok true) =
      elim (Bool-cases ((aws.copy w dst marker size).1 == 0)) [
        | inl e ↦ rw e (λ h. (refl, (==_iff (aws.copy w dst marker size).1 0).0 e), λ h. refl)
        | inr e ↦ rw e (λ h. cc, λ (_, h). absurd (ground arith))
      ]

  pub verdict-ok :
      (items : Files) (marker scope : Text) (listed : Option Files)
      → (verdict items marker scope listed ≡ ok true)
        ↔ ((have : Files) × (listed ≡ some have) × Agrees items marker (in_scope scope have))
  unfolding verdict
  verdict-ok items marker scope none = (λ h. cc, λ (have, h, _). cc)
  verdict-ok items marker scope (some have) =
      let (forth, back) = agrees-Agrees items marker (in_scope scope have) in
      (
        λ h. (have, refl, forth cc),
        λ (have', same, agree). ap ok (
            back (
              subst (λ l. Agrees items marker (in_scope scope l))
                (sym (some-injective have have' same)) agree)),
      )

  send_tables-ok :
      (t : Tables) (w : W)
      → let sent = aws.sync w t.dst t.items t.marker in
        let after = aws.listing sent.0 t.dst in
        ((send_tables aws t w).1 ≡ ok 0) ↔ (
          (sent.1 ≡ 0)
          × ((have : Files) × (after.1 ≡ some have)
              × Agrees t.items t.marker (in_scope t.scope have))
          × ((aws.copy after.0 t.dst t.marker t.marker_size).1 ≡ 0))
  unfolding send_tables check_upload
  send_tables-ok t w =
      let sent = aws.sync w t.dst t.items t.marker in
      let after = aws.listing sent.0 t.dst in
      let (check, pass) = verdict-ok t.items t.marker t.scope after.1 in
      let (marked, mark) =
        send_marker-ok t.dst t.marker t.marker_size after.0
          (verdict t.items t.marker t.scope after.1) in
      elim (Bool-cases (sent.1 == 0)) [
        | inl e ↦ rw e (
          λ h. let (v, m) = marked h in ((==_iff sent.1 0).0 e, check v, m),
          λ (_, v, m). mark (pass v, m),
        )
        | inr e ↦ rw e (λ h. cc, λ (h, _, _). absurd (ground arith))
      ]

  go_ahead-ok :
      (t : Tables) (w : W) (listed : Option Files)
      → ((go_ahead aws t true (w, listed)).1 ≡ ok 0) ↔ (
          ((already : Files) × (listed ≡ some already)
            × (among t.marker (names_of already) ≡ false))
          × ((send_tables aws t w).1 ≡ ok 0))
  unfolding go_ahead
  go_ahead-ok t w none = (λ h. cc, λ ((a, h, _), _). cc)
  go_ahead-ok t w (some already) = elim (Bool-cases (among t.marker (names_of already))) [
    | inl e ↦ rw e (λ h. cc, λ ((a, same, f), _). absurd (clash t already a same e f))
    | inr e ↦ rw e (λ h. ((already, refl, e), h), λ (_, h). h)
  ]

  pub linked-ok :
      (linked : Bool) (w : W) (rest : W × Result Stop ℕ)
      → ((if linked then (w, raise refused) else rest).1 ≡ ok 0)
        ↔ ((linked ≡ false) × (rest.1 ≡ ok 0))
  linked-ok true w rest = (λ h. cc, λ (h, _). cc)
  linked-ok false w rest = (λ h. (refl, h), λ (_, h). h)

  -- publish_tables, told to upload, returns 0 exactly where the upload tree is no symlink, the day was not
  -- published, its files were then sent, a listing after that has every file at its size and nothing else
  -- of the day but the marker, and the marker was copied after that listing.
  pub publish_tables-Completes :
      (t : Tables) (w : W) → ((publish_tables aws t true w).1 ≡ ok 0) ↔ Completes t w
  unfolding publish_tables
  publish_tables-Completes t w =
      let before = aws.listing w t.dst in
      let (ahead, go) = go_ahead-ok t before.0 before.1 in
      let (sends, send) = send_tables-ok t before.0 in
      let (clear, cleared) = linked-ok t.linked w (go_ahead aws t true before) in
      (
        λ h.
            let (e, more) = clear h in
            let (fresh, s) = ahead more in let (a, b, c) = sends s in (e, fresh, a, b, c),
        λ (e, fresh, a, b, c). cleared (e, go (fresh, send (a, b, c))),
      )

  -- The marker is among the names listed.
  abbrev pub MarkerListed : Tables → Option Files → Type 0
  MarkerListed t listed =
      (have : Files) × (listed ≡ some have) × (among t.marker (names_of have) ≡ true)

  unless_published-ok :
      (t : Tables) (w : W) (listed : Option Files)
      → ((unless_published aws t true (w, publisher t listed)).1 ≡ ok 0) ↔ (
          MarkerListed t listed
          ⊎ (((have : Files) × (listed ≡ some have) × (among t.marker (names_of have) ≡ false))
              × Completes t w))
  unfolding unless_published publisher
  unless_published-ok t w none =
      (λ h. cc, λ h. elim h [ inl (a, e, _) ↦ cc | inr ((a, e, _), _) ↦ cc ])
  unless_published-ok t w (some have) =
      let (forth, back) = publish_tables-Completes t w in
      elim (Bool-cases (among t.marker (names_of have))) [
        | inl e ↦ elim (Bool-cases (all (has_size have) t.items)) [
          | inl f ↦ rw (e, f) (λ h. inl (have, refl, e), λ h. refl)
          | inr f ↦ rw (e, f) (λ h. inl (have, refl, e), λ h. refl)
        ]
        | inr e ↦ rw e (
          λ h. inr ((have, refl, e), forth h),
          λ h. elim h [
            | inl (a, same, f) ↦ absurd (clash t a have (sym same) f e)
            | inr (_, done) ↦ back done
          ],
        )
      ]

  -- tables_unless_published, told to upload, returns 0 exactly where the marker of the day is listed, or
  -- where it is not and the day is then published in full.
  pub tables_unless_published-Completes :
      (t : Tables) (w : W)
      → ((tables_unless_published aws t true w).1 ≡ ok 0) ↔ (
          MarkerListed t (aws.listing w t.dst).1
          ⊎ (((have : Files) × ((aws.listing w t.dst).1 ≡ some have)
                × (among t.marker (names_of have) ≡ false))
              × Completes t (aws.listing w t.dst).0))
  unfolding tables_unless_published day_published_by
  tables_unless_published-Completes t w =
      unless_published-ok t (aws.listing w t.dst).0 (aws.listing w t.dst).1
