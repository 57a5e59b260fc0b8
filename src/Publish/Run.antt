-- ===== src/Publish/Run.antt =====
-- bin/publish_run.py: `publish`, from what the run left behind on.
pub mod Published
use pyg_knowledge_graph_buil.Base.{
  ℕ, zero, suc, [], ◌∷◌, true, false, none, some, inl, inr, refl, List, Bool, if◌then◌else◌, not,
  ◌&&◌, Option, ◌==◌,
}
use pyg_knowledge_graph_buil.Base.Texts.{Text, among}
use pyg_knowledge_graph_buil.Base.Result.{Result, ok, raise}
use pyg_knowledge_graph_buil.Sources.{names_of}
use pyg_knowledge_graph_buil.Publish.{
  Files, Aws, Tables, Stop, refused, failed, check_upload, publish_tables, tables_unless_published,
  size_of, same_size,
}

-- A run that is ready: its files, where they go, its index and the index's size, whether the upload
-- tree's folder is a symlink, whether some graph names another day or differs from its checksums, its
-- tables, if it wrote any, and whether it wrote tables but recorded no sources.
pub record Run : Type 0 where
  pub items : Files
  pub dst : Text
  pub index : Text
  pub index_size : ℕ
  pub linked : Bool
  pub graphs_differ : Bool
  pub tables : Option Tables
  pub sources_unknown : Bool

-- The last look at the listing: whether the index shows up at its size.
unfoldable pub shows_up : Text → ℕ → Option Files → Result Stop Bool
unfolding size_of
shows_up index size none = raise failed
shows_up index size (some have) = ok (same_size (size_of index have) size)

module _ {ℓ} {W : Type ℓ} where
  -- What becomes of the tables' exceptions once the run is up.
  abbrev pub caught : W × Result Stop ℕ → W × Result Stop ℕ
  caught (w, raise refused) = (w, ok 2)
  caught (w, raise failed) = (w, ok 1)
  caught (w, ok rc) = (w, ok rc)

  abbrev pub tried : W × Result Stop ℕ → W × Result Stop ℕ
  tried (w, raise _) = (w, raise refused)
  tried (w, ok _) = (w, ok 0)

  abbrev pub nothing_sent : W × Result Stop ℕ → W × Result Stop ℕ
  nothing_sent (w, raise _) = (w, raise refused)
  nothing_sent (w, ok rc) = (w, ok rc)

module _ {ℓ} {W : Type ℓ} (aws : Aws W) where
  unfoldable pub tables_after : Option Tables → W × Result Stop Bool → W × Result Stop ℕ
  unfolding tables_unless_published
  tables_after tables (w, raise stop) = (w, raise stop)
  tables_after tables (w, ok false) = (w, ok 1)
  tables_after none (w, ok true) = (w, ok 0)
  tables_after (some t) (w, ok true) = caught (tables_unless_published aws t true w)

  -- The index, once the check is done.
  unfoldable pub send_index : Run → W × Result Stop Bool → W × Result Stop ℕ
  unfolding tables_after shows_up
  send_index run (w, raise stop) = (w, raise stop)
  send_index run (w, ok false) = (w, ok 1)
  send_index run (w, ok true) =
      let (w', rc) = aws.copy w run.dst run.index run.index_size in
      let (w'', listed) = aws.listing w' run.dst in
      if rc == 0
      then tables_after run.tables (w'', shows_up run.index run.index_size listed)
      else (w', ok 1)

  unfoldable pub send_run : Run → W → W × Result Stop ℕ
  unfolding send_index check_upload
  send_run run w =
      let (w', rc) = aws.sync w run.dst run.items run.index in
      if rc == 0
      then send_index run (check_upload aws run.items run.dst run.index [] w')
      else (w', ok 1)

  unfoldable pub try_run : Run → W → W × Result Stop ℕ
  unfolding tables_unless_published
  try_run run w =
      let (w', rc) = aws.dry_run w run.dst run.items run.index in
      if rc == 0
      then elim run.tables [
        | none ↦ (w', ok 0)
        | some t ↦ tried (tables_unless_published aws t false w')
      ]
      else (w', raise refused)

  -- A run that is up may still lack its tables.
  unfoldable pub resume : Option Tables → Bool → W → W × Result Stop ℕ
  unfolding publish_tables
  resume none upload w = (w, raise refused)
  resume (some t) upload w = nothing_sent (publish_tables aws t upload w)

  unfoldable pub with_listing : Run → Bool → W × Option Files → W × Result Stop ℕ
  unfolding send_run try_run resume among
  with_listing run upload (w, none) = (w, raise refused)
  with_listing run upload (w, some already) =
      if among run.index (names_of already)
      then resume run.tables upload w
      else if run.graphs_differ
      then (w, raise refused)
      else if run.linked
      then (w, raise refused)
      else if upload
      then send_run run w
      else try_run run w

  unfoldable pub publish : Run → Bool → W → W × Result Stop ℕ
  unfolding with_listing
  publish run upload w =
      if run.sources_unknown
      then (w, raise refused)
      else with_listing run upload (aws.listing w run.dst)
