-- ===== src/Publish.antt =====
-- bin/publish_run.py: how a run's files and its day's tables are sent, over what the run left behind. The
-- aws command line is an argument, which also says what becomes of the destination, `W`: others may
-- write there too. A file is its published name and its size. The log and the contents of the markers
-- are left out, and the items that are sent are not empty, as the callers see to.
pub mod Listed
pub mod Complete
pub mod Run
pub mod Day
use pyg_knowledge_graph_buil.Base.{
  ℕ, zero, suc, [], ◌∷◌, true, false, none, some, inl, inr, refl, List, Bool, if◌then◌else◌, not,
  ◌&&◌, Option, ◌==◌, all,
}
use pyg_knowledge_graph_buil.Base.Texts.{Text, text_eq, among, contains}
use pyg_knowledge_graph_buil.Base.Result.{Result, ok, raise}
use pyg_knowledge_graph_buil.Base.Dict.{select}
use pyg_knowledge_graph_buil.Sources.{names_of, is_none}

-- The exceptions Refused and Failed.
pub data Stop : Type 0 where
  refused failed : Stop

abbrev pub Files : Type 0
Files = List (Text × ℕ)

-- The calls of aws, each with the destination's folder: its listing (none where aws fails), sync and its
-- dry run with the name left out, and cp of a marker of a size. The last three give a return code. The
-- command is on the PATH, and a sync with --size-only and one without are the same call here.
pub record Aws {ℓ} (W : Type ℓ) : Type ℓ where
  pub listing : W → Text → W × Option Files
  pub sync : W → Text → Files → Text → W × ℕ
  pub dry_run : W → Text → Files → Text → W × ℕ
  pub copy : W → Text → Text → ℕ → W × ℕ

-- `have[name][0]`, if the name is listed
unfoldable pub size_of : Text → Files → Option ℕ
unfolding text_eq
size_of name [] = none
size_of name ((n, size) ∷ have) = if text_eq n name then some size else size_of name have

abbrev pub same_size : Option ℕ → ℕ → Bool
same_size none size = false
same_size (some s) size = s == size

abbrev pub is_there : Option ℕ → Bool
is_there none = false
is_there (some _) = true

abbrev pub has_size : Files → Text × ℕ → Bool
has_size have item = same_size (size_of item.0 have) item.1

abbrev pub is_listed : Files → Text × ℕ → Bool
is_listed have item = is_there (size_of item.0 have)

-- The listed files whose names hold the scope, or all of them where it is empty.
unfoldable pub in_scope : Text → Files → Files
unfolding contains
in_scope [] have = have
in_scope (c ∷ scope) have = select (λ file. contains (c ∷ scope) file.0) have

-- Whether nothing is missing, of a wrong size, or unexpected.
unfoldable pub agrees : Files → Text → Files → Bool
unfolding among size_of text_eq
agrees items marker have =
    let missing = select (λ item. not (is_listed have item)) items in
    let wrong = select (λ item. is_listed have item && not (has_size have item)) items in
    let extra =
      select (λ file. not (among file.0 (names_of items)) && not (text_eq file.0 marker)) have in
    is_none missing && is_none wrong && is_none extra

-- A day of tables: its files, where they go, the marker and its size, and the scope `day=.../` that the
-- names of a day's files hold. `linked` says that the upload tree's folder is a symlink.
pub record Tables : Type 0 where
  pub items : Files
  pub dst : Text
  pub marker : Text
  pub marker_size : ℕ
  pub scope : Text
  pub linked : Bool

pub data Publisher : Type 0 where
  nobody this_run another_run : Publisher

-- What `check_upload` makes of a listing.
unfoldable pub verdict : Files → Text → Text → Option Files → Result Stop Bool
unfolding agrees in_scope
verdict items marker scope none = raise failed
verdict items marker scope (some have) = ok (agrees items marker (in_scope scope have))

-- What `day_published_by` makes of a listing.
unfoldable pub publisher : Tables → Option Files → Result Stop Publisher
unfolding among size_of
publisher t none = raise failed
publisher t (some have) =
    if not (among t.marker (names_of have))
    then ok nobody
    else if all (has_size have) t.items
    then ok this_run
    else ok another_run

module _ {ℓ} {W : Type ℓ} (aws : Aws W) where
  -- `check_upload`
  unfoldable pub check_upload : Files → Text → Text → Text → W → W × Result Stop Bool
  unfolding verdict
  check_upload items dst marker scope w =
      let (w', listed) = aws.listing w dst in (w', verdict items marker scope listed)

  -- The marker, once the check is done.
  unfoldable pub send_marker : Text → Text → ℕ → W × Result Stop Bool → W × Result Stop ℕ
  send_marker dst marker size (w, raise stop) = (w, raise stop)
  send_marker dst marker size (w, ok false) = (w, ok 1)
  send_marker dst marker size (w, ok true) =
      let (w', rc) = aws.copy w dst marker size in if rc == 0 then (w', ok 0) else (w', ok 1)

  -- The upload of `publish_tables`.
  unfoldable pub send_tables : Tables → W → W × Result Stop ℕ
  unfolding check_upload send_marker
  send_tables t w =
      let (w', rc) = aws.sync w t.dst t.items t.marker in
      if rc == 0
      then send_marker t.dst t.marker t.marker_size (check_upload t.items t.dst t.marker t.scope w')
      else (w', ok 1)

  -- Its dry run.
  unfoldable pub try_tables : Tables → W → W × Result Stop ℕ
  try_tables t w =
      let (w', rc) = aws.dry_run w t.dst t.items t.marker in
      if rc == 0 then (w', ok 0) else (w', raise refused)

  -- What `publish_tables` does with the listing.
  unfoldable pub go_ahead : Tables → Bool → W × Option Files → W × Result Stop ℕ
  unfolding send_tables try_tables among
  go_ahead t upload (w, none) = (w, raise failed)
  go_ahead t upload (w, some already) =
      if among t.marker (names_of already)
      then (w, raise refused)
      else if upload
      then send_tables t w
      else try_tables t w

  unfoldable pub publish_tables : Tables → Bool → W → W × Result Stop ℕ
  unfolding go_ahead
  publish_tables t upload w =
      if t.linked then (w, raise refused) else go_ahead t upload (aws.listing w t.dst)

  -- `day_published_by`
  unfoldable pub day_published_by : Tables → W → W × Result Stop Publisher
  unfolding publisher
  day_published_by t w = let (w', listed) = aws.listing w t.dst in (w', publisher t listed)

  unfoldable pub unless_published : Tables → Bool → W × Result Stop Publisher → W × Result Stop ℕ
  unfolding publish_tables
  unless_published t upload (w, raise stop) = (w, raise stop)
  unless_published t upload (w, ok nobody) = publish_tables t upload w
  unless_published t upload (w, ok this_run) = (w, ok 0)
  unless_published t upload (w, ok another_run) = (w, ok 0)

  -- `tables_unless_published`
  unfoldable pub tables_unless_published : Tables → Bool → W → W × Result Stop ℕ
  unfolding unless_published day_published_by
  tables_unless_published t upload w = unless_published t upload (day_published_by t w)
