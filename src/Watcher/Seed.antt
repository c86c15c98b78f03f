-- ===== src/Watcher/Seed.antt =====
-- NeedsSeed and Seed of internal/watcher/seed.go. The search for a dump, the download with its
-- decompression and the reading of dates are arguments; `version` is SchemaVersion(), `fingerprint` is
-- configFingerprint().
pub mod Finished
use wdxref.Base.{
  ℕ, ◌≡◌, refl, Bool, true, false, not, Option, none, some, List, [], ◌∷◌, Bytes, codes, beq,
  if◌then◌else◌, Result, ok, err,
}
use wdxref.Store.Kvrocks.{Kvrocks}
use wdxref.Store.Reader.{get_sync_state}
use wdxref.Store.Queue.{flush_data}
use wdxref.Store.Pipe.{StoreError, MappingsJson, new_pipe, set_sync_state, exec}
use wdxref.Watcher.Claims.{WikidataJson}
use wdxref.Watcher.Dump.{DumpError, DumpStream, process_dump_stream}

abbrev pub dump_time : Bytes
dump_time = codes "dump_time"

abbrev pub config_hash : Bytes
config_hash = codes "config_hash"

-- The errors of Seed; `download` carries the text of the one of opening the dump.
pub data SeedError : Type 0 where
  no_dump : SeedError
  download : Bytes → SeedError
  flush_failed : SeedError
  set_seed_state : StoreError → SeedError
  bad_date : Bytes → SeedError
  import_dump : DumpError → SeedError
  set_dump_time : StoreError → SeedError

-- What comes of FlushDataContext: it may fail at the flush, or at the version behind it.
pub data Flushing : Type 0 where
  flush_done : Flushing
  not_flushed : Flushing
  version_not_set : Flushing

-- What the rest of the program gives to Seed.
pub record Sources : Type 0 where
  -- The locator: the URL and the date; an empty URL stands for no dump.
  pub located : Bytes × Bytes
  -- The lines of the opened dump, at a URL, and how they end.
  pub open_dump_stream : Bytes → Result Bytes DumpStream
  -- The time of a date as RFC 3339.
  pub sync_time : Bytes → Option Bytes
  pub flushing : Flushing
  -- The errors that keep a pipe from being sent, such as one of loading the scripts or a cancelled context, for the pipes of Seed and for each attempt of the writer.
  pub starting : Option StoreError
  pub writing : ℕ → Option StoreError
  pub finishing : Option StoreError

module _ (s : Kvrocks) (fingerprint : Bytes) where
  -- NeedsSeed
  unfoldable pub needs_seed : s.Db → Bool
  unfolding beq get_sync_state
  needs_seed db =
      if beq (get_sync_state s dump_time db) []
      then true
      else not (beq (get_sync_state s config_hash db) fingerprint)

module _ (s : Kvrocks) (j : MappingsJson s) (json : WikidataJson) (sources : Sources)
    (version fingerprint : Bytes) where
  -- From the outcome of the import on.
  seed_finished : Bytes → Option DumpError × s.Db → Option SeedError × s.Db
  unfolding new_pipe set_sync_state exec
  seed_finished time (some e, db) = (some (import_dump e), db)
  seed_finished time (none, db) =
      let (outcome, db') = exec s (set_sync_state dump_time time (new_pipe sources.finishing)) db in
      (elim outcome [ none ↦ none | some e ↦ some (set_dump_time e) ], db')

  -- The import, behind the reading of the date.
  seed_import : DumpStream → Bytes → Option Bytes → s.Db → Option SeedError × s.Db
  unfolding process_dump_stream seed_finished
  seed_import dump date none db = (some (bad_date date), db)
  seed_import dump date (some time) db =
      seed_finished time (process_dump_stream s j sources.writing json dump db)

  -- From the outcome of setting the state on.
  seed_started : DumpStream → Option StoreError × s.Db → Option SeedError × s.Db
  unfolding seed_import
  seed_started dump (some e, db) = (some (set_seed_state e), db)
  seed_started dump (none, db) =
      let date = sources.located.1 in seed_import dump date (sources.sync_time date) db

  -- From the flush on.
  seed_flushed : Flushing → DumpStream → s.Db → Option SeedError × s.Db
  unfolding flush_data new_pipe set_sync_state exec seed_started
  seed_flushed not_flushed dump db = (some flush_failed, db)
  seed_flushed version_not_set dump db = (some flush_failed, s.flushdb db)
  seed_flushed flush_done dump db = seed_started dump (
      exec s
        (set_sync_state (codes "state") (codes "seeding")
          (set_sync_state config_hash fingerprint (new_pipe sources.starting)))
        (flush_data s version db))

  -- From the opened dump on.
  seed_opened : Result Bytes DumpStream → s.Db → Option SeedError × s.Db
  unfolding seed_flushed
  seed_opened (err e) db = (some (download e), db)
  seed_opened (ok dump) db = seed_flushed sources.flushing dump db

  -- Seed
  unfoldable pub seed : s.Db → Option SeedError × s.Db
  unfolding beq seed_opened
  seed db =
      let url = sources.located.0 in
      if beq url [] then (some no_dump, db) else seed_opened (sources.open_dump_stream url) db
