-- ===== src/Watcher/Seed/Finished.antt =====
-- When a seed has to be done again: after every one that did not come to its end.
use wdxref.Base.{
  ◌≡◌, refl, ◌∙◌, true, false, ◌⊎◌, inl, inr, Option, none, some, [], Bytes, codes, beq, beq_refl,
  Bool-cases, Result, ok, err,
}
use wdxref.Store.Kvrocks.{Kvrocks, HashLaws}
use wdxref.Store.Scripts.{meta_key}
use wdxref.Store.Reader.{get_sync_state}
use wdxref.Store.Queue.{flush_data}
use wdxref.Store.Pipe.{
  StoreError, MappingsJson, new_pipe, set_sync_state, exec, run_commands, run_command,
}
use wdxref.Watcher.Claims.{WikidataJson}
use wdxref.Watcher.Dump.{DumpError, DumpStream, process_dump_stream}
use wdxref.Watcher.Dump.Kept.{process_dump_stream-Keeps}
use wdxref.Watcher.Seed.{
  Flushing, flush_done, not_flushed, version_not_set, seed_flushed, SeedError, Sources, dump_time,
  config_hash, needs_seed, seed, seed_opened, seed_started, seed_import, seed_finished,
}

module _ (s : Kvrocks) where
  -- The outcome of a pipe that sets one value.
  set_outcome : Option StoreError → Bytes → Bytes → s.Db → Option StoreError × s.Db
  set_outcome (some e) k v d = (some e, d)
  set_outcome none k v d = (none, s.hset d meta_key k v)

  exec-set :
      (l : Option StoreError) (k v : Bytes) (d : s.Db)
      → exec s (set_sync_state k v (new_pipe l)) d ≡ set_outcome l k v d
  unfolding exec new_pipe set_sync_state set_outcome run_commands run_command
  exec-set none k v d = refl
  exec-set (some e) k v d = refl

  set_both : Option StoreError → Bytes → Bytes → Bytes → Bytes → s.Db → Option StoreError × s.Db
  set_both (some e) k v k' v' d = (some e, d)
  set_both none k v k' v' d = (none, s.hset (s.hset d meta_key k v) meta_key k' v')

  exec-set_both :
      (l : Option StoreError) (k v k' v' : Bytes) (d : s.Db)
      → exec s (set_sync_state k' v' (set_sync_state k v (new_pipe l))) d ≡ set_both l k v k' v' d
  unfolding exec new_pipe set_sync_state set_both run_commands run_command
  exec-set_both none k v k' v' d = refl
  exec-set_both (some e) k v k' v' d = refl

  stored :
      (k : Bytes) (d : s.Db) (v : Option Bytes)
      → s.hget d meta_key k ≡ v
      → get_sync_state s k d ≡ elim v [ none ↦ [] | some x ↦ x ]
  unfolding get_sync_state
  stored k d v h = rw (h, get_sync_state) refl

  needed :
      (fingerprint : Bytes) (d : s.Db)
      → s.hget d meta_key dump_time ≡ none
      → needs_seed s fingerprint d ≡ true
  unfolding needs_seed beq
  needed fingerprint d h = rw (stored dump_time d none h, needs_seed) refl

  not_needed :
      (fingerprint time : Bytes) (d : s.Db)
      → s.hget d meta_key dump_time ≡ some time
      → beq time [] ≡ false
      → s.hget d meta_key config_hash ≡ some fingerprint
      → needs_seed s fingerprint d ≡ false
  unfolding needs_seed
  not_needed fingerprint time d h filled g =
      rw
        (
          stored dump_time d (some time) h,
          needs_seed,
          filled,
          stored config_hash d (some fingerprint) g,
          beq_refl fingerprint,
        )
        refl

  -- What holds after a seed: when it returns no error, no seed is needed; when it returns one, the
  -- store is as before, or a seed is needed.
  abbrev pub IsSettled : Bytes → s.Db → Option SeedError × s.Db → Type 0
  IsSettled fingerprint d (none, d') = needs_seed s fingerprint d' ≡ false
  IsSettled fingerprint d (some e, d') = (d' ≡ d) ⊎ (needs_seed s fingerprint d' ≡ true)

module _ (s : Kvrocks) (laws : HashLaws s) (j : MappingsJson s) (json : WikidataJson)
    (sources : Sources) (version fingerprint : Bytes)
    (filled : (date time : Bytes) → sources.sync_time date ≡ some time → beq time [] ≡ false) where
  -- The state that Seed sets before the import.
  record IsStarted (d : s.Db) : Type 0 where
    no_time : s.hget d meta_key dump_time ≡ none
    marked : s.hget d meta_key config_hash ≡ some fingerprint

  finish_outcome :
      (l : Option StoreError) (time : Bytes) (d0 d : s.Db)
      → sources.finishing ≡ l
      → beq time [] ≡ false
      → IsStarted d
      → IsSettled s fingerprint d0
          (seed_finished s j json sources version fingerprint time (none, d))
  unfolding seed_finished set_outcome beq
  finish_outcome none time d0 d same full started =
      rw (exec-set s sources.finishing dump_time time d, same)
        (not_needed s fingerprint time (s.hset d meta_key dump_time time)
          (laws.hget-hset _ _ _ _ _ _) full (laws.hget-hset _ _ _ _ _ _ ∙ started.marked))
  finish_outcome (some e) time d0 d same full started =
      rw (exec-set s sources.finishing dump_time time d, same)
        (inr (needed s fingerprint d started.no_time))

  finished-IsSettled :
      (time : Bytes) (d0 : s.Db) (run : Option DumpError × s.Db)
      → beq time [] ≡ false
      → IsStarted run.1
      → IsSettled s fingerprint d0 (seed_finished s j json sources version fingerprint time run)
  unfolding seed_finished
  finished-IsSettled time d0 (none, d) full started =
      finish_outcome sources.finishing time d0 d refl full started
  finished-IsSettled time d0 (some e, d) full started = inr (needed s fingerprint d started.no_time)

  import-IsSettled :
      (dump : DumpStream) (date : Bytes) (time : Option Bytes) (d0 d : s.Db)
      → sources.sync_time date ≡ time
      → IsStarted d
      → IsSettled s fingerprint d0
          (seed_import s j json sources version fingerprint dump date time d)
  unfolding seed_import beq
  import-IsSettled dump date none d0 d same started = inr (needed s fingerprint d started.no_time)
  import-IsSettled dump date (some time) d0 d same started =
      finished-IsSettled time d0 (process_dump_stream s j sources.writing json dump d)
        (filled date time same)
        (record {
          no_time =
              process_dump_stream-Keeps s laws dump_time refl j sources.writing json dump d
              ∙ started.no_time;
          marked =
              process_dump_stream-Keeps s laws config_hash refl j sources.writing json dump d
              ∙ started.marked;
        })

  flushed_time : (d : s.Db) → s.hget (flush_data s version d) meta_key dump_time ≡ none
  unfolding flush_data beq
  flushed_time d = laws.hget-hset _ _ _ _ _ _ ∙ laws.hget-flushdb _ _ _

  started-IsSettled :
      (l : Option StoreError) (dump : DumpStream) (d0 d : s.Db)
      → s.hget d meta_key dump_time ≡ none
      → IsSettled s fingerprint d0 (
          seed_started s j json sources version fingerprint dump
            (set_both s l config_hash fingerprint (codes "state") (codes "seeding") d))
  unfolding seed_started set_both beq
  started-IsSettled (some e) dump d0 d h = inr (needed s fingerprint d h)
  started-IsSettled none dump d0 d h =
      let date = sources.located.1 in
      import-IsSettled dump date (sources.sync_time date) d0 _ refl (record {
        no_time = laws.hget-hset _ _ _ _ _ _ ∙ laws.hget-hset _ _ _ _ _ _ ∙ h;
        marked = laws.hget-hset _ _ _ _ _ _ ∙ laws.hget-hset _ _ _ _ _ _;
      })

  flushed-IsSettled :
      (flushing : Flushing) (dump : DumpStream) (d : s.Db)
      → IsSettled s fingerprint d
          (seed_flushed s j json sources version fingerprint flushing dump d)
  unfolding seed_flushed
  flushed-IsSettled not_flushed dump d = inl refl
  flushed-IsSettled version_not_set dump d =
      inr (needed s fingerprint (s.flushdb d) (laws.hget-flushdb _ _ _))
  flushed-IsSettled flush_done dump d =
      rw
        (exec-set_both s sources.starting config_hash fingerprint (codes "state") (codes "seeding")
          (flush_data s version d))
        (started-IsSettled sources.starting dump d (flush_data s version d) (flushed_time d))

  opened-IsSettled :
      (opened : Result Bytes DumpStream) (d : s.Db)
      → IsSettled s fingerprint d (seed_opened s j json sources version fingerprint opened d)
  unfolding seed_opened
  opened-IsSettled (err e) d = inl refl
  opened-IsSettled (ok dump) d = flushed-IsSettled sources.flushing dump d

  -- After a seed that returns no error, no seed is needed; after one that returns an error, the store is
  -- as before or a seed is needed, wherever it stopped: at the flush, at a pipe, at the date, at a batch of
  -- the import, at a dump that breaks off or with the context cancelled; under the condition that the text
  -- of a time is not empty.
  pub seed-IsSettled :
      (d : s.Db) → IsSettled s fingerprint d (seed s j json sources version fingerprint d)
  unfolding seed
  seed-IsSettled d = elim (Bool-cases (beq sources.located.0 [])) [
    | inl missing ↦ rw (missing, seed) (inl refl)
    | inr there ↦ rw (there, seed) (opened-IsSettled (sources.open_dump_stream sources.located.0) d)
  ]
