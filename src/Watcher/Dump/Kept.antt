-- ===== src/Watcher/Dump/Kept.antt =====
-- What the writer of a dump leaves of the sync state.
use wdxref.Base.{
  Bool, true, false, ℕ, zero, suc, ◌+◌, ◌≡◌, refl, ◌∙◌, false, Option, none, some, List, [], ◌∷◌,
  ◌++◌, Bytes, beq, All, All-append, arith, Bool-cases, Option-cases, Result-cases, inl, inr,
  Result, ok, err, leb, length,
}
use wdxref.Store.Kvrocks.{Kvrocks, HashLaws}
use wdxref.Store.Scripts.{entity_count}
use wdxref.Store.Scripts.Meta.{Keeps, upsert-Keeps}
use wdxref.Store.Pipe.{
  canonical_mappings_json, Command, run_upsert, StoreError, Pipe, MappingsJson, EntityRecord,
  new_pipe, upsert_entity, upsert_commands, queue, eid_of, validate_entries, drop_reply,
  run_command, run_commands, exec,
}
use wdxref.Store.Scripts.{LuaError, upsert as upsert_script}
use wdxref.Watcher.Processor.{upsert_each}
use wdxref.Watcher.Claims.{WikidataJson}
use wdxref.Watcher.Dump.{
  dump_batch_size, dump_write_max_retries, write_attempts, flush_records, write_records,
  process_dump_stream, dump_records, DumpStream, is_cancelled, taken_of,
}

abbrev IsUpsert : Command → Type 0
IsUpsert c = (m : Bytes) × (eid : Bytes) × (c ≡ run_upsert m eid)

queue-IsUpsert :
    (cs : List Command) (error : Option StoreError) (outcome : Result StoreError (List Command))
    → All IsUpsert cs
    → ((more : List Command) → outcome ≡ ok more → All IsUpsert more)
    → All IsUpsert (queue outcome (record { queued = cs; error = error })).queued
queue-IsUpsert cs (some e) outcome h good = h
queue-IsUpsert cs none (err e) h good = h
queue-IsUpsert cs none (ok more) h good = All-append IsUpsert cs more h (good more refl)

module _ {s : Kvrocks} (j : MappingsJson s) where
  upsert_commands-IsUpsert :
      (rec : EntityRecord) (more : List Command)
      → upsert_commands j rec ≡ ok more
      → All IsUpsert more
  unfolding upsert_commands
  upsert_commands-IsUpsert rec more e = elim (Result-cases (eid_of rec.wikidata_id)) [
    | inr (x, bad) ↦ absurd (ground arith)
    | inl (eid, good) ↦ elim (Option-cases (validate_entries rec.wikidata_id rec.mappings)) [
      | inr (x, bad) ↦ absurd (ground arith)
      | inl valid ↦
          let m = canonical_mappings_json j rec.mappings in
          let q : run_upsert m eid ∷ [] ≡ more = ground arith in rw (← q) ((m, eid, refl), tt)
    ]
  ]

  upsert_each-IsUpsert :
      (recs : List EntityRecord) (p : Pipe)
      → All IsUpsert p.queued
      → All IsUpsert (upsert_each j recs p).queued
  unfolding upsert_each upsert_entity
  upsert_each-IsUpsert [] p h = h
  upsert_each-IsUpsert (rec ∷ recs) p h =
      upsert_each-IsUpsert recs (upsert_entity j rec p)
        (queue-IsUpsert p.queued p.error (upsert_commands j rec) h (upsert_commands-IsUpsert rec))

module _ (s : Kvrocks) (laws : HashLaws s) (f : Bytes) (other : beq entity_count f ≡ false) where
  state-drop_reply : (r : Result LuaError ℕ × s.Db) → (drop_reply s r).1 ≡ r.1
  state-drop_reply (ok n, d) = refl
  state-drop_reply (err e, d) = refl

  run_commands-Keeps :
      (cs : List Command) (d : s.Db)
      → All IsUpsert cs
      → Keeps s laws f other d (run_commands s cs d).1
  unfolding run_commands run_command
  run_commands-Keeps [] d h = refl
  run_commands-Keeps (c ∷ cs) d ((m, eid, e), h) =
      run_commands-Keeps cs (run_command s c d).1 h
      ∙ rw (e, state-drop_reply (upsert_script s m eid d)) (upsert-Keeps s laws f other m eid d)

  exec-Keeps :
      (cs : List Command) (error : Option StoreError) (d : s.Db)
      → All IsUpsert cs
      → Keeps s laws f other d (exec s (record { queued = cs; error = error }) d).1
  unfolding exec
  exec-Keeps cs (some e) d h = refl
  exec-Keeps cs none d h = run_commands-Keeps cs d h

  module _ (j : MappingsJson s) (loading : ℕ → Option StoreError) where
    batch-Keeps :
        (recs : List EntityRecord) (e : Option StoreError) (d : s.Db)
        → Keeps s laws f other d (exec s (upsert_each j recs (new_pipe e)) d).1
    unfolding new_pipe
    batch-Keeps recs e d =
        let p = upsert_each j recs (new_pipe e) in
        exec-Keeps p.queued p.error d (upsert_each-IsUpsert j recs (new_pipe e) tt)

    write_attempts-Keeps :
        (left attempt : ℕ) (batch : List EntityRecord) (last : Option StoreError) (d : s.Db)
        → Keeps s laws f other d (write_attempts s j loading left attempt batch last d).1
    unfolding write_attempts
    write_attempts-Keeps zero attempt batch last d = refl
    write_attempts-Keeps (suc left) attempt batch last d =
        let run = exec s (upsert_each j batch (new_pipe (loading attempt))) d in
        let here = batch-Keeps batch (loading attempt) d in
        elim (Option-cases run.0) [
          | inl fine ↦ rw (fine, write_attempts) here
          | inr (e, failed) ↦
              rw (failed, write_attempts)
                (write_attempts-Keeps left (attempt + 1) batch (some e) run.1 ∙ here)
        ]

    flush_records-Keeps :
        (batch : List EntityRecord) (d : s.Db)
        → Keeps s laws f other d (flush_records s j loading batch d).1
    unfolding flush_records
    flush_records-Keeps [] d = refl
    flush_records-Keeps (rec ∷ recs) d =
        write_attempts-Keeps dump_write_max_retries 0 (rec ∷ recs) none d

    write_records-Keeps :
        (stopped : Bool) (recs batch : List EntityRecord) (d : s.Db)
        → Keeps s laws f other d (write_records s j loading stopped recs batch d).1
    unfolding write_records
    write_records-Keeps true [] batch d = refl
    write_records-Keeps false [] batch d = flush_records-Keeps batch d
    write_records-Keeps stopped (rec ∷ recs) batch d =
        let full = batch ++ rec ∷ [] in
        let run = flush_records s j loading full d in
        elim (Bool-cases (leb dump_batch_size (length full))) [
          | inr more ↦ rw (more, write_records) (write_records-Keeps stopped recs full d)
          | inl enough ↦ elim (Option-cases run.0) [
            | inr (e, failed) ↦ rw (enough, write_records, failed) (flush_records-Keeps full d)
            | inl fine ↦
                rw (enough, write_records, fine)
                  (write_records-Keeps stopped recs [] run.1 ∙ flush_records-Keeps full d)
          ]
        ]

    pub process_dump_stream-Keeps :
        (json : WikidataJson) (dump : DumpStream) (d : s.Db)
        → Keeps s laws f other d (process_dump_stream s j loading json dump d).1
    unfolding process_dump_stream
    process_dump_stream-Keeps json dump d =
        write_records-Keeps (is_cancelled s j loading dump.end)
          (taken_of s j loading dump.end (dump_records json dump.lines)) [] d
