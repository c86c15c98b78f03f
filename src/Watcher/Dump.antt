-- ===== src/Watcher/Dump.antt =====
-- The seeding of internal/watcher/seed.go: processDumpStream with its background writer.
-- `loading` is the error of loading the scripts for each attempt to write. The lines are the ones that
-- the scanner gives; the counts that are logged are left out.
pub mod Kept
pub mod Lines
use wdxref.Base.{
  take, ℕ, zero, suc, ◌+◌, ◌*◌, ◌^◌, ◌-◌, ◌≡◌, refl, Bool, true, false, ◌||◌, not, Option, none,
  some, List, [], ◌∷◌, ◌++◌, Bytes, codes, beq, ltb, leb, ◌==◌, length, if◌then◌else◌, Result, ok,
  err,
}
use wdxref.Base.Strings.{trim_left, trim_right, trim_space}
use wdxref.Store.Kvrocks.{Kvrocks}
use wdxref.Store.Pipe.{StoreError, MappingsJson, EntityRecord, new_pipe, exec}
use wdxref.Watcher.Claims.{WikidataJson, parse_entity_json}
use wdxref.Watcher.Processor.{upsert_each}
use wdxref.Watcher.Wikidata.{second}

abbrev pub dump_batch_size : ℕ
dump_batch_size = 2000

abbrev pub dump_max_line_size : ℕ
dump_max_line_size = 4 * 2 ^ 20

abbrev pub dump_write_max_retries : ℕ
dump_write_max_retries = 5

-- dumpWriteRetryDelay
unfoldable pub dump_write_retry_delay : ℕ → ℕ
dump_write_retry_delay zero = 0
dump_write_retry_delay (suc attempt) = 2 * second * 2 ^ attempt

-- The byte of a comma at the end of a line is cut off.
unfoldable pub cut_comma : Bytes → Bytes
cut_comma [] = []
cut_comma (b ∷ []) = if b == b',' then [] else b ∷ []
cut_comma (b ∷ c ∷ line) = b ∷ cut_comma (c ∷ line)

-- The tests of a trimmed line, and what is parsed of it.
unfoldable pub entity_text : Bytes → Option Bytes
unfolding cut_comma
entity_text [] = none
entity_text (b ∷ line) =
    if b == b'[' || (b == b']')
    then none
    else if ltb dump_max_line_size (length (b ∷ line))
    then none
    else some (cut_comma (b ∷ line))

-- How the loop over the lines ends: with the text, with an error of the scanner (a download that breaks, a
-- text that cannot be decompressed, a line that is too long for it), or with a cancelled context, when the
-- writer has taken so many records and can write no more.
pub data DumpEnd : Type 0 where
  all_read : DumpEnd
  scan_broken : DumpEnd
  cancelled_at : ℕ → DumpEnd

pub record DumpStream : Type 0 where
  pub lines : List Bytes
  pub end : DumpEnd

pub data DumpError : Type 0 where
  write_failed : StoreError → DumpError
  scan_failed : DumpError
  context_cancelled : DumpError

module _ (json : WikidataJson) where
  -- The entity of a text that could be parsed as an item.
  unfoldable pub parsed_record : Bytes → List EntityRecord
  unfolding parse_entity_json
  parsed_record text = elim (parse_entity_json json text) [
    | err e ↦ []
    | ok none ↦ []
    | ok (some (id, ms)) ↦ record { wikidata_id = id; mappings = ms } ∷ []
  ]

  abbrev pub record_of_text : Option Bytes → List EntityRecord
  record_of_text none = []
  record_of_text (some text) = parsed_record text

  -- The loop over the lines: the records that go to the writer, in order.
  unfoldable pub dump_records : List Bytes → List EntityRecord
  unfolding trim_left trim_right entity_text parsed_record
  dump_records [] = []
  dump_records (line ∷ lines) = record_of_text (entity_text (trim_space line)) ++ dump_records lines

module _ (s : Kvrocks) (j : MappingsJson s) (loading : ℕ → Option StoreError) where
  -- The loop of flush over its attempts, with so many left and the error of the one before.
  unfoldable pub write_attempts :
      ℕ → ℕ → List EntityRecord → Option StoreError → s.Db → Option StoreError × s.Db
  unfolding new_pipe upsert_each exec
  write_attempts zero attempt batch last db = (last, db)
  write_attempts (suc left) attempt batch last db =
      let (outcome, written) = exec s (upsert_each j batch (new_pipe (loading attempt))) db in
      elim outcome [
        | none ↦ (none, written)
        | some e ↦ write_attempts left (attempt + 1) batch (some e) written
      ]

  -- flush
  unfoldable pub flush_records : List EntityRecord → s.Db → Option StoreError × s.Db
  unfolding write_attempts
  flush_records [] db = (none, db)
  flush_records (rec ∷ recs) db = write_attempts dump_write_max_retries 0 (rec ∷ recs) none db

  -- The background writer: batches of records, and the rest at the end, unless a cancelled context stops
  -- it before; an error ends it.
  unfoldable pub write_records :
      Bool → List EntityRecord → List EntityRecord → s.Db → Option StoreError × s.Db
  unfolding flush_records
  write_records stopped [] batch db = if stopped then (none, db) else flush_records batch db
  write_records stopped (rec ∷ recs) batch db =
      let full = batch ++ rec ∷ [] in
      let (outcome, written) = flush_records full db in
      elim (leb dump_batch_size (length full)) [
        | true ↦ elim outcome [
          | none ↦ write_records stopped recs [] written
          | some e ↦ (some e, written)
        ]
        | false ↦ write_records stopped recs full db
      ]

  -- The tests behind the loop and the writer: the context, the writer's error, the scanner's error.
  abbrev dump_outcome : DumpEnd → Option StoreError → Option DumpError
  dump_outcome (cancelled_at taken) failed = some context_cancelled
  dump_outcome all_read (some e) = some (write_failed e)
  dump_outcome all_read none = none
  dump_outcome scan_broken (some e) = some (write_failed e)
  dump_outcome scan_broken none = some scan_failed

  abbrev pub is_cancelled : DumpEnd → Bool
  is_cancelled (cancelled_at taken) = true
  is_cancelled _ = false

  -- What the writer takes of the records.
  abbrev pub taken_of : DumpEnd → List EntityRecord → List EntityRecord
  taken_of (cancelled_at taken) recs = take taken recs
  taken_of _ recs = recs

  -- processDumpStream, on the lines that are read.
  unfoldable pub process_dump_stream : WikidataJson → DumpStream → s.Db → Option DumpError × s.Db
  unfolding dump_records write_records
  process_dump_stream json dump db =
      let (failed, written) =
        write_records (is_cancelled dump.end) (taken_of dump.end (dump_records json dump.lines)) []
          db in
      (dump_outcome dump.end failed, written)
