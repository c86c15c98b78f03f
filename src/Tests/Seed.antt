-- ===== src/Tests/Seed.antt =====
-- The theorems on the seeding at concrete inputs.
use wdxref.Base.{
  ◌≡◌, refl, true, false, none, some, List, [], ◌∷◌, Bytes, codes, beq, arith, if◌then◌else◌, ok,
}
use wdxref.Store.Ids.{qid_to_int}
use wdxref.Store.Scripts.{upsert, reindex, each_entry}
use wdxref.Store.Pipe.{run_commands, run_command, validate_entries}
use wdxref.Tests.Server.{memory, empty, memory_hashes, commas, field, decode_text}
use wdxref.Watcher.Claims.{WikidataJson}
use wdxref.Watcher.Dump.{dump_records, all_read}
use wdxref.Watcher.Dump.Lines.{dump_lines, records_of, dump_records-dump_lines}
use wdxref.Watcher.Seed.{flush_done, Sources, seed, needs_seed}
use wdxref.Watcher.Seed.Finished.{IsSettled, seed-IsSettled}

abbrev film_object : Bytes
film_object = codes "{film}"

-- A decoder of a dump with one item.
abbrev dump_decoder : WikidataJson
dump_decoder = record {
  string_of = λ raw. some raw;
  entity_of = λ raw. if beq raw film_object then some (codes "Q172241", []) else none;
}

abbrev two_objects : List Bytes
two_objects = film_object ∷ codes "{}" ∷ []

dump_records_runs :
    dump_records dump_decoder (codes "[" ∷ codes " {film}, " ∷ codes "{}" ∷ codes "]" ∷ [])
    ≡ record { wikidata_id = codes "Q172241"; mappings = [] } ∷ []
unfolding dump_records
dump_records_runs = refl

dump_records-dump_lines_example :
    dump_records dump_decoder (dump_lines two_objects) ≡ records_of dump_decoder two_objects
dump_records-dump_lines_example = dump_records-dump_lines dump_decoder two_objects (
  record { inner = codes "film"; braces = refl; short = omega arith },
  (record { inner = []; braces = refl; short = omega arith }, tt),
)

-- A dump of two objects, one of which is an item.
abbrev sources : Sources
sources = record {
  located = (codes "u", codes "20250101");
  open_dump_stream = λ url. ok (record { lines = dump_lines two_objects; end = all_read });
  sync_time = λ date. some (codes "2025-01-01T00:00:00Z");
  flushing = flush_done;
  starting = none;
  writing = λ attempt. none;
  finishing = none;
}

abbrev version : Bytes
version = codes "1"

abbrev fingerprint : Bytes
fingerprint = codes "f"

-- The empty store needs a seed, and one that was seeded does not.
needs_seed-empty : needs_seed memory fingerprint empty ≡ true
unfolding needs_seed field
needs_seed-empty = refl

seeded_needs_none :
    needs_seed memory fingerprint
      (seed memory commas dump_decoder sources version fingerprint empty).1
    ≡ false
unfolding needs_seed seed field run_commands run_command qid_to_int validate_entries upsert
    decode_text reindex each_entry
seeded_needs_none = refl

times_filled : (date time : Bytes) → sources.sync_time date ≡ some time → beq time [] ≡ false
unfolding beq
times_filled date [] e = absurd (ground arith)
times_filled date (b ∷ time) e = refl

seed-IsSettled_example :
    IsSettled memory fingerprint empty
      (seed memory commas dump_decoder sources version fingerprint empty)
seed-IsSettled_example =
    seed-IsSettled memory memory_hashes commas dump_decoder sources version fingerprint times_filled
      empty
