-- ===== src/Tests/Fetch.antt =====
-- The theorems on the generator and on the fetch of a snapshot at a body with one checkpoint, one entity
-- and the done line.
use wdxref.Base.{
  ◌≡◌, refl, true, false, some, List, [], ◌∷◌, ◌++◌, Bytes, codes, beq, if◌then◌else◌, ok,
  index_byte, contains, All, arith, Result,
}
use mathlib.Core.Path.{subst}
use wdxref.Base.Int.{pos, ◌+ℤ◌}
use wdxref.Strconv.{parse_int, parse_uint, checked, format_int, format_uint}
use wdxref.Store.Scripts.{upsert, add_idx, each_entry, parse_entry, publish, reindex, without}
use wdxref.Store.Words.{words, concat}
use wdxref.Store.Ids.{qid_to_int, int_to_qid}
use wdxref.Store.Pipe.{
  exec, run_command, run_commands, upsert_raw_entity, new_pipe, set_sync_state, upsert_raw_commands,
}
use wdxref.Replicate.Protocol.{
  ControlJson, classify_snapshot_line, parse_snapshot_entity_line, parse_snapshot_control,
  parse_snapshot_checkpoint, parse_snapshot_done, type_checkpoint, type_done,
  append_snapshot_checkpoint_line, append_snapshot_done_line, append_snapshot_entity_line,
}
use wdxref.Replica.Fetch.{
  Fetch, read_body, read_lines, read_line, flush_batch, save_resume, fill_batch,
}
use wdxref.Replica.Fetch.Lines.{IsDone}
use wdxref.Replica.Fetch.Applied.{lines_effect}
use wdxref.Replica.Fetch.Accepted.{entity_lines, read_body-IsDone}
use wdxref.Replicate.Snapshot.{
  SnapshotEntity, SnapshotMeta, Page, generate, write_pages, write_entities, write_entity,
}
use wdxref.Replicate.Snapshot.Counted.{HasId, HasIds, generate-IsCounted}
use wdxref.Tests.Server.{memory, empty, decode_text, field}

-- Two control lines are known: "{c" is a checkpoint, every other one the done line.
abbrev two_lines : ControlJson
two_lines = record {
  marshal_checkpoint = λ c. some (codes "{c");
  marshal_done = λ d. some (codes "{d");
  unmarshal_control = λ line. some (record {
    type = if beq line (codes "{c") then type_checkpoint else type_done;
    version = pos 1;
  });
  unmarshal_checkpoint = λ line.
      some (record {
        type = type_checkpoint;
        version = pos 1;
        offset = pos 0;
        entities_before = pos 0;
      });
  unmarshal_done = λ line.
      some
        (record { type = type_done; version = pos 1; stream_id = codes "17-0"; entities = pos 1 });
}

abbrev body : List Bytes
body = codes "{c" ∷ codes "42 P345:tt1" ∷ codes "{d" ∷ []

abbrev accepted : Fetch
accepted = record { applied = 1; pending = []; seen_done = true; snapshot_id = codes "17-0" }

body_run : (read_body memory two_lines (pos 0) body false empty).0 ≡ ok accepted
unfolding read_body read_lines read_line flush_batch save_resume fill_batch classify_snapshot_line
    parse_snapshot_control beq parse_snapshot_checkpoint ◌+ℤ◌ parse_snapshot_entity_line index_byte
    checked parse_int exec upsert_raw_entity new_pipe qid_to_int int_to_qid format_int run_commands
    run_command contains parse_snapshot_done set_sync_state upsert_raw_commands add_idx each_entry
    parse_entry publish reindex upsert without concat words format_uint parse_uint decode_text field
body_run = refl

read_body-IsDone_example :
    (false ≡ false)
    × ((read_body memory two_lines (pos 0) body false empty).1
        ≡ lines_effect memory two_lines (pos 0) body empty)
    × (accepted.applied ≡ entity_lines body)
    × (front : List Bytes) × (last : Bytes) × (body ≡ front ++ last ∷ [])
    × IsDone memory two_lines (pos 0) last accepted
read_body-IsDone_example =
    read_body-IsDone memory two_lines (pos 0) body false empty accepted body_run

abbrev film : List SnapshotEntity
film = record { qid = pos 42; raw_mappings = codes "P345:tt1" } ∷ []

abbrev page : Page
page = record { cancelled = false; reply = ok (film, 0) }

abbrev meta : SnapshotMeta
meta = record { file = codes "snapshot-1.zst"; id = codes "17-0" }

abbrev file : List Bytes
file = codes "{c\n" ∷ codes "42 P345:tt1\n" ∷ codes "{d\n" ∷ []

abbrev position : Result Bytes Bytes
position = ok (codes "17-0")

generate_run :
    generate two_lines (λ w. 0) position (codes "snapshot-1.zst") (page ∷ []) ≡ ok (file, meta)
unfolding generate write_pages write_entities write_entity append_snapshot_checkpoint_line
    append_snapshot_done_line append_snapshot_entity_line format_int format_uint
generate_run = refl

page-HasIds : HasIds page
page-HasIds ents next e =
    let same : film ≡ ents = ground arith in subst (All HasId) same ((42, refl), tt)

generate-IsCounted_example :
    (position ≡ ok meta.id)
    × (front : List Bytes) × (last : Bytes) × (file ≡ front ++ last ∷ [])
    × (append_snapshot_done_line two_lines meta.id (pos (entity_lines front)) ≡ ok last)
generate-IsCounted_example =
    generate-IsCounted two_lines (λ c text e. (codes "c", (let f = e in ground arith))) (λ w. 0)
      position (codes "snapshot-1.zst") (page ∷ []) file meta (page-HasIds, tt) generate_run
