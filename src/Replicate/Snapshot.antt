-- ===== src/Replicate/Snapshot.antt =====
-- internal/replicate/snapshot.go: the generator of snapshot files, and their publication. The pages of
-- HSCAN are data; `compressed` is the number of bytes that zstd has written once a frame is closed. The
-- errors of the file system, each of which ends a run, are left out.
pub mod Current
pub mod Counted
use wdxref.Base.{
  ℕ, zero, suc, ◌+◌, Bool, true, false, Option, none, some, List, [], ◌∷◌, ◌++◌, Bytes, codes, beq,
  ◌==◌, if◌then◌else◌, Result, ok, err, ◌>>=◌,
}
use wdxref.Base.Int.{ℤ, pos, ltb_ℤ}
use wdxref.Replicate.Protocol.{
  ControlJson, ProtocolError, append_snapshot_checkpoint_line, append_snapshot_done_line,
  append_snapshot_entity_line,
}
use wdxref.Replicate.Cursor.{compare_stream_ids}

-- SnapshotFrameSize
abbrev pub snapshot_frame_size : ℕ
snapshot_frame_size = 10000

-- SnapshotEntity
pub record SnapshotEntity : Type 0 where
  pub qid : ℤ
  pub raw_mappings : Bytes

pub record SnapshotMeta : Type 0 where
  pub file : Bytes
  pub id : Bytes

-- A round of the scan: whether the context is done before it, and the reply, with the next cursor.
pub record Page : Type 0 where
  pub cancelled : Bool
  pub reply : Result Bytes (List SnapshotEntity × ℕ)

pub data GenerateError : Type 0 where
  stream_info changelog_empty cancelled unfinished : GenerateError
  encode : ProtocolError → GenerateError
  scan : Bytes → GenerateError

-- What was written, the entities in all, and those in the frame.
pub record Progress : Type 0 where
  pub written : List Bytes
  pub count : ℕ
  pub in_frame : ℕ

abbrev encoded : Result ProtocolError Bytes → Result GenerateError Bytes
encoded (ok line) = ok line
encoded (err e) = err (encode e)

module _ (j : ControlJson) (compressed : List Bytes → ℕ) where
  start_frame : Progress → Result GenerateError Progress
  start_frame g =
      encoded (append_snapshot_checkpoint_line j (pos (compressed g.written)) (pos g.count))
      >>= λ line. ok (record { written = g.written ++ line ∷ []; count = g.count; in_frame = 0 })

  put_entity : SnapshotEntity → Progress → Progress
  put_entity ent g = record {
    written = g.written ++ append_snapshot_entity_line ent.qid ent.raw_mappings ∷ [];
    count = suc g.count;
    in_frame = suc g.in_frame;
  }

  -- One entity of the scan: a full frame is closed first, and the next one begins with a checkpoint.
  unfoldable pub write_entity : SnapshotEntity → Progress → Result GenerateError Progress
  unfolding start_frame put_entity
  write_entity ent g = (if g.in_frame == snapshot_frame_size then start_frame g else ok g) >>= λ g'.
      ok (put_entity ent g')

  unfoldable pub write_entities : List SnapshotEntity → Progress → Result GenerateError Progress
  write_entities [] g = ok g
  write_entities (ent ∷ ents) g = write_entity ent g >>= write_entities ents

  -- The loop over the pages, until the cursor is 0. The pages are the fuel; `unfinished` where they end.
  unfoldable pub write_pages : List Page → Progress → Result GenerateError Progress
  write_pages [] g = err unfinished
  write_pages (p ∷ ps) g =
      let more = λ (g' : Progress). write_pages ps g' in
      if p.cancelled then err cancelled else elim p.reply [
        | err e ↦ err (scan e)
        | ok (ents, next) ↦
            write_entities ents g >>= λ g'. elim next [ zero ↦ ok g' | suc _ ↦ more g' ]
      ]

  finish : Bytes → Progress → Result GenerateError (List Bytes)
  finish last g = encoded (append_snapshot_done_line j last (pos g.count)) >>= λ line.
      ok (g.written ++ line ∷ [])

  -- generate: the lines of the file and the id that it is published with. The position of the
  -- changelog is taken before the scan.
  unfoldable pub generate :
      Result Bytes Bytes → Bytes → List Page → Result GenerateError (List Bytes × SnapshotMeta)
  unfolding start_frame finish
  generate (err _) name pages = err stream_info
  generate (ok []) name pages = err changelog_empty
  generate (ok (c ∷ last)) name pages =
      encoded (append_snapshot_checkpoint_line j (pos 0) (pos 0)) >>= λ line.
      write_pages pages (record { written = line ∷ []; count = 0; in_frame = 0 }) >>= λ g.
      finish (c ∷ last) g >>= λ lines. ok (lines, record { file = name; id = c ∷ last })

-- isSnapshotCurrent, from what readMeta and StreamInfo give (the id of the first entry).
unfoldable pub is_snapshot_current :
    Option SnapshotMeta → Result Bytes Bytes → Option SnapshotMeta × Bool
is_snapshot_current none info = (none, false)
is_snapshot_current (some meta) info = if beq meta.id [] then (some meta, false) else elim info [
  | err _ ↦ (some meta, false)
  | ok first ↦
      if beq first []
      then (some meta, false)
      else if ltb_ℤ (compare_stream_ids meta.id first) (pos 0)
      then (some meta, false)
      else (some meta, true)
]

pub data SnapshotReply : Type 0 where
  not_available invalidated stat_failed temporarily_unavailable : SnapshotReply
  served : SnapshotMeta → Bytes → SnapshotReply

-- What one turn of the handler meets: meta.json, the changelog, and the file: `none` if it cannot be
-- opened, `some none` if its status cannot be read.
pub record Look : Type 0 where
  pub meta : Option SnapshotMeta
  pub info : Result Bytes Bytes
  pub file : Option (Option Bytes)

-- The body of ServeSnapshot's loop; `none` stands for `continue`. The Boolean is the signal to the
-- generator to run at once.
serve_once : SnapshotMeta → Option (Option Bytes) → Option SnapshotReply
serve_once meta none = none
serve_once meta (some none) = some stat_failed
serve_once meta (some (some content)) = some (served meta content)

answer_look : Option SnapshotMeta × Bool → Option (Option Bytes) → Option SnapshotReply × Bool
unfolding serve_once
answer_look (none, is_current) file = (some not_available, false)
answer_look (some meta, false) file = (some invalidated, true)
answer_look (some meta, true) file = (serve_once meta file, false)

look_once : Look → Option SnapshotReply × Bool
unfolding answer_look
look_once l = answer_look (is_snapshot_current l.meta l.info) l.file

-- ServeSnapshot: two turns at most.
unfoldable pub serve_snapshot : Look → Look → SnapshotReply × Bool
unfolding look_once
serve_snapshot first second =
    let (result, signal) = (look_once first) in
    elim result [
      | some reply ↦ (reply, signal)
      | none ↦
          let (result, signal') = (look_once second) in
          elim result [ some reply ↦ (reply, signal') | none ↦ (temporarily_unavailable, signal') ]
    ]
