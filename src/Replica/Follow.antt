-- ===== src/Replica/Follow.antt =====
-- connectStream of internal/replica/client.go: the lines of the event stream, applied one at a time.
-- The JSON of a reset is a parameter, as the function that gives its "state" ("" if there is none).
pub mod Changes
pub mod Limit
use wdxref.Base.{
  ℕ, ◌≡◌, refl, Bool, true, false, Option, none, some, List, [], ◌∷◌, ◌++◌, Bytes, codes, beq, ◌==◌,
  if◌then◌else◌, Result, ok, err, ltb, length, ◌*◌,
}
use wdxref.Base.Int.{ℤ}
use wdxref.Store.Kvrocks.{Kvrocks}
use wdxref.Store.Ids.{int_to_qid}
use wdxref.Store.Pipe.{
  StoreError, Pipe, new_pipe, upsert_raw_entity, delete_entity, set_sync_state, exec,
}
use wdxref.Replicate.Protocol.{parse_stream_change_data}

-- strings.HasPrefix with strings.TrimPrefix: what follows the prefix.
unfoldable pub strip_prefix : Bytes → Bytes → Option Bytes
strip_prefix [] line = some line
strip_prefix (c ∷ prefix) [] = none
strip_prefix (c ∷ prefix) (b ∷ line) = if c == b then strip_prefix prefix line else none

-- The kinds of lines, in the order of the tests.
pub data SseLine : Type 0 where
  blank comment retry other : SseLine
  event id payload : Bytes → SseLine

tag : (Bytes → SseLine) → Option Bytes → SseLine → SseLine
tag make (some text) otherwise = make text
tag make none otherwise = otherwise

unfoldable pub classify_sse : Bytes → SseLine
unfolding tag
classify_sse [] = blank
classify_sse (c ∷ rest) =
    let line = c ∷ rest in
    tag (λ _. comment) (strip_prefix (codes ":") line)
      (tag event (strip_prefix (codes "event: ") line) (
        tag id (strip_prefix (codes "id: ") line) (
          tag (λ _. retry) (strip_prefix (codes "retry: ") line)
            (tag payload (strip_prefix (codes "data: ") line) other))))

-- How a connection ends: nil after a reset was obeyed, errUpstreamSeeding, errStreamClosed, or an error.
pub data StreamEnd : Type 0 where
  was_reset upstream_seeding closed scan_failed connect_failed unsupported_encoding : StreamEnd
  unexpected_status : ℕ → StreamEnd
  store_failed : StoreError → StreamEnd

-- The pipe of one change: the entity, and the position.
unfoldable pub change_pipe : ℤ → Bytes → Bytes → Pipe
change_pipe qid [] event_id =
    set_sync_state (codes "last_replicated_id") event_id
      (delete_entity (int_to_qid qid) (new_pipe none))
change_pipe qid (b ∷ raw) event_id = set_sync_state (codes "last_replicated_id") event_id (
    upsert_raw_entity (record { wikidata_id = int_to_qid qid; raw_mappings = b ∷ raw })
      (new_pipe none))

abbrev pub failure : Option StoreError → Option StreamEnd
failure none = none
failure (some e) = some (store_failed e)

module _ (s : Kvrocks) (version : Bytes) (state_of : Bytes → Bytes) where
  open s use {Db, flushdb}

  -- `none` where the loop goes on.
  on_reset : Bytes → Db → Option StreamEnd × Db
  on_reset text db =
      let (failed, db') =
        exec s (set_sync_state (codes "schema_version") version (new_pipe none)) (flushdb db) in
      if beq (state_of text) (codes "seeding")
      then (some upstream_seeding, db)
      else elim failed [ some e ↦ (some (store_failed e), db') | none ↦ (some was_reset, db') ]

  apply_change : Bytes → ℤ × Bytes → Db → Option StreamEnd × Db
  apply_change event_id (qid, raw) db =
      let (failed, db') = exec s (change_pipe qid raw event_id) db in (failure failed, db')

  -- A change without an id, or one that cannot be read, is skipped.
  on_change : Bytes → Bytes → Db → Option StreamEnd × Db
  unfolding apply_change
  on_change [] text db = (none, db)
  on_change (c ∷ event_id) text db = elim (parse_stream_change_data text) [
    | err _ ↦ (none, db)
    | ok parsed ↦ apply_change (c ∷ event_id) parsed db
  ]

  unfoldable pub on_data : Bytes → Bytes → Bytes → Db → Option StreamEnd × Db
  unfolding on_reset on_change
  on_data event_type event_id text db =
      if beq event_type (codes "reset")
      then on_reset text db
      else if beq event_type (codes "change")
      then on_change event_id text db
      else (none, db)

  -- The scanner's loop, with the event's type and id; the id persists across events.
  unfoldable pub follow_lines : List Bytes → Bool → Bytes → Bytes → Db → StreamEnd × Db
  follow_lines [] failed event_type event_id db = (if failed then scan_failed else closed, db)
  follow_lines (line ∷ lines) failed event_type event_id db = elim (classify_sse line) [
    | SseLine.blank ↦ follow_lines lines failed [] event_id db
    | SseLine.comment ↦ follow_lines lines failed event_type event_id db
    | SseLine.event name ↦ follow_lines lines failed name event_id db
    | SseLine.id text ↦ follow_lines lines failed event_type text db
    | SseLine.retry ↦ follow_lines lines failed event_type event_id db
    | SseLine.other ↦ follow_lines lines failed event_type event_id db
    | SseLine.payload text ↦
        let (end, db') = on_data event_type event_id text db in
        elim end [ some e ↦ (e, db') | none ↦ follow_lines lines failed event_type event_id db' ]
  ]

-- The reply to the request, its content encoding in lower case and trimmed, and the body's lines once
-- decoded and split, with whether reading it fails; `opened` is whether the decoder starts.
pub record StreamResponse : Type 0 where
  pub status : ℕ
  pub encoding : Bytes
  pub opened : Bool
  pub lines : List Bytes
  pub failed : Bool

-- The size of the scanner's buffer.
abbrev pub stream_line_limit : ℕ
stream_line_limit = 1024 * 1024

-- The scanner with its buffer: a line that does not fit ends the text with an error. A line feed is not
-- counted; a carriage return before it, which is dropped, is not either.
unfoldable pub scanned : Bool → List Bytes → List Bytes × Bool
scanned failed [] = ([], failed)
scanned failed (line ∷ lines) =
    let (fitting, failed') = scanned failed lines in
    if ltb (length line) stream_line_limit then (line ∷ fitting, failed') else ([], true)

-- streamContentEncoding, behind the trimming.
unfoldable pub stream_content_encoding : Bytes → Bytes
stream_content_encoding [] = codes "identity"
stream_content_encoding (c ∷ encoding) = c ∷ encoding

-- openStreamBody: whether the body can be read, or how the connection ends.
unfoldable pub open_stream_body : Bytes → Bool → Option StreamEnd
open_stream_body encoding opened =
    if beq encoding (codes "identity")
    then none
    else if beq encoding (codes "zstd")
    then (if opened then none else some connect_failed)
    else if beq encoding (codes "gzip")
    then (if opened then none else some connect_failed)
    else some unsupported_encoding

-- connectStream; `none` is a request that fails.
unfoldable pub connect_stream :
    (s : Kvrocks)
    → Bytes
    → (Bytes → Bytes)
    → (Bytes → Option StreamResponse)
    → Bytes
    → s.Db
    → StreamEnd × s.Db
connect_stream s version state_of send since db = elim (send since) [
  | none ↦ (connect_failed, db)
  | some resp ↦
      let (lines, failed) = scanned resp.failed resp.lines in
      if resp.status == 200
      then elim (open_stream_body (stream_content_encoding resp.encoding) resp.opened) [
        | some e ↦ (e, db)
        | none ↦ follow_lines s version state_of lines failed [] [] db
      ]
      else (unexpected_status resp.status, db)
]
