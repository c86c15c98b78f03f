-- ===== src/Replicate/Protocol.antt =====
-- internal/replicate/protocol.go: the lines of a snapshot and the payload of a change event.
-- The JSON library is no code of the repository: `ControlJson` has the calls of it that the control
-- lines need, and `IsFaithful` what its documentation promises of them.
pub mod RoundTrip
pub mod Control
use wdxref.Base.{
  ℕ, ◌+◌, ◌-◌, ◌≡◌, refl, Bool, true, false, ◌&&◌, ◌||◌, Option, none, some, [], ◌∷◌, ◌++◌, Bytes,
  codes, beq, index_byte, length, take, drop, ltb, leb, ◌==◌, if◌then◌else◌, Result, ok, err, ◌>>=◌,
  All, ◌<◌,
}
use wdxref.Base.Int.{ℤ, pos, negsuc, ltb_ℤ}
use wdxref.Strconv.{NumError, format_int, parse_int, checked}
use wdxref.Strconv.RoundTrip.{IsInt64}

pub data SnapshotLineType : Type 0 where
  invalid entity control : SnapshotLineType

pub data ProtocolError : Type 0 where
  invalid_snapshot_line invalid_snapshot_control missing_control_type : ProtocolError
  missing_stream_id invalid_change_event json_failure : ProtocolError
  parse_qid : NumError → ProtocolError
  unsupported_version : ℤ → ProtocolError
  unexpected_type : Bytes → ProtocolError
  invalid_offset invalid_entities : ℤ → ProtocolError

pub record SnapshotControl : Type 0 where
  pub type : Bytes
  pub version : ℤ

pub record SnapshotCheckpoint : Type 0 where
  pub type : Bytes
  pub version : ℤ
  pub offset : ℤ
  pub entities_before : ℤ

pub record SnapshotDone : Type 0 where
  pub type : Bytes
  pub version : ℤ
  pub stream_id : Bytes
  pub entities : ℤ

abbrev pub snapshot_control_version : ℤ
snapshot_control_version = pos 1

abbrev pub type_checkpoint : Bytes
type_checkpoint = codes "checkpoint"

abbrev pub type_done : Bytes
type_done = codes "done"

-- json.Marshal and json.Unmarshal at the three control types; `none` is an error.
pub record ControlJson : Type 0 where
  pub marshal_checkpoint : SnapshotCheckpoint → Option Bytes
  pub marshal_done : SnapshotDone → Option Bytes
  pub unmarshal_control : Bytes → Option SnapshotControl
  pub unmarshal_checkpoint : Bytes → Option SnapshotCheckpoint
  pub unmarshal_done : Bytes → Option SnapshotDone

-- Printable ASCII, which JSON carries through unchanged.
abbrev pub IsAscii : Bytes → Type 0
IsAscii = All (λ b. (31 < b) × (b < 127))

-- A struct is written as an object on one line, and read back from it, also at the shared header.
pub record IsFaithful (j : ControlJson) : Type 0 where
  pub checkpoint_written :
      (c : SnapshotCheckpoint)
      → IsAscii c.type
      → IsInt64 c.version
      → IsInt64 c.offset
      → IsInt64 c.entities_before
      → (body : Bytes) × (j.marshal_checkpoint c ≡ some (b'{' ∷ body))
        × (j.unmarshal_checkpoint (b'{' ∷ body) ≡ some c)
        × (j.unmarshal_control (b'{' ∷ body) ≡ some (record { type = c.type; version = c.version }))
  pub done_written :
      (d : SnapshotDone)
      → IsAscii d.type
      → IsAscii d.stream_id
      → IsInt64 d.version
      → IsInt64 d.entities
      → (body : Bytes) × (j.marshal_done d ≡ some (b'{' ∷ body))
        × (j.unmarshal_done (b'{' ∷ body) ≡ some d)
        × (j.unmarshal_control (b'{' ∷ body) ≡ some (record { type = d.type; version = d.version }))

unfoldable pub classify_snapshot_line : Bytes → SnapshotLineType
classify_snapshot_line [] = invalid
classify_snapshot_line (first ∷ _) =
    if first == b'{' then control else if leb b'0' first && leb first b'9' then entity else invalid

-- A line without its line feed; the calls below write it with one.
abbrev pub line_feed : ℕ
line_feed = 10

abbrev terminated : Option Bytes → Result ProtocolError Bytes
terminated none = err json_failure
terminated (some text) = ok (text ++ line_feed ∷ [])

unfoldable pub append_snapshot_entity_line : ℤ → Bytes → Bytes
append_snapshot_entity_line qid raw_mappings =
    format_int qid ++ b' ' ∷ (raw_mappings ++ line_feed ∷ [])

abbrev with_raw : Bytes → Result NumError ℤ → Result ProtocolError (ℤ × Bytes)
with_raw raw (ok qid) = ok (qid, raw)
with_raw raw (err e) = err (parse_qid e)

parse_at : Bytes → Option ℕ → Result ProtocolError (ℤ × Bytes)
parse_at line none = err invalid_snapshot_line
parse_at line (some sep) =
    if sep == 0 || sep == length line - 1
    then err invalid_snapshot_line
    else with_raw (drop (sep + 1) line) (checked (parse_int (take sep line)))

unfoldable pub parse_snapshot_entity_line : Bytes → Result ProtocolError (ℤ × Bytes)
unfolding parse_at
parse_snapshot_entity_line line = parse_at line (index_byte line b' ')

unfoldable pub format_stream_change_data : ℤ → Bytes → Bytes
format_stream_change_data qid [] = format_int qid
format_stream_change_data qid (b ∷ raw) = format_int qid ++ b' ' ∷ b ∷ raw

parse_change_at : Bytes → Option ℕ → Result ProtocolError (ℤ × Bytes)
parse_change_at text none = with_raw [] (checked (parse_int text))
parse_change_at text (some sep) =
    if sep == 0 || sep == length text - 1
    then err invalid_change_event
    else with_raw (drop (sep + 1) text) (checked (parse_int (take sep text)))

unfoldable pub parse_stream_change_data : Bytes → Result ProtocolError (ℤ × Bytes)
unfolding parse_change_at
parse_stream_change_data [] = err invalid_change_event
parse_stream_change_data (c ∷ text) = parse_change_at (c ∷ text) (index_byte (c ∷ text) b' ')

abbrev decoded {ℓ} : {A : Type ℓ} → Option A → Result ProtocolError A
decoded none = err json_failure
decoded (some a) = ok a

is_version : ℤ → Bool
is_version (pos n) = n == 1
is_version (negsuc n) = false

validate_control : SnapshotControl → Result ProtocolError SnapshotControl
unfolding is_version
validate_control header =
    if beq header.type []
    then err missing_control_type
    else if is_version header.version
    then ok header
    else err (unsupported_version header.version)

validate_checkpoint : SnapshotCheckpoint → Result ProtocolError SnapshotCheckpoint
validate_checkpoint checkpoint =
    if ltb_ℤ checkpoint.offset (pos 0)
    then err (invalid_offset checkpoint.offset)
    else if ltb_ℤ checkpoint.entities_before (pos 0)
    then err (invalid_entities checkpoint.entities_before)
    else ok checkpoint

validate_done : SnapshotDone → Result ProtocolError SnapshotDone
validate_done done =
    if beq done.stream_id []
    then err missing_stream_id
    else if ltb_ℤ done.entities (pos 0)
    then err (invalid_entities done.entities)
    else ok done

module _ (j : ControlJson) where
  unfoldable pub append_snapshot_checkpoint_line : ℤ → ℤ → Result ProtocolError Bytes
  append_snapshot_checkpoint_line offset entities_before = terminated (
      j.marshal_checkpoint (record {
        type = type_checkpoint;
        version = snapshot_control_version;
        offset = offset;
        entities_before = entities_before;
      }))

  unfoldable pub append_snapshot_done_line : Bytes → ℤ → Result ProtocolError Bytes
  append_snapshot_done_line stream_id entities = terminated (
      j.marshal_done (record {
        type = type_done;
        version = snapshot_control_version;
        stream_id = stream_id;
        entities = entities;
      }))

  unfoldable pub parse_snapshot_control : Bytes → Result ProtocolError SnapshotControl
  unfolding validate_control
  parse_snapshot_control line = elim (classify_snapshot_line line) [
    | control ↦ decoded (j.unmarshal_control line) >>= validate_control
    | _ ↦ err invalid_snapshot_control
  ]

  read_checkpoint : Bytes → SnapshotControl → Result ProtocolError SnapshotCheckpoint
  unfolding validate_checkpoint
  read_checkpoint line header =
      if beq header.type type_checkpoint
      then decoded (j.unmarshal_checkpoint line) >>= validate_checkpoint
      else err (unexpected_type header.type)

  unfoldable pub parse_snapshot_checkpoint : Bytes → Result ProtocolError SnapshotCheckpoint
  unfolding read_checkpoint
  parse_snapshot_checkpoint line = parse_snapshot_control line >>= read_checkpoint line

  read_done : Bytes → SnapshotControl → Result ProtocolError SnapshotDone
  unfolding validate_done
  read_done line header =
      if beq header.type type_done
      then decoded (j.unmarshal_done line) >>= validate_done
      else err (unexpected_type header.type)

  unfoldable pub parse_snapshot_done : Bytes → Result ProtocolError SnapshotDone
  unfolding read_done
  parse_snapshot_done line = parse_snapshot_control line >>= read_done line
