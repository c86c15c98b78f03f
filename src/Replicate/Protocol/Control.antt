-- ===== src/Replicate/Protocol/Control.antt =====
-- The control lines of internal/replicate/protocol.go, written and read.
use wdxref.Base.{ℕ, ◌≤◌, ◌≡◌, ◌≢◌, refl, [], ◌∷◌, ◌++◌, arith, Bytes, ok, err, beq}
use wdxref.Base.Int.{pos}
use wdxref.Strconv.{max_int64}
use wdxref.Replicate.Protocol.{
  ControlJson, IsFaithful, IsAscii, SnapshotCheckpoint, SnapshotDone, SnapshotLineType,
  type_checkpoint, type_done, snapshot_control_version, line_feed, classify_snapshot_line,
  append_snapshot_checkpoint_line, append_snapshot_done_line, parse_snapshot_control,
  parse_snapshot_checkpoint, parse_snapshot_done, unexpected_type,
}

-- What a reader of a control line is told.
pub record ReadsControl (j : ControlJson) (kind line : Bytes) : Type 0 where
  pub classified : classify_snapshot_line line ≡ SnapshotLineType.control
  pub header :
      parse_snapshot_control j line
      ≡ ok (record { type = kind; version = snapshot_control_version })

abbrev pub checkpoint_of : ℕ → ℕ → SnapshotCheckpoint
checkpoint_of offset before = record {
  type = type_checkpoint;
  version = snapshot_control_version;
  offset = pos offset;
  entities_before = pos before;
}

abbrev pub done_of : Bytes → ℕ → SnapshotDone
done_of stream_id entities = record {
  type = type_done;
  version = snapshot_control_version;
  stream_id = stream_id;
  entities = pos entities;
}

module _ (j : ControlJson) (f : IsFaithful j) where
  -- A checkpoint line is written for every offset and count in the range of int64; a reader takes it for a control line of
  -- the type "checkpoint", reads both numbers back, and the parser of done lines refuses it.
  pub checkpoint_line_round_trip :
      (offset before : ℕ)
      → offset ≤ max_int64
      → before ≤ max_int64
      → (line : Bytes) × (append_snapshot_checkpoint_line j (pos offset) (pos before)
          ≡ ok (line ++ line_feed ∷ []))
        × ReadsControl j type_checkpoint line
        × (parse_snapshot_checkpoint j line ≡ ok (checkpoint_of offset before))
        × (parse_snapshot_done j line ≡ err (unexpected_type type_checkpoint))
  unfolding append_snapshot_checkpoint_line parse_snapshot_control parse_snapshot_checkpoint
      parse_snapshot_done classify_snapshot_line beq
  checkpoint_line_round_trip offset before ho hb =
      let (body, written, whole, header) =
        f.checkpoint_written (checkpoint_of offset before) (omega arith) (omega arith) ho hb in
      (
        b'{' ∷ body,
        rw written,
        record { classified = refl; header = rw header },
        rw (header, whole) (ground arith),
        rw header,
      )

  -- A done line is written for every count in the range of int64 and every stream id in printable ASCII; a reader takes
  -- it for a control line of the type "done", reads it back if the id is not empty, and the parser
  -- of checkpoints refuses it.
  pub done_line_round_trip :
      (stream_id : Bytes) (entities : ℕ)
      → entities ≤ max_int64
      → IsAscii stream_id
      → stream_id ≢ []
      → (line : Bytes) × (append_snapshot_done_line j stream_id (pos entities)
          ≡ ok (line ++ line_feed ∷ []))
        × ReadsControl j type_done line
        × (parse_snapshot_done j line ≡ ok (done_of stream_id entities))
        × (parse_snapshot_checkpoint j line ≡ err (unexpected_type type_done))
  unfolding append_snapshot_done_line parse_snapshot_control parse_snapshot_checkpoint
      parse_snapshot_done classify_snapshot_line beq
  done_line_round_trip [] entities he ascii given = absurd (given refl)
  done_line_round_trip (c ∷ id) entities he ascii given =
      let (body, written, whole, header) =
        f.done_written (done_of (c ∷ id) entities) (omega arith) ascii (omega arith) he in
      (
        b'{' ∷ body,
        rw written,
        record { classified = refl; header = rw header },
        rw (header, whole) (ground arith),
        rw header,
      )
