-- ===== src/Tests/Protocol.antt =====
-- An encoder of control lines on which the laws hold, and the wire formats at concrete inputs.
use wdxref.Base.{
  scan_lines, ℕ, suc, ◌≡◌, refl, Option, none, some, [], ◌∷◌, ◌++◌, arith, Bytes, codes, Lacks,
  index_byte, index_byte-append, take, drop, take-append_left, drop-append_suc, ok, err,
}
use wdxref.Base.Int.{ℤ, pos}
use wdxref.Strconv.{format_int, parse_int}
use wdxref.Strconv.RoundTrip.{format_int-Lacks, parse_int-format_int}
use wdxref.Replicate.Protocol.{
  ControlJson, IsFaithful, IsAscii, SnapshotControl, SnapshotCheckpoint, SnapshotDone,
  SnapshotLineType, append_snapshot_checkpoint_line, append_snapshot_done_line,
  parse_snapshot_checkpoint, parse_snapshot_done, unexpected_type, type_checkpoint, type_done,
  line_feed, append_snapshot_entity_line, classify_snapshot_line, parse_snapshot_entity_line,
  format_stream_change_data, parse_stream_change_data,
}
use wdxref.Replicate.Protocol.RoundTrip.{parse-format_stream_change, entity_line_round_trip}
use wdxref.Replicate.Protocol.Control.{
  ReadsControl, checkpoint_of, done_of, checkpoint_line_round_trip, done_line_round_trip,
}

split_at : Bytes → Option ℕ → Bytes × Bytes
split_at s none = (s, [])
split_at s (some i) = (take i s, drop (suc i) s)

-- The part up to the first byte 1, and the rest.
cut : Bytes → Bytes × Bytes
cut s = split_at s (index_byte s 1)

cut_part : (p rest : Bytes) → Lacks 1 p → cut (p ++ 1 ∷ rest) ≡ (p, rest)
unfolding cut split_at
cut_part p rest h = rw (
  index_byte-append p rest 1 h,
  split_at,
  take-append_left p (1 ∷ rest),
  drop-append_suc p 1 rest,
)

ascii-Lacks : (s : Bytes) → IsAscii s → Lacks 1 s
ascii-Lacks [] h = tt
ascii-Lacks (c ∷ s) (h, hs) = (ground arith, ascii-Lacks s hs)

abbrev header : Bytes → ℤ → Bytes → Bytes
header type version rest = type ++ 1 ∷ (format_int version ++ 1 ∷ rest)

pub read_control : Bytes → Option SnapshotControl
unfolding cut
read_control [] = none
read_control (_ ∷ s) =
    let (type, s1) = cut s in
    let (version, _) = cut s1 in some (record { type = type; version = (parse_int version).0 })

pub read_checkpoint : Bytes → Option SnapshotCheckpoint
unfolding cut
read_checkpoint [] = none
read_checkpoint (_ ∷ s) =
    let (type, s1) = cut s in
    let (version, s2) = cut s1 in
    let (offset, before) = cut s2 in
    some (record {
      type = type;
      version = (parse_int version).0;
      offset = (parse_int offset).0;
      entities_before = (parse_int before).0;
    })

pub read_done : Bytes → Option SnapshotDone
unfolding cut
read_done [] = none
read_done (_ ∷ s) =
    let (type, s1) = cut s in
    let (version, s2) = cut s1 in
    let (id, entities) = cut s2 in
    some (record {
      type = type;
      version = (parse_int version).0;
      stream_id = id;
      entities = (parse_int entities).0;
    })

abbrev pub plain : ControlJson
plain = record {
  marshal_checkpoint = λ c.
      some
        (b'{' ∷ header c.type c.version (format_int c.offset ++ 1 ∷ format_int c.entities_before));
  marshal_done =
      λ d. some (b'{' ∷ header d.type d.version (d.stream_id ++ 1 ∷ format_int d.entities));
  unmarshal_control = read_control;
  unmarshal_checkpoint = read_checkpoint;
  unmarshal_done = read_done;
}

number-Lacks : (n : ℤ) → Lacks 1 (format_int n)
number-Lacks n = format_int-Lacks 1 n (omega arith)

pub plain-IsFaithful : IsFaithful plain
unfolding read_control read_checkpoint read_done
plain-IsFaithful = record {
  checkpoint_written = λ c type version offset before. (
    header c.type c.version (format_int c.offset ++ 1 ∷ format_int c.entities_before),
    refl,
    rw (
      cut_part c.type _ (ascii-Lacks c.type type),
      cut_part (format_int c.version) _ (number-Lacks c.version),
      cut_part (format_int c.offset) _ (number-Lacks c.offset),
      parse_int-format_int c.version version,
      parse_int-format_int c.offset offset,
      parse_int-format_int c.entities_before before,
    ),
    rw (
      cut_part c.type _ (ascii-Lacks c.type type),
      cut_part (format_int c.version) _ (number-Lacks c.version),
      parse_int-format_int c.version version,
    ),
  );
  done_written = λ d type id version entities. (
    header d.type d.version (d.stream_id ++ 1 ∷ format_int d.entities),
    refl,
    rw (
      cut_part d.type _ (ascii-Lacks d.type type),
      cut_part (format_int d.version) _ (number-Lacks d.version),
      cut_part d.stream_id _ (ascii-Lacks d.stream_id id),
      parse_int-format_int d.version version,
      parse_int-format_int d.entities entities,
    ),
    rw (
      cut_part d.type _ (ascii-Lacks d.type type),
      cut_part (format_int d.version) _ (number-Lacks d.version),
      parse_int-format_int d.version version,
    ),
  );
}

parse-format_stream_change_example :
    parse_stream_change_data (format_stream_change_data (pos 42) (codes "[\"P345:tt1\"]"))
    ≡ ok (pos 42, codes "[\"P345:tt1\"]")
parse-format_stream_change_example =
    parse-format_stream_change (pos 42) (omega arith) (codes "[\"P345:tt1\"]")

entity_line_round_trip_example :
    (line : Bytes) × ((rest : Bytes)
      → scan_lines (append_snapshot_entity_line (pos 42) (codes "[]") ++ rest)
        ≡ line ∷ scan_lines rest)
    × (classify_snapshot_line line ≡ SnapshotLineType.entity)
    × (parse_snapshot_entity_line line ≡ ok (pos 42, codes "[]"))
entity_line_round_trip_example =
    entity_line_round_trip 42 (codes "[]") (omega arith) (cc) (omega arith) (omega arith)

checkpoint_line_round_trip_example :
    (line : Bytes) × (append_snapshot_checkpoint_line plain (pos 7) (pos 10000)
      ≡ ok (line ++ line_feed ∷ []))
    × ReadsControl plain type_checkpoint line
    × (parse_snapshot_checkpoint plain line ≡ ok (checkpoint_of 7 10000))
    × (parse_snapshot_done plain line ≡ err (unexpected_type type_checkpoint))
checkpoint_line_round_trip_example =
    checkpoint_line_round_trip plain plain-IsFaithful 7 10000 (omega arith) (omega arith)

done_line_round_trip_example :
    (line : Bytes) × (append_snapshot_done_line plain (codes "17-0") (pos 3)
      ≡ ok (line ++ line_feed ∷ []))
    × ReadsControl plain type_done line
    × (parse_snapshot_done plain line ≡ ok (done_of (codes "17-0") 3))
    × (parse_snapshot_checkpoint plain line ≡ err (unexpected_type type_done))
done_line_round_trip_example =
    done_line_round_trip plain plain-IsFaithful (codes "17-0") 3 (omega arith) (omega arith) (cc)
