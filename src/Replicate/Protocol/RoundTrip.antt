-- ===== src/Replicate/Protocol/RoundTrip.antt =====
-- Entity lines and change payloads of internal/replicate/protocol.go, written and read.
use native.Mathlib.Numerals.{add-one}
use wdxref.Base.{
  ◌⊎◌, inl, inr, Lacks, All-append, scan_lines, scan_lines-line, ℕ, ◌-◌, ◌<◌, ◌≡◌, ◌≢◌, refl, [],
  ◌∷◌, ◌++◌, arith, Bytes, index_byte, append_assoc, append-nil, index_byte-append,
  index_byte-eq-none, length, length-append, take-append_left, drop-append_suc, ok, some, false,
  ◌==◌, ◌||◌,
}
use wdxref.Base.Int.{ℤ, pos}
use wdxref.Strconv.{format_int, parse_int, checked}
use wdxref.Strconv.RoundTrip.{
  IsDigit, IsInt64, format_int-Lacks, format_int_pos_length, format_uint_cons, parse_int-format_int,
}
use wdxref.Replicate.Protocol.{
  SnapshotLineType, classify_snapshot_line, append_snapshot_entity_line, parse_snapshot_entity_line,
  format_stream_change_data, parse_stream_change_data, line_feed, parse_change_at, with_raw,
}

-- The test that both parsers make of the place of the space.
inner_space :
    (p : Bytes) (c : ℕ) (raw : Bytes)
    → 0 < length p
    → raw ≢ []
    → (length p == 0 || length p == length (p ++ c ∷ raw) - 1) ≡ false
inner_space p c [] h given = absurd (given refl)
inner_space p c (b ∷ raw) h given = ground (arith, length-append p (c ∷ b ∷ raw))

module _ (q : ℤ) (raw : Bytes) where
  number_text : IsInt64 q → with_raw raw (checked (parse_int (format_int q))) ≡ ok (q, raw)
  unfolding checked
  number_text fits = rw (parse_int-format_int q fits)

  found_space : index_byte (format_int q ++ b' ' ∷ raw) b' ' ≡ some (length (format_int q))
  found_space = index_byte-append (format_int q) raw b' ' (format_int-Lacks b' ' q (omega arith))

module _ (q : ℤ) (raw : Bytes) (fits : IsInt64 q) (given : raw ≢ []) where
  pub parse_entity_text : parse_snapshot_entity_line (format_int q ++ b' ' ∷ raw) ≡ ok (q, raw)
  unfolding parse_snapshot_entity_line
  parse_entity_text =
      rw
        (
          found_space q raw,
          inner_space (format_int q) b' ' raw (format_int_pos_length q) given,
          add-one,
          drop-append_suc (format_int q) b' ' raw,
          take-append_left (format_int q) (b' ' ∷ raw),
        )
        (number_text q raw fits)

change_at :
    (p rest : Bytes)
    → 0 < length p
    → parse_stream_change_data (p ++ rest)
      ≡ parse_change_at (p ++ rest) (index_byte (p ++ rest) b' ')
unfolding parse_stream_change_data
change_at [] rest h = absurd (omega arith)
change_at (b ∷ p) rest h = refl

change_at_end :
    (p : Bytes) → 0 < length p → parse_stream_change_data p ≡ parse_change_at p (index_byte p b' ')
change_at_end p h = rw (append-nil p) at (change_at p [] h)

module _ (q : ℤ) (fits : IsInt64 q) where
  -- The payload of a change event is read back, for every int64 and every mappings text, the empty
  -- one of a deletion included.
  pub parse-format_stream_change :
      (raw : Bytes) → parse_stream_change_data (format_stream_change_data q raw) ≡ ok (q, raw)
  unfolding parse_change_at format_stream_change_data
  parse-format_stream_change [] =
      rw
        (
          change_at_end (format_int q) (format_int_pos_length q),
          index_byte-eq-none (format_int q) b' ' (format_int-Lacks b' ' q (omega arith)),
        )
        (number_text q [] fits)
  parse-format_stream_change (b ∷ raw) =
      let given : b ∷ raw ≢ [] = cc in
      rw
        (
          change_at (format_int q) (b' ' ∷ b ∷ raw) (format_int_pos_length q),
          found_space q (b ∷ raw),
          inner_space (format_int q) b' ' (b ∷ raw) (format_int_pos_length q) given,
          add-one,
          drop-append_suc (format_int q) b' ' (b ∷ raw),
          take-append_left (format_int q) (b' ' ∷ b ∷ raw),
        )
        (number_text q (b ∷ raw) fits)

-- The text of an entity line, without its line feed.
abbrev pub entity_text : ℤ → Bytes → Bytes
entity_text q raw = format_int q ++ b' ' ∷ raw

classify_digit :
    (d : ℕ) (r : Bytes) → IsDigit d → classify_snapshot_line (d ∷ r) ≡ SnapshotLineType.entity
unfolding classify_snapshot_line
classify_digit d r h = ground arith

pub classify_entity_text :
    (n : ℕ) (raw : Bytes)
    → classify_snapshot_line (entity_text (pos n) raw) ≡ SnapshotLineType.entity
unfolding format_int
classify_entity_text n raw = let (d, r, e, p) = format_uint_cons n in rw e (classify_digit d _ p)

entity_text-Lacks :
    (q : ℤ) (raw : Bytes) (c : ℕ) → (c ≡ 10) ⊎ (c ≡ 13) → Lacks c raw → Lacks c (entity_text q raw)
entity_text-Lacks q raw c h lacks =
    All-append (λ x. x ≢ c) (format_int q) (b' ' ∷ raw) (format_int-Lacks c q (ground arith))
      (ground arith, lacks)

-- An entity with an id that is not negative, and a mappings text that is not empty and has no line break,
-- is written as one line: a scanner splits it off from whatever is written behind it. The line is
-- classified as an entity line and is read back.
pub entity_line_round_trip :
    (n : ℕ) (raw : Bytes)
    → IsInt64 (pos n)
    → raw ≢ []
    → Lacks 10 raw
    → Lacks 13 raw
    → (line : Bytes) × ((rest : Bytes)
        → scan_lines (append_snapshot_entity_line (pos n) raw ++ rest) ≡ line ∷ scan_lines rest)
      × (classify_snapshot_line line ≡ SnapshotLineType.entity)
      × (parse_snapshot_entity_line line ≡ ok (pos n, raw))
unfolding append_snapshot_entity_line
entity_line_round_trip n raw fits given feeds returns = (
  entity_text (pos n) raw,
  λ rest.
      let text : (format_int (pos n) ++ b' ' ∷ (raw ++ line_feed ∷ [])) ++ rest
          ≡ entity_text (pos n) raw ++ line_feed ∷ rest =
        simp append_assoc refl in
      rw text (
        scan_lines-line (entity_text (pos n) raw) rest
          (entity_text-Lacks (pos n) raw 10 (inl refl) feeds)
          (entity_text-Lacks (pos n) raw 13 (inr refl) returns)),
  classify_entity_text n raw,
  parse_entity_text (pos n) raw fits given,
)
