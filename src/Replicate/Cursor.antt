-- ===== src/Replicate/Cursor.antt =====
-- Positions in the changelog: compareStreamIDs, checkStreamGap and resolveStreamCursor of
-- internal/replicate/stream.go.
pub mod Order
use wdxref.Base.{
  ℕ, suc, ◌≡◌, refl, Bool, true, false, ◌||◌, Option, none, some, List, [], Bytes, codes, beq,
  index_byte, take, drop, ltb, if◌then◌else◌, Result, ok, err,
}
use wdxref.Base.Int.{ℤ, pos, negsuc, ltb_ℤ}
use wdxref.Strconv.{parse_uint}

-- The two parts of strings.SplitN(id, "-", 2), the second one read as 0 where there is none; the error
-- of ParseUint is dropped.
unfoldable pub id_ms : Bytes → ℕ
id_ms id = elim (index_byte id b'-') [
  | none ↦ (parse_uint id).0
  | some i ↦ (parse_uint (take i id)).0
]

unfoldable pub id_seq : Bytes → ℕ
id_seq id = elim (index_byte id b'-') [ none ↦ 0 | some i ↦ (parse_uint (drop (suc i) id)).0 ]

-- compareStreamIDs
unfoldable pub compare_stream_ids : Bytes → Bytes → ℤ
compare_stream_ids a b =
    if ltb (id_ms a) (id_ms b)
    then negsuc 0
    else if ltb (id_ms b) (id_ms a)
    then pos 1
    else if ltb (id_seq a) (id_seq b)
    then negsuc 0
    else if ltb (id_seq b) (id_seq a)
    then pos 1
    else pos 0

pub data GapError : Type 0 where
  requires_snapshot store_unavailable no_entries older_than_retained : GapError

-- checkStreamGap, behind the reply of StreamInfo: an error, or the id of the first entry.
unfoldable pub check_stream_gap {ℓ} : {E : Type ℓ} → Result E Bytes → Bytes → Option GapError
check_stream_gap info since =
    if beq since (codes "0") || beq since (codes "0-0") then some requires_snapshot else elim info [
      | err _ ↦ some store_unavailable
      | ok first ↦
          if beq first []
          then some no_entries
          else if ltb_ℤ (compare_stream_ids since first) (pos 0)
          then some older_than_retained
          else none
    ]

-- resolveStreamCursor: the query's `since`, then the header Last-Event-ID; "" stands for a missing one.
unfoldable pub resolve_stream_cursor : Bytes → Bytes → Bytes
resolve_stream_cursor since last =
    if beq since [] then (if beq last [] then codes "0" else last) else since

cursor_runs :
    (compare_stream_ids (codes "99-5") (codes "100-0") ≡ negsuc 0)
    × (compare_stream_ids (codes "100-10") (codes "100-9") ≡ pos 1)
    × (compare_stream_ids (codes "100") (codes "100-0") ≡ pos 0)
unfolding compare_stream_ids id_ms id_seq index_byte parse_uint
cursor_runs = (refl, refl, refl)
