-- ===== src/Replicate/Cursor/Order.antt =====
-- The order that compareStreamIDs of internal/replicate/stream.go gives to stream ids.
use wdxref.Base.{◌≡◌, Bool, true, false, ◌&&◌, ◌||◌, arith, Bytes, ltb, ◌==◌, ◌↔◌, ◌⊎◌, ◌<◌}
use wdxref.Base.Int.{pos, negsuc, ltb_ℤ, ◌≤ℤ◌}
use wdxref.Replicate.Cursor.{id_ms, id_seq, compare_stream_ids}

-- `a` is before `b`.
unfoldable pub before : Bytes → Bytes → Bool
before a b = ltb (id_ms a) (id_ms b) || ((id_ms a == id_ms b) && ltb (id_seq a) (id_seq b))

pub compare-before : (a b : Bytes) → ltb_ℤ (compare_stream_ids a b) (pos 0) ≡ before a b
unfolding compare_stream_ids before
compare-before a b = ground arith

pub before_trans : (a b c : Bytes) → before a b ≡ true → before b c ≡ true → before a c ≡ true
unfolding before
before_trans a b c h k = ground arith

-- What is before `b` is before everything that is not before `b`.
pub before_le : (a b c : Bytes) → before a b ≡ true → before c b ≡ false → before a c ≡ true
unfolding before
before_le a b c h k = ground arith

pub before_irrefl : (a : Bytes) → before a a ≡ false
unfolding before
before_irrefl a = ground arith

pub before_asym : (a b : Bytes) → before a b ≡ true → before b a ≡ false
unfolding before
before_asym a b h = ground arith

-- compareStreamIDs compares the milliseconds first and the sequences of equal milliseconds then: it gives
-- -1 if the first id is less in this order, 1 if it is greater and 0 if both parts are equal. The order
-- is total and "not after" is transitive.
pub compare_stream_ids-IsOrder :
    (a b c : Bytes)
    → ((compare_stream_ids a b ≡ negsuc 0)
        ↔ ((id_ms a < id_ms b) ⊎ ((id_ms a ≡ id_ms b) × (id_seq a < id_seq b))))
      × ((compare_stream_ids a b ≡ pos 1)
          ↔ ((id_ms b < id_ms a) ⊎ ((id_ms a ≡ id_ms b) × (id_seq b < id_seq a))))
      × ((compare_stream_ids a b ≡ pos 0) ↔ ((id_ms a ≡ id_ms b) × (id_seq a ≡ id_seq b)))
      × (compare_stream_ids a b ≤ℤ pos 0
          → compare_stream_ids b c ≤ℤ pos 0
          → compare_stream_ids a c ≤ℤ pos 0)
unfolding compare_stream_ids
compare_stream_ids-IsOrder a b c = (ground arith, ground arith, ground arith, ground arith)
