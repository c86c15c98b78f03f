-- ===== src/Store/Kvrocks.antt =====
-- What the store asks of the Kvrocks server, which is no code of the repository: the commands that it
-- calls, and the laws that the documentation of these commands gives.
use wdxref.Base.{
  ℕ, ◌≤◌, ◌≡◌, Bool, true, false, ◌&&◌, ◌||◌, not, Option, none, some, List, [], ◌∷◌, ◌++◌, Bytes,
  beq, contains, length, if◌then◌else◌,
}
use wdxref.Base.Int.{ℤ, pos, ◌+ℤ◌}
use wdxref.Strconv.{format_int, parse_int}

-- An entry of a stream.
pub record StreamEntry : Type 0 where
  pub id : Bytes
  pub fields : List (Bytes × Bytes)

pub record Kvrocks : Type 1 where
  pub Db : Type 0
  -- Hashes: the key, the field, the value.
  pub hget : Db → Bytes → Bytes → Option Bytes
  pub hset : Db → Bytes → Bytes → Bytes → Db
  pub hdel : Db → Bytes → Bytes → Db
  pub hincrby : Db → Bytes → Bytes → ℤ → Db
  pub exists : Db → Bytes → Bool
  pub del : Db → Bytes → Db
  -- Sorted sets: the key, the score, the member.
  pub zscore : Db → Bytes → Bytes → Option ℤ
  pub zadd : Db → Bytes → ℤ → Bytes → Db
  pub zrem : Db → Bytes → Bytes → Db
  -- Sets: the key, the member.
  pub sismember : Db → Bytes → Bytes → Bool
  pub sadd : Db → Bytes → Bytes → Db
  pub srem : Db → Bytes → Bytes → Db
  pub spop : Db → Bytes → ℕ → List Bytes × Db
  pub sunionstore : Db → Bytes → Bytes → Bytes → Db
  pub sdel : Db → Bytes → Db
  -- Streams: the key, the fields; XADD chooses the id.
  pub entries : Db → Bytes → List StreamEntry
  pub xadd : Db → Bytes → List (Bytes × Bytes) → Db
  pub next_id : Db → Bytes → Bytes
  pub flushdb : Db → Db
  -- cjson.decode of a script, at a text that should be an array of strings; `none` is an error.
  pub decode : Bytes → Option (List Bytes)

-- A counter as HINCRBY reads it: a missing field counts as 0.
abbrev pub counter : Option Bytes → ℤ
counter none = pos 0
counter (some text) = (parse_int text).0

pub record HashLaws (s : Kvrocks) : Type 0 where
  pub hget-hset :
      (d : s.Db) (k f v j g : Bytes)
      → s.hget (s.hset d k f v) j g ≡ (if beq k j && beq f g then some v else s.hget d j g)
  pub hget-hdel :
      (d : s.Db) (k f j g : Bytes)
      → s.hget (s.hdel d k f) j g ≡ (if beq k j && beq f g then none else s.hget d j g)
  pub hget-hincrby :
      (d : s.Db) (k f : Bytes) (n : ℤ) (j g : Bytes)
      → s.hget (s.hincrby d k f n) j g ≡ (
          if beq k j && beq f g
          then some (format_int (counter (s.hget d k f) +ℤ n))
          else s.hget d j g)
  pub hget-xadd :
      (d : s.Db) (k : Bytes) (fs : List (Bytes × Bytes)) (j g : Bytes)
      → s.hget (s.xadd d k fs) j g ≡ s.hget d j g
  pub hget-del :
      (d : s.Db) (k j g : Bytes) → s.hget (s.del d k) j g ≡ (if beq k j then none else s.hget d j g)
  pub exists-hset :
      (d : s.Db) (k f v j : Bytes) → s.exists (s.hset d k f v) j ≡ (beq k j || s.exists d j)
  -- A key that does not exist has no field.
  pub hget_absent : (d : s.Db) (k f : Bytes) → s.exists d k ≡ false → s.hget d k f ≡ none
  pub hget-zadd :
      (d : s.Db) (k : Bytes) (n : ℤ) (m j g : Bytes) → s.hget (s.zadd d k n m) j g ≡ s.hget d j g
  pub hget-zrem : (d : s.Db) (k m j g : Bytes) → s.hget (s.zrem d k m) j g ≡ s.hget d j g
  pub hget-sadd : (d : s.Db) (k m j g : Bytes) → s.hget (s.sadd d k m) j g ≡ s.hget d j g
  pub hget-srem : (d : s.Db) (k m j g : Bytes) → s.hget (s.srem d k m) j g ≡ s.hget d j g
  pub hget-flushdb : (d : s.Db) (j g : Bytes) → s.hget (s.flushdb d) j g ≡ none

pub record StreamLaws (s : Kvrocks) : Type 0 where
  pub entries-xadd :
      (d : s.Db) (k : Bytes) (fs : List (Bytes × Bytes)) (j : Bytes)
      → s.entries (s.xadd d k fs) j ≡ (
          if beq k j
          then s.entries d j ++ record { id = s.next_id d k; fields = fs } ∷ []
          else s.entries d j)
  pub entries-hset : (d : s.Db) (k f v j : Bytes) → s.entries (s.hset d k f v) j ≡ s.entries d j
  pub entries-hdel : (d : s.Db) (k f j : Bytes) → s.entries (s.hdel d k f) j ≡ s.entries d j
  pub entries-hincrby :
      (d : s.Db) (k f : Bytes) (n : ℤ) (j : Bytes) → s.entries (s.hincrby d k f n) j ≡ s.entries d j
  pub entries-flushdb : (d : s.Db) (j : Bytes) → s.entries (s.flushdb d) j ≡ []

pub record SetLaws (s : Kvrocks) : Type 0 where
  pub sismember-hset :
      (d : s.Db) (k f v j n : Bytes) → s.sismember (s.hset d k f v) j n ≡ s.sismember d j n
  pub sismember-hincrby :
      (d : s.Db) (k f : Bytes) (c : ℤ) (j n : Bytes)
      → s.sismember (s.hincrby d k f c) j n ≡ s.sismember d j n
  pub sismember-zadd :
      (d : s.Db) (k : Bytes) (c : ℤ) (m j n : Bytes)
      → s.sismember (s.zadd d k c m) j n ≡ s.sismember d j n
  pub sismember-sadd :
      (d : s.Db) (k m j n : Bytes)
      → s.sismember (s.sadd d k m) j n ≡ (beq k j && beq m n || s.sismember d j n)
  pub sismember-srem :
      (d : s.Db) (k m j n : Bytes)
      → s.sismember (s.srem d k m) j n ≡ (not (beq k j && beq m n) && s.sismember d j n)
  pub sismember-sunionstore :
      (d : s.Db) (k a b j n : Bytes)
      → s.sismember (s.sunionstore d k a b) j n
        ≡ (if beq k j then s.sismember d a n || s.sismember d b n else s.sismember d j n)
  pub sismember-sdel :
      (d : s.Db) (k j n : Bytes)
      → s.sismember (s.sdel d k) j n ≡ (not (beq k j) && s.sismember d j n)
  -- SPOP takes members out and returns exactly those, at most as many as asked for.
  pub spop_members :
      (d : s.Db) (k : Bytes) (count : ℕ) (j n : Bytes)
      → s.sismember (s.spop d k count).1 j n
        ≡ (not (beq k j && contains n (s.spop d k count).0) && s.sismember d j n)
  pub spop_popped :
      (d : s.Db) (k : Bytes) (count : ℕ) (n : Bytes)
      → contains n (s.spop d k count).0 ≡ true
      → s.sismember d k n ≡ true
  pub spop_length : (d : s.Db) (k : Bytes) (count : ℕ) → length (s.spop d k count).0 ≤ count
