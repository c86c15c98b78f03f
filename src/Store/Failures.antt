-- ===== src/Store/Failures.antt =====
-- The record of a failed entity: what recordFailedScript of internal/store/writer.go keeps of it.
use wdxref.Base.{◌≡◌, some, Bytes, codes, beq, beq_refl, Bool-cases, inl, inr, if◌then◌else◌}
use wdxref.Base.Int.{ℤ, pos, ◌+ℤ◌}
use wdxref.Strconv.{format_int, format_uint}
use wdxref.Store.Kvrocks.{Kvrocks, HashLaws, counter}
use wdxref.Store.Pipe.{fail_key, record_failed}

module _ (s : Kvrocks) (laws : HashLaws s) where
  open s use {Db, hget, hset, hincrby}

  -- The fields of an entity's record after a failure.
  abbrev pub IsRecorded : Bytes → Bytes → Bytes → Db → Db → Type 0
  IsRecorded id message now db db' =
      (hget db' (fail_key id) (codes "error") ≡ some message)
      × (hget db' (fail_key id) (codes "last_failed") ≡ some now)
      × (hget db' (fail_key id) (codes "attempts")
          ≡ some (format_int (counter (hget db (fail_key id) (codes "attempts")) +ℤ pos 1)))
      × (hget db' (fail_key id) (codes "first_failed") ≡ (
          if s.exists db (fail_key id)
          then hget db (fail_key id) (codes "first_failed")
          else some now))

  -- A failure is recorded with its message and time; it counts one attempt more than was counted before,
  -- the first one if there was no record, and the time of the first failure stays.
  pub record_failed_lem :
      (id message now : Bytes) (micros : ℤ) (db : Db)
      → IsRecorded id message now db (record_failed s id message now micros db)
  unfolding record_failed beq format_int format_uint ◌+ℤ◌
  record_failed_lem id message now micros db =
      let same = beq_refl id in
      elim (Bool-cases (s.exists db (fail_key id))) [
        | inl e ↦
            rw (record_failed, e)
              (
                simp (laws.hget-zadd, laws.hget-hincrby, laws.hget-hset, same),
                simp (laws.hget-zadd, laws.hget-hincrby, laws.hget-hset, same),
                simp (laws.hget-zadd, laws.hget-hincrby, laws.hget-hset, same),
                simp (laws.hget-zadd, laws.hget-hincrby, laws.hget-hset, same),
              )
        | inr e ↦
            let absent = laws.hget_absent db (fail_key id) (codes "attempts") e in
            rw (record_failed, e)
              (
                simp (laws.hget-zadd, laws.hget-hset, same),
                simp (laws.hget-zadd, laws.hget-hset, same),
                simp (laws.hget-zadd, laws.hget-hset, same, absent),
                simp (laws.hget-zadd, laws.hget-hset, same),
              )
      ]
