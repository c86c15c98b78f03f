-- ===== src/Store/Queue.antt =====
-- The work queue and the schema's version, of internal/store/writer.go. Pending ids wait in one set, and
-- those that a worker has claimed in another, from which a restart brings them back.
use wdxref.Base.{
  ℕ, ◌≡◌, ◌≢◌, ◌∙◌, ap, inl, inr, Bool-cases, Option-cases, refl, Bool, true, false, ◌&&◌, ◌||◌,
  none, some, List, [], ◌∷◌, arith, Bytes, codes, beq, beq_iff, contains, if◌then◌else◌, ok, err,
}
use wdxref.Strconv.{parse_int, checked}
use wdxref.Store.Kvrocks.{Kvrocks, HashLaws, StreamLaws, SetLaws}
use wdxref.Store.Ids.{int_to_qid}
use wdxref.Store.Scripts.{meta_key, entities_key, changelog_key}
use wdxref.Store.Pipe.{pending_key, processing_key, each}

-- The members that are numbers, as QIDs; others are skipped.
unfoldable pub qids_of : List Bytes → List Bytes
qids_of [] = []
qids_of (m ∷ ms) =
    let rest = qids_of ms in
    elim (checked (parse_int m)) [ err _ ↦ rest | ok id ↦ int_to_qid id ∷ rest ]

abbrev pub schema_field : Bytes
schema_field = codes "schema_version"

module _ (s : Kvrocks) where
  open s use {Db, hget, hset, sadd, spop, sunionstore, sdel, sismember, flushdb}

  -- claimScript: what it returns is what it pops, and what it adds to the processing set.
  unfoldable pub claim : ℕ → Db → List Bytes × Db
  claim limit db =
      let (members, db') = spop db pending_key limit in
      (members, each s (λ m d. sadd d processing_key m) members db')

  -- ClaimPendingBatch
  unfoldable pub claim_pending_batch : ℕ → Db → List Bytes × Db
  unfolding claim
  claim_pending_batch limit db = let (members, db') = claim limit db in (qids_of members, db')

  -- RecoverProcessing
  unfoldable pub recover_processing : Db → Db
  recover_processing db =
      sdel (sunionstore db pending_key pending_key processing_key) processing_key

  -- FlushDataContext, with the version of the schema.
  unfoldable pub flush_data : Bytes → Db → Db
  flush_data version db = hset (flushdb db) meta_key schema_field version

  -- MigrateSchema
  unfoldable pub migrate_schema : Bytes → Db → Db
  migrate_schema expected db =
      let fresh = hset (flushdb db) meta_key schema_field expected in
      elim (hget db meta_key schema_field) [
        | none ↦ if beq [] expected then db else fresh
        | some stored ↦ if beq stored expected then db else fresh
      ]

  -- Whether a member waits or is being worked on.
  abbrev pub queued : Db → Bytes → Bool
  queued db n = sismember db pending_key n || sismember db processing_key n

  module _ (laws : SetLaws s) where
    pub sismember-each :
        (ms : List Bytes) (k j n : Bytes) (db : Db)
        → sismember (each s (λ m d. sadd d k m) ms db) j n
          ≡ (beq k j && contains n ms || sismember db j n)
    unfolding contains
    sismember-each [] k j n db = ground arith
    sismember-each (m ∷ ms) k j n db =
        ground (arith, sismember-each ms k j n (sadd db k m), laws.sismember-sadd db k m j n)

    -- A claim loses nothing: every member is queued after it exactly if it was before, each claimed
    -- member was pending and is in the processing set, and no other member changes its place. If the
    -- program stops at any moment after it, recovering puts all that was queued back into the pending
    -- set, and leaves the processing set empty.
    pub claim_keeps :
        (limit : ℕ) (db : Db) (n : Bytes)
        → let (members, db') = claim limit db in
          (queued db' n ≡ queued db n)
          × (contains n members ≡ true
              → (sismember db pending_key n ≡ true) × (sismember db' processing_key n ≡ true))
          × (contains n members ≡ false
              → (sismember db' pending_key n ≡ sismember db pending_key n)
                × (sismember db' processing_key n ≡ sismember db processing_key n))
          × (sismember (recover_processing db') pending_key n ≡ queued db n)
          × (sismember (recover_processing db') processing_key n ≡ false)
    unfolding claim recover_processing beq
    claim_keeps limit db n =
        let members = (spop db pending_key limit).0 in
        let popped = (spop db pending_key limit).1 in
        let db' = each s (λ m d. sadd d processing_key m) members popped in
        let union = sunionstore db' pending_key pending_key processing_key in
        let a = sismember-each members processing_key pending_key n popped in
        let b = sismember-each members processing_key processing_key n popped in
        let c = laws.spop_members db pending_key limit pending_key n in
        let d = laws.spop_members db pending_key limit processing_key n in
        let e = laws.spop_popped db pending_key limit n in
        let f = laws.sismember-sdel union processing_key pending_key n in
        let g = laws.sismember-sdel union processing_key processing_key n in
        let h =
          laws.sismember-sunionstore db' pending_key pending_key processing_key pending_key n in
        (
          ground (arith, a, b, c, d, e),
          λ k. (e k, ground (arith, b, d)),
          λ k. (ground (arith, a, c), ground (arith, b, d)),
          ground (arith, a, b, c, d, e, f, h),
          ground (arith, g),
        )

  -- Nothing but the version is there.
  abbrev IsCleared : Bytes → Db → Type 0
  IsCleared expected db' =
      (hget db' meta_key schema_field ≡ some expected)
      × ((x : Bytes) → hget db' entities_key x ≡ none)
      × (s.entries db' changelog_key ≡ [])

  -- A store of the expected version is kept, and every other one is cleared.
  abbrev pub IsMigrated : Bytes → Db → Db → Type 0
  IsMigrated expected db db' =
      (hget db meta_key schema_field ≡ some expected → db' ≡ db)
      × (hget db meta_key schema_field ≢ some expected → IsCleared expected db')

  fresh-IsCleared :
      (laws : HashLaws s) (streams : StreamLaws s) (expected : Bytes) (db : Db)
      → IsCleared expected (hset (flushdb db) meta_key schema_field expected)
  unfolding beq
  fresh-IsCleared laws streams expected db =
      let at = laws.hget-hset (flushdb db) meta_key schema_field expected in
      (
        at meta_key schema_field,
        λ x. at entities_key x ∙ laws.hget-flushdb db entities_key x,
        streams.entries-hset (flushdb db) meta_key schema_field expected changelog_key
            ∙ streams.entries-flushdb db changelog_key,
      )

  stored_differs : (v w : Bytes) → beq v w ≡ false → some v ≡ some w → ⊥
  stored_differs v w f same =
      let e : v ≡ w = ground (arith, same) in let t = (beq_iff v w).1 e in ground (arith, t, f)

  -- A migration to a version that is not empty changes nothing if the stored version is the expected one.
  -- Otherwise, also if none is stored, the stored version is the expected one after it, and no entity and
  -- no changelog is left.
  pub migrate_schema_lem :
      (laws : HashLaws s) (streams : StreamLaws s) (expected : Bytes) (db : Db)
      → expected ≢ []
      → IsMigrated expected db (migrate_schema expected db)
  unfolding migrate_schema beq
  migrate_schema_lem laws streams [] db given = absurd (given refl)
  migrate_schema_lem laws streams (c ∷ expected) db given =
      elim (Option-cases (hget db meta_key schema_field)) [
        | inl e ↦
            rw (migrate_schema, e)
              (
                λ same. absurd (ground (arith, same)),
                λ _. fresh-IsCleared laws streams (c ∷ expected) db,
              )
        | inr (stored, e) ↦ elim (Bool-cases (beq stored (c ∷ expected))) [
          | inl f ↦
              let same = ap some ((beq_iff stored (c ∷ expected)).0 f) in
              rw (migrate_schema, e, f) (λ _. refl, λ other. absurd (other same))
          | inr f ↦
              rw (migrate_schema, e, f)
                (
                  λ same. absurd (stored_differs stored (c ∷ expected) f same),
                  λ _. fresh-IsCleared laws streams (c ∷ expected) db,
                )
        ]
      ]
