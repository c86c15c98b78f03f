-- ===== src/Watcher/Drain/Settled.antt =====
-- Where the entities of a batch are when it has been settled.
use wdxref.Base.{
  ◌≡◌, refl, ap, ◌∙◌, Bool, true, false, ◌&&◌, ◌||◌, not, none, List, [], ◌∷◌, ◌++◌, Bytes, beq,
  contains, All, All-append, Bool-cases, Option-cases, Result-cases, inl, inr, Result, ok, err,
  arith,
}
use wdxref.Base.Int.{ℤ}
use wdxref.Store.Kvrocks.{Kvrocks, SetLaws}
use wdxref.Store.Pipe.{
  Command, run_record_failed, sadd, srem, Pipe, new_pipe, eid_of, members_of, pending_key,
  processing_key, fail_key, record_failed, each, run_command, run_commands, exec, enqueue_entities,
  ack_processed_entities, record_failed_entity,
}
use wdxref.Store.Queue.{sismember-each}
use wdxref.Watcher.Processor.{ProcessError, lookup}
use wdxref.Watcher.Drain.{
  Errors, Now, error_text, record_failures, requeue_on_failure, handle_batch_result,
}

-- A command that records a failure.
abbrev IsFailure : Command → Type 0
IsFailure c =
    (id : Bytes) × (message : Bytes) × (now : Bytes) × (micros : ℤ) × (c
      ≡ run_record_failed id message now micros)

-- A pipe that goes on and holds failures only.
record HoldsFailures (p : Pipe) : Type 0 where
  goes_on : p.error ≡ none
  failures : All IsFailure p.queued

fresh : HoldsFailures (new_pipe none)
unfolding new_pipe
fresh = record { goes_on = refl; failures = tt }

members_of_ids :
    (qid : Bytes) (qids ms : List Bytes)
    → members_of (qid ∷ qids) ≡ ok ms
    → (eid : Bytes) × (more : List Bytes) × (eid_of qid ≡ ok eid) × (members_of qids ≡ ok more)
unfolding members_of
members_of_ids qid qids ms h = elim (Result-cases (eid_of qid)) [
  | inr (e, bad) ↦ absurd (ground arith)
  | inl (eid, good) ↦ elim (Result-cases (members_of qids)) [
    | inr (e, bad) ↦ absurd (ground arith)
    | inl (more, fine) ↦ (eid, more, good, fine)
  ]
]

record_failed-HoldsFailures :
    (qid eid message : Bytes) (n : Now) (p : Pipe)
    → eid_of qid ≡ ok eid
    → HoldsFailures p
    → HoldsFailures (record_failed_entity qid message n.text n.micros p)
unfolding record_failed_entity
record_failed-HoldsFailures qid eid message n p good h =
    rw (good, h.goes_on)
      (record {
        goes_on = refl;
        failures =
            All-append IsFailure p.queued _ h.failures ((eid, message, n.text, n.micros, refl), tt);
      })

record_failures-HoldsFailures :
    (now : Now) (errors : Errors) (qids ms : List Bytes) (p : Pipe)
    → members_of qids ≡ ok ms
    → HoldsFailures p
    → HoldsFailures (record_failures now errors qids p)
unfolding record_failures
record_failures-HoldsFailures now errors [] ms p good h = h
record_failures-HoldsFailures now errors (qid ∷ qids) ms p good h =
    let (eid, more, its_id, fine) = members_of_ids qid qids ms good in
    elim (Option-cases (lookup qid errors)) [
      | inl fine_one ↦
          rw (fine_one, record_failures)
            (record_failures-HoldsFailures now errors qids more p fine h)
      | inr (e, failed) ↦
          rw (failed, record_failures)
            (record_failures-HoldsFailures now errors qids more _ fine
              (record_failed-HoldsFailures qid eid (error_text qid e) now p its_id h))
    ]

abbrev holding : List Command → Pipe
holding cs = record { queued = cs; error = none }

enqueue_lem :
    (qid : Bytes) (qids ms : List Bytes)
    → members_of (qid ∷ qids) ≡ ok ms
    → enqueue_entities (qid ∷ qids) (new_pipe none) ≡ holding (sadd pending_key ms ∷ [])
unfolding enqueue_entities new_pipe
enqueue_lem qid qids ms good = rw good refl

ack_lem :
    (qid : Bytes) (qids ms : List Bytes) (cs : List Command)
    → members_of (qid ∷ qids) ≡ ok ms
    → ack_processed_entities (qid ∷ qids) (holding cs) ≡ holding (cs ++ srem processing_key ms ∷ [])
unfolding ack_processed_entities
ack_lem qid qids ms cs good = rw good refl

module _ (s : Kvrocks) (laws : SetLaws s) where
  record_failed-sismember :
      (id message now : Bytes) (micros : ℤ) (db : s.Db) (k n : Bytes)
      → s.sismember (record_failed s id message now micros db) k n ≡ s.sismember db k n
  unfolding record_failed
  record_failed-sismember id message now micros db k n =
      elim (Bool-cases (s.exists db (fail_key id))) [
        | inl there ↦
            rw (there, record_failed)
              (simp (laws.sismember-zadd, laws.sismember-hincrby, laws.sismember-hset))
        | inr fresh ↦ rw (fresh, record_failed) (simp (laws.sismember-zadd, laws.sismember-hset))
      ]

  failures-sismember :
      (cs : List Command) (db : s.Db) (k n : Bytes)
      → All IsFailure cs
      → s.sismember (run_commands s cs db).1 k n ≡ s.sismember db k n
  unfolding run_commands run_command
  failures-sismember [] db k n h = refl
  failures-sismember (c ∷ cs) db k n ((id, message, now, micros, e), h) =
      failures-sismember cs (run_command s c db).1 k n h
      ∙ rw e (record_failed-sismember id message now micros db k n)

  run_commands-append :
      (cs ds : List Command) (db : s.Db)
      → (run_commands s (cs ++ ds) db).1 ≡ (run_commands s ds (run_commands s cs db).1).1
  unfolding run_commands
  run_commands-append [] ds db = refl
  run_commands-append (c ∷ cs) ds db = run_commands-append cs ds (run_command s c db).1

  sismember-srem_each :
      (ms : List Bytes) (k j n : Bytes) (db : s.Db)
      → s.sismember (each s (λ m d. s.srem d k m) ms db) j n
        ≡ (not (beq k j && contains n ms) && s.sismember db j n)
  unfolding contains
  sismember-srem_each [] k j n db = ground arith
  sismember-srem_each (m ∷ ms) k j n db =
      ground (arith, sismember-srem_each ms k j n (s.srem db k m), laws.sismember-srem db k m j n)

  -- Where the members are behind a settled batch.
  abbrev pub IsSettled : Bool → List Bytes → s.Db → s.Db → Bytes → Type 0
  IsSettled back ms before after n =
      (s.sismember after pending_key n
        ≡ (back && contains n ms || s.sismember before pending_key n))
      × (s.sismember after processing_key n
          ≡ (not (contains n ms) && s.sismember before processing_key n))

  requeue-each :
      (qid : Bytes) (qids ms : List Bytes) (db : s.Db)
      → members_of (qid ∷ qids) ≡ ok ms
      → requeue_on_failure s none (qid ∷ qids) db
        ≡ each s
            (λ m d. s.srem d processing_key m)
            ms
            (each s (λ m d. s.sadd d pending_key m) ms db)
  unfolding requeue_on_failure exec run_commands run_command
  requeue-each qid qids ms db good =
      ap (λ p. (exec s (ack_processed_entities (qid ∷ qids) p) db).1) (enqueue_lem qid qids ms good)
      ∙ ap (λ p. (exec s p db).1) (ack_lem qid qids ms (sadd pending_key ms ∷ []) good)

  requeue-IsSettled :
      (qid : Bytes) (qids ms : List Bytes) (db : s.Db) (n : Bytes)
      → members_of (qid ∷ qids) ≡ ok ms
      → IsSettled true ms db (requeue_on_failure s none (qid ∷ qids) db) n
  unfolding beq
  requeue-IsSettled qid qids ms db n good =
      let added = each s (λ m d. s.sadd d pending_key m) ms db in
      let a = sismember-each s laws ms pending_key pending_key n db in
      let b = sismember-each s laws ms pending_key processing_key n db in
      let c = sismember-srem_each ms processing_key pending_key n added in
      let d = sismember-srem_each ms processing_key processing_key n added in
      rw (requeue-each qid qids ms db good) (ground (arith, a, c), ground (arith, b, d))

  acked-each :
      (qid : Bytes) (qids ms : List Bytes) (p : Pipe) (db : s.Db)
      → members_of (qid ∷ qids) ≡ ok ms
      → HoldsFailures p
      → (exec s (ack_processed_entities (qid ∷ qids) p) db).1
        ≡ each s (λ m d. s.srem d processing_key m) ms (run_commands s p.queued db).1
  unfolding ack_processed_entities exec run_command
  acked-each qid qids ms p db good h =
      let queued : exec s (ack_processed_entities (qid ∷ qids) p) db
          ≡ run_commands s (p.queued ++ srem processing_key ms ∷ []) db =
        rw (good, h.goes_on) refl in
      ap (λ r. r.1) queued
      ∙ run_commands-append p.queued (srem processing_key ms ∷ []) db
      ∙ unfold run_commands in refl

  acked-IsSettled :
      (qid : Bytes) (qids ms : List Bytes) (p : Pipe) (db : s.Db) (n : Bytes)
      → members_of (qid ∷ qids) ≡ ok ms
      → HoldsFailures p
      → IsSettled false ms db (exec s (ack_processed_entities (qid ∷ qids) p) db).1 n
  unfolding beq
  acked-IsSettled qid qids ms p db n good h =
      let failed = (run_commands s p.queued db).1 in
      let a = failures-sismember p.queued db pending_key n h.failures in
      let b = failures-sismember p.queued db processing_key n h.failures in
      let c = sismember-srem_each ms processing_key pending_key n failed in
      let d = sismember-srem_each ms processing_key processing_key n failed in
      rw (acked-each qid qids ms p db good h) (ground (arith, a, c), ground (arith, b, d))

  abbrev pub goes_back : Result ProcessError Errors → Bool
  goes_back (err e) = true
  goes_back (ok errors) = false

  -- When a batch of valid ids has been settled, none of them is in the processing set. They are all
  -- pending again if the batch failed, and otherwise the pending set is as before. No other member
  -- changes its place.
  pub handle_batch_result-IsSettled :
      (now : Now) (qid : Bytes) (qids ms : List Bytes) (result : Result ProcessError Errors)
      (db : s.Db) (n : Bytes)
      → members_of (qid ∷ qids) ≡ ok ms
      → IsSettled
          (goes_back result)
          ms
          db
          (handle_batch_result s none now (qid ∷ qids) result db).1
          n
  unfolding handle_batch_result
  handle_batch_result-IsSettled now qid qids ms (err e) db n good =
      requeue-IsSettled qid qids ms db n good
  handle_batch_result-IsSettled now qid qids ms (ok errors) db n good =
      acked-IsSettled qid qids ms (record_failures now errors (qid ∷ qids) (new_pipe none)) db n
        good (record_failures-HoldsFailures now errors (qid ∷ qids) ms (new_pipe none) good fresh)
