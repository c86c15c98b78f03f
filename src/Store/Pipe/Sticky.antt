-- ===== src/Store/Pipe/Sticky.antt =====
-- The error of a pipe of internal/store/writer.go, from the operation that sets it to Exec.
use wdxref.Base.{
  ◌≡◌, refl, ◌∙◌, Option, none, some, List, [], ◌∷◌, ◌++◌, append_assoc, append-nil, Bytes, Result,
  ok, err, ◌>>=◌,
}
use wdxref.Base.Int.{ℤ}
use wdxref.Store.Kvrocks.{Kvrocks}
use wdxref.Store.Pipe.{
  StoreError, Command, run_delete, hset_meta, hdel_meta, sadd, srem, run_record_failed, zrem_failed,
  del_failed, Pipe, MappingsJson, EntityRecord, RawEntityRecord, new_pipe, queue, eid_of,
  members_of, upsert_raw_commands, upsert_raw_entity, upsert_commands, upsert_entity, delete_entity,
  set_sync_state, del_sync_states, enqueue_entities, ack_processed_entities, record_failed_entity,
  delete_failed_entity, pending_key, processing_key, run_commands, exec,
}

-- A call of a method of the pipe.
pub data Op : Type 0 where
  upsert_raw : RawEntityRecord → Op
  upsert : EntityRecord → Op
  delete : Bytes → Op
  set_state : Bytes → Bytes → Op
  del_states : List Bytes → Op
  enqueue ack : List Bytes → Op
  record_failure : Bytes → Bytes → Bytes → ℤ → Op
  delete_failure : Bytes → Op

abbrev with_ids : (List Bytes → List Command) → List Bytes → Result StoreError (List Command)
with_ids f [] = ok []
with_ids f (q ∷ qs) = elim (members_of (q ∷ qs)) [ err e ↦ err e | ok ms ↦ ok (f ms) ]

abbrev with_id : (Bytes → List Command) → Bytes → Result StoreError (List Command)
with_id f q = elim (eid_of q) [ err e ↦ err e | ok id ↦ ok (f id) ]

module _ {s : Kvrocks} (j : MappingsJson s) where
  abbrev pub apply : Op → Pipe → Pipe
  apply (upsert_raw rec) = upsert_raw_entity rec
  apply (upsert rec) = upsert_entity j rec
  apply (delete qid) = delete_entity qid
  apply (set_state k v) = set_sync_state k v
  apply (del_states ks) = del_sync_states ks
  apply (enqueue qids) = enqueue_entities qids
  apply (ack qids) = ack_processed_entities qids
  apply (record_failure qid e now micros) = record_failed_entity qid e now micros
  apply (delete_failure qid) = delete_failed_entity qid

  abbrev pub apply_all : List Op → Pipe → Pipe
  apply_all [] p = p
  apply_all (o ∷ os) p = apply_all os (apply o p)

  -- The commands of one operation, or the reason why it is invalid.
  abbrev pub commands_of : Op → Result StoreError (List Command)
  commands_of (upsert_raw rec) = upsert_raw_commands rec
  commands_of (upsert rec) = upsert_commands j rec
  commands_of (delete qid) = with_id (λ eid. run_delete eid ∷ []) qid
  commands_of (set_state k v) = ok (hset_meta k v ∷ [])
  commands_of (del_states ks) = ok (hdel_meta ks ∷ [])
  commands_of (enqueue qids) = with_ids (λ ms. sadd pending_key ms ∷ []) qids
  commands_of (ack qids) = with_ids (λ ms. srem processing_key ms ∷ []) qids
  commands_of (record_failure qid e now micros) =
      with_id (λ id. run_record_failed id e now micros ∷ []) qid
  commands_of (delete_failure qid) = with_id (λ id. zrem_failed id ∷ del_failed id ∷ []) qid

  -- The commands of all operations, or the error of the first invalid one.
  abbrev pub all_commands : List Op → Result StoreError (List Command)
  all_commands [] = ok []
  all_commands (o ∷ os) = commands_of o >>= λ cs. all_commands os >>= λ rest. ok (cs ++ rest)

  apply-queue : (o : Op) (p : Pipe) → apply o p ≡ queue (commands_of o) p
  unfolding upsert_raw_entity upsert_entity delete_entity set_sync_state del_sync_states
      enqueue_entities ack_processed_entities record_failed_entity delete_failed_entity
  apply-queue (enqueue []) p = refl
  apply-queue (enqueue (q ∷ qs)) p = refl
  apply-queue (ack []) p = refl
  apply-queue (ack (q ∷ qs)) p = refl
  apply-queue _ p = refl

  abbrev pub failed : List Command → StoreError → Pipe
  failed q e = record { queued = q; error = some e }

  pub apply_all-failed :
      (os : List Op) (q : List Command) (e : StoreError) → apply_all os (failed q e) ≡ failed q e
  apply_all-failed [] q e = refl
  apply_all-failed (o ∷ os) q e = rw (apply-queue o (failed q e)) (apply_all-failed os q e)

  abbrev outcome : List Command → Result StoreError (List Command) → s.Db → Option StoreError × s.Db
  outcome q (ok cs) db = run_commands s (q ++ cs) db
  outcome q (err e) db = (some e, db)

  outcome_shift :
      (q cs : List Command) (r : Result StoreError (List Command)) (db : s.Db)
      → outcome (q ++ cs) r db ≡ outcome q (r >>= λ rest. ok (cs ++ rest)) db
  outcome_shift q cs (ok rest) db = rw append_assoc
  outcome_shift q cs (err e) db = refl

  exec-apply_all :
      (os : List Op) (q : List Command) (db : s.Db)
      → exec s (apply_all os (record { queued = q; error = none })) db
        ≡ outcome q (all_commands os) db
  unfolding exec
  exec-apply_all [] q db = rw append-nil
  exec-apply_all (o ∷ os) q db =
      rw (apply-queue o (record { queued = q; error = none }))
        (go (commands_of o) (λ q'. exec-apply_all os q' db))
    where
      go :
          (r : Result StoreError (List Command))
          → ((q' : List Command)
              → exec s (apply_all os (record { queued = q'; error = none })) db
                ≡ outcome q' (all_commands os) db)
          → exec s (apply_all os (queue r (record { queued = q; error = none }))) db
            ≡ outcome q (r >>= λ cs. all_commands os >>= λ rest. ok (cs ++ rest)) db
      go (err e) ih = rw (apply_all-failed os q e)
      go (ok cs) ih = ih (q ++ cs) ∙ outcome_shift q cs (all_commands os) db

  -- Filling a pipe and executing it runs the commands of all operations in order if every operation
  -- is valid. Otherwise Exec returns the error of the first invalid operation and nothing is run.
  pub exec_all_or_nothing :
      (os : List Op) (db : s.Db)
      → exec s (apply_all os (new_pipe none)) db
        ≡ (elim (all_commands os) [ ok cs ↦ run_commands s cs db | err e ↦ (some e, db) ])
  unfolding new_pipe
  exec_all_or_nothing os db = exec-apply_all os [] db ∙ plain (all_commands os)
    where
      plain :
          (r : Result StoreError (List Command))
          → outcome [] r db ≡ (elim r [ ok cs ↦ run_commands s cs db | err e ↦ (some e, db) ])
      plain (ok cs) = refl
      plain (err e) = refl
