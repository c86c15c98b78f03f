-- ===== src/Watcher/Drain.antt =====
-- The queue of internal/watcher/eventstream.go: drainQueue, handleBatchResult, requeueOnFailure and a
-- turn of retryFailedEntities. A batch that is fetched while the one before it is settled runs first
-- here; the two touch different keys. `loading` is the error of loading the scripts of a pipe, `now` the
-- time of a failure as text and in microseconds.
pub mod Settled
use wdxref.Base.{
  ℕ, ◌≡◌, refl, Bool, true, false, Option, none, some, List, [], ◌∷◌, ◌++◌, Bytes, codes, beq, ltb,
  ◌==◌, length, if◌then◌else◌, Result, ok, err,
}
use wdxref.Base.Int.{ℤ}
use wdxref.Store.Kvrocks.{Kvrocks}
use wdxref.Store.Pipe.{
  StoreError, Pipe, MappingsJson, new_pipe, enqueue_entities, ack_processed_entities,
  record_failed_entity, delete_failed_entity, exec,
}
use wdxref.Store.Queue.{claim_pending_batch}
use wdxref.Watcher.Claims.{WikidataJson}
use wdxref.Watcher.Wikidata.{ApiJson, Client, Reply}
use wdxref.Watcher.Processor.{EntityError, absent, parse, ProcessError, lookup, process_entities}

abbrev pub Errors : Type 0
Errors = List (Bytes × EntityError)

abbrev pub retry_batch_size : ℕ
retry_batch_size = 50

-- perr.Error()
unfoldable pub error_text : Bytes → EntityError → Bytes
error_text qid absent = codes "entity " ++ qid ++ codes " absent from API response"
error_text qid (parse e) = codes "parse entity " ++ qid ++ codes ": " ++ e

-- The time of a failure.
pub record Now : Type 0 where
  pub text : Bytes
  pub micros : ℤ

-- The loop of handleBatchResult over the QIDs.
unfoldable pub record_failures : Now → Errors → List Bytes → Pipe → Pipe
unfolding lookup error_text record_failed_entity
record_failures now errors [] p = p
record_failures now errors (qid ∷ qids) p = elim (lookup qid errors) [
  | none ↦ record_failures now errors qids p
  | some e ↦
      record_failures now errors qids
        (record_failed_entity qid (error_text qid e) now.text now.micros p)
]

module _ (s : Kvrocks) where
  -- requeueOnFailure; an error of the pipe is logged.
  unfoldable pub requeue_on_failure : Option StoreError → List Bytes → s.Db → s.Db
  unfolding new_pipe enqueue_entities ack_processed_entities exec
  requeue_on_failure loading [] db = db
  requeue_on_failure loading (qid ∷ qids) db =
      let queued = enqueue_entities (qid ∷ qids) (new_pipe loading) in
      (exec s (ack_processed_entities (qid ∷ qids) queued) db).1

  -- handleBatchResult: whether the caller goes on. The wait behind a rate limit is left out.
  unfoldable pub handle_batch_result :
      Option StoreError → Now → List Bytes → Result ProcessError Errors → s.Db → Bool × s.Db
  unfolding requeue_on_failure record_failures new_pipe ack_processed_entities exec
  handle_batch_result loading now qids (err e) db = (false, requeue_on_failure loading qids db)
  handle_batch_result loading now qids (ok errors) db =
      let failures = record_failures now errors qids (new_pipe loading) in
      (true, (exec s (ack_processed_entities qids failures) db).1)

  -- What drainQueue meets in one turn: whether the context is cancelled, the reply to the fetch, and
  -- what the pipes meet.
  pub record Turn : Type 0 where
    pub cancelled : Bool
    pub reply : Reply
    pub processing : Option StoreError
    pub settling : Option StoreError
    pub now : Now

  -- The fetched batch that is not settled yet: `pending`.
  abbrev pub Fetched : Type 0
  Fetched = Option (List Bytes × Result ProcessError Errors)

  -- A batch that is in flight is settled; nothing is in flight at first.
  unfoldable pub settle : Turn → Fetched → s.Db → Bool × s.Db
  unfolding handle_batch_result
  settle t none db = (true, db)
  settle t (some (qids, result)) db = handle_batch_result t.settling t.now qids result db

  abbrev pub requeue_fetched : Turn → Fetched → s.Db → s.Db
  requeue_fetched t none db = db
  requeue_fetched t (some (qids, result)) db = requeue_on_failure t.settling qids db

  module _ (j : MappingsJson s) (json : WikidataJson) (api : ApiJson) where
    -- fetchAsync, for a batch that is not empty.
    unfoldable pub fetch_batch : Turn → List Bytes → Client → s.Db → Fetched × s.Db × Client
    unfolding process_entities
    fetch_batch t [] c db = (none, db, c)
    fetch_batch t (qid ∷ qids) c db =
        let (result, db1, next) =
          process_entities s j json api (qid ∷ qids) t.reply t.processing c db in
        (some (qid ∷ qids, result), db1, next)

    -- drainQueue: the loop over turns; without a turn it stops as if it were cancelled.
    unfoldable pub drain_queue : List Turn → Fetched → Client → s.Db → s.Db × Client
    unfolding claim_pending_batch settle fetch_batch
    drain_queue [] pending c db = (db, c)
    drain_queue (t ∷ turns) pending c db =
        let (qids, db1) = claim_pending_batch s retry_batch_size db in
        let (next, db2, c2) = fetch_batch t qids c db1 in
        let (goes_on, db3) = settle t pending db2 in
        let rest = drain_queue turns next c2 db3 in
        if t.cancelled
        then (db, c)
        else if goes_on
        then if length qids == 0
          then (db3, c2)
          else if ltb (length qids) retry_batch_size
          then ((settle t next db3).1, c2)
          else rest
        else (requeue_fetched t next db3, c2)

    -- The loop of retryFailedEntities over the QIDs.
    unfoldable pub settle_retries : Option StoreError → Now → Errors → List Bytes → s.Db → s.Db
    unfolding lookup error_text record_failed_entity delete_failed_entity new_pipe exec
    settle_retries loading now errors [] db = db
    settle_retries loading now errors (qid ∷ qids) db =
        let p = elim (lookup qid errors) as (λ e. Pipe) [
          | some e ↦
              record_failed_entity qid (error_text qid e) now.text now.micros (new_pipe loading)
          | none ↦ delete_failed_entity qid (new_pipe loading)
        ] in
        settle_retries loading now errors qids (exec s p db).1

    -- One tick of retryFailedEntities, for the QIDs that LastFailedEntities gives.
    unfoldable pub retry_failed : Turn → List Bytes → Client → s.Db → s.Db × Client
    unfolding process_entities settle_retries
    retry_failed t [] c db = (db, c)
    retry_failed t (qid ∷ qids) c db =
        let (result, db1, next) =
          process_entities s j json api (qid ∷ qids) t.reply t.processing c db in
        elim result [
          | err e ↦ (db1, next)
          | ok errors ↦ (settle_retries t.settling t.now errors (qid ∷ qids) db1, next)
        ]
