-- ===== src/Watcher/Enqueue.antt =====
-- The background writer of connectAndProcess in internal/watcher/eventstream.go, which collects the
-- QIDs of events and writes them to the queue together with the position of the stream. What its
-- select statement receives is a list of inputs; the channel is closed behind the last one. `loading`
-- is the error of loading the scripts of a pipe.
pub mod Pending
pub mod Persisted
use wdxref.Base.{
  ℕ, ◌≡◌, refl, Bool, true, false, Option, none, some, List, [], ◌∷◌, ◌++◌, Bytes, codes, beq,
  contains, leb, length, if◌then◌else◌, Result, ok, err,
}
use wdxref.Store.Kvrocks.{Kvrocks}
use wdxref.Store.Pipe.{StoreError, Pipe, new_pipe, enqueue_entities, set_sync_state, exec}

abbrev pub enqueue_batch_size : ℕ
enqueue_batch_size = 1000

abbrev pub last_event_id_field : Bytes
last_event_id_field = codes "last_event_id"

pub record Item : Type 0 where
  pub qid : Bytes
  pub event_id : Bytes

pub data Input : Type 0 where
  received : Item → Input
  tick : Input

-- batchSet and batchLastEventID.
pub record Buffer : Type 0 where
  pub batch : List Bytes
  pub last_event_id : Bytes

abbrev pub empty_buffer : Buffer
empty_buffer = record { batch = []; last_event_id = [] }

-- The pipe of a flush.
unfoldable pub flush_pipe : Option StoreError → Buffer → Pipe
unfolding beq new_pipe enqueue_entities set_sync_state
flush_pipe loading b =
    let p = enqueue_entities b.batch (new_pipe loading) in
    if beq b.last_event_id [] then p else set_sync_state last_event_id_field b.last_event_id p

-- batchSet[item.qid] = struct{}{}
unfoldable pub add_item : Item → Buffer → Buffer
unfolding contains
add_item i b = record {
  batch = if contains i.qid b.batch then b.batch else i.qid ∷ b.batch;
  last_event_id = i.event_id;
}

module _ (s : Kvrocks) (loading : Option StoreError) where
  abbrev pub flushed : Option StoreError × s.Db → Result StoreError Buffer × s.Db
  flushed (none, db) = (ok empty_buffer, db)
  flushed (some e, db) = (err e, db)

  -- flushOnce
  unfoldable pub flush_once : Buffer → s.Db → Result StoreError Buffer × s.Db
  unfolding flush_pipe exec
  flush_once b db = elim b.batch [
    | [] ↦ (ok b, db)
    | _ ∷ _ ↦ flushed (exec s (flush_pipe loading b) db)
  ]

  -- One turn of the loop.
  unfoldable pub writer_step : Input → Buffer → s.Db → Result StoreError Buffer × s.Db
  unfolding flush_once add_item
  writer_step (received i) b db =
      let next = add_item i b in
      if leb enqueue_batch_size (length next.batch) then flush_once next db else (ok next, db)
  writer_step tick b db = flush_once b db

  -- The loop; an error ends it.
  unfoldable pub write_all : List Input → Buffer → s.Db → Result StoreError Buffer × s.Db
  unfolding writer_step
  write_all [] b db = flush_once b db
  write_all (input ∷ inputs) b db =
      let (result, db1) = writer_step input b db in
      elim result [ err e ↦ (err e, db1) | ok next ↦ write_all inputs next db1 ]
