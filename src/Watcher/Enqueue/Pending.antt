-- ===== src/Watcher/Enqueue/Pending.antt =====
-- The queue and the position behind a flush of the background writer.
use wdxref.Base.{
  ◌≡◌, ◌≢◌, ◌⊎◌, refl, sym, ap, ◌∙◌, true, ◌||◌, Option, none, some, List, [], ◌∷◌, ◌++◌, Bytes,
  beq, beq_iff, beq-eq-false, contains, All, Bool-cases, Result-cases, inl, inr, ok, arith,
}
use wdxref.Store.Kvrocks.{Kvrocks, HashLaws, SetLaws}
use wdxref.Store.Scripts.{meta_key}
use wdxref.Store.Pipe.{
  StoreError, pending_key, eid_of, members_of, each, exec, new_pipe, enqueue_entities,
  set_sync_state, run_commands, run_command,
}
use wdxref.Store.Queue.{sismember-each}
use wdxref.Watcher.Enqueue.{Item, Input, received, tick, flush_pipe, last_event_id_field}

-- The items among the inputs.
abbrev pub items : List Input → List Item
items [] = []
items (received i ∷ inputs) = i ∷ items inputs
items (tick ∷ inputs) = items inputs

-- The position behind some items: the one of the last of them, or the one from before.
abbrev pub position : Option Bytes → List Item → Option Bytes
position start [] = start
position start (i ∷ is) = position (some i.event_id) is

pub position-append :
    (start : Option Bytes) (before after : List Item)
    → position start (before ++ after) ≡ position (position start before) after
position-append start [] after = refl
position-append start (i ∷ before) after = position-append (some i.event_id) before after

-- Every member of a batch has its id among the members that are added.
members_of-contains :
    (qids ms : List Bytes) (qid : Bytes)
    → members_of qids ≡ ok ms
    → contains qid qids ≡ true
    → (eid : Bytes) × (eid_of qid ≡ ok eid) × (contains eid ms ≡ true)
unfolding members_of contains
members_of-contains [] ms qid h k = cc
members_of-contains (q ∷ qids) ms qid h k = elim (Result-cases (eid_of q)) [
  | inr (e, bad) ↦ absurd (ground arith)
  | inl (eid, good) ↦ elim (Result-cases (members_of qids)) [
    | inr (e, bad) ↦ absurd (ground arith)
    | inl (more, fine) ↦
        let all : eid ∷ more ≡ ms = ground arith in
        elim (Bool-cases (beq q qid)) [
          | inl same ↦
              let path : q ≡ qid = (beq_iff q qid).0 same in
              (eid, ap eid_of (sym path) ∙ good, rw (← all) (ground (arith, beq_iff eid eid)))
          | inr other ↦
              let (found, its_id, there) = members_of-contains qids more qid fine (ground arith) in
              (found, its_id, rw (← all) (ground arith))
        ]
  ]
]

module _ (s : Kvrocks) where
  -- The entity waits in the queue.
  abbrev pub IsPending : s.Db → Item → Type 0
  IsPending db i = (eid : Bytes) × (eid_of i.qid ≡ ok eid) × (s.sismember db pending_key eid ≡ true)

  -- What a flush writes.
  abbrev pub written : List Bytes → Bytes → s.Db → s.Db
  written ms id db =
      s.hset (each s (λ m d. s.sadd d pending_key m) ms db) meta_key last_event_id_field id

  -- A flush of a batch writes nothing and fails, or writes the members and the position.
  pub exec-flush_pipe :
      (loading : Option StoreError) (qid : Bytes) (qids : List Bytes) (id : Bytes) (db : s.Db)
      → id ≢ []
      → let r =
          exec s (flush_pipe loading (record { batch = qid ∷ qids; last_event_id = id })) db in
        ((e : StoreError) × (r ≡ (some e, db)))
        ⊎ ((ms : List Bytes) × (members_of (qid ∷ qids) ≡ ok ms) × (r ≡ (none, written ms id db)))
  unfolding exec flush_pipe new_pipe enqueue_entities set_sync_state run_commands run_command
  exec-flush_pipe (some e) qid qids id db h = rw (beq-eq-false id [] h) (inl (e, refl))
  exec-flush_pipe none qid qids id db h = elim (Result-cases (members_of (qid ∷ qids))) [
    | inr (e, bad) ↦ rw (bad, beq-eq-false id [] h) (inl (e, refl))
    | inl (ms, good) ↦ rw (beq-eq-false id [] h, good) (inr (ms, refl, refl))
  ]

module _ (s : Kvrocks) (hashes : HashLaws s) (sets : SetLaws s) where
  written_pending :
      (ms : List Bytes) (id eid : Bytes) (db : s.Db)
      → s.sismember (written s ms id db) pending_key eid
        ≡ (contains eid ms || s.sismember db pending_key eid)
  unfolding beq
  written_pending ms id eid db =
      sets.sismember-hset _ _ _ _ _ _ ∙ sismember-each s sets ms pending_key pending_key eid db

  pub written_position :
      (ms : List Bytes) (id : Bytes) (db : s.Db)
      → s.hget (written s ms id db) meta_key last_event_id_field ≡ some id
  unfolding beq
  written_position ms id db = hashes.hget-hset _ _ _ _ _ _

  pub kept-IsPending :
      (ms : List Bytes) (id : Bytes) (db : s.Db) (is : List Item)
      → All (IsPending s db) is
      → All (IsPending s (written s ms id db)) is
  kept-IsPending ms id db [] h = tt
  kept-IsPending ms id db (i ∷ is) ((eid, its_id, there), h) =
      ((eid, its_id, ground (arith, written_pending ms id eid db)), kept-IsPending ms id db is h)

  pub new-IsPending :
      (qids ms : List Bytes) (id : Bytes) (db : s.Db) (is : List Item)
      → members_of qids ≡ ok ms
      → All (λ i. contains i.qid qids ≡ true) is
      → All (IsPending s (written s ms id db)) is
  new-IsPending qids ms id db [] good h = tt
  new-IsPending qids ms id db (i ∷ is) good (there, h) =
      let (eid, its_id, added) = members_of-contains qids ms i.qid good there in
      (
        (eid, its_id, ground (arith, written_pending ms id eid db)),
        new-IsPending qids ms id db is good h,
      )
