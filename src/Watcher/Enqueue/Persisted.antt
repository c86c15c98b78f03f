-- ===== src/Watcher/Enqueue/Persisted.antt =====
-- What the position that the writer stores says about the queue.
use wdxref.Base.{
  ◌≡◌, ◌≢◌, ◌⊎◌, refl, sym, ap, ◌∙◌, true, Option, some, List, [], ◌∷◌, ◌++◌, Bytes, beq_refl,
  contains, length, leb, All, All-append, Bool-cases, inl, inr, Result, ok, err, arith,
  append_assoc, append-nil,
}
use wdxref.Store.Kvrocks.{Kvrocks, HashLaws, SetLaws}
use wdxref.Store.Scripts.{meta_key}
use wdxref.Store.Pipe.{StoreError, members_of}
use wdxref.Watcher.Enqueue.{
  Item, Input, received, tick, Buffer, empty_buffer, add_item, flush_once, writer_step, write_all,
  enqueue_batch_size, last_event_id_field,
}
use wdxref.Watcher.Enqueue.Pending.{
  items, position, position-append, IsPending, written, exec-flush_pipe, written_position,
  kept-IsPending, new-IsPending,
}

nothing_held : (qid : Bytes) → contains qid [] ≢ true
unfolding contains
nothing_held qid h = cc

module _ (s : Kvrocks) (hashes : HashLaws s) (sets : SetLaws s) where
  now_held : (i : Item) (b : Buffer) → contains i.qid (add_item i b).batch ≡ true
  unfolding add_item contains
  now_held i b = elim (Bool-cases (contains i.qid b.batch)) [
    | inl there ↦ ground arith
    | inr new ↦ ground (arith, beq_refl i.qid)
  ]

  still_held :
      (i : Item) (b : Buffer) (rest : List Item)
      → All (λ x. contains x.qid b.batch ≡ true) rest
      → All (λ x. contains x.qid (add_item i b).batch ≡ true) rest
  unfolding add_item contains
  still_held i b [] h = tt
  still_held i b (x ∷ rest) (hx, h) = (ground arith, still_held i b rest h)

  -- What was stored so far: the QIDs of the first items are pending, and the position is that of the
  -- last of them.
  pub record Stored (start : Option Bytes) (db : s.Db) (done : List Item) : Type 0 where
    pub pending : All (IsPending s db) done
    pub position_there : s.hget db meta_key last_event_id_field ≡ position start done

  -- The buffer holds the items behind those.
  record Holds (b : Buffer) (rest : List Item) : Type 0 where
    held : All (λ i. contains i.qid b.batch ≡ true) rest
    last :
        ((b.batch ≡ []) × (rest ≡ []))
        ⊎ ((init : List Item) × (i : Item) × (rest ≡ init ++ i ∷ [])
            × (b.last_event_id ≡ i.event_id)
            × (b.last_event_id ≢ []))

  empty-Holds : Holds empty_buffer []
  empty-Holds = record { held = tt; last = inl (refl, refl) }

  -- An end of the writer behind these items.
  abbrev IsStored : Option Bytes → List Item → Result StoreError Buffer × s.Db → Type 0
  IsStored start seen (ok b, db) =
      (done : List Item) × (rest : List Item) × (seen ≡ done ++ rest)
      × Stored start db done
      × Holds b rest
  IsStored start seen (err e, db) =
      (done : List Item) × (rest : List Item) × (seen ≡ done ++ rest) × Stored start db done

  -- A flush stores all items, or none of those in the buffer when it fails.
  abbrev IsFlushed : Option Bytes → List Item → Result StoreError Buffer × s.Db → Type 0
  IsFlushed start seen (ok b, db) = Stored start db seen × Holds b []
  IsFlushed start seen (err e, db) = IsStored start seen (err e, db)

  position_last :
      (start : Option Bytes) (done init : List Item) (i : Item)
      → position start (done ++ (init ++ i ∷ [])) ≡ some i.event_id
  position_last start done init i =
      position-append start done (init ++ i ∷ []) ∙ position-append _ init (i ∷ [])

  flush_written :
      (start : Option Bytes) (done rest : List Item) (qids ms : List Bytes) (id : Bytes) (db : s.Db)
      → Stored start db done
      → All (λ i. contains i.qid qids ≡ true) rest
      → members_of qids ≡ ok ms
      → position start (done ++ rest) ≡ some id
      → Stored start (written s ms id db) (done ++ rest)
  flush_written start done rest qids ms id db stored held good at = record {
    pending =
        All-append (IsPending s (written s ms id db)) done rest
          (kept-IsPending s hashes sets ms id db done stored.pending)
          (new-IsPending s hashes sets qids ms id db rest good held);
    position_there = written_position s hashes sets ms id db ∙ sym at;
  }

  flush-IsFlushed :
      (loading : Option StoreError) (start : Option Bytes) (done rest : List Item)
      (batch : List Bytes) (id : Bytes) (db : s.Db)
      → Stored start db done
      → Holds (record { batch = batch; last_event_id = id }) rest
      → IsFlushed start
          (done ++ rest)
          (flush_once s loading (record { batch = batch; last_event_id = id }) db)
  unfolding flush_once
  flush-IsFlushed loading start done [] [] id db stored holds =
      rw append-nil (stored, record { held = tt; last = inl (refl, refl) })
  flush-IsFlushed loading start done (x ∷ rest) [] id db stored holds =
      absurd (nothing_held x.qid holds.held.0)
  flush-IsFlushed loading start done rest (q ∷ qids) id db stored holds = elim holds.last [
    | inl (no_batch, _) ↦ absurd (cc)
    | inr (init, i, shape, same, given) ↦
        let at : position start (done ++ rest) ≡ some id =
          ap (λ r. position start (done ++ r)) shape
          ∙ position_last start done init i
          ∙ ap some (sym same) in
        elim (exec-flush_pipe s loading q qids id db given) [
          | inl (e, fails) ↦ rw fails (done, rest, refl, stored)
          | inr (ms, good, runs) ↦ rw runs (
            flush_written start done rest (q ∷ qids) ms id db stored holds.held good at,
            empty-Holds,
          )
        ]
  ]

  -- The buffer behind one more item.
  add-Holds :
      (i : Item) (b : Buffer) (rest : List Item)
      → i.event_id ≢ []
      → Holds b rest
      → Holds (add_item i b) (rest ++ i ∷ [])
  unfolding add_item
  add-Holds i b rest given holds = record {
    held =
        All-append (λ x. contains x.qid (add_item i b).batch ≡ true) rest (i ∷ [])
          (still_held i b rest holds.held) (now_held i b, tt);
    last = inr (rest, i, refl, refl, given);
  }

  flushed-IsStored :
      (start : Option Bytes) (seen : List Item) (r : Result StoreError Buffer × s.Db)
      → IsFlushed start seen r
      → IsStored start seen r
  flushed-IsStored start seen (ok b, db) (stored, holds) =
      (seen, [], sym (append-nil seen), stored, holds)
  flushed-IsStored start seen (err e, db) h = h

  step-IsStored :
      (loading : Option StoreError) (start : Option Bytes) (done rest : List Item) (b : Buffer)
      (db : s.Db) (input : Input)
      → All (λ i. i.event_id ≢ []) (items (input ∷ []))
      → Stored start db done
      → Holds b rest
      → IsStored start (done ++ (rest ++ items (input ∷ []))) (writer_step s loading input b db)
  unfolding writer_step
  step-IsStored loading start done rest b db tick given stored holds = rw append-nil (
      flushed-IsStored start (done ++ rest) _
        (flush-IsFlushed loading start done rest b.batch b.last_event_id db stored holds))
  step-IsStored loading start done rest b db (received i) (given, _) stored holds =
      let next = add_item i b in
      let longer = add-Holds i b rest given holds in
      elim (Bool-cases (leb enqueue_batch_size (length next.batch))) [
        | inl full ↦ rw full (
            flushed-IsStored start (done ++ (rest ++ i ∷ [])) _ (
              flush-IsFlushed loading start done (rest ++ i ∷ []) next.batch next.last_event_id db
                stored longer))
        | inr waits ↦ rw waits (done, rest ++ i ∷ [], refl, stored, longer)
      ]

  items_cons :
      (input : Input) (inputs : List Input)
      → items (input ∷ inputs) ≡ items (input ∷ []) ++ items inputs
  items_cons tick inputs = refl
  items_cons (received i) inputs = refl

  -- The rest of the loop behind one step.
  loop-IsFlushed :
      (loading : Option StoreError) (start : Option Bytes) (seen : List Item) (inputs : List Input)
      (r : Result StoreError Buffer × s.Db)
      → ((done rest : List Item) (b : Buffer) (db : s.Db)
          → Stored start db done
          → Holds b rest
          → IsFlushed start (done ++ (rest ++ items inputs)) (write_all s loading inputs b db))
      → IsStored start seen r
      → IsFlushed start (seen ++ items inputs) (elim r.0 as (λ x. Result StoreError Buffer × s.Db) [
        | err e ↦ (err e, r.1)
        | ok next ↦ write_all s loading inputs next r.1
      ])
  loop-IsFlushed loading start seen inputs (ok b, db) ih (done, rest, shape, stored, holds) =
      rw (shape, append_assoc done rest (items inputs)) (ih done rest b db stored holds)
  loop-IsFlushed loading start seen inputs (err e, db) ih (done, rest, shape, stored) = (
    done,
    rest ++ items inputs,
    ap (λ x. x ++ items inputs) shape ∙ append_assoc done rest (items inputs),
    stored,
  )

  given_split :
      (input : Input) (inputs : List Input)
      → All (λ i. i.event_id ≢ []) (items (input ∷ inputs))
      → All (λ i. i.event_id ≢ []) (items (input ∷ [])) × All (λ i. i.event_id ≢ []) (items inputs)
  given_split tick inputs h = (tt, h)
  given_split (received i) inputs (h, hs) = ((h, tt), hs)

  write_all-Flushed :
      (loading : Option StoreError) (start : Option Bytes) (inputs : List Input)
      (done rest : List Item) (b : Buffer) (db : s.Db)
      → All (λ i. i.event_id ≢ []) (items inputs)
      → Stored start db done
      → Holds b rest
      → IsFlushed start (done ++ (rest ++ items inputs)) (write_all s loading inputs b db)
  unfolding write_all
  write_all-Flushed loading start [] done rest b db given stored holds =
      rw append-nil
        (flush-IsFlushed loading start done rest b.batch b.last_event_id db stored holds)
  write_all-Flushed loading start (input ∷ inputs) done rest b db given stored holds =
      let (first, later) = given_split input inputs given in
      let shape : done ++ (rest ++ items (input ∷ inputs))
          ≡ (done ++ (rest ++ items (input ∷ []))) ++ items inputs =
        ap (λ x. done ++ (rest ++ x)) (items_cons input inputs)
        ∙ ap (λ x. done ++ x) (sym (append_assoc rest (items (input ∷ [])) (items inputs)))
        ∙ sym (append_assoc done (rest ++ items (input ∷ [])) (items inputs)) in
      rw shape (
        loop-IsFlushed loading start (done ++ (rest ++ items (input ∷ []))) inputs
          (writer_step s loading input b db)
          (λ d r c db1 st h. write_all-Flushed loading start inputs d r c db1 later st h)
          (step-IsStored loading start done rest b db input first stored holds))

  end_of :
      (start : Option Bytes) (seen : List Item) (r : Result StoreError Buffer × s.Db)
      → IsFlushed start seen r
      → (done : List Item) × (rest : List Item) × (seen ≡ done ++ rest)
        × Stored start r.1 done
        × ((b : Buffer) → r.0 ≡ ok b → rest ≡ [])
  end_of start seen (ok b, db) (stored, holds) =
      (seen, [], sym (append-nil seen), stored, λ b h. refl)
  end_of start seen (err e, db) (done, rest, shape, stored) =
      (done, rest, shape, stored, λ b h. absurd cc)

  -- Whatever the writer receives, with event ids that are not empty, there is a first part of the items
  -- such that all of them are pending in the queue at its end, and the position in the store is the one
  -- of the last of them, or the one from before if there is none; without an error these are all items.
  pub write_all-IsStored :
      (loading : Option StoreError) (inputs : List Input) (db : s.Db)
      → All (λ i. i.event_id ≢ []) (items inputs)
      → let start = s.hget db meta_key last_event_id_field in
        let (result, after) = write_all s loading inputs empty_buffer db in
        (done : List Item) × (rest : List Item) × (items inputs ≡ done ++ rest)
        × Stored start after done
        × ((b : Buffer) → result ≡ ok b → rest ≡ [])
  write_all-IsStored loading inputs db given =
      let start = s.hget db meta_key last_event_id_field in
      end_of start (items inputs) (write_all s loading inputs empty_buffer db) (
        write_all-Flushed loading start inputs [] [] empty_buffer db given
          (record { pending = tt; position_there = refl }) empty-Holds)
