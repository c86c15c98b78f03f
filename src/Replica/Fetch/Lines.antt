-- ===== src/Replica/Fetch/Lines.antt =====
-- What one line of a snapshot does to the variables of fetchSnapshot's loop.
use wdxref.Base.{
  ℕ, suc, ◌+◌, ◌≡◌, refl, ap, ◌∙◌, sym, true, false, none, List, [], ◌∷◌, ◌++◌, arith, Bytes, beq,
  length, leb, Bool-cases, Option-cases, Result-cases, inl, inr, length-append, ok,
}
use wdxref.Base.Int.{ℤ, pos, ◌+ℤ◌}
use wdxref.Store.Kvrocks.{Kvrocks}
use wdxref.Store.Ids.{int_to_qid}
use wdxref.Store.Pipe.{RawEntityRecord, new_pipe, exec}
use wdxref.Replicate.Protocol.{
  ControlJson, SnapshotLineType, SnapshotDone, classify_snapshot_line, parse_snapshot_entity_line,
  parse_snapshot_control, parse_snapshot_checkpoint, parse_snapshot_done, type_checkpoint,
  type_done,
}
use wdxref.Replica.Fetch.{
  Fetch, equal_ℤ, fill_batch, flush_some, flush_batch, add_pending, on_entity, on_checkpoint,
  on_done, after_header, on_control, read_line, snapshot_batch_size,
}

-- The entities read so far, applied or waiting in the batch.
abbrev pub total : Fetch → ℕ
total st = st.applied + length st.pending

-- A flush changes where the entities are, and nothing else.
pub record Flushed (st st' : Fetch) : Type 0 where
  pub total_same : total st' ≡ total st
  pub pending_none : st'.pending ≡ []
  pub seen_same : st'.seen_done ≡ st.seen_done

module _ (s : Kvrocks) where
  flush_some-Flushed :
      (recs : List RawEntityRecord) (st st' : Fetch) (db : s.Db)
      → st.pending ≡ recs
      → (flush_some s recs st db).0 ≡ ok st'
      → Flushed st st'
  unfolding flush_some
  flush_some-Flushed [] st st' db e h =
      let same : st ≡ st' = ground arith in
      record {
        total_same = ap total (sym same);
        pending_none = ap (λ (x : Fetch). x.pending) (sym same) ∙ e;
        seen_same = ap (λ (x : Fetch). x.seen_done) (sym same);
      }
  flush_some-Flushed (rec ∷ recs) st st' db e h =
      elim (Option-cases (exec s (fill_batch (rec ∷ recs) (new_pipe none)) db).0) [
        | inr (bad, f) ↦ absurd (ground (arith, rw (flush_some, f) at h))
        | inl f ↦
            let same : record st { applied = st.applied + length (rec ∷ recs); pending = [] }
                ≡ st' =
              let k = rw (flush_some, f) at h in ground (arith, k) in
            record {
              total_same = ap total (sym same) ∙ rw e (omega arith);
              pending_none = ap (λ (x : Fetch). x.pending) (sym same);
              seen_same = ap (λ (x : Fetch). x.seen_done) (sym same);
            }
      ]

  pub flush_batch-Flushed :
      (st st' : Fetch) (db : s.Db) → (flush_batch s st db).0 ≡ ok st' → Flushed st st'
  unfolding flush_batch
  flush_batch-Flushed st st' db h = flush_some-Flushed st.pending st st' db refl h

module _ (s : Kvrocks) (j : ControlJson) (base : ℤ) where
  -- What the done line says of the state that it was accepted in.
  pub record IsDone (line : Bytes) (st : Fetch) : Type 0 where
    pub done : SnapshotDone
    pub parsed : parse_snapshot_done j line ≡ ok done
    pub counted : equal_ℤ (base +ℤ pos st.applied) done.entities ≡ true
    pub position : st.snapshot_id ≡ done.stream_id
    pub applied_all : st.pending ≡ []
    pub seen : st.seen_done ≡ true

  pub data LineRead (line : Bytes) (st st' : Fetch) : Type 0 where
    entity_read :
        classify_snapshot_line line ≡ SnapshotLineType.entity
        → total st' ≡ suc (total st)
        → st'.seen_done ≡ false
        → LineRead line st st'
    checkpoint_read :
        classify_snapshot_line line ≡ SnapshotLineType.control
        → total st' ≡ total st
        → st'.seen_done ≡ false
        → LineRead line st st'
    done_read :
        classify_snapshot_line line ≡ SnapshotLineType.control
        → total st' ≡ total st
        → IsDone line st'
        → LineRead line st st'

  add_pending-total :
      (parsed : ℤ × Bytes) (st st' : Fetch) (db : s.Db)
      → st.seen_done ≡ false
      → (add_pending s j base parsed st db).0 ≡ ok st'
      → (total st' ≡ suc (total st)) × (st'.seen_done ≡ false)
  unfolding add_pending
  add_pending-total (qid, raw) st st' db fresh h =
      let recs = record { wikidata_id = int_to_qid qid; raw_mappings = raw } ∷ [] in
      let mid = record st { pending = st.pending ++ recs } in
      let len = length-append st.pending recs in
      elim (Bool-cases (leb snapshot_batch_size (length mid.pending))) [
        | inl e ↦
            let f = flush_batch-Flushed s mid st' db (rw (add_pending, e) at h) in
            (f.total_same ∙ omega (arith, len), f.seen_same ∙ fresh)
        | inr e ↦
            let same : mid ≡ st' = let k = rw (add_pending, e) at h in ground (arith, k) in
            (
              ap total (sym same) ∙ omega (arith, len),
              ap (λ (x : Fetch). x.seen_done) (sym same) ∙ fresh,
            )
      ]

  on_checkpoint-same :
      (line : Bytes) (st st' : Fetch) (db : s.Db)
      → (on_checkpoint s j base line st db).0 ≡ ok st'
      → st ≡ st'
  unfolding on_checkpoint
  on_checkpoint-same line st st' db h = elim (Result-cases (parse_snapshot_checkpoint j line)) [
    | inr (bad, e) ↦ absurd (let k = rw (on_checkpoint, e) at h in ground (arith, k))
    | inl (checkpoint, e) ↦
        elim (Bool-cases (equal_ℤ (base +ℤ pos st.applied) checkpoint.entities_before)) [
          | inr f ↦ absurd (let k = rw (on_checkpoint, e, f) at h in ground (arith, k))
          | inl f ↦ let k = rw (on_checkpoint, e, f) at h in ground (arith, k)
        ]
  ]

  on_done-IsDone :
      (line : Bytes) (st st' : Fetch) (db : s.Db)
      → st.pending ≡ []
      → (on_done s j base line st db).0 ≡ ok st'
      → (total st' ≡ total st) × IsDone line st'
  unfolding on_done
  on_done-IsDone line st st' db none_left h = elim (Result-cases (parse_snapshot_done j line)) [
    | inr (bad, e) ↦ absurd (let k = rw (on_done, e) at h in ground (arith, k))
    | inl (done, e) ↦ elim (Bool-cases (equal_ℤ (base +ℤ pos st.applied) done.entities)) [
      | inr f ↦ absurd (let k = rw (on_done, e, f) at h in ground (arith, k))
      | inl f ↦
          let same : record st { snapshot_id = done.stream_id; seen_done = true } ≡ st' =
            let k = rw (on_done, e, f) at h in ground (arith, k) in
          (
            ap total (sym same),
            record {
              done = done;
              parsed = e;
              counted =
                  ap (λ (x : Fetch). equal_ℤ (base +ℤ pos x.applied) done.entities) (sym same) ∙ f;
              position = ap (λ (x : Fetch). x.snapshot_id) (sym same);
              applied_all = ap (λ (x : Fetch). x.pending) (sym same) ∙ none_left;
              seen = ap (λ (x : Fetch). x.seen_done) (sym same);
            },
          )
    ]
  ]

  on_control-LineRead :
      (line : Bytes) (st st' : Fetch) (db : s.Db)
      → st.seen_done ≡ false
      → classify_snapshot_line line ≡ SnapshotLineType.control
      → (on_control s j base line st db).0 ≡ ok st'
      → LineRead line st st'
  unfolding on_control after_header
  on_control-LineRead line st st' db fresh kind h = elim (Result-cases (flush_batch s st db).0) [
    | inr (bad, e) ↦ absurd (let k = rw (on_control, e) at h in ground (arith, k))
    | inl (mid, e) ↦
        let flushed = flush_batch-Flushed s st mid db e in
        let db1 = (flush_batch s st db).1 in
        elim (Result-cases (parse_snapshot_control j line)) [
          | inr (bad, f) ↦
              absurd (let k = rw (on_control, e, f, after_header) at h in ground (arith, k))
          | inl (control, f) ↦ elim (Bool-cases (beq control.type type_checkpoint)) [
            | inl g ↦
                let same =
                  on_checkpoint-same line mid st' db1
                    (rw (on_control, e, f, after_header, g) at h) in
                checkpoint_read kind (ap total (sym same) ∙ flushed.total_same)
                  (ap (λ (x : Fetch). x.seen_done) (sym same) ∙ flushed.seen_same ∙ fresh)
            | inr g ↦ elim (Bool-cases (beq control.type type_done)) [
              | inl i ↦
                  let (sum, done) =
                    on_done-IsDone line mid st' db1 flushed.pending_none
                      (rw (on_control, e, f, after_header, g, i) at h) in
                  done_read kind (sum ∙ flushed.total_same) done
              | inr i ↦
                  absurd
                    (let k = rw (on_control, e, f, after_header, g, i) at h in ground (arith, k))
            ]
          ]
        ]
  ]

  pub read_line-LineRead :
      (line : Bytes) (st st' : Fetch) (db : s.Db)
      → (read_line s j base line st db).0 ≡ ok st'
      → (st.seen_done ≡ false) × LineRead line st st'
  unfolding read_line on_entity
  read_line-LineRead line st st' db h = elim (Bool-cases st.seen_done) [
    | inl e ↦ absurd (let k = rw (read_line, e) at h in ground (arith, k))
    | inr e ↦ (e, by_kind (classify_snapshot_line line) refl e h)
  ]
    where
      by_kind :
          (kind : SnapshotLineType)
          → classify_snapshot_line line ≡ kind
          → st.seen_done ≡ false
          → (read_line s j base line st db).0 ≡ ok st'
          → LineRead line st st'
      by_kind SnapshotLineType.invalid c e h =
          absurd (let k = rw (read_line, e, c) at h in ground (arith, k))
      by_kind SnapshotLineType.control c e h =
          on_control-LineRead line st st' db e c (rw (read_line, e, c) at h)
      by_kind SnapshotLineType.entity c e h =
          elim (Result-cases (parse_snapshot_entity_line line)) [
            | inr (bad, f) ↦
                absurd (let k = rw (read_line, e, c, on_entity, f) at h in ground (arith, k))
            | inl (parsed, f) ↦
                let (sum, seen) =
                  add_pending-total parsed st st' db e (rw (read_line, e, c, on_entity, f) at h) in
                entity_read c sum seen
          ]
