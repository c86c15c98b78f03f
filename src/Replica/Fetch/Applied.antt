-- ===== src/Replica/Fetch/Applied.antt =====
-- What the loop over a snapshot in fetchSnapshot (internal/replica/client.go) writes, with its batches.
use wdxref.Base.{
  ◌≡◌, refl, ap, ◌∙◌, sym, true, none, some, List, [], ◌∷◌, ◌++◌, arith, Bytes, codes, beq, length,
  leb, Bool-cases, Option-cases, Result-cases, inl, inr, Result, ok, err, if◌then◌else◌,
}
use wdxref.Base.Int.{ℤ, pos, ◌+ℤ◌}
use wdxref.Strconv.{format_int}
use wdxref.Store.Kvrocks.{Kvrocks}
use wdxref.Store.Ids.{int_to_qid}
use wdxref.Store.Pipe.{
  StoreError, Command, RawEntityRecord, new_pipe, queue, upsert_raw_commands, upsert_raw_entity,
  run_commands, run_command, exec,
}
use wdxref.Replicate.Protocol.{
  ControlJson, SnapshotLineType, classify_snapshot_line, parse_snapshot_entity_line,
  parse_snapshot_control, parse_snapshot_checkpoint, parse_snapshot_done, type_checkpoint,
}
use wdxref.Replica.Fetch.{
  Fetch, equal_ℤ, fill_batch, flush_some, flush_batch, save_resume, add_pending, on_checkpoint,
  on_done, snapshot_batch_size,
}
use wdxref.Replica.Fetch.Lines.{flush_batch-Flushed}

module _ (s : Kvrocks) where
  -- Records that are upserted one at a time.
  unfoldable pub upsert_one_by_one : List RawEntityRecord → s.Db → s.Db
  upsert_one_by_one [] db = db
  upsert_one_by_one (rec ∷ recs) db =
      upsert_one_by_one recs (exec s (upsert_raw_entity rec (new_pipe none)) db).1

  upsert-append :
      (a b : List RawEntityRecord) (db : s.Db)
      → upsert_one_by_one (a ++ b) db ≡ upsert_one_by_one b (upsert_one_by_one a db)
  unfolding upsert_one_by_one
  upsert-append [] b db = refl
  upsert-append (rec ∷ a) b db = upsert-append a b _

  run_commands-append :
      (p q : List Command) (db : s.Db)
      → (run_commands s (p ++ q) db).1 ≡ (run_commands s q (run_commands s p db).1).1
  unfolding run_commands
  run_commands-append [] q db = refl
  run_commands-append (c ∷ p) q db = run_commands-append p q (run_command s c db).1

  fill_failed :
      (recs : List RawEntityRecord) (q : List Command) (e : StoreError) (db : s.Db)
      → (exec s (fill_batch recs (record { queued = q; error = some e })) db).0 ≡ some e
  unfolding fill_batch upsert_raw_entity exec
  fill_failed [] q e db = refl
  fill_failed (rec ∷ recs) q e db = fill_failed recs q e db

  -- A batch that is executed without an error does what its records do one at a time.
  exec-fill :
      (recs : List RawEntityRecord) (q : List Command) (db : s.Db)
      → (exec s (fill_batch recs (record { queued = q; error = none })) db).0 ≡ none
      → (exec s (fill_batch recs (record { queued = q; error = none })) db).1
        ≡ upsert_one_by_one recs (run_commands s q db).1
  unfolding fill_batch upsert_raw_entity exec upsert_one_by_one new_pipe
  exec-fill [] q db h = refl
  exec-fill (rec ∷ recs) q db h =
      by_commands (upsert_raw_commands rec) (λ q'. exec-fill recs q' db) h
    where
      by_commands :
          (r : Result StoreError (List Command))
          → ((q' : List Command)
              → (exec s (fill_batch recs (record { queued = q'; error = none })) db).0 ≡ none
              → (exec s (fill_batch recs (record { queued = q'; error = none })) db).1
                ≡ upsert_one_by_one recs (run_commands s q' db).1)
          → (exec s (fill_batch recs (queue r (record { queued = q; error = none }))) db).0 ≡ none
          → (exec s (fill_batch recs (queue r (record { queued = q; error = none }))) db).1
            ≡ upsert_one_by_one recs (exec s (queue r (new_pipe none)) (run_commands s q db).1).1
      by_commands (err e) ih h = absurd (let f = fill_failed recs q e db in cc)
      by_commands (ok cs) ih h =
          ih (q ++ cs) h ∙ ap (upsert_one_by_one recs) (run_commands-append q cs db)

  flush_some-one_by_one :
      (recs : List RawEntityRecord) (st st' : Fetch) (db : s.Db)
      → (flush_some s recs st db).0 ≡ ok st'
      → (flush_some s recs st db).1 ≡ upsert_one_by_one recs db
  unfolding flush_some new_pipe upsert_one_by_one run_commands
  flush_some-one_by_one [] st st' db h = refl
  flush_some-one_by_one (rec ∷ recs) st st' db h =
      elim (Option-cases (exec s (fill_batch (rec ∷ recs) (new_pipe none)) db).0) [
        | inr (bad, f) ↦ absurd (ground (arith, rw (flush_some, f) at h))
        | inl f ↦ rw (flush_some, f) (exec-fill (rec ∷ recs) [] db f)
      ]

  pub flush-one_by_one :
      (st st' : Fetch) (db : s.Db)
      → (flush_batch s st db).0 ≡ ok st'
      → (flush_batch s st db).1 ≡ upsert_one_by_one st.pending db
  unfolding flush_batch
  flush-one_by_one st st' db h = flush_some-one_by_one st.pending st st' db h

module _ (s : Kvrocks) (j : ControlJson) (base : ℤ) where
  abbrev pub checkpoint_effect : Bytes → s.Db → s.Db
  checkpoint_effect line db = elim (parse_snapshot_checkpoint j line) [
    | err e ↦ db
    | ok checkpoint ↦
        save_resume s
          ((codes "snapshot_resume_offset", format_int checkpoint.offset)
            ∷ (codes "snapshot_resume_entities", format_int checkpoint.entities_before)
            ∷ [])
          db
  ]

  -- What an accepted line does to the store: an entity is upserted, a checkpoint is noted.
  unfoldable pub line_effect : Bytes → s.Db → s.Db
  line_effect line db = elim (classify_snapshot_line line) [
    | SnapshotLineType.invalid ↦ db
    | SnapshotLineType.entity ↦ elim (parse_snapshot_entity_line line) [
      | err e ↦ db
      | ok (qid, raw) ↦
          upsert_one_by_one s (record { wikidata_id = int_to_qid qid; raw_mappings = raw } ∷ []) db
    ]
    | SnapshotLineType.control ↦ elim (parse_snapshot_control j line) [
      | err e ↦ db
      | ok control ↦ if beq control.type type_checkpoint then checkpoint_effect line db else db
    ]
  ]

  -- The lines one after another, without any batch.
  unfoldable pub lines_effect : List Bytes → s.Db → s.Db
  unfolding line_effect
  lines_effect [] db = db
  lines_effect (line ∷ lines) db = lines_effect lines (line_effect line db)

  -- The store that a state of the loop stands for: what is pending belongs to it.
  abbrev pub with_pending : Fetch → s.Db → s.Db
  with_pending st db = upsert_one_by_one s st.pending db

  pub flushed-with_pending :
      (st st' : Fetch) (db : s.Db)
      → (flush_batch s st db).0 ≡ ok st'
      → with_pending st' (flush_batch s st db).1 ≡ with_pending st db
  unfolding upsert_one_by_one
  flushed-with_pending st st' db h =
      let empty = (flush_batch-Flushed s st st' db h).pending_none in
      ap (λ recs. upsert_one_by_one s recs (flush_batch s st db).1) empty
      ∙ flush-one_by_one s st st' db h

  pub add_pending-effect :
      (qid : ℤ) (raw : Bytes) (st st' : Fetch) (db : s.Db)
      → (add_pending s j base (qid, raw) st db).0 ≡ ok st'
      → with_pending st' (add_pending s j base (qid, raw) st db).1
        ≡ upsert_one_by_one s
            (record { wikidata_id = int_to_qid qid; raw_mappings = raw } ∷ [])
            (with_pending st db)
  unfolding add_pending
  add_pending-effect qid raw st st' db h =
      let recs = record { wikidata_id = int_to_qid qid; raw_mappings = raw } ∷ [] in
      let mid = record st { pending = st.pending ++ recs } in
      elim (Bool-cases (leb snapshot_batch_size (length mid.pending))) [
        | inl e ↦
            rw (add_pending, e)
              (flushed-with_pending mid st' db (rw (add_pending, e) at h)
                ∙ upsert-append s st.pending recs db)
        | inr e ↦
            let same : mid ≡ st' = let k = rw (add_pending, e) at h in ground (arith, k) in
            rw (add_pending, e)
              (ap (λ (x : Fetch). with_pending x db) (sym same)
                ∙ upsert-append s st.pending recs db)
      ]

  pub on_checkpoint-effect :
      (line : Bytes) (st st' : Fetch) (db : s.Db)
      → st.pending ≡ []
      → (on_checkpoint s j base line st db).0 ≡ ok st'
      → with_pending st' (on_checkpoint s j base line st db).1 ≡ checkpoint_effect line db
  unfolding on_checkpoint upsert_one_by_one
  on_checkpoint-effect line st st' db empty h =
      elim (Result-cases (parse_snapshot_checkpoint j line)) [
        | inr (bad, e) ↦ absurd (let k = rw (on_checkpoint, e) at h in ground (arith, k))
        | inl (checkpoint, e) ↦
            elim (Bool-cases (equal_ℤ (base +ℤ pos st.applied) checkpoint.entities_before)) [
              | inr f ↦ absurd (let k = rw (on_checkpoint, e, f) at h in ground (arith, k))
              | inl f ↦
                  let same : st ≡ st' =
                    let k = rw (on_checkpoint, e, f) at h in ground (arith, k) in
                  let none_left : st'.pending ≡ [] =
                    ap (λ (x : Fetch). x.pending) (sym same) ∙ empty in
                  rw (on_checkpoint, checkpoint_effect, e, f)
                    (ap
                      (λ recs. upsert_one_by_one s recs (
                        save_resume s
                          ((codes "snapshot_resume_offset", format_int checkpoint.offset)
                            ∷ (
                              codes "snapshot_resume_entities",
                              format_int checkpoint.entities_before,
                            )
                            ∷ [])
                          db))
                      none_left)
            ]
      ]

  pub on_done-effect :
      (line : Bytes) (st st' : Fetch) (db : s.Db)
      → st.pending ≡ []
      → (on_done s j base line st db).0 ≡ ok st'
      → with_pending st' (on_done s j base line st db).1 ≡ db
  unfolding on_done upsert_one_by_one
  on_done-effect line st st' db empty h = elim (Result-cases (parse_snapshot_done j line)) [
    | inr (bad, e) ↦ absurd (let k = rw (on_done, e) at h in ground (arith, k))
    | inl (done, e) ↦ elim (Bool-cases (equal_ℤ (base +ℤ pos st.applied) done.entities)) [
      | inr f ↦ absurd (let k = rw (on_done, e, f) at h in ground (arith, k))
      | inl f ↦
          let same : record st { snapshot_id = done.stream_id; seen_done = true } ≡ st' =
            let k = rw (on_done, e, f) at h in ground (arith, k) in
          let none_left : st'.pending ≡ [] = ap (λ (x : Fetch). x.pending) (sym same) ∙ empty in
          rw (on_done, e, f) (ap (λ recs. upsert_one_by_one s recs db) none_left)
    ]
  ]
