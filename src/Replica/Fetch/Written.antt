-- ===== src/Replica/Fetch/Written.antt =====
-- What the lines of a whole snapshot write in fetchSnapshot (internal/replica/client.go).
use wdxref.Base.{
  ◌≡◌, refl, ap, ◌∙◌, sym, Bool, false, List, [], ◌∷◌, arith, Bytes, beq, Bool-cases, Result-cases,
  inl, inr, ok,
}
use wdxref.Base.Int.{ℤ}
use wdxref.Store.Kvrocks.{Kvrocks}
use wdxref.Replicate.Protocol.{
  ControlJson, SnapshotLineType, classify_snapshot_line, parse_snapshot_entity_line,
  parse_snapshot_control, type_checkpoint, type_done,
}
use wdxref.Replica.Fetch.{
  Fetch, flush_batch, on_entity, after_header, on_control, read_line, read_lines, after_lines,
  read_body,
}
use wdxref.Replica.Fetch.Lines.{flush_batch-Flushed}
use wdxref.Replica.Fetch.Applied.{
  upsert_one_by_one, line_effect, checkpoint_effect, lines_effect, with_pending, flush-one_by_one,
  add_pending-effect, on_checkpoint-effect, on_done-effect,
}

module _ (s : Kvrocks) (j : ControlJson) (base : ℤ) where
  on_control-effect :
      (line : Bytes) (st st' : Fetch) (db : s.Db)
      → classify_snapshot_line line ≡ SnapshotLineType.control
      → (on_control s j base line st db).0 ≡ ok st'
      → with_pending s j base st' (on_control s j base line st db).1
        ≡ line_effect s j base line (with_pending s j base st db)
  unfolding on_control after_header line_effect
  on_control-effect line st st' db kind h = elim (Result-cases (flush_batch s st db).0) [
    | inr (bad, e) ↦ absurd (let k = rw (on_control, e) at h in ground (arith, k))
    | inl (mid, e) ↦
        let empty = (flush_batch-Flushed s st mid db e).pending_none in
        let written = flush-one_by_one s st mid db e in
        let db1 = (flush_batch s st db).1 in
        elim (Result-cases (parse_snapshot_control j line)) [
          | inr (bad, f) ↦
              absurd (let k = rw (on_control, e, f, after_header) at h in ground (arith, k))
          | inl (control, f) ↦ elim (Bool-cases (beq control.type type_checkpoint)) [
            | inl g ↦
                rw (line_effect, kind, on_control, e, f, after_header, g)
                  (on_checkpoint-effect s j base line mid st' db1 empty
                      (rw (on_control, e, f, after_header, g) at h)
                    ∙ ap (checkpoint_effect s j base line) written)
            | inr g ↦ elim (Bool-cases (beq control.type type_done)) [
              | inl i ↦
                  rw (line_effect, kind, on_control, e, f, after_header, g, i)
                    (on_done-effect s j base line mid st' db1 empty
                        (rw (on_control, e, f, after_header, g, i) at h)
                      ∙ written)
              | inr i ↦
                  absurd
                    (let k = rw (on_control, e, f, after_header, g, i) at h in ground (arith, k))
            ]
          ]
        ]
  ]

  read_line-effect :
      (line : Bytes) (st st' : Fetch) (db : s.Db)
      → (read_line s j base line st db).0 ≡ ok st'
      → with_pending s j base st' (read_line s j base line st db).1
        ≡ line_effect s j base line (with_pending s j base st db)
  unfolding read_line on_entity line_effect
  read_line-effect line st st' db h = elim (Bool-cases st.seen_done) [
    | inl e ↦ absurd (let k = rw (read_line, e) at h in ground (arith, k))
    | inr e ↦ by_kind (classify_snapshot_line line) refl e h
  ]
    where
      by_kind :
          (kind : SnapshotLineType)
          → classify_snapshot_line line ≡ kind
          → st.seen_done ≡ false
          → (read_line s j base line st db).0 ≡ ok st'
          → with_pending s j base st' (read_line s j base line st db).1
            ≡ line_effect s j base line (with_pending s j base st db)
      by_kind SnapshotLineType.invalid c e h =
          absurd (let k = rw (read_line, e, c) at h in ground (arith, k))
      by_kind SnapshotLineType.control c e h =
          rw (read_line, e, c) (on_control-effect line st st' db c (rw (read_line, e, c) at h))
      by_kind SnapshotLineType.entity c e h =
          elim (Result-cases (parse_snapshot_entity_line line)) [
            | inr (bad, f) ↦
                absurd (let k = rw (read_line, e, c, on_entity, f) at h in ground (arith, k))
            | inl ((qid, raw), f) ↦
                rw (line_effect, read_line, e, c, on_entity, f)
                  (add_pending-effect s j base qid raw st st' db
                    (rw (read_line, e, c, on_entity, f) at h))
          ]

  read_lines-effect :
      (lines : List Bytes) (st st' : Fetch) (db : s.Db)
      → (read_lines s j base lines st db).0 ≡ ok st'
      → with_pending s j base st' (read_lines s j base lines st db).1
        ≡ lines_effect s j base lines (with_pending s j base st db)
  unfolding read_lines lines_effect
  read_lines-effect [] st st' db h =
      let same : st ≡ st' = ground arith in
      ap (λ (x : Fetch). with_pending s j base x db) (sym same)
  read_lines-effect (line ∷ lines) st st' db h =
      elim (Result-cases (read_line s j base line st db).0) [
        | inr (bad, e) ↦ absurd (let k = rw (read_lines, e) at h in ground (arith, k))
        | inl (mid, e) ↦
            rw (read_lines, e)
              (read_lines-effect lines mid st' (read_line s j base line st db).1
                  (rw (read_lines, e) at h)
                ∙ ap (lines_effect s j base lines) (read_line-effect line st mid db e))
      ]

  -- A body that is accepted has written what its lines write one after another.
  pub read_body-effect :
      (lines : List Bytes) (failed : Bool) (db : s.Db) (st : Fetch)
      → (read_body s j base lines failed db).0 ≡ ok st
      → (read_body s j base lines failed db).1 ≡ lines_effect s j base lines db
  unfolding read_body after_lines upsert_one_by_one
  read_body-effect lines failed db st h =
      let start : Fetch = record {
        applied = 0;
        pending = [];
        seen_done = false;
        snapshot_id = [];
      } in
      elim (Result-cases (read_lines s j base lines start db).0) [
        | inr (bad, e) ↦ absurd (let k = rw (read_body, e) at h in ground (arith, k))
        | inl (mid, e) ↦
            let db1 = (read_lines s j base lines start db).1 in
            elim (Result-cases (flush_batch s mid db1).0) [
              | inr (bad, f) ↦
                  absurd (let k = rw (read_body, e, after_lines, f) at h in ground (arith, k))
              | inl (end, f) ↦
                  let last = flush-one_by_one s mid end db1 f in
                  let whole = last ∙ read_lines-effect lines start mid db e in
                  elim (Bool-cases failed) [
                    | inl g ↦
                        absurd
                          (let k = rw (read_body, e, after_lines, f, g) at h in ground (arith, k))
                    | inr g ↦ elim (Bool-cases end.seen_done) [
                      | inr i ↦ absurd (
                          let k = rw (read_body, e, after_lines, f, g, i) at h in ground (arith, k))
                      | inl i ↦ rw (read_body, e, after_lines, f, g, i) whole
                    ]
                  ]
            ]
      ]
