-- ===== src/Replica/Fetch/Accepted.antt =====
-- When fetchSnapshot of internal/replica/client.go accepts a body: its tests on the done line and on
-- the end of the lines.
use wdxref.Base.{
  ℕ, suc, ◌+◌, ◌≡◌, refl, ap, ◌∙◌, sym, Bool, true, false, List, [], ◌∷◌, ◌++◌, arith, Bytes,
  length, Bool-cases, Result-cases, inl, inr, ok,
}
use wdxref.Base.Int.{ℤ}
use mathlib.Core.Path.{subst}
use wdxref.Store.Kvrocks.{Kvrocks}
use wdxref.Replicate.Protocol.{ControlJson, SnapshotLineType, classify_snapshot_line}
use wdxref.Replica.Fetch.{
  Fetch, flush_some, flush_batch, read_line, read_lines, after_lines, read_body,
}
use wdxref.Replica.Fetch.Applied.{lines_effect}
use wdxref.Replica.Fetch.Written.{read_body-effect}
use wdxref.Replica.Fetch.Lines.{
  total, flush_batch-Flushed, IsDone, read_line-LineRead, entity_read, checkpoint_read, done_read,
}

-- The lines that are entity lines.
unfoldable pub entity_lines : List Bytes → ℕ
entity_lines [] = 0
entity_lines (line ∷ lines) =
    let rest = entity_lines lines in
    elim (classify_snapshot_line line) [ SnapshotLineType.entity ↦ suc rest | _ ↦ rest ]

module _ (s : Kvrocks) (j : ControlJson) (base : ℤ) where
  -- What the loop over the lines tells when it ends without an error.
  record LinesRead (lines : List Bytes) (st st' : Fetch) : Type 0 where
    total_grown : total st' ≡ total st + entity_lines lines
    none_after_done : st.seen_done ≡ true → (lines ≡ []) × (st ≡ st')
    done_last :
        st.seen_done ≡ false
        → st'.seen_done ≡ true
        → (front : List Bytes) × (last : Bytes) × (lines ≡ front ++ last ∷ [])
          × IsDone s j base last st'

  read_lines-LinesRead :
      (lines : List Bytes) (st st' : Fetch) (db : s.Db)
      → (read_lines s j base lines st db).0 ≡ ok st'
      → LinesRead lines st st'
  unfolding read_lines entity_lines
  read_lines-LinesRead [] st st' db h =
      let same : st ≡ st' = ground arith in
      record {
        total_grown = ap total (sym same) ∙ omega arith;
        none_after_done = λ _. (refl, same);
        done_last = λ fresh seen.
            absurd (let e = ap (λ (x : Fetch). x.seen_done) same in ground (arith, e, fresh, seen));
      }
  read_lines-LinesRead (line ∷ lines) st st' db h =
      elim (Result-cases (read_line s j base line st db).0) [
        | inr (bad, e) ↦ absurd (let k = rw (read_lines, e) at h in ground (arith, k))
        | inl (mid, e) ↦
            let (fresh, step) = read_line-LineRead s j base line st mid db e in
            let ih =
              read_lines-LinesRead lines mid st' (read_line s j base line st db).1
                (rw (read_lines, e) at h) in
            record {
              total_grown = elim step [
                | entity_read c sum seen ↦ rw (entity_lines, c) (omega (arith, ih.total_grown, sum))
                | checkpoint_read c sum seen ↦
                    rw (entity_lines, c) (omega (arith, ih.total_grown, sum))
                | done_read c sum done ↦ rw (entity_lines, c) (omega (arith, ih.total_grown, sum))
              ];
              none_after_done = λ seen. absurd (ground (arith, seen, fresh));
              done_last = λ _ seen'. elim step [
                | entity_read c sum seen ↦
                    let (front, last, split, done) = ih.done_last seen seen' in
                    (line ∷ front, last, ap (◌∷◌ line) split, done)
                | checkpoint_read c sum seen ↦
                    let (front, last, split, done) = ih.done_last seen seen' in
                    (line ∷ front, last, ap (◌∷◌ line) split, done)
                | done_read c sum done ↦
                    let (rest, same) = ih.none_after_done done.seen in
                    ([], line, ap (◌∷◌ line) rest, subst (IsDone s j base line) same done)
              ];
            }
      ]

  done_flushed :
      (line : Bytes) (st st' : Fetch) (db : s.Db)
      → IsDone s j base line st
      → (flush_batch s st db).0 ≡ ok st'
      → st ≡ st'
  unfolding flush_batch flush_some
  done_flushed line st st' db done h =
      let k = rw (flush_batch, done.applied_all) at h in ground (arith, k)

  -- When the loop over a snapshot's lines ends without an error, the scanner had none, the last line is
  -- a done line, its stream id is the position that is returned, and the store is the one that the lines
  -- give one after another, without batches: every entity line is upserted, and every checkpoint noted.
  -- The entity lines, together with those from before a resume, are as many as the done line says. So a
  -- body that is cut off, goes on behind the done line or lacks entities is refused.
  pub read_body-IsDone :
      (lines : List Bytes) (failed : Bool) (db : s.Db) (st : Fetch)
      → (read_body s j base lines failed db).0 ≡ ok st
      → (failed ≡ false)
        × ((read_body s j base lines failed db).1 ≡ lines_effect s j base lines db)
        × (st.applied ≡ entity_lines lines)
        × (front : List Bytes) × (last : Bytes) × (lines ≡ front ++ last ∷ [])
        × IsDone s j base last st
  unfolding read_body after_lines
  read_body-IsDone lines failed db st h =
      let start : Fetch = record {
        applied = 0;
        pending = [];
        seen_done = false;
        snapshot_id = [];
      } in
      elim (Result-cases (read_lines s j base lines start db).0) [
        | inr (bad, e) ↦ absurd (let k = rw (read_body, e) at h in ground (arith, k))
        | inl (mid, e) ↦
            let db1 = (read_lines s j base lines start db).1 in
            let all = read_lines-LinesRead lines start mid db e in
            elim (Result-cases (flush_batch s mid db1).0) [
              | inr (bad, f) ↦
                  absurd (let k = rw (read_body, e, after_lines, f) at h in ground (arith, k))
              | inl (end, f) ↦ elim (Bool-cases failed) [
                | inl g ↦
                    absurd (let k = rw (read_body, e, after_lines, f, g) at h in ground (arith, k))
                | inr g ↦ elim (Bool-cases end.seen_done) [
                  | inr i ↦
                      absurd
                        (let k = rw (read_body, e, after_lines, f, g, i) at h in ground (arith, k))
                  | inl i ↦
                      let same : end ≡ st =
                        let k = rw (read_body, e, after_lines, f, g, i) at h in ground (arith, k) in
                      let flushed = flush_batch-Flushed s mid end db1 f in
                      let (front, last, split, done) =
                        all.done_last refl (sym flushed.seen_same ∙ i) in
                      let whole = done_flushed last mid end db1 done f ∙ same in
                      let done' : IsDone s j base last st =
                        subst (IsDone s j base last) whole done in
                      (
                        g,
                        read_body-effect s j base lines failed db st h,
                        (let sum : total st ≡ entity_lines lines =
                              ap total (sym whole) ∙ all.total_grown ∙ omega arith in
                            let none_left : length st.pending ≡ 0 = ap length done'.applied_all in
                            omega (arith, sum, none_left)),
                        front,
                        last,
                        split,
                        done',
                      )
                ]
              ]
            ]
      ]
