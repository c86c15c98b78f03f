-- ===== src/Replicate/Snapshot/Current.antt =====
-- The snapshot that ServeSnapshot of internal/replicate/snapshot.go serves, and the stream from its
-- position.
use wdxref.Base.{
  ◌≡◌, Bool, true, false, ◌||◌, Option, none, some, arith, Bytes, codes, beq, Result, ok, err,
  Option-cases, inl, inr, ◌⊎◌, refl, sym,
}
use wdxref.Replicate.Cursor.{check_stream_gap}
use wdxref.Replicate.Snapshot.{
  SnapshotMeta, Look, SnapshotReply, is_snapshot_current, look_once, answer_look, serve_once,
  serve_snapshot,
}

-- The look that was answered with a file.
abbrev pub IsServedFrom : Look → SnapshotMeta → Bytes → Type 0
IsServedFrom l meta content =
    (l.meta ≡ some meta)
    × (l.file ≡ some (some content))
    × (beq meta.id (codes "0") || beq meta.id (codes "0-0") ≡ false
        → check_stream_gap l.info meta.id ≡ none)

current_covered :
    (m : Option SnapshotMeta) (info : Result Bytes Bytes) (meta : SnapshotMeta)
    → is_snapshot_current m info ≡ (some meta, true)
    → (m ≡ some meta)
      × (beq meta.id (codes "0") || beq meta.id (codes "0-0") ≡ false
          → check_stream_gap info meta.id ≡ none)
unfolding is_snapshot_current check_stream_gap
current_covered none info meta h = absurd (ground arith)
current_covered (some m) (err e) meta h = absurd (ground arith)
current_covered (some m) (ok first) meta h =
    let same : m ≡ meta = ground arith in (cc, λ k. ground (arith, same))

served_file :
    (m meta : SnapshotMeta) (file : Option (Option Bytes)) (content : Bytes)
    → serve_once m file ≡ some (SnapshotReply.served meta content)
    → (m ≡ meta) × (file ≡ some (some content))
unfolding serve_once
served_file m meta none content h = absurd (ground arith)
served_file m meta (some none) content h = absurd (ground arith)
served_file m meta (some (some c)) content h = ground arith

look_from :
    (l : Look) (m : Option SnapshotMeta) (b : Bool) (meta : SnapshotMeta) (content : Bytes)
    → is_snapshot_current l.meta l.info ≡ (m, b)
    → (look_once l).0 ≡ some (SnapshotReply.served meta content)
    → IsServedFrom l meta content
unfolding look_once answer_look
look_from l none b meta content e h = absurd (ground (arith, rw (look_once, e) at h))
look_from l (some m) false meta content e h = absurd (ground (arith, rw (look_once, e) at h))
look_from l (some m) true meta content e h =
    let (same, file) = served_file m meta l.file content (rw (look_once, e) at h) in
    let (published, covered) = current_covered l.meta l.info m e in
    (cc, file, λ k. rw (sym same) (covered (rw same k)))

look_served :
    (l : Look) (meta : SnapshotMeta) (content : Bytes)
    → (look_once l).0 ≡ some (SnapshotReply.served meta content)
    → IsServedFrom l meta content
look_served l meta content h =
    look_from l (is_snapshot_current l.meta l.info).0 (is_snapshot_current l.meta l.info).1 meta
      content refl h

-- When ServeSnapshot serves a file, it is the one that meta.json named in one of the two turns, and a
-- stream from the position in that meta.json passes the gap check on the changelog of that turn, unless
-- the position is the one that always asks for a snapshot.
pub serve_snapshot_covered :
    (first second : Look) (meta : SnapshotMeta) (content : Bytes) (signal : Bool)
    → serve_snapshot first second ≡ (SnapshotReply.served meta content, signal)
    → IsServedFrom first meta content ⊎ IsServedFrom second meta content
unfolding serve_snapshot
serve_snapshot_covered first second meta content signal h =
    elim (Option-cases (look_once first).0) [
      | inr (reply, e) ↦
          inl (
            look_served first meta content (let same = rw (serve_snapshot, e) at h in ground arith))
      | inl e ↦ elim (Option-cases (look_once second).0) [
        | inr (reply, f) ↦ inr (
            look_served second meta content
              (let same = rw (serve_snapshot, e, f) at h in ground arith))
        | inl f ↦ absurd (let same = rw (serve_snapshot, e, f) at h in ground arith)
      ]
    ]
