-- ===== src/Replicate/Snapshot/Counted.antt =====
-- The counts in the control lines that generate of internal/replicate/snapshot.go writes.
use wdxref.Base.{
  ℕ, zero, suc, ◌+◌, ◌≡◌, refl, ap, sym, some, List, [], ◌∷◌, ◌++◌, arith, Bytes, All, Bool-cases,
  Option-cases, Result-cases, inl, inr, ◌==◌, Result, ok, err,
}
use mathlib.Core.Path.{subst}
use wdxref.Base.Int.{ℤ, pos}
use wdxref.Replicate.Protocol.{
  ControlJson, SnapshotLineType, SnapshotCheckpoint, classify_snapshot_line,
  append_snapshot_entity_line, append_snapshot_checkpoint_line, append_snapshot_done_line,
  line_feed, type_checkpoint, snapshot_control_version,
}
use wdxref.Replicate.Protocol.RoundTrip.{classify_entity_text}
use wdxref.Replicate.Snapshot.{
  SnapshotEntity, SnapshotMeta, Page, Progress, start_frame, put_entity, write_entity,
  write_entities, write_pages, finish, generate, snapshot_frame_size,
}
use wdxref.Replica.Fetch.Accepted.{entity_lines}

-- json.Marshal writes a struct as an object.
abbrev pub IsObject : ControlJson → Type 0
IsObject j =
    (c : SnapshotCheckpoint) (text : Bytes)
    → j.marshal_checkpoint c ≡ some text
    → (body : Bytes) × (text ≡ b'{' ∷ body)

entity_lines-append :
    (xs ys : List Bytes) → entity_lines (xs ++ ys) ≡ entity_lines xs + entity_lines ys
unfolding entity_lines
entity_lines-append [] ys = omega arith
entity_lines-append (x ∷ xs) ys = ground (arith, entity_lines-append xs ys)

-- An entity whose id is not negative.
abbrev pub HasId : SnapshotEntity → Type 0
HasId ent = (n : ℕ) × (ent.qid ≡ pos n)

-- The entities of a page, where it has any.
abbrev pub HasIds : Page → Type 0
HasIds p = (ents : List SnapshotEntity) (next : ℕ) → p.reply ≡ ok (ents, next) → All HasId ents

abbrev IsCounted : Progress → Type 0
IsCounted g = entity_lines g.written ≡ g.count

module _ (j : ControlJson) (object : IsObject j) (compressed : List Bytes → ℕ) where
  checkpoint_line :
      (offset before : ℤ) (line : Bytes)
      → append_snapshot_checkpoint_line j offset before ≡ ok line
      → classify_snapshot_line line ≡ SnapshotLineType.control
  unfolding append_snapshot_checkpoint_line classify_snapshot_line
  checkpoint_line offset before line h =
      let c : SnapshotCheckpoint = record {
        type = type_checkpoint;
        version = snapshot_control_version;
        offset = offset;
        entities_before = before;
      } in
      elim (Option-cases (j.marshal_checkpoint c)) [
        | inl e ↦ absurd (let k = rw (append_snapshot_checkpoint_line, e) at h in ground (arith, k))
        | inr (text, e) ↦
            let (body, f) = object c text e in
            let same : text ++ line_feed ∷ [] ≡ line =
              let k = rw (append_snapshot_checkpoint_line, e) at h in ground (arith, k) in
            rw (sym same, f)
      ]

  start_frame-IsCounted :
      (g g' : Progress) → IsCounted g → start_frame j compressed g ≡ ok g' → IsCounted g'
  unfolding start_frame entity_lines
  start_frame-IsCounted g g' h run =
      elim (Result-cases
        (append_snapshot_checkpoint_line j (pos (compressed g.written)) (pos g.count))) [
          | inr (bad, e) ↦ absurd (let k = rw (start_frame, e) at run in ground (arith, k))
          | inl (line, e) ↦
              let same : record { written = g.written ++ line ∷ []; count = g.count; in_frame = 0 }
                  ≡ g' =
                let k = rw (start_frame, e) at run in ground (arith, k) in
              subst IsCounted same (
                rw
                  (
                    entity_lines-append g.written (line ∷ []),
                    entity_lines,
                    checkpoint_line _ _ line e,
                  )
                  (omega (arith, h)))
        ]

  put_entity-IsCounted :
      (n : ℕ) (raw : Bytes) (g : Progress)
      → IsCounted g
      → IsCounted (put_entity j compressed (record { qid = pos n; raw_mappings = raw }) g)
  unfolding put_entity entity_lines append_snapshot_entity_line
  put_entity-IsCounted n raw g h =
      rw
        (
          entity_lines-append g.written _,
          entity_lines,
          classify_entity_text n (raw ++ line_feed ∷ []),
        )
        (omega (arith, h))

  write_entity-IsCounted :
      (ent : SnapshotEntity) (g g' : Progress)
      → HasId ent
      → IsCounted g
      → write_entity j compressed ent g ≡ ok g'
      → IsCounted g'
  unfolding write_entity
  write_entity-IsCounted ent g g' (n, id) h run =
      let entity : record { qid = pos n; raw_mappings = ent.raw_mappings } ≡ ent =
        ap (λ q. record { qid = q; raw_mappings = ent.raw_mappings }) (sym id) in
      let put : (g1 : Progress) → IsCounted g1 → IsCounted (put_entity j compressed ent g1) =
        λ g1 k.
          subst (λ e. IsCounted (put_entity j compressed e g1)) entity
            (put_entity-IsCounted n ent.raw_mappings g1 k) in
      elim (Bool-cases (g.in_frame == snapshot_frame_size)) [
        | inr e ↦
            let same : put_entity j compressed ent g ≡ g' =
              let k = rw (write_entity, e) at run in ground (arith, k) in
            subst IsCounted same (put g h)
        | inl e ↦ elim (Result-cases (start_frame j compressed g)) [
          | inr (bad, f) ↦ absurd (let k = rw (write_entity, e, f) at run in ground (arith, k))
          | inl (g1, f) ↦
              let same : put_entity j compressed ent g1 ≡ g' =
                let k = rw (write_entity, e, f) at run in ground (arith, k) in
              subst IsCounted same (put g1 (start_frame-IsCounted g g1 h f))
        ]
      ]

  write_entities-IsCounted :
      (ents : List SnapshotEntity) (g g' : Progress)
      → All HasId ents
      → IsCounted g
      → write_entities j compressed ents g ≡ ok g'
      → IsCounted g'
  unfolding write_entities
  write_entities-IsCounted [] g g' ids h run =
      let same : g ≡ g' = ground arith in subst IsCounted same h
  write_entities-IsCounted (ent ∷ ents) g g' (id, ids) h run =
      elim (Result-cases (write_entity j compressed ent g)) [
        | inr (bad, e) ↦ absurd (let k = rw (write_entities, e) at run in ground (arith, k))
        | inl (g1, e) ↦
            write_entities-IsCounted ents g1 g' ids (write_entity-IsCounted ent g g1 id h e)
              (rw (write_entities, e) at run)
      ]

  write_pages-IsCounted :
      (pages : List Page) (g g' : Progress)
      → All HasIds pages
      → IsCounted g
      → write_pages j compressed pages g ≡ ok g'
      → IsCounted g'
  unfolding write_pages
  write_pages-IsCounted [] g g' ids h run = absurd (ground arith)
  write_pages-IsCounted (p ∷ pages) g g' (id, ids) h run = elim (Bool-cases p.cancelled) [
    | inl c ↦ absurd (let k = rw (write_pages, c) at run in ground (arith, k))
    | inr c ↦ elim (Result-cases p.reply) [
      | inr (bad, e) ↦ absurd (let k = rw (write_pages, c, e) at run in ground (arith, k))
      | inl ((ents, zero), e) ↦ elim (Result-cases (write_entities j compressed ents g)) [
        | inr (bad, f) ↦ absurd (let k = rw (write_pages, c, e, f) at run in ground (arith, k))
        | inl (g1, f) ↦
            let same : g1 ≡ g' = let k = rw (write_pages, c, e, f) at run in ground (arith, k) in
            subst IsCounted same (write_entities-IsCounted ents g g1 (id ents zero e) h f)
      ]
      | inl ((ents, suc next), e) ↦ elim (Result-cases (write_entities j compressed ents g)) [
        | inr (bad, f) ↦ absurd (let k = rw (write_pages, c, e, f) at run in ground (arith, k))
        | inl (g1, f) ↦
            write_pages-IsCounted pages g1 g' ids
              (write_entities-IsCounted ents g g1 (id ents (suc next) e) h f)
              (rw (write_pages, c, e, f) at run)
      ]
    ]
  ]

  -- When a snapshot is generated from entities whose ids are not negative, and the encoder writes a
  -- checkpoint as an object, its last line is the done line that carries the changelog's position from
  -- before the scan, the one that the snapshot is published with, and the number of the entity lines
  -- before it.
  pub generate-IsCounted :
      (info : Result Bytes Bytes) (name : Bytes) (pages : List Page) (lines : List Bytes)
      (meta : SnapshotMeta)
      → All HasIds pages
      → generate j compressed info name pages ≡ ok (lines, meta)
      → (info ≡ ok meta.id)
        × (front : List Bytes) × (last : Bytes) × (lines ≡ front ++ last ∷ [])
        × (append_snapshot_done_line j meta.id (pos (entity_lines front)) ≡ ok last)
  unfolding generate finish entity_lines
  generate-IsCounted (err bad) name pages lines meta ids run = absurd (ground arith)
  generate-IsCounted (ok []) name pages lines meta ids run = absurd (ground arith)
  generate-IsCounted (ok (c ∷ id)) name pages lines meta ids run =
      elim (Result-cases (append_snapshot_checkpoint_line j (pos 0) (pos 0))) [
        | inr (bad, e) ↦ absurd (let k = rw (generate, e) at run in ground (arith, k))
        | inl (line, e) ↦
            let start : Progress = record { written = line ∷ []; count = 0; in_frame = 0 } in
            elim (Result-cases (write_pages j compressed pages start)) [
              | inr (bad, f) ↦ absurd (let k = rw (generate, e, f) at run in ground (arith, k))
              | inl (g, f) ↦
                  elim (Result-cases (append_snapshot_done_line j (c ∷ id) (pos g.count))) [
                    | inr (bad, i) ↦
                        absurd (let k = rw (generate, e, f, finish, i) at run in ground (arith, k))
                    | inl (last, i) ↦
                        let counted : IsCounted g =
                          write_pages-IsCounted pages start g ids
                            (rw (entity_lines, checkpoint_line (pos 0) (pos 0) line e) refl) f in
                        let same : (g.written ++ last ∷ [] ≡ lines)
                            × (record { file = name; id = c ∷ id } ≡ meta) =
                          let k = rw (generate, e, f, finish, i) at run in ground (arith, k) in
                        let position : c ∷ id ≡ meta.id = ap (λ (m : SnapshotMeta). m.id) same.1 in
                        (ap ok position, g.written, last, sym same.0, rw (sym position, counted) i)
                  ]
            ]
      ]
