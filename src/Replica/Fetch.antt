-- ===== src/Replica/Fetch.antt =====
-- fetchSnapshot of internal/replica/client.go. The HTTP reply is data, with its body as the lines that
-- the scanner gives; the schema's version is a parameter.
pub mod Lines
pub mod Applied
pub mod Written
pub mod Accepted
use wdxref.Base.{
  ℕ, ◌+◌, Bool, true, false, ◌&&◌, not, Option, none, some, List, [], ◌∷◌, ◌++◌, Bytes, codes, beq,
  length, leb, ◌==◌, if◌then◌else◌, Result, ok, err,
}
use wdxref.Base.Int.{ℤ, pos, ◌+ℤ◌, pos_part, neg_part, ltb_ℤ}
use wdxref.Strconv.{format_int, parse_int}
use wdxref.Store.Kvrocks.{Kvrocks}
use wdxref.Store.Scripts.{meta_key}
use wdxref.Store.Ids.{int_to_qid}
use wdxref.Store.Pipe.{
  StoreError, Pipe, RawEntityRecord, new_pipe, upsert_raw_entity, set_sync_state, del_sync_states,
  exec,
}
use wdxref.Replicate.Protocol.{
  ControlJson, ProtocolError, SnapshotLineType, SnapshotControl, classify_snapshot_line,
  parse_snapshot_entity_line, parse_snapshot_control, parse_snapshot_checkpoint,
  parse_snapshot_done, type_checkpoint, type_done,
}

pub data FetchError : Type 0 where
  request_failed not_ready missing_etag data_after_done missing_done scan_failed : FetchError
  open_failed invalid_line : FetchError
  unexpected_status : ℕ → FetchError
  store_failed : StoreError → FetchError
  bad_line : ProtocolError → FetchError
  checkpoint_mismatch done_mismatch : ℤ → ℤ → FetchError
  unknown_type : Bytes → FetchError

abbrev pub snapshot_batch_size : ℕ
snapshot_batch_size = 500

-- The variables of the loop; `applied` counts the entities of this run.
pub record Fetch : Type 0 where
  pub applied : ℕ
  pub pending : List RawEntityRecord
  pub seen_done : Bool
  pub snapshot_id : Bytes

abbrev equal_ℤ : ℤ → ℤ → Bool
equal_ℤ a b = (pos_part a == pos_part b) && (neg_part a == neg_part b)

unfoldable pub fill_batch : List RawEntityRecord → Pipe → Pipe
fill_batch [] p = p
fill_batch (rec ∷ recs) p = fill_batch recs (upsert_raw_entity rec p)

module _ (s : Kvrocks) where
  open s use {Db, hget, flushdb}

  -- flushBatch
  flush_some : List RawEntityRecord → Fetch → Db → Result FetchError Fetch × Db
  flush_some [] st db = (ok st, db)
  flush_some (rec ∷ recs) st db =
      let (result, db') = (exec s (fill_batch (rec ∷ recs) (new_pipe none)) db) in
      elim result [
        | some e ↦ (err (store_failed e), db')
        | none ↦ (ok (record st { applied = st.applied + length (rec ∷ recs); pending = [] }), db')
      ]

  unfoldable pub flush_batch : Fetch → Db → Result FetchError Fetch × Db
  unfolding flush_some
  flush_batch st db = flush_some st.pending st db

  -- The writes of the sync state whose error the code drops.
  unfoldable pub save_resume : List (Bytes × Bytes) → Db → Db
  save_resume fields db = (exec s (set_all fields (new_pipe none)) db).1
    where
      set_all : List (Bytes × Bytes) → Pipe → Pipe
      set_all [] p = p
      set_all ((k, v) ∷ kvs) p = set_all kvs (set_sync_state k v p)

module _ (s : Kvrocks) (j : ControlJson) (base : ℤ) where
  open s use {Db}

  pub add_pending : ℤ × Bytes → Fetch → Db → Result FetchError Fetch × Db
  add_pending (qid, raw) st db =
      let st' = record st {
        pending = st.pending ++ record { wikidata_id = int_to_qid qid; raw_mappings = raw } ∷ [];
      } in
      if leb snapshot_batch_size (length st'.pending) then flush_batch s st' db else (ok st', db)

  on_entity : Bytes → Fetch → Db → Result FetchError Fetch × Db
  unfolding add_pending
  on_entity line st db = elim (parse_snapshot_entity_line line) [
    | err e ↦ (err (bad_line e), db)
    | ok parsed ↦ add_pending parsed st db
  ]

  pub on_checkpoint : Bytes → Fetch → Db → Result FetchError Fetch × Db
  on_checkpoint line st db = elim (parse_snapshot_checkpoint j line) [
    | err e ↦ (err (bad_line e), db)
    | ok checkpoint ↦
        let total = base +ℤ pos st.applied in
        if equal_ℤ total checkpoint.entities_before
        then (
          ok st,
          save_resume s
              ((codes "snapshot_resume_offset", format_int checkpoint.offset)
                ∷ (codes "snapshot_resume_entities", format_int checkpoint.entities_before)
                ∷ [])
              db,
        )
        else (err (checkpoint_mismatch total checkpoint.entities_before), db)
  ]

  pub on_done : Bytes → Fetch → Db → Result FetchError Fetch × Db
  on_done line st db = elim (parse_snapshot_done j line) [
    | err e ↦ (err (bad_line e), db)
    | ok done ↦
        let total = base +ℤ pos st.applied in
        if equal_ℤ total done.entities
        then (ok (record st { snapshot_id = done.stream_id; seen_done = true }), db)
        else (err (done_mismatch total done.entities), db)
  ]

  after_header :
      Bytes → Result ProtocolError SnapshotControl → Fetch → Db → Result FetchError Fetch × Db
  unfolding on_checkpoint on_done
  after_header line (err e) st db = (err (bad_line e), db)
  after_header line (ok control) st db =
      if beq control.type type_checkpoint
      then on_checkpoint line st db
      else if beq control.type type_done
      then on_done line st db
      else (err (unknown_type control.type), db)

  -- A control line: what is pending is applied before it is looked at.
  on_control : Bytes → Fetch → Db → Result FetchError Fetch × Db
  unfolding after_header
  on_control line st db =
      let (result, db') = (flush_batch s st db) in
      elim result [
        | err e ↦ (err e, db')
        | ok st' ↦ after_header line (parse_snapshot_control j line) st' db'
      ]

  -- The body of the loop.
  unfoldable pub read_line : Bytes → Fetch → Db → Result FetchError Fetch × Db
  unfolding on_entity on_control
  read_line line st db =
      if st.seen_done then (err data_after_done, db) else elim (classify_snapshot_line line) [
        | SnapshotLineType.entity ↦ on_entity line st db
        | SnapshotLineType.control ↦ on_control line st db
        | SnapshotLineType.invalid ↦ (err invalid_line, db)
      ]

  unfoldable pub read_lines : List Bytes → Fetch → Db → Result FetchError Fetch × Db
  read_lines [] st db = (ok st, db)
  read_lines (line ∷ lines) st db =
      let (result, db') = (read_line line st db) in
      elim result [ err e ↦ (err e, db') | ok st' ↦ read_lines lines st' db' ]

  after_lines : Bool → Fetch → Db → Result FetchError Fetch × Db
  after_lines failed st db =
      let (result, db') = (flush_batch s st db) in
      elim result [
        | err e ↦ (err e, db')
        | ok st' ↦
            if failed
            then (err scan_failed, db')
            else if st'.seen_done
            then (ok st', db')
            else (err missing_done, db')
      ]

  -- The loop and the tests behind it: the last flush, the scanner's error, the missing done line.
  unfoldable pub read_body : List Bytes → Bool → Db → Result FetchError Fetch × Db
  unfolding after_lines
  read_body lines failed db =
      let (result, db') =
        (read_lines lines
          (record { applied = 0; pending = []; seen_done = false; snapshot_id = [] }) db) in
      elim result [ err e ↦ (err e, db') | ok st ↦ after_lines failed st db' ]

-- The reply to the request, or `none` if it fails; the lines end with the scanner's error or without.
pub record SnapshotResponse : Type 0 where
  pub status : ℕ
  pub etag : Bytes
  pub opened : Bool
  pub lines : List Bytes
  pub failed : Bool

-- What is requested: from an offset on, if the file is still the one of the tag.
pub record Resume : Type 0 where
  pub etag : Bytes
  pub offset : ℤ
  pub entities : ℤ
  pub requested : Bool

module _ (s : Kvrocks) where
  open s use {Db, hget, flushdb}

  -- GetSyncStates at one key: a missing one is "".
  abbrev sync_state : Db → Bytes → Bytes
  sync_state db key = elim (hget db meta_key key) [ none ↦ [] | some v ↦ v ]

  or_else : Bytes → Bytes → Bytes
  or_else a b = if beq a [] then b else a

  -- The state of an earlier attempt; ParseInt's error is dropped.
  unfoldable pub resume_of : Db → Resume
  unfolding or_else
  resume_of db =
      let etag = sync_state db (codes "snapshot_etag") in
      let offset = (parse_int (sync_state db (codes "snapshot_resume_offset"))).0 in
      let entities =
        or_else (sync_state db (codes "snapshot_resume_entities"))
          (sync_state db (codes "snapshot_entities_applied")) in
      record {
        etag = etag;
        offset = offset;
        entities = (parse_int entities).0;
        requested = not (beq etag []) && ltb_ℤ (pos 0) offset && not (beq entities []);
      }

  -- The full file was sent: everything is flushed, and the schema's version is set again.
  start_fresh : Bytes → Db → Option StoreError × Db
  start_fresh version db =
      exec s (set_sync_state (codes "schema_version") version (new_pipe none)) (flushdb db)

  metadata : Bytes → Bytes → ℤ → Pipe
  metadata version id total =
      del_sync_states
        (codes "snapshot_etag"
          ∷ codes "snapshot_resume_offset"
          ∷ codes "snapshot_resume_entities"
          ∷ codes "snapshot_entities_applied"
          ∷ codes "snapshot_entities_per_frame"
          ∷ [])
        (set_sync_state (codes "entity_count") (format_int total) (
          set_sync_state (codes "schema_version") version (
            set_sync_state (codes "state") (codes "streaming")
              (set_sync_state (codes "last_replicated_id") id (new_pipe none)))))

  -- The end: the final metadata, and the progress cleared.
  unfoldable pub finish_fetch : Bytes → ℤ → Fetch → Db → Result FetchError Bytes × Db
  unfolding metadata
  finish_fetch version base st db =
      let (result, db') = (exec s (metadata version st.snapshot_id (base +ℤ pos st.applied)) db) in
      elim result [ some e ↦ (err (store_failed e), db') | none ↦ (ok st.snapshot_id, db') ]

  after_body : Bytes → ℤ → Result FetchError Fetch × Db → Result FetchError Bytes × Db
  after_body version base (err e, db) = (err e, db)
  after_body version base (ok st, db) = finish_fetch version base st db

  -- The body, once the base is settled.
  apply_body : ControlJson → Bytes → SnapshotResponse → ℤ → ℤ → Db → Result FetchError Bytes × Db
  unfolding after_body
  apply_body j version resp offset base db =
      let db1 =
        save_resume s
          ((codes "snapshot_etag", resp.etag)
            ∷ (codes "snapshot_resume_offset", format_int offset)
            ∷ (codes "snapshot_resume_entities", format_int base)
            ∷ [])
          db in
      if resp.opened
      then after_body version base (read_body s j base resp.lines resp.failed db1)
      else (err open_failed, db1)

  on_response : ControlJson → Bytes → Resume → SnapshotResponse → Db → Result FetchError Bytes × Db
  unfolding apply_body start_fresh after_body
  on_response j version resume resp db =
      if resume.requested && (resp.status == 206)
      then apply_body j version resp resume.offset resume.entities db
      else let (result, db') = (start_fresh version db) in
        elim result [
          | some e ↦ (err (store_failed e), db')
          | none ↦ apply_body j version resp (pos 0) (pos 0) db'
        ]

  -- fetchSnapshot; the reply depends on what is requested.
  unfoldable pub fetch_snapshot :
      ControlJson → Bytes → (Resume → Option SnapshotResponse) → Db → Result FetchError Bytes × Db
  unfolding on_response
  fetch_snapshot j version send db = elim (send (resume_of db)) [
    | none ↦ (err request_failed, db)
    | some resp ↦
        if resp.status == 503
        then (err not_ready, db)
        else if not (resp.status == 200) && not (resp.status == 206)
        then (err (unexpected_status resp.status), db)
        else if beq resp.etag []
        then (err missing_etag, db)
        else on_response j version (resume_of db) resp db
  ]
