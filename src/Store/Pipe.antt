-- ===== src/Store/Pipe.antt =====
-- The pipe of internal/store/writer.go: operations are queued until Exec, and after the first error
-- every operation is a no-op. A queued command is data here; `exec` runs the queue on the server.
-- `MappingsJson` stands for the encoder of a list of entries.
pub mod Sticky
pub mod Agreement
pub mod Consistency
use wdxref.Base.{
  ℕ, zero, suc, ◌≡◌, Bool, true, false, Option, none, some, List, [], ◌∷◌, ◌++◌, map, Bytes, codes,
  beq, if◌then◌else◌, Result, ok, err, ◌>>=◌, All,
}
use wdxref.Base.Int.{ℤ, pos}
use wdxref.Strconv.{format_int}
use wdxref.Store.Kvrocks.{Kvrocks}
use wdxref.Store.Ids.{IdError, qid_to_int, parse_flat_mapping_entry}
use wdxref.Store.Scripts.{LuaError, meta_key, upsert, delete}

abbrev pub pending_key : Bytes
pending_key = codes "pending"

abbrev pub processing_key : Bytes
processing_key = codes "processing"

abbrev pub failed_zset_key : Bytes
failed_zset_key = codes "failed_zset"

abbrev pub fail_key : Bytes → Bytes
fail_key id = codes "failed:" ++ id

pub data StoreError : Type 0 where
  load_script : StoreError
  id_error : IdError → StoreError
  raw_mappings_empty : Bytes → StoreError
  invalid_mapping : Bytes → Bytes → IdError → StoreError
  script_error : LuaError → StoreError

-- What is queued: a script or a command, with its arguments.
pub data Command : Type 0 where
  run_upsert : Bytes → Bytes → Command
  run_delete : Bytes → Command
  hset_meta : Bytes → Bytes → Command
  hdel_meta : List Bytes → Command
  sadd : Bytes → List Bytes → Command
  srem : Bytes → List Bytes → Command
  run_record_failed : Bytes → Bytes → Bytes → ℤ → Command
  zrem_failed : Bytes → Command
  del_failed : Bytes → Command

pub record Pipe : Type 0 where
  pub queued : List Command
  pub error : Option StoreError

-- The text of a list of entries, and the strings that such a text can carry (valid UTF-8).
pub record MappingsJson (s : Kvrocks) : Type 1 where
  pub marshal : List Bytes → Bytes
  pub IsCarried : Bytes → Type 0
  pub decode-empty : s.decode (codes "[]") ≡ some []
  pub decode-marshal : (es : List Bytes) → All IsCarried es → s.decode (marshal es) ≡ some es

-- EntityRecord and RawEntityRecord.
pub record EntityRecord : Type 0 where
  pub wikidata_id : Bytes
  pub mappings : List Bytes

pub record RawEntityRecord : Type 0 where
  pub wikidata_id : Bytes
  pub raw_mappings : Bytes

-- NewPipe: the error of loading the scripts, if there is one, is captured.
unfoldable pub new_pipe : Option StoreError → Pipe
new_pipe loading = record { queued = []; error = loading }

-- Every method begins with the test of the error; then it queues commands or sets the error.
abbrev pub queue : Result StoreError (List Command) → Pipe → Pipe
queue outcome p = elim p.error [
  | some _ ↦ p
  | none ↦ elim outcome [
    | ok commands ↦ record p { queued = p.queued ++ commands }
    | err e ↦ record p { error = some e }
  ]
]

abbrev pub eid_of : Bytes → Result StoreError Bytes
eid_of qid = elim (qid_to_int qid) [ ok id ↦ ok (format_int id) | err e ↦ err (id_error e) ]

-- The loop over qids of EnqueueEntities and AckProcessedEntities.
unfoldable pub members_of : List Bytes → Result StoreError (List Bytes)
members_of [] = ok []
members_of (qid ∷ qids) = elim (eid_of qid) [
  | err e ↦ err e
  | ok member ↦ elim (members_of qids) [ err e ↦ err e | ok members ↦ ok (member ∷ members) ]
]

unfoldable pub upsert_raw_commands : RawEntityRecord → Result StoreError (List Command)
upsert_raw_commands rec = elim (eid_of rec.wikidata_id) [
  | err e ↦ err e
  | ok eid ↦
      if beq rec.raw_mappings []
      then err (raw_mappings_empty rec.wikidata_id)
      else ok (run_upsert rec.raw_mappings eid ∷ [])
]

unfoldable pub upsert_raw_entity : RawEntityRecord → Pipe → Pipe
unfolding upsert_raw_commands
upsert_raw_entity rec = queue (upsert_raw_commands rec)

-- The loop of UpsertEntity that validates the entries.
unfoldable pub validate_entries : Bytes → List Bytes → Option StoreError
validate_entries qid [] = none
validate_entries qid (entry ∷ entries) = elim (parse_flat_mapping_entry entry) [
  | err e ↦ some (invalid_mapping qid entry e)
  | ok _ ↦ validate_entries qid entries
]

module _ {s : Kvrocks} (j : MappingsJson s) where
  unfoldable pub canonical_mappings_json : List Bytes → Bytes
  canonical_mappings_json [] = codes "[]"
  canonical_mappings_json (e ∷ es) = j.marshal (e ∷ es)

  unfoldable pub upsert_commands : EntityRecord → Result StoreError (List Command)
  unfolding canonical_mappings_json
  upsert_commands rec = elim (eid_of rec.wikidata_id) [
    | err e ↦ err e
    | ok eid ↦ elim (validate_entries rec.wikidata_id rec.mappings) [
      | some e ↦ err e
      | none ↦ ok (run_upsert (canonical_mappings_json rec.mappings) eid ∷ [])
    ]
  ]

  unfoldable pub upsert_entity : EntityRecord → Pipe → Pipe
  unfolding upsert_commands
  upsert_entity rec = queue (upsert_commands rec)

unfoldable pub delete_entity : Bytes → Pipe → Pipe
delete_entity qid = queue (elim (eid_of qid) [ err e ↦ err e | ok eid ↦ ok (run_delete eid ∷ []) ])

unfoldable pub set_sync_state : Bytes → Bytes → Pipe → Pipe
set_sync_state key value = queue (ok (hset_meta key value ∷ []))

unfoldable pub del_sync_states : List Bytes → Pipe → Pipe
del_sync_states keys = queue (ok (hdel_meta keys ∷ []))

unfoldable pub enqueue_entities : List Bytes → Pipe → Pipe
enqueue_entities [] = queue (ok [])
enqueue_entities (qid ∷ qids) =
    queue (elim (members_of (qid ∷ qids)) [ err e ↦ err e | ok ms ↦ ok (sadd pending_key ms ∷ []) ])

unfoldable pub ack_processed_entities : List Bytes → Pipe → Pipe
ack_processed_entities [] = queue (ok [])
ack_processed_entities (qid ∷ qids) =
    queue
      (elim (members_of (qid ∷ qids)) [ err e ↦ err e | ok ms ↦ ok (srem processing_key ms ∷ []) ])

-- The time comes as the text of RFC 3339 and as microseconds.
unfoldable pub record_failed_entity : Bytes → Bytes → Bytes → ℤ → Pipe → Pipe
record_failed_entity qid message now micros = queue (elim (eid_of qid) [
  | err e ↦ err e
  | ok id ↦ ok (run_record_failed id message now micros ∷ [])
])

unfoldable pub delete_failed_entity : Bytes → Pipe → Pipe
delete_failed_entity qid =
    queue (elim (eid_of qid) [ err e ↦ err e | ok id ↦ ok (zrem_failed id ∷ del_failed id ∷ []) ])

module _ (s : Kvrocks) where
  open s use {Db}

  abbrev pub hset_failed : Bytes → List (Bytes × Bytes) → Db → Db
  hset_failed key [] db = db
  hset_failed key ((f, v) ∷ fs) db = hset_failed key fs (s.hset db key f v)

  -- recordFailedScript
  unfoldable pub record_failed : Bytes → Bytes → Bytes → ℤ → Db → Db
  record_failed id message now micros db =
      let again =
        s.hincrby
          (hset_failed (fail_key id) ((codes "error", message) ∷ (codes "last_failed", now) ∷ [])
            db)
          (fail_key id) (codes "attempts") (pos 1) in
      let first =
        hset_failed (fail_key id)
          ((codes "error", message)
            ∷ (codes "attempts", codes "1")
            ∷ (codes "first_failed", now)
            ∷ (codes "last_failed", now)
            ∷ [])
          db in
      s.zadd (if s.exists db (fail_key id) then again else first) failed_zset_key micros id

  abbrev pub each : (Bytes → Db → Db) → List Bytes → Db → Db
  each step [] db = db
  each step (x ∷ xs) db = each step xs (step x db)

  abbrev pub drop_reply : Result LuaError ℕ × Db → Option StoreError × Db
  drop_reply (ok _, db) = (none, db)
  drop_reply (err e, db) = (some (script_error e), db)

  unfoldable pub run_command : Command → Db → Option StoreError × Db
  unfolding record_failed
  run_command (run_upsert m eid) db = drop_reply (upsert s m eid db)
  run_command (run_delete eid) db = drop_reply (delete s eid db)
  run_command (hset_meta k v) db = (none, s.hset db meta_key k v)
  run_command (hdel_meta ks) db = (none, each (λ k d. s.hdel d meta_key k) ks db)
  run_command (sadd key ms) db = (none, each (λ m d. s.sadd d key m) ms db)
  run_command (srem key ms) db = (none, each (λ m d. s.srem d key m) ms db)
  run_command (run_record_failed id message now micros) db =
      (none, record_failed id message now micros db)
  run_command (zrem_failed id) db = (none, s.zrem db failed_zset_key id)
  run_command (del_failed id) db = (none, s.del db (fail_key id))

  abbrev pub first_error : Option StoreError → Option StoreError → Option StoreError
  first_error none e = e
  first_error (some e) _ = some e

  -- The server answers each command of a pipeline, also behind one that fails.
  unfoldable pub run_commands : List Command → Db → Option StoreError × Db
  run_commands [] db = (none, db)
  run_commands (c ∷ cs) db =
      let (e, db1) = run_command c db in
      let (es, db2) = run_commands cs db1 in (first_error e es, db2)

  -- Exec
  unfoldable pub exec : Pipe → Db → Option StoreError × Db
  exec p db = elim p.error [ some e ↦ (some e, db) | none ↦ run_commands p.queued db ]
