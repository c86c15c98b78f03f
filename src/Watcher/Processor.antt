-- ===== src/Watcher/Processor.antt =====
-- internal/watcher/processor.go: the entities of a batch are fetched, parsed, and written in one pipe.
pub mod Writes
pub mod Batches
use wdxref.Base.{
  ℕ, ◌≡◌, refl, Bool, true, false, Option, none, some, List, [], ◌∷◌, ◌++◌, Bytes, codes, beq,
  if◌then◌else◌, Result, ok, err,
}
use wdxref.Store.Kvrocks.{Kvrocks}
use wdxref.Store.Pipe.{
  StoreError, Pipe, MappingsJson, EntityRecord, new_pipe, upsert_entity, delete_entity, exec,
}
use wdxref.Watcher.Claims.{WikidataJson, parse_entity_json}
use wdxref.Watcher.Wikidata.{ApiJson, Client, EntityResult, FetchError, Reply, fetch_entities_raw}

-- The error of one entity, and the error of the whole batch.
pub data EntityError : Type 0 where
  absent : EntityError
  parse : Bytes → EntityError

pub data ProcessError : Type 0 where
  fetch : FetchError → ProcessError
  batch_write : StoreError → ProcessError

-- results[qid]
unfoldable pub lookup {ℓ} : {A : Type ℓ} → Bytes → List (Bytes × A) → Option A
unfolding beq
lookup qid [] = none
lookup qid ((key, value) ∷ rest) =
    let later = lookup qid rest in if beq key qid then some value else later

-- perEntityErrors, upserts and deletes.
pub record Batch : Type 0 where
  pub errors : List (Bytes × EntityError)
  pub upserts : List EntityRecord
  pub deletes : List Bytes

abbrev pub empty_batch : Batch
empty_batch = record { errors = []; upserts = []; deletes = [] }

abbrev pub add_error : Bytes → EntityError → Batch → Batch
add_error qid e b = record b { errors = (qid, e) ∷ b.errors }

abbrev pub add_upsert : EntityRecord → Batch → Batch
add_upsert rec b = record b { upserts = rec ∷ b.upserts }

abbrev pub add_delete : Bytes → Batch → Batch
add_delete qid b = record b { deletes = qid ∷ b.deletes }

module _ (json : WikidataJson) where
  -- The body of the loop after the tests of the result: the entity is parsed.
  unfoldable pub add_parsed : Bytes → Result Bytes (Option (Bytes × List Bytes)) → Batch → Batch
  add_parsed qid (err e) b = add_error qid (parse e) b
  add_parsed qid (ok none) b = b
  add_parsed qid (ok (some (_, mappings))) b =
      add_upsert (record { wikidata_id = qid; mappings = mappings }) b

  -- The body of the loop; what the rest of the loop appends follows it.
  unfoldable pub add_result : Bytes → Option EntityResult → Batch → Batch
  unfolding add_parsed parse_entity_json
  add_result qid none b = add_error qid absent b
  add_result qid (some result) b =
      if result.missing
      then add_delete qid b
      else add_parsed qid (parse_entity_json json result.raw) b

  -- The loop over the QIDs.
  unfoldable pub batch_of : List Bytes → List (Bytes × EntityResult) → Batch
  unfolding add_result lookup
  batch_of [] results = empty_batch
  batch_of (qid ∷ qids) results = add_result qid (lookup qid results) (batch_of qids results)

-- The two loops that fill the pipe.
unfoldable pub delete_each : List Bytes → Pipe → Pipe
unfolding delete_entity
delete_each [] p = p
delete_each (qid ∷ qids) p = delete_each qids (delete_entity qid p)

unfoldable pub upsert_each : {s : Kvrocks} → MappingsJson s → List EntityRecord → Pipe → Pipe
unfolding upsert_entity
upsert_each j [] p = p
upsert_each j (rec ∷ recs) p = upsert_each j recs (upsert_entity j rec p)

module _ (s : Kvrocks) (j : MappingsJson s) (json : WikidataJson) (api : ApiJson) where
  -- The pipe is filled and executed; `loading` is the error of loading the scripts.
  unfoldable pub write_batch : Option StoreError → Batch → s.Db → Option StoreError × s.Db
  unfolding new_pipe upsert_each delete_each exec
  write_batch loading batch db =
      exec s (delete_each batch.deletes (upsert_each j batch.upserts (new_pipe loading))) db

  -- The write, unless there is nothing to write.
  abbrev pub unless_empty :
      List EntityRecord → List Bytes → Option StoreError × s.Db → s.Db → Option StoreError × s.Db
  unless_empty [] [] written db = (none, db)
  unless_empty _ _ written db = written

  unfoldable pub store_batch : Option StoreError → Batch → s.Db → Option StoreError × s.Db
  unfolding write_batch
  store_batch loading batch db =
      unless_empty batch.upserts batch.deletes (write_batch loading batch db) db

  abbrev pub finish_batch :
      List (Bytes × EntityError)
      → Option StoreError × s.Db
      → Result ProcessError (List (Bytes × EntityError)) × s.Db
  finish_batch errors (none, db) = (ok errors, db)
  finish_batch errors (some e, db) = (err (batch_write e), db)

  -- ProcessEntities after the fetch.
  unfoldable pub process_results :
      List Bytes
      → Option StoreError
      → Result FetchError (List (Bytes × EntityResult))
      → s.Db
      → Result ProcessError (List (Bytes × EntityError)) × s.Db
  unfolding batch_of store_batch
  process_results qids loading (err e) db = (err (fetch e), db)
  process_results qids loading (ok results) db =
      let batch = batch_of json qids results in
      finish_batch batch.errors (store_batch loading batch db)

  -- ProcessEntities
  unfoldable pub process_entities :
      List Bytes
      → Reply
      → Option StoreError
      → Client
      → s.Db
      → Result ProcessError (List (Bytes × EntityError)) × s.Db × Client
  unfolding fetch_entities_raw process_results
  process_entities [] reply loading c db = (ok [], db, c)
  process_entities (qid ∷ qids) reply loading c db =
      let (fetched, next) = fetch_entities_raw api (qid ∷ qids) reply c in
      let (result, db1) = process_results (qid ∷ qids) loading fetched db in (result, db1, next)

  -- ProcessEntity: the error of the batch, or of the entity.
  unfoldable pub process_entity :
      Bytes
      → Reply
      → Option StoreError
      → Client
      → s.Db
      → Result ProcessError (Option EntityError) × s.Db × Client
  unfolding process_entities lookup
  process_entity qid reply loading c db =
      let (result, db1, next) = process_entities (qid ∷ []) reply loading c db in
      (elim result [ err e ↦ err e | ok errors ↦ ok (lookup qid errors) ], db1, next)
