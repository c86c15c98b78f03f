-- ===== src/Watcher/Processor/Writes.antt =====
-- What the processing of a batch does to the store.
use wdxref.Base.{
  ◌≡◌, refl, Option, none, some, List, [], ◌∷◌, Bytes, All, Result, ok, err, Bool-cases, inl, inr,
}
use wdxref.Store.Kvrocks.{Kvrocks, HashLaws, StreamLaws}
use wdxref.Store.Pipe.{
  StoreError, Pipe, MappingsJson, EntityRecord, new_pipe, upsert_entity, delete_entity, exec,
}
use wdxref.Store.Pipe.Sticky.{Op, upsert, delete, apply_all, apply_all-failed}
use wdxref.Store.Pipe.Consistency.{IsAllowed, exec-IsConsistent}
use wdxref.Store.Scripts.Consistent.{IsConsistent}
use wdxref.Watcher.Claims.{WikidataJson, parse_entity_json}
use wdxref.Watcher.Wikidata.{ApiJson, Client, EntityResult, FetchError, Reply, fetch_entities_raw}
use wdxref.Watcher.Processor.{
  Batch, lookup, add_parsed, add_result, batch_of, delete_each, upsert_each, write_batch,
  unless_empty, store_batch, finish_batch, process_results, process_entities, EntityError,
}

-- Every mapping that an entity is parsed into is a string that the encoder of the store can carry.
abbrev pub IsCarriedJson : {s : Kvrocks} → MappingsJson s → WikidataJson → Type 0
IsCarriedJson j json =
    (raw id : Bytes) (mappings : List Bytes)
    → parse_entity_json json raw ≡ ok (some (id, mappings))
    → All j.IsCarried mappings

module _ (s : Kvrocks) (j : MappingsJson s) where
  -- The operations of a batch, in order.
  abbrev pub batch_ops : List EntityRecord → List Bytes → List Op
  batch_ops [] [] = []
  batch_ops [] (qid ∷ qids) = delete qid ∷ batch_ops [] qids
  batch_ops (rec ∷ recs) qids = upsert rec ∷ batch_ops recs qids

  fill-apply_all :
      (recs : List EntityRecord) (qids : List Bytes) (p : Pipe)
      → delete_each qids (upsert_each j recs p) ≡ apply_all j (batch_ops recs qids) p
  unfolding delete_each upsert_each
  fill-apply_all [] [] p = refl
  fill-apply_all [] (qid ∷ qids) p = fill-apply_all [] qids (delete_entity qid p)
  fill-apply_all (rec ∷ recs) qids p = fill-apply_all recs qids (upsert_entity j rec p)

module _ (json : WikidataJson) (P : Bytes → Type 0)
    (carried : (raw id : Bytes) (mappings : List Bytes)
      → parse_entity_json json raw ≡ ok (some (id, mappings))
      → All P mappings) where
  abbrev pub AreCarried : List EntityRecord → Type 0
  AreCarried = All (λ rec. All P rec.mappings)

  carried_parsed :
      (qid raw : Bytes) (b : Batch) (parsed : Result Bytes (Option (Bytes × List Bytes)))
      → parse_entity_json json raw ≡ parsed
      → AreCarried b.upserts
      → AreCarried (add_parsed json qid parsed b).upserts
  unfolding add_parsed
  carried_parsed qid raw b (err e) same h = h
  carried_parsed qid raw b (ok none) same h = h
  carried_parsed qid raw b (ok (some (id, mappings))) same h = (carried raw id mappings same, h)

  carried_result :
      (qid : Bytes) (result : Option EntityResult) (b : Batch)
      → AreCarried b.upserts
      → AreCarried (add_result json qid result b).upserts
  unfolding add_result
  carried_result qid none b h = h
  carried_result qid (some result) b h = elim (Bool-cases result.missing) [
    | inl gone ↦ rw gone h
    | inr there ↦
        rw there (carried_parsed qid result.raw b (parse_entity_json json result.raw) refl h)
  ]

  pub carried_upserts :
      (qids : List Bytes) (results : List (Bytes × EntityResult))
      → AreCarried (batch_of json qids results).upserts
  unfolding batch_of
  carried_upserts [] results = tt
  carried_upserts (qid ∷ qids) results =
      carried_result qid (lookup qid results) (batch_of json qids results)
        (carried_upserts qids results)

module _ (s : Kvrocks) (laws : HashLaws s) (streams : StreamLaws s) (j : MappingsJson s) where
  batch_ops-IsAllowed :
      (recs : List EntityRecord) (qids : List Bytes)
      → All (λ rec. All j.IsCarried rec.mappings) recs
      → All (IsAllowed s laws streams j) (batch_ops s j recs qids)
  batch_ops-IsAllowed [] [] h = tt
  batch_ops-IsAllowed [] (qid ∷ qids) h = (tt, batch_ops-IsAllowed [] qids tt)
  batch_ops-IsAllowed (rec ∷ recs) qids (carried, h) = (carried, batch_ops-IsAllowed recs qids h)

  ops-IsConsistent :
      (loading : Option StoreError) (os : List Op) (d : s.Db)
      → All (IsAllowed s laws streams j) os
      → IsConsistent s d
      → IsConsistent s (exec s (apply_all j os (new_pipe loading)) d).1
  ops-IsConsistent none os d h c = exec-IsConsistent s laws streams j os d h c
  ops-IsConsistent (some e) os d h c = unfold new_pipe exec in rw (apply_all-failed j os [] e) c

module _ (s : Kvrocks) (laws : HashLaws s) (streams : StreamLaws s) (j : MappingsJson s)
    (json : WikidataJson) (api : ApiJson) where
  unless_empty-IsConsistent :
      (recs : List EntityRecord) (qids : List Bytes) (written : Option StoreError × s.Db) (d : s.Db)
      → IsConsistent s written.1
      → IsConsistent s d
      → IsConsistent s (unless_empty s j json api recs qids written d).1
  unless_empty-IsConsistent [] [] written d h k = k
  unless_empty-IsConsistent [] (qid ∷ qids) written d h k = h
  unless_empty-IsConsistent (rec ∷ recs) qids written d h k = h

  store_batch-IsConsistent :
      (loading : Option StoreError) (batch : Batch) (d : s.Db)
      → All (λ rec. All j.IsCarried rec.mappings) batch.upserts
      → IsConsistent s d
      → IsConsistent s (store_batch s j json api loading batch d).1
  unfolding store_batch write_batch
  store_batch-IsConsistent loading batch d h c =
      let filled = fill-apply_all s j batch.upserts batch.deletes (new_pipe loading) in
      let written : IsConsistent s (write_batch s j json api loading batch d).1 = rw filled (
        ops-IsConsistent s laws streams j loading (batch_ops s j batch.upserts batch.deletes) d
          (batch_ops-IsAllowed s laws streams j batch.upserts batch.deletes h) c) in
      unless_empty-IsConsistent batch.upserts batch.deletes
        (write_batch s j json api loading batch d) d written c

  state-finish_batch :
      (errors : List (Bytes × EntityError)) (r : Option StoreError × s.Db)
      → (finish_batch s j json api errors r).1 ≡ r.1
  state-finish_batch errors (none, db) = refl
  state-finish_batch errors (some e, db) = refl

  process_results-IsConsistent :
      IsCarriedJson j json
      → (qids : List Bytes) (loading : Option StoreError)
        (fetched : Result FetchError (List (Bytes × EntityResult))) (d : s.Db)
      → IsConsistent s d
      → IsConsistent s (process_results s j json api qids loading fetched d).1
  unfolding process_results
  process_results-IsConsistent carried qids loading (err e) d c = c
  process_results-IsConsistent carried qids loading (ok results) d c =
      let batch = batch_of json qids results in
      rw (state-finish_batch batch.errors (store_batch s j json api loading batch d)) (
        store_batch-IsConsistent loading batch d
          (carried_upserts json j.IsCarried carried qids results) c)

  -- Whatever Wikidata replies, processing a batch of entities keeps the reverse index of the store
  -- consistent, if the mappings that entities are parsed into are strings that the encoder carries.
  pub process_entities-IsConsistent :
      IsCarriedJson j json
      → (qids : List Bytes) (reply : Reply) (loading : Option StoreError) (c : Client) (d : s.Db)
      → IsConsistent s d
      → IsConsistent s (process_entities s j json api qids reply loading c d).1
  unfolding process_entities
  process_entities-IsConsistent carried [] reply loading c d h = h
  process_entities-IsConsistent carried (qid ∷ qids) reply loading c d h =
      process_results-IsConsistent carried (qid ∷ qids) loading
        (fetch_entities_raw api (qid ∷ qids) reply c).0 d h
