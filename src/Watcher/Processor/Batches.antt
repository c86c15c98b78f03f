-- ===== src/Watcher/Processor/Batches.antt =====
-- How the entities of a batch are told apart.
use wdxref.Base.{
  ◌≡◌, refl, ap, Bool, true, false, ◌&&◌, ◌||◌, Option, none, some, List, [], ◌∷◌, Bytes, beq,
  beq_iff, contains, Result, ok, err, arith, Bool-cases, inl, inr, if◌then◌else◌,
}
use wdxref.Base.Sorting.{any}
use wdxref.Watcher.Claims.{WikidataJson, parse_entity_json}
use wdxref.Watcher.Wikidata.{EntityResult}
use wdxref.Watcher.Processor.{Batch, lookup, add_parsed, add_result, batch_of}

-- What becomes of one entity, by its place in the reply.
pub data Fate : Type 0 where
  upserted : Fate
  deleted : Fate
  failed : Fate
  skipped : Fate

abbrev pub fate_of_parsed : Result Bytes (Option (Bytes × List Bytes)) → Fate
fate_of_parsed (err e) = failed
fate_of_parsed (ok none) = skipped
fate_of_parsed (ok (some entity)) = upserted

abbrev pub fate_of : WikidataJson → Option EntityResult → Fate
fate_of json none = failed
fate_of json (some result) =
    if result.missing then deleted else fate_of_parsed (parse_entity_json json result.raw)

abbrev is_upserted : Fate → Bool
is_upserted upserted = true
is_upserted _ = false

abbrev is_deleted : Fate → Bool
is_deleted deleted = true
is_deleted _ = false

abbrev is_failed : Fate → Bool
is_failed failed = true
is_failed _ = false

-- The three lists of a batch that hold an entity.
abbrev upserts_hold : Bytes → Batch → Bool
upserts_hold qid b = any (λ rec. beq rec.wikidata_id qid) b.upserts

abbrev errors_hold : Bytes → Batch → Bool
errors_hold qid b = any (λ e. beq e.0 qid) b.errors

abbrev deletes_hold : Bytes → Batch → Bool
deletes_hold qid b = contains qid b.deletes

-- The three lists hold an entity exactly when it was asked for and has the fate.
abbrev pub IsSorted : WikidataJson → List Bytes → List (Bytes × EntityResult) → Bytes → Type 0
IsSorted json qids results qid =
    let batch = batch_of json qids results in
    let fate = fate_of json (lookup qid results) in
    let asked = contains qid qids in
    (upserts_hold qid batch ≡ (asked && is_upserted fate))
    × (deletes_hold qid batch ≡ (asked && is_deleted fate))
    × (errors_hold qid batch ≡ (asked && is_failed fate))

module _ (json : WikidataJson) (qid : Bytes) where
  abbrev Adds : Bytes → Fate → Batch → Batch → Type 0
  Adds x fate before after =
      (upserts_hold qid after ≡ (beq x qid && is_upserted fate || upserts_hold qid before))
      × (deletes_hold qid after ≡ (beq x qid && is_deleted fate || deletes_hold qid before))
      × (errors_hold qid after ≡ (beq x qid && is_failed fate || errors_hold qid before))

  add_parsed-Adds :
      (x : Bytes) (parsed : Result Bytes (Option (Bytes × List Bytes))) (b : Batch)
      → Adds x (fate_of_parsed parsed) b (add_parsed json x parsed b)
  unfolding add_parsed contains
  add_parsed-Adds x (err e) b = (ground arith, ground arith, ground arith)
  add_parsed-Adds x (ok none) b = (ground arith, ground arith, ground arith)
  add_parsed-Adds x (ok (some (id, mappings))) b = (ground arith, ground arith, ground arith)

  add_result-Adds :
      (x : Bytes) (result : Option EntityResult) (b : Batch)
      → Adds x (fate_of json result) b (add_result json x result b)
  unfolding add_result contains
  add_result-Adds x none b = (ground arith, ground arith, ground arith)
  add_result-Adds x (some result) b = elim (Bool-cases result.missing) [
    | inl gone ↦ rw gone (ground arith, ground arith, ground arith)
    | inr there ↦ rw there (add_parsed-Adds x (parse_entity_json json result.raw) b)
  ]

  -- Every entity that was asked for has one fate, which its place in the reply decides, and is held
  -- by the list of that fate alone: it is deleted exactly if the reply marks it as missing, it is an
  -- error if the reply lacks it or it cannot be parsed, it is upserted if it is parsed as an item, and
  -- it is in no list if it is parsed as something else. No other entity is in a list.
  pub batch_of-IsSorted :
      (qids : List Bytes) (results : List (Bytes × EntityResult)) → IsSorted json qids results qid
  unfolding batch_of contains
  batch_of-IsSorted [] results = (refl, refl, refl)
  batch_of-IsSorted (x ∷ qids) results =
      let (up, del, bad) = batch_of-IsSorted qids results in
      let (add_up, add_del, add_bad) =
        add_result-Adds x (lookup x results) (batch_of json qids results) in
      let same : beq x qid ≡ true
          → fate_of json (lookup x results) ≡ fate_of json (lookup qid results) =
        λ e. ap (λ q. fate_of json (lookup q results)) ((beq_iff x qid).0 e) in
      elim (Bool-cases (beq x qid)) [
        | inl is ↦
            let fate = same is in (ground (arith, fate), ground (arith, fate), ground (arith, fate))
        | inr other ↦ (ground arith, ground arith, ground arith)
      ]
