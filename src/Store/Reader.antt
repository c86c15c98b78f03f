-- ===== src/Store/Reader.antt =====
-- The reads of internal/store/reader.go: lookups by property and by id, the sync state, the failed
-- entities, and the times in ids. Errors of the connection are left out.
pub mod Lookup
use wdxref.Base.{
  ℕ, suc, ◌+◌, ◌≡◌, refl, Bool, true, false, ◌||◌, Option, none, some, List, [], ◌∷◌, ◌++◌, Bytes,
  codes, beq, index_byte, take, drop, length, if◌then◌else◌, Result, ok, err, leb,
}
use wdxref.Base.Int.{ℤ, pos, pos_part, ltb_ℤ}
use wdxref.Strconv.{NumError, parse_int, format_int, checked}
use wdxref.Store.Kvrocks.{Kvrocks}
use wdxref.Store.Words.{words}
use wdxref.Store.Scripts.{index_key, meta_key, entities_key}
use wdxref.Store.Queue.{qids_of}

-- LookupResult of internal/model
pub record LookupResult : Type 0 where
  pub wikidata_id : ℤ
  pub raw_mappings : Bytes

pub data ReaderError : Type 0 where
  schema_mismatch : ReaderError
  parse_qid : NumError → ReaderError

-- The test for a text without mappings.
unfoldable pub is_blank : Bytes → Bool
is_blank raw = beq raw [] || beq raw (codes "[]")

keep : Bytes → ℤ → List LookupResult → List LookupResult
keep raw qid rest =
    if is_blank raw then rest else record { wikidata_id = qid; raw_mappings = raw } ∷ rest

-- The loop over the script's flat array of ids and texts.
unfoldable pub read_pairs : List Bytes → Result ReaderError (List LookupResult)
unfolding keep
read_pairs [] = ok []
read_pairs (x ∷ []) = ok []
read_pairs (x ∷ raw ∷ pairs) =
    let rest = read_pairs pairs in
    elim (checked (parse_int x)) [
      | err e ↦ err (parse_qid e)
      | ok qid ↦ elim rest [ err e ↦ err e | ok results ↦ ok (keep raw qid results) ]
    ]

abbrev pub nil_if_empty : List Bytes → Option (List Bytes)
nil_if_empty [] = none
nil_if_empty (x ∷ rest) = some (x ∷ rest)

read_reply : Option (List Bytes) → Result ReaderError (List LookupResult)
read_reply none = ok []
read_reply (some res) = read_pairs res

module _ (s : Kvrocks) where
  open s use {Db, hget}

  with_text : Bytes → Option Bytes → List Bytes → List Bytes
  with_text eid none rest = rest
  with_text eid (some m) rest = eid ∷ m ∷ rest

  -- The loop of lookupByPropertyScript; an id without an entity is skipped.
  unfoldable pub gather : Db → List Bytes → List Bytes
  unfolding with_text
  gather db [] = []
  gather db (eid ∷ ids) = with_text eid (hget db entities_key eid) (gather db ids)

  -- lookupByPropertyScript; `none` is nil.
  unfoldable pub lookup_script : Bytes → Bytes → Db → Option (List Bytes)
  lookup_script prop value db = elim (hget db (index_key prop) value) [
    | none ↦ none
    | some raw ↦ nil_if_empty (gather db (words raw))
  ]

  -- LookupByPropertyContext
  unfoldable pub lookup_by_property : Bool → ℤ → Bytes → Db → Result ReaderError (List LookupResult)
  unfolding read_reply
  lookup_by_property false prop value db = err schema_mismatch
  lookup_by_property true prop value db = read_reply (lookup_script (format_int prop) value db)

  -- lookupEntity
  unfoldable pub lookup_entity : ℤ → Db → Option LookupResult
  lookup_entity qid db = elim (hget db entities_key (format_int qid)) [
    | none ↦ none
    | some m ↦ if is_blank m then none else some (record { wikidata_id = qid; raw_mappings = m })
  ]

  -- LookupByWikidataIDContext
  unfoldable pub lookup_by_wikidata_id : Bool → ℤ → Db → Result ReaderError (Option LookupResult)
  lookup_by_wikidata_id false qid db = err schema_mismatch
  lookup_by_wikidata_id true qid db = ok (lookup_entity qid db)

  -- GetSyncState; a missing value is empty.
  unfoldable pub get_sync_state : Bytes → Db → Bytes
  get_sync_state key db = elim (hget db meta_key key) [ none ↦ [] | some val ↦ val ]

-- LastFailedEntities, behind ZRANGE: the members with the lowest scores.
unfoldable pub last_failed_entities : List Bytes → List Bytes
last_failed_entities members = qids_of members

-- streamIDToTime, as milliseconds; `none` is the zero time.
unfoldable pub stream_id_to_time : Bytes → Option ℕ
stream_id_to_time id =
    let part : Bytes = elim (index_byte id b'-') [ none ↦ id | some i ↦ take i id ] in
    elim (checked (parse_int part)) [
      | err _ ↦ none
      | ok ms ↦ if ltb_ℤ (pos 0) ms then some (pos_part ms) else none
    ]

-- eventIDToTime, behind the JSON: the offsets' timestamps; the least of the positive ones.
unfoldable pub event_time : List (Option ℤ) → ℕ
event_time stamps = least 0 stamps
  where
    least : ℕ → List (Option ℤ) → ℕ
    least best [] = best
    least best (none ∷ ts) = least best ts
    least best (some t ∷ ts) =
        let lower = least (pos_part t) ts in
        let same = least best ts in
        if leb (pos_part t) 0
        then same
        else if leb best 0
        then lower
        else if leb best (pos_part t)
        then same
        else lower
