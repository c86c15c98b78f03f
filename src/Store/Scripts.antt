-- ===== src/Store/Scripts.antt =====
-- The Lua scripts of internal/store/writer.go, which the server runs one at a time. A script that
-- raises an error leaves what it wrote before, since the server does not roll back.
pub mod Index
pub mod Outcome
pub mod Consistent
pub mod Deletion
pub mod Meta
use wdxref.Base.{
  ℕ, zero, suc, ◌+◌, ◌≡◌, Bool, true, false, ◌&&◌, ◌||◌, not, Option, none, some, List, [], ◌∷◌,
  ◌++◌, Bytes, codes, beq, contains, index_byte, take, drop, if◌then◌else◌, Result, ok, err,
}
use wdxref.Base.Int.{ℤ, pos, negsuc}
use wdxref.Store.Kvrocks.{Kvrocks}
use wdxref.Store.Words.{words, concat, sort}

abbrev pub changelog_key : Bytes
changelog_key = codes "changelog"

abbrev pub entities_key : Bytes
entities_key = codes "entities"

abbrev pub meta_key : Bytes
meta_key = codes "meta"

abbrev pub entity_count : Bytes
entity_count = codes "entity_count"

-- `p:<property>`, the key of a property's hash.
abbrev pub index_key : Bytes → Bytes
index_key prop = codes "p:" ++ prop

pub data LuaError : Type 0 where
  no_colon not_json : LuaError

-- The local function `parse`: the property and the value of a "P<id>:<value>" entry, or an error
-- where the entry has no colon after its first byte.
unfoldable pub parse_entry : Bytes → Option (Bytes × Bytes)
parse_entry [] = none
parse_entry (c ∷ entry) = elim (index_byte entry b':') [
  | none ↦ none
  | some colon ↦ some (take colon entry, drop (suc colon) entry)
]

-- The entries of `l` that `other` does not hold: the tests `not new_set[e]`, `not old_set[e]`.
unfoldable pub without : List Bytes → List Bytes → List Bytes
without [] other = []
without (e ∷ l) other = let rest = without l other in if contains e other then rest else e ∷ rest

-- `s ~= eid`
unfoldable pub remove : Bytes → List Bytes → List Bytes
remove eid [] = []
remove eid (s ∷ parts) = let rest = remove eid parts in if beq s eid then rest else s ∷ rest

module _ (s : Kvrocks) where
  open s use {Db, hget, hset, hdel, hincrby, xadd, decode}

  -- The local function `add_idx`, behind `parse`.
  unfoldable pub add_idx : Bytes → Bytes → Bytes → Db → Db
  add_idx eid prop val db = elim (hget db (index_key prop) val) [
    | none ↦ hset db (index_key prop) val eid
    | some cur ↦
        if contains eid (words cur)
        then db
        else hset db (index_key prop) val (concat (sort (words cur ++ eid ∷ [])))
  ]

  put_parts : List Bytes → Bytes → Bytes → Db → Db
  put_parts [] pk val db = hdel db pk val
  put_parts (p ∷ parts) pk val db = hset db pk val (concat (p ∷ parts))

  -- The local function `del_idx`, behind `parse`.
  unfoldable pub del_idx : Bytes → Bytes → Bytes → Db → Db
  unfolding put_parts
  del_idx eid prop val db = elim (hget db (index_key prop) val) [
    | none ↦ db
    | some cur ↦ put_parts (remove eid (words cur)) (index_key prop) val db
  ]

  -- A loop over entries that parses each and updates the index.
  unfoldable pub each_entry :
      (Bytes → Bytes → Db → Db) → List Bytes → Db → Result LuaError (Unit {0}) × Db
  each_entry step [] db = (ok tt, db)
  each_entry step (e ∷ es) db = elim (parse_entry e) [
    | none ↦ (err no_colon, db)
    | some (prop, val) ↦ each_entry step es (step prop val db)
  ]

  abbrev pub and_then {ℓ} :
      {A : Type ℓ}
      → Result LuaError (Unit {0}) × Db
      → (Db → Result LuaError A × Db)
      → Result LuaError A × Db
  and_then (ok _, db) next = next db
  and_then (err e, db) next = (err e, db)

  count_if_new : Bool → Db → Db
  count_if_new true db = hincrby db meta_key entity_count (pos 1)
  count_if_new false db = db

  -- The end of the upsert: the entry in the changelog, and the counter.
  unfoldable pub publish : Bytes → Bytes → Bool → Db → Result LuaError ℕ × Db
  unfolding count_if_new
  publish new_m eid is_new db = (
    ok 1,
    count_if_new is_new (xadd db changelog_key ((codes "q", eid) ∷ (codes "m", new_m) ∷ [])),
  )

  -- The index part of the upsert, from the old list and the new one.
  unfoldable pub reindex : Bytes → Option Bytes → List Bytes → Db → Result LuaError (Unit {0}) × Db
  reindex eid none new_parsed db = each_entry (add_idx eid) new_parsed db
  reindex eid (some old_m) new_parsed db = elim (decode old_m) [
    | none ↦ (err not_json, db)
    | some old_parsed ↦
        and_then (each_entry (del_idx eid) (without old_parsed new_parsed) db)
          (each_entry (add_idx eid) (without new_parsed old_parsed))
  ]

  abbrev is_missing : Option Bytes → Bool
  is_missing none = true
  is_missing (some _) = false

  abbrev pub unchanged : Option Bytes → Bytes → Bool
  unchanged none new_m = false
  unchanged (some old_m) new_m = beq old_m new_m

  store_changed : Bytes → Bytes → Option Bytes → Db → Result LuaError ℕ × Db
  unfolding publish
  store_changed new_m eid old_m db = elim (decode new_m) [
    | none ↦ (err not_json, db)
    | some new_parsed ↦
        and_then (reindex eid old_m new_parsed db) (publish new_m eid (is_missing old_m))
  ]

  -- upsertScript
  unfoldable pub upsert : Bytes → Bytes → Db → Result LuaError ℕ × Db
  unfolding store_changed
  upsert new_m eid db =
      let old_m = hget db entities_key eid in
      if unchanged old_m new_m
      then (ok 0, db)
      else store_changed new_m eid old_m (hset db entities_key eid new_m)

  -- The end of the delete: the entry in the changelog, and the counter.
  unfoldable pub publish_delete : Bytes → Db → Result LuaError ℕ × Db
  publish_delete eid db = (
    ok 1,
    hincrby (xadd db changelog_key ((codes "q", eid) ∷ (codes "m", []) ∷ [])) meta_key entity_count
        (negsuc 0),
  )

  delete_found : Bytes → Bytes → Db → Result LuaError ℕ × Db
  unfolding publish_delete
  delete_found eid old_m db = elim (decode old_m) [
    | none ↦ (err not_json, db)
    | some old ↦ and_then (each_entry (del_idx eid) old db) (publish_delete eid)
  ]

  -- deleteScript
  unfoldable pub delete : Bytes → Db → Result LuaError ℕ × Db
  unfolding delete_found
  delete eid db = elim (hget db entities_key eid) [
    | none ↦ (ok 0, db)
    | some old_m ↦ delete_found eid old_m (hdel db entities_key eid)
  ]
