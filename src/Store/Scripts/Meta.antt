-- ===== src/Store/Scripts/Meta.antt =====
-- What the upsert script leaves of the hash of the sync state, which also holds the script's counter.
use wdxref.Base.{
  ◌≡◌, refl, ◌∙◌, Bool, true, false, Option, none, some, List, [], ◌∷◌, Bytes, beq, Bool-cases,
  Option-cases, inl, inr, Result, ok, err,
}
use wdxref.Store.Kvrocks.{Kvrocks, HashLaws}
use wdxref.Store.Scripts.{
  LuaError, meta_key, entities_key, entity_count, parse_entry, add_idx, del_idx, each_entry,
  and_then, publish, reindex, unchanged, store_changed, upsert, without, is_missing,
}
use wdxref.Store.Scripts.Index.{hget-Write, add_idx-Write, del_idx-Write}

module _ (s : Kvrocks) (laws : HashLaws s) (f : Bytes) (other : beq entity_count f ≡ false) where
  open s use {Db, hget, hset, decode}

  abbrev pub Keeps : Db → Db → Type 0
  Keeps d d' = hget d' meta_key f ≡ hget d meta_key f

  add_idx-Keeps : (eid p v : Bytes) (d : Db) → Keeps d (add_idx s eid p v d)
  unfolding beq
  add_idx-Keeps eid p v d = hget-Write s laws meta_key f (λ q. refl) (add_idx-Write s eid p v d)

  del_idx-Keeps : (eid p v : Bytes) (d : Db) → Keeps d (del_idx s eid p v d)
  unfolding beq
  del_idx-Keeps eid p v d = hget-Write s laws meta_key f (λ q. refl) (del_idx-Write s eid p v d)

  each_entry-Keeps :
      (step : Bytes → Bytes → Db → Db)
      → ((p v : Bytes) (d : Db) → Keeps d (step p v d))
      → (es : List Bytes) (d : Db) → Keeps d (each_entry s step es d).1
  unfolding each_entry
  each_entry-Keeps step h [] d = refl
  each_entry-Keeps step h (e ∷ es) d = elim (Option-cases (parse_entry e)) [
    | inl bad ↦ rw (bad, each_entry) refl
    | inr ((p, v), good) ↦ rw (good, each_entry) (each_entry-Keeps step h es (step p v d) ∙ h p v d)
  ]

  and_then-Keeps :
      {A : Type 0} (d : Db) (r : Result LuaError (Unit {0}) × Db)
      (next : Db → Result LuaError A × Db)
      → Keeps d r.1
      → ((d' : Db) → Keeps d' (next d').1)
      → Keeps d (and_then s r next).1
  and_then-Keeps d (ok x, d') next h k = k d' ∙ h
  and_then-Keeps d (err e, d') next h k = h

  publish-Keeps : (new_m eid : Bytes) (b : Bool) (d : Db) → Keeps d (publish s new_m eid b d).1
  unfolding publish beq
  publish-Keeps new_m eid true d = rw (laws.hget-hincrby, other) (laws.hget-xadd _ _ _ _ _)
  publish-Keeps new_m eid false d = laws.hget-xadd _ _ _ _ _

  reindex-Keeps :
      (eid : Bytes) (old : Option Bytes) (new : List Bytes) (d : Db)
      → Keeps d (reindex s eid old new d).1
  unfolding reindex
  reindex-Keeps eid none new d = each_entry-Keeps (add_idx s eid) (add_idx-Keeps eid) new d
  reindex-Keeps eid (some m) new d = elim (Option-cases (decode m)) [
    | inl bad ↦ rw (bad, reindex) refl
    | inr (parsed, good) ↦
        rw (good, reindex)
          (and_then-Keeps d (each_entry s (del_idx s eid) (without parsed new) d)
            (each_entry s (add_idx s eid) (without new parsed))
            (each_entry-Keeps (del_idx s eid) (del_idx-Keeps eid) (without parsed new) d)
            (each_entry-Keeps (add_idx s eid) (add_idx-Keeps eid) (without new parsed)))
  ]

  store_changed-Keeps :
      (new_m eid : Bytes) (old : Option Bytes) (d : Db)
      → Keeps d (store_changed s new_m eid old d).1
  unfolding store_changed
  store_changed-Keeps new_m eid old d = elim (Option-cases (decode new_m)) [
    | inl bad ↦ rw (bad, store_changed) refl
    | inr (parsed, good) ↦
        rw (good, store_changed)
          (and_then-Keeps d (reindex s eid old parsed d) (publish s new_m eid (is_missing s old))
            (reindex-Keeps eid old parsed d) (publish-Keeps new_m eid (is_missing s old)))
  ]

  -- Every field of the sync state but the counter of entities is left by the upsert script.
  pub upsert-Keeps : (new_m eid : Bytes) (d : Db) → Keeps d (upsert s new_m eid d).1
  unfolding upsert beq
  upsert-Keeps new_m eid d = elim (Bool-cases (unchanged s (hget d entities_key eid) new_m)) [
    | inl same ↦ rw same refl
    | inr differs ↦ rw differs (
        store_changed-Keeps new_m eid (hget d entities_key eid) (hset d entities_key eid new_m)
        ∙ laws.hget-hset _ _ _ _ _ _)
  ]
