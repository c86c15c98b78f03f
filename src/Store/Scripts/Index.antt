-- ===== src/Store/Scripts/Index.antt =====
-- What one step on the reverse index does to the ids that a property's value lists.
use wdxref.Base.{
  ◌≡◌, refl, Bool, true, false, ◌&&◌, ◌||◌, not, Option, none, some, List, [], ◌∷◌, ◌++◌, arith,
  Bytes, beq, beq_iff, contains, All, All-append, Bool-cases, Option-cases, inl, inr, if◌then◌else◌,
}
use wdxref.Store.Kvrocks.{Kvrocks, HashLaws, StreamLaws}
use wdxref.Store.Words.{words, concat, sort, IsWord}
use wdxref.Store.Words.Laws.{
  words-concat, words-IsWord, contains-sort, contains-append, sort-IsWord,
}
use wdxref.Store.Scripts.{index_key, remove, add_idx, put_parts, del_idx}

-- The ids that a value of the index holds.
abbrev pub members : Option Bytes → List Bytes
members none = []
members (some cur) = words cur

beq-index_key : (p q : Bytes) → beq (index_key p) (index_key q) ≡ beq p q
unfolding beq
beq-index_key p q = refl

contains-remove :
    (x eid : Bytes) (l : List Bytes) → contains x (remove eid l) ≡ (contains x l && not (beq eid x))
unfolding contains remove
contains-remove x eid [] = refl
contains-remove x eid (y ∷ l) =
    ground (arith, contains-remove x eid l, beq_iff y eid, beq_iff y x, beq_iff eid x)

remove-IsWord : (eid : Bytes) (l : List Bytes) → All IsWord l → All IsWord (remove eid l)
unfolding remove
remove-IsWord eid [] h = tt
remove-IsWord eid (y ∷ l) (hy, h) = elim (Bool-cases (beq y eid)) [
  | inl e ↦ rw (e, remove) (remove-IsWord eid l h)
  | inr e ↦ rw (e, remove) (hy, remove-IsWord eid l h)
]

words_added :
    (eid cur : Bytes)
    → IsWord eid
    → words (concat (sort (words cur ++ eid ∷ []))) ≡ sort (words cur ++ eid ∷ [])
words_added eid cur h = words-concat _ (
    sort-IsWord (words cur ++ eid ∷ [])
      (All-append IsWord (words cur) (eid ∷ []) (words-IsWord cur) (h, tt)))

words_removed : (eid cur : Bytes) → words (concat (remove eid (words cur))) ≡ remove eid (words cur)
words_removed eid cur = words-concat _ (remove-IsWord eid (words cur) (words-IsWord cur))

words_one : (eid : Bytes) → IsWord eid → words eid ≡ eid ∷ []
unfolding concat
words_one eid h = words-concat (eid ∷ []) (h, tt)

contains_one : (x eid : Bytes) → contains x (eid ∷ []) ≡ beq eid x
unfolding contains
contains_one x eid = ground arith

-- What a step writes: one field of one hash of the index, at most.
pub data Write (s : Kvrocks) (d d' : s.Db) (p v : Bytes) : Type 0 where
  kept : d' ≡ d → Write s d d' p v
  written : (text : Bytes) → d' ≡ s.hset d (index_key p) v text → Write s d d' p v
  removed : d' ≡ s.hdel d (index_key p) v → Write s d d' p v

module _ (s : Kvrocks) where
  -- Whether the index lists the id `x` under the property and value.
  unfoldable pub listed : s.Db → Bytes → Bytes → Bytes → Bool
  listed db prop val x = contains x (members (s.hget db (index_key prop) val))

  pub add_idx-Write : (eid p v : Bytes) (db : s.Db) → Write s db (add_idx s eid p v db) p v
  unfolding add_idx
  add_idx-Write eid p v db = elim (Option-cases (s.hget db (index_key p) v)) [
    | inl e ↦ rw (e, add_idx) (Write.written eid refl)
    | inr (cur, e) ↦ elim (Bool-cases (contains eid (words cur))) [
      | inl old ↦ rw (e, add_idx, old) (Write.kept refl)
      | inr new ↦ rw (e, add_idx, new) (Write.written _ refl)
    ]
  ]

  put_parts-Write :
      (parts : List Bytes) (p v : Bytes) (db : s.Db)
      → Write s db (put_parts s parts (index_key p) v db) p v
  unfolding put_parts
  put_parts-Write [] p v db = Write.removed refl
  put_parts-Write (y ∷ parts) p v db = Write.written _ refl

  pub del_idx-Write : (eid p v : Bytes) (db : s.Db) → Write s db (del_idx s eid p v db) p v
  unfolding del_idx
  del_idx-Write eid p v db = elim (Option-cases (s.hget db (index_key p) v)) [
    | inl e ↦ rw (e, del_idx) (Write.kept refl)
    | inr (cur, e) ↦ rw (e, del_idx) (put_parts-Write (remove eid (words cur)) p v db)
  ]

-- A key that is no key of the index.
abbrev pub IsApart : Bytes → Type 0
IsApart k = (p : Bytes) → beq (index_key p) k ≡ false

pub hget-Write :
    (s : Kvrocks) (laws : HashLaws s) {d d' : s.Db} {p v : Bytes} (k f : Bytes)
    → IsApart k
    → Write s d d' p v
    → s.hget d' k f ≡ s.hget d k f
hget-Write s laws k f apart (Write.kept e) = rw e
hget-Write s laws {d} {d'} {p} {v} k f apart (Write.written text e) =
    rw (e, laws.hget-hset, apart p)
hget-Write s laws {d} {d'} {p} {v} k f apart (Write.removed e) = rw (e, laws.hget-hdel, apart p)

pub entries-Write :
    (s : Kvrocks) (laws : StreamLaws s) {d d' : s.Db} {p v : Bytes} (k : Bytes)
    → Write s d d' p v
    → s.entries d' k ≡ s.entries d k
entries-Write s laws k (Write.kept e) = rw e
entries-Write s laws k (Write.written text e) = rw (e, laws.entries-hset)
entries-Write s laws k (Write.removed e) = rw (e, laws.entries-hdel)

module _ (s : Kvrocks) (laws : HashLaws s) where
  open s use {Db, hget, hset, hdel}

  listed-hset :
      (db : Db) (p v text q w x : Bytes)
      → listed s (hset db (index_key p) v text) q w x
        ≡ (if beq p q && beq v w then contains x (words text) else listed s db q w x)
  unfolding listed
  listed-hset db p v text q w x = rw (laws.hget-hset, beq-index_key) (ground arith)

  listed-hdel :
      (db : Db) (p v q w x : Bytes)
      → listed s (hdel db (index_key p) v) q w x
        ≡ (if beq p q && beq v w then false else listed s db q w x)
  unfolding listed contains
  listed-hdel db p v q w x = rw (laws.hget-hdel, beq-index_key) (ground arith)

  listed_at :
      (db : Db) (p v x : Bytes) (o : Option Bytes)
      → hget db (index_key p) v ≡ o
      → listed s db p v x ≡ contains x (members o)
  unfolding listed
  listed_at db p v x o e = rw e

  -- `listed` at an equal place.
  listed_same :
      (db : Db) (p v q w x : Bytes)
      → (beq p q && beq v w) ≡ true
      → listed s db q w x ≡ listed s db p v x
  listed_same db p v q w x h = ground (arith, beq_iff p q, beq_iff v w)

  -- Adding an id lists it under the entry's property and value, and changes nothing else.
  pub listed-add_idx :
      (eid p v : Bytes) (db : Db) (q w x : Bytes)
      → IsWord eid
      → listed s (add_idx s eid p v db) q w x
        ≡ (listed s db q w x || (beq p q && beq v w) && beq eid x)
  unfolding contains add_idx listed
  listed-add_idx eid p v db q w x h = elim (Option-cases (hget db (index_key p) v)) [
    | inl e ↦
        rw (e, add_idx, listed-hset, words_one eid h)
          (ground (arith, listed_same db p v q w x, listed_at db p v x none e))
    | inr (cur, e) ↦ elim (Bool-cases (contains eid (words cur))) [
      | inl old ↦
          rw (e, add_idx, old)
            (ground
              (arith, listed_same db p v q w x, listed_at db p v x (some cur) e, beq_iff eid x))
      | inr new ↦
          rw (e, add_idx, new, listed-hset, words_added eid cur h, contains-sort, contains-append)
            (ground (arith, listed_same db p v q w x, listed_at db p v x (some cur) e))
    ]
  ]

  listed-put_parts :
      (parts : List Bytes) (p v : Bytes) (db : Db) (q w x : Bytes)
      → words (concat parts) ≡ parts
      → listed s (put_parts s parts (index_key p) v db) q w x
        ≡ (if beq p q && beq v w then contains x parts else listed s db q w x)
  unfolding put_parts contains
  listed-put_parts [] p v db q w x h = listed-hdel db p v q w x
  listed-put_parts (y ∷ parts) p v db q w x h =
      rw (listed-hset db p v (concat (y ∷ parts)) q w x, h)

  -- Removing an id takes it off the entry's property and value, and changes nothing else.
  pub listed-del_idx :
      (eid p v : Bytes) (db : Db) (q w x : Bytes)
      → listed s (del_idx s eid p v db) q w x
        ≡ (listed s db q w x && not ((beq p q && beq v w) && beq eid x))
  unfolding contains del_idx listed
  listed-del_idx eid p v db q w x = elim (Option-cases (hget db (index_key p) v)) [
    | inl e ↦ rw (e, del_idx) (ground (arith, listed_same db p v q w x, listed_at db p v x none e))
    | inr (cur, e) ↦
        rw
          (
            e,
            del_idx,
            listed-put_parts (remove eid (words cur)) p v db q w x (words_removed eid cur),
            contains-remove,
          )
          (ground (arith, listed_same db p v q w x, listed_at db p v x (some cur) e))
  ]
