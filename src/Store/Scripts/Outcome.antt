-- ===== src/Store/Scripts/Outcome.antt =====
-- The loops of the scripts over entries that are well-formed.
use wdxref.Base.{
  ◌≡◌, refl, ◌∙◌, Bool, ◌&&◌, ◌||◌, not, some, List, [], ◌∷◌, ◌++◌, arith, Bytes, beq, beq_iff,
  contains, index_byte-append, Lacks, All, take-append_left, drop-append_suc, Bool-cases, inl, inr,
  ok,
}
use wdxref.Store.Kvrocks.{Kvrocks, HashLaws, StreamLaws}
use wdxref.Store.Words.{IsWord}
use wdxref.Store.Scripts.{parse_entry, without, add_idx, del_idx, each_entry}
use wdxref.Store.Scripts.Index.{
  listed, listed-add_idx, listed-del_idx, add_idx-Write, del_idx-Write, IsApart, hget-Write,
  entries-Write,
}

-- The entry "P<prop>:<val>".
abbrev pub entry_of : Bytes → Bytes → Bytes
entry_of prop val = b'P' ∷ (prop ++ b':' ∷ val)

-- An entry of that form, with no colon in the property.
pub record IsEntry (e : Bytes) : Type 0 where
  pub prop : Bytes
  pub val : Bytes
  pub lacks : Lacks b':' prop
  pub shape : e ≡ entry_of prop val

beq-entry_tail :
    (p v q w : Bytes)
    → Lacks b':' p
    → Lacks b':' q
    → beq (p ++ b':' ∷ v) (q ++ b':' ∷ w) ≡ (beq p q && beq v w)
unfolding beq
beq-entry_tail [] v [] w hp hq = ground arith
beq-entry_tail [] v (b ∷ q) w hp hq = ground arith
beq-entry_tail (a ∷ p) v [] w hp hq = ground arith
beq-entry_tail (a ∷ p) v (b ∷ q) w hp hq = ground (arith, beq-entry_tail p v q w hp.1 hq.1)

-- Two well-formed entries are equal exactly when their properties and values are.
pub beq-entry_of :
    (p v q w : Bytes)
    → Lacks b':' p
    → Lacks b':' q
    → beq (entry_of p v) (entry_of q w) ≡ (beq p q && beq v w)
unfolding beq
beq-entry_of p v q w hp hq = ground (arith, beq-entry_tail p v q w hp hq)

pub parse-entry_of : (p v : Bytes) → Lacks b':' p → parse_entry (entry_of p v) ≡ some (p, v)
unfolding parse_entry
parse-entry_of p v h = rw (
  index_byte-append p v b':' h,
  parse_entry,
  take-append_left p (b':' ∷ v),
  drop-append_suc p b':' v,
)

pub contains-without :
    (a : Bytes) (l other : List Bytes)
    → contains a (without l other) ≡ (contains a l && not (contains a other))
unfolding contains without
contains-without a [] other = refl
contains-without a (e ∷ l) other = ground (arith, contains-without a l other, beq_iff e a)

pub without-All : (P : Bytes → Type 0) (l other : List Bytes) → All P l → All P (without l other)
unfolding without
without-All P [] other h = tt
without-All P (e ∷ l) other (he, h) = elim (Bool-cases (contains e other)) [
  | inl there ↦ rw (there, without) (without-All P l other h)
  | inr new ↦ rw (new, without) (he, without-All P l other h)
]

-- The difference between two states that a loop over the index makes.
pub record Effect (s : Kvrocks) (d d' : s.Db) (shown : Bytes → Bytes → Bytes → Bool) : Type 0 where
  pub view : (q w x : Bytes) → Lacks b':' q → listed s d' q w x ≡ shown q w x
  pub frame : (k f : Bytes) → IsApart k → s.hget d' k f ≡ s.hget d k f
  pub log : (k : Bytes) → s.entries d' k ≡ s.entries d k

module _ (s : Kvrocks) (laws : HashLaws s) (streams : StreamLaws s) (eid : Bytes) where
  open s use {Db, hget, entries}

  each_step :
      (step : Bytes → Bytes → Db → Db) (p v : Bytes) (es : List Bytes) (d : Db)
      → Lacks b':' p
      → each_entry s step (entry_of p v ∷ es) d ≡ each_entry s step es (step p v d)
  unfolding each_entry
  each_step step p v es d h = rw (parse-entry_of p v h, each_entry)

  pub each_add :
      (es : List Bytes) (d : Db)
      → IsWord eid
      → All IsEntry es
      → (d' : Db) × (each_entry s (add_idx s eid) es d ≡ (ok tt, d'))
        × Effect s d d' (λ q w x. listed s d q w x || contains (entry_of q w) es && beq eid x)
  unfolding contains
  each_add [] d word h = (
    d,
    unfold each_entry in refl,
    record { view = λ q w x lacks. ground arith; frame = λ k f a. refl; log = λ k. refl },
  )
  each_add (e ∷ es) d word (he, h) =
      let (d', run, effect) = each_add es (add_idx s eid he.prop he.val d) word h in
      let write = add_idx-Write s eid he.prop he.val d in
      (
        d',
        rw (he.shape, each_step (add_idx s eid) he.prop he.val es d he.lacks) run,
        record {
          view = λ q w x lacks.
              rw
                (
                  he.shape,
                  beq-entry_of he.prop he.val q w he.lacks lacks,
                  effect.view q w x lacks,
                  listed-add_idx s laws eid he.prop he.val d q w x word,
                )
                (ground arith);
          frame = λ k f apart. effect.frame k f apart ∙ hget-Write s laws k f apart write;
          log = λ k. effect.log k ∙ entries-Write s streams k write;
        },
      )

  pub each_del :
      (es : List Bytes) (d : Db)
      → All IsEntry es
      → (d' : Db) × (each_entry s (del_idx s eid) es d ≡ (ok tt, d'))
        × Effect s d d' (λ q w x. listed s d q w x && not (contains (entry_of q w) es && beq eid x))
  unfolding contains
  each_del [] d h = (
    d,
    unfold each_entry in refl,
    record { view = λ q w x lacks. ground arith; frame = λ k f a. refl; log = λ k. refl },
  )
  each_del (e ∷ es) d (he, h) =
      let (d', run, effect) = each_del es (del_idx s eid he.prop he.val d) h in
      let write = del_idx-Write s eid he.prop he.val d in
      (
        d',
        rw (he.shape, each_step (del_idx s eid) he.prop he.val es d he.lacks) run,
        record {
          view = λ q w x lacks.
              rw
                (
                  he.shape,
                  beq-entry_of he.prop he.val q w he.lacks lacks,
                  effect.view q w x lacks,
                  listed-del_idx s laws eid he.prop he.val d q w x,
                )
                (ground arith);
          frame = λ k f apart. effect.frame k f apart ∙ hget-Write s laws k f apart write;
          log = λ k. effect.log k ∙ entries-Write s streams k write;
        },
      )
