-- ===== src/Store/Scripts/Consistent.antt =====
-- The invariant of the reverse index, that a property's value lists the entities whose mappings hold
-- it, and the upsert script.
use wdxref.Base.{
  ◌≡◌, refl, ap, ◌∙◌, Bool, true, false, ◌&&◌, ◌||◌, not, Option, none, some, List, [], ◌∷◌, ◌++◌,
  arith, Bytes, codes, beq, beq_iff, beq_refl, contains, Lacks, All, Bool-cases, inl, inr,
  if◌then◌else◌, ok,
}
use wdxref.Store.Kvrocks.{Kvrocks, HashLaws, StreamLaws}
use wdxref.Store.Words.{IsWord}
use wdxref.Store.Scripts.{
  index_key, entities_key, meta_key, changelog_key, without, reindex, publish, store_changed,
  upsert, unchanged, is_missing,
}
use wdxref.Store.Scripts.Index.{listed, IsApart}
use wdxref.Store.Scripts.Outcome.{
  entry_of, IsEntry, contains-without, without-All, Effect, each_add, each_del,
}

-- The entry that a script appends to the changelog.
abbrev pub change : Bytes → Bytes → List (Bytes × Bytes)
change eid m = (codes "q", eid) ∷ (codes "m", m) ∷ []

module _ (s : Kvrocks) where
  -- The mappings that a stored text stands for.
  abbrev pub mappings_of : Option Bytes → List Bytes
  mappings_of none = []
  mappings_of (some m) = elim (s.decode m) [ none ↦ [] | some es ↦ es ]

  -- A stored text is an array of well-formed entries.
  pub record IsMappings (m : Bytes) : Type 0 where
    pub parts : List Bytes
    pub decoded : s.decode m ≡ some parts
    pub entries : All IsEntry parts

  pub record IsConsistent (d : s.Db) : Type 0 where
    pub indexed :
        (q w x : Bytes)
        → Lacks b':' q
        → IsWord x
        → listed s d q w x ≡ contains (entry_of q w) (mappings_of (s.hget d entities_key x))
    pub stored : (x m : Bytes) → s.hget d entities_key x ≡ some m → IsMappings m

pub IsApart-entities : IsApart entities_key
unfolding beq
IsApart-entities p = refl

module _ (s : Kvrocks) (laws : HashLaws s) (streams : StreamLaws s) (eid : Bytes)
    (word : IsWord eid) where
  open s use {Db, hget, hset, hdel, entries}

  -- The old mappings of the entity.
  abbrev OldMappings : Option Bytes → List Bytes → Type 0
  OldMappings none olds = olds ≡ []
  OldMappings (some m) olds = s.decode m ≡ some olds

  reindexed :
      (o : Option Bytes) (olds es : List Bytes) (d : Db)
      → OldMappings o olds
      → All IsEntry olds
      → All IsEntry es
      → (d' : Db) × (reindex s eid o es d ≡ (ok tt, d'))
        × Effect s d d' (λ q w x.
          if beq eid x
          then (listed s d q w x
              && not (contains (entry_of q w) olds && not (contains (entry_of q w) es)))
            || (contains (entry_of q w) es && not (contains (entry_of q w) olds))
          else listed s d q w x)
  unfolding reindex contains
  reindexed none olds es d old hold hes =
      let (d', run, effect) = each_add s laws streams eid es d word hes in
      (
        d',
        run,
        record {
          view = λ q w x lacks. rw (effect.view q w x lacks, old) (ground arith);
          frame = effect.frame;
          log = effect.log;
        },
      )
  reindexed (some m) olds es d old hold hes =
      let (d1, run1, effect1) =
        each_del s laws streams eid (without olds es) d (without-All IsEntry olds es hold) in
      let (d2, run2, effect2) =
        each_add s laws streams eid (without es olds) d1 word (without-All IsEntry es olds hes) in
      (
        d2,
        rw (old, reindex, run1) run2,
        record {
          view = λ q w x lacks.
              rw
                (
                  effect2.view q w x lacks,
                  effect1.view q w x lacks,
                  contains-without (entry_of q w) olds es,
                  contains-without (entry_of q w) es olds,
                )
                (ground arith);
          frame = λ k f apart. effect2.frame k f apart ∙ effect1.frame k f apart;
          log = λ k. effect2.log k ∙ effect1.log k;
        },
      )

  pub listed-other :
      (d d' : Db) (q w x : Bytes)
      → s.hget d' (index_key q) w ≡ s.hget d (index_key q) w
      → listed s d' q w x ≡ listed s d q w x
  unfolding listed
  listed-other d d' q w x e = rw e

  hget-publish :
      (new_m : Bytes) (b : Bool) (d : Db) (k f : Bytes)
      → beq meta_key k ≡ false
      → hget (publish s new_m eid b d).1 k f ≡ hget d k f
  unfolding publish
  hget-publish new_m true d k f h = rw (laws.hget-hincrby, h) (laws.hget-xadd _ _ _ _ _)
  hget-publish new_m false d k f h = laws.hget-xadd _ _ _ _ _

  entries-publish :
      (new_m : Bytes) (b : Bool) (d : Db)
      → entries (publish s new_m eid b d).1 changelog_key
        ≡ entries d changelog_key
          ++ record { id = s.next_id d changelog_key; fields = change eid new_m } ∷ []
  unfolding publish beq
  entries-publish new_m true d = rw (streams.entries-hincrby, streams.entries-xadd)
  entries-publish new_m false d = rw streams.entries-xadd

  -- What a change of one entity's mappings text leaves behind.
  pub record Changed (d d' : Db) (m : Option Bytes) (logged : Bytes) : Type 0 where
    pub consistent : IsConsistent s d'
    pub entity :
        (x : Bytes) → hget d' entities_key x ≡ (if beq eid x then m else hget d entities_key x)
    pub log :
        (id : Bytes) × (entries d' changelog_key
          ≡ entries d changelog_key ++ record { id = id; fields = change eid logged } ∷ [])

  old_of :
      (d : Db) (o : Option Bytes)
      → IsConsistent s d
      → hget d entities_key eid ≡ o
      → (olds : List Bytes) × OldMappings o olds × All IsEntry olds × (mappings_of s o ≡ olds)
  old_of d none c e = ([], refl, tt, refl)
  old_of d (some m) c e =
      let h = c.stored eid m e in (h.parts, h.decoded, h.entries, rw (h.decoded, mappings_of))

  stored_after :
      (d d' : Db) (new_m : Bytes)
      → IsConsistent s d
      → IsMappings s new_m
      → ((x : Bytes)
          → hget d' entities_key x ≡ (if beq eid x then some new_m else hget d entities_key x))
      → (x m : Bytes) → hget d' entities_key x ≡ some m
      → IsMappings s m
  stored_after d d' new_m c new entity x m e = elim (Bool-cases (beq eid x)) [
    | inl same ↦ let p : new_m ≡ m = ground (arith, entity x) in rw (← p) new
    | inr other ↦ c.stored x m (ground (arith, entity x))
  ]

  pub index_after :
      (d d' : Db) (m : Option Bytes) (olds es : List Bytes)
      → IsConsistent s d
      → mappings_of s (hget d entities_key eid) ≡ olds
      → mappings_of s m ≡ es
      → ((q w x : Bytes)
          → Lacks b':' q
          → listed s d' q w x ≡ (
              if beq eid x
              then (listed s d q w x
                  && not (contains (entry_of q w) olds && not (contains (entry_of q w) es)))
                || (contains (entry_of q w) es && not (contains (entry_of q w) olds))
              else listed s d q w x))
      → ((x : Bytes) → hget d' entities_key x ≡ (if beq eid x then m else hget d entities_key x))
      → (q w x : Bytes) → Lacks b':' q
      → IsWord x
      → listed s d' q w x ≡ contains (entry_of q w) (mappings_of s (hget d' entities_key x))
  index_after d d' m olds es c was is view entity q w x lacks wx = elim (Bool-cases (beq eid x)) [
    | inl same ↦
        let at : mappings_of s (hget d entities_key x) ≡ olds = rw (← (beq_iff eid x).0 same) was in
        let before : listed s d q w x ≡ contains (entry_of q w) olds =
          c.indexed q w x lacks wx ∙ ap (contains (entry_of q w)) at in
        rw (view q w x lacks, entity x, same, is, before) (ground arith)
    | inr other ↦ rw (view q w x lacks, entity x, other) (c.indexed q w x lacks wx)
  ]

  entity-hset :
      (d : Db) (m x : Bytes)
      → hget (hset d entities_key eid m) entities_key x
        ≡ (if beq eid x then some m else hget d entities_key x)
  unfolding beq
  entity-hset d m x = rw laws.hget-hset

  listed-hset_entity :
      (d : Db) (m q w x : Bytes) → listed s (hset d entities_key eid m) q w x ≡ listed s d q w x
  unfolding beq
  listed-hset_entity d m q w x = listed-other d _ q w x (rw laws.hget-hset)

  listed-publish :
      (new_m : Bytes) (b : Bool) (d : Db) (q w x : Bytes)
      → listed s (publish s new_m eid b d).1 q w x ≡ listed s d q w x
  unfolding beq
  listed-publish new_m b d q w x =
      listed-other d _ q w x (hget-publish new_m b d (index_key q) w refl)

  entity-publish :
      (new_m : Bytes) (b : Bool) (d : Db) (x : Bytes)
      → hget (publish s new_m eid b d).1 entities_key x ≡ hget d entities_key x
  unfolding beq
  entity-publish new_m b d x = hget-publish new_m b d entities_key x refl

  -- On a consistent index, an upsert of a mappings text that is an array of well-formed entries and
  -- differs from the stored one succeeds. It keeps the index consistent, replaces the text of this entity alone, and appends one change to the changelog.
  pub upsert-Changed :
      (d : Db) (new_m : Bytes)
      → IsConsistent s d
      → IsMappings s new_m
      → unchanged s (hget d entities_key eid) new_m ≡ false
      → (d' : Db) × (upsert s new_m eid d ≡ (ok 1, d')) × Changed d d' (some new_m) new_m
  unfolding upsert
  upsert-Changed d new_m c new differs =
      let o = hget d entities_key eid in
      let d1 = hset d entities_key eid new_m in
      let (olds, old, hold, was) = old_of d o c refl in
      let (d2, run, effect) = reindexed o olds new.parts d1 old hold new.entries in
      let d3 = (publish s new_m eid (is_missing s o) d2).1 in
      let entity : (x : Bytes)
          → hget d3 entities_key x ≡ (if beq eid x then some new_m else hget d entities_key x) =
        λ x.
          entity-publish new_m (is_missing s o) d2 x
          ∙ effect.frame entities_key x IsApart-entities
          ∙ entity-hset d new_m x in
      (
        d3,
        rw (differs, new.decoded, store_changed, run) (unfold publish in refl),
        record {
          consistent = record {
            indexed =
                index_after d d3 (some new_m) olds new.parts c was (rw (new.decoded, mappings_of))
                  (λ q w x lacks. rw (
                    listed-publish new_m (is_missing s o) d2 q w x,
                    effect.view q w x lacks,
                    listed-hset_entity d new_m q w x,
                  ))
                  entity;
            stored = stored_after d d3 new_m c new entity;
          };
          entity = entity;
          log = (
            s.next_id d2 changelog_key,
            rw (
              entries-publish new_m (is_missing s o) d2,
              effect.log changelog_key,
              streams.entries-hset,
            ),
          );
        },
      )

  -- An upsert of the stored text changes nothing and logs nothing.
  pub upsert_unchanged :
      (d : Db) (m : Bytes) → hget d entities_key eid ≡ some m → upsert s m eid d ≡ (ok 0, d)
  unfolding upsert
  upsert_unchanged d m e = rw (e, beq_refl m)
