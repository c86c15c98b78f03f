-- ===== src/Store/Scripts/Deletion.antt =====
-- The reverse index and the changelog under the delete script.
use wdxref.Base.{
  ◌≡◌, refl, ◌∙◌, false, none, some, [], ◌∷◌, ◌++◌, arith, Bytes, beq, contains, Bool-cases, inl,
  inr, if◌then◌else◌, ok,
}
use wdxref.Store.Kvrocks.{Kvrocks, HashLaws, StreamLaws}
use wdxref.Store.Words.{IsWord}
use wdxref.Store.Scripts.{
  index_key, entities_key, meta_key, changelog_key, publish_delete, delete, delete_found,
}
use wdxref.Store.Scripts.Index.{listed}
use wdxref.Store.Scripts.Outcome.{each_del}
use wdxref.Store.Scripts.Consistent.{
  change, mappings_of, IsConsistent, IsMappings, IsApart-entities, Changed, index_after,
  listed-other,
}

module _ (s : Kvrocks) (laws : HashLaws s) (streams : StreamLaws s) (eid : Bytes)
    (word : IsWord eid) where
  open s use {Db, hget, hset, hdel, entries}

  hget-publish_delete :
      (d : Db) (k f : Bytes)
      → beq meta_key k ≡ false
      → hget (publish_delete s eid d).1 k f ≡ hget d k f
  unfolding publish_delete
  hget-publish_delete d k f h = rw (laws.hget-hincrby, h) (laws.hget-xadd _ _ _ _ _)

  entries-publish_delete :
      (d : Db)
      → entries (publish_delete s eid d).1 changelog_key
        ≡ entries d changelog_key
          ++ record { id = s.next_id d changelog_key; fields = change eid [] } ∷ []
  unfolding publish_delete beq
  entries-publish_delete d = rw (streams.entries-hincrby, streams.entries-xadd)

  entity-delete :
      (d : Db) (x : Bytes) → hget (publish_delete s eid d).1 entities_key x ≡ hget d entities_key x
  unfolding beq
  entity-delete d x = hget-publish_delete d entities_key x refl

  entity-hdel :
      (d : Db) (x : Bytes)
      → hget (hdel d entities_key eid) entities_key x
        ≡ (if beq eid x then none else hget d entities_key x)
  unfolding beq
  entity-hdel d x = rw laws.hget-hdel

  listed-delete :
      (d : Db) (q w x : Bytes) → listed s (publish_delete s eid d).1 q w x ≡ listed s d q w x
  unfolding beq
  listed-delete d q w x =
      listed-other s laws streams eid word d _ q w x (hget-publish_delete d (index_key q) w refl)

  listed-hdel_entity :
      (d : Db) (q w x : Bytes) → listed s (hdel d entities_key eid) q w x ≡ listed s d q w x
  unfolding beq
  listed-hdel_entity d q w x = listed-other s laws streams eid word d _ q w x (rw laws.hget-hdel)

  stored_after :
      (d d' : Db)
      → IsConsistent s d
      → ((x : Bytes) → hget d' entities_key x ≡ (if beq eid x then none else hget d entities_key x))
      → (x m : Bytes) → hget d' entities_key x ≡ some m
      → IsMappings s m
  stored_after d d' c entity x m e = elim (Bool-cases (beq eid x)) [
    | inl same ↦ absurd (ground (arith, entity x))
    | inr other ↦ c.stored x m (ground (arith, entity x))
  ]

  -- Deleting a stored entity succeeds. It keeps the index consistent, removes the text of this entity
  -- alone, and appends one change with no mappings to the changelog.
  pub delete_stored :
      (d : Db) (m : Bytes)
      → IsConsistent s d
      → hget d entities_key eid ≡ some m
      → (d' : Db) × (delete s eid d ≡ (ok 1, d')) × Changed s laws streams eid word d d' none []
  unfolding delete contains
  delete_stored d m c e =
      let h = c.stored eid m e in
      let (d2, run, effect) =
        each_del s laws streams eid h.parts (hdel d entities_key eid) h.entries in
      let d3 = (publish_delete s eid d2).1 in
      let entity : (x : Bytes)
          → hget d3 entities_key x ≡ (if beq eid x then none else hget d entities_key x) =
        λ x. entity-delete d2 x ∙ effect.frame entities_key x IsApart-entities ∙ entity-hdel d x in
      (
        d3,
        rw (e, delete, h.decoded, delete_found, run) (unfold publish_delete in refl),
        record {
          consistent = record {
            indexed =
                index_after s laws streams eid word d d3 none h.parts [] c
                  (rw (e, mappings_of, h.decoded)) refl
                  (λ q w x lacks.
                    rw (listed-delete d2 q w x, effect.view q w x lacks, listed-hdel_entity d q w x)
                      (ground arith))
                  entity;
            stored = stored_after d d3 c entity;
          };
          entity = entity;
          log = (
            s.next_id d2 changelog_key,
            rw (entries-publish_delete d2, effect.log changelog_key, streams.entries-hdel),
          );
        },
      )

  -- Deleting an entity that is not stored changes nothing and logs nothing.
  pub delete_missing : (d : Db) → hget d entities_key eid ≡ none → delete s eid d ≡ (ok 0, d)
  unfolding delete
  delete_missing d e = rw (e, delete)
