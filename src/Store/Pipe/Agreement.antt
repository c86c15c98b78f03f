-- ===== src/Store/Pipe/Agreement.antt =====
-- States of the store that agree on the entities and on the reverse index, for the commands that write
-- elsewhere.
use wdxref.Base.{◌≡◌, refl, ◌∙◌, Bool, true, false, List, [], ◌∷◌, Bytes, codes, beq, if◌then◌else◌}
use wdxref.Base.Int.{ℤ, pos}
use wdxref.Store.Kvrocks.{Kvrocks, HashLaws}
use wdxref.Store.Scripts.{index_key, entities_key, meta_key}
use wdxref.Store.Scripts.Index.{listed}
use wdxref.Store.Scripts.Consistent.{IsConsistent}
use wdxref.Store.Pipe.{fail_key, hset_failed, each, record_failed}

module _ (s : Kvrocks) (laws : HashLaws s) where
  -- Two states agree where the index and the entities are kept.
  pub record Agrees (d d' : s.Db) : Type 0 where
    pub entities : (x : Bytes) → s.hget d' entities_key x ≡ s.hget d entities_key x
    pub index : (q w : Bytes) → s.hget d' (index_key q) w ≡ s.hget d (index_key q) w

  pub Agrees-IsConsistent : (d d' : s.Db) → Agrees d d' → IsConsistent s d → IsConsistent s d'
  unfolding listed
  Agrees-IsConsistent d d' a c = record {
    indexed = λ q w x lacks word. rw (a.index q w, a.entities x) (c.indexed q w x lacks word);
    stored = λ x m e. c.stored x m (rw (a.entities x) at e);
  }

  pub Agrees-trans : (d d1 d2 : s.Db) → Agrees d d1 → Agrees d1 d2 → Agrees d d2
  Agrees-trans d d1 d2 a b = record {
    entities = λ x. b.entities x ∙ a.entities x;
    index = λ q w. b.index q w ∙ a.index q w;
  }

  -- A write to another key.
  pub record IsElsewhere (k : Bytes) : Type 0 where
    pub entities : beq k entities_key ≡ false
    pub index : (q : Bytes) → beq k (index_key q) ≡ false

  pub meta-IsElsewhere : IsElsewhere meta_key
  unfolding beq
  meta-IsElsewhere = record { entities = refl; index = λ q. refl }

  failed-IsElsewhere : (id : Bytes) → IsElsewhere (fail_key id)
  unfolding beq
  failed-IsElsewhere id = record { entities = refl; index = λ q. refl }

  pub hset-Agrees : (d : s.Db) (k f v : Bytes) → IsElsewhere k → Agrees d (s.hset d k f v)
  hset-Agrees d k f v e = record {
    entities = λ x. rw (laws.hget-hset, e.entities);
    index = λ q w. rw (laws.hget-hset, e.index q);
  }

  pub hdel-Agrees : (d : s.Db) (k f : Bytes) → IsElsewhere k → Agrees d (s.hdel d k f)
  hdel-Agrees d k f e = record {
    entities = λ x. rw (laws.hget-hdel, e.entities);
    index = λ q w. rw (laws.hget-hdel, e.index q);
  }

  pub each-Agrees :
      (step : Bytes → s.Db → s.Db)
      → ((x : Bytes) (d : s.Db) → Agrees d (step x d))
      → (xs : List Bytes) (d : s.Db) → Agrees d (each s step xs d)
  each-Agrees step h [] d = record { entities = λ x. refl; index = λ q w. refl }
  each-Agrees step h (x ∷ xs) d =
      Agrees-trans d (step x d) _ (h x d) (each-Agrees step h xs (step x d))

  hset_failed-Agrees :
      (id : Bytes) (fs : List (Bytes × Bytes)) (d : s.Db)
      → Agrees d (hset_failed s (fail_key id) fs d)
  hset_failed-Agrees id [] d = record { entities = λ x. refl; index = λ q w. refl }
  hset_failed-Agrees id ((f, v) ∷ fs) d =
      Agrees-trans d _ _ (hset-Agrees d (fail_key id) f v (failed-IsElsewhere id))
        (hset_failed-Agrees id fs (s.hset d (fail_key id) f v))

  zadd-Agrees : (d d' : s.Db) (n : ℤ) (k m : Bytes) → Agrees d d' → Agrees d (s.zadd d' k n m)
  zadd-Agrees d d' n k m a = record {
    entities = λ x. laws.hget-zadd d' k n m entities_key x ∙ a.entities x;
    index = λ q w. laws.hget-zadd d' k n m (index_key q) w ∙ a.index q w;
  }

  hincrby-Agrees :
      (d d' : s.Db) (k f : Bytes) (n : ℤ)
      → IsElsewhere k
      → Agrees d d'
      → Agrees d (s.hincrby d' k f n)
  hincrby-Agrees d d' k f n e a = record {
    entities = λ x. rw (laws.hget-hincrby, e.entities) (a.entities x);
    index = λ q w. rw (laws.hget-hincrby, e.index q) (a.index q w);
  }

  pub record_failed-Agrees :
      (id message now : Bytes) (micros : ℤ) (d : s.Db)
      → Agrees d (record_failed s id message now micros d)
  unfolding record_failed
  record_failed-Agrees id message now micros d =
      zadd-Agrees d _ micros _ id (choose (s.exists d (fail_key id)))
    where
      choose :
          (b : Bool)
          → Agrees d (
              if b
              then s.hincrby
                  (hset_failed s
                    (fail_key id)
                    ((codes "error", message) ∷ (codes "last_failed", now) ∷ [])
                    d)
                  (fail_key id)
                  (codes "attempts")
                  (pos 1)
              else hset_failed s
                  (fail_key id)
                  ((codes "error", message)
                    ∷ (codes "attempts", codes "1")
                    ∷ (codes "first_failed", now)
                    ∷ (codes "last_failed", now)
                    ∷ [])
                  d)
      choose true =
          hincrby-Agrees d
            (hset_failed s (fail_key id)
              ((codes "error", message) ∷ (codes "last_failed", now) ∷ []) d)
            (fail_key id) (codes "attempts") (pos 1) (failed-IsElsewhere id)
            (hset_failed-Agrees id ((codes "error", message) ∷ (codes "last_failed", now) ∷ []) d)
      choose false =
          hset_failed-Agrees id
            ((codes "error", message)
              ∷ (codes "attempts", codes "1")
              ∷ (codes "first_failed", now)
              ∷ (codes "last_failed", now)
              ∷ [])
            d
