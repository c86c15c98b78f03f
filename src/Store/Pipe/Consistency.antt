-- ===== src/Store/Pipe/Consistency.antt =====
-- The reverse index under the commands of a pipe.
use wdxref.Base.{
  ℕ, ◌≡◌, refl, none, List, [], ◌∷◌, ◌++◌, arith, Bytes, beq, All, All-append, Bool-cases,
  Option-cases, Result-cases, inl, inr, Result, ok, err,
}
use wdxref.Base.Int.{ℤ}
use wdxref.Strconv.{format_int}
use wdxref.Store.Kvrocks.{Kvrocks, HashLaws, StreamLaws}
use wdxref.Store.Ids.{qid_to_int, parse_flat_mapping_entry}
use wdxref.Store.Ids.Laws.{format_int-IsWord, parse_flat_sound}
use wdxref.Store.Scripts.{
  LuaError, entities_key, meta_key, upsert as upsert_script, delete as delete_script, unchanged,
}
use wdxref.Store.Scripts.Outcome.{IsEntry}
use wdxref.Store.Scripts.Consistent.{IsConsistent, IsMappings, upsert-Changed}
use wdxref.Store.Scripts.Deletion.{delete_stored, delete_missing}
use wdxref.Store.Pipe.{
  Command, run_upsert, run_delete, hset_meta, hdel_meta, sadd, srem, run_record_failed, zrem_failed,
  del_failed, MappingsJson, run_command, run_commands, exec, new_pipe, members_of, pending_key,
  processing_key, validate_entries, canonical_mappings_json, drop_reply, eid_of,
  upsert_raw_commands, upsert_commands,
}
use wdxref.Store.Pipe.Sticky.{
  Op, upsert_raw, upsert, delete, set_state, del_states, enqueue, ack, record_failure,
  delete_failure, commands_of, all_commands, apply_all, exec_all_or_nothing,
}
use wdxref.Store.Pipe.Agreement.{
  Agrees-IsConsistent, each-Agrees, hset-Agrees, hdel-Agrees, record_failed-Agrees,
  meta-IsElsewhere,
}

module _ (s : Kvrocks) where
  -- What keeps the index consistent: an id in decimal, and an array of well-formed entries.
  abbrev pub IsSound : Command → Type 0
  IsSound (run_upsert m eid) = (n : ℤ) × (eid ≡ format_int n) × IsMappings s m
  IsSound (run_delete eid) = (n : ℤ) × (eid ≡ format_int n)
  IsSound _ = Unit

module _ (s : Kvrocks) (laws : HashLaws s) (streams : StreamLaws s) where
  -- The upsert of a valid text, changed or not.
  upsert-IsConsistent :
      (n : ℤ) (m : Bytes) (d : s.Db)
      → IsMappings s m
      → IsConsistent s d
      → IsConsistent s (upsert_script s m (format_int n) d).1
  unfolding upsert_script
  upsert-IsConsistent n m d new c =
      elim (Bool-cases (unchanged s (s.hget d entities_key (format_int n)) m)) [
        | inl same ↦ rw same c
        | inr differs ↦
            let (d', run, changed) =
              upsert-Changed s laws streams (format_int n) (format_int-IsWord n) d m c new
                differs in
            rw run changed.consistent
      ]

  delete-IsConsistent :
      (n : ℤ) (d : s.Db) → IsConsistent s d → IsConsistent s (delete_script s (format_int n) d).1
  delete-IsConsistent n d c = elim (Option-cases (s.hget d entities_key (format_int n))) [
    | inl missing ↦
        rw (delete_missing s laws streams (format_int n) (format_int-IsWord n) d missing) c
    | inr (m, e) ↦
        let (d', run, changed) =
          delete_stored s laws streams (format_int n) (format_int-IsWord n) d m c e in
        rw run changed.consistent
  ]

  state-drop_reply : (r : Result LuaError ℕ × s.Db) → (drop_reply s r).1 ≡ r.1
  state-drop_reply (ok n, d) = refl
  state-drop_reply (err e, d) = refl

  run_command-IsConsistent :
      (c : Command) (d : s.Db)
      → IsSound s c
      → IsConsistent s d
      → IsConsistent s (run_command s c d).1
  unfolding run_command beq
  run_command-IsConsistent (run_upsert m eid) d (n, e, new) c =
      rw (e, state-drop_reply) (upsert-IsConsistent n m d new c)
  run_command-IsConsistent (run_delete eid) d (n, e) c =
      rw (e, state-drop_reply) (delete-IsConsistent n d c)
  run_command-IsConsistent (hset_meta k v) d _ c =
      Agrees-IsConsistent s laws d _ (hset-Agrees s laws d meta_key k v (meta-IsElsewhere s laws)) c
  run_command-IsConsistent (hdel_meta ks) d _ c =
      Agrees-IsConsistent s laws d _
        (each-Agrees s laws (λ k d'. s.hdel d' meta_key k)
          (λ k d'. hdel-Agrees s laws d' meta_key k (meta-IsElsewhere s laws)) ks d)
        c
  run_command-IsConsistent (sadd key ms) d _ c =
      Agrees-IsConsistent s laws d _
        (each-Agrees s laws (λ m d'. s.sadd d' key m)
          (λ m d'. record {
            entities = λ x. laws.hget-sadd _ _ _ _ _;
            index = λ q w. laws.hget-sadd _ _ _ _ _;
          })
          ms d)
        c
  run_command-IsConsistent (srem key ms) d _ c =
      Agrees-IsConsistent s laws d _
        (each-Agrees s laws (λ m d'. s.srem d' key m)
          (λ m d'. record {
            entities = λ x. laws.hget-srem _ _ _ _ _;
            index = λ q w. laws.hget-srem _ _ _ _ _;
          })
          ms d)
        c
  run_command-IsConsistent (run_record_failed id message now micros) d _ c =
      Agrees-IsConsistent s laws d _ (record_failed-Agrees s laws id message now micros d) c
  run_command-IsConsistent (zrem_failed id) d _ c =
      Agrees-IsConsistent s laws d _
        (record {
          entities = λ x. laws.hget-zrem _ _ _ _ _;
          index = λ q w. laws.hget-zrem _ _ _ _ _;
        })
        c
  run_command-IsConsistent (del_failed id) d _ c =
      Agrees-IsConsistent s laws d _
        (record { entities = λ x. rw laws.hget-del; index = λ q w. rw laws.hget-del }) c

  run_commands-IsConsistent :
      (cs : List Command) (d : s.Db)
      → All (IsSound s) cs
      → IsConsistent s d
      → IsConsistent s (run_commands s cs d).1
  unfolding run_commands
  run_commands-IsConsistent [] d _ c = c
  run_commands-IsConsistent (x ∷ cs) d (h, hs) c =
      run_commands-IsConsistent cs (run_command s x d).1 hs (run_command-IsConsistent x d h c)

module _ (s : Kvrocks) (laws : HashLaws s) (streams : StreamLaws s) (j : MappingsJson s) where
  -- The validation of UpsertEntity leaves well-formed entries only.
  validated : (qid : Bytes) (es : List Bytes) → validate_entries qid es ≡ none → All IsEntry es
  unfolding validate_entries
  validated qid [] h = tt
  validated qid (e ∷ es) h = elim (Result-cases (parse_flat_mapping_entry e)) [
    | inr (x, bad) ↦ absurd (ground arith)
    | inl ((prop, val), good) ↦
        let (shape, lacks, _, _) = parse_flat_sound e prop val good in
        (
          record { prop = prop; val = val; lacks = lacks; shape = shape },
          validated qid es (ground arith),
        )
  ]

  canonical-IsMappings :
      (es : List Bytes)
      → All IsEntry es
      → All j.IsCarried es
      → IsMappings s (canonical_mappings_json j es)
  unfolding canonical_mappings_json
  canonical-IsMappings [] h carried = record { parts = []; decoded = j.decode-empty; entries = tt }
  canonical-IsMappings (e ∷ es) h carried = record {
    parts = e ∷ es;
    decoded = j.decode-marshal (e ∷ es) carried;
    entries = h;
  }

  -- What a caller owes: a raw text that is an array of well-formed entries, or strings that JSON can
  -- carry. The entries of UpsertEntity need not be well-formed: it tests that itself.
  abbrev pub IsAllowed : Op → Type 0
  IsAllowed (upsert_raw rec) = IsMappings s rec.raw_mappings
  IsAllowed (upsert rec) = All j.IsCarried rec.mappings
  IsAllowed _ = Unit

  id_of : (qid eid : Bytes) → eid_of qid ≡ ok eid → (n : ℤ) × (eid ≡ format_int n)
  id_of qid eid h = elim (Result-cases (qid_to_int qid)) [
    | inl (n, good) ↦ (n, ground arith)
    | inr (e, bad) ↦ absurd (ground arith)
  ]

  -- The commands of an allowed operation keep the index consistent.
  commands-IsSound :
      (o : Op) (cs : List Command) → IsAllowed o → commands_of j o ≡ ok cs → All (IsSound s) cs
  unfolding upsert_raw_commands upsert_commands
  commands-IsSound (upsert_raw rec) cs h e = elim (Result-cases (eid_of rec.wikidata_id)) [
    | inr (x, bad) ↦ absurd (ground arith)
    | inl (eid, good) ↦
        let (n, p) = id_of rec.wikidata_id eid good in
        let q : run_upsert rec.raw_mappings eid ∷ [] ≡ cs = ground arith in rw (← q) ((n, p, h), tt)
  ]
  commands-IsSound (upsert rec) cs h e = elim (Result-cases (eid_of rec.wikidata_id)) [
    | inr (x, bad) ↦ absurd (ground arith)
    | inl (eid, good) ↦ elim (Option-cases (validate_entries rec.wikidata_id rec.mappings)) [
      | inr (x, bad) ↦ absurd (ground arith)
      | inl valid ↦
          let (n, p) = id_of rec.wikidata_id eid good in
          let q : run_upsert (canonical_mappings_json j rec.mappings) eid ∷ [] ≡ cs =
            ground arith in
          rw (← q) (
            (
              n,
              p,
              canonical-IsMappings rec.mappings (validated rec.wikidata_id rec.mappings valid) h,
            ),
            tt,
          )
    ]
  ]
  commands-IsSound (delete qid) cs h e = elim (Result-cases (eid_of qid)) [
    | inr (x, bad) ↦ absurd (ground arith)
    | inl (eid, good) ↦
        let (n, p) = id_of qid eid good in
        let q : run_delete eid ∷ [] ≡ cs = ground arith in rw (← q) ((n, p), tt)
  ]
  commands-IsSound (set_state k v) cs h e =
      let q : hset_meta k v ∷ [] ≡ cs = ground arith in rw (← q) (tt, tt)
  commands-IsSound (del_states ks) cs h e =
      let q : hdel_meta ks ∷ [] ≡ cs = ground arith in rw (← q) (tt, tt)
  commands-IsSound (enqueue []) cs h e = let q : [] ≡ cs = ground arith in rw (← q) tt
  commands-IsSound (enqueue (x ∷ xs)) cs h e = elim (Result-cases (members_of (x ∷ xs))) [
    | inr (y, bad) ↦ absurd (ground arith)
    | inl (ms, good) ↦ let q : sadd pending_key ms ∷ [] ≡ cs = ground arith in rw (← q) (tt, tt)
  ]
  commands-IsSound (ack []) cs h e = let q : [] ≡ cs = ground arith in rw (← q) tt
  commands-IsSound (ack (x ∷ xs)) cs h e = elim (Result-cases (members_of (x ∷ xs))) [
    | inr (y, bad) ↦ absurd (ground arith)
    | inl (ms, good) ↦ let q : srem processing_key ms ∷ [] ≡ cs = ground arith in rw (← q) (tt, tt)
  ]
  commands-IsSound (record_failure qid m now micros) cs h e = elim (Result-cases (eid_of qid)) [
    | inr (x, bad) ↦ absurd (ground arith)
    | inl (id, good) ↦
        let q : run_record_failed id m now micros ∷ [] ≡ cs = ground arith in rw (← q) (tt, tt)
  ]
  commands-IsSound (delete_failure qid) cs h e = elim (Result-cases (eid_of qid)) [
    | inr (x, bad) ↦ absurd (ground arith)
    | inl (id, good) ↦
        let q : zrem_failed id ∷ del_failed id ∷ [] ≡ cs = ground arith in rw (← q) (tt, (tt, tt))
  ]

  All-IsSound :
      (os : List Op) (cs : List Command)
      → All IsAllowed os
      → all_commands j os ≡ ok cs
      → All (IsSound s) cs
  All-IsSound [] [] h e = tt
  All-IsSound [] (c ∷ cs) h e = absurd (ground arith)
  All-IsSound (o ∷ os) cs (h, hs) e = elim (Result-cases (commands_of j o)) [
    | inr (x, bad) ↦ absurd (ground arith)
    | inl (first, good) ↦ elim (Result-cases (all_commands j os)) [
      | inr (x, bad) ↦ absurd (ground arith)
      | inl (rest, fine) ↦
          let q : first ++ rest ≡ cs = ground arith in
          rw (← q) (
            All-append (IsSound s) first rest (commands-IsSound o first h good)
              (All-IsSound os rest hs fine))
    ]
  ]

  -- Whatever operations a pipe is filled with, in whatever order, executing it keeps the reverse
  -- index consistent: always where the raw texts are valid, and also when Exec returns an error.
  pub exec-IsConsistent :
      (os : List Op) (d : s.Db)
      → All IsAllowed os
      → IsConsistent s d
      → IsConsistent s (exec s (apply_all j os (new_pipe none)) d).1
  exec-IsConsistent os d h c = elim (Result-cases (all_commands j os)) [
    | inl (cs, good) ↦
        rw (exec_all_or_nothing j os d, good)
          (run_commands-IsConsistent s laws streams cs d (All-IsSound os cs h good) c)
    | inr (e, bad) ↦ rw (exec_all_or_nothing j os d, bad) c
  ]
