-- ===== src/Tests/Reads.antt =====
-- The theorems on the work queue, the schema's version and the lookups at concrete inputs.
use wdxref.Base.{All, ◌++◌, ◌&&◌, map, [], ◌∷◌, ◌≢◌, if◌then◌else◌}
use wdxref.Store.Ids.{int_to_qid}
use wdxref.Api.{number_behind, found, mapping_of, not_found, handle_lookup, handle_wikidata_lookup}
use wdxref.Api.Lookups.{handle_lookup_exact, handle_wikidata_lookup-upsert}
use wdxref.Command.{is_role, role_primary, role_replica, role_list, start, go_on}
use wdxref.Command.Roles.{start_sound}
use wdxref.Base.{
  ◌≡◌, ◌↔◌, refl, sym, ◌∙◌, true, false, none, some, List, arith, Bytes, codes, beq, beq_iff,
  contains, Bool-cases, inl, inr, ok,
}
use wdxref.Base.Int.{ℤ, pos, ltb_ℤ}
use wdxref.Strconv.{format_int}
use wdxref.Strconv.RoundTrip.{IsInt64}
use wdxref.Store.Scripts.{entities_key, upsert}
use wdxref.Store.Scripts.Outcome.{entry_of}
use wdxref.Store.Scripts.Consistent.{mappings_of}
use wdxref.Store.Pipe.{pending_key, processing_key, record_failed}
use wdxref.Store.Failures.{IsRecorded, record_failed_lem}
use wdxref.Store.Queue.{
  claim, recover_processing, queued, claim_keeps, migrate_schema, IsMigrated, migrate_schema_lem,
}
use wdxref.Store.Reader.{LookupResult, is_blank, lookup_by_property}
use wdxref.Store.Reader.Lookup.{Holds, HasIds, lookup_by_property_exact}
use wdxref.Tests.Server.{Memory, memory, empty, field, memory_hashes, memory_streams, memory_sets}
use wdxref.Tests.Store.{stocking, stocked, text, text-IsMappings}

abbrev waiting : Memory
waiting = memory.sadd (memory.sadd empty pending_key (codes "7")) pending_key (codes "9")

claim_keeps_example :
    (queued memory (claim memory 1 waiting).1 (codes "7") ≡ queued memory waiting (codes "7"))
    × (contains (codes "7") (claim memory 1 waiting).0 ≡ true
        → (memory.sismember waiting pending_key (codes "7") ≡ true)
          × (memory.sismember (claim memory 1 waiting).1 processing_key (codes "7") ≡ true))
    × (contains (codes "7") (claim memory 1 waiting).0 ≡ false
        → (memory.sismember (claim memory 1 waiting).1 pending_key (codes "7")
            ≡ memory.sismember waiting pending_key (codes "7"))
          × (memory.sismember (claim memory 1 waiting).1 processing_key (codes "7")
              ≡ memory.sismember waiting processing_key (codes "7")))
    × (memory.sismember
          (recover_processing memory (claim memory 1 waiting).1)
          pending_key
          (codes "7")
        ≡ queued memory waiting (codes "7"))
    × (memory.sismember
          (recover_processing memory (claim memory 1 waiting).1)
          processing_key
          (codes "7")
        ≡ false)
claim_keeps_example = claim_keeps memory memory_sets 1 waiting (codes "7")

migrate_schema_lem_example :
    IsMigrated memory (codes "v2") waiting (migrate_schema memory (codes "v2") waiting)
migrate_schema_lem_example =
    migrate_schema_lem memory memory_hashes memory_streams (codes "v2") waiting (cc)

abbrev film_id : Bytes
film_id = format_int (pos 172241)

stocked-HasIds : HasIds memory stocked
unfolding field
stocked-HasIds x m e = elim (Bool-cases (beq film_id x)) [
  | inl same ↦ (pos 172241, omega arith, sym ((beq_iff film_id x).0 same))
  | inr other ↦ absurd (
      let entity = stocking.2.entity x in
      let gone : some m ≡ none = sym e ∙ entity ∙ rw (other, field) refl in ground (arith, gone))
]

lookup_by_property_exact_example :
    (rs : List LookupResult) × (lookup_by_property memory true (pos 345) (codes "tt0111161") stocked
      ≡ ok rs)
    × ((n : ℤ) (m : Bytes)
        → IsInt64 n
        → is_blank m ≡ false
        → Holds rs n m ↔ (
            (memory.hget stocked entities_key (format_int n) ≡ some m)
            × (contains
                  (entry_of (format_int (pos 345)) (codes "tt0111161"))
                  (mappings_of memory (some m))
                ≡ true)))
lookup_by_property_exact_example =
    lookup_by_property_exact memory stocked (pos 345) (codes "tt0111161") stocking.2.consistent
      stocked-HasIds

record_failed_lem_example :
    IsRecorded memory memory_hashes
      (codes "42")
      (codes "timeout")
      (codes "2024-01-01T00:00:00Z")
      empty
      (record_failed memory
        (codes "42")
        (codes "timeout")
        (codes "2024-01-01T00:00:00Z")
        (pos 7)
        empty)
record_failed_lem_example =
    record_failed_lem memory memory_hashes (codes "42") (codes "timeout")
      (codes "2024-01-01T00:00:00Z") (pos 7) empty

abbrev quoted : Bytes → Bytes
quoted text = codes "'" ++ text ++ codes "'"

imdb_key : number_behind b'P' (codes "p345") ≡ some (pos 345)
unfolding number_behind
imdb_key = refl

handle_lookup_exact_example :
    (rs : List LookupResult) × (handle_lookup memory quoted true none
        (codes "p345")
        (codes "tt0111161")
        stocked
      ≡ found (map mapping_of rs))
    × ((n : ℤ) (m : Bytes)
        → IsInt64 n
        → is_blank m ≡ false
        → Holds rs n m ↔ (
            (memory.hget stocked entities_key (format_int n) ≡ some m)
            × (contains
                  (entry_of (format_int (pos 345)) (codes "tt0111161"))
                  (mappings_of memory (some m))
                ≡ true)))
handle_lookup_exact_example =
    handle_lookup_exact memory quoted (codes "p345") (codes "tt0111161") (pos 345) stocked (λ h. cc)
      imdb_key stocking.2.consistent stocked-HasIds

handle_wikidata_lookup-upsert_example :
    (handle_wikidata_lookup memory quoted true none
        (int_to_qid (pos 7))
        (upsert memory text (format_int (pos 7)) stocked).1
      ≡ (if is_blank text
          then not_found memory quoted (int_to_qid (pos 7))
          else found ((int_to_qid (pos 7), text) ∷ [])))
    × (IsInt64 (pos 172241)
        → ltb_ℤ (pos 0) (pos 172241) ≡ true
        → pos 172241 ≢ pos 7
        → handle_wikidata_lookup memory quoted true none
            (int_to_qid (pos 172241))
            (upsert memory text (format_int (pos 7)) stocked).1
          ≡ handle_wikidata_lookup memory quoted true none (int_to_qid (pos 172241)) stocked)
handle_wikidata_lookup-upsert_example =
    handle_wikidata_lookup-upsert memory memory_hashes memory_streams quoted (pos 7) (pos 172241)
      text stocked (omega arith) refl stocking.2.consistent text-IsMappings

role_list_runs : role_list (codes "api" ∷ codes "primary" ∷ []) ≡ codes "primary,api"
unfolding role_list beq
role_list_runs = refl

two_roles : start [] (codes "api, primary") ≡ go_on (codes "api" ∷ codes "primary" ∷ [])
unfolding start
two_roles = refl

start_sound_example :
    All (λ r. is_role r ≡ true) (codes "api" ∷ codes "primary" ∷ [])
    × ((codes "api" ∷ codes "primary" ∷ []) ≢ [])
    × ((contains role_primary (codes "api" ∷ codes "primary" ∷ [])
          && contains role_replica (codes "api" ∷ codes "primary" ∷ []))
        ≡ false)
start_sound_example =
    start_sound [] (codes "api, primary") (codes "api" ∷ codes "primary" ∷ []) two_roles
