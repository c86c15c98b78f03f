-- ===== src/Tests/Store.antt =====
-- The theorems on the store at concrete inputs.
use wdxref.Base.{
  ◌≡◌, ◌≢◌, refl, none, some, List, [], ◌∷◌, arith, Bytes, codes, beq, contains, Lacks, ok, err,
  index_byte,
}
use wdxref.Base.Int.{pos}
use wdxref.Strconv.{format_int, parse_int, checked}
use wdxref.Store.Words.{words}
use wdxref.Store.Ids.{parse_flat_mapping_entry}
use wdxref.Store.Ids.Laws.{parse_flat_sound, format_int-IsWord}
use wdxref.Store.Scripts.{upsert, delete, entities_key}
use wdxref.Store.Scripts.Index.{listed}
use wdxref.Store.Scripts.Outcome.{entry_of}
use wdxref.Store.Scripts.Consistent.{IsConsistent, IsMappings, Changed, upsert-Changed}
use wdxref.Store.Scripts.Deletion.{delete_stored}
use wdxref.Store.Pipe.{exec, run_commands, new_pipe}
use wdxref.Store.Pipe.Sticky.{Op, apply_all, all_commands, exec_all_or_nothing}
use wdxref.Store.Pipe.Consistency.{exec-IsConsistent}
use wdxref.Tests.Server.{
  Memory, memory, empty, memory_hashes, memory_streams, commas, field, decode_text,
}

abbrev film : Bytes
film = codes "P345:tt0111161"

abbrev pub text : Bytes
text = codes "P345:tt0111161,P4947:278"

pub empty-IsConsistent : IsConsistent memory empty
unfolding listed contains field
empty-IsConsistent = record {
  indexed = λ q w x lacks word. refl;
  stored = λ x m e. absurd (ground arith);
}

pub text-IsMappings : IsMappings memory text
unfolding decode_text words beq
text-IsMappings = record {
  parts = film ∷ codes "P4947:278" ∷ [];
  decoded = refl;
  entries = (
    record { prop = codes "345"; val = codes "tt0111161"; lacks = omega arith; shape = refl },
    (record { prop = codes "4947"; val = codes "278"; lacks = omega arith; shape = refl }, tt),
  );
}

upsert-Changed_example :
    (d' : Memory) × (upsert memory text (format_int (pos 172241)) empty ≡ (ok 1, d'))
    × Changed memory memory_hashes memory_streams
        (format_int (pos 172241))
        (format_int-IsWord (pos 172241))
        empty
        d'
        (some text)
        text
unfolding field
upsert-Changed_example =
    upsert-Changed memory memory_hashes memory_streams (format_int (pos 172241))
      (format_int-IsWord (pos 172241)) empty text empty-IsConsistent text-IsMappings refl

pub stocking :
    (d' : Memory) × (upsert memory text (format_int (pos 172241)) empty ≡ (ok 1, d'))
    × Changed memory memory_hashes memory_streams
        (format_int (pos 172241))
        (format_int-IsWord (pos 172241))
        empty
        d'
        (some text)
        text
unfolding field
stocking =
    upsert-Changed memory memory_hashes memory_streams (format_int (pos 172241))
      (format_int-IsWord (pos 172241)) empty text empty-IsConsistent text-IsMappings refl

abbrev pub stocked : Memory
stocked = stocking.0

stored_text : memory.hget stocked entities_key (format_int (pos 172241)) ≡ some text
unfolding beq format_int
stored_text = stocking.2.entity (format_int (pos 172241))

delete_stored_example :
    (d' : Memory) × (delete memory (format_int (pos 172241)) stocked ≡ (ok 1, d'))
    × Changed memory memory_hashes memory_streams
        (format_int (pos 172241))
        (format_int-IsWord (pos 172241))
        stocked
        d'
        none
        []
delete_stored_example =
    delete_stored memory memory_hashes memory_streams (format_int (pos 172241))
      (format_int-IsWord (pos 172241)) stocked text stocking.2.consistent stored_text

parse_flat_film : parse_flat_mapping_entry film ≡ ok (codes "345", codes "tt0111161")
unfolding parse_flat_mapping_entry index_byte parse_int checked
parse_flat_film = refl

parse_flat_sound_example :
    (film ≡ entry_of (codes "345") (codes "tt0111161"))
    × Lacks b':' (codes "345")
    × (codes "345" ≢ [])
    × (codes "tt0111161" ≢ [])
parse_flat_sound_example = parse_flat_sound film (codes "345") (codes "tt0111161") parse_flat_film

abbrev script : List Op
script =
    Op.upsert (record { wikidata_id = codes "Q172241"; mappings = film ∷ [] })
    ∷ Op.set_state (codes "state") (codes "streaming")
    ∷ Op.delete (codes "Q7")
    ∷ Op.enqueue (codes "Q12" ∷ codes "q13" ∷ [])
    ∷ []

exec_all_or_nothing_example :
    exec memory (apply_all commas script (new_pipe none)) empty
    ≡ (elim (all_commands commas script) [
      | ok cs ↦ run_commands memory cs empty
      | err e ↦ (some e, empty)
    ])
exec_all_or_nothing_example = exec_all_or_nothing commas script empty

exec-IsConsistent_example :
    IsConsistent memory (exec memory (apply_all commas script (new_pipe none)) empty).1
exec-IsConsistent_example =
    exec-IsConsistent memory memory_hashes memory_streams commas script empty
      ((((cc, omega arith), refl), tt), (tt, (tt, (tt, tt)))) empty-IsConsistent
