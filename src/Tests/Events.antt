-- ===== src/Tests/Events.antt =====
-- The theorems on the event stream and the queue at concrete inputs.
use wdxref.Base.{
  false, inr, All, take, length, ◌≡◌, refl, none, some, List, [], ◌∷◌, ◌++◌, codes, arith, ok,
}
use wdxref.Base.Int.{pos}
use wdxref.Tests.Server.{memory, empty, memory_hashes, memory_sets, field}
use wdxref.Store.Pipe.{members_of}
use wdxref.Watcher.Enqueue.{Item, Input, received, tick, Buffer, empty_buffer, write_all}
use wdxref.Watcher.Enqueue.Pending.{items}
use wdxref.Watcher.Enqueue.Persisted.{Stored, write_all-IsStored}
use wdxref.Watcher.Events.{EventJson, lines_read, read_events}
use wdxref.Watcher.Events.Relevant.{Sent, lines_of, IsRelevant, read_events-IsRelevant}
use wdxref.Watcher.Processor.{absent}
use wdxref.Watcher.Download.{
  more, Arrival, arrived, ended, broken, responded, DownloadError, end_of_file, failed,
  new_resumable_body, read_all,
}
use wdxref.Watcher.Download.Resumed.{IsFruitless, download_ends}
use wdxref.Watcher.Download.Delivered.{download_prefix}
use wdxref.Watcher.Drain.{Now, handle_batch_result}
use wdxref.Watcher.Drain.Settled.{IsSettled, goes_back, handle_batch_result-IsSettled}

abbrev inputs : List Input
inputs =
    received (record { qid = codes "Q5"; event_id = codes "a" })
    ∷ tick
    ∷ received (record { qid = codes "Q6"; event_id = codes "b" })
    ∷ []

write_all-IsStored_example :
    (done : List Item) × (rest : List Item) × (items inputs ≡ done ++ rest)
    × Stored memory memory_hashes memory_sets none
        (write_all memory none inputs empty_buffer empty).1
        done
    × ((b : Buffer) → (write_all memory none inputs empty_buffer empty).0 ≡ ok b → rest ≡ [])
unfolding field
write_all-IsStored_example =
    write_all-IsStored memory memory_hashes memory_sets none inputs empty
      ((λ h. cc), ((λ h. cc), tt))

-- A payload is the title of a change, or "canary".
abbrev events : EventJson
events = record {
  change_of = λ payload. some (record {
    domain = payload;
    wiki = codes "wikidatawiki";
    namespace = pos 0;
    title = payload;
  });
  offsets_of = λ id. none;
}

abbrev two_events : List Sent
two_events =
    record { event_id = codes "a"; payload = codes "canary" }
    ∷ record { event_id = codes "b"; payload = codes "Q42" }
    ∷ []

read_events_runs :
    read_events events none
      (lines_of two_events)
      (record { last_event_id = []; data_lines = []; gap_checked = false })
    ≡ (record { qid = codes "Q42"; event_id = codes "b" } ∷ [], lines_read)
unfolding read_events
read_events_runs = refl

read_events-IsRelevant_example :
    (items : List Item) × (read_events events none
        (lines_of two_events)
        (record { last_event_id = []; data_lines = []; gap_checked = false })
      ≡ (items, lines_read))
    × IsRelevant events two_events items
read_events-IsRelevant_example = read_events-IsRelevant events none two_events [] false (inr refl)

abbrev noon : Now
noon = record { text = codes "2024-01-01T12:00:00Z"; micros = pos 1704110400000000 }

two_members : members_of (codes "Q5" ∷ codes "Q6" ∷ []) ≡ ok (codes "5" ∷ codes "6" ∷ [])
unfolding members_of wdxref.Store.Ids.qid_to_int wdxref.Strconv.checked wdxref.Strconv.parse_int
    wdxref.Strconv.format_int
two_members = refl

handle_batch_result-IsSettled_example :
    IsSettled memory memory_sets
      (goes_back memory memory_sets (ok ((codes "Q5", absent) ∷ [])))
      (codes "5" ∷ codes "6" ∷ [])
      empty
      (handle_batch_result memory none noon
        (codes "Q5" ∷ codes "Q6" ∷ [])
        (ok ((codes "Q5", absent) ∷ []))
        empty).1
      (codes "5")
handle_batch_result-IsSettled_example =
    handle_batch_result-IsSettled memory memory_sets noon (codes "Q5") (codes "Q6" ∷ [])
      (codes "5" ∷ codes "6" ∷ []) (ok ((codes "Q5", absent) ∷ [])) empty (codes "5") two_members

-- A connection breaks behind two bytes, and the next one serves the rest.
abbrev one_break : List Arrival
one_break = broken 2 (responded 206) ∷ arrived 9 ∷ ended 0 ∷ []

one_break_runs :
    read_all (codes "dump") one_break (new_resumable_body (codes "e"))
    ≡ (codes "dump", end_of_file, record { etag = codes "e"; offset = 4; retries = 0; at = 4 })
unfolding read_all
one_break_runs = refl

download_prefix_example :
    let (bytes, end, rb) = read_all (codes "dump") one_break (new_resumable_body (codes "e")) in
    (bytes ≡ take rb.offset (codes "dump")) × (rb.offset ≡ length bytes)
download_prefix_example = download_prefix (codes "dump") one_break (codes "e")

abbrev break_again : Arrival
break_again = broken 0 (responded 206)

abbrev eleven_breaks : List Arrival
eleven_breaks =
    break_again ∷ break_again ∷ break_again ∷ break_again ∷ break_again ∷ break_again ∷ break_again
    ∷ break_again ∷ break_again ∷ break_again ∷ break_again ∷ []

eleven-IsFruitless : All IsFruitless eleven_breaks
eleven-IsFruitless = (
  (responded 206, refl),
  (
    (responded 206, refl),
    (
      (responded 206, refl),
      (
        (responded 206, refl),
        (
          (responded 206, refl),
          (
            (responded 206, refl),
            (
              (responded 206, refl),
              (
                (responded 206, refl),
                ((responded 206, refl), ((responded 206, refl), ((responded 206, refl), tt))),
              ),
            ),
          ),
        ),
      ),
    ),
  ),
)

two_bytes : (read_all (codes "dump") (arrived 2 ∷ []) (new_resumable_body (codes "e"))).1 ≡ more
unfolding read_all
two_bytes = refl

download_ends_example :
    (e : DownloadError) × ((read_all
        (codes "dump")
        ((arrived 2 ∷ []) ++ eleven_breaks ++ (arrived 2 ∷ []))
        (new_resumable_body (codes "e"))).1
      ≡ failed e)
download_ends_example =
    download_ends (codes "dump") (arrived 2 ∷ []) eleven_breaks (arrived 2 ∷ []) (codes "e")
      two_bytes eleven-IsFruitless (omega arith)
