-- ===== src/Tests/Stream.antt =====
-- The theorems on the stream, on its reader and on the serving of snapshots at concrete inputs.
use wdxref.Base.{
  ℕ, ◌≤◌, ◌<◌, ◌≡◌, ◌↔◌, ◌⊎◌, refl, true, false, Option, none, some, List, [], ◌∷◌, map, arith,
  Bytes, codes, beq, length, take, ok, index_byte,
}
use wdxref.Base.Int.{ℤ, pos, negsuc, pos_part, ◌≤ℤ◌}
use wdxref.Strconv.{format_int, parse_int, parse_uint, checked}
use wdxref.Store.Kvrocks.{StreamEntry}
use wdxref.Store.Events.{event_of, event_of-change}
use wdxref.Store.Scripts.Consistent.{change}
use wdxref.Replicate.Cursor.{
  id_ms, id_seq, compare_stream_ids, check_stream_gap, resolve_stream_cursor,
}
use wdxref.Replicate.Cursor.Order.{before, compare_stream_ids-IsOrder}
use wdxref.Replicate.Stream.{
  StreamRequest, StreamLimits, StreamOptions, parse_stream_request_options, Reply, Chunk, Round,
  stream_loop, serve_stream,
}
use wdxref.Replicate.Stream.Log.{IsSorted, later, changes, IsRead}
use wdxref.Replicate.Stream.Contiguous.{IsGrowing}
use wdxref.Replicate.Stream.Bounds.{options-IsBounded}
use wdxref.Replicate.Stream.Poll.{stream_loop-All}
use wdxref.Replicate.Stream.Served.{serve_stream_no_gap}
use wdxref.Replicate.Snapshot.{
  SnapshotMeta, Look, SnapshotReply, is_snapshot_current, serve_snapshot,
}
use wdxref.Replicate.Snapshot.Current.{IsServedFrom, serve_snapshot_covered}

compare_stream_ids-IsOrder_example :
    ((compare_stream_ids (codes "9-0") (codes "10-1") ≡ negsuc 0) ↔ (
      (id_ms (codes "9-0") < id_ms (codes "10-1"))
      ⊎ ((id_ms (codes "9-0") ≡ id_ms (codes "10-1"))
          × (id_seq (codes "9-0") < id_seq (codes "10-1")))))
    × ((compare_stream_ids (codes "9-0") (codes "10-1") ≡ pos 1) ↔ (
        (id_ms (codes "10-1") < id_ms (codes "9-0"))
        ⊎ ((id_ms (codes "9-0") ≡ id_ms (codes "10-1"))
            × (id_seq (codes "10-1") < id_seq (codes "9-0")))))
    × ((compare_stream_ids (codes "9-0") (codes "10-1") ≡ pos 0) ↔ (
        (id_ms (codes "9-0") ≡ id_ms (codes "10-1"))
        × (id_seq (codes "9-0") ≡ id_seq (codes "10-1"))))
    × (compare_stream_ids (codes "9-0") (codes "10-1") ≤ℤ pos 0
        → compare_stream_ids (codes "10-1") (codes "10-2") ≤ℤ pos 0
        → compare_stream_ids (codes "9-0") (codes "10-2") ≤ℤ pos 0)
compare_stream_ids-IsOrder_example =
    compare_stream_ids-IsOrder (codes "9-0") (codes "10-1") (codes "10-2")

event_of-change_example :
    event_of (record { id = codes "7-0"; fields = change (format_int (pos 42)) (codes "[]") })
    ≡ record { id = codes "7-0"; qid = pos 42; raw_mappings = codes "[]" }
event_of-change_example = event_of-change (codes "7-0") (pos 42) (codes "[]") (omega arith)

abbrev seconds : Bytes → Option ℤ
seconds raw = some (parse_int raw).0

abbrev limits : StreamLimits
limits = record { max_events = pos 5; max_timeout = pos 60 }

abbrev request : StreamRequest
request = record {
  since = codes "10-1";
  last_event_id = [];
  limit = codes "7";
  timeout = some (codes "0" ∷ []);
}

abbrev options : StreamOptions
options = record { limit = pos 5; timeout = pos 0 }

options_run : parse_stream_request_options seconds request limits ≡ ok options
unfolding parse_stream_request_options parse_int beq checked
options_run = refl

options-IsBounded_example :
    (0 < pos_part options.limit)
    × (pos_part options.limit ≤ pos_part limits.max_events)
    × (pos 0 ≤ℤ options.timeout)
    × (options.timeout ≤ℤ limits.max_timeout)
options-IsBounded_example = options-IsBounded seconds request limits options options_run

abbrev entry : Bytes → StreamEntry
entry id = record { id = id; fields = change (codes "42") (codes "[]") }

abbrev log : List StreamEntry
log = entry (codes "10-0") ∷ entry (codes "10-2") ∷ entry (codes "11-0") ∷ []

abbrev history : List StreamEntry
history = entry (codes "9-5") ∷ log

history-IsSorted : IsSorted history
unfolding before id_ms id_seq index_byte parse_uint
history-IsSorted = ((refl, (refl, (refl, tt))), ((refl, (refl, tt)), ((refl, tt), (tt, tt))))

log-IsSorted : IsSorted log
log-IsSorted = history-IsSorted.1

abbrev round : Round
round = record {
  stopped = false;
  remaining = none;
  reply = λ cursor count block. ok (take count (later cursor log));
  expired = false;
}

round-IsRead : IsRead log round
round-IsRead cursor count block es h = ground arith

rounds-IsGrowing : IsGrowing log (round ∷ round ∷ [])
rounds-IsGrowing = ((log, [], refl, round-IsRead), ((log, [], refl, round-IsRead), tt))

abbrev poll : List Chunk
poll = stream_loop 5 (pos 0) (round ∷ round ∷ []) (codes "10-1") 0

served_run :
    serve_stream seconds true request limits (ok (codes "10-0")) none (round ∷ round ∷ [])
    ≡ Reply.streamed (Chunk.connected ∷ poll)
unfolding serve_stream parse_stream_request_options check_stream_gap compare_stream_ids
    resolve_stream_cursor id_ms id_seq checked index_byte parse_int parse_uint beq
served_run = refl

serve_stream_no_gap_example :
    (n : ℕ) × (n ≤ pos_part limits.max_events)
    × (changes (Chunk.connected ∷ poll)
        ≡ map event_of (take n (later (resolve_stream_cursor (codes "10-1") []) history)))
serve_stream_no_gap_example =
    serve_stream_no_gap seconds true request limits none (entry (codes "9-5") ∷ [])
      (entry (codes "10-0")) (entry (codes "10-2") ∷ entry (codes "11-0") ∷ []) (round ∷ round ∷ [])
      (Chunk.connected ∷ poll) history-IsSorted rounds-IsGrowing served_run

few : length (later (codes "10-1") log) < 3
unfolding later before id_ms id_seq index_byte parse_uint
few = omega arith

stream_loop-All_example :
    changes (stream_loop 1 (pos 0) (round ∷ round ∷ round ∷ []) (codes "10-1") 0)
    ≡ map event_of (take 1 (later (codes "10-1") log))
stream_loop-All_example =
    stream_loop-All log log-IsSorted 1 (round ∷ round ∷ round ∷ []) (codes "10-1") 0
      ((refl, λ c n b. refl), ((refl, λ c n b. refl), ((refl, λ c n b. refl), tt))) few
      (omega arith)

abbrev meta : SnapshotMeta
meta = record { file = codes "snapshot-1.zst"; id = codes "10-2" }

abbrev look : Look
look = record { meta = some meta; info = ok (codes "10-0"); file = some (some (codes "data")) }

served_file : serve_snapshot look look ≡ (SnapshotReply.served meta (codes "data"), false)
unfolding serve_snapshot is_snapshot_current compare_stream_ids id_ms id_seq index_byte parse_uint
    beq
served_file = refl

serve_snapshot_covered_example :
    IsServedFrom look meta (codes "data") ⊎ IsServedFrom look meta (codes "data")
serve_snapshot_covered_example =
    serve_snapshot_covered look look meta (codes "data") false served_file

abbrev sent : List Chunk
sent =
    Chunk.connected
    ∷ Chunk.change (record { id = codes "10-2"; qid = pos 42; raw_mappings = codes "P345:tt1" })
    ∷ Chunk.keepalive
    ∷ Chunk.change (record { id = codes "11-0"; qid = pos 42; raw_mappings = [] })
    ∷ []
