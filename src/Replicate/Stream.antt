-- ===== src/Replicate/Stream.antt =====
-- ServeStream of internal/replicate/stream.go. A round of its loop is data: the state of the request's
-- context, and the reply of XREAD to the cursor, the count and the blocking time that the code passes.
-- time.ParseDuration and the JSON of a reset are parameters; durations are nanoseconds.
pub mod Log
pub mod Contiguous
pub mod Poll
pub mod Bounds
pub mod Served
use wdxref.Base.{
  ℕ, zero, suc, ◌+◌, ◌-◌, ◌*◌, ◌≡◌, Bool, true, false, ◌||◌, Option, none, some, List, [], ◌∷◌,
  ◌++◌, map, Bytes, codes, beq, length, ltb, leb, ◌==◌, if◌then◌else◌, Result, ok, err,
}
use wdxref.Base.Int.{ℤ, pos, negsuc, pos_part, ltb_ℤ}
use wdxref.Strconv.{format_uint, parse_int, checked}
use wdxref.Store.Kvrocks.{StreamEntry}
use wdxref.Store.Events.{ChangeEvent, stream_read}
use wdxref.Replicate.Protocol.{format_stream_change_data}
use wdxref.Replicate.Cursor.{GapError, check_stream_gap, resolve_stream_cursor}

abbrev pub stream_read_count : ℕ
stream_read_count = 100

abbrev pub keep_alive_interval : ℤ
keep_alive_interval = pos (15 * 1000000000)

-- ClientReconnectDelay, in milliseconds.
abbrev pub client_reconnect_delay : ℕ
client_reconnect_delay = 3000

pub record StreamLimits : Type 0 where
  pub max_events : ℤ
  pub max_timeout : ℤ

-- The parts of a request that the handler reads; a parameter that is missing is "", the timeout none.
pub record StreamRequest : Type 0 where
  pub since : Bytes
  pub last_event_id : Bytes
  pub limit : Bytes
  pub timeout : Option (List Bytes)

pub record StreamOptions : Type 0 where
  pub limit : ℤ
  pub timeout : ℤ

pub data OptionsError : Type 0 where
  max_events_not_positive max_timeout_negative invalid_limit invalid_timeout : OptionsError

min_ℤ : ℤ → ℤ → ℤ
min_ℤ requested most = if ltb_ℤ requested most then requested else most

-- The part of parseStreamRequestOptions on the limit.
read_limit : Bytes → ℤ → Result OptionsError ℤ
unfolding min_ℤ
read_limit [] most = ok most
read_limit (c ∷ raw) most = elim (checked (parse_int (c ∷ raw))) [
  | err _ ↦ err invalid_limit
  | ok requested ↦ if ltb_ℤ (pos 0) requested then ok (min_ℤ requested most) else err invalid_limit
]

module _ (parse_duration : Bytes → Option ℤ) where
  -- The part of parseStreamRequestOptions on the timeout: exactly one value, which is not empty.
  read_timeout : Option (List Bytes) → ℤ → Result OptionsError ℤ
  unfolding min_ℤ
  read_timeout none most = ok most
  read_timeout (some []) most = err invalid_timeout
  read_timeout (some (raw ∷ r ∷ raws)) most = err invalid_timeout
  read_timeout (some (raw ∷ [])) most =
      if beq raw [] then err invalid_timeout else elim (parse_duration raw) [
        | none ↦ err invalid_timeout
        | some requested ↦
            if ltb_ℤ requested (pos 0) then err invalid_timeout else ok (min_ℤ requested most)
      ]

  -- parseStreamRequestOptions
  unfoldable pub parse_stream_request_options :
      StreamRequest → StreamLimits → Result OptionsError StreamOptions
  unfolding read_limit read_timeout
  parse_stream_request_options r limits =
      if leb (pos_part limits.max_events) 0
      then err max_events_not_positive
      else if ltb_ℤ limits.max_timeout (pos 0)
      then err max_timeout_negative
      else elim (read_limit r.limit limits.max_events) [
        | err e ↦ err e
        | ok limit ↦ elim (read_timeout r.timeout limits.max_timeout) [
          | err e ↦ err e
          | ok timeout ↦ ok (record { limit = limit; timeout = timeout })
        ]
      ]

-- streamReadBlock, with the time until the context's deadline, if there is one.
unfoldable pub stream_read_block : ℤ → Option ℤ → ℤ
stream_read_block (pos zero) remaining = pos 0
stream_read_block (pos (suc t)) none = keep_alive_interval
stream_read_block (pos (suc t)) (some left) =
    if ltb_ℤ (pos 0) left
    then (if ltb_ℤ left keep_alive_interval then left else keep_alive_interval)
    else pos 0
stream_read_block (negsuc t) none = keep_alive_interval
stream_read_block (negsuc t) (some left) =
    if ltb_ℤ (pos 0) left
    then (if ltb_ℤ left keep_alive_interval then left else keep_alive_interval)
    else pos 0

-- What the handler writes to the client.
pub data Chunk : Type 0 where
  connected keepalive : Chunk
  change : ChangeEvent → Chunk
  reset : GapError → Option Bytes → Chunk

unfoldable pub chunk_text : (GapError → Option Bytes → Bytes) → Chunk → Bytes
chunk_text reset_json connected =
    codes ": connected\nretry: " ++ format_uint client_reconnect_delay ++ codes "\n\n"
chunk_text reset_json keepalive = codes ": keepalive\n\n"
chunk_text reset_json (change ev) =
    codes "id: "
    ++ ev.id
    ++ codes "\nevent: change\ndata: "
    ++ format_stream_change_data ev.qid ev.raw_mappings
    ++ codes "\n\n"
chunk_text reset_json (reset reason state) =
    codes "retry: "
    ++ format_uint client_reconnect_delay
    ++ codes "\nevent: reset\ndata: "
    ++ reset_json reason state
    ++ codes "\n\n"

-- One round: whether the context is done before it, the time to the deadline, the server's reply, and
-- whether the context is done after it.
pub record Round : Type 0 where
  pub stopped : Bool
  pub remaining : Option ℤ
  pub reply : Bytes → ℕ → ℤ → Result Bytes (List StreamEntry)
  pub expired : Bool

-- The cursor after the events of a round.
unfoldable pub last_id : Bytes → List ChangeEvent → Bytes
last_id cursor [] = cursor
last_id cursor (ev ∷ evs) = last_id ev.id evs

-- The count that is asked for: at most StreamReadCount, at most what is left.
unfoldable pub read_count : ℕ → ℕ → ℕ
read_count limit sent =
    if ltb (limit - sent) stream_read_count then limit - sent else stream_read_count

after_read :
    (Bytes → ℕ → List Chunk) → ℤ → Bool → Bytes → ℕ → Result Bytes (List ChangeEvent) → List Chunk
after_read next timeout expired cursor sent (err e) = []
after_read next (pos zero) expired cursor sent (ok []) = []
after_read next (pos (suc t)) true cursor sent (ok []) = []
after_read next (pos (suc t)) false cursor sent (ok []) = keepalive ∷ next cursor sent
after_read next (negsuc t) true cursor sent (ok []) = []
after_read next (negsuc t) false cursor sent (ok []) = keepalive ∷ next cursor sent
after_read next timeout expired cursor sent (ok (ev ∷ evs)) =
    map change (ev ∷ evs) ++ next (last_id cursor (ev ∷ evs)) (sent + length (ev ∷ evs))

-- The loop; the limit is positive when it is reached. The rounds that the connection lasts are the fuel:
-- where they end, the connection is cut.
unfoldable pub stream_loop : ℕ → ℤ → List Round → Bytes → ℕ → List Chunk
unfolding after_read
stream_loop limit timeout [] cursor sent = []
stream_loop limit timeout (r ∷ rs) cursor sent =
    let block = stream_read_block timeout r.remaining in
    let read = stream_read (r.reply cursor (read_count limit sent) block) in
    let rest = after_read (stream_loop limit timeout rs) timeout r.expired cursor sent read in
    if ltb sent limit then (if r.stopped then [] else rest) else []

pub data Refusal : Type 0 where
  bad_request : OptionsError → Refusal
  no_flusher unavailable : Refusal

unfoldable pub status_of : Refusal → ℕ
status_of (bad_request e) = 400
status_of no_flusher = 500
status_of unavailable = 503

pub data Reply : Type 0 where
  refused : Refusal → Reply
  streamed : List Chunk → Reply

answer_gap : Option Bytes → Option GapError → List Chunk → Reply
answer_gap state (some GapError.store_unavailable) chunks = refused unavailable
answer_gap state (some GapError.requires_snapshot) chunks =
    streamed (reset GapError.requires_snapshot state ∷ [])
answer_gap state (some GapError.no_entries) chunks = streamed (reset GapError.no_entries state ∷ [])
answer_gap state (some GapError.older_than_retained) chunks =
    streamed (reset GapError.older_than_retained state ∷ [])
answer_gap state none chunks = streamed (connected ∷ chunks)

-- ServeStream; `info` is the id of the first entry that StreamInfo gives, `state` that of GetStats.
unfoldable pub serve_stream :
    (Bytes → Option ℤ)
    → Bool
    → StreamRequest
    → StreamLimits
    → Result Bytes Bytes
    → Option Bytes
    → List Round
    → Reply
unfolding answer_gap
serve_stream parse_duration flushes r limits info state rounds =
    elim (parse_stream_request_options parse_duration r limits) [
      | err e ↦ refused (bad_request e)
      | ok options ↦
          let since = resolve_stream_cursor r.since r.last_event_id in
          let chunks = stream_loop (pos_part options.limit) options.timeout rounds since 0 in
          if flushes
          then answer_gap state (check_stream_gap info since) chunks
          else refused no_flusher
    ]
