-- ===== src/Watcher/Events.antt =====
-- The events of internal/watcher/eventstream.go: extractEvent, extractEventIDTime, and the loop of
-- connectAndProcess over the lines of the stream. Times are milliseconds, as event ids give them; the
-- zero time is `none`. `EventJson` is the JSON decoder.
pub mod Relevant
use wdxref.Base.{
  ℕ, ◌≡◌, refl, Bool, true, false, ◌&&◌, ◌||◌, not, Option, none, some, List, [], ◌∷◌, ◌++◌, Bytes,
  codes, beq, ◌==◌, length, drop, if◌then◌else◌,
}
use wdxref.Base.Int.{ℤ, pos, negsuc, ◌-ℤ◌, ltb_ℤ}
use wdxref.Base.Strings.{has_prefix}
use wdxref.Watcher.Enqueue.{Item}

pub record RecentChange : Type 0 where
  pub domain : Bytes
  pub wiki : Bytes
  pub namespace : ℤ
  pub title : Bytes

-- json.Unmarshal into an event, and into the offsets of an event id with their timestamps.
pub record EventJson : Type 0 where
  pub change_of : Bytes → Option RecentChange
  pub offsets_of : Bytes → Option (List (Option ℤ))

abbrev pub is_zero_ℤ : ℤ → Bool
is_zero_ℤ (pos n) = n == 0
is_zero_ℤ (negsuc n) = false

-- The tests of extractEvent behind the decoder; the empty text is an event to ignore.
unfoldable pub relevant_title : RecentChange → Bytes
unfolding beq has_prefix
relevant_title event =
    if beq event.domain (codes "canary")
    then []
    else if not (beq event.wiki (codes "wikidatawiki")) || not (is_zero_ℤ event.namespace)
    then []
    else if has_prefix event.title (codes "Q")
    then event.title
    else []

-- The least of the positive timestamps; 0 is none.
unfoldable pub min_timestamp : ℤ → List (Option ℤ) → ℤ
min_timestamp min_ts [] = min_ts
min_timestamp min_ts (none ∷ offsets) = min_timestamp min_ts offsets
min_timestamp min_ts (some t ∷ offsets) =
    let kept = min_timestamp min_ts offsets in
    let taken = min_timestamp t offsets in
    if ltb_ℤ (pos 0) t then if is_zero_ℤ min_ts || ltb_ℤ t min_ts then taken else kept else kept

-- streamGapThreshold
abbrev pub stream_gap_threshold : ℤ
stream_gap_threshold = pos 3600000

-- The variables of the loop.
pub record Reading : Type 0 where
  pub last_event_id : Bytes
  pub data_lines : List Bytes
  pub gap_checked : Bool

-- How the loop ends: all lines are read, or the first event is too far behind the time asked for.
pub data End : Type 0 where
  lines_read : End
  stream_too_old : End

-- strings.TrimPrefix, where the prefix is there.
abbrev trim_prefix : Bytes → Bytes → Bytes
trim_prefix line prefix = drop (length prefix) line

-- strings.Join(dataLines, "")
abbrev pub joined : List Bytes → Bytes
joined [] = []
joined (d ∷ ds) = d ++ joined ds

module _ (json : EventJson) where
  -- extractEvent
  unfoldable pub extract_event : Bytes → Bytes
  unfolding relevant_title
  extract_event payload = elim (json.change_of payload) [
    | none ↦ []
    | some event ↦ relevant_title event
  ]

  -- extractEventIDTime
  unfoldable pub extract_event_id_time : Bytes → Option ℤ
  unfolding min_timestamp
  extract_event_id_time event_id = elim (json.offsets_of event_id) [
    | none ↦ none
    | some offsets ↦
        let min_ts = min_timestamp (pos 0) offsets in if is_zero_ℤ min_ts then none else some min_ts
  ]

  -- Whether the gap check refuses the stream at an event with this time.
  abbrev pub gap_at : Option ℤ → Option ℤ → Bool
  gap_at none event_time = false
  gap_at (some since) none = false
  gap_at (some since) (some event_time) = ltb_ℤ stream_gap_threshold (event_time -ℤ since)

  abbrev pub is_known : Option ℤ → Bool
  is_known none = false
  is_known (some t) = true

  -- What the end of an event hands to the writer.
  abbrev pub item_of : Bytes → Bytes → List Item
  item_of qid event_id = if beq qid [] then [] else record { qid = qid; event_id = event_id } ∷ []

  abbrev hand_over : List Item → List Item × End → List Item × End
  hand_over is (more, end) = (is ++ more, end)

  -- The loop over the lines: the items that are handed to the writer, in order, and the end.
  unfoldable pub read_events : Option ℤ → List Bytes → Reading → List Item × End
  unfolding extract_event extract_event_id_time has_prefix beq ◌-ℤ◌
  read_events since [] r = ([], lines_read)
  read_events since (line ∷ lines) r =
      let event_time = extract_event_id_time r.last_event_id in
      let with_id =
        read_events since lines (record r { last_event_id = trim_prefix line (codes "id: ") }) in
      let with_data =
        read_events since lines
          (record r { data_lines = r.data_lines ++ trim_prefix line (codes "data: ") ∷ [] }) in
      let behind =
        read_events since lines
          (record r { data_lines = []; gap_checked = r.gap_checked || is_known event_time }) in
      let skipped = read_events since lines r in
      if has_prefix line (codes "id: ")
      then with_id
      else if has_prefix line (codes "data: ")
      then with_data
      else if beq line [] && not (length r.data_lines == 0)
      then if not r.gap_checked && gap_at since event_time
        then ([], stream_too_old)
        else hand_over (item_of (extract_event (joined r.data_lines)) r.last_event_id) behind
      else skipped
