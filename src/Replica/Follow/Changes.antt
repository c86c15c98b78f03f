-- ===== src/Replica/Follow/Changes.antt =====
-- The text that ServeStream writes (internal/replicate/stream.go), as connectStream reads it
-- (internal/replica/client.go).
use wdxref.Base.{
  ℕ, ◌≡◌, ◌≢◌, ◌⊎◌, refl, ap, Bool, Option, none, some, List, [], ◌∷◌, ◌++◌, append_assoc, arith,
  Bytes, codes, beq, Lacks, All, All-append, scan_lines, scan_lines-line, Option-cases, inl, inr,
  if◌then◌else◌, length, ◌<◌,
}
use wdxref.Base.Int.{ℤ}
use wdxref.Strconv.RoundTrip.{IsInt64, format_int-Lacks}
use wdxref.Strconv.{format_int, format_uint}
use wdxref.Store.Kvrocks.{Kvrocks}
use wdxref.Store.Events.{ChangeEvent}
use wdxref.Store.Pipe.{StoreError, exec}
use wdxref.Replicate.Protocol.{format_stream_change_data}
use wdxref.Replicate.Protocol.RoundTrip.{parse-format_stream_change}
use wdxref.Replicate.Cursor.{GapError}
use wdxref.Replicate.Stream.{Chunk, chunk_text, client_reconnect_delay}
use wdxref.Replicate.Stream.Log.{changes}
use wdxref.Replica.Follow.{
  StreamEnd, change_pipe, strip_prefix, classify_sse, tag, on_data, on_change, apply_change,
  follow_lines, stream_line_limit,
}

-- Changes that fit on their lines: an id that is not empty, no line break in it or the mappings, and lines
-- that the scanner's buffer can hold.
abbrev pub IsSendable : Chunk → Type 0
IsSendable (Chunk.change ev) =
    IsInt64 ev.qid
    × (ev.id ≢ [])
    × (Lacks 10 ev.id × Lacks 13 ev.id)
    × (Lacks 10 ev.raw_mappings × Lacks 13 ev.raw_mappings)
    × (length (codes "id: " ++ ev.id) < stream_line_limit)
    × (length (codes "data: " ++ format_stream_change_data ev.qid ev.raw_mappings)
        < stream_line_limit)
IsSendable Chunk.connected = Unit
IsSendable Chunk.keepalive = Unit
IsSendable (Chunk.reset reason state) = ⊥

-- The text that the server writes.
unfoldable pub stream_text : (GapError → Option Bytes → Bytes) → List Chunk → Bytes
stream_text reset_json [] = []
stream_text reset_json (c ∷ cs) = chunk_text reset_json c ++ stream_text reset_json cs

-- The lines of a chunk.
abbrev pub chunk_lines : Chunk → List Bytes
chunk_lines Chunk.connected = codes ": connected" ∷ codes "retry: 3000" ∷ [] ∷ []
chunk_lines Chunk.keepalive = codes ": keepalive" ∷ [] ∷ []
chunk_lines (Chunk.change ev) =
    (codes "id: " ++ ev.id)
    ∷ codes "event: change"
    ∷ (codes "data: " ++ format_stream_change_data ev.qid ev.raw_mappings)
    ∷ []
    ∷ []
chunk_lines (Chunk.reset reason state) = []

payload-Lacks :
    (c : ℕ) (q : ℤ) (raw : Bytes)
    → (c ≡ 10) ⊎ (c ≡ 13)
    → Lacks c raw
    → Lacks c (format_stream_change_data q raw)
unfolding format_stream_change_data
payload-Lacks c q [] h lacks = format_int-Lacks c q (ground arith)
payload-Lacks c q (b ∷ raw) h lacks =
    All-append (λ x. x ≢ c) (format_int q) (b' ' ∷ b ∷ raw) (format_int-Lacks c q (ground arith))
      (ground arith, lacks)

event_lines :
    (id payload rest : Bytes)
    → Lacks 10 id × Lacks 13 id
    → Lacks 10 payload × Lacks 13 payload
    → scan_lines (
        (codes "id: " ++ id)
        ++ 10 ∷ (codes "event: change" ++ 10 ∷ ((codes "data: " ++ payload) ++ 10 ∷ 10 ∷ rest)))
      ≡ (codes "id: " ++ id)
        ∷ codes "event: change"
        ∷ (codes "data: " ++ payload)
        ∷ []
        ∷ scan_lines rest
event_lines id payload rest (a, b) (c, d) =
    let lacks =
      λ (x : ℕ) (p s : Bytes) (h : Lacks x p) (k : Lacks x s). All-append (λ y. y ≢ x) p s h k in
    rw (
      scan_lines-line (codes "id: " ++ id) _ (lacks 10 (codes "id: ") id (omega arith) a)
          (lacks 13 (codes "id: ") id (omega arith) b),
      scan_lines-line (codes "event: change") ((codes "data: " ++ payload) ++ 10 ∷ 10 ∷ rest)
          (omega arith) (omega arith),
      scan_lines-line (codes "data: " ++ payload) (10 ∷ rest)
          (lacks 10 (codes "data: ") payload (omega arith) c)
          (lacks 13 (codes "data: ") payload (omega arith) d),
      scan_lines-line [] rest tt tt,
    )

retry_text : format_uint client_reconnect_delay ≡ codes "3000"
unfolding format_uint
retry_text = refl

-- What is scanned of a chunk, before the text behind it.
pub scan_chunk :
    (reset_json : GapError → Option Bytes → Bytes) (c : Chunk) (rest : Bytes)
    → IsSendable c
    → scan_lines (chunk_text reset_json c ++ rest) ≡ chunk_lines c ++ scan_lines rest
unfolding chunk_text
scan_chunk reset_json (Chunk.reset reason state) rest h = elim h [ ]
scan_chunk reset_json Chunk.connected rest h = rw (
  retry_text,
  scan_lines-line (codes ": connected") (codes "retry: 3000" ++ 10 ∷ 10 ∷ rest) (omega arith)
      (omega arith),
  scan_lines-line (codes "retry: 3000") (10 ∷ rest) (omega arith) (omega arith),
  scan_lines-line [] rest tt tt,
)
scan_chunk reset_json Chunk.keepalive rest h = rw (
  scan_lines-line (codes ": keepalive") (10 ∷ rest) (omega arith) (omega arith),
  scan_lines-line [] rest tt tt,
)
scan_chunk reset_json (Chunk.change ev) rest (fits, given, (a, b), (c, d), _, _) =
    let payload = format_stream_change_data ev.qid ev.raw_mappings in
    let whole =
      event_lines ev.id payload rest (a, b)
        (
          payload-Lacks 10 ev.qid ev.raw_mappings (inl refl) c,
          payload-Lacks 13 ev.qid ev.raw_mappings (inr refl) d,
        ) in
    let text : (codes "id: " ++ ev.id ++ codes "\nevent: change\ndata: " ++ payload ++ codes "\n\n")
          ++ rest
        ≡ (codes "id: " ++ ev.id)
          ++ 10 ∷ (codes "event: change" ++ 10 ∷ ((codes "data: " ++ payload) ++ 10 ∷ 10 ∷ rest)) =
      simp append_assoc refl in
    rw text whole

module _ (s : Kvrocks) (version : Bytes) (state_of : Bytes → Bytes) where
  -- The changes one after another, each as one pipe, until one fails.
  unfoldable pub apply_changes : List ChangeEvent → s.Db → Option StoreError × s.Db
  apply_changes [] db = (none, db)
  apply_changes (ev ∷ evs) db =
      let (failed, db') = exec s (change_pipe ev.qid ev.raw_mappings ev.id) db in
      elim failed [ some e ↦ (some e, db') | none ↦ apply_changes evs db' ]

  abbrev pub ending : Bool → Option StoreError → StreamEnd
  ending failed none = if failed then StreamEnd.scan_failed else StreamEnd.closed
  ending failed (some e) = StreamEnd.store_failed e

  on_change_read :
      (id : Bytes) (q : ℤ) (raw : Bytes) (db : s.Db)
      → id ≢ []
      → IsInt64 q
      → on_change s version state_of id (format_stream_change_data q raw) db
        ≡ apply_change s version state_of id (q, raw) db
  unfolding on_change
  on_change_read [] q raw db given fits = absurd (given refl)
  on_change_read (c ∷ id) q raw db given fits =
      rw (on_change, parse-format_stream_change q fits raw)

  on_data_change :
      (id : Bytes) (q : ℤ) (raw : Bytes) (db : s.Db)
      → id ≢ []
      → IsInt64 q
      → on_data s version state_of (codes "change") id (format_stream_change_data q raw) db
        ≡ apply_change s version state_of id (q, raw) db
  unfolding on_data beq
  on_data_change id q raw db given fits = on_change_read id q raw db given fits

  -- The loop goes on behind a line of data, or ends with it.
  abbrev behind : List Bytes → Bool → Bytes → Bytes → Option StreamEnd × s.Db → StreamEnd × s.Db
  behind lines failed event_type event_id r = elim r.0 [
    | some e ↦ (e, r.1)
    | none ↦ follow_lines s version state_of lines failed event_type event_id r.1
  ]

  follow_data :
      (lines : List Bytes) (failed : Bool) (event_type event_id payload : Bytes) (db : s.Db)
      (r : Option StreamEnd × s.Db)
      → on_data s version state_of event_type event_id payload db ≡ r
      → follow_lines s version state_of
          ((codes "data: " ++ payload) ∷ lines)
          failed
          event_type
          event_id
          db
        ≡ behind lines failed event_type event_id r
  unfolding follow_lines classify_sse strip_prefix tag
  follow_data lines failed event_type event_id payload db r h =
      ap (behind lines failed event_type event_id) h

  -- What the loop does with the lines of a stream, without the limit of the scanner.
  pub follow_scanned :
      (reset_json : GapError → Option Bytes → Bytes) (chunks : List Chunk) (failed : Bool)
      (event_id : Bytes) (db : s.Db)
      → All IsSendable chunks
      → follow_lines s version state_of
          (scan_lines (stream_text reset_json chunks))
          failed
          []
          event_id
          db
        ≡ (
          ending failed (apply_changes (changes chunks) db).0,
          (apply_changes (changes chunks) db).1,
        )
  unfolding stream_text follow_lines apply_changes changes classify_sse strip_prefix tag
      apply_change
  follow_scanned reset_json [] failed event_id db h = unfold scan_lines in refl
  follow_scanned reset_json (Chunk.connected ∷ chunks) failed event_id db (h, hs) =
      rw (scan_chunk reset_json Chunk.connected (stream_text reset_json chunks) h)
        (follow_scanned reset_json chunks failed event_id db hs)
  follow_scanned reset_json (Chunk.keepalive ∷ chunks) failed event_id db (h, hs) =
      rw (scan_chunk reset_json Chunk.keepalive (stream_text reset_json chunks) h)
        (follow_scanned reset_json chunks failed event_id db hs)
  follow_scanned reset_json (Chunk.reset reason state ∷ chunks) failed event_id db (h, hs) =
      absurd h
  follow_scanned reset_json (Chunk.change ev ∷ chunks) failed event_id db (h, hs) =
      rw
        (
          scan_chunk reset_json (Chunk.change ev) (stream_text reset_json chunks) h,
          follow_lines,
          follow_data ([] ∷ scan_lines (stream_text reset_json chunks)) failed (codes "change")
              ev.id (format_stream_change_data ev.qid ev.raw_mappings) db
              (apply_change s version state_of ev.id (ev.qid, ev.raw_mappings) db)
              (on_data_change ev.id ev.qid ev.raw_mappings db h.1 h.0),
        )
        (elim (Option-cases (exec s (change_pipe ev.qid ev.raw_mappings ev.id) db).0) [
          | inr (e, f) ↦ rw (behind, apply_change, changes, apply_changes, f) refl
          | inl f ↦
              rw (behind, apply_change, changes, apply_changes, f)
                (follow_scanned reset_json chunks failed ev.id
                  (exec s (change_pipe ev.qid ev.raw_mappings ev.id) db).1 hs)
        ])
