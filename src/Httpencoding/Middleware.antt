-- ===== src/Httpencoding/Middleware.antt =====
-- internal/httpencoding/middleware.go: the writer that compresses a response. The response below it and
-- its encoder are a log of the calls that reach them. What an encoder answers may depend on all calls
-- before: `Encoders`. A handler is the sequence of its calls.
pub mod Responses
pub mod HeaderOnce
use wdxref.Base.{
  ℕ, suc, ◌≡◌, refl, Bool, true, false, Option, none, some, List, [], ◌∷◌, ◌++◌, Bytes, codes, ◌==◌,
  beq, if◌then◌else◌,
}
use wdxref.Httpencoding.{Floats, preferred, gzip, zstd}

-- The calls on the base writer and on the encoder, in order.
pub data Call : Type 0 where
  add_header : Bytes → Bytes → Call
  set_header : Bytes → Bytes → Call
  del_header : Bytes → Call
  send_header : ℕ → Call
  send_plain : Bytes → Call
  flush_base : Call
  new_encoder : Bytes → Call
  encode : Bytes → Call
  close_encoder : Call
  reset_encoder : Call

-- gzip.Writer and zstd.Encoder: whether a call succeeds after the calls so far; zstd.NewWriter returns
-- an error or not.
pub record Encoders : Type 0 where
  pub opens : List Call → Bool
  pub encodes : List Call → Bytes → Bool
  pub closes : List Call → Bool

-- What a handler calls on its http.ResponseWriter.
pub data HandlerCall : Type 0 where
  call_header_set : Bytes → Bytes → HandlerCall
  call_write_header : ℕ → HandlerCall
  call_write : Bytes → HandlerCall
  call_flush : HandlerCall

-- compressedWriter; `base` is the log, `flusher` whether the base writer flushes, `writer` whether the
-- encoder is there.
pub record CompressedWriter : Type 0 where
  pub base : List Call
  pub flusher : Bool
  pub status_code : ℕ
  pub header_sent : Bool
  pub encoding : Bytes
  pub writer : Bool

-- The results of the methods: an error of the encoder is `failed`; a call of the missing encoder
-- panics.
pub data Outcome : Type 0 where
  returned : Outcome
  failed : Outcome
  panicked : Outcome

abbrev call : Call → CompressedWriter → CompressedWriter
call c w = record w { base = w.base ++ c ∷ [] }

-- newCompressedWriter
abbrev pub new_compressed_writer : List Call → Bool → Bytes → CompressedWriter
new_compressed_writer log flusher encoding = record {
  base = log;
  flusher = flusher;
  status_code = 0;
  header_sent = false;
  encoding = encoding;
  writer = false;
}

abbrev pub status_or_ok : ℕ → ℕ
status_or_ok code = if code == 0 then 200 else code

-- WriteHeader
unfoldable pub write_header : ℕ → CompressedWriter → CompressedWriter
write_header code w = if w.header_sent then w else record w { status_code = code }

-- The calls that ensureHeaderAndWriter makes before it opens an encoder.
abbrev pub header_calls : CompressedWriter → List Call
header_calls w =
    add_header (codes "Vary") (codes "Accept-Encoding")
    ∷ set_header (codes "Content-Encoding") w.encoding
    ∷ del_header (codes "Content-Length")
    ∷ send_header (status_or_ok w.status_code)
    ∷ []

module _ (enc : Encoders) where
  -- ensureHeaderAndWriter; gzip.NewWriter has no error.
  unfoldable pub ensure_header_and_writer : CompressedWriter → CompressedWriter × Outcome
  unfolding beq
  ensure_header_and_writer w =
      let sent = record w {
        base = w.base ++ header_calls w;
        status_code = status_or_ok w.status_code;
        header_sent = true;
      } in
      let opened = record (call (new_encoder w.encoding) sent) { writer = true } in
      if w.header_sent
      then (w, returned)
      else if beq w.encoding gzip
      then (opened, returned)
      else if enc.opens sent.base
      then (opened, returned)
      else (sent, failed)

  -- w.writer.Write
  abbrev encoder_write : Bytes → CompressedWriter → CompressedWriter × Outcome
  encoder_write p w =
      if w.writer
      then (call (encode p) w, if enc.encodes w.base p then returned else failed)
      else (w, panicked)

  abbrev write_after : Bytes → CompressedWriter × Outcome → CompressedWriter × Outcome
  write_after p (ready, failed) = (ready, failed)
  write_after p (ready, _) = encoder_write p ready

  -- Write
  unfoldable pub write : Bytes → CompressedWriter → CompressedWriter × Outcome
  unfolding ensure_header_and_writer
  write p w = write_after p (ensure_header_and_writer w)

  -- w.writer.Close, then the flush of the base writer and the reset of the encoder.
  abbrev flush_encoder : CompressedWriter → CompressedWriter
  flush_encoder w =
      let closed = call close_encoder w in
      if w.writer
      then if enc.closes w.base then call reset_encoder (call flush_base closed) else closed
      else call flush_base w

  abbrev flush_after : CompressedWriter × Outcome → CompressedWriter
  flush_after (ready, failed) = ready
  flush_after (ready, _) = flush_encoder ready

  -- Flush
  unfoldable pub flush : CompressedWriter → CompressedWriter
  unfolding ensure_header_and_writer
  flush w = if w.flusher then flush_after (ensure_header_and_writer w) else w

-- Close
unfoldable pub close : CompressedWriter → CompressedWriter
close w =
    let code = status_or_ok w.status_code in
    if w.header_sent
    then if w.writer then call close_encoder w else w
    else record (call (send_header code) w) { status_code = code; header_sent = true }

-- One call of the handler on the writer; Flush is there only when the base writer flushes.
unfoldable pub handle : Encoders → HandlerCall → CompressedWriter → CompressedWriter × Outcome
unfolding write_header write flush
handle enc (call_header_set k v) w = (call (set_header k v) w, returned)
handle enc (call_write_header code) w = (write_header code w, returned)
handle enc (call_write p) w = write enc p w
handle enc call_flush w = (flush enc w, returned)

-- After a panic nothing more of the handler runs; errors of Write are its own affair.
abbrev pub carry_on :
    (CompressedWriter → CompressedWriter) → CompressedWriter × Outcome → CompressedWriter
carry_on rest (next, panicked) = next
carry_on rest (next, _) = rest next

-- The handler runs to its end, or to a panic.
unfoldable pub serve_calls : Encoders → List HandlerCall → CompressedWriter → CompressedWriter
unfolding handle
serve_calls enc [] w = w
serve_calls enc (c ∷ cs) w = carry_on (serve_calls enc cs) (handle enc c w)

-- The same calls on the writer that is not wrapped.
abbrev pub plain_call : Bool → HandlerCall → List Call
plain_call flusher (call_header_set k v) = set_header k v ∷ []
plain_call flusher (call_write_header code) = send_header code ∷ []
plain_call flusher (call_write p) = send_plain p ∷ []
plain_call flusher call_flush = if flusher then flush_base ∷ [] else []

abbrev pub plain_calls : Bool → List HandlerCall → List Call
plain_calls flusher [] = []
plain_calls flusher (c ∷ cs) = plain_call flusher c ++ plain_calls flusher cs

-- Middleware: the calls that reach the base writer when a request has these Accept-Encoding values. The
-- deferred Close runs after a panic too.
unfoldable pub middleware :
    Floats → Encoders → Option (List Bytes) → Bool → List Bytes → List HandlerCall → List Call
unfolding preferred serve_calls close
middleware f enc encodings flusher values cs =
    let encoding = preferred f values encodings in
    if beq encoding []
    then plain_calls flusher cs
    else (close (serve_calls enc cs (new_compressed_writer [] flusher encoding))).base
