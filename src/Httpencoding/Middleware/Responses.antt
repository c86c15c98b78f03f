-- ===== src/Httpencoding/Middleware/Responses.antt =====
-- The response that a compressed handler makes, and its header, which is sent once.
use wdxref.Base.{
  ℕ, ◌≡◌, ◌≢◌, refl, ap, ◌∙◌, Bool, true, false, List, [], ◌∷◌, ◌++◌, Bytes, codes, beq,
  beq-eq-false, if◌then◌else◌, append_assoc, append-nil, Option, Bool-cases, inl, inr,
}
use wdxref.Httpencoding.{Floats, preferred, gzip}
use wdxref.Httpencoding.Middleware.{
  Call, add_header, set_header, del_header, send_header, flush_base, new_encoder, encode,
  close_encoder, reset_encoder, Encoders, HandlerCall, call_header_set, call_write_header,
  call_write, call_flush, CompressedWriter, Outcome, returned, failed, panicked, status_or_ok,
  write_header, ensure_header_and_writer, write, flush, close, handle, serve_calls, middleware,
  carry_on, write_after, flush_after, header_calls,
}

-- A call after the header: what the handler writes goes through the encoder, which a flush ends and
-- starts again.
abbrev pub body_call : Bool → HandlerCall → List Call
body_call flusher (call_header_set k v) = set_header k v ∷ []
body_call flusher (call_write_header code) = []
body_call flusher (call_write p) = encode p ∷ []
body_call flusher call_flush =
    if flusher then close_encoder ∷ flush_base ∷ reset_encoder ∷ [] else []

abbrev pub body : Bool → List HandlerCall → List Call
body flusher [] = close_encoder ∷ []
body flusher (c ∷ cs) = body_call flusher c ++ body flusher cs

-- The header of a compressed response.
abbrev pub compressed_header : Bytes → ℕ → List Call
compressed_header encoding code =
    add_header (codes "Vary") (codes "Accept-Encoding")
    ∷ set_header (codes "Content-Encoding") encoding
    ∷ del_header (codes "Content-Length")
    ∷ send_header (status_or_ok code)
    ∷ new_encoder encoding
    ∷ []

-- The whole response: the header goes out with the first write or flush and with the status set by
-- then, and without either it is a plain header with no body.
abbrev pub response : Bytes → Bool → ℕ → List HandlerCall → List Call
response encoding flusher code [] = send_header (status_or_ok code) ∷ []
response encoding flusher code (call_header_set k v ∷ cs) =
    set_header k v ∷ response encoding flusher code cs
response encoding flusher code (call_write_header next ∷ cs) = response encoding flusher next cs
response encoding flusher code (call_write p ∷ cs) =
    compressed_header encoding code ++ body flusher (call_write p ∷ cs)
response encoding flusher code (call_flush ∷ cs) =
    let rest = response encoding flusher code cs in
    if flusher then compressed_header encoding code ++ body flusher (call_flush ∷ cs) else rest

abbrev open_writer : List Call → Bool → ℕ → Bytes → CompressedWriter
open_writer log flusher code encoding = record {
  base = log;
  flusher = flusher;
  status_code = code;
  header_sent = true;
  encoding = encoding;
  writer = true;
}

abbrev fresh_writer : List Call → Bool → ℕ → Bytes → CompressedWriter
fresh_writer log flusher code encoding = record {
  base = log;
  flusher = flusher;
  status_code = code;
  header_sent = false;
  encoding = encoding;
  writer = false;
}

carry_on_lem :
    (rest : CompressedWriter → CompressedWriter) (r : CompressedWriter × Outcome)
    → r.1 ≢ panicked
    → carry_on rest r ≡ rest r.0
carry_on_lem rest (w, returned) h = refl
carry_on_lem rest (w, failed) h = refl
carry_on_lem rest (w, panicked) h = absurd (h refl)

answer_no_panic : (b : Bool) → (if b then returned else failed) ≢ panicked
answer_no_panic true h = cc
answer_no_panic false h = cc

module _ (enc : Encoders) (opens : (log : List Call) → enc.opens log ≡ true)
    (closes : (log : List Call) → enc.closes log ≡ true) where
  handle-open :
      (c : HandlerCall) (log : List Call) (flusher : Bool) (code : ℕ) (encoding : Bytes)
      → ((handle enc c (open_writer log flusher code encoding)).0
          ≡ open_writer (log ++ body_call flusher c) flusher code encoding)
        × ((handle enc c (open_writer log flusher code encoding)).1 ≢ panicked)
  unfolding handle write_header write flush ensure_header_and_writer
  handle-open (call_header_set k v) log flusher code encoding = (refl, λ h. cc)
  handle-open (call_write_header next) log flusher code encoding = (rw append-nil, λ h. cc)
  handle-open (call_write p) log flusher code encoding = (refl, answer_no_panic (enc.encodes log p))
  handle-open call_flush log true code encoding = (
    rw (closes log) (
        ap (λ l. open_writer l true code encoding)
          (append_assoc (log ++ close_encoder ∷ []) _ _ ∙ append_assoc log _ _)),
    λ h. cc,
  )
  handle-open call_flush log false code encoding = (rw append-nil, λ h. cc)

  serve-body :
      (cs : List HandlerCall) (log : List Call) (flusher : Bool) (code : ℕ) (encoding : Bytes)
      → (close (serve_calls enc cs (open_writer log flusher code encoding))).base
        ≡ log ++ body flusher cs
  unfolding close serve_calls
  serve-body [] log flusher code encoding = refl
  serve-body (c ∷ cs) log flusher code encoding =
      let (next, no_panic) = handle-open c log flusher code encoding in
      let goes_on = carry_on_lem (serve_calls enc cs) _ no_panic in
      let ih = serve-body cs (log ++ body_call flusher c) flusher code encoding in
      ap (λ w. (close w).base) (goes_on ∙ ap (serve_calls enc cs) next)
      ∙ ih
      ∙ append_assoc log (body_call flusher c) (body flusher cs)

  ensure-fresh :
      (log : List Call) (flusher : Bool) (code : ℕ) (encoding : Bytes)
      → ensure_header_and_writer enc (fresh_writer log flusher code encoding) ≡ (
        open_writer (log ++ compressed_header encoding code) flusher (status_or_ok code) encoding,
        returned,
      )
  unfolding ensure_header_and_writer
  ensure-fresh log flusher code encoding =
      let same =
        append_assoc log (header_calls (fresh_writer log flusher code encoding))
          (new_encoder encoding ∷ []) in
      elim (Bool-cases (beq encoding gzip)) [
        | inl is ↦ rw (is, same) refl
        | inr other ↦ rw (other, opens, same) refl
      ]

  handle-fresh_write :
      (p : Bytes) (log : List Call) (flusher : Bool) (code : ℕ) (encoding : Bytes)
      → handle enc (call_write p) (fresh_writer log flusher code encoding)
        ≡ handle enc (call_write p) (
            open_writer
              (log ++ compressed_header encoding code)
              flusher
              (status_or_ok code)
              encoding)
  unfolding handle write ensure_header_and_writer
  handle-fresh_write p log flusher code encoding =
      ap (write_after enc p) (ensure-fresh log flusher code encoding)

  handle-fresh_flush :
      (log : List Call) (code : ℕ) (encoding : Bytes)
      → handle enc call_flush (fresh_writer log true code encoding)
        ≡ handle enc call_flush
            (open_writer (log ++ compressed_header encoding code) true (status_or_ok code) encoding)
  unfolding handle flush ensure_header_and_writer
  handle-fresh_flush log code encoding =
      ap (λ r. (flush_after enc r, returned)) (ensure-fresh log true code encoding)

  -- The call that sends the header: from there on the writer is an open one.
  serve-commit :
      (c : HandlerCall) (cs : List HandlerCall) (log : List Call) (flusher : Bool) (code : ℕ)
      (encoding : Bytes)
      → handle enc c (fresh_writer log flusher code encoding)
        ≡ handle enc c (
            open_writer
              (log ++ compressed_header encoding code)
              flusher
              (status_or_ok code)
              encoding)
      → (close (serve_calls enc (c ∷ cs) (fresh_writer log flusher code encoding))).base
        ≡ log ++ (compressed_header encoding code ++ body flusher (c ∷ cs))
  serve-commit c cs log flusher code encoding same =
      let header = compressed_header encoding code in
      let step : serve_calls enc (c ∷ cs) (fresh_writer log flusher code encoding)
          ≡ serve_calls enc (c ∷ cs)
              (open_writer (log ++ header) flusher (status_or_ok code) encoding) =
        unfold serve_calls in ap (carry_on (serve_calls enc cs)) same in
      rw step (
        serve-body (c ∷ cs) (log ++ header) flusher (status_or_ok code) encoding
        ∙ append_assoc log header (body flusher (c ∷ cs)))

  serve-response :
      (cs : List HandlerCall) (log : List Call) (flusher : Bool) (code : ℕ) (encoding : Bytes)
      → (close (serve_calls enc cs (fresh_writer log flusher code encoding))).base
        ≡ log ++ response encoding flusher code cs
  unfolding close serve_calls handle write_header flush
  serve-response [] log flusher code encoding = refl
  serve-response (call_header_set k v ∷ cs) log flusher code encoding =
      serve-response cs (log ++ set_header k v ∷ []) flusher code encoding ∙ append_assoc log _ _
  serve-response (call_write_header next ∷ cs) log flusher code encoding =
      serve-response cs log flusher next encoding
  serve-response (call_write p ∷ cs) log flusher code encoding =
      serve-commit (call_write p) cs log flusher code encoding
        (handle-fresh_write p log flusher code encoding)
  serve-response (call_flush ∷ cs) log true code encoding =
      serve-commit call_flush cs log true code encoding (handle-fresh_flush log code encoding)
  serve-response (call_flush ∷ cs) log false code encoding =
      serve-response cs log false code encoding

-- When the request accepts an encoding, and the encoder opens and closes without errors, the calls
-- that reach the base writer are those of `response`: one header, with the status that the handler
-- set before its first write or flush, 200 if it set none, then all that it writes through the
-- encoder, in order, which every flush ends and the end of the request closes.
pub middleware-response :
    (f : Floats) (enc : Encoders)
    → ((log : List Call) → enc.opens log ≡ true)
    → ((log : List Call) → enc.closes log ≡ true)
    → (encodings : Option (List Bytes)) (flusher : Bool) (values : List Bytes)
      (cs : List HandlerCall)
    → preferred f values encodings ≢ []
    → middleware f enc encodings flusher values cs
      ≡ response (preferred f values encodings) flusher 0 cs
unfolding middleware
middleware-response f enc opens closes encodings flusher values cs h =
    let encoding = preferred f values encodings in
    let full : beq encoding [] ≡ false = beq-eq-false encoding [] h in
    rw full (serve-response enc opens closes cs [] flusher 0 encoding)
