-- ===== src/Httpencoding/Middleware/HeaderOnce.antt =====
-- How often the header of a compressed response is sent, whatever the encoder answers.
use wdxref.Base.{
  ℕ, ◌+◌, ◌≡◌, ◌≢◌, refl, Bool, true, false, List, [], ◌∷◌, ◌++◌, Bytes, beq, beq-eq-false,
  if◌then◌else◌, arith, Option, Bool-cases, inl, inr,
}
use wdxref.Httpencoding.{Floats, preferred, gzip}
use wdxref.Httpencoding.Middleware.{
  Call, set_header, send_header, flush_base, new_encoder, encode, close_encoder, reset_encoder,
  Encoders, HandlerCall, call_header_set, call_write_header, call_write, call_flush,
  CompressedWriter, Outcome, returned, failed, panicked, new_compressed_writer, header_calls,
  status_or_ok, write_header, ensure_header_and_writer, write, flush, close, handle, serve_calls,
  middleware, encoder_write, flush_encoder, carry_on, write_after, flush_after,
}

abbrev pub is_header : Call → ℕ
is_header (send_header code) = 1
is_header _ = 0

-- The calls of WriteHeader on the base writer.
abbrev pub headers_sent : List Call → ℕ
headers_sent [] = 0
headers_sent (c ∷ log) = is_header c + headers_sent log

sent-append :
    (log more : List Call) → headers_sent (log ++ more) ≡ headers_sent log + headers_sent more
sent-append [] more = omega arith
sent-append (c ∷ log) more = omega (arith, sent-append log more)

abbrev sent_as : Bool → ℕ
sent_as b = if b then 1 else 0

-- The flag says how often the header was sent.
abbrev IsCounted : CompressedWriter → Type 0
IsCounted w = headers_sent w.base ≡ sent_as w.header_sent

counted_more :
    (log more : List Call) (b : Bool)
    → headers_sent log ≡ sent_as b
    → headers_sent more ≡ 0
    → headers_sent (log ++ more) ≡ sent_as b
counted_more log more b h k = omega (arith, sent-append log more)

either_IsCounted :
    (b : Bool) (v w : CompressedWriter) → IsCounted v → IsCounted w → IsCounted (if b then v else w)
either_IsCounted true v w h k = h
either_IsCounted false v w h k = k

module _ (enc : Encoders) where
  ensure-IsCounted :
      (w : CompressedWriter) → IsCounted w → IsCounted (ensure_header_and_writer enc w).0
  unfolding ensure_header_and_writer
  ensure-IsCounted w h = elim (Bool-cases w.header_sent) [
    | inl sent ↦ let k : headers_sent w.base ≡ 1 = rw sent at h in rw sent k
    | inr fresh ↦
        let k : headers_sent w.base ≡ 0 = rw fresh at h in
        let once : headers_sent (w.base ++ header_calls w) ≡ 1 =
          omega (arith, k, sent-append w.base (header_calls w)) in
        let opened = counted_more _ (new_encoder w.encoding ∷ []) true once refl in
        elim (Bool-cases (beq w.encoding gzip)) [
          | inl is ↦ rw (fresh, is) opened
          | inr other ↦ elim (Bool-cases (enc.opens (w.base ++ header_calls w))) [
            | inl opens ↦ rw (fresh, other, opens) opened
            | inr fails ↦ rw (fresh, other, fails) once
          ]
        ]
  ]

  encoder_write-IsCounted :
      (p : Bytes) (w : CompressedWriter) → IsCounted w → IsCounted (encoder_write enc p w).0
  encoder_write-IsCounted p w h = elim (Bool-cases w.writer) [
    | inl there ↦ rw there (counted_more w.base (encode p ∷ []) w.header_sent h refl)
    | inr absent ↦ rw absent h
  ]

  flush_encoder-IsCounted : (w : CompressedWriter) → IsCounted w → IsCounted (flush_encoder enc w)
  flush_encoder-IsCounted w h =
      let b = w.header_sent in
      let closed = counted_more w.base (close_encoder ∷ []) b h refl in
      let flushed = counted_more _ (flush_base ∷ []) b closed refl in
      elim (Bool-cases w.writer) [
        | inl there ↦ elim (Bool-cases (enc.closes w.base)) [
          | inl closes ↦ rw (there, closes) (counted_more _ (reset_encoder ∷ []) b flushed refl)
          | inr fails ↦ rw (there, fails) closed
        ]
        | inr absent ↦ rw absent (counted_more w.base (flush_base ∷ []) b h refl)
      ]

  write-IsCounted : (p : Bytes) (w : CompressedWriter) → IsCounted w → IsCounted (write enc p w).0
  unfolding write
  write-IsCounted p w h = go (ensure_header_and_writer enc w) (ensure-IsCounted w h)
    where
      go : (r : CompressedWriter × Outcome) → IsCounted r.0 → IsCounted (write_after enc p r).0
      go (v, failed) k = k
      go (v, returned) k = encoder_write-IsCounted p v k
      go (v, panicked) k = encoder_write-IsCounted p v k

  flush-IsCounted : (w : CompressedWriter) → IsCounted w → IsCounted (flush enc w)
  unfolding flush
  flush-IsCounted w h =
      either_IsCounted w.flusher _ w (go (ensure_header_and_writer enc w) (ensure-IsCounted w h)) h
    where
      go : (r : CompressedWriter × Outcome) → IsCounted r.0 → IsCounted (flush_after enc r)
      go (v, failed) k = k
      go (v, returned) k = flush_encoder-IsCounted v k
      go (v, panicked) k = flush_encoder-IsCounted v k

  handle-IsCounted :
      (c : HandlerCall) (w : CompressedWriter) → IsCounted w → IsCounted (handle enc c w).0
  unfolding handle write_header
  handle-IsCounted (call_header_set k v) w h =
      counted_more w.base (set_header k v ∷ []) w.header_sent h refl
  handle-IsCounted (call_write_header code) w h = elim (Bool-cases w.header_sent) [
    | inl sent ↦ let k : headers_sent w.base ≡ 1 = rw sent at h in rw sent k
    | inr fresh ↦ let k : headers_sent w.base ≡ 0 = rw fresh at h in rw fresh k
  ]
  handle-IsCounted (call_write p) w h = write-IsCounted p w h
  handle-IsCounted call_flush w h = flush-IsCounted w h

  serve-IsCounted :
      (cs : List HandlerCall) (w : CompressedWriter)
      → IsCounted w
      → IsCounted (serve_calls enc cs w)
  unfolding serve_calls
  serve-IsCounted [] w h = h
  serve-IsCounted (c ∷ cs) w h = go (handle enc c w) (handle-IsCounted c w h) (serve-IsCounted cs)
    where
      go :
          (r : CompressedWriter × Outcome)
          → IsCounted r.0
          → ((v : CompressedWriter) → IsCounted v → IsCounted (serve_calls enc cs v))
          → IsCounted (carry_on (serve_calls enc cs) r)
      go (v, returned) k ih = ih v k
      go (v, failed) k ih = ih v k
      go (v, panicked) k ih = k

  close-sent : (w : CompressedWriter) → IsCounted w → headers_sent (close w).base ≡ 1
  unfolding close
  close-sent w h = elim (Bool-cases w.header_sent) [
    | inl sent ↦
        let k : headers_sent w.base ≡ 1 = rw sent at h in
        elim (Bool-cases w.writer) [
          | inl there ↦ rw (sent, there) (counted_more w.base (close_encoder ∷ []) true k refl)
          | inr absent ↦ rw (sent, absent) k
        ]
    | inr fresh ↦
        let k : headers_sent w.base ≡ 0 = rw fresh at h in
        rw fresh
          (omega (arith, k, sent-append w.base (send_header (status_or_ok w.status_code) ∷ [])))
  ]

-- A compressed response has exactly one header, whatever the handler calls, whether or not it panics
-- or the encoder returns errors.
pub middleware-header_once :
    (f : Floats) (enc : Encoders) (encodings : Option (List Bytes)) (flusher : Bool)
    (values : List Bytes) (cs : List HandlerCall)
    → preferred f values encodings ≢ []
    → headers_sent (middleware f enc encodings flusher values cs) ≡ 1
unfolding middleware
middleware-header_once f enc encodings flusher values cs h =
    let encoding = preferred f values encodings in
    let full : beq encoding [] ≡ false = beq-eq-false encoding [] h in
    rw full (
      close-sent enc (serve_calls enc cs (new_compressed_writer [] flusher encoding))
        (serve-IsCounted enc cs (new_compressed_writer [] flusher encoding) refl))
