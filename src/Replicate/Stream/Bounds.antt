-- ===== src/Replicate/Stream/Bounds.antt =====
-- The limits on the options of a stream request, in parseStreamRequestOptions of
-- internal/replicate/stream.go.
use wdxref.Base.{
  ◌≤◌, ◌<◌, ◌≡◌, Option, none, some, List, [], ◌∷◌, arith, Bytes, Bool-cases, Option-cases,
  Result-cases, inl, inr, leb, ok,
}
use wdxref.Base.Int.{ℤ, pos, pos_part, ltb_ℤ, ◌≤ℤ◌}
use wdxref.Strconv.{parse_int, checked}
use wdxref.Replicate.Stream.{
  StreamRequest, StreamLimits, StreamOptions, read_limit, read_timeout, min_ℤ,
  parse_stream_request_options,
}

read_limit-IsBounded :
    (raw : Bytes) (most limit : ℤ)
    → 0 < pos_part most
    → read_limit raw most ≡ ok limit
    → (0 < pos_part limit) × (pos_part limit ≤ pos_part most)
unfolding read_limit min_ℤ
read_limit-IsBounded [] most limit h e = ground arith
read_limit-IsBounded (c ∷ raw) most limit h e =
    elim (Result-cases (checked (parse_int (c ∷ raw)))) [
      | inr (bad, f) ↦ absurd (ground (arith, rw (read_limit, f) at e))
      | inl (requested, f) ↦ ground (arith, rw (read_limit, f) at e)
    ]

module _ (parse_duration : Bytes → Option ℤ) where
  read_timeout-IsBounded :
      (raw : Option (List Bytes)) (most timeout : ℤ)
      → pos 0 ≤ℤ most
      → read_timeout parse_duration raw most ≡ ok timeout
      → (pos 0 ≤ℤ timeout) × (timeout ≤ℤ most)
  unfolding read_timeout min_ℤ
  read_timeout-IsBounded none most timeout h e = ground arith
  read_timeout-IsBounded (some []) most timeout h e = absurd (ground arith)
  read_timeout-IsBounded (some (raw ∷ r ∷ raws)) most timeout h e = absurd (ground arith)
  read_timeout-IsBounded (some (raw ∷ [])) most timeout h e =
      elim (Option-cases (parse_duration raw)) [
        | inl f ↦ absurd (ground (arith, rw f at e))
        | inr (requested, f) ↦ ground (arith, rw f at e)
      ]

  -- The options that a request is served with: the limit of events is positive and at most the server's
  -- maximum, and the timeout is not negative and at most the server's maximum.
  pub options-IsBounded :
      (r : StreamRequest) (limits : StreamLimits) (options : StreamOptions)
      → parse_stream_request_options parse_duration r limits ≡ ok options
      → (0 < pos_part options.limit)
        × (pos_part options.limit ≤ pos_part limits.max_events)
        × (pos 0 ≤ℤ options.timeout)
        × (options.timeout ≤ℤ limits.max_timeout)
  unfolding parse_stream_request_options
  options-IsBounded r limits options run = elim (Bool-cases (leb (pos_part limits.max_events) 0)) [
    | inl a ↦ absurd (ground (arith, rw a at run))
    | inr a ↦ elim (Bool-cases (ltb_ℤ limits.max_timeout (pos 0))) [
      | inl b ↦ absurd (ground (arith, rw (a, b) at run))
      | inr b ↦ elim (Result-cases (read_limit r.limit limits.max_events)) [
        | inr (bad, c) ↦ absurd (ground (arith, rw (a, b, c) at run))
        | inl (limit, c) ↦
            elim (Result-cases (read_timeout parse_duration r.timeout limits.max_timeout)) [
              | inr (bad, d) ↦ absurd (ground (arith, rw (a, b, c, d) at run))
              | inl (timeout, d) ↦
                  let l = read_limit-IsBounded r.limit limits.max_events limit (ground arith) c in
                  let t =
                    read_timeout-IsBounded r.timeout limits.max_timeout timeout (ground arith) d in
                  let same = rw (a, b, c, d) at run in ground (arith, same, l, t)
            ]
      ]
    ]
  ]
