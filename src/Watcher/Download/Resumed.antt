-- ===== src/Watcher/Download/Resumed.antt =====
-- What a download delivers, and how long it goes on without progress.
use wdxref.Base.{
  sym, ◌++◌, append_assoc, ℕ, zero, suc, ◌+◌, ◌*◌, ◌^◌, ◌≡◌, ◌≤◌, ◌<◌, min, refl, ap, ◌∙◌, List, [],
  ◌∷◌, Bytes, beq, ltb, ◌==◌, length, All, ok, err, arith, Bool-cases, inl, inr, ◌⊎◌, ◌||◌,
}
use wdxref.Watcher.Download.{
  chunk, arrived, ended, Reconnect, Arrival, broken, DownloadError, context_error, create_request,
  resume_request, dump_changed, range_unsupported, bad_resume_status, connection_lost,
  wait_cancelled, request_failed, no_response, responded, too_many_retries, read_on, ResumableBody,
  new_resumable_body, resume_with, reconnect, ReadEnd, more, end_of_file, failed, advance, resumed,
  read, read_all, dump_resume_base_delay, dump_resume_max_delay, dump_resume_retry_delay,
  resume_delay_loop,
}

two_pow_suc : (n m : ℕ) → m * 2 ^ suc n ≡ (m * 2) * 2 ^ n
two_pow_suc n m = grind arith

grows : (n m : ℕ) → m ≤ m * 2 ^ n
grows zero m = omega arith
grows (suc n) m = omega (arith, grows n (m * 2), two_pow_suc n m)

-- The loop doubles the delay once a round, up to the maximum.
loop-doubled :
    (rounds delay : ℕ)
    → delay ≤ dump_resume_max_delay
    → resume_delay_loop rounds delay ≡ min (delay * 2 ^ rounds) dump_resume_max_delay
unfolding resume_delay_loop
loop-doubled zero delay h = omega arith
loop-doubled (suc rounds) delay h =
    ground
      (arith, loop-doubled rounds (delay * 2), two_pow_suc rounds delay, grows rounds (delay * 2))

-- The delay before a resume request is five seconds, doubled once for each retry before it, and at most
-- two minutes.
pub dump_resume_retry_delay_lem :
    (retries : ℕ)
    → dump_resume_retry_delay (suc retries)
      ≡ min (dump_resume_base_delay * 2 ^ retries) dump_resume_max_delay
unfolding dump_resume_retry_delay
dump_resume_retry_delay_lem retries =
    ap (λ n. resume_delay_loop n dump_resume_base_delay) (omega arith)
    ∙ loop-doubled retries dump_resume_base_delay (omega arith)

-- A break of the connection before any byte arrives.
abbrev pub IsFruitless : Arrival → Type 0
IsFruitless a = (reply : Reconnect) × (a ≡ broken 0 reply)

-- A resume request fails, or the connection starts again at the offset.
pub resume_cases :
    (reply : Reconnect) (rb : ResumableBody)
    → ((e : DownloadError) × (resume_with reply rb ≡ err e))
      ⊎ (resume_with reply rb ≡ ok (record rb { at = rb.offset }))
unfolding resume_with
resume_cases wait_cancelled rb = inl (context_error, refl)
resume_cases request_failed rb = inl (create_request, refl)
resume_cases no_response rb = inl (resume_request, refl)
resume_cases (responded status) rb = elim (Bool-cases (status == 206)) [
  | inl partial ↦ inr (rw partial refl)
  | inr a ↦ elim (Bool-cases (status == 412 || (status == 416))) [
    | inl changed ↦ inl (dump_changed, rw (a, changed) refl)
    | inr b ↦ elim (Bool-cases (status == 200)) [
      | inl whole ↦ inl (range_unsupported, rw (a, b, whole) refl)
      | inr c ↦ inl (bad_resume_status status, rw (a, b, c) refl)
    ]
  ]
]

-- Reconnecting fails, or leaves the offset and counts one retry, of which there were less than ten.
reconnect_cases :
    (reply : Reconnect) (rb : ResumableBody)
    → ((e : DownloadError) × ((resumed (reconnect reply rb)).0 ≡ failed e))
      ⊎ ((resumed (reconnect reply rb)
            ≡ (more, record rb { at = rb.offset; retries = rb.retries + 1 }))
          × (rb.retries < 10))
unfolding reconnect
reconnect_cases reply rb =
    let counted = record rb { retries = rb.retries + 1 } in
    elim (Bool-cases (ltb 10 (rb.retries + 1))) [
      | inl many ↦ inl (too_many_retries, rw many refl)
      | inr few ↦ elim (resume_cases reply counted) [
        | inl (e, fails) ↦ inl (e, rw (few, fails) refl)
        | inr resumes ↦ inr (rw (few, resumes) refl, ground arith)
      ]
    ]

module _ (file : Bytes) where
  fruitless_read :
      (reply : Reconnect) (rb : ResumableBody)
      → ((e : DownloadError) × ((read file (broken 0 reply) rb).1 ≡ failed e))
        ⊎ (((read file (broken 0 reply) rb).1 ≡ more)
            × ((read file (broken 0 reply) rb).2.retries ≡ rb.retries + 1)
            × (rb.retries < 10))
  unfolding read
  fruitless_read reply rb = elim (Bool-cases (beq rb.etag [])) [
    | inl none_given ↦ inl (connection_lost, rw none_given refl)
    | inr given ↦ elim (reconnect_cases reply (advance [] rb)) [
      | inl (e, fails) ↦ inl (e, rw given fails)
      | inr (resumes, few) ↦
          inr (rw given (ap (λ r. r.0) resumes), rw given (ap (λ r. r.1.retries) resumes), few)
    ]
  ]

  -- What follows a read that goes on.
  read_on-more :
      (rest : ResumableBody → Bytes × ReadEnd × ResumableBody) (r : Bytes × ReadEnd × ResumableBody)
      → r.1 ≡ more
      → (read_on rest r).1 ≡ (rest r.2).1
  read_on-more rest (p, more, next) h = refl
  read_on-more rest (p, end_of_file, next) h = absurd cc
  read_on-more rest (p, failed e, next) h = absurd cc

  read_on-ended :
      (rest : ResumableBody → Bytes × ReadEnd × ResumableBody) (r : Bytes × ReadEnd × ResumableBody)
      → r.1 ≡ end_of_file
      → (read_on rest r).1 ≡ end_of_file
  read_on-ended rest (p, more, next) h = absurd cc
  read_on-ended rest (p, end_of_file, next) h = h
  read_on-ended rest (p, failed e, next) h = absurd cc

  read_on-failed :
      (rest : ResumableBody → Bytes × ReadEnd × ResumableBody) (r : Bytes × ReadEnd × ResumableBody)
      (e : DownloadError)
      → r.1 ≡ failed e
      → (read_on rest r).1 ≡ failed e
  read_on-failed rest (p, more, next) e h = absurd cc
  read_on-failed rest (p, end_of_file, next) e h = h
  read_on-failed rest (p, failed d, next) e h = h

  fruitless_end :
      (breaks rest : List Arrival) (rb : ResumableBody)
      → All IsFruitless breaks
      → 10 < length breaks + rb.retries
      → rb.retries ≤ 10
      → (e : DownloadError) × ((read_all file (breaks ++ rest) rb).1 ≡ failed e)
  unfolding read_all
  fruitless_end [] rest rb _ h k = absurd (omega arith)
  fruitless_end (a ∷ breaks) rest rb ((reply, same), more_of_them) h k =
      elim (fruitless_read reply rb) [
        | inl (e, fails) ↦ (e, rw same (read_on-failed (read_all file (breaks ++ rest)) _ e fails))
        | inr (goes_on, counts, few) ↦
            let next = (read file (broken 0 reply) rb).2 in
            let (e, ends) =
              fruitless_end breaks rest next more_of_them (omega (arith, counts))
                (omega (arith, counts)) in
            (e, rw same (read_on-more (read_all file (breaks ++ rest)) _ goes_on ∙ ends))
      ]

  -- A read that goes on leaves at most ten retries.
  read_retries :
      (a : Arrival) (rb : ResumableBody)
      → rb.retries ≤ 10
      → (read file a rb).1 ≡ more
      → (read file a rb).2.retries ≤ 10
  unfolding read
  read_retries (arrived n) rb h k = ground arith
  read_retries (ended n) rb h k = absurd cc
  read_retries (broken n reply) rb h k = elim (Bool-cases (beq rb.etag [])) [
    | inl none_given ↦ absurd (let e = rw none_given at k in cc)
    | inr given ↦ elim (reconnect_cases reply (advance (chunk file n rb) rb)) [
      | inl (e, fails) ↦ absurd (let g = rw given at k in cc)
      | inr (resumes, few) ↦
          rw given (let c = ap (λ r. r.1.retries) resumes in omega (arith, c, few))
    ]
  ]

  -- Reads that go on may be followed by others.
  read_all-append :
      (front rest : List Arrival) (rb : ResumableBody)
      → rb.retries ≤ 10
      → (read_all file front rb).1 ≡ more
      → (mid : ResumableBody) × (mid.retries ≤ 10)
        × ((read_all file (front ++ rest) rb).1 ≡ (read_all file rest mid).1)
  unfolding read_all
  read_all-append [] rest rb h k = (rb, h, refl)
  read_all-append (a ∷ front) rest rb h k =
      by_end (λ few goes_on. read_all-append front rest (read file a rb).2 few goes_on)
        (read file a rb).1 refl
    where
      by_end :
          ((read file a rb).2.retries ≤ 10
            → (read_all file front (read file a rb).2).1 ≡ more
            → (mid : ResumableBody) × (mid.retries ≤ 10)
              × ((read_all file (front ++ rest) (read file a rb).2).1 ≡ (read_all file rest mid).1))
          → (end : ReadEnd) → (read file a rb).1 ≡ end
          → (mid : ResumableBody) × (mid.retries ≤ 10)
            × ((read_all file (a ∷ front ++ rest) rb).1 ≡ (read_all file rest mid).1)
      by_end ih more e =
          let (mid, few, same) =
            ih (read_retries a rb h e)
              (sym (read_on-more (read_all file front) (read file a rb) e) ∙ k) in
          (mid, few, read_on-more (read_all file (front ++ rest)) (read file a rb) e ∙ same)
      by_end ih end_of_file e =
          absurd (let s = read_on-ended (read_all file front) (read file a rb) e in cc)
      by_end ih (failed x) e =
          absurd (let s = read_on-failed (read_all file front) (read file a rb) x e in cc)

  -- A download that goes on, whatever arrived before, and whose connection then breaks more than ten times
  -- in a row without a byte ends with an error, whatever the replies to the resume requests are and
  -- whatever would arrive later.
  pub download_ends :
      (front breaks rest : List Arrival) (etag : Bytes)
      → (read_all file front (new_resumable_body etag)).1 ≡ more
      → All IsFruitless breaks
      → 10 < length breaks
      → (e : DownloadError) × ((read_all file (front ++ breaks ++ rest) (new_resumable_body etag)).1
          ≡ failed e)
  download_ends front breaks rest etag goes_on h long =
      let (mid, few, same) =
        read_all-append front (breaks ++ rest) (new_resumable_body etag) (omega arith) goes_on in
      let (e, ends) = fruitless_end breaks rest mid h (omega (arith, long)) few in
      (e, rw append_assoc (same ∙ ends))
