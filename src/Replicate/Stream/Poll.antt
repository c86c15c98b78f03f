-- ===== src/Replicate/Stream/Poll.antt =====
-- Which changes the loop of ServeStream sends for a request with timeout 0, on a changelog that stays
-- the same and a server that answers every read.
use wdxref.Base.{
  ℕ, zero, suc, ◌+◌, ◌-◌, ◌≤◌, ◌<◌, ◌≡◌, refl, sym, Bool, false, List, [], ◌∷◌, ◌++◌, map, arith,
  Bytes, length, take, drop, All, Bool-cases, inl, inr, ltb, ok, take-drop, take_beyond,
  length-append, length-take-le, map-append, length-map,
}
use wdxref.Base.Int.{ℤ, pos}
use wdxref.Store.Kvrocks.{StreamEntry}
use wdxref.Store.Events.{event_of, stream_read}
use wdxref.Replicate.Stream.{Round, Chunk, last_id, read_count, after_read, stream_loop}
use wdxref.Replicate.Stream.Log.{IsSorted, later, later-last_id, changes, changes-append}

-- A round that nothing interrupts: the server answers every read from the log.
abbrev pub IsAnswered : List StreamEntry → Round → Type 0
IsAnswered log r =
    (r.stopped ≡ false)
    × ((cursor : Bytes) (count : ℕ) (block : ℤ)
        → r.reply cursor count block ≡ ok (take count (later cursor log)))

take_none {ℓ} : {A : Type ℓ} (n : ℕ) (xs : List A) → 0 < n → take n xs ≡ [] → drop n xs ≡ []
take_none zero xs h e = absurd (omega arith)
take_none (suc n) [] h e = refl
take_none (suc n) (x ∷ xs) h e = ground arith

take_nil {ℓ} : {A : Type ℓ} (n : ℕ) → take {A = A} n [] ≡ []
take_nil zero = refl
take_nil (suc n) = refl

read_count_pos : (limit sent : ℕ) → sent < limit → 0 < read_count limit sent
unfolding read_count
read_count_pos limit sent h = ground arith

read_count_fits : (limit sent : ℕ) → read_count limit sent ≤ limit - sent
unfolding read_count
read_count_fits limit sent = ground arith

module _ (log : List StreamEntry) (sorted : IsSorted log) (limit : ℕ) where
  after_read-All :
      (next : Bytes → ℕ → List Chunk) (expired : Bool) (cursor : Bytes) (sent count : ℕ)
      (es tail : List StreamEntry)
      → ((c : Bytes) (k : ℕ)
          → k ≤ limit
          → length (later c log) < count
          → changes (next c k) ≡ map event_of (take (limit - k) (later c log)))
      → later cursor log ≡ es ++ tail
      → (es ≡ [] → tail ≡ [])
      → length (es ++ tail) < suc count
      → sent + length es ≤ limit
      → changes (after_read next (pos 0) expired cursor sent (ok (map event_of es)))
        ≡ map event_of (take (limit - sent) (es ++ tail))
  unfolding after_read changes
  after_read-All next expired cursor sent count [] tail ih split empty few fits =
      rw (empty refl, take_nil (limit - sent))
  after_read-All next expired cursor sent count (e ∷ es) tail ih split empty few fits =
      let c = last_id cursor (map event_of (e ∷ es)) in
      let after : later c log ≡ tail = later-last_id log cursor (e ∷ es) tail sorted split in
      let len = length-map event_of (e ∷ es) in
      let total = length-append (e ∷ es) tail in
      let rest =
        ih c (sent + length (map event_of (e ∷ es))) (omega arith) (rw after (omega arith)) in
      let split_limit : limit - sent
          ≡ length (e ∷ es) + (limit - (sent + length (map event_of (e ∷ es)))) =
        omega arith in
      rw (
        changes-append (map event_of (e ∷ es)) _,
        rest,
        after,
        split_limit,
        take_beyond (e ∷ es) _ tail,
        map-append event_of (e ∷ es) _,
      )

  -- With more rounds than there are entries after the cursor, a poll sends exactly the first ones up to
  -- the limit.
  pub stream_loop-All :
      (rounds : List Round) (cursor : Bytes) (sent : ℕ)
      → All (IsAnswered log) rounds
      → length (later cursor log) < length rounds
      → sent ≤ limit
      → changes (stream_loop limit (pos 0) rounds cursor sent)
        ≡ map event_of (take (limit - sent) (later cursor log))
  unfolding stream_loop stream_read changes
  stream_loop-All [] cursor sent all few fits = absurd (omega arith)
  stream_loop-All (r ∷ rs) cursor sent ((going, reply), all) few fits =
      elim (Bool-cases (ltb sent limit)) [
        | inr e ↦ let full : limit - sent ≡ 0 = ground arith in rw (e, full)
        | inl e ↦
            let count = read_count limit sent in
            let got = later cursor log in
            let split : got ≡ take count got ++ drop count got = sym (take-drop count got) in
            let lt : sent < limit = ground arith in
            let whole : changes (
                  after_read (stream_loop limit (pos 0) rs) (pos 0) r.expired cursor sent
                    (ok (map event_of (take count got))))
                ≡ map event_of (take (limit - sent) (take count got ++ drop count got)) =
              after_read-All (stream_loop limit (pos 0) rs) r.expired cursor sent (length rs)
                (take count got) (drop count got) (λ c k h few'. stream_loop-All rs c k all few' h)
                split (take_none count got (read_count_pos limit sent lt))
                (rw (take-drop count got) few)
                (omega (arith, length-take-le count got, read_count_fits limit sent)) in
            rw (e, going, reply, whole, take-drop count got)
      ]
