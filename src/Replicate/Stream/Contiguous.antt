-- ===== src/Replicate/Stream/Contiguous.antt =====
-- Which changes the loop of ServeStream sends, on a changelog that grows while it runs.
use wdxref.Base.{
  take-drop, take_beyond, length-take-le, map-append, length-map, ℕ, zero, suc, ◌+◌, ◌-◌, ◌≤◌, ◌≡◌,
  refl, sym, Bool, true, false, List, [], ◌∷◌, ◌++◌, map, append_assoc, arith, Bytes, length, take,
  drop, All, Bool-cases, Result-cases, inl, inr, ltb, ok,
}
use wdxref.Base.Int.{ℤ, pos, negsuc}
use wdxref.Store.Kvrocks.{StreamEntry}
use wdxref.Store.Events.{event_of, stream_read}
use wdxref.Replicate.Stream.{
  Round, Chunk, last_id, read_count, after_read, stream_loop, stream_read_block,
}
use wdxref.Replicate.Stream.Log.{
  IsSorted, later, IsRead, later-append, later-last_id, changes, changes-append,
}

-- Each round reads a log that the later entries extend to the final one.
abbrev pub IsGrowing : List StreamEntry → List Round → Type 0
IsGrowing final = All (λ r.
    (log : List StreamEntry) × (more : List StreamEntry) × (final ≡ log ++ more) × IsRead log r)

-- What was sent is the first part of what comes after the cursor, no longer than the limit allows.
abbrev Sent : List StreamEntry → ℕ → ℕ → Bytes → List Chunk → Type 0
Sent final limit sent cursor chunks =
    (n : ℕ) × (sent + n ≤ limit) × (changes chunks ≡ map event_of (take n (later cursor final)))

none-Sent :
    (final : List StreamEntry) (limit sent : ℕ) (cursor : Bytes)
    → sent ≤ limit
    → Sent final limit sent cursor []
unfolding changes
none-Sent final limit sent cursor h = (0, omega arith, refl)

pub read_count-le : (limit sent : ℕ) → read_count limit sent ≤ limit - sent
unfolding read_count
read_count-le limit sent = ground arith

-- A read of some entries: they come first after the cursor, and behind them what the next cursor sees.
pub read_split :
    (final log more : List StreamEntry) (cursor : Bytes) (count : ℕ) (es : List StreamEntry)
    → final ≡ log ++ more
    → es ≡ take count (later cursor log)
    → later cursor final ≡ es ++ (drop count (later cursor log) ++ later cursor more)
read_split final log more cursor count es split read = rw (
  split,
  later-append cursor log more,
  read,
  sym (
      append_assoc (take count (later cursor log)) (drop count (later cursor log))
        (later cursor more)),
  take-drop count (later cursor log),
)

module _ (final : List StreamEntry) (sorted : IsSorted final) (limit : ℕ) where
  after_read-Sent :
      (next : Bytes → ℕ → List Chunk) (timeout : ℤ) (expired : Bool) (cursor : Bytes) (sent : ℕ)
      (es tail : List StreamEntry)
      → ((c : Bytes) (k : ℕ) → k ≤ limit → Sent final limit k c (next c k))
      → later cursor final ≡ es ++ tail
      → sent + length es ≤ limit
      → Sent final limit sent cursor
          (after_read next timeout expired cursor sent (ok (map event_of es)))
  unfolding after_read changes
  after_read-Sent next (pos zero) expired cursor sent [] tail ih split fits =
      none-Sent final limit sent cursor (omega arith)
  after_read-Sent next (pos (suc t)) true cursor sent [] tail ih split fits =
      none-Sent final limit sent cursor (omega arith)
  after_read-Sent next (pos (suc t)) false cursor sent [] tail ih split fits =
      ih cursor sent (omega arith)
  after_read-Sent next (negsuc t) true cursor sent [] tail ih split fits =
      none-Sent final limit sent cursor (omega arith)
  after_read-Sent next (negsuc t) false cursor sent [] tail ih split fits =
      ih cursor sent (omega arith)
  after_read-Sent next timeout expired cursor sent (e ∷ es) tail ih split fits =
      let len = length-map event_of (e ∷ es) in
      let (n, bound, eq) =
        ih (last_id cursor (map event_of (e ∷ es))) (sent + length (map event_of (e ∷ es)))
          (omega arith) in
      (
        length (e ∷ es) + n,
        omega arith,
        rw (
          changes-append (map event_of (e ∷ es)) _,
          eq,
          later-last_id final cursor (e ∷ es) tail sorted split,
          split,
          take_beyond (e ∷ es) n tail,
          map-append event_of (e ∷ es) (take n tail),
        ),
      )

  -- Whatever ends the connection, the changes that the loop sent are the first ones after the cursor, in
  -- order, none left out and none twice, and no more than the limit.
  pub stream_loop-Sent :
      (timeout : ℤ) (rounds : List Round) (cursor : Bytes) (sent : ℕ)
      → IsGrowing final rounds
      → sent ≤ limit
      → Sent final limit sent cursor (stream_loop limit timeout rounds cursor sent)
  unfolding stream_loop stream_read
  stream_loop-Sent timeout [] cursor sent grow fits = none-Sent final limit sent cursor fits
  stream_loop-Sent timeout (r ∷ rs) cursor sent ((log, more, split, read), grow) fits =
      elim (Bool-cases (ltb sent limit)) [
        | inr e ↦ rw e (none-Sent final limit sent cursor fits)
        | inl e ↦ elim (Bool-cases r.stopped) [
          | inl f ↦ rw (e, f) (none-Sent final limit sent cursor fits)
          | inr f ↦
              let count = read_count limit sent in
              let block = stream_read_block timeout r.remaining in
              elim (Result-cases (r.reply cursor count block)) [
                | inr (bad, g) ↦ rw (e, f, g, after_read) (none-Sent final limit sent cursor fits)
                | inl (es, g) ↦
                    let here = read cursor count block es g in
                    rw (e, f, g)
                      (after_read-Sent (stream_loop limit timeout rs) timeout r.expired cursor sent
                        es (drop count (later cursor log) ++ later cursor more)
                        (λ c k h. stream_loop-Sent timeout rs c k grow h)
                        (read_split final log more cursor count es split here)
                        (rw here (
                          omega (
                            arith,
                            length-take-le count (later cursor log),
                            read_count-le limit sent,
                          ))))
              ]
        ]
      ]
