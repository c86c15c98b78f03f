-- ===== src/Replicate/Stream/Served.antt =====
-- The whole handler ServeStream, with the gap check before the loop and the entries that were trimmed
-- from the changelog.
use wdxref.Base.{
  ℕ, ◌≤◌, ◌≡◌, ◌≢◌, refl, Bool, true, false, Option, none, some, List, [], ◌∷◌, ◌++◌, map, arith,
  Bytes, take, Bool-cases, Result-cases, inl, inr, if◌then◌else◌, ok,
}
use wdxref.Base.Int.{ℤ, pos_part}
use wdxref.Store.Kvrocks.{StreamEntry}
use wdxref.Store.Events.{event_of}
use wdxref.Replicate.Cursor.{GapError, check_stream_gap, resolve_stream_cursor}
use wdxref.Replicate.Cursor.Order.{before, before_trans, compare-before}
use wdxref.Replicate.Stream.{
  StreamRequest, StreamLimits, parse_stream_request_options, Reply, Chunk, Round, stream_loop,
  serve_stream, answer_gap,
}
use wdxref.Replicate.Stream.Bounds.{options-IsBounded}
use wdxref.Replicate.Stream.Log.{IsSorted, Before, later, changes}
use wdxref.Replicate.Stream.Contiguous.{IsGrowing, stream_loop-Sent}

Before-at :
    (id : Bytes) (ts : List StreamEntry) (e : StreamEntry) (rest : List StreamEntry)
    → Before id (ts ++ e ∷ rest)
    → before id e.id ≡ true
Before-at id [] e rest h = h.0
Before-at id (t ∷ ts) e rest h = Before-at id ts e rest h.1

-- A cursor that is not before the first retained entry misses nothing of what was trimmed.
later_trimmed :
    (since : Bytes) (trimmed : List StreamEntry) (e : StreamEntry) (rest : List StreamEntry)
    → IsSorted (trimmed ++ e ∷ rest)
    → before since e.id ≡ false
    → later since (trimmed ++ e ∷ rest) ≡ later since (e ∷ rest)
unfolding later
later_trimmed since [] e rest h covered = refl
later_trimmed since (t ∷ ts) e rest (h, hs) covered = elim (Bool-cases (before since t.id)) [
  | inr c ↦ rw c (later_trimmed since ts e rest hs covered)
  | inl c ↦
      absurd (let p = before_trans since t.id e.id c (Before-at t.id ts e rest h) in ground arith)
]

IsSorted-tail : (xs ys : List StreamEntry) → IsSorted (xs ++ ys) → IsSorted ys
IsSorted-tail [] ys h = h
IsSorted-tail (x ∷ xs) ys h = IsSorted-tail xs ys h.1

gap_covered :
    (since first : Bytes)
    → check_stream_gap {E = Bytes} (ok first) since ≡ none
    → before since first ≡ false
unfolding check_stream_gap
gap_covered since first h = let e = compare-before since first in ground arith

answer_gap-Sent :
    (log : List StreamEntry) (limit : ℕ) (state : Option Bytes) (gap : Option GapError)
    (sent chunks : List Chunk)
    → (gap ≡ none → (n : ℕ) × (n ≤ limit) × (changes sent ≡ map event_of (take n log)))
    → answer_gap state gap sent ≡ Reply.streamed chunks
    → (n : ℕ) × (n ≤ limit) × (changes chunks ≡ map event_of (take n log))
unfolding answer_gap changes
answer_gap-Sent log limit state (some GapError.store_unavailable) sent chunks h run =
    absurd (ground arith)
answer_gap-Sent log limit state (some GapError.requires_snapshot) sent chunks h run =
    (0, omega arith, cc)
answer_gap-Sent log limit state (some GapError.no_entries) sent chunks h run = (0, omega arith, cc)
answer_gap-Sent log limit state (some GapError.older_than_retained) sent chunks h run =
    (0, omega arith, cc)
answer_gap-Sent log limit state none sent chunks h run =
    let (n, bound, eq) = h refl in (n, bound, cc)

if_true {ℓ} : {A : Type ℓ} (b : Bool) (x y z : A) → (if b then x else y) ≡ z → y ≢ z → x ≡ z
if_true true x y z h ne = h
if_true false x y z h ne = absurd (ne h)

module _ (parse_duration : Bytes → Option ℤ) where
  -- For a changelog whose entries are in the order of their ids, of which the server retains those from
  -- `first` on, and rounds that each read a log which later entries extend: whatever the request and
  -- its limits, the changes that ServeStream sends are the first ones after the request's cursor in the
  -- whole history, those trimmed before included, in order, without a gap and without a repetition, and
  -- they are at most as many as the server's limit allows.
  pub serve_stream_no_gap :
      (flushes : Bool) (r : StreamRequest) (limits : StreamLimits) (state : Option Bytes)
      (trimmed : List StreamEntry) (first : StreamEntry) (rest : List StreamEntry)
      (rounds : List Round) (chunks : List Chunk)
      → IsSorted (trimmed ++ first ∷ rest)
      → IsGrowing (first ∷ rest) rounds
      → serve_stream parse_duration flushes r limits (ok first.id) state rounds
        ≡ Reply.streamed chunks
      → (n : ℕ) × (n ≤ pos_part limits.max_events)
        × (changes chunks
            ≡ map event_of (
                take n (
                  later (resolve_stream_cursor r.since r.last_event_id) (trimmed ++ first ∷ rest))))
  unfolding serve_stream
  serve_stream_no_gap flushes r limits state trimmed first rest rounds chunks sorted grow run =
      let since = resolve_stream_cursor r.since r.last_event_id in
      elim (Result-cases (parse_stream_request_options parse_duration r limits)) [
        | inr (bad, e) ↦ absurd (ground (arith, rw (serve_stream, e) at run))
        | inl (options, e) ↦
            let loop =
              stream_loop-Sent (first ∷ rest) (IsSorted-tail trimmed (first ∷ rest) sorted)
                (pos_part options.limit) options.timeout rounds since 0 grow (omega arith) in
            answer_gap-Sent (later since (trimmed ++ first ∷ rest)) (pos_part limits.max_events)
              state (check_stream_gap {E = Bytes} (ok first.id) since)
              (stream_loop (pos_part options.limit) options.timeout rounds since 0) chunks
              (λ gap. (
                loop.0,
                omega (arith, loop.1, (options-IsBounded parse_duration r limits options e).1),
                rw (later_trimmed since trimmed first rest sorted (gap_covered since first.id gap))
                    loop.2,
              ))
              (if_true flushes _ _ _ (rw (serve_stream, e) at run) (λ bad. ground arith))
      ]
