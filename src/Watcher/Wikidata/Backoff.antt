-- ===== src/Watcher/Wikidata/Backoff.antt =====
-- The backoff over consecutive maxlag errors.
use mathlib.Core.Path.{subst}
use wdxref.Base.{
  ℕ, zero, suc, take, All, err, some, ◌+◌, ◌*◌, ◌^◌, ◌≡◌, ◌<◌, refl, ap, ◌∙◌, min, true, false,
  List, [], ◌∷◌, length, Bytes, arith, ◌==◌, ltb, Bool-cases, inl, inr,
}
use wdxref.Base.Int.{ℤ, pos, ◌≤ℤ◌, ltb_ℤ}
use wdxref.Watcher.Wikidata.{
  ApiJson, Reply, response, rate_limited, fetch_entities_raw, read_response, read_answer, is_maxlag,
  body_limit, second, maxlag_backoff_init, maxlag_backoff_max, Client, next_backoff, maxlag,
  healthy, max_ℤ, retry_after_header,
}

-- Ten seconds, doubled n times, but at most five minutes.
abbrev pub doubled : ℕ → ℕ
doubled n = min (maxlag_backoff_init * 2 ^ n) maxlag_backoff_max

two_pow_suc : (n : ℕ) → 2 ^ suc n ≡ 2 * 2 ^ n
two_pow_suc n = omega arith

two_pow_positive : (n : ℕ) → 0 < 2 ^ n
two_pow_positive zero = omega arith
two_pow_positive (suc n) = omega (arith, two_pow_positive n, two_pow_suc n)

next-doubled : (n : ℕ) → next_backoff (doubled n) ≡ doubled (suc n)
next-doubled n = ground (arith, two_pow_positive n, two_pow_suc n)

maxlag_backoff_lem :
    (header : Bytes) (c : Client)
    → (maxlag header c).1.maxlag_backoff ≡ next_backoff c.maxlag_backoff
unfolding maxlag
maxlag_backoff_lem header c = refl

maxlag-next :
    (header : Bytes) (c : Client) (n : ℕ)
    → next_backoff c.maxlag_backoff ≡ doubled n
    → next_backoff (maxlag header c).1.maxlag_backoff ≡ doubled (suc n)
maxlag-next header c n h = ap next_backoff (maxlag_backoff_lem header c ∙ h) ∙ next-doubled n

le-max_ℤ : (a b : ℤ) → b ≤ℤ max_ℤ a b
le-max_ℤ a b = elim (Bool-cases (ltb_ℤ a b)) [
  | inl less ↦ rw less (omega arith)
  | inr other ↦ rw other (ground arith)
]

maxlag_wait :
    (header : Bytes) (c : Client) → pos (next_backoff c.maxlag_backoff) ≤ℤ (maxlag header c).0
unfolding maxlag
maxlag_wait header c =
    le-max_ℤ (retry_after_header header (5 * second)) (pos (next_backoff c.maxlag_backoff))

-- A fetch that the server answers with a maxlag error.
pub record IsMaxlag (json : ApiJson) (fetch : List Bytes × Reply) : Type 0 where
  pub header : Bytes
  pub body : Bytes
  pub answered : fetch.1 ≡ response 200 header (some body)
  pub refused : is_maxlag json (take body_limit body) ≡ true
  pub some_qids : (length fetch.0 == 0) ≡ false
  pub few_qids : ltb 50 (length fetch.0) ≡ false

module _ (json : ApiJson) where
  -- The client after these fetches.
  abbrev pub fetch_all : List (List Bytes × Reply) → Client → Client
  fetch_all [] c = c
  fetch_all ((qids, reply) ∷ fetches) c = fetch_all fetches (fetch_entities_raw json qids reply c).1

  fetch-maxlag :
      (qids : List Bytes) (reply : Reply) (c : Client) (refused : IsMaxlag json (qids, reply))
      → fetch_entities_raw json qids reply c
        ≡ (err (rate_limited (maxlag refused.header c).0 true), (maxlag refused.header c).1)
  unfolding fetch_entities_raw read_response read_answer
  fetch-maxlag qids reply c refused =
      rw (refused.answered, refused.some_qids, refused.few_qids, refused.refused) refl

  fetch_all-backoff :
      (fetches : List (List Bytes × Reply)) (n : ℕ) (c : Client)
      → All (IsMaxlag json) fetches
      → next_backoff c.maxlag_backoff ≡ doubled n
      → next_backoff (fetch_all fetches c).maxlag_backoff ≡ doubled (length fetches + n)
  fetch_all-backoff [] n c _ h = h ∙ ap doubled (omega arith)
  fetch_all-backoff ((qids, reply) ∷ fetches) n c (refused, more) h =
      let stepped = ap (λ r. r.1) (fetch-maxlag qids reply c refused) in
      let next : next_backoff (fetch_entities_raw json qids reply c).1.maxlag_backoff
          ≡ doubled (suc n) =
        ap (λ c. next_backoff c.maxlag_backoff) stepped ∙ maxlag-next refused.header c n h in
      let ih =
        fetch_all-backoff fetches (suc n) (fetch_entities_raw json qids reply c).1 more next in
      ih ∙ ap doubled (omega arith)

  -- After maxlag errors in a row since the last good reply, one more is refused with a wait that is at
  -- least ten seconds, doubled once for each of those errors, up to five minutes, and the backoff that
  -- the client keeps is this time.
  pub fetch-backoff :
      (fetches : List (List Bytes × Reply)) (qids : List Bytes) (reply : Reply)
      → All (IsMaxlag json) fetches
      → IsMaxlag json (qids, reply)
      → (wait : ℤ) × ((fetch_entities_raw json qids reply (fetch_all fetches healthy)).0
          ≡ err (rate_limited wait true))
        × (pos (doubled (length fetches)) ≤ℤ wait)
        × ((fetch_entities_raw json qids reply (fetch_all fetches healthy)).1.maxlag_backoff
            ≡ doubled (length fetches))
  fetch-backoff fetches qids reply before refused =
      let c = fetch_all fetches healthy in
      let backoff : next_backoff c.maxlag_backoff ≡ doubled (length fetches) =
        fetch_all-backoff fetches 0 healthy before refl ∙ ap doubled (omega arith) in
      let same = fetch-maxlag qids reply c refused in
      let wait_is_long =
        subst (λ b. pos b ≤ℤ (maxlag refused.header c).0) backoff (maxlag_wait refused.header c) in
      (
        (maxlag refused.header c).0,
        ap (λ r. r.0) same,
        wait_is_long,
        ap (λ r. r.1.maxlag_backoff) same ∙ maxlag_backoff_lem refused.header c ∙ backoff,
      )
