-- ===== src/Watcher/Wikidata.antt =====
-- WikidataClient of internal/watcher/wikidata.go: the requests for entities, their replies, and the
-- backoff on maxlag errors. Durations are nanoseconds. The reply of the network is an argument;
-- `ApiJson` is the JSON decoder on the replies of wbgetentities.
pub mod Backoff
use wdxref.Base.{
  ℕ, ◌+◌, ◌-◌, ◌*◌, ◌/◌, ◌%◌, ◌^◌, ◌≡◌, refl, min, Bool, true, false, ◌&&◌, Option, none, some,
  List, [], ◌∷◌, ◌++◌, Bytes, codes, beq, leb, ltb, ◌==◌, length, take, if◌then◌else◌, Result, ok,
  err,
}
use wdxref.Base.Int.{ℤ, pos, negsuc, ◌+ℤ◌, ◌*ℤ◌, ltb_ℤ}
use wdxref.Strconv.{format_int, parse_int, checked}

abbrev pub second : ℕ
second = 10 ^ 9

abbrev pub minute : ℕ
minute = 60 * second

-- maxlagBackoffInit and maxlagBackoffMax
abbrev pub maxlag_backoff_init : ℕ
maxlag_backoff_init = 10 * second

abbrev pub maxlag_backoff_max : ℕ
maxlag_backoff_max = 5 * minute

-- The fields of WikidataClient that change. The backoff is never negative, so it is a number.
pub record Client : Type 0 where
  pub maxlag_backoff : ℕ
  pub maxlag_wait_total : ℤ

pub record EntityResult : Type 0 where
  pub raw : Bytes
  pub missing : Bool

pub data FetchError : Type 0 where
  batch_too_large : ℕ → FetchError
  request_error : FetchError
  transport_error : FetchError
  rate_limited : ℤ → Bool → FetchError
  bad_status : ℕ → FetchError
  read_error : FetchError
  parse_error : FetchError
  api_error : Bytes → Bytes → FetchError
  no_entities : FetchError

-- What newRequest and client.Do give: an error, or a status, the Retry-After header (empty when there is
-- none) and the body, which may fail to be read.
pub data Reply : Type 0 where
  no_request : Reply
  no_response : Reply
  response : ℕ → Bytes → Option Bytes → Reply

-- json.Unmarshal into the shapes that the client declares: the code of the error, if there is one; the
-- entities with the error's code and info; and whether an entity is an object with the key "missing".
pub record ApiJson : Type 0 where
  pub error_code : Bytes → Option (Option Bytes)
  pub envelope : Bytes → Option (List (Bytes × Bytes) × Option (Bytes × Bytes))
  pub has_missing : Bytes → Bool

-- The wrap-around of an int64.
abbrev pub wrap_int64 : ℤ → ℤ
wrap_int64 (pos n) = let r = n % 2 ^ 64 in if ltb r (2 ^ 63) then pos r else negsuc (2 ^ 64 - 1 - r)
wrap_int64 (negsuc n) =
    let r = n % 2 ^ 64 in if ltb r (2 ^ 63) then negsuc r else pos (2 ^ 64 - 1 - r)

-- maxlagParam: 5 and the minutes waited, at most 30, cut to a whole number.
unfoldable pub maxlag_param : Client → Bytes
unfolding format_int ◌+ℤ◌
maxlag_param c = elim (pos (5 * minute) +ℤ c.maxlag_wait_total) [
  | pos n ↦ format_int (pos (min n (30 * minute) / minute))
  | negsuc n ↦ format_int (if (n + 1) / minute == 0 then pos 0 else negsuc ((n + 1) / minute - 1))
]

-- The value of a Retry-After header: whole seconds, when they are positive.
unfoldable pub retry_after_header : Bytes → ℕ → ℤ
unfolding checked parse_int ◌*ℤ◌
retry_after_header [] default_wait = pos default_wait
retry_after_header (c ∷ ra) default_wait = elim (checked (parse_int (c ∷ ra))) [
  | err _ ↦ pos default_wait
  | ok secs ↦ if ltb_ℤ (pos 0) secs then wrap_int64 (secs *ℤ pos second) else pos default_wait
]

-- The next backoff after a maxlag error.
abbrev pub next_backoff : ℕ → ℕ
next_backoff backoff =
    min (if backoff == 0 then maxlag_backoff_init else backoff * 2) maxlag_backoff_max

abbrev pub max_ℤ : ℤ → ℤ → ℤ
max_ℤ a b = if ltb_ℤ a b then b else a

-- The branch of a maxlag error: how long to wait, and the client that has noted it.
unfoldable pub maxlag : Bytes → Client → ℤ × Client
unfolding retry_after_header ◌+ℤ◌
maxlag header c =
    let backoff = next_backoff c.maxlag_backoff in
    let retry_after = max_ℤ (retry_after_header header (5 * second)) (pos backoff) in
    (
      retry_after,
      record {
        maxlag_backoff = backoff;
        maxlag_wait_total = wrap_int64 (c.maxlag_wait_total +ℤ retry_after);
      },
    )

abbrev pub healthy : Client
healthy = record { maxlag_backoff = 0; maxlag_wait_total = pos 0 }

-- The limit of io.LimitReader.
abbrev pub body_limit : ℕ
body_limit = 50 * 2 ^ 20

module _ (json : ApiJson) where
  -- The loop over envelope.Entities.
  unfoldable pub entity_results : List (Bytes × Bytes) → List (Bytes × EntityResult)
  entity_results [] = []
  entity_results ((qid, raw) ∷ entities) =
      let result : EntityResult =
        if json.has_missing raw
        then record { raw = []; missing = true }
        else record { raw = raw; missing = false } in
      (qid, result) ∷ entity_results entities

  -- What follows the test of the maxlag error.
  unfoldable pub read_envelope : Bytes → Result FetchError (List (Bytes × EntityResult))
  unfolding entity_results
  read_envelope body = elim (json.envelope body) [
    | none ↦ err parse_error
    | some (_, some (code, info)) ↦ err (api_error code info)
    | some ([], none) ↦ err no_entities
    | some (entity ∷ entities, none) ↦ ok (entity_results (entity ∷ entities))
  ]

  -- Whether the body is a maxlag error.
  unfoldable pub is_maxlag : Bytes → Bool
  unfolding beq
  is_maxlag body = elim (json.error_code body) [
    | some (some code) ↦ beq code (codes "maxlag")
    | _ ↦ false
  ]

  unfoldable pub read_answer :
      Bytes → Bytes → Client → Result FetchError (List (Bytes × EntityResult)) × Client
  unfolding is_maxlag read_envelope maxlag
  read_answer header body c =
      let (retry_after, waiting) = maxlag header c in
      if is_maxlag body
      then (err (rate_limited retry_after true), waiting)
      else (read_envelope body, healthy)

  unfoldable pub read_response :
      Reply → Client → Result FetchError (List (Bytes × EntityResult)) × Client
  unfolding read_answer retry_after_header
  read_response no_request c = (err request_error, c)
  read_response no_response c = (err transport_error, c)
  read_response (response status header body) c =
      if status == 429
      then (err (rate_limited (retry_after_header header (30 * second)) false), c)
      else if status == 200
      then elim body [
        | none ↦ (err read_error, c)
        | some text ↦ read_answer header (take body_limit text) c
      ]
      else (err (bad_status status), c)

  -- FetchEntitiesRaw
  unfoldable pub fetch_entities_raw :
      List Bytes → Reply → Client → Result FetchError (List (Bytes × EntityResult)) × Client
  unfolding read_response
  fetch_entities_raw qids reply c =
      if length qids == 0
      then (ok [], c)
      else if ltb 50 (length qids)
      then (err (batch_too_large (length qids)), c)
      else read_response reply c
