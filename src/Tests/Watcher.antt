-- ===== src/Tests/Watcher.antt =====
-- The theorems on the watcher at concrete inputs.
use wdxref.Base.{
  ◌≡◌, refl, true, false, none, some, List, [], ◌∷◌, Bytes, codes, beq, arith, if◌then◌else◌, inl,
  inr, ok, err, contains, Bool-cases,
}
use mathlib.Core.List.{Permᴰ}
use wdxref.Base.Int.{ℤ, pos, ◌≤ℤ◌}
use wdxref.Base.Sorting.{any}
use wdxref.Tests.Server.{commas}
use wdxref.Watcher.Claims.{Claim, ClaimsMap, WikidataJson, extract_external_ids, parse_entity_json}
use wdxref.Watcher.Claims.Order.{extract_external_ids_perm}
use wdxref.Watcher.Claims.Exact.{property_gives, extract_external_ids_exact}
use wdxref.Watcher.Wikidata.{
  ApiJson, Reply, response, fetch_entities_raw, healthy, rate_limited, is_maxlag,
}
use wdxref.Watcher.Wikidata.Backoff.{IsMaxlag, doubled, fetch_all, fetch-backoff}
use wdxref.Watcher.Processor.Batches.{IsSorted, batch_of-IsSorted}
use wdxref.Watcher.Processor.Writes.{IsCarriedJson}

abbrev imdb : Bytes → Bytes → Claim
imdb value rank = record { data_type = codes "external-id"; value = value; rank = rank }

abbrev film_claims : ClaimsMap
film_claims =
    (codes "P345", imdb (codes "tt2") [] ∷ imdb (codes "tt1") (codes "preferred") ∷ [])
    ∷ (codes "P31", record { data_type = codes "item"; value = codes "Q5"; rank = [] } ∷ [])
    ∷ []

-- The same value twice, with another value of the rank between.
abbrev repeated_claims : ClaimsMap
repeated_claims =
    (
      codes "P345",
      imdb (codes "tt1") (codes "preferred")
          ∷ imdb (codes "tt2") (codes "preferred")
          ∷ imdb (codes "tt1") []
          ∷ [],
    )
    ∷ []

abbrev film_text : Bytes
film_text = codes "film"

-- A decoder for which a string is spelled without quotes.
abbrev decoder : WikidataJson
decoder = record {
  string_of = λ raw. some raw;
  entity_of = λ raw. if beq raw film_text then some (codes "Q172241", film_claims) else none;
}

extract_external_ids_runs :
    extract_external_ids decoder film_claims ≡ codes "P345:tt1" ∷ codes "P345:tt2" ∷ []
unfolding extract_external_ids
extract_external_ids_runs = refl

-- A duplicate that is not adjacent after sorting stays.
extract_external_ids_repeats :
    extract_external_ids decoder repeated_claims
    ≡ codes "P345:tt1" ∷ codes "P345:tt2" ∷ codes "P345:tt1" ∷ []
unfolding extract_external_ids
extract_external_ids_repeats = refl

extract_external_ids_perm_example :
    extract_external_ids decoder film_claims
    ≡ extract_external_ids decoder (
        (codes "P31", record { data_type = codes "item"; value = codes "Q5"; rank = [] } ∷ [])
        ∷ (codes "P345", imdb (codes "tt2") [] ∷ imdb (codes "tt1") (codes "preferred") ∷ [])
        ∷ [])
extract_external_ids_perm_example =
    extract_external_ids_perm decoder film_claims
      ((codes "P31", record { data_type = codes "item"; value = codes "Q5"; rank = [] } ∷ [])
        ∷ (codes "P345", imdb (codes "tt2") [] ∷ imdb (codes "tt1") (codes "preferred") ∷ [])
        ∷ [])
      (Permᴰ.swap refl refl)

extract_external_ids_exact_example :
    contains (codes "P345:tt2") (extract_external_ids decoder film_claims)
    ≡ any (property_gives decoder (codes "P345:tt2")) film_claims
extract_external_ids_exact_example =
    extract_external_ids_exact decoder (codes "P345:tt2") film_claims

-- A body is a maxlag error, or a list of one entity.
abbrev replies : ApiJson
replies = record {
  error_code = λ body. if beq body (codes "lag") then some (some (codes "maxlag")) else none;
  envelope = λ body. some ((codes "Q172241", body) ∷ [], none);
  has_missing = λ raw. beq raw (codes "missing");
}

abbrev lagging : Reply
lagging = response 200 (codes "7") (some (codes "lag"))

abbrev film_qid : List Bytes
film_qid = codes "Q172241" ∷ []

lagging-IsMaxlag : IsMaxlag replies (film_qid, lagging)
unfolding is_maxlag
lagging-IsMaxlag = record {
  header = codes "7";
  body = codes "lag";
  answered = refl;
  refused = refl;
  some_qids = refl;
  few_qids = refl;
}

fetch-backoff_example :
    (wait : ℤ) × ((fetch_entities_raw replies film_qid lagging
        (fetch_all replies ((film_qid, lagging) ∷ (film_qid, lagging) ∷ []) healthy)).0
      ≡ err (rate_limited wait true))
    × (pos (doubled 2) ≤ℤ wait)
    × ((fetch_entities_raw replies film_qid lagging (
          fetch_all replies
            ((film_qid, lagging) ∷ (film_qid, lagging) ∷ [])
            healthy)).1.maxlag_backoff
        ≡ doubled 2)
fetch-backoff_example =
    fetch-backoff replies ((film_qid, lagging) ∷ (film_qid, lagging) ∷ []) film_qid lagging
      (lagging-IsMaxlag, (lagging-IsMaxlag, tt)) lagging-IsMaxlag

batch_of-IsSorted_example :
    IsSorted decoder
      (codes "Q172241" ∷ codes "Q5" ∷ codes "Q6" ∷ [])
      ((codes "Q172241", record { raw = film_text; missing = false })
        ∷ (codes "Q5", record { raw = []; missing = true })
        ∷ [])
      (codes "Q5")
batch_of-IsSorted_example =
    batch_of-IsSorted decoder (codes "Q5") (codes "Q172241" ∷ codes "Q5" ∷ codes "Q6" ∷ []) (
      (codes "Q172241", record { raw = film_text; missing = false })
      ∷ (codes "Q5", record { raw = []; missing = true })
      ∷ [])

film_parsed :
    (raw : Bytes)
    → beq raw film_text ≡ true
    → parse_entity_json decoder raw
      ≡ ok (some (codes "Q172241", codes "P345:tt1" ∷ codes "P345:tt2" ∷ []))
unfolding parse_entity_json
film_parsed raw h = rw (h, parse_entity_json) (unfold extract_external_ids in refl)

decoder-IsCarried : IsCarriedJson commas decoder
unfolding parse_entity_json
decoder-IsCarried raw id mappings h = elim (Bool-cases (beq raw film_text)) [
  | inl is ↦
      let k : codes "P345:tt1" ∷ codes "P345:tt2" ∷ [] ≡ mappings = cc (film_parsed raw is, h) in
      rw (← k) (((cc, omega arith), refl), (((cc, omega arith), refl), tt))
  | inr other ↦ absurd (ground arith)
]
