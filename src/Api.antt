-- ===== src/Api.antt =====
-- internal/api/server.go: the lookups over HTTP. A response is its status, its Cache-Control header and
-- its body; `quote` is fmt's %q. A read that the context interrupts fails with that error, behind the
-- reader's own test of the schema.
pub mod Lookups
use wdxref.Base.{
  ℕ, ◌≡◌, refl, Bool, true, false, ◌&&◌, ◌||◌, not, Option, none, some, List, [], ◌∷◌, ◌++◌, map,
  Bytes, codes, ltb, ◌==◌, length, beq, if◌then◌else◌, Result, ok, err,
}
use wdxref.Base.Int.{ℤ, pos, ltb_ℤ}
use wdxref.Base.Strings.{lower_byte}
use wdxref.Strconv.{parse_int, checked}
use wdxref.Store.Kvrocks.{Kvrocks}
use wdxref.Store.Ids.{int_to_qid}
use wdxref.Store.Reader.{
  LookupResult, ReaderError, schema_mismatch, parse_qid, lookup_by_property, lookup_by_wikidata_id,
}

-- lookupResponse and errorResponse
pub data Body : Type 0 where
  mappings : List (Bytes × Bytes) → Body
  failure : Bytes → Bytes → Body

pub record Response : Type 0 where
  pub status : ℕ
  pub cache_control : Option Bytes
  pub body : Body

-- The errors that a read may return here: the reader's, and those of the context.
pub data ReadError : Type 0 where
  reader : ReaderError → ReadError
  deadline_exceeded : ReadError
  cancelled : ReadError

-- writeError
unfoldable pub write_error : ℕ → Bytes → Bytes → Response
write_error status code message = record {
  status = status;
  cache_control = none;
  body = failure code message;
}

-- writeReaderError
unfoldable pub write_reader_error : ReadError → Response
unfolding write_error
write_reader_error (reader schema_mismatch) =
    write_error 503 (codes "unavailable") (codes "Schema migration in progress")
write_reader_error (reader (parse_qid e)) =
    write_error 500 (codes "internal_error") (codes "An internal error occurred")
write_reader_error deadline_exceeded =
    write_error 504 (codes "timeout") (codes "Backend read timed out")
write_reader_error cancelled = write_error 504 (codes "timeout") (codes "Backend read timed out")

-- The number behind a letter, as both handlers read it: positive, or nothing.
unfoldable pub number_behind : ℕ → Bytes → Option ℤ
unfolding checked parse_int
number_behind letter [] = none
number_behind letter (c ∷ digits) =
    if ltb (length (c ∷ digits)) 2 || not (c == letter) && not (c == lower_byte letter)
    then none
    else elim (checked (parse_int digits)) [
      | err _ ↦ none
      | ok n ↦ if ltb_ℤ (pos 0) n then some n else none
    ]

abbrev pub found : List (Bytes × Bytes) → Response
found ms = record {
  status = 200;
  cache_control = some (codes "public, max-age=3600");
  body = mappings ms;
}

abbrev pub mapping_of : LookupResult → Bytes × Bytes
mapping_of r = (int_to_qid r.wikidata_id, r.raw_mappings)

abbrev upper_first : Bytes → Bytes
upper_first [] = []
upper_first (c ∷ qid) = (if c == b'q' then b'Q' else c) ∷ qid

module _ (s : Kvrocks) (quote : Bytes → Bytes) where
  abbrev pub lookup_reply : Result ReaderError (List LookupResult) → Response
  lookup_reply (err e) = write_reader_error (reader e)
  lookup_reply (ok results) = found (map mapping_of results)

  abbrev pub invalid_key : Bytes → Response
  invalid_key key = write_error 400 (codes "invalid_request") (
      codes "Invalid property key "
      ++ quote key
      ++ codes ". Must be P followed by digits (e.g. P345)")

  -- handleLookup
  unfoldable pub handle_lookup : Bool → Option ReadError → Bytes → Bytes → s.Db → Response
  unfolding write_error write_reader_error number_behind int_to_qid lookup_by_property
  handle_lookup schema_ok interrupted key [] db =
      write_error 400 (codes "invalid_request") (codes "Value is required")
  handle_lookup schema_ok interrupted key (v ∷ value) db = elim (number_behind b'P' key) [
    | none ↦ invalid_key key
    | some property ↦ elim (if schema_ok then interrupted else none) [
      | some e ↦ write_reader_error e
      | none ↦ lookup_reply (lookup_by_property s schema_ok property (v ∷ value) db)
    ]
  ]

  abbrev pub not_found : Bytes → Response
  not_found qid =
      write_error 404 (codes "not_found") (codes "No entity found for " ++ upper_first qid)

  abbrev pub wikidata_reply : Bytes → Result ReaderError (Option LookupResult) → Response
  wikidata_reply qid (err e) = write_reader_error (reader e)
  wikidata_reply qid (ok none) = not_found qid
  wikidata_reply qid (ok (some result)) = found (mapping_of result ∷ [])

  -- handleWikidataLookup
  unfoldable pub handle_wikidata_lookup : Bool → Option ReadError → Bytes → s.Db → Response
  unfolding write_error write_reader_error number_behind int_to_qid lookup_by_wikidata_id
  handle_wikidata_lookup schema_ok interrupted qid db = elim (number_behind b'Q' qid) [
    | none ↦ write_error 400 (codes "invalid_request") (
        codes "Invalid Wikidata ID "
        ++ quote qid
        ++ codes ". Must be Q followed by digits (e.g. Q172241)")
    | some wikidata_id ↦ elim (if schema_ok then interrupted else none) [
      | some e ↦ write_reader_error e
      | none ↦ wikidata_reply qid (lookup_by_wikidata_id s schema_ok wikidata_id db)
    ]
  ]
