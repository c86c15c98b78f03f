-- ===== src/Store/Ids.antt =====
-- The identifiers of internal/store: entity ids as "Q123" and as int64, and mapping entries.
pub mod Laws
use wdxref.Base.{
  ℕ, zero, suc, ◌-◌, ◌≡◌, Bool, true, false, ◌||◌, ◌&&◌, not, Option, none, some, List, [], ◌∷◌,
  ◌++◌, Bytes, codes, beq, index_byte, length, take, drop, ltb, ◌==◌, if◌then◌else◌, Result, ok,
  err,
}
use wdxref.Base.Int.{ℤ}
use wdxref.Strconv.{NumError, format_int, parse_int, checked}

pub data IdError : Type 0 where
  invalid_qid_format : Bytes → IdError
  qid_number : NumError → IdError
  must_start_with_p bad_entry_format : IdError
  invalid_property : Bytes → IdError

abbrev qid_number_of : Result NumError ℤ → Result IdError ℤ
qid_number_of (ok n) = ok n
qid_number_of (err e) = err (qid_number e)

-- qidToInt
unfoldable pub qid_to_int : Bytes → Result IdError ℤ
qid_to_int [] = err (invalid_qid_format [])
qid_to_int (c ∷ digits) =
    if not (c == b'Q') && not (c == b'q')
    then err (invalid_qid_format (c ∷ digits))
    else qid_number_of (checked (parse_int digits))

-- intToQid
unfoldable pub int_to_qid : ℤ → Bytes
int_to_qid n = b'Q' ∷ format_int n

-- The property is entry[1:colonIdx]; strconv.Atoi of a 64-bit int is ParseInt.
property_of : Bytes → Bytes → Result NumError ℤ → Result IdError (Bytes × Bytes)
property_of prop val (ok _) = ok (prop, val)
property_of prop val (err _) = err (invalid_property prop)

entry_at : Bytes → Option ℕ → Result IdError (Bytes × Bytes)
entry_at entry none = err bad_entry_format
entry_at entry (some colon_idx) =
    if ltb colon_idx 2 || colon_idx == length entry - 1
    then err bad_entry_format
    else property_of (drop 1 (take colon_idx entry)) (drop (suc colon_idx) entry)
        (checked (parse_int (drop 1 (take colon_idx entry))))

abbrev starts_with_p : Bytes → Bool
starts_with_p [] = false
starts_with_p (c ∷ _) = c == b'P'

-- parseFlatMappingEntry
unfoldable pub parse_flat_mapping_entry : Bytes → Result IdError (Bytes × Bytes)
unfolding entry_at property_of
parse_flat_mapping_entry entry =
    if starts_with_p entry then entry_at entry (index_byte entry b':') else err must_start_with_p
