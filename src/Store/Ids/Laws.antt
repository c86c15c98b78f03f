-- ===== src/Store/Ids/Laws.antt =====
-- What the parsers of identifiers accept.
use wdxref.Base.{
  ℕ, zero, suc, ◌<◌, ◌-◌, ◌≡◌, ◌≢◌, ap, some, [], ◌∷◌, ◌++◌, arith, Bytes, index_byte,
  index_byte_sound, Lacks, take, drop, length, Bool-cases, Option-cases, inl, inr, Result, ok, ◌==◌,
}
use wdxref.Base.Int.{ℤ}
use wdxref.Strconv.{NumError, format_int, parse_int, checked}
use wdxref.Strconv.RoundTrip.{
  IsInt64, parse_int-format_int, format_int-Lacks, format_int_pos_length,
}
use wdxref.Store.Words.{IsWord}
use wdxref.Store.Ids.{qid_to_int, int_to_qid, parse_flat_mapping_entry, entry_at, property_of}
use wdxref.Store.Scripts.Outcome.{entry_of}

-- Every int64 is read back from its QID.
pub qid_to_int-int_to_qid : (n : ℤ) → IsInt64 n → qid_to_int (int_to_qid n) ≡ ok n
unfolding qid_to_int int_to_qid checked
qid_to_int-int_to_qid n h = rw (parse_int-format_int n h)

-- The decimal text of an entity id is a word of the index.
pub format_int-IsWord : (n : ℤ) → IsWord (format_int n)
format_int-IsWord n = (
  λ e.
      absurd
        (let p : 0 < length (format_int n) = format_int_pos_length n in omega (arith, ap length e)),
  format_int-Lacks b',' n (omega arith),
)

take-ne-nil : (n : ℕ) (e : Bytes) → 0 < length e → take (suc n) e ≢ []
take-ne-nil n [] h = absurd (omega arith)
take-ne-nil n (b ∷ e) h = cc

drop-ne-nil : (n : ℕ) (e : Bytes) → n < length e → drop n e ≢ []
drop-ne-nil n [] h = absurd (omega arith)
drop-ne-nil zero (b ∷ e) h = cc
drop-ne-nil (suc n) (b ∷ e) h = drop-ne-nil n e (omega arith)

property_of_sound :
    (p v prop val : Bytes) (r : Result NumError ℤ)
    → property_of p v r ≡ ok (prop, val)
    → (p ≡ prop) × (v ≡ val)
unfolding property_of
property_of_sound p v prop val r h = ground arith

entry_at_sound :
    (c : ℕ) (e : Bytes) (i : ℕ) (prop val : Bytes)
    → c ≡ b'P'
    → index_byte (c ∷ e) b':' ≡ some i
    → entry_at (c ∷ e) (some i) ≡ ok (prop, val)
    → (c ∷ e ≡ entry_of prop val) × Lacks b':' prop × (prop ≢ []) × (val ≢ [])
unfolding entry_at
entry_at_sound c e zero prop val p at h = ground arith
entry_at_sound c e (suc zero) prop val p at h = ground arith
entry_at_sound c e (suc (suc j)) prop val p at h =
    let (spelled, lacks, lt) = index_byte_sound (c ∷ e) b':' (suc (suc j)) at in
    elim (Bool-cases (suc (suc j) == length (c ∷ e) - 1)) [
      | inl last ↦ absurd (ground arith)
      | inr inner ↦
          let tail : e ≡ take (suc j) e ++ b':' ∷ drop (suc (suc j)) e = cc spelled in
          let parts : (take (suc j) e ≡ prop) × (drop (suc (suc j)) e ≡ val) =
            property_of_sound (take (suc j) e) (drop (suc (suc j)) e) prop val
              (checked (parse_int (take (suc j) e))) (ground arith) in
          rw (p, ← parts.0, ← parts.1)
            (
              ap (◌∷◌ b'P') tail,
              lacks.1,
              take-ne-nil j e (omega arith),
              drop-ne-nil (suc (suc j)) e (ground arith),
            )
    ]

-- An entry that the validation accepts has the form "P<prop>:<val>", with no colon in the property
-- and neither part empty; these parts are returned.
pub parse_flat_sound :
    (e : Bytes) (prop val : Bytes)
    → parse_flat_mapping_entry e ≡ ok (prop, val)
    → (e ≡ entry_of prop val) × Lacks b':' prop × (prop ≢ []) × (val ≢ [])
unfolding parse_flat_mapping_entry
parse_flat_sound [] prop val h = cc
parse_flat_sound (c ∷ e) prop val h = elim (Bool-cases (c == b'P')) [
  | inr other ↦ absurd (ground arith)
  | inl p ↦ elim (Option-cases (index_byte (c ∷ e) b':')) [
    | inl missing ↦ absurd (unfold entry_at in ground arith)
    | inr (i, at) ↦ entry_at_sound c e i prop val (ground arith) at (ground arith)
  ]
]
