-- ===== src/Strconv.antt =====
-- Go's strconv, as far as the program calls it: FormatInt, ParseUint and ParseInt in base 10 with 64
-- bits. A parser returns the value beside the error, since some callers drop the error and use the
-- value: 0 after a syntax error, the nearest bound after a range error.
pub mod RoundTrip
use wdxref.Base.{
  ℕ, zero, suc, ◌+◌, ◌-◌, ◌*◌, ◌/◌, ◌%◌, ◌^◌, ◌≡◌, refl, Bool, true, false, ◌||◌, Option, none,
  some, [], ◌∷◌, ◌++◌, Bytes, codes, ltb, leb, ◌==◌, if◌then◌else◌, Result, ok, err,
}
use wdxref.Base.Int.{ℤ, pos, negsuc}

pub data NumError : Type 0 where
  syntax range : NumError

abbrev pub max_uint64 : ℕ
max_uint64 = 2 ^ 64 - 1

abbrev pub max_int64 : ℕ
max_int64 = 2 ^ 63 - 1

abbrev pub Parsed : Type 0 → Type 0
Parsed A = A × Option NumError

-- The number of digits is at most the fuel, which is the number plus one.
digits : ℕ → ℕ → Bytes
digits zero n = []
digits (suc f) n =
    let more = digits f (n / 10) ++ (b'0' + n % 10) ∷ [] in
    if ltb n 10 then (b'0' + n) ∷ [] else more

unfoldable pub format_uint : ℕ → Bytes
unfolding digits
format_uint n = digits (suc n) n

unfoldable pub format_int : ℤ → Bytes
unfolding format_uint
format_int (pos n) = format_uint n
format_int (negsuc n) = b'-' ∷ format_uint (suc n)

-- The loop of ParseUint: a byte that is no digit, the test `n >= cutoff`, the sum beyond the maximum.
scan : Bytes → ℕ → Parsed ℕ
scan [] n = (n, none)
scan (c ∷ s) n =
    let rest = scan s (n * 10 + (c - b'0')) in
    if ltb c b'0' || ltb b'9' c
    then (0, some syntax)
    else if ltb max_uint64 (n * 10 + (c - b'0'))
    then (max_uint64, some range)
    else rest

unfoldable pub parse_uint : Bytes → Parsed ℕ
unfolding scan
parse_uint [] = (0, some syntax)
parse_uint (c ∷ s) = scan (c ∷ s) 0

-- The end of ParseInt: the sign and the bounds of int64.
signed : Bool → Parsed ℕ → Parsed ℤ
signed neg (u, some syntax) = (pos 0, some syntax)
signed true (u, e) =
    if ltb (2 ^ 63) u
    then (negsuc max_int64, some range)
    else (if u == 0 then pos 0 else negsuc (u - 1), none)
signed false (u, e) = if leb (2 ^ 63) u then (pos max_int64, some range) else (pos u, none)

unfoldable pub parse_int : Bytes → Parsed ℤ
unfolding parse_uint signed
parse_int [] = (pos 0, some syntax)
parse_int (c ∷ s) =
    if c == b'-'
    then signed true (parse_uint s)
    else if c == b'+'
    then signed false (parse_uint s)
    else signed false (parse_uint (c ∷ s))

-- A call whose error is tested.
unfoldable pub checked {ℓ} : {A : Type ℓ} → A × Option NumError → Result NumError A
checked (a, none) = ok a
checked (a, some e) = err e

format_int_runs :
    (format_int (pos 172241) ≡ codes "172241") × (format_int (negsuc 41) ≡ codes "-42")
unfolding format_int
format_int_runs = (refl, refl)

parse_int_runs :
    (parse_int (codes "+7") ≡ (pos 7, none))
    × (parse_int (codes "9223372036854775808") ≡ (pos max_int64, some range))
    × (parse_int (codes "-9223372036854775808") ≡ (negsuc max_int64, none))
    × (parse_int (codes "1_0") ≡ (pos 0, some syntax))
unfolding parse_int
parse_int_runs = (refl, refl, refl, refl)
