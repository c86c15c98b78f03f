-- ===== src/Strconv/RoundTrip.antt =====
-- The texts that FormatInt prints, and ParseInt on them.
use wdxref.Base.{
  ℕ, zero, suc, ◌+◌, ◌/◌, ◌%◌, ◌≤◌, ◌<◌, ◌≡◌, none, [], ◌∷◌, ◌++◌, append_assoc, append-nil, arith,
  Bytes, Bool-cases, inl, inr, ltb, All, All-append, Lacks, length,
}
use wdxref.Base.Int.{ℤ, pos, negsuc}
use wdxref.Strconv.{
  max_uint64, max_int64, digits, format_uint, format_int, scan, parse_uint, parse_int,
}

abbrev pub IsDigit : ℕ → Type 0
IsDigit c = (b'0' ≤ c) × (c ≤ b'9')

-- The range of int64: `negsuc n` is -(n + 1).
abbrev pub IsInt64 : ℤ → Type 0
IsInt64 (pos n) = n ≤ max_int64
IsInt64 (negsuc n) = n ≤ max_int64

scan_last :
    (n : ℕ) (rest : Bytes) → n ≤ max_uint64 → scan ((b'0' + n % 10) ∷ rest) (n / 10) ≡ scan rest n
unfolding scan
scan_last n rest h = ground arith

scan_first : (n : ℕ) (rest : Bytes) → n < 10 → scan ((b'0' + n) ∷ rest) 0 ≡ scan rest n
unfolding scan
scan_first n rest h = ground arith

scan-digits :
    (f n : ℕ) (rest : Bytes) → n < f → n ≤ max_uint64 → scan (digits f n ++ rest) 0 ≡ scan rest n
unfolding digits
scan-digits zero n rest lt fits = absurd (omega arith)
scan-digits (suc f) n rest lt fits = elim (Bool-cases (ltb n 10)) [
  | inl small ↦ rw small (scan_first n rest (ground arith))
  | inr large ↦
      rw (large, append_assoc, scan-digits f (n / 10) _ (ground arith) (omega arith))
        (scan_last n rest fits)
]

digits-IsDigit : (f n : ℕ) → All IsDigit (digits f n)
unfolding digits
digits-IsDigit zero n = tt
digits-IsDigit (suc f) n = elim (Bool-cases (ltb n 10)) [
  | inl small ↦ rw small (ground arith)
  | inr large ↦
      rw large (All-append IsDigit (digits f (n / 10)) _ (digits-IsDigit f (n / 10)) (omega arith))
]

pub format_uint-IsDigit : (n : ℕ) → All IsDigit (format_uint n)
unfolding format_uint
format_uint-IsDigit n = digits-IsDigit (suc n) n

digits_cons : (f n : ℕ) → n < f → (d : ℕ) × (r : Bytes) × (digits f n ≡ d ∷ r) × IsDigit d
unfolding digits
digits_cons zero n h = absurd (omega arith)
digits_cons (suc f) n h = elim (Bool-cases (ltb n 10)) [
  | inl small ↦ (b'0' + n, [], rw small, ground arith)
  | inr large ↦
      let (d, r, e, p) = digits_cons f (n / 10) (ground arith) in
      (d, r ++ (b'0' + n % 10) ∷ [], rw (large, e), p)
]

-- A printed number begins with a digit.
pub format_uint_cons : (n : ℕ) → (d : ℕ) × (r : Bytes) × (format_uint n ≡ d ∷ r) × IsDigit d
unfolding format_uint
format_uint_cons n = digits_cons (suc n) n (omega arith)

pub parse_uint-format_uint : (n : ℕ) → n ≤ max_uint64 → parse_uint (format_uint n) ≡ (n, none)
unfolding parse_uint
parse_uint-format_uint n h =
    let (d, r, e, p) = format_uint_cons n in
    let whole : scan (format_uint n) 0 ≡ (n, none) =
      unfold format_uint in
      (rw (append-nil (digits (suc n) n)) at (scan-digits (suc n) n [] (omega arith) h)) in
    rw e (rw e at whole)

-- Every int64 is read back from its print, with no error.
pub parse_int-format_int : (n : ℤ) → IsInt64 n → parse_int (format_int n) ≡ (n, none)
unfolding parse_int format_int
parse_int-format_int (pos n) h =
    let (d, r, e, p) = format_uint_cons n in
    let u = parse_uint-format_uint n (omega arith) in rw e (ground (arith, rw e at u))
parse_int-format_int (negsuc n) h =
    let u = parse_uint-format_uint (suc n) (omega arith) in ground (arith, u)

digits-Lacks : (c : ℕ) (s : Bytes) → c < b'-' → All IsDigit s → Lacks c s
digits-Lacks c [] h d = tt
digits-Lacks c (b ∷ s) h d = (ground arith, digits-Lacks c s h d.1)

-- A printed number holds neither a space nor a line feed.
pub format_int-Lacks : (c : ℕ) (q : ℤ) → c < b'-' → Lacks c (format_int q)
unfolding format_int
format_int-Lacks c (pos n) h = digits-Lacks c _ h (format_uint-IsDigit n)
format_int-Lacks c (negsuc n) h = (ground arith, digits-Lacks c _ h (format_uint-IsDigit (suc n)))

pub format_int_pos_length : (q : ℤ) → 0 < length (format_int q)
unfolding format_int
format_int_pos_length (pos n) = let (d, r, e, p) = format_uint_cons n in rw e (omega arith)
format_int_pos_length (negsuc n) = omega arith
