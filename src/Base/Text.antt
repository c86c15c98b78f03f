-- ===== src/Base/Text.antt =====
-- Byte strings: Go's `string` and `[]byte`, with the functions of `strings` and `bytes` in use.
use Prim.Native.Nat.{ℕ, zero, suc, ◌+◌, ◌<◌}
use Prim.Native.Char.{code}
use Prim.Native.String.{String}
use mathlib.Core.Path.{◌≡◌, refl, ap}
use mathlib.Core.Logic.{◌≢◌, ◌↔◌, inl, inr}
use mathlib.Core.Bool.{Bool, true, false, ◌&&◌, ◌||◌}
use mathlib.Core.Option.{Option, none, some}
use mathlib.Core.List.{List, [], ◌∷◌, ◌++◌, append_assoc, append-nil}
use native.Mathlib.Omega.{arith}
use wdxref.Base.Tests.{◌==◌, Bool-cases, if◌then◌else◌}
use wdxref.Base.Lists.{length, take, drop, All}

abbrev pub Bytes : Type 0
Bytes = List ℕ

-- The code points of a literal; these are its bytes, since every literal here is ASCII.
abbrev pub codes : String → Bytes
codes String.[] = []
codes (String.◌∷◌ c s) = code c ∷ codes s

-- Equality of strings.
unfoldable pub beq : Bytes → Bytes → Bool
beq [] [] = true
beq [] (b ∷ bs) = false
beq (a ∷ s) [] = false
beq (a ∷ s) (b ∷ bs) = (a == b) && beq s bs

beq-eq : (s t : Bytes) → beq s t ≡ true → s ≡ t
unfolding beq
beq-eq [] [] h = refl
beq-eq [] (b ∷ t) h = ground arith
beq-eq (a ∷ s) [] h = ground arith
beq-eq (a ∷ s) (b ∷ t) h = ground (arith, beq-eq s t)

pub beq_refl : (s : Bytes) → beq s s ≡ true
unfolding beq
beq_refl [] = refl
beq_refl (a ∷ s) = ground (arith, beq_refl s)

pub beq_iff : (s t : Bytes) → (beq s t ≡ true) ↔ (s ≡ t)
beq_iff s t = (beq-eq s t, λ e. cc (beq_refl s, ap (beq s) e))

pub beq-eq-false : (s t : Bytes) → s ≢ t → beq s t ≡ false
beq-eq-false s t h = elim (Bool-cases (beq s t)) [
  | inl same ↦ absurd (h (beq-eq s t same))
  | inr other ↦ other
]

-- Whether a list of strings holds a string.
unfoldable pub contains : Bytes → List Bytes → Bool
contains s [] = false
contains s (t ∷ ts) = beq t s || contains s ts

-- No byte of the string is `c`.
abbrev pub Lacks : ℕ → Bytes → Type 0
Lacks c = All (λ b. b ≢ c)

-- strings.IndexByte and bytes.IndexByte; `none` stands for -1.
unfoldable pub index_byte : Bytes → ℕ → Option ℕ
index_byte [] c = none
index_byte (b ∷ s) c =
    let rest = index_byte s c in
    if b == c then some 0 else elim rest [ none ↦ none | some i ↦ some (i + 1) ]

pub index_byte-append :
    (p rest : Bytes) (c : ℕ) → Lacks c p → index_byte (p ++ c ∷ rest) c ≡ some (length p)
unfolding index_byte
index_byte-append [] rest c h = ground arith
index_byte-append (b ∷ p) rest c h = ground (arith, index_byte-append p rest c h.1)

pub index_byte-eq-none : (p : Bytes) (c : ℕ) → Lacks c p → index_byte p c ≡ none
unfolding index_byte
index_byte-eq-none [] c h = refl
index_byte-eq-none (b ∷ p) c h = ground (arith, index_byte-eq-none p c h.1)

-- The place that is found is the first one of the byte.
pub index_byte_sound :
    (s : Bytes) (c i : ℕ)
    → index_byte s c ≡ some i
    → (s ≡ take i s ++ c ∷ drop (suc i) s) × Lacks c (take i s) × (i < length s)
unfolding index_byte
index_byte_sound [] c i h = cc
index_byte_sound (b ∷ s) c zero h = ground arith
index_byte_sound (b ∷ s) c (suc i) h =
    let (spelled, lacks, lt) = index_byte_sound s c i (ground arith) in
    (ap (◌∷◌ b) spelled, (ground arith, lacks), omega arith)

-- bufio.ScanLines: the lines of a text, each without its line feed and one carriage return before it.
unfoldable pub drop_cr : Bytes → Bytes
drop_cr [] = []
drop_cr (b ∷ []) = if b == 13 then [] else b ∷ []
drop_cr (b ∷ c ∷ s) = b ∷ drop_cr (c ∷ s)

scan_from : Bytes → Bytes → List Bytes
scan_from [] [] = []
scan_from (c ∷ cur) [] = drop_cr (c ∷ cur) ∷ []
scan_from cur (b ∷ s) =
    let next = scan_from [] s in
    let more = scan_from (cur ++ b ∷ []) s in if b == 10 then drop_cr cur ∷ next else more

unfoldable pub scan_lines : Bytes → List Bytes
unfolding scan_from
scan_lines s = scan_from [] s

drop_cr-eq_self : (l : Bytes) → Lacks 13 l → drop_cr l ≡ l
unfolding drop_cr
drop_cr-eq_self [] h = refl
drop_cr-eq_self (b ∷ []) h = ground arith
drop_cr-eq_self (b ∷ c ∷ l) h = ap (◌∷◌ b) (drop_cr-eq_self (c ∷ l) h.1)

scan_from-line :
    (cur l rest : Bytes)
    → Lacks 10 l
    → scan_from cur (l ++ 10 ∷ rest) ≡ drop_cr (cur ++ l) ∷ scan_from [] rest
unfolding scan_from
scan_from-line [] [] rest h = refl
scan_from-line (c ∷ cur) [] rest h = rw (append-nil (c ∷ cur))
scan_from-line [] (b ∷ l) rest (hb, h) =
    let ih = scan_from-line (b ∷ []) l rest h in ground (arith, ih)
scan_from-line (c ∷ cur) (b ∷ l) rest (hb, h) =
    let ih : scan_from (c ∷ cur ++ b ∷ []) (l ++ 10 ∷ rest)
        ≡ drop_cr (c ∷ cur ++ b ∷ l) ∷ scan_from [] rest =
      rw (append_assoc (c ∷ cur) (b ∷ []) l) at (scan_from-line (c ∷ cur ++ b ∷ []) l rest h) in
    ground (arith, ih)

-- A line without a line feed or a carriage return is scanned as it is.
pub scan_lines-line :
    (l rest : Bytes) → Lacks 10 l → Lacks 13 l → scan_lines (l ++ 10 ∷ rest) ≡ l ∷ scan_lines rest
unfolding scan_lines
scan_lines-line l rest h k = rw (scan_from-line [] l rest h, drop_cr-eq_self l k)
