-- ===== src/Base/Strings.antt =====
-- Functions of Go's `strings` on ASCII text: Split and Cut at a byte, Join, TrimSpace, ToLower,
-- HasPrefix.
use Prim.Native.Nat.{ℕ, suc, ◌+◌}
use mathlib.Core.Path.{◌≡◌, refl}
use mathlib.Core.Bool.{Bool, true, false, ◌&&◌, ◌||◌}
use mathlib.Core.Option.{none, some}
use mathlib.Core.List.{List, [], ◌∷◌, ◌++◌, map}
use native.Mathlib.Omega.{arith}
use wdxref.Base.Tests.{◌==◌, leb, if◌then◌else◌}
use wdxref.Base.Lists.{take, drop}
use wdxref.Base.Text.{Bytes, Lacks, index_byte}

-- What comes before the first byte `c` and the rest of the parts.
cons_part : ℕ → List Bytes → List Bytes
cons_part b [] = (b ∷ []) ∷ []
cons_part b (p ∷ ps) = (b ∷ p) ∷ ps

-- strings.Split(s, c): at least one part, the parts without `c`.
unfoldable pub split : ℕ → Bytes → List Bytes
unfolding cons_part
split c [] = [] ∷ []
split c (b ∷ s) = let rest = split c s in if b == c then [] ∷ rest else cons_part b rest

-- strings.Join(parts, sep)
unfoldable pub join : Bytes → List Bytes → Bytes
join sep [] = []
join sep (p ∷ []) = p
join sep (p ∷ q ∷ ps) = p ++ (sep ++ join sep (q ∷ ps))

-- strings.Cut(s, c): the text before `c`, the text after it, and whether `c` was found.
unfoldable pub cut : ℕ → Bytes → Bytes × Bytes × Bool
unfolding index_byte
cut c s = elim (index_byte s c) [
  | none ↦ (s, [], false)
  | some i ↦ (take i s, drop (suc i) s, true)
]

abbrev pub is_space : ℕ → Bool
is_space b = leb 9 b && leb b 13 || (b == 32)

unfoldable pub trim_left : Bytes → Bytes
trim_left [] = []
trim_left (b ∷ s) = let rest = trim_left s in if is_space b then rest else b ∷ s

unfoldable pub trim_right : Bytes → Bytes
trim_right [] = []
trim_right (b ∷ s) = elim (trim_right s) [
  | [] ↦ if is_space b then [] else b ∷ []
  | c ∷ t ↦ b ∷ c ∷ t
]

-- strings.TrimSpace
abbrev pub trim_space : Bytes → Bytes
trim_space s = trim_right (trim_left s)

abbrev pub lower_byte : ℕ → ℕ
lower_byte b = if leb 65 b && leb b 90 then b + 32 else b

-- strings.ToLower
abbrev pub to_lower : Bytes → Bytes
to_lower s = map lower_byte s

-- strings.HasPrefix(s, prefix)
unfoldable pub has_prefix : Bytes → Bytes → Bool
has_prefix s [] = true
has_prefix [] (p ∷ ps) = false
has_prefix (b ∷ s) (p ∷ ps) = (b == p) && has_prefix s ps

-- A text that has no `c` is one part, and such a text before a `c` is the first part.
pub split_whole : (c : ℕ) (w : Bytes) → Lacks c w → split c w ≡ w ∷ []
unfolding split
split_whole c [] h = refl
split_whole c (b ∷ w) (hb, h) = ground (arith, split_whole c w h)

pub split-append : (c : ℕ) (w s : Bytes) → Lacks c w → split c (w ++ c ∷ s) ≡ w ∷ split c s
unfolding split
split-append c [] s h = ground arith
split-append c (b ∷ w) s (hb, h) = ground (arith, split-append c w s h)
