-- ===== src/Store/Words.antt =====
-- The comma-separated lists of the reverse index, as the Lua scripts of internal/store/writer.go take
-- them apart with `string.gmatch(cur, '[^,]+')`, sort and write them back.
pub mod Laws
use wdxref.Base.{
  ℕ, zero, suc, ◌≡◌, ◌≢◌, refl, Bool, true, false, ◌&&◌, ◌||◌, Option, none, some, List, [], ◌∷◌,
  ◌++◌, Bytes, codes, ltb, ◌==◌, if◌then◌else◌, Lacks,
}

abbrev pub comma : ℕ
comma = b','

-- A word that is under way ends: an empty one is none.
abbrev pub flush : Bytes → List Bytes
flush [] = []
flush (b ∷ w) = (b ∷ w) ∷ []

words_from : Bytes → Bytes → List Bytes
words_from cur [] = flush cur
words_from cur (c ∷ s) = elim (c == comma) [
  | true ↦ flush cur ++ words_from [] s
  | false ↦ words_from (cur ++ c ∷ []) s
]

-- string.gmatch(s, '[^,]+')
unfoldable pub words : Bytes → List Bytes
unfolding words_from
words s = words_from [] s

-- table.concat(parts, ',')
unfoldable pub concat : List Bytes → Bytes
concat [] = []
concat (p ∷ []) = p
concat (p ∷ q ∷ ps) = p ++ comma ∷ concat (q ∷ ps)

-- The order of strings, byte by byte.
unfoldable pub less : Bytes → Bytes → Bool
less [] [] = false
less [] (b ∷ t) = true
less (a ∷ s) [] = false
less (a ∷ s) (b ∷ t) = ltb a b || (a == b) && less s t

insert_sorted : Bytes → List Bytes → List Bytes
insert_sorted x [] = x ∷ []
insert_sorted x (y ∷ ys) =
    let later = y ∷ insert_sorted x ys in if less y x then later else x ∷ y ∷ ys

-- table.sort(parts)
unfoldable pub sort : List Bytes → List Bytes
unfolding insert_sorted
sort [] = []
sort (x ∷ xs) = insert_sorted x (sort xs)

-- A word: not empty, and without a comma.
abbrev pub IsWord : Bytes → Type 0
IsWord w = (w ≢ []) × Lacks comma w

words_runs : words (codes ",12,,7") ≡ codes "12" ∷ codes "7" ∷ []
unfolding words
words_runs = refl

-- The ids are ordered as strings.
sort_runs : concat (sort (codes "7" ∷ codes "12" ∷ codes "1" ∷ [])) ≡ codes "1,12,7"
unfolding concat sort less
sort_runs = refl
