-- ===== src/Store/Words/Laws.antt =====
-- Lists of words, their concatenation, and sorting.
use wdxref.Base.{
  ◌≡◌, ◌≢◌, refl, ◌||◌, List, [], ◌∷◌, ◌++◌, arith, Bytes, ◌==◌, beq, contains, Lacks, All,
  All-append, append_assoc, append-nil, Bool-cases, inl, inr,
}
use wdxref.Store.Words.{comma, flush, words_from, words, concat, less, insert_sorted, sort, IsWord}

words_from-word :
    (cur w rest : Bytes)
    → Lacks comma w
    → words_from cur (w ++ comma ∷ rest) ≡ flush (cur ++ w) ++ words_from [] rest
unfolding words_from
words_from-word cur [] rest h = rw append-nil
words_from-word cur (c ∷ w) rest (hc, hw) =
    ground (arith, words_from-word (cur ++ c ∷ []) w rest hw, append_assoc cur (c ∷ []) w)

words_from_last : (cur w : Bytes) → Lacks comma w → words_from cur w ≡ flush (cur ++ w)
unfolding words_from
words_from_last cur [] h = rw append-nil
words_from_last cur (c ∷ w) (hc, hw) =
    ground (arith, words_from_last (cur ++ c ∷ []) w hw, append_assoc cur (c ∷ []) w)

flush_word : (w : Bytes) → w ≢ [] → flush w ≡ w ∷ []
flush_word [] h = absurd (h refl)
flush_word (b ∷ w) h = refl

-- What was concatenated is read back.
pub words-concat : (ws : List Bytes) → All IsWord ws → words (concat ws) ≡ ws
unfolding words concat
words-concat [] h = unfold words_from in refl
words-concat (w ∷ []) ((ne, lacks), _) = rw (words_from_last [] w lacks) (flush_word w ne)
words-concat (w ∷ v ∷ ws) ((ne, lacks), h) =
    let ih : words_from [] (concat (v ∷ ws)) ≡ v ∷ ws = words-concat (v ∷ ws) h in
    rw (words_from-word [] w (concat (v ∷ ws)) lacks, flush_word w ne, ih)

flush-IsWord : (w : Bytes) → Lacks comma w → All IsWord (flush w)
flush-IsWord [] h = tt
flush-IsWord (b ∷ w) h = (((cc), h), tt)

words_from-IsWord : (cur s : Bytes) → Lacks comma cur → All IsWord (words_from cur s)
unfolding words_from
words_from-IsWord cur [] h = flush-IsWord cur h
words_from-IsWord cur (c ∷ s) h = elim (Bool-cases (c == comma)) [
  | inl e ↦
      rw (e, words_from)
        (All-append IsWord (flush cur) _ (flush-IsWord cur h) (words_from-IsWord [] s tt))
  | inr e ↦
      rw (e, words_from)
        (words_from-IsWord (cur ++ c ∷ []) s
          (All-append (λ b. b ≢ comma) cur (c ∷ []) h (ground arith)))
]

-- Every part that is read is a word.
pub words-IsWord : (s : Bytes) → All IsWord (words s)
unfolding words
words-IsWord s = words_from-IsWord [] s tt

contains-insert :
    (a x : Bytes) (l : List Bytes) → contains a (insert_sorted x l) ≡ (beq x a || contains a l)
unfolding contains insert_sorted
contains-insert a x [] = refl
contains-insert a x (y ∷ l) = ground (arith, contains-insert a x l)

pub contains-sort : (a : Bytes) (l : List Bytes) → contains a (sort l) ≡ contains a l
unfolding contains sort
contains-sort a [] = refl
contains-sort a (x ∷ l) = cc (contains-insert a x (sort l), contains-sort a l)

pub contains-append :
    (a : Bytes) (l m : List Bytes) → contains a (l ++ m) ≡ (contains a l || contains a m)
unfolding contains
contains-append a [] m = refl
contains-append a (x ∷ l) m = ground (arith, contains-append a l m)

insert-IsWord :
    (x : Bytes) (l : List Bytes) → IsWord x → All IsWord l → All IsWord (insert_sorted x l)
unfolding insert_sorted
insert-IsWord x [] hx h = (hx, tt)
insert-IsWord x (y ∷ l) hx (hy, h) = elim (Bool-cases (less y x)) [
  | inl e ↦ rw e (hy, insert-IsWord x l hx h)
  | inr e ↦ rw e (hx, (hy, h))
]

pub sort-IsWord : (l : List Bytes) → All IsWord l → All IsWord (sort l)
unfolding sort
sort-IsWord [] h = tt
sort-IsWord (x ∷ l) (hx, h) = insert-IsWord x (sort l) hx (sort-IsWord l h)
