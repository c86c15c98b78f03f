-- ===== src/Tests/Server.antt =====
-- A server in memory that satisfies the laws asked of Kvrocks, with an encoder of mappings.
use wdxref.Base.{
  ℕ, zero, suc, ◌≤◌, ◌≡◌, refl, Bool, true, false, ◌&&◌, not, Option, none, some, List, [], ◌∷◌,
  ◌++◌, arith, Bytes, codes, beq, beq_iff, contains, length, take, All, if◌then◌else◌,
}
use wdxref.Base.Int.{ℤ, ◌+ℤ◌}
use wdxref.Strconv.{format_int, format_uint}
use wdxref.Store.Kvrocks.{Kvrocks, StreamEntry, HashLaws, StreamLaws, SetLaws, counter}
use wdxref.Store.Words.{words, concat, IsWord}
use wdxref.Store.Words.Laws.{words-concat, contains-append}
use wdxref.Store.Pipe.{MappingsJson}

abbrev Fields : Type 0
Fields = List (Bytes × Bytes)

pub record Memory : Type 0 where
  pub hashes : Bytes → Fields
  pub sets : Bytes → List Bytes
  pub scores : Bytes → Bytes → Option ℤ
  pub streams : Bytes → List StreamEntry

abbrev pub empty : Memory
empty = record { hashes = λ k. []; sets = λ k. []; scores = λ k m. none; streams = λ k. [] }

abbrev at_key {ℓ} : {A : Type ℓ} → Bytes → (A → A) → (Bytes → A) → Bytes → A
at_key k f g j = if beq k j then f (g j) else g j

unfoldable pub field : Fields → Bytes → Option Bytes
field [] f = none
field ((g, v) ∷ fs) f = if beq g f then some v else field fs f

unfoldable pub drop_field : Bytes → Fields → Fields
drop_field f [] = []
drop_field f ((g, v) ∷ fs) = let rest = drop_field f fs in if beq g f then rest else (g, v) ∷ rest

unfoldable pub drop_all : List Bytes → List Bytes → List Bytes
drop_all out [] = []
drop_all out (m ∷ ms) = let rest = drop_all out ms in if contains m out then rest else m ∷ rest

abbrev is_cons {ℓ} : {A : Type ℓ} → List A → Bool
is_cons [] = false
is_cons (a ∷ l) = true

unfoldable pub decode_text : Bytes → Option (List Bytes)
decode_text m = if beq m (codes "[]") then some [] else some (words m)

abbrev pub memory : Kvrocks
memory = record {
  Db = Memory;
  hget = λ d k f. field (d.hashes k) f;
  hset = λ d k f v. record d { hashes = at_key k (λ fs. (f, v) ∷ fs) d.hashes };
  hdel = λ d k f. record d { hashes = at_key k (drop_field f) d.hashes };
  hincrby = λ d k f n. record d {
    hashes = at_key k (λ fs. (f, format_int (counter (field (d.hashes k) f) +ℤ n)) ∷ fs) d.hashes;
  };
  exists = λ d k. is_cons (d.hashes k);
  del = λ d k. record d { hashes = at_key k (λ fs. []) d.hashes };
  zscore = λ d k m. d.scores k m;
  zadd = λ d k n m. record d { scores = at_key k (λ z. at_key m (λ o. some n) z) d.scores };
  zrem = λ d k m. record d { scores = at_key k (λ z. at_key m (λ o. none) z) d.scores };
  sismember = λ d k m. contains m (d.sets k);
  sadd = λ d k m. record d { sets = at_key k (λ ms. m ∷ ms) d.sets };
  srem = λ d k m. record d { sets = at_key k (drop_all (m ∷ [])) d.sets };
  spop = λ d k n.
      (take n (d.sets k), record d { sets = at_key k (drop_all (take n (d.sets k))) d.sets });
  sunionstore = λ d k a b. record d { sets = at_key k (λ ms. d.sets a ++ d.sets b) d.sets };
  sdel = λ d k. record d { sets = at_key k (λ ms. []) d.sets };
  entries = λ d k. d.streams k;
  xadd = λ d k fs. record d {
    streams =
        at_key k (λ es. es ++ record { id = format_uint (length (d.streams k)); fields = fs } ∷ [])
          d.streams;
  };
  next_id = λ d k. format_uint (length (d.streams k));
  flushdb = λ d. empty;
  decode = decode_text;
}

field-drop_field :
    (f : Bytes) (fs : Fields) (g : Bytes)
    → field (drop_field f fs) g ≡ (if beq f g then none else field fs g)
unfolding field drop_field
field-drop_field f [] g = ground arith
field-drop_field f ((h, v) ∷ fs) g =
    ground (arith, field-drop_field f fs g, beq_iff h f, beq_iff h g, beq_iff f g)

contains-drop_all :
    (out ms : List Bytes) (n : Bytes)
    → contains n (drop_all out ms) ≡ (not (contains n out) && contains n ms)
unfolding contains drop_all
contains-drop_all out [] n = ground arith
contains-drop_all out (m ∷ ms) n = ground (arith, contains-drop_all out ms n, beq_iff m n)

contains-take :
    (n : ℕ) (ms : List Bytes) (m : Bytes) → contains m (take n ms) ≡ true → contains m ms ≡ true
unfolding contains
contains-take zero ms m h = cc
contains-take (suc n) [] m h = h
contains-take (suc n) (x ∷ ms) m h = ground (arith, contains-take n ms m)

length-take-le : (n : ℕ) (ms : List Bytes) → length (take n ms) ≤ n
length-take-le zero ms = omega arith
length-take-le (suc n) [] = omega arith
length-take-le (suc n) (x ∷ ms) = omega (arith, length-take-le n ms)

pub memory_hashes : HashLaws memory
unfolding field
memory_hashes = record {
  hget-hset = λ d k f v j g. ground arith;
  hget-hdel = λ d k f j g. ground (arith, field-drop_field f (d.hashes j) g);
  hget-hincrby = λ d k f n j g. ground arith;
  hget-xadd = λ d k fs j g. refl;
  hget-del = λ d k j g. ground arith;
  exists-hset = λ d k f v j. ground arith;
  hget_absent = λ d k f h. ground arith;
  hget-zadd = λ d k n m j g. refl;
  hget-zrem = λ d k m j g. refl;
  hget-sadd = λ d k m j g. refl;
  hget-srem = λ d k m j g. refl;
  hget-flushdb = λ d j g. refl;
}

pub memory_streams : StreamLaws memory
memory_streams = record {
  entries-xadd = λ d k fs j. ground (arith, beq_iff k j);
  entries-hset = λ d k f v j. refl;
  entries-hdel = λ d k f j. refl;
  entries-hincrby = λ d k f n j. refl;
  entries-flushdb = λ d j. refl;
}

pub memory_sets : SetLaws memory
unfolding contains
memory_sets = record {
  sismember-hset = λ d k f v j n. refl;
  sismember-hincrby = λ d k f c j n. refl;
  sismember-zadd = λ d k c m j n. refl;
  sismember-sadd = λ d k m j n. ground arith;
  sismember-srem = λ d k m j n. ground (arith, contains-drop_all (m ∷ []) (d.sets j) n);
  sismember-sunionstore = λ d k a b j n. ground (arith, contains-append n (d.sets a) (d.sets b));
  sismember-sdel = λ d k j n. ground arith;
  spop_members =
      λ d k count j n. ground (arith, contains-drop_all (take count (d.sets k)) (d.sets j) n);
  spop_popped = λ d k count n h. contains-take count (d.sets k) n h;
  spop_length = λ d k count. length-take-le count (d.sets k);
}

abbrev pub StartsWithP : Bytes → Type 0
StartsWithP [] = ⊥
StartsWithP (c ∷ r) = c ≡ b'P'

abbrev pub Carried : Bytes → Type 0
Carried e = IsWord e × StartsWithP e

Carried-words : (es : List Bytes) → All Carried es → All IsWord es
Carried-words [] h = tt
Carried-words (e ∷ es) (h, hs) = (h.0, Carried-words es hs)

not_brackets :
    (e : Bytes) (es : List Bytes) → StartsWithP e → beq (concat (e ∷ es)) (codes "[]") ≡ false
unfolding beq concat
not_brackets [] es h = elim h [ ]
not_brackets (c ∷ e) [] h = ground arith
not_brackets (c ∷ e) (f ∷ es) h = ground arith

pub decode-concat : (es : List Bytes) → All Carried es → decode_text (concat es) ≡ some es
unfolding decode_text concat
decode-concat [] h = unfold beq words in refl
decode-concat (e ∷ es) (h, hs) =
    rw (not_brackets e es h.1, words-concat (e ∷ es) (h.0, Carried-words es hs))

pub decode-brackets : decode_text (codes "[]") ≡ some []
unfolding decode_text beq
decode-brackets = refl

abbrev pub commas : MappingsJson memory
commas = record {
  marshal = concat;
  IsCarried = Carried;
  decode-empty = decode-brackets;
  decode-marshal = decode-concat;
}
