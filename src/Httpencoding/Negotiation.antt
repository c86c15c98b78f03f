-- ===== src/Httpencoding/Negotiation.antt =====
-- Lists of encodings written as a header and read back, and the encoding that is chosen.
use wdxref.Base.{
  ◌≡◌, ◌≢◌, refl, sym, ap, ◌∙◌, Bool, true, false, ◌||◌, some, List, [], ◌∷◌, ◌++◌, Bytes, codes,
  All, Lacks, ◌⊎◌, inl, inr, arith, contains, beq, Bool-cases, if◌then◌else◌, append_assoc,
}
use mathlib.Core.Path.{subst}
use wdxref.Base.Strings.{split, join, to_lower, split_whole, split-append}
use wdxref.Httpencoding.{
  Floats, zstd, gzip, part_accepts, parts_accept, accepts, first_accepted, preferred, recognised,
  parse_encodings, accept_header,
}

-- An encoding that the program knows.
abbrev pub IsRecognised : Bytes → Type 0
IsRecognised enc = (enc ≡ zstd) ⊎ (enc ≡ gzip)

by_encoding : (P : Bytes → Type 0) → P zstd → P gzip → (enc : Bytes) → IsRecognised enc → P enc
by_encoding P z g enc (inl h) = subst P (sym h) z
by_encoding P z g enc (inr h) = subst P (sym h) g

-- A part of a header's text: an encoding, after a blank unless it is the first one.
data IsPadding : Bytes → Type 0 where
  bare : IsPadding []
  blank : IsPadding (b' ' ∷ [])

padded-Lacks : (p e : Bytes) → IsPadding p → IsRecognised e → Lacks b',' (p ++ e)
padded-Lacks _ e bare (inl h) = rw h (omega arith)
padded-Lacks _ e bare (inr h) = rw h (omega arith)
padded-Lacks _ e blank (inl h) = rw h (omega arith)
padded-Lacks _ e blank (inr h) = rw h (omega arith)

-- The parts of the text of a list.
abbrev parts_of : Bytes → List Bytes → List Bytes
parts_of p [] = []
parts_of p (e ∷ es) = (p ++ e) ∷ parts_of (b' ' ∷ []) es

split-join :
    (p e : Bytes) (es : List Bytes)
    → IsPadding p
    → All IsRecognised (e ∷ es)
    → split b',' (p ++ join (codes ", ") (e ∷ es)) ≡ parts_of p (e ∷ es)
unfolding join
split-join p e [] hp (he, _) = split_whole b',' (p ++ e) (padded-Lacks p e hp he)
split-join p e (d ∷ es) hp (he, h) =
    let ih = split-join (b' ' ∷ []) d es blank h in
    let rest = join (codes ", ") (d ∷ es) in
    let first = split-append b',' (p ++ e) (b' ' ∷ rest) (padded-Lacks p e hp he) in
    sym (ap (split b',') (append_assoc p e (b',' ∷ b' ' ∷ rest))) ∙ first ∙ ap (◌∷◌ (p ++ e)) ih

recognised_part :
    (p e : Bytes) (parts : List Bytes)
    → IsPadding p
    → IsRecognised e
    → recognised ((p ++ e) ∷ parts) ≡ e ∷ recognised parts
unfolding recognised
recognised_part _ e parts bare (inl h) = rw h refl
recognised_part _ e parts bare (inr h) = rw h refl
recognised_part _ e parts blank (inl h) = rw h refl
recognised_part _ e parts blank (inr h) = rw h refl

recognised_parts :
    (p : Bytes) (es : List Bytes)
    → IsPadding p
    → All IsRecognised es
    → recognised (parts_of p es) ≡ es
recognised_parts p [] hp h = unfold recognised in refl
recognised_parts p (e ∷ es) hp (he, h) =
    recognised_part p e _ hp he ∙ ap (◌∷◌ e) (recognised_parts (b' ' ∷ []) es blank h)

join_not_empty : (e : Bytes) (es : List Bytes) → IsRecognised e → join (codes ", ") (e ∷ es) ≢ []
unfolding join
join_not_empty e [] (inl h) k = cc
join_not_empty e [] (inr h) k = cc
join_not_empty e (d ∷ es) (inl h) k = let found = rw h at k in cc
join_not_empty e (d ∷ es) (inr h) k = let found = rw h at k in cc

parse_not_empty : (s : Bytes) → s ≢ [] → parse_encodings s ≡ some (recognised (split b',' s))
unfolding parse_encodings
parse_not_empty [] h = absurd (h refl)
parse_not_empty (b ∷ s) h = refl

-- A list of recognised encodings that is not empty is read back from the header that it is written
-- as.
pub parse_encodings-accept_header :
    (e : Bytes) (es : List Bytes)
    → All IsRecognised (e ∷ es)
    → parse_encodings (accept_header (some (e ∷ es))) ≡ some (e ∷ es)
unfolding accept_header
parse_encodings-accept_header e es (he, h) =
    parse_not_empty (join (codes ", ") (e ∷ es)) (join_not_empty e es he)
    ∙ ap some (
        ap recognised (split-join [] e es bare (he, h)) ∙ recognised_parts [] (e ∷ es) bare (he, h))

or_false : (b : Bool) → (b || false) ≡ b
or_false true = refl
or_false false = refl

module _ (f : Floats) where
  part_accepts-beq :
      (p e target : Bytes)
      → IsPadding p
      → IsRecognised e
      → IsRecognised target
      → part_accepts f target (p ++ e) ≡ beq e target
  unfolding part_accepts beq
  part_accepts-beq _ e target bare he ht =
      by_encoding (λ e. part_accepts f target e ≡ beq e target)
        (by_encoding (λ t. part_accepts f t zstd ≡ beq zstd t) f.positive-one refl target ht)
        (by_encoding (λ t. part_accepts f t gzip ≡ beq gzip t) refl f.positive-one target ht) e he
  part_accepts-beq _ e target blank he ht =
      by_encoding (λ e. part_accepts f target (b' ' ∷ e) ≡ beq e target)
        (by_encoding (λ t. part_accepts f t (b' ' ∷ zstd) ≡ beq zstd t) f.positive-one refl target
          ht)
        (by_encoding (λ t. part_accepts f t (b' ' ∷ gzip) ≡ beq gzip t) refl f.positive-one target
          ht)
        e he

  parts_accept-contains :
      (p target : Bytes) (es : List Bytes)
      → IsPadding p
      → All IsRecognised es
      → IsRecognised target
      → parts_accept f target (parts_of p es) ≡ contains target es
  unfolding parts_accept contains
  parts_accept-contains p target [] hp h ht = refl
  parts_accept-contains p target (e ∷ es) hp (he, h) ht =
      cc (
        part_accepts-beq p e target hp he ht,
        parts_accept-contains (b' ' ∷ []) target es blank h ht,
      )

  -- The header that a list of recognised encodings is written as accepts a recognised encoding
  -- exactly when the list holds it.
  pub accepts-accept_header :
      (es : List Bytes) (target : Bytes)
      → All IsRecognised es
      → IsRecognised target
      → accepts f (accept_header (some es) ∷ []) target ≡ contains target es
  unfolding accepts accept_header contains
  accepts-accept_header [] target h ht = refl
  accepts-accept_header (e ∷ es) target h ht =
      let lower : to_lower target ≡ target =
        by_encoding (λ t. to_lower t ≡ t) refl refl target ht in
      let parts = split-join [] e es bare h in
      let result = parts_accept-contains [] target (e ∷ es) bare h ht in
      rw (lower, parts, result) (or_false (contains target (e ∷ es)))

-- The first allowed encoding that is wanted too; the empty text when there is none.
unfoldable pub first_common : List Bytes → List Bytes → Bytes
unfolding contains
first_common wanted [] = []
first_common wanted (enc ∷ allowed) =
    let rest = first_common wanted allowed in if contains enc wanted then enc else rest

module _ (f : Floats) where
  first_accepted-first_common :
      (es allowed : List Bytes)
      → All IsRecognised es
      → All IsRecognised allowed
      → first_accepted f (accept_header (some es) ∷ []) allowed ≡ first_common es allowed
  unfolding first_accepted first_common
  first_accepted-first_common es [] h k = refl
  first_accepted-first_common es (enc ∷ allowed) h (ke, k) =
      rw (accepts-accept_header f es enc h ke, first_accepted-first_common es allowed h k) refl

  -- Of the encodings that a client sends in its header, a server chooses the first one that it
  -- allows in its own order of preference, and the empty text when they share none.
  pub preferred-accept_header :
      (es allowed : List Bytes)
      → All IsRecognised es
      → All IsRecognised allowed
      → preferred f (accept_header (some es) ∷ []) (some allowed) ≡ first_common es allowed
  unfolding preferred
  preferred-accept_header es allowed h k = first_accepted-first_common es allowed h k

-- `chosen` is the first allowed encoding that the request accepts, or the empty text when it accepts
-- none of them.
abbrev pub IsFirst : Floats → List Bytes → List Bytes → Bytes → Type 0
IsFirst f values allowed chosen =
    ((chosen ≡ []) × All (λ e. accepts f values e ≡ false) allowed)
    ⊎ ((before : List Bytes) × (after : List Bytes) × (allowed ≡ before ++ chosen ∷ after)
        × All (λ e. accepts f values e ≡ false) before
        × (accepts f values chosen ≡ true))

module _ (f : Floats) where
  first_accepted-IsFirst :
      (values allowed : List Bytes) → IsFirst f values allowed (first_accepted f values allowed)
  first_accepted-IsFirst values [] = unfold first_accepted in inl (refl, tt)
  first_accepted-IsFirst values (enc ∷ allowed) = elim (Bool-cases (accepts f values enc)) [
    | inl accepted ↦
        let same : first_accepted f values (enc ∷ allowed) ≡ enc =
          unfold first_accepted in rw accepted refl in
        subst (IsFirst f values (enc ∷ allowed)) (sym same) (inr ([], allowed, refl, tt, accepted))
    | inr refused ↦
        let same : first_accepted f values (enc ∷ allowed) ≡ first_accepted f values allowed =
          unfold first_accepted in rw refused refl in
        subst (IsFirst f values (enc ∷ allowed)) (sym same)
          (elim (first_accepted-IsFirst values allowed) [
            | inl (absent, h) ↦ inl (absent, (refused, h))
            | inr (before, after, found, h, accepted) ↦
                inr (enc ∷ before, after, ap (◌∷◌ enc) found, (refused, h), accepted)
          ])
  ]

  -- Preferred returns the first encoding of the allowed ones that the request accepts, so those
  -- before it are not accepted; it returns the empty text when none is accepted.
  pub preferred-IsFirst :
      (values allowed : List Bytes) → IsFirst f values allowed (preferred f values (some allowed))
  unfolding preferred
  preferred-IsFirst values allowed = first_accepted-IsFirst values allowed
