-- ===== src/Store/Reader/Lookup.antt =====
-- What LookupByPropertyContext of internal/store/reader.go finds on a consistent reverse index.
use wdxref.Base.{
  suc, ◌≡◌, ◌↔◌, ◌⊎◌, inl, inr, refl, sym, ap, ◌∙◌, true, false, none, some, List, [], ◌∷◌, arith,
  Bytes, beq, beq_iff, contains, Lacks, All, Bool-cases, Option-cases, ok,
}
use wdxref.Base.Int.{ℤ, pos, negsuc}
use wdxref.Strconv.{format_int, parse_int, checked}
use wdxref.Strconv.RoundTrip.{IsInt64, IsDigit, parse_int-format_int, format_uint-IsDigit}
use wdxref.Store.Kvrocks.{Kvrocks}
use wdxref.Store.Words.{words}
use wdxref.Store.Scripts.{entities_key, index_key}
use wdxref.Store.Scripts.Index.{listed, members}
use wdxref.Store.Scripts.Outcome.{entry_of}
use wdxref.Store.Scripts.Consistent.{IsConsistent, mappings_of}
use wdxref.Store.Ids.Laws.{format_int-IsWord}
use wdxref.Store.Reader.{
  LookupResult, nil_if_empty, read_reply, is_blank, keep, read_pairs, with_text, gather,
  lookup_script, lookup_by_property,
}

-- Whether the results hold an entity with this text.
abbrev pub Holds : List LookupResult → ℤ → Bytes → Type 0
Holds [] n m = ⊥
Holds (r ∷ rs) n m = ((r.wikidata_id ≡ n) × (r.raw_mappings ≡ m)) ⊎ Holds rs n m

-- Every stored entity has the print of an int64 as its key.
abbrev pub HasIds : (s : Kvrocks) → s.Db → Type 0
HasIds s db =
    (x m : Bytes) → s.hget db entities_key x ≡ some m → (n : ℤ) × IsInt64 n × (x ≡ format_int n)

format_int-injective : (n k : ℤ) → IsInt64 n → IsInt64 k → format_int n ≡ format_int k → n ≡ k
format_int-injective n k h i e =
    let a = parse_int-format_int n h in
    let b = parse_int-format_int k i in ap (λ r. r.0) (sym a ∙ ap parse_int e ∙ b)

digits-Lacks_colon : (s : Bytes) → All IsDigit s → Lacks b':' s
digits-Lacks_colon [] h = tt
digits-Lacks_colon (c ∷ s) h = (ground arith, digits-Lacks_colon s h.1)

format_int-Lacks_colon : (n : ℤ) → Lacks b':' (format_int n)
unfolding format_int
format_int-Lacks_colon (pos n) = digits-Lacks_colon _ (format_uint-IsDigit n)
format_int-Lacks_colon (negsuc n) =
    (ground arith, digits-Lacks_colon _ (format_uint-IsDigit (suc n)))

Holds-keep :
    (raw : Bytes) (k : ℤ) (rs : List LookupResult) (n : ℤ) (m : Bytes)
    → is_blank m ≡ false
    → Holds (keep raw k rs) n m ↔ (((k ≡ n) × (raw ≡ m)) ⊎ Holds rs n m)
unfolding keep
Holds-keep raw k rs n m full = elim (Bool-cases (is_blank raw)) [
  | inl e ↦ rw e (
    λ h. inr h,
    λ h. elim h [ inr t ↦ t | inl t ↦ absurd (let bad = ap is_blank t.1 in ground (arith, bad)) ],
  )
  | inr e ↦ rw e (λ h. h, λ h. h)
]

read_one :
    (x raw : Bytes) (k : ℤ) (pairs : List Bytes) (rs : List LookupResult)
    → checked (parse_int x) ≡ ok k
    → read_pairs pairs ≡ ok rs
    → read_pairs (x ∷ raw ∷ pairs) ≡ ok (keep raw k rs)
unfolding read_pairs
read_one x raw k pairs rs parsed run = rw (read_pairs, parsed, run)

module _ (s : Kvrocks) (db : s.Db) where
  open s use {hget}

  Found : List Bytes → ℤ → Bytes → Type 0
  Found ids n m =
      (contains (format_int n) ids ≡ true) × (hget db entities_key (format_int n) ≡ some m)

  read_gather :
      (ids : List Bytes)
      → HasIds s db
      → (rs : List LookupResult) × (read_pairs (gather s db ids) ≡ ok rs)
        × ((n : ℤ) (m : Bytes) → IsInt64 n → is_blank m ≡ false → Holds rs n m ↔ Found ids n m)
  unfolding gather read_pairs with_text Found contains checked
  read_gather [] has = ([], refl, λ n m h f. (λ t. absurd t, λ t. absurd (ground (arith, t))))
  read_gather (x ∷ ids) has =
      let (rs, run, iff) = read_gather ids has in
      elim (Option-cases (hget db entities_key x)) [
        | inl e ↦ (
          rs,
          rw e run,
          λ n m h f. (
            λ t. let (a, b) = (iff n m h f).0 t in (ground (arith, a), b),
            λ t. (iff n m h f).1 (elim (Bool-cases (beq x (format_int n))) [
              | inl same ↦ absurd (
                  let eq = (beq_iff x (format_int n)).0 same in
                  let bad : some m ≡ none = sym t.1 ∙ ap (hget db entities_key) (sym eq) ∙ e in
                  ground (arith, bad))
              | inr other ↦ (ground (arith, t.0, other), t.1)
            ]),
          ),
        )
        | inr (raw, e) ↦
            let (k, fits, shape) = has x raw e in
            let parsed = parse_int-format_int k fits in
            (
              keep raw k rs,
              rw e (
                  read_one x raw k (gather s db ids) rs
                    (ap (λ r. checked r) (ap parse_int shape ∙ parsed)) run),
              λ n m h f. (
                λ t. elim ((Holds-keep raw k rs n m f).0 t) [
                  | inl (a, b) ↦
                      let eq = shape ∙ ap format_int a in
                      let here = (beq_iff x (format_int n)).1 eq in
                      (ground (arith, here), ap (hget db entities_key) (sym eq) ∙ e ∙ ap some b)
                  | inr u ↦ let (a, b) = (iff n m h f).0 u in (ground (arith, a), b)
                ],
                λ t. (Holds-keep raw k rs n m f).1 (elim (Bool-cases (beq x (format_int n))) [
                  | inl same ↦
                      let eq = (beq_iff x (format_int n)).0 same in
                      inl (
                        format_int-injective k n fits h (sym shape ∙ eq),
                        (let both : some raw ≡ some m =
                              sym e ∙ ap (hget db entities_key) eq ∙ t.1 in
                            ground (arith, both)),
                      )
                  | inr other ↦ inr ((iff n m h f).1 (ground (arith, t.0, other), t.1))
                ]),
              ),
            )
      ]

  script_of :
      (ids : List Bytes) (rs : List LookupResult)
      → read_pairs ids ≡ ok rs
      → read_reply (nil_if_empty ids) ≡ ok rs
  unfolding read_pairs read_reply
  script_of [] rs run = run
  script_of (x ∷ ids) rs run = run

  lookup_reads :
      (prop : ℤ) (value : Bytes) (rs : List LookupResult)
      → read_pairs (gather s db (members (hget db (index_key (format_int prop)) value))) ≡ ok rs
      → lookup_by_property s true prop value db ≡ ok rs
  unfolding lookup_by_property lookup_script gather read_pairs read_reply
  lookup_reads prop value rs run =
      elim (Option-cases (hget db (index_key (format_int prop)) value)) [
        | inl e ↦ rw (lookup_by_property, lookup_script, e) (rw (members, e) at run)
        | inr (raw, e) ↦
            rw (lookup_by_property, lookup_script, e)
              (script_of (gather s db (words raw)) rs (rw (members, e) at run))
      ]

  -- On a consistent index whose entities have the prints of int64 ids as keys, a lookup by property
  -- succeeds if the schema's version is right, and what it finds is exactly the entities whose stored
  -- mappings hold the property with the value, each with its text; a text without mappings aside.
  pub lookup_by_property_exact :
      (prop : ℤ) (value : Bytes)
      → IsConsistent s db
      → HasIds s db
      → (rs : List LookupResult) × (lookup_by_property s true prop value db ≡ ok rs)
        × ((n : ℤ) (m : Bytes)
            → IsInt64 n
            → is_blank m ≡ false
            → Holds rs n m ↔ (
                (hget db entities_key (format_int n) ≡ some m)
                × (contains (entry_of (format_int prop) value) (mappings_of s (some m)) ≡ true)))
  unfolding Found listed
  lookup_by_property_exact prop value consistent has =
      let ids = members (hget db (index_key (format_int prop)) value) in
      let (rs, run, iff) = read_gather ids has in
      let entry = entry_of (format_int prop) value in
      let index = λ (n : ℤ).
        consistent.indexed (format_int prop) value (format_int n) (format_int-Lacks_colon prop)
          (format_int-IsWord n) in
      (
        rs,
        lookup_reads prop value rs run,
        λ n m h f. (
          λ t.
              let (a, b) = (iff n m h f).0 t in
              (b, ap (λ o. contains entry (mappings_of s o)) (sym b) ∙ sym (index n) ∙ a),
          λ t.
              (iff n m h f).1 (index n ∙ ap (λ o. contains entry (mappings_of s o)) t.0 ∙ t.1, t.0),
        ),
      )
