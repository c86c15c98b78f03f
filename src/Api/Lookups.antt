-- ===== src/Api/Lookups.antt =====
-- What a client of the API reads of the store.
use wdxref.Base.{
  Option, sym, beq, beq_refl, beq_iff, suc, length, ltb, ◌≡◌, ◌≢◌, ◌↔◌, refl, ap, ◌∙◌, true, false,
  none, some, List, [], ◌∷◌, map, Bytes, contains, ok, if◌then◌else◌, arith, Option-cases,
  Bool-cases, inl, inr,
}
use wdxref.Base.Int.{ℤ, pos, ltb_ℤ}
use wdxref.Strconv.{format_int, parse_int, checked}
use wdxref.Strconv.RoundTrip.{IsInt64, parse_int-format_int}
use wdxref.Store.Ids.Laws.{format_int-IsWord}
use wdxref.Store.Kvrocks.{Kvrocks, HashLaws, StreamLaws}
use wdxref.Store.Ids.{int_to_qid}
use wdxref.Store.Scripts.{entities_key, upsert, unchanged}
use wdxref.Store.Scripts.Outcome.{entry_of}
use wdxref.Store.Scripts.Consistent.{IsConsistent, IsMappings, mappings_of, upsert-Changed}
use wdxref.Store.Reader.{LookupResult, is_blank, lookup_entity, lookup_by_wikidata_id}
use wdxref.Store.Reader.Lookup.{HasIds, Holds, lookup_by_property_exact}
use wdxref.Api.{
  Response, number_behind, found, mapping_of, not_found, wikidata_reply, handle_lookup,
  handle_wikidata_lookup,
}

longer : (digits : Bytes) → digits ≢ [] → ltb (suc (length digits)) 2 ≡ false
longer [] h = absurd (h refl)
longer (d ∷ digits) h = ground arith

-- The id of an item is read back by the handler.
number_behind-int_to_qid :
    (n : ℤ) → IsInt64 n → ltb_ℤ (pos 0) n ≡ true → number_behind b'Q' (int_to_qid n) ≡ some n
unfolding number_behind int_to_qid
number_behind-int_to_qid n h positive =
    let k : checked (parse_int (format_int n)) ≡ ok n =
      ap checked (parse_int-format_int n h) ∙ unfold checked in refl in
    rw (longer (format_int n) (format_int-IsWord n).0, k, positive) refl

module _ (s : Kvrocks) (quote : Bytes → Bytes) where
  -- While the schema's version matches and the read is not interrupted, a lookup of a well-formed key and a
  -- value over HTTP, on a consistent index whose entities have the prints of int64 ids as keys, is answered with status 200 and the results of exactly the entities
  -- whose stored mappings hold the property with the value; a text without mappings aside.
  pub handle_lookup_exact :
      (key value : Bytes) (property : ℤ) (db : s.Db)
      → value ≢ []
      → number_behind b'P' key ≡ some property
      → IsConsistent s db
      → HasIds s db
      → (rs : List LookupResult) × (handle_lookup s quote true none key value db
          ≡ found (map mapping_of rs))
        × ((n : ℤ) (m : Bytes)
            → IsInt64 n
            → is_blank m ≡ false
            → Holds rs n m ↔ (
                (s.hget db entities_key (format_int n) ≡ some m)
                × (contains (entry_of (format_int property) value) (mappings_of s (some m))
                    ≡ true)))
  unfolding handle_lookup
  handle_lookup_exact key [] property db given valid consistent has = absurd (given refl)
  handle_lookup_exact key (v ∷ value) property db given valid consistent has =
      let (rs, run, iff) = lookup_by_property_exact s db property (v ∷ value) consistent has in
      (rs, rw (valid, run, handle_lookup) refl, iff)

  -- The page of an item: what a read of the id "Q<n>" gives when the schema's version is right.
  abbrev pub item_page : ℤ → s.Db → Response
  item_page n db = elim (s.hget db entities_key (format_int n)) [
    | none ↦ not_found s quote (int_to_qid n)
    | some m ↦
        if is_blank m then not_found s quote (int_to_qid n) else found ((int_to_qid n, m) ∷ [])
  ]

  wikidata_reply-item_page :
      (n : ℤ) (db : s.Db)
      → wikidata_reply s quote (int_to_qid n) (ok (lookup_entity s n db)) ≡ item_page n db
  unfolding lookup_entity
  wikidata_reply-item_page n db = elim (Option-cases (s.hget db entities_key (format_int n))) [
    | inl absent ↦ rw (absent, lookup_entity, item_page) refl
    | inr (m, there) ↦ elim (Bool-cases (is_blank m)) [
      | inl blank ↦ rw (there, blank, lookup_entity, item_page) refl
      | inr full ↦ rw (there, full, lookup_entity, item_page) refl
    ]
  ]

  -- What a lookup of the id "Q<n>" is answered with.
  wikidata_lookup-item_page :
      (n : ℤ) (db : s.Db)
      → IsInt64 n
      → ltb_ℤ (pos 0) n ≡ true
      → handle_wikidata_lookup s quote true none (int_to_qid n) db ≡ item_page n db
  unfolding lookup_by_wikidata_id handle_wikidata_lookup
  wikidata_lookup-item_page n db h positive =
      rw (number_behind-int_to_qid n h positive, handle_wikidata_lookup)
        (wikidata_reply-item_page n db)

  item_page-stored :
      (n : ℤ) (m : Bytes) (db : s.Db)
      → s.hget db entities_key (format_int n) ≡ some m
      → item_page n db
        ≡ (if is_blank m then not_found s quote (int_to_qid n) else found ((int_to_qid n, m) ∷ []))
  item_page-stored n m db e = rw (item_page, e) refl

  format_int-injective : (n k : ℤ) → IsInt64 n → IsInt64 k → format_int n ≡ format_int k → n ≡ k
  format_int-injective n k hn hk e =
      let p = parse_int-format_int n hn in
      let q = parse_int-format_int k hk in ground (arith, p, q, e)

module _ (s : Kvrocks) (laws : HashLaws s) (streams : StreamLaws s) (quote : Bytes → Bytes) where
  unchanged-stored : (o : Option Bytes) (m : Bytes) → unchanged s o m ≡ true → o ≡ some m
  unchanged-stored none m h = absurd cc
  unchanged-stored (some old) m h = ap some ((beq_iff old m).0 h)

  still :
      (n : ℤ) (m : Bytes) (db : s.Db)
      → s.hget db entities_key (format_int n) ≡ some m
      → (x : Bytes)
      → s.hget db entities_key x
        ≡ (if beq (format_int n) x then some m else s.hget db entities_key x)
  still n m db e x = elim (Bool-cases (beq (format_int n) x)) [
    | inr other ↦ rw other refl
    | inl same ↦ rw (same, ← (beq_iff (format_int n) x).0 same) e
  ]

  -- The entities after an upsert, whether or not it changes the text.
  entity_after :
      (n : ℤ) (m : Bytes) (db : s.Db)
      → IsConsistent s db
      → IsMappings s m
      → (x : Bytes)
      → s.hget (upsert s m (format_int n) db).1 entities_key x
        ≡ (if beq (format_int n) x then some m else s.hget db entities_key x)
  unfolding upsert
  entity_after n m db consistent new x =
      elim (Bool-cases (unchanged s (s.hget db entities_key (format_int n)) m)) [
        | inr differs ↦
            let (d', run, changed) =
              upsert-Changed s laws streams (format_int n) (format_int-IsWord n) db m consistent new
                differs in
            rw run (changed.entity x)
        | inl same ↦
            rw same
              (still n m db (unchanged-stored (s.hget db entities_key (format_int n)) m same) x)
      ]

  -- Whatever an upsert has stored is what a client reads of the API: on a consistent index, and with a
  -- mappings text that is an array of well-formed entries, a lookup of the item "Q<n>", for a positive
  -- int64, is answered after the upsert of this text with status 200 and the text, or with status 404 if it
  -- has no mappings, and every other item is answered as before, while the schema's version matches and
  -- the reads are not interrupted.
  pub handle_wikidata_lookup-upsert :
      (n k : ℤ) (m : Bytes) (db : s.Db)
      → IsInt64 n
      → ltb_ℤ (pos 0) n ≡ true
      → IsConsistent s db
      → IsMappings s m
      → (handle_wikidata_lookup s quote true none (int_to_qid n) (upsert s m (format_int n) db).1
          ≡ (if is_blank m
              then not_found s quote (int_to_qid n)
              else found ((int_to_qid n, m) ∷ [])))
        × (IsInt64 k
            → ltb_ℤ (pos 0) k ≡ true
            → k ≢ n
            → handle_wikidata_lookup s quote true none
                (int_to_qid k)
                (upsert s m (format_int n) db).1
              ≡ handle_wikidata_lookup s quote true none (int_to_qid k) db)
  handle_wikidata_lookup-upsert n k m db hn positive consistent new =
      let after = entity_after n m db consistent new in
      let db' = (upsert s m (format_int n) db).1 in
      (
        wikidata_lookup-item_page s quote n db' hn positive
            ∙ item_page-stored s quote n m db'
                (after (format_int n) ∙ rw (beq_refl (format_int n)) refl),
        λ hk positive_k other.
            let apart : beq (format_int n) (format_int k) ≡ false =
              elim (Bool-cases (beq (format_int n) (format_int k))) [
                | inr differs ↦ differs
                | inl same ↦ absurd (
                    other (
                      sym (
                        format_int-injective s quote n k hn hk
                          ((beq_iff (format_int n) (format_int k)).0 same))))
              ] in
            let kept : s.hget db' entities_key (format_int k)
                ≡ s.hget db entities_key (format_int k) =
              after (format_int k) ∙ rw apart refl in
            wikidata_lookup-item_page s quote k db' hk positive_k
            ∙ rw (item_page, kept) refl
            ∙ sym (wikidata_lookup-item_page s quote k db hk positive_k),
      )
