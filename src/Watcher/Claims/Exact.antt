-- ===== src/Watcher/Claims/Exact.antt =====
-- Which mappings are extracted from the claims of an entity.
use wdxref.Base.{
  ◌≡◌, refl, ap, ◌∙◌, Bool, true, ◌||◌, ◌&&◌, not, List, [], ◌∷◌, ◌++◌, Bytes, codes, beq, beq_iff,
  contains, arith, Bool-cases, inl, inr,
}
use wdxref.Base.Sorting.{any, any-sort_by, sort_by}
use wdxref.Watcher.Claims.{
  Claim, ClaimsMap, WikidataJson, Entry, entries_at, entries_of, entries_of_property, entry_less,
  dedup, dedup_after, extract_external_ids, extract_string_value, is_property_key, mapping_text,
  same_mapping,
}

abbrev is_text : Bytes → Entry → Bool
is_text m e = beq (mapping_text e) m

same_text : (a b : Entry) → same_mapping a b ≡ true → mapping_text a ≡ mapping_text b
same_text a b h =
    let prop : a.prop_key ≡ b.prop_key = ground (arith, beq_iff a.prop_key b.prop_key) in
    let value : a.value ≡ b.value = ground (arith, beq_iff a.value b.value) in cc (prop, value)

-- What is left out was there just before.
contains-dedup_after :
    (m : Bytes) (prev : Entry) (es : List Entry)
    → (is_text m prev || contains m (dedup_after prev es)) ≡ (is_text m prev || any (is_text m) es)
unfolding contains dedup_after
contains-dedup_after m prev [] = refl
contains-dedup_after m prev (e ∷ es) = elim (Bool-cases (same_mapping prev e)) [
  | inl same ↦
      ground (arith, contains-dedup_after m e es, ap (λ t. beq t m) (same_text prev e same))
  | inr other ↦ ground (arith, contains-dedup_after m e es)
]

contains-dedup : (m : Bytes) (es : List Entry) → contains m (dedup es) ≡ any (is_text m) es
unfolding contains dedup
contains-dedup m [] = refl
contains-dedup m (e ∷ es) = contains-dedup_after m e es

module _ (json : WikidataJson) where
  -- A claim gives the mapping: an external identifier whose value is a string that is not empty.
  abbrev pub claim_gives : Bytes → Bytes → Claim → Bool
  claim_gives m prop_key claim =
      beq claim.data_type (codes "external-id")
      && not (beq (extract_string_value json claim.value) [])
      && beq (prop_key ++ b':' ∷ extract_string_value json claim.value) m

  abbrev pub property_gives : Bytes → Bytes × List Claim → Bool
  property_gives m (prop_key, claims) =
      is_property_key prop_key && any (claim_gives m prop_key) claims

  any-append {ℓ} :
      {A : Type ℓ} (p : A → Bool) (l k : List A) → any p (l ++ k) ≡ (any p l || any p k)
  any-append p [] k = refl
  any-append p (x ∷ l) k = ground (arith, any-append p l k)

  any-entries_of_property :
      (m prop_key : Bytes) (claims : List Claim)
      → any (is_text m) (entries_of_property json prop_key claims)
        ≡ any (claim_gives m prop_key) claims
  unfolding entries_of_property
  any-entries_of_property m prop_key [] = refl
  any-entries_of_property m prop_key (c ∷ claims) =
      ground (arith, any-entries_of_property m prop_key claims)

  any-entries_of :
      (m : Bytes) (claims : ClaimsMap)
      → any (is_text m) (entries_of json claims) ≡ any (property_gives m) claims
  unfolding entries_of
  any-entries_of m [] = refl
  any-entries_of m ((p, cs) ∷ claims) = ground (
    arith,
    any-append (is_text m) (entries_at json (p, cs)) (entries_of json claims),
    any-entries_of m claims,
    any-entries_of_property m p cs,
  )

  -- Exactly the mappings "P<digits>:<value>" are extracted that some claim gives: one of data type
  -- external-id, of a property with a numeric key, whose value is a string that is not empty.
  pub extract_external_ids_exact :
      (m : Bytes) (claims : ClaimsMap)
      → contains m (extract_external_ids json claims) ≡ any (property_gives m) claims
  unfolding extract_external_ids
  extract_external_ids_exact m claims =
      contains-dedup m (sort_by entry_less (entries_of json claims))
      ∙ any-sort_by entry_less (is_text m) (entries_of json claims)
      ∙ any-entries_of m claims
