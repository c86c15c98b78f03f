-- ===== src/Watcher/Claims.antt =====
-- extractExternalIDs and ParseEntityJSON of internal/watcher/wikidata.go: the mappings of an entity. A
-- claims map is the list of its properties in the order of one iteration over it. The JSON decoder is
-- `WikidataJson`.
pub mod Order
pub mod Exact
use wdxref.Base.{
  ℕ, ◌≡◌, refl, Bool, true, false, ◌&&◌, ◌||◌, not, Option, none, some, List, [], ◌∷◌, ◌++◌, map,
  Bytes, codes, beq, ltb, ◌==◌, length, drop, if◌then◌else◌, Result, ok, err,
}
use wdxref.Base.Int.{ℤ, pos, negsuc, ltb_ℤ}
use wdxref.Base.Sorting.{insert_by, sort_by}
use wdxref.Base.Strings.{has_prefix}
use wdxref.Strconv.{parse_int, checked}
use wdxref.Store.Words.{less}

-- A claim of claimsMap: `value` is the raw JSON of mainsnak.datavalue.value.
pub record Claim : Type 0 where
  pub data_type : Bytes
  pub value : Bytes
  pub rank : Bytes

abbrev pub ClaimsMap : Type 0
ClaimsMap = List (Bytes × List Claim)

-- json.Unmarshal into a string, and into an entity with its id and claims; `none` is an error.
pub record WikidataJson : Type 0 where
  pub string_of : Bytes → Option Bytes
  pub entity_of : Bytes → Option (Bytes × ClaimsMap)

-- rankOrder
unfoldable pub rank_order : Bytes → ℤ
unfolding beq
rank_order rank =
    if beq rank (codes "preferred")
    then negsuc 0
    else if beq rank (codes "normal") || beq rank []
    then pos 0
    else if beq rank (codes "deprecated")
    then pos 1
    else pos 0

pub record Entry : Type 0 where
  pub prop_key : Bytes
  pub rank : ℤ
  pub value : Bytes

-- The tests of a property's key: long enough, a P, and strconv.Atoi accepts the rest.
unfoldable pub is_property_key : Bytes → Bool
unfolding parse_int checked
is_property_key [] = false
is_property_key (c ∷ digits) =
    if ltb (length (c ∷ digits)) 2 || not (c == b'P')
    then false
    else elim (checked (parse_int digits)) [ ok _ ↦ true | err _ ↦ false ]

module _ (json : WikidataJson) where
  -- extractStringValue
  unfoldable pub extract_string_value : Bytes → Bytes
  extract_string_value [] = []
  extract_string_value (b ∷ raw) = elim (json.string_of (b ∷ raw)) [ none ↦ [] | some s ↦ s ]

  -- The loop over the claims of one property.
  unfoldable pub entries_of_property : Bytes → List Claim → List Entry
  unfolding beq extract_string_value rank_order
  entries_of_property prop_key [] = []
  entries_of_property prop_key (claim ∷ claims) =
      let rest = entries_of_property prop_key claims in
      let value = extract_string_value claim.value in
      let entry : Entry = record {
        prop_key = prop_key;
        rank = rank_order claim.rank;
        value = value;
      } in
      if beq claim.data_type (codes "external-id")
      then if beq value [] then rest else entry ∷ rest
      else rest

  abbrev pub entries_at : Bytes × List Claim → List Entry
  entries_at (prop_key, claims) =
      if is_property_key prop_key then entries_of_property prop_key claims else []

  -- The loop over the properties.
  unfoldable pub entries_of : ClaimsMap → List Entry
  unfolding entries_of_property is_property_key
  entries_of [] = []
  entries_of (property ∷ properties) = entries_at property ++ entries_of properties

-- The order given to sort.Slice.
unfoldable pub entry_less : Entry → Entry → Bool
unfolding beq less
entry_less a b =
    if not (beq a.prop_key b.prop_key)
    then less a.prop_key b.prop_key
    else if ltb_ℤ a.rank b.rank || ltb_ℤ b.rank a.rank
    then ltb_ℤ a.rank b.rank
    else less a.value b.value

abbrev pub mapping_text : Entry → Bytes
mapping_text e = e.prop_key ++ b':' ∷ e.value

-- The look-back: an entry with the property and the value of the one before it is left out.
abbrev pub same_mapping : Entry → Entry → Bool
same_mapping a b = beq a.prop_key b.prop_key && beq a.value b.value

unfoldable pub dedup_after : Entry → List Entry → List Bytes
unfolding beq
dedup_after prev [] = []
dedup_after prev (e ∷ es) =
    let rest = dedup_after e es in if same_mapping prev e then rest else mapping_text e ∷ rest

unfoldable pub dedup : List Entry → List Bytes
unfolding dedup_after
dedup [] = []
dedup (e ∷ es) = mapping_text e ∷ dedup_after e es

module _ (json : WikidataJson) where
  -- extractExternalIDs
  unfoldable pub extract_external_ids : ClaimsMap → List Bytes
  unfolding entries_of sort_by entry_less dedup
  extract_external_ids claims = dedup (sort_by entry_less (entries_of json claims))

  -- ParseEntityJSON: an error (without the decoder's own text), nothing for an entity that is no item, or the id and the mappings.
  unfoldable pub parse_entity_json : Bytes → Result Bytes (Option (Bytes × List Bytes))
  unfolding has_prefix extract_external_ids
  parse_entity_json data_json = elim (json.entity_of data_json) [
    | none ↦ err (codes "parse entity")
    | some (id, claims) ↦
        if has_prefix id (codes "Q") then ok (some (id, extract_external_ids claims)) else ok none
  ]
