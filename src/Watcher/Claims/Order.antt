-- ===== src/Watcher/Claims/Order.antt =====
-- The order of entries, and the independence of the extracted mappings of the order of the claims map.
use wdxref.Base.{
  ◌++◌, append_assoc, sym, ◌≡◌, refl, ap, true, false, arith, Bytes, beq, beq_iff, [], ◌∷◌, List,
}
use mathlib.Core.List.{Permᴰ}
use mathlib.Core.List.Permᴰ
use wdxref.Base.Int.{ℤ, pos, negsuc, ltb_ℤ}
use wdxref.Base.Sorting.{IsStrictOrder, sort_by_perm}
use wdxref.Store.Words.{less}
use wdxref.Watcher.Claims.{
  ClaimsMap, entries_at, WikidataJson, Entry, entries_of, entry_less, dedup, extract_external_ids,
}

less_asym : (s t : Bytes) → less s t ≡ true → less t s ≡ false
unfolding less
less_asym [] [] h = refl
less_asym [] (b ∷ t) h = refl
less_asym (a ∷ s) [] h = cc
less_asym (a ∷ s) (b ∷ t) h = ground (arith, less_asym s t)

less_below : (s t u : Bytes) → less u s ≡ false → less u t ≡ true → less s t ≡ true
unfolding less
less_below [] [] [] h k = cc
less_below s [] (c ∷ u) h k = ground (arith)
less_below [] (b ∷ t) u h k = refl
less_below (a ∷ s) [] [] h k = cc
less_below (a ∷ s) (b ∷ t) [] h k = cc
less_below (a ∷ s) (b ∷ t) (c ∷ u) h k = ground (arith, less_below s t u)

less_connected : (s t : Bytes) → less s t ≡ false → less t s ≡ false → s ≡ t
unfolding less
less_connected [] [] h k = refl
less_connected [] (b ∷ t) h k = cc
less_connected (a ∷ s) [] h k = cc
less_connected (a ∷ s) (b ∷ t) h k = ground (arith, less_connected s t)

ltb_ℤ-connected : (a b : ℤ) → ltb_ℤ a b ≡ false → ltb_ℤ b a ≡ false → a ≡ b
ltb_ℤ-connected (pos a) (pos b) h k = ground arith
ltb_ℤ-connected (pos a) (negsuc b) h k = ground arith
ltb_ℤ-connected (negsuc a) (pos b) h k = ground arith
ltb_ℤ-connected (negsuc a) (negsuc b) h k = ground arith

-- Two strings are equal, or one of them comes before the other.
less-beq : (s t : Bytes) → less s t ≡ true → beq s t ≡ false
unfolding less beq
less-beq [] [] h = cc
less-beq [] (b ∷ t) h = refl
less-beq (a ∷ s) [] h = cc
less-beq (a ∷ s) (b ∷ t) h = ground (arith, less-beq s t)

beq_comm : (s t : Bytes) → beq s t ≡ beq t s
unfolding beq
beq_comm [] [] = refl
beq_comm [] (b ∷ t) = refl
beq_comm (a ∷ s) [] = refl
beq_comm (a ∷ s) (b ∷ t) = ground (arith, beq_comm s t)

entry_asym : (x y : Entry) → entry_less x y ≡ true → entry_less y x ≡ false
unfolding entry_less
entry_asym x y h = ground (
  arith,
  beq_comm x.prop_key y.prop_key,
  less_asym x.prop_key y.prop_key,
  less_asym x.value y.value,
)

entry_connected : (x y : Entry) → entry_less x y ≡ false → entry_less y x ≡ false → x ≡ y
unfolding entry_less
entry_connected x y h k =
    let prop : x.prop_key ≡ y.prop_key = ground (
      arith,
      beq_comm x.prop_key y.prop_key,
      less_connected x.prop_key y.prop_key,
      beq_iff x.prop_key y.prop_key,
    ) in
    let rank : x.rank ≡ y.rank = ground (
      arith,
      beq_comm x.prop_key y.prop_key,
      ltb_ℤ-connected x.rank y.rank,
      less_connected x.prop_key y.prop_key,
      beq_iff x.prop_key y.prop_key,
    ) in
    let value : x.value ≡ y.value = ground (
      arith,
      beq_comm x.prop_key y.prop_key,
      less_connected x.value y.value,
      less_connected x.prop_key y.prop_key,
      beq_iff x.prop_key y.prop_key,
    ) in
    λ i. record { prop_key = prop i; rank = rank i; value = value i }

entry_below :
    (x y z : Entry) → entry_less z x ≡ false → entry_less z y ≡ true → entry_less x y ≡ true
unfolding entry_less
entry_below x y z h k = ground (
  arith,
  less_below x.prop_key y.prop_key z.prop_key,
  less_below x.value y.value z.value,
  less_connected z.prop_key x.prop_key,
  beq_iff z.prop_key x.prop_key,
  beq_iff z.prop_key y.prop_key,
  beq_iff x.prop_key y.prop_key,
  less-beq x.prop_key y.prop_key,
)

pub entry_less-IsStrictOrder : IsStrictOrder entry_less
entry_less-IsStrictOrder = record {
  asym = entry_asym;
  below = entry_below;
  connected = entry_connected;
}

swap_parts {ℓ} : {A : Type ℓ} (a b c : List A) → Permᴰ (a ++ (b ++ c)) (b ++ (a ++ c))
swap_parts a b c =
    rw (sym (append_assoc a b c), sym (append_assoc b a c))
      (Permᴰ.append_right c (Permᴰ.append_comm a b))

module _ (json : WikidataJson) where
  entries_of_perm :
      (claims iterated : ClaimsMap)
      → Permᴰ claims iterated
      → Permᴰ (entries_of json claims) (entries_of json iterated)
  unfolding entries_of
  entries_of_perm _ _ Permᴰ.nil = Permᴰ.nil
  entries_of_perm _ _ (Permᴰ.cons {a = a} {b = b} {l₁ = l} {l₂ = m} e h) =
      let ih = entries_of_perm l m h in rw (sym e) (Permᴰ.append_left (entries_at json a) ih)
  entries_of_perm _ _ (Permᴰ.swap {a = a} {b = b} {l = l} e d) =
      rw (sym e, sym d) (swap_parts (entries_at json a) (entries_at json b) (entries_of json l))
  entries_of_perm _ _ (Permᴰ.trans {l₂ = l} h k) =
      Permᴰ.trans (entries_of_perm _ l h) (entries_of_perm l _ k)

  -- The mappings of an entity do not depend on the order in which its claims map is iterated.
  pub extract_external_ids_perm :
      (claims iterated : ClaimsMap)
      → Permᴰ claims iterated
      → extract_external_ids json claims ≡ extract_external_ids json iterated
  unfolding extract_external_ids
  extract_external_ids_perm claims iterated h =
      ap dedup
        (sort_by_perm entry_less entry_less-IsStrictOrder _ _ (entries_of_perm claims iterated h))
