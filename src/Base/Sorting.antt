-- ===== src/Base/Sorting.antt =====
-- Sorting by insertion, for sort.Slice: elements that neither comes before the other are equal here,
-- so the result does not depend on how it sorts.
use mathlib.Core.Path.{◌≡◌, refl, ◌∙◌}
use mathlib.Core.Bool.{Bool, true, false, ◌||◌}
use mathlib.Core.List.{List, [], ◌∷◌}
use mathlib.Core.List.{Permᴰ}
use native.Mathlib.Omega.{arith}
use wdxref.Base.Tests.{if◌then◌else◌}

pub record IsStrictOrder {ℓ} {A : Type ℓ} (less : A → A → Bool) : Type ℓ where
  pub asym : (x y : A) → less x y ≡ true → less y x ≡ false
  pub below : (x y z : A) → less z x ≡ false → less z y ≡ true → less x y ≡ true
  pub connected : (x y : A) → less x y ≡ false → less y x ≡ false → x ≡ y

module _ {ℓ} {A : Type ℓ} (less : A → A → Bool) where
  unfoldable pub insert_by : A → List A → List A
  insert_by x [] = x ∷ []
  insert_by x (y ∷ ys) = let later = y ∷ insert_by x ys in if less y x then later else x ∷ y ∷ ys

  unfoldable pub sort_by : List A → List A
  unfolding insert_by
  sort_by [] = []
  sort_by (x ∷ xs) = insert_by x (sort_by xs)

-- Whether a list has an element that passes a test.
abbrev pub any {ℓ} : {A : Type ℓ} → (A → Bool) → List A → Bool
any p [] = false
any p (x ∷ xs) = p x || any p xs

module _ {ℓ} {A : Type ℓ} (less : A → A → Bool) where
  any-insert_by :
      (p : A → Bool) (x : A) (l : List A) → any p (insert_by less x l) ≡ (p x || any p l)
  unfolding insert_by
  any-insert_by p x [] = refl
  any-insert_by p x (y ∷ l) = ground (arith, any-insert_by p x l)

  pub any-sort_by : (p : A → Bool) (l : List A) → any p (sort_by less l) ≡ any p l
  unfolding sort_by
  any-sort_by p [] = refl
  any-sort_by p (x ∷ l) = cc (any-insert_by p x (sort_by less l), any-sort_by p l)

  module _ (order : IsStrictOrder less) where
    insert_comm :
        (x y : A) (l : List A)
        → insert_by less x (insert_by less y l) ≡ insert_by less y (insert_by less x l)
    unfolding insert_by
    insert_comm x y [] = ground (arith, order.asym x y, order.connected x y)
    insert_comm x y (z ∷ l) = ground (
      arith,
      order.asym x y,
      order.connected x y,
      order.below x y z,
      order.below y x z,
      insert_comm x y l,
    )

    pub sort_by_perm : (l m : List A) → Permᴰ l m → sort_by less l ≡ sort_by less m
    unfolding sort_by
    sort_by_perm _ _ Permᴰ.nil = refl
    sort_by_perm _ _ (Permᴰ.cons {a = a} {b = b} e h) = cc (e, sort_by_perm _ _ h)
    sort_by_perm _ _ (Permᴰ.swap {a = a} {b = b} {l = l} e d) =
        cc (insert_comm a b (sort_by less l), e, d)
    sort_by_perm _ _ (Permᴰ.trans h k) = sort_by_perm _ _ h ∙ sort_by_perm _ _ k
