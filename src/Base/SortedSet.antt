-- ===== src/Base/SortedSet.antt =====
-- `std::set`: the elements in ascending order, each once. `insert` and `erase` are the members of
-- that name; `has` is `count`. A set read off in order is a sorted list, and two sorted lists with
-- the same members are equal, which is what the proofs about sets rest on.
use Prim.Native.Nat.{Ordering}
use mathlib.Core.Path.{◌≡◌, refl, ap₂}
use mathlib.Core.Logic.{inl, inr}
use mathlib.Core.Bool.{Bool, false, not, ◌&&◌, ◌||◌}
use mathlib.Core.List.{List, [], ◌∷◌}
use native.Mathlib.Omega.{arith}
use libbchat_util.Base.Order.{Order, Ordering-cases, same}

module _ {ℓ} {K : Type ℓ} ⦃o : Order K⦄ where
  unfoldable pub has : K → List K → Bool
  has x [] = false
  has x (y ∷ ys) = same x y || has x ys

  unfoldable pub insert : K → List K → List K
  insert x [] = x ∷ []
  insert x (y ∷ ys) = elim (o.cmp x y) [
    | Ordering.lt ↦ x ∷ y ∷ ys
    | Ordering.eq ↦ y ∷ ys
    | Ordering.gt ↦ y ∷ insert x ys
  ]

  unfoldable pub erase : K → List K → List K
  erase x [] = []
  erase x (y ∷ ys) = elim (o.cmp x y) [ Ordering.eq ↦ erase x ys | _ ↦ y ∷ erase x ys ]

  -- Everything in the list comes after x.
  abbrev pub Above : K → List K → Type 0
  Above x [] = Unit {0}
  Above x (y ∷ ys) = (o.cmp x y ≡ Ordering.lt) × Above x ys

  abbrev pub IsSorted : List K → Type 0
  IsSorted [] = Unit {0}
  IsSorted (x ∷ xs) = Above x xs × IsSorted xs

  pub Above-trans : (x y : K) (ys : List K) → o.cmp x y ≡ Ordering.lt → Above y ys → Above x ys
  Above-trans x y [] h a = tt
  Above-trans x y (z ∷ zs) h a = (o.cmp_trans x y z h a.0, Above-trans x y zs h a.1)

  pub has-Above : (x : K) (ys : List K) → Above x ys → has x ys ≡ false
  unfolding has
  has-Above x [] a = refl
  has-Above x (y ∷ ys) a = ground (arith, has-Above x ys)

  -- Below the whole list.
  pub has_below : (x y : K) (ys : List K) → o.cmp x y ≡ Ordering.lt → Above y ys → has x ys ≡ false
  has_below x y ys h a = has-Above x ys (Above-trans x y ys h a)

  same_congr : (x y z : K) → o.cmp x y ≡ Ordering.eq → same z x ≡ same z y
  same_congr x y z h = ground (arith, o.eq_of_cmp x y)

  pub has-insert : (x y : K) (s : List K) → has x (insert y s) ≡ (same x y || has x s)
  unfolding has insert
  has-insert x y [] = refl
  has-insert x y (z ∷ zs) = ground (arith, has-insert x y zs, same_congr y z x)

  pub has-erase : (x y : K) (s : List K) → has x (erase y s) ≡ (not (same x y) && has x s)
  unfolding has erase
  has-erase x y [] = ground arith
  has-erase x y (z ∷ zs) =
      ground
        (arith, has-erase x y zs, o.eq_of_cmp y z, o.eq_of_cmp x z, o.eq_of_cmp x y, o.cmp_refl x)

  Above-insert : (w x : K) (s : List K) → o.cmp w x ≡ Ordering.lt → Above w s → Above w (insert x s)
  unfolding insert
  Above-insert w x [] h a = (h, tt)
  Above-insert w x (y ∷ ys) h a = ground (arith, Above-insert w x ys)

  pub insert-IsSorted : (x : K) (s : List K) → IsSorted s → IsSorted (insert x s)
  unfolding insert
  insert-IsSorted x [] h = (tt, tt)
  insert-IsSorted x (y ∷ ys) h = elim (Ordering-cases (o.cmp x y)) [
    | inl e ↦ rw (e, insert) ((e, Above-trans x y ys e h.0), h)
    | inr (inl e) ↦ rw (e, insert) h
    | inr (inr e) ↦
        rw (e, insert) (Above-insert y x ys (o.cmp_swap_gt x y e) h.0, insert-IsSorted x ys h.1)
  ]

  Above-erase : (w x : K) (s : List K) → Above w s → Above w (erase x s)
  unfolding erase
  Above-erase w x [] a = tt
  Above-erase w x (y ∷ ys) a = ground (arith, Above-erase w x ys)

  pub erase-IsSorted : (x : K) (s : List K) → IsSorted s → IsSorted (erase x s)
  unfolding erase
  erase-IsSorted x [] h = tt
  erase-IsSorted x (y ∷ ys) h = ground (arith, erase-IsSorted x ys, Above-erase y x ys)

  -- A sorted set is determined by its members.
  pub eq_of_has : (s t : List K) → IsSorted s → IsSorted t → ((x : K) → has x s ≡ has x t) → s ≡ t
  unfolding has
  eq_of_has [] [] hs ht h = refl
  eq_of_has [] (y ∷ ys) hs ht h = ground (arith, h y, o.cmp_refl y)
  eq_of_has (x ∷ xs) [] hs ht h = ground (arith, h x, o.cmp_refl x)
  eq_of_has (x ∷ xs) (y ∷ ys) hs ht h = elim (Ordering-cases (o.cmp x y)) [
    | inl e ↦ ground (arith, h x, o.cmp_refl x, has_below x y ys e)
    | inr (inl e) ↦ ap₂ ◌∷◌ (o.eq_of_cmp x y e) (
        eq_of_has xs ys hs.1 ht.1 λ z.
          ground (arith, h z, o.eq_of_cmp x y e, o.eq_of_cmp z x, has-Above x xs, has-Above y ys))
    | inr (inr e) ↦ ground (arith, h y, o.cmp_refl y, o.cmp_swap_gt x y, has_below y x xs)
  ]
