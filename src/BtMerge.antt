-- ===== src/BtMerge.antt =====
-- bt_merge.cpp and include/bchat/bt_merge.hpp: the merging of two dicts and of two ordered lists. A
-- dict is its entries in the order of the keys; the values belong to oxenc, and are of any type.
pub mod Dicts
pub mod Lists
use libbchat_util.Base.{
  ℕ, zero, suc, ◌+◌, Ordering, Option, none, some, List, [], ◌∷◌, ◌++◌, Bool, true, false,
  if◌then◌else◌, length,
}
use libbchat_util.Base.Order.{Bytes, compare_bytes}

module _ {ℓ} {V : Type ℓ} where
  -- The loop over the two iterators, on fuel.
  unfoldable pub merge_loop : ℕ → List (Bytes × V) → List (Bytes × V) → List (Bytes × V)
  merge_loop zero a b = []
  merge_loop (suc n) [] [] = []
  merge_loop (suc n) (x ∷ a) [] = x ∷ merge_loop n a []
  merge_loop (suc n) [] (y ∷ b) = y ∷ merge_loop n [] b
  merge_loop (suc n) (x ∷ a) (y ∷ b) = elim (compare_bytes x.0 y.0) [
    | Ordering.lt ↦ x ∷ merge_loop n a (y ∷ b)
    | Ordering.eq ↦ x ∷ merge_loop n a b
    | Ordering.gt ↦ y ∷ merge_loop n (x ∷ a) b
  ]

  unfoldable pub merge : List (Bytes × V) → List (Bytes × V) → List (Bytes × V)
  merge a b = merge_loop (length a + length b) a b

-- `merge_sorted`, with and without the duplicates.
module _ {ℓ} {A : Type ℓ} (cmp : A → A → Bool) where
  unfoldable pub merge_all : ℕ → List A → List A → List A
  merge_all zero a b = []
  merge_all (suc n) [] b = b
  merge_all (suc n) (x ∷ a) [] = x ∷ a
  merge_all (suc n) (x ∷ a) (y ∷ b) =
      if cmp x y then x ∷ merge_all n a (y ∷ b) else y ∷ merge_all n (x ∷ a) b

  unfoldable pub merge_once : ℕ → List A → List A → List A
  merge_once zero a b = []
  merge_once (suc n) [] b = b
  merge_once (suc n) (x ∷ a) [] = x ∷ a
  merge_once (suc n) (x ∷ a) (y ∷ b) =
      if cmp y x
      then y ∷ merge_once n (x ∷ a) b
      else (if cmp x y then x ∷ merge_once n a (y ∷ b) else merge_once n (x ∷ a) b)

  unfoldable pub merge_sorted : List A → List A → Bool → List A
  merge_sorted a b true = merge_all (suc (length a + length b)) a b
  merge_sorted a b false = merge_once (suc (length a + length b)) a b
