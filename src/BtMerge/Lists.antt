-- ===== src/BtMerge/Lists.antt =====
-- `merge_sorted` of two ordered lists, with the duplicates and, for a total order, without them.
use libbchat_util.Base.{
  ℕ, zero, suc, ◌+◌, ◌<◌, ◌≡◌, refl, Ordering, List, [], ◌∷◌, Bool, true, false, ◌||◌,
  if◌then◌else◌, arith, inl, inr, length, Bool-cases,
}
use libbchat_util.Base.Order.{Order, Ordering-cases, lt}
use libbchat_util.Base.SortedSet.{has, Above, IsSorted, Above-trans}
use libbchat_util.BtMerge.{merge_all, merge_once, merge_sorted}

-- How many elements pass a test.
unfoldable pub count {ℓ} : {A : Type ℓ} → (A → Bool) → List A → ℕ
count t [] = 0
count t (x ∷ xs) = if t x then suc (count t xs) else count t xs

count-merge_all {ℓ} :
    {A : Type ℓ} (cmp : A → A → Bool) (t : A → Bool) (n : ℕ) (a b : List A)
    → length a + length b < n
    → count t (merge_all cmp n a b) ≡ count t a + count t b
unfolding merge_all count
count-merge_all cmp t zero a b h = absurd (omega arith)
count-merge_all cmp t (suc n) [] b h = omega arith
count-merge_all cmp t (suc n) (x ∷ a) [] h = omega arith
count-merge_all cmp t (suc n) (x ∷ a) (y ∷ b) h = ground (
  arith,
  count-merge_all cmp t n a (y ∷ b) (omega arith),
  count-merge_all cmp t n (x ∷ a) b (omega arith),
)

module _ {ℓ} {K : Type ℓ} ⦃o : Order K⦄ where
  Above-merge_once :
      (n : ℕ) (k : K) (a b : List K) → Above k a → Above k b → Above k (merge_once lt n a b)
  unfolding merge_once
  Above-merge_once zero k a b h r = tt
  Above-merge_once (suc n) k [] b h r = r
  Above-merge_once (suc n) k (x ∷ a) [] h r = h
  Above-merge_once (suc n) k (x ∷ a) (y ∷ b) h r = elim (Bool-cases (lt y x)) [
    | inl e ↦ rw (e, merge_once) (r.0, Above-merge_once n k (x ∷ a) b h r.1)
    | inr e ↦ elim (Bool-cases (lt x y)) [
      | inl f ↦ rw (e, f, merge_once) (h.0, Above-merge_once n k a (y ∷ b) h.1 r)
      | inr f ↦ rw (e, f, merge_once) (Above-merge_once n k (x ∷ a) b h r.1)
    ]
  ]

  less : (x y : K) → lt x y ≡ true → o.cmp x y ≡ Ordering.lt
  less x y h = ground arith

  IsSorted-merge_once :
      (n : ℕ) (a b : List K) → IsSorted a → IsSorted b → IsSorted (merge_once lt n a b)
  unfolding merge_once
  IsSorted-merge_once zero a b h r = tt
  IsSorted-merge_once (suc n) [] b h r = r
  IsSorted-merge_once (suc n) (x ∷ a) [] h r = h
  IsSorted-merge_once (suc n) (x ∷ a) (y ∷ b) h r = elim (Bool-cases (lt y x)) [
    | inl e ↦
        rw (e, merge_once)
          (
            Above-merge_once n y (x ∷ a) b (less y x e, Above-trans y x a (less y x e) h.0) r.0,
            IsSorted-merge_once n (x ∷ a) b h r.1,
          )
    | inr e ↦ elim (Bool-cases (lt x y)) [
      | inl f ↦
          rw (e, f, merge_once)
            (
              Above-merge_once n x a (y ∷ b) h.0 (less x y f, Above-trans x y b (less x y f) r.0),
              IsSorted-merge_once n a (y ∷ b) h.1 r,
            )
      | inr f ↦ rw (e, f, merge_once) (IsSorted-merge_once n (x ∷ a) b h r.1)
    ]
  ]

  equal : (x y : K) → lt y x ≡ false → lt x y ≡ false → x ≡ y
  equal x y e f = elim (Ordering-cases (o.cmp x y)) [
    | inl g ↦ ground arith
    | inr (inl g) ↦ o.eq_of_cmp x y g
    | inr (inr g) ↦ ground (arith, o.cmp_swap_gt x y g)
  ]

  has-merge_once :
      (n : ℕ) (k : K) (a b : List K)
      → length a + length b < n
      → has k (merge_once lt n a b) ≡ (has k a || has k b)
  unfolding merge_once has
  has-merge_once zero k a b h = absurd (omega arith)
  has-merge_once (suc n) k [] b h = refl
  has-merge_once (suc n) k (x ∷ a) [] h = ground arith
  has-merge_once (suc n) k (x ∷ a) (y ∷ b) h = elim (Bool-cases (lt y x)) [
    | inl e ↦ rw (e, merge_once) (ground (arith, has-merge_once n k (x ∷ a) b (omega arith)))
    | inr e ↦ elim (Bool-cases (lt x y)) [
      | inl f ↦ rw (e, f, merge_once) (ground (arith, has-merge_once n k a (y ∷ b) (omega arith)))
      | inr f ↦
          rw (e, f, merge_once)
            (ground (arith, has-merge_once n k (x ∷ a) b (omega arith), equal x y e f))
    ]
  ]

  -- For a total order and two lists that ascend, merging without the duplicates gives a list that
  -- ascends and has the elements of both lists; with them, it gives as many elements with any
  -- property as the two lists have together.
  pub merge_sorted_lem :
      (a b : List K)
      → IsSorted a
      → IsSorted b
      → IsSorted (merge_sorted lt a b false)
        × ((k : K) → has k (merge_sorted lt a b false) ≡ (has k a || has k b))
        × ((t : K → Bool) → count t (merge_sorted lt a b true) ≡ count t a + count t b)
  unfolding merge_sorted
  merge_sorted_lem a b h r = (
    IsSorted-merge_once (suc (length a + length b)) a b h r,
    λ k. has-merge_once (suc (length a + length b)) k a b (omega arith),
    λ t. count-merge_all lt t (suc (length a + length b)) a b (omega arith),
  )
