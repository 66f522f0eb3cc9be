-- ===== src/BtMerge/Dicts.antt =====
-- `merge` of two dicts: the keys of both, with the values of the first where it has them.
use libbchat_util.Base.{
  ℕ, zero, suc, ◌+◌, ◌≤◌, ◌≡◌, refl, sym, ap, subst, Ordering, Option, none, some, List, [], ◌∷◌,
  arith, inl, inr, length,
}
use libbchat_util.Base.Order.{Bytes, bytes_order, compare_bytes, Ordering-cases}
use libbchat_util.BtMerge.{merge_loop, merge}

same_place :
    (k i j : Bytes) → compare_bytes i j ≡ Ordering.eq → compare_bytes k i ≡ compare_bytes k j
same_place k i j e = ap (compare_bytes k) (bytes_order.eq_of_cmp i j e)

module _ {ℓ} {V : Type ℓ} where
  unfoldable pub value_at : Bytes → List (Bytes × V) → Option V
  value_at k [] = none
  value_at k (x ∷ a) = elim (compare_bytes k x.0) [ Ordering.eq ↦ some x.1 | _ ↦ value_at k a ]

  abbrev pub or_else : Option V → Option V → Option V
  or_else none o = o
  or_else (some v) o = some v

  abbrev pub Above : Bytes → List (Bytes × V) → Type 0
  Above k [] = Unit {0}
  Above k (x ∷ a) = (compare_bytes k x.0 ≡ Ordering.lt) × Above k a

  abbrev pub IsOrdered : List (Bytes × V) → Type 0
  IsOrdered [] = Unit {0}
  IsOrdered (x ∷ a) = Above x.0 a × IsOrdered a

  Above-trans :
      (j k : Bytes) (a : List (Bytes × V)) → compare_bytes j k ≡ Ordering.lt → Above k a → Above j a
  Above-trans j k [] h r = tt
  Above-trans j k (x ∷ a) h r = (bytes_order.cmp_trans j k x.0 h r.0, Above-trans j k a h r.1)

  Above-merge_loop :
      (n : ℕ) (k : Bytes) (a b : List (Bytes × V))
      → Above k a
      → Above k b
      → Above k (merge_loop n a b)
  unfolding merge_loop
  Above-merge_loop zero k a b h r = tt
  Above-merge_loop (suc n) k [] [] h r = tt
  Above-merge_loop (suc n) k (x ∷ a) [] h r = (h.0, Above-merge_loop n k a [] h.1 r)
  Above-merge_loop (suc n) k [] (y ∷ b) h r = (r.0, Above-merge_loop n k [] b h r.1)
  Above-merge_loop (suc n) k (x ∷ a) (y ∷ b) h r = elim (Ordering-cases (compare_bytes x.0 y.0)) [
    | inl e ↦ rw (e, merge_loop) (h.0, Above-merge_loop n k a (y ∷ b) h.1 r)
    | inr (inl e) ↦ rw (e, merge_loop) (h.0, Above-merge_loop n k a b h.1 r.1)
    | inr (inr e) ↦ rw (e, merge_loop) (r.0, Above-merge_loop n k (x ∷ a) b h r.1)
  ]

  Above-equal :
      (j k : Bytes) (a : List (Bytes × V)) → compare_bytes j k ≡ Ordering.eq → Above k a → Above j a
  Above-equal j k a e h = subst (λ x. Above x a) (sym (bytes_order.eq_of_cmp j k e)) h

  IsOrdered-merge_loop :
      (n : ℕ) (a b : List (Bytes × V)) → IsOrdered a → IsOrdered b → IsOrdered (merge_loop n a b)
  unfolding merge_loop
  IsOrdered-merge_loop zero a b h r = tt
  IsOrdered-merge_loop (suc n) [] [] h r = tt
  IsOrdered-merge_loop (suc n) (x ∷ a) [] h r =
      (Above-merge_loop n x.0 a [] h.0 tt, IsOrdered-merge_loop n a [] h.1 r)
  IsOrdered-merge_loop (suc n) [] (y ∷ b) h r =
      (Above-merge_loop n y.0 [] b tt r.0, IsOrdered-merge_loop n [] b h r.1)
  IsOrdered-merge_loop (suc n) (x ∷ a) (y ∷ b) h r = elim (Ordering-cases (compare_bytes x.0 y.0)) [
    | inl e ↦
        rw (e, merge_loop)
          (
            Above-merge_loop n x.0 a (y ∷ b) h.0 (e, Above-trans x.0 y.0 b e r.0),
            IsOrdered-merge_loop n a (y ∷ b) h.1 r,
          )
    | inr (inl e) ↦
        rw (e, merge_loop)
          (
            Above-merge_loop n x.0 a b h.0 (Above-equal x.0 y.0 b e r.0),
            IsOrdered-merge_loop n a b h.1 r.1,
          )
    | inr (inr e) ↦
        let less = bytes_order.cmp_swap_gt x.0 y.0 e in
        rw (e, merge_loop)
          (
            Above-merge_loop n y.0 (x ∷ a) b (less, Above-trans y.0 x.0 a less h.0) r.0,
            IsOrdered-merge_loop n (x ∷ a) b h r.1,
          )
  ]

  value-Above : (k : Bytes) (a : List (Bytes × V)) → Above k a → value_at k a ≡ none
  unfolding value_at
  value-Above k [] h = refl
  value-Above k (x ∷ a) h = ground (arith, value-Above k a)

  -- A key of the second dict that comes before the first one is not in the first one.
  not_first :
      (k : Bytes) (x y : Bytes × V) (a : List (Bytes × V))
      → compare_bytes k y.0 ≡ Ordering.eq
      → compare_bytes x.0 y.0 ≡ Ordering.gt
      → Above x.0 a
      → value_at k (x ∷ a) ≡ none
  not_first k x y a f e h = value-Above k (x ∷ a) (
      Above-equal k y.0 (x ∷ a) f (
        bytes_order.cmp_swap_gt x.0 y.0 e,
        Above-trans y.0 x.0 a (bytes_order.cmp_swap_gt x.0 y.0 e) h,
      ))

  at_second :
      (k : Bytes) (x y : Bytes × V) (a b rest : List (Bytes × V))
      → compare_bytes x.0 y.0 ≡ Ordering.gt
      → Above x.0 a
      → value_at k rest ≡ or_else (value_at k (x ∷ a)) (value_at k b)
      → value_at k (y ∷ rest) ≡ or_else (value_at k (x ∷ a)) (value_at k (y ∷ b))
  unfolding value_at
  at_second k x y a b rest e h q = elim (Ordering-cases (compare_bytes k y.0)) [
    | inr (inl f) ↦ rw (not_first k x y a f e h, f, value_at) refl
    | inl f ↦ rw (f, value_at) q
    | inr (inr f) ↦ rw (f, value_at) q
  ]

  value_at-merge_loop :
      (n : ℕ) (k : Bytes) (a b : List (Bytes × V))
      → length a + length b ≤ n
      → IsOrdered a
      → IsOrdered b
      → value_at k (merge_loop n a b) ≡ or_else (value_at k a) (value_at k b)
  unfolding merge_loop value_at
  value_at-merge_loop zero k [] [] l h r = refl
  value_at-merge_loop zero k (x ∷ a) b l h r = absurd (omega arith)
  value_at-merge_loop zero k [] (y ∷ b) l h r = absurd (omega arith)
  value_at-merge_loop (suc n) k [] [] l h r = refl
  value_at-merge_loop (suc n) k (x ∷ a) [] l h r =
      ground (arith, value_at-merge_loop n k a [] (omega arith) h.1 r)
  value_at-merge_loop (suc n) k [] (y ∷ b) l h r =
      ground (arith, value_at-merge_loop n k [] b (omega arith) h r.1)
  value_at-merge_loop (suc n) k (x ∷ a) (y ∷ b) l h r =
      elim (Ordering-cases (compare_bytes x.0 y.0)) [
        | inl e ↦
            rw (e, merge_loop)
              (ground (arith, value_at-merge_loop n k a (y ∷ b) (omega arith) h.1 r))
        | inr (inl e) ↦
            rw (e, merge_loop)
              (ground
                (arith, value_at-merge_loop n k a b (omega arith) h.1 r.1, same_place k x.0 y.0 e))
        | inr (inr e) ↦
            rw (e, merge_loop)
              (at_second k x y a b (merge_loop n (x ∷ a) b) e h.0
                (value_at-merge_loop n k (x ∷ a) b (omega arith) h r.1))
      ]

  -- For dicts whose keys ascend, the keys of the merged dict ascend, and it has the value of the
  -- first dict at each key that the first dict has, and of the second dict at each other key.
  pub merge_lem :
      (a b : List (Bytes × V))
      → IsOrdered a
      → IsOrdered b
      → IsOrdered (merge a b)
        × ((k : Bytes) → value_at k (merge a b) ≡ or_else (value_at k a) (value_at k b))
  unfolding merge
  merge_lem a b h r = (
    IsOrdered-merge_loop (length a + length b) a b h r,
    λ k. value_at-merge_loop (length a + length b) k a b (omega arith) h r,
  )
