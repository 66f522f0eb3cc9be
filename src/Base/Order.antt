-- ===== src/Base/Order.antt =====
-- Total orders, as the three-way comparison of C++'s ordered containers, and the orders of the
-- types that the source keys its maps by: integers, `std::string`, pairs.
use Prim.Native.Nat.{ℕ, compare, Ordering}
use mathlib.Core.Path.{◌≡◌, refl}
use mathlib.Core.Logic.{◌⊎◌, inl, inr, ◌≢◌}
use mathlib.Core.Bool.{Bool, true, false}
use mathlib.Core.List.{List, [], ◌∷◌}
use native.Mathlib.Omega.{arith}

pub record Order {ℓ} (K : Type ℓ) : Type ℓ where
  pub cmp : K → K → Ordering
  pub cmp_refl : (a : K) → cmp a a ≡ Ordering.eq
  pub eq_of_cmp : (a b : K) → cmp a b ≡ Ordering.eq → a ≡ b
  pub cmp_swap : (a b : K) → cmp a b ≡ Ordering.lt → cmp b a ≡ Ordering.gt
  pub cmp_swap_gt : (a b : K) → cmp a b ≡ Ordering.gt → cmp b a ≡ Ordering.lt
  pub cmp_trans :
      (a b c : K) → cmp a b ≡ Ordering.lt → cmp b c ≡ Ordering.lt → cmp a c ≡ Ordering.lt

pub Ordering-cases : (o : Ordering) → (o ≡ Ordering.lt) ⊎ (o ≡ Ordering.eq) ⊎ (o ≡ Ordering.gt)
Ordering-cases Ordering.lt = inl refl
Ordering-cases Ordering.eq = inr (inl refl)
Ordering-cases Ordering.gt = inr (inr refl)

-- A decision whether a comparison says `eq`.
pub is_eq : (o : Ordering) → (o ≡ Ordering.eq) ⊎ (o ≢ Ordering.eq)
is_eq Ordering.lt = inr (λ e. ground arith)
is_eq Ordering.eq = inl refl
is_eq Ordering.gt = inr (λ e. ground arith)

-- a < b and a == b of the source, at an order.
module _ {ℓ} {K : Type ℓ} ⦃o : Order K⦄ where
  abbrev pub lt : K → K → Bool
  lt a b = elim (o.cmp a b) [ Ordering.lt ↦ true | _ ↦ false ]

  abbrev pub same : K → K → Bool
  same a b = elim (o.cmp a b) [ Ordering.eq ↦ true | _ ↦ false ]

-- First one comparison, then another: pairs, lists and variants.
abbrev pub then_by : Ordering → Ordering → Ordering
then_by Ordering.lt q = Ordering.lt
then_by Ordering.eq q = q
then_by Ordering.gt q = Ordering.gt

pub compare_self : (a : ℕ) → compare a a ≡ Ordering.eq
compare_self a = ground arith

pub eq_of_compare : (a b : ℕ) → compare a b ≡ Ordering.eq → a ≡ b
eq_of_compare a b h = ground arith

pub compare_swap : (a b : ℕ) → compare a b ≡ Ordering.lt → compare b a ≡ Ordering.gt
compare_swap a b h = ground arith

pub compare_swap_gt : (a b : ℕ) → compare a b ≡ Ordering.gt → compare b a ≡ Ordering.lt
compare_swap_gt a b h = ground arith

pub compare_trans :
    (a b c : ℕ) → compare a b ≡ Ordering.lt → compare b c ≡ Ordering.lt → compare a c ≡ Ordering.lt
compare_trans a b c h k = ground arith

instance abbrev pub nat_order : Order ℕ
nat_order = record {
  cmp = compare;
  cmp_refl = compare_self;
  eq_of_cmp = eq_of_compare;
  cmp_swap = compare_swap;
  cmp_swap_gt = compare_swap_gt;
  cmp_trans = compare_trans;
}

-- Signed integers; `negsuc n` is -(n + 1).
pub data ℤ : Type 0 where
  pos : ℕ → ℤ
  negsuc : ℕ → ℤ

abbrev pub compare_ℤ : ℤ → ℤ → Ordering
compare_ℤ (pos a) (pos b) = compare a b
compare_ℤ (pos a) (negsuc b) = Ordering.gt
compare_ℤ (negsuc a) (pos b) = Ordering.lt
compare_ℤ (negsuc a) (negsuc b) = compare b a

pub compare_ℤ_refl : (a : ℤ) → compare_ℤ a a ≡ Ordering.eq
compare_ℤ_refl (pos a) = compare_self a
compare_ℤ_refl (negsuc a) = compare_self a

pub eq_of_compare_ℤ : (a b : ℤ) → compare_ℤ a b ≡ Ordering.eq → a ≡ b
eq_of_compare_ℤ (pos a) (pos b) h = ground arith
eq_of_compare_ℤ (pos a) (negsuc b) h = ground arith
eq_of_compare_ℤ (negsuc a) (pos b) h = ground arith
eq_of_compare_ℤ (negsuc a) (negsuc b) h = ground arith

pub compare_ℤ_swap : (a b : ℤ) → compare_ℤ a b ≡ Ordering.lt → compare_ℤ b a ≡ Ordering.gt
compare_ℤ_swap (pos a) b h = ground arith
compare_ℤ_swap (negsuc a) b h = ground arith

pub compare_ℤ_swap_gt : (a b : ℤ) → compare_ℤ a b ≡ Ordering.gt → compare_ℤ b a ≡ Ordering.lt
compare_ℤ_swap_gt (pos a) b h = ground arith
compare_ℤ_swap_gt (negsuc a) b h = ground arith

pub compare_ℤ_trans :
    (a b c : ℤ)
    → compare_ℤ a b ≡ Ordering.lt
    → compare_ℤ b c ≡ Ordering.lt
    → compare_ℤ a c ≡ Ordering.lt
compare_ℤ_trans (pos a) b c h k = ground arith
compare_ℤ_trans (negsuc a) b c h k = ground arith

instance abbrev pub int_order : Order ℤ
int_order = record {
  cmp = compare_ℤ;
  cmp_refl = compare_ℤ_refl;
  eq_of_cmp = eq_of_compare_ℤ;
  cmp_swap = compare_ℤ_swap;
  cmp_swap_gt = compare_ℤ_swap_gt;
  cmp_trans = compare_ℤ_trans;
}

-- The bytes of a `std::string`, each below 256.
abbrev pub Bytes : Type 0
Bytes = List ℕ

-- `std::string::compare`: lexicographic, by unsigned bytes.
unfoldable pub compare_bytes : Bytes → Bytes → Ordering
compare_bytes [] [] = Ordering.eq
compare_bytes [] (b ∷ bs) = Ordering.lt
compare_bytes (a ∷ as_) [] = Ordering.gt
compare_bytes (a ∷ as_) (b ∷ bs) = then_by (compare a b) (compare_bytes as_ bs)

pub compare_bytes_refl : (a : Bytes) → compare_bytes a a ≡ Ordering.eq
unfolding compare_bytes
compare_bytes_refl [] = refl
compare_bytes_refl (x ∷ xs) = ground (arith, compare_bytes_refl xs)

pub eq_of_compare_bytes : (a b : Bytes) → compare_bytes a b ≡ Ordering.eq → a ≡ b
unfolding compare_bytes
eq_of_compare_bytes [] [] h = refl
eq_of_compare_bytes [] (y ∷ ys) h = ground arith
eq_of_compare_bytes (x ∷ xs) [] h = ground arith
eq_of_compare_bytes (x ∷ xs) (y ∷ ys) h = ground (arith, eq_of_compare_bytes xs ys)

pub compare_bytes_swap :
    (a b : Bytes) → compare_bytes a b ≡ Ordering.lt → compare_bytes b a ≡ Ordering.gt
unfolding compare_bytes
compare_bytes_swap [] [] h = ground arith
compare_bytes_swap [] (y ∷ ys) h = refl
compare_bytes_swap (x ∷ xs) [] h = ground arith
compare_bytes_swap (x ∷ xs) (y ∷ ys) h = ground (arith, compare_bytes_swap xs ys)

pub compare_bytes_swap_gt :
    (a b : Bytes) → compare_bytes a b ≡ Ordering.gt → compare_bytes b a ≡ Ordering.lt
unfolding compare_bytes
compare_bytes_swap_gt [] [] h = ground arith
compare_bytes_swap_gt [] (y ∷ ys) h = ground arith
compare_bytes_swap_gt (x ∷ xs) [] h = refl
compare_bytes_swap_gt (x ∷ xs) (y ∷ ys) h = ground (arith, compare_bytes_swap_gt xs ys)

pub compare_bytes_trans :
    (a b c : Bytes)
    → compare_bytes a b ≡ Ordering.lt
    → compare_bytes b c ≡ Ordering.lt
    → compare_bytes a c ≡ Ordering.lt
unfolding compare_bytes
compare_bytes_trans [] [] c h k = ground arith
compare_bytes_trans [] (y ∷ ys) [] h k = ground arith
compare_bytes_trans [] (y ∷ ys) (z ∷ zs) h k = refl
compare_bytes_trans (x ∷ xs) [] c h k = ground arith
compare_bytes_trans (x ∷ xs) (y ∷ ys) [] h k = ground arith
compare_bytes_trans (x ∷ xs) (y ∷ ys) (z ∷ zs) h k = ground (arith, compare_bytes_trans xs ys zs)

instance abbrev pub bytes_order : Order Bytes
bytes_order = record {
  cmp = compare_bytes;
  cmp_refl = compare_bytes_refl;
  eq_of_cmp = eq_of_compare_bytes;
  cmp_swap = compare_bytes_swap;
  cmp_swap_gt = compare_bytes_swap_gt;
  cmp_trans = compare_bytes_trans;
}

-- `std::pair`: by the first component, and then by the second.
module _ {ℓ κ} {A : Type ℓ} {B : Type κ} ⦃o : Order A⦄ ⦃p : Order B⦄ where
  unfoldable pub compare_pair : A × B → A × B → Ordering
  compare_pair (a, b) (c, d) = then_by (o.cmp a c) (p.cmp b d)

  pub compare_pair_refl : (x : A × B) → compare_pair x x ≡ Ordering.eq
  unfolding compare_pair
  compare_pair_refl (a, b) = ground (arith, o.cmp_refl a, p.cmp_refl b)

  pub eq_of_compare_pair : (x y : A × B) → compare_pair x y ≡ Ordering.eq → x ≡ y
  unfolding compare_pair
  eq_of_compare_pair (a, b) (c, d) h = ground (arith, o.eq_of_cmp a c, p.eq_of_cmp b d)

  pub compare_pair_swap :
      (x y : A × B) → compare_pair x y ≡ Ordering.lt → compare_pair y x ≡ Ordering.gt
  unfolding compare_pair
  compare_pair_swap (a, b) (c, d) h =
      ground (arith, o.cmp_swap a c, p.cmp_swap b d, o.eq_of_cmp a c, o.cmp_refl a)

  pub compare_pair_swap_gt :
      (x y : A × B) → compare_pair x y ≡ Ordering.gt → compare_pair y x ≡ Ordering.lt
  unfolding compare_pair
  compare_pair_swap_gt (a, b) (c, d) h =
      ground (arith, o.cmp_swap_gt a c, p.cmp_swap_gt b d, o.eq_of_cmp a c, o.cmp_refl a)

  pub compare_pair_trans :
      (x y z : A × B)
      → compare_pair x y ≡ Ordering.lt
      → compare_pair y z ≡ Ordering.lt
      → compare_pair x z ≡ Ordering.lt
  unfolding compare_pair
  compare_pair_trans (a, b) (c, d) (e, f) h k =
      ground (
        arith,
        o.cmp_trans a c e,
        p.cmp_trans b d f,
        o.eq_of_cmp a c,
        o.eq_of_cmp c e,
        o.cmp_refl a,
      )

  instance abbrev pub pair_order : Order (A × B)
  pair_order = record {
    cmp = compare_pair;
    cmp_refl = compare_pair_refl;
    eq_of_cmp = eq_of_compare_pair;
    cmp_swap = compare_pair_swap;
    cmp_swap_gt = compare_pair_swap_gt;
    cmp_trans = compare_pair_trans;
  }
