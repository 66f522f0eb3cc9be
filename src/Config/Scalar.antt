-- ===== src/Config/Scalar.antt =====
-- The scalar of config.hpp, `std::variant<int64_t, std::string>`, and its order. An `int64_t` is an
-- integer: the code only compares it.
use libbchat_util.Base.{Ordering, ◌≡◌, refl, ap, arith}
use libbchat_util.Base.Order.{
  Order, ℤ, Bytes, compare_ℤ, compare_ℤ_refl, compare_ℤ_swap, compare_ℤ_swap_gt, compare_ℤ_trans,
  eq_of_compare_ℤ, compare_bytes, compare_bytes_refl, compare_bytes_swap, compare_bytes_swap_gt,
  compare_bytes_trans, eq_of_compare_bytes,
}

pub data Scalar : Type 0 where
  int : ℤ → Scalar
  str : Bytes → Scalar

-- A variant compares by its index, and then by its value.
unfoldable pub compare_scalar : Scalar → Scalar → Ordering
compare_scalar (int a) (int b) = compare_ℤ a b
compare_scalar (int a) (str b) = Ordering.lt
compare_scalar (str a) (int b) = Ordering.gt
compare_scalar (str a) (str b) = compare_bytes a b

pub compare_scalar_refl : (a : Scalar) → compare_scalar a a ≡ Ordering.eq
unfolding compare_scalar
compare_scalar_refl (int a) = compare_ℤ_refl a
compare_scalar_refl (str a) = compare_bytes_refl a

pub eq_of_compare_scalar : (a b : Scalar) → compare_scalar a b ≡ Ordering.eq → a ≡ b
unfolding compare_scalar
eq_of_compare_scalar (int a) (int b) h = ap int (eq_of_compare_ℤ a b h)
eq_of_compare_scalar (int a) (str b) h = ground arith
eq_of_compare_scalar (str a) (int b) h = ground arith
eq_of_compare_scalar (str a) (str b) h = ap str (eq_of_compare_bytes a b h)

pub compare_scalar_swap :
    (a b : Scalar) → compare_scalar a b ≡ Ordering.lt → compare_scalar b a ≡ Ordering.gt
unfolding compare_scalar
compare_scalar_swap (int a) (int b) h = compare_ℤ_swap a b h
compare_scalar_swap (int a) (str b) h = refl
compare_scalar_swap (str a) (int b) h = ground arith
compare_scalar_swap (str a) (str b) h = compare_bytes_swap a b h

pub compare_scalar_swap_gt :
    (a b : Scalar) → compare_scalar a b ≡ Ordering.gt → compare_scalar b a ≡ Ordering.lt
unfolding compare_scalar
compare_scalar_swap_gt (int a) (int b) h = compare_ℤ_swap_gt a b h
compare_scalar_swap_gt (int a) (str b) h = ground arith
compare_scalar_swap_gt (str a) (int b) h = refl
compare_scalar_swap_gt (str a) (str b) h = compare_bytes_swap_gt a b h

pub compare_scalar_trans :
    (a b c : Scalar)
    → compare_scalar a b ≡ Ordering.lt
    → compare_scalar b c ≡ Ordering.lt
    → compare_scalar a c ≡ Ordering.lt
unfolding compare_scalar
compare_scalar_trans (int a) (int b) (int c) h k = compare_ℤ_trans a b c h k
compare_scalar_trans (int a) b (str c) h k = refl
compare_scalar_trans (int a) (str b) (int c) h k = ground arith
compare_scalar_trans (str a) (int b) c h k = ground arith
compare_scalar_trans (str a) (str b) (int c) h k = ground arith
compare_scalar_trans (str a) (str b) (str c) h k = compare_bytes_trans a b c h k

instance abbrev pub scalar_order : Order Scalar
scalar_order = record {
  cmp = compare_scalar;
  cmp_refl = compare_scalar_refl;
  eq_of_cmp = eq_of_compare_scalar;
  cmp_swap = compare_scalar_swap;
  cmp_swap_gt = compare_scalar_swap_gt;
  cmp_trans = compare_scalar_trans;
}
