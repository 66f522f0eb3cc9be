-- ===== src/Base/Int.antt =====
-- Arithmetic of the integers of `Base.Order`, without a bound; where the
-- source's sums can overflow, the definitions wrap around.
use Prim.Native.Nat.{ℕ, suc, ◌+◌, ◌-◌, ◌≤◌, ◌<◌, Ordering}
use mathlib.Core.Path.{◌≡◌}
use mathlib.Core.Bool.{Bool, true, false}
use native.Mathlib.Omega.{arith}
use libbchat_util.Base.Tests.{leb, if◌then◌else◌}
use libbchat_util.Base.Order.{ℤ, pos, negsuc, compare_ℤ}

abbrev pub pos_part : ℤ → ℕ
pos_part (pos n) = n
pos_part (negsuc n) = 0

abbrev pub neg_part : ℤ → ℕ
neg_part (pos n) = 0
neg_part (negsuc n) = suc n

-- a - b, as an integer.
abbrev pub sub_ℕ : ℕ → ℕ → ℤ
sub_ℕ a b = if leb b a then pos (a - b) else negsuc (b - a - 1)

infixl 65 ◌+ℤ◌
unfoldable pub ◌+ℤ◌ : ℤ → ℤ → ℤ
a +ℤ b = sub_ℕ (pos_part a + pos_part b) (neg_part a + neg_part b)

infix 50 ◌≤ℤ◌ ◌<ℤ◌
abbrev pub ◌≤ℤ◌ : ℤ → ℤ → Type 0
a ≤ℤ b = pos_part a + neg_part b ≤ pos_part b + neg_part a

abbrev pub ◌<ℤ◌ : ℤ → ℤ → Type 0
a <ℤ b = pos_part a + neg_part b < pos_part b + neg_part a

unfoldable pub leb_ℤ : ℤ → ℤ → Bool
leb_ℤ a b = elim (compare_ℤ a b) [ Ordering.gt ↦ false | _ ↦ true ]

pub leb_ℤ→le : (a b : ℤ) → leb_ℤ a b ≡ true → a ≤ℤ b
unfolding leb_ℤ
leb_ℤ→le (pos a) (pos b) h = ground arith
leb_ℤ→le (pos a) (negsuc b) h = ground arith
leb_ℤ→le (negsuc a) (pos b) h = ground arith
leb_ℤ→le (negsuc a) (negsuc b) h = ground arith

pub leb_ℤ→gt : (a b : ℤ) → leb_ℤ a b ≡ false → b <ℤ a
unfolding leb_ℤ
leb_ℤ→gt (pos a) (pos b) h = ground arith
leb_ℤ→gt (pos a) (negsuc b) h = ground arith
leb_ℤ→gt (negsuc a) (pos b) h = ground arith
leb_ℤ→gt (negsuc a) (negsuc b) h = ground arith

pub lt_of_compare : (a b : ℤ) → compare_ℤ a b ≡ Ordering.lt → a <ℤ b
lt_of_compare (pos a) (pos b) h = ground arith
lt_of_compare (pos a) (negsuc b) h = ground arith
lt_of_compare (negsuc a) (pos b) h = ground arith
lt_of_compare (negsuc a) (negsuc b) h = ground arith

pub +ℤ_parts :
    (a b : ℤ)
    → pos_part (a +ℤ b) + neg_part a + neg_part b ≡ neg_part (a +ℤ b) + pos_part a + pos_part b
unfolding ◌+ℤ◌
+ℤ_parts a b = ground arith

pub eq_of_parts : (a b : ℤ) → pos_part a + neg_part b ≡ pos_part b + neg_part a → a ≡ b
eq_of_parts (pos a) (pos b) h = ground arith
eq_of_parts (pos a) (negsuc b) h = ground arith
eq_of_parts (negsuc a) (pos b) h = ground arith
eq_of_parts (negsuc a) (negsuc b) h = ground arith

pub ruleset int_laws = (arith, +ℤ_parts, eq_of_parts, leb_ℤ→le, leb_ℤ→gt)
