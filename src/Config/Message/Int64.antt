-- ===== src/Config/Message/Int64.antt =====
-- Sums of int64_t that do not overflow.
use libbchat_util.Base.{◌≡◌, refl, inl, inr, true, arith, Bool-cases}
use libbchat_util.Base.Order.{ℤ, pair_order, int_order, bytes_order}
use libbchat_util.Base.Int.{◌+ℤ◌, ◌≤ℤ◌, leb_ℤ, leb_ℤ→gt}
use libbchat_util.Config.Message.{int64_min, int64_max, wrap_int64, add_int64}

leb_ℤ_of_le : (a b : ℤ) → a ≤ℤ b → leb_ℤ a b ≡ true
leb_ℤ_of_le a b h = elim (Bool-cases (leb_ℤ a b)) [
  | inl e ↦ e
  | inr e ↦ absurd (omega (arith, leb_ℤ→gt a b e))
]

wrapped : (s : ℤ) → leb_ℤ s int64_max ≡ true → leb_ℤ int64_min s ≡ true → wrap_int64 s ≡ s
wrapped s h k = rw (h, k) refl

-- A sum that does not overflow.
pub add_int64-fits : (a b : ℤ) → int64_min ≤ℤ a +ℤ b → a +ℤ b ≤ℤ int64_max → add_int64 a b ≡ a +ℤ b
unfolding add_int64
add_int64-fits a b low high =
    wrapped (a +ℤ b) (leb_ℤ_of_le (a +ℤ b) int64_max high) (leb_ℤ_of_le int64_min (a +ℤ b) low)

-- A number to which the lag can be added.
abbrev pub HasRoom : ℤ → ℤ → Type 0
HasRoom lag n = (int64_min ≤ℤ n) × (n +ℤ lag ≤ℤ int64_max)
