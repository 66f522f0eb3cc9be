-- ===== src/Attachment/Sizes/Factor.antt =====
-- The size that is aimed at: a multiple of the padding factor, which is a power of two, and of which
-- no chunk is left with a tag and a mac only.
use libbchat_util.Base.{
  ℕ, zero, suc, ◌+◌, ◌-◌, ◌*◌, ◌/◌, ◌^◌, ◌<◌, ◌≤◌, ◌≡◌, refl, ap, ◌∙◌, subst, Bool, true, false,
  ltb, if◌then◌else◌, arith, ltb→lt, inl, inr, Bool-cases, max,
}
use native.Mathlib.Nat.{pow-suc}
use libbchat_util.Attachment.Sizes.{floor_of_bits, bit_floor, pad_factor}

double : (a : ℕ) → 2 ^ suc a ≡ 2 * 2 ^ a
double a = omega (arith, pow-suc 2 a)

choose_true : (b : Bool) (x y : ℕ) → b ≡ true → (if b then x else y) ≡ x
choose_true b x y e = rw e refl

choose_false : (b : Bool) (x y : ℕ) → b ≡ false → (if b then x else y) ≡ y
choose_false b x y e = rw e refl

pub pow_pos : (a : ℕ) → 0 < 2 ^ a
pow_pos zero = omega arith
pow_pos (suc a) = omega (arith, double a, pow_pos a)

pow-le : (a k : ℕ) → 2 ^ a ≤ 2 ^ (k + a)
pow-le a zero = subst (λ x. 2 ^ a ≤ 2 ^ x) (same a) (omega arith)
  where
    same : (a : ℕ) → a ≡ 0 + a
    same a = omega arith
pow-le a (suc k) =
    subst (λ x. 2 ^ a ≤ 2 ^ x) (shift k a) (omega (arith, double (k + a), pow-le a k))
  where
    shift : (k a : ℕ) → suc (k + a) ≡ suc k + a
    shift k a = omega arith

pub pow-le_of_le : (a b : ℕ) → a ≤ b → 2 ^ a ≤ 2 ^ b
pow-le_of_le a b h = subst (λ x. 2 ^ a ≤ 2 ^ x) (back a b h) (pow-le a (b - a))
  where
    back : (a b : ℕ) → a ≤ b → b - a + a ≡ b
    back a b h = omega arith

pub not_less : (a b : ℕ) → ltb a b ≡ false → b ≤ a
not_less a b e = ground arith

below_pow : (a b : ℕ) → 2 ^ a < 2 ^ b → a < b
below_pow a b h = elim (Bool-cases (ltb a b)) [
  | inl e ↦ ground arith
  | inr e ↦ absurd (omega (arith, pow-le_of_le b a (not_less a b e)))
]

-- The greatest power of two that is not above a number.
floor_of_bits_lem :
    (f n : ℕ)
    → 0 < n
    → n < 2 ^ f
    → (j : ℕ) × (floor_of_bits f n ≡ 2 ^ j) × (2 ^ j ≤ n) × (n < 2 * 2 ^ j)
unfolding floor_of_bits
floor_of_bits_lem zero n p l = absurd (omega arith)
floor_of_bits_lem (suc f) n p l =
    let half = 2 * floor_of_bits f (n / 2) in
    elim (Bool-cases (ltb n 2)) [
      | inl e ↦ (
        0,
        choose_true (ltb n 2) n half e ∙ omega (arith, ltb→lt n 2 e),
        omega (arith, ltb→lt n 2 e),
        omega (arith, ltb→lt n 2 e),
      )
      | inr e ↦
          let two = not_less n 2 e in
          let (j, h, a, b) =
            floor_of_bits_lem f (n / 2) (omega (arith, two)) (omega (arith, double f)) in
          (
            suc j,
            choose_false (ltb n 2) n half e ∙ omega (arith, h, double j),
            omega (arith, double j, a),
            omega (arith, double j, b),
          )
    ]

abbrev pub top : ℕ → ℕ
top enc_size = max enc_size 131072

above_top : (x : ℕ) → (131072 ≤ top x) × (x ≤ top x)
above_top x = ground arith

top_below : (x b : ℕ) → x < b → 131072 < b → top x < b
top_below x b h k = ground arith

pow_split : (i : ℕ) → 2 ^ (17 + i) ≡ 131072 * 2 ^ i
pow_split zero = refl
pow_split (suc i) =
    ap (λ x. 2 ^ x) (shift i) ∙ omega (arith, double (17 + i), pow_split i, double i)
  where
    shift : (i : ℕ) → 17 + suc i ≡ suc (17 + i)
    shift i = omega arith

-- Of a size below 2 ^ 40, the factor is 4096 times a power of two, and the size is less than 64 times
-- the factor.
pub pad_factor_lem :
    (x : ℕ)
    → x < 2 ^ 40
    → (i : ℕ) × (i < 23) × (pad_factor x ≡ 4096 * 2 ^ i) × (x < 64 * (4096 * 2 ^ i))
unfolding pad_factor bit_floor
pad_factor_lem x l =
    let big = above_top x in
    let small = top_below x (2 ^ 40) l (omega arith) in
    let (j, h, a, b) = floor_of_bits_lem 64 (top x) (omega (arith, big.0)) (omega (arith, small)) in
    let low = below_pow 16 j (omega (arith, big.0, b)) in
    let high = below_pow j 40 (omega (arith, small, a)) in
    let split = ap (λ k. 2 ^ k) (from_17 j low) ∙ pow_split (j - 17) in
    (
      j - 17,
      omega (arith, low, high),
      ap (λ y. y / 32) (h ∙ split) ∙ omega arith,
      omega (arith, split, b, big.1),
    )
  where
    from_17 : (j : ℕ) → 16 < j → j ≡ 17 + (j - 17)
    from_17 j h = omega arith
