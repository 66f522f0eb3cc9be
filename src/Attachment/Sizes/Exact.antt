-- ===== src/Attachment/Sizes/Exact.antt =====
-- The encrypted size is the size that is aimed at, and leaves room for the data.
use libbchat_util.Base.{
  ℕ, zero, suc, ◌+◌, ◌-◌, ◌*◌, ◌/◌, ◌%◌, ◌^◌, ◌<◌, ◌≤◌, ◌≡◌, refl, sym, ap, ◌∙◌, subst, some, Bool,
  true, false, ◌&&◌, ◌||◌, ◌==◌, ltb, leb, ltb→lt, if◌then◌else◌, arith, inl, inr, ◌⊎◌, Bool-cases,
}
use native.Mathlib.Nat.{div-lt_iff_lt-mul, lt-div-mul-add, div-mul-le_self}
use libbchat_util.Attachment.{encrypt_chunk_overhead, encrypted_chunk_total}
use libbchat_util.Attachment.Sizes.{
  size_mod, sub_size, chunks_of, least_size, pad_factor, padded_size, full_padding, whole_tags,
  spilled_tag, implicit_padding, encrypted_padding, encrypted_size, without_overhead, at_most,
  decrypted_max_size,
}
use libbchat_util.Attachment.Sizes.Factor.{not_less, pow_pos, pow-le_of_le, pad_factor_lem}

-- The chunks of an encrypted stream of this size all hold more than a tag and a mac.
abbrev has_data : ℕ → Bool
has_data size =
    let rest = (size - 25) % encrypted_chunk_total in rest == 0 || ltb encrypt_chunk_overhead rest

every : ℕ → (ℕ → Bool) → Bool
every zero holds = true
every (suc n) holds = every n holds && holds n

of_every : (n : ℕ) (holds : ℕ → Bool) (k : ℕ) → every n holds ≡ true → k < n → holds k ≡ true
unfolding every
of_every zero holds k e h = absurd (omega arith)
of_every (suc n) holds k e h = elim (Bool-cases (k == n)) [
  | inl q ↦ subst (λ x. holds x ≡ true) (same n k q) (second (every n holds) (holds n) e)
  | inr q ↦ of_every n holds k (first (every n holds) (holds n) e) (less n k h q)
]
  where
    same : (n k : ℕ) → (k == n) ≡ true → n ≡ k
    same n k q = ground arith

    less : (n k : ℕ) → k < suc n → (k == n) ≡ false → k < n
    less n k h q = ground arith

    first : (a b : Bool) → (a && b) ≡ true → a ≡ true
    first a b h = ground arith

    second : (a b : Bool) → (a && b) ≡ true → b ≡ true
    second a b h = ground arith

table : every 23 (λ i. every 65 (λ m. has_data (m * (4096 * 2 ^ i)))) ≡ true
unfolding every
table = refl

-- The size that is aimed at, for what is less than 2 ^ 40.
abbrev aim : ℕ → ℕ
aim x = padded_size x (pad_factor x)

aim_lem : (x : ℕ) → x < 2 ^ 40 → (x ≤ aim x) × (aim x < 2 ^ 41) × (has_data (aim x) ≡ true)
aim_lem x l =
    let (i, small, f, b) = pad_factor_lem x l in
    let r = 4096 * 2 ^ i in
    let pos : 0 < r = omega (arith, pow_pos i) in
    let m = (x + r - 1) / r in
    let at_most_64 : m < 65 =
      (div-lt_iff_lt-mul {k = r} {x = x + r - 1} {y = 65} pos).1 (omega (arith, b)) in
    subst
      (λ y.
        (x ≤ padded_size x y) × (padded_size x y < 2 ^ 41) × (has_data (padded_size x y) ≡ true))
      (sym f)
      (
        omega (arith, lt-div-mul-add {a = x + r - 1} {b = r} pos, pos),
        omega (arith, div-mul-le_self (x + r - 1) r, pow-le_of_le i 22 (omega (arith, small))),
        of_every 65 (λ m. has_data (m * (4096 * 2 ^ i))) m
            (of_every 23 (λ i. every 65 (λ m. has_data (m * (4096 * 2 ^ i)))) i table small)
            at_most_64,
      )

whole_tags_lem : (p : ℕ) → whole_tags p ≡ p / encrypted_chunk_total * encrypt_chunk_overhead
whole_tags_lem p = elim (Bool-cases (leb encrypted_chunk_total p)) [
  | inl e ↦ rw e refl
  | inr e ↦ rw e (omega (arith, below encrypted_chunk_total p e))
]
  where
    below : (a b : ℕ) → leb a b ≡ false → b < a
    below a b e = ground arith

rest_cases :
    (r : ℕ)
    → (r == 0 || ltb encrypt_chunk_overhead r) ≡ true
    → (r ≡ 0) ⊎ (encrypt_chunk_overhead < r)
rest_cases r h = elim (Bool-cases (r == 0)) [
  | inl e ↦ inl (ground arith)
  | inr e ↦ inr (ground arith)
]

-- With k chunks of data, q whole chunks of padding, and what is left of each.
module _ (d p k q r free : ℕ) (chunks : d + free ≡ k * 32768) (room : free < 32768)
    (padding : p ≡ q * 32785 + r) (left : r < 32785) where
  -- No tag of another chunk.
  stays : r ≤ free → chunks_of (d + (p - q * 17)) 32768 ≡ k + q
  stays h = omega (arith, chunks, room, padding, left)

  spills : free + 17 < r → chunks_of (d + (p - (q * 17 + 17))) 32768 ≡ k + q + 1
  spills h = omega (arith, chunks, room, padding, left)

chunks_lem : (d : ℕ) → d + (chunks_of d 32768 * 32768 - d) ≡ chunks_of d 32768 * 32768
chunks_lem d = omega arith

free_lt : (d : ℕ) → chunks_of d 32768 * 32768 - d < 32768
free_lt d = omega arith

-- A rest that spills over is longer than a tag and a mac.
spills_far :
    (d size k q r free : ℕ)
    → size ≡ d + 26 + k * 17 + (q * 32785 + r) - 1
    → d + free ≡ k * 32768
    → r < 32785
    → (((size - 25) % 32785 ≡ 0) ⊎ (17 < (size - 25) % 32785))
    → free < r
    → free + 17 < r
spills_far d size k q r free e c l (inl z) h = omega (arith, e, c, l, z, h)
spills_far d size k q r free e c l (inr z) h = omega (arith, e, c, l, z, h)

module _ (d size : ℕ) (above : least_size d ≤ size) (full : has_data size ≡ true) where
  abbrev padding : ℕ
  padding = size - least_size d + 1

  abbrev Exact : ℕ → Type 0
  Exact implicit =
      (implicit < padding)
      × (25 + d + (padding - implicit) + chunks_of (d + (padding - implicit)) 32768 * 17 ≡ size)

  split_padding : padding ≡ padding / 32785 * 32785 + padding % 32785
  split_padding = omega arith

  small_rest : padding % 32785 < 32785
  small_rest = omega arith

  rebuilt : size ≡ d + 26 + chunks_of d 32768 * 17 + (padding / 32785 * 32785 + padding % 32785) - 1
  rebuilt = omega (arith, above)

  Exact-implicit : Exact (implicit_padding d padding)
  Exact-implicit =
      let k = chunks_of d 32768 in
      let q = padding / 32785 in
      let r = padding % 32785 in
      let free = k * 32768 - d in
      elim (Bool-cases (ltb free r)) [
        | inl e ↦
            let far =
              spills_far d size k q r free rebuilt (chunks_lem d) small_rest
                (rest_cases ((size - 25) % 32785) full) (ltb→lt free r e) in
            subst Exact
              (sym (
                ap (λ x. x + spilled_tag d padding) (whole_tags_lem padding)
                ∙ ap (λ b. q * 17 + (if b then 17 else 0)) e))
              (
                omega (arith, far, split_padding),
                omega (
                  arith,
                  above,
                  split_padding,
                  far,
                  spills d padding k q r free (chunks_lem d) (free_lt d) split_padding small_rest
                      far,
                ),
              )
        | inr e ↦
            let stay =
              stays d padding k q r free (chunks_lem d) (free_lt d) split_padding small_rest
                (not_less free r e) in
            subst Exact
              (sym (
                ap (λ x. x + spilled_tag d padding) (whole_tags_lem padding)
                ∙ ap (λ b. q * 17 + (if b then 17 else 0)) e
                ∙ plus_zero (q * 17)))
              (omega (arith, split_padding), omega (arith, above, split_padding, stay))
      ]
    where
      plus_zero : (n : ℕ) → n + 0 ≡ n
      plus_zero n = omega arith

pub sub_size_lem : (a b : ℕ) → b ≤ a → a < size_mod → sub_size a b ≡ a - b
sub_size_lem a b h l = omega (arith, h, l)

-- What is within the bound of `decrypted_max_size`.
module _ (d n : ℕ) (s : ℕ) (size : s ≡ 25 + d + n + chunks_of (d + n) 32768 * 17) (p : 0 < n)
    (small : s < 2 ^ 41) where
  max_fits :
      let sz = s - 26 in ((sz + 32784) / 32785 * 17 ≤ sz) × (d ≤ sz - (sz + 32784) / 32785 * 17)
  max_fits = (omega (arith, size, p), omega (arith, size, p))

bounded : (s n : ℕ) → n ≤ s → at_most s n ≡ some n
bounded s n h = ground arith

one_less : (n : ℕ) → n < 2 ^ 41 → (n + 32785 - 1) % size_mod ≡ n + 32784
one_less n l = omega (arith, l)

decrypted_max_size_lem :
    (d n s : ℕ)
    → s ≡ 25 + d + n + chunks_of (d + n) 32768 * 17
    → 0 < n
    → s < 2 ^ 41
    → (m : ℕ) × (decrypted_max_size s ≡ some m) × (d ≤ m)
unfolding decrypted_max_size
decrypted_max_size_lem d n s size p small =
    let fits = max_fits d n s size p small in
    let sz = s - 26 in
    let tags = (sz + 32784) / 32785 * 17 in
    (
      sz - tags,
      ap (λ x. at_most s (without_overhead x))
            (sub_size_lem s 26 (omega (arith, size, p)) (omega (arith, small)))
          ∙ ap (λ t. at_most s (sub_size sz (t / 32785 * 17))) (one_less sz (omega (arith, small)))
          ∙ ap (at_most s) (sub_size_lem sz tags fits.0 (omega (arith, small)))
          ∙ bounded s (sz - tags) (omega arith),
      fits.1,
    )

module _ (d : ℕ) (small : least_size d < 2 ^ 40) where
  padding_eq : encrypted_padding d ≡ full_padding d - implicit_padding d (full_padding d)
  unfolding encrypted_padding full_padding
  padding_eq =
      let (above, low, full) = aim_lem (least_size d) small in
      let Exact = Exact-implicit d (aim (least_size d)) above full in
      sub_size_lem (full_padding d) (implicit_padding d (full_padding d)) (omega (arith, Exact.0))
        (omega (arith, low))

  -- When the data with the prefix, one byte of padding and the tags of its chunks is smaller than
  -- 2 ^ 40 bytes: there is padding; the encrypted size is that size rounded up to a multiple of its
  -- padding factor; and the size that decrypted_max_size finds for it is not below that of the data.
  pub encrypted_size_lem :
      (0 < encrypted_padding d)
      × (encrypted_size d ≡ padded_size (least_size d) (pad_factor (least_size d)))
      × (m : ℕ) × (decrypted_max_size (encrypted_size d) ≡ some m)
      × (d ≤ m)
  unfolding encrypted_size full_padding
  encrypted_size_lem =
      let (above, low, full) = aim_lem (least_size d) small in
      let Exact = Exact-implicit d (aim (least_size d)) above full in
      let pos : 0 < encrypted_padding d = omega (arith, padding_eq, Exact.0) in
      let size = ap (λ n. 25 + d + n + chunks_of (d + n) 32768 * 17) padding_eq ∙ Exact.1 in
      let (m, found, fits) =
        decrypted_max_size_lem d (encrypted_padding d) (encrypted_size d) refl pos
          (omega (arith, size, low)) in
      (pos, size, m, found, fits)
