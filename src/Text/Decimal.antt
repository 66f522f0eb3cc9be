-- ===== src/Text/Decimal.antt =====
-- Reading a number that was written.
use libbchat_util.Base.{
  ℕ, zero, suc, ◌+◌, ◌-◌, ◌*◌, ◌/◌, ◌%◌, ◌^◌, ◌<◌, ◌≡◌, refl, ◌∙◌, Option, some, none, [], ◌∷◌,
  ◌++◌, Bool, true, false, ◌&&◌, ltb, arith, All, All-append, if◌then◌else◌, Bool-cases, inl, inr,
  ltb→lt, lt→ltb,
}
use native.Mathlib.Nat.{pow-suc}
use libbchat_util.Base.Order.{Bytes}
use libbchat_util.Text.{
  is_digit, digits_value, after_digits, starts_with_digit, from_chars, to_digits, to_string,
}

abbrev pub IsDigits : Bytes → Type 0
IsDigits s = All (λ c. is_digit c ≡ true) s

digits_value-append :
    (v : ℕ) (a t : Bytes) → IsDigits a → digits_value v (a ++ t) ≡ digits_value (digits_value v a) t
unfolding digits_value
digits_value-append v [] t h = refl
digits_value-append v (c ∷ a) t h =
    rw (h.0, digits_value) (digits_value-append (v * 10 + (c - b'0')) a t h.1)

after_digits-append :
    (a t : Bytes) → IsDigits a → starts_with_digit t ≡ false → after_digits (a ++ t) ≡ t
unfolding after_digits
after_digits-append [] [] h e = refl
after_digits-append [] (c ∷ t) h e = rw (e, after_digits) refl
after_digits-append (c ∷ a) t h e = rw (h.0, after_digits) (after_digits-append a t h.1 e)

digits_value-stops : (v : ℕ) (t : Bytes) → starts_with_digit t ≡ false → digits_value v t ≡ v
unfolding digits_value
digits_value-stops v [] e = refl
digits_value-stops v (c ∷ t) e = rw (e, digits_value) refl

digit_of : (n : ℕ) → is_digit (b'0' + n % 10) ≡ true
digit_of n = ground arith

to_digits-IsDigits : (f n : ℕ) → IsDigits (to_digits f n)
unfolding to_digits
to_digits-IsDigits zero n = tt
to_digits-IsDigits (suc f) n = elim (Bool-cases (ltb n 10)) [
  | inl e ↦ rw (e, to_digits) (digit_of n, tt)
  | inr e ↦
      rw (e, to_digits)
        (All-append (λ c. is_digit c ≡ true) (to_digits f (n / 10)) ((b'0' + n % 10) ∷ [])
          (to_digits-IsDigits f (n / 10)) (digit_of n, tt))
]

-- A digit at the end.
digits_value-snoc :
    (a : Bytes) (n : ℕ)
    → IsDigits a
    → digits_value 0 (a ++ (b'0' + n % 10) ∷ []) ≡ digits_value 0 a * 10 + n % 10
unfolding digits_value
digits_value-snoc a n h =
    digits_value-append 0 a ((b'0' + n % 10) ∷ []) h ∙ rw (digit_of n, digits_value) (omega arith)

tenth : (f n : ℕ) → n < 10 ^ suc f → n / 10 < 10 ^ f
tenth f n h = omega (arith, pow-suc 10 f)

last_digit : (n : ℕ) → digits_value 0 ((b'0' + n % 10) ∷ []) ≡ n % 10
unfolding digits_value
last_digit n = rw (digit_of n, digits_value) (omega arith)

digits_value-to_digits : (f n : ℕ) → n < 10 ^ f → digits_value 0 (to_digits f n) ≡ n
unfolding to_digits digits_value
digits_value-to_digits zero n h = omega arith
digits_value-to_digits (suc f) n h = elim (Bool-cases (ltb n 10)) [
  | inl e ↦ rw (e, to_digits) (last_digit n ∙ omega (arith, ltb→lt n 10 e))
  | inr e ↦
      rw (e, to_digits)
        (digits_value-snoc (to_digits f (n / 10)) n (to_digits-IsDigits f (n / 10))
          ∙ omega (arith, digits_value-to_digits f (n / 10) (tenth f n h)))
]

digits_first :
    (s : Bytes) (d : ℕ) → IsDigits s → is_digit d ≡ true → starts_with_digit (s ++ d ∷ []) ≡ true
digits_first [] d h e = e
digits_first (c ∷ s) d h e = h.0

starts-to_digits : (f n : ℕ) → starts_with_digit (to_digits (suc f) n) ≡ true
unfolding to_digits
starts-to_digits f n =
    digits_first (if ltb n 10 then [] else to_digits f (n / 10)) (b'0' + n % 10)
      (elim (Bool-cases (ltb n 10)) [
        | inl e ↦ rw e tt
        | inr e ↦ rw e (to_digits-IsDigits f (n / 10))
      ])
      (digit_of n)

starts-append : (s t : Bytes) → starts_with_digit s ≡ true → starts_with_digit (s ++ t) ≡ true
starts-append [] t e = cc e
starts-append (c ∷ s) t e = e

pub to_string-IsDigits : (n : ℕ) → IsDigits (to_string n)
unfolding to_string
to_string-IsDigits n = to_digits-IsDigits 5 n

-- A 16-bit number that was written is read back, up to what is no digit.
pub from_chars-to_string :
    (n : ℕ) (t : Bytes)
    → n < 65536
    → starts_with_digit t ≡ false
    → from_chars 16 (to_string n ++ t) ≡ some (n, t)
unfolding from_chars to_string
from_chars-to_string n t h e =
    let a = starts-append (to_digits 5 n) t (starts-to_digits 4 n) in
    let v =
      digits_value-append 0 (to_digits 5 n) t (to_digits-IsDigits 5 n)
      ∙ digits_value-stops (digits_value 0 (to_digits 5 n)) t e
      ∙ digits_value-to_digits 5 n (omega arith) in
    let r = after_digits-append (to_digits 5 n) t (to_digits-IsDigits 5 n) e in
    rw (a, v, r, lt→ltb n 65536 h) refl

guarded_lt :
    (b : Bool) (v m n : ℕ) (r t : Bytes)
    → if◌then◌else◌ {A = Option (ℕ × Bytes)} (b && ltb v m) (some (v, r)) none ≡ some (n, t)
    → n < m
guarded_lt b v m n r t h = ground arith

pub from_chars-lt : (bits n : ℕ) (s t : Bytes) → from_chars bits s ≡ some (n, t) → n < 2 ^ bits
unfolding from_chars
from_chars-lt bits n s t h =
    guarded_lt (starts_with_digit s) (digits_value 0 s) (2 ^ bits) n (after_digits s) t h
