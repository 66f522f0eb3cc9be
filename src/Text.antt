-- ===== src/Text.antt =====
-- What util.cpp and the configs use of `std::string_view` and `std::from_chars`: prefixes, the first
-- and the last place of a text in another one, and unsigned decimal numbers. Text is a list of its
-- bytes.
pub mod Search
pub mod Decimal
use libbchat_util.Base.{
  ℕ, zero, suc, ◌+◌, ◌-◌, ◌*◌, ◌/◌, ◌%◌, ◌^◌, Option, none, some, List, [], ◌∷◌, ◌++◌, Bool, true,
  false, ◌&&◌, ◌==◌, leb, ltb, if◌then◌else◌, empty,
}
use libbchat_util.Base.Order.{Bytes}

unfoldable pub starts_with : Bytes → Bytes → Bool
starts_with [] s = true
starts_with (d ∷ ds) [] = false
starts_with (d ∷ ds) (c ∷ s) = d == c && starts_with ds s

abbrev pub one_more : Option ℕ → Option ℕ
one_more none = none
one_more (some i) = some (suc i)

abbrev pub or_here : Bool → Option ℕ → Option ℕ
or_here here none = if here then some 0 else none
or_here here (some i) = some (suc i)

-- s.find(d)
unfoldable pub find : Bytes → Bytes → Option ℕ
unfolding starts_with
find d [] = if empty d then some 0 else none
find d (c ∷ s) = if starts_with d (c ∷ s) then some 0 else one_more (find d s)

-- s.rfind(d)
unfoldable pub rfind : Bytes → Bytes → Option ℕ
unfolding starts_with
rfind d [] = if empty d then some 0 else none
rfind d (c ∷ s) = or_here (starts_with d (c ∷ s)) (rfind d s)

abbrev pub is_digit : ℕ → Bool
is_digit c = leb b'0' c && leb c b'9'

-- The value of the digits in front, and what comes after them.
unfoldable pub digits_value : ℕ → Bytes → ℕ
digits_value value [] = value
digits_value value (c ∷ s) = elim (is_digit c) [
  | true ↦ digits_value (value * 10 + (c - b'0')) s
  | false ↦ value
]

unfoldable pub after_digits : Bytes → Bytes
after_digits [] = []
after_digits (c ∷ s) = if is_digit c then after_digits s else c ∷ s

abbrev pub starts_with_digit : Bytes → Bool
starts_with_digit [] = false
starts_with_digit (c ∷ s) = is_digit c

-- `std::from_chars` for an unsigned number of `bits` bits: no result without a digit or out of range.
unfoldable pub from_chars : ℕ → Bytes → Option (ℕ × Bytes)
unfolding digits_value after_digits
from_chars bits s =
    if starts_with_digit s && ltb (digits_value 0 s) (2 ^ bits)
    then some (digits_value 0 s, after_digits s)
    else none

-- `std::to_string`, on fuel: a digit is written for each unit.
unfoldable pub to_digits : ℕ → ℕ → Bytes
to_digits zero n = []
to_digits (suc f) n =
    let front = to_digits f (n / 10) in (if ltb n 10 then [] else front) ++ (b'0' + n % 10) ∷ []

-- Five digits are enough for 16 bits.
unfoldable pub to_string : ℕ → Bytes
unfolding to_digits
to_string n = to_digits 5 n
