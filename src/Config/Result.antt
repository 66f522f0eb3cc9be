-- ===== src/Config/Result.antt =====
-- The exceptions of config.cpp, and the results that may be one.
use libbchat_util.Base.{Bool, true, false, ◌≡◌, refl, ◌⊎◌, inl, inr}

-- `config_parse_error`s and `config_error`s by the check that throws them. `integer_overflow` is
-- thrown by oxenc; `bad_shape` stands for the `std::get` on an element that is no list, and for the
-- dereference of the end of a list with fewer than two elements.
pub data Error : Type 0 where
  invalid_diff_value invalid_diff_type invalid_set_added invalid_set_removed bad_shape : Error
  integer_overflow : Error
  non_scalar string_before_int unsorted_integers unsorted_strings : Error
  keys_out_of_order invalid_dict_pair invalid_set_size invalid_sublist : Error
  unpruned_dict unpruned_set duplicate_scalar unsorted_set invalid_value_type : Error
  lagged_seqno lagged_hash_size lagged_order lagged_size lagged_type : Error
  no_valid_configs : Error

-- A call that returns, or one that an exception leaves.
pub data Result {ℓ} (V : Type ℓ) : Type ℓ where
  threw : Error → Result V
  ok : V → Result V

-- What runs after `m`, unless `m` throws.
infixl 5 ◌>>◌ ◌>>=◌
abbrev pub ◌>>=◌ {κ ℓ} : {V : Type κ} {W : Type ℓ} (m : Result V) (k : V → Result W) → Result W
threw why >>= k = threw why
ok v >>= k = k v

abbrev pub ◌>>◌ {ℓ} : {W : Type ℓ} (m : Result (Unit {0})) (k : Result W) → Result W
threw why >> k = threw why
ok _ >> k = k

-- `if (!b) throw why;`
abbrev pub require : (b : Bool) (why : Error) → Result (Unit {0})
require false why = threw why
require true why = ok tt

-- A successful chain has successful parts.
pub >>=-eq-ok {κ ℓ} :
    {V : Type κ} {W : Type ℓ} (m : Result V) (k : V → Result W) {w : W} (h : (m >>= k) ≡ ok w)
    → (v : V) × (m ≡ ok v) × (k v ≡ ok w)
>>=-eq-ok (threw why) k h = cc
>>=-eq-ok (ok v) k h = (v, refl, h)

pub >>-eq-ok {ℓ} :
    {W : Type ℓ} (m : Result (Unit {0})) (k : Result W) {w : W} (h : (m >> k) ≡ ok w)
    → (m ≡ ok tt) × (k ≡ ok w)
>>-eq-ok (threw why) k h = cc
>>-eq-ok (ok _) k h = (refl, h)

pub require-eq-ok : (b : Bool) (e : Error) → require b e ≡ ok tt → b ≡ true
require-eq-ok true e h = refl
require-eq-ok false e h = cc

pub check-cases : (c : Result (Unit {0})) → (c ≡ ok tt) ⊎ ((e : Error) × (c ≡ threw e))
check-cases (ok u) = inl refl
check-cases (threw e) = inr (e, refl)
