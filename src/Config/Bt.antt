-- ===== src/Config/Bt.antt =====
-- `oxenc::bt_value`, the bencode value that diffs are held in: a variant of strings, signed and
-- unsigned integers, lists and dicts. A `bt_dict` is a `std::map`, here its entries in order. The
-- type belongs to oxenc; the helpers are those of config.cpp.
use libbchat_util.Base.{
  ℕ, Ordering, ◌≡◌, ◌≢◌, refl, Option, none, some, List, [], ◌∷◌, arith, if◌then◌else◌,
}
use libbchat_util.Base.Order.{ℤ, Bytes, compare_bytes}
use libbchat_util.Config.Scalar.{Scalar, int, str}
use libbchat_util.Config.Dict.{same_key}
use libbchat_util.Config.Result.{Result, ok, threw, ◌>>=◌, integer_overflow}

mutual
  pub data BtValue : Type 0 where
    text : Bytes → BtValue
    signed : ℤ → BtValue
    unsigned : ℕ → BtValue
    list : BtList → BtValue
    dict : BtDict → BtValue

  pub data BtList : Type 0 where
    nil : BtList
    cons : BtValue → BtList → BtList

  pub data BtDict : Type 0 where
    end : BtDict
    entry : Bytes → BtValue → BtDict → BtDict

unfoldable pub find : Bytes → BtDict → Option BtValue
find k BtDict.end = none
find k (entry j v d) = if same_key k j then some v else find k d

abbrev pub Above : Bytes → BtDict → Type 0
Above k BtDict.end = Unit {0}
Above k (entry j v d) = (compare_bytes k j ≡ Ordering.lt) × Above k d

-- The keys ascend.
abbrev pub IsOrdered : BtDict → Type 0
IsOrdered BtDict.end = Unit {0}
IsOrdered (entry k v d) = Above k d × IsOrdered d

pub find-Above : (k : Bytes) (d : BtDict) → Above k d → find k d ≡ none
unfolding find
find-Above k BtDict.end a = refl
find-Above k (entry j v d) a = ground (arith, find-Above k d)

pub find_skip :
    (k j : Bytes) (v : BtValue) (d : BtDict)
    → compare_bytes k j ≢ Ordering.eq
    → find k (entry j v d) ≡ find k d
unfolding find
find_skip k j v d h = ground arith

pub find_first :
    (k j : Bytes) (v : BtValue) (d : BtDict)
    → compare_bytes k j ≡ Ordering.eq
    → find k (entry j v d) ≡ some v
unfolding find
find_first k j v d h = ground arith

-- get_bt_str
unfoldable pub get_bt_str : BtValue → Option Bytes
get_bt_str (text s) = some s
get_bt_str _ = none

-- What `oxenc::get_int<int64_t>` answers for an unsigned integer; `none` where it throws.
module _ (get_int : ℕ → Option ℤ) where
  narrow : ℕ → Result (Option ℤ)
  narrow n = elim (get_int n) [ none ↦ threw integer_overflow | some i ↦ ok (some i) ]

  -- get_bt_int
  unfoldable pub get_bt_int : BtValue → Result (Option ℤ)
  unfolding narrow
  get_bt_int (signed i) = ok (some i)
  get_bt_int (unsigned n) = narrow n
  get_bt_int _ = ok none

  scalar_of : BtValue → Option ℤ → Option Scalar
  scalar_of v (some i) = some (int i)
  scalar_of v none = elim (get_bt_str v) [ none ↦ none | some s ↦ some (str s) ]

  -- get_bt_scalar
  unfoldable pub get_bt_scalar : BtValue → Result (Option Scalar)
  unfolding get_bt_int get_bt_str scalar_of
  get_bt_scalar v = do i ← get_bt_int v; ok (scalar_of v i)

-- `additions.emplace_back(std::move(x))` for each scalar of a set.
unfoldable pub bt_scalar : Scalar → BtValue
bt_scalar (int i) = signed i
bt_scalar (str s) = text s

unfoldable pub bt_scalars : List Scalar → BtList
unfolding bt_scalar
bt_scalars [] = nil
bt_scalars (s ∷ ss) = cons (bt_scalar s) (bt_scalars ss)

pub get_bt_scalar-bt_scalar :
    (get_int : ℕ → Option ℤ) (s : Scalar) → get_bt_scalar get_int (bt_scalar s) ≡ ok (some s)
unfolding get_bt_scalar bt_scalar
get_bt_scalar-bt_scalar get_int (int i) = refl
get_bt_scalar-bt_scalar get_int (str s) = refl
