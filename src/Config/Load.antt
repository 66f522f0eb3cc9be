-- ===== src/Config/Load.antt =====
-- `check_scalar_order` and `load_diff` of config.cpp, over the elements of the encoded diff. `none`
-- says that the fuel ran out: the loop consumes nothing in a round that meets an integer.
pub mod Accepted
pub mod Ends
pub mod More
use libbchat_util.Base.{
  ℕ, zero, suc, ◌+◌, Ordering, Option, none, some, List, [], ◌∷◌, Bool, true, false, ◌||◌,
  if◌then◌else◌, ◌≡◌, ◌⊎◌,
}
use libbchat_util.Base.Order.{ℤ, Bytes, compare_bytes, compare_ℤ}
use libbchat_util.Config.Result.{
  Error, Result, ok, threw, ◌>>=◌, ◌>>◌, require, non_scalar, string_before_int, unsorted_integers,
  unsorted_strings, invalid_dict_pair, invalid_set_size, invalid_sublist,
}
use libbchat_util.Config.Dict.{same_key}
use libbchat_util.Config.Scalar.{Scalar, int, str}
use libbchat_util.Config.Bt.{
  BtValue, BtList, BtDict, text, signed, unsigned, list, cons, get_bt_scalar,
}
use libbchat_util.Config.Codec.{check_key}
use libbchat_util.Config.Apply.{dash}

-- The checks on two elements that are scalars.
unfoldable pub check_scalars : Scalar → Scalar → Result (Unit {0})
check_scalars (int a) (int b) = elim (compare_ℤ a b) [
  | Ordering.lt ↦ ok tt
  | _ ↦ threw unsorted_integers
]
check_scalars (int a) (str b) = ok tt
check_scalars (str a) (int b) = threw string_before_int
check_scalars (str a) (str b) = elim (compare_bytes a b) [
  | Ordering.lt ↦ ok tt
  | _ ↦ threw unsorted_strings
]

check_found : Option Scalar → Option Scalar → Result (Unit {0})
unfolding check_scalars
check_found (some a) (some b) = check_scalars a b
check_found _ _ = threw non_scalar

unfoldable pub check_mode : Bytes → Result (Unit {0})
check_mode mode = require (same_key mode [] || same_key mode dash) invalid_dict_pair

-- An exception leaves the loop; a value is put in the result, and the loop goes on.
abbrev pub check_then : Result (Unit {0}) → Option (Result BtDict) → Option (Result BtDict)
check_then (ok u) rest = rest
check_then (threw e) rest = some (threw e)

abbrev pub adding : Bytes → BtValue → Option (Result BtDict) → Option (Result BtDict)
adding k v none = none
adding k v (some (ok d)) = some (ok (BtDict.entry k v d))
adding k v (some (threw e)) = some (threw e)

module _ (get_int : ℕ → Option ℤ) where
  unfoldable pub check_scalar_order : BtValue → BtValue → Result (Unit {0})
  unfolding check_found
  check_scalar_order a b = do
    a' ← get_bt_scalar get_int a
    b' ← get_bt_scalar get_int b
    check_found a' b'

  -- `for (i = begin, j = next(i); j != end; i = j++)`
  unfoldable pub check_sorted : BtValue → BtList → Result (Unit {0})
  unfolding check_scalar_order
  check_sorted a BtList.nil = ok tt
  check_sorted a (cons b bs) = do check_scalar_order a b; check_sorted b bs

  unfoldable pub check_sublist : BtValue → Result (Unit {0})
  unfolding check_sorted
  check_sublist (list BtList.nil) = ok tt
  check_sublist (list (cons a as_)) = check_sorted a as_
  check_sublist _ = threw invalid_sublist

  -- The list must be a pair of sublists.
  unfoldable pub check_set_diff : BtList → Result (Unit {0})
  unfolding check_sublist
  check_set_diff (cons a (cons b BtList.nil)) = do check_sublist a; check_sublist b
  check_set_diff _ = threw invalid_set_size

  -- The last key so far, and the elements that are not consumed.
  unfoldable pub load_diff : ℕ → Option Bytes → BtDict → Option (Result BtDict)
  unfolding check_mode check_set_diff
  load_diff zero last dict = none
  load_diff (suc f) last BtDict.end = some (ok BtDict.end)
  load_diff (suc f) last (BtDict.entry k v dict) = elim (check_key last k) [
    | threw e ↦ some (threw e)
    | ok u ↦ elim v [
      | text mode ↦
          let rest = load_diff f (some k) dict in
          check_then (check_mode mode) (adding k (text mode) rest)
      | list changed ↦
          let rest = load_diff f (some k) dict in
          check_then (check_set_diff changed) (adding k (list changed) rest)
      | BtValue.dict sub ↦ elim (load_diff f none sub) [
        | none ↦ none
        | some (threw e) ↦ some (threw e)
        | some (ok inner) ↦ adding k (BtValue.dict inner) (load_diff f (some k) dict)
      ]
      | signed i ↦ load_diff f last (BtDict.entry k (signed i) dict)
      | unsigned n ↦ load_diff f last (BtDict.entry k (unsigned n) dict)
    ]
  ]
