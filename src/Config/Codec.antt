-- ===== src/Config/Codec.antt =====
-- `serialize_data` and `parse_data` of config.cpp. oxenc's producers and consumers turn elements into
-- text and back; here the text is its sequence of elements, in whatever order it has them, a signed
-- integer for a bencoded integer that fits one.
pub mod Laws
use libbchat_util.Base.{
  ℕ, Ordering, Option, none, some, List, [], ◌∷◌, Bool, true, false, not, if◌then◌else◌,
}
use libbchat_util.Base.Order.{ℤ, Bytes, compare_bytes, lt, bytes_order}
use libbchat_util.Config.Scalar.{Scalar, int, str, scalar_order, compare_scalar}
use libbchat_util.Config.Result.{
  Error, Result, ok, threw, ◌>>=◌, ◌>>◌, require, unpruned_dict, unpruned_set, keys_out_of_order,
  duplicate_scalar, unsorted_set, non_scalar, integer_overflow,
}
use libbchat_util.Config.Dict.{DictValue, Dict, scalar, set}
use libbchat_util.Config.Bt.{
  BtValue, BtList, BtDict, text, signed, unsigned, list, cons, bt_scalar, bt_scalars,
}

unfoldable mutual
  pub serialize_value : DictValue → BtValue
  serialize_value (scalar s) = bt_scalar s
  serialize_value (set s) = list (bt_scalars s)
  serialize_value (DictValue.dict d) = BtValue.dict (serialize_dict d)

  pub serialize_dict : Dict → BtDict
  serialize_dict Dict.nil = BtDict.end
  serialize_dict (Dict.entry k v d) = BtDict.entry k (serialize_value v) (serialize_dict d)

-- `!d.empty() && key <= d.rbegin()->first` throws: the last key so far, and the next.
unfoldable pub check_key : Option Bytes → Bytes → Result (Unit {0})
check_key none k = ok tt
check_key (some last) k = elim (compare_bytes last k) [
  | Ordering.lt ↦ ok tt
  | _ ↦ threw keys_out_of_order
]

-- The two checks of a set's element against the last one.
unfoldable pub check_scalar : Option Scalar → Scalar → Result (Unit {0})
check_scalar none x = ok tt
check_scalar (some last) x = elim (compare_scalar last x) [
  | Ordering.lt ↦ ok tt
  | Ordering.eq ↦ threw duplicate_scalar
  | Ordering.gt ↦ threw unsorted_set
]

module _ (get_int : ℕ → Option ℤ) where
  unfoldable pub parse_integer : ℕ → Result Scalar
  parse_integer n = elim (get_int n) [ none ↦ threw integer_overflow | some i ↦ ok (int i) ]

  unfoldable pub parse_scalar : BtValue → Result Scalar
  unfolding parse_integer
  parse_scalar (text s) = ok (str s)
  parse_scalar (signed i) = ok (int i)
  parse_scalar (unsigned n) = parse_integer n
  parse_scalar _ = threw non_scalar

  unfoldable pub parse_set : Option Scalar → BtList → Result (List Scalar)
  unfolding parse_scalar check_scalar
  parse_set last BtList.nil = ok []
  parse_set last (cons v vs) = do
    x ← parse_scalar v
    check_scalar last x
    xs ← parse_set (some x) vs
    ok (x ∷ xs)

  abbrev pub finished_list : BtList → Bool
  finished_list BtList.nil = true
  finished_list (cons v vs) = false

  abbrev pub finished : BtDict → Bool
  finished BtDict.end = true
  finished (BtDict.entry k v d) = false

  unfoldable mutual
    pub parse_value : BtValue → Result DictValue
    parse_value (text s) = ok (scalar (str s))
    parse_value (signed i) = ok (scalar (int i))
    parse_value (unsigned n) = parse_integer n >>= λ x. ok (scalar x)
    parse_value (BtValue.dict d) =
        require (not (finished d)) unpruned_dict
        >> (parse_dict none d >>= λ e. ok (DictValue.dict e))
    parse_value (list l) =
        require (not (finished_list l)) unpruned_set >> (parse_set none l >>= λ s. ok (set s))

    pub parse_dict : Option Bytes → BtDict → Result Dict
    parse_dict last BtDict.end = ok Dict.nil
    parse_dict last (BtDict.entry k v d) =
        check_key last k
        >> (parse_value v >>= λ w. parse_dict (some k) d >>= λ e. ok (Dict.entry k w e))

  -- parse_data at the top level, where an empty dict is allowed.
  unfoldable pub parse_data : BtDict → Result Dict
  unfolding parse_dict
  parse_data d = parse_dict none d
