-- ===== src/Config/Apply.antt =====
-- `apply_diff` of config.cpp. Each round reads and writes the data at its own key only: `Entry` is
-- what it leaves there, `none` for no value. An exception discards the data.
use libbchat_util.Base.{ℕ, Option, none, some, List, [], ◌∷◌, if◌then◌else◌}
use libbchat_util.Base.Order.{ℤ, Bytes, bytes_order}
use libbchat_util.Base.SortedSet.{insert, erase}
use libbchat_util.Config.Scalar.{Scalar, scalar_order}
use libbchat_util.Config.Dict.{DictValue, scalar, set, Dict, find, store, same_key}
use libbchat_util.Config.Result.{
  Error, Result, ok, threw, ◌>>=◌, invalid_diff_value, invalid_diff_type, invalid_set_added,
  invalid_set_removed, bad_shape,
}
use libbchat_util.Config.Bt.{
  BtValue, text, signed, unsigned, list, BtList, cons, BtDict, get_bt_scalar,
}

-- `data[k]`, replaced by an empty dict or set if it holds something else.
abbrev pub subdict : Option DictValue → Dict
subdict (some (DictValue.dict d)) = d
subdict _ = Dict.nil

abbrev pub subset : Option DictValue → List Scalar
subset (some (set s)) = s
subset _ = []

abbrev pub dash : Bytes
dash = b'-' ∷ []

module _ (get_int : ℕ → Option ℤ) where
  -- The scalar of an element, or the exception for one that is neither integer nor string.
  unfoldable pub element : Error → BtValue → Result Scalar
  element e v = do found ← get_bt_scalar get_int v; elim found [ none ↦ threw e | some x ↦ ok x ]

  unfoldable pub insert_all : BtList → List Scalar → Result (List Scalar)
  unfolding element
  insert_all BtList.nil s = ok s
  insert_all (cons v vs) s = do x ← element invalid_set_added v; insert_all vs (insert x s)

  unfoldable pub erase_all : BtList → List Scalar → Result (List Scalar)
  unfolding element
  erase_all BtList.nil s = ok s
  erase_all (cons v vs) s = do x ← element invalid_set_removed v; erase_all vs (erase x s)

  unfoldable pub erase_second : BtList → List Scalar → Result (List Scalar)
  unfolding erase_all
  erase_second (cons (list removed) rest) s = erase_all removed s
  erase_second _ s = threw bad_shape

  unfoldable pub apply_set_diff : BtList → List Scalar → Result (List Scalar)
  unfolding insert_all erase_second
  apply_set_diff (cons (list added) rest) s = do s' ← insert_all added s; erase_second rest s'
  apply_set_diff _ s = threw bad_shape

  unfoldable pub apply_text : Bytes → Scalar → Result (Option DictValue)
  apply_text mode s =
      if same_key mode dash
      then ok none
      else if same_key mode []
      then ok (some (scalar s))
      else threw invalid_diff_value

  unfoldable mutual
    pub apply_diff : Dict → BtDict → Dict → Result Dict
    apply_diff data_ BtDict.end source = ok data_
    apply_diff data_ (BtDict.entry k v diff) source =
        apply_entry (find k data_) v (find k source) >>= λ e.
        apply_diff (store k e data_) diff source

    pub apply_entry : Option DictValue → BtValue → Option DictValue → Result (Option DictValue)
    apply_entry old (text mode) (some (scalar s)) = apply_text mode s
    apply_entry old (list l) (some (set s)) =
        apply_set_diff l (subset old) >>= λ s'. ok (some (set s'))
    apply_entry old (BtValue.dict df) (some (DictValue.dict d)) =
        apply_diff (subdict old) df d >>= λ d'. ok (some (DictValue.dict d'))
    apply_entry old (signed i) (some v) = threw invalid_diff_type
    apply_entry old (unsigned n) (some v) = threw invalid_diff_type
    apply_entry old _ _ = ok none
