-- ===== src/Config/Diff.antt =====
-- The two `diff_impl` overloads of config.cpp. `none` outside stands for undefined behaviour, the
-- `*` of a null optional, and for fuel that ran out; `Config.Diff.Sound` shows when neither happens.
use libbchat_util.Base.{
  ℕ, zero, suc, Ordering, Option, none, some, List, [], ◌∷◌, ◌&&◌, empty, if◌then◌else◌,
}
use libbchat_util.Base.Order.{Bytes, compare_bytes}
use libbchat_util.Config.Scalar.{Scalar, scalar_order, compare_scalar}
use libbchat_util.Config.Dict.{DictValue, scalar, set, Dict}
use libbchat_util.Config.Bt.{BtValue, text, list, BtList, cons, BtDict, bt_scalars}

-- The elements that the loop over both sets puts in `added` and in `removed`.
pub record SetDiff : Type 0 where
  pub added : List Scalar
  pub removed : List Scalar

abbrev pub adding : Scalar → SetDiff → SetDiff
adding x d = record d { added = x ∷ d.added }

abbrev pub removing : Scalar → SetDiff → SetDiff
removing x d = record d { removed = x ∷ d.removed }

unfoldable pub set_diff : List Scalar → List Scalar → SetDiff
set_diff [] [] = record { added = []; removed = [] }
set_diff [] (n ∷ new) = adding n (set_diff [] new)
set_diff (o ∷ old) [] = removing o (set_diff old [])
set_diff (o ∷ old) (n ∷ new) = elim (compare_scalar n o) [
  | Ordering.lt ↦ adding n (set_diff (o ∷ old) new)
  | Ordering.gt ↦ removing o (set_diff old (n ∷ new))
  | Ordering.eq ↦ set_diff old new
]

unfoldable pub bt_of_set_diff : SetDiff → BtList
bt_of_set_diff d = cons (list (bt_scalars d.added)) (cons (list (bt_scalars d.removed)) BtList.nil)

-- diff_impl(const set&, const set&)
unfoldable pub diff_set : List Scalar → List Scalar → Option BtList
unfolding set_diff bt_of_set_diff
diff_set old new =
    let d = set_diff old new in
    if empty d.added && empty d.removed then none else some (bt_of_set_diff d)

-- `if (df.empty()) result.reset();`
abbrev pub reset : BtDict → Option BtDict
reset BtDict.end = none
reset (BtDict.entry k v d) = some (BtDict.entry k v d)

infixl 5 ◌>>=◌
abbrev pub ◌>>=◌ {ℓ κ} : {A : Type ℓ} {B : Type κ} → Option A → (A → Option B) → Option B
none >>= f = none
some a >>= f = f a

-- A value of `old` with no counterpart, given how the subdicts are compared.
unfoldable pub removed_value : (Dict → Dict → Option BtDict) → DictValue → Option BtValue
removed_value sub (scalar s) = some (text (b'-' ∷ []))
removed_value sub (set s) = do d ← diff_set s []; some (list d)
removed_value sub (DictValue.dict d) = do
  df ← sub d Dict.nil
  df' ← reset df
  some (BtValue.dict df')

-- A value of `new` with no counterpart of its type.
unfoldable pub added_value : (Dict → Dict → Option BtDict) → DictValue → Option BtValue
added_value sub (scalar s) = some (text [])
added_value sub (set s) = do d ← diff_set [] s; some (list d)
added_value sub (DictValue.dict d) = do df ← sub Dict.nil d; df' ← reset df; some (BtValue.dict df')

-- The same key in both: the inner `none` says that the key is not put in the diff.
unfoldable pub changed_value :
    (Dict → Dict → Option BtDict) → DictValue → DictValue → Option (Option BtValue)
unfolding added_value
changed_value sub (scalar o) (scalar n) =
    some (elim (compare_scalar o n) [ Ordering.eq ↦ none | _ ↦ some (text []) ])
changed_value sub (set o) (set n) =
    some (elim (diff_set o n) [ none ↦ none | some d ↦ some (list d) ])
changed_value sub (DictValue.dict o) (DictValue.dict n) = do
  df ← sub o n
  some (elim (reset df) [ none ↦ none | some d ↦ some (BtValue.dict d) ])
changed_value sub _ n = do v ← added_value sub n; some (some v)

abbrev pub put_end : Bytes → Option BtValue → BtDict → BtDict
put_end k none d = d
put_end k (some v) d = BtDict.entry k v d

-- diff_impl(const dict&, const dict&) before the reset. The keys ascend, so `df[key] = v` puts each
-- behind those before it.
unfoldable pub diff_dict : ℕ → Dict → Dict → Option BtDict
unfolding removed_value added_value changed_value
diff_dict zero old new = none
diff_dict (suc f) Dict.nil Dict.nil = some BtDict.end
diff_dict (suc f) Dict.nil (Dict.entry j n new) = do
  v ← added_value (diff_dict f) n
  df ← diff_dict f Dict.nil new
  some (BtDict.entry j v df)
diff_dict (suc f) (Dict.entry i o old) Dict.nil = do
  v ← removed_value (diff_dict f) o
  df ← diff_dict f old Dict.nil
  some (BtDict.entry i v df)
diff_dict (suc f) (Dict.entry i o old) (Dict.entry j n new) = elim (compare_bytes j i) [
  | Ordering.lt ↦ do
    v ← added_value (diff_dict f) n
    df ← diff_dict f (Dict.entry i o old) new
    some (BtDict.entry j v df)
  | Ordering.gt ↦ do
    v ← removed_value (diff_dict f) o
    df ← diff_dict f old (Dict.entry j n new)
    some (BtDict.entry i v df)
  | Ordering.eq ↦ do
    v ← changed_value (diff_dict f) o n
    df ← diff_dict f old new
    some (put_end j v df)
]

-- diff_impl(const dict&, const dict&): the inner `none` is the null optional for no difference.
unfoldable pub diff_impl : ℕ → Dict → Dict → Option (Option BtDict)
diff_impl f old new = do df ← diff_dict f old new; some (reset df)
