-- ===== src/Config/Codec/Laws.antt =====
-- What `parse_data` accepts, and that it undoes `serialize_data`.
use libbchat_util.Base.{
  ℕ, Ordering, ◌≡◌, ◌≢◌, refl, Option, none, some, List, [], ◌∷◌, false, not, arith,
}
use libbchat_util.Base.Order.{ℤ, Bytes, compare_bytes}
use libbchat_util.Base.SortedSet.{IsSorted}
use libbchat_util.Base.SortedSet
use libbchat_util.Config.Scalar.{Scalar, int, str, scalar_order, compare_scalar}
use libbchat_util.Config.Result.{
  ok, require, >>=-eq-ok, >>-eq-ok, require-eq-ok, unpruned_set, unpruned_dict,
}
use libbchat_util.Config.Dict
use libbchat_util.Config.Dict.{
  DictValue, Dict, scalar, set, IsOrdered, IsOrderedValue, IsPruned, IsPrunedValue,
}
use libbchat_util.Config.Bt.{
  BtValue, BtList, BtDict, text, signed, unsigned, list, cons, bt_scalar, bt_scalars,
}
use libbchat_util.Config.Codec.{
  serialize_value, serialize_dict, check_key, check_scalar, parse_integer, parse_scalar, parse_set,
  parse_value, parse_dict, parse_data, finished, finished_list,
}

-- Everything comes after the last key, if there is one.
abbrev After : Option Bytes → Dict → Type 0
After none d = Unit {0}
After (some k) d = Dict.Above k d

abbrev AfterScalar : Option Scalar → List Scalar → Type 0
AfterScalar none s = Unit {0}
AfterScalar (some x) s = SortedSet.Above x s

module _ (get_int : ℕ → Option ℤ) where
  parse_scalar-bt_scalar : (s : Scalar) → parse_scalar get_int (bt_scalar s) ≡ ok s
  unfolding parse_scalar bt_scalar
  parse_scalar-bt_scalar (int i) = refl
  parse_scalar-bt_scalar (str s) = refl

  check_scalar_after :
      (last : Option Scalar) (x : Scalar) (xs : List Scalar)
      → AfterScalar last (x ∷ xs)
      → check_scalar last x ≡ ok tt
  unfolding check_scalar
  check_scalar_after none x xs a = refl
  check_scalar_after (some l) x xs a = ground arith

  parse_set-bt_scalars :
      (last : Option Scalar) (s : List Scalar)
      → AfterScalar last s
      → IsSorted s
      → parse_set get_int last (bt_scalars s) ≡ ok s
  unfolding parse_set bt_scalars
  parse_set-bt_scalars last [] a h = refl
  parse_set-bt_scalars last (x ∷ xs) a h =
      rw
        (
          parse_scalar-bt_scalar x,
          check_scalar_after last x xs a,
          parse_set-bt_scalars (some x) xs h.0 h.1,
        )
        refl

  bt_scalars_unfinished : (s : List Scalar) → s ≢ [] → finished_list get_int (bt_scalars s) ≡ false
  unfolding bt_scalars
  bt_scalars_unfinished [] h = absurd (h refl)
  bt_scalars_unfinished (x ∷ xs) h = refl

  serialize_dict_unfinished :
      (d : Dict) → d ≢ Dict.nil → finished get_int (serialize_dict d) ≡ false
  unfolding serialize_dict
  serialize_dict_unfinished Dict.nil h = absurd (h refl)
  serialize_dict_unfinished (Dict.entry k v d) h = refl

  check_key-After :
      (last : Option Bytes) (k : Bytes) (v : DictValue) (d : Dict)
      → After last (Dict.entry k v d)
      → check_key last k ≡ ok tt
  unfolding check_key
  check_key-After none k v d a = refl
  check_key-After (some l) k v d a = ground arith

  mutual
    unfolding parse_value parse_dict serialize_value serialize_dict bt_scalar

    parse_value-serialize_value :
        (v : DictValue)
        → IsOrderedValue v
        → IsPrunedValue v
        → parse_value get_int (serialize_value v) ≡ ok v
    parse_value-serialize_value (scalar (int i)) ho hp = refl
    parse_value-serialize_value (scalar (str s)) ho hp = refl
    parse_value-serialize_value (set s) ho hp =
        rw (bt_scalars_unfinished s hp, parse_set-bt_scalars none s tt ho) refl
    parse_value-serialize_value (DictValue.dict d) ho hp =
        rw (serialize_dict_unfinished d hp.0, parse_dict-serialize_dict none d tt ho hp.1) refl

    parse_dict-serialize_dict :
        (last : Option Bytes) (d : Dict)
        → After last d
        → IsOrdered d
        → IsPruned d
        → parse_dict get_int last (serialize_dict d) ≡ ok d
    parse_dict-serialize_dict last Dict.nil a ho hp = refl
    parse_dict-serialize_dict last (Dict.entry k v d) a ho hp =
        rw
          (
            check_key-After last k v d a,
            parse_value-serialize_value v ho.1 hp.0,
            parse_dict-serialize_dict (some k) d ho.0 ho.2 hp.1,
          )
          refl

  -- Parsing what `serialize_data` wrote of an ordered and pruned dict gives that dict.
  pub parse_data-serialize_dict :
      (d : Dict) → IsOrdered d → IsPruned d → parse_data get_int (serialize_dict d) ≡ ok d
  unfolding parse_data
  parse_data-serialize_dict d ho hp = parse_dict-serialize_dict none d tt ho hp

  check_key_inv :
      (last : Option Bytes) (k : Bytes) (v : DictValue) (d : Dict)
      → check_key last k ≡ ok tt
      → Dict.Above k d
      → After last (Dict.entry k v d)
  unfolding check_key
  check_key_inv none k v d h a = tt
  check_key_inv (some l) k v d h a =
      let c : compare_bytes l k ≡ Ordering.lt = ground arith in (c, Dict.Above-trans l k d c a)

  check_scalar_inv :
      (last : Option Scalar) (x : Scalar) (xs : List Scalar)
      → check_scalar last x ≡ ok tt
      → SortedSet.Above x xs
      → AfterScalar last (x ∷ xs)
  unfolding check_scalar
  check_scalar_inv none x xs h a = tt
  check_scalar_inv (some l) x xs h a =
      let c : compare_scalar l x ≡ Ordering.lt = ground arith in
      (c, SortedSet.Above-trans l x xs c a)

  AfterScalar-nil : (last : Option Scalar) → AfterScalar last []
  AfterScalar-nil none = tt
  AfterScalar-nil (some x) = tt

  After-nil : (last : Option Bytes) → After last Dict.nil
  After-nil none = tt
  After-nil (some x) = tt

  parse_set_sound :
      (last : Option Scalar) (l : BtList) (s : List Scalar)
      → parse_set get_int last l ≡ ok s
      → AfterScalar last s × IsSorted s
  unfolding parse_set
  parse_set_sound last BtList.nil s h =
      let e : [] ≡ s = ground arith in rw (← e) (AfterScalar-nil last, tt)
  parse_set_sound last (cons v vs) s h =
      let (x, parsed, h') = >>=-eq-ok (parse_scalar get_int v) _ h in
      let (checked, h'') = >>-eq-ok (check_scalar last x) _ h' in
      let (xs, rest, done) = >>=-eq-ok (parse_set get_int (some x) vs) _ h'' in
      let (above, sorted) = parse_set_sound (some x) vs xs rest in
      let e : x ∷ xs ≡ s = ground arith in
      rw (← e) (check_scalar_inv last x xs checked above, (above, sorted))

  parse_set_unfinished :
      (l : BtList) (s : List Scalar)
      → finished_list get_int l ≡ false
      → parse_set get_int none l ≡ ok s
      → s ≢ []
  unfolding parse_set
  parse_set_unfinished BtList.nil s f h = cc
  parse_set_unfinished (cons v vs) s f h =
      let (x, parsed, h') = >>=-eq-ok (parse_scalar get_int v) _ h in
      let (xs, rest, done) = >>=-eq-ok (parse_set get_int (some x) vs) _ h' in λ e. ground arith

  parse_dict_unfinished :
      (d : BtDict) (e : Dict)
      → finished get_int d ≡ false
      → parse_dict get_int none d ≡ ok e
      → e ≢ Dict.nil
  unfolding parse_dict check_key
  parse_dict_unfinished BtDict.end e f h = cc
  parse_dict_unfinished (BtDict.entry k v d) e f h =
      let (w, parsed, h') = >>=-eq-ok (parse_value get_int v) _ h in
      let (r, rest, done) = >>=-eq-ok (parse_dict get_int (some k) d) _ h' in λ q. ground arith

  mutual
    unfolding parse_value parse_dict

    parse_value_sound :
        (v : BtValue) (w : DictValue)
        → parse_value get_int v ≡ ok w
        → IsOrderedValue w × IsPrunedValue w
    parse_value_sound (text s) w h = let e : scalar (str s) ≡ w = ground arith in rw (← e) (tt, tt)
    parse_value_sound (signed i) w h =
        let e : scalar (int i) ≡ w = ground arith in rw (← e) (tt, tt)
    parse_value_sound (unsigned n) w h =
        let (x, parsed, done) = >>=-eq-ok (parse_integer get_int n) _ h in
        let e : scalar x ≡ w = ground arith in rw (← e) (tt, tt)
    parse_value_sound (list l) w h =
        let (full, h') = >>-eq-ok (require (not (finished_list get_int l)) unpruned_set) _ h in
        let (s, parsed, done) = >>=-eq-ok (parse_set get_int none l) _ h' in
        let e : set s ≡ w = ground arith in
        let f : finished_list get_int l ≡ false =
          ground (arith, require-eq-ok _ unpruned_set full) in
        rw (← e) ((parse_set_sound none l s parsed).1, parse_set_unfinished l s f parsed)
    parse_value_sound (BtValue.dict d) w h =
        let (full, h') = >>-eq-ok (require (not (finished get_int d)) unpruned_dict) _ h in
        let (c, parsed, done) = >>=-eq-ok (parse_dict get_int none d) _ h' in
        let e : DictValue.dict c ≡ w = ground arith in
        let f : finished get_int d ≡ false = ground (arith, require-eq-ok _ unpruned_dict full) in
        let (after, ordered, pruned) = parse_dict_sound none d c parsed in
        rw (← e) (ordered, (parse_dict_unfinished d c f parsed, pruned))

    parse_dict_sound :
        (last : Option Bytes) (d : BtDict) (e : Dict)
        → parse_dict get_int last d ≡ ok e
        → After last e × IsOrdered e × IsPruned e
    parse_dict_sound last BtDict.end e h =
        let q : Dict.nil ≡ e = ground arith in rw (← q) (After-nil last, tt, tt)
    parse_dict_sound last (BtDict.entry k v d) e h =
        let (checked, h') = >>-eq-ok (check_key last k) _ h in
        let (w, parsed, h'') = >>=-eq-ok (parse_value get_int v) _ h' in
        let (r, rest, done) = >>=-eq-ok (parse_dict get_int (some k) d) _ h'' in
        let (above, ordered, pruned) = parse_dict_sound (some k) d r rest in
        let (vo, vp) = parse_value_sound v w parsed in
        let q : Dict.entry k w r ≡ e = ground arith in
        rw (← q) (check_key_inv last k w r checked above, (above, vo, ordered), (vp, pruned))

  -- Whatever elements `parse_data` accepts, the dict it returns has its keys and set elements in
  -- order at every depth and holds no empty set or dict.
  pub parse_data_sound :
      (b : BtDict) (d : Dict) → parse_data get_int b ≡ ok d → IsOrdered d × IsPruned d
  unfolding parse_data
  parse_data_sound b d h =
      let (after, ordered, pruned) = parse_dict_sound none b d h in (ordered, pruned)
