-- ===== src/Tests/Config.antt =====
-- The configuration data model at concrete dicts.
use libbchat_util.Base.{ℕ, ◌≡◌, ◌↔◌, refl, Option, none, some, List, [], ◌∷◌, true, arith}
use libbchat_util.Base.Order.{ℤ, pos, Bytes, compare_bytes}
use libbchat_util.Config.Scalar.{int, str, compare_scalar}
use libbchat_util.Config.Result.{ok}
use libbchat_util.Config.Dict.{DictValue, Dict, scalar, set, size, IsOrdered, IsPruned}
use libbchat_util.Config.Bt
use libbchat_util.Config.Bt.{BtValue, BtDict, BtList, text, list, cons, signed}
use libbchat_util.Config.Prune.{prune}
use libbchat_util.Config.Prune.Leaves.{prune_lem, leaf_at}
use libbchat_util.Config.Diff.{diff_dict, diff_impl, diff_set}
use libbchat_util.Config.Apply.{apply_diff}
use libbchat_util.Config.Roundtrip.Dicts.{IsPair, apply_diff-diff_dict}
use libbchat_util.Config.Roundtrip.Same.{diff_impl-none}

abbrev pub get_int : ℕ → Option ℤ
get_int n = some (pos n)

-- {"a": 1, "c": {"x": 1}, "s": [1, "y"]}
abbrev pub old : Dict
old = Dict.entry (b'a' ∷ []) (scalar (int (pos 1))) (
    Dict.entry (b'c' ∷ []) (DictValue.dict (Dict.entry (b'x' ∷ []) (scalar (int (pos 1))) Dict.nil))
      (Dict.entry (b's' ∷ []) (set (int (pos 1) ∷ str (b'y' ∷ []) ∷ [])) Dict.nil))

-- {"b": 2, "c": {"z": 3}, "s": [2, "y"]}
abbrev pub new : Dict
new = Dict.entry (b'b' ∷ []) (scalar (int (pos 2))) (
    Dict.entry (b'c' ∷ []) (DictValue.dict (Dict.entry (b'z' ∷ []) (scalar (int (pos 3))) Dict.nil))
      (Dict.entry (b's' ∷ []) (set (int (pos 2) ∷ str (b'y' ∷ []) ∷ [])) Dict.nil))

pub old-new : IsPair old new
unfolding compare_bytes compare_scalar
old-new = record {
  old_ordered = ground arith;
  new_ordered = ground arith;
  old_pruned = ground arith;
  new_pruned = ground arith;
}

diff_runs :
    diff_dict 20 old new
    ≡ some (
        BtDict.entry (b'a' ∷ []) (text (b'-' ∷ [])) (
          BtDict.entry (b'b' ∷ []) (text []) (
            BtDict.entry
              (b'c' ∷ [])
              (BtValue.dict (
                BtDict.entry
                  (b'x' ∷ [])
                  (text (b'-' ∷ []))
                  (BtDict.entry (b'z' ∷ []) (text []) BtDict.end)))
              (BtDict.entry
                (b's' ∷ [])
                (list (
                  cons
                    (list (cons (signed (pos 2)) BtList.nil))
                    (cons (list (cons (signed (pos 1)) BtList.nil)) BtList.nil)))
                BtDict.end))))
unfolding diff_dict compare_bytes compare_scalar diff_set Bt.bt_scalars
diff_runs = refl

apply_diff-diff_dict_example :
    (df : BtDict) × (diff_dict 20 old new ≡ some df)
    × Bt.IsOrdered df
    × (apply_diff get_int old df new ≡ ok new)
apply_diff-diff_dict_example =
    apply_diff-diff_dict get_int 20 old new (unfold size in omega arith) old-new

diff_impl-none_example : (diff_impl 20 old new ≡ some none) ↔ (old ≡ new)
diff_impl-none_example = diff_impl-none 20 old new (unfold size in omega arith) old-new

-- {"a": 1, "e": {"x": {}, "y": []}}
abbrev hollow : Dict
hollow = Dict.entry (b'a' ∷ []) (scalar (int (pos 1))) (
    Dict.entry (b'e' ∷ [])
      (DictValue.dict (
        Dict.entry (b'x' ∷ []) (DictValue.dict Dict.nil)
          (Dict.entry (b'y' ∷ []) (set []) Dict.nil)))
      Dict.nil)

hollow-IsOrdered : IsOrdered hollow
unfolding compare_bytes
hollow-IsOrdered = ground arith

prune_runs : prune hollow ≡ (Dict.entry (b'a' ∷ []) (scalar (int (pos 1))) Dict.nil, true)
unfolding prune
prune_runs = refl

prune_lem_example :
    IsPruned (prune hollow).0
    × IsOrdered (prune hollow).0
    × ((ks : List Bytes)
        → leaf_at ks (DictValue.dict (prune hollow).0) ≡ leaf_at ks (DictValue.dict hollow))
prune_lem_example = prune_lem hollow hollow-IsOrdered
