-- ===== src/Config/Roundtrip/Same.antt =====
-- When there is no diff.
use libbchat_util.Base.{
  ℕ, zero, suc, ◌+◌, ◌<◌, ◌≡◌, ◌↔◌, refl, ap, Option, none, some, List, [], ◌∷◌, arith,
}
use libbchat_util.Base.Order.{ℤ, compare_bytes_refl}
use libbchat_util.Config.Scalar.{Scalar, compare_scalar_refl}
use libbchat_util.Config.Result.{ok}
use libbchat_util.Config.Dict.{DictValue, Dict, scalar, set, size, size_value}
use libbchat_util.Config.Bt.{BtDict}
use libbchat_util.Config.Diff.{set_diff, diff_set, changed_value, diff_dict, diff_impl, reset}
use libbchat_util.Config.Apply.{apply_diff}
use libbchat_util.Config.Roundtrip.Dicts.{IsPair, apply_diff-diff_dict}

set_diff_self : (s : List Scalar) → set_diff s s ≡ record { added = []; removed = [] }
unfolding set_diff
set_diff_self [] = refl
set_diff_self (x ∷ xs) = rw (compare_scalar_refl x, set_diff) (set_diff_self xs)

changed_value_self :
    (sub : Dict → Dict → Option BtDict) (v : DictValue)
    → ((d : Dict) → v ≡ DictValue.dict d → sub d d ≡ some BtDict.end)
    → changed_value sub v v ≡ some none
unfolding changed_value diff_set
changed_value_self sub (scalar s) h = rw (compare_scalar_refl s) refl
changed_value_self sub (set s) h = rw (set_diff_self s) refl
changed_value_self sub (DictValue.dict d) h = rw (h d refl) refl

diff_dict_self : (f : ℕ) (d : Dict) → size d < f → diff_dict f d d ≡ some BtDict.end
unfolding diff_dict size
diff_dict_self zero d h = absurd (omega arith)
diff_dict_self (suc f) Dict.nil h = refl
diff_dict_self (suc f) (Dict.entry k v d) h =
    rw
      (
        compare_bytes_refl k,
        diff_dict,
        changed_value_self (diff_dict f) v
            (λ e q. diff_dict_self f e (omega (arith, ap size_value q))),
        diff_dict_self f d (omega arith),
      )
      refl

null_or_not : (df : BtDict) → (reset df ≡ none) → df ≡ BtDict.end
null_or_not BtDict.end h = refl
null_or_not (BtDict.entry k v df) h = ground arith

equal_of_no_diff :
    (get_int : ℕ → Option ℤ) (o n : Dict) (df : BtDict)
    → apply_diff get_int o df n ≡ ok n
    → reset df ≡ none
    → o ≡ n
unfolding apply_diff
equal_of_no_diff get_int o n BtDict.end h e = ground arith
equal_of_no_diff get_int o n (BtDict.entry k v df) h e = ground arith

-- With that fuel, two ordered and pruned dicts have no diff exactly when they are equal.
pub diff_impl-none :
    (f : ℕ) (o n : Dict)
    → size o + size n < f
    → IsPair o n
    → (diff_impl f o n ≡ some none) ↔ (o ≡ n)
unfolding diff_impl
diff_impl-none f o n h p = (
  λ e.
      let (df, made, odf, applied) = apply_diff-diff_dict no_int f o n h p in
      equal_of_no_diff no_int o n df applied (ground arith),
  λ e. rw (← e, diff_dict_self f o (omega arith)) refl,
)
  where
    no_int : ℕ → Option ℤ
    no_int i = none
