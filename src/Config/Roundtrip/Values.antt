-- ===== src/Config/Roundtrip/Values.antt =====
-- The values of a dict: what `diff_impl` writes for a value that is new, gone or changed does the
-- same when it is applied, if the diffs of the dicts inside do.
use libbchat_util.Base.{
  ℕ, Ordering, ◌≡◌, ◌≢◌, refl, sym, ap, inl, inr, Option, none, some, List, [], arith, Option-cases,
}
use libbchat_util.Base.Order.{ℤ, Bytes, compare_bytes}
use libbchat_util.Base.SortedSet.{IsSorted}
use libbchat_util.Config.Scalar.{Scalar, scalar_order, compare_scalar, eq_of_compare_scalar}
use libbchat_util.Config.Result.{ok}
use libbchat_util.Config.Dict
use libbchat_util.Config.Dict.{
  DictValue, Dict, find, scalar, set, IsOrdered, IsOrderedValue, IsPruned, IsPrunedValue, size,
  size_value, find-Above, Above-trans,
}
use libbchat_util.Config.Bt
use libbchat_util.Config.Bt.{BtValue, BtDict, BtList, list, text}
use libbchat_util.Config.Diff.{
  diff_set, set_diff, bt_of_set_diff, reset, removed_value, added_value, changed_value, ◌>>=◌,
}
use libbchat_util.Config.Apply.{apply_diff, apply_entry, apply_text, subdict, subset}
use libbchat_util.Config.Roundtrip.Sets.{apply_set_diff-bt_of_set_diff, eq_of_diff_set}
use libbchat_util.Config.Roundtrip.Entries.{Effect, apply_diff_of_Effect}

diff_set_of_ne :
    (o n : List Scalar) → diff_set o n ≢ none → diff_set o n ≡ some (bt_of_set_diff (set_diff o n))
unfolding diff_set
diff_set_of_ne o n h = ground arith

module _ (get_int : ℕ → Option ℤ) where
  -- What the induction shows of a pair of dicts: the result, its order, what bounds its keys, and
  -- that it is right at every key.
  abbrev pub Sound : Dict → Dict → Option BtDict → Type 0
  Sound o n r =
      (df : BtDict) × (r ≡ some df)
      × Bt.IsOrdered df
      × ((k : Bytes) → Dict.Above k o → Dict.Above k n → Bt.Above k df)
      × ((k : Bytes) → Effect get_int (find k o) (Bt.find k df) (find k n))

  -- The same, as the callers use it.
  abbrev pub Leads : Dict → Dict → Option BtDict → Type 0
  Leads o n r = (df : BtDict) × (r ≡ some df) × (apply_diff get_int o df n ≡ ok n)

  pub Leads-of_Sound :
      (o n : Dict) (r : Option BtDict) → IsOrdered o → IsOrdered n → Sound o n r → Leads o n r
  Leads-of_Sound o n r ho hn (df, e, odf, above, effect) =
      (df, e, apply_diff_of_Effect get_int df o n odf ho hn effect)

  -- A value that holds nothing of the kind that `v` is.
  abbrev pub Fresh : Option DictValue → DictValue → Type 0
  Fresh old (scalar s) = Unit {0}
  Fresh old (set s) = subset old ≡ []
  Fresh old (DictValue.dict d) = subdict old ≡ Dict.nil

  -- A diff that leads between different dicts is not empty.
  reset_of_Leads :
      (o n : Dict) (df : BtDict) → apply_diff get_int o df n ≡ ok n → o ≢ n → reset df ≡ some df
  unfolding apply_diff
  reset_of_Leads o n BtDict.end h ne = absurd (ne (ground arith))
  reset_of_Leads o n (BtDict.entry k v df) h ne = refl

  -- So is a set diff between different sets.
  diff_set_ne :
      (o n : List Scalar)
      → IsSorted o
      → IsSorted n
      → o ≢ n
      → diff_set o n ≡ some (bt_of_set_diff (set_diff o n))
  diff_set_ne o n ho hn ne = diff_set_of_ne o n (λ e. ne (eq_of_diff_set o n ho hn e))

  pub added_value_lem :
      (sub : Dict → Dict → Option BtDict) (v : DictValue)
      → IsOrderedValue v
      → IsPrunedValue v
      → ((d : Dict) → v ≡ DictValue.dict d → Leads Dict.nil d (sub Dict.nil d))
      → (w : BtValue) × (added_value sub v ≡ some w)
        × ((old : Option DictValue)
            → Fresh old v
            → apply_entry get_int old w (some v) ≡ ok (some v))
  unfolding added_value apply_entry apply_text compare_bytes
  added_value_lem sub (scalar s) ho hp ih = (text [], refl, λ old fresh. refl)
  added_value_lem sub (set s) ho hp ih = (
    list (bt_of_set_diff (set_diff [] s)),
    rw (diff_set_ne [] s tt ho (λ e. hp (sym e))) refl,
    λ old fresh. rw (fresh, apply_set_diff-bt_of_set_diff get_int [] s tt ho) refl,
  )
  added_value_lem sub (DictValue.dict d) ho hp ih =
      let (df, e, applied) = ih d refl in
      (
        BtValue.dict df,
        rw (e, reset_of_Leads Dict.nil d df applied (λ q. hp.0 (sym q))) refl,
        λ old fresh. rw (fresh, applied) refl,
      )

  pub removed_value_lem :
      (sub : Dict → Dict → Option BtDict) (v : DictValue)
      → IsOrderedValue v
      → IsPrunedValue v
      → ((d : Dict) → v ≡ DictValue.dict d → Leads d Dict.nil (sub d Dict.nil))
      → (w : BtValue) × (removed_value sub v ≡ some w)
        × ((old : Option DictValue) → apply_entry get_int old w none ≡ ok none)
  unfolding removed_value apply_entry
  removed_value_lem sub (scalar s) ho hp ih = (text _, refl, λ old. refl)
  removed_value_lem sub (set s) ho hp ih =
      (list (bt_of_set_diff (set_diff s [])), rw (diff_set_ne s [] ho tt hp) refl, λ old. refl)
  removed_value_lem sub (DictValue.dict d) ho hp ih =
      let (df, e, applied) = ih d refl in
      (BtValue.dict df, rw (e, reset_of_Leads d Dict.nil df applied hp.0) refl, λ old. refl)

  same_scalar :
      (old : Option DictValue) (o n : Scalar) (c : Ordering)
      → compare_scalar o n ≡ c
      → Effect get_int
          (some (scalar o))
          (elim c [ Ordering.eq ↦ none | _ ↦ some (text []) ])
          (some (scalar n))
  unfolding apply_entry apply_text compare_bytes
  same_scalar old o n Ordering.lt e = refl
  same_scalar old o n Ordering.eq e = ap (λ s. some (scalar s)) (eq_of_compare_scalar o n e)
  same_scalar old o n Ordering.gt e = refl

  same_set :
      (o n : List Scalar)
      → IsSorted o
      → IsSorted n
      → Effect get_int
          (some (set o))
          (elim (diff_set o n) [ none ↦ none | some d ↦ some (list d) ])
          (some (set n))
  unfolding apply_entry
  same_set o n ho hn = elim (Option-cases (diff_set o n)) [
    | inl e ↦ rw (e, Effect) (ap (λ s. some (set s)) (eq_of_diff_set o n ho hn e))
    | inr (d, e) ↦
        rw (diff_set_of_ne o n (λ q. ground arith), Effect)
          (rw (apply_set_diff-bt_of_set_diff get_int o n ho hn) refl)
  ]

  same_dict :
      (o n : Dict) (df : BtDict)
      → apply_diff get_int o df n ≡ ok n
      → Effect get_int
          (some (DictValue.dict o))
          (elim (reset df) [ none ↦ none | some d ↦ some (BtValue.dict d) ])
          (some (DictValue.dict n))
  unfolding apply_entry apply_diff
  same_dict o n BtDict.end h = ground arith
  same_dict o n (BtDict.entry k v df) h = rw h refl

  abbrev pub ChangeSound : DictValue → DictValue → Option (Option BtValue) → Type 0
  ChangeSound o n r = (w : Option BtValue) × (r ≡ some w) × Effect get_int (some o) w (some n)

  -- A value whose kind changed is a new value.
  replaced :
      (sub : Dict → Dict → Option BtDict) (o n : DictValue)
      → IsOrderedValue n
      → IsPrunedValue n
      → ((d : Dict) → n ≡ DictValue.dict d → Leads Dict.nil d (sub Dict.nil d))
      → Fresh (some o) n
      → ChangeSound o n (added_value sub n >>= λ v. some (some v))
  replaced sub o n ho hp ih fresh =
      let (w, e, applied) = added_value_lem sub n ho hp ih in
      (some w, rw e refl, applied (some o) fresh)

  pub changed_value_lem :
      (sub : Dict → Dict → Option BtDict) (o n : DictValue)
      → IsOrderedValue o
      → IsOrderedValue n
      → IsPrunedValue n
      → ((d : Dict) → n ≡ DictValue.dict d → Leads Dict.nil d (sub Dict.nil d))
      → ((d e : Dict) → o ≡ DictValue.dict d → n ≡ DictValue.dict e → Leads d e (sub d e))
      → ChangeSound o n (changed_value sub o n)
  unfolding changed_value
  changed_value_lem sub (scalar o) (scalar n) oo on hp new both =
      (_, refl, same_scalar none o n (compare_scalar o n) refl)
  changed_value_lem sub (set o) (set n) oo on hp new both = (_, refl, same_set o n oo on)
  changed_value_lem sub (DictValue.dict o) (DictValue.dict n) oo on hp new both =
      let (df, e, applied) = both o n refl refl in (_, rw e refl, same_dict o n df applied)
  changed_value_lem sub (scalar o) (set n) oo on hp new both =
      replaced sub (scalar o) (set n) on hp new refl
  changed_value_lem sub (scalar o) (DictValue.dict n) oo on hp new both =
      replaced sub (scalar o) (DictValue.dict n) on hp new refl
  changed_value_lem sub (set o) (scalar n) oo on hp new both =
      replaced sub (set o) (scalar n) on hp new tt
  changed_value_lem sub (set o) (DictValue.dict n) oo on hp new both =
      replaced sub (set o) (DictValue.dict n) on hp new refl
  changed_value_lem sub (DictValue.dict o) (scalar n) oo on hp new both =
      replaced sub (DictValue.dict o) (scalar n) on hp new tt
  changed_value_lem sub (DictValue.dict o) (set n) oo on hp new both =
      replaced sub (DictValue.dict o) (set n) on hp new refl
