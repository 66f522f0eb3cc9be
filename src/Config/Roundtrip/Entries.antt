-- ===== src/Config/Roundtrip/Entries.antt =====
-- What one entry of a diff does at its key, and from that what the whole diff does.
use libbchat_util.Base.{ℕ, Ordering, ◌≡◌, ◌≢◌, refl, sym, ap, subst, inl, inr, Option, none, some}
use libbchat_util.Base.Order.{
  ℤ, Bytes, compare_bytes, compare_bytes_refl, eq_of_compare_bytes, is_eq,
}
use libbchat_util.Config.Result.{ok}
use libbchat_util.Config.Dict
use libbchat_util.Config.Dict.{
  DictValue, Dict, find, store, IsOrdered, IsOrderedValue, IsOrderedOption, same_key, find-store,
  store-IsOrdered, eq_of_find, find-Above, find-IsOrdered,
}
use libbchat_util.Config.Bt
use libbchat_util.Config.Bt.{BtValue, BtDict}
use libbchat_util.Config.Apply.{apply_diff, apply_entry}

module _ (get_int : ℕ → Option ℤ) where
  -- A key with no entry in the diff has the same value in both; one with an entry goes from the
  -- first value to the second when the entry is applied.
  abbrev pub Effect : Option DictValue → Option BtValue → Option DictValue → Type 0
  Effect a none b = a ≡ b
  Effect a (some v) b = apply_entry get_int a v b ≡ ok b

  pub Effect-entry :
      (k j : Bytes) (v : BtValue) (df : BtDict) (a b : Option DictValue)
      → (k ≡ j → apply_entry get_int a v b ≡ ok b)
      → (compare_bytes k j ≢ Ordering.eq → Effect a (Bt.find k df) b)
      → Effect a (Bt.find k (BtDict.entry j v df)) b
  Effect-entry k j v df a b hit miss = elim (is_eq (compare_bytes k j)) [
    | inl e ↦
        subst (λ o. Effect a o b) (sym (Bt.find_first k j v df e)) (hit (eq_of_compare_bytes k j e))
    | inr e ↦ subst (λ o. Effect a o b) (sym (Bt.find_skip k j v df e)) (miss e)
  ]

  Effect-head :
      (k : Bytes) (v : BtValue) (df : BtDict) (a b : Option DictValue)
      → Effect a (Bt.find k (BtDict.entry k v df)) b
      → apply_entry get_int a v b ≡ ok b
  Effect-head k v df a b h =
      subst (λ o. Effect a o b) (Bt.find_first k k v df (compare_bytes_refl k)) h

  Effect-tail :
      (k j : Bytes) (v : BtValue) (df : BtDict) (data_ n : Dict)
      → Bt.Above k df
      → Effect (find j data_) (Bt.find j (BtDict.entry k v df)) (find j n)
      → Effect (find j (store k (find k n) data_)) (Bt.find j df) (find j n)
  Effect-tail k j v df data_ n above h = elim (is_eq (compare_bytes j k)) [
    | inl e ↦
        rw
          (
            Dict.find-store_self j k (find k n) data_ e,
            eq_of_compare_bytes j k e,
            Bt.find-Above k df above,
          )
          refl
    | inr e ↦
        rw (Dict.find-store_ne j k (find k n) data_ e)
          (subst (λ o. Effect (find j data_) o (find j n)) (Bt.find_skip j k v df e) h)
  ]

  -- A diff that is right at every key leads from the one dict to the other.
  pub apply_diff_of_Effect :
      (df : BtDict) (data_ n : Dict)
      → Bt.IsOrdered df
      → IsOrdered data_
      → IsOrdered n
      → ((k : Bytes) → Effect (find k data_) (Bt.find k df) (find k n))
      → apply_diff get_int data_ df n ≡ ok n
  unfolding apply_diff Bt.find
  apply_diff_of_Effect BtDict.end data_ n odf od on h = ap ok (eq_of_find data_ n od on h)
  apply_diff_of_Effect (BtDict.entry k v df) data_ n odf od on h =
      rw (Effect-head k v df (find k data_) (find k n) (h k)) (
        apply_diff_of_Effect df (store k (find k n) data_) n odf.1
          (store-IsOrdered k (find k n) data_ (find-IsOrdered k n on) od) on
          (λ j. Effect-tail k j v df data_ n odf.0 (h j)))
