-- ===== src/Config/Roundtrip/Dicts.antt =====
-- Whole dicts, by induction on the fuel of `diff_dict`: with enough of it the diff is right at every
-- key, and so leads from the old dict to the new one.
use libbchat_util.Base.{
  ℕ, zero, suc, ◌+◌, ◌<◌, Ordering, ◌≡◌, refl, inl, inr, Option, none, some, arith,
}
use libbchat_util.Base.Order.{
  ℤ, Bytes, compare_bytes, compare_bytes_refl, compare_bytes_swap_gt, eq_of_compare_bytes,
  Ordering-cases, is_eq,
}
use libbchat_util.Config.Result.{ok}
use libbchat_util.Config.Dict
use libbchat_util.Config.Dict.{
  DictValue, Dict, find, IsOrdered, IsOrderedValue, IsPruned, IsPrunedValue, size, size_value,
  find-Above, Above-trans,
}
use libbchat_util.Config.Bt
use libbchat_util.Config.Bt.{BtValue, BtDict}
use libbchat_util.Config.Diff.{removed_value, added_value, changed_value, put_end, diff_dict, ◌>>=◌}
use libbchat_util.Config.Apply.{apply_diff, apply_entry}
use libbchat_util.Config.Roundtrip.Entries.{Effect, Effect-entry, apply_diff_of_Effect}
use libbchat_util.Config.Roundtrip.Values.{
  Sound, Leads, Leads-of_Sound, Fresh, added_value_lem, removed_value_lem, changed_value_lem,
}

-- Both dicts are in the shape that `diff_impl` expects.
pub record IsPair (o n : Dict) : Type 0 where
  pub old_ordered : IsOrdered o
  pub new_ordered : IsOrdered n
  pub old_pruned : IsPruned o
  pub new_pruned : IsPruned n

module _ (get_int : ℕ → Option ℤ) where
  -- A key that only the new dict has.
  Sound-new :
      (j : Bytes) (v : DictValue) (w : BtValue) (o n : Dict) (r : Option BtDict)
      → Dict.Above j o
      → Dict.Above j n
      → ((old : Option DictValue)
          → Fresh get_int old v
          → apply_entry get_int old w (some v) ≡ ok (some v))
      → Fresh get_int none v
      → Sound get_int o n r
      → Sound get_int o (Dict.entry j v n) (r >>= λ df. some (BtDict.entry j w df))
  Sound-new j v w o n r ao an applied fresh (df, e, odf, above, effect) = (
    BtDict.entry j w df,
    rw e refl,
    (above j ao an, odf),
    (λ k bo bn. (bn.0, above k bo bn.1)),
    λ k.
        Effect-entry get_int k j w df (find k o) (find k (Dict.entry j v n))
          (λ q.
            rw (q, Dict.find_first j j v n (compare_bytes_refl j), find-Above j o ao)
              (applied none fresh))
          (λ ne. rw (Dict.find_skip k j v n ne) (effect k)),
  )

  -- A key that only the old dict has.
  Sound-gone :
      (i : Bytes) (v : DictValue) (w : BtValue) (o n : Dict) (r : Option BtDict)
      → Dict.Above i o
      → Dict.Above i n
      → ((old : Option DictValue) → apply_entry get_int old w none ≡ ok none)
      → Sound get_int o n r
      → Sound get_int (Dict.entry i v o) n (r >>= λ df. some (BtDict.entry i w df))
  Sound-gone i v w o n r ao an applied (df, e, odf, above, effect) = (
    BtDict.entry i w df,
    rw e refl,
    (above i ao an, odf),
    (λ k bo bn. (bo.0, above k bo.1 bn)),
    λ k.
        Effect-entry get_int k i w df (find k (Dict.entry i v o)) (find k n)
          (λ q. rw (q, find-Above i n an) (applied _))
          (λ ne. rw (Dict.find_skip k i v o ne) (effect k)),
  )

  -- A key that both have.
  Sound-both :
      (k' : Bytes) (u v : DictValue) (w : Option BtValue) (o n : Dict) (r : Option BtDict)
      → Dict.Above k' o
      → Dict.Above k' n
      → Effect get_int (some u) w (some v)
      → Sound get_int o n r
      → Sound get_int (Dict.entry k' u o) (Dict.entry k' v n) (r >>= λ df. some (put_end k' w df))
  Sound-both j u v none o n r ao an same (df, e, odf, above, effect) = (
    df,
    rw e refl,
    odf,
    (λ k bo bn. above k bo.1 bn.1),
    λ k. elim (is_eq (compare_bytes k j)) [
      | inl q ↦
          rw
            (
              Dict.find_first k j u o q,
              Dict.find_first k j v n q,
              eq_of_compare_bytes k j q,
              Bt.find-Above j df (above j ao an),
            )
            same
      | inr ne ↦ rw (Dict.find_skip k j u o ne, Dict.find_skip k j v n ne) (effect k)
    ],
  )
  Sound-both j u v (some w) o n r ao an same (df, e, odf, above, effect) = (
    BtDict.entry j w df,
    rw e refl,
    (above j ao an, odf),
    (λ k bo bn. (bn.0, above k bo.1 bn.1)),
    λ k.
        Effect-entry get_int k j w df (find k (Dict.entry j u o)) (find k (Dict.entry j v n))
          (λ q.
            rw
              (
                q,
                Dict.find_first j j u o (compare_bytes_refl j),
                Dict.find_first j j v n (compare_bytes_refl j),
              )
              same)
          (λ ne. rw (Dict.find_skip k j u o ne, Dict.find_skip k j v n ne) (effect k)),
  )

  Fresh-none : (v : DictValue) → Fresh get_int none v
  Fresh-none (DictValue.scalar s) = tt
  Fresh-none (DictValue.set s) = refl
  Fresh-none (DictValue.dict d) = refl

  size_dict : (v : DictValue) (d : Dict) → v ≡ DictValue.dict d → size_value v ≡ size d
  unfolding size_value
  size_dict (DictValue.scalar s) d e = ground arith
  size_dict (DictValue.set s) d e = ground arith
  size_dict (DictValue.dict c) d e = ground arith

  inner-IsOrdered :
      (v : DictValue) (d : Dict) → v ≡ DictValue.dict d → IsOrderedValue v → IsOrdered d
  inner-IsOrdered (DictValue.scalar s) d e h = absurd (ground arith)
  inner-IsOrdered (DictValue.set s) d e h = absurd (ground arith)
  inner-IsOrdered (DictValue.dict c) d e h = ground arith

  inner-IsPruned : (v : DictValue) (d : Dict) → v ≡ DictValue.dict d → IsPrunedValue v → IsPruned d
  inner-IsPruned (DictValue.scalar s) d e h = absurd (ground arith)
  inner-IsPruned (DictValue.set s) d e h = absurd (ground arith)
  inner-IsPruned (DictValue.dict c) d e h = ground arith

  -- The induction hypothesis at a given fuel.
  abbrev AllSound : ℕ → Type 0
  AllSound f = (o n : Dict) → size o + size n < f → IsPair o n → Sound get_int o n (diff_dict f o n)

  sub_Leads :
      (f : ℕ)
      → AllSound f
      → (d e : Dict) → size d + size e < f
      → IsPair d e
      → Leads get_int d e (diff_dict f d e)
  sub_Leads f ih d e h p =
      Leads-of_Sound get_int d e (diff_dict f d e) p.old_ordered p.new_ordered (ih d e h p)

  new_Leads :
      (f : ℕ)
      → AllSound f
      → (v : DictValue) → IsOrderedValue v
      → IsPrunedValue v
      → size_value v < f
      → (d : Dict) → v ≡ DictValue.dict d
      → Leads get_int Dict.nil d (diff_dict f Dict.nil d)
  unfolding size
  new_Leads f ih v ho hp h d e =
      sub_Leads f ih Dict.nil d (omega (arith, size_dict v d e)) (record {
        old_ordered = tt;
        new_ordered = inner-IsOrdered v d e ho;
        old_pruned = tt;
        new_pruned = inner-IsPruned v d e hp;
      })

  gone_Leads :
      (f : ℕ)
      → AllSound f
      → (v : DictValue) → IsOrderedValue v
      → IsPrunedValue v
      → size_value v < f
      → (d : Dict) → v ≡ DictValue.dict d
      → Leads get_int d Dict.nil (diff_dict f d Dict.nil)
  unfolding size
  gone_Leads f ih v ho hp h d e =
      sub_Leads f ih d Dict.nil (omega (arith, size_dict v d e)) (record {
        old_ordered = inner-IsOrdered v d e ho;
        new_ordered = tt;
        old_pruned = inner-IsPruned v d e hp;
        new_pruned = tt;
      })

  step_new :
      (f : ℕ)
      → AllSound f
      → (j : Bytes) (v : DictValue) (o n : Dict) → size o + size (Dict.entry j v n) < suc f
      → IsPair o (Dict.entry j v n)
      → Dict.Above j o
      → Sound get_int o (Dict.entry j v n) (
          added_value (diff_dict f) v >>= λ w. diff_dict f o n >>= λ df. some (BtDict.entry j w df))
  unfolding size
  step_new f ih j v o n h p ao =
      let (w, e, applied) =
        added_value_lem get_int (diff_dict f) v p.new_ordered.1 p.new_pruned.0
          (new_Leads f ih v p.new_ordered.1 p.new_pruned.0 (omega arith)) in
      rw e (
        Sound-new j v w o n (diff_dict f o n) ao p.new_ordered.0 applied (Fresh-none v) (
          ih o n (omega arith) (record {
            old_ordered = p.old_ordered;
            new_ordered = p.new_ordered.2;
            old_pruned = p.old_pruned;
            new_pruned = p.new_pruned.1;
          })))

  step_gone :
      (f : ℕ)
      → AllSound f
      → (i : Bytes) (v : DictValue) (o n : Dict) → size (Dict.entry i v o) + size n < suc f
      → IsPair (Dict.entry i v o) n
      → Dict.Above i n
      → Sound get_int (Dict.entry i v o) n (
          removed_value (diff_dict f) v >>= λ w.
          diff_dict f o n >>= λ df. some (BtDict.entry i w df))
  unfolding size
  step_gone f ih i v o n h p an =
      let (w, e, applied) =
        removed_value_lem get_int (diff_dict f) v p.old_ordered.1 p.old_pruned.0
          (gone_Leads f ih v p.old_ordered.1 p.old_pruned.0 (omega arith)) in
      rw e (
        Sound-gone i v w o n (diff_dict f o n) p.old_ordered.0 an applied (
          ih o n (omega arith) (record {
            old_ordered = p.old_ordered.2;
            new_ordered = p.new_ordered;
            old_pruned = p.old_pruned.1;
            new_pruned = p.new_pruned;
          })))

  step_both :
      (f : ℕ)
      → AllSound f
      → (j : Bytes) (u v : DictValue) (o n : Dict)
      → size (Dict.entry j u o) + size (Dict.entry j v n) < suc f
      → IsPair (Dict.entry j u o) (Dict.entry j v n)
      → Sound get_int
          (Dict.entry j u o)
          (Dict.entry j v n)
          (changed_value (diff_dict f) u v >>= λ w. diff_dict f o n >>= λ df. some (put_end j w df))
  unfolding size
  step_both f ih j u v o n h p =
      let (w, e, effect) =
        changed_value_lem get_int (diff_dict f) u v p.old_ordered.1 p.new_ordered.1 p.new_pruned.0
          (new_Leads f ih v p.new_ordered.1 p.new_pruned.0 (omega arith))
          (λ d c eu ev.
            sub_Leads f ih d c (omega (arith, size_dict u d eu, size_dict v c ev)) (record {
              old_ordered = inner-IsOrdered u d eu p.old_ordered.1;
              new_ordered = inner-IsOrdered v c ev p.new_ordered.1;
              old_pruned = inner-IsPruned u d eu p.old_pruned.0;
              new_pruned = inner-IsPruned v c ev p.new_pruned.0;
            })) in
      rw e (
        Sound-both j u v w o n (diff_dict f o n) p.old_ordered.0 p.new_ordered.0 effect (
          ih o n (omega arith) (record {
            old_ordered = p.old_ordered.2;
            new_ordered = p.new_ordered.2;
            old_pruned = p.old_pruned.1;
            new_pruned = p.new_pruned.1;
          })))

  -- With enough fuel for both dicts.
  pub diff_dict-Sound : (f : ℕ) → AllSound f
  unfolding diff_dict Bt.find size
  diff_dict-Sound zero o n h p = absurd (omega arith)
  diff_dict-Sound (suc f) Dict.nil Dict.nil h p = (BtDict.end, refl, tt, (λ k a b. tt), λ k. refl)
  diff_dict-Sound (suc f) Dict.nil (Dict.entry j v n) h p =
      step_new f (diff_dict-Sound f) j v Dict.nil n h p tt
  diff_dict-Sound (suc f) (Dict.entry i u o) Dict.nil h p =
      step_gone f (diff_dict-Sound f) i u o Dict.nil h p tt
  diff_dict-Sound (suc f) (Dict.entry i u o) (Dict.entry j v n) h p =
      elim (Ordering-cases (compare_bytes j i)) [
        | inl e ↦
            rw (e, diff_dict)
              (step_new f (diff_dict-Sound f) j v (Dict.entry i u o) n h p
                (e, Above-trans j i o e p.old_ordered.0))
        | inr (inl e) ↦
            let q : j ≡ i = eq_of_compare_bytes j i e in
            rw (e, diff_dict)
              (rw (← q) (step_both f (diff_dict-Sound f) j u v o n h (rw (← q) at p)))
        | inr (inr e) ↦
            let c : compare_bytes i j ≡ Ordering.lt = compare_bytes_swap_gt j i e in
            rw (e, diff_dict)
              (step_gone f (diff_dict-Sound f) i u o (Dict.entry j v n) h p
                (c, Above-trans i j n c p.new_ordered.0))
      ]

  -- Fuel above the entries of both dicts, at every depth, is enough for the diff of two ordered and
  -- pruned dicts; the diff has its keys in order, and applied to the old dict with the new one as
  -- the source of the values it gives the new dict.
  pub apply_diff-diff_dict :
      (f : ℕ) (o n : Dict)
      → size o + size n < f
      → IsPair o n
      → (df : BtDict) × (diff_dict f o n ≡ some df)
        × Bt.IsOrdered df
        × (apply_diff get_int o df n ≡ ok n)
  apply_diff-diff_dict f o n h p =
      let (df, e, odf, above, effect) = diff_dict-Sound f o n h p in
      (df, e, odf, apply_diff_of_Effect get_int df o n odf p.old_ordered p.new_ordered effect)
