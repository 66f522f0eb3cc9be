-- ===== src/Config/Load/Ends.antt =====
-- When `load_diff` ends: on every input without integers, and never once it has come to one.
use libbchat_util.Base.{
  ℕ, zero, suc, ◌+◌, ◌≤◌, ◌≡◌, ◌∙◌, ap, refl, inl, inr, Option, none, some, arith,
}
use libbchat_util.Base.Order.{ℤ, Bytes}
use libbchat_util.Config.Result.{Result, Error, ok, threw, check-cases}
use libbchat_util.Config.Bt.{BtValue, BtList, BtDict, text, signed, unsigned, list}
use libbchat_util.Config.Codec.{check_key}
use libbchat_util.Config.Load.{load_diff, check_mode, check_set_diff, check_then, adding}
use libbchat_util.Config.Load.More.{inner_then, accepted_throughout}

abbrev mutual
  -- No value of the dict is an integer, nor one of the dicts in it.
  pub HasNoIntegerValue : BtValue → Type 0
  HasNoIntegerValue (text s) = Unit {0}
  HasNoIntegerValue (signed i) = ⊥
  HasNoIntegerValue (unsigned n) = ⊥
  HasNoIntegerValue (list l) = Unit {0}
  HasNoIntegerValue (BtValue.dict d) = HasNoInteger d

  pub HasNoInteger : BtDict → Type 0
  HasNoInteger BtDict.end = Unit {0}
  HasNoInteger (BtDict.entry k v d) = HasNoIntegerValue v × HasNoInteger d

-- The rounds that the loops take.
unfoldable mutual
  pub rounds_value : BtValue → ℕ
  rounds_value (text s) = 0
  rounds_value (signed i) = 0
  rounds_value (unsigned n) = 0
  rounds_value (list l) = 0
  rounds_value (BtValue.dict d) = rounds d

  pub rounds : BtDict → ℕ
  rounds BtDict.end = 1
  rounds (BtDict.entry k v d) = suc (rounds_value v + rounds d)

abbrev IsSome : Option (Result BtDict) → Type 0
IsSome o = (r : Result BtDict) × (o ≡ some r)

adding-IsSome :
    (k : Bytes) (v : BtValue) (o : Option (Result BtDict)) → IsSome o → IsSome (adding k v o)
adding-IsSome k v none (r, e) = cc
adding-IsSome k v (some (ok d)) h = (ok (BtDict.entry k v d), refl)
adding-IsSome k v (some (threw e)) h = (threw e, refl)

check_then-IsSome :
    (c : Result (Unit {0})) (o : Option (Result BtDict)) → IsSome o → IsSome (check_then c o)
check_then-IsSome (ok u) o h = h
check_then-IsSome (threw e) o h = (threw e, refl)

nested :
    (k : Bytes) (inner : Option (Result BtDict))
    → IsSome inner
    → (rest : Option (Result BtDict)) → IsSome rest
    → IsSome (elim inner [
      | none ↦ none
      | some (threw e) ↦ some (threw e)
      | some (ok i) ↦ adding k (BtValue.dict i) rest
    ])
nested k none (r, e) rest h = cc
nested k (some (threw e)) i rest h = (threw e, refl)
nested k (some (ok d)) i rest h = adding-IsSome k (BtValue.dict d) rest h

module _ (get_int : ℕ → Option ℤ) where
  -- On a dict with no integer at any depth, one round of fuel for each entry and each end is enough:
  -- the loop returns a diff or throws.
  pub load_diff_ends :
      (f : ℕ) (last : Option Bytes) (d : BtDict)
      → rounds d ≤ f
      → HasNoInteger d
      → (r : Result BtDict) × (load_diff get_int f last d ≡ some r)
  unfolding load_diff rounds
  load_diff_ends zero last BtDict.end h n = absurd (omega arith)
  load_diff_ends zero last (BtDict.entry k v d) h n = absurd (omega arith)
  load_diff_ends (suc f) last BtDict.end h n = (ok BtDict.end, refl)
  load_diff_ends (suc f) last (BtDict.entry k (signed i) d) h n = absurd n.0
  load_diff_ends (suc f) last (BtDict.entry k (unsigned i) d) h n = absurd n.0
  load_diff_ends (suc f) last (BtDict.entry k (text m) d) h n =
      elim (check-cases (check_key last k)) [
        | inl q ↦
            rw (q, load_diff)
              (check_then-IsSome (check_mode m) _
                (adding-IsSome k (text m) _ (load_diff_ends f (some k) d (omega arith) n.1)))
        | inr (e, q) ↦ rw (q, load_diff) (threw e, refl)
      ]
  load_diff_ends (suc f) last (BtDict.entry k (list l) d) h n =
      elim (check-cases (check_key last k)) [
        | inl q ↦
            rw (q, load_diff)
              (check_then-IsSome (check_set_diff get_int l) _
                (adding-IsSome k (list l) _ (load_diff_ends f (some k) d (omega arith) n.1)))
        | inr (e, q) ↦ rw (q, load_diff) (threw e, refl)
      ]
  load_diff_ends (suc f) last (BtDict.entry k (BtValue.dict s) d) h n =
      elim (check-cases (check_key last k)) [
        | inl q ↦
            rw (q, load_diff)
              (nested k _ (load_diff_ends f none s (omega arith) n.0) _
                (load_diff_ends f (some k) d (omega arith) n.1))
        | inr (e, q) ↦ rw (q, load_diff) (threw e, refl)
      ]

  -- The inputs on which the loop comes to an integer: the entries before it are accepted, and those
  -- of the dicts around it.
  pub data Stalls : Option Bytes → BtDict → Type 0 where
    at_signed :
        (last : Option Bytes) (k : Bytes) (i : ℤ) (d : BtDict)
        → check_key last k ≡ ok tt
        → Stalls last (BtDict.entry k (signed i) d)
    at_unsigned :
        (last : Option Bytes) (k : Bytes) (i : ℕ) (d : BtDict)
        → check_key last k ≡ ok tt
        → Stalls last (BtDict.entry k (unsigned i) d)
    after_text :
        (last : Option Bytes) (k m : Bytes) (d : BtDict)
        → check_key last k ≡ ok tt
        → check_mode m ≡ ok tt
        → Stalls (some k) d
        → Stalls last (BtDict.entry k (text m) d)
    after_list :
        (last : Option Bytes) (k : Bytes) (l : BtList) (d : BtDict)
        → check_key last k ≡ ok tt
        → check_set_diff get_int l ≡ ok tt
        → Stalls (some k) d
        → Stalls last (BtDict.entry k (list l) d)
    after_dict :
        (last : Option Bytes) (k : Bytes) (g : ℕ) (s a d : BtDict)
        → check_key last k ≡ ok tt
        → load_diff get_int g none s ≡ some (ok a)
        → Stalls (some k) d
        → Stalls last (BtDict.entry k (BtValue.dict s) d)
    inside :
        (last : Option Bytes) (k : Bytes) (s d : BtDict)
        → check_key last k ≡ ok tt
        → Stalls none s
        → Stalls last (BtDict.entry k (BtValue.dict s) d)

  -- The loop never ends on such an input: no fuel is enough.
  pub load_diff-Stalls :
      (f : ℕ) (last : Option Bytes) (d : BtDict) → Stalls last d → load_diff get_int f last d ≡ none
  unfolding load_diff
  load_diff-Stalls zero last d s = refl
  load_diff-Stalls (suc f) last d (at_signed _ k i d' q) =
      rw (q, load_diff)
        (load_diff-Stalls f last (BtDict.entry k (signed i) d') (at_signed last k i d' q))
  load_diff-Stalls (suc f) last d (at_unsigned _ k i d' q) =
      rw (q, load_diff)
        (load_diff-Stalls f last (BtDict.entry k (unsigned i) d') (at_unsigned last k i d' q))
  load_diff-Stalls (suc f) last d (after_text _ k m d' q c s) =
      rw (q, load_diff, c, load_diff-Stalls f (some k) d' s) refl
  load_diff-Stalls (suc f) last d (after_list _ k l d' q c s) =
      rw (q, load_diff, c, load_diff-Stalls f (some k) d' s) refl
  load_diff-Stalls (suc f) last d (after_dict _ k g s a d' q c i) =
      rw (q, load_diff)
        (ap (inner_then k (load_diff get_int f none s)) (load_diff-Stalls f (some k) d' i)
          ∙ stuck (load_diff get_int f none s) (λ x. accepted_throughout get_int f g none s a x c))
    where
      stuck :
          (o : Option (Result BtDict))
          → ((x : Error) → ¬ (o ≡ some (threw x)))
          → inner_then k o none ≡ none
      stuck none h = refl
      stuck (some (threw x)) h = absurd (h x refl)
      stuck (some (ok i)) h = refl
  load_diff-Stalls (suc f) last d (inside _ k s d' q i) =
      rw (q, load_diff, load_diff-Stalls f none s i) refl
