-- ===== src/Config/Load/Accepted.antt =====
-- What `load_diff` returns, and an element that it lets through unchecked.
use libbchat_util.Base.{
  ℕ, zero, suc, ◌≡◌, refl, inl, inr, Option, none, some, List, arith, Ordering,
}
use libbchat_util.Base.Order.{ℤ, Bytes, compare_bytes}
use libbchat_util.Config.Scalar.{Scalar}
use libbchat_util.Config.Result.{Result, ok, threw, check-cases, invalid_set_added}
use libbchat_util.Config.Dict
use libbchat_util.Config.Dict.{Dict, set}
use libbchat_util.Config.Bt.{
  BtValue, BtList, BtDict, text, signed, unsigned, list, cons, get_bt_scalar,
}
use libbchat_util.Config.Codec.{check_key}
use libbchat_util.Config.Load.{load_diff, check_mode, check_set_diff, check_then, adding}
use libbchat_util.Config.Apply.{apply_diff, apply_entry, apply_set_diff}

-- The keys of the dict come after the last key.
abbrev pub After : Option Bytes → BtDict → Type 0
After none BtDict.end = Unit {0}
After none (BtDict.entry k v d) = Unit {0}
After (some l) BtDict.end = Unit {0}
After (some l) (BtDict.entry k v d) = compare_bytes l k ≡ Ordering.lt

-- Each key comes after the one before it, here and in the dicts inside.
abbrev mutual
  pub AscendsValue : BtValue → Type 0
  AscendsValue (text s) = Unit {0}
  AscendsValue (signed i) = Unit {0}
  AscendsValue (unsigned i) = Unit {0}
  AscendsValue (list l) = Unit {0}
  AscendsValue (BtValue.dict d) = Ascends d

  pub Ascends : BtDict → Type 0
  Ascends BtDict.end = Unit {0}
  Ascends (BtDict.entry k v d) = After (some k) d × AscendsValue v × Ascends d

After-of_check :
    (last : Option Bytes) (k : Bytes) (v : BtValue) (d : BtDict)
    → check_key last k ≡ ok tt
    → After last (BtDict.entry k v d)
unfolding check_key
After-of_check none k v d h = tt
After-of_check (some l) k v d h = ground arith

adding-eq-ok :
    (k : Bytes) (v : BtValue) (o : Option (Result BtDict)) (r : BtDict)
    → adding k v o ≡ some (ok r)
    → (d : BtDict) × (o ≡ some (ok d)) × (r ≡ BtDict.entry k v d)
adding-eq-ok k v none r h = absurd (ground arith)
adding-eq-ok k v (some (ok d)) r h = (d, refl, ground arith)
adding-eq-ok k v (some (threw e)) r h = absurd (ground arith)

check_then-eq-ok :
    (c : Result (Unit {0})) (o : Option (Result BtDict)) (r : BtDict)
    → check_then c o ≡ some (ok r)
    → (c ≡ ok tt) × (o ≡ some (ok r))
check_then-eq-ok (ok u) o r h = (refl, h)
check_then-eq-ok (threw e) o r h = absurd (ground arith)

nested-eq-ok :
    (k : Bytes) (inner rest : Option (Result BtDict)) (r : BtDict)
    → elim inner [
      | none ↦ none
      | some (threw e) ↦ some (threw e)
      | some (ok i) ↦ adding k (BtValue.dict i) rest
    ]
      ≡ some (ok r)
    → (i : BtDict) × (inner ≡ some (ok i)) × (adding k (BtValue.dict i) rest ≡ some (ok r))
nested-eq-ok k none rest r h = absurd (ground arith)
nested-eq-ok k (some (threw e)) rest r h = absurd (ground arith)
nested-eq-ok k (some (ok i)) rest r h = (i, refl, h)

module _ (get_int : ℕ → Option ℤ) where
  abbrev Loaded : Option Bytes → BtDict → BtDict → Type 0
  Loaded last d r = (r ≡ d) × After last d × Ascends d

  After-end : (last : Option Bytes) → After last BtDict.end
  After-end none = tt
  After-end (some l) = tt

  -- A diff that is loaded is returned as it was read, and its keys ascend at every depth.
  pub load_diff_lem :
      (f : ℕ) (last : Option Bytes) (d r : BtDict)
      → load_diff get_int f last d ≡ some (ok r)
      → (r ≡ d) × After last d × Ascends d
  unfolding load_diff
  load_diff_lem zero last d r h = absurd (ground arith)
  load_diff_lem (suc f) last BtDict.end r h = (ground arith, After-end last, tt)
  load_diff_lem (suc f) last (BtDict.entry k (signed i) d) r h =
      elim (check-cases (check_key last k)) [
        | inl q ↦ load_diff_lem f last (BtDict.entry k (signed i) d) r (rw (q, load_diff) at h)
        | inr (e, q) ↦ absurd (ground arith)
      ]
  load_diff_lem (suc f) last (BtDict.entry k (unsigned i) d) r h =
      elim (check-cases (check_key last k)) [
        | inl q ↦ load_diff_lem f last (BtDict.entry k (unsigned i) d) r (rw (q, load_diff) at h)
        | inr (e, q) ↦ absurd (ground arith)
      ]
  load_diff_lem (suc f) last (BtDict.entry k (text m) d) r h =
      elim (check-cases (check_key last k)) [
        | inl q ↦
            let (c, h') =
              check_then-eq-ok (check_mode m) (adding k (text m) (load_diff get_int f (some k) d)) r
                (rw (q, load_diff) at h) in
            let (d', e, e') = adding-eq-ok k (text m) (load_diff get_int f (some k) d) r h' in
            let (same, after, asc) = load_diff_lem f (some k) d d' e in
            (ground arith, After-of_check last k (text m) d q, (after, tt, asc))
        | inr (e, q) ↦ absurd (ground arith)
      ]
  load_diff_lem (suc f) last (BtDict.entry k (list l) d) r h =
      elim (check-cases (check_key last k)) [
        | inl q ↦
            let (c, h') =
              check_then-eq-ok (check_set_diff get_int l)
                (adding k (list l) (load_diff get_int f (some k) d)) r (rw (q, load_diff) at h) in
            let (d', e, e') = adding-eq-ok k (list l) (load_diff get_int f (some k) d) r h' in
            let (same, after, asc) = load_diff_lem f (some k) d d' e in
            (ground arith, After-of_check last k (list l) d q, (after, tt, asc))
        | inr (e, q) ↦ absurd (ground arith)
      ]
  load_diff_lem (suc f) last (BtDict.entry k (BtValue.dict s) d) r h =
      elim (check-cases (check_key last k)) [
        | inl q ↦
            let (i, ei, h') = nested-eq-ok k _ _ r (rw (q, load_diff) at h) in
            let (same_i, after_i, asc_i) = load_diff_lem f none s i ei in
            let (d', e, e') = adding-eq-ok k (BtValue.dict i) _ r h' in
            let (same, after, asc) = load_diff_lem f (some k) d d' e in
            (ground arith, After-of_check last k (BtValue.dict s) d q, (after, asc_i, asc))
        | inr (e, q) ↦ absurd (ground arith)
      ]

  -- A set diff that adds the one element `v`.
  abbrev pub adds_one : Bytes → BtValue → BtDict
  adds_one k v =
      BtDict.entry k (list (cons (list (cons v BtList.nil)) (cons (list BtList.nil) BtList.nil)))
        BtDict.end

  -- The only element of a sublist is not checked: a diff that adds one element which is neither an
  -- integer nor a string is loaded, and then throws when it is applied from a source that has a set
  -- at the key, whatever the data is.
  pub load_diff_unchecked :
      (k : Bytes) (v : BtValue) (data_ source : Dict) (s : List Scalar)
      → get_bt_scalar get_int v ≡ ok none
      → Dict.find k source ≡ some (set s)
      → (load_diff get_int 2 none (adds_one k v) ≡ some (ok (adds_one k v)))
        × (apply_diff get_int data_ (adds_one k v) source ≡ threw invalid_set_added)
  unfolding load_diff check_key apply_diff apply_set_diff
  load_diff_unchecked k v data_ source s h e = (refl, rw (e, apply_entry, h) refl)
