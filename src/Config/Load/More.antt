-- ===== src/Config/Load/More.antt =====
-- More fuel for `load_diff` does not change what it returns.
use libbchat_util.Base.{
  ℕ, zero, suc, ◌+◌, ◌≤◌, ◌≡◌, ◌==◌, refl, sym, subst, inl, inr, Option, none, some, true, false,
  arith, Bool-cases,
}
use libbchat_util.Base.Order.{ℤ, Bytes}
use libbchat_util.Config.Result.{Result, Error, ok, threw, check-cases}
use libbchat_util.Config.Bt.{BtValue, BtDict, text, signed, unsigned, list}
use libbchat_util.Config.Codec.{check_key}
use libbchat_util.Config.Load.{load_diff, check_mode, check_set_diff, check_then, adding}

-- Where the one returns, so does the other, and the same.
abbrev Refines : Option (Result BtDict) → Option (Result BtDict) → Type 0
Refines o p = (r : Result BtDict) → o ≡ some r → p ≡ some r

adding-Refines :
    (k : Bytes) (v : BtValue) (o p : Option (Result BtDict))
    → Refines o p
    → Refines (adding k v o) (adding k v p)
adding-Refines k v none p h r e = cc e
adding-Refines k v (some x) p h r e = subst (λ y. adding k v y ≡ some r) (sym (h x refl)) e

check_then-Refines :
    (c : Result (Unit {0})) (o p : Option (Result BtDict))
    → Refines o p
    → Refines (check_then c o) (check_then c p)
check_then-Refines (ok u) o p h = h
check_then-Refines (threw e) o p h = λ r q. q

-- What comes of a dict in the diff, and of what is behind it.
abbrev pub inner_then :
    Bytes → Option (Result BtDict) → Option (Result BtDict) → Option (Result BtDict)
inner_then k inner rest = elim inner [
  | none ↦ none
  | some (threw e) ↦ some (threw e)
  | some (ok i) ↦ adding k (BtValue.dict i) rest
]

inner_then-Refines :
    (k : Bytes) (i j o p : Option (Result BtDict))
    → Refines i j
    → Refines o p
    → Refines (inner_then k i o) (inner_then k j p)
inner_then-Refines k none j o p h g r e = cc e
inner_then-Refines k (some (threw x)) j o p h g r e =
    subst (λ y. inner_then k y p ≡ some r) (sym (h (threw x) refl)) e
inner_then-Refines k (some (ok d)) j o p h g r e =
    subst (λ y. inner_then k y p ≡ some r) (sym (h (ok d) refl))
      (adding-Refines k (BtValue.dict d) o p g r e)

module _ (get_int : ℕ → Option ℤ) where
  load_diff-more :
      (f : ℕ) (last : Option Bytes) (d : BtDict)
      → Refines (load_diff get_int f last d) (load_diff get_int (suc f) last d)
  unfolding load_diff
  load_diff-more zero last d = λ r e. cc e
  load_diff-more (suc f) last BtDict.end = λ r e. e
  load_diff-more (suc f) last (BtDict.entry k (text m) d) = elim (check-cases (check_key last k)) [
    | inl q ↦
        rw (q, load_diff)
          (check_then-Refines (check_mode m) _ _
            (adding-Refines k (text m) _ _ (load_diff-more f (some k) d)))
    | inr (x, q) ↦ rw (q, load_diff) (λ r e. e)
  ]
  load_diff-more (suc f) last (BtDict.entry k (list l) d) = elim (check-cases (check_key last k)) [
    | inl q ↦
        rw (q, load_diff)
          (check_then-Refines (check_set_diff get_int l) _ _
            (adding-Refines k (list l) _ _ (load_diff-more f (some k) d)))
    | inr (x, q) ↦ rw (q, load_diff) (λ r e. e)
  ]
  load_diff-more (suc f) last (BtDict.entry k (BtValue.dict s) d) =
      elim (check-cases (check_key last k)) [
        | inl q ↦
            rw (q, load_diff)
              (inner_then-Refines k _ _ _ _ (load_diff-more f none s) (load_diff-more f (some k) d))
        | inr (x, q) ↦ rw (q, load_diff) (λ r e. e)
      ]
  load_diff-more (suc f) last (BtDict.entry k (signed i) d) =
      elim (check-cases (check_key last k)) [
        | inl q ↦ rw (q, load_diff) (load_diff-more f last (BtDict.entry k (signed i) d))
        | inr (x, q) ↦ rw (q, load_diff) (λ r e. e)
      ]
  load_diff-more (suc f) last (BtDict.entry k (unsigned i) d) =
      elim (check-cases (check_key last k)) [
        | inl q ↦ rw (q, load_diff) (load_diff-more f last (BtDict.entry k (unsigned i) d))
        | inr (x, q) ↦ rw (q, load_diff) (λ r e. e)
      ]

  load_diff-up :
      (g f : ℕ) (last : Option Bytes) (d : BtDict) (r : Result BtDict)
      → f ≤ g
      → load_diff get_int f last d ≡ some r
      → load_diff get_int g last d ≡ some r
  load_diff-up zero f last d r l e =
      subst (λ n. load_diff get_int n last d ≡ some r) (zero_only f l) e
    where
      zero_only : (f : ℕ) → f ≤ 0 → f ≡ 0
      zero_only f l = omega arith
  load_diff-up (suc g) f last d r l e = elim (Bool-cases (f == suc g)) [
    | inl q ↦ subst (λ n. load_diff get_int n last d ≡ some r) (same f g q) e
    | inr q ↦ load_diff-more g last d r (load_diff-up g f last d r (less f g l q) e)
  ]
    where
      same : (f g : ℕ) → (f == suc g) ≡ true → f ≡ suc g
      same f g q = ground arith

      less : (f g : ℕ) → f ≤ suc g → (f == suc g) ≡ false → f ≤ g
      less f g l q = ground arith

  -- What is accepted with some fuel is not refused with any other.
  pub accepted_throughout :
      (f g : ℕ) (last : Option Bytes) (d a : BtDict) (x : Error)
      → load_diff get_int g last d ≡ some (ok a)
      → ¬ (load_diff get_int f last d ≡ some (threw x))
  accepted_throughout f g last d a x e h =
      let one = load_diff-up (f + g) g last d (ok a) (omega arith) e in
      let other = load_diff-up (f + g) f last d (threw x) (omega arith) h in cc (one, other)
