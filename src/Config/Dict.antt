-- ===== src/Config/Dict.antt =====
-- The data model of config.hpp: `dict`, a `std::map` from strings to values, where a value is a
-- scalar, a set of scalars or another dict. `find`, `erase` and `put` (`d[k] = v`) are those of
-- `std::map`, over the entries in ascending order of the keys.
use libbchat_util.Base.{
  ℕ, suc, ◌+◌, Ordering, ◌≡◌, refl, inl, inr, Option, none, some, List, [], Bool, true, false,
  arith, if◌then◌else◌, ◌≢◌, subst, sym,
}
use libbchat_util.Base.Order.{
  Bytes, bytes_order, compare_bytes, compare_bytes_refl, compare_bytes_swap_gt, compare_bytes_trans,
  eq_of_compare_bytes, Ordering-cases, is_eq,
}
use libbchat_util.Base.SortedSet.{IsSorted}
use libbchat_util.Config.Scalar.{Scalar, scalar_order}

mutual
  pub data DictValue : Type 0 where
    scalar : Scalar → DictValue
    set : List Scalar → DictValue
    dict : Dict → DictValue

  pub data Dict : Type 0 where
    nil : Dict
    entry : Bytes → DictValue → Dict → Dict

abbrev pub same_key : Bytes → Bytes → Bool
same_key a b = elim (compare_bytes a b) [ Ordering.eq ↦ true | _ ↦ false ]

unfoldable pub find : Bytes → Dict → Option DictValue
find k nil = none
find k (entry j v d) = if same_key k j then some v else find k d

unfoldable pub erase : Bytes → Dict → Dict
erase k nil = nil
erase k (entry j v d) = elim (compare_bytes k j) [
  | Ordering.eq ↦ erase k d
  | _ ↦ entry j v (erase k d)
]

unfoldable pub put : Bytes → DictValue → Dict → Dict
put k v nil = entry k v nil
put k v (entry j w d) = elim (compare_bytes k j) [
  | Ordering.lt ↦ entry k v (entry j w d)
  | Ordering.eq ↦ entry k v d
  | Ordering.gt ↦ entry j w (put k v d)
]

-- A key whose value becomes `none` is erased.
unfoldable pub store : Bytes → Option DictValue → Dict → Dict
store k none d = erase k d
store k (some v) d = put k v d

abbrev pub Above : Bytes → Dict → Type 0
Above k nil = Unit {0}
Above k (entry j v d) = (compare_bytes k j ≡ Ordering.lt) × Above k d

-- The shape of the C++ containers at every depth: keys and set elements ascend, each once.
abbrev mutual
  pub IsOrderedValue : DictValue → Type 0
  IsOrderedValue (scalar s) = Unit {0}
  IsOrderedValue (set s) = IsSorted s
  IsOrderedValue (dict d) = IsOrdered d

  pub IsOrdered : Dict → Type 0
  IsOrdered nil = Unit {0}
  IsOrdered (entry k v d) = Above k d × IsOrderedValue v × IsOrdered d

abbrev mutual
  -- No value below holds an empty set or an empty dict.
  pub IsPrunedValue : DictValue → Type 0
  IsPrunedValue (scalar s) = Unit {0}
  IsPrunedValue (set s) = s ≢ []
  IsPrunedValue (dict d) = (d ≢ nil) × IsPruned d

  pub IsPruned : Dict → Type 0
  IsPruned nil = Unit {0}
  IsPruned (entry k v d) = IsPrunedValue v × IsPruned d

unfoldable mutual
  pub size_value : DictValue → ℕ
  size_value (scalar s) = 0
  size_value (set s) = 0
  size_value (dict d) = size d

  pub size : Dict → ℕ
  size nil = 0
  size (entry k v d) = suc (size_value v + size d)

pub Above-trans : (k j : Bytes) (d : Dict) → compare_bytes k j ≡ Ordering.lt → Above j d → Above k d
Above-trans k j nil h a = tt
Above-trans k j (entry i v d) h a = (compare_bytes_trans k j i h a.0, Above-trans k j d h a.1)

pub find-Above : (k : Bytes) (d : Dict) → Above k d → find k d ≡ none
unfolding find
find-Above k nil a = refl
find-Above k (entry j v d) a = ground (arith, find-Above k d)

pub find-erase :
    (k j : Bytes) (d : Dict) → find k (erase j d) ≡ (if same_key k j then none else find k d)
unfolding find erase
find-erase k j nil = ground arith
find-erase k j (entry i v d) = ground (
  arith,
  find-erase k j d,
  eq_of_compare_bytes j i,
  eq_of_compare_bytes k i,
  eq_of_compare_bytes k j,
  compare_bytes_refl k,
)

pub find-put :
    (k j : Bytes) (v : DictValue) (d : Dict)
    → find k (put j v d) ≡ (if same_key k j then some v else find k d)
unfolding find put
find-put k j v nil = refl
find-put k j v (entry i w d) = ground (
  arith,
  find-put k j v d,
  eq_of_compare_bytes j i,
  eq_of_compare_bytes k i,
  eq_of_compare_bytes k j,
  compare_bytes_refl k,
)

-- `store` changes its own key and no other.
pub find-store :
    (k j : Bytes) (o : Option DictValue) (d : Dict)
    → find k (store j o d) ≡ (if same_key k j then o else find k d)
unfolding store
find-store k j none d = find-erase k j d
find-store k j (some v) d = find-put k j v d

-- The value at a key other than the first entry's.
pub find_skip :
    (k j : Bytes) (v : DictValue) (d : Dict)
    → compare_bytes k j ≢ Ordering.eq
    → find k (entry j v d) ≡ find k d
unfolding find
find_skip k j v d h = ground arith

pub find_first :
    (k j : Bytes) (v : DictValue) (d : Dict)
    → compare_bytes k j ≡ Ordering.eq
    → find k (entry j v d) ≡ some v
unfolding find
find_first k j v d h = ground arith

pub find-store_self :
    (k j : Bytes) (o : Option DictValue) (d : Dict)
    → compare_bytes k j ≡ Ordering.eq
    → find k (store j o d) ≡ o
find-store_self k j o d h = ground (arith, find-store k j o d)

pub find-store_ne :
    (k j : Bytes) (o : Option DictValue) (d : Dict)
    → compare_bytes k j ≢ Ordering.eq
    → find k (store j o d) ≡ find k d
find-store_ne k j o d h = ground (arith, find-store k j o d)

Above-erase : (k j : Bytes) (d : Dict) → Above k d → Above k (erase j d)
unfolding erase
Above-erase k j nil a = tt
Above-erase k j (entry i v d) a = ground (arith, Above-erase k j d)

Above-put :
    (k j : Bytes) (v : DictValue) (d : Dict)
    → compare_bytes k j ≡ Ordering.lt
    → Above k d
    → Above k (put j v d)
unfolding put
Above-put k j v nil h a = (h, tt)
Above-put k j v (entry i w d) h a = ground (arith, Above-put k j v d)

pub erase-IsOrdered : (k : Bytes) (d : Dict) → IsOrdered d → IsOrdered (erase k d)
unfolding erase
erase-IsOrdered k nil h = tt
erase-IsOrdered k (entry j v d) h = elim (Ordering-cases (compare_bytes k j)) [
  | inl e ↦ rw (e, erase) (Above-erase j k d h.0, h.1, erase-IsOrdered k d h.2)
  | inr (inl e) ↦ rw (e, erase) (erase-IsOrdered k d h.2)
  | inr (inr e) ↦ rw (e, erase) (Above-erase j k d h.0, h.1, erase-IsOrdered k d h.2)
]

pub put-IsOrdered :
    (k : Bytes) (v : DictValue) (d : Dict) → IsOrderedValue v → IsOrdered d → IsOrdered (put k v d)
unfolding put
put-IsOrdered k v nil hv h = (tt, hv, tt)
put-IsOrdered k v (entry j w d) hv h = elim (Ordering-cases (compare_bytes k j)) [
  | inl e ↦ rw (e, put) ((e, Above-trans k j d e h.0), hv, h)
  | inr (inl e) ↦
      rw (e, put) (subst (λ i. Above i d) (sym (eq_of_compare_bytes k j e)) h.0, hv, h.2)
  | inr (inr e) ↦
      rw (e, put)
        (Above-put j k v d (compare_bytes_swap_gt k j e) h.0, h.1, put-IsOrdered k v d hv h.2)
]

abbrev pub IsOrderedOption : Option DictValue → Type 0
IsOrderedOption none = Unit {0}
IsOrderedOption (some v) = IsOrderedValue v

pub store-IsOrdered :
    (k : Bytes) (o : Option DictValue) (d : Dict)
    → IsOrderedOption o
    → IsOrdered d
    → IsOrdered (store k o d)
unfolding store
store-IsOrdered k none d ho h = erase-IsOrdered k d h
store-IsOrdered k (some v) d ho h = put-IsOrdered k v d ho h

-- Two ordered dicts with the same value at every key are equal.
pub eq_of_find :
    (d e : Dict) → IsOrdered d → IsOrdered e → ((k : Bytes) → find k d ≡ find k e) → d ≡ e
unfolding find
eq_of_find nil nil hd he h = refl
eq_of_find nil (entry j w e) hd he h = ground (arith, h j, compare_bytes_refl j)
eq_of_find (entry k v d) nil hd he h = ground (arith, h k, compare_bytes_refl k)
eq_of_find (entry k v d) (entry j w e) hd he h = elim (Ordering-cases (compare_bytes k j)) [
  | inl c ↦ ground (arith, h k, compare_bytes_refl k, find-Above k e, Above-trans k j e)
  | inr (inl c) ↦
      let rest : d ≡ e = eq_of_find d e hd.2 he.2 (λ i. ground (
        arith,
        h i,
        eq_of_compare_bytes k j,
        eq_of_compare_bytes i k,
        find-Above k d,
        find-Above j e,
      )) in
      ground (arith, rest, h k, compare_bytes_refl k, eq_of_compare_bytes k j)
  | inr (inr c) ↦ ground (
    arith,
    h j,
    compare_bytes_refl j,
    find-Above j d,
    compare_bytes_swap_gt k j,
    Above-trans j k d,
  )
]

pub find-IsOrdered : (k : Bytes) (d : Dict) → IsOrdered d → IsOrderedOption (find k d)
unfolding find
find-IsOrdered k nil h = tt
find-IsOrdered k (entry j v d) h = elim (is_eq (compare_bytes k j)) [
  | inl e ↦ subst IsOrderedOption (sym (find_first k j v d e)) h.1
  | inr e ↦ subst IsOrderedOption (sym (find_skip k j v d e)) (find-IsOrdered k d h.2)
]
