-- ===== src/Config/Prune/Leaves.antt =====
-- Pruning seen from the leaves: the scalars and the sets with elements, each at its path of keys.
use libbchat_util.Base.{
  ◌≡◌, ◌↔◌, refl, inl, inr, Option, none, some, List, [], ◌∷◌, true, false, arith, Option-cases,
  if◌then◌else◌, subst,
}
use libbchat_util.Base.Order.{Bytes, eq_of_compare_bytes}
use libbchat_util.Config.Dict.{
  DictValue, scalar, set, dict, Dict, nil, entry, IsPruned, IsOrdered, IsOrderedValue,
  IsOrderedOption, Above, find, find-IsOrdered,
}
use libbchat_util.Config.Prune.{prune_value, prune_dict, prune_entry, prune_node, prune}
use libbchat_util.Config.Prune.Laws.{
  prune_dict-IsPruned, prune_dict-IsOrdered, prune_dict_of_IsPruned, IsPruned-of_unremoved,
}

-- The value itself, if it is a leaf.
abbrev pub leaf : DictValue → Option DictValue
leaf (scalar s) = some (scalar s)
leaf (set []) = none
leaf (set (x ∷ xs)) = some (set (x ∷ xs))
leaf (dict d) = none

-- The leaf that a path leads to.
pub leaf_at : List Bytes → DictValue → Option DictValue
leaf_at [] v = leaf v
leaf_at (k ∷ ks) (scalar s) = none
leaf_at (k ∷ ks) (set s) = none
leaf_at (k ∷ ks) (dict d) = elim (find k d) [ none ↦ none | some v ↦ leaf_at ks v ]

-- What is left at a key.
abbrev survivor : Option DictValue → Option DictValue
survivor none = none
survivor (some v) = if (prune_value v).should_remove then none else some (prune_value v).value

prune_dict-Above : (k : Bytes) (d : Dict) → Above k d → find k (prune_dict d).left ≡ none
unfolding prune_dict prune_entry find
prune_dict-Above k nil a = refl
prune_dict-Above k (entry j v d) a = ground (arith, prune_dict-Above k d)

find-prune_dict :
    (k : Bytes) (d : Dict) → IsOrdered d → find k (prune_dict d).left ≡ survivor (find k d)
unfolding prune_dict prune_entry find
find-prune_dict k nil h = refl
find-prune_dict k (entry j v d) h =
    ground (arith, find-prune_dict k d, prune_dict-Above k d, eq_of_compare_bytes k j)

-- A value that is to be removed has no leaf.
leaf_at_removed :
    (ks : List Bytes) (v : DictValue)
    → (prune_value v).should_remove ≡ true
    → leaf_at ks (prune_value v).value ≡ none
unfolding prune_value prune_node leaf_at find
leaf_at_removed [] (scalar s) h = ground arith
leaf_at_removed [] (set []) h = refl
leaf_at_removed [] (set (x ∷ xs)) h = ground arith
leaf_at_removed [] (dict d) h = refl
leaf_at_removed (k ∷ ks) (scalar s) h = refl
leaf_at_removed (k ∷ ks) (set s) h = refl
leaf_at_removed (k ∷ ks) (dict d) h = ground arith

leaf_at-prune_value :
    (ks : List Bytes) (v : DictValue)
    → IsOrderedValue v
    → leaf_at ks (prune_value v).value ≡ leaf_at ks v
unfolding prune_value prune_node leaf_at
leaf_at-prune_value [] (scalar s) h = refl
leaf_at-prune_value [] (set s) h = refl
leaf_at-prune_value [] (dict d) h = refl
leaf_at-prune_value (k ∷ ks) (scalar s) h = refl
leaf_at-prune_value (k ∷ ks) (set s) h = refl
leaf_at-prune_value (k ∷ ks) (dict d) h = elim (Option-cases (find k d)) [
  | inl e ↦ ground (arith, find-prune_dict k d)
  | inr (v, e) ↦
      let ordered : IsOrderedValue v = subst IsOrderedOption e (find-IsOrdered k d h) in
      ground (arith, find-prune_dict k d, leaf_at-prune_value ks v ordered, leaf_at_removed ks v)
]

-- Pruning an ordered dict leaves no empty set or dict at any depth and keeps the keys in order; at
-- every path of keys the result has the scalar or non-empty set that was there, and no other.
pub prune_lem :
    (d : Dict)
    → IsOrdered d
    → IsPruned (prune d).0
      × IsOrdered (prune d).0
      × ((ks : List Bytes) → leaf_at ks (dict (prune d).0) ≡ leaf_at ks (dict d))
unfolding prune
prune_lem d h = (
  prune_dict-IsPruned d,
  prune_dict-IsOrdered d h,
  λ ks. unfold prune_value prune_node in leaf_at-prune_value ks (dict d) h,
)

-- Pruning reports no removal exactly when the dict held no empty set or dict, and then it leaves the
-- dict as it is.
pub prune_report :
    (d : Dict) → ((prune d).1 ≡ false ↔ IsPruned d) × (IsPruned d → prune d ≡ (d, false))
unfolding prune
prune_report d = (
  (IsPruned-of_unremoved d, λ h. rw (prune_dict_of_IsPruned d h) refl),
  λ h. rw (prune_dict_of_IsPruned d h) refl,
)
