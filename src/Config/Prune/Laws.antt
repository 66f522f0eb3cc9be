-- ===== src/Config/Prune/Laws.antt =====
-- What pruning does to a dict.
use libbchat_util.Base.{◌≡◌, refl, false, arith}
use libbchat_util.Base.Order.{Bytes}
use libbchat_util.Config.Dict.{
  DictValue, scalar, set, dict, Dict, nil, entry, IsPruned, IsPrunedValue, IsOrdered,
  IsOrderedValue, Above,
}
use libbchat_util.Config.Prune.{prune_value, prune_dict, prune_entry, prune_node}

mutual
  unfolding prune_value prune_dict prune_entry prune_node

  prune_value-IsPruned :
      (v : DictValue) → (prune_value v).should_remove ≡ false → IsPrunedValue (prune_value v).value
  prune_value-IsPruned (scalar s) h = tt
  prune_value-IsPruned (set s) h = ground arith
  prune_value-IsPruned (dict d) h = (ground arith, prune_dict-IsPruned d)

  pub prune_dict-IsPruned : (d : Dict) → IsPruned (prune_dict d).left
  prune_dict-IsPruned nil = tt
  prune_dict-IsPruned (entry k v d) = ground (arith, prune_value-IsPruned v, prune_dict-IsPruned d)

mutual
  unfolding prune_value prune_dict prune_entry prune_node

  prune_value_of_IsPruned :
      (v : DictValue)
      → IsPrunedValue v
      → prune_value v ≡ record { value = v; should_remove = false; removed_subkeys = false }
  prune_value_of_IsPruned (scalar s) h = refl
  prune_value_of_IsPruned (set s) h = ground arith
  prune_value_of_IsPruned (dict d) h = ground (arith, prune_dict_of_IsPruned d)

  pub prune_dict_of_IsPruned :
      (d : Dict) → IsPruned d → prune_dict d ≡ record { left = d; removed_subkeys = false }
  prune_dict_of_IsPruned nil h = refl
  prune_dict_of_IsPruned (entry k v d) h =
      ground (arith, prune_value_of_IsPruned v, prune_dict_of_IsPruned d)

mutual
  unfolding prune_value prune_dict prune_entry prune_node

  IsPruned_of_unremoved_value :
      (v : DictValue)
      → (prune_value v).should_remove ≡ false
      → (prune_value v).removed_subkeys ≡ false
      → IsPrunedValue v
  IsPruned_of_unremoved_value (scalar s) h g = tt
  IsPruned_of_unremoved_value (set s) h g = ground arith
  IsPruned_of_unremoved_value (dict d) h g = (λ e. ground arith, IsPruned-of_unremoved d g)

  pub IsPruned-of_unremoved : (d : Dict) → (prune_dict d).removed_subkeys ≡ false → IsPruned d
  IsPruned-of_unremoved nil h = tt
  IsPruned-of_unremoved (entry k v d) h =
      ground (arith, IsPruned_of_unremoved_value v, IsPruned-of_unremoved d)

mutual
  unfolding prune_value prune_dict prune_entry prune_node

  prune_value-IsOrdered : (v : DictValue) → IsOrderedValue v → IsOrderedValue (prune_value v).value
  prune_value-IsOrdered (scalar s) h = tt
  prune_value-IsOrdered (set s) h = h
  prune_value-IsOrdered (dict d) h = prune_dict-IsOrdered d h

  pub prune_dict-IsOrdered : (d : Dict) → IsOrdered d → IsOrdered (prune_dict d).left
  prune_dict-IsOrdered nil h = tt
  prune_dict-IsOrdered (entry k v d) h =
      ground (arith, prune_value-IsOrdered v, prune_dict-IsOrdered d, prune_dict-Above k d)

  prune_dict-Above : (k : Bytes) (d : Dict) → Above k d → Above k (prune_dict d).left
  prune_dict-Above k nil a = tt
  prune_dict-Above k (entry j v d) a = ground (arith, prune_dict-Above k d)
