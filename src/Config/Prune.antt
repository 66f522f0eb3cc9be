-- ===== src/Config/Prune.antt =====
-- The `prune_` overloads of config.cpp and `MutableConfigMessage::prune`: a value becomes the value
-- that is left, whether it is to be removed from its parent, and whether anything below it was
-- removed.
pub mod Laws
pub mod Leaves
use libbchat_util.Base.{Bool, true, false, ◌||◌, if◌then◌else◌, empty}
use libbchat_util.Base.Order.{Bytes}
use libbchat_util.Config.Dict.{DictValue, scalar, set, dict, Dict, nil, entry}

pub record Pruned : Type 0 where
  pub value : DictValue
  pub should_remove : Bool
  pub removed_subkeys : Bool

pub record PrunedDict : Type 0 where
  pub left : Dict
  pub removed_subkeys : Bool

abbrev pub is_nil : Dict → Bool
is_nil nil = true
is_nil (entry k v d) = false

-- One round of the loop over the entries: `rest` is what the rounds after it leave.
unfoldable pub prune_entry : Bytes → Pruned → PrunedDict → PrunedDict
prune_entry k p rest = record {
  left = if p.should_remove then rest.left else entry k p.value rest.left;
  removed_subkeys = p.should_remove || p.removed_subkeys || rest.removed_subkeys;
}

unfoldable pub prune_node : PrunedDict → Pruned
prune_node p = record {
  value = dict p.left;
  should_remove = is_nil p.left;
  removed_subkeys = p.removed_subkeys;
}

unfoldable mutual
  pub prune_value : DictValue → Pruned
  prune_value (scalar s) = record {
    value = scalar s;
    should_remove = false;
    removed_subkeys = false;
  }
  prune_value (set s) = record { value = set s; should_remove = empty s; removed_subkeys = false }
  prune_value (dict d) = prune_node (prune_dict d)

  pub prune_dict : Dict → PrunedDict
  prune_dict nil = record { left = nil; removed_subkeys = false }
  prune_dict (entry k v d) = prune_entry k (prune_value v) (prune_dict d)

-- `MutableConfigMessage::prune` on `data_`.
unfoldable pub prune : Dict → Dict × Bool
unfolding prune_dict prune_value prune_entry prune_node
prune d = ((prune_dict d).left, (prune_dict d).removed_subkeys)
