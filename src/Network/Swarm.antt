-- ===== src/Network/Swarm.antt =====
-- network/swarm.cpp: the swarm that a public key belongs to. Swarm ids are 64-bit unsigned
-- integers; a vector of swarms has its index for its iterators. A node keeps its key and its
-- swarm, which is what these functions read and what tells nodes apart.
pub mod Ring
pub mod Bound
pub mod Nearest
pub mod Groups
pub mod Generated
use libbchat_util.Base.{
  ℕ, zero, suc, ◌+◌, ◌-◌, ◌*◌, ◌%◌, ◌^◌, Option, none, some, List, [], ◌∷◌, ◌++◌, Bool, true, false,
  ◌==◌, ltb, if◌then◌else◌, length, get_elem?, take, drop,
}
use libbchat_util.Base.Order.{Bytes}
use Prim.Native.Nat.{bit_xor}

pub record MasterNode : Type 0 where
  pub remote_pubkey : Bytes
  pub swarm_id : ℕ

abbrev pub Swarm : Type 0
Swarm = ℕ × List MasterNode

-- Subtraction on uint64_t.
abbrev pub wrap : ℕ
wrap = 2 ^ 64

unfoldable pub minus_u64 : ℕ → ℕ → ℕ
minus_u64 a b = (a + wrap - b) % wrap

-- The number that a byte string is in big-endian order.
unfoldable pub big_endian : ℕ → Bytes → ℕ
big_endian n [] = n
big_endian n (b ∷ bs) = big_endian ((n * 256 + b) % wrap) bs

abbrev pub xor_bytes : Bytes → Bytes → Bytes
xor_bytes [] bs = []
xor_bytes (a ∷ rest) [] = []
xor_bytes (a ∷ rest) (b ∷ bs) = bit_xor a b ∷ xor_bytes rest bs

-- Four words of eight bytes, read in one byte order, combined, and brought to big-endian order.
abbrev pub xor_words : ℕ → Bytes → Bytes → Bytes
xor_words zero pk res = res
xor_words (suc i) pk res = xor_words i (drop 8 pk) (xor_bytes res (take 8 pk))

unfoldable pub pubkey_to_swarm_space : Bytes → ℕ
unfolding big_endian
pubkey_to_swarm_space pk = big_endian 0 (xor_words 4 pk (0 ∷ 0 ∷ 0 ∷ 0 ∷ 0 ∷ 0 ∷ 0 ∷ 0 ∷ []))

-- `_grouped_nodes[node.swarm_id].push_back(node)`
unfoldable pub push_node : MasterNode → List Swarm → List Swarm
push_node n [] = (n.swarm_id, n ∷ []) ∷ []
push_node n ((id, ns) ∷ groups) =
    if id == n.swarm_id then (id, ns ++ n ∷ []) ∷ groups else (id, ns) ∷ push_node n groups

unfoldable pub group_nodes : List MasterNode → List Swarm → List Swarm
group_nodes [] groups = groups
group_nodes (n ∷ ns) groups = group_nodes ns (push_node n groups)

unfoldable pub insert_swarm : Swarm → List Swarm → List Swarm
insert_swarm s [] = s ∷ []
insert_swarm s (t ∷ ts) = if ltb t.0 s.0 then t ∷ insert_swarm s ts else s ∷ t ∷ ts

unfoldable pub sort_swarms : List Swarm → List Swarm
sort_swarms [] = []
sort_swarms (s ∷ ss) = insert_swarm s (sort_swarms ss)

unfoldable pub generate_swarms : List MasterNode → List Swarm
generate_swarms nodes = sort_swarms (group_nodes nodes [])

-- The index of the first swarm that does not come before the id, or of the end.
unfoldable pub lower_bound : ℕ → List Swarm → ℕ
lower_bound id [] = 0
lower_bound id (s ∷ ss) = if ltb s.0 id then suc (lower_bound id ss) else 0

-- The end wraps to the first.
abbrev pub right_index : ℕ → List Swarm → ℕ
right_index id swarms = if lower_bound id swarms == length swarms then 0 else lower_bound id swarms

-- The one before, the last for the first.
abbrev pub left_index : ℕ → List Swarm → ℕ
left_index right swarms = (if right == 0 then length swarms else right) - 1

abbrev pub closer : ℕ → Swarm → Swarm → Swarm
closer id left right = if ltb (minus_u64 right.0 id) (minus_u64 id left.0) then right else left

unfoldable pub nearest : ℕ → List Swarm → Option Swarm
nearest id swarms =
    let right = right_index id swarms in
    elim (get_elem? swarms right) [
      | none ↦ none
      | some r ↦ elim (get_elem? swarms (left_index right swarms)) [
        | none ↦ none
        | some l ↦ some (closer id l r)
      ]
    ]

-- No swarm at all makes the source step before the beginning: there is no result then.
unfoldable pub get_swarm : Bytes → List Swarm → Option Swarm
get_swarm pk [] = none
get_swarm pk (s ∷ []) = some s
get_swarm pk (s ∷ t ∷ ss) = nearest (pubkey_to_swarm_space pk) (s ∷ t ∷ ss)
