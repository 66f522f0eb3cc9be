-- ===== src/Tests/Swarm.antt =====
-- Swarms, at the public keys of tests/test_network_swarm.cpp and at concrete nodes.
use libbchat_util.Base.{
  ℕ, ◌≡◌, ◌≤◌, ◌<◌, refl, some, List, [], ◌∷◌, arith, get_elem?, All, replicate, ◌++◌,
}
use libbchat_util.Base.Order.{Bytes}
use libbchat_util.Network.Swarm.{
  MasterNode, Swarm, wrap, pubkey_to_swarm_space, big_endian, generate_swarms, get_swarm,
}
use libbchat_util.Network.Swarm.Ring.{distance}
use libbchat_util.Network.Swarm.Groups.{with_id}
use libbchat_util.Network.Swarm.Generated.{get_swarm-generate_swarms}

abbrev top_key : Bytes
top_key = replicate 31 255 ++ 254 ∷ []

top_key_space : pubkey_to_swarm_space top_key ≡ 1
unfolding pubkey_to_swarm_space big_endian
top_key_space = refl

abbrev high_key : Bytes
high_key = replicate 24 255 ++ 127 ∷ replicate 7 255

high_key_space : pubkey_to_swarm_space high_key ≡ 9223372036854775808
unfolding pubkey_to_swarm_space big_endian
high_key_space = refl

abbrev node_a : MasterNode
node_a = record { remote_pubkey = b'a' ∷ []; swarm_id = 700 }

abbrev node_b : MasterNode
node_b = record { remote_pubkey = b'b' ∷ []; swarm_id = 18446744073709551614 }

abbrev node_c : MasterNode
node_c = record { remote_pubkey = b'c' ∷ []; swarm_id = 700 }

abbrev nodes : List MasterNode
nodes = node_a ∷ node_b ∷ node_c ∷ []

abbrev nodes_in_range : All (λ n. n.swarm_id < wrap) nodes
nodes_in_range = (omega arith, (omega arith, (omega arith, tt)))

abbrev swarms : List Swarm
swarms = (700, node_a ∷ node_c ∷ []) ∷ (18446744073709551614, node_b ∷ []) ∷ []

get_swarm-generate_swarms_example :
    (s : Swarm) × (get_swarm top_key (generate_swarms nodes) ≡ some s)
    × (s.1 ≡ with_id s.0 nodes)
    × ((i : ℕ) (n : MasterNode)
        → get_elem? nodes i ≡ some n
        → distance (pubkey_to_swarm_space top_key) s.0
          ≤ distance (pubkey_to_swarm_space top_key) n.swarm_id)
get_swarm-generate_swarms_example =
    get_swarm-generate_swarms top_key nodes nodes_in_range (omega arith)
