-- ===== src/Network/Swarm/Generated.antt =====
-- What `generate_swarms` promises, and what `get_swarm` finds in its result.
use libbchat_util.Base.{
  ℕ, zero, suc, ◌≤◌, ◌<◌, ◌≡◌, ◌≢◌, refl, sym, subst, ◌∙◌, some, List, [], ◌∷◌, ◌++◌, arith, inl,
  inr, ◌==◌, length, get_elem?, All, Bool-cases,
}
use libbchat_util.Base.Order.{Bytes}
use libbchat_util.Network.Swarm.{
  MasterNode, Swarm, wrap, group_nodes, generate_swarms, get_swarm, pubkey_to_swarm_space,
}
use libbchat_util.Network.Swarm.Ring.{distance}
use libbchat_util.Network.Swarm.Bound.{Ascending, InRange, found-Before, index_of}
use libbchat_util.Network.Swarm.Nearest.{NearestOf, get_swarm_lem}
use libbchat_util.Network.Swarm.Groups.{
  nodes_of, with_id, Distinct-group_nodes, InRange-group_nodes, nodes_of-group_nodes,
  Ascending-sort_swarms, InRange-sort_swarms, nodes_of-sort_swarms,
}

none_yet : (id : ℕ) (ns : List MasterNode) → nodes_of id [] ++ with_id id ns ≡ with_id id ns
unfolding nodes_of
none_yet id ns = refl

-- For nodes whose swarms are 64-bit ids, the swarms come in ascending order of their ids, each id
-- once, and the nodes of an id are those that say so, in the order in which they were given.
pub generate_swarms_lem :
    (ns : List MasterNode)
    → All (λ n. n.swarm_id < wrap) ns
    → Ascending (generate_swarms ns)
      × InRange (generate_swarms ns)
      × ((id : ℕ) → nodes_of id (generate_swarms ns) ≡ with_id id ns)
unfolding generate_swarms
generate_swarms_lem ns h =
    let d = Distinct-group_nodes ns [] tt in
    (
      Ascending-sort_swarms (group_nodes ns []) d,
      InRange-sort_swarms (group_nodes ns []) (InRange-group_nodes ns [] h tt),
      λ id.
          nodes_of-sort_swarms id (group_nodes ns []) d
          ∙ nodes_of-group_nodes id ns []
          ∙ none_yet id ns,
    )

with_id_self :
    (ns : List MasterNode) (i : ℕ) (n : MasterNode)
    → get_elem? ns i ≡ some n
    → with_id n.swarm_id ns ≢ []
unfolding with_id
with_id_self [] i n h = λ e. cc h
with_id_self (m ∷ ns) zero n h = λ e. ground arith
with_id_self (m ∷ ns) (suc i) n h = λ e. elim (Bool-cases (m.swarm_id == n.swarm_id)) [
  | inl b ↦ ground arith
  | inr b ↦ with_id_self ns i n h (ground arith)
]

-- An id that has nodes has a swarm.
swarm_with_nodes :
    (id : ℕ) (ss : List Swarm)
    → nodes_of id ss ≢ []
    → (k : ℕ) × (c : Swarm) × (get_elem? ss k ≡ some c) × (c.0 ≡ id)
unfolding nodes_of
swarm_with_nodes id [] h = absurd (h refl)
swarm_with_nodes id ((k, ns) ∷ ss) h = elim (Bool-cases (k == id)) [
  | inl b ↦ (0, (k, ns), refl, ground arith)
  | inr b ↦ let (j, c, e, f) = swarm_with_nodes id ss (λ q. h (ground arith)) in (suc j, c, e, f)
]

-- A swarm of the list has the nodes of its id.
nodes_of_swarm :
    (ss : List Swarm) (k : ℕ) (s : Swarm)
    → Ascending ss
    → get_elem? ss k ≡ some s
    → nodes_of s.0 ss ≡ s.1
unfolding nodes_of
nodes_of_swarm [] k s a h = cc h
nodes_of_swarm (t ∷ ts) zero s a h = ground arith
nodes_of_swarm (t ∷ ts) (suc k) s a h =
    ground (arith, found-Before t.0 ts k s a.0 h, nodes_of_swarm ts k s a.1 h)

swarm_of_node :
    (ns : List MasterNode) (i : ℕ) (n : MasterNode)
    → ((id : ℕ) → nodes_of id (generate_swarms ns) ≡ with_id id ns)
    → get_elem? ns i ≡ some n
    → (k : ℕ) × (c : Swarm) × (get_elem? (generate_swarms ns) k ≡ some c) × (c.0 ≡ n.swarm_id)
swarm_of_node ns i n f h =
    swarm_with_nodes n.swarm_id (generate_swarms ns)
      (λ e. with_id_self ns i n h (sym (f n.swarm_id) ∙ e))

some_swarm :
    (ns : List MasterNode)
    → 0 < length ns
    → ((id : ℕ) → nodes_of id (generate_swarms ns) ≡ with_id id ns)
    → 0 < length (generate_swarms ns)
some_swarm [] h f = omega arith
some_swarm (n ∷ ns) h f =
    let (k, c, e, q) = swarm_of_node (n ∷ ns) 0 n f refl in
    omega (arith, index_of (generate_swarms (n ∷ ns)) k c e)

from_nearest :
    (pk : Bytes) (ns : List MasterNode)
    → ((id : ℕ) → nodes_of id (generate_swarms ns) ≡ with_id id ns)
    → Ascending (generate_swarms ns)
    → (s : Swarm) × (get_swarm pk (generate_swarms ns) ≡ some s)
      × NearestOf (pubkey_to_swarm_space pk) (generate_swarms ns) s
    → (s : Swarm) × (get_swarm pk (generate_swarms ns) ≡ some s)
      × (s.1 ≡ with_id s.0 ns)
      × ((i : ℕ) (n : MasterNode)
          → get_elem? ns i ≡ some n
          → distance (pubkey_to_swarm_space pk) s.0
            ≤ distance (pubkey_to_swarm_space pk) n.swarm_id)
from_nearest pk ns f a (s, e, near) = (
  s,
  e,
  sym (nodes_of_swarm (generate_swarms ns) near.index s a near.member) ∙ f s.0,
  λ i n h.
      let (k, c, g, q) = swarm_of_node ns i n f h in
      subst (λ x. distance (pubkey_to_swarm_space pk) s.0 ≤ distance (pubkey_to_swarm_space pk) x) q
        (near.least k c g),
)

-- For one or more nodes whose swarms are 64-bit ids, `get_swarm` on the generated swarms returns a
-- swarm with all the nodes that say that they are in it, in their order, and no node is in a swarm
-- whose id is nearer to the key's place on the ring of ids.
pub get_swarm-generate_swarms :
    (pk : Bytes) (ns : List MasterNode)
    → All (λ n. n.swarm_id < wrap) ns
    → 0 < length ns
    → (s : Swarm) × (get_swarm pk (generate_swarms ns) ≡ some s)
      × (s.1 ≡ with_id s.0 ns)
      × ((i : ℕ) (n : MasterNode)
          → get_elem? ns i ≡ some n
          → distance (pubkey_to_swarm_space pk) s.0
            ≤ distance (pubkey_to_swarm_space pk) n.swarm_id)
get_swarm-generate_swarms pk ns h n =
    let (a, r, f) = generate_swarms_lem ns h in
    from_nearest pk ns f a (get_swarm_lem pk (generate_swarms ns) a r (some_swarm ns n f))
