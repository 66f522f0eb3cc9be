-- ===== src/Network/Swarm/Groups.antt =====
-- `generate_swarms` groups the nodes by their swarms, and `get_swarm` on its result.
use libbchat_util.Base.{
  ℕ, ◌<◌, ◌≡◌, ◌≢◌, refl, sym, ap, ◌∙◌, List, [], ◌∷◌, ◌++◌, false, arith, inl, inr, ◌==◌, ltb,
  if◌then◌else◌, All, Bool-cases,
}
use libbchat_util.Network.Swarm.{
  MasterNode, Swarm, wrap, push_node, group_nodes, insert_swarm, sort_swarms,
}
use libbchat_util.Network.Swarm.Bound.{Before, Ascending, InRange}

-- The nodes of a swarm, and the nodes that say that they are in it, in their order.
unfoldable pub nodes_of : ℕ → List Swarm → List MasterNode
nodes_of id [] = []
nodes_of id ((k, ns) ∷ ss) = if k == id then ns else nodes_of id ss

unfoldable pub with_id : ℕ → List MasterNode → List MasterNode
with_id id [] = []
with_id id (n ∷ ns) = if n.swarm_id == id then n ∷ with_id id ns else with_id id ns

abbrev pub Absent : ℕ → List Swarm → Type 0
Absent id [] = Unit {0}
Absent id (s ∷ ss) = (s.0 ≢ id) × Absent id ss

abbrev pub Distinct : List Swarm → Type 0
Distinct [] = Unit {0}
Distinct (s ∷ ss) = Absent s.0 ss × Distinct ss

Absent-push_node :
    (id : ℕ) (n : MasterNode) (ss : List Swarm)
    → n.swarm_id ≢ id
    → Absent id ss
    → Absent id (push_node n ss)
unfolding push_node
Absent-push_node id n [] h a = (h, tt)
Absent-push_node id n ((k, ns) ∷ ss) h a = elim (Bool-cases (k == n.swarm_id)) [
  | inl e ↦ rw e a
  | inr e ↦ rw e (a.0, Absent-push_node id n ss h a.1)
]

Distinct-push_node : (n : MasterNode) (ss : List Swarm) → Distinct ss → Distinct (push_node n ss)
unfolding push_node
Distinct-push_node n [] d = (tt, tt)
Distinct-push_node n ((k, ns) ∷ ss) d = elim (Bool-cases (k == n.swarm_id)) [
  | inl e ↦ rw e d
  | inr e ↦ rw e (Absent-push_node k n ss (λ q. ground arith) d.0, Distinct-push_node n ss d.1)
]

InRange-push_node :
    (n : MasterNode) (ss : List Swarm) → n.swarm_id < wrap → InRange ss → InRange (push_node n ss)
unfolding push_node
InRange-push_node n [] h r = (h, tt)
InRange-push_node n ((k, ns) ∷ ss) h r = elim (Bool-cases (k == n.swarm_id)) [
  | inl e ↦ rw e r
  | inr e ↦ rw e (r.0, InRange-push_node n ss h r.1)
]

append_nil : (ns : List MasterNode) → ns ++ [] ≡ ns
append_nil [] = refl
append_nil (n ∷ ns) = ap (λ x. n ∷ x) (append_nil ns)

append_assoc : (a b c : List MasterNode) → (a ++ b) ++ c ≡ a ++ (b ++ c)
append_assoc [] b c = refl
append_assoc (n ∷ ns) b c = ap (λ x. n ∷ x) (append_assoc ns b c)

nodes_of-push_node :
    (id : ℕ) (n : MasterNode) (ss : List Swarm)
    → nodes_of id (push_node n ss) ≡ nodes_of id ss ++ with_id id (n ∷ [])
unfolding push_node nodes_of with_id
nodes_of-push_node id n [] = ground arith
nodes_of-push_node id n ((k, ns) ∷ ss) =
    ground (arith, nodes_of-push_node id n ss, append_nil ns, append_nil (nodes_of id ss))

with_id-cons :
    (id : ℕ) (n : MasterNode) (ns : List MasterNode)
    → with_id id (n ∷ ns) ≡ with_id id (n ∷ []) ++ with_id id ns
unfolding with_id
with_id-cons id n ns = ground arith

pub nodes_of-group_nodes :
    (id : ℕ) (ns : List MasterNode) (ss : List Swarm)
    → nodes_of id (group_nodes ns ss) ≡ nodes_of id ss ++ with_id id ns
unfolding group_nodes with_id
nodes_of-group_nodes id [] ss = sym (append_nil (nodes_of id ss))
nodes_of-group_nodes id (n ∷ ns) ss =
    nodes_of-group_nodes id ns (push_node n ss)
    ∙ ap (λ x. x ++ with_id id ns) (nodes_of-push_node id n ss)
    ∙ append_assoc (nodes_of id ss) (with_id id (n ∷ [])) (with_id id ns)
    ∙ ap (λ x. nodes_of id ss ++ x) (sym (with_id-cons id n ns))

pub Distinct-group_nodes :
    (ns : List MasterNode) (ss : List Swarm) → Distinct ss → Distinct (group_nodes ns ss)
unfolding group_nodes
Distinct-group_nodes [] ss d = d
Distinct-group_nodes (n ∷ ns) ss d =
    Distinct-group_nodes ns (push_node n ss) (Distinct-push_node n ss d)

pub InRange-group_nodes :
    (ns : List MasterNode) (ss : List Swarm)
    → All (λ n. n.swarm_id < wrap) ns
    → InRange ss
    → InRange (group_nodes ns ss)
unfolding group_nodes
InRange-group_nodes [] ss h r = r
InRange-group_nodes (n ∷ ns) ss h r =
    InRange-group_nodes ns (push_node n ss) h.1 (InRange-push_node n ss h.0 r)

-- Sorting keeps what is there and puts it in order.
Absent-insert_swarm :
    (id : ℕ) (s : Swarm) (ss : List Swarm) → s.0 ≢ id → Absent id ss → Absent id (insert_swarm s ss)
unfolding insert_swarm
Absent-insert_swarm id s [] h a = (h, tt)
Absent-insert_swarm id s (t ∷ ts) h a = elim (Bool-cases (ltb t.0 s.0)) [
  | inl e ↦ rw e (a.0, Absent-insert_swarm id s ts h a.1)
  | inr e ↦ rw e (h, a)
]

Absent-sort_swarms : (id : ℕ) (ss : List Swarm) → Absent id ss → Absent id (sort_swarms ss)
unfolding sort_swarms
Absent-sort_swarms id [] a = tt
Absent-sort_swarms id (s ∷ ss) a =
    Absent-insert_swarm id s (sort_swarms ss) a.0 (Absent-sort_swarms id ss a.1)

InRange-insert_swarm :
    (s : Swarm) (ss : List Swarm) → s.0 < wrap → InRange ss → InRange (insert_swarm s ss)
unfolding insert_swarm
InRange-insert_swarm s [] h r = (h, tt)
InRange-insert_swarm s (t ∷ ts) h r = elim (Bool-cases (ltb t.0 s.0)) [
  | inl e ↦ rw e (r.0, InRange-insert_swarm s ts h r.1)
  | inr e ↦ rw e (h, r)
]

pub InRange-sort_swarms : (ss : List Swarm) → InRange ss → InRange (sort_swarms ss)
unfolding sort_swarms
InRange-sort_swarms [] r = tt
InRange-sort_swarms (s ∷ ss) r =
    InRange-insert_swarm s (sort_swarms ss) r.0 (InRange-sort_swarms ss r.1)

Before-trans : (a b : ℕ) (ss : List Swarm) → a < b → Before b ss → Before a ss
Before-trans a b [] h k = tt
Before-trans a b (s ∷ ss) h k = (omega arith, Before-trans a b ss h k.1)

Before-insert_swarm :
    (a : ℕ) (s : Swarm) (ss : List Swarm) → a < s.0 → Before a ss → Before a (insert_swarm s ss)
unfolding insert_swarm
Before-insert_swarm a s [] h k = (h, tt)
Before-insert_swarm a s (t ∷ ts) h k = elim (Bool-cases (ltb t.0 s.0)) [
  | inl e ↦ rw e (k.0, Before-insert_swarm a s ts h k.1)
  | inr e ↦ rw e (h, k)
]

behind : (s t : Swarm) → ltb t.0 s.0 ≡ false → t.0 ≢ s.0 → s.0 < t.0
behind s t h k = ground arith

Ascending-insert_swarm :
    (s : Swarm) (ss : List Swarm) → Absent s.0 ss → Ascending ss → Ascending (insert_swarm s ss)
unfolding insert_swarm
Ascending-insert_swarm s [] a h = (tt, tt)
Ascending-insert_swarm s (t ∷ ts) a h = elim (Bool-cases (ltb t.0 s.0)) [
  | inl e ↦
      rw e (Before-insert_swarm t.0 s ts (ground arith) h.0, Ascending-insert_swarm s ts a.1 h.1)
  | inr e ↦ let less = behind s t e a.0 in rw e ((less, Before-trans s.0 t.0 ts less h.0), h)
]

pub Ascending-sort_swarms : (ss : List Swarm) → Distinct ss → Ascending (sort_swarms ss)
unfolding sort_swarms
Ascending-sort_swarms [] d = tt
Ascending-sort_swarms (s ∷ ss) d =
    Ascending-insert_swarm s (sort_swarms ss) (Absent-sort_swarms s.0 ss d.0)
      (Ascending-sort_swarms ss d.1)

nodes_of-insert_swarm :
    (id : ℕ) (s : Swarm) (ss : List Swarm)
    → Absent s.0 ss
    → nodes_of id (insert_swarm s ss) ≡ nodes_of id (s ∷ ss)
unfolding insert_swarm nodes_of
nodes_of-insert_swarm id s [] a = refl
nodes_of-insert_swarm id s (t ∷ ts) a = ground (arith, nodes_of-insert_swarm id s ts)

pub nodes_of-sort_swarms :
    (id : ℕ) (ss : List Swarm) → Distinct ss → nodes_of id (sort_swarms ss) ≡ nodes_of id ss
unfolding sort_swarms nodes_of
nodes_of-sort_swarms id [] d = refl
nodes_of-sort_swarms id ((k, ns) ∷ ss) d =
    nodes_of-insert_swarm id (k, ns) (sort_swarms ss) (Absent-sort_swarms k ss d.0)
    ∙ ap (λ x. if k == id then ns else x) (nodes_of-sort_swarms id ss d.1)
