-- ===== src/Network/Swarm/Nearest.antt =====
-- `get_swarm` takes the swarm with the id next to that of the key, around the ring of ids.
use libbchat_util.Base.{
  ℕ, zero, suc, ◌+◌, ◌-◌, ◌*◌, ◌%◌, ◌≤◌, ◌<◌, ◌≡◌, refl, some, List, [], ◌∷◌, min, arith, ◌⊎◌, inl,
  inr, ltb, length, get_elem?, Bool-cases,
}
use libbchat_util.Base.Order.{Bytes}
use libbchat_util.Network.Swarm.{
  Swarm, wrap, minus_u64, lower_bound, right_index, left_index, closer, nearest, get_swarm,
  pubkey_to_swarm_space, big_endian, xor_words,
}
use libbchat_util.Network.Swarm.Ring.{distance, around, around_end, closer-le}
use libbchat_util.Network.Swarm.Bound.{
  Ascending, InRange, found-InRange, Ascending-le, in_bounds, index_of, lower_bound-le, below_bound,
  at_bound,
}

-- A swarm of the list that none of the list is nearer than.
pub record NearestOf (x : ℕ) (ss : List Swarm) (s : Swarm) : Type 0 where
  pub index : ℕ
  pub member : get_elem? ss index ≡ some s
  pub least : (k : ℕ) (c : Swarm) → get_elem? ss k ≡ some c → distance x s.0 ≤ distance x c.0

-- What `nearest` returns, from its two neighbours.
nearest-eq :
    (x : ℕ) (ss : List Swarm) (l r : Swarm)
    → get_elem? ss (right_index x ss) ≡ some r
    → get_elem? ss (left_index (right_index x ss) ss) ≡ some l
    → nearest x ss ≡ some (closer x l r)
unfolding nearest
nearest-eq x ss l r h k = rw (h, nearest, k) refl

closer_member :
    (x : ℕ) (ss : List Swarm) (i j : ℕ) (l r : Swarm)
    → get_elem? ss i ≡ some r
    → get_elem? ss j ≡ some l
    → (k : ℕ) × (get_elem? ss k ≡ some (closer x l r))
closer_member x ss i j l r h k = elim (Bool-cases (ltb (minus_u64 r.0 x) (minus_u64 x l.0))) [
  | inl e ↦ (i, rw e h)
  | inr e ↦ (j, rw e k)
]

-- The two ways that the indices of the neighbours come out.
right-cases :
    (x : ℕ) (ss : List Swarm)
    → ((right_index x ss ≡ 0) × ((lower_bound x ss ≡ 0) ⊎ (lower_bound x ss ≡ length ss)))
      ⊎ ((right_index x ss ≡ lower_bound x ss)
          × (0 < lower_bound x ss)
          × (lower_bound x ss < length ss))
right-cases x ss = ground (arith, lower_bound-le x ss)

left_of_first : (ss : List Swarm) → left_index 0 ss ≡ length ss - 1
left_of_first ss = refl

left_of_inner : (n : ℕ) (ss : List Swarm) → 0 < n → left_index n ss ≡ n - 1
left_of_inner n ss h = ground arith

ends :
    (x : ℕ) (ss : List Swarm) (l r : Swarm)
    → x < wrap
    → Ascending ss
    → InRange ss
    → (lower_bound x ss ≡ 0) ⊎ (lower_bound x ss ≡ length ss)
    → get_elem? ss 0 ≡ some r
    → get_elem? ss (length ss - 1) ≡ some l
    → (j : ℕ) (c : Swarm) → get_elem? ss j ≡ some c
    → min (minus_u64 r.0 x) (minus_u64 x l.0) ≤ distance x c.0
ends x ss l r hx a u b h k j c e =
    let bound = index_of ss j c e in
    around_end x r.0 l.0 c.0 hx (Ascending-le ss 0 j r c a (omega arith) h e)
      (Ascending-le ss j (length ss - 1) c l a (omega arith) e k)
      (found-InRange ss (length ss - 1) l u k)
      (elim b [
        | inl z ↦ inl (at_bound x ss 0 r a (omega arith) h)
        | inr z ↦ inr (below_bound x ss (length ss - 1) l (omega arith) k)
      ])

inner :
    (x : ℕ) (ss : List Swarm) (l r : Swarm)
    → x < wrap
    → Ascending ss
    → InRange ss
    → 0 < lower_bound x ss
    → get_elem? ss (lower_bound x ss) ≡ some r
    → get_elem? ss (lower_bound x ss - 1) ≡ some l
    → (j : ℕ) (c : Swarm) → get_elem? ss j ≡ some c
    → min (minus_u64 r.0 x) (minus_u64 x l.0) ≤ distance x c.0
inner x ss l r hx a u b h k j c e =
    let n = lower_bound x ss in
    around x l.0 r.0 c.0 hx (below_bound x ss (n - 1) l (omega arith) k)
      (at_bound x ss n r a (omega arith) h) (found-InRange ss n r u h) (found-InRange ss j c u e)
      (elim (Bool-cases (ltb j n)) [
        | inl z ↦ inl (Ascending-le ss j (n - 1) c l a (ground arith) e k)
        | inr z ↦ inr (Ascending-le ss n j r c a (ground arith) h e)
      ])

-- The neighbours of an id are among the swarms, and no swarm is nearer than both.
pub record Neighbours (x : ℕ) (ss : List Swarm) : Type 0 where
  pub left : Swarm
  pub right : Swarm
  pub at_right : get_elem? ss (right_index x ss) ≡ some right
  pub at_left : get_elem? ss (left_index (right_index x ss) ss) ≡ some left
  pub nearer :
      (k : ℕ) (c : Swarm)
      → get_elem? ss k ≡ some c
      → min (minus_u64 right.0 x) (minus_u64 x left.0) ≤ distance x c.0

ends-Neighbours :
    (x : ℕ) (ss : List Swarm)
    → x < wrap
    → Ascending ss
    → InRange ss
    → right_index x ss ≡ 0
    → (lower_bound x ss ≡ 0) ⊎ (lower_bound x ss ≡ length ss)
    → (r : Swarm) × (get_elem? ss 0 ≡ some r)
    → (l : Swarm) × (get_elem? ss (length ss - 1) ≡ some l)
    → Neighbours x ss
ends-Neighbours x ss hx a u q b (r, h) (l, k) = record {
  left = l;
  right = r;
  at_right = rw q h;
  at_left = rw q k;
  nearer = ends x ss l r hx a u b h k;
}

inner-Neighbours :
    (x : ℕ) (ss : List Swarm)
    → x < wrap
    → Ascending ss
    → InRange ss
    → right_index x ss ≡ lower_bound x ss
    → 0 < lower_bound x ss
    → (r : Swarm) × (get_elem? ss (lower_bound x ss) ≡ some r)
    → (l : Swarm) × (get_elem? ss (lower_bound x ss - 1) ≡ some l)
    → Neighbours x ss
inner-Neighbours x ss hx a u q b (r, h) (l, k) = record {
  left = l;
  right = r;
  at_right = rw q h;
  at_left = rw (q, left_of_inner (lower_bound x ss) ss b) k;
  nearer = inner x ss l r hx a u b h k;
}

neighbours :
    (x : ℕ) (ss : List Swarm)
    → x < wrap
    → Ascending ss
    → InRange ss
    → 0 < length ss
    → Neighbours x ss
neighbours x ss hx a u n = elim (right-cases x ss) [
  | inl (q, b) ↦
      ends-Neighbours x ss hx a u q b (in_bounds ss 0 n)
        (in_bounds ss (length ss - 1) (omega arith))
  | inr (q, b, m) ↦
      inner-Neighbours x ss hx a u q b (in_bounds ss (lower_bound x ss) m)
        (in_bounds ss (lower_bound x ss - 1) (omega arith))
]

nearest_lem :
    (x : ℕ) (ss : List Swarm)
    → Neighbours x ss
    → (s : Swarm) × (nearest x ss ≡ some s) × NearestOf x ss s
nearest_lem x ss n =
    let (i, e) =
      closer_member x ss (right_index x ss) (left_index (right_index x ss) ss) n.left n.right
        n.at_right n.at_left in
    (
      closer x n.left n.right,
      nearest-eq x ss n.left n.right n.at_right n.at_left,
      record {
        index = i;
        member = e;
        least = λ k c h. omega (arith, closer-le x n.left n.right, n.nearer k c h);
      },
    )

big_endian-lt : (n : ℕ) (bs : Bytes) → n < wrap → big_endian n bs < wrap
unfolding big_endian
big_endian-lt n [] h = h
big_endian-lt n (b ∷ bs) h = big_endian-lt ((n * 256 + b) % wrap) bs (omega arith)

pubkey_to_swarm_space-lt : (pk : Bytes) → pubkey_to_swarm_space pk < wrap
unfolding pubkey_to_swarm_space
pubkey_to_swarm_space-lt pk =
    big_endian-lt 0 (xor_words 4 pk (0 ∷ 0 ∷ 0 ∷ 0 ∷ 0 ∷ 0 ∷ 0 ∷ 0 ∷ [])) (omega arith)

only_swarm :
    (x : ℕ) (s : Swarm) (k : ℕ) (c : Swarm)
    → get_elem? (s ∷ []) k ≡ some c
    → distance x s.0 ≤ distance x c.0
only_swarm x s zero c h = ground arith
only_swarm x s (suc k) c h = cc h

-- For a key and one or more swarms whose ids ascend and are 64-bit, `get_swarm` returns one of the
-- swarms, and no other has an id nearer to the key's place on the ring of 64-bit numbers, counted
-- the shorter way around.
pub get_swarm_lem :
    (pk : Bytes) (ss : List Swarm)
    → Ascending ss
    → InRange ss
    → 0 < length ss
    → (s : Swarm) × (get_swarm pk ss ≡ some s) × NearestOf (pubkey_to_swarm_space pk) ss s
unfolding get_swarm
get_swarm_lem pk [] a u n = absurd (omega arith)
get_swarm_lem pk (s ∷ []) a u n =
    (s, refl, record { index = 0; member = refl; least = only_swarm (pubkey_to_swarm_space pk) s })
get_swarm_lem pk (s ∷ t ∷ ss) a u n =
    nearest_lem (pubkey_to_swarm_space pk) (s ∷ t ∷ ss)
      (neighbours (pubkey_to_swarm_space pk) (s ∷ t ∷ ss) (pubkey_to_swarm_space-lt pk) a u n)
