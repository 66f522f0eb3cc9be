-- ===== src/Network/Swarm/Ring.antt =====
-- The ring of 64-bit ids of network/swarm.cpp, and its arithmetic.
use libbchat_util.Base.{ℕ, ◌+◌, ◌-◌, ◌≤◌, ◌<◌, ◌≡◌, min, arith, ◌⊎◌}
use libbchat_util.Network.Swarm.{Swarm, wrap, minus_u64, closer}

-- The wrapped difference, in its two cases.
pub minus_u64-le : (a b : ℕ) → b ≤ a → a < wrap → minus_u64 a b ≡ a - b
unfolding minus_u64
minus_u64-le a b h k = omega arith

pub minus_u64-lt : (a b : ℕ) → a < b → b < wrap → minus_u64 a b ≡ a + wrap - b
unfolding minus_u64
minus_u64-lt a b h k = omega arith

-- How far apart two ids are on the ring, the shorter way.
unfoldable pub distance : ℕ → ℕ → ℕ
distance x id = min (minus_u64 id x) (minus_u64 x id)

-- The nearest of the two neighbours is at least as near as a third id that is not between them.
pub around :
    (x l r c : ℕ)
    → x < wrap
    → l < x
    → x ≤ r
    → r < wrap
    → c < wrap
    → (c ≤ l) ⊎ (r ≤ c)
    → min (minus_u64 r x) (minus_u64 x l) ≤ distance x c
unfolding distance minus_u64
around x l r c hx hl hr kr kc h = omega arith

-- The same when the key comes before the first or behind the last of the ids.
pub around_end :
    (x first last c : ℕ)
    → x < wrap
    → first ≤ c
    → c ≤ last
    → last < wrap
    → (x ≤ first) ⊎ (last < x)
    → min (minus_u64 first x) (minus_u64 x last) ≤ distance x c
unfolding distance minus_u64
around_end x first last c hx h k hl e = omega arith

pub closer-le :
    (x : ℕ) (l r : Swarm) → distance x (closer x l r).0 ≤ min (minus_u64 r.0 x) (minus_u64 x l.0)
unfolding distance
closer-le x l r = ground arith
