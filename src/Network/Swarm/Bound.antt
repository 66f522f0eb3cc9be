-- ===== src/Network/Swarm/Bound.antt =====
-- Indices into a vector of swarms, and what `lower_bound` finds there.
use libbchat_util.Base.{
  ℕ, zero, suc, ◌≤◌, ◌<◌, ◌≡◌, refl, some, List, [], ◌∷◌, arith, inl, inr, ltb, length, get_elem?,
  All, Bool-cases,
}
use libbchat_util.Network.Swarm.{Swarm, wrap, lower_bound}

-- The ids ascend and are 64-bit.
abbrev pub Before : ℕ → List Swarm → Type 0
Before a [] = Unit {0}
Before a (s ∷ ss) = (a < s.0) × Before a ss

abbrev pub Ascending : List Swarm → Type 0
Ascending [] = Unit {0}
Ascending (s ∷ ss) = Before s.0 ss × Ascending ss

abbrev pub InRange : List Swarm → Type 0
InRange = All (λ s. s.0 < wrap)

pub found-Before :
    (a : ℕ) (ss : List Swarm) (k : ℕ) (c : Swarm) → Before a ss → get_elem? ss k ≡ some c → a < c.0
found-Before a [] k c h e = cc e
found-Before a (s ∷ ss) zero c h e = ground arith
found-Before a (s ∷ ss) (suc k) c h e = found-Before a ss k c h.1 e

pub found-InRange :
    (ss : List Swarm) (k : ℕ) (c : Swarm) → InRange ss → get_elem? ss k ≡ some c → c.0 < wrap
found-InRange [] k c h e = cc e
found-InRange (s ∷ ss) zero c h e = ground arith
found-InRange (s ∷ ss) (suc k) c h e = found-InRange ss k c h.1 e

pub Ascending-index :
    (ss : List Swarm) (i k : ℕ) (c d : Swarm)
    → Ascending ss
    → i < k
    → get_elem? ss i ≡ some c
    → get_elem? ss k ≡ some d
    → c.0 < d.0
Ascending-index [] i k c d h l e f = cc e
Ascending-index (s ∷ ss) zero zero c d h l e f = omega arith
Ascending-index (s ∷ ss) zero (suc k) c d h l e f = ground (arith, found-Before s.0 ss k d h.0 f)
Ascending-index (s ∷ ss) (suc i) zero c d h l e f = omega arith
Ascending-index (s ∷ ss) (suc i) (suc k) c d h l e f =
    Ascending-index ss i k c d h.1 (omega arith) e f

pub same_index :
    (ss : List Swarm) (i k : ℕ) (c d : Swarm)
    → i ≡ k
    → get_elem? ss i ≡ some c
    → get_elem? ss k ≡ some d
    → c.0 ≤ d.0
same_index ss i k c d q e f = ground arith

pub Ascending-le :
    (ss : List Swarm) (i k : ℕ) (c d : Swarm)
    → Ascending ss
    → i ≤ k
    → get_elem? ss i ≡ some c
    → get_elem? ss k ≡ some d
    → c.0 ≤ d.0
Ascending-le ss i k c d h l e f = elim (Bool-cases (ltb i k)) [
  | inl b ↦ omega (arith, Ascending-index ss i k c d h (ground arith) e f)
  | inr b ↦ same_index ss i k c d (ground arith) e f
]

pub in_bounds : (ss : List Swarm) (k : ℕ) → k < length ss → (c : Swarm) × (get_elem? ss k ≡ some c)
in_bounds [] k h = absurd (omega arith)
in_bounds (s ∷ ss) zero h = (s, refl)
in_bounds (s ∷ ss) (suc k) h = in_bounds ss k (omega arith)

pub index_of : (ss : List Swarm) (k : ℕ) (c : Swarm) → get_elem? ss k ≡ some c → k < length ss
index_of [] k c h = cc h
index_of (s ∷ ss) zero c h = omega arith
index_of (s ∷ ss) (suc k) c h = omega (arith, index_of ss k c h)

pub lower_bound-le : (x : ℕ) (ss : List Swarm) → lower_bound x ss ≤ length ss
unfolding lower_bound
lower_bound-le x [] = omega arith
lower_bound-le x (s ∷ ss) = ground (arith, lower_bound-le x ss)

pub below_bound :
    (x : ℕ) (ss : List Swarm) (k : ℕ) (c : Swarm)
    → k < lower_bound x ss
    → get_elem? ss k ≡ some c
    → c.0 < x
unfolding lower_bound
below_bound x [] k c h e = cc e
below_bound x (s ∷ ss) zero c h e = ground arith
below_bound x (s ∷ ss) (suc k) c h e = elim (Bool-cases (ltb s.0 x)) [
  | inl b ↦ below_bound x ss k c (ground arith) e
  | inr b ↦ ground arith
]

pub at_bound :
    (x : ℕ) (ss : List Swarm) (k : ℕ) (c : Swarm)
    → Ascending ss
    → lower_bound x ss ≤ k
    → get_elem? ss k ≡ some c
    → x ≤ c.0
unfolding lower_bound
at_bound x [] k c a h e = cc e
at_bound x (s ∷ ss) zero c a h e = ground arith
at_bound x (s ∷ ss) (suc k) c a h e = elim (Bool-cases (ltb s.0 x)) [
  | inl b ↦ at_bound x ss k c a.1 (ground arith) e
  | inr b ↦ ground (arith, found-Before s.0 ss k c a.0 e)
]
