-- ===== src/Network/Queue/Pending.antt =====
-- The map of pending requests: what `erase` and `emplace` leave to be found.
use libbchat_util.Base.{
  ◌≡◌, refl, none, some, List, [], ◌∷◌, true, false, arith, ◌⊎◌, inl, inr, Bool-cases, Option-cases,
}
use libbchat_util.Base.Order.{Bytes, same, bytes_order}
use libbchat_util.Network.Queue.{Entry, find, erase, emplace}

pub same_refl : (a : Bytes) → same a a ≡ true
same_refl a = ground (arith, bytes_order.cmp_refl a)

pub eq_of_same : (a b : Bytes) → same a b ≡ true → a ≡ b
eq_of_same a b h = ground (arith, bytes_order.eq_of_cmp a b)

pub same_swap : (a b : Bytes) → same a b ≡ false → same b a ≡ false
same_swap a b h = elim (Bool-cases (same b a)) [
  | inr e ↦ e
  | inl e ↦ cc (h, same_refl a, eq_of_same b a e)
]

pub find-erase :
    (id k : Bytes) (rs : List (Bytes × Entry))
    → same k id ≡ false
    → find id (erase k rs) ≡ find id rs
unfolding find erase
find-erase id k [] h = refl
find-erase id k ((j, p) ∷ rs) h =
    ground (arith, find-erase id k rs h, eq_of_same k j, same_swap k id h)

pub find_erased : (id : Bytes) (rs : List (Bytes × Entry)) → find id (erase id rs) ≡ none
unfolding find erase
find_erased id [] = refl
find_erased id ((j, p) ∷ rs) = ground (arith, find_erased id rs)

-- What is found after an erasure was there before, under another id.
pub found-erase :
    (id k : Bytes) (rs : List (Bytes × Entry)) (p : Entry)
    → find id (erase k rs) ≡ some p
    → (find id rs ≡ some p) × (same k id ≡ false)
found-erase id k rs p h = elim (Bool-cases (same k id)) [
  | inr e ↦ (cc (h, find-erase id k rs e), e)
  | inl e ↦ cc (h, find_erased id rs, eq_of_same k id e)
]

pub erase_absent : (id : Bytes) (rs : List (Bytes × Entry)) → find id rs ≡ none → erase id rs ≡ rs
unfolding find erase
erase_absent id [] h = refl
erase_absent id ((j, p) ∷ rs) h = ground (arith, erase_absent id rs)

-- What is found after an emplacement was there before, or is the new entry.
pub found-emplace :
    (id k : Bytes) (p q : Entry) (rs : List (Bytes × Entry))
    → find id (emplace k q rs) ≡ some p
    → (find id rs ≡ some p) ⊎ ((id ≡ k) × (p ≡ q) × (find k rs ≡ none))
unfolding find emplace
found-emplace id k p q rs h = elim (Option-cases (find k rs)) [
  | inr (old, e) ↦ inl (ground arith)
  | inl e ↦ elim (Bool-cases (same id k)) [
    | inl f ↦ inr (eq_of_same id k f, ground arith, e)
    | inr f ↦ inl (ground arith)
  ]
]
