-- ===== src/Config/Multipart/Parts.antt =====
-- The list of parts that have come: `place`, and what a full list recombines to.
use libbchat_util.Base.{
  ℕ, suc, ◌<◌, ◌≡◌, refl, Option, none, some, List, [], ◌∷◌, Bool, false, ◌||◌, if◌then◌else◌, ◌==◌,
  ltb, arith, inl, inr, length, get_elem?, All, Bool-cases,
}
use libbchat_util.Base.Order.{Bytes, bytes_order}
use libbchat_util.Config.Multipart.{PartialMessage, PartialMessages, Multiparts, find, store, place}

abbrev pub Later : ℕ → List PartialMessage → Type 0
Later i [] = Unit {0}
Later i (q ∷ qs) = (i < q.index) × Later i qs

abbrev pub InIndexOrder : List PartialMessage → Type 0
InIndexOrder [] = Unit {0}
InIndexOrder (p ∷ ps) = Later p.index ps × InIndexOrder ps

-- Each part holds the chunk of its index.
abbrev pub ChunksOf : List Bytes → List PartialMessage → Type 0
ChunksOf cs = All (λ p. get_elem? cs p.index ≡ some p.data_)

unfoldable pub has_index : ℕ → List PartialMessage → Bool
has_index i [] = false
has_index i (p ∷ ps) = i == p.index || has_index i ps

-- The id of the message that brought the part of an index.
unfoldable pub id_at : ℕ → List PartialMessage → Option Bytes
id_at i [] = none
id_at i (p ∷ ps) = if i == p.index then some p.message_id else id_at i ps

pub id_at-none : (i : ℕ) (ps : List PartialMessage) → has_index i ps ≡ false → id_at i ps ≡ none
unfolding id_at has_index
id_at-none i [] h = refl
id_at-none i (p ∷ ps) h = ground (arith, id_at-none i ps)

-- What placing a new part gives.
pub record Placed (cs : List Bytes) (p : PartialMessage) (ps : List PartialMessage) : Type 0 where
  pub result : List PartialMessage
  pub returned : place p ps ≡ some result
  pub grown : length result ≡ suc (length ps)
  pub ordered : InIndexOrder result
  pub chunked : ChunksOf cs result
  pub indices : (i : ℕ) → has_index i result ≡ (i == p.index || has_index i ps)
  pub ids : (i : ℕ) → id_at i result ≡ (if i == p.index then some p.message_id else id_at i ps)
  pub later : (i : ℕ) → i < p.index → Later i ps → Later i result

Later-trans : (i j : ℕ) (ps : List PartialMessage) → i < j → Later j ps → Later i ps
Later-trans i j [] h k = tt
Later-trans i j (p ∷ ps) h k = (omega arith, Later-trans i j ps h k.1)

place-first :
    (p q : PartialMessage) (qs : List PartialMessage)
    → p.index < q.index
    → place p (q ∷ qs) ≡ some (p ∷ q ∷ qs)
unfolding place
place-first p q qs h = ground arith

place-behind :
    (p q : PartialMessage) (qs rs : List PartialMessage)
    → q.index < p.index
    → place p qs ≡ some rs
    → place p (q ∷ qs) ≡ some (q ∷ rs)
unfolding place
place-behind p q qs rs h k = rw k (ground arith)

strictly :
    (p q : PartialMessage) (qs : List PartialMessage)
    → ltb q.index p.index ≡ false
    → has_index p.index (q ∷ qs) ≡ false
    → p.index < q.index
unfolding has_index
strictly p q qs b f = ground arith

pub place-Placed :
    (cs : List Bytes) (p : PartialMessage) (ps : List PartialMessage)
    → InIndexOrder ps
    → ChunksOf cs ps
    → get_elem? cs p.index ≡ some p.data_
    → has_index p.index ps ≡ false
    → Placed cs p ps
unfolding has_index place id_at
place-Placed cs p [] o c g f = record {
  result = p ∷ [];
  returned = refl;
  grown = refl;
  ordered = (tt, tt);
  chunked = (g, tt);
  indices = λ i. refl;
  ids = λ i. refl;
  later = λ i h k. (h, tt);
}
place-Placed cs p (q ∷ qs) o c g f = elim (Bool-cases (ltb q.index p.index)) [
  | inl b ↦
      let r = place-Placed cs p qs o.1 c.1 g (ground arith) in
      record {
        result = q ∷ r.result;
        returned = place-behind p q qs r.result (ground arith) r.returned;
        grown = omega (arith, r.grown);
        ordered = (r.later q.index (ground arith) o.0, r.ordered);
        chunked = (c.0, r.chunked);
        indices = λ i. ground (arith, r.indices i);
        ids = λ i. ground (arith, r.ids i);
        later = λ i h k. (k.0, r.later i h k.1);
      }
  | inr b ↦
      let less = strictly p q qs b f in
      record {
        result = p ∷ q ∷ qs;
        returned = place-first p q qs less;
        grown = refl;
        ordered = ((less, Later-trans p.index q.index qs less o.0), o);
        chunked = (g, c);
        indices = λ i. refl;
        ids = λ i. refl;
        later = λ i h k. (h, k);
      }
]

pub find-store : (h : Bytes) (p : PartialMessages) (m : Multiparts) → find h (store h p m) ≡ p
unfolding find store
find-store h p [] = ground (arith, bytes_order.cmp_refl h)
find-store h p ((k, q) ∷ m) = ground (arith, find-store h p m)
