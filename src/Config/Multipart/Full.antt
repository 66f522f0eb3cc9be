-- ===== src/Config/Multipart/Full.antt =====
-- A full list of parts: what it recombines to, and the ids of its messages.
use libbchat_util.Base.{
  ℕ, zero, suc, ◌+◌, ◌-◌, ◌≤◌, ◌<◌, ◌≡◌, refl, sym, ap, ◌∙◌, subst, Option, some, List, [], ◌∷◌,
  ◌++◌, true, false, map, if◌then◌else◌, ◌==◌, arith, inl, inr, length, get_elem?, All, Bool-cases,
}
use libbchat_util.Base.Order.{Bytes, bytes_order}
use libbchat_util.Config.Multipart.{PartialMessage, recombine}
use libbchat_util.Config.Multipart.Parts.{Later, InIndexOrder, ChunksOf, id_at}

-- All the chunks, joined.
unfoldable pub join : List Bytes → Bytes
join [] = []
join (c ∷ cs) = c ++ join cs

-- Parts in order from an index on, each with the chunk of its index.
abbrev pub Shifted : ℕ → List Bytes → List PartialMessage → Type 0
Shifted a cs = All (λ p. (a ≤ p.index) × (get_elem? cs (p.index - a) ≡ some p.data_))

minus_zero : (i : ℕ) → i ≡ i - 0
minus_zero i = omega arith

ChunksOf-Shifted : (cs : List Bytes) (ps : List PartialMessage) → ChunksOf cs ps → Shifted 0 cs ps
ChunksOf-Shifted cs [] h = tt
ChunksOf-Shifted cs (p ∷ ps) h = (
  (omega arith, subst (λ i. get_elem? cs i ≡ some p.data_) (minus_zero p.index) h.0),
  ChunksOf-Shifted cs ps h.1,
)

get_elem?-bound : (cs : List Bytes) (i : ℕ) (c : Bytes) → get_elem? cs i ≡ some c → i < length cs
get_elem?-bound [] i c h = cc h
get_elem?-bound (d ∷ ds) zero c h = omega arith
get_elem?-bound (d ∷ ds) (suc i) c h = omega (arith, get_elem?-bound ds i c h)

-- Indices that ascend from b on take as many values as there are parts.
room :
    (a b : ℕ) (cs : List Bytes) (ps : List PartialMessage)
    → b ≤ a + length cs
    → Later b ps
    → InIndexOrder ps
    → Shifted a cs ps
    → b < a + length cs
    → b + length ps < a + length cs
room a b cs [] h l o s k = omega arith
room a b cs (p ∷ ps) h l o s k =
    let bound = get_elem?-bound cs (p.index - a) p.data_ s.0.1 in
    omega (arith, room a p.index cs ps (omega arith) o.0 o.1 s.1 (omega arith))

no_step : (i a : ℕ) → i ≡ a → i - a ≡ 0
no_step i a h = omega arith

step_back : (i a : ℕ) → a < i → i - a ≡ suc (i - suc a)
step_back i a h = omega arith

get_elem?-tail :
    (c : Bytes) (cs : List Bytes) (i a : ℕ) (d : Bytes)
    → a < i
    → get_elem? (c ∷ cs) (i - a) ≡ some d
    → get_elem? cs (i - suc a) ≡ some d
get_elem?-tail c cs i a d h e = subst (λ k. get_elem? (c ∷ cs) k ≡ some d) (step_back i a h) e

Shifted-tail :
    (a : ℕ) (c : Bytes) (cs : List Bytes) (ps : List PartialMessage)
    → Later a ps
    → Shifted a (c ∷ cs) ps
    → Shifted (suc a) cs ps
Shifted-tail a c cs [] l s = tt
Shifted-tail a c cs (p ∷ ps) l s =
    ((omega arith, get_elem?-tail c cs p.index a p.data_ l.0 s.0.1), Shifted-tail a c cs ps l.1 s.1)

first_index :
    (a : ℕ) (c : Bytes) (cs : List Bytes) (p : PartialMessage) (ps : List PartialMessage)
    → length (p ∷ ps) ≡ length (c ∷ cs)
    → InIndexOrder (p ∷ ps)
    → Shifted a (c ∷ cs) (p ∷ ps)
    → p.index ≡ a
first_index a c cs p ps n o s =
    let bound = get_elem?-bound (c ∷ cs) (p.index - a) p.data_ s.0.1 in
    omega (arith, room a p.index (c ∷ cs) ps (omega arith) o.0 o.1 s.1 (omega arith))

first_chunk :
    (a : ℕ) (c : Bytes) (cs : List Bytes) (p : PartialMessage)
    → p.index ≡ a
    → get_elem? (c ∷ cs) (p.index - a) ≡ some p.data_
    → p.data_ ≡ c
first_chunk a c cs p h e =
    cc (subst (λ k. get_elem? (c ∷ cs) k ≡ some p.data_) (no_step p.index a h) e)

recombine-Shifted :
    (a : ℕ) (cs : List Bytes) (ps : List PartialMessage)
    → length ps ≡ length cs
    → InIndexOrder ps
    → Shifted a cs ps
    → recombine ps ≡ join cs
unfolding recombine join
recombine-Shifted a [] [] n o s = refl
recombine-Shifted a [] (p ∷ ps) n o s = absurd (omega arith)
recombine-Shifted a (c ∷ cs) [] n o s = absurd (omega arith)
recombine-Shifted a (c ∷ cs) (p ∷ ps) n o s =
    let bound = get_elem?-bound (c ∷ cs) (p.index - a) p.data_ s.0.1 in
    let first = first_index a c cs p ps n o s in
    rw
      (
        first_chunk a c cs p first s.0.1,
        recombine-Shifted (suc a) cs ps (omega arith) o.1
            (Shifted-tail a c cs ps (subst (λ i. Later i ps) first o.0) s.1),
      )
      refl

pub recombine_full :
    (cs : List Bytes) (ps : List PartialMessage)
    → length ps ≡ length cs
    → InIndexOrder ps
    → ChunksOf cs ps
    → recombine ps ≡ join cs
recombine_full cs ps n o c = recombine-Shifted 0 cs ps n o (ChunksOf-Shifted cs ps c)

-- Of a full list, the ids are in the order of the indices.
ids-Shifted :
    (a : ℕ) (cs : List Bytes) (ps : List PartialMessage)
    → length ps ≡ length cs
    → InIndexOrder ps
    → Shifted a cs ps
    → (i : ℕ) → a ≤ i
    → get_elem? (map (λ q. q.message_id) ps) (i - a) ≡ id_at i ps
unfolding id_at
ids-Shifted a [] [] n o s i h = refl
ids-Shifted a [] (p ∷ ps) n o s i h = absurd (omega arith)
ids-Shifted a (c ∷ cs) [] n o s i h = refl
ids-Shifted a (c ∷ cs) (p ∷ ps) n o s i h =
    let first = first_index a c cs p ps n o s in
    elim (Bool-cases (i == p.index)) [
      | inl e ↦
          ap (get_elem? (map (λ q. q.message_id) (p ∷ ps))) (no_step i a (here first e))
          ∙ sym (chosen p.message_id (id_at i ps) e)
      | inr e ↦
          let further = beyond first e in
          ap (get_elem? (map (λ q. q.message_id) (p ∷ ps))) (step_back i a further)
          ∙ ids-Shifted (suc a) cs ps (omega arith) o.1
              (Shifted-tail a c cs ps (subst (λ i. Later i ps) first o.0) s.1) i (omega arith)
          ∙ sym (passed p.message_id (id_at i ps) e)
    ]
  where
    here : p.index ≡ a → (i == p.index) ≡ true → i ≡ a
    here f e = ground arith

    beyond : p.index ≡ a → (i == p.index) ≡ false → a < i
    beyond f e = ground arith

    chosen :
        (x : Bytes) (y : Option Bytes)
        → (i == p.index) ≡ true
        → (if i == p.index then some x else y) ≡ some x
    chosen x y e = rw e refl

    passed :
        (x : Bytes) (y : Option Bytes)
        → (i == p.index) ≡ false
        → (if i == p.index then some x else y) ≡ y
    passed x y e = rw e refl

pub ids_full :
    (cs : List Bytes) (ps : List PartialMessage)
    → length ps ≡ length cs
    → InIndexOrder ps
    → ChunksOf cs ps
    → (i : ℕ) → get_elem? (map (λ q. q.message_id) ps) i ≡ id_at i ps
ids_full cs ps n o c i =
    ap (get_elem? (map (λ q. q.message_id) ps)) (minus_zero i)
    ∙ ids-Shifted 0 cs ps n o (ChunksOf-Shifted cs ps c) i (omega arith)
