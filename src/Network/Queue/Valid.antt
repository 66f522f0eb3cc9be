-- ===== src/Network/Queue/Valid.antt =====
-- The invariant of the queue, and that every operation keeps it.
use libbchat_util.Base.{
  ℕ, ◌≡◌, ◌≤◌, refl, Option, none, some, List, [], ◌∷◌, ◌++◌, Bool, true, false, arith, subst, inl,
  inr, ◌||◌, ◌&&◌, ◌==◌, ltb, Bool-cases, Option-cases,
}
use libbchat_util.Base.Order.{Bytes, same, bytes_order}
use libbchat_util.Network.Queue.{
  Entry, RequestQueue, find, emplace, emplace_hint, first_expiry, update_timeout, leads, deadline,
  reset_timeout, schedule, add, add_front, pop_all, make,
}
use libbchat_util.Network.Queue.Pending.{same_refl, found-emplace}

unfoldable pub in_queue : Bytes → List Bytes → Bool
in_queue id [] = false
in_queue id (k ∷ ks) = same id k || in_queue id ks

unfoldable pub listed : ℕ → Bytes → List (ℕ × Bytes) → Bool
listed e id [] = false
listed e id ((f, k) ∷ xs) = (e == f && same id k) || listed e id xs

abbrev pub NotBefore : ℕ → List (ℕ × Bytes) → Type 0
NotBefore a [] = Unit {0}
NotBefore a ((e, k) ∷ xs) = (a ≤ e) × NotBefore a xs

abbrev pub InOrder : List (ℕ × Bytes) → Type 0
InOrder [] = Unit {0}
InOrder ((e, k) ∷ xs) = NotBefore e xs × InOrder xs

-- A pending request is in the queue, and its deadline among the expiries, which are in order; the
-- timer is set to the first of them.
pub record IsValid (q : RequestQueue) : Type 0 where
  pub ordered : InOrder q.req_expiries
  pub timed : q.timeout ≡ first_expiry q.req_expiries
  pub queued : (id : Bytes) (p : Entry) → find id q.requests ≡ some p → in_queue id q.queue ≡ true
  pub expires :
      (id : Bytes) (p : Entry) (e : ℕ)
      → find id q.requests ≡ some p
      → deadline p.0 ≡ some e
      → listed e id q.req_expiries ≡ true

pub NotBefore-trans : (a b : ℕ) (xs : List (ℕ × Bytes)) → a ≤ b → NotBefore b xs → NotBefore a xs
NotBefore-trans a b [] h k = tt
NotBefore-trans a b ((e, id) ∷ xs) h k = (omega arith, NotBefore-trans a b xs h k.1)

NotBefore-emplace_hint :
    (a e : ℕ) (id : Bytes) (xs : List (ℕ × Bytes))
    → a ≤ e
    → NotBefore a xs
    → NotBefore a (emplace_hint e id xs)
unfolding emplace_hint
NotBefore-emplace_hint a e id [] h k = (h, tt)
NotBefore-emplace_hint a e id ((f, j) ∷ xs) h k = elim (Bool-cases (ltb e f)) [
  | inl c ↦ rw c (h, k)
  | inr c ↦ rw c (k.0, NotBefore-emplace_hint a e id xs h k.1)
]

pub InOrder-emplace_hint :
    (e : ℕ) (id : Bytes) (xs : List (ℕ × Bytes)) → InOrder xs → InOrder (emplace_hint e id xs)
unfolding emplace_hint
InOrder-emplace_hint e id [] h = (tt, tt)
InOrder-emplace_hint e id ((f, j) ∷ xs) h = elim (Bool-cases (ltb e f)) [
  | inl c ↦ rw c ((ground arith, NotBefore-trans e f xs (ground arith) h.0), h)
  | inr c ↦
      rw c (NotBefore-emplace_hint f e id xs (ground arith) h.0, InOrder-emplace_hint e id xs h.1)
]

pub listed_there :
    (e : ℕ) (id : Bytes) (xs : List (ℕ × Bytes)) → listed e id (emplace_hint e id xs) ≡ true
unfolding emplace_hint listed
listed_there e id [] = ground (arith, same_refl id)
listed_there e id ((f, j) ∷ xs) = ground (arith, same_refl id, listed_there e id xs)

pub listed-emplace_hint :
    (a e : ℕ) (id k : Bytes) (xs : List (ℕ × Bytes))
    → listed a k xs ≡ true
    → listed a k (emplace_hint e id xs) ≡ true
unfolding emplace_hint listed
listed-emplace_hint a e id k [] h = ground arith
listed-emplace_hint a e id k ((f, j) ∷ xs) h = ground (arith, listed-emplace_hint a e id k xs)

-- The timer is right again, whether the new expiry leads or not.
timed-reset_timeout :
    (e : ℕ) (id : Bytes) (t : Option ℕ) (xs : List (ℕ × Bytes))
    → t ≡ first_expiry xs
    → leads id (emplace_hint e id xs) ≡ false
    → t ≡ first_expiry (emplace_hint e id xs)
unfolding emplace_hint
timed-reset_timeout e id t [] h k = cc (k, same_refl id)
timed-reset_timeout e id t ((f, j) ∷ xs) h k = elim (Bool-cases (ltb e f)) [
  | inl c ↦ ground (arith, same_refl id)
  | inr c ↦ rw c h
]

-- A new entry with its place in the queue, before its expiry is scheduled.
abbrev pub with_entry : Entry → List Bytes → RequestQueue → RequestQueue
with_entry p ids q = record q { requests = emplace (p.0).request_id p q.requests; queue = ids }

queued-with_entry :
    (p : Entry) (ids : List Bytes) (q : RequestQueue)
    → IsValid q
    → ((id : Bytes) → in_queue id q.queue ≡ true → in_queue id ids ≡ true)
    → in_queue (p.0).request_id ids ≡ true
    → (id : Bytes) (r : Entry) → find id (emplace (p.0).request_id p q.requests) ≡ some r
    → in_queue id ids ≡ true
queued-with_entry p ids q v keep there id r h =
    elim (found-emplace id (p.0).request_id r p q.requests h) [
      | inl e ↦ keep id (v.queued id r e)
      | inr (e, f, g) ↦ rw e there
    ]

expires-with_entry :
    (p : Entry) (q : RequestQueue) (xs : List (ℕ × Bytes))
    → IsValid q
    → ((e : ℕ) (id : Bytes) → listed e id q.req_expiries ≡ true → listed e id xs ≡ true)
    → ((e : ℕ) → deadline p.0 ≡ some e → listed e (p.0).request_id xs ≡ true)
    → (id : Bytes) (r : Entry) (e : ℕ) → find id (emplace (p.0).request_id p q.requests) ≡ some r
    → deadline r.0 ≡ some e
    → listed e id xs ≡ true
expires-with_entry p q xs v keep there id r e h d =
    elim (found-emplace id (p.0).request_id r p q.requests h) [
      | inl f ↦ keep e id (v.expires id r e f d)
      | inr (f, g, _) ↦ rw f (there e (subst (λ x. deadline x.0 ≡ some e) g d))
    ]

untimed-IsValid :
    (p : Entry) (ids : List Bytes) (q : RequestQueue)
    → IsValid q
    → ((id : Bytes) → in_queue id q.queue ≡ true → in_queue id ids ≡ true)
    → in_queue (p.0).request_id ids ≡ true
    → deadline p.0 ≡ none
    → IsValid (with_entry p ids q)
untimed-IsValid p ids q v keep there d = record {
  ordered = v.ordered;
  timed = v.timed;
  queued = queued-with_entry p ids q v keep there;
  expires = expires-with_entry p q q.req_expiries v (λ e id h. h) (λ e h. cc (h, d));
}

timed-IsValid :
    (p : Entry) (ids : List Bytes) (q : RequestQueue) (e : ℕ)
    → IsValid q
    → ((id : Bytes) → in_queue id q.queue ≡ true → in_queue id ids ≡ true)
    → in_queue (p.0).request_id ids ≡ true
    → deadline p.0 ≡ some e
    → (t : Option ℕ) → t ≡ first_expiry (emplace_hint e (p.0).request_id q.req_expiries)
    → IsValid (record (with_entry p ids q) {
      req_expiries = emplace_hint e (p.0).request_id q.req_expiries;
      timeout = t;
    })
timed-IsValid p ids q e v keep there d t h = record {
  ordered = InOrder-emplace_hint e (p.0).request_id q.req_expiries v.ordered;
  timed = h;
  queued = queued-with_entry p ids q v keep there;
  expires =
      expires-with_entry p q (emplace_hint e (p.0).request_id q.req_expiries) v
        (λ a id k. listed-emplace_hint a e (p.0).request_id id q.req_expiries k)
        (λ a k. ground (arith, listed_there e (p.0).request_id q.req_expiries));
}

scheduled-IsValid :
    (p : Entry) (ids : List Bytes) (q : RequestQueue)
    → IsValid q
    → ((id : Bytes) → in_queue id q.queue ≡ true → in_queue id ids ≡ true)
    → in_queue (p.0).request_id ids ≡ true
    → IsValid (schedule p.0 (with_entry p ids q))
unfolding schedule reset_timeout update_timeout
scheduled-IsValid p ids q v keep there = elim (Option-cases (deadline p.0)) [
  | inl d ↦ rw (d, schedule) (untimed-IsValid p ids q v keep there d)
  | inr (e, d) ↦
      elim (Bool-cases (leads (p.0).request_id (emplace_hint e (p.0).request_id q.req_expiries))) [
        | inl l ↦ rw (d, schedule, l, reset_timeout) (timed-IsValid p ids q e v keep there d _ refl)
        | inr l ↦
            rw (d, schedule, l, reset_timeout)
              (timed-IsValid p ids q e v keep there d q.timeout
                (timed-reset_timeout e (p.0).request_id q.timeout q.req_expiries v.timed l))
      ]
]

in_queue_self : (id : Bytes) (ks : List Bytes) → in_queue id (id ∷ ks) ≡ true
unfolding in_queue
in_queue_self id ks = ground (arith, same_refl id)

in_queue-append :
    (id : Bytes) (ks ls : List Bytes) → in_queue id (ks ++ ls) ≡ (in_queue id ks || in_queue id ls)
unfolding in_queue
in_queue-append id [] ls = refl
in_queue-append id (k ∷ ks) ls = ground (arith, in_queue-append id ks ls)

pub add-IsValid : (p : Entry) (q : RequestQueue) → IsValid q → IsValid (add p q)
unfolding add
add-IsValid p q v =
    scheduled-IsValid p (q.queue ++ (p.0).request_id ∷ []) q v
      (λ id h. ground (arith, in_queue-append id q.queue ((p.0).request_id ∷ [])))
      (ground (
        arith,
        in_queue-append (p.0).request_id q.queue ((p.0).request_id ∷ []),
        in_queue_self (p.0).request_id [],
      ))

in_queue_later :
    (id k : Bytes) (ks : List Bytes) → in_queue id ks ≡ true → in_queue id (k ∷ ks) ≡ true
unfolding in_queue
in_queue_later id k ks h = ground arith

pub add_front-IsValid : (p : Entry) (q : RequestQueue) → IsValid q → IsValid (add_front p q)
unfolding add_front
add_front-IsValid p q v =
    scheduled-IsValid p ((p.0).request_id ∷ q.queue) q v
      (λ id h. in_queue_later id (p.0).request_id q.queue h)
      (in_queue_self (p.0).request_id q.queue)

-- A queue with nothing pending and no expiry.
none_found : (id : Bytes) (r : Entry) → ¬ (find id [] ≡ some r)
unfolding find
none_found id r h = cc h

pub make-IsValid : IsValid make
make-IsValid = record {
  ordered = tt;
  timed = refl;
  queued = λ id r h. absurd (none_found id r h);
  expires = λ id r e h d. absurd (none_found id r h);
}

pub pop_all-IsValid : (q : RequestQueue) → IsValid (pop_all q).1
unfolding pop_all update_timeout
pop_all-IsValid q = make-IsValid
