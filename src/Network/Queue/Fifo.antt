-- ===== src/Network/Queue/Fifo.antt =====
-- The order in which `pop_all` gives the requests back.
use libbchat_util.Base.{
  ◌≡◌, refl, none, some, List, [], ◌∷◌, ◌++◌, true, false, arith, ap, ◌∙◌, subst, sym, inl, inr,
  Bool-cases, Option-cases,
}
use libbchat_util.Base.Order.{Bytes, same, bytes_order}
use libbchat_util.Network.Queue.{
  Request, Entry, RequestQueue, find, erase, emplace, make, popped, schedule, reset_timeout,
  update_timeout, deadline, leads, emplace_hint, add, add_front, pop_all,
}
use libbchat_util.Network.Queue.Pending.{same_refl, same_swap, eq_of_same, find-erase, erase_absent}
use libbchat_util.Network.Queue.Valid.{IsValid, in_queue, with_entry}
use libbchat_util.Network.Queue.Timeouts.{OneOf, OneOf-there}

-- One id of the queue that is pending, and one that is not.
popped-some :
    (id : Bytes) (ids : List Bytes) (rs : List (Bytes × Entry)) (p : Entry)
    → find id rs ≡ some p
    → popped (id ∷ ids) rs ≡ p ∷ popped ids (erase id rs)
unfolding popped
popped-some id ids rs p h = rw (h, popped) refl

popped-none :
    (id : Bytes) (ids : List Bytes) (rs : List (Bytes × Entry))
    → find id rs ≡ none
    → popped (id ∷ ids) rs ≡ popped ids rs
unfolding popped
popped-none id ids rs h = rw (h, popped) refl

find_head : (id : Bytes) (p : Entry) (rs : List (Bytes × Entry)) → find id ((id, p) ∷ rs) ≡ some p
unfolding find
find_head id p rs = rw (same_refl id) refl

find_past :
    (id k : Bytes) (p : Entry) (rs : List (Bytes × Entry))
    → same k id ≡ false
    → find k ((id, p) ∷ rs) ≡ find k rs
unfolding find
find_past id k p rs h = rw h refl

erase_past :
    (id k : Bytes) (p : Entry) (rs : List (Bytes × Entry))
    → same k id ≡ false
    → erase k ((id, p) ∷ rs) ≡ (id, p) ∷ erase k rs
unfolding erase
erase_past id k p rs h = rw h refl

erase_head :
    (id : Bytes) (p : Entry) (rs : List (Bytes × Entry))
    → find id rs ≡ none
    → erase id ((id, p) ∷ rs) ≡ rs
unfolding erase
erase_head id p rs h = rw (same_refl id) (erase_absent id rs h)

not_first : (id k : Bytes) (ks : List Bytes) → in_queue id (k ∷ ks) ≡ false → same k id ≡ false
unfolding in_queue
not_first id k ks h = ground (arith, same_swap id k)

not_rest : (id k : Bytes) (ks : List Bytes) → in_queue id (k ∷ ks) ≡ false → in_queue id ks ≡ false
unfolding in_queue
not_rest id k ks h = ground arith

popped-snoc :
    (id : Bytes) (p : Entry) (ids : List Bytes) (rs : List (Bytes × Entry))
    → in_queue id ids ≡ false
    → popped (ids ++ id ∷ []) ((id, p) ∷ rs) ≡ popped ids rs ++ p ∷ []
unfolding popped
popped-snoc id p [] rs h = popped-some id [] ((id, p) ∷ rs) p (find_head id p rs)
popped-snoc id p (k ∷ ks) rs h =
    let other = not_first id k ks h in
    let rest = not_rest id k ks h in
    elim (Option-cases (find k rs)) [
      | inl e ↦
          popped-none k (ks ++ id ∷ []) ((id, p) ∷ rs) (find_past id k p rs other ∙ e)
          ∙ popped-snoc id p ks rs rest
          ∙ ap (λ x. x ++ p ∷ []) (sym (popped-none k ks rs e))
      | inr (r, e) ↦
          popped-some k (ks ++ id ∷ []) ((id, p) ∷ rs) r (find_past id k p rs other ∙ e)
          ∙ ap (λ x. r ∷ popped (ks ++ id ∷ []) x) (erase_past id k p rs other)
          ∙ ap (λ x. r ∷ x) (popped-snoc id p ks (erase k rs) rest)
          ∙ ap (λ x. x ++ p ∷ []) (sym (popped-some k ks rs r e))
    ]

-- Scheduling touches neither the queue nor the pending requests.
queue-schedule :
    (r : Request) (q : RequestQueue)
    → ((schedule r q).queue ≡ q.queue) × ((schedule r q).requests ≡ q.requests)
unfolding schedule reset_timeout update_timeout
queue-schedule r q = elim (Option-cases (deadline r)) [
  | inl d ↦ rw (d, schedule) (refl, refl)
  | inr (e, d) ↦
      elim (Bool-cases (leads r.request_id (emplace_hint e r.request_id q.req_expiries))) [
        | inl l ↦ rw (d, schedule, l, reset_timeout) (refl, refl)
        | inr l ↦ rw (d, schedule, l, reset_timeout) (refl, refl)
      ]
]

emplace_new :
    (id : Bytes) (p : Entry) (rs : List (Bytes × Entry))
    → find id rs ≡ none
    → emplace id p rs ≡ (id, p) ∷ rs
unfolding emplace
emplace_new id p rs h = rw (h, emplace) refl

-- On a valid queue, an id that is not queued is not pending.
not_pending :
    (id : Bytes) (q : RequestQueue)
    → IsValid q
    → in_queue id q.queue ≡ false
    → find id q.requests ≡ none
not_pending id q v h = elim (Option-cases (find id q.requests)) [
  | inl e ↦ e
  | inr (p, e) ↦ cc (h, v.queued id p e)
]

popped-schedule :
    (r : Request) (q : RequestQueue)
    → popped (schedule r q).queue (schedule r q).requests ≡ popped q.queue q.requests
popped-schedule r q = rw ((queue-schedule r q).0, (queue-schedule r q).1) refl

-- On a valid queue that does not hold the id of a request, adding the request makes `pop_all` give
-- it back last, adding it in front makes `pop_all` give it back first, and the others come in the
-- order that they had.
pub pop_all-add :
    (p : Entry) (q : RequestQueue)
    → IsValid q
    → in_queue (p.0).request_id q.queue ≡ false
    → ((pop_all (add p q)).0 ≡ (pop_all q).0 ++ p ∷ [])
      × ((pop_all (add_front p q)).0 ≡ p ∷ (pop_all q).0)
unfolding pop_all add add_front
pop_all-add p q v h =
    let id = (p.0).request_id in
    let fresh = not_pending id q v h in
    let new = emplace_new id p q.requests fresh in
    (
      popped-schedule p.0 (with_entry p (q.queue ++ id ∷ []) q)
          ∙ ap (popped (q.queue ++ id ∷ [])) new
          ∙ popped-snoc id p q.queue q.requests h,
      popped-schedule p.0 (with_entry p (id ∷ q.queue) q)
          ∙ ap (popped (id ∷ q.queue)) new
          ∙ popped-some id q.queue ((id, p) ∷ q.requests) p (find_head id p q.requests)
          ∙ ap (λ x. p ∷ popped q.queue x) (erase_head id p q.requests fresh),
    )

popped_pending :
    (ids : List Bytes) (rs : List (Bytes × Entry)) (id : Bytes) (p : Entry)
    → in_queue id ids ≡ true
    → find id rs ≡ some p
    → OneOf p (popped ids rs)
unfolding in_queue
popped_pending [] rs id p h k = cc h
popped_pending (j ∷ js) rs id p h k = elim (Bool-cases (same id j)) [
  | inl e ↦ (
    [],
    popped js (erase j rs),
    popped-some j js rs p (subst (λ x. find x rs ≡ some p) (eq_of_same id j e) k),
  )
  | inr e ↦ elim (Option-cases (find j rs)) [
    | inl f ↦
        subst (OneOf p) (sym (popped-none j js rs f)) (popped_pending js rs id p (ground arith) k)
    | inr (r, f) ↦ subst (OneOf p) (sym (popped-some j js rs r f)) (
        OneOf-there p r (popped js (erase j rs)) (
          popped_pending js (erase j rs) id p (ground arith)
            (find-erase id j rs (same_swap id j e) ∙ k)))
  ]
]

-- On a valid queue, `pop_all` gives back every pending request and leaves a new queue.
pub pop_all_lem :
    (q : RequestQueue)
    → IsValid q
    → ((id : Bytes) (p : Entry) → find id q.requests ≡ some p → OneOf p (pop_all q).0)
      × ((pop_all q).1 ≡ make)
unfolding pop_all update_timeout
pop_all_lem q v = ((λ id p h. popped_pending q.queue q.requests id p (v.queued id p h) h), refl)
