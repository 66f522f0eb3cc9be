-- ===== src/Network/Queue/Timeouts.antt =====
-- What `check_timeouts` answers and what it leaves pending.
use libbchat_util.Base.{
  ℕ, ◌≡◌, ◌<◌, refl, Option, none, some, List, [], ◌∷◌, ◌++◌, true, false, arith, subst, sym, ap,
  ◌⊎◌, inl, inr, Bool-cases, map,
}
use libbchat_util.Base.Order.{Bytes, same, bytes_order}
use libbchat_util.Network.Queue.{
  Entry, RequestQueue, find, erase, update_timeout, deadline, is_due, Due, with_expired, take_due,
  build_timeout, check_timeouts, on_timeout,
}
use libbchat_util.Network.Queue.Pending.{same_refl, eq_of_same, found-erase, find-erase, same_swap}
use libbchat_util.Network.Queue.Valid.{IsValid, InOrder, NotBefore, listed}

-- The entry is one of the list.
abbrev pub OneOf : Entry → List Entry → Type 0
OneOf p ps = (before : List Entry) × (after : List Entry) × (ps ≡ before ++ p ∷ after)

-- The first due expiry and the rest of the loop.
take_due-due :
    (now : Option ℕ) (e : ℕ) (id : Bytes) (xs : List (ℕ × Bytes)) (rs : List (Bytes × Entry))
    → is_due now e ≡ true
    → take_due now ((e, id) ∷ xs) rs ≡ with_expired (find id rs) (take_due now xs (erase id rs))
unfolding take_due
take_due-due now e id xs rs h = rw h refl

take_due-later :
    (now : Option ℕ) (e : ℕ) (id : Bytes) (xs : List (ℕ × Bytes)) (rs : List (Bytes × Entry))
    → is_due now e ≡ false
    → take_due now ((e, id) ∷ xs) rs
      ≡ record { expired = []; requests = rs; req_expiries = (e, id) ∷ xs }
unfolding take_due
take_due-later now e id xs rs h = rw h refl

requests-with_expired : (o : Option Entry) (d : Due) → (with_expired o d).requests ≡ d.requests
requests-with_expired none d = refl
requests-with_expired (some p) d = refl

req_expiries-with_expired :
    (o : Option Entry) (d : Due) → (with_expired o d).req_expiries ≡ d.req_expiries
req_expiries-with_expired none d = refl
req_expiries-with_expired (some p) d = refl

-- The three parts of one more round.
requests-due :
    (now : Option ℕ) (e : ℕ) (id : Bytes) (xs : List (ℕ × Bytes)) (rs : List (Bytes × Entry))
    → is_due now e ≡ true
    → (take_due now ((e, id) ∷ xs) rs).requests ≡ (take_due now xs (erase id rs)).requests
requests-due now e id xs rs h =
    rw (take_due-due now e id xs rs h)
      (requests-with_expired (find id rs) (take_due now xs (erase id rs)))

req_expiries-due :
    (now : Option ℕ) (e : ℕ) (id : Bytes) (xs : List (ℕ × Bytes)) (rs : List (Bytes × Entry))
    → is_due now e ≡ true
    → (take_due now ((e, id) ∷ xs) rs).req_expiries ≡ (take_due now xs (erase id rs)).req_expiries
req_expiries-due now e id xs rs h =
    rw (take_due-due now e id xs rs h)
      (req_expiries-with_expired (find id rs) (take_due now xs (erase id rs)))

-- What is pending after the loop was pending before, and if it has an expiry, the expiry is left.
pub found-take_due :
    (now : Option ℕ) (xs : List (ℕ × Bytes)) (rs : List (Bytes × Entry)) (id : Bytes) (p : Entry)
    → find id (take_due now xs rs).requests ≡ some p
    → find id rs ≡ some p
unfolding take_due
found-take_due now [] rs id p h = h
found-take_due now ((e, k) ∷ xs) rs id p h = elim (Bool-cases (is_due now e)) [
  | inl d ↦
      (found-erase id k rs p
        (found-take_due now xs (erase k rs) id p (rw (← requests-due now e k xs rs d) h))).0
  | inr d ↦ subst (λ x. find id x.requests ≡ some p) (take_due-later now e k xs rs d) h
]

-- An expiry of another id than the first is one of the rest.
listed_rest :
    (e f : ℕ) (id j : Bytes) (xs : List (ℕ × Bytes))
    → same j id ≡ false
    → listed e id ((f, j) ∷ xs) ≡ true
    → listed e id xs ≡ true
unfolding listed
listed_rest e f id j xs h k = ground (arith, same_swap j id h)

pub listed-take_due :
    (now : Option ℕ) (xs : List (ℕ × Bytes)) (rs : List (Bytes × Entry)) (id : Bytes) (p : Entry)
    (e : ℕ)
    → find id (take_due now xs rs).requests ≡ some p
    → listed e id xs ≡ true
    → listed e id (take_due now xs rs).req_expiries ≡ true
unfolding take_due
listed-take_due now [] rs id p e h k = k
listed-take_due now ((f, j) ∷ xs) rs id p e h k = elim (Bool-cases (is_due now f)) [
  | inl d ↦
      let found = subst (λ x. find id x ≡ some p) (requests-due now f j xs rs d) h in
      let other = (found-erase id j rs p (found-take_due now xs (erase j rs) id p found)).1 in
      subst (λ x. listed e id x ≡ true) (sym (req_expiries-due now f j xs rs d))
        (listed-take_due now xs (erase j rs) id p e found (listed_rest e f id j xs other k))
  | inr d ↦ subst (λ x. listed e id x.req_expiries ≡ true) (sym (take_due-later now f j xs rs d)) k
]

-- The expiries that are left are in order, and none of them is due.
pub InOrder-take_due :
    (now : Option ℕ) (xs : List (ℕ × Bytes)) (rs : List (Bytes × Entry))
    → InOrder xs
    → InOrder (take_due now xs rs).req_expiries
unfolding take_due
InOrder-take_due now [] rs o = tt
InOrder-take_due now ((f, j) ∷ xs) rs o = elim (Bool-cases (is_due now f)) [
  | inl d ↦
      subst InOrder (sym (req_expiries-due now f j xs rs d))
        (InOrder-take_due now xs (erase j rs) o.1)
  | inr d ↦ subst (λ x. InOrder x.req_expiries) (sym (take_due-later now f j xs rs d)) o
]

listed-nil : (e : ℕ) (id : Bytes) → listed e id [] ≡ false
unfolding listed
listed-nil e id = refl

later_than :
    (now e f : ℕ) (id : Bytes) (xs : List (ℕ × Bytes))
    → now < f
    → NotBefore f xs
    → listed e id xs ≡ true
    → now < e
unfolding listed
later_than now e f id [] h o k = cc k
later_than now e f id ((g, j) ∷ xs) h o k = elim (Bool-cases (listed e id xs)) [
  | inl l ↦ later_than now e f id xs h o.1 l
  | inr l ↦ ground arith
]

pub left_later :
    (now : ℕ) (xs : List (ℕ × Bytes)) (rs : List (Bytes × Entry)) (e : ℕ) (id : Bytes)
    → InOrder xs
    → listed e id (take_due (some now) xs rs).req_expiries ≡ true
    → now < e
unfolding take_due
left_later now [] rs e id o k = cc (k, listed-nil e id)
left_later now ((f, j) ∷ xs) rs e id o k = elim (Bool-cases (is_due (some now) f)) [
  | inl d ↦
      left_later now xs (erase j rs) e id o.1
        (subst (λ x. listed e id x ≡ true) (req_expiries-due (some now) f j xs rs d) k)
  | inr d ↦
      later_than now e f id ((f, j) ∷ xs) (ground arith) (omega arith, o.0)
        (subst (λ x. listed e id x.req_expiries ≡ true) (take_due-later (some now) f j xs rs d) k)
]

pub OneOf-there : (p q : Entry) (ps : List Entry) → OneOf p ps → OneOf p (q ∷ ps)
OneOf-there p q ps (before, after, e) = (q ∷ before, after, ap (λ x. q ∷ x) e)

expired-with_expired :
    (o : Option Entry) (d : Due) (p : Entry)
    → OneOf p d.expired
    → OneOf p (with_expired o d).expired
expired-with_expired none d p h = h
expired-with_expired (some q) d p h = OneOf-there p q d.expired h

found_as :
    (id j : Bytes) (rs : List (Bytes × Entry)) (p : Entry)
    → same j id ≡ true
    → find id rs ≡ some p
    → find j rs ≡ some p
found_as id j rs p e h = rw (eq_of_same j id e) h

-- A round answers what it finds, and leaves the others to the rest of the loop.
one_round :
    (now : Option ℕ) (xs : List (ℕ × Bytes)) (rs : List (Bytes × Entry)) (id j : Bytes) (p : Entry)
    → find id rs ≡ some p
    → (find id (erase j rs) ≡ some p
        → (find id (take_due now xs (erase j rs)).requests ≡ some p)
          ⊎ OneOf p (take_due now xs (erase j rs)).expired)
    → (find id (with_expired (find j rs) (take_due now xs (erase j rs))).requests ≡ some p)
      ⊎ OneOf p (with_expired (find j rs) (take_due now xs (erase j rs))).expired
one_round now xs rs id j p h rest = elim (Bool-cases (same j id)) [
  | inl e ↦ inr (
      subst (λ x. OneOf p (with_expired x (take_due now xs (erase j rs))).expired)
        (sym (found_as id j rs p e h)) ([], (take_due now xs (erase j rs)).expired, refl))
  | inr e ↦ elim (rest (rw (find-erase id j rs e) h)) [
    | inl k ↦ inl (rw (requests-with_expired (find j rs) (take_due now xs (erase j rs))) k)
    | inr k ↦ inr (expired-with_expired (find j rs) (take_due now xs (erase j rs)) p k)
  ]
]

-- What was pending is pending still, or expired.
pub kept_or_expired :
    (now : Option ℕ) (xs : List (ℕ × Bytes)) (rs : List (Bytes × Entry)) (id : Bytes) (p : Entry)
    → find id rs ≡ some p
    → (find id (take_due now xs rs).requests ≡ some p) ⊎ OneOf p (take_due now xs rs).expired
unfolding take_due
kept_or_expired now [] rs id p h = inl h
kept_or_expired now ((f, j) ∷ xs) rs id p h = elim (Bool-cases (is_due now f)) [
  | inr d ↦ inl (subst (λ x. find id x.requests ≡ some p) (sym (take_due-later now f j xs rs d)) h)
  | inl d ↦
      subst (λ x. (find id x.requests ≡ some p) ⊎ OneOf p x.expired)
        (sym (take_due-due now f j xs rs d))
        (one_round now xs rs id j p h (kept_or_expired now xs (erase j rs) id p))
]

OneOf-nil : (p : Entry) → ¬ OneOf p []
OneOf-nil p ([], after, e) = cc e
OneOf-nil p (q ∷ before, after, e) = cc e

OneOf-cons : (p q : Entry) (ps : List Entry) → OneOf p (q ∷ ps) → (q ≡ p) ⊎ OneOf p ps
OneOf-cons p q ps ([], after, e) = inl cc
OneOf-cons p q ps (r ∷ before, after, e) = inr (before, after, cc)

OneOf-with_expired :
    (o : Option Entry) (d : Due) (p : Entry)
    → OneOf p (with_expired o d).expired
    → (o ≡ some p) ⊎ OneOf p d.expired
OneOf-with_expired none d p h = inr h
OneOf-with_expired (some q) d p h = elim (OneOf-cons p q d.expired h) [
  | inl e ↦ inl (rw e refl)
  | inr k ↦ inr k
]

-- The id and the due expiry of a pending request.
pub record WasDue (now : Option ℕ) (xs : List (ℕ × Bytes)) (rs : List (Bytes × Entry)) (p : Entry)
    : Type 0 where
  pub id : Bytes
  pub at : ℕ
  pub pending : find id rs ≡ some p
  pub expiry : listed at id xs ≡ true
  pub due : is_due now at ≡ true

listed_later :
    (e f : ℕ) (id j : Bytes) (xs : List (ℕ × Bytes))
    → listed e id xs ≡ true
    → listed e id ((f, j) ∷ xs) ≡ true
unfolding listed
listed_later e f id j xs h = ground arith

listed_first : (e : ℕ) (id : Bytes) (xs : List (ℕ × Bytes)) → listed e id ((e, id) ∷ xs) ≡ true
unfolding listed
listed_first e id xs = ground (arith, same_refl id)

WasDue-later :
    (now : Option ℕ) (f : ℕ) (j : Bytes) (xs : List (ℕ × Bytes)) (rs : List (Bytes × Entry))
    (p : Entry)
    → WasDue now xs (erase j rs) p
    → WasDue now ((f, j) ∷ xs) rs p
WasDue-later now f j xs rs p w = record {
  id = w.id;
  at = w.at;
  pending = (found-erase w.id j rs p w.pending).0;
  expiry = listed_later w.at f w.id j xs w.expiry;
  due = w.due;
}

-- Every request that expires was pending, with a due expiry of its id.
pub expired_due :
    (now : Option ℕ) (xs : List (ℕ × Bytes)) (rs : List (Bytes × Entry)) (p : Entry)
    → OneOf p (take_due now xs rs).expired
    → WasDue now xs rs p
unfolding take_due
expired_due now [] rs p h = absurd (OneOf-nil p h)
expired_due now ((f, j) ∷ xs) rs p h = elim (Bool-cases (is_due now f)) [
  | inr d ↦ absurd (OneOf-nil p (subst (λ x. OneOf p x.expired) (take_due-later now f j xs rs d) h))
  | inl d ↦
      elim (OneOf-with_expired (find j rs) (take_due now xs (erase j rs)) p
        (subst (λ x. OneOf p x.expired) (take_due-due now f j xs rs d) h)) [
          | inr k ↦ WasDue-later now f j xs rs p (expired_due now xs (erase j rs) p k)
          | inl e ↦ record { id = j; at = f; pending = e; expiry = listed_first f j xs; due = d }
        ]
]

-- The timer event keeps the invariant.
pub on_timeout-IsValid : (now : ℕ) (q : RequestQueue) → IsValid q → IsValid (on_timeout now q).1
unfolding on_timeout check_timeouts update_timeout
on_timeout-IsValid now q v = record {
  ordered = InOrder-take_due (some now) q.req_expiries q.requests v.ordered;
  timed = refl;
  queued = λ id p h. v.queued id p (found-take_due (some now) q.req_expiries q.requests id p h);
  expires = λ id p e h d.
      listed-take_due (some now) q.req_expiries q.requests id p e h
        (v.expires id p e (found-take_due (some now) q.req_expiries q.requests id p h) d);
}

-- When the timer event has run at a time, on a valid queue, every callback that it called belongs
-- to a request that was pending under an id with a due expiry, and was told of a timeout; every
-- request that was pending has been answered so or is pending still, and what is pending was
-- pending before; and no pending request has a deadline that is due.
pub on_timeout_lem :
    (now : ℕ) (q : RequestQueue)
    → IsValid q
    → (ps : List Entry) × ((on_timeout now q).0 ≡ map (λ p. (p.1, build_timeout)) ps)
      × ((p : Entry) → OneOf p ps → WasDue (some now) q.req_expiries q.requests p)
      × ((id : Bytes) (p : Entry)
          → find id q.requests ≡ some p
          → (find id (on_timeout now q).1.requests ≡ some p) ⊎ OneOf p ps)
      × ((id : Bytes) (p : Entry)
          → find id (on_timeout now q).1.requests ≡ some p
          → find id q.requests ≡ some p)
      × ((id : Bytes) (p : Entry) (e : ℕ)
          → find id (on_timeout now q).1.requests ≡ some p
          → deadline p.0 ≡ some e
          → now < e)
unfolding on_timeout check_timeouts update_timeout
on_timeout_lem now q v = (
  (take_due (some now) q.req_expiries q.requests).expired,
  refl,
  expired_due (some now) q.req_expiries q.requests,
  kept_or_expired (some now) q.req_expiries q.requests,
  found-take_due (some now) q.req_expiries q.requests,
  λ id p e h d. left_later now q.req_expiries q.requests e id v.ordered (
      listed-take_due (some now) q.req_expiries q.requests id p e h
        (v.expires id p e (found-take_due (some now) q.req_expiries q.requests id p h) d)),
)
