-- ===== src/Network/Queue.antt =====
-- `RequestQueue` of network/request_queue.hpp and network/request_queue.cpp: its state, its
-- operations, and the event handler that runs when the timer fires. The loop runs one operation
-- at a time. Times and timeouts are ticks of the steady clock, callbacks are known by a number,
-- and the fields of a request that the queue only moves are left out.
pub mod Pending
pub mod Valid
pub mod Timeouts
pub mod Reachable
pub mod Fifo
use libbchat_util.Base.{
  ℕ, ◌+◌, Option, none, some, List, [], ◌∷◌, ◌++◌, Bool, true, false, leb, ltb, if◌then◌else◌,
  empty, map,
}
use libbchat_util.Base.Order.{ℤ, pos, negsuc, Bytes, same, bytes_order}

pub record Request : Type 0 where
  pub request_id : Bytes
  pub creation_time : ℕ
  pub overall_timeout : Option ℕ
  pub retry_count : ℕ

-- A request with its callback.
abbrev pub Entry : Type 0
Entry = Request × ℕ

-- `requests` is an unordered map; `req_expiries` is a multimap, in the order of its times. `timeout`
-- is the time that the timer is set to, when it is set; a time that is past makes it fire at once.
pub record RequestQueue : Type 0 where
  pub timeout : Option ℕ
  pub queue : List Bytes
  pub requests : List (Bytes × Entry)
  pub req_expiries : List (ℕ × Bytes)

-- What a callback is called with.
pub record Response : Type 0 where
  pub success : Bool
  pub timed_out : Bool
  pub status : ℤ

abbrev pub make : RequestQueue
make = record { timeout = none; queue = []; requests = []; req_expiries = [] }

abbrev pub is_empty : RequestQueue → Bool
is_empty q = empty q.requests

unfoldable pub find : Bytes → List (Bytes × Entry) → Option Entry
find id [] = none
find id ((k, p) ∷ rs) = if same id k then some p else find id rs

unfoldable pub erase : Bytes → List (Bytes × Entry) → List (Bytes × Entry)
erase id [] = []
erase id ((k, p) ∷ rs) = if same id k then erase id rs else (k, p) ∷ erase id rs

-- An entry that is there stays.
unfoldable pub emplace : Bytes → Entry → List (Bytes × Entry) → List (Bytes × Entry)
emplace id p rs = elim (find id rs) [ none ↦ (id, p) ∷ rs | some old ↦ rs ]

-- With the end as its hint, an entry comes behind those of the same time.
unfoldable pub emplace_hint : ℕ → Bytes → List (ℕ × Bytes) → List (ℕ × Bytes)
emplace_hint e id [] = (e, id) ∷ []
emplace_hint e id ((f, k) ∷ xs) =
    if ltb e f then (e, id) ∷ (f, k) ∷ xs else (f, k) ∷ emplace_hint e id xs

abbrev pub first_expiry : List (ℕ × Bytes) → Option ℕ
first_expiry [] = none
first_expiry ((e, id) ∷ xs) = some e

unfoldable pub update_timeout : RequestQueue → RequestQueue
update_timeout q = record q { timeout = first_expiry q.req_expiries }

-- The expiry landed at the beginning.
abbrev pub leads : Bytes → List (ℕ × Bytes) → Bool
leads id [] = false
leads id ((e, k) ∷ xs) = same k id

abbrev pub deadline : Request → Option ℕ
deadline r = elim r.overall_timeout [ none ↦ none | some t ↦ some (r.creation_time + t) ]

-- The timer follows an expiry that landed at the beginning.
unfoldable pub reset_timeout : Bytes → RequestQueue → RequestQueue
reset_timeout id q = if leads id q.req_expiries then update_timeout q else q

-- The expiry of a request with an overall timeout.
unfoldable pub schedule : Request → RequestQueue → RequestQueue
schedule r q = elim (deadline r) [
  | none ↦ q
  | some e ↦
      reset_timeout r.request_id
        (record q { req_expiries = emplace_hint e r.request_id q.req_expiries })
]

unfoldable pub add : Entry → RequestQueue → RequestQueue
add p q =
    let id = (p.0).request_id in
    schedule p.0 (record q { requests = emplace id p q.requests; queue = q.queue ++ id ∷ [] })

unfoldable pub add_front : Entry → RequestQueue → RequestQueue
add_front p q =
    let id = (p.0).request_id in
    schedule p.0 (record q { requests = emplace id p q.requests; queue = id ∷ q.queue })

unfoldable pub popped : List Bytes → List (Bytes × Entry) → List Entry
popped [] rs = []
popped (id ∷ ids) rs = elim (find id rs) [
  | none ↦ popped ids rs
  | some p ↦ p ∷ popped ids (erase id rs)
]

unfoldable pub pop_all : RequestQueue → List Entry × RequestQueue
pop_all q = (
  popped q.queue q.requests,
  update_timeout (record q { queue = []; requests = []; req_expiries = [] }),
)

-- `!now || it->first <= *now`
abbrev pub is_due : Option ℕ → ℕ → Bool
is_due none e = true
is_due (some now) e = leb e now

pub record Due : Type 0 where
  pub expired : List Entry
  pub requests : List (Bytes × Entry)
  pub req_expiries : List (ℕ × Bytes)

abbrev pub with_expired : Option Entry → Due → Due
with_expired none d = d
with_expired (some p) d = record d { expired = p ∷ d.expired }

-- The loop over the expiries from the first on.
unfoldable pub take_due : Option ℕ → List (ℕ × Bytes) → List (Bytes × Entry) → Due
take_due now [] rs = record { expired = []; requests = rs; req_expiries = [] }
take_due now ((e, id) ∷ xs) rs =
    if is_due now e
    then with_expired (find id rs) (take_due now xs (erase id rs))
    else record { expired = []; requests = rs; req_expiries = (e, id) ∷ xs }

abbrev pub build_timeout : Response
build_timeout = record { success = false; timed_out = true; status = negsuc 10099 }

-- The calls of callbacks, and the queue.
unfoldable pub check_timeouts : Option ℕ → RequestQueue → List (ℕ × Response) × RequestQueue
check_timeouts now q =
    let d = take_due now q.req_expiries q.requests in
    (
      map (λ p. (p.1, build_timeout)) d.expired,
      record q { requests = d.requests; req_expiries = d.req_expiries },
    )

-- The handler of the timer event, at the time `now`.
unfoldable pub on_timeout : ℕ → RequestQueue → List (ℕ × Response) × RequestQueue
on_timeout now q = let r = check_timeouts (some now) q in (r.0, update_timeout r.1)

abbrev pub shutting_down : Response
shutting_down = record { success = false; timed_out = false; status = negsuc 0 }

-- The destructor answers what is pending.
unfoldable pub shutdown : RequestQueue → List (ℕ × Response)
shutdown q = map (λ r. (r.1.1, shutting_down)) q.requests
