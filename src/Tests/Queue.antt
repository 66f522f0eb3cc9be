-- ===== src/Tests/Queue.antt =====
-- The request queue, at concrete requests.
use libbchat_util.Base.{ℕ, ◌≡◌, ◌<◌, refl, none, some, List, [], ◌∷◌, ◌++◌, false, ◌⊎◌, map}
use libbchat_util.Base.Order.{Bytes, bytes_order, compare_bytes}
use libbchat_util.Network.Queue.{
  Entry, RequestQueue, build_timeout, make, add, add_front, pop_all, on_timeout, find, erase,
  emplace, emplace_hint, schedule, reset_timeout, update_timeout, deadline, take_due,
  check_timeouts,
}
use libbchat_util.Network.Queue.Valid.{IsValid, make-IsValid, add-IsValid, in_queue}
use libbchat_util.Network.Queue.Timeouts.{OneOf, WasDue, on_timeout_lem}
use libbchat_util.Network.Queue.Reachable.{Reach, Step, Reach-IsValid}
use libbchat_util.Network.Queue.Fifo.{pop_all-add, pop_all_lem}

abbrev slow : Entry
slow = (
  record { request_id = b'a' ∷ []; creation_time = 1; overall_timeout = some 60; retry_count = 0 },
  1,
)

abbrev quick : Entry
quick = (
  record { request_id = b'b' ∷ []; creation_time = 2; overall_timeout = some 5; retry_count = 0 },
  2,
)

abbrev patient : Entry
patient = (
  record { request_id = b'c' ∷ []; creation_time = 3; overall_timeout = none; retry_count = 1 },
  3,
)

abbrev two : RequestQueue
two = add quick (add slow make)

abbrev two-IsValid : IsValid two
two-IsValid = add-IsValid quick (add slow make) (add-IsValid slow make make-IsValid)

two_timer : two.timeout ≡ some 7
unfolding add schedule reset_timeout update_timeout emplace_hint emplace find compare_bytes
two_timer = refl

answered : (on_timeout 7 two).0 ≡ (2, build_timeout) ∷ []
unfolding add schedule reset_timeout update_timeout emplace_hint emplace find compare_bytes
    on_timeout check_timeouts take_due erase
answered = refl

Reach-IsValid_example : IsValid (on_timeout 7 (add_front patient two)).1
Reach-IsValid_example = Reach-IsValid {q = (on_timeout 7 (add_front patient two)).1} (
    Reach.after
      (Reach.after
        (Reach.after (Reach.after Reach.start (Step.adds slow make))
          (Step.adds quick (add slow make)))
        (Step.adds_front patient two))
      (Step.fires 7 (add_front patient two)))

on_timeout_lem_example :
    (ps : List Entry) × ((on_timeout 7 two).0 ≡ map (λ p. (p.1, build_timeout)) ps)
    × ((p : Entry) → OneOf p ps → WasDue (some 7) two.req_expiries two.requests p)
    × ((id : Bytes) (p : Entry)
        → find id two.requests ≡ some p
        → (find id (on_timeout 7 two).1.requests ≡ some p) ⊎ OneOf p ps)
    × ((id : Bytes) (p : Entry)
        → find id (on_timeout 7 two).1.requests ≡ some p
        → find id two.requests ≡ some p)
    × ((id : Bytes) (p : Entry) (e : ℕ)
        → find id (on_timeout 7 two).1.requests ≡ some p
        → deadline p.0 ≡ some e
        → 7 < e)
on_timeout_lem_example = on_timeout_lem 7 two two-IsValid

not_queued : in_queue (patient.0).request_id two.queue ≡ false
unfolding in_queue add schedule reset_timeout update_timeout emplace_hint emplace find compare_bytes
not_queued = refl

pop_all-add_example :
    ((pop_all (add patient two)).0 ≡ (pop_all two).0 ++ patient ∷ [])
    × ((pop_all (add_front patient two)).0 ≡ patient ∷ (pop_all two).0)
pop_all-add_example = pop_all-add patient two two-IsValid not_queued

pop_all_lem_example :
    ((id : Bytes) (p : Entry) → find id two.requests ≡ some p → OneOf p (pop_all two).0)
    × ((pop_all two).1 ≡ make)
pop_all_lem_example = pop_all_lem two two-IsValid
