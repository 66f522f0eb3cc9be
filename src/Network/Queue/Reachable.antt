-- ===== src/Network/Queue/Reachable.antt =====
-- The states that the operations reach from a new queue.
use libbchat_util.Base.{ℕ}
use libbchat_util.Network.Queue.{Entry, RequestQueue, make, add, add_front, pop_all, on_timeout}
use libbchat_util.Network.Queue.Valid.{
  IsValid, make-IsValid, add-IsValid, add_front-IsValid, pop_all-IsValid,
}
use libbchat_util.Network.Queue.Timeouts.{on_timeout-IsValid}

pub data Step : RequestQueue → RequestQueue → Type 0 where
  adds : (p : Entry) (q : RequestQueue) → Step q (add p q)
  adds_front : (p : Entry) (q : RequestQueue) → Step q (add_front p q)
  pops : (q : RequestQueue) → Step q (pop_all q).1
  fires : (now : ℕ) (q : RequestQueue) → Step q (on_timeout now q).1

pub data Reach (s : RequestQueue) : RequestQueue → Type 0 where
  start : Reach s s
  after : {q r : RequestQueue} → Reach s q → Step q r → Reach s r

Step-IsValid : {q r : RequestQueue} → Step q r → IsValid q → IsValid r
Step-IsValid (adds p q) v = add-IsValid p q v
Step-IsValid (adds_front p q) v = add_front-IsValid p q v
Step-IsValid (pops q) v = pop_all-IsValid q
Step-IsValid (fires now q) v = on_timeout-IsValid now q v

-- In every state that additions at either end, pops and timer events reach from a new queue, the
-- expiries are in order and the timer is set to the first of them, each pending request is in the
-- queue, and the deadline of each pending request that has one is among the expiries.
pub Reach-IsValid : {q : RequestQueue} → Reach make q → IsValid q
Reach-IsValid start = make-IsValid
Reach-IsValid (after r s) = Step-IsValid s (Reach-IsValid r)
