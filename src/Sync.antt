-- ===== src/Sync.antt =====
-- Mutexes and wait queues, src/kernel/sync/sync.h, on the scheduler. A thread is its address, 0 the null pointer; each
-- function runs with the lock of its object held, up to the switch to another thread.
pub mod Waiting
pub mod HandOff
mod Tests
use nova_os.Base.{
  ℕ, zero, suc, ◌+◌, ◌-◌, ◌*◌, ◌/◌, ◌%◌, ◌^◌, ◌≤◌, ◌<◌, min, max, bit_and, bit_or, ◌≡◌, refl, sym,
  ap, ◌∙◌, ◌≢◌, ◌↔◌, ◌⊎◌, inl, inr, Bool, true, false, not, ◌&&◌, ◌||◌, Option, none, some, List,
  [], ◌∷◌, ◌++◌, map, arith, ltb, leb, ◌==◌, if◌then◌else◌, ltb→lt, lt→ltb, leb→le, le→leb,
  ltb-false, leb-false, ==_iff, Bool-cases, Option-cases, length, get_elem?, set, replicate,
  length-append, length-replicate, length-set, get_elem?-set_self, get_elem?-set_ne, take, drop,
  length-take, length-drop, drop-drop, take-append_drop, drop-nil, u64_mod, add64, sub64, mul64,
  page_size, and_not, page_down, page_up, bit_and_step, bit_and-le, bit_and-mask, bit_or_step,
  bit_or-zero, bit_or-div, bit_or-mod, bit_or-bit,
}
use nova_os.Sched.{Thread, Sched, change, enqueue_ready, sched_block_current}

-- `waitersHead` and `waitersTail` of a mutex, `head` and `tail` of a wait queue.
pub record Waiters : Type 0 where
  pub head : ℕ
  pub tail : ℕ

pub record Mutex : Type 0 where
  pub locked : Bool
  pub owner : ℕ
  pub waiters : Waiters

abbrev pub no_waiters : Waiters
no_waiters = record { head = 0; tail = 0 }

abbrev pub mutex_init : Mutex
mutex_init = record { locked = false; owner = 0; waiters = no_waiters }

unfoldable pub set_wait_next : ℕ → ℕ → Sched → Sched
set_wait_next t n s = change t (λ x. record x { wait_next = n }) s

-- The current thread gets behind the last one.
unfoldable pub join_waiters : Waiters → Sched → Waiters × Sched
join_waiters q s =
    let s1 = set_wait_next s.current 0 s in
    if q.tail == 0
    then (record { head = s.current; tail = s.current }, s1)
    else (record q { tail = s.current }, set_wait_next q.tail s.current s1)

-- What the call changes before it blocks, if it does, and whether it blocks.
unfoldable pub mutex_lock : Mutex → Sched → Mutex × Sched
mutex_lock m s = if not m.locked then (record m { locked = true; owner = s.current }, s) else (
  record m { waiters = (join_waiters m.waiters s).0 },
  sched_block_current (join_waiters m.waiters s).1,
)

-- The first waiter leaves the queue.
unfoldable pub leave_waiters : Waiters → Sched → Waiters × Sched
leave_waiters q s =
    let n = (s.thread q.head).wait_next in
    (record { head = n; tail = if n == 0 then 0 else q.tail }, set_wait_next q.head 0 s)

unfoldable pub mutex_unlock : Mutex → Sched → Mutex × Sched
mutex_unlock m s = if m.waiters.head == 0 then (record m { locked = false; owner = 0 }, s) else (
  record m { owner = m.waiters.head; waiters = (leave_waiters m.waiters s).0 },
  enqueue_ready m.waiters.head (leave_waiters m.waiters s).1,
)

-- The loop of `wait_queue_wake_all`, on fuel. `none`: the fuel ran out.
unfoldable pub wake_chain : ℕ → ℕ → Sched → Option Sched
wake_chain zero t s = if t == 0 then some s else none
wake_chain (suc k) t s =
    let rest = wake_chain k (s.thread t).wait_next (enqueue_ready t (set_wait_next t 0 s)) in
    if t == 0 then some s else rest

unfoldable pub wait_queue_wake_all : ℕ → Waiters → Sched → Waiters × Option Sched
wait_queue_wake_all fuel q s = (no_waiters, wake_chain fuel q.head s)

-- A round of `wait_event_timeout`, up to its block: the answer where it is over. `held` and `held_locked` are the
-- condition, read before and after the lock is taken; `late` says that the time is over.
unfoldable pub wait_round : Bool → Bool → Bool → Waiters → Sched → Option Bool × Waiters × Sched
wait_round held late held_locked q s =
    if held
    then (some true, q, s)
    else if late
    then (some false, q, s)
    else if held_locked
    then (some true, q, s)
    else (none, (join_waiters q s).0, sched_block_current (join_waiters q s).1)
