-- ===== src/Sync/Tests.antt =====
-- A mutex that thread 4 holds, and that thread 5 waits for.
use nova_os.Base.{ℕ, ◌≡◌, refl, ◌⊎◌, true, false, List, [], ◌∷◌, arith, ◌==◌, if◌then◌else◌}
use nova_os.Sched.{ThreadState, blocked, running, Thread, Sched, enqueue_ready}
use nova_os.Sched.Links.{times, last}
use nova_os.Sync.{Mutex, leave_waiters, mutex_unlock, wait_queue_wake_all}
use nova_os.Sync.Waiting.{Waiting, Queue, wait_links}
use nova_os.Sync.HandOff.{mutex_unlock-Queue}

abbrev sleeper : ThreadState → Thread
sleeper st = record {
  state = st;
  time_slice = 10;
  default_slice = 10;
  need_resched = 0;
  preempt_count = 0;
  sleep_target_ticks = 0;
  next = 0;
  prev = 0;
  wait_next = 0;
}

abbrev four : Sched
four = record {
  thread = λ t. if t == 1 then sleeper running else sleeper blocked;
  current = 1;
  idle = 9;
  ready_head = 0;
  ready_tail = 0;
  sleep_head = 0;
  ticks = 0;
}

abbrev held : Mutex
held = record { locked = true; owner = 4; waiters = record { head = 5; tail = 5 } }

five_waits : Queue (wait_links four) held.waiters (5 ∷ [])
unfolding Waiting times last
five_waits = record {
  links = (refl, λ e. ground (arith, e), refl);
  tail = refl;
  once = λ x. ground arith;
}

abbrev five : List ℕ
five = 5 ∷ []

mutex_unlock-Queue_example :
    let (m', s') = mutex_unlock held four in
    ((five ≡ []) × (m'.locked ≡ false) × (m'.owner ≡ 0) × (s' ≡ four))
    ⊎ ((x : ℕ) × (xs : List ℕ) × (five ≡ x ∷ xs)
        × (m'.locked ≡ true)
        × (m'.owner ≡ x)
        × (s' ≡ enqueue_ready x (leave_waiters held.waiters four).1)
        × Queue (wait_links s') m'.waiters xs)
mutex_unlock-Queue_example = mutex_unlock-Queue held four (5 ∷ []) five_waits refl

handed_over : (mutex_unlock held four).0.owner ≡ 5
unfolding mutex_unlock
handed_over = refl

all_woken : (wait_queue_wake_all 2 held.waiters four).0.head ≡ 0
unfolding wait_queue_wake_all
all_woken = refl
