-- ===== src/Sched/Tests.antt =====
-- Three threads beside the idle one, and the scheduler's theorems at that state.
use nova_os.Base.{
  ℕ, ◌<◌, ◌≡◌, refl, ap, inl, inr, Option, none, some, List, [], ◌∷◌, arith, ◌==◌, if◌then◌else◌,
  ==_iff, Bool-cases,
}
use nova_os.Sched.{
  ThreadState, ready, running, blocked, sleeping, Thread, Sched, schedule, enqueue_ready,
  dequeue_ready, drop_head, put_back, switch_to, change, fall_asleep, sched_sleep, sched_tick,
  wake_loop, unlink_sleep, count_slice,
}
use nova_os.Sched.Links.{times, last, Linked}
use nova_os.Sched.Queues.{Queues, Free}
use nova_os.Sched.Schedule.{Scheduled, schedule_lem}
use nova_os.Sched.Wakeup.{schedule-woken}
use nova_os.Sched.Tick.{due, asleep, Walked, sched_tick-Walked}

abbrev plain : ThreadState → ℕ → ℕ → Thread
plain st next prev = record {
  state = st;
  time_slice = 10;
  default_slice = 10;
  need_resched = 0;
  preempt_count = 0;
  sleep_target_ticks = 0;
  next = next;
  prev = prev;
  wait_next = 0;
}

-- Thread 1 runs, 2 and 3 wait, 9 is the idle thread.
abbrev three : Sched
three = record {
  thread = λ t.
      if t == 1
      then plain running 0 0
      else if t == 2
      then plain ready 3 0
      else if t == 3
      then plain ready 0 2
      else plain blocked 0 0;
  current = 1;
  idle = 9;
  ready_head = 2;
  ready_tail = 3;
  sleep_head = 0;
  ticks = 0;
}

three-Queues : Queues three (2 ∷ 3 ∷ []) []
unfolding Linked times last
three-Queues = record {
  ready_links = (λ e. ground arith, refl, refl, (λ e. ground arith, refl, refl, tt));
  ready_first = refl;
  ready_last = refl;
  ready_once = λ t. ground arith;
  ready_state = λ t h. in_queue t h;
  sleep_links = tt;
  sleep_first = refl;
  sleep_once = λ t. omega arith;
  sleep_state = λ t h. absurd (omega (arith, h));
}
  where
    in_queue : (t : ℕ) → 0 < times t (2 ∷ 3 ∷ []) → (three.thread t).state ≡ ready
    in_queue t h = elim (Bool-cases (t == 2)) [
      | inl e ↦ ap (λ u. (three.thread u).state) ((==_iff t 2).0 e)
      | inr e ↦ ap (λ u. (three.thread u).state) ((==_iff t 3).0 (ground arith))
    ]

schedule_lem_example : Scheduled three (2 ∷ 3 ∷ []) [] (schedule three)
unfolding times
schedule_lem_example =
    schedule_lem three (2 ∷ 3 ∷ []) [] three-Queues (λ e. ground arith) (refl, refl)
      (inl (λ e. ground arith)) refl (λ e. ground arith)

-- Thread 1 has gone to sleep and a tick has woken it, before `schedule`.
abbrev woken : Sched
woken = record three {
  thread = λ t. if t == 1 then plain ready 0 0 else plain blocked 0 0;
  ready_head = 1;
  ready_tail = 1;
}

woken-Queues : Queues woken (1 ∷ []) []
unfolding Linked times last
woken-Queues = record {
  ready_links = (λ e. ground arith, refl, refl, tt);
  ready_first = refl;
  ready_last = refl;
  ready_once = λ t. ground arith;
  ready_state = λ t h. ap (λ u. (woken.thread u).state) ((==_iff t 1).0 (ground arith));
  sleep_links = tt;
  sleep_first = refl;
  sleep_once = λ t. omega arith;
  sleep_state = λ t h. absurd (omega (arith, h));
}

schedule-woken_example :
    ((schedule woken).current ≡ 1)
    × (((schedule woken).thread 1).state ≡ ready)
    × Queues (schedule woken) [] []
    × Free [] [] 1
schedule-woken_example = schedule-woken woken [] [] woken-Queues (λ e. ground arith) refl

-- A tick after that, the idle thread runs, and thread 1 is in no queue.
woken_lost :
    ((schedule (schedule woken)).current ≡ 9) × ((schedule (schedule woken)).ready_head ≡ 0)
unfolding schedule dequeue_ready drop_head change put_back switch_to
woken_lost = (refl, refl)

-- Thread 1 sleeps for two ticks and is back in the queue behind the others.
abbrev ready_queue : Option Sched → List ℕ
ready_queue none = []
ready_queue (some s) =
    s.current ∷ s.ready_head ∷ (s.thread s.ready_head).next ∷ s.ready_tail ∷ s.sleep_head ∷ []

abbrev two_ticks : Option Sched → Option Sched
two_ticks none = none
two_ticks (some s) = sched_tick 2 s

slept :
    (ready_queue (sched_tick 2 (sched_sleep 2 three)) ≡ 2 ∷ 3 ∷ 0 ∷ 3 ∷ 1 ∷ [])
    × (ready_queue (two_ticks (sched_tick 2 (sched_sleep 2 three))) ≡ 2 ∷ 3 ∷ 1 ∷ 1 ∷ 0 ∷ [])
unfolding sched_tick wake_loop unlink_sleep enqueue_ready count_slice sched_sleep fall_asleep
    schedule dequeue_ready drop_head change put_back switch_to
slept = (refl, refl)

-- Thread 1 runs, and 4 and 5 sleep, the first one until the next tick.
abbrev dozing : Sched
dozing = record {
  thread = λ t.
      if t == 1
      then plain running 0 0
      else if t == 4
      then record (plain sleeping 5 0) { sleep_target_ticks = 1 }
      else if t == 5
      then record (plain sleeping 0 4) { sleep_target_ticks = 7 }
      else plain blocked 0 0;
  current = 1;
  idle = 9;
  ready_head = 0;
  ready_tail = 0;
  sleep_head = 4;
  ticks = 0;
}

dozing-Queues : Queues dozing [] (4 ∷ 5 ∷ [])
unfolding Linked times last
dozing-Queues = record {
  ready_links = tt;
  ready_first = refl;
  ready_last = refl;
  ready_once = λ t. omega arith;
  ready_state = λ t h. absurd (omega (arith, h));
  sleep_links = (λ e. ground arith, refl, refl, (λ e. ground arith, refl, refl, tt));
  sleep_first = refl;
  sleep_once = λ t. ground arith;
  sleep_state = λ t h. elim (Bool-cases (t == 4)) [
    | inl e ↦ ap (λ u. (dozing.thread u).state) ((==_iff t 4).0 e)
    | inr e ↦ ap (λ u. (dozing.thread u).state) ((==_iff t 5).0 (ground arith))
  ];
}

sched_tick-Walked_example :
    (s' : Sched) × (sched_tick 2 dozing ≡ some s')
    × Walked (λ t. (dozing.thread t).sleep_target_ticks) 1 1 9 (4 ∷ []) (5 ∷ []) s'
unfolding due asleep
sched_tick-Walked_example = sched_tick-Walked 2 dozing [] (4 ∷ 5 ∷ []) dozing-Queues (omega arith)
