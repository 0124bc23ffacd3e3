-- ===== src/Sched.antt =====
-- The scheduler, src/kernel/sched/sched.c: the `Thread` structures in memory as a function from their
-- address, with the links that the ready queue and the sleep queue share, beside the static
-- variables. The address 0 is `NULL`. The registers, the stack and the page directory that a switch
-- loads have no counterpart. `gSchedLock` makes each function one step.
pub mod Links
pub mod Queues
pub mod Take
pub mod Schedule
pub mod Wakeup
pub mod Sleep
pub mod Tick
mod Tests
use nova_os.Base.{
  ℕ, zero, suc, ◌+◌, ◌-◌, ◌*◌, ◌/◌, ◌%◌, ◌^◌, ◌≤◌, ◌<◌, min, max, bit_and, bit_or, ◌≡◌, refl, sym,
  ap, ◌∙◌, ◌≢◌, ◌↔◌, ◌⊎◌, inl, inr, Bool, true, false, not, ◌&&◌, ◌||◌, Option, none, some, List,
  [], ◌∷◌, ◌++◌, map, arith, ltb, leb, ◌==◌, if◌then◌else◌, ltb→lt, lt→ltb, leb→le, le→leb,
  ltb-false, leb-false, ==_iff, Bool-cases, Option-cases, length, get_elem?, set, replicate,
  length-append, length-replicate, length-set, get_elem?-set_self, get_elem?-set_ne, u64_mod, add64,
  sub64, mul64, page_size, and_not, page_down, page_up, bit_and_step, bit_and-le, bit_and-mask,
  bit_or_step, bit_or-zero, bit_or-div, bit_or-mod, bit_or-bit,
}

pub data ThreadState : Type 0 where
  unused ready running blocked sleeping zombie : ThreadState

pub record Thread : Type 0 where
  pub state : ThreadState
  pub time_slice : ℕ
  pub default_slice : ℕ
  pub need_resched : ℕ
  pub preempt_count : ℕ
  pub sleep_target_ticks : ℕ
  pub next : ℕ
  pub prev : ℕ
  pub wait_next : ℕ

pub record Sched : Type 0 where
  pub thread : ℕ → Thread
  pub current : ℕ
  pub idle : ℕ
  pub ready_head : ℕ
  pub ready_tail : ℕ
  pub sleep_head : ℕ
  pub ticks : ℕ

-- An assignment to fields of the thread at `t`.
unfoldable pub change : ℕ → (Thread → Thread) → Sched → Sched
change t f s = record s { thread = λ u. if u == t then f (s.thread u) else s.thread u }

unfoldable pub enqueue_ready : ℕ → Sched → Sched
enqueue_ready t s =
    let s1 = change t (λ x. record x { state = ready; next = 0; prev = s.ready_tail }) s in
    let s2 =
      if s.ready_tail == 0
      then record s1 { ready_head = t }
      else change s.ready_tail (λ x. record x { next = t }) s1 in
    record s2 { ready_tail = t }

-- The head of the ready queue moves on to the next thread.
unfoldable pub drop_head : Sched → Sched
drop_head s =
    let n = (s.thread s.ready_head).next in
    let s1 = record s { ready_head = n } in
    if n == 0 then record s1 { ready_tail = 0 } else change n (λ x. record x { prev = 0 }) s1

abbrev pub unlinked : Thread → Thread
unlinked x = record x { next = 0; prev = 0 }

unfoldable pub dequeue_ready : Sched → ℕ × Sched
dequeue_ready s =
    if s.ready_head == 0 then (0, s) else (s.ready_head, change s.ready_head unlinked (drop_head s))

abbrev pub is_running : ThreadState → Bool
is_running running = true
is_running _ = false

-- The thread that runs next gets its time slice.
unfoldable pub switch_to : ℕ → Sched → Sched
switch_to n s =
    let s1 =
      change n (λ x. record x { state = running; need_resched = 0; time_slice = x.default_slice })
        s in
    record s1 { current = n }

-- What `schedule` does to the thread that it takes the processor from.
unfoldable pub put_back : ℕ → Sched → Sched
put_back p s =
    let s1 = change p (λ x. record x { state = ready }) s in
    if is_running (s.thread p).state then (if p == s.idle then s1 else enqueue_ready p s1) else s

unfoldable pub schedule : Sched → Sched
schedule s =
    let prev = s.current in
    let (head, s1) = dequeue_ready s in
    let next =
      if head == 0
      then (if not (prev == 0) && is_running (s1.thread prev).state then prev else s1.idle)
      else head in
    if not (prev == 0) && ltb 0 (s.thread prev).preempt_count
    then s
    else if next == prev
    then (if prev == 0 then s1 else change prev (λ x. record x { need_resched = 0 }) s1)
    else switch_to next (if prev == 0 then s1 else put_back prev s1)

unfoldable pub sched_block_current : Sched → Sched
sched_block_current s =
    let s1 = change s.current (λ x. record x { state = blocked }) s in
    let (head, s2) = dequeue_ready s1 in switch_to (if head == 0 then s2.idle else head) s2

unfoldable pub sched_yield : Sched → Sched
sched_yield s =
    schedule (if s.current == 0 then s else change s.current (λ x. record x { need_resched = 1 }) s)

-- `schedSleep` up to its call of `schedule`
unfoldable pub fall_asleep : ℕ → Sched → Sched
fall_asleep n s =
    let s1 =
      change s.current
        (λ x. record x {
          sleep_target_ticks = add64 s.ticks n;
          state = sleeping;
          next = s.sleep_head;
          prev = 0;
        })
        s in
    let s2 =
      if s.sleep_head == 0
      then s1
      else change s.sleep_head (λ x. record x { prev = s.current }) s1 in
    record s2 { sleep_head = s.current }

unfoldable pub sched_sleep : ℕ → Sched → Sched
sched_sleep n s = if (s.current == 0) || (n == 0) then s else schedule (fall_asleep n s)

-- `schedThreadExit`: the thread does not run again.
unfoldable pub sched_thread_exit : Sched → Sched
sched_thread_exit s =
    schedule (if s.current == 0 then s else change s.current (λ x. record x { state = zombie }) s)

-- The thread at `t` leaves the sleep queue.
unfoldable pub unlink_sleep : ℕ → Sched → Sched
unlink_sleep t s =
    let p = (s.thread t).prev in
    let n = (s.thread t).next in
    let s1 =
      if p == 0 then record s { sleep_head = n } else change p (λ x. record x { next = n }) s in
    let s2 = if n == 0 then s1 else change n (λ x. record x { prev = p }) s1 in change t unlinked s2

abbrev pub want_resched : Sched → Sched
want_resched s =
    if s.current == 0 then s else change s.current (λ x. record x { need_resched = 1 }) s

-- The walk over the sleep queue, on fuel. `none`: the fuel ran out.
unfoldable pub wake_loop : ℕ → ℕ → Sched → Option Sched
wake_loop zero t s = if t == 0 then some s else none
wake_loop (suc k) t s =
    let n = (s.thread t).next in
    let woken = want_resched (enqueue_ready t (unlink_sleep t s)) in
    let rest = wake_loop k n (if leb (s.thread t).sleep_target_ticks s.ticks then woken else s) in
    if t == 0 then some s else rest

-- What a tick takes from the running thread's time slice.
unfoldable pub count_slice : Sched → Sched
count_slice s =
    let left = (s.thread s.current).time_slice - 1 in
    if s.current == 0
    then s
    else if s.current == s.idle
    then (if s.ready_head == 0 then s else want_resched s)
    else if ltb 0 (s.thread s.current).time_slice
    then change s.current
        (λ x. record x {
          time_slice = left;
          need_resched = if left == 0 then 1 else x.need_resched;
        })
        s
    else s

unfoldable pub sched_tick : ℕ → Sched → Option Sched
sched_tick fuel s = elim (wake_loop fuel s.sleep_head (record s { ticks = add64 s.ticks 1 })) [
  | none ↦ none
  | some s' ↦ some (count_slice s')
]

-- `interrupts`: the interrupted code had interrupts enabled.
unfoldable pub sched_preempt_from_interrupt : Bool → Sched → Sched
sched_preempt_from_interrupt interrupts s =
    let c = s.thread s.current in
    if (s.current == 0) || ltb 0 c.preempt_count || (c.need_resched == 0) || not interrupts
    then s
    else schedule s

unfoldable pub sched_preempt_disable : Sched → Sched
sched_preempt_disable s =
    if s.current == 0
    then s
    else change s.current (λ x. record x { preempt_count = (x.preempt_count + 1) % 2 ^ 32 }) s

unfoldable pub sched_preempt_enable : Sched → Sched
sched_preempt_enable s =
    let s1 =
      change s.current (λ x. record x { preempt_count = (x.preempt_count + 2 ^ 32 - 1) % 2 ^ 32 })
        s in
    let c = s1.thread s.current in
    if s.current == 0
    then s
    else if (c.preempt_count == 0) && not (c.need_resched == 0)
    then schedule s1
    else s1
