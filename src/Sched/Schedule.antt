-- ===== src/Sched/Schedule.antt =====
-- `schedule`, `schedBlockCurrent`: which thread runs next, and the queues then.
use nova_os.Base.{
  ℕ, ◌≡◌, refl, sym, ap, ◌∙◌, ◌≢◌, ◌⊎◌, inl, inr, true, false, not, ◌&&◌, List, [], ◌∷◌, ◌++◌,
  arith, ◌==◌, if◌then◌else◌, Bool-cases,
}
use nova_os.Sched.{
  ThreadState, unused, ready, running, blocked, sleeping, zombie, Sched, is_running, change,
  dequeue_ready, switch_to, put_back, schedule,
}
use mathlib.Core.Path.{subst}
use nova_os.Sched.Links.{times, times_self, times_other, times-append, Linked}
use nova_os.Sched.Queues.{Queues, Free, same, apart, state-Free, enqueue_ready-Queues}
use nova_os.Sched.Take.{
  change-Queues, change-fields, change-state, dequeue_ready-Queues, dequeue_ready-none,
}

-- The thread that runs next, and the ready queue then, by the rule of a round robin.
abbrev pub chosen : Sched → List ℕ → ℕ
chosen s [] = if is_running (s.thread s.current).state then s.current else s.idle
chosen s (x ∷ xs) = x

abbrev pub waiting : Sched → List ℕ → List ℕ
waiting s [] = []
waiting s (x ∷ xs) =
    if is_running (s.thread s.current).state && not (s.current == s.idle)
    then xs ++ s.current ∷ []
    else xs

switch_to-Queues :
    {s : Sched} {rs ss : List ℕ} (n : ℕ)
    → Queues s rs ss
    → Free rs ss n
    → Queues (switch_to n s) rs ss
unfolding switch_to
switch_to-Queues n q out =
    let c = change-Queues n _ q out in
    record {
      ready_links = c.ready_links;
      ready_first = c.ready_first;
      ready_last = c.ready_last;
      ready_once = c.ready_once;
      ready_state = c.ready_state;
      sleep_links = c.sleep_links;
      sleep_first = c.sleep_first;
      sleep_once = c.sleep_once;
      sleep_state = c.sleep_state;
    }

switch_to-runs :
    (n : ℕ) (s : Sched)
    → ((switch_to n s).current ≡ n) × (((switch_to n s).thread n).state ≡ running)
unfolding switch_to change
switch_to-runs n s = (refl, rw (same n) refl)

running-Free :
    {s : Sched} {rs ss : List ℕ} (p : ℕ)
    → Queues s rs ss
    → is_running (s.thread p).state ≡ true
    → Free rs ss p
running-Free {s} p q e = state-Free q p (λ h. absurd (differ h)) (λ h. absurd (differ' h))
  where
    differ : (s.thread p).state ≡ ready → ⊥
    differ h = ground (arith, sym e ∙ ap is_running h)

    differ' : (s.thread p).state ≡ sleeping → ⊥
    differ' h = ground (arith, sym e ∙ ap is_running h)

is_running-state : (st : ThreadState) → is_running st ≡ true → st ≡ running
is_running-state unused e = ground (arith, e)
is_running-state ready e = ground (arith, e)
is_running-state running e = refl
is_running-state blocked e = ground (arith, e)
is_running-state sleeping e = ground (arith, e)
is_running-state zombie e = ground (arith, e)

-- The thread that ran goes to the end of the queue, unless it is the idle thread or stopped.
put_back-Queues :
    {s : Sched} {xs ss : List ℕ} (p : ℕ)
    → p ≢ 0
    → Queues s xs ss
    → Queues
        (put_back p s)
        (if is_running (s.thread p).state && not (p == s.idle) then xs ++ p ∷ [] else xs)
        ss
unfolding put_back
put_back-Queues {s} {xs} {ss} p ne q = elim (Bool-cases (is_running (s.thread p).state)) [
  | inr stopped ↦ rw stopped q
  | inl runs ↦ rw runs (elim (Bool-cases (p == s.idle)) [
    | inl idle ↦ rw idle (change-Queues p _ q (running-Free p q runs))
    | inr other ↦ rw other (
        enqueue_ready-Queues (change-Queues p _ q (running-Free p q runs)) p ne
          (running-Free p q runs))
  ])
]

-- The way of `schedule` to a thread from the queue, and the two ways with the queue empty.
schedule-busy :
    (s : Sched) (x : ℕ) (s1 : Sched)
    → dequeue_ready s ≡ (x, s1)
    → s.current ≢ 0
    → (s.thread s.current).preempt_count ≡ 0
    → x ≢ 0
    → x ≢ s.current
    → schedule s ≡ switch_to x (put_back s.current s1)
unfolding schedule
schedule-busy s x s1 e nc np nx other =
    rw (e, apart s.current 0 nc, np, apart x 0 nx, apart x s.current other) refl

schedule-empty :
    (s : Sched)
    → dequeue_ready s ≡ (0, s)
    → s.current ≢ 0
    → (s.thread s.current).preempt_count ≡ 0
    → schedule s ≡ (
        if chosen s [] == s.current
        then change s.current (λ x. record x { need_resched = 0 }) s
        else switch_to (chosen s []) (put_back s.current s))
unfolding schedule
schedule-empty s e nc np = rw (e, apart s.current 0 nc, np) refl

-- What `schedule` promises.
pub record Scheduled (s : Sched) (rs ss : List ℕ) (s' : Sched) : Type 0 where
  pub current : s'.current ≡ chosen s rs
  pub runs : (s'.thread (chosen s rs)).state ≡ running
  pub queues : Queues s' (waiting s rs) ss

module _ (s : Sched) (ss : List ℕ) (nc : s.current ≢ 0)
    (np : (s.thread s.current).preempt_count ≡ 0) where
  busy-Scheduled :
      (x : ℕ) (xs : List ℕ)
      → Queues s (x ∷ xs) ss
      → (s.thread s.current).state ≢ ready
      → Scheduled s (x ∷ xs) ss (schedule s)
  unfolding Linked
  busy-Scheduled x xs q nr =
      let (s1, e, q1, free, cur, idl, sts) = dequeue_ready-Queues x q in
      let is = schedule-busy s x s1 e nc np q.ready_links.0 other in
      record {
        current = ap (λ (t : Sched). t.current) is ∙ (switch_to-runs x (put_back s.current s1)).0;
        runs =
            ap (λ (t : Sched). (t.thread x).state) is
            ∙ (switch_to-runs x (put_back s.current s1)).1;
        queues =
            subst (λ (t : Sched). Queues t (waiting s (x ∷ xs)) ss) (sym is)
              (switch_to-Queues x
                (subst (λ (l : List ℕ). Queues (put_back s.current s1) l ss)
                  (after s1 (sts s.current) idl) (put_back-Queues s.current nc q1))
                (still_free free));
      }
    where
      other : x ≢ s.current
      other e =
          nr (
            ap (λ t. (s.thread t).state) (sym e) ∙ q.ready_state x (omega (arith, times_self x xs)))

      after :
          (s1 : Sched)
          → (s1.thread s.current).state ≡ (s.thread s.current).state
          → s1.idle ≡ s.idle
          → ◌≡◌ {A = List ℕ}
              (if is_running (s1.thread s.current).state && not (s.current == s1.idle)
                then xs ++ s.current ∷ []
                else xs)
              (waiting s (x ∷ xs))
      after s1 st id =
          ap (λ b. if is_running b && not (s.current == s1.idle) then xs ++ s.current ∷ [] else xs)
            st
          ∙ ap
              (λ i.
                if is_running (s.thread s.current).state && not (s.current == i)
                then xs ++ s.current ∷ []
                else xs)
              id

      single : times x (s.current ∷ []) ≡ 0
      single = times_other x s.current other

      still_free : Free xs ss x → Free (waiting s (x ∷ xs)) ss x
      still_free free =
          elim (Bool-cases (is_running (s.thread s.current).state && not (s.current == s.idle))) [
            | inl e ↦
                rw e (omega (arith, times-append x xs (s.current ∷ []), free.0, single), free.1)
            | inr e ↦ rw e free
          ]

  empty-Scheduled :
      Queues s [] ss
      → Free [] ss s.idle
      → (s.current ≢ s.idle) ⊎ ((s.thread s.current).state ≡ running)
      → Scheduled s [] ss (schedule s)
  empty-Scheduled q fi alt = elim (Bool-cases (is_running (s.thread s.current).state)) [
    | inl e ↦ stays e
    | inr e ↦ leaves e
  ]
    where
      stays : is_running (s.thread s.current).state ≡ true → Scheduled s [] ss (schedule s)
      stays e =
          let to = change s.current (λ x. record x { need_resched = 0 }) s in
          let is : schedule s ≡ to =
            schedule-empty s (dequeue_ready-none q) nc np ∙ (rw (e, same s.current) refl) in
          rw is (record {
            current =
                (change-fields s.current (λ x. record x { need_resched = 0 }) s).0 ∙ rw e refl;
            runs = rw e (
                change-state s.current (λ x. record x { need_resched = 0 }) s s.current (λ z. refl)
                ∙ is_running-state (s.thread s.current).state e);
            queues = change-Queues s.current _ q (running-Free s.current q e);
          })

      other : is_running (s.thread s.current).state ≡ false → s.idle ≢ s.current
      other e k = elim alt [
        | inl ne ↦ ne (sym k)
        | inr h ↦ absurd (ground (arith, sym e ∙ ap is_running h))
      ]

      leaves : is_running (s.thread s.current).state ≡ false → Scheduled s [] ss (schedule s)
      leaves e =
          let to = switch_to s.idle (put_back s.current s) in
          let is : schedule s ≡ to =
            schedule-empty s (dequeue_ready-none q) nc np
            ∙ (rw (e, apart s.idle s.current (other e)) refl) in
          rw is (record {
            current = (switch_to-runs s.idle (put_back s.current s)).0 ∙ rw e refl;
            runs = rw e (switch_to-runs s.idle (put_back s.current s)).1;
            queues =
                switch_to-Queues s.idle
                  (subst (λ (l : List ℕ). Queues (put_back s.current s) l ss) (rw e refl)
                    (put_back-Queues s.current nc q))
                  fi;
          })

-- In a state with well-linked queues, a current thread that is not marked as ready and may be
-- preempted, and an idle thread that is in no queue and runs where it is the current one, `schedule`
-- gives the processor to the first ready thread; with none, it leaves it to the current thread if
-- that is running, else to the idle thread. The chosen thread is running, the queues are well-linked
-- again, and a running thread that is not the idle one went to the end of the ready queue.
pub schedule_lem :
    (s : Sched) (rs ss : List ℕ)
    → Queues s rs ss
    → s.current ≢ 0
    → Free rs ss s.idle
    → (s.current ≢ s.idle) ⊎ ((s.thread s.current).state ≡ running)
    → (s.thread s.current).preempt_count ≡ 0
    → (s.thread s.current).state ≢ ready
    → Scheduled s rs ss (schedule s)
schedule_lem s [] ss q nc fi alt np nr = empty-Scheduled s ss nc np q fi alt
schedule_lem s (x ∷ xs) ss q nc fi alt np nr = busy-Scheduled s ss nc np x xs q nr
