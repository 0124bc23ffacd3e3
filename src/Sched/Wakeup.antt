-- ===== src/Sched/Wakeup.antt =====
-- A thread that a tick wakes between `schedSleep`'s unlock and its call of `schedule`.
use nova_os.Base.{ℕ, ◌≡◌, refl, sym, ap, ◌∙◌, ◌≢◌, List, ◌∷◌, arith}
use mathlib.Core.Path.{subst}
use nova_os.Sched.{ready, Sched, change, dequeue_ready, schedule}
use nova_os.Sched.Links.{times_self}
use nova_os.Sched.Queues.{Queues, Free, same, apart}
use nova_os.Sched.Take.{change-Queues, change-fields, change-state, dequeue_ready-Queues}

returns :
    (s s1 : Sched)
    → dequeue_ready s ≡ (s.current, s1)
    → s.current ≢ 0
    → (s.thread s.current).preempt_count ≡ 0
    → schedule s ≡ change s.current (λ x. record x { need_resched = 0 }) s1
unfolding schedule
returns s s1 e nc np = rw (e, apart s.current 0 nc, np, same s.current) refl

-- With well-linked queues whose first ready thread is the current one, and that one preemptible,
-- `schedule` returns to it: it stays the current thread and marked as ready, and is in no queue.
pub schedule-woken :
    (s : Sched) (xs ss : List ℕ)
    → Queues s (s.current ∷ xs) ss
    → s.current ≢ 0
    → (s.thread s.current).preempt_count ≡ 0
    → ((schedule s).current ≡ s.current)
      × (((schedule s).thread s.current).state ≡ ready)
      × Queues (schedule s) xs ss
      × Free xs ss s.current
schedule-woken s xs ss q nc np =
    let (s1, e, q1, free, cur, idl, sts) = dequeue_ready-Queues s.current q in
    let is = returns s s1 e nc np in
    (
      ap (λ (t : Sched). t.current) is ∙ (change-fields s.current _ s1).0 ∙ cur,
      ap (λ (t : Sched). (t.thread s.current).state) is
          ∙ change-state s.current _ s1 s.current (λ z. refl)
          ∙ sts s.current
          ∙ q.ready_state s.current (omega (arith, times_self s.current xs)),
      subst (λ (t : Sched). Queues t xs ss) (sym is) (change-Queues s.current _ q1 free),
      free,
    )
