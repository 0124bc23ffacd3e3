-- ===== src/Sched/Tick.antt =====
-- What a tick does to the sleeping threads.
use nova_os.Base.{
  ℕ, zero, suc, ◌-◌, ◌≤◌, ◌≡◌, refl, sym, ap, ◌∙◌, ◌≢◌, inl, inr, Bool, false, Option, none, some,
  List, [], ◌∷◌, ◌++◌, arith, ltb, leb, ◌==◌, if◌then◌else◌, Bool-cases, length, add64,
}
use mathlib.Core.Path.{subst}
use mathlib.Core.List.{append-nil, append_assoc}
use nova_os.Sched.{
  Thread, Sched, change, enqueue_ready, unlink_sleep, want_resched, wake_loop, count_slice,
  sched_tick,
}
use nova_os.Sched.Links.{first, last, Linked, Linked-same, Linked-split}
use nova_os.Sched.Queues.{Queues, Free, apart, enqueue-fields, enqueue_ready-Queues}
use nova_os.Sched.Sleep.{unlink-keeps, unlink-fields, unlink_sleep-Queues}

-- The threads whose sleep is over, and the others, in the order of the sleep queue.
unfoldable pub due : (ℕ → ℕ) → ℕ → List ℕ → List ℕ
due target now [] = []
due target now (x ∷ xs) =
    let rest = due target now xs in if leb (target x) now then x ∷ rest else rest

unfoldable pub asleep : (ℕ → ℕ) → ℕ → List ℕ → List ℕ
asleep target now [] = []
asleep target now (x ∷ xs) =
    let rest = asleep target now xs in if leb (target x) now then rest else x ∷ rest

-- The queues as lists, beside the times at which threads wake up and the variables that the walk leaves.
pub record Walked (target : ℕ → ℕ) (now current idle : ℕ) (rs ss : List ℕ) (s : Sched)
    : Type 0 where
  pub queues : Queues s rs ss
  pub same_current : s.current ≡ current
  pub same_idle : s.idle ≡ idle
  pub same_ticks : s.ticks ≡ now
  pub same_targets : (t : ℕ) → (s.thread t).sleep_target_ticks ≡ target t

-- A change of one thread that leaves its links, its state and its time.
record Harmless (f : Thread → Thread) : Type 0 where
  next_kept : (x : Thread) → (f x).next ≡ x.next
  prev_kept : (x : Thread) → (f x).prev ≡ x.prev
  state_kept : (x : Thread) → (f x).state ≡ x.state
  target_kept : (x : Thread) → (f x).sleep_target_ticks ≡ x.sleep_target_ticks

module _ {target : ℕ → ℕ} {now current idle : ℕ} {rs ss : List ℕ} {s : Sched}
    (w : Walked target now current idle rs ss s) where
  harmless-Walked :
      (t : ℕ) (f : Thread → Thread)
      → Harmless f
      → Walked target now current idle rs ss (change t f s)
  unfolding change
  harmless-Walked t f k = record {
    queues = record {
      ready_links =
          Linked-same s.thread _ 0 rs 0
            (λ u h. (kept (λ x. x.prev) k.prev_kept u, kept (λ x. x.next) k.next_kept u))
            w.queues.ready_links;
      ready_first = w.queues.ready_first;
      ready_last = w.queues.ready_last;
      ready_once = w.queues.ready_once;
      ready_state = λ u h. kept (λ x. x.state) k.state_kept u ∙ w.queues.ready_state u h;
      sleep_links =
          Linked-same s.thread _ 0 ss 0
            (λ u h. (kept (λ x. x.prev) k.prev_kept u, kept (λ x. x.next) k.next_kept u))
            w.queues.sleep_links;
      sleep_first = w.queues.sleep_first;
      sleep_once = w.queues.sleep_once;
      sleep_state = λ u h. kept (λ x. x.state) k.state_kept u ∙ w.queues.sleep_state u h;
    };
    same_current = w.same_current;
    same_idle = w.same_idle;
    same_ticks = w.same_ticks;
    same_targets = λ u. kept (λ x. x.sleep_target_ticks) k.target_kept u ∙ w.same_targets u;
  }
    where
      kept :
          {A : Type 0} (g : Thread → A)
          → ((x : Thread) → g (f x) ≡ g x)
          → (u : ℕ) → g (if u == t then f (s.thread u) else s.thread u) ≡ g (s.thread u)
      kept g h u = elim (Bool-cases (u == t)) [ inl e ↦ rw e (h (s.thread u)) | inr e ↦ rw e refl ]

  reschedule :
      Walked target now current idle rs ss (change s.current (λ x. record x { need_resched = 1 }) s)
  reschedule =
      harmless-Walked s.current (λ x. record x { need_resched = 1 })
        (record {
          next_kept = λ x. refl;
          prev_kept = λ x. refl;
          state_kept = λ x. refl;
          target_kept = λ x. refl;
        })

  resched-Walked : Walked target now current idle rs ss (want_resched s)
  resched-Walked = elim (Bool-cases (s.current == 0)) [ inl e ↦ rw e w | inr e ↦ rw e reschedule ]

  count_slice-Walked : Walked target now current idle rs ss (count_slice s)
  unfolding count_slice
  count_slice-Walked = elim (Bool-cases (s.current == 0)) [
    | inl e ↦ rw (count_slice, e) w
    | inr e ↦ elim (Bool-cases (s.current == s.idle)) [
      | inl i ↦ elim (Bool-cases (s.ready_head == 0)) [
        | inl r ↦ rw (count_slice, e) (rw i (rw r w))
        | inr r ↦ rw (count_slice, e) (rw i (rw r reschedule))
      ]
      | inr i ↦ elim (Bool-cases (ltb 0 (s.thread s.current).time_slice)) [
        | inl l ↦
            rw (count_slice, e)
              (rw i (
                rw l (
                  harmless-Walked s.current
                    (λ x. record x {
                      time_slice = (s.thread s.current).time_slice - 1;
                      need_resched =
                          if (s.thread s.current).time_slice - 1 == 0 then 1 else x.need_resched;
                    })
                    (record {
                      next_kept = λ x. refl;
                      prev_kept = λ x. refl;
                      state_kept = λ x. refl;
                      target_kept = λ x. refl;
                    }))))
        | inr l ↦ rw (count_slice, e) (rw i (rw l w))
      ]
    ]
  ]

enqueue-target :
    (t : ℕ) (s : Sched) (u : ℕ)
    → ((enqueue_ready t s).thread u).sleep_target_ticks ≡ (s.thread u).sleep_target_ticks
unfolding enqueue_ready change
enqueue-target t s u = elim (Bool-cases (s.ready_tail == 0)) [
  | inl e ↦ rw e (ground arith)
  | inr e ↦ rw e (ground arith)
]

module _ {target : ℕ → ℕ} {now current idle : ℕ} where
  enqueue-Walked :
      {rs ss : List ℕ} {s : Sched} (t : ℕ)
      → Walked target now current idle rs ss s
      → t ≢ 0
      → Free rs ss t
      → Walked target now current idle (rs ++ t ∷ []) ss (enqueue_ready t s)
  enqueue-Walked {rs} {ss} {s} t w ne out = record {
    queues = enqueue_ready-Queues w.queues t ne out;
    same_current = (enqueue-fields t s).3 ∙ w.same_current;
    same_idle = (enqueue-fields t s).4 ∙ w.same_idle;
    same_ticks = (enqueue-fields t s).5 ∙ w.same_ticks;
    same_targets = λ u. enqueue-target t s u ∙ w.same_targets u;
  }

  unlink-Walked :
      {rs : List ℕ} {s : Sched} (xs ys : List ℕ) (t : ℕ)
      → Walked target now current idle rs (xs ++ (t ∷ ys)) s
      → Walked target now current idle rs (xs ++ ys) (unlink_sleep t s) × Free rs (xs ++ ys) t
  unlink-Walked {rs} {s} xs ys t w =
      let (gone, out) = unlink_sleep-Queues xs ys t w.queues in
      (
        record {
          queues = gone;
          same_current = (unlink-fields t s).3 ∙ w.same_current;
          same_idle = (unlink-fields t s).4 ∙ w.same_idle;
          same_ticks = (unlink-fields t s).5 ∙ w.same_ticks;
          same_targets = λ u. (unlink-keeps t s u).1 ∙ w.same_targets u;
        },
        out,
      )

  wake_loop-Walked :
      (k : ℕ) {rs : List ℕ} {s : Sched} (xs ys : List ℕ)
      → length ys ≤ k
      → Walked target now current idle rs (xs ++ ys) s
      → (s' : Sched) × (wake_loop k (first ys 0) s ≡ some s')
        × Walked target now current idle (rs ++ due target now ys) (xs ++ asleep target now ys) s'
  unfolding wake_loop due asleep Linked
  wake_loop-Walked zero {rs} {s} xs [] h w = (s, refl, rw (append-nil rs) w)
  wake_loop-Walked (suc k) {rs} {s} xs [] h w = (s, refl, rw (append-nil rs) w)
  wake_loop-Walked zero xs (t ∷ ys) h w = absurd (omega (arith, h))
  wake_loop-Walked (suc k) {rs} {s} xs (t ∷ ys) h w = elim (Bool-cases (leb (target t) now)) [
    | inl over ↦
        let (gone, out) = unlink-Walked xs ys t w in
        let (s', e, r) =
          wake_loop-Walked k xs ys (omega (arith, h))
            (resched-Walked (enqueue-Walked t gone nonzero out)) in
        (
          s',
          step over ∙ ap (λ n. wake_loop k n woken) at.2 ∙ e,
          rw over (
              subst (λ l. Walked target now current idle l (xs ++ asleep target now ys) s')
                (append_assoc rs (t ∷ []) (due target now ys)) r),
        )
    | inr more ↦
        let (s', e, r) = wake_loop-Walked k (xs ++ t ∷ []) ys (omega (arith, h)) (
          subst (λ l. Walked target now current idle rs l s) (sym (append_assoc xs (t ∷ []) ys))
            w) in
        (
          s',
          step more ∙ ap (λ n. wake_loop k n s) at.2 ∙ e,
          rw more (
              subst (λ l. Walked target now current idle (rs ++ due target now ys) l s')
                (append_assoc xs (t ∷ []) (asleep target now ys)) r),
        )
  ]
    where
      at : Linked s.thread (last 0 xs) (t ∷ ys) 0
      at = (Linked-split s.thread 0 xs (t ∷ ys) 0 w.queues.sleep_links).1

      nonzero : t ≢ 0
      nonzero = at.0

      woken : Sched
      woken = want_resched (enqueue_ready t (unlink_sleep t s))

      not_null : (t == 0) ≡ false
      not_null = apart t 0 nonzero

      step :
          {b : Bool}
          → leb (target t) now ≡ b
          → wake_loop (suc k) t s ≡ wake_loop k (s.thread t).next (if b then woken else s)
      step {b} e =
          rw (wake_loop, not_null)
            (ap (λ c. wake_loop k (s.thread t).next (if c then woken else s)) (at_time ∙ e))
        where
          at_time : leb (s.thread t).sleep_target_ticks s.ticks ≡ leb (target t) now
          at_time = rw (w.same_targets t, w.same_ticks) refl

-- In a state with well-linked queues, with fuel for the sleeping threads, `schedTick` ends. Every sleeping thread
-- whose time has come by the new tick is then at the end of the ready queue, in the order of the sleep queue;
-- exactly the others sleep on, and the queues are well-linked. The current thread stays the current one.
pub sched_tick-Walked :
    (fuel : ℕ) (s : Sched) (rs ss : List ℕ)
    → Queues s rs ss
    → length ss ≤ fuel
    → (s' : Sched) × (sched_tick fuel s ≡ some s')
      × Walked
          (λ t. (s.thread t).sleep_target_ticks)
          (add64 s.ticks 1)
          s.current
          s.idle
          (rs ++ due (λ t. (s.thread t).sleep_target_ticks) (add64 s.ticks 1) ss)
          (asleep (λ t. (s.thread t).sleep_target_ticks) (add64 s.ticks 1) ss)
          s'
unfolding sched_tick
sched_tick-Walked fuel s rs ss q h =
    let (s', e, w) = wake_loop-Walked fuel [] ss h (record {
      queues = counted;
      same_current = refl;
      same_idle = refl;
      same_ticks = refl;
      same_targets = λ t. refl;
    }) in
    (
      count_slice s',
      ap finished
          (ap (λ t. wake_loop fuel t (record s { ticks = add64 s.ticks 1 })) q.sleep_first ∙ e),
      count_slice-Walked w,
    )
  where
    finished : Option Sched → Option Sched
    finished r = elim r [ none ↦ none | some u ↦ some (count_slice u) ]

    counted : Queues (record s { ticks = add64 s.ticks 1 }) rs ss
    counted = record {
      ready_links = q.ready_links;
      ready_first = q.ready_first;
      ready_last = q.ready_last;
      ready_once = q.ready_once;
      ready_state = q.ready_state;
      sleep_links = q.sleep_links;
      sleep_first = q.sleep_first;
      sleep_once = q.sleep_once;
      sleep_state = q.sleep_state;
    }
