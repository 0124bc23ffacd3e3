-- ===== src/Sync/HandOff.antt =====
-- A mutex is handed to its waiters in the order in which they came.
use nova_os.Base.{
  ℕ, ◌≤◌, ◌<◌, ◌≡◌, refl, sym, ap, ◌∙◌, ◌≢◌, ◌⊎◌, inl, inr, true, false, List, [], ◌∷◌, arith, ◌==◌,
  if◌then◌else◌,
}
use mathlib.Core.Path.{subst}
use nova_os.Sched.{Sched, change, enqueue_ready}
use nova_os.Sched.Links.{times, last, times-more, times_self}
use nova_os.Sync.{Waiters, Mutex, set_wait_next, leave_waiters, mutex_unlock}
use nova_os.Sync.Waiting.{Waiting, Waiting-same, Queue, wait_links, enqueue_ready-wait_links}

set_wait_next-other :
    (t n : ℕ) (s : Sched) (u : ℕ) → u ≢ t → wait_links (set_wait_next t n s) u ≡ wait_links s u
unfolding set_wait_next change
set_wait_next-other t n s u ne = rw (wait_links, test) refl
  where
    test : (u == t) ≡ false
    test = ground (arith, ne)

module _ (q : Waiters) (s : Sched) where
  -- The first one leaves, and the others stay in their order.
  leave_waiters-Queue :
      (x : ℕ) (xs : List ℕ)
      → Queue (wait_links s) q (x ∷ xs)
      → Queue (wait_links (leave_waiters q s).1) (leave_waiters q s).0 xs
  unfolding leave_waiters Waiting last
  leave_waiters-Queue x xs queue = record {
    links =
        Waiting-same (wait_links s) (wait_links (set_wait_next q.head 0 s)) (wait_links s q.head) xs
          (λ y h.
            set_wait_next-other q.head 0 s y (λ e. apart y h (queue.once x) (e ∙ queue.links.0)))
          (subst (λ h. Waiting (wait_links s) (wait_links s h) xs) (sym queue.links.0)
            queue.links.2);
    tail =
        left_tail xs (wait_links s q.head) queue.tail (
          subst (λ h. Waiting (wait_links s) (wait_links s h) xs) (sym queue.links.0)
            queue.links.2);
    once = λ y. omega (arith, times-more y x xs, queue.once y);
  }
    where
      apart : (y : ℕ) → 0 < times y xs → times x (x ∷ xs) ≤ 1 → y ≢ x
      apart y h once e = omega (arith, h, once, times_self x xs, ap (λ z. times z xs) e)

      left_tail :
          (xs : List ℕ) (n : ℕ)
          → q.tail ≡ last 0 (x ∷ xs)
          → Waiting (wait_links s) n xs
          → (if n == 0 then 0 else q.tail) ≡ last 0 xs
      left_tail [] n e t = ground (arith, t)
      left_tail (y ∷ ys) n e (here, ne, rest) = ground (arith, here, ne, e)

Queue-same :
    (w w' : ℕ → ℕ) (q : Waiters) (ws : List ℕ)
    → ((x : ℕ) → w' x ≡ w x)
    → Queue w q ws
    → Queue w' q ws
Queue-same w w' q ws same queue = record {
  links = Waiting-same w w' q.head ws (λ x h. same x) queue.links;
  tail = queue.tail;
  once = queue.once;
}

-- With no waiters, `mutex_unlock` leaves the mutex free. Otherwise the mutex stays locked: it belongs to the
-- thread that has waited longest, which is no waiter any more, and the others wait on in their order.
pub mutex_unlock-Queue :
    (m : Mutex) (s : Sched) (ws : List ℕ)
    → Queue (wait_links s) m.waiters ws
    → m.locked ≡ true
    → let (m', s') = mutex_unlock m s in
      ((ws ≡ []) × (m'.locked ≡ false) × (m'.owner ≡ 0) × (s' ≡ s))
      ⊎ ((x : ℕ) × (xs : List ℕ) × (ws ≡ x ∷ xs)
          × (m'.locked ≡ true)
          × (m'.owner ≡ x)
          × (s' ≡ enqueue_ready x (leave_waiters m.waiters s).1)
          × Queue (wait_links s') m'.waiters xs)
unfolding mutex_unlock Waiting
mutex_unlock-Queue m s [] queue locked =
    rw (mutex_unlock, nobody queue.links) (inl (refl, refl, refl, refl))
  where
    nobody : m.waiters.head ≡ 0 → (m.waiters.head == 0) ≡ true
    nobody e = ground (arith, e)
mutex_unlock-Queue m s (x ∷ xs) queue locked =
    rw (mutex_unlock, somebody queue.links.0 queue.links.1)
      (inr (
        x,
        xs,
        refl,
        locked,
        queue.links.0,
        ap (λ h. enqueue_ready h (leave_waiters m.waiters s).1) queue.links.0,
        Queue-same (wait_links (leave_waiters m.waiters s).1) _ _ _
            (enqueue_ready-wait_links m.waiters.head (leave_waiters m.waiters s).1)
            (leave_waiters-Queue m.waiters s x xs queue),
      ))
  where
    somebody : m.waiters.head ≡ x → x ≢ 0 → (m.waiters.head == 0) ≡ false
    somebody e ne = ground (arith, e, ne)
