-- ===== src/Sync/Waiting.antt =====
-- A queue of waiting threads, and that the scheduler leaves it.
use nova_os.Base.{
  ℕ, ◌≤◌, ◌<◌, ◌≡◌, refl, sym, ap, ◌∙◌, ◌≢◌, inl, inr, List, [], ◌∷◌, ◌++◌, arith, ◌==◌, Bool-cases,
}
use mathlib.Core.Path.{subst}
use nova_os.Sched.{
  Thread, Sched, change, drop_head, dequeue_ready, switch_to, enqueue_ready, sched_block_current,
}
use nova_os.Sched.Links.{times, last, times_self, last-in}
use nova_os.Sync.{Waiters}

-- The threads, from the first one on, along `wait_next`.
unfoldable pub Waiting : (ℕ → ℕ) → ℕ → List ℕ → Type 0
Waiting w head [] = head ≡ 0
Waiting w head (x ∷ xs) = (head ≡ x) × (x ≢ 0) × Waiting w (w x) xs

pub record Queue (w : ℕ → ℕ) (q : Waiters) (ws : List ℕ) : Type 0 where
  pub links : Waiting w q.head ws
  pub tail : q.tail ≡ last 0 ws
  pub once : (x : ℕ) → times x ws ≤ 1

abbrev pub wait_links : Sched → ℕ → ℕ
wait_links s x = (s.thread x).wait_next

pub Waiting-same :
    (w w' : ℕ → ℕ) (head : ℕ) (xs : List ℕ)
    → ((x : ℕ) → 0 < times x xs → w' x ≡ w x)
    → Waiting w head xs
    → Waiting w' head xs
unfolding Waiting times
Waiting-same w w' head [] same t = t
Waiting-same w w' head (x ∷ xs) same (e, ne, t) = (
  e,
  ne,
  subst (λ n. Waiting w' n xs) (sym (same x (ground arith)))
      (Waiting-same w w' (w x) xs (λ y h. same y (omega (arith, h))) t),
)

-- A thread that does not wait yet gets behind the last one.
pub Waiting-push :
    (w w' : ℕ → ℕ) (head : ℕ) (x : ℕ) (xs : List ℕ) (t : ℕ)
    → Waiting w head (x ∷ xs)
    → ((y : ℕ) → times y (x ∷ xs) ≤ 1)
    → times t (x ∷ xs) ≡ 0
    → t ≢ 0
    → ((y : ℕ) → y ≢ t → y ≢ last x xs → w' y ≡ w y)
    → w' (last x xs) ≡ t
    → w' t ≡ 0
    → Waiting w' head (x ∷ (xs ++ t ∷ []))
unfolding Waiting times last
Waiting-push w w' head x [] t (e, ne, z) once out nt others link no_next =
    (e, ne, (link, nt, no_next))
Waiting-push w w' head x (y ∷ xs) t (e, ne, rest) once out nt others link no_next = (
  e,
  ne,
  subst (λ n. Waiting w' n (y ∷ (xs ++ t ∷ [])))
      (sym (others x (λ q. ground (arith, q, out)) (alone (once x))))
      (Waiting-push w w' (w x) y xs t rest (λ z. omega (arith, once z)) (omega (arith, out)) nt
        others link no_next),
)
  where
    alone : times x (x ∷ y ∷ xs) ≤ 1 → x ≢ last y xs
    alone once q =
        omega (arith, once, last-in y xs, times_self x (y ∷ xs), ap (λ z. times z (y ∷ xs)) q)

-- Writing other fields leaves the queue.
pub change-wait_links :
    (t : ℕ) (f : Thread → Thread) (s : Sched)
    → ((x : Thread) → (f x).wait_next ≡ x.wait_next)
    → (u : ℕ) → wait_links (change t f s) u ≡ wait_links s u
unfolding change
change-wait_links t f s keeps u = elim (Bool-cases (u == t)) [
  | inl e ↦ rw (wait_links, e) (keeps (s.thread u))
  | inr e ↦ rw (wait_links, e) refl
]

pub enqueue_ready-wait_links :
    (t : ℕ) (s : Sched) (u : ℕ) → wait_links (enqueue_ready t s) u ≡ wait_links s u
unfolding enqueue_ready
enqueue_ready-wait_links t s u = elim (Bool-cases (s.ready_tail == 0)) [
  | inl e ↦ rw e (change-wait_links t _ s (λ x. refl) u)
  | inr e ↦ rw e (
      change-wait_links s.ready_tail (λ x. record x { next = t }) _ (λ x. refl) u
      ∙ change-wait_links t _ s (λ x. refl) u)
]

drop_head-wait_links : (s : Sched) (u : ℕ) → wait_links (drop_head s) u ≡ wait_links s u
unfolding drop_head
drop_head-wait_links s u = elim (Bool-cases ((s.thread s.ready_head).next == 0)) [
  | inl e ↦ rw e refl
  | inr e ↦ rw e (change-wait_links _ (λ x. record x { prev = 0 }) _ (λ x. refl) u)
]

dequeue_ready-wait_links : (s : Sched) (u : ℕ) → wait_links (dequeue_ready s).1 u ≡ wait_links s u
unfolding dequeue_ready
dequeue_ready-wait_links s u = elim (Bool-cases (s.ready_head == 0)) [
  | inl e ↦ rw e refl
  | inr e ↦
      rw e (change-wait_links s.ready_head _ (drop_head s) (λ x. refl) u ∙ drop_head-wait_links s u)
]

pub sched_block_current-wait_links :
    (s : Sched) (u : ℕ) → wait_links (sched_block_current s) u ≡ wait_links s u
unfolding sched_block_current switch_to
sched_block_current-wait_links s u =
    change-wait_links _ _ _ (λ x. refl) u
    ∙ dequeue_ready-wait_links _ u
    ∙ change-wait_links s.current _ s (λ x. refl) u
