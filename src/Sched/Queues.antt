-- ===== src/Sched/Queues.antt =====
-- The two queues of the scheduler as lists of threads, and what the operations on them do.
use nova_os.Base.{
  ℕ, ◌≤◌, ◌<◌, ◌≡◌, refl, sym, ap, ◌∙◌, ◌≢◌, ◌⊎◌, inl, inr, true, false, not, ◌&&◌, List, [], ◌∷◌,
  ◌++◌, arith, ltb, ◌==◌, if◌then◌else◌, ltb→lt, ==_iff, Bool-cases,
}
use nova_os.Sched.{ready, sleeping, Thread, Sched, change, enqueue_ready}
use nova_os.Sched.Links.{
  times, first, last, Linked, times-append, first-push, last-append, Linked-same, Linked-nonzero,
  Linked-push, last-in,
}

-- The ready queue holds the threads of `rs` in this order, the sleep queue those of `ss`. A thread
-- is in one of them at most, and its state says in which.
pub record Queues (s : Sched) (rs ss : List ℕ) : Type 0 where
  pub ready_links : Linked s.thread 0 rs 0
  pub ready_first : s.ready_head ≡ first rs 0
  pub ready_last : s.ready_tail ≡ last 0 rs
  pub ready_once : (t : ℕ) → times t rs ≤ 1
  pub ready_state : (t : ℕ) → 0 < times t rs → (s.thread t).state ≡ ready
  pub sleep_links : Linked s.thread 0 ss 0
  pub sleep_first : s.sleep_head ≡ first ss 0
  pub sleep_once : (t : ℕ) → times t ss ≤ 1
  pub sleep_state : (t : ℕ) → 0 < times t ss → (s.thread t).state ≡ sleeping

-- A thread in neither queue.
abbrev pub Free : List ℕ → List ℕ → ℕ → Type 0
Free rs ss t = (times t rs ≡ 0) × (times t ss ≡ 0)

module _ (t : ℕ) (f : Thread → Thread) (s : Sched) where
  pub change_self : (change t f s).thread t ≡ f (s.thread t)
  unfolding change
  change_self = rw ((==_iff t t).1 refl) refl

  pub change_other : (u : ℕ) → u ≢ t → (change t f s).thread u ≡ s.thread u
  unfolding change
  change_other u ne = rw off refl
    where
      off : (u == t) ≡ false
      off = ground arith

-- The outcomes of a comparison of addresses.
pub same : (t : ℕ) → (t == t) ≡ true
same t = (==_iff t t).1 refl

pub apart : (t u : ℕ) → t ≢ u → (t == u) ≡ false
apart t u ne = ground arith

-- The threads after `enqueueReady`.
module _ (t : ℕ) (s : Sched) (ne : s.ready_tail ≢ t) where
  enqueue_self :
      (enqueue_ready t s).thread t
      ≡ record (s.thread t) { state = ready; next = 0; prev = s.ready_tail }
  unfolding enqueue_ready change
  enqueue_self = elim (Bool-cases (s.ready_tail == 0)) [
    | inl e ↦ rw (e, same t) refl
    | inr e ↦ rw (e, same t, apart t s.ready_tail (λ h. ne (sym h))) refl
  ]

  -- The last thread of the queue gets a successor; nothing else changes in another thread.
  enqueue_other :
      (u : ℕ)
      → u ≢ t
      → (enqueue_ready t s).thread u ≡ (
          if (u == s.ready_tail) && not (s.ready_tail == 0)
          then record (s.thread u) { next = t }
          else s.thread u)
  unfolding enqueue_ready change
  enqueue_other u nt = elim (Bool-cases (s.ready_tail == 0)) [
    | inl e ↦
        rw (e, apart u t nt)
          (elim (Bool-cases (u == s.ready_tail)) [
            | inl here ↦ rw here refl
            | inr there ↦ rw there refl
          ])
    | inr e ↦
        rw (e, apart u t nt)
          (elim (Bool-cases (u == s.ready_tail)) [
            | inl here ↦ rw here refl
            | inr there ↦ rw there refl
          ])
  ]

  pub enqueue-keeps :
      (u : ℕ)
      → u ≢ t
      → (((enqueue_ready t s).thread u).prev ≡ (s.thread u).prev)
        × (((enqueue_ready t s).thread u).state ≡ (s.thread u).state)
  enqueue-keeps u nt = elim (Bool-cases ((u == s.ready_tail) && not (s.ready_tail == 0))) [
    | inl e ↦ rw (enqueue_other u nt, e) (refl, refl)
    | inr e ↦ rw (enqueue_other u nt, e) (refl, refl)
  ]

  enqueue-next :
      (u : ℕ) → u ≢ t → u ≢ s.ready_tail → ((enqueue_ready t s).thread u).next ≡ (s.thread u).next
  enqueue-next u nt nl = rw (enqueue_other u nt, apart u s.ready_tail nl) refl

  enqueue-last : s.ready_tail ≢ 0 → ((enqueue_ready t s).thread s.ready_tail).next ≡ t
  enqueue-last h =
      rw (enqueue_other s.ready_tail ne, same s.ready_tail, apart s.ready_tail 0 h) refl

-- The other variables after `enqueueReady`.
pub enqueue-fields :
    (t : ℕ) (s : Sched)
    → ((enqueue_ready t s).ready_head ≡ (if s.ready_tail == 0 then t else s.ready_head))
      × ((enqueue_ready t s).ready_tail ≡ t)
      × ((enqueue_ready t s).sleep_head ≡ s.sleep_head)
      × ((enqueue_ready t s).current ≡ s.current)
      × ((enqueue_ready t s).idle ≡ s.idle)
      × ((enqueue_ready t s).ticks ≡ s.ticks)
unfolding enqueue_ready change
enqueue-fields t s = elim (Bool-cases (s.ready_tail == 0)) [
  | inl e ↦ rw e (refl, refl, refl, refl, refl, refl)
  | inr e ↦ rw e (refl, refl, refl, refl, refl, refl)
]

last-in-or :
    (th : ℕ → Thread) (xs : List ℕ)
    → Linked th 0 xs 0
    → ((xs ≡ []) × (last 0 xs ≡ 0))
      ⊎ ((0 < times (last 0 xs) xs) × (last 0 xs ≢ 0) × (first xs 0 ≢ 0))
unfolding last times Linked
last-in-or th [] l = inl (refl, refl)
last-in-or th (x ∷ xs) l = inr (
  last-in x xs,
  (λ e.
      ground (arith, last-in x xs, ap (λ z. times z (x ∷ xs)) e, Linked-nonzero th 0 (x ∷ xs) 0 l)),
  l.0,
)

module _ {s : Sched} {rs ss : List ℕ} (q : Queues s rs ss) where
  -- One that is marked neither as ready nor as sleeping is in neither.
  pub state-Free :
      (t : ℕ) → (s.thread t).state ≢ ready → (s.thread t).state ≢ sleeping → Free rs ss t
  state-Free t nr ns = (zero (λ h. nr (q.ready_state t h)), zero (λ h. ns (q.sleep_state t h)))
    where
      zero : {n : ℕ} → ((0 < n) → ⊥) → n ≡ 0
      zero {n} h = ground (arith, h)

  -- A ready thread is not asleep.
  pub ready-awake : (t : ℕ) → 0 < times t rs → times t ss ≡ 0
  ready-awake t h = elim (Bool-cases (ltb 0 (times t ss))) [
    | inl both ↦
        absurd (differ (sym (q.ready_state t h) ∙ q.sleep_state t (ltb→lt 0 (times t ss) both)))
    | inr none' ↦ ground arith
  ]
    where
      differ : ready ≢ sleeping
      differ e = ground (arith, e)

  module _ (t : ℕ) (ne : t ≢ 0) (out : Free rs ss t) where
    tail_apart : s.ready_tail ≢ t
    tail_apart e = elim (last-in-or s.thread rs q.ready_links) [
      | inl (_, h) ↦ ne (sym e ∙ q.ready_last ∙ h)
      | inr (h, _, _) ↦ omega (arith, h, out.0, ap (λ z. times z rs) (sym e ∙ q.ready_last))
    ]

    tail_links : 0 < times (last 0 rs) rs → ((enqueue_ready t s).thread (last 0 rs)).next ≡ t
    tail_links h = rw (sym q.ready_last) (
        enqueue-last t s tail_apart (λ e. omega (
          arith,
          h,
          ap (λ z. times z rs) (sym q.ready_last ∙ e),
          Linked-nonzero s.thread 0 rs 0 q.ready_links,
        )))

    other_than : (u : ℕ) (xs : List ℕ) → times t xs ≡ 0 → 0 < times u xs → u ≢ t
    other_than u xs n h e = omega (arith, n, h, ap (λ z. times z xs) e)

    not_tail : (u : ℕ) → 0 < times u ss → u ≢ s.ready_tail
    not_tail u h e = elim (last-in-or s.thread rs q.ready_links) [
      | inl (_, z) ↦ omega (
        arith,
        h,
        Linked-nonzero s.thread 0 ss 0 q.sleep_links,
        ap (λ z. times z ss) (e ∙ q.ready_last ∙ z),
      )
      | inr (l, _, _) ↦
          omega (arith, h, ready-awake (last 0 rs) l, ap (λ z. times z ss) (e ∙ q.ready_last))
    ]

    head_now : (enqueue_ready t s).ready_head ≡ first (rs ++ t ∷ []) 0
    head_now = (enqueue-fields t s).0 ∙ elim (last-in-or s.thread rs q.ready_links) [
      | inl (e, z) ↦ rw (q.ready_last, z, e) refl
      | inr (_, z, h) ↦
          rw (q.ready_last, apart (last 0 rs) 0 z) (q.ready_first ∙ sym (first-push rs t h))
    ]

    single : (u : ℕ) → times u (t ∷ []) ≡ (if t == u then 1 else 0)
    unfolding times
    single u = omega arith

    -- In a state with well-linked queues, `enqueueReady` of a thread in no queue puts it at the end of
    -- the ready queue, and the queues are well-linked again.
    pub enqueue_ready-Queues : Queues (enqueue_ready t s) (rs ++ t ∷ []) ss
    enqueue_ready-Queues = record {
      ready_links =
          Linked-push s.thread (enqueue_ready t s).thread 0 rs t q.ready_links q.ready_once out.0 ne
            (λ u h. (enqueue-keeps t s tail_apart u h).0)
            (λ u h k. enqueue-next t s tail_apart u h (λ e. k (e ∙ q.ready_last))) tail_links
            (ap (λ (x : Thread). x.next) (enqueue_self t s tail_apart))
            (ap (λ (x : Thread). x.prev) (enqueue_self t s tail_apart) ∙ q.ready_last);
      ready_first = head_now;
      ready_last = (enqueue-fields t s).1 ∙ sym (last-append 0 rs t);
      ready_once = λ u. once u;
      ready_state = λ u h. state_now u h;
      sleep_links =
          Linked-same s.thread _ 0 ss 0
            (λ u h. (
              (enqueue-keeps t s tail_apart u (other_than u ss out.1 h)).0,
              enqueue-next t s tail_apart u (other_than u ss out.1 h) (not_tail u h),
            ))
            q.sleep_links;
      sleep_first = (enqueue-fields t s).2 ∙ q.sleep_first;
      sleep_once = q.sleep_once;
      sleep_state =
          λ u h. (enqueue-keeps t s tail_apart u (other_than u ss out.1 h)).1 ∙ q.sleep_state u h;
    }
      where
        once : (u : ℕ) → times u (rs ++ t ∷ []) ≤ 1
        once u =
            ground (arith, times-append u rs (t ∷ []), single u, q.ready_once u, out.0, moved u)
          where
            moved : (u : ℕ) → t ≡ u → times t rs ≡ times u rs
            moved u e = ap (λ z. times z rs) e

        state_now :
            (u : ℕ) → 0 < times u (rs ++ t ∷ []) → ((enqueue_ready t s).thread u).state ≡ ready
        state_now u h = elim (Bool-cases (u == t)) [
          | inl e ↦
              ap (λ z. ((enqueue_ready t s).thread z).state) ((==_iff u t).0 e)
              ∙ ap (λ (x : Thread). x.state) (enqueue_self t s tail_apart)
          | inr e ↦
              (enqueue-keeps t s tail_apart u (λ k. ground (arith, k))).1
              ∙ q.ready_state u (ground (arith, times-append u rs (t ∷ []), single u, h))
        ]
