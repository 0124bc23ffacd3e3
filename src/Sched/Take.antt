-- ===== src/Sched/Take.antt =====
-- `dequeueReady`, and changes of a thread that is in no queue.
use nova_os.Base.{
  ℕ, ◌<◌, ◌≡◌, refl, sym, ap, ◌∙◌, ◌≢◌, ◌⊎◌, inl, inr, true, false, not, ◌&&◌, List, [], ◌∷◌, arith,
  ◌==◌, if◌then◌else◌, ==_iff, Bool-cases,
}
use nova_os.Sched.{Thread, Sched, change, drop_head, unlinked, dequeue_ready}
use nova_os.Sched.Links.{times, times_self, times-more, first, last, Linked, Linked-same}
use nova_os.Sched.Queues.{Queues, Free, same, apart, ready-awake}

-- A change of a thread in no queue is none of the queues.
pub change-Queues :
    {s : Sched} {rs ss : List ℕ} (t : ℕ) (f : Thread → Thread)
    → Queues s rs ss
    → Free rs ss t
    → Queues (change t f s) rs ss
unfolding change
change-Queues {s} {rs} {ss} t f q out = record {
  ready_links =
      Linked-same s.thread _ 0 rs 0 (λ u h. rw (off rs u out.0 h) (refl, refl)) q.ready_links;
  ready_first = q.ready_first;
  ready_last = q.ready_last;
  ready_once = q.ready_once;
  ready_state = λ u h. rw (off rs u out.0 h) (q.ready_state u h);
  sleep_links =
      Linked-same s.thread _ 0 ss 0 (λ u h. rw (off ss u out.1 h) (refl, refl)) q.sleep_links;
  sleep_first = q.sleep_first;
  sleep_once = q.sleep_once;
  sleep_state = λ u h. rw (off ss u out.1 h) (q.sleep_state u h);
}
  where
    off : (xs : List ℕ) (u : ℕ) → times t xs ≡ 0 → 0 < times u xs → (u == t) ≡ false
    off xs u z h = apart u t (λ e. omega (arith, z, h, ap (λ v. times v xs) e))

pub change-fields :
    (t : ℕ) (f : Thread → Thread) (s : Sched)
    → ((change t f s).current ≡ s.current) × ((change t f s).idle ≡ s.idle)
unfolding change
change-fields t f s = (refl, refl)

-- A change that leaves the state of the thread leaves all states.
pub change-state :
    (t : ℕ) (f : Thread → Thread) (s : Sched) (u : ℕ)
    → ((x : Thread) → (f x).state ≡ x.state)
    → ((change t f s).thread u).state ≡ (s.thread u).state
unfolding change
change-state t f s u h = elim (Bool-cases (u == t)) [
  | inl e ↦ rw e (h (s.thread u))
  | inr e ↦ rw e refl
]

-- What moving the head on does to the threads.
drop_head-thread :
    (s : Sched) (u : ℕ)
    → (drop_head s).thread u ≡ (
        if (u == (s.thread s.ready_head).next) && not ((s.thread s.ready_head).next == 0)
        then record (s.thread u) { prev = 0 }
        else s.thread u)
unfolding drop_head change
drop_head-thread s u = elim (Bool-cases ((s.thread s.ready_head).next == 0)) [
  | inl e ↦ rw e (elim (Bool-cases (u == (s.thread s.ready_head).next)) [
    | inl h ↦ rw h refl
    | inr h ↦ rw h refl
  ])
  | inr e ↦ rw e (elim (Bool-cases (u == (s.thread s.ready_head).next)) [
    | inl h ↦ rw h refl
    | inr h ↦ rw h refl
  ])
]

drop_head-fields :
    (s : Sched)
    → ((drop_head s).ready_head ≡ (s.thread s.ready_head).next)
      × ((drop_head s).ready_tail ≡ (if (s.thread s.ready_head).next == 0 then 0 else s.ready_tail))
      × ((drop_head s).sleep_head ≡ s.sleep_head)
      × ((drop_head s).current ≡ s.current)
      × ((drop_head s).idle ≡ s.idle)
      × ((drop_head s).ticks ≡ s.ticks)
unfolding drop_head change
drop_head-fields s = elim (Bool-cases ((s.thread s.ready_head).next == 0)) [
  | inl e ↦ rw e (refl, refl, refl, refl, refl, refl)
  | inr e ↦ rw e (refl, refl, refl, refl, refl, refl)
]

module _ {s : Sched} (x : ℕ) {xs ss : List ℕ} (q : Queues s (x ∷ xs) ss) where
  out_of_rest : times x xs ≡ 0
  out_of_rest = omega (arith, q.ready_once x, times_self x xs)

  later : (u : ℕ) → 0 < times u xs → 0 < times u (x ∷ xs)
  later u h = omega (arith, h, times-more u x xs)

  next_one : (s.thread s.ready_head).next ≡ first xs 0
  unfolding Linked
  next_one = ap (λ u. (s.thread u).next) q.ready_first ∙ q.ready_links.2

  keeps :
      (u : ℕ)
      → (((drop_head s).thread u).state ≡ (s.thread u).state)
        × (((drop_head s).thread u).next ≡ (s.thread u).next)
  keeps u =
      elim (Bool-cases
        ((u == (s.thread s.ready_head).next) && not ((s.thread s.ready_head).next == 0))) [
          | inl e ↦ rw (drop_head-thread s u, e) (refl, refl)
          | inr e ↦ rw (drop_head-thread s u, e) (refl, refl)
        ]

  keeps_prev :
      (u : ℕ)
      → (u ≢ first xs 0) ⊎ (first xs 0 ≡ 0)
      → ((drop_head s).thread u).prev ≡ (s.thread u).prev
  keeps_prev u h = rw (drop_head-thread s u, off) refl
    where
      off : ((u == (s.thread s.ready_head).next) && not ((s.thread s.ready_head).next == 0)) ≡ false
      off = rw next_one (ground (arith, h))

-- The links of the rest of the queue.
rest-Linked :
    (s : Sched) (x : ℕ) (xs ss : List ℕ) → Queues s (x ∷ xs) ss → Linked (drop_head s).thread 0 xs 0
unfolding Linked
rest-Linked s x [] ss q = tt
rest-Linked s x (y ∷ ys) ss q =
    let (ne, p, n, l) = q.ready_links.3 in
    (
      ne,
      rw (drop_head-thread s y, next_one x q, same y, apart y 0 ne) refl,
      (keeps x q y).1 ∙ n,
      Linked-same s.thread (drop_head s).thread y ys 0
          (λ u h. (keeps_prev x q u (inl (not_first u h)), (keeps x q u).1)) l,
    )
  where
    not_first : (u : ℕ) → 0 < times u ys → u ≢ y
    not_first u h e =
        omega (
          arith,
          h,
          times_self y ys,
          times-more y x (y ∷ ys),
          q.ready_once y,
          ap (λ z. times z ys) e,
        )

rest-last :
    (s : Sched) (x : ℕ) (xs ss : List ℕ)
    → Queues s (x ∷ xs) ss
    → (drop_head s).ready_tail ≡ last 0 xs
unfolding last Linked
rest-last s x [] ss q = (drop_head-fields s).1 ∙ rw (next_one x q) refl
rest-last s x (y ∷ ys) ss q =
    (drop_head-fields s).1 ∙ rw (next_one x q, apart y 0 q.ready_links.3.0) q.ready_last

-- A sleeping thread is not the next one of the queue.
asleep :
    (s : Sched) (x : ℕ) (xs ss : List ℕ) (u : ℕ)
    → Queues s (x ∷ xs) ss
    → 0 < times u ss
    → (u ≢ first xs 0) ⊎ (first xs 0 ≡ 0)
asleep s x [] ss u q h = inr refl
asleep s x (y ∷ ys) ss u q h = inl (λ e. omega (
  arith,
  h,
  ap (λ z. times z ss) e,
  ready-awake q y (omega (arith, times_self y ys, times-more y x (y ∷ ys))),
))

module _ {s : Sched} (x : ℕ) {xs ss : List ℕ} (q : Queues s (x ∷ xs) ss) where
  drop_head-Queues : Queues (drop_head s) xs ss
  drop_head-Queues = record {
    ready_links = rest-Linked s x xs ss q;
    ready_first = (drop_head-fields s).0 ∙ next_one x q;
    ready_last = rest-last s x xs ss q;
    ready_once = λ u. omega (arith, times-more u x xs, q.ready_once u);
    ready_state = λ u h. (keeps x q u).0 ∙ q.ready_state u (later x q u h);
    sleep_links =
        Linked-same s.thread _ 0 ss 0
          (λ u h. (keeps_prev x q u (asleep s x xs ss u q h), (keeps x q u).1)) q.sleep_links;
    sleep_first = (drop_head-fields s).2 ∙ q.sleep_first;
    sleep_once = q.sleep_once;
    sleep_state = λ u h. (keeps x q u).0 ∙ q.sleep_state u h;
  }

  head-Free : Free xs ss x
  head-Free = (out_of_rest x q, ready-awake q x (omega (arith, times_self x xs)))

  head_nonzero : s.ready_head ≢ 0
  unfolding Linked
  head_nonzero e = q.ready_links.0 (sym q.ready_first ∙ e)

  dequeue-is : dequeue_ready s ≡ (x, change x unlinked (drop_head s))
  unfolding dequeue_ready
  dequeue-is =
      rw (apart s.ready_head 0 head_nonzero) refl
      ∙ ap (λ (h : ℕ). (h, change h unlinked (drop_head s))) q.ready_first

  -- `dequeueReady` takes the first thread of the queue, which stays marked as ready.
  pub dequeue_ready-Queues :
      (s' : Sched) × (dequeue_ready s ≡ (x, s'))
      × Queues s' xs ss
      × Free xs ss x
      × (s'.current ≡ s.current)
      × (s'.idle ≡ s.idle)
      × ((u : ℕ) → (s'.thread u).state ≡ (s.thread u).state)
  dequeue_ready-Queues = (
    change x unlinked (drop_head s),
    dequeue-is,
    change-Queues x unlinked drop_head-Queues head-Free,
    head-Free,
    (change-fields x unlinked (drop_head s)).0 ∙ (drop_head-fields s).3,
    (change-fields x unlinked (drop_head s)).1 ∙ (drop_head-fields s).4,
    λ u. unlinked-state u ∙ (keeps x q u).0,
  )
    where
      unlinked-state :
          (u : ℕ)
          → ((change x unlinked (drop_head s)).thread u).state ≡ ((drop_head s).thread u).state
      unlinked-state u = change-state x unlinked (drop_head s) u (λ z. refl)

-- `dequeueReady` of the empty queue.
pub dequeue_ready-none : {s : Sched} {ss : List ℕ} → Queues s [] ss → dequeue_ready s ≡ (0, s)
unfolding dequeue_ready
dequeue_ready-none {s} q = rw off refl
  where
    off : (s.ready_head == 0) ≡ true
    off = (==_iff s.ready_head 0).1 q.ready_first
