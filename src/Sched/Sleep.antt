-- ===== src/Sched/Sleep.antt =====
-- A thread that leaves the sleep queue.
use nova_os.Base.{
  ℕ, ◌+◌, ◌≤◌, ◌<◌, ◌≡◌, refl, sym, ap, ◌∙◌, ◌≢◌, inl, inr, false, not, ◌&&◌, List, [], ◌∷◌, ◌++◌,
  arith, ◌==◌, if◌then◌else◌, ==_iff, Bool-cases,
}
use nova_os.Sched.{Thread, Sched, change, unlink_sleep}
use nova_os.Sched.Links.{
  times, first, last, Linked, times-append, last-in, not_last, Linked-append, Linked-split,
  Linked-same, Linked-nonzero,
}
use nova_os.Sched.Queues.{Queues, Free, ready-awake}

-- The threads after the links around `t` were closed.
module _ (t : ℕ) (s : Sched) where
  abbrev before_it : ℕ
  before_it = (s.thread t).prev

  abbrev behind_it : ℕ
  behind_it = (s.thread t).next

  unlink-next :
      (u : ℕ)
      → (u == t) ≡ false
      → ((unlink_sleep t s).thread u).next
        ≡ (if (u == before_it) && not (before_it == 0) then behind_it else (s.thread u).next)
  unfolding unlink_sleep change
  unlink-next u e = elim (Bool-cases (before_it == 0)) [
    | inl p ↦ elim (Bool-cases (behind_it == 0)) [
      | inl n ↦ rw (e, p, n) (ground arith)
      | inr n ↦ rw (e, p, n) (ground arith)
    ]
    | inr p ↦ elim (Bool-cases (behind_it == 0)) [
      | inl n ↦ rw (e, p, n) (ground arith)
      | inr n ↦ rw (e, p, n) (ground arith)
    ]
  ]

  unlink-prev :
      (u : ℕ)
      → (u == t) ≡ false
      → ((unlink_sleep t s).thread u).prev
        ≡ (if (u == behind_it) && not (behind_it == 0) then before_it else (s.thread u).prev)
  unfolding unlink_sleep change
  unlink-prev u e = elim (Bool-cases (before_it == 0)) [
    | inl p ↦ elim (Bool-cases (behind_it == 0)) [
      | inl n ↦ rw (e, p, n) (ground arith)
      | inr n ↦ rw (e, p, n) (ground arith)
    ]
    | inr p ↦ elim (Bool-cases (behind_it == 0)) [
      | inl n ↦ rw (e, p, n) (ground arith)
      | inr n ↦ rw (e, p, n) (ground arith)
    ]
  ]

  -- Only links are written.
  pub unlink-keeps :
      (u : ℕ)
      → (((unlink_sleep t s).thread u).state ≡ (s.thread u).state)
        × (((unlink_sleep t s).thread u).sleep_target_ticks ≡ (s.thread u).sleep_target_ticks)
  unfolding unlink_sleep change
  unlink-keeps u = elim (Bool-cases (before_it == 0)) [
    | inl p ↦ elim (Bool-cases (behind_it == 0)) [
      | inl n ↦ rw (p, n) (ground arith)
      | inr n ↦ rw (p, n) (ground arith)
    ]
    | inr p ↦ elim (Bool-cases (behind_it == 0)) [
      | inl n ↦ rw (p, n) (ground arith)
      | inr n ↦ rw (p, n) (ground arith)
    ]
  ]

  pub unlink-fields :
      ((unlink_sleep t s).sleep_head ≡ (if before_it == 0 then behind_it else s.sleep_head))
      × ((unlink_sleep t s).ready_head ≡ s.ready_head)
      × ((unlink_sleep t s).ready_tail ≡ s.ready_tail)
      × ((unlink_sleep t s).current ≡ s.current)
      × ((unlink_sleep t s).idle ≡ s.idle)
      × ((unlink_sleep t s).ticks ≡ s.ticks)
  unfolding unlink_sleep change
  unlink-fields = elim (Bool-cases (before_it == 0)) [
    | inl p ↦ elim (Bool-cases (behind_it == 0)) [
      | inl n ↦ rw (p, n) (refl, refl, refl, refl, refl, refl)
      | inr n ↦ rw (p, n) (refl, refl, refl, refl, refl, refl)
    ]
    | inr p ↦ elim (Bool-cases (behind_it == 0)) [
      | inl n ↦ rw (p, n) (refl, refl, refl, refl, refl, refl)
      | inr n ↦ rw (p, n) (refl, refl, refl, refl, refl, refl)
    ]
  ]

-- The end of a list gets another successor, and the start another predecessor.
Linked-end :
    (th th' : ℕ → Thread) (before : ℕ) (xs : List ℕ) (a a' : ℕ)
    → Linked th before xs a
    → ((x : ℕ) → times x xs ≤ 1)
    → ((x : ℕ) → 0 < times x xs → (th' x).prev ≡ (th x).prev)
    → ((x : ℕ) → 0 < times x xs → x ≢ last before xs → (th' x).next ≡ (th x).next)
    → (0 < times (last before xs) xs → (th' (last before xs)).next ≡ a')
    → Linked th' before xs a'
unfolding Linked times last
Linked-end th th' before [] a a' l once prevs nexts link = tt
Linked-end th th' before (x ∷ []) a a' (ne, p, n, l) once prevs nexts link =
    (ne, prevs x (ground arith) ∙ p, link (ground arith), tt)
Linked-end th th' before (x ∷ y ∷ xs) a a' (ne, p, n, l) once prevs nexts link = (
  ne,
  prevs x (ground arith) ∙ p,
  nexts x (ground arith) (not_last x y xs (once x)) ∙ n,
  Linked-end th th' x (y ∷ xs) a a' l (λ z. omega (arith, once z))
      (λ z h. prevs z (omega (arith, h))) (λ z h k. nexts z (omega (arith, h)) k)
      (λ h. link (omega (arith, h))),
)

Linked-start :
    (th th' : ℕ → Thread) (b b' : ℕ) (xs : List ℕ) (a : ℕ)
    → Linked th b xs a
    → ((x : ℕ) → times x xs ≤ 1)
    → ((x : ℕ) → 0 < times x xs → (th' x).next ≡ (th x).next)
    → ((x : ℕ) → 0 < times x xs → x ≢ first xs a → (th' x).prev ≡ (th x).prev)
    → (first xs a ≢ 0 → (th' (first xs a)).prev ≡ b')
    → Linked th' b' xs a
unfolding Linked times
Linked-start th th' b b' [] a l once nexts prevs link = tt
Linked-start th th' b b' (x ∷ xs) a (ne, p, n, l) once nexts prevs link = (
  ne,
  link ne,
  nexts x (ground arith) ∙ n,
  Linked-same th th' x xs a
      (λ y h. (
        prevs y (omega (arith, h)) (λ e. ground (arith, once y, h, e)),
        nexts y (omega (arith, h)),
      ))
      l,
)

distinct : (u v : ℕ) (zs : List ℕ) → 0 < times u zs → times v zs ≡ 0 → (u == v) ≡ false
distinct u v zs h k = elim (Bool-cases (u == v)) [
  | inl e ↦ absurd (omega (arith, h, k, ap (λ w. times w zs) ((==_iff u v).0 e)))
  | inr e ↦ e
]

last-in_list : (xs : List ℕ) → last 0 xs ≢ 0 → 0 < times (last 0 xs) xs
unfolding last
last-in_list [] ne = absurd (ne refl)
last-in_list (x ∷ xs) ne = last-in x xs

first-in_list : (ys : List ℕ) → first ys 0 ≢ 0 → 0 < times (first ys 0) ys
unfolding times
first-in_list [] ne = absurd (ne refl)
first-in_list (y ∷ ys) ne = ground arith

module _ {s : Sched} {rs : List ℕ} (xs ys : List ℕ) (t : ℕ) (q : Queues s rs (xs ++ (t ∷ ys))) where
  abbrev th : ℕ → Thread
  th = s.thread

  abbrev th' : ℕ → Thread
  th' = (unlink_sleep t s).thread

  links : Linked th 0 xs t × Linked th (last 0 xs) (t ∷ ys) 0
  links = Linked-split th 0 xs (t ∷ ys) 0 q.sleep_links

  total : (u : ℕ) → times u xs + ((if t == u then 1 else 0) + times u ys) ≤ 1
  unfolding times
  total u = omega (arith, times-append u xs (t ∷ ys), q.sleep_once u)

  none_zero : (times 0 xs ≡ 0) × (times 0 ys ≡ 0) × (t ≢ 0)
  unfolding Linked
  none_zero = (Linked-nonzero th 0 xs t links.0, Linked-nonzero th t ys 0 links.1.3, links.1.0)

  prev_is : (th t).prev ≡ last 0 xs
  unfolding Linked
  prev_is = links.1.1

  next_is : (th t).next ≡ first ys 0
  unfolding Linked
  next_is = links.1.2

  rest_links : Linked th t ys 0
  unfolding Linked
  rest_links = links.1.3

  next' :
      (u : ℕ)
      → (u == t) ≡ false
      → (th' u).next
        ≡ (if (u == last 0 xs) && not (last 0 xs == 0) then first ys 0 else (th u).next)
  next' u e = rw (sym prev_is, sym next_is) (unlink-next t s u e)

  prev' :
      (u : ℕ)
      → (u == t) ≡ false
      → (th' u).prev
        ≡ (if (u == first ys 0) && not (first ys 0 == 0) then last 0 xs else (th u).prev)
  prev' u e = rw (sym prev_is, sym next_is) (unlink-prev t s u e)

  -- The last thread before `t` and the first one behind it are in those parts.
  p_in : (last 0 xs == 0) ≡ false → 0 < times (last 0 xs) xs
  p_in e = last-in_list xs (λ z. ground (arith, e, z))

  n_in : (first ys 0 == 0) ≡ false → 0 < times (first ys 0) ys
  n_in e = first-in_list ys (λ z. ground (arith, e, z))

  not_next : (u : ℕ) → times u ys ≡ 0 → ((u == first ys 0) && not (first ys 0 == 0)) ≡ false
  not_next u h = elim (Bool-cases (first ys 0 == 0)) [
    | inl z ↦ ground (arith, z)
    | inr z ↦ ground (arith, z, distinct (first ys 0) u ys (n_in z) h)
  ]

  not_prev : (u : ℕ) → times u xs ≡ 0 → ((u == last 0 xs) && not (last 0 xs == 0)) ≡ false
  not_prev u h = elim (Bool-cases (last 0 xs == 0)) [
    | inl z ↦ ground (arith, z)
    | inr z ↦ ground (arith, z, distinct (last 0 xs) u xs (p_in z) h)
  ]

  in_first : (u : ℕ) → 0 < times u xs → ((u == t) ≡ false) × (times u ys ≡ 0)
  in_first u h = (ground (arith, total u, h), ground (arith, total u, h))

  in_rest : (u : ℕ) → 0 < times u ys → ((u == t) ≡ false) × (times u xs ≡ 0)
  in_rest u h = (ground (arith, total u, h), ground (arith, total u, h))

  first_links : Linked th' 0 xs (first ys 0)
  first_links =
      Linked-end th th' 0 xs t (first ys 0) links.0 (λ u. omega (arith, total u))
        (λ u h.
          prev' u (in_first u h).0
          ∙ ap (λ b. if b then last 0 xs else (th u).prev) (not_next u (in_first u h).1))
        (λ u h k. next' u (in_first u h).0 ∙ ground (arith, k))
        (λ h.
          next' (last 0 xs) (in_first (last 0 xs) h).0
          ∙ ground (arith, distinct (last 0 xs) 0 xs h none_zero.0))

  later_links : Linked th' (last 0 xs) ys 0
  later_links =
      Linked-start th th' t (last 0 xs) ys 0 rest_links (λ u. omega (arith, total u))
        (λ u h.
          next' u (in_rest u h).0
          ∙ ap (λ b. if b then first ys 0 else (th u).next) (not_prev u (in_rest u h).1))
        (λ u h k. prev' u (in_rest u h).0 ∙ ground (arith, k))
        (λ ne.
          let h = first-in_list ys ne in
          prev' (first ys 0) (in_rest (first ys 0) h).0 ∙ ground (arith, ne))

  times-rest : (u : ℕ) → times u (xs ++ (t ∷ ys)) ≡ (if t == u then 1 else 0) + times u (xs ++ ys)
  unfolding times
  times-rest u = omega (arith, times-append u xs (t ∷ ys), times-append u xs ys)

  -- A ready thread is neither `t` nor next to it.
  ready_apart : (u : ℕ) → 0 < times u rs → ((u == t) ≡ false) × (times u xs ≡ 0) × (times u ys ≡ 0)
  unfolding times
  ready_apart u h = (
    ground (arith, ready-awake q u h, times-append u xs (t ∷ ys)),
    omega (arith, ready-awake q u h, times-append u xs (t ∷ ys)),
    omega (arith, ready-awake q u h, times-append u xs (t ∷ ys)),
  )

  some_last : (z : ℕ) (zs : List ℕ) → xs ≡ z ∷ zs → (last 0 xs == 0) ≡ false
  unfolding last
  some_last z zs e = distinct (last 0 xs) 0 xs (rw e (last-in z zs)) none_zero.0

  head_is : (if last 0 xs == 0 then first ys 0 else first (xs ++ (t ∷ ys)) 0) ≡ first (xs ++ ys) 0
  unfolding last
  head_is = by_list xs refl
    where
      by_list :
          (zs : List ℕ)
          → xs ≡ zs
          → (if last 0 xs == 0 then first ys 0 else first (xs ++ (t ∷ ys)) 0) ≡ first (xs ++ ys) 0
      by_list [] e = rw e refl
      by_list (z ∷ zs) e = rw (some_last z zs e) (rw e refl)

  -- The thread leaves the sleep queue, wherever it stands; nothing else changes in the queues.
  pub unlink_sleep-Queues : Queues (unlink_sleep t s) rs (xs ++ ys) × Free rs (xs ++ ys) t
  unlink_sleep-Queues = (
    record {
      ready_links =
          Linked-same th th' 0 rs 0
            (λ u h.
              let (a, b, c) = ready_apart u h in
              (
                prev' u a ∙ ap (λ b. if b then last 0 xs else (th u).prev) (not_next u c),
                next' u a ∙ ap (λ b. if b then first ys 0 else (th u).next) (not_prev u b),
              ))
            q.ready_links;
      ready_first = (unlink-fields t s).1 ∙ q.ready_first;
      ready_last = (unlink-fields t s).2 ∙ q.ready_last;
      ready_once = q.ready_once;
      ready_state = λ u h. (unlink-keeps t s u).0 ∙ q.ready_state u h;
      sleep_links = Linked-append th' 0 xs ys 0 first_links later_links;
      sleep_first = (unlink-fields t s).0 ∙ rw (prev_is, next_is, q.sleep_first) head_is;
      sleep_once = λ u. omega (arith, q.sleep_once u, times-rest u);
      sleep_state =
          λ u h. (unlink-keeps t s u).0 ∙ q.sleep_state u (omega (arith, h, times-rest u));
    },
    (ground (arith, ready_apart t, total t), ground (arith, times-rest t, q.sleep_once t)),
  )
