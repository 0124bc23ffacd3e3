-- ===== src/Sched/Links.antt =====
-- Doubly linked lists of threads, and what writing the fields of one thread does to them.
use nova_os.Base.{
  ℕ, ◌+◌, ◌≤◌, ◌<◌, ◌≡◌, refl, ap, ◌∙◌, ◌≢◌, List, [], ◌∷◌, ◌++◌, arith, ◌==◌, if◌then◌else◌,
}
use nova_os.Sched.{Thread}

-- How often a thread is in a queue.
unfoldable pub times : ℕ → List ℕ → ℕ
times t [] = 0
times t (x ∷ xs) = (if x == t then 1 else 0) + times t xs

-- The first thread of a queue, or what comes behind it.
abbrev pub first : List ℕ → ℕ → ℕ
first [] after = after
first (x ∷ xs) after = x

-- The last one, or what comes before it.
unfoldable pub last : ℕ → List ℕ → ℕ
last before [] = before
last before (x ∷ xs) = last x xs

-- The threads of the list are linked both ways, between `before` and `after`.
unfoldable pub Linked : (ℕ → Thread) → ℕ → List ℕ → ℕ → Type 0
Linked th before [] after = Unit
Linked th before (x ∷ xs) after =
    (x ≢ 0) × ((th x).prev ≡ before) × ((th x).next ≡ first xs after) × Linked th x xs after

pub times_self : (x : ℕ) (xs : List ℕ) → times x (x ∷ xs) ≡ 1 + times x xs
unfolding times
times_self x xs = ground arith

pub times_other : (t x : ℕ) → t ≢ x → times t (x ∷ []) ≡ 0
unfolding times
times_other t x ne = ground arith

pub times-more : (u x : ℕ) (xs : List ℕ) → times u xs ≤ times u (x ∷ xs)
unfolding times
times-more u x xs = omega arith

pub times-append : (t : ℕ) (xs ys : List ℕ) → times t (xs ++ ys) ≡ times t xs + times t ys
unfolding times
times-append t [] ys = omega arith
times-append t (x ∷ xs) ys = omega (arith, times-append t xs ys)

pub last-append : (before : ℕ) (xs : List ℕ) (y : ℕ) → last before (xs ++ y ∷ []) ≡ y
unfolding last
last-append before [] y = refl
last-append before (x ∷ xs) y = last-append x xs y

pub first-push : (xs : List ℕ) (t : ℕ) → first xs 0 ≢ 0 → first (xs ++ t ∷ []) 0 ≡ first xs 0
first-push [] t ne = absurd (ne refl)
first-push (x ∷ xs) t ne = refl

-- Links depend only on the two fields of the list's threads.
pub Linked-same :
    (th th' : ℕ → Thread) (before : ℕ) (xs : List ℕ) (after : ℕ)
    → ((x : ℕ) → 0 < times x xs → ((th' x).prev ≡ (th x).prev) × ((th' x).next ≡ (th x).next))
    → Linked th before xs after
    → Linked th' before xs after
unfolding Linked times
Linked-same th th' before [] after same l = tt
Linked-same th th' before (x ∷ xs) after same (ne, p, n, l) = (
  ne,
  (same x (ground arith)).0 ∙ p,
  (same x (ground arith)).1 ∙ n,
  Linked-same th th' x xs after (λ y h. same y (omega (arith, h))) l,
)

pub Linked-nonzero :
    (th : ℕ → Thread) (before : ℕ) (xs : List ℕ) (after : ℕ)
    → Linked th before xs after
    → times 0 xs ≡ 0
unfolding Linked times
Linked-nonzero th before [] after l = refl
Linked-nonzero th before (x ∷ xs) after (ne, p, n, l) =
    ground (arith, Linked-nonzero th x xs after l)

-- Two linked lists one behind the other.
pub Linked-append :
    (th : ℕ → Thread) (before : ℕ) (xs ys : List ℕ) (after : ℕ)
    → Linked th before xs (first ys after)
    → Linked th (last before xs) ys after
    → Linked th before (xs ++ ys) after
unfolding Linked last
Linked-append th before [] ys after l r = r
Linked-append th before (x ∷ []) ys after (ne, p, n, l) r = (ne, p, n, r)
Linked-append th before (x ∷ y ∷ xs) ys after (ne, p, n, l) r =
    (ne, p, n, Linked-append th x (y ∷ xs) ys after l r)

pub Linked-split :
    (th : ℕ → Thread) (before : ℕ) (xs ys : List ℕ) (after : ℕ)
    → Linked th before (xs ++ ys) after
    → Linked th before xs (first ys after) × Linked th (last before xs) ys after
unfolding Linked last
Linked-split th before [] ys after l = (tt, l)
Linked-split th before (x ∷ []) ys after (ne, p, n, l) = ((ne, p, n, tt), l)
Linked-split th before (x ∷ y ∷ xs) ys after (ne, p, n, l) =
    let (a, b) = Linked-split th x (y ∷ xs) ys after l in ((ne, p, n, a), b)

pub last-in : (x : ℕ) (xs : List ℕ) → 0 < times (last x xs) (x ∷ xs)
unfolding times last
last-in x [] = ground arith
last-in x (y ∷ xs) = omega (arith, last-in y xs)

-- With no thread twice in a list, its first one is the last one only where it is alone.
pub not_last : (x y : ℕ) (xs : List ℕ) → times x (x ∷ y ∷ xs) ≤ 1 → x ≢ last y xs
unfolding times
not_last x y xs once e = omega (arith, once, last-in y xs, ap (λ z. times z (y ∷ xs)) e, counted x)
  where
    counted : (x : ℕ) → ◌≡◌ {A = ℕ} (if x == x then 1 else 0) 1
    counted x = ground arith

-- A thread that is not in the list gets behind its last one.
pub Linked-push :
    (th th' : ℕ → Thread) (before : ℕ) (xs : List ℕ) (t : ℕ)
    → Linked th before xs 0
    → ((x : ℕ) → times x xs ≤ 1)
    → times t xs ≡ 0
    → t ≢ 0
    → ((x : ℕ) → x ≢ t → (th' x).prev ≡ (th x).prev)
    → ((x : ℕ) → x ≢ t → x ≢ last before xs → (th' x).next ≡ (th x).next)
    → ((0 < times (last before xs) xs) → (th' (last before xs)).next ≡ t)
    → (th' t).next ≡ 0
    → (th' t).prev ≡ last before xs
    → Linked th' before (xs ++ t ∷ []) 0
unfolding Linked times last
Linked-push th th' before [] t l once out ne prevs nexts link no_next back = (ne, back, no_next, tt)
Linked-push th th' before (x ∷ []) t (nx, p, n, l) once out ne prevs nexts link no_next back =
    (nx, prevs x (λ e. ground (arith, e)) ∙ p, link (ground arith), (ne, back, no_next, tt))
Linked-push th th' before (x ∷ y ∷ xs) t (nx, p, n, l) once out ne prevs nexts link no_next back = (
  nx,
  prevs x (λ e. ground (arith, e)) ∙ p,
  nexts x (λ e. ground (arith, e)) (not_last x y xs (once x)) ∙ n,
  Linked-push th th' x (y ∷ xs) t l (λ z. omega (arith, once z)) (omega (arith, out)) ne prevs nexts
      (λ h. link (omega (arith, h))) no_next back,
)
