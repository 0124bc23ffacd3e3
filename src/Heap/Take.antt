-- ===== src/Heap/Take.antt =====
-- Taking pages.
use nova_os.Base.{
  ℕ, ◌+◌, ◌-◌, ◌*◌, ◌^◌, ◌≤◌, ◌<◌, ◌≡◌, refl, ap, ◌∙◌, ◌⊎◌, inl, inr, Bool, true, false, ◌&&◌, ◌||◌,
  none, some, List, [], ◌∷◌, arith, ltb, leb, ◌==◌, ltb→lt, Bool-cases, page_size,
}
use mathlib.Core.Path.{subst}
use nova_os.Heap.{FreeRange, VirtualPages, range_end, take_range, reserve_pages}
use nova_os.Heap.Ranges.{Apart, inside, covers, Apart-lower}

abbrev pub taken_range : ℕ → ℕ → FreeRange
taken_range a count = record { virt_addr = a; page_count = count }

-- The pages were free, and are not any more; the others are free as before.
pub record Taken (low count : ℕ) (rs : List FreeRange) (a : ℕ) (rs' : List FreeRange) : Type 0 where
  pub apart : Apart low rs'
  pub above : low ≤ a
  pub before : (x : ℕ) → covers rs x ≡ (inside (taken_range a count) x || covers rs' x)
  pub after : (x : ℕ) → inside (taken_range a count) x ≡ true → covers rs' x ≡ false

-- Ranges from `low` on cover nothing below.
covers-below :
    (low : ℕ) (xs : List FreeRange) (x : ℕ) → Apart low xs → x < low → covers xs x ≡ false
unfolding Apart covers
covers-below low [] x t h = refl
covers-below low (y ∷ ys) x (le, n, t) h =
    rw (out, covers-below (range_end y) ys x t (omega (arith, h, le))) refl
  where
    out : inside y x ≡ false
    out = ground (arith, h, le)

or_assoc : (p q s : Bool) → ((p || q) || s) ≡ (p || (q || s))
or_assoc true q s = refl
or_assoc false q s = refl

or_swap : (p q s : Bool) → (p || (q || s)) ≡ (q || (p || s))
or_swap true true s = refl
or_swap true false s = refl
or_swap false q s = refl

module _ (low count : ℕ) (x : FreeRange) (xs : List FreeRange) where
  exact-Taken : x.page_count ≡ count → Apart low (x ∷ xs) → Taken low count (x ∷ xs) x.virt_addr xs
  unfolding Apart covers
  exact-Taken e (le, n, t) = record {
    apart = Apart-lower low (range_end x) xs (omega (arith, le)) t;
    above = le;
    before = λ a. ap (λ p. p || covers xs a) (same a);
    after = λ a h. covers-below (range_end x) xs a t (ground (arith, h, e));
  }
    where
      same : (a : ℕ) → inside x a ≡ inside (taken_range x.virt_addr count) a
      same a = ap (λ c. leb x.virt_addr a && ltb a (x.virt_addr + c * page_size)) e

  left_over : FreeRange
  left_over = record {
    virt_addr = x.virt_addr + count * page_size;
    page_count = x.page_count - count;
  }

  partial-Taken :
      count < x.page_count
      → Apart low (x ∷ xs)
      → Taken low count (x ∷ xs) x.virt_addr (left_over ∷ xs)
  unfolding Apart covers left_over
  partial-Taken h (le, n, t) = record {
    apart = (omega (arith, le), omega (arith, h), subst (λ l. Apart l xs) (same_end h) t);
    above = le;
    before = λ a.
        ap (λ p. p || covers xs a) (parts h a)
        ∙ or_assoc (inside (taken_range x.virt_addr count) a) (inside left_over a) (covers xs a);
    after = λ a i. rw (later a i, covers-below (range_end x) xs a t (ground (arith, i, h))) refl;
  }
    where
      same_end : count < x.page_count → range_end x ≡ range_end left_over
      same_end h = omega (arith, h)

      parts :
          count < x.page_count
          → (a : ℕ) → inside x a ≡ (inside (taken_range x.virt_addr count) a || inside left_over a)
      parts h a = ground (arith, h)

      later : (a : ℕ) → inside (taken_range x.virt_addr count) a ≡ true → inside left_over a ≡ false
      later a i = ground (arith, i)

  skip-Taken :
      (a : ℕ) (rs : List FreeRange)
      → Apart low (x ∷ xs)
      → Taken (range_end x) count xs a rs
      → Taken low count (x ∷ xs) a (x ∷ rs)
  unfolding Apart covers
  skip-Taken a rs (le, n, t) p = record {
    apart = (le, n, p.apart);
    above = omega (arith, le, p.above);
    before = λ b.
        ap (λ q. inside x b || q) (p.before b)
        ∙ or_swap (inside x b) (inside (taken_range a count) b) (covers rs b);
    after = λ b i. rw (earlier b p.above i, p.after b i) refl;
  }
    where
      earlier :
          (b : ℕ) → range_end x ≤ a → inside (taken_range a count) b ≡ true → inside x b ≡ false
      earlier b h i = ground (arith, h, i)

take_range-Taken :
    (low count : ℕ) (rs : List FreeRange)
    → 0 < count
    → Apart low rs
    → (take_range count rs ≡ none)
      ⊎ ((a : ℕ) × (rs' : List FreeRange) × (take_range count rs ≡ some (a, rs'))
          × Taken low count rs a rs')
unfolding take_range Apart left_over
take_range-Taken low count [] h t = inl refl
take_range-Taken low count (x ∷ xs) h t = elim (Bool-cases (x.page_count == count)) [
  | inl e ↦ rw e (inr (x.virt_addr, xs, refl, exact-Taken low count x xs (equal e) t))
  | inr e ↦ rw e (elim (Bool-cases (ltb count x.page_count)) [
    | inl l ↦ rw l (
        inr (
          x.virt_addr,
          left_over low count x xs ∷ xs,
          refl,
          partial-Taken low count x xs (ltb→lt count x.page_count l) t,
        ))
    | inr l ↦ rw l (elim (take_range-Taken (range_end x) count xs h t.2) [
      | inl q ↦ rw q (inl refl)
      | inr (a, rs, q, p) ↦ rw q (inr (a, x ∷ rs, refl, skip-Taken low count x xs a rs t p))
    ])
  ])
]
  where
    equal : (x.page_count == count) ≡ true → x.page_count ≡ count
    equal e = ground (arith, e)

-- Where free ranges lie in order and apart, from `low` on, and the cursor does not wrap around, the pages that are
-- reserved are not free any more; they were free before, with all the others left as they were, or nothing that was
-- free is changed and they lie from the old cursor to the new one. The ranges stay in order and apart.
pub reserve_pages-Taken :
    (low count : ℕ) (v : VirtualPages)
    → 0 < count
    → Apart low v.ranges
    → v.cursor + count * page_size < 2 ^ 64
    → let (a, v') = reserve_pages count v in
      ((v'.cursor ≡ v.cursor) × Taken low count v.ranges a v'.ranges)
      ⊎ ((a ≡ v.cursor) × (v'.cursor ≡ v.cursor + count * page_size) × (v'.ranges ≡ v.ranges))
unfolding reserve_pages
reserve_pages-Taken low count v h t reach = elim (take_range-Taken low count v.ranges h t) [
  | inl q ↦ rw (reserve_pages, q) (inr (refl, omega (arith, reach), refl))
  | inr (a, rs, q, p) ↦ rw (reserve_pages, q) (inl (refl, p))
]
