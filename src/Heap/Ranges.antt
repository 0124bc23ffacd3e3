-- ===== src/Heap/Ranges.antt =====
-- Giving a range of pages back.
use nova_os.Base.{
  ℕ, ◌+◌, ◌*◌, ◌≤◌, ◌<◌, ◌≡◌, refl, ap, ◌∙◌, ◌⊎◌, inl, inr, Bool, true, false, ◌&&◌, ◌||◌, List, [],
  ◌∷◌, arith, ltb, leb, ◌==◌, Bool-cases, page_size,
}
use mathlib.Core.Path.{subst}
use nova_os.Heap.{FreeRange, range_end, insert_range, merged, merge_all, recycle_module_range}

-- The ranges are in order from `low` on, none is empty, and none meets another.
unfoldable pub Apart : ℕ → List FreeRange → Type 0
Apart low [] = Unit
Apart low (x ∷ xs) = (low ≤ x.virt_addr) × (0 < x.page_count) × Apart (range_end x) xs

abbrev pub inside : FreeRange → ℕ → Bool
inside r a = leb r.virt_addr a && ltb a (range_end r)

-- The address is in a free range.
unfoldable pub covers : List FreeRange → ℕ → Bool
covers [] a = false
covers (x ∷ xs) a = inside x a || covers xs a

-- The range meets none of the list.
unfoldable pub Clear : FreeRange → List FreeRange → Type 0
Clear r [] = Unit
Clear r (x ∷ xs) = ((range_end r ≤ x.virt_addr) ⊎ (range_end x ≤ r.virt_addr)) × Clear r xs

pub Apart-lower : (low high : ℕ) (xs : List FreeRange) → low ≤ high → Apart high xs → Apart low xs
unfolding Apart
Apart-lower low high [] h t = tt
Apart-lower low high (x ∷ xs) h (le, n, t) = (omega (arith, h, le), n, t)

insert_range-Apart :
    (r : FreeRange) (low : ℕ) (xs : List FreeRange)
    → low ≤ r.virt_addr
    → 0 < r.page_count
    → Clear r xs
    → Apart low xs
    → Apart low (insert_range r xs)
unfolding Apart Clear insert_range
insert_range-Apart r low [] h n c t = (h, n, tt)
insert_range-Apart r low (x ∷ xs) h n (apart, c) (le, nx, t) =
    elim (Bool-cases (ltb x.virt_addr r.virt_addr)) [
      | inl e ↦
          rw e (le, nx, insert_range-Apart r (range_end x) xs (ground (arith, e, apart, n)) n c t)
      | inr e ↦ rw e (h, n, (ground (arith, e, apart, nx, n), nx, t))
    ]

insert_range-covers :
    (r : FreeRange) (xs : List FreeRange) (a : ℕ)
    → covers (insert_range r xs) a ≡ (inside r a || covers xs a)
unfolding covers insert_range
insert_range-covers r [] a = refl
insert_range-covers r (x ∷ xs) a = elim (Bool-cases (ltb x.virt_addr r.virt_addr)) [
  | inl e ↦ rw (e, insert_range-covers r xs a) (swap (inside x a) (inside r a) (covers xs a))
  | inr e ↦ rw e refl
]
  where
    swap : (p q s : Bool) → (p || (q || s)) ≡ (q || (p || s))
    swap true true s = refl
    swap true false s = refl
    swap false true s = refl
    swap false false s = refl

merged-Apart :
    (low : ℕ) (x : FreeRange) (xs : List FreeRange) → Apart low (x ∷ xs) → Apart low (merged x xs)
unfolding Apart merged
merged-Apart low x [] t = t
merged-Apart low x (y ∷ ys) (le, n, (le', n', t)) = elim (Bool-cases (range_end x == y.virt_addr)) [
  | inl e ↦ rw e (
      merged-Apart low (record x { page_count = x.page_count + y.page_count }) ys
        (le, omega (arith, n), subst (λ l. Apart l ys) (joined e) t))
  | inr e ↦ rw e (le, n, merged-Apart (range_end x) y ys (le', n', t))
]
  where
    joined :
        (range_end x == y.virt_addr) ≡ true
        → range_end y ≡ x.virt_addr + (x.page_count + y.page_count) * page_size
    joined e = ground (arith, e)

merged-covers :
    (x : FreeRange) (xs : List FreeRange) (a : ℕ) → covers (merged x xs) a ≡ covers (x ∷ xs) a
unfolding covers merged
merged-covers x [] a = refl
merged-covers x (y ∷ ys) a = elim (Bool-cases (range_end x == y.virt_addr)) [
  | inl e ↦ rw e (
      merged-covers (record x { page_count = x.page_count + y.page_count }) ys a
      ∙ ap (λ p. p || covers ys a) (union e)
      ∙ assoc (inside x a) (inside y a) (covers ys a))
  | inr e ↦ rw e (ap (λ p. inside x a || p) (merged-covers y ys a))
]
  where
    union :
        (range_end x == y.virt_addr) ≡ true
        → inside (record x { page_count = x.page_count + y.page_count }) a
          ≡ (inside x a || inside y a)
    union e = ground (arith, e)

    assoc : (p q s : Bool) → ((p || q) || s) ≡ (p || (q || s))
    assoc true q s = refl
    assoc false q s = refl

merge_all-Apart : (low : ℕ) (xs : List FreeRange) → Apart low xs → Apart low (merge_all xs)
merge_all-Apart low [] t = t
merge_all-Apart low (x ∷ xs) t = merged-Apart low x xs t

merge_all-covers : (xs : List FreeRange) (a : ℕ) → covers (merge_all xs) a ≡ covers xs a
merge_all-covers [] a = refl
merge_all-covers (x ∷ xs) a = merged-covers x xs a

-- For a list of free ranges that is in order and apart, and a range that meets none of them, with memory for its
-- node, `recycle_module_range` leaves a list in order and apart whose addresses are those of the list
-- before and those of the range, however the ranges are merged.
pub recycle_module_range-covers :
    (r : FreeRange) (rs : List FreeRange) (low : ℕ)
    → Apart low rs
    → Clear r rs
    → low ≤ r.virt_addr
    → 0 < r.page_count
    → Apart low (recycle_module_range true r rs)
      × ((a : ℕ) → covers (recycle_module_range true r rs) a ≡ (inside r a || covers rs a))
unfolding recycle_module_range
recycle_module_range-covers r rs low t c h n = (
  merge_all-Apart low (insert_range r rs) (insert_range-Apart r low rs h n c t),
  λ a. merge_all-covers (insert_range r rs) a ∙ insert_range-covers r rs a,
)
