-- ===== src/Slots.antt =====
-- Growing tables of pointers, as src/kernel/syscall/sysfile.c keeps the open files of a process and
-- src/kernel/drivers/driver.c the opened drivers: a list with `none` for a null pointer.
pub mod Count
pub mod Place
use nova_os.Base.{
  ℕ, zero, suc, ◌-◌, ◌*◌, ◌≤◌, ◌<◌, ◌≡◌, refl, ap, ◌≢◌, Option, none, some, List, [], ◌∷◌, ◌++◌,
  arith, ◌==◌, if◌then◌else◌, length, set, replicate,
}

-- The capacity after growth: the first one for an empty table, else the double.
abbrev pub doubled : ℕ → ℕ → ℕ
doubled first old = if old == 0 then first else old * 2

some_inj : {i j : ℕ} → some i ≡ some j → i ≡ j
some_inj {i = i} e = ap (λ (t : Option ℕ). elim t [ none ↦ i | some m ↦ m ]) e

module _ {ℓ} {A : Type ℓ} where
  -- What a table holds at an index; nothing past its end.
  abbrev pub slot : List (Option A) → ℕ → Option A
  slot [] i = none
  slot (x ∷ xs) zero = x
  slot (x ∷ xs) (suc i) = slot xs i

  -- The first free index from `k` on.
  unfoldable pub free_from : ℕ → List (Option A) → Option ℕ
  free_from k [] = none
  free_from zero (none ∷ xs) = some 0
  free_from zero (some x ∷ xs) = elim (free_from 0 xs) [ none ↦ none | some i ↦ some (suc i) ]
  free_from (suc k) (x ∷ xs) = elim (free_from k xs) [ none ↦ none | some i ↦ some (suc i) ]

  -- The old pointers in a new table, of null pointers from their end on.
  abbrev pub widened : ℕ → List (Option A) → List (Option A)
  widened first xs = xs ++ replicate (doubled first (length xs) - length xs) none

module _ {ℓ} {A : Type ℓ} where
  slot-replicate : (n i : ℕ) → slot {A = A} (replicate n none) i ≡ none
  slot-replicate zero i = refl
  slot-replicate (suc n) zero = refl
  slot-replicate (suc n) (suc i) = slot-replicate n i

  pub slot-append_none :
      (xs : List (Option A)) (n i : ℕ) → slot (xs ++ replicate n none) i ≡ slot xs i
  slot-append_none [] n i = slot-replicate n i
  slot-append_none (x ∷ xs) n zero = refl
  slot-append_none (x ∷ xs) n (suc i) = slot-append_none xs n i

  pub slot-set_self :
      (xs : List (Option A)) (i : ℕ) (x : Option A) → i < length xs → slot (set xs i x) i ≡ x
  slot-set_self [] i x h = elim h [ ]
  slot-set_self (y ∷ xs) zero x h = refl
  slot-set_self (y ∷ xs) (suc i) x h = slot-set_self xs i x (omega arith)

  pub slot-set_ne :
      (xs : List (Option A)) (i j : ℕ) (x : Option A) → i ≢ j → slot (set xs i x) j ≡ slot xs j
  slot-set_ne [] i j x h = refl
  slot-set_ne (y ∷ xs) zero zero x h = absurd (h refl)
  slot-set_ne (y ∷ xs) zero (suc j) x h = refl
  slot-set_ne (y ∷ xs) (suc i) zero x h = refl
  slot-set_ne (y ∷ xs) (suc i) (suc j) x h = slot-set_ne xs i j x (λ e. h (ap suc e))

  pub slot-past : (xs : List (Option A)) (i : ℕ) → length xs ≤ i → slot xs i ≡ none
  slot-past [] i h = refl
  slot-past (x ∷ xs) zero h = absurd (omega arith)
  slot-past (x ∷ xs) (suc i) h = slot-past xs i (omega arith)

  shifted :
      (k : ℕ) (x : Option A) (xs : List (Option A)) (r : Option ℕ)
      → ((i : ℕ) → r ≡ some i → (k ≤ i) × (i < length xs) × (slot xs i ≡ none))
      → (i : ℕ) → elim r [ none ↦ none | some j ↦ some (suc j) ] ≡ some i
      → (suc k ≤ i) × (i < length (x ∷ xs)) × (slot (x ∷ xs) i ≡ none)
  shifted k x xs none f i h = absurd (ground (arith, h))
  shifted k x xs (some j) f zero h = absurd (ground (arith, h))
  shifted k x xs (some j) f (suc i) h =
      let (a, b, c) = f i (ap some (ground (arith, some_inj h))) in
      (omega (arith, a), omega (arith, b), c)

  pub free_from-Free :
      (k : ℕ) (xs : List (Option A)) (i : ℕ)
      → free_from k xs ≡ some i
      → (k ≤ i) × (i < length xs) × (slot xs i ≡ none)
  unfolding free_from
  free_from-Free k [] i h = absurd (ground (arith, h))
  free_from-Free zero (none ∷ xs) zero h = (omega arith, omega arith, refl)
  free_from-Free zero (none ∷ xs) (suc i) h = absurd (ground (arith, h))
  free_from-Free zero (some x ∷ xs) i h =
      let (a, b, c) = shifted 0 (some x) xs (free_from 0 xs) (free_from-Free 0 xs) i h in
      (omega arith, b, c)
  free_from-Free (suc k) (x ∷ xs) i h = shifted k x xs (free_from k xs) (free_from-Free k xs) i h
