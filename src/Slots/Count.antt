-- ===== src/Slots/Count.antt =====
-- How many slots of a table are taken.
use nova_os.Base.{
  ℕ, zero, suc, ◌+◌, ◌-◌, ◌<◌, ◌≡◌, refl, Option, none, some, List, [], ◌∷◌, ◌++◌, arith, length,
  set, replicate,
}
use nova_os.Slots.{slot, doubled, widened}

module _ {ℓ} {A : Type ℓ} where
  abbrev pub taken : Option A → ℕ
  taken none = 0
  taken (some x) = 1

  abbrev pub occupied : List (Option A) → ℕ
  occupied [] = 0
  occupied (x ∷ xs) = taken x + occupied xs

  pub occupied-append : (xs ys : List (Option A)) → occupied (xs ++ ys) ≡ occupied xs + occupied ys
  occupied-append [] ys = omega arith
  occupied-append (x ∷ xs) ys = omega (arith, occupied-append xs ys)

occupied-replicate {ℓ} : (A : Type ℓ) (n : ℕ) → occupied {A = A} (replicate n none) ≡ 0
occupied-replicate A zero = refl
occupied-replicate A (suc n) = omega (arith, occupied-replicate A n)

module _ {ℓ} {A : Type ℓ} where
  pub occupied-widened :
      (first : ℕ) (xs : List (Option A)) → occupied (widened first xs) ≡ occupied xs
  occupied-widened first xs = omega (
    arith,
    occupied-append xs (replicate (doubled first (length xs) - length xs) none),
    occupied-replicate A (doubled first (length xs) - length xs),
  )

  pub occupied-set :
      (xs : List (Option A)) (i : ℕ) (x : Option A)
      → i < length xs
      → occupied (set xs i x) + taken (slot xs i) ≡ occupied xs + taken x
  occupied-set [] i x h = absurd (omega arith)
  occupied-set (y ∷ xs) zero x h = omega arith
  occupied-set (y ∷ xs) (suc i) x h = omega (arith, occupied-set xs i x (omega (arith, h)))

  -- A table with no taken slot holds nothing.
  pub slot-unoccupied : (xs : List (Option A)) (i : ℕ) → occupied xs ≡ 0 → slot xs i ≡ none
  slot-unoccupied [] i h = refl
  slot-unoccupied (none ∷ xs) zero h = refl
  slot-unoccupied (some y ∷ xs) zero h = absurd (omega (arith, h))
  slot-unoccupied (y ∷ xs) (suc i) h = slot-unoccupied xs i (omega (arith, h))

  pub slot-some_inside : (xs : List (Option A)) (i : ℕ) (a : A) → slot xs i ≡ some a → i < length xs
  slot-some_inside [] i a h = absurd (ground (arith, h))
  slot-some_inside (x ∷ xs) zero a h = omega arith
  slot-some_inside (x ∷ xs) (suc i) a h = omega (arith, slot-some_inside xs i a h)
