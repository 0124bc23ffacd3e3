-- ===== src/Slots/Place.antt =====
-- A value put into the first free slot of a table, which grows where it has none.
use nova_os.Base.{
  ℕ, ◌+◌, ◌-◌, ◌<◌, ◌≡◌, refl, ap, ◌∙◌, ◌≢◌, ◌⊎◌, inl, inr, Bool, false, Option, none, some, List,
  arith, if◌then◌else◌, Bool-cases, Option-cases, length, set, replicate, length-append,
  length-replicate,
}
use nova_os.Slots.{
  slot, free_from, doubled, widened, free_from-Free, slot-append_none, slot-past, slot-set_self,
  slot-set_ne,
}
use nova_os.Slots.Count.{occupied, taken, occupied-widened, occupied-set}

-- `grown`: the larger table can be had. The index of the slot, and the table.
unfoldable pub place_first {ℓ} :
    {A : Type ℓ} → ℕ → Bool → A → List (Option A) → Option (ℕ × List (Option A))
place_first first grown x xs = elim (free_from 0 xs) [
  | some i ↦ some (i, set xs i (some x))
  | none ↦ if grown then some (length xs, set (widened first xs) (length xs) (some x)) else none
]

-- The slot was free, and holds the value now; every other slot is as before, and one more is taken.
pub record Placed {ℓ} {A : Type ℓ} (x : A) (xs : List (Option A)) (i : ℕ) (ys : List (Option A))
    : Type ℓ where
  pub free : slot xs i ≡ none
  pub held : slot ys i ≡ some x
  pub others : (j : ℕ) → i ≢ j → slot ys j ≡ slot xs j
  pub count : occupied ys ≡ occupied xs + 1

put-Placed :
    {A : Type 0} (x : A) (xs ws : List (Option A)) (i : ℕ)
    → slot xs i ≡ none
    → i < length ws
    → ((j : ℕ) → slot ws j ≡ slot xs j)
    → occupied ws ≡ occupied xs
    → Placed x xs i (set ws i (some x))
put-Placed x xs ws i free inside same kept = record {
  free = free;
  held = slot-set_self ws i (some x) inside;
  others = λ j ne. slot-set_ne ws i j (some x) ne ∙ same j;
  count = omega (arith, occupied-set ws i (some x) inside, ap taken (same i ∙ free), kept);
}

length-widened_more :
    {A : Type 0} (first : ℕ) (xs : List (Option A))
    → 0 < first
    → length xs < length (widened first xs)
length-widened_more first xs h = ground (
  arith,
  h,
  length-append xs (replicate (doubled first (length xs) - length xs) none),
  length-replicate (doubled first (length xs) - length xs) (none_of xs),
)
  where
    none_of : {A : Type 0} → List (Option A) → Option A
    none_of xs = none

pub place_first-Placed :
    {A : Type 0} (first : ℕ) (grown : Bool) (x : A) (xs : List (Option A))
    → 0 < first
    → ((place_first first grown x xs ≡ none) × (grown ≡ false))
      ⊎ ((i : ℕ) × (ys : List (Option A)) × (place_first first grown x xs ≡ some (i, ys))
          × Placed x xs i ys)
unfolding place_first
place_first-Placed first grown x xs h = elim (Option-cases (free_from 0 xs)) [
  | inr (i, e) ↦
      let (low, inside, free) = free_from-Free 0 xs i e in
      inr (
        i,
        set xs i (some x),
        rw (place_first, e) refl,
        put-Placed x xs xs i free inside (λ j. refl) refl,
      )
  | inl e ↦ elim (Bool-cases grown) [
    | inr g ↦ inl (rw (place_first, e, g) refl, g)
    | inl g ↦ inr (
      length xs,
      set (widened first xs) (length xs) (some x),
      rw (place_first, e, g) refl,
      put-Placed x xs (widened first xs) (length xs) (slot-past xs (length xs) (omega arith))
          (length-widened_more first xs h) (λ j. slot-append_none xs _ j)
          (occupied-widened first xs),
    )
  ]
]
