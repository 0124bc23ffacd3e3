-- ===== src/Vma/Order.antt =====
-- The order of the area list: aligned, non-empty areas of user space, each behind the one before.
use nova_os.Base.{
  ℕ, ◌%◌, ◌≤◌, ◌<◌, ◌≡◌, refl, inl, inr, true, Option, none, some, List, [], ◌∷◌, arith,
  if◌then◌else◌, Bool-cases, page_size,
}
use nova_os.Vma.{Vma, user_space_max, holds, vma_find}

abbrev pub Area : Vma → Type 0
Area v =
    (v.start < v.end)
    × (v.end ≤ user_space_max)
    × (v.start % page_size ≡ 0)
    × (v.end % page_size ≡ 0)

-- Every area starts at `lo` or above.
abbrev pub Ordered : ℕ → List Vma → Type 0
Ordered lo [] = Unit
Ordered lo (v ∷ vs) = (lo ≤ v.start) × Area v × Ordered v.end vs

-- The flags of the area that holds an address: what a list of areas says of it.
unfoldable pub flags_at : List Vma → ℕ → Option ℕ
flags_at [] a = none
flags_at (v ∷ vs) a = if holds v a then some v.flags else flags_at vs a

pub flags_at-find :
    (vs : List Vma) (a : ℕ)
    → flags_at vs a ≡ elim (vma_find vs a) [ none ↦ none | some v ↦ some v.flags ]
unfolding flags_at vma_find
flags_at-find [] a = refl
flags_at-find (v ∷ vs) a = ground (arith, flags_at-find vs a)

pub Ordered-weaken : (vs : List Vma) {lo lo' : ℕ} → lo' ≤ lo → Ordered lo vs → Ordered lo' vs
Ordered-weaken [] h o = tt
Ordered-weaken (v ∷ vs) h o = (omega arith, o.1, o.2)

pub find-below : (vs : List Vma) (lo a : ℕ) → Ordered lo vs → a < lo → vma_find vs a ≡ none
unfolding vma_find
find-below [] lo a o h = refl
find-below (v ∷ vs) lo a o h = ground (arith, find-below vs v.end a o.2)

pub flags-below : (vs : List Vma) (lo a : ℕ) → Ordered lo vs → a < lo → flags_at vs a ≡ none
flags-below vs lo a o h = rw (flags_at-find, find-below vs lo a o h)

-- What is found at an address holds it, and is one of the areas.
pub find-Area :
    (vs : List Vma) (lo a : ℕ) (v : Vma)
    → Ordered lo vs
    → vma_find vs a ≡ some v
    → (lo ≤ v.start) × Area v × (holds v a ≡ true)
unfolding vma_find
find-Area [] lo a v o e = cc
find-Area (x ∷ vs) lo a v o e = elim (Bool-cases (holds x a)) [
  | inl here ↦ ground arith
  | inr past ↦
      let r = find-Area vs x.end a v o.2 (rw (past, vma_find) at e) in
      (omega (arith, r.0), r.1, r.2)
]

-- The area found at one address is found at every address that it holds.
pub find-same :
    (vs : List Vma) (lo a b : ℕ) (v : Vma)
    → Ordered lo vs
    → vma_find vs a ≡ some v
    → holds v b ≡ true
    → vma_find vs b ≡ some v
unfolding vma_find
find-same [] lo a b v o e h = cc
find-same (x ∷ vs) lo a b v o e h = ground (
  arith,
  find-same vs x.end a b v o.2,
  λ (q : vma_find vs a ≡ some v). find-Area vs x.end a v o.2 q,
)

pub find-holds : (vs : List Vma) (a : ℕ) (v : Vma) → vma_find vs a ≡ some v → holds v a ≡ true
unfolding vma_find
find-holds [] a v e = cc
find-holds (x ∷ vs) a v e = ground (arith, find-holds vs a v)
