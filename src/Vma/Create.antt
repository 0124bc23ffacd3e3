-- ===== src/Vma/Create.antt =====
-- `vmaCreate`: when it succeeds, and what the list is then.
use nova_os.Base.{
  ℕ, ◌≤◌, ◌<◌, max, ◌≡◌, refl, ◌∙◌, ◌≢◌, ◌⊎◌, inl, inr, Bool, true, false, not, ◌&&◌, none, some,
  List, [], ◌∷◌, arith, ltb, if◌then◌else◌, Bool-cases,
}
use nova_os.Vma.{
  Vma, user_space_max, holds, overlaps_any, insert_after, insert_sorted, vma_create, new_area,
  bad_range, page_start_of, page_end_of,
}
use nova_os.Vma.Order.{Area, Ordered, flags_at}

module _ (v : Vma) (area : Area v) where
  insert_after-Ordered :
      (xs : List Vma) (lo : ℕ)
      → lo ≤ v.start
      → Ordered lo xs
      → overlaps_any v.start v.end xs ≡ false
      → Ordered lo (insert_after v xs)
  unfolding insert_after overlaps_any
  insert_after-Ordered [] lo h o free = (h, area, tt)
  insert_after-Ordered (x ∷ xs) lo h o free = elim (Bool-cases (ltb x.start v.start)) [
    | inl before ↦
        rw before (o.0, o.1, insert_after-Ordered xs x.end (ground arith) o.2 (ground arith))
    | inr behind ↦ rw behind (h, area, (ground arith, o.1, o.2))
  ]

  pub insert_sorted-Ordered :
      (xs : List Vma) (lo : ℕ)
      → lo ≤ v.start
      → Ordered lo xs
      → overlaps_any v.start v.end xs ≡ false
      → Ordered lo (insert_sorted v xs)
  unfolding insert_sorted overlaps_any
  insert_sorted-Ordered [] lo h o free = (h, area, tt)
  insert_sorted-Ordered (x ∷ xs) lo h o free = elim (Bool-cases (ltb v.start x.start)) [
    | inl before ↦ rw before (h, area, (ground arith, o.1, o.2))
    | inr behind ↦
        rw behind (o.0, o.1, insert_after-Ordered xs x.end (ground arith) o.2 (ground arith))
  ]

  insert_after-flags :
      (xs : List Vma) (a : ℕ)
      → overlaps_any v.start v.end xs ≡ false
      → flags_at (insert_after v xs) a ≡ (if holds v a then some v.flags else flags_at xs a)
  unfolding insert_after overlaps_any flags_at
  insert_after-flags [] a free = refl
  insert_after-flags (x ∷ xs) a free = ground (arith, insert_after-flags xs a)

  pub insert_sorted-flags :
      (xs : List Vma) (a : ℕ)
      → overlaps_any v.start v.end xs ≡ false
      → flags_at (insert_sorted v xs) a ≡ (if holds v a then some v.flags else flags_at xs a)
  unfolding insert_sorted overlaps_any flags_at
  insert_sorted-flags [] a free = refl
  insert_sorted-flags (x ∷ xs) a free = ground (arith, insert_after-flags xs a)

-- Exactly the ranges with an address in some area overlap one.
pub overlaps_any-false :
    (ps pe : ℕ) (vs : List Vma) (a : ℕ)
    → overlaps_any ps pe vs ≡ false
    → ps ≤ a
    → a < pe
    → flags_at vs a ≡ none
unfolding overlaps_any flags_at
overlaps_any-false ps pe [] a e lo hi = refl
overlaps_any-false ps pe (v ∷ vs) a e lo hi = ground (arith, overlaps_any-false ps pe vs a)

pub overlaps_any-true :
    (ps pe : ℕ) (vs : List Vma) (lo : ℕ)
    → Ordered lo vs
    → ps < pe
    → overlaps_any ps pe vs ≡ true
    → (a : ℕ) × (ps ≤ a) × (a < pe) × (flags_at vs a ≢ none)
unfolding overlaps_any flags_at
overlaps_any-true ps pe [] lo o h e = cc
overlaps_any-true ps pe (v ∷ vs) lo o h e = elim (Bool-cases (ltb ps v.end && ltb v.start pe)) [
  | inl here ↦ (max ps v.start, omega arith, ground arith, ground arith)
  | inr past ↦
      let (a, low, high, found) = overlaps_any-true ps pe vs v.end o.2 h (ground arith) in
      (a, low, high, ground arith)
]

-- The areas' list after a call: the new area is there when the range is good, free and the node
-- could be allocated, and nothing else changes.
abbrev pub created : Bool → List Vma → ℕ → ℕ → Bool
created ok vs start size =
    not (bad_range start size)
    && not (overlaps_any (page_start_of start) (page_end_of start size) vs)
    && ok

module _ (ok : Bool) (vs : List Vma) (start size flags : ℕ) where
  good-Area : bad_range start size ≡ false → Area (new_area start size flags)
  unfolding bad_range
  good-Area e = ground arith

  -- `vmaCreate` keeps an ordered list ordered, on every path.
  vma_create-Ordered : Ordered 0 vs → Ordered 0 (vma_create ok vs start size flags).0
  unfolding vma_create
  vma_create-Ordered o = elim (Bool-cases (bad_range start size)) [
    | inl bad ↦ rw bad o
    | inr good ↦
        rw good
          (elim (Bool-cases (overlaps_any (page_start_of start) (page_end_of start size) vs)) [
            | inl hit ↦ rw hit o
            | inr free ↦ rw free (elim (Bool-cases ok) [
              | inl yes' ↦ rw yes' (
                  insert_sorted-Ordered (new_area start size flags) (good-Area good) vs 0
                    (omega arith) o free)
              | inr no' ↦ rw no' o
            ])
          ])
  ]

  pub vma_create-flags :
      (a : ℕ)
      → flags_at (vma_create ok vs start size flags).0 a ≡ (
          if created ok vs start size && holds (new_area start size flags) a
          then some flags
          else flags_at vs a)
  unfolding vma_create
  vma_create-flags a = elim (Bool-cases (bad_range start size)) [
    | inl bad ↦ rw bad refl
    | inr good ↦
        rw good
          (elim (Bool-cases (overlaps_any (page_start_of start) (page_end_of start size) vs)) [
            | inl hit ↦ rw hit refl
            | inr free ↦ rw free (elim (Bool-cases ok) [
              | inl yes' ↦
                  rw yes'
                    (insert_sorted-flags (new_area start size flags) (good-Area good) vs a free)
              | inr no' ↦ rw no' refl
            ])
          ])
  ]

-- With memory for the node, on an ordered list and a range of user space that is not empty,
-- `vmaCreate` either adds the area, all of it free before, and changes no other address; or it
-- returns `NULL`, changes nothing, and an address of the range lies in an area.
pub vma_create_lem :
    (vs : List Vma) (start size flags : ℕ)
    → Ordered 0 vs
    → size ≢ 0
    → page_start_of start < page_end_of start size
    → page_end_of start size ≤ user_space_max
    → ((vma_create true vs start size flags).1 ≡ some (new_area start size flags))
        × ((a : ℕ) → holds (new_area start size flags) a ≡ true → flags_at vs a ≡ none)
        × ((a : ℕ)
            → flags_at (vma_create true vs start size flags).0 a
              ≡ (if holds (new_area start size flags) a then some flags else flags_at vs a))
      ⊎ ((vma_create true vs start size flags ≡ (vs, none))
          × ((a : ℕ) × (holds (new_area start size flags) a ≡ true) × (flags_at vs a ≢ none)))
unfolding vma_create bad_range
vma_create_lem vs start size flags o ne lo hi =
    elim (Bool-cases (overlaps_any (page_start_of start) (page_end_of start size) vs)) [
      | inl hit ↦
          let (a, low, high, found) = overlaps_any-true _ _ vs 0 o lo hit in
          inr (rw (good, hit), (a, ground arith, found))
      | inr free ↦ inl (
        rw (good, free),
        λ a h. overlaps_any-false _ _ vs a free (ground arith) (ground arith),
        λ a. vma_create-flags true vs start size flags a ∙ rw (good, free),
      )
    ]
  where
    good : bad_range start size ≡ false
    good = ground arith
