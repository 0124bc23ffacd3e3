-- ===== src/Vma/Tests.antt =====
-- The areas of a process, and the theorems about them at concrete areas.
use nova_os.Base.{
  ℕ, ◌+◌, ◌%◌, ◌≤◌, ◌<◌, ◌≡◌, refl, ◌≢◌, ◌⊎◌, true, false, none, some, List, [], ◌∷◌, arith,
  if◌then◌else◌, page_size,
}
use nova_os.Vma.{
  Vma, user_space_max, holds, bad_range, overlaps_any, page_start_of, page_end_of, new_area,
  vma_create, vma_destroy, validate_user_range,
}
use nova_os.Vma.Order.{Ordered, flags_at}
use nova_os.Vma.Create.{vma_create_lem}
use nova_os.Vma.Destroy.{cut, log, times, vma_destroy_lem}
use nova_os.Vma.Validate.{Allowed, Denied, validate_user_range_lem}

-- Two areas with a page between them; the second may not be written.
abbrev areas : List Vma
areas =
    record { start = 0x40_0000; end = 0x40_3000; flags = 11 }
    ∷ record { start = 0x40_4000; end = 0x40_6000; flags = 9 }
    ∷ []

areas-Ordered : Ordered 0 areas
areas-Ordered = ground arith

vma_create_lem_example :
    ((vma_create true areas 0x40_3000 16 11).1 ≡ some (new_area 0x40_3000 16 11))
      × ((a : ℕ) → holds (new_area 0x40_3000 16 11) a ≡ true → flags_at areas a ≡ none)
      × ((a : ℕ)
          → flags_at (vma_create true areas 0x40_3000 16 11).0 a
            ≡ (if holds (new_area 0x40_3000 16 11) a then some 11 else flags_at areas a))
    ⊎ ((vma_create true areas 0x40_3000 16 11 ≡ (areas, none))
        × ((a : ℕ) × (holds (new_area 0x40_3000 16 11) a ≡ true) × (flags_at areas a ≢ none)))
vma_create_lem_example =
    vma_create_lem areas 0x40_3000 16 11 areas-Ordered (omega arith) (omega arith) (omega arith)

created_between :
    (vma_create true areas 0x40_3000 16 11).1
    ≡ some (record { start = 0x40_3000; end = 0x40_4000; flags = 11 })
unfolding vma_create bad_range overlaps_any
created_between = refl

vma_destroy_lem_example :
    (r : List Vma × List ℕ) × (vma_destroy log (λ _. true) areas 0x40_1000 0x1000 [] ≡ some r)
    × ((a : ℕ)
        → flags_at r.0 a ≡ (
            if cut (page_start_of 0x40_1000) (page_end_of 0x40_1000 0x1000) a
            then none
            else flags_at areas a))
    × ((a : ℕ)
        → a % page_size ≡ 0
        → times a r.1 ≡ (
            if cut (page_start_of 0x40_1000) (page_end_of 0x40_1000 0x1000) a
            then elim (flags_at areas a) [ none ↦ 0 | some f ↦ 1 ]
            else 0))
vma_destroy_lem_example =
    vma_destroy_lem areas areas-Ordered 0x40_1000 0x1000 (omega arith) (omega arith)

abbrev start : ℕ
start = 0x40_2ff0

abbrev size : ℕ
size = 32

validate_user_range_lem_example :
    ((validate_user_range areas start size false ≡ some true)
      × ((size ≡ 0)
          ⊎ (start ≢ 0) × (start + size ≤ user_space_max) × Allowed areas false start size))
    ⊎ ((validate_user_range areas start size false ≡ some false)
        × (size ≢ 0)
        × ((start ≡ 0) ⊎ (user_space_max < start + size) ⊎ Denied areas false start size))
validate_user_range_lem_example =
    validate_user_range_lem areas start size false areas-Ordered (omega arith) (omega arith)

-- A read may not cross the gap, and the second area may be read, but not written.
validated :
    (validate_user_range areas 0x40_2ff0 32 false ≡ some false)
    × (validate_user_range areas 0x40_4010 32 false ≡ some true)
    × (validate_user_range areas 0x40_4010 32 true ≡ some false)
unfolding validate_user_range
validated = (refl, refl, refl)
