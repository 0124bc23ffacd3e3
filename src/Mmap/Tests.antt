-- ===== src/Mmap/Tests.antt =====
-- The two calls on the areas of a process.
use nova_os.Base.{
  ℕ, ◌+◌, ◌≤◌, ◌<◌, ◌≡◌, refl, ◌⊎◌, true, false, Option, none, some, List, [], ◌∷◌, arith,
}
use nova_os.Vma.{
  Vma, bad_range, overlaps_any, insert_sorted, insert_after, vma_create, vma_destroy, destroy_loop,
  carve, release_part, release_pages,
}
use nova_os.Vma.Order.{Ordered}
use nova_os.Vma.Destroy.{log}
use nova_os.Mmap.{
  Result, success, error, einval, sys_munmap, collision, at, no_space, place_loop, place,
  stack_floor, user_mmap_base, sys_mmap, map_anywhere, create_at,
}
use nova_os.Mmap.Place.{Fits, Taken, place_lem}
use nova_os.Mmap.Unmap.{served, sys_munmap-Ordered}

-- Two areas at the base of the search with a page between them.
abbrev areas : List Vma
areas =
    record { start = 0x6000_0000_0000; end = 0x6000_0000_3000; flags = 27 }
    ∷ record { start = 0x6000_0000_4000; end = 0x6000_0000_6000; flags = 27 }
    ∷ []

areas-Ordered : Ordered 0 areas
areas-Ordered = ground arith

place_lem_example :
    ((t : ℕ) × (place areas 0x2000 ≡ at t) × Fits areas 0x2000 t)
    ⊎ ((place areas 0x2000 ≡ no_space)
        × ((t : ℕ) → user_mmap_base ≤ t → t + 0x2000 < stack_floor → Taken areas 0x2000 t))
place_lem_example = place_lem areas areas-Ordered 0x2000 (omega arith)

placed : (place areas 0x1000 ≡ at 0x6000_0000_3000) × (place areas 0x2000 ≡ at 0x6000_0000_6000)
unfolding place_loop collision
placed = (refl, refl)

abbrev base : ℕ
base = 0x6000_0000_0000

sys_munmap-Ordered_example :
    let (r, vs', s') = sys_munmap log (λ _. true) base 0x1000 areas [] in
    Ordered 0 vs'
    × (((served base 0x1000 ≡ true) × (r ≡ success 0))
        ⊎ ((served base 0x1000 ≡ false) × (r ≡ error einval) × (vs' ≡ areas)))
sys_munmap-Ordered_example =
    sys_munmap-Ordered log (λ _. true) base 0x1000 areas [] areas-Ordered (omega arith)

-- A length near 2^64 wraps: the call succeeds, and two areas overlap afterwards.
abbrev wrapped : Result × List Vma × List ℕ
wrapped = sys_munmap log (λ _. true) 0x6000_0000_2000 0xffff_ffff_ffff_f000 areas []

wraps : wrapped ≡ (
  success 0,
  record { start = 0x6000_0000_0000; end = 0x6000_0000_2000; flags = 27 }
      ∷ record { start = 0x6000_0000_1000; end = 0x6000_0000_3000; flags = 27 }
      ∷ record { start = 0x6000_0000_4000; end = 0x6000_0000_6000; flags = 27 }
      ∷ [],
  [],
)
unfolding sys_munmap vma_destroy destroy_loop carve release_part release_pages
wraps = refl

abbrev outcome : Option (Result × List Vma × List ℕ) → Option Result
outcome none = none
outcome (some r) = some r.0

mapped :
    outcome (sys_mmap log (λ _. true) true 0 0x1800 3 false 0 areas [])
    ≡ some (success 0x6000_0000_6000)
unfolding sys_mmap map_anywhere place_loop collision create_at vma_create bad_range overlaps_any
    insert_sorted insert_after
mapped = refl
