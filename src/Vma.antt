-- ===== src/Vma.antt =====
-- The virtual memory areas of a process, src/kernel/mem/vmm.c: `proc->vmaHead` as the list of its nodes in
-- the order of the `next` pointers. `kmalloc` enters as its success (`ok`), and the release of a page
-- of the address space, `phys = vmmVirtToPhys(..); if (phys) { vmmUnmapPage(..); pmm_free_frame(..); }`,
-- as a function on the state of the address space.
pub mod Order
pub mod Create
pub mod Destroy
pub mod Validate
mod Tests
use nova_os.Base.{
  ℕ, zero, suc, ◌+◌, ◌-◌, ◌*◌, ◌/◌, ◌%◌, ◌^◌, Bool, true, false, ◌&&◌, ◌||◌, not, Option, none,
  some, List, [], ◌∷◌, ◌++◌, ltb, leb, ◌==◌, if◌then◌else◌, add64, sub64, page_size, page_down,
  length,
}
use nova_os.Vmm.Entry.{has_bit}

pub record Vma : Type 0 where
  pub start : ℕ
  pub end : ℕ
  pub flags : ℕ

abbrev pub user_space_max : ℕ
user_space_max = 0x0000_8000_0000_0000

abbrev pub vma_read : ℕ
vma_read = 0

abbrev pub vma_write : ℕ
vma_write = 1

abbrev pub vma_exec : ℕ
vma_exec = 2

abbrev pub vma_user : ℕ
vma_user = 3

abbrev pub vma_stack : ℕ
vma_stack = 5

-- `addr >= curr->start && addr < curr->end`
abbrev pub holds : Vma → ℕ → Bool
holds v a = leb v.start a && ltb a v.end

unfoldable pub vma_find : List Vma → ℕ → Option Vma
vma_find [] a = none
vma_find (v ∷ vs) a = if holds v a then some v else vma_find vs a

-- The first and the last bound of the pages that `size` bytes from `start` on touch.
abbrev pub page_start_of : ℕ → ℕ
page_start_of start = page_down start

abbrev pub page_end_of : ℕ → ℕ → ℕ
page_end_of start size = page_down (sub64 (add64 (add64 start size) page_size) 1)

unfoldable pub overlaps_any : ℕ → ℕ → List Vma → Bool
overlaps_any ps pe [] = false
overlaps_any ps pe (v ∷ vs) = (ltb ps v.end && ltb v.start pe) || overlaps_any ps pe vs

-- The walk `while (it->next && it->next->start < pageStart)`, and the insertion behind it.
unfoldable pub insert_after : Vma → List Vma → List Vma
insert_after v [] = v ∷ []
insert_after v (x ∷ xs) = if ltb x.start v.start then x ∷ insert_after v xs else v ∷ x ∷ xs

unfoldable pub insert_sorted : Vma → List Vma → List Vma
unfolding insert_after
insert_sorted v [] = v ∷ []
insert_sorted v (x ∷ xs) = if ltb v.start x.start then v ∷ x ∷ xs else x ∷ insert_after v xs

-- The two returns of `NULL` before the list is looked at.
unfoldable pub bad_range : ℕ → ℕ → Bool
bad_range start size =
    (size == 0)
    || leb (page_end_of start size) (page_start_of start)
    || ltb user_space_max (page_end_of start size)

abbrev pub new_area : ℕ → ℕ → ℕ → Vma
new_area start size flags = record {
  start = page_start_of start;
  end = page_end_of start size;
  flags = flags;
}

-- `none` beside the list unchanged is the return of `NULL`.
unfoldable pub vma_create : Bool → List Vma → ℕ → ℕ → ℕ → List Vma × Option Vma
vma_create ok vs start size flags =
    let v = new_area start size flags in
    if bad_range start size
    then (vs, none)
    else if overlaps_any v.start v.end vs
    then (vs, none)
    else if ok
    then (insert_sorted v vs, some v)
    else (vs, none)

-- What `vmaDestroy` leaves of one node; `ok` is the success of the `kmalloc` for the right part.
unfoldable pub carve : Bool → ℕ → ℕ → Vma → List Vma
carve ok ps pe v =
    if ltb ps v.end && ltb v.start pe
    then if leb ps v.start && leb v.end pe
      then []
      else if ltb v.start ps && ltb pe v.end
      then if ok
        then record v { end = ps } ∷ record v { start = pe } ∷ []
        else record v { end = ps } ∷ []
      else if ltb v.start ps
      then record v { end = ps } ∷ []
      else record v { start = pe } ∷ []
    else v ∷ []

module _ {S : Type 0} (release : ℕ → S → S) where
  -- `for (addr = from; addr < ..; addr += PAGE_SIZE)`, `n` pages of it
  unfoldable pub release_pages : ℕ → ℕ → S → S
  release_pages zero from s = s
  release_pages (suc n) from s = release_pages n (from + page_size) (release from s)

  -- The pages of the part of one node that is destroyed.
  unfoldable pub release_part : ℕ → ℕ → Vma → S → S
  unfolding release_pages
  release_part ps pe v s =
      let from = if ltb ps v.start then v.start else ps in
      let to = if ltb v.end pe then v.end else pe in
      if ltb ps v.end && ltb v.start pe
      then release_pages ((to + 4095 - from) / page_size) from s
      else s

  -- The loop of `vmaDestroy`; `ok` says for each node whether its `kmalloc` succeeds.
  unfoldable pub destroy_loop : (Vma → Bool) → ℕ → ℕ → List Vma → S → List Vma × S
  unfolding carve release_part
  destroy_loop ok ps pe [] s = ([], s)
  destroy_loop ok ps pe (v ∷ vs) s =
      let (rest, s') = destroy_loop ok ps pe vs (release_part ps pe v s) in
      (carve (ok v) ps pe v ++ rest, s')

  -- The result is 0, or `none` for the -1 of an empty range.
  unfoldable pub vma_destroy : (Vma → Bool) → List Vma → ℕ → ℕ → S → Option (List Vma × S)
  unfolding destroy_loop
  vma_destroy ok vs start size s =
      if size == 0
      then none
      else some (destroy_loop ok (page_start_of start) (page_end_of start size) vs s)

-- One pass of the loop of `validateUserRange`: the area at `cur` allows the access.
abbrev pub allows : Bool → Vma → Bool
allows write v =
    has_bit v.flags vma_user
    && (if write then has_bit v.flags vma_write else has_bit v.flags vma_read)

-- The loop, on fuel; `none`: the fuel ran out.
unfoldable pub validate_loop : List Vma → Bool → ℕ → ℕ → ℕ → Option Bool
unfolding vma_find
validate_loop vs write zero pe cur = none
validate_loop vs write (suc k) pe cur =
    let step : Option Bool = elim (vma_find vs cur) [
      | none ↦ some false
      | some v ↦ if allows write v then validate_loop vs write k pe v.end else some false
    ] in
    if ltb cur pe then step else some true

-- `validateUserRange` in a process with these areas. Each round of the loop ends at another area.
unfoldable pub validate_user_range : List Vma → ℕ → ℕ → Bool → Option Bool
unfolding validate_loop
validate_user_range vs start size write =
    let end = add64 start size in
    if size == 0
    then some true
    else if start == 0
    then some false
    else if ltb end start || ltb user_space_max end
    then some false
    else validate_loop vs write (length vs + 1) (page_down (sub64 (add64 end page_size) 1))
        (page_down start)
