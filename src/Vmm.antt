-- ===== src/Vmm.antt =====
-- The page tables of src/kernel/mem/vmm.c. The tables in physical memory are a function from a table's
-- physical address and an index to the 64-bit entry; the kernel reads them at the address plus
-- HHDM_BASE. `vmmInvlpg`, the flush of one TLB entry, has no effect on them.
pub mod Entry
pub mod Tree
pub mod Map
pub mod Tests
use nova_os.Base.{
  ℕ, zero, suc, ◌+◌, ◌-◌, ◌*◌, ◌/◌, ◌%◌, ◌^◌, bit_or, Bool, true, false, ◌&&◌, ◌||◌, not, Option,
  none, some, ltb, ◌==◌, if◌then◌else◌, add64, sub64, page_size, page_down,
}
use nova_os.Pmm.{Pmm, alloc_frame, free_frame}
use nova_os.Vmm.Entry.{has_bit, addr_of}

pub record Mem : Type 0 where
  pub pmm : Pmm
  pub entry : ℕ → ℕ → ℕ

-- What may fail keeps the state it has reached.
abbrev pub M : Type 0 → Type 0
M A = Mem → Option A × Mem

module _ {A B : Type 0} where
  abbrev pub and_then : Option A × Mem → (A → M B) → Option B × Mem
  and_then (none, m) k = (none, m)
  and_then (some a, m) k = k a m

  infixl 5 ◌>>=◌ ◌>>◌
  abbrev pub ◌>>=◌ : M A → (A → M B) → M B
  ◌>>=◌ f k m = and_then (f m) k

  abbrev pub ◌>>◌ : M A → M B → M B
  f >> g = f >>= λ _. g

-- `table[i] = e`
unfoldable pub write_entry : ℕ → ℕ → ℕ → Mem → Mem
write_entry t i e m = record m { entry = λ s j. if (s == t) && (j == i) then e else m.entry s j }

abbrev pub store : ℕ → ℕ → ℕ → M (Unit {0})
store t i e m = (some tt, write_entry t i e m)

-- A table of 512 zero entries.
unfoldable pub clear_table : ℕ → Mem → Mem
clear_table t m = record m { entry = λ s j. if (s == t) && ltb j 512 then 0 else m.entry s j }

-- The flags that a present entry gains, and those of a new one.
abbrev pub raised : ℕ → ℕ → ℕ
raised e flags =
    let e1 = if has_bit flags 2 then bit_or e 4 else e in
    if has_bit flags 1 then bit_or e1 2 else e1

abbrev pub entry_flags : ℕ → ℕ
entry_flags flags = if has_bit flags 2 then 7 else 3

unfoldable pub get_or_alloc_table : ℕ → ℕ → ℕ → M ℕ
unfolding write_entry clear_table
get_or_alloc_table t i flags m =
    let e = m.entry t i in
    if has_bit e 0
    then (some (addr_of (raised e flags)), write_entry t i (raised e flags) m)
    else let (frame, pmm) = alloc_frame m.pmm in
      if frame == 0 then (none, record m { pmm = pmm }) else (
        some frame,
        write_entry t i (bit_or frame (entry_flags flags))
            (clear_table frame (record m { pmm = pmm })),
      )

abbrev pub pml4_idx : ℕ → ℕ
pml4_idx virt = virt / 2 ^ 39 % 512

abbrev pub pdpt_idx : ℕ → ℕ
pdpt_idx virt = virt / 2 ^ 30 % 512

abbrev pub pd_idx : ℕ → ℕ
pd_idx virt = virt / 2 ^ 21 % 512

abbrev pub pt_idx : ℕ → ℕ
pt_idx virt = virt / 2 ^ 12 % 512

-- `none` is the result -1, `some tt` the result 0.
unfoldable pub vmm_map_page : ℕ → ℕ → ℕ → ℕ → M (Unit {0})
vmm_map_page pml4 virt phys flags = do
  pdpt ← get_or_alloc_table pml4 (pml4_idx virt) flags
  pd ← get_or_alloc_table pdpt (pdpt_idx virt) flags
  pt ← get_or_alloc_table pd (pd_idx virt) flags
  store pt (pt_idx virt) (bit_or (bit_or (addr_of (page_down phys)) flags) 1)

-- `offset` runs over the `n` pages from `off` on.
unfoldable pub map_pages : ℕ → ℕ → ℕ → ℕ → ℕ → ℕ → M (Unit {0})
map_pages zero pml4 virt phys flags off m = (some tt, m)
map_pages (suc n) pml4 virt phys flags off m =
    and_then (vmm_map_page pml4 (add64 virt off) (add64 phys off) flags m)
      (λ _. map_pages n pml4 virt phys flags (off + page_size))

unfoldable pub vmm_map_range : ℕ → ℕ → ℕ → ℕ → ℕ → M (Unit {0})
unfolding map_pages
vmm_map_range pml4 virt phys size flags =
    map_pages (page_down (sub64 (add64 size page_size) 1) / page_size) pml4 virt phys flags 0

-- 0: the address is not mapped.
unfoldable pub vmm_virt_to_phys : ℕ → ℕ → Mem → ℕ
vmm_virt_to_phys pml4 virt m =
    let e4 = m.entry pml4 (pml4_idx virt) in
    let e3 = m.entry (addr_of e4) (pdpt_idx virt) in
    let e2 = m.entry (addr_of e3) (pd_idx virt) in
    let e1 = m.entry (addr_of e2) (pt_idx virt) in
    if not (has_bit e4 0)
    then 0
    else if not (has_bit e3 0)
    then 0
    else if has_bit e3 7
    then bit_or (e3 % 2 ^ 52 - e3 % 2 ^ 30) (virt % 2 ^ 30)
    else if not (has_bit e2 0)
    then 0
    else if has_bit e2 7
    then bit_or (e2 % 2 ^ 52 - e2 % 2 ^ 21) (virt % 2 ^ 21)
    else if has_bit e1 0
    then bit_or (addr_of e1) (virt % 2 ^ 12)
    else 0

-- No entry of the first `n` is present.
unfoldable pub table_empty : ℕ → (ℕ → ℕ) → Bool
table_empty zero t = true
table_empty (suc n) t = not (has_bit (t n) 0) && table_empty n t

abbrev pub is_table_empty : ℕ → Mem → Bool
is_table_empty t m = table_empty 512 (m.entry t)

abbrev pub drop_table : ℕ → ℕ → ℕ → Mem → Mem
drop_table parent i child m =
    let m' = write_entry parent i 0 m in record m' { pmm = free_frame child m'.pmm }

-- The tables that have become empty go, from the lowest up. Those of the kernel's half of the
-- address space stay at the top level.
unfoldable pub prune_pdpt : ℕ → ℕ → ℕ → Mem → Mem
prune_pdpt pml4 pdpt virt m =
    if ltb (pml4_idx virt) 256 && is_table_empty pdpt m
    then drop_table pml4 (pml4_idx virt) pdpt m
    else m

unfoldable pub prune_pd : ℕ → ℕ → ℕ → ℕ → Mem → Mem
unfolding prune_pdpt
prune_pd pml4 pdpt pd virt m =
    if is_table_empty pd m
    then prune_pdpt pml4 pdpt virt (drop_table pdpt (pdpt_idx virt) pd m)
    else m

unfoldable pub prune : ℕ → ℕ → ℕ → ℕ → ℕ → Mem → Mem
unfolding prune_pd
prune pml4 pdpt pd pt virt m =
    if is_table_empty pt m then prune_pd pml4 pdpt pd virt (drop_table pd (pd_idx virt) pt m) else m

unfoldable pub vmm_unmap_page : ℕ → ℕ → Mem → Mem
vmm_unmap_page pml4 virt m =
    let e4 = m.entry pml4 (pml4_idx virt) in
    let pdpt = addr_of e4 in
    let e3 = m.entry pdpt (pdpt_idx virt) in
    let pd = addr_of e3 in
    let e2 = m.entry pd (pd_idx virt) in
    let pt = addr_of e2 in
    if not (has_bit e4 0)
    then m
    else if not (has_bit e3 0) || has_bit e3 7 || not (has_bit e2 0)
    then m
    else if has_bit e2 7
    then write_entry pd (pd_idx virt) 0 m
    else prune pml4 pdpt pd pt virt (write_entry pt (pt_idx virt) 0 m)

-- What `vmaDestroy` does to a page of the address space.
unfoldable pub release_page : ℕ → ℕ → Mem → Mem
release_page pml4 addr m =
    let phys = vmm_virt_to_phys pml4 addr m in
    if phys == 0
    then m
    else let m' = vmm_unmap_page pml4 addr m in record m' { pmm = free_frame phys m'.pmm }
