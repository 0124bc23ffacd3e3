-- ===== src/Heap.antt =====
-- The free ranges of virtual pages, in the order of their addresses, as src/kernel/mem/heap.c and
-- src/kernel/modules/module.c both keep them, and the layout of the heap's slabs and large blocks. Giving back a range is that
-- of module.c, whose nodes are blocks of the heap, a component of its own; mapping the pages is a parameter.
pub mod Ranges
pub mod Take
pub mod Slab
pub mod Kmalloc
mod Tests
use nova_os.Base.{
  ℕ, zero, suc, ◌+◌, ◌-◌, ◌*◌, ◌/◌, ◌%◌, ◌^◌, ◌≤◌, ◌<◌, min, max, bit_and, bit_or, ◌≡◌, refl, sym,
  ap, ◌∙◌, ◌≢◌, ◌↔◌, ◌⊎◌, inl, inr, Bool, true, false, not, ◌&&◌, ◌||◌, Option, none, some, List,
  [], ◌∷◌, ◌++◌, map, arith, ltb, leb, ◌==◌, if◌then◌else◌, ltb→lt, lt→ltb, leb→le, le→leb,
  ltb-false, leb-false, ==_iff, Bool-cases, Option-cases, length, get_elem?, set, replicate,
  length-append, length-replicate, length-set, get_elem?-set_self, get_elem?-set_ne, take, drop,
  length-take, length-drop, drop-drop, take-append_drop, drop-nil, u64_mod, add64, sub64, mul64,
  page_size, and_not, page_down, page_up, bit_and_step, bit_and-le, bit_and-mask, bit_or_step,
  bit_or-zero, bit_or-div, bit_or-mod, bit_or-bit,
}

-- `VirtualFreeNode`
pub record FreeRange : Type 0 where
  pub virt_addr : ℕ
  pub page_count : ℕ

pub record VirtualPages : Type 0 where
  pub cursor : ℕ
  pub ranges : List FreeRange

abbrev pub range_end : FreeRange → ℕ
range_end r = r.virt_addr + r.page_count * page_size

-- The first loop of `recycle_module_range`: before the first range that does not lie below.
unfoldable pub insert_range : FreeRange → List FreeRange → List FreeRange
insert_range r [] = r ∷ []
insert_range r (x ∷ xs) = if ltb x.virt_addr r.virt_addr then x ∷ insert_range r xs else r ∷ x ∷ xs

-- The second loop: a range is merged with the next one that it touches. `merged x xs` stands at `x`.
unfoldable pub merged : FreeRange → List FreeRange → List FreeRange
merged x [] = x ∷ []
merged x (y ∷ ys) =
    if range_end x == y.virt_addr
    then merged (record x { page_count = x.page_count + y.page_count }) ys
    else x ∷ merged y ys

abbrev pub merge_all : List FreeRange → List FreeRange
merge_all [] = []
merge_all (x ∷ xs) = merged x xs

-- `made`: whether the heap had a node.
unfoldable pub recycle_module_range : Bool → FreeRange → List FreeRange → List FreeRange
recycle_module_range made r rs = if made then merge_all (insert_range r rs) else rs

-- The first range that is large enough is used up or loses its first pages.
unfoldable pub take_range : ℕ → List FreeRange → Option (ℕ × List FreeRange)
take_range count [] = none
take_range count (x ∷ xs) =
    let rest = take_range count xs in
    if x.page_count == count
    then some (x.virt_addr, xs)
    else if ltb count x.page_count
    then some (
      x.virt_addr,
      record { virt_addr = x.virt_addr + count * page_size; page_count = x.page_count - count }
          ∷ xs,
    )
    else elim rest [ none ↦ none | some (a, ys) ↦ some (a, x ∷ ys) ]

-- The address is a free range's, or the cursor's.
unfoldable pub reserve_pages : ℕ → VirtualPages → ℕ × VirtualPages
reserve_pages count v = elim (take_range count v.ranges) [
  | some (a, rs) ↦ (a, record v { ranges = rs })
  | none ↦ (v.cursor, record v { cursor = add64 v.cursor (mul64 count page_size) })
]

-- `maps a`: frames for all the pages can be had and mapped; where not, those that were are given back, and so
-- is the range.
unfoldable pub alloc_range : (ℕ → Bool) → Bool → ℕ → VirtualPages → Option ℕ × VirtualPages
alloc_range maps made count v =
    let (a, v') = reserve_pages count v in
    if maps a then (some a, v') else (
      none,
      record v' {
        ranges = recycle_module_range made (record { virt_addr = a; page_count = count }) v'.ranges;
      },
    )

-- sizeof(Slab) and sizeof(LargeAllocHeader)
abbrev pub header_size : ℕ
header_size = 64

-- `g_size_classes`: the least one that holds `size` bytes.
abbrev pub size_classes : List ℕ
size_classes = 16 ∷ 32 ∷ 64 ∷ 128 ∷ 256 ∷ 512 ∷ 1024 ∷ 2048 ∷ []

unfoldable pub class_from : List ℕ → ℕ → Option ℕ
class_from [] size = none
class_from (c ∷ cs) size = let rest = class_from cs size in if ltb c size then rest else some c

abbrev pub size_class : ℕ → Option ℕ
size_class size = class_from size_classes size

-- The layout of a slab at a page: the first object, on a multiple of the size, which is a power of two, and how
-- many there are.
abbrev pub data_start : ℕ → ℕ → ℕ
data_start page size = (page + header_size + size - 1) / size * size

unfoldable pub slab_capacity : ℕ → ℕ → ℕ
slab_capacity page size = (page_size - (data_start page size - page)) / size

-- The objects of a new slab, in the order of its free list.
unfoldable pub objects_from : ℕ → ℕ → ℕ → List ℕ
objects_from zero size a = []
objects_from (suc n) size a = a ∷ objects_from n size (a + size)

abbrev pub slab_objects : ℕ → ℕ → List ℕ
slab_objects page size = objects_from (slab_capacity page size) size (data_start page size)

-- The pages of a large block, with its header.
abbrev pub large_pages : ℕ → ℕ
large_pages size = add64 (add64 header_size size) 4095 / page_size
