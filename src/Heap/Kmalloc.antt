-- ===== src/Heap/Kmalloc.antt =====
-- `kmalloc` and `kfree` of src/kernel/mem/heap.c: the slabs of each size class, and large blocks. `maps` tells whether frames for
-- pages at an address can be had and mapped. The nodes of the free ranges are blocks of the heap itself, so a call that
-- gives back addresses, or that uses up a free range, calls `kmalloc` or `kfree` from within. The model follows no call
-- from there on: its result is `none`, which stands for whatever the code does then, and is not NULL. A header stands at the start of its page; a list of slabs is the list of their
-- pages and a list of free objects the list of their addresses, in the order of their links.
pub mod Placed
pub mod Objects
pub mod Valid
pub mod Change
pub mod Slabs
pub mod Alloc
pub mod Free
pub mod Run
pub mod Resize
mod Tests
use nova_os.Base.{
  ℕ, zero, suc, ◌+◌, ◌-◌, ◌*◌, ◌/◌, ◌%◌, ◌^◌, ◌≤◌, ◌<◌, min, max, bit_and, bit_or, ◌≡◌, refl, sym,
  ap, ◌∙◌, ◌≢◌, ◌↔◌, ◌⊎◌, inl, inr, Bool, true, false, not, ◌&&◌, ◌||◌, Option, none, some, List,
  [], ◌∷◌, ◌++◌, map, arith, ltb, leb, ◌==◌, if◌then◌else◌, ltb→lt, lt→ltb, leb→le, le→leb,
  ltb-false, leb-false, ==_iff, Bool-cases, Option-cases, length, get_elem?, set, replicate,
  length-append, length-replicate, length-set, get_elem?-set_self, get_elem?-set_ne, take, drop,
  length-take, length-drop, drop-drop, take-append_drop, drop-nil, u64_mod, add64, sub64, mul64,
  page_size, and_not, page_down, page_up, bit_and_step, bit_and-le, bit_and-mask, bit_or_step,
  bit_or-zero, bit_or-div, bit_or-mod, bit_or-bit,
}
use nova_os.String.{Memory, fill_bytes, copy_bytes}
use nova_os.Heap.{
  FreeRange, VirtualPages, reserve_pages, header_size, size_classes, size_class, data_start,
  slab_capacity, slab_objects, large_pages,
}

pub record Slab : Type 0 where
  pub object_size : ℕ
  pub total_objects : ℕ
  pub free_objects : ℕ
  pub free_list : List ℕ

pub record LargeAllocHeader : Type 0 where
  pub num_pages : ℕ
  pub user_size : ℕ

-- What is at the start of a page, told apart by the magic number.
pub data Header : Type 0 where
  no_magic : Header
  slab_magic : Slab → Header
  large_magic : LargeAllocHeader → Header

-- `caches c`: the slabs of the class of `c` bytes.
pub record Heap : Type 0 where
  pub header : ℕ → Header
  pub caches : ℕ → List ℕ
  pub pages : VirtualPages

abbrev pub kernel_heap_base : ℕ
kernel_heap_base = 0xffff_9000_0000_0000

abbrev pub heap_init : Heap
heap_init = record {
  header = λ p. no_magic;
  caches = λ c. [];
  pages = record { cursor = kernel_heap_base; ranges = [] };
}

abbrev pub put_header : ℕ → Header → Heap → Heap
put_header p d h = record h { header = λ q. if q == p then d else h.header q }

abbrev pub put_cache : ℕ → List ℕ → Heap → Heap
put_cache c ps h = record h { caches = λ d. if d == c then ps else h.caches d }

-- The first slab of the list with a free object.
unfoldable pub find_slab : (ℕ → Header) → List ℕ → Option (ℕ × Slab)
find_slab header [] = none
find_slab header (p ∷ ps) =
    let rest = find_slab header ps in
    elim (header p) [
      | no_magic ↦ rest
      | slab_magic s ↦ if s.free_objects == 0 then rest else some (p, s)
      | large_magic l ↦ rest
    ]

-- The slab that `create_slab` writes at a page.
unfoldable pub new_slab : ℕ → ℕ → Slab
new_slab page size = record {
  object_size = size;
  total_objects = slab_capacity page size;
  free_objects = slab_capacity page size;
  free_list = slab_objects page size;
}

-- The head of the free list is taken off.
unfoldable pub take_object : ℕ → Slab → Heap → ℕ × Heap
take_object p s h = elim s.free_list [
  | [] ↦ (0, h)
  | x ∷ xs ↦ (
    x,
    put_header p (slab_magic (record s { free_list = xs; free_objects = s.free_objects - 1 })) h,
  )
]

-- The first free range that is large enough has no page more: its node goes.
unfoldable pub uses_up : ℕ → List FreeRange → Bool
uses_up count [] = false
uses_up count (x ∷ xs) =
    let rest = uses_up count xs in
    if x.page_count == count then true else if ltb count x.page_count then false else rest

-- `none`: a range is used up, and its node is freed; or the pages cannot be had, and are given back.
unfoldable pub alloc_virtual_pages : (ℕ → Bool) → ℕ → VirtualPages → Option (ℕ × VirtualPages)
alloc_virtual_pages maps count v =
    if uses_up count v.ranges
    then none
    else if maps (reserve_pages count v).0
    then some (reserve_pages count v)
    else none

module _ (maps : ℕ → Bool) where
  unfoldable pub kmalloc_new : ℕ → Heap → Option (ℕ × Heap)
  kmalloc_new c h = elim (alloc_virtual_pages maps 1 h.pages) [
    | none ↦ none
    | some (p, v) ↦ some (
        take_object p (new_slab p c) (
          put_header p (slab_magic (new_slab p c))
            (put_cache c (p ∷ h.caches c) (record h { pages = v }))))
  ]

  unfoldable pub kmalloc_slab : ℕ → Heap → Option (ℕ × Heap)
  kmalloc_slab c h = elim (find_slab h.header (h.caches c)) [
    | none ↦ kmalloc_new c h
    | some (p, s) ↦ some (take_object p s h)
  ]

  -- The number of pages is stored in 32 bits.
  unfoldable pub kmalloc_large : ℕ → Heap → Option (ℕ × Heap)
  kmalloc_large size h = elim (alloc_virtual_pages maps (large_pages size) h.pages) [
    | none ↦ none
    | some (p, v) ↦ some (
      p + header_size,
      put_header p
          (large_magic (record { num_pages = large_pages size % 2 ^ 32; user_size = size }))
          (record h { pages = v }),
    )
  ]

  unfoldable pub kmalloc : ℕ → Heap → Option (ℕ × Heap)
  kmalloc size h =
      if size == 0
      then some (0, h)
      else if leb size 2048
      then elim (size_class size) [ none ↦ some (0, h) | some c ↦ kmalloc_slab c h ]
      else kmalloc_large size h

unfoldable pub free_object : Slab → ℕ → Slab
free_object s x = record s {
  free_list = x ∷ s.free_list;
  free_objects = (s.free_objects + 1) % 2 ^ 32;
}

-- All objects of the slab are free with this one, and it is not its cache's only one: its page is given back.
abbrev pub empties : Slab → Heap → Bool
empties s h =
    ((s.free_objects + 1) % 2 ^ 32 == s.total_objects) && ltb 1 (length (h.caches s.object_size))

-- `none`: pages are given back, and `recycle_virtual_range` calls `kmalloc`.
unfoldable pub kfree : ℕ → Heap → Option Heap
kfree x h = if x == 0 then some h else elim (h.header (page_down x)) [
  | no_magic ↦ some h
  | slab_magic s ↦
      if empties s h then none else some (put_header (page_down x) (slab_magic (free_object s x)) h)
  | large_magic l ↦ none
]

-- `kzalloc` and `krealloc`, on the bytes of the blocks beside the heap.
unfoldable pub kzalloc : (ℕ → Bool) → ℕ → Heap → Memory → Option (ℕ × Heap × Memory)
kzalloc maps size h m = elim (kmalloc maps size h) [
  | none ↦ none
  | some (x, h') ↦ if x == 0 then some (0, h', m) else some (x, h', fill_bytes size x 0 m)
]

unfoldable pub moved_block : ℕ → ℕ → ℕ × Heap → Memory → Option (ℕ × Heap × Memory)
moved_block x old_size (y, h) m =
    if y == 0
    then some (0, h, m)
    else elim (kfree x h) [ none ↦ none | some h' ↦ some (y, h', copy_bytes old_size y x m) ]

unfoldable pub grow_block : (ℕ → Bool) → ℕ → ℕ → ℕ → Heap → Memory → Option (ℕ × Heap × Memory)
grow_block maps x size old_size h m =
    if leb size old_size
    then some (x, h, m)
    else elim (kmalloc maps size h) [ none ↦ none | some r ↦ moved_block x old_size r m ]

unfoldable pub krealloc : (ℕ → Bool) → ℕ → ℕ → Heap → Memory → Option (ℕ × Heap × Memory)
krealloc maps x size h m =
    if x == 0
    then elim (kmalloc maps size h) [ none ↦ none | some (y, h') ↦ some (y, h', m) ]
    else if size == 0
    then elim (kfree x h) [ none ↦ none | some h' ↦ some (0, h', m) ]
    else elim (h.header (page_down x)) [
      | no_magic ↦ some (0, h, m)
      | slab_magic s ↦ grow_block maps x size s.object_size h m
      | large_magic l ↦ grow_block maps x size l.user_size h m
    ]
