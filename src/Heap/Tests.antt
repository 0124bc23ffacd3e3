-- ===== src/Heap/Tests.antt =====
-- Ranges of pages at 0x10000.
use nova_os.Base.{◌+◌, page_size, ◌-◌, ◌^◌, ◌≡◌, refl, inl, inr, true, some, List, [], ◌∷◌, arith}
use nova_os.Heap.{
  header_size, FreeRange, VirtualPages, insert_range, merged, recycle_module_range, slab_objects,
  slab_capacity, objects_from, size_class, class_from, large_pages,
}
use nova_os.Heap.Ranges.{Apart, Clear}
use nova_os.Heap.Slab.{Packed, slab_objects-Packed}

abbrev low_range : FreeRange
low_range = record { virt_addr = 0x10000; page_count = 1 }

abbrev middle : FreeRange
middle = record { virt_addr = 0x11000; page_count = 2 }

abbrev high_range : FreeRange
high_range = record { virt_addr = 0x13000; page_count = 1 }

abbrev two : List FreeRange
two = low_range ∷ high_range ∷ []

-- The range between two others makes one of the three.
all_merged :
    recycle_module_range true middle two ≡ record { virt_addr = 0x10000; page_count = 4 } ∷ []
unfolding recycle_module_range insert_range merged
all_merged = refl

two-Apart : Apart 0x10000 two
unfolding Apart
two-Apart = (omega arith, omega arith, (omega arith, omega arith, tt))

middle-Clear : Clear middle two
unfolding Clear
middle-Clear = (inr (omega arith), (inl (omega arith), tt))

abbrev pages : VirtualPages
pages = record { cursor = 0x20000; ranges = two }

three_objects : slab_objects 0x10000 1024 ≡ 0x10400 ∷ 0x10800 ∷ 0x10c00 ∷ []
unfolding slab_capacity objects_from
three_objects = refl

class_of_33 : size_class 33 ≡ some 64
unfolding class_from
class_of_33 = refl

-- The sizes wrap around: a block of 2^64 - 64 bytes gets no page at all, one of 2^64 - 32 bytes one page.
huge_block : large_pages (2 ^ 64 - 32) ≡ 1
huge_block = refl

slab_objects-Packed_example :
    Packed 1024 (0x10000 + header_size) (0x10000 + page_size) (slab_objects 0x10000 1024)
slab_objects-Packed_example = slab_objects-Packed 0x10000 1024 (omega arith) (omega arith)
