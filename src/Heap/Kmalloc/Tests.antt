-- ===== src/Heap/Kmalloc/Tests.antt =====
-- Two small blocks.
use nova_os.Base.{ℕ, Option, none, some, ◌+◌, ◌%◌, ◌≡◌, refl, Bool, true, [], ◌∷◌, arith}
use nova_os.Heap.{reserve_pages, take_range, class_from, slab_capacity, objects_from}
use nova_os.Heap.Kmalloc.{
  Heap, heap_init, kmalloc, kmalloc_slab, kmalloc_new, find_slab, take_object, new_slab, kfree,
  alloc_virtual_pages, uses_up, free_object, kernel_heap_base,
}
use nova_os.Heap.Kmalloc.Valid.{Apart2}
use nova_os.Heap.Kmalloc.Free.{Freed, kfree-Valid}
use nova_os.String.{Memory}
use nova_os.Heap.Kmalloc.{krealloc, grow_block, moved_block}
use nova_os.Heap.Kmalloc.Run.{Run, started, next, alloc, Run-Valid, Run-Apart}

abbrev every : ℕ → Bool
every a = true

abbrev first_block : ℕ
first_block = kernel_heap_base + 64

abbrev second_block : ℕ
second_block = kernel_heap_base + 96

-- The heap of a call that is followed.
heap_of : Option (ℕ × Heap) → Heap
heap_of none = heap_init
heap_of (some (x, h)) = h

abbrev after_one : Heap
after_one = heap_of (kmalloc every 24 heap_init)

abbrev after_two : Heap
after_two = heap_of (kmalloc every 30 after_one)

two_blocks : Run after_two ((second_block, 30) ∷ (first_block, 24) ∷ [])
unfolding heap_of kmalloc class_from kmalloc_slab find_slab kmalloc_new alloc_virtual_pages uses_up
    reserve_pages take_range take_object new_slab slab_capacity objects_from
two_blocks =
    next (next started (alloc every 24 first_block (omega arith) (omega arith) refl refl))
      (alloc every 30 second_block (omega arith) (omega arith) refl refl)

Run-Apart_example : Apart2 second_block 30 first_block 24
Run-Apart_example = Run-Apart [] [] [] second_block 30 first_block 24 two_blocks

kfree-Valid_example :
    Freed after_two ((second_block, 30) ∷ []) first_block (kfree first_block after_two)
kfree-Valid_example = kfree-Valid ((second_block, 30) ∷ []) [] first_block 24 (Run-Valid two_blocks)

abbrev contents : Memory
contents a = a % 256

address_of : Option (ℕ × Heap × Memory) → ℕ
address_of none = 0
address_of (some (x, h, m)) = x

-- The class of 32 bytes has no room for 100, so the block is moved into a slab of its own.
moved_test :
    address_of (krealloc every first_block 100 after_two contents) ≡ kernel_heap_base + 4096 + 128
unfolding address_of heap_of krealloc kmalloc class_from kmalloc_slab find_slab kmalloc_new
    alloc_virtual_pages uses_up reserve_pages take_range take_object new_slab slab_capacity
    objects_from grow_block moved_block kfree free_object
moved_test = refl
