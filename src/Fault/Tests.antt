-- ===== src/Fault/Tests.antt =====
-- A fault of a user program on the page below its stack, and a copy into its heap.
use nova_os.Base.{◌%◌, ◌≡◌, refl, inl, true, List, [], ◌∷◌, arith}
use nova_os.Pmm.{alloc_frame}
use nova_os.Pmm.Bits.{bitmap_set_bit, lowest_clear}
use nova_os.Vma.{Vma, vma_find}
use nova_os.Vma.Order.{Ordered}
use nova_os.Vmm.{vmm_map_page, get_or_alloc_table}
use nova_os.Vmm.Tests.{machine}
use nova_os.Fault.{
  Registers, Space, resumes, page_fault, grow_stack, map_frame, finish, copy_to_user,
}
use nova_os.Fault.Copy.{Transferred, copy_to_user-Transferred}

-- Bits: read, write, user, and that of a stack.
abbrev areas : List Vma
areas =
    record { start = 0x40_0000; end = 0x40_3000; flags = 11 }
    ∷ record { start = 0x7000_0000; end = 0x7000_2000; flags = 43 }
    ∷ []

areas-Ordered : Ordered 0 areas
areas-Ordered = ground arith

abbrev user_write : Registers
user_write = record { cs = 0x23; error_code = 6; rsp = 0x6fff_fff0 }

abbrev space : Space
space = record { areas = areas; mem = machine; bytes = λ a. 7 }

-- The stack grows by a page.
stack_grown : (page_fault 0x1000 0x6fff_fff8 user_write space).0 ≡ resumes
unfolding page_fault vma_find grow_stack map_frame finish alloc_frame lowest_clear vmm_map_page
    get_or_alloc_table bitmap_set_bit
stack_grown = refl

copy_to_user-Transferred_example :
    Transferred areas true 0x40_1000 0x40_1000 0x9000_0000 16
      (λ a. a % 256)
      (copy_to_user areas 0x40_1000 0x9000_0000 16 (λ a. a % 256))
copy_to_user-Transferred_example =
    copy_to_user-Transferred areas 0x40_1000 0x9000_0000 16 (λ a. a % 256) areas-Ordered
      (omega arith) (omega arith) (inl (omega arith))
