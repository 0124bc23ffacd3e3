-- ===== src/Vmm/Tests.antt =====
-- Page tables on a machine of eight frames whose top table is frame 1, with huge pages in the kernel's half.
use nova_os.Base.{
  ℕ, zero, suc, ◌&&◌, ◌/◌, ◌%◌, ◌≡◌, refl, true, ◌||◌, arith, ltb, leb, ◌==◌, if◌then◌else◌,
}
use nova_os.Pmm.{alloc_frame}
use nova_os.Pmm.Bits.{Bitmap, count, bitmap_test_bit, bitmap_set_bit, lowest_clear}
use nova_os.Pmm.Valid.{IsValid}
use nova_os.Vmm.{Mem, vmm_map_page, vmm_virt_to_phys, get_or_alloc_table}
use nova_os.Vmm.Tree.{Levels, user_half, IsTree}
use nova_os.Vmm.Map.{Ends, vmm_map_page_lem}

abbrev pub bits : Bitmap
bits zero b = ltb b 3 || leb 8 b
bits (suc i) b = true

-- The kernel's half: entry 256 leads to the table at 0x2000, whose first entry maps a huge page.
abbrev kernel_entry : ℕ → ℕ → ℕ
kernel_entry t i =
    if (t == 0x1000) && (i == 256) then 0x2003 else if (t == 0x2000) && (i == 0) then 0x83 else 0

abbrev pub machine : Mem
machine = record {
  pmm = record {
    bitmap = bits;
    total_frames = 8;
    used_frames = 3;
    bitmap_words = 1;
    last_scanned_index = 0;
  };
  entry = λ t i. kernel_entry t i;
}

abbrev pub levels : Levels
levels t = if t == 0x1000 then 4 else 0

machine-IsValid : IsValid machine.pmm
unfolding count bitmap_test_bit
machine-IsValid = record {
  covers = omega arith;
  small = omega arith;
  tail_set = λ f lo hi.
      let word : f / 64 ≡ 0 = omega arith in
      let bit : f % 64 ≡ f = omega arith in rw (word, bit) (ground arith);
  zero_used = refl;
  counted = refl;
  last_in = omega arith;
}

pub machine-IsTree : IsTree user_half levels machine
unfolding bitmap_test_bit
machine-IsTree = record {
  pmm_valid = machine-IsValid;
  addresses = omega arith;
  down = λ t i l p q c h. ground (arith, c, h, p);
  table_used = λ t h. let top : t ≡ 0x1000 = ground arith in rw top (refl, omega arith, refl);
}

vmm_map_page_lem_example :
    Ends user_half levels machine 0x1000 0x40_2123 0x7_5abc
      (vmm_map_page 0x1000 0x40_2123 0x7_5abc 7 machine)
vmm_map_page_lem_example =
    vmm_map_page_lem user_half levels machine 0x1000 0x40_2123 0x7_5abc 7 machine-IsTree refl refl
      (omega arith) (omega arith)

mapped :
    vmm_virt_to_phys 0x1000 0x40_2123 (vmm_map_page 0x1000 0x40_2123 0x7_5abc 7 machine).1
    ≡ 0x7_5123
unfolding vmm_virt_to_phys vmm_map_page get_or_alloc_table alloc_frame lowest_clear bitmap_set_bit
mapped = refl
