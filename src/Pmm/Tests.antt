-- ===== src/Pmm/Tests.antt =====
-- The allocator on a machine of 70 frames, and its theorems at that machine's states.
use nova_os.Base.{
  ℕ, zero, suc, ◌+◌, ◌*◌, ◌/◌, ◌%◌, ◌^◌, ◌≤◌, ◌<◌, ◌≡◌, refl, sym, ap, ◌⊎◌, true, false, not, ◌||◌,
  Option, none, some, [], ◌∷◌, arith, ◌==◌, page_size,
}
use nova_os.Pmm.{Pmm, used, alloc_frame, alloc_frames, free_frames, alloc_aligned_frames}
use nova_os.Pmm.Bits.{Bitmap, bitmap_set_bit, bitmap_test_bit, lowest_clear, count}
use nova_os.Pmm.Boot.{
  conventional, BootInfo, init, reserved_ranges, bitmap_phys, highest_phys, place_bitmap,
  is_ram_type,
}
use nova_os.Pmm.Boot.Init.{total-init, init-used, kept, usable, touched}
use nova_os.Pmm.Valid.{IsValid}
use nova_os.Pmm.Frame.{Got, alloc_frame_lem}
use nova_os.Pmm.Runs.{Blocked, alloc_frames_lem}
use nova_os.Pmm.Aligned.{alloc_aligned_frames_lem}
use nova_os.Pmm.Owners.{Run, here, next, alloc, free, Owned, Run-Owned}

-- Two pages of usable memory at 1 MiB; the bitmap takes the first.
abbrev boot : BootInfo
boot = record {
  address = 0xffff_8000_0000_1000;
  map_address = 0xffff_8000_0000_2000;
  map_size = 48;
  descriptors = record { kind = conventional; physical_start = 0x100000; number_of_pages = 2 } ∷ [];
  font_header = 0;
  pml4 = 0xffff_8000_0000_3000;
  kernel = record { phys_base = 0x4000; size = 0x2000 };
  stack = record { phys_base = 0x6000; size = 0x1000 };
}

abbrev memory : Bitmap
memory i b = false

boot_total : (init boot memory).total_frames ≡ 258
unfolding highest_phys is_ram_type
boot_total = total-init boot memory

init-used_example :
    used (init boot memory) 257 ≡ (touched (kept boot) 257 || not (usable boot.descriptors 257))
init-used_example = init-used boot memory 257 (omega (arith, boot_total))

frame_257_free : (touched (kept boot) 257 || not (usable boot.descriptors 257)) ≡ false
unfolding touched usable reserved_ranges bitmap_phys highest_phys place_bitmap is_ram_type
frame_257_free = refl

-- Five frames, of which 1, 2 and 4 are free.
abbrev bits : Bitmap
bits zero b = not ((b == 1) || (b == 2) || (b == 4))
bits (suc i) b = true

abbrev Option-first : Option (ℕ × Pmm) → ℕ
Option-first none = 1
Option-first (some r) = r.0

abbrev five : Pmm
five = record {
  bitmap = bits;
  total_frames = 5;
  used_frames = 2;
  bitmap_words = 1;
  last_scanned_index = 0;
}

five-IsValid : IsValid five
unfolding count bitmap_test_bit
five-IsValid = record {
  covers = omega arith;
  small = omega arith;
  tail_set = λ f lo hi.
      let word : f / 64 ≡ 0 = omega arith in
      let bit : f % 64 ≡ f = omega arith in rw (word, bit) (ground arith);
  zero_used = refl;
  counted = refl;
  last_in = omega arith;
}

alloc_frame_lem_example :
    Got 1 five (alloc_frame five)
    ⊎ ((alloc_frame five ≡ (0, five)) × ((f : ℕ) → f < 5 → used five f ≡ true))
alloc_frame_lem_example = alloc_frame_lem five-IsValid

alloc_frame-five : (alloc_frame five).0 ≡ 0x1000
unfolding alloc_frame lowest_clear
alloc_frame-five = refl

alloc_frames_lem_example :
    Got 2 five (alloc_frames 2 five)
    ⊎ ((alloc_frames 2 five ≡ (0, five)) × ((s : ℕ) → s + 2 ≤ 5 → Blocked bits s 2))
alloc_frames_lem_example = alloc_frames_lem five-IsValid 2 (omega arith)

alloc_frames-five : ((alloc_frames 2 five).0 ≡ 0x1000) × ((alloc_frames 3 five).0 ≡ 0)
unfolding alloc_frames bitmap_test_bit
alloc_frames-five = (refl, refl)

alloc_aligned_frames_lem_example :
    ((r : ℕ × Pmm) × (alloc_aligned_frames 1 (2 ^ 2) five ≡ some r)
      × Got 1 five r
      × (r.0 % (2 ^ 2 * 4096) ≡ 0))
    ⊎ ((alloc_aligned_frames 1 (2 ^ 2) five ≡ some (0, five))
        × ((s : ℕ) → s % 2 ^ 2 ≡ 0 → s + 1 ≤ 5 → Blocked bits s 1))
alloc_aligned_frames_lem_example =
    alloc_aligned_frames_lem five-IsValid 1 2 (omega arith) (omega arith) (omega arith)
      (omega arith)

alloc_aligned_five : Option-first (alloc_aligned_frames 1 4 five) ≡ 0x4000
unfolding alloc_aligned_frames bitmap_test_bit
alloc_aligned_five = refl

-- One client takes two frames, another takes one, and the first gives its two back.
abbrev taken : Pmm
taken = (alloc_frames 2 five).1

abbrev both : Pmm
both = (alloc_frames 1 taken).1

alloc_frames-taken : (alloc_frames 1 taken).0 ≡ 0x4000
unfolding alloc_frames bitmap_test_bit lowest_clear bitmap_set_bit
alloc_frames-taken = refl

three_calls : Run five [] (free_frames 0x1000 2 both) ((4, 1) ∷ [])
three_calls =
    next
      (next
        (next here (
          alloc 2 (omega arith) (omega (arith, alloc_frames-five.0)) refl
            (ap (λ a. (a / page_size, 2) ∷ []) (sym alloc_frames-five.0))))
        (alloc 1 (omega arith) (omega (arith, alloc_frames-taken)) refl
          (ap (λ a. (a / page_size, 1) ∷ (1, 2) ∷ []) (sym alloc_frames-taken))))
      (free ((4, 1) ∷ []) [] 1 2 refl refl refl)

Run-Owned_example : Owned (free_frames 0x1000 2 both) ((4, 1) ∷ [])
Run-Owned_example = Run-Owned five-IsValid three_calls
