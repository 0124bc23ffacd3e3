-- ===== src/Pmm/Boot.antt =====
-- `pmm_init` of src/kernel/mem/pmm.c, over the entries of the boot loader's memory map and the fields of
-- bootinfo.h that it reads.
pub mod Init
use nova_os.Base.{
  ℕ, zero, suc, ◌+◌, ◌-◌, ◌*◌, ◌/◌, ◌%◌, ◌^◌, ◌≤◌, ◌<◌, min, max, bit_and, ◌≡◌, refl, sym, ap, ◌∙◌,
  ◌≢◌, ◌↔◌, ◌⊎◌, inl, inr, Bool, true, false, not, ◌&&◌, ◌||◌, Option, none, some, List, [], ◌∷◌,
  ◌++◌, map, arith, ltb, leb, ◌==◌, if◌then◌else◌, ltb→lt, lt→ltb, leb→le, le→leb, ltb-false,
  leb-false, ==_iff, Bool-cases, Option-cases, length, get_elem?, set, replicate, length-append,
  length-replicate, length-set, get_elem?-set_self, get_elem?-set_ne, u64_mod, add64, sub64, mul64,
  page_size, and_not, page_down, page_up, bit_and_step, bit_and-le, bit_and-mask,
}
use nova_os.Pmm.{Pmm, used, mark, unmark}
use nova_os.Pmm.Bits.{Bitmap}

-- The values of EFI_MEMORY_TYPE that the kernel names, and the others.
pub data MemoryType : Type 0 where
  conventional boot_services_code boot_services_data loader_code loader_data : MemoryType
  acpi_reclaim acpi_nvs runtime_services_code runtime_services_data : MemoryType
  other_type : ℕ → MemoryType

-- The fields of an EFI_MEMORY_DESCRIPTOR that the kernel reads.
pub record MemoryDescriptor : Type 0 where
  pub kind : MemoryType
  pub physical_start : ℕ
  pub number_of_pages : ℕ

pub record BootRegion : Type 0 where
  pub phys_base : ℕ
  pub size : ℕ

-- `address` is that of the structure itself, and `font_header` is 0 where there is no font.
pub record BootInfo : Type 0 where
  pub address : ℕ
  pub map_address : ℕ
  pub map_size : ℕ
  pub descriptors : List MemoryDescriptor
  pub font_header : ℕ
  pub pml4 : ℕ
  pub kernel : BootRegion
  pub stack : BootRegion

abbrev pub hhdm_base : ℕ
hhdm_base = 0xffff_8000_0000_0000

unfoldable pub is_ram_type : MemoryType → Bool
is_ram_type (other_type t) = false
is_ram_type _ = true

abbrev pub is_conventional : MemoryType → Bool
is_conventional conventional = true
is_conventional _ = false

-- The end of the highest RAM entry.
unfoldable pub highest_phys : List MemoryDescriptor → ℕ → ℕ
highest_phys [] high = high
highest_phys (d ∷ ds) high =
    let end = add64 d.physical_start (mul64 d.number_of_pages page_size) in
    highest_phys ds (if is_ram_type d.kind && ltb high end then end else high)

-- Where the bitmap goes: the first usable entry that holds it, from `low` on. 0: there is none.
unfoldable pub place_bitmap : ℕ → ℕ → List MemoryDescriptor → ℕ
place_bitmap pages low [] = 0
place_bitmap pages low (d ∷ ds) =
    if is_conventional d.kind && leb pages d.number_of_pages && leb low d.physical_start
    then d.physical_start
    else place_bitmap pages low ds

-- A loop over the frames from `f` on, at most `n` of them, that ends at the last frame.
unfoldable pub each_frame : (ℕ → Pmm → Pmm) → ℕ → ℕ → Pmm → Pmm
each_frame act zero f p = p
each_frame act (suc n) f p =
    let rest = each_frame act n (f + 1) (act f p) in if ltb f p.total_frames then rest else p

unfoldable pub reserve_range : ℕ → ℕ → Pmm → Pmm
unfolding each_frame mark
reserve_range base size p =
    let start = base / page_size in
    let end = sub64 (add64 (add64 base size) page_size) 1 / page_size in
    each_frame mark (end - start) start p

-- The usable entries are freed.
unfoldable pub release_usable : List MemoryDescriptor → Pmm → Pmm
unfolding each_frame unmark
release_usable [] p = p
release_usable (d ∷ ds) p =
    let start = d.physical_start / page_size in
    let end = add64 start d.number_of_pages in
    release_usable ds
      (if is_conventional d.kind then each_frame unmark (end - start) start p else p)

-- `g_bitmap[i] = ~0ULL` for the words of the bitmap
abbrev pub filled : ℕ → Bitmap → Bitmap
filled words m i b = if ltb i words then true else m i b

abbrev pub bitmap_bytes : ℕ → ℕ
bitmap_bytes total = (total + 7) / 8

abbrev pub bitmap_pages : ℕ → ℕ
bitmap_pages total = (bitmap_bytes total + page_size - 1) / page_size

unfoldable pub bitmap_phys : ℕ → List MemoryDescriptor → ℕ
unfolding place_bitmap
bitmap_phys pages ds =
    let high = place_bitmap pages 0x100000 ds in if high == 0 then place_bitmap pages 0 ds else high

-- The ranges that are reserved after the release, in the order of the calls.
unfoldable pub reserved_ranges : BootInfo → ℕ → ℕ → List (ℕ × ℕ)
reserved_ranges b phys pages =
    (0, 0x100000)
    ∷ (phys, mul64 pages page_size)
    ∷ (b.kernel.phys_base, b.kernel.size)
    ∷ (b.stack.phys_base, b.stack.size)
    ∷ (sub64 b.address hhdm_base, page_size)
    ∷ (sub64 b.map_address hhdm_base, b.map_size)
    ∷ (sub64 b.pml4 hhdm_base, page_size)
    ∷ (if b.font_header == 0 then [] else (sub64 b.font_header hhdm_base, page_size * 4) ∷ [])

unfoldable pub reserve_all : List (ℕ × ℕ) → Pmm → Pmm
unfolding reserve_range
reserve_all [] p = p
reserve_all ((base, size) ∷ rs) p = reserve_all rs (reserve_range base size p)

-- `memory` is what the bitmap's memory holds before.
unfoldable pub init : BootInfo → Bitmap → Pmm
unfolding highest_phys bitmap_phys release_usable reserved_ranges reserve_all
init b memory =
    let total = highest_phys b.descriptors 0 / page_size in
    let words = (bitmap_bytes total + 7) / 8 in
    let full : Pmm = record {
      bitmap = filled words memory;
      total_frames = total;
      used_frames = total;
      bitmap_words = words;
      last_scanned_index = 0;
    } in
    reserve_all
      (reserved_ranges b (bitmap_phys (bitmap_pages total) b.descriptors) (bitmap_pages total))
      (release_usable b.descriptors full)
