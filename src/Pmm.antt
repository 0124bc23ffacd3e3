-- ===== src/Pmm.antt =====
-- The physical frame allocator, src/kernel/mem/pmm.c: its five static variables as a record, each
-- function as a function of the record that returns the new one beside its result. A pointer is
-- its number, and `NULL` is 0. `bitmap_words` words of the bitmap belong to the allocator.
pub mod Bits
pub mod Boot
pub mod Valid
pub mod Frame
pub mod Runs
pub mod Aligned
pub mod Release
pub mod Owners
mod Tests
use nova_os.Base.{
  ℕ, zero, suc, ◌+◌, ◌-◌, ◌*◌, ◌/◌, ◌%◌, ◌≡◌, Bool, true, false, Option, none, some, ltb, leb, ◌==◌,
  ◌||◌, not, if◌then◌else◌, add64, sub64, mul64, page_size, and_not, min,
}
use nova_os.Pmm.Bits.{Bitmap, bitmap_set_bit, bitmap_clear_bit, bitmap_test_bit, lowest_clear}

pub record Pmm : Type 0 where
  pub bitmap : Bitmap
  pub total_frames : ℕ
  pub used_frames : ℕ
  pub bitmap_words : ℕ
  pub last_scanned_index : ℕ

abbrev pub used : Pmm → ℕ → Bool
used p f = bitmap_test_bit p.bitmap f

-- `bitmap_set_bit(f); g_used_frames++;` under `if (!bitmap_test_bit(f))`
unfoldable pub mark : ℕ → Pmm → Pmm
mark f p =
    if used p f
    then p
    else record p { bitmap = bitmap_set_bit p.bitmap f; used_frames = add64 p.used_frames 1 }

-- `bitmap_clear_bit(f); g_used_frames--;` under `if (bitmap_test_bit(f))`
unfoldable pub unmark : ℕ → Pmm → Pmm
unmark f p =
    if used p f
    then record p { bitmap = bitmap_clear_bit p.bitmap f; used_frames = sub64 p.used_frames 1 }
    else p

-- The bit is clear, and the word is the one that the search found.
unfoldable pub take_frame : ℕ → ℕ → Pmm → ℕ × Pmm
take_frame i b p =
    let f = i * 64 + b in
    if leb p.total_frames f then (0, p) else (
      mul64 f page_size,
      record p {
        bitmap = bitmap_set_bit p.bitmap f;
        used_frames = add64 p.used_frames 1;
        last_scanned_index = i;
      },
    )

-- One of the two loops of `pmm_alloc_frame`: `n` words from word `i` on. `none`: it ran to its end.
unfoldable pub scan_words : ℕ → ℕ → Pmm → Option (ℕ × Pmm)
scan_words zero i p = none
scan_words (suc n) i p = elim (lowest_clear (p.bitmap i) 64 0) [
  | none ↦ scan_words n (i + 1) p
  | some b ↦ some (take_frame i b p)
]

unfoldable pub alloc_frame : Pmm → ℕ × Pmm
unfolding scan_words take_frame
alloc_frame p = elim (scan_words (p.bitmap_words - p.last_scanned_index) p.last_scanned_index p) [
  | some r ↦ r
  | none ↦ elim (scan_words p.last_scanned_index 0 p) [ some r ↦ r | none ↦ (0, p) ]
]

-- The search of `pmm_alloc_frames`, `n` frames from frame `i` on, with `contiguous_found` and
-- `start_frame`.
unfoldable pub find_run : Bitmap → ℕ → ℕ → ℕ → ℕ → ℕ → Option ℕ
find_run m count zero i run start = none
find_run m count (suc n) i run start =
    let skip = find_run m count n (i + 1) 0 (i + 1) in
    let more = find_run m count n (i + 1) (run + 1) start in
    if bitmap_test_bit m i then skip else if run + 1 == count then some start else more

-- `bitmap_set_bit` of the `n` frames from `f` on
unfoldable pub set_frames : ℕ → ℕ → Bitmap → Bitmap
set_frames zero f m = m
set_frames (suc n) f m = set_frames n (f + 1) (bitmap_set_bit m f)

unfoldable pub take_frames : ℕ → ℕ → Pmm → ℕ × Pmm
unfolding set_frames
take_frames start count p = (
  mul64 start page_size,
  record p { bitmap = set_frames count start p.bitmap; used_frames = add64 p.used_frames count },
)

unfoldable pub alloc_frames : ℕ → Pmm → ℕ × Pmm
unfolding alloc_frame find_run take_frames
alloc_frames count p =
    if count == 0
    then (0, p)
    else if count == 1
    then alloc_frame p
    else elim (find_run p.bitmap count p.total_frames 0 0 0) [
      | none ↦ (0, p)
      | some start ↦ take_frames start count p
    ]

-- `if (word_idx < g_last_scanned_index) g_last_scanned_index = word_idx;`
unfoldable pub lower_scan : ℕ → Pmm → Pmm
lower_scan w p = if ltb w p.last_scanned_index then record p { last_scanned_index = w } else p

unfoldable pub free_frame : ℕ → Pmm → Pmm
free_frame addr p =
    let f = addr / page_size in
    if (addr == 0) || not (addr % page_size == 0)
    then p
    else if leb p.total_frames f
    then p
    else if used p f
    then lower_scan (f / 64) (unmark f p)
    else p

-- `unmark` of the `n` frames from `f` on
unfoldable pub unmark_frames : ℕ → ℕ → Pmm → Pmm
unfolding unmark
unmark_frames zero f p = p
unmark_frames (suc n) f p = unmark_frames n (f + 1) (unmark f p)

unfoldable pub free_frames : ℕ → ℕ → Pmm → Pmm
unfolding unmark_frames lower_scan
free_frames addr count p =
    if (addr == 0) || not (addr % page_size == 0) || (count == 0)
    then p
    else let start = addr / page_size in
      let end = min (add64 start count) p.total_frames in
      lower_scan (start / 64) (unmark_frames (end - start) start p)

abbrev pub get_total_frames : Pmm → ℕ
get_total_frames p = p.total_frames

abbrev pub get_free_frames : Pmm → ℕ
get_free_frames p = sub64 p.total_frames p.used_frames

abbrev pub get_used_frames : Pmm → ℕ
get_used_frames p = p.used_frames

-- The first frame in use of the `n` frames from `f` on.
unfoldable pub first_used : Bitmap → ℕ → ℕ → Option ℕ
first_used m zero f = none
first_used m (suc n) f =
    let rest = first_used m n (f + 1) in if bitmap_test_bit m f then some f else rest

pub data Search : Type 0 where
  found : ℕ → Search
  not_found out_of_fuel : Search

abbrev pub aligned_start : ℕ → ℕ → ℕ
aligned_start start align = and_not (add64 start (align - 1)) (align - 1)

-- The loop of `pmm_alloc_aligned_frames`, on fuel.
unfoldable pub aligned_loop : ℕ → Pmm → ℕ → ℕ → ℕ → Search
unfolding first_used and_not
aligned_loop zero p count align start = out_of_fuel
aligned_loop (suc k) p count align start =
    let a = aligned_start start align in
    let body : Search = elim (first_used p.bitmap count a) [
      | some f ↦ aligned_loop k p count align (f + 1)
      | none ↦ found a
    ] in
    if leb (add64 start count) p.total_frames
    then (if ltb p.total_frames (add64 a count) then not_found else body)
    else not_found

-- `none`: the fuel, two rounds more than there are frames, ran out.
unfoldable pub alloc_aligned_frames : ℕ → ℕ → Pmm → Option (ℕ × Pmm)
unfolding alloc_frames aligned_loop take_frames
alloc_aligned_frames count align p =
    if count == 0
    then some (0, p)
    else if leb align 1
    then some (alloc_frames count p)
    else elim (aligned_loop (p.total_frames + 2) p count align 0) [
      | found a ↦ some (take_frames a count p)
      | not_found ↦ some (0, p)
      | out_of_fuel ↦ none
    ]
