-- ===== src/Pmm/Boot/Init.antt =====
-- `pmm_init` builds a valid state, and which frames are free in it.
use nova_os.Base.{
  ℕ, zero, suc, ◌+◌, ◌-◌, ◌*◌, ◌/◌, ◌^◌, ◌≤◌, ◌<◌, ◌≡◌, refl, sym, ◌∙◌, inl, inr, Bool, true, false,
  not, ◌&&◌, ◌||◌, List, [], ◌∷◌, arith, ltb, ◌==◌, if◌then◌else◌, ltb→lt, Bool-cases, add64, sub64,
  page_size,
}
use nova_os.Pmm.{Pmm, used, mark, unmark}
use nova_os.Pmm.Bits.{
  Bitmap, bitmap_test_bit, count, test-set_bit, test-clear_bit, count-set_bit, count-clear_bit,
  count-le,
}
use nova_os.Pmm.Valid.{within, IsValid}
use nova_os.Pmm.Boot.{
  MemoryDescriptor, BootInfo, is_conventional, each_frame, highest_phys, reserve_range,
  release_usable, reserve_all, reserved_ranges, filled, init, bitmap_bytes, bitmap_pages,
  bitmap_phys,
}

-- `IsValid` without the reservation of frame 0, which `pmm_init` makes last.
record IsSound (p : Pmm) : Type 0 where
  covers : p.total_frames ≤ 64 * p.bitmap_words
  small : p.total_frames ≤ 2 ^ 52
  tail_set : (f : ℕ) → p.total_frames ≤ f → f < 64 * p.bitmap_words → used p f ≡ true
  counted : p.used_frames ≡ count p.bitmap p.total_frames
  last_in : p.last_scanned_index ≤ p.bitmap_words

-- `q` is `p` with the bits of a set of frames at `value`.
record Sets (value : Bool) (chosen : ℕ → Bool) (p q : Pmm) : Type 0 where
  bits : (g : ℕ) → g < p.total_frames → used q g ≡ (if chosen g then value else used p g)
  same_total : q.total_frames ≡ p.total_frames
  sound : IsSound q

module _ {p : Pmm} (s : IsSound p) (f : ℕ) (h : f < p.total_frames) where
  mark-Sets : Sets true (λ g. g == f) p (mark f p)
  unfolding mark
  mark-Sets = elim (Bool-cases (used p f)) [
    | inl busy ↦ rw busy (record { bits = λ g q. ground arith; same_total = refl; sound = s })
    | inr clear ↦ rw clear (record {
      bits = λ g q. test-set_bit p.bitmap f g;
      same_total = refl;
      sound = record {
        covers = s.covers;
        small = s.small;
        tail_set = λ g lo hi. ground (arith, s.tail_set g, test-set_bit p.bitmap f g);
        counted = omega (
          arith,
          count-set_bit p.bitmap f p.total_frames h clear,
          s.counted,
          count-le p.bitmap p.total_frames,
          s.small,
        );
        last_in = s.last_in;
      };
    })
  ]

  unmark-Sets : Sets false (λ g. g == f) p (unmark f p)
  unfolding unmark
  unmark-Sets = elim (Bool-cases (used p f)) [
    | inr clear ↦ rw clear (record { bits = λ g q. ground arith; same_total = refl; sound = s })
    | inl busy ↦ rw busy (record {
      bits = λ g q. test-clear_bit p.bitmap f g;
      same_total = refl;
      sound = record {
        covers = s.covers;
        small = s.small;
        tail_set = λ g lo hi. ground (arith, s.tail_set g, test-clear_bit p.bitmap f g);
        counted = omega (
          arith,
          count-clear_bit p.bitmap f p.total_frames h busy,
          s.counted,
          count-le p.bitmap p.total_frames,
          s.small,
        );
        last_in = s.last_in;
      };
    })
  ]

module _ (value : Bool) (act : ℕ → Pmm → Pmm)
    (step : (f : ℕ) (p : Pmm)
      → IsSound p
      → f < p.total_frames
      → Sets value (λ g. g == f) p (act f p)) where
  each_frame-Sets :
      (n f : ℕ) {p : Pmm} → IsSound p → Sets value (within f n) p (each_frame act n f p)
  unfolding each_frame
  each_frame-Sets zero f s = record { bits = λ g q. ground arith; same_total = refl; sound = s }
  each_frame-Sets (suc n) f {p} s = elim (Bool-cases (ltb f p.total_frames)) [
    | inr past ↦ rw past (record { bits = λ g q. ground arith; same_total = refl; sound = s })
    | inl below ↦
        let one = step f p s (ltb→lt f p.total_frames below) in
        let rest = each_frame-Sets n (f + 1) one.sound in
        rw below (record {
          bits = λ g q. ground (arith, one.bits g, rest.bits g, one.same_total);
          same_total = rest.same_total ∙ one.same_total;
          sound = rest.sound;
        })
  ]

Sets-Sets :
    {v : Bool} {a b : ℕ → Bool} {p q r : Pmm}
    → Sets v a p q
    → Sets v b q r
    → Sets v (λ g. a g || b g) p r
Sets-Sets {a} {b} s t = record {
  bits = λ g h. ground (arith, s.bits g, t.bits g, s.same_total);
  same_total = t.same_total ∙ s.same_total;
  sound = t.sound;
}

Sets-ext :
    {v : Bool} {a b : ℕ → Bool} {p q : Pmm} → Sets v a p q → ((g : ℕ) → b g ≡ a g) → Sets v b p q
Sets-ext s same = record {
  bits = λ g h. ground (arith, s.bits g, same g);
  same_total = s.same_total;
  sound = s.sound;
}

-- The frames of the usable entries of the memory map.
unfoldable pub usable : List MemoryDescriptor → ℕ → Bool
usable [] g = false
usable (d ∷ ds) g =
    is_conventional d.kind
      && within (d.physical_start / page_size)
          (add64 (d.physical_start / page_size) d.number_of_pages - d.physical_start / page_size) g
    || usable ds g

-- The frames that a list of byte ranges touches.
unfoldable pub touched : List (ℕ × ℕ) → ℕ → Bool
touched [] g = false
touched ((base, size) ∷ rs) g =
    within (base / page_size)
      (sub64 (add64 (add64 base size) page_size) 1 / page_size - base / page_size) g
    || touched rs g

release_usable-Sets :
    (ds : List MemoryDescriptor) {p : Pmm}
    → IsSound p
    → Sets false (usable ds) p (release_usable ds p)
unfolding release_usable usable
release_usable-Sets [] s = record { bits = λ g q. refl; same_total = refl; sound = s }
release_usable-Sets (d ∷ ds) {p} s = elim (Bool-cases (is_conventional d.kind)) [
  | inl is ↦
      let one =
        each_frame-Sets false unmark (λ f q s h. unmark-Sets s f h)
          (add64 (d.physical_start / page_size) d.number_of_pages - d.physical_start / page_size)
          (d.physical_start / page_size) s in
      rw is (Sets-ext (Sets-Sets one (release_usable-Sets ds one.sound)) (λ g. rw is))
  | inr other ↦ rw other (Sets-ext (release_usable-Sets ds s) (λ g. rw other))
]

reserve_all-Sets :
    (rs : List (ℕ × ℕ)) {p : Pmm} → IsSound p → Sets true (touched rs) p (reserve_all rs p)
unfolding reserve_all reserve_range touched
reserve_all-Sets [] s = record { bits = λ g q. refl; same_total = refl; sound = s }
reserve_all-Sets ((base, size) ∷ rs) {p} s =
    let one = each_frame-Sets true mark (λ f q s h. mark-Sets s f h) _ (base / page_size) s in
    Sets-Sets one (reserve_all-Sets rs one.sound)

-- The state before the release: every bit of the bitmap's words is set.
count-all : (m : Bitmap) (n : ℕ) → ((f : ℕ) → f < n → bitmap_test_bit m f ≡ true) → count m n ≡ n
unfolding count
count-all m zero h = refl
count-all m (suc n) h = ground (arith, count-all m n (λ f q. h f (omega arith)), h n (omega arith))

filled-used :
    (words f : ℕ) (m : Bitmap) → f < 64 * words → bitmap_test_bit (filled words m) f ≡ true
unfolding bitmap_test_bit
filled-used words f m h = ground arith

highest_phys-lt :
    (ds : List MemoryDescriptor) (high : ℕ) → high < 2 ^ 64 → highest_phys ds high < 2 ^ 64
unfolding highest_phys
highest_phys-lt [] high h = h
highest_phys-lt (d ∷ ds) high h = highest_phys-lt ds _ (ground arith)

module _ (total : ℕ) (small : total ≤ 2 ^ 52) (memory : Bitmap) where
  full : Pmm
  full = record {
    bitmap = filled ((bitmap_bytes total + 7) / 8) memory;
    total_frames = total;
    used_frames = total;
    bitmap_words = (bitmap_bytes total + 7) / 8;
    last_scanned_index = 0;
  }

  full-used : (f : ℕ) → f < 64 * ((bitmap_bytes total + 7) / 8) → used full f ≡ true
  unfolding full
  full-used f h = filled-used ((bitmap_bytes total + 7) / 8) f memory h

  full-IsSound : IsSound full
  unfolding full
  full-IsSound = record {
    covers = omega arith;
    small = small;
    tail_set = λ f lo hi. full-used f hi;
    counted = sym (count-all _ total (λ f h. full-used f (omega arith)));
    last_in = omega arith;
  }

abbrev total_of : BootInfo → ℕ
total_of b = highest_phys b.descriptors 0 / page_size

-- The byte ranges that `pmm_init` keeps from the allocator.
abbrev pub kept : BootInfo → List (ℕ × ℕ)
kept b =
    reserved_ranges b (bitmap_phys (bitmap_pages (total_of b)) b.descriptors)
      (bitmap_pages (total_of b))

module _ (b : BootInfo) (memory : Bitmap) where
  total-small : total_of b ≤ 2 ^ 52
  total-small = omega (arith, highest_phys-lt b.descriptors 0 (omega arith))

  init-Sets :
      Sets true
        (touched (kept b))
        (release_usable b.descriptors (full (total_of b) total-small memory))
        (init b memory)
  unfolding init full
  init-Sets =
      reserve_all-Sets (kept b)
        (release_usable-Sets b.descriptors (full-IsSound (total_of b) total-small memory)).sound

  released :
      Sets false
        (usable b.descriptors)
        (full (total_of b) total-small memory)
        (release_usable b.descriptors (full (total_of b) total-small memory))
  released = release_usable-Sets b.descriptors (full-IsSound (total_of b) total-small memory)

  full-fields :
      ((full (total_of b) total-small memory).total_frames ≡ total_of b)
      × ((full (total_of b) total-small memory).bitmap_words ≡ (bitmap_bytes (total_of b) + 7) / 8)
  unfolding full
  full-fields = (refl, refl)

  totals :
      ((init b memory).total_frames
        ≡ (release_usable b.descriptors (full (total_of b) total-small memory)).total_frames)
      × ((release_usable b.descriptors (full (total_of b) total-small memory)).total_frames
          ≡ (full (total_of b) total-small memory).total_frames)
  totals = (init-Sets.same_total, released.same_total)

  pub total-init : (init b memory).total_frames ≡ highest_phys b.descriptors 0 / page_size
  total-init = totals.0 ∙ totals.1 ∙ full-fields.0

  zero-touched : touched (kept b) 0 ≡ true
  unfolding touched reserved_ranges
  zero-touched = refl

  -- A frame is free after `pmm_init` exactly when a usable entry of the memory map has it and no
  -- reserved range touches it.
  pub init-used :
      (f : ℕ)
      → f < (init b memory).total_frames
      → used (init b memory) f ≡ (touched (kept b) f || not (usable b.descriptors f))
  init-used f h = ground (
    arith,
    init-Sets.bits f,
    released.bits f,
    totals,
    full-used (total_of b) total-small memory f,
    (full-IsSound (total_of b) total-small memory).covers,
    full-fields,
  )

  -- The state that `pmm_init` builds is valid, when the memory map has at least one frame of RAM.
  pub init-IsValid : 0 < (init b memory).total_frames → IsValid (init b memory)
  init-IsValid pos = record {
    covers = init-Sets.sound.covers;
    small = init-Sets.sound.small;
    tail_set = init-Sets.sound.tail_set;
    zero_used = ground (arith, init-used 0, zero-touched);
    counted = init-Sets.sound.counted;
    last_in = init-Sets.sound.last_in;
  }
