-- ===== src/Pmm/Runs.antt =====
-- `pmm_alloc_frames`: a run of free frames is found whenever there is one.
use nova_os.Base.{
  ℕ, zero, suc, ◌+◌, ◌≤◌, ◌<◌, ◌≡◌, refl, ◌⊎◌, inl, inr, true, false, none, some, arith, leb, ◌==◌,
  leb→le, Bool-cases, Option-cases, add64,
}
use nova_os.Pmm.{Pmm, find_run, set_frames, take_frames, alloc_frames}
use nova_os.Pmm.Bits.{Bitmap, bitmap_test_bit}
use nova_os.Pmm.Valid.{IsValid, Takes, Takes-IsValid, count-total, test-set_frames}
use nova_os.Pmm.Frame.{Got, frame-pos, alloc_frame_lem}

-- A frame in use among the `n` frames from `s` on.
abbrev pub Blocked : Bitmap → ℕ → ℕ → Type 0
Blocked m s n = (f : ℕ) × (s ≤ f) × (f < s + n) × (bitmap_test_bit m f ≡ true)

abbrev pub AllFree : Bitmap → ℕ → ℕ → Type 0
AllFree m s n = (f : ℕ) → s ≤ f → f < s + n → bitmap_test_bit m f ≡ false

AllFree-extend :
    (m : Bitmap) (start run i : ℕ)
    → start + run ≡ i
    → AllFree m start run
    → bitmap_test_bit m i ≡ false
    → AllFree m start (run + 1)
AllFree-extend m start run i h free clear f lo hi = ground (arith, free f)

module _ (m : Bitmap) (count : ℕ) where
  find_run-some :
      (n i run start s : ℕ)
      → find_run m count n i run start ≡ some s
      → start + run ≡ i
      → AllFree m start run
      → (s + count ≤ i + n) × AllFree m s count
  unfolding find_run
  find_run-some zero i run start s e h free = cc
  find_run-some (suc n) i run start s e h free = elim (Bool-cases (bitmap_test_bit m i)) [
    | inl busy ↦
        let r =
          find_run-some n (i + 1) 0 (i + 1) s (rw (busy, find_run) at e) (omega arith)
            (λ f lo hi. absurd (omega arith)) in
        (omega (arith, r.0), r.1)
    | inr clear ↦ elim (Bool-cases (run + 1 == count)) [
      | inl full ↦ (
        ground arith,
        λ f lo hi. AllFree-extend m start run i h free clear f (ground arith) (ground arith),
      )
      | inr short ↦
          let r =
            find_run-some n (i + 1) (run + 1) start s (rw (clear, short, find_run) at e)
              (omega arith) (AllFree-extend m start run i h free clear) in
          (omega (arith, r.0), r.1)
    ]
  ]

  find_run-none :
      (n i run start s : ℕ)
      → find_run m count n i run start ≡ none
      → start + run ≡ i
      → run < count
      → start ≤ s
      → s + count ≤ i + n
      → Blocked m s count
  unfolding find_run
  find_run-none zero i run start s e h short lo hi = absurd (omega arith)
  find_run-none (suc n) i run start s e h short lo hi = elim (Bool-cases (bitmap_test_bit m i)) [
    | inl busy ↦ elim (Bool-cases (leb s i)) [
      | inl here ↦ (i, leb→le s i here, omega arith, busy)
      | inr past ↦
          find_run-none n (i + 1) 0 (i + 1) s (rw (busy, find_run) at e) (omega arith) (omega arith)
            (ground arith) (omega arith)
    ]
    | inr clear ↦ elim (Bool-cases (run + 1 == count)) [
      | inl full ↦ ground arith
      | inr more ↦
          find_run-none n (i + 1) (run + 1) start s (rw (clear, more, find_run) at e) (omega arith)
            (ground arith) lo (omega arith)
    ]
  ]

module _ {p : Pmm} (v : IsValid p) where
  pub take_frames-Got :
      (s n : ℕ)
      → 0 < n
      → s + n ≤ p.total_frames
      → AllFree p.bitmap s n
      → Got n p (take_frames s n p)
  unfolding take_frames
  take_frames-Got s n pos inside free = record {
    frame = s;
    address = omega (arith, v.small);
    not_null = omega (arith, v.small, frame-pos v s (free s (omega arith) (omega arith)));
    takes = takes;
    valid = Takes-IsValid v takes v.last_in;
  }
    where
      takes :
          Takes s n p
            (record p { bitmap = set_frames n s p.bitmap; used_frames = add64 p.used_frames n })
      takes = record {
        inside = inside;
        were_free = free;
        bits = λ f. test-set_frames n s f p.bitmap;
        used_more = omega (arith, v.counted, count-total v, v.small);
        same_total = refl;
        same_words = refl;
      }

  alloc_frames-many :
      (n : ℕ)
      → 1 < n
      → Got n p (alloc_frames n p)
        ⊎ ((alloc_frames n p ≡ (0, p)) × ((s : ℕ) → s + n ≤ p.total_frames → Blocked p.bitmap s n))
  unfolding alloc_frames
  alloc_frames-many n h = elim (Option-cases (find_run p.bitmap n p.total_frames 0 0 0)) [
    | inl miss ↦
        rw (many, miss)
          (inr (
            refl,
            λ s q.
                find_run-none p.bitmap n p.total_frames 0 0 0 s miss (omega arith) (omega arith)
                  (omega arith) (omega arith),
          ))
    | inr (s, hit) ↦
        let (inside, free) =
          find_run-some p.bitmap n p.total_frames 0 0 0 s hit (omega arith)
            (λ f lo hi. absurd (omega arith)) in
        rw (many, hit) (inl (take_frames-Got s n (omega arith) (omega arith) free))
  ]
    where
      many : alloc_frames n p ≡ elim (find_run p.bitmap n p.total_frames 0 0 0) [
        | none ↦ (0, p)
        | some start ↦ take_frames start n p
      ]
      many = ground arith

  -- `pmm_alloc_frames` on every path.
  pub alloc_frames_lem :
      (n : ℕ)
      → 0 < n
      → Got n p (alloc_frames n p)
        ⊎ ((alloc_frames n p ≡ (0, p)) × ((s : ℕ) → s + n ≤ p.total_frames → Blocked p.bitmap s n))
  unfolding alloc_frames
  alloc_frames_lem zero pos = absurd (omega arith)
  alloc_frames_lem (suc zero) pos = elim (alloc_frame_lem v) [
    | inl got ↦ inl got
    | inr (e, full) ↦ inr (e, λ s h. (s, omega arith, omega arith, full s (omega arith)))
  ]
  alloc_frames_lem (suc (suc n)) pos = alloc_frames-many (suc (suc n)) (omega arith)
