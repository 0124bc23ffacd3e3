-- ===== src/Pmm/Frame.antt =====
-- `pmm_alloc_frame`: what it returns, and that it fails only when no frame is free.
use nova_os.Base.{
  ℕ, zero, suc, ◌+◌, ◌-◌, ◌*◌, ◌/◌, ◌%◌, ◌≤◌, ◌<◌, ◌≡◌, refl, ap, ◌∙◌, ◌≢◌, ◌⊎◌, inl, inr, true,
  false, Option, none, some, arith, leb, leb-false, Option-cases, add64, page_size,
}
use mathlib.Core.Path.{subst}
use nova_os.Pmm.{Pmm, used, take_frame, scan_words, alloc_frame}
use nova_os.Pmm.Bits.{
  bitmap_test_bit, bitmap_set_bit, lowest_clear, lowest_clear_lem, lowest_clear-none, test-set_bit,
}
use nova_os.Pmm.Valid.{IsValid, Takes, Takes-IsValid, free-lt, count-total}

-- A call returned `n` frames: their address is not `NULL`, and the state is valid with them taken.
pub record Got (n : ℕ) (p : Pmm) (r : ℕ × Pmm) : Type 0 where
  pub frame : ℕ
  pub address : r.0 ≡ frame * page_size
  pub not_null : r.0 ≢ 0
  pub takes : Takes frame n p r.1
  pub valid : IsValid r.1

module _ {p : Pmm} (v : IsValid p) where
  pub frame-pos : (f : ℕ) → used p f ≡ false → 0 < f
  frame-pos zero e = ground (arith, v.zero_used)
  frame-pos (suc f) e = omega arith

  take_frame-Got :
      (i b : ℕ) → b < 64 → i < p.bitmap_words → p.bitmap i b ≡ false → Got 1 p (take_frame i b p)
  unfolding take_frame bitmap_test_bit
  take_frame-Got i b hb hi e = rw big (record {
    frame = i * 64 + b;
    address = omega (arith, below, v.small);
    not_null = omega (arith, below, v.small, frame-pos (i * 64 + b) free);
    takes = takes;
    valid = Takes-IsValid v takes (omega arith);
  })
    where
      word : (i * 64 + b) / 64 ≡ i
      word = omega arith

      bit : (i * 64 + b) % 64 ≡ b
      bit = omega arith

      free : used p (i * 64 + b) ≡ false
      free = ap (λ k. p.bitmap k ((i * 64 + b) % 64)) word ∙ ap (p.bitmap i) bit ∙ e

      below : i * 64 + b < p.total_frames
      below = free-lt v (i * 64 + b) (omega arith) free

      big : leb p.total_frames (i * 64 + b) ≡ false
      big = leb-false _ _ below

      only : (f : ℕ) → i * 64 + b ≤ f → f < i * 64 + b + 1 → f ≡ i * 64 + b
      only f lo hi = omega arith

      takes : Takes (i * 64 + b) 1 p (record p {
        bitmap = bitmap_set_bit p.bitmap (i * 64 + b);
        used_frames = add64 p.used_frames 1;
        last_scanned_index = i;
      })
      takes = record {
        inside = omega (arith, below);
        were_free = λ f lo hi. ap (used p) (only f lo hi) ∙ free;
        bits = λ f. ground (arith, test-set_bit p.bitmap (i * 64 + b) f);
        used_more = omega (arith, v.counted, count-total v, v.small);
        same_total = refl;
        same_words = refl;
      }

  scan_words-Got :
      (n i : ℕ) {r : ℕ × Pmm} → scan_words n i p ≡ some r → i + n ≤ p.bitmap_words → Got 1 p r
  unfolding scan_words
  scan_words-Got zero i e h = cc
  scan_words-Got (suc n) i {r} e h =
      step (λ e'. scan_words-Got n (i + 1) e' (omega arith)) (lowest_clear (p.bitmap i) 64 0) refl
    where
      step :
          (scan_words n (i + 1) p ≡ some r → Got 1 p r)
          → (o : Option ℕ) → lowest_clear (p.bitmap i) 64 0 ≡ o
          → Got 1 p r
      step rest none full = rest (rw (full, scan_words) at e)
      step rest (some b) hit =
          let (_, small, free) = lowest_clear_lem (p.bitmap i) 64 0 b hit in
          let e' : some (take_frame i b p) ≡ some r = rw (hit, scan_words) at e in
          let e2 : take_frame i b p ≡ r = cc in
          subst (Got 1 p) e2 (take_frame-Got i b small (omega arith) free)

  scan_words-none :
      (n i w b : ℕ) → scan_words n i p ≡ none → i ≤ w → w < i + n → b < 64 → p.bitmap w b ≡ true
  unfolding scan_words
  scan_words-none zero i w b e lo hi hb = absurd (omega arith)
  scan_words-none (suc n) i w b e lo hi hb =
      ground (arith, scan_words-none n (i + 1) w b, lowest_clear-none (p.bitmap i) 64 0 b, same)
    where
      same : w ≡ i → p.bitmap w b ≡ p.bitmap i b
      same q = ap (λ k. p.bitmap k b) q

  -- `pmm_alloc_frame` on every path.
  pub alloc_frame_lem :
      Got 1 p (alloc_frame p)
      ⊎ ((alloc_frame p ≡ (0, p)) × ((f : ℕ) → f < p.total_frames → used p f ≡ true))
  unfolding alloc_frame bitmap_test_bit
  alloc_frame_lem =
      elim (Option-cases
        (scan_words (p.bitmap_words - p.last_scanned_index) p.last_scanned_index p)) [
          | inr (r, hit) ↦
              rw (hit, alloc_frame) (inl (scan_words-Got _ _ hit (omega (arith, v.last_in))))
          | inl miss ↦
              rw (miss, alloc_frame)
                (elim (Option-cases (scan_words p.last_scanned_index 0 p)) [
                  | inr (r, hit) ↦
                      rw (hit, alloc_frame)
                        (inl (scan_words-Got _ _ hit (omega (arith, v.last_in))))
                  | inl miss' ↦ rw miss' (
                      inr (
                        refl,
                        λ f h. ground (
                          arith,
                          v.covers,
                          v.last_in,
                          scan_words-none (p.bitmap_words - p.last_scanned_index)
                              p.last_scanned_index (f / 64) (f % 64),
                          scan_words-none p.last_scanned_index 0 (f / 64) (f % 64),
                        ),
                      ))
                ])
        ]
