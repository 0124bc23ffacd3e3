-- ===== src/Pmm/Valid.antt =====
-- The well-formedness of the allocator's state, and what taking and freeing frames do to it.
use nova_os.Base.{
  ℕ, zero, suc, ◌+◌, ◌*◌, ◌^◌, ◌≤◌, ◌<◌, ◌≡◌, ◌∙◌, ap, sym, Bool, true, false, ◌&&◌, arith, ltb,
  leb, if◌then◌else◌,
}
use nova_os.Pmm.{Pmm, used, set_frames}
use nova_os.Pmm.Bits.{
  Bitmap, bitmap_set_bit, bitmap_test_bit, count, test-set_bit, count-set_bit, count-ext, count-le,
}

-- `f` is one of the `n` frames from `start` on.
abbrev pub within : ℕ → ℕ → ℕ → Bool
within start n f = leb start f && ltb f (start + n)

pub record IsValid (p : Pmm) : Type 0 where
  -- every frame has a bit, and frame numbers times the page size are addresses
  pub covers : p.total_frames ≤ 64 * p.bitmap_words
  pub small : p.total_frames ≤ 2 ^ 52
  -- the bits of the last word past the last frame are set
  pub tail_set : (f : ℕ) → p.total_frames ≤ f → f < 64 * p.bitmap_words → used p f ≡ true
  -- frame 0, whose address is `NULL`, is never free
  pub zero_used : used p 0 ≡ true
  pub counted : p.used_frames ≡ count p.bitmap p.total_frames
  pub last_in : p.last_scanned_index ≤ p.bitmap_words

-- `q` is `p` with the `n` free frames from `start` on taken.
pub record Takes (start n : ℕ) (p q : Pmm) : Type 0 where
  pub inside : start + n ≤ p.total_frames
  pub were_free : (f : ℕ) → start ≤ f → f < start + n → used p f ≡ false
  pub bits : (f : ℕ) → used q f ≡ (if within start n f then true else used p f)
  pub used_more : q.used_frames ≡ p.used_frames + n
  pub same_total : q.total_frames ≡ p.total_frames
  pub same_words : q.bitmap_words ≡ p.bitmap_words

-- Setting the bits of a range sets those and no others.
pub test-set_frames :
    (n start f : ℕ) (m : Bitmap)
    → bitmap_test_bit (set_frames n start m) f
      ≡ (if within start n f then true else bitmap_test_bit m f)
unfolding set_frames
test-set_frames zero start f m = ground arith
test-set_frames (suc n) start f m =
    ground (arith, test-set_frames n (start + 1) f (bitmap_set_bit m start), test-set_bit m start f)

pub count-set_frames :
    (n start t : ℕ) (m : Bitmap)
    → start + n ≤ t
    → ((f : ℕ) → start ≤ f → f < start + n → bitmap_test_bit m f ≡ false)
    → count (set_frames n start m) t ≡ count m t + n
unfolding set_frames
count-set_frames zero start t m h free = omega arith
count-set_frames (suc n) start t m h free =
    count-set_frames n (start + 1) t (bitmap_set_bit m start) (omega arith)
      (λ f p q. ground (arith, test-set_bit m start f, free f))
    ∙ omega (arith, count-set_bit m start t (omega arith) (free start (omega arith) (omega arith)))

module _ {p : Pmm} (v : IsValid p) where
  pub count-total : count p.bitmap p.total_frames ≤ p.total_frames
  count-total = count-le p.bitmap p.total_frames

  -- No frame number at or past the end is free in a valid state.
  pub free-lt : (f : ℕ) → f < 64 * p.bitmap_words → used p f ≡ false → f < p.total_frames
  free-lt f h e = ground (arith, v.tail_set f)

-- Taking frames keeps a valid state valid.
pub Takes-IsValid :
    {start n : ℕ} {p q : Pmm}
    → IsValid p
    → Takes start n p q
    → q.last_scanned_index ≤ q.bitmap_words
    → IsValid q
Takes-IsValid {start} {n} {p} {q} v t last = record {
  covers = omega (arith, v.covers, t.same_total, t.same_words);
  small = omega (arith, v.small, t.same_total);
  tail_set = λ f h k. ground (arith, t.bits f, v.tail_set f, t.same_total, t.same_words);
  zero_used = ground (arith, t.bits 0, v.zero_used);
  counted = omega (arith, t.used_more, v.counted, total, same);
  last_in = last;
}
  where
    total : count (set_frames n start p.bitmap) p.total_frames ≡ count p.bitmap p.total_frames + n
    total = count-set_frames n start p.total_frames p.bitmap t.inside t.were_free

    same : count q.bitmap q.total_frames ≡ count (set_frames n start p.bitmap) p.total_frames
    same =
        ap (count q.bitmap) t.same_total
        ∙ count-ext (set_frames n start p.bitmap) q.bitmap p.total_frames
            (λ g r. t.bits g ∙ sym (test-set_frames n start g p.bitmap))
