-- ===== src/Pmm/Aligned.antt =====
-- `pmm_alloc_aligned_frames`: the loop ends, and an aligned run of free frames is found whenever
-- there is one.
use nova_os.Base.{
  ℕ, zero, suc, ◌+◌, ◌-◌, ◌*◌, ◌/◌, ◌%◌, ◌^◌, ◌≤◌, ◌<◌, bit_and, ◌≡◌, refl, ap, ◌∙◌, ◌⊎◌, inl, inr,
  true, false, none, some, arith, ltb, leb, ◌==◌, ltb→lt, leb→le, Bool-cases, Option-cases, add64,
  mul64, page_size, and_not, bit_and-mask,
}
use native.Mathlib.Nat.{div-add-mod, mod-lt, mul-mod_right, pow-le-pow_right}
use nova_os.Pmm.{
  Pmm, first_used, aligned_start, aligned_loop, Search, found, not_found, out_of_fuel, take_frames,
  alloc_aligned_frames,
}
use nova_os.Pmm.Bits.{Bitmap, bitmap_test_bit}
use nova_os.Pmm.Valid.{IsValid}
use nova_os.Pmm.Frame.{Got}
use nova_os.Pmm.Runs.{Blocked, AllFree, take_frames-Got}

first_used-some :
    (m : Bitmap) (n a f : ℕ)
    → first_used m n a ≡ some f
    → (a ≤ f) × (f < a + n) × (bitmap_test_bit m f ≡ true)
unfolding first_used
first_used-some m zero a f e = cc
first_used-some m (suc n) a f e = ground (arith, first_used-some m n (a + 1) f)

first_used-none : (m : Bitmap) (n a : ℕ) → first_used m n a ≡ none → AllFree m a n
unfolding first_used
first_used-none m zero a e f lo hi = absurd (omega arith)
first_used-none m (suc n) a e f lo hi = ground (
  arith,
  λ (q : first_used m n (a + 1) ≡ none) (r : a + 1 ≤ f).
      first_used-none m n (a + 1) q f r (omega arith),
)

multiple-le : (m q r : ℕ) {a s : ℕ} → a ≡ m * q → m * r ≡ s → a < s + m → a ≤ s
multiple-le m q r {a} {s} e f h = elim (Bool-cases (leb q r)) [
  | inl low ↦ let small : q ≤ r = leb→le q r low in grind arith
  | inr high ↦ let big : r + 1 ≤ q = ground arith in grind arith
]

scaled-multiple :
    (m a : ℕ) → a % m ≡ 0 → a * page_size < 2 ^ 64 → mul64 a page_size % (m * page_size) ≡ 0
scaled-multiple m a e h =
    ap (λ t. t % (m * page_size)) whole ∙ mul-mod_right (m * page_size) (a / m)
  where
    whole : mul64 a page_size ≡ m * page_size * (a / m)
    whole = omega (arith, div-add-mod a m)

-- The rounded start of a search at `start`, for an alignment of `2 ^ k` frames: it is a multiple of
-- the alignment, and the next one.
module _ (k start : ℕ) (fits : start + 2 ^ k ≤ 2 ^ 64) (pos : 1 ≤ 2 ^ k) where
  aligned_start-eq :
      aligned_start start (2 ^ k) ≡ start + (2 ^ k - 1) - (start + (2 ^ k - 1)) % 2 ^ k
  unfolding and_not
  aligned_start-eq =
      omega (arith, bit_and-mask k (start + (2 ^ k - 1)), ap (λ t. bit_and t (2 ^ k - 1)) sum)
    where
      sum : add64 start (2 ^ k - 1) ≡ start + (2 ^ k - 1)
      sum = omega arith

  aligned_start-bounds :
      (start ≤ aligned_start start (2 ^ k)) × (aligned_start start (2 ^ k) < start + 2 ^ k)
  aligned_start-bounds =
      omega (arith, aligned_start-eq, mod-lt (start + (2 ^ k - 1)) {m = 2 ^ k} pos)

  aligned_start-mul : aligned_start start (2 ^ k) ≡ 2 ^ k * ((start + (2 ^ k - 1)) / 2 ^ k)
  aligned_start-mul = omega (arith, aligned_start-eq, div-add-mod (start + (2 ^ k - 1)) (2 ^ k))

  aligned_start-multiple : aligned_start start (2 ^ k) % 2 ^ k ≡ 0
  aligned_start-multiple =
      ap (λ t. t % 2 ^ k) aligned_start-mul ∙ mul-mod_right (2 ^ k) ((start + (2 ^ k - 1)) / 2 ^ k)

  aligned_start-least : (s : ℕ) → s % 2 ^ k ≡ 0 → start ≤ s → aligned_start start (2 ^ k) ≤ s
  aligned_start-least s e h =
      multiple-le (2 ^ k) ((start + (2 ^ k - 1)) / 2 ^ k) (s / 2 ^ k) aligned_start-mul
        (omega (arith, div-add-mod s (2 ^ k), e)) (omega (arith, aligned_start-bounds))

module _ {p : Pmm} (v : IsValid p) (n k : ℕ) (pos : 0 < n) (some_fit : n ≤ p.total_frames)
    (small : 2 ^ k ≤ 2 ^ 63) (one : 1 ≤ 2 ^ k) where
  -- What a search from `start` on comes to.
  abbrev Outcome : ℕ → Search → Type 0
  Outcome start r =
      ((a : ℕ) × (r ≡ found a) × (a % 2 ^ k ≡ 0) × (a + n ≤ p.total_frames) × AllFree p.bitmap a n)
      ⊎ ((r ≡ not_found)
          × ((s : ℕ) → s % 2 ^ k ≡ 0 → start ≤ s → s + n ≤ p.total_frames → Blocked p.bitmap s n))

  aligned_loop_lem :
      (fuel start : ℕ)
      → start ≤ p.total_frames
      → p.total_frames + 1 < fuel + start
      → Outcome start (aligned_loop fuel p n (2 ^ k) start)
  unfolding aligned_loop
  aligned_loop_lem zero start h fuel = absurd (omega arith)
  aligned_loop_lem (suc fuel) start h enough =
      elim (Bool-cases (leb (add64 start n) p.total_frames)) [
        | inr past ↦ rw past (inr (refl, λ s m lo hi. absurd (ground arith)))
        | inl room ↦ rw room (elim (Bool-cases (ltb p.total_frames (add64 a n))) [
          | inl past ↦ rw past (inr (refl, λ s m lo hi. absurd (ground (arith, least s m lo))))
          | inr fits ↦ rw fits (elim (Option-cases (first_used p.bitmap n a)) [
            | inl free ↦ rw free (
                inl (
                  a,
                  refl,
                  aligned_start-multiple k start wide one,
                  ground arith,
                  first_used-none p.bitmap n a free,
                ))
            | inr (f, busy) ↦
                let (lo, hi, hit) = first_used-some p.bitmap n a f busy in
                let inside : a + n ≤ p.total_frames = ground arith in
                let next =
                  aligned_loop_lem fuel (f + 1) (omega (arith, inside)) (omega (arith, bounds)) in
                rw busy (elim next [
                  | inl r ↦ inl r
                  | inr (e, blocked) ↦ inr (
                    e,
                    λ s m low high. elim (Bool-cases (ltb f s)) [
                      | inl after ↦ blocked s m (omega (arith, ltb→lt f s after)) high
                      | inr before ↦
                          let le : s ≤ f = ground arith in
                          (f, le, omega (arith, least s m low), hit)
                    ],
                  )
                ])
          ])
        ])
      ]
    where
      a : ℕ
      a = aligned_start start (2 ^ k)

      wide : start + 2 ^ k ≤ 2 ^ 64
      wide = omega (arith, v.small)

      bounds : (start ≤ a) × (a < start + 2 ^ k)
      bounds = aligned_start-bounds k start wide one

      least : (s : ℕ) → s % 2 ^ k ≡ 0 → start ≤ s → a ≤ s
      least = aligned_start-least k start wide one

      no_wrap : (add64 start n ≡ start + n) × (add64 a n ≡ a + n)
      no_wrap = omega (arith, v.small, bounds.1)

  alloc_aligned_frames-fit :
      1 < 2 ^ k
      → ((r : ℕ × Pmm) × (alloc_aligned_frames n (2 ^ k) p ≡ some r)
          × Got n p r
          × (r.0 % (2 ^ k * page_size) ≡ 0))
        ⊎ ((alloc_aligned_frames n (2 ^ k) p ≡ some (0, p))
            × ((s : ℕ) → s % 2 ^ k ≡ 0 → s + n ≤ p.total_frames → Blocked p.bitmap s n))
  unfolding alloc_aligned_frames
  alloc_aligned_frames-fit big =
      elim (aligned_loop_lem (p.total_frames + 2) 0 (omega arith) (omega arith)) [
        | inl (a, e, m, inside, free) ↦
            let got = take_frames-Got v a n pos inside free in
            inl (
              take_frames a n p,
              rw (go, e),
              got,
              scaled-multiple (2 ^ k) a m (omega (arith, v.small)),
            )
        | inr (e, blocked) ↦ inr (rw (go, e), λ s m h. blocked s m (omega arith) h)
      ]
    where
      go :
          alloc_aligned_frames n (2 ^ k) p
          ≡ elim (aligned_loop (p.total_frames + 2) p n (2 ^ k) 0) [
            | found a ↦ some (take_frames a n p)
            | not_found ↦ some (0, p)
            | out_of_fuel ↦ none
          ]
      go = ground arith

aligned_loop-none :
    (fuel n align : ℕ) (p : Pmm)
    → 0 < fuel
    → n < 2 ^ 64
    → leb n p.total_frames ≡ false
    → aligned_loop fuel p n align 0 ≡ not_found
unfolding aligned_loop
aligned_loop-none zero n align p h word q = absurd (omega arith)
aligned_loop-none (suc fuel) n align p h word q = rw (sum, q)
  where
    sum : add64 0 n ≡ n
    sum = omega arith

alloc_aligned_frames-none :
    {p : Pmm} (n k : ℕ)
    → 0 < n
    → n < 2 ^ 64
    → 2 ≤ 2 ^ k
    → leb n p.total_frames ≡ false
    → alloc_aligned_frames n (2 ^ k) p ≡ some (0, p)
unfolding alloc_aligned_frames
alloc_aligned_frames-none {p} n k pos word low q =
    rw (count, more, aligned_loop-none (p.total_frames + 2) n (2 ^ k) p (omega arith) word q)
  where
    count : (n == 0) ≡ false
    count = ground arith

    more : leb (2 ^ k) 1 ≡ false
    more = ground arith

-- In a valid state `pmm_alloc_aligned_frames`, for a positive 64-bit count and an alignment of a
-- power of two of at least two frames, ends within its fuel. Either it takes exactly that many
-- adjacent free frames at an aligned address and returns it; or it returns `NULL`, changes nothing,
-- and every aligned run of that many frames has a used one.
pub alloc_aligned_frames_lem :
    {p : Pmm}
    → IsValid p
    → (n k : ℕ) → 0 < n
    → n < 2 ^ 64
    → 1 ≤ k
    → k ≤ 63
    → ((r : ℕ × Pmm) × (alloc_aligned_frames n (2 ^ k) p ≡ some r)
        × Got n p r
        × (r.0 % (2 ^ k * page_size) ≡ 0))
      ⊎ ((alloc_aligned_frames n (2 ^ k) p ≡ some (0, p))
          × ((s : ℕ) → s % 2 ^ k ≡ 0 → s + n ≤ p.total_frames → Blocked p.bitmap s n))
alloc_aligned_frames_lem {p} v n k pos word lo hi = elim (Bool-cases (leb n p.total_frames)) [
  | inl fits ↦ alloc_aligned_frames-fit v n k pos (leb→le n p.total_frames fits) high low' low
  | inr over ↦ inr (too_many over, λ s m h. absurd (ground arith))
]
  where
    low : 2 ^ 1 ≤ 2 ^ k
    low = pow-le-pow_right (omega arith) lo

    low' : 1 ≤ 2 ^ k
    low' = omega (arith, low)

    high : 2 ^ k ≤ 2 ^ 63
    high = pow-le-pow_right (omega arith) hi

    too_many : leb n p.total_frames ≡ false → alloc_aligned_frames n (2 ^ k) p ≡ some (0, p)
    too_many q = alloc_aligned_frames-none n k pos word low q
