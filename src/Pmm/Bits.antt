-- ===== src/Pmm/Bits.antt =====
-- The frame bitmap of src/kernel/mem/pmm.c: `g_bitmap[i]` as the function from a bit's number, 0 the
-- lowest, to the bit. Bit `f % 64` of word `f / 64` is set when frame `f` is in use.
use nova_os.Base.{
  ℕ, zero, suc, ◌+◌, ◌/◌, ◌%◌, ◌≤◌, ◌<◌, ◌≡◌, refl, Bool, true, false, ◌&&◌, Option, none, some,
  arith, ◌==◌, if◌then◌else◌,
}

abbrev pub Word : Type 0
Word = ℕ → Bool

abbrev pub Bitmap : Type 0
Bitmap = ℕ → Word

unfoldable pub write_bit : Bitmap → ℕ → Bool → Bitmap
write_bit m f v i b = if (i == f / 64) && (b == f % 64) then v else m i b

unfoldable pub bitmap_set_bit : Bitmap → ℕ → Bitmap
unfolding write_bit
bitmap_set_bit m f = write_bit m f true

unfoldable pub bitmap_clear_bit : Bitmap → ℕ → Bitmap
unfolding write_bit
bitmap_clear_bit m f = write_bit m f false

unfoldable pub bitmap_test_bit : Bitmap → ℕ → Bool
bitmap_test_bit m f = m (f / 64) (f % 64)

-- `__builtin_ctzll(~w)`, looked for in the `n` bits from `b` on. `none`: they are all set.
unfoldable pub lowest_clear : Word → ℕ → ℕ → Option ℕ
lowest_clear w zero b = none
lowest_clear w (suc n) b = let rest = lowest_clear w n (b + 1) in if w b then rest else some b

-- How many of the frames below `n` are in use.
unfoldable pub count : Bitmap → ℕ → ℕ
count m zero = 0
count m (suc n) = count m n + (if bitmap_test_bit m n then 1 else 0)

pub test-set_bit :
    (m : Bitmap) (f g : ℕ)
    → bitmap_test_bit (bitmap_set_bit m f) g ≡ (if g == f then true else bitmap_test_bit m g)
unfolding bitmap_test_bit bitmap_set_bit
test-set_bit m f g = ground arith

pub test-clear_bit :
    (m : Bitmap) (f g : ℕ)
    → bitmap_test_bit (bitmap_clear_bit m f) g ≡ (if g == f then false else bitmap_test_bit m g)
unfolding bitmap_test_bit bitmap_clear_bit
test-clear_bit m f g = ground arith

-- The count reads the bits below its bound and no others.
pub count-ext :
    (m k : Bitmap) (n : ℕ)
    → ((g : ℕ) → g < n → bitmap_test_bit k g ≡ bitmap_test_bit m g)
    → count k n ≡ count m n
unfolding count
count-ext m k zero h = refl
count-ext m k (suc n) h =
    ground (arith, count-ext m k n (λ g q. h g (omega arith)), h n (omega arith))

pub count-le : (m : Bitmap) (n : ℕ) → count m n ≤ n
unfolding count
count-le m zero = omega arith
count-le m (suc n) = ground (arith, count-le m n)

pub count-set_bit :
    (m : Bitmap) (f n : ℕ)
    → f < n
    → bitmap_test_bit m f ≡ false
    → count (bitmap_set_bit m f) n ≡ count m n + 1
unfolding count
count-set_bit m f zero h e = absurd (omega arith)
count-set_bit m f (suc n) h e = ground (
  arith,
  test-set_bit m f n,
  count-set_bit m f n,
  λ (q : f ≡ n). count-ext m (bitmap_set_bit m f) n (λ g r. ground (arith, test-set_bit m f g)),
)

pub count-clear_bit :
    (m : Bitmap) (f n : ℕ)
    → f < n
    → bitmap_test_bit m f ≡ true
    → count (bitmap_clear_bit m f) n + 1 ≡ count m n
unfolding count
count-clear_bit m f zero h e = absurd (omega arith)
count-clear_bit m f (suc n) h e = ground (
  arith,
  test-clear_bit m f n,
  count-clear_bit m f n,
  λ (q : f ≡ n). count-ext m (bitmap_clear_bit m f) n (λ g r. ground (arith, test-clear_bit m f g)),
)

-- What the scan of a word finds: the lowest clear bit, or that there is none.
pub lowest_clear_lem :
    (w : Word) (n b c : ℕ) → lowest_clear w n b ≡ some c → (b ≤ c) × (c < b + n) × (w c ≡ false)
unfolding lowest_clear
lowest_clear_lem w zero b c e = ground arith
lowest_clear_lem w (suc n) b c e = ground (arith, lowest_clear_lem w n (b + 1) c)

pub lowest_clear-none :
    (w : Word) (n b c : ℕ) → lowest_clear w n b ≡ none → b ≤ c → c < b + n → w c ≡ true
unfolding lowest_clear
lowest_clear-none w zero b c e p q = absurd (omega arith)
lowest_clear-none w (suc n) b c e p q = ground (arith, lowest_clear-none w n (b + 1) c)
