-- ===== src/Vmm/Entry.antt =====
-- Page table entries as 64-bit words: `e & (1 << k)`, and `e & PTE_ADDR_MASK`, the bits 12 to 51.
use nova_os.Base.{
  ℕ, ◌-◌, ◌/◌, ◌%◌, ◌^◌, ◌<◌, bit_or, ◌≡◌, ap, ◌∙◌, Bool, ◌||◌, arith, ◌==◌, page_size, bit_or-zero,
  bit_or-div, bit_or-mod, bit_or-bit,
}

abbrev pub has_bit : ℕ → ℕ → Bool
has_bit e k = e / 2 ^ k % 2 == 1

abbrev pub addr_of : ℕ → ℕ
addr_of e = e % 2 ^ 52 - e % page_size

-- Bits outside the address leave it.
pub addr_of-bit_or : (e f : ℕ) → f % 2 ^ 52 < page_size → addr_of (bit_or e f) ≡ addr_of e
addr_of-bit_or e f h = omega (arith, high)
  where
    low : f % 2 ^ 52 / 2 ^ 12 ≡ 0
    low = omega arith

    high : bit_or e f % 2 ^ 52 / 2 ^ 12 ≡ e % 2 ^ 52 / 2 ^ 12
    high =
        ap (λ t. t / 2 ^ 12) (bit_or-mod 52 e f)
        ∙ bit_or-div 12 (e % 2 ^ 52) (f % 2 ^ 52)
        ∙ ap (bit_or (e % 2 ^ 52 / 2 ^ 12)) low
        ∙ bit_or-zero (e % 2 ^ 52 / 2 ^ 12)

pub has_bit-bit_or : (e f k : ℕ) → has_bit (bit_or e f) k ≡ (has_bit e k || has_bit f k)
has_bit-bit_or e f k = ground (arith, bit_or-bit k e f)
