-- ===== src/Base/Word.antt =====
-- 64-bit machine words as native numbers: wrap by `%`, and the bit operations that the kernel uses.
use Prim.Native.Nat.{
  ℕ, zero, suc, ◌+◌, ◌-◌, ◌*◌, ◌/◌, ◌%◌, ◌^◌, ◌≤◌, ◌<◌, min, bit_and, bit_and-bitwise,
}
use mathlib.Core.Path.{◌≡◌, sym, ap, ◌∙◌}
use native.Mathlib.Omega.{arith}
use nova_os.Base.Digits.{digits_step}
use native.Mathlib.Nat.{pow-succ', mod-eq_of_lt, mod-lt, div-add-mod, add-mul-mod_self_left}

abbrev pub u64_mod : ℕ
u64_mod = 2 ^ 64

-- uint64_t a + b, a - b and a * b
abbrev pub add64 : ℕ → ℕ → ℕ
add64 a b = (a + b) % u64_mod

abbrev pub sub64 : ℕ → ℕ → ℕ
sub64 a b = (a + u64_mod - b) % u64_mod

abbrev pub mul64 : ℕ → ℕ → ℕ
mul64 a b = (a * b) % u64_mod

abbrev pub page_size : ℕ
page_size = 4096

-- x & ~m: the bits of m are taken off.
unfoldable pub and_not : ℕ → ℕ → ℕ
and_not x m = x - bit_and x m

-- x & ~(PAGE_SIZE - 1)
abbrev pub page_down : ℕ → ℕ
page_down x = x - x % page_size

-- (x + PAGE_SIZE - 1) & ~(PAGE_SIZE - 1)
abbrev pub page_up : ℕ → ℕ
page_up x = page_down (add64 x 4095)

pub bit_and_step : (a b : ℕ) → bit_and a b ≡ bit_and (a / 2) (b / 2) * 2 + min (a % 2) (b % 2)
bit_and_step zero b = omega (arith, bit_and-bitwise 0 b, bit_and-bitwise 0 (b / 2))
bit_and_step (suc a) b =
    bit_and-bitwise (suc a) b
    ∙ digits_step (λ b. 0) min a b
    ∙ ap (λ t. t * 2 + min (suc a % 2) (b % 2)) (sym (bit_and-bitwise (suc a / 2) (b / 2)))

bit_and-le_fuel : (n a b : ℕ) → a ≤ n → bit_and a b ≤ b
bit_and-le_fuel zero zero b h = omega (arith, bit_and-bitwise 0 b)
bit_and-le_fuel zero (suc a) b h = absurd (omega arith)
bit_and-le_fuel (suc n) zero b h = omega (arith, bit_and-bitwise 0 b)
bit_and-le_fuel (suc n) (suc a) b h =
    omega (arith, bit_and_step (suc a) b, bit_and-le_fuel n (suc a / 2) (b / 2) (omega arith))

pub bit_and-le : (a b : ℕ) → bit_and a b ≤ b
bit_and-le a b = bit_and-le_fuel a a b (omega arith)

pub pow-pos : (k : ℕ) → 1 ≤ 2 ^ k
pow-pos zero = omega arith
pow-pos (suc k) = omega (arith, pow-pos k, pow-succ' 2 k)

pub mod-double : (x m : ℕ) → 1 ≤ m → x % (2 * m) ≡ (x / 2) % m * 2 + x % 2
mod-double x m h =
    ap (λ t. t % (2 * m)) whole
    ∙ add-mul-mod_self_left (x / 2 % m * 2 + x % 2) (2 * m) (x / 2 / m)
    ∙ mod-eq_of_lt small
  where
    whole : x ≡ x / 2 % m * 2 + x % 2 + 2 * m * (x / 2 / m)
    whole = omega (arith, div-add-mod (x / 2) m)

    small : x / 2 % m * 2 + x % 2 < 2 * m
    small = omega (arith, mod-lt (x / 2) {m = m} h)

-- x & (2^k - 1)
pub bit_and-mask : (k x : ℕ) → bit_and x (2 ^ k - 1) ≡ x % 2 ^ k
bit_and-mask zero x = omega (arith, bit_and-le x 0)
bit_and-mask (suc k) x =
    bit_and_step x (2 ^ suc k - 1)
    ∙ ap (λ t. bit_and (x / 2) t * 2 + min (x % 2) ((2 ^ suc k - 1) % 2)) half
    ∙ ap (λ t. t * 2 + min (x % 2) ((2 ^ suc k - 1) % 2)) (bit_and-mask k (x / 2))
    ∙ omega (arith, odd)
    ∙ sym (mod-double x (2 ^ k) (pow-pos k))
    ∙ ap (λ t. x % t) (sym (pow-succ' 2 k))
  where
    half : (2 ^ suc k - 1) / 2 ≡ 2 ^ k - 1
    half = omega (arith, pow-pos k, pow-succ' 2 k)

    odd : (2 ^ suc k - 1) % 2 ≡ 1
    odd = omega (arith, pow-pos k, pow-succ' 2 k)
