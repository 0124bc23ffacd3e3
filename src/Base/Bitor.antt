-- ===== src/Base/Bitor.antt =====
-- `bit_or` digit by digit: its quotients, remainders and single bits.
use Prim.Native.Nat.{ℕ, zero, suc, ◌+◌, ◌*◌, ◌/◌, ◌%◌, ◌^◌, ◌≤◌, max, bit_or, bit_or-bitwise}
use mathlib.Core.Path.{◌≡◌, sym, ap, ◌∙◌}
use native.Mathlib.Omega.{arith}
use native.Mathlib.Nat.{pow-succ', div-div-eq-div-mul}
use nova_os.Base.Digits.{digits_step}
use nova_os.Base.Word.{mod-double, pow-pos}

pub bit_or_step : (a b : ℕ) → bit_or a b ≡ bit_or (a / 2) (b / 2) * 2 + max (a % 2) (b % 2)
bit_or_step zero b = omega (arith, bit_or-bitwise 0 b, bit_or-bitwise 0 (b / 2))
bit_or_step (suc a) b =
    bit_or-bitwise (suc a) b
    ∙ digits_step (λ b. b) max a b
    ∙ ap (λ t. t * 2 + max (suc a % 2) (b % 2)) (sym (bit_or-bitwise (suc a / 2) (b / 2)))

zero_below : (n a : ℕ) → a ≤ n → bit_or a 0 ≡ a
zero_below n zero h = bit_or-bitwise 0 0
zero_below zero (suc a) h = absurd (omega arith)
zero_below (suc n) (suc a) h =
    bit_or_step (suc a) 0 ∙ omega (arith, zero_below n (suc a / 2) (omega arith))

pub bit_or-zero : (a : ℕ) → bit_or a 0 ≡ a
bit_or-zero a = zero_below a a (omega arith)

-- (a | b) >> k
pub bit_or-div : (k a b : ℕ) → bit_or a b / 2 ^ k ≡ bit_or (a / 2 ^ k) (b / 2 ^ k)
bit_or-div zero a b = omega arith ∙ ap (λ t. bit_or t b) (ones a) ∙ ap (bit_or (a / 2 ^ 0)) (ones b)
  where
    ones : (x : ℕ) → x ≡ x / 2 ^ 0
    ones x = omega arith
bit_or-div (suc k) a b =
    halves (bit_or a b)
    ∙ ap (λ t. t / 2 ^ k) step
    ∙ bit_or-div k (a / 2) (b / 2)
    ∙ ap (λ t. bit_or t (b / 2 / 2 ^ k)) (sym (halves a))
    ∙ ap (bit_or (a / 2 ^ suc k)) (sym (halves b))
  where
    halves : (x : ℕ) → x / 2 ^ suc k ≡ x / 2 / 2 ^ k
    halves x = ap (λ t. x / t) (pow-succ' 2 k) ∙ sym (div-div-eq-div-mul x 2 (2 ^ k))

    step : bit_or a b / 2 ≡ bit_or (a / 2) (b / 2)
    step = omega (arith, bit_or_step a b)

-- (a | b) & (2^k - 1)
pub bit_or-mod : (k a b : ℕ) → bit_or a b % 2 ^ k ≡ bit_or (a % 2 ^ k) (b % 2 ^ k)
bit_or-mod zero a b =
    omega arith
    ∙ sym (bit_or-bitwise 0 0)
    ∙ ap (bit_or 0) (none b)
    ∙ ap (λ t. bit_or t (b % 2 ^ 0)) (none a)
  where
    none : (x : ℕ) → 0 ≡ x % 2 ^ 0
    none x = omega arith
bit_or-mod (suc k) a b =
    split (bit_or a b)
    ∙ omega (arith, ap (λ t. t % 2 ^ k) half, bit_or-mod k (a / 2) (b / 2), bit_or_step a b)
    ∙ sym whole
  where
    split : (x : ℕ) → x % 2 ^ suc k ≡ x / 2 % 2 ^ k * 2 + x % 2
    split x = ap (λ t. x % t) (pow-succ' 2 k) ∙ mod-double x (2 ^ k) (pow-pos k)

    half : bit_or a b / 2 ≡ bit_or (a / 2) (b / 2)
    half = omega (arith, bit_or_step a b)

    high : (x : ℕ) → x % 2 ^ suc k / 2 ≡ x / 2 % 2 ^ k
    high x = omega (arith, split x)

    whole :
        bit_or (a % 2 ^ suc k) (b % 2 ^ suc k)
        ≡ bit_or (a / 2 % 2 ^ k) (b / 2 % 2 ^ k) * 2 + max (a % 2) (b % 2)
    whole =
        bit_or_step (a % 2 ^ suc k) (b % 2 ^ suc k)
        ∙ ap (λ t. bit_or t (b % 2 ^ suc k / 2) * 2 + max (a % 2 ^ suc k % 2) (b % 2 ^ suc k % 2))
            (high a)
        ∙ ap (λ t. bit_or (a / 2 % 2 ^ k) t * 2 + max (a % 2 ^ suc k % 2) (b % 2 ^ suc k % 2))
            (high b)
        ∙ omega (arith, split a, split b)

-- The bit k of a | b.
pub bit_or-bit : (k a b : ℕ) → bit_or a b / 2 ^ k % 2 ≡ max (a / 2 ^ k % 2) (b / 2 ^ k % 2)
bit_or-bit k a b = omega (arith, bit_or-div k a b, bit_or_step (a / 2 ^ k) (b / 2 ^ k))
