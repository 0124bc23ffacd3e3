-- ===== src/Base/Digits.antt =====
-- Operations on binary digits, for those of the language that are defined by them.
use Prim.Native.Nat.{ℕ, zero, suc, ◌+◌, ◌-◌, ◌*◌, ◌/◌, ◌%◌, ◌≤◌, digits}
use mathlib.Core.Path.{◌≡◌, refl, ap, sym, ◌∙◌}
use native.Mathlib.Omega.{arith}

module _ (last : ℕ → ℕ) (op : ℕ → ℕ → ℕ) where
  no_digits : (k b : ℕ) → digits last op k 0 b ≡ last b
  no_digits zero b = refl
  no_digits (suc k) b = refl

  -- Rounds past the last digit of `a` change nothing.
  extra_rounds : (n k a b : ℕ) → a ≤ n → digits last op (n + k) a b ≡ digits last op n a b
  extra_rounds n k zero b h = no_digits (n + k) b ∙ sym (no_digits n b)
  extra_rounds zero k (suc a) b h = absurd (omega arith)
  extra_rounds (suc n) k (suc a) b h =
      ap (λ m. digits last op m (suc a) b) sum
      ∙ ap (λ t. t * 2 + op (suc a % 2) (b % 2))
          (extra_rounds n k (suc a / 2) (b / 2) (omega arith))
    where
      sum : suc n + k ≡ suc (n + k)
      sum = omega arith

  pub digits_step :
      (a b : ℕ)
      → digits last op (suc a) (suc a) b
        ≡ digits last op (suc a / 2) (suc a / 2) (b / 2) * 2 + op (suc a % 2) (b % 2)
  digits_step a b =
      ap (λ n. digits last op n (suc a / 2) (b / 2) * 2 + op (suc a % 2) (b % 2)) rounds
      ∙ ap (λ t. t * 2 + op (suc a % 2) (b % 2))
          (extra_rounds (suc a / 2) (a - suc a / 2) (suc a / 2) (b / 2) (omega arith))
    where
      rounds : a ≡ suc a / 2 + (a - suc a / 2)
      rounds = omega arith
