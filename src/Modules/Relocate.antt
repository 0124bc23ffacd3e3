-- ===== src/Modules/Relocate.antt =====
-- What a relocation of a module writes: the switch of `apply_relocations`.
use nova_os.Base.{
  ℕ, zero, suc, ◌+◌, ◌-◌, ◌*◌, ◌/◌, ◌%◌, ◌^◌, ◌≤◌, ◌<◌, ◌≡◌, refl, sym, ap, ◌∙◌, ◌≢◌, ◌⊎◌, Bool,
  true, false, ◌||◌, Option, none, some, arith, ltb, ◌==◌, if◌then◌else◌, ltb→lt, add64, sub64,
}
use native.Mathlib.Nat.{
  mod-eq_of_lt, mod-lt, div-add-mod, one-le-pow, pow-succ', pow-suc, div-div-eq-div-mul,
  add-mul-mod_self_left,
}
use nova_os.Pmm.Valid.{within}
use nova_os.String.{Memory, store_word}
use nova_os.Modules.{store_half, fits_signed, relocate}

-- The number of the `n` bytes at `p`, the lowest byte first.
unfoldable pub value_at : ℕ → ℕ → Memory → ℕ
value_at zero p m = 0
value_at (suc n) p m = m p + 256 * value_at n (p + 1) m

-- A 32-bit number with its sign, in 64 bits.
abbrev pub sign_extended : ℕ → ℕ
sign_extended v = if ltb v (2 ^ 31) then v else v + (2 ^ 64 - 2 ^ 32)

-- The bytes outside of the `n` at `p` are as they were.
abbrev Keeps : ℕ → ℕ → Memory → Memory → Type 0
Keeps n p m m' = (x : ℕ) → within p n x ≡ false → m' x ≡ m x

-- How a relocation of each type ends; `x` is the symbol's value with the addend.
pub data Applied (type p x : ℕ) (m : Memory) : Option Memory → Type 0 where
  no_change : type ≡ 0 → Applied type p x m (some m)
  wrote_word :
      (m' : Memory) → type ≡ 1 → Keeps 8 p m m' → value_at 8 p m' ≡ x → Applied type p x m (some m')
  wrote_half :
      (m' : Memory)
      → type ≡ 10
      → Keeps 4 p m m'
      → value_at 4 p m' ≡ x
      → Applied type p x m (some m')
  wrote_signed :
      (m' : Memory)
      → type ≡ 11
      → Keeps 4 p m m'
      → sign_extended (value_at 4 p m') ≡ x
      → Applied type p x m (some m')
  wrote_relative :
      (m' : Memory)
      → (type ≡ 2) ⊎ (type ≡ 4)
      → Keeps 4 p m m'
      → add64 p (sign_extended (value_at 4 p m')) ≡ x
      → Applied type p x m (some m')
  refused_type :
      type ≢ 0 → type ≢ 1 → type ≢ 2 → type ≢ 4 → type ≢ 10 → type ≢ 11 → Applied type p x m none
  refused_half : type ≡ 10 → 2 ^ 32 ≤ x → Applied type p x m none
  refused_signed : type ≡ 11 → 2 ^ 31 ≤ x → x < 2 ^ 64 - 2 ^ 31 → Applied type p x m none
  refused_relative :
      (type ≡ 2) ⊎ (type ≡ 4)
      → 2 ^ 31 ≤ sub64 x p
      → sub64 x p < 2 ^ 64 - 2 ^ 31
      → Applied type p x m none

-- A store of the `w` bytes of a number.
abbrev stored : ℕ → ℕ → ℕ → Memory → Memory
stored w p val m = λ x. if within p w x then val / 256 ^ (x - p) % 256 else m x

digits : (u k : ℕ) → 1 ≤ k → u % 256 + 256 * (u / 256 % k) ≡ u % (256 * k)
digits u k h = sym (
    ap (λ t. t % (256 * k)) whole
    ∙ add-mul-mod_self_left (u % 256 + 256 * (u / 256 % k)) (256 * k) (u / 256 / k)
    ∙ mod-eq_of_lt small)
  where
    whole : u ≡ u % 256 + 256 * (u / 256 % k) + 256 * k * (u / 256 / k)
    whole = omega (arith, div-add-mod (u / 256) k)

    small : u % 256 + 256 * (u / 256 % k) < 256 * k
    small = omega (arith, mod-lt (u / 256) {m = k} h)

stored-byte : (i w p val : ℕ) (m : Memory) → i < w → stored w p val m (p + i) ≡ val / 256 ^ i % 256
stored-byte i w p val m h =
    ap (λ b. if b then val / 256 ^ (p + i - p) % 256 else m (p + i)) inside
    ∙ ap (λ j. val / 256 ^ j % 256) offset
  where
    inside : within p w (p + i) ≡ true
    inside = ground arith

    offset : p + i - p ≡ i
    offset = omega arith

value-stored :
    (n i w p val : ℕ) (m : Memory)
    → i + n ≤ w
    → value_at n (p + i) (stored w p val m) ≡ val / 256 ^ i % 256 ^ n
unfolding value_at
value-stored zero i w p val m h = omega arith
value-stored (suc n) i w p val m h =
    ap (λ t. t + 256 * value_at n (p + i + 1) (stored w p val m))
      (stored-byte i w p val m (omega arith))
    ∙ ap (λ t. val / 256 ^ i % 256 + 256 * value_at n t (stored w p val m)) after
    ∙ ap (λ t. val / 256 ^ i % 256 + 256 * t) (value-stored n (suc i) w p val m (omega arith))
    ∙ ap (λ t. val / 256 ^ i % 256 + 256 * (t % 256 ^ n)) next
    ∙ digits (val / 256 ^ i) (256 ^ n) (one-le-pow n 256 (omega arith))
    ∙ ap (λ t. val / 256 ^ i % t) (sym (pow-succ' 256 n))
  where
    after : p + i + 1 ≡ p + suc i
    after = omega arith

    next : val / 256 ^ suc i ≡ val / 256 ^ i / 256
    next = ap (λ t. val / t) (pow-suc 256 i) ∙ sym (div-div-eq-div-mul val (256 ^ i) 256)

stored-value : (w p val : ℕ) (m : Memory) → value_at w p (stored w p val m) ≡ val % 256 ^ w
stored-value w p val m =
    ap (λ t. value_at w t (stored w p val m)) (omega arith)
    ∙ value-stored w 0 w p val m (omega arith)
    ∙ ap (λ t. t % 256 ^ w) (omega arith)

stored-Keeps : (w p val : ℕ) (m : Memory) → Keeps w p m (stored w p val m)
stored-Keeps w p val m x q = ap (λ b. if b then val / 256 ^ (x - p) % 256 else m x) q

signed-stored : (x : ℕ) → x < 2 ^ 64 → fits_signed x ≡ true → sign_extended (x % 2 ^ 32) ≡ x
signed-stored x h f = ground arith

-- A test, from both of its branches.
pub branches :
    {A : Type 0} (P : A → Type 0) (b : Bool) {x y : A}
    → (b ≡ true → P x)
    → (b ≡ false → P y)
    → P (if b then x else y)
branches P true f g = f refl
branches P false f g = g refl

number : (a b : ℕ) → (a == b) ≡ true → a ≡ b
number a b h = ground arith

differs : (a b : ℕ) → (a == b) ≡ false → a ≢ b
differs a b h = ground arith

either : (a : ℕ) → ((a == 2) || (a == 4)) ≡ true → (a ≡ 2) ⊎ (a ≡ 4)
either a h = ground arith

neither : (a : ℕ) → ((a == 2) || (a == 4)) ≡ false → (a ≢ 2) × (a ≢ 4)
neither a h = ground arith

-- A stored number of 32 bits with its sign, and one that does not fit.
signed-value :
    (p x : ℕ) (m : Memory)
    → x < 2 ^ 64
    → fits_signed x ≡ true
    → sign_extended (value_at 4 p (stored 4 p x m)) ≡ x
signed-value p x m h f = ap (λ t. sign_extended t) (stored-value 4 p x m) ∙ signed-stored x h f

too_large : (x : ℕ) → fits_signed x ≡ false → (2 ^ 31 ≤ x) × (x < 2 ^ 64 - 2 ^ 31)
too_large x f = ground arith

-- At a 64-bit address, a relocation whose type is one of those that are known and whose value fits changes no byte but
-- the four or eight at its place, and what is read back from them, with its sign where it has one, is the
-- symbol's value with the addend, or gives it when the place is added. One of type 0 changes nothing. It is refused
-- just where the type is not known or the value does not fit in 32 bits, with or without a sign as the type says.
pub relocate-Applied :
    (type p s a : ℕ) (m : Memory)
    → p < 2 ^ 64
    → Applied type p (add64 s a) m (relocate type p s a m)
unfolding relocate store_word store_half
relocate-Applied type p s a m h =
    branches P (type == 0) (λ e. no_change (number type 0 e))
      (λ n0.
        branches P (type == 1)
          (λ e. wrote_word (stored 8 p x m) (number type 1 e) (stored-Keeps 8 p x m) word)
          (λ n1.
            branches P (type == 10)
              (λ e.
                branches P (ltb 0xffffffff x)
                  (λ q. refused_half (number type 10 e) (ltb→lt 0xffffffff x q))
                  (λ q.
                    wrote_half (stored 4 p x m) (number type 10 e) (stored-Keeps 4 p x m) (half q)))
              (λ n10.
                branches P (type == 11)
                  (λ e.
                    branches P (fits_signed x)
                      (λ q.
                        wrote_signed (stored 4 p x m) (number type 11 e) (stored-Keeps 4 p x m)
                          (signed-value p x m below q))
                      (λ q. refused_signed (number type 11 e) (too_large x q).0 (too_large x q).1))
                  (λ n11.
                    branches P ((type == 2) || (type == 4))
                      (λ e.
                        branches P (fits_signed d)
                          (λ q.
                            wrote_relative (stored 4 p d m) (either type e) (stored-Keeps 4 p d m)
                              (relative q))
                          (λ q.
                            refused_relative (either type e) (too_large d q).0 (too_large d q).1))
                      (λ n.
                        refused_type (differs type 0 n0) (differs type 1 n1) (neither type n).0
                          (neither type n).1 (differs type 10 n10) (differs type 11 n11))))))
  where
    x : ℕ
    x = add64 s a

    d : ℕ
    d = sub64 x p

    P : Option Memory → Type 0
    P = Applied type p x m

    below : x < 2 ^ 64
    below = omega arith

    word : value_at 8 p (stored 8 p x m) ≡ x
    word = stored-value 8 p x m ∙ omega arith

    half : ltb 0xffffffff x ≡ false → value_at 4 p (stored 4 p x m) ≡ x
    half q = stored-value 4 p x m ∙ ground arith

    relative : fits_signed d ≡ true → add64 p (sign_extended (value_at 4 p (stored 4 p d m))) ≡ x
    relative q = ap (λ t. add64 p t) (signed-value p d m (omega arith) q) ∙ omega arith
