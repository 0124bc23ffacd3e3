-- ===== src/String/Compare.antt =====
-- `strcmp`, `strncmp`, `strlen` and `memcmp`, src/kernel/string/string.c. A string is the list of its bytes before the
-- NUL; a result of type `int` is its two's complement.
pub mod Equal
use nova_os.Base.{
  ℕ, zero, suc, ◌+◌, ◌-◌, ◌*◌, ◌/◌, ◌%◌, ◌^◌, ◌≤◌, ◌<◌, min, max, bit_and, bit_or, ◌≡◌, refl, sym,
  ap, ◌∙◌, ◌≢◌, ◌↔◌, ◌⊎◌, inl, inr, Bool, true, false, not, ◌&&◌, ◌||◌, Option, none, some, List,
  [], ◌∷◌, ◌++◌, map, arith, ltb, leb, ◌==◌, if◌then◌else◌, ltb→lt, lt→ltb, leb→le, le→leb,
  ltb-false, leb-false, ==_iff, Bool-cases, Option-cases, length, get_elem?, set, replicate,
  length-append, length-replicate, length-set, get_elem?-set_self, get_elem?-set_ne, take, drop,
  length-take, length-drop, drop-drop, take-append_drop, drop-nil, u64_mod, add64, sub64, mul64,
  page_size, and_not, page_down, page_up, bit_and_step, bit_and-le, bit_and-mask, bit_or_step,
  bit_or-zero, bit_or-div, bit_or-mod, bit_or-bit,
}

-- (int)a - (int)b of two bytes
abbrev pub difference : ℕ → ℕ → ℕ
difference a b = (a + 2 ^ 32 - b) % 2 ^ 32

abbrev pub first_byte : List ℕ → ℕ
first_byte [] = 0
first_byte (c ∷ s) = c

unfoldable pub strcmp : List ℕ → List ℕ → ℕ
strcmp [] t = difference 0 (first_byte t)
strcmp (a ∷ s) [] = difference a 0
strcmp (a ∷ s) (b ∷ t) = let rest = strcmp s t in if a == b then rest else difference a b

abbrev pub strlen : List ℕ → ℕ
strlen s = length s

unfoldable pub strncmp : List ℕ → List ℕ → ℕ → ℕ
strncmp s t zero = 0
strncmp [] [] (suc n) = 0
strncmp [] (b ∷ t) (suc n) = if 0 == b then 0 else difference 0 b
strncmp (a ∷ s) [] (suc n) = difference a 0
strncmp (a ∷ s) (b ∷ t) (suc n) =
    let rest = strncmp s t n in if a == b then rest else difference a b

-- The first `n` bytes of two objects of at least as many.
unfoldable pub memcmp : ℕ → List ℕ → List ℕ → ℕ
memcmp zero p q = 0
memcmp (suc n) [] q = 0
memcmp (suc n) (a ∷ p) [] = 0
memcmp (suc n) (a ∷ p) (b ∷ q) = let rest = memcmp n p q in if a == b then rest else difference a b
