-- ===== src/String/Compare/Equal.antt =====
-- When the comparisons of strings give 0.
use nova_os.Base.{
  ℕ, zero, suc, ◌<◌, ◌≡◌, refl, ap, ◌∙◌, Bool, true, false, List, [], ◌∷◌, ◌++◌, arith, ◌==◌,
  if◌then◌else◌, length, drop,
}
use nova_os.String.Compare.{difference, strcmp, strncmp}

-- The characters of a string: bytes that are not NUL.
unfoldable pub Characters : List ℕ → Type 0
Characters [] = Unit
Characters (c ∷ cs) = (0 < c) × (c < 256) × Characters cs

pub difference-zero : (a b : ℕ) → a < 256 → b < 256 → difference a b ≡ 0 → a ≡ b
difference-zero a b h k e = omega (arith, e)

cons_eq : {a b : ℕ} {s t : List ℕ} → a ≡ b → s ≡ t → a ∷ s ≡ b ∷ t
cons_eq {a = a} {b = b} {s = s} {t = t} e f = ap (λ x. x ∷ s) e ∙ ap (λ x. b ∷ x) f

-- `strcmp` gives 0 for equal strings, and for no others.
pub strcmp-zero : (s t : List ℕ) → Characters s → Characters t → strcmp s t ≡ 0 → s ≡ t
unfolding strcmp Characters
strcmp-zero [] [] cs ct e = refl
strcmp-zero [] (b ∷ t) cs (h, k, ct) e =
    absurd (omega (arith, difference-zero 0 b (omega arith) k e, h))
strcmp-zero (a ∷ s) [] (h, k, cs) ct e =
    absurd (omega (arith, difference-zero a 0 k (omega arith) e, h))
strcmp-zero (a ∷ s) (b ∷ t) (h, k, cs) (h', k', ct) e =
    same (λ z. strcmp-zero s t cs ct z) (a == b) refl e
  where
    same :
        (strcmp s t ≡ 0 → s ≡ t)
        → (c : Bool) → (a == b) ≡ c
        → (if c then strcmp s t else difference a b) ≡ 0
        → a ∷ s ≡ b ∷ t
    same later true q z = cons_eq (ground (arith, q)) (later z)
    same later false q z = absurd (ground (arith, q, difference-zero a b k k' z))

pub strcmp_self : (s : List ℕ) → strcmp s s ≡ 0
unfolding strcmp
strcmp_self [] = refl
strcmp_self (a ∷ s) = rw (same a) (strcmp_self s)
  where
    same : (a : ℕ) → (a == a) ≡ true
    same a = ground arith

-- `strncmp` over the length of the first string tests for a prefix.
pub strncmp-prefix :
    (s t : List ℕ)
    → Characters s
    → Characters t
    → strncmp s t (length s) ≡ 0
    → t ≡ s ++ drop (length s) t
unfolding strncmp Characters
strncmp-prefix [] t cs ct e = refl
strncmp-prefix (a ∷ s) [] (h, k, cs) ct e =
    absurd (omega (arith, difference-zero a 0 k (omega arith) e, h))
strncmp-prefix (a ∷ s) (b ∷ t) (h, k, cs) (h', k', ct) e =
    same (λ z. strncmp-prefix s t cs ct z) (a == b) refl e
  where
    same :
        (strncmp s t (length s) ≡ 0 → t ≡ s ++ drop (length s) t)
        → (c : Bool) → (a == b) ≡ c
        → (if c then strncmp s t (length s) else difference a b) ≡ 0
        → b ∷ t ≡ a ∷ (s ++ drop (length s) t)
    same later true q z = cons_eq (ground (arith, q)) (later z)
    same later false q z = absurd (ground (arith, q, difference-zero a b k k' z))

pub strncmp-append : (s t : List ℕ) → strncmp s (s ++ t) (length s) ≡ 0
unfolding strncmp
strncmp-append [] t = refl
strncmp-append (a ∷ s) t = rw (same a) (strncmp-append s t)
  where
    same : (a : ℕ) → (a == a) ≡ true
    same a = ground arith

pub drop-append_self : (s t : List ℕ) → drop (length s) (s ++ t) ≡ t
drop-append_self [] t = refl
drop-append_self (a ∷ s) t = drop-append_self s t

pub drop-Characters : (n : ℕ) (s : List ℕ) → Characters s → Characters (drop n s)
unfolding Characters
drop-Characters zero s cs = cs
drop-Characters (suc n) [] cs = tt
drop-Characters (suc n) (c ∷ s) (h, k, cs) = drop-Characters n s cs
