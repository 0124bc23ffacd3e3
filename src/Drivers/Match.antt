-- ===== src/Drivers/Match.antt =====
-- Which queries name a driver.
use nova_os.Base.{
  ℕ, ◌≡◌, refl, sym, ap, ◌∙◌, ◌↔◌, ◌⊎◌, inl, inr, Bool, true, false, ◌&&◌, ◌||◌, List, [], ◌∷◌,
  ◌++◌, arith, ◌==◌, Bool-cases, length, drop,
}
use nova_os.String.Compare.{strcmp, strncmp, strlen}
use nova_os.String.Compare.Equal.{
  Characters, strcmp-zero, strcmp_self, strncmp-prefix, strncmp-append, drop-append_self,
  drop-Characters,
}
use nova_os.Drivers.{base_of, elf_suffix, match_driver_name}

base_of-Characters : (b p : List ℕ) → Characters b → Characters p → Characters (base_of b p)
unfolding base_of Characters
base_of-Characters b [] cb cp = cb
base_of-Characters b (c ∷ p) cb (h, k, cp) = elim (Bool-cases ((c == 47) || (c == 92))) [
  | inl e ↦ rw e (base_of-Characters p p cp cp)
  | inr e ↦ rw e (base_of-Characters b p cb cp)
]

-- The driver is named in full, or by the last part of a path, with or without ".elf".
abbrev pub Names : List ℕ → List ℕ → Type 0
Names registered query =
    (registered ≡ query)
    ⊎ (base_of query query ≡ registered)
    ⊎ (base_of query query ≡ registered ++ elf_suffix)

append-nil : (s : List ℕ) → s ++ [] ≡ s
append-nil [] = refl
append-nil (c ∷ s) = ap (λ t. c ∷ t) (append-nil s)

length-zero : (s : List ℕ) → (strlen s == 0) ≡ true → s ≡ []
length-zero [] e = refl
length-zero (c ∷ s) e = absurd (ground (arith, e))

accepted_cases : (p z f : Bool) → (p && (z || f)) ≡ true → (p ≡ true) × ((z ≡ true) ⊎ (f ≡ true))
accepted_cases true true f h = (refl, inl refl)
accepted_cases true false f h = (refl, inr h)
accepted_cases false z f h = absurd (ground (arith, h))

is_zero : (n : ℕ) → (n == 0) ≡ true → n ≡ 0
is_zero n e = ground (arith, e)

zero_is : (n : ℕ) → n ≡ 0 → (n == 0) ≡ true
zero_is n e = ground (arith, e)

elf-Characters : Characters elf_suffix
unfolding Characters
elf-Characters = (
  omega arith,
  omega arith,
  (omega arith, omega arith, (omega arith, omega arith, (omega arith, omega arith, tt))),
)

-- The test on the last part of the query.
abbrev base_test : List ℕ → List ℕ → Bool
base_test registered base =
    (strncmp registered base (strlen registered) == 0)
    && ((strlen (drop (strlen registered) base) == 0)
        || (strcmp (drop (strlen registered) base) elf_suffix == 0))

base_test-named :
    (registered base : List ℕ)
    → Characters registered
    → Characters base
    → base_test registered base ≡ true
    → (base ≡ registered) ⊎ (base ≡ registered ++ elf_suffix)
base_test-named registered base cr cb h =
    let (p, rest) = accepted_cases _ _ _ h in
    let whole = strncmp-prefix registered base cr cb (is_zero _ p) in
    elim rest [
      | inl z ↦ inl (
          whole
          ∙ ap (λ t. registered ++ t) (length-zero (drop (length registered) base) z)
          ∙ append-nil registered)
      | inr f ↦ inr (
          whole
          ∙ ap (λ t. registered ++ t)
              (strcmp-zero (drop (length registered) base) elf_suffix
                (drop-Characters (length registered) base cb) elf-Characters (is_zero _ f)))
    ]

base_test-suffix :
    (registered suffix : List ℕ)
    → ((strlen suffix == 0) || (strcmp suffix elf_suffix == 0)) ≡ true
    → base_test registered (registered ++ suffix) ≡ true
base_test-suffix registered suffix h =
    rw (zero_is _ (strncmp-append registered suffix), drop-append_self registered suffix, h) refl

base_test-of :
    (registered base : List ℕ)
    → (base ≡ registered) ⊎ (base ≡ registered ++ elf_suffix)
    → base_test registered base ≡ true
base_test-of registered base (inl e) =
    ap (λ b. base_test registered b) (e ∙ sym (append-nil registered))
    ∙ base_test-suffix registered [] refl
base_test-of registered base (inr e) =
    ap (λ b. base_test registered b) e
    ∙ base_test-suffix registered elf_suffix
        (ap (λ n. (strlen elf_suffix == 0) || (n == 0)) (strcmp_self elf_suffix))

-- `matchDriverName` accepts a query exactly where it is the registered name, or its last part is this name or
-- this name with ".elf" behind it.
pub match_driver_name-Names :
    (registered query : List ℕ)
    → Characters registered
    → Characters query
    → (match_driver_name registered query ≡ true) ↔ Names registered query
unfolding match_driver_name
match_driver_name-Names registered query cr cq = elim (Bool-cases (strcmp registered query == 0)) [
  | inl e ↦ rw e (λ t. inl (strcmp-zero registered query cr cq (is_zero _ e)), λ t. refl)
  | inr e ↦ rw e (
    λ t. inr (
        base_test-named registered (base_of query query) cr (base_of-Characters query query cq cq)
          t),
    λ t. elim t [
      | inl same ↦ absurd (
          ground (
            arith,
            e,
            zero_is _ (ap (λ q. strcmp registered q) (sym same) ∙ strcmp_self registered),
          ))
      | inr named ↦ base_test-of registered (base_of query query) named
    ],
  )
]
