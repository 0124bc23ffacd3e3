-- ===== src/Fat32/Names/Compare.antt =====
-- `strcasecmp_ascii` compares up to the case of the letters.
use nova_os.Base.{
  ℕ, ◌<◌, ◌≡◌, refl, ap, ◌↔◌, inl, inr, true, ◌&&◌, List, [], ◌∷◌, map, arith, leb, ◌==◌,
  Bool-cases, length,
}
use nova_os.String.Compare.{difference}
use nova_os.String.Compare.Equal.{Characters, difference-zero}
use nova_os.Fat32.Names.{to_lower, strcasecmp_ascii}

lower-byte : (c : ℕ) → 0 < c → c < 256 → (0 < to_lower c) × (to_lower c < 256)
unfolding to_lower
lower-byte c h k = elim (Bool-cases (leb 65 c && leb c 90)) [
  | inl e ↦ rw e (omega arith, ground (arith, e))
  | inr e ↦ rw e (h, k)
]

lower-zero : to_lower 0 ≡ 0
unfolding to_lower
lower-zero = refl

-- The differences at the end of one string only.
ended-differ :
    (b : ℕ)
    → 0 < b
    → b < 256
    → ((difference (to_lower 0) (to_lower b) ≡ 0) → ⊥)
      × ((difference (to_lower b) (to_lower 0) ≡ 0) → ⊥)
ended-differ b h k =
    let (low, high) = lower-byte b h k in
    (
      λ e. absurd (
          omega
            (arith, difference-zero (to_lower 0) (to_lower b) zero_small high e, lower-zero, low)),
      λ e. absurd (
          omega
            (arith, difference-zero (to_lower b) (to_lower 0) high zero_small e, lower-zero, low)),
    )
  where
    zero_small : to_lower 0 < 256
    zero_small = omega (arith, lower-zero)

first : List ℕ → ℕ
first [] = 0
first (c ∷ cs) = c

others : List ℕ → List ℕ
others [] = []
others (c ∷ cs) = cs

-- Two strings are equal for `strcasecmp_ascii` exactly where their lower-case forms are the same.
pub strcasecmp_ascii-lower :
    (s t : List ℕ)
    → Characters s
    → Characters t
    → (strcasecmp_ascii s t ≡ 0) ↔ (map to_lower s ≡ map to_lower t)
unfolding strcasecmp_ascii Characters first others
strcasecmp_ascii-lower [] [] cs ct = (λ e. refl, λ e. rw lower-zero refl)
strcasecmp_ascii-lower [] (b ∷ t) cs (h, k, ct) =
    (λ e. absurd ((ended-differ b h k).0 e), λ e. absurd (omega (arith, ap length e)))
strcasecmp_ascii-lower (a ∷ s) [] (h, k, cs) ct =
    (λ e. absurd ((ended-differ a h k).1 e), λ e. absurd (omega (arith, ap length e)))
strcasecmp_ascii-lower (a ∷ s) (b ∷ t) (h, k, cs) (h', k', ct) =
    elim (Bool-cases (to_lower a == to_lower b)) [
      | inl e ↦
          let (to, from) = strcasecmp_ascii-lower s t cs ct in
          rw e (λ z. rw (to z) (ap (λ x. x ∷ map to_lower t) (same e)), λ z. from (ap others z))
      | inr e ↦ rw e (
        λ z. absurd (
            ground (
              arith,
              e,
              difference-zero (to_lower a) (to_lower b) (lower-byte a h k).1 (lower-byte b h' k').1
                  z,
            )),
        λ z. absurd (ground (arith, e, ap first z)),
      )
    ]
  where
    same : (to_lower a == to_lower b) ≡ true → to_lower a ≡ to_lower b
    same e = ground (arith, e)
