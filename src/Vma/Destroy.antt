-- ===== src/Vma/Destroy.antt =====
-- `vmaDestroy`: the order it keeps, and what is left at each address.
use nova_os.Base.{
  ℕ, zero, suc, ◌+◌, ◌-◌, ◌*◌, ◌/◌, ◌%◌, ◌^◌, ◌≤◌, ◌≡◌, refl, ap, ◌∙◌, ◌≢◌, inl, inr, Bool, true,
  false, not, ◌&&◌, none, some, List, [], ◌∷◌, ◌++◌, arith, ltb, leb, ◌==◌, if◌then◌else◌,
  Bool-cases, page_size,
}
use nova_os.Vma.{
  release_pages, release_part, Vma, holds, carve, destroy_loop, vma_destroy, page_start_of,
  page_end_of,
}
use nova_os.Vma.Order.{Area, Ordered, Ordered-weaken, flags_at, flags-below}

-- An address of the range that is destroyed.
abbrev pub cut : ℕ → ℕ → ℕ → Bool
cut ps pe a = leb ps a && ltb a pe

module _ (ps pe : ℕ) (aligned : (ps % page_size ≡ 0) × (pe % page_size ≡ 0) × (ps ≤ pe)) where
  carve-Ordered :
      (ok : Bool) (v : Vma) (rest : List Vma) (lo : ℕ)
      → lo ≤ v.start
      → Area v
      → Ordered v.end rest
      → Ordered lo (carve ok ps pe v ++ rest)
  unfolding carve
  carve-Ordered ok v rest lo h area o = elim (Bool-cases (ltb ps v.end && ltb v.start pe)) [
    | inr apart ↦ rw apart (h, area, o)
    | inl meet ↦ rw meet (elim (Bool-cases (leb ps v.start && leb v.end pe)) [
      | inl all ↦ rw all (Ordered-weaken rest (omega arith) o)
      | inr part ↦ rw part (elim (Bool-cases (ltb v.start ps && ltb pe v.end)) [
        | inl middle ↦ rw middle (elim (Bool-cases ok) [
          | inl split ↦ rw split (h, ground arith, (ground arith, ground arith, o))
          | inr lost ↦ rw lost (h, ground arith, Ordered-weaken rest (ground arith) o)
        ])
        | inr side ↦ rw side (elim (Bool-cases (ltb v.start ps)) [
          | inl left ↦ rw left (h, ground arith, Ordered-weaken rest (ground arith) o)
          | inr right ↦ rw right (ground arith, ground arith, o)
        ])
      ])
    ])
  ]

  carve-flags :
      (v : Vma) (rest : List Vma) (a : ℕ)
      → flags_at (carve true ps pe v ++ rest) a
        ≡ (if holds v a && not (cut ps pe a) then some v.flags else flags_at rest a)
  unfolding carve flags_at
  carve-flags v rest a = ground arith

  module _ {S : Type 0} (release : ℕ → S → S) where
    destroy_loop-Ordered :
        (ok : Vma → Bool) (vs : List Vma) (lo : ℕ) (s : S)
        → Ordered lo vs
        → Ordered lo (destroy_loop release ok ps pe vs s).0
    unfolding destroy_loop
    destroy_loop-Ordered ok [] lo s o = tt
    destroy_loop-Ordered ok (v ∷ vs) lo s o =
        carve-Ordered (ok v) v _ lo o.0 o.1 (destroy_loop-Ordered ok vs v.end _ o.2)

    destroy_loop-flags :
        (vs : List Vma) (lo a : ℕ) (s : S)
        → Ordered lo vs
        → flags_at (destroy_loop release (λ _. true) ps pe vs s).0 a
          ≡ (if cut ps pe a then none else flags_at vs a)
    unfolding destroy_loop flags_at
    destroy_loop-flags [] lo a s o = ground arith
    destroy_loop-flags (v ∷ vs) lo a s o = ground (
      arith,
      carve-flags v (destroy_loop release (λ _. true) ps pe vs (release_part release ps pe v s)).0
          a,
      destroy_loop-flags vs v.end a (release_part release ps pe v s) o.2,
    )

-- The pages released, latest first, and how often a page is among them.
abbrev pub log : ℕ → List ℕ → List ℕ
log a s = a ∷ s

unfoldable pub times : ℕ → List ℕ → ℕ
times a [] = 0
times a (x ∷ xs) = times a xs + (if x == a then 1 else 0)

times-release_pages :
    (n from a : ℕ) (s : List ℕ)
    → from % page_size ≡ 0
    → a % page_size ≡ 0
    → times a (release_pages log n from s)
      ≡ times a s + (if leb from a && ltb a (from + page_size * n) then 1 else 0)
unfolding release_pages times
times-release_pages zero from a s e f = ground arith
times-release_pages (suc n) from a s e f =
    ground (arith, times-release_pages n (from + page_size) a (from ∷ s))

times-range :
    (from to a : ℕ) (s : List ℕ)
    → from % page_size ≡ 0
    → to % page_size ≡ 0
    → a % page_size ≡ 0
    → from ≤ to
    → times a (release_pages log ((to + 4095 - from) / page_size) from s)
      ≡ times a s + (if leb from a && ltb a to then 1 else 0)
times-range from to a s e f g h =
    times-release_pages ((to + 4095 - from) / page_size) from a s e g
    ∙ ap (λ t. times a s + (if leb from a && ltb a t then 1 else 0)) whole
  where
    whole : from + page_size * ((to + 4095 - from) / page_size) ≡ to
    whole = omega arith

module _ (ps pe : ℕ) (aligned : (ps % page_size ≡ 0) × (pe % page_size ≡ 0) × (ps ≤ pe)) where
  times-release_part :
      (v : Vma) (a : ℕ) (s : List ℕ)
      → Area v
      → a % page_size ≡ 0
      → times a (release_part log ps pe v s)
        ≡ times a s + (if holds v a && cut ps pe a then 1 else 0)
  unfolding release_part
  times-release_part v a s area e = elim (Bool-cases (ltb ps v.end && ltb v.start pe)) [
    | inr apart ↦ rw apart (ground arith)
    | inl meet ↦ rw meet (elim (Bool-cases (ltb ps v.start)) [
      | inl inside ↦ rw inside (elim (Bool-cases (ltb v.end pe)) [
        | inl ends ↦ rw ends (ground (arith, times-range v.start v.end a s))
        | inr goes_on ↦ rw goes_on (ground (arith, times-range v.start pe a s))
      ])
      | inr before ↦ rw before (elim (Bool-cases (ltb v.end pe)) [
        | inl ends ↦ rw ends (ground (arith, times-range ps v.end a s))
        | inr goes_on ↦ rw goes_on (ground (arith, times-range ps pe a s))
      ])
    ])
  ]

  times-destroy_loop :
      (ok : Vma → Bool) (vs : List Vma) (lo a : ℕ) (s : List ℕ)
      → Ordered lo vs
      → a % page_size ≡ 0
      → times a (destroy_loop log ok ps pe vs s).1
        ≡ times a s + (if cut ps pe a then elim (flags_at vs a) [ none ↦ 0 | some f ↦ 1 ] else 0)
  unfolding destroy_loop flags_at
  times-destroy_loop ok [] lo a s o e = ground arith
  times-destroy_loop ok (v ∷ vs) lo a s o e = ground (
    arith,
    times-release_part v a s o.1 e,
    flags-below vs v.end a o.2,
    times-destroy_loop ok vs v.end a (release_part log ps pe v s) o.2 e,
  )

range-bounds :
    (start size : ℕ)
    → start + size + page_size ≤ 2 ^ 64
    → (page_start_of start % page_size ≡ 0)
      × (page_end_of start size % page_size ≡ 0)
      × (page_start_of start ≤ page_end_of start size)
range-bounds start size fits = omega arith

module _ (vs : List Vma) (o : Ordered 0 vs) (start size : ℕ)
    (fits : start + size + page_size ≤ 2 ^ 64) (nonempty : size ≢ 0) where
  nonzero : (size == 0) ≡ false
  nonzero = ground arith

  -- `vmaDestroy` on a range that is not empty and does not wrap returns 0 and leaves an ordered
  -- list, whichever of its `kmalloc` fail.
  pub vma_destroy-Ordered :
      {S : Type 0} (release : ℕ → S → S) (ok : Vma → Bool) (s : S)
      → (r : List Vma × S) × (vma_destroy release ok vs start size s ≡ some r) × Ordered 0 r.0
  unfolding vma_destroy
  vma_destroy-Ordered release ok s = (
    destroy_loop release ok (page_start_of start) (page_end_of start size) vs s,
    rw nonzero refl,
    destroy_loop-Ordered _ _ (range-bounds start size fits) release ok vs 0 s o,
  )

  -- `vmaDestroy` on a range that is not empty and does not wrap, with every `kmalloc` successful:
  -- it returns 0, no address on the pages of the range is in an area, every other address is in an
  -- area as before, and of the pages of the range exactly those in an area are released, once each.
  pub vma_destroy_lem :
      (r : List Vma × List ℕ) × (vma_destroy log (λ _. true) vs start size [] ≡ some r)
      × ((a : ℕ)
          → flags_at r.0 a ≡ (
              if cut (page_start_of start) (page_end_of start size) a then none else flags_at vs a))
      × ((a : ℕ)
          → a % page_size ≡ 0
          → times a r.1 ≡ (
              if cut (page_start_of start) (page_end_of start size) a
              then elim (flags_at vs a) [ none ↦ 0 | some f ↦ 1 ]
              else 0))
  unfolding vma_destroy times
  vma_destroy_lem = (
    destroy_loop log (λ _. true) (page_start_of start) (page_end_of start size) vs [],
    rw nonzero,
    λ a. destroy_loop-flags _ _ (range-bounds start size fits) log vs 0 a [] o,
    λ a e.
        times-destroy_loop _ _ (range-bounds start size fits) (λ _. true) vs 0 a [] o e
        ∙ omega arith,
  )
