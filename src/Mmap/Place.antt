-- ===== src/Mmap/Place.antt =====
-- The search of `sysMmap` for an address: it ends, and what it finds is free.
use nova_os.Base.{
  ℕ, zero, suc, ◌+◌, ◌≤◌, ◌<◌, ◌≡◌, refl, ap, ◌≢◌, ◌⊎◌, inl, inr, true, ◌&&◌, Option, none, some,
  List, [], ◌∷◌, arith, ltb, ltb→lt, Bool-cases, Option-cases, length, page_up,
}
use nova_os.Vma.{Vma, overlaps_any}
use nova_os.Vma.Order.{Area, Ordered, flags_at}
use nova_os.Vma.Create.{overlaps_any-true}
use nova_os.Vma.Validate.{above, above-le, above_mono}
use nova_os.Mmap.{collision, at, no_space, stack_floor, place_loop, place, user_mmap_base}

some_inj : {a b : ℕ} → ◌≡◌ {A = Option ℕ} (some a) (some b) → a ≡ b
some_inj {a} e = ap (λ (x : Option ℕ). elim x [ none ↦ a | some y ↦ y ]) e

-- A collision moves the search past an area.
collision-above :
    (t len lo : ℕ) (vs : List Vma) (u : ℕ)
    → Ordered lo vs
    → collision t len vs ≡ some u
    → (t < u) × (above vs u < above vs t)
unfolding collision above
collision-above t len lo [] u o e = cc
collision-above t len lo (v ∷ vs) u o e = elim (Bool-cases (ltb t v.end && ltb v.start (t + len))) [
  | inl hit ↦
      let is : page_up v.end ≡ u = some_inj (rw hit at e) in
      ground (arith, is, above_mono vs t u, end_aligned o.1)
  | inr miss ↦ let r = collision-above t len v.end vs u o.2 (rw miss at e) in ground (arith, r)
]
  where
    end_aligned : Area v → page_up v.end ≡ v.end
    end_aligned area = omega (arith, area)

collision-none :
    (t len : ℕ) (vs : List Vma) (a : ℕ)
    → collision t len vs ≡ none
    → t ≤ a
    → a < t + len
    → flags_at vs a ≡ none
unfolding collision flags_at
collision-none t len [] a e lo hi = refl
collision-none t len (v ∷ vs) a e lo hi = ground (arith, e, collision-none t len vs a)

-- Every range that starts between a collision and the end of its area meets that area.
collision-meets :
    (t len lo : ℕ) (vs : List Vma) (u t' : ℕ)
    → Ordered lo vs
    → collision t len vs ≡ some u
    → t ≤ t'
    → t' < u
    → overlaps_any t' (t' + len) vs ≡ true
unfolding collision overlaps_any
collision-meets t len lo [] u t' o e h k = cc
collision-meets t len lo (v ∷ vs) u t' o e h k =
    elim (Bool-cases (ltb t v.end && ltb v.start (t + len))) [
      | inl hit ↦
          let is : page_up v.end ≡ u = some_inj (rw hit at e) in ground (arith, is, end_aligned o.1)
      | inr miss ↦
          let r = collision-meets t len v.end vs u t' o.2 (rw miss at e) h k in ground (arith, r)
    ]
  where
    end_aligned : Area v → page_up v.end ≡ v.end
    end_aligned area = omega (arith, area)

-- A range of `len` bytes at `t` is free, on a page and below the stack.
abbrev pub Fits : List Vma → ℕ → ℕ → Type 0
Fits vs len t =
    (user_mmap_base ≤ t)
    × (t + len < stack_floor)
    × ((a : ℕ) → t ≤ a → a < t + len → flags_at vs a ≡ none)

-- An address of a range lies in an area.
abbrev pub Taken : List Vma → ℕ → ℕ → Type 0
Taken vs len t = (a : ℕ) × (t ≤ a) × (a < t + len) × (flags_at vs a ≢ none)

module _ (vs : List Vma) (o : Ordered 0 vs) (len : ℕ) (pos : 0 < len) where
  place_loop_lem :
      (k t : ℕ)
      → above vs t < k
      → user_mmap_base ≤ t
      → ((t' : ℕ) → user_mmap_base ≤ t' → t' < t → Taken vs len t')
      → ((t' : ℕ) × (place_loop k vs len t ≡ at t') × Fits vs len t')
        ⊎ ((place_loop k vs len t ≡ no_space)
            × ((t' : ℕ) → user_mmap_base ≤ t' → t' + len < stack_floor → Taken vs len t'))
  unfolding place_loop
  place_loop_lem zero t h lo seen = absurd (omega arith)
  place_loop_lem (suc k) t h lo seen = elim (Bool-cases (ltb (t + len) stack_floor)) [
    | inr high ↦ rw high (inr (refl, λ t' l s. seen t' l (ground arith)))
    | inl low ↦ rw low (elim (Option-cases (collision t len vs)) [
      | inl none' ↦
          rw none'
            (inl (t, refl, (lo, ltb→lt _ _ low, λ a p q. collision-none t len vs a none' p q)))
      | inr (u, hit) ↦
          let (up, fewer) = collision-above t len 0 vs u o hit in
          rw hit (
            place_loop_lem k u (omega arith) (omega arith) (λ t' l s. elim (Bool-cases (ltb t' t)) [
              | inl before ↦ seen t' l (ltb→lt _ _ before)
              | inr after ↦
                  overlaps_any-true t' (t' + len) vs 0 o (omega arith)
                    (collision-meets t len 0 vs u t' o hit (ground arith) s)
            ]))
    ])
  ]

  -- The search of `sysMmap` over an ordered list of areas ends. Either it finds a free range from
  -- `USER_MMAP_BASE` on and below the stack; or it gives up, and no range there is free.
  pub place_lem :
      ((t : ℕ) × (place vs len ≡ at t) × Fits vs len t)
      ⊎ ((place vs len ≡ no_space)
          × ((t : ℕ) → user_mmap_base ≤ t → t + len < stack_floor → Taken vs len t))
  place_lem =
      place_loop_lem (length vs + 1) user_mmap_base (omega (arith, above-le vs user_mmap_base))
        (omega arith) (λ t l s. absurd (omega arith))
