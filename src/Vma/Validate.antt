-- ===== src/Vma/Validate.antt =====
-- `validateUserRange`: its loop ends, and it accepts exactly the ranges whose every byte may be
-- accessed.
use nova_os.Base.{
  ℕ, zero, suc, ◌+◌, ◌/◌, ◌^◌, ◌≤◌, ◌<◌, max, ◌≡◌, refl, ap, ◌∙◌, ◌≢◌, ◌⊎◌, inl, inr, Bool, true,
  false, ◌||◌, Option, none, some, List, [], ◌∷◌, arith, ltb, ◌==◌, if◌then◌else◌, Bool-cases,
  Option-cases, length, add64, sub64, page_size, page_down,
}
use nova_os.Vma.{Vma, user_space_max, holds, vma_find, allows, validate_loop, validate_user_range}
use nova_os.Vma.Order.{Ordered, find-same, find-holds}

-- The access to a byte is allowed.
unfoldable pub permitted : List Vma → Bool → ℕ → Bool
permitted vs write a = elim (vma_find vs a) [ none ↦ false | some v ↦ allows write v ]

-- How many areas end above an address: it falls from round to round.
unfoldable pub above : List Vma → ℕ → ℕ
above [] a = 0
above (v ∷ vs) a = above vs a + (if ltb a v.end then 1 else 0)

pub above-le : (vs : List Vma) (a : ℕ) → above vs a ≤ length vs
unfolding above
above-le [] a = omega arith
above-le (v ∷ vs) a = ground (arith, above-le vs a)

pub above_mono : (vs : List Vma) (a b : ℕ) → a ≤ b → above vs b ≤ above vs a
unfolding above
above_mono [] a b h = omega arith
above_mono (v ∷ vs) a b h = ground (arith, above_mono vs a b h)

above-falls :
    (vs : List Vma) (a : ℕ) (v : Vma) → vma_find vs a ≡ some v → above vs v.end < above vs a
unfolding above vma_find
above-falls [] a v e = cc
above-falls (x ∷ vs) a v e = elim (Bool-cases (holds x a)) [
  | inl here ↦ ground (arith, above_mono vs a x.end)
  | inr past ↦
      let r = above-falls vs a v (rw (past, vma_find) at e) in ground (arith, find-holds vs a v)
]

module _ (vs : List Vma) (o : Ordered 0 vs) (write : Bool) (pe : ℕ) where
  validate_loop-true :
      (k cur a : ℕ)
      → validate_loop vs write k pe cur ≡ some true
      → cur ≤ a
      → a < pe
      → permitted vs write a ≡ true
  unfolding validate_loop permitted
  validate_loop-true zero cur a e lo hi = cc
  validate_loop-true (suc k) cur a e lo hi = elim (Option-cases (vma_find vs cur)) [
    | inl hole ↦ ground arith
    | inr (v, found) ↦ elim (Bool-cases (ltb a v.end)) [
      | inl here ↦
          rw (find-same vs 0 cur a v o found (ground (arith, find-holds vs cur v)), permitted)
            (ground arith)
      | inr past ↦ validate_loop-true k v.end a (ground arith) (ground arith) hi
    ]
  ]

  validate_loop-false :
      (k cur : ℕ)
      → validate_loop vs write k pe cur ≡ some false
      → (a : ℕ) × (cur ≤ a) × (a < pe) × (permitted vs write a ≡ false)
  unfolding validate_loop permitted
  validate_loop-false zero cur e = cc
  validate_loop-false (suc k) cur e = elim (Option-cases (vma_find vs cur)) [
    | inl hole ↦ (cur, omega arith, ground arith, rw (hole, permitted))
    | inr (v, found) ↦ elim (Bool-cases (allows write v)) [
      | inr denied ↦ (cur, omega arith, ground arith, rw (found, permitted) denied)
      | inl allowed ↦
          let (a, lo, hi, bad) = validate_loop-false k v.end (ground arith) in
          (a, ground (arith, find-holds vs cur v), hi, bad)
    ]
  ]

  validate_loop-total :
      (k cur : ℕ) → above vs cur < k → (r : Bool) × (validate_loop vs write k pe cur ≡ some r)
  unfolding validate_loop
  validate_loop-total zero cur h = absurd (omega arith)
  validate_loop-total (suc k) cur h = elim (Bool-cases (ltb cur pe)) [
    | inr done ↦ (true, rw done)
    | inl more ↦ rw more (elim (Option-cases (vma_find vs cur)) [
      | inl hole ↦ (false, rw hole)
      | inr (v, found) ↦ rw found (elim (Bool-cases (allows write v)) [
        | inr denied ↦ (false, rw denied)
        | inl allowed ↦
            rw allowed (validate_loop-total k v.end (omega (arith, above-falls vs cur v found)))
      ])
    ])
  ]

-- Areas consist of whole pages, so all bytes of a page are alike.
find-page :
    (vs : List Vma) (lo a b : ℕ)
    → Ordered lo vs
    → a / page_size ≡ b / page_size
    → vma_find vs a ≡ vma_find vs b
unfolding vma_find
find-page [] lo a b o e = refl
find-page (v ∷ vs) lo a b o e = ground (arith, find-page vs v.end a b o.2)

permitted-page :
    (vs : List Vma) (write : Bool) (a b : ℕ)
    → Ordered 0 vs
    → a / page_size ≡ b / page_size
    → permitted vs write a ≡ permitted vs write b
unfolding permitted
permitted-page vs write a b o e =
    ap (λ r. elim r [ none ↦ false | some v ↦ allows write v ]) (find-page vs 0 a b o e)

-- A byte of the range that may not be accessed.
abbrev pub Denied : List Vma → Bool → ℕ → ℕ → Type 0
Denied vs write start size =
    (a : ℕ) × (start ≤ a) × (a < start + size) × (permitted vs write a ≡ false)

-- The loop over the pages of a range of user space.
validate_pages :
    (vs : List Vma) (start size : ℕ) (write : Bool)
    → Ordered 0 vs
    → size ≢ 0
    → start + size ≤ user_space_max
    → let r =
        validate_loop vs write
          (length vs + 1)
          (page_down (sub64 (add64 (add64 start size) page_size) 1))
          (page_down start) in
      ((r ≡ some true) × ((a : ℕ) → start ≤ a → a < start + size → permitted vs write a ≡ true))
      ⊎ ((r ≡ some false) × Denied vs write start size)
validate_pages vs start size write o ne fits = go (
    validate_loop-total vs o write pe (length vs + 1) (page_down start)
      (omega (arith, above-le vs (page_down start))))
  where
    pe : ℕ
    pe = page_down (sub64 (add64 (add64 start size) page_size) 1)

    r : Option Bool
    r = validate_loop vs write (length vs + 1) pe (page_down start)

    go :
        (b : Bool) × (r ≡ some b)
        → ((r ≡ some true) × ((a : ℕ) → start ≤ a → a < start + size → permitted vs write a ≡ true))
          ⊎ ((r ≡ some false) × Denied vs write start size)
    go (true, e) = inl (
      e,
      λ a lo hi.
          validate_loop-true vs o write pe (length vs + 1) (page_down start) a e (omega arith)
            (omega arith),
    )
    go (false, e) =
        let (c, lo, hi, bad) =
          validate_loop-false vs o write pe (length vs + 1) (page_down start) e in
        inr (
          e,
          (
            max (page_down c) start,
            omega arith,
            omega arith,
            permitted-page vs write (max (page_down c) start) c o (omega arith) ∙ bad,
          ),
        )

-- Every byte of the range may be accessed.
abbrev pub Allowed : List Vma → Bool → ℕ → ℕ → Type 0
Allowed vs write start size = (a : ℕ) → start ≤ a → a < start + size → permitted vs write a ≡ true

-- `validateUserRange` always answers. It accepts exactly the empty range, and the ranges of user
-- space, not at `NULL`, every byte of which lies in a user area that allows the access.
pub validate_user_range_lem :
    (vs : List Vma) (start size : ℕ) (write : Bool)
    → Ordered 0 vs
    → start < 2 ^ 64
    → size < 2 ^ 64
    → ((validate_user_range vs start size write ≡ some true)
        × ((size ≡ 0)
            ⊎ (start ≢ 0) × (start + size ≤ user_space_max) × Allowed vs write start size))
      ⊎ ((validate_user_range vs start size write ≡ some false)
          × (size ≢ 0)
          × ((start ≡ 0) ⊎ (user_space_max < start + size) ⊎ Denied vs write start size))
unfolding validate_user_range
validate_user_range_lem vs start size write o ws wz = elim (Bool-cases (size == 0)) [
  | inl empty ↦ rw empty (inl (refl, inl (ground arith)))
  | inr full ↦ rw full (elim (Bool-cases (start == 0)) [
    | inl null ↦ rw null (inr (refl, ground arith, inl (ground arith)))
    | inr there ↦
        rw there
          (elim (Bool-cases
            (ltb (add64 start size) start || ltb user_space_max (add64 start size))) [
              | inl out ↦ rw out (inr (refl, ground arith, inr (inl (ground arith))))
              | inr in' ↦
                  rw in'
                    (elim (validate_pages vs start size write o (ground arith) (ground arith)) [
                      | inl (e, all) ↦ inl (e, inr (ground arith, ground arith, all))
                      | inr (e, bad) ↦ inr (e, ground arith, inr (inr bad))
                    ])
            ])
  ])
]
