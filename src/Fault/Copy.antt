-- ===== src/Fault/Copy.antt =====
-- Copies from and to user space.
use nova_os.Base.{
  ℕ, ◌+◌, ◌^◌, ◌≤◌, ◌<◌, ◌≡◌, refl, ◌≢◌, ◌⊎◌, inl, inr, Bool, true, false, Option, some, List,
  arith, ◌==◌, Bool-cases,
}
use nova_os.String.{Memory}
use nova_os.String.Copy.{Forward, copied, memcpy-copied}
use nova_os.Vma.{Vma, user_space_max}
use nova_os.Vma.Order.{Ordered}
use nova_os.Vma.Validate.{Allowed, Denied, validate_user_range_lem}
use nova_os.Fault.{copy_from_user, copy_to_user}

-- The range may be used: it is empty, or each of its bytes is in an area that allows the access.
abbrev Usable : List Vma → Bool → ℕ → ℕ → Type 0
Usable vs write start size =
    (size ≡ 0) ⊎ ((start ≢ 0) × (start + size ≤ user_space_max) × Allowed vs write start size)

abbrev Barred : List Vma → Bool → ℕ → ℕ → Type 0
Barred vs write start size =
    (size ≢ 0) × ((start ≡ 0) ⊎ ((user_space_max < start + size) ⊎ Denied vs write start size))

-- All is copied, or nothing.
abbrev pub Transferred : List Vma → Bool → ℕ → ℕ → ℕ → ℕ → Memory → Option (Bool × Memory) → Type 0
Transferred vs write user dst src n m r =
    (Usable vs write user n
      × ((m' : Memory) × (r ≡ some (true, m')) × ((x : ℕ) → m' x ≡ copied dst src n m x)))
    ⊎ (Barred vs write user n × (r ≡ some (false, m)))

module _ (vs : List Vma) (dst src n : ℕ) (m : Memory) (o : Ordered 0 vs)
    (small_n : n < 2 ^ 64) where
  empty-copied : (x : ℕ) → n ≡ 0 → m x ≡ copied dst src n m x
  unfolding copied
  empty-copied x e = ground (arith, e)

  -- On an ordered list of areas, `copyFromUser` always answers. It returns 0 exactly where the source is empty or a
  -- range of user space, not at `NULL`, every byte of which may be read, and has then copied all bytes, for a
  -- target that starts below the source or past its end; else it returns -14 and has written nothing.
  pub copy_from_user-Transferred :
      src < 2 ^ 64
      → Forward dst src n
      → Transferred vs false src dst src n m (copy_from_user vs dst src n m)
  unfolding copy_from_user
  copy_from_user-Transferred small f = elim (Bool-cases (n == 0)) [
    | inl z ↦
        rw (copy_from_user, z)
          (inl (inl (ground (arith, z)), (m, refl, λ x. empty-copied x (ground (arith, z)))))
    | inr z ↦ elim (validate_user_range_lem vs src n false o small small_n) [
      | inl (e, h) ↦
          rw (copy_from_user, z) (rw e (inl (h, (_, refl, λ x. memcpy-copied dst src n m x f))))
      | inr (e, ne, h) ↦ rw (copy_from_user, z) (rw e (inr ((ne, h), refl)))
    ]
  ]

  -- On an ordered list of areas, `copyToUser` always answers. It returns 0 exactly where the target is empty or a
  -- range of user space, not at `NULL`, every byte of which may be written, and has then copied all bytes, for a
  -- target that starts below the source or past its end; else it returns -14 and has written nothing.
  pub copy_to_user-Transferred :
      dst < 2 ^ 64
      → Forward dst src n
      → Transferred vs true dst dst src n m (copy_to_user vs dst src n m)
  unfolding copy_to_user
  copy_to_user-Transferred small f = elim (Bool-cases (n == 0)) [
    | inl z ↦
        rw (copy_to_user, z)
          (inl (inl (ground (arith, z)), (m, refl, λ x. empty-copied x (ground (arith, z)))))
    | inr z ↦ elim (validate_user_range_lem vs dst n true o small small_n) [
      | inl (e, h) ↦
          rw (copy_to_user, z) (rw e (inl (h, (_, refl, λ x. memcpy-copied dst src n m x f))))
      | inr (e, ne, h) ↦ rw (copy_to_user, z) (rw e (inr ((ne, h), refl)))
    ]
  ]
