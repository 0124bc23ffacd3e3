-- ===== src/Files/Seek.antt =====
-- `sysLseek`.
use nova_os.Base.{
  ℕ, ◌^◌, ◌≤◌, ◌<◌, ◌≡◌, refl, ap, ◌≢◌, inl, inr, true, false, some, arith, ltb, ltb→lt, Bool-cases,
  Option-cases, length,
}
use nova_os.Slots.{slot, slot-set_self, slot-set_ne, slot-past}
use nova_os.Files.{
  FileHandle, FileTable, Answer, Whence, gives, fails, standard, negative, target, seek, sys_lseek,
}
use nova_os.Files.Open.{Same}

-- A call that fails leaves the table; one that gives an offset has put just this one, which is not negative,
-- in the handle.
pub Sought : ℕ → FileHandle → FileTable → Answer → FileTable → Type 0
Sought fd fh hs (fails c) hs' = Same hs hs'
Sought fd fh hs (gives to) hs' =
    (to < 2 ^ 63)
    × (slot hs' fd ≡ some (record fh { offset = to }))
    × ((i : ℕ) → fd ≢ i → slot hs' i ≡ slot hs i)

-- For an open descriptor, `sysLseek` either fails and leaves every handle, or gives an offset that is not
-- negative and has become the offset of this handle, the only one to change; and it succeeds exactly
-- where the offset that it is to reach is defined and not negative.
pub sys_lseek-Sought :
    (fd offset : ℕ) (whence : Whence) (hs : FileTable) (fh : FileHandle)
    → 3 ≤ fd
    → fd < 2 ^ 63
    → slot hs fd ≡ some fh
    → Sought fd fh hs (sys_lseek true fd offset whence hs).0 (sys_lseek true fd offset whence hs).1
      × ((to : ℕ)
          → target whence offset fh ≡ some to
          → to < 2 ^ 63
          → (sys_lseek true fd offset whence hs).0 ≡ gives to)
unfolding sys_lseek seek Sought
sys_lseek-Sought fd offset whence hs fh low small held =
    rw (usable, held)
      (elim (Option-cases (target whence offset fh)) [
        | inl e ↦ rw (seek, e) (λ i. refl, λ to q lt. absurd (ground (arith, q)))
        | inr (to, e) ↦
            rw (seek, e)
              (elim (Bool-cases (negative to)) [
                | inl n ↦ rw n (λ i. refl, λ to' q lt. absurd (ground (arith, q, n, lt)))
                | inr n ↦ rw n (
                  (
                    ground (arith, n),
                    slot-set_self hs fd _ inside,
                    λ i ne. slot-set_ne hs fd i _ ne,
                  ),
                  λ to' q lt. ap gives (ground (arith, q)),
                )
              ])
      ])
  where
    usable : standard fd ≡ false
    usable = ground arith

    inside : fd < length hs
    inside = elim (Bool-cases (ltb fd (length hs))) [
      | inl e ↦ ltb→lt fd (length hs) e
      | inr e ↦ absurd (ground (arith, slot-past hs fd (ground (arith, e)), held))
    ]
