-- ===== src/Mmap/Unmap.antt =====
-- `sysMunmap` on requests that do not wrap around the address space.
use nova_os.Base.{
  ℕ, ◌+◌, ◌*◌, ◌%◌, ◌^◌, ◌≤◌, ◌≡◌, refl, ◌⊎◌, inl, inr, Bool, true, false, not, ◌&&◌, ◌||◌, List,
  arith, ltb, leb, ◌==◌, Bool-cases, length, add64, page_size,
}
use nova_os.Vma.{Vma, user_space_max}
use nova_os.Vma.Order.{Ordered}
use nova_os.Vma.Destroy.{vma_destroy-Ordered}
use nova_os.Mmap.{success, error, einval, sys_munmap, aligned_len}

-- What a request gets: an error with nothing changed, where the range is empty, not on a page or
-- past the user space; else the success of `vmaDestroy`.
abbrev pub served : ℕ → ℕ → Bool
served addr length =
    (addr % page_size == 0) && not (length == 0) && leb (addr + aligned_len length) user_space_max

-- For a request that does not wrap, on an ordered list, `sysMunmap` succeeds exactly for a range that
-- is not empty, starts on a page and ends in user space; it leaves an ordered list, and the same
-- list where it fails.
pub sys_munmap-Ordered :
    {S : Type 0} (release : ℕ → S → S) (ok : Vma → Bool) (addr length : ℕ) (vs : List Vma) (s : S)
    → Ordered 0 vs
    → addr + length + 2 * page_size ≤ 2 ^ 64
    → let (r, vs', s') = sys_munmap release ok addr length vs s in
      Ordered 0 vs'
      × (((served addr length ≡ true) × (r ≡ success 0))
          ⊎ ((served addr length ≡ false) × (r ≡ error einval) × (vs' ≡ vs)))
unfolding sys_munmap
sys_munmap-Ordered release ok addr length vs s o fits =
    elim (Bool-cases (not (addr % page_size == 0) || (length == 0))) [
      | inl bad ↦ rw bad (o, inr (ground (arith, bad), refl, refl))
      | inr fine ↦
          rw fine (elim (Bool-cases (ltb user_space_max (add64 addr (aligned_len length)))) [
            | inl past ↦ rw past (o, inr (ground (arith, past), refl, refl))
            | inr inside ↦ rw inside (
                let (r, e, ordered) =
                  vma_destroy-Ordered vs o addr (aligned_len length) (omega arith)
                    (ground (arith, fine)) release ok s in
                rw e (ordered, inl (ground (arith, fine, inside), refl)))
          ])
    ]
