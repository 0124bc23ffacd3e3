-- ===== src/Heap/Kmalloc/Run.antt =====
-- Runs of the heap: clients allocate and free blocks in any order, by calls that do not go into other ones.
use nova_os.Base.{
  ℕ, some, ◌+◌, ◌*◌, page_size, ◌^◌, ◌<◌, ◌≡◌, refl, ◌≢◌, inl, inr, Bool, false, [], ◌∷◌, ◌++◌,
  arith, ◌==◌, if◌then◌else◌, Bool-cases,
}
use nova_os.Heap.Ranges.{Apart, covers}
use nova_os.Heap.Kmalloc.{Heap, heap_init, kmalloc, kfree}
use nova_os.Heap.Kmalloc.Placed.{Aligned}
use nova_os.Heap.Kmalloc.Valid.{Blocks, Fitting, live_on, Apart2, IsValid, blocks-Apart}
use nova_os.Heap.Kmalloc.Objects.{count}
use mathlib.Core.Path.{subst}
use nova_os.Heap.Kmalloc.Slabs.{Followed}
use nova_os.Heap.Kmalloc.Alloc.{kmalloc-Allocated}
use nova_os.Heap.Kmalloc.Free.{Freed, kfree-Valid}

-- A call of a client that does not go into another one: an allocation, the block of which is in use where it is not
-- `NULL`, or the release of a block in use.
pub data Step (h : Heap) (bs : Blocks) (k : Heap) (cs : Blocks) : Type 0 where
  alloc :
      (maps : ℕ → Bool) (size x : ℕ)
      → size < 2 ^ 43
      → h.pages.cursor + size + 2 * page_size < 2 ^ 64
      → kmalloc maps size h ≡ some (x, k)
      → cs ≡ (if x == 0 then bs else (x, size) ∷ bs)
      → Step h bs k cs
  free :
      (xs ys : Blocks) (x n : ℕ)
      → bs ≡ xs ++ ((x, n) ∷ ys)
      → kfree x h ≡ some k
      → cs ≡ xs ++ ys
      → Step h bs k cs

pub data Run : Heap → Blocks → Type 0 where
  started : Run heap_init []
  next : {h k : Heap} {bs cs : Blocks} → Run h bs → Step h bs k cs → Run k cs

heap_init-Valid : IsValid heap_init []
unfolding count live_on Fitting covers Apart Aligned
heap_init-Valid = record {
  headers = λ p. refl;
  linked = λ c p k. absurd (omega (arith, k));
  placed = record {
    apart = λ p q a h k. ground (arith, h);
    unfree = λ p a h. refl;
    below = λ p a h. ground (arith, h);
    above = λ p h. ground (arith, h);
    aligned = λ p h. ground (arith, h);
    ranges = tt;
    ranges_below = λ a h. ground (arith, h);
    ranges_aligned = tt;
    cursor_aligned = omega arith;
    cursor_above = omega arith;
  };
  fitting = tt;
}

not_null : (x : ℕ) → x ≢ 0 → (x == 0) ≡ false
not_null x z = elim (Bool-cases (x == 0)) [ inl e ↦ absurd (z (ground (arith, e))) | inr e ↦ e ]

Step-Valid : {h k : Heap} {bs cs : Blocks} → Step h bs k cs → IsValid h bs → IsValid k cs
Step-Valid {h} {k} {bs} (alloc maps size x small reach e f) o =
    elim (subst (Followed maps size h bs) e (kmalloc-Allocated o maps size small reach)) [
      | inl (z, why, v) ↦ rw f (rw z v)
      | inr (z, v) ↦ rw f (rw (not_null x z) v)
    ]
Step-Valid {h} (free xs ys x n b e f) o =
    rw f (subst (Freed h (xs ++ ys) x) e (kfree-Valid xs ys x n (rw b at o)))

pub Run-Valid : {h : Heap} {bs : Blocks} → Run h bs → IsValid h bs
Run-Valid started = heap_init-Valid
Run-Valid (next r s) = Step-Valid s (Run-Valid r)

-- After any calls of `kmalloc`, for less than 2^43 bytes each and with the cursor below 2^64, and `kfree`, for blocks in
-- use, none of which gives back pages, uses up a free range or finds no frame for a page (these call `kmalloc` or `kfree`
-- from within), no two of the blocks in use share a byte of those that were asked for.
pub Run-Apart :
    {h : Heap} (xs ys zs : Blocks) (x n y m : ℕ)
    → Run h (xs ++ ((x, n) ∷ (ys ++ ((y, m) ∷ zs))))
    → Apart2 x n y m
Run-Apart xs ys zs x n y m r = blocks-Apart xs ys zs x n y m (Run-Valid r)
