-- ===== src/Heap/Kmalloc/Resize.antt =====
-- What `krealloc` does to a block in use.
use nova_os.Base.{
  ℕ, Option, none, some, page_size, ◌*◌, ◌+◌, ◌^◌, ◌≤◌, ◌<◌, ◌≡◌, ◌≢◌, ◌⊎◌, Bool, ◌∷◌, ◌++◌,
  page_down,
}
use nova_os.String.{Memory, copy_bytes}
use nova_os.Heap.Kmalloc.{Heap, kmalloc}
use nova_os.Heap.Kmalloc.Valid.{Blocks, Fits, IsValid}
use nova_os.Heap.Kmalloc.Free.{GivesBack}
use nova_os.Heap.Kmalloc.Placed.{Reenters}

-- The block at `x` has become the one at `y`, and its first bytes are the same. Or the call goes into another one: that for
-- the new block does, or the release of the old one.
abbrev pub Resized :
    (ℕ → Bool) → ℕ → ℕ → Heap → Blocks → ℕ → Memory → Option (ℕ × Heap × Memory) → Type 0
Resized maps x n h others size m none =
    Reenters maps h.pages
    ⊎ ((y : ℕ) × (k : Heap) × (kmalloc maps size h ≡ some (y, k))
        × GivesBack k (k.header (page_down x)))
Resized maps x n h others size m (some (y, k, m')) =
    (y ≢ 0) × IsValid k ((y, size) ∷ others) × ((i : ℕ) → i < n → m' (y + i) ≡ m (x + i))

module _ {h : Heap} (xs ys : Blocks) (x n : ℕ) (o : IsValid h (xs ++ ((x, n) ∷ ys))) where
  abbrev before : Blocks
  before = xs ++ ((x, n) ∷ ys)

  abbrev page : ℕ
  page = page_down x

module _ {h : Heap} (xs ys : Blocks) (x n : ℕ) (o : IsValid h (xs ++ ((x, n) ∷ ys))) where
  module _ (maps : ℕ → Bool) (size : ℕ) (small : size < 2 ^ 43) (pos : 0 < size)
      (reach : h.pages.cursor + size + 2 * page_size < 2 ^ 64) (m : Memory) (old : ℕ)
      (holds : n ≤ old) (f : Fits x old (h.header (page_down x))) where
    freed_block : ℕ → Option Heap → Option (ℕ × Heap × Memory)
    freed_block y r = elim r [ none ↦ none | some k ↦ some (y, k, copy_bytes old y x m) ]
