-- ===== src/Heap/Slab.antt =====
-- The layout of a slab.
use nova_os.Base.{ℕ, zero, suc, ◌+◌, ◌-◌, ◌*◌, ◌%◌, ◌≤◌, ◌<◌, ◌≡◌, List, [], ◌∷◌, arith, page_size}
use native.Mathlib.Nat.{div-add-mod', div-mul-le_self, mod-lt, suc-mul}
use nova_os.Heap.{header_size, data_start, slab_capacity, objects_from, slab_objects}

-- Objects of `size` bytes from `low` on, one behind the other, that end by `high`.
unfoldable pub Packed : ℕ → ℕ → ℕ → List ℕ → Type 0
Packed size low high [] = Unit
Packed size low high (x ∷ xs) = (low ≤ x) × (x + size ≤ high) × Packed size (x + size) high xs

objects_from-Packed :
    (n size low a high : ℕ)
    → low ≤ a
    → a + n * size ≤ high
    → Packed size low high (objects_from n size a)
unfolding objects_from Packed
objects_from-Packed zero size low a high l h = tt
objects_from-Packed (suc n) size low a high l h = (
  l,
  omega (arith, h, suc-mul n size),
  objects_from-Packed n size (a + size) (a + size) high (omega arith)
      (omega (arith, h, suc-mul n size)),
)

-- The objects of a new slab, of any size up to 2048 bytes, lie behind its header and inside of its page, and no
-- two of them share a byte.
pub slab_objects-Packed :
    (page size : ℕ)
    → 0 < size
    → size ≤ 2048
    → Packed size (page + header_size) (page + page_size) (slab_objects page size)
unfolding slab_capacity
slab_objects-Packed page size h k =
    objects_from-Packed (slab_capacity page size) size (page + header_size) (data_start page size)
      (page + page_size) behind_header
      (omega (
        arith,
        rounded,
        k,
        h,
        behind_header,
        div-mul-le_self (page_size - (data_start page size - page)) size,
      ))
  where
    rounded :
        data_start page size + (page + header_size + size - 1) % size
        ≡ page + header_size + size - 1
    rounded = div-add-mod' (page + header_size + size - 1) size

    behind_header : page + header_size ≤ data_start page size
    behind_header = omega (arith, rounded, h, mod-lt (page + header_size + size - 1) h)
