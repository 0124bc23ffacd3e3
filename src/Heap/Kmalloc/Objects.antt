-- ===== src/Heap/Kmalloc/Objects.antt =====
-- The objects of a slab, counted.
use nova_os.Base.{
  ℕ, zero, suc, ◌+◌, ◌-◌, ◌%◌, ◌≤◌, ◌<◌, ◌≡◌, refl, ap, ◌⊎◌, inl, inr, none, some, List, [], ◌∷◌,
  arith, ltb, ◌==◌, if◌then◌else◌, Bool-cases, Option-cases, length, page_size,
}
use native.Mathlib.Nat.{div-le_self}
use nova_os.Heap.{
  header_size, size_classes, size_class, class_from, data_start, slab_capacity, objects_from,
  slab_objects,
}
use nova_os.Heap.Slab.{Packed, slab_objects-Packed}

unfoldable pub count : List ℕ → ℕ → ℕ
count [] x = 0
count (y ∷ ys) x = (if y == x then 1 else 0) + count ys x

-- One of the sizes.
pub OneOf : ℕ → List ℕ → Type 0
OneOf c [] = ⊥
OneOf c (d ∷ ds) = (c ≡ d) ⊎ OneOf c ds

class_from-OneOf :
    (cs : List ℕ) (size c : ℕ) → class_from cs size ≡ some c → OneOf c cs × (size ≤ c)
unfolding class_from OneOf
class_from-OneOf [] size c e = absurd (ground (arith, e))
class_from-OneOf (d ∷ ds) size c e = elim (Bool-cases (ltb d size)) [
  | inl l ↦ let r = class_from-OneOf ds size c (rw l at e) in (inr r.0, r.1)
  | inr l ↦ (inl (ground (arith, e, l)), ground (arith, e, l))
]

class_from-none :
    (cs : List ℕ) (size : ℕ) → class_from cs size ≡ none → (c : ℕ) → OneOf c cs → c < size
unfolding class_from OneOf
class_from-none [] size e c o = absurd o
class_from-none (d ∷ ds) size e c o = elim (Bool-cases (ltb d size)) [
  | inl l ↦ elim o [
    | inl q ↦ ground (arith, q, l)
    | inr q ↦ class_from-none ds size (rw l at e) c q
  ]
  | inr l ↦ absurd (ground (arith, e, l))
]

largest : OneOf 2048 size_classes
unfolding OneOf
largest = inr (inr (inr (inr (inr (inr (inr (inl refl)))))))

-- A size of up to 2048 bytes has a class, which holds it.
pub size_class-Fits :
    (size : ℕ)
    → size ≤ 2048
    → (c : ℕ) × (size_class size ≡ some c) × OneOf c size_classes × (size ≤ c)
size_class-Fits size h = elim (Option-cases (size_class size)) [
  | inl e ↦ absurd (omega (arith, h, class_from-none size_classes size e 2048 largest))
  | inr (c, e) ↦ let (o, l) = class_from-OneOf size_classes size c e in (c, e, o, l)
]

capacity-pos : (page c : ℕ) → page % page_size ≡ 0 → OneOf c size_classes → 0 < slab_capacity page c
unfolding slab_capacity OneOf
capacity-pos page c h (inl e) = rw e (omega (arith, h))
capacity-pos page c h (inr (inl e)) = rw e (omega (arith, h))
capacity-pos page c h (inr (inr (inl e))) = rw e (omega (arith, h))
capacity-pos page c h (inr (inr (inr (inl e)))) = rw e (omega (arith, h))
capacity-pos page c h (inr (inr (inr (inr (inl e))))) = rw e (omega (arith, h))
capacity-pos page c h (inr (inr (inr (inr (inr (inl e)))))) = rw e (omega (arith, h))
capacity-pos page c h (inr (inr (inr (inr (inr (inr (inl e))))))) = rw e (omega (arith, h))
capacity-pos page c h (inr (inr (inr (inr (inr (inr (inr (inl e)))))))) = rw e (omega (arith, h))
capacity-pos page c h (inr (inr (inr (inr (inr (inr (inr (inr e)))))))) = absurd e

pub length-objects_from : (n size a : ℕ) → length (objects_from n size a) ≡ n
unfolding objects_from
length-objects_from zero size a = refl
length-objects_from (suc n) size a = ap suc (length-objects_from n size (a + size))

Packed-count :
    (size low high : ℕ) (xs : List ℕ) (x : ℕ)
    → 0 < size
    → Packed size low high xs
    → (count xs x ≤ 1) × (0 < count xs x → (low ≤ x) × (x + size ≤ high))
unfolding count Packed
Packed-count size low high [] x pos t = (omega arith, λ h. absurd (omega (arith, h)))
Packed-count size low high (y ∷ ys) x pos (l, h, t) =
    let (once, inside) = Packed-count size (y + size) high ys x pos t in
    (ground (arith, once, inside, pos), λ k. ground (arith, once, inside, pos, l, h, k))

Packed-apart :
    (size low high : ℕ) (xs : List ℕ) (x y : ℕ)
    → 0 < size
    → Packed size low high xs
    → 0 < count xs x
    → 0 < count xs y
    → (x ≡ y) ⊎ ((x + size ≤ y) ⊎ (y + size ≤ x))
unfolding count Packed
Packed-apart size low high [] x y pos t h k = absurd (omega (arith, h))
Packed-apart size low high (z ∷ zs) x y pos (l, u, t) h k = ground (
  arith,
  h,
  k,
  (Packed-count size (z + size) high zs x pos t).1,
  (Packed-count size (z + size) high zs y pos t).1,
  Packed-apart size (z + size) high zs x y pos t,
)

-- The objects of a slab: each once, behind the header and inside of the page, and apart from the others.
pub record Separate (page size : ℕ) : Type 0 where
  pub once : (x : ℕ) → count (slab_objects page size) x ≤ 1
  pub inside :
      (x : ℕ)
      → 0 < count (slab_objects page size) x
      → (page + header_size ≤ x) × (x + size ≤ page + page_size)
  pub apart :
      (x y : ℕ)
      → 0 < count (slab_objects page size) x
      → 0 < count (slab_objects page size) y
      → (x ≡ y) ⊎ ((x + size ≤ y) ⊎ (y + size ≤ x))

pub slab_objects-Separate : (page size : ℕ) → 0 < size → size ≤ 2048 → Separate page size
slab_objects-Separate page size pos small =
    let packed = slab_objects-Packed page size pos small in
    record {
      once = λ x.
          (Packed-count size (page + header_size) (page + page_size) (slab_objects page size) x pos
            packed).0;
      inside = λ x.
          (Packed-count size (page + header_size) (page + page_size) (slab_objects page size) x pos
            packed).1;
      apart = λ x y.
          Packed-apart size (page + header_size) (page + page_size) (slab_objects page size) x y pos
            packed;
    }

pub OneOf-size : (c : ℕ) → OneOf c size_classes → (0 < c) × (c ≤ 2048)
unfolding OneOf
OneOf-size c o = ground (arith, o)

pub capacity-bounds :
    (page c : ℕ)
    → page % page_size ≡ 0
    → OneOf c size_classes
    → (0 < slab_capacity page c) × (slab_capacity page c ≤ page_size)
unfolding slab_capacity
capacity-bounds page c h o =
    (capacity-pos page c h o, omega (arith, div-le_self (page_size - (data_start page c - page)) c))
