-- ===== src/Heap/Kmalloc/Free.antt =====
-- What `kfree` does to the blocks in use.
use nova_os.Base.{
  ℕ, suc, ◌+◌, ◌*◌, ◌%◌, ◌^◌, ◌≤◌, ◌≡◌, refl, sym, inl, inr, true, false, Option, none, some, ◌∷◌,
  ◌++◌, arith, ◌==◌, if◌then◌else◌, Bool-cases, length, page_size, page_down,
}
use mathlib.Core.Path.{subst}
use nova_os.Heap.Kmalloc.{
  Slab, Header, no_magic, slab_magic, large_magic, Heap, put_header, free_object, empties, kfree,
}
use nova_os.Heap.Kmalloc.Objects.{count, capacity-bounds}
use nova_os.Heap.Kmalloc.Valid.{
  Blocks, live_at, live_on, live_at-append, live_on-append, span, SlabOk, HeaderOk, Fits, Fitting,
  Fitting-split, IsValid, block-Within,
}
use nova_os.Heap.Kmalloc.Change.{SameOn, slab-change-Valid}

-- The call gives pages back, and goes into `kmalloc`: the block is a large one, or the last one in use of a slab that is
-- not its cache's only one.
abbrev pub GivesBack : Heap → Header → Type 0
GivesBack h no_magic = ⊥
GivesBack h (slab_magic s) = empties s h ≡ true
GivesBack h (large_magic l) = Unit

abbrev pub Freed : Heap → Blocks → ℕ → Option Heap → Type 0
Freed h rest x none = GivesBack h (h.header (page_down x))
Freed h rest x (some k) = IsValid k rest

module _ {h : Heap} (xs ys : Blocks) (x n : ℕ) (o : IsValid h (xs ++ ((x, n) ∷ ys))) where
  abbrev before : Blocks
  before = xs ++ ((x, n) ∷ ys)

  abbrev page : ℕ
  page = page_down x

  on : (p : ℕ) → live_on before p ≡ (if page_down x == p then 1 else 0) + live_on (xs ++ ys) p
  unfolding live_on
  on p = omega (arith, live_on-append xs ((x, n) ∷ ys) p, live_on-append xs ys p)

  at_address : (y : ℕ) → live_at before y ≡ (if x == y then 1 else 0) + live_at (xs ++ ys) y
  unfolding live_at
  at_address y = omega (arith, live_at-append xs ((x, n) ∷ ys) y, live_at-append xs ys y)

  others : (q : ℕ) → (q == page_down x) ≡ false → SameOn q before (xs ++ ys)
  others q ne = record {
    number = ground (arith, ne, on q);
    each = λ y e. ground (arith, ne, e, at_address y);
  }

  fits : Fits x n (h.header page) × Fitting h.header (xs ++ ys)
  fits = Fitting-split h.header xs ys x n o.fitting

  module _ (s : Slab) (e : h.header page ≡ slab_magic s) where
    ok : SlabOk page s before
    ok = subst (λ d. HeaderOk page before d) e (o.headers page)

    one_more : (s.free_objects + 1) % 2 ^ 32 ≡ suc (length s.free_list)
    one_more = omega (
      arith,
      ok.free,
      ok.all,
      (capacity-bounds page s.object_size (o.placed.aligned page (rw e (omega arith)))
          ok.of_class).1,
    )

    freed-SlabOk : SlabOk page (free_object s x) (xs ++ ys)
    unfolding free_object count
    freed-SlabOk = record {
      of_class = ok.of_class;
      free = one_more;
      total = ok.total;
      all = ground (arith, ok.all, on page);
      each = λ y. ground (arith, ok.each y, at_address y);
    }

    kfree_slab-Valid : IsValid (put_header page (slab_magic (free_object s x)) h) (xs ++ ys)
    unfolding free_object
    kfree_slab-Valid =
        slab-change-Valid page s (free_object s x) o e refl others freed-SlabOk fits.1

  -- In a well-formed heap, `kfree` of a block in use leaves a well-formed heap in which exactly the other blocks
  -- are in use; or it gives pages back, as the block is a large one or the last one in use of a slab that is not its
  -- cache's only one, and is not followed into the `kmalloc` that this calls.
  pub kfree-Valid : Freed h (xs ++ ys) x (kfree x h)
  unfolding kfree live_at free_object
  kfree-Valid = elim (Bool-cases (x == 0)) [
    | inl z ↦ absurd (ground (arith, z, not_null.0))
    | inr z ↦ rw (kfree, z) (by_header (h.header page) refl)
  ]
    where
      not_null : (page + 64 ≤ x) × (x + n ≤ page + span (h.header page) * page_size)
      not_null =
          (block-Within before x n (h.header page) (ground (arith, at_address x)) (o.headers page)
            fits.0).0

      by_header :
          (d : Header)
          → h.header page ≡ d
          → Freed h (xs ++ ys) x (elim d [
            | no_magic ↦ some h
            | slab_magic s ↦
                if empties s h
                then none
                else some (put_header page (slab_magic (free_object s x)) h)
            | large_magic l ↦ none
          ])
      by_header no_magic e = absurd (subst (λ d. Fits x n d) e fits.0)
      by_header (slab_magic s) e = elim (Bool-cases (empties s h)) [
        | inl b ↦ rw b (subst (GivesBack h) (sym e) b)
        | inr b ↦ rw b (kfree_slab-Valid s e)
      ]
      by_header (large_magic l) e = subst (GivesBack h) (sym e) tt
