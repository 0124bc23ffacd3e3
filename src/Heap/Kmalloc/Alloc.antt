-- ===== src/Heap/Kmalloc/Alloc.antt =====
-- What `kmalloc` does to the blocks in use.
use nova_os.Base.{
  ℕ, ◌*◌, ◌+◌, ◌%◌, ◌^◌, ◌≤◌, ◌<◌, ◌≡◌, refl, sym, ap, ◌∙◌, inl, inr, Bool, Option, none, some,
  arith, leb, ◌==◌, leb→le, Bool-cases, Option-cases, page_size, page_down,
}
use nova_os.Heap.{VirtualPages, header_size, size_classes, large_pages}
use nova_os.Heap.Kmalloc.{
  large_magic, Heap, kernel_heap_base, put_header, find_slab, new_slab, take_object, kmalloc_new,
  kmalloc_slab, kmalloc_large, kmalloc, alloc_virtual_pages,
}
use nova_os.Heap.Kmalloc.Placed.{Placed, put, Reserved, alloc_virtual_pages-Reserved}
use nova_os.Heap.Kmalloc.Objects.{OneOf, capacity-bounds, size_class-Fits}
use nova_os.Heap.Kmalloc.Valid.{Blocks, live_at, live_on, span, Fits, Fitting, IsValid}
use nova_os.Heap.Kmalloc.Change.{Fitting-put_empty, put_self, slab_size, linked-fresh, change-Valid}
use mathlib.Core.Path.{subst}
use nova_os.Heap.Kmalloc.Slabs.{
  Followed, find_slab-some, unused_page, take_object-Allocated, with_slab, with_slab-Valid,
}

module _ {h : Heap} {bs : Blocks} (o : IsValid h bs) (maps : ℕ → Bool) where
  abbrev spans : ℕ → ℕ
  spans p = span (h.header p)

  abbrev new_object : ℕ → Option (ℕ × VirtualPages) → Option (ℕ × Heap)
  new_object c r = elim r [
    | none ↦ none
    | some (p, v) ↦ some (take_object p (new_slab p c) (with_slab o p c v))
  ]

  new_object-Followed :
      (c size : ℕ) (r : Option (ℕ × VirtualPages))
      → OneOf c size_classes
      → size ≤ c
      → Reserved maps kernel_heap_base spans 1 h.pages r
      → Followed maps size h bs (new_object c r)
  unfolding new_slab
  new_object-Followed c size none class fits why = why
  new_object-Followed c size (some (p, v)) class fits (placed, fresh) =
      take_object-Allocated p (new_slab p c) size (with_slab-Valid o p c v class placed fresh)
        (ground arith) (capacity-bounds p c (placed.aligned p (ground arith)) class).0 fits

  kmalloc_new-Followed :
      (c size : ℕ)
      → OneOf c size_classes
      → size ≤ c
      → h.pages.cursor + page_size < 2 ^ 64
      → Followed maps size h bs (kmalloc_new maps c h)
  unfolding kmalloc_new
  kmalloc_new-Followed c size class fits reach =
      new_object-Followed c size (alloc_virtual_pages maps 1 h.pages) class fits
        (alloc_virtual_pages-Reserved maps 1 o.placed (omega arith) (omega (arith, reach)))

  kmalloc_slab-Followed :
      (c size : ℕ)
      → OneOf c size_classes
      → size ≤ c
      → h.pages.cursor + page_size < 2 ^ 64
      → Followed maps size h bs (kmalloc_slab maps c h)
  unfolding kmalloc_slab
  kmalloc_slab-Followed c size class fits reach =
      elim (Option-cases (find_slab h.header (h.caches c))) [
        | inl e ↦ rw (kmalloc_slab, e) (kmalloc_new-Followed c size class fits reach)
        | inr ((p, s), e) ↦
            let (listed, f, free) = find_slab-some h.header (h.caches c) p s e in
            let (t, g, same) = o.linked c p listed in
            rw (kmalloc_slab, e)
              (take_object-Allocated p s size o f free
                (omega (arith, fits, same, ap slab_size (sym f ∙ g))))
      ]

  abbrev new_large : ℕ → Option (ℕ × VirtualPages) → Option (ℕ × Heap)
  new_large size r = elim r [
    | none ↦ none
    | some (p, v) ↦ some (
      p + header_size,
      put_header p
          (large_magic (record { num_pages = large_pages size % 2 ^ 32; user_size = size }))
          (record h { pages = v }),
    )
  ]

  new_large-Followed :
      (size : ℕ) (r : Option (ℕ × VirtualPages))
      → size < 2 ^ 43
      → Reserved maps kernel_heap_base spans (large_pages size) h.pages r
      → Followed maps size h bs (new_large size r)
  unfolding live_at live_on Fitting
  new_large-Followed size none small why = why
  new_large-Followed size (some (p, v)) small (placed, fresh) = inr (
    omega arith,
    change-Valid p
        (large_magic (record { num_pages = large_pages size % 2 ^ 32; user_size = size })) h.caches
        v o
        (λ q ne. record {
          number = ground (arith, ne, on_page);
          each = λ x k. ground (arith, ne, on_page, k);
        })
        (record {
          some_pages = omega (arith, small);
          fits = omega (arith, small);
          one = ground (arith, on_page, unused);
        })
        (linked-fresh p _ o fresh)
        (subst (λ n. Placed kernel_heap_base (put p n spans) v) (omega (arith, small)) placed)
        (
          subst (λ d. Fits (p + header_size) size d)
              (sym (
                put_self h.header p (page_down (p + header_size))
                  (large_magic (record { num_pages = large_pages size % 2 ^ 32; user_size = size }))
                  on_page))
              (omega (arith, on_page), omega arith),
          Fitting-put_empty h.header p _ bs unused o.fitting,
        ),
  )
    where
      paged : p % page_size ≡ 0
      paged = placed.aligned p (ground (arith, small))

      on_page : page_down (p + header_size) ≡ p
      on_page = omega (arith, paged)

      unused : live_on bs p ≡ 0
      unused = unused_page p bs (h.header p) (o.headers p) fresh

  kmalloc_large-Followed :
      (size : ℕ)
      → size < 2 ^ 43
      → h.pages.cursor + size + 2 * page_size < 2 ^ 64
      → Followed maps size h bs (kmalloc_large maps size h)
  unfolding kmalloc_large
  kmalloc_large-Followed size small reach =
      new_large-Followed size (alloc_virtual_pages maps (large_pages size) h.pages) small (
        alloc_virtual_pages-Reserved maps (large_pages size) o.placed (omega (arith, small))
          (omega (arith, small, reach)))

  pub kmalloc-Allocated :
      (size : ℕ)
      → size < 2 ^ 43
      → h.pages.cursor + size + 2 * page_size < 2 ^ 64
      → Followed maps size h bs (kmalloc maps size h)
  unfolding kmalloc
  kmalloc-Allocated size small reach = elim (Bool-cases (size == 0)) [
    | inl z ↦ rw (kmalloc, z) (inl (refl, ground (arith, z), o))
    | inr z ↦ elim (Bool-cases (leb size 2048)) [
      | inl l ↦
          let (c, e, class, fits) = size_class-Fits size (leb→le size 2048 l) in
          rw (kmalloc, z)
            (rw l (rw e (kmalloc_slab-Followed c size class fits (omega (arith, reach)))))
      | inr l ↦ rw (kmalloc, z) (rw l (kmalloc_large-Followed size small reach))
    ]
  ]
