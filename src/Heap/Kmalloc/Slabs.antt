-- ===== src/Heap/Kmalloc/Slabs.antt =====
-- The slabs in which `kmalloc` finds an object, and new ones.
use nova_os.Base.{
  ℕ, ◌+◌, ◌-◌, ◌%◌, ◌≤◌, ◌<◌, ◌≡◌, refl, sym, ap, ◌∙◌, ◌≢◌, ◌⊎◌, inl, inr, Bool, true, false,
  Option, none, some, List, [], ◌∷◌, arith, ◌==◌, if◌then◌else◌, Bool-cases, length, page_size,
  page_down,
}
use mathlib.Core.Path.{subst}
use mathlib.Core.Option.{some-injective}
use nova_os.Heap.{VirtualPages, header_size, size_classes, slab_capacity}
use nova_os.Heap.Kmalloc.{
  Slab, Header, no_magic, slab_magic, large_magic, Heap, kernel_heap_base, put_header, put_cache,
  find_slab, new_slab, take_object,
}
use nova_os.Heap.Kmalloc.Placed.{Placed, put, Reenters}
use nova_os.Heap.Kmalloc.Objects.{
  count, OneOf, slab_objects-Separate, OneOf-size, length-objects_from,
}
use nova_os.Heap.Kmalloc.Valid.{Blocks, live_at, live_on, span, SlabOk, HeaderOk, Fitting, IsValid}
use nova_os.Heap.Kmalloc.Change.{
  live_at-on, headers_put, Fitting-put_empty, change-Valid, slab-change-Valid,
}

-- No block, as none was asked for, and none is changed; or a block more.
abbrev pub Allocated : ℕ → Blocks → ℕ × Heap → Type 0
Allocated size bs (x, h) =
    ((x ≡ 0) × (size ≡ 0) × IsValid h bs) ⊎ ((x ≢ 0) × IsValid h ((x, size) ∷ bs))

-- The same of a call that does not go into another one.
abbrev pub Followed : (ℕ → Bool) → ℕ → Heap → Blocks → Option (ℕ × Heap) → Type 0
Followed maps size h bs none = Reenters maps h.pages
Followed maps size h bs (some r) = Allocated size bs r

-- What the search does at a page with header `d`.
abbrev found_at : Header → ℕ → Option (ℕ × Slab) → Option (ℕ × Slab)
found_at d q rest = elim d [
  | no_magic ↦ rest
  | slab_magic s ↦ if s.free_objects == 0 then rest else some (q, s)
  | large_magic l ↦ rest
]

found_at-some :
    (d : Header) (q : ℕ) (rest : Option (ℕ × Slab)) (p : ℕ) (s : Slab)
    → found_at d q rest ≡ some (p, s)
    → ((q ≡ p) × (d ≡ slab_magic s) × (0 < s.free_objects)) ⊎ (rest ≡ some (p, s))
found_at-some no_magic q rest p s e = inr e
found_at-some (slab_magic t) q rest p s e = elim (Bool-cases (t.free_objects == 0)) [
  | inl f ↦ inr (rw f at e)
  | inr f ↦
      let g = some-injective _ _ (rw f at e) in
      inl (
        ap (λ r. r.0) g,
        ap (λ r. slab_magic r.1) g,
        subst (λ (u : Slab). 0 < u.free_objects) (ap (λ r. r.1) g) (ground (arith, f)),
      )
]
found_at-some (large_magic l) q rest p s e = inr e

-- A slab that the search finds is one of the list, and has a free object.
pub find_slab-some :
    (header : ℕ → Header) (ps : List ℕ) (p : ℕ) (s : Slab)
    → find_slab header ps ≡ some (p, s)
    → (0 < count ps p) × (header p ≡ slab_magic s) × (0 < s.free_objects)
unfolding find_slab count
find_slab-some header [] p s e = absurd (ground (arith, e))
find_slab-some header (q ∷ qs) p s e =
    elim (found_at-some (header q) q (find_slab header qs) p s e) [
      | inl (same, f, free) ↦ (ground (arith, same), ap header (sym same) ∙ f, free)
      | inr f ↦ let (k, g, free) = find_slab-some header qs p s f in (ground (arith, k), g, free)
    ]

pub unused_page :
    (p : ℕ) (bs : Blocks) (d : Header) → HeaderOk p bs d → span d ≡ 0 → live_on bs p ≡ 0
unused_page p bs no_magic ok e = ok
unused_page p bs (slab_magic s) ok e = absurd (omega (arith, e))
unused_page p bs (large_magic l) ok e = absurd (omega (arith, e, ok.some_pages))

-- An object of a slab lies on its page.
pub object-Page :
    {bs : Blocks} (p : ℕ) (s : Slab) (x : ℕ)
    → SlabOk p s bs
    → p % page_size ≡ 0
    → 0 < count s.free_list x
    → (page_down x ≡ p) × (p + header_size ≤ x)
object-Page p s x ok paged free =
    let (pos, small) = OneOf-size s.object_size ok.of_class in
    let (l, u) =
      (slab_objects-Separate p s.object_size pos small).inside x (omega (arith, ok.each x, free)) in
    (omega (arith, l, u, pos, paged), l)

-- The first free object of a slab.
pub take_object-Allocated :
    {h : Heap} {bs : Blocks} (p : ℕ) (s : Slab) (size : ℕ)
    → IsValid h bs
    → h.header p ≡ slab_magic s
    → 0 < s.free_objects
    → size ≤ s.object_size
    → Allocated size bs (take_object p s h)
unfolding take_object count live_at live_on Fitting
take_object-Allocated {h} {bs} p s size o e some_free fits = taken s.free_list refl
  where
    ok : SlabOk p s bs
    ok = subst (λ d. HeaderOk p bs d) e (o.headers p)

    paged : p % page_size ≡ 0
    paged = o.placed.aligned p (rw e (omega arith))

    taken : (xs : List ℕ) → s.free_list ≡ xs → Allocated size bs (take_object p s h)
    taken [] f = absurd (ground (arith, ok.free, f, some_free))
    taken (x ∷ xs) f =
        let (on_page, above) = object-Page p s x ok paged (rw f (ground arith)) in
        rw (take_object, f)
          (inr (
            omega (arith, above),
            slab-change-Valid p s (record s { free_list = xs; free_objects = s.free_objects - 1 }) o
                e refl
                (λ q ne. record {
                  number = ground (arith, ne, on_page);
                  each = λ y k. ground (arith, ne, on_page, k);
                })
                (record {
                  of_class = ok.of_class;
                  free = omega (arith, ok.free, ap length f);
                  total = ok.total;
                  all = ground (arith, ok.all, ap length f, on_page);
                  each = λ y. ground (arith, rw f at ok.each y, on_page);
                })
                (rw on_page (rw e fits), o.fitting),
          ))

no_live : (bs : Blocks) (p x : ℕ) → live_on bs p ≡ 0 → page_down x ≡ p → live_at bs x ≡ 0
no_live bs p x e on =
    omega (arith, e, subst (λ r. live_at bs x ≤ live_on bs r) on (live_at-on bs x))

new_slab-SlabOk :
    (bs : Blocks) (p c : ℕ) → OneOf c size_classes → live_on bs p ≡ 0 → SlabOk p (new_slab p c) bs
unfolding new_slab
new_slab-SlabOk bs p c class unused = record {
  of_class = class;
  free = sym (length-objects_from (slab_capacity p c) c _);
  total = refl;
  all = omega (arith, unused, length-objects_from (slab_capacity p c) c _);
  each = λ x. ground (arith, no_live bs p x unused);
}

-- Addresses may have come and gone.
pub pages-Valid :
    {h : Heap} {bs : Blocks} (v : VirtualPages)
    → IsValid h bs
    → Placed kernel_heap_base (λ p. span (h.header p)) v
    → IsValid (record h { pages = v }) bs
pages-Valid v o placed = record {
  headers = o.headers;
  linked = o.linked;
  placed = placed;
  fitting = o.fitting;
}

module _ {h : Heap} {bs : Blocks} (o : IsValid h bs) where
  abbrev pub spans : ℕ → ℕ
  spans p = span (h.header p)

  abbrev pub with_slab : ℕ → ℕ → VirtualPages → Heap
  with_slab p c v =
      put_header p (slab_magic (new_slab p c))
        (put_cache c (p ∷ h.caches c) (record h { pages = v }))

  pub with_slab-Valid :
      (p c : ℕ) (v : VirtualPages)
      → OneOf c size_classes
      → Placed kernel_heap_base (put p 1 spans) v
      → spans p ≡ 0
      → IsValid (with_slab p c v) bs
  unfolding count new_slab
  with_slab-Valid p c v class placed fresh =
      change-Valid p (slab_magic (new_slab p c)) _ v o
        (λ q ne. record { number = refl; each = λ x e. refl }) (new_slab-SlabOk bs p c class unused)
        linked placed (Fitting-put_empty h.header p (slab_magic (new_slab p c)) bs unused o.fitting)
    where
      unused : live_on bs p ≡ 0
      unused = unused_page p bs (h.header p) (o.headers p) fresh

      same : (q r : ℕ) → (q == r) ≡ true → q ≡ r
      same q r b = ground (arith, b)

      old :
          (d q : ℕ)
          → 0 < count (h.caches d) q
          → (q == p) ≡ false × ((s : Slab) × (h.header q ≡ slab_magic s) × (s.object_size ≡ d))
      old d q k =
          let (s, e, f) = o.linked d q k in
          (
            ground (arith, fresh, same q p, subst (λ e. 0 < span e) (sym e) (omega arith)),
            (s, e, f),
          )

      in_old :
          (d q : ℕ)
          → (q == p) ≡ false
          → 0 < count (if d == c then p ∷ h.caches c else h.caches d) q
          → 0 < count (h.caches d) q
      in_old d q ne k = elim (Bool-cases (d == c)) [
        | inl e ↦
            subst (λ r. 0 < count (h.caches r) q) (sym (same d c e)) (ground (arith, ne, rw e at k))
        | inr e ↦ rw e at k
      ]

      linked :
          (d q : ℕ)
          → 0 < count (if d == c then p ∷ h.caches c else h.caches d) q
          → (s : Slab) × (headers_put p (slab_magic (new_slab p c)) h.header q ≡ slab_magic s)
            × (s.object_size ≡ d)
      linked d q k = elim (Bool-cases (q == p)) [
        | inl f ↦ elim (Bool-cases (d == c)) [
          | inl e ↦ rw f (new_slab p c, refl, sym (same d c e))
          | inr e ↦ absurd (ground (arith, f, (old d q (rw e at k)).0))
        ]
        | inr f ↦ rw f (old d q (in_old d q f k)).1
      ]
