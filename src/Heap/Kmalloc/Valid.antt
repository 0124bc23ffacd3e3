-- ===== src/Heap/Kmalloc/Valid.antt =====
-- The blocks that are in use: each is an object of a slab or a large block, and no two meet.
use nova_os.Base.{
  ℕ, ◌+◌, ◌*◌, ◌≤◌, ◌<◌, max, ◌≡◌, ◌⊎◌, inl, inr, true, List, [], ◌∷◌, ◌++◌, arith, ◌==◌,
  if◌then◌else◌, Bool-cases, length, page_size, page_down,
}
use nova_os.Heap.{header_size, size_classes, slab_capacity, slab_objects}
use nova_os.Heap.Kmalloc.{
  Slab, LargeAllocHeader, Header, no_magic, slab_magic, large_magic, Heap, kernel_heap_base,
}
use nova_os.Heap.Kmalloc.Placed.{Placed}
use nova_os.Heap.Kmalloc.Objects.{count, OneOf, slab_objects-Separate, OneOf-size}

-- Address and requested size of each block that was allocated and not freed.
abbrev pub Blocks : Type 0
Blocks = List (ℕ × ℕ)

-- How often an address is a block's, and how many blocks start on a page.
unfoldable pub live_at : Blocks → ℕ → ℕ
live_at [] y = 0
live_at ((x, n) ∷ bs) y = (if x == y then 1 else 0) + live_at bs y

unfoldable pub live_on : Blocks → ℕ → ℕ
live_on [] p = 0
live_on ((x, n) ∷ bs) p = (if page_down x == p then 1 else 0) + live_on bs p

pub live_at-append : (cs bs : Blocks) (y : ℕ) → live_at (cs ++ bs) y ≡ live_at cs y + live_at bs y
unfolding live_at
live_at-append [] bs y = omega arith
live_at-append ((x, n) ∷ cs) bs y = omega (arith, live_at-append cs bs y)

pub live_on-append : (cs bs : Blocks) (p : ℕ) → live_on (cs ++ bs) p ≡ live_on cs p + live_on bs p
unfolding live_on
live_on-append [] bs p = omega arith
live_on-append ((x, n) ∷ cs) bs p = omega (arith, live_on-append cs bs p)

abbrev pub span : Header → ℕ
span no_magic = 0
span (slab_magic s) = 1
span (large_magic l) = l.num_pages

-- The objects of the slab are its free ones and the blocks on its page, each once.
pub record SlabOk (p : ℕ) (s : Slab) (bs : Blocks) : Type 0 where
  pub of_class : OneOf s.object_size size_classes
  pub free : s.free_objects ≡ length s.free_list
  pub total : s.total_objects ≡ slab_capacity p s.object_size
  pub all : length s.free_list + live_on bs p ≡ slab_capacity p s.object_size
  pub each :
      (x : ℕ)
      → count s.free_list x + (if page_down x == p then live_at bs x else 0)
        ≡ count (slab_objects p s.object_size) x

pub record LargeOk (p : ℕ) (l : LargeAllocHeader) (bs : Blocks) : Type 0 where
  pub some_pages : 0 < l.num_pages
  pub fits : header_size + l.user_size ≤ l.num_pages * page_size
  pub one : live_on bs p ≡ 1

abbrev pub HeaderOk : ℕ → Blocks → Header → Type 0
HeaderOk p bs no_magic = live_on bs p ≡ 0
HeaderOk p bs (slab_magic s) = SlabOk p s bs
HeaderOk p bs (large_magic l) = LargeOk p l bs

-- The block is as large as was asked for.
abbrev pub Fits : ℕ → ℕ → Header → Type 0
Fits x n no_magic = ⊥
Fits x n (slab_magic s) = n ≤ s.object_size
Fits x n (large_magic l) = (x ≡ page_down x + header_size) × (n ≤ l.user_size)

unfoldable pub Fitting : (ℕ → Header) → Blocks → Type 0
Fitting header [] = Unit
Fitting header ((x, n) ∷ bs) = Fits x n (header (page_down x)) × Fitting header bs

pub record IsValid (h : Heap) (bs : Blocks) : Type 0 where
  pub headers : (p : ℕ) → HeaderOk p bs (h.header p)
  pub linked :
      (c p : ℕ)
      → 0 < count (h.caches c) p
      → (s : Slab) × (h.header p ≡ slab_magic s) × (s.object_size ≡ c)
  pub placed : Placed kernel_heap_base (λ p. span (h.header p)) h.pages
  pub fitting : Fitting h.header bs

pub Fitting-split :
    (header : ℕ → Header) (cs bs : Blocks) (x n : ℕ)
    → Fitting header (cs ++ (x, n) ∷ bs)
    → Fits x n (header (page_down x)) × Fitting header (cs ++ bs)
unfolding Fitting
Fitting-split header [] bs x n f = f
Fitting-split header ((y, m) ∷ cs) bs x n (g, f) =
    let (h, r) = Fitting-split header cs bs x n f in (h, (g, r))

-- Of two blocks, both in use.
abbrev pub Apart2 : ℕ → ℕ → ℕ → ℕ → Type 0
Apart2 x n y m = (x + n ≤ y) ⊎ (y + m ≤ x)

-- The block lies on the pages of its header, behind it.
abbrev pub Within : ℕ → ℕ → ℕ → Type 0
Within x n k = (page_down x + header_size ≤ x) × (x + n ≤ page_down x + k * page_size)

pub block-Within :
    (bs : Blocks) (x n : ℕ) (d : Header)
    → 0 < live_at bs x
    → HeaderOk (page_down x) bs d
    → Fits x n d
    → Within x n (span d) × (0 < span d)
block-Within bs x n no_magic live ok fits = absurd fits
block-Within bs x n (slab_magic s) live ok fits =
    let (pos, small) = OneOf-size s.object_size ok.of_class in
    let (l, u) =
      (slab_objects-Separate (page_down x) s.object_size pos small).inside x
        (ground (arith, ok.each x, live)) in
    ((l, omega (arith, u, fits)), omega arith)
block-Within bs x n (large_magic l) live ok (start, fits) =
    ((omega (arith, start), omega (arith, start, fits, ok.fits)), ok.some_pages)

same_page :
    (bs : Blocks) (x n y m : ℕ) (d : Header)
    → page_down x ≡ page_down y
    → 0 < live_at bs x
    → 0 < live_at bs y
    → (x ≡ y → 2 ≤ live_at bs x)
    → 2 ≤ live_on bs (page_down x)
    → HeaderOk (page_down x) bs d
    → Fits x n d
    → Fits y m d
    → Apart2 x n y m
same_page bs x n y m no_magic e lx ly twice two ok f g = absurd f
same_page bs x n y m (slab_magic s) e lx ly twice two ok f g =
    let (pos, small) = OneOf-size s.object_size ok.of_class in
    let objects = slab_objects-Separate (page_down x) s.object_size pos small in
    ground (arith, f, g, e, lx, ly, twice, ok.each x, ok.each y, objects.once x, objects.apart x y)
same_page bs x n y m (large_magic l) e lx ly twice two ok f g = absurd (omega (arith, ok.one, two))

Fitting-behind :
    (header : ℕ → Header) (cs bs : Blocks) → Fitting header (cs ++ bs) → Fitting header bs
unfolding Fitting
Fitting-behind header [] bs f = f
Fitting-behind header ((y, m) ∷ cs) bs (g, f) = Fitting-behind header cs bs f

-- Any two blocks in use share no byte.
pub blocks-Apart :
    {h : Heap} (xs ys zs : Blocks) (x n y m : ℕ)
    → IsValid h (xs ++ ((x, n) ∷ (ys ++ ((y, m) ∷ zs))))
    → Apart2 x n y m
unfolding live_at live_on Fitting
blocks-Apart {h} xs ys zs x n y m o =
    let behind = Fitting-behind h.header xs ((x, n) ∷ (ys ++ ((y, m) ∷ zs))) o.fitting in
    let fx = behind.0 in
    let fy = (Fitting-behind h.header ys ((y, m) ∷ zs) behind.1).0 in
    let lx = at_x x in
    let ly = at_x y in
    elim (Bool-cases (page_down x == page_down y)) [
      | inl e ↦
          same_page bs x n y m (h.header (page_down x)) (same e) (ground (arith, lx))
            (ground (arith, ly)) (λ q. ground (arith, lx, q)) (ground (arith, on, e))
            (o.headers (page_down x)) fx (rw (same e) fy)
      | inr e ↦
          let (wx, sx) =
            block-Within bs x n (h.header (page_down x)) (ground (arith, lx))
              (o.headers (page_down x)) fx in
          let (wy, sy) =
            block-Within bs y m (h.header (page_down y)) (ground (arith, ly))
              (o.headers (page_down y)) fy in
          ground (arith, e, wx, wy, sx, sy, o.placed.apart (page_down x) (page_down y) (max x y))
    ]
  where
    same : (page_down x == page_down y) ≡ true → page_down x ≡ page_down y
    same e = ground (arith, e)

    bs : Blocks
    bs = xs ++ ((x, n) ∷ (ys ++ ((y, m) ∷ zs)))

    at_x :
        (z : ℕ)
        → live_at bs z
          ≡ live_at xs z
            + ((if x == z then 1 else 0)
                + (live_at ys z + ((if y == z then 1 else 0) + live_at zs z)))
    at_x z = omega (
      arith,
      live_at-append xs ((x, n) ∷ (ys ++ ((y, m) ∷ zs))) z,
      live_at-append ys ((y, m) ∷ zs) z,
    )

    on :
        live_on bs (page_down x)
        ≡ live_on xs (page_down x)
          + (1
              + (live_on ys (page_down x)
                  + ((if page_down y == page_down x then 1 else 0) + live_on zs (page_down x))))
    on = ground (
      arith,
      live_on-append xs ((x, n) ∷ (ys ++ ((y, m) ∷ zs))) (page_down x),
      live_on-append ys ((y, m) ∷ zs) (page_down x),
    )
