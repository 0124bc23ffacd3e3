-- ===== src/Heap/Kmalloc/Change.antt =====
-- A new header for one page.
use nova_os.Base.{
  ℕ, ◌≤◌, ◌<◌, ◌≡◌, refl, sym, ap, ◌∙◌, inl, inr, true, false, List, [], ◌∷◌, arith, ◌==◌,
  if◌then◌else◌, Bool-cases, page_down,
}
use mathlib.Core.Path.{subst, fun_ext}
use nova_os.Heap.{VirtualPages}
use nova_os.Heap.Kmalloc.{
  Slab, Header, no_magic, slab_magic, large_magic, Heap, kernel_heap_base, put_header,
}
use nova_os.Heap.Kmalloc.Placed.{Placed, put}
use nova_os.Heap.Kmalloc.Objects.{count}
use nova_os.Heap.Kmalloc.Valid.{
  Blocks, live_at, live_on, span, SlabOk, HeaderOk, Fits, Fitting, IsValid,
}

pub live_at-on : (bs : Blocks) (x : ℕ) → live_at bs x ≤ live_on bs (page_down x)
unfolding live_at live_on
live_at-on [] x = omega arith
live_at-on ((y, n) ∷ bs) x = ground (arith, live_at-on bs x)

-- The blocks on page `p` are the same.
pub record SameOn (p : ℕ) (bs cs : Blocks) : Type 0 where
  pub number : live_on cs p ≡ live_on bs p
  pub each : (x : ℕ) → page_down x ≡ p → live_at cs x ≡ live_at bs x

pub HeaderOk-same :
    (p : ℕ) (bs cs : Blocks) (d : Header) → SameOn p bs cs → HeaderOk p bs d → HeaderOk p cs d
HeaderOk-same p bs cs no_magic same ok = same.number ∙ ok
HeaderOk-same p bs cs (slab_magic s) same ok = record {
  of_class = ok.of_class;
  free = ok.free;
  total = ok.total;
  all = omega (arith, ok.all, same.number);
  each = λ x. ground (arith, ok.each x, same.each x);
}
HeaderOk-same p bs cs (large_magic l) same ok = record {
  some_pages = ok.some_pages;
  fits = ok.fits;
  one = same.number ∙ ok.one;
}

abbrev pub headers_put : ℕ → Header → (ℕ → Header) → ℕ → Header
headers_put p d header q = if q == p then d else header q

-- The blocks of a page fit under its new header, where they did under the old one or there are none.
pub Fitting-put :
    (header : ℕ → Header) (p : ℕ) (d : Header) (bs : Blocks)
    → ((x n : ℕ) → Fits x n (header p) → Fits x n d)
    → Fitting header bs
    → Fitting (headers_put p d header) bs
unfolding Fitting
Fitting-put header p d [] keep f = tt
Fitting-put header p d ((x, n) ∷ bs) keep (g, f) = elim (Bool-cases (page_down x == p)) [
  | inl e ↦
      rw e
        (keep x n (subst (λ q. Fits x n (header q)) (same e) g), Fitting-put header p d bs keep f)
  | inr e ↦ rw e (g, Fitting-put header p d bs keep f)
]
  where
    same : (page_down x == p) ≡ true → page_down x ≡ p
    same e = ground (arith, e)

pub Fitting-put_empty :
    (header : ℕ → Header) (p : ℕ) (d : Header) (bs : Blocks)
    → live_on bs p ≡ 0
    → Fitting header bs
    → Fitting (headers_put p d header) bs
unfolding Fitting live_on
Fitting-put_empty header p d [] none_on f = tt
Fitting-put_empty header p d ((x, n) ∷ bs) none_on (g, f) = elim (Bool-cases (page_down x == p)) [
  | inl e ↦ absurd (ground (arith, e, none_on))
  | inr e ↦ rw e (g, Fitting-put_empty header p d bs (ground (arith, e, none_on)) f)
]

pub span-put :
    (header : ℕ → Header) (p : ℕ) (d : Header)
    → (λ q. span (headers_put p d header q)) ≡ put p (span d) (λ q. span (header q))
span-put header p d =
    fun_ext λ q. elim (Bool-cases (q == p)) [ inl e ↦ rw e refl | inr e ↦ rw e refl ]

pub span-same :
    (header : ℕ → Header) (p : ℕ) (d : Header)
    → span d ≡ span (header p)
    → put p (span d) (λ q. span (header q)) ≡ (λ q. span (header q))
span-same header p d e = fun_ext λ q. elim (Bool-cases (q == p)) [
  | inl t ↦ rw t (e ∙ ap (λ r. span (header r)) (sym (same q t)))
  | inr t ↦ rw t refl
]
  where
    same : (q : ℕ) → (q == p) ≡ true → q ≡ p
    same q t = ground (arith, t)

-- Only the page `p` changes, with its blocks; the lists of slabs and the addresses are accounted for.
pub change-Valid :
    {h : Heap} {bs cs : Blocks} (p : ℕ) (d : Header) (caches : ℕ → List ℕ) (pages : VirtualPages)
    → IsValid h bs
    → ((q : ℕ) → (q == p) ≡ false → SameOn q bs cs)
    → HeaderOk p cs d
    → ((c q : ℕ)
        → 0 < count (caches c) q
        → (s : Slab) × (headers_put p d h.header q ≡ slab_magic s) × (s.object_size ≡ c))
    → Placed kernel_heap_base (put p (span d) (λ q. span (h.header q))) pages
    → Fitting (headers_put p d h.header) cs
    → IsValid (record { header = headers_put p d h.header; caches = caches; pages = pages }) cs
change-Valid {h} {bs} {cs} p d caches pages o others ok linked placed fitting = record {
  headers = λ q. elim (Bool-cases (q == p)) [
    | inl e ↦ rw e (subst (λ r. HeaderOk r cs d) (sym (same q e)) ok)
    | inr e ↦ rw e (HeaderOk-same q bs cs (h.header q) (others q e) (o.headers q))
  ];
  linked = linked;
  placed = subst (λ f. Placed kernel_heap_base f pages) (sym (span-put h.header p d)) placed;
  fitting = fitting;
}
  where
    same : (q : ℕ) → (q == p) ≡ true → q ≡ p
    same q e = ground (arith, e)

pub put_self : (header : ℕ → Header) (p q : ℕ) (d : Header) → q ≡ p → headers_put p d header q ≡ d
put_self header p q d e = elim (Bool-cases (q == p)) [
  | inl f ↦ rw f refl
  | inr f ↦ absurd (ground (arith, e, f))
]

abbrev pub slab_size : Header → ℕ
slab_size no_magic = 0
slab_size (slab_magic s) = s.object_size
slab_size (large_magic l) = 0

-- Slabs stay in their lists when a page without one gets a header.
pub linked-fresh :
    {h : Heap} {bs : Blocks} (p : ℕ) (d : Header)
    → IsValid h bs
    → span (h.header p) ≡ 0
    → (c q : ℕ) → 0 < count (h.caches c) q
    → (s : Slab) × (headers_put p d h.header q ≡ slab_magic s) × (s.object_size ≡ c)
linked-fresh {h} p d o fresh c q k =
    let (s, e, f) = o.linked c q k in
    elim (Bool-cases (q == p)) [
      | inl b ↦ absurd (omega (arith, fresh, ap (λ r. span (h.header r)) (same b), ap span e))
      | inr b ↦ rw b (s, e, f)
    ]
  where
    same : (q == p) ≡ true → q ≡ p
    same b = ground (arith, b)

-- A slab with other free objects.
pub slab-change-Valid :
    {h : Heap} {bs cs : Blocks} (p : ℕ) (s t : Slab)
    → IsValid h bs
    → h.header p ≡ slab_magic s
    → t.object_size ≡ s.object_size
    → ((q : ℕ) → (q == p) ≡ false → SameOn q bs cs)
    → SlabOk p t cs
    → Fitting h.header cs
    → IsValid (put_header p (slab_magic t) h) cs
slab-change-Valid {h} {bs} {cs} p s t o e size others ok fitting =
    change-Valid p (slab_magic t) h.caches h.pages o others ok linked
      (subst (λ f. Placed kernel_heap_base f h.pages)
        (sym (span-same h.header p (slab_magic t) (sym (ap span e)))) o.placed)
      (Fitting-put h.header p (slab_magic t) cs
        (λ x n f. as_before x n (subst (λ d. Fits x n d) e f)) fitting)
  where
    as_before : (x n : ℕ) → n ≤ s.object_size → n ≤ t.object_size
    as_before x n f = omega (arith, f, size)

    same : (q : ℕ) → (q == p) ≡ true → q ≡ p
    same q b = ground (arith, b)

    slab_of : Header → Slab
    slab_of no_magic = s
    slab_of (slab_magic u) = u
    slab_of (large_magic l) = s

    linked :
        (c q : ℕ)
        → 0 < count (h.caches c) q
        → (u : Slab) × (headers_put p (slab_magic t) h.header q ≡ slab_magic u)
          × (u.object_size ≡ c)
    linked c q k =
        let (u, f, g) = o.linked c q k in
        elim (Bool-cases (q == p)) [
          | inl b ↦ rw b (
            t,
            refl,
            size ∙ ap (λ d. (slab_of d).object_size) (sym (ap h.header (same q b) ∙ e) ∙ f) ∙ g,
          )
          | inr b ↦ rw b (u, f, g)
        ]
