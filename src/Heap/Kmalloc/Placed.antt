-- ===== src/Heap/Kmalloc/Placed.antt =====
-- The pages of the heap that carry headers, beside the free ranges and the cursor.
use nova_os.Base.{
  ℕ, ◌⊎◌, ◌+◌, ◌*◌, ◌^◌, add64, mul64, ◌%◌, ◌≤◌, ◌<◌, ◌≡◌, inl, inr, Bool, true, false, Option,
  none, some, List, [], ◌∷◌, arith, ltb, ◌==◌, if◌then◌else◌, Bool-cases, page_size,
}
use mathlib.Core.Path.{subst, fun_ext}
use nova_os.Heap.Kmalloc.{uses_up, alloc_virtual_pages}
use nova_os.Heap.{
  FreeRange, VirtualPages, range_end, insert_range, merged, merge_all, take_range,
  recycle_module_range, reserve_pages, alloc_range,
}
use nova_os.Heap.Ranges.{Apart, inside, covers, Clear, recycle_module_range-covers}
use nova_os.Heap.Take.{Taken, reserve_pages-Taken}

unfoldable pub Aligned : List FreeRange → Type 0
Aligned [] = Unit
Aligned (x ∷ xs) = (x.virt_addr % page_size ≡ 0) × Aligned xs

insert_range-Aligned :
    (r : FreeRange) (xs : List FreeRange)
    → r.virt_addr % page_size ≡ 0
    → Aligned xs
    → Aligned (insert_range r xs)
unfolding insert_range Aligned
insert_range-Aligned r [] h t = (h, tt)
insert_range-Aligned r (x ∷ xs) h (g, t) = elim (Bool-cases (ltb x.virt_addr r.virt_addr)) [
  | inl e ↦ rw e (g, insert_range-Aligned r xs h t)
  | inr e ↦ rw e (h, (g, t))
]

merged-Aligned :
    (x : FreeRange) (xs : List FreeRange)
    → x.virt_addr % page_size ≡ 0
    → Aligned xs
    → Aligned (merged x xs)
unfolding merged Aligned
merged-Aligned x [] h t = (h, tt)
merged-Aligned x (y ∷ ys) h (g, t) = elim (Bool-cases (range_end x == y.virt_addr)) [
  | inl e ↦ rw e (merged-Aligned (record x { page_count = x.page_count + y.page_count }) ys h t)
  | inr e ↦ rw e (h, merged-Aligned y ys g t)
]

merge_all-Aligned : (xs : List FreeRange) → Aligned xs → Aligned (merge_all xs)
unfolding Aligned
merge_all-Aligned [] t = tt
merge_all-Aligned (x ∷ xs) (h, t) = merged-Aligned x xs h t

abbrev AlignedTake : Option (ℕ × List FreeRange) → Type 0
AlignedTake none = Unit
AlignedTake (some (a, rs)) = (a % page_size ≡ 0) × Aligned rs

take_range-Aligned :
    (count : ℕ) (xs : List FreeRange) → Aligned xs → AlignedTake (take_range count xs)
unfolding take_range Aligned
take_range-Aligned count [] t = tt
take_range-Aligned count (x ∷ xs) (h, t) = elim (Bool-cases (x.page_count == count)) [
  | inl e ↦ rw e (h, t)
  | inr e ↦ rw e (elim (Bool-cases (ltb count x.page_count)) [
    | inl l ↦ rw l (h, (omega (arith, h), t))
    | inr l ↦ rw l (behind (take_range count xs) (take_range-Aligned count xs t))
  ])
]
  where
    behind :
        (r : Option (ℕ × List FreeRange))
        → AlignedTake r
        → AlignedTake (elim r [ none ↦ none | some (a, ys) ↦ some (a, x ∷ ys) ])
    behind none u = tt
    behind (some (a, ys)) (i, u) = (i, (h, u))

-- `sp p` pages from `p` on carry the header at `p`.
abbrev pub at : (ℕ → ℕ) → ℕ → FreeRange
at sp p = record { virt_addr = p; page_count = sp p }

abbrev pub put : ℕ → ℕ → (ℕ → ℕ) → ℕ → ℕ
put p n sp q = if q == p then n else sp q

-- They lie apart from each other and from the free ranges, from `low` on and below the cursor.
pub record Placed (low : ℕ) (sp : ℕ → ℕ) (v : VirtualPages) : Type 0 where
  pub apart : (p q a : ℕ) → inside (at sp p) a ≡ true → inside (at sp q) a ≡ true → p ≡ q
  pub unfree : (p a : ℕ) → inside (at sp p) a ≡ true → covers v.ranges a ≡ false
  pub below : (p a : ℕ) → inside (at sp p) a ≡ true → a < v.cursor
  pub above : (p : ℕ) → 0 < sp p → low ≤ p
  pub aligned : (p : ℕ) → 0 < sp p → p % page_size ≡ 0
  pub ranges : Apart low v.ranges
  pub ranges_below : (a : ℕ) → covers v.ranges a ≡ true → a < v.cursor
  pub ranges_aligned : Aligned v.ranges
  pub cursor_aligned : v.cursor % page_size ≡ 0
  pub cursor_above : low ≤ v.cursor

abbrev reserved : ℕ → VirtualPages → Option (ℕ × List FreeRange) → ℕ × VirtualPages
reserved count v r = elim r [
  | some (a, rs) ↦ (a, record v { ranges = rs })
  | none ↦ (v.cursor, record v { cursor = add64 v.cursor (mul64 count page_size) })
]

-- What is reserved starts on a page, and so does everything else.
abbrev AllAligned : ℕ × VirtualPages → Type 0
AllAligned r = (r.0 % page_size ≡ 0) × Aligned r.1.ranges × (r.1.cursor % page_size ≡ 0)

reserve_pages-Aligned :
    (count : ℕ) (v : VirtualPages)
    → Aligned v.ranges
    → v.cursor % page_size ≡ 0
    → AllAligned (reserve_pages count v)
unfolding reserve_pages
reserve_pages-Aligned count v t c =
    pick (take_range count v.ranges) (take_range-Aligned count v.ranges t)
  where
    pick : (r : Option (ℕ × List FreeRange)) → AlignedTake r → AllAligned (reserved count v r)
    pick none u = (c, t, omega (arith, c))
    pick (some (a, rs)) (h, u) = (h, u, c)

module _ {low : ℕ} {sp : ℕ → ℕ} {v : VirtualPages} (o : Placed low sp v) (count : ℕ)
    (pos : 0 < count) (reach : v.cursor + count * page_size < 2 ^ 64) where
  from_ranges :
      (a : ℕ) (v' : VirtualPages)
      → v'.cursor ≡ v.cursor
      → Taken low count v.ranges a v'.ranges
      → AllAligned (a, v')
      → Placed low (put a count sp) v' × (sp a ≡ 0)
  from_ranges a v' same t al = (
    record {
      apart =
          λ p q x h k. ground (arith, h, k, o.apart p q x, o.unfree p x, o.unfree q x, t.before x);
      unfree = λ p x h. ground (arith, h, o.unfree p x, t.before x, t.after x);
      below = λ p x h. ground (arith, h, same, o.below p x, o.ranges_below x, t.before x);
      above = λ p h. ground (arith, h, o.above p, t.above);
      aligned = λ p h. ground (arith, h, o.aligned p, al.0);
      ranges = t.apart;
      ranges_below = λ x h. ground (arith, h, same, o.ranges_below x, t.before x);
      ranges_aligned = al.1;
      cursor_aligned = al.2;
      cursor_above = ground (arith, same, o.cursor_above);
    },
    ground (arith, pos, o.unfree a a, t.before a),
  )

  from_cursor :
      (v' : VirtualPages)
      → v'.cursor ≡ v.cursor + count * page_size
      → v'.ranges ≡ v.ranges
      → AllAligned (v.cursor, v')
      → Placed low (put v.cursor count sp) v' × (sp v.cursor ≡ 0)
  from_cursor v' moved same al = (
    record {
      apart = λ p q x h k. ground (arith, h, k, o.apart p q x, o.below p x, o.below q x);
      unfree = λ p x h. rw same (ground (arith, h, o.unfree p x, o.ranges_below x));
      below = λ p x h. ground (arith, h, moved, o.below p x);
      above = λ p h. ground (arith, h, o.above p, o.cursor_above);
      aligned = λ p h. ground (arith, h, o.aligned p, al.0);
      ranges = rw same o.ranges;
      ranges_below = λ x h. ground (arith, rw same at h, moved, o.ranges_below x);
      ranges_aligned = al.1;
      cursor_aligned = al.2;
      cursor_above = ground (arith, moved, o.cursor_above);
    },
    ground (arith, pos, o.below v.cursor v.cursor),
  )

  reserve_pages-Placed :
      let (a, v') = reserve_pages count v in Placed low (put a count sp) v' × (sp a ≡ 0)
  reserve_pages-Placed =
      let al = reserve_pages-Aligned count v o.ranges_aligned o.cursor_aligned in
      elim (reserve_pages-Taken low count v pos o.ranges reach) [
        | inl (same, t) ↦ from_ranges (reserve_pages count v).0 (reserve_pages count v).1 same t al
        | inr (e, moved, same) ↦
            rw e (from_cursor (reserve_pages count v).1 moved same (rw e at al))
      ]

-- A range that shares no address with the free ones meets none of them.
free-Clear :
    (low : ℕ) (r : FreeRange) (xs : List FreeRange)
    → 0 < r.page_count
    → Apart low xs
    → ((a : ℕ) → inside r a ≡ true → covers xs a ≡ false)
    → Clear r xs
unfolding Apart covers Clear
free-Clear low r [] pos t h = tt
free-Clear low r (x ∷ xs) pos (le, n, t) h = (
  ground (arith, pos, n, h r.virt_addr, h x.virt_addr),
  free-Clear (range_end x) r xs pos t (λ a i. ground (arith, h a i)),
)

module _ {low : ℕ} {sp : ℕ → ℕ} {v : VirtualPages} (o : Placed low sp v) (p : ℕ)
    (pos : 0 < sp p) where
  abbrev given_back : Bool → VirtualPages
  given_back made = record v { ranges = recycle_module_range made (at sp p) v.ranges }

  -- Without memory for the node the addresses are lost.
  lost : Placed low (put p 0 sp) (given_back false)
  unfolding recycle_module_range
  lost = record {
    apart = λ q r x h k. ground (arith, h, k, o.apart q r x);
    unfree = λ q x h. ground (arith, h, o.unfree q x);
    below = λ q x h. ground (arith, h, o.below q x);
    above = λ q h. ground (arith, h, o.above q);
    aligned = λ q h. ground (arith, h, o.aligned q);
    ranges = o.ranges;
    ranges_below = o.ranges_below;
    ranges_aligned = o.ranges_aligned;
    cursor_aligned = o.cursor_aligned;
    cursor_above = o.cursor_above;
  }

  recycled : Placed low (put p 0 sp) (given_back true)
  unfolding recycle_module_range
  recycled =
      let (apart, covered) =
        recycle_module_range-covers (at sp p) v.ranges low o.ranges
          (free-Clear low (at sp p) v.ranges pos o.ranges (o.unfree p)) (o.above p pos) pos in
      record {
        apart = λ q r x h k. ground (arith, h, k, o.apart q r x);
        unfree = λ q x h. ground (arith, h, o.unfree q x, covered x, o.apart p q x);
        below = λ q x h. ground (arith, h, o.below q x);
        above = λ q h. ground (arith, h, o.above q);
        aligned = λ q h. ground (arith, h, o.aligned q);
        ranges = apart;
        ranges_below = λ x h. ground (arith, h, covered x, o.below p x, o.ranges_below x);
        ranges_aligned = stays;
        cursor_aligned = o.cursor_aligned;
        cursor_above = o.cursor_above;
      }
    where
      stays : Aligned (recycle_module_range true (at sp p) v.ranges)
      stays =
          merge_all-Aligned (insert_range (at sp p) v.ranges)
            (insert_range-Aligned (at sp p) v.ranges (o.aligned p pos) o.ranges_aligned)

  either_way : (made : Bool) → Placed low (put p 0 sp) (given_back made)
  either_way true = recycled
  either_way false = lost

pub recycle-Placed :
    {low : ℕ} {sp : ℕ → ℕ} {v : VirtualPages} (p n : ℕ) (made : Bool)
    → Placed low sp v
    → sp p ≡ n
    → 0 < n
    → Placed low (put p 0 sp) (record v {
      ranges = recycle_module_range made (record { virt_addr = p; page_count = n }) v.ranges;
    })
recycle-Placed {low} {sp} {v} p n made o e pos =
    subst
      (λ k. Placed low (put p 0 sp) (record v {
        ranges = recycle_module_range made (record { virt_addr = p; page_count = k }) v.ranges;
      }))
      e (either_way o p (omega (arith, e, pos)) made)

pub unput :
    {low : ℕ} {v : VirtualPages} (a n : ℕ) (sp : ℕ → ℕ)
    → sp a ≡ 0
    → Placed low (put a 0 (put a n sp)) v
    → Placed low sp v
unput {low} {v} a n sp e o = subst (λ f. Placed low f v) (fun_ext λ q. ground (arith, e)) o

-- Pages that are mapped have a new header; where they are not, all is given back.
abbrev pub Mapped : (ℕ → Bool) → ℕ → (ℕ → ℕ) → ℕ → Option ℕ × VirtualPages → Type 0
Mapped maps low sp count (none, v') = Placed low sp v' × ((a : ℕ) × (maps a ≡ false))
Mapped maps low sp count (some a, v') = Placed low (put a count sp) v' × (sp a ≡ 0)

pub alloc_range-Mapped :
    {low : ℕ} {sp : ℕ → ℕ} {v : VirtualPages} (maps : ℕ → Bool) (made : Bool) (count : ℕ)
    → Placed low sp v
    → 0 < count
    → v.cursor + count * page_size < 2 ^ 64
    → Mapped maps low sp count (alloc_range maps made count v)
unfolding alloc_range
alloc_range-Mapped {low} {sp} {v} maps made count o pos reach =
    let (o', e) = reserve_pages-Placed o count pos reach in
    elim (Bool-cases (maps (reserve_pages count v).0)) [
      | inl m ↦ rw m (o', e)
      | inr m ↦ rw m (
        unput _ count sp e (recycle-Placed _ count made o' here pos),
        ((reserve_pages count v).0, m),
      )
    ]
  where
    here : put (reserve_pages count v).0 count sp (reserve_pages count v).0 ≡ count
    here = ground arith

-- The call goes into `kmalloc` or `kfree`: a free range is used up, or pages cannot be mapped.
abbrev pub Reenters : (ℕ → Bool) → VirtualPages → Type 0
Reenters maps v = ((n : ℕ) × (uses_up n v.ranges ≡ true)) ⊎ ((a : ℕ) × (maps a ≡ false))

abbrev pub Reserved :
    (ℕ → Bool) → ℕ → (ℕ → ℕ) → ℕ → VirtualPages → Option (ℕ × VirtualPages) → Type 0
Reserved maps low sp count v none = Reenters maps v
Reserved maps low sp count v (some (a, v')) = Placed low (put a count sp) v' × (sp a ≡ 0)

pub alloc_virtual_pages-Reserved :
    {low : ℕ} {sp : ℕ → ℕ} {v : VirtualPages} (maps : ℕ → Bool) (count : ℕ)
    → Placed low sp v
    → 0 < count
    → v.cursor + count * page_size < 2 ^ 64
    → Reserved maps low sp count v (alloc_virtual_pages maps count v)
unfolding alloc_virtual_pages
alloc_virtual_pages-Reserved {low} {sp} {v} maps count o pos reach =
    elim (Bool-cases (uses_up count v.ranges)) [
      | inl u ↦ rw (alloc_virtual_pages, u) (inl (count, u))
      | inr u ↦ elim (Bool-cases (maps (reserve_pages count v).0)) [
        | inl m ↦ rw (alloc_virtual_pages, u, m) (reserve_pages-Placed o count pos reach)
        | inr m ↦ rw (alloc_virtual_pages, u, m) (inr ((reserve_pages count v).0, m))
      ]
    ]
