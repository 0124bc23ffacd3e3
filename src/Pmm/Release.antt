-- ===== src/Pmm/Release.antt =====
-- `pmm_free_frame` and `pmm_free_frames`: which bits they clear, and that a release undoes an
-- allocation.
use nova_os.Base.{
  ℕ, zero, suc, ◌+◌, ◌-◌, ◌/◌, ◌%◌, ◌^◌, ◌≤◌, ◌<◌, min, max, ◌≡◌, refl, sym, ap, ◌∙◌, ◌≢◌, ◌⊎◌, inl,
  inr, false, not, ◌||◌, arith, ltb, leb, ◌==◌, if◌then◌else◌, ltb→lt, Bool-cases, add64, page_size,
}
use nova_os.Pmm.{
  Pmm, used, unmark, unmark_frames, lower_scan, free_frame, free_frames, alloc_frames,
}
use nova_os.Pmm.Bits.{count, test-clear_bit, count-clear_bit, count-ext}
use nova_os.Pmm.Valid.{within, IsValid, count-total}
use nova_os.Pmm.Frame.{Got}
use nova_os.Pmm.Runs.{alloc_frames_lem}

-- `q` is `p` with the frames of the range free, and in a valid state.
pub record Frees (start n : ℕ) (p q : Pmm) : Type 0 where
  pub bits : (f : ℕ) → used q f ≡ (if within start n f then false else used p f)
  pub same_total : q.total_frames ≡ p.total_frames
  pub valid : IsValid q

module _ {p : Pmm} (v : IsValid p) where
  pub unmark-Frees : (f : ℕ) → 0 < f → f < p.total_frames → Frees f 1 p (unmark f p)
  unfolding unmark
  unmark-Frees f pos h = elim (Bool-cases (used p f)) [
    | inl busy ↦ rw busy (record {
      bits = λ g. ground (arith, test-clear_bit p.bitmap f g);
      same_total = refl;
      valid = record {
        covers = v.covers;
        small = v.small;
        tail_set = λ g lo hi. ground (arith, v.tail_set g, test-clear_bit p.bitmap f g);
        zero_used = ground (arith, v.zero_used, test-clear_bit p.bitmap f 0);
        counted = omega (
          arith,
          count-clear_bit p.bitmap f p.total_frames h busy,
          v.counted,
          count-total v,
          v.small,
        );
        last_in = v.last_in;
      };
    })
    | inr clear ↦ rw clear (record { bits = λ g. ground arith; same_total = refl; valid = v })
  ]

  pub lower_scan-IsValid : (w : ℕ) → IsValid (lower_scan w p)
  unfolding lower_scan
  lower_scan-IsValid w = elim (Bool-cases (ltb w p.last_scanned_index)) [
    | inl lower ↦ rw lower (record {
      covers = v.covers;
      small = v.small;
      tail_set = v.tail_set;
      zero_used = v.zero_used;
      counted = v.counted;
      last_in = omega (arith, v.last_in, ltb→lt w p.last_scanned_index lower);
    })
    | inr same ↦ rw same v
  ]

lower_scan-bits :
    (p : Pmm) (w f : ℕ)
    → (used (lower_scan w p) f ≡ used p f) × ((lower_scan w p).total_frames ≡ p.total_frames)
unfolding lower_scan
lower_scan-bits p w f = ground arith

pub unmark_frames-Frees :
    (n f : ℕ) {p : Pmm}
    → IsValid p
    → 0 < f
    → f + n ≤ max f p.total_frames
    → Frees f n p (unmark_frames n f p)
unfolding unmark_frames
unmark_frames-Frees zero f v pos h = record {
  bits = λ g. ground arith;
  same_total = refl;
  valid = v;
}
unmark_frames-Frees (suc n) f {p} v pos h =
    let one = unmark-Frees v f pos (omega arith) in
    let rest =
      unmark_frames-Frees n (f + 1) one.valid (omega arith) (omega (arith, one.same_total)) in
    record {
      bits = λ g. ground (arith, one.bits g, rest.bits g);
      same_total = omega (arith, one.same_total, rest.same_total);
      valid = rest.valid;
    }

lower_scan-Frees :
    {start n : ℕ} {p q : Pmm} (w : ℕ) → Frees start n p q → Frees start n p (lower_scan w q)
lower_scan-Frees {start} {n} {p} {q} w r = record {
  bits = λ f. (lower_scan-bits q w f).0 ∙ r.bits f;
  same_total = (lower_scan-bits q w 0).1 ∙ r.same_total;
  valid = lower_scan-IsValid r.valid w;
}

-- An address that the two functions refuse: `NULL`, or one that is not a frame's.
abbrev pub Refused : ℕ → Type 0
Refused addr = (addr ≡ 0) ⊎ (addr % page_size ≢ 0)

-- The frames of a call that lie below the end.
abbrev pub clipped : Pmm → ℕ → ℕ → ℕ
clipped p start n = min (start + n) p.total_frames - start

module _ {p : Pmm} (v : IsValid p) where
  -- In a valid state, on a frame's address other than `NULL` and a positive count, with no overflow,
  -- `pmm_free_frames` frees exactly the frames of its range that exist, and the state is valid.
  pub free_frames-Frees :
      (addr n : ℕ)
      → addr ≢ 0
      → addr % page_size ≡ 0
      → 0 < n
      → addr / page_size + n < 2 ^ 64
      → Frees (addr / page_size) (clipped p (addr / page_size) n) p (free_frames addr n p)
  unfolding free_frames
  free_frames-Frees addr n ne aligned pos h =
      rw (guard, sum)
        (lower_scan-Frees _
          (unmark_frames-Frees _ (addr / page_size) v (omega arith) (omega arith)))
    where
      guard : ((addr == 0) || not (addr % page_size == 0) || (n == 0)) ≡ false
      guard = ground arith

      sum : add64 (addr / page_size) n ≡ addr / page_size + n
      sum = omega arith

  -- `pmm_free_frames` keeps a valid state valid, whatever it is given.
  free_frames-IsValid : (addr n : ℕ) → IsValid (free_frames addr n p)
  unfolding free_frames
  free_frames-IsValid addr n =
      elim (Bool-cases ((addr == 0) || not (addr % page_size == 0) || (n == 0))) [
        | inl refused ↦ rw refused v
        | inr go ↦ rw go (
            lower_scan-IsValid
              (unmark_frames-Frees
                (min (add64 (addr / page_size) n) p.total_frames - addr / page_size)
                (addr / page_size) v (ground arith) (omega arith)).valid
              (addr / page_size / 64))
      ]

  -- In a valid state, on a frame's address other than `NULL`, `pmm_free_frame` frees that frame if it
  -- exists, and no other, and the state is valid.
  pub free_frame-Frees :
      (addr : ℕ)
      → addr ≢ 0
      → addr % page_size ≡ 0
      → Frees (addr / page_size) (clipped p (addr / page_size) 1) p (free_frame addr p)
  unfolding free_frame
  free_frame-Frees addr ne aligned =
      rw guard (elim (Bool-cases (leb p.total_frames (addr / page_size))) [
        | inl past ↦ rw past (unchanged (λ f. ground arith))
        | inr below ↦ rw below (elim (Bool-cases (used p (addr / page_size))) [
          | inl busy ↦
              rw (busy, one below)
                (lower_scan-Frees _
                  (unmark-Frees v (addr / page_size) (omega arith) (ground arith)))
          | inr clear ↦ rw clear (unchanged (λ f. ground arith))
        ])
      ])
    where
      guard : ((addr == 0) || not (addr % page_size == 0)) ≡ false
      guard = ground arith

      one : leb p.total_frames (addr / page_size) ≡ false → clipped p (addr / page_size) 1 ≡ 1
      one q = ground arith

      unchanged :
          ((f : ℕ)
            → used p f ≡ (
                if within (addr / page_size) (clipped p (addr / page_size) 1) f
                then false
                else used p f))
          → Frees (addr / page_size) (clipped p (addr / page_size) 1) p p
      unchanged same = record { bits = same; same_total = refl; valid = v }

  -- A refused address changes nothing.
  pub free-Refused :
      (addr n : ℕ) → Refused addr → (free_frame addr p ≡ p) × (free_frames addr n p ≡ p)
  unfolding free_frame free_frames
  free-Refused addr n r = ground arith

-- A valid state's counter is determined by its bits.
used_frames-eq :
    {p q : Pmm}
    → IsValid p
    → IsValid q
    → q.total_frames ≡ p.total_frames
    → ((f : ℕ) → used q f ≡ used p f)
    → q.used_frames ≡ p.used_frames
used_frames-eq {p} {q} v w t same =
    w.counted
    ∙ ap (count q.bitmap) t
    ∙ count-ext p.bitmap q.bitmap p.total_frames (λ g h. same g)
    ∙ sym v.counted

-- Releasing what an allocation returned frees the same frames again and brings the counter back.
pub free-Got :
    {n : ℕ} {p : Pmm} {r : ℕ × Pmm}
    → IsValid p
    → 0 < n
    → Got n p r
    → ((f : ℕ) → used (free_frames r.0 n r.1) f ≡ used p f)
      × ((free_frames r.0 n r.1).used_frames ≡ p.used_frames)
      × IsValid (free_frames r.0 n r.1)
free-Got {n} {p} {r} v pos g = (same, used_frames-eq v back.valid total same, back.valid)
  where
    page : r.0 / page_size ≡ g.frame
    page = omega (arith, g.address)

    back : Frees (r.0 / page_size) (clipped r.1 (r.0 / page_size) n) r.1 (free_frames r.0 n r.1)
    back =
        free_frames-Frees g.valid r.0 n g.not_null (omega (arith, g.address)) pos
          (omega (arith, page, g.takes.inside, v.small))

    total : (free_frames r.0 n r.1).total_frames ≡ p.total_frames
    total = back.same_total ∙ g.takes.same_total

    size : clipped r.1 (r.0 / page_size) n ≡ n
    size = omega (arith, page, g.takes.inside, g.takes.same_total)

    same : (f : ℕ) → used (free_frames r.0 n r.1) f ≡ used p f
    same f = ground (arith, back.bits f, g.takes.bits f, g.takes.were_free f, size, page)

-- From a valid state, when `pmm_alloc_frames` returns frames, `pmm_free_frames` of them brings the allocator back: the
-- same frames are free and the counter is the one from before.
pub free-alloc :
    {p : Pmm}
    → IsValid p
    → (n : ℕ) → 0 < n
    → (alloc_frames n p).0 ≢ 0
    → let (a, q) = alloc_frames n p in
      ((f : ℕ) → used (free_frames a n q) f ≡ used p f)
      × ((free_frames a n q).used_frames ≡ p.used_frames)
      × IsValid (free_frames a n q)
free-alloc v n pos ne = elim (alloc_frames_lem v n pos) [
  | inl got ↦ free-Got v pos got
  | inr (e, full) ↦ absurd (ne (ap (λ r. r.0) e))
]
