-- ===== src/Pmm/Owners.antt =====
-- Runs of the allocator: clients allocate and free in any order, and no frame has two owners.
use nova_os.Base.{
  ℕ, ◌+◌, ◌*◌, ◌/◌, ◌≤◌, ◌<◌, ◌≡◌, refl, sym, ap, ◌≢◌, inl, inr, List, [], ◌∷◌, ◌++◌, arith,
  if◌then◌else◌, page_size,
}
use mathlib.Core.Path.{subst}
use nova_os.Pmm.{Pmm, used, alloc_frames, free_frames}
use nova_os.Pmm.Valid.{within, IsValid}
use nova_os.Pmm.Frame.{Got}
use nova_os.Pmm.Runs.{alloc_frames_lem}
use nova_os.Pmm.Release.{clipped, free_frames-Frees}

-- What the clients hold: first frame and number of frames of each allocation.
abbrev pub Holdings : Type 0
Holdings = List (ℕ × ℕ)

unfoldable pub owners : Holdings → ℕ → ℕ
owners [] f = 0
owners ((s, n) ∷ hs) f = (if within s n f then 1 else 0) + owners hs f

-- A call of a client: an allocation that succeeds, one that fails, or the release of a holding.
pub data Step (p : Pmm) (hs : Holdings) (q : Pmm) (ks : Holdings) : Type 0 where
  alloc :
      (n : ℕ)
      → 0 < n
      → (alloc_frames n p).0 ≢ 0
      → q ≡ (alloc_frames n p).1
      → ks ≡ ((alloc_frames n p).0 / page_size, n) ∷ hs
      → Step p hs q ks
  refuse :
      (n : ℕ)
      → 0 < n
      → (alloc_frames n p).0 ≡ 0
      → q ≡ (alloc_frames n p).1
      → ks ≡ hs
      → Step p hs q ks
  free :
      (xs ys : Holdings) (s n : ℕ)
      → hs ≡ xs ++ (s, n) ∷ ys
      → q ≡ free_frames (s * page_size) n p
      → ks ≡ xs ++ ys
      → Step p hs q ks

pub data Run (p : Pmm) (hs : Holdings) : Pmm → Holdings → Type 0 where
  here : Run p hs p hs
  next : {q r : Pmm} {ks ls : Holdings} → Run p hs q ks → Step q ks r ls → Run p hs r ls

abbrev Proper : ℕ → Holdings → Type 0
Proper total [] = Unit
Proper total ((s, n) ∷ hs) = (0 < s) × (0 < n) × (s + n ≤ total) × Proper total hs

-- A held frame is in use, and held once.
pub record Owned (p : Pmm) (hs : Holdings) : Type 0 where
  pub valid : IsValid p
  pub once : (f : ℕ) → owners hs f ≤ (if used p f then 1 else 0)
  pub proper : Proper p.total_frames hs

owners-split :
    (xs ys : Holdings) (s n f : ℕ)
    → owners (xs ++ (s, n) ∷ ys) f ≡ (if within s n f then 1 else 0) + owners (xs ++ ys) f
unfolding owners
owners-split [] ys s n f = refl
owners-split ((t, m) ∷ xs) ys s n f = omega (arith, owners-split xs ys s n f)

Proper-split :
    (xs ys : Holdings) (s n total : ℕ)
    → Proper total (xs ++ (s, n) ∷ ys)
    → (0 < s) × (0 < n) × (s + n ≤ total) × Proper total (xs ++ ys)
Proper-split [] ys s n total h = h
Proper-split ((t, m) ∷ xs) ys s n total h =
    let r = Proper-split xs ys s n total h.3 in (r.0, r.1, r.2, (h.0, h.1, h.2, r.3))

alloc-Owned :
    {p : Pmm} {hs : Holdings} (n : ℕ) {r : ℕ × Pmm}
    → Owned p hs
    → 0 < n
    → Got n p r
    → Owned r.1 ((r.0 / page_size, n) ∷ hs)
unfolding owners
alloc-Owned {hs} n {r} o pos g = record {
  valid = g.valid;
  once = λ f. ground (arith, page, g.takes.bits f, g.takes.were_free f, o.once f);
  proper = (
    ground (arith, page, g.address, g.not_null),
    pos,
    omega (arith, page, g.takes.inside, g.takes.same_total),
    subst (λ t. Proper t hs) (sym g.takes.same_total) o.proper,
  );
}
  where
    page : r.0 / page_size ≡ g.frame
    page = omega (arith, g.address)

free-Owned :
    {p : Pmm} (xs ys : Holdings) (s n : ℕ)
    → Owned p (xs ++ (s, n) ∷ ys)
    → Owned (free_frames (s * page_size) n p) (xs ++ ys)
free-Owned {p} xs ys s n o =
    let (s_pos, n_pos, inside, rest) = Proper-split xs ys s n p.total_frames o.proper in
    let frees =
      free_frames-Frees o.valid (s * page_size) n (omega arith) (omega arith) n_pos
        (omega (arith, o.valid.small)) in
    record {
      valid = frees.valid;
      once =
          λ f. ground (arith, frees.bits f, owners-split xs ys s n f, o.once f, page, size inside);
      proper = subst (λ t. Proper t (xs ++ ys)) (sym frees.same_total) rest;
    }
  where
    page : s * page_size / page_size ≡ s
    page = omega arith

    size : s + n ≤ p.total_frames → clipped p (s * page_size / page_size) n ≡ n
    size h = omega (arith, page)

Step-Owned : {p q : Pmm} {hs ks : Holdings} → Step p hs q ks → Owned p hs → Owned q ks
Step-Owned (alloc n pos ne eq ek) o = elim (alloc_frames_lem o.valid n pos) [
  | inl got ↦ rw (eq, ek) (alloc-Owned n o pos got)
  | inr (e, full) ↦ absurd (ne (ap (λ r. r.0) e))
]
Step-Owned (refuse n pos no_memory eq ek) o = elim (alloc_frames_lem o.valid n pos) [
  | inl got ↦ absurd (got.not_null no_memory)
  | inr (e, full) ↦ rw (eq, ek, ap (λ r. r.1) e) o
]
Step-Owned (free xs ys s n eh eq ek) o = rw (eq, ek) (free-Owned xs ys s n (rw eh at o))

-- From a state in which nobody holds a frame, whatever the clients call, no frame is held twice
-- and every held frame is marked as used.
pub Run-Owned : {p q : Pmm} {ks : Holdings} → IsValid p → Run p [] q ks → Owned q ks
unfolding owners
Run-Owned v here = record { valid = v; once = λ f. ground arith; proper = tt }
Run-Owned v (next r st) = Step-Owned st (Run-Owned v r)
