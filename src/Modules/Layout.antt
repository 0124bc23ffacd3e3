-- ===== src/Modules/Layout.antt =====
-- Where the sections of a module are placed: `module_load`, its two loops.
use nova_os.Base.{
  ℕ, ◌+◌, ◌-◌, ◌*◌, ◌/◌, ◌%◌, ◌^◌, ◌≤◌, ◌<◌, bit_and, ◌≡◌, refl, sym, ap, ◌∙◌, inl, inr, true,
  false, List, [], ◌∷◌, arith, if◌then◌else◌, Bool-cases, add64, sub64, page_size, and_not,
  bit_and-mask,
}
use mathlib.Core.Path.{subst}
use native.Mathlib.Nat.{mod-lt, div-add-mod, mul-mod_right, one-le-pow}
use nova_os.Modules.{
  SectionHeader, ModuleSection, is_alloc, align_of, align_up, total_alloc_size, module_pages,
  no_section, section_at, loaded_secs,
}

-- The alignments are powers of two.
unfoldable pub PowersOfTwo : List SectionHeader → Type 0
PowersOfTwo [] = Unit
PowersOfTwo (s ∷ ss) = ((k : ℕ) × (align_of s ≡ 2 ^ k)) × PowersOfTwo ss

-- The bytes of the sections, with those that an alignment can take.
unfoldable pub room : List SectionHeader → ℕ
room [] = 0
room (s ∷ ss) = align_of s + s.sh_size + room ss

-- The sections `ms` of the headers, from the offset `lo` of the base: each that is loaded is behind those before
-- it, on a multiple of its alignment, as large as its header says, and it ends by the offset `hi`.
pub data Laid (base hi : ℕ) : ℕ → List SectionHeader → List ModuleSection → Type 0 where
  over : (lo : ℕ) → lo ≤ hi → Laid base hi lo [] []
  skipped :
      (lo : ℕ) (s : SectionHeader) (ss : List SectionHeader) (ms : List ModuleSection)
      → is_alloc s ≡ false
      → Laid base hi lo ss ms
      → Laid base hi lo (s ∷ ss) (no_section ∷ ms)
  placed :
      (lo start : ℕ) (s : SectionHeader) (ss : List SectionHeader) (ms : List ModuleSection)
      → is_alloc s ≡ true
      → lo ≤ start
      → start % align_of s ≡ 0
      → start + s.sh_size ≤ hi
      → Laid base hi (start + s.sh_size) ss ms
      → Laid base hi lo (s ∷ ss) (section_at (base + start) s ∷ ms)

record Rounded (x a r : ℕ) : Type 0 where
  pub above : x ≤ r
  pub near : r < x + a
  pub exact : r % a ≡ 0

align_up-Rounded : (x k : ℕ) → x + 2 ^ k < 2 ^ 64 → Rounded x (2 ^ k) (align_up x (2 ^ k))
unfolding and_not
align_up-Rounded x k h = record {
  above = omega (
    arith,
    one-le-pow k 2 (omega arith),
    exactly,
    split,
    mod-lt y {m = 2 ^ k} (one-le-pow k 2 (omega arith)),
  );
  near = omega (arith, one-le-pow k 2 (omega arith), exactly, split);
  exact = ap (λ t. t % 2 ^ k) exactly ∙ mul-mod_right (2 ^ k) (y / 2 ^ k);
}
  where
    y : ℕ
    y = x + 2 ^ k - 1

    wrapped : sub64 (add64 x (2 ^ k)) 1 ≡ y
    wrapped = omega (arith, one-le-pow k 2 (omega arith))

    split : y ≡ 2 ^ k * (y / 2 ^ k) + y % 2 ^ k
    split = sym (div-add-mod y (2 ^ k))

    exactly : align_up x (2 ^ k) ≡ 2 ^ k * (y / 2 ^ k)
    exactly =
        ap (λ t. t - bit_and t (2 ^ k - 1)) wrapped
        ∙ ap (λ t. y - t) (bit_and-mask k y)
        ∙ omega (arith, split)

align-Rounded :
    (x : ℕ) (s : SectionHeader) (p : (k : ℕ) × (align_of s ≡ 2 ^ k))
    → x + align_of s < 2 ^ 64
    → Rounded x (align_of s) (align_up x (align_of s))
align-Rounded x s (k, e) h =
    subst (λ a. Rounded x a (align_up x a)) (sym e)
      (align_up-Rounded x k (subst (λ a. x + a < 2 ^ 64) e h))

-- What both loops do at a section that is loaded, or not.
total-loaded :
    (s : SectionHeader) (ss : List SectionHeader) (x : ℕ)
    → is_alloc s ≡ true
    → total_alloc_size (s ∷ ss) x ≡ total_alloc_size ss (add64 (align_up x (align_of s)) s.sh_size)
unfolding total_alloc_size
total-loaded s ss x q =
    ap
      (λ b.
        if b
        then total_alloc_size ss (add64 (align_up x (align_of s)) s.sh_size)
        else total_alloc_size ss x)
      q

total-skipped :
    (s : SectionHeader) (ss : List SectionHeader) (x : ℕ)
    → is_alloc s ≡ false
    → total_alloc_size (s ∷ ss) x ≡ total_alloc_size ss x
unfolding total_alloc_size
total-skipped s ss x q =
    ap
      (λ b.
        if b
        then total_alloc_size ss (add64 (align_up x (align_of s)) s.sh_size)
        else total_alloc_size ss x)
      q

abbrev placed_at : ℕ → SectionHeader → List SectionHeader → ℕ → List ModuleSection
placed_at base s ss start =
    section_at (add64 base start) s ∷ loaded_secs base ss (add64 start s.sh_size)

secs-loaded :
    (base : ℕ) (s : SectionHeader) (ss : List SectionHeader) (x : ℕ)
    → is_alloc s ≡ true
    → loaded_secs base (s ∷ ss) x ≡ placed_at base s ss (align_up x (align_of s))
unfolding loaded_secs
secs-loaded base s ss x q =
    ap
      (λ b.
        if b
        then placed_at base s ss (align_up x (align_of s))
        else no_section ∷ loaded_secs base ss x)
      q

secs-skipped :
    (base : ℕ) (s : SectionHeader) (ss : List SectionHeader) (x : ℕ)
    → is_alloc s ≡ false
    → loaded_secs base (s ∷ ss) x ≡ no_section ∷ loaded_secs base ss x
unfolding loaded_secs
secs-skipped base s ss x q =
    ap
      (λ b.
        if b
        then placed_at base s ss (align_up x (align_of s))
        else no_section ∷ loaded_secs base ss x)
      q

total-nil : (x : ℕ) → total_alloc_size [] x ≡ x
unfolding total_alloc_size
total-nil x = refl

none_left : (base hi x : ℕ) → total_alloc_size [] x ≤ hi → Laid base hi x [] (loaded_secs base [] x)
unfolding total_alloc_size loaded_secs
none_left base hi x t = over x t

-- The first loop ends at or behind the offset that it is given, and needs no more than the room.
total-grows :
    (ss : List SectionHeader) (x : ℕ)
    → PowersOfTwo ss
    → x + room ss < 2 ^ 64
    → (x ≤ total_alloc_size ss x) × (total_alloc_size ss x ≤ x + room ss)
unfolding PowersOfTwo room
total-grows [] x p h = omega (arith, total-nil x)
total-grows (s ∷ ss) x (p, ps) h = elim (Bool-cases (is_alloc s)) [
  | inl q ↦
      let r = align_up x (align_of s) in
      let rd = align-Rounded x s p (omega arith) in
      omega (
        arith,
        total-loaded s ss x q,
        rd.above,
        rd.near,
        total-grows ss (add64 r s.sh_size) ps (omega arith),
      )
  | inr q ↦ omega (arith, total-skipped s ss x q, total-grows ss x ps (omega arith))
]

laid :
    (base hi : ℕ) (ss : List SectionHeader) (x : ℕ)
    → PowersOfTwo ss
    → base + (x + room ss) < 2 ^ 64
    → total_alloc_size ss x ≤ hi
    → Laid base hi x ss (loaded_secs base ss x)
unfolding PowersOfTwo room
laid base hi [] x p h t = none_left base hi x t
laid base hi (s ∷ ss) x (p, ps) h t = elim (Bool-cases (is_alloc s)) [
  | inl q ↦
      let r = align_up x (align_of s) in
      let rd = align-Rounded x s p (omega arith) in
      let behind : add64 r s.sh_size ≡ r + s.sh_size = omega (arith, rd.near) in
      let there : add64 base r ≡ base + r = omega (arith, rd.near) in
      let size = total-loaded s ss x q ∙ ap (total_alloc_size ss) behind in
      let last = total-grows ss (r + s.sh_size) ps (omega (arith, rd.near)) in
      let rest =
        laid base hi ss (r + s.sh_size) ps (omega (arith, rd.near)) (omega (arith, t, size)) in
      subst (Laid base hi x (s ∷ ss))
        (sym (
          secs-loaded base s ss x q
          ∙ ap (λ t. section_at t s ∷ loaded_secs base ss (add64 r s.sh_size)) there
          ∙ ap (λ t. section_at (base + r) s ∷ loaded_secs base ss t) behind))
        (placed x r s ss (loaded_secs base ss (r + s.sh_size)) q rd.above rd.exact
          (omega (arith, t, size, last)) rest)
  | inr q ↦ subst (Laid base hi x (s ∷ ss)) (sym (secs-skipped base s ss x q)) (
      skipped x s ss (loaded_secs base ss x) q
        (laid base hi ss x ps (omega arith) (omega (arith, t, total-skipped s ss x q))))
]

-- With alignments that are powers of two, a base above the first page, and no wrap of the base with all sizes and alignments, the sections that
-- are loaded are placed one behind the other, each at an offset on a multiple of its alignment and as large as its
-- header says, and all of them within the pages that `module_load` asks for; the others stay empty.
pub loaded_secs-Laid :
    (base : ℕ) (ss : List SectionHeader)
    → PowersOfTwo ss
    → page_size ≤ base
    → base + room ss < 2 ^ 64
    → Laid base (module_pages ss * page_size) 0 ss (loaded_secs base ss 0)
loaded_secs-Laid base ss p above h =
    laid base (module_pages ss * page_size) ss 0 p (omega arith)
      (omega (arith, total-grows ss 0 p (omega arith), above))
