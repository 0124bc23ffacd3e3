-- ===== src/Modules/Load/Valid.antt =====
-- The pages of the modules, beside the free ranges, and what taking a module off the list leaves of them.
use nova_os.Base.{
  ℕ, ◌<◌, ◌≡◌, refl, ap, ◌∙◌, inl, inr, true, false, Option, none, some, List, [], ◌∷◌, arith, ◌==◌,
  Bool-cases,
}
use nova_os.Heap.Kmalloc.Placed.{Placed, put}
use nova_os.Modules.{Module, unlink_module}
use nova_os.Modules.Load.{Loader, module_base}

-- How many pages the modules have at an address.
unfoldable pub spans : List Module → ℕ → ℕ
spans [] a = 0
spans (m ∷ ms) a = put m.base_addr m.page_count (spans ms) a

-- Each module has pages of its own.
unfoldable pub Housed : List Module → Type 0
Housed [] = Unit
Housed (m ∷ ms) = (spans ms m.base_addr ≡ 0) × (0 < m.page_count) × Housed ms

-- The pages of the modules lie apart from each other and from the free ranges, on multiples of the page size, from
-- MODULE_BASE_VADDR on and below the cursor.
pub record IsValid (l : Loader) : Type 0 where
  pub housed : Housed l.loaded
  pub placed : Placed module_base (spans l.loaded) l.pages

pub record Left (ms : List Module) (u : Module) (us : List Module) : Type 0 where
  pub housed : Housed us
  pub held : spans ms u.base_addr ≡ u.page_count
  pub some_pages : 0 < u.page_count
  pub rest : (a : ℕ) → spans us a ≡ put u.base_addr 0 (spans ms) a

abbrev pub Unlinked : List Module → Option (Module × List Module) → Type 0
Unlinked ms none = Unit
Unlinked ms (some (u, us)) = Left ms u us

number : (a b : ℕ) → (a == b) ≡ true → a ≡ b
number a b h = ground arith

pub unlink_module-Left :
    (ms : List Module) (addr : ℕ) → Housed ms → Unlinked ms (unlink_module ms addr)
unfolding unlink_module Housed spans
unlink_module-Left [] addr h = tt
unlink_module-Left (m ∷ ms) addr (e, n, h) = elim (Bool-cases (m.mod_addr == addr)) [
  | inl q ↦ rw q (record {
    housed = h;
    held = ground arith;
    some_pages = n;
    rest = λ a. elim (Bool-cases (a == m.base_addr)) [
      | inl p ↦ rw p (ap (spans ms) (number a m.base_addr p) ∙ e)
      | inr p ↦ rw p refl
    ];
  })
  | inr q ↦ rw q (behind (unlink_module ms addr) (unlink_module-Left ms addr h))
]
  where
    behind :
        (r : Option (Module × List Module))
        → Unlinked ms r
        → Unlinked (m ∷ ms) (elim r [ none ↦ none | some (u, us) ↦ some (u, m ∷ us) ])
    behind none t = tt
    behind (some (u, us)) t = record {
      housed = (ground (arith, t.rest m.base_addr, e), n, t.housed);
      held = rw (apart t) t.held;
      some_pages = t.some_pages;
      rest = λ a. elim (Bool-cases (a == m.base_addr)) [
        | inl p ↦ rw p (rw (omits a p t) refl)
        | inr p ↦ rw p (t.rest a)
      ];
    }
      where
        apart : Left ms u us → (u.base_addr == m.base_addr) ≡ false
        apart t = elim (Bool-cases (u.base_addr == m.base_addr)) [
          | inl p ↦ absurd (
              omega
                (arith, ap (spans ms) (number u.base_addr m.base_addr p), e, t.held, t.some_pages))
          | inr p ↦ p
        ]

        omits : (a : ℕ) → (a == m.base_addr) ≡ true → Left ms u us → (a == u.base_addr) ≡ false
        omits a p t = ground (arith, apart t, number a m.base_addr p)
