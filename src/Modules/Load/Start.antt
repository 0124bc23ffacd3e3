-- ===== src/Modules/Load/Start.antt =====
-- A module that is started has the pages it was given.
use nova_os.Base.{ℕ, ◌≡◌, refl, not, Option, none, some, List, ◌==◌, if◌then◌else◌}
use nova_os.String.{Memory}
use nova_os.Modules.{Module, Symbol, module_pages, loaded_secs, load_sections}
use nova_os.Modules.Relocate.{branches}
use nova_os.Modules.Load.{
  Image, driver_init, entry_of, relocate_sections, World, load_at, start_module,
}

-- The module that is started has the pages it was given.
abbrev pub StartedAt : ℕ → ℕ → Option (Module × Memory) → Type 0
StartedAt base count none = Unit
StartedAt base count (some (u, m)) = (u.base_addr ≡ base) × (u.page_count ≡ count)

start_module-StartedAt :
    (w : World) (i : Image) (name : List ℕ) (base : ℕ) (syms : List Symbol) (m : Memory)
    → StartedAt base (module_pages i.shdrs) (start_module w i name base syms m)
unfolding start_module
start_module-StartedAt w i name base syms m =
    branches S (entry == 0) (λ _. tt)
      (λ _. branches S (not w.room_for_name) (λ _. tt) (λ _. at_object w.module_at))
  where
    entry : ℕ
    entry = entry_of w (loaded_secs base i.shdrs 0) driver_init syms 0

    S : Option (Module × Memory) → Type 0
    S = StartedAt base (module_pages i.shdrs)

    at_object :
        (r : Option ℕ)
        → S (elim r [
          | none ↦ none
          | some addr ↦
              if w.init entry m
              then some (
                record {
                  mod_addr = addr;
                  name = name;
                  base_addr = base;
                  page_count = module_pages i.shdrs;
                },
                m,
              )
              else none
        ])
    at_object none = tt
    at_object (some addr) = branches S (w.init entry m) (λ _. (refl, refl)) (λ _. tt)

pub load_at-StartedAt :
    (w : World) (i : Image) (name : List ℕ) (base : ℕ) (m : Memory)
    → StartedAt base (module_pages i.shdrs) (load_at w i name base m)
unfolding load_at
load_at-StartedAt w i name base m =
    branches S (not w.room_for_secs) (λ _. tt) (λ _. with_symbols i.symtab)
  where
    S : Option (Module × Memory) → Type 0
    S = StartedAt base (module_pages i.shdrs)

    relocated :
        (syms : List Symbol) (r : Option Memory)
        → S (elim r [ none ↦ none | some m' ↦ start_module w i name base syms m' ])
    relocated syms none = tt
    relocated syms (some m') = start_module-StartedAt w i name base syms m'

    with_symbols :
        (r : Option (List Symbol))
        → S (elim r [
          | none ↦ none
          | some syms ↦
              elim (relocate_sections w
                (loaded_secs base i.shdrs 0)
                syms
                i.relas
                (load_sections i.raw base i.shdrs 0 m)) [
                  | none ↦ none
                  | some m' ↦ start_module w i name base syms m'
                ]
        ])
    with_symbols none = tt
    with_symbols (some syms) = relocated syms (
        relocate_sections w (loaded_secs base i.shdrs 0) syms i.relas
          (load_sections i.raw base i.shdrs 0 m))
