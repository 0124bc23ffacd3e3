-- ===== src/Modules/Load.antt =====
-- Loading and unloading of modules, src/kernel/modules/module.c. The tables of the image are read before; whether memory
-- for a node, the pages and the objects is had, and whether the module's own functions succeed, are parameters.
pub mod Valid
pub mod Start
pub mod Run
use nova_os.Base.{
  ℕ, zero, suc, ◌+◌, ◌-◌, ◌*◌, ◌/◌, ◌%◌, ◌^◌, ◌≤◌, ◌<◌, min, max, bit_and, bit_or, ◌≡◌, refl, sym,
  ap, ◌∙◌, ◌≢◌, ◌↔◌, ◌⊎◌, inl, inr, Bool, true, false, not, ◌&&◌, ◌||◌, Option, none, some, List,
  [], ◌∷◌, ◌++◌, map, arith, ltb, leb, ◌==◌, if◌then◌else◌, ltb→lt, lt→ltb, leb→le, le→leb,
  ltb-false, leb-false, ==_iff, Bool-cases, Option-cases, length, get_elem?, set, replicate,
  length-append, length-replicate, length-set, get_elem?-set_self, get_elem?-set_ne, take, drop,
  length-take, length-drop, drop-drop, take-append_drop, drop-nil, u64_mod, add64, sub64, mul64,
  page_size, and_not, page_down, page_up, bit_and_step, bit_and-le, bit_and-mask, bit_or_step,
  bit_or-zero, bit_or-div, bit_or-mod, bit_or-bit,
}
use nova_os.String.{Memory}
use nova_os.String.Compare.{strcmp}
use nova_os.Heap.{FreeRange, VirtualPages, recycle_module_range, alloc_range}
use nova_os.Modules.{
  KernelSymbol, SectionHeader, ModuleSection, total_alloc_size, module_pages, loaded_secs,
  load_sections, Symbol, Rela, apply_relocations, Module, unlink_module,
}

-- The file header, `Elf64_Ehdr`.
pub record FileHeader : Type 0 where
  pub e_ident : ℕ → ℕ
  pub e_type : ℕ
  pub e_machine : ℕ
  pub e_shoff : ℕ
  pub e_shnum : ℕ
  pub e_shentsize : ℕ

-- An image at `raw`: its header and tables. `symtab` is that of the first section of type SHT_SYMTAB; `relas` are the
-- sections of type SHT_RELA in order, each with its `sh_info`.
pub record Image : Type 0 where
  pub raw : ℕ
  pub elf_size : ℕ
  pub ehdr : FileHeader
  pub shdrs : List SectionHeader
  pub symtab : Option (List Symbol)
  pub relas : List (ℕ × List Rela)

unfoldable pub is_valid_header : FileHeader → Bool
is_valid_header e =
    (e.e_ident 0 == 0x7f)
    && (e.e_ident 1 == 69)
    && (e.e_ident 2 == 76)
    && (e.e_ident 3 == 70)
    && (e.e_ident 4 == 2)
    && (e.e_ident 5 == 1)
    && (e.e_machine == 62)
    && (e.e_type == 1)

unfoldable pub is_loadable : Image → Bool
is_loadable i =
    leb 64 i.elf_size
    && is_valid_header i.ehdr
    && leb (add64 i.ehdr.e_shoff (i.ehdr.e_shnum * i.ehdr.e_shentsize)) i.elf_size

-- Whether the calls of the kernel's functions have what they ask for: the pages from an address, the node of
-- a range that is given back, `loaded_secs`, the copy of the name, and the address of the module. `beyond` is what stands
-- behind the sections; `init` tells whether the function at an address, in a memory, returns 0.
pub record World : Type 0 where
  pub symbols : List KernelSymbol
  pub maps : ℕ → Bool
  pub node : Bool
  pub room_for_secs : Bool
  pub room_for_name : Bool
  pub module_at : Option ℕ
  pub beyond : ℕ → ℕ
  pub init : ℕ → Memory → Bool

-- The free ranges of the modules' addresses, and the modules, the last one that was loaded first.
pub record Loader : Type 0 where
  pub pages : VirtualPages
  pub loaded : List Module

-- MODULE_BASE_VADDR
abbrev pub module_base : ℕ
module_base = 0xffff_ffff_9000_0000

abbrev pub module_init : Loader
module_init = record { pages = record { cursor = module_base; ranges = [] }; loaded = [] }

-- `recycle_module_range` and the rest of `alloc_module_pages` are in `Heap`.
unfoldable pub alloc_module_pages : World → ℕ → VirtualPages → Option ℕ × VirtualPages
alloc_module_pages w page_count v =
    if page_count == 0 then (none, v) else alloc_range w.maps w.node page_count v

unfoldable pub free_module_pages : World → ℕ → ℕ → VirtualPages → VirtualPages
free_module_pages w virt_base page_count v =
    if (virt_base == 0) || (page_count == 0) then v else record v {
      ranges =
          recycle_module_range w.node (record { virt_addr = virt_base; page_count = page_count })
            v.ranges;
    }

-- `loaded_secs[i].virt_addr`
unfoldable pub section_addr : World → List ModuleSection → ℕ → ℕ
section_addr w secs i = elim (get_elem? secs i) [ none ↦ w.beyond i | some sec ↦ sec.virt_addr ]

-- The function of a name, by its last symbol; 0: there is none.
unfoldable pub entry_of : World → List ModuleSection → List ℕ → List Symbol → ℕ → ℕ
entry_of w secs name [] fn = fn
entry_of w secs name (s ∷ ss) fn =
    entry_of w secs name ss
      (if strcmp s.st_name name == 0 then add64 (section_addr w secs s.st_shndx) s.st_value else fn)

unfoldable pub relocate_sections :
    World → List ModuleSection → List Symbol → List (ℕ × List Rela) → Memory → Option Memory
relocate_sections w secs symtab [] m = some m
relocate_sections w secs symtab ((info, rs) ∷ rest) m =
    elim (apply_relocations w.symbols secs symtab (section_addr w secs info) rs m) [
      | none ↦ none
      | some m' ↦ relocate_sections w secs symtab rest m'
    ]

-- "driver_init"
abbrev pub driver_init : List ℕ
driver_init = 100 ∷ 114 ∷ 105 ∷ 118 ∷ 101 ∷ 114 ∷ 95 ∷ 105 ∷ 110 ∷ 105 ∷ 116 ∷ []

-- The end of `module_load`, from the relocated memory: the module object and its `driver_init`.
unfoldable pub start_module :
    World → Image → List ℕ → ℕ → List Symbol → Memory → Option (Module × Memory)
start_module w i name base symtab m =
    let init_fn = entry_of w (loaded_secs base i.shdrs 0) driver_init symtab 0 in
    if init_fn == 0 then none else if not w.room_for_name then none else elim w.module_at [
      | none ↦ none
      | some addr ↦
          if w.init init_fn m
          then some (
            record {
              mod_addr = addr;
              name = name;
              base_addr = base;
              page_count = module_pages i.shdrs;
            },
            m,
          )
          else none
    ]

-- `module_load` from the sections on, at the pages from `base` on; `none`: all that it has is given back.
unfoldable pub load_at : World → Image → List ℕ → ℕ → Memory → Option (Module × Memory)
load_at w i name base m = if not w.room_for_secs then none else elim i.symtab [
  | none ↦ none
  | some symtab ↦
      elim (relocate_sections w (loaded_secs base i.shdrs 0) symtab i.relas
        (load_sections i.raw base i.shdrs 0 m)) [
          | none ↦ none
          | some m' ↦ start_module w i name base symtab m'
        ]
]

-- The module with the memory; `none`: NULL.
unfoldable pub module_load :
    World → Image → List ℕ → Memory → Loader → Option (Module × Memory) × Loader
module_load w i name m l =
    if not (is_loadable i)
    then (none, l)
    else if total_alloc_size i.shdrs 0 == 0
    then (none, l)
    else let (b, v) = alloc_module_pages w (module_pages i.shdrs) l.pages in
      elim b [
        | none ↦ (none, record l { pages = v })
        | some base ↦ elim (load_at w i name base m) [
          | none ↦ (none, record l { pages = free_module_pages w base (module_pages i.shdrs) v })
          | some (u, m') ↦ (some (u, m'), record { pages = v; loaded = u ∷ l.loaded })
        ]
      ]

-- 0, or -1 where the module is not registered, which is `false`.
unfoldable pub module_unload : World → ℕ → Loader → Bool × Loader
module_unload w addr l = elim (unlink_module l.loaded addr) [
  | none ↦ (false, l)
  | some (u, ms) ↦
      (true, record { pages = free_module_pages w u.base_addr u.page_count l.pages; loaded = ms })
]
