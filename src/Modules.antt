-- ===== src/Modules.antt =====
-- Kernel modules, src/kernel/modules/module.c: where the sections of a module are placed, and its relocations. The
-- image is read into section headers, symbols and relocations before; its bytes are in the memory. Kernel
-- symbols are src/kernel/symbols/krsym.c.
pub mod Layout
pub mod Relocate
pub mod Load
mod Tests
use nova_os.Base.{
  ℕ, zero, suc, ◌+◌, ◌-◌, ◌*◌, ◌/◌, ◌%◌, ◌^◌, ◌≤◌, ◌<◌, min, max, bit_and, bit_or, ◌≡◌, refl, sym,
  ap, ◌∙◌, ◌≢◌, ◌↔◌, ◌⊎◌, inl, inr, Bool, true, false, not, ◌&&◌, ◌||◌, Option, none, some, List,
  [], ◌∷◌, ◌++◌, map, arith, ltb, leb, ◌==◌, if◌then◌else◌, ltb→lt, lt→ltb, leb→le, le→leb,
  ltb-false, leb-false, ==_iff, Bool-cases, Option-cases, length, get_elem?, set, replicate,
  length-append, length-replicate, length-set, get_elem?-set_self, get_elem?-set_ne, take, drop,
  length-take, length-drop, drop-drop, take-append_drop, drop-nil, u64_mod, add64, sub64, mul64,
  page_size, and_not, page_down, page_up, bit_and_step, bit_and-le, bit_and-mask, bit_or_step,
  bit_or-zero, bit_or-div, bit_or-mod, bit_or-bit,
}
use nova_os.Pmm.Valid.{within}
use nova_os.String.{Memory, memset, memcpy, store_word}
use nova_os.String.Compare.{strcmp}
use nova_os.Vmm.Entry.{has_bit}

pub record KernelSymbol : Type 0 where
  pub name : List ℕ
  pub addr : ℕ

-- 0: there is no such symbol.
unfoldable pub krsym_lookup : List KernelSymbol → List ℕ → ℕ
krsym_lookup [] name = 0
krsym_lookup (k ∷ ks) name =
    let rest = krsym_lookup ks name in if strcmp k.name name == 0 then k.addr else rest

pub record SectionHeader : Type 0 where
  pub sh_type : ℕ
  pub sh_flags : ℕ
  pub sh_offset : ℕ
  pub sh_size : ℕ
  pub sh_addralign : ℕ

pub record ModuleSection : Type 0 where
  pub virt_addr : ℕ
  pub size : ℕ
  pub flags : ℕ

-- SHF_ALLOC
abbrev pub is_alloc : SectionHeader → Bool
is_alloc s = has_bit s.sh_flags 1

abbrev pub align_of : SectionHeader → ℕ
align_of s = if s.sh_addralign == 0 then 1 else s.sh_addralign

-- (x + align - 1) & ~(align - 1)
abbrev pub align_up : ℕ → ℕ → ℕ
align_up x align = and_not (sub64 (add64 x align) 1) (align - 1)

-- The first loop of `module_load`, from the size so far.
unfoldable pub total_alloc_size : List SectionHeader → ℕ → ℕ
total_alloc_size [] total = total
total_alloc_size (s ∷ ss) total =
    if is_alloc s
    then total_alloc_size ss (add64 (align_up total (align_of s)) s.sh_size)
    else total_alloc_size ss total

abbrev pub module_pages : List SectionHeader → ℕ
module_pages ss = sub64 (add64 (total_alloc_size ss 0) page_size) 1 / page_size

-- What `kzalloc` leaves of a section that is not loaded.
abbrev pub no_section : ModuleSection
no_section = record { virt_addr = 0; size = 0; flags = 0 }

abbrev pub section_at : ℕ → SectionHeader → ModuleSection
section_at addr s = record { virt_addr = addr; size = s.sh_size; flags = s.sh_flags }

-- The second loop, from the offset `current_offset`: the sections, and the bytes that are copied or cleared.
unfoldable pub loaded_secs : ℕ → List SectionHeader → ℕ → List ModuleSection
loaded_secs base [] offset = []
loaded_secs base (s ∷ ss) offset =
    let start = align_up offset (align_of s) in
    if is_alloc s
    then section_at (add64 base start) s ∷ loaded_secs base ss (add64 start s.sh_size)
    else no_section ∷ loaded_secs base ss offset

-- SHT_NOBITS
abbrev load_section : ℕ → ℕ → SectionHeader → Memory → Memory
load_section raw addr s m =
    if s.sh_type == 8
    then memset addr 0 s.sh_size m
    else memcpy addr (add64 raw s.sh_offset) s.sh_size m

unfoldable pub load_sections : ℕ → ℕ → List SectionHeader → ℕ → Memory → Memory
load_sections raw base [] offset m = m
load_sections raw base (s ∷ ss) offset m =
    let start = align_up offset (align_of s) in
    if is_alloc s
    then load_sections raw base ss (add64 start s.sh_size) (load_section raw (add64 base start) s m)
    else load_sections raw base ss offset m

pub record Symbol : Type 0 where
  pub st_name : List ℕ
  pub st_shndx : ℕ
  pub st_value : ℕ

pub record Rela : Type 0 where
  pub r_offset : ℕ
  pub r_sym : ℕ
  pub r_type : ℕ
  pub r_addend : ℕ

-- SHN_UNDEF, SHN_ABS, or a section.
unfoldable pub symbol_value : List KernelSymbol → List ModuleSection → Symbol → Option ℕ
symbol_value ks secs sym =
    if sym.st_shndx == 0
    then (if krsym_lookup ks sym.st_name == 0 then none else some (krsym_lookup ks sym.st_name))
    else if sym.st_shndx == 0xfff1
    then some sym.st_value
    else elim (get_elem? secs sym.st_shndx) [
      | none ↦ none
      | some sec ↦ some (add64 sec.virt_addr sym.st_value)
    ]

-- `*(uint32_t *)p = val`, the lowest byte first
unfoldable pub store_half : ℕ → ℕ → Memory → Memory
store_half p val m x = if within p 4 x then val / 256 ^ (x - p) % 256 else m x

-- The value fits in 32 bits with its sign.
abbrev pub fits_signed : ℕ → Bool
fits_signed val = ltb val (2 ^ 31) || leb (2 ^ 64 - 2 ^ 31) val

abbrev pub store_signed : ℕ → ℕ → Memory → Option Memory
store_signed p val m = if fits_signed val then some (store_half p val m) else none

-- The switch on the type: NONE, 64, PC32, PLT32, 32, 32S. `s` is the symbol's value.
unfoldable pub relocate : ℕ → ℕ → ℕ → ℕ → Memory → Option Memory
relocate type p s a m =
    if type == 0
    then some m
    else if type == 1
    then some (store_word p (add64 s a) m)
    else if type == 10
    then (if ltb 0xffffffff (add64 s a) then none else some (store_half p (add64 s a) m))
    else if type == 11
    then store_signed p (add64 s a) m
    else if (type == 2) || (type == 4)
    then store_signed p (sub64 (add64 s a) p) m
    else none

unfoldable pub apply_relocation :
    List KernelSymbol → List ModuleSection → List Symbol → ℕ → Rela → Memory → Option Memory
apply_relocation ks secs symtab target r m = elim (get_elem? symtab r.r_sym) [
  | none ↦ none
  | some sym ↦ elim (symbol_value ks secs sym) [
    | none ↦ none
    | some s ↦ relocate r.r_type (add64 target r.r_offset) s r.r_addend m
  ]
]

unfoldable pub relocate_all :
    List KernelSymbol → List ModuleSection → List Symbol → ℕ → List Rela → Memory → Option Memory
relocate_all ks secs symtab target [] m = some m
relocate_all ks secs symtab target (r ∷ rs) m = elim (apply_relocation ks secs symtab target r m) [
  | none ↦ none
  | some m' ↦ relocate_all ks secs symtab target rs m'
]

-- A section that is not loaded has no relocations.
unfoldable pub apply_relocations :
    List KernelSymbol → List ModuleSection → List Symbol → ℕ → List Rela → Memory → Option Memory
apply_relocations ks secs symtab target rs m =
    if target == 0 then some m else relocate_all ks secs symtab target rs m

-- A loaded module: its address as an object, and what it was loaded to.
pub record Module : Type 0 where
  pub mod_addr : ℕ
  pub name : List ℕ
  pub base_addr : ℕ
  pub page_count : ℕ

unfoldable pub module_find : List Module → List ℕ → Option Module
module_find [] name = none
module_find (m ∷ ms) name =
    let rest = module_find ms name in if strcmp m.name name == 0 then some m else rest

-- The start of `module_unload`: the list without the module at `addr`; `none`: it is not registered.
unfoldable pub unlink_module : List Module → ℕ → Option (Module × List Module)
unlink_module [] addr = none
unlink_module (m ∷ ms) addr =
    let rest = unlink_module ms addr in
    if m.mod_addr == addr
    then some (m, ms)
    else elim rest [ none ↦ none | some (u, us) ↦ some (u, m ∷ us) ]
