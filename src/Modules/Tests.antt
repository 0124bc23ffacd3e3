-- ===== src/Modules/Tests.antt =====
-- A module of code, a table of symbols that is not loaded, and cleared data.
use nova_os.Base.{
  ℕ, ◌^◌, ◌≡◌, refl, true, none, some, List, [], ◌∷◌, arith, ◌*◌, ◌+◌, ◌-◌, ◌<◌, page_size, and_not,
  get_elem?,
}
use nova_os.String.Compare.{strcmp}
use nova_os.String.{Memory}
use nova_os.Modules.{
  KernelSymbol, krsym_lookup, SectionHeader, total_alloc_size, module_pages, loaded_secs,
  symbol_value, relocate, Module, module_find, unlink_module,
}
use nova_os.Modules.Layout.{PowersOfTwo, room, Laid, loaded_secs-Laid}
use nova_os.Modules.Load.{Image, World, module_init, is_loadable, is_valid_header}
use nova_os.Modules.Load.Valid.{IsValid}
use nova_os.Modules.Load.Run.{load, unload, calls, Call, InReach, calls-IsValid}
use nova_os.Modules.Relocate.{Applied, relocate-Applied}

abbrev headers : List SectionHeader
headers =
    record { sh_type = 1; sh_flags = 6; sh_offset = 0x40; sh_size = 0x123; sh_addralign = 16 }
    ∷ record { sh_type = 2; sh_flags = 0; sh_offset = 0x180; sh_size = 0x60; sh_addralign = 8 }
    ∷ record { sh_type = 8; sh_flags = 3; sh_offset = 0x200; sh_size = 10; sh_addralign = 32 }
    ∷ []

headers-PowersOfTwo : PowersOfTwo headers
unfolding PowersOfTwo
headers-PowersOfTwo = ((4, refl), ((3, refl), ((5, refl), tt)))

headers_room : 0xffff_ffff_9000_0000 + room headers < 2 ^ 64
unfolding room
headers_room = omega arith

loaded_secs-Laid_example :
    Laid 0xffff_ffff_9000_0000
      (module_pages headers * page_size)
      0
      headers
      (loaded_secs 0xffff_ffff_9000_0000 headers 0)
loaded_secs-Laid_example =
    loaded_secs-Laid 0xffff_ffff_9000_0000 headers headers-PowersOfTwo (omega arith) headers_room

-- The data starts on the next multiple of 32.
headers_size : total_alloc_size headers 0 ≡ 0x14a
unfolding total_alloc_size and_not
headers_size = refl

abbrev empty : Memory
empty x = 0

-- A call backwards: four bytes, 0xfffffff0 with its sign.
relocate-Applied_example :
    Applied 4 0x1014 (0x1004) empty (relocate 4 0x1014 0x1008 (2 ^ 64 - 4) empty)
relocate-Applied_example = relocate-Applied 4 0x1014 0x1008 (2 ^ 64 - 4) empty (omega arith)

abbrev kernel_syms : List KernelSymbol
kernel_syms =
    record { name = 107 ∷ 49 ∷ []; addr = 0xffff_ffff_8000_0000 }
    ∷ record { name = 107 ∷ 50 ∷ []; addr = 0xffff_ffff_8000_0040 }
    ∷ []

second_found : krsym_lookup kernel_syms (107 ∷ 50 ∷ []) ≡ 0xffff_ffff_8000_0040
unfolding krsym_lookup strcmp
second_found = refl

unresolved :
    symbol_value kernel_syms [] (record { st_name = 107 ∷ []; st_shndx = 0; st_value = 0 }) ≡ none
unfolding krsym_lookup symbol_value strcmp
unresolved = refl

abbrev two_modules : List Module
two_modules =
    record { mod_addr = 0x100; name = 97 ∷ []; base_addr = 0x1000; page_count = 1 }
    ∷ record { mod_addr = 0x200; name = 98 ∷ []; base_addr = 0x3000; page_count = 2 }
    ∷ []

second_module : module_find two_modules (98 ∷ []) ≡ get_elem? two_modules 1
unfolding module_find strcmp
second_module = refl

not_registered : unlink_module two_modules 0x300 ≡ none
unfolding unlink_module
not_registered = refl

abbrev ident : List ℕ
ident = 0x7f ∷ 69 ∷ 76 ∷ 70 ∷ 2 ∷ 1 ∷ []

abbrev driver_name : List ℕ
driver_name = 100 ∷ 114 ∷ 105 ∷ 118 ∷ 101 ∷ 114 ∷ 95 ∷ 105 ∷ 110 ∷ 105 ∷ 116 ∷ []

abbrev image : Image
image = record {
  raw = 0x5000;
  elf_size = 0x400;
  ehdr = record {
    e_ident = λ k. elim (get_elem? ident k) [ none ↦ 0 | some b ↦ b ];
    e_type = 1;
    e_machine = 62;
    e_shoff = 0x280;
    e_shnum = 3;
    e_shentsize = 64;
  };
  shdrs = headers;
  symtab = some (record { st_name = driver_name; st_shndx = 0xfff1; st_value = 0x40 } ∷ []);
  relas = [];
}

abbrev world : World
world = record {
  symbols = kernel_syms;
  maps = λ a. true;
  node = true;
  room_for_secs = true;
  room_for_name = true;
  module_at = some 0x100;
  beyond = λ i. 0;
  init = λ f m. true;
}

abbrev load_and_unload : List Call
load_and_unload = load world image (97 ∷ []) empty ∷ unload world 0x100 ∷ []

load_and_unload-InReach : InReach load_and_unload module_init
unfolding InReach total_alloc_size and_not
load_and_unload-InReach = (omega arith, tt)

calls-IsValid_example : IsValid (calls load_and_unload module_init)
calls-IsValid_example = calls-IsValid load_and_unload load_and_unload-InReach

image-is_loadable : is_loadable image ≡ true
unfolding is_loadable is_valid_header
image-is_loadable = refl
