-- ===== src/Fault.antt =====
-- Page faults and copies from and to user space, src/kernel/mem/vmm.c: the areas of the current process, its page
-- tables and the bytes of memory together. The process has the top table `pml4`.
pub mod Grow
pub mod Resolved
pub mod Copy
mod Tests
use nova_os.Base.{
  ℕ, zero, suc, ◌+◌, ◌-◌, ◌*◌, ◌/◌, ◌%◌, ◌^◌, ◌≤◌, ◌<◌, min, max, bit_and, bit_or, ◌≡◌, refl, sym,
  ap, ◌∙◌, ◌≢◌, ◌↔◌, ◌⊎◌, inl, inr, Bool, true, false, not, ◌&&◌, ◌||◌, Option, none, some, List,
  [], ◌∷◌, ◌++◌, map, arith, ltb, leb, ◌==◌, if◌then◌else◌, ltb→lt, lt→ltb, leb→le, le→leb,
  ltb-false, leb-false, ==_iff, Bool-cases, Option-cases, length, get_elem?, set, replicate,
  length-append, length-replicate, length-set, get_elem?-set_self, get_elem?-set_ne, take, drop,
  length-take, length-drop, drop-drop, take-append_drop, drop-nil, u64_mod, add64, sub64, mul64,
  page_size, and_not, page_down, page_up, bit_and_step, bit_and-le, bit_and-mask, bit_or_step,
  bit_or-zero, bit_or-div, bit_or-mod, bit_or-bit,
}
use nova_os.Pmm.{Pmm, alloc_frame, free_frame}
use nova_os.Pmm.Boot.{hhdm_base}
use nova_os.String.{Memory, memset, memcpy}
use nova_os.Vma.{
  Vma, user_space_max, vma_find, vma_write, vma_exec, vma_user, vma_stack, validate_user_range,
}
use nova_os.Vmm.{Mem, vmm_map_page}
use nova_os.Vmm.Entry.{has_bit}

abbrev pub user_stack_max_size : ℕ
user_stack_max_size = 8 * 1024 * 1024

-- The registers that the handler looks at.
pub record Registers : Type 0 where
  pub cs : ℕ
  pub error_code : ℕ
  pub rsp : ℕ

pub record Space : Type 0 where
  pub areas : List Vma
  pub mem : Mem
  pub bytes : Memory

-- How the handler ends: it returns to the instruction, it ends the thread by `schedThreadExit`, or it calls
-- `default_exception_handler`.
pub data FaultEnd : Type 0 where
  resumes exits unhandled : FaultEnd

abbrev pub user_mode : Registers → Bool
user_mode r = bit_and r.cs 3 == 3

abbrev pub failed : Registers → FaultEnd
failed r = if user_mode r then exits else unhandled

-- The test of the loop that looks for a stack to grow.
abbrev pub grows : ℕ → ℕ → Vma → Bool
grows cr2 rsp v =
    has_bit v.flags vma_stack
    && (ltb cr2 v.start && leb (sub64 v.end (page_down cr2)) user_stack_max_size)
    && leb rsp (add64 cr2 256)

unfoldable pub grow_stack : ℕ → ℕ → List Vma → Option Vma × List Vma
grow_stack cr2 rsp [] = (none, [])
grow_stack cr2 rsp (v ∷ vs) =
    let rest = grow_stack cr2 rsp vs in
    if grows cr2 rsp v
    then (some (record v { start = page_down cr2 }), record v { start = page_down cr2 } ∷ vs)
    else (rest.0, v ∷ rest.1)

-- The access is not the area's.
abbrev pub denies : Registers → Vma → Bool
denies r v =
    has_bit r.error_code 0
    || (has_bit r.error_code 1 && not (has_bit v.flags vma_write))
    || (has_bit r.error_code 4 && not (has_bit v.flags vma_exec))
    || (user_mode r && not (has_bit v.flags vma_user))

unfoldable pub map_flags : Vma → ℕ
map_flags v =
    let writable = if has_bit v.flags vma_write then bit_or 5 2 else 5 in
    if has_bit v.flags vma_exec then writable else bit_or writable (2 ^ 63)

abbrev pub clear_page : ℕ → Memory → Memory
clear_page frame m = memset (add64 frame hhdm_base) 0 page_size m

-- A frame that could not be mapped is given back.
unfoldable pub finish : ℕ → Registers → Space → Option (Unit {0}) × Mem → FaultEnd × Space
finish frame r s (some u, m) = (resumes, record s { mem = m; bytes = clear_page frame s.bytes })
finish frame r s (none, m) = (
  failed r,
  record s { mem = record m { pmm = free_frame frame m.pmm }; bytes = clear_page frame s.bytes },
)

unfoldable pub map_frame : ℕ → ℕ → Registers → Vma → Space → FaultEnd × Space
map_frame pml4 cr2 r v s =
    let (frame, p) = alloc_frame s.mem.pmm in
    let m = record s.mem { pmm = p } in
    if frame == 0
    then (failed r, record s { mem = m })
    else finish frame r s (vmm_map_page pml4 (page_down cr2) frame (map_flags v) m)

abbrev pub access : ℕ → ℕ → Registers → Vma → Space → FaultEnd × Space
access pml4 cr2 r v s = if denies r v then (failed r, s) else map_frame pml4 cr2 r v s

unfoldable pub page_fault : ℕ → ℕ → Registers → Space → FaultEnd × Space
page_fault pml4 cr2 r s =
    if leb user_space_max cr2 then (unhandled, s) else elim (vma_find s.areas cr2) [
      | some v ↦ access pml4 cr2 r v s
      | none ↦
          let (grown, vs) = grow_stack cr2 r.rsp s.areas in
          elim grown [
            | none ↦ (failed r, s)
            | some v ↦ access pml4 cr2 r v (record s { areas = vs })
          ]
    ]

-- `copyFromUser` and `copyToUser`: true for 0, false for -14. `none`: the fuel of the test ran out.
abbrev copy_checked : Option Bool → ℕ → ℕ → ℕ → Memory → Option (Bool × Memory)
copy_checked none dst src n m = none
copy_checked (some ok) dst src n m = some (ok, if ok then memcpy dst src n m else m)

unfoldable pub copy_from_user : List Vma → ℕ → ℕ → ℕ → Memory → Option (Bool × Memory)
copy_from_user vs dst src n m =
    if n == 0 then some (true, m) else copy_checked (validate_user_range vs src n false) dst src n m

unfoldable pub copy_to_user : List Vma → ℕ → ℕ → ℕ → Memory → Option (Bool × Memory)
copy_to_user vs dst src n m =
    if n == 0 then some (true, m) else copy_checked (validate_user_range vs dst n true) dst src n m
