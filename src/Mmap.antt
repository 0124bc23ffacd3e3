-- ===== src/Mmap.antt =====
-- The system calls `sysMunmap` and `sysMmap`, src/kernel/syscall/sysmunmap.c and sysmmap.c, for a process
-- with an area list. `sysMmap` is modelled for anonymous memory: the search for an address, the
-- replacement of what `MAP_FIXED` covers, and the creation of the area.
pub mod Place
pub mod Unmap
mod Tests
use nova_os.Base.{
  ℕ, zero, suc, ◌+◌, ◌-◌, ◌*◌, ◌/◌, ◌%◌, ◌^◌, ◌≤◌, ◌<◌, min, max, bit_and, bit_or, ◌≡◌, refl, sym,
  ap, ◌∙◌, ◌≢◌, ◌↔◌, ◌⊎◌, inl, inr, Bool, true, false, not, ◌&&◌, ◌||◌, Option, none, some, List,
  [], ◌∷◌, ◌++◌, map, arith, ltb, leb, ◌==◌, if◌then◌else◌, ltb→lt, lt→ltb, leb→le, le→leb,
  ltb-false, leb-false, ==_iff, Bool-cases, Option-cases, length, get_elem?, set, replicate,
  length-append, length-replicate, length-set, get_elem?-set_self, get_elem?-set_ne, u64_mod, add64,
  sub64, mul64, page_size, and_not, page_down, page_up, bit_and_step, bit_and-le, bit_and-mask,
  bit_or_step, bit_or-zero, bit_or-div, bit_or-mod, bit_or-bit,
}
use nova_os.Vma.{Vma, user_space_max, vma_create, vma_destroy}

pub data Errno : Type 0 where
  einval enomem : Errno

-- An address, or the negated error number; beside the state that the call leaves.
pub data Result : Type 0 where
  error : Errno → Result
  success : ℕ → Result

abbrev pub aligned_len : ℕ → ℕ
aligned_len length = page_down (sub64 (add64 length page_size) 1)

module _ {S : Type 0} (release : ℕ → S → S) (ok : Vma → Bool) where
  unfoldable pub sys_munmap : ℕ → ℕ → List Vma → S → Result × List Vma × S
  sys_munmap addr length vs s =
      if not (addr % page_size == 0) || (length == 0)
      then (error einval, vs, s)
      else if ltb user_space_max (add64 addr (aligned_len length))
      then (error einval, vs, s)
      else elim (vma_destroy release ok vs addr (aligned_len length) s) [
        | none ↦ (error einval, vs, s)
        | some (vs', s') ↦ (success 0, vs', s')
      ]

-- USER_MMAP_BASE, and the lowest address that the first stack may grow to.
abbrev pub user_mmap_base : ℕ
user_mmap_base = 0x0000_6000_0000_0000

abbrev pub stack_floor : ℕ
stack_floor = 0x0000_7fff_ffff_e000 - 8 * 1024 * 1024

-- The end of the first area that a range of `len` bytes at `t` meets, aligned up.
unfoldable pub collision : ℕ → ℕ → List Vma → Option ℕ
collision t len [] = none
collision t len (v ∷ vs) =
    if ltb t v.end && ltb v.start (t + len) then some (page_up v.end) else collision t len vs

pub data Placed : Type 0 where
  at : ℕ → Placed
  no_space out_of_fuel : Placed

-- The search for a free range, on fuel. Addresses stay below 2^48 here, so their sums do not wrap.
unfoldable pub place_loop : ℕ → List Vma → ℕ → ℕ → Placed
place_loop zero vs len t = out_of_fuel
place_loop (suc k) vs len t =
    let next : Placed = elim (collision t len vs) [
      | some u ↦ place_loop k vs len u
      | none ↦ at t
    ] in
    if ltb (t + len) stack_floor then next else no_space

abbrev pub place : List Vma → ℕ → Placed
place vs len = place_loop (length vs + 1) vs len user_mmap_base

-- The flags of the area: VMA_USER, VMA_ANON and those of `Prot`, whose bits are the same.
abbrev pub area_flags : ℕ → ℕ
area_flags prot = prot % 8 + 24

-- `sysMmap` with MAP_ANONYMOUS and an offset that is not negative; `made` is the success of the
-- `kmalloc` for the new area. `none`: the fuel of the search ran out.
module _ {S : Type 0} (release : ℕ → S → S) (ok : Vma → Bool) (made : Bool) where
  unfoldable pub create_at : ℕ → ℕ → ℕ → List Vma → S → Result × List Vma × S
  create_at target len prot vs s =
      let (vs', area) = vma_create made vs target len (area_flags prot) in
      elim area [ none ↦ (error enomem, vs', s) | some v ↦ (success target, vs', s) ]

  unfoldable pub map_fixed : ℕ → ℕ → ℕ → List Vma → S → Result × List Vma × S
  map_fixed target len prot vs s =
      if ltb user_space_max (add64 target len)
      then (error einval, vs, s)
      else elim (vma_destroy release ok vs target len s) [
        | none ↦ create_at target len prot vs s
        | some r ↦ create_at target len prot r.0 r.1
      ]

  unfoldable pub map_anywhere : ℕ → ℕ → List Vma → S → Option (Result × List Vma × S)
  map_anywhere len prot vs s = elim (place vs len) [
    | at t ↦ some (create_at t len prot vs s)
    | no_space ↦ some (error enomem, vs, s)
    | out_of_fuel ↦ none
  ]

  unfoldable pub sys_mmap : ℕ → ℕ → ℕ → Bool → ℕ → List Vma → S → Option (Result × List Vma × S)
  sys_mmap addr length prot fixed offset vs s =
      if (length == 0) || not (offset % page_size == 0)
      then some (error einval, vs, s)
      else if (aligned_len length == 0) || ltb (user_space_max / 2) (aligned_len length)
      then some (error enomem, vs, s)
      else if fixed && not (page_down addr == 0)
      then some (map_fixed (page_down addr) (aligned_len length) prot vs s)
      else map_anywhere (aligned_len length) prot vs s
