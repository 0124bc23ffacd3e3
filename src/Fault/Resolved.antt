-- ===== src/Fault/Resolved.antt =====
-- How the page fault handler ends.
use nova_os.Base.{
  ℕ, ◌+◌, ◌*◌, ◌/◌, ◌≤◌, ◌<◌, ◌≡◌, ◌≢◌, ◌⊎◌, Bool, true, false, none, some, arith, leb, add64,
  page_size, page_down,
}
use nova_os.Pmm.{Pmm, used, alloc_frame, free_frame}
use nova_os.Pmm.Frame.{Got}
use nova_os.Vma.{Vma, user_space_max, vma_find}
use nova_os.Vmm.{Mem, vmm_virt_to_phys}
use nova_os.Vmm.Tree.{Levels, user_half, IsTree}
use nova_os.Pmm.Boot.{hhdm_base}
use nova_os.Fault.{Registers, Space, FaultEnd, resumes, exits, unhandled, grow_stack, denies}

-- A frame that was free is mapped at the page of the address, full of zeros, for an area that allows the access.
pub record Resolved (pml4 cr2 : ℕ) (r : Registers) (m : Mem) (s : Space) : Type 0 where
  pub area : Vma
  pub found : vma_find s.areas cr2 ≡ some area
  pub allowed : denies r area ≡ false
  pub frame : ℕ
  pub was_free : used m.pmm frame ≡ false
  pub translates : vmm_virt_to_phys pml4 (page_down cr2) s.mem ≡ frame * page_size
  pub zeroed : (i : ℕ) → i < page_size → s.bytes (add64 (frame * page_size) hhdm_base + i) ≡ 0
  pub levels : Levels
  pub tree : IsTree user_half levels s.mem

-- Every frame was in use; then one that was taken for the page may have been given back.
abbrev pub Exhausted : Pmm → Type 0
Exhausted p =
    (q : Pmm) × ((f : ℕ) → f < q.total_frames → used q f ≡ true)
    × ((p ≡ q) ⊎ ((a : ℕ) × (p ≡ free_frame a q)))

-- The address is none of user space, or in no area and below no stack that may grow to it, or the area does not
-- allow the access, or there is no memory.
abbrev pub Refused : ℕ → Registers → Space → Space → Type 0
Refused cr2 r s s' =
    (user_space_max ≤ cr2)
    ⊎ ((vma_find s.areas cr2 ≡ none) × ((grow_stack cr2 r.rsp s.areas).0 ≡ none))
    ⊎ ((v : Vma) × (vma_find s'.areas cr2 ≡ some v) × (denies r v ≡ true))
    ⊎ Exhausted s'.mem.pmm

abbrev pub Outcome : ℕ → ℕ → Registers → Space → FaultEnd × Space → Type 0
Outcome pml4 cr2 r s (e, s') =
    ((e ≡ resumes) × Resolved pml4 cr2 r s.mem s') ⊎ ((e ≢ resumes) × Refused cr2 r s s')

resumed : FaultEnd → Bool
resumed resumes = true
resumed exits = false
resumed unhandled = false

abbrev Ended : ℕ → ℕ → Registers → Mem → FaultEnd × Space → Type 0
Ended pml4 cr2 r m e =
    ((e.0 ≡ resumes) × Resolved pml4 cr2 r m e.1)
    ⊎ ((e.0 ≢ resumes)
        × (((u : Vma) × (vma_find e.1.areas cr2 ≡ some u) × (denies r u ≡ true))
            ⊎ Exhausted e.1.mem.pmm))

module _ {lv : Levels} (pml4 cr2 : ℕ) (r : Registers) (v : Vma) (s : Space)
    (tree : IsTree user_half lv s.mem) (root : lv pml4 ≡ 4) (found : vma_find s.areas cr2 ≡ some v)
    (below : leb user_space_max cr2 ≡ false) where
  module _ (g : Got 1 s.mem.pmm (alloc_frame s.mem.pmm)) (allowed : denies r v ≡ false) where
    abbrev frame : ℕ
    frame = (alloc_frame s.mem.pmm).0

    abbrev m : Mem
    m = record s.mem { pmm = (alloc_frame s.mem.pmm).1 }

    number : frame / page_size ≡ g.frame
    number = omega (arith, g.address)
