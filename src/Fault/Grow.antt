-- ===== src/Fault/Grow.antt =====
-- The search for a stack that grows down to an address.
use nova_os.Base.{
  ℕ, ◌≡◌, refl, inl, inr, true, false, Option, none, some, List, [], ◌∷◌, arith, Bool-cases,
  page_down,
}
use nova_os.Vma.{Vma, vma_find, holds}
use nova_os.Vma.Order.{Ordered}
use nova_os.Fault.{grows, grow_stack}

-- A stack that has grown holds the address, and it is the area that is found there.
abbrev pub Grown : ℕ → Option Vma × List Vma → Type 0
Grown cr2 (none, vs) = Unit
Grown cr2 (some v, vs) = vma_find vs cr2 ≡ some v

pub grow_stack-Grown :
    (cr2 rsp lo : ℕ) (vs : List Vma)
    → Ordered lo vs
    → vma_find vs cr2 ≡ none
    → Grown cr2 (grow_stack cr2 rsp vs)
unfolding grow_stack vma_find
grow_stack-Grown cr2 rsp lo [] o e = tt
grow_stack-Grown cr2 rsp lo (v ∷ vs) (l, area, o) e = elim (Bool-cases (grows cr2 rsp v)) [
  | inl g ↦ rw g (rw (now_holds g) refl)
  | inr g ↦
      rw g
        (behind (grow_stack cr2 rsp vs) (grow_stack-Grown cr2 rsp v.end vs o (ground (arith, e))))
]
  where
    now_holds : grows cr2 rsp v ≡ true → holds (record v { start = page_down cr2 }) cr2 ≡ true
    now_holds g = ground (arith, g, area)

    missed : holds v cr2 ≡ false
    missed = ground (arith, e)

    behind : (r : Option Vma × List Vma) → Grown cr2 r → Grown cr2 (r.0, v ∷ r.1)
    behind (none, us) h = tt
    behind (some u, us) h = rw missed h
