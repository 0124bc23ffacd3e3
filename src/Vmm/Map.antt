-- ===== src/Vmm/Map.antt =====
-- `vmmMapPage` against `vmmVirtToPhys`.
use nova_os.Base.{
  ℕ, ◌%◌, ◌^◌, ◌<◌, bit_or, ◌≡◌, refl, ap, ◌∙◌, ◌≢◌, ◌⊎◌, inl, inr, true, false, ◌&&◌, Option, none,
  some, arith, ◌==◌, ==_iff, Bool-cases, page_size, page_down,
}
use nova_os.Pmm.{used}
use nova_os.Vmm.Entry.{has_bit, addr_of, addr_of-bit_or, has_bit-bit_or}
use nova_os.Vmm.{
  Mem, and_then, store, ◌>>=◌, write_entry, get_or_alloc_table, vmm_map_page, vmm_virt_to_phys,
  pml4_idx, pdpt_idx, pd_idx, pt_idx,
}
use nova_os.Vmm.Tree.{Part, Levels, IsTree, Descends, Outcome, got, full, get_or_alloc_table_lem}

-- An entry of a lowest table is free of conditions.
write-IsTree :
    (part : Part) (lv : Levels) (m : Mem) (t i e : ℕ)
    → lv t ≡ 1
    → IsTree part lv m
    → IsTree part lv (write_entry t i e m)
unfolding write_entry
write-IsTree part lv m t i e level tree = record {
  pmm_valid = tree.pmm_valid;
  addresses = tree.addresses;
  down =
      λ s j k p q c. rw (other s j (λ h. omega (arith, p, level, ap lv h))) (tree.down s j k p q c);
  table_used = tree.table_used;
}
  where
    other : (s j : ℕ) → s ≢ t → ((s == t) && (j == i)) ≡ false
    other s j h = ground arith

leaf_entry :
    (phys flags : ℕ)
    → phys < 2 ^ 52
    → flags % 2 ^ 52 < page_size
    → (has_bit (bit_or (bit_or (addr_of (page_down phys)) flags) 1) 0 ≡ true)
      × (addr_of (bit_or (bit_or (addr_of (page_down phys)) flags) 1) ≡ page_down phys)
leaf_entry phys flags small low = (
  ground (arith, has_bit-bit_or (bit_or (addr_of (page_down phys)) flags) 1 0),
  addr_of-bit_or (bit_or (addr_of (page_down phys)) flags) 1 (omega arith)
      ∙ addr_of-bit_or (addr_of (page_down phys)) flags low
      ∙ omega arith,
)

-- A mapping that succeeded.
pub record Mapped (part : Part) (lv : Levels) (m : Mem) (pml4 virt phys : ℕ) (m' : Mem)
    : Type 0 where
  pub levels : Levels
  pub tree : IsTree part levels m'
  pub kept : (s : ℕ) → lv s ≢ 0 → levels s ≡ lv s
  pub translates : vmm_virt_to_phys pml4 virt m' ≡ bit_or (page_down phys) (virt % page_size)

module _ {part : Part} {lv : Levels} {m m3 m2 m1 : Mem} {pml4 c3 c2 c1 : ℕ} (virt phys flags : ℕ)
    (root : lv pml4 ≡ 4) (small : phys < 2 ^ 52) (low : flags % 2 ^ 52 < page_size)
    (d3 : Descends part lv m pml4 (pml4_idx virt) 2 c3 m3)
    (d2 : Descends part d3.levels m3 c3 (pdpt_idx virt) 1 c2 m2)
    (d1 : Descends part d2.levels m2 c2 (pd_idx virt) 0 c1 m1) where
  abbrev leaf : ℕ
  leaf = bit_or (bit_or (addr_of (page_down phys)) flags) 1

  abbrev mapped : Mem
  mapped = write_entry c1 (pt_idx virt) leaf m1

  tree' : IsTree part d1.levels mapped
  tree' = write-IsTree part d1.levels m1 c1 (pt_idx virt) leaf d1.level d1.tree

  -- The levels of the four tables at the end.
  level4 : d1.levels pml4 ≡ 4
  level4 = ground (arith, root, d3.kept pml4, d2.kept pml4, d1.kept pml4)

  level3 : d1.levels c3 ≡ 3
  level3 = ground (arith, d3.level, d2.kept c3, d1.kept c3)

  level2 : d1.levels c2 ≡ 2
  level2 = ground (arith, d2.level, d1.kept c2)

  apart : (s t : ℕ) → d1.levels s ≢ d1.levels t → (s == t) ≡ false
  apart s t h = elim (Bool-cases (s == t)) [
    | inl e ↦ absurd (h (ap d1.levels ((==_iff s t).0 e)))
    | inr e ↦ e
  ]

  entry4 : mapped.entry pml4 (pml4_idx virt) ≡ m3.entry pml4 (pml4_idx virt)
  unfolding write_entry
  entry4 = rw (apart pml4 c1 (omega (arith, level4, d1.level))) (
      d1.others pml4 _ (omega (arith, root, d3.kept pml4, d2.kept pml4))
        (inl (λ e. omega (arith, level4, level2, ap d1.levels e)))
      ∙ d2.others pml4 _ (omega (arith, root, d3.kept pml4))
          (inl (λ e. omega (arith, level4, level3, ap d1.levels e))))

  entry3 : mapped.entry c3 (pdpt_idx virt) ≡ m2.entry c3 (pdpt_idx virt)
  unfolding write_entry
  entry3 = rw (apart c3 c1 (omega (arith, level3, d1.level))) (
      d1.others c3 _ (omega (arith, d3.level, d2.kept c3))
        (inl (λ e. omega (arith, level3, level2, ap d1.levels e))))

  entry2 : mapped.entry c2 (pd_idx virt) ≡ m1.entry c2 (pd_idx virt)
  unfolding write_entry
  entry2 = rw (apart c2 c1 (omega (arith, level2, d1.level))) refl

  entry1 : mapped.entry c1 (pt_idx virt) ≡ leaf
  unfolding write_entry
  entry1 = ground arith

  translation : vmm_virt_to_phys pml4 virt mapped ≡ bit_or (page_down phys) (virt % page_size)
  unfolding vmm_virt_to_phys
  translation =
      rw
        (
          entry4,
          d3.linked.0,
          d3.linked.1,
          entry3,
          d2.linked.0,
          d2.linked.1,
          huge3,
          entry2,
          d1.linked.0,
          d1.linked.1,
          huge2,
          entry1,
          (leaf_entry phys flags small low).0,
          (leaf_entry phys flags small low).1,
        )
        refl
    where
      huge3 : has_bit (m2.entry c3 (pdpt_idx virt)) 7 ≡ false
      huge3 =
          (d2.tree.down c3 (pdpt_idx virt) 1 (omega (arith, d2.kept c3, d3.level)) (omega arith)
            refl d2.linked.0).1

      huge2 : has_bit (m1.entry c2 (pd_idx virt)) 7 ≡ false
      huge2 =
          (d1.tree.down c2 (pd_idx virt) 0 (omega (arith, d1.kept c2, d2.level)) (omega arith) refl
            d1.linked.0).1

  mapped-Mapped : Mapped part lv m pml4 virt phys mapped
  mapped-Mapped = record {
    levels = d1.levels;
    tree = tree';
    kept = λ s h. ground (arith, d3.kept s, d2.kept s, d1.kept s);
    translates = translation;
  }

-- The two ends of `vmmMapPage`: the page is mapped, or every frame is in use.
unfoldable pub Ends : Part → Levels → Mem → ℕ → ℕ → ℕ → Option (Unit {0}) × Mem → Type 0
Ends part lv m pml4 virt phys r =
    ((r.0 ≡ some tt) × Mapped part lv m pml4 virt phys r.1)
    ⊎ ((r.0 ≡ none) × ((f : ℕ) → f < r.1.pmm.total_frames → used r.1.pmm f ≡ true))

-- For an address that one of the entries `part` of the level-4 table `pml4` leads to, where the tables below these
-- entries are well-formed and without huge pages, whatever the other entries are (as those of the kernel's half, which
-- map huge pages), an address `phys` of at most 52 bits and flags outside the address bits, `vmmMapPage` ends in one
-- of two ways. Either it returns 0, the tables are well-formed again with every earlier table at its level, and
-- `vmmVirtToPhys` of the address is then the page of `phys` with the offset of `virt`; or it
-- returns -1 and every physical frame is in use.
pub vmm_map_page_lem :
    (part : Part) (lv : Levels) (m : Mem) (pml4 virt phys flags : ℕ)
    → IsTree part lv m
    → lv pml4 ≡ 4
    → part (pml4_idx virt) ≡ true
    → phys < 2 ^ 52
    → flags % 2 ^ 52 < page_size
    → Ends part lv m pml4 virt phys (vmm_map_page pml4 virt phys flags m)
unfolding Ends vmm_map_page
vmm_map_page_lem part lv m pml4 virt phys flags tree root owned small low =
    first (get_or_alloc_table pml4 (pml4_idx virt) flags m)
      (get_or_alloc_table_lem part lv m pml4 (pml4_idx virt) 2 flags tree root (omega arith) owned)
  where
    third :
        {m3 m2 : Mem} {c3 c2 : ℕ} (d3 : Descends part lv m pml4 (pml4_idx virt) 2 c3 m3)
        (d2 : Descends part d3.levels m3 c3 (pdpt_idx virt) 1 c2 m2) (r : Option ℕ × Mem)
        → Outcome part d2.levels m2 c2 (pd_idx virt) 0 r
        → Ends part lv m pml4 virt phys (
            and_then r
              (λ pt. store pt (pt_idx virt) (bit_or (bit_or (addr_of (page_down phys)) flags) 1)))
    third d3 d2 _ (got c1 m1 d1) = inl (refl, mapped-Mapped virt phys flags root small low d3 d2 d1)
    third d3 d2 _ (full m1 all) = inr (refl, all)

    second :
        {m3 : Mem} {c3 : ℕ} (d3 : Descends part lv m pml4 (pml4_idx virt) 2 c3 m3)
        (r : Option ℕ × Mem)
        → Outcome part d3.levels m3 c3 (pdpt_idx virt) 1 r
        → Ends part lv m pml4 virt phys (
            and_then r (λ pd. get_or_alloc_table pd (pd_idx virt) flags >>= (λ pt.
              store pt (pt_idx virt) (bit_or (bit_or (addr_of (page_down phys)) flags) 1))))
    second d3 _ (got c2 m2 d2) = third d3 d2 (get_or_alloc_table c2 (pd_idx virt) flags m2) (
        get_or_alloc_table_lem part d2.levels m2 c2 (pd_idx virt) 0 flags d2.tree d2.level
          (omega arith) refl)
    second d3 _ (full m2 all) = inr (refl, all)

    first :
        (r : Option ℕ × Mem)
        → Outcome part lv m pml4 (pml4_idx virt) 2 r
        → Ends part lv m pml4 virt phys (
            and_then r (λ pdpt. get_or_alloc_table pdpt (pdpt_idx virt) flags >>= (λ pd.
              get_or_alloc_table pd (pd_idx virt) flags >>= (λ pt.
                store pt (pt_idx virt) (bit_or (bit_or (addr_of (page_down phys)) flags) 1)))))
    first _ (got c3 m3 d3) = second d3 (get_or_alloc_table c3 (pdpt_idx virt) flags m3) (
        get_or_alloc_table_lem part d3.levels m3 c3 (pdpt_idx virt) 1 flags d3.tree d3.level
          (omega arith) refl)
    first _ (full m3 all) = inr (refl, all)
