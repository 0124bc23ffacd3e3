-- ===== src/Vmm/Tree.antt =====
-- The shape of the page tables: which frames are tables, and of what level.
use nova_os.Base.{
  ℕ, suc, ◌/◌, ◌%◌, ◌^◌, ◌≤◌, ◌<◌, bit_or, ◌≡◌, refl, ap, ◌∙◌, ◌≢◌, ◌⊎◌, inl, inr, true, false, not,
  Bool, ◌&&◌, ◌||◌, Option, none, some, arith, ltb, ◌==◌, if◌then◌else◌, lt→ltb, ==_iff, Bool-cases,
  page_size,
}
use nova_os.Pmm.{Pmm, used, alloc_frame}
use nova_os.Pmm.Valid.{IsValid}
use nova_os.Pmm.Frame.{Got, alloc_frame_lem}
use nova_os.Vmm.Entry.{has_bit, addr_of, addr_of-bit_or, has_bit-bit_or}
use nova_os.Vmm.{Mem, write_entry, clear_table, raised, entry_flags, get_or_alloc_table}

-- The level of a frame: 4 for a top table down to 1, and 0 for a frame that is no table.
abbrev pub Levels : Type 0
Levels = ℕ → ℕ

-- Which entries of a top table are of the tree. The others, as those of the kernel's half, which map huge pages, may be
-- anything.
abbrev pub Part : Type 0
Part = ℕ → Bool

-- The user's half of the addresses.
abbrev pub user_half : Part
user_half i = ltb i 256

-- All entries of a table of level 3 or 2, and those of the part of a table of level 4, which is `suc (suc 2)`.
abbrev pub owns : Part → ℕ → ℕ → Bool
owns part l i = not (l == 2) || part i

-- Present entries, of the part, of a table above level 1 lead to tables one level down, and none maps a huge page.
pub record IsTree (part : Part) (lv : Levels) (m : Mem) : Type 0 where
  pub pmm_valid : IsValid m.pmm
  -- physical addresses have 52 bits
  pub addresses : m.pmm.total_frames ≤ 2 ^ 40
  pub down :
      (t i l : ℕ)
      → lv t ≡ suc (suc l)
      → i < 512
      → owns part l i ≡ true
      → has_bit (m.entry t i) 0 ≡ true
      → (lv (addr_of (m.entry t i)) ≡ suc l) × (has_bit (m.entry t i) 7 ≡ false)
  pub table_used :
      (t : ℕ)
      → lv t ≢ 0
      → (t % page_size ≡ 0)
        × (t / page_size < m.pmm.total_frames)
        × (used m.pmm (t / page_size) ≡ true)

-- What a call that hands out the table `c` below entry `i` of table `t` does to the tables.
pub record Descends (part : Part) (lv : Levels) (m : Mem) (t i l c : ℕ) (m' : Mem) : Type 0 where
  pub levels : Levels
  pub tree : IsTree part levels m'
  pub kept : (s : ℕ) → lv s ≢ 0 → levels s ≡ lv s
  pub level : levels c ≡ suc l
  pub linked : (has_bit (m'.entry t i) 0 ≡ true) × (addr_of (m'.entry t i) ≡ c)
  pub others : (s j : ℕ) → lv s ≢ 0 → (s ≢ t) ⊎ (j ≢ i) → m'.entry s j ≡ m.entry s j

or-keeps :
    (e f : ℕ)
    → f < page_size
    → has_bit f 0 ≡ false
    → has_bit f 7 ≡ false
    → (addr_of (bit_or e f) ≡ addr_of e)
      × (has_bit (bit_or e f) 0 ≡ has_bit e 0)
      × (has_bit (bit_or e f) 7 ≡ has_bit e 7)
or-keeps e f h p q = (
  addr_of-bit_or e f (omega arith),
  ground (arith, has_bit-bit_or e f 0),
  ground (arith, has_bit-bit_or e f 7),
)

raised-keeps :
    (e flags : ℕ)
    → (addr_of (raised e flags) ≡ addr_of e)
      × (has_bit (raised e flags) 0 ≡ has_bit e 0)
      × (has_bit (raised e flags) 7 ≡ has_bit e 7)
raised-keeps e flags = elim (Bool-cases (has_bit flags 2)) [
  | inl user ↦ rw user (elim (Bool-cases (has_bit flags 1)) [
    | inl writable ↦ rw writable (
        ground (
          arith,
          or-keeps e 4 (omega arith) refl refl,
          or-keeps (bit_or e 4) 2 (omega arith) refl refl,
        ))
    | inr fixed ↦ rw fixed (or-keeps e 4 (omega arith) refl refl)
  ])
  | inr kernel ↦ rw kernel (elim (Bool-cases (has_bit flags 1)) [
    | inl writable ↦ rw writable (or-keeps e 2 (omega arith) refl refl)
    | inr fixed ↦ rw fixed (refl, refl, refl)
  ])
]

new-entry :
    (frame flags : ℕ)
    → frame % page_size ≡ 0
    → frame < 2 ^ 52
    → (addr_of (bit_or frame (entry_flags flags)) ≡ frame)
      × (has_bit (bit_or frame (entry_flags flags)) 0 ≡ true)
      × (has_bit (bit_or frame (entry_flags flags)) 7 ≡ false)
new-entry frame flags e h = elim (Bool-cases (has_bit flags 2)) [
  | inl user ↦ rw user (flagged 7 (omega arith) refl refl)
  | inr kernel ↦ rw kernel (flagged 3 (omega arith) refl refl)
]
  where
    flagged :
        (f : ℕ)
        → f < page_size
        → has_bit f 0 ≡ true
        → has_bit f 7 ≡ false
        → (addr_of (bit_or frame f) ≡ frame)
          × (has_bit (bit_or frame f) 0 ≡ true)
          × (has_bit (bit_or frame f) 7 ≡ false)
    flagged f k p q = (
      addr_of-bit_or frame f (omega arith) ∙ omega arith,
      ground (arith, has_bit-bit_or frame f 0),
      ground (arith, has_bit-bit_or frame f 7),
    )

module _ {part : Part} {lv : Levels} {m : Mem} (tree : IsTree part lv m) (t i l : ℕ)
    (level : lv t ≡ suc (suc l)) (small : i < 512) (owned : owns part l i ≡ true) where
  present-Descends :
      (flags : ℕ)
      → has_bit (m.entry t i) 0 ≡ true
      → Descends part lv m t i l
          (addr_of (raised (m.entry t i) flags))
          (write_entry t i (raised (m.entry t i) flags) m)
  unfolding write_entry
  present-Descends flags there = record {
    levels = lv;
    tree = record {
      pmm_valid = tree.pmm_valid;
      addresses = tree.addresses;
      down = λ s j k p q c r. down s j k p q c r;
      table_used = tree.table_used;
    };
    kept = λ s h. refl;
    level =
        ap lv (raised-keeps (m.entry t i) flags).0 ∙ (tree.down t i l level small owned there).0;
    linked = ground (arith, raised-keeps (m.entry t i) flags);
    others = λ s j h ne. ground arith;
  }
    where
      e : ℕ
      e = raised (m.entry t i) flags

      -- The entry that the call raised, or another one.
      down :
          (s j k : ℕ)
          → lv s ≡ suc (suc k)
          → j < 512
          → owns part k j ≡ true
          → has_bit (if (s == t) && (j == i) then e else m.entry s j) 0 ≡ true
          → (lv (addr_of (if (s == t) && (j == i) then e else m.entry s j)) ≡ suc k)
            × (has_bit (if (s == t) && (j == i) then e else m.entry s j) 7 ≡ false)
      down s j k p q c = elim (Bool-cases ((s == t) && (j == i))) [
        | inl here ↦ rw here (λ r. (
          ap lv (raised-keeps (m.entry t i) flags).0
              ∙ (tree.down t i l level small owned there).0
              ∙ omega (arith, same_table s j here, level, p, ap lv (same_table s j here)),
          (raised-keeps (m.entry t i) flags).2 ∙ (tree.down t i l level small owned there).1,
        ))
        | inr other ↦ rw other (tree.down s j k p q c)
      ]
        where
          same_table : (s j : ℕ) → ((s == t) && (j == i)) ≡ true → s ≡ t
          same_table s j h = ground arith

  module _ {r : ℕ × Pmm} (g : Got 1 m.pmm r) where
    number : r.0 / page_size ≡ g.frame
    number = omega (arith, g.address)

    fresh : lv r.0 ≡ 0
    fresh = elim (Bool-cases (lv r.0 == 0)) [
      | inl none' ↦ omega (arith, (==_iff (lv r.0) 0).0 none')
      | inr some' ↦
          ground (arith, tree.table_used r.0, g.takes.were_free g.frame, number, g.address)
    ]

    other : t ≢ r.0
    other e = ground (arith, fresh, level, ap lv e)

    address : (r.0 % page_size ≡ 0) × (r.0 < 2 ^ 52)
    address = omega (arith, g.address, g.takes.inside, tree.addresses)

    abbrev new_levels : Levels
    new_levels s = if s == r.0 then suc l else lv s

    abbrev new_tables : ℕ → ℕ → ℕ → ℕ
    new_tables e s j =
        if (s == t) && (j == i) then e else if (s == r.0) && ltb j 512 then 0 else m.entry s j

    new-down :
        (flags s j k : ℕ)
        → new_levels s ≡ suc (suc k)
        → j < 512
        → owns part k j ≡ true
        → has_bit (new_tables (bit_or r.0 (entry_flags flags)) s j) 0 ≡ true
        → (new_levels (addr_of (new_tables (bit_or r.0 (entry_flags flags)) s j)) ≡ suc k)
          × (has_bit (new_tables (bit_or r.0 (entry_flags flags)) s j) 7 ≡ false)
    new-down flags s j k p q c = elim (Bool-cases ((s == t) && (j == i))) [
      | inl here ↦ rw here (λ h. (
        rw ((new-entry r.0 flags address.0 address.1).0, (==_iff r.0 r.0).1 refl)
            (ground (arith, other, level, ap lv (same_table here))),
        (new-entry r.0 flags address.0 address.1).2,
      ))
      | inr else' ↦ rw else' (elim (Bool-cases (s == r.0)) [
        | inl made ↦ rw (made, lt→ltb j 512 q) (λ h. ground arith)
        | inr old ↦ rw old (λ h. old-down old h)
      ])
    ]
      where
        same_table : ((s == t) && (j == i)) ≡ true → s ≡ t
        same_table h = ground arith

        old-down :
            (s == r.0) ≡ false
            → has_bit (m.entry s j) 0 ≡ true
            → (new_levels (addr_of (m.entry s j)) ≡ suc k) × (has_bit (m.entry s j) 7 ≡ false)
        old-down old h = ground (arith, tree.down s j k, fresh, c)

    new-used :
        (s : ℕ)
        → new_levels s ≢ 0
        → (s % page_size ≡ 0)
          × (s / page_size < r.1.total_frames)
          × (used r.1 (s / page_size) ≡ true)
    new-used s h = elim (Bool-cases (s == r.0)) [
      | inl here ↦
          ground
            (arith, number, g.address, g.takes.inside, g.takes.same_total, g.takes.bits g.frame)
      | inr there ↦
          ground (arith, tree.table_used s, g.takes.same_total, g.takes.bits (s / page_size))
    ]

    new-Descends :
        (flags : ℕ)
        → Descends part lv m t i l r.0 (
            write_entry t i
              (bit_or r.0 (entry_flags flags))
              (clear_table r.0 (record m { pmm = r.1 })))
    unfolding write_entry clear_table
    new-Descends flags = record {
      levels = new_levels;
      tree = record {
        pmm_valid = g.valid;
        addresses = omega (arith, tree.addresses, g.takes.same_total);
        down = new-down flags;
        table_used = new-used;
      };
      kept = λ s h. ground (arith, fresh);
      level = ground arith;
      linked = ground (arith, new-entry r.0 flags address.0 address.1);
      others = λ s j h ne. ground (arith, fresh);
    }

-- The two ends of `getOrAllocTable`: a table one level down, or every frame is in use.
pub data Outcome (part : Part) (lv : Levels) (m : Mem) (t i l : ℕ) : Option ℕ × Mem → Type 0 where
  got : (c : ℕ) (m' : Mem) → Descends part lv m t i l c m' → Outcome part lv m t i l (some c, m')
  full :
      (m' : Mem)
      → ((f : ℕ) → f < m'.pmm.total_frames → used m'.pmm f ≡ true)
      → Outcome part lv m t i l (none, m')

pub get_or_alloc_table_lem :
    (part : Part) (lv : Levels) (m : Mem) (t i l flags : ℕ)
    → IsTree part lv m
    → lv t ≡ suc (suc l)
    → i < 512
    → owns part l i ≡ true
    → Outcome part lv m t i l (get_or_alloc_table t i flags m)
unfolding get_or_alloc_table
get_or_alloc_table_lem part lv m t i l flags tree level small owned =
    elim (Bool-cases (has_bit (m.entry t i) 0)) [
      | inl there ↦ rw there (got _ _ (present-Descends tree t i l level small owned flags there))
      | inr absent ↦ rw absent (elim (alloc_frame_lem tree.pmm_valid) [
        | inl g ↦ rw (not_null g) (got _ _ (new-Descends tree t i l level small owned g flags))
        | inr (e, all) ↦ rw e (full _ all)
      ])
    ]
  where
    not_null : Got 1 m.pmm (alloc_frame m.pmm) → ((alloc_frame m.pmm).0 == 0) ≡ false
    not_null g = ground (arith, g.not_null)
