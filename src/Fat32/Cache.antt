-- ===== src/Fat32/Cache.antt =====
-- The cached sector of the file allocation table: what the cache may hold, and that it is not seen.
use nova_os.Base.{
  ℕ, ◌+◌, ◌<◌, ◌≡◌, refl, ap, ◌∙◌, ◌⊎◌, inl, inr, true, false, Option, none, some, List, arith, leb,
  ◌==◌, if◌then◌else◌, Bool-cases, Option-cases,
}
use mathlib.Core.Path.{subst}
use nova_os.Fat32.{
  Volume, Disk, no_lba, outside, fat_sector, fat_lba, fat_value, cached_entry, get_next_cluster,
}

-- The cache holds the sector that it names, or names none.
abbrev pub Coherent : Disk → Volume → Type 0
Coherent read v = (v.fat_cache_lba ≡ no_lba) ⊎ (read v.fat_cache_lba 1 ≡ some v.fat_cache)

-- The table ends below the last address.
abbrev pub Placed : Volume → Type 0
Placed v = v.fat_start_lba + v.fat_size < no_lba

-- The volumes differ in their caches only.
abbrev pub SameVolume : Volume → Volume → Type 0
SameVolume v v' =
    (cache : List ℕ) × (lba : ℕ) × (v' ≡ record v { fat_cache = cache; fat_cache_lba = lba })

pub SameVolume-refl : (v : Volume) → SameVolume v v
SameVolume-refl v = (v.fat_cache, v.fat_cache_lba, refl)

pub SameVolume-trans : (v v' v'' : Volume) → SameVolume v v' → SameVolume v' v'' → SameVolume v v''
SameVolume-trans v v' v'' (c, l, e) (c', l', e') =
    (c', l', e' ∙ ap (λ (u : Volume). record u { fat_cache = c'; fat_cache_lba = l' }) e)

-- The entry of a cluster, read from the disk.
unfoldable pub fat_entry : Disk → Volume → ℕ → Option ℕ
fat_entry read v cluster =
    if outside v cluster
    then none
    else if leb v.fat_size (fat_sector v cluster)
    then none
    else elim (read (fat_lba v cluster) 1) [
      | none ↦ none
      | some bytes ↦ some (fat_value v cluster bytes)
    ]

pub fat_entry-same :
    (read : Disk) (v v' : Volume)
    → SameVolume v v'
    → (c : ℕ) → fat_entry read v' c ≡ fat_entry read v c
unfolding fat_entry
fat_entry-same read v v' (cache, lba, e) c = ap (λ (u : Volume). fat_entry read u c) e

-- What a lookup leaves, whatever the cache holds.
pub get_next_cluster-same :
    (read : Disk) (v : Volume) (c : ℕ) → SameVolume v (get_next_cluster read v c).1
unfolding get_next_cluster cached_entry
get_next_cluster-same read v c = elim (Bool-cases (outside v c)) [
  | inl e ↦ rw e (SameVolume-refl v)
  | inr e ↦ rw e (elim (Bool-cases (leb v.fat_size (fat_sector v c))) [
    | inl p ↦ rw p (SameVolume-refl v)
    | inr p ↦ rw p (elim (Bool-cases (v.fat_cache_lba == fat_lba v c)) [
      | inl h ↦ rw h (SameVolume-refl v)
      | inr h ↦ rw h (elim (Option-cases (read (fat_lba v c) 1)) [
        | inl q ↦ rw q (v.fat_cache, no_lba, refl)
        | inr (bytes, q) ↦ rw q (bytes, fat_lba v c, refl)
      ])
    ])
  ])
]

abbrev Transparent : Disk → Volume → ℕ → Option ℕ × Volume → Type 0
Transparent read v c r = (r.0 ≡ fat_entry read v c) × Coherent read r.1

cached_entry-Transparent :
    (read : Disk) (v : Volume) (c : ℕ)
    → Coherent read v
    → Placed v
    → outside v c ≡ false
    → leb v.fat_size (fat_sector v c) ≡ false
    → Transparent read v c (cached_entry read v c)
unfolding cached_entry fat_entry
cached_entry-Transparent read v c coherent placed e p =
    elim (Bool-cases (v.fat_cache_lba == fat_lba v c)) [
      | inl h ↦
          rw (h, e, p)
            (elim coherent [
              | inl none_yet ↦ absurd (ground (arith, h, none_yet, p, placed))
              | inr holds ↦ (rw (hit h holds) refl, inr holds)
            ])
      | inr h ↦
          rw (h, e, p)
            (elim (Option-cases (read (fat_lba v c) 1)) [
              | inl q ↦ rw q (refl, inl refl)
              | inr (bytes, q) ↦ rw q (refl, inr q)
            ])
    ]
  where
    named : (v.fat_cache_lba == fat_lba v c) ≡ true → v.fat_cache_lba ≡ fat_lba v c
    named h = ground (arith, h)

    hit :
        (v.fat_cache_lba == fat_lba v c) ≡ true
        → read v.fat_cache_lba 1 ≡ some v.fat_cache
        → read (fat_lba v c) 1 ≡ some v.fat_cache
    hit h holds = subst (λ l. read l 1 ≡ some v.fat_cache) (named h) holds

-- With a coherent cache and a table that ends below the last address, `get_next_cluster` gives what the table on the disk says, as if there were no
-- cache, and the cache is coherent again, also where the disk fails.
pub get_next_cluster-entry :
    (read : Disk) (v : Volume) (c : ℕ)
    → Coherent read v
    → Placed v
    → ((get_next_cluster read v c).0 ≡ fat_entry read v c)
      × Coherent read (get_next_cluster read v c).1
unfolding get_next_cluster fat_entry
get_next_cluster-entry read v c coherent placed = elim (Bool-cases (outside v c)) [
  | inl e ↦ rw e (refl, coherent)
  | inr e ↦ rw e (elim (Bool-cases (leb v.fat_size (fat_sector v c))) [
    | inl p ↦ rw p (refl, coherent)
    | inr p ↦
        let (same, kept) = cached_entry-Transparent read v c coherent placed e p in
        rw p (same ∙ rw (e, p) refl, kept)
  ])
]
