-- ===== src/Fat32.antt =====
-- src/kernel/krdrivers/fs/fat32/fat32.c, with the structures of fat32.h: a mounted volume, the file allocation
-- table behind a cache of one sector, and the clusters of a chain. The disk is a parameter: `read lba count` for
-- `nvme_read` of sectors that nothing writes, `none` where it fails. `heap` says which sizes `kmalloc` grants.
-- A pointer argument is not null.
pub mod Cache
pub mod Chain
pub mod Contents
pub mod Names
pub mod Directory
pub mod Mount
pub mod Read
mod Tests
use nova_os.Base.{
  ℕ, zero, suc, ◌+◌, ◌-◌, ◌*◌, ◌/◌, ◌%◌, ◌^◌, ◌≤◌, ◌<◌, min, max, bit_and, bit_or, ◌≡◌, refl, sym,
  ap, ◌∙◌, ◌≢◌, ◌↔◌, ◌⊎◌, inl, inr, Bool, true, false, not, ◌&&◌, ◌||◌, Option, none, some, List,
  [], ◌∷◌, ◌++◌, map, arith, ltb, leb, ◌==◌, if◌then◌else◌, ltb→lt, lt→ltb, leb→le, le→leb,
  ltb-false, leb-false, ==_iff, Bool-cases, Option-cases, length, get_elem?, set, replicate,
  length-append, length-replicate, length-set, get_elem?-set_self, get_elem?-set_ne, take, drop,
  length-take, length-drop, drop-drop, take-append_drop, u64_mod, add64, sub64, mul64, page_size,
  and_not, page_down, page_up, bit_and_step, bit_and-le, bit_and-mask, bit_or_step, bit_or-zero,
  bit_or-div, bit_or-mod, bit_or-bit,
}
use nova_os.Bytes.{u32_at}

pub record Volume : Type 0 where
  pub partition_start_lba : ℕ
  pub partition_sector_count : ℕ
  pub bytes_per_sector : ℕ
  pub sectors_per_cluster : ℕ
  pub reserved_sector_count : ℕ
  pub num_fats : ℕ
  pub total_sectors : ℕ
  pub fat_size : ℕ
  pub root_cluster : ℕ
  pub fs_info_sector : ℕ
  pub fat_start_lba : ℕ
  pub data_start_lba : ℕ
  pub total_clusters : ℕ
  pub bytes_per_cluster : ℕ
  pub fat_cache : List ℕ
  pub fat_cache_lba : ℕ
  pub volume_label : List ℕ
  pub oem_name : List ℕ

abbrev pub Disk : Type 0
Disk = ℕ → ℕ → Option (List ℕ)

abbrev pub cluster_bad : ℕ
cluster_bad = 0x0fff_fff7

abbrev pub cluster_eoc : ℕ
cluster_eoc = 0x0fff_fff8

-- `~0ULL`, the address of no cached sector.
abbrev pub no_lba : ℕ
no_lba = 2 ^ 64 - 1

-- The loops run while the number is that of a cluster.
abbrev pub live : ℕ → Bool
live cluster = leb 2 cluster && ltb cluster cluster_eoc

-- `cluster < 2 || cluster >= volume->total_clusters + 2`
abbrev pub outside : Volume → ℕ → Bool
outside v cluster = ltb cluster 2 || leb ((v.total_clusters + 2) % 2 ^ 32) cluster

unfoldable pub cluster_to_lba : Volume → ℕ → ℕ
cluster_to_lba v cluster =
    if ltb cluster 2 then 0 else add64 v.data_start_lba (mul64 (cluster - 2) v.sectors_per_cluster)

abbrev pub fat_sector : Volume → ℕ → ℕ
fat_sector v cluster = cluster * 4 % 2 ^ 32 / v.bytes_per_sector

abbrev pub fat_lba : Volume → ℕ → ℕ
fat_lba v cluster = add64 v.fat_start_lba (fat_sector v cluster)

-- The entry of a cluster in a sector of the table.
abbrev pub fat_value : Volume → ℕ → List ℕ → ℕ
fat_value v cluster bytes = u32_at bytes (cluster * 4 % 2 ^ 32 % v.bytes_per_sector) % 2 ^ 28

-- The end of the first loop of `read_cluster_chain`: the number of clusters, or an error.
pub data Counted : Type 0 where
  counted : ℕ → Counted
  refused out_of_fuel : Counted

module _ (read : Disk) where
  -- From the cache, or from the disk into the cache.
  unfoldable pub cached_entry : Volume → ℕ → Option ℕ × Volume
  cached_entry v cluster =
      let lba = fat_lba v cluster in
      if v.fat_cache_lba == lba
      then (some (fat_value v cluster v.fat_cache), v)
      else elim (read lba 1) [
        | none ↦ (none, record v { fat_cache_lba = no_lba })
        | some bytes ↦
            (some (fat_value v cluster bytes), record v { fat_cache = bytes; fat_cache_lba = lba })
      ]

  unfoldable pub get_next_cluster : Volume → ℕ → Option ℕ × Volume
  get_next_cluster v cluster =
      if outside v cluster
      then (none, v)
      else if leb v.fat_size (fat_sector v cluster)
      then (none, v)
      else cached_entry v cluster

  unfoldable pub read_cluster : Volume → ℕ → Option (List ℕ)
  read_cluster v cluster =
      if outside v cluster then none else read (cluster_to_lba v cluster) v.sectors_per_cluster

  -- The first loop of `read_cluster_chain`, on fuel.
  unfoldable pub count_chain : ℕ → Volume → ℕ → ℕ → Counted × Volume
  count_chain zero v curr n = (out_of_fuel, v)
  count_chain (suc k) v curr n =
      let next : Counted × Volume =
        let (o, v') = get_next_cluster v curr in
        elim o [ none ↦ (refused, v') | some c ↦ count_chain k v' c (n + 1) ] in
      if not (live curr)
      then (counted n, v)
      else if (curr == cluster_bad) || ltb v.total_clusters (n + 1)
      then (refused, v)
      else next

  -- The second loop, for the `n` clusters that are left to read.
  unfoldable pub read_chain : ℕ → Volume → ℕ → Option (List ℕ) × Volume
  read_chain zero v curr = (some [], v)
  read_chain (suc n) v curr =
      let rest : List ℕ → Option (List ℕ) × Volume = λ bytes.
        let (o, v') = get_next_cluster v curr in
        elim o [
          | none ↦ (none, v')
          | some c ↦
              let (more, v'') = read_chain n v' c in
              (elim more [ none ↦ none | some t ↦ some (bytes ++ t) ], v'')
        ] in
      if live curr
      then elim (read_cluster v curr) [ none ↦ (none, v) | some bytes ↦ rest bytes ]
      else (some [], v)

  -- The bytes of a chain; an empty list is the null buffer.
  unfoldable pub read_cluster_chain : (ℕ → Bool) → Volume → ℕ → Option (List ℕ) × Volume
  read_cluster_chain heap v start =
      let (c, v') = count_chain (v.total_clusters + 2) v start 0 in
      if ltb start 2 then (none, v) else elim c [
        | refused ↦ (none, v')
        | out_of_fuel ↦ (none, v')
        | counted n ↦
            if n == 0
            then (some [], v')
            else if heap (n * v.bytes_per_cluster)
            then read_chain n v' start
            else (none, v')
      ]
