-- ===== src/Fat32/Mount.antt =====
-- `fat32_mount` and `fat32_unmount`: the boot sector, and the volume that it describes.
use nova_os.Base.{
  ℕ, ◌+◌, ◌-◌, ◌*◌, ◌/◌, ◌%◌, ◌^◌, bit_and, Bool, not, ◌||◌, Option, none, some, List, [], ◌∷◌, ltb,
  ◌==◌, if◌then◌else◌, take, drop, add64,
}
use nova_os.Bytes.{byte_at, u16_at, u32_at}
use nova_os.Fat32.{Volume, Disk, no_lba}
use nova_os.Fat32.Names.{trim_trailing_spaces}

-- The parts of a namespace and of a partition that the function uses.
pub record Namespace : Type 0 where
  pub nsid : ℕ
  pub block_size : ℕ

pub record Partition : Type 0 where
  pub starting_lba : ℕ
  pub sector_count : ℕ

unfoldable pub find_namespace : ℕ → List Namespace → Option Namespace
find_namespace nsid [] = none
find_namespace nsid (n ∷ ns) =
    let rest = find_namespace nsid ns in if n.nsid == nsid then some n else rest

-- The fields of a `Fat32Bpb` at their offsets, and the numbers that are computed from them in 32 bits.
module _ (s : List ℕ) where
  abbrev pub bpb_bytes_per_sector : ℕ
  bpb_bytes_per_sector = u16_at s 11

  abbrev pub bpb_sectors_per_cluster : ℕ
  bpb_sectors_per_cluster = byte_at s 13

  abbrev pub bpb_total_sectors : ℕ
  bpb_total_sectors = if u16_at s 19 == 0 then u32_at s 32 else u16_at s 19

  abbrev pub bpb_fat_size : ℕ
  bpb_fat_size = if u16_at s 22 == 0 then u32_at s 36 else u16_at s 22

  abbrev pub root_dir_sectors : ℕ
  root_dir_sectors = (u16_at s 17 * 32 + (bpb_bytes_per_sector - 1)) / bpb_bytes_per_sector

  abbrev pub data_sectors : ℕ
  data_sectors =
      (bpb_total_sectors
        + 2 ^ 32
        - (u16_at s 14 + byte_at s 16 * bpb_fat_size + root_dir_sectors) % 2 ^ 32)
      % 2 ^ 32

  abbrev pub bpb_total_clusters : ℕ
  bpb_total_clusters = data_sectors / bpb_sectors_per_cluster

  unfoldable pub volume_of : Partition → Volume
  volume_of p = record {
    partition_start_lba = p.starting_lba;
    partition_sector_count = p.sector_count;
    bytes_per_sector = bpb_bytes_per_sector;
    sectors_per_cluster = bpb_sectors_per_cluster;
    reserved_sector_count = u16_at s 14;
    num_fats = byte_at s 16;
    total_sectors = bpb_total_sectors;
    fat_size = bpb_fat_size;
    root_cluster = u32_at s 44;
    fs_info_sector = u16_at s 48;
    fat_start_lba = add64 p.starting_lba (u16_at s 14);
    data_start_lba =
        add64 (add64 (add64 p.starting_lba (u16_at s 14)) (byte_at s 16 * bpb_fat_size))
          root_dir_sectors;
    total_clusters = bpb_total_clusters;
    bytes_per_cluster = bpb_bytes_per_sector * bpb_sectors_per_cluster;
    fat_cache = [];
    fat_cache_lba = no_lba;
    volume_label = trim_trailing_spaces (take 11 (drop 71 s));
    oem_name = trim_trailing_spaces (take 8 (drop 3 s));
  }

-- An early return.
unfoldable pub unless : Bool → Option Volume → Option Volume
unless bad next = if bad then none else next

unfoldable pub parse_bpb : (ℕ → Bool) → Partition → List ℕ → Option Volume
parse_bpb heap p s = unless (not (u16_at s 510 == 0xaa55)) (
    unless ((bpb_bytes_per_sector s == 0) || not (bpb_bytes_per_sector s % 512 == 0)) (
      unless
        ((bpb_sectors_per_cluster s == 0)
          || not (bit_and (bpb_sectors_per_cluster s) (bpb_sectors_per_cluster s - 1) == 0))
        (unless ((bpb_fat_size s == 0) || (byte_at s 16 == 0)) (
          unless (ltb (bpb_total_clusters s) 65525)
            (unless (not (heap (bpb_bytes_per_sector s))) (some (volume_of s p)))))))

unfoldable pub fat32_mount : Disk → (ℕ → Bool) → List Namespace → ℕ → Partition → Option Volume
fat32_mount read heap namespaces nsid p = elim (find_namespace nsid namespaces) [
  | none ↦ none
  | some n ↦
      if (n.block_size == 0) || not (heap n.block_size)
      then none
      else elim (read p.starting_lba 1) [ none ↦ none | some s ↦ parse_bpb heap p s ]
]

-- The cache is given back.
unfoldable pub fat32_unmount : Volume → Volume
fat32_unmount v = record v { fat_cache = []; fat_cache_lba = no_lba }
