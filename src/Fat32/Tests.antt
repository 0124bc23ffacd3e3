-- ===== src/Fat32/Tests.antt =====
-- A small volume with one file, and a boot sector.
use nova_os.Base.{
  ℕ, zero, suc, ◌≡◌, refl, inl, ◌⊎◌, Bool, true, false, none, some, List, [], ◌∷◌, ◌++◌, arith,
  replicate,
}
use nova_os.Fat32.{
  Volume, Disk, no_lba, get_next_cluster, cluster_to_lba, read_cluster, count_chain,
  read_cluster_chain,
}
use nova_os.Fat32.Cache.{Coherent, fat_entry, get_next_cluster-entry}
use nova_os.Fat32.Chain.{Ends, Stored, count_chain-total}
use nova_os.Fat32.Contents.{Yields, read_cluster_chain-Stored}
use nova_os.Fat32.Directory.{DirEntry, list_dir_cluster, find_in_dir}
use nova_os.Fat32.Directory.Path.{fat32_stat}
use nova_os.Fat32.Directory.Path.Components.{components}
use nova_os.Fat32.Directory.Path.Walk.{stat_names, fat32_stat-names}
use nova_os.Fat32.Mount.{
  Namespace, Partition, fat32_mount, find_namespace, parse_bpb, unless, volume_of,
}
use nova_os.Fat32.Directory.Find.{First, Missing, find_in_dir-First}

-- Sectors of 32 bytes: the table, then the root directory in cluster 2 and the file in cluster 3.
abbrev table : List ℕ
table =
    0
    ∷ 0
    ∷ 0
    ∷ 0
    ∷ 0
    ∷ 0
    ∷ 0
    ∷ 0
    ∷ 0xf8
    ∷ 0xff
    ∷ 0xff
    ∷ 0x0f
    ∷ 0xf8
    ∷ 0xff
    ∷ 0xff
    ∷ 0x0f
    ∷ replicate 16 0

-- "A", a file of five bytes in cluster 3
abbrev directory : List ℕ
directory = (65 ∷ replicate 10 32) ++ (0x20 ∷ replicate 14 0) ++ (3 ∷ 0 ∷ 5 ∷ 0 ∷ 0 ∷ 0 ∷ [])

abbrev file : List ℕ
file = 10 ∷ 11 ∷ 12 ∷ 13 ∷ 14 ∷ replicate 27 0

abbrev disk : Disk
disk zero n = some table
disk (suc zero) n = some directory
disk (suc (suc zero)) n = some file
disk (suc (suc (suc lba))) n = none

abbrev granted : ℕ → Bool
granted n = true

abbrev small : Volume
small = record {
  partition_start_lba = 0;
  partition_sector_count = 3;
  bytes_per_sector = 32;
  sectors_per_cluster = 1;
  reserved_sector_count = 0;
  num_fats = 1;
  total_sectors = 3;
  fat_size = 1;
  root_cluster = 2;
  fs_info_sector = 0;
  fat_start_lba = 0;
  data_start_lba = 1;
  total_clusters = 2;
  bytes_per_cluster = 32;
  fat_cache = [];
  fat_cache_lba = no_lba;
  volume_label = [];
  oem_name = [];
}

abbrev small_cached : Volume
small_cached = record small { fat_cache = table; fat_cache_lba = 0 }

abbrev file_entry : DirEntry
file_entry = record {
  name = 65 ∷ [];
  start_cluster = 3;
  file_size = 5;
  attributes = 0x20;
  is_directory = false;
}

abbrev slash_a : List ℕ
slash_a = 47 ∷ 97 ∷ []

abbrev file_stored : Stored disk small 3 (file ∷ [])
unfolding Stored fat_entry read_cluster cluster_to_lba
file_stored = (refl, refl, refl, refl, (0x0fff_fff8, refl, refl))

abbrev file_stored_cached : Stored disk small_cached 3 (file ∷ [])
unfolding Stored fat_entry read_cluster cluster_to_lba
file_stored_cached = (refl, refl, refl, refl, (0x0fff_fff8, refl, refl))

get_next_cluster-entry_example :
    ((get_next_cluster disk small 3).0 ≡ fat_entry disk small 3)
    × Coherent disk (get_next_cluster disk small 3).1
get_next_cluster-entry_example = get_next_cluster-entry disk small 3 (inl refl) (omega arith)

count_chain-total_example : Ends 2 (count_chain disk 4 small 3 0).0
count_chain-total_example = count_chain-total disk small 3

read_cluster_chain-Stored_example :
    Yields disk small (some file) (read_cluster_chain disk granted small 3)
read_cluster_chain-Stored_example =
    read_cluster_chain-Stored disk granted small 3 (file ∷ []) (inl refl) (omega arith)
      (omega arith) file_stored (omega arith) refl

fat32_stat-names_example :
    fat32_stat disk granted small slash_a ≡ stat_names disk granted small (components slash_a)
fat32_stat-names_example = fat32_stat-names disk granted small slash_a

-- Sectors of 512 bytes, one to a cluster, 32 reserved ones, a table of 550 and 70000 in all.
abbrev boot_sector : List ℕ → List ℕ
boot_sector total =
    replicate 11 0
    ++ (0 ∷ 2 ∷ 1 ∷ 32 ∷ 0 ∷ 1 ∷ replicate 15 0)
    ++ total
    ++ (38 ∷ 2 ∷ 0 ∷ 0 ∷ replicate 4 0)
    ++ (2 ∷ 0 ∷ 0 ∷ 0 ∷ replicate 462 0)
    ++ (0x55 ∷ 0xaa ∷ [])

abbrev boot_disk : List ℕ → Disk
boot_disk total lba n = some (boot_sector total)

abbrev namespaces : List Namespace
namespaces = record { nsid = 1; block_size = 512 } ∷ []

abbrev partition : Partition
partition = record { starting_lba = 2048; sector_count = 70000 }

abbrev enough : List ℕ
enough = 0x70 ∷ 0x11 ∷ 1 ∷ 0 ∷ []

abbrev booted : Volume
booted = volume_of (boot_sector enough) partition

mounts : fat32_mount (boot_disk enough) granted namespaces 1 partition ≡ some booted
unfolding fat32_mount find_namespace parse_bpb unless volume_of
mounts = refl

find_in_dir-First_example :
    let listed = (list_dir_cluster disk granted small 2).0 in
    let found = (find_in_dir disk granted small 2 (97 ∷ [])).0 in
    ((listed ≡ none) × (found ≡ none))
    ⊎ ((es : List DirEntry) × (listed ≡ some es)
        × (((found ≡ none) × Missing (97 ∷ []) es)
            ⊎ ((e : DirEntry) × (found ≡ some e) × First (97 ∷ []) es e)))
find_in_dir-First_example = find_in_dir-First disk granted small 2 (97 ∷ [])

-- The count of the data sectors wraps around: a volume of 100 sectors with tables of 550 is mounted, with
-- more clusters than it has sectors.
abbrev wrapped : Volume
wrapped = volume_of (boot_sector (100 ∷ 0 ∷ 0 ∷ 0 ∷ [])) partition

too_small_mounts :
    fat32_mount (boot_disk (100 ∷ 0 ∷ 0 ∷ 0 ∷ [])) granted namespaces 1 partition ≡ some wrapped
unfolding fat32_mount find_namespace parse_bpb unless volume_of
too_small_mounts = refl
