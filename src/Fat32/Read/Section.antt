-- ===== src/Fat32/Read/Section.antt =====
-- `fat32_read` of a file that is on the disk gives its bytes.
use nova_os.Base.{ℕ, ◌-◌, ◌^◌, ◌≤◌, ◌<◌, min, List, length}
use nova_os.Fat32.{Volume, Disk}
use nova_os.Fat32.Chain.{Stored, flat}
use nova_os.Fat32.Directory.{DirEntry}

-- The chain of an entry, as it stands on the disk, in clusters that are not empty, holds the file.
pub record FileOn (read : Disk) (v : Volume) (e : DirEntry) (bs : List (List ℕ)) : Type 0 where
  pub stored : Stored read v e.start_cluster bs
  pub large : (0 < v.bytes_per_cluster) × (v.bytes_per_cluster < 2 ^ 32)
  pub holds : e.file_size ≤ length (flat bs)
  pub word : e.file_size < 2 ^ 32

abbrev pub extent : DirEntry → ℕ → ℕ → ℕ
extent e offset size = min size (e.file_size - offset)
