-- ===== src/Fat32/Read.antt =====
-- `fat32_read` and `fat32_read_file`.
pub mod Loop
pub mod Section
use nova_os.Base.{
  ℕ, zero, suc, ◌+◌, ◌-◌, ◌*◌, ◌/◌, ◌%◌, ◌^◌, ◌≤◌, ◌<◌, min, max, bit_and, bit_or, ◌≡◌, refl, sym,
  ap, ◌∙◌, ◌≢◌, ◌↔◌, ◌⊎◌, inl, inr, Bool, true, false, not, ◌&&◌, ◌||◌, Option, none, some, List,
  [], ◌∷◌, ◌++◌, map, arith, ltb, leb, ◌==◌, if◌then◌else◌, ltb→lt, lt→ltb, leb→le, le→leb,
  ltb-false, leb-false, ==_iff, Bool-cases, Option-cases, length, get_elem?, set, replicate,
  length-append, length-replicate, length-set, get_elem?-set_self, get_elem?-set_ne, take, drop,
  length-take, length-drop, drop-drop, take-append_drop, u64_mod, add64, sub64, mul64, page_size,
  and_not, page_down, page_up, bit_and_step, bit_and-le, bit_and-mask, bit_or_step, bit_or-zero,
  bit_or-div, bit_or-mod, bit_or-bit,
}
use nova_os.Fat32.{Volume, Disk, live, get_next_cluster, read_cluster}
use nova_os.Fat32.Directory.{DirEntry}
use nova_os.Fat32.Directory.Path.{Walked, at_entry, not_found, out_of_fuel, fat32_stat}

-- The end of the copying loop: what has been read and the bytes that remain, or an error.
pub data Copied : Type 0 where
  got : List ℕ → ℕ → Copied
  failed no_fuel : Copied

-- The bytes of a round put before the later ones.
unfoldable pub before : List ℕ → Copied → Copied
before bytes (got more remaining) = got (bytes ++ more) remaining
before bytes failed = failed
before bytes no_fuel = no_fuel

module _ (read : Disk) where
  -- The first loop: `i` clusters on.
  unfoldable pub skip_clusters : ℕ → Volume → ℕ → Option ℕ × Volume
  skip_clusters zero v curr = (some curr, v)
  skip_clusters (suc i) v curr =
      let next : Option ℕ × Volume =
        let (o, v') = get_next_cluster read v curr in
        elim o [ none ↦ (none, v') | some c ↦ skip_clusters i v' c ] in
      if live curr then next else (none, v)

module _ (read : Disk) (heap : ℕ → Bool) where
  -- One cluster: straight into the buffer where all of it is wanted, else by way of a buffer of the heap.
  unfoldable pub cluster_part : Volume → ℕ → ℕ → ℕ → Option (List ℕ)
  cluster_part v curr offset chunk =
      if (offset == 0) && (chunk == v.bytes_per_cluster)
      then read_cluster read v curr
      else if heap v.bytes_per_cluster
      then elim (read_cluster read v curr) [
        | none ↦ none
        | some bytes ↦ some (take chunk (drop offset bytes))
      ]
      else none

  -- The second loop, on fuel.
  unfoldable pub read_clusters : ℕ → Volume → ℕ → ℕ → ℕ → Copied × Volume
  read_clusters zero v curr offset remaining = (no_fuel, v)
  read_clusters (suc k) v curr offset remaining =
      let chunk = min (v.bytes_per_cluster - offset) remaining in
      let onward : List ℕ → Copied × Volume = λ bytes.
        let (o, v') = get_next_cluster read v curr in
        elim o [
          | none ↦ (failed, v')
          | some c ↦
              let (r, v'') = read_clusters k v' c 0 (remaining - chunk) in (before bytes r, v'')
        ] in
      if ltb 0 remaining && live curr
      then elim (cluster_part v curr offset chunk) [
        | none ↦ (failed, v)
        | some bytes ↦ if ltb 0 (remaining - chunk) then onward bytes else (got bytes 0, v)
      ]
      else (got [] remaining, v)

  -- The bytes that land in the buffer, with `*bytes_read`; the cluster to begin with is missing where it
  -- could not be reached.
  unfoldable pub read_from : Option ℕ → Volume → ℕ → ℕ → Option (List ℕ × ℕ) × Volume
  read_from none v offset wanted = (none, v)
  read_from (some curr) v offset wanted =
      let (r, v') = read_clusters (wanted + 1) v curr offset wanted in
      (
        elim r [
          | got bytes remaining ↦ some (bytes, wanted - remaining)
          | failed ↦ none
          | no_fuel ↦ none
        ],
        v',
      )

  -- For an entry of a file.
  unfoldable pub read_entry : Volume → DirEntry → ℕ → ℕ → Option (List ℕ × ℕ) × Volume
  read_entry v e offset size =
      let wanted = if ltb e.file_size (add64 offset size) then e.file_size - offset else size in
      let (o, v') = skip_clusters read (offset / v.bytes_per_cluster % 2 ^ 32) v e.start_cluster in
      read_from o v' (offset % v.bytes_per_cluster % 2 ^ 32) wanted

  -- What follows `fat32_stat`.
  unfoldable pub read_walked : Walked → Volume → ℕ → ℕ → Option (List ℕ × ℕ) × Volume
  read_walked not_found v offset size = (none, v)
  read_walked out_of_fuel v offset size = (none, v)
  read_walked (at_entry e) v offset size =
      if e.is_directory
      then (none, v)
      else if leb e.file_size offset || (size == 0)
      then (some ([], 0), v)
      else read_entry v e offset size

  unfoldable pub fat32_read : Volume → List ℕ → ℕ → ℕ → Option (List ℕ × ℕ) × Volume
  fat32_read v path offset size =
      let (w, v') = fat32_stat read heap v path in read_walked w v' offset size

  unfoldable pub read_file_walked : Walked → Volume → List ℕ → Option (List ℕ × ℕ) × Volume
  read_file_walked not_found v path = (none, v)
  read_file_walked out_of_fuel v path = (none, v)
  read_file_walked (at_entry e) v path =
      let (r, v') = fat32_read v path 0 e.file_size in
      if e.is_directory
      then (none, v)
      else if e.file_size == 0
      then (some ([], 0), v)
      else if heap e.file_size
      then (
        elim r [
          | none ↦ none
          | some (bytes, n) ↦ if n == e.file_size then some (bytes, n) else none
        ],
        v',
      )
      else (none, v)

  unfoldable pub fat32_read_file : Volume → List ℕ → Option (List ℕ × ℕ) × Volume
  fat32_read_file v path = let (w, v') = fat32_stat read heap v path in read_file_walked w v' path
