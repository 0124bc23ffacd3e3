-- ===== src/Gpt/Filled.antt =====
-- What is in the list of partitions that `gpt_parse` makes.
use nova_os.Base.{
  ℕ, zero, suc, ◌*◌, ◌%◌, ◌^◌, max, ◌≡◌, refl, ap, ◌∙◌, inl, inr, Bool, true, false, not, some,
  List, [], ◌∷◌, arith, ltb, ◌==◌, Bool-cases, length, take, drop,
}
use mathlib.Core.Path.{subst}
use nova_os.Fat32.{Disk}
use nova_os.Fat32.Mount.{Namespace, find_namespace}
use nova_os.Bytes.{u32_at, u64_at}
use nova_os.Gpt.{
  GptPartition, GptTable, parsed, raw_entry, in_use, partition_of, count_valid, list_valid,
  guid_equal, guid_zero, crc32, bad_header, entry_blocks, total_entry_bytes, fill_table,
  parse_entries, parse_header, gpt_parse,
}

-- The loop that counts and the loop that lists agree.
length-list_valid :
    (entries : List ℕ) (size k i : ℕ)
    → length (list_valid entries size k i) ≡ count_valid entries size k i
unfolding list_valid count_valid
length-list_valid entries size zero i = refl
length-list_valid entries size (suc k) i =
    elim (Bool-cases (guid_equal (take 16 (raw_entry entries size i)) guid_zero)) [
      | inl e ↦ rw e (length-list_valid entries size k (suc i))
      | inr e ↦ rw e (ap suc (length-list_valid entries size k (suc i)))
    ]

-- `ps` are the partitions of the `k` entries from the `i`-th on that are in use, in their order.
pub data Lists (entries : List ℕ) (size : ℕ) : ℕ → ℕ → List GptPartition → Type 0 where
  done : {i : ℕ} → Lists entries size zero i []
  skip_unused :
      {k i : ℕ} {ps : List GptPartition}
      → in_use (raw_entry entries size i) ≡ false
      → Lists entries size k (suc i) ps
      → Lists entries size (suc k) i ps
  list_used :
      {k i : ℕ} {ps : List GptPartition}
      → in_use (raw_entry entries size i) ≡ true
      → Lists entries size k (suc i) ps
      → Lists entries size (suc k) i (partition_of (raw_entry entries size i) ∷ ps)

list_valid-Lists :
    (entries : List ℕ) (size k i : ℕ) → Lists entries size k i (list_valid entries size k i)
unfolding list_valid
list_valid-Lists entries size zero i = done
list_valid-Lists entries size (suc k) i =
    elim (Bool-cases (guid_equal (take 16 (raw_entry entries size i)) guid_zero)) [
      | inl e ↦ rw e (skip_unused (ap not e) (list_valid-Lists entries size k (suc i)))
      | inr e ↦ rw e (list_used (ap not e) (list_valid-Lists entries size k (suc i)))
    ]

-- The table of a header and of its entries.
pub record Filled (block_size : ℕ) (h entries : List ℕ) (t : GptTable) : Type 0 where
  pub counted : length t.partitions ≡ t.partition_count
  pub listed : Lists entries (u32_at h 84) (u32_at h 80) 0 t.partitions
  pub of_block_size : t.block_size ≡ block_size
  pub of_disk : t.disk_guid ≡ take 16 (drop 56 h)
  pub of_lbas : (t.first_usable_lba ≡ u64_at h 40) × (t.last_usable_lba ≡ u64_at h 48)

no_partition : (ps : List GptPartition) → length ps ≡ 0 → ps ≡ []
no_partition [] e = refl
no_partition (p ∷ ps) e = absurd (omega (arith, e))

fill_table-Filled :
    (heap : ℕ → Bool) (block_size : ℕ) (h entries : List ℕ)
    → ((n : ℕ) → heap n ≡ true)
    → (t : GptTable) × (fill_table heap block_size h entries ≡ parsed t)
      × Filled block_size h entries t
unfolding fill_table
fill_table-Filled heap block_size h entries grants =
    let counts = length-list_valid entries (u32_at h 84) (u32_at h 80) 0 in
    let lists = list_valid-Lists entries (u32_at h 84) (u32_at h 80) 0 in
    elim (Bool-cases (count_valid entries (u32_at h 84) (u32_at h 80) 0 == 0)) [
      | inl e ↦ (
        _,
        rw e refl,
        record {
          counted = refl;
          listed =
              subst (λ ps. Lists entries (u32_at h 84) (u32_at h 80) 0 ps)
                (no_partition _ (counts ∙ ground (arith, e))) lists;
          of_block_size = refl;
          of_disk = refl;
          of_lbas = (refl, refl);
        },
      )
      | inr e ↦ (
        _,
        rw e (rw (grants _) refl),
        record {
          counted = counts;
          listed = lists;
          of_block_size = refl;
          of_disk = refl;
          of_lbas = (refl, refl);
        },
      )
    ]

parse_entries-fill_table :
    (heap : ℕ → Bool) (block_size : ℕ) (h entries : List ℕ)
    → ltb
        ((entry_blocks block_size h * block_size) % 2 ^ 32)
        (max (total_entry_bytes h) (entry_blocks block_size h * block_size))
      ≡ false
    → (u32_at h 88 == crc32 (take (total_entry_bytes h) entries)) ≡ true
    → parse_entries heap block_size h entries ≡ fill_table heap block_size h entries
unfolding parse_entries
parse_entries-fill_table heap block_size h entries fits sum = rw fits (rw sum refl)

-- Where memory is never short, the header of block 1 passes its checks, the entries can be read, fit the 32 bits
-- of the size of their buffer and have the stored check sum, `gpt_parse` succeeds: the table has the numbers of
-- the header, and in order exactly the partitions of the entries that are in use, as many as it counts.
pub gpt_parse-Filled :
    (read : Disk) (heap : ℕ → Bool) (namespaces : List Namespace) (nsid : ℕ) (n : Namespace)
    (h entries : List ℕ)
    → ((k : ℕ) → heap k ≡ true)
    → find_namespace nsid namespaces ≡ some n
    → (n.block_size == 0) ≡ false
    → read 1 1 ≡ some h
    → bad_header n.block_size h ≡ false
    → read (u64_at h 72) (entry_blocks n.block_size h) ≡ some entries
    → ltb
        ((entry_blocks n.block_size h * n.block_size) % 2 ^ 32)
        (max (total_entry_bytes h) (entry_blocks n.block_size h * n.block_size))
      ≡ false
    → (u32_at h 88 == crc32 (take (total_entry_bytes h) entries)) ≡ true
    → (t : GptTable) × (gpt_parse read heap namespaces nsid ≡ parsed t)
      × Filled n.block_size h entries t
unfolding gpt_parse parse_header
gpt_parse-Filled read heap namespaces nsid n h entries grants found sized first good array fits
      sum =
    let (t, e, filled) = fill_table-Filled heap n.block_size h entries grants in
    (
      t,
      rw (gpt_parse, found)
          (rw sized (
            rw (grants n.block_size) (
              rw first (
                rw (parse_header, good)
                  (rw (grants ((entry_blocks n.block_size h * n.block_size) % 2 ^ 32)) (
                    rw array
                      (parse_entries-fill_table heap n.block_size h entries fits sum ∙ e))))))),
      filled,
    )
