-- ===== src/Gpt.antt =====
-- The partition table of krdrivers/fs/gpt.c: its check sums, its entries and the list of partitions.
pub mod Filled
mod Tests
use nova_os.Base.{
  ℕ, zero, suc, ◌+◌, ◌-◌, ◌*◌, ◌/◌, ◌%◌, ◌^◌, ◌≤◌, ◌<◌, min, max, bit_and, bit_or, ◌≡◌, refl, sym,
  ap, ◌∙◌, ◌≢◌, ◌↔◌, ◌⊎◌, inl, inr, Bool, true, false, not, ◌&&◌, ◌||◌, Option, none, some, List,
  [], ◌∷◌, ◌++◌, map, arith, ltb, leb, ◌==◌, if◌then◌else◌, ltb→lt, lt→ltb, leb→le, le→leb,
  ltb-false, leb-false, ==_iff, Bool-cases, Option-cases, length, get_elem?, set, replicate,
  length-append, length-replicate, length-set, get_elem?-set_self, get_elem?-set_ne, take, drop,
  length-take, length-drop, drop-drop, take-append_drop, drop-nil, u64_mod, add64, sub64, mul64,
  page_size, and_not, page_down, page_up, bit_and_step, bit_and-le, bit_and-mask, bit_or_step,
  bit_or-zero, bit_or-div, bit_or-mod, bit_or-bit,
}
use nova_os.Bytes.{byte_at, u16_at, u32_at, u64_at}
use nova_os.Fat32.{Disk}
use nova_os.Fat32.Mount.{Namespace, find_namespace}

abbrev pub gpt_signature : ℕ
gpt_signature = 0x5452415020494645

-- Sixteen bytes each.
abbrev pub guid_esp : List ℕ
guid_esp =
    0x28 ∷ 0x73 ∷ 0x2a ∷ 0xc1 ∷ 0x1f ∷ 0xf8 ∷ 0xd2 ∷ 0x11 ∷ 0xba ∷ 0x4b ∷ 0x00 ∷ 0xa0 ∷ 0xc9 ∷ 0x3e
    ∷ 0xc9 ∷ 0x3b ∷ []

abbrev pub guid_basic_data : List ℕ
guid_basic_data =
    0xa2 ∷ 0xa0 ∷ 0xd0 ∷ 0xeb ∷ 0xe5 ∷ 0xb9 ∷ 0x33 ∷ 0x44 ∷ 0x87 ∷ 0xc0 ∷ 0x68 ∷ 0xb6 ∷ 0xb7 ∷ 0x26
    ∷ 0x99 ∷ 0xc7 ∷ []

abbrev pub guid_zero : List ℕ
guid_zero = replicate 16 0

-- The bits in which two numbers differ.
abbrev bit_xor : ℕ → ℕ → ℕ
bit_xor x y = x + y - 2 * bit_and x y

abbrev pub crc_bits : ℕ → ℕ → ℕ
crc_bits zero crc = crc
crc_bits (suc k) crc = crc_bits k (bit_xor (crc / 2) (if crc % 2 == 1 then 0xedb88320 else 0))

abbrev pub crc_bytes : ℕ → List ℕ → ℕ
crc_bytes crc [] = crc
crc_bytes crc (b ∷ bs) = crc_bytes (crc_bits 8 (bit_xor crc b)) bs

unfoldable pub crc32 : List ℕ → ℕ
crc32 bs = 0xffffffff - crc_bytes 0xffffffff bs

-- The loop of `guid_equal`, with `k` bytes left from the `i`-th on.
unfoldable pub guid_loop : ℕ → ℕ → List ℕ → List ℕ → Bool
guid_loop zero i a b = true
guid_loop (suc k) i a b =
    let rest = guid_loop k (suc i) a b in if byte_at a i == byte_at b i then rest else false

abbrev pub guid_equal : List ℕ → List ℕ → Bool
guid_equal a b = guid_loop 16 0 a b

-- The characters before the NUL that the function writes behind them.
unfoldable pub utf16le_to_ascii : ℕ → List ℕ → List ℕ
utf16le_to_ascii zero src = []
utf16le_to_ascii (suc k) src =
    let rest = utf16le_to_ascii k (drop 2 src) in
    if u16_at src 0 == 0 then [] else (if ltb (u16_at src 0) 0x80 then u16_at src 0 else 63) ∷ rest

pub record GptPartition : Type 0 where
  pub type_guid : List ℕ
  pub unique_guid : List ℕ
  pub starting_lba : ℕ
  pub ending_lba : ℕ
  pub sector_count : ℕ
  pub attributes : ℕ
  pub name : List ℕ

pub record GptTable : Type 0 where
  pub partitions : List GptPartition
  pub partition_count : ℕ
  pub block_size : ℕ
  pub first_usable_lba : ℕ
  pub last_usable_lba : ℕ
  pub disk_guid : List ℕ

-- What `gpt_parse` does: it returns -1, before it writes the table or after that, or 0; or it leaves the
-- buffer of the entries, where that is shorter than they are.
pub data Parsed : Type 0 where
  refused : Parsed
  no_list : GptTable → Parsed
  parsed : GptTable → Parsed
  overrun : Parsed

-- The `i`-th entry: the offset is a product of 32 bits.
abbrev pub raw_entry : List ℕ → ℕ → ℕ → List ℕ
raw_entry entries size i = drop ((i * size) % 2 ^ 32) entries

abbrev pub in_use : List ℕ → Bool
in_use raw = not (guid_equal (take 16 raw) guid_zero)

unfoldable pub partition_of : List ℕ → GptPartition
partition_of raw = record {
  type_guid = take 16 raw;
  unique_guid = take 16 (drop 16 raw);
  starting_lba = u64_at raw 32;
  ending_lba = u64_at raw 40;
  sector_count =
      if leb (u64_at raw 32) (u64_at raw 40)
      then (u64_at raw 40 - u64_at raw 32 + 1) % 2 ^ 64
      else 0;
  attributes = u64_at raw 48;
  name = utf16le_to_ascii 36 (drop 56 raw);
}

-- The two loops over the entries, with `k` left from the `i`-th on.
unfoldable pub count_valid : List ℕ → ℕ → ℕ → ℕ → ℕ
count_valid entries size zero i = 0
count_valid entries size (suc k) i =
    let rest = count_valid entries size k (suc i) in
    if in_use (raw_entry entries size i) then suc rest else rest

unfoldable pub list_valid : List ℕ → ℕ → ℕ → ℕ → List GptPartition
list_valid entries size zero i = []
list_valid entries size (suc k) i =
    let rest = list_valid entries size k (suc i) in
    if guid_equal (take 16 (raw_entry entries size i)) guid_zero
    then rest
    else partition_of (raw_entry entries size i) ∷ rest

-- The header with its own check sum set to zero.
abbrev pub without_crc : List ℕ → List ℕ
without_crc h = take 16 h ++ replicate 4 0 ++ drop 20 h

module _ (h : List ℕ) where
  abbrev pub header_size : ℕ
  header_size = u32_at h 12

  abbrev pub num_entries : ℕ
  num_entries = u32_at h 80

  abbrev pub entry_size : ℕ
  entry_size = u32_at h 84

  abbrev pub total_entry_bytes : ℕ
  total_entry_bytes = num_entries * entry_size

module _ (block_size : ℕ) (h : List ℕ) where
  abbrev pub entry_blocks : ℕ
  entry_blocks = ((total_entry_bytes h + block_size - 1) / block_size) % 2 ^ 32

  abbrev pub bad_header : Bool
  bad_header =
      not (u64_at h 0 == gpt_signature)
      || (ltb (header_size h) 92 || ltb block_size (header_size h))
      || not (u32_at h 16 == crc32 (take (header_size h) (without_crc h)))
      || (ltb (entry_size h) 128 || (num_entries h == 0))

  abbrev pub empty_table : GptTable
  empty_table = record {
    partitions = [];
    partition_count = 0;
    block_size = block_size;
    first_usable_lba = u64_at h 40;
    last_usable_lba = u64_at h 48;
    disk_guid = take 16 (drop 56 h);
  }

module _ (heap : ℕ → Bool) (block_size : ℕ) (h : List ℕ) where
  -- A `GptPartition` takes 104 bytes.
  unfoldable pub fill_table : List ℕ → Parsed
  fill_table entries =
      let n = count_valid entries (entry_size h) (num_entries h) 0 in
      if n == 0
      then parsed (empty_table block_size h)
      else if not (heap (n * 104))
      then no_list (empty_table block_size h)
      else parsed (record (empty_table block_size h) {
        partitions = list_valid entries (entry_size h) (num_entries h) 0;
        partition_count = n;
      })

  unfoldable pub parse_entries : List ℕ → Parsed
  parse_entries entries =
      if ltb ((entry_blocks block_size h * block_size) % 2 ^ 32)
        (max (total_entry_bytes h) (entry_blocks block_size h * block_size))
      then overrun
      else if not (u32_at h 88 == crc32 (take (total_entry_bytes h) entries))
      then refused
      else fill_table entries

  unfoldable pub parse_header : Disk → Parsed
  parse_header read =
      if bad_header block_size h || not (heap ((entry_blocks block_size h * block_size) % 2 ^ 32))
      then refused
      else elim (read (u64_at h 72) (entry_blocks block_size h)) [
        | none ↦ refused
        | some entries ↦ parse_entries entries
      ]

unfoldable pub gpt_parse : Disk → (ℕ → Bool) → List Namespace → ℕ → Parsed
gpt_parse read heap namespaces nsid = elim (find_namespace nsid namespaces) [
  | none ↦ refused
  | some n ↦
      if (n.block_size == 0) || not (heap n.block_size)
      then refused
      else elim (read 1 1) [ none ↦ refused | some h ↦ parse_header heap n.block_size h read ]
]

abbrev pub gpt_is_esp : GptPartition → Bool
gpt_is_esp p = guid_equal p.type_guid guid_esp

abbrev pub gpt_is_basic_data : GptPartition → Bool
gpt_is_basic_data p = guid_equal p.type_guid guid_basic_data

-- The loop of both searches.
unfoldable pub find_partition : (GptPartition → Bool) → List GptPartition → Option GptPartition
find_partition is [] = none
find_partition is (p ∷ ps) = let rest = find_partition is ps in if is p then some p else rest

abbrev pub gpt_find_esp : GptTable → Option GptPartition
gpt_find_esp t = find_partition gpt_is_esp t.partitions

abbrev pub gpt_find_basic_data : GptTable → Option GptPartition
gpt_find_basic_data t = find_partition gpt_is_basic_data t.partitions

unfoldable pub gpt_free : GptTable → GptTable
gpt_free t = record t { partitions = []; partition_count = 0 }
