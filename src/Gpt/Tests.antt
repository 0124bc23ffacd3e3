-- ===== src/Gpt/Tests.antt =====
-- Check sums, and a table of two entries of which one is in use.
use nova_os.Base.{
  ℕ, ◌≡◌, refl, Bool, true, false, ◌&&◌, none, some, List, [], ◌∷◌, ◌++◌, ◌==◌, if◌then◌else◌,
  length, replicate,
}
use nova_os.Bytes.{byte_at}
use nova_os.Fat32.{Disk}
use nova_os.Fat32.Mount.{Namespace, find_namespace}
use nova_os.Gpt.{
  GptTable, Parsed, parsed, crc32, gpt_parse, parse_header, parse_entries, fill_table, count_valid,
  list_valid, guid_loop, partition_of, utf16le_to_ascii, find_partition, gpt_find_esp,
}
use nova_os.Gpt.Filled.{Filled, gpt_parse-Filled}

abbrev check_input : List ℕ
check_input = 49 ∷ 50 ∷ 51 ∷ 52 ∷ 53 ∷ 54 ∷ 55 ∷ 56 ∷ 57 ∷ []

-- The usual test value of CRC-32.
crc32_test : crc32 check_input ≡ 0xcbf43926
unfolding crc32
crc32_test = refl

abbrev header : List ℕ
header =
    (69 ∷ 70 ∷ 73 ∷ 32 ∷ 80 ∷ 65 ∷ 82 ∷ 84 ∷ 0 ∷ 0 ∷ 1 ∷ 0 ∷ 92 ∷ 0 ∷ 0 ∷ 0 ∷ 119 ∷ 95 ∷ 239 ∷ 18
      ∷ 0 ∷ 0 ∷ 0 ∷ 0 ∷ 1 ∷ [])
    ++ replicate 7 0
    ++ (99 ∷ [])
    ++ replicate 7 0
    ++ (34 ∷ [])
    ++ replicate 7 0
    ++ (98 ∷ [])
    ++ replicate 7 0
    ++ (20 ∷ 21 ∷ 22 ∷ 23 ∷ 24 ∷ 25 ∷ 26 ∷ 27 ∷ 28 ∷ 29 ∷ 30 ∷ 31 ∷ 32 ∷ 33 ∷ 34 ∷ 35 ∷ 2 ∷ [])
    ++ replicate 7 0
    ++ (2 ∷ 0 ∷ 0 ∷ 0 ∷ 128 ∷ 0 ∷ 0 ∷ 0 ∷ 229 ∷ 15 ∷ 112 ∷ 45 ∷ [])

-- The second of two entries is in use.
abbrev array : List ℕ
array =
    replicate 128 0
    ++ (40 ∷ 115 ∷ 42 ∷ 193 ∷ 31 ∷ 248 ∷ 210 ∷ 17 ∷ 186 ∷ 75 ∷ 0 ∷ 160 ∷ 201 ∷ 62 ∷ 201 ∷ 59 ∷ 1 ∷ 2
        ∷ 3 ∷ 4 ∷ 5 ∷ 6 ∷ 7 ∷ 8 ∷ 9 ∷ 10 ∷ 11 ∷ 12 ∷ 13 ∷ 14 ∷ 15 ∷ 16 ∷ 34 ∷ [])
    ++ replicate 7 0
    ++ (97 ∷ [])
    ++ replicate 7 0
    ++ (1 ∷ [])
    ++ replicate 7 0
    ++ (69 ∷ 0 ∷ 70 ∷ 0 ∷ 73 ∷ [])
    ++ replicate 67 0

abbrev disk : Disk
disk lba count = if lba == 1 then some header else if lba == 2 then some array else none

abbrev always : ℕ → Bool
always n = true

abbrev namespace : Namespace
namespace = record { nsid = 1; block_size = 256 }

abbrev named_efi : Parsed → Bool
named_efi (parsed t) = elim (gpt_find_esp t) [
  | none ↦ false
  | some p ↦ (p.sector_count == 64) && ((byte_at p.name 2 == 73) && (length p.name == 3))
]
named_efi _ = false

gpt_parse_test : named_efi (gpt_parse disk always (namespace ∷ []) 1) ≡ true
unfolding gpt_parse find_namespace parse_header parse_entries fill_table count_valid list_valid
    crc32 guid_loop partition_of utf16le_to_ascii find_partition
gpt_parse_test = refl

gpt_parse-Filled_example :
    (t : GptTable) × (gpt_parse disk always (namespace ∷ []) 1 ≡ parsed t)
    × Filled 256 header array t
unfolding find_namespace crc32
gpt_parse-Filled_example =
    gpt_parse-Filled disk always (namespace ∷ []) 1 namespace header array (λ k. refl) refl refl
      refl refl refl refl refl
