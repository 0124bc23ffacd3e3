-- ===== src/Fat32/Directory.antt =====
-- The directories of a volume: `list_dir_cluster` and `find_in_dir`. The entries that the callback gets are the
-- list of the result.
pub mod Find
pub mod Path
use nova_os.Base.{
  ℕ, zero, suc, ◌+◌, ◌-◌, ◌*◌, ◌/◌, ◌%◌, ◌^◌, ◌≤◌, ◌<◌, min, max, bit_and, bit_or, ◌≡◌, refl, sym,
  ap, ◌∙◌, ◌≢◌, ◌↔◌, ◌⊎◌, inl, inr, Bool, true, false, not, ◌&&◌, ◌||◌, Option, none, some, List,
  [], ◌∷◌, ◌++◌, map, arith, ltb, leb, ◌==◌, if◌then◌else◌, ltb→lt, lt→ltb, leb→le, le→leb,
  ltb-false, leb-false, ==_iff, Bool-cases, Option-cases, length, get_elem?, set, replicate,
  length-append, length-replicate, length-set, get_elem?-set_self, get_elem?-set_ne, take, drop,
  length-take, length-drop, drop-drop, take-append_drop, u64_mod, add64, sub64, mul64, page_size,
  and_not, page_down, page_up, bit_and_step, bit_and-le, bit_and-mask, bit_or_step, bit_or-zero,
  bit_or-div, bit_or-mod, bit_or-bit,
}
use nova_os.Bytes.{byte_at, u16_at, u32_at}
use nova_os.Fat32.{Volume, Disk, read_cluster_chain}
use nova_os.Fat32.Names.{strcasecmp_ascii, calculate_sfn_checksum, format_sfn_name, utf16le_to_utf8}

pub record DirEntry : Type 0 where
  pub name : List ℕ
  pub start_cluster : ℕ
  pub file_size : ℕ
  pub attributes : ℕ
  pub is_directory : Bool

-- The long name that is being collected. The array has 260 code units; the sequence number 20 with the mark of
-- a last entry makes the code write one past it, which the list ignores.
pub record Lfn : Type 0 where
  pub unicode : List ℕ
  pub checksum : ℕ
  pub active : Bool

abbrev pub no_lfn : Lfn
no_lfn = record { unicode = replicate 260 0; checksum = 0; active = false }

-- The code units of `name1`, `name2` and `name3`.
abbrev pub lfn_part : List ℕ → List ℕ
lfn_part raw =
    map (λ i. u16_at raw i) (1 ∷ 3 ∷ 5 ∷ 7 ∷ 9 ∷ 14 ∷ 16 ∷ 18 ∷ 20 ∷ 22 ∷ 24 ∷ 28 ∷ 30 ∷ [])

unfoldable pub put_all : ℕ → List ℕ → List ℕ → List ℕ
put_all at [] us = us
put_all at (c ∷ cs) us = put_all (at + 1) cs (set us at c)

-- An entry of a long name.
unfoldable pub lfn_step : List ℕ → Lfn → Lfn
lfn_step raw l =
    let seq = byte_at raw 0 % 32 in
    let units = put_all ((seq - 1) * 13) (lfn_part raw) l.unicode in
    if leb 1 seq && leb seq 20
    then if byte_at raw 0 / 64 % 2 == 1
      then record {
        unicode = set units ((seq - 1) * 13 + 13) 0;
        checksum = byte_at raw 13;
        active = true;
      }
      else record l { unicode = units }
    else l

unfoldable pub dir_entry : List ℕ → Lfn → DirEntry
dir_entry raw l = record {
  name =
      if l.active && (l.checksum == calculate_sfn_checksum raw)
      then utf16le_to_utf8 256 0 l.unicode
      else format_sfn_name raw;
  start_cluster = u16_at raw 20 * 2 ^ 16 + u16_at raw 26;
  file_size = u32_at raw 28;
  attributes = byte_at raw 11;
  is_directory = byte_at raw 11 / 16 % 2 == 1;
}

-- The loop over the `n` entries of the buffer.
unfoldable pub dir_entries : ℕ → List ℕ → Lfn → List DirEntry
dir_entries zero bytes l = []
dir_entries (suc n) bytes l =
    let raw = take 32 bytes in
    let attr = byte_at raw 11 in
    let after : Lfn → List DirEntry = λ l'. dir_entries n (drop 32 bytes) l' in
    if byte_at raw 0 == 0
    then []
    else if byte_at raw 0 == 0xe5
    then after (record l { active = false })
    else if attr == 0x0f
    then after (lfn_step raw l)
    else if attr / 8 % 2 == 1
    then after (record l { active = false })
    else dir_entry raw l ∷ after (record l { unicode = replicate 260 0; active = false })

-- The search of `find_in_dir`, as a callback and its context: the entry that has been found.
unfoldable pub find_callback : List ℕ → DirEntry → Option DirEntry → Option DirEntry
find_callback target entry (some found) = some found
find_callback target entry none =
    if strcasecmp_ascii entry.name target == 0 then some entry else none

unfoldable pub call_back : List ℕ → List DirEntry → Option DirEntry → Option DirEntry
call_back target [] found = found
call_back target (e ∷ es) found = call_back target es (find_callback target e found)

module _ (read : Disk) (heap : ℕ → Bool) where
  unfoldable pub list_dir_cluster : Volume → ℕ → Option (List DirEntry) × Volume
  list_dir_cluster v cluster =
      let (bytes, v') = read_cluster_chain read heap v cluster in
      if ltb cluster 2 then (none, v) else elim bytes [
        | none ↦ (none, v')
        | some bs ↦
            (if length bs == 0 then none else some (dir_entries (length bs / 32) bs no_lfn), v')
      ]

  unfoldable pub find_in_dir : Volume → ℕ → List ℕ → Option DirEntry × Volume
  find_in_dir v cluster name =
      let (entries, v') = list_dir_cluster v cluster in
      (elim entries [ none ↦ none | some es ↦ call_back name es none ], v')
