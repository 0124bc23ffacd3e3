-- ===== src/Fat32/Directory/Path.antt =====
-- `fat32_stat` and `fat32_list_dir`: the walk along a path.
pub mod Components
pub mod Walk
use nova_os.Base.{
  ℕ, zero, suc, ◌+◌, ◌-◌, ◌*◌, ◌/◌, ◌%◌, ◌^◌, ◌≤◌, ◌<◌, min, max, bit_and, bit_or, ◌≡◌, refl, sym,
  ap, ◌∙◌, ◌≢◌, ◌↔◌, ◌⊎◌, inl, inr, Bool, true, false, not, ◌&&◌, ◌||◌, Option, none, some, List,
  [], ◌∷◌, ◌++◌, map, arith, ltb, leb, ◌==◌, if◌then◌else◌, ltb→lt, lt→ltb, leb→le, le→leb,
  ltb-false, leb-false, ==_iff, Bool-cases, Option-cases, length, get_elem?, set, replicate,
  length-append, length-replicate, length-set, get_elem?-set_self, get_elem?-set_ne, take, drop,
  length-take, length-drop, drop-drop, take-append_drop, u64_mod, add64, sub64, mul64, page_size,
  and_not, page_down, page_up, bit_and_step, bit_and-le, bit_and-mask, bit_or_step, bit_or-zero,
  bit_or-div, bit_or-mod, bit_or-bit,
}
use nova_os.Fat32.{Volume, Disk}
use nova_os.Fat32.Directory.{DirEntry, find_in_dir, list_dir_cluster}

abbrev pub separator : ℕ → Bool
separator c = (c == 47) || (c == 92)

-- The path behind its leading separators, the name at its start, and what is behind this name.
unfoldable pub skip : List ℕ → List ℕ
skip [] = []
skip (c ∷ p) = let rest = skip p in if separator c then rest else c ∷ p

unfoldable pub token : List ℕ → List ℕ
token [] = []
token (c ∷ p) = let rest = token p in if separator c then [] else c ∷ rest

unfoldable pub behind : List ℕ → List ℕ
behind [] = []
behind (c ∷ p) = let rest = behind p in if separator c then c ∷ p else rest

abbrev pub root_entry : Volume → DirEntry
root_entry v = record {
  name = 47 ∷ [];
  start_cluster = v.root_cluster;
  file_size = 0;
  attributes = 0x10;
  is_directory = true;
}

abbrev pub no_entry : DirEntry
no_entry = record {
  name = [];
  start_cluster = 0;
  file_size = 0;
  attributes = 0;
  is_directory = false;
}

abbrev pub empty : List ℕ → Bool
empty p = length p == 0

pub data Walked : Type 0 where
  at_entry : DirEntry → Walked
  not_found out_of_fuel : Walked

module _ (read : Disk) (heap : ℕ → Bool) where
  -- The loop of `fat32_stat`, on fuel.
  unfoldable pub walk : ℕ → Volume → ℕ → DirEntry → List ℕ → Walked × Volume
  walk zero v current entry p = (out_of_fuel, v)
  walk (suc k) v current entry p =
      let (o, v') = find_in_dir read heap v current (token p) in
      let rest = skip (behind p) in
      let found : Walked × Volume = elim o [
        | none ↦ (not_found, v')
        | some e ↦
            let onward : Walked × Volume = walk k v' e.start_cluster e rest in
            let ended : Walked × Volume = walk k v' current e rest in
            if empty rest then ended else if e.is_directory then onward else (not_found, v')
      ] in
      let later : Walked × Volume = walk k v current entry rest in
      if empty p
      then (at_entry entry, v)
      else if empty (token p)
      then later
      else if heap (length (token p) + 1)
      then found
      else (not_found, v)

  unfoldable pub fat32_stat : Volume → List ℕ → Walked × Volume
  fat32_stat v path =
      if empty (skip path)
      then (at_entry (root_entry v), v)
      else walk (length path + 1) v v.root_cluster no_entry (skip path)

  -- The paths of `fat32_list_dir` that name the root at once.
  unfoldable pub bare : List ℕ → Bool
  bare [] = true
  bare (c ∷ []) = separator c
  bare (c ∷ d ∷ p) = false

  unfoldable pub fat32_list_dir : Volume → List ℕ → Option (List DirEntry) × Volume
  fat32_list_dir v path =
      let (w, v') = fat32_stat v path in
      if bare path then list_dir_cluster read heap v v.root_cluster else elim w [
        | at_entry e ↦
            if e.is_directory then list_dir_cluster read heap v' e.start_cluster else (none, v')
        | not_found ↦ (none, v')
        | out_of_fuel ↦ (none, v')
      ]
