-- ===== src/Fat32/Names.antt =====
-- The names of directory entries. A string is the list of its bytes before the NUL, an entry of a directory
-- the list of its 32 bytes.
pub mod Compare
pub mod Unicode
use nova_os.Base.{
  ℕ, zero, suc, ◌+◌, ◌-◌, ◌*◌, ◌/◌, ◌%◌, ◌^◌, ◌≤◌, ◌<◌, min, max, bit_and, bit_or, ◌≡◌, refl, sym,
  ap, ◌∙◌, ◌≢◌, ◌↔◌, ◌⊎◌, inl, inr, Bool, true, false, not, ◌&&◌, ◌||◌, Option, none, some, List,
  [], ◌∷◌, ◌++◌, map, arith, ltb, leb, ◌==◌, if◌then◌else◌, ltb→lt, lt→ltb, leb→le, le→leb,
  ltb-false, leb-false, ==_iff, Bool-cases, Option-cases, length, get_elem?, set, replicate,
  length-append, length-replicate, length-set, get_elem?-set_self, get_elem?-set_ne, take, drop,
  length-take, length-drop, drop-drop, take-append_drop, u64_mod, add64, sub64, mul64, page_size,
  and_not, page_down, page_up, bit_and_step, bit_and-le, bit_and-mask, bit_or_step, bit_or-zero,
  bit_or-div, bit_or-mod, bit_or-bit,
}
use nova_os.String.Compare.{difference}
use nova_os.Bytes.{byte_at, u16_at}

unfoldable pub to_lower : ℕ → ℕ
to_lower c = if leb 65 c && leb c 90 then c + 32 else c

unfoldable pub strcasecmp_ascii : List ℕ → List ℕ → ℕ
strcasecmp_ascii [] [] = difference (to_lower 0) (to_lower 0)
strcasecmp_ascii [] (b ∷ t) = difference (to_lower 0) (to_lower b)
strcasecmp_ascii (a ∷ s) [] = difference (to_lower a) (to_lower 0)
strcasecmp_ascii (a ∷ s) (b ∷ t) =
    let rest = strcasecmp_ascii s t in
    if to_lower a == to_lower b then rest else difference (to_lower a) (to_lower b)

unfoldable pub sfn_sum : ℕ → List ℕ → ℕ
sfn_sum sum [] = sum
sfn_sum sum (b ∷ bs) = sfn_sum (((if sum % 2 == 1 then 0x80 else 0) + sum / 2 + b) % 256) bs

abbrev pub calculate_sfn_checksum : List ℕ → ℕ
calculate_sfn_checksum raw = sfn_sum 0 (take 11 raw)

-- A loop of `format_sfn_name`: up to the first space, in lower case where the entry says so.
unfoldable pub until_space : Bool → List ℕ → List ℕ
until_space lower [] = []
until_space lower (c ∷ cs) =
    let rest = until_space lower cs in
    if c == 32 then [] else (if lower then to_lower c else c) ∷ rest

-- A first byte 0x05 stands for 0xE5.
abbrev pub unescaped : List ℕ → List ℕ
unescaped [] = []
unescaped (c ∷ cs) = (if c == 5 then 0xe5 else c) ∷ cs

abbrev pub dotted : List ℕ → List ℕ
dotted [] = []
dotted (c ∷ cs) = 46 ∷ c ∷ cs

unfoldable pub format_sfn_name : List ℕ → List ℕ
format_sfn_name raw =
    until_space (byte_at raw 12 / 8 % 2 == 1) (unescaped (take 8 raw))
    ++ dotted (until_space (byte_at raw 12 / 16 % 2 == 1) (take 3 (drop 8 raw)))

-- The bytes of one code unit. The sums have no common bits.
abbrev pub utf8 : ℕ → List ℕ
utf8 ch =
    if ltb ch 0x80
    then ch ∷ []
    else if ltb ch 0x800
    then (0xc0 + ch / 2 ^ 6) ∷ (0x80 + ch % 2 ^ 6) ∷ []
    else (0xe0 + ch / 2 ^ 12) ∷ (0x80 + ch / 2 ^ 6 % 2 ^ 6) ∷ (0x80 + ch % 2 ^ 6) ∷ []

-- `utf16le_to_utf8` behind `out` bytes; the source ends where the array does.
unfoldable pub utf16le_to_utf8 : ℕ → ℕ → List ℕ → List ℕ
utf16le_to_utf8 max_out out [] = []
utf16le_to_utf8 max_out out (ch ∷ src) =
    let rest = utf16le_to_utf8 max_out (out + length (utf8 ch)) src in
    if not (ch == 0) && not (ch == 0xffff) && ltb (out + 4) max_out then utf8 ch ++ rest else []

-- `trim_trailing_spaces`, of the first `len` bytes: without the spaces and zeros at their end.
abbrev pub blank : ℕ → Bool
blank c = (c == 32) || (c == 0)

abbrev pub keep_before : ℕ → List ℕ → List ℕ
keep_before c [] = if blank c then [] else c ∷ []
keep_before c (d ∷ ds) = c ∷ d ∷ ds

unfoldable pub trim_trailing_spaces : List ℕ → List ℕ
trim_trailing_spaces [] = []
trim_trailing_spaces (c ∷ cs) = keep_before c (trim_trailing_spaces cs)
