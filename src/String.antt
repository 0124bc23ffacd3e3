-- ===== src/String.antt =====
-- src/kernel/string/string.c: `memcpy`, `memmove` and `memset` on a memory of bytes, a function from the
-- address. A pointer is its address; the objects of a call do not wrap around the address space.
pub mod Copy
pub mod Fill
pub mod Compare
mod Tests
use nova_os.Base.{
  ℕ, zero, suc, ◌+◌, ◌-◌, ◌*◌, ◌/◌, ◌%◌, ◌^◌, ◌≤◌, ◌<◌, min, max, bit_and, bit_or, ◌≡◌, refl, sym,
  ap, ◌∙◌, ◌≢◌, ◌↔◌, ◌⊎◌, inl, inr, Bool, true, false, not, ◌&&◌, ◌||◌, Option, none, some, List,
  [], ◌∷◌, ◌++◌, map, arith, ltb, leb, ◌==◌, if◌then◌else◌, ltb→lt, lt→ltb, leb→le, le→leb,
  ltb-false, leb-false, ==_iff, Bool-cases, Option-cases, length, get_elem?, set, replicate,
  length-append, length-replicate, length-set, get_elem?-set_self, get_elem?-set_ne, u64_mod, add64,
  sub64, mul64, page_size, and_not, page_down, page_up, bit_and_step, bit_and-le, bit_and-mask,
  bit_or_step, bit_or-zero, bit_or-div, bit_or-mod, bit_or-bit,
}
use nova_os.Pmm.Valid.{within}

abbrev pub Memory : Type 0
Memory = ℕ → ℕ

-- `*d64 = *s64`: eight bytes are read, then written.
unfoldable pub copy_word : ℕ → ℕ → Memory → Memory
copy_word d s m x = if within d 8 x then m (s + (x - d)) else m x

-- `*d = *s`
unfoldable pub copy_byte : ℕ → ℕ → Memory → Memory
copy_byte d s m x = if x == d then m s else m x

-- The two loops of `memcpy`, of `n` rounds.
unfoldable pub copy_words : ℕ → ℕ → ℕ → Memory → Memory
copy_words zero d s m = m
copy_words (suc n) d s m = copy_words n (d + 8) (s + 8) (copy_word d s m)

unfoldable pub copy_bytes : ℕ → ℕ → ℕ → Memory → Memory
copy_bytes zero d s m = m
copy_bytes (suc n) d s m = copy_bytes n (d + 1) (s + 1) (copy_byte d s m)

unfoldable pub memcpy : ℕ → ℕ → ℕ → Memory → Memory
memcpy d s n m =
    let k = n / 8 in
    if (d % 8 == 0) && (s % 8 == 0)
    then copy_bytes (n % 8) (d + k * 8) (s + k * 8) (copy_words k d s m)
    else copy_bytes n d s m

-- The loop of `memmove` that runs down from the ends.
unfoldable pub copy_down : ℕ → ℕ → ℕ → Memory → Memory
copy_down zero d s m = m
copy_down (suc n) d s m = copy_down n d s (copy_byte (d + n) (s + n) m)

unfoldable pub memmove : ℕ → ℕ → ℕ → Memory → Memory
memmove d s n m = if ltb d s then memcpy d s n m else if ltb s d then copy_down n d s m else m

-- `*p = val`
unfoldable pub fill_byte : ℕ → ℕ → Memory → Memory
fill_byte p val m x = if x == p then val else m x

-- `*p64 = val64`, the lowest byte first
unfoldable pub store_word : ℕ → ℕ → Memory → Memory
store_word p val m x = if within p 8 x then val / 256 ^ (x - p) % 256 else m x

-- `(uint64_t)val * 0x0101010101010101ULL`
abbrev pub spread : ℕ → ℕ
spread val = mul64 val 0x0101_0101_0101_0101

unfoldable pub fill_words : ℕ → ℕ → ℕ → Memory → Memory
fill_words zero p val m = m
fill_words (suc n) p val m = fill_words n (p + 8) val (store_word p val m)

unfoldable pub fill_bytes : ℕ → ℕ → ℕ → Memory → Memory
fill_bytes zero p val m = m
fill_bytes (suc n) p val m = fill_bytes n (p + 1) val (fill_byte p val m)

unfoldable pub memset : ℕ → ℕ → ℕ → Memory → Memory
memset p c n m =
    let val = c % 256 in
    let k = n / 8 in
    if (p % 8 == 0) && leb 8 n
    then fill_bytes (n % 8) (p + k * 8) val (fill_words k p (spread val) m)
    else fill_bytes n p val m
