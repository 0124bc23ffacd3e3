-- ===== src/String/Tests.antt =====
-- The memory functions on overlapping and on aligned ranges.
use nova_os.Base.{◌%◌, ◌≡◌, refl}
use nova_os.String.{
  Memory, memmove, memcpy, memset, copy_byte, copy_bytes, copy_word, copy_words, copy_down,
  fill_byte, fill_bytes, fill_words, store_word,
}
use nova_os.String.Copy.{copied, memmove-copied}
use nova_os.String.Fill.{overwritten, memset-overwritten}

-- Every byte holds its address.
abbrev memory : Memory
memory x = x % 256

memmove-copied_example : memmove 8 3 20 memory ≡ copied 8 3 20 memory
memmove-copied_example = memmove-copied 8 3 20 memory

memset-overwritten_example : memset 16 0x1ff 21 memory ≡ overwritten 16 255 21 memory
memset-overwritten_example = memset-overwritten 16 0x1ff 21 memory

moved : (memmove 8 3 20 memory 27 ≡ 22) × (memmove 0 16 11 memory 10 ≡ 26)
unfolding memmove memcpy copy_bytes copy_byte copy_words copy_word copy_down
moved = (refl, refl)

set_bytes : (memset 16 0x1ff 21 memory 36 ≡ 255) × (memset 16 0x1ff 21 memory 37 ≡ 37)
unfolding memset fill_words store_word fill_bytes fill_byte
set_bytes = (refl, refl)
