-- ===== src/Files/Read.antt =====
-- `sysRead`, src/kernel/syscall/sysread.c. Its calls are parameters: `read` for `fs_read`, which gives the
-- bytes that it has read, `valid` for `validate_user_range`, and `lands` for a `copy_to_user` at a count of bytes.
pub mod Whole
pub mod Total
use nova_os.Base.{
  ℕ, zero, suc, ◌+◌, ◌-◌, ◌*◌, ◌/◌, ◌%◌, ◌^◌, ◌≤◌, ◌<◌, min, max, bit_and, bit_or, ◌≡◌, refl, sym,
  ap, ◌∙◌, ◌≢◌, ◌↔◌, ◌⊎◌, inl, inr, Bool, true, false, not, ◌&&◌, ◌||◌, Option, none, some, List,
  [], ◌∷◌, ◌++◌, map, arith, ltb, leb, ◌==◌, if◌then◌else◌, ltb→lt, lt→ltb, leb→le, le→leb,
  ltb-false, leb-false, ==_iff, Bool-cases, Option-cases, length, get_elem?, set, replicate,
  length-append, length-replicate, length-set, get_elem?-set_self, get_elem?-set_ne, take, drop,
  length-take, length-drop, drop-drop, take-append_drop, u64_mod, add64, sub64, mul64, page_size,
  and_not, page_down, page_up, bit_and_step, bit_and-le, bit_and-mask, bit_or_step, bit_or-zero,
  bit_or-div, bit_or-mod, bit_or-bit,
}
use nova_os.Slots.{slot}
use nova_os.Files.{
  FileHandle, FileTable, Answer, gives, fails, efault, eperm, ebadf, no_memory, eio, eisdir,
  negative,
}

abbrev pub file_io_chunk : ℕ
file_io_chunk = 65536

abbrev pub Read : Type 0
Read = List ℕ → ℕ → ℕ → Option (List ℕ)

-- The answer after `total` bytes where the file system fails.
abbrev pub ended : ℕ → Answer
ended total = if ltb 0 total then gives total else fails eio

-- The loop on fuel, with the bytes that it puts behind the first `total` ones of the buffer.
-- `none`: the fuel ran out.
module _ (read : Read) (lands : ℕ → Bool) (path : List ℕ) (offset to_read : ℕ) where
  unfoldable pub read_loop : ℕ → ℕ → Option (Answer × List ℕ)
  read_loop zero total = none
  read_loop (suc k) total =
      let step = min (to_read - total) file_io_chunk in
      let more : List ℕ → Option (Answer × List ℕ) = λ bytes.
        if length bytes == 0
        then some (ended total, [])
        else if not (lands total)
        then some (fails efault, [])
        else if ltb (length bytes) step
        then some (gives (total + length bytes), bytes)
        else elim (read_loop k (total + length bytes)) [
          | none ↦ none
          | some (a, rest) ↦ some (a, bytes ++ rest)
        ] in
      if ltb total to_read
      then elim (read path (offset + total) step) [
        | none ↦ some (ended total, [])
        | some bytes ↦ more bytes
      ]
      else some (gives total, [])

-- What the call does, with the bytes that reach the buffer and the table that it leaves.
-- `made`: the `kmalloc` of the chunk.
module _ (read : Read) (lands : ℕ → Bool) (valid has_process made : Bool) where
  unfoldable pub read_handle : ℕ → ℕ → FileHandle → FileTable → Option (Answer × List ℕ) × FileTable
  read_handle fd count fh hs =
      let to_read = min count (fh.size - fh.offset) in
      if fh.is_dir
      then (some (fails eisdir, []), hs)
      else if leb fh.size fh.offset
      then (some (gives 0, []), hs)
      else (
        if made
            then read_loop read lands fh.path fh.offset to_read (suc to_read) 0
            else some (fails no_memory, []),
        set hs fd (some (record fh { offset = fh.offset + to_read })),
      )

  unfoldable pub sys_read : ℕ → ℕ → FileTable → Option (Answer × List ℕ) × FileTable
  sys_read fd count hs =
      if (count == 0) || (fd == 0)
      then (some (gives 0, []), hs)
      else if negative fd || (fd == 1) || (fd == 2)
      then (some (fails ebadf, []), hs)
      else if not valid
      then (some (fails efault, []), hs)
      else if not has_process
      then (some (fails eperm, []), hs)
      else elim (slot hs fd) [
        | none ↦ (some (fails ebadf, []), hs)
        | some fh ↦ read_handle fd count fh hs
      ]
