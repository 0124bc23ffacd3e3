-- ===== src/Files.antt =====
-- The open files of a process: src/kernel/syscall/sysfile.c and sysread.c, with the structures of
-- src/kernel/sched/sched.h. The file system is a parameter: `stat` for `fs_stat`. So are what the heap grants and
-- whether the current thread has a process. A number of type `int` or `int64_t` is its two's complement.
pub mod Open
pub mod Read
pub mod Seek
mod Tests
use nova_os.Base.{
  ℕ, zero, suc, ◌+◌, ◌-◌, ◌*◌, ◌/◌, ◌%◌, ◌^◌, ◌≤◌, ◌<◌, min, max, bit_and, bit_or, ◌≡◌, refl, sym,
  ap, ◌∙◌, ◌≢◌, ◌↔◌, ◌⊎◌, inl, inr, Bool, true, false, not, ◌&&◌, ◌||◌, Option, none, some, List,
  [], ◌∷◌, ◌++◌, map, arith, ltb, leb, ◌==◌, if◌then◌else◌, ltb→lt, lt→ltb, leb→le, le→leb,
  ltb-false, leb-false, ==_iff, Bool-cases, Option-cases, length, get_elem?, set, replicate,
  length-append, length-replicate, length-set, get_elem?-set_self, get_elem?-set_ne, u64_mod, add64,
  sub64, mul64, page_size, and_not, page_down, page_up, bit_and_step, bit_and-le, bit_and-mask,
  bit_or_step, bit_or-zero, bit_or-div, bit_or-mod, bit_or-bit,
}
use nova_os.Slots.{slot, free_from, doubled, widened}

pub record FileHandle : Type 0 where
  pub path : List ℕ
  pub offset : ℕ
  pub size : ℕ
  pub flags : ℕ
  pub is_dir : Bool

-- The part of a `Fat32DirEntry` that the system calls use.
pub record Entry : Type 0 where
  pub file_size : ℕ
  pub is_directory : Bool

-- `FileTable`: the length is the capacity.
abbrev pub FileTable : Type 0
FileTable = List (Option FileHandle)

pub data Code : Type 0 where
  efault enoent eperm no_memory ebadf espipe invalid eio eisdir : Code

-- What a system call returns: a value, or a negated error number.
pub data Answer : Type 0 where
  gives : ℕ → Answer
  fails : Code → Answer

abbrev pub negative : ℕ → Bool
negative x = leb (2 ^ 63) x

-- `Fd < 3`
abbrev pub standard : ℕ → Bool
standard fd = negative fd || ltb fd 3

-- The path that `sysOpen` keeps, with what the file system says of it: the path, or the path without a
-- leading slash.
module _ (stat : List ℕ → Option Entry) where
  unfoldable pub unslashed : List ℕ → Option (List ℕ × Entry)
  unslashed [] = none
  unslashed (c ∷ path) =
      if c == 47 then elim (stat path) [ none ↦ none | some e ↦ some (path, e) ] else none

  unfoldable pub resolved : List ℕ → Option (List ℕ × Entry)
  resolved path = elim (stat path) [ none ↦ unslashed path | some e ↦ some (path, e) ]

abbrev pub opened : ℕ → List ℕ × Entry → FileHandle
opened flags (path, e) = record {
  path = path;
  offset = 0;
  size = e.file_size;
  flags = flags;
  is_dir = e.is_directory;
}

-- `made`: the `kzalloc` of the handle; `wide`: that of a larger table.
unfoldable pub fill_slot : Bool → ℕ → FileHandle → FileTable → Answer × FileTable
fill_slot made fd fh hs = if made then (gives fd, set hs fd (some fh)) else (fails no_memory, hs)

-- The descriptor after growth.
abbrev pub grown_fd : FileTable → ℕ
grown_fd hs = if ltb (length hs) 3 then 3 else length hs

unfoldable pub install : Bool → Bool → FileHandle → FileTable → Answer × FileTable
install wide made fh hs = elim (free_from 3 hs) [
  | some fd ↦ fill_slot made fd fh hs
  | none ↦ if wide then fill_slot made (grown_fd hs) fh (widened 16 hs) else (fails no_memory, hs)
]

-- The path is `none` where `copyStringFromUser` fails.
unfoldable pub sys_open :
    (List ℕ → Option Entry)
    → Bool
    → Bool
    → Bool
    → Option (List ℕ)
    → ℕ
    → FileTable
    → Answer × FileTable
sys_open stat has_process wide made none flags hs = (fails efault, hs)
sys_open stat has_process wide made (some path) flags hs = elim (resolved stat path) [
  | none ↦ (fails enoent, hs)
  | some found ↦
      if has_process then install wide made (opened flags found) hs else (fails eperm, hs)
]

unfoldable pub sys_close : Bool → ℕ → FileTable → Answer × FileTable
sys_close has_process fd hs =
    if standard fd
    then (gives 0, hs)
    else if has_process
    then elim (slot hs fd) [ none ↦ (fails ebadf, hs) | some fh ↦ (gives 0, set hs fd none) ]
    else (fails eperm, hs)

pub data Whence : Type 0 where
  seek_set seek_cur seek_end : Whence
  other_whence : Whence

unfoldable pub target : Whence → ℕ → FileHandle → Option ℕ
target seek_set offset fh = some offset
target seek_cur offset fh = some (add64 fh.offset offset)
target seek_end offset fh = some (add64 fh.size offset)
target other_whence offset fh = none

unfoldable pub seek : ℕ → ℕ → Whence → FileHandle → FileTable → Answer × FileTable
seek fd offset whence fh hs = elim (target whence offset fh) [
  | none ↦ (fails invalid, hs)
  | some to ↦
      if negative to
      then (fails invalid, hs)
      else (gives to, set hs fd (some (record fh { offset = to })))
]

unfoldable pub sys_lseek : Bool → ℕ → ℕ → Whence → FileTable → Answer × FileTable
sys_lseek has_process fd offset whence hs =
    if standard fd
    then (fails espipe, hs)
    else if has_process
    then elim (slot hs fd) [ none ↦ (fails ebadf, hs) | some fh ↦ seek fd offset whence fh hs ]
    else (fails eperm, hs)

-- The fields that are not zero. `file_size` has 32 bits, and its sum is one of 32 bits.
pub record Stat : Type 0 where
  pub st_mode : ℕ
  pub st_size : ℕ
  pub st_blksize : ℕ
  pub st_blocks : ℕ
  pub st_nlink : ℕ

-- S_IFDIR | 0755 and S_IFREG | 0755
unfoldable pub status : ℕ → ℕ → Bool → Stat
status blocks size is_dir = record {
  st_mode = if is_dir then 0x41ed else 0x81ed;
  st_size = size;
  st_blksize = 4096;
  st_blocks = blocks;
  st_nlink = 1;
}

-- S_IFCHR | 0666
abbrev pub terminal : Stat
terminal = record { st_mode = 0x21b6; st_size = 0; st_blksize = 1024; st_blocks = 0; st_nlink = 0 }

-- `written`: the `copy_to_user` of the result, which is beside the answer where it is written.
unfoldable pub reply : Bool → Stat → Answer × Option Stat
reply written st = if written then (gives 0, some st) else (fails efault, none)

unfoldable pub sys_stat : (List ℕ → Option Entry) → Bool → Option (List ℕ) → Answer × Option Stat
sys_stat stat written none = (fails efault, none)
sys_stat stat written (some path) = elim (resolved stat path) [
  | none ↦ (fails enoent, none)
  | some (_, e) ↦
      reply written (status ((e.file_size + 511) % 2 ^ 32 / 512) e.file_size e.is_directory)
]

unfoldable pub sys_fstat : Bool → Bool → ℕ → FileTable → Answer × Option Stat
sys_fstat has_process written fd hs =
    if has_process
    then if ltb fd 3 then reply written terminal else elim (slot hs fd) [
      | none ↦ (fails ebadf, none)
      | some fh ↦ reply written (status (add64 fh.size 511 / 512) fh.size fh.is_dir)
    ]
    else (fails eperm, none)

-- The handles that are freed, and the empty table.
unfoldable pub file_table_cleanup : FileTable → List FileHandle × FileTable
file_table_cleanup [] = ([], [])
file_table_cleanup (none ∷ hs) = file_table_cleanup hs
file_table_cleanup (some fh ∷ hs) = (fh ∷ (file_table_cleanup hs).0, [])
