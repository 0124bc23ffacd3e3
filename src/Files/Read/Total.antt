-- ===== src/Files/Read/Total.antt =====
-- `sysRead` ends, and gives no more than was asked for, on any file system.
use nova_os.Base.{
  ℕ, zero, suc, ◌+◌, ◌-◌, ◌≤◌, ◌<◌, min, ◌≡◌, refl, inl, inr, Bool, true, false, not, ◌||◌, Option,
  none, some, List, [], ◌++◌, arith, ltb, leb, ◌==◌, if◌then◌else◌, lt→ltb, Bool-cases,
  Option-cases, length, length-append,
}
use nova_os.Slots.{slot}
use nova_os.Files.{
  FileHandle, FileTable, Answer, gives, fails, negative, no_memory, efault, eperm, ebadf,
}
use nova_os.Files.Read.{Read, file_io_chunk, ended, read_loop, read_handle, sys_read}

-- A result that exists; where it is a count, it is at most `most` and the number of bytes that are in the
-- buffer, of which `total` were there before.
pub Ended : ℕ → ℕ → Option (Answer × List ℕ) → Type 0
Ended most total none = ⊥
Ended most total (some (gives n, bytes)) = (n ≡ total + length bytes) × (n ≤ most)
Ended most total (some (fails c, bytes)) = length bytes ≤ most - total

ended-Ended : (most total : ℕ) → total ≤ most → Ended most total (some (ended total, []))
unfolding Ended
ended-Ended most zero below = omega arith
ended-Ended most (suc total) below = rw (lt→ltb 0 (suc total) (omega arith)) (omega arith, below)

-- The bytes of a round, put before those of the later rounds.
after-Ended :
    (most total : ℕ) (bytes : List ℕ) (r : Option (Answer × List ℕ))
    → total + length bytes ≤ most
    → Ended most (total + length bytes) r
    → Ended most total (elim r [ none ↦ none | some (a, rest) ↦ some (a, bytes ++ rest) ])
unfolding Ended
after-Ended most total bytes none below t = t
after-Ended most total bytes (some (gives n, rest)) below (count, bound) =
    (omega (arith, count, length-append bytes rest), bound)
after-Ended most total bytes (some (fails c, rest)) below t =
    omega (arith, t, below, length-append bytes rest)

module _ (read : Read) (lands : ℕ → Bool) (path : List ℕ) (offset to_read : ℕ) where
  read_loop-Ended :
      ((o n : ℕ) (bytes : List ℕ) → read path o n ≡ some bytes → length bytes ≤ n)
      → (k total : ℕ) → to_read - total < k
      → total ≤ to_read
      → Ended to_read total (read_loop read lands path offset to_read k total)
  unfolding read_loop Ended
  read_loop-Ended fits zero total enough below = absurd (omega arith)
  read_loop-Ended fits (suc k) total enough below = elim (Bool-cases (ltb total to_read)) [
    | inr e ↦ rw e (omega arith, below)
    | inl e ↦ elim (Option-cases (read path (offset + total) step)) [
      | inl q ↦ rw (e, q) (ended-Ended to_read total below)
      | inr (bytes, q) ↦
          rw (e, q)
            (elim (Bool-cases (length bytes == 0)) [
              | inl nothing ↦ rw nothing (ended-Ended to_read total below)
              | inr something ↦ rw something (elim (Bool-cases (lands total)) [
                | inr faults ↦ rw faults (omega arith)
                | inl fine ↦ rw fine (elim (Bool-cases (ltb (length bytes) step)) [
                  | inl short ↦ rw short (refl, ground (arith, e, short))
                  | inr whole ↦ rw whole (
                      after-Ended to_read total bytes
                        (read_loop read lands path offset to_read k (total + length bytes))
                        (inside e bytes (fits (offset + total) step bytes q))
                        (read_loop-Ended fits k (total + length bytes)
                          (ground (arith, e, whole, something))
                          (inside e bytes (fits (offset + total) step bytes q))))
                ])
              ])
            ])
    ]
  ]
    where
      step : ℕ
      step = min (to_read - total) file_io_chunk

      inside :
          ltb total to_read ≡ true
          → (bytes : List ℕ) → length bytes ≤ step
          → total + length bytes ≤ to_read
      inside e bytes h = ground (arith, e, h)

module _ (read : Read) (lands : ℕ → Bool)
    (fits : (path : List ℕ) (o n : ℕ) (bytes : List ℕ)
      → read path o n ≡ some bytes
      → length bytes ≤ n) where
  read_handle-Ended :
      (valid has_process made : Bool) (fd count : ℕ) (fh : FileHandle) (hs : FileTable)
      → Ended count 0 (read_handle read lands valid has_process made fd count fh hs).0
  unfolding read_handle Ended
  read_handle-Ended valid has_process made fd count fh hs = elim (Bool-cases fh.is_dir) [
    | inl d ↦ rw d (omega arith)
    | inr d ↦ rw d (elim (Bool-cases (leb fh.size fh.offset)) [
      | inl e ↦ rw e (refl, omega arith)
      | inr e ↦ rw e (fetched made)
    ])
  ]
    where
      wanted : ℕ
      wanted = min count (fh.size - fh.offset)

      wider : (r : Option (Answer × List ℕ)) → Ended wanted 0 r → Ended count 0 r
      wider none t = t
      wider (some (gives n, bytes)) (a, b) = (a, omega (arith, b))
      wider (some (fails c, bytes)) t = omega (arith, t)

      fetched :
          (m : Bool)
          → Ended count 0 (
              if m
              then read_loop read lands fh.path fh.offset wanted (suc wanted) 0
              else some (fails no_memory, []))
      fetched false = omega arith
      fetched true = wider (read_loop read lands fh.path fh.offset wanted (suc wanted) 0) (
          read_loop-Ended read lands fh.path fh.offset wanted (fits fh.path) (suc wanted) 0
            (omega arith) (omega arith))

-- On any file system that gives no more bytes than it is asked for, and whatever copies fail, `sysRead`
-- ends within its fuel; a count that it gives is that of the bytes in the buffer and at most the count asked for.
pub sys_read-Ended :
    (read : Read) (lands : ℕ → Bool) (valid has_process made : Bool) (fd count : ℕ) (hs : FileTable)
    → ((path : List ℕ) (o n : ℕ) (bytes : List ℕ) → read path o n ≡ some bytes → length bytes ≤ n)
    → Ended count 0 (sys_read read lands valid has_process made fd count hs).0
unfolding sys_read Ended
sys_read-Ended read lands valid has_process made fd count hs fits =
    elim (Bool-cases ((count == 0) || (fd == 0))) [
      | inl a ↦ rw a (refl, omega arith)
      | inr a ↦ rw a (elim (Bool-cases (negative fd || (fd == 1) || (fd == 2))) [
        | inl b ↦ rw b (omega arith)
        | inr b ↦ rw b (looked_up valid has_process)
      ])
    ]
  where
    rest : Bool → Bool → Option (Answer × List ℕ) × FileTable
    rest v p =
        if not v
        then (some (fails efault, []), hs)
        else if not p
        then (some (fails eperm, []), hs)
        else elim (slot hs fd) [
          | none ↦ (some (fails ebadf, []), hs)
          | some fh ↦ read_handle read lands valid has_process made fd count fh hs
        ]

    looked_up : (v p : Bool) → Ended count 0 (rest v p).0
    looked_up false p = omega arith
    looked_up true false = omega arith
    looked_up true true = elim (Option-cases (slot hs fd)) [
      | inl q ↦ rw q (omega arith)
      | inr (fh, q) ↦ rw q (read_handle-Ended read lands fits valid has_process made fd count fh hs)
    ]
