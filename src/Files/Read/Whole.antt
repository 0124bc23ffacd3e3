-- ===== src/Files/Read/Whole.antt =====
-- The loop of `sysRead`.
use nova_os.Base.{
  ℕ, zero, suc, ◌+◌, ◌-◌, ◌^◌, ◌≤◌, ◌<◌, min, ◌≡◌, refl, sym, ap, ◌∙◌, inl, inr, Bool, true, false,
  ◌||◌, Option, some, List, [], ◌++◌, arith, ltb, leb, ◌==◌, Bool-cases, length, set, take, drop,
  length-take, length-drop, drop-drop, take-append_drop,
}
use native.Mathlib.Numerals.{unary_clauses}
use nova_os.Slots.{slot}
use nova_os.Files.{FileHandle, FileTable, Answer, gives}
use nova_os.Files.Read.{Read, file_io_chunk, read_loop, read_handle, sys_read}
use nova_os.Files.{negative}

-- The bytes of a file from an offset on, `n` of them at most.
abbrev pub section : List ℕ → ℕ → ℕ → List ℕ
section bytes offset n = take n (drop offset bytes)

module _ (read : Read) (lands : ℕ → Bool) (path bytes : List ℕ) (offset to_read : ℕ) where
  -- Where the file system reads the file and every copy lands, the loop delivers all that is left.
  read_loop-section :
      ((o n : ℕ) → read path o n ≡ some (section bytes o n))
      → ((t : ℕ) → lands t ≡ true)
      → offset + to_read ≤ length bytes
      → (k total : ℕ) → to_read - total < k
      → total ≤ to_read
      → read_loop read lands path offset to_read k total
        ≡ some (gives to_read, section bytes (offset + total) (to_read - total))
  unfolding read_loop
  read_loop-section reads lands_all inside zero total enough below = absurd (omega arith)
  read_loop-section reads lands_all inside (suc k) total enough below =
      elim (Bool-cases (ltb total to_read)) [
        | inr e ↦ rw (e, zero_left e) (ap (λ t. some (gives t, [])) (reached e))
        | inl e ↦
            rw (e, reads (offset + total) step, full, busy e, lands_all total, not_short)
              (rw
                (read_loop-section reads lands_all inside k (total + step) (ground (arith, e))
                  (omega arith))
                (ap (λ t. some (gives to_read, t)) joined))
      ]
    where
      step : ℕ
      step = min (to_read - total) file_io_chunk

      full : length (section bytes (offset + total) step) ≡ step
      full = omega (
        arith,
        length-take step (drop (offset + total) bytes),
        length-drop (offset + total) bytes,
      )

      busy : ltb total to_read ≡ true → (step == 0) ≡ false
      busy e = ground (arith, e)

      not_short : ltb step step ≡ false
      not_short = ground arith

      assoc : offset + (total + step) ≡ offset + total + step
      assoc = omega arith

      rest : step + (to_read - (total + step)) ≡ to_read - total
      rest = omega arith

      joined :
          section bytes (offset + total) step
            ++ section bytes (offset + (total + step)) (to_read - (total + step))
          ≡ section bytes (offset + total) (to_read - total)
      joined =
          ap (λ t. section bytes (offset + total) step ++ take (to_read - (total + step)) t)
            (ap (λ o. drop o bytes) assoc ∙ sym (drop-drop (offset + total) step bytes))
          ∙ take-append_drop step (to_read - (total + step)) (drop (offset + total) bytes)
          ∙ ap (λ n. take n (drop (offset + total) bytes)) rest

      reached : ltb total to_read ≡ false → total ≡ to_read
      reached e = ground (arith, e)

      zero_left : ltb total to_read ≡ false → to_read - total ≡ 0
      zero_left e = ground (arith, e)

at_start :
    (bytes : List ℕ) (n o : ℕ)
    → ◌≡◌ {A = Option (Answer × List ℕ)}
        (some (gives n, section bytes (o + 0) (n - 0)))
        (some (gives n, section bytes o n))
at_start bytes n o = simp unary_clauses refl

-- What a call of `sysRead` comes to, for a handle of a file.
abbrev pub wanted : ℕ → FileHandle → ℕ
wanted count fh = min count (fh.size - fh.offset)

-- Where the file system reads the file, there is a process, memory for the buffer of a chunk is granted, the user's
-- buffer is valid and every copy to it lands, `sysRead` of at least one byte of
-- an open file whose offset lies inside of it gives the lesser of the count and what is left behind the offset, the buffer gets just
-- these bytes of the file, and the offset moves behind them; this takes no more fuel than the loop has.
pub sys_read-section :
    (read : Read) (lands : ℕ → Bool) (fd count : ℕ) (fh : FileHandle) (hs : FileTable)
    (bytes : List ℕ)
    → ((o n : ℕ) → read fh.path o n ≡ some (section bytes o n))
    → ((t : ℕ) → lands t ≡ true)
    → slot hs fd ≡ some fh
    → fh.is_dir ≡ false
    → fh.size ≡ length bytes
    → fh.offset < fh.size
    → 3 ≤ fd
    → fd < 2 ^ 63
    → 0 < count
    → sys_read read lands true true true fd count hs ≡ (
      some (gives (wanted count fh), section bytes fh.offset (wanted count fh)),
      set hs fd (some (record fh { offset = fh.offset + wanted count fh })),
    )
unfolding sys_read read_handle
sys_read-section read lands fd count fh hs bytes reads lands_all held file size left low small
      some_count =
    rw (busy, usable, held, file, more, loop) refl
  where
    busy : ((count == 0) || (fd == 0)) ≡ false
    busy = ground arith

    usable : (negative fd || (fd == 1) || (fd == 2)) ≡ false
    usable = ground arith

    more : leb fh.size fh.offset ≡ false
    more = ground arith

    loop :
        read_loop read lands fh.path fh.offset (wanted count fh) (suc (wanted count fh)) 0
        ≡ some (gives (wanted count fh), section bytes fh.offset (wanted count fh))
    loop =
        read_loop-section read lands fh.path bytes fh.offset (wanted count fh) reads lands_all
          (omega (arith, size, left)) (suc (wanted count fh)) 0 (omega arith) (omega arith)
        ∙ at_start bytes (wanted count fh) fh.offset
