-- ===== src/Files/Tests.antt =====
-- The calls on files, run on small tables.
use nova_os.Base.{
  ℕ, ◌≡◌, refl, inl, inr, true, false, Option, none, some, List, [], ◌∷◌, arith, ◌==◌,
  if◌then◌else◌, set,
}
use nova_os.Slots.{slot}
use nova_os.Files.{
  FileHandle, Entry, FileTable, gives, fails, ebadf, sys_open, sys_close, sys_stat, resolved,
  unslashed, install, fill_slot, reply,
}
use nova_os.Files.Open.{Same, Outcome, sys_open-Outcome, sys_close-open}
use nova_os.Files.Read.{Read, sys_read, read_handle, read_loop}
use nova_os.Files.Read.Whole.{section, sys_read-section}
use nova_os.Files.Read.Total.{Ended, sys_read-Ended}
use nova_os.Slots.{free_from}

-- A file system with the one file "a", of five bytes.
abbrev content : List ℕ
content = 10 ∷ 11 ∷ 12 ∷ 13 ∷ 14 ∷ []

abbrev only_a : List ℕ → Option Entry
only_a (c ∷ []) = if c == 97 then some (record { file_size = 5; is_directory = false }) else none
only_a path = none

abbrev read_a : Read
read_a path o n = some (section content o n)

abbrev slash_a : List ℕ
slash_a = 47 ∷ 97 ∷ []

abbrev after_open : FileTable
after_open = (sys_open only_a true true true (some slash_a) 0 []).1

first_descriptor : (sys_open only_a true true true (some slash_a) 0 []).0 ≡ gives 3
unfolding sys_open resolved unslashed install fill_slot free_from
first_descriptor = refl

fstat_size : (sys_stat only_a true (some slash_a)).0 ≡ gives 0
unfolding sys_stat resolved unslashed reply
fstat_size = refl

closed_twice : (sys_close true 3 []).0 ≡ fails ebadf
unfolding sys_close
closed_twice = refl

abbrev handle_a : FileHandle
handle_a = record { path = 97 ∷ []; offset = 1; size = 5; flags = 0; is_dir = false }

abbrev table_a : FileTable
table_a = none ∷ none ∷ none ∷ some handle_a ∷ []

sys_open-Outcome_example :
    Outcome only_a true true true slash_a 2 table_a
      (sys_open only_a true true true (some slash_a) 2 table_a)
sys_open-Outcome_example =
    sys_open-Outcome only_a true true true slash_a 2 table_a (inr (omega arith))

sys_close-open_example :
    ((sys_close true 3 after_open).0 ≡ gives 0) × Same [] (sys_close true 3 after_open).1
sys_close-open_example =
    sys_close-open only_a true true slash_a 0 [] 3 (inl refl) first_descriptor (omega arith)

sys_read-section_example :
    sys_read read_a (λ t. true) true true true 3 3 table_a
    ≡ (some (gives 3, 11 ∷ 12 ∷ 13 ∷ []), set table_a 3 (some (record handle_a { offset = 4 })))
sys_read-section_example =
    sys_read-section read_a (λ t. true) 3 3 handle_a table_a content (λ o n. refl) (λ t. refl) refl
      refl refl (omega arith) (omega arith) (omega arith) (omega arith)

abbrev read_nothing : Read
read_nothing path o n = none

sys_read-Ended_example : Ended 3 0 (sys_read read_nothing (λ t. true) true true true 3 3 table_a).0
sys_read-Ended_example =
    sys_read-Ended read_nothing (λ t. true) true true true 3 3 table_a
      (λ path o n bytes e. ground (arith, e))

-- A read that fails has moved the offset all the same.
failed_read_moves :
    slot (sys_read read_nothing (λ t. true) true true true 3 3 table_a).1 3
    ≡ some (record handle_a { offset = 4 })
unfolding sys_read read_handle read_loop
failed_read_moves = refl
