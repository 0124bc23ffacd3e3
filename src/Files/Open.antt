-- ===== src/Files/Open.antt =====
-- What `sysOpen` and `sysClose` do to the table of a process.
use nova_os.Base.{
  ℕ, ◌+◌, ◌*◌, ◌^◌, ◌≤◌, ◌<◌, ◌≡◌, refl, sym, ap, ◌∙◌, ◌≢◌, ◌⊎◌, inl, inr, Bool, true, false,
  Option, none, some, List, arith, ltb, ◌==◌, if◌then◌else◌, ltb→lt, Bool-cases, Option-cases,
  length, set, length-append, length-replicate,
}
use mathlib.Core.Path.{subst}
use nova_os.Slots.{
  slot, free_from, widened, free_from-Free, slot-append_none, slot-past, slot-set_self, slot-set_ne,
}
use nova_os.Files.{
  FileHandle, Entry, FileTable, Answer, Code, no_memory, grown_fd, gives, fails, standard, opened,
  fill_slot, install, sys_open, sys_close, resolved, enoent, eperm,
}

-- The tables hold the same, descriptor by descriptor.
abbrev pub Same : FileTable → FileTable → Type 0
Same hs hs' = (i : ℕ) → slot hs' i ≡ slot hs i

-- `fd` was free, and holds the handle now; nothing else has changed.
abbrev pub Added : ℕ → FileHandle → FileTable → FileTable → Type 0
Added fd fh hs hs' =
    (3 ≤ fd)
    × (slot hs fd ≡ none)
    × (slot hs' fd ≡ some fh)
    × ((i : ℕ) → fd ≢ i → slot hs' i ≡ slot hs i)

-- A capacity that the kernel gives: none yet, or at least the three standard descriptors.
abbrev pub Sized : FileTable → Type 0
Sized hs = (length hs ≡ 0) ⊎ (3 ≤ length hs)

-- How a handle is put into the table: without memory for it, or for a wider table, the table holds the same.
pub data Installed (wide made : Bool) (fh : FileHandle) (hs : FileTable)
    : Answer × FileTable → Type 0 where
  no_room :
      (hs' : FileTable)
      → (wide ≡ false) ⊎ (made ≡ false)
      → Same hs hs'
      → Installed wide made fh hs (fails no_memory, hs')
  installed :
      (fd : ℕ) (hs' : FileTable) → Added fd fh hs hs' → Installed wide made fh hs (gives fd, hs')

fill_slot-Installed :
    (wide made : Bool) (fd : ℕ) (fh : FileHandle) (hs ws : FileTable)
    → 3 ≤ fd
    → fd < length ws
    → slot hs fd ≡ none
    → Same hs ws
    → Installed wide made fh hs (fill_slot made fd fh ws)
unfolding fill_slot
fill_slot-Installed wide false fd fh hs ws low inside free same = no_room ws (inr refl) same
fill_slot-Installed wide true fd fh hs ws low inside free same =
    installed fd (set ws fd (some fh)) (
      low,
      free,
      slot-set_self ws fd (some fh) inside,
      λ i ne. slot-set_ne ws fd i (some fh) ne ∙ same i,
    )

length-widened :
    (hs : FileTable) → length (widened 16 hs) ≡ (if length hs == 0 then 16 else length hs * 2)
length-widened hs =
    length-append hs _ ∙ ap (λ n. length hs + n) (length-replicate _ none) ∙ ground arith

grown-Installed :
    (wide made : Bool) (fh : FileHandle) (hs : FileTable)
    → Sized hs
    → Installed wide made fh hs
        (if wide then fill_slot made (grown_fd hs) fh (widened 16 hs) else (fails no_memory, hs))
grown-Installed false made fh hs sized = no_room hs (inl refl) (λ i. refl)
grown-Installed true made fh hs sized =
    fill_slot-Installed true made (grown_fd hs) fh hs (widened 16 hs) (ground arith)
      (ground (arith, length-widened hs, sized)) (slot-past hs (grown_fd hs) (ground arith))
      (λ i. slot-append_none hs _ i)

install-Installed :
    (wide made : Bool) (fh : FileHandle) (hs : FileTable)
    → Sized hs
    → Installed wide made fh hs (install wide made fh hs)
unfolding install
install-Installed wide made fh hs sized = elim (Option-cases (free_from 3 hs)) [
  | inr (i, e) ↦
      let (low, inside, free) = free_from-Free 3 hs i e in
      rw (e, install) (fill_slot-Installed wide made i fh hs hs low inside free (λ j. refl))
  | inl e ↦ rw (e, install) (grown-Installed wide made fh hs sized)
]

-- The ends of `sysOpen`, each with what leads to it.
pub data Outcome (stat : List ℕ → Option Entry) (has_process wide made : Bool) (path : List ℕ)
    (flags : ℕ) (hs : FileTable) : Answer × FileTable → Type 0 where
  missing :
      resolved stat path ≡ none
      → Outcome stat has_process wide made path flags hs (fails enoent, hs)
  not_allowed :
      (found : List ℕ × Entry)
      → resolved stat path ≡ some found
      → has_process ≡ false
      → Outcome stat has_process wide made path flags hs (fails eperm, hs)
  tried :
      (found : List ℕ × Entry) (r : Answer × FileTable)
      → resolved stat path ≡ some found
      → has_process ≡ true
      → Installed wide made (opened flags found) hs r
      → Outcome stat has_process wide made path flags hs r

-- On a table without slots or with at least three, `sysOpen` of a path that was copied gives -ENOENT just where
-- the file system has neither the path nor, if it starts with a slash, what follows that; then -EPERM just where there
-- is no process. Else it gives a descriptor of at least 3 that was free and now holds a handle
-- at offset 0 for what was found, with every other descriptor as before; or, only where memory for a wider table or for the
-- handle is refused, it gives -ENOMEM. Whatever fails, every descriptor is as before.
pub sys_open-Outcome :
    (stat : List ℕ → Option Entry) (has_process wide made : Bool) (path : List ℕ) (flags : ℕ)
    (hs : FileTable)
    → Sized hs
    → Outcome stat has_process wide made path flags hs
        (sys_open stat has_process wide made (some path) flags hs)
unfolding sys_open
sys_open-Outcome stat has_process wide made path flags hs sized =
    elim (Option-cases (resolved stat path)) [
      | inl e ↦ rw (sys_open, e) (missing e)
      | inr (found, e) ↦ elim (Bool-cases has_process) [
        | inl h ↦
            rw (e, sys_open, h)
              (tried found _ e refl (install-Installed wide made (opened flags found) hs sized))
        | inr h ↦ rw (e, h, sys_open) (not_allowed found e refl)
      ]
    ]

sys_close-Same :
    (fd : ℕ) (fh : FileHandle) (hs hs' : FileTable)
    → fd < 2 ^ 63
    → Added fd fh hs hs'
    → (sys_close true fd hs').0 ≡ gives 0 × Same hs (sys_close true fd hs').1
unfolding sys_close
sys_close-Same fd fh hs hs' small (low, free, held, others) = elim (Bool-cases (standard fd)) [
  | inl e ↦ absurd (ground (arith, e))
  | inr e ↦ rw (e, held) (refl, back)
]
  where
    inside : {fh : FileHandle} → slot hs' fd ≡ some fh → fd < length hs'
    inside held = elim (Bool-cases (ltb fd (length hs'))) [
      | inl e ↦ ltb→lt fd (length hs') e
      | inr e ↦ absurd (ground (arith, slot-past hs' fd (ground (arith, e)), held))
    ]

    back : (i : ℕ) → slot (set hs' fd none) i ≡ slot hs i
    back i = elim (Bool-cases (fd == i)) [
      | inl e ↦
          subst (λ j. slot (set hs' fd none) j ≡ slot hs j) (ground (arith, e))
            (slot-set_self hs' fd none (inside held) ∙ sym free)
      | inr e ↦
          slot-set_ne hs' fd i none (λ q. ground (arith, q, e))
          ∙ others i (λ q. ground (arith, q, e))
    ]

given_fd : Answer → ℕ
given_fd (gives n) = n
given_fd (fails c) = 0

is_given : Answer → Bool
is_given (gives n) = true
is_given (fails c) = false

no_answer : {n : ℕ} {c : Code} → fails c ≡ gives n → ⊥
unfolding is_given
no_answer e = ground (arith, ap is_given e)

-- A descriptor that `sysOpen` gave can be closed, and then the table holds what it held before the open,
-- descriptor by descriptor, though its capacity may have grown.
pub sys_close-open :
    (stat : List ℕ → Option Entry) (wide made : Bool) (path : List ℕ) (flags : ℕ) (hs : FileTable)
    (fd : ℕ)
    → Sized hs
    → (sys_open stat true wide made (some path) flags hs).0 ≡ gives fd
    → fd < 2 ^ 63
    → let (r, after) = sys_close true fd (sys_open stat true wide made (some path) flags hs).1 in
      (r ≡ gives 0) × Same hs after
unfolding given_fd
sys_close-open stat wide made path flags hs fd sized given small =
    closed (sys_open stat true wide made (some path) flags hs) given
      (sys_open-Outcome stat true wide made path flags hs sized)
  where
    installed_closed :
        (fh : FileHandle) (r : Answer × FileTable)
        → r.0 ≡ gives fd
        → Installed wide made fh hs r
        → (sys_close true fd r.1).0 ≡ gives 0 × Same hs (sys_close true fd r.1).1
    installed_closed fh _ e (no_room hs' w same) = absurd (no_answer e)
    installed_closed fh _ e (installed fd' hs' a) =
        sys_close-Same fd fh hs hs' small (subst (λ d. Added d fh hs hs') (ap given_fd e) a)

    closed :
        (r : Answer × FileTable)
        → r.0 ≡ gives fd
        → Outcome stat true wide made path flags hs r
        → (sys_close true fd r.1).0 ≡ gives 0 × Same hs (sys_close true fd r.1).1
    closed _ e (missing n) = absurd (no_answer e)
    closed _ e (not_allowed found q n) = absurd (no_answer e)
    closed r e (tried found _ q h t) = installed_closed (opened flags found) r e t
