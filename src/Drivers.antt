-- ===== src/Drivers.antt =====
-- The drivers and the handles of a process on them, src/kernel/drivers/driver.c with the structures of driver.h.
-- The functions of a driver are parameters; one that a driver may lack is an `Option`. A handle that is not
-- active is `none`.
pub mod Match
pub mod Handles
mod Tests
use nova_os.Base.{
  ℕ, zero, suc, ◌+◌, ◌-◌, ◌*◌, ◌/◌, ◌%◌, ◌^◌, ◌≤◌, ◌<◌, min, max, bit_and, bit_or, ◌≡◌, refl, sym,
  ap, ◌∙◌, ◌≢◌, ◌↔◌, ◌⊎◌, inl, inr, Bool, true, false, not, ◌&&◌, ◌||◌, Option, none, some, List,
  [], ◌∷◌, ◌++◌, map, arith, ltb, leb, ◌==◌, if◌then◌else◌, ltb→lt, lt→ltb, leb→le, le→leb,
  ltb-false, leb-false, ==_iff, Bool-cases, Option-cases, length, get_elem?, set, replicate,
  length-append, length-replicate, length-set, get_elem?-set_self, get_elem?-set_ne, take, drop,
  length-take, length-drop, drop-drop, take-append_drop, drop-nil, u64_mod, add64, sub64, mul64,
  page_size, and_not, page_down, page_up, bit_and_step, bit_and-le, bit_and-mask, bit_or_step,
  bit_or-zero, bit_or-div, bit_or-mod, bit_or-bit,
}
use nova_os.Slots.{slot}
use nova_os.Slots.Place.{place_first}
use nova_os.String.Compare.{strcmp, strlen, strncmp}

-- `ident` is the entry's address.
pub record DriverEntry : Type 0 where
  pub ident : ℕ
  pub name : List ℕ

pub record DriverHandle : Type 0 where
  pub driver : DriverEntry
  pub session : ℕ

pub record DriverHandleTable : Type 0 where
  pub handles : List (Option DriverHandle)
  pub count : ℕ

-- The last part of a path: `base_of` is given the part that begins last so far.
unfoldable pub base_of : List ℕ → List ℕ → List ℕ
base_of base [] = base
base_of base (c ∷ p) = if (c == 47) || (c == 92) then base_of p p else base_of base p

-- ".elf"
abbrev pub elf_suffix : List ℕ
elf_suffix = 46 ∷ 101 ∷ 108 ∷ 102 ∷ []

unfoldable pub match_driver_name : List ℕ → List ℕ → Bool
match_driver_name registered query =
    let base = base_of query query in
    let rest = drop (strlen registered) base in
    if strcmp registered query == 0
    then true
    else (strncmp registered base (strlen registered) == 0)
      && ((strlen rest == 0) || (strcmp rest elf_suffix == 0))

-- `made`: the `kzalloc` of the entry.
unfoldable pub driver_register : Bool → ℕ → List ℕ → List DriverEntry → Bool × List DriverEntry
driver_register made ident name ds =
    if made then (true, record { ident = ident; name = take 63 name } ∷ ds) else (false, ds)

unfoldable pub driver_unregister : List ℕ → List DriverEntry → List DriverEntry
driver_unregister name [] = []
driver_unregister name (d ∷ ds) =
    let rest = driver_unregister name ds in if strcmp d.name name == 0 then ds else d ∷ rest

unfoldable pub find_driver : List ℕ → List DriverEntry → Option DriverEntry
find_driver query [] = none
find_driver query (d ∷ ds) =
    let rest = find_driver query ds in if match_driver_name d.name query then some d else rest

-- The results of `driverOpen`: a slot, or -2, the driver's own error, or -12.
pub data Opened : Type 0 where
  in_slot : ℕ → Opened
  no_driver no_memory : Opened
  driver_error : ℕ → Opened

-- `open d` is the driver's function: its result and its session. Beside the result: the table, and the session
-- that is closed again.
module _ (opens : DriverEntry → Option (ℕ × ℕ)) (grown : Bool) where
  abbrev pub session_of : DriverEntry → ℕ × ℕ
  session_of d = elim (opens d) [ none ↦ (0, 0) | some r ↦ r ]

  unfoldable pub open_handle :
      DriverHandle → DriverHandleTable → Opened × DriverHandleTable × Option ℕ
  open_handle h t = elim (place_first 8 grown h t.handles) [
    | none ↦ (no_memory, t, some h.session)
    | some (i, hs) ↦ (in_slot i, record { handles = hs; count = t.count + 1 }, none)
  ]

  unfoldable pub driver_open :
      List DriverEntry → List ℕ → DriverHandleTable → Opened × DriverHandleTable × Option ℕ
  driver_open ds query t = elim (find_driver query ds) [
    | none ↦ (no_driver, t, none)
    | some d ↦
        let (ret, session) = session_of d in
        if ret == 0
        then open_handle (record { driver = d; session = session }) t
        else (driver_error ret, t, none)
  ]

-- `handle < 0`, of a handle in two's complement
abbrev pub handle_at : ℕ → DriverHandleTable → Option DriverHandle
handle_at handle t = if leb (2 ^ 63) handle then none else slot t.handles handle

-- The result of the driver; `none` is the error -9, and `some none` the error -38 of a driver without it.
unfoldable pub driver_ioctl :
    {R : Type 0} → (DriverEntry → Option (ℕ → R)) → ℕ → DriverHandleTable → Option (Option R)
driver_ioctl ioctl handle t = elim (handle_at handle t) [
  | none ↦ none
  | some h ↦ some (elim (ioctl h.driver) [ none ↦ none | some f ↦ some (f h.session) ])
]

-- The table, with the handle whose driver is told to close its session; `none` is the error -9.
unfoldable pub driver_close : ℕ → DriverHandleTable → Option (DriverHandleTable × DriverHandle)
driver_close handle t = elim (handle_at handle t) [
  | none ↦ none
  | some h ↦ some (record { handles = set t.handles handle none; count = t.count - 1 }, h)
]

-- The handles whose sessions are closed, in their order, and the empty table.
abbrev pub active : List (Option DriverHandle) → List DriverHandle
active [] = []
active (none ∷ hs) = active hs
active (some h ∷ hs) = h ∷ active hs

unfoldable pub driver_cleanup_process : DriverHandleTable → List DriverHandle × DriverHandleTable
driver_cleanup_process t = (active t.handles, record { handles = []; count = 0 })
