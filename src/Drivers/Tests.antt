-- ===== src/Drivers/Tests.antt =====
-- Drivers named "a" and "b".
use nova_os.Base.{ℕ, ◌+◌, ◌≡◌, ◌≢◌, refl, ◌⊎◌, true, Option, none, some, List, [], ◌∷◌, arith}
use nova_os.Slots.{free_from}
use nova_os.Slots.Place.{place_first}
use nova_os.String.Compare.{strcmp, strncmp}
use nova_os.String.Compare.Equal.{Characters}
use nova_os.Drivers.{
  DriverEntry, DriverHandle, DriverHandleTable, find_driver, match_driver_name, base_of, elf_suffix,
  in_slot, no_driver, driver_error, session_of, open_handle, driver_open, driver_ioctl,
}
use nova_os.Drivers.Handles.{Outcome, driver_open-Outcome}

abbrev entry_b : DriverEntry
entry_b = record { ident = 2; name = 98 ∷ [] }

abbrev drivers : List DriverEntry
drivers = record { ident = 1; name = 97 ∷ [] } ∷ entry_b ∷ []

-- "/b.elf"
abbrev path_b : List ℕ
path_b = 47 ∷ 98 ∷ elf_suffix

abbrev opens : DriverEntry → Option (ℕ × ℕ)
opens d = some (0, 7)

abbrev no_handles : DriverHandleTable
no_handles = record { handles = []; count = 0 }

abbrev handle_b : DriverHandle
handle_b = record { driver = entry_b; session = 7 }

abbrev one_handle : DriverHandleTable
one_handle = record { handles = some handle_b ∷ none ∷ []; count = 1 }

found_by_path : find_driver path_b drivers ≡ some entry_b
unfolding find_driver match_driver_name base_of strcmp strncmp
found_by_path = refl

called : driver_ioctl (λ d. some (λ session. session + 1)) 0 one_handle ≡ some (some 8)
unfolding driver_ioctl
called = refl

characters : Characters (98 ∷ [])
unfolding Characters
characters = (omega arith, omega arith, tt)

driver_open-Outcome_example :
    let r = driver_open opens true drivers path_b no_handles in
    ((d : DriverEntry) × (find_driver path_b drivers ≡ some d)
      × ((session_of opens true d).0 ≡ 0)
      × Outcome true (record { driver = d; session = (session_of opens true d).1 }) no_handles r)
    ⊎ ((r.0 ≡ no_driver) × (find_driver path_b drivers ≡ none) × (r.1 ≡ no_handles) × (r.2 ≡ none))
    ⊎ ((d : DriverEntry) × (find_driver path_b drivers ≡ some d)
        × ((session_of opens true d).0 ≢ 0)
        × (r.0 ≡ driver_error (session_of opens true d).0)
        × (r.1 ≡ no_handles)
        × (r.2 ≡ none))
driver_open-Outcome_example = driver_open-Outcome opens true drivers path_b no_handles refl

-- The driver is found by the last part of the path, and its session is in the first slot.
opened_slot : (driver_open opens true drivers path_b no_handles).0 ≡ in_slot 0
unfolding driver_open open_handle find_driver match_driver_name base_of strcmp strncmp place_first
    free_from
opened_slot = refl
