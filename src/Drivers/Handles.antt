-- ===== src/Drivers/Handles.antt =====
-- The handles that `driverOpen` gives and `driverClose` takes back.
use nova_os.Base.{
  ℕ, ◌-◌, ◌^◌, ◌<◌, ◌≡◌, refl, sym, ap, ◌∙◌, ◌≢◌, ◌⊎◌, inl, inr, Bool, false, Option, none, some,
  List, arith, leb, ◌==◌, Bool-cases, Option-cases, length, set,
}
use mathlib.Core.Path.{subst}
use nova_os.Slots.{slot, slot-set_self, slot-set_ne}
use nova_os.Slots.Count.{occupied, taken, occupied-set, slot-some_inside}
use nova_os.Slots.Place.{place_first-Placed}
use nova_os.Drivers.{
  DriverEntry, DriverHandle, DriverHandleTable, find_driver, Opened, in_slot, no_driver, no_memory,
  driver_error, session_of, open_handle, driver_open, driver_close,
}

-- The count is that of the active handles.
abbrev pub Counted : DriverHandleTable → Type 0
Counted t = occupied t.handles ≡ t.count

-- The handle is in a slot that was free; the others are as before, and no session is closed.
pub record Added (h : DriverHandle) (t : DriverHandleTable) (i : ℕ) (t' : DriverHandleTable)
    : Type 0 where
  pub free : slot t.handles i ≡ none
  pub held : slot t'.handles i ≡ some h
  pub others : (j : ℕ) → i ≢ j → slot t'.handles j ≡ slot t.handles j
  pub counted : Counted t'

-- The session of the driver is in a handle; or the table is as before, and a session that was opened without
-- memory for its handle is closed again.
abbrev pub Outcome :
    Bool → DriverHandle → DriverHandleTable → Opened × DriverHandleTable × Option ℕ → Type 0
Outcome grown h t r =
    ((i : ℕ) × (r.0 ≡ in_slot i) × (r.2 ≡ none) × Added h t i r.1)
    ⊎ ((r.0 ≡ no_memory) × (grown ≡ false) × (r.1 ≡ t) × (r.2 ≡ some h.session))

open_handle-Outcome :
    (opens : DriverEntry → Option (ℕ × ℕ)) (grown : Bool) (h : DriverHandle) (t : DriverHandleTable)
    → Counted t
    → Outcome grown h t (open_handle opens grown h t)
unfolding open_handle
open_handle-Outcome opens grown h t counted =
    elim (place_first-Placed 8 grown h t.handles (omega arith)) [
      | inl (e, g) ↦ rw (open_handle, e) (inr (refl, g, refl, refl))
      | inr (i, hs, e, p) ↦
          rw (open_handle, e)
            (inl (
              i,
              refl,
              refl,
              record {
                free = p.free;
                held = p.held;
                others = p.others;
                counted = omega (arith, p.count, counted);
              },
            ))
    ]

-- On a table whose count is that of its handles, `driverOpen` ends in one of three ways. It finds a driver whose
-- function returns 0: then either its session is in a handle whose slot was free, with every other handle as before and the
-- count that of the handles; or there was no memory for a larger table, the table stays, and the session is closed again.
-- Or it finds no driver, and gives -2. Or it finds one whose function does not return 0, and gives the driver's own
-- result. In the last two cases the table stays and no session is closed.
pub driver_open-Outcome :
    (opens : DriverEntry → Option (ℕ × ℕ)) (grown : Bool) (ds : List DriverEntry) (query : List ℕ)
    (t : DriverHandleTable)
    → Counted t
    → let r = driver_open opens grown ds query t in
      ((d : DriverEntry) × (find_driver query ds ≡ some d)
        × ((session_of opens grown d).0 ≡ 0)
        × Outcome grown (record { driver = d; session = (session_of opens grown d).1 }) t r)
      ⊎ ((r.0 ≡ no_driver) × (find_driver query ds ≡ none) × (r.1 ≡ t) × (r.2 ≡ none))
      ⊎ ((d : DriverEntry) × (find_driver query ds ≡ some d)
          × ((session_of opens grown d).0 ≢ 0)
          × (r.0 ≡ driver_error (session_of opens grown d).0)
          × (r.1 ≡ t)
          × (r.2 ≡ none))
unfolding driver_open
driver_open-Outcome opens grown ds query t counted = elim (Option-cases (find_driver query ds)) [
  | inl e ↦ rw (driver_open, e) (inr (inl (refl, refl, refl, refl)))
  | inr (d, e) ↦
      rw (driver_open, e)
        (elim (Bool-cases ((session_of opens grown d).0 == 0)) [
          | inl z ↦ rw z (
              inl (
                d,
                refl,
                ground (arith, z),
                open_handle-Outcome opens grown
                    (record { driver = d; session = (session_of opens grown d).1 }) t counted,
              ))
          | inr z ↦ rw z (inr (inr (d, refl, (λ q. ground (arith, q, z)), refl, refl, refl)))
        ])
]

-- A handle that was added can be closed, which closes its session with its driver and leaves every handle as
-- it was before it was added.
driver_close-Added :
    (h : DriverHandle) (t t' : DriverHandleTable) (i : ℕ)
    → i < 2 ^ 63
    → Added h t i t'
    → (t'' : DriverHandleTable) × (driver_close i t' ≡ some (t'', h))
      × ((j : ℕ) → slot t''.handles j ≡ slot t.handles j)
      × Counted t''
unfolding driver_close
driver_close-Added h t t' i small a = (
  record { handles = set t'.handles i none; count = t'.count - 1 },
  rw (driver_close, valid, a.held) refl,
  back,
  counted,
)
  where
    valid : leb (2 ^ 63) i ≡ false
    valid = ground arith

    inside : i < length t'.handles
    inside = slot-some_inside t'.handles i h a.held

    back : (j : ℕ) → slot (set t'.handles i none) j ≡ slot t.handles j
    back j = elim (Bool-cases (i == j)) [
      | inl e ↦
          subst (λ k. slot (set t'.handles i none) k ≡ slot t.handles k) (ground (arith, e))
            (slot-set_self t'.handles i none inside ∙ sym a.free)
      | inr e ↦
          slot-set_ne t'.handles i j none (λ q. ground (arith, q, e))
          ∙ a.others j (λ q. ground (arith, q, e))
    ]

    counted : occupied (set t'.handles i none) ≡ t'.count - 1
    counted = omega (arith, occupied-set t'.handles i none inside, ap taken a.held, a.counted)
