-- ===== src/Nag/Registry.antt =====
-- Registering and unregistering adapters.
use nova_os.Base.{
  ℕ, ◌-◌, ◌<◌, ◌≡◌, refl, sym, ap, ◌∙◌, ◌≢◌, ◌⊎◌, inl, inr, Bool, true, false, Option, none, some,
  List, arith, ◌==◌, Bool-cases, Option-cases, length, set, replicate, length-append,
  length-replicate,
}
use nova_os.Slots.{
  slot, free_from, widened, doubled, free_from-Free, slot-append_none, slot-past, slot-set_self,
  slot-set_ne,
}
use nova_os.Slots.Count.{
  occupied, taken, occupied-widened, occupied-set, slot-unoccupied, slot-some_inside,
}
use nova_os.Nag.{
  Nag, assign, register_at, nag_register, holds, trimmed_table, nag_unregister, nag_get,
}

-- The count is that of the adapters in the table.
abbrev pub Counted : Nag → Type 0
Counted n = occupied n.adapters ≡ n.adapter_count

-- The adapter is under its identifier, which was free, and nothing else has changed.
abbrev pub Registered : ℕ → Nag → Nag → Type 0
Registered adapter n n' =
    (nag_get (n'.adapter_id adapter) n ≡ none)
    × (nag_get (n'.adapter_id adapter) n' ≡ some adapter)
    × ((id : ℕ) → n'.adapter_id adapter ≢ id → nag_get id n' ≡ nag_get id n)

register_at-Registered :
    (adapter i : ℕ) (table : List (Option ℕ)) (n : Nag)
    → i < length table
    → slot n.adapters i ≡ none
    → ((j : ℕ) → slot table j ≡ slot n.adapters j)
    → occupied table ≡ occupied n.adapters
    → Counted n
    → Registered adapter n (register_at i adapter table n) × Counted (register_at i adapter table n)
unfolding register_at nag_get assign
register_at-Registered adapter i table n inside free same held counted = rw (self adapter) (
  (
    free,
    slot-set_self table i (some adapter) inside,
    λ id ne. slot-set_ne table i id (some adapter) ne ∙ same id,
  ),
  omega
      (arith, occupied-set table i (some adapter) inside, ap taken (same i ∙ free), held, counted),
)
  where
    self : (a : ℕ) → (a == a) ≡ true
    self a = ground arith

length-grown : (xs : List (Option ℕ)) → length xs < length (widened 4 xs)
length-grown xs = ground (
  arith,
  length-append xs (replicate (doubled 4 (length xs) - length xs) none),
  length-replicate {A = Option ℕ} (doubled 4 (length xs) - length xs) none,
)

-- Where `nagRegisterAdapter` succeeds, the adapter can be looked up under the identifier that it was given,
-- which was free, and every other lookup is as before; where it fails, nothing has changed. The count of
-- the adapters stays that of the table.
pub nag_register-Registered :
    (grown : Bool) (adapter : ℕ) (n : Nag)
    → Counted n
    → let (ok, n') = nag_register grown adapter n in
      (((ok ≡ true) × Registered adapter n n') ⊎ ((ok ≡ false) × (n' ≡ n))) × Counted n'
unfolding nag_register
nag_register-Registered grown adapter n counted = elim (Option-cases (free_from 0 n.adapters)) [
  | inr (i, e) ↦
      let (low, inside, free) = free_from-Free 0 n.adapters i e in
      let (r, c) =
        register_at-Registered adapter i n.adapters n inside free (λ j. refl) refl counted in
      rw (nag_register, e) (inl (refl, r), c)
  | inl e ↦
      rw (nag_register, e)
        (elim (Bool-cases grown) [
          | inl g ↦
              let (r, c) =
                register_at-Registered adapter (length n.adapters) (widened 4 n.adapters) n
                  (length-grown n.adapters) (slot-past n.adapters (length n.adapters) (omega arith))
                  (λ j. slot-append_none n.adapters _ j) (occupied-widened 4 n.adapters) counted in
              rw g (inl (refl, r), c)
          | inr g ↦ rw g (inr (refl, refl), counted)
        ])
]

trimmed_table-same :
    (n : Nag)
    → Counted n
    → ((id : ℕ) → nag_get id (trimmed_table n) ≡ nag_get id n) × Counted (trimmed_table n)
unfolding trimmed_table nag_get
trimmed_table-same n counted = elim (Bool-cases (n.adapter_count == 0)) [
  | inl e ↦
      let unoccupied : occupied n.adapters ≡ 0 = ground (arith, e, counted) in
      rw (trimmed_table, e)
        (λ id. sym (slot-unoccupied n.adapters id unoccupied), ground (arith, e))
  | inr e ↦ rw (trimmed_table, e) (λ id. refl, counted)
]

holds-some : (o : Option ℕ) (adapter : ℕ) → holds o adapter ≡ true → o ≡ some adapter
holds-some none adapter h = absurd (ground (arith, h))
holds-some (some a) adapter h = ap some (ground (arith, h))

holds_self : (adapter : ℕ) → holds (some adapter) adapter ≡ true
holds_self adapter = ground arith

-- Where an adapter is under its identifier, `nagUnregisterAdapter` takes it away and leaves every other
-- lookup, also where it gives the whole table back; where it is not, all lookups stay. The count of the
-- adapters stays that of the table.
nag_unregister-removes :
    (adapter : ℕ) (n : Nag)
    → Counted n
    → let n' = nag_unregister adapter n in
      (((nag_get (n.adapter_id adapter) n ≡ some adapter)
          × (nag_get (n.adapter_id adapter) n' ≡ none)
          × ((id : ℕ) → n.adapter_id adapter ≢ id → nag_get id n' ≡ nag_get id n))
        ⊎ ((nag_get (n.adapter_id adapter) n ≢ some adapter)
            × ((id : ℕ) → nag_get id n' ≡ nag_get id n)))
      × Counted n'
unfolding nag_unregister nag_get
nag_unregister-removes adapter n counted = elim (Bool-cases (holds (slot n.adapters i) adapter)) [
  | inl h ↦
      let held : slot n.adapters i ≡ some adapter = holds-some (slot n.adapters i) adapter h in
      let inside : i < length n.adapters = slot-some_inside n.adapters i adapter held in
      let (same, c) = trimmed_table-same removed (fewer inside held) in
      rw h (
        inl (
          held,
          same i ∙ slot-set_self n.adapters i none inside,
          λ id ne. same id ∙ slot-set_ne n.adapters i id none ne,
        ),
        c,
      )
  | inr h ↦
      let (same, c) = trimmed_table-same n counted in
      rw h (
        inr (
          λ e. absurd (ground (arith, h, ap (λ o. holds o adapter) e ∙ holds_self adapter)),
          same,
        ),
        c,
      )
]
  where
    i : ℕ
    i = n.adapter_id adapter

    removed : Nag
    removed = record n { adapters = set n.adapters i none; adapter_count = n.adapter_count - 1 }

    fewer : i < length n.adapters → slot n.adapters i ≡ some adapter → Counted removed
    fewer inside held = omega (arith, occupied-set n.adapters i none inside, ap taken held, counted)
