-- ===== src/Nag/Tests.antt =====
-- The registry with two adapters, at the addresses 100 and 200.
use nova_os.Base.{◌+◌, ◌≡◌, refl, true, none, some, [], ◌∷◌}
use nova_os.Slots.{free_from}
use nova_os.Nag.{Nag, register_at, nag_register, nag_unregister, nag_dispatch, trimmed_table}

abbrev one : Nag
one = record {
  adapters = some 100 ∷ none ∷ none ∷ none ∷ [];
  adapter_count = 1;
  adapter_id = λ a. 0;
}

-- The second adapter gets the second slot, and calls reach it.
second : nag_dispatch (λ a. some (a + 1)) 1 (nag_register true 200 one).1 ≡ some 201
unfolding nag_dispatch nag_register register_at free_from
second = refl

-- The table is given back with the last adapter.
last_one : (nag_unregister 100 one).adapters ≡ []
unfolding nag_unregister trimmed_table
last_one = refl
