-- ===== src/Nag.antt =====
-- The registry of graphics adapters, src/kernel/nag/nag.c. An adapter is its address; its field `adapterId` is part
-- of the state, and its `dispatchOp` a parameter.
pub mod Registry
mod Tests
use nova_os.Base.{
  ℕ, zero, suc, ◌+◌, ◌-◌, ◌*◌, ◌/◌, ◌%◌, ◌^◌, ◌≤◌, ◌<◌, min, max, bit_and, bit_or, ◌≡◌, refl, sym,
  ap, ◌∙◌, ◌≢◌, ◌↔◌, ◌⊎◌, inl, inr, Bool, true, false, not, ◌&&◌, ◌||◌, Option, none, some, List,
  [], ◌∷◌, ◌++◌, map, arith, ltb, leb, ◌==◌, if◌then◌else◌, ltb→lt, lt→ltb, leb→le, le→leb,
  ltb-false, leb-false, ==_iff, Bool-cases, Option-cases, length, get_elem?, set, replicate,
  length-append, length-replicate, length-set, get_elem?-set_self, get_elem?-set_ne, take, drop,
  length-take, length-drop, drop-drop, take-append_drop, drop-nil, u64_mod, add64, sub64, mul64,
  page_size, and_not, page_down, page_up, bit_and_step, bit_and-le, bit_and-mask, bit_or_step,
  bit_or-zero, bit_or-div, bit_or-mod, bit_or-bit,
}
use nova_os.Slots.{slot, free_from, widened}

pub record Nag : Type 0 where
  pub adapters : List (Option ℕ)
  pub adapter_count : ℕ
  pub adapter_id : ℕ → ℕ

abbrev pub nag_init : (ℕ → ℕ) → Nag
nag_init ids = record { adapters = []; adapter_count = 0; adapter_id = ids }

unfoldable pub assign : ℕ → ℕ → (ℕ → ℕ) → ℕ → ℕ
assign a id ids x = if x == a then id else ids x

-- The end of `nagRegisterAdapter`, with a table that has the slot.
unfoldable pub register_at : ℕ → ℕ → List (Option ℕ) → Nag → Nag
register_at i adapter table n = record {
  adapters = set table i (some adapter);
  adapter_count = n.adapter_count + 1;
  adapter_id = assign adapter i n.adapter_id;
}

-- `grown`: the `krealloc` of the table.
unfoldable pub nag_register : Bool → ℕ → Nag → Bool × Nag
nag_register grown adapter n = elim (free_from 0 n.adapters) [
  | some i ↦ (true, register_at i adapter n.adapters n)
  | none ↦
      if grown
      then (true, register_at (length n.adapters) adapter (widened 4 n.adapters) n)
      else (false, n)
]

abbrev pub holds : Option ℕ → ℕ → Bool
holds none adapter = false
holds (some a) adapter = a == adapter

-- The table is freed with its last adapter.
unfoldable pub trimmed_table : Nag → Nag
trimmed_table n = if n.adapter_count == 0 then record n { adapters = [] } else n

unfoldable pub nag_unregister : ℕ → Nag → Nag
nag_unregister adapter n =
    let i = n.adapter_id adapter in
    trimmed_table (
      if holds (slot n.adapters i) adapter
      then record n { adapters = set n.adapters i none; adapter_count = n.adapter_count - 1 }
      else n)

unfoldable pub nag_get : ℕ → Nag → Option ℕ
nag_get id n = slot n.adapters id

-- `none` is the error -1.
unfoldable pub nag_dispatch : {R : Type 0} → (ℕ → Option R) → ℕ → Nag → Option R
nag_dispatch dispatch_op id n = elim (slot n.adapters id) [ none ↦ none | some a ↦ dispatch_op a ]
