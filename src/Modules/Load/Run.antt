-- ===== src/Modules/Load/Run.antt =====
-- Runs of loads and unloads: the pages of the modules, beside the free ranges.
use nova_os.Base.{
  Bool-cases, inl, inr, ◌⊎◌, ◌^◌, ◌+◌, ◌*◌, page_size, ℕ, ◌<◌, ◌≡◌, refl, sym, ap, ◌∙◌, Bool, true,
  false, not, ◌||◌, Option, none, some, List, [], ◌∷◌, arith, ◌==◌,
}
use mathlib.Core.Path.{subst, fun_ext}
use nova_os.String.{Memory}
use nova_os.Heap.Ranges.{Apart, covers}
use nova_os.Heap.Kmalloc.Placed.{
  Aligned, Placed, put, Mapped, alloc_range-Mapped, recycle-Placed, unput,
}
use nova_os.Heap.{VirtualPages}
use nova_os.Modules.{Module, unlink_module, total_alloc_size, module_pages}
use nova_os.Modules.Relocate.{branches}
use nova_os.Modules.Load.{
  Image, is_loadable, World, Loader, module_base, module_init, alloc_module_pages,
  free_module_pages, load_at, module_load, module_unload,
}
use nova_os.Modules.Load.Valid.{spans, Housed, IsValid, Unlinked, unlink_module-Left}
use nova_os.Modules.Load.Start.{StartedAt, load_at-StartedAt}

free_module_pages-Placed :
    (w : World) (sp : ℕ → ℕ) (v : VirtualPages) (base : ℕ)
    → Placed module_base sp v
    → 0 < sp base
    → Placed module_base (put base 0 sp) (free_module_pages w base (sp base) v)
unfolding free_module_pages
free_module_pages-Placed w sp v base o h = rw kept (recycle-Placed base (sp base) w.node o refl h)
  where
    kept : ((base == 0) || (sp base == 0)) ≡ false
    kept = ground (arith, o.above base h, h)

returned-Placed :
    (w : World) (sp : ℕ → ℕ) (v : VirtualPages) (base count : ℕ)
    → Placed module_base (put base count sp) v
    → 0 < count
    → Placed module_base (put base 0 (put base count sp)) (free_module_pages w base count v)
returned-Placed w sp v base count o h =
    subst (λ n. Placed module_base (put base 0 (put base count sp)) (free_module_pages w base n v))
      here (free_module_pages-Placed w (put base count sp) v base o (omega (arith, here, h)))
  where
    here : put base count sp base ≡ count
    here = ground arith

alloc_module_pages-Mapped :
    (w : World) {sp : ℕ → ℕ} (count : ℕ) (v : VirtualPages)
    → Placed module_base sp v
    → 0 < count
    → v.cursor + count * page_size < 2 ^ 64
    → Mapped w.maps module_base sp count (alloc_module_pages w count v)
unfolding alloc_module_pages
alloc_module_pages-Mapped w count v o h reach =
    rw taken (alloc_range-Mapped w.maps w.node count o h reach)
  where
    taken : (count == 0) ≡ false
    taken = ground (arith, h)

-- How `module_load` ends.
pub data Loading (w : World) (i : Image) (name : List ℕ) (m : Memory) (l : Loader)
    : Option (Module × Memory) × Loader → Type 0 where
  not_loaded :
      (v : VirtualPages)
      → IsValid (record l { pages = v })
      → Loading w i name m l (none, record l { pages = v })
  loaded_as :
      (u : Module) (m' : Memory) (v : VirtualPages)
      → load_at w i name u.base_addr m ≡ some (u, m')
      → IsValid (record { pages = v; loaded = u ∷ l.loaded })
      → Loading w i name m l (some (u, m'), record { pages = v; loaded = u ∷ l.loaded })

-- In a state in which the pages of the modules lie apart, and where the cursor does not wrap around, `module_load` either gives NULL and leaves the list of
-- modules as it was, or it gives a module that `load_at` made at its base and puts it in front of the list, with
-- the sections placed, the relocations applied and its `driver_init` called there. In both cases the pages of
-- the modules lie apart from each other and from the free ranges again.
pub module_load-Loading :
    (w : World) (i : Image) (name : List ℕ) (m : Memory) (l : Loader)
    → IsValid l
    → l.pages.cursor + module_pages i.shdrs * page_size < 2 ^ 64
    → Loading w i name m l (module_load w i name m l)
unfolding module_load Housed spans alloc_module_pages
module_load-Loading w i name m l o reach =
    branches L (not (is_loadable i)) (λ _. not_loaded l.pages o)
      (λ _.
        branches L (total_alloc_size i.shdrs 0 == 0) (λ _. not_loaded l.pages o)
          (λ _. pages_had (Bool-cases (count == 0))))
  where
    L : Option (Module × Memory) × Loader → Type 0
    L = Loading w i name m l

    count : ℕ
    count = module_pages i.shdrs

    loaded_at :
        (base : ℕ) (v : VirtualPages)
        → Placed module_base (put base count (spans l.loaded)) v
        → spans l.loaded base ≡ 0
        → 0 < count
        → (r : Option (Module × Memory)) → load_at w i name base m ≡ r
        → StartedAt base count r
        → L (elim r [
          | none ↦ (none, record l { pages = free_module_pages w base count v })
          | some (u, m') ↦ (some (u, m'), record { pages = v; loaded = u ∷ l.loaded })
        ])
    loaded_at base v p e pos none q t = not_loaded (free_module_pages w base count v) (record {
      housed = o.housed;
      placed =
          unput base count (spans l.loaded) e
            (returned-Placed w (spans l.loaded) v base count p pos);
    })
    loaded_at base v p e pos (some (u, m')) q (eb, ec) =
        loaded_as u m' v (ap (λ b. load_at w i name b m) eb ∙ q) (record {
          housed = (ap (spans l.loaded) eb ∙ e, omega (arith, ec, pos), o.housed);
          placed =
              subst (λ b. Placed module_base (put b u.page_count (spans l.loaded)) v) (sym eb)
                (subst (λ k. Placed module_base (put base k (spans l.loaded)) v) (sym ec) p);
        })

    -- The rest of the function, from the pages that it got.
    from_pages : Option ℕ × VirtualPages → Option (Module × Memory) × Loader
    from_pages r = elim r.0 [
      | none ↦ (none, record l { pages = r.1 })
      | some base ↦ elim (load_at w i name base m) [
        | none ↦ (none, record l { pages = free_module_pages w base count r.1 })
        | some (u, m') ↦ (some (u, m'), record { pages = r.1; loaded = u ∷ l.loaded })
      ]
    ]

    paged :
        0 < count
        → (r : Option ℕ × VirtualPages) → Mapped w.maps module_base (spans l.loaded) count r
        → L (from_pages r)
    paged pos (none, v) (p, _) = not_loaded v (record { housed = o.housed; placed = p })
    paged pos (some base, v) (p, e) =
        loaded_at base v p e pos (load_at w i name base m) refl (load_at-StartedAt w i name base m)

    no_pages : (count == 0) ≡ true → alloc_module_pages w count l.pages ≡ (none, l.pages)
    no_pages z = rw (alloc_module_pages, z) refl

    -- A size that wraps around to no page at all is refused.
    pages_had :
        ((count == 0) ≡ true) ⊎ ((count == 0) ≡ false)
        → L (from_pages (alloc_module_pages w count l.pages))
    pages_had (inl z) = subst (λ r. L (from_pages r)) (sym (no_pages z)) (not_loaded l.pages o)
    pages_had (inr z) =
        paged (ground (arith, z)) (alloc_module_pages w count l.pages)
          (alloc_module_pages-Mapped w count l.pages o.placed (ground (arith, z)) reach)

module_unload-Valid :
    (w : World) (addr : ℕ) (l : Loader) → IsValid l → IsValid (module_unload w addr l).1
unfolding module_unload
module_unload-Valid w addr l o =
    unlinked (unlink_module l.loaded addr) (unlink_module-Left l.loaded addr o.housed)
  where
    P : Bool × Loader → Type 0
    P r = IsValid r.1

    unlinked :
        (r : Option (Module × List Module))
        → Unlinked l.loaded r
        → P (elim r [
          | none ↦ (false, l)
          | some (u, us) ↦ (
            true,
            record { pages = free_module_pages w u.base_addr u.page_count l.pages; loaded = us },
          )
        ])
    unlinked none t = o
    unlinked (some (u, us)) t = record {
      housed = t.housed;
      placed =
          subst (λ sp. Placed module_base sp (free_module_pages w u.base_addr u.page_count l.pages))
            (sym (fun_ext t.rest))
            (subst
              (λ n.
                Placed module_base (put u.base_addr 0 (spans l.loaded))
                  (free_module_pages w u.base_addr n l.pages))
              t.held
              (free_module_pages-Placed w (spans l.loaded) l.pages u.base_addr o.placed
                (omega (arith, t.held, t.some_pages))));
    }

pub module_init-Valid : IsValid module_init
unfolding spans Housed covers Apart Aligned
module_init-Valid = record {
  housed = tt;
  placed = record {
    apart = λ p q a h k. ground (arith, h);
    unfree = λ p a h. refl;
    below = λ p a h. ground (arith, h);
    above = λ p h. ground (arith, h);
    aligned = λ p h. ground (arith, h);
    ranges = tt;
    ranges_below = λ a h. ground (arith, h);
    ranges_aligned = tt;
    cursor_aligned = omega arith;
    cursor_above = omega arith;
  };
}

-- A call of the loader, in a world of its own.
pub data Call : Type 0 where
  load : World → Image → List ℕ → Memory → Call
  unload : World → ℕ → Call

unfoldable pub calls : List Call → Loader → Loader
calls [] l = l
calls (load w i name m ∷ cs) l = calls cs (module_load w i name m l).1
calls (unload w addr ∷ cs) l = calls cs (module_unload w addr l).1

Loading-Valid :
    (w : World) (i : Image) (name : List ℕ) (m : Memory) (l : Loader)
    (r : Option (Module × Memory) × Loader)
    → Loading w i name m l r
    → IsValid r.1
Loading-Valid w i name m l r (not_loaded v o) = o
Loading-Valid w i name m l r (loaded_as u m' v q o) = o

-- No call makes the cursor wrap around: the addresses from MODULE_BASE_VADDR to the end are enough for what each asks.
unfoldable pub InReach : List Call → Loader → Type 0
InReach [] l = Unit
InReach (load w i name m ∷ cs) l =
    (l.pages.cursor + module_pages i.shdrs * page_size < 2 ^ 64)
    × InReach cs (module_load w i name m l).1
InReach (unload w addr ∷ cs) l = InReach cs (module_unload w addr l).1

calls-Valid : (cs : List Call) (l : Loader) → InReach cs l → IsValid l → IsValid (calls cs l)
unfolding calls InReach
calls-Valid [] l t o = o
calls-Valid (load w i name m ∷ cs) l (reach, t) o = calls-Valid cs (module_load w i name m l).1 t (
    Loading-Valid w i name m l (module_load w i name m l)
      (module_load-Loading w i name m l o reach))
calls-Valid (unload w addr ∷ cs) l t o =
    calls-Valid cs (module_unload w addr l).1 t (module_unload-Valid w addr l o)

-- After any calls of `module_load` and `module_unload` from `module_init` on, however each of them ends, as long as the
-- cursor does not wrap around at 2^64, the pages of the loaded modules lie apart from each other and from the free
-- ranges, on multiples of the page size, from MODULE_BASE_VADDR on and below the cursor, and no module is without pages.
pub calls-IsValid : (cs : List Call) → InReach cs module_init → IsValid (calls cs module_init)
calls-IsValid cs t = calls-Valid cs module_init t module_init-Valid
