-- ===== src/Fat32/Contents.antt =====
-- What `read_cluster_chain` reads.
use nova_os.Base.{
  ℕ, ◌+◌, ◌*◌, ◌≤◌, ◌≡◌, refl, sym, ap, ◌∙◌, inl, inr, Bool, true, some, List, [], ◌∷◌, arith, ◌==◌,
  ltb-false, Bool-cases, length,
}
use mathlib.Core.Path.{subst}
use nova_os.Fat32.{
  Volume, Disk, counted, read_chain, count_chain, get_next_cluster, read_cluster_chain,
}
use nova_os.Fat32.Cache.{Coherent, Placed, SameVolume, SameVolume-refl, SameVolume-trans}
use nova_os.Fat32.Chain.{Stored, Stored-same, step-Stepped, flat, count_chain-Stored}

-- A result with the volume that it leaves: the value, a coherent cache, and nothing else changed.
abbrev pub Yields {ℓ} : {A : Type ℓ} → Disk → Volume → A → A × Volume → Type ℓ
Yields read v a r = (r.0 ≡ a) × Coherent read r.1 × SameVolume v r.1

read_chain-Stored :
    (read : Disk) (v : Volume) (c : ℕ) (bs : List (List ℕ))
    → Coherent read v
    → Placed v
    → Stored read v c bs
    → Yields read v (some (flat bs)) (read_chain read (length bs) v c)
unfolding read_chain Stored
read_chain-Stored read v c [] coherent placed t = (refl, coherent, SameVolume-refl v)
read_chain-Stored read v c (b ∷ bs) coherent placed (l, q, r, m, (d, f, rest)) =
    let s = step-Stepped read v c d coherent placed f in
    let v' = (get_next_cluster read v c).1 in
    let (e, kept, same) =
      read_chain-Stored read v' d bs s.coherent s.placed (Stored-same read v v' d bs s.same rest) in
    rw (l, r, s.found, e) (refl, kept, SameVolume-trans v v' _ s.same same)

-- With a coherent cache and a table that ends below the last address, a chain of blocks on the disk, no longer than the volume, is read whole and in
-- its order, where the heap grants the buffer: the result is the blocks one behind the other, the cache
-- is coherent again, and nothing else of the volume has changed.
pub read_cluster_chain-Stored :
    (read : Disk) (heap : ℕ → Bool) (v : Volume) (start : ℕ) (bs : List (List ℕ))
    → Coherent read v
    → Placed v
    → 2 ≤ start
    → Stored read v start bs
    → length bs ≤ v.total_clusters
    → heap (length bs * v.bytes_per_cluster) ≡ true
    → Yields read v (some (flat bs)) (read_cluster_chain read heap v start)
unfolding read_cluster_chain
read_cluster_chain-Stored read heap v start bs coherent placed low stored fits granted =
    let (count, kept, same) =
      count_chain-Stored read (v.total_clusters + 2) v start 0 bs coherent placed stored
        (omega (arith, fits)) (omega (arith, fits)) in
    rw (ltb-false start 2 low, count ∙ ap counted (plus_zero (length bs)))
      (elim (Bool-cases (length bs == 0)) [
        | inl e ↦ rw e (ap some (empty bs e), kept, same)
        | inr e ↦
            let (r, kept', same') =
              read_chain-Stored read (after v) start bs kept (still_placed same)
                (Stored-same read v (after v) start bs same stored) in
            rw (e, granted) (r, kept', SameVolume-trans v (after v) _ same same')
      ])
  where
    after : Volume → Volume
    after u = (count_chain read (u.total_clusters + 2) u start 0).1

    plus_zero : (n : ℕ) → 0 + n ≡ n
    plus_zero n = omega arith

    empty : (bs : List (List ℕ)) → (length bs == 0) ≡ true → [] ≡ flat bs
    empty [] e = refl
    empty (b ∷ bs) e = absurd (ground (arith, e))

    still_placed : SameVolume v (after v) → Placed (after v)
    still_placed (cache, lba, e) = subst (λ u. Placed u) (sym e) placed
