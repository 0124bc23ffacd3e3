-- ===== src/Fat32/Chain.antt =====
-- The loops of `read_cluster_chain`.
use nova_os.Base.{
  ℕ, zero, suc, ◌+◌, ◌-◌, ◌≤◌, ◌<◌, ◌≡◌, refl, sym, ap, ◌∙◌, ◌⊎◌, inl, inr, true, false, ◌||◌, some,
  List, [], ◌∷◌, ◌++◌, arith, ltb, ◌==◌, Bool-cases, Option-cases, length,
}
use mathlib.Core.Path.{subst}
use nova_os.Fat32.{
  Volume, Disk, Counted, counted, refused, live, cluster_bad, get_next_cluster, read_cluster,
  cluster_to_lba, count_chain,
}
use nova_os.Fat32.Cache.{
  Coherent, Placed, SameVolume, SameVolume-refl, SameVolume-trans, fat_entry, fat_entry-same,
  get_next_cluster-same, get_next_cluster-entry,
}

-- A count of at most `most` clusters, or a refusal.
abbrev pub Ends : ℕ → Counted → Type 0
Ends most c = ((n : ℕ) × (c ≡ counted n) × (n ≤ most)) ⊎ (c ≡ refused)

count_chain-Ends :
    (read : Disk) (k : ℕ) (v : Volume) (curr n total : ℕ)
    → v.total_clusters ≡ total
    → n ≤ total
    → total - n < k
    → Ends total (count_chain read k v curr n).0
unfolding count_chain
count_chain-Ends read zero v curr n total e below enough = absurd (omega arith)
count_chain-Ends read (suc k) v curr n total e below enough = elim (Bool-cases (live curr)) [
  | inr h ↦ rw h (inl (n, refl, below))
  | inl h ↦ rw h (elim (Bool-cases ((curr == cluster_bad) || ltb v.total_clusters (n + 1))) [
    | inl q ↦ rw q (inr refl)
    | inr q ↦ rw q (elim (Option-cases (get_next_cluster read v curr).0) [
      | inl w ↦ rw w (inr refl)
      | inr (c, w) ↦ rw w (
          count_chain-Ends read k (get_next_cluster read v curr).1 c (n + 1) total (unmoved e)
            (ground (arith, q, e)) (ground (arith, q, e, enough)))
    ])
  ])
]
  where
    unmoved : v.total_clusters ≡ total → (get_next_cluster read v curr).1.total_clusters ≡ total
    unmoved e =
        let (cache, lba, same) = get_next_cluster-same read v curr in
        ap (λ (u : Volume). u.total_clusters) same ∙ e

-- On any table, also one whose chain runs in a circle, the count of a chain ends within its fuel, refuses the
-- chain or finds no more clusters than the volume has.
pub count_chain-total :
    (read : Disk) (v : Volume) (start : ℕ)
    → Ends v.total_clusters (count_chain read (v.total_clusters + 2) v start 0).0
count_chain-total read v start =
    count_chain-Ends read (v.total_clusters + 2) v start 0 v.total_clusters refl (omega arith)
      (omega arith)

abbrev pub flat : List (List ℕ) → List ℕ
flat [] = []
flat (b ∷ bs) = b ++ flat bs

-- The chain from a cluster holds the blocks, one for each cluster, by the table on the disk.
unfoldable pub Stored : Disk → Volume → ℕ → List (List ℕ) → Type 0
Stored read v c [] = live c ≡ false
Stored read v c (b ∷ bs) =
    (live c ≡ true)
    × ((c == cluster_bad) ≡ false)
    × (read_cluster read v c ≡ some b)
    × (length b ≡ v.bytes_per_cluster)
    × ((d : ℕ) × (fat_entry read v c ≡ some d) × Stored read v d bs)

-- The volume may be replaced by one with another cache.
pub Stored-same :
    (read : Disk) (v v' : Volume) (c : ℕ) (bs : List (List ℕ))
    → SameVolume v v'
    → Stored read v c bs
    → Stored read v' c bs
unfolding Stored read_cluster cluster_to_lba
Stored-same read v v' c [] same t = t
Stored-same read v v' c (b ∷ bs) (cache, lba, e) (l, q, r, n, (d, f, rest)) = (
  l,
  q,
  subst (λ u. read_cluster read u c ≡ some b) (sym e) r,
  subst (λ (u : Volume). length b ≡ u.bytes_per_cluster) (sym e) n,
  (
    d,
    fat_entry-same read v v' (cache, lba, e) c ∙ f,
    Stored-same read v v' d bs (cache, lba, e) rest,
  ),
)

-- What the lookup of the next cluster does on a stored chain.
pub record Stepped (read : Disk) (v : Volume) (c d : ℕ) : Type 0 where
  pub found : (get_next_cluster read v c).0 ≡ some d
  pub coherent : Coherent read (get_next_cluster read v c).1
  pub placed : Placed (get_next_cluster read v c).1
  pub same : SameVolume v (get_next_cluster read v c).1

pub step-Stepped :
    (read : Disk) (v : Volume) (c d : ℕ)
    → Coherent read v
    → Placed v
    → fat_entry read v c ≡ some d
    → Stepped read v c d
step-Stepped read v c d coherent placed f =
    let (e, kept) = get_next_cluster-entry read v c coherent placed in
    let (cache, lba, same) = get_next_cluster-same read v c in
    record {
      found = e ∙ f;
      coherent = kept;
      placed = subst (λ u. Placed u) (sym same) placed;
      same = (cache, lba, same);
    }

pub count_chain-Stored :
    (read : Disk) (k : ℕ) (v : Volume) (c n : ℕ) (bs : List (List ℕ))
    → Coherent read v
    → Placed v
    → Stored read v c bs
    → n + length bs ≤ v.total_clusters
    → length bs < k
    → let (r, v') = count_chain read k v c n in
      (r ≡ counted (n + length bs)) × Coherent read v' × SameVolume v v'
unfolding count_chain Stored
count_chain-Stored read zero v c n bs coherent placed t fits enough = absurd (omega arith)
count_chain-Stored read (suc k) v c n [] coherent placed t fits enough =
    rw t (ap counted (omega arith), coherent, SameVolume-refl v)
count_chain-Stored read (suc k) v c n (b ∷ bs) coherent placed (l, q, r, m, (d, f, rest)) fits
      enough =
    let s = step-Stepped read v c d coherent placed f in
    let v' = (get_next_cluster read v c).1 in
    let (count, kept, same) =
      count_chain-Stored read k v' d (n + 1) bs s.coherent s.placed
        (Stored-same read v v' d bs s.same rest) (more v' s.same) (omega (arith, enough)) in
    rw (l, q, small, s.found)
      (count ∙ ap counted (omega arith), kept, SameVolume-trans v v' _ s.same same)
  where
    small : ltb v.total_clusters (n + 1) ≡ false
    small = ground (arith, fits)

    more : (v' : Volume) → SameVolume v v' → n + 1 + length bs ≤ v'.total_clusters
    more v' (cache, lba, e) =
        subst (λ (u : Volume). n + 1 + length bs ≤ u.total_clusters) (sym e) (omega (arith, fits))
