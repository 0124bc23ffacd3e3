-- ===== src/Fat32/Read/Loop.antt =====
-- The loops of `fat32_read` on a stored chain.
use nova_os.Base.{
  ℕ, zero, suc, ◌+◌, ◌-◌, ◌≤◌, ◌<◌, min, ◌≡◌, refl, sym, ap, ◌∙◌, inl, inr, Bool, true, false, ◌&&◌,
  some, List, [], ◌∷◌, ◌++◌, arith, ltb, ◌==◌, Bool-cases, length, length-append, take, drop,
  length-drop,
}
use mathlib.Core.Path.{subst}
use nova_os.Fat32.{Volume, Disk, get_next_cluster, read_cluster}
use nova_os.Fat32.Cache.{Coherent, Placed, SameVolume, SameVolume-refl, SameVolume-trans}
use nova_os.Fat32.Chain.{Stored, Stored-same, step-Stepped, flat}
use nova_os.Fat32.Contents.{Yields}
use nova_os.Fat32.Read.{got, before, skip_clusters, cluster_part, read_clusters}

-- A volume that differs in its cache only is placed as well.
pub Placed-same : (v v' : Volume) → SameVolume v v' → Placed v → Placed v'
Placed-same v v' (cache, lba, e) p = subst (λ u. Placed u) (sym e) p

pub size-same : (v v' : Volume) → SameVolume v v' → v'.bytes_per_cluster ≡ v.bytes_per_cluster
size-same v v' (cache, lba, e) = ap (λ (u : Volume). u.bytes_per_cluster) e

-- Skipping `i` clusters of a chain leads to one from which the others are stored.
pub skip_clusters-Stored :
    (read : Disk) (i : ℕ) (v : Volume) (c : ℕ) (bs : List (List ℕ))
    → Coherent read v
    → Placed v
    → Stored read v c bs
    → i ≤ length bs
    → (d : ℕ) × Yields read v (some d) (skip_clusters read i v c)
      × Stored read (skip_clusters read i v c).1 d (drop i bs)
unfolding skip_clusters Stored
skip_clusters-Stored read zero v c bs coherent placed t h =
    (c, (refl, coherent, SameVolume-refl v), t)
skip_clusters-Stored read (suc i) v c [] coherent placed t h = absurd (omega arith)
skip_clusters-Stored read (suc i) v c (b ∷ bs) coherent placed (l, q, r, n, (d, f, rest)) h =
    let s = step-Stepped read v c d coherent placed f in
    let v' = (get_next_cluster read v c).1 in
    let (d', (e, kept, same), stored) =
      skip_clusters-Stored read i v' d bs s.coherent s.placed
        (Stored-same read v v' d bs s.same rest) (omega (arith, h)) in
    rw (l, s.found) (d', (e, kept, SameVolume-trans v v' _ s.same same), stored)

minus_zero : (n : ℕ) → n ≡ n - 0
minus_zero n = omega arith

minus_suc : (n m : ℕ) → n - m ≡ suc n - suc m
minus_suc n m = omega arith

module _ {ℓ} {A : Type ℓ} where
  drop-append : (n : ℕ) (xs ys : List A) → n ≤ length xs → drop n (xs ++ ys) ≡ drop n xs ++ ys
  drop-append zero xs ys h = refl
  drop-append (suc n) [] ys h = absurd (omega arith)
  drop-append (suc n) (x ∷ xs) ys h = drop-append n xs ys (omega (arith, h))

  take-append_left : (n : ℕ) (xs ys : List A) → n ≤ length xs → take n (xs ++ ys) ≡ take n xs
  take-append_left zero xs ys h = refl
  take-append_left (suc n) [] ys h = absurd (omega arith)
  take-append_left (suc n) (x ∷ xs) ys h =
      ap (λ t. x ∷ t) (take-append_left n xs ys (omega (arith, h)))

  take-append_right :
      (n : ℕ) (xs ys : List A) → length xs ≤ n → take n (xs ++ ys) ≡ xs ++ take (n - length xs) ys
  take-append_right n [] ys h = ap (λ t. take t ys) (minus_zero n)
  take-append_right zero (x ∷ xs) ys h = absurd (omega arith)
  take-append_right (suc n) (x ∷ xs) ys h =
      ap (λ t. x ∷ t) (take-append_right n xs ys (omega (arith, h)))
      ∙ ap (λ m. x ∷ (xs ++ take m ys)) (minus_suc n (length xs))

  take-all : (n : ℕ) (xs : List A) → length xs ≤ n → take n xs ≡ xs
  take-all zero [] h = refl
  take-all (suc n) [] h = refl
  take-all zero (x ∷ xs) h = absurd (omega arith)
  take-all (suc n) (x ∷ xs) h = ap (λ t. x ∷ t) (take-all n xs (omega (arith, h)))

wanted-last :
    (b rest : List ℕ) (offset n : ℕ)
    → offset + n ≤ length b
    → take n (drop offset b) ≡ take n (drop offset (b ++ rest))
wanted-last b rest offset n h = sym (
    ap (λ t. take n t) (drop-append offset b rest (omega (arith, h)))
    ∙ take-append_left n (drop offset b) rest (omega (arith, length-drop offset b, h)))

wanted-more :
    (b rest : List ℕ) (offset n : ℕ)
    → offset ≤ length b
    → length b ≤ offset + n
    → take (length b - offset) (drop offset b) ++ take (n - (length b - offset)) rest
      ≡ take n (drop offset (b ++ rest))
wanted-more b rest offset n h k =
    ap (λ t. t ++ take (n - (length b - offset)) rest)
      (take-all (length b - offset) (drop offset b) (omega (arith, length-drop offset b)))
    ∙ ap (λ m. drop offset b ++ take (n - m) rest) (sym (length-drop offset b))
    ∙ sym (
        ap (λ t. take n t) (drop-append offset b rest h)
        ∙ take-append_right n (drop offset b) rest (omega (arith, length-drop offset b, k)))

-- What one round copies is the part of the cluster that is wanted.
cluster_part-taken :
    (read : Disk) (heap : ℕ → Bool) (v : Volume) (c offset chunk : ℕ) (b : List ℕ)
    → read_cluster read v c ≡ some b
    → length b ≡ v.bytes_per_cluster
    → heap v.bytes_per_cluster ≡ true
    → cluster_part read heap v c offset chunk ≡ some (take chunk (drop offset b))
unfolding cluster_part
cluster_part-taken read heap v c offset chunk b r n granted =
    elim (Bool-cases ((offset == 0) && (chunk == v.bytes_per_cluster))) [
      | inr e ↦ rw (e, granted, r) refl
      | inl e ↦
          rw (e, r)
            (ap some
              (sym (ap (λ o. take chunk (drop o b)) (from_start e) ∙ take-all chunk b (whole e))))
    ]
  where
    from_start : ((offset == 0) && (chunk == v.bytes_per_cluster)) ≡ true → offset ≡ 0
    from_start e = ground (arith, e)

    whole : ((offset == 0) && (chunk == v.bytes_per_cluster)) ≡ true → length b ≤ chunk
    whole e = ground (arith, e, n)

-- What the two loops are to copy: `remaining` bytes of the blocks, from an offset in the first one on.
abbrev pub wanted_bytes : List (List ℕ) → ℕ → ℕ → List ℕ
wanted_bytes bs offset remaining = take remaining (drop offset (flat bs))

pub read_clusters-Stored :
    (read : Disk) (heap : ℕ → Bool) (size : ℕ)
    → heap size ≡ true
    → (k : ℕ) (v : Volume) (c : ℕ) (bs : List (List ℕ)) (offset remaining : ℕ) → Coherent read v
    → Placed v
    → v.bytes_per_cluster ≡ size
    → Stored read v c bs
    → offset < size
    → offset + remaining ≤ length (flat bs)
    → remaining < k
    → Yields read v
        (got (wanted_bytes bs offset remaining) 0)
        (read_clusters read heap k v c offset remaining)
unfolding read_clusters Stored before
read_clusters-Stored read heap size granted zero v c bs offset remaining coherent placed is_size t h
      inside enough =
    absurd (omega arith)
read_clusters-Stored read heap size granted (suc k) v c bs offset zero coherent placed is_size t h
      inside enough =
    (refl, coherent, SameVolume-refl v)
read_clusters-Stored read heap size granted (suc k) v c [] offset (suc remaining) coherent placed
      is_size t h inside enough =
    absurd (omega (arith, inside))
read_clusters-Stored read heap size granted (suc k) v c (b ∷ bs) offset (suc remaining) coherent
      placed is_size (l, q, r, n, (d, f, rest)) h inside enough =
    let s = step-Stepped read v c d coherent placed f in
    let v' = (get_next_cluster read v c).1 in
    let part : cluster_part read heap v c offset chunk ≡ some (take chunk (drop offset b)) =
      cluster_part-taken read heap v c offset chunk b r n (ap heap is_size ∙ granted) in
    rw (busy, l, part)
      (elim (Bool-cases (ltb 0 (suc remaining - chunk))) [
        | inr e ↦ rw e (ap (λ t. got t 0) (last e n), coherent, SameVolume-refl v)
        | inl e ↦
            let (i, kept, same) =
              read_clusters-Stored read heap size granted k v' d bs 0 (suc remaining - chunk)
                s.coherent s.placed (size-same v v' s.same ∙ is_size)
                (Stored-same read v v' d bs s.same rest) (omega (arith, h)) (left n)
                (ground (arith, enough, h, is_size)) in
            rw (e, s.found, i)
              (ap (λ t. got t 0) (more e n), kept, SameVolume-trans v v' _ s.same same)
      ])
  where
    chunk : ℕ
    chunk = min (v.bytes_per_cluster - offset) (suc remaining)

    busy : ltb 0 (suc remaining) ≡ true
    busy = ground arith

    everything : ltb 0 (suc remaining - chunk) ≡ false → chunk ≡ suc remaining
    everything e = ground (arith, e)

    to_end :
        ltb 0 (suc remaining - chunk) ≡ true
        → length b ≡ v.bytes_per_cluster
        → chunk ≡ length b - offset
    to_end e n = ground (arith, e, n)

    last :
        ltb 0 (suc remaining - chunk) ≡ false
        → length b ≡ v.bytes_per_cluster
        → take chunk (drop offset b) ≡ wanted_bytes (b ∷ bs) offset (suc remaining)
    last e n =
        ap (λ m. take m (drop offset b)) (everything e)
        ∙ wanted-last b (flat bs) offset (suc remaining) (ground (arith, e, n, h, is_size))

    left : length b ≡ v.bytes_per_cluster → 0 + (suc remaining - chunk) ≤ length (flat bs)
    left n = omega (arith, n, inside, length-append b (flat bs))

    more :
        ltb 0 (suc remaining - chunk) ≡ true
        → length b ≡ v.bytes_per_cluster
        → take chunk (drop offset b) ++ wanted_bytes bs 0 (suc remaining - chunk)
          ≡ wanted_bytes (b ∷ bs) offset (suc remaining)
    more e n =
        ap (λ m. take m (drop offset b) ++ take (suc remaining - m) (flat bs)) (to_end e n)
        ∙ wanted-more b (flat bs) offset (suc remaining) (omega (arith, n, h, is_size))
            (ground (arith, e, n, h, is_size))
