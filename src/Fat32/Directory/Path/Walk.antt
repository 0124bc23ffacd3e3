-- ===== src/Fat32/Directory/Path/Walk.antt =====
-- The walk of `fat32_stat` goes along the names of the path.
use nova_os.Base.{
  ℕ, zero, suc, ◌+◌, ◌≤◌, ◌<◌, ◌≡◌, refl, sym, ap, ◌∙◌, inl, inr, Bool, true, false, Option, none,
  some, List, [], ◌∷◌, arith, if◌then◌else◌, Bool-cases, Option-cases, length,
}
use nova_os.Fat32.{Volume, Disk}
use nova_os.Fat32.Directory.{DirEntry, find_in_dir}
use nova_os.Fat32.Directory.Path.{
  separator, skip, token, behind, root_entry, no_entry, empty, Walked, at_entry, not_found, walk,
  fat32_stat,
}
use nova_os.Fat32.Directory.Path.Components.{
  components, components-nil, components-named, skip-components, token-other, behind-other,
  skip-other,
}

abbrev pub none_left : List (List ℕ) → Bool
none_left [] = true
none_left (t ∷ ts) = false

-- The entry that the names lead to, each looked up in the directory before it.
module _ (read : Disk) (heap : ℕ → Bool) where
  unfoldable pub resolve : Volume → ℕ → DirEntry → List (List ℕ) → Walked × Volume
  resolve v current entry [] = (at_entry entry, v)
  resolve v current entry (t ∷ ts) =
      let (o, v') = find_in_dir read heap v current t in
      let found : Walked × Volume = elim o [
        | none ↦ (not_found, v')
        | some e ↦
            let onward : Walked × Volume = resolve v' e.start_cluster e ts in
            if none_left ts
            then (at_entry e, v')
            else if e.is_directory
            then onward
            else (not_found, v')
      ] in
      if heap (length t + 1) then found else (not_found, v)

  unfoldable pub stat_names : Volume → List (List ℕ) → Walked × Volume
  stat_names v [] = (at_entry (root_entry v), v)
  stat_names v (t ∷ ts) = resolve v v.root_cluster no_entry (t ∷ ts)

-- A path with no separator in front.
Trimmed : List ℕ → Type 0
Trimmed [] = Unit
Trimmed (c ∷ p) = separator c ≡ false

skip-Trimmed : (p : List ℕ) → Trimmed (skip p)
unfolding Trimmed skip
skip-Trimmed [] = tt
skip-Trimmed (c ∷ p) = elim (Bool-cases (separator c)) [
  | inl e ↦ rw e (skip-Trimmed p)
  | inr e ↦ rw (skip-other c p e) e
]

skip-length : (p : List ℕ) → length (skip p) ≤ length p
unfolding skip
skip-length [] = omega arith
skip-length (c ∷ p) = elim (Bool-cases (separator c)) [
  | inl e ↦ rw e (omega (arith, skip-length p))
  | inr e ↦ rw e (omega arith)
]

behind-length : (p : List ℕ) → length (behind p) ≤ length p
unfolding behind
behind-length [] = omega arith
behind-length (c ∷ p) = elim (Bool-cases (separator c)) [
  | inl e ↦ rw e (omega arith)
  | inr e ↦ rw e (omega (arith, behind-length p))
]

-- A trimmed path is empty where it has no names.
empty-components : (p : List ℕ) → Trimmed p → none_left (components p) ≡ empty p
unfolding Trimmed
empty-components [] t = ap none_left components-nil
empty-components (c ∷ p) t = ap none_left (components-named c p t) ∙ sym (ground arith)

module _ (read : Disk) (heap : ℕ → Bool) where
  resolve-none :
      (v : Volume) (current : ℕ) (e : DirEntry) (ts : List (List ℕ))
      → none_left ts ≡ true
      → resolve read heap v current e ts ≡ (at_entry e, v)
  unfolding resolve
  resolve-none v current e [] h = refl
  resolve-none v current e (t ∷ ts) h = absurd (ground (arith, h))

  walk-resolve :
      (k : ℕ) (v : Volume) (current : ℕ) (entry : DirEntry) (p : List ℕ)
      → Trimmed p
      → length p < k
      → walk read heap k v current entry p ≡ resolve read heap v current entry (components p)
  unfolding walk Trimmed resolve
  walk-resolve zero v current entry p t h = absurd (omega arith)
  walk-resolve (suc k) v current entry [] t h = rw components-nil refl
  walk-resolve (suc k) v current entry (c ∷ p) t h =
      rw (components-named c p t, busy, named)
        (elim (Bool-cases (heap (length name + 1))) [
          | inr g ↦ rw g refl
          | inl g ↦ rw g (elim (Option-cases found.0) [
            | inl q ↦ rw q refl
            | inr (e, q) ↦ rw q (elim (Bool-cases (empty rest)) [
              | inl z ↦
                  rw (z, empty-components rest trimmed ∙ z)
                    (walk-resolve k found.1 current e rest trimmed shorter
                      ∙ resolve-none found.1 current e (components rest)
                          (empty-components rest trimmed ∙ z))
              | inr z ↦
                  rw (z, empty-components rest trimmed ∙ z)
                    (ap
                      (λ (r : Walked × Volume). if e.is_directory then r else (not_found, found.1))
                      (walk-resolve k found.1 e.start_cluster e rest trimmed shorter))
            ])
          ])
        ])
    where
      name : List ℕ
      name = token (c ∷ p)

      rest : List ℕ
      rest = skip (behind (c ∷ p))

      found : Option DirEntry × Volume
      found = find_in_dir read heap v current name

      busy : empty (c ∷ p) ≡ false
      busy = ground arith

      named : empty (token (c ∷ p)) ≡ false
      named = ap (λ t. empty t) (token-other c p t) ∙ ground arith

      trimmed : Trimmed rest
      trimmed = skip-Trimmed (behind (c ∷ p))

      shorter : length rest < k
      shorter = omega (
        arith,
        h,
        skip-length (behind (c ∷ p)),
        behind-length p,
        ap (λ q. length q) (behind-other c p t),
      )

module _ (read : Disk) (heap : ℕ → Bool) (v : Volume) where
  stat_names-none :
      (ts : List (List ℕ))
      → none_left ts ≡ true
      → stat_names read heap v ts ≡ (at_entry (root_entry v), v)
  unfolding stat_names
  stat_names-none [] h = refl
  stat_names-none (t ∷ ts) h = absurd (ground (arith, h))

  stat_names-some :
      (ts : List (List ℕ))
      → none_left ts ≡ false
      → stat_names read heap v ts ≡ resolve read heap v v.root_cluster no_entry ts
  unfolding stat_names
  stat_names-some [] h = absurd (ground (arith, h))
  stat_names-some (t ∷ ts) h = refl

-- `fat32_stat` resolves the names of the path one after the other from the root directory: separators in
-- front, at the end or in a row make no difference, the path of no names is the root, and the loop ends
-- within its fuel.
pub fat32_stat-names :
    (read : Disk) (heap : ℕ → Bool) (v : Volume) (path : List ℕ)
    → fat32_stat read heap v path ≡ stat_names read heap v (components path)
unfolding fat32_stat
fat32_stat-names read heap v path =
    rw (sym (skip-components path)) (elim (Bool-cases (empty (skip path))) [
      | inl e ↦ rw e (
          sym (
            stat_names-none read heap v (components (skip path))
              (empty-components (skip path) trimmed ∙ e)))
      | inr e ↦ rw e (
          walk-resolve read heap (length path + 1) v v.root_cluster no_entry (skip path) trimmed
            (omega (arith, skip-length path))
          ∙ sym (
              stat_names-some read heap v (components (skip path))
                (empty-components (skip path) trimmed ∙ e)))
    ])
  where
    trimmed : Trimmed (skip path)
    trimmed = skip-Trimmed path
