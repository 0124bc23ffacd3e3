-- ===== src/Fat32/Directory/Find.antt =====
-- What `find_in_dir` finds.
use nova_os.Base.{
  ℕ, ◌≡◌, refl, ap, ◌⊎◌, inl, inr, Bool, true, false, none, some, List, [], ◌∷◌, ◌++◌, ◌==◌,
  Bool-cases, Option-cases,
}
use nova_os.Fat32.{Volume, Disk}
use nova_os.Fat32.Names.{strcasecmp_ascii}
use nova_os.Fat32.Directory.{DirEntry, find_callback, call_back, list_dir_cluster, find_in_dir}

abbrev pub matches : List ℕ → DirEntry → Bool
matches name e = strcasecmp_ascii e.name name == 0

-- No entry has the name.
pub Missing : List ℕ → List DirEntry → Type 0
Missing name [] = Unit
Missing name (e ∷ es) = (matches name e ≡ false) × Missing name es

-- The entry has the name, and is the first one of the list that has.
abbrev pub First : List ℕ → List DirEntry → DirEntry → Type 0
First name es e =
    (before : List DirEntry) × (after : List DirEntry) × (es ≡ before ++ e ∷ after)
    × Missing name before
    × (matches name e ≡ true)

call_back-found :
    (name : List ℕ) (es : List DirEntry) (e : DirEntry) → call_back name es (some e) ≡ some e
unfolding call_back find_callback
call_back-found name [] e = refl
call_back-found name (d ∷ es) e = call_back-found name es e

call_back-First :
    (name : List ℕ) (es : List DirEntry)
    → ((call_back name es none ≡ none) × Missing name es)
      ⊎ ((e : DirEntry) × (call_back name es none ≡ some e) × First name es e)
unfolding call_back find_callback Missing
call_back-First name [] = inl (refl, tt)
call_back-First name (d ∷ es) = elim (Bool-cases (matches name d)) [
  | inl m ↦ rw m (inr (d, call_back-found name es d, ([], es, refl, tt, m)))
  | inr m ↦ rw m (elim (call_back-First name es) [
    | inl (r, missing) ↦ inl (r, (refl, missing))
    | inr (e, r, (before, after, split, missing, found)) ↦
        inr (e, r, (d ∷ before, after, ap (λ t. d ∷ t) split, (m, missing), found))
  ])
]

-- Where the directory can be listed, `find_in_dir` gives its first entry of the name, up to the case of
-- letters, and fails where no entry has it; where it cannot be listed, it fails.
pub find_in_dir-First :
    (read : Disk) (heap : ℕ → Bool) (v : Volume) (cluster : ℕ) (name : List ℕ)
    → let listed = (list_dir_cluster read heap v cluster).0 in
      let found = (find_in_dir read heap v cluster name).0 in
      ((listed ≡ none) × (found ≡ none))
      ⊎ ((es : List DirEntry) × (listed ≡ some es)
          × (((found ≡ none) × Missing name es)
              ⊎ ((e : DirEntry) × (found ≡ some e) × First name es e)))
unfolding find_in_dir
find_in_dir-First read heap v cluster name =
    elim (Option-cases (list_dir_cluster read heap v cluster).0) [
      | inl e ↦ inl (e, rw (find_in_dir, e) refl)
      | inr (es, e) ↦ inr (es, e, rw (find_in_dir, e) (call_back-First name es))
    ]
