-- ===== src/Fat32/Directory/Path/Components.antt =====
-- The walk of `fat32_stat` goes along the names of the path.
use nova_os.Base.{
  ℕ, ◌≡◌, refl, sym, ap, ◌∙◌, inl, inr, true, false, List, [], ◌∷◌, if◌then◌else◌, Bool-cases,
}
use nova_os.Fat32.Directory.Path.{separator, skip, token, behind}

-- The names of a path, all at once: the one that it starts with, which may be empty, and the others.
unfoldable pub put_name : List ℕ → List (List ℕ) → List (List ℕ)
put_name [] ts = ts
put_name (c ∷ t) ts = (c ∷ t) ∷ ts

unfoldable pub split : List ℕ → List ℕ × List (List ℕ)
split [] = ([], [])
split (c ∷ p) = let (t, ts) = split p in if separator c then ([], put_name t ts) else (c ∷ t, ts)

abbrev pub components : List ℕ → List (List ℕ)
components p = put_name (split p).0 (split p).1

-- The functions at a separator and at another character.
module _ (c : ℕ) (p : List ℕ) where
  split-separator : separator c ≡ true → split (c ∷ p) ≡ ([], components p)
  unfolding split
  split-separator e = rw e refl

  split-other : separator c ≡ false → split (c ∷ p) ≡ (c ∷ (split p).0, (split p).1)
  unfolding split
  split-other e = rw e refl

  pub skip-separator : separator c ≡ true → skip (c ∷ p) ≡ skip p
  unfolding skip
  skip-separator e = rw e refl

  pub skip-other : separator c ≡ false → skip (c ∷ p) ≡ c ∷ p
  unfolding skip
  skip-other e = rw e refl

  token-separator : separator c ≡ true → token (c ∷ p) ≡ []
  unfolding token
  token-separator e = rw e refl

  pub token-other : separator c ≡ false → token (c ∷ p) ≡ c ∷ token p
  unfolding token
  token-other e = rw e refl

  behind-separator : separator c ≡ true → behind (c ∷ p) ≡ c ∷ p
  unfolding behind
  behind-separator e = rw e refl

  pub behind-other : separator c ≡ false → behind (c ∷ p) ≡ behind p
  unfolding behind
  behind-other e = rw e refl

abbrev named : List ℕ × List (List ℕ) → List (List ℕ)
named r = put_name r.0 r.1

token-split : (p : List ℕ) → (split p).0 ≡ token p
unfolding split token
token-split [] = refl
token-split (c ∷ p) = elim (Bool-cases (separator c)) [
  | inl e ↦ ap (λ r. r.0) (split-separator c p e) ∙ sym (token-separator c p e)
  | inr e ↦
      ap (λ r. r.0) (split-other c p e) ∙ ap (λ t. c ∷ t) (token-split p) ∙ sym (token-other c p e)
]

components-separator : (c : ℕ) (p : List ℕ) → separator c ≡ true → components (c ∷ p) ≡ components p
unfolding put_name
components-separator c p e = ap (λ r. named r) (split-separator c p e)

pub skip-components : (p : List ℕ) → components (skip p) ≡ components p
unfolding skip
skip-components [] = refl
skip-components (c ∷ p) = elim (Bool-cases (separator c)) [
  | inl e ↦
      ap (λ q. components q) (skip-separator c p e)
      ∙ skip-components p
      ∙ sym (components-separator c p e)
  | inr e ↦ ap (λ q. components q) (skip-other c p e)
]

behind-split : (p : List ℕ) → (split p).1 ≡ components (behind p)
unfolding split behind put_name
behind-split [] = refl
behind-split (c ∷ p) = elim (Bool-cases (separator c)) [
  | inl e ↦
      ap (λ r. r.1) (split-separator c p e)
      ∙ sym (components-separator c p e)
      ∙ sym (ap (λ q. components q) (behind-separator c p e))
  | inr e ↦
      ap (λ r. r.1) (split-other c p e)
      ∙ behind-split p
      ∙ sym (ap (λ q. components q) (behind-other c p e))
]

pub components-nil : components [] ≡ []
unfolding split put_name
components-nil = refl

-- A path that starts with a name: its names are this one and those of the rest.
pub components-named :
    (c : ℕ) (p : List ℕ)
    → separator c ≡ false
    → components (c ∷ p) ≡ token (c ∷ p) ∷ components (skip (behind (c ∷ p)))
unfolding put_name
components-named c p e =
    ap (λ r. named r) (split-other c p e)
    ∙ ap (λ t. t ∷ (split p).1) (ap (λ t. c ∷ t) (token-split p) ∙ sym (token-other c p e))
    ∙ ap (λ ts. token (c ∷ p) ∷ ts)
        (behind-split p
          ∙ sym (skip-components (behind p))
          ∙ sym (ap (λ q. components (skip q)) (behind-other c p e)))
