-- ===== src/String/Copy.antt =====
-- What the copying functions leave in memory.
use nova_os.Base.{
  ℕ, zero, suc, ◌+◌, ◌-◌, ◌*◌, ◌/◌, ◌%◌, ◌≤◌, ◌≡◌, refl, ap, ◌∙◌, ◌⊎◌, inl, inr, true, false, ◌&&◌,
  arith, ltb, ◌==◌, if◌then◌else◌, Bool-cases,
}
use std.Path.{fun_ext}
use nova_os.Pmm.Valid.{within}
use nova_os.String.{
  Memory, copy_word, copy_byte, copy_words, copy_bytes, memcpy, copy_down, memmove,
}

-- The memory with the `n` bytes at `s` copied to `d`, all of them read before any is written.
unfoldable pub copied : ℕ → ℕ → ℕ → Memory → Memory
copied d s n m x = if within d n x then m (s + (x - d)) else m x

-- A forward copy reads no byte that it has written: the target is below the source, or past its end.
abbrev pub Forward : ℕ → ℕ → ℕ → Type 0
Forward d s n = (d ≤ s) ⊎ (s + n ≤ d)

nothing : (d s : ℕ) (m : Memory) (x : ℕ) → m x ≡ copied d s 0 m x
unfolding copied
nothing d s m x = ground arith

copy_word-copied : (d s : ℕ) (m : Memory) (x : ℕ) → copy_word d s m x ≡ copied d s 8 m x
unfolding copied copy_word
copy_word-copied d s m x = refl

copy_byte-copied : (d s : ℕ) (m : Memory) (x : ℕ) → copy_byte d s m x ≡ copied d s 1 m x
unfolding copied copy_byte
copy_byte-copied d s m x = elim (Bool-cases (x == d)) [
  | inl here ↦ rw (here, inside here) (ap m (address here))
  | inr there ↦ rw (there, outside there) refl
]
  where
    inside : (x == d) ≡ true → within d 1 x ≡ true
    inside h = ground (arith, h)

    address : (x == d) ≡ true → s ≡ s + (x - d)
    address h = ground (arith, h)

    outside : (x == d) ≡ false → within d 1 x ≡ false
    outside h = ground (arith, h)

-- A copy of the first `a` bytes, then of the `n` bytes behind them.
copied-split :
    (a n d s : ℕ) (m : Memory) (x : ℕ)
    → Forward d s (a + n)
    → copied (d + a) (s + a) n (copied d s a m) x ≡ copied d s (a + n) m x
unfolding copied
copied-split a n d s m x f = elim (Bool-cases (within (d + a) n x)) [
  | inl later ↦ rw (later, all later, unread later) (ap m (address later))
  | inr not_later ↦ rw not_later (elim (Bool-cases (within d a x)) [
    | inl now ↦ rw (now, sooner now) refl
    | inr never ↦ rw (never, outside not_later never) refl
  ])
]
  where
    all : within (d + a) n x ≡ true → within d (a + n) x ≡ true
    all h = ground (arith, h)

    unread : within (d + a) n x ≡ true → within d a (s + a + (x - (d + a))) ≡ false
    unread h = ground (arith, h, f)

    address : within (d + a) n x ≡ true → s + a + (x - (d + a)) ≡ s + (x - d)
    address h = ground (arith, h)

    sooner : within d a x ≡ true → within d (a + n) x ≡ true
    sooner h = ground (arith, h)

    outside : within (d + a) n x ≡ false → within d a x ≡ false → within d (a + n) x ≡ false
    outside h k = ground (arith, h, k)

pub copy_bytes-copied :
    (n d s : ℕ) (m : Memory) (x : ℕ) → Forward d s n → copy_bytes n d s m x ≡ copied d s n m x
unfolding copy_bytes
copy_bytes-copied zero d s m x f = nothing d s m x
copy_bytes-copied (suc n) d s m x f =
    copy_bytes-copied n (d + 1) (s + 1) (copy_byte d s m) x (ground (arith, f))
    ∙ ap (λ (c : Memory). copied (d + 1) (s + 1) n c x) (fun_ext (copy_byte-copied d s m))
    ∙ copied-split 1 n d s m x (ground (arith, f))
    ∙ ap (λ t. copied d s t m x) (omega arith)

copy_words-copied :
    (k d s : ℕ) (m : Memory) (x : ℕ)
    → Forward d s (k * 8)
    → copy_words k d s m x ≡ copied d s (k * 8) m x
unfolding copy_words
copy_words-copied zero d s m x f = nothing d s m x
copy_words-copied (suc k) d s m x f =
    copy_words-copied k (d + 8) (s + 8) (copy_word d s m) x (ground (arith, f))
    ∙ ap (λ (c : Memory). copied (d + 8) (s + 8) (k * 8) c x) (fun_ext (copy_word-copied d s m))
    ∙ copied-split 8 (k * 8) d s m x (ground (arith, f))
    ∙ ap (λ t. copied d s t m x) (omega arith)

-- The last byte first, then the ones before it.
copied-last :
    (n d s : ℕ) (m : Memory) (x : ℕ)
    → s ≤ d
    → copied d s n (copy_byte (d + n) (s + n) m) x ≡ copied d s (suc n) m x
unfolding copied copy_byte
copied-last n d s m x f = elim (Bool-cases (within d n x)) [
  | inl before ↦ rw (before, all before, unread before) refl
  | inr not_before ↦ rw not_before (elim (Bool-cases (x == d + n)) [
    | inl last ↦ rw (last, now last) (ap m (address last))
    | inr other ↦ rw (other, outside not_before other) refl
  ])
]
  where
    all : within d n x ≡ true → within d (suc n) x ≡ true
    all h = ground (arith, h)

    unread : within d n x ≡ true → (s + (x - d) == d + n) ≡ false
    unread h = ground (arith, h, f)

    now : (x == d + n) ≡ true → within d (suc n) x ≡ true
    now h = ground (arith, h)

    address : (x == d + n) ≡ true → s + n ≡ s + (x - d)
    address h = ground (arith, h)

    outside : within d n x ≡ false → (x == d + n) ≡ false → within d (suc n) x ≡ false
    outside h k = ground (arith, h, k)

copy_down-copied : (n d s : ℕ) (m : Memory) (x : ℕ) → s ≤ d → copy_down n d s m x ≡ copied d s n m x
unfolding copy_down
copy_down-copied zero d s m x f = nothing d s m x
copy_down-copied (suc n) d s m x f =
    copy_down-copied n d s (copy_byte (d + n) (s + n) m) x f ∙ copied-last n d s m x f

pub memcpy-copied :
    (d s n : ℕ) (m : Memory) (x : ℕ) → Forward d s n → memcpy d s n m x ≡ copied d s n m x
unfolding memcpy
memcpy-copied d s n m x f = elim (Bool-cases ((d % 8 == 0) && (s % 8 == 0))) [
  | inl aligned ↦ rw aligned (
      copy_bytes-copied (n % 8) (d + n / 8 * 8) (s + n / 8 * 8) (copy_words (n / 8) d s m) x
        (ground (arith, f))
      ∙ ap (λ (c : Memory). copied (d + n / 8 * 8) (s + n / 8 * 8) (n % 8) c x)
          (fun_ext (λ y. copy_words-copied (n / 8) d s m y (ground (arith, f))))
      ∙ copied-split (n / 8 * 8) (n % 8) d s m x (ground (arith, f))
      ∙ ap (λ t. copied d s t m x) (omega arith))
  | inr other ↦ rw other (copy_bytes-copied n d s m x f)
]

still : (d s n : ℕ) (m : Memory) (x : ℕ) → d ≡ s → m x ≡ copied d s n m x
unfolding copied
still d s n m x e = elim (Bool-cases (within d n x)) [
  | inl in' ↦ rw in' (ap m (address in'))
  | inr out ↦ rw out refl
]
  where
    address : within d n x ≡ true → x ≡ s + (x - d)
    address h = ground (arith, h, e)

-- `memmove` copies as if it read all bytes before it wrote any, however the two ranges overlap.
pub memmove-copied : (d s n : ℕ) (m : Memory) → memmove d s n m ≡ copied d s n m
unfolding memmove
memmove-copied d s n m = fun_ext (λ x. moved x)
  where
    moved : (x : ℕ) → memmove d s n m x ≡ copied d s n m x
    moved x = elim (Bool-cases (ltb d s)) [
      | inl below ↦ rw below (memcpy-copied d s n m x (inl (ground (arith, below))))
      | inr above ↦ rw above (elim (Bool-cases (ltb s d)) [
        | inl apart ↦ rw apart (copy_down-copied n d s m x (ground (arith, apart)))
        | inr same ↦ rw same (still d s n m x (ground (arith, above, same)))
      ])
    ]
