-- ===== src/String/Fill.antt =====
-- What `memset` leaves in memory.
use nova_os.Base.{
  ℕ, zero, suc, ◌+◌, ◌-◌, ◌*◌, ◌/◌, ◌%◌, ◌^◌, ◌<◌, ◌≡◌, refl, ap, ◌∙◌, inl, inr, true, ◌&&◌, arith,
  leb, ◌==◌, if◌then◌else◌, Bool-cases,
}
use std.Path.{fun_ext}
use nova_os.Pmm.Valid.{within}
use nova_os.String.{Memory, fill_byte, store_word, spread, fill_words, fill_bytes, memset}

unfoldable pub overwritten : ℕ → ℕ → ℕ → Memory → Memory
overwritten p val n m x = if within p n x then val else m x

-- Each byte of the 64-bit word is the value.
spread-byte : (val i : ℕ) → val < 256 → i < 8 → spread val / 256 ^ i % 256 ≡ val
spread-byte val zero h k = omega arith
spread-byte val (suc zero) h k = omega arith
spread-byte val (suc (suc zero)) h k = omega arith
spread-byte val (suc (suc (suc zero))) h k = omega arith
spread-byte val (suc (suc (suc (suc zero)))) h k = omega arith
spread-byte val (suc (suc (suc (suc (suc zero))))) h k = omega arith
spread-byte val (suc (suc (suc (suc (suc (suc zero)))))) h k = omega arith
spread-byte val (suc (suc (suc (suc (suc (suc (suc zero))))))) h k = omega arith
spread-byte val (suc (suc (suc (suc (suc (suc (suc (suc i)))))))) h k = absurd (omega arith)

overwritten-split :
    (a n p val : ℕ) (m : Memory) (x : ℕ)
    → overwritten (p + a) val n (overwritten p val a m) x ≡ overwritten p val (a + n) m x
unfolding overwritten
overwritten-split a n p val m x = ground arith

nothing : (p val : ℕ) (m : Memory) (x : ℕ) → m x ≡ overwritten p val 0 m x
unfolding overwritten
nothing p val m x = ground arith

fill_byte-overwritten :
    (p val : ℕ) (m : Memory) (x : ℕ) → fill_byte p val m x ≡ overwritten p val 1 m x
unfolding overwritten fill_byte
fill_byte-overwritten p val m x = ground arith

store_word-overwritten :
    (p val : ℕ) (m : Memory) (x : ℕ)
    → val < 256
    → store_word p (spread val) m x ≡ overwritten p val 8 m x
unfolding overwritten store_word
store_word-overwritten p val m x h = elim (Bool-cases (within p 8 x)) [
  | inl in' ↦ rw in' (spread-byte val (x - p) h (low in'))
  | inr out ↦ rw out refl
]
  where
    low : within p 8 x ≡ true → x - p < 8
    low e = ground (arith, e)

fill_bytes-overwritten :
    (n p val : ℕ) (m : Memory) (x : ℕ) → fill_bytes n p val m x ≡ overwritten p val n m x
unfolding fill_bytes
fill_bytes-overwritten zero p val m x = nothing p val m x
fill_bytes-overwritten (suc n) p val m x =
    fill_bytes-overwritten n (p + 1) val (fill_byte p val m) x
    ∙ ap (λ (c : Memory). overwritten (p + 1) val n c x) (fun_ext (fill_byte-overwritten p val m))
    ∙ overwritten-split 1 n p val m x
    ∙ ap (λ t. overwritten p val t m x) (omega arith)

fill_words-overwritten :
    (k p val : ℕ) (m : Memory) (x : ℕ)
    → val < 256
    → fill_words k p (spread val) m x ≡ overwritten p val (k * 8) m x
unfolding fill_words
fill_words-overwritten zero p val m x h = nothing p val m x
fill_words-overwritten (suc k) p val m x h =
    fill_words-overwritten k (p + 8) val (store_word p (spread val) m) x h
    ∙ ap (λ (c : Memory). overwritten (p + 8) val (k * 8) c x)
        (fun_ext (λ y. store_word-overwritten p val m y h))
    ∙ overwritten-split 8 (k * 8) p val m x
    ∙ ap (λ t. overwritten p val t m x) (omega arith)

-- `memset` sets the `n` bytes from the pointer on to the lowest byte of `c`, and no others.
pub memset-overwritten : (p c n : ℕ) (m : Memory) → memset p c n m ≡ overwritten p (c % 256) n m
unfolding memset
memset-overwritten p c n m = fun_ext (λ x. set x)
  where
    set : (x : ℕ) → memset p c n m x ≡ overwritten p (c % 256) n m x
    set x = elim (Bool-cases ((p % 8 == 0) && leb 8 n)) [
      | inl wide ↦ rw wide (
          fill_bytes-overwritten (n % 8) (p + n / 8 * 8) (c % 256)
            (fill_words (n / 8) p (spread (c % 256)) m) x
          ∙ ap (λ (f : Memory). overwritten (p + n / 8 * 8) (c % 256) (n % 8) f x)
              (fun_ext (λ y. fill_words-overwritten (n / 8) p (c % 256) m y (omega arith)))
          ∙ overwritten-split (n / 8 * 8) (n % 8) p (c % 256) m x
          ∙ ap (λ t. overwritten p (c % 256) t m x) (omega arith))
      | inr narrow ↦ rw narrow (fill_bytes-overwritten n p (c % 256) m x)
    ]
