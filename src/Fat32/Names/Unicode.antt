-- ===== src/Fat32/Names/Unicode.antt =====
-- `utf16le_to_utf8` stays inside its buffer.
use nova_os.Base.{
  ℕ, ◌+◌, ◌≤◌, ◌<◌, inl, inr, not, ◌&&◌, List, [], ◌∷◌, arith, ltb, ◌==◌, Bool-cases, length,
  length-append,
}
use nova_os.Fat32.Names.{utf8, utf16le_to_utf8}

utf8-length : (ch : ℕ) → length (utf8 ch) ≤ 3
utf8-length ch = elim (Bool-cases (ltb ch 0x80)) [
  | inl e ↦ rw e (omega arith)
  | inr e ↦
      rw e (elim (Bool-cases (ltb ch 0x800)) [
        | inl f ↦ rw f (omega arith)
        | inr f ↦ rw f (omega arith)
      ])
]

-- Behind `out` bytes, the bytes that `utf16le_to_utf8` writes and the NUL fit a buffer of `max_out` bytes.
utf16le_to_utf8-fits :
    (max_out out : ℕ) (src : List ℕ)
    → out < max_out
    → out + length (utf16le_to_utf8 max_out out src) + 1 ≤ max_out
unfolding utf16le_to_utf8
utf16le_to_utf8-fits max_out out [] h = omega (arith, h)
utf16le_to_utf8-fits max_out out (ch ∷ src) h =
    elim (Bool-cases (not (ch == 0) && not (ch == 0xffff) && ltb (out + 4) max_out)) [
      | inr e ↦ rw e (omega (arith, h))
      | inl e ↦
          rw (e, length-append (utf8 ch) rest)
            (omega (
              arith,
              utf16le_to_utf8-fits max_out (out + length (utf8 ch)) src
                  (ground (arith, e, utf8-length ch)),
            ))
    ]
  where
    rest : List ℕ
    rest = utf16le_to_utf8 max_out (out + length (utf8 ch)) src
