-- ===== src/Bytes.antt =====
-- Numbers of several bytes in a buffer, the lowest byte first, as the kernel reads them from a disk.
use nova_os.Base.{ℕ, ◌+◌, ◌*◌, ◌^◌, none, some, List, get_elem?}

-- A buffer holds zeros past its end.
abbrev pub byte_at : List ℕ → ℕ → ℕ
byte_at bs i = elim (get_elem? bs i) [ none ↦ 0 | some b ↦ b ]

abbrev pub u16_at : List ℕ → ℕ → ℕ
u16_at bs i = byte_at bs i + 2 ^ 8 * byte_at bs (i + 1)

abbrev pub u32_at : List ℕ → ℕ → ℕ
u32_at bs i = u16_at bs i + 2 ^ 16 * u16_at bs (i + 2)

abbrev pub u64_at : List ℕ → ℕ → ℕ
u64_at bs i = u32_at bs i + 2 ^ 32 * u32_at bs (i + 4)
