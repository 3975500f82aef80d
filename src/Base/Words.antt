-- ===== src/Base/Words.antt =====
-- C's unsigned words over the native numbers: casts, shifts and the complement of each width.
use Prim.Native.Nat.{ℕ, ◌-◌, ◌*◌, ◌/◌, ◌%◌, ◌^◌}

abbrev pub u8 : ℕ → ℕ
u8 n = n % 2 ^ 8

abbrev pub u16 : ℕ → ℕ
u16 n = n % 2 ^ 16

abbrev pub u32 : ℕ → ℕ
u32 n = n % 2 ^ 32

infixl 75 ◌<<<◌ ◌>>>◌
abbrev pub ◌<<<◌ : ℕ → ℕ → ℕ
x <<< k = x * 2 ^ k

abbrev pub ◌>>>◌ : ℕ → ℕ → ℕ
x >>> k = x / 2 ^ k

-- `~x` of a word that fits the width.
abbrev pub complement8 : ℕ → ℕ
complement8 x = 2 ^ 8 - 1 - x

abbrev pub complement32 : ℕ → ℕ
complement32 x = 2 ^ 32 - 1 - x
