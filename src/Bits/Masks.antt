-- ===== src/Bits/Masks.antt =====
-- The masks and flags that the kernel uses, as arithmetic on words.
use simple_kernel.Base.{
  ℕ, ◌+◌, ◌-◌, ◌*◌, ◌/◌, ◌%◌, ◌^◌, ◌<◌, ◌≡◌, arith, bit_and, bit_or, complement32,
}
use simple_kernel.Bits.{
  bit_and_mask, bit_and_high, bit_or_fields, bit_or-zero, bit_or_step, bit_and_step,
}

-- `a & 1`, `a | 1` and `a & ~1`.
pub and_one : (a : ℕ) → bit_and a 1 ≡ a % 2
and_one a = bit_and_mask 1 a

pub and_seven : (a : ℕ) → bit_and a 7 ≡ a % 8
and_seven a = bit_and_mask 3 a

pub and_page_mask : (a : ℕ) → bit_and a 0xFFF ≡ a % 4096
and_page_mask a = bit_and_mask 12 a

pub and_index_mask : (a : ℕ) → bit_and a 0x3FF ≡ a % 1024
and_index_mask a = bit_and_mask 10 a

-- `a & ~(2 ^ k - 1)` of a word clears its low bits.
pub and_not_seven : (a : ℕ) → a < 2 ^ 32 → bit_and a (complement32 7) ≡ a / 8 * 8
and_not_seven a h =
    ground (arith, bit_and_high 3 (a / 8) (a % 8) (2 ^ 29 - 1), bit_and_mask 29 (a / 8))

pub and_not_page : (a : ℕ) → a < 2 ^ 32 → bit_and a (complement32 0xFFF) ≡ a / 4096 * 4096
and_not_page a h =
    ground (arith, bit_and_high 12 (a / 4096) (a % 4096) (2 ^ 20 - 1), bit_and_mask 20 (a / 4096))

pub and_not_one : (a : ℕ) → a < 2 ^ 32 → bit_and a (complement32 1) ≡ a / 2 * 2
and_not_one a h =
    ground (arith, bit_and_high 1 (a / 2) (a % 2) (2 ^ 31 - 1), bit_and_mask 31 (a / 2))

pub or_one : (a : ℕ) → bit_or a 1 ≡ a / 2 * 2 + 1
or_one a = ground (arith, bit_or_step a 1, bit_or-zero (a / 2))

-- A multiple of 8 joined with three flag bits.
pub or_flags : (a f : ℕ) → a % 8 ≡ 0 → f < 8 → bit_or a f ≡ a + f
or_flags a f h g = ground (arith, bit_or_fields 3 (a / 8) f)

pub or_page_flags : (a f : ℕ) → a % 4096 ≡ 0 → f < 4096 → bit_or a f ≡ a + f
or_page_flags a f h g = ground (arith, bit_or_fields 12 (a / 4096) f)

-- `a | 2` and `a & ~2`: the second flag alone.
pub or_two : (a : ℕ) → bit_or a 2 ≡ a / 4 * 4 + 2 + a % 2
or_two a = ground (arith, bit_or_step a 2, or_one (a / 2))

pub and_not_two : (a : ℕ) → a < 2 ^ 32 → bit_and a (complement32 2) ≡ a / 4 * 4 + a % 2
and_not_two a h = ground (
  arith,
  bit_and_step a (complement32 2),
  bit_and_high 1 (a / 4) (a / 2 % 2) (2 ^ 30 - 1),
  bit_and_mask 30 (a / 4),
)
