-- ===== src/Memory.antt =====
-- Memory as the kernel addresses it: a byte at each virtual address, and 32-bit words in little
-- endian order, as `uint32_t` is read and written on i386.
pub mod Copy
pub mod Compare
mod Tests
use simple_kernel.Base.{
  ℕ, zero, suc, ◌+◌, ◌-◌, ◌*◌, ◌/◌, ◌^◌, ◌≤◌, ◌<◌, ◌≡◌, ◌⊎◌, arith, ◌==◌, if◌then◌else◌, ltb, u8,
}

abbrev pub Memory : Type 0
Memory = ℕ → ℕ

unfoldable pub load8 : Memory → ℕ → ℕ
load8 m a = u8 (m a)

unfoldable pub store8 : Memory → ℕ → ℕ → Memory
store8 m a v b = if a == b then u8 v else m b

unfoldable pub load32 : Memory → ℕ → ℕ
load32 m a = u8 (m a) + u8 (m (a + 1)) * 2 ^ 8 + u8 (m (a + 2)) * 2 ^ 16 + u8 (m (a + 3)) * 2 ^ 24

unfoldable pub store32 : Memory → ℕ → ℕ → Memory
store32 m a v b =
    if a == b
    then u8 v
    else if a + 1 == b
    then u8 (v / 2 ^ 8)
    else if a + 2 == b
    then u8 (v / 2 ^ 16)
    else if a + 3 == b
    then u8 (v / 2 ^ 24)
    else m b

-- `memset` and `memcpy` of libc/string, with `left` bytes to go from index `i`.
pub memset_from : ℕ → ℕ → ℕ → ℕ → Memory → Memory
memset_from buf value zero i m = m
memset_from buf value (suc left) i m = memset_from buf value left (i + 1) (store8 m (buf + i) value)

unfoldable pub memset : Memory → ℕ → ℕ → ℕ → Memory
unfolding memset_from
memset m buf value size = memset_from buf value size 0 m

pub memcpy_from : ℕ → ℕ → ℕ → ℕ → Memory → Memory
memcpy_from dst src zero i m = m
memcpy_from dst src (suc left) i m =
    memcpy_from dst src left (i + 1) (store8 m (dst + i) (load8 m (src + i)))

unfoldable pub memcpy : Memory → ℕ → ℕ → ℕ → Memory
unfolding memcpy_from
memcpy m dst src size = memcpy_from dst src size 0 m

-- The second loop of `memmove`, with `i` bytes to go.
pub move_down : ℕ → ℕ → ℕ → Memory → Memory
move_down dst src zero m = m
move_down dst src (suc i) m = move_down dst src i (store8 m (dst + i) (load8 m (src + i)))

unfoldable pub memmove : Memory → ℕ → ℕ → ℕ → Memory
unfolding memcpy_from move_down
memmove m dst src size =
    if ltb dst src then memcpy_from dst src size 0 m else move_down dst src size m

-- -1 of a 32-bit `int`.
abbrev pub minus_one : ℕ
minus_one = 2 ^ 32 - 1

-- `memcmp`, with `left` bytes to go from index `i`.
pub memcmp_from : Memory → ℕ → ℕ → ℕ → ℕ → ℕ
memcmp_from m a b zero i = 0
memcmp_from m a b (suc left) i =
    let rest = memcmp_from m a b left (i + 1) in
    if ltb (load8 m (a + i)) (load8 m (b + i))
    then minus_one
    else if ltb (load8 m (b + i)) (load8 m (a + i))
    then 1
    else rest

unfoldable pub memcmp : Memory → ℕ → ℕ → ℕ → ℕ
unfolding memcmp_from
memcmp m a b size = memcmp_from m a b size 0

pub load32-lt : (m : Memory) (a : ℕ) → load32 m a < 2 ^ 32
unfolding load32
load32-lt m a = omega arith

pub load32-store32_self : (m : Memory) (a v : ℕ) → v < 2 ^ 32 → load32 (store32 m a v) a ≡ v
unfolding load32 store32
load32-store32_self m a v h = ground arith

-- The words at `a` and `b` share no byte.
abbrev pub Apart : ℕ → ℕ → Type 0
Apart a b = (a + 4 ≤ b) ⊎ (b + 4 ≤ a)

pub load32-store32-Apart :
    (m : Memory) (a b v : ℕ) → Apart a b → load32 (store32 m a v) b ≡ load32 m b
unfolding load32 store32
load32-store32-Apart m a b v h = ground arith
