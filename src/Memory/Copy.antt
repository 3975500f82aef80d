-- ===== src/Memory/Copy.antt =====
-- What `memset`, `memcpy` and `memmove` leave at each address.
use simple_kernel.Base.{
  ℕ, zero, suc, ◌+◌, ◌-◌, ◌≤◌, ◌<◌, ◌≡◌, ◌⊎◌, inl, inr, arith, ◌&&◌, ltb, leb, if◌then◌else◌, u8,
}
use simple_kernel.Memory.{
  Memory, load8, store8, memset_from, memset, memcpy_from, memcpy, move_down, memmove,
}

-- The byte at `b` once the bytes from `src` on stand from `dst` on, `size` of them.
abbrev pub copied : Memory → ℕ → ℕ → ℕ → ℕ → ℕ
copied m dst src size b =
    if leb dst b && ltb b (dst + size) then load8 m (src + (b - dst)) else load8 m b

-- The bytes of a finished copy, and the others.
pub copied_inside :
    (m : Memory) (dst src size i : ℕ)
    → i < size
    → copied m dst src size (dst + i) ≡ load8 m (src + i)
copied_inside m dst src size i h = ground arith

pub copied_outside :
    (m : Memory) (dst src size b : ℕ)
    → (b < dst) ⊎ (dst + size ≤ b)
    → copied m dst src size b ≡ load8 m b
copied_outside m dst src size b (inl h) = ground arith
copied_outside m dst src size b (inr h) = ground arith

memset_from_lem :
    (buf value left i : ℕ) (m : Memory) (b : ℕ)
    → load8 (memset_from buf value left i m) b
      ≡ (if leb (buf + i) b && ltb b (buf + i + left) then u8 value else load8 m b)
unfolding memset_from load8 store8
memset_from_lem buf value zero i m b = ground arith
memset_from_lem buf value (suc left) i m b =
    ground (arith, memset_from_lem buf value left (i + 1) (store8 m (buf + i) value) b)

memcpy_from_lem :
    (dst src left i : ℕ) (m : Memory) (b : ℕ)
    → (dst < src) ⊎ (src + i + left ≤ dst)
    → load8 (memcpy_from dst src left i m) b ≡ copied m (dst + i) (src + i) left b
unfolding memcpy_from load8 store8
memcpy_from_lem dst src zero i m b h = ground arith
memcpy_from_lem dst src (suc left) i m b h =
    ground (arith, memcpy_from_lem dst src left (i + 1) (store8 m (dst + i) (load8 m (src + i))) b)

move_down_lem :
    (dst src i : ℕ) (m : Memory) (b : ℕ)
    → src ≤ dst
    → load8 (move_down dst src i m) b ≡ copied m dst src i b
unfolding move_down load8 store8
move_down_lem dst src zero m b h = ground arith
move_down_lem dst src (suc i) m b h =
    ground (arith, move_down_lem dst src i (store8 m (dst + i) (load8 m (src + i))) b)

-- `memset` leaves the byte at each address of the buffer, and no other address changes.
pub memset_lem :
    (m : Memory) (buf value size b : ℕ)
    → load8 (memset m buf value size) b
      ≡ (if leb buf b && ltb b (buf + size) then u8 value else load8 m b)
unfolding memset
memset_lem m buf value size b = ground (arith, memset_from_lem buf value size 0 m b)

-- `memcpy` between ranges that do not overlap leaves a copy of the source at the destination, and
-- no other address changes.
pub memcpy_lem :
    (m : Memory) (dst src size b : ℕ)
    → (dst + size ≤ src) ⊎ (src + size ≤ dst)
    → load8 (memcpy m dst src size) b ≡ copied m dst src size b
unfolding memcpy
memcpy_lem m dst src size b h = ground (arith, memcpy_from_lem dst src size 0 m b)

-- `memmove` leaves a copy of the old bytes of the source at the destination however the two
-- ranges overlap, and no other address changes.
pub memmove_lem :
    (m : Memory) (dst src size b : ℕ) → load8 (memmove m dst src size) b ≡ copied m dst src size b
unfolding memmove
memmove_lem m dst src size b =
    ground (arith, memcpy_from_lem dst src size 0 m b, move_down_lem dst src size m b)
