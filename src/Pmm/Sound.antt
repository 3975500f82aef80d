-- ===== src/Pmm/Sound.antt =====
-- The allocator's invariant, and what one search from the start of the bitmap makes of it.
use simple_kernel.Base.{
  ℕ, ◌+◌, ◌*◌, ◌/◌, ◌%◌, ◌^◌, ◌≤◌, ◌<◌, ◌≡◌, arith, List, inl, inr, length, get_or, get_or-default,
  leb, Bool-cases,
}
use simple_kernel.Pmm.{ManagedMemory}
use simple_kernel.Pmm.Bitmap.{page_bit, IsBytes}
use simple_kernel.Pmm.Scan.{IsFirstFree, bit_full}

-- `next_index` and `next_offset` name a free page, or `next_index` stands at the end of a bitmap
-- in which every page is in use. A bitmap of 2 ^ 17 bytes covers the 32-bit address space.
pub record IsSound (m : ManagedMemory) : Type 0 where
  pub sized : length m.bitmap ≡ m.size
  pub addressable : m.size ≤ 2 ^ 17
  pub bytes : IsBytes m.bitmap
  pub next_bound : m.next_index ≤ m.size
  pub next_in_byte : m.next_index < m.size → m.next_offset < 8
  pub next_free : m.next_index < m.size → page_bit m.bitmap (m.next_index * 8 + m.next_offset) ≡ 0
  pub all_used : m.next_index ≡ m.size → (p : ℕ) → page_bit m.bitmap p ≡ 1

-- The number of the page that the next call of `get_page` hands out.
abbrev pub next_page : ManagedMemory → ℕ
next_page m = m.next_index * 8 + m.next_offset

pub page_bit_beyond : (bitmap : List ℕ) (p : ℕ) → length bitmap ≤ p / 8 → page_bit bitmap p ≡ 1
page_bit_beyond bitmap p h = ground (arith, get_or-default bitmap (p / 8) 0xFF h, bit_full (p % 8))

page_bit_full :
    (bitmap : List ℕ) (p : ℕ) → get_or bitmap (p / 8) 0xFF ≡ 0xFF → page_bit bitmap p ≡ 1
page_bit_full bitmap p h = ground (arith, bit_full (p % 8))

-- The record that `get_page` leaves behind, with any bitmap in which the search ran.
pub IsSound-scanned :
    (m : ManagedMemory) (bitmap : List ℕ) (i o : ℕ)
    → IsSound m
    → length bitmap ≡ length m.bitmap
    → IsBytes bitmap
    → IsFirstFree bitmap 0 m.next_offset i o
    → IsSound (record m { bitmap = bitmap; next_index = i; next_offset = o })
IsSound-scanned m bitmap i o sound same bytes first = record {
  sized = omega arith;
  addressable = sound.addressable;
  bytes = bytes;
  next_bound = omega arith;
  next_in_byte = λ h. (first.found (omega arith)).in_byte;
  next_free = λ h.
      let zero_bit = first.found (omega arith) in
      let e : i ≡ (i * 8 + o) / 8 = omega (arith, zero_bit.in_byte) in
      let e' : o ≡ (i * 8 + o) % 8 = omega (arith, zero_bit.in_byte) in ground arith;
  all_used = λ h p. elim (Bool-cases (leb (length bitmap) (p / 8))) [
    | inl beyond ↦ page_bit_beyond bitmap p (ground arith)
    | inr within ↦ page_bit_full bitmap p (first.skipped (p / 8) (omega arith) (ground arith))
  ];
}
