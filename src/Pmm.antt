-- ===== src/Pmm.antt =====
-- The physical page allocator: `struct managed_memory` of kernel/include/kernel/arch/i386/mem.h and
-- the functions of kernel/arch/i386/mem.c that keep its bitmap, a bit for each page, set where the
-- page is in use.
pub mod Bitmap
pub mod Scan
pub mod Sound
pub mod Allocate
pub mod Reuse
pub mod Runs
mod Tests
use mathlib.Core.Option
use simple_kernel.Base.{
  ℕ, zero, suc, ◌+◌, ◌-◌, ◌*◌, ◌/◌, ◌%◌, ◌^◌, bit_and, bit_or, Bool, true, false, Option, none,
  some, List, get_elem?, set, ◌==◌, if◌then◌else◌, not, u8, u32, ◌<<<◌, complement8, complement32,
}

abbrev pub page_size : ℕ
page_size = 4096

-- `bitmap` holds the bytes that the field of that name points to.
pub record ManagedMemory : Type 0 where
  pub bitmap : List ℕ
  pub size : ℕ
  pub next_index : ℕ
  pub next_offset : ℕ
  pub free_pages : ℕ
  pub set_up : Bool

-- The loop of `first_zero_in_byte`, with `left` rounds to go.
zero_from : ℕ → ℕ → ℕ → ℕ
zero_from zero i b = 8
zero_from (suc left) i b =
    let rest = zero_from left (i + 1) b in if bit_and b (1 <<< i) == 0 then i else rest

unfoldable pub first_zero_in_byte : ℕ → ℕ
unfolding zero_from
first_zero_in_byte b = if b == complement8 0 then 8 else zero_from 8 0 b

-- The index of the bitmap's byte, and the bit in it.
unfoldable pub physaddr_to_offsets : ℕ → ℕ × ℕ
physaddr_to_offsets physaddr = let y = physaddr / page_size in (y / 8, y % 8)

unfoldable pub offsets_to_physaddr : ℕ → ℕ → ℕ
offsets_to_physaddr bm_index offset = u32 (page_size * (bm_index * 8 + offset))

-- `none`, here and below: an access outside the bitmap, which C leaves undefined.
unfoldable pub get_page_state : ℕ → ManagedMemory → Option Bool
unfolding physaddr_to_offsets
get_page_state physaddr m =
    let (index, offset) = physaddr_to_offsets physaddr in
    Option.map (λ b. not (bit_and b (1 <<< offset) == 0)) (get_elem? m.bitmap index)

infixl 5 ◌>>=◌
abbrev pub ◌>>=◌ : {A B : Type 0} → Option A → (A → Option B) → Option B
none >>= k = none
some x >>= k = k x

-- The search of `get_page` from index `i`, with `left` bytes to go.
unfoldable pub scan : List ℕ → ℕ → ℕ → ℕ → Option (ℕ × ℕ)
unfolding first_zero_in_byte
scan bitmap o zero i = some (i, o)
scan bitmap o (suc left) i = elim (get_elem? bitmap i) [
  | none ↦ none
  | some b ↦ elim (b == 0xFF) [
    | true ↦ scan bitmap o left (i + 1)
    | false ↦ some (i, first_zero_in_byte b)
  ]
]

unfoldable pub get_page : ManagedMemory → Option (ℕ × ManagedMemory)
unfolding offsets_to_physaddr
get_page m = do
  let page = offsets_to_physaddr m.next_index m.next_offset
  b ← get_elem? m.bitmap m.next_index
  let bitmap = set m.bitmap m.next_index (u8 (bit_or b (1 <<< m.next_offset)))
  (i, o) ← scan bitmap m.next_offset m.size 0
  some (page, record m { bitmap = bitmap; next_index = i; next_offset = o })

unfoldable pub free_page : ℕ → ManagedMemory → Option ManagedMemory
unfolding physaddr_to_offsets
free_page physaddr m = do
  let (index, offset) = physaddr_to_offsets physaddr
  b ← get_elem? m.bitmap index
  let bitmap = set m.bitmap index (u8 (bit_and b (complement32 (1 <<< offset))))
  some (record m { bitmap = bitmap; next_index = index; next_offset = offset })
