-- ===== src/Heap/Header.antt =====
-- `struct heap_area` of kernel/arch/i386/mem.c and the inline functions that read and write it.
-- `next` is the word at the area's address and `prev` the word behind it; the low bits of `next`
-- are flags.
use simple_kernel.Base.{
  ℕ, ◌+◌, ◌-◌, ◌*◌, ◌^◌, bit_and, bit_or, Bool, ◌||◌, ◌==◌, if◌then◌else◌, u32, complement32, ◌>>>◌,
  ◌<<<◌,
}
use simple_kernel.Memory.{Memory, load32, store32}

abbrev pub header_size : ℕ
header_size = 8

abbrev pub null : ℕ
null = 0

abbrev pub heap_start : ℕ
heap_start = 0xE0000000

abbrev pub heap_end : ℕ
heap_end = 0xFFC00000 - header_size

-- The address of the field `prev`; that of `next` is the area's own.
abbrev pub prev_field : ℕ → ℕ
prev_field area = area + 4

unfoldable pub get_next_address : Memory → ℕ → ℕ
get_next_address m area = bit_and (load32 m area) (complement32 7)

unfoldable pub set_next_address : Memory → ℕ → ℕ → Memory
set_next_address m area next =
    let n = bit_and next (complement32 7) in
    let flags = bit_and (load32 m area) 7 in store32 m area (bit_or n flags)

unfoldable pub get_prev_address : Memory → ℕ → ℕ
get_prev_address m area = bit_and (load32 m (prev_field area)) (complement32 7)

unfoldable pub set_prev_address : Memory → ℕ → ℕ → Memory
set_prev_address m area prev =
    let n = bit_and prev (complement32 7) in
    let flags = bit_and (load32 m (prev_field area)) 7 in
    store32 m (prev_field area) (bit_or n flags)

unfoldable pub get_area_used : Memory → ℕ → Bool
get_area_used m area = bit_and (load32 m area) 1 == 1

unfoldable pub set_area_used : Memory → ℕ → Bool → Memory
set_area_used m area used =
    if used
    then store32 m area (bit_or (load32 m area) 1)
    else store32 m area (bit_and (load32 m area) (complement32 1))

unfoldable pub get_area_epsilon : Memory → ℕ → Bool
get_area_epsilon m area = bit_and (load32 m area >>> 1) 1 == 1

unfoldable pub set_area_epsilon : Memory → ℕ → Bool → Memory
set_area_epsilon m area ep =
    if ep
    then store32 m area (bit_or (load32 m area) (1 <<< 1))
    else store32 m area (bit_and (load32 m area) (complement32 (1 <<< 1)))

-- The subtractions are those of `uint32_t`.
unfoldable pub get_area_size : Memory → ℕ → ℕ
get_area_size m area =
    let next = get_next_address m area in
    if get_area_epsilon m area || next == null
    then 0
    else u32 (next + 2 * 2 ^ 32 - area - header_size)
