-- ===== src/Early.antt =====
-- The set-up of the page allocator before paging, kernel/arch/i386/early_pmm_init.c, from the
-- memory map of the boot loader (kernel/include/kernel/multiboot.h). The map is the list of its
-- entries in the order in which the code steps through them.
pub mod Cut
pub mod Release
pub mod Configured
pub mod Handed
mod Tests
use mathlib.Core.Option
use simple_kernel.Base.{
  ℕ, zero, suc, ◌+◌, ◌-◌, ◌*◌, ◌/◌, ◌%◌, ◌^◌, bit_and, Bool, true, false, ◌&&◌, ◌||◌, not, Option,
  none, some, List, [], ◌∷◌, map, get_elem?, set, replicate, ltb, leb, ◌==◌, if◌then◌else◌, u8, u32,
  ◌<<<◌, complement32,
}
use simple_kernel.Pmm.{ManagedMemory, page_size}
use simple_kernel.Heap.{div_ceil}

abbrev pub multiboot_magic : ℕ
multiboot_magic = 0x2BADB002

abbrev pub mem_available : ℕ
mem_available = 1

abbrev pub mb : ℕ
mb = 1024 * 1024

abbrev pub u64 : ℕ → ℕ
u64 x = x % 2 ^ 64

-- `struct multiboot_mmap_entry`, without the field `size` by which the code steps on.
pub record MmapEntry : Type 0 where
  pub addr : ℕ
  pub length : ℕ
  pub kind : ℕ

abbrev pub is_available : MmapEntry → Bool
is_available e = e.kind == mem_available

-- The linker's symbols: the physical addresses of the kernel's first byte and of the byte behind it.
pub record KernelImage : Type 0 where
  pub start : ℕ
  pub stop : ℕ

unfoldable pub early_physaddr_to_offsets : ℕ → ℕ × ℕ
early_physaddr_to_offsets physaddr = let y = physaddr / page_size in (y / 8, y % 8)

abbrev pub is_below : ℕ → Option ℕ → Bool
is_below addr none = true
is_below addr (some lowest) = ltb addr lowest

-- A round of the loop of `sanitize_available`: the address of the lowest reserved entry so far,
-- and the entry that is cut.
unfoldable pub sanitize_round : MmapEntry → Option ℕ × MmapEntry → Option ℕ × MmapEntry
sanitize_round cur (lowest, e) =
    if (not (is_available cur) && (ltb e.addr cur.addr && ltb cur.addr (u64 (e.addr + e.length))))
      && is_below cur.addr lowest
    then (some cur.addr, record e { length = cur.addr - e.addr })
    else (lowest, e)

unfoldable pub sanitize_rounds : List MmapEntry → Option ℕ × MmapEntry → Option ℕ × MmapEntry
sanitize_rounds [] s = s
sanitize_rounds (cur ∷ mmap) s = sanitize_rounds mmap (sanitize_round cur s)

-- The part of `sanitize_available` behind its loop.
unfoldable pub align_entry : MmapEntry → MmapEntry
align_entry e =
    if e.addr % page_size == 0
    then e
    else (let addr = u64 (e.addr + (page_size - e.addr % page_size)) in
        let excess = page_size - u64 (addr + e.length) % page_size in
        record e { addr = addr; length = u64 (e.length + 2 ^ 64 - excess) })

-- The loop reads only entries that are not available, and no call changes one of those: so it may
-- read the map as it was at first.
unfoldable pub sanitize_available : List MmapEntry → MmapEntry → MmapEntry
sanitize_available mmap e =
    if is_available e then align_entry (sanitize_rounds mmap (none, e)).1 else e

-- What the first loop of `init_frame_allocator` finds: the entry of the kernel, as it is once it is
-- sanitized, and the last entry that is available.
pub record Survey : Type 0 where
  pub kernel_entry : Option MmapEntry
  pub last_addr : ℕ
  pub last_size : ℕ

unfoldable pub kernel_size : KernelImage → ℕ
kernel_size image = u32 (image.stop + 2 ^ 32 - image.start)

unfoldable pub survey_round : KernelImage → List MmapEntry → MmapEntry → Survey → Survey
survey_round image mmap e s =
    let e' = sanitize_available mmap e in
    let s' : Survey =
      if leb e.addr image.start && leb (kernel_size image) e.length
      then record s { kernel_entry = some e' }
      else s in
    if is_available e' then record s' { last_addr = e'.addr; last_size = e'.length } else s'

unfoldable pub survey : KernelImage → List MmapEntry → List MmapEntry → Survey → Survey
survey image mmap [] s = s
survey image mmap (e ∷ rest) s = survey image mmap rest (survey_round image mmap e s)

-- The allocator that is set up, and `pmm_next_set`.
pub record Freeing : Type 0 where
  pub pmm : ManagedMemory
  pub next_set : Bool

-- The pages of the kernel and the bitmap, from `lo` to `hi`, and those of the first megabyte.
abbrev pub is_kept : ℕ → ℕ → ℕ → Bool
is_kept lo hi page_addr = (leb lo page_addr && ltb page_addr hi) || ltb page_addr mb

infixl 5 ◌>>=◌
abbrev pub ◌>>=◌ : {A B : Type 0} → Option A → (A → Option B) → Option B
none >>= k = none
some x >>= k = k x

-- `none`, here and below: a write outside the bitmap.
unfoldable pub free_round : ℕ → ℕ → ℕ → Freeing → Option Freeing
free_round lo hi page_addr s = if is_kept lo hi page_addr then some s else (do
  let (index, offset) = early_physaddr_to_offsets page_addr
  b ← get_elem? s.pmm.bitmap index
  let bitmap = set s.pmm.bitmap index (u8 (bit_and b (complement32 (1 <<< offset))))
  let pmm : ManagedMemory = record s.pmm {
    bitmap = bitmap;
    free_pages = u32 (s.pmm.free_pages + 1);
  }
  if s.next_set
      then some (record { pmm = pmm; next_set = true })
      else some (record {
        pmm = record pmm { next_index = index; next_offset = offset };
        next_set = true;
      }))

-- The pages `i` and on of an entry at `addr`, `left` of them.
unfoldable pub free_rounds : ℕ → ℕ → ℕ → ℕ → ℕ → Freeing → Option Freeing
free_rounds lo hi addr zero i s = some s
free_rounds lo hi addr (suc left) i s = do
  s' ← free_round lo hi (u32 (addr + u32 (i * page_size))) s
  free_rounds lo hi addr left (i + 1) s'

unfoldable pub free_entries : ℕ → ℕ → List MmapEntry → Freeing → Option Freeing
free_entries lo hi [] s = some s
free_entries lo hi (e ∷ mmap) s =
    if is_available e
    then free_rounds lo hi e.addr (u32 (e.length / page_size)) 0 s >>= free_entries lo hi mmap
    else free_entries lo hi mmap s

-- How `init_frame_allocator` ends: it loops for ever, it returns with nothing set up, or it has set
-- up the allocator with its bitmap at an address.
pub data EarlyResult : Type 0 where
  hangs : EarlyResult
  gives_up : EarlyResult
  configured : ℕ → ManagedMemory → EarlyResult

-- The end of `init_frame_allocator`, from the memory behind the last entry and the kernel's pages.
unfoldable pub configure : KernelImage → List MmapEntry → ℕ → ℕ → Option EarlyResult
configure image mmap bitmap_size kernel_page_count =
    let combined = u32 (kernel_page_count + div_ceil bitmap_size page_size) in
    let hi = u32 (image.start + page_size * combined) in
    let pmm : ManagedMemory = record {
      bitmap = replicate bitmap_size 0xFF;
      size = bitmap_size;
      next_index = 0;
      next_offset = 0;
      free_pages = 0;
      set_up = false;
    } in
    free_entries image.start hi mmap (record { pmm = pmm; next_set = false }) >>= λ s.
    some (configured (u32 (image.start + kernel_page_count * page_size)) s.pmm)

unfoldable pub init_frame_allocator : KernelImage → ℕ → ℕ → List MmapEntry → Option EarlyResult
init_frame_allocator image magic flags mmap =
    if not (magic == multiboot_magic)
    then some hangs
    else if bit_and flags (1 <<< 6) == 0
    then some gives_up
    else (let s =
          survey image mmap mmap (record { kernel_entry = none; last_addr = 0; last_size = 0 }) in
        let kernel_page_count = div_ceil (kernel_size image) page_size in
        let page_count = u64 (s.last_addr + s.last_size) / page_size in
        let bitmap_size = div_ceil (u32 page_count) 8 in
        let combined = u32 (kernel_page_count + div_ceil bitmap_size page_size) in
        elim s.kernel_entry [
          | none ↦ some gives_up
          | some e ↦
              if leb combined (e.length / page_size)
              then configure image (map (sanitize_available mmap) mmap) bitmap_size
                  kernel_page_count
              else some gives_up
        ])
