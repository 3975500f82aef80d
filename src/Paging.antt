-- ===== src/Paging.antt =====
-- The page tables of kernel/arch/i386/mem.c: `get_physaddr`, `map_page` and `unmap_page`. They
-- reach the page directory and the page tables through the directory's last entry, which maps the
-- directory to itself, so every access goes through the address translation of the processor.
pub mod Mmu
pub mod Window
pub mod Lookup
pub mod Table
pub mod Entry
pub mod Map
pub mod Unmap
pub mod Supply
pub mod Tests
use simple_kernel.Base.{
  ℕ, ◌+◌, ◌-◌, ◌*◌, ◌/◌, ◌%◌, ◌^◌, bit_and, bit_or, Option, none, some, ◌==◌, if◌then◌else◌, not,
  u32, ◌<<<◌, ◌>>>◌, complement32,
}
use simple_kernel.Pmm.{page_size, get_page, ManagedMemory}
use Mmu.{Vm, walk, vload, vstore, zero_frame}

abbrev pub map_page_physaddr_unaligned : ℕ
map_page_physaddr_unaligned = 3

abbrev pub map_page_virtualaddr_unaligned : ℕ
map_page_virtualaddr_unaligned = 4

abbrev pub map_page_mapping_already_present : ℕ
map_page_mapping_already_present = 5

infixl 5 ◌>>=◌
abbrev pub ◌>>=◌ : {A B : Type 0} → Option A → (A → Option B) → Option B
none >>= k = none
some x >>= k = k x

unfoldable pub get_physaddr : ℕ → Vm → Option ℕ
get_physaddr va vm = do
  let pdindex = va >>> 22
  let ptindex = bit_and (va >>> 12) 0b1111111111
  let offset = bit_and va 0b111111111111
  pt ← vload (bit_or 0xFFFFF000 (pdindex <<< 2)) vm
  if bit_and pt 1 == 0 then some 0 else (do
    page ← vload (bit_or (bit_or 0xFFC00000 (pdindex <<< 12)) (ptindex <<< 2)) vm
    if bit_and page 1 == 0
        then some 0
        else some (bit_or (bit_and page (complement32 0b111111111111)) offset))

-- The address of the page table's window.
abbrev pub table_window : ℕ → ℕ
table_window pdindex = u32 (0xFFC00000 + 4 * (0x400 * pdindex))

-- `memset(pt, 0, PAGE_SIZE)` of a whole page, whose addresses share one translation.
unfoldable pub memset_page : ℕ → Vm → Option Vm
memset_page pt vm = do f ← walk vm pt; some (record vm { ram = zero_frame vm.ram f })

-- The part of `map_page` that makes sure that the directory has a page table at `pdindex`.
unfoldable pub ensure_table : ℕ → Vm → Option Vm
ensure_table pdindex vm = do
  pde ← vload (bit_or 0xFFFFF000 (pdindex <<< 2)) vm
  if not (bit_and pde 1 == 0) then some vm else (do
    (phys_page, pmm) ← get_page vm.pmm
    vm' ←
        vstore (bit_or 0xFFFFF000 (pdindex <<< 2)) (bit_or phys_page 0x3) (record vm { pmm = pmm })
    memset_page (table_window pdindex) vm')

-- The part behind it, on the entry itself.
unfoldable pub set_entry : ℕ → ℕ → ℕ → ℕ → Vm → Option (ℕ × Vm)
set_entry pa pdindex ptindex flags vm = do
  entry ← vload (table_window pdindex + 4 * ptindex) vm
  if bit_and entry 1 == 1 then some (map_page_mapping_already_present, vm) else (do
    vm' ←
        vstore (table_window pdindex + 4 * ptindex)
          (bit_or (bit_or pa (bit_and flags 0b111111111111)) 1) vm
    some (0, vm'))

unfoldable pub map_page : ℕ → ℕ → ℕ → Vm → Option (ℕ × Vm)
map_page pa va flags vm =
    if not (pa % page_size == 0)
    then some (map_page_physaddr_unaligned, vm)
    else if not (va % page_size == 0)
    then some (map_page_virtualaddr_unaligned, vm)
    else (do
      vm' ← ensure_table (va >>> 22) vm
      set_entry pa (va >>> 22) (bit_and (va >>> 12) 0b1111111111) flags vm')

-- `(uint32_t)~0`.
unfoldable pub unmap_page : ℕ → Vm → Option (ℕ × Vm)
unmap_page va vm = do
  vm' ← vstore (table_window (va >>> 22) + 4 * bit_and (va >>> 12) 0b1111111111) (complement32 0) vm
  some (0, vm')
