-- ===== src/Late.antt =====
-- `late_pmm_init` of kernel/arch/i386/mem.c: with paging on, the page allocator that was set up
-- before becomes the kernel's, and its bitmap is mapped behind the kernel.
pub mod Mapped
pub mod Samples
mod Tests
use simple_kernel.Base.{
  ℕ, zero, suc, ◌+◌, ◌-◌, ◌*◌, ◌^◌, bit_or, Option, none, some, true, u32, ◌<<<◌,
}
use simple_kernel.Heap.{div_ceil}
use simple_kernel.Pmm.{ManagedMemory, page_size}
use simple_kernel.Paging.Mmu.{Vm}
use simple_kernel.Paging.{map_page, ◌>>=◌}

-- The linker's symbols `kernel_start_p` and `kernel_end_p`.
pub record KernelSymbols : Type 0 where
  pub start : ℕ
  pub stop : ℕ

unfoldable pub kernel_page_count : KernelSymbols → ℕ
kernel_page_count image = div_ceil (u32 (image.stop + 2 ^ 32 - image.start)) page_size

-- The loop from page `i` on, with `left` pages to go; `bitmap` is the bitmap's physical address.
unfoldable pub late_rounds : ℕ → ℕ → ℕ → ℕ → Vm → Option Vm
late_rounds kernel_pages bitmap zero i vm = some vm
late_rounds kernel_pages bitmap (suc left) i vm = do
  let va = bit_or 0xC0000000 (u32 (i <<< 12))
  let pa = u32 (bitmap + (i - kernel_pages) * page_size)
  (code, vm') ← map_page pa va 0x103 vm
  late_rounds kernel_pages bitmap left (i + 1) vm'

-- The new address of the bitmap, and the state behind the call.
unfoldable pub late_pmm_init : KernelSymbols → ℕ → ManagedMemory → Vm → Option (ℕ × Vm)
unfolding kernel_page_count
late_pmm_init image bitmap p vm = do
  let kernel_pages = kernel_page_count image
  let combined = u32 (kernel_pages + div_ceil p.size page_size)
  vm' ←
      late_rounds kernel_pages bitmap (combined - kernel_pages) kernel_pages (record vm { pmm = p })
  some (
    bit_or 0xC0000000 (u32 (kernel_pages <<< 12)),
    record vm' { pmm = record vm'.pmm { set_up = true } },
  )
