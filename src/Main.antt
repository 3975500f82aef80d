-- ===== src/Main.antt =====
-- `kernel_main` of kernel/kernel/kernel.c, in the stages that its comments and blank lines set off:
-- it starts the other parts and then tries the heap and the PCI bus out. No interrupt is taken in
-- between, and a text that the code spells out is printed without a look at memory, but copied
-- from the address the linker gave it.
pub mod Started
pub mod Devices
pub mod Boots
pub mod Texts
pub mod Pages
pub mod Granted
pub mod Areas
mod Samples
mod Tests
use mathlib.Core.Option
use simple_kernel.Base.{
  ℕ, ◌+◌, ◌*◌, ◌%◌, ◌^◌, Bool, true, Option, none, some, List, not, ◌==◌, if◌then◌else◌, codes,
  length, ◌&&◌,
}
use simple_kernel.Memory.{memset}
use simple_kernel.Strings.{strlen, strcpy}
use simple_kernel.Ports.{PortIo}
use simple_kernel.Pmm.{ManagedMemory, page_size}
use simple_kernel.Paging.{map_page}
use simple_kernel.Paging.Mmu.{Vm, walk}
use simple_kernel.Paging.Entry.{is_some}
use simple_kernel.Heap.Pages.{reaches}
use simple_kernel.Paging.Supply.{kernel_pager, get_page_of}
use simple_kernel.Late.{KernelSymbols, late_pmm_init}
use simple_kernel.Tty.{Terminal, terminal_initialize, terminal_write, terminal_putchar}
use simple_kernel.Print.{terminal_writestring, iprint}
use simple_kernel.Gdt.{GdtEntry, GdtrEntry, load_initial_gdt}
use simple_kernel.Idt.{IdtEntry, IdtrEntry, Wrappers, load_initial_idt}
use simple_kernel.Pic.{pic_init}
use simple_kernel.Pci.{PciDeviceBase, pci_read_device_base}
use simple_kernel.Interrupts.{Handled, returns, hangs}
use simple_kernel.Heap.{Kernel, ◌>>=◌, kmalloc, krealloc, kfree}
use simple_kernel.Heap.Init.{init_heap}
use simple_kernel.Heap.Paged.{kpagealloc}

-- What the linker and the boot code leave: the kernel's symbols, the allocator that
-- `get_early_pmm` returns with the address of its bitmap, the wrappers, and the addresses of the
-- two tables and of the string literals.
pub record Boot : Type 0 where
  pub symbols : KernelSymbols
  pub bitmap : ℕ
  pub early : ManagedMemory
  pub wrappers : Wrappers
  pub initial_gdt : ℕ
  pub initial_idt : ℕ
  pub literal : List ℕ → ℕ

-- The tables and registers of the processor, the other parts' states and the interrupt flag.
pub record System (io : PortIo) : Type 0 where
  pub kernel : Kernel Vm
  pub term : Terminal
  pub machine : io.Machine
  pub gdt : List GdtEntry × GdtrEntry
  pub idt : List IdtEntry × IdtrEntry
  pub interrupts : Bool

module _ (io : PortIo) (boot : Boot) where
  abbrev pub put_literal : List ℕ → System io → System io
  put_literal text s = record s { term = terminal_write text s.term }

  abbrev pub set_vm : Vm → System io → System io
  set_vm vm s = record s { kernel = record s.kernel { vm = vm } }

  -- Up to the test of the code that `map_page` returns for the VGA buffer.
  unfoldable pub start_memory : System io → Option (ℕ × System io)
  start_memory s = do
    (bitmap, vm₁) ← late_pmm_init boot.symbols boot.bitmap boot.early s.kernel.vm
    (code, vm₂) ← map_page 0x000B8000 0xC03FE000 0x103 vm₁
    some (code, record (set_vm vm₂ s) { gdt = load_initial_gdt boot.initial_gdt })

  -- The two calls of `get_page`, and the text if their results differ.
  unfoldable pub compare_pages : System io → Option (System io)
  compare_pages s = do
    (page, vm₁) ← get_page_of s.kernel.vm
    (page', vm₂) ← get_page_of vm₁
    let s₁ = set_vm vm₂ s
    some (
        if not (page == page')
        then put_literal (codes "get_page() probably works partially at least\n") s₁
        else s₁)

  -- From `terminal_initialize` to `init_heap`.
  unfoldable pub start_devices : System io → Option (System io)
  start_devices s = do
    let t = terminal_write (codes "something or another\n") (terminal_initialize s.term.buffer)
    let t' = if boot.bitmap % page_size == 0 then terminal_write (codes "amazing\n") t else t
    s₁ ← compare_pages (record s { term = t' })
    (k, t'') ← init_heap kernel_pager s₁.kernel s₁.term
    some record s₁ {
      kernel = k;
      term = t'';
      machine = pic_init io s₁.machine;
      idt = load_initial_idt boot.wrappers boot.initial_idt;
      interrupts = true;
    }

  -- Whether the bytes from `p` on are mapped.
  abbrev pub touches : System io → ℕ → ℕ → Bool
  touches s = reaches (λ a. is_some (walk s.kernel.vm a))

  -- `terminal_writestring` of a string in memory, which comes to its zero as well. `none`, here and
  -- below, where a byte that is not mapped is accessed.
  unfoldable pub show : ℕ → System io → Option (System io)
  show ptr s = do
    size ← strlen s.kernel.mem ptr
    if touches s ptr (size + 1)
        then (do t ← terminal_writestring s.kernel.mem ptr s.term; some record s { term = t })
        else none

  -- Clears the `size` bytes at `ptr`, copies the text to `to` and prints it from there.
  unfoldable pub write_text : ℕ → ℕ → ℕ → List ℕ → System io → Option (System io)
  unfolding show
  write_text ptr size to text s =
      if touches s ptr size && touches s to (length text + 1)
      then (do
        m ← strcpy (memset s.kernel.mem ptr 0 size) to (boot.literal text)
        show to (record s { kernel = record s.kernel { mem = m } }))
      else none

  -- `kmalloc` of `size` bytes, and the text `offset` bytes into them.
  unfoldable pub malloc_text : ℕ → ℕ → List ℕ → System io → Option (ℕ × System io)
  unfolding write_text
  malloc_text size offset text s = do
    (ptr, k) ← kmalloc kernel_pager size s.kernel
    s₁ ← write_text ptr size (ptr + offset) text (record s { kernel = k })
    some (ptr, s₁)

  unfoldable pub try_pages : System io → Option (ℕ × System io)
  unfolding write_text
  try_pages s = do
    (pagetest, k) ← kpagealloc kernel_pager 4 s.kernel
    let s₁ : System io = record s { kernel = k }
    let s₂ : System io =
        if pagetest % page_size == 0
        then put_literal (codes "page is aligned correctly\n") s₁
        else s₁
    s₃ ← write_text pagetest 4 (pagetest + page_size * 2) (codes "Hello page-aligned world!\n") s₂
    some (pagetest, s₃)

  unfoldable pub try_realloc : ℕ → System io → Option (ℕ × System io)
  unfolding show write_text
  try_realloc test s = do
    (test4, k) ← krealloc kernel_pager test 100 s.kernel
    s₁ ← show test4 (record s { kernel = k })
    s₂ ← write_text test4 100 test4 (codes "And now for something longer...\n") s₁
    some (test4, s₂)

  -- The areas of the four calls of `kmalloc`, each with its text.
  unfoldable pub fill_heap : System io → Option ((ℕ × ℕ × ℕ × ℕ) × System io)
  unfolding malloc_text
  fill_heap s = do
    (test, s₁) ← malloc_text 50 0 (codes "Hello heap world!\n") s
    (test2, s₂) ← malloc_text 12 0 (codes "Hello 2\n") s₁
    (test3, s₃) ← malloc_text 20 0 (codes "Hello 3\n") s₂
    (big, s₄) ← malloc_text 4096 1000 (codes "Hello big heap!\n") s₃
    some ((test, test2, test3, big), s₄)

  -- From the first `kmalloc` to the last `kfree`.
  unfoldable pub try_heap : ℕ → System io → Option (System io)
  unfolding fill_heap try_realloc
  try_heap pagetest s = do
    (areas, s₁) ← fill_heap s
    let (test, test2, test3, big) = areas
    (test4, s₂) ← try_realloc test s₁
    m₁ ← kfree s₂.kernel.mem test2
    m₂ ← kfree m₁ test3
    m₃ ← kfree m₂ test4
    m₄ ← kfree m₃ big
    m₅ ← kfree m₄ pagetest
    some record s₂ { kernel = record s₂.kernel { mem = m₅ } }

  -- A label, a number and the end of the line.
  unfoldable pub print_id : List ℕ → ℕ → Terminal → Option Terminal
  print_id label n t = do t' ← iprint n (terminal_write label t); some (terminal_putchar b'\n' t')

  unfoldable pub print_device : Option PciDeviceBase → Terminal → Option Terminal
  unfolding print_id
  print_device none t = some t
  print_device (some pci) t = do
    t₁ ←
        print_id (codes "Vendor ID: ") pci.vendor_id
          (terminal_write (codes "PCI read success!\n") t)
    print_id (codes "Device ID: ") pci.device_id t₁

  unfoldable pub try_pci : System io → Option (System io)
  unfolding print_device
  try_pci s = do
    let (found, machine) = pci_read_device_base io 0 0 0 s.machine
    t ← print_device found s.term
    some record s { term = t; machine = machine }

  -- What follows the start of the devices, up to the endless loop.
  unfoldable pub try_out : System io → Option (Handled (System io))
  unfolding try_pages try_heap try_pci
  try_out s = do
    (pagetest, s₁) ← try_pages s
    s₂ ← try_heap pagetest s₁
    s₃ ← try_pci s₂
    some (hangs s₃)

  -- `returns` where the VGA buffer cannot be mapped, and `hangs` in the endless loop at the end;
  -- `none` where a part faults or a loop's rounds run out.
  unfoldable pub kernel_main : System io → Option (Handled (System io))
  unfolding start_memory start_devices try_out
  kernel_main s = do
    (code, s₁) ← start_memory s
    if not (code == 0) then some (returns s₁) else (do s₂ ← start_devices s₁; try_out s₂)
