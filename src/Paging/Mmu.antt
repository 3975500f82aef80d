-- ===== src/Paging/Mmu.antt =====
-- The two-level address translation of the i386, and memory accesses through it. Physical memory
-- is the words of each page frame.
use mathlib.Core.Option
use simple_kernel.Base.{ℕ, ◌/◌, ◌%◌, ◌^◌, ◌&&◌, Option, none, some, ◌==◌, if◌then◌else◌}
use simple_kernel.Pmm.{ManagedMemory}

abbrev pub Ram : Type 0
Ram = ℕ → ℕ → ℕ

-- The physical memory, the frame of the page directory (CR3) and the page allocator.
pub record Vm : Type 0 where
  pub ram : Ram
  pub cr3 : ℕ
  pub pmm : ManagedMemory

abbrev pub put_word : Ram → ℕ → ℕ → ℕ → Ram
put_word ram f i v g j = if f == g && i == j then v else ram g j

abbrev pub zero_frame : Ram → ℕ → Ram
zero_frame ram f g j = if f == g then 0 else ram g j

-- The frame behind the entry `i` of the table in the frame `table`, if it is present.
unfoldable pub entry_frame : Ram → ℕ → ℕ → Option ℕ
entry_frame ram table i = if ram table i % 2 == 0 then none else some (ram table i / 4096)

-- `none` is a page fault.
unfoldable pub translate : Ram → ℕ → ℕ → Option ℕ
translate ram cr3 va = elim (entry_frame ram cr3 (va / 2 ^ 22)) [
  | none ↦ none
  | some table ↦ entry_frame ram table (va / 2 ^ 12 % 2 ^ 10)
]

abbrev pub walk : Vm → ℕ → Option ℕ
walk vm va = translate vm.ram vm.cr3 va

-- A 32-bit access at an address that is a multiple of 4.
unfoldable pub vload : ℕ → Vm → Option ℕ
vload va vm = Option.map (λ f. vm.ram f (va / 4 % 1024)) (walk vm va)

unfoldable pub vstore : ℕ → ℕ → Vm → Option Vm
vstore va v vm =
    Option.map (λ f. record vm { ram = put_word vm.ram f (va / 4 % 1024) v }) (walk vm va)
