-- ===== src/Heap/Pages.antt =====
-- What the heap asks of the physical page allocator and the page tables: the three functions of
-- kernel/arch/i386/mem.c that it calls, and the laws that its own theorems rest on.
use simple_kernel.Base.{ℕ, zero, suc, ◌+◌, ◌%◌, ◌<◌, ◌≡◌, Bool, true, ◌&&◌, Option, some}

-- Whether an access to each of the `size` bytes from `p` on gets through.
unfoldable pub reaches : (ℕ → Bool) → ℕ → ℕ → Bool
reaches is_mapped p zero = true
reaches is_mapped p (suc size) = is_mapped p && reaches is_mapped (p + 1) size

-- `none` is a fault: an access outside the bitmap or to an unmapped address.
pub record Pager : Type 1 where
  pub Vm : Type 0
  -- Whether the processor translates an address; an access to any other one is a page fault.
  pub is_mapped : Vm → ℕ → Bool
  pub get_physaddr : ℕ → Vm → Option ℕ
  pub get_page : Vm → Option (ℕ × Vm)
  pub map_page : ℕ → ℕ → ℕ → Vm → Option (ℕ × Vm)
  -- `Supplies n vm`: in `vm` the calls below do not fault, and `n` free pages are left.
  pub Supplies : ℕ → Vm → Type 0
  pub get_physaddr_total :
      (n va : ℕ) (vm : Vm)
      → Supplies n vm
      → va < 0xFFC00000
      → (pa : ℕ) × (get_physaddr va vm ≡ some pa)
  -- Mapping a page that is not mapped takes one page, and one more for a page table.
  pub map_new :
      (n va flags : ℕ) (vm : Vm)
      → Supplies (n + 2) vm
      → va % 4096 ≡ 0
      → va < 0xFFC00000
      → (page code : ℕ) × (vm₁ vm₂ : Vm) × (get_page vm ≡ some (page, vm₁))
        × (map_page page va flags vm₁ ≡ some (code, vm₂))
        × Supplies n vm₂
  pub weaken : (n k : ℕ) (vm : Vm) → Supplies (n + k) vm → Supplies n vm
