-- ===== src/Heap/Samples.antt =====
-- A paging interface and a heap that is one free block, for the tests.
use simple_kernel.Base.{ℕ, ◌+◌, ◌-◌, ◌≤◌, refl, arith, true, false, ltb, some, List, [], ◌∷◌}
use simple_kernel.Memory.{Memory, load32, store32}
use simple_kernel.Heap.Header.{header_size, heap_start, heap_end}
use simple_kernel.Heap.Pages.{Pager}
use simple_kernel.Heap.{Kernel}
use simple_kernel.Heap.Layout.{Block, block, Heap}

-- Paging that counts the free pages and never finds a page mapped, on a machine where all pages but
-- the first are.
abbrev pub counting : Pager
counting = record {
  Vm = ℕ;
  is_mapped = λ vm va. ltb 0xFFF va;
  get_physaddr = λ va vm. some 0;
  get_page = λ vm. some (0x1000, vm - 1);
  map_page = λ pa va flags vm. some (0, vm - 1);
  Supplies = λ n vm. n ≤ vm;
  get_physaddr_total = λ n va vm h low. (0, refl);
  map_new = λ n va flags vm h al low. (0x1000, 0, vm - 1, vm - 1 - 1, refl, refl, enough n vm h);
  weaken = λ n k vm h. fewer n k vm h;
}
  where
    enough : (n vm : ℕ) → n + 2 ≤ vm → n ≤ vm - 1 - 1
    enough n vm h = omega arith

    fewer : (n k vm : ℕ) → n + k ≤ vm → n ≤ vm
    fewer n k vm h = omega arith

abbrev pub fresh : Memory
fresh = store32 (store32 (λ a. 0) heap_start heap_end) heap_end 2

abbrev pub fresh_blocks : List Block
fresh_blocks = block (heap_end - heap_start - header_size) false ∷ []

pub fresh-Heap : Heap fresh fresh_blocks
unfolding load32 store32
fresh-Heap = record {
  areas = (record { aligned = refl; whole = refl; word = refl }, refl);
  epsilon = refl;
}

abbrev pub fresh_kernel : Kernel ℕ
fresh_kernel = record { mem = fresh; vm = 100; ran = true }
