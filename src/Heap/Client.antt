-- ===== src/Heap/Client.antt =====
-- Clients of the heap that never free: any sequence of `kmalloc`, `kpagealloc` and writes to the
-- bytes that these handed out. `kfree` is left out, since the areas' `prev` fields, by which it
-- merges, may be stale (Heap.Stale).
pub mod Kept
pub mod Safe
mod Tests
use simple_kernel.Base.{
  ℕ, ◌+◌, ◌*◌, ◌/◌, ◌^◌, ◌<◌, Option, none, some, List, [], ◌∷◌, ◌==◌, if◌then◌else◌, ltb,
  get_elem?,
}
use simple_kernel.Memory.{store8}
use simple_kernel.Heap.Header.{null}
use simple_kernel.Heap.Pages.{Pager}
use simple_kernel.Heap.{Kernel, ◌>>=◌, padded, kmalloc}
use simple_kernel.Heap.Paged.{kpagealloc}

-- `write j i v`: the byte `v` at index `i` of the area that was handed out `j` areas ago.
pub data Action : Type 0 where
  malloc : ℕ → Action
  pages : ℕ → Action
  write : ℕ → ℕ → ℕ → Action

-- The areas that were handed out, the last one first: their addresses and sizes.
abbrev pub Areas : Type 0
Areas = List (ℕ × ℕ)

abbrev pub keep : ℕ → ℕ → Areas → Areas
keep ptr size areas = if ptr == null then areas else (ptr, size) ∷ areas

module _ (pager : Pager) where
  open pager use {Vm}

  -- A write outside of the area is no action of such a client, and does nothing. One to a byte
  -- that is not mapped is a fault.
  abbrev pub write_byte : Option (ℕ × ℕ) → ℕ → ℕ → Kernel Vm → Option (Kernel Vm)
  write_byte none i v k = some k
  write_byte (some (ptr, size)) i v k =
      if ltb i size
      then (if pager.is_mapped k.vm (ptr + i)
          then some (record k { mem = store8 k.mem (ptr + i) v })
          else none)
      else some k

  unfoldable pub act : Action → Kernel Vm × Areas → Option (Kernel Vm × Areas)
  act (malloc size) (k, areas) = do (ptr, k') ← kmalloc pager size k; some (k', keep ptr size areas)
  act (pages n) (k, areas) = do
    (ptr, k') ← kpagealloc pager n k
    some (k', keep ptr (n * 4096) areas)
  act (write j i v) (k, areas) = do k' ← write_byte (get_elem? areas j) i v k; some (k', areas)

  unfoldable pub run : List Action → Kernel Vm × Areas → Option (Kernel Vm × Areas)
  run [] s = some s
  run (action ∷ actions) s = act action s >>= run actions

-- The free pages that an action may take.
unfoldable pub cost : Action → ℕ
cost (malloc size) = 2 * (padded size / 4096 + 2)
cost (pages n) = 2 * (n + 1)
cost (write j i v) = 0

abbrev pub total_cost : List Action → ℕ
total_cost [] = 0
total_cost (action ∷ actions) = cost action + total_cost actions

-- Sizes that are not zero and do not wrap.
abbrev pub IsFine : Action → Type 0
IsFine (malloc size) = (0 < size) × (size + 15 < 2 ^ 32)
IsFine (pages n) = (0 < n) × (n * 4096 < 2 ^ 32)
IsFine (write j i v) = Unit {0}

abbrev pub AllFine : List Action → Type 0
AllFine [] = Unit {0}
AllFine (action ∷ actions) = IsFine action × AllFine actions
