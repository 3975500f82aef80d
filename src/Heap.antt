-- ===== src/Heap.antt =====
-- The kernel heap of kernel/arch/i386/mem.c: `init_heap`, `kmalloc`, `kcalloc`, `krealloc`,
-- `kpagealloc` and `kfree` over byte memory, with the page tables behind the interface `Pager`.
pub mod Header
pub mod Pages
pub mod Layout
pub mod Search
pub mod Mapping
pub mod Replace
pub mod Allocate
pub mod Merge
pub mod Free
pub mod InUse
pub mod Grant
pub mod Boundary
pub mod Kept
pub mod Resize
pub mod Client
pub mod Clear
pub mod Last
pub mod Stale
pub mod Init
pub mod Paged
pub mod Write
pub mod Samples
mod Tests
use simple_kernel.Base.{
  ℕ, zero, suc, ◌+◌, ◌-◌, ◌*◌, ◌/◌, ◌^◌, bit_and, Bool, true, false, ◌&&◌, ◌||◌, not, Option, none,
  some, List, ◌==◌, ltb, leb, if◌then◌else◌, u32, complement32,
}
use simple_kernel.Memory.{Memory, store32, memset, memcpy}
use Header.{
  header_size, null, heap_start, heap_end, prev_field, get_next_address, set_next_address,
  get_prev_address, set_prev_address, get_area_used, set_area_used, get_area_epsilon,
  set_area_epsilon, get_area_size,
}
use Pages.{Pager, reaches}

-- The state behind the heap's functions: memory, the page tables and the page allocator, and the
-- flag `ran` of `init_heap`.
pub record Kernel (Vm : Type 0) : Type 0 where
  pub mem : Memory
  pub vm : Vm
  pub ran : Bool

infixl 5 ◌>>=◌
abbrev pub ◌>>=◌ : {A B : Type 0} → Option A → (A → Option B) → Option B
none >>= k = none
some x >>= k = k x

-- `a - b` of `size_t`.
abbrev pub sub32 : ℕ → ℕ → ℕ
sub32 a b = u32 (a + 2 ^ 32 - b)

unfoldable pub div_ceil : ℕ → ℕ → ℕ
div_ceil a b = sub32 (u32 (a + b)) 1 / b

-- What `kmalloc` looks for: the size with its padding and a header.
unfoldable pub padded : ℕ → ℕ
unfolding div_ceil
padded size = u32 (div_ceil (u32 (size + header_size)) 8 * 8)

abbrev pub initial_best : ℕ
initial_best = 1073741824

-- The heap has fewer areas than this, and the address space no more pages.
abbrev pub area_rounds : ℕ
area_rounds = 2 ^ 26

abbrev pub page_rounds : ℕ
page_rounds = 2 ^ 20

-- The loop of `kmalloc` from area `a` on, `none` if the rounds run out.
unfoldable pub find_best : ℕ → Memory → ℕ → ℕ → ℕ → ℕ → Option (ℕ × ℕ)
find_best zero m size a best_size best_fit = none
find_best (suc left) m size a best_size best_fit = elim (get_area_epsilon m a) [
  | true ↦ some (best_size, best_fit)
  | false ↦
      let next = get_next_address m a in
      let area_size = get_area_size m a in
      elim (not (get_area_used m a)
        && (ltb size area_size && ltb (sub32 area_size size) (sub32 best_size size))) [
          | true ↦ find_best left m size next area_size a
          | false ↦ find_best left m size next best_size best_fit
        ]
]

-- The header `new` goes in between `area` and its successor.
unfoldable pub insert_header : Memory → ℕ → ℕ → Memory
insert_header m area new =
    let m₁ = store32 m (prev_field new) 0 in
    let m₂ = store32 m₁ new 0 in
    let m₃ = set_next_address m₂ new (get_next_address m₂ area) in
    let m₄ = set_prev_address m₃ new area in set_next_address m₄ area new

module _ (pager : Pager) where
  open pager use {Vm, get_physaddr, get_page, map_page}

  -- Maps the pages from `p` to `last` that are not mapped yet.
  unfoldable pub map_pages : ℕ → ℕ → ℕ → ℕ → Vm → Option Vm
  map_pages flags zero p last vm = none
  map_pages flags (suc left) p last vm = elim (leb p last) [
    | false ↦ some vm
    | true ↦ do
      pa ← get_physaddr p vm
      elim (pa == null) [
        | false ↦ map_pages flags left (u32 (p + 4096)) last vm
        | true ↦ do
          (page, vm₁) ← get_page vm
          (code, vm₂) ← map_page page p flags vm₁
          map_pages flags left (u32 (p + 4096)) last vm₂
      ]
  ]

  -- `kmalloc` behind its loop, on the area `best_fit` of `best_size` bytes.
  unfoldable pub take_area : ℕ → ℕ → ℕ → Kernel Vm → Option (ℕ × Kernel Vm)
  take_area size best_size best_fit k =
      if ltb (header_size * 2) (sub32 best_size size)
      then (do
        let new = u32 (best_fit + size)
        let start_page = bit_and best_fit (complement32 0xFFF)
        let end_page = bit_and new (complement32 0xFFF)
        vm ← map_pages 0x103 page_rounds start_page end_page k.vm
        let m = insert_header k.mem best_fit new
        some (best_fit + header_size, record k { mem = set_area_used m best_fit true; vm = vm }))
      else some (best_fit + header_size, record k { mem = set_area_used k.mem best_fit true })

  unfoldable pub kmalloc : ℕ → Kernel Vm → Option (ℕ × Kernel Vm)
  kmalloc size k = if size == 0 then some (null, k) else do
    (best_size, best_fit) ← find_best area_rounds k.mem (padded size) heap_start initial_best null
    if best_fit == null then some (null, k) else take_area (padded size) best_size best_fit k

  -- `none` as well where `memset` comes to a byte that is not mapped.
  unfoldable pub kcalloc : ℕ → ℕ → Kernel Vm → Option (ℕ × Kernel Vm)
  kcalloc nmemb size k =
      let total = u32 (nmemb * size) in
      if nmemb == 0 || size == 0
      then some (null, k)
      else if not (size == total / nmemb)
      then some (null, k)
      else (do
        (km, k') ← kmalloc total k
        if km == null
            then some (km, k')
            else if reaches (pager.is_mapped k'.vm) km total
            then some (km, record k' { mem = memset k'.mem km 0 total })
            else none)

-- `none` is the page fault of a write through `NULL`: the boot code unmaps the first 4 MB.
unfoldable pub merge_free_areas : Memory → ℕ → Option Memory
merge_free_areas m area =
    let prev = get_prev_address m area in
    let next = get_next_address m area in
    let merge_towards_root = not (prev == null) && not (get_area_used m prev) in
    let merge_towards_tail = not (next == null) && not (get_area_used m next) in
    if merge_towards_root && merge_towards_tail
    then (let na = get_next_address m next in
        let m₁ = set_next_address m prev na in
        if na == null then none else some (set_prev_address m₁ na prev))
    else if merge_towards_tail
    then some (set_prev_address (set_next_address m area (get_next_address m next)) next area)
    else if merge_towards_root
    then (if next == null
        then none
        else some (set_next_address (set_prev_address m next prev) prev next))
    else some m

unfoldable pub kfree : Memory → ℕ → Option Memory
kfree m ptr =
    let a = sub32 ptr header_size in
    if ptr == null
    then some m
    else if not (get_area_used m a)
    then some m
    else merge_free_areas (set_area_used m a false) a

-- `none` as well where `memcpy` comes to a byte that is not mapped.
unfoldable pub krealloc : (pager : Pager) → ℕ → ℕ → Kernel pager.Vm → Option (ℕ × Kernel pager.Vm)
krealloc pager ptr size k =
    let area_size = get_area_size k.mem (sub32 ptr header_size) in
    if size == 0
    then some (null, k)
    else if ptr == null
    then kmalloc pager size k
    else if leb size area_size
    then some (ptr, k)
    else (do
      (new, k') ← kmalloc pager size k
      if new == null
          then some (null, k')
          else if reaches (pager.is_mapped k'.vm) ptr area_size
              && reaches (pager.is_mapped k'.vm) new area_size
          then (do
            m ← kfree (memcpy k'.mem new ptr area_size) ptr
            some (new, record k' { mem = m }))
          else none)
