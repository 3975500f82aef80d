-- ===== src/Heap/Paged.antt =====
-- `kpagealloc`: an area whose payload starts at a page and has whole pages.
pub mod Split
pub mod Search
pub mod Taken
pub mod Placed
pub mod Returned
use simple_kernel.Base.{
  ℕ, zero, suc, ◌+◌, ◌-◌, ◌*◌, ◌^◌, bit_and, Bool, true, false, ◌&&◌, not, Option, none, some, ltb,
  ◌==◌, if◌then◌else◌, u32, complement32,
}
use simple_kernel.Memory.{Memory, store32}
use simple_kernel.Heap.Header.{
  header_size, null, heap_start, prev_field, get_next_address, set_next_address, set_prev_address,
  get_area_used, set_area_used, get_area_epsilon, get_area_size,
}
use simple_kernel.Heap.Pages.{Pager}
use simple_kernel.Heap.{
  Kernel, ◌>>=◌, sub32, initial_best, area_rounds, page_rounds, insert_header, map_pages,
}

-- The page behind the one that an area's header stands in.
unfoldable pub next_page : ℕ → ℕ
next_page area = u32 (bit_and area (complement32 0xFFF) + 4096)

-- `full_size` before a header is added in front of the page.
unfoldable pub full_size : ℕ → ℕ → ℕ
full_size size area = u32 (size + sub32 (next_page area) area + header_size)

-- Whether the area's own header does not stand right before the page.
abbrev pub has_gap : ℕ → Bool
has_gap area = not (sub32 (next_page area) header_size == area)

unfoldable pub search_size : ℕ → ℕ → ℕ
search_size size area =
    if has_gap area then u32 (full_size size area + header_size) else full_size size area

-- The loop of `kpagealloc` from area `a` on, `none` if the rounds run out.
unfoldable pub find_pages : ℕ → Memory → ℕ → ℕ → ℕ → ℕ → Option (ℕ × ℕ)
find_pages zero m size a best_size best_fit = none
find_pages (suc left) m size a best_size best_fit = elim (get_area_epsilon m a) [
  | true ↦ some (best_size, best_fit)
  | false ↦
      let next = get_next_address m a in
      let area_size = get_area_size m a in
      let full = search_size size a in
      elim (not (get_area_used m a)
        && ((ltb size area_size && ltb (sub32 area_size size) (sub32 best_size size))
            && (ltb full area_size && ltb (sub32 area_size full) (sub32 best_size full)))) [
              | true ↦ find_pages left m size next area_size a
              | false ↦ find_pages left m size next best_size best_fit
            ]
]

-- The header `ret` goes in between `area` and its successor, whose `prev` is set as well.
unfoldable pub insert_before_page : Memory → ℕ → ℕ → Memory
insert_before_page m area ret =
    let next = get_next_address m area in
    let m₁ = store32 m (prev_field ret) 0 in
    let m₂ = store32 m₁ ret 0 in
    let m₃ = set_prev_address m₂ ret area in
    let m₄ = set_next_address m₃ ret next in
    let m₅ = set_prev_address m₄ next ret in set_next_address m₅ area ret

-- The part of `kpagealloc` behind that, on the area at `ret`; `spare` is `best_size - full_size`.
module _ (pager : Pager) where
  open pager use {Vm}

  unfoldable pub take_pages : ℕ → ℕ → ℕ → ℕ → Kernel Vm → Option (ℕ × Kernel Vm)
  take_pages size spare start_page ret k =
      if ltb (header_size * 2) spare
      then (do
        let new = u32 (ret + size + header_size)
        vm ← map_pages pager 0x3 page_rounds start_page new k.vm
        let m = insert_header k.mem ret new
        some (ret + header_size, record k { mem = set_area_used m ret true; vm = vm }))
      else some (ret + header_size, record k { mem = set_area_used k.mem ret true })

  unfoldable pub kpagealloc : ℕ → Kernel Vm → Option (ℕ × Kernel Vm)
  kpagealloc n k = if n == 0 then some (null, k) else (do
    let size = u32 (n * 4096)
    (best_size, best_fit) ← find_pages area_rounds k.mem size heap_start initial_best null
    if best_fit == null
        then some (null, k)
        else (let ret = sub32 (next_page best_fit) header_size in
            let spare = sub32 best_size (full_size size best_fit) in
            if has_gap best_fit
            then take_pages size spare (next_page best_fit) ret
                (record k { mem = insert_before_page k.mem best_fit ret })
            else take_pages size spare (next_page best_fit) best_fit k))
