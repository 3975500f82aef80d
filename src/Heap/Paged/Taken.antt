-- ===== src/Heap/Paged/Taken.antt =====
-- `kpagealloc` behind its search, on a block whose payload starts at a page.
use simple_kernel.Base.{
  ℕ, ◌+◌, ◌-◌, ◌*◌, ◌%◌, ◌^◌, ◌≤◌, ◌<◌, ◌≡◌, inl, inr, refl, subst, arith, Bool, true, false,
  Option, some, List, [], ◌∷◌, ltb, if◌then◌else◌, Bool-cases, u32,
}
use simple_kernel.Memory.{Memory}
use simple_kernel.Heap.Header.{header_size, heap_end, set_area_used}
use simple_kernel.Heap.Pages.{Pager}
use simple_kernel.Heap.{Kernel, page_rounds, insert_header}
use simple_kernel.Heap.Layout.{Block, block, IsHeader, Segment}
use simple_kernel.Heap.Mapping.{map_pages_total}
use simple_kernel.Heap.Replace.{
  SameOutside, mark_same, mark-IsHeader, carve_same, carve_first, carve_second,
}
use simple_kernel.Heap.Paged.{take_pages}

-- The free bytes that stay behind `size` bytes of a block of `s` bytes, less a header.
abbrev pub spare_of : ℕ → ℕ → ℕ
spare_of size s = s - (size + header_size * 2)

-- What becomes of a block of `s` bytes whose payload starts at a page.
abbrev pub from_page : ℕ → ℕ → List Block
from_page size s =
    if ltb (header_size * 2) (spare_of size s)
    then block size true ∷ block (s - size - header_size) false ∷ []
    else block s true ∷ []

-- A finished `take_pages` of `size` bytes on the block of `s` bytes at `ret`.
pub record Taken (pager : Pager) (m : Memory) (ret s size n : ℕ)
    (result : Option (ℕ × Kernel pager.Vm)) : Type 0 where
  pub state : Kernel pager.Vm
  pub returns : result ≡ some (ret + header_size, state)
  pub areas : Segment state.mem ret (from_page size s) (ret + header_size + s)
  pub same : SameOutside ret (ret + header_size + s) m state.mem
  pub supplies : pager.Supplies n state.vm

module _ (pager : Pager) (m : Memory) (ret s pages : ℕ) (head : IsHeader m ret (block s false))
    (page : (ret + header_size) % 4096 ≡ 0) (fits : pages * 4096 + header_size * 2 < s)
    (bound : ret + header_size + s ≤ heap_end) where
  open pager use {Vm, Supplies}

  abbrev size : ℕ
  size = pages * 4096

  abbrev marked : Memory
  marked = set_area_used m ret true

  abbrev cut : Memory
  cut = set_area_used (insert_header m ret (ret + (size + header_size))) ret true

  take_pages-whole :
      (n : ℕ) (vm : Vm) (ran : Bool)
      → ltb (header_size * 2) (spare_of size s) ≡ false
      → Supplies n vm
      → Taken pager m ret s size n (
          take_pages pager size
            (spare_of size s)
            (ret + header_size)
            ret
            (record { mem = m; vm = vm; ran = ran }))
  unfolding take_pages
  take_pages-whole n vm ran exact h = rw exact record {
    state = record { mem = marked; vm = vm; ran = ran };
    returns = refl;
    areas = rw exact (mark-IsHeader m ret s head, refl);
    same = λ c h. mark_same m ret s head c h;
    supplies = h;
  }

  module _ (more : ltb (header_size * 2) (spare_of size s) ≡ true) where
    high : size + header_size + header_size ≤ s
    high = omega arith

    below : ret + (size + header_size) < 2 ^ 32
    below = omega (arith, bound)

    whole : (size + header_size) % 8 ≡ 0
    whole = omega arith

    cut_second : IsHeader cut (ret + header_size + size) (block (s - size - header_size) false)
    cut_second =
        subst (λ x. IsHeader cut x (block (s - size - header_size) false)) (omega arith)
          (subst (λ x. IsHeader cut (ret + (size + header_size)) (block x false)) (omega arith)
            (carve_second m ret s head (size + header_size) whole (omega arith) high below))

    cut_first : IsHeader cut ret (block size true)
    cut_first =
        subst (λ x. IsHeader cut ret (block x true)) (omega arith)
          (carve_first m ret s head (size + header_size) whole (omega arith) high below)

    take_pages-split :
        (n : ℕ) (vm : Vm) (ran : Bool)
        → Supplies (n + 2 * (pages + 1)) vm
        → Taken pager m ret s size n (
            take_pages pager size
              (spare_of size s)
              (ret + header_size)
              ret
              (record { mem = m; vm = vm; ran = ran }))
    unfolding take_pages
    take_pages-split n vm ran h =
        let new_eq : u32 (ret + size + header_size) ≡ ret + (size + header_size) =
          omega (arith, below) in
        let (vm', e, h') =
          map_pages_total pager n 0x3 (pages + 1) page_rounds (ret + header_size)
            (ret + (size + header_size)) vm (omega (arith, bound)) page (omega arith)
            (omega (arith, bound)) h in
        rw (more, new_eq, e)
          record {
            state = record { mem = cut; vm = vm'; ran = ran };
            returns = refl;
            areas = rw more (cut_first, (cut_second, omega (arith, high)));
            same = λ c h.
                carve_same m ret s head (size + header_size) whole (omega arith) high below c h;
            supplies = h';
          }

  pub take_pages-Taken :
      (n : ℕ) (vm : Vm) (ran : Bool)
      → Supplies (n + 2 * (pages + 1)) vm
      → Taken pager m ret s size n (
          take_pages pager size
            (spare_of size s)
            (ret + header_size)
            ret
            (record { mem = m; vm = vm; ran = ran }))
  take_pages-Taken n vm ran h = elim (Bool-cases (ltb (header_size * 2) (spare_of size s))) [
    | inr exact ↦ take_pages-whole n vm ran exact (pager.weaken n _ vm h)
    | inl more ↦ take_pages-split more n vm ran h
  ]
