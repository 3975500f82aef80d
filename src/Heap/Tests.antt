-- ===== src/Heap/Tests.antt =====
-- A heap that is one free block, and one of three blocks.
use simple_kernel.Base.{
  not, ◌&&◌, ◌||◌, leb, ltb, if◌then◌else◌, ◌==◌, ℕ, ◌+◌, ◌-◌, ◌*◌, ◌/◌, ◌≤◌, ◌≡◌, refl, arith,
  true, false, none, some, List, [], ◌∷◌,
}
use simple_kernel.Memory.{Memory, load32, store32, load8}
use simple_kernel.Heap.Header.{null, heap_start, heap_end, get_next_address, get_prev_address}
use simple_kernel.Heap.Pages.{reaches}
use simple_kernel.Heap.{Kernel, kmalloc, kcalloc, kfree, padded}
use simple_kernel.Heap.Layout.{Block, block, Heap}
use simple_kernel.Heap.Last.{get_next_address-kfree}
use simple_kernel.Heap.Allocate.{padded-wraps, Returned, kmalloc-Returned}
use simple_kernel.Heap.Samples.{counting, fresh, fresh_blocks, fresh-Heap, fresh_kernel}
use simple_kernel.Heap.Stale.{kfree-swallows}
use simple_kernel.Heap.Clear.{kcalloc-overflow, kcalloc-kmalloc}
use simple_kernel.Tty.{Terminal}
use simple_kernel.Heap.Init.{init_heap, Initialised, init_heap-Initialised}
use simple_kernel.Heap.Paged.{kpagealloc}
use simple_kernel.Heap.Paged.Returned.{PagesReturned, kpagealloc-Returned}
use simple_kernel.Heap.Free.{kfree-coalesce}

supplied : 3 + 2 * (padded 5000 / 4096 + 2) ≤ 100
unfolding padded
supplied = omega arith

kmalloc-Returned_example :
    Returned counting 3 5000 fresh_blocks fresh_kernel (kmalloc counting 5000 fresh_kernel)
kmalloc-Returned_example =
    kmalloc-Returned counting 3 5000 fresh_blocks fresh_kernel fresh-Heap (omega arith)
      (omega arith) supplied

-- A free block, one in use and a free one.
abbrev three_blocks : List Block
three_blocks = block 16 false ∷ block 16 true ∷ block (heap_end - heap_start - 56) false ∷ []

abbrev divided : Memory
divided =
    store32
      (store32
        (store32 (store32 fresh heap_start (heap_start + 24)) (heap_start + 24) (heap_start + 49))
        (heap_start + 28) heap_start)
      (heap_start + 48) heap_end

divided-Heap : Heap divided three_blocks
unfolding load32 store32
divided-Heap = record {
  areas = (
    record { aligned = refl; whole = refl; word = refl },
    (
      record { aligned = refl; whole = refl; word = refl },
      (record { aligned = refl; whole = refl; word = refl }, refl),
    ),
  );
  epsilon = refl;
}

divided_link : get_prev_address divided (heap_start + 24) ≡ heap_start
unfolding get_prev_address load32 store32
divided_link = refl

kfree-coalesce_example :
    (m' : Memory) × (kfree divided (heap_start + 32) ≡ some m')
    × Heap m' (block (heap_end - heap_start - 8) false ∷ [])
kfree-coalesce_example =
    kfree-coalesce divided [] [] 16 16 (heap_end - heap_start - 56) false false divided-Heap
      divided_link

kcalloc-overflow_example : kcalloc counting 0x10000 0x10001 fresh_kernel ≡ some (null, fresh_kernel)
kcalloc-overflow_example =
    kcalloc-overflow counting 0x10000 0x10001 fresh_kernel (omega arith) (omega arith) (omega arith)

-- `kmalloc` of the same size, with what its theorem says it returns.
abbrev allocated :
    Returned counting 3 5000 fresh_blocks fresh_kernel (kmalloc counting 5000 fresh_kernel)
allocated =
    kmalloc-Returned counting 3 5000 fresh_blocks fresh_kernel fresh-Heap (omega arith)
      (omega arith) supplied

kcalloc-kmalloc_example :
    (m : Memory) × (kcalloc counting 5 1000 fresh_kernel ≡ (
      if (allocated.ptr == null)
        || reaches (counting.is_mapped allocated.state.vm) allocated.ptr 5000
      then some (allocated.ptr, record (allocated.state) { mem = m })
      else none))
    × ((b : ℕ)
        → load8 m b ≡ (
            if not (allocated.ptr == null) && (leb allocated.ptr b && ltb b (allocated.ptr + 5000))
            then 0
            else load8 allocated.state.mem b))
kcalloc-kmalloc_example =
    kcalloc-kmalloc counting 5 1000 fresh_kernel (omega arith) (omega arith) (omega arith)
      allocated.returns

padded-wraps_example : padded 0xFFFFFFF8 ≤ 8
padded-wraps_example = padded-wraps 0xFFFFFFF8 (omega arith) (omega arith)

-- Two areas in use, of which the second reaches to the heap's end.
abbrev crowded : Memory
crowded =
    store32 (store32 (store32 fresh heap_start (heap_start + 25)) (heap_start + 24) (heap_end + 1))
      (heap_start + 28) heap_start

crowded-Heap : Heap crowded (block 16 true ∷ block (heap_end - heap_start - 32) true ∷ [])
unfolding load32 store32
crowded-Heap = record {
  areas = (
    record { aligned = refl; whole = refl; word = refl },
    (record { aligned = refl; whole = refl; word = refl }, refl),
  );
  epsilon = refl;
}

crowded_link : get_prev_address crowded (heap_start + 24) ≡ heap_start
unfolding get_prev_address load32 store32
crowded_link = refl

get_next_address-kfree_example :
    (m' : Memory) × (kfree crowded (heap_start + 32) ≡ some m')
    × (get_next_address m' (heap_start + 24) ≡ null)
get_next_address-kfree_example =
    get_next_address-kfree crowded [] 16 (heap_end - heap_start - 32) crowded-Heap crowded_link

-- The kernel before `init_heap`.
abbrev blank_kernel : Kernel ℕ
blank_kernel = record { mem = λ a. 0; vm = 100; ran = false }

abbrev home : Terminal
home = record { row = 0; column = 0; color = 7; buffer = λ j. 0 }

init_heap-Initialised_example :
    (k' : Kernel ℕ) × (t' : Terminal) × (init_heap counting blank_kernel home ≡ some (k', t'))
    × Initialised counting 3 home k' t'
    × (init_heap counting k' t' ≡ some (k', t'))
init_heap-Initialised_example =
    init_heap-Initialised counting 3 blank_kernel home refl (omega arith)

kpagealloc-Returned_example :
    PagesReturned counting 3 0x4000 fresh_blocks fresh_kernel (kpagealloc counting 4 fresh_kernel)
kpagealloc-Returned_example =
    kpagealloc-Returned counting 4 fresh_kernel (omega arith) (omega arith) 3 fresh_blocks
      fresh-Heap (omega arith)

-- A free block and three in use, of which the third names the free one as its predecessor.
abbrev stale : Memory
stale =
    store32
      (store32
        (store32
          (store32
            (store32 (store32 fresh heap_start (heap_start + 24)) (heap_start + 24)
              (heap_start + 49))
            (heap_start + 48) (heap_start + 73))
          (heap_start + 52) heap_start)
        (heap_start + 72) (heap_start + 97))
      (heap_start + 96) heap_end

abbrev behind_stale : List Block
behind_stale = block (heap_end - heap_start - 104) false ∷ []

stale-Heap :
    Heap stale (block 16 false ∷ block 16 true ∷ block 16 true ∷ block 16 true ∷ behind_stale)
unfolding load32 store32
stale-Heap = record {
  areas = (
    record { aligned = refl; whole = refl; word = refl },
    (
      record { aligned = refl; whole = refl; word = refl },
      (
        record { aligned = refl; whole = refl; word = refl },
        (
          record { aligned = refl; whole = refl; word = refl },
          (record { aligned = refl; whole = refl; word = refl }, refl),
        ),
      ),
    ),
  );
  epsilon = refl;
}

stale_link : get_prev_address stale (heap_start + 48) ≡ heap_start
unfolding get_prev_address load32 store32
stale_link = refl

kfree-swallows_example :
    (m' : Memory) × (kfree stale (heap_start + 56) ≡ some m')
    × Heap m' (block 64 false ∷ block 16 true ∷ behind_stale)
kfree-swallows_example = kfree-swallows stale [] behind_stale 16 16 16 16 stale-Heap stale_link
