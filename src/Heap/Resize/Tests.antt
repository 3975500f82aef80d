-- ===== src/Heap/Resize/Tests.antt =====
-- `krealloc` of the first of two areas, from 16 to 40 bytes.
use simple_kernel.Base.{
  ℕ, ◌+◌, ◌-◌, ◌*◌, ◌/◌, ◌≤◌, ◌<◌, ◌≡◌, ◌⊎◌, inl, refl, arith, true, false, some, List, [], ◌∷◌,
}
use simple_kernel.Memory.{Memory, load32, store32}
use simple_kernel.Heap.Header.{heap_start, heap_end, null, get_prev_address}
use simple_kernel.Heap.{Kernel, padded, kmalloc, krealloc}
use simple_kernel.Heap.Layout.{Block, block, Heap}
use simple_kernel.Heap.Samples.{counting, fresh}
use simple_kernel.Heap.Resize.Grown.{IsMoved, krealloc-Resized}

abbrev two_blocks : List Block
two_blocks = block 16 true ∷ block (heap_end - heap_start - 32) false ∷ []

abbrev held : Memory
held =
    store32 (store32 (store32 fresh heap_start (heap_start + 25)) (heap_start + 24) heap_end)
      (heap_start + 28) heap_start

held-Heap : Heap held two_blocks
unfolding load32 store32
held-Heap = record {
  areas = (
    record { aligned = refl; whole = refl; word = refl },
    (record { aligned = refl; whole = refl; word = refl }, refl),
  );
  epsilon = refl;
}

no_predecessor : get_prev_address held heap_start ≡ null
unfolding get_prev_address load32 store32
no_predecessor = refl

abbrev held_kernel : Kernel ℕ
held_kernel = record { mem = held; vm = 100; ran = true }

supplied : 3 + 2 * (padded 40 / 4096 + 2) ≤ 100
unfolding padded
supplied = omega arith

krealloc-Resized_example :
    ((40 ≤ 16)
      × (krealloc counting (heap_start + 8) 40 held_kernel ≡ some (heap_start + 8, held_kernel)))
    ⊎ ((16 < 40)
        × (new : ℕ) × (k₁ : Kernel ℕ) × (kmalloc counting 40 held_kernel ≡ some (new, k₁))
        × (3 ≤ k₁.vm)
        × (((new ≡ null)
              × (k₁.mem ≡ held)
              × (krealloc counting (heap_start + 8) 40 held_kernel ≡ some (null, k₁)))
            ⊎ IsMoved counting two_blocks
                (heap_start + 8)
                16
                40
                new
                held_kernel
                k₁
                (krealloc counting (heap_start + 8) 40 held_kernel)))
krealloc-Resized_example =
    krealloc-Resized counting [] [] 16 (heap_end - heap_start - 32) false 40 held_kernel held-Heap
      (omega arith) (omega arith) 3 (inl no_predecessor) supplied
