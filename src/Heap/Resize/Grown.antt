-- ===== src/Heap/Resize/Grown.antt =====
-- `krealloc` of an area in use.
use simple_kernel.Base.{
  ℕ, ◌+◌, ◌-◌, ◌*◌, ◌/◌, ◌^◌, ◌≤◌, ◌<◌, ◌≡◌, ◌⊎◌, inl, inr, refl, ap, sym, ◌∙◌, subst, arith, Bool,
  true, false, Option, none, some, List, [], ◌∷◌, ◌++◌, ◌==◌, ◌&&◌, leb, if◌then◌else◌, Bool-cases,
}
use simple_kernel.Memory.{Memory, load32, memcpy}
use simple_kernel.Heap.Header.{
  header_size, null, heap_start, heap_end, get_prev_address, get_area_size, get_area_used,
}
use simple_kernel.Heap.Pages.{Pager, reaches}
use simple_kernel.Heap.{Kernel, padded, kmalloc, kfree, krealloc, sub32}
use simple_kernel.Heap.Layout.{Block, block, span, IsHeader, Heap, size_of_header}
use simple_kernel.Heap.Replace.{Segment-middle, span_bound}
use simple_kernel.Heap.InUse.{InUse, InUse-later}
use simple_kernel.Heap.Boundary.{IsHeaderOrNull}
use simple_kernel.Heap.Allocate
use simple_kernel.Heap.Allocate.{carve, padded_lem, kmalloc-Returned}
use simple_kernel.Heap.Grant.{carve_lem}
use simple_kernel.Heap.Resize.{Moved, Moved-copy}

-- `krealloc` moved the area at `ptr` to `new`: it frees the old one and takes the new one into use. A
-- byte of either that is not mapped is a fault.
abbrev pub IsMoved :
    (pager : Pager)
    → List Block
    → ℕ
    → ℕ
    → ℕ
    → ℕ
    → Kernel pager.Vm
    → Kernel pager.Vm
    → Option (ℕ × Kernel pager.Vm)
    → Type 0
IsMoved pager bs ptr s size new k k₁ result =
    (m : Memory) × (result ≡ (
      if reaches (pager.is_mapped k₁.vm) ptr s && reaches (pager.is_mapped k₁.vm) new s
      then some (new, record k₁ { mem = m })
      else none))
    × Moved bs ptr s size new k.mem m
    × (get_area_used m (ptr - header_size) ≡ false)
    × (get_area_used m (new - header_size) ≡ true)

module _ (pager : Pager) (front rest : List Block) (s t : ℕ) (w : Bool) (size : ℕ)
    (k : Kernel pager.Vm) (heap : Heap k.mem (front ++ block s true ∷ block t w ∷ rest))
    (pos : 0 < size) (no_wrap : size + 15 < 2 ^ 32) where
  open pager use {Vm, Supplies}

  abbrev back : List Block
  back = block t w ∷ rest

  abbrev area : ℕ
  area = heap_start + span front

  abbrev ptr : ℕ
  ptr = area + header_size

  abbrev blocks : List Block
  blocks = front ++ block s true ∷ back

  head : IsHeader k.mem area (block s true)
  head = (Segment-middle k.mem k.mem front (block s true ∷ []) back heap).0

  size_ne : (size == 0) ≡ false
  size_ne = ground arith

  ptr_ne : (ptr == null) ≡ false
  ptr_ne = ground arith

  area_size : get_area_size k.mem (sub32 ptr header_size) ≡ s
  area_size =
      let high = span_bound k.mem k.mem front (block s true ∷ []) back heap in
      let at : sub32 ptr header_size ≡ area = omega arith in
      ap (get_area_size k.mem) at ∙ size_of_header k.mem area (block s true) head

  krealloc-fits : size ≤ s → krealloc pager ptr size k ≡ some (ptr, k)
  unfolding krealloc
  krealloc-fits h =
      let fits : leb size s ≡ true = ground arith in rw (area_size, size_ne, ptr_ne, fits) refl

  krealloc-null :
      (k' : Kernel Vm)
      → s < size
      → kmalloc pager size k ≡ some (null, k')
      → krealloc pager ptr size k ≡ some (null, k')
  unfolding krealloc
  krealloc-null k' h e =
      let grows : leb size s ≡ false = ground arith in
      rw (area_size, size_ne, ptr_ne, grows, e) refl

  krealloc-moves :
      (new : ℕ) (k' : Kernel Vm) (m : Memory)
      → s < size
      → kmalloc pager size k ≡ some (new, k')
      → (new == null) ≡ false
      → kfree (memcpy k'.mem new ptr s) ptr ≡ some m
      → krealloc pager ptr size k ≡ (
          if reaches (pager.is_mapped k'.vm) ptr s && reaches (pager.is_mapped k'.vm) new s
          then some (new, record k' { mem = m })
          else none)
  unfolding krealloc
  krealloc-moves new k' m h e there freed =
      let grows : leb size s ≡ false = ground arith in
      rw (area_size, size_ne, ptr_ne, grows, e, there, freed) refl

  in_use : InUse heap_start blocks ptr s
  in_use = InUse-later heap_start front (block s true ∷ back) ptr s (inl (refl, refl, omega arith))

  area_word : load32 k.mem area ≡ ptr + s + 1
  area_word = head.word

  more : ptr + s < heap_end
  more =
      let high = span_bound k.mem k.mem front (block s true ∷ block t w ∷ []) rest heap in
      omega arith

  moved :
      (new : ℕ) (k₁ : Kernel Vm)
      → s < size
      → IsHeaderOrNull blocks (get_prev_address k.mem area)
      → kmalloc pager size k ≡ some (new, k₁)
      → (m₁ : Memory) → k₁.mem ≡ m₁
      → Allocate.Outcome (padded size) blocks k.mem new m₁
      → ((new ≡ null) × (k₁.mem ≡ k.mem) × (krealloc pager ptr size k ≡ some (null, k₁)))
        ⊎ IsMoved pager blocks ptr s size new k k₁ (krealloc pager ptr size k)
  moved _ k₁ h link e _ same (Allocate.refused none_fits) = inl (refl, same, krealloc-null k₁ h e)
  moved _ k₁ h link e m₁ here (Allocate.granted before after free best heap' same) =
      let new = heap_start + span before + header_size in
      let (whole, used) =
        carve_lem (heap_start + span before) (padded size) free size best.fits
          (omega (arith, padded_lem size no_wrap)) in
      let there : (new == null) ≡ false = ground arith in
      let back' : ptr - header_size ≡ area = omega arith in
      let (m, freed, bytes, old_mark, new_mark) =
        Moved-copy k.mem m₁ before after (carve (padded size) free) free ptr s size new
          (subst (λ bs. InUse heap_start bs ptr s) best.place in_use)
          (subst (λ bs. IsHeaderOrNull bs (get_prev_address k.mem (ptr - header_size))) best.place
            (subst (λ x. IsHeaderOrNull blocks (get_prev_address k.mem x)) (sym back') link))
          whole heap' used h (subst (λ x. load32 k.mem x ≡ ptr + s + 1) (sym back') area_word) more
          same in
      inr (
        m,
        krealloc-moves new k₁ m h e there (ap (λ x. kfree (memcpy x new ptr s) ptr) here ∙ freed),
        subst (λ bs. Moved bs ptr s size new k.mem m) (sym best.place) bytes,
        old_mark,
        new_mark,
      )

  -- `krealloc` of an area in use that is not the last one, to a size that is not zero and does not
  -- wrap, with a page allocator that can back the new area and a `prev` field that is `NULL` or the
  -- address of some header. Where the size fits, it returns the same address and changes nothing.
  -- Otherwise `kmalloc` of the size returns, and where that is `NULL`, `krealloc` returns `NULL` and
  -- memory is as it was. Where it is not, `krealloc` returns that address, unless a byte of either
  -- area that is to be copied is not mapped, which is a fault: the bytes there are the old area's,
  -- the bytes of every area that was in use are as they were, the old area's header is free and the
  -- new one's is in use.
  pub krealloc-Resized :
      (n : ℕ)
      → IsHeaderOrNull
          (front ++ block s true ∷ block t w ∷ rest)
          (get_prev_address k.mem (heap_start + span front))
      → Supplies (n + 2 * (padded size / 4096 + 2)) k.vm
      → let ptr' = heap_start + span front + header_size in
        let result = krealloc pager ptr' size k in
        ((size ≤ s) × (result ≡ some (ptr', k)))
        ⊎ ((s < size)
            × (new : ℕ) × (k₁ : Kernel Vm) × (kmalloc pager size k ≡ some (new, k₁))
            × Supplies n k₁.vm
            × (((new ≡ null) × (k₁.mem ≡ k.mem) × (result ≡ some (null, k₁)))
                ⊎ IsMoved pager
                    (front ++ block s true ∷ block t w ∷ rest)
                    ptr'
                    s
                    size
                    new
                    k
                    k₁
                    result))
  krealloc-Resized n link supplies = elim (Bool-cases (leb size s)) [
    | inl fits ↦ inl (ground arith, krealloc-fits (ground arith))
    | inr grows ↦
        let h : s < size = ground arith in
        let r = kmalloc-Returned pager n size blocks k heap pos no_wrap supplies in
        inr (
          h,
          r.ptr,
          r.state,
          r.returns,
          r.supplies,
          moved r.ptr r.state h link r.returns r.state.mem refl r.outcome,
        )
  ]
