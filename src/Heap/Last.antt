-- ===== src/Heap/Last.antt =====
-- `kfree` of the last area of the heap.
use simple_kernel.Base.{
  ℕ, ◌+◌, ◌≡◌, inl, inr, refl, ap, ◌∙◌, arith, some, true, false, List, [], ◌∷◌, ◌++◌, ◌==◌,
  bit_and, complement32,
}
use simple_kernel.Memory.{Memory, load32}
use simple_kernel.Heap.Header.{
  header_size, null, heap_start, heap_end, set_area_used, get_area_used, get_next_address,
  get_prev_address, set_next_address,
}
use simple_kernel.Heap.{kfree}
use simple_kernel.Heap.Layout.{
  Block, block, span, IsHeader, Segment, Segment-split, Heap, next_of_header, used_of_header,
}
use simple_kernel.Heap.Write.{load32-set_next_self, load32-set_prev-Apart, load32-set_used-Apart}
use simple_kernel.Heap.Replace.{Segment-middle}
use simple_kernel.Heap.Merge.{merged, merge_free_areas-merged}
use simple_kernel.Heap.Free.{kfree-merge, prev_kept, IsHeader-kept, unmark-IsHeader}

module _ (m : Memory) (front : List Block) (p s : ℕ)
    (heap : Heap m (front ++ block p true ∷ block s true ∷ [])) where
  abbrev left : ℕ
  left = heap_start + span front

  abbrev mid : List Block
  mid = block p true ∷ block s true ∷ []

  abbrev area : ℕ
  area = left + header_size + p

  parts : Segment m left mid (left + span mid)
  parts = Segment-middle m m front mid [] heap

  at_end : area + header_size + s ≡ heap_end
  at_end = (Segment-split m heap_start front mid heap_end heap.areas).1.1.1

  abbrev unmarked : Memory
  unmarked = set_area_used m area false

  last_word : load32 unmarked heap_end ≡ 2
  last_word =
      load32-set_used-Apart m area heap_end false (inl (omega (arith, at_end))) ∙ heap.epsilon

  last_next : get_next_address unmarked heap_end ≡ null
  unfolding get_next_address
  last_next = ap (λ w. bit_and w (complement32 7)) last_word

  last_used : get_area_used unmarked heap_end ≡ false
  unfolding get_area_used
  last_used = ap (λ w. bit_and w 1 == 1) last_word

  new_area : IsHeader unmarked area (block s false)
  new_area = unmark-IsHeader m area (block s true) parts.1.0

  abbrev freed : Memory
  freed = merged unmarked left area heap_end null true false

  kfree-freed : get_prev_address m area ≡ left → kfree m (area + header_size) ≡ some freed
  kfree-freed linked =
      kfree-merge m area (omega (arith, at_end)) (used_of_header m area (block s true) parts.1.0)
      ∙ merge_free_areas-merged unmarked left area heap_end null true false
          (prev_kept m area false ∙ linked)
          (next_of_header unmarked area (block s false) new_area ∙ at_end) last_next
          (used_of_header unmarked left (block p true)
            (IsHeader-kept m area left false (block p true) (inr (omega arith)) parts.0))
          last_used (ground arith) refl (λ p q. cc)

  freed_word : load32 freed area ≡ 0
  unfolding merged
  freed_word =
      load32-set_prev-Apart (set_next_address unmarked area null) heap_end area area
        (inr (omega (arith, at_end)))
      ∙ load32-set_next_self unmarked area null refl (omega arith)
      ∙ omega (arith, new_area.word, new_area.aligned, new_area.whole)

  freed_next : get_next_address freed area ≡ null
  unfolding get_next_address
  freed_next = ap (λ w. bit_and w (complement32 7)) freed_word

  -- The area at `heap_end` is never marked as used, so freeing the last area of the heap, in use
  -- behind one in use, merges with it: the area's next is `NULL` then.
  pub get_next_address-kfree :
      get_prev_address m area ≡ left
      → (m' : Memory) × (kfree m (area + header_size) ≡ some m') × (get_next_address m' area ≡ null)
  get_next_address-kfree linked = (freed, kfree-freed linked, freed_next)
