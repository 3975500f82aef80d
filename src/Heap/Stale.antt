-- ===== src/Heap/Stale.antt =====
-- An area whose `prev` field names an area further back than the one before it.
use simple_kernel.Base.{
  ℕ, ◌+◌, ◌≤◌, ◌≡◌, inl, inr, ap, ◌∙◌, subst, arith, some, true, false, List, [], ◌∷◌, ◌++◌,
  bit_and, complement32,
}
use simple_kernel.Memory.{Memory}
use simple_kernel.Heap.Header.{
  header_size, heap_start, heap_end, set_area_used, get_prev_address, prev_field, set_next_address,
  set_prev_address,
}
use simple_kernel.Heap.{kfree}
use simple_kernel.Heap.Layout.{
  Block, block, span, IsHeader, Segment, Heap, next_of_header, used_of_header,
}
use simple_kernel.Heap.Write.{
  load32-set_next_self, load32-set_next-Apart, load32-set_prev-Apart, load32-set_used-Apart,
}
use simple_kernel.Heap.Replace.{
  SameOutside, SameHeaders, Apart-outside, Heap-replace, Segment-middle, span_bound,
}
use simple_kernel.Heap.Merge.{merged, merge_free_areas-merged}
use simple_kernel.Heap.Free.{kfree-merge, prev_kept, IsHeader-kept, unmark-IsHeader}

-- What `kmalloc` makes of a free block leaves the `prev` field of the area behind it as it was: it
-- names the start of that block, also when a new free block stands in between.
pub prev_behind :
    (m m' : Memory) (a s : ℕ)
    → SameOutside a (a + header_size + s) m m'
    → get_prev_address m' (a + header_size + s) ≡ get_prev_address m (a + header_size + s)
unfolding get_prev_address
prev_behind m m' a s same =
    ap (λ x. bit_and x (complement32 7))
      (same (prev_field (a + header_size + s)) (inr (omega arith)))

module _ (m : Memory) (front rest : List Block) (p q s t : ℕ)
    (heap : Heap m
      (front ++ block p false ∷ block q true ∷ block s true ∷ block t true ∷ rest)) where
  abbrev left : ℕ
  left = heap_start + span front

  abbrev mid : List Block
  mid = block p false ∷ block q true ∷ block s true ∷ block t true ∷ []

  abbrev between : ℕ
  between = left + header_size + p

  abbrev area : ℕ
  area = between + header_size + q

  abbrev next : ℕ
  next = area + header_size + s

  abbrev stop : ℕ
  stop = next + header_size + t

  parts : Segment m left mid (left + span mid)
  parts = Segment-middle m m front mid rest heap

  limit : stop ≤ heap_end
  limit = omega (arith, span_bound m m front mid rest heap)

  abbrev unmarked : Memory
  unmarked = set_area_used m area false

  abbrev linked : Memory
  linked = set_prev_address unmarked next left

  abbrev freed : Memory
  freed = set_next_address linked left next

  new_left : IsHeader unmarked left (block p false)
  new_left = IsHeader-kept m area left false (block p false) (inr (omega arith)) parts.0

  new_area : IsHeader unmarked area (block s false)
  new_area = unmark-IsHeader m area (block s true) parts.1.1.0

  new_next : IsHeader unmarked next (block t true)
  new_next = IsHeader-kept m area next false (block t true) (inl (omega arith)) parts.1.1.1.0

  kfree-freed : get_prev_address m area ≡ left → kfree m (area + header_size) ≡ some freed
  unfolding merged
  kfree-freed stale =
      kfree-merge m area (omega (arith, limit)) (used_of_header m area (block s true) parts.1.1.0)
      ∙ merge_free_areas-merged unmarked left area next stop false true
          (prev_kept m area false ∙ stale) (next_of_header unmarked area (block s false) new_area)
          (next_of_header unmarked next (block t true) new_next)
          (used_of_header unmarked left (block p false) new_left)
          (used_of_header unmarked next (block t true) new_next) (ground arith) (ground arith)
          (λ p q. cc)

  freed_left : IsHeader freed left (block (p + header_size + q + header_size + s) false)
  freed_left = record {
    aligned = new_left.aligned;
    whole = omega (arith, new_left.whole, parts.1.0.whole, new_area.whole);
    word = omega (
      arith,
      load32-set_next_self linked left next new_next.aligned (omega (arith, limit)),
      load32-set_prev-Apart unmarked next left left (inr (omega arith)),
      new_left.word,
      new_left.aligned,
      new_left.whole,
    );
  }

  freed_next : IsHeader freed next (block t true)
  freed_next = record {
    aligned = new_next.aligned;
    whole = new_next.whole;
    word =
        load32-set_next-Apart linked left next next (inl (omega arith))
        ∙ load32-set_prev-Apart unmarked next left next (inr (omega arith))
        ∙ new_next.word;
  }

  freed_same : SameHeaders left stop m freed
  freed_same c al h =
      load32-set_next-Apart linked left next c (Apart-outside (omega arith) (omega arith) h)
      ∙ load32-set_prev-Apart unmarked next left c (Apart-outside (omega arith) (omega arith) h)
      ∙ load32-set_used-Apart m area c false (Apart-outside (omega arith) (omega arith) h)

  abbrev after : List Block
  after = block (p + header_size + q + header_size + s) false ∷ block t true ∷ []

  -- In a heap with a free area, two in use behind it and one more in use behind those, where the
  -- `prev` field of the second in use names the free one, `kfree` of that second area merges it with
  -- the free one over the first: memory then spells a layout in which the first area, which is still
  -- in use, is part of a free block.
  pub kfree-swallows :
      get_prev_address m (left + header_size + p + header_size + q) ≡ left
      → (m' : Memory) × (kfree m (left + header_size + p + header_size + q + header_size) ≡ some m')
        × Heap m' (front ++ (after ++ rest))
  kfree-swallows stale =
      let end : stop ≡ left + span mid = omega arith in
      let next_at : next ≡ left + header_size + (p + header_size + q + header_size + s) =
        omega arith in
      (
        freed,
        kfree-freed stale,
        Heap-replace m freed front mid rest after heap
            (subst (λ x. SameHeaders left x m freed) end freed_same)
            (
              freed_left,
              (subst (λ x. IsHeader freed x (block t true)) next_at freed_next, omega arith),
            ),
      )
