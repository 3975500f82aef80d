-- ===== src/Heap/Free.antt =====
-- `kfree` and `merge_free_areas` on an area with an area on either side.
use simple_kernel.Base.{
  ℕ, ◌+◌, ◌^◌, ◌≤◌, ◌<◌, ◌≡◌, ◌⊎◌, inl, inr, sym, ap, ◌∙◌, subst, arith, Bool, true, false, List,
  some, [], ◌∷◌, ◌++◌, ◌==◌, bit_and, complement32,
}
use simple_kernel.Memory.{Memory, Apart}
use simple_kernel.Heap.Header.{
  header_size, null, heap_start, heap_end, set_area_used, get_area_used, get_prev_address,
  prev_field,
}
use simple_kernel.Heap.{kfree, merge_free_areas, sub32}
use simple_kernel.Heap.Layout.{
  Block, block, span, IsHeader, Segment, Heap, next_of_header, used_of_header,
}
use simple_kernel.Heap.Write.{load32-set_unused_self, load32-set_used-Apart}
use simple_kernel.Heap.Replace.{Apart-outside, Heap-replace, Segment-middle, span_bound}
use simple_kernel.Heap.Merge.{coalesce, merged, merge_free_areas-merged, merged-Segment}

module _ (m : Memory) (a : ℕ) (b : Block) (head : IsHeader m a b) where
  pub unmark-IsHeader : IsHeader (set_area_used m a false) a (block b.size false)
  unmark-IsHeader = record {
    aligned = head.aligned;
    whole = head.whole;
    word = ground (arith, load32-set_unused_self m a, head.word, head.aligned, head.whole);
  }

-- A header that stands elsewhere survives that.
pub IsHeader-kept :
    (m : Memory) (a c : ℕ) (u : Bool) (b : Block)
    → Apart a c
    → IsHeader m c b
    → IsHeader (set_area_used m a u) c b
IsHeader-kept m a c u b apart head = record {
  aligned = head.aligned;
  whole = head.whole;
  word = load32-set_used-Apart m a c u apart ∙ head.word;
}

pub prev_kept :
    (m : Memory) (a : ℕ) (u : Bool)
    → get_prev_address (set_area_used m a u) a ≡ get_prev_address m a
unfolding get_prev_address
prev_kept m a u =
    ap (λ x. bit_and x (complement32 7))
      (load32-set_used-Apart m a (prev_field a) u (inl (omega arith)))

pub kfree-merge :
    (m : Memory) (a : ℕ)
    → a + header_size < 2 ^ 32
    → get_area_used m a ≡ true
    → kfree m (a + header_size) ≡ merge_free_areas (set_area_used m a false) a
unfolding kfree
kfree-merge m a small used =
    let back : sub32 (a + header_size) header_size ≡ a = omega arith in
    let ne : (a + header_size == null) ≡ false = ground arith in rw (ne, back, used)

module _ (m : Memory) (front rest : List Block) (p s t : ℕ) (v w : Bool)
    (heap : Heap m (front ++ block p v ∷ block s true ∷ block t w ∷ rest)) where
  abbrev left : ℕ
  left = heap_start + span front

  abbrev mid : List Block
  mid = block p v ∷ block s true ∷ block t w ∷ []

  parts : Segment m left mid (left + span mid)
  parts = Segment-middle m m front mid rest heap

  abbrev area : ℕ
  area = left + header_size + p

  abbrev next : ℕ
  next = area + header_size + s

  abbrev na : ℕ
  na = next + header_size + t

  abbrev unmarked : Memory
  unmarked = set_area_used m area false

  limit : na ≤ heap_end
  limit = omega (arith, span_bound m m front mid rest heap)

  new_prev : IsHeader unmarked left (block p v)
  new_prev = IsHeader-kept m area left false (block p v) (inr (omega arith)) parts.0

  new_area : IsHeader unmarked area (block s false)
  new_area = unmark-IsHeader m area (block s true) parts.1.0

  new_next : IsHeader unmarked next (block t w)
  new_next = IsHeader-kept m area next false (block t w) (inl (omega arith)) parts.1.1.0

  kfree_result :
      get_prev_address m area ≡ left
      → kfree m (area + header_size) ≡ some (merged unmarked left area next na v w)
  kfree_result linked =
      kfree-merge m area (omega (arith, limit)) (used_of_header m area (block s true) parts.1.0)
      ∙ merge_free_areas-merged unmarked left area next na v w (prev_kept m area false ∙ linked)
          (next_of_header unmarked area (block s false) new_area)
          (next_of_header unmarked next (block t w) new_next)
          (used_of_header unmarked left (block p v) new_prev)
          (used_of_header unmarked next (block t w) new_next) (ground arith) (ground arith)
          (λ p q. ground arith)

  -- In a heap where an area in use stands between two others and its `prev` field names the one
  -- before it, `kfree` does not fault: it frees that area and merges it with the free ones among its two neighbours:
  -- memory then spells that layout, with every other block as it was.
  pub kfree-coalesce :
      get_prev_address m (left + header_size + p) ≡ left
      → (m' : Memory) × (kfree m (left + header_size + p + header_size) ≡ some m')
        × Heap m' (front ++ (coalesce p v s t w ++ rest))
  kfree-coalesce linked =
      let new = merged unmarked left area next na v w in
      let (seg, same) =
        merged-Segment unmarked left p s t v w new_prev new_area new_next (omega (arith, limit)) in
      let stop : na ≡ left + span mid = omega arith in
      (
        new,
        kfree_result linked,
        Heap-replace m new front mid rest (coalesce p v s t w) heap
            (λ c al h.
              same c al (subst (λ x. (c + 4 ≤ left) ⊎ (x ≤ c)) (sym stop) h)
              ∙ load32-set_used-Apart m area c false (Apart-outside (omega arith) (omega arith) h))
            (subst (λ x. Segment new left (coalesce p v s t w) x) stop seg),
      )
