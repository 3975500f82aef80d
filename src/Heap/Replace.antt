-- ===== src/Heap/Replace.antt =====
-- A write inside a run of blocks exchanges that run in the layout and keeps the blocks around it.
use simple_kernel.Base.{
  ℕ, ◌+◌, ◌-◌, ◌%◌, ◌^◌, ◌≤◌, ◌<◌, ◌≡◌, ◌⊎◌, inl, inr, refl, ◌∙◌, subst, arith, true, false, List,
  ◌++◌,
}
use simple_kernel.Memory.{Memory, load32, Apart}
use simple_kernel.Heap.Header.{header_size, heap_start, heap_end, set_area_used, prev_field}
use simple_kernel.Heap.{insert_header}
use simple_kernel.Heap.Layout.{
  Block, block, span, IsHeader, Segment, Segment-span, Segment-frame, Segment-append, Segment-split,
  Heap, next_of_header,
}
use simple_kernel.Heap.Write.{
  IsInserted, insert_header-IsInserted, load32-set_used_self, load32-set_used-Apart,
}

-- Outside the bytes from `a` up to `b` both memories hold the same words.
abbrev pub SameOutside : ℕ → ℕ → Memory → Memory → Type 0
SameOutside a b m m' = (c : ℕ) → (c + 4 ≤ a) ⊎ (b ≤ c) → load32 m' c ≡ load32 m c

-- The same of the words `next` alone, which stand at multiples of 8.
abbrev pub SameHeaders : ℕ → ℕ → Memory → Memory → Type 0
SameHeaders a b m m' = (c : ℕ) → c % 8 ≡ 0 → (c + 4 ≤ a) ⊎ (b ≤ c) → load32 m' c ≡ load32 m c

pub headers_of_outside :
    (a b b' : ℕ) (m m' : Memory) → b ≡ b' → SameOutside a b m m' → SameHeaders a b' m m'
headers_of_outside a b b' m m' e same = subst (λ x. SameHeaders a x m m') e (λ c al h. same c h)

pub Apart-outside : {a b c w : ℕ} → a ≤ w → w + 4 ≤ b → (c + 4 ≤ a) ⊎ (b ≤ c) → Apart w c
Apart-outside p q (inl h) = inr (omega arith)
Apart-outside p q (inr h) = inl (omega arith)

module _ (m m' : Memory) (before mid after : List Block) where
  pub Heap-replace :
      (mid' : List Block)
      → Heap m (before ++ (mid ++ after))
      → SameHeaders (heap_start + span before) (heap_start + span before + span mid) m m'
      → Segment m' (heap_start + span before) mid' (heap_start + span before + span mid)
      → Heap m' (before ++ (mid' ++ after))
  Heap-replace mid' heap same seg =
      let a = heap_start + span before in
      let (front, rest) = Segment-split m heap_start before (mid ++ after) heap_end heap.areas in
      let (run, back) = Segment-split m a mid after heap_end rest in
      let limit = Segment-span m (a + span mid) after heap_end back in
      record {
        areas =
            Segment-append m' heap_start before (mid' ++ after) a heap_end
              (Segment-frame m m' heap_start before a (λ c al p q. same c al (inl (omega arith)))
                front)
              (Segment-append m' a mid' after (a + span mid) heap_end seg (
                Segment-frame m m' (a + span mid) after heap_end (λ c al p q. same c al (inr p))
                  back));
        epsilon = same heap_end refl (inr (omega arith)) ∙ heap.epsilon;
      }

  pub Segment-middle :
      Heap m (before ++ (mid ++ after))
      → Segment m (heap_start + span before) mid (heap_start + span before + span mid)
  Segment-middle heap =
      let (front, rest) = Segment-split m heap_start before (mid ++ after) heap_end heap.areas in
      (Segment-split m (heap_start + span before) mid after heap_end rest).0

  pub span_bound :
      Heap m (before ++ (mid ++ after)) → heap_start + span before + span mid ≤ heap_end
  span_bound heap =
      let (front, rest) = Segment-split m heap_start before (mid ++ after) heap_end heap.areas in
      let back = (Segment-split m (heap_start + span before) mid after heap_end rest).1 in
      omega (arith, Segment-span m (heap_start + span before + span mid) after heap_end back)

-- Marking an area as used.
module _ (m : Memory) (a s : ℕ) (head : IsHeader m a (block s false)) where
  pub mark_same : SameOutside a (a + header_size + s) m (set_area_used m a true)
  mark_same c h = load32-set_used-Apart m a c true (Apart-outside (omega arith) (omega arith) h)

  pub mark-IsHeader : IsHeader (set_area_used m a true) a (block s true)
  mark-IsHeader = record {
    aligned = head.aligned;
    whole = head.whole;
    word = omega (arith, load32-set_used_self m a, head.word, head.aligned, head.whole);
  }

  -- Splitting it at `need` bytes and marking the first part.
  module _ (need : ℕ) (al : need % 8 ≡ 0) (low : header_size ≤ need) (high : need + header_size ≤ s)
      (small : a + need < 2 ^ 32) where
    abbrev pub carved : Memory
    carved = set_area_used (insert_header m a (a + need)) a true

    inserted : IsInserted m a (a + need) (insert_header m a (a + need))
    inserted =
        insert_header-IsInserted m a (a + need) head.aligned (omega (arith, head.aligned))
          (omega arith) small

    pub carve_same : SameOutside a (a + header_size + s) m carved
    carve_same c h =
        load32-set_used-Apart (insert_header m a (a + need)) a c true
          (Apart-outside (omega arith) (omega arith) h)
        ∙ inserted.elsewhere c (Apart-outside (omega arith) (omega arith) h)
            (Apart-outside (omega arith) (omega arith) h)
            (Apart-outside (omega arith) (omega arith) h)

    pub carve_first : IsHeader carved a (block (need - header_size) true)
    carve_first = record {
      aligned = head.aligned;
      whole = omega (arith, al);
      word = omega (
        arith,
        load32-set_used_self (insert_header m a (a + need)) a,
        inserted.area_word,
        head.word,
        head.aligned,
        head.whole,
        al,
      );
    }

    pub carve_second : IsHeader carved (a + need) (block (s - need) false)
    carve_second = record {
      aligned = omega (arith, al, head.aligned);
      whole = omega (arith, al, head.whole);
      word = omega (
        arith,
        load32-set_used-Apart (insert_header m a (a + need)) a (a + need) true (inl (omega arith)),
        inserted.new_word,
        next_of_header m a (block s false) head,
      );
    }

    pub carve_prev : load32 carved (prev_field (a + need)) ≡ a
    carve_prev =
        load32-set_used-Apart (insert_header m a (a + need)) a (prev_field (a + need)) true
          (inl (omega arith))
        ∙ inserted.new_prev
