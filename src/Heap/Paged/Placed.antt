-- ===== src/Heap/Paged/Placed.antt =====
-- `kpagealloc` behind its search: the block that was found, in the new layout.
use simple_kernel.Base.{
  ℕ, ◌+◌, ◌-◌, ◌*◌, ◌≤◌, ◌<◌, ◌≡◌, inl, inr, refl, ap, ◌∙◌, sym, subst, arith, true, false, not,
  Option, some, List, [], ◌∷◌, ◌++◌, ◌==◌, if◌then◌else◌, Bool-cases,
}
use simple_kernel.Memory.{Memory}
use simple_kernel.Heap.Header.{header_size, heap_start, heap_end}
use simple_kernel.Heap.Pages.{Pager}
use simple_kernel.Heap.{Kernel, sub32}
use simple_kernel.Heap.Layout.{Block, block, span, IsHeader, Segment, Heap}
use simple_kernel.Heap.Replace.{SameHeaders, SameOutside, Heap-replace, Segment-middle, span_bound}
use simple_kernel.Heap.Paged.{next_page, full_size, has_gap, insert_before_page, take_pages}
use simple_kernel.Heap.Paged.Split.{split_same, split_outside, split_first, split_second}
use simple_kernel.Heap.Paged.Search.{gap, need, next_page_lem, full_size_lem, has_gap_lem}
use simple_kernel.Heap.Paged.Taken.{spare_of, from_page, Taken, take_pages-Taken}

-- What becomes of a block of `s` bytes at `a`.
abbrev pub paged : ℕ → ℕ → ℕ → List Block
paged size s a =
    if gap a == header_size
    then from_page size s
    else block (gap a - header_size * 2) false ∷ from_page size (s + header_size - gap a)

-- The block at `a` of the heap, in whose middle or at whose start the pages begin.
module _ (pager : Pager) (before after : List Block) (s pages : ℕ) (n : ℕ) (k : Kernel pager.Vm)
    (heap : Heap k.mem (before ++ block s false ∷ after))
    (fits : need (pages * 4096) (heap_start + span before) < s)
    (supplies : pager.Supplies (n + 2 * (pages + 1)) k.vm) where
  open pager use {Vm, Supplies}

  abbrev a : ℕ
  a = heap_start + span before

  abbrev size : ℕ
  size = pages * 4096

  head : IsHeader k.mem a (block s false)
  head = (Segment-middle k.mem k.mem before (block s false ∷ []) after heap).0

  bound : a + header_size + s ≤ heap_end
  bound = omega (arith, span_bound k.mem k.mem before (block s false ∷ []) after heap)

  -- Memory whose headers changed from the page's header on alone has the new layout.
  module _ (m : Memory) where
    Heap-exact :
        (gap a == header_size) ≡ true
        → Segment m a (from_page size s) (a + header_size + s)
        → SameHeaders a (a + header_size + s) k.mem m
        → Heap m (before ++ (paged size s a ++ after))
    Heap-exact exact areas same =
        let stop : a + header_size + s ≡ a + span (block s false ∷ []) = omega arith in
        Heap-replace k.mem m before (block s false ∷ []) after (paged size s a) heap
          (subst (λ x. SameHeaders a x k.mem m) stop same)
          (subst (λ x. Segment m a (paged size s a) x) stop (rw exact areas))

    Heap-gapped :
        (gap a == header_size) ≡ false
        → IsHeader m a (block (gap a - header_size * 2) false)
        → Segment m
            (a + gap a - header_size)
            (from_page size (s + header_size - gap a))
            (a + header_size + s)
        → SameHeaders a (a + header_size + s) k.mem m
        → Heap m (before ++ (paged size s a ++ after))
    Heap-gapped inside first areas same =
        let stop : a + header_size + s ≡ a + span (block s false ∷ []) = omega arith in
        let start : a + gap a - header_size ≡ a + header_size + (gap a - header_size * 2) =
          ground (arith, head.aligned, inside) in
        Heap-replace k.mem m before (block s false ∷ []) after (paged size s a) heap
          (subst (λ x. SameHeaders a x k.mem m) stop same)
          (subst (λ x. Segment m a (paged size s a) x) stop
            (rw inside (
              first,
              subst
                  (λ x.
                    Segment m x (from_page size (s + header_size - gap a)) (a + header_size + s))
                  start areas,
            )))

  -- The call behind the search.
  abbrev pub call : Option (ℕ × Kernel Vm)
  call =
      let ret = sub32 (next_page a) header_size in
      let spare = sub32 s (full_size size a) in
      if has_gap a
      then take_pages pager size spare (next_page a) ret
          (record k { mem = insert_before_page k.mem a ret })
      else take_pages pager size spare (next_page a) a k

  pub record Placed : Type 0 where
    pub state : Kernel Vm
    pub returns : call ≡ some (a + gap a, state)
    pub layout : Heap state.mem (before ++ (paged size s a ++ after))
    pub left : Supplies n state.vm
    pub outside : SameOutside a (a + header_size + s + header_size) k.mem state.mem

  page_lem : next_page a ≡ a + gap a
  page_lem = next_page_lem a (omega (arith, bound))

  gap_lem : has_gap a ≡ not (gap a == header_size)
  gap_lem = has_gap_lem a (omega (arith, bound))

  full_lem : full_size size a ≡ size + gap a + header_size
  full_lem = full_size_lem size a (omega (arith, bound)) (ground (arith, bound, fits))

  module _ (exact : (gap a == header_size) ≡ true) where
    exact_gap : gap a ≡ header_size
    exact_gap = ground (arith, exact)

    exact_spare : sub32 s (full_size size a) ≡ spare_of size s
    exact_spare = ground (arith, full_lem, exact_gap, bound, fits)

    exact_call : call ≡ take_pages pager size (spare_of size s) (a + header_size) a k
    exact_call = rw (gap_lem, exact, exact_spare, page_lem, exact_gap) refl

    exact_return : {r : Option (ℕ × Kernel Vm)} → call ≡ r → Taken pager k.mem a s size n r → Placed
    exact_return e t = record {
      state = t.state;
      returns = e ∙ t.returns ∙ ap (λ x. some (a + x, t.state)) (sym exact_gap);
      layout = Heap-exact t.state.mem exact t.areas (λ c al h. t.same c h);
      left = t.supplies;
      outside = λ c h. t.same c (elim h [ inl p ↦ inl p | inr p ↦ inr (omega arith) ]);
    }

    Placed-exact : Placed
    Placed-exact = exact_return exact_call (
        take_pages-Taken pager k.mem a s pages head (omega (arith, exact_gap))
          (ground (arith, exact, fits)) bound n k.vm k.ran supplies)

  module _ (inside : (gap a == header_size) ≡ false) where
    abbrev ret : ℕ
    ret = a + gap a - header_size

    abbrev rest : ℕ
    rest = s + header_size - gap a

    abbrev split : Memory
    split = insert_before_page k.mem a ret

    far : header_size * 2 ≤ gap a
    far = ground (arith, head.aligned, inside)

    room : size + gap a + header_size * 2 < s
    room = ground (arith, inside, fits)

    ret_lem : sub32 (next_page a) header_size ≡ ret
    ret_lem = omega (arith, page_lem, far, bound)

    start_lem : next_page a ≡ ret + header_size
    start_lem = omega (arith, page_lem, far)

    gapped_spare : sub32 s (full_size size a) ≡ spare_of size rest
    gapped_spare = omega (arith, full_lem, far, room, bound)

    gapped_call :
        call
        ≡ take_pages pager size
            (spare_of size rest)
            (ret + header_size)
            ret
            (record k { mem = split })
    gapped_call = rw (gap_lem, inside, gapped_spare, ret_lem, start_lem) refl

    same_split : SameHeaders a (a + header_size + s) k.mem split
    same_split =
        split_same k.mem a ret s head (omega (arith, head.aligned)) (omega (arith, far))
          (omega (arith, room)) (omega (arith, bound))

    outside_split : SameOutside a (a + header_size + s + header_size) k.mem split
    outside_split =
        split_outside k.mem a ret s head (omega (arith, head.aligned)) (omega (arith, far))
          (omega (arith, room)) (omega (arith, bound))

    first : IsHeader split a (block (gap a - header_size * 2) false)
    first =
        subst (λ x. IsHeader split a (block x false)) (omega (arith, far))
          (split_first k.mem a ret s head (omega (arith, head.aligned)) (omega (arith, far))
            (omega (arith, room)) (omega (arith, bound)))

    second : IsHeader split ret (block rest false)
    second =
        subst (λ x. IsHeader split ret (block x false)) (omega (arith, far, room))
          (split_second k.mem a ret s head (omega (arith, head.aligned)) (omega (arith, far))
            (omega (arith, room)) (omega (arith, bound)))

    stop : ret + header_size + rest ≡ a + header_size + s
    stop = omega (arith, far, room)

    gapped_return :
        {r : Option (ℕ × Kernel Vm)} → call ≡ r → Taken pager split ret rest size n r → Placed
    gapped_return e t = record {
      state = t.state;
      returns = e ∙ t.returns ∙ ap (λ x. some (x, t.state)) (omega (arith, far));
      layout =
          Heap-gapped t.state.mem inside
            record {
              aligned = first.aligned;
              whole = first.whole;
              word = t.same a (inl (omega (arith, far))) ∙ first.word;
            }
            (subst (λ x. Segment t.state.mem ret (from_page size rest) x) stop t.areas)
            (λ c al h.
              t.same c
                (elim h [ inl p ↦ inl (omega (arith, far)) | inr p ↦ inr (omega (arith, stop)) ])
              ∙ same_split c al h);
      left = t.supplies;
      outside = λ c h.
          t.same c (elim h [ inl p ↦ inl (omega (arith, far)) | inr p ↦ inr (omega (arith, stop)) ])
          ∙ outside_split c h;
    }

    Placed-gapped : Placed
    Placed-gapped = gapped_return gapped_call (
        take_pages-Taken pager split ret rest pages second (omega (arith, far))
          (omega (arith, far, room)) (omega (arith, far, room, bound)) n k.vm k.ran supplies)

  pub Placed-call : Placed
  Placed-call = elim (Bool-cases (gap a == header_size)) [
    | inl exact ↦ Placed-exact exact
    | inr inside ↦ Placed-gapped inside
  ]
