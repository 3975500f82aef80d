-- ===== src/Heap/Allocate.antt =====
-- `kmalloc` against the list of blocks: a best fit, taken whole or split.
use simple_kernel.Base.{
  ℕ, ◌+◌, ◌-◌, ◌*◌, ◌/◌, ◌%◌, ◌^◌, ◌≤◌, ◌<◌, ◌≡◌, inl, inr, refl, ap, ◌∙◌, subst, arith, Bool, true,
  false, Option, some, List, [], ◌∷◌, ◌++◌, length, ltb, ◌==◌, if◌then◌else◌, Bool-cases, u32,
}
use simple_kernel.Bits.Masks.{and_not_page}
use simple_kernel.Memory.{Memory}
use simple_kernel.Heap.Header.{header_size, null, heap_start, heap_end, set_area_used}
use simple_kernel.Heap.Pages.{Pager}
use simple_kernel.Heap.{
  Kernel, sub32, padded, initial_best, area_rounds, page_rounds, find_best, insert_header,
  map_pages, take_area, kmalloc,
}
use simple_kernel.Heap.Layout.{Block, block, span, IsHeader, Segment, Segment-span, Heap}
use simple_kernel.Heap.Search.{NoneBelow, IsBestFit, Searched, kept, found, find_best-Searched}
use simple_kernel.Heap.Mapping.{map_pages_total}
use simple_kernel.Heap.Replace.{
  SameOutside, Heap-replace, Segment-middle, span_bound, headers_of_outside, mark_same,
  mark-IsHeader, carve_same, carve_first, carve_second,
}

-- The request with a header, rounded up to a multiple of 8, where nothing wraps.
pub padded_lem : (size : ℕ) → size + 15 < 2 ^ 32 → padded size ≡ (size + 15) / 8 * 8
unfolding padded
padded_lem size h = omega arith

-- For a size of 32 bits from 2^32 - 15 on the padding wraps: the padded size is 8 at most.
pub padded-wraps : (size : ℕ) → 2 ^ 32 ≤ size + 15 → size < 2 ^ 32 → padded size ≤ 8
unfolding padded
padded-wraps size h h' = omega arith

-- The blocks that an allocation of `need` bytes with its header makes of a block of `s` bytes.
abbrev pub carve : ℕ → ℕ → List Block
carve need s =
    if ltb (header_size * 2) (s - need)
    then block (need - header_size) true ∷ block (s - need) false ∷ []
    else block s true ∷ []

-- No free block has more than `need` bytes.
abbrev pub NoneFits : ℕ → List Block → Type 0
NoneFits need [] = Unit {0}
NoneFits need (b ∷ bs) = (b.used ≡ false → b.size ≤ need) × NoneFits need bs

-- The heap is smaller than the size that the search starts from.
NoneBelow-NoneFits :
    (m : Memory) (need a : ℕ) (bs : List Block)
    → Segment m a bs heap_end
    → heap_start ≤ a
    → NoneBelow need (2 ^ 30) bs
    → NoneFits need bs
NoneBelow-NoneFits m need a [] seg low none_below = tt
NoneBelow-NoneFits m need a (b ∷ bs) (head, rest) low (first, others) = (
  λ free. ground (arith, Segment-span m (a + header_size + b.size) bs heap_end rest, first free),
  NoneBelow-NoneFits m need (a + header_size + b.size) bs rest (omega arith) others,
)

-- What `kmalloc` does to a heap of the blocks `bs`: `NULL` and no change where no free block is
-- larger than `need`, and otherwise the smallest such block, taken whole or split. The pointer is
-- that block's payload, and no word outside the block changes.
pub data Outcome (need : ℕ) (bs : List Block) (m : Memory) : ℕ → Memory → Type 0 where
  refused : NoneFits need bs → Outcome need bs m null m
  granted :
      {m' : Memory} (before after : List Block) (s : ℕ)
      → IsBestFit need bs before s after
      → Heap m' (before ++ (carve need s ++ after))
      → SameOutside (heap_start + span before) (heap_start + span before + header_size + s) m m'
      → Outcome need bs m (heap_start + span before + header_size) m'

pub length_bound :
    (m : Memory) (a : ℕ) (bs : List Block) (b : ℕ) → Segment m a bs b → a + 8 * length bs ≤ b
length_bound m a [] b h = omega arith
length_bound m a (x ∷ xs) b (head, rest) =
    omega (arith, length_bound m (a + header_size + x.size) xs b rest)

module _ (m : Memory) (before after : List Block) (s need : ℕ)
    (heap : Heap m (before ++ block s false ∷ after)) (al : need % 8 ≡ 0) (low : header_size ≤ need)
    (fits : need < s) where
  head : IsHeader m (heap_start + span before) (block s false)
  head = (Segment-middle m m before (block s false ∷ []) after heap).0

  pub bound : heap_start + span before + header_size + s ≤ heap_end
  bound = omega (arith, span_bound m m before (block s false ∷ []) after heap)

  abbrev a : ℕ
  a = heap_start + span before

  room : ltb (header_size * 2) (s - need) ≡ true → need + header_size ≤ s
  room more = ground arith

  below : a + need < 2 ^ 32
  below = omega (arith, bound)

  no_wrap : sub32 s need ≡ s - need
  no_wrap = omega (arith, bound)

  new_no_wrap : u32 (a + need) ≡ a + need
  new_no_wrap = omega (arith, below)

  stop_eq : a + header_size + s ≡ a + span (block s false ∷ [])
  stop_eq = omega arith

  Heap-whole :
      ltb (header_size * 2) (s - need) ≡ false
      → Heap (set_area_used m a true) (before ++ (carve need s ++ after))
  Heap-whole exact = rw exact (
      Heap-replace m (set_area_used m a true) before (block s false ∷ []) after (block s true ∷ [])
        heap (headers_of_outside a _ _ m _ stop_eq (mark_same m a s head))
        (mark-IsHeader m a s head, omega arith))

  module _ (more : ltb (header_size * 2) (s - need) ≡ true) where
    abbrev taken : Memory
    taken = set_area_used (insert_header m a (a + need)) a true

    taken_second : IsHeader taken (a + header_size + (need - header_size)) (block (s - need) false)
    taken_second =
        subst (λ x. IsHeader taken x (block (s - need) false)) (omega arith)
          (carve_second m a s head need al low (room more) below)

    Heap-carved : Heap taken (before ++ (carve need s ++ after))
    Heap-carved = rw more (
        Heap-replace m taken before (block s false ∷ []) after
          (block (need - header_size) true ∷ block (s - need) false ∷ []) heap
          (headers_of_outside a _ _ m _ stop_eq
            (carve_same m a s head need al low (room more) below))
          (carve_first m a s head need al low (room more) below, (taken_second, omega arith)))

  module _ (pager : Pager) where
    open pager use {Vm, Supplies}

    take_area-exact :
        (vm : Vm) (ran : Bool)
        → ltb (header_size * 2) (s - need) ≡ false
        → take_area pager need s a (record { mem = m; vm = vm; ran = ran })
          ≡ some (a + header_size, record { mem = set_area_used m a true; vm = vm; ran = ran })
    unfolding take_area
    take_area-exact vm ran exact = rw (no_wrap, exact)

    take_area-split :
        (vm vm' : Vm) (ran : Bool) (more : ltb (header_size * 2) (s - need) ≡ true)
        → map_pages pager 0x103 page_rounds (a / 4096 * 4096) ((a + need) / 4096 * 4096) vm
          ≡ some vm'
        → take_area pager need s a (record { mem = m; vm = vm; ran = ran })
          ≡ some (a + header_size, record { mem = taken more; vm = vm'; ran = ran })
    unfolding take_area
    take_area-split vm vm' ran more mapped = rw (
      no_wrap,
      more,
      new_no_wrap,
      and_not_page a (omega (arith, bound)),
      and_not_page (a + need) below,
      mapped,
    )

    -- `take_area` on the free block at `a` turns it into `carve need s`.
    take_area-carve :
        (n : ℕ) (vm : Vm) (ran : Bool)
        → Supplies (n + 2 * (need / 4096 + 2)) vm
        → let k : Kernel Vm = record { mem = m; vm = vm; ran = ran } in
          (k' : Kernel Vm) × (take_area pager need s a k ≡ some (a + header_size, k'))
          × Heap k'.mem (before ++ (carve need s ++ after))
          × SameOutside a (a + header_size + s) m k'.mem
          × Supplies n k'.vm
    take_area-carve n vm ran h = elim (Bool-cases (ltb (header_size * 2) (s - need))) [
      | inr exact ↦ (
        record { mem = set_area_used m a true; vm = vm; ran = ran },
        take_area-exact vm ran exact,
        Heap-whole exact,
        mark_same m a s head,
        pager.weaken n _ vm h,
      )
      | inl more ↦
          let (vm', e, h') =
            map_pages_total pager n 0x103 (need / 4096 + 2) page_rounds (a / 4096 * 4096)
              ((a + need) / 4096 * 4096) vm (omega (arith, bound)) (omega arith) (omega arith)
              (omega (arith, bound)) h in
          (
            record { mem = taken more; vm = vm'; ran = ran },
            take_area-split vm vm' ran more e,
            Heap-carved more,
            carve_same m a s head need al low (room more) below,
            h',
          )
    ]

-- A finished call: it returned, the heap is as the outcome says, and `n` pages are left.
pub record Returned (pager : Pager) (n size : ℕ) (bs : List Block) (k : Kernel pager.Vm)
    (result : Option (ℕ × Kernel pager.Vm)) : Type 0 where
  pub ptr : ℕ
  pub state : Kernel pager.Vm
  pub returns : result ≡ some (ptr, state)
  pub outcome : Outcome (padded size) bs k.mem ptr state.mem
  pub supplies : pager.Supplies n state.vm

module _ (pager : Pager) (size : ℕ) (k : Kernel pager.Vm) (pos : 0 < size) where
  size_ne : (size == 0) ≡ false
  size_ne = ground arith

  -- The two ways on from the search.
  kmalloc-null :
      {s : ℕ}
      → find_best area_rounds k.mem (padded size) heap_start initial_best null ≡ some (s, null)
      → kmalloc pager size k ≡ some (null, k)
  unfolding kmalloc
  kmalloc-null e = rw (size_ne, e)

  kmalloc-take_area :
      {s f : ℕ}
      → (f == null) ≡ false
      → find_best area_rounds k.mem (padded size) heap_start initial_best null ≡ some (s, f)
      → kmalloc pager size k ≡ take_area pager (padded size) s f k
  unfolding kmalloc
  kmalloc-take_area ne e = rw (size_ne, e, ne)

module _ (pager : Pager) (n size : ℕ) (bs : List Block) (k : Kernel pager.Vm) (heap : Heap k.mem bs)
    (pos : 0 < size) (no_wrap : size + 15 < 2 ^ 32)
    (supplies : pager.Supplies (n + 2 * (padded size / 4096 + 2)) k.vm) where
  searched :
      Searched
        (padded size)
        heap_start
        bs
        initial_best
        null
        (find_best area_rounds k.mem (padded size) heap_start initial_best null)
  searched =
      find_best-Searched k.mem (padded size) heap.epsilon area_rounds heap_start bs initial_best
        null heap.areas (omega (arith, length_bound k.mem heap_start bs heap_end heap.areas))
        (omega arith) (omega arith) (ground (arith))

  finish :
      (r : Option (ℕ × ℕ))
      → find_best area_rounds k.mem (padded size) heap_start initial_best null ≡ r
      → Searched (padded size) heap_start bs initial_best null r
      → Returned pager n size bs k (kmalloc pager size k)
  finish _ e (kept none_fits) = record {
    ptr = null;
    state = k;
    returns = kmalloc-null pager size k pos e;
    outcome =
        refused
          (NoneBelow-NoneFits k.mem (padded size) heap_start bs heap.areas (omega arith) none_fits);
    supplies = pager.weaken n _ k.vm supplies;
  }
  finish _ e (found before after s f best at less) =
      let (k', e', heap', same, h') =
        take_area-carve k.mem before after s (padded size) (subst (Heap k.mem) best.place heap)
          (omega (arith, padded_lem size no_wrap)) (omega (arith, padded_lem size no_wrap))
          best.fits pager n k.vm k.ran supplies in
      record {
        ptr = heap_start + span before + header_size;
        state = k';
        returns =
            kmalloc-take_area pager size k pos (ground arith) e
            ∙ ap (λ x. take_area pager (padded size) s x k) at
            ∙ e';
        outcome = granted before after s best heap' same;
        supplies = h';
      }

  -- From a heap of the blocks `bs`, with `n` free pages and two more for each page of the request
  -- and two further ones, `kmalloc` of a size from 1 on whose padding does not wrap returns and
  -- leaves `n` pages. It returns
  -- `NULL` and changes no memory if no free block is larger than the padded size; otherwise the
  -- payload of the smallest such block, and memory then spells the layout with that block taken
  -- whole or split, no word outside the block being changed.
  pub kmalloc-Returned : Returned pager n size bs k (kmalloc pager size k)
  kmalloc-Returned = finish _ refl searched
