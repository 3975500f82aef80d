-- ===== src/Heap/Paged/Returned.antt =====
-- `kpagealloc` against the list of blocks.
use simple_kernel.Base.{
  ℕ, ◌+◌, ◌*◌, ◌%◌, ◌^◌, ◌≤◌, ◌<◌, ◌≡◌, refl, ◌∙◌, subst, arith, false, Option, some, List, [], ◌∷◌,
  ◌++◌, ◌==◌, u32,
}
use simple_kernel.Memory.{Memory}
use simple_kernel.Heap.Header.{header_size, null, heap_start, heap_end}
use simple_kernel.Heap.Pages.{Pager}
use simple_kernel.Heap.{Kernel, initial_best, area_rounds}
use simple_kernel.Heap.Layout.{Block, block, span, Segment, Segment-span, Heap}
use simple_kernel.Heap.Allocate.{length_bound}
use simple_kernel.Heap.Replace.{SameOutside}
use simple_kernel.Heap.Paged.{find_pages, kpagealloc}
use simple_kernel.Heap.Paged.Search.{
  gap, need, NoneBelow, IsPageFit, Searched, kept, found, find_pages-Searched,
}
use simple_kernel.Heap.Paged.Placed.{paged, call, Placed-call}

-- No free block has room for the pages and the headers around them.
abbrev pub NoneFits : ℕ → ℕ → List Block → Type 0
NoneFits size a [] = Unit {0}
NoneFits size a (b ∷ bs) =
    (b.used ≡ false → b.size ≤ need size a) × NoneFits size (a + header_size + b.size) bs

NoneBelow-NoneFits :
    (m : Memory) (size a : ℕ) (bs : List Block)
    → Segment m a bs heap_end
    → heap_start ≤ a
    → NoneBelow size a (2 ^ 30) bs
    → NoneFits size a bs
NoneBelow-NoneFits m size a [] seg low none_below = tt
NoneBelow-NoneFits m size a (b ∷ bs) (head, rest) low (first, others) = (
  λ free. ground (arith, Segment-span m (a + header_size + b.size) bs heap_end rest, first free),
  NoneBelow-NoneFits m size (a + header_size + b.size) bs rest (omega arith) others,
)

-- What `kpagealloc` of `size` bytes does to a heap of the blocks `bs`.
pub data PagesOutcome (size : ℕ) (bs : List Block) (m : Memory) : ℕ → Memory → Type 0 where
  refused : NoneFits size heap_start bs → PagesOutcome size bs m null m
  granted :
      {m' : Memory} (before after : List Block) (s ptr : ℕ)
      → IsPageFit size heap_start bs before s after
      → Heap m' (before ++ (paged size s (heap_start + span before) ++ after))
      → ptr % 4096 ≡ 0
      → ptr ≡ heap_start + span before + gap (heap_start + span before)
      → SameOutside
          (heap_start + span before)
          (heap_start + span before + header_size + s + header_size)
          m
          m'
      → PagesOutcome size bs m ptr m'

pub record PagesReturned (pager : Pager) (n size : ℕ) (bs : List Block) (k : Kernel pager.Vm)
    (result : Option (ℕ × Kernel pager.Vm)) : Type 0 where
  pub ptr : ℕ
  pub state : Kernel pager.Vm
  pub returns : result ≡ some (ptr, state)
  pub outcome : PagesOutcome size bs k.mem ptr state.mem
  pub supplies : pager.Supplies n state.vm

module _ (pager : Pager) (pages : ℕ) (k : Kernel pager.Vm) (pos : 0 < pages)
    (no_wrap : pages * 4096 < 2 ^ 32) where
  abbrev size : ℕ
  size = pages * 4096

  pages_ne : (pages == 0) ≡ false
  pages_ne = ground arith

  size_lem : u32 (pages * 4096) ≡ size
  size_lem = omega arith

  kpagealloc-null :
      {s : ℕ}
      → find_pages area_rounds k.mem size heap_start initial_best null ≡ some (s, null)
      → kpagealloc pager pages k ≡ some (null, k)
  unfolding kpagealloc
  kpagealloc-null e = rw (pages_ne, size_lem, e) refl

  kpagealloc-call :
      (before after : List Block) (s f n : ℕ) (heap : Heap k.mem (before ++ block s false ∷ after))
      (fits : need size (heap_start + span before) < s)
      (supplies : pager.Supplies (n + 2 * (pages + 1)) k.vm)
      → f ≡ heap_start + span before
      → find_pages area_rounds k.mem size heap_start initial_best null ≡ some (s, f)
      → kpagealloc pager pages k ≡ call pager before after s pages n k heap fits supplies
  unfolding kpagealloc
  kpagealloc-call before after s f n heap fits supplies at e =
      let ne : (heap_start + span before == null) ≡ false = ground arith in
      rw (pages_ne, size_lem, e, at, ne) refl

  module _ (n : ℕ) (bs : List Block) (heap : Heap k.mem bs)
      (supplies : pager.Supplies (n + 2 * (pages + 1)) k.vm) where
    searched :
        Searched size heap_start bs initial_best null
          (find_pages area_rounds k.mem size heap_start initial_best null)
    searched =
        find_pages-Searched k.mem size heap.epsilon area_rounds heap_start bs initial_best null
          heap.areas (omega (arith, length_bound k.mem heap_start bs heap_end heap.areas))
          (omega arith) (omega arith) (ground arith)

    finish :
        (r : Option (ℕ × ℕ))
        → find_pages area_rounds k.mem size heap_start initial_best null ≡ r
        → Searched size heap_start bs initial_best null r
        → PagesReturned pager n size bs k (kpagealloc pager pages k)
    finish _ e (kept none_fits) = record {
      ptr = null;
      state = k;
      returns = kpagealloc-null e;
      outcome =
          refused (NoneBelow-NoneFits k.mem size heap_start bs heap.areas (omega arith) none_fits);
      supplies = pager.weaken n _ k.vm supplies;
    }
    finish _ e (found before after s f best at less) =
        let heap' = subst (Heap k.mem) best.place heap in
        let p = Placed-call pager before after s pages n k heap' best.fits supplies in
        record {
          ptr = heap_start + span before + gap (heap_start + span before);
          state = p.state;
          returns = kpagealloc-call before after s f n heap' best.fits supplies at e ∙ p.returns;
          outcome = granted before after s _ best p.layout (omega arith) refl p.outside;
          supplies = p.left;
        }

    -- From a heap of the blocks `bs`, with `n` free pages and two more for each page of the request
    -- and for one further page, `kpagealloc` of at least one page, whose bytes are below 4 GB,
    -- returns and leaves `n` pages. It returns `NULL` and changes no memory if no free block has
    -- room for the pages behind the next page border and the headers around them; otherwise an
    -- address at a page border, the first behind the header of the smallest such block. The headers
    -- then spell the layout with that block cut there, and cut again behind the pages if enough is
    -- left, and no word in front of the block or behind the header that follows it has changed.
    pub kpagealloc-Returned : PagesReturned pager n size bs k (kpagealloc pager pages k)
    kpagealloc-Returned = finish _ refl searched
