-- ===== src/Heap/Paged/Search.antt =====
-- The loop of `kpagealloc` finds the smallest free block that whole pages fit into.
use simple_kernel.Base.{
  ℕ, zero, suc, ◌+◌, ◌-◌, ◌*◌, ◌%◌, ◌^◌, ◌≤◌, ◌<◌, ◌≡◌, ◌⊎◌, inl, inr, ap, subst, arith, Bool, true,
  false, ◌&&◌, not, Option, some, List, [], ◌∷◌, ◌++◌, length, ltb, ◌==◌, if◌then◌else◌, Bool-cases,
}
use simple_kernel.Bits.Masks.{and_not_page}
use simple_kernel.Memory.{Memory, load32}
use simple_kernel.Heap.Header.{header_size, heap_start, heap_end}
use simple_kernel.Heap.{sub32}
use simple_kernel.Heap.Search.{epsilon_at_end}
use simple_kernel.Heap.Layout.{
  Block, block, span, IsHeader, Segment, Segment-span, next_of_header, used_of_header,
  epsilon_of_header, size_of_header,
}
use simple_kernel.Heap.Paged.{next_page, full_size, has_gap, search_size, find_pages}

-- The bytes from a header up to the next page.
abbrev pub gap : ℕ → ℕ
gap a = 4096 - a % 4096

-- The bytes that a block at `a` must be larger than.
abbrev pub need : ℕ → ℕ → ℕ
need size a = size + gap a + (if gap a == header_size then header_size else header_size * 2)

pub next_page_lem : (a : ℕ) → a < heap_end → next_page a ≡ a + gap a
unfolding next_page
next_page_lem a h = ground (arith, and_not_page a)

pub full_size_lem :
    (size a : ℕ) → a < heap_end → size < 2 ^ 30 → full_size size a ≡ size + gap a + header_size
unfolding full_size
full_size_lem size a h small = omega (arith, next_page_lem a h)

pub has_gap_lem : (a : ℕ) → a < heap_end → has_gap a ≡ not (gap a == header_size)
has_gap_lem a h = ground (arith, next_page_lem a h)

search_size_lem : (size a : ℕ) → a < heap_end → size < 2 ^ 30 → search_size size a ≡ need size a
unfolding search_size
search_size_lem size a h small = ground (arith, full_size_lem size a h small, has_gap_lem a h)

-- No free block that the pages fit into has fewer than `s` bytes.
abbrev pub NoneBelow : ℕ → ℕ → ℕ → List Block → Type 0
NoneBelow size a s [] = Unit {0}
NoneBelow size a s (b ∷ bs) =
    (b.used ≡ false → need size a < b.size → s ≤ b.size)
    × NoneBelow size (a + header_size + b.size) s bs

-- Of the blocks from `a` on, the one of `s` bytes behind `before` is free, the pages fit into it,
-- and it is the smallest such block.
pub record IsPageFit (size a : ℕ) (bs : List Block) (before : List Block) (s : ℕ)
    (after : List Block) : Type 0 where
  pub place : bs ≡ before ++ block s false ∷ after
  pub fits : need size (a + span before) < s
  pub smallest : NoneBelow size a s bs

NoneBelow-mono :
    (size a s s' : ℕ) (bs : List Block) → s' ≤ s → NoneBelow size a s bs → NoneBelow size a s' bs
NoneBelow-mono size a s s' [] le h = tt
NoneBelow-mono size a s s' (b ∷ bs) le (head, rest) = (
  λ free fits. omega (arith, head free fits),
  NoneBelow-mono size (a + header_size + b.size) s s' bs le rest,
)

-- What the search over the blocks `bs` from `a` on makes of the best so far.
pub data Searched (size a : ℕ) (bs : List Block) (s f : ℕ) : Option (ℕ × ℕ) → Type 0 where
  kept : NoneBelow size a s bs → Searched size a bs s f (some (s, f))
  found :
      (before after : List Block) (s' f' : ℕ)
      → IsPageFit size a bs before s' after
      → f' ≡ a + span before
      → s' < s
      → Searched size a bs s f (some (s', f'))

abbrev better : Bool → ℕ → ℕ → ℕ → ℕ → Bool
better u t size full s =
    not u
    && ((ltb size t && ltb (sub32 t size) (sub32 s size))
        && (ltb full t && ltb (sub32 t full) (sub32 s full)))

module _ (u : Bool) (t size full needed s : ℕ) (ht : t < 2 ^ 30) (hs : s ≤ 2 ^ 30)
    (roomy : (size < s) ⊎ (2 ^ 30 ≤ size)) (larger : size < needed)
    (exact : size < 2 ^ 30 → full ≡ needed) where
  better-true : better u t size full s ≡ true → (u ≡ false) × (needed < t) × (t < s)
  better-true h = ground arith

  better-false : better u t size full s ≡ false → u ≡ false → needed < t → s ≤ t
  better-false h free fits = ground arith

module _ (size a : ℕ) (b : Block) (bs : List Block) (s f : ℕ) where
  keep_head :
      {r : Option (ℕ × ℕ)}
      → (b.used ≡ false → need size a < b.size → s ≤ b.size)
      → Searched size (a + header_size + b.size) bs s f r
      → Searched size a (b ∷ bs) s f r
  keep_head head (kept rest) = kept (head, rest)
  keep_head head (found before after s' f' best at smaller) =
      let here : a + header_size + b.size + span before ≡ a + span (b ∷ before) = omega arith in
      found (b ∷ before) after s' f'
        record {
          place = ap (◌∷◌ b) best.place;
          fits = subst (λ x. need size x < s') here best.fits;
          smallest = (λ free fits. omega (arith, head free fits), best.smallest);
        }
        (omega arith) smaller

  take_head :
      {r : Option (ℕ × ℕ)}
      → b.used ≡ false
      → need size a < b.size
      → b.size < s
      → Searched size (a + header_size + b.size) bs b.size a r
      → Searched size a (b ∷ bs) s f r
  take_head free fits smaller (kept rest) =
      let here : a ≡ a + 0 = omega arith in
      found [] bs b.size a
        record {
          place = ground arith;
          fits = subst (λ x. need size x < b.size) here fits;
          smallest = (λ p q. omega arith, rest);
        }
        (omega arith) smaller
  take_head free fits smaller (found before after s' f' best at less) =
      let here : a + header_size + b.size + span before ≡ a + span (b ∷ before) = omega arith in
      found (b ∷ before) after s' f'
        record {
          place = ap (◌∷◌ b) best.place;
          fits = subst (λ x. need size x < s') here best.fits;
          smallest = (λ p q. omega arith, best.smallest);
        }
        (omega arith) (omega arith)

module _ (left : ℕ) (m : Memory) (size a s f : ℕ) (b : Block) (head : IsHeader m a b) where
  abbrev wins : Bool
  wins = better b.used b.size size (search_size size a) s

  find_pages_take :
      wins ≡ true
      → find_pages (suc left) m size a s f
        ≡ find_pages left m size (a + header_size + b.size) b.size a
  unfolding find_pages
  find_pages_take h = ground (
    arith,
    epsilon_of_header m a b head,
    next_of_header m a b head,
    used_of_header m a b head,
    size_of_header m a b head,
  )

  find_pages_keep :
      wins ≡ false
      → find_pages (suc left) m size a s f ≡ find_pages left m size (a + header_size + b.size) s f
  unfolding find_pages
  find_pages_keep h = ground (
    arith,
    epsilon_of_header m a b head,
    next_of_header m a b head,
    used_of_header m a b head,
    size_of_header m a b head,
  )

module _ (m : Memory) (size : ℕ) (last : load32 m heap_end ≡ 2) where
  pub find_pages-Searched :
      (left a : ℕ) (bs : List Block) (s f : ℕ)
      → Segment m a bs heap_end
      → length bs < left
      → heap_start ≤ a
      → s ≤ 2 ^ 30
      → (size < s) ⊎ (2 ^ 30 ≤ size)
      → Searched size a bs s f (find_pages left m size a s f)
  unfolding find_pages
  find_pages-Searched zero a bs s f seg enough low hs roomy = absurd (omega arith)
  find_pages-Searched (suc left) a [] s f seg enough low hs roomy =
      rw (seg, epsilon_at_end m last, find_pages) (kept tt)
  find_pages-Searched (suc left) a (b ∷ bs) s f (head, rest) enough low hs roomy =
      let end : a + header_size + b.size ≤ heap_end =
        omega (arith, Segment-span m (a + header_size + b.size) bs heap_end rest) in
      let small : b.size < 2 ^ 30 = omega arith in
      let larger : size < need size a = ground arith in
      let exact : size < 2 ^ 30 → search_size size a ≡ need size a =
        λ h. search_size_lem size a (omega arith) h in
      elim (Bool-cases (better b.used b.size size (search_size size a) s)) [
        | inl better' ↦
            let (free, fits, less) =
              better-true b.used b.size size (search_size size a) (need size a) s small hs roomy
                larger exact better' in
            rw (find_pages_take left m size a s f b head better') (
              take_head size a b bs s f free fits less (
                find_pages-Searched left (a + header_size + b.size) bs b.size a rest (omega arith)
                  (omega arith) (omega arith) (inl (omega arith))))
        | inr worse ↦ rw (find_pages_keep left m size a s f b head worse) (
            keep_head size a b bs s f
              (better-false b.used b.size size (search_size size a) (need size a) s small hs roomy
                larger exact worse)
              (find_pages-Searched left (a + header_size + b.size) bs s f rest (omega arith)
                (omega arith) hs roomy))
      ]
