-- ===== src/Heap/Search.antt =====
-- The loop of `kmalloc` finds the smallest free block that is larger than what is wanted.
use simple_kernel.Base.{
  ℕ, zero, suc, ◌+◌, ◌/◌, ◌^◌, ◌≤◌, ◌<◌, ◌≡◌, ◌⊎◌, inl, inr, ap, arith, Bool, true, false, ◌&&◌,
  not, Option, some, List, [], ◌∷◌, ◌++◌, length, ltb, Bool-cases,
}
use simple_kernel.Bits.Masks.{and_one}
use simple_kernel.Memory.{Memory, load32}
use simple_kernel.Heap.Header.{header_size, heap_start, heap_end, get_area_epsilon}
use simple_kernel.Heap.{find_best, sub32}
use simple_kernel.Heap.Layout.{
  Block, block, span, IsHeader, Segment, Segment-span, next_of_header, used_of_header,
  epsilon_of_header, size_of_header,
}

-- No free block of more than `need` bytes has fewer than `s`.
abbrev pub NoneBelow : ℕ → ℕ → List Block → Type 0
NoneBelow need s [] = Unit {0}
NoneBelow need s (b ∷ bs) = (b.used ≡ false → need < b.size → s ≤ b.size) × NoneBelow need s bs

-- Of the blocks `bs`, the one of `s` bytes between `before` and `after` is free, has more than
-- `need` bytes, and none that is so is smaller.
pub record IsBestFit (need : ℕ) (bs : List Block) (before : List Block) (s : ℕ) (after : List Block)
    : Type 0 where
  pub place : bs ≡ before ++ block s false ∷ after
  pub fits : need < s
  pub smallest : NoneBelow need s bs

pub NoneBelow-mono :
    (need s s' : ℕ) (bs : List Block) → s' ≤ s → NoneBelow need s bs → NoneBelow need s' bs
NoneBelow-mono need s s' [] le h = tt
NoneBelow-mono need s s' (b ∷ bs) le (head, rest) =
    (λ free fits. omega (arith, head free fits), NoneBelow-mono need s s' bs le rest)

-- What the search over the blocks `bs` from address `a` makes of the best so far.
pub data Searched (need a : ℕ) (bs : List Block) (s f : ℕ) : Option (ℕ × ℕ) → Type 0 where
  kept : NoneBelow need s bs → Searched need a bs s f (some (s, f))
  found :
      (before after : List Block) (s' f' : ℕ)
      → IsBestFit need bs before s' after
      → f' ≡ a + span before
      → s' < s
      → Searched need a bs s f (some (s', f'))

abbrev better : Bool → ℕ → ℕ → ℕ → Bool
better u t need s = not u && (ltb need t && ltb (sub32 t need) (sub32 s need))

-- The differences do not wrap where they are compared.
better-true :
    (u : Bool) (t need s : ℕ)
    → t < 2 ^ 30
    → s ≤ 2 ^ 30
    → (need < s) ⊎ (2 ^ 30 ≤ need)
    → better u t need s ≡ true
    → (u ≡ false) × (need < t) × (t < s)
better-true u t need s ht hs roomy h = ground arith

better-false :
    (u : Bool) (t need s : ℕ)
    → t < 2 ^ 30
    → s ≤ 2 ^ 30
    → (need < s) ⊎ (2 ^ 30 ≤ need)
    → better u t need s ≡ false
    → u ≡ false
    → need < t
    → s ≤ t
better-false u t need s ht hs roomy h = ground arith

module _ (need a : ℕ) (b : Block) (bs : List Block) (s f : ℕ) where
  keep_head :
      {r : Option (ℕ × ℕ)}
      → (b.used ≡ false → need < b.size → s ≤ b.size)
      → Searched need (a + header_size + b.size) bs s f r
      → Searched need a (b ∷ bs) s f r
  keep_head head (kept rest) = kept (head, rest)
  keep_head head (found before after s' f' best at smaller) =
      found (b ∷ before) after s' f'
        record {
          place = ap (◌∷◌ b) best.place;
          fits = best.fits;
          smallest = (λ free fits. omega (arith, head free fits), best.smallest);
        }
        (omega arith) smaller

  take_head :
      {r : Option (ℕ × ℕ)}
      → b.used ≡ false
      → need < b.size
      → b.size < s
      → Searched need (a + header_size + b.size) bs b.size a r
      → Searched need a (b ∷ bs) s f r
  take_head free fits smaller (kept rest) =
      found [] bs b.size a
        record { place = ground arith; fits = fits; smallest = (λ p q. omega arith, rest) }
        (omega arith) smaller
  take_head free fits smaller (found before after s' f' best at less) =
      found (b ∷ before) after s' f'
        record {
          place = ap (◌∷◌ b) best.place;
          fits = best.fits;
          smallest = (λ p q. omega arith, best.smallest);
        }
        (omega arith) (omega arith)

pub epsilon_at_end : (m : Memory) → load32 m heap_end ≡ 2 → get_area_epsilon m heap_end ≡ true
unfolding get_area_epsilon
epsilon_at_end m h = ground (arith, and_one (load32 m heap_end / 2))

module _ (left : ℕ) (m : Memory) (need a s f : ℕ) (b : Block) (head : IsHeader m a b) where
  find_best_take :
      better b.used b.size need s ≡ true
      → find_best (suc left) m need a s f
        ≡ find_best left m need (a + header_size + b.size) b.size a
  unfolding find_best
  find_best_take h = ground (
    arith,
    epsilon_of_header m a b head,
    next_of_header m a b head,
    used_of_header m a b head,
    size_of_header m a b head,
  )

  find_best_keep :
      better b.used b.size need s ≡ false
      → find_best (suc left) m need a s f ≡ find_best left m need (a + header_size + b.size) s f
  unfolding find_best
  find_best_keep h = ground (
    arith,
    epsilon_of_header m a b head,
    next_of_header m a b head,
    used_of_header m a b head,
    size_of_header m a b head,
  )

module _ (m : Memory) (need : ℕ) (last : load32 m heap_end ≡ 2) where
  -- The loop of `kmalloc` from area `a` on, with more rounds to go than there are areas, ends. It
  -- keeps the best so far if no free block of more than `need` bytes is smaller, and otherwise
  -- comes back with the size and the address of the smallest such block.
  pub find_best-Searched :
      (left a : ℕ) (bs : List Block) (s f : ℕ)
      → Segment m a bs heap_end
      → length bs < left
      → heap_start ≤ a
      → s ≤ 2 ^ 30
      → (need < s) ⊎ (2 ^ 30 ≤ need)
      → Searched need a bs s f (find_best left m need a s f)
  unfolding find_best
  find_best-Searched zero a bs s f seg enough low hs roomy = absurd (omega arith)
  find_best-Searched (suc left) a [] s f seg enough low hs roomy =
      rw (seg, epsilon_at_end m last, find_best) (kept tt)
  find_best-Searched (suc left) a (b ∷ bs) s f (head, rest) enough low hs roomy =
      let small : b.size < 2 ^ 30 =
        omega (arith, Segment-span m (a + header_size + b.size) bs heap_end rest) in
      elim (Bool-cases (better b.used b.size need s)) [
        | inl better' ↦
            let (free, fits, less) = better-true b.used b.size need s small hs roomy better' in
            rw (find_best_take left m need a s f b head better') (
              take_head need a b bs s f free fits less (
                find_best-Searched left (a + header_size + b.size) bs b.size a rest (omega arith)
                  (omega arith) (omega arith) (inl fits)))
        | inr worse ↦ rw (find_best_keep left m need a s f b head worse) (
            keep_head need a b bs s f (better-false b.used b.size need s small hs roomy worse) (
              find_best-Searched left (a + header_size + b.size) bs s f rest (omega arith)
                (omega arith) hs roomy))
      ]
