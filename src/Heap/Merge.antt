-- ===== src/Heap/Merge.antt =====
-- What `merge_free_areas` makes of three neighbours.
use simple_kernel.Base.{
  ℕ, leb, Bool-cases, ◌+◌, ◌%◌, ◌^◌, ◌<◌, ◌≡◌, inl, inr, refl, ap, ◌∙◌, arith, Bool, true, false,
  List, [], ◌∷◌, ◌==◌, some,
}
use simple_kernel.Memory.{Memory, load32, Apart}
use simple_kernel.Heap.Header.{
  header_size, null, get_area_used, get_next_address, get_prev_address, set_next_address,
  set_prev_address, prev_field,
}
use simple_kernel.Heap.{merge_free_areas}
use simple_kernel.Heap.Layout.{Block, block, flag, IsHeader, Segment}
use simple_kernel.Heap.Write.{load32-set_next_self, load32-set_next-Apart, load32-set_prev-Apart}
use simple_kernel.Heap.Replace.{SameHeaders, Apart-outside}

-- What freeing the middle one of three neighbours makes of them.
abbrev pub coalesce : ℕ → Bool → ℕ → ℕ → Bool → List Block
coalesce p true s t true = block p true ∷ block s false ∷ block t true ∷ []
coalesce p true s t false = block p true ∷ block (s + header_size + t) false ∷ []
coalesce p false s t true = block (p + header_size + s) false ∷ block t true ∷ []
coalesce p false s t false = block (p + header_size + s + header_size + t) false ∷ []

-- The memory that `merge_free_areas` leaves, by what it finds to be in use.
unfoldable pub merged : Memory → (prev area next na : ℕ) → Bool → Bool → Memory
merged m prev area next na true true = m
merged m prev area next na true false = set_prev_address (set_next_address m area na) next area
merged m prev area next na false true = set_next_address (set_prev_address m next prev) prev next
merged m prev area next na false false = set_prev_address (set_next_address m prev na) na prev

pub merge_free_areas-merged :
    (m : Memory) (prev area next na : ℕ) (v w : Bool)
    → get_prev_address m area ≡ prev
    → get_next_address m area ≡ next
    → get_next_address m next ≡ na
    → get_area_used m prev ≡ v
    → get_area_used m next ≡ w
    → (prev == null) ≡ false
    → (next == null) ≡ false
    → (v ≡ false → w ≡ false → (na == null) ≡ false)
    → merge_free_areas m area ≡ some (merged m prev area next na v w)
unfolding merge_free_areas merged
merge_free_areas-merged m prev area next na true true ep en ena ev ew np nn there =
    rw (ep, en, ev, ew, np, nn)
merge_free_areas-merged m prev area next na true false ep en ena ev ew np nn there =
    rw (ep, en, ev, ew, np, nn, ena)
merge_free_areas-merged m prev area next na false true ep en ena ev ew np nn there =
    rw (ep, en, ev, ew, np, nn)
merge_free_areas-merged m prev area next na false false ep en ena ev ew np nn there =
    rw (ep, en, ev, ew, np, nn, ena, there refl refl)

-- The words `next` stand at multiples of 8, and no `prev` field lies on them.
pub aligned-Apart : (c x : ℕ) → c % 8 ≡ 0 → x % 8 ≡ 0 → Apart (prev_field x) c
aligned-Apart c x al al' = elim (Bool-cases (leb c x)) [
  | inl le ↦ inr (ground arith)
  | inr gt ↦ inl (ground arith)
]

module _ (m : Memory) (a p s t : ℕ) where
  abbrev a₁ : ℕ
  a₁ = a + header_size + p

  abbrev a₂ : ℕ
  a₂ = a₁ + header_size + s

  abbrev a₃ : ℕ
  a₃ = a₂ + header_size + t

  module _ (v w : Bool) (prev_head : IsHeader m a (block p v))
      (head : IsHeader m a₁ (block s false)) (next_head : IsHeader m a₂ (block t w))
      (small : a₃ < 2 ^ 32) where
    na_aligned : a₃ % 8 ≡ 0
    na_aligned = omega (arith, next_head.aligned, next_head.whole)

  pub merged-Segment :
      (v w : Bool)
      → IsHeader m a (block p v)
      → IsHeader m a₁ (block s false)
      → IsHeader m a₂ (block t w)
      → a₃ < 2 ^ 32
      → Segment (merged m a a₁ a₂ a₃ v w) a (coalesce p v s t w) a₃
        × SameHeaders a a₃ m (merged m a a₁ a₂ a₃ v w)
  unfolding merged
  merged-Segment true true hp ha hn small = ((hp, (ha, (hn, refl))), λ c al h. refl)
  merged-Segment true false hp ha hn small =
      let m' = set_next_address m a₁ a₃ in
      let al₃ = na_aligned true false hp ha hn small in
      (
        (
          record {
            aligned = hp.aligned;
            whole = hp.whole;
            word = omega (
              arith,
              load32-set_prev-Apart m' a₂ a₁ a (inr (omega arith)),
              load32-set_next-Apart m a₁ a₃ a (inr (omega arith)),
              hp.word,
            );
          },
          (
            record {
              aligned = ha.aligned;
              whole = omega (arith, ha.whole, hn.whole);
              word = omega (
                arith,
                load32-set_prev-Apart m' a₂ a₁ a₁ (inr (omega arith)),
                load32-set_next_self m a₁ a₃ al₃ small,
                ha.word,
                ha.aligned,
                ha.whole,
              );
            },
            omega arith,
          ),
        ),
        λ c al h.
            load32-set_prev-Apart m' a₂ a₁ c (Apart-outside (omega arith) (omega arith) h)
            ∙ load32-set_next-Apart m a₁ a₃ c (Apart-outside (omega arith) (omega arith) h),
      )
  merged-Segment false true hp ha hn small =
      let m' = set_prev_address m a₂ a in
      let moved : a + header_size + (p + header_size + s) ≡ a₂ = omega arith in
      let kept_word : load32 (set_next_address m' a a₂) a₂ ≡ a₃ + flag true = omega (
        arith,
        load32-set_next-Apart m' a a₂ a₂ (inl (omega arith)),
        load32-set_prev-Apart m a₂ a a₂ (inr (omega arith)),
        hn.word,
      ) in
      (
        (
          record {
            aligned = hp.aligned;
            whole = omega (arith, ha.whole, hp.whole);
            word = omega (
              arith,
              load32-set_next_self m' a a₂ hn.aligned (omega arith),
              load32-set_prev-Apart m a₂ a a (inr (omega arith)),
              hp.word,
              hp.aligned,
              hp.whole,
            );
          },
          (
            record {
              aligned = omega (arith, hn.aligned);
              whole = hn.whole;
              word = omega (arith, ap (load32 (set_next_address m' a a₂)) moved, kept_word);
            },
            omega arith,
          ),
        ),
        λ c al h.
            load32-set_next-Apart m' a a₂ c (Apart-outside (omega arith) (omega arith) h)
            ∙ load32-set_prev-Apart m a₂ a c (Apart-outside (omega arith) (omega arith) h),
      )
  merged-Segment false false hp ha hn small =
      let m' = set_next_address m a a₃ in
      let al₃ = na_aligned false false hp ha hn small in
      (
        (
          record {
            aligned = hp.aligned;
            whole = omega (arith, hp.whole, ha.whole, hn.whole);
            word = omega (
              arith,
              load32-set_prev-Apart m' a₃ a a (inr (omega arith)),
              load32-set_next_self m a a₃ al₃ small,
              hp.word,
              hp.aligned,
              hp.whole,
            );
          },
          omega arith,
        ),
        λ c al h.
            load32-set_prev-Apart m' a₃ a c (aligned-Apart c a₃ al al₃)
            ∙ load32-set_next-Apart m a a₃ c (Apart-outside (omega arith) (omega arith) h),
      )
