-- ===== src/Heap/Resize.antt =====
-- What `krealloc` keeps of the areas that are in use.
pub mod Grown
mod Tests
use simple_kernel.Base.{
  ℕ, ◌+◌, ◌-◌, ◌*◌, ◌/◌, ◌%◌, ◌^◌, ◌≤◌, ◌<◌, ◌≡◌, ◌≢◌, ◌⊎◌, inl, inr, refl, ap, sym, ◌∙◌, subst,
  arith, Bool, true, false, Option, some, List, [], ◌∷◌, ◌++◌, bit_and, complement32, ◌==◌, leb,
  ltb, ◌&&◌, if◌then◌else◌, Bool-cases,
}
use simple_kernel.Memory.{Memory, load8, load32, memcpy}
use simple_kernel.Memory.Copy.{copied_inside, copied_outside, memcpy_lem}
use simple_kernel.Heap.Header.{
  header_size, null, heap_start, heap_end, get_prev_address, prev_field, get_area_size,
  get_area_used,
}
use simple_kernel.Heap.Pages.{Pager}
use simple_kernel.Heap.{Kernel, padded, kmalloc, kfree, krealloc, sub32}
use simple_kernel.Heap.Layout.{Block, block, span, Segment-split, Heap, used_of_header}
use simple_kernel.Heap.Replace.{SameOutside, Segment-middle, span_bound}
use simple_kernel.Heap.InUse.{
  InUse, AreApart, InUse-bounds, InUse-later, InUse-sooner, InUse-replace, Heap-payload,
  load32-load8, Place, InUse-Place,
}
use simple_kernel.Heap.Boundary.{IsBoundary-replace, IsHeaderOrNull, KeepsBytes}
use simple_kernel.Heap.Kept.{kfree-Keeps}
use simple_kernel.Heap.Allocate
use simple_kernel.Heap.Allocate.{carve, padded_lem, kmalloc-Returned}
use simple_kernel.Heap.Grant.{carve_lem}

-- A byte where the words are the same.
low_byte : (m : Memory) (b : ℕ) → load8 m b ≡ load32 m b % 256
unfolding load8 load32
low_byte m b = omega arith

high_byte : (m : Memory) (b : ℕ) → load8 m (b + 3) ≡ load32 m b / 2 ^ 24
unfolding load8 load32
high_byte m b = omega arith

pub load8-outside :
    (a b : ℕ) (m m' : Memory) (c : ℕ)
    → 3 ≤ c
    → SameOutside a b m m'
    → (c + 1 ≤ a) ⊎ (b ≤ c)
    → load8 m' c ≡ load8 m c
load8-outside a b m m' c h same (inr behind) =
    low_byte m' c ∙ ap (λ x. x % 256) (same c (inr behind)) ∙ sym (low_byte m c)
load8-outside a b m m' c h same (inl before) =
    let top : c - 3 + 3 ≡ c = omega arith in
    subst (λ x. load8 m' x ≡ load8 m x) top
      (high_byte m' (c - 3)
        ∙ ap (λ x. x / 2 ^ 24) (same (c - 3) (inl (omega arith)))
        ∙ sym (high_byte m (c - 3)))

-- `m'` has the bytes of all areas that were in use, and at `ptr'` those of the `s` bytes at `ptr`
-- that fit into `size`.
abbrev pub Moved : List Block → ℕ → ℕ → ℕ → ℕ → Memory → Memory → Type 0
Moved bs ptr s size ptr' m m' =
    KeepsBytes bs m m' × ((i : ℕ) → i < s → i < size → load8 m' (ptr' + i) ≡ load8 m (ptr + i))

-- A new area is made of a free block of the layout, the bytes of an area in use are copied into it,
-- and that area is freed.
module _ (m m₁ : Memory) (before after new : List Block) (free ptr s size ptr' : ℕ)
    (old : InUse heap_start (before ++ block free false ∷ after) ptr s)
    (stale : IsHeaderOrNull
      (before ++ block free false ∷ after)
      (get_prev_address m (ptr - header_size)))
    (whole : span new ≡ header_size + free) (heap : Heap m₁ (before ++ (new ++ after)))
    (used : InUse (heap_start + span before) new ptr' size) (grows : s < size)
    (word : load32 m (ptr - header_size) ≡ ptr + s + 1) (more : ptr + s < heap_end)
    (same : SameOutside
      (heap_start + span before)
      (heap_start + span before + header_size + free)
      m
      m₁) where
  abbrev blocks : List Block
  blocks = before ++ block free false ∷ after

  abbrev blocks₁ : List Block
  blocks₁ = before ++ (new ++ after)

  abbrev m₂ : Memory
  m₂ = memcpy m₁ ptr' ptr s

  bounds :
      (heap_start + span before + header_size ≤ ptr')
      × (ptr' + size ≤ heap_start + span before + (header_size + free))
  bounds =
      subst
        (λ x.
          (heap_start + span before + header_size ≤ ptr')
          × (ptr' + size ≤ heap_start + span before + x))
        whole (InUse-bounds (heap_start + span before) new ptr' size used)

  abbrev Beside : ℕ → ℕ → Type 0
  Beside q n =
      (q + n ≤ heap_start + span before)
      ⊎ (heap_start + span before + header_size + free + header_size ≤ q)

  beside : (q n : ℕ) → InUse heap_start blocks q n → InUse heap_start blocks₁ q n × Beside q n
  beside q n h = InUse-replace heap_start before free new after q n whole h

  new_InUse : InUse heap_start blocks₁ ptr' size
  new_InUse =
      InUse-later heap_start before (new ++ after) ptr' size
        (InUse-sooner (heap_start + span before) new after ptr' size used)

  -- Before the area is freed, the other areas are as they were.
  copy_kept : (q n b : ℕ) → InUse heap_start blocks q n → q ≤ b → b < q + n → load8 m₁ b ≡ load8 m b
  copy_kept q n b h lo hi =
      let (low, high) = InUse-bounds heap_start blocks q n h in
      load8-outside (heap_start + span before) (heap_start + span before + header_size + free) m m₁
        b (omega arith) same
        (elim (beside q n h).1 [ inl p ↦ inl (omega arith) | inr p ↦ inr (omega arith) ])

  disjoint : (ptr' + s ≤ ptr) ⊎ (ptr + s ≤ ptr')
  disjoint = elim (beside ptr s old).1 [
    | inl p ↦ inr (omega (arith, bounds))
    | inr p ↦ inl (omega (arith, bounds))
  ]

  payload : (b : ℕ) → (b < ptr') ⊎ (ptr' + size ≤ b) → load8 m₂ b ≡ load8 m₁ b
  payload b h =
      memcpy_lem m₁ ptr' ptr s b disjoint
      ∙ copied_outside m₁ ptr' ptr s b (elim h [ inl p ↦ inl p | inr p ↦ inr (omega arith) ])

  heap₂ : Heap m₂ blocks₁
  heap₂ = Heap-payload m₁ m₂ blocks₁ ptr' size new_InUse payload heap

  -- The words of the area's header.
  word_same : (w : ℕ) → ptr ≤ w + header_size → w + 4 ≤ ptr → load32 m₂ w ≡ load32 m w
  word_same w lo hi =
      let (low, high) = InUse-bounds heap_start blocks ptr s old in
      let apart : (w + 4 ≤ heap_start + span before)
          ⊎ (heap_start + span before + header_size + free ≤ w) =
        elim (beside ptr s old).1 [ inl p ↦ inl (omega arith) | inr p ↦ inr (omega arith) ] in
      load32-load8 m₁ m₂ w (λ b p q.
        payload b (elim apart [
          | inl r ↦ inl (omega (arith, bounds))
          | inr r ↦ inr (omega (arith, bounds))
        ]))
      ∙ same w apart

  prev_same : get_prev_address m₂ (ptr - header_size) ≡ get_prev_address m (ptr - header_size)
  unfolding get_prev_address
  prev_same =
      let (low, high) = InUse-bounds heap_start blocks ptr s old in
      ap (λ x. bit_and x (complement32 7))
        (word_same (prev_field (ptr - header_size)) (omega arith) (omega arith))

  still : (x : ℕ) → IsHeaderOrNull blocks x → IsHeaderOrNull blocks₁ x
  still x (inl e) = inl e
  still x (inr h) =
      inr (IsBoundary-replace heap_start before (block free false) new after x whole h)

  -- What `kfree` leaves of the copy.
  record Freed : Type 0 where
    left : Memory
    returns : kfree m₂ ptr ≡ some left
    bytes : KeepsBytes blocks₁ m₂ left
    free_mark : get_area_used left (ptr - header_size) ≡ false
    other_marks :
        (z : ℕ) → z % 8 ≡ 0 → z ≢ ptr - header_size → get_area_used left z ≡ get_area_used m₂ z

  freed_at :
      (front back : List Block) (room : ℕ)
      → blocks₁ ≡ front ++ block room true ∷ back
      → ptr ≡ heap_start + span front + header_size
      → Freed
  freed_at front [] room place at =
      let h = subst (Heap m₂) place heap₂ in
      let (head, stop) = Segment-middle m₂ m₂ front (block room true ∷ []) [] h in
      let end = (Segment-split m₂ heap_start front (block room true ∷ []) heap_end h.areas).1.1 in
      let back : ptr - header_size ≡ heap_start + span front = omega (arith, at) in
      let word' = word_same (ptr - header_size) (omega (arith, at)) (omega (arith, at)) in
      let word'' : load32 m₂ (heap_start + span front) ≡ ptr + s + 1 =
        subst (λ x. load32 m₂ x ≡ ptr + s + 1) back (word' ∙ word) in
      absurd (omega (arith, head.word, word'', end, at, more))
  freed_at front (b ∷ rest) room place at =
      let back : ptr - header_size ≡ heap_start + span front = omega (arith, at) in
      let (left, e, bytes, mark, others) =
        kfree-Keeps m₂ front rest room b.size b.used (subst (Heap m₂) place heap₂) (
          subst (λ bs. IsHeaderOrNull bs (get_prev_address m₂ (heap_start + span front))) place
            (subst (λ x. IsHeaderOrNull blocks₁ (get_prev_address m₂ x)) back
              (subst (IsHeaderOrNull blocks₁) (sym prev_same) (still _ stale)))) in
      record {
        left = left;
        returns = ap (kfree m₂) at ∙ e;
        bytes = subst (λ bs. KeepsBytes bs m₂ left) (sym place) bytes;
        free_mark = ap (get_area_used left) back ∙ mark;
        other_marks = λ z al ne. others z al (λ e'. ne (e' ∙ sym back));
      }

  freed : Freed
  freed =
      let p = InUse-Place heap_start blocks₁ ptr s (beside ptr s old).0 in
      freed_at p.front p.back p.room p.place p.at

  new_mark : get_area_used freed.left (ptr' - header_size) ≡ true
  new_mark =
      let p = InUse-Place heap_start blocks₁ ptr' size new_InUse in
      let back : ptr' - header_size ≡ heap_start + span p.front = omega (arith, p.at) in
      let head =
        (Segment-middle m₂ m₂ p.front (block p.room true ∷ []) p.back
          (subst (Heap m₂) p.place heap₂)).0 in
      let (low, high) = InUse-bounds heap_start blocks ptr s old in
      let apart : heap_start + span p.front ≢ ptr - header_size = λ e. elim (beside ptr s old).1 [
        | inl h ↦ omega (arith, p.at, low, bounds, e)
        | inr h ↦ omega (arith, p.at, low, bounds, e)
      ] in
      ap (get_area_used freed.left) back
      ∙ freed.other_marks (heap_start + span p.front) head.aligned apart
      ∙ used_of_header m₂ (heap_start + span p.front) (block p.room true) head

  pub Moved-copy :
      (m' : Memory) × (kfree m₂ ptr ≡ some m')
      × Moved blocks ptr s size ptr' m m'
      × (get_area_used m' (ptr - header_size) ≡ false)
      × (get_area_used m' (ptr' - header_size) ≡ true)
  Moved-copy = (
    freed.left,
    freed.returns,
    (
      λ q n b h lo hi.
          freed.bytes q n b (beside q n h).0 lo hi
          ∙ payload b (elim (beside q n h).1 [
            | inl p ↦ inl (omega (arith, bounds))
            | inr p ↦ inr (omega (arith, bounds))
          ])
          ∙ copy_kept q n b h lo hi,
      λ i h h'.
          freed.bytes ptr' size (ptr' + i) new_InUse (omega arith) (omega arith)
          ∙ memcpy_lem m₁ ptr' ptr s (ptr' + i) disjoint
          ∙ copied_inside m₁ ptr' ptr s i h
          ∙ copy_kept ptr s (ptr + i) old (omega arith) (omega arith),
    ),
    freed.free_mark,
    new_mark,
  )
