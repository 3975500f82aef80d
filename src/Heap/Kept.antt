-- ===== src/Heap/Kept.antt =====
-- What `kfree` leaves in the areas that are in use.
use simple_kernel.Base.{
  ℕ, ◌+◌, ◌%◌, ◌^◌, ◌<◌, ◌≡◌, ◌≢◌, inl, inr, refl, ap, sym, ◌∙◌, subst, arith, Bool, true, false,
  some, List, [], ◌∷◌, ◌++◌, not, ◌&&◌, ◌==◌, leb, bit_and, Bool-cases,
}
use simple_kernel.Bits.Masks.{and_one, and_not_seven}
use simple_kernel.Memory.{Memory, load32, load32-lt, Apart}
use simple_kernel.Heap.Header.{
  header_size, null, heap_start, prev_field, get_next_address, set_next_address, get_prev_address,
  set_prev_address, get_area_used, set_area_used,
}
use simple_kernel.Heap.{kfree, merge_free_areas}
use simple_kernel.Heap.Layout.{
  Block, block, span, IsHeader, Segment, Heap, used_of_header, next_of_header,
}
use simple_kernel.Heap.Merge.{aligned-Apart}
use simple_kernel.Heap.Replace.{Apart-outside, Heap-replace, Segment-middle, span_bound}
use simple_kernel.Heap.Write.{
  load32-set_used-Apart, load32-set_next_self, load32-set_next-Apart, load32-set_prev-Apart,
}
use simple_kernel.Heap.Free.{kfree-merge, prev_kept, unmark-IsHeader, IsHeader-kept}
use simple_kernel.Heap.Boundary.{
  IsBoundary, IsBoundary-later, IsBoundary-replace, IsHeaderOrNull, next-IsHeaderOrNull, KeepsBytes,
  set_next-KeepsBytes, set_prev-KeepsBytes, set_used-KeepsBytes,
}

-- The headers at multiples of 8 are in use in `m'` as they are in `m`.
abbrev pub KeepsUsed : Memory → Memory → Type 0
KeepsUsed m m' = (z : ℕ) → z % 8 ≡ 0 → get_area_used m' z ≡ get_area_used m z

next_aligned :
    (m : Memory) (x : ℕ) → (get_next_address m x % 8 ≡ 0) × (get_next_address m x < 2 ^ 32)
unfolding get_next_address
next_aligned m x =
    let e = and_not_seven (load32 m x) (load32-lt m x) in
    (omega (arith, e), omega (arith, e, load32-lt m x))

prev_aligned :
    (m : Memory) (x : ℕ) → (get_prev_address m x % 8 ≡ 0) × (get_prev_address m x < 2 ^ 32)
unfolding get_prev_address
prev_aligned m x =
    let e = and_not_seven (load32 m (prev_field x)) (load32-lt m (prev_field x)) in
    (omega (arith, e), omega (arith, e, load32-lt m (prev_field x)))

set_next-KeepsUsed :
    (m : Memory) (x y : ℕ)
    → x % 8 ≡ 0
    → (y % 8 ≡ 0) × (y < 2 ^ 32)
    → KeepsUsed m (set_next_address m x y)
unfolding get_area_used
set_next-KeepsUsed m x y al (al', small) z alz = elim (Bool-cases (x == z)) [
  | inl same ↦
      let at : x ≡ z = ground (arith, same) in
      let word = load32-set_next_self m x y al' small in
      let flag : bit_and (load32 (set_next_address m x y) x) 1 ≡ bit_and (load32 m x) 1 =
        and_one (load32 (set_next_address m x y) x)
        ∙ omega (arith, word)
        ∙ sym (and_one (load32 m x)) in
      subst
        (λ a. (bit_and (load32 (set_next_address m x y) a) 1 == 1) ≡ (bit_and (load32 m a) 1 == 1))
        at (ap (λ w. w == 1) flag)
  | inr differ ↦
      let apart : Apart x z = elim (Bool-cases (leb x z)) [
        | inl le ↦ inl (ground arith)
        | inr gt ↦ inr (ground arith)
      ] in
      ap (λ w. bit_and w 1 == 1) (load32-set_next-Apart m x y z apart)
]

set_prev-KeepsUsed : (m : Memory) (x y : ℕ) → x % 8 ≡ 0 → KeepsUsed m (set_prev_address m x y)
unfolding get_area_used
set_prev-KeepsUsed m x y al z alz =
    ap (λ w. bit_and w 1 == 1) (load32-set_prev-Apart m x y z (aligned-Apart z x alz al))

-- What `m'` has as `m` has it: the bytes of the areas in use, and the headers' flags.
abbrev pub Keeps : List Block → Memory → Memory → Type 0
Keeps bs m m' = KeepsBytes bs m m' × KeepsUsed m m'

Keeps-trans :
    (bs : List Block) (m m' m'' : Memory) → Keeps bs m m' → Keeps bs m' m'' → Keeps bs m m''
Keeps-trans bs m m' m'' (h, u) (k, v) =
    (λ ptr size b used p q. k ptr size b used p q ∙ h ptr size b used p q, λ z al. v z al ∙ u z al)

module _ (bs : List Block) (m : Memory) (area : ℕ) (al : area % 8 ≡ 0) where
  abbrev prev : ℕ
  prev = get_prev_address m area

  abbrev next : ℕ
  next = get_next_address m area

  abbrev na : ℕ
  na = get_next_address m next

  abbrev root : Bool
  root = not (prev == null) && not (get_area_used m prev)

  abbrev tail : Bool
  tail = not (next == null) && not (get_area_used m next)

  next_Keeps :
      (m' : Memory) (x y : ℕ)
      → IsHeaderOrNull bs x
      → x % 8 ≡ 0
      → (y % 8 ≡ 0) × (y < 2 ^ 32)
      → Keeps bs m' (set_next_address m' x y)
  next_Keeps m' x y at al' aly =
      (set_next-KeepsBytes bs m' x at y, set_next-KeepsUsed m' x y al' aly)

  prev_Keeps :
      (m' : Memory) (x y : ℕ)
      → IsHeaderOrNull bs x
      → x % 8 ≡ 0
      → Keeps bs m' (set_prev_address m' x y)
  prev_Keeps m' x y at al' = (set_prev-KeepsBytes bs m' x at y, set_prev-KeepsUsed m' x y al')

  -- With an area behind the next one, nothing is written through `NULL`.
  merge_free_areas-Keeps :
      IsHeaderOrNull bs area
      → IsHeaderOrNull bs prev
      → IsHeaderOrNull bs next
      → IsHeaderOrNull bs na
      → (next == null) ≡ false
      → (na == null) ≡ false
      → (m' : Memory) × (merge_free_areas m area ≡ some m') × Keeps bs m m'
  unfolding merge_free_areas
  merge_free_areas-Keeps at before behind further here there =
      let pal = prev_aligned m area in
      let nal = next_aligned m area in
      let fal = next_aligned m next in
      elim (Bool-cases tail) [
        | inl t ↦ elim (Bool-cases root) [
          | inl r ↦ (
            set_prev_address (set_next_address m prev na) na prev,
            rw (t, r, there) refl,
            Keeps-trans bs m (set_next_address m prev na) _ (next_Keeps m prev na before pal.0 fal)
                (prev_Keeps (set_next_address m prev na) na prev further fal.0),
          )
          | inr r ↦ (
            set_prev_address (set_next_address m area na) next area,
            rw (t, r) refl,
            Keeps-trans bs m (set_next_address m area na) _ (next_Keeps m area na at al fal)
                (prev_Keeps (set_next_address m area na) next area behind nal.0),
          )
        ]
        | inr t ↦ elim (Bool-cases root) [
          | inl r ↦ (
            set_next_address (set_prev_address m next prev) prev next,
            rw (t, r, here) refl,
            Keeps-trans bs m (set_prev_address m next prev) _ (prev_Keeps m next prev behind nal.0)
                (next_Keeps (set_prev_address m next prev) prev next before pal.0 nal),
          )
          | inr r ↦ (m, rw (t, r) refl, (λ ptr size b used p q. refl, λ z alz. refl))
        ]
      ]

module _ (m : Memory) (front rest : List Block) (s t : ℕ) (w : Bool)
    (heap : Heap m (front ++ block s true ∷ block t w ∷ rest)) where
  abbrev back : List Block
  back = block t w ∷ rest

  abbrev here : ℕ
  here = heap_start + span front

  abbrev blocks : List Block
  blocks = front ++ block s true ∷ back

  abbrev cleared : List Block
  cleared = front ++ block s false ∷ back

  abbrev unmarked : Memory
  unmarked = set_area_used m here false

  parts : Segment m here (block s true ∷ []) (here + (header_size + s + 0))
  parts = Segment-middle m m front (block s true ∷ []) back heap

  unmarked-Heap : Heap unmarked cleared
  unmarked-Heap =
      Heap-replace m unmarked front (block s true ∷ []) back (block s false ∷ []) heap
        (λ c al h.
          load32-set_used-Apart m here c false (Apart-outside (omega arith) (omega arith) h))
        (unmark-IsHeader m here (block s true) parts.0, omega arith)

  here-IsBoundary : (u : Bool) → IsBoundary heap_start (front ++ block s u ∷ back) here
  here-IsBoundary u = IsBoundary-later heap_start front (block s u ∷ back) here (inl refl)

  -- Both layouts have the same headers.
  marked-IsBoundary : (x : ℕ) → IsBoundary heap_start cleared x → IsBoundary heap_start blocks x
  marked-IsBoundary x h =
      IsBoundary-replace heap_start front (block s false) (block s true ∷ []) back x (omega arith) h

  marked-IsHeaderOrNull : (x : ℕ) → IsHeaderOrNull cleared x → IsHeaderOrNull blocks x
  marked-IsHeaderOrNull x (inl e) = inl e
  marked-IsHeaderOrNull x (inr h) = inr (marked-IsBoundary x h)

  further-IsHeaderOrNull :
      (x : ℕ)
      → IsHeaderOrNull cleared x
      → x ≢ null
      → IsHeaderOrNull blocks (get_next_address unmarked x)
  further-IsHeaderOrNull x (inl e) ne = absurd (ne e)
  further-IsHeaderOrNull x (inr h) ne =
      marked-IsHeaderOrNull (get_next_address unmarked x)
        (next-IsHeaderOrNull unmarked cleared x unmarked-Heap h)

  other_mark : (z : ℕ) → z % 8 ≡ 0 → z ≢ here → get_area_used unmarked z ≡ get_area_used m z
  unfolding get_area_used
  other_mark z al ne =
      let apart : Apart here z = elim (Bool-cases (leb here z)) [
        | inl le ↦ inl (ground (arith, parts.0.aligned))
        | inr gt ↦ inr (ground (arith, parts.0.aligned))
      ] in
      ap (λ w. bit_and w 1 == 1) (load32-set_used-Apart m here z false apart)

  next_head : IsHeader m (here + header_size + s) (block t w)
  next_head = (Segment-middle m m front (block s true ∷ block t w ∷ []) rest heap).1.0

  new_here : IsHeader unmarked here (block s false)
  new_here = unmark-IsHeader m here (block s true) parts.0

  next_lem : get_next_address unmarked here ≡ here + header_size + s
  next_lem = next_of_header unmarked here (block s false) new_here

  na_lem :
      get_next_address unmarked (get_next_address unmarked here)
      ≡ here + header_size + s + header_size + t
  na_lem =
      ap (get_next_address unmarked) next_lem
      ∙ next_of_header unmarked (here + header_size + s) (block t w) (
          IsHeader-kept m here (here + header_size + s) false (block t w) (inl (omega arith))
            next_head)

  next-IsBoundary : IsBoundary heap_start cleared (here + header_size + s)
  next-IsBoundary =
      IsBoundary-later heap_start front (block s false ∷ back) (here + header_size + s)
        (inr (inl refl))

  -- `kfree` of an area in use that is not the last one, and whose `prev` field is `NULL` or names a
  -- header, does not fault. It changes no byte of an area in use, marks that area as free and leaves
  -- the other marks.
  pub kfree-Keeps :
      IsHeaderOrNull blocks (get_prev_address m here)
      → (m' : Memory) × (kfree m (here + header_size) ≡ some m')
        × KeepsBytes blocks m m'
        × (get_area_used m' here ≡ false)
        × ((z : ℕ) → z % 8 ≡ 0 → z ≢ here → get_area_used m' z ≡ get_area_used m z)
  kfree-Keeps before =
      let small : here + header_size < 2 ^ 32 =
        omega (arith, span_bound m m front (block s true ∷ []) back heap) in
      let behind =
        next-IsHeaderOrNull unmarked cleared here unmarked-Heap (here-IsBoundary false) in
      let further =
        subst (λ x. IsHeaderOrNull cleared (get_next_address unmarked x)) (sym next_lem)
          (next-IsHeaderOrNull unmarked cleared (here + header_size + s) unmarked-Heap
            next-IsBoundary) in
      let (m', e, (bytes, used)) =
        merge_free_areas-Keeps blocks unmarked here new_here.aligned (inr (here-IsBoundary true))
          (subst (IsHeaderOrNull blocks) (sym (prev_kept m here false)) before)
          (marked-IsHeaderOrNull (get_next_address unmarked here) behind)
          (marked-IsHeaderOrNull (get_next_address unmarked (get_next_address unmarked here))
            further)
          (ground (arith, next_lem)) (ground (arith, na_lem)) in
      (
        m',
        kfree-merge m here small (used_of_header m here (block s true) parts.0) ∙ e,
        λ ptr size b inside p q.
            bytes ptr size b inside p q
            ∙ set_used-KeepsBytes blocks m here (inr (here-IsBoundary true)) false ptr size b inside
                p q,
        used here new_here.aligned ∙ used_of_header unmarked here (block s false) new_here,
        λ z al ne. used z al ∙ other_mark z al ne,
      )
