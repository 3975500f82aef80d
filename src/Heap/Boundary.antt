-- ===== src/Heap/Boundary.antt =====
-- Where the headers of a layout stand, and that writes to headers keep the bytes of the areas.
use simple_kernel.Base.{
  ℕ, ◌+◌, ◌≤◌, ◌<◌, ◌≡◌, ◌⊎◌, inl, inr, refl, ap, sym, ◌∙◌, subst, arith, Bool, true, false, List,
  [], ◌∷◌, ◌++◌, bit_and, complement32,
}
use simple_kernel.Memory.{Memory, load8, load32, store32}
use simple_kernel.Heap.Header.{
  header_size, null, heap_start, heap_end, prev_field, get_next_address, set_next_address,
  set_prev_address, set_area_used,
}
use simple_kernel.Heap.Layout.{Block, span, Segment, Heap, next_of_header}
use simple_kernel.Heap.InUse.{InUse, InUse-bounds}

-- `x` is the address of a block of the layout from `a` on, or of its end.
abbrev pub IsBoundary : ℕ → List Block → ℕ → Type 0
IsBoundary a [] x = x ≡ a
IsBoundary a (b ∷ bs) x = (x ≡ a) ⊎ IsBoundary (a + header_size + b.size) bs x

pub IsBoundary-bounds :
    (a : ℕ) (bs : List Block) (x : ℕ) → IsBoundary a bs x → (a ≤ x) × (x ≤ a + span bs)
IsBoundary-bounds a [] x h = (omega arith, omega arith)
IsBoundary-bounds a (b ∷ bs) x (inl h) = (omega arith, omega arith)
IsBoundary-bounds a (b ∷ bs) x (inr h) =
    let (low, high) = IsBoundary-bounds (a + header_size + b.size) bs x h in
    (omega arith, omega arith)

pub IsBoundary-start : (a : ℕ) (bs : List Block) → IsBoundary a bs a
IsBoundary-start a [] = refl
IsBoundary-start a (b ∷ bs) = inl refl

pub IsBoundary-later :
    (a : ℕ) (xs ys : List Block) (x : ℕ) → IsBoundary (a + span xs) ys x → IsBoundary a (xs ++ ys) x
IsBoundary-later a [] ys x h = subst (λ y. IsBoundary y ys x) (omega arith) h
IsBoundary-later a (b ∷ xs) ys x h = inr (
    IsBoundary-later (a + header_size + b.size) xs ys x
      (subst (λ y. IsBoundary y ys x) (omega arith) h))

-- Other blocks in the place of one keep the boundaries around it.
pub IsBoundary-replace :
    (a : ℕ) (before : List Block) (old : Block) (new after : List Block) (x : ℕ)
    → span new ≡ header_size + old.size
    → IsBoundary a (before ++ old ∷ after) x
    → IsBoundary a (before ++ (new ++ after)) x
IsBoundary-replace a [] old new after x e (inl at) =
    subst (IsBoundary a (new ++ after)) (sym at) (IsBoundary-start a (new ++ after))
IsBoundary-replace a [] old new after x e (inr h) =
    IsBoundary-later a new after x (subst (λ y. IsBoundary y after x) (omega arith) h)
IsBoundary-replace a (b ∷ before) old new after x e (inl at) = inl at
IsBoundary-replace a (b ∷ before) old new after x e (inr h) =
    inr (IsBoundary-replace (a + header_size + b.size) before old new after x e h)

-- No header stands in the bytes of an area.
pub InUse-IsBoundary :
    (a : ℕ) (bs : List Block) (ptr size x : ℕ)
    → InUse a bs ptr size
    → IsBoundary a bs x
    → (ptr + size ≤ x) ⊎ (x + header_size ≤ ptr)
InUse-IsBoundary a [] ptr size x h k = absurd h
InUse-IsBoundary a (b ∷ bs) ptr size x (inl h) (inl k) = inr (omega arith)
InUse-IsBoundary a (b ∷ bs) ptr size x (inl h) (inr k) =
    let (low, high) = IsBoundary-bounds (a + header_size + b.size) bs x k in inl (omega arith)
InUse-IsBoundary a (b ∷ bs) ptr size x (inr h) (inl k) =
    let (low, high) = InUse-bounds (a + header_size + b.size) bs ptr size h in inr (omega arith)
InUse-IsBoundary a (b ∷ bs) ptr size x (inr h) (inr k) =
    InUse-IsBoundary (a + header_size + b.size) bs ptr size x h k

-- A header of the layout, or `NULL`.
abbrev pub IsHeaderOrNull : List Block → ℕ → Type 0
IsHeaderOrNull bs x = (x ≡ null) ⊎ IsBoundary heap_start bs x

-- The header behind one of the layout is one as well; behind the last there is none.
next-IsBoundary :
    (m : Memory) (a : ℕ) (bs : List Block) (stop x : ℕ)
    → load32 m stop ≡ 2
    → Segment m a bs stop
    → IsBoundary a bs x
    → (get_next_address m x ≡ null) ⊎ IsBoundary a bs (get_next_address m x)
unfolding get_next_address
next-IsBoundary m a [] stop x last seg at =
    inl (ap (λ w. bit_and w (complement32 7)) (ap (load32 m) (at ∙ seg) ∙ last))
next-IsBoundary m a (b ∷ bs) stop x last (head, rest) (inl at) = inr (
    inr (
      subst (IsBoundary (a + header_size + b.size) bs)
        (sym (ap (get_next_address m) at ∙ next_of_header m a b head))
        (IsBoundary-start (a + header_size + b.size) bs)))
next-IsBoundary m a (b ∷ bs) stop x last (head, rest) (inr h) =
    elim (next-IsBoundary m (a + header_size + b.size) bs stop x last rest h) [
      | inl none_there ↦ inl none_there
      | inr there ↦ inr (inr there)
    ]

pub next-IsHeaderOrNull :
    (m : Memory) (bs : List Block) (x : ℕ)
    → Heap m bs
    → IsBoundary heap_start bs x
    → IsHeaderOrNull bs (get_next_address m x)
next-IsHeaderOrNull m bs x heap h =
    next-IsBoundary m heap_start bs heap_end x heap.epsilon heap.areas h

-- `m'` has the bytes of the layout's areas in use as `m` has them.
abbrev pub KeepsBytes : List Block → Memory → Memory → Type 0
KeepsBytes bs m m' =
    (ptr size b : ℕ)
    → InUse heap_start bs ptr size
    → ptr ≤ b
    → b < ptr + size
    → load8 m' b ≡ load8 m b

load8-store32 :
    (m : Memory) (w v b : ℕ) → (b < w) ⊎ (w + 4 ≤ b) → load8 (store32 m w v) b ≡ load8 m b
unfolding load8 store32
load8-store32 m w v b h = ground arith

module _ (bs : List Block) (m : Memory) (x : ℕ) (header : IsHeaderOrNull bs x) where
  word_apart :
      (w ptr size b : ℕ)
      → x ≤ w
      → w ≤ x + 4
      → InUse heap_start bs ptr size
      → ptr ≤ b
      → b < ptr + size
      → (b < w) ⊎ (w + 4 ≤ b)
  word_apart w ptr size b lo hi used p q =
      let (low, high) = InUse-bounds heap_start bs ptr size used in
      elim header [
        | inl at ↦ inr (omega arith)
        | inr at ↦ elim (InUse-IsBoundary heap_start bs ptr size x used at) [
          | inl behind ↦ inl (omega arith)
          | inr before ↦ inr (omega arith)
        ]
      ]

  pub set_next-KeepsBytes : (y : ℕ) → KeepsBytes bs m (set_next_address m x y)
  unfolding set_next_address
  set_next-KeepsBytes y ptr size b used p q =
      load8-store32 m x _ b (word_apart x ptr size b (omega arith) (omega arith) used p q)

  pub set_prev-KeepsBytes : (y : ℕ) → KeepsBytes bs m (set_prev_address m x y)
  unfolding set_prev_address
  set_prev-KeepsBytes y ptr size b used p q =
      load8-store32 m (prev_field x) _ b
        (word_apart (prev_field x) ptr size b (omega arith) (omega arith) used p q)

  pub set_used-KeepsBytes : (u : Bool) → KeepsBytes bs m (set_area_used m x u)
  unfolding set_area_used
  set_used-KeepsBytes true ptr size b used p q =
      load8-store32 m x _ b (word_apart x ptr size b (omega arith) (omega arith) used p q)
  set_used-KeepsBytes false ptr size b used p q =
      load8-store32 m x _ b (word_apart x ptr size b (omega arith) (omega arith) used p q)
