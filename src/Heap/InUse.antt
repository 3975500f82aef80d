-- ===== src/Heap/InUse.antt =====
-- Areas of a layout that are in use, and what leaves them alone.
use simple_kernel.Base.{
  ℕ, ◌+◌, ◌≤◌, ◌<◌, ◌≡◌, ◌⊎◌, inl, inr, ap, ◌∙◌, subst, arith, Bool, true, false, List, [], ◌∷◌,
  ◌++◌,
}
use simple_kernel.Memory.{Memory, load8, load32}
use simple_kernel.Heap.Header.{header_size, heap_start, heap_end}
use simple_kernel.Heap.Layout.{Block, block, span, Segment, Segment-frame, Segment-span, Heap}

-- In the layout from `a` on, the `size` bytes at `ptr` are in one block that is in use, from its
-- payload's start on.
abbrev pub InUse : ℕ → List Block → ℕ → ℕ → Type 0
InUse a [] ptr size = ⊥
InUse a (b ∷ bs) ptr size =
    ((ptr ≡ a + header_size) × (b.used ≡ true) × (size ≤ b.size))
    ⊎ InUse (a + header_size + b.size) bs ptr size

-- Two areas with the headers in front of them.
abbrev pub AreApart : ℕ → ℕ → ℕ → ℕ → Type 0
AreApart ptr size ptr' size' =
    (ptr + size + header_size ≤ ptr') ⊎ (ptr' + size' + header_size ≤ ptr)

InUse-at :
    {a a' : ℕ} (bs : List Block) (ptr size : ℕ)
    → a ≡ a'
    → InUse a bs ptr size
    → InUse a' bs ptr size
InUse-at bs ptr size e h = subst (λ x. InUse x bs ptr size) e h

pub InUse-bounds :
    (a : ℕ) (bs : List Block) (ptr size : ℕ)
    → InUse a bs ptr size
    → (a + header_size ≤ ptr) × (ptr + size ≤ a + span bs)
InUse-bounds a [] ptr size h = absurd h
InUse-bounds a (b ∷ bs) ptr size (inl h) = (omega arith, omega arith)
InUse-bounds a (b ∷ bs) ptr size (inr h) =
    let (low, high) = InUse-bounds (a + header_size + b.size) bs ptr size h in
    (omega arith, omega arith)

pub InUse-later :
    (a : ℕ) (xs ys : List Block) (ptr size : ℕ)
    → InUse (a + span xs) ys ptr size
    → InUse a (xs ++ ys) ptr size
InUse-later a [] ys ptr size h = InUse-at ys ptr size (omega arith) h
InUse-later a (x ∷ xs) ys ptr size h =
    inr
      (InUse-later (a + header_size + x.size) xs ys ptr size (InUse-at ys ptr size (omega arith) h))

pub InUse-sooner :
    (a : ℕ) (xs ys : List Block) (ptr size : ℕ) → InUse a xs ptr size → InUse a (xs ++ ys) ptr size
InUse-sooner a [] ys ptr size h = absurd h
InUse-sooner a (x ∷ xs) ys ptr size (inl h) = inl h
InUse-sooner a (x ∷ xs) ys ptr size (inr h) =
    inr (InUse-sooner (a + header_size + x.size) xs ys ptr size h)

-- What is in use beside a free block stays so when other blocks take that block's place, and is
-- apart from it.
pub InUse-replace :
    (a : ℕ) (before : List Block) (s : ℕ) (new after : List Block) (ptr size : ℕ)
    → span new ≡ header_size + s
    → InUse a (before ++ block s false ∷ after) ptr size
    → InUse a (before ++ (new ++ after)) ptr size
      × ((ptr + size ≤ a + span before) ⊎ (a + span before + header_size + s + header_size ≤ ptr))
InUse-replace a [] s new after ptr size e (inl (at, used, fits)) = cc
InUse-replace a [] s new after ptr size e (inr h) =
    let (low, high) = InUse-bounds (a + header_size + s) after ptr size h in
    (InUse-later a new after ptr size (InUse-at after ptr size (omega arith) h), inr (omega arith))
InUse-replace a (b ∷ before) s new after ptr size e (inl h) = (inl h, inl (omega arith))
InUse-replace a (b ∷ before) s new after ptr size e (inr h) =
    let (kept, apart) = InUse-replace (a + header_size + b.size) before s new after ptr size e h in
    (inr kept, elim apart [ inl p ↦ inl (omega arith) | inr p ↦ inr (omega arith) ])

pub load32-load8 :
    (m m' : Memory) (a : ℕ)
    → ((b : ℕ) → a ≤ b → b < a + 4 → load8 m' b ≡ load8 m b)
    → load32 m' a ≡ load32 m a
unfolding load8 load32
load32-load8 m m' a same = omega (
  arith,
  same a (omega arith) (omega arith),
  same (a + 1) (omega arith) (omega arith),
  same (a + 2) (omega arith) (omega arith),
  same (a + 3) (omega arith) (omega arith),
)

-- Writes to the bytes of an area change no header.
Segment-payload :
    (m m' : Memory) (a : ℕ) (bs : List Block) (stop ptr size : ℕ)
    → InUse a bs ptr size
    → ((b : ℕ) → (b < ptr) ⊎ (ptr + size ≤ b) → load8 m' b ≡ load8 m b)
    → Segment m a bs stop
    → Segment m' a bs stop
Segment-payload m m' a [] stop ptr size h same seg = absurd h
Segment-payload m m' a (b ∷ bs) stop ptr size (inl (at, used, fits)) same (head, rest) = (
  record {
    aligned = head.aligned;
    whole = head.whole;
    word = load32-load8 m m' a (λ c p q. same c (inl (omega arith))) ∙ head.word;
  },
  Segment-frame m m' (a + header_size + b.size) bs stop
      (λ c al p q. load32-load8 m m' c (λ d p' q'. same d (inr (omega arith)))) rest,
)
Segment-payload m m' a (b ∷ bs) stop ptr size (inr h) same (head, rest) =
    let (low, high) = InUse-bounds (a + header_size + b.size) bs ptr size h in
    (
      record {
        aligned = head.aligned;
        whole = head.whole;
        word = load32-load8 m m' a (λ c p q. same c (inl (omega arith))) ∙ head.word;
      },
      Segment-payload m m' (a + header_size + b.size) bs stop ptr size h same rest,
    )

pub Heap-payload :
    (m m' : Memory) (bs : List Block) (ptr size : ℕ)
    → InUse heap_start bs ptr size
    → ((b : ℕ) → (b < ptr) ⊎ (ptr + size ≤ b) → load8 m' b ≡ load8 m b)
    → Heap m bs
    → Heap m' bs
Heap-payload m m' bs ptr size h same heap =
    let (low, high) = InUse-bounds heap_start bs ptr size h in
    let end = Segment-span m heap_start bs heap_end heap.areas in
    record {
      areas = Segment-payload m m' heap_start bs heap_end ptr size h same heap.areas;
      epsilon = load32-load8 m m' heap_end (λ c p q. same c (inr (omega arith))) ∙ heap.epsilon;
    }

-- Where the block of an area in use stands in the layout.
pub record Place (a : ℕ) (bs : List Block) (ptr size : ℕ) : Type 0 where
  pub front : List Block
  pub back : List Block
  pub room : ℕ
  pub place : bs ≡ front ++ block room true ∷ back
  pub at : ptr ≡ a + span front + header_size

pub InUse-Place :
    (a : ℕ) (bs : List Block) (ptr size : ℕ) → InUse a bs ptr size → Place a bs ptr size
InUse-Place a [] ptr size h = absurd h
InUse-Place a (b ∷ bs) ptr size (inl (at, used, fits)) = record {
  front = [];
  back = bs;
  room = b.size;
  place = ap (λ (u : Bool). block b.size u ∷ bs) used;
  at = omega arith;
}
InUse-Place a (b ∷ bs) ptr size (inr h) =
    let p = InUse-Place (a + header_size + b.size) bs ptr size h in
    record {
      front = b ∷ p.front;
      back = p.back;
      room = p.room;
      place = ap (λ (x : List Block). b ∷ x) p.place;
      at = omega (arith, p.at);
    }
