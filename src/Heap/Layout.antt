-- ===== src/Heap/Layout.antt =====
-- A heap as a list of blocks that tile it, and the headers in memory that spell such a list.
use mathlib.Core.Path.{subst}
use simple_kernel.Base.{
  ℕ, ◌+◌, ◌/◌, ◌%◌, ◌≤◌, ◌≡◌, sym, arith, Bool, false, List, [], ◌∷◌, ◌++◌, if◌then◌else◌,
}
use simple_kernel.Bits.Masks.{and_one, and_not_seven}
use simple_kernel.Memory.{Memory, load32, load32-lt}
use simple_kernel.Heap.Header.{
  header_size, heap_start, heap_end, get_next_address, get_area_used, get_area_epsilon,
  get_area_size,
}

-- The bytes behind a header, and whether they are in use.
pub record Block : Type 0 where
  pub size : ℕ
  pub used : Bool

abbrev pub block : ℕ → Bool → Block
block s u = record { size = s; used = u }

abbrev pub flag : Bool → ℕ
flag u = if u then 1 else 0

-- The bytes of blocks with their headers.
abbrev pub span : List Block → ℕ
span [] = 0
span (b ∷ bs) = header_size + b.size + span bs

-- The word `next` of a block's header: the address of the next header and the flag "used".
pub record IsHeader (m : Memory) (a : ℕ) (b : Block) : Type 0 where
  pub aligned : a % 8 ≡ 0
  pub whole : b.size % 8 ≡ 0
  pub word : load32 m a ≡ a + header_size + b.size + flag b.used

-- From `a` to `stop` the headers are those of the blocks.
abbrev pub Segment : Memory → ℕ → List Block → ℕ → Type 0
Segment m a [] stop = a ≡ stop
Segment m a (b ∷ bs) stop = IsHeader m a b × Segment m (a + header_size + b.size) bs stop

-- The areas from `heap_start` on are `bs`, and the area at `heap_end` has the flag "epsilon" only.
pub record Heap (m : Memory) (bs : List Block) : Type 0 where
  pub areas : Segment m heap_start bs heap_end
  pub epsilon : load32 m heap_end ≡ 2

pub Segment-span :
    (m : Memory) (a : ℕ) (bs : List Block) (b : ℕ) → Segment m a bs b → a + span bs ≡ b
Segment-span m a [] b h = omega arith
Segment-span m a (x ∷ xs) b (head, rest) =
    omega (arith, Segment-span m (a + header_size + x.size) xs b rest)

pub Segment-frame :
    (m m' : Memory) (a : ℕ) (bs : List Block) (b : ℕ)
    → ((c : ℕ) → c % 8 ≡ 0 → a ≤ c → c + header_size ≤ b → load32 m' c ≡ load32 m c)
    → Segment m a bs b
    → Segment m' a bs b
Segment-frame m m' a [] b same h = h
Segment-frame m m' a (x ∷ xs) b same (head, rest) = (
  record {
    aligned = head.aligned;
    whole = head.whole;
    word = omega (
      arith,
      same a head.aligned,
      head.word,
      Segment-span m (a + header_size + x.size) xs b rest,
    );
  },
  Segment-frame m m' (a + header_size + x.size) xs b (λ c al p q. same c al (omega arith) q) rest,
)

pub Segment-append :
    (m : Memory) (a : ℕ) (xs ys : List Block) (b c : ℕ)
    → Segment m a xs b
    → Segment m b ys c
    → Segment m a (xs ++ ys) c
Segment-append m a [] ys b c h k = subst (λ x. Segment m x ys c) (sym h) k
Segment-append m a (x ∷ xs) ys b c (head, rest) k =
    (head, Segment-append m (a + header_size + x.size) xs ys b c rest k)

pub Segment-split :
    (m : Memory) (a : ℕ) (xs ys : List Block) (c : ℕ)
    → Segment m a (xs ++ ys) c
    → Segment m a xs (a + span xs) × Segment m (a + span xs) ys c
Segment-split m a [] ys c h = (omega arith, subst (λ x. Segment m x ys c) (omega arith) h)
Segment-split m a (x ∷ xs) ys c (head, rest) =
    let (front, back) = Segment-split m (a + header_size + x.size) xs ys c rest in
    let e : a + header_size + x.size + span xs ≡ a + span (x ∷ xs) = omega arith in
    (
      (head, subst (λ t. Segment m (a + header_size + x.size) xs t) e front),
      subst (λ t. Segment m t ys c) e back,
    )

-- What the code reads from a header.
module _ (m : Memory) (a : ℕ) (b : Block) (head : IsHeader m a b) where
  pub next_of_header : get_next_address m a ≡ a + header_size + b.size
  unfolding get_next_address
  next_of_header =
      ground
        (arith, and_not_seven (load32 m a) (load32-lt m a), head.word, head.aligned, head.whole)

  pub used_of_header : get_area_used m a ≡ b.used
  unfolding get_area_used
  used_of_header = ground (arith, and_one (load32 m a), head.word, head.aligned, head.whole)

  pub epsilon_of_header : get_area_epsilon m a ≡ false
  unfolding get_area_epsilon
  epsilon_of_header = ground (arith, and_one (load32 m a / 2), head.word, head.aligned, head.whole)

  pub size_of_header : get_area_size m a ≡ b.size
  unfolding get_area_size
  size_of_header = ground (arith, epsilon_of_header, next_of_header, load32-lt m a, head.word)
