-- ===== src/Main/Texts.antt =====
-- The texts that `kernel_main` copies into memory and prints from there.
use simple_kernel.Base.{
  ℕ, zero, suc, ◌+◌, ◌≤◌, ◌<◌, ◌≡◌, ◌⊎◌, inl, inr, refl, ap, sym, ◌∙◌, subst, arith, none, some,
  Bool-cases, ◌&&◌, if◌then◌else◌, List, ◌∷◌, length,
}
use simple_kernel.Memory.{Memory, load8, memset}
use simple_kernel.Memory.Copy.{copied_inside, copied_outside, memset_lem}
use simple_kernel.Strings.{IsText, strlen_lem, strcpy_lem}
use simple_kernel.Tty.{terminal_write}
use simple_kernel.Print.{load_bytes}
use simple_kernel.Print.Text.{terminal_writestring_lem}
use simple_kernel.Ports.{PortIo}
use simple_kernel.Heap.Header.{heap_start}
use simple_kernel.Main.{Boot, System, touches, show, write_text}

abbrev pub kernel_base : ℕ
kernel_base = 0xC0000000

-- The text stands at `p`, between the kernel's first address and the heap, with a zero behind it.
pub record IsLiteral (m : Memory) (p : ℕ) (text : List ℕ) : Type 0 where
  pub low : kernel_base ≤ p
  pub high : p + length text < heap_start
  pub spells : load_bytes m p (length text) ≡ text
  pub ends : IsText m p (length text)

load_bytes-same :
    (m m' : Memory) (p q n : ℕ)
    → ((i : ℕ) → i < n → load8 m' (q + i) ≡ load8 m (p + i))
    → load_bytes m' q n ≡ load_bytes m p n
unfolding load_bytes
load_bytes-same m m' p q zero same = refl
load_bytes-same m m' p q (suc n) same =
    let head : load8 m' q ≡ load8 m p =
      subst (λ x. load8 m' x ≡ load8 m p) (omega arith)
        (subst (λ x. load8 m' (q + 0) ≡ load8 m x) (omega arith) (same 0 (omega arith))) in
    let rest = load_bytes-same m m' (p + 1) (q + 1) n (λ i h.
      let at : q + 1 + i ≡ q + suc i = omega arith in
      let at' : p + suc i ≡ p + 1 + i = omega arith in
      ap (load8 m') at ∙ same (suc i) (omega arith) ∙ ap (load8 m) at') in
    ap (λ x. x ∷ load_bytes m' (q + 1) n) head ∙ ap (λ (xs : List ℕ). load8 m p ∷ xs) rest

-- `m'` has the bytes of the kernel as `m` has them.
abbrev pub KeepsKernel : Memory → Memory → Type 0
KeepsKernel m m' = (b : ℕ) → kernel_base ≤ b → b < heap_start → load8 m' b ≡ load8 m b

IsText-same :
    (m m' : Memory) (p q n : ℕ)
    → ((i : ℕ) → i ≤ n → load8 m' (q + i) ≡ load8 m (p + i))
    → IsText m p n
    → IsText m' q n
IsText-same m m' p q n same text = record {
  body = λ i h e. text.body i h (sym (same i (omega arith)) ∙ e);
  end = same n (omega arith) ∙ text.end;
}

pub IsLiteral-kept :
    (m m' : Memory) (p : ℕ) (text : List ℕ)
    → KeepsKernel m m'
    → IsLiteral m p text
    → IsLiteral m' p text
IsLiteral-kept m m' p text kept lit = record {
  low = lit.low;
  high = lit.high;
  spells =
      load_bytes-same m m' p p (length text)
        (λ i h. kept (p + i) (omega (arith, lit.low)) (omega (arith, lit.high)))
      ∙ lit.spells;
  ends =
      IsText-same m m' p p (length text)
        (λ i h. kept (p + i) (omega (arith, lit.low)) (omega (arith, lit.high))) lit.ends;
}

cleared_outside :
    (m : Memory) (ptr size b : ℕ)
    → (b < ptr) ⊎ (ptr + size ≤ b)
    → load8 (memset m ptr 0 size) b ≡ load8 m b
cleared_outside m ptr size b (inl h) = ground (arith, memset_lem m ptr 0 size b)
cleared_outside m ptr size b (inr h) = ground (arith, memset_lem m ptr 0 size b)

-- The text goes into the `room` bytes at `ptr`, which are in the heap or below the kernel.
module _ (io : PortIo) (boot : Boot) (text : List ℕ) (ptr size to room : ℕ) (s : System io)
    (lit : IsLiteral s.kernel.mem (boot.literal text) text) (from : ptr ≤ to)
    (fits : to + length text < ptr + room) (within : size ≤ room)
    (outside : (ptr + room ≤ kernel_base) ⊎ (heap_start ≤ ptr)) where
  abbrev src : ℕ
  src = boot.literal text

  abbrev cleared : Memory
  cleared = memset s.kernel.mem ptr 0 size

  kernel_outside : (b : ℕ) → kernel_base ≤ b → b < heap_start → (b < ptr) ⊎ (ptr + room ≤ b)
  kernel_outside b lo hi = elim outside [
    | inl below ↦ inr (omega arith)
    | inr above ↦ inl (omega arith)
  ]

  narrow : (b : ℕ) → (b < ptr) ⊎ (ptr + room ≤ b) → (b < ptr) ⊎ (ptr + size ≤ b)
  narrow b (inl h) = inl h
  narrow b (inr h) = inr (omega arith)

  beside : (b : ℕ) → (b < ptr) ⊎ (ptr + room ≤ b) → (b < to) ⊎ (to + (length text + 1) ≤ b)
  beside b (inl h) = inl (omega arith)
  beside b (inr h) = inr (omega arith)

  lit₁ : IsLiteral cleared src text
  lit₁ =
      IsLiteral-kept s.kernel.mem cleared src text
        (λ b lo hi. cleared_outside s.kernel.mem ptr size b (narrow b (kernel_outside b lo hi))) lit

  apart : (to + length text < src) ⊎ (src + length text < to)
  apart = elim outside [
    | inl below ↦ inl (omega (arith, lit.low))
    | inr above ↦ inr (omega (arith, lit.high))
  ]

  pub write_text_lem :
      (m : Memory) × (write_text io boot ptr size to text s ≡ (
        if touches io boot s ptr size && touches io boot s to (length text + 1)
        then some
            record s { kernel = record s.kernel { mem = m }; term = terminal_write text s.term }
        else none))
      × ((b : ℕ) → (b < ptr) ⊎ (ptr + room ≤ b) → load8 m b ≡ load8 s.kernel.mem b)
  unfolding write_text show
  write_text_lem =
      let (m, e, bytes) =
        strcpy_lem cleared to src (length text) lit₁.ends apart (omega (arith, lit.high)) in
      let same : (i : ℕ) → i ≤ length text → load8 m (to + i) ≡ load8 cleared (src + i) =
        λ i h. bytes (to + i) ∙ copied_inside cleared to src (length text + 1) i (omega arith) in
      let here = IsText-same cleared m src to (length text) same lit₁.ends in
      let shown : load_bytes m to (length text) ≡ text =
        load_bytes-same cleared m src to (length text) (λ i h. same i (omega arith))
        ∙ lit₁.spells in
      let whole = strlen_lem m to (length text) here (omega (arith, lit.high)) in
      let print =
        terminal_writestring_lem m to (length text) s.term here (omega (arith, lit.high))
        ∙ ap (λ (xs : List ℕ). some (terminal_write xs s.term)) shown in
      (
        m,
        elim (Bool-cases (touches io boot s ptr size)) [
          | inr gap ↦ rw gap refl
          | inl mapped ↦ elim (Bool-cases (touches io boot s to (length text + 1))) [
            | inr gap ↦ rw (mapped, gap) refl
            | inl mapped' ↦ rw (mapped, mapped', e, whole, mapped', print) refl
          ]
        ],
        λ b h.
            bytes b
            ∙ copied_outside cleared to src (length text + 1) b (beside b h)
            ∙ cleared_outside s.kernel.mem ptr size b (narrow b h),
      )
