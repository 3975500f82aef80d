-- ===== src/Main/Pages.antt =====
-- The test of `kpagealloc` in `kernel_main`.
use simple_kernel.Base.{
  ℕ, ◌+◌, ◌*◌, ◌%◌, ◌≤◌, ◌<◌, ◌≡◌, ◌⊎◌, inl, inr, refl, ◌∙◌, arith, true, none, some, Bool-cases,
  ◌&&◌, if◌then◌else◌, length, List, ◌++◌, ◌==◌, codes,
}
use simple_kernel.Memory.{Memory, load8, load32}
use simple_kernel.Ports.{PortIo}
use simple_kernel.Pmm.{page_size}
use simple_kernel.Paging.Supply.{Ready, kernel_pager}
use simple_kernel.Tty.{terminal_write}
use simple_kernel.Heap.Header.{header_size, null, heap_start, heap_end}
use simple_kernel.Heap.{Kernel}
use simple_kernel.Heap.Pages.{reaches}
use simple_kernel.Paging.Mmu.{Vm}
use simple_kernel.Heap.Paged.{kpagealloc}
use simple_kernel.Heap.Layout.{Block, span, Segment-frame, Heap}
use simple_kernel.Heap.InUse.{
  InUse, InUse-bounds, InUse-later, InUse-sooner, Heap-payload, load32-load8,
}
use simple_kernel.Heap.Grant.{Grant, refused, granted, PagesOutcome-Grant}
use simple_kernel.Heap.Resize.{load8-outside}
use simple_kernel.Heap.Paged.Returned
use simple_kernel.Heap.Paged.Returned.{PagesOutcome, kpagealloc-Returned}
use simple_kernel.Main.{Boot, System, put_literal, touches, try_pages}
use simple_kernel.Main.Texts.{IsLiteral, KeepsKernel, kernel_base, IsLiteral-kept, write_text_lem}

-- What an allocation of `room` bytes returned, and the code uses in either case: an area in use, or
-- `NULL`.
abbrev pub IsOwned : List Block → ℕ → ℕ → Type 0
IsOwned bs ptr room = ((ptr ≡ null) × (room ≤ kernel_base)) ⊎ InUse heap_start bs ptr room

pub IsOwned-outside :
    (bs : List Block) (ptr room : ℕ)
    → IsOwned bs ptr room
    → (ptr + room ≤ kernel_base) ⊎ (heap_start ≤ ptr)
IsOwned-outside bs ptr room (inl (e, small)) = inl (omega arith)
IsOwned-outside bs ptr room (inr used) =
    let (low, high) = InUse-bounds heap_start bs ptr room used in inr (omega arith)

-- Writes to such bytes change no header.
pub Heap-IsOwned :
    (m m' : Memory) (bs : List Block) (ptr room : ℕ)
    → IsOwned bs ptr room
    → ((b : ℕ) → (b < ptr) ⊎ (ptr + room ≤ b) → load8 m' b ≡ load8 m b)
    → Heap m bs
    → Heap m' bs
Heap-IsOwned m m' bs ptr room (inr used) same heap = Heap-payload m m' bs ptr room used same heap
Heap-IsOwned m m' bs ptr room (inl (e, small)) same heap =
    let words : (a : ℕ) → heap_start ≤ a → load32 m' a ≡ load32 m a =
      λ a h. load32-load8 m m' a (λ b p q. same b (inr (omega arith))) in
    record {
      areas = Segment-frame m m' heap_start bs heap_end (λ c al p q. words c p) heap.areas;
      epsilon = words heap_end (omega arith) ∙ heap.epsilon;
    }

Grant-IsOwned :
    (size : ℕ) (bs : List Block) (ptr : ℕ) (m : Memory)
    → size ≤ kernel_base
    → Grant size bs ptr m
    → (layout : List Block) × Heap m layout × IsOwned layout ptr size
Grant-IsOwned size bs _ m small (refused heap) = (bs, heap, inl (refl, small))
Grant-IsOwned size bs ptr m small (granted before after new s place whole heap used) = (
  before ++ (new ++ after),
  heap,
  inr (
      InUse-later heap_start before (new ++ after) ptr size
        (InUse-sooner (heap_start + span before) new after ptr size used)),
)

PagesOutcome-KeepsKernel :
    (size : ℕ) (bs : List Block) (m : Memory) (ptr : ℕ) (m' : Memory)
    → PagesOutcome size bs m ptr m'
    → KeepsKernel m m' × (ptr % 4096 ≡ 0)
PagesOutcome-KeepsKernel size bs m _ _ (Returned.refused none_fits) = (λ b lo hi. refl, refl)
PagesOutcome-KeepsKernel size bs m ptr m'
      (Returned.granted before after s ptr' best heap page at same) =
    (
      λ b lo hi.
          load8-outside (heap_start + span before)
            (heap_start + span before + header_size + s + header_size) m m' b (omega arith) same
            (inl (omega arith)),
      page,
    )

abbrev pub page_text : List ℕ
page_text = codes "Hello page-aligned world!\n"

-- What the test leaves: the two lines on the screen, a heap with the pages in use, and the kernel's
-- bytes as they were.
pub record PagesShown (io : PortIo) (n ptr : ℕ) (s s' : System io) : Type 0 where
  pub aligned : ptr % page_size ≡ 0
  pub layout : List Block
  pub heap : Heap s'.kernel.mem layout
  pub owned : IsOwned layout ptr (4 * 4096)
  pub kernel : KeepsKernel s.kernel.mem s'.kernel.mem
  pub printed :
      s'.term
      ≡ terminal_write page_text (terminal_write (codes "page is aligned correctly\n") s.term)
  pub ready : Ready n s'.kernel.vm

module _ (io : PortIo) (boot : Boot) (s : System io) (n : ℕ) (bs : List Block)
    (heap : Heap s.kernel.mem bs) (lit : IsLiteral s.kernel.mem (boot.literal page_text) page_text)
    (ready : Ready (n + 2 * (4 + 1)) s.kernel.vm) where
  -- On a heap with ten free pages and with the text that is copied between the kernel's start and
  -- the heap, `kpagealloc` returns. The test then faults if one of the four bytes that it clears or
  -- of those that it copies the text to is not mapped, as where `kpagealloc` returned `NULL` and
  -- the first page is not. Else it ends and prints both lines, the pages that it got are at a page
  -- border and in use, or `NULL`, the heap is well formed, and the kernel's bytes have not changed.
  pub try_pages-PagesShown :
      (ptr : ℕ) × (k₁ : Kernel Vm) × (s' : System io) × (kpagealloc kernel_pager 4 s.kernel
        ≡ some (ptr, k₁))
      × (try_pages io boot s ≡ (
          if reaches (kernel_pager.is_mapped k₁.vm) ptr 4
            && reaches (kernel_pager.is_mapped k₁.vm) (ptr + page_size * 2) (length page_text + 1)
          then some (ptr, s')
          else none))
      × PagesShown io n ptr s s'
  unfolding try_pages
  try_pages-PagesShown =
      let r =
        kpagealloc-Returned kernel_pager 4 s.kernel (omega arith) (omega arith) n bs heap ready in
      let (kept, page) =
        PagesOutcome-KeepsKernel (4 * 4096) bs s.kernel.mem r.ptr r.state.mem r.outcome in
      let (layout, heap₁, owned) =
        Grant-IsOwned (4 * 4096) bs r.ptr r.state.mem (omega arith)
          (PagesOutcome-Grant (4 * 4096) bs s.kernel.mem r.ptr r.state.mem heap r.outcome) in
      let s₂ : System io =
        put_literal io boot (codes "page is aligned correctly\n") (record s { kernel = r.state }) in
      let (m, e, same) =
        write_text_lem io boot page_text r.ptr 4 (r.ptr + page_size * 2) (4 * 4096) s₂
          (IsLiteral-kept s.kernel.mem r.state.mem (boot.literal page_text) page_text kept lit)
          (omega arith) (omega arith) (omega arith)
          (IsOwned-outside layout r.ptr (4 * 4096) owned) in
      let at_page : (r.ptr % page_size == 0) ≡ true = ground (arith, page) in
      (
        r.ptr,
        r.state,
        record s₂ { kernel = record r.state { mem = m }; term = terminal_write page_text s₂.term },
        r.returns,
        elim (Bool-cases (
            touches io boot s₂ r.ptr 4
            && touches io boot s₂ (r.ptr + page_size * 2) (length page_text + 1))) [
              | inl mapped ↦ rw (r.returns, at_page, e, mapped) refl
              | inr gap ↦ rw (r.returns, at_page, e, gap) refl
            ],
        record {
          aligned = page;
          layout = layout;
          heap = Heap-IsOwned r.state.mem m layout r.ptr (4 * 4096) owned same heap₁;
          owned = owned;
          kernel = λ b lo hi.
              same b (elim (IsOwned-outside layout r.ptr (4 * 4096) owned) [
                | inl below ↦ inr (omega arith)
                | inr above ↦ inl (omega arith)
              ])
              ∙ kept b lo hi;
          printed = refl;
          ready = r.supplies;
        },
      )
