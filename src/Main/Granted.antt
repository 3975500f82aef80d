-- ===== src/Main/Granted.antt =====
-- An allocation of `kernel_main`, and the text that it writes into the area.
use simple_kernel.Base.{
  ℕ, ◌+◌, ◌*◌, ◌/◌, ◌≤◌, ◌<◌, ◌≡◌, ◌⊎◌, inl, inr, refl, ◌∙◌, subst, arith, Bool-cases, none, some,
  false, ◌&&◌, List, length, ◌==◌,
}
use simple_kernel.Memory.{Memory, load8}
use simple_kernel.Ports.{PortIo}
use simple_kernel.Paging.Supply.{Ready, kernel_pager}
use simple_kernel.Tty.{terminal_write}
use simple_kernel.Heap.{Kernel, kmalloc, padded}
use simple_kernel.Heap.Pages.{reaches}
use simple_kernel.Heap.Header.{header_size, null, heap_start}
use simple_kernel.Heap.Layout.{Block, span}
use simple_kernel.Heap.Allocate
use simple_kernel.Heap.Allocate.{Outcome, padded_lem, kmalloc-Returned}
use simple_kernel.Heap.Grant.{Outcome-Grant}
use simple_kernel.Heap.Resize.{load8-outside}
use simple_kernel.Heap.Client.{Areas, keep}
use simple_kernel.Heap.Client.Kept.{IsSafe, AllInUse, Grant-IsSafe, keep-area}
use simple_kernel.Main.{Boot, System, touches, malloc_text}
use simple_kernel.Main.Texts.{IsLiteral, KeepsKernel, kernel_base, IsLiteral-kept, write_text_lem}
use simple_kernel.Paging.Mmu.{Vm}
use simple_kernel.Main.Pages.{IsOwned, IsOwned-outside, Heap-IsOwned}

-- What an allocation returned last.
IsSafe-IsOwned :
    (m : Memory) (ptr size : ℕ) (areas : Areas) (safe : IsSafe m (keep ptr size areas))
    → size ≤ kernel_base
    → IsOwned safe.layout ptr size
IsSafe-IsOwned m ptr size areas safe small = elim (Bool-cases (ptr == null)) [
  | inl nothing ↦ inl (ground (arith, nothing), small)
  | inr there ↦
      let held =
        subst (AllInUse safe.layout) (keep-area ptr size areas (ground (arith, there))) safe.held in
      inr held.0
]

Outcome-KeepsKernel :
    (need : ℕ) (bs : List Block) (m : Memory) (ptr : ℕ) (m' : Memory)
    → Outcome need bs m ptr m'
    → KeepsKernel m m'
Outcome-KeepsKernel need bs m _ _ (Allocate.refused none_fits) b lo hi = refl
Outcome-KeepsKernel need bs m _ m' (Allocate.granted before after s best heap same) b lo hi =
    load8-outside (heap_start + span before) (heap_start + span before + header_size + s) m m' b
      (omega arith) same (inl (omega arith))

-- What writes to the last area keep.
IsSafe-same :
    (m m' : Memory) (ptr size : ℕ) (areas : Areas)
    → size ≤ kernel_base
    → ((b : ℕ) → (b < ptr) ⊎ (ptr + size ≤ b) → load8 m' b ≡ load8 m b)
    → IsSafe m (keep ptr size areas)
    → IsSafe m' (keep ptr size areas)
IsSafe-same m m' ptr size areas small same safe = record {
  layout = safe.layout;
  heap =
      Heap-IsOwned m m' safe.layout ptr size (IsSafe-IsOwned m ptr size areas safe small) same
        safe.heap;
  held = safe.held;
  disjoint = safe.disjoint;
}

module _ (io : PortIo) (boot : Boot) where
  -- A `malloc_text` that ended.
  pub record TextKept (n size offset : ℕ) (text : List ℕ) (areas : Areas) (s : System io)
      : Type 0 where
    pub ptr : ℕ
    pub state : System io
    pub returns : malloc_text io boot size offset text s ≡ some (ptr, state)
    pub safe : IsSafe state.kernel.mem (keep ptr size areas)
    pub kernel : KeepsKernel s.kernel.mem state.kernel.mem
    pub printed : state.term ≡ terminal_write text s.term
    pub ready : Ready n state.kernel.vm

  -- One that faulted: `kmalloc` returned, but a byte that is then cleared or copied to is not
  -- mapped.
  pub record HasGap (size offset : ℕ) (text : List ℕ) (s : System io) : Type 0 where
    pub faults : malloc_text io boot size offset text s ≡ none
    pub ptr : ℕ
    pub granted : Kernel Vm
    pub allocates : kmalloc kernel_pager size s.kernel ≡ some (ptr, granted)
    pub gap :
        (reaches (kernel_pager.is_mapped granted.vm) ptr size
          && reaches (kernel_pager.is_mapped granted.vm) (ptr + offset) (length text + 1))
        ≡ false

  pub malloc_text-TextKept :
      (n size offset : ℕ) (text : List ℕ) (areas : Areas) (s : System io)
      → IsSafe s.kernel.mem areas
      → IsLiteral s.kernel.mem (boot.literal text) text
      → offset + length text < size
      → size ≤ 4096
      → Ready (n + 2 * (padded size / 4096 + 2)) s.kernel.vm
      → TextKept n size offset text areas s ⊎ HasGap size offset text s
  unfolding malloc_text
  malloc_text-TextKept n size offset text areas s safe lit fits small ready =
      let r =
        kmalloc-Returned kernel_pager n size safe.layout s.kernel safe.heap (omega arith)
          (omega arith) ready in
      let kept =
        Outcome-KeepsKernel (padded size) safe.layout s.kernel.mem r.ptr r.state.mem r.outcome in
      let safe₁ = Grant-IsSafe size r.ptr s.kernel.mem r.state.mem areas safe (
        Outcome-Grant size (padded size) safe.layout s.kernel.mem r.ptr r.state.mem
          (omega (arith, padded_lem size (omega arith))) safe.heap r.outcome) in
      let outside =
        IsOwned-outside safe₁.layout r.ptr size
          (IsSafe-IsOwned r.state.mem r.ptr size areas safe₁ (omega arith)) in
      let s₁ : System io = record s { kernel = r.state } in
      let (m, e, same) =
        write_text_lem io boot text r.ptr size (r.ptr + offset) size s₁
          (IsLiteral-kept s.kernel.mem r.state.mem (boot.literal text) text kept lit) (omega arith)
          (omega arith) (omega arith) outside in
      elim (Bool-cases
        (touches io boot s₁ r.ptr size && touches io boot s₁ (r.ptr + offset) (length text + 1))) [
          | inr gap ↦ inr record {
            faults = rw (r.returns, e, gap) refl;
            ptr = r.ptr;
            granted = r.state;
            allocates = r.returns;
            gap = gap;
          }
          | inl mapped ↦ inl record {
            ptr = r.ptr;
            state = record s₁ {
              kernel = record r.state { mem = m };
              term = terminal_write text s₁.term;
            };
            returns = rw (r.returns, e, mapped) refl;
            safe = IsSafe-same r.state.mem m r.ptr size areas (omega arith) same safe₁;
            kernel = λ b lo hi.
                same b
                  (elim outside [ inl below ↦ inr (omega arith) | inr above ↦ inl (omega arith) ])
                ∙ kept b lo hi;
            printed = refl;
            ready = r.supplies;
          }
        ]
