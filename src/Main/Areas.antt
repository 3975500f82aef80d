-- ===== src/Main/Areas.antt =====
-- The four areas that `kernel_main` allocates and writes texts into.
use simple_kernel.Base.{
  ℕ, ◌+◌, ◌*◌, ◌/◌, ◌≤◌, ◌≡◌, ◌⊎◌, inl, inr, refl, ap, sym, ◌∙◌, subst, arith, none, some, List, [],
  ◌∷◌, ◌++◌, codes,
}
use simple_kernel.Memory.{Memory}
use simple_kernel.Ports.{PortIo}
use simple_kernel.Paging.Supply.{Ready}
use simple_kernel.Tty.{terminal_write}
use simple_kernel.Heap.{padded}
use simple_kernel.Heap.Allocate.{padded_lem}
use simple_kernel.Heap.Client.{Areas, keep}
use simple_kernel.Heap.Client.Kept.{IsSafe}
use simple_kernel.Main.{Boot, System, malloc_text, fill_heap}
use simple_kernel.Main.Texts.{IsLiteral, KeepsKernel, IsLiteral-kept}
use simple_kernel.Paging.Mmu.{Vm}
use simple_kernel.Main.Devices.{write_in_turn}
use simple_kernel.Main.Granted.{TextKept, HasGap, malloc_text-TextKept}

abbrev pub text1 : List ℕ
text1 = codes "Hello heap world!\n"

abbrev pub text2 : List ℕ
text2 = codes "Hello 2\n"

abbrev pub text3 : List ℕ
text3 = codes "Hello 3\n"

abbrev pub text4 : List ℕ
text4 = codes "Hello big heap!\n"

abbrev pub AllLiterals : Boot → Memory → List (List ℕ) → Type 0
AllLiterals boot m [] = Unit {0}
AllLiterals boot m (text ∷ texts) = IsLiteral m (boot.literal text) text × AllLiterals boot m texts

AllLiterals-kept :
    (boot : Boot) (m m' : Memory) (texts : List (List ℕ))
    → KeepsKernel m m'
    → AllLiterals boot m texts
    → AllLiterals boot m' texts
AllLiterals-kept boot m m' [] kept all = tt
AllLiterals-kept boot m m' (text ∷ texts) kept (lit, all) = (
  IsLiteral-kept m m' (boot.literal text) text kept lit,
  AllLiterals-kept boot m m' texts kept all,
)

-- What `kmalloc` of these sizes may take.
small_cost : (n size : ℕ) → size ≤ 4080 → n + 4 ≡ n + 2 * (padded size / 4096 + 2)
small_cost n size h = omega (arith, padded_lem size (omega arith))

big_cost : (n : ℕ) → n + 6 ≡ n + 2 * (padded 4096 / 4096 + 2)
big_cost n = omega (arith, padded_lem 4096 (omega arith))

Ready-at : (a b : ℕ) (vm : Vm) → a ≡ b → Ready a vm → Ready b vm
Ready-at a b vm e h = subst (λ x. Ready x vm) e h

module _ (io : PortIo) (boot : Boot) (s : System io) where
  -- The calls of `malloc_text` that `fill_heap` gets to, each with the state before it.
  pub data IsCalled : ℕ → ℕ → List ℕ → System io → Type 0 where
    call : IsCalled 50 0 text1 s
    call2 :
        (test : ℕ) (s₁ : System io)
        → malloc_text io boot 50 0 text1 s ≡ some (test, s₁)
        → IsCalled 12 0 text2 s₁
    call3 :
        (s₁ : System io) (test2 : ℕ) (s₂ : System io)
        → IsCalled 12 0 text2 s₁
        → malloc_text io boot 12 0 text2 s₁ ≡ some (test2, s₂)
        → IsCalled 20 0 text3 s₂
    call4 :
        (s₂ : System io) (test3 : ℕ) (s₃ : System io)
        → IsCalled 20 0 text3 s₂
        → malloc_text io boot 20 0 text3 s₂ ≡ some (test3, s₃)
        → IsCalled 4096 1000 text4 s₃

  -- `fill_heap` faulted, in such a call.
  pub record IsUnfilled : Type 0 where
    pub faults : fill_heap io boot s ≡ none
    pub size : ℕ
    pub offset : ℕ
    pub text : List ℕ
    pub before : System io
    pub called : IsCalled size offset text before
    pub gap : HasGap io boot size offset text before

  -- `fill_heap` ended.
  pub record IsFilled (n : ℕ) (areas : Areas) : Type 0 where
    pub test : ℕ
    pub test2 : ℕ
    pub test3 : ℕ
    pub big : ℕ
    pub state : System io
    pub returns : fill_heap io boot s ≡ some ((test, test2, test3, big), state)
    pub safe :
        IsSafe state.kernel.mem (keep big 4096 (keep test3 20 (keep test2 12 (keep test 50 areas))))
    pub kernel : KeepsKernel s.kernel.mem state.kernel.mem
    pub printed : state.term ≡ terminal_write (text1 ++ text2 ++ text3 ++ text4) s.term
    pub ready : Ready n state.kernel.vm

  stopped :
      (size offset : ℕ) (text : List ℕ) (before : System io)
      → IsCalled size offset text before
      → HasGap io boot size offset text before
      → fill_heap io boot s ≡ none
      → IsUnfilled
  stopped size offset text before called gap faults = record {
    faults = faults;
    size = size;
    offset = offset;
    text = text;
    before = before;
    called = called;
    gap = gap;
  }

  finished :
      (n : ℕ) (areas : Areas) (m₁ m₂ m₃ : ℕ) (a : TextKept io boot m₁ 50 0 text1 areas s)
      (b : TextKept io boot m₂ 12 0 text2 (keep a.ptr 50 areas) a.state)
      (c : TextKept io boot m₃ 20 0 text3 (keep b.ptr 12 (keep a.ptr 50 areas)) b.state)
      → TextKept io boot n 4096 1000 text4
          (keep c.ptr 20 (keep b.ptr 12 (keep a.ptr 50 areas)))
          c.state
      → IsFilled n areas
  unfolding fill_heap
  finished n areas m₁ m₂ m₃ a b c d = record {
    test = a.ptr;
    test2 = b.ptr;
    test3 = c.ptr;
    big = d.ptr;
    state = d.state;
    returns = rw (a.returns, b.returns, c.returns, d.returns) refl;
    safe = d.safe;
    kernel = λ x lo hi. d.kernel x lo hi ∙ c.kernel x lo hi ∙ b.kernel x lo hi ∙ a.kernel x lo hi;
    printed =
        d.printed
        ∙ ap (terminal_write text4) (
            c.printed ∙ ap (terminal_write text3) (b.printed ∙ ap (terminal_write text2) a.printed))
        ∙ sym (write_in_turn text1 text2 text3 text4 s.term);
    ready = d.ready;
  }

module _ (io : PortIo) (boot : Boot) (s : System io) (n : ℕ) (areas : Areas)
    (safe : IsSafe s.kernel.mem areas)
    (lits : AllLiterals boot s.kernel.mem (text1 ∷ text2 ∷ text3 ∷ text4 ∷ []))
    (ready : Ready (n + 18) s.kernel.vm) where
  -- On a well formed heap with areas in use that are apart, with 18 free pages and with the four
  -- texts between the kernel's start and the heap, the four allocations of `kernel_main` end and
  -- print their texts in order, unless a byte that one of them clears or copies to is not mapped:
  -- it then faults there, with the `kmalloc` before it returned. At the end the areas that were
  -- got, those that are not `NULL`, are in use and apart from each other and from those before, the
  -- heap is well formed, and the kernel's bytes have not changed.
  pub fill_heap-IsSafe : IsFilled io boot s n areas ⊎ IsUnfilled io boot s
  unfolding fill_heap
  fill_heap-IsSafe =
      elim (malloc_text-TextKept io boot (n + 6 + 4 + 4) 50 0 text1 areas s safe lits.0
        (omega arith) (omega arith)
        (Ready-at (n + 18) _ s.kernel.vm
          (omega (arith, small_cost (n + 6 + 4 + 4) 50 (omega arith))) ready)) [
            | inr gap ↦ inr (stopped io boot s 50 0 text1 s call gap (rw gap.faults refl))
            | inl a ↦
                let lits₁ =
                  AllLiterals-kept boot s.kernel.mem a.state.kernel.mem (text2 ∷ text3 ∷ text4 ∷ [])
                    a.kernel lits.1 in
                let at₂ : IsCalled io boot s 12 0 text2 a.state = call2 a.ptr a.state a.returns in
                elim (malloc_text-TextKept io boot (n + 6 + 4) 12 0 text2 _ a.state a.safe lits₁.0
                  (omega arith) (omega arith)
                  (Ready-at (n + 6 + 4 + 4) _ a.state.kernel.vm
                    (small_cost (n + 6 + 4) 12 (omega arith)) a.ready)) [
                      | inr gap ↦ inr (
                          stopped io boot s 12 0 text2 a.state at₂ gap
                            (rw (a.returns, gap.faults) refl))
                      | inl b ↦
                          let lits₂ =
                            AllLiterals-kept boot a.state.kernel.mem b.state.kernel.mem
                              (text3 ∷ text4 ∷ []) b.kernel lits₁.1 in
                          let at₃ : IsCalled io boot s 20 0 text3 b.state =
                            call3 a.state b.ptr b.state at₂ b.returns in
                          elim (malloc_text-TextKept io boot (n + 6) 20 0 text3 _ b.state b.safe
                            lits₂.0 (omega arith) (omega arith)
                            (Ready-at (n + 6 + 4) _ b.state.kernel.vm
                              (small_cost (n + 6) 20 (omega arith)) b.ready)) [
                                | inr gap ↦ inr (
                                    stopped io boot s 20 0 text3 b.state at₃ gap
                                      (rw (a.returns, b.returns, gap.faults) refl))
                                | inl c ↦
                                    let lits₃ =
                                      AllLiterals-kept boot b.state.kernel.mem c.state.kernel.mem
                                        (text4 ∷ []) c.kernel lits₂.1 in
                                    let at₄ : IsCalled io boot s 4096 1000 text4 c.state =
                                      call4 b.state c.ptr c.state at₃ c.returns in
                                    elim (malloc_text-TextKept io boot n 4096 1000 text4 _ c.state
                                      c.safe lits₃.0 (omega arith) (omega arith)
                                      (Ready-at (n + 6) _ c.state.kernel.vm (big_cost n) c.ready)) [
                                        | inr gap ↦ inr (
                                            stopped io boot s 4096 1000 text4 c.state at₄ gap (
                                              rw (a.returns, b.returns, c.returns, gap.faults)
                                                refl))
                                        | inl d ↦ inl (finished io boot s n areas _ _ _ a b c d)
                                      ]
                              ]
                    ]
          ]
