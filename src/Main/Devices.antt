-- ===== src/Main/Devices.antt =====
-- What `kernel_main` has printed and started before it tries the heap out.
use simple_kernel.Base.{
  ℕ, suc, ◌+◌, ◌%◌, ◌≡◌, refl, sym, ◌∙◌, arith, true, false, some, List, [], ◌∷◌, ◌++◌, ◌==◌, codes,
}
use simple_kernel.Pmm.{ManagedMemory, page_size, get_page}
use simple_kernel.Pmm.Allocate.{get_page-Allocated}
use simple_kernel.Pmm.Reuse.{get_page_twice}
use simple_kernel.Paging.Mmu.{Vm}
use simple_kernel.Paging.Table.{IsMapped-Allocated}
use simple_kernel.Paging.Supply.{get_page_of, Ready, kernel_pager}
use simple_kernel.Ports.{PortIo}
use simple_kernel.Pic.{pic_init}
use simple_kernel.Tty.{Terminal, terminal_initialize, terminal_putchar, terminal_write}
use simple_kernel.Print.Decimal.{IsDecimal}
use simple_kernel.Idt.{load_initial_idt}
use simple_kernel.Heap.{Kernel}
use simple_kernel.Heap.Header.{heap_end, heap_start, get_prev_address}
use simple_kernel.Heap.Layout.{block, Heap}
use simple_kernel.Heap.Init.{whole_heap, heap_message, init_heap-Initialised}
use simple_kernel.Main.{Boot, System, set_vm, compare_pages, start_devices, put_literal}

terminal_write-append :
    (xs ys : List ℕ) (t : Terminal)
    → terminal_write (xs ++ ys) t ≡ terminal_write ys (terminal_write xs t)
unfolding terminal_write
terminal_write-append [] ys t = refl
terminal_write-append (x ∷ xs) ys t = terminal_write-append xs ys (terminal_putchar x t)

pub write_in_turn :
    (a b c rest : List ℕ) (t : Terminal)
    → terminal_write (a ++ (b ++ (c ++ rest))) t
      ≡ terminal_write rest (terminal_write c (terminal_write b (terminal_write a t)))
write_in_turn a b c rest t =
    terminal_write-append a (b ++ (c ++ rest)) t
    ∙ terminal_write-append b (c ++ rest) (terminal_write a t)
    ∙ terminal_write-append c rest (terminal_write b (terminal_write a t))

-- A call of `get_page` where there are pages.
get_page_of-Ready :
    (n : ℕ) (vm : Vm)
    → Ready (suc n) vm
    → (page : ℕ) × (pmm : ManagedMemory) × (get_page vm.pmm ≡ some (page, pmm))
      × Ready n (record vm { pmm = pmm })
get_page_of-Ready n vm ready =
    let (page, pmm, e, allocated) = get_page-Allocated ready.mapped.sound ready.stock.0 in
    (
      page,
      pmm,
      e,
      record {
        mapped = IsMapped-Allocated vm page pmm ready.mapped allocated;
        stock = ready.stock.1 page pmm e;
      },
    )

abbrev differ_text : List ℕ
differ_text = codes "get_page() probably works partially at least\n"

module _ (io : PortIo) (boot : Boot) where
  compare_pages-prints :
      (n : ℕ) (s : System io)
      → Ready (suc (suc n)) s.kernel.vm
      → (vm : Vm) × (compare_pages io boot s
          ≡ some (put_literal io boot differ_text (set_vm io boot vm s)))
        × Ready n vm
  unfolding compare_pages get_page_of
  compare_pages-prints n s ready =
      let (page, pmm, e, ready₁) = get_page_of-Ready (suc n) s.kernel.vm ready in
      let vm₁ : Vm = record s.kernel.vm { pmm = pmm } in
      let (page', pmm', e', ready₂) = get_page_of-Ready n vm₁ ready₁ in
      let differ = get_page_twice ready.mapped.sound e e' in
      let apart : (page == page') ≡ false = ground (arith, differ) in
      (record vm₁ { pmm = pmm' }, rw (e, e', apart) refl, ready₂)

  -- The greeting, for a bitmap at a page.
  abbrev pub greeting : List ℕ
  greeting = codes "something or another\n" ++ codes "amazing\n" ++ differ_text ++ heap_message

  -- The devices and the heap are started and the screen shows the greeting and the heap's size.
  pub record DevicesStarted (n : ℕ) (s s' : System io) : Type 0 where
    pub heap : Heap s'.kernel.mem (block whole_heap false ∷ [])
    pub back_link : get_prev_address s'.kernel.mem heap_end ≡ heap_start
    pub once : s'.kernel.ran ≡ true
    pub ready : Ready n s'.kernel.vm
    pub size_text : List ℕ
    pub decimal : IsDecimal whole_heap size_text
    pub printed :
        s'.term
        ≡ terminal_write (greeting ++ size_text ++ codes "\n") (terminal_initialize s.term.buffer)
    pub pics : s'.machine ≡ pic_init io s.machine
    pub gates : s'.idt ≡ load_initial_idt boot.wrappers boot.initial_idt
    pub segments : s'.gdt ≡ s.gdt
    pub enabled : s'.interrupts ≡ true

  pub start_devices-DevicesStarted :
      (n : ℕ) (s : System io)
      → boot.bitmap % 4096 ≡ 0
      → s.kernel.ran ≡ false
      → Ready (suc (suc (n + 2 + 2))) s.kernel.vm
      → (s' : System io) × (start_devices io boot s ≡ some s') × DevicesStarted n s s'
  unfolding start_devices
  start_devices-DevicesStarted n s al first ready =
      let t = terminal_write (codes "something or another\n") (terminal_initialize s.term.buffer) in
      let t' = terminal_write (codes "amazing\n") t in
      let (vm, e, ready₁) = compare_pages-prints (n + 2 + 2) (record s { term = t' }) ready in
      let k : Kernel Vm = record s.kernel { vm = vm } in
      let (k', t'', e', done, again) =
        init_heap-Initialised kernel_pager n k (terminal_write differ_text t') first ready₁ in
      let s' : System io = record s {
        kernel = k';
        term = t'';
        machine = pic_init io s.machine;
        idt = load_initial_idt boot.wrappers boot.initial_idt;
        interrupts = true;
      } in
      let at_page : (boot.bitmap % page_size == 0) ≡ true = ground arith in
      (
        s',
        rw (at_page, e, e') refl,
        record {
          heap = done.heap;
          back_link = done.back_link;
          once = done.once;
          ready = done.supplies;
          size_text = done.size_text;
          decimal = done.decimal;
          printed =
              done.printed
              ∙ sym (
                  write_in_turn (codes "something or another\n") (codes "amazing\n") differ_text
                    (heap_message ++ done.size_text ++ codes "\n")
                    (terminal_initialize s.term.buffer));
          pics = refl;
          gates = refl;
          segments = refl;
          enabled = refl;
        },
      )
