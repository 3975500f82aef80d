-- ===== src/Heap/Init.antt =====
-- `init_heap`: two pages, the headers at either end, and a line on the terminal.
use simple_kernel.Base.{
  ℕ, ◌+◌, ◌-◌, ◌≡◌, inl, inr, refl, sym, ap, ◌∙◌, arith, Option, some, true, false, List, [], ◌∷◌,
  ◌++◌, if◌then◌else◌, bit_and, complement32, codes,
}
use simple_kernel.Memory.{Memory, load32, store32, load32-store32_self, load32-store32-Apart}
use simple_kernel.Tty.{Terminal, terminal_putchar, terminal_write}
use simple_kernel.Print.{iprint}
use simple_kernel.Print.Decimal.{IsDecimal, iprint_lem, terminal_write-append}
use simple_kernel.Heap.Header.{
  header_size, null, heap_start, heap_end, prev_field, set_next_address, set_prev_address,
  get_prev_address, set_area_used, set_area_epsilon, get_area_size,
}
use simple_kernel.Heap.Pages.{Pager}
use simple_kernel.Heap.{Kernel, ◌>>=◌}
use simple_kernel.Heap.Layout.{block, Heap, size_of_header}
use simple_kernel.Heap.Write.{
  load32-set_next_self, load32-set_next-Apart, load32-set_prev-Apart, load32-set_used-Apart,
  load32-set_unused_self, load32-set_prev_self, load32-set_epsilon_self, load32-clear_epsilon_self,
  load32-set_epsilon-Apart,
}

-- The writes to the headers at `heap_start` and `heap_end`.
unfoldable pub init_headers : Memory → Memory
init_headers m =
    let m₁ = store32 m (prev_field heap_start) 0 in
    let m₂ = store32 m₁ heap_start 0 in
    let m₃ = store32 m₂ (prev_field heap_end) 0 in
    let m₄ = store32 m₃ heap_end 0 in
    let m₅ = set_next_address m₄ heap_start heap_end in
    let m₆ = set_prev_address m₅ heap_start null in
    let m₇ = set_area_epsilon m₆ heap_start false in
    let m₈ = set_area_used m₇ heap_start false in
    let m₉ = set_next_address m₈ heap_end null in
    let m₁₀ = set_prev_address m₉ heap_end heap_start in set_area_epsilon m₁₀ heap_end true

abbrev pub heap_message : List ℕ
heap_message = codes "kernel heap initialized with heap size: "

unfoldable pub init_heap :
    (pager : Pager) → Kernel pager.Vm → Terminal → Option (Kernel pager.Vm × Terminal)
init_heap pager k t = if k.ran then some (k, t) else (do
  (page, vm₁) ← pager.get_page k.vm
  (code, vm₂) ← pager.map_page page heap_start 0x3 vm₁
  (page', vm₃) ← pager.get_page vm₂
  (code', vm₄) ← pager.map_page page' (bit_and heap_end (complement32 0xFFF)) 0x3 vm₃
  let m = init_headers k.mem
  t' ← iprint (get_area_size m heap_start) (terminal_write heap_message t)
  some (record k { mem = m; vm = vm₄; ran = true }, terminal_putchar b'\n' t'))

-- The block that the whole heap is at first.
abbrev pub whole_heap : ℕ
whole_heap = heap_end - heap_start - header_size

module _ (m : Memory) where
  abbrev cleared : Memory
  cleared =
      store32
        (store32 (store32 (store32 m (prev_field heap_start) 0) heap_start 0) (prev_field heap_end)
          0)
        heap_end 0

  abbrev linked : Memory
  linked = set_next_address cleared heap_start heap_end

  abbrev started : Memory
  started = set_prev_address linked heap_start null

  abbrev unflagged : Memory
  unflagged = set_area_epsilon started heap_start false

  abbrev unused : Memory
  unused = set_area_used unflagged heap_start false

  abbrev closed : Memory
  closed = set_next_address unused heap_end null

  abbrev backed : Memory
  backed = set_prev_address closed heap_end heap_start

  cleared_words :
      (load32 cleared heap_start ≡ 0)
      × (load32 cleared heap_end ≡ 0)
      × (load32 cleared (prev_field heap_end) ≡ 0)
      × (load32 cleared (prev_field heap_start) ≡ 0)
  cleared_words =
      let m₁ = store32 m (prev_field heap_start) 0 in
      let m₂ = store32 m₁ heap_start 0 in
      let m₃ = store32 m₂ (prev_field heap_end) 0 in
      (
        load32-store32-Apart m₃ heap_end heap_start 0 (inr (omega arith))
            ∙ load32-store32-Apart m₂ (prev_field heap_end) heap_start 0 (inr (omega arith))
            ∙ load32-store32_self m₁ heap_start 0 (omega arith),
        load32-store32_self m₃ heap_end 0 (omega arith),
        load32-store32-Apart m₃ heap_end (prev_field heap_end) 0 (inl (omega arith))
            ∙ load32-store32_self m₂ (prev_field heap_end) 0 (omega arith),
        load32-store32-Apart m₃ heap_end (prev_field heap_start) 0 (inr (omega arith))
            ∙ load32-store32-Apart m₂ (prev_field heap_end) (prev_field heap_start) 0
                (inr (omega arith))
            ∙ load32-store32-Apart m₁ heap_start (prev_field heap_start) 0 (inl (omega arith))
            ∙ load32-store32_self m (prev_field heap_start) 0 (omega arith),
      )

  start_word : load32 (init_headers m) heap_start ≡ heap_end
  unfolding init_headers
  start_word = omega (
    arith,
    load32-set_epsilon-Apart backed heap_end heap_start true (inr (omega arith)),
    load32-set_prev-Apart closed heap_end heap_start heap_start (inr (omega arith)),
    load32-set_next-Apart unused heap_end null heap_start (inr (omega arith)),
    load32-set_unused_self unflagged heap_start,
    load32-clear_epsilon_self started heap_start,
    load32-set_prev-Apart linked heap_start null heap_start (inr (omega arith)),
    load32-set_next_self cleared heap_start heap_end refl (omega arith),
    cleared_words.0,
  )

  end_word : load32 (init_headers m) heap_end ≡ 2
  unfolding init_headers
  end_word = omega (
    arith,
    load32-set_epsilon_self backed heap_end,
    load32-set_prev-Apart closed heap_end heap_start heap_end (inr (omega arith)),
    load32-set_next_self unused heap_end null refl (omega arith),
    load32-set_used-Apart unflagged heap_start heap_end false (inl (omega arith)),
    load32-set_epsilon-Apart started heap_start heap_end false (inl (omega arith)),
    load32-set_prev-Apart linked heap_start null heap_end (inl (omega arith)),
    load32-set_next-Apart cleared heap_start heap_end heap_end (inl (omega arith)),
    cleared_words.1,
  )

  end_prev : load32 (init_headers m) (prev_field heap_end) ≡ heap_start
  unfolding init_headers
  end_prev = omega (
    arith,
    load32-set_epsilon-Apart backed heap_end (prev_field heap_end) true (inl (omega arith)),
    load32-set_prev_self closed heap_end heap_start refl (omega arith),
    load32-set_next-Apart unused heap_end null (prev_field heap_end) (inl (omega arith)),
    load32-set_used-Apart unflagged heap_start (prev_field heap_end) false (inl (omega arith)),
    load32-set_epsilon-Apart started heap_start (prev_field heap_end) false (inl (omega arith)),
    load32-set_prev-Apart linked heap_start null (prev_field heap_end) (inl (omega arith)),
    load32-set_next-Apart cleared heap_start heap_end (prev_field heap_end) (inl (omega arith)),
    cleared_words.2,
  )

  init_headers-Heap : Heap (init_headers m) (block whole_heap false ∷ [])
  init_headers-Heap = record {
    areas = (record { aligned = refl; whole = refl; word = start_word }, refl);
    epsilon = end_word;
  }

init_headers-back_link : (m : Memory) → get_prev_address (init_headers m) heap_end ≡ heap_start
unfolding get_prev_address
init_headers-back_link m = ap (λ w. bit_and w (complement32 7)) (end_prev m)

message_line :
    (text : List ℕ) (t : Terminal)
    → terminal_putchar b'\n' (terminal_write text (terminal_write heap_message t))
      ≡ terminal_write (heap_message ++ text ++ b'\n' ∷ []) t
unfolding terminal_write
message_line text t = sym (
    terminal_write-append heap_message (text ++ b'\n' ∷ []) t
    ∙ terminal_write-append text (b'\n' ∷ []) (terminal_write heap_message t))

-- What `init_heap` leaves: a heap of one free block, `n` pages, and the line that it prints.
pub record Initialised (pager : Pager) (n : ℕ) (t : Terminal) (k : Kernel pager.Vm) (t' : Terminal)
    : Type 0 where
  pub heap : Heap k.mem (block whole_heap false ∷ [])
  pub back_link : get_prev_address k.mem heap_end ≡ heap_start
  pub once : k.ran ≡ true
  pub supplies : pager.Supplies n k.vm
  pub size_text : List ℕ
  pub decimal : IsDecimal whole_heap size_text
  pub printed : t' ≡ terminal_write (heap_message ++ size_text ++ b'\n' ∷ []) t

module _ (pager : Pager) (n : ℕ) (k : Kernel pager.Vm) (t : Terminal) where
  -- The first `init_heap`, with four free pages, ends with a heap that is one free block, and
  -- prints its size; a second one changes nothing.
  pub init_heap-Initialised :
      k.ran ≡ false
      → pager.Supplies (n + 2 + 2) k.vm
      → (k' : Kernel pager.Vm) × (t' : Terminal) × (init_heap pager k t ≡ some (k', t'))
        × Initialised pager n t k' t'
        × (init_heap pager k' t' ≡ some (k', t'))
  unfolding init_heap
  init_heap-Initialised first supplies =
      let (page, code, vm₁, vm₂, e₁, e₂, left) =
        pager.map_new (n + 2) heap_start 0x3 k.vm supplies refl (omega arith) in
      let (page', code', vm₃, vm₄, e₃, e₄, left') =
        pager.map_new n (bit_and heap_end (complement32 0xFFF)) 0x3 vm₂ left refl (omega arith) in
      let m = init_headers k.mem in
      let whole = init_headers-Heap k.mem in
      let size = size_of_header m heap_start (block whole_heap false) whole.areas.0 in
      let greeted = terminal_write heap_message t in
      let (text, print, decimal, short) = iprint_lem whole_heap greeted (omega arith) in
      let print' : iprint (get_area_size m heap_start) greeted
          ≡ some (terminal_write text greeted) =
        ap (λ x. iprint x greeted) size ∙ print in
      (
        record k { mem = m; vm = vm₄; ran = true },
        terminal_putchar b'\n' (terminal_write text greeted),
        rw (first, e₁, e₂, e₃, e₄, print') refl,
        record {
          heap = whole;
          back_link = init_headers-back_link k.mem;
          once = refl;
          supplies = left';
          size_text = text;
          decimal = decimal;
          printed = message_line text t;
        },
        refl,
      )
