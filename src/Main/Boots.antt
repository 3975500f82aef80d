-- ===== src/Main/Boots.antt =====
-- `kernel_main` from the state that the boot code leaves to the tests of the heap.
use simple_kernel.Base.{
  ℕ, suc, ◌+◌, ◌*◌, ◌%◌, ◌^◌, ◌≤◌, ◌<◌, ◌≡◌, refl, ap, ◌∙◌, true, false, none, some, ◌==◌,
  if◌then◌else◌,
}
use simple_kernel.Paging.Mmu.{walk}
use simple_kernel.Paging.Window.{IsMapped, Present}
use simple_kernel.Paging.Entry.{is_some}
use simple_kernel.Paging.Supply.{Stocks}
use simple_kernel.Late.{kernel_page_count}
use simple_kernel.Late.Mapped.{page_at, pages_of}
use simple_kernel.Gdt.{load_initial_gdt}
use simple_kernel.Ports.{PortIo}
use simple_kernel.Main.{Boot, System, start_memory, start_devices, try_out, kernel_main}
use simple_kernel.Main.Started.{vga_page, with_tables, start_memory-code}
use simple_kernel.Main.Devices.{DevicesStarted, start_devices-DevicesStarted}

module _ (io : PortIo) (boot : Boot) (s : System io) (n : ℕ)
    (m : IsMapped (record s.kernel.vm { pmm = boot.early }))
    (there : Present s.kernel.vm.ram s.kernel.vm.cr3 768) (al : boot.bitmap % 4096 ≡ 0)
    (hi : kernel_page_count boot.symbols + pages_of boot.early.size < 1023)
    (fits : boot.bitmap + 4096 * pages_of boot.early.size ≤ 2 ^ 32)
    (unmapped : (j : ℕ)
      → kernel_page_count boot.symbols ≤ j
      → j < kernel_page_count boot.symbols + pages_of boot.early.size
      → walk s.kernel.vm (page_at j) ≡ none)
    (stock : Stocks (suc (suc (suc (n + 2 + 2)))) (record boot.early { set_up = true }))
    (vga_free : walk s.kernel.vm vga_page ≡ none) (first : s.kernel.ran ≡ false) where
  -- With page tables as the boot code leaves them, nothing mapped at the bitmap's new address and
  -- at the VGA buffer's, and seven free pages, `kernel_main` comes to the tests of the heap: the VGA
  -- buffer is mapped when the terminal starts, the two pages it compares differ, the segment table,
  -- the gates and the interrupt controllers are set up, the heap is one free block, and the screen
  -- shows the four lines of the greeting, the last with the heap's size.
  pub kernel_main-DevicesStarted :
      (s₁ s₂ : System io) × (start_memory io boot s ≡ some (0, s₁))
      × (start_devices io boot s₁ ≡ some s₂)
      × (kernel_main io boot s ≡ try_out io boot s₂)
      × (walk s₁.kernel.vm vga_page ≡ some 0xB8)
      × (s₂.gdt ≡ load_initial_gdt boot.initial_gdt)
      × DevicesStarted io boot n s₁ s₂
  unfolding kernel_main
  kernel_main-DevicesStarted =
      let (code, vm, e, code_eq, walks, ready) =
        start_memory-code io boot s (suc (suc (n + 2 + 2))) m there al hi fits unmapped stock in
      let done : code ≡ 0 = code_eq ∙ ap (λ w. if is_some w then 5 else 0) vga_free in
      let s₁ = with_tables io boot s vm in
      let (s₂, e', started) = start_devices-DevicesStarted io boot n s₁ al first ready in
      let e₀ : start_memory io boot s ≡ some (0, s₁) = e ∙ ap (λ c. some (c, s₁)) done in
      (
        s₁,
        s₂,
        e₀,
        e',
        rw (e₀, e') refl,
        walks ∙ ap (λ c. if c == 0 then some 0xB8 else walk s.kernel.vm vga_page) done,
        started.segments,
        started,
      )
