-- ===== src/Main/Started.antt =====
-- What `kernel_main` has set up before it tries the heap out.
use simple_kernel.Base.{
  ℕ, suc, ◌+◌, ◌*◌, ◌%◌, ◌^◌, ◌≤◌, ◌<◌, ◌≡◌, inr, refl, ap, sym, ◌∙◌, subst, arith, true, Option,
  none, some, ◌==◌, ◌&&◌, if◌then◌else◌,
}
use simple_kernel.Paging.Mmu.{Vm, walk}
use simple_kernel.Paging.Window.{IsMapped, Present}
use simple_kernel.Paging.Entry.{is_some}
use simple_kernel.Paging.Map.{map_page-Maps}
use simple_kernel.Paging.Supply.{Ready, Stocks, after_map}
use simple_kernel.Late.{kernel_page_count}
use simple_kernel.Late.Mapped.{page_at, pages_of, behind, late_pmm_init-walk}
use simple_kernel.Gdt.{load_initial_gdt}
use simple_kernel.Ports.{PortIo}
use simple_kernel.Interrupts.{returns}
use simple_kernel.Main.{Boot, System, set_vm, start_memory, kernel_main}

-- The virtual address of the VGA buffer.
abbrev pub vga_page : ℕ
vga_page = 0xC03FE000

elsewhere :
    (first bitmap stop : ℕ) (old : Option ℕ)
    → stop < 1023
    → behind first bitmap first stop old vga_page ≡ old
elsewhere first bitmap stop old h = ground arith

-- The state with the tables of `start_memory`.
abbrev pub with_tables : (io : PortIo) → Boot → System io → Vm → System io
with_tables io boot s vm = record (set_vm io boot vm s) { gdt = load_initial_gdt boot.initial_gdt }

module _ (io : PortIo) (boot : Boot) (s : System io) (n : ℕ)
    (m : IsMapped (record s.kernel.vm { pmm = boot.early }))
    (there : Present s.kernel.vm.ram s.kernel.vm.cr3 768) (al : boot.bitmap % 4096 ≡ 0)
    (hi : kernel_page_count boot.symbols + pages_of boot.early.size < 1023)
    (fits : boot.bitmap + 4096 * pages_of boot.early.size ≤ 2 ^ 32)
    (unmapped : (j : ℕ)
      → kernel_page_count boot.symbols ≤ j
      → j < kernel_page_count boot.symbols + pages_of boot.early.size
      → walk s.kernel.vm (page_at j) ≡ none)
    (stock : Stocks (suc n) (record boot.early { set_up = true })) where
  pub start_memory-code :
      (code : ℕ) × (vm : Vm) × (start_memory io boot s ≡ some (code, with_tables io boot s vm))
      × (code ≡ (if is_some (walk s.kernel.vm vga_page) then 5 else 0))
      × (walk vm vga_page ≡ (if code == 0 then some 0xB8 else walk s.kernel.vm vga_page))
      × Ready n vm
  unfolding start_memory
  start_memory-code =
      let first = kernel_page_count boot.symbols in
      let stop = first + pages_of boot.early.size in
      let (vm₁, e₁, m₁, kept, walks) =
        late_pmm_init-walk boot.symbols boot.bitmap boot.early s.kernel.vm m there al
          (omega (arith, hi)) fits unmapped in
      let stock₁ : Stocks (suc n) vm₁.pmm = subst (Stocks (suc n)) (sym kept) stock in
      let old : walk vm₁ vga_page ≡ walk s.kernel.vm vga_page =
        walks vga_page (omega arith)
        ∙ elsewhere first boot.bitmap stop (walk s.kernel.vm vga_page) hi in
      let (code, vm₂, e₂, maps, takes) =
        map_page-Maps 0xB8000 vga_page 0x103 refl (omega arith) refl (omega arith) vm₁ m₁
          (inr stock₁.0) in
      (
        code,
        vm₂,
        rw (e₁, e₂) refl,
        maps.code_lem ∙ ap (λ w. if is_some w then 5 else 0) old,
        maps.walks vga_page (omega arith)
            ∙ ap (λ w. if code == 0 && true then some 0xB8 else w) old
            ∙ ground arith,
        record { mapped = maps.mapped; stock = after_map n vm₁ vm₂ stock₁ takes },
      )

  -- Where the page of the VGA buffer is mapped before, and the rest is as the boot code leaves it,
  -- `kernel_main` returns, having changed page tables, allocator and segment table only: nothing is
  -- printed, and the page stays mapped to where it was.
  pub kernel_main-returns :
      (f : ℕ)
      → walk s.kernel.vm vga_page ≡ some f
      → (vm : Vm) × (kernel_main io boot s ≡ some (returns (with_tables io boot s vm)))
        × (walk vm vga_page ≡ some f)
  unfolding kernel_main
  kernel_main-returns f taken =
      let (code, vm, e, code_eq, walks, ready) = start_memory-code in
      let five : code ≡ 5 = code_eq ∙ ap (λ w. if is_some w then 5 else 0) taken in
      (
        vm,
        rw (e, five) refl,
        walks ∙ ap (λ c. if c == 0 then some 0xB8 else walk s.kernel.vm vga_page) five ∙ taken,
      )
