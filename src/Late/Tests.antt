-- ===== src/Late/Tests.antt =====
-- `late_pmm_init` with a kernel of one page.
use simple_kernel.Base.{ℕ, ◌+◌, ◌<◌, ◌≡◌, refl, arith, some, true}
use simple_kernel.Paging.Mmu.{Vm, walk}
use simple_kernel.Paging.Window.{IsMapped}
use simple_kernel.Late.{kernel_page_count, late_pmm_init}
use simple_kernel.Late.Mapped.{page_at, pages_of, behind, late_pmm_init-walk}
use simple_kernel.Late.Samples.{
  early_memory, boot_vm, image, boot_vm-IsMapped, one_page, one_more, unmapped,
}

late_pmm_init-walk_example :
    (vm' : Vm) × (late_pmm_init image 0x5000 early_memory (boot_vm 0)
      ≡ some (page_at (kernel_page_count image), vm'))
    × IsMapped vm'
    × (vm'.pmm ≡ record early_memory { set_up = true })
    × ((x : ℕ)
        → x < 0xFFC00000
        → walk vm' x
          ≡ behind
              (kernel_page_count image)
              0x5000
              (kernel_page_count image)
              (kernel_page_count image + pages_of 3)
              (walk (boot_vm 0) x)
              x)
late_pmm_init-walk_example =
    late_pmm_init-walk image 0x5000 early_memory (boot_vm 0) (boot_vm-IsMapped 0 (omega arith)) refl
      refl (omega (arith, one_page, one_more)) (omega (arith, one_more)) (unmapped 0)
