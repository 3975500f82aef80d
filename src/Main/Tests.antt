-- ===== src/Main/Tests.antt =====
-- The stages of `kernel_main` on a system that is not started, and on one with a heap.
use simple_kernel.Base.{
  ℕ, zero, suc, ◌+◌, ◌-◌, ◌≤◌, ◌<◌, ◌≡◌, ◌≢◌, ◌⊎◌, ◌*◌, refl, ap, ◌∙◌, subst, arith, Bool, true,
  false, none, some, List, [], ◌∷◌, length, get_or, ◌==◌, ◌&&◌, not, leb, ltb, if◌then◌else◌,
}
use simple_kernel.Paging.Mmu.{Vm, walk, translate, entry_frame}
use simple_kernel.Paging.Supply.{Ready, kernel_pager}
use simple_kernel.Late.Samples.{boot_vm, boot_vm-IsMapped, one_page, one_more, unmapped}
use simple_kernel.Gdt.{load_initial_gdt}
use simple_kernel.Memory.{Memory, load8, load32, store32}
use simple_kernel.Heap.Header.{heap_start, heap_end}
use simple_kernel.Heap.Layout.{Heap}
use simple_kernel.Heap.Samples.{fresh_blocks}
use simple_kernel.Print.{load_bytes}
use simple_kernel.Interrupts.{returns}
use simple_kernel.Main.{System, start_memory, start_devices, try_out, try_pages, kernel_main}
use simple_kernel.Main.Started.{vga_page, with_tables, kernel_main-returns}
use simple_kernel.Main.Devices.{DevicesStarted}
use simple_kernel.Main.Boots.{kernel_main-DevicesStarted}
use simple_kernel.Main.Texts.{IsLiteral, kernel_base}
use simple_kernel.Main.Pages.{page_text, PagesShown, try_pages-PagesShown}
use simple_kernel.Main.Areas.{
  text1, text2, text3, text4, AllLiterals, IsFilled, IsUnfilled, fill_heap-IsSafe,
}
use simple_kernel.Heap.{Kernel}
use simple_kernel.Heap.Pages.{reaches}
use simple_kernel.Heap.Paged.{kpagealloc}
use simple_kernel.Pmm.{page_size}
use simple_kernel.Heap.Client.Kept.{IsSafe}
use simple_kernel.Main.Samples.{ports, boot, system, seven_pages, from_4}

vga_free : walk (boot_vm 0) vga_page ≡ none
unfolding translate entry_frame
vga_free = refl

kernel_main-DevicesStarted_example :
    (s₁ s₂ : System ports) × (start_memory ports boot (system (boot_vm 0)) ≡ some (0, s₁))
    × (start_devices ports boot s₁ ≡ some s₂)
    × (kernel_main ports boot (system (boot_vm 0)) ≡ try_out ports boot s₂)
    × (walk s₁.kernel.vm vga_page ≡ some 0xB8)
    × (s₂.gdt ≡ load_initial_gdt 0xC0300000)
    × DevicesStarted ports boot 0 s₁ s₂
kernel_main-DevicesStarted_example =
    kernel_main-DevicesStarted ports boot (system (boot_vm 0)) 0 (boot_vm-IsMapped 0 (omega arith))
      refl refl (omega (arith, one_page, one_more)) (omega (arith, one_more)) (unmapped 0)
      seven_pages vga_free refl

-- The page is mapped to the frame 0x77.
abbrev taken : System ports
taken = system (boot_vm 0x77003)

vga_taken : walk (boot_vm 0x77003) vga_page ≡ some 0x77
unfolding translate entry_frame
vga_taken = refl

kernel_main-returns_example :
    (vm : Vm) × (kernel_main ports boot taken ≡ some (returns (with_tables ports boot taken vm)))
    × (walk vm vga_page ≡ some 0x77)
kernel_main-returns_example =
    kernel_main-returns ports boot taken 6 (boot_vm-IsMapped 0x77003 (omega arith)) refl refl
      (omega (arith, one_page, one_more)) (omega (arith, one_more)) (unmapped 0x77003) seven_pages
      0x77 vga_taken

-- The texts that are copied, at their addresses, and a heap that is one free block.
abbrev put_text : List ℕ → Memory → Memory
put_text text m a =
    let p = boot.literal text in if leb p a && ltb a (p + 64) then get_or text (a - p) 0 else m a

abbrev spelled : Memory
spelled =
    store32
      (store32
        (put_text page_text
          (put_text text1 (put_text text2 (put_text text3 (put_text text4 (λ a. 0))))))
        heap_start heap_end)
      heap_end 2

spelled-Heap : Heap spelled fresh_blocks
unfolding load32 store32
spelled-Heap = record {
  areas = (record { aligned = refl; whole = refl; word = refl }, refl);
  epsilon = refl;
}

abbrev all_set : List ℕ → Bool
all_set [] = true
all_set (c ∷ rest) = not (c == 0) && all_set rest

-- Bytes that are not zero, one by one.
set_bytes :
    (m : Memory) (p n i : ℕ) → all_set (load_bytes m p n) ≡ true → i < n → load8 m (p + i) ≢ 0
unfolding load_bytes
set_bytes m p zero i h lt = absurd (omega arith)
set_bytes m p (suc n) zero h lt = ground (arith, h)
set_bytes m p (suc n) (suc i) h lt =
    let rest : all_set (load_bytes m (p + 1) n) ≡ true = ground (arith, h) in
    let there : p + 1 + i ≡ p + suc i = omega arith in
    subst (λ x. load8 m x ≢ 0) there (set_bytes m (p + 1) n i rest (omega arith))

spelled_text :
    (p : ℕ) (text : List ℕ)
    → kernel_base ≤ p
    → p + length text < heap_start
    → load_bytes spelled p (length text) ≡ text
    → all_set text ≡ true
    → load8 spelled (p + length text) ≡ 0
    → IsLiteral spelled p text
spelled_text p text low high spells set end =
    let bytes : all_set (load_bytes spelled p (length text)) ≡ true = ap all_set spells ∙ set in
    record {
      low = low;
      high = high;
      spells = spells;
      ends = record { body = λ i h. set_bytes spelled p (length text) i bytes h; end = end };
    }

page_text-IsLiteral : IsLiteral spelled (boot.literal page_text) page_text
unfolding load_bytes load8 store32
page_text-IsLiteral =
    spelled_text (boot.literal page_text) page_text (omega arith) (omega arith) refl refl refl

spelled-AllLiterals : AllLiterals boot spelled (text1 ∷ text2 ∷ text3 ∷ text4 ∷ [])
unfolding load_bytes load8 store32
spelled-AllLiterals = (
  spelled_text (boot.literal text1) text1 (omega arith) (omega arith) refl refl refl,
  (
    spelled_text (boot.literal text2) text2 (omega arith) (omega arith) refl refl refl,
    (
      spelled_text (boot.literal text3) text3 (omega arith) (omega arith) refl refl refl,
      (spelled_text (boot.literal text4) text4 (omega arith) (omega arith) refl refl refl, tt),
    ),
  ),
)

abbrev with_heap : System ports
with_heap = record (system (boot_vm 0)) {
  kernel = record { mem = spelled; vm = boot_vm 0; ran = true };
}

boot_vm-Ready : Ready 18 (boot_vm 0)
boot_vm-Ready = record { mapped = boot_vm-IsMapped 0 (omega arith); stock = from_4 false }

try_pages-PagesShown_example :
    (ptr : ℕ) × (k₁ : Kernel Vm) × (s' : System ports) × (kpagealloc kernel_pager 4 with_heap.kernel
      ≡ some (ptr, k₁))
    × (try_pages ports boot with_heap ≡ (
        if reaches (kernel_pager.is_mapped k₁.vm) ptr 4
          && reaches (kernel_pager.is_mapped k₁.vm) (ptr + page_size * 2) (length page_text + 1)
        then some (ptr, s')
        else none))
    × PagesShown ports 8 ptr with_heap s'
try_pages-PagesShown_example =
    try_pages-PagesShown ports boot with_heap 8 fresh_blocks spelled-Heap page_text-IsLiteral
      boot_vm-Ready

spelled-IsSafe : IsSafe spelled []
spelled-IsSafe = record { layout = fresh_blocks; heap = spelled-Heap; held = tt; disjoint = tt }

fill_heap-IsSafe_example : IsFilled ports boot with_heap 0 [] ⊎ IsUnfilled ports boot with_heap
fill_heap-IsSafe_example =
    fill_heap-IsSafe ports boot with_heap 0 [] spelled-IsSafe spelled-AllLiterals boot_vm-Ready
