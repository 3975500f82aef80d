-- ===== src/Main/Samples.antt =====
-- A system as the boot code leaves it, with 20 free pages.
use mathlib.Core.Option.{some-injective}
use simple_kernel.Base.{
  ℕ, suc, ◌+◌, ◌-◌, ◌*◌, ◌/◌, ◌%◌, ◌^◌, ◌<◌, ◌≡◌, refl, sym, ◌∙◌, subst, arith, Bool, true, false,
  some, [], ◌∷◌, get_or, ◌==◌, leb, if◌then◌else◌,
}
use simple_kernel.Pmm.{ManagedMemory, get_page, scan, first_zero_in_byte, offsets_to_physaddr}
use simple_kernel.Paging.Mmu.{Vm}
use simple_kernel.Paging.Supply.{Stocks, Stocks-le}
use simple_kernel.Late.Samples.{early_memory, image}
use simple_kernel.Ports.{PortIo}
use simple_kernel.Main.{Boot, System}

abbrev pub ports : PortIo
ports = record {
  Machine = ℕ → ℕ;
  outb = λ port v s p. if port == p then v else s p;
  inb = λ port s. (0, s);
  outl = λ port v s. s;
  inl = λ port s. (0, s);
}

abbrev pub boot : Boot
boot = record {
  symbols = image;
  bitmap = 0x5000;
  early = early_memory;
  wrappers = record { isr_wrapper = λ n. 0xC0100000 + 16 * n; isr_wrapper_reserved = 0xC0200000 };
  initial_gdt = 0xC0300000;
  initial_idt = 0xC0301000;
  literal = λ text. 0xC0302000 + 64 * get_or text 6 0;
}

abbrev pub system : Vm → System ports
system vm = record {
  kernel = record { mem = λ a. 0; vm = vm; ran = false };
  term = record { row = 0; column = 0; color = 0; buffer = λ j. 0 };
  machine = λ p. 0;
  gdt = ([], record { limit = 0; base = 0 });
  idt = ([], record { limit = 0; base = 0 });
  interrupts = false;
}

-- A byte of the bitmap, from page `base` on, where the first `k` pages are in use.
abbrev filled : ℕ → ℕ → ℕ
filled base k = if leb (base + 8) k then 0xFF else 2 ^ (k - base) - 1

-- The allocator then.
abbrev stage : Bool → ℕ → ManagedMemory
stage set_up k = record {
  bitmap = filled 0 k ∷ filled 8 k ∷ filled 16 k ∷ [];
  size = 3;
  next_index = k / 8;
  next_offset = k % 8;
  free_pages = 20;
  set_up = set_up;
}

Stocks-next :
    (n : ℕ) (m : ManagedMemory) (page : ℕ) (m' : ManagedMemory)
    → m.next_index < m.size
    → get_page m ≡ some (page, m')
    → Stocks n m'
    → Stocks (suc n) m
Stocks-next n m page m' room e s = (
  room,
  λ page' m'' e'.
      subst (λ (r : ℕ × ManagedMemory). Stocks n r.1) (some-injective _ _ (sym e ∙ e')) s,
)

from_18 : (u : Bool) → Stocks 4 (stage u 18)
unfolding get_page scan first_zero_in_byte offsets_to_physaddr
from_18 u = Stocks-next 3 (stage u 18) 0x12000 (stage u 19) (omega arith) refl (
    Stocks-next 2 (stage u 19) 0x13000 (stage u 20) (omega arith) refl (
      Stocks-next 1 (stage u 20) 0x14000 (stage u 21) (omega arith) refl
        (Stocks-next 0 (stage u 21) 0x15000 (stage u 22) (omega arith) refl tt)))

from_13 : (u : Bool) → Stocks 9 (stage u 13)
unfolding get_page scan first_zero_in_byte offsets_to_physaddr
from_13 u = Stocks-next 8 (stage u 13) 0xd000 (stage u 14) (omega arith) refl (
    Stocks-next 7 (stage u 14) 0xe000 (stage u 15) (omega arith) refl (
      Stocks-next 6 (stage u 15) 0xf000 (stage u 16) (omega arith) refl (
        Stocks-next 5 (stage u 16) 0x10000 (stage u 17) (omega arith) refl
          (Stocks-next 4 (stage u 17) 0x11000 (stage u 18) (omega arith) refl (from_18 u)))))

from_8 : (u : Bool) → Stocks 14 (stage u 8)
unfolding get_page scan first_zero_in_byte offsets_to_physaddr
from_8 u = Stocks-next 13 (stage u 8) 0x8000 (stage u 9) (omega arith) refl (
    Stocks-next 12 (stage u 9) 0x9000 (stage u 10) (omega arith) refl (
      Stocks-next 11 (stage u 10) 0xa000 (stage u 11) (omega arith) refl (
        Stocks-next 10 (stage u 11) 0xb000 (stage u 12) (omega arith) refl
          (Stocks-next 9 (stage u 12) 0xc000 (stage u 13) (omega arith) refl (from_13 u)))))

pub from_4 : (u : Bool) → Stocks 18 (stage u 4)
unfolding get_page scan first_zero_in_byte offsets_to_physaddr
from_4 u = Stocks-next 17 (stage u 4) 0x4000 (stage u 5) (omega arith) refl (
    Stocks-next 16 (stage u 5) 0x5000 (stage u 6) (omega arith) refl (
      Stocks-next 15 (stage u 6) 0x6000 (stage u 7) (omega arith) refl
        (Stocks-next 14 (stage u 7) 0x7000 (stage u 8) (omega arith) refl (from_8 u))))

pub seven_pages : Stocks 7 (record early_memory { set_up = true })
seven_pages = Stocks-le 7 18 (record early_memory { set_up = true }) (omega arith) (from_4 true)
