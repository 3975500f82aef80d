-- ===== src/Idt.antt =====
-- The interrupt gates of kernel/arch/i386/interrupts/idt.c, with the records of
-- kernel/include/kernel/arch/i386/idt.h.
pub mod Gates
pub mod Tests
use simple_kernel.Base.{
  ℕ, zero, suc, ◌+◌, ◌-◌, ◌*◌, ◌/◌, ◌%◌, ◌^◌, List, set, replicate, u16, ◌>>>◌,
}

abbrev pub idt_size : ℕ
idt_size = 256

pub record IdtEntry : Type 0 where
  pub addr_low : ℕ
  pub kernel_cs : ℕ
  pub reserved : ℕ
  pub attributes : ℕ
  pub addr_high : ℕ

pub record IdtrEntry : Type 0 where
  pub limit : ℕ
  pub base : ℕ

unfoldable pub config_idt_entry : ℕ → ℕ → ℕ → IdtEntry
config_idt_entry addr cs attributes = record {
  addr_low = u16 addr;
  kernel_cs = cs;
  reserved = 0;
  attributes = attributes;
  addr_high = u16 (addr >>> 16);
}

abbrev pub zero_entry : IdtEntry
zero_entry = record { addr_low = 0; kernel_cs = 0; reserved = 0; attributes = 0; addr_high = 0 }

-- `config_idt_entry(&initial_idt[i], addr, 0x08, 0b10001110)`.
unfoldable pub set_gate : ℕ → ℕ → List IdtEntry → List IdtEntry
set_gate i addr idt = set idt i (config_idt_entry addr 0x08 0b10001110)

-- The addresses of the wrappers in isr_wrappers.S: `isr_wrapper_n` and `isr_wrapper_reserved`.
pub record Wrappers : Type 0 where
  pub isr_wrapper : ℕ → ℕ
  pub isr_wrapper_reserved : ℕ

-- The calls for `left` vectors from `i` on, of the wrapper of each vector's own number.
unfoldable pub set_gates : Wrappers → ℕ → ℕ → List IdtEntry → List IdtEntry
set_gates w zero i idt = idt
set_gates w (suc left) i idt = set_gates w left (i + 1) (set_gate i (w.isr_wrapper i) idt)

-- The loop that sets `left` vectors from `i` on to the reserved wrapper.
unfoldable pub reserve_gates : Wrappers → ℕ → ℕ → List IdtEntry → List IdtEntry
reserve_gates w zero i idt = idt
reserve_gates w (suc left) i idt =
    reserve_gates w left (i + 1) (set_gate i w.isr_wrapper_reserved idt)

-- The calls of `config_idt_entry` on the cleared table, in the order of the source.
unfoldable pub config_entries : Wrappers → List IdtEntry → List IdtEntry
config_entries w idt₀ =
    let idt₁ = set_gates w 15 0 idt₀ in
    let idt₂ = set_gate 15 w.isr_wrapper_reserved idt₁ in
    let idt₃ = set_gates w 6 16 idt₂ in
    let idt₄ = reserve_gates w 10 22 idt₃ in set_gates w 2 32 idt₄

-- The table and the register that `lidt` loads; `table` is the address of `initial_idt`.
unfoldable pub load_initial_idt : Wrappers → ℕ → List IdtEntry × IdtrEntry
load_initial_idt w table = (
  config_entries w (replicate idt_size zero_entry),
  record { limit = 8 * idt_size - 1; base = table },
)
