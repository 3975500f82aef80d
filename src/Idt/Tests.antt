-- ===== src/Idt/Tests.antt =====
-- The table for wrappers that stand 16 bytes apart.
use simple_kernel.Base.{◌+◌, ◌*◌, ◌≡◌, length, get_or}
use simple_kernel.Idt.{Wrappers, idt_size, zero_entry, load_initial_idt}
use simple_kernel.Idt.Gates.{expected, load_initial_idt_lem}

abbrev spaced : Wrappers
spaced = record { isr_wrapper = λ n. 0xC0100000 + 16 * n; isr_wrapper_reserved = 0xC0200000 }

load_initial_idt_lem_example :
    let (idt, idtr) = load_initial_idt spaced 0xC0300000 in
    (get_or idt 33 zero_entry ≡ expected spaced 33)
    × (length idt ≡ idt_size)
    × (idtr.limit + 1 ≡ 8 * length idt)
load_initial_idt_lem_example = load_initial_idt_lem spaced 0xC0300000 33
