-- ===== src/Interrupts.antt =====
-- The interrupt handlers of kernel/arch/i386/interrupts/interrupts.c.
pub mod Hangs
pub mod Ready
mod Tests
use simple_kernel.Base.{
  ℕ, ◌+◌, ◌-◌, ◌%◌, ◌^◌, bit_and, Bool, true, false, ◌&&◌, ◌||◌, not, Option, none, some, List, ltb,
  leb, ◌==◌, if◌then◌else◌, codes,
}
use simple_kernel.Tty.{Terminal, terminal_write}
use simple_kernel.Print.{iprint}
use simple_kernel.Ports.{PortIo}
use simple_kernel.Pic.{pic_send_eoi}

-- `struct stackframe` of kernel/include/kernel/arch/i386/idt.h.
pub record StackFrame : Type 0 where
  pub edi : ℕ
  pub esi : ℕ
  pub ebp : ℕ
  pub esp : ℕ
  pub ebx : ℕ
  pub edx : ℕ
  pub ecx : ℕ
  pub eax : ℕ
  pub err : ℕ
  pub eip : ℕ
  pub cs : ℕ
  pub eflags : ℕ

abbrev pub from_user : StackFrame → Bool
from_user sf = bit_and sf.cs 0b11 == 3

-- `hangs`: the handler prints and then loops for ever.
pub data Handled (S : Type 0) : Type 0 where
  returns : S → Handled S
  hangs : S → Handled S

module _ (io : PortIo) where
  open io use {Machine, inb}

  -- The terminal and the devices behind the ports.
  abbrev pub Console : Type 0
  Console = Terminal × Machine

  -- `terminal_writestring` of a text that the code spells out.
  unfoldable pub say : List ℕ → Console → Console
  say text (t, s) = (terminal_write text t, s)

  -- The body that four handlers share, with the text of each.
  unfoldable pub fatal : List ℕ → StackFrame → Console → Handled Console
  unfolding say
  fatal text sf c = if from_user sf then returns c else hangs (say text c)

  unfoldable pub zero_division_handler : StackFrame → Console → Handled Console
  zero_division_handler = fatal (codes "FATAL ERROR: division-by-zero occurred in kernel-space.")

  unfoldable pub invalid_opcode_handler : StackFrame → Console → Handled Console
  invalid_opcode_handler =
      fatal (codes "FATAL ERROR: the kernel encountered an invalid opcode during execution.")

  unfoldable pub coprocessor_overrun_handler : StackFrame → Console → Handled Console
  coprocessor_overrun_handler =
      fatal (codes "FATAL ERROR: coprocessor segment overrun in kernel-space.")

  unfoldable pub reserved_interrupt : StackFrame → Console → Handled Console
  reserved_interrupt =
      fatal (codes "FATAL ERROR: this isn't supposed to happen! Reserved interrupt fired.")

  -- The handlers with an empty body.
  unfoldable pub debug_exception_handler : StackFrame → Console → Handled Console
  debug_exception_handler sf c = returns c

  unfoldable pub nmi_interrupt_handler : StackFrame → Console → Handled Console
  nmi_interrupt_handler sf c = returns c

  unfoldable pub breakpoint_exception_handler : StackFrame → Console → Handled Console
  breakpoint_exception_handler sf c = returns c

  unfoldable pub overflow_exception_handler : StackFrame → Console → Handled Console
  overflow_exception_handler sf c = returns c

  unfoldable pub bound_range_exception_handler : StackFrame → Console → Handled Console
  bound_range_exception_handler sf c = returns c

  unfoldable pub not_available_exception_handler : StackFrame → Console → Handled Console
  not_available_exception_handler sf c = returns c

  unfoldable pub double_fault_handler : StackFrame → Console → Handled Console
  double_fault_handler sf c = returns c

  unfoldable pub invalid_tss_handler : StackFrame → Console → Handled Console
  invalid_tss_handler sf c = returns c

  unfoldable pub segment_not_present_handler : StackFrame → Console → Handled Console
  segment_not_present_handler sf c = returns c

  unfoldable pub stack_fault_handler : StackFrame → Console → Handled Console
  stack_fault_handler sf c = returns c

  unfoldable pub general_protection_handler : StackFrame → Console → Handled Console
  general_protection_handler sf c = returns c

  unfoldable pub floating_point_fault_handler : StackFrame → Console → Handled Console
  floating_point_fault_handler sf c = returns c

  unfoldable pub alignment_check_handler : StackFrame → Console → Handled Console
  alignment_check_handler sf c = returns c

  unfoldable pub machine_check_handler : StackFrame → Console → Handled Console
  machine_check_handler sf c = returns c

  unfoldable pub simd_exception_handler : StackFrame → Console → Handled Console
  simd_exception_handler sf c = returns c

  unfoldable pub virtualization_exception_handler : StackFrame → Console → Handled Console
  virtualization_exception_handler sf c = returns c

  unfoldable pub control_protection_handler : StackFrame → Console → Handled Console
  control_protection_handler sf c = returns c

  -- `none`: the fuel of `iprint` runs out, which no 32-bit error code makes it do.
  unfoldable pub page_fault_handler : StackFrame → Console → Option (Handled Console)
  unfolding say
  page_fault_handler sf c =
      let (t, s) = say (codes "  error code: ") (say (codes "FATAL ERROR: page fault!\n") c) in
      elim (iprint sf.err t) [ none ↦ none | some t' ↦ some (hangs (t', s)) ]

  unfoldable pub pit_handler : StackFrame → Console → Handled Console
  pit_handler sf (t, s) = returns (t, pic_send_eoi io 0 s)

  unfoldable pub keyboard_handler : StackFrame → Console → Handled Console
  unfolding say
  keyboard_handler sf c =
      let (t, s) = say (codes "pressed") c in
      let (code, s') = inb 0x60 s in returns (t, pic_send_eoi io 1 s')

  -- The handler that the wrapper of a vector below 34 calls, but for page faults.
  unfoldable pub dispatch : ℕ → StackFrame → Console → Handled Console
  dispatch v sf c =
      if v == 0
      then zero_division_handler sf c
      else if v == 1
      then debug_exception_handler sf c
      else if v == 2
      then nmi_interrupt_handler sf c
      else if v == 3
      then breakpoint_exception_handler sf c
      else if v == 4
      then overflow_exception_handler sf c
      else if v == 5
      then bound_range_exception_handler sf c
      else if v == 6
      then invalid_opcode_handler sf c
      else if v == 7
      then not_available_exception_handler sf c
      else if v == 8
      then double_fault_handler sf c
      else if v == 9
      then coprocessor_overrun_handler sf c
      else if v == 10
      then invalid_tss_handler sf c
      else if v == 11
      then segment_not_present_handler sf c
      else if v == 12
      then stack_fault_handler sf c
      else if v == 13
      then general_protection_handler sf c
      else if v == 16
      then floating_point_fault_handler sf c
      else if v == 17
      then alignment_check_handler sf c
      else if v == 18
      then machine_check_handler sf c
      else if v == 19
      then simd_exception_handler sf c
      else if v == 20
      then virtualization_exception_handler sf c
      else if v == 21
      then control_protection_handler sf c
      else if v == 32
      then pit_handler sf c
      else if v == 33
      then keyboard_handler sf c
      else reserved_interrupt sf c

  unfoldable pub handle : ℕ → StackFrame → Console → Option (Handled Console)
  handle v sf c = if v == 14 then page_fault_handler sf c else some (dispatch v sf c)
