-- ===== src/Interrupts/Hangs.antt =====
-- Which interrupts stop the kernel.
use mathlib.Core.Option.{some-injective}
use simple_kernel.Base.{
  inl, inr, sym, Bool-cases, ℕ, ◌^◌, ◌<◌, ◌≡◌, refl, ◌∙◌, arith, Bool, true, false, ◌&&◌, ◌||◌, not,
  some, ltb, leb, ◌==◌, codes,
}
use simple_kernel.Tty.{terminal_write}
use simple_kernel.Ports.{PortIo}
use simple_kernel.Print.Decimal.{iprint_lem}
use simple_kernel.Interrupts.{
  StackFrame, Handled, returns, hangs, Console, from_user, fatal, debug_exception_handler,
  nmi_interrupt_handler, breakpoint_exception_handler, overflow_exception_handler,
  bound_range_exception_handler, not_available_exception_handler, double_fault_handler,
  invalid_tss_handler, segment_not_present_handler, stack_fault_handler, general_protection_handler,
  floating_point_fault_handler, alignment_check_handler, machine_check_handler,
  simd_exception_handler, virtualization_exception_handler, control_protection_handler,
  zero_division_handler, invalid_opcode_handler, coprocessor_overrun_handler, reserved_interrupt,
  page_fault_handler, pit_handler, keyboard_handler, dispatch, handle,
}

abbrev pub has_hung : {S : Type 0} → Handled S → Bool
has_hung (returns s) = false
has_hung (hangs s) = true

-- The vectors whose handler stops the kernel when the kernel itself caused the interrupt.
abbrev pub is_fatal : ℕ → Bool
is_fatal v = v == 0 || v == 6 || v == 9 || v == 15 || (leb 22 v && ltb v 32)

module _ (io : PortIo) (sf : StackFrame) (c : Console io) where
  page_fault_hangs :
      sf.err < 2 ^ 32 → (c' : Console io) × (page_fault_handler io sf c ≡ some (hangs c'))
  unfolding page_fault_handler
  page_fault_hangs small =
      let t =
        terminal_write (codes "  error code: ")
          (terminal_write (codes "FATAL ERROR: page fault!\n") c.0) in
      let (text, printed, decimal, short) = iprint_lem sf.err t (omega arith) in
      ((terminal_write text t, c.1), rw (printed, page_fault_handler) refl)

  dispatch-has_hung :
      (v : ℕ)
      → v < 34
      → (v == 14) ≡ false
      → has_hung (dispatch io v sf c) ≡ (is_fatal v && not (from_user sf))
  unfolding dispatch fatal pit_handler keyboard_handler zero_division_handler invalid_opcode_handler
      coprocessor_overrun_handler reserved_interrupt debug_exception_handler nmi_interrupt_handler
      breakpoint_exception_handler overflow_exception_handler bound_range_exception_handler
      not_available_exception_handler double_fault_handler invalid_tss_handler
      segment_not_present_handler stack_fault_handler general_protection_handler
      floating_point_fault_handler alignment_check_handler machine_check_handler
      simd_exception_handler virtualization_exception_handler control_protection_handler
  dispatch-has_hung v low other = ground arith

  dispatch-returns : (v : ℕ) (c' : Console io) → v < 32 → dispatch io v sf c ≡ returns c' → c' ≡ c
  unfolding dispatch fatal zero_division_handler invalid_opcode_handler coprocessor_overrun_handler
      reserved_interrupt debug_exception_handler nmi_interrupt_handler breakpoint_exception_handler
      overflow_exception_handler bound_range_exception_handler not_available_exception_handler
      double_fault_handler invalid_tss_handler segment_not_present_handler stack_fault_handler
      general_protection_handler floating_point_fault_handler alignment_check_handler
      machine_check_handler simd_exception_handler virtualization_exception_handler
      control_protection_handler
  dispatch-returns v c' low e = ground arith

  -- With an error code of 32 bits, the handler of each vector below 34 ends or stops the kernel. It
  -- stops the kernel on a page fault, whoever caused it, and on one of the other fatal exceptions or
  -- a reserved one unless that came from user mode.
  pub handle-has_hung :
      (v : ℕ)
      → v < 34
      → sf.err < 2 ^ 32
      → (r : Handled (Console io)) × (handle io v sf c ≡ some r)
        × (has_hung r ≡ (v == 14 || (is_fatal v && not (from_user sf))))
  unfolding handle
  handle-has_hung v low small = elim (Bool-cases (v == 14)) [
    | inl page_fault ↦
        let (c', e) = page_fault_hangs small in
        (hangs c', rw (page_fault, handle) e, rw page_fault refl)
    | inr other ↦
        (dispatch io v sf c, rw (other, handle) refl, rw other (dispatch-has_hung v low other))
  ]

  -- An exception whose handler returns has changed neither the terminal nor a device.
  pub handle-returns :
      (v : ℕ) (c' : Console io)
      → v < 32
      → handle io v sf c ≡ some (returns c')
      → sf.err < 2 ^ 32
      → c' ≡ c
  unfolding handle
  handle-returns v c' low e small = elim (Bool-cases (v == 14)) [
    | inl page_fault ↦
        let (hung, e') = page_fault_hangs small in
        let e'' : handle io v sf c ≡ some (hangs hung) = rw (page_fault, handle) e' in cc
    | inr other ↦
        let e' : handle io v sf c ≡ some (dispatch io v sf c) = rw (other, handle) refl in
        dispatch-returns v c' low (some-injective _ _ (sym e' ∙ e))
  ]
