-- ===== src/Interrupts/Ready.antt =====
-- After a device's interrupt the controllers are ready for the next one.
use simple_kernel.Base.{
  ℕ, ◌≤◌, ◌<◌, inl, inr, Bool-cases, ◌≡◌, refl, arith, Option, none, some, ltb, ◌==◌, if◌then◌else◌,
  codes,
}
use simple_kernel.Tty.{terminal_write}
use simple_kernel.Ports.{PortIo}
use simple_kernel.Pic.{pic1_command, pic2_command, pic_command_eoi, pic_send_eoi}
use simple_kernel.Interrupts.{
  StackFrame, Console, returns, pit_handler, keyboard_handler, dispatch, handle,
}

-- The documented behaviour of the 8259A with one interrupt in service at a time, as the gates of
-- this kernel leave interrupts off in a handler: the non-specific end of interrupt at a
-- controller's command port ends its service, and reading the keyboard's port ends none.
pub record InService (io : PortIo) : Type 0 where
  pub serving : ℕ → io.Machine → Option ℕ
  pub end_of_interrupt :
      (port p : ℕ) (s : io.Machine)
      → serving p (io.outb port pic_command_eoi s) ≡ (if port == p then none else serving p s)
  pub read_keyboard : (p : ℕ) (s : io.Machine) → serving p (io.inb 0x60 s).1 ≡ serving p s

module _ (io : PortIo) (pics : InService io) where
  open pics use {serving}

  -- `pic_send_eoi` of a line ends the service of the first controller, and of the second one
  -- exactly for a line from 8 on.
  pub pic_send_eoi_lem :
      (line : ℕ) (s : io.Machine)
      → (serving pic1_command (pic_send_eoi io line s) ≡ none)
        × (serving pic2_command (pic_send_eoi io line s)
            ≡ (if ltb 7 line then none else serving pic2_command s))
  unfolding pic_send_eoi
  pic_send_eoi_lem line s = (
    ground (
      arith,
      pics.end_of_interrupt pic1_command pic1_command s,
      pics.end_of_interrupt pic1_command pic1_command (io.outb pic2_command pic_command_eoi s),
    ),
    ground (
      arith,
      pics.end_of_interrupt pic1_command pic2_command s,
      pics.end_of_interrupt pic1_command pic2_command (io.outb pic2_command pic_command_eoi s),
      pics.end_of_interrupt pic2_command pic2_command s,
    ),
  )

  -- The handlers of the timer and the keyboard, vectors 32 and 33, return, and the first controller
  -- then serves nothing, so the next interrupt is let through. The timer's prints nothing and the
  -- keyboard's prints one text.
  pub handle-serving :
      (v : ℕ) (sf : StackFrame) (c : Console io)
      → 32 ≤ v
      → v < 34
      → (c' : Console io) × (handle io v sf c ≡ some (returns c'))
        × (serving pic1_command c'.1 ≡ none)
        × (serving pic2_command c'.1 ≡ serving pic2_command c.1)
        × (c'.0 ≡ (if v == 33 then terminal_write (codes "pressed") c.0 else c.0))
  unfolding handle dispatch pit_handler keyboard_handler
  handle-serving v sf c lo hi = elim (Bool-cases (v == 33)) [
    | inl keyboard ↦
        let at : v ≡ 33 = ground arith in
        let s' = (io.inb 0x60 c.1).1 in
        (
          (terminal_write (codes "pressed") c.0, pic_send_eoi io 1 s'),
          rw at refl,
          (pic_send_eoi_lem 1 s').0,
          ground (arith, pic_send_eoi_lem 1 s', pics.read_keyboard pic2_command c.1),
          rw keyboard refl,
        )
    | inr timer ↦
        let at : v ≡ 32 = ground arith in
        (
          (c.0, pic_send_eoi io 0 c.1),
          rw at refl,
          (pic_send_eoi_lem 0 c.1).0,
          ground (arith, pic_send_eoi_lem 0 c.1),
          rw timer refl,
        )
  ]
