-- ===== src/Stdlib.antt =====
-- `abort` of libc/stdlib, which prints a line and then loops for ever.
use simple_kernel.Base.{Option, none, some, codes}
use simple_kernel.Tty.{Terminal}
use simple_kernel.Printf.{Printed, written, failed, puts}
use simple_kernel.Interrupts.{Handled, hangs}

abbrev stopped : Printed → Handled Terminal
stopped (written n t) = hangs t
stopped (failed t) = hangs t

unfoldable pub abort : Terminal → Option (Handled Terminal)
abort t = elim (puts (codes "abort()") t) [ none ↦ none | some p ↦ some (stopped p) ]
