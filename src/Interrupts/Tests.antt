-- ===== src/Interrupts/Tests.antt =====
-- Two controllers that are nothing but the line in service, and a frame of kernel code.
use simple_kernel.Base.{
  ℕ, ◌≡◌, refl, arith, true, Option, none, some, codes, ◌&&◌, ◌==◌, if◌then◌else◌,
}
use simple_kernel.Tty.{terminal_write}
use simple_kernel.Ports.{PortIo}
use simple_kernel.Pic.{pic1_command, pic2_command}
use simple_kernel.Interrupts.{StackFrame, Console, Handled, returns, handle}
use simple_kernel.Interrupts.Hangs.{has_hung, handle-has_hung}
use simple_kernel.Interrupts.Ready.{InService, handle-serving}

abbrev ports : PortIo
ports = record {
  Machine = ℕ → Option ℕ;
  outb = λ port v s p. if port == p && v == 0x20 then none else s p;
  inb = λ port s. (0, s);
  outl = λ port v s. s;
  inl = λ port s. (0, s);
}

ended :
    (port p : ℕ) (line : Option ℕ)
    → (if port == p && 0x20 == 0x20 then none else line) ≡ (if port == p then none else line)
ended port p line = ground arith

abbrev pics : InService ports
pics = record {
  serving = λ p s. s p;
  end_of_interrupt = λ port p s. ended port p (s p);
  read_keyboard = λ p s. refl;
}

abbrev frame : StackFrame
frame = record {
  edi = 0;
  esi = 0;
  ebp = 0;
  esp = 0;
  ebx = 0;
  edx = 0;
  ecx = 0;
  eax = 0;
  err = 2;
  eip = 0x1000;
  cs = 8;
  eflags = 0;
}

abbrev console : Console ports
console = (record { row = 0; column = 0; color = 7; buffer = λ j. 0 }, λ p. some 3)

handle-has_hung_example :
    (r : Handled (Console ports)) × (handle ports 14 frame console ≡ some r) × (has_hung r ≡ true)
handle-has_hung_example = handle-has_hung ports frame console 14 (omega arith) (omega arith)

handle-serving_example :
    (c' : Console ports) × (handle ports 33 frame console ≡ some (returns c'))
    × (c'.1 pic1_command ≡ none)
    × (c'.1 pic2_command ≡ some 3)
    × (c'.0 ≡ terminal_write (codes "pressed") console.0)
handle-serving_example = handle-serving ports pics 33 frame console (omega arith) (omega arith)
