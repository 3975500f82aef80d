-- ===== src/Ports.antt =====
-- The machine's I/O ports behind kernel/arch/i386/iobasics.c. `outb`, `inb`, `outl` and `inl` there
-- are one instruction of inline assembly each: the devices that answer are a parameter.
use simple_kernel.Base.{ℕ}

pub record PortIo : Type 1 where
  pub Machine : Type 0
  pub outb : ℕ → ℕ → Machine → Machine
  pub inb : ℕ → Machine → ℕ × Machine
  pub outl : ℕ → ℕ → Machine → Machine
  pub inl : ℕ → Machine → ℕ × Machine

-- The dummy read that gives an old device time.
unfoldable pub iowait : (io : PortIo) → io.Machine → io.Machine
iowait io s = (io.inb 0x80 s).1
