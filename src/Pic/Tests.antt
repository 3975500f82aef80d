-- ===== src/Pic/Tests.antt =====
-- `pic_init` on two controllers.
use simple_kernel.Base.{ℕ, refl, arith}
use simple_kernel.Ports.{PortIo}
use simple_kernel.Pic.{pic_init}
use simple_kernel.Pic.Start.{
  Chip, wants_offset, Controllers, IsStarted, written_to, pic_init-IsStarted,
}

-- Two controllers as their state machines.
abbrev chip_ports : PortIo
chip_ports = record {
  Machine = ℕ → Chip;
  outb = λ port v s c. written_to c port v (s c);
  inb = λ port s. (0, s);
  outl = λ port v s. s;
  inl = λ port s. (0, s);
}

abbrev chips : Controllers chip_ports
chips = record { chip = λ c s. s c; chip_write = λ c port v s h. refl; chip_wait = λ c s. refl }

pic_init-IsStarted_example : IsStarted chip_ports chips 12 (
    pic_init chip_ports (λ c. record {
      phase = wants_offset;
      command = 0;
      offset = 0;
      cascade = 0;
      mode = 0;
      mask = 0xFF;
    }))
pic_init-IsStarted_example =
    pic_init-IsStarted chip_ports chips 12
      (λ c. record {
        phase = wants_offset;
        command = 0;
        offset = 0;
        cascade = 0;
        mode = 0;
        mask = 0xFF;
      })
      (omega arith)
