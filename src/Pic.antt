-- ===== src/Pic.antt =====
-- The two interrupt controllers of kernel/arch/i386/pic.c, with the constants of
-- kernel/include/kernel/arch/i386/pic.h.
pub mod Mask
pub mod Start
pub mod Tests
use simple_kernel.Base.{
  ℕ, ◌+◌, ◌-◌, ◌*◌, ◌^◌, ◌%◌, bit_and, bit_or, ltb, if◌then◌else◌, u8, ◌<<<◌, complement32, Bool,
}
use simple_kernel.Ports.{PortIo, iowait}

abbrev pub pic1_command : ℕ
pic1_command = 0x20

abbrev pub pic1_data : ℕ
pic1_data = 0x20 + 1

abbrev pub pic2_command : ℕ
pic2_command = 0xA0

abbrev pub pic2_data : ℕ
pic2_data = 0xA0 + 1

abbrev pub pic_command_eoi : ℕ
pic_command_eoi = 0x20

abbrev pub pic_offset1 : ℕ
pic_offset1 = 0x20

abbrev pub pic_offset2 : ℕ
pic_offset2 = 0x28

abbrev pub pic_icw1_icw4 : ℕ
pic_icw1_icw4 = 0x01

abbrev pub pic_icw1_init : ℕ
pic_icw1_init = 0x10

abbrev pub pic_icw4_8086 : ℕ
pic_icw4_8086 = 0x01

-- The port and the bit of an interrupt line.
abbrev pub mask_port : ℕ → ℕ
mask_port line = if ltb 7 line then pic2_data else pic1_data

abbrev pub mask_bit : ℕ → ℕ
mask_bit line = if ltb 7 line then line - 8 else line

module _ (io : PortIo) where
  open io use {Machine, outb, inb}

  unfoldable pub pic_send_eoi : ℕ → Machine → Machine
  pic_send_eoi irq s =
      let s' = if ltb 7 irq then outb pic2_command pic_command_eoi s else s in
      outb pic1_command pic_command_eoi s'

  unfoldable pub pic_set_irq_mask : ℕ → Machine → Machine
  pic_set_irq_mask line s =
      let (v, s') = inb (mask_port line) s in
      outb (mask_port line) (u8 (bit_or v (1 <<< mask_bit line))) s'

  unfoldable pub pic_clear_irq_mask : ℕ → Machine → Machine
  pic_clear_irq_mask line s =
      let (v, s') = inb (mask_port line) s in
      outb (mask_port line) (u8 (bit_and v (complement32 (1 <<< mask_bit line)))) s'

  -- A write and the pause behind it.
  unfoldable pub out_and_wait : ℕ → ℕ → Machine → Machine
  out_and_wait port value s = iowait io (outb port value s)

  unfoldable pub pic_map : ℕ → ℕ → ℕ → ℕ → Machine → Machine
  unfolding out_and_wait
  pic_map offset1 offset2 m1 m2 s₀ =
      let s₁ = out_and_wait pic1_command (bit_or pic_icw1_init pic_icw1_icw4) s₀ in
      let s₂ = out_and_wait pic1_data offset1 s₁ in
      let s₃ = out_and_wait pic1_data 0b00000100 s₂ in
      let s₄ = out_and_wait pic1_data pic_icw4_8086 s₃ in
      let s₅ = out_and_wait pic2_command (bit_or pic_icw1_init pic_icw1_icw4) s₄ in
      let s₆ = out_and_wait pic2_data offset2 s₅ in
      let s₇ = out_and_wait pic2_data 0b00000010 s₆ in
      let s₈ = out_and_wait pic2_data pic_icw4_8086 s₇ in outb pic2_data m2 (outb pic1_data m1 s₈)

  unfoldable pub pic_disable : Machine → Machine
  pic_disable s = outb pic2_data 0xFF (outb pic1_data 0xFF s)

  unfoldable pub pic_init : Machine → Machine
  unfolding pic_map
  pic_init = pic_map pic_offset1 pic_offset2 0b11111001 (u8 (2 ^ 32 - 1))
