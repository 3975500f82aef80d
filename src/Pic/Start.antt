-- ===== src/Pic/Start.antt =====
-- The initialisation of the controllers, against the state machine that an 8259A goes through.
use simple_kernel.Base.{
  zero, suc, Bool-cases, inl, inr, ℕ, ◌+◌, ◌-◌, ◌*◌, ◌/◌, ◌^◌, ◌<◌, ◌≡◌, ◌⊎◌, refl, ◌∙◌, ap, arith,
  ◌||◌, Option, none, some, bit_and, ◌==◌, if◌then◌else◌, ltb, u8,
}
use simple_kernel.Pmm.Bitmap.{bit}
use simple_kernel.Ports.{PortIo, iowait}
use simple_kernel.Pic.{
  pic1_command, pic2_command, pic_offset1, pic_offset2, mask_bit, out_and_wait, pic_map, pic_init,
}

-- What a controller takes a write to its data port for.
pub data Phase : Type 0 where
  wants_offset : Phase
  wants_cascade : Phase
  wants_mode : Phase
  operating : Phase

pub record Chip : Type 0 where
  pub phase : Phase
  pub command : ℕ
  pub offset : ℕ
  pub cascade : ℕ
  pub mode : ℕ
  pub mask : ℕ

-- A command with bit 4 is the first word of the initialisation, which clears the mask and the mode.
abbrev pub write_command : ℕ → Chip → Chip
write_command v chip =
    if bit_and v 0x10 == 0
    then chip
    else record chip { phase = wants_offset; command = v; mode = 0; mask = 0 }

-- The fourth word is taken if bit 0 of the first one is set, and the third one unless its bit 1 is,
-- for a controller that stands alone.
abbrev pub after_cascade : ℕ → Phase
after_cascade command = if bit_and command 1 == 0 then operating else wants_mode

abbrev pub after_offset : ℕ → Phase
after_offset command = if bit_and command 2 == 0 then wants_cascade else after_cascade command

abbrev pub write_data : ℕ → Phase → Chip → Chip
write_data v wants_offset chip = record chip { phase = after_offset chip.command; offset = v }
write_data v wants_cascade chip = record chip { phase = after_cascade chip.command; cascade = v }
write_data v wants_mode chip = record chip { phase = operating; mode = v }
write_data v operating chip = record chip { mask = v }

-- A write to a port, as the controller whose command port is `c` takes it.
abbrev pub written_to : ℕ → ℕ → ℕ → Chip → Chip
written_to c port v chip =
    if port == c
    then write_command v chip
    else if port == c + 1
    then write_data v chip.phase chip
    else chip

-- The vector that a controller delivers for its line `i`: in the mode of the 8086, which bit 0 of the
-- fourth word selects, the upper five bits are those of the second word.
abbrev pub delivered : Chip → ℕ → Option ℕ
delivered chip i = if bit chip.mode 0 == 1 then some (chip.offset / 8 * 8 + i) else none

-- The documented behaviour of the two 8259A: each takes the writes to its two ports, and the read of
-- port 0x80 reaches neither.
pub record Controllers (io : PortIo) : Type 0 where
  pub chip : ℕ → io.Machine → Chip
  pub chip_write :
      (c port v : ℕ) (s : io.Machine)
      → (c ≡ pic1_command) ⊎ (c ≡ pic2_command)
      → chip c (io.outb port v s) ≡ written_to c port v (chip c s)
  pub chip_wait : (c : ℕ) (s : io.Machine) → chip c (io.inb 0x80 s).1 ≡ chip c s

abbrev pub started : ℕ → ℕ → ℕ → Chip
started offset cascade mask = record {
  phase = operating;
  command = 0x11;
  offset = offset;
  cascade = cascade;
  mode = 1;
  mask = mask;
}

module _ (io : PortIo) (pics : Controllers io) where
  open pics use {chip}

  chip-out_and_wait :
      (c port v : ℕ) (s : io.Machine)
      → (c ≡ pic1_command) ⊎ (c ≡ pic2_command)
      → chip c (out_and_wait io port v s) ≡ written_to c port v (chip c s)
  unfolding out_and_wait iowait
  chip-out_and_wait c port v s h =
      pics.chip_wait c (io.outb port v s) ∙ pics.chip_write c port v s h

  module _ (offset1 offset2 m1 m2 : ℕ) (s : io.Machine) where
    chip1_map :
        chip pic1_command (pic_map io offset1 offset2 m1 m2 s) ≡ started offset1 0b00000100 m1
    unfolding pic_map
    chip1_map =
        simp
          (
            λ (port v : ℕ) (s' : io.Machine). pics.chip_write pic1_command port v s' (inl refl),
            λ (port v : ℕ) (s' : io.Machine). chip-out_and_wait pic1_command port v s' (inl refl),
          )
          refl

    chip2_map :
        chip pic2_command (pic_map io offset1 offset2 m1 m2 s) ≡ started offset2 0b00000010 m2
    unfolding pic_map
    chip2_map =
        simp
          (
            λ (port v : ℕ) (s' : io.Machine). pics.chip_write pic2_command port v s' (inr refl),
            λ (port v : ℕ) (s' : io.Machine). chip-out_and_wait pic2_command port v s' (inr refl),
          )
          refl

low_bits : (i : ℕ) → i < 8 → bit 0b11111001 i ≡ (if i == 1 || i == 2 then 0 else 1)
low_bits zero h = refl
low_bits (suc zero) h = refl
low_bits (suc (suc zero)) h = refl
low_bits (suc (suc (suc zero))) h = refl
low_bits (suc (suc (suc (suc zero)))) h = refl
low_bits (suc (suc (suc (suc (suc zero))))) h = refl
low_bits (suc (suc (suc (suc (suc (suc zero)))))) h = refl
low_bits (suc (suc (suc (suc (suc (suc (suc zero))))))) h = refl
low_bits (suc (suc (suc (suc (suc (suc (suc (suc i)))))))) h = absurd (omega arith)

high_bits : (i : ℕ) → i < 8 → bit (u8 (2 ^ 32 - 1)) i ≡ 1
high_bits zero h = refl
high_bits (suc zero) h = refl
high_bits (suc (suc zero)) h = refl
high_bits (suc (suc (suc zero))) h = refl
high_bits (suc (suc (suc (suc zero)))) h = refl
high_bits (suc (suc (suc (suc (suc zero))))) h = refl
high_bits (suc (suc (suc (suc (suc (suc zero)))))) h = refl
high_bits (suc (suc (suc (suc (suc (suc (suc zero))))))) h = refl
high_bits (suc (suc (suc (suc (suc (suc (suc (suc i)))))))) h = absurd (omega arith)

module _ (io : PortIo) (pics : Controllers io) where
  open pics use {chip}

  -- The controller of a line.
  abbrev pub controller : ℕ → io.Machine → Chip
  controller line s = chip (if ltb 7 line then pic2_command else pic1_command) s

  -- What `pic_init` makes of a line's controller.
  pub record IsStarted (line : ℕ) (s : io.Machine) : Type 0 where
    pub operates : (controller line s).phase ≡ operating
    pub vector : delivered (controller line s) (mask_bit line) ≡ some (32 + line)
    pub masked :
        bit (controller line s).mask (mask_bit line) ≡ (if line == 1 || line == 2 then 0 else 1)
    pub wired : (controller line s).cascade ≡ (if ltb 7 line then 2 else 2 ^ 2)

  IsStarted-of_chip :
      (line : ℕ) (s : io.Machine)
      → line < 16
      → chip pic1_command s ≡ started pic_offset1 0b00000100 0b11111001
      → chip pic2_command s ≡ started pic_offset2 0b00000010 (u8 (2 ^ 32 - 1))
      → IsStarted line s
  IsStarted-of_chip line s h e e' = elim (Bool-cases (ltb 7 line)) [
    | inl second ↦
        let at : controller line s ≡ started pic_offset2 0b00000010 (u8 (2 ^ 32 - 1)) =
          ap (λ b. chip (if b then pic2_command else pic1_command) s) second ∙ e' in
        record {
          operates = ap (λ c. c.phase) at;
          vector = ap (λ c. delivered c (mask_bit line)) at ∙ ap some (ground arith);
          masked =
              ap (λ c. bit c.mask (mask_bit line)) at
              ∙ high_bits (mask_bit line) (ground arith)
              ∙ ground arith;
          wired = ap (λ c. c.cascade) at ∙ ground arith;
        }
    | inr first ↦
        let at : controller line s ≡ started pic_offset1 0b00000100 0b11111001 =
          ap (λ b. chip (if b then pic2_command else pic1_command) s) first ∙ e in
        let index : mask_bit line ≡ line = ground arith in
        record {
          operates = ap (λ c. c.phase) at;
          vector = ap (λ c. delivered c (mask_bit line)) at ∙ ap some (ground arith);
          masked =
              ap (λ c. bit c.mask (mask_bit line)) at
              ∙ low_bits (mask_bit line) (ground arith)
              ∙ ap (λ i. if i == 1 || i == 2 then 0 else 1) index;
          wired = ap (λ c. c.cascade) at ∙ ground arith;
        }
  ]

  -- Whatever state the controllers are in, `pic_init` leaves both of them operating, wired to each
  -- other through line 2, in the mode of the 8086. Line `line` of the 16 then delivers the vector
  -- `32 + line`, and all
  -- lines but 1, the keyboard, and 2 are masked.
  pub pic_init-IsStarted : (line : ℕ) (s : io.Machine) → line < 16 → IsStarted line (pic_init io s)
  unfolding pic_init
  pic_init-IsStarted line s h =
      IsStarted-of_chip line (pic_init io s) h
        (chip1_map io pics pic_offset1 pic_offset2 0b11111001 (u8 (2 ^ 32 - 1)) s)
        (chip2_map io pics pic_offset1 pic_offset2 0b11111001 (u8 (2 ^ 32 - 1)) s)
