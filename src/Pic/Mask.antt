-- ===== src/Pic/Mask.antt =====
-- Masking one interrupt line, on controllers whose data ports hold their mask registers.
use simple_kernel.Base.{ℕ, ◌<◌, ◌≡◌, arith, ◌==◌, if◌then◌else◌}
use simple_kernel.Pmm.Bitmap.{bit, set_bit, clear_bit, bit-set_bit, bit-clear_bit}
use simple_kernel.Ports.{PortIo}
use simple_kernel.Pic.{mask_port, mask_bit, pic_set_irq_mask, pic_clear_irq_mask}

-- The documented behaviour of the 8259A once it is initialised: a read of a data port gives the
-- mask register and changes no mask, and a write there replaces that register alone.
pub record MaskRegisters (io : PortIo) : Type 0 where
  pub mask : ℕ → io.Machine → ℕ
  pub mask_byte : (port : ℕ) (s : io.Machine) → mask port s < 256
  pub read_mask : (port : ℕ) (s : io.Machine) → (io.inb port s).0 ≡ mask port s
  pub mask_read : (port p : ℕ) (s : io.Machine) → mask p (io.inb port s).1 ≡ mask p s
  pub mask_write :
      (port p v : ℕ) (s : io.Machine)
      → v < 256
      → mask p (io.outb port v s) ≡ (if port == p then v else mask p s)

module _ (io : PortIo) (pics : MaskRegisters io) where
  open pics use {mask}

  -- Whether a line is masked: 1 or 0.
  abbrev pub masked : ℕ → io.Machine → ℕ
  masked line s = bit (mask (mask_port line) s) (mask_bit line)

  mask-set :
      (line p : ℕ) (s : io.Machine)
      → mask p (pic_set_irq_mask io line s)
        ≡ (if mask_port line == p then set_bit (mask p s) (mask_bit line) else mask p s)
  unfolding pic_set_irq_mask
  mask-set line p s = ground (
    arith,
    pics.mask_write (mask_port line) p (set_bit (mask (mask_port line) s) (mask_bit line))
        (io.inb (mask_port line) s).1,
    pics.read_mask (mask_port line) s,
    pics.mask_read (mask_port line) p s,
  )

  mask-clear :
      (line p : ℕ) (s : io.Machine)
      → mask p (pic_clear_irq_mask io line s)
        ≡ (if mask_port line == p then clear_bit (mask p s) (mask_bit line) else mask p s)
  unfolding pic_clear_irq_mask
  mask-clear line p s = ground (
    arith,
    pics.mask_write (mask_port line) p (clear_bit (mask (mask_port line) s) (mask_bit line))
        (io.inb (mask_port line) s).1,
    pics.read_mask (mask_port line) s,
    pics.mask_read (mask_port line) p s,
  )

  -- `pic_set_irq_mask` masks its line, one of 16, and leaves every other line as it was.
  pub masked-pic_set_irq_mask :
      (line other : ℕ) (s : io.Machine)
      → line < 16
      → other < 16
      → masked other (pic_set_irq_mask io line s) ≡ (if line == other then 1 else masked other s)
  masked-pic_set_irq_mask line other s h h' = ground (
    arith,
    mask-set line (mask_port other) s,
    pics.mask_byte (mask_port other) s,
    bit-set_bit (mask (mask_port other) s) (mask_bit line) (mask_bit other),
  )

  -- `pic_clear_irq_mask` unmasks its line, one of 16, and leaves every other line as it was.
  pub masked-pic_clear_irq_mask :
      (line other : ℕ) (s : io.Machine)
      → line < 16
      → other < 16
      → masked other (pic_clear_irq_mask io line s) ≡ (if line == other then 0 else masked other s)
  masked-pic_clear_irq_mask line other s h h' = ground (
    arith,
    mask-clear line (mask_port other) s,
    pics.mask_byte (mask_port other) s,
    bit-clear_bit (mask (mask_port other) s) (mask_bit line) (mask_bit other),
  )
