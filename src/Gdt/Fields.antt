-- ===== src/Gdt/Fields.antt =====
-- The fields of a descriptor as the processor puts them together.
use simple_kernel.Base.{ℕ, ◌+◌, ◌*◌, ◌/◌, ◌%◌, ◌^◌, ◌<◌, ◌≡◌, refl, arith, ◌>>>◌}
use simple_kernel.Bits.{bit_or_fields, bit_and_high, bit_and_mask}
use simple_kernel.Gdt.{GdtEntry, config_gdt_entry}

abbrev pub base_of : GdtEntry → ℕ
base_of e = e.base_low + e.base_middle * 2 ^ 16 + e.base_high * 2 ^ 24

-- The limit has 20 bits; the four upper ones share a byte with the flags.
abbrev pub limit_of : GdtEntry → ℕ
limit_of e = e.limit_low + e.flags % 2 ^ 4 * 2 ^ 16

module _ (base limit access flags : ℕ) (hb : base < 2 ^ 32) (hf : flags < 256) where
  flags_byte :
      (config_gdt_entry base limit access flags).flags ≡ flags / 16 * 16 + limit / 2 ^ 16 % 16
  unfolding config_gdt_entry
  flags_byte = ground (
    arith,
    bit_and_high 4 (flags / 16) (flags % 16) 15,
    bit_and_mask 4 (flags / 16),
    bit_and_mask 4 (limit >>> 16),
    bit_or_fields 4 (flags / 16) (limit / 2 ^ 16 % 16),
  )

  -- For a base of 32 bits and a byte of flags, a descriptor gives back the base, the low 20 bits of
  -- the limit, the access byte and the upper four flags that it was made from.
  pub config_gdt_entry_fields :
      let e = config_gdt_entry base limit access flags in
      (base_of e ≡ base)
      × (limit_of e ≡ limit % 2 ^ 20)
      × (e.access ≡ access)
      × (e.flags / 16 ≡ flags / 16)
  unfolding config_gdt_entry
  config_gdt_entry_fields =
      (omega arith, omega (arith, flags_byte), refl, omega (arith, flags_byte))
