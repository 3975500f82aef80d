-- ===== src/Pci/Address.antt =====
-- The word that selects a register in the configuration space.
use simple_kernel.Base.{
  ℕ, ◌+◌, ◌-◌, ◌*◌, ◌/◌, ◌%◌, ◌^◌, ◌<◌, ◌≡◌, arith, bit_and, ◌<<<◌, complement32,
}
use simple_kernel.Bits.{bit_or_fields, bit_and_high, bit_and_mask}
use simple_kernel.Pci.{config_address}

and_not_three : (a : ℕ) → a < 2 ^ 32 → bit_and a (complement32 3) ≡ a / 4 * 4
and_not_three a h =
    ground (arith, bit_and_high 2 (a / 4) (a % 4) (2 ^ 30 - 1), bit_and_mask 30 (a / 4))

module _ (bus slot func reg : ℕ) (hb : bus < 256) (hs : slot < 32) (hf : func < 8)
    (hr : reg < 256) where
  config_address-sum :
      config_address bus slot func reg
      ≡ 2 ^ 31 + bus * 2 ^ 16 + slot * 2 ^ 11 + func * 2 ^ 8 + reg / 4 * 4
  unfolding config_address
  config_address-sum = ground (
    arith,
    and_not_three reg,
    bit_or_fields 16 bus (slot <<< 11),
    bit_or_fields 11 (bus * 32 + slot) (func <<< 8),
    bit_or_fields 8 (bus * 256 + slot * 8 + func) (reg / 4 * 4),
    bit_or_fields 31 1 (bus * 2 ^ 16 + slot * 2 ^ 11 + func * 2 ^ 8 + reg / 4 * 4),
  )

  -- The fields of the address word stand at the places of the table in pci.c: for a bus
  -- and a register below 256, a device number below 32 and a function below 8 each can be read
  -- back, the register without its two low bits.
  pub config_address_fields :
      let a = config_address bus slot func reg in
      (a / 2 ^ 31 ≡ 1)
      × (a / 2 ^ 24 % 2 ^ 7 ≡ 0)
      × (a / 2 ^ 16 % 2 ^ 8 ≡ bus)
      × (a / 2 ^ 11 % 2 ^ 5 ≡ slot)
      × (a / 2 ^ 8 % 2 ^ 3 ≡ func)
      × (a % 2 ^ 8 ≡ reg / 4 * 4)
  config_address_fields = omega (arith, config_address-sum)
