-- ===== src/Pci/Device.antt =====
-- `pci_read_device_base` on a configuration space whose registers do not change when read.
use mathlib.Core.Option.{some-injective}
use simple_kernel.Base.{
  ℕ, ◌+◌, ◌*◌, ◌^◌, ◌<◌, ◌≡◌, ◌≢◌, refl, sym, subst, inl, inr, ◌∙◌, Bool-cases, arith, none, some,
  ◌==◌,
}
use simple_kernel.Ports.{PortIo}
use simple_kernel.Pci.{
  PciDeviceBase, fill_device_base, config_address, pci_config_address, pci_config_data,
  pci_device_and_vendor, pci_status_and_command, pci_class_sub_prog_revision,
  pci_bist_head_lat_cache, pci_read_config, pci_read_device_base,
}

-- The documented configuration mechanism: after a write of an address the data port gives the
-- register selected. That the registers keep their values is what makes the reads comparable.
pub record ConfigSpace (io : PortIo) : Type 0 where
  pub register : ℕ → io.Machine → ℕ
  pub register_word : (a : ℕ) (s : io.Machine) → register a s < 2 ^ 32
  pub read :
      (a : ℕ) (s : io.Machine)
      → (io.inl pci_config_data (io.outl pci_config_address a s)).0 ≡ register a s
  pub stable :
      (a b : ℕ) (s : io.Machine)
      → register b (io.inl pci_config_data (io.outl pci_config_address a s)).1 ≡ register b s

-- The record spells the four words, two fields of 16 bits or four of 8 to each, the upper bits first.
pub record Spells (d : PciDeviceBase) (word₀ word₁ word₂ word₃ : ℕ) : Type 0 where
  pub id_bounds : (d.device_id < 2 ^ 16) × (d.vendor_id < 2 ^ 16)
  pub identity : d.device_id * 2 ^ 16 + d.vendor_id ≡ word₀
  pub state_bounds : (d.status < 2 ^ 16) × (d.command < 2 ^ 16)
  pub state : d.status * 2 ^ 16 + d.command ≡ word₁
  pub kind_bounds :
      (d.class < 2 ^ 8) × (d.subclass < 2 ^ 8) × (d.prog_if < 2 ^ 8) × (d.revision_id < 2 ^ 8)
  pub kind : d.class * 2 ^ 24 + d.subclass * 2 ^ 16 + d.prog_if * 2 ^ 8 + d.revision_id ≡ word₂
  pub layout_bounds :
      (d.bist < 2 ^ 8)
      × (d.header_type < 2 ^ 8)
      × (d.latency_timer < 2 ^ 8)
      × (d.cache_line_size < 2 ^ 8)
  pub layout :
      d.bist * 2 ^ 24 + d.header_type * 2 ^ 16 + d.latency_timer * 2 ^ 8 + d.cache_line_size ≡ word₃

fill_device_base-Spells :
    (w₀ w₁ w₂ w₃ : ℕ)
    → w₀ < 2 ^ 32
    → w₁ < 2 ^ 32
    → w₂ < 2 ^ 32
    → w₃ < 2 ^ 32
    → Spells (fill_device_base w₀ w₁ w₂ w₃) w₀ w₁ w₂ w₃
unfolding fill_device_base
fill_device_base-Spells w₀ w₁ w₂ w₃ h₀ h₁ h₂ h₃ = record {
  id_bounds = (omega arith, omega arith);
  identity = omega arith;
  state_bounds = (omega arith, omega arith);
  state = omega arith;
  kind_bounds = (omega arith, omega arith, omega arith, omega arith);
  kind = omega arith;
  layout_bounds = (omega arith, omega arith, omega arith, omega arith);
  layout = omega arith;
}

command_of_fill :
    (w₀ w₂ w₃ : ℕ)
    → let d = fill_device_base w₀ w₀ w₂ w₃ in (d.command ≡ d.vendor_id) × (d.status ≡ d.device_id)
unfolding fill_device_base
command_of_fill w₀ w₂ w₃ = (refl, refl)

module _ (io : PortIo) (space : ConfigSpace io) (bus slot func : ℕ) (s : io.Machine) where
  abbrev pub word : ℕ → ℕ
  word reg = space.register (config_address bus slot func reg) s

  -- A device whose first register reads as all ones is reported as missing.
  pub pci_read_device_base-missing :
      word pci_device_and_vendor ≡ 0xFFFFFFFF → (pci_read_device_base io bus slot func s).0 ≡ none
  unfolding pci_read_device_base pci_read_config
  pci_read_device_base-missing h =
      ground (arith, space.read (config_address bus slot func pci_device_and_vendor) s)

  select : ℕ → io.Machine → io.Machine
  select reg t =
      (io.inl pci_config_data (io.outl pci_config_address (config_address bus slot func reg) t)).1

  reads :
      word pci_device_and_vendor ≢ 0xFFFFFFFF
      → (pci_read_device_base io bus slot func s).0
        ≡ some (
            fill_device_base
              (word pci_device_and_vendor)
              (word pci_status_and_command)
              (word pci_class_sub_prog_revision)
              (word pci_bist_head_lat_cache))
  unfolding pci_read_device_base pci_read_config select
  reads h =
      let at = config_address bus slot func in
      let s₁ = select pci_device_and_vendor s in
      let s₂ = select pci_status_and_command s₁ in
      let s₃ = select pci_class_sub_prog_revision s₂ in
      ground (
        arith,
        space.read (at pci_device_and_vendor) s,
        space.read (at pci_status_and_command) s₁,
        space.read (at pci_class_sub_prog_revision) s₂,
        space.read (at pci_bist_head_lat_cache) s₃,
        space.stable (at pci_device_and_vendor) (at pci_status_and_command) s,
        space.stable (at pci_device_and_vendor) (at pci_class_sub_prog_revision) s,
        space.stable (at pci_device_and_vendor) (at pci_bist_head_lat_cache) s,
        space.stable (at pci_status_and_command) (at pci_class_sub_prog_revision) s₁,
        space.stable (at pci_status_and_command) (at pci_bist_head_lat_cache) s₁,
        space.stable (at pci_class_sub_prog_revision) (at pci_bist_head_lat_cache) s₂,
      )

  -- Of a device whose register at 0x00 is not all ones the record is filled in, each field with its
  -- own bits, from three registers: the device and the vendor from the one at 0x00, the status and
  -- the command from the same one and not from that at 0x04, and the others from those at 0x08 and
  -- 0x0C.
  pub pci_read_device_base-Spells :
      word 0x00 ≢ 0xFFFFFFFF
      → (d : PciDeviceBase) × ((pci_read_device_base io bus slot func s).0 ≡ some d)
        × Spells d (word 0x00) (word 0x00) (word 0x08) (word 0x0C)
  pci_read_device_base-Spells h = (
    fill_device_base (word pci_device_and_vendor) (word pci_status_and_command)
        (word pci_class_sub_prog_revision) (word pci_bist_head_lat_cache),
    reads h,
    fill_device_base-Spells _ _ _ _ (space.register_word _ s) (space.register_word _ s)
        (space.register_word _ s) (space.register_word _ s),
  )

  -- Since `PCI_STATUS_AND_COMMAND` has the value of `PCI_DEVICE_AND_VENDOR`, the record's command is
  -- its vendor and its status is its device, on every device.
  pub pci_read_device_base-command :
      (d : PciDeviceBase)
      → (pci_read_device_base io bus slot func s).0 ≡ some d
      → (d.command ≡ d.vendor_id) × (d.status ≡ d.device_id)
  pci_read_device_base-command d e = elim (Bool-cases (word pci_device_and_vendor == 0xFFFFFFFF)) [
    | inl missing ↦ cc (pci_read_device_base-missing (ground arith))
    | inr present ↦
        let same = some-injective _ _ (sym (reads (ground arith)) ∙ e) in
        subst (λ x. (x.command ≡ x.vendor_id) × (x.status ≡ x.device_id)) same
          (command_of_fill (word 0) (word 8) (word 12))
  ]
