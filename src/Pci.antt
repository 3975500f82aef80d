-- ===== src/Pci.antt =====
-- The PCI configuration space of kernel/arch/i386/pci.c, with the register offsets and the record
-- of kernel/include/kernel/arch/i386/pci.h.
pub mod Address
pub mod Device
pub mod Tests
use simple_kernel.Base.{
  ℕ, ◌+◌, ◌*◌, ◌/◌, ◌%◌, ◌^◌, bit_and, bit_or, Option, none, some, ◌==◌, if◌then◌else◌, u8, u16,
  ◌<<<◌, ◌>>>◌, complement32,
}
use simple_kernel.Ports.{PortIo}

abbrev pub pci_config_address : ℕ
pci_config_address = 0xCF8

abbrev pub pci_config_data : ℕ
pci_config_data = 0xCFC

abbrev pub pci_device_and_vendor : ℕ
pci_device_and_vendor = 0x00

abbrev pub pci_status_and_command : ℕ
pci_status_and_command = 0x00

abbrev pub pci_class_sub_prog_revision : ℕ
pci_class_sub_prog_revision = 0x08

abbrev pub pci_bist_head_lat_cache : ℕ
pci_bist_head_lat_cache = 0x0C

pub record PciDeviceBase : Type 0 where
  pub device_id : ℕ
  pub vendor_id : ℕ
  pub status : ℕ
  pub command : ℕ
  pub class : ℕ
  pub subclass : ℕ
  pub prog_if : ℕ
  pub revision_id : ℕ
  pub bist : ℕ
  pub header_type : ℕ
  pub latency_timer : ℕ
  pub cache_line_size : ℕ

-- What `pci_read_config` writes to the address port.
unfoldable pub config_address : ℕ → ℕ → ℕ → ℕ → ℕ
config_address bus slot func reg = bit_or 0x80000000 (
    bit_or (bit_or (bit_or (bus <<< 16) (slot <<< 11)) (func <<< 8))
      (bit_and reg (complement32 0x3)))

-- The assignments to `*data`, from the four words that were read.
unfoldable pub fill_device_base : ℕ → ℕ → ℕ → ℕ → PciDeviceBase
fill_device_base device_and_vendor status_and_command class_and_subclass bist_and_head_etc =
    record {
      device_id = u16 (device_and_vendor >>> 16);
      vendor_id = u16 device_and_vendor;
      status = u16 (status_and_command >>> 16);
      command = u16 status_and_command;
      class = u8 (class_and_subclass >>> 24);
      subclass = u8 (class_and_subclass >>> 16);
      prog_if = u8 (class_and_subclass >>> 8);
      revision_id = u8 class_and_subclass;
      bist = u8 (bist_and_head_etc >>> 24);
      header_type = u8 (bist_and_head_etc >>> 16);
      latency_timer = u8 (bist_and_head_etc >>> 8);
      cache_line_size = u8 bist_and_head_etc;
    }

module _ (io : PortIo) where
  open io use {Machine, outl, inl}

  unfoldable pub pci_read_config : ℕ → ℕ → ℕ → ℕ → Machine → ℕ × Machine
  pci_read_config bus slot func reg s =
      inl pci_config_data (outl pci_config_address (config_address bus slot func reg) s)

  -- `none` is the return value `false`, with `data` not written.
  unfoldable pub pci_read_device_base : ℕ → ℕ → ℕ → Machine → Option PciDeviceBase × Machine
  pci_read_device_base bus slot func s₀ =
      let (device_and_vendor, s₁) = pci_read_config bus slot func pci_device_and_vendor s₀ in
      if device_and_vendor == 0xFFFFFFFF
      then (none, s₁)
      else (let (status_and_command, s₂) =
            pci_read_config bus slot func pci_status_and_command s₁ in
          let (class_and_subclass, s₃) =
            pci_read_config bus slot func pci_class_sub_prog_revision s₂ in
          let (bist_and_head_etc, s₄) = pci_read_config bus slot func pci_bist_head_lat_cache s₃ in
          (
            some (
                fill_device_base device_and_vendor status_and_command class_and_subclass
                  bist_and_head_etc),
            s₄,
          ))
