-- ===== src/Pci/Tests.antt =====
-- A configuration space of one device, whose registers are those of a table.
use simple_kernel.Base.{ℕ, ◌^◌, ◌<◌, ◌≡◌, refl, arith, some, ◌==◌, if◌then◌else◌}
use simple_kernel.Ports.{PortIo}
use simple_kernel.Pci.{
  PciDeviceBase, config_address, fill_device_base, pci_device_and_vendor, pci_status_and_command,
  pci_class_sub_prog_revision, pci_bist_head_lat_cache, pci_read_config, pci_read_device_base,
}
use simple_kernel.Pci.Device.{
  ConfigSpace, Spells, word, pci_read_device_base-Spells, pci_read_device_base-command,
}

-- The device in slot 1 of bus 0; no other answers.
abbrev table : ℕ → ℕ
table a =
    if a == 0x80000800
    then 0x12378086
    else if a == 0x80000808
    then 0x06000002
    else if a == 0x8000080C
    then 0x00800000
    else 0xFFFFFFFF

table_word : (a : ℕ) → table a < 2 ^ 32
table_word a = ground arith

-- The machine is the address written last.
abbrev ports : PortIo
ports = record {
  Machine = ℕ;
  outb = λ port v s. s;
  inb = λ port s. (0, s);
  outl = λ port v s. v;
  inl = λ port s. (table s, s);
}

abbrev space : ConfigSpace ports
space = record {
  register = λ a s. table a;
  register_word = λ a s. table_word a;
  read = λ a s. refl;
  stable = λ a b s. refl;
}

absent_word : word ports space 0 2 0 0 pci_device_and_vendor ≡ 0xFFFFFFFF
unfolding config_address
absent_word = refl

present_word : word ports space 0 1 0 0 pci_device_and_vendor ≡ 0x12378086
unfolding config_address
present_word = refl

pci_read_device_base-Spells_example :
    (d : PciDeviceBase) × ((pci_read_device_base ports 0 1 0 0).0 ≡ some d)
    × Spells d
        (word ports space 0 1 0 0 pci_device_and_vendor)
        (word ports space 0 1 0 0 pci_status_and_command)
        (word ports space 0 1 0 0 pci_class_sub_prog_revision)
        (word ports space 0 1 0 0 pci_bist_head_lat_cache)
pci_read_device_base-Spells_example =
    pci_read_device_base-Spells ports space 0 1 0 0 (omega (arith, present_word))

abbrev device : PciDeviceBase
device = fill_device_base 0x12378086 0x12378086 0x06000002 0x00800000

reads_device : (pci_read_device_base ports 0 1 0 0).0 ≡ some device
unfolding pci_read_device_base pci_read_config config_address
reads_device = refl

pci_read_device_base-command_example :
    (device.command ≡ device.vendor_id) × (device.status ≡ device.device_id)
pci_read_device_base-command_example =
    pci_read_device_base-command ports space 0 1 0 0 device reads_device
