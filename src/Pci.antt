-- ===== src/Pci.antt =====
-- What the tool shares with libpci: the identity of a device and of a filter (lib/pci.h), and the
-- register layout that it reads (lib/header.h). The library's calls are parameters: `Platform`.
use adnacom_hotplug.Common.{ℕ}
use adnacom_hotplug.Common.Int.{ℤ}

-- The part of `struct pci_dev` that the tool reads. The library fills it in; its domain, an `int`,
-- is never negative for a device.
pub record PciDev : Type 0 where
  pub domain : ℕ
  pub bus : ℕ  -- u8
  pub dev : ℕ  -- u8
  pub func : ℕ  -- u8
  pub vendor_id : ℕ  -- u16
  pub device_id : ℕ  -- u16
  pub device_class : ℕ  -- u16

-- `struct pci_filter`: -1 stands for any.
pub record PciFilter : Type 0 where
  pub domain : ℤ
  pub bus : ℤ
  pub slot : ℤ
  pub func : ℤ
  pub vendor : ℤ
  pub device : ℤ
  pub device_class : ℤ

-- lib/header.h: the standard header
abbrev pub pci_command : ℕ
pci_command = 0x04

abbrev pub pci_status : ℕ
pci_status = 0x06

abbrev pub pci_status_cap_list : ℕ
pci_status_cap_list = 0x10

abbrev pub pci_header_type : ℕ
pci_header_type = 0x0e

abbrev pub pci_header_type_normal : ℕ
pci_header_type_normal = 0

abbrev pub pci_header_type_bridge : ℕ
pci_header_type_bridge = 1

abbrev pub pci_header_type_cardbus : ℕ
pci_header_type_cardbus = 2

-- Bus numbers of a bridge; a CardBus bridge has them at the same places.
abbrev pub pci_primary_bus : ℕ
pci_primary_bus = 0x18

abbrev pub pci_secondary_bus : ℕ
pci_secondary_bus = 0x19

abbrev pub pci_subordinate_bus : ℕ
pci_subordinate_bus = 0x1a

abbrev pub pci_subsystem_vendor_id : ℕ
pci_subsystem_vendor_id = 0x2c

abbrev pub pci_subsystem_id : ℕ
pci_subsystem_id = 0x2e

abbrev pub pci_cb_subsystem_vendor_id : ℕ
pci_cb_subsystem_vendor_id = 0x40

abbrev pub pci_cb_subsystem_id : ℕ
pci_cb_subsystem_id = 0x42

-- Classes
abbrev pub pci_base_class_bridge : ℕ
pci_base_class_bridge = 0x06

abbrev pub pci_class_bridge_pci : ℕ
pci_class_bridge_pci = 0x0604

abbrev pub pci_class_serial_usb : ℕ
pci_class_serial_usb = 0x0c03

-- The PCI Express capability
abbrev pub pci_cap_normal : ℕ
pci_cap_normal = 1

abbrev pub pci_cap_id_exp : ℕ
pci_cap_id_exp = 0x10

abbrev pub pci_exp_flags : ℕ
pci_exp_flags = 0x2

abbrev pub pci_exp_flags_type : ℕ
pci_exp_flags_type = 0x00f0

abbrev pub pci_exp_type_upstream : ℕ
pci_exp_type_upstream = 0x5

abbrev pub pci_exp_type_downstream : ℕ
pci_exp_type_downstream = 0x6

abbrev pub pci_exp_lnkcap : ℕ
pci_exp_lnkcap = 0xc

abbrev pub pci_exp_lnksta : ℕ
pci_exp_lnksta = 0x12

-- The speed and the width of a link, at the same places in its capability and its status register.
abbrev pub pci_exp_lnk_speed : ℕ
pci_exp_lnk_speed = 0x0f

abbrev pub pci_exp_lnk_width : ℕ
pci_exp_lnk_width = 0x3f0

abbrev pub pci_exp_lnksta_dl_act : ℕ
pci_exp_lnksta_dl_act = 0x2000
