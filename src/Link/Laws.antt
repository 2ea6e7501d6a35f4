-- ===== src/Link/Laws.antt =====
-- What the decoded registers mean, in terms of the bit fields of the PCI Express specification.
use adnacom_hotplug.Common.{
  ℕ, ◌+◌, ◌/◌, ◌%◌, ◌^◌, ◌≡◌, ◌≢◌, ◌↔◌, ◌⊎◌, refl, Bool, true, false, some, arith, ok, ℕ_discrete,
  List, ◌∷◌, drop, ◌==◌, ◌&&◌, ◌||◌, bit_and,
}
use adnacom_hotplug.Common.Bits.{
  bit_and-0xf, bit_and-0x3f0, bit_and-0x2000, bit_and-0xf0, bit_and-0xff,
}
use adnacom_hotplug.Pci.{
  PciDev, pci_cap_id_exp, pci_cap_normal, pci_exp_lnkcap, pci_exp_lnk_width, pci_exp_flags_type,
  pci_exp_lnksta, pci_exp_flags, pci_class_bridge_pci, pci_class_serial_usb,
  pci_exp_type_downstream,
}
use adnacom_hotplug.Platform.{Platform}
use adnacom_hotplug.Link.{
  LinkState, ideal, speed_degraded, width_degraded, speed_n_width_degraded, link_status,
  pci_check_link_cap, pci_dl_active, pci_is_upstream, pci_is_downstream, pcidev_is_adnacom,
  find_entry, AdnatoolPciDevice, adnatool_pci_devtbl, link_quality_max, plx_vendor_id,
  plx_h1a_device_id, plx_h18_device_id, ti_vendor_id, ti_device_id,
}

-- Bits 3:0 of a link register, and its bits 9:4.
abbrev pub speed_field : ℕ → ℕ
speed_field r = r % 16

abbrev pub width_field : ℕ → ℕ
width_field r = r / 16 % 64

-- Which of speed and width differ between the status and the capability register.
abbrev pub Classifies : ℕ → ℕ → LinkState → Type 0
Classifies cap sta ideal = (speed_field sta ≡ speed_field cap) × (width_field sta ≡ width_field cap)
Classifies cap sta speed_degraded =
    (speed_field sta ≢ speed_field cap) × (width_field sta ≡ width_field cap)
Classifies cap sta width_degraded =
    (speed_field sta ≡ speed_field cap) × (width_field sta ≢ width_field cap)
Classifies cap sta speed_n_width_degraded =
    (speed_field sta ≢ speed_field cap) × (width_field sta ≢ width_field cap)
Classifies cap sta link_quality_max = ⊥

link_status-Classifies :
    (cap sta : ℕ)
    → (s : LinkState) × (link_status
          (speed_field sta)
          (speed_field cap)
          (width_field sta)
          (width_field cap)
        ≡ ok s)
      × Classifies cap sta s
unfolding link_status
link_status-Classifies cap sta = elim (ℕ_discrete (speed_field sta) (speed_field cap)) [
  | yes s ↦ elim (ℕ_discrete (width_field sta) (width_field cap)) [
    | yes w ↦ (ideal, ground arith, (s, w))
    | no w ↦ (width_degraded, ground arith, (s, w))
  ]
  | no s ↦ elim (ℕ_discrete (width_field sta) (width_field cap)) [
    | yes w ↦ (speed_degraded, ground arith, (s, w))
    | no w ↦ (speed_n_width_degraded, ground arith, (s, w))
  ]
]

-- The two fields as the code extracts them.
masked_width : (r : ℕ) → bit_and r pci_exp_lnk_width / 2 ^ 4 ≡ width_field r
masked_width r = omega (arith, bit_and-0x3f0 r)

-- Bits 7:4 of the capability's flags.
masked_type : (r : ℕ) → bit_and (bit_and r pci_exp_flags_type / 2 ^ 4) 0xff ≡ r / 16 % 16
masked_type r = omega (arith, bit_and-0xf0 r, bit_and-0xff (bit_and r pci_exp_flags_type / 2 ^ 4))

module _ {H : Type 0} (p : Platform H) (h : H) (d : PciDev) where
  -- With a PCI Express capability at `cap`, `pci_check_link_cap` returns the link state that tells
  -- which of the link's speed and width differ from what the link is capable of: its status is
  -- never left unset.
  pub pci_check_link_cap-Classifies :
      (cap : ℕ)
      → p.find_cap h d pci_cap_id_exp pci_cap_normal ≡ some cap
      → (s : LinkState) × (pci_check_link_cap p h d ≡ ok s)
        × Classifies
            (p.read_long h d (cap + pci_exp_lnkcap))
            (p.read_word h d (cap + pci_exp_lnksta))
            s
  unfolding pci_check_link_cap
  pci_check_link_cap-Classifies cap e =
      rw e (simp (bit_and-0xf, masked_width) (link_status-Classifies _ _))

  -- With a PCI Express capability, the data link layer is reported active exactly when bit 13 of the
  -- link status register is set.
  pub pci_dl_active_iff :
      (cap : ℕ)
      → p.find_cap h d pci_cap_id_exp pci_cap_normal ≡ some cap
      → (b : Bool) × (pci_dl_active p h d ≡ ok b)
        × ((b ≡ true) ↔ (p.read_word h d (cap + pci_exp_lnksta) / 2 ^ 13 % 2 ≡ 1))
  unfolding pci_dl_active
  pci_dl_active_iff cap e =
      rw e (_, refl, ground (arith, bit_and-0x2000 (p.read_word h d (cap + pci_exp_lnksta))))

  -- With a PCI Express capability, a port is downstream exactly when bits 7:4 of the capability's
  -- flags hold 6, and no port is both upstream and downstream.
  pub pci_is_downstream_iff :
      (cap : ℕ)
      → p.find_cap h d pci_cap_id_exp pci_cap_normal ≡ some cap
      → (b u : Bool) × (pci_is_downstream p h d ≡ ok b)
        × (pci_is_upstream p h d ≡ ok u)
        × ((b ≡ true) ↔ (p.read_word h d (cap + pci_exp_flags) / 16 % 16 ≡ pci_exp_type_downstream))
        × ¬ ((b ≡ true) × (u ≡ true))
  unfolding pci_is_downstream pci_is_upstream
  pci_is_downstream_iff cap e =
      rw e (simp masked_type (_, _, refl, refl, ground arith, ground arith))

abbrev HasIds : PciDev → ℕ → ℕ → ℕ → Type 0
HasIds d vid did cls = (d.vendor_id ≡ vid) × (d.device_id ≡ did) × (d.device_class ≡ cls)

abbrev pub IsAdnacom : PciDev → Type 0
IsAdnacom d =
    HasIds d plx_vendor_id plx_h1a_device_id pci_class_bridge_pci
    ⊎ (HasIds d plx_vendor_id plx_h18_device_id pci_class_bridge_pci
        ⊎ HasIds d ti_vendor_id ti_device_id pci_class_serial_usb)

find_entry_step :
    (d : PciDev) (vid did cls : ℕ) (table : List AdnatoolPciDevice) (b : Bool)
    → vid ≢ 0
    → find_entry d table ≡ ok b
    → (c : Bool) × (find_entry d (record { vid = vid; did = did; cls_rev = cls } ∷ table) ≡ ok c)
      × ((c ≡ true) ↔ (HasIds d vid did cls ⊎ (b ≡ true)))
unfolding find_entry
find_entry_step d vid did cls table b nonzero r = (
  d.vendor_id == vid && (d.device_id == did && d.device_class == cls) || b,
  ground arith,
  ground arith,
)

abbrev sentinel : List AdnatoolPciDevice
sentinel = drop 3 adnatool_pci_devtbl

-- The test of a device returns, and holds exactly when the device is an H1A or H18 switch port of
-- class PCI bridge, or the Texas Instruments USB controller.
pub pcidev_is_adnacom_iff :
    (d : PciDev) → (b : Bool) × (pcidev_is_adnacom d ≡ ok b) × ((b ≡ true) ↔ IsAdnacom d)
unfolding pcidev_is_adnacom
pcidev_is_adnacom_iff d =
    let (b3, r3, i3) =
      find_entry_step d ti_vendor_id ti_device_id pci_class_serial_usb sentinel false (omega arith)
        refl in
    let (b2, r2, i2) =
      find_entry_step d plx_vendor_id plx_h18_device_id pci_class_bridge_pci
        (drop 2 adnatool_pci_devtbl) b3 (omega arith) r3 in
    let (b1, r1, i1) =
      find_entry_step d plx_vendor_id plx_h1a_device_id pci_class_bridge_pci
        (drop 1 adnatool_pci_devtbl) b2 (omega arith) r2 in
    (b1, r1, ground arith)
