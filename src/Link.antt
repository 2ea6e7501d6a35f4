-- ===== src/Link.antt =====
-- The PCI Express registers that the tool decodes (adna.c: link_compare, pci_check_link_cap,
-- pci_dl_active, pci_get_devtype, pci_is_upstream, pci_is_downstream) and the table of the devices
-- that it manages (pcidev_is_adnacom).
pub mod Ends
pub mod Laws
use adnacom_hotplug.Common.{
  ℕ, ◌+◌, ◌/◌, ◌^◌, Bool, true, false, ◌&&◌, not, Option, none, some, List, [], ◌∷◌, ltb, ◌==◌,
  if◌then◌else◌, bit_and, Outcome, ok, fault, deref, ◌>>=◌,
}
use adnacom_hotplug.Pci.{
  PciDev, pci_cap_id_exp, pci_cap_normal, pci_exp_lnkcap, pci_exp_lnksta, pci_exp_lnk_speed,
  pci_exp_lnk_width, pci_exp_lnksta_dl_act, pci_exp_flags, pci_exp_flags_type,
  pci_exp_type_upstream, pci_exp_type_downstream, pci_class_bridge_pci, pci_class_serial_usb,
}
use adnacom_hotplug.Platform.{Platform}

-- The texts that `link_compare` returns.
pub data Comparison : Type 0 where
  downgraded strange same : Comparison

-- `enum link_state`
pub data LinkState : Type 0 where
  ideal speed_degraded width_degraded speed_n_width_degraded link_quality_max : LinkState

unfoldable pub link_compare : ℕ → ℕ → Comparison
link_compare sta cap = if ltb sta cap then downgraded else if ltb cap sta then strange else same

-- `0 == strcmp("ok", …)`
abbrev pub is_same : Comparison → Bool
is_same downgraded = false
is_same strange = false
is_same same = true

-- The chain of tests of `pci_check_link_cap`. Its last `else` leaves `status` unset: a read of it
-- is a fault.
unfoldable pub link_status : ℕ → ℕ → ℕ → ℕ → Outcome LinkState
unfolding link_compare
link_status sta_speed cap_speed sta_width cap_width =
    let speed = is_same (link_compare sta_speed cap_speed) in
    let width = is_same (link_compare sta_width cap_width) in
    if speed && width
    then ok ideal
    else if not speed && width
    then ok speed_degraded
    else if speed && not width
    then ok width_degraded
    else if not speed && not width
    then ok speed_n_width_degraded
    else fault

module _ {H : Type 0} (p : Platform H) (h : H) where
  -- The capability is used without a test for NULL.
  unfoldable pub pci_check_link_cap : PciDev → Outcome LinkState
  unfolding link_status
  pci_check_link_cap pdev = do
    cap ← deref (p.find_cap h pdev pci_cap_id_exp pci_cap_normal)
    let linkcap = p.read_long h pdev (cap + pci_exp_lnkcap)
    let linksta = p.read_word h pdev (cap + pci_exp_lnksta)
    let cap_speed = bit_and linkcap pci_exp_lnk_speed
    let cap_width = bit_and linkcap pci_exp_lnk_width / 2 ^ 4
    let sta_speed = bit_and linksta pci_exp_lnk_speed
    let sta_width = bit_and linksta pci_exp_lnk_width / 2 ^ 4
    link_status sta_speed cap_speed sta_width cap_width

  unfoldable pub pci_dl_active : PciDev → Outcome Bool
  pci_dl_active pdev = do
    cap ← deref (p.find_cap h pdev pci_cap_id_exp pci_cap_normal)
    let linksta = p.read_word h pdev (cap + pci_exp_lnksta)
    ok (bit_and linksta pci_exp_lnksta_dl_act == pci_exp_lnksta_dl_act)

  unfoldable pub pci_get_devtype : PciDev → Outcome ℕ
  pci_get_devtype pdev = do
    cap ← deref (p.find_cap h pdev pci_cap_id_exp pci_cap_normal)
    let devtype = p.read_word h pdev (cap + pci_exp_flags)
    ok (bit_and (bit_and devtype pci_exp_flags_type / 2 ^ 4) 0xff)

  unfoldable pub pci_is_upstream : PciDev → Outcome Bool
  unfolding pci_get_devtype
  pci_is_upstream pdev = do t ← pci_get_devtype pdev; ok (t == pci_exp_type_upstream)

  unfoldable pub pci_is_downstream : PciDev → Outcome Bool
  unfolding pci_get_devtype
  pci_is_downstream pdev = do t ← pci_get_devtype pdev; ok (t == pci_exp_type_downstream)

-- `struct adnatool_pci_device`
pub record AdnatoolPciDevice : Type 0 where
  pub vid : ℕ
  pub did : ℕ
  pub cls_rev : ℕ

abbrev pub plx_vendor_id : ℕ
plx_vendor_id = 0x10b5

abbrev pub plx_h1a_device_id : ℕ
plx_h1a_device_id = 0x8608

abbrev pub plx_h18_device_id : ℕ
plx_h18_device_id = 0x8718

abbrev pub ti_vendor_id : ℕ
ti_vendor_id = 0x104c

abbrev pub ti_device_id : ℕ
ti_device_id = 0x8241

abbrev pub adnatool_pci_devtbl : List AdnatoolPciDevice
adnatool_pci_devtbl =
    record { vid = plx_vendor_id; did = plx_h1a_device_id; cls_rev = pci_class_bridge_pci }
    ∷ record { vid = plx_vendor_id; did = plx_h18_device_id; cls_rev = pci_class_bridge_pci }
    ∷ record { vid = ti_vendor_id; did = ti_device_id; cls_rev = pci_class_serial_usb }
    ∷ record { vid = 0; did = 0; cls_rev = 0 }
    ∷ []

-- The loop of `pcidev_is_adnacom`: it ends at an entry whose `vid` is 0. A table without one would
-- be read past its end, which is a fault.
unfoldable pub find_entry : PciDev → List AdnatoolPciDevice → Outcome Bool
find_entry p [] = fault
find_entry p (entry ∷ table) =
    let next = find_entry p table in
    if entry.vid == 0
    then ok false
    else if not (p.vendor_id == entry.vid)
    then next
    else if not (p.device_id == entry.did)
    then next
    else if not (p.device_class == entry.cls_rev)
    then next
    else ok true

unfoldable pub pcidev_is_adnacom : PciDev → Outcome Bool
unfolding find_entry
pcidev_is_adnacom p = find_entry p adnatool_pci_devtbl
