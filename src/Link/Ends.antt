-- ===== src/Link/Ends.antt =====
-- The queries of a port end: with a PCI Express capability they return, and without it they use a
-- NULL pointer (adna.c: pci_check_link_cap, pci_dl_active, pci_is_downstream).
use adnacom_hotplug.Common.{◌≡◌, refl, none, Outcome, ok, fault, Option-cases, inl, inr}
use adnacom_hotplug.Pci.{PciDev, pci_cap_normal, pci_cap_id_exp}
use adnacom_hotplug.Platform.{Platform}
use adnacom_hotplug.Link.{pci_check_link_cap, pci_dl_active, pci_is_downstream}
use adnacom_hotplug.Link.Laws.{
  pci_check_link_cap-Classifies, pci_dl_active_iff, pci_is_downstream_iff,
}
use adnacom_hotplug.Machine.Invariants.{Halts, Any}

pub ok-Halts : {A : Type 0} (r : Outcome A) {a : A} → r ≡ ok a → Halts Any r
ok-Halts r e = rw e tt

fault-Halts : {A : Type 0} (r : Outcome A) → r ≡ fault → Halts Any r
fault-Halts r e = rw e tt

module _ {H : Type 0} (p : Platform H) (h : H) (d : PciDev) where
  module _ (e : p.find_cap h d pci_cap_id_exp pci_cap_normal ≡ none) where
    check_link_cap_null : pci_check_link_cap p h d ≡ fault
    unfolding pci_check_link_cap
    check_link_cap_null = rw e refl

    dl_active_null : pci_dl_active p h d ≡ fault
    unfolding pci_dl_active
    dl_active_null = rw e refl

    is_downstream_null : pci_is_downstream p h d ≡ fault
    unfolding pci_is_downstream
    is_downstream_null = rw e refl

  pub pci_check_link_cap-Halts : Halts Any (pci_check_link_cap p h d)
  pci_check_link_cap-Halts = elim (Option-cases (p.find_cap h d pci_cap_id_exp pci_cap_normal)) [
    | inl e ↦ fault-Halts _ (check_link_cap_null e)
    | inr (cap, e) ↦ ok-Halts _ (pci_check_link_cap-Classifies p h d cap e).1
  ]

  pub pci_dl_active-Halts : Halts Any (pci_dl_active p h d)
  pci_dl_active-Halts = elim (Option-cases (p.find_cap h d pci_cap_id_exp pci_cap_normal)) [
    | inl e ↦ fault-Halts _ (dl_active_null e)
    | inr (cap, e) ↦ ok-Halts _ (pci_dl_active_iff p h d cap e).1
  ]

  pub pci_is_downstream-Halts : Halts Any (pci_is_downstream p h d)
  pci_is_downstream-Halts = elim (Option-cases (p.find_cap h d pci_cap_id_exp pci_cap_normal)) [
    | inl e ↦ fault-Halts _ (is_downstream_null e)
    | inr (cap, e) ↦ ok-Halts _ (pci_is_downstream_iff p h d cap e).2
  ]
