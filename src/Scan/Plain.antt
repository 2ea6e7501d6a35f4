-- ===== src/Scan/Plain.antt =====
-- Scanning and the first run have plain effects only.
use adnacom_hotplug.Common.{refl, ℕ, List, [], ◌∷◌, Bool, ◌+◌, if◌then◌else◌}
use adnacom_hotplug.Pci.{PciDev, PciFilter}
use adnacom_hotplug.Platform.{Platform}
use adnacom_hotplug.Config.{Device, BusRef}
use adnacom_hotplug.Topology.{Topology, Bridge, Bus}
use adnacom_hotplug.Machine.Rules.{
  Log, Triple, bind, keep_pure, keep_gets, keep_if, keep_null_or, keep_lift, keep_device_at,
  keep_put_device, keep_modify, keep_for_all, emit-Triple, IsPlain,
}
use adnacom_hotplug.Show.{Options}
use adnacom_hotplug.Show.Plain.{keep_show_verbose}
use adnacom_hotplug.Scan.{
  scan_device, push_device, scan_devices, sort_them, run_grow_tree, count_loop, count_downstream,
  parent_of, hub_of, save_device, save_to_adna_list, show_one, show, adna_pacc_cleanup,
  first_process, adna_pci_process,
}

module _ {H : Type 0} (p : Platform H) (o : Options) {E P : Log} (plain : IsPlain E P) where
  keep_scan_device : (dev : PciDev) → Triple E P (scan_device p o dev) P
  unfolding scan_device
  keep_scan_device dev = bind (keep_modify P _ λ s. refl) λ _. keep_if _ (keep_pure P _) (
      bind (keep_lift plain.early _) λ (ours : Bool). keep_if _ (keep_pure P _) (
        bind (keep_gets P _) λ read.
          keep_if _
            (bind (emit-Triple plain.early p _ (plain.on_print_err _))
              λ _. bind (keep_modify P _ λ s. refl) λ _. keep_pure P _)
            (keep_pure P _)))

  keep_scan_devices : Triple E P (scan_devices p o) P
  unfolding scan_devices push_device
  keep_scan_devices = bind (keep_gets P _) λ devices.
      keep_for_all plain.early _
        (λ dev.
          bind (keep_scan_device dev)
            λ found. keep_null_or found (keep_pure P tt) λ device. keep_modify P _ λ s. refl)
        devices

  keep_sort_them : Triple E P (sort_them p o) P
  unfolding sort_them
  keep_sort_them = bind (keep_gets P _) λ loaded.
      bind (keep_lift plain.early _) λ (index : List (ℕ × PciDev)). keep_modify P _ λ s. refl

  keep_run_grow_tree : Triple E P (run_grow_tree p o) P
  unfolding run_grow_tree
  keep_run_grow_tree =
      bind (keep_gets P _)
        λ grown. bind (keep_lift plain.early _) λ (t : Topology). keep_modify P _ λ s. refl

  keep_count_loop : (ds : List ℕ) (i : ℕ) → Triple E P (count_loop p o ds i) P
  unfolding count_loop
  keep_count_loop [] i = keep_pure P i
  keep_count_loop (d ∷ ds) i = bind (keep_device_at plain.early d) λ device.
      keep_if _ (keep_count_loop ds i) (
        bind (keep_gets P _) λ r. bind (keep_lift plain.early r) λ (downstream : Bool).
          bind (keep_put_device plain.early d _)
            λ _. keep_count_loop ds (if downstream then i + 1 else i))

  keep_count_downstream : Triple E P (count_downstream p o) P
  unfolding count_downstream
  keep_count_downstream = bind (keep_gets P _) λ ds. keep_count_loop ds 0

  keep_parent_of : (device : Device) → Triple E P (parent_of p o device) P
  unfolding parent_of
  keep_parent_of device = bind (keep_lift plain.early _) λ (bus : BusRef).
      bind (keep_gets P _) λ found. bind (keep_lift plain.early _) λ (br : Bridge).
        keep_null_or _ (keep_pure P _)
          λ d. bind (keep_device_at plain.early d) λ parent. keep_pure P _

  keep_hub_of : (device : Device) → Triple E P (hub_of p o device) P
  unfolding hub_of
  keep_hub_of device = bind (keep_lift plain.early _) λ (b : ℕ). bind (keep_gets P _) λ found.
      bind (keep_lift plain.early _) λ (br : Bridge).
        keep_null_or _ (keep_lift plain.early _) λ (bus : Bus).
          keep_null_or _ (keep_pure P _)
            λ d. bind (keep_device_at plain.early d) λ hub. keep_pure P _

  keep_save_device : (junk : PciFilter) (d : ℕ) → Triple E P (save_device p o junk d) P
  unfolding save_device
  keep_save_device junk d = bind (keep_device_at plain.early d) λ device.
      keep_if _ (keep_pure P tt) (
        bind (keep_parent_of device)
          λ parent. bind (keep_hub_of device) λ hub. keep_modify P _ λ s. refl)

  keep_save_to_adna_list : (junk : PciFilter) → Triple E P (save_to_adna_list p o junk) P
  unfolding save_to_adna_list
  keep_save_to_adna_list junk =
      bind (keep_gets P _) λ ds. keep_for_all plain.early _ (keep_save_device junk) ds

  keep_show_one : (d : ℕ) → Triple E P (show_one p o d) P
  unfolding show_one
  keep_show_one d = bind (keep_device_at plain.early d) λ device. keep_if _ (keep_pure P tt) (
      bind (keep_gets P _) λ r.
        bind (keep_lift plain.early r)
          λ (downstream : Bool). keep_if _ (keep_show_verbose p o plain d) (keep_pure P tt))

  keep_show : Triple E P (show p o) P
  unfolding show
  keep_show = bind (keep_gets P _) λ ds. keep_for_all plain.early _ keep_show_one ds

  pub keep_cleanup : Triple E P (adna_pacc_cleanup p o) P
  unfolding adna_pacc_cleanup
  keep_cleanup = emit-Triple plain.early p _ plain.on_cleanup

  keep_first_process : (junk : PciFilter) → Triple E P (first_process p o junk) P
  unfolding first_process
  keep_first_process junk = bind keep_count_downstream λ n. bind (keep_modify P _ λ s. refl) λ _.
      keep_if _ (bind (emit-Triple plain.early p _ (plain.on_print _)) λ _. keep_pure P _) (
        bind (keep_save_to_adna_list junk)
          λ _. bind keep_show λ _. bind keep_cleanup λ _. keep_pure P _)

  pub keep_adna_pci_process : (junk : PciFilter) → Triple E P (adna_pci_process p o junk) P
  unfolding adna_pci_process
  keep_adna_pci_process junk = bind keep_scan_devices λ _. bind keep_sort_them λ _.
      bind keep_run_grow_tree λ _.
        bind (keep_gets P _)
          λ (initialized : Bool). keep_if initialized (keep_pure P 0) (keep_first_process junk)
