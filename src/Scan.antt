-- ===== src/Scan.antt =====
-- The scan of the bus (adna.c: scan_device, scan_devices, compare_them, sort_them,
-- count_downstream, save_to_adna_list, adna_pacc_init, adna_pacc_cleanup, show, adna_pci_process).
pub mod Order
pub mod Plain
pub mod Fresh
pub mod Ends
pub mod Numbers
pub mod Listed
pub mod Devnums
use adnacom_hotplug.Common.{
  ℕ, zero, suc, ◌+◌, Bool, true, false, ◌&&◌, ◌||◌, not, Option, none, some, List, [], ◌∷◌, ◌++◌,
  map, ltb, leb, ◌==◌, if◌then◌else◌, get_elem?, set, replicate, length, Outcome, ok, exited, fault,
  deref,
}
use adnacom_hotplug.Common.Int.{pos}
use adnacom_hotplug.Common.Text.{Text, codes, hex_width, dec}
use adnacom_hotplug.Pci.{PciDev, PciFilter}
use adnacom_hotplug.Platform.{Platform, Effect, print, print_err, cleanup}
use adnacom_hotplug.Config.{Device}
use adnacom_hotplug.Link.{pcidev_is_adnacom, pci_is_downstream}
use adnacom_hotplug.Topology.{Topology, Bridge, Bus, grow_tree}
use adnacom_hotplug.Machine.{
  AdnaDevice, Sys, any_device, M, ◌>>=◌, ◌>>◌, when◌then◌else◌, null_or, pure, lift, gets, skip,
  modify, for_all, device_at, put_device, emit,
}
use adnacom_hotplug.Ports.{snprintf}
use adnacom_hotplug.Show.{Options, show_verbose}

-- "%04x:%02x:%02x.%d" of a device, and "%04x:%04x:%04x" of its identity. The buffers hold 17 bytes.
unfoldable pub bdf_text : PciDev → Text
unfolding hex_width codes dec
bdf_text d =
    hex_width 4 d.domain
    ++ (codes ":"
        ++ (hex_width 2 d.bus ++ (codes ":" ++ (hex_width 2 d.dev ++ (codes "." ++ dec d.func)))))

unfoldable pub bdf_str : PciDev → Text
unfolding bdf_text
bdf_str d = snprintf 17 (bdf_text d)

unfoldable pub mfg_str : PciDev → Text
unfolding hex_width codes
mfg_str d = snprintf 17 (
    hex_width 4 d.vendor_id
    ++ (codes ":" ++ (hex_width 4 d.device_id ++ (codes ":" ++ hex_width 4 d.device_class))))

-- `compare_them`: -1, 0 or 1 is `lt`, `eq` or `gt`.
pub data Sign : Type 0 where
  lt eq gt : Sign

unfoldable pub compare_them : PciDev → PciDev → Sign
compare_them a b =
    if ltb a.domain b.domain
    then lt
    else if ltb b.domain a.domain
    then gt
    else if ltb a.bus b.bus
    then lt
    else if ltb b.bus a.bus
    then gt
    else if ltb a.dev b.dev
    then lt
    else if ltb b.dev a.dev
    then gt
    else if ltb a.func b.func
    then lt
    else if ltb b.func a.func
    then gt
    else eq

abbrev pub is_gt : Sign → Bool
is_gt lt = false
is_gt eq = false
is_gt gt = true

-- `qsort` of the C library sorts by a comparison, in an order of equal elements that it does not
-- promise; here it is an insertion sort: an element goes in front of the first one that it does not
-- compare greater than.
unfoldable pub insert_sorted {ℓ} : {A : Type ℓ} → (A → A → Sign) → A → List A → List A
insert_sorted cmp x [] = x ∷ []
insert_sorted cmp x (y ∷ ys) = if is_gt (cmp x y) then y ∷ insert_sorted cmp x ys else x ∷ y ∷ ys

unfoldable pub qsort {ℓ} : {A : Type ℓ} → (A → A → Sign) → List A → List A
unfolding insert_sorted
qsort cmp [] = []
qsort cmp (x ∷ xs) = insert_sorted cmp x (qsort cmp xs)

-- The last loop of `sort_them`: each pointer of the sorted index is hung behind the list so far.
unfoldable pub relink : List ℕ → List (ℕ × PciDev) → List ℕ
relink linked [] = linked
relink linked (h ∷ index) = relink (linked ++ h.0 ∷ []) index

-- The devices that a list of pointers points to.
abbrev pub cons_loaded : ℕ × PciDev → Outcome (List (ℕ × PciDev)) → Outcome (List (ℕ × PciDev))
cons_loaded a (ok r) = ok (a ∷ r)
cons_loaded a other = other

unfoldable pub load_all : List Device → List ℕ → Outcome (List (ℕ × PciDev))
load_all devices [] = ok []
load_all devices (d ∷ ds) = elim (get_elem? devices d) [
  | none ↦ fault
  | some device ↦ cons_loaded (d, device.dev) (load_all devices ds)
]

abbrev pub compare_loaded : ℕ × PciDev → ℕ × PciDev → Sign
compare_loaded a b = compare_them a.1 b.1

abbrev pub pointer : ℕ × PciDev → ℕ
pointer a = a.0

module _ {H : Type 0} (p : Platform H) (o : Options) where
  -- A fresh `struct device` with its first 256 bytes, if they can be read.
  unfoldable pub new_device : PciDev → List ℕ → Device
  new_device dev bytes = record {
    dev = dev;
    parent_bus = none;
    bridge = none;
    config_cached = 256;
    config_bufsize = 256;
    config = map some bytes;
    present = replicate 256 1;
    num_device = 0;
  }

  abbrev pub note_domain : PciDev → M H (Unit {0})
  note_domain dev = modify λ s. record s {
    opt_domains = if not (dev.domain == 0) && s.opt_domains == 0 then 1 else s.opt_domains;
  }

  abbrev unreadable : PciDev → Text
  unreadable dev =
      codes "adna: Unable to read the standard configuration space header of device "
      ++ (bdf_text dev ++ codes "\n")

  -- `need_topology` is 0 throughout. NULL is `none`.
  unfoldable pub scan_device : PciDev → M H (Option Device)
  unfolding new_device
  scan_device dev = note_domain dev >>= λ _.
      when not (p.filter_match any_device dev)
      then pure none
      else lift (pcidev_is_adnacom dev) >>= λ ours.
          when not ours
          then pure none
          else gets (λ s. p.read_block s.hw dev 0 256) >>= λ read.
              when not (read.0)
              then emit p (print_err (unreadable dev)) >>= (λ _.
                modify (λ s. record s { seen_errors = s.seen_errors + 1 }) >>= λ _. pure none)
              else pure (some (new_device dev (read.1)))

  -- The device is allocated, and put in front of the list.
  unfoldable pub push_device : Device → M H (Unit {0})
  push_device device = modify λ s. record s {
    topology = record (s.topology) { devices = s.topology.devices ++ device ∷ [] };
    first_dev = length s.topology.devices ∷ s.first_dev;
  }

  unfoldable pub scan_devices : M H (Unit {0})
  unfolding scan_device push_device
  scan_devices = gets (λ s. p.scan_bus s.hw) >>= λ devices.
      for_all devices λ dev. scan_device dev >>= λ found. null_or found skip push_device

  unfoldable pub sort_them : M H (Unit {0})
  unfolding load_all qsort relink
  sort_them = gets (λ s. load_all (s.topology.devices) (s.first_dev)) >>= λ loaded.
      lift loaded >>= λ index.
      modify λ s. record s { first_dev = relink [] (qsort compare_loaded index) }

  unfoldable pub run_grow_tree : M H (Unit {0})
  run_grow_tree = gets (λ s. grow_tree (s.first_dev) (s.topology)) >>= λ grown.
      lift grown >>= λ t. modify λ s. record s { topology = t }

  -- The loop of `count_downstream`, with the count so far.
  unfoldable pub count_loop : List ℕ → ℕ → M H ℕ
  count_loop [] i = pure i
  count_loop (d ∷ ds) i = device_at d >>= λ device.
      when not (p.filter_match any_device (device.dev))
      then count_loop ds i
      else gets (λ s. pci_is_downstream p (s.hw) (device.dev)) >>= λ r. lift r >>= λ downstream.
          let n = if downstream then i + 1 else 0 in
          put_device d (record device { num_device = n }) >>= λ _.
          count_loop ds (if downstream then i + 1 else i)

  unfoldable pub count_downstream : M H ℕ
  unfolding count_loop
  count_downstream = gets (λ s. s.first_dev) >>= λ ds. count_loop ds 0

  -- A filter that the texts of a device are parsed into; the results of the calls are not looked at.
  unfoldable pub parse_device : PciFilter → PciDev → PciFilter
  unfolding bdf_str mfg_str
  parse_device f d = (p.filter_parse_id (p.filter_parse_slot f (bdf_str d)).0 (mfg_str d)).0

  -- A filter that `memset` cleared.
  abbrev pub zero_filter : PciFilter
  zero_filter = record {
    domain = pos 0;
    bus = pos 0;
    slot = pos 0;
    func = pos 0;
    vendor = pos 0;
    device = pos 0;
    device_class = pos 0;
  }

  -- `d->parent_bus->parent_bridge->br_dev`, and `d->bridge->first_bus->first_dev`.
  unfoldable pub parent_of : Device → M H (Option PciDev)
  parent_of device = lift (deref (device.parent_bus)) >>= λ bus.
      gets (λ s. get_elem? (s.topology.bridges) (bus.parent_bridge)) >>= λ found.
      lift (deref found) >>= λ br.
      null_or (br.br_dev) (pure none) (λ d. device_at d >>= λ parent. pure (some (parent.dev)))

  unfoldable pub hub_of : Device → M H (Option PciDev)
  hub_of device = lift (deref (device.bridge)) >>= λ b.
      gets (λ s. get_elem? (s.topology.bridges) b) >>= λ found. lift (deref found) >>= λ br.
      null_or (get_elem? (br.buses) 0) (lift fault) λ bus.
        null_or (get_elem? (bus.devices) 0) (pure none)
          λ d. device_at d >>= λ hub. pure (some (hub.dev))

  -- The filters of the parent and of the hub are parsed into uninitialised memory, `junk`.
  abbrev pub parsed : PciFilter → Option PciDev → Option PciFilter
  parsed junk none = none
  parsed junk (some d) = some (parse_device junk d)

  unfoldable pub save_device : PciFilter → ℕ → M H (Unit {0})
  unfolding parse_device parent_of hub_of
  save_device junk d = device_at d >>= λ device.
      when device.num_device == 0
      then skip
      else parent_of device >>= λ parent. hub_of device >>= λ hub. modify λ s. record s {
        first_adna =
            record {
              this = parse_device zero_filter (device.dev);
              parent = parsed junk parent;
              hub = parsed junk hub;
              is_d3 = false;
              devnum = device.num_device;
              link_down_cnt = 0;
              hub_down_cnt = 0;
              link_bad_cnt = 0;
            }
            ∷ s.first_adna;
      }

  unfoldable pub save_to_adna_list : PciFilter → M H (Unit {0})
  unfolding save_device
  save_to_adna_list junk = gets (λ s. s.first_dev) >>= λ ds. for_all ds (save_device junk)

  -- `show`
  unfoldable pub show_one : ℕ → M H (Unit {0})
  show_one d = device_at d >>= λ device.
      when not (p.filter_match any_device (device.dev))
      then skip
      else gets (λ s. pci_is_downstream p (s.hw) (device.dev)) >>= λ r.
          lift r >>= λ downstream. when downstream then show_verbose p o d else skip

  unfoldable pub show : M H (Unit {0})
  unfolding show_one
  show = gets (λ s. s.first_dev) >>= λ ds. for_all ds show_one

  unfoldable pub adna_pacc_cleanup : M H (Unit {0})
  adna_pacc_cleanup = emit p cleanup

  abbrev pub enodev : ℕ
  enodev = 19

  -- The branch of `adna_pci_process` for the first call.
  unfoldable pub first_process : PciFilter → M H ℕ
  unfolding count_downstream save_to_adna_list show adna_pacc_cleanup
  first_process junk = count_downstream >>= λ n. modify (λ s. record s { num_devices = n }) >>= λ _.
      when n == 0
      then emit p (print (codes "No Adnacom device detected.\n")) >>= (λ _. pure enodev)
      else save_to_adna_list junk >>= λ _. show >>= λ _. adna_pacc_cleanup >>= λ _. pure 0

  -- `adna_pacc_init` resets `filter`, which here is `any_device` throughout.
  unfoldable pub adna_pci_process : PciFilter → M H ℕ
  unfolding scan_devices sort_them run_grow_tree first_process
  adna_pci_process junk = scan_devices >>= λ _. sort_them >>= λ _. run_grow_tree >>= λ _.
      gets (λ s. s.is_initialized) >>= λ initialized.
      when initialized then pure 0 else first_process junk
