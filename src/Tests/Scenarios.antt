-- ===== src/Tests/Scenarios.antt =====
-- Instances of the properties of the scan, the port registers and the monitor.
use adnacom_hotplug.Common.{
  ◌≡◌, ◌⊎◌, refl, ℕ, true, false, none, some, List, [], ◌∷◌, map, ltb, if◌then◌else◌, ok, exited,
  arith,
}
use mathlib.Core.List.{Perm}
use adnacom_hotplug.Common.Int.{pos}
use adnacom_hotplug.Common.Text.{Text, codes}
use adnacom_hotplug.Pci.{PciDev, PciFilter}
use adnacom_hotplug.Platform.{print, write_file, set_timer, sleep, store_reg}
use adnacom_hotplug.Config.{Device}
use adnacom_hotplug.Machine
use adnacom_hotplug.Config
use adnacom_hotplug.Topology
use adnacom_hotplug.Link
use adnacom_hotplug.Scan
use adnacom_hotplug.Machine.{AdnaDevice, Sys, start, any_device}
use adnacom_hotplug.Ports.{reg_write, pcimem, disable_port, enable_port, pci_get_res0, rescan_file}
use adnacom_hotplug.Ports.Registers.{IsUsable, HasRegisters, after, port_cycle, pcimem_ends}
use adnacom_hotplug.Show.{main_options}
use adnacom_hotplug.Scan.{
  compare_them, lt, eq, gt, new_device, load_all, compare_loaded, pointer, sort_them,
}
use adnacom_hotplug.Scan.Order.{address, Ascends, compare_them-address, sort_them-IsSorted}
use adnacom_hotplug.Monitor.{count_down, is_due, clear_counts, react, adna_timer_callback, main}
use adnacom_hotplug.Monitor.Decide.{
  looks, due-looks, IsWritable, PlainOver, was_reset, insertion, reset_when_due,
}
use adnacom_hotplug.Monitor.Timer.{is_armed, IsOrderly, main-IsOrderly, tick_rearms}
use adnacom_hotplug.Tests.World.{World, world, upstream, port, usb_hub}

abbrev unplugged : World
unplugged = record { link = false; hub = false; control = 6 }

compare_them-address_example : compare_them port upstream ≡ (
    if ltb (address port) (address upstream)
    then lt
    else if ltb (address upstream) (address port)
    then gt
    else eq)
compare_them-address_example = compare_them-address port upstream (omega arith) (omega arith)

abbrev cached : PciDev → Device
cached d = record {
  dev = d;
  parent_bus = none;
  bridge = none;
  config_cached = 0;
  config_bufsize = 0;
  config = [];
  present = [];
  num_device = 0;
}

-- The three devices, in the order in which they were pushed.
abbrev unsorted : Sys World
unsorted = record (start unplugged) {
  topology = record ((start unplugged).topology) {
    devices = cached usb_hub ∷ cached upstream ∷ cached port ∷ [];
  };
  first_dev = 0 ∷ 1 ∷ 2 ∷ [];
}

abbrev loaded : List (ℕ × PciDev)
loaded = (0, usb_hub) ∷ (1, upstream) ∷ (2, port) ∷ []

unsorted_loaded : load_all (unsorted.topology.devices) (unsorted.first_dev) ≡ ok loaded
unfolding load_all
unsorted_loaded = refl

sort_them-IsSorted_example :
    (sorted : List (ℕ × PciDev)) × (sort_them world main_options unsorted
      ≡ (ok tt, record unsorted { first_dev = map pointer sorted }))
    × (load_all (unsorted.topology.devices) (map pointer sorted) ≡ ok sorted)
    × Perm (map pointer sorted) (unsorted.first_dev)
    × Ascends sorted
sort_them-IsSorted_example =
    sort_them-IsSorted world main_options unsorted loaded unsorted_loaded (omega arith)

abbrev slot : ℕ → PciFilter
slot n = record any_device { domain = pos 0; bus = pos n; slot = pos 1; func = pos 0 }

-- The listed port, after so many looks that found it down.
abbrev listed : ℕ → AdnaDevice
listed n = record {
  this = slot 2;
  parent = some (slot 1);
  hub = none;
  is_d3 = false;
  devnum = 1;
  link_down_cnt = n;
  hub_down_cnt = n;
  link_bad_cnt = 0;
}

abbrev watching : ℕ → Sys World
watching n = record (start unplugged) { first_adna = listed n ∷ [] }

world-IsUsable : (name : Text) (w : World) → IsUsable world name w
world-IsUsable name w = record { opens = refl; maps = refl; unmaps = refl }

world_registers : HasRegisters world
world_registers = record {
  narrow = λ w name reg. omega arith;
  reads_back = λ w name reg v h. omega arith;
  stays_usable = λ w name reg v u. world-IsUsable name _;
}

world-IsWritable : (name : Text) → IsWritable world name
world-IsWritable name = record { opens = λ w. refl; writes = λ w. refl }

pcimem_ends_example :
    ((n : ℕ) × ((pcimem world reg_write (slot 1) 0x1ffe 7 (watching 0)).0 ≡ ok n))
    ⊎ ((pcimem world reg_write (slot 1) 0x1ffe 7 (watching 0)).0 ≡ exited 1)
pcimem_ends_example = pcimem_ends world reg_write (slot 1) 0x1ffe 7 (watching 0)

port_cycle_example :
    Machine.◌>>◌ (disable_port world (listed 10)) (enable_port world (listed 10)) (watching 10) ≡ (
      ok tt,
      after world
          (store_reg (pci_get_res0 (slot 1)) 0x234 6)
          (after world (store_reg (pci_get_res0 (slot 1)) 0x234 7) (watching 10)),
    )
port_cycle_example =
    port_cycle world world_registers (listed 10) (slot 1) (watching 10) refl (world-IsUsable _ _)

due-looks_example : is_due (looks 10 (clear_counts (listed 4))) ≡ true
due-looks_example = due-looks 10 (listed 4)

reset_when_due_example :
    react world main_options 0 1 (listed 10) false false (watching 10)
    ≡ (ok tt, was_reset world main_options 0 (listed 10) (slot 1) 6 (watching 10))
reset_when_due_example =
    reset_when_due world main_options world_registers 0 1 (listed 10) (slot 1) (watching 10) refl
      (world-IsUsable _)

insertion_example :
    PlainOver
      (set_timer 1 100000
        ∷ sleep 1
        ∷ sleep 1
        ∷ write_file rescan_file (codes "1")
        ∷ set_timer 0 0
        ∷ print (codes ", was Down previously\n")
        ∷ [])
      (react world main_options 0 1 (listed 0) true false (watching 0)).1.trace
insertion_example = insertion world main_options 0 1 (listed 0) (watching 0) (world-IsWritable _)

main-IsOrderly_example :
    IsOrderly
      (main world main_options any_device (any_device ∷ any_device ∷ []) (start unplugged)).1.trace
main-IsOrderly_example =
    main-IsOrderly world main_options any_device (any_device ∷ any_device ∷ []) unplugged

-- A running tool with a listed port, just before a tick.
abbrev running : Sys World
running = record (watching 3) { is_initialized = true; trace = set_timer 1 100000 ∷ [] }

abbrev ticked : Sys World
ticked = (adna_timer_callback world main_options any_device running).1

running_ticks : adna_timer_callback world main_options any_device running ≡ (ok tt, ticked)
unfolding adna_timer_callback Machine.◌>>=◌ Machine.modify Scan.adna_pci_process Machine.gets
    Machine.for_all Machine.when◌then◌else◌ Machine.lift Link.pcidev_is_adnacom Machine.pure
    Machine.null_or Topology.grow_tree Topology.for_each compare_them Topology.add_bridge
    Config.get_conf_byte Topology.adopt Topology.consider Topology.better Topology.add_secondary
    Topology.insert_at_host Topology.insert_dev Topology.find_bus Topology.find_child
    Topology.link_dev Machine.emit Machine.device_at Link.pci_dl_active Topology.pci_is_hub_alive
    Link.pci_check_link_cap react load_all Scan.qsort Config.check_conf_range count_down
    Machine.store_cached Machine.put_device
running_ticks = refl

tick_rearms_example : is_armed (ticked.trace) ≡ true
tick_rearms_example =
    tick_rearms world main_options any_device running {s' = ticked} running_ticks tt refl
