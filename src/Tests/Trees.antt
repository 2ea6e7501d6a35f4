-- ===== src/Tests/Trees.antt =====
-- An instance of the theorem on grow_tree: the two ports of the switch.
use adnacom_hotplug.Common.{
  refl, diverged, ◌≢◌, true, ◌≡◌, ℕ, zero, suc, some, List, [], ◌∷◌, length, get_elem?, ok, subst,
  ◌<◌, arith,
}
use adnacom_hotplug.Pci.{PciDev}
use adnacom_hotplug.Config.{Device}
use adnacom_hotplug.Topology.{Topology, host_bridge, grow_tree}
use adnacom_hotplug.Topology.Flat.{IsFlat, start-IsFlat}
use adnacom_hotplug.Topology.Growth.{HasHeader}
use adnacom_hotplug.Topology.Total.{grow_tree-IsFlat}
use adnacom_hotplug.Show.{main_options}
use adnacom_hotplug.Scan.{new_device}
use adnacom_hotplug.Scan.Fresh.{new_device-HasHeader}
use adnacom_hotplug.Machine.{Sys, start}
use adnacom_hotplug.Machine.Invariants.{IsSound}
use adnacom_hotplug.Caps.{show_caps}
use adnacom_hotplug.Caps.Walk.{show_caps_ends}
use adnacom_hotplug.Show.{show_verbose}
use adnacom_hotplug.Show.Ends.{show_verbose_ends}
use adnacom_hotplug.Monitor.{main}
use adnacom_hotplug.Monitor.Ends.{main_ends}
use adnacom_hotplug.Machine.{any_device}
use adnacom_hotplug.Tests.World.{world_reads, World, world, block, length-block, upstream, port}

abbrev up : World
up = record { link = true; hub = true; control = 0 }

scanned : PciDev → Device
scanned d = new_device world main_options d (block up d 0 256)

scanned-HasHeader : (d : PciDev) → HasHeader (scanned d)
unfolding scanned
scanned-HasHeader d = new_device-HasHeader world main_options d _ (length-block up d 0 256)

ports : List Device
ports = scanned upstream ∷ scanned port ∷ []

ports-HasHeader : (i : ℕ) (d : Device) → get_elem? ports i ≡ some d → HasHeader d
unfolding ports
ports-HasHeader zero d e =
    let same : scanned upstream ≡ d = cc in subst HasHeader same (scanned-HasHeader upstream)
ports-HasHeader (suc zero) d e =
    let same : scanned port ≡ d = cc in subst HasHeader same (scanned-HasHeader port)
ports-HasHeader (suc (suc i)) d e = cc

abbrev before : Topology
before = record { devices = ports; bridges = host_bridge ∷ []; chain = 0 ∷ [] }

ports_listed : (0 < length ports) × (1 < length ports) × Unit {0}
unfolding ports
ports_listed = (omega arith, omega arith, tt)

grow_tree-IsFlat_example :
    (t : Topology) × (grow_tree (0 ∷ 1 ∷ []) before ≡ ok t)
    × IsFlat t.bridges
    × (length t.devices ≡ length ports)
    × ((i : ℕ) (d : Device) → get_elem? t.devices i ≡ some d → HasHeader d)
grow_tree-IsFlat_example =
    grow_tree-IsFlat before (0 ∷ 1 ∷ []) start-IsFlat ports-HasHeader
      (ports_listed.0, (ports_listed.1, tt))

-- The state with these two ports scanned.
abbrev with_ports : Sys World
with_ports = record (start up) { topology = before; first_dev = 0 ∷ 1 ∷ [] }

with_ports-IsSound : IsSound with_ports
with_ports-IsSound = record {
  headers = ports-HasHeader;
  flat = start-IsFlat;
  listed = (ports_listed.0, (ports_listed.1, tt));
}

show_caps_ends_example :
    ((show_caps world 2 1 0x34 with_ports).0 ≢ diverged)
    × IsSound (show_caps world 2 1 0x34 with_ports).1
show_caps_ends_example = show_caps_ends world world_reads 2 1 0x34 with_ports with_ports-IsSound

show_verbose_ends_example :
    ((show_verbose world main_options 1 with_ports).0 ≢ diverged)
    × IsSound (show_verbose world main_options 1 with_ports).1
show_verbose_ends_example =
    show_verbose_ends world world_reads main_options 1 with_ports refl with_ports-IsSound

main_ends_example :
    ((main world main_options any_device (any_device ∷ []) (start up)).0 ≢ diverged)
    × IsSound (main world main_options any_device (any_device ∷ []) (start up)).1
main_ends_example = main_ends world world_reads main_options refl any_device (any_device ∷ []) up
