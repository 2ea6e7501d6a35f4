-- ===== src/Tests/Counts.antt =====
-- Instances of the numbering of the ports and of their list: the three devices of the machine, in
-- the order of their addresses.
use adnacom_hotplug.Common.{
  set, map, List, AllOf, ◌≡◌, refl, ℕ, Bool, true, ◌==◌, none, some, [], ◌∷◌, ◌++◌, length, ok,
  arith,
}
use adnacom_hotplug.Pci.{PciDev}
use adnacom_hotplug.Config.{Device}
use adnacom_hotplug.Link.{pci_is_downstream}
use adnacom_hotplug.Machine.{
  AdnaDevice, Sys, start, any_device, ◌>>=◌, gets, lift, pure, modify, device_at, put_device,
  when◌then◌else◌,
}
use adnacom_hotplug.Topology.{Topology, host_bridge}
use adnacom_hotplug.Scan.Devnums.{devnum_of, first_list_numbers}
use adnacom_hotplug.Scan.Listed.{IsPlaced, below, plugged, entries, save_to_adna_list-entries}
use mathlib.Core.List.{reverse}
use adnacom_hotplug.Show.{main_options}
use adnacom_hotplug.Scan.{count_loop, count_downstream, save_to_adna_list}
use adnacom_hotplug.Scan.Numbers.{Answers, IsNumbered, chosen, from, count_downstream-IsNumbered}
use adnacom_hotplug.Tests.World.{World, world, upstream, port, usb_hub}

abbrev fresh : PciDev → Device
fresh d = record {
  dev = d;
  parent_bus = none;
  bridge = none;
  config_cached = 0;
  config_bufsize = 0;
  config = [];
  present = [];
  num_device = 0;
}

-- The hub was pushed last; the list is sorted.
abbrev sorted : Sys World
sorted = record (start (record { link = true; hub = true; control = 6 })) {
  topology = record {
    devices = fresh upstream ∷ fresh port ∷ fresh usb_hub ∷ [];
    bridges = [];
    chain = [];
  };
  first_dev = 0 ∷ 1 ∷ 2 ∷ [];
}

-- The device at 1 is the downstream port.
abbrev second : ℕ → Bool
second d = d == 1

answers : AllOf (Answers world second sorted) (sorted.first_dev)
unfolding pci_is_downstream
answers = (
  record { at = fresh upstream; found = refl; told = refl },
  (
    record { at = fresh port; found = refl; told = refl },
    (record { at = fresh usb_hub; found = refl; told = refl }, tt),
  ),
)

count_downstream-IsNumbered_example :
    (s' : Sys World) × (count_downstream world main_options sorted
      ≡ (ok (length (chosen second sorted.first_dev)), s'))
    × IsNumbered second (sorted.first_dev) 0 sorted s'
count_downstream-IsNumbered_example =
    count_downstream-IsNumbered world main_options second (λ d. refl) sorted (omega arith) answers

-- The same devices in their places: the switch on a bus of the host, the port below it with the
-- number 1, and the hub behind the port.
abbrev placed : Topology
placed = record {
  devices =
      record (fresh upstream) {
        parent_bus = some (record { parent_bridge = 0; domain = 0; number = 1 });
        bridge = some 1;
      }
      ∷ record (fresh port) {
        parent_bus = some (record { parent_bridge = 1; domain = 0; number = 2 });
        bridge = some 2;
        num_device = 1;
      }
      ∷ record (fresh usb_hub) {
        parent_bus = some (record { parent_bridge = 2; domain = 0; number = 3 });
      }
      ∷ [];
  bridges =
      host_bridge
      ∷ record host_bridge {
        secondary = 2;
        buses = record { domain = 0; number = 2; devices = 1 ∷ [] } ∷ [];
        br_dev = some 0;
      }
      ∷ record host_bridge {
        secondary = 3;
        buses = record { domain = 0; number = 3; devices = 2 ∷ [] } ∷ [];
        br_dev = some 1;
      }
      ∷ [];
  chain = 0 ∷ 1 ∷ 2 ∷ [];
}

grown : Sys World
grown = record sorted { topology = placed }

grown-IsPlaced : AllOf (IsPlaced grown.topology) (grown.first_dev)
unfolding grown
grown-IsPlaced = (
  record {
    at = _;
    parent = none;
    hub = none;
    found = refl;
    above = λ n. absurd (n refl);
    behind = λ n. absurd (n refl);
  },
  (
    record {
      at = _;
      parent = some upstream;
      hub = some usb_hub;
      found = refl;
      above = λ n. below _ _ 0 _ refl refl refl refl;
      behind = λ n. plugged 2 _ _ 2 _ refl refl refl refl refl;
    },
    (
      record {
        at = _;
        parent = none;
        hub = none;
        found = refl;
        above = λ n. absurd (n refl);
        behind = λ n. absurd (n refl);
      },
      tt,
    ),
  ),
)

save_to_adna_list-entries_example : save_to_adna_list world main_options any_device grown ≡ (
  ok tt,
  record grown {
    first_adna =
        reverse
          (entries world main_options any_device grown.topology grown.first_dev grown-IsPlaced)
        ++ grown.first_adna;
  },
)
save_to_adna_list-entries_example =
    save_to_adna_list-entries world main_options any_device grown grown-IsPlaced

-- The same topology before the port has its number.
uncounted : Sys World
unfolding grown
uncounted = record grown {
  topology = record placed {
    devices = set placed.devices 1 (record (fresh port) {
      parent_bus = some (record { parent_bridge = 1; domain = 0; number = 2 });
      bridge = some 2;
    });
  };
}

uncounted-Answers : AllOf (Answers world second uncounted) (uncounted.first_dev)
unfolding uncounted pci_is_downstream
uncounted-Answers = (
  record { at = _; found = refl; told = refl },
  (
    record { at = _; found = refl; told = refl },
    (record { at = _; found = refl; told = refl }, tt),
  ),
)

counted : count_downstream world main_options uncounted ≡ (ok 1, grown)
unfolding uncounted count_downstream count_loop ◌>>=◌ gets lift pure modify device_at put_device
    when◌then◌else◌ pci_is_downstream
counted = refl

first_list_numbers_example :
    (l : List AdnaDevice) × (save_to_adna_list world main_options any_device grown
      ≡ (ok tt, record grown { first_adna = l ++ grown.first_adna }))
    × (map devnum_of l ≡ reverse (from 1 1))
    × (1 ≡ length (chosen second uncounted.first_dev))
unfolding uncounted
first_list_numbers_example =
    first_list_numbers world main_options any_device second (λ d. refl) uncounted grown 1
      (omega arith) uncounted-Answers counted grown-IsPlaced
