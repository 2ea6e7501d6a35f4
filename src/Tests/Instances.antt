-- ===== src/Tests/Instances.antt =====
-- An instance of each property that has hypotheses, on the machine of Tests/World.antt.
use adnacom_hotplug.Common.{
  ◌≡◌, ◌≤◌, ◌<◌, ◌↔◌, ◌⊎◌, refl, ℕ, zero, suc, ◌+◌, ◌/◌, ◌%◌, ◌^◌, Bool, true, false, none, some,
  [], ◌∷◌, ok, exited, arith, get_elem?,
}
use adnacom_hotplug.Config.Cached.{config_fetch-cached}
use adnacom_hotplug.Config.{Device, is_present, config_fetch, check_conf_range, get_conf_long}
use adnacom_hotplug.Config.Fetch.{IsCache, IsPresent, Extends, config_fetch-IsPresent}
use adnacom_hotplug.Config.Reads.{check_conf_range_cases, get_conf_long-value, HasByte}
use adnacom_hotplug.Config.Buffers.{is_loaded}
use adnacom_hotplug.Platform.{write_byte}
use adnacom_hotplug.Machine.{Sys, start}
use adnacom_hotplug.Show.{main_options, enable_command}
use adnacom_hotplug.Show.Command.{enable_command-HasByte}
use adnacom_hotplug.Link.{
  pcidev_is_adnacom, LinkState, pci_check_link_cap, pci_dl_active, pci_is_downstream,
  pci_is_upstream,
}
use adnacom_hotplug.Link.Laws.{
  Classifies, pci_check_link_cap-Classifies, pci_dl_active_iff, pci_is_downstream_iff, IsAdnacom,
  pcidev_is_adnacom_iff,
}
use adnacom_hotplug.Tests.World.{World, world, world_reads, upstream, port}

abbrev plugged : World
plugged = record { link = true; hub = true; control = 5 }

-- A cache of two bytes, of which the first is present.
abbrev half_read : Device
half_read = record {
  dev = port;
  parent_bus = none;
  bridge = none;
  config_cached = 2;
  config_bufsize = 2;
  config = some 7 ∷ none ∷ [];
  present = 1 ∷ 0 ∷ [];
  num_device = 0;
}

half_read_loaded :
    (i : ℕ) → is_present (half_read.present) i ≡ true → is_loaded (half_read.config) i ≡ true
half_read_loaded zero h = refl
half_read_loaded (suc zero) h = cc
half_read_loaded (suc (suc i)) h = cc

half_read-IsCache : IsCache half_read
half_read-IsCache = record {
  config_size = refl;
  present_size = refl;
  nonempty = omega arith;
  in_range = omega arith;
  loaded = half_read_loaded;
}

config_fetch-IsPresent_example :
    (result : Bool) × (e : Device) × (config_fetch world plugged half_read 0 6 ≡ ok (result, e))
    × IsCache e
    × Extends half_read e
    × (result ≡ true → IsPresent e 0 6)
config_fetch-IsPresent_example =
    config_fetch-IsPresent world world_reads plugged half_read 0 6 half_read-IsCache (omega arith)

check_conf_range_cases_example :
    ((check_conf_range half_read 0 2 ≡ ok tt) × IsPresent half_read 0 2)
    ⊎ ((check_conf_range half_read 0 2 ≡ exited 1)
        × ((i : ℕ) × (0 ≤ i) × (i < 0 + 2) × (is_present (half_read.present) i ≡ false)))
check_conf_range_cases_example =
    check_conf_range_cases half_read 0 2 half_read-IsCache (omega arith)

abbrev four_bytes : Device
four_bytes = record half_read {
  config_bufsize = 4;
  config = some 0x10 ∷ some 0x32 ∷ some 0x54 ∷ some 0x76 ∷ [];
  present = 1 ∷ 1 ∷ 1 ∷ 1 ∷ [];
}

four_bytes-IsPresent : IsPresent four_bytes 1 3
four_bytes-IsPresent zero lo hi = refl
four_bytes-IsPresent (suc zero) lo hi = refl
four_bytes-IsPresent (suc (suc zero)) lo hi = refl
four_bytes-IsPresent (suc (suc (suc zero))) lo hi = refl
four_bytes-IsPresent (suc (suc (suc (suc i)))) lo hi = absurd (omega arith)

four_bytes_loaded :
    (i : ℕ) → is_present (four_bytes.present) i ≡ true → is_loaded (four_bytes.config) i ≡ true
four_bytes_loaded zero h = refl
four_bytes_loaded (suc zero) h = refl
four_bytes_loaded (suc (suc zero)) h = refl
four_bytes_loaded (suc (suc (suc zero))) h = refl
four_bytes_loaded (suc (suc (suc (suc i)))) h = cc

four_bytes-IsCache : IsCache four_bytes
four_bytes-IsCache = record {
  config_size = refl;
  present_size = refl;
  nonempty = omega arith;
  in_range = omega arith;
  loaded = four_bytes_loaded;
}

config_fetch-cached_example : config_fetch world plugged four_bytes 1 3 ≡ ok (true, four_bytes)
config_fetch-cached_example =
    config_fetch-cached world plugged four_bytes 1 3 four_bytes-IsCache (omega arith)
      four_bytes-IsPresent

get_conf_long-value_example : get_conf_long four_bytes 0 ≡ ok 0x7654_3210
get_conf_long-value_example =
    get_conf_long-value four_bytes 0 0x10 0x32 0x54 0x76 (refl, refl, omega arith)
      (refl, refl, omega arith) (refl, refl, omega arith) (refl, refl, omega arith)

pci_check_link_cap-Classifies_example :
    (s : LinkState) × (pci_check_link_cap world plugged port ≡ ok s) × Classifies 18 8210 s
pci_check_link_cap-Classifies_example = pci_check_link_cap-Classifies world plugged port 0x40 refl

pci_dl_active_iff_example :
    (b : Bool) × (pci_dl_active world plugged port ≡ ok b) × ((b ≡ true) ↔ (8210 / 2 ^ 13 % 2 ≡ 1))
pci_dl_active_iff_example = pci_dl_active_iff world plugged port 0x40 refl

pci_is_downstream_iff_example :
    (b u : Bool) × (pci_is_downstream world plugged port ≡ ok b)
    × (pci_is_upstream world plugged port ≡ ok u)
    × ((b ≡ true) ↔ (98 / 16 % 16 ≡ 6))
    × ¬ ((b ≡ true) × (u ≡ true))
pci_is_downstream_iff_example = pci_is_downstream_iff world plugged port 0x40 refl

pcidev_is_adnacom_iff_example :
    (b : Bool) × (pcidev_is_adnacom upstream ≡ ok b) × ((b ≡ true) ↔ IsAdnacom upstream)
pcidev_is_adnacom_iff_example = pcidev_is_adnacom_iff upstream

-- A device of which only the memory space is switched on.
abbrev half_on : Device
half_on = record four_bytes {
  config_cached = 6;
  config_bufsize = 6;
  config = some 0 ∷ some 0 ∷ some 0 ∷ some 0 ∷ some 0xa2 ∷ some 1 ∷ [];
  present = 1 ∷ 1 ∷ 1 ∷ 1 ∷ 1 ∷ 1 ∷ [];
}

abbrev half_on_state : Sys World
half_on_state = record (start plugged) {
  topology = record ((start plugged).topology) { devices = half_on ∷ [] };
}

enable_command-HasByte_example :
    (s' : Sys World) × (device' : Device) × (enable_command world main_options 0 half_on_state
      ≡ (ok tt, s'))
    × (get_elem? s'.topology.devices 0 ≡ some device')
    × HasByte device' 4 0xa7
    × (s'.trace ≡ write_byte half_on.dev 4 0xa7 ∷ [])
enable_command-HasByte_example =
    enable_command-HasByte world main_options half_on_state 0 0xa2 1 half_on refl refl
      (refl, refl, omega arith) (refl, refl, omega arith)
