-- ===== src/Topology.antt =====
-- The topology of buses and bridges that the device list is sorted into (ls-tree.c: find_bus,
-- new_bus, insert_dev, grow_tree; adna.c: pci_is_hub_alive).
pub mod Flat
pub mod Growth
pub mod Parents
pub mod Insertion
pub mod Total
use adnacom_hotplug.Common.{
  ℕ, zero, suc, ◌+◌, ◌-◌, ◌/◌, ◌%◌, ◌^◌, Bool, true, false, ◌&&◌, ◌||◌, not, Option, none, some,
  List, [], ◌∷◌, ◌++◌, ltb, leb, ◌==◌, if◌then◌else◌, get_elem?, set, length, bit_and, Outcome, ok,
  fault, diverged, deref, ◌>>=◌,
}
use adnacom_hotplug.Pci.{
  PciDev, pci_header_type, pci_header_type_bridge, pci_header_type_cardbus, pci_primary_bus,
  pci_secondary_bus, pci_subordinate_bus, pci_base_class_bridge,
}
use adnacom_hotplug.Config.{Device, get_conf_byte}

-- `struct bus`: its devices, first to last, as places in the heap of devices.
pub record Bus : Type 0 where
  pub domain : ℕ
  pub number : ℕ
  pub devices : List ℕ

-- `struct bridge`. `child` is the list that begins at `child` and goes on by `next`, `buses` the
-- one that begins at `first_bus` and goes on by `sibling`.
pub record Bridge : Type 0 where
  pub domain : ℕ
  pub primary : ℕ
  pub secondary : ℕ
  pub subordinate : ℕ
  pub child : List ℕ
  pub buses : List Bus
  pub br_dev : Option ℕ

-- The heap: every device and bridge that was ever allocated. The bridge at 0 is `host_bridge`, a
-- static object; `chain` is the list that begins at it.
pub record Topology : Type 0 where
  pub devices : List Device
  pub bridges : List Bridge
  pub chain : List ℕ

abbrev pub minus_one : ℕ
minus_one = 0xffff_ffff

-- The initial value of `host_bridge`.
abbrev pub host_bridge : Bridge
host_bridge = record {
  domain = 0;
  primary = minus_one;
  secondary = 0;
  subordinate = minus_one;
  child = [];
  buses = [];
  br_dev = none;
}

-- Unsigned subtraction.
abbrev pub sub32 : ℕ → ℕ → ℕ
sub32 a b = (a + 2 ^ 32 - b) % 2 ^ 32

unfoldable pub find_bus : List Bus → ℕ → ℕ → Option Bus
find_bus [] domain n = none
find_bus (bus ∷ buses) domain n =
    if bus.domain == domain && bus.number == n then some bus else find_bus buses domain n

-- `new_bus` on the list that begins at `b->first_bus`.
unfoldable pub new_bus : List Bus → ℕ → ℕ → List Bus
new_bus buses domain n = record { domain = domain; number = n; devices = [] } ∷ buses

-- `*bus->last_dev = d` on the bus that `find_bus` gives.
unfoldable pub append_dev : List Bus → ℕ → ℕ → ℕ → List Bus
append_dev [] domain n d = []
append_dev (bus ∷ buses) domain n d =
    if bus.domain == domain && bus.number == n
    then record bus { devices = bus.devices ++ d ∷ [] } ∷ buses
    else bus ∷ append_dev buses domain n d

-- The test of the loop over `b->child` in `insert_dev`.
abbrev pub covers : Bridge → PciDev → Bool
covers c p = c.domain == p.domain && (leb c.secondary p.bus && leb p.bus c.subordinate)

-- That loop: the first child whose bus range covers the device.
unfoldable pub find_child : List Bridge → List ℕ → PciDev → Outcome (Option ℕ)
find_child bridges [] p = ok none
find_child bridges (c ∷ cs) p =
    let rest = find_child bridges cs p in
    elim (get_elem? bridges c) [
      | none ↦ fault
      | some bridge ↦ if covers bridge p then ok (some c) else rest
    ]

-- The end of `insert_dev`: the device goes to the end of its bus, which is made where `fresh`.
unfoldable pub link_dev : Topology → ℕ → Device → ℕ → Bridge → Bool → Topology
unfolding new_bus append_dev
link_dev t d device b bridge fresh =
    let p = device.dev in
    let buses = if fresh then new_bus bridge.buses p.domain p.bus else bridge.buses in
    record t {
      bridges = set t.bridges b (record bridge { buses = append_dev buses p.domain p.bus d });
      devices = set t.devices d (record device {
        parent_bus = some (record { parent_bridge = b; domain = p.domain; number = p.bus });
      });
    }

-- `insert_dev`. The fuel bounds the depth of the recursion into child bridges.
unfoldable pub insert_dev : ℕ → Topology → ℕ → ℕ → Outcome Topology
insert_dev zero t d b = diverged
insert_dev (suc f) t d b = deref (get_elem? t.devices d) >>= λ device.
    deref (get_elem? t.bridges b) >>= λ bridge.
    elim (find_bus bridge.buses device.dev.domain device.dev.bus) [
      | some bus ↦ ok (link_dev t d device b bridge false)
      | none ↦ find_child t.bridges bridge.child device.dev >>= λ child. elim child [
        | some c ↦ insert_dev f t d c
        | none ↦ ok (link_dev t d device b bridge true)
      ]
    ]

-- Is the device a bridge with buses behind it? `ht` is the header type.
abbrev pub is_bridge : PciDev → ℕ → Bool
is_bridge p ht =
    p.device_class / 2 ^ 8 == pci_base_class_bridge
    && (ht == pci_header_type_bridge || ht == pci_header_type_cardbus)

-- One round of the loop that builds the list of bridges. The registers of a CardBus bridge have
-- the same offsets as those of a PCI bridge, so the two branches read the same bytes.
unfoldable pub add_bridge : Topology → ℕ → Outcome Topology
add_bridge t d = do
  device ← deref (get_elem? t.devices d)
  byte ← get_conf_byte device pci_header_type
  let ht = bit_and byte 0x7f
  if is_bridge device.dev ht
      then (get_conf_byte device pci_primary_bus >>= λ primary.
          get_conf_byte device pci_secondary_bus >>= λ secondary.
          get_conf_byte device pci_subordinate_bus >>= λ subordinate. ok (record {
            devices = set t.devices d (record device { bridge = some (length t.bridges) });
            bridges =
                t.bridges
                ++ record {
                  domain = device.dev.domain;
                  primary = primary;
                  secondary = secondary;
                  subordinate = subordinate;
                  child = [];
                  buses = [];
                  br_dev = some d;
                }
                  ∷ [];
            chain = t.chain ++ length t.bridges ∷ [];
          }))
      else ok t

-- A loop over a list in which a round may fail.
unfoldable pub for_each {ℓ κ} :
    {A : Type ℓ} {S : Type κ} → (S → A → Outcome S) → S → List A → Outcome S
for_each step s [] = ok s
for_each step s (x ∷ xs) = step s x >>= λ s'. for_each step s' xs

-- The test of the inner loop that looks for the parent of a bridge: `b` and `c` are the bridges
-- at the places `i` and `j`, and `best` is the best so far.
unfoldable pub better : ℕ → Bridge → ℕ → Bridge → Option (ℕ × Bridge) → Bool
better i b j c best =
    not (j == i)
    && ((j == 0 || b.domain == c.domain)
        && (leb c.secondary b.primary
            && (leb b.primary c.subordinate && elim best [
              | none ↦ true
              | some (_, r) ↦ ltb (sub32 c.subordinate c.primary) (sub32 r.subordinate r.primary)
            ])))

unfoldable pub consider :
    List Bridge → ℕ → Bridge → Option (ℕ × Bridge) → ℕ → Outcome (Option (ℕ × Bridge))
consider bridges i b best j =
    deref (get_elem? bridges j) >>= λ c. ok (if better i b j c best then some (j, c) else best)

-- One round of the loop that makes the tree: `b->next = best->child; best->child = b`.
unfoldable pub adopt : Topology → ℕ → Outcome Topology
adopt t i = deref (get_elem? t.bridges i) >>= λ b.
    for_each (consider t.bridges i b) none t.chain >>= λ best. ok (elim best [
      | none ↦ t
      | some (j, c) ↦ record t { bridges = set t.bridges j (record c { child = i ∷ c.child }) }
    ])

-- One round of the loop that gives each bridge its secondary bus.
unfoldable pub add_secondary : Topology → ℕ → Outcome Topology
unfolding find_bus new_bus
add_secondary t i = deref (get_elem? t.bridges i) >>= λ b.
    ok (elim (find_bus b.buses b.domain b.secondary) [
      | some bus ↦ t
      | none ↦ record t {
        bridges = set t.bridges i (record b { buses = new_bus b.buses b.domain b.secondary });
      }
    ])

-- `insert_dev(d, &host_bridge)`: the bridges hang on `host_bridge` directly, so the recursion is
-- two calls deep at most.
unfoldable pub insert_at_host : Topology → ℕ → Outcome Topology
insert_at_host t d = insert_dev (suc (length t.bridges)) t d 0

-- `grow_tree` on the devices of the list that begins at `first_dev`.
unfoldable pub grow_tree : List ℕ → Topology → Outcome Topology
grow_tree first_dev t = for_each add_bridge (record t { chain = 0 ∷ [] }) first_dev >>= λ t1.
    for_each adopt t1 t1.chain >>= λ t2.
    for_each add_secondary t2 t2.chain >>= λ t3. for_each insert_at_host t3 first_dev

-- `NULL != d->bridge->first_bus->first_dev`, with both pointers used untested.
unfoldable pub pci_is_hub_alive : Topology → Device → Outcome Bool
pci_is_hub_alive t d = deref d.bridge >>= λ i. deref (get_elem? t.bridges i) >>= λ b. elim b.buses [
  | [] ↦ fault
  | bus ∷ _ ↦ ok (elim bus.devices [ [] ↦ false | _ ∷ _ ↦ true ])
]
