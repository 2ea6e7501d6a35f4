-- ===== src/Topology/Insertion.antt =====
-- insert_dev ends, on a flat tree (ls-tree.c).
use adnacom_hotplug.Common.{
  ◌≡◌, refl, ap, ◌∙◌, ◌⊎◌, inl, inr, ℕ, suc, ◌-◌, ◌<◌, Bool, true, false, none, some, List, [], ◌∷◌,
  length, get_elem?, if◌then◌else◌, ok, arith, Bool-cases, Option-cases, length-set, get_elem?-lt,
}
use adnacom_hotplug.Pci.{PciDev}
use adnacom_hotplug.Config.{Device, BusRef}
use adnacom_hotplug.Topology.{
  Bus, Bridge, Topology, find_bus, find_child, covers, link_dev, insert_dev, insert_at_host,
}
use adnacom_hotplug.Topology.Flat.{AllOther}
use adnacom_hotplug.Topology.Growth.{get_elem?-found, HasHeader, HasHeader-same, set_header}
use adnacom_hotplug.Topology.Parents.{Linking, set_buses-IsFlat}

find_child_step :
    (bs : List Bridge) (c : ℕ) (cs : List ℕ) (q : PciDev) (b : Bridge)
    → get_elem? bs c ≡ some b
    → find_child bs (c ∷ cs) q ≡ (if covers b q then ok (some c) else find_child bs cs q)
unfolding find_child
find_child_step bs c cs q b found = rw (found, find_child)

-- Among the children of the host bridge one that covers the device is found, or none.
find_child_returns :
    (bs : List Bridge) (cs : List ℕ) (q : PciDev)
    → AllOther (length bs) cs
    → (find_child bs cs q ≡ ok none)
      ⊎ ((c : ℕ) × (find_child bs cs q ≡ ok (some c)) × (0 < c) × (c < length bs))
find_child_returns bs [] q a = inl (unfold find_child in refl)
find_child_returns bs (c ∷ cs) q a =
    let (bridge, found) = get_elem?-found bs c a.1 in
    let step = find_child_step bs c cs q bridge found in
    elim (Bool-cases (covers bridge q)) [
      | inl covered ↦ inr (c, step ∙ (rw covered refl), a.0, a.1)
      | inr other ↦ elim (find_child_returns bs cs q a.2) [
        | inl r ↦ inl (step ∙ (rw other r))
        | inr (k, r, p, l) ↦ inr (k, step ∙ (rw other r), p, l)
      ]
    ]

HasHeader-parent :
    (d : Device) (bus : BusRef) → HasHeader d → HasHeader (record d { parent_bus = some bus })
HasHeader-parent d bus h = HasHeader-same d _ refl refl refl h

link_dev-Linking :
    (n m : ℕ) (t : Topology) (d : ℕ) (device : Device) (b : ℕ) (bridge : Bridge) (fresh : Bool)
    → Linking n m t
    → get_elem? t.devices d ≡ some device
    → get_elem? t.bridges b ≡ some bridge
    → Linking n m (link_dev t d device b bridge fresh)
unfolding link_dev
link_dev-Linking n m t d device b bridge fresh (g, e) there found = (
  record {
    flat = set_buses-IsFlat t.bridges b bridge _ g.flat found;
    headers =
        set_header t.devices d _ g.headers (get_elem?-lt t.devices d there)
          (HasHeader-parent device _ (g.headers d device there));
    count = length-set t.devices d _ ∙ g.count;
    rest = g.rest;
    chained = g.chained;
    others = rw (length-set t.bridges b _) g.others;
  },
  length-set t.bridges b _ ∙ e,
)

-- One call of insert_dev: what it does by its two searches.
module _ (f : ℕ) (t : Topology) (d i : ℕ) (device : Device) (b : Bridge)
    (there : get_elem? t.devices d ≡ some device) (found : get_elem? t.bridges i ≡ some b) where
  insert_known :
      (bus : Bus)
      → find_bus b.buses device.dev.domain device.dev.bus ≡ some bus
      → insert_dev (suc f) t d i ≡ ok (link_dev t d device i b false)
  unfolding insert_dev
  insert_known bus known = ground (arith, there, found, known)

  insert_here :
      find_bus b.buses device.dev.domain device.dev.bus ≡ none
      → find_child t.bridges b.child device.dev ≡ ok none
      → insert_dev (suc f) t d i ≡ ok (link_dev t d device i b true)
  unfolding insert_dev
  insert_here unknown alone = ground (arith, there, found, unknown, alone)

  insert_below :
      (c : ℕ)
      → find_bus b.buses device.dev.domain device.dev.bus ≡ none
      → find_child t.bridges b.child device.dev ≡ ok (some c)
      → insert_dev (suc f) t d i ≡ insert_dev f t d c
  unfolding insert_dev
  insert_below c unknown child = ground (arith, there, found, unknown, child)

-- At a bridge with no child the device goes to a bus of that bridge.
insert_leaf_returns :
    (n m f : ℕ) (t : Topology) (d : ℕ) (k : ℕ)
    → Linking n m t
    → d < n
    → suc k < m
    → (t' : Topology) × (insert_dev (suc f) t d (suc k) ≡ ok t') × Linking n m t'
insert_leaf_returns n m f t d k (g, e) inside below =
    let (device, there) = get_elem?-found t.devices d (omega (arith, g.count)) in
    let (b, found) = get_elem?-found t.bridges (suc k) (omega arith) in
    let leaf = g.flat.leaves k b found in
    let no_child : find_child t.bridges b.child device.dev ≡ ok none =
      rw leaf.childless (unfold find_child in refl) in
    elim (Option-cases (find_bus b.buses device.dev.domain device.dev.bus)) [
      | inr (bus, known) ↦ (
        _,
        insert_known f t d (suc k) device b there found bus known,
        link_dev-Linking n m t d device (suc k) b false (g, e) there found,
      )
      | inl unknown ↦ (
        _,
        insert_here f t d (suc k) device b there found unknown no_child,
        link_dev-Linking n m t d device (suc k) b true (g, e) there found,
      )
    ]

-- From the host bridge the device goes down by one bridge at most.
pub insert_at_host_returns :
    (n m : ℕ) (t : Topology) (d : ℕ)
    → Linking n m t
    → d < n
    → (t' : Topology) × (insert_at_host t d ≡ ok t') × Linking n m t'
unfolding insert_at_host
insert_at_host_returns n m t d (g, e) inside =
    let (device, there) = get_elem?-found t.devices d (omega (arith, g.count)) in
    let host = g.flat.host in
    let fuel = length t.bridges in
    elim (Option-cases (find_bus host.buses device.dev.domain device.dev.bus)) [
      | inr (bus, known) ↦ (
        _,
        insert_known fuel t d 0 device host there g.flat.hosted bus known,
        link_dev-Linking n m t d device 0 host false (g, e) there g.flat.hosted,
      )
      | inl unknown ↦
          elim (find_child_returns t.bridges host.child device.dev g.flat.is_host.children) [
            | inl alone ↦ (
              _,
              insert_here fuel t d 0 device host there g.flat.hosted unknown alone,
              link_dev-Linking n m t d device 0 host true (g, e) there g.flat.hosted,
            )
            | inr (c, child, p, l) ↦
                let one_more : length t.bridges ≡ suc (length t.bridges - 1) = omega arith in
                let other : c ≡ suc (c - 1) = omega arith in
                let (t', r, h) =
                  insert_leaf_returns n m (length t.bridges - 1) t d (c - 1) (g, e) inside
                    (omega arith) in
                (
                  t',
                  insert_below fuel t d 0 device host there g.flat.hosted c unknown child
                      ∙ ap (λ k. insert_dev k t d c) one_more
                      ∙ ap (λ k. insert_dev (suc (length t.bridges - 1)) t d k) other
                      ∙ r,
                  h,
                )
          ]
    ]
