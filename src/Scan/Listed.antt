-- ===== src/Scan/Listed.antt =====
-- What the list of ports holds after the first scan (adna.c: save_to_adna_list).
use adnacom_hotplug.Common.{
  AllOf, ◌≡◌, ◌≢◌, refl, ◌∙◌, ap, ℕ, true, false, if◌then◌else◌, ◌==◌, Option, none, some, List, [],
  ◌∷◌, ◌++◌, get_elem?, ok, arith, Bool-cases, inl, inr,
}
use mathlib.Core.List.{reverse, reverse_aux}
use adnacom_hotplug.Pci.{PciDev, PciFilter}
use adnacom_hotplug.Platform.{Platform}
use adnacom_hotplug.Config.{Device, BusRef}
use adnacom_hotplug.Topology.{Topology, Bridge, Bus}
use adnacom_hotplug.Machine.{
  AdnaDevice, Sys, ◌>>=◌, when◌then◌else◌, null_or, pure, gets, lift, modify, device_at, for_all,
}
use adnacom_hotplug.Show.{Options}
use adnacom_hotplug.Scan.{
  bdf_str, mfg_str, parse_device, zero_filter, parsed, parent_of, hub_of, save_device,
  save_to_adna_list,
}

-- The device above a port: none on a bus of the host, else the bridge that the bus belongs to.
pub data Above (t : Topology) (device : Device) : Option PciDev → Type 0 where
  on_host :
      (bus : BusRef) (br : Bridge)
      → device.parent_bus ≡ some bus
      → get_elem? t.bridges bus.parent_bridge ≡ some br
      → br.br_dev ≡ none
      → Above t device none
  below :
      (bus : BusRef) (br : Bridge) (d : ℕ) (parent : Device)
      → device.parent_bus ≡ some bus
      → get_elem? t.bridges bus.parent_bridge ≡ some br
      → br.br_dev ≡ some d
      → get_elem? t.devices d ≡ some parent
      → Above t device (some parent.dev)

-- The device behind a port: the first on the first bus of its bridge.
pub data Behind (t : Topology) (device : Device) : Option PciDev → Type 0 where
  empty :
      (b : ℕ) (br : Bridge) (bus : Bus)
      → device.bridge ≡ some b
      → get_elem? t.bridges b ≡ some br
      → get_elem? br.buses 0 ≡ some bus
      → get_elem? bus.devices 0 ≡ none
      → Behind t device none
  plugged :
      (b : ℕ) (br : Bridge) (bus : Bus) (d : ℕ) (hub : Device)
      → device.bridge ≡ some b
      → get_elem? t.bridges b ≡ some br
      → get_elem? br.buses 0 ≡ some bus
      → get_elem? bus.devices 0 ≡ some d
      → get_elem? t.devices d ≡ some hub
      → Behind t device (some hub.dev)

-- A pointer to a device; one with a number has a place in the topology.
pub record IsPlaced (t : Topology) (d : ℕ) : Type 0 where
  pub at : Device
  pub parent : Option PciDev
  pub hub : Option PciDev
  pub found : get_elem? t.devices d ≡ some at
  pub above : at.num_device ≢ 0 → Above t at parent
  pub behind : at.num_device ≢ 0 → Behind t at hub

reverse_aux-append {ℓ} :
    {A : Type ℓ} (xs ys zs : List A) → reverse_aux xs (ys ++ zs) ≡ reverse_aux xs ys ++ zs
reverse_aux-append [] ys zs = refl
reverse_aux-append (x ∷ xs) ys zs = reverse_aux-append xs (x ∷ ys) zs

module _ {H : Type 0} (p : Platform H) (o : Options) (junk : PciFilter) where
  parent_of_lem :
      (s : Sys H) (device : Device) (up : Option PciDev)
      → Above s.topology device up
      → parent_of p o device s ≡ (ok up, s)
  unfolding parent_of device_at ◌>>=◌ lift gets null_or pure
  parent_of_lem s device up (on_host bus br a b c) = rw (a, b, c) refl
  parent_of_lem s device up (below bus br d parent a b c e) = rw (a, b, c, e) refl

  hub_of_lem :
      (s : Sys H) (device : Device) (down : Option PciDev)
      → Behind s.topology device down
      → hub_of p o device s ≡ (ok down, s)
  unfolding hub_of device_at ◌>>=◌ lift gets null_or pure
  hub_of_lem s device down (empty b br bus u v w x) = rw (u, v, w, x) refl
  hub_of_lem s device down (plugged b br bus d hub u v w x y) = rw (u, v, w, x, y) refl

  -- What a filter becomes by the texts of a device: first by its address, then by its ids.
  abbrev pub filter_of : PciFilter → PciDev → PciFilter
  filter_of f d = (p.filter_parse_id (p.filter_parse_slot f (bdf_str d)).0 (mfg_str d)).0

  abbrev pub filter_of_any : Option PciDev → Option PciFilter
  filter_of_any none = none
  filter_of_any (some d) = some (filter_of junk d)

  parsed_lem : (up : Option PciDev) → parsed p o junk up ≡ filter_of_any up
  unfolding parse_device
  parsed_lem none = refl
  parsed_lem (some d) = refl

  -- The entry of a port: what its filters are parsed from, and no looks counted yet.
  abbrev pub entry : Device → Option PciDev → Option PciDev → AdnaDevice
  entry device up down = record {
    this = filter_of (zero_filter p o) (device.dev);
    parent = filter_of_any up;
    hub = filter_of_any down;
    is_d3 = false;
    devnum = device.num_device;
    link_down_cnt = 0;
    hub_down_cnt = 0;
    link_bad_cnt = 0;
  }

  -- The entries of the numbered devices of a list.
  abbrev pub entries : (t : Topology) (ds : List ℕ) → AllOf (IsPlaced t) ds → List AdnaDevice
  entries t [] a = []
  entries t (d ∷ ds) a =
      let rest = entries t ds (a.1) in
      if a.0.at.num_device == 0 then rest else entry (a.0.at) (a.0.parent) (a.0.hub) ∷ rest

  abbrev listing : Sys H → List AdnaDevice → Sys H
  listing s adnas = record s { first_adna = adnas }

  save_device-numbered :
      (s : Sys H) (adnas : List AdnaDevice) (d : ℕ) (l : IsPlaced s.topology d)
      → (l.at.num_device == 0) ≡ false
      → save_device p o junk d (listing s adnas)
        ≡ (ok tt, listing s (entry (l.at) (l.parent) (l.hub) ∷ adnas))
  unfolding save_device parse_device device_at ◌>>=◌ gets lift when◌then◌else◌ modify
  save_device-numbered s adnas d l n =
      let numbered : l.at.num_device ≢ 0 = ground arith in
      rw
        (
          l.found,
          n,
          parent_of_lem (listing s adnas) l.at l.parent (l.above numbered),
          hub_of_lem (listing s adnas) l.at l.hub (l.behind numbered),
          parsed_lem l.parent,
          parsed_lem l.hub,
        )
        refl

  save_device-passed :
      (s : Sys H) (d : ℕ) (l : IsPlaced s.topology d)
      → (l.at.num_device == 0) ≡ true
      → save_device p o junk d s ≡ (ok tt, s)
  unfolding save_device device_at ◌>>=◌ gets lift when◌then◌else◌ pure
  save_device-passed s d l n = rw (l.found, n) refl

  save_all_lem :
      (ds : List ℕ) (s : Sys H) (adnas : List AdnaDevice) (a : AllOf (IsPlaced s.topology) ds)
      → for_all ds (save_device p o junk) (listing s adnas)
        ≡ (ok tt, listing s (reverse_aux (entries s.topology ds a) adnas))
  unfolding for_all ◌>>=◌ pure
  save_all_lem [] s adnas a = refl
  save_all_lem (d ∷ ds) s adnas a = elim (Bool-cases (a.0.at.num_device == 0)) [
    | inl none_of ↦
        rw (save_device-passed (listing s adnas) d a.0 none_of, none_of)
          (save_all_lem ds s adnas a.1)
    | inr numbered ↦
        rw (save_device-numbered s adnas d a.0 numbered, numbered) (save_all_lem ds s _ a.1)
  ]

  -- If every pointer of the list of devices points to a device, and each one with a number has its
  -- place in the topology, then save_to_adna_list returns, and puts one entry for each numbered
  -- device in front of the list of ports, the last device first. The filters of an entry are parsed
  -- from the texts of the device itself, of the device above it and of the first device behind it,
  -- the latter two if there are such; its number is that of the device, and its counters are 0.
  -- Nothing else changes.
  pub save_to_adna_list-entries :
      (s : Sys H) (a : AllOf (IsPlaced s.topology) s.first_dev)
      → save_to_adna_list p o junk s ≡ (
        ok tt,
        record s { first_adna = reverse (entries s.topology s.first_dev a) ++ s.first_adna },
      )
  unfolding save_to_adna_list ◌>>=◌ gets
  save_to_adna_list-entries s a =
      save_all_lem s.first_dev s s.first_adna a
      ∙ ap (λ adnas. (ok tt, listing s adnas))
          (reverse_aux-append (entries s.topology s.first_dev a) [] s.first_adna)
