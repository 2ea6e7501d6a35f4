-- ===== src/Monitor/Ends.antt =====
-- No tick runs for ever (adna.c: adna_timer_callback and what it calls; main.c: main).
use adnacom_hotplug.Common.{
  ◌≡◌, ◌≢◌, refl, ℕ, zero, suc, ◌+◌, Bool, true, false, ◌==◌, List, [], ◌∷◌, ok, fault, diverged,
  deref, get_elem?,
}
use adnacom_hotplug.Pci.{PciFilter}
use adnacom_hotplug.Platform.{Platform, ReadsBlocks}
use adnacom_hotplug.Config.{Device}
use adnacom_hotplug.Link.Ends.{pci_check_link_cap-Halts, pci_dl_active-Halts}
use adnacom_hotplug.Topology.{Topology, Bus, pci_is_hub_alive}
use adnacom_hotplug.Topology.Flat.{start-IsFlat}
use adnacom_hotplug.Machine.{AdnaDevice, start}
use adnacom_hotplug.Machine.Invariants.{
  Halts, Keeps, then_do, Any, by_pure, by_gets, by_lift, by_modify, by_when, IsSound, IsSound-same,
  keeps_device_at, keeps_store_cached, keeps_emit, run_ends,
}
use adnacom_hotplug.Machine.Reads.{Halts-then}
use adnacom_hotplug.Ports.{remove_downstream, settimer100ms, stoptimer}
use adnacom_hotplug.Ports.Ends.{
  by_exit, ends_disable_port, ends_enable_port, ends_write_one, ends_rescan,
}
use adnacom_hotplug.Show.{Options}
use adnacom_hotplug.Show.Ends.{keeps_show_verbose}
use adnacom_hotplug.Scan.Ends.{
  deref-Halts, by_gets_that, keeps_for_all, ends_cleanup, ends_adna_pci_process,
}
use adnacom_hotplug.Monitor.{
  adna_at, put_adna, refresh_device_cache, on_insertion, on_removal, on_down, react, check_port,
  check_adna, adna_loop, adna_timer_callback, main_start, ticks, main,
}

hub_cases :
    (buses : List Bus)
    → Halts Any
        (elim buses [ [] ↦ fault | bus ∷ _ ↦ ok (elim bus.devices [ [] ↦ false | _ ∷ _ ↦ true ]) ])
hub_cases [] = tt
hub_cases (bus ∷ buses) = tt

hub_alive-Halts : (t : Topology) (d : Device) → Halts Any (pci_is_hub_alive t d)
unfolding pci_is_hub_alive
hub_alive-Halts t d = Halts-then _ (deref d.bridge) _ (deref-Halts d.bridge) λ i _.
    Halts-then _ (deref (get_elem? t.bridges i)) _ (deref-Halts (get_elem? t.bridges i))
      λ b _. hub_cases b.buses

module _ {H : Type 0} (p : Platform H) (reads : ReadsBlocks p) (o : Options)
    (plain : (o.opt_path == 0) ≡ true) where
  ends_on_insertion : (d : ℕ) → Keeps IsSound (on_insertion p o d) Any
  unfolding on_insertion stoptimer settimer100ms
  ends_on_insertion d = then_do (keeps_emit p _) λ _ _. then_do (keeps_emit p _) λ _ _.
      then_do (ends_rescan p) λ _ _.
        then_do (keeps_emit p _)
          λ _ _. then_do (keeps_emit p _) λ _ _. keeps_show_verbose p reads o d plain

  ends_on_removal : (a : AdnaDevice) → Keeps IsSound (on_removal p o a) Any
  unfolding on_removal stoptimer settimer100ms remove_downstream
  ends_on_removal a = then_do (keeps_emit p _) λ _ _. then_do (keeps_emit p _) λ _ _.
      then_do (ends_write_one p _)
        λ _ _. then_do (ends_rescan p) λ _ _. then_do (keeps_emit p _) λ _ _. keeps_emit p _

  ends_put_adna : (i : ℕ) (a : AdnaDevice) → Keeps IsSound (put_adna p o i a) Any
  unfolding put_adna
  ends_put_adna i a = by_modify _ λ s h. IsSound-same s _ refl refl h

  ends_on_down : (i : ℕ) (a : AdnaDevice) → Keeps IsSound (on_down p o i a) Any
  unfolding on_down
  ends_on_down i a =
      by_when _
        (λ _. then_do (keeps_emit p _) λ _ _. then_do (keeps_emit p _) λ _ _.
          then_do (ends_put_adna i _)
            λ _ _. then_do (ends_disable_port p _) λ _ _. ends_enable_port p _)
        (λ _. by_pure tt tt)

  ends_react :
      (i d : ℕ) (a : AdnaDevice) (is_linkup is_hubup : Bool)
      → Keeps IsSound (react p o i d a is_linkup is_hubup) Any
  unfolding react
  ends_react i d a is_linkup is_hubup =
      by_when _ (λ _. ends_on_insertion d)
        (λ _.
          by_when _ (λ _. ends_on_removal a)
            (λ _. by_when _ (λ _. ends_on_down i a) (λ _. by_pure tt tt)))

  ends_adna_at : (i : ℕ) → Keeps IsSound (adna_at p o i) Any
  unfolding adna_at
  ends_adna_at i = then_do (by_gets _) λ found _. by_lift _ (deref-Halts found)

  ends_refresh : (d : ℕ) → Keeps IsSound (refresh_device_cache p o d) Any
  unfolding refresh_device_cache
  ends_refresh d = then_do (keeps_device_at d) λ device _. then_do (by_gets _) λ read _.
      then_do (keeps_store_cached d _ _) λ _ _.
        by_when read.0 (λ _. by_pure _ tt) (λ _. then_do (keeps_emit p _) λ _ _. by_pure _ tt)

  ends_check_port : (i d : ℕ) → Keeps IsSound (check_port p o i d) Any
  unfolding check_port
  ends_check_port i d = then_do (ends_adna_at i) λ a _. then_do (keeps_device_at d) λ device _.
      by_when _ (λ _. by_pure tt tt)
        (λ _. then_do (ends_refresh _) λ _ _.
          then_do {Q = Halts Any} (by_gets_that p reads o _ (λ s. pci_dl_active-Halts p s.hw _))
            λ up h1. then_do (by_lift up h1) λ is_linkup _.
              then_do {Q = Halts Any}
                (by_gets_that p reads o _ (λ s. hub_alive-Halts (s.topology) device))
                λ alive h2. then_do (by_lift alive h2) λ is_hubup _. then_do (keeps_emit p _) λ _ _.
                  then_do (ends_put_adna i _) λ _ _.
                    then_do {Q = Halts Any}
                      (by_gets_that p reads o _ (λ s. pci_check_link_cap-Halts p s.hw _))
                      λ state h3. then_do (by_lift state h3) λ link_state _.
                        then_do (ends_react i d _ is_linkup is_hubup) λ _ _. keeps_emit p _)

  ends_check_adna : (i : ℕ) → Keeps IsSound (check_adna p o i) Any
  unfolding check_adna
  ends_check_adna i = then_do (ends_adna_at i) λ a _.
      by_when _ (λ _. keeps_emit p _)
        (λ _. then_do (by_gets _) λ ds _. keeps_for_all p reads o _ (ends_check_port i) ds)

  ends_adna_loop : (n i : ℕ) → Keeps IsSound (adna_loop p o n i) Any
  unfolding adna_loop
  ends_adna_loop zero i = by_pure tt tt
  ends_adna_loop (suc n) i = then_do (ends_check_adna i) λ _ _. ends_adna_loop n (i + 1)

  ends_tick : (junk : PciFilter) → Keeps IsSound (adna_timer_callback p o junk) Any
  unfolding adna_timer_callback
  ends_tick junk =
      then_do (by_modify _ λ s h. record { headers = h.headers; flat = h.flat; listed = tt }) λ _ _.
        then_do (ends_adna_pci_process p reads o junk plain) λ status _.
          by_when _ (λ _. by_exit status)
            (λ _.
              then_do (by_gets _) λ n _. then_do (ends_adna_loop n 0) λ _ _. ends_cleanup p reads o)

  ends_main : (junk : PciFilter) (junks : List PciFilter) → Keeps IsSound (main p o junk junks) Any
  unfolding main main_start ticks
  ends_main junk junks =
      then_do
        (then_do (ends_adna_pci_process p reads o junk plain) λ status _.
          by_when _ (λ _. by_exit 1)
            (λ _. then_do (by_modify _ λ s h. IsSound-same s _ refl refl h) λ _ _. keeps_emit p _))
        λ _ _.
          then_do (keeps_for_all p reads o _ ends_tick junks)
            λ _ _. then_do (by_gets _) λ errors _. by_pure _ tt

  start-IsSound : (h : H) → IsSound (start h)
  start-IsSound h = record { headers = λ i d e. cc; flat = start-IsFlat; listed = tt }

  -- Whatever the hardware and the file system answer, and over any number of ticks, the program
  -- never gets stuck in a loop: each tick returns, exits, or dies of a NULL pointer, an index
  -- outside its buffer or the like. All the while the heap stays sound: every device has a
  -- well-formed cache with its standard header, no bridge but the host's has a child, and every
  -- listed device is in the heap. It is assumed that the library reads blocks whole, and the path
  -- of bridges is not asked for.
  pub main_ends :
      (junk : PciFilter) (junks : List PciFilter) (h : H)
      → ((main p o junk junks (start h)).0 ≢ diverged) × IsSound (main p o junk junks (start h)).1
  main_ends junk junks h = run_ends (ends_main junk junks) (start h) (start-IsSound h)
