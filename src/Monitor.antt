-- ===== src/Monitor.antt =====
-- The monitor: what a timer tick does (adna.c: refresh_device_cache, adna_timer_callback,
-- adna_set_init_flag, adna_get_errors) and the life of the process (main.c: main).
pub mod Decide
pub mod Timer
pub mod Ends
use adnacom_hotplug.Common.{
  ℕ, zero, suc, ◌+◌, Bool, true, false, ◌&&◌, ◌||◌, not, Option, none, some, List, [], ◌∷◌, ◌++◌,
  ltb, leb, ◌==◌, if◌then◌else◌, get_elem?, set, length, Outcome, ok, fault, deref,
}
use adnacom_hotplug.Common.Int.{to_u32}
use adnacom_hotplug.Common.Text.{Text, codes, hex_width, dec_int}
use adnacom_hotplug.Pci.{PciDev, PciFilter}
use adnacom_hotplug.Platform.{Platform, Effect, print, print_err, sleep, set_timer}
use adnacom_hotplug.Config.{Device}
use adnacom_hotplug.Link.{pci_dl_active, pci_check_link_cap}
use adnacom_hotplug.Topology.{pci_is_hub_alive}
use adnacom_hotplug.Machine.{
  AdnaDevice, Sys, M, ◌>>=◌, ◌>>◌, when◌then◌else◌, pure, lift, gets, exit, skip, modify, for_all,
  device_at, store_cached, emit,
}
use adnacom_hotplug.Ports.{
  snprintf, disable_port, enable_port, remove_downstream, rescan_pci, settimer100ms, stoptimer,
}
use adnacom_hotplug.Show.{Options, show_verbose}
use adnacom_hotplug.Scan.{adna_pci_process, adna_pacc_cleanup}

-- "%02x:%02x.%d", in a buffer of 10 bytes
unfoldable pub bdf : PciFilter → Text
unfolding hex_width codes dec_int
bdf f = snprintf 10 (
    hex_width 2 (to_u32 f.bus)
    ++ (codes ":" ++ (hex_width 2 (to_u32 f.slot) ++ (codes "." ++ dec_int f.func))))

-- The counters after one look at the port: each counts the looks that found its side down.
unfoldable pub count_down : Bool → Bool → AdnaDevice → AdnaDevice
count_down is_linkup is_hubup a = record a {
  link_down_cnt = if is_linkup then a.link_down_cnt else a.link_down_cnt + 1;
  hub_down_cnt = if is_hubup then a.hub_down_cnt else a.hub_down_cnt + 1;
}

-- `(10 <= a->link_down_cnt) || (10 <= a->hub_down_cnt)`
abbrev pub is_due : AdnaDevice → Bool
is_due a = leb 10 a.link_down_cnt || leb 10 a.hub_down_cnt

unfoldable pub clear_counts : AdnaDevice → AdnaDevice
clear_counts a = record a { link_down_cnt = 0; hub_down_cnt = 0 }

module _ {H : Type 0} (p : Platform H) (o : Options) where
  abbrev pub tell : Text → M H (Unit {0})
  tell text = emit p (print text)

  -- `a`, the device of the list at place `i`.
  unfoldable pub adna_at : ℕ → M H AdnaDevice
  adna_at i = gets (λ s. get_elem? (s.first_adna) i) >>= λ found. lift (deref found)

  unfoldable pub put_adna : ℕ → AdnaDevice → M H (Unit {0})
  put_adna i a = modify λ s. record s { first_adna = set (s.first_adna) i a }

  -- The configuration space is read again into the library's cache, which every device of the list
  -- has from its scan on; a failure is reported, and the callback does not look at the result.
  unfoldable pub refresh_device_cache : ℕ → M H Bool
  refresh_device_cache d = device_at d >>= λ device.
      gets (λ s. p.read_block s.hw (device.dev) 0 256) >>= λ read.
      store_cached d 0 (read.1)
      >> (when read.0
          then pure true
          else emit p (print_err (codes "error reading pci device config!\n")) >>= λ _. pure false)

  -- The link is up and nothing behind the port is known: look for what was plugged in.
  unfoldable pub on_insertion : ℕ → M H (Unit {0})
  on_insertion d =
      tell (codes ", was Down previously\n")
      >> stoptimer p
      >> rescan_pci p
      >> emit p (sleep 1)
      >> settimer100ms p
      >> show_verbose p o d

  -- The link is down and a hub is known: remove it.
  unfoldable pub on_removal : AdnaDevice → M H (Unit {0})
  on_removal a =
      tell (codes ", was Up previously\n")
      >> stoptimer p
      >> remove_downstream p a
      >> rescan_pci p
      >> emit p (sleep 1)
      >> settimer100ms p

  -- Both are down: after ten looks the port is switched off and on.
  unfoldable pub on_down : ℕ → AdnaDevice → M H (Unit {0})
  unfolding clear_counts
  on_down i a =
      when is_due a
      then tell (codes " and has been Down for 1s\n")
        >> tell (bdf a.this ++ codes " disabling/enabling port")
        >> put_adna i (clear_counts a)
        >> disable_port p (clear_counts a)
        >> enable_port p (clear_counts a)
      else skip

  -- The chain of tests on the two states of a port.
  unfoldable pub react : ℕ → ℕ → AdnaDevice → Bool → Bool → M H (Unit {0})
  unfolding on_insertion on_removal on_down
  react i d a is_linkup is_hubup =
      when is_linkup && not is_hubup
      then on_insertion d
      else when not is_linkup && is_hubup
      then on_removal a
      else when not is_linkup && not is_hubup
      then on_down i a
      else skip

  -- The body of the inner loop of the callback for the listed device `i` and the scanned device `d`.
  unfoldable pub check_port : ℕ → ℕ → M H (Unit {0})
  unfolding react adna_at put_adna refresh_device_cache
  check_port i d = adna_at i >>= λ a. device_at d >>= λ device.
      when not (p.filter_match (a.this) (device.dev))
      then skip
      else refresh_device_cache d >>= λ _. gets (λ s. pci_dl_active p (s.hw) (device.dev)) >>= λ up.
          lift up >>= λ is_linkup. gets (λ s. pci_is_hub_alive (s.topology) device) >>= λ alive.
          lift alive >>= λ is_hubup.
          tell (
            bdf (a.this)
            ++ (codes " downstream port link is "
                ++ (if is_linkup then codes "Up" else codes "Down")))
          >> let a' = count_down is_linkup is_hubup a in
            put_adna i a' >> gets (λ s. pci_check_link_cap p (s.hw) (device.dev)) >>= λ state.
            lift state >>= λ link_state. react i d a' is_linkup is_hubup >> tell (codes "\n")

  -- The body of the outer loop.
  unfoldable pub check_adna : ℕ → M H (Unit {0})
  unfolding check_port
  check_adna i = adna_at i >>= λ a.
      when a.is_d3
      then tell (bdf (a.this) ++ codes " is not Hotplug capable. Skipping device.\n")
      else gets (λ s. s.first_dev) >>= λ ds. for_all ds (check_port i)

  -- The outer loop over the places from `i` on, so many of them.
  unfoldable pub adna_loop : ℕ → ℕ → M H (Unit {0})
  unfolding check_adna
  adna_loop zero i = skip
  adna_loop (suc n) i = check_adna i >> adna_loop n (i + 1)

  unfoldable pub adna_timer_callback : PciFilter → M H (Unit {0})
  unfolding adna_loop
  adna_timer_callback junk =
      modify (λ s. record s { first_dev = [] }) >> adna_pci_process p o junk >>= λ status.
      when not (status == 0)
      then exit status
      else gets (λ s. length (s.first_adna)) >>= λ n. adna_loop n 0 >> adna_pacc_cleanup p o

  -- `main` up to its wait: the first scan, and the timer. What follows are the ticks.
  unfoldable pub main_start : PciFilter → M H (Unit {0})
  main_start junk = adna_pci_process p o junk >>= λ status.
      when not (status == 0)
      then exit 1
      else modify (λ s. record s { is_initialized = true }) >> emit p (set_timer 1 100000)

  -- The ticks that come during the wait.
  unfoldable pub ticks : List PciFilter → M H (Unit {0})
  unfolding adna_timer_callback
  ticks junks = for_all junks adna_timer_callback

  -- `main` without arguments: its exit status, when the wait ends after some ticks.
  unfoldable pub main : PciFilter → List PciFilter → M H ℕ
  unfolding main_start ticks
  main junk junks = main_start junk >>= λ _. ticks junks >>= λ _.
      gets (λ s. s.seen_errors) >>= λ errors. pure (if errors == 0 then 0 else 2)
