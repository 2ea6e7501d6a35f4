-- ===== src/Monitor/Timer.antt =====
-- The interval timer, and the removals of devices and rescans of the bus (the calls of stoptimer and
-- settimer100ms in adna_timer_callback, and of write in remove_downstream and rescan_pci). Other
-- writes, to registers and to the configuration space, are allowed while the timer runs.
use adnacom_hotplug.Common.{
  ◌≡◌, ◌⊎◌, inl, inr, refl, ℕ, zero, suc, ◌+◌, Bool, true, false, not, ◌==◌, List, [], ◌∷◌, ok,
}
use adnacom_hotplug.Common.Text.{Text}
use adnacom_hotplug.Pci.{PciFilter}
use adnacom_hotplug.Platform.{
  Platform, Effect, print, print_err, write_file, store_reg, write_byte, write_word, write_long,
  cleanup, sleep, set_timer,
}
use adnacom_hotplug.Link.{LinkState}
use adnacom_hotplug.Machine.{AdnaDevice, Sys, start, emit}
use adnacom_hotplug.Machine.Rules.{
  Log, Triple, always, returned, bind, keep_pure, keep_gets, keep_modify, keep_if, keep_lift,
  keep_exit, keep_for_all, keep_device_at, keep_store_cached, emit-Triple, IsPlain,
}
use adnacom_hotplug.Ports.{
  Access, print_error, load_mapped, store_mapped, require, pcimem, disable_port, enable_port,
  write_one, pci_get_remove, rescan_file, remove_downstream, rescan_pci, settimer100ms, stoptimer,
}
use adnacom_hotplug.Show.{Options}
use adnacom_hotplug.Show.Plain.{keep_show_verbose}
use adnacom_hotplug.Scan.Plain.{keep_cleanup, keep_adna_pci_process}
use adnacom_hotplug.Monitor.{
  tell, adna_at, put_adna, refresh_device_cache, on_insertion, on_removal, on_down, react,
  check_port, check_adna, adna_loop, adna_timer_callback, main_start, ticks, main,
}

-- The timer runs if the latest `setitimer` gave it a first expiry.
abbrev pub is_armed : List Effect → Bool
is_armed [] = false
is_armed (set_timer first again ∷ t) = not (first == 0)
is_armed (print text ∷ t) = is_armed t
is_armed (print_err text ∷ t) = is_armed t
is_armed (write_file name text ∷ t) = is_armed t
is_armed (store_reg name reg v ∷ t) = is_armed t
is_armed (write_byte d pos v ∷ t) = is_armed t
is_armed (write_word d pos v ∷ t) = is_armed t
is_armed (write_long d pos v ∷ t) = is_armed t
is_armed (cleanup ∷ t) = is_armed t
is_armed (sleep n ∷ t) = is_armed t

-- The files by which the kernel removes a device and rescans the bus.
abbrev pub IsChange : Text → Type 0
IsChange name = ((f : PciFilter) × (name ≡ pci_get_remove f)) ⊎ (name ≡ rescan_file)

-- Every `write` was to one of these files, and was done while the timer was off. The configuration
-- space and mapped registers are not written by `write`, and nothing is said of them here.
abbrev pub IsOrderly : List Effect → Type 0
IsOrderly [] = Unit
IsOrderly (write_file name text ∷ t) = IsChange name × (is_armed t ≡ false) × IsOrderly t
IsOrderly (set_timer first again ∷ t) = IsOrderly t
IsOrderly (print text ∷ t) = IsOrderly t
IsOrderly (print_err text ∷ t) = IsOrderly t
IsOrderly (store_reg name reg v ∷ t) = IsOrderly t
IsOrderly (write_byte d pos v ∷ t) = IsOrderly t
IsOrderly (write_word d pos v ∷ t) = IsOrderly t
IsOrderly (write_long d pos v ∷ t) = IsOrderly t
IsOrderly (cleanup ∷ t) = IsOrderly t
IsOrderly (sleep n ∷ t) = IsOrderly t

abbrev pub Timed : Bool → Log
Timed b t = IsOrderly t × (is_armed t ≡ b)

ends : (b : Bool) (t : List Effect) → Timed b t → IsOrderly t
ends b t h = h.0

Timed-IsPlain : (b : Bool) → IsPlain IsOrderly (Timed b)
Timed-IsPlain b = record {
  early = ends b;
  on_print = λ text t h. h;
  on_print_err = λ text t h. h;
  on_write_byte = λ d cmd t h. h;
  on_cleanup = λ t h. h;
}

module _ {H : Type 0} (p : Platform H) (b : Bool) where
  -- Errors, registers and waits are allowed at any time.
  timed-print_error : {A : Type 0} → Triple IsOrderly (Timed b) (print_error p {A = A}) (Timed b)
  unfolding print_error
  timed-print_error = bind (emit-Triple (ends b) p _ λ t h. h) λ _. keep_exit (ends b) 1

  timed-require : (test : H → Bool) → Triple IsOrderly (Timed b) (require p test) (Timed b)
  unfolding require
  timed-require test =
      bind (keep_gets (Timed b) _) λ good. keep_if good (keep_pure (Timed b) tt) timed-print_error

  timed_load :
      (filename : Text) (reg base size : ℕ)
      → Triple IsOrderly (Timed b) (load_mapped p filename reg base size) (Timed b)
  unfolding load_mapped
  timed_load filename reg base size = keep_if _ (keep_gets (Timed b) _) (keep_lift (ends b) _)

  timed_store :
      (filename : Text) (reg base size v : ℕ)
      → Triple IsOrderly (Timed b) (store_mapped p filename reg base size v) (Timed b)
  unfolding store_mapped
  timed_store filename reg base size v =
      keep_if _ (emit-Triple (ends b) p _ λ t h. h) (keep_lift (ends b) _)

  timed-pcimem :
      (access : Access) (f : PciFilter) (reg v : ℕ)
      → Triple IsOrderly (Timed b) (pcimem p access f reg v) (Timed b)
  unfolding pcimem
  timed-pcimem access f reg v = bind (timed-require _) λ _. bind (timed-require _) λ _.
      bind (timed_load _ _ _ _) λ before.
        bind
          (keep_if _ (bind (timed_store _ _ _ _ _) λ _. timed_load _ _ _ _) (keep_pure (Timed b) _))
          λ _. bind (timed-require _) λ _. keep_pure (Timed b) _

  timed-disable_port : (a : AdnaDevice) → Triple IsOrderly (Timed b) (disable_port p a) (Timed b)
  unfolding disable_port
  timed-disable_port a = bind (keep_lift (ends b) _) λ (parent : PciFilter).
      bind (timed-pcimem _ parent _ _)
        λ control. bind (timed-pcimem _ parent _ _) λ _. keep_pure (Timed b) tt

  timed-enable_port : (a : AdnaDevice) → Triple IsOrderly (Timed b) (enable_port p a) (Timed b)
  unfolding enable_port
  timed-enable_port a = bind (keep_lift (ends b) _) λ (parent : PciFilter).
      bind (timed-pcimem _ parent _ _)
        λ control. bind (timed-pcimem _ parent _ _) λ _. keep_pure (Timed b) tt

  timed_sleep : (n : ℕ) → Triple IsOrderly (Timed b) (emit p (sleep n)) (Timed b)
  timed_sleep n = emit-Triple (ends b) p _ λ t h. h

  -- The timer may be set or stopped at any time.
  timer_set : Triple IsOrderly (Timed b) (settimer100ms p) (Timed true)
  unfolding settimer100ms
  timer_set = emit-Triple (ends b) p _ λ t h. (h.0, refl)

  timer_stopped : Triple IsOrderly (Timed b) (stoptimer p) (Timed false)
  unfolding stoptimer
  timer_stopped = emit-Triple (ends b) p _ λ t h. (h.0, refl)

module _ {H : Type 0} (p : Platform H) where
  -- A file is written with the timer off.
  off_write_one :
      (filename : Text)
      → IsChange filename
      → Triple IsOrderly (Timed false) (write_one p filename) (Timed false)
  unfolding write_one
  off_write_one filename change = bind (timed-require p false _) λ _.
      bind (timed-require p false _)
        λ _. emit-Triple (ends false) p _ λ t h. ((change, h.1, h.0), h.1)

  off_remove :
      (a : AdnaDevice) → Triple IsOrderly (Timed false) (remove_downstream p a) (Timed false)
  unfolding remove_downstream
  off_remove a = off_write_one _ (inl (a.this, refl))

  off_rescan : Triple IsOrderly (Timed false) (rescan_pci p) (Timed false)
  unfolding rescan_pci
  off_rescan = bind (off_write_one _ (inr refl)) λ _. timed_sleep p false 1

abbrev On : Log
On = Timed true

module _ {H : Type 0} (p : Platform H) (o : Options) where
  tells : (text : Text) → Triple IsOrderly On (tell p o text) On
  tells text = emit-Triple (ends true) p _ λ t h. h

  keep_on_insertion : (d : ℕ) → Triple IsOrderly On (on_insertion p o d) On
  unfolding on_insertion
  keep_on_insertion d = bind (tells _) λ _. bind (timer_stopped p true) λ _.
      bind (off_rescan p) λ _.
        bind (timed_sleep p false 1)
          λ _. bind (timer_set p false) λ _. keep_show_verbose p o (Timed-IsPlain true) d

  keep_on_removal : (a : AdnaDevice) → Triple IsOrderly On (on_removal p o a) On
  unfolding on_removal
  keep_on_removal a = bind (tells _) λ _. bind (timer_stopped p true) λ _.
      bind (off_remove p a)
        λ _. bind (off_rescan p) λ _. bind (timed_sleep p false 1) λ _. timer_set p false

  keep_put_adna : (i : ℕ) (a : AdnaDevice) → Triple IsOrderly On (put_adna p o i a) On
  unfolding put_adna
  keep_put_adna i a = keep_modify On _ λ s. refl

  keep_on_down : (i : ℕ) (a : AdnaDevice) → Triple IsOrderly On (on_down p o i a) On
  unfolding on_down
  keep_on_down i a =
      keep_if _
        (bind (tells _) λ _. bind (tells _) λ _.
          bind (keep_put_adna i _)
            λ _. bind (timed-disable_port p true _) λ _. timed-enable_port p true _)
        (keep_pure On tt)

  keep_react :
      (i d : ℕ) (a : AdnaDevice) (is_linkup is_hubup : Bool)
      → Triple IsOrderly On (react p o i d a is_linkup is_hubup) On
  unfolding react
  keep_react i d a is_linkup is_hubup =
      keep_if _ (keep_on_insertion d)
        (keep_if _ (keep_on_removal a) (keep_if _ (keep_on_down i a) (keep_pure On tt)))

  keep_adna_at : (i : ℕ) → Triple IsOrderly On (adna_at p o i) On
  unfolding adna_at
  keep_adna_at i = bind (keep_gets On _) λ found. keep_lift (ends true) _

  keep_refresh : (d : ℕ) → Triple IsOrderly On (refresh_device_cache p o d) On
  unfolding refresh_device_cache
  keep_refresh d = bind (keep_device_at (ends true) d) λ device. bind (keep_gets On _) λ read.
      bind (keep_store_cached (ends true) p d _ _) λ _.
        keep_if read.0 (keep_pure On _)
          (bind (emit-Triple (ends true) p _ λ t h. h) λ _. keep_pure On _)

  keep_check_port : (i d : ℕ) → Triple IsOrderly On (check_port p o i d) On
  unfolding check_port
  keep_check_port i d = bind (keep_adna_at i) λ a. bind (keep_device_at (ends true) d) λ device.
      keep_if _ (keep_pure On tt) (
        bind (keep_refresh _) λ _. bind (keep_gets On _) λ up.
          bind (keep_lift (ends true) up) λ (is_linkup : Bool). bind (keep_gets On _) λ alive.
            bind (keep_lift (ends true) alive) λ (is_hubup : Bool). bind (tells _) λ _.
              bind (keep_put_adna i _) λ _. bind (keep_gets On _) λ state.
                bind (keep_lift (ends true) state) λ (link_state : LinkState).
                  bind (keep_react i d _ is_linkup is_hubup) λ _. tells _)

  keep_check_adna : (i : ℕ) → Triple IsOrderly On (check_adna p o i) On
  unfolding check_adna
  keep_check_adna i = bind (keep_adna_at i) λ a.
      keep_if _ (tells _)
        (bind (keep_gets On _) λ ds. keep_for_all (ends true) _ (keep_check_port i) ds)

  keep_adna_loop : (n i : ℕ) → Triple IsOrderly On (adna_loop p o n i) On
  unfolding adna_loop
  keep_adna_loop zero i = keep_pure On tt
  keep_adna_loop (suc n) i = bind (keep_check_adna i) λ _. keep_adna_loop n (i + 1)

  -- A tick.
  pub keep_tick : (junk : PciFilter) → Triple IsOrderly On (adna_timer_callback p o junk) On
  unfolding adna_timer_callback
  keep_tick junk = bind (keep_modify On _ λ s. refl) λ _.
      bind (keep_adna_pci_process p o (Timed-IsPlain true) junk) λ status.
        keep_if _ (keep_exit (ends true) status) (
          bind (keep_gets On _)
            λ n. bind (keep_adna_loop n 0) λ _. keep_cleanup p o (Timed-IsPlain true))

  start_timer : (junk : PciFilter) → Triple IsOrderly (Timed false) (main_start p o junk) On
  unfolding main_start
  start_timer junk = bind (keep_adna_pci_process p o (Timed-IsPlain false) junk) λ status.
      keep_if _ (keep_exit (ends false) 1) (
        bind (keep_modify (Timed false) _ λ s. refl)
          λ _. emit-Triple (ends false) p _ λ t h. (h.0, refl))

  run_main :
      (junk : PciFilter) (junks : List PciFilter)
      → Triple IsOrderly (Timed false) (main p o junk junks) On
  unfolding main ticks
  run_main junk junks = bind (start_timer junk) λ _.
      bind (keep_for_all (ends true) _ keep_tick junks)
        λ _. bind (keep_gets On _) λ errors. keep_pure On _

  -- Whatever the system answers and however the run of the program ends: each `write` that it did
  -- was to the file that removes a device or to the file that rescans the bus, and was done while
  -- the interval timer was off. Stores to mapped registers and writes to the configuration space
  -- are not meant.
  pub main-IsOrderly :
      (junk : PciFilter) (junks : List PciFilter) (h : H)
      → IsOrderly (main p o junk junks (start h)).1.trace
  main-IsOrderly junk junks h = always (run_main junk junks) (ends true) (start h) (tt, refl)

  -- A tick that returns leaves the timer running, if it ran before the tick and each `write` so far
  -- was to remove a device or to rescan the bus, with the timer off.
  pub tick_rearms :
      (junk : PciFilter) (s : Sys H) {s' : Sys H}
      → adna_timer_callback p o junk s ≡ (ok tt, s')
      → IsOrderly s.trace
      → is_armed s.trace ≡ true
      → is_armed s'.trace ≡ true
  tick_rearms junk s e orderly armed = (returned (keep_tick junk) s e (orderly, armed)).1
