-- ===== src/Monitor/Decide.antt =====
-- What the monitor decides for a port (the chain of tests in adna_timer_callback).
use adnacom_hotplug.Common.{
  ◌≡◌, refl, ℕ, zero, suc, ◌+◌, ◌-◌, ◌%◌, Bool, true, false, leb, ◌||◌, List, ◌∷◌, ◌++◌, some, set,
  ok, if◌then◌else◌, arith, Bool-cases, inl, inr, bit_or, ◌^◌,
}
use adnacom_hotplug.Common.Text.{Text, codes}
use adnacom_hotplug.Pci.{pci_command, PciDev, PciFilter}
use adnacom_hotplug.Platform.{
  Platform, Effect, print, print_err, write_file, store_reg, write_byte, cleanup, sleep, set_timer,
}
use adnacom_hotplug.Machine.{AdnaDevice, Sys, ◌>>=◌, pure, modify, when◌then◌else◌, emit}
use adnacom_hotplug.Machine.Rules.{always, IsPlain}
use adnacom_hotplug.Ports.{
  pci_get_res0, rescan_file, write_one, rescan_pci, settimer100ms, stoptimer,
}
use adnacom_hotplug.Ports.Registers.{
  after, require-true, IsUsable, HasRegisters, control, port_cycle,
}
use adnacom_hotplug.Show.{Options}
use adnacom_hotplug.Show.Plain.{keep_show_verbose}
use adnacom_hotplug.Monitor.{
  bdf, count_down, is_due, clear_counts, put_adna, on_insertion, on_down, react,
}

-- So many looks one after the other that find both sides of the port down.
abbrev pub looks : ℕ → AdnaDevice → AdnaDevice
looks zero a = a
looks (suc n) a = count_down false false (looks n a)

looks-counts :
    (n : ℕ) (a : AdnaDevice)
    → ((looks n (clear_counts a)).link_down_cnt ≡ n) × ((looks n (clear_counts a)).hub_down_cnt ≡ n)
unfolding clear_counts count_down
looks-counts zero a = (refl, refl)
looks-counts (suc n) a = omega (arith, looks-counts n a)

-- From cleared counters, a port that stays down is due for a reset after ten looks, and not before.
pub due-looks : (n : ℕ) (a : AdnaDevice) → is_due (looks n (clear_counts a)) ≡ leb 10 n
due-looks n a = rw (looks-counts n a).0 (rw (looks-counts n a).1 (or_same (leb 10 n)))
  where
    or_same : (b : Bool) → (b || b) ≡ b
    or_same true = refl
    or_same false = refl

-- What lies above `base` in a record of effects is output, a write to the command register of a
-- device that sets its three low bits, or a clean-up.
pub data PlainOver (base : List Effect) : List Effect → Type 0 where
  here : PlainOver base base
  printed : (text : Text) {t : List Effect} → PlainOver base t → PlainOver base (print text ∷ t)
  warned : (text : Text) {t : List Effect} → PlainOver base t → PlainOver base (print_err text ∷ t)
  enabled :
      (d : PciDev) (cmd : ℕ) {t : List Effect}
      → PlainOver base t
      → PlainOver base (write_byte d pci_command (bit_or cmd 0x7 % 2 ^ 8) ∷ t)
  cleaned : {t : List Effect} → PlainOver base t → PlainOver base (cleanup ∷ t)

PlainOver-IsPlain : (base : List Effect) → IsPlain (PlainOver base) (PlainOver base)
PlainOver-IsPlain base = record {
  early = λ t h. h;
  on_print = λ text t h. printed text h;
  on_print_err = λ text t h. warned text h;
  on_write_byte = λ d cmd t h. enabled d cmd h;
  on_cleanup = λ t h. cleaned h;
}

module _ {H : Type 0} (p : Platform H) where
  -- The file can be opened and written in every state of the system.
  pub record IsWritable (name : Text) : Type 0 where
    pub opens : (h : H) → p.can_open h name ≡ true
    pub writes : (h : H) → p.can_write h name ≡ true

  write_one_lem :
      (name : Text) (s : Sys H)
      → p.can_open s.hw name ≡ true
      → p.can_write s.hw name ≡ true
      → write_one p name s ≡ (ok tt, after p (write_file name (codes "1")) s)
  unfolding write_one ◌>>=◌ emit modify
  write_one_lem name s opens writes =
      rw (require-true p (λ h. p.can_open h name) s opens)
        (rw (require-true p (λ h. p.can_write h name) s writes) refl)

  -- The rescan of the bus, and the second that it waits.
  abbrev pub rescanned : Sys H → Sys H
  rescanned s = after p (sleep 1) (after p (write_file rescan_file (codes "1")) s)

  rescan_pci_lem : (s : Sys H) → IsWritable rescan_file → rescan_pci p s ≡ (ok tt, rescanned s)
  unfolding rescan_pci ◌>>=◌ emit modify
  rescan_pci_lem s w = rw (write_one_lem rescan_file s (w.opens _) (w.writes _)) refl

module _ {H : Type 0} (p : Platform H) (o : Options) where
  -- The link is up and no hub is listed: the timer is stopped, the bus scanned again and the timer
  -- started, in that order. What the display of the device then adds is output, clean-ups, and
  -- writes to command registers that switch I/O, memory and bus mastering on, however it ends. The
  -- rescan file must always be writable.
  pub insertion :
      (i d : ℕ) (a : AdnaDevice) (s : Sys H)
      → IsWritable p rescan_file
      → PlainOver
          (set_timer 1 100000
            ∷ sleep 1
            ∷ sleep 1
            ∷ write_file rescan_file (codes "1")
            ∷ set_timer 0 0
            ∷ print (codes ", was Down previously\n")
            ∷ s.trace)
          (react p o i d a true false s).1.trace
  unfolding react on_insertion stoptimer settimer100ms ◌>>=◌ emit modify when◌then◌else◌
  insertion i d a s w =
      let s1 = after p (set_timer 0 0) (after p (print (codes ", was Down previously\n")) s) in
      rw (rescan_pci_lem p s1 w) (
        always (keep_show_verbose p o (PlainOver-IsPlain _) d) (λ t h. h)
          (after p (set_timer 1 100000) (after p (sleep 1) (rescanned p s1))) here)

  abbrev pub with_adna : ℕ → AdnaDevice → Sys H → Sys H
  with_adna i a s = record s { first_adna = set (s.first_adna) i a }

  abbrev pub announced : AdnaDevice → Sys H → Sys H
  announced a s =
      after p (print (bdf a.this ++ codes " disabling/enabling port"))
        (after p (print (codes " and has been Down for 1s\n")) s)

  -- The state after a reset through the parent `f`, whose register holds `c`.
  abbrev pub was_reset : ℕ → AdnaDevice → PciFilter → ℕ → Sys H → Sys H
  was_reset i a f c s = after p (store_reg (pci_get_res0 f) 0x234 (c - c % 2)) (
      after p (store_reg (pci_get_res0 f) 0x234 (c - c % 2 + 1))
        (with_adna i (clear_counts a) (announced a s)))

  -- Both sides of a port are down. If it is due, both its counters are cleared in the list and its
  -- register is written twice, to switch it off and on with all other bits kept; else nothing
  -- changes. The parent must not be NULL and its register file be usable throughout,
  -- and the registers have 32 bits, read back what was written, and stay usable.
  pub reset_when_due :
      (laws : HasRegisters p) (i d : ℕ) (a : AdnaDevice) (f : PciFilter) (s : Sys H)
      → a.parent ≡ some f
      → ((h : H) → IsUsable p (pci_get_res0 f) h)
      → react p o i d a false false s
        ≡ (ok tt, if is_due a then was_reset i a f (control p f (announced a s)) s else s)
  unfolding react on_down when◌then◌else◌ ◌>>=◌ emit modify put_adna clear_counts pure
  reset_when_due laws i d a f s e u = elim (Bool-cases (is_due a)) [
    | inl due ↦ rw due (
        port_cycle p laws (clear_counts a) f (with_adna i (clear_counts a) (announced a s)) e (u _))
    | inr early ↦ rw early refl
  ]
