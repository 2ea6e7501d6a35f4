-- ===== src/SetPci/Run/Safe.antt =====
-- What setpci may do to the system: an assertion on each effect, kept by every operation that
-- writes only where it holds.
use adnacom_hotplug.Common.{
  ℕ, ◌+◌, ◌≤◌, ◌≡◌, ◌≢◌, inl, inr, refl, Bool, Bool-cases, Ends-fault, List, [], ◌∷◌, arith, ltb,
  ◌==◌, ==_iff, false, length, fault, not, ◌&&◌, true, ◌<◌, AllOf, bit_and,
}
use adnacom_hotplug.Common.Text.{Text}
use adnacom_hotplug.Pci.{PciDev, PciFilter}
use adnacom_hotplug.Platform.{Platform, Effect, print, print_err}
use adnacom_hotplug.Machine.{Sys, emit}
use adnacom_hotplug.Machine.Finishes.{
  Finishes, Done, and_then, do_pure, do_gets, do_exit, do_lift, do_modify, do_when, do_null_or,
  do_for_all,
}
use adnacom_hotplug.SetPci.{Value, Op, Group, Flags, u32}
use adnacom_hotplug.SetPci.Parse.{limit_of}
use adnacom_hotplug.SetPci.Parse.Places.{
  IsAligned, IsWidth, limit_of-Ends, low_bits-IsAligned, IsAligned-IsWidth,
}
use adnacom_hotplug.SetPci.Parse.Accepts.{IsValid}
use adnacom_hotplug.SetPci.Run.Slot.{IsTooLong}
use adnacom_hotplug.SetPci.Run.{
  read_register, register_write, new_word, merge, write_values, die, place_of, check_place, exec_op,
  run_group, execute, select_devices, slot_bytes, write_slot, filter, matches_single_device,
}

-- Each effect so far satisfies the assertion.
abbrev pub Logged : {H : Type 0} → (Effect → Type 0) → Sys H → Type 0
Logged W s = AllOf W s.trace

module _ {H : Type 0} (p : Platform H) (W : Effect → Type 0) where
  -- Each write for a list of values satisfies the assertion, whatever the words are.
  abbrev pub MayWrite : ℕ → PciDev → ℕ → List Value → Type 0
  MayWrite width dev addr [] = Unit
  MayWrite width dev addr (v ∷ vs) =
      ((x : ℕ) → W (register_write p width dev addr x)) × MayWrite width dev (addr + width) vs

  -- What an operation may write, wherever its place is found.
  abbrev pub MayRun : Flags → Op → PciDev → Type 0
  MayRun flags op dev =
      flags.demo_mode ≡ 0
      → (addr : ℕ) → (op.cap_type ≡ 0 → addr ≡ op.addr)
      → IsAligned addr op.width × (addr + op.width ≤ 0x1000)
      → MayWrite op.width dev addr op.values

not_below : (n : ℕ) → ltb n 16 ≡ false → 15 < n
not_below n h = ground arith

AllOf-filter :
    {A : Type 0} (P : A → Type 0) (f : A → Bool) (xs : List A) → AllOf P xs → AllOf P (filter f xs)
AllOf-filter P f [] h = tt
AllOf-filter P f (x ∷ xs) h = elim (Bool-cases (f x)) [
  | inl e ↦ rw e (h.0, AllOf-filter P f xs h.1)
  | inr e ↦ rw e (AllOf-filter P f xs h.1)
]

-- The calls of a run, in a log of effects that satisfy the assertion.
module _ {H : Type 0} (p : Platform H) (F : Type 0) (W : Effect → Type 0)
    (on_print : (t : Text) → W (print t)) (on_print_err : (t : Text) → W (print_err t)) where
  pub do_emit : (e : Effect) → W e → Finishes F (Logged W) (emit p e) Done
  unfolding emit
  do_emit e w = do_modify _ (λ s h. (w, h))

  pub do_die : {A : Type 0} {Q : A → Type 0} → Finishes F (Logged W) (die p {A = A}) Q
  unfolding die
  do_die = and_then (do_emit (print_err []) (on_print_err [])) (λ _ _. do_exit 1 (omega arith))

  do_read :
      (width : ℕ) (dev : PciDev) (addr : ℕ)
      → Finishes F (Logged W) (read_register p width dev addr) Done
  unfolding read_register
  do_read width dev addr = elim (Bool-cases (width == 1)) [
    | inl one ↦ rw one (do_gets _)
    | inr more ↦ elim (Bool-cases (width == 2)) [
      | inl two ↦ rw (more, two) (do_gets _)
      | inr four ↦ rw (more, four) (do_gets _)
    ]
  ]

  do_new_word :
      (width : ℕ) (dev : PciDev) (addr : ℕ) (v : Value)
      → IsWidth width
      → Finishes F (Logged W) (new_word p width dev addr v) Done
  unfolding new_word
  do_new_word width dev addr v w =
      and_then
        (do_lift (limit_of width)
          (Ends-fault ⊥ F _ (limit_of width) (λ x. absurd x) (limit_of-Ends width w)))
        λ lim _.
          do_when (bit_and v.mask lim == lim) (λ _. do_pure v.value tt)
            (λ _. and_then (do_read width dev addr) (λ y _. do_pure (merge y v) tt))

  do_write_values :
      (flags : Flags) (width : ℕ) (dev : PciDev) (addr : ℕ) (vs : List Value)
      → IsWidth width
      → (flags.demo_mode ≡ 0 → MayWrite p W width dev addr vs)
      → Finishes F (Logged W) (write_values p flags width dev addr vs) Done
  unfolding write_values
  do_write_values flags width dev addr [] w may = do_pure tt tt
  do_write_values flags width dev addr (v ∷ vs) w may =
      and_then (do_new_word width dev addr v w) λ x _.
        and_then
          (do_when (flags.demo_mode == 0) (λ e. do_emit _ ((may ((==_iff _ 0).0 e)).0 x))
            (λ _. do_pure tt tt))
          λ _ _. do_write_values flags width dev (addr + width) vs w (λ e. (may e).1)

  -- The place of an operation, and what both checks establish of it.
  do_write_slot :
      (dev : PciDev) → (IsTooLong dev → F) → Finishes F (Logged W) (write_slot p dev) Done
  unfolding write_slot
  do_write_slot dev long =
      do_when (ltb (length (slot_bytes dev)) 16) (λ _. do_pure tt tt)
        (λ over. do_lift fault (long (not_below (length (slot_bytes dev)) over)))

  IsPlace : Op → ℕ → Type 0
  IsPlace op addr = op.cap_type ≡ 0 → addr ≡ op.addr

  do_place_of : (op : Op) (dev : PciDev) → Finishes F (Logged W) (place_of p op dev) (IsPlace op)
  unfolding place_of IsPlace
  do_place_of op dev =
      do_when (op.cap_type == 0) (λ _. do_pure op.addr (λ _. refl))
        λ cap. and_then (do_gets _) λ found _.
          do_null_or found (λ _. do_die) (λ a _. do_pure (a + op.addr) (λ e. ground arith))

  abbrev pub Fits : ℕ → ℕ → Type 0
  Fits addr width = IsAligned addr width × (addr + width ≤ 0x1000)

  do_check_place :
      (addr width : ℕ)
      → IsWidth width
      → width ≢ 0
      → Finishes F (Logged W) (check_place p width addr) (λ _. Fits addr width)
  unfolding check_place
  do_check_place addr width w nonzero =
      do_when (bit_and addr (u32 (width + 0xffff_ffff)) == 0)
        (λ low.
          do_when (ltb 0x1000 (addr + width)) (λ _. do_die)
            (λ fits. do_pure tt (low_bits-IsAligned addr width w nonzero low, ground arith)))
        (λ _. do_die)

  pub do_exec_op :
      (flags : Flags) (op : Op) (dev : PciDev)
      → (IsTooLong dev → F)
      → IsValid op
      → MayRun p W flags op dev
      → Finishes F (Logged W) (exec_op p flags op dev) Done
  unfolding exec_op IsPlace
  do_exec_op flags op dev long v may =
      let (w, nonzero) = IsAligned-IsWidth op.addr op.width v.aligned in
      and_then (do_write_slot dev long) λ _ _. and_then (do_place_of op dev) λ addr place.
        and_then (do_check_place addr op.width w nonzero) λ _ fits.
          do_when (op.num_values == 0)
            (λ _. and_then (do_read op.width dev addr) λ x _. do_emit _ (on_print _))
            (λ _.
              do_write_values flags op.width dev addr op.values w
                (λ live. may live addr place fits))

  -- What the devices of a group may be: those of a scan, and the one that its filter names in full.
  abbrev pub MayName : PciFilter → Type 0
  MayName f =
      matches_single_device f ≡ true → IsTooLong (p.get_dev f.domain f.bus f.slot f.func) → F

  select_devices-AllOf :
      (scan : Bool) (scanned : List PciDev) (f : PciFilter)
      → AllOf (λ dev. IsTooLong dev → F) scanned
      → MayName f
      → AllOf (λ dev. IsTooLong dev → F) (select_devices p scan scanned f)
  unfolding select_devices
  select_devices-AllOf scan scanned f all one =
      elim (Bool-cases (not scan && matches_single_device f)) [
        | inl single ↦ rw single (
            AllOf-filter (λ dev. IsTooLong dev → F) (p.filter_match f)
              (p.get_dev f.domain f.bus f.slot f.func ∷ []) (one (ground arith), tt))
        | inr listed ↦ rw listed (AllOf-filter _ (p.filter_match f) scanned all)
      ]

  abbrev pub MayDo : Flags → Group → Type 0
  MayDo flags g =
      AllOf (λ op. IsValid op × ((dev : PciDev) → MayRun p W flags op dev)) g.ops × MayName g.filter

  pub do_execute :
      (flags : Flags) (scan : Bool) (scanned : List PciDev) (groups : List Group)
      → AllOf (λ dev. IsTooLong dev → F) scanned
      → AllOf (MayDo flags) groups
      → Finishes F (Logged W) (execute p flags scan scanned groups) Done
  unfolding execute run_group
  do_execute flags scan scanned groups all h =
      do_for_all (MayDo flags) _
        (λ g may. and_then (do_when _ (λ _. do_emit _ (on_print_err _)) (λ _. do_pure tt tt)) λ _ _.
          do_for_all (λ dev. IsTooLong dev → F) _
            (λ dev long.
              do_for_all (λ op. IsValid op × ((dev : PciDev) → MayRun p W flags op dev)) _
                (λ op ok_op. do_exec_op flags op dev long ok_op.0 (ok_op.1 dev)) g.ops may.0)
            (select_devices p scan scanned g.filter)
            (select_devices-AllOf scan scanned g.filter all may.1))
        groups h
