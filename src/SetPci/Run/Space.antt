-- ===== src/SetPci/Run/Space.antt =====
-- Which registers the operations of setpci write.
use adnacom_hotplug.Common.{
  ℕ, ◌+◌, ◌*◌, ◌%◌, ◌^◌, ◌-◌, ok, ◌≤◌, ◌<◌, ◌≡◌, inl, inr, List, [], ◌∷◌, arith, AllOf, length, max,
}
use adnacom_hotplug.Common.Text.{Text}
use adnacom_hotplug.Pci.{PciDev}
use adnacom_hotplug.Platform.{
  Platform, Effect, print, print_err, write_byte, write_word, write_long, write_file, store_reg,
  cleanup, sleep, set_timer,
}
use adnacom_hotplug.Machine.{Sys}
use adnacom_hotplug.Machine.Finishes.{Finished, Done}
use adnacom_hotplug.SetPci.{Value, Op, Flags}
use adnacom_hotplug.SetPci.Parse.{parse_op}
use adnacom_hotplug.SetPci.Parse.Places.{IsAligned, IsAligned-next}
use adnacom_hotplug.SetPci.Parse.Accepts.{IsValid, parse_op-IsValid}
use adnacom_hotplug.SetPci.Run.{register_write, exec_op}
use adnacom_hotplug.SetPci.Run.Safe.{do_exec_op, MayWrite}
use adnacom_hotplug.SetPci.Run.Slot.{IsTooLong, slot-fits}

-- Output, and aligned writes of registers.
abbrev pub Aligns : Effect → Type 0
Aligns (print t) = Unit
Aligns (print_err t) = Unit
Aligns (write_byte d a v) = Unit
Aligns (write_word d a v) = a % 2 ≡ 0
Aligns (write_long d a v) = a % 4 ≡ 0
Aligns (write_file n t) = ⊥
Aligns (store_reg n a v) = ⊥
Aligns cleanup = ⊥
Aligns (sleep n) = ⊥
Aligns (set_timer a b) = ⊥

-- Those that end within the 4096 bytes of a configuration space.
abbrev pub StaysInSpace : Effect → Type 0
StaysInSpace (print t) = Unit
StaysInSpace (print_err t) = Unit
StaysInSpace (write_byte d a v) = a < 0x1000
StaysInSpace (write_word d a v) = (a % 2 ≡ 0) × (a + 2 ≤ 0x1000)
StaysInSpace (write_long d a v) = (a % 4 ≡ 0) × (a + 4 ≤ 0x1000)
StaysInSpace (write_file n t) = ⊥
StaysInSpace (store_reg n a v) = ⊥
StaysInSpace cleanup = ⊥
StaysInSpace (sleep n) = ⊥
StaysInSpace (set_timer a b) = ⊥

-- Output alone.
abbrev pub IsOutput : Effect → Type 0
IsOutput (print t) = Unit
IsOutput (print_err t) = Unit
IsOutput (write_byte d a v) = ⊥
IsOutput (write_word d a v) = ⊥
IsOutput (write_long d a v) = ⊥
IsOutput (write_file n t) = ⊥
IsOutput (store_reg n a v) = ⊥
IsOutput cleanup = ⊥
IsOutput (sleep n) = ⊥
IsOutput (set_timer a b) = ⊥

mul_mono : (w a b : ℕ) → a ≤ b → w * a ≤ w * b
mul_mono w a b h = grind arith

module _ {H : Type 0} (p : Platform H) where
  write_Aligns :
      (width : ℕ) (dev : PciDev) (addr x : ℕ)
      → IsAligned addr width
      → Aligns (register_write p width dev addr x)
  write_Aligns width dev addr x (inl one) = rw one tt
  write_Aligns width dev addr x (inr (inl (two, even))) = rw two even
  write_Aligns width dev addr x (inr (inr (four, even))) = rw four even

  pub writes_Align :
      (width : ℕ) (dev : PciDev) (addr : ℕ) (vs : List Value)
      → IsAligned addr width
      → MayWrite p Aligns width dev addr vs
  writes_Align width dev addr [] a = tt
  writes_Align width dev addr (v ∷ vs) a = (
    λ x. write_Aligns width dev addr x a,
    writes_Align width dev (addr + width) vs (IsAligned-next addr width a),
  )

  write_StaysInSpace :
      (width : ℕ) (dev : PciDev) (addr x : ℕ)
      → IsAligned addr width
      → addr + width ≤ 0x1000
      → StaysInSpace (register_write p width dev addr x)
  write_StaysInSpace width dev addr x (inl one) fits = rw one (omega arith)
  write_StaysInSpace width dev addr x (inr (inl (two, even))) fits = rw two (even, omega arith)
  write_StaysInSpace width dev addr x (inr (inr (four, even))) fits = rw four (even, omega arith)

  writes_StayInSpace :
      (width : ℕ) (dev : PciDev) (addr : ℕ) (vs : List Value)
      → IsAligned addr width
      → addr + width * length vs ≤ 0x1000
      → MayWrite p StaysInSpace width dev addr vs
  writes_StayInSpace width dev addr [] a fits = tt
  writes_StayInSpace width dev addr (v ∷ vs) a fits = (
    λ x. write_StaysInSpace width dev addr x a (omega arith),
    writes_StayInSpace width dev (addr + width) vs (IsAligned-next addr width a) (omega arith),
  )

  -- A valid operation that names no capability, on a device whose address fits its buffer, comes to an end without a fault, whatever the device
  -- answers, and adds only output and aligned writes inside the space.
  exec_op-StaysInSpace :
      (flags : Flags) (op : Op) (dev : PciDev) (s : Sys H)
      → IsValid op
      → op.cap_type ≡ 0
      → ¬ IsTooLong dev
      → AllOf StaysInSpace s.trace
      → Finished ⊥ Done (exec_op p flags op dev s).0
        × AllOf StaysInSpace (exec_op p flags op dev s).1.trace
  exec_op-StaysInSpace flags op dev s v plain short before =
      let more = mul_mono op.width op.num_values (max 1 op.num_values) (omega arith) in
      (do_exec_op p ⊥ StaysInSpace (λ _. tt) (λ _. tt) flags op dev short v
          (λ live addr place fits.
            writes_StayInSpace op.width dev addr op.values fits.0
              (rw (place plain, v.counted) (omega (arith, more, v))))).run
        s before

  -- An operation that is read from a text of fewer than 2^28 - 1 characters, and names no capability,
  -- comes to an end without undefined behaviour on a device whose domain, bus, device and function
  -- numbers have at most 28, 8, 5 and 3 bits, whatever it answers. It adds to the log only output, and
  -- writes of registers at a multiple of their width that end within the 4096 bytes of the space.
  pub parse_op-exec_op :
      (c : Text) (op : Op) (flags : Flags) (dev : PciDev) (s : Sys H)
      → length c < 2 ^ 28 - 1
      → parse_op c ≡ ok op
      → op.cap_type ≡ 0
      → dev.domain < 2 ^ 28
      → dev.bus < 256
      → dev.dev < 32
      → dev.func < 8
      → AllOf StaysInSpace s.trace
      → Finished ⊥ Done (exec_op p flags op dev s).0
        × AllOf StaysInSpace (exec_op p flags op dev s).1.trace
  parse_op-exec_op c op flags dev s short accepted plain domain bus slot func =
      exec_op-StaysInSpace flags op dev s (rw accepted at (parse_op-IsValid c short)) plain
        (slot-fits dev domain bus slot func)
