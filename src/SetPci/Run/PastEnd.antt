-- ===== src/SetPci/Run/PastEnd.antt =====
-- Operations whose values pass the end of the configuration space.
use adnacom_hotplug.Common.{
  ℕ, ◌+◌, ◌≡◌, ◌≢◌, inl, inr, refl, true, false, some, [], ◌∷◌, arith, AllOf, ok, ◌==◌, ltb, length,
  ◌^◌, ◌<◌,
}
use adnacom_hotplug.Pci.{PciDev}
use adnacom_hotplug.Platform.{Platform, Effect}
use adnacom_hotplug.Machine.{Sys, ◌>>=◌, pure, when◌then◌else◌, null_or, gets, lift, emit, modify}
use adnacom_hotplug.SetPci.{Value, Op, Flags}
use adnacom_hotplug.SetPci.Parse.Places.{IsAligned, IsAligned-next, IsAligned-low_bits}
use adnacom_hotplug.SetPci.Parse.Values.{IsMasked}
use adnacom_hotplug.SetPci.Parse.Accepts.{IsValid}
use adnacom_hotplug.SetPci.Run.{
  register_write, write_values, slot_bytes, write_slot, place_of, check_place, exec_op,
}
use adnacom_hotplug.SetPci.Run.Slot.{slot-fits}
use adnacom_hotplug.SetPci.Run.Merge.{new_word_bits}
use adnacom_hotplug.SetPci.Run.Space.{StaysInSpace}

module _ {H : Type 0} (p : Platform H) where
  abbrev after : Effect → Sys H → Sys H
  after e s = record s { hw = p.perform e s.hw; trace = e ∷ s.trace }

  -- Two values: two writes, one behind the other.
  write_two :
      (flags : Flags) (width : ℕ) (dev : PciDev) (addr : ℕ) (v w : Value) (s : Sys H)
      → IsAligned addr width
      → IsMasked v
      → IsMasked w
      → flags.demo_mode ≡ 0
      → (x y : ℕ) × (write_values p flags width dev addr (v ∷ w ∷ []) s ≡ (
        ok tt,
        after
            (register_write p width dev (addr + width) y)
            (after (register_write p width dev addr x) s),
      ))
  unfolding write_values ◌>>=◌ emit modify when◌then◌else◌ pure
  write_two flags width dev addr v w s a mv mw live =
      let (x, first, bits) = new_word_bits p width dev addr v s a mv in
      let s1 = after (register_write p width dev addr x) s in
      let (y, second, bits') =
        new_word_bits p width dev (addr + width) w s1 (IsAligned-next addr width a) mw in
      (x, y, rw (first, live) (rw second))

  last_is_outside :
      (width : ℕ) (dev : PciDev) (addr y : ℕ)
      → IsAligned addr width
      → addr + width ≡ 0x1000
      → ¬ StaysInSpace (register_write p width dev (addr + width) y)
  last_is_outside width dev addr y (inl one) end h = let outside = rw one at h in omega arith
  last_is_outside width dev addr y (inr (inl (two, even))) end h =
      let outside = rw two at h in omega arith
  last_is_outside width dev addr y (inr (inr (four, even))) end h =
      let outside = rw four at h in omega arith

  -- On a device whose domain, bus, device and function numbers have at most 28, 8, 5 and 3 bits, a
  -- valid operation with two values, behind a capability from which its first register ends with
  -- the space, is carried out, and writes its second value outside the space.
  pub exec_op_past_end :
      (flags : Flags) (op : Op) (dev : PciDev) (v w : Value) (base : ℕ) (s : Sys H)
      → dev.domain < 2 ^ 28
      → dev.bus < 256
      → dev.dev < 32
      → dev.func < 8
      → IsValid op
      → op.values ≡ v ∷ w ∷ []
      → op.cap_type ≢ 0
      → p.find_cap_nr s.hw dev op.cap_id op.cap_type op.number ≡ some base
      → IsAligned (base + op.addr) op.width
      → base + op.addr + op.width ≡ 0x1000
      → flags.demo_mode ≡ 0
      → ((exec_op p flags op dev s).0 ≡ ok tt)
        × ¬ AllOf StaysInSpace (exec_op p flags op dev s).1.trace
  unfolding exec_op write_slot place_of check_place lift ◌>>=◌ gets null_or when◌then◌else◌ pure
  exec_op_past_end flags op dev v w base s domain bus device func valid two relative found a end
        live =
      let masked = rw two at valid.masked in
      let (x, y, both) =
        write_two flags op.width dev (base + op.addr) v w s a masked.0 masked.1.0 live in
      let written : (op.num_values == 0) ≡ false =
        let n = rw two at valid.counted in ground arith in
      let named : (op.cap_type == 0) ≡ false = ground arith in
      let fits : ltb 0x1000 (base + op.addr + op.width) ≡ false = ground arith in
      let short : ltb (length (slot_bytes dev)) 16 ≡ true =
        let fits_slot = slot-fits dev domain bus device func in ground (arith, fits_slot) in
      let e : exec_op p flags op dev s ≡ (
        ok tt,
        after (register_write p op.width dev (base + op.addr + op.width) y)
            (after (register_write p op.width dev (base + op.addr) x) s),
      ) =
        rw (short, named, found, IsAligned-low_bits (base + op.addr) op.width a, fits, written, two)
          both in
      rw e (refl, λ inside. last_is_outside op.width dev (base + op.addr) y a end inside.0)
