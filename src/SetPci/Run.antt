-- ===== src/SetPci/Run.antt =====
-- How setpci carries out its operations (src/setpci.c: select_devices, exec_op, execute, scan_ops).
-- What `trace` would print is left out: its output is commented out in the program.
pub mod Merge
pub mod Slot
pub mod Safe
pub mod Space
pub mod PastEnd
use adnacom_hotplug.Common.{
  ℕ, ◌+◌, ◌*◌, ◌%◌, ◌^◌, Bool, true, false, ◌&&◌, ◌||◌, not, Option, none, some, List, [], ◌∷◌,
  ◌++◌, map, ltb, ◌==◌, if◌then◌else◌, get_elem?, bit_and, bit_or, Outcome, length, fault,
}
use adnacom_hotplug.Common.Int.{is_nonneg}
use adnacom_hotplug.Common.Text.{Text, codes, hex, hex_width}
use adnacom_hotplug.Pci.{PciDev, PciFilter}
use adnacom_hotplug.Platform.{
  Platform, Effect, print, print_err, write_byte, write_word, write_long,
}
use adnacom_hotplug.Machine.{
  Sys, M, ◌>>=◌, ◌>>◌, pure, when◌then◌else◌, null_or, lift, gets, exit, skip, for_all, emit,
}
use adnacom_hotplug.SetPci.{Value, Op, Group, Flags, u32, complement}
use adnacom_hotplug.SetPci.Parse.{limit_of}

abbrev pub filter : {A : Type 0} → (A → Bool) → List A → List A
filter p [] = []
filter p (x ∷ xs) = if p x then x ∷ filter p xs else filter p xs

abbrev pub any : {A : Type 0} → (A → Bool) → List A → Bool
any p [] = false
any p (x ∷ xs) = p x || any p xs

abbrev pub is_empty : {A : Type 0} → List A → Bool
is_empty [] = true
is_empty (x ∷ xs) = false

unfoldable pub matches_single_device : PciFilter → Bool
matches_single_device f =
    is_nonneg f.domain && (is_nonneg f.bus && (is_nonneg f.slot && is_nonneg f.func))

-- `need_bus_scan` as `scan_ops` leaves it.
unfoldable pub needs_scan : Flags → List Group → Bool
unfolding matches_single_device
needs_scan flags groups =
    any (λ g. any (λ op. not (matches_single_device g.filter) || flags.allow_raw_access == 0) g.ops)
      groups

-- `pacc->writeable`, which is clear before.
unfoldable pub writeable : Flags → List Group → Bool
writeable flags groups =
    any (λ g. any (λ op. not (op.num_values == 0) && flags.demo_mode == 0) g.ops) groups

-- The word that is written over `y`: the bits of the mask come from the value, the others from `y`.
unfoldable pub merge : ℕ → Value → ℕ
merge y v = bit_or (bit_and y (complement v.mask)) v.value

-- `sprintf(slot, "%04x:%02x:%02x.%x", ...)`
unfoldable pub slot_bytes : PciDev → Text
unfolding hex_width hex codes
slot_bytes dev =
    hex_width 4 dev.domain
    ++ (codes ":"
        ++ (hex_width 2 dev.bus
            ++ (codes ":" ++ (hex_width 2 dev.dev ++ (codes "." ++ hex dev.func)))))

module _ {H : Type 0} (p : Platform H) where
  -- The devices of an operation group: `scanned` are those of a bus scan. The library's filter looks
  -- at the numbers and ids of a device, which are the fields of `PciDev` and do not change.
  unfoldable pub select_devices : Bool → List PciDev → PciFilter → List PciDev
  unfolding matches_single_device
  select_devices scan scanned f =
      if not scan && matches_single_device f
      then filter (p.filter_match f) (p.get_dev f.domain f.bus f.slot f.func ∷ [])
      else filter (p.filter_match f) scanned

  -- The three reads and writes. A write takes the low bytes of the word that it is given.
  unfoldable pub read_register : ℕ → PciDev → ℕ → M H ℕ
  read_register width dev addr =
      if width == 1
      then gets (λ s. p.read_byte s.hw dev addr)
      else if width == 2
      then gets (λ s. p.read_word s.hw dev addr)
      else gets (λ s. p.read_long s.hw dev addr)

  abbrev pub register_write : ℕ → PciDev → ℕ → ℕ → Effect
  register_write width dev addr x =
      if width == 1
      then write_byte dev addr (x % 2 ^ 8)
      else if width == 2
      then write_word dev addr (x % 2 ^ 16)
      else write_long dev addr (u32 x)

  -- The word that is written for one value. With a full mask the register is not read.
  unfoldable pub new_word : ℕ → PciDev → ℕ → Value → M H ℕ
  new_word width dev addr v = lift (limit_of width) >>= λ lim.
      when bit_and v.mask lim == lim
      then pure v.value
      else read_register width dev addr >>= λ y. pure (merge y v)

  -- The loop over the values, each at the register behind the one before.
  unfoldable pub write_values : Flags → ℕ → PciDev → ℕ → List Value → M H (Unit {0})
  unfolding new_word
  write_values flags width dev addr [] = skip
  write_values flags width dev addr (v ∷ vs) = new_word width dev addr v >>= λ x.
      (when flags.demo_mode == 0 then emit p (register_write width dev addr x) else skip)
      >> write_values flags width dev (addr + width) vs

  -- `die` prints a message and ends the process with status 1.
  unfoldable pub die : {A : Type 0} → M H A
  die = emit p (print_err []) >> exit 1

  -- Where an operation works on a device: behind the capability that it names, if it names one.
  unfoldable pub place_of : Op → PciDev → M H ℕ
  unfolding die
  place_of op dev =
      when op.cap_type == 0
      then pure op.addr
      else gets (λ s. p.find_cap_nr s.hw dev op.cap_id op.cap_type op.number) >>= λ found.
          null_or found die (λ cap. pure (cap + op.addr))

  -- Both checks of a place; its alignment is a test of the low bits.
  unfoldable pub check_place : ℕ → ℕ → M H (Unit {0})
  unfolding die
  check_place width addr =
      when bit_and addr (u32 (width + 0xffff_ffff)) == 0
      then (when ltb 0x1000 (addr + width) then die else skip)
      else die

  -- The address of the device is written into `char slot[16]`, its terminator included.
  unfoldable pub write_slot : PciDev → M H (Unit {0})
  write_slot dev = when ltb (length (slot_bytes dev)) 16 then skip else lift fault

  unfoldable pub exec_op : Flags → Op → PciDev → M H (Unit {0})
  unfolding write_slot place_of check_place write_values read_register merge limit_of hex_width
      codes
  exec_op flags op dev = write_slot dev >>= λ _. place_of op dev >>= λ addr.
      check_place op.width addr
      >> (when op.num_values == 0
          then (read_register op.width dev addr >>= λ x.
              emit p (print (hex_width (2 * op.width) x ++ codes "\n")))
          else write_values flags op.width dev addr op.values)

  -- One group, on each of its devices in turn.
  unfoldable pub run_group : Flags → Bool → List PciDev → Group → M H (Unit {0})
  unfolding select_devices exec_op
  run_group flags scan scanned g =
      let devs = select_devices scan scanned g.filter in
      (when is_empty devs && flags.force == 0 then emit p (print_err []) else skip)
      >> for_all devs (λ dev. for_all g.ops (λ op. exec_op flags op dev))

  unfoldable pub execute : Flags → Bool → List PciDev → List Group → M H (Unit {0})
  unfolding run_group
  execute flags scan scanned groups = for_all groups (run_group flags scan scanned)
