-- ===== src/Tests/Commands.antt =====
-- Runs of setpci on the machine of Tests/World.antt, and an instance of each property of setpci.
use adnacom_hotplug.Common.{
  ◌≡◌, ◌<◌, ◌*◌, inl, inr, refl, ℕ, true, false, some, List, [], ◌∷◌, ok, fault, Ends, AllOf, arith,
}
use adnacom_hotplug.Common.Text.{codes, hex, Text}
use adnacom_hotplug.Pci.{PciDev}
use adnacom_hotplug.Platform.{write_byte}
use adnacom_hotplug.Machine.{
  ◌>>=◌, when◌then◌else◌, null_or, pure, lift, gets, emit, modify, start, for_all,
}
use adnacom_hotplug.Machine.Finishes.{Finished, Done}
use adnacom_hotplug.SetPci.{Flags, Op, Value}
use adnacom_hotplug.SetPci.Number.{parse_x32, hex_digit}
use adnacom_hotplug.SetPci.Number.RoundTrip.{parse_x32-hex}
use adnacom_hotplug.SetPci.Registers.{RegName, pci_reg_names}
use adnacom_hotplug.SetPci.Registers.Names.{parse_register-name}
use adnacom_hotplug.SetPci.Parse.{parse_op, parse_register}
use adnacom_hotplug.SetPci.Parse.Splits.{EndsInDot}
use adnacom_hotplug.SetPci.Parse.Values.{IsMasked}
use adnacom_hotplug.SetPci.Parse.Accepts.{IsValid, parse_op-IsValid}
use adnacom_hotplug.SetPci.Run.{slot_bytes, new_word, exec_op}
use adnacom_hotplug.SetPci.Run.Merge.{new_word_bits, Chosen, register}
use adnacom_hotplug.SetPci.Run.Space.{StaysInSpace, Aligns, IsOutput, parse_op-exec_op}
use adnacom_hotplug.SetPci.Run.PastEnd.{exec_op_past_end}
use adnacom_hotplug.SetPci.Run.Slot.{exec_op_overflows}
use adnacom_hotplug.SetPci.Args.{setpci, Settings}
use adnacom_hotplug.SetPci.Args.Ends.{setpci_ends, setpci_demo, Risk}
use adnacom_hotplug.Tests.World.{World, world, port}

abbrev plugged : World
plugged = record { link = true; hub = true; control = 5 }

abbrev no_flags : Flags
no_flags = record { verbose = 0; force = 0; demo_mode = 0; allow_raw_access = 0 }

abbrev fresh : Settings
fresh = record { flags = no_flags; method = 0; debugging = 0; params = []; writeable = false }

-- The command line that puts the device at 02:01.0 back into D0.
abbrev wake : List Text
wake = codes "-s" ∷ codes "0000:02:01.0" ∷ codes "CAP_PM+4.b=0:3" ∷ []

parse_op-IsValid_example :
    Ends (EndsInDot (codes "CAP_PM+4.b=0:3")) IsValid (parse_op (codes "CAP_PM+4.b=0:3"))
unfolding codes
parse_op-IsValid_example = parse_op-IsValid (codes "CAP_PM+4.b=0:3") (omega arith)

parse_x32-hex_example : parse_x32 (hex 0xbeef) ≡ some (0xbeef, [])
parse_x32-hex_example = parse_x32-hex 0xbeef (omega arith)

abbrev command : RegName
unfolding codes
command = record { cap = 0; offset = 4; width = 2; name = codes "COMMAND" }

parse_register-name_example :
    parse_register (codes "COMMAND") 0
    ≡ ok (record { cap_type = 0; cap_id = 0; addr = 4; width = 2 })
unfolding pci_reg_names codes
parse_register-name_example = parse_register-name 2 command 0 refl

abbrev low_bits : Value
low_bits = record { value = 1; mask = 3 }

low_bits-IsMasked : IsMasked low_bits
low_bits-IsMasked = record { value_word = omega arith; mask_word = omega arith; within = refl }

new_word_bits_example :
    (x : ℕ) × (new_word world 2 port 4 low_bits (start plugged) ≡ (ok x, start plugged))
    × ((i : ℕ) → i < 8 * 2 → Chosen x (register world (start plugged) 2 port 4) low_bits i)
new_word_bits_example =
    new_word_bits world 2 port 4 low_bits (start plugged) (inr (inl (refl, refl))) low_bits-IsMasked

abbrev set_ten : Op
set_ten = record {
  cap_type = 0;
  cap_id = 0;
  addr = 0x10;
  width = 1;
  num_values = 1;
  number = 0;
  values = record { value = 5; mask = 0xffff_ffff } ∷ [];
}

parse_op-exec_op_example :
    Finished ⊥ Done (exec_op world no_flags set_ten port (start plugged)).0
    × AllOf StaysInSpace (exec_op world no_flags set_ten port (start plugged)).1.trace
unfolding parse_op codes hex_digit
parse_op-exec_op_example =
    parse_op-exec_op world (codes "10.b=5") set_ten no_flags port (start plugged) (omega arith) refl
      refl (omega arith) (omega arith) (omega arith) (omega arith) tt

abbrev any_byte : Value
any_byte = record { value = 0; mask = 0xffff_ffff }

abbrev far : Op
far = record {
  cap_type = 1;
  cap_id = 1;
  addr = 0xfbc;
  width = 4;
  num_values = 2;
  number = 0;
  values = any_byte ∷ any_byte ∷ [];
}

any_byte-IsMasked : IsMasked any_byte
any_byte-IsMasked = record { value_word = omega arith; mask_word = omega arith; within = refl }

far-IsValid : IsValid far
far-IsValid = record {
  aligned = inr (inr (refl, refl));
  in_space = omega arith;
  counted = refl;
  masked = (any_byte-IsMasked, (any_byte-IsMasked, tt));
}

exec_op_past_end_example :
    ((exec_op world no_flags far port (start plugged)).0 ≡ ok tt)
    × ¬ AllOf StaysInSpace (exec_op world no_flags far port (start plugged)).1.trace
exec_op_past_end_example =
    exec_op_past_end world no_flags far port any_byte any_byte 0x40 (start plugged) (omega arith)
      (omega arith) (omega arith) (omega arith) far-IsValid refl (λ e. absurd (omega arith)) refl
      (inr (inr (refl, refl))) refl refl

setpci_ends_example :
    Finished (Risk world wake) (λ n. n ≡ 0) (setpci world fresh wake (start plugged)).0
    × AllOf Aligns (setpci world fresh wake (start plugged)).1.trace
unfolding codes
setpci_ends_example = setpci_ends world fresh wake (start plugged) (omega arith) tt

setpci_demo_example :
    Finished
      (Risk world wake)
      (λ n. n ≡ 0)
      (setpci world fresh (codes "-D" ∷ wake) (start plugged)).0
    × AllOf IsOutput (setpci world fresh (codes "-D" ∷ wake) (start plugged)).1.trace
unfolding codes
setpci_demo_example = setpci_demo world fresh wake (start plugged) (omega arith) tt

abbrev far_domain : PciDev
far_domain = record port { domain = 0x1000_0000 }

exec_op_overflows_example :
    exec_op world no_flags set_ten far_domain (start plugged) ≡ (fault, start plugged)
exec_op_overflows_example =
    exec_op_overflows world no_flags set_ten far_domain (start plugged) (omega arith)

-- The run that wakes a device reads the register and writes its two low bits.
wakes : (setpci world fresh wake (start plugged)).1.trace ≡ write_byte port 0x44 0 ∷ []
unfolding setpci slot_bytes codes hex_digit ◌>>=◌ when◌then◌else◌ null_or pure lift gets for_all
    emit modify
wakes = refl
