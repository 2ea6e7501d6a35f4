-- ===== src/Machine/Reads.antt =====
-- Reads of the configuration space end, and give values of their width.
use adnacom_hotplug.Common.{
  ℕ, zero, suc, ◌+◌, ◌*◌, ◌%◌, ◌^◌, ◌<◌, Option, none, some, Outcome, ok, exited, fault, diverged,
  ◌>>=◌, get_elem?, ◌==◌, if◌then◌else◌, arith, Bool, true, false,
}
use adnacom_hotplug.Common.Bits.{bit_or-byte, bit_or-word, bit_or-three}
use adnacom_hotplug.Platform.{Platform}
use adnacom_hotplug.Config.{
  Device, check_conf_range, config_byte, get_conf_byte, get_conf_word, get_conf_long,
}
use adnacom_hotplug.Machine.{conf_byte, conf_word, conf_long}
use adnacom_hotplug.Machine.Invariants.{
  Halts, Keeps, then_do, Any, by_lift, IsSound, keeps_device_at,
}

pub Halts-then :
    {A B : Type 0} {P : A → Type 0} (Q : B → Type 0) (r : Outcome A) (f : A → Outcome B)
    → Halts P r
    → ((a : A) → P a → Halts Q (f a))
    → Halts Q (r >>= f)
Halts-then Q (ok a) f h g = g a h
Halts-then Q (exited n) f h g = tt
Halts-then Q fault f h g = tt
Halts-then Q diverged f h g = absurd h

check_nonzero :
    (b : Bool) (more : Outcome (Unit {0}))
    → Halts Any more
    → Halts Any (if b then exited 1 else more)
check_nonzero true more h = tt
check_nonzero false more h = h

check_present :
    (x : Option ℕ) (more : Outcome (Unit {0}))
    → Halts Any more
    → Halts Any (elim x [ none ↦ fault | some v ↦ if v == 0 then exited 1 else more ])
check_present none more h = tt
check_present (some v) more h = check_nonzero (v == 0) more h

check_conf_range-Halts : (d : Device) (pos len : ℕ) → Halts Any (check_conf_range d pos len)
unfolding check_conf_range
check_conf_range-Halts d pos zero = tt
check_conf_range-Halts d pos (suc len) =
    check_present (get_elem? d.present pos) _ (check_conf_range-Halts d (pos + 1) len)

byte_lt :
    (x : Option (Option ℕ))
    → Halts
        (λ v. v < 256)
        (elim x [ none ↦ fault | some byte ↦ elim byte [ none ↦ fault | some b ↦ ok (b % 2 ^ 8) ] ])
byte_lt none = tt
byte_lt (some none) = tt
byte_lt (some (some b)) = omega arith

config_byte-Halts : (d : Device) (pos : ℕ) → Halts (λ v. v < 256) (config_byte d pos)
unfolding config_byte
config_byte-Halts d pos = byte_lt (get_elem? d.config pos)

pub get_conf_byte-Halts : (d : Device) (pos : ℕ) → Halts (λ v. v < 256) (get_conf_byte d pos)
unfolding get_conf_byte
get_conf_byte-Halts d pos =
    Halts-then _ (check_conf_range d pos 1) _ (check_conf_range-Halts d pos 1)
      λ _ _. config_byte-Halts d pos

pub get_conf_word-Halts : (d : Device) (pos : ℕ) → Halts (λ v. v < 0x1_0000) (get_conf_word d pos)
unfolding get_conf_word
get_conf_word-Halts d pos =
    Halts-then _ (check_conf_range d pos 2) _ (check_conf_range-Halts d pos 2) λ _ _.
      Halts-then _ (config_byte d pos) _ (config_byte-Halts d pos) λ b0 l0.
        Halts-then _ (config_byte d (pos + 1)) _ (config_byte-Halts d (pos + 1))
          λ b1 l1. omega (arith, bit_or-byte b0 b1)

pub get_conf_long-Halts :
    (d : Device) (pos : ℕ) → Halts (λ v. v < 0x1_0000_0000) (get_conf_long d pos)
unfolding get_conf_long
get_conf_long-Halts d pos =
    Halts-then _ (check_conf_range d pos 4) _ (check_conf_range-Halts d pos 4) λ _ _.
      Halts-then _ (config_byte d pos) _ (config_byte-Halts d pos) λ b0 l0.
        Halts-then _ (config_byte d (pos + 1)) _ (config_byte-Halts d (pos + 1)) λ b1 l1.
          Halts-then _ (config_byte d (pos + 2)) _ (config_byte-Halts d (pos + 2)) λ b2 l2.
            Halts-then _ (config_byte d (pos + 3)) _ (config_byte-Halts d (pos + 3)) λ b3 l3.
              let word = bit_or-byte b0 b1 l0 in
              let three = bit_or-word (b0 + b1 * 0x100) b2 (omega arith) in
              let long = bit_or-three (b0 + b1 * 0x100 + b2 * 0x1_0000) b3 (omega arith) in
              rw word (rw three (rw long (omega arith)))

module _ {H : Type 0} (p : Platform H) where
  pub keeps_conf_byte : (d pos : ℕ) → Keeps IsSound (conf_byte p d pos) (λ v. v < 256)
  unfolding conf_byte
  keeps_conf_byte d pos =
      then_do (keeps_device_at d) λ device _. by_lift _ (get_conf_byte-Halts device pos)

  pub keeps_conf_word : (d pos : ℕ) → Keeps IsSound (conf_word p d pos) (λ v. v < 0x1_0000)
  unfolding conf_word
  keeps_conf_word d pos =
      then_do (keeps_device_at d) λ device _. by_lift _ (get_conf_word-Halts device pos)

  pub keeps_conf_long : (d pos : ℕ) → Keeps IsSound (conf_long p d pos) (λ v. v < 0x1_0000_0000)
  unfolding conf_long
  keeps_conf_long d pos =
      then_do (keeps_device_at d) λ device _. by_lift _ (get_conf_long-Halts device pos)
