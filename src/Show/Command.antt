-- ===== src/Show/Command.antt =====
-- The command register, which show_verbose switches on (adna.c: show_verbose).
use adnacom_hotplug.Common.{
  ◌≡◌, refl, ℕ, zero, suc, ◌+◌, ◌*◌, ◌/◌, ◌%◌, ◌<◌, ◌==◌, ◌||◌, ◌^◌, true, false, if◌then◌else◌,
  List, [], ◌∷◌, some, get_elem?, set, overwrite, length, ok, arith, bit_and, bit_or, Bool-cases,
  inl, inr, get_elem?-lt, get_elem?-set_self,
}
use Prim.Native.Nat.{max, min}
use adnacom_hotplug.Common.Bits.{bit_and_low, bit_or_low, bit_and-0x1, bit_or-one}
use adnacom_hotplug.Pci.{pci_command}
use adnacom_hotplug.Platform.{Platform, write_byte}
use adnacom_hotplug.Config.{Device}
use adnacom_hotplug.Config.Reads.{HasByte, get_conf_word-value}
use adnacom_hotplug.Machine.{
  Sys, ◌>>=◌, ◌>>◌, when◌then◌else◌, gets, lift, modify, emit, device_at, put_device, store_cached,
  conf_word, skip, pure,
}
use adnacom_hotplug.Show.{Options, enable_command}

overwrite_self {ℓ} :
    {A : Type ℓ} (xs : List A) (i : ℕ) (v : A)
    → i < length xs
    → get_elem? (overwrite xs i (v ∷ [])) i ≡ some v
overwrite_self [] i v h = absurd (omega arith)
overwrite_self (x ∷ xs) zero v h = refl
overwrite_self (x ∷ xs) (suc i) v h = overwrite_self xs i v (omega arith)

-- The three low bits are set, and the others kept.
low_three : (n : ℕ) → bit_or n 7 ≡ n / 8 * 8 + 7
low_three n =
    let first : bit_or n 7 ≡ bit_or (n / 2) 3 * 2 + max (n % 2) 1 = bit_or_low n 7 in
    let second : bit_or (n / 2) 3 ≡ bit_or (n / 2 / 2) 1 * 2 + max (n / 2 % 2) 1 =
      bit_or_low (n / 2) 3 in
    omega (arith, first, second, bit_or-one (n / 2 / 2))

bit_and-0x2 : (n : ℕ) → bit_and n 2 ≡ n / 2 % 2 * 2
bit_and-0x2 n =
    let low : bit_and n 2 ≡ bit_and (n / 2) 1 * 2 + min (n % 2) 0 = bit_and_low n 2 in
    omega (arith, low, bit_and-0x1 (n / 2))

-- One of the three low bits is missing.
lacks :
    (cmd : ℕ)
    → (bit_and cmd 0x1 == 0 || (bit_and cmd 0x2 == 0 || bit_and cmd 0x4 == 0))
      ≡ (if cmd % 8 == 7 then false else true)
lacks cmd =
    let one = bit_and-0x1 cmd in
    let two = bit_and-0x2 cmd in
    let half : bit_and cmd 4 ≡ bit_and (cmd / 2) 2 * 2 + min (cmd % 2) 0 = bit_and_low cmd 4 in
    let four : bit_and cmd 4 ≡ cmd / 2 / 2 % 2 * 4 = omega (arith, half, bit_and-0x2 (cmd / 2)) in
    rw (one, two, four) (ground arith)

command_byte : (a b : ℕ) → a < 256 → bit_or (a + b * 0x100) 7 % 2 ^ 8 ≡ a / 8 * 8 + 7
command_byte a b h = omega (arith, low_three (a + b * 0x100))

-- One byte of the buffer is replaced.
abbrev stored : Device → ℕ → ℕ → Device
stored device pos v = record device { config = overwrite device.config pos (some v ∷ []) }

stored-HasByte :
    (device : Device) (pos a v : ℕ)
    → HasByte device pos a
    → v < 256
    → HasByte (stored device pos v) pos v
stored-HasByte device pos a v h small =
    (h.0, overwrite_self device.config pos (some v) (get_elem?-lt device.config pos h.1), small)

module _ {H : Type 0} (p : Platform H) (o : Options) where
  -- A device of the heap, whose buffer is still the library's cache, and in which both bytes of the
  -- command register are present, the lower one `a`: afterwards the cached byte has its three low
  -- bits set (I/O, memory and bus mastering) and its others as they were. The register is written
  -- with that byte, unless `a` had the three bits; nothing else is done to the system.
  pub enable_command-HasByte :
      (s : Sys H) (d a b : ℕ) (device : Device)
      → get_elem? s.topology.devices d ≡ some device
      → device.config_bufsize ≡ device.config_cached
      → HasByte device pci_command a
      → HasByte device (pci_command + 1) b
      → (s' : Sys H) × (device' : Device) × (enable_command p o d s ≡ (ok tt, s'))
        × (get_elem? s'.topology.devices d ≡ some device')
        × HasByte device' pci_command (a / 8 * 8 + 7)
        × (s'.trace ≡ (
            if a % 8 == 7
            then s.trace
            else write_byte device.dev pci_command (a / 8 * 8 + 7) ∷ s.trace))
  unfolding enable_command conf_word store_cached device_at put_device emit modify gets lift ◌>>=◌
      ◌>>◌ when◌then◌else◌ skip pure
  enable_command-HasByte s d a b device found own low high =
      let word = get_conf_word-value device pci_command a b low high in
      let value = command_byte a b low.2 in
      let same : (device.config_bufsize == device.config_cached) ≡ true = ground arith in
      let test : ((a + b * 0x100) % 8 == 7) ≡ (a % 8 == 7) = ground arith in
      let after = stored device pci_command (a / 8 * 8 + 7) in
      let e = write_byte device.dev pci_command (a / 8 * 8 + 7) in
      elim (Bool-cases (a % 8 == 7)) [
        | inl full ↦
            let done : a / 8 * 8 + 7 ≡ a = ground arith in
            (
              s,
              device,
              rw (found, word, lacks (a + b * 0x100), test, full, found) refl,
              found,
              rw done low,
              rw full refl,
            )
        | inr missing ↦ (
          record s {
            hw = p.perform e s.hw;
            trace = e ∷ s.trace;
            topology = record (s.topology) { devices = set s.topology.devices d after };
          },
          after,
          rw (found, word, lacks (a + b * 0x100), test, missing, found)
              (rw (found, same, value) refl),
          get_elem?-set_self s.topology.devices d after (get_elem?-lt s.topology.devices d found),
          stored-HasByte device pci_command a (a / 8 * 8 + 7) low (omega (arith, low.2)),
          rw missing refl,
        )
      ]
