-- ===== src/SetPci/Run/Slot.antt =====
-- The address of a device in the buffer of 16 bytes that exec_op writes it into.
use adnacom_hotplug.Common.{
  ◌≡◌, ◌≢◌, refl, ℕ, zero, suc, ◌+◌, ◌-◌, ◌/◌, ◌%◌, ◌^◌, ◌≤◌, ◌<◌, true, false, ltb, ◌==◌, ◌∷◌, [],
  ◌++◌, length, replicate, if◌then◌else◌, Bool-cases, inl, inr, arith, length-append,
  length-replicate, fault,
}
use adnacom_hotplug.Common.Text.{Text, codes, digit, digits_from, hex, hex_width}
use adnacom_hotplug.Pci.{PciDev}
use adnacom_hotplug.Platform.{Platform}
use adnacom_hotplug.Machine.{Sys, ◌>>=◌, when◌then◌else◌, lift}
use adnacom_hotplug.SetPci.{Op, Flags}
use adnacom_hotplug.SetPci.Run.{slot_bytes, write_slot, exec_op}

-- The address of a device is too long for the buffer.
abbrev pub IsTooLong : PciDev → Type 0
IsTooLong dev = 15 < length (slot_bytes dev)

not_below : (n : ℕ) → 15 < n → ltb n 16 ≡ false
not_below n h = ground arith

-- At most k hexadecimal digits, and more than k.
abbrev HasDigits : ℕ → ℕ → Type 0
HasDigits zero n = n ≡ 0
HasDigits (suc k) n = HasDigits k (n / 16)

abbrev Exceeds : ℕ → ℕ → Type 0
Exceeds zero n = n ≢ 0
Exceeds (suc k) n = (n ≢ 0) × Exceeds k (n / 16)

length-digits_from-le :
    (k f n : ℕ) (acc : Text) → HasDigits k n → length (digits_from 16 f n acc) ≤ k + length acc
unfolding digits_from
length-digits_from-le k zero n acc h = omega arith
length-digits_from-le zero (suc f) n acc h =
    let none_left : (n == 0) ≡ true = ground arith in rw none_left (omega arith)
length-digits_from-le (suc k) (suc f) n acc h = elim (Bool-cases (n == 0)) [
  | inl e ↦ rw e (omega arith)
  | inr e ↦ rw e (omega (arith, length-digits_from-le k f (n / 16) (digit (n % 16) ∷ acc) h))
]

length-digits_from-ge : (f n : ℕ) (acc : Text) → length acc ≤ length (digits_from 16 f n acc)
unfolding digits_from
length-digits_from-ge zero n acc = omega arith
length-digits_from-ge (suc f) n acc = elim (Bool-cases (n == 0)) [
  | inl e ↦ rw e (omega arith)
  | inr e ↦ rw e (omega (arith, length-digits_from-ge f (n / 16) (digit (n % 16) ∷ acc)))
]

length-digits_from-gt :
    (k f n : ℕ) (acc : Text)
    → k < f
    → Exceeds k n
    → k + length acc < length (digits_from 16 f n acc)
unfolding digits_from
length-digits_from-gt k zero n acc l h = absurd (omega arith)
length-digits_from-gt zero (suc f) n acc l h =
    let more : (n == 0) ≡ false = ground arith in
    rw more (omega (arith, length-digits_from-ge f (n / 16) (digit (n % 16) ∷ acc)))
length-digits_from-gt (suc k) (suc f) n acc l h =
    let more : (n == 0) ≡ false = ground (arith, h.0) in
    rw more
      (omega (arith, length-digits_from-gt k f (n / 16) (digit (n % 16) ∷ acc) (omega arith) h.1))

hex_lem : (n : ℕ) → hex n ≡ (if n == 0 then b'0' ∷ [] else digits_from 16 8 n [])
unfolding hex
hex_lem n = refl

length-hex-le : (k n : ℕ) → 1 ≤ k → HasDigits k n → length (hex n) ≤ k
length-hex-le k n one h = elim (Bool-cases (n == 0)) [
  | inl e ↦ rw (hex_lem n, e) (omega arith)
  | inr e ↦ rw (hex_lem n, e) (omega (arith, length-digits_from-le k 8 n [] h))
]

length-hex-gt : (k n : ℕ) → k < 8 → Exceeds k n → n ≢ 0 → k < length (hex n)
length-hex-gt k n l h nonzero =
    let more : (n == 0) ≡ false = ground arith in
    rw (hex_lem n, more) (omega (arith, length-digits_from-gt k 8 n [] l h))

length-hex-ge : (n : ℕ) → 1 ≤ length (hex n)
length-hex-ge n = elim (Bool-cases (n == 0)) [
  | inl e ↦ rw (hex_lem n, e) (omega arith)
  | inr e ↦
      let nonzero : n ≢ 0 = ground arith in
      rw (hex_lem n, e) (omega (arith, length-digits_from-gt 0 8 n [] (omega arith) nonzero))
]

length-hex_width : (w n : ℕ) → length (hex_width w n) ≡ (w - length (hex n)) + length (hex n)
unfolding hex_width
length-hex_width w n = omega (
  arith,
  length-append (replicate (w - length (hex n)) b'0') (hex n),
  length-replicate {A = ℕ} (w - length (hex n)) b'0',
)

length-slot_bytes :
    (d : PciDev)
    → length (slot_bytes d)
      ≡ length (hex_width 4 d.domain)
        + length (hex_width 2 d.bus)
        + length (hex_width 2 d.dev)
        + length (hex d.func)
        + 3
unfolding slot_bytes codes
length-slot_bytes d =
    let a = hex_width 4 d.domain in
    let b = hex_width 2 d.bus in
    let c = hex_width 2 d.dev in
    let e = hex d.func in
    omega (
      arith,
      length-append a (b':' ∷ (b ++ (b':' ∷ (c ++ (b'.' ∷ e))))),
      length-append b (b':' ∷ (c ++ (b'.' ∷ e))),
      length-append c (b'.' ∷ e),
    )

-- A domain of seven digits at most, and a function of one digit, as every function of a device is.
pub slot-fits :
    (d : PciDev) → d.domain < 2 ^ 28 → d.bus < 256 → d.dev < 32 → d.func < 8 → ¬ IsTooLong d
slot-fits d domain bus dev func long = omega (
  arith,
  long,
  length-slot_bytes d,
  length-hex_width 4 d.domain,
  length-hex_width 2 d.bus,
  length-hex_width 2 d.dev,
  length-hex-le 7 d.domain (omega arith) (omega arith),
  length-hex-le 2 d.bus (omega arith) (omega arith),
  length-hex-le 2 d.dev (omega arith) (omega arith),
  length-hex-le 1 d.func (omega arith) (omega arith),
)

slot-overflows : (d : PciDev) → 2 ^ 28 ≤ d.domain → IsTooLong d
slot-overflows d big = omega (
  arith,
  length-slot_bytes d,
  length-hex_width 4 d.domain,
  length-hex_width 2 d.bus,
  length-hex_width 2 d.dev,
  length-hex-ge d.func,
  length-hex-gt 7 d.domain (omega arith) (omega arith) (omega arith),
)

-- On a device whose domain needs eight digits, which is a domain of 2^28 or more, every operation
-- overflows the buffer before it does anything else.
pub exec_op_overflows :
    {H : Type 0} (p : Platform H) (flags : Flags) (op : Op) (d : PciDev) (s : Sys H)
    → 2 ^ 28 ≤ d.domain
    → exec_op p flags op d s ≡ (fault, s)
unfolding exec_op write_slot ◌>>=◌ lift when◌then◌else◌
exec_op_overflows p flags op d s big =
    let long : IsTooLong d = slot-overflows d big in
    let over : ltb (length (slot_bytes d)) 16 ≡ false = not_below (length (slot_bytes d)) long in
    rw over refl
