-- ===== src/SetPci/Run/Merge.antt =====
-- Which word setpci writes: the bits of the mask come from the value, the others from the register.
use adnacom_hotplug.Common.{
  ℕ, ◌+◌, ◌*◌, ◌≤◌, ◌<◌, ◌≡◌, refl, arith, Bool-cases, inl, inr, ◌==◌, ==_iff, bit_and, ok, min,
  max, if◌then◌else◌,
}
use adnacom_hotplug.Common.Bits.{bit, bit-and, bit-or, bit_le, bit-ones, bit-complement, ones}
use adnacom_hotplug.Pci.{PciDev}
use adnacom_hotplug.Platform.{Platform}
use adnacom_hotplug.Machine.{Sys, ◌>>=◌, pure, when◌then◌else◌, lift, gets}
use adnacom_hotplug.SetPci.{Value, complement}
use adnacom_hotplug.SetPci.Parse.{limit_of}
use adnacom_hotplug.SetPci.Parse.Values.{IsMasked}
use adnacom_hotplug.SetPci.Parse.Places.{IsAligned}
use adnacom_hotplug.SetPci.Run.{merge, read_register, new_word}

-- Each bit of the word, chosen by the bit of the mask.
abbrev pub Chosen : ℕ → ℕ → Value → ℕ → Type 0
Chosen x y v i = bit x i ≡ (if bit v.mask i == 1 then bit v.value i else bit y i)

value_bits : (i : ℕ) (v : Value) → IsMasked v → bit v.value i ≤ bit v.mask i
value_bits i v m = let e = bit-and i v.value v.mask in omega (arith, (rw m.within at e))

choose : (a c m b : ℕ) → c + m ≡ 1 → b ≤ m → a ≤ 1 → max (min a c) b ≡ (if m == 1 then b else a)
choose a c m b one within digit = elim (Bool-cases (m == 1)) [
  | inl chosen ↦ rw chosen (omega (arith, (==_iff m 1).0 chosen))
  | inr kept ↦ let none_kept : m ≡ 0 = ground arith in rw kept (omega arith)
]

merge_bits : (y : ℕ) (v : Value) (i : ℕ) → IsMasked v → i < 32 → Chosen (merge y v) y v i
unfolding merge
merge_bits y v i m lt =
    rw (bit-or, bit-and)
      (choose (bit y i) (bit (complement v.mask) i) (bit v.mask i) (bit v.value i)
        (bit-complement 32 i v.mask (omega (arith, m)) lt) (value_bits i v m) (bit_le i y))

-- A mask that covers `k` bits has each of them set.
full_bits : (k m i : ℕ) → bit_and m (ones k) ≡ ones k → i < k → bit m i ≡ 1
full_bits k m i full lt =
    let e = bit-and i m (ones k) in omega (arith, (rw full at e), bit-ones k i lt, bit_le i m)

limit_of-one : limit_of 1 ≡ ok (ones 8)
unfolding limit_of
limit_of-one = refl

limit_of-two : limit_of 2 ≡ ok (ones 16)
unfolding limit_of
limit_of-two = refl

limit_of-four : limit_of 4 ≡ ok (ones 32)
unfolding limit_of
limit_of-four = refl

module _ {H : Type 0} (p : Platform H) where
  -- The register of a width.
  abbrev pub register : Sys H → ℕ → PciDev → ℕ → ℕ
  register s width dev addr =
      if width == 1
      then p.read_byte s.hw dev addr
      else if width == 2
      then p.read_word s.hw dev addr
      else p.read_long s.hw dev addr

  read_register_lem :
      (s : Sys H) (width : ℕ) (dev : PciDev) (addr : ℕ)
      → read_register p width dev addr s ≡ (ok (register s width dev addr), s)
  unfolding read_register gets
  read_register_lem s width dev addr = ground arith

  word_under :
      (k width : ℕ) (dev : PciDev) (addr : ℕ) (v : Value) (s : Sys H)
      → limit_of width ≡ ok (ones k)
      → k ≤ 32
      → IsMasked v
      → (x : ℕ) × (new_word p width dev addr v s ≡ (ok x, s))
        × ((i : ℕ) → i < k → Chosen x (register s width dev addr) v i)
  unfolding new_word ◌>>=◌ pure lift when◌then◌else◌
  word_under k width dev addr v s limit small m =
      elim (Bool-cases (bit_and v.mask (ones k) == ones k)) [
        | inl full ↦ (
          v.value,
          rw (limit, full),
          λ i lt. rw (full_bits k v.mask i ((==_iff _ _).0 full) lt) refl,
        )
        | inr partial ↦ (
          merge (register s width dev addr) v,
          rw (limit, partial, read_register_lem s width dev addr),
          λ i lt. merge_bits (register s width dev addr) v i m (omega arith),
        )
      ]

  -- For an aligned access, and a value within its mask: the word that is written for it is found
  -- without a change of the system, and each of the bits that the register has is that of the value
  -- if the mask has the bit, and else that of the register as it was. This holds also where a full
  -- mask saves the read.
  pub new_word_bits :
      (width : ℕ) (dev : PciDev) (addr : ℕ) (v : Value) (s : Sys H)
      → IsAligned addr width
      → IsMasked v
      → (x : ℕ) × (new_word p width dev addr v s ≡ (ok x, s))
        × ((i : ℕ) → i < 8 * width → Chosen x (register s width dev addr) v i)
  new_word_bits width dev addr v s (inl one) m =
      rw one (word_under 8 1 dev addr v s limit_of-one (omega arith) m)
  new_word_bits width dev addr v s (inr (inl two)) m =
      rw (two.0) (word_under 16 2 dev addr v s limit_of-two (omega arith) m)
  new_word_bits width dev addr v s (inr (inr four)) m =
      rw (four.0) (word_under 32 4 dev addr v s limit_of-four (omega arith) m)
