-- ===== src/Common/Bits.antt =====
-- Facts about `&` and `|` at variables: the law of the lowest digit, and the masks of the tool's
-- register fields as quotients and remainders.
use Prim.Native.Nat.{
  ℕ, zero, suc, ◌+◌, ◌-◌, ◌*◌, ◌/◌, ◌%◌, ◌≤◌, ◌<◌, min, max, digits, bit_and, bit_or,
  bit_and-bitwise, bit_or-bitwise,
}
use mathlib.Core.Path.{◌≡◌, refl, ap, ◌∙◌}
use native.Mathlib.Omega.{arith}

-- For every digit operation: more fuel than digits changes nothing, so the recursion on digits is
-- an equation without fuel.
module _ (z : ℕ → ℕ) (f : ℕ → ℕ → ℕ) where
  digits_one_more : (n a b : ℕ) → a ≤ n → digits z f (suc n) a b ≡ digits z f n a b
  digits_one_more zero zero b h = refl
  digits_one_more zero (suc a) b h = absurd (omega arith)
  digits_one_more (suc n) zero b h = refl
  digits_one_more (suc n) (suc a) b h =
      ap (λ (q : ℕ). q * 2 + f (suc a % 2) (b % 2))
        (digits_one_more n (suc a / 2) (b / 2) (omega arith))

  digits_more : (k n a b : ℕ) → n ≡ k + a → digits z f n a b ≡ digits z f a a b
  digits_more zero n a b e = let same : n ≡ a = omega arith in rw same
  digits_more (suc k) zero a b e = absurd (omega arith)
  digits_more (suc k) (suc n) a b e =
      digits_one_more n a b (omega arith) ∙ digits_more k n a b (omega arith)

  pub digits_step :
      (a b : ℕ)
      → digits z f (suc a) (suc a) b
        ≡ digits z f (suc a / 2) (suc a / 2) (b / 2) * 2 + f (suc a % 2) (b % 2)
  digits_step a b =
      ap (λ (q : ℕ). q * 2 + f (suc a % 2) (b % 2))
        (digits_more (a - suc a / 2) a (suc a / 2) (b / 2) (omega arith))

bit_or-from_zero : (n : ℕ) → bit_or 0 n ≡ n
bit_or-from_zero n = bit_or-bitwise 0 n

bit_and-from_zero : (n : ℕ) → bit_and 0 n ≡ 0
bit_and-from_zero n = bit_and-bitwise 0 n

-- The lowest digit of `a & b`, and the rest.
pub bit_and_low : (a b : ℕ) → bit_and a b ≡ bit_and (a / 2) (b / 2) * 2 + min (a % 2) (b % 2)
bit_and_low zero b = omega (arith, bit_and-from_zero b, bit_and-from_zero (b / 2))
bit_and_low (suc a) b = omega (
  arith,
  digits_step (λ x. zero) min a b,
  bit_and-bitwise (suc a) b,
  bit_and-bitwise (suc a / 2) (b / 2),
)

pub bit_or_low : (a b : ℕ) → bit_or a b ≡ bit_or (a / 2) (b / 2) * 2 + max (a % 2) (b % 2)
bit_or_low zero b = omega (arith, bit_or-from_zero b, bit_or-from_zero (b / 2))
bit_or_low (suc a) b = omega (
  arith,
  digits_step (λ x. x) max a b,
  bit_or-bitwise (suc a) b,
  bit_or-bitwise (suc a / 2) (b / 2),
)

bit_and-zero_below : (n a : ℕ) → a ≤ n → bit_and a 0 ≡ 0
bit_and-zero_below n zero h = refl
bit_and-zero_below zero (suc a) h = absurd (omega arith)
bit_and-zero_below (suc n) (suc a) h =
    omega (arith, bit_and_low (suc a) 0, bit_and-zero_below n (suc a / 2) (omega arith))

pub bit_and-zero : (a : ℕ) → bit_and a 0 ≡ 0
bit_and-zero a = bit_and-zero_below a a (omega arith)

bit_or-zero_below : (n a : ℕ) → a ≤ n → bit_or a 0 ≡ a
bit_or-zero_below n zero h = refl
bit_or-zero_below zero (suc a) h = absurd (omega arith)
bit_or-zero_below (suc n) (suc a) h =
    omega (arith, bit_or_low (suc a) 0, bit_or-zero_below n (suc a / 2) (omega arith))

-- `a | 1` sets the lowest bit and keeps the others.
pub bit_or-one : (a : ℕ) → bit_or a 1 ≡ a / 2 * 2 + 1
bit_or-one a = omega (arith, bit_or_low a 1, bit_or-zero_below (a / 2) (a / 2) (omega arith))

bit_or_even : (a m : ℕ) → bit_or a (m * 2) ≡ bit_or (a / 2) m * 2 + a % 2
bit_or_even a m =
    let half : m * 2 / 2 ≡ m = omega arith in (rw half at (bit_or_low a (m * 2))) ∙ omega arith

-- `k` ones, and the power of two above them, by a recursion that the induction follows.
abbrev pub ones : ℕ → ℕ
ones zero = 0
ones (suc k) = ones k * 2 + 1

abbrev pub two_to : ℕ → ℕ
two_to zero = 1
two_to (suc k) = two_to k * 2

bit_and_odd : (a m : ℕ) → bit_and a (m * 2 + 1) ≡ bit_and (a / 2) m * 2 + a % 2
bit_and_odd a m =
    let half : (m * 2 + 1) / 2 ≡ m = omega arith in
    (rw half at (bit_and_low a (m * 2 + 1))) ∙ omega arith

-- A mask that covers the value keeps it.
pub bit_and-ones : (k a : ℕ) → a < two_to k → bit_and a (ones k) ≡ a
bit_and-ones zero zero h = refl
bit_and-ones zero (suc a) h = absurd (omega arith)
bit_and-ones (suc k) a h =
    omega (arith, bit_and_odd a (ones k), bit_and-ones k (a / 2) (omega arith))

-- `a & ~1` clears the lowest bit of a 32-bit word and keeps the others.
pub bit_and-not_one : (a : ℕ) → a < 0x1_0000_0000 → bit_and a 0xffff_fffe ≡ a / 2 * 2
bit_and-not_one a h =
    omega (arith, bit_and_low a 0xffff_fffe, bit_and-ones 31 (a / 2) (omega arith))

pub bit_and-0x1 : (a : ℕ) → bit_and a 1 ≡ a % 2
bit_and-0x1 a = omega (arith, bit_and_low a 1, bit_and-zero (a / 2))

pub bit_and-0x3 : (a : ℕ) → bit_and a 3 ≡ a % 4
bit_and-0x3 a = omega (arith, bit_and_low a 3, bit_and-0x1 (a / 2))

pub bit_and-0x7 : (a : ℕ) → bit_and a 7 ≡ a % 8
bit_and-0x7 a = omega (arith, bit_and_low a 7, bit_and-0x3 (a / 2))

pub bit_and-0xf : (a : ℕ) → bit_and a 15 ≡ a % 16
bit_and-0xf a = omega (arith, bit_and_low a 15, bit_and-0x7 (a / 2))

bit_and-0x1f : (a : ℕ) → bit_and a 31 ≡ a % 32
bit_and-0x1f a = omega (arith, bit_and_low a 31, bit_and-0xf (a / 2))

pub bit_and-0x3f : (a : ℕ) → bit_and a 63 ≡ a % 64
bit_and-0x3f a = omega (arith, bit_and_low a 63, bit_and-0x1f (a / 2))

pub bit_and-0x7f : (a : ℕ) → bit_and a 127 ≡ a % 128
bit_and-0x7f a = omega (arith, bit_and_low a 127, bit_and-0x3f (a / 2))

bit_and_twice : (a m : ℕ) → bit_and a (m * 2) ≡ bit_and (a / 2) m * 2
bit_and_twice a m =
    let half : m * 2 / 2 ≡ m = omega arith in (rw half at (bit_and_low a (m * 2))) ∙ omega arith

-- A mask that ends in four zeros is the rest of the mask, four places higher.
pub bit_and_sixteen : (a m : ℕ) → bit_and a (m * 16) ≡ bit_and (a / 16) m * 16
bit_and_sixteen a m =
    let twos : m * 16 ≡ m * 2 * 2 * 2 * 2 = omega arith in
    let halves : a / 2 / 2 / 2 / 2 ≡ a / 16 = omega arith in
    rw (twos, ← halves)
      (omega (
        arith,
        bit_and_twice a (m * 2 * 2 * 2),
        bit_and_twice (a / 2) (m * 2 * 2),
        bit_and_twice (a / 2 / 2) (m * 2),
        bit_and_twice (a / 2 / 2 / 2) m,
      ))

pub bit_and-0xf0 : (a : ℕ) → bit_and a 0xf0 ≡ a / 16 % 16 * 16
bit_and-0xf0 a = bit_and_sixteen a 15 ∙ rw bit_and-0xf

pub bit_and-0x3f0 : (a : ℕ) → bit_and a 0x3f0 ≡ a / 16 % 64 * 16
bit_and-0x3f0 a = bit_and_sixteen a 63 ∙ rw bit_and-0x3f

pub bit_and-0x2000 : (a : ℕ) → bit_and a 0x2000 ≡ a / 8192 % 2 * 8192
bit_and-0x2000 a = omega (
  arith,
  bit_and_sixteen a 512,
  bit_and_sixteen (a / 16) 32,
  bit_and_sixteen (a / 16 / 16) 2,
  bit_and_twice (a / 16 / 16 / 16) 1,
  bit_and-0x1 (a / 16 / 16 / 16 / 2),
)

twice_mul : (m t : ℕ) → m * (t * 2) ≡ m * t * 2
twice_mul m t = omega arith

-- A value below a power of two, or-ed with a multiple of that power, is their sum.
bit_or_disjoint : (k a m : ℕ) → a < two_to k → bit_or a (m * two_to k) ≡ a + m * two_to k
bit_or_disjoint zero zero m h = omega (arith, bit_or-from_zero (m * 1))
bit_or_disjoint zero (suc a) m h = absurd (omega arith)
bit_or_disjoint (suc k) a m h =
    rw twice_mul
      (omega (arith, bit_or_even a (m * two_to k), bit_or_disjoint k (a / 2) m (omega arith)))

-- Little-endian composition of bytes.
pub bit_or-byte : (a b : ℕ) → a < 0x100 → bit_or a (b * 0x100) ≡ a + b * 0x100
bit_or-byte a b h = bit_or_disjoint 8 a b h

pub bit_or-word : (a b : ℕ) → a < 0x1_0000 → bit_or a (b * 0x1_0000) ≡ a + b * 0x1_0000
bit_or-word a b h = bit_or_disjoint 16 a b h

pub bit_or-three : (a b : ℕ) → a < 0x100_0000 → bit_or a (b * 0x100_0000) ≡ a + b * 0x100_0000
bit_or-three a b h = bit_or_disjoint 24 a b h

pub bit_and-0xff : (a : ℕ) → bit_and a 255 ≡ a % 256
bit_and-0xff a = omega (arith, bit_and_low a 255, bit_and-0x7f (a / 2))

min_again : (a b : ℕ) → a ≤ 1 → min (min a b) b ≡ min a b
min_again a b h = omega arith

-- A mask put on twice.
bit_and_again_below : (n a m : ℕ) → a ≤ n → bit_and (bit_and a m) m ≡ bit_and a m
bit_and_again_below n zero m h = rw bit_and-from_zero (bit_and-from_zero m)
bit_and_again_below zero (suc a) m h = absurd (omega arith)
bit_and_again_below (suc n) (suc a) m h =
    let rest = bit_and (suc a / 2) (m / 2) in
    let again = bit_and_again_below n (suc a / 2) (m / 2) (omega arith) in
    let half : bit_and (suc a) m / 2 ≡ rest = omega (arith, bit_and_low (suc a) m) in
    let low : bit_and (suc a) m % 2 ≡ min (suc a % 2) (m % 2) =
      omega (arith, bit_and_low (suc a) m) in
    bit_and_low (bit_and (suc a) m) m ∙ rw (half, low, again) (omega (arith, bit_and_low (suc a) m))

pub bit_and_again : (a m : ℕ) → bit_and (bit_and a m) m ≡ bit_and a m
bit_and_again a m = bit_and_again_below a a m (omega arith)

bit_and-le_below : (n a m : ℕ) → a ≤ n → bit_and a m ≤ a
bit_and-le_below n zero m h = omega (arith, bit_and-from_zero m)
bit_and-le_below zero (suc a) m h = absurd (omega arith)
bit_and-le_below (suc n) (suc a) m h =
    omega (arith, bit_and_low (suc a) m, bit_and-le_below n (suc a / 2) (m / 2) (omega arith))

pub bit_and-le : (a m : ℕ) → bit_and a m ≤ a
bit_and-le a m = bit_and-le_below a a m (omega arith)

-- The digit of a number at a place.
abbrev pub bit : ℕ → ℕ → ℕ
bit n zero = n % 2
bit n (suc i) = bit (n / 2) i

pub bit-and : (i a b : ℕ) → bit (bit_and a b) i ≡ min (bit a i) (bit b i)
bit-and zero a b = omega (arith, bit_and_low a b)
bit-and (suc i) a b =
    let half : bit_and a b / 2 ≡ bit_and (a / 2) (b / 2) = omega (arith, bit_and_low a b) in
    rw half (bit-and i (a / 2) (b / 2))

pub bit-or : (i a b : ℕ) → bit (bit_or a b) i ≡ max (bit a i) (bit b i)
bit-or zero a b = omega (arith, bit_or_low a b)
bit-or (suc i) a b =
    let half : bit_or a b / 2 ≡ bit_or (a / 2) (b / 2) = omega (arith, bit_or_low a b) in
    rw half (bit-or i (a / 2) (b / 2))

pub bit_le : (i a : ℕ) → bit a i ≤ 1
bit_le zero a = omega arith
bit_le (suc i) a = bit_le i (a / 2)

pub bit-ones : (k i : ℕ) → i < k → bit (ones k) i ≡ 1
bit-ones zero i h = elim h [ ]
bit-ones (suc k) zero h = omega arith
bit-ones (suc k) (suc i) h =
    let half : (ones k * 2 + 1) / 2 ≡ ones k = omega arith in rw half (bit-ones k i (omega arith))

pub bit-complement : (k i m : ℕ) → m ≤ ones k → i < k → bit (ones k - m) i + bit m i ≡ 1
bit-complement zero i m h lt = elim lt [ ]
bit-complement (suc k) zero m h lt = omega arith
bit-complement (suc k) (suc i) m h lt =
    let half : (ones k * 2 + 1 - m) / 2 ≡ ones k - m / 2 = omega arith in
    rw half (bit-complement k i (m / 2) (omega arith) (omega arith))
