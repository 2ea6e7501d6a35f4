-- ===== src/Config/Reads.antt =====
-- Reads from the cached configuration space: when they return, what they return, and when they die.
use adnacom_hotplug.Common.{
  ℕ, zero, suc, ◌+◌, ◌*◌, ◌≤◌, ◌<◌, ◌≡◌, ◌⊎◌, inl, inr, refl, true, false, some, List, [], ◌∷◌,
  arith, length, get_elem?, ◌==◌, Bool-cases, ok, exited, dec_lt,
}
use adnacom_hotplug.Common.Bits.{bit_or-byte, bit_or-word, bit_or-three}
use adnacom_hotplug.Config.{Device, is_present, check_conf_range, get_conf_word, get_conf_long}
use adnacom_hotplug.Config.Fetch.{IsCache, IsPresent}

-- A range that is present passes the check.
pub check_conf_range-IsPresent :
    (d : Device) (pos len : ℕ) → IsPresent d pos len → check_conf_range d pos len ≡ ok tt
unfolding check_conf_range
check_conf_range-IsPresent d pos zero h = refl
check_conf_range-IsPresent d pos (suc len) h = ground (
  arith,
  h pos (omega arith) (omega arith),
  check_conf_range-IsPresent d (pos + 1) len (λ i lo hi. h i (omega arith) (omega arith)),
)

get_elem?-length : (xs : List ℕ) (i : ℕ) → i < length xs → (v : ℕ) × (get_elem? xs i ≡ some v)
get_elem?-length [] i h = absurd (omega arith)
get_elem?-length (x ∷ xs) zero h = (x, refl)
get_elem?-length (x ∷ xs) (suc i) h = get_elem?-length xs i (omega arith)

-- Inside the buffer of a well-formed cache the check passes exactly when the whole range is present, and otherwise the
-- program dies with status 1: it never looks outside the buffer.
pub check_conf_range_cases :
    (d : Device) (pos len : ℕ)
    → IsCache d
    → pos + len ≤ d.config_bufsize
    → ((check_conf_range d pos len ≡ ok tt) × IsPresent d pos len)
      ⊎ ((check_conf_range d pos len ≡ exited 1)
          × ((i : ℕ) × (pos ≤ i) × (i < pos + len) × (is_present d.present i ≡ false)))
unfolding check_conf_range
check_conf_range_cases d pos zero v fits = inl (refl, λ i lo hi. absurd (omega arith))
check_conf_range_cases d pos (suc len) v fits =
    let (x, e) = get_elem?-length d.present pos (omega (arith, v)) in
    elim (Bool-cases (x == 0)) [
      | inl missing ↦ inr (ground arith, (pos, omega arith, omega arith, ground arith))
      | inr there ↦ elim (check_conf_range_cases d (pos + 1) len v (omega arith)) [
        | inl (r, all) ↦ inl (
          ground arith,
          λ i lo hi. elim (dec_lt pos i) [
            | yes later ↦ all i (omega arith) (omega arith)
            | no here ↦ let e' : i ≡ pos = omega arith in rw e' (ground arith)
          ],
        )
        | inr (r, (i, lo, hi, q)) ↦ inr (ground arith, (i, omega arith, omega arith, q))
      ]
    ]

-- The bytes of a range, each written and below 256.
abbrev pub HasByte : Device → ℕ → ℕ → Type 0
HasByte d i b = (is_present d.present i ≡ true) × (get_elem? d.config i ≡ some (some b)) × (b < 256)

-- A word or a long of present bytes is read little-endian, and nothing dies on the way.
pub get_conf_word-value :
    (d : Device) (pos b0 b1 : ℕ)
    → HasByte d pos b0
    → HasByte d (pos + 1) b1
    → get_conf_word d pos ≡ ok (b0 + b1 * 0x100)
unfolding get_conf_word check_conf_range
get_conf_word-value d pos b0 b1 (p0, e0, l0) (p1, e1, l1) = ground (arith, bit_or-byte b0 b1)

-- A long of four bytes that are present and written, each below 256, is read little-endian.
pub get_conf_long-value :
    (d : Device) (pos b0 b1 b2 b3 : ℕ)
    → HasByte d pos b0
    → HasByte d (pos + 1) b1
    → HasByte d (pos + 2) b2
    → HasByte d (pos + 3) b3
    → get_conf_long d pos ≡ ok (b0 + b1 * 0x100 + b2 * 0x1_0000 + b3 * 0x100_0000)
unfolding get_conf_long
get_conf_long-value d pos b0 b1 b2 b3 h0 h1 h2 h3 = ground (
  arith,
  bit_or-byte b0 b1,
  bit_or-word (b0 + b1 * 0x100) b2,
  bit_or-three (b0 + b1 * 0x100 + b2 * 0x1_0000) b3,
)
