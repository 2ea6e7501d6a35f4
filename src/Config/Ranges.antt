-- ===== src/Config/Ranges.antt =====
-- The two trimming loops and the doubling loop of `config_fetch`: what they leave to read, and that
-- they end.
use adnacom_hotplug.Common.{
  ℕ, zero, suc, ◌+◌, ◌*◌, ◌^◌, ◌≤◌, ◌<◌, ◌≡◌, ◌⊎◌, true, arith, Bool-cases, ltb, inl, inr, ok,
}
use adnacom_hotplug.Common.Bits.{two_to}
use adnacom_hotplug.Config.{Device, u32, is_present, skip_front, skip_back, double_until}

start_or_later : (a i : ℕ) → a ≤ i → (i ≡ a) ⊎ (a < i)
start_or_later a i h = omega arith

last_or_before : (a i : ℕ) → i < suc a → (i ≡ a) ⊎ (i < a)
last_or_before a i h = omega arith

-- The front loop keeps the end of the range.
pub skip_front_end :
    (d : Device) (pos len : ℕ)
    → pos + len < 2 ^ 32
    → ((skip_front d pos len).0 + (skip_front d pos len).1 ≡ pos + len)
      × (pos ≤ (skip_front d pos len).0)
unfolding skip_front
skip_front_end d pos zero h = omega arith
skip_front_end d pos (suc len) h = ground (arith, skip_front_end d (u32 (pos + 1)) len)

-- What the front loop skipped is present.
pub skip_front_present :
    (d : Device) (pos len i : ℕ)
    → pos + len < 2 ^ 32
    → pos ≤ i
    → i < (skip_front d pos len).0
    → is_present d.present i ≡ true
unfolding skip_front
skip_front_present d pos zero i h lo hi = absurd (omega arith)
skip_front_present d pos (suc len) i h lo hi = elim (start_or_later pos i lo) [
  | inl e ↦ rw e (ground arith)
  | inr l ↦ ground (arith, skip_front_present d (u32 (pos + 1)) len i)
]

pub skip_back_le : (d : Device) (pos len : ℕ) → skip_back d pos len ≤ len
unfolding skip_back
skip_back_le d pos zero = omega arith
skip_back_le d pos (suc len) = ground (arith, skip_back_le d pos len)

-- What the back loop dropped is present.
pub skip_back_present :
    (d : Device) (pos len i : ℕ)
    → pos + len < 2 ^ 32
    → pos + skip_back d pos len ≤ i
    → i < pos + len
    → is_present d.present i ≡ true
unfolding skip_back
skip_back_present d pos zero i h lo hi = absurd (omega arith)
skip_back_present d pos (suc len) i h lo hi = elim (last_or_before (pos + len) i (omega arith)) [
  | inl e ↦ rw e (ground arith)
  | inr l ↦ ground (arith, skip_back_present d pos len i)
]

-- A size above 0 reaches any end up to 2 ^ 31 without wrapping, in at most 32 doublings.
pub double_until_enough :
    (f end size : ℕ)
    → 0 < size
    → size < 2 ^ 32
    → end ≤ 2 ^ 31
    → end ≤ size * two_to f
    → (s : ℕ) × (double_until (suc f) end size ≡ ok s) × (end ≤ s) × (size ≤ s) × (s < 2 ^ 32)
unfolding double_until
double_until_enough zero end size lo hi e h =
    (size, ground arith, omega arith, omega arith, omega arith)
double_until_enough (suc f) end size lo hi e h = elim (Bool-cases (ltb size end)) [
  | inl more ↦
      (let twice : u32 (size * 2) ≡ size * 2 = ground arith in
        let (s, r, p, q, w) =
          double_until_enough f end (u32 (size * 2)) (omega arith) (omega arith) e
            (rw twice (omega arith)) in
        (s, rw more r, p, omega arith, w))
  | inr done ↦ (size, rw done, ground arith, omega arith, hi)
]
