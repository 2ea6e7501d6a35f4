-- ===== src/Config/Cached.antt =====
-- What `config_fetch` does with a range that is in the cache.
use adnacom_hotplug.Common.{
  ℕ, zero, suc, ◌+◌, ◌^◌, ◌≤◌, ◌<◌, ◌≡◌, refl, true, arith, ok, List, length, [], ◌∷◌,
}
use adnacom_hotplug.Platform.{Platform}
use adnacom_hotplug.Config.{Device, u32, is_present, skip_front, skip_back, config_fetch}
use adnacom_hotplug.Config.Fetch.{IsCache, IsPresent}

-- Nothing outside the buffer is present.
present_lt : (xs : List ℕ) (i : ℕ) → is_present xs i ≡ true → i < length xs
present_lt [] i h = cc
present_lt (x ∷ xs) zero h = omega arith
present_lt (x ∷ xs) (suc i) h = omega (arith, present_lt xs i h)

-- The front loop skips a range that is present to its end.
skip_front_all :
    (d : Device) (pos len : ℕ)
    → IsCache d
    → pos + len < 2 ^ 32
    → IsPresent d pos len
    → (skip_front d pos len).1 ≡ 0
unfolding skip_front
skip_front_all d pos zero v h all = refl
skip_front_all d pos (suc len) v h all =
    let first = all pos (omega arith) (omega arith) in
    let inside = present_lt d.present pos first in
    let word : u32 (pos + 1) ≡ pos + 1 = omega arith in
    let rest =
      skip_front_all d (pos + 1) len v (omega arith)
        (λ i lo hi. all i (omega arith) (omega arith)) in
    ground (arith, first, inside, v, word, rest)

module _ {H : Type 0} (p : Platform H) (h : H) where
  -- A range of a well-formed cache, within the first 2^31 bytes, that is present is fetched without
  -- a look at the hardware: the fetch succeeds for every library, and the device is left as it is.
  pub config_fetch-cached :
      (d : Device) (pos len : ℕ)
      → IsCache d
      → pos + len ≤ 2 ^ 31
      → IsPresent d pos len
      → config_fetch p h d pos len ≡ ok (true, d)
  unfolding config_fetch skip_back
  config_fetch-cached d pos len v small all = rw (skip_front_all d pos len v (omega arith) all) refl
