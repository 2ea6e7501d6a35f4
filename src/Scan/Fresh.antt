-- ===== src/Scan/Fresh.antt =====
-- A device that was just scanned can be read (scan_device).
use adnacom_hotplug.Common.{
  ◌≡◌, refl, ◌∙◌, ℕ, zero, suc, ◌<◌, some, List, [], ◌∷◌, map, length, get_elem?, replicate,
  length-replicate, true, arith,
}
use adnacom_hotplug.Pci.{PciDev}
use adnacom_hotplug.Platform.{Platform}
use adnacom_hotplug.Config.{is_present}
use adnacom_hotplug.Config.Buffers.{is_loaded}
use adnacom_hotplug.Config.Fetch.{IsCache}
use adnacom_hotplug.Topology.Growth.{HasHeader}
use adnacom_hotplug.Show.{Options}
use adnacom_hotplug.Scan.{new_device}

get_elem?-replicate {ℓ} :
    {A : Type ℓ} (n i : ℕ) (a : A) → i < n → get_elem? (replicate n a) i ≡ some a
get_elem?-replicate zero i a h = absurd (omega arith)
get_elem?-replicate (suc n) zero a h = refl
get_elem?-replicate (suc n) (suc i) a h = get_elem?-replicate n i a (omega arith)

get_elem?-map {ℓ κ} :
    {A : Type ℓ} {B : Type κ} (f : A → B) (xs : List A) (i : ℕ) {a : A}
    → get_elem? xs i ≡ some a
    → get_elem? (map f xs) i ≡ some (f a)
get_elem?-map f [] i h = cc
get_elem?-map f (x ∷ xs) zero h = ground arith
get_elem?-map f (x ∷ xs) (suc i) h = get_elem?-map f xs i h

present-replicate : (n i : ℕ) → is_present (replicate n 1) i ≡ true → i < n
unfolding is_present
present-replicate zero i h = cc
present-replicate (suc n) zero h = omega arith
present-replicate (suc n) (suc i) h = omega (arith, present-replicate n i h)

loaded-map : (bytes : List ℕ) (i : ℕ) → i < length bytes → is_loaded (map some bytes) i ≡ true
loaded-map [] i h = absurd (omega arith)
loaded-map (b ∷ bytes) zero h = refl
loaded-map (b ∷ bytes) (suc i) h = loaded-map bytes i (omega arith)

length-map {ℓ κ} :
    {A : Type ℓ} {B : Type κ} (f : A → B) (xs : List A) → length (map f xs) ≡ length xs
length-map f [] = refl
length-map f (x ∷ xs) = omega (arith, length-map f xs)

-- Its cache is well-formed.
pub new_device-IsCache :
    {H : Type 0} (p : Platform H) (o : Options) (dev : PciDev) (bytes : List ℕ)
    → length bytes ≡ 256
    → IsCache (new_device p o dev bytes)
unfolding new_device
new_device-IsCache p o dev bytes e = record {
  config_size = length-map some bytes ∙ e;
  present_size = length-replicate {A = ℕ} 256 1;
  nonempty = omega arith;
  in_range = omega arith;
  loaded = λ i h. loaded-map bytes i (omega (arith, present-replicate 256 i h));
}

is_present-replicate : (n i : ℕ) → i < n → is_present (replicate n 1) i ≡ true
is_present-replicate zero i h = absurd (omega arith)
is_present-replicate (suc n) zero h = refl
is_present-replicate (suc n) (suc i) h = is_present-replicate n i (omega arith)

-- Its standard header is present.
pub new_device-HasHeader :
    {H : Type 0} (p : Platform H) (o : Options) (dev : PciDev) (bytes : List ℕ)
    → length bytes ≡ 256
    → HasHeader (new_device p o dev bytes)
unfolding new_device
new_device-HasHeader p o dev bytes e = record {
  cache = new_device-IsCache p o dev bytes e;
  header = λ i lo hi. is_present-replicate 256 i (omega arith);
}
