-- ===== src/Machine.antt =====
-- The state of the running tool: its global variables (adna.c), the heap of devices and bridges,
-- the system around it with the record of what was done to it, and the monad of calls on it.
pub mod Rules
pub mod Invariants
pub mod Reads
pub mod Finishes
use adnacom_hotplug.Common.{
  ℕ, Bool, true, false, Option, none, some, List, [], ◌∷◌, if◌then◌else◌, set, get_elem?, Outcome,
  ok, exited, fault, diverged, deref,
}
use adnacom_hotplug.Common.Int.{negsuc}
use adnacom_hotplug.Common.Text.{Text}
use adnacom_hotplug.Pci.{PciFilter}
use adnacom_hotplug.Platform.{Platform, Effect, print, print_err}
use adnacom_hotplug.Config.{
  Device, update_cached, config_fetch, get_conf_byte, get_conf_word, get_conf_long,
}
use adnacom_hotplug.Topology.{Topology, host_bridge}

-- `struct adna_device`. The counters are `int`s; at one tick every 100 ms they would take more
-- than six years to overflow, and they are plain numbers here.
pub record AdnaDevice : Type 0 where
  pub this : PciFilter
  pub parent : Option PciFilter
  pub hub : Option PciFilter
  pub is_d3 : Bool
  pub devnum : ℕ
  pub link_down_cnt : ℕ
  pub hub_down_cnt : ℕ
  pub link_bad_cnt : ℕ

pub record Sys (H : Type 0) : Type 0 where
  pub hw : H
  -- what was done to the system, the latest first
  pub trace : List Effect
  pub topology : Topology
  pub first_dev : List ℕ
  pub first_adna : List AdnaDevice
  pub num_devices : ℕ
  pub is_initialized : Bool
  pub seen_errors : ℕ
  pub opt_domains : ℕ

-- The global variables as the program starts.
abbrev pub start : {H : Type 0} → H → Sys H
start h = record {
  hw = h;
  trace = [];
  topology = record { devices = []; bridges = host_bridge ∷ []; chain = 0 ∷ [] };
  first_dev = [];
  first_adna = [];
  num_devices = 0;
  is_initialized = false;
  seen_errors = 0;
  opt_domains = 0;
}

-- `filter` as `pci_filter_init` leaves it.
abbrev pub any_device : PciFilter
any_device = record {
  domain = negsuc 0;
  bus = negsuc 0;
  slot = negsuc 0;
  func = negsuc 0;
  vendor = negsuc 0;
  device = negsuc 0;
  device_class = negsuc 0;
}

-- A call: how it ends, and the state that it leaves.
abbrev pub M : Type 0 → Type 0 → Type 0
M H A = Sys H → Outcome A × Sys H

module _ {H A B : Type 0} where
  abbrev pub continue_with : Outcome A × Sys H → (A → M H B) → Outcome B × Sys H
  continue_with (ok a, s) f = f a s
  continue_with (exited n, s) f = (exited n, s)
  continue_with (fault, s) f = (fault, s)
  continue_with (diverged, s) f = (diverged, s)

  infixr 5 ◌>>=◌ ◌>>◌
  unfoldable pub ◌>>=◌ : M H A → (A → M H B) → M H B
  ◌>>=◌ m f s = continue_with (m s) f

  abbrev pub ◌>>◌ : M H A → M H B → M H B
  m >> k = m >>= λ _. k

module _ {H A : Type 0} where
  unfoldable pub pure : A → M H A
  pure a s = (ok a, s)

  -- A statement `if (b) m else n`.
  infix 1 when◌then◌else◌
  unfoldable pub when◌then◌else◌ : Bool → M H A → M H A → M H A
  when◌then◌else◌ true m n = m
  when◌then◌else◌ false m n = n

  -- A test of a pointer: what is done when it is NULL, and when it points somewhere.
  unfoldable pub null_or : {B : Type 0} → Option B → M H A → (B → M H A) → M H A
  null_or none m f = m
  null_or (some b) m f = f b

  unfoldable pub lift : Outcome A → M H A
  lift r s = (r, s)

  unfoldable pub gets : (Sys H → A) → M H A
  gets f s = (ok (f s), s)

  -- `exit(n)`
  unfoldable pub exit : ℕ → M H A
  exit n s = (exited n, s)

module _ {H : Type 0} where
  unfoldable pub modify : (Sys H → Sys H) → M H (Unit {0})
  modify f s = (ok tt, f s)

  abbrev pub skip : M H (Unit {0})
  skip = pure tt

  -- A loop over a list, and one of so many rounds.
  unfoldable pub for_all {ℓ} : {A : Type ℓ} → List A → (A → M H (Unit {0})) → M H (Unit {0})
  for_all [] body = skip
  for_all (x ∷ xs) body = body x >> for_all xs body

  -- A pointer to a device is used.
  unfoldable pub device_at : ℕ → M H Device
  device_at d = gets (λ s. get_elem? (s.topology.devices) d) >>= λ found. lift (deref found)

  unfoldable pub put_device : ℕ → Device → M H (Unit {0})
  put_device d device =
      modify λ s. record s {
        topology = record (s.topology) { devices = set s.topology.devices d device };
      }

  unfoldable pub store_cached : ℕ → ℕ → List ℕ → M H (Unit {0})
  unfolding update_cached
  store_cached d pos bytes = device_at d >>= λ device. put_device d (update_cached device pos bytes)

module _ {H : Type 0} (p : Platform H) where
  unfoldable pub emit : Effect → M H (Unit {0})
  emit e = modify λ s. record s { hw = p.perform e s.hw; trace = e ∷ s.trace }

  -- `config_fetch` and the reads of the configuration space, on a pointer.
  unfoldable pub fetch : ℕ → ℕ → ℕ → M H Bool
  fetch d pos len = device_at d >>= λ device.
      gets (λ s. config_fetch p s.hw device pos len) >>= λ r.
      lift r >>= λ read. put_device d (read.1) >> pure (read.0)

  unfoldable pub conf_byte : ℕ → ℕ → M H ℕ
  conf_byte d pos = device_at d >>= λ device. lift (get_conf_byte device pos)

  unfoldable pub conf_word : ℕ → ℕ → M H ℕ
  conf_word d pos = device_at d >>= λ device. lift (get_conf_word device pos)

  unfoldable pub conf_long : ℕ → ℕ → M H ℕ
  conf_long d pos = device_at d >>= λ device. lift (get_conf_long device pos)
