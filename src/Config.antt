-- ===== src/Config.antt =====
-- The cached configuration space of a device (adna.c: config_fetch, check_conf_range,
-- get_conf_byte, get_conf_word, get_conf_long, get_subid).
pub mod Ranges
pub mod Buffers
pub mod Fetch
pub mod Reads
pub mod Cached
use adnacom_hotplug.Common.{
  ℕ, zero, suc, ◌+◌, ◌-◌, ◌*◌, ◌%◌, ◌^◌, Bool, true, false, ◌&&◌, not, Option, none, some, List, [],
  ◌∷◌, ◌++◌, ltb, leb, ◌==◌, if◌then◌else◌, get_elem?, replicate, overwrite, map, length, bit_or,
  bit_and, Outcome, ok, exited, fault, diverged, ◌>>=◌, ◌>>◌,
}
use adnacom_hotplug.Pci.{
  PciDev, pci_header_type, pci_header_type_normal, pci_header_type_cardbus, pci_subsystem_vendor_id,
  pci_subsystem_id, pci_cb_subsystem_vendor_id, pci_cb_subsystem_id,
}
use adnacom_hotplug.Platform.{Platform}

-- A pointer to a `struct bus`: the bridge that it belongs to, by its place in the heap of bridges,
-- and the numbers by which that bridge's list of buses is searched.
pub record BusRef : Type 0 where
  pub parent_bridge : ℕ
  pub domain : ℕ
  pub number : ℕ

-- `struct device` of adna.h. `parent_bus` and `bridge` are the pointers that `grow_tree` sets; the
-- links `next` and `bus_next` are the lists that the device stands in. A byte of `config` that
-- nothing has written yet is `none`.
pub record Device : Type 0 where
  pub dev : PciDev
  pub parent_bus : Option BusRef
  pub bridge : Option ℕ
  pub config_cached : ℕ
  pub config_bufsize : ℕ
  pub config : List (Option ℕ)
  pub present : List ℕ
  pub num_device : ℕ

abbrev pub u32 : ℕ → ℕ
u32 n = n % 2 ^ 32

-- `d->present[pos]` as a condition. Outside the buffer there is nothing that is present; the two
-- loops of `config_fetch` never look there, and `check_conf_range` faults there.
abbrev pub is_present : List ℕ → ℕ → Bool
is_present present pos = elim (get_elem? present pos) [ none ↦ false | some v ↦ not (v == 0) ]

-- `while (pos < d->config_bufsize && len && d->present[pos]) pos++, len--;`
unfoldable pub skip_front : Device → ℕ → ℕ → ℕ × ℕ
skip_front d pos zero = (pos, zero)
skip_front d pos (suc len) =
    let more = skip_front d (u32 (pos + 1)) len in
    if ltb pos d.config_bufsize && is_present d.present pos then more else (pos, suc len)

-- `while (pos+len <= d->config_bufsize && len && d->present[pos+len-1]) len--;`
unfoldable pub skip_back : Device → ℕ → ℕ → ℕ
skip_back d pos zero = zero
skip_back d pos (suc len) =
    let more = skip_back d pos len in
    if leb (u32 (pos + suc len)) d.config_bufsize && is_present d.present (u32 (pos + len))
    then more
    else suc len

-- `while (end > d->config_bufsize) d->config_bufsize *= 2;`
unfoldable pub double_until : ℕ → ℕ → ℕ → Outcome ℕ
double_until zero end size = diverged
double_until (suc f) end size =
    let more = double_until f end (u32 (size * 2)) in if ltb size end then more else ok size

-- The buffers after `xrealloc` to a new size, with `present` cleared from the old size on.
unfoldable pub resize : Device → ℕ → Device
resize d size = record d {
  config_bufsize = size;
  config = d.config ++ replicate (size - d.config_bufsize) none;
  present = d.present ++ replicate (size - d.config_bufsize) 0;
}

-- The growing branch of `config_fetch`. A 32-bit size doubles at most 32 times.
unfoldable pub reserve : Device → ℕ → Outcome Device
reserve d end =
    if ltb d.config_bufsize end
    then double_until 33 end d.config_bufsize >>= (λ size. ok (resize d size))
    else ok d

-- The read into the buffer, and its mark in `present` if it succeeded.
unfoldable pub fill : Device → ℕ → ℕ → Bool × List ℕ → Device
fill d pos len (result, bytes) = record d {
  config = overwrite d.config pos (map some bytes);
  present = if result then overwrite d.present pos (replicate len 1) else d.present;
}

-- What the library stores into its cache of a device. From `pci_setup_cache` on, that is the buffer
-- of the device, until `config_fetch` moves the buffer.
unfoldable pub update_cached : Device → ℕ → List ℕ → Device
update_cached d pos bytes =
    if d.config_bufsize == d.config_cached
    then record d { config = overwrite d.config pos (map some bytes) }
    else d

module _ {H : Type 0} (p : Platform H) (h : H) where
  -- The result is the return value (0 is false), and the device as it is left.
  unfoldable pub config_fetch : Device → ℕ → ℕ → Outcome (Bool × Device)
  config_fetch d pos len =
      let end = u32 (pos + len) in
      let (pos', len') = skip_front d pos len in
      let len'' = skip_back d pos' len' in
      if len'' == 0 then ok (true, d) else do
        d' ← reserve d end
        let read = p.read_block h d.dev pos' len''
        ok (read.0, fill d' pos' len'' read)

-- The loop of `check_conf_range`: `die` if a byte is not present. An index outside the buffer is
-- a fault.
unfoldable pub check_conf_range : Device → ℕ → ℕ → Outcome (Unit {0})
check_conf_range d pos zero = ok tt
check_conf_range d pos (suc len) =
    let more = check_conf_range d (pos + 1) len in
    elim (get_elem? d.present pos) [ none ↦ fault | some v ↦ if v == 0 then exited 1 else more ]

-- `d->config[pos]`, a byte
unfoldable pub config_byte : Device → ℕ → Outcome ℕ
config_byte d pos = elim (get_elem? d.config pos) [
  | none ↦ fault
  | some byte ↦ elim byte [ none ↦ fault | some b ↦ ok (b % 2 ^ 8) ]
]

unfoldable pub get_conf_byte : Device → ℕ → Outcome ℕ
unfolding check_conf_range config_byte
get_conf_byte d pos = do check_conf_range d pos 1; config_byte d pos

unfoldable pub get_conf_word : Device → ℕ → Outcome ℕ
unfolding check_conf_range config_byte
get_conf_word d pos = do
  check_conf_range d pos 2
  b0 ← config_byte d pos
  b1 ← config_byte d (pos + 1)
  ok (bit_or b0 (b1 * 0x100))

unfoldable pub get_conf_long : Device → ℕ → Outcome ℕ
unfolding check_conf_range config_byte
get_conf_long d pos = do
  check_conf_range d pos 4
  b0 ← config_byte d pos
  b1 ← config_byte d (pos + 1)
  b2 ← config_byte d (pos + 2)
  b3 ← config_byte d (pos + 3)
  ok (bit_or (bit_or (bit_or b0 (b1 * 0x100)) (b2 * 0x1_0000)) (b3 * 0x100_0000))

-- `*subvp = get_conf_word(d, vendor); *subdp = get_conf_word(d, device);`
unfoldable pub get_conf_words : Device → ℕ → ℕ → Outcome (ℕ × ℕ)
unfolding get_conf_word
get_conf_words d vendor device = do
  subv ← get_conf_word d vendor
  subd ← get_conf_word d device
  ok (subv, subd)

-- The subsystem vendor and device.
unfoldable pub get_subid : Device → Outcome (ℕ × ℕ)
unfolding get_conf_byte get_conf_words
get_subid d = do
  byte ← get_conf_byte d pci_header_type
  let htype = bit_and byte 0x7f
  if htype == pci_header_type_normal
      then get_conf_words d pci_subsystem_vendor_id pci_subsystem_id
      else (if htype == pci_header_type_cardbus && leb 128 d.config_cached
          then get_conf_words d pci_cb_subsystem_vendor_id pci_cb_subsystem_id
          else ok (0xffff, 0xffff))
