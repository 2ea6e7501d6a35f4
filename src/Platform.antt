-- ===== src/Platform.antt =====
-- The parts of the system that the tool calls and does not implement: libpci (lib/), the files
-- under /sys/bus/pci, memory mapping and the interval timer. `H` is the state of all of them; the
-- tool reads it through queries, and changes it by effects.
use adnacom_hotplug.Common.{ℕ, Bool, true, List, Option, ◌≡◌, length}
use adnacom_hotplug.Common.Int.{ℤ}
use adnacom_hotplug.Common.Text.{Text}
use adnacom_hotplug.Pci.{PciDev, PciFilter}

-- What the tool does to the system.
pub data Effect : Type 0 where
  -- `printf`, and the line on stderr
  print : Text → Effect
  print_err : Text → Effect
  -- `write(fd, text, len)` to the file of that name
  write_file : Text → Text → Effect
  -- `*(uint32_t *)(map + offset) = value` in the mapped file of that name
  store_reg : Text → ℕ → ℕ → Effect
  -- `pci_write_byte(dev, pos, value)`, `pci_write_word`, `pci_write_long`
  write_byte : PciDev → ℕ → ℕ → Effect
  write_word : PciDev → ℕ → ℕ → Effect
  write_long : PciDev → ℕ → ℕ → Effect
  -- `pci_cleanup(pacc)`
  cleanup : Effect
  sleep : ℕ → Effect
  -- `setitimer`: the first expiry in so many seconds, then one every so many microseconds
  set_timer : ℕ → ℕ → Effect

pub record Platform (H : Type 0) : Type 0 where
  -- libpci
  pub scan_bus : H → List PciDev
  pub filter_match : PciFilter → PciDev → Bool
  -- The filter after the call, and the message of a text that does not parse.
  pub filter_parse_slot : PciFilter → Text → PciFilter × Option Text
  pub filter_parse_id : PciFilter → Text → PciFilter × Option Text
  -- The address of a capability by its id and type, or NULL.
  pub find_cap : H → PciDev → ℕ → ℕ → Option ℕ
  -- The address of the capability of that id, type and number among those of its kind, or NULL.
  pub find_cap_nr : H → PciDev → ℕ → ℕ → ℕ → Option ℕ
  -- `pci_get_dev(pacc, domain, bus, slot, func)`
  pub get_dev : ℤ → ℤ → ℤ → ℤ → PciDev
  -- The access methods by name, and whether a parameter of that name and value can be set.
  pub lookup_method : Text → Option ℕ
  pub can_set_param : Text → Text → Bool
  pub read_byte : H → PciDev → ℕ → ℕ
  pub read_word : H → PciDev → ℕ → ℕ
  pub read_long : H → PciDev → ℕ → ℕ
  -- `pci_read_block(dev, pos, buf, len)`: its result, and the bytes that it put into the buffer.
  pub read_block : H → PciDev → ℕ → ℕ → Bool × List ℕ
  -- `p->base_addr[i]`, and `p->size[i]` and `p->flags[i]` where the library knows those fields
  pub base_addr : H → PciDev → ℕ → ℕ
  pub base_size : H → PciDev → ℕ → Option ℕ
  pub base_flags : H → PciDev → ℕ → Option ℕ
  -- names: `pci_lookup_name` of a class, a vendor and device, a programming interface (NULL if it
  -- has none), and the texts that `pci_fill_info` and `pci_get_string_property` find
  pub class_name : ℕ → Text
  pub device_name : ℕ → ℕ → Text
  pub progif_name : ℕ → ℕ → Option Text
  pub label : H → PciDev → Option Text
  pub phy_slot : H → PciDev → Option Text
  pub dt_node : H → PciDev → Option Text
  -- files
  pub can_open : H → Text → Bool
  pub can_write : H → Text → Bool
  pub can_map : H → Text → Bool
  pub can_unmap : H → Text → Bool
  pub page_size : ℕ
  -- the 32-bit word at an offset of the mapped file of that name
  pub load_reg : H → Text → ℕ → ℕ
  -- how the system goes on after an effect
  pub perform : Effect → H → H

-- What libpci documents of `pci_read_block`: it returns nonzero only after it read all the bytes.
pub record ReadsBlocks {H : Type 0} (p : Platform H) : Type 0 where
  pub whole :
      (h : H) (d : PciDev) (pos len : ℕ)
      → (p.read_block h d pos len).0 ≡ true
      → length (p.read_block h d pos len).1 ≡ len
