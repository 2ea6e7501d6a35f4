-- ===== src/Tests/World.antt =====
-- A machine with an H1A switch: its upstream port, one downstream port, and a USB hub behind it
-- that can be plugged in and out.
use adnacom_hotplug.Common.{
  ℕ, zero, suc, ◌+◌, ◌*◌, ◌%◌, ◌≡◌, refl, Bool, true, false, Option, none, some, List, [], ◌∷◌,
  ◌==◌, if◌then◌else◌, length,
}
use adnacom_hotplug.Common.Int.{pos}
use adnacom_hotplug.Common.Text.{Text}
use adnacom_hotplug.Pci.{PciDev, PciFilter}
use adnacom_hotplug.Platform.{Platform, Effect, write_file, store_reg, ReadsBlocks}

-- Is the link of the port up, does the bus show the hub, and the port control register.
pub record World : Type 0 where
  pub link : Bool
  pub hub : Bool
  pub control : ℕ

abbrev pub upstream : PciDev
upstream = record {
  domain = 0;
  bus = 1;
  dev = 0;
  func = 0;
  vendor_id = 0x10b5;
  device_id = 0x8608;
  device_class = 0x0604;
}

abbrev pub port : PciDev
port = record {
  domain = 0;
  bus = 2;
  dev = 1;
  func = 0;
  vendor_id = 0x10b5;
  device_id = 0x8608;
  device_class = 0x0604;
}

abbrev pub usb_hub : PciDev
usb_hub = record {
  domain = 0;
  bus = 3;
  dev = 0;
  func = 0;
  vendor_id = 0x104c;
  device_id = 0x8241;
  device_class = 0x0c03;
}

abbrev lookup_byte : ℕ → List (ℕ × ℕ) → ℕ
lookup_byte i [] = 0
lookup_byte i ((j, v) ∷ m) = if i == j then v else lookup_byte i m

-- The bytes of a bridge with a PCI Express capability at 0x40; bit 13 of its link status is at 0x53.
abbrev bridge_bytes : World → ℕ → ℕ → ℕ → List (ℕ × ℕ)
bridge_bytes w type secondary subordinate =
    (0x04, 7)
    ∷ (0x06, 0x10)
    ∷ (0x0e, 1)
    ∷ (0x18, 0)
    ∷ (0x19, secondary)
    ∷ (0x1a, subordinate)
    ∷ (0x34, 0x40)
    ∷ (0x40, 0x10)
    ∷ (0x42, type * 16 + 2)
    ∷ (0x4c, 0x12)
    ∷ (0x52, 0x12)
    ∷ (0x53, if w.link then 0x20 else 0)
    ∷ []

abbrev pub byte_at : World → PciDev → ℕ → ℕ
byte_at w d i =
    if d.bus == 1
    then lookup_byte i (bridge_bytes w 5 2 3)
    else if d.bus == 2
    then lookup_byte i (bridge_bytes w 6 3 3)
    else 0

abbrev pub block : World → PciDev → ℕ → ℕ → List ℕ
block w d i zero = []
block w d i (suc len) = byte_at w d i ∷ block w d (i + 1) len

abbrev word_at : World → PciDev → ℕ → ℕ
word_at w d i = byte_at w d i + byte_at w d (i + 1) * 256

-- This stand-in for the library's parser reads back what `bdf_str` writes for the three devices:
-- the bus number is the seventh character, the slot the tenth.
abbrev char_value : ℕ → Text → ℕ
char_value n [] = 0
char_value zero (c ∷ cs) =
    if c == b'1' then 1 else if c == b'2' then 2 else if c == b'3' then 3 else 0
char_value (suc n) (c ∷ cs) = char_value n cs

abbrev parse_slot : PciFilter → Text → PciFilter × Option Text
parse_slot f text = (
  record f {
    domain = pos 0;
    bus = pos (char_value 6 text);
    slot = pos (char_value 9 text);
    func = pos 0;
  },
  none,
)

abbrev matches_bus : PciFilter → PciDev → Bool
matches_bus f d = elim (f.bus) [ pos n ↦ n == d.bus | _ ↦ true ]

abbrev switch_on : Effect → World → World
switch_on (write_file file text) w = w
switch_on (store_reg file offset v) w = record w { control = v }
switch_on _ w = w

abbrev pub world : Platform World
world = record {
  scan_bus = λ w. upstream ∷ port ∷ (if w.hub then usb_hub ∷ [] else []);
  filter_match = matches_bus;
  filter_parse_slot = parse_slot;
  filter_parse_id = λ f text. (f, none);
  find_cap = λ w d id type. some 0x40;
  find_cap_nr = λ w d id type nr. if nr == 0 then some 0x40 else none;
  get_dev = λ domain bus slot func. port;
  lookup_method = λ name. none;
  can_set_param = λ name value. false;
  read_byte = byte_at;
  read_word = word_at;
  read_long = λ w d i. word_at w d i + word_at w d (i + 2) * 65536;
  read_block = λ w d i len. (true, block w d i len);
  base_addr = λ w d i. 0;
  base_size = λ w d i. none;
  base_flags = λ w d i. none;
  class_name = λ c. [];
  device_name = λ v d. [];
  progif_name = λ c i. none;
  label = λ w d. none;
  phy_slot = λ w d. none;
  dt_node = λ w d. none;
  can_open = λ w file. true;
  can_write = λ w file. true;
  can_map = λ w file. true;
  can_unmap = λ w file. true;
  page_size = 4096;
  load_reg = λ w file offset. w.control % 0x1_0000_0000;
  perform = switch_on;
}

pub length-block : (w : World) (d : PciDev) (i len : ℕ) → length (block w d i len) ≡ len
length-block w d i zero = refl
length-block w d i (suc len) = λ j. suc (length-block w d (i + 1) len j)

pub world_reads : ReadsBlocks world
world_reads = record { whole = λ h d i len q. length-block h d i len }
