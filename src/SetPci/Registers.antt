-- ===== src/SetPci/Registers.antt =====
-- The register names of setpci (src/setpci.c: pci_reg_names, parse_reg_name, dump_registers).
pub mod Names
use adnacom_hotplug.Common.{
  ℕ, ◌+◌, ◌-◌, ◌<◌, Bool, true, false, ◌&&◌, Option, none, some, List, [], ◌∷◌, ◌++◌, leb, ◌==◌,
  if◌then◌else◌, get_elem?, Outcome, ok, fault,
}
use Prim.Native.String.{String}
use adnacom_hotplug.Common.Text.{Text, codes, hex_width}

-- `struct reg_name`. In `cap`, 0x10000 marks a capability and 0x20000 an extended one, and a width 0
-- stands for none.
pub record RegName : Type 0 where
  pub cap : ℕ
  pub offset : ℕ
  pub width : ℕ
  pub name : Text

abbrev reg : ℕ → ℕ → ℕ → String → RegName
unfolding codes
reg cap offset width name = record { cap = cap; offset = offset; width = width; name = codes name }

-- The table ends where the program's has an entry without a name.
unfoldable pub pci_reg_names : List RegName
unfolding reg
pci_reg_names =
    reg 0 0x00 2 "VENDOR_ID"
    ∷ reg 0 0x02 2 "DEVICE_ID"
    ∷ reg 0 0x04 2 "COMMAND"
    ∷ reg 0 0x06 2 "STATUS"
    ∷ reg 0 0x08 1 "REVISION"
    ∷ reg 0 0x09 1 "CLASS_PROG"
    ∷ reg 0 0x0a 2 "CLASS_DEVICE"
    ∷ reg 0 0x0c 1 "CACHE_LINE_SIZE"
    ∷ reg 0 0x0d 1 "LATENCY_TIMER"
    ∷ reg 0 0x0e 1 "HEADER_TYPE"
    ∷ reg 0 0x0f 1 "BIST"
    ∷ reg 0 0x10 4 "BASE_ADDRESS_0"
    ∷ reg 0 0x14 4 "BASE_ADDRESS_1"
    ∷ reg 0 0x18 4 "BASE_ADDRESS_2"
    ∷ reg 0 0x1c 4 "BASE_ADDRESS_3"
    ∷ reg 0 0x20 4 "BASE_ADDRESS_4"
    ∷ reg 0 0x24 4 "BASE_ADDRESS_5"
    ∷ reg 0 0x28 4 "CARDBUS_CIS"
    ∷ reg 0 0x2c 2 "SUBSYSTEM_VENDOR_ID"
    ∷ reg 0 0x2e 2 "SUBSYSTEM_ID"
    ∷ reg 0 0x30 4 "ROM_ADDRESS"
    ∷ reg 0 0x3c 1 "INTERRUPT_LINE"
    ∷ reg 0 0x3d 1 "INTERRUPT_PIN"
    ∷ reg 0 0x3e 1 "MIN_GNT"
    ∷ reg 0 0x3f 1 "MAX_LAT"
    ∷ reg 0 0x18 1 "PRIMARY_BUS"
    ∷ reg 0 0x19 1 "SECONDARY_BUS"
    ∷ reg 0 0x1a 1 "SUBORDINATE_BUS"
    ∷ reg 0 0x1b 1 "SEC_LATENCY_TIMER"
    ∷ reg 0 0x1c 1 "IO_BASE"
    ∷ reg 0 0x1d 1 "IO_LIMIT"
    ∷ reg 0 0x1e 2 "SEC_STATUS"
    ∷ reg 0 0x20 2 "MEMORY_BASE"
    ∷ reg 0 0x22 2 "MEMORY_LIMIT"
    ∷ reg 0 0x24 2 "PREF_MEMORY_BASE"
    ∷ reg 0 0x26 2 "PREF_MEMORY_LIMIT"
    ∷ reg 0 0x28 4 "PREF_BASE_UPPER32"
    ∷ reg 0 0x2c 4 "PREF_LIMIT_UPPER32"
    ∷ reg 0 0x30 2 "IO_BASE_UPPER16"
    ∷ reg 0 0x32 2 "IO_LIMIT_UPPER16"
    ∷ reg 0 0x38 4 "BRIDGE_ROM_ADDRESS"
    ∷ reg 0 0x3e 2 "BRIDGE_CONTROL"
    ∷ reg 0 0x10 4 "CB_CARDBUS_BASE"
    ∷ reg 0 0x14 2 "CB_CAPABILITIES"
    ∷ reg 0 0x16 2 "CB_SEC_STATUS"
    ∷ reg 0 0x18 1 "CB_BUS_NUMBER"
    ∷ reg 0 0x19 1 "CB_CARDBUS_NUMBER"
    ∷ reg 0 0x1a 1 "CB_SUBORDINATE_BUS"
    ∷ reg 0 0x1b 1 "CB_CARDBUS_LATENCY"
    ∷ reg 0 0x1c 4 "CB_MEMORY_BASE_0"
    ∷ reg 0 0x20 4 "CB_MEMORY_LIMIT_0"
    ∷ reg 0 0x24 4 "CB_MEMORY_BASE_1"
    ∷ reg 0 0x28 4 "CB_MEMORY_LIMIT_1"
    ∷ reg 0 0x2c 2 "CB_IO_BASE_0"
    ∷ reg 0 0x2e 2 "CB_IO_BASE_0_HI"
    ∷ reg 0 0x30 2 "CB_IO_LIMIT_0"
    ∷ reg 0 0x32 2 "CB_IO_LIMIT_0_HI"
    ∷ reg 0 0x34 2 "CB_IO_BASE_1"
    ∷ reg 0 0x36 2 "CB_IO_BASE_1_HI"
    ∷ reg 0 0x38 2 "CB_IO_LIMIT_1"
    ∷ reg 0 0x3a 2 "CB_IO_LIMIT_1_HI"
    ∷ reg 0 0x40 2 "CB_SUBSYSTEM_VENDOR_ID"
    ∷ reg 0 0x42 2 "CB_SUBSYSTEM_ID"
    ∷ reg 0 0x44 4 "CB_LEGACY_MODE_BASE"
    ∷ reg 0x10001 0 0 "CAP_PM"
    ∷ reg 0x10002 0 0 "CAP_AGP"
    ∷ reg 0x10003 0 0 "CAP_VPD"
    ∷ reg 0x10004 0 0 "CAP_SLOTID"
    ∷ reg 0x10005 0 0 "CAP_MSI"
    ∷ reg 0x10006 0 0 "CAP_CHSWP"
    ∷ reg 0x10007 0 0 "CAP_PCIX"
    ∷ reg 0x10008 0 0 "CAP_HT"
    ∷ reg 0x10009 0 0 "CAP_VNDR"
    ∷ reg 0x1000a 0 0 "CAP_DBG"
    ∷ reg 0x1000b 0 0 "CAP_CCRC"
    ∷ reg 0x1000c 0 0 "CAP_HOTPLUG"
    ∷ reg 0x1000d 0 0 "CAP_SSVID"
    ∷ reg 0x1000e 0 0 "CAP_AGP3"
    ∷ reg 0x1000f 0 0 "CAP_SECURE"
    ∷ reg 0x10010 0 0 "CAP_EXP"
    ∷ reg 0x10011 0 0 "CAP_MSIX"
    ∷ reg 0x10012 0 0 "CAP_SATA"
    ∷ reg 0x10013 0 0 "CAP_AF"
    ∷ reg 0x10014 0 0 "CAP_EA"
    ∷ reg 0x20001 0 0 "ECAP_AER"
    ∷ reg 0x20002 0 0 "ECAP_VC"
    ∷ reg 0x20003 0 0 "ECAP_DSN"
    ∷ reg 0x20004 0 0 "ECAP_PB"
    ∷ reg 0x20005 0 0 "ECAP_RCLINK"
    ∷ reg 0x20006 0 0 "ECAP_RCILINK"
    ∷ reg 0x20007 0 0 "ECAP_RCEC"
    ∷ reg 0x20008 0 0 "ECAP_MFVC"
    ∷ reg 0x20009 0 0 "ECAP_VC2"
    ∷ reg 0x2000a 0 0 "ECAP_RBCB"
    ∷ reg 0x2000b 0 0 "ECAP_VNDR"
    ∷ reg 0x2000d 0 0 "ECAP_ACS"
    ∷ reg 0x2000e 0 0 "ECAP_ARI"
    ∷ reg 0x2000f 0 0 "ECAP_ATS"
    ∷ reg 0x20010 0 0 "ECAP_SRIOV"
    ∷ reg 0x20011 0 0 "ECAP_MRIOV"
    ∷ reg 0x20012 0 0 "ECAP_MCAST"
    ∷ reg 0x20013 0 0 "ECAP_PRI"
    ∷ reg 0x20015 0 0 "ECAP_REBAR"
    ∷ reg 0x20016 0 0 "ECAP_DPA"
    ∷ reg 0x20017 0 0 "ECAP_TPH"
    ∷ reg 0x20018 0 0 "ECAP_LTR"
    ∷ reg 0x20019 0 0 "ECAP_SECPCI"
    ∷ reg 0x2001a 0 0 "ECAP_PMUX"
    ∷ reg 0x2001b 0 0 "ECAP_PASID"
    ∷ reg 0x2001c 0 0 "ECAP_LNR"
    ∷ reg 0x2001d 0 0 "ECAP_DPC"
    ∷ reg 0x2001e 0 0 "ECAP_L1PM"
    ∷ reg 0x2001f 0 0 "ECAP_PTM"
    ∷ reg 0x20020 0 0 "ECAP_M_PCIE"
    ∷ reg 0x20021 0 0 "ECAP_FRS"
    ∷ reg 0x20022 0 0 "ECAP_RTR"
    ∷ reg 0x20023 0 0 "ECAP_DVSEC"
    ∷ reg 0x20024 0 0 "ECAP_VF_REBAR"
    ∷ reg 0x20025 0 0 "ECAP_DLNK"
    ∷ reg 0x20026 0 0 "ECAP_16GT"
    ∷ reg 0x20027 0 0 "ECAP_LMR"
    ∷ reg 0x20028 0 0 "ECAP_HIER_ID"
    ∷ reg 0x20029 0 0 "ECAP_NPEM"
    ∷ []

-- `tolower` in the C locale
abbrev pub to_lower : ℕ → ℕ
to_lower c = if leb b'A' c && leb c b'Z' then c + 32 else c

-- `!strcmp(a, b)`
unfoldable pub same_text : Text → Text → Bool
same_text [] [] = true
same_text [] (d ∷ t) = false
same_text (c ∷ s) [] = false
same_text (c ∷ s) (d ∷ t) = c == d && same_text s t

-- `!strcasecmp(a, b)`
unfoldable pub same_letters : Text → Text → Bool
same_letters [] [] = true
same_letters [] (d ∷ t) = false
same_letters (c ∷ s) [] = false
same_letters (c ∷ s) (d ∷ t) = to_lower c == to_lower d && same_letters s t

unfoldable pub find_name : List RegName → Text → Option RegName
unfolding same_letters
find_name [] name = none
find_name (r ∷ rs) name = if same_letters r.name name then some r else find_name rs name

unfoldable pub parse_reg_name : Text → Option RegName
unfolding find_name pci_reg_names
parse_reg_name name = find_name pci_reg_names name

-- `"-BW?L"[width]`: the terminator is a character of the text
unfoldable pub width_letter : ℕ → Outcome ℕ
unfolding codes
width_letter width = elim (get_elem? (codes "-BW?L" ++ 0 ∷ []) width) [
  | none ↦ fault
  | some c ↦ ok c
]

cap_text : ℕ → Text
unfolding hex_width codes
cap_text cap =
    if leb 0x2_0000 cap
    then hex_width 4 (cap - 0x2_0000)
    else if cap == 0
    then codes "    "
    else codes "  " ++ hex_width 2 (cap - 0x1_0000)

unfoldable pub register_line : RegName → Outcome Text
unfolding cap_text width_letter hex_width codes
register_line r = elim (width_letter r.width) [
  | ok c ↦ ok (
      cap_text r.cap
      ++ (codes " "
          ++ (hex_width 2 r.offset ++ (codes " " ++ (c ∷ (codes " " ++ (r.name ++ codes "\n")))))))
  | _ ↦ fault
]
