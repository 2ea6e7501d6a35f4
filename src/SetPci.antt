-- ===== src/SetPci.antt =====
-- setpci (src/setpci.c): its data, and what it shares with the rest. It reads registers of PCI
-- devices and writes them: the command line names devices and operations, each operation a
-- register, a width and perhaps values to write.
pub mod Number
pub mod Registers
pub mod Parse
pub mod Run
pub mod Args
use adnacom_hotplug.Common.{ℕ, ◌-◌, ◌%◌, ◌^◌, List, [], ◌∷◌}
use adnacom_hotplug.Pci.{PciFilter}

-- `struct value`: two 32-bit words
pub record Value : Type 0 where
  pub value : ℕ
  pub mask : ℕ

-- `struct op`, with its array of values. The widths are 1, 2 and 4; a capability type 0 stands for
-- an address that is not relative to a capability.
pub record Op : Type 0 where
  pub cap_type : ℕ
  pub cap_id : ℕ
  pub addr : ℕ
  pub width : ℕ
  pub num_values : ℕ
  pub number : ℕ
  pub values : List Value

-- `struct group`: the operations in the order of the command line
pub record Group : Type 0 where
  pub filter : PciFilter
  pub ops : List Op

-- The global flags that the options set. Each counts how often its option is given.
pub record Flags : Type 0 where
  pub verbose : ℕ
  pub force : ℕ
  pub demo_mode : ℕ
  pub allow_raw_access : ℕ

abbrev pub u32 : ℕ → ℕ
u32 n = n % 2 ^ 32

-- `~x` of a 32-bit word
abbrev pub complement : ℕ → ℕ
complement x = 0xffff_ffff - x

-- `max_values`
abbrev pub max_values : List ℕ
max_values = 0 ∷ 0xff ∷ 0xffff ∷ 0 ∷ 0xffff_ffff ∷ []
