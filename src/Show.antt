-- ===== src/Show.antt =====
-- What the tool prints of a device, and what it sets on the way (adna.c: show_slot_path,
-- show_slot_name, show_terse, show_htype0, show_htype1, show_verbose).
pub mod Cardbus
pub mod Plain
pub mod Ends
pub mod Command
use adnacom_hotplug.Common.{
  ℕ, zero, suc, ◌+◌, ◌*◌, ◌/◌, ◌%◌, ◌^◌, Bool, true, false, ◌&&◌, ◌||◌, not, Option, none, some,
  List, [], ◌∷◌, ◌++◌, ltb, leb, ◌==◌, if◌then◌else◌, get_elem?, bit_and, bit_or, Outcome, ok,
  fault, diverged, deref, length,
}
use adnacom_hotplug.Common.Text.{Text, codes, hex_width, dec}
use adnacom_hotplug.Pci.{
  PciDev, pci_command, pci_header_type, pci_header_type_normal, pci_header_type_bridge,
  pci_header_type_cardbus, pci_class_bridge_pci, pci_base_class_bridge,
}
use adnacom_hotplug.Platform.{Platform, Effect, print, write_byte}
use adnacom_hotplug.Config.{Device, get_subid}
use adnacom_hotplug.Machine.{
  Sys, M, ◌>>=◌, ◌>>◌, when◌then◌else◌, null_or, pure, lift, gets, skip, emit, store_cached,
  device_at, conf_byte, conf_word,
}
use adnacom_hotplug.Caps.{say, show_caps}
use adnacom_hotplug.Show.Cardbus.{show_htype2}

-- The options that the command line of lspci would set; `main` sets `verbose` alone.
pub record Options : Type 0 where
  pub verbose : ℕ
  pub opt_path : ℕ
  pub opt_machine : ℕ
  pub opt_kernel : ℕ

abbrev pub main_options : Options
main_options = record { verbose = 2; opt_path = 0; opt_machine = 0; opt_kernel = 0 }

module _ {H : Type 0} (p : Platform H) (o : Options) where
  abbrev out : Text → M H (Unit {0})
  out text = say p (o.verbose) text

  -- `br && br->br_dev` for the bridge that the device's bus hangs on. The bus is used untested.
  unfoldable pub upstream_device : ℕ → M H (Option ℕ)
  upstream_device d = device_at d >>= λ device. lift (deref (device.parent_bus)) >>= λ bus.
      gets (λ s. get_elem? s.topology.bridges bus.parent_bridge) >>= λ found.
      lift (deref found) >>= λ br. pure (br.br_dev)

  abbrev number_text : ℕ → Text
  number_text n = if n == 0 then codes "\t" else codes "[" ++ (dec n ++ codes "]\t")

  abbrev dev_func_text : PciDev → Text
  dev_func_text q = hex_width 2 (q.dev) ++ (codes "." ++ dec (q.func))

  -- The fuel is the number of bridges on the way to the host.
  unfoldable pub show_slot_path : ℕ → ℕ → M H (Unit {0})
  unfolding upstream_device
  show_slot_path zero d = lift diverged
  show_slot_path (suc f) d = device_at d >>= λ device.
      let q = device.dev in
      (when o.opt_path == 0 then pure none else upstream_device d) >>= λ up.
      null_or up
        (out (
          number_text (device.num_device)
          ++ (hex_width 2 (q.bus) ++ (codes ":" ++ dev_func_text q))))
        (λ b.
          show_slot_path f b
          >> out (
              codes "/"
              ++ ((if ltb 1 (o.opt_path) then hex_width 2 (q.bus) ++ codes ":" else [])
                  ++ dev_func_text q)))

  unfoldable pub show_slot_name : ℕ → M H (Unit {0})
  unfolding show_slot_path
  show_slot_name d = device_at d >>= λ device. gets (λ s. s.opt_domains) >>= λ opt_domains.
      gets (λ s. length (s.topology.bridges)) >>= λ depth.
      (when (if o.opt_machine == 0
          then not (opt_domains == 0)
          else not (device.dev.domain == 0) || leb 2 opt_domains)
        then out (hex_width 4 (device.dev.domain) ++ codes ":")
        else skip)
      >> show_slot_path (suc depth) d

  abbrev bracketed : Option Text → Text
  bracketed none = []
  bracketed (some x) = codes " [" ++ (x ++ codes "]")

  abbrev is_some : Option Text → Bool
  is_some none = false
  is_some (some x) = true

  -- The subsystem is read, and in this build not printed.
  unfoldable pub show_terse : ℕ → M H (Unit {0})
  unfolding show_slot_name
  show_terse d = device_at d >>= λ device.
      let q = device.dev in
      show_slot_name d
      >> out (
          codes " "
          ++ (p.class_name (q.device_class)
              ++ (codes ": " ++ p.device_name (q.vendor_id) (q.device_id))))
      >> conf_byte p d 0x08
      >>= λ rev.
          (when rev == 0 then skip else out (codes " (rev " ++ (hex_width 2 rev ++ codes ")")))
          >> (when o.verbose == 0
              then skip
              else conf_byte p d 0x09 >>= λ c.
                  let x = p.progif_name (q.device_class) c in
                  when not (c == 0) || is_some x
                  then out (codes " (prog-if " ++ (hex_width 2 c ++ (bracketed x ++ codes ")")))
                  else skip)
          >> out (codes "\n")
          >> (when o.verbose == 0 && o.opt_kernel == 0
              then skip
              else gets (λ s. p.label s.hw q) >>= λ label.
                  null_or label skip (λ text. out (codes "\tDeviceName: " ++ text))
                  >> lift (get_subid device)
                  >>= λ subsys. skip)

  -- I/O, memory and bus mastering are switched on, if any of them is off.
  unfoldable pub enable_command : ℕ → M H (Unit {0})
  enable_command d = conf_word p d pci_command >>= λ cmd. device_at d >>= λ device.
      when bit_and cmd 0x1 == 0 || (bit_and cmd 0x2 == 0 || bit_and cmd 0x4 == 0)
      then (let command = bit_or cmd 0x7 % 2 ^ 8 in
          store_cached d pci_command (command ∷ [])
          >> emit p (write_byte (device.dev) pci_command command))
      else skip

  -- "Invalid class" of the first `switch`: `none` is its `default`.
  unfoldable pub class_fits : ℕ → ℕ → Option Bool
  class_fits htype cls =
      if htype == pci_header_type_normal
      then some (not (cls == pci_class_bridge_pci))
      else if htype == pci_header_type_bridge || htype == pci_header_type_cardbus
      then some (cls / 2 ^ 8 == pci_base_class_bridge)
      else none

  abbrev line : Text → Option Text → M H (Unit {0})
  line title text = null_or text skip (λ x. out (title ++ (x ++ codes "\n")))

  -- The second `switch`. For a normal header and for a bridge this build shows the capabilities
  -- alone (show_htype0, show_htype1).
  unfoldable pub show_htype : ℕ → ℕ → M H (Unit {0})
  show_htype htype d =
      when htype == pci_header_type_cardbus
      then show_htype2 p (o.verbose) d
      else show_caps p (o.verbose) d 0x34

  unfoldable pub show_verbose : ℕ → M H (Unit {0})
  unfolding show_terse enable_command class_fits show_htype
  show_verbose d = device_at d >>= λ device.
      let q = device.dev in
      conf_byte p d pci_header_type >>= λ byte.
      let htype = bit_and byte 0x7f in
      show_terse d
      >> enable_command d
      >> null_or (class_fits htype (q.device_class))
          (out (codes "\t!!! Unknown header type " ++ (hex_width 2 htype ++ codes "\n")))
          (λ fits.
            (when fits
              then skip
              else out (
                  codes "\t!!! Invalid class "
                  ++ (hex_width 4 (q.device_class)
                      ++ (codes " for header type " ++ (hex_width 2 htype ++ codes "\n")))))
            >> (when htype == pci_header_type_normal
                then (conf_byte p d 0x3f >>= λ max_lat. conf_byte p d 0x3e >>= λ min_gnt. skip)
                else skip)
            >> gets (λ s. p.phy_slot s.hw q)
            >>= λ slot.
                line (codes "\tPhysical Slot: ") slot >> gets (λ s. p.dt_node s.hw q) >>= λ node.
                line (codes "\tDevice tree node: ") node >> show_htype htype d >> out (codes "\n"))
