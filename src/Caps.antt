-- ===== src/Caps.antt =====
-- The capability lists of a device, as the tool's build shows them (ls-caps.c: cap_pm, link_speed,
-- link_compare, aspm_enabled, cap_express_link, cap_express_slot, cap_express, show_caps; ls-ecaps.c:
-- cap_dsn, show_ext_caps). Code between `#ifndef ADNA` and `#endif` is not compiled and left out.
pub mod Plain
pub mod Walk
use adnacom_hotplug.Common.{
  ℕ, zero, suc, ◌+◌, ◌*◌, ◌-◌, ◌/◌, ◌%◌, ◌^◌, Bool, true, false, ◌&&◌, ◌||◌, not, Option, none,
  some, List, [], ◌∷◌, ◌++◌, map, ltb, leb, ◌==◌, if◌then◌else◌, get_elem?, set, replicate, bit_and,
  Outcome, ok, fault, diverged,
}
use adnacom_hotplug.Common.Text.{Text, codes, hex_width, dec}
use adnacom_hotplug.Pci.{
  pci_status, pci_status_cap_list, pci_exp_lnkcap, pci_exp_lnksta, pci_exp_lnk_speed,
  pci_exp_lnk_width, pci_exp_lnksta_dl_act, pci_exp_flags_type, pci_exp_type_upstream,
  pci_exp_type_downstream,
}
use adnacom_hotplug.Platform.{Platform, Effect, print}
use adnacom_hotplug.Config.{Device}
use adnacom_hotplug.Link.{Comparison, downgraded, strange, same, link_compare}
use adnacom_hotplug.Machine.{
  AdnaDevice, Sys, M, ◌>>=◌, ◌>>◌, pure, lift, gets, skip, when◌then◌else◌, null_or, modify, emit,
  device_at, fetch, conf_byte, conf_word, conf_long,
}

-- `printf("%s", link_compare(…))`
unfoldable pub comparison_text : Comparison → Text
unfolding codes
comparison_text downgraded = codes "downgraded"
comparison_text strange = codes "strange"
comparison_text same = codes "ok"

unfoldable pub link_speed : ℕ → Text
unfolding codes
link_speed speed =
    if speed == 1
    then codes "2.5GT/s"
    else if speed == 2
    then codes "5GT/s"
    else if speed == 3
    then codes "8GT/s"
    else if speed == 4
    then codes "16GT/s"
    else if speed == 5
    then codes "32GT/s"
    else if speed == 6
    then codes "64GT/s"
    else codes "unknown"

-- An index into the array `desc` of four texts; past its end it is a fault.
abbrev pub aspm_texts : List Text
aspm_texts =
    codes "Disabled" ∷ codes "L0s Enabled" ∷ codes "L1 Enabled" ∷ codes "L0s L1 Enabled" ∷ []

unfoldable pub aspm_enabled : ℕ → Outcome Text
aspm_enabled code = elim (get_elem? aspm_texts code) [ none ↦ fault | some text ↦ ok text ]

-- The port types of lib/header.h, with the text that `cap_express` prints for them.
unfoldable pub port_type : ℕ → ℕ → Text
unfolding codes dec
port_type type cap =
    let slot = if bit_and cap 0x100 == 0 then codes "-" else codes "+" in
    if type == 0x0
    then codes "Endpoint"
    else if type == 0x1
    then codes "Legacy Endpoint"
    else if type == 0x4
    then codes "Root Port (Slot" ++ (slot ++ codes ")")
    else if type == 0x5
    then codes "Upstream Port"
    else if type == 0x6
    then codes "Downstream Port (No EEPROM access)"
    else if type == 0x7
    then codes "PCI-Express to PCI/PCI-X Bridge"
    else if type == 0x8
    then codes "PCI/PCI-X to PCI-Express Bridge (Slot" ++ (slot ++ codes ")")
    else if type == 0x9
    then codes "Root Complex Integrated Endpoint"
    else if type == 0xa
    then codes "Root Complex Event Collector"
    else codes "Unknown type " ++ dec type

-- `slot`: the types for which the slot bit of the flags is read.
abbrev pub has_slot : ℕ → ℕ → Bool
has_slot type cap = (type == 0x4 || (type == 0x6 || type == 0x8)) && not (bit_and cap 0x100 == 0)

-- `link`: all types but the two inside a root complex.
abbrev pub has_link : ℕ → Bool
has_link type = not (type == 0x9 || type == 0xa)

abbrev pub express_size : ℕ → Bool → ℕ
express_size type slot = if type == 0x4 || type == 0xa then 32 else if slot then 24 else 16

-- `a->bIsD3 = true` for every listed device of that number.
unfoldable pub mark_d3 : ℕ → AdnaDevice → AdnaDevice
mark_d3 devnum a = if a.devnum == devnum then record a { is_d3 = true } else a

unfoldable pub adna_set_d3_flag : {H : Type 0} → ℕ → M H (Unit {0})
unfolding mark_d3
adna_set_d3_flag devnum = modify λ s. record s { first_adna = map (mark_d3 devnum) (s.first_adna) }

-- `been_there[pos]++`: the value before, and the array after. Outside the array it is a fault.
unfoldable pub mark_visit : List ℕ → ℕ → Outcome (ℕ × List ℕ)
mark_visit been_there pos = elim (get_elem? been_there pos) [
  | none ↦ fault
  | some v ↦ ok (v, set been_there pos (v + 1))
]

abbrev pub align4 : ℕ → ℕ
align4 n = n - n % 4

abbrev pub latest : Option ℕ → Option ℕ → Option ℕ
latest none old = old
latest (some type) old = some type

module _ {H : Type 0} (p : Platform H) (verbose : ℕ) where
  abbrev pub say : Text → M H (Unit {0})
  say text = emit p (print text)

  -- The power state; a device that is not in D0 is flagged. The build has no `config_fetch` here.
  unfoldable pub cap_pm : ℕ → ℕ → M H (Unit {0})
  unfolding adna_set_d3_flag
  cap_pm d pos = conf_word p d (pos + 4) >>= λ t.
      say (codes "\tPower State: D" ++ (dec (bit_and t 3) ++ codes "\n"))
      >> device_at d
      >>= λ device.
          (when not (bit_and t 3 == 0) then adna_set_d3_flag (device.num_device) else skip)

  unfoldable pub cap_express_link : ℕ → ℕ → M H (Unit {0})
  unfolding aspm_enabled
  cap_express_link d pos = conf_long p d (pos + pci_exp_lnkcap) >>= λ t.
      let cap_speed = bit_and t pci_exp_lnk_speed in
      let cap_width = bit_and t pci_exp_lnk_width / 2 ^ 4 in
      conf_word p d (pos + 0x10) >>= λ lnkctl. lift (aspm_enabled (bit_and lnkctl 3)) >>= λ aspm.
      say (codes "\tASPM: ASPM " ++ (aspm ++ codes "\n"))
      >> conf_word p d (pos + pci_exp_lnksta)
      >>= λ w.
          let sta_speed = bit_and w pci_exp_lnk_speed in
          let sta_width = bit_and w pci_exp_lnk_width / 2 ^ 4 in
          say (
            codes "\tLink Status: Speed "
            ++ (link_speed sta_speed
                ++ (codes " ("
                    ++ (comparison_text (link_compare sta_speed cap_speed)
                        ++ (codes "), Width x"
                            ++ (dec sta_width
                                ++ (codes " ("
                                    ++ (comparison_text (link_compare sta_width cap_width)
                                        ++ codes ")\n"))))))))
          >> say (
              codes "\tLinkActive: "
              ++ (if bit_and w pci_exp_lnksta_dl_act == 0 then codes "No\n" else codes "Yes\n"))

  unfoldable pub cap_express_slot : ℕ → ℕ → M H (Unit {0})
  cap_express_slot d pos = conf_long p d (pos + 0x14) >>= λ t.
      say (
        codes "\tHotplug: Hotplug "
        ++ (if bit_and t 0x40 == 0 then codes "Not Supported\n" else codes "Supported\n"))
      >> conf_word p d (pos + 0x18)
      >>= λ sltctl. conf_word p d (pos + 0x1a) >>= λ sltsta. skip

  -- It returns the port type, and leaves early after the slot registers.
  unfoldable pub cap_express : ℕ → ℕ → ℕ → M H ℕ
  unfolding cap_express_link cap_express_slot
  cap_express d pos cap =
      let type = bit_and cap pci_exp_flags_type / 2 ^ 4 in
      let slot = has_slot type cap in
      say (codes "\tPort Type: ")
      >> say (port_type type cap)
      >> say (codes "\n")
      >> (when ltb verbose 2
          then skip
          else fetch p d (pos + 4) (express_size type slot) >>= λ fetched.
              when not fetched
              then skip
              else (when has_link type then cap_express_link d pos else skip)
                >> (when slot then cap_express_slot d pos else skip))
      >> pure type

  -- The `switch` on the capability's id: the type of a PCI Express capability if it is one.
  unfoldable pub show_cap : ℕ → ℕ → ℕ → ℕ → M H (Option ℕ)
  unfolding cap_pm cap_express
  show_cap d pos id cap =
      when id == 0x00
      then say (codes "Null\n") >> pure none
      else when id == 0x01
      then cap_pm d pos >> pure none
      else when id == 0x10
      then (cap_express d pos cap >>= λ type. pure (some type))
      else pure none

  -- The `while (where)` of `show_caps`; `type` is `none` as long as no PCI Express capability was
  -- met, which is when `can_have_ext_caps` is 0.
  unfoldable pub walk_caps : ℕ → ℕ → ℕ → List ℕ → Option ℕ → M H (Option ℕ)
  unfolding mark_visit
  walk_caps zero d pos been_there type = lift diverged
  walk_caps (suc f) d pos been_there type =
      when pos == 0
      then pure type
      else fetch p d pos 4 >>= λ fetched.
          when not fetched
          then say (codes "<access denied>\n") >> pure type
          else conf_byte p d pos >>= λ id. conf_byte p d (pos + 1) >>= λ next.
              conf_word p d (pos + 2) >>= λ cap. lift (mark_visit been_there pos) >>= λ visit.
              when not (visit.0 == 0)
              then say (codes "<chain looped>\n") >> pure type
              else when id == 0xff
              then say (codes "<chain broken>\n") >> pure type
              else show_cap d pos id cap >>= λ express.
                  walk_caps f d (align4 next) (visit.1) (latest express type)

  unfoldable pub cap_dsn : ℕ → ℕ → M H (Unit {0})
  cap_dsn d pos = fetch p d (pos + 4) 8 >>= λ fetched.
      when not fetched
      then skip
      else conf_long p d (pos + 4) >>= λ t1. conf_long p d (pos + 8) >>= λ t2. say (
          codes "\tDevice Serial Number: "
          ++ (hex_width 2 (t2 / 2 ^ 24)
              ++ (codes "-"
                  ++ (hex_width 2 (bit_and (t2 / 2 ^ 16) 0xff)
                      ++ (codes "-"
                          ++ (hex_width 2 (bit_and (t2 / 2 ^ 8) 0xff)
                              ++ (codes "-" ++ (hex_width 2 (bit_and t2 0xff) ++ codes "\n"))))))))

  -- The `do … while (where)` of `show_ext_caps`.
  unfoldable pub walk_ext_caps : ℕ → ℕ → ℕ → List ℕ → M H (Unit {0})
  unfolding mark_visit cap_dsn
  walk_ext_caps zero d pos been_there = lift diverged
  walk_ext_caps (suc f) d pos been_there = fetch p d pos 4 >>= λ fetched.
      when not fetched
      then skip
      else conf_long p d pos >>= λ header.
          when header == 0
          then skip
          else lift (mark_visit been_there pos) >>= λ visit.
              when not (visit.0 == 0)
              then say (codes "<chain looped>\n")
              else (when bit_and header 0xffff == 0x00
                  then say (codes "Null\n")
                  else when bit_and header 0xffff == 0x03
                  then cap_dsn d pos
                  else skip)
                >> let next = align4 (header / 2 ^ 20) in
                  when next == 0 then skip else walk_ext_caps f d next (visit.1)

  unfoldable pub show_ext_caps : ℕ → M H (Unit {0})
  unfolding walk_ext_caps
  show_ext_caps d = walk_ext_caps 0x1001 d 0x100 (replicate 0x1000 0)

  -- `pos` is the offset of the pointer to the first capability.
  unfoldable pub show_caps : ℕ → ℕ → M H (Unit {0})
  unfolding walk_caps show_ext_caps
  show_caps d pos = conf_word p d pci_status >>= λ status.
      (when bit_and status pci_status_cap_list == 0
        then pure none
        else conf_byte p d pos >>= λ first.
            walk_caps 0x101 d (align4 first) (replicate 0x100 0) none)
      >>= λ type. null_or type skip (λ t. show_ext_caps d)
