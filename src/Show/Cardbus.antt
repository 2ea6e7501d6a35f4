-- ===== src/Show/Cardbus.antt =====
-- The output for a CardBus bridge (adna.c: show_size, show_bases, show_htype2).
pub mod Ends
use adnacom_hotplug.Common.{
  ℕ, zero, suc, ◌+◌, ◌*◌, ◌/◌, ◌%◌, ◌^◌, Bool, false, ◌&&◌, ◌||◌, not, Option, none, some, List, [],
  ◌∷◌, ◌++◌, ltb, leb, ◌==◌, if◌then◌else◌, bit_and,
}
use adnacom_hotplug.Common.Text.{Text, codes, hex_width, dec}
use adnacom_hotplug.Pci.{pci_command}
use adnacom_hotplug.Platform.{Platform}
use adnacom_hotplug.Config.{u32}
use adnacom_hotplug.Machine.{
  M, ◌>>=◌, ◌>>◌, when◌then◌else◌, pure, gets, skip, device_at, conf_byte, conf_word, conf_long,
}
use adnacom_hotplug.Caps.{say, show_caps}

-- `x & y` as a condition.
abbrev pub has_bits : ℕ → ℕ → Bool
has_bits x y = not (bit_and x y == 0)

-- The macro FLAG.
unfoldable pub flag : ℕ → ℕ → Text
unfolding codes
flag x y = if has_bits x y then codes "+" else codes "-"

-- The loop of `show_size` over the suffixes: what is left of the size, and its suffix.
unfoldable pub scale_size : ℕ → List Text → Text → ℕ × Text
scale_size x [] suffix = (x, suffix)
scale_size x (larger ∷ rest) suffix =
    let more = scale_size (x / 1024) rest larger in
    if not (x % 1024 == 0) then (x, suffix) else more

unfoldable pub show_size : ℕ → Text
unfolding scale_size codes dec
show_size x =
    let (n, suffix) = scale_size x (codes "K" ∷ codes "M" ∷ codes "G" ∷ codes "T" ∷ []) [] in
    if x == 0 then [] else codes " [size=" ++ (dec (u32 n) ++ (suffix ++ codes "]"))

abbrev pub or_zero : Option ℕ → ℕ
or_zero none = 0
or_zero (some n) = n

-- The address of a region, or why there is none.
unfoldable pub address_text : ℕ → ℕ → Bool → Bool → Text
unfolding hex_width codes
address_text width a shown ignored =
    if shown then hex_width width a else if ignored then codes "<ignored>" else codes "<unassigned>"

abbrev pub state_text : Bool → Bool → Text
state_text virtual enabled =
    if virtual then codes " [virtual]" else if enabled then [] else codes " [disabled]"

-- The line of a region in I/O space, and of one in memory space.
unfoldable pub io_text : ℕ → ℕ → ℕ → Bool → Text
unfolding address_text codes
io_text pos cmd hw_lower virtual =
    let a = bit_and pos 0xffff_ffff_ffff_fffc in
    codes "I/O ports at "
    ++ (address_text 4 a (not (a == 0) || has_bits cmd 0x1) (not (hw_lower == 0))
        ++ state_text virtual (has_bits cmd 0x1))

unfoldable pub memory_text : ℕ → ℕ → ℕ → Bool → Bool → Bool → Text
unfolding address_text codes
memory_text pos flg cmd hardware broken virtual =
    let t = bit_and flg 0x06 in
    let a = bit_and pos 0xffff_ffff_ffff_fff0 in
    codes "Memory at "
    ++ ((if broken then codes "<broken-64-bit-slot>" else address_text 8 a (not (a == 0)) hardware)
        ++ (codes " ("
            ++ ((if t == 0x00
                  then codes "32-bit"
                  else if t == 0x04
                  then codes "64-bit"
                  else if t == 0x02
                  then codes "low-1M"
                  else codes "type 3")
                ++ (codes ", "
                    ++ ((if has_bits flg 0x08 then [] else codes "non-")
                        ++ (codes "prefetchable)" ++ state_text virtual (has_bits cmd 0x2)))))))

module _ {H : Type 0} (p : Platform H) (verbose : ℕ) where
  -- The upper half of a 64-bit address, which takes the next register; the last register has none.
  abbrev upper_half : ℕ → ℕ → Bool → Bool → M H ℕ
  upper_half d i wide broken =
      when wide && not broken then conf_long p d (0x10 + 4 * (i + 1)) else pure 0

  -- One round of the loop of `show_bases` that is not left by `continue`. It returns the index
  -- after the registers that it used, and the flag `virtual`, which no round resets.
  unfoldable pub show_base : ℕ → ℕ → ℕ → ℕ → ℕ → ℕ → ℕ → ℕ → Bool → M H (ℕ × Bool)
  unfolding io_text memory_text show_size
  show_base d cnt cmd i pos len ioflg flg virtual =
      let io = has_bits flg 0x01 in
      let hw_lower = if io then bit_and flg 0xffff_fffc else bit_and flg 0xffff_fff0 in
      let wide = not io && bit_and flg 0x06 == 0x04 in
      let broken = wide && leb cnt (i + 1) in
      upper_half d i wide broken >>= λ hw_upper.
      let hardware = not (hw_lower == 0) || not (hw_upper == 0) in
      let unseen = not (pos == 0) && (not hardware && not (has_bits ioflg 0x20)) in
      let flg' = if unseen then u32 pos else flg in
      let virtual' = virtual || unseen in
      say p verbose (
        (if ltb 1 verbose then codes "\tRegion " ++ (dec i ++ codes ": ") else codes "\t")
        ++ ((if has_bits flg' 0x01
              then io_text pos cmd hw_lower virtual'
              else memory_text pos flg' cmd hardware broken virtual')
            ++ ((if has_bits ioflg 0x20 then codes " [enhanced]" else [])
                ++ (show_size len ++ codes "\n"))))
      >>= λ _. pure (if wide && not broken then i + 2 else i + 1, virtual')

  -- The `for` of `show_bases`; the fuel is the count of registers.
  unfoldable pub bases_loop : ℕ → ℕ → ℕ → ℕ → ℕ → Bool → M H (Unit {0})
  unfolding show_base
  bases_loop zero d cnt cmd i virtual = skip
  bases_loop (suc f) d cnt cmd i virtual =
      when leb cnt i
      then skip
      else device_at d >>= λ device. gets (λ s. p.base_addr s.hw device.dev i) >>= λ pos.
          gets (λ s. or_zero (p.base_size s.hw device.dev i)) >>= λ len.
          gets (λ s. or_zero (p.base_flags s.hw device.dev i)) >>= λ ioflg.
          conf_long p d (0x10 + 4 * i) >>= λ raw.
          let flg = if raw == 0xffff_ffff then 0 else raw in
          when pos == 0 && (flg == 0 && len == 0)
          then bases_loop f d cnt cmd (i + 1) virtual
          else show_base d cnt cmd i pos len ioflg flg virtual >>= λ r.
              bases_loop f d cnt cmd (r.0) (r.1)

  unfoldable pub show_bases : ℕ → ℕ → M H (Unit {0})
  unfolding bases_loop
  show_bases d cnt = conf_word p d pci_command >>= λ cmd. bases_loop cnt d cnt cmd 0 false

  -- A memory window and an I/O window.
  unfoldable pub memory_window : ℕ → ℕ → ℕ → ℕ → M H (Unit {0})
  memory_window d cmd brc i = conf_long p d (0x1c + 8 * i) >>= λ base.
      conf_long p d (0x20 + 8 * i) >>= λ limit'.
      let limit = u32 (limit' + 0xfff) in
      when leb base limit || ltb 2 verbose
      then say p verbose (
          codes "\tMemory window "
          ++ (dec i
              ++ (codes ": "
                  ++ (hex_width 8 base
                      ++ (codes "-"
                          ++ (hex_width 8 limit
                              ++ ((if has_bits cmd 0x2 then [] else codes " [disabled]")
                                  ++ ((if has_bits brc (0x100 * 2 ^ i)
                                        then codes " (prefetchable)"
                                        else [])
                                      ++ codes "\n"))))))))
      else skip

  unfoldable pub io_window : ℕ → ℕ → ℕ → M H (Unit {0})
  io_window d cmd i = conf_long p d (0x2c + 8 * i) >>= λ base'.
      conf_long p d (0x30 + 8 * i) >>= λ limit'.
      let wide = has_bits base' 0x01 in
      let base = bit_and (if wide then base' else bit_and base' 0xffff) 0xffff_fffc in
      let limit = u32 (bit_and (if wide then limit' else bit_and limit' 0xffff) 0xffff_fffc + 3) in
      when leb base limit || ltb 2 verbose
      then say p verbose (
          codes "\tI/O window "
          ++ (dec i
              ++ (codes ": "
                  ++ (hex_width 8 base
                      ++ (codes "-"
                          ++ (hex_width 8 limit
                              ++ ((if has_bits cmd 0x1 then [] else codes " [disabled]")
                                  ++ codes "\n")))))))
      else skip

  abbrev bridge_control_text : ℕ → Text
  bridge_control_text brc =
      codes "\tBridgeCtl: Parity"
      ++ (flag brc 0x01
          ++ (codes " SERR"
              ++ (flag brc 0x02
                  ++ (codes " ISA"
                      ++ (flag brc 0x04
                          ++ (codes " VGA"
                              ++ (flag brc 0x08
                                  ++ (codes " MAbort"
                                      ++ (flag brc 0x20
                                          ++ (codes " >Reset"
                                              ++ (flag brc 0x40
                                                  ++ (codes " 16bInt"
                                                      ++ (flag brc 0x80
                                                          ++ (codes " PostWrite"
                                                            ++ (flag brc 0x400
                                                            ++ codes "\n")))))))))))))))

  unfoldable pub show_htype2 : ℕ → M H (Unit {0})
  unfolding show_bases memory_window io_window
  show_htype2 d = conf_word p d pci_command >>= λ cmd. conf_word p d 0x3e >>= λ brc.
      show_bases d 1 >>= λ _. conf_byte p d 0x18 >>= λ primary. conf_byte p d 0x19 >>= λ secondary.
      conf_byte p d 0x1a >>= λ subordinate. conf_byte p d 0x1b >>= λ latency.
      say p verbose (
        codes "\tBus: primary="
        ++ (hex_width 2 primary
            ++ (codes ", secondary="
                ++ (hex_width 2 secondary
                    ++ (codes ", subordinate="
                        ++ (hex_width 2 subordinate
                            ++ (codes ", sec-latency=" ++ (dec latency ++ codes "\n"))))))))
      >> memory_window d cmd brc 0
      >> memory_window d cmd brc 1
      >> io_window d cmd 0
      >> io_window d cmd 1
      >> conf_word p d 0x16
      >>= λ sec_status.
          (when has_bits sec_status 0x4000
            then say p verbose (codes "\tSecondary status: SERR\n")
            else skip)
          >> (when ltb 1 verbose then say p verbose (bridge_control_text brc) else skip)
          >> device_at d
          >>= λ device.
              when ltb (device.config_cached) 128
              then say p verbose (codes "\t<access denied to the rest>\n")
              else conf_word p d 0x44 >>= λ exca.
                  (when exca == 0
                    then skip
                    else say p verbose (
                        codes "\t16-bit legacy interface ports at "
                        ++ (hex_width 4 exca ++ codes "\n")))
                  >> show_caps p verbose d 0x14
