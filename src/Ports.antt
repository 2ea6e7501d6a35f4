-- ===== src/Ports.antt =====
-- What the tool does to a port (adna.c: pci_get_res0, pci_get_remove, pcimem, disable_port,
-- enable_port, remove_downstream, rescan_pci, settimer100ms, stoptimer). The messages that `-v`
-- makes `pcimem` print are left out.
pub mod Registers
pub mod Ends
use adnacom_hotplug.Common.{
  ℕ, ◌+◌, ◌-◌, ◌*◌, ◌%◌, Bool, true, false, not, Option, none, some, List, [], ◌∷◌, ◌++◌, ltb, leb,
  if◌then◌else◌, take, bit_or, bit_and, Outcome, ok, fault, deref,
}
use adnacom_hotplug.Common.Int.{ℤ, to_u32}
use adnacom_hotplug.Common.Text.{Text, codes, hex_width, dec_int}
use adnacom_hotplug.Pci.{PciFilter}
use adnacom_hotplug.Platform.{Platform, Effect, print_err, write_file, store_reg, sleep, set_timer}
use adnacom_hotplug.Machine.{
  AdnaDevice, Sys, M, ◌>>=◌, ◌>>◌, pure, lift, gets, exit, skip, when◌then◌else◌, emit,
}

-- `snprintf(buf, size, …)`: what is too long is cut off, and a zero byte ends the text.
abbrev pub snprintf : ℕ → Text → Text
snprintf size text = take (size - 1) text

-- "%04x:%02x:%02x.%d" of a filter
unfoldable pub slot_text : PciFilter → Text
unfolding hex_width codes dec_int
slot_text f =
    hex_width 4 (to_u32 f.domain)
    ++ (codes ":"
        ++ (hex_width 2 (to_u32 f.bus)
            ++ (codes ":" ++ (hex_width 2 (to_u32 f.slot) ++ (codes "." ++ dec_int f.func)))))

abbrev pub sysfs_file : PciFilter → Text → Text
sysfs_file f name = codes "/sys/bus/pci/devices/" ++ (slot_text f ++ name)

-- Both are called with buffers of 256 bytes.
unfoldable pub pci_get_res0 : PciFilter → Text
unfolding slot_text
pci_get_res0 f = snprintf 256 (sysfs_file f (codes "/resource0"))

unfoldable pub pci_get_remove : PciFilter → Text
unfolding slot_text
pci_get_remove f = snprintf 256 (sysfs_file f (codes "/remove"))

-- `enum access`
pub data Access : Type 0 where
  reg_read reg_write : Access

abbrev pub is_write : Access → Bool
is_write reg_read = false
is_write reg_write = true

abbrev pub h1a_disable_port1_offset : ℕ
h1a_disable_port1_offset = 0x0234

-- `target & ~(page_size - 1)`, for a page size that is a power of two.
abbrev pub page_start : ℕ → ℕ → ℕ
page_start target page = target - target % page

-- The length of the mapping: 4096, or as far as the word at `target` reaches.
abbrev pub map_size : ℕ → ℕ → ℕ
map_size target base = if ltb 4096 (target + 4 - base) then target + 4 - base else 4096

abbrev pub rescan_file : Text
rescan_file = codes "/sys/bus/pci/rescan"

module _ {H : Type 0} (p : Platform H) where
  -- PRINT_ERROR: a line on stderr, and `exit(1)`.
  unfoldable pub print_error : {A : Type 0} → M H A
  print_error = emit p (print_err []) >> exit 1

  -- `*(uint32_t *)(map_base + target - target_base)`: outside the mapping it is a fault.
  unfoldable pub load_mapped : Text → ℕ → ℕ → ℕ → M H ℕ
  load_mapped filename target base size =
      when leb (target - base + 4) size
      then gets (λ s. p.load_reg s.hw filename target)
      else lift fault

  unfoldable pub store_mapped : Text → ℕ → ℕ → ℕ → ℕ → M H (Unit {0})
  store_mapped filename target base size v =
      when leb (target - base + 4) size then emit p (store_reg filename target v) else lift fault

  unfoldable pub require : (H → Bool) → M H (Unit {0})
  unfolding print_error
  require test = gets (λ s. test s.hw) >>= λ good. when good then skip else print_error

  unfoldable pub pcimem : Access → PciFilter → ℕ → ℕ → M H ℕ
  unfolding load_mapped store_mapped require
  pcimem access f reg value =
      let filename = pci_get_res0 f in
      let base = page_start reg (p.page_size) in
      let size = map_size reg base in
      require (λ h. p.can_open h filename)
      >> require (λ h. p.can_map h filename)
      >> load_mapped filename reg base size
      >>= λ before.
          (when is_write access
            then store_mapped filename reg base size value >> load_mapped filename reg base size
            else pure before)
          >>= λ read_result.
              require (λ h. p.can_unmap h filename)
              >> pure (if is_write access then 0 else read_result)

  -- `a->parent` is used without a test for NULL.
  unfoldable pub disable_port : AdnaDevice → M H (Unit {0})
  disable_port a = lift (deref a.parent) >>= λ parent.
      pcimem reg_read parent h1a_disable_port1_offset 0 >>= λ control.
      pcimem reg_write parent h1a_disable_port1_offset (bit_or control 1) >> skip

  unfoldable pub enable_port : AdnaDevice → M H (Unit {0})
  enable_port a = lift (deref a.parent) >>= λ parent.
      pcimem reg_read parent h1a_disable_port1_offset 0 >>= λ control.
      pcimem reg_write parent h1a_disable_port1_offset (bit_and control 0xffff_fffe) >> skip

  -- `open`, `write(fd, "1", 1)`, `close`, with an exit on the first error.
  unfoldable pub write_one : Text → M H (Unit {0})
  unfolding require
  write_one filename =
      require (λ h. p.can_open h filename)
      >> require (λ h. p.can_write h filename)
      >> emit p (write_file filename (codes "1"))

  unfoldable pub remove_downstream : AdnaDevice → M H (Unit {0})
  unfolding write_one
  remove_downstream a = write_one (pci_get_remove a.this)

  unfoldable pub rescan_pci : M H (Unit {0})
  unfolding write_one
  rescan_pci = write_one rescan_file >> emit p (sleep 1)

  -- First after a second, then every 100 ms.
  unfoldable pub settimer100ms : M H (Unit {0})
  settimer100ms = emit p (set_timer 1 100000)

  unfoldable pub stoptimer : M H (Unit {0})
  stoptimer = emit p (set_timer 0 0)
