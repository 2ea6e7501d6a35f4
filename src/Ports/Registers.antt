-- ===== src/Ports/Registers.antt =====
-- The port control register (pcimem, disable_port, enable_port).
use adnacom_hotplug.Common.{
  ◌⊎◌, [], ◌≡◌, refl, ℕ, ◌+◌, ◌-◌, ◌%◌, ◌<◌, Bool, true, false, leb, ◌∷◌, some, bit_or, bit_and, ok,
  exited, Outcome, arith, Bool-cases, inl, inr,
}
use adnacom_hotplug.Common.Bits.{bit_or-one, bit_and-not_one}
use adnacom_hotplug.Common.Text.{Text}
use adnacom_hotplug.Pci.{PciFilter}
use adnacom_hotplug.Platform.{Platform, Effect, store_reg, print_err}
use adnacom_hotplug.Machine.{
  AdnaDevice, Sys, ◌>>=◌, ◌>>◌, pure, lift, gets, exit, modify, when◌then◌else◌, emit,
}
use adnacom_hotplug.Ports.{
  Access, reg_read, reg_write, pci_get_res0, page_start, map_size, print_error, load_mapped,
  store_mapped, require, pcimem, disable_port, enable_port,
}

-- The accessed word lies within the mapping, whatever the size of a page.
within_map :
    (target page : ℕ)
    → leb (target - page_start target page + 4) (map_size target (page_start target page)) ≡ true
within_map target page = ground arith

set_bit : (c : ℕ) → bit_or c 1 ≡ c - c % 2 + 1
set_bit c = omega (arith, bit_or-one c)

set_bit-lt : (c : ℕ) → c < 0x1_0000_0000 → bit_or c 1 < 0x1_0000_0000
set_bit-lt c h = omega (arith, bit_or-one c)

cleared_bit : (c : ℕ) → c < 0x1_0000_0000 → bit_and (bit_or c 1) 0xffff_fffe ≡ c - c % 2
cleared_bit c h = omega (arith, set_bit-lt c h, bit_or-one c, bit_and-not_one (bit_or c 1))

module _ {H : Type 0} (p : Platform H) where
  -- The file can be opened, mapped and unmapped.
  pub record IsUsable (name : Text) (h : H) : Type 0 where
    pub opens : p.can_open h name ≡ true
    pub maps : p.can_map h name ≡ true
    pub unmaps : p.can_unmap h name ≡ true

  -- What is assumed of registers: they hold 32 bits, a register reads back what was written to it,
  -- and a write leaves the file usable.
  pub record HasRegisters : Type 0 where
    pub narrow : (h : H) (name : Text) (reg : ℕ) → p.load_reg h name reg < 0x1_0000_0000
    pub reads_back :
        (h : H) (name : Text) (reg v : ℕ)
        → v < 0x1_0000_0000
        → p.load_reg (p.perform (store_reg name reg v) h) name reg ≡ v
    pub stays_usable :
        (h : H) (name : Text) (reg v : ℕ)
        → IsUsable name h
        → IsUsable name (p.perform (store_reg name reg v) h)

  abbrev pub after : Effect → Sys H → Sys H
  after e s = record s { hw = p.perform e s.hw; trace = e ∷ s.trace }

  pub require-true :
      (test : H → Bool) (s : Sys H) → test s.hw ≡ true → require p test s ≡ (ok tt, s)
  unfolding require ◌>>=◌ gets when◌then◌else◌ pure
  require-true test s e = rw e

  require-false :
      (test : H → Bool) (s : Sys H)
      → test s.hw ≡ false
      → require p test s ≡ (exited 1, after (print_err []) s)
  unfolding require ◌>>=◌ gets when◌then◌else◌ print_error emit modify exit
  require-false test s e = rw e

  load-mapped :
      (name : Text) (reg page : ℕ) (s : Sys H)
      → load_mapped p name reg (page_start reg page) (map_size reg (page_start reg page)) s
        ≡ (ok (p.load_reg s.hw name reg), s)
  unfolding load_mapped when◌then◌else◌ gets
  load-mapped name reg page s = rw (within_map reg page)

  store-mapped :
      (name : Text) (reg page v : ℕ) (s : Sys H)
      → store_mapped p name reg (page_start reg page) (map_size reg (page_start reg page)) v s
        ≡ (ok tt, after (store_reg name reg v) s)
  unfolding store_mapped when◌then◌else◌ emit modify
  store-mapped name reg page v s = rw (within_map reg page)

  pcimem-read :
      (f : PciFilter) (reg v : ℕ) (s : Sys H)
      → IsUsable (pci_get_res0 f) s.hw
      → pcimem p reg_read f reg v s ≡ (ok (p.load_reg s.hw (pci_get_res0 f) reg), s)
  unfolding pcimem ◌>>=◌ pure when◌then◌else◌
  pcimem-read f reg v s u = rw (require-true (λ h. p.can_open h (pci_get_res0 f)) s (u.opens)) (
      rw (require-true (λ h. p.can_map h (pci_get_res0 f)) s (u.maps)) (
        rw (load-mapped (pci_get_res0 f) reg (p.page_size) s)
          (rw (require-true (λ h. p.can_unmap h (pci_get_res0 f)) s (u.unmaps)) refl)))

  abbrev Finishes : Outcome ℕ × Sys H → Type 0
  Finishes r = ((n : ℕ) × (r.0 ≡ ok n)) ⊎ (r.0 ≡ exited 1)

  -- The end of a call: the mapping is removed, and a value returned.
  unmap_ends : (test : H → Bool) (n : ℕ) (s : Sys H) → Finishes ((require p test >>= λ _. pure n) s)
  unfolding ◌>>=◌ pure
  unmap_ends test n s = elim (Bool-cases (test s.hw)) [
    | inl good ↦ inl (n, rw (require-true test s good) refl)
    | inr bad ↦ inr (rw (require-false test s bad) refl)
  ]

  mapped_ends :
      (access : Access) (f : PciFilter) (reg v : ℕ) (s : Sys H)
      → p.can_open s.hw (pci_get_res0 f) ≡ true
      → p.can_map s.hw (pci_get_res0 f) ≡ true
      → Finishes (pcimem p access f reg v s)
  unfolding pcimem ◌>>=◌ pure when◌then◌else◌
  mapped_ends reg_read f reg v s opens maps =
      let name = pci_get_res0 f in
      rw (require-true (λ h. p.can_open h name) s opens) (
        rw (require-true (λ h. p.can_map h name) s maps)
          (rw (load-mapped name reg (p.page_size) s) (unmap_ends (λ h. p.can_unmap h name) _ s)))
  mapped_ends reg_write f reg v s opens maps =
      let name = pci_get_res0 f in
      let s' = after (store_reg name reg v) s in
      rw (require-true (λ h. p.can_open h name) s opens) (
        rw (require-true (λ h. p.can_map h name) s maps) (
          rw (load-mapped name reg (p.page_size) s) (
            rw (store-mapped name reg (p.page_size) v s) (
              rw (load-mapped name reg (p.page_size) s')
                (unmap_ends (λ h. p.can_unmap h name) 0 s')))))

  -- An access to a register returns, or ends the process with status 1, for every answer of the
  -- system, every page size and every register: the access never leaves the mapped pages.
  pub pcimem_ends :
      (access : Access) (f : PciFilter) (reg v : ℕ) (s : Sys H)
      → ((n : ℕ) × ((pcimem p access f reg v s).0 ≡ ok n))
        ⊎ ((pcimem p access f reg v s).0 ≡ exited 1)
  unfolding pcimem ◌>>=◌
  pcimem_ends access f reg v s =
      let name = pci_get_res0 f in
      elim (Bool-cases (p.can_open s.hw name)) [
        | inr bad ↦ inr (rw (require-false (λ h. p.can_open h name) s bad) refl)
        | inl opens ↦ elim (Bool-cases (p.can_map s.hw name)) [
          | inl maps ↦ mapped_ends access f reg v s opens maps
          | inr bad ↦ inr (
              rw (require-true (λ h. p.can_open h name) s opens)
                (rw (require-false (λ h. p.can_map h name) s bad) refl))
        ]
      ]

  -- The port control register of the parent device `f`.
  abbrev pub control : PciFilter → Sys H → ℕ
  control f s = p.load_reg s.hw (pci_get_res0 f) 0x234

  module _ (laws : HasRegisters) where
    pcimem-write :
        (f : PciFilter) (reg v : ℕ) (s : Sys H)
        → IsUsable (pci_get_res0 f) s.hw
        → pcimem p reg_write f reg v s ≡ (ok 0, after (store_reg (pci_get_res0 f) reg v) s)
    unfolding pcimem ◌>>=◌ pure when◌then◌else◌
    pcimem-write f reg v s u =
        let name = pci_get_res0 f in
        let s' = after (store_reg name reg v) s in
        let u' = laws.stays_usable s.hw name reg v u in
        rw (require-true (λ h. p.can_open h name) s (u.opens)) (
          rw (require-true (λ h. p.can_map h name) s (u.maps)) (
            rw (load-mapped name reg (p.page_size) s) (
              rw (store-mapped name reg (p.page_size) v s) (
                rw (load-mapped name reg (p.page_size) s')
                  (rw (require-true (λ h. p.can_unmap h name) s' (u'.unmaps)) refl)))))

    -- What a port is set to: its register with the lowest bit set, and with that bit cleared.
    disable-port :
        (a : AdnaDevice) (f : PciFilter) (s : Sys H)
        → a.parent ≡ some f
        → IsUsable (pci_get_res0 f) s.hw
        → disable_port p a s ≡ (
          ok tt,
          after
              (store_reg (pci_get_res0 f) 0x234 (bit_or (p.load_reg s.hw (pci_get_res0 f) 0x234) 1))
              s,
        )
    unfolding disable_port ◌>>=◌ lift pure
    disable-port a f s e u = rw e (
        rw (pcimem-read f 0x234 0 s u)
          (rw (pcimem-write f 0x234 (bit_or (p.load_reg s.hw (pci_get_res0 f) 0x234) 1) s u) refl))

    enable-port :
        (a : AdnaDevice) (f : PciFilter) (s : Sys H)
        → a.parent ≡ some f
        → IsUsable (pci_get_res0 f) s.hw
        → enable_port p a s ≡ (
          ok tt,
          after
              (store_reg
                (pci_get_res0 f)
                0x234
                (bit_and (p.load_reg s.hw (pci_get_res0 f) 0x234) 0xffff_fffe))
              s,
        )
    unfolding enable_port ◌>>=◌ lift pure
    enable-port a f s e u = rw e (
        rw (pcimem-read f 0x234 0 s u) (
          rw
            (pcimem-write f 0x234 (bit_and (p.load_reg s.hw (pci_get_res0 f) 0x234) 0xffff_fffe) s
              u)
            refl))

    -- The reset of a port that has a parent, whose register file is usable, with registers of 32 bits
    -- that read back what was written and stay usable: both calls return, and what they
    -- do is to write the register at 0x234 twice, first with its lowest bit set and then with that
    -- bit clear, its other bits each time as they were at the start.
    pub port_cycle :
        (a : AdnaDevice) (f : PciFilter) (s : Sys H)
        → a.parent ≡ some f
        → IsUsable (pci_get_res0 f) s.hw
        → (disable_port p a >> enable_port p a) s ≡ (
          ok tt,
          after
              (store_reg (pci_get_res0 f) 0x234 (control f s - control f s % 2))
              (after (store_reg (pci_get_res0 f) 0x234 (control f s - control f s % 2 + 1)) s),
        )
    unfolding ◌>>=◌
    port_cycle a f s e u =
        let name = pci_get_res0 f in
        let c = control f s in
        let s' = after (store_reg name 0x234 (bit_or c 1)) s in
        let narrow = laws.narrow s.hw name 0x234 in
        rw (disable-port a f s e u) (
          rw (enable-port a f s' e (laws.stays_usable s.hw name 0x234 (bit_or c 1) u)) (
            rw (laws.reads_back s.hw name 0x234 (bit_or c 1) (set_bit-lt c narrow))
              (rw (cleared_bit c narrow) (rw (set_bit c) refl))))
