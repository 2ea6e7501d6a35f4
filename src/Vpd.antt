-- ===== src/Vpd.antt =====
-- The decoder of vital product data (src/ls-vpd.c). What the device holds does not change during a
-- call, so a read is a function of its place and length; `Vpd` keeps the text that was printed and
-- the reads that were asked for.
pub mod Items
pub mod Reads
pub mod Headers
pub mod Ends
pub mod Image
pub mod Name
use adnacom_hotplug.Common.{
  ℕ, zero, suc, ◌+◌, ◌-◌, ◌*◌, ◌/◌, ◌%◌, ◌^◌, Bool, true, false, ◌&&◌, ◌||◌, not, Option, none,
  some, List, [], ◌∷◌, ◌++◌, ltb, leb, ◌==◌, if◌then◌else◌, bit_and, Outcome, ok, fault, diverged,
  ◌>>=◌,
}
use adnacom_hotplug.Common.Int.{ℤ, pos, negsuc}
use adnacom_hotplug.Vpd.Items.{
  VpdItem, find_item, vpd_items, is_resvd, print_vpd_string, field_text,
}
use adnacom_hotplug.Common.Text.{Text, codes, hex_width, dec, dec_int}

-- A read: its place, its length, and the bytes that came; none came if it failed.
pub record VpdRead : Type 0 where
  pub at : ℕ
  pub len : ℕ
  pub got : List ℕ

-- The checksum so far, and what was done, the latest read first.
pub record Vpd : Type 0 where
  pub csum : ℕ
  pub out : Text
  pub reads : List VpdRead

unfoldable pub say : Text → Vpd → Vpd
say t v = record v { out = v.out ++ t }

-- `*csum += *buf++` in bytes
unfoldable pub add_bytes : ℕ → List ℕ → ℕ
add_bytes c [] = c
add_bytes c (b ∷ buf) = add_bytes ((c + b) % 2 ^ 8) buf

-- `buf[i]` of what was read
unfoldable pub byte_of : List ℕ → ℕ → ℕ
byte_of [] i = 0
byte_of (b ∷ buf) zero = b
byte_of (b ∷ buf) (suc i) = byte_of buf i

abbrev pub word : ℕ → ℕ
word n = n % 2 ^ 16

-- PCI_VPD_ADDR_MASK
abbrev pub addr_mask : ℕ
addr_mask = 0x7fff

-- What comes of the header of a resource: a `break` with `res_addr`, or the tag, the length and the
-- address of a resource.
pub data Header : Type 0 where
  stop : ℕ → Header
  resource : ℕ → ℕ → ℕ → Header

abbrev pub check_len : ℕ → ℕ → ℕ → Header
check_len tag res_len res_addr =
    if ltb (addr_mask + 1) (res_addr + res_len)
    then stop res_addr
    else resource tag res_len res_addr

abbrev pub follow {ℓ} : {A : Type ℓ} → Option (List ℕ) × Vpd → (Vpd → A) → (List ℕ → Vpd → A) → A
follow (none, w) fail done = fail w
follow (some buf, w) fail done = done buf w

-- `pci_read_vpd` of the device: `none` is a failure.
module _ (vpd : ℕ → ℕ → Option (List ℕ)) where
  unfoldable pub read_vpd : ℕ → ℕ → Vpd → Option (List ℕ) × Vpd
  unfolding add_bytes
  read_vpd at len v = elim (vpd at len) [
    | none ↦ (none, record v { reads = record { at = at; len = len; got = [] } ∷ v.reads })
    | some buf ↦ (
      some buf,
      record v {
        csum = add_bytes v.csum buf;
        reads = record { at = at; len = len; got = buf } ∷ v.reads;
      },
    )
  ]

  -- `if (!read_vpd(...))`: what follows a failure, and what follows a success.
  unfoldable pub after_read {ℓ} : {A : Type ℓ} → ℕ → ℕ → Vpd → (Vpd → A) → (List ℕ → Vpd → A) → A
  unfolding read_vpd
  after_read at len v fail done = follow (read_vpd at len v) fail done

  unfoldable pub large_header : ℕ → ℕ → Vpd → Header × Vpd
  large_header tag a v =
      if ltb (addr_mask + 1 - 3) a
      then (stop a, v)
      else after_read (a + 1) 2 v (λ w. (stop a, w))
          (λ buf w. (check_len tag (byte_of buf 0 + byte_of buf 1 * 2 ^ 8) (word (a + 3)), w))

  unfoldable pub read_header : ℕ → Vpd → Header × Vpd
  read_header a v =
      after_read a 1 v (λ w. (stop a, w))
        (λ buf w.
          let tag = byte_of buf 0 in
          if bit_and tag 0x80 == 0
          then (check_len (tag / 2 ^ 3) (bit_and tag 7) (word (a + 1)), w)
          else large_header tag a w)

  -- The loop over the product name, from `part_pos` on. The fuel is more than what is left.
  unfoldable pub name_loop : ℕ → ℕ → ℕ → ℕ → Vpd → Outcome Vpd
  name_loop zero a len part_pos v = diverged
  name_loop (suc fuel) a len part_pos v =
      let left = len - part_pos in
      let part_len = if ltb 256 left then 256 else left in
      let round = after_read (a + part_pos) part_len v ok (λ buf w.
        name_loop fuel a len (word (part_pos + part_len)) (say (print_vpd_string buf) w)) in
      if ltb part_pos len then round else ok v

  -- The value of a field, and what is printed.
  unfoldable pub show_field : VpdItem → ℕ → ℕ → List ℕ → Vpd → Outcome (Option ℕ × Vpd)
  show_field i a part_pos buf v =
      let id1 = byte_of buf 0 in
      let id2 = byte_of buf 1 in
      let part_len = byte_of buf 2 in
      after_read (a + part_pos) (if is_resvd i.format then 1 else part_len) v (λ w. ok (none, w))
        (λ body w. ok (
          some (word (part_pos + part_len)),
          say
              (codes "\t\t\t["
                ++ (print_vpd_string (id1 ∷ id2 ∷ [])
                    ++ (codes "] "
                        ++ (i.name ++ (codes ": " ++ field_text i.format part_len body w.csum)))))
              w,
        ))

  -- What follows the three bytes in front of a field: `break` is `none`, else the next `part_pos`.
  unfoldable pub read_field : ℕ → ℕ → ℕ → List ℕ → Vpd → Outcome (Option ℕ × Vpd)
  read_field a len part_pos buf v =
      if ltb len (part_pos + byte_of buf 2)
      then ok (none, v)
      else elim (find_item vpd_items (byte_of buf 0) (byte_of buf 1)) [
        | none ↦ fault
        | some i ↦ show_field i a part_pos buf v
      ]

  unfoldable pub fields_loop : ℕ → ℕ → ℕ → ℕ → Vpd → Outcome Vpd
  fields_loop zero a len part_pos v = diverged
  fields_loop (suc fuel) a len part_pos v =
      let round = after_read (a + part_pos) 3 v ok (λ buf w.
        read_field a len (word (part_pos + 3)) buf w >>= λ r. elim (r.0) [
          | none ↦ ok (r.1)
          | some next ↦ fields_loop fuel a len next (r.1)
        ]) in
      if leb (part_pos + 3) len then round else ok v

  -- The `switch` over the tag: does the outer loop go on?
  unfoldable pub show_resource : ℕ → ℕ → ℕ → Vpd → Outcome (Bool × Vpd)
  show_resource tag len a v =
      if tag == 0x0f
      then ok (false, say (codes "\t\tEnd\n") v)
      else if tag == 0x82
      then (name_loop (len + 1) a len 0 (say (codes "\t\tProduct Name: ") v) >>= λ w.
          ok (true, say (codes "\n") w))
      else if tag == 0x90 || tag == 0x91
      then (let kind = if tag == 0x90 then codes "Read-only" else codes "Read/write" in
          fields_loop (len + 1) a len 0 (say (codes "\t\t" ++ (kind ++ codes " fields:\n")) v)
          >>= λ w. ok (true, w))
      else let size = if bit_and tag 0x80 == 0 then codes "small" else codes "large" in
        ok (
          false,
          say
              (codes "\t\tUnknown "
                ++ (size
                    ++ (codes " resource type "
                        ++ (hex_width 2 (bit_and tag 0x7f) ++ codes ", will not decode more.\n"))))
              v,
        )

  -- The outer loop: `res_addr` where it ends by its test or a `break`, `none` where it returns.
  unfoldable pub resources_loop : ℕ → ℕ → Vpd → Outcome (Option ℕ × Vpd)
  resources_loop zero a v = diverged
  resources_loop (suc fuel) a v =
      let (h, w) = read_header a v in
      let round : Outcome (Option ℕ × Vpd) = elim h [
        | stop b ↦ ok (some b, w)
        | resource tag len b ↦ show_resource tag len b w >>= λ r. elim (r.0) [
          | false ↦ ok (none, r.1)
          | true ↦ resources_loop fuel (word (b + len)) (r.1)
        ]
      ] in
      if leb a addr_mask then round else ok (some a, v)

  abbrev last_line : Option ℕ → Text
  last_line none = []
  last_line (some a) = if a == 0 then codes "\t\tNot readable\n" else codes "\t\tNo end tag found\n"

  unfoldable pub cap_vpd : ℕ → Outcome Vpd
  cap_vpd verbose =
      let begun = say (codes "Vital Product Data\n") (record { csum = 0; out = []; reads = [] }) in
      if ltb verbose 2
      then ok begun
      else resources_loop (addr_mask + 2) 0 begun >>= λ r. ok (say (last_line r.0) r.1)
