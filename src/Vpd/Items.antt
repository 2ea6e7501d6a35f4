-- ===== src/Vpd/Items.antt =====
-- The known items of vital product data, and how their values are printed (src/ls-vpd.c: vpd_items,
-- print_vpd_string, print_vpd_binary, cap_vpd).
use adnacom_hotplug.Common.{
  ℕ, zero, suc, Bool, true, false, ◌&&◌, ◌||◌, not, Option, none, some, List, [], ◌∷◌, ◌++◌, ltb,
  ◌==◌, if◌then◌else◌,
}
use adnacom_hotplug.Common.Int.{ℤ, pos, negsuc}
use adnacom_hotplug.Common.Text.{Text, codes, hex_width, dec, dec_int}

-- `enum vpd_format`
pub data VpdFormat : Type 0 where
  f_binary f_text f_resvd f_rdwr : VpdFormat

pub record VpdItem : Type 0 where
  pub id1 : ℕ
  pub id2 : ℕ
  pub format : VpdFormat
  pub name : Text

abbrev item : ℕ → ℕ → VpdFormat → Text → VpdItem
item a b f t = record { id1 = a; id2 = b; format = f; name = t }

unfoldable pub vpd_items : List VpdItem
unfolding codes
vpd_items =
    item b'C' b'P' f_binary (codes "Extended capability")
    ∷ item b'E' b'C' f_text (codes "Engineering changes")
    ∷ item b'M' b'N' f_text (codes "Manufacture ID")
    ∷ item b'P' b'N' f_text (codes "Part number")
    ∷ item b'R' b'V' f_resvd (codes "Reserved")
    ∷ item b'R' b'W' f_rdwr (codes "Read-write area")
    ∷ item b'S' b'N' f_text (codes "Serial number")
    ∷ item b'Y' b'A' f_text (codes "Asset tag")
    ∷ item b'V' 0 f_text (codes "Vendor specific")
    ∷ item b'Y' 0 f_text (codes "System specific")
    ∷ item b'C' b'C' f_text (codes "CCIN")
    ∷ item b'F' b'C' f_text (codes "Feature code")
    ∷ item b'F' b'N' f_text (codes "FRU")
    ∷ item b'N' b'A' f_text (codes "Network address")
    ∷ item b'R' b'M' f_text (codes "Firmware version")
    ∷ item b'Z' 0 f_text (codes "Product specific")
    ∷ item 0 0 f_binary (codes "Unknown")
    ∷ []

-- The search of the table: `none` is a read behind its end.
unfoldable pub find_item : List VpdItem → ℕ → ℕ → Option VpdItem
find_item [] a b = none
find_item (i ∷ items) a b =
    let next = find_item items a b in
    if not (i.id1 == 0) && not (i.id1 == a) || not (i.id2 == 0) && not (i.id2 == b)
    then next
    else some i

unfoldable pub vpd_char : ℕ → Bool → Text
unfolding hex_width codes
vpd_char ch last =
    if ch == 0x5c
    then codes "\\\\"
    else if ch == 0 && last
    then []
    else if ltb ch 32 || ch == 127
    then codes "\\x" ++ hex_width 2 ch
    else ch ∷ []

abbrev is_empty : List ℕ → Bool
is_empty [] = true
is_empty (b ∷ bs) = false

unfoldable pub print_vpd_string : List ℕ → Text
unfolding vpd_char
print_vpd_string [] = []
print_vpd_string (ch ∷ buf) = vpd_char ch (is_empty buf) ++ print_vpd_string buf

abbrev spaced : List ℕ → Text
spaced [] = []
spaced (b ∷ buf) = b' ' ∷ (hex_width 2 b ++ spaced buf)

unfoldable pub print_vpd_binary : List ℕ → Text
unfolding hex_width
print_vpd_binary [] = []
print_vpd_binary (b ∷ buf) = hex_width 2 b ++ spaced buf

abbrev pub is_resvd : VpdFormat → Bool
is_resvd f_resvd = true
is_resvd _ = false

abbrev reserved : ℕ → ℤ
reserved zero = negsuc 0
reserved (suc n) = pos n

unfoldable pub field_text : VpdFormat → ℕ → List ℕ → ℕ → Text
unfolding print_vpd_string print_vpd_binary codes dec dec_int
field_text f_text part_len buf csum = print_vpd_string buf ++ codes "\n"
field_text f_binary part_len buf csum = print_vpd_binary buf ++ codes "\n"
field_text f_resvd part_len buf csum =
    codes "checksum "
    ++ (codes (if csum == 0 then "good" else "bad")
        ++ (codes ", " ++ (dec_int (reserved part_len) ++ codes " byte(s) reserved\n")))
field_text f_rdwr part_len buf csum = dec part_len ++ codes " byte(s) free\n"
