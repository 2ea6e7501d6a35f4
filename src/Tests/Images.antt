-- ===== src/Tests/Images.antt =====
-- Instances of the properties of the decoder of vital product data, and a run of it.
use adnacom_hotplug.Common.{◌≡◌, ℕ, List, [], ◌∷◌, ◌++◌, ok, arith}
use adnacom_hotplug.Common.Text.{codes}
use adnacom_hotplug.Vpd.{Vpd, cap_vpd}
use adnacom_hotplug.Vpd.Reads.{IsTidy}
use adnacom_hotplug.Vpd.Ends.{cap_vpd_ends}
use adnacom_hotplug.Vpd.Image.{reads_of, reads_of-AreBytes}
use adnacom_hotplug.Vpd.Name.{name_image, cap_vpd-name}

-- Read-only fields: a part number, and the reserved field that holds the checksum.
abbrev fields_image : List ℕ
fields_image = 0x90 ∷ 9 ∷ 0 ∷ b'P' ∷ b'N' ∷ 2 ∷ b'H' ∷ b'1' ∷ b'R' ∷ b'V' ∷ 1 ∷ 0x46 ∷ 0x78 ∷ []

cap_vpd_ends_example : (v : Vpd) × (cap_vpd (reads_of fields_image) 2 ≡ ok v) × IsTidy v
cap_vpd_ends_example =
    cap_vpd_ends (reads_of fields_image) (reads_of-AreBytes fields_image (omega arith)) 2

abbrev part : List ℕ
part = b'H' ∷ b'1' ∷ b'A' ∷ []

cap_vpd-name_example :
    (v : Vpd) × (cap_vpd (reads_of (name_image part)) 3 ≡ ok v)
    × (v.out
        ≡ codes "Vital Product Data\n"
          ++ (codes "\t\tProduct Name: " ++ (part ++ codes "\n\t\tEnd\n")))
cap_vpd-name_example = cap_vpd-name part (omega arith) (omega arith) 3 (omega arith)
