-- ===== src/SetPci/Parse/Places.antt =====
-- The register and the width of an operation: what the steps of `parse_op` return.
use adnacom_hotplug.Common.{
  ℕ, ◌+◌, ◌*◌, ◌%◌, ◌^◌, ◌≤◌, ◌<◌, ◌≡◌, ◌≢◌, ◌⊎◌, inl, inr, refl, Bool, true, ◌||◌, Option, none,
  some, List, [], ◌∷◌, arith, ◌==◌, AllOf, all, all-AllOf, bit_and, max, Bool-cases, Option-cases,
  Ends, Ends-weaken, false,
}
use adnacom_hotplug.Common.Bits.{bit_and-0x1, bit_and-0x3, bit_and-zero}
use adnacom_hotplug.Common.Text.{Text, codes}
use adnacom_hotplug.SetPci.{u32}
use adnacom_hotplug.SetPci.Number.{parse_x32, whole}
use adnacom_hotplug.SetPci.Registers.{
  RegName, pci_reg_names, same_letters, find_name, parse_reg_name,
}
use adnacom_hotplug.SetPci.Parse.{
  parse_width, Place, named_place, numbered_place, parse_register, after_prefix, check_range,
  need_width, add_offset, parse_number, limit_of,
}

-- An access of one, two or four bytes at a multiple of its width.
abbrev pub IsAligned : ℕ → ℕ → Type 0
IsAligned addr width = (width ≡ 1) ⊎ ((width ≡ 2) × (addr % 2 ≡ 0) ⊎ (width ≡ 4) × (addr % 4 ≡ 0))

pub IsWidth : ℕ → Type 0
IsWidth w = (w ≡ 0) ⊎ ((w ≡ 1) ⊎ ((w ≡ 2) ⊎ (w ≡ 4)))

-- The suffix is a lone dot, with no number and no values behind it.
abbrev pub IsBareDot : Option Text → Bool → Type 0
IsBareDot none followed = ⊥
IsBareDot (some []) followed = followed ≡ false
IsBareDot (some (c ∷ s)) followed = ⊥

pub parse_width-IsWidth :
    (s : Option Text) (followed : Bool)
    → Ends (IsBareDot s followed) IsWidth (parse_width s followed)
unfolding parse_width IsWidth
parse_width-IsWidth none f = ground arith
parse_width-IsWidth (some []) true = refl
parse_width-IsWidth (some []) false = refl
parse_width-IsWidth (some (c ∷ [])) f = ground arith
parse_width-IsWidth (some (c ∷ d ∷ s)) f = refl

pub is_width : RegName → Bool
is_width r = r.width == 0 || (r.width == 1 || (r.width == 2 || r.width == 4))

pub all_widths : all is_width pci_reg_names ≡ true
unfolding is_width pci_reg_names
all_widths = refl

pub find_name-width :
    (rs : List RegName) (name : Text) {r : RegName}
    → AllOf (λ r. is_width r ≡ true) rs
    → find_name rs name ≡ some r
    → IsWidth r.width
unfolding find_name is_width IsWidth
find_name-width [] name a h = cc
find_name-width (q ∷ rs) name a h = elim (Bool-cases (same_letters q.name name)) [
  | inl found ↦ ground arith
  | inr other ↦ find_name-width rs name a.1 (rw other at h)
]

pub parse_reg_name-width :
    (name : Text) {r : RegName} → parse_reg_name name ≡ some r → IsWidth r.width
unfolding parse_reg_name
parse_reg_name-width name h =
    find_name-width pci_reg_names name (all-AllOf is_width pci_reg_names all_widths) h

pub numbered_place-Ends :
    (t limit : ℕ) (s : Text) (w : ℕ)
    → Ends ⊥ (λ place. place.width ≡ w) (numbered_place t limit s w)
unfolding numbered_place
numbered_place-Ends t limit s w = ground arith

pub named_place-IsWidth :
    (r : RegName) (w : ℕ) → IsWidth r.width → IsWidth w → IsWidth (named_place r w).width
unfolding named_place IsWidth
named_place-IsWidth r w a b = ground arith

pub numbered-IsWidth :
    (t limit : ℕ) (s : Text) (w : ℕ)
    → IsWidth w
    → Ends ⊥ (λ place. IsWidth place.width) (numbered_place t limit s w)
numbered-IsWidth t limit s w v =
    Ends-weaken ⊥ (λ (place : Place). place.width ≡ w) (λ (place : Place). IsWidth place.width)
      (numbered_place t limit s w) (numbered_place-Ends t limit s w) (λ place e. rw e v)

pub parse_register-Ends :
    (base : Text) (w : ℕ)
    → IsWidth w
    → Ends ⊥ (λ place. IsWidth place.width) (parse_register base w)
unfolding parse_register
parse_register-Ends base w v = elim (Option-cases (whole (parse_x32 base))) [
  | inr (addr, number) ↦ rw (number, parse_register) v
  | inl other ↦ elim (Option-cases (parse_reg_name base)) [
    | inr (r, named) ↦
        rw (other, named, parse_register)
          (named_place-IsWidth r w (parse_reg_name-width base named) v)
    | inl unnamed ↦ elim (Option-cases (after_prefix (codes "CAP") base)) [
      | inr (digits, normal) ↦
          rw (other, unnamed, normal, parse_register) (numbered-IsWidth 1 0x100 digits w v)
      | inl more ↦ elim (Option-cases (after_prefix (codes "ECAP") base)) [
        | inr (digits, extended) ↦
            rw (other, unnamed, more, extended, parse_register)
              (numbered-IsWidth 2 0x1000 digits w v)
        | inl neither ↦ rw (other, unnamed, more, neither, parse_register) refl
      ]
    ]
  ]
]

pub need_width-Ends : (w : ℕ) → Ends ⊥ (λ _. w ≢ 0) (need_width w)
unfolding need_width
need_width-Ends w = ground arith

pub parse_number-Ends : (s : Option Text) → Ends ⊥ (λ n. n < 2 ^ 31) (parse_number s)
unfolding parse_number
parse_number-Ends none = omega arith
parse_number-Ends (some s) = ground arith

pub add_offset-Ends : (s : Option Text) (addr : ℕ) → Ends ⊥ (λ _. Unit) (add_offset s addr)
unfolding add_offset
add_offset-Ends none addr = tt
add_offset-Ends (some s) addr = ground arith

pub check_range-Ends :
    (addr w n : ℕ)
    → IsWidth w
    → w ≢ 0
    → n < 2 ^ 28
    → Ends ⊥ (λ _. IsAligned addr w × (addr + w * max 1 n ≤ 0x1000)) (check_range addr w n)
unfolding check_range IsWidth
check_range-Ends addr w n v nonzero small =
    ground (arith, bit_and-zero addr, bit_and-0x1 addr, bit_and-0x3 addr)

pub limit_of-Ends : (w : ℕ) → IsWidth w → Ends ⊥ (λ _. Unit) (limit_of w)
unfolding limit_of IsWidth
limit_of-Ends w v = ground arith

pub low_bits-IsAligned :
    (addr width : ℕ)
    → IsWidth width
    → width ≢ 0
    → (bit_and addr (u32 (width + 0xffff_ffff)) == 0) ≡ true
    → IsAligned addr width
unfolding IsWidth
low_bits-IsAligned addr width w nonzero h =
    ground (arith, bit_and-zero addr, bit_and-0x1 addr, bit_and-0x3 addr)

pub IsAligned-IsWidth : (addr width : ℕ) → IsAligned addr width → IsWidth width × (width ≢ 0)
unfolding IsWidth
IsAligned-IsWidth addr width (inl one) = (ground arith, omega arith)
IsAligned-IsWidth addr width (inr (inl two)) = (ground arith, omega arith)
IsAligned-IsWidth addr width (inr (inr four)) = (ground arith, omega arith)

-- The register behind an aligned one is aligned.
pub IsAligned-next : (addr width : ℕ) → IsAligned addr width → IsAligned (addr + width) width
IsAligned-next addr width (inl one) = inl one
IsAligned-next addr width (inr (inl (two, even))) = inr (inl (two, omega arith))
IsAligned-next addr width (inr (inr (four, even))) = inr (inr (four, omega arith))

pub IsAligned-low_bits :
    (addr width : ℕ) → IsAligned addr width → (bit_and addr (u32 (width + 0xffff_ffff)) == 0) ≡ true
IsAligned-low_bits addr width a =
    ground (arith, bit_and-zero addr, bit_and-0x1 addr, bit_and-0x3 addr)
