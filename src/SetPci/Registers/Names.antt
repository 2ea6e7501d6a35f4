-- ===== src/SetPci/Registers/Names.antt =====
-- The names of the registers: each one names its register.
use adnacom_hotplug.Common.{
  ℕ, ◌≡◌, refl, subst, Bool, true, false, ◌&&◌, Option, none, some, List, [], ◌∷◌, arith, AllOf,
  all, all-AllOf, ◌==◌, ok, get_elem?, zero, suc, ◌/◌, ◌%◌, if◌then◌else◌, ltb,
}
use adnacom_hotplug.Common.Text.{Text}
use adnacom_hotplug.SetPci.Number.{parse_x32, whole, hex_digit}
use adnacom_hotplug.SetPci.Registers.{RegName, pci_reg_names, same_text, parse_reg_name}
use adnacom_hotplug.SetPci.Parse.{named_place, parse_register}

pub same_text_iff : (s t : Text) → same_text s t ≡ true → s ≡ t
unfolding same_text
same_text_iff [] [] h = refl
same_text_iff [] (d ∷ t) h = cc
same_text_iff (c ∷ s) [] h = cc
same_text_iff (c ∷ s) (d ∷ t) h = ground (arith, same_text_iff s t)

-- Is the name found, with this entry, and is it no number?
is_entry : Option ℕ → Option RegName → RegName → Bool
is_entry none (some q) r =
    q.cap == r.cap && (q.offset == r.offset && (q.width == r.width && same_text q.name r.name))
is_entry _ _ r = false

resolves : RegName → Bool
unfolding is_entry
resolves r = is_entry (whole (parse_x32 r.name)) (parse_reg_name r.name) r

all_resolve : all resolves pci_reg_names ≡ true
unfolding resolves pci_reg_names parse_x32 parse_reg_name same_text hex_digit
all_resolve = refl

is_entry_lem :
    (n : Option ℕ) (q : Option RegName) (r : RegName)
    → is_entry n q r ≡ true
    → (n ≡ none) × (q ≡ some r)
unfolding is_entry
is_entry_lem none (some q) r h =
    let name = same_text_iff q.name r.name (ground arith) in (refl, ground (arith, name))
is_entry_lem none none r h = cc
is_entry_lem (some n) q r h = cc

resolves_lem :
    (r : RegName)
    → resolves r ≡ true
    → is_entry (whole (parse_x32 r.name)) (parse_reg_name r.name) r ≡ true
unfolding resolves
resolves_lem r h = h

AllOf-get :
    (P : RegName → Type 0) (rs : List RegName) (i : ℕ) {r : RegName}
    → AllOf P rs
    → get_elem? rs i ≡ some r
    → P r
AllOf-get P [] i a h = cc
AllOf-get P (q ∷ rs) zero a h = subst P (cc) a.0
AllOf-get P (q ∷ rs) (suc i) a h = AllOf-get P rs i a.1 h

-- The kind of capability is what stands above 16 bits of an entry's `cap`, and its id what stands in
-- them.
has_fields : RegName → Bool
has_fields r =
    (named_place r 0).cap_type == r.cap / 0x1_0000 && (named_place r 0).cap_id == r.cap % 0x1_0000

all_have_fields : all has_fields pci_reg_names ≡ true
unfolding has_fields pci_reg_names named_place
all_have_fields = refl

width_lem : (v w : ℕ) → (if ltb 0 v && w == 0 then v else w) ≡ (if w == 0 then v else w)
width_lem v w = ground arith

named_place_lem :
    (r : RegName) (w : ℕ)
    → has_fields r ≡ true
    → named_place r w ≡ record {
      cap_type = r.cap / 0x1_0000;
      cap_id = r.cap % 0x1_0000;
      addr = r.offset;
      width = if w == 0 then r.width else w;
    }
unfolding has_fields named_place
named_place_lem r w h =
    let kind : (named_place r 0).cap_type ≡ r.cap / 0x1_0000 = ground arith in
    let id : (named_place r 0).cap_id ≡ r.cap % 0x1_0000 = ground arith in
    rw (kind, id, width_lem r.width w) refl

-- Each name of the table is accepted where a register is expected, and names the register of its own
-- entry: its place, its width unless another is asked for, the kind of its capability, which stands
-- above the low 16 bits of `cap`, and the id in those. No name reads as a number, and none hides
-- behind another.
pub parse_register-name :
    (i : ℕ) (r : RegName) (w : ℕ)
    → get_elem? pci_reg_names i ≡ some r
    → parse_register r.name w
      ≡ ok (record {
        cap_type = r.cap / 0x1_0000;
        cap_id = r.cap % 0x1_0000;
        addr = r.offset;
        width = if w == 0 then r.width else w;
      })
unfolding parse_register
parse_register-name i r w h =
    let found =
      AllOf-get (λ r. resolves r ≡ true) pci_reg_names i
        (all-AllOf resolves pci_reg_names all_resolve) h in
    let (word, entry) =
      is_entry_lem (whole (parse_x32 r.name)) (parse_reg_name r.name) r (resolves_lem r found) in
    let fields =
      AllOf-get (λ r. has_fields r ≡ true) pci_reg_names i
        (all-AllOf has_fields pci_reg_names all_have_fields) h in
    rw (word, entry, parse_register) (rw (named_place_lem r w fields) refl)
