-- ===== src/SetPci/Parse.antt =====
-- An operation on the command line of setpci (src/setpci.c: parse_register, parse_op):
-- <base>[+<offset>][.(B|W|L)][@<number>][=<value>[:<mask>],...]. A text that is refused ends the
-- process with status 1 (`parse_err`, whose message is left out).
pub mod Places
pub mod Values
pub mod Splits
pub mod Accepts
use adnacom_hotplug.Common.{
  ℕ, zero, suc, ◌+◌, ◌-◌, ◌*◌, ◌<◌, Bool, true, false, ◌&&◌, ◌||◌, not, Option, none, some, List,
  [], ◌∷◌, ltb, leb, ◌==◌, if◌then◌else◌, get_elem?, Outcome, ok, exited, fault, bit_and, ◌>>=◌,
  ◌>>◌,
}
use adnacom_hotplug.Common.Text.{Text, codes}
use adnacom_hotplug.SetPci.{Value, Op, u32, complement, max_values}
use adnacom_hotplug.SetPci.Number.{parse_x32, whole}
use adnacom_hotplug.SetPci.Registers.{RegName, to_lower, parse_reg_name}

-- `if (after = strchr(text, c)) *after++ = 0`: what stands before the first `c`, and what follows it.
unfoldable pub split : ℕ → Text → Text × Option Text
split c [] = ([], none)
split c (d ∷ s) =
    let (before, after) = split c s in if d == c then ([], some s) else (d ∷ before, after)

unfoldable pub commas : Text → ℕ
commas [] = 0
commas (c ∷ s) = (if c == b',' then 1 else 0) + commas s

-- How many values there are; a `=` with nothing behind it is refused.
unfoldable pub count_values : Option Text → Outcome ℕ
unfolding commas
count_values none = ok 0
count_values (some []) = exited 1
count_values (some (c ∷ s)) = ok (1 + commas (c ∷ s))

-- The width of a suffix, 0 without one. The character behind the first is looked at even if there is
-- no first: that is the one behind the terminator, which lies in the argument only if a number or
-- values follow. The look leads to an error then.
unfoldable pub parse_width : Option Text → Bool → Outcome ℕ
parse_width none followed = ok 0
parse_width (some []) followed = if followed then exited 1 else fault
parse_width (some (c ∷ d ∷ s)) followed = exited 1
parse_width (some (c ∷ [])) followed =
    let letter = bit_and c 0xdf in
    if letter == b'B'
    then ok 1
    else if letter == b'W'
    then ok 2
    else if letter == b'L'
    then ok 4
    else exited 1

-- Which capability of its kind: an `int` that is not negative.
unfoldable pub parse_number : Option Text → Outcome ℕ
unfolding parse_x32
parse_number none = ok 0
parse_number (some s) = elim (whole (parse_x32 s)) [
  | none ↦ exited 1
  | some num ↦ if ltb num 0x8000_0000 then ok num else exited 1
]

-- What `parse_register` sets: the kind of capability and its id, the address, the width.
pub record Place : Type 0 where
  pub cap_type : ℕ
  pub cap_id : ℕ
  pub addr : ℕ
  pub width : ℕ

-- `strncasecmp(text, prefix, n) == 0`: what follows the prefix.
unfoldable pub after_prefix : Text → Text → Option Text
after_prefix [] s = some s
after_prefix (c ∷ p) [] = none
after_prefix (c ∷ p) (d ∷ s) =
    let rest = after_prefix p s in if to_lower c == to_lower d then rest else none

unfoldable pub named_place : RegName → ℕ → Place
named_place r width = record {
  cap_type =
      if bit_and r.cap 0xff_0000 == 0x1_0000
      then 1
      else if bit_and r.cap 0xff_0000 == 0x2_0000
      then 2
      else 0;
  cap_id = bit_and r.cap 0xffff;
  addr = r.offset;
  width = if ltb 0 r.width && width == 0 then r.width else width;
}

-- A capability by its number, which must lie below `limit`.
unfoldable pub numbered_place : ℕ → ℕ → Text → ℕ → Outcome Place
unfolding parse_x32
numbered_place cap_type limit digits width = elim (whole (parse_x32 digits)) [
  | none ↦ exited 1
  | some cap ↦
      if ltb cap limit
      then ok (record { cap_type = cap_type; cap_id = cap; addr = 0; width = width })
      else exited 1
]

unfoldable pub parse_register : Text → ℕ → Outcome Place
unfolding parse_x32 parse_reg_name named_place after_prefix numbered_place codes
parse_register base width = elim (whole (parse_x32 base)) [
  | some addr ↦ ok (record { cap_type = 0; cap_id = 0; addr = addr; width = width })
  | none ↦ elim (parse_reg_name base) [
    | some r ↦ ok (named_place r width)
    | none ↦ elim (after_prefix (codes "CAP") base) [
      | some digits ↦ numbered_place 1 0x100 digits width
      | none ↦ elim (after_prefix (codes "ECAP") base) [
        | some digits ↦ numbered_place 2 0x1000 digits width
        | none ↦ exited 1
      ]
    ]
  ]
]

-- The offset is added to the address as a 32-bit word.
unfoldable pub add_offset : Option Text → ℕ → Outcome ℕ
unfolding parse_x32
add_offset none addr = ok addr
add_offset (some s) addr = elim (whole (parse_x32 s)) [
  | none ↦ exited 1
  | some off ↦ if ltb off 0x1000 then ok (u32 (addr + off)) else exited 1
]

unfoldable pub check_range : ℕ → ℕ → ℕ → Outcome (Unit {0})
check_range addr width n =
    if leb 0x1000 addr || ltb 0x1000 (u32 (addr + u32 (width * (if n == 0 then 1 else n))))
    then exited 1
    else if bit_and addr (u32 (width + 0xffff_ffff)) == 0
    then ok tt
    else exited 1

-- A value or a mask is out of range if it is larger than the width's words, and does not stand for
-- a negative one either.
unfoldable pub out_of_range : ℕ → ℕ → Bool
out_of_range lim l = ltb lim l && ltb l (complement lim)

-- One value, with its mask.
unfoldable pub parse_value : ℕ → Text → Outcome Value
unfolding parse_x32 out_of_range
parse_value lim s = elim (parse_x32 s) [
  | none ↦ exited 1
  | some (l, []) ↦
      if out_of_range lim l then exited 1 else ok (record { value = l; mask = complement 0 })
  | some (l, c ∷ rest) ↦
      if not (c == b':') || out_of_range lim l then exited 1 else elim (whole (parse_x32 rest)) [
        | none ↦ exited 1
        | some m ↦
            if out_of_range lim m then exited 1 else ok (record { value = bit_and l m; mask = m })
      ]
]

-- The loop over the values. The pointer is NULL behind the last one.
unfoldable pub parse_values : ℕ → ℕ → Option Text → Outcome (List Value)
unfolding split parse_value
parse_values zero lim value = ok []
parse_values (suc n) lim none = fault
parse_values (suc n) lim (some value) =
    let (piece, rest) = split b',' value in
    let later = parse_values n lim rest in
    parse_value lim piece >>= λ v. later >>= λ vs. ok (v ∷ vs)

-- The limit of the values for a width: an entry of `max_values`.
unfoldable pub limit_of : ℕ → Outcome ℕ
limit_of width = elim (get_elem? max_values width) [ none ↦ fault | some lim ↦ ok lim ]

unfoldable pub is_there : Option Text → Bool
is_there none = false
is_there (some s) = true

unfoldable pub need_width : ℕ → Outcome (Unit {0})
need_width width = if width == 0 then exited 1 else ok tt

unfoldable pub parse_op : Text → Outcome Op
unfolding split count_values is_there parse_width parse_number parse_register add_offset check_range
    limit_of parse_values need_width
parse_op c =
    let (s1, value) = split b'=' c in
    let (s2, number) = split b'@' s1 in
    let (s3, width) = split b'.' s2 in
    let (base, offset) = split b'+' s3 in
    count_values value >>= λ n. parse_width width (is_there number || is_there value) >>= λ w.
    parse_number number >>= λ nr. parse_register base w >>= λ place. need_width place.width >>= λ _.
    add_offset offset place.addr >>= λ addr. check_range addr place.width n >>= λ _.
    limit_of place.width >>= λ lim. parse_values n lim value >>= λ values. ok (record {
      cap_type = place.cap_type;
      cap_id = place.cap_id;
      addr = addr;
      width = place.width;
      num_values = n;
      number = nr;
      values = values;
    })
