-- ===== src/SetPci/Number.antt =====
-- Hexadecimal numbers on the command line of setpci (src/setpci.c: parse_x32), with `strtoul` to
-- the base 16. A text is a C string without its terminator.
pub mod RoundTrip
use adnacom_hotplug.Common.{
  ℕ, ◌+◌, ◌-◌, ◌*◌, ◌^◌, Bool, true, false, ◌&&◌, ◌||◌, not, Option, none, some, [], ◌∷◌, ltb, leb,
  ◌==◌, if◌then◌else◌,
}
use adnacom_hotplug.Common.Text.{Text}

-- `isspace` in the C locale
abbrev pub is_space : ℕ → Bool
is_space c = c == b' ' || leb 9 c && leb c 13

unfoldable pub hex_digit : ℕ → Option ℕ
hex_digit c =
    if leb b'0' c && leb c b'9'
    then some (c - b'0')
    else if leb b'a' c && leb c b'f'
    then some (c - b'a' + 10)
    else if leb b'A' c && leb c b'F'
    then some (c - b'A' + 10)
    else none

-- The number that the digits in front spell behind `acc`, and what follows them.
unfoldable pub scan : Text → ℕ → ℕ × Text
scan [] acc = (acc, [])
scan (c ∷ s) acc = elim (hex_digit c) [ none ↦ (acc, c ∷ s) | some d ↦ scan s (acc * 16 + d) ]

abbrev pub starts_with_digit : Text → Bool
starts_with_digit [] = false
starts_with_digit (c ∷ s) = elim (hex_digit c) [ none ↦ false | some d ↦ true ]

unfoldable pub skip_spaces : Text → Text
skip_spaces [] = []
skip_spaces (c ∷ s) = let rest = skip_spaces s in if is_space c then rest else c ∷ s

-- A sign in front: is it a minus, and the rest.
unfoldable pub sign : Text → Bool × Text
sign [] = (false, [])
sign (c ∷ s) = if c == b'-' then (true, s) else if c == b'+' then (false, s) else (false, c ∷ s)

-- "0x" in front, if a digit follows it
unfoldable pub skip_prefix : Text → Text
skip_prefix (z ∷ x ∷ s) =
    if z == b'0' && ((x == b'x' || x == b'X') && starts_with_digit s) then s else z ∷ x ∷ s
skip_prefix s = s

-- `strtoul(c, &stop, 16)`: the value and where it stops; `none` if `errno` is ERANGE. A text with no
-- digit has the value 0 and stops where it starts.
unfoldable pub strtoul : Text → Option (ℕ × Text)
unfolding skip_spaces sign skip_prefix scan
strtoul c =
    let (minus, s) = sign (skip_spaces c) in
    let t = skip_prefix s in
    let (l, stop) = scan t 0 in
    if starts_with_digit t
    then (if ltb (2 ^ 64 - 1) l
        then none
        else some (if minus && not (l == 0) then 2 ^ 64 - l else l, stop))
    else some (0, c)

-- `none` is the result -1. Else the word, and what follows it: the result is 1 if nothing does, and
-- 0 if something does.
unfoldable pub parse_x32 : Text → Option (ℕ × Text)
unfolding strtoul
parse_x32 [] = none
parse_x32 (c ∷ s) = elim (strtoul (c ∷ s)) [
  | none ↦ none
  | some (l, stop) ↦ if ltb 0xffff_ffff l then none else some (l, stop)
]

-- The number where the result is positive.
abbrev pub whole : Option (ℕ × Text) → Option ℕ
whole none = none
whole (some (l, [])) = some l
whole (some (l, c ∷ s)) = none
