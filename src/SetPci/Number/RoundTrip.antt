-- ===== src/SetPci/Number/RoundTrip.antt =====
-- Reading back a number that `%x` prints.
use adnacom_hotplug.Common.{
  ℕ, zero, suc, ◌+◌, ◌*◌, ◌/◌, ◌%◌, ◌^◌, ◌≤◌, ◌<◌, ◌≡◌, ◌≢◌, ◌⊎◌, inl, inr, refl, true, false, some,
  [], ◌∷◌, arith, AllOf, Bool-cases, ==_iff, ◌==◌, ◌∙◌,
}
use adnacom_hotplug.Common.Text.{Text, digit, digits_from, hex}
use adnacom_hotplug.SetPci.Number.{
  hex_digit, scan, skip_spaces, sign, skip_prefix, strtoul, parse_x32, starts_with_digit,
}

-- The characters of `%x`.
abbrev IsLowerHex : ℕ → Type 0
IsLowerHex c = (b'0' ≤ c) × (c ≤ b'9') ⊎ (b'a' ≤ c) × (c ≤ b'f')

digit-IsLowerHex : (d : ℕ) → d < 16 → IsLowerHex (digit d)
unfolding digit
digit-IsLowerHex d h = ground arith

hex_digit-digit : (d : ℕ) → d < 16 → hex_digit (digit d) ≡ some d
unfolding digit hex_digit
hex_digit-digit d h = ground arith

abbrev sixteen_to : ℕ → ℕ
sixteen_to zero = 1
sixteen_to (suc f) = sixteen_to f * 16

-- Reading the last digit of `n` after the digits before it gives `n`.
scan_last : (n : ℕ) (s : Text) → scan (digit (n % 16) ∷ s) (n / 16) ≡ scan s n
unfolding scan
scan_last n s =
    let same : n / 16 * 16 + n % 16 ≡ n = omega arith in
    rw (hex_digit-digit (n % 16) (omega arith), scan) (rw same)

scan-nil : (n : ℕ) → scan [] n ≡ (n, [])
unfolding scan
scan-nil n = refl

scan-digits : (f n : ℕ) (s : Text) → n < sixteen_to f → scan (digits_from 16 f n s) 0 ≡ scan s n
unfolding digits_from
scan-digits zero n s h = let none_left : n ≡ 0 = omega arith in rw none_left
scan-digits (suc f) n s h = elim (Bool-cases (n == 0)) [
  | inl end ↦ rw (end, (==_iff n 0).0 end)
  | inr more ↦ rw more (scan-digits f (n / 16) (digit (n % 16) ∷ s) (omega arith) ∙ scan_last n s)
]

digits_from-IsLowerHex :
    (f n : ℕ) (s : Text) → AllOf IsLowerHex s → AllOf IsLowerHex (digits_from 16 f n s)
unfolding digits_from
digits_from-IsLowerHex zero n s h = h
digits_from-IsLowerHex (suc f) n s h = elim (Bool-cases (n == 0)) [
  | inl end ↦ rw end h
  | inr more ↦ rw more (
      digits_from-IsLowerHex f (n / 16) (digit (n % 16) ∷ s)
        (digit-IsLowerHex (n % 16) (omega arith), h))
]

digits_from-ne_nil : (f n c : ℕ) (s : Text) → digits_from 16 f n (c ∷ s) ≢ []
unfolding digits_from
digits_from-ne_nil zero n c s h = cc
digits_from-ne_nil (suc f) n c s h = elim (Bool-cases (n == 0)) [
  | inl end ↦ cc (rw end at h)
  | inr more ↦ digits_from-ne_nil f (n / 16) (digit (n % 16)) (c ∷ s) (rw more at h)
]

starts_a_number : (c : ℕ) (s : Text) → IsLowerHex c → starts_with_digit (c ∷ s) ≡ true
unfolding hex_digit
starts_a_number c s h = ground arith

-- A text of such characters has no space and no sign in front.
unsigned : (c : ℕ) (s : Text) → IsLowerHex c → sign (skip_spaces (c ∷ s)) ≡ (false, c ∷ s)
unfolding sign skip_spaces
unsigned c s h = ground arith

-- Nor has it a prefix, since that has an `x`.
unprefixed : (c : ℕ) (s : Text) → AllOf IsLowerHex s → skip_prefix (c ∷ s) ≡ c ∷ s
unfolding skip_prefix
unprefixed c [] h = refl
unprefixed c (d ∷ s) h = ground arith

-- Such a text is read to its end.
strtoul-digits :
    (c : ℕ) (s : Text) (n : ℕ)
    → AllOf IsLowerHex (c ∷ s)
    → scan (c ∷ s) 0 ≡ (n, [])
    → n < 2 ^ 32
    → strtoul (c ∷ s) ≡ some (n, [])
unfolding strtoul
strtoul-digits c s n h e small =
    rw (unsigned c s h.0, unprefixed c s h.1, starts_a_number c s h.0, e, strtoul) (ground arith)

parse_x32-digits :
    (s : Text) (n : ℕ)
    → s ≢ []
    → AllOf IsLowerHex s
    → scan s 0 ≡ (n, [])
    → n < 2 ^ 32
    → parse_x32 s ≡ some (n, [])
unfolding parse_x32
parse_x32-digits [] n h all e small = absurd (h refl)
parse_x32-digits (c ∷ s) n h all e small =
    rw (strtoul-digits c s n all e small, parse_x32) (ground arith)

digits_of_positive : (f n : ℕ) → n ≢ 0 → digits_from 16 (suc f) n [] ≢ []
unfolding digits_from
digits_of_positive f n pos h = elim (Bool-cases (n == 0)) [
  | inl none_left ↦ pos ((==_iff n 0).0 none_left)
  | inr more ↦ digits_from-ne_nil f (n / 16) (digit (n % 16)) [] (rw more at h)
]

hex_of_positive : (n : ℕ) → (n == 0) ≡ false → hex n ≡ digits_from 16 8 n []
unfolding hex
hex_of_positive n more = rw more

parse_x32-positive : (n : ℕ) → n ≢ 0 → n < 2 ^ 32 → parse_x32 (digits_from 16 8 n []) ≡ some (n, [])
parse_x32-positive n pos h =
    parse_x32-digits (digits_from 16 8 n []) n (digits_of_positive 7 n pos)
      (digits_from-IsLowerHex 8 n [] tt) (scan-digits 8 n [] h ∙ scan-nil n) h

parse_x32-zero : parse_x32 (hex 0) ≡ some (0, [])
unfolding parse_x32 hex hex_digit
parse_x32-zero = refl

-- Every 32-bit word is read back from its hexadecimal print, to the end of the text.
pub parse_x32-hex : (n : ℕ) → n < 2 ^ 32 → parse_x32 (hex n) ≡ some (n, [])
parse_x32-hex n h = elim (Bool-cases (n == 0)) [
  | inl nothing ↦ rw ((==_iff n 0).0 nothing) parse_x32-zero
  | inr more ↦ rw (hex_of_positive n more) (parse_x32-positive n (λ e. cc ((==_iff n 0).1 e)) h)
]
