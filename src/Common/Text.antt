-- ===== src/Common/Text.antt =====
-- The texts that the program formats, as lists of character codes, and the conversions of `printf`
-- that it uses: `%0wx`, `%x` and `%d`.
use Prim.Native.Nat.{ℕ, zero, suc, ◌+◌, ◌-◌, ◌/◌, ◌%◌}
use Prim.Native.Char.{code}
use Prim.Native.String.{String}
use mathlib.Core.List.{List, [], ◌∷◌, ◌++◌}
use adnacom_hotplug.Common.Tests.{ltb, ◌==◌, if◌then◌else◌}
use adnacom_hotplug.Common.Lists.{length, replicate}
use adnacom_hotplug.Common.Int.{ℤ, pos, negsuc}

abbrev pub Text : Type 0
Text = List ℕ

unfoldable pub codes : String → Text
codes String.[] = []
codes (String.◌∷◌ c s) = code c ∷ codes s

-- The lower case digit of a value below 16.
unfoldable pub digit : ℕ → ℕ
digit n = if ltb n 10 then b'0' + n else b'a' + (n - 10)

-- The digits of `n` to the base `base`, before `acc`: at most as many as the fuel.
unfoldable pub digits_from : ℕ → ℕ → ℕ → Text → Text
unfolding digit
digits_from base zero n acc = acc
digits_from base (suc f) n acc =
    let more = digits_from base f (n / base) (digit (n % base) ∷ acc) in
    if n == 0 then acc else more

-- `%x` of an `unsigned int`, which has at most 8 digits.
unfoldable pub hex : ℕ → Text
unfolding digits_from
hex n = if n == 0 then b'0' ∷ [] else digits_from 16 8 n []

-- `%0wx`: zeros in front, up to the width.
unfoldable pub hex_width : ℕ → ℕ → Text
unfolding hex
hex_width w n = replicate (w - length (hex n)) b'0' ++ hex n

-- `%d` of a number that is not negative: at most 10 digits.
unfoldable pub dec : ℕ → Text
unfolding digits_from
dec n = if n == 0 then b'0' ∷ [] else digits_from 10 10 n []

-- `%d`
unfoldable pub dec_int : ℤ → Text
unfolding dec
dec_int (pos n) = dec n
dec_int (negsuc n) = b'-' ∷ dec (suc n)
