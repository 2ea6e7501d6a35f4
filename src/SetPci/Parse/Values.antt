-- ===== src/SetPci/Parse/Values.antt =====
-- The values of an operation: as many as are counted, each within its mask.
use adnacom_hotplug.Common.{
  ℕ, zero, suc, ◌+◌, ◌^◌, ◌≤◌, ◌<◌, ◌≡◌, inl, inr, refl, ap, Option, none, some, [], ◌∷◌, arith,
  ◌==◌, length, AllOf, bit_and, Bool-cases, Option-cases, Ends, Ends-bind,
}
use adnacom_hotplug.Common.Bits.{bit_and-ones, bit_and_again, bit_and-le}
use adnacom_hotplug.Common.Text.{Text}
use adnacom_hotplug.SetPci.{Value}
use adnacom_hotplug.SetPci.Number.{strtoul, parse_x32, whole}
use adnacom_hotplug.SetPci.Parse.{split, commas, count_values, parse_value, parse_values}

-- Two 32-bit words, of which the value has no bit that the mask has not.
pub record IsMasked (v : Value) : Type 0 where
  pub value_word : v.value < 2 ^ 32
  pub mask_word : v.mask < 2 ^ 32
  pub within : bit_and v.value v.mask ≡ v.value

pub parse_x32-lt : (s : Text) {l : ℕ} {stop : Text} → parse_x32 s ≡ some (l, stop) → l < 2 ^ 32
unfolding parse_x32
parse_x32-lt [] h = cc
parse_x32-lt (c ∷ s) h = elim (Option-cases (strtoul (c ∷ s))) [
  | inl refused ↦ ground arith
  | inr ((l, stop), e) ↦ ground arith
]

pub whole-lt : (s : Text) {l : ℕ} → whole (parse_x32 s) ≡ some l → l < 2 ^ 32
whole-lt s h = elim (Option-cases (parse_x32 s)) [
  | inl refused ↦ ground arith
  | inr ((l, []), e) ↦ ground (arith, parse_x32-lt s e)
  | inr ((l, c ∷ rest), e) ↦ ground arith
]

pub IsMasked-all : (l : ℕ) → l < 2 ^ 32 → IsMasked (record { value = l; mask = 0xffff_ffff })
IsMasked-all l h = record { value_word = h; mask_word = omega arith; within = bit_and-ones 32 l h }

pub IsMasked-by :
    (l m : ℕ) → l < 2 ^ 32 → m < 2 ^ 32 → IsMasked (record { value = bit_and l m; mask = m })
IsMasked-by l m h k = record {
  value_word = omega (arith, bit_and-le l m);
  mask_word = k;
  within = bit_and_again l m;
}

pub parse_value-Ends : (lim : ℕ) (s : Text) → Ends ⊥ IsMasked (parse_value lim s)
unfolding parse_value
parse_value-Ends lim s = elim (Option-cases (parse_x32 s)) [
  | inl refused ↦ rw (refused, parse_value) refl
  | inr ((l, []), e) ↦
      let m = IsMasked-all l (parse_x32-lt s e) in rw (e, parse_value) (ground (arith, m))
  | inr ((l, c ∷ rest), e) ↦ elim (Option-cases (whole (parse_x32 rest))) [
    | inl refused ↦ rw (e, refused, parse_value) (ground arith)
    | inr (m, e') ↦
        let v = IsMasked-by l m (parse_x32-lt s e) (whole-lt rest e') in
        rw (e, e', parse_value) (ground (arith, v))
  ]
]

-- There are as many values as `n` counts.
pub HasValues : ℕ → Option Text → Type 0
HasValues n none = n ≡ 0
HasValues n (some s) = n ≡ 1 + commas s

pub count_values-Ends : (value : Option Text) → Ends ⊥ (λ n. HasValues n value) (count_values value)
unfolding count_values HasValues
count_values-Ends none = refl
count_values-Ends (some []) = refl
count_values-Ends (some (c ∷ s)) = refl

pub HasValues-split : (n : ℕ) (s : Text) → HasValues (suc n) (some s) → HasValues n (split b',' s).1
unfolding HasValues split commas
HasValues-split n [] h = omega arith
HasValues-split n (c ∷ s) h = elim (Bool-cases (c == b',')) [
  | inl comma ↦ rw comma (ground arith)
  | inr other ↦ rw other (HasValues-split n s (ground arith))
]

pub parse_values-Ends :
    (n lim : ℕ) (value : Option Text)
    → HasValues n value
    → Ends ⊥ (λ vs. (length vs ≡ n) × AllOf IsMasked vs) (parse_values n lim value)
unfolding parse_values
parse_values-Ends zero lim value c = (refl, tt)
parse_values-Ends (suc n) lim none c = absurd (unfold HasValues in omega arith)
parse_values-Ends (suc n) lim (some value) c =
    let (piece, rest) = split b',' value in
    Ends-bind ⊥ IsMasked _ (parse_value lim piece) _ (parse_value-Ends lim piece) λ v mv.
      Ends-bind ⊥ _ _ (parse_values n lim rest) _
        (parse_values-Ends n lim rest (HasValues-split n value c)) λ vs h. (ap suc h.0, (mv, h.1))

pub IsAfter : Option Text → ℕ → Type 0
IsAfter none n = Unit
IsAfter (some s) n = length s ≤ n

pub IsAfter-suc : (s : Option Text) (n : ℕ) → IsAfter s n → IsAfter s (suc n)
unfolding IsAfter
IsAfter-suc none n h = tt
IsAfter-suc (some s) n h = omega arith

pub split-shorter :
    (c : ℕ) (s : Text) → (length (split c s).0 ≤ length s) × IsAfter (split c s).1 (length s)
unfolding split IsAfter
split-shorter c [] = (omega arith, tt)
split-shorter c (d ∷ s) =
    let (before, after) = split-shorter c s in
    elim (Bool-cases (d == c)) [
      | inl here ↦ rw here (omega arith, omega arith)
      | inr later ↦ rw later (omega arith, IsAfter-suc (split c s).1 (length s) after)
    ]

pub commas-le : (s : Text) → commas s ≤ length s
unfolding commas
commas-le [] = omega arith
commas-le (c ∷ s) = ground (arith, commas-le s)

pub HasValues-le : (n k : ℕ) (value : Option Text) → IsAfter value k → HasValues n value → n ≤ k + 1
unfolding HasValues IsAfter
HasValues-le n k none a h = omega arith
HasValues-le n k (some s) a h = omega (arith, commas-le s)
