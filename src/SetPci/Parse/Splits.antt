-- ===== src/SetPci/Parse/Splits.antt =====
-- Taking the text of an operation apart.
use adnacom_hotplug.Common.{
  ℕ, ◌≡◌, inl, inr, refl, ap, Bool, ◌||◌, Option, none, some, [], ◌∷◌, ◌++◌, arith, ◌==◌,
  Bool-cases, Option-cases, ◌∙◌, false,
}
use adnacom_hotplug.Common.Text.{Text}
use adnacom_hotplug.SetPci.Parse.{split, is_there}
use adnacom_hotplug.SetPci.Parse.Places.{IsBareDot}

-- A text is what `split` makes of it, put together again.
pub split-none : (c : ℕ) (s : Text) → (split c s).1 ≡ none → (split c s).0 ≡ s
unfolding split
split-none c [] h = refl
split-none c (d ∷ s) h = elim (Bool-cases (d == c)) [
  | inl here ↦ cc (rw here at h)
  | inr later ↦ rw later (ap (λ (t : Text). d ∷ t) (split-none c s (rw later at h)))
]

pub split-some : (c : ℕ) (s : Text) {t : Text} → (split c s).1 ≡ some t → s ≡ (split c s).0 ++ c ∷ t
unfolding split
split-some c [] h = cc
split-some c (d ∷ s) h = elim (Bool-cases (d == c)) [
  | inl here ↦ ground arith
  | inr later ↦ rw later (ap (λ (t : Text). d ∷ t) (split-some c s (rw later at h)))
]

-- A text whose last character is a dot.
abbrev pub EndsInDot : Text → Type 0
EndsInDot c = (s : Text) × (c ≡ s ++ b'.' ∷ [])

pub bare-EndsInDot :
    (s : Text) (followed : Bool)
    → IsBareDot (split b'.' s).1 followed
    → (followed ≡ false) × EndsInDot s
bare-EndsInDot s followed h = elim (Option-cases (split b'.' s).1) [
  | inl unsuffixed ↦ absurd (rw unsuffixed at h)
  | inr ([], dot) ↦ (rw dot at h, ((split b'.' s).0, split-some b'.' s dot))
  | inr (d ∷ t, suffix) ↦ absurd (rw suffix at h)
]

pub is_there-none : (s : Option Text) → is_there s ≡ false → s ≡ none
unfolding is_there
is_there-none none h = refl
is_there-none (some s) h = cc

-- Without the character that it splits at, a text is kept whole.
pub split-whole : (c : ℕ) (s : Text) → is_there (split c s).1 ≡ false → (split c s).0 ≡ s
split-whole c s h = split-none c s (is_there-none (split c s).1 h)

pub bare_dot :
    (c : Text)
    → IsBareDot
        (split b'.' (split b'@' (split b'=' c).0).0).1
        (is_there (split b'@' (split b'=' c).0).1 || is_there (split b'=' c).1)
    → EndsInDot c
bare_dot c h =
    let s1 = (split b'=' c).0 in
    let (alone, dotted) = bare-EndsInDot (split b'@' s1).0 _ h in
    let no_value : is_there (split b'=' c).1 ≡ false = ground arith in
    let no_number : is_there (split b'@' s1).1 ≡ false = ground arith in
    let same : (split b'@' s1).0 ≡ c =
      split-whole b'@' s1 no_number ∙ split-whole b'=' c no_value in
    rw same at dotted
