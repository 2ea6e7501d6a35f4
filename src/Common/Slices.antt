-- ===== src/Common/Slices.antt =====
-- The parts of a list in front of and behind a place.
use Prim.Native.Nat.{ℕ, zero, suc, ◌+◌, ◌≤◌}
use mathlib.Core.Path.{◌≡◌, refl, sym, ap, ◌∙◌}
use mathlib.Core.List.{List, [], ◌∷◌, ◌++◌}
use native.Mathlib.Omega.{arith}
use adnacom_hotplug.Common.Lists.{AllOf, length, take, drop}

module _ {ℓ} {A : Type ℓ} where
  pub drop-empty : (n : ℕ) → ◌≡◌ {A = List A} (drop n []) []
  drop-empty zero = refl
  drop-empty (suc n) = refl

  pub drop-add : (m n : ℕ) (xs : List A) → drop (m + n) xs ≡ drop n (drop m xs)
  drop-add zero n xs = ap (λ (k : ℕ). drop k xs) (omega arith)
  drop-add (suc m) n [] = drop-empty (suc m + n) ∙ sym (drop-empty n)
  drop-add (suc m) n (x ∷ xs) =
      let next : suc m + n ≡ suc (m + n) = omega arith in
      ap (λ (k : ℕ). drop k (x ∷ xs)) next ∙ drop-add m n xs

  pub drop-all : (n : ℕ) (xs : List A) → length xs ≤ n → drop n xs ≡ []
  drop-all zero [] h = refl
  drop-all zero (x ∷ xs) h = absurd (omega arith)
  drop-all (suc n) [] h = refl
  drop-all (suc n) (x ∷ xs) h = drop-all n xs (omega arith)

  pub take-drop_all : (n : ℕ) (xs : List A) → take n xs ++ drop n xs ≡ xs
  take-drop_all zero xs = refl
  take-drop_all (suc n) [] = refl
  take-drop_all (suc n) (x ∷ xs) = ap (λ r. x ∷ r) (take-drop_all n xs)

  pub take-append : (n : ℕ) (xs ys : List A) → n ≤ length xs → take n (xs ++ ys) ≡ take n xs
  take-append zero xs ys h = refl
  take-append (suc n) [] ys h = absurd (omega arith)
  take-append (suc n) (x ∷ xs) ys h = ap (λ r. x ∷ r) (take-append n xs ys (omega arith))

  pub take-drop_inside :
      (m n : ℕ) (xs ys : List A)
      → m + n ≤ length xs
      → take n (drop m (xs ++ ys)) ≡ take n (drop m xs)
  take-drop_inside zero n xs ys h = take-append n xs ys (omega arith)
  take-drop_inside (suc m) n [] ys h = absurd (omega arith)
  take-drop_inside (suc m) n (x ∷ xs) ys h = take-drop_inside m n xs ys (omega arith)

  pub drop-length : (xs ys : List A) → drop (length xs) (xs ++ ys) ≡ ys
  drop-length [] ys = refl
  drop-length (x ∷ xs) ys = drop-length xs ys

  pub AllOf-take : (P : A → Type 0) (n : ℕ) (xs : List A) → AllOf P xs → AllOf P (take n xs)
  AllOf-take P zero xs h = tt
  AllOf-take P (suc n) [] h = tt
  AllOf-take P (suc n) (x ∷ xs) h = (h.0, AllOf-take P n xs h.1)

  pub AllOf-drop : (P : A → Type 0) (n : ℕ) (xs : List A) → AllOf P xs → AllOf P (drop n xs)
  AllOf-drop P zero xs h = h
  AllOf-drop P (suc n) [] h = tt
  AllOf-drop P (suc n) (x ∷ xs) h = AllOf-drop P n xs h.1

  pub take-length : (xs ys : List A) → take (length xs) (xs ++ ys) ≡ xs
  take-length [] ys = refl
  take-length (x ∷ xs) ys = ap (λ r. x ∷ r) (take-length xs ys)

  pub take-all : (n : ℕ) (xs : List A) → length xs ≤ n → take n xs ≡ xs
  take-all zero [] h = refl
  take-all zero (x ∷ xs) h = absurd (omega arith)
  take-all (suc n) [] h = refl
  take-all (suc n) (x ∷ xs) h = ap (λ r. x ∷ r) (take-all n xs (omega arith))

  pub length-take : (n : ℕ) (xs : List A) → n ≤ length xs → length (take n xs) ≡ n
  length-take zero xs h = refl
  length-take (suc n) [] h = absurd (omega arith)
  length-take (suc n) (x ∷ xs) h = ap suc (length-take n xs (omega arith))

  pub length-drop : (n : ℕ) (xs : List A) → n ≤ length xs → length (drop n xs) + n ≡ length xs
  length-drop zero xs h = omega arith
  length-drop (suc n) [] h = absurd (omega arith)
  length-drop (suc n) (x ∷ xs) h = omega (arith, length-drop n xs (omega arith))
