-- ===== src/Config/Buffers.antt =====
-- How the present map and the bytes of a cache read after they are extended or overwritten.
use adnacom_hotplug.Common.{
  ℕ, zero, suc, ◌+◌, ◌≤◌, ◌<◌, ◌≡◌, ◌⊎◌, refl, Bool, true, false, Option, none, inl, inr, some,
  List, [], ◌∷◌, ◌++◌, arith, map, length, replicate, overwrite, get_elem?,
}
use adnacom_hotplug.Config.{is_present}

-- Byte `i` has been written.
abbrev pub is_loaded : List (Option ℕ) → ℕ → Bool
is_loaded config i = elim (get_elem? config i) [
  | none ↦ false
  | some byte ↦ elim byte [ none ↦ false | some b ↦ true ]
]

pub present_append : (xs : List ℕ) (k i : ℕ) → is_present (xs ++ replicate k 0) i ≡ is_present xs i
present_append [] zero i = refl
present_append [] (suc k) zero = refl
present_append [] (suc k) (suc i) = present_append [] k i
present_append (x ∷ xs) k zero = refl
present_append (x ∷ xs) k (suc i) = present_append xs k i

pub present-overwrite_in :
    (xs : List ℕ) (i n j : ℕ)
    → i ≤ j
    → j < i + n
    → j < length xs
    → is_present (overwrite xs i (replicate n 1)) j ≡ true
present-overwrite_in [] i n j lo hi h = absurd (omega arith)
present-overwrite_in (x ∷ xs) (suc i) n zero lo hi h = absurd (omega arith)
present-overwrite_in (x ∷ xs) (suc i) n (suc j) lo hi h =
    present-overwrite_in xs i n j (omega arith) (omega arith) (omega arith)
present-overwrite_in (x ∷ xs) zero zero j lo hi h = absurd (omega arith)
present-overwrite_in (x ∷ xs) zero (suc n) zero lo hi h = refl
present-overwrite_in (x ∷ xs) zero (suc n) (suc j) lo hi h =
    present-overwrite_in xs zero n j (omega arith) (omega arith) (omega arith)

pub present-overwrite_keep :
    (xs : List ℕ) (i n j : ℕ)
    → is_present xs j ≡ true
    → is_present (overwrite xs i (replicate n 1)) j ≡ true
present-overwrite_keep [] i n j h = h
present-overwrite_keep (x ∷ xs) (suc i) n zero h = h
present-overwrite_keep (x ∷ xs) (suc i) n (suc j) h = present-overwrite_keep xs i n j h
present-overwrite_keep (x ∷ xs) zero zero j h = h
present-overwrite_keep (x ∷ xs) zero (suc n) zero h = refl
present-overwrite_keep (x ∷ xs) zero (suc n) (suc j) h = present-overwrite_keep xs zero n j h

pub present-overwrite_cases :
    (xs : List ℕ) (i n j : ℕ)
    → is_present (overwrite xs i (replicate n 1)) j ≡ true
    → (is_present xs j ≡ true) ⊎ ((i ≤ j) × (j < i + n) × (j < length xs))
present-overwrite_cases [] i n j h = inl h
present-overwrite_cases (x ∷ xs) (suc i) n zero h = inl h
present-overwrite_cases (x ∷ xs) (suc i) n (suc j) h = elim (present-overwrite_cases xs i n j h) [
  | inl old ↦ inl old
  | inr (lo, hi, b) ↦ inr (omega arith, omega arith, omega arith)
]
present-overwrite_cases (x ∷ xs) zero zero j h = inl h
present-overwrite_cases (x ∷ xs) zero (suc n) zero h = inr (omega arith, omega arith, omega arith)
present-overwrite_cases (x ∷ xs) zero (suc n) (suc j) h =
    elim (present-overwrite_cases xs zero n j h) [
      | inl old ↦ inl old
      | inr (lo, hi, b) ↦ inr (omega arith, omega arith, omega arith)
    ]

pub loaded-append :
    (xs ys : List (Option ℕ)) (i : ℕ) → is_loaded xs i ≡ true → is_loaded (xs ++ ys) i ≡ true
loaded-append [] ys i h = cc
loaded-append (x ∷ xs) ys zero h = h
loaded-append (x ∷ xs) ys (suc i) h = loaded-append xs ys i h

pub loaded-overwrite_keep :
    (xs : List (Option ℕ)) (i : ℕ) (bs : List ℕ) (j : ℕ)
    → is_loaded xs j ≡ true
    → is_loaded (overwrite xs i (map some bs)) j ≡ true
loaded-overwrite_keep [] i bs j h = h
loaded-overwrite_keep (x ∷ xs) (suc i) bs zero h = h
loaded-overwrite_keep (x ∷ xs) (suc i) bs (suc j) h = loaded-overwrite_keep xs i bs j h
loaded-overwrite_keep (x ∷ xs) zero [] j h = h
loaded-overwrite_keep (x ∷ xs) zero (b ∷ bs) zero h = refl
loaded-overwrite_keep (x ∷ xs) zero (b ∷ bs) (suc j) h = loaded-overwrite_keep xs zero bs j h

pub loaded-overwrite_in :
    (xs : List (Option ℕ)) (i : ℕ) (bs : List ℕ) (j : ℕ)
    → i ≤ j
    → j < i + length bs
    → j < length xs
    → is_loaded (overwrite xs i (map some bs)) j ≡ true
loaded-overwrite_in [] i bs j lo hi h = absurd (omega arith)
loaded-overwrite_in (x ∷ xs) (suc i) bs zero lo hi h = absurd (omega arith)
loaded-overwrite_in (x ∷ xs) (suc i) bs (suc j) lo hi h =
    loaded-overwrite_in xs i bs j (omega arith) (omega arith) (omega arith)
loaded-overwrite_in (x ∷ xs) zero [] j lo hi h = absurd (omega arith)
loaded-overwrite_in (x ∷ xs) zero (b ∷ bs) zero lo hi h = refl
loaded-overwrite_in (x ∷ xs) zero (b ∷ bs) (suc j) lo hi h =
    loaded-overwrite_in xs zero bs j (omega arith) (omega arith) (omega arith)
