-- ===== src/Machine/Finishes.antt =====
-- Rules for calls that keep an assertion on the state and come to a good end: they return a value
-- with a property, or end the process with status 0 or 1. Undefined behaviour is met only where `F`
-- holds, and an endless loop never.
use adnacom_hotplug.Common.{
  ◌≡◌, ◌≤◌, refl, ℕ, Bool, true, false, Option, none, some, List, [], ◌∷◌, AllOf, arith, Outcome,
  ok, exited, fault, diverged, Ends,
}
use adnacom_hotplug.Machine.{
  Sys, M, ◌>>=◌, continue_with, pure, lift, gets, exit, modify, when◌then◌else◌, null_or, for_all,
}

abbrev pub Finished : {A : Type 0} → Type 0 → (A → Type 0) → Outcome A → Type 0
Finished F Q (ok a) = Q a
Finished F Q (exited n) = n ≤ 1
Finished F Q fault = F
Finished F Q diverged = ⊥

pub record Finishes {H A : Type 0} (F : Type 0) (I : Sys H → Type 0) (m : M H A) (Q : A → Type 0)
    : Type 0 where
  pub run : (s : Sys H) → I s → Finished F Q (m s).0 × I (m s).1

abbrev pub Done : {A : Type 0} → A → Type 0
Done a = Unit

module _ {H A B : Type 0} {F : Type 0} {I : Sys H → Type 0} {Q : A → Type 0} {R : B → Type 0} where
  after_call :
      (r : Outcome A × Sys H) (f : A → M H B)
      → ((a : A) → Q a → Finishes F I (f a) R)
      → Finished F Q r.0 × I r.1
      → Finished F R (continue_with r f).0 × I (continue_with r f).1
  after_call (ok a, s) f g h = (g a h.0).run s h.1
  after_call (exited n, s) f g h = h
  after_call (fault, s) f g h = h
  after_call (diverged, s) f g h = absurd h.0

  pub and_then :
      {m : M H A} {f : A → M H B}
      → Finishes F I m Q
      → ((a : A) → Q a → Finishes F I (f a) R)
      → Finishes F I (m >>= f) R
  unfolding ◌>>=◌
  and_then {m} {f} t g = record { run = λ s h. after_call (m s) f g (t.run s h) }

lifted : {A : Type 0} (F : Type 0) (Q : A → Type 0) (r : Outcome A) → Ends F Q r → Finished F Q r
lifted F Q (ok a) h = h
lifted F Q (exited n) h = omega arith
lifted F Q fault h = h
lifted F Q diverged h = h

module _ {H : Type 0} {F : Type 0} {I : Sys H → Type 0} where
  pub do_pure : {A : Type 0} {Q : A → Type 0} (a : A) → Q a → Finishes F I (pure a) Q
  unfolding pure
  do_pure a q = record { run = λ s h. (q, h) }

  pub do_gets : {A : Type 0} (f : Sys H → A) → Finishes F I (gets f) Done
  unfolding gets
  do_gets f = record { run = λ s h. (tt, h) }

  pub do_gets_with :
      {A : Type 0} {Q : A → Type 0} (f : Sys H → A)
      → ((s : Sys H) → Q (f s))
      → Finishes F I (gets f) Q
  unfolding gets
  do_gets_with f q = record { run = λ s h. (q s, h) }

  pub do_exit :
      {A : Type 0} {Q : A → Type 0} (n : ℕ) → n ≤ 1 → Finishes F I (exit {H = H} {A = A} n) Q
  unfolding exit
  do_exit n small = record { run = λ s h. (small, h) }

  pub do_lift : {A : Type 0} {Q : A → Type 0} (r : Outcome A) → Ends F Q r → Finishes F I (lift r) Q
  unfolding lift
  do_lift {Q} r e = record { run = λ s h. (lifted F Q r e, h) }

  pub do_modify : (f : Sys H → Sys H) → ((s : Sys H) → I s → I (f s)) → Finishes F I (modify f) Done
  unfolding modify
  do_modify f keep = record { run = λ s h. (tt, keep s h) }

  pub do_when :
      {A : Type 0} {Q : A → Type 0} {m n : M H A} (b : Bool)
      → (b ≡ true → Finishes F I m Q)
      → (b ≡ false → Finishes F I n Q)
      → Finishes F I (when b then m else n) Q
  unfolding when◌then◌else◌
  do_when true t u = t refl
  do_when false t u = u refl

  pub do_null_or :
      {A B : Type 0} {Q : A → Type 0} {m : M H A} {f : B → M H A} (x : Option B)
      → (x ≡ none → Finishes F I m Q)
      → ((b : B) → x ≡ some b → Finishes F I (f b) Q)
      → Finishes F I (null_or x m f) Q
  unfolding null_or
  do_null_or none t u = t refl
  do_null_or (some b) t u = u b refl

  pub do_for_all :
      {A : Type 0} (P : A → Type 0) (body : A → M H (Unit {0}))
      → ((a : A) → P a → Finishes F I (body a) Done)
      → (xs : List A) → AllOf P xs
      → Finishes F I (for_all xs body) Done
  unfolding for_all
  do_for_all P body b [] h = do_pure tt tt
  do_for_all P body b (x ∷ xs) h = and_then (b x h.0) (λ _ _. do_for_all P body b xs h.1)

-- A property of every value that is returned is kept by forgetting it.
Finished-weaken :
    {A : Type 0} (F : Type 0) (Q R : A → Type 0) (r : Outcome A)
    → ((a : A) → Q a → R a)
    → Finished F Q r
    → Finished F R r
Finished-weaken F Q R (ok a) f h = f a h
Finished-weaken F Q R (exited n) f h = h
Finished-weaken F Q R fault f h = h
Finished-weaken F Q R diverged f h = h

pub weaken :
    {H A : Type 0} {F : Type 0} {I : Sys H → Type 0} {m : M H A} {Q R : A → Type 0}
    → Finishes F I m Q
    → ((a : A) → Q a → R a)
    → Finishes F I m R
weaken {F} {m} {Q} {R} k f = record {
  run = λ s h. (Finished-weaken F Q R (m s).0 f (k.run s h).0, (k.run s h).1);
}
