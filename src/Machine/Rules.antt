-- ===== src/Machine/Rules.antt =====
-- Rules of reasoning about what calls do to the system: a triple says what holds of the record of
-- effects before and after a call. `E` holds where the call does not return.
use adnacom_hotplug.Common.{
  ◌≡◌, ℕ, ◌%◌, ◌^◌, bit_or, Bool, true, false, Option, none, some, List, [], ◌∷◌, if◌then◌else◌,
  Outcome, ok, exited, fault, diverged, deref,
}
use adnacom_hotplug.Common.Text.{Text}
use adnacom_hotplug.Pci.{PciDev, pci_command}
use adnacom_hotplug.Platform.{Platform, Effect, print, print_err, write_byte, cleanup}
use adnacom_hotplug.Config.{Device, get_conf_byte, get_conf_word, get_conf_long}
use adnacom_hotplug.Machine.{
  Sys, M, ◌>>=◌, continue_with, pure, when◌then◌else◌, null_or, lift, gets, exit, modify, for_all,
  device_at, put_device, store_cached, emit, fetch, conf_byte, conf_word, conf_long,
}

abbrev pub Log : Type 1
Log = List Effect → Type 0

abbrev pub After : {H A : Type 0} → Log → Log → Outcome A × Sys H → Type 0
After E Q (ok a, s) = Q s.trace
After E Q (exited n, s) = E s.trace
After E Q (fault, s) = E s.trace
After E Q (diverged, s) = E s.trace

pub record Triple {H A : Type 0} (E P : Log) (m : M H A) (Q : Log) : Type 0 where
  pub run : (s : Sys H) → P s.trace → After E Q (m s)

-- What a triple says of a run: whichever way it ends, and where it returns.
module _ {H A : Type 0} {E Q : Log} where
  after_always :
      (r : Outcome A × Sys H) → ((t : List Effect) → Q t → E t) → After E Q r → E (r.1.trace)
  after_always (ok a, s) f h = f _ h
  after_always (exited n, s) f h = h
  after_always (fault, s) f h = h
  after_always (diverged, s) f h = h

  pub always :
      {P : Log} {m : M H A}
      → Triple E P m Q
      → ((t : List Effect) → Q t → E t)
      → (s : Sys H) → P s.trace
      → E ((m s).1.trace)
  always {m} t f s h = after_always (m s) f (t.run s h)

  pub returned :
      {P : Log} {m : M H A}
      → Triple E P m Q
      → (s : Sys H) → {a : A} {s' : Sys H} → m s ≡ (ok a, s')
      → P s.trace
      → Q s'.trace
  returned {m} t s e h = rw e at (t.run s h)

module _ {H A B : Type 0} {E Q R : Log} where
  After-bind :
      (r : Outcome A × Sys H) (f : A → M H B)
      → ((a : A) → Triple E Q (f a) R)
      → After E Q r
      → After E R (continue_with r f)
  After-bind (ok a, s) f g h = (g a).run s h
  After-bind (exited n, s) f g h = h
  After-bind (fault, s) f g h = h
  After-bind (diverged, s) f g h = h

  pub bind :
      {P : Log} {m : M H A} {f : A → M H B}
      → Triple E P m Q
      → ((a : A) → Triple E Q (f a) R)
      → Triple E P (m >>= f) R
  unfolding ◌>>=◌
  bind {m} {f} t g = record { run = λ s h. After-bind (m s) f g (t.run s h) }

module _ {H : Type 0} {E : Log} where
  -- What a call that leaves the log alone keeps.
  pub keep_pure : {A : Type 0} (P : Log) (a : A) → Triple {H = H} E P (pure a) P
  unfolding pure
  keep_pure P a = record { run = λ s h. h }

  pub keep_gets : {A : Type 0} (P : Log) (f : Sys H → A) → Triple E P (gets f) P
  unfolding gets
  keep_gets P f = record { run = λ s h. h }

  -- A change of the other fields of the state.
  pub keep_modify :
      (P : Log) (f : Sys H → Sys H)
      → ((s : Sys H) → (f s).trace ≡ s.trace)
      → Triple E P (modify f) P
  unfolding modify
  keep_modify P f same = record { run = λ s h. rw (same s) h }

  pub keep_if :
      {A : Type 0} {P Q : Log} {m n : M H A} (b : Bool)
      → Triple E P m Q
      → Triple E P n Q
      → Triple E P (when b then m else n) Q
  unfolding when◌then◌else◌
  keep_if true t u = t
  keep_if false t u = u

  pub keep_null_or :
      {A B : Type 0} {P Q : Log} {m : M H A} {f : B → M H A} (x : Option B)
      → Triple E P m Q
      → ((b : B) → Triple E P (f b) Q)
      → Triple E P (null_or x m f) Q
  unfolding null_or
  keep_null_or none t u = t
  keep_null_or (some b) t u = u b

-- The rules for an assertion `P` on both ends of a call, that is kept where the call ends early.
module _ {H : Type 0} {E P : Log} (early : (t : List Effect) → P t → E t) where
  After-lift : {A : Type 0} (r : Outcome A) (s : Sys H) → P s.trace → After E P (lift r s)
  unfolding lift
  After-lift (ok a) s h = h
  After-lift (exited n) s h = early _ h
  After-lift fault s h = early _ h
  After-lift diverged s h = early _ h

  pub keep_lift : {A : Type 0} (r : Outcome A) → Triple {H = H} E P (lift r) P
  unfolding lift
  keep_lift r = record { run = λ s h. After-lift r s h }

  pub keep_exit : {A : Type 0} {Q : Log} (n : ℕ) → Triple {H = H} {A = A} E P (exit n) Q
  unfolding exit
  keep_exit n = record { run = λ s h. early _ h }

  pub keep_for_all :
      {A : Type 0} (body : A → M H (Unit {0}))
      → ((a : A) → Triple E P (body a) P)
      → (xs : List A) → Triple E P (for_all xs body) P
  unfolding for_all
  keep_for_all body b [] = keep_pure P tt
  keep_for_all body b (x ∷ xs) = bind (b x) (λ _. keep_for_all body b xs)

  pub keep_device_at : (d : ℕ) → Triple {H = H} E P (device_at d) P
  unfolding device_at
  keep_device_at d = bind (keep_gets P _) (λ found. keep_lift (deref found))

  pub keep_put_device : (d : ℕ) (device : Device) → Triple {H = H} E P (put_device d device) P
  unfolding put_device modify
  keep_put_device d device = record { run = λ s h. h }

  module _ (p : Platform H) where
    pub keep_fetch : (d pos len : ℕ) → Triple E P (fetch p d pos len) P
    unfolding fetch
    keep_fetch d pos len = bind (keep_device_at d) λ device. bind (keep_gets P _) λ r.
        bind (keep_lift r)
          λ (read : Bool × Device). bind (keep_put_device d (read.1)) λ _. keep_pure P (read.0)

    pub keep_conf_byte : (d pos : ℕ) → Triple E P (conf_byte p d pos) P
    unfolding conf_byte
    keep_conf_byte d pos = bind (keep_device_at d) λ device. keep_lift (get_conf_byte device pos)

    pub keep_conf_word : (d pos : ℕ) → Triple E P (conf_word p d pos) P
    unfolding conf_word
    keep_conf_word d pos = bind (keep_device_at d) λ device. keep_lift (get_conf_word device pos)

    pub keep_conf_long : (d pos : ℕ) → Triple E P (conf_long p d pos) P
    unfolding conf_long
    keep_conf_long d pos = bind (keep_device_at d) λ device. keep_lift (get_conf_long device pos)

    -- An effect, from what holds before it to what holds with it.
    pub keep_store_cached :
        (d pos : ℕ) (bytes : List ℕ) → Triple {H = H} E P (store_cached d pos bytes) P
    unfolding store_cached
    keep_store_cached d pos bytes = bind (keep_device_at d) λ device. keep_put_device d _

    pub emit-Triple :
        {Q : Log} (e : Effect) → ((t : List Effect) → P t → Q (e ∷ t)) → Triple E P (emit p e) Q
    unfolding emit modify
    emit-Triple e f = record { run = λ s h. f _ h }

-- An assertion that the effects of showing and scanning keep: output, writes to the command register
-- that set its three low bits, and the library's clean-up.
pub record IsPlain (E P : Log) : Type 0 where
  pub early : (t : List Effect) → P t → E t
  pub on_print : (text : Text) (t : List Effect) → P t → P (print text ∷ t)
  pub on_print_err : (text : Text) (t : List Effect) → P t → P (print_err text ∷ t)
  pub on_write_byte :
      (d : PciDev) (cmd : ℕ) (t : List Effect)
      → P t
      → P (write_byte d pci_command (bit_or cmd 0x7 % 2 ^ 8) ∷ t)
  pub on_cleanup : (t : List Effect) → P t → P (cleanup ∷ t)
