-- ===== src/SetPci/Args/Options.antt =====
-- How the options of setpci are taken, and what that may do, for every command line.
use adnacom_hotplug.Common.{
  ℕ, ◌-◌, ◌^◌, ◌<◌, ◌≡◌, ◌≢◌, ◌⊎◌, inl, inr, refl, Bool, true, false, Option, none, some, List, [],
  ◌∷◌, ◌++◌, arith, AllOf, length, ◌==◌, Bool-cases, ==_iff, Ends, Ends-fault, ok, drop, deref, all,
  all-AllOf, ltb, ltb→lt,
}
use adnacom_hotplug.Common.Text.{Text, codes}
use adnacom_hotplug.Platform.{Platform, Effect, print, print_err}
use adnacom_hotplug.Machine.{◌>>=◌, M, pure, lift}
use adnacom_hotplug.Machine.Finishes.{
  Finishes, Done, and_then, do_pure, do_exit, do_lift, do_when, do_null_or, do_for_all,
}
use adnacom_hotplug.Topology.Growth.{get_elem?-found}
use adnacom_hotplug.SetPci.{Flags}
use adnacom_hotplug.SetPci.Registers.{RegName, pci_reg_names, register_line, width_letter}
use adnacom_hotplug.SetPci.Parse.Splits.{EndsInDot}
use adnacom_hotplug.SetPci.Run.{die}
use adnacom_hotplug.SetPci.Run.Safe.{Logged, do_emit, do_die}
use adnacom_hotplug.SetPci.Args.{
  Settings, Next, go_on, skip_one, stay, counted, behind, generic_options, takes_argument,
  parse_err, set_pci_method, set_pci_option, set_intel_mode, parse_generic_option, generic,
  option_with_argument, letters, options_loop, dump_registers, single_option, parse_options,
}

-- Each line of the dump of the registers can be printed.
has_letter : RegName → Bool
has_letter r = ltb r.width 6

all_letters : all has_letter pci_reg_names ≡ true
unfolding has_letter pci_reg_names
all_letters = refl

width_letter-ok : (w : ℕ) → w < 6 → (c : ℕ) × (width_letter w ≡ ok c)
unfolding width_letter codes
width_letter-ok w h =
    let (c, e) = get_elem?-found (codes "-BW?L" ++ 0 ∷ []) w h in (c, rw (e, width_letter))

register_line-Ends : (r : RegName) → has_letter r ≡ true → Ends ⊥ Done (register_line r)
unfolding register_line has_letter
register_line-Ends r h =
    let (c, e) = width_letter-ok r.width (ltb→lt r.width 6 h) in rw (e, register_line) tt

-- An option letter that takes an argument gets one.
HasArgument : ℕ → Option Text → Type 0
HasArgument c (some a) = Unit
HasArgument c none = ((c == b'H') ≡ false) × ((c == b'A') ≡ false) × ((c == b'O') ≡ false)

not_this : (c k : ℕ) → ((c == k) ≡ true → ⊥) → (c == k) ≡ false
not_this c k h = elim (Bool-cases (c == k)) [ inl e ↦ absurd (h e) | inr e ↦ e ]

needs_none :
    (c : ℕ) (e : Text)
    → behind c generic_options ≡ some e
    → takes_argument e ≡ false
    → HasArgument c none
unfolding behind generic_options takes_argument HasArgument
needs_none c e found alone = (
  not_this c b'H' (λ is. let here = rw ((==_iff c b'H').0 is) at found in ground arith),
  not_this c b'A' (λ is. let here = rw ((==_iff c b'A').0 is) at found in ground arith),
  not_this c b'O' (λ is. let here = rw ((==_iff c b'O').0 is) at found in ground arith),
)

Next-cases : (n : Next) → (n ≡ go_on) ⊎ ((n ≡ skip_one) ⊎ (n ≡ stay))
Next-cases go_on = inl refl
Next-cases skip_one = inr (inl refl)
Next-cases stay = inr (inr refl)

-- `D` is a property of the flags that no option takes away.
module _ {H : Type 0} (p : Platform H) (F : Type 0) (W : Effect → Type 0)
    (on_print : (t : Text) → W (print t)) (on_print_err : (t : Text) → W (print_err t))
    (D : Flags → Type 0) (kept : (c : ℕ) (f g : Flags) → counted c f ≡ some g → D f → D g)
    (E : Text → Type 0) where
  Kept : Settings → Type 0
  Kept st = D st.flags

  pub do_parse_err : {A : Type 0} {Q : A → Type 0} → Finishes F (Logged W) (parse_err p {A = A}) Q
  unfolding parse_err
  do_parse_err =
      and_then (do_emit p F W on_print on_print_err (print_err []) (on_print_err []))
        (λ _ _. do_exit 1 (omega arith))

  failed : {A : Type 0} {Q : A → Type 0} → Finishes F (Logged W) (die p {A = A}) Q
  failed = do_die p F W on_print on_print_err

  do_set_pci_method :
      (st : Settings) (arg : Text) → Kept st → Finishes F (Logged W) (set_pci_method p st arg) Kept
  unfolding set_pci_method Kept
  do_set_pci_method st arg k =
      do_when _
        (λ _.
          and_then (do_emit p F W on_print on_print_err _ (on_print _))
            (λ _ _. do_exit 0 (omega arith)))
        (λ _. do_null_or _ (λ _. failed) (λ i _. do_pure _ k))

  do_set_pci_option :
      (st : Settings) (arg : Text) → Kept st → Finishes F (Logged W) (set_pci_option p st arg) Kept
  unfolding set_pci_option Kept
  do_set_pci_option st arg k =
      do_when _
        (λ _.
          and_then (do_emit p F W on_print on_print_err _ (on_print _))
            (λ _ _. do_exit 0 (omega arith)))
        (λ _. do_null_or _ (λ _. failed) (λ sep _. do_when _ (λ _. do_pure _ k) (λ _. failed)))

  do_set_intel_mode :
      (st : Settings) (arg : Text) → Kept st → Finishes F (Logged W) (set_intel_mode p st arg) Kept
  unfolding set_intel_mode Kept
  do_set_intel_mode st arg k =
      do_when _ (λ _. do_pure _ k) (λ _. do_when _ (λ _. do_pure _ k) (λ _. failed))

  KeptIf : Option Settings → Type 0
  KeptIf none = Unit
  KeptIf (some st) = Kept st

  -- A letter with its argument.
  with_argument :
      (c : ℕ) (arg : Option Text) (set : Text → M H Settings)
      → ((a : Text) → Finishes F (Logged W) (set a) Kept)
      → (arg ≢ none)
      → Finishes F (Logged W) (lift (deref arg) >>= λ a. set a >>= λ st. pure (some st)) KeptIf
  unfolding KeptIf
  with_argument c none set each there = absurd (there refl)
  with_argument c (some a) set each there =
      and_then {Q = Done} (do_lift (ok a) tt) λ a _. and_then (each a) (λ st k. do_pure (some st) k)

  do_parse_generic_option :
      (c : ℕ) (st : Settings) (arg : Option Text)
      → HasArgument c arg
      → Kept st
      → Finishes F (Logged W) (parse_generic_option p c st arg) KeptIf
  unfolding parse_generic_option HasArgument
  do_parse_generic_option c st arg has k =
      do_when (c == b'H')
        (λ e.
          with_argument c arg (set_intel_mode p st) (λ a. do_set_intel_mode st a k)
            (λ given. let h = rw given at has in ground arith))
        λ _.
          do_when (c == b'A')
            (λ e.
              with_argument c arg (set_pci_method p st) (λ a. do_set_pci_method st a k)
                (λ given. let h = rw given at has in ground arith))
            λ _.
              do_when (c == b'G') (λ _. do_pure _ (unfold Kept KeptIf in k))
                λ _.
                  do_when (c == b'O')
                    (λ e.
                      with_argument c arg (set_pci_option p st) (λ a. do_set_pci_option st a k)
                        (λ given. let h = rw given at has in ground arith))
                    λ _. do_pure none (unfold KeptIf in tt)

  do_generic :
      (c : ℕ) (st : Settings) (arg : Option Text)
      → HasArgument c arg
      → Kept st
      → Finishes F (Logged W) (generic p c st arg) Kept
  unfolding generic KeptIf
  do_generic c st arg has k =
      and_then (do_parse_generic_option c st arg has k)
        λ found q. do_null_or found (λ _. do_parse_err) (λ st' e. do_pure st' (rw e at q))

  KeptNext : Settings × Next → Type 0
  KeptNext r = Kept r.0

  do_option_with_argument :
      (c : ℕ) (st : Settings) (s : Text) (next : Option Text)
      → Kept st
      → Finishes F (Logged W) (option_with_argument p c st s next) KeptNext
  unfolding option_with_argument KeptNext HasArgument
  do_option_with_argument c st (d ∷ s) next k =
      and_then (do_generic c st (some (d ∷ s)) tt k) (λ st' k'. do_pure _ k')
  do_option_with_argument c st [] next k =
      do_null_or next (λ _. do_parse_err)
        λ arg _. and_then (do_generic c st (some arg) tt k) (λ st' k'. do_pure _ k')

  do_letters :
      (st : Settings) (s : Text) (first : Bool) (next : Option Text)
      → Kept st
      → Finishes F (Logged W) (letters p st s first next) KeptNext
  unfolding letters KeptNext
  do_letters st [] first next k = do_pure _ k
  do_letters st (c ∷ s) first next k =
      do_null_or (counted c st.flags)
        (λ _.
          do_null_or (behind c generic_options)
            (λ _. do_when first (λ _. do_pure _ k) (λ _. do_parse_err))
            (λ e found.
              do_when (takes_argument e) (λ _. do_option_with_argument c st s next k)
                (λ alone.
                  and_then (do_generic c st none (needs_none c e found alone) k)
                    λ st' k'. do_letters st' s false next k')))
        (λ flags e.
          do_letters (record st { flags = flags }) s false next
            (unfold Kept in kept c st.flags flags e k))

  do_dump_registers : Finishes F (Logged W) (dump_registers p) Done
  unfolding dump_registers
  do_dump_registers = and_then (do_emit p F W on_print on_print_err _ (on_print _)) λ _ _.
      do_for_all (λ r. has_letter r ≡ true) _
        (λ r letter.
          and_then {Q = Done}
            (do_lift (register_line r)
              (Ends-fault ⊥ F Done (register_line r) (λ x. absurd x) (register_line-Ends r letter)))
            (λ line _. do_emit p F W on_print on_print_err _ (on_print line)))
        pci_reg_names (all-AllOf has_letter pci_reg_names all_letters)

  pub do_single_option : (a : Text) → Finishes F (Logged W) (single_option p a) Done
  unfolding single_option
  do_single_option a =
      do_when _
        (λ _.
          and_then (do_emit p F W on_print on_print_err _ (on_print_err _))
            (λ _ _. do_exit 0 (omega arith)))
        (λ _.
          do_when _
            (λ _.
              and_then (do_emit p F W on_print on_print_err _ (on_print _))
                (λ _ _. do_exit 0 (omega arith)))
            (λ _.
              do_when _ (λ _. and_then do_dump_registers (λ _ _. do_exit 0 (omega arith)))
                (λ _. do_pure tt tt)))

  -- An argument that `parse_op` can be given: it is short, and ends in a dot only if that is allowed.
  -- `E` is what else is known of it.
  abbrev pub IsShort : Text → Type 0
  IsShort a = (length a < 2 ^ 28 - 1) × (EndsInDot a → F) × E a

  abbrev pub Parsed : Settings × List Text → Type 0
  Parsed r = D r.0.flags × AllOf IsShort r.1

  pub do_options_loop :
      (st : Settings) (args : List Text)
      → D st.flags
      → AllOf IsShort args
      → Finishes F (Logged W) (options_loop p st args) Parsed
  unfolding options_loop KeptNext Kept
  do_options_loop st [] k short = do_pure _ (k, tt)
  do_options_loop st (a ∷ []) k short =
      do_when _
        (λ _. and_then (do_letters st (drop 1 a) true none k) λ r k'. elim (Next-cases r.1) [
          | inl e ↦ rw e (do_pure _ (k', tt))
          | inr (inl e) ↦ rw e (do_pure _ (k', tt))
          | inr (inr e) ↦ rw e (do_pure _ (k', short))
        ])
        (λ _. do_pure _ (k, short))
  do_options_loop st (a ∷ b ∷ rest) k short =
      do_when _
        (λ _. and_then (do_letters st (drop 1 a) true (some b) k) λ r k'. elim (Next-cases r.1) [
          | inl e ↦ rw e (do_options_loop r.0 (b ∷ rest) k' short.1)
          | inr (inl e) ↦ rw e (do_options_loop r.0 rest k' short.1.1)
          | inr (inr e) ↦ rw e (do_pure _ (k', short))
        ])
        (λ _. do_pure _ (k, short))

  pub do_parse_options :
      (st : Settings) (args : List Text)
      → D st.flags
      → AllOf IsShort args
      → Finishes F (Logged W) (parse_options p st args) Parsed
  unfolding parse_options
  do_parse_options st [] k short = do_options_loop st [] k short
  do_parse_options st (a ∷ []) k short =
      and_then (do_single_option a) (λ _ _. do_options_loop st (a ∷ []) k short)
  do_parse_options st (a ∷ b ∷ rest) k short = do_options_loop st (a ∷ b ∷ rest) k short
