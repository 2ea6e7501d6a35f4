-- ===== src/SetPci/Args/Ends.antt =====
-- The runs of setpci: how they end for every command line, and what a demonstration does.
use adnacom_hotplug.Common.{
  ℕ, ◌+◌, ◌-◌, ◌^◌, ◌<◌, ◌≡◌, ◌≢◌, ◌⊎◌, inl, inr, refl, some, List, [], ◌∷◌, arith, AllOf, length,
  drop, true,
}
use adnacom_hotplug.Common.Text.{Text, codes}
use adnacom_hotplug.Pci.{PciDev, PciFilter}
use adnacom_hotplug.Platform.{Platform, Effect, print, print_err}
use adnacom_hotplug.Machine.{Sys, any_device, null_or, when◌then◌else◌}
use adnacom_hotplug.Machine.Finishes.{Finishes, Finished, and_then, do_pure}
use adnacom_hotplug.SetPci.{Flags}
use adnacom_hotplug.SetPci.Parse.Splits.{EndsInDot}
use adnacom_hotplug.SetPci.Run.Safe.{Logged, MayName}
use adnacom_hotplug.SetPci.Run.Space.{Aligns, IsOutput, writes_Align}
use adnacom_hotplug.SetPci.Args.{
  Settings, go_on, counted, letters, options_loop, parse_options, setpci,
}
use adnacom_hotplug.SetPci.Args.Options.{do_single_option, do_options_loop, do_parse_options}
use adnacom_hotplug.SetPci.Run.{matches_single_device}
use adnacom_hotplug.SetPci.Run.Slot.{IsTooLong}
use adnacom_hotplug.SetPci.Args.Total.{do_setpci, fed, Feeds}

abbrev pub AnyEndsInDot : List Text → Type 0
AnyEndsInDot [] = ⊥
AnyEndsInDot (a ∷ args) = EndsInDot a ⊎ AnyEndsInDot args

abbrev IsBelowLimit : Text → Type 0
IsBelowLimit a = length a < 2 ^ 28 - 1

-- What a filter takes from an argument: the whole argument, or what stands behind two or three
-- characters of it.
Piece : List Text → Text → Type 0
Piece [] t = ⊥
Piece (a ∷ args) t = (t ≡ a ⊎ (t ≡ drop 2 a ⊎ t ≡ drop 3 a)) ⊎ Piece args t

AnyTooLong : List PciDev → Type 0
AnyTooLong [] = ⊥
AnyTooLong (dev ∷ devs) = IsTooLong dev ⊎ AnyTooLong devs

each-IsTooLong :
    (F : Type 0) (devs : List PciDev)
    → (AnyTooLong devs → F)
    → AllOf (λ dev. IsTooLong dev → F) devs
unfolding AnyTooLong
each-IsTooLong F [] f = tt
each-IsTooLong F (dev ∷ devs) f = (λ e. f (inl e), each-IsTooLong F devs (λ e. f (inr e)))

module _ {H : Type 0} (p : Platform H) where
  -- The filters that can be made of pieces of the arguments.
  data FromArgs (args : List Text) : PciFilter → Type 0 where
    unfilled : FromArgs args any_device
    filled :
        (letter : ℕ) (t : Text) (f : PciFilter)
        → Piece args t
        → FromArgs args f
        → FromArgs args (fed p letter t f)

  -- The library finds a device whose address has more than 15 characters.
  LongScan : Type 0
  LongScan = (h : H) × AnyTooLong (p.scan_bus h)

  -- The arguments name such a device, with each part of its address.
  LongName : List Text → Type 0
  LongName args =
      (f : PciFilter) × FromArgs args f
      × (matches_single_device f ≡ true)
      × IsTooLong (p.get_dev f.domain f.bus f.slot f.func)

  -- What undefined behaviour is met from.
  pub Risk : List Text → Type 0
  Risk args = AnyEndsInDot args ⊎ (LongScan ⊎ LongName args)

  Feeds-args :
      (all args : List Text)
      → ((t : Text) → Piece args t → Piece all t)
      → AllOf (Feeds p (FromArgs all)) args
  unfolding Piece
  Feeds-args all [] within = tt
  Feeds-args all (a ∷ args) within = (
    (
      λ letter f g. filled letter a f (within a (inl (inl refl))) g,
      λ letter f g. filled letter (drop 2 a) f (within (drop 2 a) (inl (inr (inl refl)))) g,
      λ letter f g. filled letter (drop 3 a) f (within (drop 3 a) (inl (inr (inr refl)))) g,
    ),
    Feeds-args all args (λ t h. within t (inr h)),
  )

-- Whether only a show is asked for.
abbrev IsDemo : Flags → Type 0
IsDemo flags = flags.demo_mode ≢ 0

counted-IsDemo : (c : ℕ) (f g : Flags) → counted c f ≡ some g → IsDemo f → IsDemo g
unfolding counted
counted-IsDemo c f g e d = ground arith

one_more : (n : ℕ) → n + 1 ≢ 0
one_more n = omega arith

module _ {H : Type 0} (p : Platform H) where
  -- An argument with which undefined behaviour is met only from a risk.
  abbrev Fits : (all : List Text) → Text → Type 0
  Fits all a = (length a < 2 ^ 28 - 1) × (EndsInDot a → Risk p all) × Feeds p (FromArgs p all) a

  fitting :
      (all args : List Text)
      → (AnyEndsInDot args → Risk p all)
      → AllOf IsBelowLimit args
      → AllOf (Feeds p (FromArgs p all)) args
      → AllOf (Fits all) args
  fitting all [] f h feeds = tt
  fitting all (a ∷ args) f h feeds =
      ((h.0, (λ e. f (inl e)), feeds.0), fitting all args (λ e. f (inr e)) h.1 feeds.1)

  all_fit : (args : List Text) → AllOf IsBelowLimit args → AllOf (Fits args) args
  unfolding Risk
  all_fit args short = fitting args args (λ e. inl e) short (Feeds-args p args args (λ t h. h))

  named_in :
      (W : Effect → Type 0) (on_print : (t : Text) → W (print t))
      (on_print_err : (t : Text) → W (print_err t)) (args : List Text) (f : PciFilter)
      → FromArgs p args f
      → MayName p (Risk p args) W on_print on_print_err f
  unfolding Risk LongName
  named_in W on_print on_print_err args f g single long = inr (inr (f, g, single, long))

  scanned_in :
      (args : List Text) (s : Sys H) → AllOf (λ dev. IsTooLong dev → Risk p args) (p.scan_bus s.hw)
  unfolding Risk LongScan
  scanned_in args s = each-IsTooLong (Risk p args) (p.scan_bus s.hw) (λ e. inr (inl (s.hw, e)))

  -- Every command line whose arguments are shorter than 2^28 - 1 characters, whatever the devices
  -- and the library answer: the run comes to an end. It returns 0, or the process exits with 0 or 1;
  -- undefined behaviour is met only if some argument ends in a dot, the library's scan of the bus can
  -- find a device whose address has more than 15 characters, or the library can make of pieces of
  -- the arguments a filter that names such a device. All that it adds to the log is output and
  -- writes of registers at a multiple of their width.
  pub setpci_ends :
      (st : Settings) (args : List Text) (s : Sys H)
      → AllOf IsBelowLimit args
      → AllOf Aligns s.trace
      → Finished (Risk p args) (λ n. n ≡ 0) (setpci p st args s).0
        × AllOf Aligns (setpci p st args s).1.trace
  setpci_ends st args s short before =
      let F = Risk p args in
      let any_flags : Flags → Type 0 = λ _. Unit in
      let keep : (c : ℕ) (f g : Flags) → counted c f ≡ some g → Unit {0} → Unit {0} =
        λ c f g e d. d in
      let options =
        do_parse_options p F Aligns (λ _. tt) (λ _. tt) any_flags keep (Feeds p (FromArgs p args))
          st args tt (all_fit args short) in
      (do_setpci p F Aligns (λ _. tt) (λ _. tt) any_flags keep (FromArgs p args) unfilled
          (λ flags op dev d v live addr place fits.
            writes_Align p op.width dev addr op.values fits.0)
          (named_in Aligns (λ _. tt) (λ _. tt) args) (scanned_in args) st args options).run
        s before

  Options : List Text → Settings → List Text → Type 0
  Options all st args =
      Finishes (Risk p all) (Logged IsOutput) (parse_options p st args)
        (λ r. IsDemo r.0.flags × AllOf (Fits all) r.1)

  demo_options :
      (all : List Text) (st : Settings) (args : List Text)
      → AllOf (Fits all) args
      → Options all st (codes "-D" ∷ args)
  unfolding Options parse_options options_loop letters counted codes when◌then◌else◌ null_or
  demo_options all st [] short =
      and_then
        (do_single_option p (Risk p all) IsOutput (λ _. tt) (λ _. tt) IsDemo counted-IsDemo
          (Feeds p (FromArgs p all)) (codes "-D"))
        λ _ _.
          and_then {Q = λ r. IsDemo r.0.flags × (r.1 ≡ go_on)}
            (do_pure _ (one_more st.flags.demo_mode, refl)) (λ r h. rw (h.1) (do_pure _ (h.0, tt)))
  demo_options all st (b ∷ rest) short =
      and_then {Q = λ r. IsDemo r.0.flags × (r.1 ≡ go_on)}
        (do_pure _ (one_more st.flags.demo_mode, refl))
        (λ r h. rw (h.1) (
          do_options_loop p (Risk p all) IsOutput (λ _. tt) (λ _. tt) IsDemo counted-IsDemo
            (Feeds p (FromArgs p all)) r.0 (b ∷ rest) h.0 short))

  -- With the option -D in front of a command line whose arguments are shorter than 2^28 - 1
  -- characters, the run ends in the same ways, with undefined behaviour from the same causes only,
  -- and all that it adds to the log is output.
  pub setpci_demo :
      (st : Settings) (args : List Text) (s : Sys H)
      → AllOf IsBelowLimit args
      → AllOf IsOutput s.trace
      → Finished (Risk p args) (λ n. n ≡ 0) (setpci p st (codes "-D" ∷ args) s).0
        × AllOf IsOutput (setpci p st (codes "-D" ∷ args) s).1.trace
  unfolding Options
  setpci_demo st args s short before =
      (do_setpci p (Risk p args) IsOutput (λ _. tt) (λ _. tt) IsDemo counted-IsDemo
          (FromArgs p args) unfilled (λ flags op dev d v live. absurd (d live))
          (named_in IsOutput (λ _. tt) (λ _. tt) args) (scanned_in args) st (codes "-D" ∷ args)
          (demo_options args st args (all_fit args short))).run
        s before
