-- ===== src/SetPci/Args.antt =====
-- The command line of setpci (src/setpci.c: parse_options, parse_filter, parse_ops, setpci; and
-- src/common.c: parse_generic_option). `argv` is the list of all its arguments, the name of the
-- program first. The options of a dump and of Intel's configuration modes are those of a build for
-- Linux on a PC, where setpci knows the letters A, G, O and H. Of the lists that the library's help
-- prints only the headings are kept, and `pci_init` is taken to succeed.
pub mod Options
pub mod Total
pub mod Ends
use adnacom_hotplug.Common.{
  ℕ, zero, suc, ◌+◌, ◌-◌, ◌<◌, Bool, true, false, ◌&&◌, ◌||◌, not, Option, none, some, List, [],
  ◌∷◌, ◌++◌, ltb, ◌==◌, if◌then◌else◌, get_elem?, length, drop, Outcome, ok, exited, fault,
  diverged, deref,
}
use adnacom_hotplug.Common.Text.{Text, codes}
use adnacom_hotplug.Pci.{PciFilter}
use adnacom_hotplug.Platform.{Platform, print, print_err}
use adnacom_hotplug.Machine.{
  M, ◌>>=◌, ◌>>◌, pure, when◌then◌else◌, null_or, lift, gets, exit, skip, for_all, emit, any_device,
}
use adnacom_hotplug.SetPci.{Op, Group, Flags}
use adnacom_hotplug.SetPci.Parse.{split, parse_op}
use adnacom_hotplug.SetPci.Registers.{same_text, pci_reg_names, register_line}
use adnacom_hotplug.SetPci.Run.{is_empty, needs_scan, writeable, die, execute}

-- What the options set: setpci's flags, and the settings of the library that it passes on.
pub record Settings : Type 0 where
  pub flags : Flags
  pub method : ℕ
  pub debugging : ℕ
  pub params : List (Text × Text)
  pub writeable : Bool

-- `strchr(text, c)` of a character that is none: what follows it.
unfoldable pub behind : ℕ → Text → Option Text
unfolding split
behind c text = (split c text).1

-- GENERIC_OPTIONS: a letter with a colon takes an argument.
unfoldable pub generic_options : Text
unfolding codes
generic_options = codes "A:GO:H:"

unfoldable pub takes_argument : Text → Bool
takes_argument [] = false
takes_argument (c ∷ s) = c == b':'

unfoldable pub head_or_end : Text → ℕ
head_or_end [] = 0
head_or_end (c ∷ s) = c

module _ {H : Type 0} (p : Platform H) where
  -- `parse_err`: the message is left out.
  unfoldable pub parse_err : {A : Type 0} → M H A
  parse_err = emit p (print_err []) >> exit 1

  unfoldable pub set_pci_method : Settings → Text → M H Settings
  unfolding same_text codes die
  set_pci_method st arg =
      when same_text arg (codes "help")
      then (emit p (print (codes "Known PCI access methods:\n\n")) >> exit 0)
      else null_or (p.lookup_method arg) (die p) (λ i. pure (record st { method = i }))

  unfoldable pub set_pci_option : Settings → Text → M H Settings
  unfolding same_text codes die split
  set_pci_option st arg =
      when same_text arg (codes "help")
      then (emit p (print (codes "Known PCI access parameters:\n\n")) >> exit 0)
      else null_or ((split b'=' arg).1) (die p) λ sep.
        when p.can_set_param ((split b'=' arg).0) sep
        then pure (record st { params = ((split b'=' arg).0, sep) ∷ st.params })
        else die p

  -- Modes 1 and 2 of direct access are the library's methods 3 and 4.
  unfoldable pub set_intel_mode : Settings → Text → M H Settings
  unfolding same_text codes die
  set_intel_mode st arg =
      when same_text arg (codes "1")
      then pure (record st { method = 3 })
      else (when same_text arg (codes "2") then pure (record st { method = 4 }) else die p)

  -- `none` is the result 0.
  unfoldable pub parse_generic_option : ℕ → Settings → Option Text → M H (Option Settings)
  unfolding set_pci_method set_pci_option set_intel_mode
  parse_generic_option i st arg =
      when i == b'H'
      then (lift (deref arg) >>= λ a. set_intel_mode st a >>= λ st'. pure (some st'))
      else (when i == b'A'
          then (lift (deref arg) >>= λ a. set_pci_method st a >>= λ st'. pure (some st'))
          else (when i == b'G'
              then pure (some (record st { debugging = st.debugging + 1 }))
              else (when i == b'O'
                  then (lift (deref arg) >>= λ a. set_pci_option st a >>= λ st'. pure (some st'))
                  else pure none)))

  unfoldable pub generic : ℕ → Settings → Option Text → M H Settings
  unfolding parse_generic_option parse_err
  generic letter st arg =
      parse_generic_option letter st arg >>= λ found. null_or found parse_err pure

-- How the letters of an option word end: with the word, with its neighbour as an argument, or with
-- an unknown letter in front, where the options end.
pub data Next : Type 0 where
  go_on skip_one stay : Next

unfoldable pub counted : ℕ → Flags → Option Flags
counted c f =
    if c == b'v'
    then some (record f { verbose = f.verbose + 1 })
    else if c == b'f'
    then some (record f { force = f.force + 1 })
    else if c == b'D'
    then some (record f { demo_mode = f.demo_mode + 1 })
    else if c == b'r'
    then some (record f { allow_raw_access = f.allow_raw_access + 1 })
    else none

module _ {H : Type 0} (p : Platform H) where
  -- An option with an argument, which is the rest of the word or the next argument.
  unfoldable pub option_with_argument : ℕ → Settings → Text → Option Text → M H (Settings × Next)
  unfolding generic parse_err
  option_with_argument letter st (c ∷ s) next =
      generic p letter st (some (c ∷ s)) >>= λ st'. pure (st', go_on)
  option_with_argument letter st [] next =
      null_or next (parse_err p)
        λ arg. generic p letter st (some arg) >>= λ st'. pure (st', skip_one)

  -- The loop over the letters of a word; `first` is true at its start.
  unfoldable pub letters : Settings → Text → Bool → Option Text → M H (Settings × Next)
  unfolding counted behind generic_options takes_argument option_with_argument generic parse_err
  letters st [] first next = pure (st, go_on)
  letters st (c ∷ s) first next =
      null_or (counted c st.flags)
        (null_or (behind c generic_options) (when first then pure (st, stay) else parse_err p) (λ e.
          when takes_argument e
          then option_with_argument c st s next
          else (generic p c st none >>= λ st'. letters st' s false next)))
        (λ flags. letters (record st { flags = flags }) s false next)

  -- The loop over the words: the settings, and the arguments from where the options end.
  unfoldable pub options_loop : Settings → List Text → M H (Settings × List Text)
  unfolding letters head_or_end
  options_loop st [] = pure (st, [])
  options_loop st (a ∷ []) =
      when head_or_end a == b'-'
      then (letters st (drop 1 a) true none >>= λ r. elim (r.1) [
        | stay ↦ pure (r.0, a ∷ [])
        | _ ↦ pure (r.0, [])
      ])
      else pure (st, a ∷ [])
  options_loop st (a ∷ b ∷ rest) =
      when head_or_end a == b'-'
      then (letters st (drop 1 a) true (some b) >>= λ r. elim (r.1) [
        | stay ↦ pure (r.0, a ∷ b ∷ rest)
        | go_on ↦ options_loop r.0 (b ∷ rest)
        | skip_one ↦ options_loop r.0 rest
      ])
      else pure (st, a ∷ b ∷ rest)

  unfoldable pub dump_registers : M H (Unit {0})
  unfolding register_line codes pci_reg_names
  dump_registers =
      emit p (print (codes "cap pos w name\n"))
      >> for_all pci_reg_names (λ r. lift (register_line r) >>= λ line. emit p (print line))

  -- The options that stand alone. The texts of the usage and of the version are left out.
  unfoldable pub single_option : Text → M H (Unit {0})
  unfolding same_text codes dump_registers
  single_option a =
      when same_text a (codes "--help")
      then (emit p (print_err []) >> exit 0)
      else (when same_text a (codes "--version")
          then (emit p (print []) >> exit 0)
          else (when same_text a (codes "--dumpregs") then (dump_registers >> exit 0) else skip))

  unfoldable pub parse_options : Settings → List Text → M H (Settings × List Text)
  unfolding single_option options_loop
  parse_options st [] = options_loop st []
  parse_options st (a ∷ []) = single_option a >> options_loop st (a ∷ [])
  parse_options st (a ∷ b ∷ rest) = options_loop st (a ∷ b ∷ rest)

  -- The filter of a group, from its letter and its text.
  unfoldable pub set_filter : ℕ → Text → PciFilter → M H PciFilter
  unfolding parse_err
  set_filter letter text f =
      let (parsed, message) =
        if letter == b's' then p.filter_parse_slot f text else p.filter_parse_id f text in
      null_or message (pure parsed) (λ text. parse_err p)

  -- `-s` or `-d`, with the text behind it, which may have a `=` in front, or in the next argument. The
  -- result says whether that was taken.
  unfoldable pub parse_filter : Text → Option Text → PciFilter → M H (PciFilter × Bool)
  unfolding set_filter parse_err
  parse_filter (dash ∷ letter ∷ []) next f =
      when letter == b's' || letter == b'd'
      then (null_or next (parse_err p) λ text. set_filter letter text f >>= λ g. pure (g, true))
      else parse_err p
  parse_filter (dash ∷ letter ∷ c ∷ s) next f =
      when letter == b's' || letter == b'd'
      then (set_filter letter (if c == b'=' then s else c ∷ s) f >>= λ g. pure (g, false))
      else parse_err p
  parse_filter _ next f = parse_err p

  -- `if (!group || group->first_op) group = new_group()`: the groups before, and the current one.
  unfoldable pub current : List Group → Option Group → List Group × Group
  current done none = (done, record { filter = any_device; ops = [] })
  current done (some g) =
      if is_empty g.ops
      then (done, g)
      else (done ++ g ∷ [], record { filter = any_device; ops = [] })

  unfoldable pub add_op : Text → Option Group → M H Group
  unfolding parse_op parse_err
  add_op c group =
      null_or group (parse_err p)
        λ g. lift (parse_op c) >>= λ op. pure (record g { ops = g.ops ++ op ∷ [] })

  -- The loop over the arguments behind the options.
  unfoldable pub ops_loop : List Text → List Group → Option Group → M H (List Group)
  unfolding head_or_end parse_filter current add_op parse_err
  ops_loop [] done group = null_or group (parse_err p) (λ g. pure (done ++ g ∷ []))
  ops_loop (c ∷ []) done group =
      when head_or_end c == b'-'
      then (let (before, g) = current done group in
          parse_filter c none g.filter >>= λ r.
          ops_loop [] before (some (record g { filter = r.0 })))
      else (add_op c group >>= λ g. ops_loop [] done (some g))
  ops_loop (c ∷ next ∷ rest) done group =
      when head_or_end c == b'-'
      then (let (before, g) = current done group in
          parse_filter c (some next) g.filter >>= λ r.
          let g' = record g { filter = r.0 } in
          when r.1 then ops_loop rest before (some g') else ops_loop (next ∷ rest) before (some g'))
      else (add_op c group >>= λ g. ops_loop (next ∷ rest) done (some g))

  unfoldable pub scan_ops : Settings → List Group → Settings × Bool
  unfolding needs_scan writeable
  scan_ops st groups =
      (record st { writeable = writeable st.flags groups }, needs_scan st.flags groups)

  unfoldable pub setpci : Settings → List Text → M H ℕ
  unfolding parse_options ops_loop scan_ops execute
  setpci st args = parse_options st args >>= λ r. ops_loop (r.1) [] none >>= λ groups.
      let (st', scan) = scan_ops (r.0) groups in
      gets (λ s. if scan then p.scan_bus s.hw else []) >>= λ scanned.
      execute p st'.flags scan scanned groups >> pure 0
