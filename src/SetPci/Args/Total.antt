-- ===== src/SetPci/Args/Total.antt =====
-- How a run of setpci ends, and what it may do on the way, for every command line.
use adnacom_hotplug.Common.{
  if◌then◌else◌, ◌==◌, Bool, true, false, drop, ℕ, ◌≡◌, inl, inr, refl, Option, none, some, List,
  [], ◌∷◌, AllOf, AllOf-snoc, AllOf-map, Bool-cases, Ends-fault,
}
use adnacom_hotplug.Common.Text.{Text}
use adnacom_hotplug.Pci.{PciDev, PciFilter}
use adnacom_hotplug.Platform.{Platform, Effect, print, print_err}
use adnacom_hotplug.Machine.{Sys, any_device}
use adnacom_hotplug.Machine.Finishes.{
  Finishes, and_then, do_pure, do_gets_with, do_lift, do_when, do_null_or,
}
use adnacom_hotplug.SetPci.{Op, Group, Flags}
use adnacom_hotplug.SetPci.Parse.{parse_op}
use adnacom_hotplug.SetPci.Parse.Splits.{EndsInDot}
use adnacom_hotplug.SetPci.Parse.Accepts.{IsValid, parse_op-IsValid}
use adnacom_hotplug.SetPci.Run.{is_empty}
use adnacom_hotplug.SetPci.Run.Safe.{Logged, do_execute, MayRun, MayName, MayDo}
use adnacom_hotplug.SetPci.Run.Slot.{IsTooLong}
use adnacom_hotplug.SetPci.Args.{
  Settings, counted, parse_options, set_filter, parse_filter, current, add_op, ops_loop, scan_ops,
  setpci,
}
use adnacom_hotplug.SetPci.Args.Options.{do_parse_err, IsShort, Parsed}

-- What a filter becomes when it takes a text.
abbrev pub fed : {H : Type 0} → Platform H → ℕ → Text → PciFilter → PciFilter
fed p letter t f = (if letter == b's' then p.filter_parse_slot f t else p.filter_parse_id f t).0

scanned_or_none :
    (F : Type 0) (scan : Bool) (scanned : List PciDev)
    → AllOf (λ dev. IsTooLong dev → F) scanned
    → AllOf (λ dev. IsTooLong dev → F) (if scan then scanned else [])
scanned_or_none F true scanned h = h
scanned_or_none F false scanned h = tt

module _ {H : Type 0} (p : Platform H) (G : PciFilter → Type 0) where
  -- The filters keep the property when they take the text.
  abbrev Keeps : Text → Type 0
  Keeps t = (letter : ℕ) (f : PciFilter) → G f → G (fed p letter t f)

  -- They keep it when they take a part of the argument.
  abbrev pub Feeds : Text → Type 0
  Feeds a = Keeps a × Keeps (drop 2 a) × Keeps (drop 3 a)

-- `D` is a property of the flags that no option takes away, `G` one of filters that a filter has when
-- it starts.
module _ {H : Type 0} (p : Platform H) (F : Type 0) (W : Effect → Type 0)
    (on_print : (t : Text) → W (print t)) (on_print_err : (t : Text) → W (print_err t))
    (D : Flags → Type 0) (kept : (c : ℕ) (f g : Flags) → counted c f ≡ some g → D f → D g)
    (G : PciFilter → Type 0) (start : G any_device) where
  behind_sign :
      (a b c : ℕ) (s : Text)
      → Feeds p G (a ∷ b ∷ c ∷ s)
      → Keeps p G (if c == b'=' then s else c ∷ s)
  behind_sign a b c s e = elim (Bool-cases (c == b'=')) [
    | inl sign ↦ rw sign (e.2)
    | inr other ↦ rw other (e.1)
  ]

  do_set_filter :
      (letter : ℕ) (text : Text) (f : PciFilter)
      → Keeps p G text
      → G f
      → Finishes F (Logged W) (set_filter p letter text f) G
  unfolding set_filter
  do_set_filter letter text f keeps g =
      do_null_or _ (λ _. do_pure _ (keeps letter f g))
        (λ t _. do_parse_err p F W on_print on_print_err D kept (Feeds p G))

  KeepsNext : Option Text → Type 0
  KeepsNext none = Unit
  KeepsNext (some t) = Keeps p G t

  abbrev GoodFilter : PciFilter × Bool → Type 0
  GoodFilter r = G r.0

  do_parse_filter :
      (c : Text) (next : Option Text) (f : PciFilter)
      → Feeds p G c
      → KeepsNext next
      → G f
      → Finishes F (Logged W) (parse_filter p c next f) GoodFilter
  unfolding parse_filter KeepsNext
  do_parse_filter [] next f e n g = do_parse_err p F W on_print on_print_err D kept (Feeds p G)
  do_parse_filter (dash ∷ []) next f e n g =
      do_parse_err p F W on_print on_print_err D kept (Feeds p G)
  do_parse_filter (dash ∷ letter ∷ []) next f e n g =
      do_when _
        (λ _.
          do_null_or next (λ _. do_parse_err p F W on_print on_print_err D kept (Feeds p G))
            (λ text is. and_then (do_set_filter letter text f (rw is at n) g) (λ r h. do_pure _ h)))
        (λ _. do_parse_err p F W on_print on_print_err D kept (Feeds p G))
  do_parse_filter (dash ∷ letter ∷ c ∷ s) next f e n g =
      do_when _
        (λ _.
          and_then
            (do_set_filter letter (if c == b'=' then s else c ∷ s) f (behind_sign dash letter c s e)
              g)
            (λ r h. do_pure _ h))
        (λ _. do_parse_err p F W on_print on_print_err D kept (Feeds p G))

  -- Every operation that is collected is valid, and every filter has the property.
  abbrev Good : Group → Type 0
  Good g = AllOf IsValid g.ops × G g.filter

  abbrev Collected : List Group → Type 0
  Collected groups = AllOf Good groups

  CollectedIn : Option Group → Type 0
  CollectedIn none = Unit
  CollectedIn (some g) = Good g

  do_add_op :
      (c : Text) (group : Option Group)
      → IsShort p F W on_print on_print_err D kept (Feeds p G) c
      → CollectedIn group
      → Finishes F (Logged W) (add_op p c group) Good
  unfolding add_op CollectedIn
  do_add_op c group short h =
      do_null_or group (λ _. (do_parse_err p F W on_print on_print_err D kept (Feeds p G)))
        λ g e.
          let parsed =
            Ends-fault (EndsInDot c) F IsValid (parse_op c) short.1 (parse_op-IsValid c short.0) in
          and_then (do_lift (parse_op c) parsed) λ op v.
            let before : Good g = rw e at h in
            do_pure _ (AllOf-snoc IsValid g.ops op before.0 v, before.1)

  current-Collected :
      (done : List Group) (group : Option Group)
      → Collected done
      → CollectedIn group
      → Collected (current p done group).0 × Good (current p done group).1
  unfolding current CollectedIn
  current-Collected done none d h = (d, (tt, start))
  current-Collected done (some g) d h = elim (Bool-cases (is_empty g.ops)) [
    | inl fresh ↦ rw fresh (d, h)
    | inr used ↦ rw used (AllOf-snoc Good done g d h, (tt, start))
  ]

  do_ops_loop :
      (args : List Text) (done : List Group) (group : Option Group)
      → AllOf (IsShort p F W on_print on_print_err D kept (Feeds p G)) args
      → Collected done
      → CollectedIn group
      → Finishes F (Logged W) (ops_loop p args done group) Collected
  unfolding ops_loop CollectedIn KeepsNext
  do_ops_loop [] done group short d h =
      do_null_or group (λ _. (do_parse_err p F W on_print on_print_err D kept (Feeds p G)))
        (λ g e. do_pure _ (AllOf-snoc Good done g d (rw e at h)))
  do_ops_loop (c ∷ []) done group short d h =
      let (before, valid) = current-Collected done group d h in
      do_when _
        (λ _.
          and_then (do_parse_filter c none _ short.0.2 tt valid.1)
            λ r good. do_ops_loop [] _ (some _) tt before (valid.0, good))
        (λ _. and_then (do_add_op c group short.0 h) λ g v. do_ops_loop [] done (some g) tt d v)
  do_ops_loop (c ∷ next ∷ rest) done group short d h =
      let (before, valid) = current-Collected done group d h in
      do_when _
        (λ _. and_then (do_parse_filter c (some next) _ short.0.2 short.1.0.2.0 valid.1) λ r good.
          do_when r.1 (λ _. do_ops_loop rest _ (some _) short.1.1 before (valid.0, good))
            (λ _. do_ops_loop (next ∷ rest) _ (some _) short.1 before (valid.0, good)))
        (λ _.
          and_then (do_add_op c group short.0 h)
            λ g v. do_ops_loop (next ∷ rest) done (some g) short.1 d v)

  -- The whole run behind the options, if valid operations may do what the flags allow, and devices
  -- whose address is too long come only from where `F` holds.
  pub do_setpci :
      ((flags : Flags) (op : Op) (dev : PciDev) → D flags → IsValid op → MayRun p W flags op dev)
      → ((f : PciFilter) → G f → MayName p F W on_print on_print_err f)
      → ((s : Sys H) → AllOf (λ dev. IsTooLong dev → F) (p.scan_bus s.hw))
      → (st : Settings) (args : List Text)
      → Finishes F
          (Logged W)
          (parse_options p st args)
          (Parsed p F W on_print on_print_err D kept (Feeds p G))
      → Finishes F (Logged W) (setpci p st args) (λ n. n ≡ 0)
  unfolding setpci scan_ops
  do_setpci may named scans st args options = and_then options λ r parsed.
      and_then (do_ops_loop r.1 [] none parsed.1 tt (unfold CollectedIn in tt)) λ groups good.
        let scan : Bool = (scan_ops p r.0 groups).1 in
        and_then
          (do_gets_with {Q = AllOf (λ dev. IsTooLong dev → F)} _
            (λ s. unfold scan_ops in scanned_or_none F scan (p.scan_bus s.hw) (scans s)))
          λ scanned all.
            and_then
              (do_execute p F W on_print on_print_err r.0.flags _ scanned groups all (
                AllOf-map Good (MayDo p F W on_print on_print_err r.0.flags)
                  (λ g h. (
                    AllOf-map IsValid
                        (λ op. IsValid op × ((dev : PciDev) → MayRun p W r.0.flags op dev))
                        (λ op v. (v, λ dev. may r.0.flags op dev parsed.0 v)) g.ops h.0,
                    named g.filter h.1,
                  ))
                  groups good))
              λ _ _. do_pure 0 refl
