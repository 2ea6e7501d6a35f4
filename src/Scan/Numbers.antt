-- ===== src/Scan/Numbers.antt =====
-- The numbers that the downstream ports are listed under (adna.c: count_downstream).
use adnacom_hotplug.Common.{
  AllOf, ◌≡◌, ◌≢◌, refl, sym, ◌∙◌, ap, ℕ, zero, suc, ◌+◌, Bool, true, false, if◌then◌else◌, Option,
  none, some, List, [], ◌∷◌, map, length, get_elem?, set, ok, arith, get_elem?-lt,
  get_elem?-set_self, get_elem?-set_ne,
}
use adnacom_hotplug.Platform.{Platform}
use adnacom_hotplug.Config.{Device}
use adnacom_hotplug.Link.{pci_is_downstream}
use adnacom_hotplug.Machine.{
  Sys, any_device, pure, ◌>>=◌, when◌then◌else◌, gets, lift, modify, device_at, put_device,
}
use adnacom_hotplug.Show.{Options}
use adnacom_hotplug.Scan.{count_loop, count_downstream}

-- No pointer stands twice in a list.
abbrev pub Distinct : List ℕ → Type 0
Distinct [] = Unit
Distinct (d ∷ ds) = AllOf (λ e. e ≢ d) ds × Distinct ds

abbrev pub chosen : (ℕ → Bool) → List ℕ → List ℕ
chosen f [] = []
chosen f (d ∷ ds) = if f d then d ∷ chosen f ds else chosen f ds

-- n numbers from i on.
abbrev pub from : ℕ → ℕ → List ℕ
from i zero = []
from i (suc n) = i ∷ from (i + 1) n

abbrev pub number_of : Option Device → Option ℕ
number_of none = none
number_of (some device) = some device.num_device

ports-cons :
    (b : Bool) (f : ℕ → Option ℕ) (d i : ℕ) (xs : List ℕ)
    → f d ≡ some (if b then i + 1 else 0)
    → map f xs ≡ map some (from ((if b then i + 1 else i) + 1) (length xs))
    → map f (if b then d ∷ xs else xs) ≡ map some (from (i + 1) (length (if b then d ∷ xs else xs)))
ports-cons true f d i xs here rest = rw (here, rest) refl
ports-cons false f d i xs here rest = rest

module _ {H : Type 0} where
  abbrev pub number_at : Sys H → ℕ → Option ℕ
  number_at s d = number_of (get_elem? s.topology.devices d)

  -- A pointer to a device that tells whether it is a downstream port.
  pub record Answers (p : Platform H) (down : ℕ → Bool) (s : Sys H) (d : ℕ) : Type 0 where
    pub at : Device
    pub found : get_elem? s.topology.devices d ≡ some at
    pub told : pci_is_downstream p s.hw at.dev ≡ ok (down d)

  -- The downstream ports of a list are numbered from i + 1 on, and the others have the number 0.
  pub record IsNumbered (down : ℕ → Bool) (ds : List ℕ) (i : ℕ) (s s' : Sys H) : Type 0 where
    pub ports :
        map (number_at s') (chosen down ds) ≡ map some (from (i + 1) (length (chosen down ds)))
    pub rest : AllOf (λ d. down d ≡ false → number_at s' d ≡ some 0) ds
    pub same :
        (k : ℕ)
        → AllOf (λ d. d ≢ k) ds
        → get_elem? s'.topology.devices k ≡ get_elem? s.topology.devices k
    pub first : s'.first_dev ≡ s.first_dev

module _ {H : Type 0} (p : Platform H) (o : Options) (down : ℕ → Bool)
    (matches : (d : Device) → p.filter_match any_device (d.dev) ≡ true) where
  abbrev numbered : Sys H → ℕ → Device → ℕ → Sys H
  numbered s d device n = record s {
    topology = record (s.topology) {
      devices = set s.topology.devices d (record device { num_device = n });
    };
  }

  Answers-numbered :
      (s : Sys H) (d : ℕ) (device : Device) (n : ℕ) (ds : List ℕ)
      → AllOf (λ e. e ≢ d) ds
      → AllOf (Answers p down s) ds
      → AllOf (Answers p down (numbered s d device n)) ds
  Answers-numbered s d device n [] ne a = tt
  Answers-numbered s d device n (e ∷ ds) ne a = (
    record {
      at = a.0.at;
      found = get_elem?-set_ne s.topology.devices d e _ (λ q. ne.0 (sym q)) ∙ a.0.found;
      told = a.0.told;
    },
    Answers-numbered s d device n ds ne.1 a.1,
  )

  next : ℕ → ℕ → ℕ
  next d i = if down d then i + 1 else i

  given : ℕ → ℕ → ℕ
  given d i = if down d then i + 1 else 0

  -- One round of the loop.
  count_loop-cons :
      (d : ℕ) (ds : List ℕ) (i : ℕ) (s : Sys H) (a : Answers p down s d)
      → count_loop p o (d ∷ ds) i s ≡ count_loop p o ds (next d i) (numbered s d (a.at) (given d i))
  unfolding count_loop next given device_at put_device ◌>>=◌ gets lift modify when◌then◌else◌
  count_loop-cons d ds i s a = rw (a.found, matches (a.at), a.told) refl

  number_at-given :
      (d : ℕ) (ds : List ℕ) (i : ℕ) (s s' : Sys H) (a : Answers p down s d)
      → AllOf (λ e. e ≢ d) ds
      → IsNumbered down ds (next d i) (numbered s d (a.at) (given d i)) s'
      → number_at s' d ≡ some (given d i)
  number_at-given d ds i s s' a ne n = ap number_of (
      n.same d ne
      ∙ get_elem?-set_self s.topology.devices d _ (get_elem?-lt s.topology.devices d a.found))

  IsNumbered-cons :
      (d : ℕ) (ds : List ℕ) (i : ℕ) (s s' : Sys H) (a : Answers p down s d)
      → AllOf (λ e. e ≢ d) ds
      → IsNumbered down ds (next d i) (numbered s d (a.at) (given d i)) s'
      → IsNumbered down (d ∷ ds) i s s'
  unfolding next given
  IsNumbered-cons d ds i s s' a ne n =
      let given_here : number_at s' d ≡ some (given d i) = number_at-given d ds i s s' a ne n in
      record {
        ports = ports-cons (down d) (number_at s') d i (chosen down ds) given_here n.ports;
        rest = (λ h. given_here ∙ rw h refl, n.rest);
        same = λ k h. n.same k (h.1) ∙ get_elem?-set_ne s.topology.devices d k _ (h.0);
        first = n.first;
      }

  pub count_loop-IsNumbered :
      (ds : List ℕ) (i : ℕ) (s : Sys H)
      → Distinct ds
      → AllOf (Answers p down s) ds
      → (s' : Sys H) × (count_loop p o ds i s ≡ (ok (i + length (chosen down ds)), s'))
        × IsNumbered down ds i s s'
  unfolding count_loop pure next
  count_loop-IsNumbered [] i s u a = (
    s,
    ap (λ (n : ℕ). (ok n, s)) (omega arith),
    record { ports = refl; rest = tt; same = λ k h. refl; first = refl },
  )
  count_loop-IsNumbered (d ∷ ds) i s u a =
      let (s', e, n) =
        count_loop-IsNumbered ds (next d i) (numbered s d (a.0.at) (given d i)) (u.1)
          (Answers-numbered s d (a.0.at) (given d i) ds u.0 a.1) in
      (
        s',
        count_loop-cons d ds i s (a.0) ∙ e ∙ ap (λ (n : ℕ). (ok n, s')) (ground arith),
        IsNumbered-cons d ds i s s' (a.0) (u.0) n,
      )

  -- If every pointer of the list of devices stands there once and points to a device that tells
  -- whether it is a downstream port, and the filter that asks for nothing lets every device pass,
  -- then count_downstream returns the number of the downstream ports. Afterwards those have the
  -- numbers from 1 on, in the order of the list, and the other devices of the list have the number
  -- 0; the list and every device outside it are unchanged.
  pub count_downstream-IsNumbered :
      (s : Sys H)
      → Distinct s.first_dev
      → AllOf (Answers p down s) s.first_dev
      → (s' : Sys H) × (count_downstream p o s ≡ (ok (length (chosen down s.first_dev)), s'))
        × IsNumbered down s.first_dev 0 s s'
  unfolding count_downstream ◌>>=◌ gets
  count_downstream-IsNumbered s u a =
      let (s', e, n) = count_loop-IsNumbered s.first_dev 0 s u a in
      (s', e ∙ ap (λ (n : ℕ). (ok n, s')) (omega arith), n)
