-- ===== src/Scan/Devnums.antt =====
-- The numbers in the list of ports after the first scan (adna.c: count_downstream,
-- save_to_adna_list).
use adnacom_hotplug.Common.{
  AllOf, ◌≡◌, ◌≢◌, refl, sym, ◌∙◌, ap, subst, ℕ, zero, suc, ◌+◌, Bool, true, false, if◌then◌else◌,
  ◌==◌, Option, some, List, [], ◌∷◌, ◌++◌, map, length, ok, arith, Bool-cases, inl, inr,
}
use mathlib.Core.List.{reverse, reverse_aux}
use adnacom_hotplug.Pci.{PciFilter}
use adnacom_hotplug.Platform.{Platform}
use adnacom_hotplug.Config.{Device}
use adnacom_hotplug.Machine.{AdnaDevice, Sys, any_device}
use adnacom_hotplug.Show.{Options}
use adnacom_hotplug.Scan.{count_downstream, save_to_adna_list}
use adnacom_hotplug.Scan.Numbers.{
  Distinct, chosen, from, number_of, number_at, Answers, IsNumbered, count_downstream-IsNumbered,
}
use adnacom_hotplug.Scan.Listed.{IsPlaced, entry, entries, save_to_adna_list-entries}

map-reverse_aux {ℓ κ} :
    {A : Type ℓ} {B : Type κ} (f : A → B) (xs ys : List A)
    → map f (reverse_aux xs ys) ≡ reverse_aux (map f xs) (map f ys)
map-reverse_aux f [] ys = refl
map-reverse_aux f (x ∷ xs) ys = map-reverse_aux f xs (x ∷ ys)

from-nonzero : (i n : ℕ) → AllOf (λ k. k ≢ 0) (from (i + 1) n)
from-nonzero i zero = tt
from-nonzero i (suc n) = (omega arith, from-nonzero (i + 1) n)

abbrev pub devnum_of : AdnaDevice → ℕ
devnum_of a = a.devnum

module _ {H : Type 0} (p : Platform H) (o : Options) (junk : PciFilter) (down : ℕ → Bool) where
  devnum-cons :
      (s : Sys H) (d : ℕ) (l : IsPlaced s.topology d) (rest : List AdnaDevice)
      (xs : List (Option ℕ)) (ns : List ℕ)
      → number_at s d ∷ xs ≡ map some ns
      → AllOf (λ k. k ≢ 0) ns
      → ((ms : List ℕ) → xs ≡ map some ms → AllOf (λ k. k ≢ 0) ms → map devnum_of rest ≡ ms)
      → map devnum_of
          (if l.at.num_device == 0 then rest else entry p o junk (l.at) (l.parent) (l.hub) ∷ rest)
        ≡ ns
  devnum-cons s d l rest xs [] e z k = cc
  devnum-cons s d l rest xs (n ∷ ns) e z k =
      let head : number_at s d ≡ some n = cc in
      let number : some (l.at.num_device) ≡ some n = sym (ap number_of l.found) ∙ head in
      let same : l.at.num_device ≡ n = cc in
      let numbered : (l.at.num_device == 0) ≡ false = ground (arith, z.0) in
      let tail : xs ≡ map some ns = cc in rw (numbered, same, k ns tail z.1) refl

  entries-devnum :
      (s : Sys H) (ds ns : List ℕ) (a : AllOf (IsPlaced s.topology) ds)
      → map (number_at s) (chosen down ds) ≡ map some ns
      → AllOf (λ d. down d ≡ false → number_at s d ≡ some 0) ds
      → AllOf (λ k. k ≢ 0) ns
      → map devnum_of (entries p o junk s.topology ds a) ≡ ns
  entries-devnum s [] [] a e r z = refl
  entries-devnum s [] (n ∷ ns) a e r z = cc
  entries-devnum s (d ∷ ds) ns a e r z = elim (Bool-cases (down d)) [
    | inr other ↦
        let zeroed : some (a.0.at.num_device) ≡ some 0 = sym (ap number_of a.0.found) ∙ r.0 other in
        let none_of : (a.0.at.num_device == 0) ≡ true = ground arith in
        let e' : map (number_at s) (chosen down ds) ≡ map some ns = rw other at e in
        rw none_of (entries-devnum s ds ns a.1 e' r.1 z)
    | inl port ↦
        let e' : number_at s d ∷ map (number_at s) (chosen down ds) ≡ map some ns = rw port at e in
        devnum-cons s d (a.0) (entries p o junk s.topology ds (a.1)) _ ns e' z
          (λ ms q y. entries-devnum s ds ms a.1 q r.1 y)
  ]

  -- If every pointer of the list of devices stands there once and points to a device that tells
  -- whether it is a downstream port, if the filter that asks for nothing lets every device pass,
  -- and if after count_downstream each device with a number has its place in the topology: then
  -- save_to_adna_list returns, and puts entries in front of the list of ports whose numbers go
  -- from the number of the downstream ports, which count_downstream returned, down to 1. Nothing
  -- else changes.
  pub first_list_numbers :
      (matches : (d : Device) → p.filter_match any_device (d.dev) ≡ true) (s s' : Sys H) (n : ℕ)
      → Distinct s.first_dev
      → AllOf (Answers p down s) s.first_dev
      → count_downstream p o s ≡ (ok n, s')
      → AllOf (IsPlaced s'.topology) s'.first_dev
      → (l : List AdnaDevice) × (save_to_adna_list p o junk s'
          ≡ (ok tt, record s' { first_adna = l ++ s'.first_adna }))
        × (map devnum_of l ≡ reverse (from 1 n))
        × (n ≡ length (chosen down s.first_dev))
  first_list_numbers matches s s' n u w c a =
      let (s1, e, numbers) = count_downstream-IsNumbered p o down matches s u w in
      let same : s1 ≡ s' = ap (λ r. r.1) (sym e ∙ c) in
      let counted : length (chosen down s.first_dev) ≡ n = cc (e, c) in
      let numbers' : IsNumbered down s.first_dev 0 s s' =
        subst (IsNumbered down s.first_dev 0 s) same numbers in
      let l = entries p o junk s'.topology s'.first_dev a in
      let first : s'.first_dev ≡ s.first_dev = numbers'.first in
      let ports : map (number_at s') (chosen down s'.first_dev) ≡ map some (from 1 n) =
        rw (first, ← counted) numbers'.ports in
      let rest : AllOf (λ d. down d ≡ false → number_at s' d ≡ some 0) s'.first_dev =
        rw first numbers'.rest in
      let listed : map devnum_of l ≡ from 1 n =
        entries-devnum s' s'.first_dev (from 1 n) a ports rest (from-nonzero 0 n) in
      (
        reverse l,
        save_to_adna_list-entries p o junk s' a,
        map-reverse_aux devnum_of l [] ∙ ap reverse listed,
        sym counted,
      )
