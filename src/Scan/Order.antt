-- ===== src/Scan/Order.antt =====
-- The order of the devices (compare_them, sort_them).
use adnacom_hotplug.Common.{
  ◌≡◌, refl, ap, ◌∙◌, sym, subst, ℕ, ◌+◌, ◌*◌, ◌<◌, true, false, ltb, if◌then◌else◌, List, [], ◌∷◌,
  map, none, some, Outcome, ok, exited, fault, diverged, get_elem?, arith, Bool-cases, Option-cases,
  inl, inr, ◌≤◌, ◌++◌, AllOf,
}
use mathlib.Core.List.{Perm, append-nil, append_assoc}
use mathlib.Core.List.Perm
use adnacom_hotplug.Pci.{PciDev}
use adnacom_hotplug.Platform.{Platform}
use adnacom_hotplug.Config.{Device}
use adnacom_hotplug.Machine.{Sys, ◌>>=◌, gets, lift, modify}
use adnacom_hotplug.Show.{Options}
use adnacom_hotplug.Scan.{
  Sign, lt, eq, gt, compare_them, is_gt, cons_loaded, insert_sorted, qsort, load_all,
  compare_loaded, pointer, relink, sort_them,
}

-- The place of a function in the address space of a PCI system.
abbrev pub address : PciDev → ℕ
address d = ((d.domain * 256 + d.bus) * 32 + d.dev) * 8 + d.func

-- The parts of an address have their widths.
pub record IsAddress (d : PciDev) : Type 0 where
  pub bus_lt : d.bus < 256
  pub dev_lt : d.dev < 32
  pub func_lt : d.func < 8

-- `compare_them` orders two devices, the parts of whose addresses have their widths, as their
-- addresses are ordered as numbers.
pub compare_them-address :
    (a b : PciDev)
    → IsAddress a
    → IsAddress b
    → compare_them a b
      ≡ (if ltb (address a) (address b) then lt else if ltb (address b) (address a) then gt else eq)
unfolding compare_them
compare_them-address a b u v = ground arith

compare_them-asym :
    (a b : PciDev) → is_gt (compare_them a b) ≡ true → is_gt (compare_them b a) ≡ false
unfolding compare_them
compare_them-asym a b h = ground arith

module _ {ℓ} {A : Type ℓ} (cmp : A → A → Sign) where
  -- No element is greater than the next.
  abbrev pub IsSorted : List A → Type 0
  IsSorted [] = Unit
  IsSorted (x ∷ []) = Unit
  IsSorted (x ∷ y ∷ r) = (is_gt (cmp x y) ≡ false) × IsSorted (y ∷ r)

  module _ (asym : (a b : A) → is_gt (cmp a b) ≡ true → is_gt (cmp b a) ≡ false) where
    insert-IsSorted_below :
        (x y : A) (ys : List A)
        → is_gt (cmp x y) ≡ true
        → IsSorted (y ∷ ys)
        → IsSorted (y ∷ insert_sorted cmp x ys)
    unfolding insert_sorted
    insert-IsSorted_below x y [] h s = (asym x y h, tt)
    insert-IsSorted_below x y (z ∷ ys) h s = elim (Bool-cases (is_gt (cmp x z))) [
      | inl e ↦ rw e (s.0, insert-IsSorted_below x z ys e s.1)
      | inr e ↦ rw e (asym x y h, (e, s.1))
    ]

    insert-IsSorted : (x : A) (xs : List A) → IsSorted xs → IsSorted (insert_sorted cmp x xs)
    unfolding insert_sorted
    insert-IsSorted x [] s = tt
    insert-IsSorted x (y ∷ ys) s = elim (Bool-cases (is_gt (cmp x y))) [
      | inl e ↦ rw e (insert-IsSorted_below x y ys e s)
      | inr e ↦ rw e (e, s)
    ]

    qsort-IsSorted : (xs : List A) → IsSorted (qsort cmp xs)
    unfolding qsort
    qsort-IsSorted [] = tt
    qsort-IsSorted (x ∷ xs) = insert-IsSorted x (qsort cmp xs) (qsort-IsSorted xs)

  insert-perm : (x : A) (xs : List A) → Perm (insert_sorted cmp x xs) (x ∷ xs)
  unfolding insert_sorted
  insert-perm x [] = Perm.rfl
  insert-perm x (y ∷ ys) = elim (Bool-cases (is_gt (cmp x y))) [
    | inl e ↦ rw e (Perm.trans (Perm.cons y (insert-perm x ys)) (Perm.swap x y ys))
    | inr e ↦ rw e Perm.rfl
  ]

  qsort-perm : (xs : List A) → Perm (qsort cmp xs) xs
  unfolding qsort
  qsort-perm [] = Perm.nil
  qsort-perm (x ∷ xs) = Perm.trans (insert-perm x (qsort cmp xs)) (Perm.cons x (qsort-perm xs))

  module _ (P : A → Type 0) where
    AllOf-insert : (x : A) (xs : List A) → P x → AllOf P xs → AllOf P (insert_sorted cmp x xs)
    unfolding insert_sorted
    AllOf-insert x [] h hs = (h, tt)
    AllOf-insert x (y ∷ ys) h hs = elim (Bool-cases (is_gt (cmp x y))) [
      | inl e ↦ rw e (hs.0, AllOf-insert x ys h hs.1)
      | inr e ↦ rw e (h, hs)
    ]

    AllOf-qsort : (xs : List A) → AllOf P xs → AllOf P (qsort cmp xs)
    unfolding qsort
    AllOf-qsort [] h = tt
    AllOf-qsort (x ∷ xs) h = AllOf-insert x (qsort cmp xs) h.0 (AllOf-qsort xs h.1)

-- A pointer stands with the device that it points to.
abbrev pub Points : List Device → ℕ × PciDev → Type 0
Points devices a = (device : Device) × (get_elem? devices a.0 ≡ some device) × (device.dev ≡ a.1)

cons_loaded-inv :
    (a : ℕ × PciDev) (r : Outcome (List (ℕ × PciDev))) {index : List (ℕ × PciDev)}
    → cons_loaded a r ≡ ok index
    → (rest : List (ℕ × PciDev)) × (r ≡ ok rest) × (a ∷ rest ≡ index)
cons_loaded-inv a (ok rest) h = (rest, refl, cc)
cons_loaded-inv a (exited n) h = cc
cons_loaded-inv a fault h = cc
cons_loaded-inv a diverged h = cc

fault_not_ok : {A B : Type 0} {a : A} → fault ≡ ok a → B
fault_not_ok h = cc

pub load_cons :
    (devices : List Device) (d : ℕ) (ds : List ℕ) (device : Device)
    → get_elem? devices d ≡ some device
    → load_all devices (d ∷ ds) ≡ cons_loaded (d, device.dev) (load_all devices ds)
unfolding load_all
load_cons devices d ds device e = rw (e, load_all)

load_missing :
    (devices : List Device) (d : ℕ) (ds : List ℕ)
    → get_elem? devices d ≡ none
    → load_all devices (d ∷ ds) ≡ fault
unfolding load_all
load_missing devices d ds e = rw (e, load_all)

-- An index that is loaded holds the pointers, each with its device; and such an index is loaded.
pub load_all-inv :
    (devices : List Device) (ds : List ℕ) (index : List (ℕ × PciDev))
    → load_all devices ds ≡ ok index
    → (map pointer index ≡ ds) × AllOf (Points devices) index
load_all-inv devices [] index h =
    let e : [] ≡ index = unfold load_all in cc h in
    subst (λ x. (map pointer x ≡ []) × AllOf (Points devices) x) e (refl, tt)
load_all-inv devices (d ∷ ds) index h = elim (Option-cases (get_elem? devices d)) [
  | inl e ↦ fault_not_ok (sym (load_missing devices d ds e) ∙ h)
  | inr (device, e) ↦
      let (rest, loaded, same) = cons_loaded-inv _ _ (sym (load_cons devices d ds device e) ∙ h) in
      let (pointers, points) = load_all-inv devices ds rest loaded in
      subst (λ x. (map pointer x ≡ d ∷ ds) × AllOf (Points devices) x) same
        (ap (◌∷◌ d) pointers, ((device, e, refl), points))
]

load_all-map :
    (devices : List Device) (index : List (ℕ × PciDev))
    → AllOf (Points devices) index
    → load_all devices (map pointer index) ≡ ok index
load_all-map devices [] h = unfold load_all in refl
load_all-map devices (a ∷ index) h =
    load_cons devices a.0 (map pointer index) h.0.0 h.0.1
    ∙ rw (load_all-map devices index h.1) (ap (λ x. ok ((a.0, x) ∷ index)) h.0.2)

-- Relinking hangs the pointers of the index behind what is linked.
relink_lem :
    (linked : List ℕ) (index : List (ℕ × PciDev))
    → relink linked index ≡ linked ++ map pointer index
unfolding relink
relink_lem linked [] = sym (append-nil linked)
relink_lem linked (h ∷ index) =
    relink_lem (linked ++ h.0 ∷ []) index ∙ append_assoc linked (h.0 ∷ []) (map pointer index)

not_greater :
    (x y : PciDev)
    → IsAddress x
    → IsAddress y
    → is_gt (compare_them x y) ≡ false
    → address x ≤ address y
not_greater x y u v h = let h' = rw (compare_them-address x y u v) at h in ground arith

-- The addresses of the devices ascend, from each to the next.
abbrev pub Ascends : List (ℕ × PciDev) → Type 0
Ascends [] = Unit
Ascends (x ∷ []) = Unit
Ascends (x ∷ y ∷ r) = (address x.1 ≤ address y.1) × Ascends (y ∷ r)

IsSorted-Ascends :
    (xs : List (ℕ × PciDev))
    → AllOf (λ a. IsAddress a.1) xs
    → IsSorted compare_loaded xs
    → Ascends xs
IsSorted-Ascends [] h s = tt
IsSorted-Ascends (x ∷ []) h s = tt
IsSorted-Ascends (x ∷ y ∷ r) h s =
    (not_greater x.1 y.1 h.0 h.1.0 s.0, IsSorted-Ascends (y ∷ r) h.1 s.1)

module _ {H : Type 0} (p : Platform H) (o : Options) where
  -- The list becomes the sorted index, which is again loaded.
  pub sort_them_lem :
      (s : Sys H) (index : List (ℕ × PciDev))
      → load_all s.topology.devices s.first_dev ≡ ok index
      → (sort_them p o s
          ≡ (ok tt, record s { first_dev = map pointer (qsort compare_loaded index) }))
        × (load_all s.topology.devices (map pointer (qsort compare_loaded index))
            ≡ ok (qsort compare_loaded index))
  unfolding sort_them ◌>>=◌ gets lift modify
  sort_them_lem s index h =
      let (pointers, points) = load_all-inv s.topology.devices s.first_dev index h in
      let sorted = qsort compare_loaded index in
      (
        rw (h, relink_lem [] sorted) refl,
        load_all-map s.topology.devices sorted (AllOf-qsort compare_loaded _ index points),
      )

  -- If every pointer of the list of devices points to a device, the parts of whose address have their
  -- widths, then `sort_them` returns, the list holds the same pointers as before, and the addresses
  -- of its devices, read as numbers, ascend; the other parts of the state are as they were.
  pub sort_them-IsSorted :
      (s : Sys H) (index : List (ℕ × PciDev))
      → load_all s.topology.devices s.first_dev ≡ ok index
      → AllOf (λ a. IsAddress a.1) index
      → (sorted : List (ℕ × PciDev)) × (sort_them p o s
          ≡ (ok tt, record s { first_dev = map pointer sorted }))
        × (load_all s.topology.devices (map pointer sorted) ≡ ok sorted)
        × Perm (map pointer sorted) s.first_dev
        × Ascends sorted
  sort_them-IsSorted s index h addresses =
      let (pointers, points) = load_all-inv s.topology.devices s.first_dev index h in
      let sorted = qsort compare_loaded index in
      let (done, loaded) = sort_them_lem s index h in
      (
        sorted,
        done,
        loaded,
        subst (Perm (map pointer sorted)) pointers
            (Perm.map pointer (qsort-perm compare_loaded index)),
        IsSorted-Ascends sorted (AllOf-qsort compare_loaded _ index addresses)
            (qsort-IsSorted compare_loaded (λ a b. compare_them-asym a.1 b.1) index),
      )
