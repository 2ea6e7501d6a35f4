-- ===== src/Scan/Ends.antt =====
-- Scanning comes to an end and keeps the state sound (adna.c: scan_devices, sort_them,
-- count_downstream, save_to_adna_list, show, adna_pci_process; ls-tree.c: grow_tree).
use adnacom_hotplug.Common.{
  AllOf, ◌≡◌, refl, sym, ◌∙◌, ap, subst, ℕ, zero, suc, ◌+◌, ◌<◌, ◌≤◌, Bool, true, false, not, ◌==◌,
  if◌then◌else◌, Option, none, some, List, [], ◌∷◌, ◌++◌, map, length, get_elem?, set, ok, deref,
  arith, ℕ_discrete, dec_lt, length-append, get_elem?-lt, get_elem?-append_left,
  get_elem?-append_length,
}
use adnacom_hotplug.Pci.{PciDev, PciFilter}
use adnacom_hotplug.Platform.{Platform, ReadsBlocks}
use adnacom_hotplug.Config.{Device, BusRef}
use adnacom_hotplug.Link.Ends.{ok-Halts, pci_is_downstream-Halts}
use adnacom_hotplug.Link.Laws.{pcidev_is_adnacom_iff}
use adnacom_hotplug.Topology.{Bridge, Bus}
use adnacom_hotplug.Topology.Growth.{get_elem?-found, HasHeader, HasHeader-same}
use adnacom_hotplug.Topology.Total.{grow_tree-IsFlat}
use adnacom_hotplug.Machine.{Sys, M, ◌>>=◌, modify, gets, lift, put_device, for_all, null_or, skip}
use adnacom_hotplug.Machine.Invariants.{
  Halts, Keeps, then_do, Any, by_pure, by_gets, by_lift, by_modify, by_when, by_null_or, IsSound,
  IsSound-same, put-IsSound, keeps_device_at, keeps_emit,
}
use adnacom_hotplug.Show.{Options}
use adnacom_hotplug.Show.Ends.{keeps_show_verbose}
use adnacom_hotplug.Scan.{
  compare_loaded, pointer, load_all, qsort, scan_device, push_device, scan_devices, sort_them,
  run_grow_tree, count_loop, count_downstream, parent_of, hub_of, save_device, save_to_adna_list,
  show_one, show, adna_pacc_cleanup, first_process, adna_pci_process,
}
use adnacom_hotplug.Scan.Order.{Points, load_cons, load_all-inv, sort_them_lem}
use adnacom_hotplug.Scan.Fresh.{new_device-HasHeader}

not-false : (b : Bool) → not b ≡ false → b ≡ true
not-false true h = refl
not-false false h = cc

pub deref-Halts : {A : Type 0} (x : Option A) → Halts Any (deref x)
deref-Halts none = tt
deref-Halts (some a) = tt

AllOf-more : (m n : ℕ) (ds : List ℕ) → m ≤ n → AllOf (λ d. d < m) ds → AllOf (λ d. d < n) ds
AllOf-more m n [] h a = tt
AllOf-more m n (d ∷ ds) h a = (omega arith, AllOf-more m n ds h a.1)

append_header :
    (ds : List Device) (device : Device)
    → ((i : ℕ) (d : Device) → get_elem? ds i ≡ some d → HasHeader d)
    → HasHeader device
    → (i : ℕ) (d : Device) → get_elem? (ds ++ device ∷ []) i ≡ some d
    → HasHeader d
append_header ds device all header i d e = elim (ℕ_discrete i (length ds)) [
  | yes last ↦
      let allocated : get_elem? (ds ++ device ∷ []) i ≡ some device =
        rw last (get_elem?-append_length ds device []) in
      let e' : some device ≡ some d = sym allocated ∙ e in
      let same : device ≡ d = cc in subst HasHeader same header
  | no other ↦
      let inside : i < length (ds ++ device ∷ []) = get_elem?-lt (ds ++ device ∷ []) i e in
      let below : i < length ds = omega (arith, length-append ds (device ∷ [])) in
      all i d (sym (get_elem?-append_left ds (device ∷ []) i below) ∙ e)
]

-- A device is allocated and listed.
push-IsSound :
    {H : Type 0} (s : Sys H) (device : Device)
    → IsSound s
    → HasHeader device
    → IsSound (record s {
      topology = record (s.topology) { devices = s.topology.devices ++ device ∷ [] };
      first_dev = length s.topology.devices ∷ s.first_dev;
    })
push-IsSound s device h header =
    let longer = length-append s.topology.devices (device ∷ []) in
    record {
      headers = append_header s.topology.devices device h.headers header;
      flat = h.flat;
      listed = (omega (arith, longer), AllOf-more _ _ s.first_dev (omega (arith, longer)) h.listed);
    }

load_all-found :
    (devices : List Device) (ds : List ℕ)
    → AllOf (λ d. d < length devices) ds
    → (index : List (ℕ × PciDev)) × (load_all devices ds ≡ ok index)
load_all-found devices [] a = ([], unfold load_all in refl)
load_all-found devices (d ∷ ds) a =
    let (device, found) = get_elem?-found devices d a.0 in
    let (index, r) = load_all-found devices ds a.1 in
    ((d, device.dev) ∷ index, load_cons devices d ds device found ∙ (rw r refl))

Points-below :
    (devices : List Device) (index : List (ℕ × PciDev))
    → AllOf (Points devices) index
    → AllOf (λ d. d < length devices) (map pointer index)
Points-below devices [] a = tt
Points-below devices (x ∷ index) a =
    (get_elem?-lt devices x.0 a.0.1, Points-below devices index a.1)

set_outside {ℓ} : {A : Type ℓ} (xs : List A) (i : ℕ) (v : A) → length xs ≤ i → set xs i v ≡ xs
set_outside [] i v h = refl
set_outside (x ∷ xs) zero v h = absurd (omega arith)
set_outside (x ∷ xs) (suc i) v h = ap (◌∷◌ x) (set_outside xs i v (omega arith))

module _ {H : Type 0} (p : Platform H) (reads : ReadsBlocks p) (o : Options) where
  pub keeps_for_all :
      {A : Type 0} (body : A → M H (Unit {0}))
      → ((a : A) → Keeps IsSound (body a) Any)
      → (xs : List A) → Keeps IsSound (for_all xs body) Any
  unfolding for_all
  keeps_for_all body b [] = by_pure tt tt
  keeps_for_all body b (x ∷ xs) = then_do (b x) (λ _ _. keeps_for_all body b xs)

  pub by_gets_that :
      {A : Type 0} {Q : A → Type 0} (f : Sys H → A)
      → ((s : Sys H) → Q (f s))
      → Keeps IsSound (gets f) Q
  unfolding gets
  by_gets_that f q = record { run = λ s h. (q s, h) }

  keeps_put_device :
      (d : ℕ) (device : Device) → HasHeader device → Keeps {H = H} IsSound (put_device d device) Any
  unfolding put_device
  keeps_put_device d device header = by_modify _ λ s h.
      elim (dec_lt d (length s.topology.devices)) [
        | yes inside ↦ put-IsSound s d device h inside header
        | no outside ↦
            IsSound-same s _
              (ap (λ ds. record (s.topology) { devices = ds })
                (set_outside s.topology.devices d device (omega arith)))
              refl h
      ]

  read_whole :
      (h : H) (dev : PciDev)
      → not (p.read_block h dev 0 256).0 ≡ false
      → length (p.read_block h dev 0 256).1 ≡ 256
  read_whole h dev good = reads.whole h dev 0 256 (not-false _ good)

  abbrev Scanned : Option Device → Type 0
  Scanned none = Unit
  Scanned (some device) = HasHeader device

  ends_scan_device : (dev : PciDev) → Keeps IsSound (scan_device p o dev) Scanned
  unfolding scan_device
  ends_scan_device dev = then_do (by_modify _ λ s h. IsSound-same s _ refl refl h) λ _ _.
      by_when _ (λ _. by_pure none tt)
        (λ _. then_do (by_lift _ (ok-Halts _ (pcidev_is_adnacom_iff dev).1)) λ ours _.
          by_when _ (λ _. by_pure none tt)
            (λ _.
              then_do {Q = λ read. not (read.0) ≡ false → length (read.1) ≡ 256}
                (by_gets_that _ (λ s. read_whole s.hw dev))
                λ read whole.
                  by_when _
                    (λ _. then_do (keeps_emit p _) λ _ _.
                      then_do (by_modify _ λ s h. IsSound-same s _ refl refl h)
                        λ _ _. by_pure none tt)
                    (λ good. by_pure _ (new_device-HasHeader p o dev (read.1) (whole good)))))

  push_found :
      (found : Option Device)
      → Scanned found
      → Keeps IsSound (null_or found skip (push_device p o)) Any
  unfolding null_or push_device
  push_found none h = by_pure tt tt
  push_found (some device) h = by_modify _ λ s v. push-IsSound s device v h

  ends_scan_devices : Keeps IsSound (scan_devices p o) Any
  unfolding scan_devices
  ends_scan_devices = then_do (by_gets _) λ devices _.
      keeps_for_all _
        (λ dev. then_do (ends_scan_device dev) λ found header. push_found found header) devices

  ends_sort_them : Keeps IsSound (sort_them p o) Any
  ends_sort_them = record {
    run = λ s h.
        let (index, r) = load_all-found s.topology.devices s.first_dev h.listed in
        let sorted = qsort compare_loaded index in
        let (e, loaded) = sort_them_lem p o s index r in
        let (pointers, points) =
          load_all-inv s.topology.devices (map pointer sorted) sorted loaded in
        rw e (
          tt,
          record {
            headers = h.headers;
            flat = h.flat;
            listed = Points-below s.topology.devices sorted points;
          },
        );
  }

  ends_run_grow_tree : Keeps IsSound (run_grow_tree p o) Any
  unfolding run_grow_tree ◌>>=◌ gets lift modify
  ends_run_grow_tree = record {
    run = λ s h.
        let (t, r, flat, same, headers) =
          grow_tree-IsFlat s.topology s.first_dev h.flat h.headers h.listed in
        rw r (
          tt,
          record {
            headers = headers;
            flat = flat;
            listed = subst (λ n. AllOf (λ k. k < n) s.first_dev) (sym same) h.listed;
          },
        );
  }

  ends_count_loop : (ds : List ℕ) (i : ℕ) → Keeps IsSound (count_loop p o ds i) Any
  unfolding count_loop
  ends_count_loop [] i = by_pure i tt
  ends_count_loop (d ∷ ds) i = then_do (keeps_device_at d) λ device header.
      by_when _ (λ _. ends_count_loop ds i)
        (λ _.
          then_do {Q = Halts Any} (by_gets_that _ (λ s. pci_is_downstream-Halts p s.hw _))
            λ r halts. then_do (by_lift r halts) λ downstream _.
              then_do (keeps_put_device d _ (HasHeader-same device _ refl refl refl header))
                λ _ _. ends_count_loop ds (if downstream then i + 1 else i))

  ends_parent_of : (device : Device) → Keeps IsSound (parent_of p o device) Any
  unfolding parent_of
  ends_parent_of device = then_do (by_lift _ (deref-Halts _)) λ (bus : BusRef) _.
      then_do (by_gets _) λ found _. then_do (by_lift _ (deref-Halts _)) λ (br : Bridge) _.
        by_null_or _ (by_pure _ tt) λ d. then_do (keeps_device_at d) λ parent _. by_pure _ tt

  ends_hub_of : (device : Device) → Keeps IsSound (hub_of p o device) Any
  unfolding hub_of
  ends_hub_of device = then_do (by_lift _ (deref-Halts _)) λ (b : ℕ) _.
      then_do (by_gets _) λ found _. then_do (by_lift _ (deref-Halts _)) λ (br : Bridge) _.
        by_null_or _ (by_lift _ tt) λ (bus : Bus).
          by_null_or _ (by_pure _ tt) λ d. then_do (keeps_device_at d) λ hub _. by_pure _ tt

  ends_save_device : (junk : PciFilter) (d : ℕ) → Keeps IsSound (save_device p o junk d) Any
  unfolding save_device
  ends_save_device junk d = then_do (keeps_device_at d) λ device _.
      by_when _ (λ _. by_pure tt tt)
        (λ _. then_do (ends_parent_of device) λ parent _.
          then_do (ends_hub_of device) λ hub _. by_modify _ λ s h. IsSound-same s _ refl refl h)

  ends_show_one : (d : ℕ) → (o.opt_path == 0) ≡ true → Keeps IsSound (show_one p o d) Any
  unfolding show_one
  ends_show_one d plain = then_do (keeps_device_at d) λ device _.
      by_when _ (λ _. by_pure tt tt)
        (λ _.
          then_do {Q = Halts Any} (by_gets_that _ (λ s. pci_is_downstream-Halts p s.hw _))
            λ r halts. then_do (by_lift r halts) λ downstream _.
              by_when _ (λ _. keeps_show_verbose p reads o d plain) (λ _. by_pure tt tt))

  pub ends_cleanup : Keeps IsSound (adna_pacc_cleanup p o) Any
  unfolding adna_pacc_cleanup
  ends_cleanup = keeps_emit p _

  ends_first_process :
      (junk : PciFilter) → (o.opt_path == 0) ≡ true → Keeps IsSound (first_process p o junk) Any
  unfolding first_process count_downstream save_to_adna_list show
  ends_first_process junk plain = then_do (then_do (by_gets _) λ ds _. ends_count_loop ds 0) λ n _.
      then_do (by_modify _ λ s h. IsSound-same s _ refl refl h) λ _ _.
        by_when _ (λ _. then_do (keeps_emit p _) λ _ _. by_pure _ tt)
          (λ _.
            then_do (then_do (by_gets _) λ ds _. keeps_for_all _ (ends_save_device junk) ds) λ _ _.
              then_do (then_do (by_gets _) λ ds _. keeps_for_all _ (λ d. ends_show_one d plain) ds)
                λ _ _. then_do ends_cleanup λ _ _. by_pure _ tt)

  pub ends_adna_pci_process :
      (junk : PciFilter) → (o.opt_path == 0) ≡ true → Keeps IsSound (adna_pci_process p o junk) Any
  unfolding adna_pci_process
  ends_adna_pci_process junk plain = then_do ends_scan_devices λ _ _. then_do ends_sort_them λ _ _.
      then_do ends_run_grow_tree λ _ _.
        then_do (by_gets _)
          λ initialized _. by_when _ (λ _. by_pure _ tt) (λ _. ends_first_process junk plain)
