-- ===== src/Topology/Growth.antt =====
-- grow_tree always returns, and leaves a flat tree (ls-tree.c: grow_tree, insert_dev).
use adnacom_hotplug.Common.{
  AllOf, not, ◌%◌, ◌==◌, ◌≡◌, refl, sym, ap, ◌∙◌, subst, inl, inr, ℕ, zero, suc, ◌<◌, true, false,
  Option, none, some, List, [], ◌∷◌, ◌++◌, length, get_elem?, set, Outcome, ok, arith, Bool-cases,
  bit_and, ℕ_discrete, length-set, length-overwrite, map, length-append, get_elem?-set_self,
  get_elem?-set_ne, get_elem?-lt,
}
use adnacom_hotplug.Config.{Device, update_cached, get_conf_byte}
use adnacom_hotplug.Config.Buffers.{loaded-overwrite_keep}
use adnacom_hotplug.Config.Fetch.{IsCache, IsPresent}
use adnacom_hotplug.Topology.{Bridge, Topology, is_bridge, for_each, add_bridge, better, consider}
use adnacom_hotplug.Topology.Flat.{
  AllOther, AllOther-more, AllOther-append, IsLeaf, IsFlat, append-IsFlat,
}

-- A loop whose every round returns, and keeps an invariant, returns and keeps it.
pub for_each_returns {ℓ κ} :
    {A : Type ℓ} {S : Type κ} (P : S → Type 0) (Q : A → Type 0) (step : S → A → Outcome S)
    → ((s : S) (x : A) → P s → Q x → (s' : S) × (step s x ≡ ok s') × P s')
    → (xs : List A) (s : S) → P s
    → AllOf Q xs
    → (s' : S) × (for_each step s xs ≡ ok s') × P s'
unfolding for_each
for_each_returns P Q step keep [] s h a = (s, refl, h)
for_each_returns P Q step keep (x ∷ xs) s h a =
    let (s1, r1, h1) = keep s x h a.0 in
    let (s2, r2, h2) = for_each_returns P Q step keep xs s1 h1 a.1 in (s2, rw r1 r2, h2)

pub get_elem?-found {ℓ} :
    {A : Type ℓ} (xs : List A) (i : ℕ) → i < length xs → (v : A) × (get_elem? xs i ≡ some v)
get_elem?-found [] i h = absurd (omega arith)
get_elem?-found (x ∷ xs) zero h = (x, refl)
get_elem?-found (x ∷ xs) (suc i) h = get_elem?-found xs i (omega arith)

-- The device has a well-formed cache, in which the standard header is present.
pub record HasHeader (d : Device) : Type 0 where
  pub cache : IsCache d
  pub header : IsPresent d 0 64

read_present :
    (x : Option ℕ) (y : Option (Option ℕ))
    → elim x [ none ↦ false | some v ↦ not (v == 0) ] ≡ true
    → elim y [ none ↦ false | some byte ↦ elim byte [ none ↦ false | some b ↦ true ] ] ≡ true
    → (v b : ℕ) × (x ≡ some v) × ((v == 0) ≡ false) × (y ≡ some (some b))
read_present none y h k = cc
read_present (some v) none h k = cc
read_present (some v) (some none) h k = cc
read_present (some v) (some (some b)) h k = (v, b, refl, ground arith, refl)

-- A byte of the header can be read.
pub HasHeader-read :
    (d : Device) (pos : ℕ)
    → HasHeader d
    → pos < 64
    → (v : ℕ) × (get_conf_byte d pos ≡ ok v) × (v < 256)
unfolding get_conf_byte
HasHeader-read d pos h small =
    let there = h.header pos (omega arith) (omega arith) in
    let (v, b, e, nonzero, e') =
      read_present (get_elem? d.present pos) (get_elem? d.config pos) there
        (h.cache.loaded pos there) in
    (b % 256, ground arith, omega arith)

-- A change of the other fields.
pub HasHeader-same :
    (d e : Device)
    → e.config ≡ d.config
    → e.present ≡ d.present
    → e.config_bufsize ≡ d.config_bufsize
    → HasHeader d
    → HasHeader e
HasHeader-same d e same_config same_present same_size h = record {
  cache = record {
    config_size = ap length same_config ∙ h.cache.config_size ∙ sym same_size;
    present_size = ap length same_present ∙ h.cache.present_size ∙ sym same_size;
    nonempty = rw same_size h.cache.nonempty;
    in_range = rw same_size h.cache.in_range;
    loaded = λ i q. rw same_config (h.cache.loaded i (rw same_present at q));
  };
  header = λ i lo hi. rw same_present (h.header i lo hi);
}

-- Bytes stored into the buffer.
pub HasHeader-update_cached :
    (d : Device) (pos : ℕ) (bytes : List ℕ) → HasHeader d → HasHeader (update_cached d pos bytes)
unfolding update_cached
HasHeader-update_cached d pos bytes h =
    let c = h.cache in
    elim (Bool-cases (d.config_bufsize == d.config_cached)) [
      | inl own ↦ rw own (record {
        cache = record {
          config_size = length-overwrite d.config pos (map some bytes) ∙ c.config_size;
          present_size = c.present_size;
          nonempty = c.nonempty;
          in_range = c.in_range;
          loaded = λ i q. loaded-overwrite_keep d.config pos bytes i (c.loaded i q);
        };
        header = h.header;
      })
      | inr moved ↦ rw moved h
    ]

HasHeader-bridge : (d : Device) (b : ℕ) → HasHeader d → HasHeader (record d { bridge = some b })
HasHeader-bridge d b h = HasHeader-same d _ refl refl refl h

-- The heap in which grow_tree works: a flat tree, `n` devices with headers, and a chain of bridges.
pub record IsGrowing (n : ℕ) (t : Topology) : Type 0 where
  pub flat : IsFlat t.bridges
  pub headers : (i : ℕ) (d : Device) → get_elem? t.devices i ≡ some d → HasHeader d
  pub count : length t.devices ≡ n
  pub rest : List ℕ
  pub chained : t.chain ≡ 0 ∷ rest
  pub others : AllOther (length t.bridges) rest

-- A device is written.
pub set_header :
    (ds : List Device) (i : ℕ) (d : Device)
    → ((k : ℕ) (e : Device) → get_elem? ds k ≡ some e → HasHeader e)
    → i < length ds
    → HasHeader d
    → (k : ℕ) (e : Device) → get_elem? (set ds i d) k ≡ some e
    → HasHeader e
set_header ds i d all inside h k e r = elim (ℕ_discrete i k) [
  | yes same ↦
      let written : get_elem? (set ds i d) k ≡ some d =
        rw (sym same) (get_elem?-set_self ds i d inside) in
      let e' : some d ≡ some e = sym written ∙ r in
      let d_is_e : d ≡ e = cc in subst HasHeader d_is_e h
  | no other ↦ all k e (sym (get_elem?-set_ne ds i k d other) ∙ r)
]

-- A bridge is allocated for a device.
abbrev with_bridge : Topology → ℕ → Device → Bridge → Topology
with_bridge t d device b = record {
  devices = set t.devices d (record device { bridge = some (length t.bridges) });
  bridges = t.bridges ++ b ∷ [];
  chain = t.chain ++ length t.bridges ∷ [];
}

with_bridge-IsGrowing :
    (n : ℕ) (t : Topology) (d : ℕ) (device : Device) (b : Bridge)
    → IsGrowing n t
    → d < length t.devices
    → HasHeader device
    → IsLeaf b
    → IsGrowing n (with_bridge t d device b)
with_bridge-IsGrowing n t d device b g inside h leaf =
    let longer = length-append t.bridges (b ∷ []) in
    let some_host = get_elem?-lt t.bridges 0 g.flat.hosted in
    record {
      flat = append-IsFlat t.bridges b g.flat leaf;
      headers = set_header t.devices d _ g.headers inside (HasHeader-bridge device _ h);
      count = length-set t.devices d _ ∙ g.count;
      rest = g.rest ++ length t.bridges ∷ [];
      chained = ap (λ x. x ++ length t.bridges ∷ []) g.chained;
      others =
          AllOther-append _ g.rest (length t.bridges)
            (AllOther-more _ _ g.rest (omega arith) g.others) some_host (omega arith);
    }

pub add_bridge_returns :
    (n : ℕ) (t : Topology) (d : ℕ)
    → IsGrowing n t
    → d < n
    → (t' : Topology) × (add_bridge t d ≡ ok t') × IsGrowing n t'
unfolding add_bridge
add_bridge_returns n t d g h =
    let inside : d < length t.devices = omega (arith, g.count) in
    let (device, e) = get_elem?-found t.devices d inside in
    let header = g.headers d device e in
    let (byte, r, _) = HasHeader-read device 14 header (omega arith) in
    let (primary, r1, l1) = HasHeader-read device 24 header (omega arith) in
    let (secondary, r2, l2) = HasHeader-read device 25 header (omega arith) in
    let (subordinate, r3, l3) = HasHeader-read device 26 header (omega arith) in
    elim (Bool-cases (is_bridge device.dev (bit_and byte 0x7f))) [
      | inr no_bridge ↦ (t, rw e (rw r (rw no_bridge refl)), g)
      | inl bridge ↦
          let b : Bridge = record {
            domain = device.dev.domain;
            primary = primary;
            secondary = secondary;
            subordinate = subordinate;
            child = [];
            buses = [];
            br_dev = some d;
          } in
          (
            with_bridge t d device b,
            rw e (rw r (rw bridge (rw r1 (rw r2 (rw r3 refl))))),
            with_bridge-IsGrowing n t d device b g inside header
                (record { childless = refl; primary_lt = l1; subordinate_lt = l3 }),
          )
    ]

-- The search for the parent of a bridge. For the host bridge it finds none; for any other it finds
-- the host bridge first, and nothing that is better.
AllOther-others : (n : ℕ) (cs : List ℕ) → AllOther n cs → AllOf (λ j. (0 < j) × (j < n)) cs
AllOther-others n [] a = tt
AllOther-others n (c ∷ cs) a = ((a.0, a.1), AllOther-others n cs a.2)

pub AllOther-lt : (n : ℕ) (cs : List ℕ) → AllOther n cs → AllOf (λ j. j < n) cs
AllOther-lt n [] a = tt
AllOther-lt n (c ∷ cs) a = (a.1, AllOther-lt n cs a.2)

module _ (bs : List Bridge) (v : IsFlat bs) where
  no_parent :
      (j : ℕ) (c : Bridge) (best : Option (ℕ × Bridge))
      → IsLeaf c
      → better 0 v.host (suc j) c best ≡ false
  unfolding better
  no_parent j c best leaf = ground (arith, v.is_host.primary_eq, leaf.subordinate_lt)

  host_is_parent : (k : ℕ) (b : Bridge) → IsLeaf b → better (suc k) b 0 v.host none ≡ true
  unfolding better
  host_is_parent k b leaf =
      ground (arith, v.is_host.secondary_eq, v.is_host.subordinate_eq, leaf.primary_lt)

  host_is_best : (i j : ℕ) (b c : Bridge) → better i b (suc j) c (some (0, v.host)) ≡ false
  unfolding better
  host_is_best i j b c = ground (arith, v.is_host.primary_eq, v.is_host.subordinate_eq)

  consider_host :
      (best : Option (ℕ × Bridge)) (j : ℕ)
      → best ≡ none
      → j < length bs
      → (best' : Option (ℕ × Bridge)) × (consider bs 0 v.host best j ≡ ok best') × (best' ≡ none)
  unfolding consider
  consider_host best zero e h = (none, rw v.hosted (rw e (unfold better in refl)), refl)
  consider_host best (suc j) e h =
      let (c, found) = get_elem?-found bs (suc j) h in
      (none, rw found (rw (no_parent j c best (v.leaves j c found)) (ap ok e)), refl)

  consider_leaf :
      (i : ℕ) (b : Bridge) (best : Option (ℕ × Bridge)) (j : ℕ)
      → best ≡ some (0, v.host)
      → (0 < j) × (j < length bs)
      → (best' : Option (ℕ × Bridge)) × (consider bs i b best j ≡ ok best')
        × (best' ≡ some (0, v.host))
  unfolding consider
  consider_leaf i b best zero e h = absurd (omega arith)
  consider_leaf i b best (suc j) e h =
      let (c, found) = get_elem?-found bs (suc j) h.1 in
      (some (0, v.host), rw found (rw e (rw (host_is_best i j b c) refl)), refl)

  first : (k : ℕ) (b : Bridge) → IsLeaf b → consider bs (suc k) b none 0 ≡ ok (some (0, v.host))
  unfolding consider
  first k b leaf = rw v.hosted (rw (host_is_parent k b leaf) refl)

  -- The whole search.
  pub search_host :
      (rest : List ℕ)
      → AllOther (length bs) rest
      → for_each (consider bs 0 v.host) none (0 ∷ rest) ≡ ok none
  search_host rest a =
      let (best, r, e) =
        for_each_returns (λ x. x ≡ none) (λ j. j < length bs) (consider bs 0 v.host) consider_host
          (0 ∷ rest) none refl (get_elem?-lt bs 0 v.hosted, AllOther-lt (length bs) rest a) in
      r ∙ ap ok e

  pub search_leaf :
      (k : ℕ) (b : Bridge) (rest : List ℕ)
      → IsLeaf b
      → AllOther (length bs) rest
      → for_each (consider bs (suc k) b) none (0 ∷ rest) ≡ ok (some (0, v.host))
  unfolding for_each
  search_leaf k b rest leaf a =
      let (best, r, e) =
        for_each_returns (λ x. x ≡ some (0, v.host)) (λ j. (0 < j) × (j < length bs))
          (consider bs (suc k) b) (consider_leaf (suc k) b) rest (some (0, v.host)) refl
          (AllOther-others (length bs) rest a) in
      rw (first k b leaf) (r ∙ ap ok e)
