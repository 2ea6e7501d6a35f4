-- ===== src/Topology/Parents.antt =====
-- The loops of grow_tree that make the tree and give each bridge its bus (ls-tree.c).
use adnacom_hotplug.Common.{
  ◌≡◌, refl, sym, ◌∙◌, subst, inl, inr, ℕ, zero, suc, ◌<◌, none, some, List, ◌∷◌, length, get_elem?,
  set, ok, arith, Option-cases, length-set, get_elem?-lt,
}
use adnacom_hotplug.Topology.{
  Bus, Bridge, Topology, for_each, consider, adopt, add_secondary, new_bus, find_bus,
}
use adnacom_hotplug.Topology.Flat.{IsHost, IsFlat, set_host-IsFlat, set_leaf-IsFlat}
use adnacom_hotplug.Topology.Growth.{get_elem?-found, IsGrowing, search_host, search_leaf}

-- The bridges are written.
with_bridges-IsGrowing :
    (n : ℕ) (t : Topology) (bs : List Bridge)
    → IsGrowing n t
    → IsFlat bs
    → length bs ≡ length t.bridges
    → IsGrowing n (record t { bridges = bs })
with_bridges-IsGrowing n t bs g v e = record {
  flat = v;
  headers = g.headers;
  count = g.count;
  rest = g.rest;
  chained = g.chained;
  others = rw e g.others;
}

-- The buses of a bridge are written.
pub set_buses-IsFlat :
    (bs : List Bridge) (i : ℕ) (b : Bridge) (buses : List Bus)
    → IsFlat bs
    → get_elem? bs i ≡ some b
    → IsFlat (set bs i (record b { buses = buses }))
set_buses-IsFlat bs zero b buses v e =
    let e' : some v.host ≡ some b = sym v.hosted ∙ e in
    let same : v.host ≡ b = cc in
    let h : IsHost (length bs) b = subst (IsHost (length bs)) same v.is_host in
    set_host-IsFlat bs _ v (record {
      primary_eq = h.primary_eq;
      secondary_eq = h.secondary_eq;
      subordinate_eq = h.subordinate_eq;
      children = h.children;
    })
set_buses-IsFlat bs (suc i) b buses v e =
    let leaf = v.leaves i b e in
    set_leaf-IsFlat bs i _ v (get_elem?-lt bs (suc i) e) (record {
      childless = leaf.childless;
      primary_lt = leaf.primary_lt;
      subordinate_lt = leaf.subordinate_lt;
    })

-- The state of a loop over `m` bridges.
abbrev pub Linking : ℕ → ℕ → Topology → Type 0
Linking n m t = IsGrowing n t × (length t.bridges ≡ m)

pub adopt_returns :
    (n m : ℕ) (t : Topology) (i : ℕ)
    → Linking n m t
    → i < m
    → (t' : Topology) × (adopt t i ≡ ok t') × Linking n m t'
unfolding adopt
adopt_returns n m t zero (g, e) h =
    let none_found : for_each (consider t.bridges 0 g.flat.host) none t.chain ≡ ok none =
      rw g.chained (search_host t.bridges g.flat g.rest g.others) in
    (t, rw g.flat.hosted (rw none_found refl), (g, e))
adopt_returns n m t (suc k) (g, e) h =
    let (b, found) = get_elem?-found t.bridges (suc k) (omega arith) in
    let leaf = g.flat.leaves k b found in
    let host = g.flat.host in
    let v = g.flat.is_host in
    let host_found : for_each (consider t.bridges (suc k) b) none t.chain ≡ ok (some (0, host)) =
      rw g.chained (search_leaf t.bridges g.flat k b g.rest leaf g.others) in
    let bs = set t.bridges 0 (record host { child = suc k ∷ host.child }) in
    let longer = length-set t.bridges 0 (record host { child = suc k ∷ host.child }) in
    let flat =
      set_host-IsFlat t.bridges (record host { child = suc k ∷ host.child }) g.flat
        (record {
          primary_eq = v.primary_eq;
          secondary_eq = v.secondary_eq;
          subordinate_eq = v.subordinate_eq;
          children = (omega arith, omega arith, v.children);
        }) in
    (
      record t { bridges = bs },
      rw found (rw host_found refl),
      (with_bridges-IsGrowing n t bs g flat longer, longer ∙ e),
    )

pub add_secondary_returns :
    (n m : ℕ) (t : Topology) (i : ℕ)
    → Linking n m t
    → i < m
    → (t' : Topology) × (add_secondary t i ≡ ok t') × Linking n m t'
unfolding add_secondary
add_secondary_returns n m t i (g, e) h =
    let (b, found) = get_elem?-found t.bridges i (omega arith) in
    let buses = new_bus b.buses b.domain b.secondary in
    let longer = length-set t.bridges i (record b { buses = buses }) in
    elim (Option-cases (find_bus b.buses b.domain b.secondary)) [
      | inr (bus, known) ↦ (t, rw found (rw known refl), (g, e))
      | inl unknown ↦ (
        record t { bridges = set t.bridges i (record b { buses = buses }) },
        rw found (rw unknown refl),
        (
          with_bridges-IsGrowing n t _ g (set_buses-IsFlat t.bridges i b buses g.flat found) longer,
          longer ∙ e,
        ),
      )
    ]
