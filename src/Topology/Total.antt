-- ===== src/Topology/Total.antt =====
-- grow_tree as a whole (ls-tree.c).
use adnacom_hotplug.Common.{
  AllOf, ◌≡◌, refl, subst, ℕ, ◌<◌, some, List, [], ◌∷◌, length, get_elem?, ok, get_elem?-lt,
}
use adnacom_hotplug.Config.{Device}
use adnacom_hotplug.Topology.{Topology, add_bridge, adopt, add_secondary, insert_at_host, grow_tree}
use adnacom_hotplug.Topology.Flat.{IsFlat}
use adnacom_hotplug.Topology.Growth.{
  for_each_returns, HasHeader, IsGrowing, add_bridge_returns, AllOther-lt,
}
use adnacom_hotplug.Topology.Parents.{Linking, adopt_returns, add_secondary_returns}
use adnacom_hotplug.Topology.Insertion.{insert_at_host_returns}

-- The chain names bridges only.
chain_below : (n m : ℕ) (t : Topology) → Linking n m t → AllOf (λ i. i < m) t.chain
chain_below n m t (g, e) = rw g.chained (
    subst (λ k. AllOf (λ i. i < k) (0 ∷ g.rest)) e
      (get_elem?-lt t.bridges 0 g.flat.hosted, AllOther-lt (length t.bridges) g.rest g.others))

-- In a flat tree, with every listed device in the heap and the standard header of every device
-- readable, grow_tree returns (no pointer is NULL where it is used, and the recursion of insert_dev
-- ends), the tree is flat again, and the heap holds as many devices as before, each with its header
-- readable. A tree is flat if
-- the first bridge is the host with its children among the other bridges, and no other bridge has
-- a child.
pub grow_tree-IsFlat :
    (t : Topology) (first_dev : List ℕ)
    → IsFlat t.bridges
    → ((i : ℕ) (d : Device) → get_elem? t.devices i ≡ some d → HasHeader d)
    → AllOf (λ d. d < length t.devices) first_dev
    → (t' : Topology) × (grow_tree first_dev t ≡ ok t')
      × IsFlat t'.bridges
      × (length t'.devices ≡ length t.devices)
      × ((i : ℕ) (d : Device) → get_elem? t'.devices i ≡ some d → HasHeader d)
unfolding grow_tree
grow_tree-IsFlat t first_dev flat headers listed =
    let n = length t.devices in
    let fresh : IsGrowing n (record t { chain = 0 ∷ [] }) = record {
      flat = flat;
      headers = headers;
      count = refl;
      rest = [];
      chained = refl;
      others = tt;
    } in
    let (t1, r1, g1) =
      for_each_returns (IsGrowing n) (λ d. d < n) add_bridge (add_bridge_returns n) first_dev
        (record t { chain = 0 ∷ [] }) fresh listed in
    let m = length t1.bridges in
    let (t2, r2, g2) =
      for_each_returns (Linking n m) (λ i. i < m) adopt (adopt_returns n m) t1.chain t1 (g1, refl)
        (chain_below n m t1 (g1, refl)) in
    let (t3, r3, g3) =
      for_each_returns (Linking n m) (λ i. i < m) add_secondary (add_secondary_returns n m) t2.chain
        t2 g2 (chain_below n m t2 g2) in
    let (t4, r4, g4) =
      for_each_returns (Linking n m) (λ d. d < n) insert_at_host (insert_at_host_returns n m)
        first_dev t3 g3 listed in
    (t4, rw r1 (rw r2 (rw r3 r4)), g4.0.flat, g4.0.count, g4.0.headers)
