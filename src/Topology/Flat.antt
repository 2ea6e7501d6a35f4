-- ===== src/Topology/Flat.antt =====
-- The tree that grow_tree makes (ls-tree.c): each bridge hangs on host_bridge itself.
use adnacom_hotplug.Common.{
  ◌≡◌, refl, sym, ◌∙◌, subst, ℕ, suc, ◌<◌, ◌≤◌, some, List, [], ◌∷◌, ◌++◌, length, get_elem?, set,
  arith, ℕ_discrete, length-set, length-append, get_elem?-set_self, get_elem?-set_ne, get_elem?-lt,
  get_elem?-append_left, get_elem?-append_length,
}
use adnacom_hotplug.Topology.{Bridge, minus_one, host_bridge}

-- Places of bridges other than the host's, below a bound.
abbrev pub AllOther : ℕ → List ℕ → Type 0
AllOther n [] = Unit
AllOther n (c ∷ cs) = (0 < c) × (c < n) × AllOther n cs

pub AllOther-more : (m n : ℕ) (cs : List ℕ) → m ≤ n → AllOther m cs → AllOther n cs
AllOther-more m n [] h a = tt
AllOther-more m n (c ∷ cs) h a = (a.0, omega arith, AllOther-more m n cs h a.2)

pub AllOther-append :
    (n : ℕ) (cs : List ℕ) (c : ℕ) → AllOther n cs → 0 < c → c < n → AllOther n (cs ++ c ∷ [])
AllOther-append n [] c a p q = (p, q, tt)
AllOther-append n (d ∷ cs) c a p q = (a.0, a.1, AllOther-append n cs c a.2 p q)

-- A bridge with no bridge below it, whose bus numbers are bytes.
pub record IsLeaf (b : Bridge) : Type 0 where
  pub childless : b.child ≡ []
  pub primary_lt : b.primary < 256
  pub subordinate_lt : b.subordinate < 256

-- The bus range of the host bridge, and its children among the other bridges.
pub record IsHost (n : ℕ) (b : Bridge) : Type 0 where
  pub primary_eq : b.primary ≡ minus_one
  pub secondary_eq : b.secondary ≡ 0
  pub subordinate_eq : b.subordinate ≡ minus_one
  pub children : AllOther n b.child

-- The host bridge stands first, and every other bridge is a leaf.
pub record IsFlat (bs : List Bridge) : Type 0 where
  pub host : Bridge
  pub hosted : get_elem? bs 0 ≡ some host
  pub is_host : IsHost (length bs) host
  pub leaves : (i : ℕ) (b : Bridge) → get_elem? bs (suc i) ≡ some b → IsLeaf b

IsHost-more : (m n : ℕ) (b : Bridge) → m ≤ n → IsHost m b → IsHost n b
IsHost-more m n b h v = record {
  primary_eq = v.primary_eq;
  secondary_eq = v.secondary_eq;
  subordinate_eq = v.subordinate_eq;
  children = AllOther-more m n b.child h v.children;
}

pub start-IsFlat : IsFlat (host_bridge ∷ [])
start-IsFlat = record {
  host = host_bridge;
  hosted = refl;
  is_host = record { primary_eq = refl; secondary_eq = refl; subordinate_eq = refl; children = tt };
  leaves = λ i b e. cc;
}

-- The host bridge is written.
pub set_host-IsFlat :
    (bs : List Bridge) (b : Bridge) → IsFlat bs → IsHost (length bs) b → IsFlat (set bs 0 b)
set_host-IsFlat bs b v h = record {
  host = b;
  hosted = get_elem?-set_self bs 0 b (get_elem?-lt bs 0 v.hosted);
  is_host = rw (length-set bs 0 b) h;
  leaves = λ i c e. v.leaves i c (sym (get_elem?-set_ne bs 0 (suc i) b (omega arith)) ∙ e);
}

-- Another bridge is written.
pub set_leaf-IsFlat :
    (bs : List Bridge) (i : ℕ) (b : Bridge)
    → IsFlat bs
    → suc i < length bs
    → IsLeaf b
    → IsFlat (set bs (suc i) b)
set_leaf-IsFlat bs i b v inside leaf = record {
  host = v.host;
  hosted = get_elem?-set_ne bs (suc i) 0 b (omega arith) ∙ v.hosted;
  is_host = rw (length-set bs (suc i) b) v.is_host;
  leaves = λ k c e. elim (ℕ_discrete i k) [
    | yes same ↦
        let written : get_elem? (set bs (suc i) b) (suc k) ≡ some b =
          rw (sym same) (get_elem?-set_self bs (suc i) b inside) in
        let e' : some b ≡ some c = sym written ∙ e in
        let b_is_c : b ≡ c = cc in subst IsLeaf b_is_c leaf
    | no other ↦ v.leaves k c (sym (get_elem?-set_ne bs (suc i) (suc k) b (omega arith)) ∙ e)
  ];
}

-- A bridge is allocated.
pub append-IsFlat : (bs : List Bridge) (b : Bridge) → IsFlat bs → IsLeaf b → IsFlat (bs ++ b ∷ [])
append-IsFlat bs b v leaf = record {
  host = v.host;
  hosted = get_elem?-append_left bs (b ∷ []) 0 (get_elem?-lt bs 0 v.hosted) ∙ v.hosted;
  is_host = IsHost-more _ _ v.host (omega (arith, length-append bs (b ∷ []))) v.is_host;
  leaves = λ i c e. elim (ℕ_discrete (suc i) (length bs)) [
    | yes last ↦
        let allocated : get_elem? (bs ++ b ∷ []) (suc i) ≡ some b =
          rw last (get_elem?-append_length bs b []) in
        let e' : some b ≡ some c = sym allocated ∙ e in
        let b_is_c : b ≡ c = cc in subst IsLeaf b_is_c leaf
    | no other ↦
        let inside : suc i < length (bs ++ b ∷ []) = get_elem?-lt (bs ++ b ∷ []) (suc i) e in
        let below : suc i < length bs = omega (arith, length-append bs (b ∷ [])) in
        v.leaves i c (sym (get_elem?-append_left bs (b ∷ []) (suc i) below) ∙ e)
  ];
}
