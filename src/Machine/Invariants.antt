-- ===== src/Machine/Invariants.antt =====
-- Rules for calls that keep an invariant of the state and do not run for ever: where a call
-- returns, its value has a property and the invariant holds, and it holds too where the call exits
-- or runs into undefined behaviour.
use adnacom_hotplug.Common.{
  AllOf, length-set, ◌≡◌, ◌≢◌, refl, sym, subst, ℕ, ◌+◌, ◌^◌, ◌<◌, ◌≤◌, Bool, true, false, Option,
  none, some, get_elem?, set, Outcome, ok, exited, fault, diverged, Option-cases, get_elem?-lt,
  length, inl, inr, List,
}
use adnacom_hotplug.Platform.{Platform, Effect, ReadsBlocks}
use adnacom_hotplug.Config.{Device, update_cached}
use adnacom_hotplug.Config.Fetch.{config_fetch-IsPresent}
use adnacom_hotplug.Topology.Flat.{IsFlat}
use adnacom_hotplug.Topology.Growth.{HasHeader, HasHeader-update_cached, set_header}
use adnacom_hotplug.Machine.{
  Sys, M, ◌>>=◌, continue_with, pure, lift, gets, modify, when◌then◌else◌, null_or, device_at,
  put_device, store_cached, emit, fetch,
}

-- An outcome that is not an endless loop, whose value has a property.
abbrev pub Halts {ℓ} : {A : Type ℓ} → (A → Type 0) → Outcome A → Type 0
Halts Q (ok a) = Q a
Halts Q (exited n) = Unit
Halts Q fault = Unit
Halts Q diverged = ⊥

abbrev pub Kept : {H A : Type 0} → (Sys H → Type 0) → (A → Type 0) → Outcome A × Sys H → Type 0
Kept I Q (r, s) = Halts Q r × I s

pub record Keeps {H A : Type 0} (I : Sys H → Type 0) (m : M H A) (Q : A → Type 0) : Type 0 where
  pub run : (s : Sys H) → I s → Kept I Q (m s)

module _ {H A B : Type 0} {I : Sys H → Type 0} {Q : A → Type 0} {R : B → Type 0} where
  after_call :
      (r : Outcome A × Sys H) (f : A → M H B)
      → ((a : A) → Q a → Keeps I (f a) R)
      → Kept I Q r
      → Kept I R (continue_with r f)
  after_call (ok a, s) f g h = (g a h.0).run s h.1
  after_call (exited n, s) f g h = h
  after_call (fault, s) f g h = h
  after_call (diverged, s) f g h = absurd h.0

  pub then_do :
      {m : M H A} {f : A → M H B}
      → Keeps I m Q
      → ((a : A) → Q a → Keeps I (f a) R)
      → Keeps I (m >>= f) R
  unfolding ◌>>=◌
  then_do {m} {f} t g = record { run = λ s h. after_call (m s) f g (t.run s h) }

Halts-ne_diverged : {A : Type 0} (Q : A → Type 0) (r : Outcome A) → Halts Q r → r ≢ diverged
Halts-ne_diverged Q (ok a) h e = cc
Halts-ne_diverged Q (exited n) h e = cc
Halts-ne_diverged Q fault h e = cc
Halts-ne_diverged Q diverged h e = h

-- What such a call does, as a statement on a run.
pub run_ends :
    {H A : Type 0} {I : Sys H → Type 0} {m : M H A} {Q : A → Type 0}
    → Keeps I m Q
    → (s : Sys H) → I s
    → ((m s).0 ≢ diverged) × I (m s).1
run_ends {m} {Q} k s h = (Halts-ne_diverged Q (m s).0 (k.run s h).0, (k.run s h).1)

abbrev pub Any : {A : Type 0} → A → Type 0
Any a = Unit

Halts-forget : {A : Type 0} (Q : A → Type 0) (r : Outcome A) → Halts Q r → Halts Any r
Halts-forget Q (ok a) h = tt
Halts-forget Q (exited n) h = tt
Halts-forget Q fault h = tt
Halts-forget Q diverged h = h

pub forget :
    {H A : Type 0} {I : Sys H → Type 0} {m : M H A} {Q : A → Type 0} → Keeps I m Q → Keeps I m Any
forget {m} {Q} k = record { run = λ s h. (Halts-forget Q (m s).0 (k.run s h).0, (k.run s h).1) }

module _ {H : Type 0} {I : Sys H → Type 0} where
  pub by_pure : {A : Type 0} {Q : A → Type 0} (a : A) → Q a → Keeps I (pure a) Q
  unfolding pure
  by_pure a q = record { run = λ s h. (q, h) }

  pub by_gets : {A : Type 0} (f : Sys H → A) → Keeps I (gets f) Any
  unfolding gets
  by_gets f = record { run = λ s h. (tt, h) }

  pub by_lift : {A : Type 0} {Q : A → Type 0} (r : Outcome A) → Halts Q r → Keeps I (lift r) Q
  unfolding lift
  by_lift r q = record { run = λ s h. (q, h) }

  pub by_modify : (f : Sys H → Sys H) → ((s : Sys H) → I s → I (f s)) → Keeps I (modify f) Any
  unfolding modify
  by_modify f keep = record { run = λ s h. (tt, keep s h) }

  pub by_when :
      {A : Type 0} {Q : A → Type 0} {m n : M H A} (b : Bool)
      → (b ≡ true → Keeps I m Q)
      → (b ≡ false → Keeps I n Q)
      → Keeps I (when b then m else n) Q
  unfolding when◌then◌else◌
  by_when true t u = t refl
  by_when false t u = u refl

  pub by_null_or :
      {A B : Type 0} {Q : A → Type 0} {m : M H A} {f : B → M H A} (x : Option B)
      → Keeps I m Q
      → ((b : B) → Keeps I (f b) Q)
      → Keeps I (null_or x m f) Q
  unfolding null_or
  by_null_or none t u = t
  by_null_or (some b) t u = u b

-- Every device of the heap has a well-formed cache with its standard header, the tree of bridges
-- is flat, and every listed device is in the heap.
pub record IsSound {H : Type 0} (s : Sys H) : Type 0 where
  pub headers : (i : ℕ) (d : Device) → get_elem? s.topology.devices i ≡ some d → HasHeader d
  pub flat : IsFlat s.topology.bridges
  pub listed : AllOf (λ d. d < length s.topology.devices) s.first_dev

-- A state with the same heap and list.
pub IsSound-same :
    {H : Type 0} (s s' : Sys H)
    → s'.topology ≡ s.topology
    → s'.first_dev ≡ s.first_dev
    → IsSound s
    → IsSound s'
IsSound-same s s' e e' h = record {
  headers = rw e h.headers;
  flat = rw e h.flat;
  listed = rw e (rw e' h.listed);
}

-- A device is written.
pub put-IsSound :
    {H : Type 0} (s : Sys H) (d : ℕ) (device : Device)
    → IsSound s
    → d < length s.topology.devices
    → HasHeader device
    → IsSound
        (record s { topology = record (s.topology) { devices = set s.topology.devices d device } })
put-IsSound s d device h inside header = record {
  headers = set_header s.topology.devices d device h.headers inside header;
  flat = h.flat;
  listed =
      subst (λ n. AllOf (λ k. k < n) s.first_dev) (sym (length-set s.topology.devices d device))
        h.listed;
}

module _ {H : Type 0} where
  pub keeps_device_at : (d : ℕ) → Keeps {H = H} IsSound (device_at d) HasHeader
  unfolding device_at ◌>>=◌ gets lift
  keeps_device_at d = record {
    run = λ s h. elim (Option-cases (get_elem? s.topology.devices d)) [
      | inl e ↦ rw e (tt, h)
      | inr (device, e) ↦ rw e (h.headers d device e, h)
    ];
  }

  -- The library stores into its cache of a device.
  pub keeps_store_cached :
      (d pos : ℕ) (bytes : List ℕ) → Keeps {H = H} IsSound (store_cached d pos bytes) Any
  unfolding store_cached device_at put_device ◌>>=◌ gets lift modify
  keeps_store_cached d pos bytes = record {
    run = λ s h. elim (Option-cases (get_elem? s.topology.devices d)) [
      | inl e ↦ rw e (tt, h)
      | inr (device, e) ↦ rw e (
        tt,
        put-IsSound s d (update_cached device pos bytes) h (get_elem?-lt s.topology.devices d e)
            (HasHeader-update_cached device pos bytes (h.headers d device e)),
      )
    ];
  }

  module _ (p : Platform H) where
    pub keeps_emit : (e : Effect) → Keeps IsSound (emit p e) Any
    unfolding emit
    keeps_emit e = by_modify _ λ s h. IsSound-same s _ refl refl h

    -- `config_fetch` within the first 2 ^ 31 bytes.
    pub keeps_fetch :
        ReadsBlocks p → (d pos len : ℕ) → pos + len ≤ 2 ^ 31 → Keeps IsSound (fetch p d pos len) Any
    unfolding fetch device_at put_device ◌>>=◌ gets lift modify pure
    keeps_fetch reads d pos len small = record {
      run = λ s h. elim (Option-cases (get_elem? s.topology.devices d)) [
        | inl e ↦ rw e (tt, h)
        | inr (device, e) ↦
            let (result, device', r, v, x, y) =
              config_fetch-IsPresent p reads s.hw device pos len (h.headers d device e).cache
                small in
            let header = h.headers d device e in
            rw e (
              rw r (
                tt,
                put-IsSound s d device' h (get_elem?-lt s.topology.devices d e)
                    (record { cache = v; header = λ k lo hi. x.kept k (header.header k lo hi) }),
              ))
      ];
    }
