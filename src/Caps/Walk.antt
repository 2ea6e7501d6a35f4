-- ===== src/Caps/Walk.antt =====
-- The walks through the capability lists end (ls-caps.c: show_caps; ls-ecaps.c: show_ext_caps).
use adnacom_hotplug.Common.{
  ◌≡◌, ◌≢◌, diverged, refl, ◌∙◌, ℕ, zero, suc, ◌+◌, ◌/◌, ◌^◌, ◌<◌, ◌≤◌, Bool, false, not, Option,
  none, some, List, [], ◌∷◌, get_elem?, set, replicate, ◌==◌, ok, fault, bit_and, arith,
}
use adnacom_hotplug.Common.Text.{Text}
use adnacom_hotplug.Platform.{Platform, ReadsBlocks}
use adnacom_hotplug.Machine.{Sys, skip}
use adnacom_hotplug.Machine.Invariants.{
  Halts, Keeps, then_do, Any, by_pure, by_lift, by_modify, by_when, by_null_or, IsSound,
  IsSound-same, run_ends, keeps_device_at, keeps_emit, keeps_fetch,
}
use adnacom_hotplug.Machine.Reads.{keeps_conf_byte, keeps_conf_word, keeps_conf_long}
use adnacom_hotplug.Caps.{
  say, aspm_texts, aspm_enabled, adna_set_d3_flag, has_slot, express_size, cap_pm, cap_express_link,
  cap_express_slot, cap_express, show_cap, mark_visit, walk_caps, cap_dsn, walk_ext_caps,
  show_ext_caps, show_caps, align4, latest,
}

-- The places that were not visited yet.
unvisited : List ℕ → ℕ
unvisited [] = 0
unvisited (zero ∷ xs) = suc (unvisited xs)
unvisited (suc v ∷ xs) = unvisited xs

unvisited-replicate : (n : ℕ) → unvisited (replicate n 0) ≡ n
unfolding unvisited
unvisited-replicate zero = refl
unvisited-replicate (suc n) = omega (arith, unvisited-replicate n)

-- A first visit leaves one place less.
unvisited-set :
    (xs : List ℕ) (pos : ℕ)
    → get_elem? xs pos ≡ some 0
    → unvisited (set xs pos 1) + 1 ≡ unvisited xs
unfolding unvisited
unvisited-set [] pos h = cc
unvisited-set (zero ∷ xs) zero h = omega arith
unvisited-set (suc v ∷ xs) zero h = ground arith
unvisited-set (zero ∷ xs) (suc pos) h = omega (arith, unvisited-set xs pos h)
unvisited-set (suc v ∷ xs) (suc pos) h = unvisited-set xs pos h

abbrev Fewer : List ℕ → ℕ × List ℕ → Type 0
Fewer xs visit = visit.0 ≡ 0 → unvisited visit.1 + 1 ≡ unvisited xs

mark_visit-Halts : (xs : List ℕ) (pos : ℕ) → Halts (Fewer xs) (mark_visit xs pos)
unfolding mark_visit
mark_visit-Halts xs pos = marked (get_elem? xs pos) refl
  where
    marked :
        (x : Option ℕ)
        → get_elem? xs pos ≡ x
        → Halts (Fewer xs) (elim x [ none ↦ fault | some v ↦ ok (v, set xs pos (v + 1)) ])
    marked none e = tt
    marked (some v) e = λ z. rw z (unvisited-set xs pos (e ∙ (rw z refl)))

left_over :
    (f : ℕ) (xs : List ℕ) (visit : ℕ × List ℕ)
    → Fewer xs visit
    → not (visit.0 == 0) ≡ false
    → unvisited xs < suc f
    → unvisited visit.1 < f
left_over f xs visit fewer first enough = omega (arith, fewer (ground arith))

aspm_enabled-Halts : (code : ℕ) → Halts Any (aspm_enabled code)
unfolding aspm_enabled
aspm_enabled-Halts code = named (get_elem? aspm_texts code)
  where
    named : (x : Option Text) → Halts Any (elim x [ none ↦ fault | some text ↦ ok text ])
    named none = tt
    named (some text) = tt

module _ {H : Type 0} (p : Platform H) (reads : ReadsBlocks p) (verbose : ℕ) where
  says : (text : Text) → Keeps IsSound (say p verbose text) Any
  says text = keeps_emit p _

  flags_d3 : (n : ℕ) → Keeps {H = H} IsSound (adna_set_d3_flag n) Any
  unfolding adna_set_d3_flag
  flags_d3 n = by_modify _ λ s h. IsSound-same s _ refl refl h

  pass : Keeps {H = H} IsSound skip Any
  pass = by_pure tt tt

  keeps_cap_pm : (d pos : ℕ) → Keeps IsSound (cap_pm p verbose d pos) Any
  unfolding cap_pm
  keeps_cap_pm d pos = then_do (keeps_conf_word p d _) λ t _.
      then_do (says _)
        λ _ _. then_do (keeps_device_at d) λ device _. by_when _ (λ _. flags_d3 _) (λ _. pass)

  keeps_cap_express_link : (d pos : ℕ) → Keeps IsSound (cap_express_link p verbose d pos) Any
  unfolding cap_express_link
  keeps_cap_express_link d pos = then_do (keeps_conf_long p d _) λ t _.
      then_do (keeps_conf_word p d _) λ lnkctl _.
        then_do (by_lift _ (aspm_enabled-Halts _)) λ aspm _.
          then_do (says _)
            λ _ _. then_do (keeps_conf_word p d _) λ w _. then_do (says _) λ _ _. says _

  keeps_cap_express_slot : (d pos : ℕ) → Keeps IsSound (cap_express_slot p verbose d pos) Any
  unfolding cap_express_slot
  keeps_cap_express_slot d pos = then_do (keeps_conf_long p d _) λ t _. then_do (says _) λ _ _.
      then_do (keeps_conf_word p d _) λ sltctl _. then_do (keeps_conf_word p d _) λ sltsta _. pass

  express_size_le : (type : ℕ) (slot : Bool) → express_size type slot ≤ 32
  express_size_le type slot = ground arith

  keeps_cap_express :
      (d pos cap : ℕ) → pos < 0x1000 → Keeps IsSound (cap_express p verbose d pos cap) Any
  unfolding cap_express
  keeps_cap_express d pos cap small = then_do (says _) λ _ _. then_do (says _) λ _ _.
      then_do (says _) λ _ _.
        then_do
          (by_when _ (λ _. pass)
            (λ _.
              then_do
                (keeps_fetch p reads d _ _ (
                  omega (
                    arith,
                    express_size_le (bit_and cap 0xf0 / 2 ^ 4)
                        (has_slot (bit_and cap 0xf0 / 2 ^ 4) cap),
                  )))
                λ fetched _.
                  by_when _ (λ _. pass)
                    (λ _.
                      then_do (by_when _ (λ _. keeps_cap_express_link d pos) (λ _. pass))
                        λ _ _. by_when _ (λ _. keeps_cap_express_slot d pos) (λ _. pass))))
          λ _ _. by_pure _ tt

  keeps_show_cap :
      (d pos id cap : ℕ) → pos < 0x1000 → Keeps IsSound (show_cap p verbose d pos id cap) Any
  unfolding show_cap
  keeps_show_cap d pos id cap small =
      by_when _ (λ _. then_do (says _) λ _ _. by_pure _ tt)
        (λ _.
          by_when _ (λ _. then_do (keeps_cap_pm d pos) λ _ _. by_pure _ tt)
            (λ _.
              by_when _ (λ _. then_do (keeps_cap_express d pos cap small) λ type _. by_pure _ tt)
                (λ _. by_pure _ tt)))

  keeps_walk_caps :
      (f d pos : ℕ) (been_there : List ℕ) (type : Option ℕ)
      → unvisited been_there < f
      → pos < 0x100
      → Keeps IsSound (walk_caps p verbose f d pos been_there type) Any
  unfolding walk_caps
  keeps_walk_caps zero d pos been_there type enough small = absurd (omega arith)
  keeps_walk_caps (suc f) d pos been_there type enough small =
      by_when _ (λ _. by_pure _ tt)
        (λ _. then_do (keeps_fetch p reads d _ _ (omega arith)) λ fetched _.
          by_when _ (λ _. then_do (says _) λ _ _. by_pure _ tt)
            (λ _. then_do (keeps_conf_byte p d _) λ id _.
              then_do (keeps_conf_byte p d _) λ next byte. then_do (keeps_conf_word p d _) λ cap _.
                then_do (by_lift _ (mark_visit-Halts been_there pos)) λ visit fewer.
                  by_when _ (λ _. then_do (says _) λ _ _. by_pure _ tt)
                    (λ first.
                      by_when _ (λ _. then_do (says _) λ _ _. by_pure _ tt)
                        (λ _. then_do (keeps_show_cap d pos id cap (omega arith)) λ express _.
                          keeps_walk_caps f d (align4 next) (visit.1) (latest express type)
                            (left_over f been_there visit fewer first enough) (omega arith)))))

  keeps_cap_dsn : (d pos : ℕ) → pos < 0x1000 → Keeps IsSound (cap_dsn p verbose d pos) Any
  unfolding cap_dsn
  keeps_cap_dsn d pos small = then_do (keeps_fetch p reads d _ _ (omega arith)) λ fetched _.
      by_when _ (λ _. pass)
        (λ _.
          then_do (keeps_conf_long p d _) λ t1 _. then_do (keeps_conf_long p d _) λ t2 _. says _)

  keeps_walk_ext_caps :
      (f d pos : ℕ) (been_there : List ℕ)
      → unvisited been_there < f
      → pos < 0x1000
      → Keeps IsSound (walk_ext_caps p verbose f d pos been_there) Any
  unfolding walk_ext_caps
  keeps_walk_ext_caps zero d pos been_there enough small = absurd (omega arith)
  keeps_walk_ext_caps (suc f) d pos been_there enough small =
      then_do (keeps_fetch p reads d _ _ (omega arith)) λ fetched _.
        by_when _ (λ _. pass)
          (λ _. then_do (keeps_conf_long p d _) λ header long.
            by_when _ (λ _. pass)
              (λ _. then_do (by_lift _ (mark_visit-Halts been_there pos)) λ visit fewer.
                by_when _ (λ _. says _)
                  (λ first.
                    then_do
                      (by_when _ (λ _. says _)
                        (λ _. by_when _ (λ _. keeps_cap_dsn d pos small) (λ _. pass)))
                      λ _ _.
                        by_when _ (λ _. pass)
                          (λ _.
                            keeps_walk_ext_caps f d (align4 (header / 2 ^ 20)) (visit.1)
                              (left_over f been_there visit fewer first enough) (omega arith)))))

  keeps_show_ext_caps : (d : ℕ) → Keeps IsSound (show_ext_caps p verbose d) Any
  unfolding show_ext_caps
  keeps_show_ext_caps d =
      keeps_walk_ext_caps 0x1001 d 0x100 (replicate 0x1000 0)
        (omega (arith, unvisited-replicate 0x1000)) (omega arith)

  pub keeps_show_caps : (d pos : ℕ) → Keeps IsSound (show_caps p verbose d pos) Any
  unfolding show_caps
  keeps_show_caps d pos = then_do (keeps_conf_word p d _) λ status _.
      then_do
        (by_when _ (λ _. by_pure _ tt)
          (λ _. then_do (keeps_conf_byte p d _) λ first byte.
            keeps_walk_caps 0x101 d (align4 first) (replicate 0x100 0) none
              (omega (arith, unvisited-replicate 0x100)) (omega arith)))
        λ type _. by_null_or type pass (λ t. keeps_show_ext_caps d)

  -- In a sound state, showing the capabilities of a device comes to an end, whatever the registers
  -- hold, and leaves a sound state: a list that loops is noticed within the fuel of both walks. It
  -- is assumed that the library reads blocks whole.
  pub show_caps_ends :
      (d pos : ℕ) (s : Sys H)
      → IsSound s
      → ((show_caps p verbose d pos s).0 ≢ diverged) × IsSound (show_caps p verbose d pos s).1
  show_caps_ends d pos s h = run_ends (keeps_show_caps d pos) s h
