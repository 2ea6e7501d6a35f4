-- ===== src/Show/Ends.antt =====
-- Showing a device comes to an end (adna.c: show_verbose and what it calls).
use adnacom_hotplug.Common.{
  bit_and, leb, ◌&&◌, if◌then◌else◌, ◌≡◌, ◌≢◌, refl, ℕ, suc, Bool, true, false, none, diverged, ok,
  ◌==◌, Outcome,
}
use adnacom_hotplug.Common.Text.{Text}
use adnacom_hotplug.Pci.{
  pci_header_type_normal, pci_header_type_cardbus, pci_subsystem_vendor_id, pci_subsystem_id,
  pci_cb_subsystem_vendor_id, pci_cb_subsystem_id,
}
use adnacom_hotplug.Platform.{Platform, ReadsBlocks}
use adnacom_hotplug.Config.{Device, get_subid, get_conf_words, get_conf_word, get_conf_byte}
use adnacom_hotplug.Machine.{Sys, skip, null_or}
use adnacom_hotplug.Machine.Invariants.{
  Halts, Keeps, then_do, Any, by_pure, by_gets, by_lift, by_when, by_null_or, IsSound, run_ends,
  keeps_device_at, keeps_store_cached, keeps_emit,
}
use adnacom_hotplug.Machine.Reads.{
  Halts-then, get_conf_byte-Halts, get_conf_word-Halts, keeps_conf_byte, keeps_conf_word,
}
use adnacom_hotplug.Caps.{say}
use adnacom_hotplug.Caps.Walk.{keeps_show_caps}
use adnacom_hotplug.Show.{
  Options, show_slot_path, show_slot_name, show_terse, enable_command, show_htype, show_verbose,
}
use adnacom_hotplug.Show.Cardbus.Ends.{ends_show_htype2}

false-true : {b : Bool} → b ≡ false → b ≡ true → ⊥
false-true e h = cc

get_conf_words-Halts : (d : Device) (v s : ℕ) → Halts Any (get_conf_words d v s)
unfolding get_conf_words
get_conf_words-Halts d v s =
    Halts-then _ (get_conf_word d v) _ (get_conf_word-Halts d v)
      λ a _. Halts-then _ (get_conf_word d s) _ (get_conf_word-Halts d s) λ b _. tt

Halts-if :
    {A : Type 0} (b : Bool) (r q : Outcome A)
    → Halts Any r
    → Halts Any q
    → Halts Any (if b then r else q)
Halts-if true r q h k = h
Halts-if false r q h k = k

get_subid-Halts : (d : Device) → Halts Any (get_subid d)
unfolding get_subid
get_subid-Halts d = Halts-then _ (get_conf_byte d 0x0e) _ (get_conf_byte-Halts d 0x0e) λ byte _.
    let cardbus = get_conf_words d pci_cb_subsystem_vendor_id pci_cb_subsystem_id in
    let unknown : Outcome (ℕ × ℕ) = ok (0xffff, 0xffff) in
    let is_cardbus = bit_and byte 0x7f == pci_header_type_cardbus && leb 128 d.config_cached in
    Halts-if (bit_and byte 0x7f == pci_header_type_normal)
      (get_conf_words d pci_subsystem_vendor_id pci_subsystem_id)
      (if is_cardbus then cardbus else unknown)
      (get_conf_words-Halts d pci_subsystem_vendor_id pci_subsystem_id)
      (Halts-if is_cardbus cardbus unknown
        (get_conf_words-Halts d pci_cb_subsystem_vendor_id pci_cb_subsystem_id) tt)

module _ {H : Type 0} (p : Platform H) (reads : ReadsBlocks p) (o : Options) where
  tells : (text : Text) → Keeps IsSound (say p (o.verbose) text) Any
  tells text = keeps_emit p _

  nothing : Keeps {H = H} IsSound skip Any
  nothing = by_pure tt tt

  -- Without the path of bridges there is no recursion.
  ends_path :
      (f d : ℕ) → (o.opt_path == 0) ≡ true → Keeps IsSound (show_slot_path p o (suc f) d) Any
  unfolding show_slot_path
  ends_path f d plain = then_do (keeps_device_at d) λ device _.
      then_do {Q = λ up. up ≡ none}
        (by_when _ (λ _. by_pure none refl) (λ e. absurd (false-true e plain)))
        λ up no_up. rw no_up (unfold null_or in tells _)

  ends_slot_name : (d : ℕ) → (o.opt_path == 0) ≡ true → Keeps IsSound (show_slot_name p o d) Any
  unfolding show_slot_name
  ends_slot_name d plain = then_do (keeps_device_at d) λ device _.
      then_do (by_gets _) λ opt_domains _. then_do (by_gets _) λ (depth : ℕ) _.
        then_do (by_when _ (λ _. tells _) (λ _. nothing)) λ _ _. ends_path depth d plain

  ends_show_terse : (d : ℕ) → (o.opt_path == 0) ≡ true → Keeps IsSound (show_terse p o d) Any
  unfolding show_terse
  ends_show_terse d plain = then_do (keeps_device_at d) λ device _.
      then_do (ends_slot_name d plain) λ _ _. then_do (tells _) λ _ _.
        then_do (keeps_conf_byte p d _) λ rev _.
          then_do (by_when _ (λ _. nothing) (λ _. tells _)) λ _ _.
            then_do
              (by_when _ (λ _. nothing)
                (λ _.
                  then_do (keeps_conf_byte p d _) λ c _. by_when _ (λ _. tells _) (λ _. nothing)))
              λ _ _. then_do (tells _) λ _ _.
                by_when _ (λ _. nothing)
                  (λ _. then_do (by_gets _) λ label _.
                    then_do (by_null_or label nothing λ text. tells _)
                      λ _ _. then_do (by_lift _ (get_subid-Halts device)) λ subsys _. nothing)

  ends_enable_command : (d : ℕ) → Keeps IsSound (enable_command p o d) Any
  unfolding enable_command
  ends_enable_command d = then_do (keeps_conf_word p d _) λ cmd _.
      then_do (keeps_device_at d) λ device _.
        by_when _ (λ _. then_do (keeps_store_cached d _ _) λ _ _. keeps_emit p _) (λ _. nothing)

  ends_show_htype : (htype d : ℕ) → Keeps IsSound (show_htype p o htype d) Any
  unfolding show_htype
  ends_show_htype htype d =
      by_when _ (λ _. ends_show_htype2 p reads (o.verbose) d)
        (λ _. keeps_show_caps p reads (o.verbose) d _)

  pub keeps_show_verbose :
      (d : ℕ) → (o.opt_path == 0) ≡ true → Keeps IsSound (show_verbose p o d) Any
  unfolding show_verbose
  keeps_show_verbose d plain = then_do (keeps_device_at d) λ device _.
      then_do (keeps_conf_byte p d _) λ byte _. then_do (ends_show_terse d plain) λ _ _.
        then_do (ends_enable_command d) λ _ _. by_null_or _ (tells _) λ fits.
          then_do (by_when _ (λ _. nothing) (λ _. tells _)) λ _ _.
            then_do
              (by_when _
                (λ _.
                  then_do (keeps_conf_byte p d _)
                    λ max_lat _. then_do (keeps_conf_byte p d _) λ min_gnt _. nothing)
                (λ _. nothing))
              λ _ _. then_do (by_gets _) λ slot _.
                then_do (by_null_or slot nothing λ text. tells _) λ _ _.
                  then_do (by_gets _) λ node _.
                    then_do (by_null_or node nothing λ text. tells _)
                      λ _ _. then_do (ends_show_htype _ d) λ _ _. tells _

  -- In a sound state, showing a device comes to an end where the path of bridges is not asked for,
  -- whatever its registers hold, and leaves a sound state, if the library reads blocks whole. A
  -- state is sound if every device has a well-formed cache with its standard header, no bridge but
  -- the host's has a child, and every listed device is in the heap.
  pub show_verbose_ends :
      (d : ℕ) (s : Sys H)
      → (o.opt_path == 0) ≡ true
      → IsSound s
      → ((show_verbose p o d s).0 ≢ diverged) × IsSound (show_verbose p o d s).1
  show_verbose_ends d s plain h = run_ends (keeps_show_verbose d plain) s h
