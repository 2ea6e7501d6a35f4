-- ===== src/Caps/Plain.antt =====
-- Showing capabilities has plain effects only.
use adnacom_hotplug.Common.{ℕ, zero, suc, Option, none, List, ◌/◌, ◌^◌, replicate}
use adnacom_hotplug.Common.Text.{Text}
use adnacom_hotplug.Platform.{Platform}
use adnacom_hotplug.Machine.{skip, modify, conf_word, conf_long}
use adnacom_hotplug.Machine.Rules.{
  Log, Triple, bind, keep_pure, keep_if, keep_null_or, keep_lift, keep_device_at, keep_fetch,
  keep_conf_byte, keep_conf_word, keep_conf_long, emit-Triple, IsPlain,
}
use adnacom_hotplug.Caps.{
  say, adna_set_d3_flag, cap_pm, cap_express_link, cap_express_slot, cap_express, show_cap,
  walk_caps, cap_dsn, walk_ext_caps, show_ext_caps, show_caps, align4, latest,
}

module _ {H : Type 0} (p : Platform H) (verbose : ℕ) {E P : Log} (plain : IsPlain E P) where
  pub keep_say : (text : Text) → Triple E P (say p verbose text) P
  keep_say text = emit-Triple plain.early p _ (plain.on_print text)

  keep_d3 : (n : ℕ) → Triple {H = H} E P (adna_set_d3_flag n) P
  unfolding adna_set_d3_flag modify
  keep_d3 n = record { run = λ s h. h }

  word : (d pos : ℕ) → Triple E P (conf_word p d pos) P
  word = keep_conf_word plain.early p

  long : (d pos : ℕ) → Triple E P (conf_long p d pos) P
  long = keep_conf_long plain.early p

  pass : Triple {H = H} E P skip P
  pass = keep_pure P tt

  keep_cap_pm : (d pos : ℕ) → Triple E P (cap_pm p verbose d pos) P
  unfolding cap_pm
  keep_cap_pm d pos = bind (word d _) λ t.
      bind (keep_say _)
        λ _. bind (keep_device_at plain.early d) λ device. keep_if _ (keep_d3 _) pass

  keep_cap_express_link : (d pos : ℕ) → Triple E P (cap_express_link p verbose d pos) P
  unfolding cap_express_link
  keep_cap_express_link d pos = bind (long d _) λ t. bind (word d _) λ lnkctl.
      bind (keep_lift plain.early _)
        λ aspm. bind (keep_say _) λ _. bind (word d _) λ w. bind (keep_say _) λ _. keep_say _

  keep_cap_express_slot : (d pos : ℕ) → Triple E P (cap_express_slot p verbose d pos) P
  unfolding cap_express_slot
  keep_cap_express_slot d pos =
      bind (long d _)
        λ t. bind (keep_say _) λ _. bind (word d _) λ sltctl. bind (word d _) λ sltsta. pass

  keep_cap_express : (d pos cap : ℕ) → Triple E P (cap_express p verbose d pos cap) P
  unfolding cap_express
  keep_cap_express d pos cap = bind (keep_say _) λ _. bind (keep_say _) λ _. bind (keep_say _) λ _.
      bind
        (keep_if _ pass (
          bind (keep_fetch plain.early p d _ _) λ fetched. keep_if _ pass (
            bind (keep_if _ (keep_cap_express_link d pos) pass)
              λ _. keep_if _ (keep_cap_express_slot d pos) pass)))
        λ _. keep_pure P _

  keep_show_cap : (d pos id cap : ℕ) → Triple E P (show_cap p verbose d pos id cap) P
  unfolding show_cap
  keep_show_cap d pos id cap = keep_if _ (bind (keep_say _) λ _. keep_pure P _) (
      keep_if _ (bind (keep_cap_pm d pos) λ _. keep_pure P _)
        (keep_if _ (bind (keep_cap_express d pos cap) λ type. keep_pure P _) (keep_pure P _)))

  keep_walk_caps :
      (f d pos : ℕ) (been_there : List ℕ) (type : Option ℕ)
      → Triple E P (walk_caps p verbose f d pos been_there type) P
  unfolding walk_caps
  keep_walk_caps zero d pos been_there type = keep_lift plain.early _
  keep_walk_caps (suc f) d pos been_there type = keep_if _ (keep_pure P _) (
      bind (keep_fetch plain.early p d _ _) λ fetched.
        keep_if _ (bind (keep_say _) λ _. keep_pure P _) (
          bind (keep_conf_byte plain.early p d _) λ id.
            bind (keep_conf_byte plain.early p d _) λ next. bind (word d _) λ cap.
              bind (keep_lift plain.early _) λ (visit : ℕ × List ℕ).
                keep_if _ (bind (keep_say _) λ _. keep_pure P _) (
                  keep_if _ (bind (keep_say _) λ _. keep_pure P _) (
                    bind (keep_show_cap d pos id cap) λ express.
                      keep_walk_caps f d (align4 next) (visit.1) (latest express type)))))

  keep_cap_dsn : (d pos : ℕ) → Triple E P (cap_dsn p verbose d pos) P
  unfolding cap_dsn
  keep_cap_dsn d pos =
      bind (keep_fetch plain.early p d _ _)
        λ fetched. keep_if _ pass (bind (long d _) λ t1. bind (long d _) λ t2. keep_say _)

  keep_walk_ext_caps :
      (f d pos : ℕ) (been_there : List ℕ)
      → Triple E P (walk_ext_caps p verbose f d pos been_there) P
  unfolding walk_ext_caps
  keep_walk_ext_caps zero d pos been_there = keep_lift plain.early _
  keep_walk_ext_caps (suc f) d pos been_there = bind (keep_fetch plain.early p d _ _) λ fetched.
      keep_if _ pass (
        bind (long d _) λ (header : ℕ). keep_if _ pass (
          bind (keep_lift plain.early _) λ (visit : ℕ × List ℕ). keep_if _ (keep_say _) (
            bind (keep_if _ (keep_say _) (keep_if _ (keep_cap_dsn d pos) pass))
              λ _. keep_if _ pass (keep_walk_ext_caps f d (align4 (header / 2 ^ 20)) (visit.1)))))

  keep_ext : (d : ℕ) → Triple E P (show_ext_caps p verbose d) P
  unfolding show_ext_caps
  keep_ext d = keep_walk_ext_caps 0x1001 d 0x100 (replicate 0x1000 0)

  pub keep_show_caps : (d pos : ℕ) → Triple E P (show_caps p verbose d pos) P
  unfolding show_caps
  keep_show_caps d pos = bind (word d _) λ status.
      bind
        (keep_if _ (keep_pure P _) (
          bind (keep_conf_byte plain.early p d _)
            λ first. keep_walk_caps 0x101 d (align4 first) (replicate 0x100 0) none))
        λ type. keep_null_or type pass (λ t. keep_ext d)
