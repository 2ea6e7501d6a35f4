-- ===== src/Show/Plain.antt =====
-- Showing a device has plain effects only.
use adnacom_hotplug.Common.{ℕ, zero, suc, ◌+◌, Bool, false}
use adnacom_hotplug.Common.Text.{Text}
use adnacom_hotplug.Platform.{Platform}
use adnacom_hotplug.Config.{BusRef}
use adnacom_hotplug.Topology.{Bridge}
use adnacom_hotplug.Machine.{skip, conf_byte, conf_word, conf_long}
use adnacom_hotplug.Machine.Rules.{
  Log, Triple, bind, keep_pure, keep_gets, keep_if, keep_null_or, keep_lift, keep_device_at,
  keep_conf_byte, keep_conf_word, keep_conf_long, keep_store_cached, emit-Triple, IsPlain,
}
use adnacom_hotplug.Caps.{say}
use adnacom_hotplug.Caps.Plain.{keep_say, keep_show_caps}
use adnacom_hotplug.Show.Cardbus.{
  show_base, bases_loop, show_bases, memory_window, io_window, show_htype2,
}
use adnacom_hotplug.Show.{
  Options, upstream_device, show_slot_path, show_slot_name, show_terse, enable_command, show_htype,
  show_verbose,
}

module _ {H : Type 0} (p : Platform H) (verbose : ℕ) {E P : Log} (plain : IsPlain E P) where
  byte : (d pos : ℕ) → Triple E P (conf_byte p d pos) P
  byte = keep_conf_byte plain.early p

  word : (d pos : ℕ) → Triple E P (conf_word p d pos) P
  word = keep_conf_word plain.early p

  long : (d pos : ℕ) → Triple E P (conf_long p d pos) P
  long = keep_conf_long plain.early p

  says : (text : Text) → Triple E P (say p verbose text) P
  says = keep_say p verbose plain

  pass : Triple {H = H} E P skip P
  pass = keep_pure P tt

  keep_show_base :
      (d cnt cmd i pos len ioflg flg : ℕ) (virtual : Bool)
      → Triple E P (show_base p verbose d cnt cmd i pos len ioflg flg virtual) P
  unfolding show_base
  keep_show_base d cnt cmd i pos len ioflg flg virtual =
      bind (keep_if _ (long d _) (keep_pure P _)) λ hw_upper. bind (says _) λ _. keep_pure P _

  keep_bases_loop :
      (f d cnt cmd i : ℕ) (virtual : Bool)
      → Triple E P (bases_loop p verbose f d cnt cmd i virtual) P
  unfolding bases_loop
  keep_bases_loop zero d cnt cmd i virtual = pass
  keep_bases_loop (suc f) d cnt cmd i virtual = keep_if _ pass (
      bind (keep_device_at plain.early d) λ device. bind (keep_gets P _) λ pos.
        bind (keep_gets P _) λ len. bind (keep_gets P _) λ ioflg. bind (long d _) λ raw.
          keep_if _ (keep_bases_loop f d cnt cmd (i + 1) virtual) (
            bind (keep_show_base d cnt cmd i pos len ioflg _ virtual)
              λ r. keep_bases_loop f d cnt cmd (r.0) (r.1)))

  keep_show_bases : (d cnt : ℕ) → Triple E P (show_bases p verbose d cnt) P
  unfolding show_bases
  keep_show_bases d cnt = bind (word d _) λ cmd. keep_bases_loop cnt d cnt cmd 0 false

  keep_memory_window : (d cmd brc i : ℕ) → Triple E P (memory_window p verbose d cmd brc i) P
  unfolding memory_window
  keep_memory_window d cmd brc i =
      bind (long d _) λ base. bind (long d _) λ limit. keep_if _ (says _) pass

  keep_io_window : (d cmd i : ℕ) → Triple E P (io_window p verbose d cmd i) P
  unfolding io_window
  keep_io_window d cmd i = bind (long d _) λ base. bind (long d _) λ limit. keep_if _ (says _) pass

  pub keep_show_htype2 : (d : ℕ) → Triple E P (show_htype2 p verbose d) P
  unfolding show_htype2
  keep_show_htype2 d = bind (word d _) λ cmd. bind (word d _) λ brc. bind (keep_show_bases d 1) λ _.
      bind (byte d _) λ primary. bind (byte d _) λ secondary. bind (byte d _) λ subordinate.
        bind (byte d _) λ latency. bind (says _) λ _. bind (keep_memory_window d cmd brc 0) λ _.
          bind (keep_memory_window d cmd brc 1) λ _. bind (keep_io_window d cmd 0) λ _.
            bind (keep_io_window d cmd 1) λ _. bind (word d _) λ sec_status.
              bind (keep_if _ (says _) pass) λ _. bind (keep_if _ (says _) pass) λ _.
                bind (keep_device_at plain.early d) λ device. keep_if _ (says _) (
                  bind (word d _)
                    λ exca. bind (keep_if _ pass (says _)) λ _. keep_show_caps p verbose plain d _)

module _ {H : Type 0} (p : Platform H) (o : Options) {E P : Log} (plain : IsPlain E P) where
  tells : (text : Text) → Triple E P (say p (o.verbose) text) P
  tells = keep_say p (o.verbose) plain

  nothing : Triple {H = H} E P skip P
  nothing = keep_pure P tt

  keep_upstream_device : (d : ℕ) → Triple E P (upstream_device p o d) P
  unfolding upstream_device
  keep_upstream_device d = bind (keep_device_at plain.early d) λ device.
      bind (keep_lift plain.early _) λ (bus : BusRef).
        bind (keep_gets P _) λ found. bind (keep_lift plain.early _) λ (br : Bridge). keep_pure P _

  keep_path : (f d : ℕ) → Triple E P (show_slot_path p o f d) P
  unfolding show_slot_path
  keep_path zero d = keep_lift plain.early _
  keep_path (suc f) d = bind (keep_device_at plain.early d) λ device.
      bind (keep_if _ (keep_pure P _) (keep_upstream_device d))
        λ up. keep_null_or up (tells _) λ b. bind (keep_path f b) λ _. tells _

  keep_show_slot_name : (d : ℕ) → Triple E P (show_slot_name p o d) P
  unfolding show_slot_name
  keep_show_slot_name d = bind (keep_device_at plain.early d) λ device.
      bind (keep_gets P _) λ opt_domains.
        bind (keep_gets P _)
          λ (depth : ℕ). bind (keep_if _ (tells _) nothing) λ _. keep_path (suc depth) d

  keep_show_terse : (d : ℕ) → Triple E P (show_terse p o d) P
  unfolding show_terse
  keep_show_terse d = bind (keep_device_at plain.early d) λ device.
      bind (keep_show_slot_name d) λ _. bind (tells _) λ _.
        bind (keep_conf_byte plain.early p d _) λ rev. bind (keep_if _ nothing (tells _)) λ _.
          bind
            (keep_if _ nothing
              (bind (keep_conf_byte plain.early p d _) λ c. keep_if _ (tells _) nothing))
            λ _. bind (tells _) λ _. keep_if _ nothing (
              bind (keep_gets P _) λ label.
                bind (keep_null_or label nothing λ text. tells _)
                  λ _. bind (keep_lift plain.early _) λ (subsys : ℕ × ℕ). nothing)

  keep_enable_command : (d : ℕ) → Triple E P (enable_command p o d) P
  unfolding enable_command
  keep_enable_command d = bind (keep_conf_word plain.early p d _) λ cmd.
      bind (keep_device_at plain.early d) λ device.
        keep_if _
          (bind (keep_store_cached plain.early p d _ _)
            λ _. emit-Triple plain.early p _ (plain.on_write_byte _ _))
          nothing

  keep_show_htype : (htype d : ℕ) → Triple E P (show_htype p o htype d) P
  unfolding show_htype
  keep_show_htype htype d =
      keep_if _ (keep_show_htype2 p (o.verbose) plain d) (keep_show_caps p (o.verbose) plain d _)

  pub keep_show_verbose : (d : ℕ) → Triple E P (show_verbose p o d) P
  unfolding show_verbose
  keep_show_verbose d = bind (keep_device_at plain.early d) λ device.
      bind (keep_conf_byte plain.early p d _) λ byte. bind (keep_show_terse d) λ _.
        bind (keep_enable_command d) λ _. keep_null_or _ (tells _) λ fits.
          bind (keep_if _ nothing (tells _)) λ _.
            bind
              (keep_if _
                (bind (keep_conf_byte plain.early p d _)
                  λ max_lat. bind (keep_conf_byte plain.early p d _) λ min_gnt. nothing)
                nothing)
              λ _. bind (keep_gets P _) λ slot.
                bind (keep_null_or slot nothing λ text. tells _) λ _. bind (keep_gets P _) λ node.
                  bind (keep_null_or node nothing λ text. tells _)
                    λ _. bind (keep_show_htype _ d) λ _. tells _
