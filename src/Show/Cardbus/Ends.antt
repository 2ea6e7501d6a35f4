-- ===== src/Show/Cardbus/Ends.antt =====
-- The output for a CardBus bridge comes to an end (adna.c: show_bases, show_htype2).
use adnacom_hotplug.Common.{ℕ, zero, suc, ◌+◌, Bool, false}
use adnacom_hotplug.Common.Text.{Text}
use adnacom_hotplug.Platform.{Platform, ReadsBlocks}
use adnacom_hotplug.Machine.{skip}
use adnacom_hotplug.Machine.Invariants.{
  Keeps, then_do, Any, by_pure, by_gets, by_when, IsSound, forget, keeps_device_at, keeps_emit,
}
use adnacom_hotplug.Machine.Reads.{keeps_conf_byte, keeps_conf_word, keeps_conf_long}
use adnacom_hotplug.Caps.{say}
use adnacom_hotplug.Caps.Walk.{keeps_show_caps}
use adnacom_hotplug.Show.Cardbus.{
  show_base, bases_loop, show_bases, memory_window, io_window, show_htype2,
}

module _ {H : Type 0} (p : Platform H) (reads : ReadsBlocks p) (verbose : ℕ) where
  says : (text : Text) → Keeps IsSound (say p verbose text) Any
  says text = keeps_emit p _

  pass : Keeps {H = H} IsSound skip Any
  pass = by_pure tt tt

  ends_show_base :
      (d cnt cmd i pos len ioflg flg : ℕ) (virtual : Bool)
      → Keeps IsSound (show_base p verbose d cnt cmd i pos len ioflg flg virtual) Any
  unfolding show_base
  ends_show_base d cnt cmd i pos len ioflg flg virtual =
      then_do (by_when _ (λ _. forget (keeps_conf_long p d _)) (λ _. by_pure _ tt))
        λ hw_upper _. then_do (says _) λ _ _. by_pure _ tt

  ends_bases_loop :
      (f d cnt cmd i : ℕ) (virtual : Bool)
      → Keeps IsSound (bases_loop p verbose f d cnt cmd i virtual) Any
  unfolding bases_loop
  ends_bases_loop zero d cnt cmd i virtual = pass
  ends_bases_loop (suc f) d cnt cmd i virtual =
      by_when _ (λ _. pass)
        (λ _. then_do (keeps_device_at d) λ device _. then_do (by_gets _) λ pos _.
          then_do (by_gets _) λ len _. then_do (by_gets _) λ ioflg _.
            then_do (keeps_conf_long p d _) λ raw _.
              by_when _ (λ _. ends_bases_loop f d cnt cmd (i + 1) virtual)
                (λ _.
                  then_do (ends_show_base d cnt cmd i pos len ioflg _ virtual)
                    λ r _. ends_bases_loop f d cnt cmd (r.0) (r.1)))

  ends_show_bases : (d cnt : ℕ) → Keeps IsSound (show_bases p verbose d cnt) Any
  unfolding show_bases
  ends_show_bases d cnt =
      then_do (keeps_conf_word p d _) λ cmd _. ends_bases_loop cnt d cnt cmd 0 false

  ends_memory_window : (d cmd brc i : ℕ) → Keeps IsSound (memory_window p verbose d cmd brc i) Any
  unfolding memory_window
  ends_memory_window d cmd brc i =
      then_do (keeps_conf_long p d _)
        λ base _. then_do (keeps_conf_long p d _) λ limit _. by_when _ (λ _. says _) (λ _. pass)

  ends_io_window : (d cmd i : ℕ) → Keeps IsSound (io_window p verbose d cmd i) Any
  unfolding io_window
  ends_io_window d cmd i =
      then_do (keeps_conf_long p d _)
        λ base _. then_do (keeps_conf_long p d _) λ limit _. by_when _ (λ _. says _) (λ _. pass)

  pub ends_show_htype2 : (d : ℕ) → Keeps IsSound (show_htype2 p verbose d) Any
  unfolding show_htype2
  ends_show_htype2 d = then_do (keeps_conf_word p d _) λ cmd _.
      then_do (keeps_conf_word p d _) λ brc _. then_do (ends_show_bases d 1) λ _ _.
        then_do (keeps_conf_byte p d _) λ primary _. then_do (keeps_conf_byte p d _) λ secondary _.
          then_do (keeps_conf_byte p d _) λ subordinate _.
            then_do (keeps_conf_byte p d _) λ latency _. then_do (says _) λ _ _.
              then_do (ends_memory_window d cmd brc 0) λ _ _.
                then_do (ends_memory_window d cmd brc 1) λ _ _.
                  then_do (ends_io_window d cmd 0) λ _ _. then_do (ends_io_window d cmd 1) λ _ _.
                    then_do (keeps_conf_word p d _) λ sec_status _.
                      then_do (by_when _ (λ _. says _) (λ _. pass)) λ _ _.
                        then_do (by_when _ (λ _. says _) (λ _. pass)) λ _ _.
                          then_do (keeps_device_at d) λ device _.
                            by_when _ (λ _. says _)
                              (λ _. then_do (keeps_conf_word p d _) λ exca _.
                                then_do (by_when _ (λ _. pass) (λ _. says _))
                                  λ _ _. keeps_show_caps p reads verbose d _)
