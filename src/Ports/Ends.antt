-- ===== src/Ports/Ends.antt =====
-- What is done to a port comes to an end (adna.c: pcimem, disable_port, enable_port,
-- remove_downstream, rescan_pci).
use adnacom_hotplug.Common.{ℕ, Bool}
use adnacom_hotplug.Common.Text.{Text}
use adnacom_hotplug.Pci.{PciFilter}
use adnacom_hotplug.Platform.{Platform}
use adnacom_hotplug.Machine.{AdnaDevice, exit}
use adnacom_hotplug.Machine.Invariants.{
  Keeps, then_do, Any, by_pure, by_gets, by_lift, by_when, IsSound, keeps_emit,
}
use adnacom_hotplug.Ports.{
  Access, print_error, load_mapped, store_mapped, require, pcimem, disable_port, enable_port,
  write_one, rescan_pci,
}
use adnacom_hotplug.Scan.Ends.{deref-Halts}

module _ {H : Type 0} where
  pub by_exit : {A : Type 0} {Q : A → Type 0} (n : ℕ) → Keeps {H = H} IsSound (exit n) Q
  unfolding exit
  by_exit n = record { run = λ s h. (tt, h) }

module _ {H : Type 0} (p : Platform H) where
  ends_require : (test : H → Bool) → Keeps IsSound (require p test) Any
  unfolding require print_error
  ends_require test =
      then_do (by_gets _)
        λ good _. by_when good (λ _. by_pure tt tt) (λ _. then_do (keeps_emit p _) λ _ _. by_exit 1)

  ends_load :
      (filename : Text) (reg base size : ℕ)
      → Keeps IsSound (load_mapped p filename reg base size) Any
  unfolding load_mapped
  ends_load filename reg base size = by_when _ (λ _. by_gets _) (λ _. by_lift _ tt)

  ends_store :
      (filename : Text) (reg base size v : ℕ)
      → Keeps IsSound (store_mapped p filename reg base size v) Any
  unfolding store_mapped
  ends_store filename reg base size v = by_when _ (λ _. keeps_emit p _) (λ _. by_lift _ tt)

  ends_pcimem :
      (access : Access) (f : PciFilter) (reg v : ℕ) → Keeps IsSound (pcimem p access f reg v) Any
  unfolding pcimem
  ends_pcimem access f reg v = then_do (ends_require _) λ _ _. then_do (ends_require _) λ _ _.
      then_do (ends_load _ _ _ _) λ before _.
        then_do
          (by_when _ (λ _. then_do (ends_store _ _ _ _ _) λ _ _. ends_load _ _ _ _)
            (λ _. by_pure _ tt))
          λ _ _. then_do (ends_require _) λ _ _. by_pure _ tt

  pub ends_disable_port : (a : AdnaDevice) → Keeps IsSound (disable_port p a) Any
  unfolding disable_port
  ends_disable_port a = then_do (by_lift _ (deref-Halts _)) λ (parent : PciFilter) _.
      then_do (ends_pcimem _ parent _ _)
        λ control _. then_do (ends_pcimem _ parent _ _) λ _ _. by_pure tt tt

  pub ends_enable_port : (a : AdnaDevice) → Keeps IsSound (enable_port p a) Any
  unfolding enable_port
  ends_enable_port a = then_do (by_lift _ (deref-Halts _)) λ (parent : PciFilter) _.
      then_do (ends_pcimem _ parent _ _)
        λ control _. then_do (ends_pcimem _ parent _ _) λ _ _. by_pure tt tt

  pub ends_write_one : (filename : Text) → Keeps IsSound (write_one p filename) Any
  unfolding write_one
  ends_write_one filename =
      then_do (ends_require _) λ _ _. then_do (ends_require _) λ _ _. keeps_emit p _

  pub ends_rescan : Keeps IsSound (rescan_pci p) Any
  unfolding rescan_pci
  ends_rescan = then_do (ends_write_one _) λ _ _. keeps_emit p _
