-- ===== src/Examples/Restarts.antt =====
-- examples/full_feature: what its installer comes to under the firmware update service.
use wolk_connect_task.Prelude.{Text, ◌≡◌, refl, inl, inr, true, false, ◌++◌, text_eq, ◌==◌, arith}
use wolk_connect_task.Sdk.{FirmwareUpdateStatus, FirmwareUpdateError}
use wolk_connect_task.Firmware.{
  Surroundings, FirmwareUpdateService, is_installing, on_firmware_install, load_state,
}
use wolk_connect_task.Firmware.Sessions.{IsFileSystem, status_wires, stored}
use wolk_connect_task.Firmware.Restarts.{restart-outcome}
use wolk_connect_task.Examples.FullFeature.{
  example_installer, get_firmware_version, was_firmware_install_successful,
}

module _ {Wire Fs : Type 0} (e : Surroundings Wire Fs) where
  abbrev pub with_example : Surroundings Wire Fs
  with_example = record e { firmware_installer = example_installer }

  -- The installer of the program answers every installation with WILL_INSTALL and keeps its version:
  -- a service that finds the disk as the installation left it reports that it
  -- failed, when the session file could be stored.
  restart-failed :
      (fs : IsFileSystem e.file_system) (k file : Text) (s r : FirmwareUpdateService Wire Fs)
      → is_installing k s ≡ false
      → r.disk ≡ (on_firmware_install with_example k file s).disk
      → r.session_file ≡ s.session_file
      → r.installer ≡ true
      → (stored with_example k s).1 ≡ true
      → (load_state with_example k r).queue
        ≡ r.queue
          ++ status_wires e k FirmwareUpdateStatus.error FirmwareUpdateError.installation_failed
  unfolding get_firmware_version was_firmware_install_successful wolk_connect_task.Prelude.text_dec
  restart-failed fs k file s r idle disk same installer kept =
      elim (restart-outcome with_example fs k file s r idle refl disk same installer) [
        | inl (done, queued) ↦ queued
        | inr (failed, queued) ↦ ground arith
      ]
