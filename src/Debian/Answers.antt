-- ===== src/Debian/Answers.antt =====
-- What installFirmware of DebianPackageInstaller.cpp answers, and what it leaves.
use wolk_connect_task.Prelude.{
  Text, ℕ, suc, ◌≡◌, refl, ◌∙◌, true, some, List, [], ◌∷◌, text_eq, nat_eq, arith, true,
}
use wolk_connect_task.Prelude.Dict.{lookup, lookup-insert, lookup-erase}
use wolk_connect_task.Firmware.{InstallResponse, will_install}
use wolk_connect_task.Dbus.Signals.{signal_of}
use wolk_connect_task.Debian.{InstallationResult, installing, finished_signal, install_package}
use wolk_connect_task.Debian.Systemd.{successful, restart_service}
use wolk_connect_task.Debian.Transactions
use wolk_connect_task.Debian.Installer
use wolk_connect_task.Debian.Transactions.{
  Listens, Answers, IsReady, Waits, install_package-Waits, finish_transaction-Waits,
}
use wolk_connect_task.Debian.Installer.{
  Surroundings, Update, DebianPackageInstaller, Event, arrived, aborted, service_name_of, contains,
  waiting_for, abort_firmware_install, prepare, answer_and_forget, finish_update, run_callbacks,
  happen, wait_for, install_firmware,
}

module _ {V : Type 0} (e : Surroundings V) where
  -- The verdict on an installation: APT's result, and then the restart of the service.
  abbrev pub verdict : Text → V → DebianPackageInstaller V → InstallResponse
  verdict path value s = elim (Transactions.result_of e.glib value) [
    | InstallationResult.installed ↦
        elim (restart_service e.glib (service_name_of path) s.systemd_service_interface).0 [
          | successful ↦ InstallResponse.installed
          | _ ↦ InstallResponse.failed_to_install
        ]
    | _ ↦ InstallResponse.failed_to_install
  ]

  wait_for-finished :
      (caller : ℕ) (device_key file path object owner : Text) (value : V) (id : ℕ)
      (events : List (Event V)) (s : DebianPackageInstaller V)
      → Listens object owner id s.apt_package_installer.connection
      → Waits object path
          (record { caller = caller; device_key = device_key; file_name = file })
          s.apt_package_installer
      → s.apt_package_installer.command_buffer ≡ []
      → s.calls ≡ caller
      → s.waits ≡ true
      → lookup file s.condition_variables ≡ some caller
      → lookup device_key s.device_installation_result ≡ some will_install
      → let signal = signal_of (finished_signal object) owner value in
        Installer.result_of device_key (wait_for e caller (arrived signal ∷ events) s)
        ≡ verdict path value s
  unfolding wait_for happen run_callbacks finish_update contains
  wait_for-finished caller device_key file path object owner value id events s listens waits idle
        called still waiting pending =
      let update : Update = record { caller = caller; device_key = device_key; file_name = file } in
      let done =
        finish_transaction-Waits e.glib object owner path value id update s.apt_package_installer
          listens waits in
      ground (
        arith,
        done,
        lookup-insert device_key device_key InstallResponse.installed s.device_installation_result,
        lookup-insert device_key device_key InstallResponse.failed_to_install
            s.device_installation_result,
      )

  wait_for-aborted :
      (caller : ℕ) (device_key file : Text) (events : List (Event V)) (s : DebianPackageInstaller V)
      → lookup device_key s.devices_installing_files ≡ some file
      → lookup file s.condition_variables ≡ some caller
      → wait_for e caller (aborted device_key ∷ events) s ≡ s
  unfolding wait_for happen contains
  wait_for-aborted caller device_key file events s installing' waiting = ground arith

  -- The state in which a caller waits.
  abbrev waiting : Text → Text → DebianPackageInstaller V → DebianPackageInstaller V
  waiting device_key file s = record (prepare device_key file s) {
    apt_package_installer =
        (install_package e.glib (e.absolute_path file)
          (record { caller = suc s.calls; device_key = device_key; file_name = file }) []
          s.apt_package_installer).1;
  }

  install_firmware-waiting :
      (device_key file : Text) (events : List (Event V)) (s : DebianPackageInstaller V)
      → (install_package e.glib
          (e.absolute_path file)
          (record { caller = suc s.calls; device_key = device_key; file_name = file })
          []
          s.apt_package_installer).0
        ≡ installing
      → install_firmware e device_key file [] events s
        ≡ answer_and_forget device_key file
            (wait_for e (suc s.calls) events (waiting device_key file s))
  unfolding install_firmware prepare
  install_firmware-waiting device_key file events s answered = rw answered refl

  answer_and_forget-aborted :
      (device_key file : Text) (s : DebianPackageInstaller V)
      → abort_firmware_install device_key (answer_and_forget device_key file s).1 ≡ []
  unfolding abort_firmware_install answer_and_forget
  answer_and_forget-aborted device_key file s =
      ground (arith, lookup-erase device_key device_key s.devices_installing_files)

  -- An installation for a device, of a package of which APT makes a new transaction, when D-Bus and
  -- GLib answer the calls for it. When the first that happens is the Finished signal, the device gets
  -- INSTALLED exactly when the result is exit-success and the restart of the service named by the file
  -- throws nothing, and FAILED_TO_INSTALL otherwise. When the first is an abort, or nothing happens
  -- for two minutes, it gets WILL_INSTALL. In no case does the installer wait for the device
  -- afterwards.
  pub install_firmware-verdict :
      (device_key file object : Text) (owner value : V) (events : List (Event V))
      (s : DebianPackageInstaller V)
      → Answers e.glib (e.absolute_path file) object owner
      → IsReady object (e.glib.child_string owner) s.apt_package_installer
      → s.apt_package_installer.command_buffer ≡ []
      → let signal = signal_of (finished_signal object) (e.glib.child_string owner) value in
        let answered = install_firmware e device_key file [] (arrived signal ∷ events) s in
        let stopped = install_firmware e device_key file [] (aborted device_key ∷ events) s in
        let expired = install_firmware e device_key file [] [] s in
        (answered.0 ≡ verdict (e.absolute_path file) value s)
        × (stopped.0 ≡ will_install)
        × (expired.0 ≡ will_install)
        × (abort_firmware_install device_key answered.1 ≡ [])
        × (abort_firmware_install device_key stopped.1 ≡ [])
        × (abort_firmware_install device_key expired.1 ≡ [])
  unfolding prepare answer_and_forget wait_for
  install_firmware-verdict device_key file object owner value events s a ready idle =
      let path = e.absolute_path file in
      let update : Update = record {
        caller = suc s.calls;
        device_key = device_key;
        file_name = file;
      } in
      let t = (install_package e.glib path update [] s.apt_package_installer).1 in
      let (answered, (id, listens), waits, kept) =
        install_package-Waits e.glib path object update owner s.apt_package_installer a ready in
      let b = waiting device_key file s in
      let pending : lookup device_key b.device_installation_result ≡ some will_install =
        ground
          (arith, lookup-insert device_key device_key will_install s.device_installation_result) in
      let called : lookup file b.condition_variables ≡ some (suc s.calls) =
        ground (arith, lookup-insert file file (suc s.calls) s.condition_variables) in
      let finished' =
        wait_for-finished (suc s.calls) device_key file path object (e.glib.child_string owner)
          value id events b listens waits (kept ∙ idle) refl refl called pending in
      let stopped =
        wait_for-aborted (suc s.calls) device_key file events b
          (ground (arith, lookup-insert device_key device_key file s.devices_installing_files))
          called in
      let unanswered : Installer.result_of device_key b ≡ will_install = ground arith in
      let signal = signal_of (finished_signal object) (e.glib.child_string owner) value in
      let first = install_firmware-waiting device_key file (arrived signal ∷ events) s answered in
      let second =
        install_firmware-waiting device_key file (aborted device_key ∷ events) s answered in
      let third = install_firmware-waiting device_key file [] s answered in
      (
        rw first finished',
        rw (second, stopped) unanswered,
        rw third unanswered,
        rw first (
            answer_and_forget-aborted device_key file
              (wait_for e (suc s.calls) (arrived signal ∷ events) b)),
        rw second (
            answer_and_forget-aborted device_key file
              (wait_for e (suc s.calls) (aborted device_key ∷ events) b)),
        rw third (answer_and_forget-aborted device_key file (wait_for e (suc s.calls) [] b)),
      )
