-- ===== src/Debian/Service.antt =====
-- FirmwareUpdateService with a DebianPackageInstaller for its installer.
use wolk_connect_task.Prelude.{
  Text, ◌≡◌, ◌≢◌, ◌∙◌, ap, sym, arith, inl, inr, Bool-cases, false, true, Option, List, [], ◌∷◌,
  ◌++◌, text_eq,
}
use wolk_connect_task.Sdk.{FirmwareUpdateStatus, FirmwareUpdateError}
use wolk_connect_task.Firmware
use wolk_connect_task.Firmware.{
  FirmwareInstaller, FirmwareUpdateService, InstallResponse, will_install, is_installing,
  message_path, on_firmware_install,
}
use wolk_connect_task.Firmware.Sessions
use wolk_connect_task.Firmware.Sessions.{status_wires, on_firmware_install-Installs}
use wolk_connect_task.Firmware.Messages.{StaysInstalling, receive_all, receive_all-StaysInstalling}
use wolk_connect_task.Dbus.Signals.{signal_of}
use wolk_connect_task.Debian.{finished_signal}
use wolk_connect_task.Debian.Transactions.{Answers, IsReady}
use wolk_connect_task.Debian.Installer.{
  Surroundings, DebianPackageInstaller, Event, arrived, install_firmware, get_firmware_version,
  abort_firmware_install, was_firmware_install_successful,
}
use wolk_connect_task.Debian.Answers.{verdict, install_firmware-verdict}

module _ {V : Type 0} (d : Surroundings V) (events : List (Event V)) where
  -- The installer after the installations that it was asked for, where the same happened each time.
  unfoldable pub after : List (Text × Text) → DebianPackageInstaller V → DebianPackageInstaller V
  after [] s = s
  after ((device_key, path) ∷ installs) s =
      after installs (install_firmware d device_key path [] events s).1

  abbrev pub installer_of : DebianPackageInstaller V → FirmwareInstaller
  installer_of s = record {
    get_firmware_version = λ installs device_key. get_firmware_version d (after installs s);
    install_firmware = λ installs device_key path.
        (install_firmware d device_key path [] events (after installs s)).0;
    was_firmware_install_successful = was_firmware_install_successful;
  }

module _ {Wire Fs V : Type 0} (e : Firmware.Surroundings Wire Fs) (d : Surroundings V) where
  abbrev pub over : List (Event V) → DebianPackageInstaller V → Firmware.Surroundings Wire Fs
  over events installer = record e { firmware_installer = installer_of d events installer }

  -- The answer to the first installation.
  first :
      (events : List (Event V)) (key path : Text) (installer : DebianPackageInstaller V)
      (s : FirmwareUpdateService Wire Fs)
      → s.installs ≡ []
      → (over events installer).install_firmware s.installs key path
        ≡ (install_firmware d key path [] events installer).0
  unfolding after
  first events key path installer s none' =
      ap (λ installs. (install_firmware d key path [] events (after d events installs installer)).0)
        none'

  -- A verdict is never that something will be installed.
  verdict-settled :
      (path : Text) (value : V) (installer : DebianPackageInstaller V)
      → verdict d path value installer ≢ will_install
  verdict-settled path value installer settled = ground arith

  -- A first command to install over a Debian installer for whose packages APT makes a new transaction,
  -- while the device is not installing. When the Finished signal comes first, the statuses sent are
  -- that it is installing and then the verdict of APT and systemd, and the device is not installing
  -- afterwards. When nothing comes for two minutes, the service says a second time that it is installing,
  -- and from then on the device is installing: no sequence of messages makes the installer asked for it
  -- again or ends that, and an abort, which is only now handed to the installer, finds nobody to wake.
  pub on_firmware_install-over :
      (key file object : Text) (owner value : V) (events : List (Event V))
      (installer : DebianPackageInstaller V) (messages : List (Option Wire))
      (s : FirmwareUpdateService Wire Fs)
      → is_installing key s ≡ false
      → s.installs ≡ []
      → ((path : Text) → Answers d.glib path object owner)
      → IsReady object (d.glib.child_string owner) installer.apt_package_installer
      → installer.apt_package_installer.command_buffer ≡ []
      → let signal = signal_of (finished_signal object) (d.glib.child_string owner) value in
        let finishing = over (arrived signal ∷ events) installer in
        let expiring = over [] installer in
        let finished = on_firmware_install finishing key file s in
        let expired = on_firmware_install expiring key file s in
        let installing =
          status_wires e key FirmwareUpdateStatus.installing FirmwareUpdateError.none in
        (finished.sent
          ≡ s.sent
            ++ (installing
                ++ Sessions.verdict e key (
                    verdict d
                      (d.absolute_path (message_path finishing key file s))
                      value
                      installer)))
        × (is_installing key finished ≡ false)
        × (expired.sent ≡ s.sent ++ (installing ++ installing))
        × (is_installing key expired ≡ true)
        × StaysInstalling expiring key expired (receive_all expiring messages expired)
        × (abort_firmware_install key (after d [] expired.installs installer) ≡ [])
  unfolding after message_path
  on_firmware_install-over key file object owner value events installer messages s idle none'
        answers ready empty =
      let signal = signal_of (finished_signal object) (d.glib.child_string owner) value in
      let finishing = over (arrived signal ∷ events) installer in
      let expiring = over [] installer in
      let path = message_path expiring key file s in
      let (asked, sent, busy, place) = on_firmware_install-Installs finishing key file s idle in
      let (asked', sent', busy', place') = on_firmware_install-Installs expiring key file s idle in
      let (answered, stopped, lapsed, gone, gone', gone'') =
        install_firmware-verdict d key path object owner value events installer
          (answers (d.absolute_path path)) ready empty in
      let verdict' = first (arrived signal ∷ events) key path installer s none' ∙ answered in
      let installing =
        status_wires e key FirmwareUpdateStatus.installing FirmwareUpdateError.none in
      let settled : is_installing key (on_firmware_install finishing key file s) ≡ false =
        elim (Bool-cases (is_installing key (on_firmware_install finishing key file s))) [
          | inl busy_still ↦ absurd (
              verdict-settled (d.absolute_path path) value installer
                (sym verdict' ∙ busy.0 busy_still))
          | inr settled' ↦ settled'
        ] in
      let will = first [] key path installer s none' ∙ lapsed in
      (
        sent ∙ ap (λ answer. s.sent ++ (installing ++ Sessions.verdict e key answer)) verdict',
        settled,
        sent' ∙ ap (λ answer. s.sent ++ (installing ++ Sessions.verdict e key answer)) will,
        busy'.1 will,
        receive_all-StaysInstalling expiring key messages (on_firmware_install expiring key file s)
            (busy'.1 will),
        ap (λ installs. abort_firmware_install key (after d [] installs installer))
              (asked' ∙ ap (λ installs. installs ++ (key, path) ∷ []) none')
            ∙ gone'',
      )
