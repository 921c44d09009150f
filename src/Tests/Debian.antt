-- ===== src/Tests/Debian.antt =====
-- A package that APT installs, beside another that it is installing already.
use wolk_connect_task.Prelude.{
  Text, ℕ, ◌≡◌, inl, refl, true, false, none, some, [], ◌∷◌, ◌++◌, codes, text_dec, text_eq,
}
use wolk_connect_task.Prelude.Dict.{lookup}
use wolk_connect_task.Firmware.{InstallResponse, will_install}
use wolk_connect_task.Dbus.{name_of}
use wolk_connect_task.Dbus.Methods.{new_interface, check_connection, connect}
use wolk_connect_task.Dbus.Signals.{signal_of}
use wolk_connect_task.Debian.{
  InstallationResult, installing, AptPackageInstaller, finished_signal, install_package,
}
use wolk_connect_task.Debian.Transactions.{Answers, finish_transaction, install_package-finished}
use wolk_connect_task.Debian.Installer.{
  Surroundings, DebianPackageInstaller, arrived, aborted, abort_firmware_install, install_firmware,
}
use wolk_connect_task.Debian.Answers.{install_firmware-verdict}
use wolk_connect_task.Debian.Service.{after, over, on_firmware_install-over}
use wolk_connect_task.Firmware.{is_installing, message_path, on_firmware_install}
use wolk_connect_task.Firmware.Messages.{StaysInstalling, receive_all}
use wolk_connect_task.Sdk.{FirmwareUpdateStatus, FirmwareUpdateError}
use wolk_connect_task.Tests.Firmware
use wolk_connect_task.Tests.Firmware.{install, abort, status}
use wolk_connect_task.Tests.Dbus.{Value, glib, connected}

abbrev busy : {C : Type 0} → C → AptPackageInstaller Value C
busy callback = record {
  connection = connected;
  transactions = (codes "/t1", codes "/a.deb") ∷ [];
  callbacks = (codes "/t1", callback) ∷ [];
  command_buffer = [];
}

glib-Answers : (path : Text) → Answers glib path (codes "/t2") (codes ":1.5" ∷ [])
unfolding text_dec
glib-Answers path = record {
  created = codes "/t2" ∷ [];
  creates = λ calls. refl;
  names = refl;
  owns = λ calls. refl;
  runs = λ calls e. cc;
  numbers = λ before signal e. cc;
}

abbrev earlier : ℕ
earlier = 1

abbrev callback : ℕ
callback = 2

install_package-finished_example :
    let (result, t) = install_package glib (codes "/b.deb") callback [] (busy earlier) in
    let u = finish_transaction glib (codes "/t2") (codes ":1.5") (codes "exit-success" ∷ []) t in
    (result ≡ installing)
    × (u.command_buffer ≡ [] ++ (callback, codes "/b.deb", InstallationResult.installed) ∷ [])
    × (lookup (codes "/t2") u.callbacks ≡ none)
    × (finish_transaction glib (codes "/t2") (codes ":1.5") (codes "exit-failed" ∷ []) u ≡ u)
unfolding lookup check_connection connect name_of text_dec
install_package-finished_example =
    install_package-finished glib (codes "/b.deb") (codes "/t2") callback (codes ":1.5" ∷ [])
      (codes "exit-success" ∷ []) (codes "exit-failed" ∷ []) (busy earlier)
      (glib-Answers (codes "/b.deb")) (refl, refl, inl (refl, refl), refl, refl, refl)

abbrev world : Surroundings Value
world = record {
  glib = glib;
  absolute_path = λ file. codes "/files/" ++ file;
  command_output = λ command. some (codes "1.0\n1.2\n");
}

abbrev file : Text
file = codes "b_1.2.deb"

abbrev device : Text
device = codes "pi"

abbrev idle : DebianPackageInstaller Value
idle = record {
  service_name = codes "b";
  apt_package_installer =
      busy (record { caller = 7; device_key = codes "other"; file_name = codes "a.deb" });
  systemd_service_interface = connected;
  devices_installing_files = [];
  device_installation_result = [];
  condition_variables = [];
  calls = 7;
  waits = false;
}

install_firmware-verdict_example :
    let signal =
      signal_of (finished_signal (codes "/t2")) (codes ":1.5") (codes "exit-success" ∷ []) in
    let answered = install_firmware world device file [] (arrived signal ∷ []) idle in
    let stopped = install_firmware world device file [] (aborted device ∷ []) idle in
    let expired = install_firmware world device file [] [] idle in
    (answered.0 ≡ InstallResponse.installed)
    × (stopped.0 ≡ will_install)
    × (expired.0 ≡ will_install)
    × (abort_firmware_install device answered.1 ≡ [])
    × (abort_firmware_install device stopped.1 ≡ [])
    × (abort_firmware_install device expired.1 ≡ [])
unfolding lookup check_connection connect name_of text_dec
    wolk_connect_task.Debian.Systemd.restart_service wolk_connect_task.Dbus.Methods.call_method
install_firmware-verdict_example =
    install_firmware-verdict world device file (codes "/t2") (codes ":1.5" ∷ [])
      (codes "exit-success" ∷ []) [] idle (glib-Answers (codes "/files/b_1.2.deb"))
      (refl, refl, inl (refl, refl), refl, refl, refl) refl

on_firmware_install-over_example :
    let signal =
      signal_of (finished_signal (codes "/t2")) (codes ":1.5") (codes "exit-success" ∷ []) in
    let finishing = over Firmware.world world (arrived signal ∷ []) idle in
    let expiring = over Firmware.world world [] idle in
    let finished = on_firmware_install finishing device file Firmware.ready in
    let expired = on_firmware_install expiring device file Firmware.ready in
    let installing = status device FirmwareUpdateStatus.installing FirmwareUpdateError.none in
    (finished.sent
      ≡ installing ∷ status device FirmwareUpdateStatus.success FirmwareUpdateError.none ∷ [])
    × (is_installing device finished ≡ false)
    × (expired.sent ≡ installing ∷ installing ∷ [])
    × (is_installing device expired ≡ true)
    × StaysInstalling expiring device expired
        (receive_all expiring (some (abort device) ∷ some (install device file) ∷ []) expired)
    × (abort_firmware_install device (after world [] expired.installs idle) ≡ [])
unfolding lookup check_connection connect name_of text_dec message_path
    wolk_connect_task.Debian.Systemd.restart_service wolk_connect_task.Dbus.Methods.call_method
on_firmware_install-over_example =
    on_firmware_install-over Firmware.world world device file (codes "/t2") (codes ":1.5" ∷ [])
      (codes "exit-success" ∷ []) [] idle (some (abort device) ∷ some (install device file) ∷ [])
      Firmware.ready refl refl glib-Answers (refl, refl, inl (refl, refl), refl, refl, refl) refl
