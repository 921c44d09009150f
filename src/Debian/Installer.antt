-- ===== src/Debian/Installer.antt =====
-- wolk/service/firmware_update/debian/DebianPackageInstaller.{h,cpp}: an installer that waits for APT
-- and has systemd restart what was installed. Callers come one at a time.
use wolk_connect_task.Prelude.{
  Text, ℕ, zero, suc, Bool, true, false, Option, none, some, List, [], ◌∷◌, ◌++◌, length, take,
  drop, codes, text_eq, nat_eq, ◌==◌, ◌&&◌, if◌then◌else◌,
}
use wolk_connect_task.Prelude.Dict.{Dict, lookup, insert, erase}
use wolk_connect_task.Firmware.{InstallResponse, will_install}
use wolk_connect_task.Downloader.Url.{rfind_char, find_char, substr}
use wolk_connect_task.Dbus.{Glib, Signal}
use wolk_connect_task.Debian.{
  InstallationResult, installing, AptPackageInstaller, receive_signal, run_handlers,
  install_package,
}
use wolk_connect_task.Debian
use wolk_connect_task.Debian.Systemd
use wolk_connect_task.Debian.Systemd.{successful, failed_to_find_to_dbus, restart_service}

-- `command_output` is what a command of the shell writes, if it can be started.
pub record Surroundings (V : Type 0) : Type 0 where
  pub glib : Glib V
  pub absolute_path : Text → Text
  pub command_output : Text → Option Text

-- What the callback of an update holds on to: `caller` stands for the mutex of the call that waits.
pub record Update : Type 0 where
  pub caller : ℕ
  pub device_key : Text
  pub file_name : Text

-- A caller's condition variable is found by the name of its file. Only the last of the `calls`
-- can wait: `waits` says that it has not returned, so that the mutex of its frame is still there.
pub record DebianPackageInstaller (V : Type 0) : Type 0 where
  pub service_name : Text
  pub apt_package_installer : AptPackageInstaller V Update
  pub systemd_service_interface : Systemd.Connection V
  pub devices_installing_files : Dict Text Text
  pub device_installation_result : Dict Text InstallResponse
  pub condition_variables : Dict Text ℕ
  pub calls : ℕ
  pub waits : Bool

-- What happens while a caller waits.
pub data Event (V : Type 0) : Type 0 where
  arrived : Signal V → Event V
  aborted : Text → Event V

-- The name of the package in the name of its file: what stands before the first underscore.
unfoldable pub service_name_of : Text → Text
service_name_of path =
    let name : Text = elim (rfind_char b'/' path) [ none ↦ path | some i ↦ drop (suc i) path ] in
    elim (find_char b'_' name) [ none ↦ name | some i ↦ substr 0 i name ]

abbrev pub newline : ℕ
newline = 10

-- The loop that takes newlines out, one in each round.
unfoldable pub remove_newlines : ℕ → Text → Text
remove_newlines zero result = result
remove_newlines (suc fuel) result = elim (find_char newline result) [
  | none ↦ result
  | some i ↦ remove_newlines fuel (take i result ++ drop (suc i) result)
]

-- The installer answers so for every device and version.
abbrev pub was_firmware_install_successful : Text → Text → Bool
was_firmware_install_successful device_key version = true

unfoldable pub contains : ℕ → List ℕ → Bool
contains caller [] = false
contains caller (n ∷ ns) = let rest = contains caller ns in if n == caller then true else rest

module _ {V : Type 0} where
  -- The caller whose condition variable a file has.
  abbrev pub waiting_for : Text → DebianPackageInstaller V → List ℕ
  waiting_for file s = elim (lookup file s.condition_variables) [
    | none ↦ []
    | some caller ↦ caller ∷ []
  ]

  unfoldable pub abort_firmware_install : Text → DebianPackageInstaller V → List ℕ
  abort_firmware_install device_key s = elim (lookup device_key s.devices_installing_files) [
    | none ↦ []
    | some file ↦ waiting_for file s
  ]

  abbrev pub result_of : Text → DebianPackageInstaller V → InstallResponse
  result_of device_key s = elim (lookup device_key s.device_installation_result) [
    | none ↦ InstallResponse.failed_to_install
    | some result ↦ result
  ]

  abbrev pub version_command : DebianPackageInstaller V → Text
  version_command s =
      codes "dpkg -l | grep " ++ (s.service_name ++ codes " | tr -s ' ' | cut -d ' ' -f3")

  unfoldable pub prepare : Text → Text → DebianPackageInstaller V → DebianPackageInstaller V
  prepare device_key file s = record s {
    devices_installing_files = insert device_key file s.devices_installing_files;
    device_installation_result =
        insert device_key InstallResponse.will_install s.device_installation_result;
    condition_variables = insert file (suc s.calls) s.condition_variables;
    calls = suc s.calls;
    waits = true;
  }

  unfoldable pub answer_and_forget :
      Text → Text → DebianPackageInstaller V → InstallResponse × DebianPackageInstaller V
  answer_and_forget device_key file s = (
    result_of device_key s,
    record s {
      devices_installing_files = erase device_key s.devices_installing_files;
      condition_variables = erase file s.condition_variables;
      waits = false;
    },
  )

module _ {V : Type 0} (e : Surroundings V) where
  unfoldable pub start : DebianPackageInstaller V → Option (DebianPackageInstaller V)
  start s = elim (Debian.start e.glib s.apt_package_installer) [
    | none ↦ none
    | some apt ↦ some (record s {
      apt_package_installer = apt;
      systemd_service_interface = Systemd.start e.glib s.systemd_service_interface;
    })
  ]

  unfoldable pub stop : DebianPackageInstaller V → DebianPackageInstaller V
  stop s = record s {
    apt_package_installer = Debian.stop e.glib s.apt_package_installer;
    systemd_service_interface = Systemd.stop e.glib s.systemd_service_interface;
  }

  -- The lambda of `update`, with the lambda of `installFirmware` for its callback: the service is
  -- restarted after an installation, and the caller is given the result if it still waits.
  unfoldable pub finish_update :
      Update → Text → InstallationResult → DebianPackageInstaller V → DebianPackageInstaller V
  finish_update update path result s =
      let (succeeded, systemd) : Bool × Systemd.Connection V = elim result [
        | InstallationResult.installed ↦
            let (restarted, t) =
              restart_service e.glib (service_name_of path) s.systemd_service_interface in
            (elim restarted [ successful ↦ true | _ ↦ false ], t)
        | _ ↦ (false, s.systemd_service_interface)
      ] in
      record s {
        systemd_service_interface = systemd;
        device_installation_result =
            if update.caller == s.calls && s.waits
            then (elim (lookup update.device_key s.device_installation_result) [
              | none ↦ s.device_installation_result
              | some old ↦
                  insert update.device_key
                    (if succeeded
                      then InstallResponse.installed
                      else InstallResponse.failed_to_install)
                    s.device_installation_result
            ])
            else s.device_installation_result;
      }

  -- The command buffer of the package installer runs what waits in it; the callers that are notified.
  unfoldable pub run_callbacks :
      List (Update × Text × InstallationResult)
      → DebianPackageInstaller V
      → List ℕ × DebianPackageInstaller V
  run_callbacks [] s = ([], s)
  run_callbacks ((update, path, result) ∷ callbacks) s =
      let (notified, t) = run_callbacks callbacks (finish_update update path result s) in
      (waiting_for update.file_name s ++ notified, t)

  unfoldable pub happen : Event V → DebianPackageInstaller V → List ℕ × DebianPackageInstaller V
  unfolding abort_firmware_install
  happen (arrived signal) s =
      let apt = run_handlers e.glib (receive_signal e.glib signal s.apt_package_installer) in
      run_callbacks apt.command_buffer
        (record s { apt_package_installer = record apt { command_buffer = [] } })
  happen (aborted device_key) s = (abort_firmware_install device_key s, s)

  -- The caller waits for its condition variable: with no event left, its two minutes have passed.
  unfoldable pub wait_for : ℕ → List (Event V) → DebianPackageInstaller V → DebianPackageInstaller V
  wait_for caller [] s = s
  wait_for caller (event ∷ events) s =
      let (notified, t) = happen event s in
      let rest = wait_for caller events t in if contains caller notified then t else rest

  unfoldable pub install_firmware :
      Text
      → Text
      → List (Signal V)
      → List (Event V)
      → DebianPackageInstaller V
      → InstallResponse × DebianPackageInstaller V
  unfolding prepare answer_and_forget
  install_firmware device_key file early events s =
      let a = prepare device_key file s in
      let update : Update = record {
        caller = a.calls;
        device_key = device_key;
        file_name = file;
      } in
      let (result, apt) =
        install_package e.glib (e.absolute_path file) update early a.apt_package_installer in
      let b : DebianPackageInstaller V = record a { apt_package_installer = apt } in
      answer_and_forget device_key file (elim result [
        | installing ↦ wait_for a.calls events b
        | _ ↦ record b {
          device_installation_result =
              insert device_key InstallResponse.failed_to_install b.device_installation_result;
        }
      ])

  -- The version that `dpkg` lists.
  unfoldable pub get_firmware_version : DebianPackageInstaller V → Text
  get_firmware_version s = elim (e.command_output (version_command s)) [
    | none ↦ []
    | some output ↦ remove_newlines (length output) output
  ]

  -- The destructor notifies who waits for a device that has its result.
  abbrev pub notified_at_end : Dict Text InstallResponse → DebianPackageInstaller V → List ℕ
  notified_at_end [] s = []
  notified_at_end ((device_key, result) ∷ results) s =
      let rest = notified_at_end results s in
      elim result [ will_install ↦ rest | _ ↦ abort_firmware_install device_key s ++ rest ]

  unfoldable pub destroy : DebianPackageInstaller V → List ℕ × DebianPackageInstaller V
  destroy s = (notified_at_end s.device_installation_result s, stop s)
