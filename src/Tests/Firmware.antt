-- ===== src/Tests/Firmware.antt =====
-- An installation over a restart.
use native.Mathlib.Decide.{ℕ_discrete}
use wolk_connect_task.Prelude.{
  Text, ◌≡◌, ◌⊎◌, arith, refl, true, false, Option, none, some, [], ◌∷◌, codes, text_dec, text_eq,
  ◌==◌,
}
use wolk_connect_task.Prelude.Dict.{lookup, lookup-insert}
use wolk_connect_task.Sdk.{FirmwareUpdateStatus, FirmwareUpdateError}
use wolk_connect_task.Firmware.{
  InstallResponse, MessageType, Surroundings, FirmwareUpdateService, load_state,
  on_firmware_install,
}
use wolk_connect_task.Firmware.Sessions.{
  IsFileSystem, Installs, session_stored, read_session, on_firmware_install-once,
}
use wolk_connect_task.Firmware.Restarts.{told, outcome, load_state-outcome, restart-outcome}
use wolk_connect_task.Firmware.Messages.{StaysInstalling, receive_all, receive_all-StaysInstalling}
use wolk_connect_task.Tests.{Disk, disk_files, disk_files-IsFileSystem}

pub data Wire : Type 0 where
  install : Text → Text → Wire
  abort : Text → Wire
  status : Text → FirmwareUpdateStatus → FirmwareUpdateError → Wire

abbrev pub type_of : Wire → MessageType
type_of (install k file) = MessageType.firmware_update_install
type_of (abort k) = MessageType.firmware_update_abort
type_of (status k s e) = MessageType.other

abbrev pub device_of : Wire → Text
device_of (install k file) = k
device_of (abort k) = k
device_of (status k s e) = k

abbrev pub file_of : Wire → Option Text
file_of (install k file) = some file
file_of (abort k) = none
file_of (status k s e) = none

abbrev pub world : Surroundings Wire Disk
world = record {
  protocol = record {
    get_message_type = type_of;
    get_device_key = device_of;
    parse_firmware_update_install = file_of;
    parse_firmware_update_abort = λ wire. true;
    make_outbound_message = λ k s e. some (status k s e);
  };
  file_system = disk_files;
  firmware_installer = record {
    get_firmware_version = λ installs k. codes "1";
    install_firmware = λ installs k path. InstallResponse.will_install;
    was_firmware_install_successful = λ k version. version == codes "1";
  };
  listener_version = codes "0";
}

abbrev pub device : Text
device = codes "D1"

abbrev pub ready : FirmwareUpdateService Wire Disk
ready = record {
  installer = true;
  parameters_listener = false;
  file_location = some (codes "files");
  session_file = codes ".fw";
  installation = [];
  queue = [];
  sent = [];
  installs = [];
  aborts = [];
  synchronized = [];
  received = [];
  disk = [];
}

on_firmware_install-once_example :
    Installs world device (codes "f") ready
    × (read_session world device (on_firmware_install world device (codes "f") ready)
        ≡ session_stored world device ready)
    × ((true ≡ false) ⊎ (session_stored world device ready ≡ some (codes "1")))
unfolding lookup
on_firmware_install-once_example =
    on_firmware_install-once world disk_files-IsFileSystem device (codes "f") ready refl

-- The disk refuses to delete, and keeps what it has.
abbrev read_only : Surroundings Wire Disk
read_only = record world { file_system = record disk_files { delete_file = λ d path. (d, false) } }

read_only-IsFileSystem : IsFileSystem read_only.file_system
read_only-IsFileSystem = record {
  read-created = λ d p content created. ground (arith, lookup-insert p p content d);
  read-deleted = λ d p. refl;
}

load_state-outcome_example :
    (let t = load_state read_only device ready in
      (t.queue ≡ outcome read_only device ready)
      × (t.sent ≡ [])
      × (read_session read_only device t ≡ read_session read_only device ready)
      × (outcome read_only device t ≡ outcome read_only device ready))
load_state-outcome_example = load_state-outcome read_only read_only-IsFileSystem device ready

abbrev restarted : FirmwareUpdateService Wire Disk
restarted = record ready { disk = (on_firmware_install world device (codes "f") ready).disk }

restart-outcome_example :
    ((true ≡ true)
      × ((load_state world device restarted).queue
          ≡ status device FirmwareUpdateStatus.success FirmwareUpdateError.none ∷ []))
    ⊎ ((true ≡ false)
        × ((load_state world device restarted).queue
            ≡ told world device true (session_stored world device ready)))
unfolding lookup text_dec ℕ_discrete
restart-outcome_example =
    restart-outcome world disk_files-IsFileSystem device (codes "f") ready restarted refl refl refl
      refl refl

abbrev installing : FirmwareUpdateService Wire Disk
installing = record ready { installation = (device, true) ∷ [] }

receive_all-StaysInstalling_example :
    StaysInstalling world device installing
      (receive_all world (some (abort device) ∷ some (install device (codes "g")) ∷ []) installing)
unfolding lookup text_dec ℕ_discrete
receive_all-StaysInstalling_example =
    receive_all-StaysInstalling world device
      (some (abort device) ∷ some (install device (codes "g")) ∷ []) installing refl
