-- ===== src/Firmware.antt =====
-- wolk/service/firmware_update/FirmwareUpdateService.{h,cpp}, over an installer that the user
-- supplies (wolk/api/FirmwareInstaller.h).
pub mod Sessions
pub mod Restarts
pub mod Messages
use wolk_connect_task.Prelude.{
  Text, ℕ, Bool, true, false, not, Option, none, some, List, [], ◌∷◌, ◌++◌, ◌&&◌, codes, text_eq,
  if◌then◌else◌, ◌==◌,
}
use wolk_connect_task.Prelude.Dict.{Dict, lookup, insert}
use wolk_connect_task.Sdk.{
  FileSystem, FirmwareUpdateStatus, FirmwareUpdateError, ParameterName, Parameter,
  firmware_update_repository, firmware_update_check_time, parameter_name_eq,
}

-- wolk/api/FirmwareInstaller.h.
pub data InstallResponse : Type 0 where
  failed_to_install no_file will_install installed : InstallResponse

pub data MessageType : Type 0 where
  firmware_update_install firmware_update_abort other : MessageType

pub record FirmwareUpdateProtocol (Wire : Type 0) : Type 0 where
  pub get_message_type : Wire → MessageType
  pub get_device_key : Wire → Text
  pub parse_firmware_update_install : Wire → Option Text
  pub parse_firmware_update_abort : Wire → Bool
  pub make_outbound_message : Text → FirmwareUpdateStatus → FirmwareUpdateError → Option Wire

-- The answers of the installer may depend on the installations that it was asked for before.
pub record FirmwareInstaller : Type 0 where
  pub get_firmware_version : List (Text × Text) → Text → Text
  pub install_firmware : List (Text × Text) → Text → Text → InstallResponse
  pub was_firmware_install_successful : Text → Text → Bool

pub record Surroundings (Wire Fs : Type 0) : Type 0 where
  pub protocol : FirmwareUpdateProtocol Wire
  pub open protocol use *
  pub file_system : FileSystem Fs
  pub open file_system use *
  pub firmware_installer : FirmwareInstaller
  pub open firmware_installer use *
  pub listener_version : Text

-- `installs` and `aborts` list the calls of the installer, `synchronized` those of the data service,
-- and `received` those of the listener. `file_location` is that of the file management service, if
-- there is one.
pub record FirmwareUpdateService (Wire Fs : Type 0) : Type 0 where
  pub installer : Bool
  pub parameters_listener : Bool
  pub file_location : Option Text
  pub session_file : Text
  pub installation : Dict Text Bool
  pub queue : List Wire
  pub sent : List Wire
  pub installs : List (Text × Text)
  pub aborts : List Text
  pub synchronized : List (Text × List ParameterName)
  pub received : List (Text × Text)
  pub disk : Fs

-- The loop of the callback: a later value replaces an earlier one.
unfoldable pub read_parameters : List Parameter → Text → Text → Text × Text
read_parameters [] repository check_time = (repository, check_time)
read_parameters (p ∷ parameters) repository check_time =
    read_parameters parameters
      (if p.name == firmware_update_repository then p.value else repository)
      (if p.name == firmware_update_repository
        then check_time
        else if p.name == firmware_update_check_time
        then p.value
        else check_time)

module _ {Wire Fs : Type 0} where
  abbrev pub is_installer : FirmwareUpdateService Wire Fs → Bool
  is_installer s = s.installer

  abbrev pub is_parameter_listener : FirmwareUpdateService Wire Fs → Bool
  is_parameter_listener s = s.parameters_listener

  abbrev pub session_file_of : Text → FirmwareUpdateService Wire Fs → Text
  session_file_of device_key s = s.session_file ++ (codes "_" ++ device_key)

  -- `m_installation.find(deviceKey) != m_installation.cend() && m_installation[deviceKey]`.
  abbrev pub is_installing : Text → FirmwareUpdateService Wire Fs → Bool
  is_installing device_key s = elim (lookup device_key s.installation) [
    | none ↦ false
    | some ongoing ↦ ongoing
  ]

  unfoldable pub receive_parameters :
      List Parameter → FirmwareUpdateService Wire Fs → FirmwareUpdateService Wire Fs
  receive_parameters parameters s = record s {
    received = s.received ++ read_parameters parameters [] [] ∷ [];
  }

  unfoldable pub obtain_parameters_and_announce :
      Text → FirmwareUpdateService Wire Fs → FirmwareUpdateService Wire Fs
  obtain_parameters_and_announce device_key s = if not s.parameters_listener then s else record s {
    synchronized =
        s.synchronized
        ++ (device_key, firmware_update_repository ∷ (firmware_update_check_time ∷ [])) ∷ [];
  }

module _ {Wire Fs : Type 0} (e : Surroundings Wire Fs) where
  unfoldable pub get_version_for_device : Text → FirmwareUpdateService Wire Fs → Text
  get_version_for_device device_key s =
      if s.installer
      then e.get_firmware_version s.installs device_key
      else if s.parameters_listener
      then e.listener_version
      else []

  unfoldable pub send_status_message :
      Text
      → FirmwareUpdateStatus
      → FirmwareUpdateError
      → FirmwareUpdateService Wire Fs
      → FirmwareUpdateService Wire Fs
  send_status_message device_key status error s =
      elim (e.make_outbound_message device_key status error) [
        | none ↦ s
        | some wire ↦ record s { sent = s.sent ++ wire ∷ [] }
      ]

  unfoldable pub queue_status_message :
      Text
      → FirmwareUpdateStatus
      → FirmwareUpdateError
      → FirmwareUpdateService Wire Fs
      → FirmwareUpdateService Wire Fs
  queue_status_message device_key status error s =
      elim (e.make_outbound_message device_key status error) [
        | none ↦ s
        | some wire ↦ record s { queue = s.queue ++ wire ∷ [] }
      ]

  unfoldable pub store_session_file :
      Text → Text → FirmwareUpdateService Wire Fs → FirmwareUpdateService Wire Fs
  store_session_file device_key version s = record s {
    disk = (e.create_file_with_content s.disk (session_file_of device_key s) version).0;
  }

  unfoldable pub delete_session_file :
      Text → FirmwareUpdateService Wire Fs → FirmwareUpdateService Wire Fs
  delete_session_file device_key s = record s {
    disk = (e.delete_file s.disk (session_file_of device_key s)).0;
  }

  unfoldable pub load_state : Text → FirmwareUpdateService Wire Fs → FirmwareUpdateService Wire Fs
  load_state device_key s = elim (e.read_file_content s.disk (session_file_of device_key s)) [
    | none ↦
        queue_status_message device_key FirmwareUpdateStatus.error FirmwareUpdateError.unknown
          (delete_session_file device_key s)
    | some content ↦
        if not s.installer
        then queue_status_message device_key FirmwareUpdateStatus.error FirmwareUpdateError.unknown
            (delete_session_file device_key s)
        else if e.was_firmware_install_successful device_key content
        then delete_session_file device_key (
            queue_status_message device_key FirmwareUpdateStatus.success FirmwareUpdateError.none s)
        else delete_session_file device_key (
            queue_status_message device_key FirmwareUpdateStatus.error
              FirmwareUpdateError.installation_failed s)
  ]

  -- The path that the installer is given.
  unfoldable pub message_path : Text → Text → FirmwareUpdateService Wire Fs → Text
  message_path device_key file s = elim s.file_location [
    | none ↦ file
    | some location ↦ e.compose_path file (e.absolute_path (e.compose_path device_key location))
  ]

  -- The switch on the installer's answer.
  unfoldable pub conclude :
      Text → InstallResponse → FirmwareUpdateService Wire Fs → FirmwareUpdateService Wire Fs
  conclude device_key InstallResponse.failed_to_install s = delete_session_file device_key (
      send_status_message device_key FirmwareUpdateStatus.error
        FirmwareUpdateError.installation_failed s)
  conclude device_key InstallResponse.no_file s =
      delete_session_file device_key (
        send_status_message device_key FirmwareUpdateStatus.error FirmwareUpdateError.unknown_file
          s)
  conclude device_key InstallResponse.will_install s =
      send_status_message device_key FirmwareUpdateStatus.installing FirmwareUpdateError.none
        (record s { installation = insert device_key true s.installation })
  conclude device_key InstallResponse.installed s =
      delete_session_file device_key
        (send_status_message device_key FirmwareUpdateStatus.success FirmwareUpdateError.none s)

  unfoldable pub on_firmware_install :
      Text → Text → FirmwareUpdateService Wire Fs → FirmwareUpdateService Wire Fs
  on_firmware_install device_key file s =
      if is_installing device_key s
      then s
      else (let path = message_path device_key file s in
          let t =
            send_status_message device_key FirmwareUpdateStatus.installing FirmwareUpdateError.none
              (store_session_file device_key (e.get_firmware_version s.installs device_key) s) in
          conclude device_key (e.install_firmware s.installs device_key path)
            (record t { installs = t.installs ++ (device_key, path) ∷ [] }))

  unfoldable pub on_firmware_abort :
      Text → FirmwareUpdateService Wire Fs → FirmwareUpdateService Wire Fs
  on_firmware_abort device_key s =
      if is_installing device_key s && s.installer
      then record s { aborts = s.aborts ++ device_key ∷ [] }
      else s

  unfoldable pub message_received :
      Option Wire → FirmwareUpdateService Wire Fs → FirmwareUpdateService Wire Fs
  message_received none s = s
  message_received (some wire) s = if not s.installer then s else elim (e.get_message_type wire) [
    | firmware_update_install ↦ elim (e.parse_firmware_update_install wire) [
      | none ↦ s
      | some file ↦ on_firmware_install (e.get_device_key wire) file s
    ]
    | firmware_update_abort ↦
        if e.parse_firmware_update_abort wire
        then on_firmware_abort (e.get_device_key wire) s
        else s
    | other ↦ s
  ]
