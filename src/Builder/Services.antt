-- ===== src/Builder/Services.antt =====
-- wolk/WolkBuilder.cpp: the services that are made, with the parameters of the devices.
use wolk_connect_task.Prelude.{
  Text, Bool, true, false, not, ◌||◌, Option, none, some, List, [], ◌∷◌, codes, nat_eq,
  if◌then◌else◌,
}
use wolk_connect_task.Sdk.{
  Device, ParameterName, file_transfer_platform_enabled, file_transfer_url_enabled,
  firmware_update_enabled, firmware_version,
}
use wolk_connect_task.Data.{DataService, update_parameter}
use wolk_connect_task.FileManagement.Service.{FileManagementService}
use wolk_connect_task.FileManagement.Service.Files.{create_folder}
use wolk_connect_task.Firmware.{FirmwareUpdateService, load_state}
use wolk_connect_task.Wolk.{Surroundings, Wolk, WolkInterfaceType}
use wolk_connect_task.Wolk.Multi.Managed.{flag}
use wolk_connect_task.Builder.{WolkBuilder}
use wolk_connect_task.Data

abbrev pub session_file_name : Text
session_file_name = codes ".fw-session"

module _ {Wire P : Type 0} where
  unfoldable pub new_data_service : P → DataService Wire P
  new_data_service persistence = record {
    persistence = persistence;
    attempts = [];
    sent = [];
    retried = [];
    answered = [];
    feed_update_handler = true;
    parameter_sync_handler = true;
    details_sync_handler = true;
    iterator = 0;
    parameter_subscriptions = [];
    details_callbacks = [];
    command_buffer = [];
    calls = [];
  }

  unfoldable pub firmware_version_of : Text → WolkBuilder Wire P → Text
  firmware_version_of key b = elim b.firmware_installer [
    | some installer ↦ installer.get_firmware_version [] key
    | none ↦ elim b.firmware_parameters_listener [ none ↦ [] | some version ↦ version ]
  ]

module _ {Wire P Fs Info : Type 0} where
  -- The object before any device is set up, for a type that can be built.
  unfoldable pub new_wolk :
      WolkInterfaceType
      → WolkBuilder Wire P
      → DataService Wire P
      → Option (FileManagementService Wire Fs)
      → Option (FirmwareUpdateService Wire Fs)
      → Wolk Wire P Fs Info
  new_wolk type b service files firmware = record {
    type = type;
    devices = b.devices;
    connected = false;
    connection_status_listener = none;
    feed_update_handler = b.feed_update_handler;
    feed_update_handler_lambda = b.feed_update_handler_lambda;
    parameter_handler = b.parameter_handler;
    parameter_lambda = b.parameter_handler_lambda;
    attempts = 0;
    disconnects = 0;
    data_service = service;
    error_service = record { retain_time = b.error_retain_time; working = true; cached = [] };
    file_management_service = files;
    firmware_update_service = firmware;
    registration_service =
        if b.registration_protocol
        then some (record {
          attempts = [];
          sent = [];
          device_registration_callbacks = [];
          children_synchronization_callbacks = [];
          device_registration_responses = [];
          command_buffer = [];
        })
        else none;
    registrations = [];
    command_buffer = [];
    heard = [];
  }

module _ {Wire P Fs D Info : Type 0} (e : Surroundings Wire P Fs D Info) where
  -- The protocol and the installer that were set.
  abbrev pub surroundings_of : WolkBuilder Wire P → Surroundings Wire P Fs D Info
  surroundings_of b = record e {
    on_data = record e.on_data {
      protocol = elim b.data_protocol [ none ↦ e.on_data.protocol | some protocol ↦ protocol ];
    };
    on_firmware = record e.on_firmware {
      firmware_installer = elim b.firmware_installer [
        | none ↦ e.on_firmware.firmware_installer
        | some installer ↦ installer
      ];
      listener_version = elim b.firmware_parameters_listener [
        | none ↦ e.on_firmware.listener_version
        | some version ↦ version
      ];
    };
  }

  -- `none` is thrown by the constructor.
  unfoldable pub new_file_management_service :
      Fs → WolkBuilder Wire P → Option (FileManagementService Wire Fs)
  new_file_management_service disk b =
      if not (b.file_transfer_enabled || b.file_transfer_url_enabled)
      then none
      else some (
          create_folder e.on_files (record {
            file_transfer_enabled = b.file_transfer_enabled;
            file_transfer_url_enabled = b.file_transfer_url_enabled;
            file_location = b.file_download_directory;
            files = [];
            sessions = [];
            downloader = b.file_downloader;
            downloaded = [];
            listening = b.file_listener;
            command_buffer = [];
            sent = [];
            calls = [];
            next_session = 0;
            disk = disk;
          }))

  -- The service of the installer, or of the listener, or a null pointer.
  unfoldable pub new_firmware_update_service :
      Fs → WolkBuilder Wire P → Option (FirmwareUpdateService Wire Fs)
  new_firmware_update_service disk b =
      let made : Bool → FirmwareUpdateService Wire Fs = λ installer. record {
        installer = installer;
        parameters_listener = not installer;
        file_location = if b.file_management_protocol then some b.file_download_directory else none;
        session_file = e.on_firmware.compose_path session_file_name b.working_directory;
        installation = [];
        queue = [];
        sent = [];
        installs = [];
        aborts = [];
        synchronized = [];
        received = [];
        disk = disk;
      } in
      elim b.firmware_installer [
        | some installer ↦ some (made true)
        | none ↦ elim b.firmware_parameters_listener [ none ↦ none | some v ↦ some (made false) ]
      ]

  unfoldable pub load_states :
      List Device
      → WolkBuilder Wire P
      → Option (FirmwareUpdateService Wire Fs)
      → Option (Option (FirmwareUpdateService Wire Fs))
  load_states [] b f = some f
  load_states (device ∷ devices) b none = none
  load_states (device ∷ devices) b (some f) =
      load_states devices b (some (load_state (surroundings_of b).on_firmware device.key f))

  abbrev pub set :
      Text → ParameterName → Text → WolkBuilder Wire P → DataService Wire P → DataService Wire P
  set key name value b =
      Data.update_parameter (surroundings_of b).on_data key (record { name = name; value = value })

  -- The two loops that set the parameters.
  unfoldable pub set_file_parameters :
      List Device → WolkBuilder Wire P → DataService Wire P → DataService Wire P
  set_file_parameters [] b s = s
  set_file_parameters (device ∷ devices) b s = set_file_parameters devices b (
      set device.key file_transfer_url_enabled (flag b.file_transfer_url_enabled) b
        (set device.key file_transfer_platform_enabled (flag b.file_transfer_enabled) b s))

  unfoldable pub set_firmware_parameters :
      List Device → WolkBuilder Wire P → DataService Wire P → DataService Wire P
  set_firmware_parameters [] b s = s
  set_firmware_parameters (device ∷ devices) b s = set_firmware_parameters devices b (
      set device.key firmware_version (firmware_version_of device.key b) b
        (set device.key firmware_update_enabled (flag b.firmware_update_protocol) b s))
