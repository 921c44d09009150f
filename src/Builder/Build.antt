-- ===== src/Builder/Build.antt =====
-- wolk/WolkBuilder.cpp: build, buildWolkSingle and buildWolkMulti.
use wolk_connect_task.Prelude.{
  Text, Bool, true, false, not, Option, none, some, List, [], ◌∷◌, ◌++◌, is_empty, codes, nat_eq,
  if◌then◌else◌,
}
use mathlib.Core.List.{map}
use wolk_connect_task.Sdk.{Device}
use wolk_connect_task.FileManagement.Service.{FileManagementService}
use wolk_connect_task.Firmware.{FirmwareUpdateService}
use wolk_connect_task.PlatformStatus.{PlatformStatusService}
use wolk_connect_task.Wolk.{
  Surroundings, Wolk, WolkInterfaceType, single_device, multi_device, gateway,
}
use wolk_connect_task.Builder.{WolkBuilder}
use wolk_connect_task.Builder.Services.{
  surroundings_of, new_data_service, new_file_management_service, new_firmware_update_service,
  load_states, set_file_parameters, set_firmware_parameters, new_wolk,
}

pub data BuildError : Type 0 where
  unsupported_type both_flags_disabled not_one_device empty_key empty_password : BuildError

-- What the object listens to, in the order in which the listeners are added.
pub data Listener : Type 0 where
  data_service error_service file_management_service firmware_update_service platform_status_service
        registration_service :
      Listener

unfoldable pub has_empty_key : List Device → Bool
has_empty_key [] = false
has_empty_key (device ∷ devices) = if is_empty device.key then true else has_empty_key devices

-- The object with what it was connected to: `client` is the key and the password of the connection.
pub record Built (Wire P Fs D Info Status : Type 0) : Type 0 where
  pub surroundings : Surroundings Wire P Fs D Info
  pub wolk : Wolk Wire P Fs Info
  pub platform_status : Option (PlatformStatusService Status)
  pub device_keys : List Text
  pub listeners : List Listener
  pub client : Text × Text
  pub host : Option Text
  pub ca_cert_path : Option Text

-- `undefined` is a null pointer dereferenced.
pub data Outcome (A : Type 0) : Type 0 where
  thrown : BuildError → Outcome A
  undefined : Outcome A
  built : A → Outcome A

abbrev pub keys_of : List Device → List Text
keys_of devices = map (λ d. d.key) devices

module _ {Wire P : Type 0} where
  abbrev pub listeners_of : WolkBuilder Wire P → List Listener
  listeners_of b =
      Listener.data_service
      ∷ (Listener.error_service
          ∷ ((if b.file_management_protocol then Listener.file_management_service ∷ [] else [])
              ++ ((if b.firmware_update_protocol then Listener.firmware_update_service ∷ [] else [])
                  ++ ((if b.platform_status_protocol
                        then Listener.platform_status_service ∷ []
                        else [])
                      ++ (if b.registration_protocol
                          then Listener.registration_service ∷ []
                          else [])))))

module _ {Wire P Fs D Info : Type 0} (e : Surroundings Wire P Fs D Info) where
  -- The state of the firmware is loaded, if its protocol was set.
  abbrev pub loaded : Fs → WolkBuilder Wire P → Option (Option (FirmwareUpdateService Wire Fs))
  loaded disk b =
      if b.firmware_update_protocol
      then load_states e b.devices b (new_firmware_update_service e disk b)
      else some none

module _ {Wire P Fs D Info Status : Type 0} (e : Surroundings Wire P Fs D Info) where
  -- The object and its listeners, once the services are made.
  abbrev pub finished :
      WolkInterfaceType
      → Text × Text
      → Option (FileManagementService Wire Fs)
      → Option (FirmwareUpdateService Wire Fs)
      → P
      → WolkBuilder Wire P
      → Built Wire P Fs D Info Status
  finished type client files firmware persistence b = record {
    surroundings = surroundings_of e b;
    wolk =
        new_wolk type b
          (set_firmware_parameters e b.devices b
            (set_file_parameters e b.devices b (new_data_service persistence)))
          files firmware;
    platform_status =
        if b.platform_status_protocol
        then some
            (record { listener = b.platform_status_listener; command_buffer = []; heard = [] })
        else none;
    device_keys = (elim type [ multi_device ↦ codes "+" ∷ [] | _ ↦ [] ]) ++ keys_of b.devices;
    listeners = listeners_of b;
    client = client;
    host = b.host;
    ca_cert_path = b.ca_cert_path;
  }

  unfoldable pub build_with :
      WolkInterfaceType
      → Text × Text
      → Fs
      → Option (FileManagementService Wire Fs)
      → P
      → WolkBuilder Wire P
      → Outcome (Built Wire P Fs D Info Status)
  build_with type client disk files persistence b = elim (loaded e disk b) [
    | none ↦ undefined
    | some firmware ↦ built (finished type client files firmware persistence b)
  ]

  -- `build` after the data service was made over the persistence.
  unfoldable pub build_over :
      WolkInterfaceType
      → Text × Text
      → Fs
      → P
      → WolkBuilder Wire P
      → Outcome (Built Wire P Fs D Info Status)
  build_over type client disk persistence b =
      if not b.file_management_protocol
      then build_with type client disk none persistence b
      else elim (new_file_management_service e disk b) [
        | none ↦ thrown both_flags_disabled
        | some s ↦ build_with type client s.disk (some s) persistence b
      ]

  -- `build` after the type was looked at: the data service takes what both pointers point to.
  unfoldable pub build_as :
      WolkInterfaceType
      → Text × Text
      → Fs
      → WolkBuilder Wire P
      → Outcome (Built Wire P Fs D Info Status)
  build_as type client disk b = elim b.data_protocol [
    | none ↦ undefined
    | some protocol ↦ elim b.persistence [
      | none ↦ undefined
      | some persistence ↦ build_over type client disk persistence b
    ]
  ]

  unfoldable pub build :
      WolkInterfaceType → Fs → WolkBuilder Wire P → Outcome (Built Wire P Fs D Info Status)
  build single_device disk b = elim b.devices [
    | [] ↦ undefined
    | device ∷ devices ↦ build_as single_device (device.key, device.password) disk b
  ]
  build multi_device disk b = build_as multi_device ([], []) disk b
  build gateway disk b = thrown unsupported_type

  unfoldable pub build_wolk_single :
      Fs → WolkBuilder Wire P → Outcome (Built Wire P Fs D Info Status)
  build_wolk_single disk b = elim b.devices [
    | [] ↦ thrown not_one_device
    | device ∷ devices ↦
        if not (is_empty devices)
        then thrown not_one_device
        else if is_empty device.key
        then thrown empty_key
        else if is_empty device.password
        then thrown empty_password
        else build single_device disk b
  ]

  unfoldable pub build_wolk_multi :
      Fs → WolkBuilder Wire P → Outcome (Built Wire P Fs D Info Status)
  build_wolk_multi disk b =
      if has_empty_key b.devices then thrown empty_key else build multi_device disk b
