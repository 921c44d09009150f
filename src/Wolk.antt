-- ===== src/Wolk.antt =====
-- wolk/WolkInterface.{h,cpp}, with the state that wolk/WolkSingle.h and wolk/WolkMulti.h add: the
-- services, and the commands that wait in the command buffer. The services keep the messages that
-- they send in lists of their own.
pub mod Requests
pub mod Reports
pub mod Single
pub mod Multi
pub mod Run
pub mod Connection
pub mod Deferral
pub mod Devices
use wolk_connect_task.Prelude.{
  Text, ℕ, zero, suc, Bool, true, false, Option, none, some, List, [], ◌∷◌, ◌++◌, if◌then◌else◌,
}
use wolk_connect_task.Sdk.{Reading, Attribute, Parameter, ParameterName, Feed, Device}
use wolk_connect_task.Data.{
  FeedValues, DataService, Call, feed_update, parameter_sync, details_sync,
}
use wolk_connect_task.Data.Publish.{publish_attributes, publish_readings, publish_parameters}
use wolk_connect_task.Data
use wolk_connect_task.FileManagement.Service
use wolk_connect_task.Firmware
use wolk_connect_task.Registration
use wolk_connect_task.Errors.{ErrorService}
use wolk_connect_task.FileManagement.Service.{FileManagementService}
use wolk_connect_task.Firmware.{FirmwareUpdateService}
use wolk_connect_task.Registration.{RegistrationService}

-- wolk/WolkInterfaceType.h.
pub data WolkInterfaceType : Type 0 where
  single_device multi_device gateway : WolkInterfaceType

-- `connects n` says whether the attempt to connect after `n` others succeeds, and
-- `firmware_callback` names the callback that the firmware update service gives the data service.
pub record Surroundings (Wire P Fs D Info : Type 0) : Type 0 where
  pub connects : ℕ → Bool
  pub firmware_callback : ℕ
  pub on_data : Data.Surroundings Wire P
  pub on_files : Service.Surroundings Wire Fs
  pub on_firmware : Firmware.Surroundings Wire Fs
  pub on_registration : Registration.Surroundings Wire D Info

-- A call of the data service that waits.
pub data DataCall : Type 0 where
  add_reading : Text → Reading → DataCall
  add_string_reading : Text → Text → Text → ℕ → DataCall
  add_strings_reading : Text → Text → List Text → ℕ → DataCall
  add_readings : Text → List Reading → DataCall
  pull_feed_values pull_parameters : Text → DataCall
  synchronize_parameters : Text → List ParameterName → Option ℕ → DataCall
  details_synchronization : Text → Option ℕ → DataCall
  register_feed : Text → Feed → DataCall
  register_feeds : Text → List Feed → DataCall
  remove_feed : Text → Text → DataCall
  remove_feeds : Text → List Text → DataCall
  add_attribute : Text → Attribute → DataCall
  update_parameter : Text → Parameter → DataCall

pub data Command : Type 0 where
  connecting : Bool → Command
  disconnecting publishing status_changed : Command
  calling : DataCall → Command
  updating_feeds : Text → FeedValues → Command
  updating_parameters : Text → List Parameter → Command

-- What the user's callbacks hear; each is named by a number.
pub data Heard : Type 0 where
  heard_connection : ℕ → Bool → Heard
  heard_feeds : ℕ → Text → FeedValues → Heard
  heard_parameters : ℕ → Text → List Parameter → Heard
  heard_registration : ℕ → List Text → List Text → Heard

-- `devices` is the list of `WolkMulti`, or the one device of `WolkSingle`. `attempts` counts the
-- attempts to connect, and `disconnects` the calls of `disconnect` on the connection. A handler of
-- feeds or parameters is a `weak_ptr` that still locks, or a lambda. `registrations` are the
-- callbacks that `wrapRegisterCallback` made, with the keys of their devices.
pub record Wolk (Wire P Fs Info : Type 0) : Type 0 where
  pub type : WolkInterfaceType
  pub devices : List Device
  pub connected : Bool
  pub connection_status_listener : Option ℕ
  pub feed_update_handler : Option ℕ
  pub feed_update_handler_lambda : Option ℕ
  pub parameter_handler : Option ℕ
  pub parameter_lambda : Option ℕ
  pub attempts : ℕ
  pub disconnects : ℕ
  pub data_service : DataService Wire P
  pub error_service : ErrorService
  pub file_management_service : Option (FileManagementService Wire Fs)
  pub firmware_update_service : Option (FirmwareUpdateService Wire Fs)
  pub registration_service : Option (RegistrationService Wire Info)
  pub registrations : List (List Text × Option ℕ)
  pub command_buffer : List Command
  pub heard : List Heard

module _ {Wire P Fs Info : Type 0} where
  abbrev pub add_to_command_buffer : Command → Wolk Wire P Fs Info → Wolk Wire P Fs Info
  add_to_command_buffer c w = record w { command_buffer = w.command_buffer ++ c ∷ [] }

  unfoldable pub try_connect : Bool → Wolk Wire P Fs Info → Wolk Wire P Fs Info
  try_connect first_time w = add_to_command_buffer (connecting first_time) w

  unfoldable pub connect : Wolk Wire P Fs Info → Wolk Wire P Fs Info
  connect w = try_connect true w

  unfoldable pub disconnect : Wolk Wire P Fs Info → Wolk Wire P Fs Info
  disconnect w = add_to_command_buffer disconnecting w

  abbrev pub is_connected : Wolk Wire P Fs Info → Bool
  is_connected w = w.connected

  unfoldable pub set_connection_status_listener :
      Option ℕ → Wolk Wire P Fs Info → Wolk Wire P Fs Info
  set_connection_status_listener listener w = record w { connection_status_listener = listener }

  unfoldable pub publish : Wolk Wire P Fs Info → Wolk Wire P Fs Info
  publish w = add_to_command_buffer publishing w

  unfoldable pub notify_connection_status_listener : Wolk Wire P Fs Info → Wolk Wire P Fs Info
  notify_connection_status_listener w = elim w.connection_status_listener [
    | none ↦ w
    | some listener ↦ add_to_command_buffer status_changed w
  ]

  -- The registration service does nothing on its `start`.
  unfoldable pub notify_connected : Wolk Wire P Fs Info → Wolk Wire P Fs Info
  notify_connected w = publish (notify_connection_status_listener (record w { connected = true }))

  unfoldable pub notify_disconnected : Wolk Wire P Fs Info → Wolk Wire P Fs Info
  notify_disconnected w = notify_connection_status_listener (record w { connected = false })

  -- The callback that the builder gives to the connectivity service.
  unfoldable pub on_connection_lost : Wolk Wire P Fs Info → Wolk Wire P Fs Info
  on_connection_lost w = try_connect true (notify_disconnected w)

  unfoldable pub handle_feed_update_command :
      Text → FeedValues → Wolk Wire P Fs Info → Wolk Wire P Fs Info
  handle_feed_update_command device_key values w =
      add_to_command_buffer (updating_feeds device_key values) w

  unfoldable pub handle_parameter_command :
      Text → List Parameter → Wolk Wire P Fs Info → Wolk Wire P Fs Info
  handle_parameter_command device_key parameters w =
      add_to_command_buffer (updating_parameters device_key parameters) w

  -- The callbacks that the builder gives to the data service; the last one writes to the log.
  unfoldable pub relay : List Call → Wolk Wire P Fs Info → Wolk Wire P Fs Info
  relay [] w = w
  relay (feed_update device_key values ∷ calls) w =
      relay calls (handle_feed_update_command device_key values w)
  relay (parameter_sync device_key parameters ∷ calls) w =
      relay calls (handle_parameter_command device_key parameters w)
  relay (details_sync device_key details ∷ calls) w = relay calls w

module _ {Wire P Fs D Info : Type 0} (e : Surroundings Wire P Fs D Info) where
  unfoldable pub flush_attributes : Wolk Wire P Fs Info → Wolk Wire P Fs Info
  flush_attributes w = record w { data_service = publish_attributes e.on_data w.data_service }

  -- `none` says that the fuel of the readings ran out.
  unfoldable pub flush_readings : ℕ → Wolk Wire P Fs Info → Option (Wolk Wire P Fs Info)
  flush_readings fuel w = elim (publish_readings e.on_data fuel w.data_service) [
    | none ↦ none
    | some t ↦ some (record w { data_service = t })
  ]

  unfoldable pub flush_parameters : Wolk Wire P Fs Info → Wolk Wire P Fs Info
  flush_parameters w = record w { data_service = publish_parameters e.on_data w.data_service }
