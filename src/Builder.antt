-- ===== src/Builder.antt =====
-- wolk/WolkBuilder.{h,cpp}: the options that the user sets.
pub mod Services
pub mod Build
pub mod Options
pub mod Outcomes
use wolk_connect_task.Prelude.{
  Text, ℕ, Bool, true, false, Option, none, some, List, [], ◌∷◌, if◌then◌else◌,
}
use wolk_connect_task.Sdk.{Device}
use wolk_connect_task.Data.{DataProtocol}
use wolk_connect_task.Firmware.{FirmwareInstaller}

-- A `Bool` says that a pointer is set. The listener of firmware parameters is the version that it
-- answers with. `host` and `ca_cert_path` hold `none` as long as they have their defaults, the kind
-- of the persistence is fixed, and the protocols that only the SDK implements are set or not.
pub record WolkBuilder (Wire P : Type 0) : Type 0 where
  pub devices : List Device
  pub host : Option Text
  pub ca_cert_path : Option Text
  pub feed_update_handler : Option ℕ
  pub feed_update_handler_lambda : Option ℕ
  pub parameter_handler : Option ℕ
  pub parameter_handler_lambda : Option ℕ
  pub persistence : Option P
  pub data_protocol : Option (DataProtocol Wire)
  pub error_retain_time : ℕ
  pub file_management_protocol : Bool
  pub firmware_update_protocol : Bool
  pub platform_status_protocol : Bool
  pub registration_protocol : Bool
  pub file_downloader : Bool
  pub file_download_directory : Text
  pub file_transfer_enabled : Bool
  pub file_transfer_url_enabled : Bool
  pub max_packet_size : ℕ
  pub file_listener : Bool
  pub firmware_installer : Option FirmwareInstaller
  pub working_directory : Text
  pub firmware_parameters_listener : Option Text
  pub platform_status_listener : Option ℕ

module _ {Wire P : Type 0} where
  -- `InMemoryPersistence` and `WolkaboutDataProtocol` are given.
  unfoldable pub wolk_builder : P → DataProtocol Wire → List Device → WolkBuilder Wire P
  wolk_builder persistence protocol devices = record {
    devices = devices;
    host = none;
    ca_cert_path = none;
    feed_update_handler = none;
    feed_update_handler_lambda = none;
    parameter_handler = none;
    parameter_handler_lambda = none;
    persistence = some persistence;
    data_protocol = some protocol;
    error_retain_time = 1000;
    file_management_protocol = false;
    firmware_update_protocol = false;
    platform_status_protocol = false;
    registration_protocol = false;
    file_downloader = false;
    file_download_directory = [];
    file_transfer_enabled = false;
    file_transfer_url_enabled = false;
    max_packet_size = 0;
    file_listener = false;
    firmware_installer = none;
    working_directory = [];
    firmware_parameters_listener = none;
    platform_status_listener = none;
  }

  unfoldable pub with_host : Text → WolkBuilder Wire P → WolkBuilder Wire P
  with_host host b = record b { host = some host }

  unfoldable pub with_ca_cert_path : Text → WolkBuilder Wire P → WolkBuilder Wire P
  with_ca_cert_path path b = record b { ca_cert_path = some path }

  unfoldable pub with_feed_update_handler_lambda :
      Option ℕ → WolkBuilder Wire P → WolkBuilder Wire P
  with_feed_update_handler_lambda handler b = record b {
    feed_update_handler_lambda = handler;
    feed_update_handler = none;
  }

  unfoldable pub with_feed_update_handler : Option ℕ → WolkBuilder Wire P → WolkBuilder Wire P
  with_feed_update_handler handler b = record b {
    feed_update_handler = handler;
    feed_update_handler_lambda = none;
  }

  unfoldable pub with_parameter_handler_lambda : Option ℕ → WolkBuilder Wire P → WolkBuilder Wire P
  with_parameter_handler_lambda handler b = record b {
    parameter_handler_lambda = handler;
    parameter_handler = none;
  }

  unfoldable pub with_parameter_handler : Option ℕ → WolkBuilder Wire P → WolkBuilder Wire P
  with_parameter_handler handler b = record b {
    parameter_handler = handler;
    parameter_handler_lambda = none;
  }

  unfoldable pub with_persistence : Option P → WolkBuilder Wire P → WolkBuilder Wire P
  with_persistence persistence b = record b { persistence = persistence }

  unfoldable pub with_data_protocol :
      Option (DataProtocol Wire) → WolkBuilder Wire P → WolkBuilder Wire P
  with_data_protocol protocol b = record b { data_protocol = protocol }

  unfoldable pub with_error_protocol : ℕ → WolkBuilder Wire P → WolkBuilder Wire P
  with_error_protocol retain_time b = record b { error_retain_time = retain_time }

  unfoldable pub with_file_transfer : Text → ℕ → WolkBuilder Wire P → WolkBuilder Wire P
  with_file_transfer location size b = record b {
    file_management_protocol = true;
    file_download_directory = location;
    file_transfer_enabled = true;
    file_transfer_url_enabled = false;
    file_downloader = false;
    max_packet_size = size;
  }

  unfoldable pub with_file_url_download :
      Text → Bool → Bool → ℕ → WolkBuilder Wire P → WolkBuilder Wire P
  with_file_url_download location downloader transfer_enabled size b = record b {
    file_management_protocol = true;
    file_download_directory = location;
    file_transfer_enabled = if b.file_transfer_enabled then true else transfer_enabled;
    file_transfer_url_enabled = true;
    file_downloader = downloader;
    max_packet_size = size;
  }

  unfoldable pub with_file_listener : Bool → WolkBuilder Wire P → WolkBuilder Wire P
  with_file_listener listener b = record b { file_listener = listener }

  unfoldable pub with_firmware_installer :
      Option FirmwareInstaller → Text → WolkBuilder Wire P → WolkBuilder Wire P
  with_firmware_installer installer directory b = record b {
    firmware_update_protocol = true;
    firmware_parameters_listener = none;
    firmware_installer = installer;
    working_directory = directory;
  }

  unfoldable pub with_firmware_parameters_listener :
      Option Text → Text → WolkBuilder Wire P → WolkBuilder Wire P
  with_firmware_parameters_listener listener directory b = record b {
    firmware_update_protocol = true;
    firmware_installer = none;
    firmware_parameters_listener = listener;
    working_directory = directory;
  }

  unfoldable pub with_platform_status : Option ℕ → WolkBuilder Wire P → WolkBuilder Wire P
  with_platform_status listener b = record b {
    platform_status_protocol = true;
    platform_status_listener = listener;
  }

  unfoldable pub with_registration : WolkBuilder Wire P → WolkBuilder Wire P
  with_registration b = record b { registration_protocol = true }
