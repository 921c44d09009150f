-- ===== src/Builder/Options.antt =====
-- What the setters of a builder can come to.
use wolk_connect_task.Prelude.{
  is_some, Text, ℕ, ◌≡◌, refl, Bool, true, not, ◌||◌, ◌&&◌, Option, List, arith,
}
use wolk_connect_task.Sdk.{Device}
use wolk_connect_task.Data.{DataProtocol}
use wolk_connect_task.Firmware.{FirmwareInstaller}
use wolk_connect_task.Builder.{
  WolkBuilder, wolk_builder, with_host, with_ca_cert_path, with_feed_update_handler_lambda,
  with_feed_update_handler, with_parameter_handler_lambda, with_parameter_handler, with_persistence,
  with_data_protocol, with_error_protocol, with_file_transfer, with_file_url_download,
  with_file_listener, with_firmware_installer, with_firmware_parameters_listener,
  with_platform_status, with_registration,
}

-- The builders that come of the setters.
pub data Configured {Wire P : Type 0} : WolkBuilder Wire P → Type 0 where
  start :
      (p : P) (protocol : DataProtocol Wire) (devices : List Device)
      → Configured (wolk_builder p protocol devices)
  host : (h : Text) (b : WolkBuilder Wire P) → Configured b → Configured (with_host h b)
  ca_cert_path :
      (path : Text) (b : WolkBuilder Wire P) → Configured b → Configured (with_ca_cert_path path b)
  feed_lambda :
      (f : Option ℕ) (b : WolkBuilder Wire P)
      → Configured b
      → Configured (with_feed_update_handler_lambda f b)
  feed_handler :
      (f : Option ℕ) (b : WolkBuilder Wire P)
      → Configured b
      → Configured (with_feed_update_handler f b)
  parameter_lambda :
      (f : Option ℕ) (b : WolkBuilder Wire P)
      → Configured b
      → Configured (with_parameter_handler_lambda f b)
  parameter_handler :
      (f : Option ℕ) (b : WolkBuilder Wire P)
      → Configured b
      → Configured (with_parameter_handler f b)
  persistence :
      (p : Option P) (b : WolkBuilder Wire P) → Configured b → Configured (with_persistence p b)
  data_protocol :
      (p : Option (DataProtocol Wire)) (b : WolkBuilder Wire P)
      → Configured b
      → Configured (with_data_protocol p b)
  error_protocol :
      (n : ℕ) (b : WolkBuilder Wire P) → Configured b → Configured (with_error_protocol n b)
  file_transfer :
      (location : Text) (n : ℕ) (b : WolkBuilder Wire P)
      → Configured b
      → Configured (with_file_transfer location n b)
  file_url_download :
      (location : Text) (downloader enabled : Bool) (n : ℕ) (b : WolkBuilder Wire P)
      → Configured b
      → Configured (with_file_url_download location downloader enabled n b)
  file_listener :
      (l : Bool) (b : WolkBuilder Wire P) → Configured b → Configured (with_file_listener l b)
  firmware_installer :
      (i : Option FirmwareInstaller) (directory : Text) (b : WolkBuilder Wire P)
      → Configured b
      → Configured (with_firmware_installer i directory b)
  firmware_listener :
      (l : Option Text) (directory : Text) (b : WolkBuilder Wire P)
      → Configured b
      → Configured (with_firmware_parameters_listener l directory b)
  platform_status :
      (l : Option ℕ) (b : WolkBuilder Wire P) → Configured b → Configured (with_platform_status l b)
  registration : (b : WolkBuilder Wire P) → Configured b → Configured (with_registration b)

module _ {Wire P : Type 0} where
  -- One of the two kinds of transfer is enabled when the file management is.
  abbrev pub Enabled : WolkBuilder Wire P → Type 0
  Enabled b =
      (not b.file_management_protocol || b.file_transfer_enabled || b.file_transfer_url_enabled)
      ≡ true

  pub Configured-Enabled : {b : WolkBuilder Wire P} → Configured b → Enabled b
  unfolding wolk_builder with_host with_ca_cert_path with_feed_update_handler_lambda
      with_feed_update_handler with_parameter_handler_lambda with_parameter_handler with_persistence
      with_data_protocol with_error_protocol with_file_transfer with_file_url_download
      with_file_listener with_firmware_installer with_firmware_parameters_listener
      with_platform_status with_registration
  Configured-Enabled {b = _} (Configured.start p protocol devices) = refl
  Configured-Enabled {b = _} (Configured.host h b r) = ground (arith, Configured-Enabled r)
  Configured-Enabled {b = _} (Configured.ca_cert_path path b r) =
      ground (arith, Configured-Enabled r)
  Configured-Enabled {b = _} (Configured.feed_lambda f b r) = ground (arith, Configured-Enabled r)
  Configured-Enabled {b = _} (Configured.feed_handler f b r) = ground (arith, Configured-Enabled r)
  Configured-Enabled {b = _} (Configured.parameter_lambda f b r) =
      ground (arith, Configured-Enabled r)
  Configured-Enabled {b = _} (Configured.parameter_handler f b r) =
      ground (arith, Configured-Enabled r)
  Configured-Enabled {b = _} (Configured.persistence p b r) = ground (arith, Configured-Enabled r)
  Configured-Enabled {b = _} (Configured.data_protocol p b r) = ground (arith, Configured-Enabled r)
  Configured-Enabled {b = _} (Configured.error_protocol n b r) =
      ground (arith, Configured-Enabled r)
  Configured-Enabled {b = _} (Configured.file_transfer location n b r) =
      ground (arith, Configured-Enabled r)
  Configured-Enabled {b = _} (Configured.file_url_download location downloader enabled n b r) =
      ground (arith, Configured-Enabled r)
  Configured-Enabled {b = _} (Configured.file_listener l b r) = ground (arith, Configured-Enabled r)
  Configured-Enabled {b = _} (Configured.firmware_installer i directory b r) =
      ground (arith, Configured-Enabled r)
  Configured-Enabled {b = _} (Configured.firmware_listener l directory b r) =
      ground (arith, Configured-Enabled r)
  Configured-Enabled {b = _} (Configured.platform_status l b r) =
      ground (arith, Configured-Enabled r)
  Configured-Enabled {b = _} (Configured.registration b r) = ground (arith, Configured-Enabled r)

  -- Firmware updates are not asked for, or an object for them was given.
  abbrev pub has_firmware : WolkBuilder Wire P → Bool
  has_firmware b =
      not b.firmware_update_protocol
      || is_some b.firmware_installer
      || is_some b.firmware_parameters_listener

  -- No pointer that is dereferenced is null.
  abbrev pub is_complete : WolkBuilder Wire P → Bool
  is_complete b = has_firmware b && (is_some b.persistence && is_some b.data_protocol)
