-- ===== src/Examples/Senders.antt =====
-- examples/simple, examples/register_feed_and_attribute and examples/debian-package-installation:
-- their builders, their starts and the bodies of their loops.
use wolk_connect_task.Prelude.{Text, ℕ, some, [], ◌∷◌, codes}
use wolk_connect_task.Sdk.{Device}
use wolk_connect_task.Data.{DataProtocol}
use wolk_connect_task.Firmware.{FirmwareInstaller}
use wolk_connect_task.Wolk.{Wolk, publish}
use wolk_connect_task.Wolk.Single.{add_string_reading, register_feed, add_attribute}
use wolk_connect_task.Builder.{
  WolkBuilder, wolk_builder, with_host, with_ca_cert_path, with_file_transfer,
  with_firmware_installer,
}
use wolk_connect_task.Examples.{example_device, ca_cert_path, max_packet_size}

-- The credentials of the example with the installer of Debian packages.
abbrev pub debian_device : Device
debian_device = record { key = codes "AWC"; password = codes "0ZY4R8VSSD" }

module _ {Wire P : Type 0} (store : P) (protocol : DataProtocol Wire) where
  unfoldable pub simple_builder : WolkBuilder Wire P
  simple_builder =
      with_host (codes "tcp://INSERT_HOSTNAME:PORT")
        (wolk_builder store protocol (example_device ∷ []))

  unfoldable pub register_builder : WolkBuilder Wire P
  register_builder = with_ca_cert_path ca_cert_path (
      with_host (codes "ssl://INSERT_HOSTNAME:PORT")
        (wolk_builder store protocol (example_device ∷ [])))

  -- The installer was started before.
  unfoldable pub debian_builder : FirmwareInstaller → WolkBuilder Wire P
  debian_builder installer = with_firmware_installer (some installer) (codes "./") (
      with_file_transfer (codes "./files") max_packet_size (
        with_ca_cert_path ca_cert_path (
          with_host (codes "ssl://integration5.wolkabout.com:8883")
            (wolk_builder store protocol (debian_device ∷ [])))))

module _ {Wire P Fs Info : Type 0} where
  -- The loop sends a random value, given as a text, under a reference.
  unfoldable pub send_value : Text → ℕ → Text → Wolk Wire P Fs Info → Wolk Wire P Fs Info
  send_value reference now value w = publish (add_string_reading now reference value 0 w)

  abbrev pub simple_turn : ℕ → Text → Wolk Wire P Fs Info → Wolk Wire P Fs Info
  simple_turn = send_value (codes "T")

  abbrev pub register_turn : ℕ → Text → Wolk Wire P Fs Info → Wolk Wire P Fs Info
  register_turn = send_value (codes "NF")

  -- The units and the types of data are those of the SDK, given as texts.
  unfoldable pub register_things : Text → Text → Text → Wolk Wire P Fs Info → Wolk Wire P Fs Info
  register_things numeric numeric_type time w =
      add_attribute
        (record {
          name = codes "Device activation timestamp";
          data_type = numeric_type;
          value = time;
        })
        (register_feed (record { name = codes "New Feed"; reference = codes "NF"; unit = numeric })
          w)
