-- ===== src/Examples/FullFeature.antt =====
-- examples/full_feature: the data of the device, the handler of the feeds, and the loop.
pub mod Runs
use wolk_connect_task.Prelude.{
  Text, ℕ, Bool, true, false, not, ◌||◌, Option, some, List, [], ◌∷◌, codes, nat_eq, text_eq, ◌==◌,
  if◌then◌else◌,
}
use wolk_connect_task.Sdk.{Reading}
use wolk_connect_task.Data.{DataProtocol}
use wolk_connect_task.Firmware.{FirmwareInstaller, will_install}
use wolk_connect_task.Wolk.{Surroundings, Wolk, publish, disconnect}
use wolk_connect_task.Wolk.Single.{add_string_reading, obtain_details}
use wolk_connect_task.Builder.{
  WolkBuilder, wolk_builder, with_host, with_ca_cert_path, with_feed_update_handler,
  with_parameter_handler, with_persistence, with_file_transfer, with_file_listener,
  with_firmware_installer,
}
use wolk_connect_task.Builder.Build.{Outcome, thrown, undefined, built}
use wolk_connect_task.Examples.{example_device, ca_cert_path, max_packet_size, build_and_connect}

-- What the SDK reads of a reading and writes of a number; the seconds are the 64 bits of the count.
pub record Conversions (T : Type 0) : Type 0 where
  pub get_bool_value : Reading → Bool
  pub get_uint_value : Reading → ℕ
  pub double_text : T → Text
  pub bool_text : Bool → Text
  pub seconds_text : ℕ → Text

pub record DeviceData (T : Type 0) : Type 0 where
  pub temperature : T
  pub toggle : Bool
  pub heartbeat : ℕ

-- Where the loop is: at its head, after it has published, asleep, and behind it. It keeps the
-- interval that it read.
pub data Phase : Type 0 where
  looping ended : Phase
  published waiting : ℕ → Phase

pub record FullFeature (T W : Type 0) : Type 0 where
  pub wolk : W
  pub device_info : DeviceData T
  pub running : Bool
  pub phase : Phase

unfoldable pub get_firmware_version : List (Text × Text) → Text → Text
get_firmware_version installs device_key = codes "4.0.0"

-- The interface's own: the version has changed.
unfoldable pub was_firmware_install_successful : (Text → Text) → Text → Text → Bool
was_firmware_install_successful version device_key old_version =
    not (old_version == version device_key)

abbrev pub example_installer : FirmwareInstaller
example_installer = record {
  get_firmware_version = get_firmware_version;
  install_firmware = λ installs device_key file_name. will_install;
  was_firmware_install_successful = was_firmware_install_successful (get_firmware_version []);
}

module _ {T : Type 0} (c : Conversions T) where
  unfoldable pub handle_reading : Reading → DeviceData T → DeviceData T
  handle_reading reading data_of =
      if reading.reference == codes "SW"
      then record data_of { toggle = c.get_bool_value reading }
      else if reading.reference == codes "HB"
      then record data_of { heartbeat = c.get_uint_value reading }
      else data_of

  unfoldable pub handle_readings : List Reading → DeviceData T → DeviceData T
  handle_readings [] data_of = data_of
  handle_readings (reading ∷ readings) data_of =
      handle_readings readings (handle_reading reading data_of)

  -- The times are those of the map, in their order.
  unfoldable pub handle_update : List (ℕ × List Reading) → DeviceData T → DeviceData T
  handle_update [] data_of = data_of
  handle_update ((time, readings) ∷ pairs) data_of =
      handle_update pairs (handle_readings readings data_of)

-- What happens to the program: its thread goes on, with the time and the temperature that it draws;
-- its sleep is looked at, notified or timed out; the signal to stop; and an update of the feeds.
pub data Event (T : Type 0) : Type 0 where
  pass : ℕ → T → Event T
  wake : Bool → Event T
  interrupt : Event T
  feeds : List (ℕ × List Reading) → Event T

module _ {T Wire P Fs Info : Type 0} (c : Conversions T) where
  abbrev pub publish_data : ℕ → DeviceData T → Wolk Wire P Fs Info → Wolk Wire P Fs Info
  publish_data now data_of w = publish (
      add_string_reading now (codes "HB") (c.seconds_text data_of.heartbeat) 0 (
        add_string_reading now (codes "SW") (c.bool_text data_of.toggle) 0
          (add_string_reading now (codes "T") (c.double_text data_of.temperature) 0 w)))

  -- The head of the loop.
  unfoldable pub turn :
      ℕ → T → FullFeature T (Wolk Wire P Fs Info) → FullFeature T (Wolk Wire P Fs Info)
  turn now value p =
      if not p.running
      then record p { wolk = disconnect p.wolk; phase = ended }
      else if p.device_info.heartbeat == 0
      then p
      else (let drawn : DeviceData T = record p.device_info { temperature = value } in
          record p {
            wolk = publish_data now drawn p.wolk;
            device_info = drawn;
            phase = published drawn.heartbeat;
          })

  unfoldable pub step :
      Event T → FullFeature T (Wolk Wire P Fs Info) → FullFeature T (Wolk Wire P Fs Info)
  step (pass now value) p = elim p.phase [
    | looping ↦ turn now value p
    | published n ↦ record p { phase = if p.running then waiting n else looping }
    | waiting n ↦ p
    | ended ↦ p
  ]
  step (wake timed_out) p = elim p.phase [
    | waiting n ↦
        if timed_out || not (n == p.device_info.heartbeat) then record p { phase = looping } else p
    | _ ↦ p
  ]
  step interrupt p = record p { running = false }
  step (feeds pairs) p = record p { device_info = handle_update c pairs p.device_info }

  unfoldable pub run :
      List (Event T) → FullFeature T (Wolk Wire P Fs Info) → FullFeature T (Wolk Wire P Fs Info)
  run [] p = p
  run (event ∷ events) p = run events (step event p)

module _ {Wire P : Type 0} (store : P) (protocol : DataProtocol Wire) where
  -- The two handlers are named by numbers; the persistence is in memory.
  unfoldable pub full_feature_builder : ℕ → ℕ → WolkBuilder Wire P
  full_feature_builder feed_handler parameter_handler =
      with_firmware_installer (some example_installer) (codes "./") (
        with_file_listener true (
          with_file_transfer (codes "./files") max_packet_size (
            with_persistence (some store) (
              with_parameter_handler (some parameter_handler) (
                with_feed_update_handler (some feed_handler) (
                  with_ca_cert_path ca_cert_path (
                    with_host (codes "ssl://INSERT_HOSTNAME:PORT")
                      (wolk_builder store protocol (example_device ∷ [])))))))))

module _ {T Wire P Fs D Info : Type 0} (Status : Type 0) (e : Surroundings Wire P Fs D Info) where
  -- From the start to the loop; `zero` is the double 0, and the details go to a callback.
  unfoldable pub start :
      P → DataProtocol Wire → Fs → ℕ → ℕ → ℕ → T → Outcome (FullFeature T (Wolk Wire P Fs Info))
  start store protocol disk feed_handler parameter_handler details_callback zero =
      elim (build_and_connect Status e disk
        (full_feature_builder store protocol feed_handler parameter_handler)) [
          | thrown error ↦ thrown error
          | undefined ↦ undefined
          | built w ↦ built (record {
            wolk = obtain_details (some details_callback) w;
            device_info = record { temperature = zero; toggle = false; heartbeat = 5 };
            running = true;
            phase = looping;
          })
        ]
