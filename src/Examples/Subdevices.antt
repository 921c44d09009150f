-- ===== src/Examples/Subdevices.antt =====
-- examples/subdevices: an object for several devices that starts with none.
use wolk_connect_task.Prelude.{Text, ℕ, some, [], codes}
use wolk_connect_task.Sdk.{Device}
use wolk_connect_task.Data.{DataProtocol}
use wolk_connect_task.Wolk.{Surroundings, Wolk, connect, publish}
use wolk_connect_task.Wolk.Multi.{add_string_reading, pull_feed_values, pull_parameters}
use wolk_connect_task.Wolk.Multi.Managed.{add_device}
use wolk_connect_task.Builder.{
  WolkBuilder, wolk_builder, with_host, with_file_transfer, with_platform_status,
  with_error_protocol, with_registration,
}
use wolk_connect_task.Builder.Build.{Built, Outcome, thrown, undefined, built, build_wolk_multi}
use wolk_connect_task.Examples.{max_packet_size}

abbrev pub device_one : Device
device_one = record { key = codes "FirstDevice"; password = [] }

abbrev pub device_two : Device
device_two = record { key = codes "SecondDevice"; password = [] }

abbrev pub device_three : Device
device_three = record { key = codes "ThirdDevice"; password = [] }

module _ {Wire P : Type 0} (store : P) (protocol : DataProtocol Wire) where
  unfoldable pub subdevices_builder : ℕ → WolkBuilder Wire P
  subdevices_builder status_listener = with_registration (
      with_error_protocol 600000 (
        with_platform_status (some status_listener) (
          with_file_transfer (codes "./files") max_packet_size
            (with_host (codes "tcp://localhost:1883") (wolk_builder store protocol [])))))

module _ {Wire P Fs Info : Type 0} where
  -- The calls before the first sleep; `pi_reference` and `pi` are the texts of π and of 3.14.
  unfoldable pub first_calls : ℕ → Text → Text → Wolk Wire P Fs Info → Wolk Wire P Fs Info
  first_calls now pi_reference pi w = pull_parameters device_two.key (
      pull_feed_values device_two.key
        (publish (add_string_reading now device_one.key pi_reference pi 0 (connect w))))

  -- One turn of the endless loop.
  unfoldable pub subdevices_turn : ℕ → Wolk Wire P Fs Info → Wolk Wire P Fs Info
  subdevices_turn now w =
      publish (add_string_reading now device_three.key (codes "APM") (codes "400") 0 w)

module _ {Wire P Fs D Info : Type 0} (Status : Type 0) (e : Surroundings Wire P Fs D Info) where
  unfoldable pub build_subdevices :
      P → DataProtocol Wire → Fs → ℕ → Outcome (Built Wire P Fs D Info Status)
  build_subdevices store protocol disk status_listener =
      build_wolk_multi e disk (subdevices_builder store protocol status_listener)

  -- From the start to the loop. Whether the device was added is not looked at.
  unfoldable pub start :
      P → DataProtocol Wire → Fs → ℕ → ℕ → Text → Text → Outcome (Wolk Wire P Fs Info)
  start store protocol disk status_listener now pi_reference pi =
      elim (build_subdevices store protocol disk status_listener) [
        | thrown error ↦ thrown error
        | undefined ↦ undefined
        | built b ↦ built (add_device e device_three (first_calls now pi_reference pi b.wolk)).1
      ]
