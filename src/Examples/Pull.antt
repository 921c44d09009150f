-- ===== src/Examples/Pull.antt =====
-- examples/pull: the handler of the feeds, and the loop that connects for each exchange.
use wolk_connect_task.Prelude.{
  Text, ℕ, Bool, some, List, [], ◌∷◌, codes, text_eq, ◌==◌, if◌then◌else◌,
}
use wolk_connect_task.Sdk.{Reading}
use wolk_connect_task.Data.{DataProtocol}
use wolk_connect_task.Wolk.{Wolk, connect, publish, disconnect}
use wolk_connect_task.Wolk.Single.{add_string_reading, pull_feed_values, pull_parameters}
use wolk_connect_task.Builder.{
  WolkBuilder, wolk_builder, with_host, with_ca_cert_path, with_feed_update_handler,
  with_parameter_handler,
}
use wolk_connect_task.Examples.{example_device, ca_cert_path}

pub record DeviceData : Type 0 where
  pub toggle : Bool
  pub heartbeat : ℕ

-- The values are read of the readings by the SDK.
module _ (get_bool_value : Reading → Bool) (get_uint_value : Reading → ℕ) where
  unfoldable pub handle_reading : Reading → DeviceData → DeviceData
  handle_reading reading data_of =
      if reading.reference == codes "SW"
      then record data_of { toggle = get_bool_value reading }
      else if reading.reference == codes "HB"
      then record data_of { heartbeat = get_uint_value reading }
      else data_of

  unfoldable pub handle_readings : List Reading → DeviceData → DeviceData
  handle_readings [] data_of = data_of
  handle_readings (reading ∷ readings) data_of =
      handle_readings readings (handle_reading reading data_of)

  -- The times are those of the map, in their order.
  unfoldable pub handle_update : List (ℕ × List Reading) → DeviceData → DeviceData
  handle_update [] data_of = data_of
  handle_update ((time, readings) ∷ pairs) data_of =
      handle_update pairs (handle_readings readings data_of)

module _ {Wire P : Type 0} (store : P) (protocol : DataProtocol Wire) where
  -- The two handlers are named by numbers.
  unfoldable pub pull_builder : ℕ → ℕ → WolkBuilder Wire P
  pull_builder feed_handler parameter_handler = with_parameter_handler (some parameter_handler) (
      with_feed_update_handler (some feed_handler) (
        with_ca_cert_path ca_cert_path (
          with_host (codes "ssl://INSERT_HOSTNAME:PORT")
            (wolk_builder store protocol (example_device ∷ [])))))

module _ {Wire P Fs Info : Type 0} (bool_text : Bool → Text) where
  -- One turn of the endless loop, at the time of the reading.
  unfoldable pub pull_turn : ℕ → Wolk Wire P Fs Info → Wolk Wire P Fs Info
  pull_turn now w = disconnect (
      publish (
        add_string_reading now (codes "SW") (bool_text Bool.false) 0
          (pull_parameters (pull_feed_values (connect w)))))
